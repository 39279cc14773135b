-- ===== src/AgentLoop/Tools.antt =====
-- The tool-use loop of a turn: which capabilities the model sees, and what a call of one comes to
-- (src/core/agent_loop.py).
use im_assistant.Prelude.{
  Bool, true, false, ◌||◌, Option, none, some, List, [], ◌∷◌, ◌++◌, Text, codes, ◌==◌, is_some,
  or_default, Result, ok, err, bind, loop_tool_error, value_error, non_empty_string, if◌then◌else◌,
}
use im_assistant.Prelude.Dict as Dict
use im_assistant.Prelude.Dict.{Dict}
use im_assistant.Json.{
  Value, null, boolean, text, object, Items, nil, cons, Mapping, empty, entry, get,
}
use im_assistant.Json.Plain.{plain_object}
use im_assistant.Audit.{stripped_text}
use im_assistant.Session.{Session, dm, group}
use im_assistant.Store.Records.{MessageRecord, MessageRole}
use im_assistant.Capability.{Capability}
use im_assistant.Capability.Registry.{
  CapabilityChannelContext, channel_context, can_use, list_capabilities,
}
use im_assistant.AgentLoop.{Wiring, ToolUseRequest}

abbrev pub message : Text → Value → Mapping
message role content = entry (codes "role") (text role) (entry (codes "content") content empty)

-- `_llm_messages_from_history`
unfoldable pub llm_messages_from_history : List MessageRecord → List Mapping
llm_messages_from_history [] = []
llm_messages_from_history (r ∷ rs) =
    let rest = llm_messages_from_history rs in
    elim r.role [
      | MessageRole.user ↦ message (codes "user") (text r.content) ∷ rest
      | MessageRole.assistant ↦ message (codes "assistant") (text r.content) ∷ rest
      | _ ↦ rest
    ]

-- `_group_channel_id`
unfoldable pub group_channel_id : Session → Text
group_channel_id session =
    or_default (stripped_text (get (codes "open_conversation_id") session.context))
      session.conversation_id

-- `_channel_context_for_session`
unfoldable pub channel_context_for_session :
    Session → Dict (List Text) → Result (Option CapabilityChannelContext)
unfolding group_channel_id
channel_context_for_session session enabled = elim session.kind [
  | dm ↦ ok none
  | group ↦
      bind
        (channel_context (group_channel_id session)
          (or_default (Dict.get (group_channel_id session) enabled) []))
        λ c. ok (some c)
]

-- The arguments of a tool use, none being an empty object.
abbrev arguments_of : Option Value → Result Mapping
arguments_of none = ok empty
arguments_of (some null) = ok empty
arguments_of (some (object m)) = ok m
arguments_of (some _) = err loop_tool_error

abbrev pub required_text : Option Value → Result Text
required_text (some (text s)) = non_empty_string s
required_text _ = err value_error

abbrev is_tool_use : Option Value → Bool
is_tool_use (some (text s)) = s == codes "tool_use"
is_tool_use _ = false

tool_use_of : Mapping → Result ToolUseRequest
tool_use_of block = bind (arguments_of (get (codes "input") block)) λ arguments.
    bind (required_text (get (codes "id") block)) λ id.
      bind (required_text (get (codes "name") block))
        λ name. ok (record { id = id; name = name; arguments = arguments })

-- `_tool_uses_from_content`
unfoldable pub tool_uses_from_content : List Mapping → Result (List ToolUseRequest)
unfolding tool_use_of
tool_uses_from_content [] = ok []
tool_uses_from_content (block ∷ blocks) =
    let rest = tool_uses_from_content blocks in
    if is_tool_use (get (codes "type") block)
    then (bind (tool_use_of block) λ u. bind rest λ us. ok (u ∷ us))
    else rest

-- A list of blocks as the content of a message.
unfoldable pub blocks : List Mapping → Items
blocks [] = nil
blocks (m ∷ ms) = cons (object m) (blocks ms)

abbrev pub tool_result : ToolUseRequest → Text → Mapping
tool_result u content =
    entry (codes "type") (text (codes "tool_result"))
      (entry (codes "tool_use_id") (text u.id) (entry (codes "content") (text content) empty))

abbrev pub failed_result : ToolUseRequest → Text → Mapping
failed_result u content = entry (codes "type") (text (codes "tool_result")) (
    entry (codes "tool_use_id") (text u.id)
      (entry (codes "content") (text content) (entry (codes "is_error") (boolean true) empty)))

module _ {H : Type 0} where
  -- `capabilities_by_name`
  unfoldable pub by_name : List (Capability H) → Dict (Capability H) → Dict (Capability H)
  by_name [] done = done
  by_name (c ∷ cs) done = by_name cs (Dict.set c.name c done)

  -- `_capability_description`
  unfoldable pub capability_description : Wiring H → Capability H → Text
  capability_description w c = elim c.description [
    | some d ↦ d
    | none ↦
        or_default (elim c.handler [ none ↦ none | some h ↦ w.doc_line h ])
          (codes "Capability " ++ c.name)
  ]

  -- `_claude_tool_definition`
  unfoldable pub claude_tool_definition : Wiring H → Capability H → Result Mapping
  unfolding capability_description
  claude_tool_definition w c = bind (plain_object c.input_schema) λ schema. ok (
      entry (codes "name") (text c.name) (
        entry (codes "description") (text (capability_description w c))
          (entry (codes "input_schema") (object schema) empty)))

  unfoldable pub tool_definitions : Wiring H → List (Capability H) → Result (List Mapping)
  unfolding claude_tool_definition
  tool_definitions w [] = ok []
  tool_definitions w (c ∷ cs) =
      bind (claude_tool_definition w c) λ d. bind (tool_definitions w cs) λ ds. ok (d ∷ ds)

  -- The filter of `_visible_capabilities`.
  unfoldable pub select_visible :
      Wiring H
      → Session
      → Option CapabilityChannelContext
      → List (Capability H)
      → Result (List (Capability H))
  select_visible w session channel [] = ok []
  select_visible w session channel (c ∷ cs) =
      bind
        (if is_some w.tool_executor || is_some c.handler
          then can_use c session.kind session.actor channel
          else ok false)
        λ seen.
          bind (select_visible w session channel cs) λ rest. ok (if seen then c ∷ rest else rest)

  -- `_visible_capabilities`
  unfoldable pub visible_capabilities : Wiring H → Session → Result (List (Capability H))
  unfolding select_visible channel_context_for_session
  visible_capabilities w session = elim (w.registry session) [
    | none ↦ ok []
    | some registry ↦
        bind (channel_context_for_session session w.channel_enabled_capabilities)
          λ channel. select_visible w session channel (list_capabilities registry)
  ]
