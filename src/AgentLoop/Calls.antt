-- ===== src/AgentLoop/Calls.antt =====
-- The calls of tools within a turn, and the loop around them (src/core/agent_loop.py).
use im_assistant.Prelude.{
  ℕ, zero, suc, Option, none, some, List, [], ◌∷◌, ◌++◌, Text, codes, strip, is_empty, Result, ok,
  err, bind, Action, loop_tool_error, lift, pure, raise, ◌>>=◌, non_empty_string, if◌then◌else◌,
}
use im_assistant.Prelude.Dict as Dict
use im_assistant.Prelude.Dict.{Dict}
use im_assistant.Json.{array, Mapping}
use im_assistant.Json.Plain.{plain_object}
use im_assistant.Session.{Session}
use im_assistant.Store.Records.{Db}
use im_assistant.Capability.{Capability, Requirement}
use im_assistant.Capability.Credential.{CredentialHandle, CredentialContext, for_session}
use im_assistant.Capability.Authorizer.{AuthorizationResolution, granted, needs_consent, denied}
use im_assistant.AgentLoop.{
  Wiring, ToolUseRequest, ToolUseResponse, Outcome, value, wants_consent, wants_confirm, Confirm,
  handler, runtime_sensitivity,
}
use im_assistant.AgentLoop.Texts.{
  requires_runtime_confirm, runtime_confirm_action, runtime_confirm_details,
}
use im_assistant.AgentLoop.Tools.{
  message, tool_uses_from_content, blocks, tool_result, failed_result, by_name, tool_definitions,
}

-- What follows a call that did not suspend the turn.
abbrev pub then_value :
    {H A B : Type 0}
    → Action Db (Outcome H A)
    → (A → Action Db (Outcome H B))
    → Action Db (Outcome H B)
then_value m f = do
  o ← m
  elim o [
    | value a ↦ f a
    | wants_consent c ↦ pure (wants_consent c)
    | wants_confirm c ↦ pure (wants_confirm c)
  ]

module _ {H : Type 0} (w : Wiring H) where
  abbrev pub after_resolution :
      Capability H
      → ToolUseRequest
      → AuthorizationResolution
      → (CredentialHandle → Action Db (Outcome H (List CredentialHandle)))
      → Action Db (Outcome H (List CredentialHandle))
  after_resolution c tool_use (granted h) more = more h
  after_resolution c tool_use (needs_consent url pending reason) more = pure (
      wants_consent (record {
        url = url;
        pending = pending;
        reason = reason;
        capability = c;
        tool_use = tool_use;
      }))
  after_resolution c tool_use (denied reason) more = raise loop_tool_error

  -- The loop over the requirements of a capability.
  unfoldable pub resolve_requirements :
      (Requirement → Action Db AuthorizationResolution)
      → Capability H
      → ToolUseRequest
      → List Requirement
      → Action Db (Outcome H (List CredentialHandle))
  resolve_requirements authorize c tool_use [] = pure (value [])
  resolve_requirements authorize c tool_use (r ∷ rs) = do
    resolution ← authorize r
    after_resolution c tool_use resolution
        λ h. then_value (resolve_requirements authorize c tool_use rs) λ hs. pure (value (h ∷ hs))

  -- `_credential_context_for_capability`
  unfoldable pub credential_context_for_capability :
      Session → Capability H → ToolUseRequest → Action Db (Outcome H CredentialContext)
  unfolding resolve_requirements
  credential_context_for_capability session c tool_use = elim c.requires [
    | [] ↦ do context ← lift (for_session session [] none); pure (value context)
    | _ ∷ _ ↦ elim w.authorizer [
      | none ↦ raise loop_tool_error
      | some authorize ↦
          then_value
            (resolve_requirements
              (λ r.
                authorize r session.actor session.kind (some session.principal.id)
                  (some session.session_id))
              c tool_use c.requires)
            λ handles. do context ← lift (for_session session handles none); pure (value context)
    ]
  ]

  -- `_RequestingCapabilityConfirmation.confirm`
  unfoldable pub requesting_confirmation : Capability H → ToolUseRequest → Confirm H
  requesting_confirmation c tool_use action details = bind (non_empty_string action) λ a.
      bind (plain_object details) λ d. ok (
        wants_confirm (record {
          correlation_id = w.confirm_id tool_use;
          action = a;
          details = d;
          capability = c;
          tool_use = tool_use;
          source = handler;
        }))

  -- `_execute_capability_handler`
  unfoldable pub execute_capability_handler :
      Session → Capability H → Mapping → CredentialContext → Confirm H → Action Db (Outcome H Text)
  execute_capability_handler session c arguments credentials confirm = elim c.handler [
    | none ↦ raise loop_tool_error
    | some h ↦
        w.call_handler h (record { session = session; capability = c; credentials = credentials })
          arguments confirm
  ]

  -- A tool that may run: the executor runs it, or its handler.
  unfoldable pub run_tool :
      Session
      → Capability H
      → ToolUseRequest
      → CredentialContext
      → Confirm H
      → Action Db (Outcome H Text)
  unfolding execute_capability_handler
  run_tool session c tool_use credentials confirm = elim w.tool_executor [
    | some execute ↦ do
      result ← execute session tool_use.name tool_use.arguments
      pure (value result)
    | none ↦ execute_capability_handler session c tool_use.arguments credentials confirm
  ]

  -- A capability of high sensitivity waits for a confirmation, whatever its handler does.
  unfoldable pub call_with :
      Session → Capability H → ToolUseRequest → CredentialContext → Action Db (Outcome H Text)
  unfolding run_tool requesting_confirmation
  call_with session c tool_use credentials =
      if requires_runtime_confirm c
      then (do
        details ← lift (runtime_confirm_details session c tool_use)
        plain ← lift (plain_object details)
        pure (
            wants_confirm (record {
              correlation_id = w.confirm_id tool_use;
              action = runtime_confirm_action c;
              details = plain;
              capability = c;
              tool_use = tool_use;
              source = runtime_sensitivity;
            })))
      else run_tool session c tool_use credentials (requesting_confirmation c tool_use)

  abbrev pub named_call :
      Session → ToolUseRequest → Option (Capability H) → Action Db (Outcome H Text)
  named_call session tool_use none = raise loop_tool_error
  named_call session tool_use (some c) =
      then_value (credential_context_for_capability session c tool_use)
        λ credentials. call_with session c tool_use credentials

  -- `_execute_tool_call`
  unfoldable pub execute_tool_call :
      Session → Dict (Capability H) → ToolUseRequest → Action Db (Outcome H Text)
  unfolding credential_context_for_capability call_with
  execute_tool_call session capabilities tool_use =
      named_call session tool_use (Dict.get tool_use.name capabilities)

  abbrev pub reported :
      ToolUseRequest → Result (Outcome H Text) × Db → Result (Outcome H Mapping) × Db
  reported u (ok (value content), db) = (ok (value (tool_result u content)), db)
  reported u (ok (wants_consent c), db) = (ok (wants_consent c), db)
  reported u (ok (wants_confirm c), db) = (ok (wants_confirm c), db)
  reported u (err e, db) = (
    ok (value (failed_result u (codes "Tool " ++ u.name ++ codes " failed: " ++ w.message e))),
    db,
  )

  -- `_tool_result_for_call`: a failure is told to the model, what suspends the turn goes on.
  unfoldable pub tool_result_for_call :
      Session → Dict (Capability H) → ToolUseRequest → Action Db (Outcome H Mapping)
  tool_result_for_call session capabilities u db =
      reported u (execute_tool_call session capabilities u db)

  unfoldable pub tool_results :
      Session → Dict (Capability H) → List ToolUseRequest → Action Db (Outcome H (List Mapping))
  unfolding tool_result_for_call
  tool_results session capabilities [] = pure (value [])
  tool_results session capabilities (u ∷ us) =
      then_value (tool_result_for_call session capabilities u)
        λ r. then_value (tool_results session capabilities us) λ rs. pure (value (r ∷ rs))

  abbrev final_text : Text → Result Text
  final_text reply = let s = strip reply in if is_empty s then err loop_tool_error else ok s

  abbrev request_with :
      Option (List Mapping → List Mapping → Result ToolUseResponse)
      → List Mapping
      → List Mapping
      → Result ToolUseResponse
  request_with none messages tools = err loop_tool_error
  request_with (some request) messages tools = request messages tools

  -- The loop of `_complete_with_tools`, over the rounds that are left.
  unfoldable pub tool_rounds :
      ℕ → Session → List Mapping → Dict (Capability H) → List Mapping → Action Db (Outcome H Text)
  unfolding tool_results
  tool_rounds zero session tools capabilities messages = raise loop_tool_error
  tool_rounds (suc rounds) session tools capabilities messages = do
    response ← lift (request_with w.create_message messages tools)
    uses ← lift (tool_uses_from_content response.content)
    elim uses [
      | [] ↦ do reply ← lift (final_text response.text); pure (value reply)
      | u ∷ us ↦ then_value (tool_results session capabilities (u ∷ us)) λ results.
          tool_rounds rounds session tools capabilities (
            messages
            ++ message (codes "assistant") (array (blocks response.content))
              ∷ message (codes "user") (array (blocks results))
              ∷ [])
    ]

  -- `_complete_with_tools`
  unfoldable pub complete_with_tools :
      Session → List Mapping → List (Capability H) → Action Db (Outcome H Text)
  unfolding tool_rounds
  complete_with_tools session messages capabilities = do
    tools ← lift (tool_definitions w capabilities)
    tool_rounds w.max_tool_iterations session tools (by_name capabilities []) messages
