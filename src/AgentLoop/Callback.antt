-- ===== src/AgentLoop/Callback.antt =====
-- The answer to a confirm card: AgentLoop.resolve_confirm_callback (src/core/agent_loop.py). The
-- deferred tool runs only once the interrupt is settled, with the arguments that its payload holds.
pub mod Settled
use im_assistant.Prelude.{
  Bool, true, false, not, ◌&&◌, Option, none, some, [], Text, codes, strip, is_empty, ◌==◌,
  or_default, Action, Result, ok, err, bind, loop_state_error, loop_tool_error, value_error, lift,
  pure, raise, ◌>>=◌, ◌>>◌, non_empty_string, if◌then◌else◌,
}
use im_assistant.Prelude.Dict as Dict
use im_assistant.Json.{Value, text, boolean, object, Mapping, empty, entry, get}
use im_assistant.Json.Plain.{plain_object}
use im_assistant.Json.Equal.{same_mapping}
use im_assistant.Session.{Session}
use im_assistant.Store.Records.{Db, InteractionRecord, SessionRecord, MessageRole}
use im_assistant.Store.Messages.{add_message}
use im_assistant.Store.Sessions.{get_session}
use im_assistant.Store.Interactions.{is_pending, get_pending_interaction}
use im_assistant.Interrupt.Manager.{cancel_interrupt, resolve_interrupt}
use im_assistant.Capability.{Capability}
use im_assistant.AgentLoop.{Wiring, Outcome, value, ToolUseRequest, Confirm}
use im_assistant.AgentLoop.Texts.{loaded_session}
use im_assistant.AgentLoop.Tools.{required_text, visible_capabilities, by_name}
use im_assistant.AgentLoop.Calls.{
  then_value, credential_context_for_capability, execute_capability_handler,
}

pub data CallbackStatus : Type 0 where
  confirmed cancelled : CallbackStatus

-- ConfirmCallbackResult
pub record ConfirmCallbackResult : Type 0 where
  pub correlation_id : Text
  pub status : CallbackStatus
  pub tool_result : Option Text

-- `_mapping_value`
unfoldable pub mapping_value : Mapping → Text → Result Mapping
mapping_value m key = elim (get key m) [ some (object n) ↦ ok n | _ ↦ err loop_tool_error ]

abbrev confirmed_session : Option SessionRecord → Result Session
confirmed_session none = err loop_state_error
confirmed_session (some r) = elim r.actor_id [
  | none ↦ err value_error
  | some a ↦ bind (non_empty_string a) λ actor. loaded_session actor r
]

-- `_session_from_confirm_payload`
unfoldable pub session_from_confirm_payload : Mapping → Action Db Session
session_from_confirm_payload payload = do
  session_id ← lift (required_text (get (codes "session_id") payload))
  found ← get_session session_id
  lift (confirmed_session found)

abbrev is_runtime_sensitivity : Option Value → Bool
is_runtime_sensitivity (some (text s)) = s == codes "runtime_sensitivity"
is_runtime_sensitivity _ = false

module _ {H : Type 0} where
  -- `_ApprovedCapabilityConfirmation.confirm`: the handler asks for what was approved.
  unfoldable pub approved_confirmation : Text → Mapping → Confirm H
  approved_confirmation action details a d = bind (non_empty_string a) λ asked.
      bind (plain_object d) λ normalized.
        if asked == action && same_mapping normalized details
        then ok (value true)
        else err loop_tool_error

  -- `_PreApprovedCapabilityConfirmation.confirm`
  unfoldable pub pre_approved_confirmation : Confirm H
  pre_approved_confirmation a d =
      bind (non_empty_string a) λ _. bind (plain_object d) λ _. ok (value true)

  -- `_confirmation_for_confirmed_tool`
  unfoldable pub confirmation_for_confirmed_tool : Mapping → Result (Confirm H)
  unfolding approved_confirmation pre_approved_confirmation mapping_value
  confirmation_for_confirmed_tool payload =
      if is_runtime_sensitivity (get (codes "confirm_source") payload)
      then ok pre_approved_confirmation
      else bind (required_text (get (codes "action") payload)) λ action.
        bind (mapping_value payload (codes "details"))
          λ details. bind (plain_object details) λ plain. ok (approved_confirmation action plain)

-- The tool use that a payload holds.
unfoldable pub confirmed_tool_use : Mapping → Result ToolUseRequest
unfolding mapping_value
confirmed_tool_use payload = bind (required_text (get (codes "capability") payload)) λ name.
    bind (required_text (get (codes "tool_use_id") payload)) λ id.
      bind (mapping_value payload (codes "arguments")) λ arguments.
        bind (plain_object arguments)
          λ plain. ok (record { id = id; name = name; arguments = plain })

abbrev pub or_completed : Text → Text
or_completed s = if is_empty (strip s) then codes "confirmed tool completed" else s

abbrev pub actor_of : Option Value → Option Text
actor_of (some (text s)) = some s
actor_of _ = none

abbrev pub confirm_record : Option InteractionRecord → Result InteractionRecord
confirm_record none = err loop_state_error
confirm_record (some r) =
    if is_pending r.status
    then if r.kind == codes "confirm" then ok r else err loop_state_error
    else err loop_state_error

abbrev pub executed_metadata : Text → Mapping
executed_metadata correlation_id = entry (codes "status") (text (codes "confirm_executed")) (
    entry (codes "kind") (text (codes "confirm"))
      (entry (codes "correlation_id") (text correlation_id) empty))

abbrev pub answer_payload : Bool → Mapping → Mapping
answer_payload approved callback =
    entry (codes "approved") (boolean approved) (entry (codes "callback") (object callback) empty)

abbrev pub declined : {H : Type 0} → Text → Outcome H ConfirmCallbackResult
declined correlation_id =
    value (record { correlation_id = correlation_id; status = cancelled; tool_result = none })

module _ {H : Type 0} (w : Wiring H) where
  -- A tool that was confirmed is run by the executor, or by its handler with what was approved.
  unfoldable pub run_confirmed :
      Session → Capability H → ToolUseRequest → Mapping → Action Db (Outcome H Text)
  unfolding confirmation_for_confirmed_tool
  run_confirmed session c tool_use payload =
      then_value (credential_context_for_capability w session c tool_use) λ credentials.
        then_value
          (elim w.tool_executor [
            | some execute ↦ do
              result ← execute session tool_use.name tool_use.arguments
              pure (value result)
            | none ↦ do
              confirm ← lift (confirmation_for_confirmed_tool payload)
              execute_capability_handler w session c tool_use.arguments credentials confirm
          ])
          λ result. pure (value (or_completed result))

  abbrev available : Option (Capability H) → Result (Capability H)
  available none = err loop_tool_error
  available (some c) = ok c

  -- `_execute_confirmed_tool`
  unfoldable pub execute_confirmed_tool : Mapping → Action Db (Outcome H Text)
  unfolding session_from_confirm_payload confirmed_tool_use run_confirmed
  execute_confirmed_tool payload = do
    session ← session_from_confirm_payload payload
    tool_use ← lift (confirmed_tool_use payload)
    visible ← lift (visible_capabilities w session)
    c ← lift (available (Dict.get tool_use.name (by_name visible [])))
    run_confirmed session c tool_use payload

  -- Once the interrupt is resolved: the tool runs, and its result is a message of the Session.
  unfoldable pub after_approval :
      Text → InteractionRecord → Action Db (Outcome H ConfirmCallbackResult)
  unfolding execute_confirmed_tool
  after_approval correlation_id r = then_value (execute_confirmed_tool r.payload) λ result. do
    _ ←
        add_message w.now r.session_id MessageRole.tool result
          (actor_of (get (codes "capability") r.payload)) none (executed_metadata correlation_id)
          none
    pure (
        value (record {
          correlation_id = correlation_id;
          status = confirmed;
          tool_result = some result;
        }))

  abbrev answered :
      Bool → Text → Text → Mapping → InteractionRecord → Action Db (Outcome H ConfirmCallbackResult)
  answered true correlation_id responder payload r = do
    _ ← resolve_interrupt w.audited w.now correlation_id (some payload) responder
    after_approval correlation_id r
  answered false correlation_id responder payload r = do
    _ ←
        cancel_interrupt w.audited w.now correlation_id (codes "user_cancelled") (some payload)
          responder true false
    pure (declined correlation_id)

  -- `AgentLoop.resolve_confirm_callback`
  unfoldable pub resolve_confirm_callback :
      Text → Text → Bool → Option Mapping → Action Db (Outcome H ConfirmCallbackResult)
  unfolding after_approval
  resolve_confirm_callback correlation_id responder approved callback_payload = do
    found ← get_pending_interaction correlation_id
    r ← lift (confirm_record found)
    callback ← lift (plain_object (or_default callback_payload empty))
    answered approved correlation_id responder (answer_payload approved callback) r
