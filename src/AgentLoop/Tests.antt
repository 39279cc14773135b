-- ===== src/AgentLoop/Tests.antt =====
-- A turn in which the model asks for a sensitive tool, the answers to its card, and the theorems at
-- those calls.
use mathlib.Core.Option.{some-injective}
use im_assistant.Prelude.{
  sym, ap, ◌+◌, ◌≡◌, ◌≤◌, ◌⊎◌, refl, true, false, Option, none, some, [], ◌∷◌, Text, codes, ok, err,
  other_error, loop_state_error, Action, is_space, lstrip, rcons, rstrip, strip, lower, ◌==◌,
  member, non_empty_string, non_empty_strings, optional_string, find, update, count, exists, select,
  pure,
}
use im_assistant.Prelude.Dict.{Dict, get, set, contains}
use im_assistant.Prelude.Sorted.{sorted_keys, values_at}
use im_assistant.Instant.{Instant, isoformat, seconds}
use im_assistant.Json as Json
use im_assistant.Json.{text, object, array, nil, cons, Mapping, empty, entry}
use im_assistant.Json.Plain.{plain_object, plain_value, plain_fields, plain_items}
use im_assistant.Json.Equal.{same_mapping, same_value, same_items, within}
use im_assistant.Session.{Session, SessionState}
use im_assistant.Store.Records.{Db, InteractionRecord, MessageRole}
use im_assistant.Store.AuditLog.{append_audit_log}
use im_assistant.Store.Sessions.{put_session, get_session, session_row, upsert_session}
use im_assistant.Store.Messages.{add_message, list_recent_messages, positive_int}
use im_assistant.Store.Interactions.{
  pending_interaction_kind, terminal_status, get_pending_interaction, interaction_row,
  create_pending_interaction, resolve_pending_interaction,
}
use im_assistant.Audit.{stripped_text, interaction_subject, record_interaction_decision}
use im_assistant.Interrupt.{
  InterruptKind, InterruptResolution, interrupt_kind, session_interrupt, resolve, cancel,
  to_context, record_payload, to_record_payload,
}
use im_assistant.Interrupt.Manager.{
  session_record_with_state, context_with_interrupt, context_without_interrupt,
  interrupt_from_record, new_interrupt, suspend, create, record_decision, finish, resolve_interrupt,
  cancel_interrupt,
}
use im_assistant.Capability.{Capability, everywhere, system, any_on_behalf, requires_user_authority}
use im_assistant.Capability.Registry.{channel_context, list_capabilities, offers, can_use}
use im_assistant.Capability.Credential.{
  user_context, group_context, credential_context, optional_context_string, handle_map,
  handle_mapping, for_session,
}
use im_assistant.AgentLoop.{
  Wiring, ToolUseRequest, ToolUseResponse, Outcome, value, ExecutionContext, Confirm,
  ConfirmRequired,
}
use im_assistant.AgentLoop.Texts.{
  confirm_reply_text, confirm_interrupt_payload, confirm_metadata, requires_runtime_confirm,
  runtime_confirm_action, runtime_confirm_details, command_cancelled, effective_cancellation_reason,
  runtime_responder, cancellation_resolution_payload, pending_action_label, pending_service_label,
  pending_capability_name, cancellation_notice_text, cancelled_tool_result, loaded_session,
  session_from_record,
}
use im_assistant.AgentLoop.Tools.{
  llm_messages_from_history, group_channel_id, channel_context_for_session, tool_uses_from_content,
  blocks, by_name, capability_description, claude_tool_definition, tool_definitions, select_visible,
  visible_capabilities,
}
use im_assistant.AgentLoop.Calls.{
  resolve_requirements, credential_context_for_capability, requesting_confirmation,
  execute_capability_handler, run_tool, call_with, execute_tool_call, tool_result_for_call,
  tool_results, tool_rounds, complete_with_tools,
}
use im_assistant.AgentLoop.Gate.{rewired, execute_tool_call-gated}
use im_assistant.AgentLoop.Turn.{
  AgentRunResult, awaiting, pending_interaction_info, session_open_conversation_id, persist_turn,
  set_session_state, send_confirm_card, reply_of, completed_turn, awaiting_turn, consent_turn,
  confirm_turn, run,
}
use im_assistant.AgentLoop.Turn.Ends.{Ends}
use im_assistant.AgentLoop.Turn.Whole.{IsSilent, run-Ends}
use im_assistant.AgentLoop.Cancellation.{
  InteractionCancellationResult, is_timeout, persist_interaction_cancellation, close_interaction,
  cancel_pending_interaction_record, cancel_pending_interaction,
  cancel_pending_interaction_for_session,
}
use im_assistant.AgentLoop.Cancellation.Closed.{IsClosed, cancel_pending_interaction-IsClosed}
use im_assistant.AgentLoop.Callback.{
  ConfirmCallbackResult, confirmed, mapping_value, session_from_confirm_payload,
  approved_confirmation, pre_approved_confirmation, confirmation_for_confirmed_tool,
  confirmed_tool_use, run_confirmed, execute_confirmed_tool, after_approval, declined,
  resolve_confirm_callback,
}
use im_assistant.AgentLoop.Callback.Settled.{
  resolve_confirm_callback-IsSettled, declined_callback-IsSettled, resolve_confirm_callback_once,
}
use im_assistant.Store.Interactions.Later.{Later}
use im_assistant.Interrupt.Writes.{add_message-Later}
use im_assistant.Interrupt.Once.{IsSettled}
use im_assistant.Store.Records as Records
use im_assistant.Samples.{noon, s1, with_s1}

program : Unit {0}
unfolding is_space lstrip rcons rstrip strip lower ◌==◌ member non_empty_string non_empty_strings
    optional_string find update count exists select get set contains sorted_keys values_at isoformat
    Json.get Json.set Json.pop Json.merge Json.truthy plain_object plain_value plain_fields
    plain_items same_mapping same_value same_items within append_audit_log put_session get_session
    session_row upsert_session add_message list_recent_messages positive_int
    pending_interaction_kind terminal_status get_pending_interaction interaction_row
    create_pending_interaction resolve_pending_interaction stripped_text interaction_subject
    record_interaction_decision interrupt_kind session_interrupt resolve cancel to_context
    record_payload to_record_payload session_record_with_state context_with_interrupt
    context_without_interrupt interrupt_from_record new_interrupt suspend create record_decision
    finish resolve_interrupt cancel_interrupt any_on_behalf requires_user_authority channel_context
    list_capabilities offers can_use user_context group_context credential_context
    optional_context_string handle_map handle_mapping for_session confirm_reply_text
    confirm_interrupt_payload confirm_metadata requires_runtime_confirm runtime_confirm_action
    runtime_confirm_details effective_cancellation_reason runtime_responder
    cancellation_resolution_payload pending_action_label pending_service_label
    pending_capability_name cancellation_notice_text cancelled_tool_result loaded_session
    session_from_record llm_messages_from_history group_channel_id channel_context_for_session
    tool_uses_from_content blocks by_name capability_description claude_tool_definition
    tool_definitions select_visible visible_capabilities resolve_requirements
    credential_context_for_capability requesting_confirmation execute_capability_handler run_tool
    call_with execute_tool_call tool_result_for_call tool_results tool_rounds complete_with_tools
    pending_interaction_info session_open_conversation_id persist_turn set_session_state
    send_confirm_card reply_of completed_turn awaiting_turn consent_turn confirm_turn run
    persist_interaction_cancellation close_interaction cancel_pending_interaction_record
    cancel_pending_interaction cancel_pending_interaction_for_session mapping_value
    session_from_confirm_payload approved_confirmation pre_approved_confirmation
    confirmation_for_confirmed_tool confirmed_tool_use run_confirmed execute_confirmed_tool
    after_approval resolve_confirm_callback
program = tt

-- A tool that drops a table, and is asked for at once.
abbrev dropper : Capability (Unit {0})
dropper = record {
  name = codes "drop";
  origin = system;
  available_in = everywhere ∷ [];
  requires = [];
  sensitivity = codes "high";
  handler = some tt;
  owner_id = none;
  description = some (codes "drops");
  input_schema = entry (codes "type") (text (codes "object")) empty;
}

abbrev tools : Dict (Capability (Unit {0}))
tools = (codes "drop", dropper) ∷ []

abbrev asks : ToolUseResponse
asks = record {
  content =
      entry (codes "type") (text (codes "tool_use")) (
        entry (codes "id") (text (codes "t1")) (
          entry (codes "name") (text (codes "drop")) (
            entry (codes "input") (object (entry (codes "table") (text (codes "x")) empty)) empty)))
      ∷ [];
  text = [];
}

abbrev silent_sender :
    Session → ConfirmRequired (Unit {0}) → Option Text → Instant → Action Db (Unit {0})
silent_sender s c at t db = (ok tt, db)

abbrev drops :
    Unit {0}
    → ExecutionContext (Unit {0})
    → Mapping
    → Confirm (Unit {0})
    → Action Db (Outcome (Unit {0}) Text)
drops h c m confirm = pure (value (codes "dropped"))

abbrev wiring : Wiring (Unit {0})
wiring = record {
  complete = λ m. ok (codes "hi");
  create_message = some (λ m t. ok asks);
  call_handler = drops;
  doc_line = λ h. none;
  tool_executor = none;
  registry = λ s. some tools;
  channel_enabled_capabilities = [];
  authorizer = none;
  confirm_card_sender = some silent_sender;
  confirm_id = λ u. codes "k1";
  message = λ e. codes "boom";
  dumps = λ m. codes "{}";
  history_limit = 20;
  confirm_timeout_seconds = 600;
  max_tool_iterations = 4;
  audited = true;
  now = noon;
}

abbrev call_drop : ToolUseRequest
call_drop = record { id = codes "t1"; name = codes "drop"; arguments = empty }

abbrev fails :
    Unit {0}
    → ExecutionContext (Unit {0})
    → Mapping
    → Confirm (Unit {0})
    → Action Db (Outcome (Unit {0}) Text)
fails h c m confirm db = (err other_error, db)

drop_found : get (codes "drop") tools ≡ some dropper
unfolding program
drop_found = refl

drop_sensitive : requires_runtime_confirm dropper ≡ true
unfolding program
drop_sensitive = refl

execute_tool_call-gated_example :
    execute_tool_call wiring s1 tools call_drop with_s1
    ≡ execute_tool_call (rewired wiring fails none) s1 tools call_drop with_s1
execute_tool_call-gated_example =
    execute_tool_call-gated wiring fails none s1 tools call_drop dropper with_s1 drop_found
      drop_sensitive

abbrev idle_s1 : Session
idle_s1 = record s1 { state = SessionState.idle }

abbrev waiting : Db
waiting = (run wiring idle_s1 (codes "drop it") none (some (codes "m1")) with_s1).1

abbrev suspended : AgentRunResult
suspended = record {
  reply_text = codes "请在钉钉确认卡片中确认是否执行：执行高敏感能力：drop";
  status = awaiting;
  pending_interaction = some (record {
    correlation_id = codes "k1";
    kind = codes "confirm";
    expires_at = noon + seconds 600;
  });
}

turn_suspended :
    run wiring idle_s1 (codes "drop it") none (some (codes "m1")) with_s1 ≡ (ok suspended, waiting)
unfolding program
turn_suspended = refl

wiring-IsSilent : IsSilent wiring
wiring-IsSilent send e s c at t db =
    ap (λ f. (f s c at t db).1) (sym (some-injective silent_sender send e))

run-Ends_example : (idle_s1.state ≡ SessionState.idle) × Ends idle_s1 suspended waiting
run-Ends_example =
    run-Ends wiring idle_s1 (codes "drop it") none (some (codes "m1")) suspended with_s1 waiting
      wiring-IsSilent turn_suspended

-- The answers to the card.
abbrev dropped : Db
dropped = (resolve_confirm_callback wiring (codes "k1") (codes "u1") true none waiting).1

abbrev told : Outcome (Unit {0}) ConfirmCallbackResult
told = value (record {
  correlation_id = codes "k1";
  status = confirmed;
  tool_result = some (codes "dropped");
})

drop_told :
    resolve_confirm_callback wiring (codes "k1") (codes "u1") true none waiting ≡ (ok told, dropped)
unfolding program
drop_told = refl

resolve_confirm_callback-IsSettled_example :
    (r : InteractionRecord) × (d : InterruptResolution) × (mid : Db) × IsSettled
      (codes "k1")
      r
      d
      waiting
      mid
    × (r.kind ≡ codes "confirm")
    × (d.status ≡ Records.resolved)
    × (non_empty_string (codes "u1") ≡ non_empty_string r.responder_id)
    × (noon ≤ r.expires_at)
    × (after_approval wiring (codes "k1") r mid ≡ (ok told, dropped))
resolve_confirm_callback-IsSettled_example =
    resolve_confirm_callback-IsSettled wiring (codes "k1") (codes "u1") none told waiting dropped
      drop_told

abbrev refused : Db
refused = (resolve_confirm_callback wiring (codes "k1") (codes "u1") false none waiting).1

drop_refused :
    resolve_confirm_callback wiring (codes "k1") (codes "u1") false none waiting
    ≡ (ok (declined (codes "k1")), refused)
unfolding program
drop_refused = refl

-- A message comes in between, and time goes by.
abbrev refused_later : Db
refused_later =
    (add_message noon (codes "s1") MessageRole.user (codes "hm") none none empty none refused).1

hm-Later : Later (codes "k1") refused refused_later
hm-Later =
    add_message-Later (codes "k1") noon (codes "s1") MessageRole.user (codes "hm") none none empty
      none refused

abbrev afternoon : Wiring (Unit {0})
afternoon = record wiring { now = noon + seconds 60 }

declined_callback-IsSettled_example :
    (declined {H = Unit {0}} (codes "k1") ≡ declined (codes "k1"))
    × (resolve_confirm_callback afternoon (codes "k1") (codes "u1") true none refused_later
        ≡ (err loop_state_error, refused_later))
    × ((r : InteractionRecord) × (d : InterruptResolution) × IsSettled
          (codes "k1")
          r
          d
          waiting
          refused
        × (r.kind ≡ codes "confirm")
        × (d.status ≡ Records.cancelled)
        × (non_empty_string (codes "u1") ≡ non_empty_string r.responder_id)
        × (noon ≤ r.expires_at))
declined_callback-IsSettled_example =
    declined_callback-IsSettled wiring afternoon (codes "k1") (codes "u1") (codes "u1") true none
      none (declined (codes "k1")) waiting refused refused_later drop_refused hm-Later

abbrev resumed : InterruptResolution
resumed = record {
  correlation_id = codes "k1";
  kind = InterruptKind.confirm;
  status = Records.resolved;
  responder = codes "u1";
  payload = empty;
  reason = none;
  resolved_at = noon;
}

abbrev settled : Db
settled = (resolve_interrupt true noon (codes "k1") none (codes "u1") waiting).1

drop_resumed :
    resolve_interrupt true noon (codes "k1") none (codes "u1") waiting ≡ (ok resumed, settled)
unfolding program
drop_resumed = refl

-- The result of the tool is stored.
abbrev result_stored : Db
result_stored =
    (add_message noon (codes "s1") MessageRole.tool (codes "dropped") none none empty none
      settled).1

result-Later : Later (codes "k1") settled result_stored
result-Later =
    add_message-Later (codes "k1") noon (codes "s1") MessageRole.tool (codes "dropped") none none
      empty none settled

resolve_confirm_callback_once_example :
    resolve_confirm_callback afternoon (codes "k1") (codes "u1") true none result_stored
    ≡ (err loop_state_error, result_stored)
resolve_confirm_callback_once_example =
    resolve_confirm_callback_once afternoon true true noon (codes "k1") (codes "u1") (codes "u1")
      none none resumed waiting settled result_stored drop_resumed result-Later

-- The same turn, given up by the user.
abbrev closed : Db
closed = (cancel_pending_interaction wiring (codes "k1") command_cancelled none none waiting).1

abbrev back_idle : InteractionCancellationResult
back_idle = record {
  correlation_id = codes "k1";
  kind = codes "confirm";
  reason = command_cancelled;
  notice_text = codes "已取消:用户主动取消，[执行高敏感能力：drop] 未执行。";
  session = record idle_s1 {
    actor = record { id = codes "u1"; display_name = codes "u1" };
    updated_at = some noon;
  };
}

drop_cancelled :
    cancel_pending_interaction wiring (codes "k1") command_cancelled none none waiting
    ≡ (ok (some back_idle), closed)
unfolding program
drop_cancelled = refl

cancel_pending_interaction-IsClosed_example :
    (r : InteractionRecord) × IsClosed r back_idle waiting closed
    × (non_empty_string (codes "k1") ≡ non_empty_string r.correlation_id)
    × (back_idle.reason ≡ effective_cancellation_reason r command_cancelled noon)
    × ((is_timeout back_idle.reason ≡ false) ⊎ (r.expires_at ≤ noon))
cancel_pending_interaction-IsClosed_example =
    cancel_pending_interaction-IsClosed wiring (codes "k1") command_cancelled none none back_idle
      waiting closed drop_cancelled
