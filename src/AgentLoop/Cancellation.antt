-- ===== src/AgentLoop/Cancellation.antt =====
-- The silent end of a pending interaction: AgentLoop.cancel_pending_interaction and its sibling
-- (src/core/agent_loop.py).
pub mod Closed
use im_assistant.Prelude.{
  Bool, true, false, Option, none, some, Text, codes, is_empty, ltb, Action, Result, ok, err,
  loop_state_error, lift, pure, raise, ◌>>=◌, ◌>>◌, if◌then◌else◌,
}
use im_assistant.Instant.{Instant}
use im_assistant.Json.{text, Mapping, empty, entry, set}
use im_assistant.Session.{Session}
use im_assistant.Store.Records.{Db, InteractionRecord, SessionRecord, MessageRole}
use im_assistant.Store.Messages.{add_message}
use im_assistant.Store.Sessions.{get_session}
use im_assistant.Store.Interactions.{
  is_pending, get_pending_interaction, get_pending_interaction_for_session,
}
use im_assistant.Interrupt.Manager.{cancel_interrupt}
use im_assistant.AgentLoop.{Wiring}
use im_assistant.AgentLoop.Texts.{
  CancellationReason, superseded_by_new_message, timeout, command_cancelled, reason_text,
  effective_cancellation_reason, runtime_responder, cancellation_resolution_payload,
  cancellation_notice_text, cancelled_tool_result, pending_capability_name, session_from_record,
}

-- InteractionCancellationResult
pub record InteractionCancellationResult : Type 0 where
  pub correlation_id : Text
  pub kind : Text
  pub reason : CancellationReason
  pub notice_text : Text
  pub session : Session

abbrev pub is_timeout : CancellationReason → Bool
is_timeout timeout = true
is_timeout superseded_by_new_message = false
is_timeout command_cancelled = false

-- `actor_id or _runtime_responder(…)`
abbrev pub canceller : Option Text → Text → Text
canceller none runtime = runtime
canceller (some a) runtime = if is_empty a then runtime else a

abbrev pub restored : Option SessionRecord → Result Session
restored none = err loop_state_error
restored (some r) = session_from_record r

abbrev pub cancelled_metadata : InteractionRecord → CancellationReason → Mapping
cancelled_metadata r reason = entry (codes "status") (text (codes "interaction_cancelled")) (
    entry (codes "kind") (text r.kind) (
      entry (codes "correlation_id") (text r.correlation_id)
        (entry (codes "reason") (text (reason_text reason)) empty)))

module _ {H : Type 0} (w : Wiring H) where
  -- `_persist_interaction_cancellation`
  unfoldable pub persist_interaction_cancellation :
      InteractionRecord
      → CancellationReason
      → Text
      → Option Text
      → Option Text
      → Action Db (Unit {0})
  persist_interaction_cancellation r reason notice_text actor_id provider_message_id = do
    _ ←
        add_message w.now r.session_id MessageRole.system notice_text actor_id provider_message_id
          (set (codes "source") (text (codes "runtime")) (cancelled_metadata r reason)) none
    result ← lift (cancelled_tool_result r reason)
    _ ←
        add_message w.now r.session_id MessageRole.tool (w.dumps result) (pending_capability_name r)
          none (cancelled_metadata r reason) none
    pure tt

  -- The part of `_cancel_pending_interaction_record` after its early return.
  unfoldable pub close_interaction :
      InteractionRecord
      → CancellationReason
      → Option Text
      → Option Text
      → Action Db InteractionCancellationResult
  unfolding persist_interaction_cancellation
  close_interaction r reason actor_id provider_message_id = do
    payload ← lift (cancellation_resolution_payload reason actor_id provider_message_id)
    _ ←
        cancel_interrupt w.audited w.now r.correlation_id (reason_text reason) (some payload)
          (canceller actor_id (runtime_responder reason r)) false true
    notice_text ← lift (cancellation_notice_text r reason)
    persist_interaction_cancellation r reason notice_text actor_id provider_message_id
    found ← get_session r.session_id
    session ← lift (restored found)
    pure (record {
      correlation_id = r.correlation_id;
      kind = r.kind;
      reason = reason;
      notice_text = notice_text;
      session = session;
    })

  -- `_cancel_pending_interaction_record`
  unfoldable pub cancel_pending_interaction_record :
      InteractionRecord
      → CancellationReason
      → Option Text
      → Option Text
      → Action Db (Option InteractionCancellationResult)
  unfolding close_interaction
  cancel_pending_interaction_record r requested actor_id provider_message_id =
      let reason = effective_cancellation_reason r requested w.now in
      if is_timeout reason
      then (if ltb w.now r.expires_at then pure none else (do
        result ← close_interaction r reason actor_id provider_message_id
        pure (some result)))
      else (do result ← close_interaction r reason actor_id provider_message_id; pure (some result))

  abbrev pub if_pending :
      Option InteractionRecord
      → CancellationReason
      → Option Text
      → Option Text
      → Action Db (Option InteractionCancellationResult)
  if_pending none reason actor_id provider_message_id = pure none
  if_pending (some r) reason actor_id provider_message_id =
      if is_pending r.status
      then cancel_pending_interaction_record r reason actor_id provider_message_id
      else pure none

  abbrev if_found :
      Option InteractionRecord
      → CancellationReason
      → Option Text
      → Option Text
      → Action Db (Option InteractionCancellationResult)
  if_found none reason actor_id provider_message_id = pure none
  if_found (some r) reason actor_id provider_message_id =
      cancel_pending_interaction_record r reason actor_id provider_message_id

  -- `AgentLoop.cancel_pending_interaction`
  unfoldable pub cancel_pending_interaction :
      Text
      → CancellationReason
      → Option Text
      → Option Text
      → Action Db (Option InteractionCancellationResult)
  unfolding cancel_pending_interaction_record
  cancel_pending_interaction correlation_id reason actor_id provider_message_id = do
    found ← get_pending_interaction correlation_id
    if_pending found reason actor_id provider_message_id

  -- `AgentLoop.cancel_pending_interaction_for_session`
  unfoldable pub cancel_pending_interaction_for_session :
      Session
      → CancellationReason
      → Option Text
      → Option Text
      → Action Db (Option InteractionCancellationResult)
  unfolding cancel_pending_interaction_record
  cancel_pending_interaction_for_session session reason actor_id provider_message_id = do
    found ← get_pending_interaction_for_session session.session_id
    if_found found reason actor_id provider_message_id
