-- ===== src/AgentLoop/Turn.antt =====
-- One turn: AgentLoop.run (src/core/agent_loop.py). The `finally` of the source puts the Session back
-- to Idle, unless the turn was suspended.
pub mod Ends
pub mod Whole
use im_assistant.Prelude.{
  ℕ, ◌+◌, Bool, true, false, Option, none, some, List, [], ◌∷◌, ◌++◌, Text, codes, is_empty, Error,
  Result, ok, err, bind, Action, loop_state_error, service_error, lift, pure, raise, ◌>>=◌, ◌>>◌,
  non_empty_string, if◌then◌else◌,
}
use im_assistant.Instant.{Instant, seconds, isoformat}
use im_assistant.Json.{Value, boolean, text, Mapping, empty, entry, get}
use im_assistant.Audit.{stripped_text}
use im_assistant.Session.{
  Session, SessionState, SessionKind, idle, running_agent, awaiting_interaction, dm, group,
}
use im_assistant.Store.Records.{Db, MessageRole}
use im_assistant.Store.Sessions.{upsert_session}
use im_assistant.Store.Messages.{add_message, list_recent_messages}
use im_assistant.Interrupt.{InterruptKind, SessionInterrupt, kind_text}
use im_assistant.Interrupt.Manager.{session_record_with_state, create, cancel_interrupt}
use im_assistant.Capability.{Capability}
use im_assistant.AgentLoop.{
  Wiring, Outcome, value, wants_consent, wants_confirm, ConsentRequired, ConfirmRequired,
}
use im_assistant.AgentLoop.Texts.{
  consent_reply_text, consent_interrupt_payload, confirm_reply_text, confirm_interrupt_payload,
  consent_metadata, confirm_metadata,
}
use im_assistant.AgentLoop.Tools.{message, llm_messages_from_history, visible_capabilities}
use im_assistant.AgentLoop.Calls.{complete_with_tools}

pub data AgentRunStatus : Type 0 where
  completed awaiting : AgentRunStatus

pub record PendingInteractionInfo : Type 0 where
  pub correlation_id : Text
  pub kind : Text
  pub expires_at : Instant

pub record AgentRunResult : Type 0 where
  pub reply_text : Text
  pub status : AgentRunStatus
  pub pending_interaction : Option PendingInteractionInfo

-- `_pending_interaction_info`
unfoldable pub pending_interaction_info : SessionInterrupt → Result PendingInteractionInfo
pending_interaction_info i = bind (non_empty_string i.correlation_id) λ c.
    bind (non_empty_string (kind_text i.kind))
      λ k. ok (record { correlation_id = c; kind = k; expires_at = i.expires_at })

-- `_ensure_idle`
abbrev pub ensure_idle : SessionState → Result (Unit {0})
ensure_idle idle = ok tt
ensure_idle running_agent = err loop_state_error
ensure_idle awaiting_interaction = err loop_state_error

-- `_session_open_conversation_id`
unfoldable pub session_open_conversation_id : Session → Option Text
session_open_conversation_id session =
    elim (stripped_text (get (codes "open_conversation_id") session.context)) [
      | some s ↦ some s
      | none ↦ elim session.kind [ dm ↦ some session.conversation_id | group ↦ none ]
    ]

-- `actor_id or session.actor.id`
abbrev speaker : Option Text → Session → Text
speaker none session = session.actor.id
speaker (some a) session = if is_empty a then session.actor.id else a

-- The result of a part of the turn, whether the turn was suspended by then, and the state.
abbrev pub Part : Type 0 → Type 0
Part A = Result A × Bool × Db

abbrev pub completed_metadata : Mapping
completed_metadata = entry (codes "status") (text (codes "completed")) empty

module _ {H : Type 0} (w : Wiring H) (session : Session) (user_text : Text)
    (actor_id provider_message_id : Option Text) where
  -- `_persist_completed_turn` and its two siblings, which differ in the reply's metadata
  unfoldable pub persist_turn : Text → Mapping → Action Db (Unit {0})
  persist_turn reply_text metadata = do
    _ ←
        add_message w.now session.session_id MessageRole.user user_text
          (some (speaker actor_id session)) provider_message_id
          (entry (codes "source") (text (codes "dingtalk")) empty) none
    _ ←
        add_message w.now session.session_id MessageRole.assistant reply_text (some session.bot.id)
          none metadata none
    pure tt

  -- `_set_session_state`
  unfoldable pub set_session_state : SessionState → Action Db (Unit {0})
  set_session_state state = do
    _ ← upsert_session w.now (session_record_with_state session state session.context)
    pure tt

  -- `_send_confirm_card`
  unfoldable pub send_confirm_card : ConfirmRequired H → Instant → Action Db (Unit {0})
  unfolding session_open_conversation_id
  send_confirm_card c expires_at = elim w.confirm_card_sender [
    | none ↦ raise service_error
    | some send ↦ send session c (session_open_conversation_id session) expires_at
  ]

  -- What the model says to the history and the new message.
  unfoldable pub reply_of : Action Db (Outcome H Text)
  reply_of = do
    history ← list_recent_messages session.session_id w.history_limit
    let messages = llm_messages_from_history history ++ message (codes "user") (text user_text) ∷ []
    visible ← lift (visible_capabilities w session)
    elim visible [
      | [] ↦ do reply ← lift (w.complete messages); pure (value reply)
      | c ∷ cs ↦ complete_with_tools w session messages (c ∷ cs)
    ]

  unfoldable pub completed_turn : Text → Action Db AgentRunResult
  unfolding persist_turn
  completed_turn reply = do
    persist_turn reply completed_metadata
    pure (record { reply_text = reply; status = completed; pending_interaction = none })

  unfoldable pub awaiting_turn : Text → Mapping → SessionInterrupt → Action Db AgentRunResult
  unfolding persist_turn
  awaiting_turn reply metadata i = do
    persist_turn reply metadata
    info ← lift (pending_interaction_info i)
    pure (record { reply_text = reply; status = awaiting; pending_interaction = some info })

  -- From here on the turn counts as suspended.
  abbrev pub suspended : Result AgentRunResult × Db → Part AgentRunResult
  suspended (r, db) = (r, true, db)

  abbrev pub not_suspended : Result AgentRunResult × Db → Part AgentRunResult
  not_suspended (r, db) = (r, false, db)

  abbrev pub consent_created :
      ConsentRequired H → Result SessionInterrupt × Db → Part AgentRunResult
  consent_created c (err e, db) = (err e, false, db)
  consent_created c (ok i, db) =
      suspended
        (awaiting_turn (consent_reply_text c) (consent_metadata c (isoformat i.expires_at)) i db)

  unfoldable pub consent_turn : ConsentRequired H → Db → Part AgentRunResult
  unfolding awaiting_turn
  consent_turn c db = consent_created c (
      create w.now session InterruptKind.consent (consent_interrupt_payload c) c.pending.nonce
        (some session.actor.id) (some c.pending.expires_at) 1800 db)

  -- A card that could not be sent: the interrupt is cancelled, and the exception raised again.
  abbrev pub card_sent :
      ConfirmRequired H → SessionInterrupt → Result (Unit {0}) × Db → Part AgentRunResult
  card_sent c i (ok _, db) =
      suspended
        (awaiting_turn (confirm_reply_text c) (confirm_metadata c (isoformat i.expires_at)) i db)
  card_sent c i (err e, db) = not_suspended (
      (do
        _ ←
            cancel_interrupt w.audited w.now i.correlation_id (codes "card_send_failed")
              (some (entry (codes "approved") (boolean false) empty)) session.actor.id true false
        raise e)
        db)

  abbrev pub confirm_created :
      ConfirmRequired H → Result SessionInterrupt × Db → Part AgentRunResult
  confirm_created c (err e, db) = (err e, false, db)
  confirm_created c (ok i, db) = card_sent c i (send_confirm_card c i.expires_at db)

  unfoldable pub confirm_turn : ConfirmRequired H → Db → Part AgentRunResult
  unfolding awaiting_turn send_confirm_card
  confirm_turn c db = confirm_created c (
      (do
        payload ← lift (confirm_interrupt_payload session c)
        create w.now session InterruptKind.confirm payload c.correlation_id (some session.actor.id)
            (some (w.now + seconds w.confirm_timeout_seconds)) 1800)
        db)

  abbrev pub on_reply : Result (Outcome H Text) × Db → Part AgentRunResult
  on_reply (err e, db) = (err e, false, db)
  on_reply (ok (value reply), db) = not_suspended (completed_turn reply db)
  on_reply (ok (wants_consent c), db) = consent_turn c db
  on_reply (ok (wants_confirm c), db) = confirm_turn c db

  abbrev pub reraise : Result AgentRunResult → Result (Unit {0}) × Db → Result AgentRunResult × Db
  reraise r (ok _, db) = (r, db)
  reraise r (err e, db) = (err e, db)

  -- The `finally`.
  abbrev pub finally : Part AgentRunResult → Result AgentRunResult × Db
  finally (r, true, db) = (r, db)
  finally (r, false, db) = reraise r (set_session_state idle db)

-- `AgentLoop.run`
unfoldable pub run :
    {H : Type 0} → Wiring H → Session → Text → Option Text → Option Text → Action Db AgentRunResult
unfolding reply_of completed_turn consent_turn confirm_turn set_session_state
run w session user_text actor_id provider_message_id = do
  t ← lift (non_empty_string user_text)
  _ ← lift (ensure_idle session.state)
  _ ← set_session_state w session t actor_id provider_message_id running_agent
  λ db. finally w session t actor_id provider_message_id (
      on_reply w session t actor_id provider_message_id
        (reply_of w session t actor_id provider_message_id db))
