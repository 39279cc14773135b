-- ===== src/Interrupt/Manager.antt =====
-- `SessionInterruptManager` (src/core/interrupt.py). Every reading of a clock within one call gives
-- the same time, `now`. `audited` says that an audit logger is configured.
use im_assistant.Prelude.{
  ℕ, ◌+◌, Bool, true, false, Option, none, some, Text, codes, is_empty, Result, ok, err, bind,
  Action, value_error, interrupt_error, interrupt_not_found, pure, lift, ◌>>=◌, ◌>>◌, eqb,
  if◌then◌else◌,
}
use im_assistant.Instant.{Instant, seconds}
use im_assistant.Json.{object, Mapping, set, pop}
use im_assistant.Session.{SessionState, idle, awaiting_interaction, Session}
use im_assistant.Store.Records.{SessionRecord, InteractionRecord, pending, Db}
use im_assistant.Store.Sessions.{get_session, upsert_session}
use im_assistant.Store.Interactions.{
  is_pending, create_pending_interaction, get_pending_interaction,
  get_pending_interaction_for_session, resolve_pending_interaction,
}
use im_assistant.Audit.{record_interaction_decision}
use im_assistant.Interrupt.{
  InterruptKind, kind_text, status_text, SessionInterrupt, InterruptResolution, session_interrupt,
  resolve, cancel, to_context, to_record_payload,
}

-- `_session_record_with_state`
unfoldable pub session_record_with_state : Session → SessionState → Mapping → SessionRecord
session_record_with_state s state context = record {
  session_id = s.session_id;
  conversation_id = s.conversation_id;
  kind = s.kind;
  bot_id = s.bot.id;
  principal_id = s.principal.id;
  actor_id = some s.actor.id;
  state = state;
  lifecycle = s.lifecycle;
  context = context;
  created_at = s.created_at;
  updated_at = none;
}

-- `_session_record_from_record`
abbrev pub with_state : SessionRecord → SessionState → Mapping → SessionRecord
with_state r state context = record r { state = state; context = context; updated_at = none }

abbrev pub pending_key : Text
pending_key = codes "pending_interaction"

-- `_context_with_interrupt`
unfoldable pub context_with_interrupt : Mapping → SessionInterrupt → Mapping
context_with_interrupt context i = set pending_key (object (to_context i)) context

-- `_context_without_interrupt`
unfoldable pub context_without_interrupt : Mapping → Mapping
context_without_interrupt context = pop pending_key context

-- `_interrupt_from_record`
unfoldable pub interrupt_from_record : InteractionRecord → Result SessionInterrupt
interrupt_from_record r =
    session_interrupt r.kind r.payload r.correlation_id r.responder_id r.expires_at

-- `responder or session.actor.id`
abbrev pub effective_responder : Option Text → Session → Text
effective_responder none s = s.actor.id
effective_responder (some r) s = if is_empty r then s.actor.id else r

-- `expires_at`, or `ttl_seconds` from now
abbrev pub effective_expiry : Option Instant → ℕ → Instant → Result Instant
effective_expiry (some t) ttl now = ok t
effective_expiry none ttl now = if eqb ttl 0 then err value_error else ok (now + seconds ttl)

unfoldable pub new_interrupt :
    Session
    → InterruptKind
    → Mapping
    → Text
    → Option Text
    → Option Instant
    → ℕ
    → Instant
    → Result SessionInterrupt
new_interrupt s kind payload correlation_id responder expires_at ttl now =
    bind (effective_expiry expires_at ttl now) λ expiry.
      session_interrupt (kind_text kind) payload correlation_id (effective_responder responder s)
        expiry

abbrev pub interaction_of : Session → SessionInterrupt → InteractionRecord
interaction_of s i = record {
  correlation_id = i.correlation_id;
  session_id = s.session_id;
  kind = kind_text i.kind;
  responder_id = i.responder;
  expires_at = i.expires_at;
  payload = i.payload;
  status = pending;
  resolution = none;
  created_at = none;
  resolved_at = none;
}

-- The two writes of `create`.
unfoldable pub suspend : Instant → Session → SessionInterrupt → Action Db SessionInterrupt
suspend now s i = do
  _ ← create_pending_interaction now (interaction_of s i)
  _ ←
      upsert_session now
        (session_record_with_state s awaiting_interaction (context_with_interrupt s.context i))
  pure i

unfoldable pub create :
    Instant
    → Session
    → InterruptKind
    → Mapping
    → Text
    → Option Text
    → Option Instant
    → ℕ
    → Action Db SessionInterrupt
create now s kind payload correlation_id responder expires_at ttl = do
  i ← lift (new_interrupt s kind payload correlation_id responder expires_at ttl now)
  suspend now s i

abbrev active_interrupt : Option InteractionRecord → Result (Option SessionInterrupt)
active_interrupt none = ok none
active_interrupt (some r) =
    if is_pending r.status then bind (interrupt_from_record r) (λ i. ok (some i)) else ok none

unfoldable pub get : Text → Action Db (Option SessionInterrupt)
get correlation_id = do
  found ← get_pending_interaction correlation_id
  lift (active_interrupt found)

abbrev loaded : Option InteractionRecord → Result (Option SessionInterrupt)
loaded none = ok none
loaded (some r) = bind (interrupt_from_record r) λ i. ok (some i)

unfoldable pub pending_for_session : Text → Action Db (Option SessionInterrupt)
pending_for_session session_id = do
  found ← get_pending_interaction_for_session session_id
  lift (loaded found)

-- A record that is there and pending, or `SessionInterruptNotFound`.
abbrev pub active_record : Option InteractionRecord → Result InteractionRecord
active_record none = err interrupt_not_found
active_record (some r) = if is_pending r.status then ok r else err interrupt_not_found

abbrev pub existing_session : Option SessionRecord → Result SessionRecord
existing_session none = err interrupt_error
existing_session (some r) = ok r

-- `_record_interaction_decision`
unfoldable pub record_decision :
    Bool → Instant → SessionRecord → InteractionRecord → InterruptResolution → Action Db (Unit {0})
record_decision false now s r d = pure tt
record_decision true now s r d = do
  _ ← record_interaction_decision now (record {
    correlation_id = r.correlation_id;
    kind = r.kind;
    status = status_text d.status;
    responder_id = d.responder;
    principal_id = s.principal_id;
    session_id = s.session_id;
    payload = r.payload;
    resolution_payload = d.payload;
    reason = d.reason;
  })
  pure tt

-- What `resolve` and `cancel` do once the decision is made: settle the row, put the Session back
-- to Idle with its context cleared, write the audit log.
unfoldable pub finish :
    Bool → Instant → InteractionRecord → InterruptResolution → Action Db InterruptResolution
finish audited now r d = do
  resolution ← lift (to_record_payload d)
  _ ← resolve_pending_interaction now d.correlation_id d.status resolution (some d.resolved_at)
  found ← get_session r.session_id
  session ← lift (existing_session found)
  _ ← upsert_session now (with_state session idle (context_without_interrupt session.context))
  record_decision audited now session r d
  pure d

unfoldable pub resolve_interrupt :
    Bool → Instant → Text → Option Mapping → Text → Action Db InterruptResolution
resolve_interrupt audited now correlation_id reply responder = do
  found ← get_pending_interaction correlation_id
  r ← lift (active_record found)
  i ← lift (interrupt_from_record r)
  d ← lift (resolve i reply responder now)
  finish audited now r d

unfoldable pub cancel_interrupt :
    Bool
    → Instant
    → Text
    → Text
    → Option Mapping
    → Text
    → Bool
    → Bool
    → Action Db InterruptResolution
cancel_interrupt audited now correlation_id reason reply responder require_responder allow_expired =
    do
      found ← get_pending_interaction correlation_id
      r ← lift (active_record found)
      i ← lift (interrupt_from_record r)
      d ← lift (cancel i reason reply responder require_responder allow_expired now)
      finish audited now r d
