-- ===== src/Interrupt/Resume.antt =====
-- A Session that was suspended and then resumed is what it was.
use mathlib.Core.Option.{some-injective}
use im_assistant.Prelude.{
  ℕ, ◌≡◌, sym, ap, ◌∙◌, Bool, Option, some, Text, ok, find, non_empty_string,
  non_empty_string-fixed, ok-injective,
}
use im_assistant.Instant.{Instant}
use im_assistant.Json.{Mapping, pop, pop-set}
use im_assistant.Session.{Session, idle}
use im_assistant.Store.Records.{SessionRecord, InteractionRecord, Db}
use im_assistant.Store.Sessions.{has_session_id}
use im_assistant.Store.Interactions.{has_correlation}
use im_assistant.Interrupt.{InterruptKind, SessionInterrupt, InterruptResolution}
use im_assistant.Interrupt.Manager.{
  create, resolve_interrupt, context_with_interrupt, context_without_interrupt, pending_key,
}
use im_assistant.Interrupt.RoundTrip.{IsSuspended, create-get, create-key}
use im_assistant.Interrupt.Once.{IsSettled, resolve_interrupt-IsSettled}

-- What the Session is once it is resumed.
pub record IsResumed (s : Session) (db : Db) : Type 0 where
  pub key : Text
  pub normal : non_empty_string s.session_id ≡ ok key
  pub session : SessionRecord
  pub stored : find (has_session_id key) db.sessions ≡ some session
  pub is_idle : session.state ≡ idle
  pub context : session.context ≡ pop pending_key s.context

module _ (s : Session) (i : SessionInterrupt) (cid : Text) (r : InteractionRecord)
    (d : InterruptResolution) (mid db : Db) (sus : IsSuspended s i mid)
    (hk : non_empty_string cid ≡ ok i.correlation_id) (fin : IsSettled cid r d mid db) where
  same_row : r ≡ sus.row
  same_row = some-injective r sus.row (
      sym fin.found
      ∙ ap (λ k. find (has_correlation k) mid.interactions) (ok-injective (sym fin.normal ∙ hk))
      ∙ sus.row_found)

  same_session_key : fin.finished.session_key ≡ sus.key
  same_session_key = ok-injective (
      sym fin.finished.session_normal
      ∙ ap non_empty_string (ap (λ x. x.session_id) same_row ∙ sus.row_session)
      ∙ non_empty_string-fixed s.session_id sus.key sus.normal)

  same_session : fin.finished.before ≡ sus.session
  same_session = some-injective fin.finished.before sus.session (
      sym fin.finished.was_stored
      ∙ ap (λ k. find (has_session_id k) mid.sessions) same_session_key
      ∙ sus.stored)

  settled-IsResumed : IsResumed s db
  unfolding context_with_interrupt context_without_interrupt
  settled-IsResumed = record {
    key = sus.key;
    normal = sus.normal;
    session = fin.finished.after;
    stored =
        ap (λ k. find (has_session_id k) db.sessions) (sym same_session_key)
        ∙ fin.finished.is_stored;
    is_idle = fin.finished.is_idle;
    context =
        fin.finished.context
        ∙ ap (λ x. pop pending_key x.context) same_session
        ∙ ap (pop pending_key) sus.context
        ∙ pop-set pending_key _ s.context;
  }

-- An interrupt that is created and then resolved, with nothing in between, leaves the Session Idle,
-- with the context that it had when it was suspended, less any older `pending_interaction`.
pub resolve_interrupt-create :
    (now : Instant) (s : Session) (kind : InterruptKind) (payload : Mapping) (cid : Text)
    (to : Option Text) (at : Option Instant) (ttl : ℕ) (i : SessionInterrupt) (db mid db' : Db)
    (audited : Bool) (now' : Instant) (reply : Option Mapping) (responder : Text)
    (d : InterruptResolution)
    → create now s kind payload cid to at ttl db ≡ (ok i, mid)
    → resolve_interrupt audited now' cid reply responder mid ≡ (ok d, db')
    → IsResumed s db'
resolve_interrupt-create now s kind payload cid to at ttl i db mid db' audited now' reply responder
      d made h =
    let (_, sus) = create-get now s kind payload cid to at ttl i db mid made in
    let (r, fin, _, _, _) =
      resolve_interrupt-IsSettled audited now' cid reply responder d mid db' h in
    settled-IsResumed s i cid r d mid db' sus
      (create-key now s kind payload cid to at ttl i db mid made) fin
