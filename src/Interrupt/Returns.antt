-- ===== src/Interrupt/Returns.antt =====
-- `resolve` and `cancel` return wherever the interrupt accepts the call: none of the writes that
-- follow the decision fails on a valid table of sessions. No audit logger is configured here.
use im_assistant.Prelude.{
  ◌≡◌, refl, sym, ap, subst, Bool, false, Option, some, Text, ok, Result-cases, inl, inr, find,
  update, non_empty_string, arith, or_default,
}
use im_assistant.Instant.{Instant}
use im_assistant.Json.{Mapping, empty}
use im_assistant.Json.Plain.{plain_object}
use im_assistant.Json.Fixed.{plain_object-fixed}
use im_assistant.Session.{idle}
use im_assistant.Store.Records.{SessionRecord, InteractionRecord, Db}
use im_assistant.Store.Sessions.{has_session_id, get_session}
use im_assistant.Store.Sessions.Unique.{IsValidTable}
use im_assistant.Store.Sessions.Restore.{upsert_session_returns}
use im_assistant.Store.Interactions.{is_active, is_pending, settle, get_pending_interaction}
use im_assistant.Store.Interactions.Writes.{resolve_active}
use im_assistant.Interrupt.{
  SessionInterrupt, InterruptResolution, resolve, cancel, to_record_payload, record_payload,
}
use im_assistant.Interrupt.Manager.{
  with_state, context_without_interrupt, record_decision, finish, resolve_interrupt,
  cancel_interrupt,
}
use im_assistant.Interrupt.Decision.{IsLoaded, resolve_fields, cancel_fields, Closes-decided}
use im_assistant.Interrupt.Finish.{Closes}

-- The payload of a decision is in normal form.
resolve-plain :
    (i : SessionInterrupt) (reply : Option Mapping) (responder : Text) (now : Instant)
    (d : InterruptResolution)
    → resolve i reply responder now ≡ ok d
    → plain_object d.payload ≡ ok d.payload
unfolding resolve
resolve-plain i reply responder now d h =
    elim (Result-cases (plain_object (or_default reply empty))) [
      | inl (p, e) ↦ ground (arith, h, plain_object-fixed (or_default reply empty) p e)
      | inr (x, e) ↦ ground arith
    ]

cancel-plain :
    (i : SessionInterrupt) (reason : Text) (reply : Option Mapping) (responder : Text)
    (req allow : Bool) (now : Instant) (d : InterruptResolution)
    → cancel i reason reply responder req allow now ≡ ok d
    → plain_object d.payload ≡ ok d.payload
unfolding cancel
cancel-plain i reason reply responder req allow now d h =
    elim (Result-cases (plain_object (or_default reply empty))) [
      | inl (p, e) ↦ ground (arith, h, plain_object-fixed (or_default reply empty) p e)
      | inr (x, e) ↦ ground arith
    ]

module _ (now : Instant) (key : Text) (r : InteractionRecord) (d : InterruptResolution) (db : Db)
    (skey : Text) (s : SessionRecord) (v : IsValidTable db.sessions) (c : Closes key r d db)
    (plain : plain_object d.payload ≡ ok d.payload)
    (normal : non_empty_string r.session_id ≡ ok skey)
    (stored : find (has_session_id skey) db.sessions ≡ some s) where
  to_record_payload_returns : (m : Mapping) × (to_record_payload d ≡ ok m)
  unfolding to_record_payload
  to_record_payload_returns = (record_payload d d.payload, rw plain)

  finish_returns : (db' : Db) × (finish false now r d db ≡ (ok d, db'))
  unfolding finish get_session record_decision
  finish_returns =
      let (m, written) = to_record_payload_returns in
      let settled =
        resolve_active now d.correlation_id key d.status m (some d.resolved_at) db r c.terminal
          (subst (λ k. non_empty_string k ≡ ok key) (sym c.same_key) c.normal) c.found c.active in
      let mid : Db = record db {
        interactions = update (is_active key) (settle d.status m d.resolved_at) db.interactions;
      } in
      let (t, db', up) =
        upsert_session_returns now skey s (with_state s idle (context_without_interrupt s.context))
          mid v stored refl refl refl refl in
      (db', rw (written, settled, normal, stored, up))

-- Where the record is stored and pending, the interrupt that it loads as accepts the answer, and its
-- Session is stored in a table of sessions that meets the constraints, `resolve` without an audit
-- logger returns the decision of the interrupt.
pub resolve_interrupt_returns :
    (now : Instant) (cid key : Text) (reply : Option Mapping) (responder : Text) (db : Db)
    (r : InteractionRecord) (i : SessionInterrupt) (d : InterruptResolution) (skey : Text)
    (s : SessionRecord)
    → IsValidTable db.sessions
    → IsLoaded cid key r i db
    → resolve i reply responder now ≡ ok d
    → non_empty_string r.session_id ≡ ok skey
    → find (has_session_id skey) db.sessions ≡ some s
    → (db' : Db) × (resolve_interrupt false now cid reply responder db ≡ (ok d, db'))
unfolding resolve_interrupt get_pending_interaction
resolve_interrupt_returns now cid key reply responder db r i d skey s v l accepted normal stored =
    let (same_key, status, _, _) = resolve_fields i reply responder now d accepted in
    let (db', returned) =
      finish_returns now key r d db skey s v
        (Closes-decided cid key r i db d l same_key (ap is_pending status))
        (resolve-plain i reply responder now d accepted) normal stored in
    (db', rw (l.normal, l.found, l.active, l.loaded, accepted) returned)

-- Under the same conditions, where the interrupt accepts the cancellation, `cancel` without an audit
-- logger returns the decision of the interrupt: the record is stored and pending, and its Session is
-- stored in a table of sessions that meets the constraints.
pub cancel_interrupt_returns :
    (now : Instant) (cid key reason : Text) (reply : Option Mapping) (responder : Text)
    (req allow : Bool) (db : Db) (r : InteractionRecord) (i : SessionInterrupt)
    (d : InterruptResolution) (skey : Text) (s : SessionRecord)
    → IsValidTable db.sessions
    → IsLoaded cid key r i db
    → cancel i reason reply responder req allow now ≡ ok d
    → non_empty_string r.session_id ≡ ok skey
    → find (has_session_id skey) db.sessions ≡ some s
    → (db' : Db) × (cancel_interrupt false now cid reason reply responder req allow db
        ≡ (ok d, db'))
unfolding cancel_interrupt get_pending_interaction
cancel_interrupt_returns now cid key reason reply responder req allow db r i d skey s v l acc n st =
    let (same_key, status, _, _) = cancel_fields i reason reply responder req allow now d acc in
    let (db', returned) =
      finish_returns now key r d db skey s v
        (Closes-decided cid key r i db d l same_key (ap is_pending status))
        (cancel-plain i reason reply responder req allow now d acc) n st in
    (db', rw (l.normal, l.found, l.active, l.loaded, acc) returned)
