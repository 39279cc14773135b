-- ===== src/Interrupt/Writes.antt =====
-- What the manager of the interrupts writes (src/core/interrupt.py) is a number of steps on the row
-- of any interaction, whether its calls return or raise; so is a message that is added.
use im_assistant.Prelude.{
  ℕ, ◌≡◌, refl, ap, ◌∙◌, Bool, Option, some, Text, Result, ok, err, Action, continue, arith,
  Result-cases, inl, inr, non_empty_string,
}
use im_assistant.Instant.{Instant}
use im_assistant.Json.{Mapping}
use im_assistant.Session.{Session}
use im_assistant.Store.Records.{Db, InteractionRecord, SessionRecord, MessageRole}
use im_assistant.Store.Sessions.{get_session, upsert_session}
use im_assistant.Store.Sessions.Writes.{upsert_outcome, upsert_session_lem}
use im_assistant.Store.Messages.{add_message}
use im_assistant.Store.Messages.Keeps.{add_message-OnlyMessages}
use im_assistant.Store.Interactions.{
  create_pending_interaction, get_pending_interaction, resolve_pending_interaction,
}
use im_assistant.Store.Interactions.Later.{Later, at_once, and_then, inserts, settles, elsewhere}
use im_assistant.Interrupt.{InterruptKind, InterruptResolution, resolve, cancel, to_record_payload}
use im_assistant.Interrupt.Finish.{record_decision_keeps}
use im_assistant.Interrupt.Manager.{
  interaction_of, new_interrupt, suspend, create, existing_session, active_record,
  interrupt_from_record, record_decision, finish, resolve_interrupt, cancel_interrupt,
}

module _ (cid : Text) where
  Later-then : (a b c : Db) → Later cid a b → Later cid b c → Later cid a c
  Later-then a b c p at_once = p
  Later-then a b c p (and_then {mid} q s) = and_then (Later-then a b mid p q) s

  -- A call and what follows it.
  continue-Later :
      {A B : Type 0} (db : Db) (x : Result A × Db) (f : A → Action Db B)
      → Later cid db x.1
      → ((a : A) (u : Db) → Later cid u (f a u).1)
      → Later cid db (continue x f).1
  continue-Later db (ok a, u) f p q = Later-then db u (f a u).1 p (q a u)
  continue-Later db (err e, u) f p q = p

  same_interactions : (db db' : Db) → db'.interactions ≡ db.interactions → Later cid db db'
  unfolding get_pending_interaction
  same_interactions db db' e = and_then at_once (
      elsewhere (elim (Result-cases (non_empty_string cid)) [
        | inr (x, bad) ↦ rw bad refl
        | inl (key, good) ↦ rw (good, e) refl
      ]))

  pub add_message-Later :
      (now : Instant) (s : Text) (role : MessageRole) (content : Text)
      (actor provider : Option Text) (metadata : Mapping) (at : Option Instant) (db : Db)
      → Later cid db (add_message now s role content actor provider metadata at db).1
  add_message-Later now s role content actor provider metadata at db = same_interactions db _ (
      ap (λ d. d.interactions)
        (add_message-OnlyMessages now s role content actor provider metadata at db))

  upsert_session-Later :
      (now : Instant) (r : SessionRecord) (db : Db) → Later cid db (upsert_session now r db).1
  unfolding upsert_outcome
  upsert_session-Later now r db =
      same_interactions db _
        (ap (λ p. p.1.interactions) (upsert_session_lem now r db) ∙ ground arith)

  get_session-Later : (s : Text) (db : Db) → Later cid db (get_session s db).1
  unfolding get_session
  get_session-Later s db = same_interactions db _ (ground arith)

  get_pending_interaction-Later :
      (s : Text) (db : Db) → Later cid db (get_pending_interaction s db).1
  unfolding get_pending_interaction
  get_pending_interaction-Later s db = same_interactions db _ (ground arith)

  pub create-Later :
      (now : Instant) (s : Session) (kind : InterruptKind) (payload : Mapping) (id : Text)
      (responder : Option Text) (at : Option Instant) (ttl : ℕ) (db : Db)
      → Later cid db (create now s kind payload id responder at ttl db).1
  unfolding create suspend
  create-Later now s kind payload id responder at ttl db =
      continue-Later db (new_interrupt s kind payload id responder at ttl now, db) _ at_once
        λ i u.
          continue-Later u (create_pending_interaction now (interaction_of s i) u) _
            (and_then at_once (inserts now (interaction_of s i) refl))
            λ row v.
              continue-Later v (upsert_session now _ v) _ (upsert_session-Later now _ v)
                λ t x. at_once

  finish-Later :
      (audited : Bool) (now : Instant) (r : InteractionRecord) (d : InterruptResolution) (db : Db)
      → Later cid db (finish audited now r d db).1
  unfolding finish
  finish-Later audited now r d db =
      continue-Later db (to_record_payload d, db) _ at_once
        λ m u.
          continue-Later u
            (resolve_pending_interaction now d.correlation_id d.status m (some d.resolved_at) u) _
            (and_then at_once (settles now d.correlation_id d.status m (some d.resolved_at) refl))
            λ row v.
              continue-Later v (get_session r.session_id v) _ (get_session-Later _ v) λ found x.
                continue-Later x (existing_session found, x) _ at_once
                  λ session y.
                    continue-Later y (upsert_session now _ y) _ (upsert_session-Later now _ y)
                      λ t z.
                        continue-Later z (record_decision audited now session r d z) _
                          (same_interactions z _
                            (record_decision_keeps audited now session r d z).1)
                          λ o last. at_once

  pub resolve_interrupt-Later :
      (audited : Bool) (now : Instant) (id : Text) (reply : Option Mapping) (responder : Text)
      (db : Db)
      → Later cid db (resolve_interrupt audited now id reply responder db).1
  unfolding resolve_interrupt
  resolve_interrupt-Later audited now id reply responder db =
      continue-Later db (get_pending_interaction id db) _ (get_pending_interaction-Later id db)
        λ found u.
          continue-Later u (active_record found, u) _ at_once
            λ r v.
              continue-Later v (interrupt_from_record r, v) _ at_once
                λ i x.
                  continue-Later x (resolve i reply responder now, x) _ at_once
                    λ d y. finish-Later audited now r d y

  pub cancel_interrupt-Later :
      (audited : Bool) (now : Instant) (id reason : Text) (reply : Option Mapping)
      (responder : Text) (req allow : Bool) (db : Db)
      → Later cid db (cancel_interrupt audited now id reason reply responder req allow db).1
  unfolding cancel_interrupt
  cancel_interrupt-Later audited now id reason reply responder req allow db =
      continue-Later db (get_pending_interaction id db) _ (get_pending_interaction-Later id db)
        λ found u.
          continue-Later u (active_record found, u) _ at_once
            λ r v.
              continue-Later v (interrupt_from_record r, v) _ at_once
                λ i x.
                  continue-Later x (cancel i reason reply responder req allow now, x) _ at_once
                    λ d y. finish-Later audited now r d y
