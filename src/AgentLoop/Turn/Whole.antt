-- ===== src/AgentLoop/Turn/Whole.antt =====
-- AgentLoop.run as a whole (src/core/agent_loop.py): its `finally`, and the end of its turn.
use im_assistant.Prelude.{
  ◌≡◌, refl, sym, ap, subst, inl, inr, true, false, Option, some, Text, Result, ok, err,
  non_empty_string, continue-eq-ok, continue-lift-ok, Action, Option-cases,
}
use im_assistant.Instant.{Instant}
use im_assistant.Session.{Session, SessionState, idle, running_agent, awaiting_interaction}
use im_assistant.Store.Records.{Db}
use im_assistant.Interrupt.{SessionInterrupt}
use im_assistant.Interrupt.Manager.{cancel_interrupt}
use im_assistant.Interrupt.RoundTrip.{IsSuspended, create-get}
use im_assistant.AgentLoop.{
  Wiring, Outcome, value, wants_consent, wants_confirm, ConfirmRequired, ConsentRequired,
}
use im_assistant.AgentLoop.Texts.{confirm_interrupt_payload}
use im_assistant.AgentLoop.Turn.{
  AgentRunResult, ensure_idle, set_session_state, consent_turn, consent_created, confirm_turn,
  confirm_created, card_sent, send_confirm_card, on_reply, run, Part, reraise, finally,
}
use im_assistant.AgentLoop.Turn.Ends.{
  Ends, WellEnded, raised_part, suspended_part, not_suspended_part, completed_turn-fields,
  awaiting_turn-Ends, set_idle-IsIdle,
}

-- The sender of cards writes nothing to the store.
abbrev pub IsSilent : {H : Type 0} → Wiring H → Type 0
IsSilent {H} w =
    (send : Session → ConfirmRequired H → Option Text → Instant → Action Db (Unit {0}))
    → w.confirm_card_sender ≡ some send
    → (s : Session) (c : ConfirmRequired H) (at : Option Text) (t : Instant) (db : Db)
    → (send s c at t db).1 ≡ db

module _ {H : Type 0} (w : Wiring H) (session : Session) (user_text : Text)
    (actor_id provider_message_id : Option Text) where
  abbrev Good : Part AgentRunResult → Type 0
  Good p = WellEnded w session user_text actor_id provider_message_id p

  consent_created-Good :
      (c : ConsentRequired H) (x : Result SessionInterrupt × Db)
      → ((i : SessionInterrupt) (db : Db) → x ≡ (ok i, db) → IsSuspended session i db)
      → Good (consent_created w session user_text actor_id provider_message_id c x)
  consent_created-Good c (err e, db) f =
      raised_part w session user_text actor_id provider_message_id e false db
  consent_created-Good c (ok i, db) f =
      suspended_part w session user_text actor_id provider_message_id _ λ r d h.
        awaiting_turn-Ends w session user_text actor_id provider_message_id _ _ i r db d h
          (f i db refl)

  consent_turn-Good :
      (c : ConsentRequired H) (db : Db)
      → Good (consent_turn w session user_text actor_id provider_message_id c db)
  unfolding consent_turn
  consent_turn-Good c db =
      consent_created-Good c _ λ i d h. (create-get w.now session _ _ _ _ _ 1800 i db d h).1

  card_sent-Good :
      (c : ConfirmRequired H) (i : SessionInterrupt) (x : Result (Unit {0}) × Db)
      → IsSuspended session i x.1
      → Good (card_sent w session user_text actor_id provider_message_id c i x)
  card_sent-Good c i (ok u, db) sus =
      suspended_part w session user_text actor_id provider_message_id _ λ r d h.
        awaiting_turn-Ends w session user_text actor_id provider_message_id _ _ i r db d h sus
  card_sent-Good c i (err e, db) sus =
      not_suspended_part w session user_text actor_id provider_message_id _ λ r d h.
        let (_, mid, _, bad) = continue-eq-ok (cancel_interrupt _ _ _ _ _ _ _ _ db) _ h in
        absurd (cc bad)

  send_confirm_card-keeps :
      IsSilent w
      → (c : ConfirmRequired H) (t : Instant) (db : Db)
      → (send_confirm_card w session user_text actor_id provider_message_id c t db).1 ≡ db
  unfolding send_confirm_card
  send_confirm_card-keeps silent c t db = elim (Option-cases w.confirm_card_sender) [
    | inl e ↦ rw e refl
    | inr (send, e) ↦ rw e (silent send e session c _ t db)
  ]

  confirm_created-Good :
      IsSilent w
      → (c : ConfirmRequired H) (x : Result SessionInterrupt × Db)
      → ((i : SessionInterrupt) (db : Db) → x ≡ (ok i, db) → IsSuspended session i db)
      → Good (confirm_created w session user_text actor_id provider_message_id c x)
  confirm_created-Good silent c (err e, db) f =
      raised_part w session user_text actor_id provider_message_id e false db
  confirm_created-Good silent c (ok i, db) f = card_sent-Good c i _ (
      subst (IsSuspended session i) (sym (send_confirm_card-keeps silent c i.expires_at db))
        (f i db refl))

  confirm_turn-Good :
      IsSilent w
      → (c : ConfirmRequired H) (db : Db)
      → Good (confirm_turn w session user_text actor_id provider_message_id c db)
  unfolding confirm_turn
  confirm_turn-Good silent c db = confirm_created-Good silent c _ λ i d h.
      let (payload, _, h') = continue-lift-ok (confirm_interrupt_payload session c) _ h in
      (create-get w.now session _ payload _ _ _ 1800 i db d h').1

  on_reply-Good :
      IsSilent w
      → (x : Result (Outcome H Text) × Db)
      → Good (on_reply w session user_text actor_id provider_message_id x)
  on_reply-Good silent (err e, db) =
      raised_part w session user_text actor_id provider_message_id e false db
  on_reply-Good silent (ok (value reply), db) =
      not_suspended_part w session user_text actor_id provider_message_id _ λ r d h.
        completed_turn-fields w session user_text actor_id provider_message_id reply r db d h
  on_reply-Good silent (ok (wants_consent c), db) = consent_turn-Good c db
  on_reply-Good silent (ok (wants_confirm c), db) = confirm_turn-Good silent c db

  reraise-ok :
      (q : Result AgentRunResult) (x : Result (Unit {0}) × Db) (r : AgentRunResult) (db : Db)
      → reraise w session user_text actor_id provider_message_id q x ≡ (ok r, db)
      → (q ≡ ok r) × (x ≡ (ok tt, db))
  reraise-ok q (ok u, d) r db h = (ap (λ p. p.0) h, ap (λ p. (ok tt, p.1)) h)
  reraise-ok q (err e, d) r db h = absurd (cc h)

  finally-Ends :
      (p : Part AgentRunResult) (r : AgentRunResult) (db : Db)
      → Good p
      → finally w session user_text actor_id provider_message_id p ≡ (ok r, db)
      → Ends session r db
  finally-Ends (q, true, d) r db good h = good.waits r db (ap (λ x. (x.0, true, x.1)) h)
  finally-Ends (q, false, d) r db good h =
      let (ends, restored) = reraise-ok q _ r db h in
      let (status, none_pending) = good.done r d (ap (λ x. (x, false, d)) ends) in
      inl (
        status,
        none_pending,
        set_idle-IsIdle w session user_text actor_id provider_message_id d db restored,
      )

ensure_idle-ok : (s : SessionState) → ensure_idle s ≡ ok tt → s ≡ idle
ensure_idle-ok idle h = refl
ensure_idle-ok running_agent h = absurd (cc h)
ensure_idle-ok awaiting_interaction h = absurd (cc h)

-- When a turn returns, its Session was Idle, and it is left in one of two ways. The turn is
-- completed, no interaction is handed to the caller and the Session is stored as Idle; or the turn
-- awaits an interaction, the one that is handed to the caller: its row is stored for the Session,
-- and the Session is stored as AwaitingInteraction with the interaction in its context. The sender
-- of cards is supposed to write nothing to the store; the model, the handlers and the authorizer
-- are arbitrary.
pub run-Ends :
    {H : Type 0} (w : Wiring H) (session : Session) (user_text : Text)
    (actor_id provider_message_id : Option Text) (r : AgentRunResult) (db db' : Db)
    → IsSilent w
    → run w session user_text actor_id provider_message_id db ≡ (ok r, db')
    → (session.state ≡ idle) × Ends session r db'
unfolding run
run-Ends w session user_text actor_id provider_message_id r db db' silent h =
    let (t, e1, h1) = continue-lift-ok (non_empty_string user_text) _ h in
    let (_, e2, h2) = continue-lift-ok (ensure_idle session.state) _ h1 in
    let (_, mid, _, h3) =
      continue-eq-ok (set_session_state w session t actor_id provider_message_id running_agent db) _
        h2 in
    (
      ensure_idle-ok session.state e2,
      finally-Ends w session t actor_id provider_message_id _ r db'
          (on_reply-Good w session t actor_id provider_message_id silent _) h3,
    )
