-- ===== src/AgentLoop/Turn/Ends.antt =====
-- How a turn ends: AgentLoop.run (src/core/agent_loop.py) leaves its Session Idle or suspended.
use im_assistant.Prelude.{
  ◌≡◌, Bool, true, false, Error, sym, ap, ◌∙◌, subst, ◌⊎◌, inr, Option, none, some, Text, Result,
  ok, err, find, non_empty_string, continue-eq-ok, continue-lift-ok, returned-eq,
}
use im_assistant.Json.{Mapping}
use im_assistant.Session.{Session, idle}
use im_assistant.Store.Records.{Db, SessionRecord}
use im_assistant.Store.Sessions.{has_session_id, upsert_session}
use im_assistant.Store.Sessions.Writes.{upsert_session-IsStored}
use im_assistant.Store.Messages.{add_message}
use im_assistant.Store.Messages.Keeps.{OnlyMessages, OnlyMessages-then, add_message-OnlyMessages}
use im_assistant.Store.Interactions.{has_correlation}
use im_assistant.Interrupt.{SessionInterrupt}
use im_assistant.Interrupt.Manager.{session_record_with_state}
use im_assistant.Interrupt.RoundTrip.{IsSuspended}
use im_assistant.AgentLoop.{Wiring}
use im_assistant.AgentLoop.Turn.{
  AgentRunResult, completed, awaiting, PendingInteractionInfo, pending_interaction_info,
  persist_turn, set_session_state, completed_turn, completed_metadata, awaiting_turn, Part,
  suspended, not_suspended,
}

-- The Session is stored as Idle.
pub record IsIdle (s : Session) (db : Db) : Type 0 where
  pub key : Text
  pub normal : non_empty_string s.session_id ≡ ok key
  pub row : SessionRecord
  pub stored : find (has_session_id key) db.sessions ≡ some row
  pub is_idle : row.state ≡ idle

-- The two ends of a turn that returned.
abbrev pub Ends : Session → AgentRunResult → Db → Type 0
Ends s r db =
    ((r.status ≡ completed) × (r.pending_interaction ≡ none) × IsIdle s db)
    ⊎ ((r.status ≡ awaiting)
        × ((i : SessionInterrupt) × (info : PendingInteractionInfo) × IsSuspended s i db
            × (pending_interaction_info i ≡ ok info)
            × (r.pending_interaction ≡ some info)))

IsSuspended-OnlyMessages :
    (s : Session) (i : SessionInterrupt) (db db' : Db)
    → OnlyMessages db db'
    → IsSuspended s i db
    → IsSuspended s i db'
IsSuspended-OnlyMessages s i db db' same x = record {
  session = x.session;
  key = x.key;
  normal = x.normal;
  stored = ap (λ d. find (has_session_id x.key) d.sessions) same ∙ x.stored;
  awaiting = x.awaiting;
  context = x.context;
  row = x.row;
  row_found = ap (λ d. find (has_correlation i.correlation_id) d.interactions) same ∙ x.row_found;
  row_session = x.row_session;
}

module _ {H : Type 0} (w : Wiring H) (session : Session) (user_text : Text)
    (actor_id provider_message_id : Option Text) where
  persist_turn-OnlyMessages :
      (reply : Text) (metadata : Mapping) (db db' : Db)
      → persist_turn w session user_text actor_id provider_message_id reply metadata db
        ≡ (ok tt, db')
      → OnlyMessages db db'
  unfolding persist_turn
  persist_turn-OnlyMessages reply metadata db db' h =
      let (m, mid, e, h1) = continue-eq-ok (add_message _ _ _ _ _ _ _ _ db) _ h in
      let (n, last, e', h2) = continue-eq-ok (add_message _ _ _ _ _ _ _ _ mid) _ h1 in
      OnlyMessages-then db mid db'
        (subst (λ x. OnlyMessages db x) (ap (λ p. p.1) e)
          (add_message-OnlyMessages _ _ _ _ _ _ _ _ db))
        (subst (λ x. OnlyMessages mid x) (ap (λ p. p.1) e' ∙ ap (λ p. p.1) h2)
          (add_message-OnlyMessages _ _ _ _ _ _ _ _ mid))

  pub completed_turn-fields :
      (reply : Text) (r : AgentRunResult) (db db' : Db)
      → completed_turn w session user_text actor_id provider_message_id reply db ≡ (ok r, db')
      → (r.status ≡ completed) × (r.pending_interaction ≡ none)
  unfolding completed_turn
  completed_turn-fields reply r db db' h =
      let (u, mid, e, h1) =
        continue-eq-ok
          (persist_turn w session user_text actor_id provider_message_id reply completed_metadata
            db)
          _ h in
      let (same, _) = returned-eq h1 in
      (ap (λ x. x.status) (sym same), ap (λ x. x.pending_interaction) (sym same))

  pub awaiting_turn-Ends :
      (reply : Text) (metadata : Mapping) (i : SessionInterrupt) (r : AgentRunResult) (db db' : Db)
      → awaiting_turn w session user_text actor_id provider_message_id reply metadata i db
        ≡ (ok r, db')
      → IsSuspended session i db
      → Ends session r db'
  unfolding awaiting_turn
  awaiting_turn-Ends reply metadata i r db db' h suspended =
      let (tt, mid, e, h1) =
        continue-eq-ok
          (persist_turn w session user_text actor_id provider_message_id reply metadata db) _ h in
      let (info, e', h2) = continue-lift-ok (pending_interaction_info i) _ h1 in
      let (same, ends) = returned-eq h2 in
      inr (
        ap (λ x. x.status) (sym same),
        (
          i,
          info,
          IsSuspended-OnlyMessages session i db db'
              (subst (λ x. OnlyMessages db x) ends
                (persist_turn-OnlyMessages reply metadata db mid e))
              suspended,
          e',
          ap (λ x. x.pending_interaction) (sym same),
        ),
      )

  pub set_idle-IsIdle :
      (db db' : Db)
      → set_session_state w session user_text actor_id provider_message_id idle db ≡ (ok tt, db')
      → IsIdle session db'
  unfolding set_session_state session_record_with_state
  set_idle-IsIdle db db' h =
      let (t, mid, e, h1) =
        continue-eq-ok
          (upsert_session w.now (session_record_with_state session idle session.context) db) _ h in
      let (_, ends) = returned-eq h1 in
      let (key, stored) = upsert_session-IsStored w.now _ db db' t (e ∙ ap (λ d. (ok t, d)) ends) in
      record {
        key = key;
        normal = stored.normal;
        row = t;
        stored = stored.found;
        is_idle = stored.state;
      }

  abbrev pub Done : AgentRunResult → Type 0
  Done r = (r.status ≡ completed) × (r.pending_interaction ≡ none)

  -- What a part of the turn leaves when it returns: suspended, or completed.
  pub record WellEnded (p : Part AgentRunResult) : Type 0 where
    pub waits : (r : AgentRunResult) (db : Db) → p ≡ (ok r, true, db) → Ends session r db
    pub done : (r : AgentRunResult) (db : Db) → p ≡ (ok r, false, db) → Done r

  pub raised_part : (e : Error) (b : Bool) (db : Db) → WellEnded (err e, b, db)
  raised_part e b db = record { waits = λ r d h. absurd (cc h); done = λ r d h. absurd (cc h) }

  pub suspended_part :
      (x : Result AgentRunResult × Db)
      → ((r : AgentRunResult) (db : Db) → x ≡ (ok r, db) → Ends session r db)
      → WellEnded (suspended w session user_text actor_id provider_message_id x)
  suspended_part x f = record {
    waits = λ r d h. f r d (ap (λ p. (p.0, p.2)) h);
    done = λ r d h. absurd (cc (ap (λ p. p.1) h));
  }

  pub not_suspended_part :
      (x : Result AgentRunResult × Db)
      → ((r : AgentRunResult) (db : Db) → x ≡ (ok r, db) → Done r)
      → WellEnded (not_suspended w session user_text actor_id provider_message_id x)
  not_suspended_part x f = record {
    waits = λ r d h. absurd (cc (ap (λ p. p.1) h));
    done = λ r d h. f r d (ap (λ p. (p.0, p.2)) h);
  }
