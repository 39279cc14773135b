-- ===== src/Interrupt/Finish.antt =====
-- What is written once a decision on an interrupt is made: the row is terminal, the Session is
-- Idle again and its context no longer names the interrupt.
use im_assistant.Prelude.{
  ◌≡◌, refl, sym, ap, ◌∙◌, subst, Bool, true, false, Option, none, some, Text, ok, find, update,
  non_empty_string, non_empty_string-fixed, continue-eq-ok, continue-lift-ok, returned-eq, arith,
  ok-injective, Result-cases, eq_iff, inl, inr,
}
use im_assistant.Prelude.Table.Reads.{find-update, find-holds}
use im_assistant.Instant.{Instant}
use im_assistant.Json.{Mapping}
use im_assistant.Session.{idle}
use im_assistant.Store.Records.{SessionRecord, InteractionRecord, Db}
use im_assistant.Store.Sessions.{has_session_id, upsert_session, get_session}
use im_assistant.Store.Sessions.Writes.{upsert_session-IsStored}
use im_assistant.Store.AuditLog.{append_audit_log}
use im_assistant.Store.Interactions.{
  has_correlation, is_active, is_pending, settle, resolve_pending_interaction,
}
use im_assistant.Store.Interactions.Writes.{resolve_active}
use im_assistant.Audit.{record_interaction_decision}
use im_assistant.Interrupt.{InterruptResolution, to_record_payload}
use im_assistant.Interrupt.Manager.{
  existing_session, with_state, context_without_interrupt, record_decision, finish,
}

-- The audit log's writer leaves the other tables alone, whether it returns or raises.
pub record_decision_keeps :
    (audited : Bool) (now : Instant) (s : SessionRecord) (r : InteractionRecord)
    (d : InterruptResolution) (db : Db)
    → let db' = (record_decision audited now s r d db).1 in
      (db'.sessions ≡ db.sessions) × (db'.interactions ≡ db.interactions)
unfolding record_decision record_interaction_decision append_audit_log
record_decision_keeps false now s r d db = (refl, refl)
record_decision_keeps true now s r d db = ground arith

-- The decision `d` closes the active row `r` of the key `key`.
pub record Closes (key : Text) (r : InteractionRecord) (d : InterruptResolution) (db : Db)
    : Type 0 where
  pub normal : non_empty_string key ≡ ok key
  pub found : find (has_correlation key) db.interactions ≡ some r
  pub active : is_pending r.status ≡ true
  pub same_key : d.correlation_id ≡ key
  pub terminal : is_pending d.status ≡ false

-- What holds afterwards, in `db'`.
pub record IsFinished (key : Text) (r : InteractionRecord) (d : InterruptResolution) (db db' : Db)
    : Type 0 where
  pub row : InteractionRecord
  pub settled : find (has_correlation key) db'.interactions ≡ some row
  pub status : row.status ≡ d.status
  pub session_key : Text
  pub session_normal : non_empty_string r.session_id ≡ ok session_key
  pub before : SessionRecord
  pub after : SessionRecord
  pub was_stored : find (has_session_id session_key) db.sessions ≡ some before
  pub is_stored : find (has_session_id session_key) db'.sessions ≡ some after
  pub is_idle : after.state ≡ idle
  pub context : after.context ≡ context_without_interrupt before.context

get_session-ok :
    (k : Text) (db db' : Db) (s : Option SessionRecord)
    → get_session k db ≡ (ok s, db')
    → (key : Text) × (non_empty_string k ≡ ok key)
      × (find (has_session_id key) db.sessions ≡ s)
      × (db ≡ db')
unfolding get_session
get_session-ok k db db' s h = elim (Result-cases (non_empty_string k)) [
  | inl (key, e) ↦ (key, e, ground arith, ground arith)
  | inr (x, e) ↦ absurd (ground arith)
]

find-settled :
    (key : Text) (r : InteractionRecord) (d : InterruptResolution) (m : Mapping) (db : Db)
    → Closes key r d db
    → find
        (has_correlation key)
        (update (is_active key) (settle d.status m d.resolved_at) db.interactions)
      ≡ some (settle d.status m d.resolved_at r)
find-settled key r d m db c =
    find-update (has_correlation key) (is_active key) (settle d.status m d.resolved_at)
      db.interactions (λ q h. refl)
    ∙ ground (arith, c.found, c.active, find-holds (has_correlation key) db.interactions r c.found)

existing_session-ok :
    (o : Option SessionRecord) (s : SessionRecord) → existing_session o ≡ ok s → o ≡ some s
existing_session-ok none s h = cc
existing_session-ok (some t) s h = ap some (ok-injective h)

-- The calls that a `finish` that returned has made, in their order.
record Trace (audited : Bool) (now : Instant) (r : InteractionRecord) (d : InterruptResolution)
    (db db' : Db) : Type 0 where
  resolution : Mapping
  row : InteractionRecord
  db2 : Db
  settled :
      resolve_pending_interaction now d.correlation_id d.status resolution (some d.resolved_at) db
      ≡ (ok row, db2)
  before : SessionRecord
  db3 : Db
  loaded : get_session r.session_id db2 ≡ (ok (some before), db3)
  after : SessionRecord
  db5 : Db
  stored :
      upsert_session now (with_state before idle (context_without_interrupt before.context)) db3
      ≡ (ok after, db5)
  logged : (record_decision audited now before r d db5).1 ≡ db'

finish-Trace :
    (audited : Bool) (now : Instant) (r : InteractionRecord) (d e : InterruptResolution)
    (db db' : Db)
    → finish audited now r d db ≡ (ok e, db')
    → Trace audited now r d db db' × (d ≡ e)
unfolding finish
finish-Trace audited now r d e db db' h =
    let (m, _, h1) = continue-lift-ok (to_record_payload d) _ h in
    let (row, db2, p2, h2) =
      continue-eq-ok
        (resolve_pending_interaction now d.correlation_id d.status m (some d.resolved_at) db) _
        h1 in
    let (found, db3, p3, h3) = continue-eq-ok (get_session r.session_id db2) _ h2 in
    let (s, es, h4) = continue-lift-ok (existing_session found) _ h3 in
    let (t, db5, p5, h5) =
      continue-eq-ok
        (upsert_session now (with_state s idle (context_without_interrupt s.context)) db3) _ h4 in
    let (u, db6, p6, h6) = continue-eq-ok (record_decision audited now s r d db5) _ h5 in
    let (same, ends) = returned-eq h6 in
    (
      record {
        resolution = m;
        row = row;
        db2 = db2;
        settled = p2;
        before = s;
        db3 = db3;
        loaded = p3 ∙ ap (λ o. (ok o, db3)) (existing_session-ok found s es);
        after = t;
        db5 = db5;
        stored = p5;
        logged = ap (λ p. p.1) p6 ∙ ends;
      },
      same,
    )

module _ (audited : Bool) (now : Instant) (key : Text) (r : InteractionRecord)
    (d : InterruptResolution) (db db' : Db) (c : Closes key r d db)
    (t : Trace audited now r d db db') where
  -- The table of interactions after the first write, which no later write changes.
  trace_settled : t.db2 ≡ record db {
    interactions =
        update (is_active key) (settle d.status t.resolution d.resolved_at) db.interactions;
  }
  trace_settled =
      ap (λ p. p.1)
        (sym t.settled
          ∙ resolve_active now d.correlation_id key d.status t.resolution (some d.resolved_at) db r
              c.terminal (subst (λ k. non_empty_string k ≡ ok key) (sym c.same_key) c.normal)
              c.found c.active)

  trace_interactions : db'.interactions ≡ t.db5.interactions
  trace_interactions =
      sym (ap (λ x. x.interactions) t.logged)
      ∙ (record_decision_keeps audited now t.before r d t.db5).1

  trace_sessions : db'.sessions ≡ t.db5.sessions
  trace_sessions =
      sym (ap (λ x. x.sessions) t.logged) ∙ (record_decision_keeps audited now t.before r d t.db5).0

  Trace-IsFinished : IsFinished key r d db db'
  Trace-IsFinished =
      let (k, normal, found, same3) =
        get_session-ok r.session_id t.db2 t.db3 (some t.before) t.loaded in
      let (k5, st) = upsert_session-IsStored now _ t.db3 t.db5 t.after t.stored in
      let is_key : t.before.session_id ≡ k =
        (eq_iff t.before.session_id k).0
          (find-holds (has_session_id k) t.db2.sessions t.before found) in
      let same_key : k ≡ k5 = ok-injective (
        sym (non_empty_string-fixed r.session_id k normal)
        ∙ subst (λ x. non_empty_string x ≡ ok k5) is_key st.normal) in
      record {
        row = settle d.status t.resolution d.resolved_at r;
        settled =
            ap (find (has_correlation key)) (
              trace_interactions
              ∙ ap (λ x. x.interactions) st.rest
              ∙ sym (ap (λ x. x.interactions) same3)
              ∙ ap (λ x. x.interactions) trace_settled)
            ∙ find-settled key r d t.resolution db c;
        status = refl;
        session_key = k;
        session_normal = normal;
        before = t.before;
        after = t.after;
        was_stored = sym (ap (λ x. find (has_session_id k) x.sessions) trace_settled) ∙ found;
        is_stored =
            ap (find (has_session_id k)) trace_sessions
            ∙ subst (λ x. find (has_session_id x) t.db5.sessions ≡ some t.after) (sym same_key)
                st.found;
        is_idle = st.state;
        context = st.context;
      }

-- A `finish` that returns has closed the row and put the Session back.
pub finish-IsFinished :
    (audited : Bool) (now : Instant) (key : Text) (r : InteractionRecord)
    (d e : InterruptResolution) (db db' : Db)
    → Closes key r d db
    → finish audited now r d db ≡ (ok e, db')
    → IsFinished key r d db db' × (d ≡ e)
finish-IsFinished audited now key r d e db db' c h =
    let (t, same) = finish-Trace audited now r d e db db' h in
    (Trace-IsFinished audited now key r d db db' c t, same)
