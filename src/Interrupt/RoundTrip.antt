-- ===== src/Interrupt/RoundTrip.antt =====
-- An interrupt that was created is the one that is loaded.
use im_assistant.Prelude.{
  ℕ, ◌≡◌, sym, ap, ◌∙◌, Option, some, Text, ok, find, non_empty_string, continue-eq-ok,
  continue-lift-ok, subst, returned-eq, ok-injective, true, [], ◌∷◌, ◌++◌, bind-eq-ok, arith,
}
use im_assistant.Instant.{Instant}
use im_assistant.Json.{Mapping}
use im_assistant.Session.{Session, awaiting_interaction}
use im_assistant.Store.Records.{SessionRecord, InteractionRecord, Db}
use im_assistant.Store.Sessions.{has_session_id, upsert_session}
use im_assistant.Store.Sessions.Writes.{IsStored, upsert_session-IsStored}
use im_assistant.Store.Interactions.{
  has_correlation, is_pending, interaction_row, create_pending_interaction, get_pending_interaction,
}
use im_assistant.Store.Interactions.Writes.{
  IsCreated, create_pending_interaction-IsCreated, find-append_interaction,
}
use im_assistant.Interrupt.{InterruptKind, SessionInterrupt, kind_text}
use im_assistant.Interrupt.Manager.{
  interrupt_from_record, new_interrupt, effective_expiry, effective_responder, suspend, create, get,
  interaction_of, session_record_with_state, context_with_interrupt,
}
use im_assistant.Interrupt.Normal.{
  IsNormal, session_interrupt-IsNormal, interrupt_from_record-interaction_of,
}

-- What holds once `create` has returned `i` for the session `s`.
pub record IsSuspended (s : Session) (i : SessionInterrupt) (db : Db) : Type 0 where
  pub session : SessionRecord
  pub key : Text
  pub normal : non_empty_string s.session_id ≡ ok key
  pub stored : find (has_session_id key) db.sessions ≡ some session
  pub awaiting : session.state ≡ awaiting_interaction
  pub context : session.context ≡ context_with_interrupt s.context i
  pub row : InteractionRecord
  pub row_found : find (has_correlation i.correlation_id) db.interactions ≡ some row
  pub row_session : row.session_id ≡ key

-- `suspend` is the insertion of the row and the upsert of the session.
suspend_parts :
    (now : Instant) (s : Session) (i j : SessionInterrupt) (db db' : Db)
    → suspend now s i db ≡ (ok j, db')
    → (row : InteractionRecord) × (mid : Db) × (t : SessionRecord) × (key : Text) × IsCreated now
        (interaction_of s i)
        row
        db
        mid
      × IsStored
          (session_record_with_state s awaiting_interaction (context_with_interrupt s.context i))
          t
          key
          mid
          db'
      × (i ≡ j)
unfolding suspend
suspend_parts now s i j db db' h =
    let r = session_record_with_state s awaiting_interaction (context_with_interrupt s.context i) in
    let (row, mid, e, h1) =
      continue-eq-ok (create_pending_interaction now (interaction_of s i) db) _ h in
    let (t, last, e', h2) = continue-eq-ok (upsert_session now r mid) _ h1 in
    let (same, ends) = returned-eq h2 in
    let (key, stored) = upsert_session-IsStored now r mid db' t (e' ∙ ap (λ d. (ok t, d)) ends) in
    (row, mid, t, key, create_pending_interaction-IsCreated now _ row db mid e, stored, same)

-- A pending row with the key of an interrupt in normal form is loaded as the interrupt.
get-found :
    (cid : Text) (i : SessionInterrupt) (row : InteractionRecord) (db : Db)
    → non_empty_string cid ≡ ok i.correlation_id
    → find (has_correlation i.correlation_id) db.interactions ≡ some row
    → is_pending row.status ≡ true
    → interrupt_from_record row ≡ ok i
    → get cid db ≡ (ok (some i), db)
unfolding get get_pending_interaction
get-found cid i row db hk e p load = ground arith

interaction_row-session :
    (now : Instant) (s : Session) (i : SessionInterrupt) (row : InteractionRecord)
    → interaction_row now (interaction_of s i) ≡ ok row
    → non_empty_string s.session_id ≡ ok row.session_id
unfolding interaction_row
interaction_row-session now s i row h = ground arith

row_pending :
    (now : Instant) (s : Session) (i : SessionInterrupt) (row : InteractionRecord)
    → interaction_row now (interaction_of s i) ≡ ok row
    → is_pending row.status ≡ true
unfolding interaction_row
row_pending now s i row h = ground arith

module _ (now : Instant) (s : Session) (cid : Text) (i : SessionInterrupt) (db db' : Db)
    (n : IsNormal i) (hk : non_empty_string cid ≡ ok i.correlation_id)
    (h : suspend now s i db ≡ (ok i, db')) where
  suspended_row :
      {r : SessionRecord} {t : SessionRecord} {key : Text} {mid : Db} (row : InteractionRecord)
      → IsCreated now (interaction_of s i) row db mid
      → IsStored r t key mid db'
      → find (has_correlation i.correlation_id) db'.interactions ≡ some row
  suspended_row row made stored =
      let (load, keyed) = interrupt_from_record-interaction_of now s i row n made.row_ok in
      ap (λ d. find (has_correlation i.correlation_id) d.interactions) stored.rest
      ∙ ap (λ d. find (has_correlation i.correlation_id) d.interactions) (sym made.moved)
      ∙ subst (λ k. find (has_correlation k) (db.interactions ++ row ∷ []) ≡ some row) keyed
          (find-append_interaction row db.interactions made.free)

  suspend-get : get cid db' ≡ (ok (some i), db')
  suspend-get =
      let (row, mid, t, key, made, stored, same) = suspend_parts now s i i db db' h in
      let (load, keyed) = interrupt_from_record-interaction_of now s i row n made.row_ok in
      get-found cid i row db' hk (suspended_row row made stored)
        (row_pending now s i row made.row_ok) load

  suspend-IsSuspended : IsSuspended s i db'
  unfolding session_record_with_state
  suspend-IsSuspended =
      let (row, mid, t, key, made, stored, same) = suspend_parts now s i i db db' h in
      record {
        session = t;
        key = key;
        normal = stored.normal;
        stored = stored.found;
        awaiting = stored.state;
        context = stored.context;
        row = row;
        row_found = suspended_row row made stored;
        row_session =
            ok-injective (sym (interaction_row-session now s i row made.row_ok) ∙ stored.normal);
      }

pub new_interrupt-IsNormal :
    (s : Session) (kind : InterruptKind) (payload : Mapping) (cid : Text) (responder : Option Text)
    (at : Option Instant) (ttl now : ℕ) (i : SessionInterrupt)
    → new_interrupt s kind payload cid responder at ttl now ≡ ok i
    → IsNormal i × (non_empty_string cid ≡ ok i.correlation_id)
unfolding new_interrupt
new_interrupt-IsNormal s kind payload cid responder at ttl now i h =
    let (t, e, h') = bind-eq-ok (effective_expiry at ttl now) _ h in
    session_interrupt-IsNormal (kind_text kind) payload cid (effective_responder responder s) t i h'

-- Once `create` has returned an interrupt, `get` by its correlation id returns that interrupt and
-- changes nothing, and the stored Session awaits the interaction with the interrupt in its context.
pub create-get :
    (now : Instant) (s : Session) (kind : InterruptKind) (payload : Mapping) (cid : Text)
    (responder : Option Text) (at : Option Instant) (ttl : ℕ) (i : SessionInterrupt) (db db' : Db)
    → create now s kind payload cid responder at ttl db ≡ (ok i, db')
    → (get cid db' ≡ (ok (some i), db')) × IsSuspended s i db'
unfolding create
create-get now s kind payload cid responder at ttl i db db' h =
    let (j, mid, e, h1) =
      continue-eq-ok (new_interrupt s kind payload cid responder at ttl now, db) _ h in
    let (n, hk) =
      new_interrupt-IsNormal s kind payload cid responder at ttl now j (ap (λ p. p.0) e) in
    let (_, _, _, _, _, _, same) = suspend_parts now s j i mid db' h1 in
    let whole : suspend now s j mid ≡ (ok j, db') = h1 ∙ ap (λ k. (ok k, db')) (sym same) in
    subst (λ k. (get cid db' ≡ (ok (some k), db')) × IsSuspended s k db') same
      (
        suspend-get now s cid j mid db' n hk whole,
        suspend-IsSuspended now s cid j mid db' n hk whole,
      )

pub create-key :
    (now : Instant) (s : Session) (kind : InterruptKind) (payload : Mapping) (cid : Text)
    (responder : Option Text) (at : Option Instant) (ttl : ℕ) (i : SessionInterrupt) (db db' : Db)
    → create now s kind payload cid responder at ttl db ≡ (ok i, db')
    → non_empty_string cid ≡ ok i.correlation_id
unfolding create
create-key now s kind payload cid responder at ttl i db db' h =
    let (j, e, h1) = continue-lift-ok (new_interrupt s kind payload cid responder at ttl now) _ h in
    let (_, hk) = new_interrupt-IsNormal s kind payload cid responder at ttl now j e in
    let (_, _, _, _, _, _, same) = suspend_parts now s j i db db' h1 in
    subst (λ k. non_empty_string cid ≡ ok k.correlation_id) same hk
