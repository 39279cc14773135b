-- ===== src/Store/Sessions/Writes.antt =====
-- What the writes to `sessions` have done when they return, and what they leave alone.
use im_assistant.Prelude.{
  ◌≡◌, refl, true, false, none, some, List, Text, ◌==◌, eq_iff, eq_refl, eq_ne, sym, ◌∙◌, Result,
  ok, err, non_empty_string, find, exists, if◌then◌else◌, arith, Bool-cases, Option-cases, inl, inr,
  subst₂, Result-cases, integrity_error, ◌∷◌, [],
}
use im_assistant.Prelude.Table.Reads.{
  find-append_none, find-append_ne, find-update_ne, find-holds, find-update, exists-some,
  exists-none,
}
use im_assistant.Instant.{Instant}
use im_assistant.Store.Records.{SessionRecord, Db}
use im_assistant.Store.Sessions.{
  has_session_id, takes_conversation, put_session, overwrite_session, session_row, upsert_session,
  get_session,
}

-- A session that is written keeps the time of its creation, if it was there.
abbrev pub stored_session : SessionRecord → List SessionRecord → SessionRecord
stored_session row rows = elim (find (has_session_id row.session_id) rows) [
  | none ↦ row
  | some old ↦ overwrite_session row old
]

session_row-key :
    (now : Instant) (r row : SessionRecord)
    → session_row now r ≡ ok row
    → non_empty_string r.session_id ≡ ok row.session_id
unfolding session_row
session_row-key now r row h = ground arith

find-put_session_new :
    (row : SessionRecord) (rows : List SessionRecord)
    → find (has_session_id row.session_id) rows ≡ none
    → find (has_session_id row.session_id) (put_session row rows) ≡ some row
unfolding put_session find
find-put_session_new row rows e =
    rw (exists-none _ rows e, find-append_none _ rows (row ∷ []) e, eq_refl row.session_id)

find-put_session_old :
    (row old : SessionRecord) (rows : List SessionRecord)
    → find (has_session_id row.session_id) rows ≡ some old
    → find (has_session_id row.session_id) (put_session row rows) ≡ some (overwrite_session row old)
unfolding put_session
find-put_session_old row old rows e = rw (
  exists-some _ rows old e,
  find-update (has_session_id row.session_id) (has_session_id row.session_id)
      (overwrite_session row) rows (λ r h. refl),
  e,
  find-holds (has_session_id row.session_id) rows old e,
)

-- The row that is written is the one that is found.
pub find-put_session :
    (row : SessionRecord) (rows : List SessionRecord)
    → find (has_session_id row.session_id) (put_session row rows) ≡ some (stored_session row rows)
find-put_session row rows = elim (Option-cases (find (has_session_id row.session_id) rows)) [
  | inl e ↦ rw (e, stored_session) (find-put_session_new row rows e)
  | inr (old, e) ↦ rw (e, stored_session) (find-put_session_old row old rows e)
]

other_session : (s j k : Text) → (s == j) ≡ true → (k ≡ j → ⊥) → (s == k) ≡ false
other_session s j k e ne = eq_ne s k (λ p. ne (sym p ∙ (eq_iff s j).0 e))

-- Another session's row is what it was.
pub find-put_session_ne :
    (row : SessionRecord) (rows : List SessionRecord) (k : Text)
    → (k ≡ row.session_id → ⊥)
    → find (has_session_id k) (put_session row rows) ≡ find (has_session_id k) rows
unfolding put_session
find-put_session_ne row rows k ne =
    elim (Bool-cases (exists (has_session_id row.session_id) rows)) [
      | inl old ↦ rw old (
          find-update_ne (has_session_id k) (has_session_id row.session_id) (overwrite_session row)
            rows (λ r e. other_session r.session_id row.session_id k e ne)
            (λ r e. other_session r.session_id row.session_id k e ne))
      | inr new ↦
          rw new
            (find-append_ne (has_session_id k) rows row (eq_ne row.session_id k (λ e. ne (sym e))))
    ]

-- The upsert as one step: it returns the row that it stores, or raises and changes nothing.
unfoldable pub upsert_outcome : Instant → SessionRecord → Db → Result SessionRecord × Db
upsert_outcome now r db = elim (session_row now r) [
  | err e ↦ (err e, db)
  | ok row ↦ if exists (takes_conversation row) db.sessions then (err integrity_error, db) else (
    ok (stored_session row db.sessions),
    record db { sessions = put_session row db.sessions },
  )
]

-- On every branch `upsert_session` is that one step: its write and the read that follows it return
-- the row as it is stored, with the `created_at` of an older row of the key.
pub upsert_session_lem :
    (now : Instant) (r : SessionRecord) (db : Db)
    → upsert_session now r db ≡ upsert_outcome now r db
unfolding upsert_session get_session upsert_outcome
upsert_session_lem now r db = elim (Result-cases (session_row now r)) [
  | inr (e, h) ↦ ground arith
  | inl (row, h) ↦ ground (arith, session_row-key now r row h, find-put_session row db.sessions)
]

-- What is known of a session once `upsert_session` has returned it.
pub record IsStored (r t : SessionRecord) (key : Text) (db db' : Db) : Type 0 where
  pub normal : non_empty_string r.session_id ≡ ok key
  pub found : find (has_session_id key) db'.sessions ≡ some t
  pub state : t.state ≡ r.state
  pub context : t.context ≡ r.context
  pub kind : t.kind ≡ r.kind
  pub rest : db' ≡ record db { sessions = db'.sessions }
  -- no other session's row has changed
  pub others :
      (k : Text)
      → (k ≡ key → ⊥)
      → find (has_session_id k) db'.sessions ≡ find (has_session_id k) db.sessions

stored_session-fields :
    (row : SessionRecord) (rows : List SessionRecord)
    → let t = stored_session row rows in
      (t.state ≡ row.state) × (t.context ≡ row.context) × (t.kind ≡ row.kind)
stored_session-fields row rows = ground arith

session_row-fields :
    (now : Instant) (r row : SessionRecord)
    → session_row now r ≡ ok row
    → (row.state ≡ r.state) × (row.context ≡ r.context) × (row.kind ≡ r.kind)
unfolding session_row
session_row-fields now r row h = ground arith

IsStored-outcome :
    (now : Instant) (r row : SessionRecord) (db : Db)
    → session_row now r ≡ ok row
    → IsStored r
        (stored_session row db.sessions)
        row.session_id
        db
        (record db { sessions = put_session row db.sessions })
IsStored-outcome now r row db h =
    let (s, c, k) = session_row-fields now r row h in
    let (s', c', k') = stored_session-fields row db.sessions in
    record {
      normal = session_row-key now r row h;
      found = find-put_session row db.sessions;
      state = s' ∙ s;
      context = c' ∙ c;
      kind = k' ∙ k;
      rest = refl;
      others = find-put_session_ne row db.sessions;
    }

-- An upsert returns only where no other session has the conversation.
pub upsert_outcome-ok :
    (now : Instant) (r : SessionRecord) (db db' : Db) (t : SessionRecord)
    → upsert_outcome now r db ≡ (ok t, db')
    → (row : SessionRecord) × (session_row now r ≡ ok row)
      × (exists (takes_conversation row) db.sessions ≡ false)
      × (stored_session row db.sessions ≡ t)
      × (record db { sessions = put_session row db.sessions } ≡ db')
unfolding upsert_outcome
upsert_outcome-ok now r db db' t h = elim (Result-cases (session_row now r)) [
  | inr (e, fails) ↦ absurd (ground arith)
  | inl (row, e) ↦ (row, e, ground arith, ground arith, ground arith)
]

-- When `upsert_session` returns a record, the stripped session id finds that record in the table, it
-- has the state, context and kind that were given, and the rows of all other sessions and all other
-- tables are what they were.
pub upsert_session-IsStored :
    (now : Instant) (r : SessionRecord) (db db' : Db) (t : SessionRecord)
    → upsert_session now r db ≡ (ok t, db')
    → (key : Text) × IsStored r t key db db'
upsert_session-IsStored now r db db' t h =
    let (row, e, free, is_t, is_db) =
      upsert_outcome-ok now r db db' t (sym (upsert_session_lem now r db) ∙ h) in
    (
      row.session_id,
      subst₂ (λ u d. IsStored r u row.session_id db d) is_t is_db (IsStored-outcome now r row db e),
    )
