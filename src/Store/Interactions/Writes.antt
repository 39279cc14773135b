-- ===== src/Store/Interactions/Writes.antt =====
-- The writes to `pending_interactions` as single steps, under the PRIMARY KEY of the table.
use im_assistant.Prelude.{
  ◌≡◌, refl, sym, ◌∙◌, Bool, true, false, not, ◌||◌, Option, none, some, List, [], ◌∷◌, ◌++◌, Text,
  ◌==◌, eq_iff, eq_refl, Result, ok, err, Result-cases, store_error, integrity_error,
  non_empty_string, find, update, exists, if◌then◌else◌, or_default, arith, Bool-cases,
  Option-cases, inl, inr, All, subst, subst₂,
}
use im_assistant.Prelude.Table.Reads.{
  find-append_none, find-update, find-holds, count-none, count-some, exists-none, exists-some,
  update-none, find-none_of_weaker, find-none_of_All, find-none_of_exists,
}
use im_assistant.Prelude.Table.Keys.{Distinct}
use im_assistant.Instant.{Instant}
use im_assistant.Json.{Mapping}
use im_assistant.Store.Records.{InteractionRecord, InteractionStatus, Db}
use im_assistant.Store.Sessions.{has_session_id}
use im_assistant.Store.Interactions.{
  has_correlation, is_active, is_pending, interaction_row, create_pending_interaction,
  get_pending_interaction, resolve_pending_interaction, settle, terminal_status,
}

abbrev pub same_correlation : InteractionRecord → InteractionRecord → Bool
same_correlation r q = q.correlation_id == r.correlation_id

pub interaction_row-key :
    (now : Instant) (r row : InteractionRecord)
    → interaction_row now r ≡ ok row
    → non_empty_string r.correlation_id ≡ ok row.correlation_id
unfolding interaction_row
interaction_row-key now r row h = ground arith

-- The row that is appended is the one that its key finds.
pub find-append_interaction :
    (row : InteractionRecord) (rows : List InteractionRecord)
    → find (has_correlation row.correlation_id) rows ≡ none
    → find (has_correlation row.correlation_id) (rows ++ row ∷ []) ≡ some row
unfolding find
find-append_interaction row rows e =
    find-append_none _ rows (row ∷ []) e ∙ rw (eq_refl row.correlation_id)

-- `create_pending_interaction` as one step.
unfoldable pub create_outcome : Instant → InteractionRecord → Db → Result InteractionRecord × Db
create_outcome now r db = elim (interaction_row now r) [
  | err e ↦ (err e, db)
  | ok row ↦
      if exists (has_correlation row.correlation_id) db.interactions
        || not (exists (has_session_id row.session_id) db.sessions)
      then (err integrity_error, db)
      else (ok row, record db { interactions = db.interactions ++ row ∷ [] })
]

-- On every branch `create_pending_interaction` is one step: it raises and changes nothing for an
-- invalid record, a taken correlation id or a missing Session, and otherwise appends the row and
-- returns it.
pub create_pending_interaction_lem :
    (now : Instant) (r : InteractionRecord) (db : Db)
    → create_pending_interaction now r db ≡ create_outcome now r db
unfolding create_pending_interaction get_pending_interaction create_outcome
create_pending_interaction_lem now r db = elim (Result-cases (interaction_row now r)) [
  | inr (e, h) ↦ ground arith
  | inl (row, h) ↦ elim (Option-cases (find (has_correlation row.correlation_id) db.interactions)) [
    | inl e ↦ ground (
      arith,
      interaction_row-key now r row h,
      exists-none (has_correlation row.correlation_id) db.interactions e,
      find-append_interaction row db.interactions e,
    )
    | inr (old, e) ↦
        ground (arith, exists-some (has_correlation row.correlation_id) db.interactions old e)
  ]
]

pub weaker :
    (key : Text) (q : InteractionRecord) → is_active key q ≡ true → has_correlation key q ≡ true
weaker key q a = ground arith

no_other :
    (key : Text) (r : InteractionRecord) (rows : List InteractionRecord)
    → r.correlation_id ≡ key
    → All (λ x. same_correlation r x ≡ false) rows
    → find (has_correlation key) rows ≡ none
no_other key r rows e a =
    find-none_of_All (has_correlation key) rows
      (subst (λ k. All (λ x. (x.correlation_id == k) ≡ false) rows) e a)

-- Under the primary key, the row that a key finds decides whether one is active.
find-active_settled :
    (key : Text) (rows : List InteractionRecord) (old : InteractionRecord)
    → Distinct same_correlation rows
    → find (has_correlation key) rows ≡ some old
    → is_pending old.status ≡ false
    → find (is_active key) rows ≡ none
unfolding find
find-active_settled key [] old d e h = refl
find-active_settled key (r ∷ rows) old d e h = elim (Bool-cases (r.correlation_id == key)) [
  | inl here ↦ ground (
    arith,
    find-none_of_weaker (is_active key) (has_correlation key) rows (λ q a. weaker key q a)
        (no_other key r rows ((eq_iff r.correlation_id key).0 here) d.0),
  )
  | inr there ↦ ground (arith, find-active_settled key rows old d.1)
]

pub find-active_pending :
    (key : Text) (rows : List InteractionRecord) (old : InteractionRecord)
    → find (has_correlation key) rows ≡ some old
    → is_pending old.status ≡ true
    → find (is_active key) rows ≡ some old
unfolding find
find-active_pending key [] old e h = cc
find-active_pending key (r ∷ rows) old e h = ground (arith, find-active_pending key rows old)

-- `resolve_pending_interaction` as one step: an active row is settled and returned, and without one
-- the call raises and nothing changes.
pub resolve_active :
    (now : Instant) (cid key : Text) (status : InteractionStatus) (m : Mapping)
    (at : Option Instant) (db : Db) (old : InteractionRecord)
    → is_pending status ≡ false
    → non_empty_string cid ≡ ok key
    → find (has_correlation key) db.interactions ≡ some old
    → is_pending old.status ≡ true
    → resolve_pending_interaction now cid status m at db ≡ (
      ok (settle status m (or_default at now) old),
      record db {
        interactions = update (is_active key) (settle status m (or_default at now)) db.interactions;
      },
    )
unfolding resolve_pending_interaction get_pending_interaction terminal_status
resolve_active now cid key status m at db old ht hk e p = ground (
  arith,
  count-some (is_active key) db.interactions old (find-active_pending key db.interactions old e p),
  find-update (has_correlation key) (is_active key) (settle status m (or_default at now))
      db.interactions (λ r h. refl),
  find-holds (has_correlation key) db.interactions old e,
)

pub resolve_inactive :
    (now : Instant) (cid key : Text) (status : InteractionStatus) (m : Mapping)
    (at : Option Instant) (db : Db)
    → is_pending status ≡ false
    → non_empty_string cid ≡ ok key
    → find (is_active key) db.interactions ≡ none
    → resolve_pending_interaction now cid status m at db ≡ (err store_error, db)
unfolding resolve_pending_interaction terminal_status
resolve_inactive now cid key status m at db ht hk e = ground (
  arith,
  count-none (is_active key) db.interactions e,
  update-none (is_active key) (settle status m (or_default at now)) db.interactions e,
)

-- What is known once `create_pending_interaction` has returned a row.
pub record IsCreated (now : Instant) (r row : InteractionRecord) (db db' : Db) : Type 0 where
  pub row_ok : interaction_row now r ≡ ok row
  pub free : find (has_correlation row.correlation_id) db.interactions ≡ none
  pub referenced : exists (has_session_id row.session_id) db.sessions ≡ true
  pub moved : record db { interactions = db.interactions ++ row ∷ [] } ≡ db'

create_outcome-ok :
    (now : Instant) (r row : InteractionRecord) (db db' : Db)
    → create_outcome now r db ≡ (ok row, db')
    → (x : InteractionRecord) × IsCreated now r x db
        (record db { interactions = db.interactions ++ x ∷ [] })
      × (x ≡ row)
      × (record db { interactions = db.interactions ++ x ∷ [] } ≡ db')
unfolding create_outcome
create_outcome-ok now r row db db' h = elim (Result-cases (interaction_row now r)) [
  | inr (e, fails) ↦ absurd (ground arith)
  | inl (x, e) ↦ (
    x,
    record {
      row_ok = e;
      free = find-none_of_exists _ db.interactions (ground arith);
      referenced = ground arith;
      moved = refl;
    },
    ground arith,
    ground arith,
  )
]

pub create_pending_interaction-IsCreated :
    (now : Instant) (r row : InteractionRecord) (db db' : Db)
    → create_pending_interaction now r db ≡ (ok row, db')
    → IsCreated now r row db db'
create_pending_interaction-IsCreated now r row db db' h =
    let (x, made, is_row, is_db) =
      create_outcome-ok now r row db db' (sym (create_pending_interaction_lem now r db) ∙ h) in
    subst₂ (λ y d. IsCreated now r y db d) is_row is_db made
