-- ===== src/Store/Interactions/Later.antt =====
-- What may become of a row of `pending_interactions` once it is terminal: the INSERT and the UPDATE
-- of the table (src/infra/store.py), in any order and number, between any other writes.
use im_assistant.Prelude.{
  ◌≡◌, refl, sym, ap, ◌∙◌, Option, some, Text, ok, ◌∷◌, [], inl, inr, find, Result-cases,
  Bool-cases, false, ◌||◌, not, exists, non_empty_string, or_default, subst, ok-injective, arith,
}
use im_assistant.Prelude.Table.Reads.{find-append_some, find-update_kept}
use im_assistant.Instant.{Instant}
use im_assistant.Json.{Mapping}
use im_assistant.Store.Records.{InteractionRecord, InteractionStatus, Db}
use im_assistant.Store.Sessions.{has_session_id}
use im_assistant.Store.Interactions.{
  has_correlation, is_active, is_pending, settle, interaction_row, terminal_status,
  create_pending_interaction, get_pending_interaction, resolve_pending_interaction,
}
use im_assistant.Store.Interactions.Writes.{create_outcome, create_pending_interaction_lem}

-- One write, whether its call returned or raised: an insertion of any record, a settlement of any
-- interaction, or a write that leaves the row of `cid` as it reads.
pub data Step (cid : Text) (db db' : Db) : Type 0 where
  inserts :
      (now : Instant) (r : InteractionRecord)
      → db' ≡ (create_pending_interaction now r db).1
      → Step cid db db'
  settles :
      (now : Instant) (k : Text) (status : InteractionStatus) (m : Mapping) (at : Option Instant)
      → db' ≡ (resolve_pending_interaction now k status m at db).1
      → Step cid db db'
  elsewhere :
      (get_pending_interaction cid db').0 ≡ (get_pending_interaction cid db).0 → Step cid db db'

-- The states that any number of writes lead to.
pub data Later (cid : Text) (db : Db) : Db → Type 0 where
  at_once : Later cid db db
  and_then : {mid db' : Db} → Later cid db mid → Step cid mid db' → Later cid db db'

-- The row of the id is there, and terminal.
pub record IsTerminal (cid : Text) (db : Db) : Type 0 where
  pub key : Text
  pub normal : non_empty_string cid ≡ ok key
  pub row : InteractionRecord
  pub found : find (has_correlation key) db.interactions ≡ some row
  pub terminal : is_pending row.status ≡ false

insert_keeps :
    (now : Instant) (r q : InteractionRecord) (key : Text) (db : Db)
    → find (has_correlation key) db.interactions ≡ some q
    → find (has_correlation key) (create_outcome now r db).1.interactions ≡ some q
unfolding create_outcome
insert_keeps now r q key db f = elim (Result-cases (interaction_row now r)) [
  | inr (e, x) ↦ rw (create_outcome, x) f
  | inl (row, x) ↦
      elim (Bool-cases (
        exists (has_correlation row.correlation_id) db.interactions
        || not (exists (has_session_id row.session_id) db.sessions))) [
          | inl y ↦ rw (create_outcome, x, y) f
          | inr y ↦
              rw (create_outcome, x, y)
                (find-append_some (has_correlation key) db.interactions (row ∷ []) q f)
        ]
]

settle_keeps :
    (now : Instant) (k : Text) (status : InteractionStatus) (m : Mapping) (at : Option Instant)
    (q : InteractionRecord) (key : Text) (db : Db)
    → find (has_correlation key) db.interactions ≡ some q
    → is_pending q.status ≡ false
    → find (has_correlation key) (resolve_pending_interaction now k status m at db).1.interactions
      ≡ some q
unfolding resolve_pending_interaction get_pending_interaction
settle_keeps now k status m at q key db f t = elim (Result-cases (terminal_status status)) [
  | inr (e, x) ↦ rw x f
  | inl (s, x) ↦ elim (Result-cases (non_empty_string k)) [
    | inr (e, y) ↦ rw (x, y) f
    | inl (j, y) ↦
        let kept =
          find-update_kept (has_correlation key) (is_active j) (settle s m (or_default at now))
            db.interactions q (λ z _. refl) f (ground (arith, t)) in
        ground (arith, x, y, kept)
  ]
]

read_row :
    (cid key : Text) (db : Db)
    → non_empty_string cid ≡ ok key
    → (get_pending_interaction cid db).0 ≡ ok (find (has_correlation key) db.interactions)
unfolding get_pending_interaction
read_row cid key db n = rw n refl

Step-keeps :
    (cid : Text) (db db' : Db) (t : IsTerminal cid db)
    → Step cid db db'
    → find (has_correlation t.key) db'.interactions ≡ some t.row
Step-keeps cid db db' t (inserts now r e) =
    subst (λ d. find (has_correlation t.key) d.interactions ≡ some t.row)
      (ap (λ p. p.1) (sym (create_pending_interaction_lem now r db)) ∙ sym e)
      (insert_keeps now r t.row t.key db t.found)
Step-keeps cid db db' t (settles now k status m at e) =
    subst (λ d. find (has_correlation t.key) d.interactions ≡ some t.row) (sym e)
      (settle_keeps now k status m at t.row t.key db t.found t.terminal)
Step-keeps cid db db' t (elsewhere e) =
    ok-injective (sym (read_row cid t.key db' t.normal) ∙ e ∙ read_row cid t.key db t.normal)
    ∙ t.found

-- A terminal row is terminal for ever, and as it was.
pub Later-IsTerminal :
    (cid : Text) (db db' : Db) → Later cid db db' → IsTerminal cid db → IsTerminal cid db'
Later-IsTerminal cid db db' at_once t = t
Later-IsTerminal cid db db' (and_then {mid} l s) t =
    let u = Later-IsTerminal cid db mid l t in
    record {
      key = u.key;
      normal = u.normal;
      row = u.row;
      found = Step-keeps cid mid db' u s;
      terminal = u.terminal;
    }
