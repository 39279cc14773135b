-- ===== src/Store/Tokens/Writes.antt =====
-- The row of `token_vault` that a write leaves.
use im_assistant.Prelude.{
  ◌≡◌, refl, ◌∙◌, true, none, some, List, [], ◌∷◌, eq_refl, eq_iff, ok, Option-cases, inl, inr,
  non_empty_string, find, arith,
}
use im_assistant.Prelude.Table.Reads.{
  find-append_none, find-update, find-holds, exists-none, exists-some,
}
use im_assistant.Instant.{Instant}
use im_assistant.Store.Records.{TokenRecord, Db}
use im_assistant.Store.Tokens.{
  is_token, overwrite_token, put_token, get_token, token_row, upsert_token,
}

-- The row under the key of `row`, once `row` has been written.
abbrev pub stored_token : TokenRecord → List TokenRecord → TokenRecord
stored_token row rows = elim (find (is_token row.principal_id row.service) rows) [
  | none ↦ row
  | some old ↦ overwrite_token row old
]

is_token-itself : (row : TokenRecord) → is_token row.principal_id row.service row ≡ true
is_token-itself row = ground (arith, eq_refl row.principal_id, eq_refl row.service)

find-put_token_new :
    (row : TokenRecord) (rows : List TokenRecord)
    → find (is_token row.principal_id row.service) rows ≡ none
    → find (is_token row.principal_id row.service) (put_token row rows) ≡ some row
unfolding put_token find
find-put_token_new row rows e = rw (exists-none (is_token row.principal_id row.service) rows e) (
    find-append_none (is_token row.principal_id row.service) rows (row ∷ []) e
    ∙ rw (is_token-itself row) refl)

find-put_token_old :
    (row old : TokenRecord) (rows : List TokenRecord)
    → find (is_token row.principal_id row.service) rows ≡ some old
    → find (is_token row.principal_id row.service) (put_token row rows)
      ≡ some (overwrite_token row old)
unfolding put_token
find-put_token_old row old rows e =
    let key = is_token row.principal_id row.service in
    ground (
      arith,
      exists-some key rows old e,
      find-update key key (overwrite_token row) rows (λ r h. refl),
      e,
      find-holds key rows old e,
    )

pub find-put_token :
    (row : TokenRecord) (rows : List TokenRecord)
    → find (is_token row.principal_id row.service) (put_token row rows)
      ≡ some (stored_token row rows)
find-put_token row rows = elim (Option-cases (find (is_token row.principal_id row.service) rows)) [
  | inl e ↦ rw (e, stored_token) (find-put_token_new row rows e)
  | inr (old, e) ↦ rw (e, stored_token) (find-put_token_old row old rows e)
]

token_row-key :
    (now : Instant) (r row : TokenRecord)
    → token_row now r ≡ ok row
    → (non_empty_string r.principal_id ≡ ok row.principal_id)
      × (non_empty_string r.service ≡ ok row.service)
unfolding token_row
token_row-key now r row h = (ground arith, ground arith)

-- `upsert_token` of a valid record returns the row as it is stored.
pub upsert_token_stores :
    (now : Instant) (r row : TokenRecord) (db : Db)
    → token_row now r ≡ ok row
    → upsert_token now r db
      ≡ (ok (stored_token row db.tokens), record db { tokens = put_token row db.tokens })
unfolding upsert_token get_token
upsert_token_stores now r row db h =
    let (p, s) = token_row-key now r row h in rw (h, p, s, find-put_token row db.tokens) refl

-- All but `created_at` is that of the row that was written.
pub stored_token-fields :
    (row : TokenRecord) (rows : List TokenRecord)
    → record (stored_token row rows) { created_at = row.created_at } ≡ row
stored_token-fields row rows =
    elim (Option-cases (find (is_token row.principal_id row.service) rows)) [
      | inl e ↦ rw (stored_token, e) refl
      | inr (old, e) ↦
          let held = find-holds (is_token row.principal_id row.service) rows old e in
          let p : old.principal_id ≡ row.principal_id =
            ground (arith, eq_iff old.principal_id row.principal_id, held) in
          let s : old.service ≡ row.service =
            ground (arith, eq_iff old.service row.service, held) in
          rw (stored_token, e, p, s) refl
    ]
