-- ===== src/Store/Sessions/Unique.antt =====
-- The constraints of the table `sessions`, kept by every write: a PRIMARY KEY, a UNIQUE
-- conversation, and texts in normal form.
use im_assistant.Prelude.{
  ◌≡◌, refl, ◌∙◌, subst, Bool, true, false, none, List, [], ◌∷◌, ◌++◌, Text, ◌==◌, eq_iff, eq_comm,
  ok, Result-cases, Bool-cases, inl, inr, non_empty_string, non_empty_string-fixed, bind-eq-ok,
  ok-injective, All-append, find, update, exists, All, arith,
}
use im_assistant.Prelude.Table.Reads.{
  find-none_of_exists, All-find-none, update-none, find-none_of_All,
}
use im_assistant.Prelude.Table.Keys.{
  Distinct, Distinct-append, Distinct-update, Distinct-delete, All-update, All-delete, All-map,
  All-zip,
}
use im_assistant.Instant.{Instant}
use im_assistant.Store.Records.{SessionRecord, Db}
use im_assistant.Store.Sessions.{
  has_session_id, has_conversation_id, takes_conversation, put_session, overwrite_session,
  session_row, upsert_session, delete_session,
}
use im_assistant.Store.Sessions.Writes.{upsert_outcome, upsert_session_lem}

abbrev pub same_session : SessionRecord → SessionRecord → Bool
same_session r x = x.session_id == r.session_id

abbrev pub same_conversation : SessionRecord → SessionRecord → Bool
same_conversation r x = x.conversation_id == r.conversation_id

pub record IsNormalRow (r : SessionRecord) : Type 0 where
  pub session_id : non_empty_string r.session_id ≡ ok r.session_id
  pub conversation_id : non_empty_string r.conversation_id ≡ ok r.conversation_id
  pub bot_id : non_empty_string r.bot_id ≡ ok r.bot_id
  pub principal_id : non_empty_string r.principal_id ≡ ok r.principal_id

pub record IsValidTable (rows : List SessionRecord) : Type 0 where
  pub normal : All IsNormalRow rows
  pub keyed : Distinct same_session rows
  pub unique : Distinct same_conversation rows

session_row-IsNormalRow :
    (now : Instant) (r row : SessionRecord) → session_row now r ≡ ok row → IsNormalRow row
unfolding session_row
session_row-IsNormalRow now r row h =
    let (a, ea, h1) = bind-eq-ok (non_empty_string r.session_id) _ h in
    let (b, eb, h2) = bind-eq-ok (non_empty_string r.conversation_id) _ h1 in
    let (c, ec, h3) = bind-eq-ok (non_empty_string r.bot_id) _ h2 in
    let (d, ed, h4) = bind-eq-ok (non_empty_string r.principal_id) _ h3 in
    subst IsNormalRow (ok-injective h4) (record {
      session_id = non_empty_string-fixed r.session_id a ea;
      conversation_id = non_empty_string-fixed r.conversation_id b eb;
      bot_id = non_empty_string-fixed r.bot_id c ec;
      principal_id = non_empty_string-fixed r.principal_id d ed;
    })

-- No row but that of the key has the new conversation.
abbrev IsFree : SessionRecord → List SessionRecord → Type 0
IsFree new = All (λ x. takes_conversation new x ≡ false)

module _ (new : SessionRecord) where
  apart_from_new :
      (x : SessionRecord) (rows : List SessionRecord)
      → (x.conversation_id == new.conversation_id) ≡ false
      → All (λ y. same_conversation x y ≡ false) rows
      → All
          (λ y. same_conversation x y ≡ false)
          (update (has_session_id new.session_id) (overwrite_session new) rows)
  apart_from_new x rows e a =
      All-update (λ y. same_conversation x y ≡ false) (has_session_id new.session_id)
        (overwrite_session new) rows (λ y _ _. eq_comm new.conversation_id x.conversation_id ∙ e) a

  key_rest :
      (x : SessionRecord) (rows : List SessionRecord)
      → (x.session_id == new.session_id) ≡ true
      → All (λ y. same_session x y ≡ false) rows
      → All (λ y. has_session_id new.session_id y ≡ false) rows
  key_rest x rows e a =
      subst (λ k. All (λ y. (y.session_id == k) ≡ false) rows)
        ((eq_iff x.session_id new.session_id).0 e) a

  only_row :
      (rows : List SessionRecord)
      → All (λ y. has_session_id new.session_id y ≡ false) rows
      → update (has_session_id new.session_id) (overwrite_session new) rows ≡ rows
  only_row rows a =
      update-none (has_session_id new.session_id) (overwrite_session new) rows
        (find-none_of_All (has_session_id new.session_id) rows a)

  fresh_rest :
      (rows : List SessionRecord)
      → IsFree new rows
      → All (λ y. has_session_id new.session_id y ≡ false) rows
      → All (λ y. has_conversation_id new.conversation_id y ≡ false) rows
  fresh_rest rows f a = All-map _ _ rows (λ y h. ground (arith, h)) (All-zip _ _ rows f a)

  -- The updated row is the only one of its key, and its new conversation is nobody else's.
  Distinct-overwrite :
      (rows : List SessionRecord)
      → IsFree new rows
      → Distinct same_session rows
      → Distinct same_conversation rows
      → Distinct same_conversation
          (update (has_session_id new.session_id) (overwrite_session new) rows)
  unfolding update
  Distinct-overwrite [] f k d = tt
  Distinct-overwrite (x ∷ rows) f k d = elim (Bool-cases (x.session_id == new.session_id)) [
    | inl here ↦
        rw (here, only_row rows (key_rest x rows here k.0))
          (fresh_rest rows f.1 (key_rest x rows here k.0), d.1)
    | inr there ↦
        rw there
          (apart_from_new x rows (ground (arith, f.0)) d.0, Distinct-overwrite rows f.1 k.1 d.1)
  ]

  Distinct_comm :
      (rows : List SessionRecord)
      → All (λ y. has_session_id new.session_id y ≡ false) rows
      → All (λ y. same_session y new ≡ false) rows
  Distinct_comm rows a = All-map _ _ rows (λ y h. eq_comm new.session_id y.session_id ∙ h) a

  unique_comm :
      (rows : List SessionRecord)
      → All (λ y. has_conversation_id new.conversation_id y ≡ false) rows
      → All (λ y. same_conversation y new ≡ false) rows
  unique_comm rows a = All-map _ _ rows (λ y h. eq_comm new.conversation_id y.conversation_id ∙ h) a

  put_new-IsValidTable :
      (rows : List SessionRecord)
      → IsNormalRow new
      → IsFree new rows
      → find (has_session_id new.session_id) rows ≡ none
      → IsValidTable rows
      → IsValidTable (rows ++ new ∷ [])
  put_new-IsValidTable rows n f e v =
      let a = All-find-none (has_session_id new.session_id) rows e in
      record {
        normal = All-append IsNormalRow rows (new ∷ []) v.normal (n, tt);
        keyed = Distinct-append same_session rows new v.keyed (Distinct_comm rows a);
        unique =
            Distinct-append same_conversation rows new v.unique
              (unique_comm rows (fresh_rest rows f a));
      }

  overwrite-IsValidTable :
      (rows : List SessionRecord)
      → IsNormalRow new
      → IsFree new rows
      → IsValidTable rows
      → IsValidTable (update (has_session_id new.session_id) (overwrite_session new) rows)
  overwrite-IsValidTable rows n f v = record {
    normal =
        All-update IsNormalRow (has_session_id new.session_id) (overwrite_session new) rows
          (λ r _ h. record {
            session_id = h.session_id;
            conversation_id = n.conversation_id;
            bot_id = n.bot_id;
            principal_id = n.principal_id;
          })
          v.normal;
    keyed =
        Distinct-update same_session (has_session_id new.session_id) (overwrite_session new)
          (λ r x _. refl) (λ r x _. refl) rows v.keyed;
    unique = Distinct-overwrite rows f v.keyed v.unique;
  }

  put_session-IsValidTable :
      (rows : List SessionRecord)
      → IsNormalRow new
      → exists (takes_conversation new) rows ≡ false
      → IsValidTable rows
      → IsValidTable (put_session new rows)
  unfolding put_session
  put_session-IsValidTable rows n free v =
      let f = All-find-none (takes_conversation new) rows (find-none_of_exists _ rows free) in
      elim (Bool-cases (exists (has_session_id new.session_id) rows)) [
        | inl old ↦ rw old (overwrite-IsValidTable rows n f v)
        | inr fresh ↦ rw fresh (put_new-IsValidTable rows n f (find-none_of_exists _ rows fresh) v)
      ]

-- Every upsert keeps the constraints of the table, whether it returns or raises.
pub upsert_session-IsValidTable :
    (now : Instant) (r : SessionRecord) (db : Db)
    → IsValidTable db.sessions
    → IsValidTable (upsert_session now r db).1.sessions
unfolding upsert_outcome
upsert_session-IsValidTable now r db v =
    rw (upsert_session_lem now r db) (elim (Result-cases (session_row now r)) [
      | inr (e, fails) ↦ rw (fails, upsert_outcome) v
      | inl (row, made) ↦ elim (Bool-cases (exists (takes_conversation row) db.sessions)) [
        | inl taken ↦ rw (made, upsert_outcome, taken) v
        | inr free ↦
            rw (made, upsert_outcome, free)
              (put_session-IsValidTable row db.sessions (session_row-IsNormalRow now r row made)
                free v)
      ]
    ])

-- A deletion keeps them too.
pub delete_session-IsValidTable :
    (k : Text) (db : Db) → IsValidTable db.sessions → IsValidTable (delete_session k db).1.sessions
unfolding delete_session
delete_session-IsValidTable k db v = elim (Result-cases (non_empty_string k)) [
  | inr (e, fails) ↦ rw (fails, delete_session) v
  | inl (key, made) ↦
      rw (made, delete_session)
        (record {
          normal = All-delete IsNormalRow (has_session_id key) db.sessions v.normal;
          keyed = Distinct-delete same_session (has_session_id key) db.sessions v.keyed;
          unique = Distinct-delete same_conversation (has_session_id key) db.sessions v.unique;
        })
]
