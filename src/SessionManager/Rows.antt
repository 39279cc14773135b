-- ===== src/SessionManager/Rows.antt =====
-- The row that a call stores is the one that its conversation finds.
use mathlib.Core.Option.{some-injective}
use im_assistant.Prelude.{
  ◌≡◌, refl, sym, ap, ◌∙◌, subst, false, some, List, [], ◌∷◌, Text, ◌==◌, eq_iff, eq_refl, eq_comm,
  ok, Bool-cases, inl, inr, non_empty_string, find, arith,
}
use im_assistant.Prelude.Table.Reads.{find-All, find-holds}
use im_assistant.Prelude.Table.Keys.{Distinct}
use im_assistant.Instant.{Instant}
use im_assistant.Store.Records.{SessionRecord, Db}
use im_assistant.Store.Sessions.{has_session_id, has_conversation_id, session_row, upsert_session}
use im_assistant.Store.Sessions.Writes.{
  upsert_outcome-ok, upsert_session_lem, stored_session, upsert_session-IsStored,
}
use im_assistant.Store.Sessions.Unique.{
  same_session, same_conversation, IsNormalRow, IsValidTable, upsert_session-IsValidTable,
}

-- Under the UNIQUE constraint, a row that its key finds is the one that its conversation finds.
find_conversation :
    (key : Text) (t : SessionRecord) (rows : List SessionRecord)
    → Distinct same_conversation rows
    → find (has_session_id key) rows ≡ some t
    → find (has_conversation_id t.conversation_id) rows ≡ some t
unfolding find
find_conversation key t [] d e = absurd (cc)
find_conversation key t (x ∷ rows) d e = elim (Bool-cases (x.session_id == key)) [
  | inl here ↦
      subst (λ z. find (has_conversation_id z.conversation_id) (x ∷ rows) ≡ some z)
        (some-injective x t (rw here at e)) (rw (eq_refl x.conversation_id) refl)
  | inr there ↦
      let later = rw there at e in
      rw
        (eq_comm x.conversation_id t.conversation_id
          ∙ find-All (has_session_id key) (λ y. same_conversation x y ≡ false) rows t d.0 later)
        (find_conversation key t rows d.1 later)
]

session_row-conversation :
    (now : Instant) (r row : SessionRecord)
    → session_row now r ≡ ok row
    → non_empty_string r.conversation_id ≡ ok row.conversation_id
unfolding session_row
session_row-conversation now r row h = ground arith

stored_session-conversation :
    (row : SessionRecord) (rows : List SessionRecord)
    → (stored_session row rows).conversation_id ≡ row.conversation_id
stored_session-conversation row rows = ground arith

upsert_session-conversation :
    (now : Instant) (r t : SessionRecord) (db db' : Db)
    → upsert_session now r db ≡ (ok t, db')
    → non_empty_string r.conversation_id ≡ ok t.conversation_id
upsert_session-conversation now r t db db' h =
    let (row, e, _, is_t, _) =
      upsert_outcome-ok now r db db' t (sym (upsert_session_lem now r db) ∙ h) in
    session_row-conversation now r row e
    ∙ ap ok (sym (stored_session-conversation row db.sessions) ∙ ap (λ x. x.conversation_id) is_t)

-- What is known of a session once it is stored in a valid table.
pub record IsKept (r t : SessionRecord) (db' : Db) : Type 0 where
  pub conversation : non_empty_string r.conversation_id ≡ ok t.conversation_id
  pub found : find (has_conversation_id t.conversation_id) db'.sessions ≡ some t
  pub id : non_empty_string r.session_id ≡ ok t.session_id
  pub context : t.context ≡ r.context
  pub state : t.state ≡ r.state
  pub valid : IsValidTable db'.sessions

pub upsert_session-IsKept :
    (now : Instant) (r t : SessionRecord) (db db' : Db)
    → IsValidTable db.sessions
    → upsert_session now r db ≡ (ok t, db')
    → IsKept r t db'
upsert_session-IsKept now r t db db' v h =
    let (key, s) = upsert_session-IsStored now r db db' t h in
    let valid =
      subst (λ d. IsValidTable d.sessions) (ap (λ p. p.1) h)
        (upsert_session-IsValidTable now r db v) in
    let same =
      (eq_iff t.session_id key).0 (find-holds (has_session_id key) db'.sessions t s.found) in
    record {
      conversation = upsert_session-conversation now r t db db' h;
      found = find_conversation key t db'.sessions valid.unique s.found;
      id = s.normal ∙ ap ok (sym same);
      context = s.context;
      state = s.state;
      valid = valid;
    }

-- The row of a conversation, in normal form.
pub conversation_row :
    (c : Text) (x : SessionRecord) (db : Db)
    → IsValidTable db.sessions
    → find (has_conversation_id c) db.sessions ≡ some x
    → (x.conversation_id ≡ c) × IsNormalRow x
conversation_row c x db v h = (
  (eq_iff x.conversation_id c).0 (find-holds (has_conversation_id c) db.sessions x h),
  find-All (has_conversation_id c) IsNormalRow db.sessions x v.normal h,
)

-- And the row that its conversation finds is the one that its key finds.
pub find_session :
    (c : Text) (t : SessionRecord) (rows : List SessionRecord)
    → Distinct same_session rows
    → find (has_conversation_id c) rows ≡ some t
    → find (has_session_id t.session_id) rows ≡ some t
unfolding find
find_session c t [] d e = absurd (cc)
find_session c t (x ∷ rows) d e = elim (Bool-cases (x.conversation_id == c)) [
  | inl here ↦
      subst (λ z. find (has_session_id z.session_id) (x ∷ rows) ≡ some z)
        (some-injective x t (rw here at e)) (rw (eq_refl x.session_id) refl)
  | inr there ↦
      let later = rw there at e in
      rw
        (eq_comm x.session_id t.session_id
          ∙ find-All (has_conversation_id c) (λ y. same_session x y ≡ false) rows t d.0 later)
        (find_session c t rows d.1 later)
]
