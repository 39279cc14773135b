-- ===== src/Store/Sessions/Restore.antt =====
-- A session that is stored can always be stored again with another state and context.
use mathlib.Core.Option.{some-injective}
use im_assistant.Prelude.{
  ◌≡◌, sym, ◌∙◌, subst, subst₂, not, ◌&&◌, false, some, List, [], ◌∷◌, Text, ◌==◌, eq_refl, eq_comm,
  ok, Bool-cases, inl, inr, non_empty_string, find, exists, All, arith, or_default, optional_string,
}
use im_assistant.Prelude.Table.Reads.{find-All, exists-none, find-none_of_All}
use im_assistant.Prelude.Table.Keys.{Distinct, All-map}
use im_assistant.Instant.{Instant}
use im_assistant.Store.Records.{SessionRecord, Db}
use im_assistant.Store.Sessions.{
  has_session_id, takes_conversation, put_session, session_row, upsert_session,
}
use im_assistant.Store.Sessions.Writes.{upsert_outcome, upsert_session_lem, stored_session}
use im_assistant.Store.Sessions.Unique.{same_conversation, IsNormalRow, IsValidTable}

not_itself : (x : SessionRecord) → takes_conversation x x ≡ false
not_itself x = ground (arith, eq_refl x.session_id)

not_taken :
    (s x : SessionRecord)
    → (x.conversation_id == s.conversation_id) ≡ false
    → takes_conversation s x ≡ false
not_taken s x h = ground arith

-- Nobody else has the conversation of a stored session.
free_conversation :
    (key : Text) (s : SessionRecord) (rows : List SessionRecord)
    → find (has_session_id key) rows ≡ some s
    → Distinct same_conversation rows
    → All (λ x. takes_conversation s x ≡ false) rows
unfolding find
free_conversation key s [] e d = tt
free_conversation key s (x ∷ rows) e d = elim (Bool-cases (x.session_id == key)) [
  | inl here ↦
      subst (λ z. All (λ y. takes_conversation z y ≡ false) (x ∷ rows))
        (some-injective x s (rw here at e))
        (not_itself x, All-map _ _ rows (λ y h. not_taken x y h) d.0)
  | inr there ↦ (
    not_taken s x (
        eq_comm x.conversation_id s.conversation_id
        ∙ find-All (has_session_id key) (λ y. same_conversation x y ≡ false) rows s d.0
            (rw there at e)),
    free_conversation key s rows (rw there at e) d.1,
  )
]

-- The row that is written for a stored session in normal form.
abbrev pub restored : Instant → SessionRecord → SessionRecord
restored now r = record r {
  actor_id = optional_string r.actor_id;
  created_at = some (or_default r.created_at now);
  updated_at = some now;
}

session_row-restored :
    (now : Instant) (r : SessionRecord) → IsNormalRow r → session_row now r ≡ ok (restored now r)
unfolding session_row
session_row-restored now r n = rw (n.session_id, n.conversation_id, n.bot_id, n.principal_id)

no_taker :
    (key : Text) (s r : SessionRecord) (db : Db)
    → IsValidTable db.sessions
    → find (has_session_id key) db.sessions ≡ some s
    → r.session_id ≡ s.session_id
    → r.conversation_id ≡ s.conversation_id
    → exists (takes_conversation r) db.sessions ≡ false
no_taker key s r db v e e1 e2 =
    subst₂
      (λ k c. exists (λ x. x.conversation_id == c && not (x.session_id == k)) db.sessions ≡ false)
      (sym e1) (sym e2)
      (exists-none (takes_conversation s) db.sessions (
        find-none_of_All (takes_conversation s) db.sessions
          (free_conversation key s db.sessions e v.unique)))

-- The upsert of a stored session returns, whatever its new state and context: `r` is the stored
-- record `s` up to those.
pub upsert_session_returns :
    (now : Instant) (key : Text) (s r : SessionRecord) (db : Db)
    → IsValidTable db.sessions
    → find (has_session_id key) db.sessions ≡ some s
    → r.session_id ≡ s.session_id
    → r.conversation_id ≡ s.conversation_id
    → r.bot_id ≡ s.bot_id
    → r.principal_id ≡ s.principal_id
    → (t : SessionRecord) × (db' : Db) × (upsert_session now r db ≡ (ok t, db'))
unfolding upsert_outcome
upsert_session_returns now key s r db v e e1 e2 e3 e4 =
    let row = restored now r in
    let n : IsNormalRow s = find-All (has_session_id key) IsNormalRow db.sessions s v.normal e in
    let n' : IsNormalRow r = record {
      session_id = subst (λ k. non_empty_string k ≡ ok k) (sym e1) n.session_id;
      conversation_id = subst (λ k. non_empty_string k ≡ ok k) (sym e2) n.conversation_id;
      bot_id = subst (λ k. non_empty_string k ≡ ok k) (sym e3) n.bot_id;
      principal_id = subst (λ k. non_empty_string k ≡ ok k) (sym e4) n.principal_id;
    } in
    (
      stored_session row db.sessions,
      record db { sessions = put_session row db.sessions },
      upsert_session_lem now r db
          ∙ rw (session_row-restored now r n', upsert_outcome, no_taker key s r db v e e1 e2),
    )
