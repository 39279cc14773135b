-- ===== src/Store/Messages/Window.antt =====
-- `list_recent_messages` is a window on the end of a conversation.
use mathlib.Core.List.{reverse, reverse-cons, reverse-reverse}
use im_assistant.Prelude.{
  ℕ, zero, suc, ◌-◌, ◌≤◌, ◌≡◌, refl, sym, ap, ◌∙◌, List, [], ◌∷◌, ◌++◌, Text, ok, non_empty_string,
  select, take, drop, length, length-append, arith,
}
use native.Mathlib.Decide.{dec_le}
use im_assistant.Store.Records.{MessageRecord, Db}
use im_assistant.Store.Messages.{in_session, positive_int, list_recent_messages}

module _ {ℓ} {A : Type ℓ} where
  length-reverse : (xs : List A) → length (reverse xs) ≡ length xs
  length-reverse [] = refl
  length-reverse (x ∷ xs) =
      ap length (reverse-cons x xs)
      ∙ omega (arith, length-append (reverse xs) (x ∷ []), length-reverse xs)

  pub take-append_le : (n : ℕ) (xs ys : List A) → n ≤ length xs → take n (xs ++ ys) ≡ take n xs
  take-append_le zero xs ys h = refl
  take-append_le (suc n) [] ys h = absurd (omega arith)
  take-append_le (suc n) (x ∷ xs) ys h = ap (◌∷◌ x) (take-append_le n xs ys (omega arith))

  take_all : (n : ℕ) (xs : List A) → length xs ≤ n → take n xs ≡ xs
  take_all zero [] h = refl
  take_all zero (x ∷ xs) h = absurd (omega arith)
  take_all (suc n) [] h = refl
  take_all (suc n) (x ∷ xs) h = ap (◌∷◌ x) (take_all n xs (omega arith))

  drop-nil : (n : ℕ) → ◌≡◌ {A = List A} (drop n []) []
  drop-nil zero = refl
  drop-nil (suc n) = refl

  -- The first `n` from the end, put in order again, are the last `n`.
  take-reverse : (n : ℕ) (xs : List A) → reverse (take n (reverse xs)) ≡ drop (length xs - n) xs
  take-reverse n [] = ap reverse (take_all n [] (omega arith)) ∙ sym (drop-nil (0 - n))
  take-reverse n (x ∷ xs) = elim (dec_le n (length xs)) [
    | yes h ↦
        ap (λ l. reverse (take n l)) (reverse-cons x xs)
        ∙ ap reverse (take-append_le n (reverse xs) (x ∷ []) (omega (arith, length-reverse xs)))
        ∙ take-reverse n xs
        ∙ ap (λ k. drop k (x ∷ xs)) (step n (length xs) h)
    | no h ↦
        ap reverse (take_all n (reverse (x ∷ xs)) (omega (arith, length-reverse (x ∷ xs))))
        ∙ reverse-reverse (x ∷ xs)
        ∙ ap (λ k. drop k (x ∷ xs)) (rest n (length xs) h)
  ]
    where
      step : (n k : ℕ) → n ≤ k → suc (k - n) ≡ suc k - n
      step n k h = omega arith

      rest : (n k : ℕ) → ¬ (n ≤ k) → 0 ≡ suc k - n
      rest n k h = omega arith

pub select-append :
    (key : Text) (xs : List MessageRecord) (m : MessageRecord)
    → select (in_session key) (xs ++ m ∷ [])
      ≡ select (in_session key) xs ++ select (in_session key) (m ∷ [])
unfolding select
select-append key [] m = refl
select-append key (x ∷ xs) m = ground (arith, select-append key xs m)

pub positive : (n : ℕ) (db : Db) → positive_int (suc n) db ≡ (ok (suc n), db)
unfolding positive_int
positive n db = ground arith

-- For a session id that is not blank and a positive limit, `list_recent_messages` returns the last
-- `limit` of the session's rows in the order of insertion, all of them where there are fewer, and
-- changes nothing.
pub list_recent_messages_window :
    (session_id key : Text) (n : ℕ) (db : Db)
    → non_empty_string session_id ≡ ok key
    → let rows = select (in_session key) db.messages in
      list_recent_messages session_id (suc n) db ≡ (ok (drop (length rows - suc n) rows), db)
unfolding list_recent_messages
list_recent_messages_window session_id key n db e =
    rw (e, positive n db)
      (ap (λ l. (ok l, db)) (take-reverse (suc n) (select (in_session key) db.messages)))
