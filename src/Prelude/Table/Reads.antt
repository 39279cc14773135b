-- ===== src/Prelude/Table/Reads.antt =====
-- What a read finds after an insertion, an update and a deletion.
use Prim.Native.Nat.{◌<◌}
use mathlib.Core.Path.{◌≡◌, refl, sym, ap, subst}
use mathlib.Core.Logic.{inl, inr}
use mathlib.Core.Bool.{Bool, true, false}
use mathlib.Core.Option.{none, some, some-injective}
use mathlib.Core.Option
use mathlib.Core.List.{List, [], ◌∷◌, ◌++◌}
use native.Mathlib.Omega.{arith}
use im_assistant.Prelude.Tests.{if◌then◌else◌, Bool-cases}
use im_assistant.Prelude.Lists.{All}
use im_assistant.Prelude.Table.{find, delete, update, count, exists}

module _ {ℓ} {R : Type ℓ} (p : R → Bool) where
  pub find-append_none : (xs ys : List R) → find p xs ≡ none → find p (xs ++ ys) ≡ find p ys
  unfolding find
  find-append_none [] ys h = refl
  find-append_none (x ∷ xs) ys h = ground (arith, find-append_none xs ys)

  pub find-append_some : (xs ys : List R) (r : R) → find p xs ≡ some r → find p (xs ++ ys) ≡ some r
  unfolding find
  find-append_some [] ys r h = cc
  find-append_some (x ∷ xs) ys r h = ground (arith, find-append_some xs ys r)

  -- A row that a read returns meets its condition.
  pub find-holds : (xs : List R) (r : R) → find p xs ≡ some r → p r ≡ true
  unfolding find
  find-holds [] r h = cc
  find-holds (x ∷ xs) r h = ground (arith, find-holds xs r)

  pub find-All {κ} : (P : R → Type κ) (xs : List R) (r : R) → All P xs → find p xs ≡ some r → P r
  unfolding find
  find-All P [] r a h = cc
  find-All P (x ∷ xs) r a h = elim (Bool-cases (p x)) [
    | inl e ↦ subst P (some-injective _ _ (rw e at h)) a.0
    | inr e ↦ find-All P xs r a.1 (rw e at h)
  ]

  pub All-find-none : (xs : List R) → find p xs ≡ none → All (λ x. p x ≡ false) xs
  unfolding find
  All-find-none [] h = tt
  All-find-none (x ∷ xs) h = ground (arith, All-find-none xs)

  pub find-none_of_All : (xs : List R) → All (λ x. p x ≡ false) xs → find p xs ≡ none
  unfolding find
  find-none_of_All [] h = refl
  find-none_of_All (x ∷ xs) h = ground (arith, find-none_of_All xs)

  pub count-none : (xs : List R) → find p xs ≡ none → count p xs ≡ 0
  unfolding find count
  count-none [] h = refl
  count-none (x ∷ xs) h = ground (arith, count-none xs)

  pub count-some : (xs : List R) (r : R) → find p xs ≡ some r → 0 < count p xs
  unfolding find count
  count-some [] r h = cc
  count-some (x ∷ xs) r h = ground (arith, count-some xs r)

  pub exists-some : (xs : List R) (r : R) → find p xs ≡ some r → exists p xs ≡ true
  unfolding find exists
  exists-some [] r h = cc
  exists-some (x ∷ xs) r h = ground (arith, exists-some xs r)

  pub exists-none : (xs : List R) → find p xs ≡ none → exists p xs ≡ false
  unfolding find exists
  exists-none [] h = refl
  exists-none (x ∷ xs) h = ground (arith, exists-none xs)

  -- An update that leaves the condition of the read alone changes the row that is found in place.
  pub find-update :
      (q : R → Bool) (f : R → R) (xs : List R)
      → ((r : R) → q r ≡ true → p (f r) ≡ p r)
      → find p (update q f xs) ≡ Option.map (λ r. if q r then f r else r) (find p xs)
  unfolding find update
  find-update q f [] h = refl
  find-update q f (x ∷ xs) h = ground (arith, h x, find-update q f xs h)

  pub find-delete :
      (q : R → Bool) (xs : List R)
      → ((r : R) → p r ≡ true → q r ≡ true)
      → find p (delete q xs) ≡ none
  unfolding find delete
  find-delete q [] h = refl
  find-delete q (x ∷ xs) h = ground (arith, h x, find-delete q xs h)

  pub find-delete_ne :
      (q : R → Bool) (xs : List R)
      → ((r : R) → p r ≡ true → q r ≡ false)
      → find p (delete q xs) ≡ find p xs
  unfolding find delete
  find-delete_ne q [] h = refl
  find-delete_ne q (x ∷ xs) h = ground (arith, h x, find-delete_ne q xs h)

  pub find-append_ne : (xs : List R) (r : R) → p r ≡ false → find p (xs ++ r ∷ []) ≡ find p xs
  unfolding find
  find-append_ne [] r h = ground arith
  find-append_ne (x ∷ xs) r h = ground (arith, find-append_ne xs r h)

  -- An update of rows that the read does not return is not seen.
  pub find-update_ne :
      (q : R → Bool) (f : R → R) (xs : List R)
      → ((r : R) → q r ≡ true → p r ≡ false)
      → ((r : R) → q r ≡ true → p (f r) ≡ false)
      → find p (update q f xs) ≡ find p xs
  unfolding find update
  find-update_ne q f [] h k = refl
  find-update_ne q f (x ∷ xs) h k = ground (arith, h x, k x, find-update_ne q f xs h k)

  -- A statement that meets no row changes nothing.
  pub update-none : (f : R → R) (xs : List R) → find p xs ≡ none → update p f xs ≡ xs
  unfolding find update
  update-none f [] h = refl
  update-none f (x ∷ xs) h = ground (arith, update-none f xs)

  pub delete-none : (xs : List R) → find p xs ≡ none → delete p xs ≡ xs
  unfolding find delete
  delete-none [] h = refl
  delete-none (x ∷ xs) h = ground (arith, delete-none xs)

  -- A stricter condition finds nothing where a weaker one does not.
  pub find-none_of_weaker :
      (q : R → Bool) (xs : List R)
      → ((r : R) → p r ≡ true → q r ≡ true)
      → find q xs ≡ none
      → find p xs ≡ none
  unfolding find
  find-none_of_weaker q [] i h = refl
  find-none_of_weaker q (x ∷ xs) i h = ground (arith, i x, find-none_of_weaker q xs i)

  pub find-cons_false : (x : R) (xs : List R) → p x ≡ false → find p (x ∷ xs) ≡ find p xs
  unfolding find
  find-cons_false x xs h = ground arith

  pub find-none_of_exists : (xs : List R) → exists p xs ≡ false → find p xs ≡ none
  unfolding find exists
  find-none_of_exists [] h = refl
  find-none_of_exists (x ∷ xs) h = ground (arith, find-none_of_exists xs)

  -- A row that is found, and that the deletion spares, is still found.
  pub find-delete_kept :
      (q : R → Bool) (xs : List R) (r : R)
      → find p xs ≡ some r
      → q r ≡ false
      → find p (delete q xs) ≡ some r
  unfolding find delete
  find-delete_kept q [] r h k = cc
  find-delete_kept q (x ∷ xs) r h k = elim (Bool-cases (p x)) [
    | inl e ↦
        let same : x ≡ r = some-injective x r (rw e at h) in
        rw (subst (λ y. q y ≡ false) (sym same) k) (rw e (ap some same))
    | inr e ↦ ground (arith, find-delete_kept q xs r)
  ]

  -- So is one that the update spares.
  pub find-update_kept :
      (q : R → Bool) (f : R → R) (xs : List R) (r : R)
      → ((x : R) → q x ≡ true → p (f x) ≡ p x)
      → find p xs ≡ some r
      → q r ≡ false
      → find p (update q f xs) ≡ some r
  find-update_kept q f xs r i h k = rw (find-update q f xs i, h, k)

  pub delete-append_new :
      (xs : List R) (r : R) → find p xs ≡ none → p r ≡ true → delete p (xs ++ r ∷ []) ≡ xs
  unfolding find delete
  delete-append_new [] r h k = ground arith
  delete-append_new (x ∷ xs) r h k = ground (arith, delete-append_new xs r)
