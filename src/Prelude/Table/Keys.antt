-- ===== src/Prelude/Table/Keys.antt =====
-- A predicate on every row, and rows that are pairwise told apart, kept by the statements.
use mathlib.Core.Path.{◌≡◌, ◌∙◌}
use mathlib.Core.Bool.{Bool, true, false}
use mathlib.Core.Logic.{inl, inr}
use mathlib.Core.List.{List, [], ◌∷◌, ◌++◌}
use im_assistant.Prelude.Tests.{Bool-cases}
use im_assistant.Prelude.Lists.{All, All-append}
use im_assistant.Prelude.Table.{delete, update}

-- No two rows are the same by `same`: a PRIMARY KEY or UNIQUE constraint.
abbrev pub Distinct {ℓ} : {R : Type ℓ} → (R → R → Bool) → List R → Type 0
Distinct same [] = Unit
Distinct same (r ∷ rs) = All (λ x. same r x ≡ false) rs × Distinct same rs

module _ {ℓ} {R : Type ℓ} where
  pub All-update {κ} :
      (P : R → Type κ) (q : R → Bool) (f : R → R) (xs : List R)
      → ((r : R) → q r ≡ true → P r → P (f r))
      → All P xs
      → All P (update q f xs)
  unfolding update
  All-update P q f [] h a = tt
  All-update P q f (x ∷ xs) h a = elim (Bool-cases (q x)) [
    | inl e ↦ rw e (h x e a.0, All-update P q f xs h a.1)
    | inr e ↦ rw e (a.0, All-update P q f xs h a.1)
  ]

  pub All-delete {κ} :
      (P : R → Type κ) (q : R → Bool) (xs : List R) → All P xs → All P (delete q xs)
  unfolding delete
  All-delete P q [] a = tt
  All-delete P q (x ∷ xs) a = elim (Bool-cases (q x)) [
    | inl e ↦ rw e (All-delete P q xs a.1)
    | inr e ↦ rw e (a.0, All-delete P q xs a.1)
  ]

  pub All-map {κ μ} :
      (P : R → Type κ) (Q : R → Type μ) (xs : List R) → ((r : R) → P r → Q r) → All P xs → All Q xs
  All-map P Q [] h a = tt
  All-map P Q (x ∷ xs) h a = (h x a.0, All-map P Q xs h a.1)

  pub All-zip {κ μ} :
      (P : R → Type κ) (Q : R → Type μ) (xs : List R)
      → All P xs
      → All Q xs
      → All (λ r. P r × Q r) xs
  All-zip P Q [] a b = tt
  All-zip P Q (x ∷ xs) a b = ((a.0, b.0), All-zip P Q xs a.1 b.1)

  module _ (same : R → R → Bool) where
    pub Distinct-append :
        (xs : List R) (r : R)
        → Distinct same xs
        → All (λ x. same x r ≡ false) xs
        → Distinct same (xs ++ r ∷ [])
    Distinct-append [] r d a = (tt, tt)
    Distinct-append (x ∷ xs) r d a =
        (All-append (λ y. same x y ≡ false) xs (r ∷ []) d.0 (a.0, tt), Distinct-append xs r d.1 a.1)

    pub Distinct-delete :
        (q : R → Bool) (xs : List R) → Distinct same xs → Distinct same (delete q xs)
    unfolding delete
    Distinct-delete q [] d = tt
    Distinct-delete q (x ∷ xs) d = elim (Bool-cases (q x)) [
      | inl e ↦ rw e (Distinct-delete q xs d.1)
      | inr e ↦ rw e (All-delete (λ y. same x y ≡ false) q xs d.0, Distinct-delete q xs d.1)
    ]

    module _ (q : R → Bool) (f : R → R) (left : (r x : R) → q r ≡ true → same (f r) x ≡ same r x)
        (right : (r x : R) → q x ≡ true → same r (f x) ≡ same r x) where
      -- An update that leaves the key alone keeps the rows apart.
      pub Distinct-update : (xs : List R) → Distinct same xs → Distinct same (update q f xs)
      unfolding update
      Distinct-update [] d = tt
      Distinct-update (x ∷ xs) d = elim (Bool-cases (q x)) [
        | inl e ↦
            rw e (apart (f x) (All-map _ _ xs (λ y h. left x y e ∙ h) d.0), Distinct-update xs d.1)
        | inr e ↦ rw e (apart x d.0, Distinct-update xs d.1)
      ]
        where
          apart :
              (z : R) → All (λ y. same z y ≡ false) xs → All (λ y. same z y ≡ false) (update q f xs)
          apart z a = All-update (λ y. same z y ≡ false) q f xs (λ y e h. right z y e ∙ h) a
