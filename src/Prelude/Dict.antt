-- ===== src/Prelude/Dict.antt =====
-- A Python dict keyed by texts, in insertion order.
use mathlib.Core.Path.{◌≡◌, refl}
use mathlib.Core.Bool.{Bool}
use mathlib.Core.Option.{Option, none, some}
use mathlib.Core.List.{List, [], ◌∷◌}
use native.Mathlib.Omega.{arith}
use im_assistant.Prelude.Tests.{if◌then◌else◌, is_some}
use im_assistant.Prelude.Chars.{Text, ◌==◌, eq_iff, eq_refl}

abbrev pub Dict {ℓ} : Type ℓ → Type ℓ
Dict V = List (Text × V)

module _ {ℓ} {V : Type ℓ} where
  -- `d.get(k)`
  unfoldable pub get : Text → Dict V → Option V
  get k [] = none
  get k ((j, v) ∷ d) = if j == k then some v else get k d

  -- `k in d`
  unfoldable pub contains : Text → Dict V → Bool
  unfolding get
  contains k d = is_some (get k d)

  -- `d[k] = v`
  unfoldable pub set : Text → V → Dict V → Dict V
  set k v [] = (k, v) ∷ []
  set k v ((j, w) ∷ d) = if j == k then (j, v) ∷ d else (j, w) ∷ set k v d

  -- `d.pop(k, None)`
  unfoldable pub pop : Text → Dict V → Dict V
  pop k [] = []
  pop k ((j, w) ∷ d) = if j == k then d else (j, w) ∷ pop k d

  -- A read after a write.
  pub get-set :
      (k j : Text) (v : V) (d : Dict V) → get j (set k v d) ≡ (if k == j then some v else get j d)
  unfolding get set
  get-set k j v [] = refl
  get-set k j v ((i, w) ∷ d) = ground (arith, eq_iff k j, eq_iff i k, eq_iff i j, get-set k j v d)

  pub get-set_self : (k : Text) (v : V) (d : Dict V) → get k (set k v d) ≡ some v
  get-set_self k v d = rw (get-set k k v d, eq_refl k)

  pub get-pop_ne : (k j : Text) (d : Dict V) → (j ≡ k → ⊥) → get j (pop k d) ≡ get j d
  unfolding get pop
  get-pop_ne k j [] h = refl
  get-pop_ne k j ((i, w) ∷ d) h = ground (arith, eq_iff i k, eq_iff i j, get-pop_ne k j d h)
