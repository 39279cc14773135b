-- ===== src/Prelude/Sorted.antt =====
-- `sorted` on the keys of a dict, and the values in that order.
use mathlib.Core.Path.{◌≡◌, refl, sym, ap, ◌∙◌}
use mathlib.Core.Bool.{Bool, true, false, ◌&&◌, ◌||◌}
use mathlib.Core.Option.{Option, none, some}
use mathlib.Core.List.{List, [], ◌∷◌, ◌++◌}
use native.Mathlib.Omega.{arith}
use im_assistant.Prelude.Tests.{if◌then◌else◌, ltb, eqb}
use im_assistant.Prelude.Chars.{Text, eq_iff, eq_ne}
use im_assistant.Prelude.Dict.{Dict, get, set, contains, get-set}

-- The order of Python's texts.
unfoldable pub text_le : Text → Text → Bool
text_le [] t = true
text_le (c ∷ s) [] = false
text_le (c ∷ s) (d ∷ t) = ltb c d || (eqb c d && text_le s t)

unfoldable pub insert_name : Text → List Text → List Text
insert_name s [] = s ∷ []
insert_name s (t ∷ ts) = if text_le s t then s ∷ t ∷ ts else t ∷ insert_name s ts

-- `sorted(d)`: the keys in order
unfoldable pub sorted_keys : {V : Type 0} → Dict V → List Text
unfolding insert_name text_le
sorted_keys [] = []
sorted_keys ((k, v) ∷ d) = insert_name k (sorted_keys d)

abbrev pub prepend : {V : Type 0} → Option V → List V → List V
prepend none vs = vs
prepend (some v) vs = v ∷ vs

-- `[d[k] for k in keys]`; the keys are those of the dict
unfoldable pub values_at : {V : Type 0} → List Text → Dict V → List V
values_at [] d = []
values_at (k ∷ ks) d = prepend (get k d) (values_at ks d)

text_le_total : (s t : Text) → text_le s t ≡ false → text_le t s ≡ true
unfolding text_le
text_le_total [] t h = cc
text_le_total (c ∷ s) [] h = refl
text_le_total (c ∷ s) (d ∷ t) h = ground (arith, text_le_total s t)

text_le_antisym : (s t : Text) → text_le s t ≡ true → text_le t s ≡ true → s ≡ t
unfolding text_le
text_le_antisym [] [] h k = refl
text_le_antisym [] (d ∷ t) h k = cc
text_le_antisym (c ∷ s) [] h k = cc
text_le_antisym (c ∷ s) (d ∷ t) h k = ground (arith, text_le_antisym s t)

text_le_trans : (s t u : Text) → text_le s t ≡ true → text_le t u ≡ true → text_le s u ≡ true
unfolding text_le
text_le_trans [] t u h k = refl
text_le_trans (c ∷ s) [] u h k = cc
text_le_trans (c ∷ s) (d ∷ t) [] h k = cc
text_le_trans (c ∷ s) (d ∷ t) (e ∷ u) h k = ground (arith, text_le_trans s t u)

-- The order in which names are put in does not matter.
insert_name_comm :
    (s t : Text) (ts : List Text)
    → insert_name s (insert_name t ts) ≡ insert_name t (insert_name s ts)
unfolding insert_name
insert_name_comm s t [] = ground (arith, text_le_total s t, text_le_total t s, text_le_antisym s t)
insert_name_comm s t (u ∷ us) = ground (
  arith,
  insert_name_comm s t us,
  text_le_total s t,
  text_le_total t s,
  text_le_antisym s t,
  text_le_trans s t u,
  text_le_trans t s u,
  text_le_total u s,
  text_le_total u t,
)

module _ {V : Type 0} where
  pub sorted_keys-append :
      (d : Dict V) (k : Text) (v : V)
      → sorted_keys (d ++ (k, v) ∷ []) ≡ insert_name k (sorted_keys d)
  unfolding sorted_keys
  sorted_keys-append [] k v = refl
  sorted_keys-append ((j, w) ∷ d) k v =
      ap (insert_name j) (sorted_keys-append d k v) ∙ insert_name_comm j k (sorted_keys d)

  -- The values at a list of keys are what the reads give.
  pub values_at_ext :
      (ks : List Text) (d e : Dict V)
      → ((k : Text) → get k d ≡ get k e)
      → values_at ks d ≡ values_at ks e
  unfolding values_at
  values_at_ext [] d e h = refl
  values_at_ext (k ∷ ks) d e h = rw (h k, values_at_ext ks d e h) refl

  pub set_absent :
      (k : Text) (v : V) (d : Dict V) → contains k d ≡ false → set k v d ≡ d ++ (k, v) ∷ []
  unfolding contains get set
  set_absent k v [] h = refl
  set_absent k v ((j, w) ∷ d) h = ground (arith, set_absent k v d)

  pub contains-set_ne :
      (k j : Text) (v : V) (d : Dict V) → (k ≡ j → ⊥) → contains j (set k v d) ≡ contains j d
  unfolding contains
  contains-set_ne k j v d h = rw (get-set k j v d, eq_ne k j h) refl

  sorted_keys-set_absent :
      (k : Text) (v : V) (d : Dict V)
      → contains k d ≡ false
      → sorted_keys (set k v d) ≡ insert_name k (sorted_keys d)
  sorted_keys-set_absent k v d h = ap sorted_keys (set_absent k v d h) ∙ sorted_keys-append d k v

  get-set_comm :
      (k j : Text) (v w : V) (d : Dict V)
      → (k ≡ j → ⊥)
      → (i : Text) → get i (set j w (set k v d)) ≡ get i (set k v (set j w d))
  get-set_comm k j v w d h i =
      rw (get-set j i w (set k v d), get-set k i v d, get-set k i v (set j w d), get-set j i w d)
        (ground (arith, eq_iff k i, eq_iff j i))

  -- Two new keys may be written in either order.
  pub values_at-set_comm :
      (k j : Text) (v w : V) (d : Dict V)
      → contains k d ≡ false
      → contains j d ≡ false
      → (k ≡ j → ⊥)
      → values_at (sorted_keys (set j w (set k v d))) (set j w (set k v d))
        ≡ values_at (sorted_keys (set k v (set j w d))) (set k v (set j w d))
  values_at-set_comm k j v w d hk hj ne =
      let to_j = sorted_keys-set_absent j w (set k v d) (contains-set_ne k j v d ne ∙ hj) in
      let to_k =
        sorted_keys-set_absent k v (set j w d) (contains-set_ne j k w d (λ e. ne (sym e)) ∙ hk) in
      let keys =
        to_j
        ∙ (ap (insert_name j) (sorted_keys-set_absent k v d hk)
            ∙ (insert_name_comm j k (sorted_keys d)
                ∙ (ap (insert_name k) (sym (sorted_keys-set_absent j w d hj)) ∙ sym to_k))) in
      ap (λ ks. values_at ks (set j w (set k v d))) keys
      ∙ values_at_ext (sorted_keys (set k v (set j w d))) (set j w (set k v d))
          (set k v (set j w d)) (get-set_comm k j v w d ne)
