-- ===== src/Json/Fixed.antt =====
-- What `_plain_json_object` has returned, it returns again: an interrupt that is read back from
-- its row has the payload that was written.
use im_assistant.Prelude.{
  ◌≡◌, refl, ap, ◌∙◌, inl, inr, none, Text, ◌==◌, eq_iff, ok, bind-eq-ok, ok-injective, subst,
  non_empty_string, non_empty_string-fixed, arith, Bool-cases,
}
use im_assistant.Json.{
  Value, null, boolean, number, negative, text, array, object, Items, nil, cons, Mapping, empty,
  entry, get, set, get-set,
}
use im_assistant.Json.Plain.{plain_value, plain_items, plain_fields, plain_object}

-- Keys are in normal form and distinct, at every depth.
mutual
  IsPlainValue : Value → Type 0
  IsPlainValue null = Unit
  IsPlainValue (boolean b) = Unit
  IsPlainValue (number n) = Unit
  IsPlainValue (negative n) = Unit
  IsPlainValue (text s) = Unit
  IsPlainValue (array xs) = IsPlainItems xs
  IsPlainValue (object m) = IsPlain m

  IsPlainItems : Items → Type 0
  IsPlainItems nil = Unit
  IsPlainItems (cons x xs) = IsPlainValue x × IsPlainItems xs

  IsPlain : Mapping → Type 0
  IsPlain empty = Unit
  IsPlain (entry k v m) =
      (non_empty_string k ≡ ok k) × (get k m ≡ none) × IsPlainValue v × IsPlain m

set-IsPlain :
    (k : Text) (v : Value) (m : Mapping)
    → non_empty_string k ≡ ok k
    → IsPlainValue v
    → IsPlain m
    → IsPlain (set k v m)
unfolding set IsPlain get
set-IsPlain k v empty hk hv h = (hk, refl, hv, tt)
set-IsPlain k v (entry j w m) hk hv h = elim (Bool-cases (j == k)) [
  | inl same ↦ rw same (h.0, h.1, hv, h.3)
  | inr other ↦ rw other (
    h.0,
    get-set k j v m ∙ ground (arith, eq_iff k j, eq_iff j k),
    h.2,
    set-IsPlain k v m hk hv h.3,
  )
]

mutual
  unfolding plain_value IsPlainValue

  plain_value-IsPlain : (v w : Value) → plain_value v ≡ ok w → IsPlainValue w
  plain_value-IsPlain null w h = subst IsPlainValue (ok-injective h) tt
  plain_value-IsPlain (boolean b) w h = subst IsPlainValue (ok-injective h) tt
  plain_value-IsPlain (number n) w h = subst IsPlainValue (ok-injective h) tt
  plain_value-IsPlain (negative n) w h = subst IsPlainValue (ok-injective h) tt
  plain_value-IsPlain (text s) w h = subst IsPlainValue (ok-injective h) tt
  plain_value-IsPlain (array xs) w h =
      let (ys, e, r) = bind-eq-ok (plain_items xs) _ h in
      subst IsPlainValue (ok-injective r) (plain_items-IsPlain xs ys e)
  plain_value-IsPlain (object m) w h =
      let (n, e, r) = bind-eq-ok (plain_fields empty m) _ h in
      subst IsPlainValue (ok-injective r) (plain_fields-IsPlain m empty n tt e)

  plain_items-IsPlain : (xs ys : Items) → plain_items xs ≡ ok ys → IsPlainItems ys
  plain_items-IsPlain nil ys h = subst IsPlainItems (ok-injective h) tt
  plain_items-IsPlain (cons x xs) ys h =
      let (y, e, r) = bind-eq-ok (plain_value x) _ h in
      let (zs, e', r') = bind-eq-ok (plain_items xs) _ r in
      subst IsPlainItems (ok-injective r') (plain_value-IsPlain x y e, plain_items-IsPlain xs zs e')

  plain_fields-IsPlain :
      (m done n : Mapping) → IsPlain done → plain_fields done m ≡ ok n → IsPlain n
  plain_fields-IsPlain empty done n hd h = subst IsPlain (ok-injective h) hd
  plain_fields-IsPlain (entry k v m) done n hd h =
      let (key, e, r) = bind-eq-ok (non_empty_string k) _ h in
      let (w, e', r') = bind-eq-ok (plain_value v) _ r in
      plain_fields-IsPlain m (set key w done) n
        (set-IsPlain key w done (non_empty_string-fixed k key e) (plain_value-IsPlain v w e') hd) r'

-- The entries of `m` behind those of `done`.
append : Mapping → Mapping → Mapping
append empty n = n
append (entry k v m) n = entry k v (append m n)

set_absent :
    (k : Text) (v : Value) (m : Mapping) → get k m ≡ none → set k v m ≡ append m (entry k v empty)
unfolding get set append
set_absent k v empty h = refl
set_absent k v (entry j w m) h = ground (arith, set_absent k v m)

append_assoc : (l m n : Mapping) → append (append l m) n ≡ append l (append m n)
unfolding append
append_assoc empty m n = refl
append_assoc (entry k v l) m n = ap (entry k v) (append_assoc l m n)

append_empty : (m : Mapping) → append m empty ≡ m
unfolding append
append_empty empty = refl
append_empty (entry k v m) = ap (entry k v) (append_empty m)

-- No key of `m` is one of `done`.
abbrev IsApart : Mapping → Mapping → Type 0
IsApart done empty = Unit
IsApart done (entry k v m) = (get k done ≡ none) × IsApart done m

IsApart-empty : (m : Mapping) → IsApart empty m
unfolding get
IsApart-empty empty = tt
IsApart-empty (entry k v m) = (refl, IsApart-empty m)

IsApart-set :
    (k : Text) (v : Value) (done m : Mapping)
    → get k m ≡ none
    → IsApart done m
    → IsApart (set k v done) m
unfolding get
IsApart-set k v done empty h a = tt
IsApart-set k v done (entry j w m) h a = elim (Bool-cases (j == k)) [
  | inl same ↦ absurd (ground arith)
  | inr other ↦ (
    get-set k j v done ∙ ground (arith, eq_iff k j, eq_iff j k, a.0),
    IsApart-set k v done m (ground arith) a.1,
  )
]

mutual
  unfolding plain_value IsPlainValue append

  plain_value_fixed : (v : Value) → IsPlainValue v → plain_value v ≡ ok v
  plain_value_fixed null h = refl
  plain_value_fixed (boolean b) h = refl
  plain_value_fixed (number n) h = refl
  plain_value_fixed (negative n) h = refl
  plain_value_fixed (text s) h = refl
  plain_value_fixed (array xs) h = rw (plain_items_fixed xs h)
  plain_value_fixed (object m) h = rw (plain_fields_fixed m empty h (IsApart-empty m))

  plain_items_fixed : (xs : Items) → IsPlainItems xs → plain_items xs ≡ ok xs
  plain_items_fixed nil h = refl
  plain_items_fixed (cons x xs) h = rw (plain_value_fixed x h.0, plain_items_fixed xs h.1)

  plain_fields_fixed :
      (m done : Mapping) → IsPlain m → IsApart done m → plain_fields done m ≡ ok (append done m)
  plain_fields_fixed empty done h a = rw (append_empty done)
  plain_fields_fixed (entry k v m) done h a =
      rw (h.0, plain_value_fixed v h.2)
        (plain_fields_fixed m (set k v done) h.3 (IsApart-set k v done m h.1 a.1)
          ∙ ap ok (rw (set_absent k v done a.0) (append_assoc done (entry k v empty) m)))

-- The normal form of a mapping is its own normal form.
pub plain_object-fixed : (m n : Mapping) → plain_object m ≡ ok n → plain_object n ≡ ok n
unfolding plain_object append IsPlain
plain_object-fixed m n h =
    plain_fields_fixed n empty (plain_fields-IsPlain m empty n tt h) (IsApart-empty n)
