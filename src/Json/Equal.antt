-- ===== src/Json/Equal.antt =====
-- Python's `==` on plain JSON: the order of a mapping's keys does not count, and True is 1.
use im_assistant.Prelude.{ℕ, zero, suc, Bool, true, false, ◌&&◌, none, some, Text, ◌==◌, eqb}
use im_assistant.Json.{
  Value, null, boolean, number, negative, text, array, object, Items, nil, cons, Mapping, empty,
  entry, get,
}

abbrev as_number : Bool → ℕ
as_number true = 1
as_number false = 0

abbrev size : Mapping → ℕ
size empty = zero
size (entry _ _ m) = suc (size m)

abbrev same_boolean : Bool → Value → Bool
same_boolean b (boolean c) = eqb (as_number b) (as_number c)
same_boolean b (number n) = eqb (as_number b) n
same_boolean b _ = false

abbrev same_number : ℕ → Value → Bool
same_number n (boolean c) = eqb n (as_number c)
same_number n (number k) = eqb n k
same_number n _ = false

abbrev same_negative : ℕ → Value → Bool
same_negative n (negative k) = eqb n k
same_negative n _ = false

abbrev same_text : Text → Value → Bool
same_text s (text t) = s == t
same_text s _ = false

abbrev is_null : Value → Bool
is_null null = true
is_null _ = false

unfoldable mutual
  pub same_value : Value → Value → Bool
  same_value null w = is_null w
  same_value (boolean b) w = same_boolean b w
  same_value (number n) w = same_number n w
  same_value (negative n) w = same_negative n w
  same_value (text s) w = same_text s w
  same_value (array xs) w = elim w [ array ys ↦ same_items xs ys | _ ↦ false ]
  same_value (object m) w = elim w [ object n ↦ eqb (size m) (size n) && within m n | _ ↦ false ]

  pub same_items : Items → Items → Bool
  same_items nil ys = elim ys [ nil ↦ true | cons _ _ ↦ false ]
  same_items (cons x xs) ys = elim ys [
    | nil ↦ false
    | cons y rest ↦ same_value x y && same_items xs rest
  ]

  -- Every key of the first is one of the second, with the same value.
  pub within : Mapping → Mapping → Bool
  within empty n = true
  within (entry k v m) n = (elim (get k n) [ none ↦ false | some w ↦ same_value v w ]) && within m n

unfoldable pub same_mapping : Mapping → Mapping → Bool
unfolding within
same_mapping m n = eqb (size m) (size n) && within m n
