-- ===== src/Json/Plain.antt =====
-- `_plain_json_object` and `_plain_json_value` of the interrupts, and the same functions of the
-- audit log: keys are stripped and must not be empty, values are copied.
use im_assistant.Prelude.{Result, ok, bind, non_empty_string}
use im_assistant.Json.{
  Value, null, boolean, number, negative, text, array, object, Items, nil, cons, Mapping, empty,
  entry, set,
}

unfoldable mutual
  pub plain_value : Value → Result Value
  plain_value null = ok null
  plain_value (boolean b) = ok (boolean b)
  plain_value (number n) = ok (number n)
  plain_value (negative n) = ok (negative n)
  plain_value (text s) = ok (text s)
  plain_value (array xs) = bind (plain_items xs) λ ys. ok (array ys)
  plain_value (object m) = bind (plain_fields empty m) λ n. ok (object n)

  pub plain_items : Items → Result Items
  plain_items nil = ok nil
  plain_items (cons x xs) = bind (plain_value x) λ y. bind (plain_items xs) λ ys. ok (cons y ys)

  -- The dict comprehension: `done` holds the keys that are already written.
  pub plain_fields : Mapping → Mapping → Result Mapping
  plain_fields done empty = ok done
  plain_fields done (entry k v m) =
      bind (non_empty_string k) λ key. bind (plain_value v) λ w. plain_fields (set key w done) m

unfoldable pub plain_object : Mapping → Result Mapping
unfolding plain_fields
plain_object m = plain_fields empty m
