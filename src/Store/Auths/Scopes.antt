-- ===== src/Store/Auths/Scopes.antt =====
-- The normal form of a list of scopes is its own normal form.
use im_assistant.Prelude.{
  ◌≡◌, refl, ap, List, [], ◌∷◌, Text, ◌==◌, ok, bind, bind-eq-ok, ok-injective, Bool-cases, inl,
  inr, non_empty_string, non_empty_string-fixed, non_empty_strings, exists, All, arith, subst,
}
use im_assistant.Store.Auths.{from_keys, normalize_scopes}

from_keys-from_keys : (seen vs : List Text) → from_keys seen (from_keys seen vs) ≡ from_keys seen vs
unfolding from_keys
from_keys-from_keys seen [] = refl
from_keys-from_keys seen (v ∷ vs) =
    ground (arith, from_keys-from_keys seen vs, from_keys-from_keys (v ∷ seen) vs)

abbrev IsStripped : Text → Type 0
IsStripped s = non_empty_string s ≡ ok s

non_empty_strings-IsStripped :
    (vs ws : List Text) → non_empty_strings vs ≡ ok ws → All IsStripped ws
unfolding non_empty_strings
non_empty_strings-IsStripped [] ws h = subst (All IsStripped) (ok-injective h) tt
non_empty_strings-IsStripped (v ∷ vs) ws h =
    let (s, es, h1) = bind-eq-ok (non_empty_string v) _ h in
    let (rest, er, h2) = bind-eq-ok (non_empty_strings vs) _ h1 in
    subst (All IsStripped) (ok-injective h2)
      (non_empty_string-fixed v s es, non_empty_strings-IsStripped vs rest er)

from_keys-IsStripped :
    (seen vs : List Text) → All IsStripped vs → All IsStripped (from_keys seen vs)
unfolding from_keys
from_keys-IsStripped seen [] a = tt
from_keys-IsStripped seen (v ∷ vs) a = elim (Bool-cases (exists (λ s. s == v) seen)) [
  | inl old ↦ rw (from_keys, old) (from_keys-IsStripped seen vs a.1)
  | inr new ↦ rw (from_keys, new) (a.0, from_keys-IsStripped (v ∷ seen) vs a.1)
]

non_empty_strings_fixed : (vs : List Text) → All IsStripped vs → non_empty_strings vs ≡ ok vs
unfolding non_empty_strings
non_empty_strings_fixed [] a = refl
non_empty_strings_fixed (v ∷ vs) a = rw (a.0, non_empty_strings_fixed vs a.1) refl

-- What `_normalize_scopes` has returned, it returns again: stripped, and each scope once.
pub normalize_scopes-fixed :
    (vs ws : List Text) → normalize_scopes vs ≡ ok ws → normalize_scopes ws ≡ ok ws
unfolding normalize_scopes
normalize_scopes-fixed vs ws h =
    let (s, es, made) = bind-eq-ok (non_empty_strings vs) _ h in
    subst (λ w. bind (non_empty_strings w) (λ z. ok (from_keys [] z)) ≡ ok w) (ok-injective made)
      (rw
        (non_empty_strings_fixed (from_keys [] s)
          (from_keys-IsStripped [] s (non_empty_strings-IsStripped vs s es)))
        (ap ok (from_keys-from_keys [] s)))
