-- ===== src/Command/Names.antt =====
-- Names of commands in normal form, and the text of a command taken apart.
use im_assistant.Prelude.{
  ◌≡◌, refl, ap, subst, true, false, [], ◌∷◌, Text, strip, lstrip, rstrip, rcons, lower,
  starts_with, ◌==◌, ok, bind-eq-ok, ok-injective, non_empty_string, Bool-cases, arith, inl, inr,
}
use im_assistant.Router.{slash}
use im_assistant.Command.{
  has_space, with_slash, checked_name, normalize_command_name, first_word, parse_command_text,
}

lstrip_plain : (s : Text) → has_space s ≡ false → lstrip s ≡ s
unfolding has_space lstrip
lstrip_plain [] h = refl
lstrip_plain (c ∷ s) h = ground arith

rstrip_plain : (s : Text) → has_space s ≡ false → rstrip s ≡ s
unfolding has_space rstrip rcons
rstrip_plain [] h = refl
rstrip_plain (c ∷ []) h = ground arith
rstrip_plain (c ∷ d ∷ s) h = let ih = rstrip_plain (d ∷ s) (ground arith) in rw ih refl

pub strip_plain : (s : Text) → has_space s ≡ false → strip s ≡ s
unfolding strip
strip_plain s h = rw (lstrip_plain s h) (rstrip_plain s h)

lower-lower : (s : Text) → lower (lower s) ≡ lower s
unfolding lower
lower-lower [] = refl
lower-lower (c ∷ s) = ground (arith, lower-lower s)

lower-with_slash : (s : Text) → lower (with_slash (lower s)) ≡ with_slash (lower s)
unfolding lower
lower-with_slash [] = refl
lower-with_slash (c ∷ s) = ground (arith, lower-lower s)

with_slash_starts : (s : Text) → starts_with slash (with_slash s) ≡ true
with_slash_starts [] = refl
with_slash_starts (c ∷ s) = ground arith

-- What a name in normal form is like.
pub record IsName (s : Text) : Type 0 where
  pub slashed : starts_with slash s ≡ true
  pub longer : (s == (slash ∷ [])) ≡ false
  pub unspaced : has_space s ≡ false
  pub lowered : lower s ≡ s

checked_name-IsName : (s t : Text) → checked_name (with_slash (lower s)) ≡ ok t → IsName t
checked_name-IsName s t h = elim (Bool-cases (with_slash (lower s) == (slash ∷ []))) [
  | inl short ↦ absurd (cc (rw short at h))
  | inr long ↦ elim (Bool-cases (has_space (with_slash (lower s)))) [
    | inl spaced ↦ absurd (cc (rw (long, spaced) at h))
    | inr plain ↦ subst IsName (ok-injective (rw (long, plain) at h)) (record {
      slashed = with_slash_starts (lower s);
      longer = long;
      unspaced = plain;
      lowered = lower-with_slash s;
    })
  ]
]

pub normalize_command_name-IsName : (name t : Text) → normalize_command_name name ≡ ok t → IsName t
unfolding normalize_command_name
normalize_command_name-IsName name t h =
    let (s, _, checked) = bind-eq-ok (non_empty_string name) _ h in
    checked_name-IsName (strip s) t checked

pub IsName-non_empty_string : (s : Text) → IsName s → non_empty_string s ≡ ok s
unfolding non_empty_string
IsName-non_empty_string [] v = absurd (cc v.slashed)
IsName-non_empty_string (c ∷ s) v = rw (strip_plain (c ∷ s) v.unspaced) refl

pub IsName-normalize_command_name : (s : Text) → IsName s → normalize_command_name s ≡ ok s
unfolding normalize_command_name
IsName-normalize_command_name s v =
    rw
      (
        IsName-non_empty_string s v,
        strip_plain s v.unspaced,
        v.lowered,
        v.slashed,
        v.longer,
        v.unspaced,
      )
      refl

-- A name that `_normalize_command_name` returned is its own normal form, so that a registered
-- command is found under its name.
pub normalize_command_name-fixed :
    (name t : Text) → normalize_command_name name ≡ ok t → normalize_command_name t ≡ ok t
normalize_command_name-fixed name t h =
    IsName-normalize_command_name t (normalize_command_name-IsName name t h)

pub parse_command_text-IsName :
    (command_text n x : Text) → parse_command_text command_text ≡ ok (n, x) → IsName n
unfolding parse_command_text
parse_command_text-IsName command_text n x h =
    let (stripped, _, rest) = bind-eq-ok (non_empty_string command_text) _ h in
    elim (Bool-cases (starts_with slash (lstrip stripped))) [
      | inr plain ↦ absurd (cc (rw plain at rest))
      | inl slashed ↦
          let (name, named, e) =
            bind-eq-ok (normalize_command_name (first_word (lstrip stripped))) _
              (rw slashed at rest) in
          subst IsName (ap (λ p. p.0) (ok-injective e))
            (normalize_command_name-IsName (first_word (lstrip stripped)) name named)
    ]
