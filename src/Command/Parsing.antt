-- ===== src/Command/Parsing.antt =====
-- A command's name and arguments, printed and parsed again.
use im_assistant.Prelude.{
  ℕ, ◌≡◌, refl, ap, ◌∙◌, true, false, none, some, [], ◌∷◌, ◌++◌, Text, is_space, strip, lstrip,
  rstrip, rcons, is_empty, starts_with, ok, err, value_error, if◌then◌else◌, non_empty_string,
  strip-strip, Bool-cases, inl, inr, arith,
}
use im_assistant.Router.{slash, drop_word, second_part}
use im_assistant.Command.{
  has_space, normalize_command_name, first_word, parse_command_text, rest_of,
}
use im_assistant.Command.Names.{IsName, normalize_command_name-IsName}

-- `" "`
abbrev pub space : ℕ
space = b' '

white_first : (c : ℕ) (t : Text) → is_space c ≡ true → lstrip (rcons c t) ≡ lstrip t
unfolding lstrip rcons
white_first c [] h = ground arith
white_first c (d ∷ t) h = ground arith

other_first : (c : ℕ) (t : Text) → is_space c ≡ false → lstrip (rcons c t) ≡ rcons c t
unfolding lstrip rcons
other_first c [] h = ground arith
other_first c (d ∷ t) h = ground arith

rcons_plain : (c : ℕ) (t : Text) → is_space c ≡ false → rcons c t ≡ c ∷ t
unfolding rcons
rcons_plain c [] h = ground arith
rcons_plain c (d ∷ t) h = refl

lstrip-rstrip : (s : Text) → lstrip (rstrip s) ≡ rstrip (lstrip s)
unfolding lstrip rstrip rcons
lstrip-rstrip [] = refl
lstrip-rstrip (c ∷ s) = elim (Bool-cases (is_space c)) [
  | inl white ↦ rw (white) (white_first c (rstrip s) white ∙ lstrip-rstrip s)
  | inr other ↦ rw other (other_first c (rstrip s) other)
]

-- A name, and what follows it.
rstrip-append : (n t : Text) → has_space n ≡ false → rstrip (n ++ t) ≡ n ++ rstrip t
unfolding has_space rstrip
rstrip-append [] t h = refl
rstrip-append (c ∷ n) t h =
    ap (rcons c) (rstrip-append n t (ground arith)) ∙ rcons_plain c (n ++ rstrip t) (ground arith)

space_white : is_space space ≡ true
unfolding is_space
space_white = refl

first_word-append : (n t : Text) → has_space n ≡ false → first_word (n ++ rcons space t) ≡ n
unfolding has_space first_word rcons
first_word-append [] [] h = rw space_white refl
first_word-append [] (d ∷ t) h = rw space_white refl
first_word-append (c ∷ n) t h = ground (arith, first_word-append n t)

drop_word-append :
    (n t : Text) → has_space n ≡ false → drop_word (n ++ rcons space t) ≡ rcons space t
unfolding has_space drop_word rcons
drop_word-append [] [] h = rw space_white refl
drop_word-append [] (d ∷ t) h = rw space_white refl
drop_word-append (c ∷ n) t h = ground (arith, drop_word-append n t)

rest_of-second_part : (s : Text) → rest_of (second_part s) ≡ lstrip (drop_word (lstrip s))
unfolding second_part
rest_of-second_part s = blank_or_rest (lstrip (drop_word (lstrip s)))
  where
    blank_or_rest : (t : Text) → rest_of (if is_empty t then none else some t) ≡ t
    blank_or_rest [] = refl
    blank_or_rest (c ∷ t) = refl

-- The white space before and after the arguments does not count.
strip-rcons : (a : Text) → strip (lstrip (rcons space (rstrip a))) ≡ strip a
unfolding strip
strip-rcons a =
    ap strip (white_first space (rstrip a) space_white ∙ lstrip-rstrip a) ∙ strip-strip a

lstrip-slashed :
    (n t : Text) → starts_with slash n ≡ true → has_space n ≡ false → lstrip (n ++ t) ≡ n ++ t
unfolding lstrip has_space
lstrip-slashed [] t h k = cc
lstrip-slashed (c ∷ n) t h k = ground arith

starts_with-append : (n t : Text) → starts_with slash n ≡ true → starts_with slash (n ++ t) ≡ true
starts_with-append [] t h = cc
starts_with-append (c ∷ n) t h = h

stripped_whole :
    (n a : Text) → IsName n → non_empty_string (n ++ space ∷ a) ≡ ok (n ++ rcons space (rstrip a))
unfolding non_empty_string strip rstrip
stripped_whole n a v =
    rw (lstrip-slashed n (space ∷ a) v.slashed v.unspaced, rstrip-append n (space ∷ a) v.unspaced)
      (not_empty n (rcons space (rstrip a)) v.slashed)
  where
    not_empty :
        (n t : Text)
        → starts_with slash n ≡ true
        → (if is_empty (n ++ t) then err value_error else ok (n ++ t)) ≡ ok (n ++ t)
    not_empty [] t h = cc
    not_empty (c ∷ n) t h = refl

-- A name in normal form, a space and any text parse as that name with that text as its arguments,
-- less the white space around them.
pub parse_command_text-printed :
    (n a : Text)
    → normalize_command_name n ≡ ok n
    → parse_command_text (n ++ space ∷ a) ≡ ok (n, strip a)
unfolding parse_command_text
parse_command_text-printed n a h =
    let v = normalize_command_name-IsName n n h in
    let u = rcons space (rstrip a) in
    rw
      (
        stripped_whole n a v,
        lstrip-slashed n u v.slashed v.unspaced,
        starts_with-append n u v.slashed,
        first_word-append n (rstrip a) v.unspaced,
        h,
        rest_of-second_part (n ++ u),
        lstrip-slashed n u v.slashed v.unspaced,
        drop_word-append n (rstrip a) v.unspaced,
        strip-rcons a,
      )
      refl
