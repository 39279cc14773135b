-- ===== src/Prelude/Chars.antt =====
-- Python's `str` as its code points, with the methods that the program calls: `strip`, `lstrip`,
-- `lower`, `startswith`, comparison.
use Prim.Native.Nat.{ℕ, ◌+◌}
use Prim.Native.Char.{code}
use Prim.Native.String.{String}
use mathlib.Core.Path.{◌≡◌, refl, ap}
use mathlib.Core.Logic.{◌↔◌, inl, inr}
use mathlib.Core.Bool.{Bool, true, false, ◌&&◌, ◌||◌}
use mathlib.Core.List.{List, [], ◌∷◌}
use native.Mathlib.Omega.{arith}
use im_assistant.Prelude.Tests.{leb, eqb, if◌then◌else◌, Bool-cases}

abbrev pub Text : Type 0
Text = List ℕ

-- The code points of a literal.
abbrev pub codes : String → Text
codes String.[] = []
codes (String.◌∷◌ c s) = code c ∷ codes s

-- `str.isspace` of one character: the code points that Python strips.
unfoldable pub is_space : ℕ → Bool
is_space c =
    (leb 9 c && leb c 13)
    || (leb 28 c && leb c 32)
    || eqb c 0x85
    || eqb c 0xa0
    || eqb c 0x1680
    || (leb 0x2000 c && leb c 0x200a)
    || eqb c 0x2028
    || eqb c 0x2029
    || eqb c 0x202f
    || eqb c 0x205f
    || eqb c 0x3000

unfoldable pub lstrip : Text → Text
lstrip [] = []
lstrip (c ∷ s) = if is_space c then lstrip s else c ∷ s

-- `c + t`, or nothing where a white `c` would come last
unfoldable pub rcons : ℕ → Text → Text
rcons c [] = if is_space c then [] else c ∷ []
rcons c (d ∷ t) = c ∷ d ∷ t

unfoldable pub rstrip : Text → Text
rstrip [] = []
rstrip (c ∷ s) = rcons c (rstrip s)

unfoldable pub strip : Text → Text
unfolding lstrip rstrip rcons is_space
strip s = rstrip (lstrip s)

-- `s == ""`
abbrev pub is_empty : Text → Bool
is_empty [] = true
is_empty (_ ∷ _) = false

infix 50 ◌==◌
unfoldable pub ◌==◌ : Text → Text → Bool
[] == [] = true
[] == (_ ∷ _) = false
(_ ∷ _) == [] = false
(c ∷ s) == (d ∷ t) = eqb c d && s == t

-- `s in values`
unfoldable pub member : Text → List Text → Bool
member s [] = false
member s (t ∷ ts) = t == s || member s ts

eq→path : (s t : Text) → (s == t) ≡ true → s ≡ t
unfolding ◌==◌
eq→path [] [] h = refl
eq→path [] (d ∷ t) h = cc
eq→path (c ∷ s) [] h = cc
eq→path (c ∷ s) (d ∷ t) h = ground (arith, eq→path s t)

pub eq_refl : (s : Text) → (s == s) ≡ true
unfolding ◌==◌
eq_refl [] = refl
eq_refl (c ∷ s) = ground (arith, eq_refl s)

-- Two texts compare equal exactly when they are the same.
pub eq_iff : (s t : Text) → ((s == t) ≡ true) ↔ (s ≡ t)
eq_iff s t = (eq→path s t, λ e. rw e (eq_refl t))

pub eq_ne : (s t : Text) → (s ≡ t → ⊥) → (s == t) ≡ false
eq_ne s t h = ground (arith, eq_iff s t)

-- `s.lower()` on the letters of ASCII.
unfoldable pub lower : Text → Text
lower [] = []
lower (c ∷ s) = (if leb b'A' c && leb c b'Z' then c + 32 else c) ∷ lower s

-- `s.startswith(p)` for a prefix of one character
abbrev pub starts_with : ℕ → Text → Bool
starts_with p [] = false
starts_with p (c ∷ _) = eqb c p

-- The white space at both ends of a stripped text is gone.
lstrip-rcons : (c : ℕ) (t : Text) → is_space c ≡ false → lstrip (rcons c t) ≡ rcons c t
unfolding lstrip rcons
lstrip-rcons c [] h = ground arith
lstrip-rcons c (d ∷ t) h = ground arith

lstrip-rstrip-lstrip : (s : Text) → lstrip (rstrip (lstrip s)) ≡ rstrip (lstrip s)
unfolding lstrip rstrip
lstrip-rstrip-lstrip [] = refl
lstrip-rstrip-lstrip (c ∷ s) = elim (Bool-cases (is_space c)) [
  | inl white ↦ rw white (lstrip-rstrip-lstrip s)
  | inr other ↦ rw other (lstrip-rcons c (rstrip s) other)
]

rstrip-rcons : (c : ℕ) (t : Text) → rstrip t ≡ t → rstrip (rcons c t) ≡ rcons c t
unfolding rstrip rcons
rstrip-rcons c [] h = ground arith
rstrip-rcons c (d ∷ t) h = ap (rcons c) h

rstrip-rstrip : (s : Text) → rstrip (rstrip s) ≡ rstrip s
unfolding rstrip
rstrip-rstrip [] = refl
rstrip-rstrip (c ∷ s) = rstrip-rcons c (rstrip s) (rstrip-rstrip s)

pub strip-strip : (s : Text) → strip (strip s) ≡ strip s
unfolding strip
strip-strip s = rw lstrip-rstrip-lstrip (rstrip-rstrip (lstrip s))

pub eq_comm : (s t : Text) → (s == t) ≡ (t == s)
unfolding ◌==◌
eq_comm [] [] = refl
eq_comm [] (d ∷ t) = refl
eq_comm (c ∷ s) [] = refl
eq_comm (c ∷ s) (d ∷ t) = ground (arith, eq_comm s t)
