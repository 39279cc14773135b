-- ===== src/Router/Mentions.antt =====
-- `_group_mention_command_text` finds a command behind mentions, and its loop ends.
use mathlib.Core.Option.{some-injective}
use im_assistant.Prelude.{
  ℕ, zero, suc, ◌≤◌, ◌<◌, ◌≡◌, ◌↔◌, refl, sym, ap, ◌∙◌, subst, true, false, Option, none, some,
  or_default, [], ◌∷◌, Text, is_space, lstrip, starts_with, length, Bool-cases, Option-cases, inl,
  inr, arith,
}
use im_assistant.Router.{
  slash, at, drop_word, second_part, mention_loop, group_mention_command_text,
}

-- `c` is the command of a text: the text mentions somebody, and what follows the mention is `c`,
-- starting with a slash, or a text with the command `c`.
pub data MentionCommand : Text → Text → Type 0 where
  found :
      {s part : Text}
      → starts_with at s ≡ true
      → second_part s ≡ some part
      → starts_with slash (lstrip part) ≡ true
      → MentionCommand s (lstrip part)
  further :
      {s part c : Text}
      → starts_with at s ≡ true
      → second_part s ≡ some part
      → starts_with slash (lstrip part) ≡ false
      → MentionCommand (lstrip part) c
      → MentionCommand s c

lstrip_shorter : (s : Text) → length (lstrip s) ≤ length s
unfolding lstrip
lstrip_shorter [] = omega arith
lstrip_shorter (c ∷ s) = ground (arith, lstrip_shorter s)

drop_word_shorter : (s : Text) → length (drop_word s) ≤ length s
unfolding drop_word
drop_word_shorter [] = omega arith
drop_word_shorter (c ∷ s) = ground (arith, drop_word_shorter s)

-- A turn of the loop shortens the text.
second_part_shorter :
    (s part : Text)
    → starts_with at s ≡ true
    → second_part s ≡ some part
    → length (lstrip part) < length s
unfolding second_part lstrip drop_word is_space
second_part_shorter [] part h e = cc
second_part_shorter (c ∷ s) part h e =
    ground (arith, lstrip_shorter part, lstrip_shorter (drop_word s), drop_word_shorter s)

loop-MentionCommand :
    (fuel : ℕ) (s c : Text) → mention_loop fuel s ≡ some (some c) → MentionCommand s c
unfolding mention_loop
loop-MentionCommand zero s c h = absurd (cc h)
loop-MentionCommand (suc fuel) s c h = elim (Bool-cases (starts_with at s)) [
  | inr e ↦ absurd (ground arith)
  | inl e ↦ elim (Option-cases (second_part s)) [
    | inl f ↦ absurd (ground arith)
    | inr (part, f) ↦ elim (Bool-cases (starts_with slash (lstrip part))) [
      | inl g ↦
          subst (MentionCommand s) (some-injective _ _ (some-injective _ _ (rw (e, f, g) at h)))
            (found e f g)
      | inr g ↦ further e f g (loop-MentionCommand fuel (lstrip part) c (rw (e, f, g) at h))
    ]
  ]
]

loop_finds :
    (fuel : ℕ) (s c : Text)
    → length s < fuel
    → MentionCommand s c
    → mention_loop fuel s ≡ some (some c)
unfolding mention_loop
loop_finds zero s c h m = absurd (omega arith)
loop_finds (suc fuel) s c h (found {part} e f g) = rw (e, f, g) refl
loop_finds (suc fuel) s c h (further {part} e f g m) =
    rw (e, f, g) (loop_finds fuel (lstrip part) c (omega (arith, second_part_shorter s part e f)) m)

-- With more fuel than the text has characters the loop comes to an answer.
loop_ends :
    (fuel : ℕ) (s : Text) → length s < fuel → (r : Option Text) × (mention_loop fuel s ≡ some r)
unfolding mention_loop
loop_ends zero s h = absurd (omega arith)
loop_ends (suc fuel) s h = elim (Bool-cases (starts_with at s)) [
  | inr e ↦ (none, rw e refl)
  | inl e ↦ elim (Option-cases (second_part s)) [
    | inl f ↦ (none, rw (e, f) refl)
    | inr (part, f) ↦ elim (Bool-cases (starts_with slash (lstrip part))) [
      | inl g ↦ (some (lstrip part), rw (e, f, g) refl)
      | inr g ↦
          let (r, ends) =
            loop_ends fuel (lstrip part) (omega (arith, second_part_shorter s part e f)) in
          (r, rw (e, f, g) ends)
    ]
  ]
]

loop-group_mention_command_text :
    (s : Text) → mention_loop (suc (length s)) s ≡ some (group_mention_command_text s)
unfolding group_mention_command_text
loop-group_mention_command_text s =
    let (r, ends) = loop_ends (suc (length s)) s (omega arith) in
    ends ∙ ap (λ o. some (or_default o none)) (sym ends)

-- The loop ends: on the fuel that it is given, one more than the length of the text, it comes to an
-- answer. And the answer is a command exactly where the text has that command behind its mentions,
-- however many they are.
pub group_mention_command_text_iff :
    (s c : Text)
    → (mention_loop (suc (length s)) s ≡ some (group_mention_command_text s))
      × ((group_mention_command_text s ≡ some c) ↔ MentionCommand s c)
group_mention_command_text_iff s c =
    let ends = loop-group_mention_command_text s in
    (
      ends,
      (
        (λ h. loop-MentionCommand (suc (length s)) s c (ends ∙ ap some h)),
        (λ m. some-injective _ _ (sym ends ∙ loop_finds (suc (length s)) s c (omega arith) m)),
      ),
    )
