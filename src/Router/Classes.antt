-- ===== src/Router/Classes.antt =====
-- `classify_inbound_message` against what a command is.
use mathlib.Core.Option.{some-injective}
use im_assistant.Prelude.{
  ◌≡◌, ◌↔◌, refl, subst, true, false, Option, none, some, Text, lstrip, starts_with, Bool-cases,
  inl, inr, arith,
}
use im_assistant.Session.{Session}
use im_assistant.Router.{
  slash, in_group, extract_command_text, pending_interaction, command, is_awaiting, route_of,
  classify_inbound_message,
}
use im_assistant.Router.Mentions.{MentionCommand, group_mention_command_text_iff}

-- `c` is the command of a message: the text starts with a slash, or it is a message in a group that
-- has the command behind its mentions. White space in front does not count.
pub data IsCommand : Option Session → Text → Text → Type 0 where
  slashed :
      {session : Option Session} {text : Text}
      → starts_with slash (lstrip text) ≡ true
      → IsCommand session text (lstrip text)
  mentioned :
      {session : Option Session} {text c : Text}
      → starts_with slash (lstrip text) ≡ false
      → in_group session ≡ true
      → MentionCommand (lstrip text) c
      → IsCommand session text c

extract-IsCommand :
    (text c : Text) (session : Option Session)
    → extract_command_text (some text) session ≡ some c
    → IsCommand session text c
unfolding extract_command_text
extract-IsCommand text c session h = elim (Bool-cases (starts_with slash (lstrip text))) [
  | inl e ↦ subst (IsCommand session text) (some-injective _ _ (rw e at h)) (slashed e)
  | inr e ↦ elim (Bool-cases (in_group session)) [
    | inl g ↦ mentioned e g ((group_mention_command_text_iff (lstrip text) c).1.0 (rw (e, g) at h))
    | inr g ↦ absurd (ground arith)
  ]
]

extract_finds :
    (text c : Text) (session : Option Session)
    → IsCommand session text c
    → extract_command_text (some text) session ≡ some c
unfolding extract_command_text
extract_finds text c session (slashed e) = rw e refl
extract_finds text c session (mentioned e g m) =
    rw (e, g) ((group_mention_command_text_iff (lstrip text) c).1.1 m)

route_of-command : (o : Option Text) (c : Text) → route_of o ≡ command c → o ≡ some c
route_of-command none c h = cc
route_of-command (some d) c h = ground arith

-- A message is routed as the command `c` exactly where its Session does not await an interaction and
-- `c` is the command of its text.
pub classify_command_iff :
    (text c : Text) (session : Option Session)
    → (classify_inbound_message (some text) session ≡ command c)
      ↔ ((is_awaiting session ≡ false) × IsCommand session text c)
unfolding classify_inbound_message
classify_command_iff text c session = elim (Bool-cases (is_awaiting session)) [
  | inl e ↦ (λ h. absurd (ground arith), λ h. absurd (ground arith))
  | inr e ↦ (
    λ h. (
      e,
      extract-IsCommand text c session
          (route_of-command (extract_command_text (some text) session) c (rw e at h)),
    ),
    λ h. rw (e, extract_finds text c session h.1) refl,
  )
]

-- A message is left to the pending interaction exactly where its Session awaits one, whatever its
-- text.
pub classify_pending_iff :
    (text : Option Text) (session : Option Session)
    → (classify_inbound_message text session ≡ pending_interaction) ↔ (is_awaiting session ≡ true)
unfolding classify_inbound_message
classify_pending_iff text session = elim (Bool-cases (is_awaiting session)) [
  | inl e ↦ (λ h. e, λ h. rw e refl)
  | inr e ↦ (
    λ h. absurd (not_pending (extract_command_text text session) (rw e at h)),
    λ h. absurd (ground arith),
  )
]
  where
    not_pending : (o : Option Text) → route_of o ≡ pending_interaction → ⊥
    not_pending none h = cc
    not_pending (some c) h = cc
