-- ===== src/Router.antt =====
-- The routing of a message before the agent loop (src/core/router.py). An event is its text, if it
-- has one that is a `str`. A Session is its kind and its state.
pub mod Mentions
pub mod Classes
mod Tests
use im_assistant.Prelude.{
  ℕ, zero, suc, Bool, true, false, Option, none, some, List, [], ◌∷◌, Text, is_space, lstrip,
  is_empty, starts_with, length, or_default, if◌then◌else◌,
}
use im_assistant.Session.{
  Session, SessionState, idle, running_agent, awaiting_interaction, is_group,
}

-- `"/"` and `"@"`
abbrev pub slash : ℕ
slash = b'/'

abbrev pub at : ℕ
at = b'@'

-- The text from its first white space on.
unfoldable pub drop_word : Text → Text
drop_word [] = []
drop_word (c ∷ s) = if is_space c then c ∷ s else drop_word s

-- `s.split(maxsplit=1)[1]`, where there are two parts
unfoldable pub second_part : Text → Option Text
second_part s =
    let rest = lstrip (drop_word (lstrip s)) in if is_empty rest then none else some rest

-- What a turn of the loop comes to: `none` is no answer yet, for want of fuel.
abbrev pub after_mention : Option Text → (Text → Option (Option Text)) → Option (Option Text)
after_mention none more = some none
after_mention (some part) more =
    let remaining = lstrip part in
    if starts_with slash remaining then some (some remaining) else more remaining

-- The loop of `_group_mention_command_text`: each turn takes a character at least.
unfoldable pub mention_loop : ℕ → Text → Option (Option Text)
mention_loop zero remaining = none
mention_loop (suc fuel) remaining =
    let found = after_mention (second_part remaining) (mention_loop fuel) in
    if starts_with at remaining then found else some none

unfoldable pub group_mention_command_text : Text → Option Text
group_mention_command_text stripped_text =
    or_default (mention_loop (suc (length stripped_text)) stripped_text) none

abbrev pub in_group : Option Session → Bool
in_group none = false
in_group (some s) = is_group s.kind

unfoldable pub extract_command_text : Option Text → Option Session → Option Text
extract_command_text none session = none
extract_command_text (some text) session =
    let stripped = lstrip text in
    if starts_with slash stripped
    then some stripped
    else if in_group session
    then group_mention_command_text stripped
    else none

pub data InboundMessageRoute : Type 0 where
  pending_interaction : InboundMessageRoute
  command : Text → InboundMessageRoute
  agent_loop : InboundMessageRoute

abbrev pub is_awaiting : Option Session → Bool
is_awaiting none = false
is_awaiting (some s) = elim s.state [
  | idle ↦ false
  | running_agent ↦ false
  | awaiting_interaction ↦ true
]

abbrev pub route_of : Option Text → InboundMessageRoute
route_of none = agent_loop
route_of (some c) = command c

unfoldable pub classify_inbound_message : Option Text → Option Session → InboundMessageRoute
classify_inbound_message text session =
    if is_awaiting session
    then pending_interaction
    else route_of (extract_command_text text session)
