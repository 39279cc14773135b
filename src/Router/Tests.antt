-- ===== src/Router/Tests.antt =====
-- Messages and their routes, and the theorems at those messages.
use im_assistant.Prelude.{◌≡◌, ◌↔◌, refl, suc, length, false, none, some, codes, is_space, lstrip}
use im_assistant.Session.{Session, SessionKind, awaiting_interaction}
use im_assistant.Router.{
  drop_word, second_part, mention_loop, group_mention_command_text, extract_command_text, command,
  agent_loop, is_awaiting, classify_inbound_message,
}
use im_assistant.Router.Mentions.{MentionCommand, group_mention_command_text_iff}
use im_assistant.Router.Classes.{IsCommand, classify_command_iff}
use im_assistant.Samples.{s1}

program : Unit {0}
unfolding is_space lstrip drop_word second_part mention_loop group_mention_command_text
    extract_command_text classify_inbound_message
program = tt

abbrev group_session : Session
group_session = record s1 { kind = SessionKind.group }

abbrev waiting_session : Session
waiting_session = record s1 { state = awaiting_interaction }

routes :
    (classify_inbound_message (some (codes " /help me ")) none ≡ command (codes "/help me "))
    × (classify_inbound_message (some (codes "@bot  @Ada /help me ")) (some group_session)
        ≡ command (codes "/help me "))
    × (classify_inbound_message (some (codes "@bot /help")) (some s1) ≡ agent_loop)
    × (classify_inbound_message (some (codes "@bot hello /help")) (some group_session) ≡ agent_loop)
    × (classify_inbound_message (some (codes "@bot")) (some group_session) ≡ agent_loop)
    × (classify_inbound_message none none ≡ agent_loop)
unfolding program
routes = (refl, refl, refl, refl, refl, refl)

group_mention_command_text_iff_example :
    (mention_loop (suc (length (codes "@bot @Ada /help"))) (codes "@bot @Ada /help")
      ≡ some (group_mention_command_text (codes "@bot @Ada /help")))
    × ((group_mention_command_text (codes "@bot @Ada /help") ≡ some (codes "/help"))
        ↔ MentionCommand (codes "@bot @Ada /help") (codes "/help"))
group_mention_command_text_iff_example =
    group_mention_command_text_iff (codes "@bot @Ada /help") (codes "/help")

classify_command_iff_example :
    (classify_inbound_message (some (codes " /help")) (some s1) ≡ command (codes "/help"))
    ↔ ((is_awaiting (some s1) ≡ false) × IsCommand (some s1) (codes " /help") (codes "/help"))
classify_command_iff_example = classify_command_iff (codes " /help") (codes "/help") (some s1)
