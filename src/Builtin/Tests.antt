-- ===== src/Builtin/Tests.antt =====
-- `/reset` and `/disconnect` in one Session, and the theorems at those calls.
use im_assistant.Prelude.{
  ◌+◌, ◌≡◌, refl, true, Option, none, some, [], ◌∷◌, Text, codes, ok, is_space, lstrip, rcons,
  rstrip, strip, lower, ◌==◌, member, non_empty_string, non_empty_strings, optional_string, find,
  select, delete, update, count, exists,
}
use im_assistant.Instant.{seconds}
use im_assistant.Json.{empty}
use im_assistant.Session.{SessionKind}
use im_assistant.Store.Records.{Db, MessageRole}
use im_assistant.Store.Sessions.{put_session, get_session, session_row, upsert_session}
use im_assistant.Store.Messages.{add_message, delete_messages_for_session}
use im_assistant.Store.Auths.{from_keys, normalize_scopes}
use im_assistant.Store.Tokens.{get_token, put_token, token_row, upsert_token, delete_token}
use im_assistant.Interrupt.Manager.{session_record_with_state}
use im_assistant.TokenVault.{
  Cipher, token_needs_refresh, encrypt_text, decrypt_text, decrypt_record, get_user_token,
  token_record, put_user_token,
}
use im_assistant.Command.{CommandRole, decimal}
use im_assistant.Command.Dispatch.{CommandContext}
use im_assistant.Builtin.{
  BuiltinCommand, reset, disconnect, BuiltinCommandServices, reset_context, normalize_service,
  reset_handler, disconnect_handler,
}
use im_assistant.Builtin.Texts.{reset_reply, disconnect_reply}
use im_assistant.Builtin.Reset.{IsReset, reset_handler-IsReset}
use im_assistant.Builtin.Revoked.{IsRevoked, disconnect_handler-IsRevoked}
use im_assistant.Samples.{noon, s1, with_s1}

program : Unit {0}
unfolding is_space lstrip rcons rstrip strip lower ◌==◌ member non_empty_string non_empty_strings
    optional_string find select delete update count exists put_session get_session session_row
    upsert_session add_message delete_messages_for_session from_keys normalize_scopes get_token
    put_token token_row upsert_token delete_token session_record_with_state token_needs_refresh
    encrypt_text decrypt_text decrypt_record get_user_token token_record put_user_token decimal
    reset_context normalize_service reset_handler disconnect_handler reset_reply disconnect_reply
program = tt

-- A letter in front, in place of an encryption.
abbrev unwrap : Text → Option Text
unwrap [] = none
unwrap (c ∷ s) = some s

abbrev wrapping : Cipher
wrapping = record { encrypt = λ seed s. b'<' ∷ s; decrypt = unwrap }

abbrev services : BuiltinCommandServices (Unit {0}) (Unit {0})
services = record {
  capability_registry = λ s. none;
  channel_enabled_capabilities = [];
  token_vault = some (record { cipher = wrapping; skew = 300 });
  authorizer = none;
  has_interrupt_manager = true;
  interaction_canceller = none;
  msg_id = λ e. none;
  now = noon;
}

abbrev called : BuiltinCommand → Text → CommandContext BuiltinCommand (Unit {0})
called h arg = record {
  session = s1;
  command = record {
    name = codes "/c";
    handler = h;
    available_in = SessionKind.dm ∷ [];
    requires_role = CommandRole.user;
    args_spec = record { min_args = 0; max_args = none };
    description = [];
  };
  args = arg ∷ [];
  args_text = arg;
  event = tt;
}

abbrev with_message : Db
with_message =
    (add_message noon (codes "s1") MessageRole.user (codes "hello") none none empty none with_s1).1

abbrev emptied : Db
emptied = (reset_handler services (called reset (codes "x")) with_message).1

was_reset :
    reset_handler services (called reset (codes "x")) with_message ≡ (ok (reset_reply 1), emptied)
unfolding program
was_reset = refl

reset_handler-IsReset_example : IsReset s1 with_message emptied
reset_handler-IsReset_example =
    reset_handler-IsReset services (called reset (codes "x")) (reset_reply 1) with_message emptied
      was_reset

abbrev with_token : Db
with_token =
    (put_user_token wrapping 300 (1, 2) noon (codes "u1") (codes "doc") (codes "secret") none
      (codes "read" ∷ []) (some (noon + seconds 7200)) with_s1).1

abbrev disconnected : Db
disconnected = (disconnect_handler services (called disconnect (codes "Doc")) with_token).1

was_disconnected :
    disconnect_handler services (called disconnect (codes "Doc")) with_token
    ≡ (ok (disconnect_reply true (codes "doc")), disconnected)
unfolding program
was_disconnected = refl

disconnect_handler-IsRevoked_example :
    IsRevoked services
      (called disconnect (codes "Doc"))
      (disconnect_reply true (codes "doc"))
      with_token
      disconnected
disconnect_handler-IsRevoked_example =
    disconnect_handler-IsRevoked services (called disconnect (codes "Doc"))
      (disconnect_reply true (codes "doc")) with_token disconnected was_disconnected
