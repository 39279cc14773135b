-- ===== src/Command/Dispatch.antt =====
-- CommandRegistry.handle_command (src/core/commands.py): one dispatch, with its record in the
-- audit log. `call` runs a handler, `split` is `shlex.split`, `roles_for_actor` the authorizer,
-- `audited` says whether there is an audit logger, and `message` is `str(exc) or type name`.
pub mod Verdict
pub mod Handler
pub mod Audited
use im_assistant.Prelude.{
  Bool, Option, none, some, List, [], ◌∷◌, ◌++◌, map, Text, codes, is_empty, Error, Result, ok, err,
  bind, Action, command_error, lift, pure, raise, raise_if, ◌>>=◌, ◌>>◌, not, non_empty_string,
  or_default, if◌then◌else◌,
}
use im_assistant.Prelude.Dict.{Dict}
use im_assistant.Instant.{Instant}
use im_assistant.Json.{text, Mapping, empty, entry, set, merge}
use im_assistant.Session.{Session, Actor, SessionKind, dm, group}
use im_assistant.Store.Records.{MessageRecord, MessageRole, Db}
use im_assistant.Store.Messages.{add_message}
use im_assistant.Audit.Execution.{
  CommandOutcome, executed, unknown_command, missing_session, unavailable, forbidden, invalid_args,
  failed, CommandExecution, record_command_execution,
}
use im_assistant.Command.{
  Command, CommandRole, role_text, Words, Arguments, parsed, rejected, parse_args,
  parse_command_text, normalize_command_name,
}
use im_assistant.Command.Roles.{is_available}
use im_assistant.Command.Registry.{get_command, actor_has_required_role}

abbrev pub kind_text : SessionKind → Text
kind_text dm = codes "dm"
kind_text group = codes "group"

-- What a handler is given; the registry and the store are the same throughout.
pub record CommandContext (H E : Type 0) : Type 0 where
  pub session : Session
  pub command : Command H
  pub args : List Text
  pub args_text : Text
  pub event : E

abbrev of_session {ℓ} : {A : Type ℓ} → (Session → A) → Option Session → Option A
of_session f none = none
of_session f (some s) = some (f s)

abbrev of_command : {H : Type 0} {A : Type 0} → (Command H → A) → A → Option (Command H) → A
of_command f missing none = missing
of_command f missing (some c) = f c

-- `actor_id or session.actor.id`
abbrev pub actor_or : Option Text → Text → Text
actor_or none default = default
actor_or (some s) default = if is_empty s then default else s

abbrev with_command : Option Text → Mapping → Result Mapping
with_command none m = ok m
with_command (some name) m =
    bind (normalize_command_name name) λ n. ok (set (codes "command") (text n) m)

-- `inject_message`; `has_store` is whether the registry was given a store.
unfoldable pub inject_message :
    Bool → Instant → Session → Text → Option Text → Option Text → Mapping → Action Db MessageRecord
inject_message has_store now session content actor_id command_name metadata = do
  raise_if (not has_store) command_error
  stripped ← lift (non_empty_string content)
  all ← lift (
      with_command command_name
        (merge (entry (codes "source") (text (codes "command_injection")) empty) metadata))
  add_message now session.session_id MessageRole.user stripped
      (some (actor_or actor_id session.actor.id)) none all none

-- The record that `_record_command_audit` hands to the logger.
unfoldable pub execution :
    {H : Type 0}
    → Option Session
    → Text
    → List Text
    → Text
    → Option (Command H)
    → CommandOutcome
    → Option Text
    → CommandExecution
execution session name args args_text command outcome reason = record {
  actor_id = of_session (λ s. s.actor.id) session;
  principal_id = of_session (λ s. s.principal.id) session;
  session_id = of_session (λ s. s.session_id) session;
  command_name = name;
  args = args;
  args_text = args_text;
  session_kind = of_session (λ s. kind_text s.kind) session;
  requires_role = of_command (λ c. some (role_text c.requires_role)) none command;
  available_in = of_command (λ c. map kind_text c.available_in) [] command;
  outcome = outcome;
  reason = reason;
}

-- `_record_command_audit`
unfoldable pub record_command_audit : Bool → Instant → CommandExecution → Action Db (Unit {0})
record_command_audit audited now x =
    if audited then (do _ ← record_command_execution now x; pure tt) else pure tt

-- What follows the call of the handler: its outcome is recorded, an exception is raised again.
unfoldable pub settle_call :
    Bool
    → (Error → Text)
    → Instant
    → (CommandOutcome → Option Text → CommandExecution)
    → Result (Option Text) × Db
    → Result (Option Text) × Db
unfolding record_command_audit
settle_call audited message now x (ok reply, db) =
    (do record_command_audit audited now (x executed none); pure reply) db
settle_call audited message now x (err e, db) =
    (do record_command_audit audited now (x failed (some (message e))); raise e) db

module _ {H E : Type 0} (call : H → CommandContext H E → Action Db (Option Text))
    (split : Text → Words) (roles_for_actor : Session → Actor → List CommandRole) (audited : Bool)
    (message : Error → Text) (now : Instant) where
  run_handler : Session → Text → Text → E → Command H → Arguments → Action Db (Option Text)
  unfolding settle_call execution
  run_handler session name args_text event c (rejected reason) = do
    record_command_audit audited now
        (execution (some session) name [] args_text (some c) invalid_args (some reason))
    pure (some (codes "参数错误:" ++ reason))
  run_handler session name args_text event c (parsed args) = λ db.
      settle_call audited message now (execution (some session) name args args_text (some c)) (
        call c.handler
          (record {
            session = session;
            command = c;
            args = args;
            args_text = args_text;
            event = event;
          })
          db)

  -- The checks for a command that is registered, in a Session.
  in_session : Session → Text → Text → E → Command H → Action Db (Option Text)
  unfolding run_handler actor_has_required_role
  in_session session name args_text event c =
      if not (is_available session.kind c.available_in)
      then (do
        record_command_audit audited now
            (execution (some session) name [] args_text (some c) unavailable none)
        pure (some (codes "该指令不能在当前会话使用:" ++ c.name)))
      else if not (actor_has_required_role roles_for_actor session c.requires_role)
      then (do
        record_command_audit audited now (
            execution (some session) name [] args_text (some c) forbidden
              (some (codes "requires_role:" ++ role_text c.requires_role)))
        pure (
            some (
              codes "权限不足:" ++ c.name ++ codes " 需要 " ++ role_text c.requires_role ++ codes " 权限")))
      else run_handler session name args_text event c (parse_args split c.args_spec args_text)

  dispatch_to : Option Session → Text → Text → E → Option (Command H) → Action Db (Option Text)
  unfolding in_session
  dispatch_to session name args_text event none = do
    record_command_audit audited now
        (execution {H = H} session name [] args_text none unknown_command none)
    pure (some (codes "未知指令:" ++ name))
  dispatch_to none name args_text event (some c) = do
    record_command_audit audited now
        (execution none name [] args_text (some c) missing_session none)
    pure (some (codes "指令需要会话上下文"))
  dispatch_to (some session) name args_text event (some c) =
      in_session session name args_text event c

  -- `handle_command`
  unfoldable pub handle_command :
      Dict (Command H) → Option Session → Text → E → Action Db (Option Text)
  unfolding dispatch_to
  handle_command registry session command_text event = do
    (name, args_text) ← lift (parse_command_text command_text)
    found ← lift (get_command name registry)
    dispatch_to session name args_text event found
