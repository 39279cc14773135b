-- ===== src/Audit/Execution.antt =====
-- AuditLogger.record_command_execution (src/infra/audit.py): the outcome of one slash command.
pub mod Logged
use im_assistant.Prelude.{
  ◌||◌, Option, none, some, List, [], ◌∷◌, ◌++◌, Text, codes, ◌==◌, starts_with, Result, ok, bind,
  Action, lift, ◌>>=◌, non_empty_string, non_empty_strings, optional_string, if◌then◌else◌,
}
use im_assistant.Instant.{Instant}
use im_assistant.Json.{text, array, empty, entry}
use im_assistant.Json.Plain.{plain_object}
use im_assistant.Store.Records.{AuditRecord, Db}
use im_assistant.Store.AuditLog.{AuditEvent, append_audit_log}
use im_assistant.Audit.{texts, set_optional}
use im_assistant.Audit.Obo.{optional_value}

pub data CommandOutcome : Type 0 where
  executed unknown_command missing_session unavailable forbidden invalid_args failed :
      CommandOutcome

-- The text of the `Literal`.
abbrev pub outcome_text : CommandOutcome → Text
outcome_text executed = codes "executed"
outcome_text unknown_command = codes "unknown_command"
outcome_text missing_session = codes "missing_session"
outcome_text unavailable = codes "unavailable"
outcome_text forbidden = codes "forbidden"
outcome_text invalid_args = codes "invalid_args"
outcome_text failed = codes "failed"

-- The arguments of `record_command_execution`.
pub record CommandExecution : Type 0 where
  pub actor_id : Option Text
  pub principal_id : Option Text
  pub session_id : Option Text
  pub command_name : Text
  pub args : List Text
  pub args_text : Text
  pub session_kind : Option Text
  pub requires_role : Option Text
  pub available_in : List Text
  pub outcome : CommandOutcome
  pub reason : Option Text

abbrev service_of : List Text → Text
service_of [] = codes "service"
service_of (s ∷ _) = codes "service:" ++ s

-- `name.removeprefix("/")`
abbrev remove_slash : Text → Text
remove_slash [] = []
remove_slash (c ∷ s) = if starts_with b'/' (c ∷ s) then s else c ∷ s

-- `_command_scope`, on a name and arguments that are already checked
unfoldable pub command_scope : Text → List Text → Text
command_scope command args =
    if command == codes "/connect" || command == codes "/disconnect"
    then service_of args
    else if command == codes "/cancel"
    then codes "pending_interaction"
    else if command == codes "/reset"
    then codes "session_history"
    else if command == codes "/whoami"
    then codes "identity"
    else if command == codes "/help"
    then codes "registry"
    else codes "command:" ++ remove_slash command

unfoldable pub command_event : CommandExecution → Result AuditEvent
unfolding texts set_optional command_scope
command_event x = bind (non_empty_string x.command_name) λ command.
    bind (non_empty_strings x.args) λ args. bind (non_empty_strings x.available_in) λ available_in.
      bind
        (set_optional (codes "reason") x.reason (
          entry (codes "command") (text command) (
            entry (codes "args") (array (texts args)) (
              entry (codes "args_text") (text x.args_text) (
                entry (codes "session_kind") (optional_value x.session_kind) (
                  entry (codes "requires_role") (optional_value x.requires_role) (
                    entry (codes "available_in") (array (texts available_in))
                      (entry (codes "outcome") (text (outcome_text x.outcome)) empty))))))))
        λ metadata. bind (non_empty_string command) λ name. bind (plain_object metadata) λ plain.
          ok (record {
            event_type = codes "command_execution";
            actor_id = optional_string x.actor_id;
            principal_id = optional_string x.principal_id;
            session_id = optional_string x.session_id;
            scope = some (command_scope name args);
            action = some command;
            metadata = plain;
          })

unfoldable pub record_command_execution : Instant → CommandExecution → Action Db AuditRecord
unfolding command_event
record_command_execution now x = do event ← lift (command_event x); append_audit_log now event none
