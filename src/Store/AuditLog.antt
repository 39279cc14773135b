-- ===== src/Store/AuditLog.antt =====
-- The table `audit_log`: appends under the foreign key of `session_id`, and the listing.
pub mod Appends
use im_assistant.Prelude.{
  ℕ, suc, Bool, false, not, Option, none, some, List, [], ◌∷◌, ◌++◌, Text, Action, integrity_error,
  pure, lift, gets, modify, raise_if, ◌>>=◌, ◌>>◌, non_empty_string, optional_string, exists,
  or_default, take,
}
use im_assistant.Instant.{Instant}
use im_assistant.Json.{Mapping}
use im_assistant.Store.Records.{AuditRecord, SessionRecord, Db}
use im_assistant.Store.Sessions.{has_session_id}
use im_assistant.Store.Messages.{positive_int}

-- The arguments of one append.
pub record AuditEvent : Type 0 where
  pub event_type : Text
  pub actor_id : Option Text
  pub principal_id : Option Text
  pub session_id : Option Text
  pub scope : Option Text
  pub action : Option Text
  pub metadata : Mapping

-- The foreign key: a session that is named exists.
abbrev pub dangling : Option Text → List SessionRecord → Bool
dangling none sessions = false
dangling (some key) sessions = not (exists (has_session_id key) sessions)

unfoldable pub append_audit_log : Instant → AuditEvent → Option Instant → Action Db AuditRecord
append_audit_log now e created_at = do
  event_type ← lift (non_empty_string e.event_type)
  raise_if (← gets λ db. dangling (optional_string e.session_id) db.sessions) integrity_error
  id ← gets λ db. suc db.last_audit
  modify λ db. record db {
    last_audit = id;
    audit_log =
        db.audit_log
        ++ (record {
          audit_id = id;
          event_type = event_type;
          actor_id = optional_string e.actor_id;
          principal_id = optional_string e.principal_id;
          session_id = optional_string e.session_id;
          scope = optional_string e.scope;
          action = optional_string e.action;
          metadata = e.metadata;
          created_at = or_default created_at now;
        })
          ∷ [];
  }
  pure (record {
    audit_id = id;
    event_type = e.event_type;
    actor_id = e.actor_id;
    principal_id = e.principal_id;
    session_id = e.session_id;
    scope = e.scope;
    action = e.action;
    metadata = e.metadata;
    created_at = or_default created_at now;
  })

unfoldable pub list_audit_logs : ℕ → Action Db (List AuditRecord)
list_audit_logs limit = do n ← positive_int limit; gets λ db. take n db.audit_log
