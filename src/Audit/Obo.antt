-- ===== src/Audit/Obo.antt =====
-- AuditLogger.record_obo_authorization (src/infra/audit.py): who may act for whom, and why not.
use im_assistant.Prelude.{
  Bool, Option, none, some, List, Text, codes, Result, ok, bind, Action, lift, ◌>>=◌,
  non_empty_string, non_empty_strings,
}
use im_assistant.Instant.{Instant}
use im_assistant.Json.{Value, null, boolean, text, array, Mapping, empty, entry}
use im_assistant.Json.Plain.{plain_object}
use im_assistant.Store.Records.{AuditRecord, Db}
use im_assistant.Store.AuditLog.{AuditEvent, append_audit_log}
use im_assistant.Audit.{texts, scope_label, set_optional}

pub data OboDecision : Type 0 where
  granted needs_consent denied : OboDecision

-- The text of the `Literal`.
abbrev pub decision_text : OboDecision → Text
decision_text granted = codes "granted"
decision_text needs_consent = codes "needs_consent"
decision_text denied = codes "denied"

abbrev pub optional_value : Option Text → Value
optional_value none = null
optional_value (some s) = text s

-- The arguments of `record_obo_authorization`.
pub record OboAuthorization : Type 0 where
  pub actor_id : Text
  pub principal_id : Text
  pub session_id : Text
  pub service : Text
  pub scopes : List Text
  pub mode : Text
  pub decision : OboDecision
  pub on_behalf_of : Option Text
  pub reason : Option Text
  pub refreshed : Bool
  pub pending_nonce : Option Text
  pub actor_identity : Option Text

unfoldable pub obo_metadata : OboAuthorization → Result Mapping
unfolding texts set_optional
obo_metadata a = bind (non_empty_string a.service) λ service.
    bind (non_empty_strings a.scopes) λ scopes. bind (non_empty_string a.mode) λ mode.
      bind
        (set_optional (codes "reason") a.reason (
          entry (codes "service") (text service) (
            entry (codes "scopes") (array (texts scopes)) (
              entry (codes "mode") (text mode) (
                entry (codes "decision") (text (decision_text a.decision)) (
                  entry (codes "on_behalf_of") (optional_value a.on_behalf_of)
                    (entry (codes "refreshed") (boolean a.refreshed) empty)))))))
        λ m.
          bind (set_optional (codes "pending_nonce") a.pending_nonce m)
            λ n. set_optional (codes "actor_identity") a.actor_identity n

unfoldable pub obo_event : OboAuthorization → Result AuditEvent
unfolding obo_metadata scope_label
obo_event a = bind (obo_metadata a) λ metadata. bind (non_empty_string a.actor_id) λ actor_id.
    bind (non_empty_string a.principal_id) λ principal_id.
      bind (non_empty_string a.session_id) λ session_id. bind (non_empty_strings a.scopes) λ scopes.
        bind (scope_label a.service scopes) λ scope. bind (plain_object metadata) λ plain.
          ok (record {
            event_type = codes "obo_authorization";
            actor_id = some actor_id;
            principal_id = some principal_id;
            session_id = some session_id;
            scope = some scope;
            action = some (decision_text a.decision);
            metadata = plain;
          })

unfoldable pub record_obo_authorization : Instant → OboAuthorization → Action Db AuditRecord
unfolding obo_event
record_obo_authorization now a = do event ← lift (obo_event a); append_audit_log now event none
