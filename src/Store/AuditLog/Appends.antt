-- ===== src/Store/AuditLog/Appends.antt =====
-- What an append to `audit_log` leaves: one more row, and nothing else.
use im_assistant.Prelude.{
  suc, ◌≡◌, refl, sym, inl, inr, none, [], ◌∷◌, ◌++◌, Text, ok, non_empty_string, optional_string,
  continue-lift-ok, returned-eq, Bool-cases,
}
use im_assistant.Instant.{Instant}
use im_assistant.Store.Records.{AuditRecord, Db}
use im_assistant.Store.AuditLog.{AuditEvent, append_audit_log, dangling}

-- The state with one more row in the log.
abbrev pub with_audit : AuditRecord → Db → Db
with_audit row db = record db {
  last_audit = suc db.last_audit;
  audit_log = db.audit_log ++ row ∷ [];
}

-- The row is that of the event.
pub record IsRowOf (e : AuditEvent) (now : Instant) (row : AuditRecord) : Type 0 where
  pub event_type : non_empty_string e.event_type ≡ ok row.event_type
  pub actor_id : row.actor_id ≡ optional_string e.actor_id
  pub principal_id : row.principal_id ≡ optional_string e.principal_id
  pub session_id : row.session_id ≡ optional_string e.session_id
  pub scope : row.scope ≡ optional_string e.scope
  pub action : row.action ≡ optional_string e.action
  pub metadata : row.metadata ≡ e.metadata
  pub created_at : row.created_at ≡ now

abbrev audit_row : Instant → AuditEvent → Text → Db → AuditRecord
audit_row now e event_type db = record {
  audit_id = suc db.last_audit;
  event_type = event_type;
  actor_id = optional_string e.actor_id;
  principal_id = optional_string e.principal_id;
  session_id = optional_string e.session_id;
  scope = optional_string e.scope;
  action = optional_string e.action;
  metadata = e.metadata;
  created_at = now;
}

audit_row-IsRowOf :
    (now : Instant) (e : AuditEvent) (event_type : Text) (db : Db)
    → non_empty_string e.event_type ≡ ok event_type
    → IsRowOf e now (audit_row now e event_type db)
audit_row-IsRowOf now e event_type db h = record {
  event_type = h;
  actor_id = refl;
  principal_id = refl;
  session_id = refl;
  scope = refl;
  action = refl;
  metadata = refl;
  created_at = refl;
}

pub append_audit_log-IsRowOf :
    (now : Instant) (e : AuditEvent) (db db' : Db) (r : AuditRecord)
    → append_audit_log now e none db ≡ (ok r, db')
    → (row : AuditRecord) × (db' ≡ with_audit row db) × IsRowOf e now row
unfolding append_audit_log
append_audit_log-IsRowOf now e db db' r h =
    let (event_type, typed, rest) = continue-lift-ok (non_empty_string e.event_type) _ h in
    elim (Bool-cases (dangling (optional_string e.session_id) db.sessions)) [
      | inl bad ↦ absurd (cc (rw bad at rest))
      | inr fine ↦
          let (same, left) = returned-eq (rw fine at rest) in
          (audit_row now e event_type db, sym left, audit_row-IsRowOf now e event_type db typed)
    ]
