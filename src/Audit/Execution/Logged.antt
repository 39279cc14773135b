-- ===== src/Audit/Execution/Logged.antt =====
-- What the record of a slash command leaves in the log.
use im_assistant.Prelude.{
  ◌≡◌, refl, sym, ap, ◌∙◌, subst, Option, none, some, List, [], ◌∷◌, Text, codes, strip, lstrip,
  rstrip, rcons, is_space, ◌==◌, ok, bind-eq-ok, ok-injective, continue-lift-ok, non_empty_string,
  non_empty_strings, optional_string, strip-strip, arith,
}
use im_assistant.Instant.{Instant}
use im_assistant.Json.{text, array, Mapping, entry, empty, get, set}
use im_assistant.Json.Plain.{plain_value, plain_items, plain_fields, plain_object}
use im_assistant.Store.Records.{AuditRecord, Db}
use im_assistant.Store.AuditLog.{AuditEvent}
use im_assistant.Store.AuditLog.Appends.{with_audit, IsRowOf, append_audit_log-IsRowOf}
use im_assistant.Audit.{texts, set_optional}
use im_assistant.Audit.Obo.{optional_value}
use im_assistant.Audit.Execution.{
  CommandExecution, outcome_text, command_event, record_command_execution,
}

plain_items-texts : (ss : List Text) → plain_items (texts ss) ≡ ok (texts ss)
unfolding plain_items plain_value texts
plain_items-texts [] = refl
plain_items-texts (s ∷ ss) = rw (plain_items-texts ss) refl

plain_value-optional : (s : Option Text) → plain_value (optional_value s) ≡ ok (optional_value s)
unfolding plain_value
plain_value-optional none = refl
plain_value-optional (some s) = refl

abbrev metadata_of : Text → List Text → List Text → CommandExecution → Mapping
metadata_of command args available_in x = entry (codes "command") (text command) (
    entry (codes "args") (array (texts args)) (
      entry (codes "args_text") (text x.args_text) (
        entry (codes "session_kind") (optional_value x.session_kind) (
          entry (codes "requires_role") (optional_value x.requires_role) (
            entry (codes "available_in") (array (texts available_in))
              (entry (codes "outcome") (text (outcome_text x.outcome)) empty))))))

plain_metadata :
    (command : Text) (args available_in : List Text) (x : CommandExecution)
    → plain_object (metadata_of command args available_in x)
      ≡ ok (metadata_of command args available_in x)
unfolding plain_object plain_fields plain_value set non_empty_string strip lstrip rstrip rcons
    is_space ◌==◌
plain_metadata command args available_in x =
    rw
      (
        plain_items-texts args,
        plain_value-optional x.session_kind,
        plain_value-optional x.requires_role,
        plain_items-texts available_in,
      )
      refl

plain_metadata_reason :
    (command reason : Text) (args available_in : List Text) (x : CommandExecution)
    → plain_object (set (codes "reason") (text reason) (metadata_of command args available_in x))
      ≡ ok (set (codes "reason") (text reason) (metadata_of command args available_in x))
unfolding plain_object plain_fields plain_value set non_empty_string strip lstrip rstrip rcons
    is_space ◌==◌
plain_metadata_reason command reason args available_in x =
    rw
      (
        plain_items-texts args,
        plain_value-optional x.session_kind,
        plain_value-optional x.requires_role,
        plain_items-texts available_in,
      )
      refl

-- What the metadata of an event says of the command and its outcome.
abbrev Tells : CommandExecution → Text → Mapping → Type 0
Tells x command m =
    (get (codes "command") m ≡ some (text command))
    × (get (codes "outcome") m ≡ some (text (outcome_text x.outcome)))

with_reason-Tells :
    (x : CommandExecution) (reason : Option Text) (command : Text) (args available_in : List Text)
    (m plain : Mapping)
    → set_optional (codes "reason") reason (metadata_of command args available_in x) ≡ ok m
    → plain_object m ≡ ok plain
    → Tells x command plain
unfolding set_optional set get ◌==◌
with_reason-Tells x none command args available_in m plain h p =
    subst (Tells x command)
      (ok-injective
        (sym (plain_metadata command args available_in x) ∙ (ap plain_object (ok-injective h) ∙ p)))
      (refl, refl)
with_reason-Tells x (some r) command args available_in m plain h p =
    let (reason, e, f) = bind-eq-ok (non_empty_string r) _ h in
    subst (Tells x command)
      (ok-injective (
        sym (plain_metadata_reason command reason args available_in x)
        ∙ (ap plain_object (ok-injective f) ∙ p)))
      (refl, refl)

-- The row that records `x`.
pub record IsRecordOf (x : CommandExecution) (row : AuditRecord) : Type 0 where
  pub event_type : row.event_type ≡ codes "command_execution"
  pub actor_id : row.actor_id ≡ optional_string x.actor_id
  pub session_id : row.session_id ≡ optional_string x.session_id
  pub command : Text
  pub named : non_empty_string x.command_name ≡ ok command
  pub action : row.action ≡ some command
  pub tells : Tells x command row.metadata

record IsEventOf (x : CommandExecution) (e : AuditEvent) : Type 0 where
  event_type : e.event_type ≡ codes "command_execution"
  actor_id : e.actor_id ≡ optional_string x.actor_id
  session_id : e.session_id ≡ optional_string x.session_id
  command : Text
  named : non_empty_string x.command_name ≡ ok command
  action : e.action ≡ some command
  tells : Tells x command e.metadata

command_event-IsEventOf :
    (x : CommandExecution) (e : AuditEvent) → command_event x ≡ ok e → IsEventOf x e
unfolding command_event
command_event-IsEventOf x e h =
    let (command, named, h1) = bind-eq-ok (non_empty_string x.command_name) _ h in
    let (args, _, h2) = bind-eq-ok (non_empty_strings x.args) _ h1 in
    let (available_in, _, h3) = bind-eq-ok (non_empty_strings x.available_in) _ h2 in
    let (m, reasoned, h4) =
      bind-eq-ok (set_optional (codes "reason") x.reason (metadata_of command args available_in x))
        _ h3 in
    let (name, _, h5) = bind-eq-ok (non_empty_string command) _ h4 in
    let (plain, p, h6) = bind-eq-ok (plain_object m) _ h5 in
    subst (IsEventOf x) (ok-injective h6) (record {
      event_type = refl;
      actor_id = refl;
      session_id = refl;
      command = command;
      named = named;
      action = refl;
      tells = with_reason-Tells x x.reason command args available_in m plain reasoned p;
    })

optional_string-fixed : (s : Option Text) → optional_string (optional_string s) ≡ optional_string s
unfolding optional_string
optional_string-fixed none = refl
optional_string-fixed (some s) = ground (arith, strip-strip s)

optional_string-checked :
    (s t : Text) → non_empty_string s ≡ ok t → optional_string (some t) ≡ some t
unfolding optional_string non_empty_string
optional_string-checked s t h = ground (arith, strip-strip s)

event_type_fixed : non_empty_string (codes "command_execution") ≡ ok (codes "command_execution")
unfolding non_empty_string strip lstrip rstrip rcons is_space
event_type_fixed = refl

row-IsRecordOf :
    (now : Instant) (x : CommandExecution) (e : AuditEvent) (row : AuditRecord)
    → IsEventOf x e
    → IsRowOf e now row
    → IsRecordOf x row
row-IsRecordOf now x e row v r = record {
  event_type =
      ok-injective (sym r.event_type ∙ (ap non_empty_string v.event_type ∙ event_type_fixed));
  actor_id = r.actor_id ∙ (ap optional_string v.actor_id ∙ optional_string-fixed x.actor_id);
  session_id =
      r.session_id ∙ (ap optional_string v.session_id ∙ optional_string-fixed x.session_id);
  command = v.command;
  named = v.named;
  action =
      r.action
      ∙ (ap optional_string v.action ∙ optional_string-checked x.command_name v.command v.named);
  tells = subst (Tells x v.command) (sym r.metadata) v.tells;
}

-- The record of a command adds the row that describes it to the log, and changes nothing else.
pub record_command_execution-IsRecordOf :
    (now : Instant) (x : CommandExecution) (db db' : Db) (r : AuditRecord)
    → record_command_execution now x db ≡ (ok r, db')
    → (row : AuditRecord) × (db' ≡ with_audit row db) × IsRecordOf x row
unfolding record_command_execution
record_command_execution-IsRecordOf now x db db' r h =
    let (e, made, rest) = continue-lift-ok (command_event x) _ h in
    let (row, left, is_row) = append_audit_log-IsRowOf now e db db' r rest in
    (row, left, row-IsRecordOf now x e row (command_event-IsEventOf x e made) is_row)
