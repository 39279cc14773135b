-- ===== src/Audit.antt =====
-- The audit log's writer (src/infra/audit.py): typed decisions as rows of `audit_log`.
pub mod Obo
pub mod Execution
use im_assistant.Prelude.{
  Option, none, some, List, [], ◌∷◌, ◌++◌, Text, codes, strip, ◌==◌, Result, ok, err, bind, Action,
  value_error, lift, ◌>>=◌, non_empty_string, optional_string, if◌then◌else◌,
}
use im_assistant.Instant.{Instant}
use im_assistant.Json.{
  Value, text, array, object, Items, nil, cons, Mapping, empty, entry, get, set, merge,
}
use im_assistant.Json.Plain.{plain_value, plain_object}
use im_assistant.Store.Records.{AuditRecord, Db}
use im_assistant.Store.AuditLog.{AuditEvent, append_audit_log}

-- `[v for v in values]` as a JSON array
unfoldable pub texts : List Text → Items
texts [] = nil
texts (s ∷ ss) = cons (text s) (texts ss)

-- `_string_list` over the items of a JSON array
unfoldable pub string_list : Items → Result (List Text)
string_list nil = ok []
string_list (cons (text s) xs) =
    bind (non_empty_string s) λ t. bind (string_list xs) λ ts. ok (t ∷ ts)
string_list (cons _ xs) = err value_error

-- A value that is a text with something in it, stripped.
unfoldable pub stripped_text : Option Value → Option Text
stripped_text (some (text s)) = optional_string (some s)
stripped_text _ = none

abbrev pub subject_keys : List Text
subject_keys =
    codes "source"
    ∷ codes "command"
    ∷ codes "capability"
    ∷ codes "tool_use_id"
    ∷ codes "service"
    ∷ codes "action"
    ∷ []

abbrev renamed : Text → Text
renamed key = if key == codes "action" then codes "interaction_action" else key

subject_texts : List Text → Mapping → Mapping → Mapping
subject_texts [] payload subject = subject
subject_texts (k ∷ ks) payload subject =
    subject_texts ks payload (elim (stripped_text (get k payload)) [
      | none ↦ subject
      | some s ↦ set (renamed k) (text s) subject
    ])

-- `_interaction_subject`
add_scopes : Option Value → Mapping → Result Mapping
unfolding string_list texts
add_scopes (some (array xs)) subject =
    bind (string_list xs) λ ss. ok (set (codes "scopes") (array (texts ss)) subject)
add_scopes _ subject = ok subject

add_details : Option Value → Mapping → Result Mapping
unfolding plain_object
add_details (some (object m)) subject =
    bind (plain_object m) λ n. ok (set (codes "details") (object n) subject)
add_details _ subject = ok subject

unfoldable pub interaction_subject : Mapping → Result Mapping
unfolding subject_texts add_scopes add_details stripped_text
interaction_subject payload =
    bind (add_scopes (get (codes "scopes") payload) (subject_texts subject_keys payload empty))
      λ subject. add_details (get (codes "details") payload) subject

abbrev pub resolution_keys : List Text
resolution_keys =
    codes "approved"
    ∷ codes "authorized"
    ∷ codes "cancelled"
    ∷ codes "reason"
    ∷ codes "actor_id"
    ∷ codes "provider_message_id"
    ∷ []

-- `_resolution_metadata`
resolution_entries : List Text → Mapping → Mapping → Result Mapping
resolution_entries [] payload out = ok out
resolution_entries (k ∷ ks) payload out =
    bind
      (elim (get k payload) [ none ↦ ok out | some v ↦ bind (plain_value v) λ w. ok (set k w out) ])
      λ next. resolution_entries ks payload next

unfoldable pub resolution_metadata : Mapping → Result Mapping
unfolding resolution_entries
resolution_metadata payload = resolution_entries resolution_keys payload empty

-- `",".join(parts)`
unfoldable pub join_commas : List Text → Text
join_commas [] = []
join_commas (s ∷ []) = s
join_commas (s ∷ t ∷ rest) = s ++ codes "," ++ join_commas (t ∷ rest)

-- `_scope_label`, the scopes already checked
unfoldable pub scope_label : Text → List Text → Result Text
unfolding join_commas
scope_label service [] = non_empty_string service
scope_label service (s ∷ ss) = ok (join_commas (s ∷ ss))

-- `_interaction_scope`
abbrev action_scope : Mapping → Option Text
action_scope payload = elim (stripped_text (get (codes "action") payload)) [
  | some a ↦ some a
  | none ↦ stripped_text (get (codes "capability") payload)
]

service_scope : Text → Option Value → Result (Option Text)
unfolding string_list scope_label
service_scope service (some (array xs)) =
    bind (string_list xs) λ ss. bind (scope_label service ss) λ s. ok (some s)
service_scope service _ = ok (some (strip service))

unfoldable pub interaction_scope : Mapping → Result (Option Text)
unfolding service_scope stripped_text
interaction_scope payload = elim (stripped_text (get (codes "service") payload)) [
  | some service ↦ service_scope service (get (codes "scopes") payload)
  | none ↦ ok (action_scope payload)
]

-- `metadata["reason"] = _non_empty_string(reason)`, if there is one
unfoldable pub set_optional : Text → Option Text → Mapping → Result Mapping
set_optional key none m = ok m
set_optional key (some value) m = bind (non_empty_string value) λ s. ok (set key (text s) m)

-- The arguments of `record_interaction_decision`; `status` is the text of the status.
pub record InteractionDecision : Type 0 where
  pub correlation_id : Text
  pub kind : Text
  pub status : Text
  pub responder_id : Text
  pub principal_id : Text
  pub session_id : Text
  pub payload : Mapping
  pub resolution_payload : Mapping
  pub reason : Option Text

unfoldable pub interaction_event : InteractionDecision → Result AuditEvent
unfolding interaction_subject resolution_metadata interaction_scope set_optional
interaction_event d = bind (non_empty_string d.kind) λ kind.
    bind (non_empty_string d.correlation_id) λ correlation_id.
      bind (interaction_subject d.payload) λ subject.
        bind (resolution_metadata d.resolution_payload) λ resolution.
          bind
            (set_optional (codes "reason") d.reason (
              set (codes "resolution") (object resolution) (
                merge
                  (entry (codes "correlation_id") (text correlation_id) (
                    entry (codes "kind") (text kind)
                      (entry (codes "status") (text d.status) empty)))
                  subject)))
            λ metadata. bind (non_empty_string d.responder_id) λ actor_id.
              bind (non_empty_string d.principal_id) λ principal_id.
                bind (non_empty_string d.session_id) λ session_id.
                  bind (interaction_scope d.payload) λ scope. bind (plain_object metadata) λ plain.
                    ok (record {
                      event_type = codes "interaction_decision";
                      actor_id = some actor_id;
                      principal_id = some principal_id;
                      session_id = some session_id;
                      scope = scope;
                      action = some (kind ++ codes "." ++ d.status);
                      metadata = plain;
                    })

unfoldable pub record_interaction_decision : Instant → InteractionDecision → Action Db AuditRecord
unfolding interaction_event
record_interaction_decision now d = do
  event ← lift (interaction_event d)
  append_audit_log now event none
