-- ===== src/Store/Tests.antt =====
-- Runs of the repository on small tables, and the theorems at those runs.
use im_assistant.Prelude.{
  arith, eq_iff, ◌-◌, ◌+◌, ◌≡◌, refl, true, false, none, some, List, [], ◌∷◌, ◌++◌, Text, codes, ok,
  err, is_space, lstrip, rcons, rstrip, strip, ◌==◌, integrity_error, non_empty_string,
  optional_string, find, select, delete, update, count, exists, drop, length,
}
use im_assistant.Instant.{seconds}
use im_assistant.Json.{text, empty, entry, set}
use im_assistant.Json.Plain.{plain_value, plain_items, plain_fields, plain_object}
use im_assistant.Session.{idle}
use im_assistant.Store.Records.{
  Db, InteractionRecord, SessionRecord, MessageRecord, MessageRole, InboundRecord, pending,
}
use im_assistant.Store.Sessions.{
  has_session_id, put_session, get_session, session_row, upsert_session, delete_session,
}
use im_assistant.Store.Sessions.Unique.{IsValidTable}
use im_assistant.Store.Messages.{
  in_session, positive_int, add_message, list_messages, list_recent_messages,
  delete_messages_for_session,
}
use im_assistant.Store.Messages.Append.{stored_message, list_messages-add_message}
use im_assistant.Store.Messages.Window.{list_recent_messages_window}
use im_assistant.Store.Messages.Ids.{
  MessageCall, IsNumbered, after_message_call, after_message_call-IsNumbered,
}
use im_assistant.Store.Inbound.{
  is_inbound, mark, claim_row, try_claim_inbound_message, get_inbound_message,
  mark_inbound_message_processed, release_inbound_message_claim,
  release_processing_inbound_messages,
}
use im_assistant.Store.Inbound.Claims.{Call, after_all, after_all-processed}
use im_assistant.Store.Interactions.{
  pending_interaction_kind, interaction_row, get_pending_interaction, create_pending_interaction,
}
use im_assistant.Store.AuditLog.{AuditEvent, append_audit_log, list_audit_logs}
use im_assistant.Samples.{no_rows, noon, s1_row, with_s1, payload}

program : Unit {0}
unfolding is_space lstrip rcons rstrip strip ◌==◌ non_empty_string optional_string find select
    delete update count exists set plain_value plain_items plain_fields plain_object put_session
    get_session session_row upsert_session delete_session positive_int add_message list_messages
    list_recent_messages delete_messages_for_session try_claim_inbound_message get_inbound_message
    mark_inbound_message_processed release_inbound_message_claim release_processing_inbound_messages
    pending_interaction_kind interaction_row get_pending_interaction create_pending_interaction
    append_audit_log list_audit_logs
program = tt

-- The white space that Python strips, and none of the rest.
strip_test :
    (strip (codes " \ta b ") ≡ codes "a b") × (strip (0x3000 ∷ 0x200b ∷ 0x85 ∷ []) ≡ 0x200b ∷ [])
unfolding program
strip_test = (refl, refl)

payload_plain : plain_object payload ≡ ok (entry (codes "action") (text (codes "create_doc")) empty)
unfolding program
payload_plain = refl

-- Sessions

abbrev moved : SessionRecord
moved = record s1_row { session_id = codes " s1"; state = idle; created_at = none }

abbrev moved_stored : SessionRecord
moved_stored = record moved { session_id = codes "s1"; created_at = some noon; updated_at = some 7 }

abbrev rival : SessionRecord
rival = record s1_row { session_id = codes "s2" }

moved_made : upsert_session 7 moved with_s1 ≡ (ok moved_stored, (upsert_session 7 moved with_s1).1)
unfolding program
moved_made = refl

rival_refused : upsert_session 7 rival with_s1 ≡ (err integrity_error, with_s1)
unfolding program
rival_refused = refl

with_s1-IsValidTable : IsValidTable with_s1.sessions
unfolding program
with_s1-IsValidTable = record {
  normal = (
    record { session_id = refl; conversation_id = refl; bot_id = refl; principal_id = refl },
    tt,
  );
  keyed = (tt, tt);
  unique = (tt, tt);
}

abbrev quiet : SessionRecord
quiet = record s1_row { state = idle; context = empty }

s1_found : find (has_session_id (codes "s1")) with_s1.sessions ≡ some s1_row
unfolding program
s1_found = refl

-- Messages

abbrev said : MessageRecord
said = record {
  message_id = 1;
  session_id = codes "s1 ";
  role = MessageRole.user;
  content = codes "hello ";
  actor_id = none;
  provider_message_id = none;
  metadata = empty;
  created_at = noon;
}

abbrev with_said : Db
with_said =
    (add_message noon (codes "s1 ") MessageRole.user (codes "hello ") none none empty none
      with_s1).1

said_made :
    add_message noon (codes "s1 ") MessageRole.user (codes "hello ") none none empty none with_s1
    ≡ (ok said, with_said)
unfolding program
said_made = refl

s1_id : non_empty_string (codes "s1 ") ≡ ok (codes "s1")
unfolding program
s1_id = refl

hello_stripped : non_empty_string (codes "hello ") ≡ ok (codes "hello")
unfolding program
hello_stripped = refl

s2_id : non_empty_string (codes "s2") ≡ ok (codes "s2")
unfolding program
s2_id = refl

s2_other : codes "s2" ≡ codes "s1" → ⊥
unfolding program
s2_other h = ground (arith, (eq_iff (codes "s2") (codes "s1")).1 h)

list_messages-add_message_example :
    (list_messages (codes "s1 ") none with_said ≡ (
      ok (
          select (in_session (codes "s1")) with_s1.messages
          ++ stored_message (codes "s1") (codes "hello") said ∷ []),
      with_said,
    ))
    × ((list_messages (codes "s2") none with_said).0 ≡ (list_messages (codes "s2") none with_s1).0)
list_messages-add_message_example =
    list_messages-add_message noon (codes "s1 ") (codes "s1") MessageRole.user (codes "hello ")
      (codes "hello") none none empty none said (codes "s2") (codes "s2") with_s1 with_said s1_id
      hello_stripped s2_id s2_other said_made

list_recent_messages_window_example :
    let rows = select (in_session (codes "s1")) with_said.messages in
    list_recent_messages (codes "s1 ") 5 with_said ≡ (ok (drop (length rows - 5) rows), with_said)
list_recent_messages_window_example =
    list_recent_messages_window (codes "s1 ") (codes "s1") 4 with_said s1_id

after_message_call-IsNumbered_example : IsNumbered (
    after_message_call
      (MessageCall.add noon (codes "s1 ") MessageRole.user (codes "hello ") none none empty none)
      with_s1)
after_message_call-IsNumbered_example =
    after_message_call-IsNumbered
      (MessageCall.add noon (codes "s1 ") MessageRole.user (codes "hello ") none none empty none)
      with_s1 (record { ascending = tt; given = tt })

-- Inbound messages

abbrev dingtalk : Text
dingtalk = codes "dingtalk"

abbrev claimed : Db
claimed = (try_claim_inbound_message noon dingtalk (codes "m1") (codes "c1") empty none no_rows).1

abbrev completed : Db
completed = (mark_inbound_message_processed 9 dingtalk (codes "m1") none claimed).1

abbrev done_row : InboundRecord
done_row = mark 9 (claim_row noon dingtalk (codes "m1") (codes "c1") empty none)

dingtalk_id : non_empty_string dingtalk ≡ ok dingtalk
unfolding program
dingtalk_id = refl

m1_id : non_empty_string (codes "m1") ≡ ok (codes "m1")
unfolding program
m1_id = refl

c1_id : non_empty_string (codes "c1") ≡ ok (codes "c1")
unfolding program
c1_id = refl

m1_claimed :
    try_claim_inbound_message noon dingtalk (codes "m1") (codes "c1") empty none no_rows
    ≡ (ok true, claimed)
unfolding program
m1_claimed = refl

m1_done : find (is_inbound dingtalk (codes "m1")) completed.inbound ≡ some done_row
unfolding program
m1_done = refl

abbrev later_calls : List Call
later_calls =
    Call.release dingtalk (codes "m1")
    ∷ Call.recover none
    ∷ Call.complete 11 dingtalk (codes "m1") none
    ∷ []

after_all-processed_example :
    (find (is_inbound dingtalk (codes "m1")) (after_all later_calls completed).inbound
      ≡ some done_row)
    × (try_claim_inbound_message 12 dingtalk
          (codes "m1")
          (codes "c1")
          empty
          none
          (after_all later_calls completed)
        ≡ (ok false, after_all later_calls completed))
after_all-processed_example =
    after_all-processed later_calls 12 dingtalk (codes "m1") (codes "c1") empty none dingtalk
      (codes "m1") (codes "c1") done_row completed dingtalk_id m1_id c1_id m1_done refl

-- Interactions and the audit log

abbrev wanted : InteractionRecord
wanted = record {
  correlation_id = codes "k1 ";
  session_id = codes "s1";
  kind = codes "confirm";
  responder_id = codes "u1";
  expires_at = noon + seconds 600;
  payload = empty;
  status = pending;
  resolution = none;
  created_at = none;
  resolved_at = none;
}

-- A correlation id that is taken, and a session that is missing.
wanted_refused :
    let taken = (create_pending_interaction noon wanted with_s1).1 in
    (create_pending_interaction noon wanted taken ≡ (err integrity_error, taken))
    × (create_pending_interaction noon wanted no_rows ≡ (err integrity_error, no_rows))
unfolding program
wanted_refused = (refl, refl)

abbrev event : Text → AuditEvent
event t = record {
  event_type = t;
  actor_id = none;
  principal_id = none;
  session_id = none;
  scope = none;
  action = none;
  metadata = empty;
}

abbrev one_event : Db
one_event = (append_audit_log noon (event (codes "a")) none no_rows).1

abbrev two_events : Db
two_events = (append_audit_log 9 (event (codes "b")) none one_event).1

-- A listing of one event shows the first that was written, whatever was written since.
oldest_shown : (list_audit_logs 1 two_events).0 ≡ (list_audit_logs 1 one_event).0
unfolding program
oldest_shown = refl
