-- ===== src/Interrupt/Tests.antt =====
-- Runs of the interrupts on one Session, and the theorems at those runs.
use im_assistant.Prelude.{
  ◌+◌, ◌≤◌, ◌⊎◌, interrupt_not_found, ◌≡◌, refl, true, false, none, some, codes, ok, err,
  responder_mismatch, interrupt_expired, is_space, lstrip, rcons, rstrip, strip, ◌==◌,
  non_empty_string, optional_string, find, update, count, exists,
}
use im_assistant.Instant.{isoformat, seconds}
use im_assistant.Json.{text, object, empty, entry, get as lookup, set, pop, truthy, merge}
use im_assistant.Json.Plain.{plain_value, plain_items, plain_fields, plain_object}
use im_assistant.Session.{awaiting_interaction}
use im_assistant.Store.Records.{Db, InteractionRecord, SessionRecord, pending, resolved, cancelled}
use im_assistant.Store.Sessions.{
  has_session_id, put_session, get_session, session_row, upsert_session,
}
use im_assistant.Store.Interactions.{
  pending_interaction_kind, terminal_status, get_pending_interaction, interaction_row,
  create_pending_interaction, resolve_pending_interaction,
}
use im_assistant.Audit.{record_interaction_decision}
use im_assistant.Store.AuditLog.{append_audit_log}
use im_assistant.Interrupt.{
  InterruptKind, SessionInterrupt, InterruptResolution, interrupt_kind, session_interrupt, resolve,
  cancel, to_context, record_payload, to_record_payload,
}
use im_assistant.Interrupt.Manager.{
  pending_key, session_record_with_state, context_with_interrupt, context_without_interrupt,
  interrupt_from_record, new_interrupt, suspend, create, get, record_decision, finish,
  resolve_interrupt, cancel_interrupt,
}
use im_assistant.Interrupt.RoundTrip.{IsSuspended, create-get}
use im_assistant.Store.Interactions.Later.{Later}
use im_assistant.Interrupt.Writes.{create-Later}
use im_assistant.Interrupt.Once.{
  IsSettled, resolve_interrupt-IsSettled, cancel_interrupt-IsSettled, resolve_interrupt_once,
}
use im_assistant.Interrupt.Resume.{IsResumed, resolve_interrupt-create}
use im_assistant.Interrupt.Decision.{IsLoaded}
use im_assistant.Interrupt.Returns.{resolve_interrupt_returns}
use im_assistant.Store.Sessions.Unique.{IsValidTable}
use im_assistant.Samples.{s1_row, noon, s1, with_s1, payload}

program : Unit {0}
unfolding is_space lstrip rcons rstrip strip ◌==◌ non_empty_string optional_string find update count
    exists isoformat lookup set pop truthy merge plain_value plain_items plain_fields plain_object
    put_session get_session session_row upsert_session pending_interaction_kind terminal_status
    get_pending_interaction interaction_row create_pending_interaction resolve_pending_interaction
    interrupt_kind session_interrupt resolve cancel to_context record_payload to_record_payload
    session_record_with_state context_with_interrupt context_without_interrupt interrupt_from_record
    new_interrupt suspend create get record_decision finish resolve_interrupt cancel_interrupt
    record_interaction_decision append_audit_log
program = tt

abbrev asked : SessionInterrupt
asked = record {
  kind = InterruptKind.confirm;
  payload = entry (codes "action") (text (codes "create_doc")) empty;
  correlation_id = codes "k1";
  responder = codes "u1";
  expires_at = noon + seconds 600;
}

abbrev suspended : Db
suspended = (create noon s1 InterruptKind.confirm payload (codes " k1") none none 600 with_s1).1

asked_made :
    create noon s1 InterruptKind.confirm payload (codes " k1") none none 600 with_s1
    ≡ (ok asked, suspended)
unfolding program
asked_made = refl

create-get_example :
    (get (codes " k1") suspended ≡ (ok (some asked), suspended)) × IsSuspended s1 asked suspended
create-get_example =
    create-get noon s1 InterruptKind.confirm payload (codes " k1") none none 600 asked with_s1
      suspended asked_made

abbrev answered : InterruptResolution
answered = record {
  correlation_id = codes "k1";
  kind = InterruptKind.confirm;
  status = resolved;
  responder = codes "u1";
  payload = empty;
  reason = none;
  resolved_at = noon + 1;
}

abbrev after_answer : Db
after_answer = (resolve_interrupt true (noon + 1) (codes "k1") none (codes "u1 ") suspended).1

answer_made :
    resolve_interrupt true (noon + 1) (codes "k1") none (codes "u1 ") suspended
    ≡ (ok answered, after_answer)
unfolding program
answer_made = refl

answer_spaced :
    resolve_interrupt true (noon + 1) (codes " k1") none (codes "u1 ") suspended
    ≡ (ok answered, after_answer)
unfolding program
answer_spaced = refl

-- Somebody else's answer, and an answer that comes too late.
answer_refused :
    (resolve_interrupt true (noon + 1) (codes "k1") none (codes "u2") suspended
      ≡ (err responder_mismatch, suspended))
    × (resolve_interrupt true (noon + seconds 601) (codes "k1") none (codes "u1") suspended
        ≡ (err interrupt_expired, suspended))
unfolding program
answer_refused = (refl, refl)

resolve_interrupt-IsSettled_example :
    (r : InteractionRecord) × IsSettled (codes "k1") r answered suspended after_answer
    × (answered.status ≡ resolved)
    × (non_empty_string (codes "u1 ") ≡ non_empty_string r.responder_id)
    × (noon + 1 ≤ r.expires_at)
resolve_interrupt-IsSettled_example =
    resolve_interrupt-IsSettled true (noon + 1) (codes "k1") none (codes "u1 ") answered suspended
      after_answer answer_made

-- A second interrupt of the same Session, asked for after the first is answered.
abbrev asked_again : Db
asked_again =
    (create (noon + 2) s1 InterruptKind.confirm payload (codes "k2") none none 600 after_answer).1

asked-Later : Later (codes "k1") after_answer asked_again
asked-Later =
    create-Later (codes "k1") (noon + 2) s1 InterruptKind.confirm payload (codes "k2") none none 600
      after_answer

resolve_interrupt_once_example :
    (resolve_interrupt true (noon + 3) (codes "k1") none (codes "u1") asked_again
      ≡ (err interrupt_not_found, asked_again))
    × (cancel_interrupt true
          (noon + 3)
          (codes "k1")
          (codes "late")
          none
          (codes "u1")
          true
          false
          asked_again
        ≡ (err interrupt_not_found, asked_again))
resolve_interrupt_once_example =
    resolve_interrupt_once true true (noon + 1) (noon + 3) (codes "k1") none none (codes "u1 ")
      (codes "u1") (codes "late") true false answered suspended after_answer asked_again answer_made
      asked-Later

resolve_interrupt-create_example : IsResumed s1 after_answer
resolve_interrupt-create_example =
    resolve_interrupt-create noon s1 InterruptKind.confirm payload (codes " k1") none none 600 asked
      with_s1 suspended after_answer true (noon + 1) none (codes "u1 ") answered asked_made
      answer_spaced

abbrev dropped : InterruptResolution
dropped = record answered {
  status = cancelled;
  responder = codes "u2";
  reason = some (codes "done");
  resolved_at = noon;
}

abbrev after_drop : Db
after_drop =
    (cancel_interrupt true noon (codes "k1") (codes "done ") none (codes "u2") false true
      suspended).1

drop_made :
    cancel_interrupt true noon (codes "k1") (codes "done ") none (codes "u2") false true suspended
    ≡ (ok dropped, after_drop)
unfolding program
drop_made = refl

cancel_interrupt-IsSettled_example :
    (r : InteractionRecord) × IsSettled (codes "k1") r dropped suspended after_drop
    × (dropped.status ≡ cancelled)
    × ((false ≡ false) ⊎ (non_empty_string (codes "u2") ≡ non_empty_string r.responder_id))
    × ((true ≡ true) ⊎ (noon ≤ r.expires_at))
cancel_interrupt-IsSettled_example =
    cancel_interrupt-IsSettled true noon (codes "k1") (codes "done ") none (codes "u2") false true
      dropped suspended after_drop drop_made

abbrev asked_row : InteractionRecord
asked_row = record {
  correlation_id = codes "k1";
  session_id = codes "s1";
  kind = codes "confirm";
  responder_id = codes "u1";
  expires_at = noon + seconds 600;
  payload = asked.payload;
  status = pending;
  resolution = none;
  created_at = some noon;
  resolved_at = none;
}

abbrev waiting : SessionRecord
waiting = record s1_row {
  state = awaiting_interaction;
  context = set pending_key (object (to_context asked)) s1.context;
}

suspended-IsValidTable : IsValidTable suspended.sessions
unfolding program
suspended-IsValidTable = record {
  normal = (
    record { session_id = refl; conversation_id = refl; bot_id = refl; principal_id = refl },
    tt,
  );
  keyed = (tt, tt);
  unique = (tt, tt);
}

asked-IsLoaded : IsLoaded (codes " k1") (codes "k1") asked_row asked suspended
unfolding program
asked-IsLoaded = record { normal = refl; found = refl; active = refl; loaded = refl }

answer_accepted : resolve asked none (codes "u1 ") (noon + 1) ≡ ok answered
unfolding program
answer_accepted = refl

s1_normal : non_empty_string (codes "s1") ≡ ok (codes "s1")
unfolding program
s1_normal = refl

s1_waiting : find (has_session_id (codes "s1")) suspended.sessions ≡ some waiting
unfolding program
s1_waiting = refl

resolve_interrupt_returns_example :
    (db' : Db) × (resolve_interrupt false (noon + 1) (codes " k1") none (codes "u1 ") suspended
      ≡ (ok answered, db'))
resolve_interrupt_returns_example =
    resolve_interrupt_returns (noon + 1) (codes " k1") (codes "k1") none (codes "u1 ") suspended
      asked_row asked answered (codes "s1") waiting suspended-IsValidTable asked-IsLoaded
      answer_accepted s1_normal s1_waiting

drop_accepted : cancel asked (codes "done ") none (codes "u2") false true noon ≡ ok dropped
unfolding program
drop_accepted = refl
