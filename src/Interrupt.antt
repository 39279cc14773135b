-- ===== src/Interrupt.antt =====
-- The out-of-band interactions of a Session (src/core/interrupt.py): the value objects and their
-- terminal decisions. The manager that persists them is in Interrupt/Manager.
pub mod Manager
pub mod Normal
pub mod RoundTrip
pub mod Finish
pub mod Decision
pub mod Once
pub mod Writes
pub mod Resume
pub mod Returns
mod Tests
use im_assistant.Prelude.{
  ◌<◌, Bool, true, false, not, ◌&&◌, Option, none, some, Text, codes, ◌==◌, Result, ok, err, bind,
  value_error, responder_mismatch, interrupt_expired, non_empty_string, or_default, ltb,
  if◌then◌else◌,
}
use im_assistant.Instant.{Instant, isoformat}
use im_assistant.Json.{Value, text, object, Mapping, empty, entry, set}
use im_assistant.Json.Plain.{plain_object}
use im_assistant.Store.Records.{InteractionStatus, resolved, cancelled}

pub data InterruptKind : Type 0 where
  confirm consent : InterruptKind

abbrev pub kind_text : InterruptKind → Text
kind_text confirm = codes "confirm"
kind_text consent = codes "consent"

abbrev pub status_text : InteractionStatus → Text
status_text InteractionStatus.pending = codes "pending"
status_text resolved = codes "resolved"
status_text cancelled = codes "cancelled"

-- `_interrupt_kind`
unfoldable pub interrupt_kind : Text → Result InterruptKind
interrupt_kind kind = bind (non_empty_string kind) λ k.
    if k == codes "confirm"
    then ok confirm
    else if k == codes "consent"
    then ok consent
    else err value_error

pub record SessionInterrupt : Type 0 where
  pub kind : InterruptKind
  pub payload : Mapping
  pub correlation_id : Text
  pub responder : Text
  pub expires_at : Instant

pub record InterruptResolution : Type 0 where
  pub correlation_id : Text
  pub kind : InterruptKind
  pub status : InteractionStatus
  pub responder : Text
  pub payload : Mapping
  pub reason : Option Text
  pub resolved_at : Instant

-- `SessionInterrupt(…)` with its `__post_init__`
unfoldable pub session_interrupt : Text → Mapping → Text → Text → Instant → Result SessionInterrupt
session_interrupt kind payload correlation_id responder expires_at = bind (interrupt_kind kind) λ k.
    bind (plain_object payload) λ p. bind (non_empty_string correlation_id) λ c.
      bind (non_empty_string responder) λ r. ok (record {
        kind = k;
        payload = p;
        correlation_id = c;
        responder = r;
        expires_at = expires_at;
      })

-- `SessionInterrupt.resolve`, at the time `now`
unfoldable pub resolve :
    SessionInterrupt → Option Mapping → Text → Instant → Result InterruptResolution
resolve i reply responder now = bind (non_empty_string responder) λ r.
    if not (r == i.responder)
    then err responder_mismatch
    else if ltb i.expires_at now
    then err interrupt_expired
    else bind (plain_object (or_default reply empty)) λ p. ok (record {
      correlation_id = i.correlation_id;
      kind = i.kind;
      status = resolved;
      responder = r;
      payload = p;
      reason = none;
      resolved_at = now;
    })

-- `SessionInterrupt.cancel`
unfoldable pub cancel :
    SessionInterrupt
    → Text
    → Option Mapping
    → Text
    → Bool
    → Bool
    → Instant
    → Result InterruptResolution
cancel i reason reply responder require_responder allow_expired now =
    bind (non_empty_string responder) λ r.
      if require_responder && not (r == i.responder)
      then err responder_mismatch
      else if ltb i.expires_at now && not allow_expired
      then err interrupt_expired
      else bind (plain_object (or_default reply empty)) λ p. bind (non_empty_string reason) λ why.
        ok (record {
          correlation_id = i.correlation_id;
          kind = i.kind;
          status = cancelled;
          responder = r;
          payload = p;
          reason = some why;
          resolved_at = now;
        })

-- `SessionInterrupt.to_context`
unfoldable pub to_context : SessionInterrupt → Mapping
to_context i = entry (codes "kind") (text (kind_text i.kind)) (
    entry (codes "correlation_id") (text i.correlation_id) (
      entry (codes "responder") (text i.responder) (
        entry (codes "expires_at") (text (isoformat i.expires_at))
          (entry (codes "payload") (object i.payload) empty))))

abbrev with_reason : Option Text → Mapping → Mapping
with_reason none m = m
with_reason (some why) m = set (codes "reason") (text why) m

-- `InterruptResolution.to_record_payload`, once its payload is copied
unfoldable pub record_payload : InterruptResolution → Mapping → Mapping
record_payload d p = set (codes "resolved_at") (text (isoformat d.resolved_at)) (
    with_reason d.reason (
      entry (codes "kind") (text (kind_text d.kind)) (
        entry (codes "status") (text (status_text d.status)) (
          entry (codes "responder") (text d.responder)
            (entry (codes "payload") (object p) empty)))))

unfoldable pub to_record_payload : InterruptResolution → Result Mapping
to_record_payload d = bind (plain_object d.payload) λ p. ok (record_payload d p)
