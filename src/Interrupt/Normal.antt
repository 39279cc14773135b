-- ===== src/Interrupt/Normal.antt =====
-- An interrupt is in normal form, so that the row that keeps it is read back as the same interrupt.
use im_assistant.Prelude.{
  ◌≡◌, refl, Text, ◌==◌, ok, bind-eq-ok, ok-injective, non_empty_string, non_empty_string-fixed,
  strip, arith, subst,
}
use im_assistant.Instant.{Instant}
use im_assistant.Json.{Mapping}
use im_assistant.Json.Plain.{plain_object}
use im_assistant.Json.Fixed.{plain_object-fixed}
use im_assistant.Session.{Session}
use im_assistant.Store.Records.{InteractionRecord}
use im_assistant.Store.Interactions.{interaction_row, pending_interaction_kind}
use im_assistant.Interrupt.{
  InterruptKind, confirm, consent, SessionInterrupt, kind_text, interrupt_kind, session_interrupt,
}
use im_assistant.Interrupt.Manager.{interaction_of, interrupt_from_record}

pub record IsNormal (i : SessionInterrupt) : Type 0 where
  pub payload : plain_object i.payload ≡ ok i.payload
  pub correlation_id : non_empty_string i.correlation_id ≡ ok i.correlation_id
  pub responder : non_empty_string i.responder ≡ ok i.responder

interrupt_kind-kind_text : (k : InterruptKind) → interrupt_kind (kind_text k) ≡ ok k
unfolding interrupt_kind non_empty_string strip ◌==◌
interrupt_kind-kind_text confirm = refl
interrupt_kind-kind_text consent = refl

pending_interaction_kind-kind_text :
    (k : InterruptKind) → pending_interaction_kind (kind_text k) ≡ ok (kind_text k)
unfolding pending_interaction_kind non_empty_string strip ◌==◌
pending_interaction_kind-kind_text confirm = refl
pending_interaction_kind-kind_text consent = refl

pub session_interrupt-IsNormal :
    (kind : Text) (payload : Mapping) (cid responder : Text) (at : Instant) (i : SessionInterrupt)
    → session_interrupt kind payload cid responder at ≡ ok i
    → IsNormal i × (non_empty_string cid ≡ ok i.correlation_id)
unfolding session_interrupt
session_interrupt-IsNormal kind payload cid responder at i h =
    let (k, e1, h1) = bind-eq-ok (interrupt_kind kind) _ h in
    let (p, e2, h2) = bind-eq-ok (plain_object payload) _ h1 in
    let (c, e3, h3) = bind-eq-ok (non_empty_string cid) _ h2 in
    let (r, e4, h4) = bind-eq-ok (non_empty_string responder) _ h3 in
    subst (λ j. IsNormal j × (non_empty_string cid ≡ ok j.correlation_id)) (ok-injective h4)
      (
        record {
          payload = plain_object-fixed payload p e2;
          correlation_id = non_empty_string-fixed cid c e3;
          responder = non_empty_string-fixed responder r e4;
        },
        e3,
      )

-- The row of an interrupt, whatever its session, is read back as the interrupt.
pub interrupt_from_record-interaction_of :
    (now : Instant) (s : Session) (i : SessionInterrupt) (row : InteractionRecord)
    → IsNormal i
    → interaction_row now (interaction_of s i) ≡ ok row
    → (interrupt_from_record row ≡ ok i) × (row.correlation_id ≡ i.correlation_id)
unfolding interaction_row interrupt_from_record session_interrupt
interrupt_from_record-interaction_of now s i row n h = ground (
  arith,
  n.payload,
  n.correlation_id,
  n.responder,
  interrupt_kind-kind_text i.kind,
  pending_interaction_kind-kind_text i.kind,
)
