-- ===== src/Interrupt/Decision.antt =====
-- `resolve` and `cancel` up to their writes: the record is loaded, and the interrupt decides.
use im_assistant.Prelude.{
  ◌≡◌, sym, ◌∙◌, subst, Bool, true, false, Option, none, some, Text, Result, ok, find,
  non_empty_string, non_empty_string-fixed, continue-eq-ok, continue-lift-ok, arith, ◌≤◌,
  Result-cases, inl, inr, bind-eq-ok, eq_iff, Action, lift, ◌>>=◌,
}
use im_assistant.Prelude.Table.Reads.{find-holds}
use im_assistant.Instant.{Instant}
use im_assistant.Json.{Mapping}
use im_assistant.Store.Records.{InteractionRecord, resolved, cancelled, Db}
use im_assistant.Store.Interactions.{has_correlation, is_pending, get_pending_interaction}
use im_assistant.Interrupt.{
  SessionInterrupt, InterruptResolution, resolve, cancel, session_interrupt,
}
use im_assistant.Interrupt.Manager.{active_record, interrupt_from_record, finish}
use im_assistant.Interrupt.Finish.{Closes}

-- The record that `resolve` and `cancel` act on.
pub record IsLoaded (cid key : Text) (r : InteractionRecord) (i : SessionInterrupt) (db : Db)
    : Type 0 where
  pub normal : non_empty_string cid ≡ ok key
  pub found : find (has_correlation key) db.interactions ≡ some r
  pub active : is_pending r.status ≡ true
  pub loaded : interrupt_from_record r ≡ ok i

active_record-ok :
    (o : Option InteractionRecord) (r : InteractionRecord)
    → active_record o ≡ ok r
    → (o ≡ some r) × (is_pending r.status ≡ true)
active_record-ok none r h = cc
active_record-ok (some q) r h = ground arith

-- The interrupt has the key and the responder of its row.
pub loaded_fields :
    (cid key : Text) (r : InteractionRecord) (i : SessionInterrupt) (db : Db)
    → IsLoaded cid key r i db
    → (i.correlation_id ≡ key)
      × (non_empty_string r.responder_id ≡ ok i.responder)
      × (i.expires_at ≡ r.expires_at)
unfolding interrupt_from_record session_interrupt
loaded_fields cid key r i db l = ground (
  arith,
  l.loaded,
  non_empty_string-fixed cid key l.normal,
  eq_iff r.correlation_id key,
  find-holds (has_correlation key) db.interactions r l.found,
)

pub resolve_fields :
    (i : SessionInterrupt) (reply : Option Mapping) (responder : Text) (now : Instant)
    (d : InterruptResolution)
    → resolve i reply responder now ≡ ok d
    → (d.correlation_id ≡ i.correlation_id)
      × (d.status ≡ resolved)
      × (non_empty_string responder ≡ ok i.responder)
      × (now ≤ i.expires_at)
unfolding resolve
resolve_fields i reply responder now d h =
    let (r, e, h') = bind-eq-ok (non_empty_string responder) _ h in
    ground (arith, e, h', eq_iff r i.responder)

pub cancel_fields :
    (i : SessionInterrupt) (reason : Text) (reply : Option Mapping) (responder : Text)
    (require_responder allow_expired : Bool) (now : Instant) (d : InterruptResolution)
    → cancel i reason reply responder require_responder allow_expired now ≡ ok d
    → (d.correlation_id ≡ i.correlation_id)
      × (d.status ≡ cancelled)
      × (require_responder ≡ true → non_empty_string responder ≡ ok i.responder)
      × (allow_expired ≡ false → now ≤ i.expires_at)
unfolding cancel
cancel_fields i reason reply responder require_responder allow_expired now d h =
    let (r, e, h') = bind-eq-ok (non_empty_string responder) _ h in
    ground (arith, e, h', eq_iff r i.responder)

pub Closes-decided :
    (cid key : Text) (r : InteractionRecord) (i : SessionInterrupt) (db : Db)
    (d : InterruptResolution)
    → IsLoaded cid key r i db
    → d.correlation_id ≡ i.correlation_id
    → is_pending d.status ≡ false
    → Closes key r d db
Closes-decided cid key r i db d l e t = record {
  normal = non_empty_string-fixed cid key l.normal;
  found = l.found;
  active = l.active;
  same_key = e ∙ (loaded_fields cid key r i db l).0;
  terminal = t;
}

-- The first part of both methods: the record is loaded, or the call raises.
abbrev pub decide_then :
    Bool
    → Instant
    → Text
    → (SessionInterrupt → Result InterruptResolution)
    → Action Db InterruptResolution
decide_then audited now cid decide = do
  found ← get_pending_interaction cid
  r ← lift (active_record found)
  i ← lift (interrupt_from_record r)
  d ← lift (decide i)
  finish audited now r d

get_pending_interaction-ok :
    (k : Text) (db db' : Db) (o : Option InteractionRecord)
    → get_pending_interaction k db ≡ (ok o, db')
    → (key : Text) × (non_empty_string k ≡ ok key)
      × (find (has_correlation key) db.interactions ≡ o)
      × (db ≡ db')
unfolding get_pending_interaction
get_pending_interaction-ok k db db' o h = elim (Result-cases (non_empty_string k)) [
  | inl (key, e) ↦ (key, e, ground arith, ground arith)
  | inr (x, e) ↦ absurd (ground arith)
]

pub decide_then-ok :
    (audited : Bool) (now : Instant) (cid : Text)
    (decide : SessionInterrupt → Result InterruptResolution) (d : InterruptResolution) (db db' : Db)
    → decide_then audited now cid decide db ≡ (ok d, db')
    → (key : Text) × (r : InteractionRecord) × (i : SessionInterrupt) × (x : InterruptResolution)
      × IsLoaded cid key r i db
      × (decide i ≡ ok x)
      × (finish audited now r x db ≡ (ok d, db'))
decide_then-ok audited now cid decide d db db' h =
    let (found, u, e, h1) = continue-eq-ok (get_pending_interaction cid db) _ h in
    let (key, normal, is_found, same) = get_pending_interaction-ok cid db u found e in
    let (r, active, h2) = continue-lift-ok (active_record found) _ h1 in
    let (is_row, is_active) = active_record-ok found r active in
    let (i, load, h3) = continue-lift-ok (interrupt_from_record r) _ h2 in
    let (x, decided, h4) = continue-lift-ok (decide i) _ h3 in
    (
      key,
      r,
      i,
      x,
      record { normal = normal; found = is_found ∙ is_row; active = is_active; loaded = load },
      decided,
      subst (λ s. finish audited now r x s ≡ (ok d, db')) (sym same) h4,
    )
