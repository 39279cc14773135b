-- ===== src/Interrupt/Once.antt =====
-- An interrupt is settled by its responder, before it expires, and once.
use im_assistant.Prelude.{
  ◌≡◌, sym, ap, ◌∙◌, subst, Bool, true, false, Option, some, Text, Result, ok, err, find,
  non_empty_string, arith, ◌≤◌, Bool-cases, inl, inr, ◌⊎◌, interrupt_not_found,
}
use im_assistant.Instant.{Instant}
use im_assistant.Json.{Mapping}
use im_assistant.Store.Records.{InteractionRecord, resolved, cancelled, Db}
use im_assistant.Store.Interactions.{has_correlation, is_pending, get_pending_interaction}
use im_assistant.Store.Interactions.Later.{IsTerminal, Later, Later-IsTerminal}
use im_assistant.Interrupt.{SessionInterrupt, InterruptResolution, resolve, cancel}
use im_assistant.Interrupt.Manager.{resolve_interrupt, cancel_interrupt}
use im_assistant.Interrupt.Decision.{
  loaded_fields, resolve_fields, cancel_fields, Closes-decided, decide_then, decide_then-ok,
}
use im_assistant.Interrupt.Finish.{IsFinished, finish-IsFinished}

-- What a settled interrupt leaves behind: its row, as it was, and the writes of `finish`.
pub record IsSettled (cid : Text) (r : InteractionRecord) (d : InterruptResolution) (db db' : Db)
    : Type 0 where
  pub key : Text
  pub normal : non_empty_string cid ≡ ok key
  pub found : find (has_correlation key) db.interactions ≡ some r
  pub active : is_pending r.status ≡ true
  pub finished : IsFinished key r d db db'

decide_then-IsSettled :
    (audited : Bool) (now : Instant) (cid : Text)
    (decide : SessionInterrupt → Result InterruptResolution) (d : InterruptResolution) (db db' : Db)
    → ((i : SessionInterrupt) (x : InterruptResolution)
        → decide i ≡ ok x
        → (x.correlation_id ≡ i.correlation_id) × (is_pending x.status ≡ false))
    → decide_then audited now cid decide db ≡ (ok d, db')
    → (r : InteractionRecord) × (i : SessionInterrupt) × IsSettled cid r d db db'
      × (decide i ≡ ok d)
      × (non_empty_string r.responder_id ≡ ok i.responder)
      × (i.expires_at ≡ r.expires_at)
decide_then-IsSettled audited now cid decide d db db' law h =
    let (key, r, i, x, l, decided, h') = decide_then-ok audited now cid decide d db db' h in
    let (_, responder, expiry) = loaded_fields cid key r i db l in
    let (same_key, terminal) = law i x decided in
    let (finished, same) =
      finish-IsFinished audited now key r x d db db'
        (Closes-decided cid key r i db x l same_key terminal) h' in
    (
      r,
      i,
      record {
        key = key;
        normal = l.normal;
        found = l.found;
        active = l.active;
        finished = subst (λ y. IsFinished key r y db db') same finished;
      },
      decided ∙ ap ok same,
      responder,
      expiry,
    )

-- When `resolve` returns, the record was pending, the caller is its responder, the time is not past
-- its expiry, and the record is settled as resolved: its row is terminal, its Session is Idle and
-- the context of the Session has lost the pending interaction.
pub resolve_interrupt-IsSettled :
    (audited : Bool) (now : Instant) (cid : Text) (reply : Option Mapping) (responder : Text)
    (d : InterruptResolution) (db db' : Db)
    → resolve_interrupt audited now cid reply responder db ≡ (ok d, db')
    → (r : InteractionRecord) × IsSettled cid r d db db'
      × (d.status ≡ resolved)
      × (non_empty_string responder ≡ non_empty_string r.responder_id)
      × (now ≤ r.expires_at)
unfolding resolve_interrupt
resolve_interrupt-IsSettled audited now cid reply responder d db db' h =
    let (r, i, settled, decided, owner, expiry) =
      decide_then-IsSettled audited now cid (λ i. resolve i reply responder now) d db db'
        (λ i x e.
          let (k, s, _, _) = resolve_fields i reply responder now x e in (k, ap is_pending s))
        h in
    let (_, status, mine, in_time) = resolve_fields i reply responder now d decided in
    (r, settled, status, mine ∙ sym owner, subst (λ t. now ≤ t) expiry in_time)

-- When `cancel` returns, the record was pending, the caller is its responder unless that is not
-- required, the time is not past its expiry unless that is allowed, and the record is settled as
-- cancelled: its row is terminal, its Session is Idle and the context of the Session has lost the
-- pending interaction.
pub cancel_interrupt-IsSettled :
    (audited : Bool) (now : Instant) (cid reason : Text) (reply : Option Mapping) (responder : Text)
    (require_responder allow_expired : Bool) (d : InterruptResolution) (db db' : Db)
    → cancel_interrupt audited now cid reason reply responder require_responder allow_expired db
      ≡ (ok d, db')
    → (r : InteractionRecord) × IsSettled cid r d db db'
      × (d.status ≡ cancelled)
      × ((require_responder ≡ false)
          ⊎ (non_empty_string responder ≡ non_empty_string r.responder_id))
      × ((allow_expired ≡ true) ⊎ (now ≤ r.expires_at))
unfolding cancel_interrupt
cancel_interrupt-IsSettled audited now cid reason reply responder req allow d db db' h =
    let (r, i, settled, decided, owner, expiry) =
      decide_then-IsSettled audited now cid (λ i. cancel i reason reply responder req allow now) d
        db db'
        (λ i x e.
          let (k, s, _, _) = cancel_fields i reason reply responder req allow now x e in
          (k, ap is_pending s))
        h in
    let (_, status, mine, in_time) =
      cancel_fields i reason reply responder req allow now d decided in
    (
      r,
      settled,
      status,
      elim (Bool-cases req) [ inl q ↦ inr (mine q ∙ sym owner) | inr q ↦ inl q ],
      elim (Bool-cases allow) [
        | inl q ↦ inl q
        | inr q ↦ inr (subst (λ t. now ≤ t) expiry (in_time q))
      ],
    )

pub settled-IsTerminal :
    {cid : Text} {r : InteractionRecord} {d : InterruptResolution} {db db' : Db}
    → is_pending d.status ≡ false
    → IsSettled cid r d db db'
    → IsTerminal cid db'
settled-IsTerminal t s = record {
  key = s.key;
  normal = s.normal;
  row = s.finished.row;
  found = s.finished.settled;
  terminal = ap is_pending s.finished.status ∙ t;
}

-- A call on an interrupt whose row is terminal finds no active record and changes nothing.
terminal_refused :
    (audited : Bool) (now : Instant) (cid : Text)
    (decide : SessionInterrupt → Result InterruptResolution) (db : Db)
    → IsTerminal cid db
    → decide_then audited now cid decide db ≡ (err interrupt_not_found, db)
unfolding get_pending_interaction
terminal_refused audited now cid decide db t = ground (arith, t.normal, t.found, t.terminal)

refused_later :
    (cid : Text) (db after : Db)
    → IsTerminal cid db
    → Later cid db after
    → (audited : Bool) (now : Instant) (reply : Option Mapping) (who reason : Text)
      (req allow : Bool)
    → (resolve_interrupt audited now cid reply who after ≡ (err interrupt_not_found, after))
      × (cancel_interrupt audited now cid reason reply who req allow after
          ≡ (err interrupt_not_found, after))
unfolding resolve_interrupt cancel_interrupt
refused_later cid db after t later audited now reply who reason req allow =
    let u = Later-IsTerminal cid db after later t in
    (terminal_refused audited now cid _ after u, terminal_refused audited now cid _ after u)

-- Once an interrupt has been resolved, every later `resolve` and `cancel` of it raises
-- SessionInterruptNotFound and changes nothing, whoever calls, at whatever time, and whatever was
-- written in between: any number of interactions created or settled, under any id, and any other
-- writes that do not touch the interrupt's own row.
pub resolve_interrupt_once :
    (audited audited' : Bool) (now now' : Instant) (cid : Text) (reply reply' : Option Mapping)
    (responder who reason : Text) (req allow : Bool) (d : InterruptResolution) (db db' after : Db)
    → resolve_interrupt audited now cid reply responder db ≡ (ok d, db')
    → Later cid db' after
    → (resolve_interrupt audited' now' cid reply' who after ≡ (err interrupt_not_found, after))
      × (cancel_interrupt audited' now' cid reason reply' who req allow after
          ≡ (err interrupt_not_found, after))
resolve_interrupt_once audited audited' now now' cid reply reply' responder who reason req allow d
      db db' after h later =
    let (r, settled, status, _, _) =
      resolve_interrupt-IsSettled audited now cid reply responder d db db' h in
    refused_later cid db' after (settled-IsTerminal (ap is_pending status) settled) later audited'
      now' reply' who reason req allow

-- The same once it has been cancelled.
pub cancel_interrupt_once :
    (audited audited' : Bool) (now now' : Instant) (cid reason reason' : Text)
    (reply reply' : Option Mapping) (responder who : Text) (req allow req' allow' : Bool)
    (d : InterruptResolution) (db db' after : Db)
    → cancel_interrupt audited now cid reason reply responder req allow db ≡ (ok d, db')
    → Later cid db' after
    → (resolve_interrupt audited' now' cid reply' who after ≡ (err interrupt_not_found, after))
      × (cancel_interrupt audited' now' cid reason' reply' who req' allow' after
          ≡ (err interrupt_not_found, after))
cancel_interrupt_once audited audited' now now' cid reason reason' reply reply' responder who req
      allow req' allow' d db db' after h later =
    let (r, settled, status, _, _) =
      cancel_interrupt-IsSettled audited now cid reason reply responder req allow d db db' h in
    refused_later cid db' after (settled-IsTerminal (ap is_pending status) settled) later audited'
      now' reply' who reason' req' allow'
