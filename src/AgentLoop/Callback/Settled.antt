-- ===== src/AgentLoop/Callback/Settled.antt =====
-- A confirm card is answered by its responder, in time, and once (src/core/agent_loop.py).
use mathlib.Core.Option.{some-injective}
use im_assistant.Prelude.{
  ◌≡◌, sym, ap, ◌∙◌, Bool, true, false, Option, none, some, Text, codes, ok, err, ◌≤◌, find,
  non_empty_string, loop_state_error, continue-eq-ok, inl, inr, continue-lift-ok, returned-eq,
  subst, eq_iff, arith, or_default,
}
use im_assistant.Instant.{Instant}
use im_assistant.Json.{Mapping, empty}
use im_assistant.Json.Plain.{plain_object}
use im_assistant.Store.Records.{Db, InteractionRecord, resolved, cancelled}
use im_assistant.Store.Interactions.{has_correlation, is_pending, get_pending_interaction}
use im_assistant.Interrupt.{InterruptResolution}
use im_assistant.Store.Interactions.Later.{IsTerminal, Later, Later-IsTerminal}
use im_assistant.Interrupt.Once.{
  settled-IsTerminal, IsSettled, resolve_interrupt-IsSettled, cancel_interrupt-IsSettled,
}
use im_assistant.Interrupt.Manager.{resolve_interrupt, cancel_interrupt}
use im_assistant.AgentLoop.{Wiring, Outcome}
use im_assistant.AgentLoop.Callback.{
  ConfirmCallbackResult, resolve_confirm_callback, confirm_record, after_approval, answer_payload,
  declined,
}

get-found :
    (cid key : Text) (o : Option InteractionRecord) (db : Db)
    → non_empty_string cid ≡ ok key
    → find (has_correlation key) db.interactions ≡ o
    → get_pending_interaction cid db ≡ (ok o, db)
unfolding get_pending_interaction
get-found cid key o db n f = rw (n, f)

get-same :
    (cid : Text) (found : Option InteractionRecord) (db db1 : Db)
    → get_pending_interaction cid db ≡ (ok found, db1)
    → db1 ≡ db
unfolding get_pending_interaction
get-same cid found db db1 h =
    let (key, e, h') = continue-lift-ok (non_empty_string cid) _ h in sym (returned-eq h').1

confirm_record-ok :
    (o : Option InteractionRecord) (r : InteractionRecord)
    → confirm_record o ≡ ok r
    → (o ≡ some r) × (r.kind ≡ codes "confirm")
confirm_record-ok none r h = absurd (cc h)
confirm_record-ok (some q) r h = ground (arith, eq_iff q.kind (codes "confirm"))

-- A terminal interaction is not answered: the callback runs no tool and changes nothing.
terminal_callback :
    {H : Type 0} (w : Wiring H) (cid responder : Text) (approved : Bool) (callback : Option Mapping)
    (db : Db)
    → IsTerminal cid db
    → resolve_confirm_callback w cid responder approved callback db ≡ (err loop_state_error, db)
unfolding resolve_confirm_callback get_pending_interaction
terminal_callback w cid responder approved callback db t =
    ground (arith, t.normal, t.found, t.terminal)

module _ {H : Type 0} (w : Wiring H) where
  approved_callback :
      (cid responder : Text) (payload : Option Mapping) (o : Outcome H ConfirmCallbackResult)
      (r : InteractionRecord) (d : InterruptResolution) (db db1 mid db' : Db)
      (found : Option InteractionRecord)
      → get_pending_interaction cid db ≡ (ok found, db1)
      → confirm_record found ≡ ok r
      → resolve_interrupt w.audited w.now cid payload responder db1 ≡ (ok d, mid)
      → after_approval w cid r mid ≡ (ok o, db')
      → (r : InteractionRecord) × (d : InterruptResolution) × (mid : Db) × IsSettled cid r d db mid
        × (r.kind ≡ codes "confirm")
        × (d.status ≡ resolved)
        × (non_empty_string responder ≡ non_empty_string r.responder_id)
        × (w.now ≤ r.expires_at)
        × (after_approval w cid r mid ≡ (ok o, db'))
  approved_callback cid responder payload o r d db db1 mid db' found e1 e2 e4 h4 =
      let (r0, settled, status, owner, in_time) =
        resolve_interrupt-IsSettled w.audited w.now cid payload responder d db1 mid e4 in
      let (is_found, kind) = confirm_record-ok found r e2 in
      let same_db = get-same cid found db db1 e1 in
      let (same_found, _) = returned-eq (
        sym (get-found cid settled.key (some r0) db1 settled.normal settled.found)
        ∙ ap (get_pending_interaction cid) same_db
        ∙ e1) in
      let same = some-injective r0 r (same_found ∙ is_found) in
      (
        r0,
        d,
        mid,
        subst (λ x. IsSettled cid r0 d x mid) same_db settled,
        ap (λ x. x.kind) same ∙ kind,
        status,
        owner,
        in_time,
        ap (λ x. after_approval w cid x mid) same ∙ h4,
      )

  -- When the answer to a confirm card that approves comes to a result, or suspends the turn again,
  -- the interaction was a pending confirm, the one who answered is its responder, the time is not
  -- past its expiry, and the tool was run after all of that was settled: in a state `mid` where the
  -- interaction's row is terminal and its Session is Idle.
  pub resolve_confirm_callback-IsSettled :
      (cid responder : Text) (callback : Option Mapping) (o : Outcome H ConfirmCallbackResult)
      (db db' : Db)
      → resolve_confirm_callback w cid responder true callback db ≡ (ok o, db')
      → (r : InteractionRecord) × (d : InterruptResolution) × (mid : Db) × IsSettled cid r d db mid
        × (r.kind ≡ codes "confirm")
        × (d.status ≡ resolved)
        × (non_empty_string responder ≡ non_empty_string r.responder_id)
        × (w.now ≤ r.expires_at)
        × (after_approval w cid r mid ≡ (ok o, db'))
  unfolding resolve_confirm_callback
  resolve_confirm_callback-IsSettled cid responder callback o db db' h =
      let (found, db1, e1, h1) = continue-eq-ok (get_pending_interaction cid db) _ h in
      let (r, e2, h2) = continue-lift-ok (confirm_record found) _ h1 in
      let (plain, e3, h3) = continue-lift-ok (plain_object (or_default callback empty)) _ h2 in
      let (d, mid, e4, h4) =
        continue-eq-ok
          (resolve_interrupt w.audited w.now cid (some (answer_payload true plain)) responder db1) _
          h3 in
      approved_callback cid responder _ o r d db db1 mid db' found e1 e2 e4 h4

  rejected_settled :
      (cid responder : Text) (payload : Option Mapping) (r : InteractionRecord)
      (d : InterruptResolution) (db db1 db' : Db) (found : Option InteractionRecord)
      → get_pending_interaction cid db ≡ (ok found, db1)
      → confirm_record found ≡ ok r
      → cancel_interrupt w.audited w.now cid
          (codes "user_cancelled")
          payload
          responder
          true
          false
          db1
        ≡ (ok d, db')
      → (r : InteractionRecord) × (d : InterruptResolution) × IsSettled cid r d db db'
        × (r.kind ≡ codes "confirm")
        × (d.status ≡ cancelled)
        × (non_empty_string responder ≡ non_empty_string r.responder_id)
        × (w.now ≤ r.expires_at)
  rejected_settled cid responder payload r d db db1 db' found e1 e2 e4 =
      let (r0, settled, status, owner, in_time) =
        cancel_interrupt-IsSettled w.audited w.now cid (codes "user_cancelled") payload responder
          true false d db1 db' e4 in
      let (is_found, kind) = confirm_record-ok found r e2 in
      let same_db = get-same cid found db db1 e1 in
      let (same_found, _) = returned-eq (
        sym (get-found cid settled.key (some r0) db1 settled.normal settled.found)
        ∙ ap (get_pending_interaction cid) same_db
        ∙ e1) in
      (
        r0,
        d,
        subst (λ x. IsSettled cid r0 d x db') same_db settled,
        ap (λ x. x.kind) (some-injective r0 r (same_found ∙ is_found)) ∙ kind,
        status,
        elim owner [ inl bad ↦ absurd (cc bad) | inr same ↦ same ],
        elim in_time [ inl bad ↦ absurd (cc bad) | inr t ↦ t ],
      )

  -- When the answer to a confirm card that declines returns, the interaction was a pending confirm,
  -- the one who answered is its responder, the time is not past its expiry, the interaction is
  -- settled as cancelled, and the result says so. Every later answer to the card raises
  -- AgentLoopStateError and changes nothing, whoever gives it, whatever it says, at whatever time
  -- and under whatever wiring, and whatever was written in between: any number of interactions
  -- created or settled, under any id, and any other writes that do not touch the card's own row.
  pub declined_callback-IsSettled :
      {K : Type 0} (w' : Wiring K) (cid responder who : Text) (approved : Bool)
      (callback again : Option Mapping) (o : Outcome H ConfirmCallbackResult) (db db' after : Db)
      → resolve_confirm_callback w cid responder false callback db ≡ (ok o, db')
      → Later cid db' after
      → (o ≡ declined cid)
        × (resolve_confirm_callback w' cid who approved again after ≡ (err loop_state_error, after))
        × ((r : InteractionRecord) × (d : InterruptResolution) × IsSettled cid r d db db'
            × (r.kind ≡ codes "confirm")
            × (d.status ≡ cancelled)
            × (non_empty_string responder ≡ non_empty_string r.responder_id)
            × (w.now ≤ r.expires_at))
  unfolding resolve_confirm_callback
  declined_callback-IsSettled w' cid responder who approved callback again o db db' after h later =
      let (found, db1, e1, h1) = continue-eq-ok (get_pending_interaction cid db) _ h in
      let (r, e2, h2) = continue-lift-ok (confirm_record found) _ h1 in
      let (plain, e3, h3) = continue-lift-ok (plain_object (or_default callback empty)) _ h2 in
      let (d, mid, e4, h4) =
        continue-eq-ok
          (cancel_interrupt w.audited w.now cid (codes "user_cancelled")
            (some (answer_payload false plain)) responder true false db1)
          _ h3 in
      let (same, ends) = returned-eq h4 in
      let (r0, d0, settled, kind, status, owner, in_time) =
        rejected_settled cid responder (some (answer_payload false plain)) r d db db1 db' found e1
          e2 (e4 ∙ ap (λ x. (ok d, x)) ends) in
      let shut = settled-IsTerminal (ap is_pending status) settled in
      (
        sym same,
        terminal_callback w' cid who approved again after
            (Later-IsTerminal cid db' after later shut),
        (r0, d0, settled, kind, status, owner, in_time),
      )

-- Once an interaction is resolved, no second answer runs a tool: it raises AgentLoopStateError and
-- changes nothing, whoever gives it, whatever it says, at whatever time and under whatever wiring.
-- That holds right after the interaction was resolved, before the tool that it held back is run, and
-- in every state that further writes lead to, the tool's among them: any number of interactions
-- created or settled, under any id, and any other writes that do not touch the interaction's own row.
pub resolve_confirm_callback_once :
    {H : Type 0} (w : Wiring H) (audited approved : Bool) (now : Instant) (cid who again : Text)
    (reply callback : Option Mapping) (d : InterruptResolution) (db mid after : Db)
    → resolve_interrupt audited now cid reply who db ≡ (ok d, mid)
    → Later cid mid after
    → resolve_confirm_callback w cid again approved callback after ≡ (err loop_state_error, after)
resolve_confirm_callback_once w audited approved now cid who again reply callback d db mid after h
      later =
    let (r, settled, status, _, _) =
      resolve_interrupt-IsSettled audited now cid reply who d db mid h in
    terminal_callback w cid again approved callback after
      (Later-IsTerminal cid mid after later (settled-IsTerminal (ap is_pending status) settled))
