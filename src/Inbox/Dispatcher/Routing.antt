-- ===== src/Inbox/Dispatcher/Routing.antt =====
-- Every event reaches the inbox of its conversation, in the order of dispatch.
use mathlib.Core.Option.{some-injective}
use im_assistant.Prelude.{
  ℕ, ◌≡◌, refl, sym, ap, ◌∙◌, subst, Bool, true, false, Option, none, some, List, [], ◌∷◌, ◌++◌,
  Text, ◌==◌, eq_iff, Result-cases, Option-cases, Bool-cases, inl, inr, non_empty_string,
  or_default, eqb, if◌then◌else◌, arith,
}
use im_assistant.Prelude.Dict.{get, get-set}
use im_assistant.Inbox.{
  Phase, polling, checking, processing, Inbox, Move, put, ensure_worker, poll, mark_idle, handled,
  killed, new_inbox, phase_of, on_put, on_ensure, on_poll, on_mark_idle, on_worker, has_no_worker,
  step,
}
use im_assistant.Inbox.Invariant.{new_inbox-IsValid, put-IsValid, step-IsValid}
use im_assistant.Inbox.Dispatcher.{
  Dispatcher, DispatcherMove, enqueue, inbox_move, is_put, new_dispatcher, events_for, move_inbox,
  dispatch, dispatcher_step, then_dispatch, dispatcher_run, Routed, IsRouted,
}

module _ {E : Type 0} where
  events_for-append :
      (key k : Text) (e : E) (es : List (Text × E))
      → events_for key (es ++ (k, e) ∷ [])
        ≡ (if k == key then events_for key es ++ e ∷ [] else events_for key es)
  unfolding events_for
  events_for-append key k e [] = ground arith
  events_for-append key k e ((j, x) ∷ es) = ground (arith, events_for-append key k e es)

  on_poll_arrived : (w : ℕ) (q : List E) (s : Inbox E) → (on_poll w q s).arrived ≡ s.arrived
  on_poll_arrived w [] s = refl
  on_poll_arrived w (x ∷ q) s = refl

  on_mark_idle_arrived :
      (w : ℕ) (q : List E) (s : Inbox E) → (on_mark_idle w q s).arrived ≡ s.arrived
  on_mark_idle_arrived w [] s = refl
  on_mark_idle_arrived w (x ∷ q) s = refl

  on_ensure_arrived : (s : Inbox E) → (on_ensure s).arrived ≡ s.arrived
  unfolding on_ensure
  on_ensure_arrived s = elim (Bool-cases (has_no_worker s.worker_task s.workers)) [
    | inl e ↦ rw e refl
    | inr e ↦ rw e refl
  ]

  on_worker_arrived :
      (m : Move E) (w : ℕ) (o : Option (Phase E)) (s t : Inbox E)
      → on_worker m w o s ≡ some t
      → t.arrived ≡ s.arrived
  on_worker_arrived (poll _) w (some polling) s t h =
      ap (λ x. x.arrived) (sym (some-injective _ _ h)) ∙ on_poll_arrived w s.queue s
  on_worker_arrived (mark_idle _) w (some checking) s t h =
      ap (λ x. x.arrived) (sym (some-injective _ _ h)) ∙ on_mark_idle_arrived w s.queue s
  on_worker_arrived (handled _) w (some (processing x)) s t h =
      ap (λ x. x.arrived) (sym (some-injective _ _ h))
  on_worker_arrived (killed _) w (some (processing x)) s t h =
      ap (λ x. x.arrived) (sym (some-injective _ _ h))
  on_worker_arrived m w o s t h = absurd (cc)

  -- A move other than a put leaves the history of arrivals.
  step_arrived :
      (m : Move E) (s t : Inbox E) → is_put m ≡ false → step m s ≡ some t → t.arrived ≡ s.arrived
  unfolding step
  step_arrived (put e) s t n h = absurd (cc)
  step_arrived ensure_worker s t n h = elim (Bool-cases (eqb s.entering 0)) [
    | inl e ↦ absurd (ground arith)
    | inr e ↦ ap (λ x. x.arrived) (sym (some-injective _ _ (rw e at h))) ∙ on_ensure_arrived s
  ]
  step_arrived (poll w) s t n h = on_worker_arrived (poll w) w (phase_of w s.workers) s t h
  step_arrived (mark_idle w) s t n h =
      on_worker_arrived (mark_idle w) w (phase_of w s.workers) s t h
  step_arrived (handled w) s t n h = on_worker_arrived (handled w) w (phase_of w s.workers) s t h
  step_arrived (killed w) s t n h = on_worker_arrived (killed w) w (phase_of w s.workers) s t h

  Routed-put :
      (e : E) (o : Option (Inbox E)) (es : List E)
      → Routed o es
      → Routed (some (on_put e (or_default o new_inbox))) (es ++ e ∷ [])
  Routed-put e none es r = (put-IsValid e new_inbox new_inbox-IsValid, ap (◌++ (e ∷ [])) (sym r))
  Routed-put e (some s) es r = (put-IsValid e s r.0, ap (◌++ (e ∷ [])) r.1)

  Routed-if :
      (b : Bool) (o p : Option (Inbox E)) (es fs : List E)
      → Routed o es
      → Routed p fs
      → Routed (if b then o else p) (if b then es else fs)
  Routed-if true o p es fs x y = x
  Routed-if false o p es fs x y = y

  dispatch-IsRouted :
      (conversation_id : E → Text) (e : E) (d : Dispatcher E)
      → IsRouted d
      → IsRouted (dispatch conversation_id e d).1
  unfolding dispatch
  dispatch-IsRouted conversation_id e d r key =
      elim (Result-cases (non_empty_string (conversation_id e))) [
        | inr (x, bad) ↦ rw bad (r key)
        | inl (k, good) ↦
            let box = on_put e (or_default (get k d.inboxes) new_inbox) in
            rw (good, get-set k key box d.inboxes, events_for-append key k e d.sent)
              (elim (Bool-cases (k == key)) [
                | inl here ↦ rw here (
                    subst (λ j. Routed (some box) (events_for j d.sent ++ e ∷ []))
                      ((eq_iff k key).0 here)
                      (Routed-put e (get k d.inboxes) (events_for k d.sent) (r k)))
                | inr other ↦ rw other (r key)
              ])
      ]

  Routed-step :
      (m : Move E) (s t : Inbox E) (es : List E)
      → is_put m ≡ false
      → step m s ≡ some t
      → Routed (some s) es
      → Routed (some t) es
  Routed-step m s t es n h r = (step-IsValid m s t r.0 h, step_arrived m s t n h ∙ r.1)

  move_inbox-IsRouted :
      (k : Text) (m : Move E) (d c : Dispatcher E)
      → is_put m ≡ false
      → IsRouted d
      → move_inbox k m d (get k d.inboxes) ≡ some c
      → IsRouted c
  move_inbox-IsRouted k m d c n r h key = elim (Option-cases (get k d.inboxes)) [
    | inl e ↦ absurd (ground arith)
    | inr (s, e) ↦ elim (Option-cases (step m s)) [
      | inl f ↦ absurd (ground arith)
      | inr (t, f) ↦
          let moved = some-injective _ _ (rw (e, f) at h) in
          subst (λ x. Routed (get key x.inboxes) (events_for key x.sent)) moved
            (rw (get-set k key t d.inboxes) (elim (Bool-cases (k == key)) [
              | inl here ↦ rw here (
                  subst (λ j. Routed (some t) (events_for j d.sent)) ((eq_iff k key).0 here)
                    (Routed-step m s t (events_for k d.sent) n f
                      (subst (λ o. Routed o (events_for k d.sent)) e (r k))))
              | inr other ↦ rw other (r key)
            ]))
    ]
  ]

  dispatcher_step-IsRouted :
      (conversation_id : E → Text) (m : DispatcherMove E) (d c : Dispatcher E)
      → IsRouted d
      → dispatcher_step conversation_id m d ≡ some c
      → IsRouted c
  unfolding dispatcher_step
  dispatcher_step-IsRouted conversation_id (enqueue e) d c r h =
      subst IsRouted (some-injective _ _ h) (dispatch-IsRouted conversation_id e d r)
  dispatcher_step-IsRouted conversation_id (inbox_move key m) d c r h =
      elim (Bool-cases (is_put m)) [
        | inl e ↦ absurd (ground arith)
        | inr e ↦ move_inbox-IsRouted key m d c e r (rw e at h)
      ]

  dispatcher_run-kept :
      (conversation_id : E → Text) (ms : List (DispatcherMove E)) (d c : Dispatcher E)
      → IsRouted d
      → dispatcher_run conversation_id ms d ≡ some c
      → IsRouted c
  unfolding dispatcher_run
  dispatcher_run-kept conversation_id [] d c r h = subst IsRouted (some-injective _ _ h) r
  dispatcher_run-kept conversation_id (m ∷ ms) d c r h =
      elim (Option-cases (dispatcher_step conversation_id m d)) [
        | inl e ↦ absurd (ground arith)
        | inr (b, e) ↦
            dispatcher_run-kept conversation_id ms b c
              (dispatcher_step-IsRouted conversation_id m d b r e)
              (subst (λ o. then_dispatch o (dispatcher_run conversation_id ms) ≡ some c) e h)
      ]

  -- After any dispatches and any moves of the inboxes, in any order: the inbox of a conversation is
  -- valid and was put exactly the events that were dispatched for the conversation, in that order,
  -- and a conversation with no inbox has had no event.
  pub dispatcher_run-IsRouted :
      (conversation_id : E → Text) (ms : List (DispatcherMove E)) (c : Dispatcher E)
      → dispatcher_run conversation_id ms new_dispatcher ≡ some c
      → IsRouted c
  unfolding get events_for
  dispatcher_run-IsRouted conversation_id ms c h =
      dispatcher_run-kept conversation_id ms new_dispatcher c new_dispatcher-IsRouted h
    where
      new_dispatcher-IsRouted : IsRouted {E = E} new_dispatcher
      new_dispatcher-IsRouted key = refl
