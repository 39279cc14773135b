-- ===== src/Inbox/Drain.antt =====
-- A worker that is left alone empties its queue and ends; `join` and `close` wait for that.
use im_assistant.Prelude.{
  ℕ, zero, suc, ◌-◌, ◌≡◌, refl, sym, ap, ◌∙◌, none, some, List, [], ◌∷◌, append-nil, length, arith,
}
use im_assistant.Inbox.{
  Phase, polling, checking, processing, Inbox, Move, poll, mark_idle, handled, new_inbox, phase_of,
  set_phase, on_poll, on_mark_idle, step, run,
}
use im_assistant.Inbox.Invariant.{sole, set_phase-sole, end_task-sole, run-kept, run-IsValid}

-- The moves of `_run` over `n` events whose handlers return.
abbrev pub worker_moves {ℓ} : {E : Type ℓ} → ℕ → ℕ → List (Move E)
worker_moves w zero = poll w ∷ mark_idle w ∷ []
worker_moves w (suc n) = poll w ∷ handled w ∷ worker_moves w n

-- The same from the middle of its loop.
abbrev pub remaining_moves {ℓ} : {E : Type ℓ} → ℕ → Phase E → ℕ → List (Move E)
remaining_moves w polling n = worker_moves w n
remaining_moves w (processing e) n = handled w ∷ worker_moves w n
remaining_moves w checking zero = mark_idle w ∷ []
remaining_moves w checking (suc n) = mark_idle w ∷ worker_moves w (suc n)

-- The worker has ended, and the handler has been called on all that was put.
pub record IsDrained {ℓ} {E : Type ℓ} (s t : Inbox E) : Type ℓ where
  pub queue : t.queue ≡ []
  pub workers : t.workers ≡ []
  pub task : t.worker_task ≡ none
  pub same : t.arrived ≡ s.arrived

module _ {ℓ} {E : Type ℓ} where
  run_cons :
      (m : Move E) (ms : List (Move E)) (s u : Inbox E) {t : Inbox E}
      → step m s ≡ some u
      → run ms u ≡ some t
      → run (m ∷ ms) s ≡ some t
  unfolding run
  run_cons m ms s u h k = rw h k

  phase_of-sole :
      (w : ℕ) (p : Phase E) (ws : List (ℕ × Phase E)) → ws ≡ (w, p) ∷ [] → phase_of w ws ≡ some p
  unfolding phase_of
  phase_of-sole w p ws h = rw h (ground arith)

  module _ (w : ℕ) (s : Inbox E) where
    poll_step :
        (q : List E)
        → s.workers ≡ (w, polling) ∷ []
        → s.queue ≡ q
        → step (poll w) s ≡ some (on_poll w q s)
    unfolding step
    poll_step q mine e =
        rw (phase_of-sole w polling s.workers mine) (ap (λ x. some (on_poll w x s)) e)

    mark_idle_step :
        (q : List E)
        → s.workers ≡ (w, checking) ∷ []
        → s.queue ≡ q
        → step (mark_idle w) s ≡ some (on_mark_idle w q s)
    unfolding step
    mark_idle_step q mine e =
        rw (phase_of-sole w checking s.workers mine) (ap (λ x. some (on_mark_idle w x s)) e)

    handled_step :
        (x : E)
        → s.workers ≡ (w, processing x) ∷ []
        → step (handled w) s
          ≡ some
              (record s { unfinished = s.unfinished - 1; workers = set_phase w polling s.workers })
    unfolding step
    handled_step x mine = rw (phase_of-sole w (processing x) s.workers mine) refl

  idle_drains :
      (w : ℕ) (s : Inbox E)
      → s.workers ≡ (w, checking) ∷ []
      → s.queue ≡ []
      → (t : Inbox E) × (run (mark_idle w ∷ []) s ≡ some t) × IsDrained s t
  unfolding run
  idle_drains w s mine e =
      let t = on_mark_idle w [] s in
      (
        t,
        run_cons (mark_idle w) [] s t (mark_idle_step w s [] mine e) refl,
        record {
          queue = e;
          workers = end_task-sole w checking s.workers mine;
          task = refl;
          same = refl;
        },
      )

  polling_drains :
      (w : ℕ) (q : List E) (s : Inbox E)
      → s.workers ≡ (w, polling) ∷ []
      → s.queue ≡ q
      → (t : Inbox E) × (run (worker_moves w (length q)) s ≡ some t) × IsDrained s t
  polling_drains w [] s mine e =
      let u = on_poll w [] s in
      let (t, runs, d) = idle_drains w u (set_phase-sole w polling checking s.workers mine) e in
      (
        t,
        run_cons (poll w) (mark_idle w ∷ []) s u (poll_step w s [] mine e) runs,
        record { queue = d.queue; workers = d.workers; task = d.task; same = d.same },
      )
  polling_drains w (x ∷ q) s mine e =
      let u = on_poll w (x ∷ q) s in
      let busy = set_phase-sole w polling (processing x) s.workers mine in
      let v = record u { unfinished = u.unfinished - 1; workers = set_phase w polling u.workers } in
      let (t, runs, d) =
        polling_drains w q v (set_phase-sole w (processing x) polling u.workers busy) refl in
      (
        t,
        run_cons (poll w) (handled w ∷ worker_moves w (length q)) s u (poll_step w s (x ∷ q) mine e)
            (run_cons (handled w) (worker_moves w (length q)) u v (handled_step w u x busy) runs),
        record { queue = d.queue; workers = d.workers; task = d.task; same = d.same },
      )

  worker_drains :
      (w : ℕ) (p : Phase E) (q : List E) (s : Inbox E)
      → s.workers ≡ (w, p) ∷ []
      → s.queue ≡ q
      → (t : Inbox E) × (run (remaining_moves w p (length q)) s ≡ some t) × IsDrained s t
  worker_drains w polling q s mine e = polling_drains w q s mine e
  worker_drains w (processing x) q s mine e =
      let v = record s { unfinished = s.unfinished - 1; workers = set_phase w polling s.workers } in
      let (t, runs, d) =
        polling_drains w q v (set_phase-sole w (processing x) polling s.workers mine) e in
      (
        t,
        run_cons (handled w) (worker_moves w (length q)) s v (handled_step w s x mine) runs,
        record { queue = d.queue; workers = d.workers; task = d.task; same = d.same },
      )
  worker_drains w checking [] s mine e = idle_drains w s mine e
  worker_drains w checking (x ∷ q) s mine e =
      let u = on_mark_idle w (x ∷ q) s in
      let (t, runs, d) =
        polling_drains w (x ∷ q) u (set_phase-sole w checking polling s.workers mine) e in
      (
        t,
        run_cons (mark_idle w) (worker_moves w (suc (length q))) s u
            (mark_idle_step w s (x ∷ q) mine e) runs,
        record { queue = d.queue; workers = d.workers; task = d.task; same = d.same },
      )

  -- From every state that an inbox can reach, a live worker whose handlers return, with no further
  -- arrival, ends after finitely many moves of its own, two for each queued event and at most three
  -- more. Then the queue is empty, `join` waits for nothing, there is no worker task, and the handler
  -- has been called on all the events in the order in which they were put.
  pub run_drains :
      (ms : List (Move E)) (w : ℕ) (p : Phase E) (s : Inbox E)
      → run ms new_inbox ≡ some s
      → phase_of w s.workers ≡ some p
      → (t : Inbox E) × (run (remaining_moves w p (length s.queue)) s ≡ some t)
        × IsDrained s t
        × (t.unfinished ≡ 0)
        × (t.taken ≡ s.arrived)
  run_drains ms w p s reached live =
      let v = run-IsValid ms s reached in
      let (mine, _) = sole w p s.worker_task s.workers v.only live in
      let (t, runs, d) = worker_drains w p s.queue s mine refl in
      let u = run-kept (remaining_moves w p (length s.queue)) s t v runs in
      (
        t,
        runs,
        d,
        u.counted ∙ rw (d.queue, d.workers) refl,
        sym (append-nil t.taken) ∙ sym (u.fifo ∙ rw d.queue refl) ∙ d.same,
      )

  -- Once no event is unfinished, so that `join` returns, none is queued and the handler has been
  -- called on all that was put, in that order.
  pub unfinished_zero :
      (ms : List (Move E)) (s : Inbox E)
      → run ms new_inbox ≡ some s
      → s.unfinished ≡ 0
      → (s.queue ≡ []) × (s.taken ≡ s.arrived)
  unfinished_zero ms s reached none_left =
      let v = run-IsValid ms s reached in
      let no_queue = empty_queue s.queue (omega (arith, v.counted, none_left)) in
      (no_queue, sym (append-nil s.taken) ∙ sym (v.fifo ∙ rw no_queue refl))
    where
      empty_queue : (q : List E) → length q ≡ 0 → q ≡ []
      empty_queue [] h = refl
      empty_queue (x ∷ q) h = absurd (omega arith)
