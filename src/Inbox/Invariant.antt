-- ===== src/Inbox/Invariant.antt =====
-- What holds of an inbox after any moves.
use mathlib.Core.Option.{some-injective}
use im_assistant.Prelude.{
  ℕ, zero, suc, ◌+◌, ◌-◌, ◌≡◌, refl, sym, ap, ◌∙◌, subst, true, false, Option, none, some, List, [],
  ◌∷◌, ◌++◌, append_assoc, length, length-append, eqb, Option-cases, Bool-cases, inl, inr, arith,
}
use im_assistant.Inbox.{
  Phase, polling, checking, processing, Inbox, Move, put, ensure_worker, poll, mark_idle, handled,
  killed, new_inbox, phase_of, set_phase, end_task, has_no_worker, on_put, on_ensure, on_poll,
  on_mark_idle, on_worker, step, run, then_step,
}

module _ {ℓ} {E : Type ℓ} where
  -- The number of events whose handler is running.
  abbrev pub running : List (ℕ × Phase E) → ℕ
  running [] = 0
  running ((w, polling) ∷ ws) = running ws
  running ((w, checking) ∷ ws) = running ws
  running ((w, processing e) ∷ ws) = suc (running ws)

  -- The live workers: none, or the one that `_worker_task` is.
  abbrev pub OnlyWorker : Option ℕ → List (ℕ × Phase E) → Type 0
  OnlyWorker t [] = Unit
  OnlyWorker t ((w, p) ∷ []) = t ≡ some w
  OnlyWorker t (_ ∷ _ ∷ _) = ⊥

  -- Somebody will see to the queue: an `enqueue` that is on its way, or a task.
  abbrev pub IsAttended : Option ℕ → ℕ → List E → Type ℓ
  IsAttended (some w) n q = Unit
  IsAttended none (suc n) q = Unit
  IsAttended none zero q = q ≡ []

pub record IsValid {ℓ} {E : Type ℓ} (s : Inbox E) : Type ℓ where
  pub only : OnlyWorker s.worker_task s.workers
  pub counted : s.unfinished ≡ length s.queue + running s.workers
  pub fifo : s.arrived ≡ s.taken ++ s.queue
  pub attended : IsAttended s.worker_task s.entering s.queue

module _ {ℓ} {E : Type ℓ} where
  IsAttended-entering : (t : Option ℕ) (n : ℕ) (q : List E) → IsAttended t (suc n) q
  IsAttended-entering none n q = tt
  IsAttended-entering (some w) n q = tt

  IsAttended-empty : (n : ℕ) (q : List E) → q ≡ [] → IsAttended none n q
  IsAttended-empty zero q h = h
  IsAttended-empty (suc n) q h = tt

  -- A live task is the only worker.
  pub sole :
      (w : ℕ) (p : Phase E) (t : Option ℕ) (ws : List (ℕ × Phase E))
      → OnlyWorker t ws
      → phase_of w ws ≡ some p
      → (ws ≡ (w, p) ∷ []) × (t ≡ some w)
  unfolding phase_of
  sole w p t [] o h = cc
  sole w p t ((v, q) ∷ []) o h = ground arith
  sole w p t (_ ∷ _ ∷ _) o h = absurd o

  idle_workers :
      (t : Option ℕ) (ws : List (ℕ × Phase E))
      → OnlyWorker t ws
      → has_no_worker t ws ≡ true
      → ws ≡ []
  unfolding phase_of
  idle_workers t [] o h = refl
  idle_workers t ((v, q) ∷ []) o h = ground arith
  idle_workers t (_ ∷ _ ∷ _) o h = absurd o

  busy_task :
      (t : Option ℕ) (ws : List (ℕ × Phase E)) (n : ℕ) (q : List E)
      → has_no_worker t ws ≡ false
      → IsAttended t n q
  busy_task none ws n q h = absurd (ground arith)
  busy_task (some w) ws n q h = tt

  IsAttended-some : (w n : ℕ) (t : Option ℕ) (q : List E) → t ≡ some w → IsAttended t n q
  IsAttended-some w n none q h = absurd (cc)
  IsAttended-some w n (some v) q h = tt

  pub set_phase-sole :
      (w : ℕ) (p q : Phase E) (ws : List (ℕ × Phase E))
      → ws ≡ (w, p) ∷ []
      → set_phase w q ws ≡ (w, q) ∷ []
  unfolding set_phase
  set_phase-sole w p q ws h = rw h (ground arith)

  pub end_task-sole :
      (w : ℕ) (p : Phase E) (ws : List (ℕ × Phase E)) → ws ≡ (w, p) ∷ [] → end_task w ws ≡ []
  unfolding end_task
  end_task-sole w p ws h = rw h (ground arith)

  pub new_inbox-IsValid : IsValid (new_inbox {E = E})
  new_inbox-IsValid = record { only = tt; counted = refl; fifo = refl; attended = refl }

  pub put-IsValid : (e : E) (s : Inbox E) → IsValid s → IsValid (on_put e s)
  put-IsValid e s v = record {
    only = v.only;
    counted = omega (arith, v.counted, length-append s.queue (e ∷ []));
    fifo = ap (◌++ (e ∷ [])) v.fifo ∙ append_assoc s.taken s.queue (e ∷ []);
    attended = IsAttended-entering s.worker_task s.entering (s.queue ++ e ∷ []);
  }

  ensure-IsValid : (s : Inbox E) → IsValid s → IsValid (on_ensure s)
  unfolding on_ensure
  ensure-IsValid s v = elim (Bool-cases (has_no_worker s.worker_task s.workers)) [
    | inl idle ↦
        let alone = idle_workers s.worker_task s.workers v.only idle in
        rw idle (record { only = rw alone refl; counted = v.counted; fifo = v.fifo; attended = tt })
    | inr busy ↦ rw busy (record {
      only = v.only;
      counted = v.counted;
      fifo = v.fifo;
      attended = busy_task s.worker_task s.workers (s.entering - 1) s.queue busy;
    })
  ]

  module _ (w : ℕ) (p : Phase E) (s : Inbox E) (v : IsValid s) (mine : s.workers ≡ (w, p) ∷ [])
      (task : s.worker_task ≡ some w) where
    poll-IsValid : (q : List E) → s.queue ≡ q → p ≡ polling → IsValid (on_poll w q s)
    poll-IsValid [] e is_p = record {
      only = rw (set_phase-sole w p checking s.workers mine) task;
      counted = rw (set_phase-sole w p checking s.workers mine) (v.counted ∙ rw (mine, is_p) refl);
      fifo = v.fifo;
      attended = IsAttended-some w s.entering s.worker_task s.queue task;
    }
    poll-IsValid (x ∷ q) e is_p = record {
      only = rw (set_phase-sole w p (processing x) s.workers mine) task;
      counted =
          rw (set_phase-sole w p (processing x) s.workers mine)
            (v.counted ∙ rw (mine, is_p, e) (omega arith));
      fifo = v.fifo ∙ rw e (sym (append_assoc s.taken (x ∷ []) q));
      attended = IsAttended-some w s.entering s.worker_task q task;
    }

    mark_idle-IsValid : (q : List E) → s.queue ≡ q → p ≡ checking → IsValid (on_mark_idle w q s)
    mark_idle-IsValid [] e is_p = record {
      only = rw (end_task-sole w p s.workers mine) tt;
      counted = rw (end_task-sole w p s.workers mine) (v.counted ∙ rw (mine, is_p) refl);
      fifo = v.fifo;
      attended = IsAttended-empty s.entering s.queue e;
    }
    mark_idle-IsValid (x ∷ q) e is_p = record {
      only = rw (set_phase-sole w p polling s.workers mine) task;
      counted = rw (set_phase-sole w p polling s.workers mine) (v.counted ∙ rw (mine, is_p) refl);
      fifo = v.fifo;
      attended = IsAttended-some w s.entering s.worker_task s.queue task;
    }

    handled-IsValid :
        (x : E)
        → p ≡ processing x
        → IsValid
            (record s { unfinished = s.unfinished - 1; workers = set_phase w polling s.workers })
    handled-IsValid x is_p = record {
      only = rw (set_phase-sole w p polling s.workers mine) task;
      counted = rw (set_phase-sole w p polling s.workers mine, v.counted, mine, is_p) (omega arith);
      fifo = v.fifo;
      attended = IsAttended-some w s.entering s.worker_task s.queue task;
    }

    killed-IsValid :
        (x : E)
        → p ≡ processing x
        → IsValid (record s { unfinished = s.unfinished - 1; workers = end_task w s.workers })
    killed-IsValid x is_p = record {
      only = rw (end_task-sole w p s.workers mine) tt;
      counted = rw (end_task-sole w p s.workers mine, v.counted, mine, is_p) (omega arith);
      fifo = v.fifo;
      attended = IsAttended-some w s.entering s.worker_task s.queue task;
    }

  worker-IsValid :
      (m : Move E) (w : ℕ) (p : Phase E) (s t : Inbox E)
      → IsValid s
      → phase_of w s.workers ≡ some p
      → on_worker m w (some p) s ≡ some t
      → IsValid t
  worker-IsValid (poll _) w polling s t v f h =
      let (mine, task) = sole w polling s.worker_task s.workers v.only f in
      subst IsValid (some-injective _ _ h) (poll-IsValid w polling s v mine task s.queue refl refl)
  worker-IsValid (mark_idle _) w checking s t v f h =
      let (mine, task) = sole w checking s.worker_task s.workers v.only f in
      subst IsValid (some-injective _ _ h)
        (mark_idle-IsValid w checking s v mine task s.queue refl refl)
  worker-IsValid (handled _) w (processing x) s t v f h =
      let (mine, task) = sole w (processing x) s.worker_task s.workers v.only f in
      subst IsValid (some-injective _ _ h) (handled-IsValid w (processing x) s v mine task x refl)
  worker-IsValid (killed _) w (processing x) s t v f h =
      let (mine, task) = sole w (processing x) s.worker_task s.workers v.only f in
      subst IsValid (some-injective _ _ h) (killed-IsValid w (processing x) s v mine task x refl)
  worker-IsValid m w p s t v f h = absurd (cc)

  move-IsValid :
      (m : Move E) (w : ℕ) (s t : Inbox E)
      → IsValid s
      → on_worker m w (phase_of w s.workers) s ≡ some t
      → IsValid t
  move-IsValid m w s t v h = elim (Option-cases (phase_of w s.workers)) [
    | inl e ↦ absurd (none_moves m w s t (subst (λ o. on_worker m w o s ≡ some t) e h))
    | inr (p, e) ↦ worker-IsValid m w p s t v e (subst (λ o. on_worker m w o s ≡ some t) e h)
  ]
    where
      none_moves : (m : Move E) (w : ℕ) (s t : Inbox E) → on_worker m w none s ≡ some t → ⊥
      none_moves (put _) w s t h = cc
      none_moves ensure_worker w s t h = cc
      none_moves (poll _) w s t h = cc
      none_moves (mark_idle _) w s t h = cc
      none_moves (handled _) w s t h = cc
      none_moves (killed _) w s t h = cc

  pub step-IsValid : (m : Move E) (s t : Inbox E) → IsValid s → step m s ≡ some t → IsValid t
  unfolding step
  step-IsValid (put e) s t v h = subst IsValid (some-injective _ _ h) (put-IsValid e s v)
  step-IsValid ensure_worker s t v h = elim (Bool-cases (eqb s.entering 0)) [
    | inl e ↦ absurd (ground arith)
    | inr e ↦ subst IsValid (some-injective _ _ (rw e at h)) (ensure-IsValid s v)
  ]
  step-IsValid (poll w) s t v h = move-IsValid (poll w) w s t v h
  step-IsValid (mark_idle w) s t v h = move-IsValid (mark_idle w) w s t v h
  step-IsValid (handled w) s t v h = move-IsValid (handled w) w s t v h
  step-IsValid (killed w) s t v h = move-IsValid (killed w) w s t v h

  pub run-kept : (ms : List (Move E)) (s t : Inbox E) → IsValid s → run ms s ≡ some t → IsValid t
  unfolding run
  run-kept [] s t v h = subst IsValid (some-injective _ _ h) v
  run-kept (m ∷ ms) s t v h = elim (Option-cases (step m s)) [
    | inl e ↦ absurd (ground arith)
    | inr (u, e) ↦
        run-kept ms u t (step-IsValid m s u v e) (subst (λ o. then_step o (run ms) ≡ some t) e h)
  ]

  -- After any moves of the callers of `enqueue` and of the workers, in any order: at most one worker
  -- is live, and it is `_worker_task`; the handler was called on the events in the order in which
  -- they were put, on each once, and the rest are queued; the count that `join` waits for is that
  -- of the events that are queued or whose handler is running; and while an event is queued there is
  -- a worker task, or a call of `enqueue` that has still to look for one.
  pub run-IsValid : (ms : List (Move E)) (t : Inbox E) → run ms new_inbox ≡ some t → IsValid t
  run-IsValid ms t h = run-kept ms new_inbox t new_inbox-IsValid h
