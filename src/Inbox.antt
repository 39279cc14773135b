-- ===== src/Inbox.antt =====
-- `SessionInbox` (src/core/inbox.py): one queue, one worker task at most. A coroutine gives way only
-- at an `await`, so a run is a sequence of moves, one per stretch of code between two of them, in
-- any order. The lock is held over no `await`, so that each of its blocks is one move. The lists
-- `arrived` and `taken` are the history: what was put, and what the handler was called on.
pub mod Invariant
pub mod Drain
pub mod Dispatcher
mod Tests
use im_assistant.Prelude.{
  ℕ, suc, ◌+◌, ◌-◌, Bool, true, false, not, Option, none, some, List, [], ◌∷◌, ◌++◌, length, eqb,
  if◌then◌else◌,
}

-- Where a worker is in `_run`: before `get_nowait`, before `_mark_idle_when_empty`, or in the
-- handler of an event.
pub data Phase {ℓ} (E : Type ℓ) : Type ℓ where
  polling : Phase E
  checking : Phase E
  processing : E → Phase E

pub record Inbox {ℓ} (E : Type ℓ) : Type ℓ where
  pub queue : List E
  -- `_unfinished_tasks` of the queue, which `join` waits for
  pub unfinished : ℕ
  -- `_worker_task`: the number of a task
  pub worker_task : Option ℕ
  -- the tasks that are not done
  pub workers : List (ℕ × Phase E)
  pub next_task : ℕ
  -- calls of `enqueue` between the put and the locked block
  pub entering : ℕ
  pub arrived : List E
  pub taken : List E

-- One stretch of code.
pub data Move {ℓ} (E : Type ℓ) : Type ℓ where
  -- `enqueue` up to the lock, and its locked block
  put : E → Move E
  ensure_worker : Move E
  -- a worker's `get_nowait`, its `_mark_idle_when_empty`, the end of its handler by a return or an
  -- `Exception`, and by any other exception, which ends the worker
  poll : ℕ → Move E
  mark_idle : ℕ → Move E
  handled : ℕ → Move E
  killed : ℕ → Move E

module _ {ℓ} {E : Type ℓ} where
  abbrev pub new_inbox : Inbox E
  new_inbox = record {
    queue = [];
    unfinished = 0;
    worker_task = none;
    workers = [];
    next_task = 0;
    entering = 0;
    arrived = [];
    taken = [];
  }

  unfoldable pub phase_of : ℕ → List (ℕ × Phase E) → Option (Phase E)
  phase_of w [] = none
  phase_of w ((v, p) ∷ ws) = if eqb v w then some p else phase_of w ws

  unfoldable pub set_phase : ℕ → Phase E → List (ℕ × Phase E) → List (ℕ × Phase E)
  set_phase w p [] = []
  set_phase w p ((v, q) ∷ ws) = (if eqb v w then (v, p) else (v, q)) ∷ set_phase w p ws

  unfoldable pub end_task : ℕ → List (ℕ × Phase E) → List (ℕ × Phase E)
  end_task w [] = []
  end_task w ((v, q) ∷ ws) = let rest = end_task w ws in if eqb v w then rest else (v, q) ∷ rest

  -- `self._worker_task is None or self._worker_task.done()`
  abbrev pub has_no_worker : Option ℕ → List (ℕ × Phase E) → Bool
  has_no_worker none ws = true
  has_no_worker (some w) ws = elim (phase_of w ws) [ none ↦ true | some _ ↦ false ]

  abbrev pub on_put : E → Inbox E → Inbox E
  on_put e s = record s {
    queue = s.queue ++ e ∷ [];
    unfinished = suc s.unfinished;
    entering = suc s.entering;
    arrived = s.arrived ++ e ∷ [];
  }

  -- The locked block of `enqueue`.
  unfoldable pub on_ensure : Inbox E → Inbox E
  on_ensure s =
      if has_no_worker s.worker_task s.workers
      then record s {
        worker_task = some s.next_task;
        workers = (s.next_task, polling) ∷ s.workers;
        next_task = suc s.next_task;
        entering = s.entering - 1;
      }
      else record s { entering = s.entering - 1 }

  abbrev pub on_poll : ℕ → List E → Inbox E → Inbox E
  on_poll w [] s = record s { workers = set_phase w checking s.workers }
  on_poll w (e ∷ q) s = record s {
    queue = q;
    workers = set_phase w (processing e) s.workers;
    taken = s.taken ++ e ∷ [];
  }

  abbrev pub on_mark_idle : ℕ → List E → Inbox E → Inbox E
  on_mark_idle w [] s = record s { worker_task = none; workers = end_task w s.workers }
  on_mark_idle w (e ∷ q) s = record s { workers = set_phase w polling s.workers }

  -- The move of a worker in its phase, where it is the move of that phase.
  abbrev pub on_worker : Move E → ℕ → Option (Phase E) → Inbox E → Option (Inbox E)
  on_worker (poll _) w (some polling) s = some (on_poll w s.queue s)
  on_worker (mark_idle _) w (some checking) s = some (on_mark_idle w s.queue s)
  on_worker (handled _) w (some (processing e)) s =
      some (record s { unfinished = s.unfinished - 1; workers = set_phase w polling s.workers })
  on_worker (killed _) w (some (processing e)) s =
      some (record s { unfinished = s.unfinished - 1; workers = end_task w s.workers })
  on_worker _ w _ s = none

  -- The state after a move, where the move can be made.
  unfoldable pub step : Move E → Inbox E → Option (Inbox E)
  step (put e) s = some (on_put e s)
  step ensure_worker s = if eqb s.entering 0 then none else some (on_ensure s)
  step (poll w) s = on_worker (poll w) w (phase_of w s.workers) s
  step (mark_idle w) s = on_worker (mark_idle w) w (phase_of w s.workers) s
  step (handled w) s = on_worker (handled w) w (phase_of w s.workers) s
  step (killed w) s = on_worker (killed w) w (phase_of w s.workers) s

  abbrev pub then_step : Option (Inbox E) → (Inbox E → Option (Inbox E)) → Option (Inbox E)
  then_step none f = none
  then_step (some s) f = f s

  unfoldable pub run : List (Move E) → Inbox E → Option (Inbox E)
  run [] s = some s
  run (m ∷ ms) s = then_step (step m s) (run ms)
