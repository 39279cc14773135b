-- ===== src/Inbox/Tests.antt =====
-- Runs of the inboxes, and the theorems at those runs.
use im_assistant.Prelude.{
  ℕ, ◌≡◌, refl, none, some, List, [], ◌∷◌, Text, codes, is_space, lstrip, rcons, rstrip, strip,
  ◌==◌, non_empty_string, length,
}
use im_assistant.Prelude.Dict.{get, set}
use im_assistant.Inbox.{
  polling, processing, Inbox, Move, put, ensure_worker, poll, mark_idle, handled, killed, new_inbox,
  phase_of, set_phase, end_task, on_ensure, step, run,
}
use im_assistant.Inbox.Invariant.{IsValid, run-IsValid}
use im_assistant.Inbox.Drain.{IsDrained, remaining_moves, run_drains}
use im_assistant.Inbox.Dispatcher.{
  Dispatcher, DispatcherMove, enqueue, inbox_move, new_dispatcher, events_for, dispatch,
  dispatcher_step, dispatcher_run, IsRouted,
}
use im_assistant.Inbox.Dispatcher.Routing.{dispatcher_run-IsRouted}

program : Unit {0}
unfolding is_space lstrip rcons rstrip strip ◌==◌ non_empty_string get set phase_of set_phase
    end_task on_ensure step run events_for dispatch dispatcher_step dispatcher_run
program = tt

-- Two events, the second put while the worker is about to go idle; both calls then ensure a worker.
abbrev busy_moves : List (Move ℕ)
busy_moves =
    put 7
    ∷ ensure_worker
    ∷ poll 0
    ∷ handled 0
    ∷ poll 0
    ∷ put 8
    ∷ mark_idle 0
    ∷ ensure_worker
    ∷ poll 0
    ∷ []

abbrev busy : Inbox ℕ
busy = record {
  queue = [];
  unfinished = 1;
  worker_task = some 0;
  workers = (0, processing 8) ∷ [];
  next_task = 1;
  entering = 0;
  arrived = 7 ∷ 8 ∷ [];
  taken = 7 ∷ 8 ∷ [];
}

busy_reached : run busy_moves new_inbox ≡ some busy
unfolding program
busy_reached = refl

abbrev killed_moves : List (Move ℕ)
killed_moves =
    put 7
    ∷ ensure_worker
    ∷ put 8
    ∷ ensure_worker
    ∷ poll 0
    ∷ killed 0
    ∷ put 9
    ∷ ensure_worker
    ∷ poll 1
    ∷ []

-- A worker that is killed leaves the queue to the next `enqueue`, which starts another.
killed_test :
    run killed_moves new_inbox
    ≡ some (record {
      queue = 9 ∷ [];
      unfinished = 2;
      worker_task = some 1;
      workers = (1, processing 8) ∷ [];
      next_task = 2;
      entering = 0;
      arrived = 7 ∷ 8 ∷ 9 ∷ [];
      taken = 7 ∷ 8 ∷ [];
    })
unfolding program
killed_test = refl

run-IsValid_example : IsValid busy
run-IsValid_example = run-IsValid busy_moves busy busy_reached

busy_live : phase_of 0 busy.workers ≡ some (processing 8)
unfolding program
busy_live = refl

run_drains_example :
    (t : Inbox ℕ) × (run (remaining_moves 0 (processing 8) (length busy.queue)) busy ≡ some t)
    × IsDrained busy t
    × (t.unfinished ≡ 0)
    × (t.taken ≡ busy.arrived)
run_drains_example = run_drains busy_moves 0 (processing 8) busy busy_reached busy_live

abbrev quiet_moves : List (Move ℕ)
quiet_moves = put 7 ∷ ensure_worker ∷ poll 0 ∷ handled 0 ∷ []

abbrev quiet : Inbox ℕ
quiet = record busy {
  unfinished = 0;
  workers = (0, polling) ∷ [];
  arrived = 7 ∷ [];
  taken = 7 ∷ [];
}

quiet_reached : run quiet_moves new_inbox ≡ some quiet
unfolding program
quiet_reached = refl

-- An event is its conversation id here; the last one has none, and is refused.
abbrev sendings : List (DispatcherMove Text)
sendings =
    enqueue (codes "c1")
    ∷ enqueue (codes " c2")
    ∷ inbox_move (codes "c1") ensure_worker
    ∷ enqueue (codes "c1 ")
    ∷ inbox_move (codes "c1") (poll 0)
    ∷ enqueue (codes "  ")
    ∷ []

abbrev dispatched : Dispatcher Text
dispatched = record {
  inboxes =
      (
        codes "c1",
        record {
          queue = codes "c1 " ∷ [];
          unfinished = 2;
          worker_task = some 0;
          workers = (0, processing (codes "c1")) ∷ [];
          next_task = 1;
          entering = 1;
          arrived = codes "c1" ∷ codes "c1 " ∷ [];
          taken = codes "c1" ∷ [];
        },
      )
      ∷ (
        codes "c2",
        record {
          queue = codes " c2" ∷ [];
          unfinished = 1;
          worker_task = none;
          workers = [];
          next_task = 0;
          entering = 1;
          arrived = codes " c2" ∷ [];
          taken = [];
        },
      )
      ∷ [];
  sent = (codes "c1", codes "c1") ∷ (codes "c2", codes " c2") ∷ (codes "c1", codes "c1 ") ∷ [];
}

dispatched_reached : dispatcher_run (λ e. e) sendings new_dispatcher ≡ some dispatched
unfolding program
dispatched_reached = refl

dispatcher_run-IsRouted_example : IsRouted dispatched
dispatcher_run-IsRouted_example =
    dispatcher_run-IsRouted (λ e. e) sendings dispatched dispatched_reached
