-- ===== src/Inbox/Dispatcher.antt =====
-- `SessionInboxDispatcher` (src/core/inbox.py): one inbox per conversation, made on its first event.
-- Its lock, too, is held over no `await`. `sent` is the history of the events that were dispatched, with their keys.
pub mod Routing
use mathlib.Core.Option.{some-injective}
use im_assistant.Prelude.{
  ℕ, ◌≡◌, refl, sym, ap, ◌∙◌, subst, Bool, true, false, not, Option, none, some, List, [], ◌∷◌,
  ◌++◌, append-nil, Text, ◌==◌, eq_iff, eq_refl, Result, ok, err, Result-cases, Option-cases,
  Bool-cases, inl, inr, Action, lift, modify, ◌>>=◌, non_empty_string, or_default, eqb,
  if◌then◌else◌, arith,
}
use im_assistant.Prelude.Dict.{Dict, get, set, get-set}
use im_assistant.Inbox.{
  Phase, polling, checking, processing, Inbox, Move, put, ensure_worker, poll, mark_idle, handled,
  killed, new_inbox, phase_of, on_put, on_ensure, on_poll, on_mark_idle, on_worker, has_no_worker,
  step,
}
use im_assistant.Inbox.Invariant.{IsValid, new_inbox-IsValid, put-IsValid, step-IsValid}

pub record Dispatcher (E : Type 0) : Type 0 where
  pub inboxes : Dict (Inbox E)
  pub sent : List (Text × E)

-- A move of the dispatcher: an `enqueue` up to the put, or a move of one inbox after that.
pub data DispatcherMove (E : Type 0) : Type 0 where
  enqueue : E → DispatcherMove E
  inbox_move : Text → Move E → DispatcherMove E

abbrev pub is_put {ℓ} : {E : Type ℓ} → Move E → Bool
is_put (put _) = true
is_put ensure_worker = false
is_put (poll _) = false
is_put (mark_idle _) = false
is_put (handled _) = false
is_put (killed _) = false

module _ {E : Type 0} where
  abbrev pub new_dispatcher : Dispatcher E
  new_dispatcher = record { inboxes = []; sent = [] }

  -- `_get_or_create_inbox`, the inbox then put into
  abbrev pub put_into : Text → E → Dict (Inbox E) → Dict (Inbox E)
  put_into key e boxes = set key (on_put e (or_default (get key boxes) new_inbox)) boxes

  -- The events of one conversation.
  unfoldable pub events_for : Text → List (Text × E) → List E
  events_for key [] = []
  events_for key ((k, e) ∷ rest) =
      let others = events_for key rest in if k == key then e ∷ others else others

  abbrev pub moved_inbox : Text → Dispatcher E → Option (Inbox E) → Option (Dispatcher E)
  moved_inbox key d none = none
  moved_inbox key d (some t) = some (record d { inboxes = set key t d.inboxes })

  abbrev pub move_inbox : Text → Move E → Dispatcher E → Option (Inbox E) → Option (Dispatcher E)
  move_inbox key m d none = none
  move_inbox key m d (some s) = moved_inbox key d (step m s)

  -- `d.enqueue(event)`, which raises where the event has no conversation id
  unfoldable pub dispatch : (E → Text) → E → Action (Dispatcher E) (Unit {0})
  dispatch conversation_id e = do
    key ← lift (non_empty_string (conversation_id e))
    modify λ d. record d { inboxes = put_into key e d.inboxes; sent = d.sent ++ (key, e) ∷ [] }

  unfoldable pub dispatcher_step :
      (E → Text) → DispatcherMove E → Dispatcher E → Option (Dispatcher E)
  dispatcher_step conversation_id (enqueue e) d = some (dispatch conversation_id e d).1
  dispatcher_step conversation_id (inbox_move key m) d =
      if is_put m then none else move_inbox key m d (get key d.inboxes)

  abbrev pub then_dispatch :
      Option (Dispatcher E) → (Dispatcher E → Option (Dispatcher E)) → Option (Dispatcher E)
  then_dispatch none f = none
  then_dispatch (some d) f = f d

  unfoldable pub dispatcher_run :
      (E → Text) → List (DispatcherMove E) → Dispatcher E → Option (Dispatcher E)
  dispatcher_run conversation_id [] d = some d
  dispatcher_run conversation_id (m ∷ ms) d =
      then_dispatch (dispatcher_step conversation_id m d) (dispatcher_run conversation_id ms)

  -- The inbox of a conversation has been put what was dispatched for it, in that order.
  abbrev pub Routed : Option (Inbox E) → List E → Type 0
  Routed none es = es ≡ []
  Routed (some s) es = IsValid s × (s.arrived ≡ es)

  abbrev pub IsRouted : Dispatcher E → Type 0
  IsRouted d = (key : Text) → Routed (get key d.inboxes) (events_for key d.sent)
