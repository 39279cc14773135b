-- ===== src/Command/Dispatch/Handler.antt =====
-- A dispatch runs the handler of an admitted command and does nothing else to the state; any other
-- does not depend on the handlers.
use im_assistant.Prelude.{
  ◌≡◌, refl, sym, ◌∙◌, ◌⊎◌, inl, inr, Bool, Option, none, some, List, Text, Error, Action, pure,
  raise, ◌>>◌, Bool-cases, Result-cases,
}
use im_assistant.Prelude.Dict.{Dict}
use im_assistant.Instant.{Instant}
use im_assistant.Session.{Session, Actor}
use im_assistant.Store.Records.{Db}
use im_assistant.Command.{
  Command, CommandRole, Words, Arguments, parsed, rejected, parse_args, parse_command_text,
}
use im_assistant.Command.Roles.{is_available}
use im_assistant.Command.Registry.{get_command, actor_has_required_role}
use im_assistant.Command.Dispatch.{
  CommandContext, execution, record_command_audit, settle_call, run_handler, in_session,
  dispatch_to, handle_command,
}
use im_assistant.Command.Dispatch.Verdict.{
  Plan, fails, answers, runs, plan_arguments, plan_in_session, plan_for, plan_found, plan_parsed,
  plan, IsAdmitted, IsAdmitted-plan, plan-IsAdmitted,
}

module _ {H E : Type 0} (call : H → CommandContext H E → Action Db (Option Text))
    (split : Text → Words) (roles_for_actor : Session → Actor → List CommandRole) (audited : Bool)
    (message : Error → Text) (now : Instant) where
  -- What is done about a plan.
  unfoldable pub follow : E → Plan H → Action Db (Option Text)
  follow event (fails e) = raise e
  follow event (answers x reply) = do record_command_audit audited now x; pure (some reply)
  follow event (runs session name args_text c args) = λ db.
      settle_call audited message now (execution (some session) name args args_text (some c)) (
        call c.handler
          (record {
            session = session;
            command = c;
            args = args;
            args_text = args_text;
            event = event;
          })
          db)

  run_handler-plan :
      (s : Session) (n x : Text) (event : E) (c : Command H) (given : Arguments) (db : Db)
      → run_handler call split roles_for_actor audited message now s n x event c given db
        ≡ follow event (plan_arguments split roles_for_actor s n x c given) db
  unfolding run_handler follow plan_arguments
  run_handler-plan s n x event c (parsed args) db = refl
  run_handler-plan s n x event c (rejected reason) db = refl

  in_session-plan :
      (s : Session) (n x : Text) (event : E) (c : Command H) (db : Db)
      → in_session call split roles_for_actor audited message now s n x event c db
        ≡ follow event (plan_in_session split roles_for_actor s n x c) db
  unfolding in_session plan_in_session follow
  in_session-plan s n x event c db = elim (Bool-cases (is_available s.kind c.available_in)) [
    | inr e ↦ rw e refl
    | inl e ↦ elim (Bool-cases (actor_has_required_role roles_for_actor s c.requires_role)) [
      | inr f ↦ rw (e, f) refl
      | inl f ↦ rw (e, f) (run_handler-plan s n x event c (parse_args split c.args_spec x) db)
    ]
  ]

  dispatch_to-plan :
      (session : Option Session) (n x : Text) (event : E) (found : Option (Command H)) (db : Db)
      → dispatch_to call split roles_for_actor audited message now session n x event found db
        ≡ follow event (plan_for split roles_for_actor session n x found) db
  unfolding dispatch_to follow plan_for
  dispatch_to-plan session n x event none db = refl
  dispatch_to-plan none n x event (some c) db = refl
  dispatch_to-plan (some s) n x event (some c) db = in_session-plan s n x event c db

  pub handle_command-plan :
      (registry : Dict (Command H)) (session : Option Session) (command_text : Text) (event : E)
      (db : Db)
      → handle_command call split roles_for_actor audited message now registry session command_text
          event db
        ≡ follow event (plan split roles_for_actor registry session command_text) db
  unfolding handle_command plan plan_parsed plan_found follow
  handle_command-plan registry session command_text event db =
      elim (Result-cases (parse_command_text command_text)) [
        | inr (e, failed) ↦ rw failed refl
        | inl ((n, x), parses) ↦ elim (Result-cases (get_command n registry)) [
          | inr (e, failed) ↦ rw (parses, failed) refl
          | inl (c, got) ↦ rw (parses, got) (dispatch_to-plan session n x event c db)
        ]
      ]

  -- An admitted command is run: its handler gets the Session, the command, the arguments and the
  -- event, and what it returns or raises is what the dispatch settles.
  pub handle_command-IsAdmitted :
      (registry : Dict (Command H)) (s : Session) (command_text n x : Text) (c : Command H)
      (args : List Text) (event : E) (db : Db)
      → IsAdmitted split roles_for_actor registry s command_text n x c args
      → handle_command call split roles_for_actor audited message now registry
          (some s)
          command_text
          event
          db
        ≡ settle_call audited message now (execution (some s) n args x (some c)) (
            call c.handler
              (record { session = s; command = c; args = args; args_text = x; event = event })
              db)
  unfolding follow
  handle_command-IsAdmitted registry s command_text n x c args event db a =
      rw
        (
          handle_command-plan registry (some s) command_text event db,
          IsAdmitted-plan split roles_for_actor a,
        )
        refl

module _ {H E : Type 0} (call call' : H → CommandContext H E → Action Db (Option Text))
    (split : Text → Words) (roles_for_actor : Session → Actor → List CommandRole) (audited : Bool)
    (message : Error → Text) (now : Instant) where
  follow_answers :
      (event : E) (db : Db) (p : Plan H)
      → (follow call split roles_for_actor audited message now event p db
          ≡ follow call' split roles_for_actor audited message now event p db)
        ⊎ ((s : Session) × (n : Text) × (x : Text) × (c : Command H) × (args : List Text) × (p
              ≡ runs s n x c args))
  unfolding follow
  follow_answers event db (fails e) = inl refl
  follow_answers event db (answers x reply) = inl refl
  follow_answers event db (runs s n x c args) = inr (s, n, x, c, args, refl)

  -- A dispatch that does not run the handler of an admitted command does the same whatever the
  -- handlers are: no handler is called by a text that names no command, without a Session, in a
  -- conversation of another kind, by an actor without the role, or with other arguments than the
  -- command takes.
  pub handle_command_gate :
      (registry : Dict (Command H)) (session : Option Session) (command_text : Text) (event : E)
      (db : Db)
      → (handle_command call split roles_for_actor audited message now registry session command_text
            event db
          ≡ handle_command call' split roles_for_actor audited message now registry session
              command_text event db)
        ⊎ ((s : Session) × (n : Text) × (x : Text) × (c : Command H) × (args : List Text) × (session
              ≡ some s)
            × IsAdmitted split roles_for_actor registry s command_text n x c args)
  handle_command_gate registry session command_text event db =
      let p = plan split roles_for_actor registry session command_text in
      elim (follow_answers event db p) [
        | inl same ↦ inl (
            handle_command-plan call split roles_for_actor audited message now registry session
              command_text event db
            ∙ same
            ∙ sym (
                handle_command-plan call' split roles_for_actor audited message now registry session
                  command_text event db))
        | inr (s, n, x, c, args, e) ↦
            let (same, admitted) =
              plan-IsAdmitted split roles_for_actor registry session s command_text n x c args e in
            inr (s, n, x, c, args, same, admitted)
      ]
