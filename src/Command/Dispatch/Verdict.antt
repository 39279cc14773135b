-- ===== src/Command/Dispatch/Verdict.antt =====
-- What a dispatch comes to, before anything is done: it fails, it answers without the handler, or
-- it runs the handler.
use im_assistant.Prelude.{
  ◌≡◌, refl, sym, ap, ◌∙◌, subst, inl, inr, true, Option, none, some, List, [], ◌++◌, Among, Text,
  codes, Error, Result, ok, err, Bool-cases, Result-cases, if◌then◌else◌, arith,
}
use im_assistant.Prelude.Dict.{Dict}
use im_assistant.Session.{Session, Actor}
use im_assistant.Audit.Execution.{
  unknown_command, missing_session, unavailable, forbidden, invalid_args, CommandExecution,
}
use im_assistant.Command.{
  Command, CommandRole, role_text, Words, words, Arguments, parsed, rejected, parse_args,
  parse_command_text,
}
use im_assistant.Command.Roles.{is_available}
use im_assistant.Command.Admission.{
  HasRole, Within, words_of, is_available_iff, any_at_least_iff, parse_args_iff,
}
use im_assistant.Command.Registry.{get_command, actor_has_required_role}
use im_assistant.Command.Dispatch.{execution}

pub data Plan (H : Type 0) : Type 0 where
  fails : Error → Plan H
  -- a refusal: what is recorded, and the reply
  answers : CommandExecution → Text → Plan H
  runs : Session → Text → Text → Command H → List Text → Plan H

module _ {H : Type 0} (split : Text → Words)
    (roles_for_actor : Session → Actor → List CommandRole) where
  unfoldable pub plan_arguments : Session → Text → Text → Command H → Arguments → Plan H
  plan_arguments session name args_text c (rejected reason) =
      answers (execution (some session) name [] args_text (some c) invalid_args (some reason))
        (codes "参数错误:" ++ reason)
  plan_arguments session name args_text c (parsed args) = runs session name args_text c args

  unfoldable pub plan_in_session : Session → Text → Text → Command H → Plan H
  plan_in_session session name args_text c =
      if is_available session.kind c.available_in
      then (if actor_has_required_role roles_for_actor session c.requires_role
          then plan_arguments session name args_text c (parse_args split c.args_spec args_text)
          else answers
              (execution (some session) name [] args_text (some c) forbidden
                (some (codes "requires_role:" ++ role_text c.requires_role)))
              (codes "权限不足:" ++ c.name ++ codes " 需要 " ++ role_text c.requires_role ++ codes " 权限"))
      else answers (execution (some session) name [] args_text (some c) unavailable none)
          (codes "该指令不能在当前会话使用:" ++ c.name)

  unfoldable pub plan_for : Option Session → Text → Text → Option (Command H) → Plan H
  plan_for session name args_text none =
      answers (execution {H = H} session name [] args_text none unknown_command none)
        (codes "未知指令:" ++ name)
  plan_for none name args_text (some c) =
      answers (execution none name [] args_text (some c) missing_session none) (codes "指令需要会话上下文")
  plan_for (some session) name args_text (some c) = plan_in_session session name args_text c

  unfoldable pub plan_found : Option Session → Text → Text → Result (Option (Command H)) → Plan H
  plan_found session name args_text (err e) = fails e
  plan_found session name args_text (ok found) = plan_for session name args_text found

  unfoldable pub plan_parsed : Dict (Command H) → Option Session → Result (Text × Text) → Plan H
  plan_parsed registry session (err e) = fails e
  plan_parsed registry session (ok (name, args_text)) =
      plan_found session name args_text (get_command name registry)

  unfoldable pub plan : Dict (Command H) → Option Session → Text → Plan H
  plan registry session command_text =
      plan_parsed registry session (parse_command_text command_text)

  -- The dispatch of a text runs this command with these arguments: the text names it, the Session
  -- is of a kind that it is available in, the actor has a role of at least the level that it
  -- requires, and its argument text splits into as many words as it takes.
  pub record IsAdmitted (registry : Dict (Command H)) (session : Session) (command_text : Text)
      (name args_text : Text) (c : Command H) (args : List Text) : Type 0 where
    pub parses : parse_command_text command_text ≡ ok (name, args_text)
    pub found : get_command name registry ≡ ok (some c)
    pub available : Among session.kind c.available_in
    pub role : HasRole c.requires_role (roles_for_actor session session.actor)
    pub splits : words_of split args_text ≡ words args
    pub within : Within c.args_spec args

  -- An admitted command is run.
  pub IsAdmitted-plan :
      {registry : Dict (Command H)} {session : Session} {command_text name args_text : Text}
      {c : Command H} {args : List Text}
      → IsAdmitted registry session command_text name args_text c args
      → plan registry (some session) command_text ≡ runs session name args_text c args
  unfolding plan plan_parsed plan_found plan_for plan_in_session plan_arguments
      actor_has_required_role
  IsAdmitted-plan {session} {args_text} {c} {args} a =
      rw
        (
          a.parses,
          a.found,
          (is_available_iff session.kind c.available_in).1 a.available,
          (any_at_least_iff c.requires_role (roles_for_actor session session.actor)).1 a.role,
          (parse_args_iff split c.args_spec args_text args).1 (a.splits, a.within),
        )
        refl

  plan_arguments-runs :
      (s t : Session) (n m x y : Text) (c d : Command H) (given : Arguments) (args : List Text)
      → plan_arguments s n x c given ≡ runs t m y d args
      → (s ≡ t) × (n ≡ m) × (x ≡ y) × (c ≡ d) × (given ≡ parsed args)
  unfolding plan_arguments
  plan_arguments-runs s t n m x y c d (parsed given) args h = ground arith
  plan_arguments-runs s t n m x y c d (rejected reason) args h = cc

  plan_in_session-runs :
      (s t : Session) (n m x y : Text) (c d : Command H) (args : List Text)
      → plan_in_session s n x c ≡ runs t m y d args
      → (is_available s.kind c.available_in ≡ true)
        × (actor_has_required_role roles_for_actor s c.requires_role ≡ true)
        × (plan_arguments s n x c (parse_args split c.args_spec x) ≡ runs t m y d args)
  unfolding plan_in_session
  plan_in_session-runs s t n m x y c d args h =
      elim (Bool-cases (is_available s.kind c.available_in)) [
        | inr e ↦ absurd (cc (rw e at h))
        | inl e ↦ elim (Bool-cases (actor_has_required_role roles_for_actor s c.requires_role)) [
          | inr f ↦ absurd (cc (rw (e, f) at h))
          | inl f ↦ (e, f, (rw (e, f) at h))
        ]
      ]

  abbrev Admits : Session → Text → Command H → List Text → Type 0
  Admits s x c args =
      (is_available s.kind c.available_in ≡ true)
      × (actor_has_required_role roles_for_actor s c.requires_role ≡ true)
      × (parse_args split c.args_spec x ≡ parsed args)

  plan_for-runs :
      (session : Option Session) (found : Option (Command H)) (t : Session) (n m x y : Text)
      (d : Command H) (args : List Text)
      → plan_for session n x found ≡ runs t m y d args
      → (session ≡ some t) × (n ≡ m) × (x ≡ y) × (found ≡ some d) × Admits t y d args
  unfolding plan_for
  plan_for-runs session none t n m x y d args h = cc
  plan_for-runs none (some c) t n m x y d args h = cc
  plan_for-runs (some s) (some c) t n m x y d args h =
      let (available, role, ran) = plan_in_session-runs s t n m x y c d args h in
      let (es, en, ex, ec, e) =
        plan_arguments-runs s t n m x y c d (parse_args split c.args_spec x) args ran in
      let admits : Admits s x c args = (available, role, e) in
      (
        ap some es,
        en,
        ex,
        ap some ec,
        subst (λ s. Admits s y d args) es
            (subst (λ x. Admits s x d args) ex (subst (λ c. Admits s x c args) ec admits)),
      )

  -- A command that is run was admitted.
  pub plan-IsAdmitted :
      (registry : Dict (Command H)) (session : Option Session) (t : Session)
      (command_text m y : Text) (d : Command H) (args : List Text)
      → plan registry session command_text ≡ runs t m y d args
      → (session ≡ some t) × IsAdmitted registry t command_text m y d args
  unfolding plan plan_parsed plan_found actor_has_required_role
  plan-IsAdmitted registry session t command_text m y d args h =
      elim (Result-cases (parse_command_text command_text)) [
        | inr (e, failed) ↦ absurd (cc (rw failed at h))
        | inl ((n, x), parses) ↦ elim (Result-cases (get_command n registry)) [
          | inr (e, failed) ↦ absurd (cc (rw (parses, failed) at h))
          | inl (c, got) ↦
              let (es, en, ex, ec, admits) =
                plan_for-runs session c t n m x y d args (rw (parses, got) at h) in
              let (available, role, arguments) = admits in
              let (splits, within) = (parse_args_iff split d.args_spec y args).0 arguments in
              (
                es,
                record {
                  parses = parses ∙ cc;
                  found = ap (λ k. get_command k registry) (sym en) ∙ (got ∙ ap ok ec);
                  available = (is_available_iff t.kind d.available_in).0 available;
                  role = (any_at_least_iff d.requires_role (roles_for_actor t t.actor)).0 role;
                  splits = splits;
                  within = within;
                },
              )
        ]
      ]
