-- ===== src/Command/Dispatch/Audited.antt =====
-- Every dispatch that answers is in the audit log, under its name and its outcome.
use im_assistant.Prelude.{
  ◌≡◌, refl, sym, ap, ◌∙◌, subst, ◌⊎◌, inl, inr, true, Option, none, some, List, Text, codes, Error,
  Result, ok, err, ok-injective, Action, pure, ◌>>=◌, ◌>>◌, continue-eq-ok, returned-eq, Bool-cases,
  Result-cases, non_empty_string,
}
use im_assistant.Prelude.Dict.{Dict}
use im_assistant.Instant.{Instant}
use im_assistant.Json.{text, get}
use im_assistant.Session.{Session, Actor}
use im_assistant.Store.Records.{AuditRecord, Db}
use im_assistant.Store.AuditLog.Appends.{with_audit}
use im_assistant.Audit.Execution.{
  CommandOutcome, executed, CommandExecution, outcome_text, record_command_execution,
}
use im_assistant.Audit.Execution.Logged.{IsRecordOf, record_command_execution-IsRecordOf}
use im_assistant.Command.{
  Command, CommandRole, Words, Arguments, parsed, rejected, parse_args, parse_command_text,
}
use im_assistant.Command.Names.{parse_command_text-IsName, IsName-non_empty_string}
use im_assistant.Command.Roles.{is_available}
use im_assistant.Command.Registry.{get_command, actor_has_required_role}
use im_assistant.Command.Dispatch.{
  CommandContext, execution, record_command_audit, settle_call, handle_command,
}
use im_assistant.Command.Dispatch.Verdict.{
  Plan, fails, answers, runs, plan_arguments, plan_in_session, plan_for, plan_found, plan_parsed,
  plan, IsAdmitted, plan-IsAdmitted,
}
use im_assistant.Command.Dispatch.Handler.{follow, handle_command-plan}

-- A refusal is recorded under the name, with another outcome than `executed`; a command that runs is
-- recorded under the name.
abbrev Speaks : {H : Type 0} → Text → Plan H → Type 0
Speaks name (fails e) = Unit
Speaks name (answers x reply) = (x.command_name ≡ name) × (x.outcome ≡ executed → ⊥)
Speaks name (runs s n x c args) = n ≡ name

module _ {H : Type 0} (split : Text → Words)
    (roles_for_actor : Session → Actor → List CommandRole) where
  plan_arguments-Speaks :
      (s : Session) (n x : Text) (c : Command H) (given : Arguments)
      → Speaks n (plan_arguments split roles_for_actor s n x c given)
  unfolding plan_arguments execution
  plan_arguments-Speaks s n x c (parsed args) = refl
  plan_arguments-Speaks s n x c (rejected reason) = (refl, λ h. cc)

  plan_for-Speaks :
      (session : Option Session) (n x : Text) (found : Option (Command H))
      → Speaks n (plan_for split roles_for_actor session n x found)
  unfolding plan_for plan_in_session execution
  plan_for-Speaks session n x none = (refl, λ h. cc)
  plan_for-Speaks none n x (some c) = (refl, λ h. cc)
  plan_for-Speaks (some s) n x (some c) = elim (Bool-cases (is_available s.kind c.available_in)) [
    | inr e ↦ rw e (refl, λ h. cc)
    | inl e ↦ elim (Bool-cases (actor_has_required_role roles_for_actor s c.requires_role)) [
      | inr f ↦ rw (e, f) (refl, λ h. cc)
      | inl f ↦ rw (e, f) (plan_arguments-Speaks s n x c (parse_args split c.args_spec x))
    ]
  ]

  plan-Speaks :
      (registry : Dict (Command H)) (session : Option Session) (command_text n x : Text)
      → parse_command_text command_text ≡ ok (n, x)
      → Speaks n (plan split roles_for_actor registry session command_text)
  unfolding plan plan_parsed plan_found
  plan-Speaks registry session command_text n x parses =
      elim (Result-cases (get_command n registry)) [
        | inr (e, bad) ↦ rw (parses, bad) tt
        | inl (c, got) ↦ rw (parses, got) (plan_for-Speaks session n x c)
      ]

-- An audited record, and what is returned after it.
recorded :
    (now : Instant) (x : CommandExecution) (reply given : Option Text) (mid db' : Db)
    → (do record_command_audit true now x; pure given) mid ≡ (ok reply, db')
    → (given ≡ reply) × (row : AuditRecord) × (db' ≡ with_audit row mid) × IsRecordOf x row
unfolding record_command_audit
recorded now x reply given mid db' h =
    let (_, u, first, rest) =
      continue-eq-ok ((do _ ← record_command_execution now x; pure tt) mid) _ h in
    let (r, v, done, last) = continue-eq-ok (record_command_execution now x mid) _ first in
    let (row, left, is_record) = record_command_execution-IsRecordOf now x mid v r done in
    let (e, back) = returned-eq rest in
    let (_, same) = returned-eq last in (e, row, sym back ∙ (sym same ∙ left), is_record)

-- What a dispatch that answered has left: the state `mid`, with one row more in the log. The row is
-- under the command's name. Either the handler of an admitted command has left `mid` and given the
-- reply, and the outcome is `executed`, or nothing was done before, and the outcome is another.
module _ {H E : Type 0} (call : H → CommandContext H E → Action Db (Option Text))
    (split : Text → Words) (roles_for_actor : Session → Actor → List CommandRole)
    (message : Error → Text) (now : Instant) (registry : Dict (Command H))
    (session : Option Session) (command_text : Text) (event : E) (db : Db) where
  abbrev pub HasOutcome : CommandOutcome → AuditRecord → Type 0
  HasOutcome o row = get (codes "outcome") row.metadata ≡ some (text (outcome_text o))

  abbrev pub Ran : Option Text → Db → AuditRecord → Type 0
  Ran reply mid row =
      (s : Session) × (n : Text) × (x : Text) × (c : Command H) × (args : List Text) × (session
        ≡ some s)
      × IsAdmitted split roles_for_actor registry s command_text n x c args
      × (call c.handler
            (record { session = s; command = c; args = args; args_text = x; event = event }) db
          ≡ (ok reply, mid))
      × HasOutcome executed row

  abbrev pub Refused : Db → AuditRecord → Type 0
  Refused mid row = (mid ≡ db) × (o : CommandOutcome) × (o ≡ executed → ⊥) × HasOutcome o row

  pub record IsAudited (name : Text) (reply : Option Text) (mid : Db) (row : AuditRecord)
      : Type 0 where
    pub event_type : row.event_type ≡ codes "command_execution"
    pub action : row.action ≡ some name
    pub outcome : Ran reply mid row ⊎ Refused mid row

  IsRecordOf-IsAudited :
      (x : CommandExecution) (name : Text) (reply : Option Text) (mid : Db) (row : AuditRecord)
      → non_empty_string name ≡ ok name
      → x.command_name ≡ name
      → IsRecordOf x row
      → (HasOutcome x.outcome row → Ran reply mid row ⊎ Refused mid row)
      → IsAudited name reply mid row
  IsRecordOf-IsAudited x name reply mid row fixed named r tell = record {
    event_type = r.event_type;
    action = r.action ∙ ap some (ok-injective (sym r.named ∙ (ap non_empty_string named ∙ fixed)));
    outcome = tell r.tells.1;
  }

  abbrev pub Answer : Text → Option Text → Db → Type 0
  Answer name reply db' =
      (mid : Db) × (row : AuditRecord) × (db' ≡ with_audit row mid) × IsAudited name reply mid row

  abbrev context_of : Session → Text → Command H → List Text → CommandContext H E
  context_of s x c args = record {
    session = s;
    command = c;
    args = args;
    args_text = x;
    event = event;
  }

  settle_call-IsAudited :
      (s : Session) (n x : Text) (c : Command H) (args : List Text) (reply : Option Text)
      (out : Result (Option Text) × Db) (db' : Db)
      → non_empty_string n ≡ ok n
      → session ≡ some s
      → IsAdmitted split roles_for_actor registry s command_text n x c args
      → call c.handler (context_of s x c args) db ≡ out
      → settle_call true message now (execution (some s) n args x (some c)) out ≡ (ok reply, db')
      → Answer n reply db'
  unfolding settle_call execution
  settle_call-IsAudited s n x c args reply (ok given, mid) db' fixed same admitted called h =
      let (e, row, left, r) =
        recorded now (execution (some s) n args x (some c) executed none) reply given mid db' h in
      let replied = called ∙ ap (λ g. (ok g, mid)) e in
      (
        mid,
        row,
        left,
        IsRecordOf-IsAudited (execution (some s) n args x (some c) executed none) n reply mid row
            fixed refl r (λ o. inl (s, n, x, c, args, same, admitted, replied, o)),
      )
  settle_call-IsAudited s n x c args reply (err e, mid) db' fixed same admitted called h =
      let (_, u, _, raised) =
        continue-eq-ok
          (record_command_audit true now
            (execution (some s) n args x (some c) CommandOutcome.failed (some (message e))) mid)
          _ h in
      absurd (cc raised)

  follow-IsAudited :
      (p : Plan H) (name : Text) (reply : Option Text) (db' : Db)
      → non_empty_string name ≡ ok name
      → Speaks name p
      → plan split roles_for_actor registry session command_text ≡ p
      → follow call split roles_for_actor true message now event p db ≡ (ok reply, db')
      → Answer name reply db'
  unfolding follow
  follow-IsAudited (fails e) name reply db' fixed speaks planned h = cc
  follow-IsAudited (answers x given) name reply db' fixed speaks planned h =
      let (_, row, left, r) = recorded now x reply (some given) db db' h in
      (
        db,
        row,
        left,
        IsRecordOf-IsAudited x name reply db row fixed speaks.0 r
            (λ o. inr (refl, x.outcome, speaks.1, o)),
      )
  follow-IsAudited (runs s n x c args) name reply db' fixed speaks planned h =
      let (same, admitted) =
        plan-IsAdmitted split roles_for_actor registry session s command_text n x c args planned in
      subst (λ m. Answer m reply db') speaks
        (settle_call-IsAudited s n x c args reply (call c.handler (context_of s x c args) db) db'
          (subst (λ m. non_empty_string m ≡ ok m) (sym speaks) fixed) same admitted refl h)

  -- Where there is an audit logger, a dispatch that answers has put one record into the log, under
  -- the name of the command in normal form, and has done nothing else beside what the handler did:
  -- either an admitted command's handler gave the reply, and the outcome is `executed`, or no
  -- handler was called, the rest of the state is as before, and the outcome is another.
  pub handle_command-IsAudited :
      (reply : Option Text) (db' : Db)
      → handle_command call split roles_for_actor true message now registry session command_text
          event db
        ≡ (ok reply, db')
      → (name : Text) × (args_text : Text) × (parse_command_text command_text
          ≡ ok (name, args_text))
        × Answer name reply db'
  unfolding handle_command
  handle_command-IsAudited reply db' h =
      let planned =
        sym (
          handle_command-plan call split roles_for_actor true message now registry session
            command_text event db)
        ∙ h in
      elim (Result-cases (parse_command_text command_text)) [
        | inr (e, bad) ↦ absurd (cc (rw bad at h))
        | inl ((name, args_text), parses) ↦ (
          name,
          args_text,
          parses,
          follow-IsAudited (plan split roles_for_actor registry session command_text) name reply db'
              (IsName-non_empty_string name
                (parse_command_text-IsName command_text name args_text parses))
              (plan-Speaks split roles_for_actor registry session command_text name args_text
                parses)
              refl planned,
        )
      ]
