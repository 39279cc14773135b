-- ===== src/Command/Tests.antt =====
-- A registry with two commands, their dispatches, and the theorems at those calls.
use im_assistant.Prelude.{
  ◌≡◌, ◌↔◌, ◌⊎◌, refl, inl, true, Option, none, some, List, [], ◌∷◌, ◌++◌, Text, codes, ok, err,
  value_error, other_error, Error, Action, pure, raise, is_space, lstrip, rcons, rstrip, strip,
  lower, ◌==◌, non_empty_string, non_empty_strings, optional_string, exists, arith,
}
use im_assistant.Prelude.Dict.{Dict, get, set, contains}
use im_assistant.Prelude.Sorted.{sorted_keys, values_at}
use im_assistant.Json as Json
use im_assistant.Json.Plain.{plain_object, plain_value, plain_fields, plain_items}
use im_assistant.Session.{Session, SessionKind}
use im_assistant.Store.Records.{Db}
use im_assistant.Store.AuditLog.{append_audit_log}
use im_assistant.Audit.Execution.{record_command_execution}
use im_assistant.Router.{second_part, drop_word}
use im_assistant.Command.{
  Command, CommandArgsSpec, user, org_admin, Words, words, args_spec, command, decimal, check_count,
  parse_args, parsed, rejected, has_space, normalize_command_name, first_word, parse_command_text,
  normalize_available_in, normalize_role,
}
use im_assistant.Command.Roles.{context_roles, any_at_least, is_available}
use im_assistant.Command.Registry.{
  register, register_all, get_command, list_commands, actor_has_required_role,
}
use im_assistant.Command.Dispatch.{
  CommandContext, execution, record_command_audit, settle_call, handle_command,
}
use im_assistant.Command.Parsing.{space, parse_command_text-printed}
use im_assistant.Command.Admission.{
  Within, words_of, parse_args_iff, granted_by, actor_has_required_role-context,
}
use im_assistant.Command.Dispatch.Verdict.{IsAdmitted}
use im_assistant.Command.Dispatch.Handler.{handle_command_gate}
use im_assistant.Command.Dispatch.Audited.{Answer, handle_command-IsAudited}
use im_assistant.Samples.{noon, s1, with_s1}

program : Unit {0}
unfolding is_space lstrip rcons rstrip strip lower ◌==◌ non_empty_string non_empty_strings
    optional_string exists get set contains sorted_keys values_at plain_object plain_value
    plain_fields plain_items append_audit_log record_command_execution second_part drop_word
    args_spec command decimal check_count parse_args has_space normalize_command_name first_word
    parse_command_text normalize_available_in normalize_role context_roles any_at_least is_available
    register register_all get_command list_commands actor_has_required_role execution
    record_command_audit settle_call handle_command Json.get Json.set
program = tt

-- Two handlers: the one replies with the argument text, the other raises.
data Handler : Type 0 where
  echo breaks : Handler

abbrev call : Handler → CommandContext Handler (Option Text) → Action Db (Option Text)
call echo c = pure (some c.args_text)
call breaks c = raise other_error

abbrev one_word : Text → Words
one_word s = words (s ∷ [])

abbrev message : Error → Text
message e = codes "boom"

abbrev one_arg : CommandArgsSpec
one_arg = record { min_args = 1; max_args = some 1 }

abbrev say : Command Handler
say = record {
  name = codes "/say";
  handler = echo;
  available_in = SessionKind.dm ∷ SessionKind.group ∷ [];
  requires_role = user;
  args_spec = one_arg;
  description = [];
}

abbrev fail : Command Handler
fail = record {
  name = codes "/fail";
  handler = breaks;
  available_in = SessionKind.dm ∷ [];
  requires_role = org_admin;
  args_spec = one_arg;
  description = [];
}

made :
    (command (codes " Say") echo (codes "both" ∷ []) (codes "user") one_arg [] ≡ ok say)
    × (command (codes "fail") breaks (codes "dm" ∷ []) (codes "org_admin") one_arg [] ≡ ok fail)
    × (command (codes "a b") echo (codes "dm" ∷ []) (codes "user") one_arg [] ≡ err value_error)
    × (command (codes "say") echo [] (codes "user") one_arg [] ≡ err value_error)
    × (args_spec 2 (some 1) ≡ err value_error)
    × (parse_args one_word (record { min_args = 12; max_args = none }) (codes "x")
        ≡ rejected (codes "至少需要 12 个参数"))
unfolding program
made = (refl, refl, refl, refl, refl, refl)

abbrev with_say : Dict (Command Handler)
with_say = (codes "/say", say) ∷ []

abbrev registry : Dict (Command Handler)
registry = (codes "/say", say) ∷ (codes "/fail", fail) ∷ []

registered :
    (register_all (say ∷ fail ∷ []) [] ≡ ok registry)
    × (list_commands registry ≡ fail ∷ say ∷ [])
    × (get_command (codes "SAY") registry ≡ ok (some say))
unfolding program
registered = (refl, refl, refl)

abbrev dispatch : Text → Action Db (Option Text)
dispatch command_text =
    handle_command call one_word context_roles true message noon registry (some s1) command_text
      none

-- `/say` answers, `/fail` is for admins of the organisation, `/nothing` is no command.
answers :
    ((dispatch (codes "/say hello ") with_s1).0 ≡ ok (some (codes "hello")))
    × ((dispatch (codes "/fail x") with_s1).0 ≡ ok (some (codes "权限不足:/fail 需要 org_admin 权限")))
    × ((dispatch (codes "/nothing") with_s1).0 ≡ ok (some (codes "未知指令:/nothing")))
    × (dispatch (codes "say") with_s1 ≡ (err value_error, with_s1))
unfolding program
answers = (refl, refl, refl, refl)

abbrev say_hello : Text
say_hello = codes "/say hello "

abbrev said : Db
said = (dispatch say_hello with_s1).1

said_made : dispatch say_hello with_s1 ≡ (ok (some (codes "hello")), said)
unfolding program
said_made = refl

handle_command-IsAudited_example :
    (name : Text) × (args_text : Text) × (parse_command_text say_hello ≡ ok (name, args_text))
    × Answer call one_word context_roles message noon registry
        (some s1)
        say_hello
        none
        with_s1
        name
        (some (codes "hello"))
        said
handle_command-IsAudited_example =
    handle_command-IsAudited call one_word context_roles message noon registry (some s1) say_hello
      none with_s1 (some (codes "hello")) said said_made

say_hello-IsAdmitted :
    IsAdmitted one_word context_roles registry s1 say_hello
      (codes "/say")
      (codes "hello")
      say
      (codes "hello" ∷ [])
unfolding program
say_hello-IsAdmitted = record {
  parses = refl;
  found = refl;
  available = inl refl;
  role = (user, inl refl, omega arith);
  splits = refl;
  within = omega arith;
}

-- A handler that never answers.
abbrev silent : Handler → CommandContext Handler (Option Text) → Action Db (Option Text)
silent h c = raise value_error

handle_command_gate_example :
    (dispatch (codes "/fail x") with_s1
      ≡ handle_command silent one_word context_roles true message noon registry
          (some s1)
          (codes "/fail x")
          none
          with_s1)
    ⊎ ((s : Session) × (n : Text) × (x : Text) × (c : Command Handler) × (args : List Text) × (some
            s1
          ≡ some s)
        × IsAdmitted one_word context_roles registry s (codes "/fail x") n x c args)
handle_command_gate_example =
    handle_command_gate call silent one_word context_roles true message noon registry (some s1)
      (codes "/fail x") none with_s1

parse_args_iff_example :
    (parse_args one_word one_arg (codes "a") ≡ parsed (codes "a" ∷ []))
    ↔ ((words_of one_word (codes "a") ≡ words (codes "a" ∷ [])) × Within one_arg (codes "a" ∷ []))
parse_args_iff_example = parse_args_iff one_word one_arg (codes "a") (codes "a" ∷ [])

actor_has_required_role-context_example :
    actor_has_required_role context_roles s1 org_admin ≡ granted_by s1 org_admin
actor_has_required_role-context_example = actor_has_required_role-context s1 org_admin

say_registered : register say [] ≡ ok with_say
unfolding program
say_registered = refl

fail_registered : register fail with_say ≡ ok registry
unfolding program
fail_registered = refl

say_name : normalize_command_name (codes "SAY ") ≡ ok (codes "/say")
unfolding program
say_name = refl

say_fixed : normalize_command_name (codes "/say") ≡ ok (codes "/say")
unfolding program
say_fixed = refl

parse_command_text-printed_example :
    parse_command_text (codes "/say" ++ space ∷ codes " hello ")
    ≡ ok (codes "/say", strip (codes " hello "))
parse_command_text-printed_example =
    parse_command_text-printed (codes "/say") (codes " hello ") say_fixed
