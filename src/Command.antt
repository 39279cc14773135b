-- ===== src/Command.antt =====
-- Slash commands (src/core/commands.py): what a command declares, and the normal form of its
-- fields. A handler is a value of a type `H`, and what a call of it does is a parameter of the
-- dispatch. Bounds are natural numbers, so that the check for a negative one is not there.
pub mod Names
pub mod Parsing
pub mod Roles
pub mod Registry
pub mod Admission
pub mod Dispatch
mod Tests
use Prim.Native.Nat.{◌/◌, ◌%◌}
use im_assistant.Prelude.{
  ℕ, zero, suc, ◌+◌, Bool, true, false, ◌||◌, Option, none, some, List, [], ◌∷◌, ◌++◌, Text, codes,
  is_space, strip, lstrip, lower, is_empty, starts_with, ◌==◌, Result, ok, err, value_error, bind,
  non_empty_string, length, ltb, or_default, if◌then◌else◌,
}
use im_assistant.Session.{SessionKind}
use im_assistant.Router.{slash, drop_word, second_part}

pub data CommandRole : Type 0 where
  user channel_admin org_admin : CommandRole

-- `_ROLE_LEVELS`
abbrev pub role_level : CommandRole → ℕ
role_level user = 0
role_level channel_admin = 1
role_level org_admin = 2

abbrev pub role_text : CommandRole → Text
role_text user = codes "user"
role_text channel_admin = codes "channel_admin"
role_text org_admin = codes "org_admin"

pub record CommandArgsSpec : Type 0 where
  pub min_args : ℕ
  pub max_args : Option ℕ

abbrev below : Option ℕ → ℕ → Bool
below none n = false
below (some m) n = ltb m n

-- `CommandArgsSpec(min_args, max_args)`
unfoldable pub args_spec : ℕ → Option ℕ → Result CommandArgsSpec
args_spec min_args max_args =
    if below max_args min_args
    then err value_error
    else ok (record { min_args = min_args; max_args = max_args })

-- What `shlex.split` makes of a text: its words, or the message of its ValueError.
pub data Words : Type 0 where
  words : List Text → Words
  malformed : Text → Words

-- The arguments of a command, or the message of a CommandParseError.
pub data Arguments : Type 0 where
  parsed : List Text → Arguments
  rejected : Text → Arguments

-- `str(n)`: the digits before `done`
decimal_onto : ℕ → ℕ → Text → Text
decimal_onto zero n done = done
decimal_onto (suc fuel) n done =
    let digit = n % 10 + 48 in
    let more = decimal_onto fuel (n / 10) (digit ∷ done) in if ltb n 10 then digit ∷ done else more

unfoldable pub decimal : ℕ → Text
unfolding decimal_onto
decimal n = decimal_onto (suc n) n []

unfoldable pub check_count : CommandArgsSpec → List Text → Arguments
unfolding decimal
check_count spec args =
    if ltb (length args) spec.min_args
    then rejected (codes "至少需要 " ++ decimal spec.min_args ++ codes " 个参数")
    else if below spec.max_args (length args)
    then rejected (codes "最多允许 " ++ decimal (or_default spec.max_args 0) ++ codes " 个参数")
    else parsed args

abbrev check_words : CommandArgsSpec → Words → Arguments
check_words spec (words args) = check_count spec args
check_words spec (malformed reason) = rejected reason

-- `CommandArgsSpec.parse`, over `shlex.split`
unfoldable pub parse_args : (Text → Words) → CommandArgsSpec → Text → Arguments
parse_args split spec args_text =
    let s = strip args_text in
    if is_empty s then check_count spec [] else check_words spec (split s)

-- `any(character.isspace() for character in s)`
unfoldable pub has_space : Text → Bool
has_space [] = false
has_space (c ∷ s) = is_space c || has_space s

-- `_normalize_command_name`
abbrev pub with_slash : Text → Text
with_slash s = if starts_with slash s then s else slash ∷ s

abbrev pub checked_name : Text → Result Text
checked_name s =
    if s == (slash ∷ []) then err value_error else if has_space s then err value_error else ok s

unfoldable pub normalize_command_name : Text → Result Text
normalize_command_name name =
    bind (non_empty_string name) λ s. checked_name (with_slash (lower (strip s)))

-- The text up to its first white space: `s.split(maxsplit=1)[0]` of a text that starts with none.
unfoldable pub first_word : Text → Text
first_word [] = []
first_word (c ∷ s) = if is_space c then [] else c ∷ first_word s

abbrev rest_of : Option Text → Text
rest_of none = []
rest_of (some s) = s

-- `_parse_command_text`
unfoldable pub parse_command_text : Text → Result (Text × Text)
unfolding first_word
parse_command_text command_text = bind (non_empty_string command_text) λ stripped.
    let normalized = lstrip stripped in
    if starts_with slash normalized
    then (bind (normalize_command_name (first_word normalized))
        λ name. ok (name, strip (rest_of (second_part normalized))))
    else err value_error

-- The set of `_normalize_available_in` as two marks, one for `"dm"` and one for `"group"`.
available_marks : List Text → Bool × Bool → Result (Bool × Bool)
available_marks [] marks = ok marks
available_marks (v ∷ vs) marks =
    if v == codes "both"
    then available_marks vs (true, true)
    else if v == codes "dm"
    then available_marks vs (true, marks.1)
    else if v == codes "group"
    then available_marks vs (marks.0, true)
    else err value_error

-- `tuple(sorted(available))`, which must not be empty
abbrev sorted_kinds : Bool → Bool → Result (List SessionKind)
sorted_kinds true true = ok (SessionKind.dm ∷ SessionKind.group ∷ [])
sorted_kinds true false = ok (SessionKind.dm ∷ [])
sorted_kinds false true = ok (SessionKind.group ∷ [])
sorted_kinds false false = err value_error

unfoldable pub normalize_available_in : List Text → Result (List SessionKind)
unfolding available_marks
normalize_available_in values =
    bind (available_marks values (false, false)) λ marks. sorted_kinds marks.0 marks.1

unfoldable pub normalize_role : Text → Result CommandRole
normalize_role role =
    if role == codes "user"
    then ok user
    else if role == codes "channel_admin"
    then ok channel_admin
    else if role == codes "org_admin"
    then ok org_admin
    else err value_error

pub record Command (H : Type 0) : Type 0 where
  pub name : Text
  pub handler : H
  pub available_in : List SessionKind
  pub requires_role : CommandRole
  pub args_spec : CommandArgsSpec
  pub description : Text

-- `Command(...)`
unfoldable pub command :
    {H : Type 0} → Text → H → List Text → Text → CommandArgsSpec → Text → Result (Command H)
unfolding normalize_command_name normalize_available_in normalize_role
command name handler available_in requires_role spec description =
    bind (normalize_command_name name) λ n. bind (normalize_available_in available_in) λ kinds.
      bind (normalize_role requires_role) λ role. ok (record {
        name = n;
        handler = handler;
        available_in = kinds;
        requires_role = role;
        args_spec = spec;
        description = description;
      })
