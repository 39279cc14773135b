-- ===== src/Command/Admission.antt =====
-- What a command asks for before it runs (src/core/commands.py): a kind of conversation, a role, a
-- number of arguments.
use im_assistant.Prelude.{
  ℕ, ◌≤◌, ◌≡◌, refl, ap, ◌↔◌, ◌||◌, inl, inr, Bool, true, Option, none, some, List, [], ◌∷◌, Text,
  Among, length, Bool-cases, if◌then◌else◌, arith, strip, is_empty,
}
use im_assistant.Session.{Session, SessionKind, dm, group}
use im_assistant.Command.{
  CommandRole, CommandArgsSpec, role_level, Words, words, malformed, parsed, parse_args,
  check_count, check_words, user, channel_admin, org_admin,
}
use im_assistant.Command.Roles.{
  any_at_least, is_available, channel, org, has_entry, actor_has_context_role, context_roles,
}
use im_assistant.Command.Registry.{actor_has_required_role}

-- The number of arguments is within the bounds that the command declares.
abbrev AtMost : ℕ → Option ℕ → Type 0
AtMost n none = Unit
AtMost n (some m) = n ≤ m

abbrev pub Within : CommandArgsSpec → List Text → Type 0
Within spec args = (spec.min_args ≤ length args) × AtMost (length args) spec.max_args

-- Some role of the actor has at least the level that is required.
abbrev pub HasRole : CommandRole → List CommandRole → Type 0
HasRole required roles =
    (role : CommandRole) × Among role roles × (role_level required ≤ role_level role)

pub is_available-Among :
    (kind : SessionKind) (ks : List SessionKind) → is_available kind ks ≡ true → Among kind ks
unfolding is_available
is_available-Among kind [] h = cc
is_available-Among dm (dm ∷ ks) h = inl refl
is_available-Among group (group ∷ ks) h = inl refl
is_available-Among dm (group ∷ ks) h = inr (is_available-Among dm ks h)
is_available-Among group (dm ∷ ks) h = inr (is_available-Among group ks h)

HasRole-further :
    (required role : CommandRole) (roles : List CommandRole)
    → HasRole required roles
    → HasRole required (role ∷ roles)
HasRole-further required role roles (r, among, level) = (r, inr among, level)

pub any_at_least-HasRole :
    (required : CommandRole) (roles : List CommandRole)
    → any_at_least required roles ≡ true
    → HasRole required roles
unfolding any_at_least
any_at_least-HasRole required [] h = cc
any_at_least-HasRole required (role ∷ roles) h = elim (Bool-cases (any_at_least required roles)) [
  | inl later ↦ HasRole-further required role roles (any_at_least-HasRole required roles later)
  | inr never ↦ (role, inl refl, ground arith)
]

Among-is_available :
    (kind : SessionKind) (ks : List SessionKind) → Among kind ks → is_available kind ks ≡ true
unfolding is_available
Among-is_available kind [] h = elim h [ ]
Among-is_available dm (dm ∷ ks) h = refl
Among-is_available group (group ∷ ks) h = refl
Among-is_available dm (group ∷ ks) (inl e) = cc
Among-is_available dm (group ∷ ks) (inr h) = Among-is_available dm ks h
Among-is_available group (dm ∷ ks) (inl e) = cc
Among-is_available group (dm ∷ ks) (inr h) = Among-is_available group ks h

pub is_available_iff :
    (kind : SessionKind) (ks : List SessionKind) → (is_available kind ks ≡ true) ↔ Among kind ks
is_available_iff kind ks = (is_available-Among kind ks, Among-is_available kind ks)

HasRole-any_at_least :
    (required : CommandRole) (roles : List CommandRole)
    → HasRole required roles
    → any_at_least required roles ≡ true
unfolding any_at_least
HasRole-any_at_least required [] (r, among, level) = elim among [ ]
HasRole-any_at_least required (role ∷ roles) (r, inl e, level) = ground (arith, ap role_level e)
HasRole-any_at_least required (role ∷ roles) (r, inr among, level) =
    ground (arith, HasRole-any_at_least required roles (r, among, level))

pub any_at_least_iff :
    (required : CommandRole) (roles : List CommandRole)
    → (any_at_least required roles ≡ true) ↔ HasRole required roles
any_at_least_iff required roles =
    (any_at_least-HasRole required roles, HasRole-any_at_least required roles)

check_count-Within :
    (min_args : ℕ) (max_args : Option ℕ) (given args : List Text)
    → check_count (record { min_args = min_args; max_args = max_args }) given ≡ parsed args
    → (given ≡ args) × Within (record { min_args = min_args; max_args = max_args }) args
unfolding check_count
check_count-Within min_args none given args h = ground arith
check_count-Within min_args (some m) given args h = ground arith

check_count-parsed :
    (min_args : ℕ) (max_args : Option ℕ) (args : List Text)
    → Within (record { min_args = min_args; max_args = max_args }) args
    → check_count (record { min_args = min_args; max_args = max_args }) args ≡ parsed args
unfolding check_count
check_count-parsed min_args none args h = ground arith
check_count-parsed min_args (some m) args h = ground arith

-- The words of an argument text: none, if it is blank.
abbrev pub words_of : (Text → Words) → Text → Words
words_of split args_text = let s = strip args_text in if is_empty s then words [] else split s

parse_args-words :
    (split : Text → Words) (spec : CommandArgsSpec) (args_text : Text)
    → parse_args split spec args_text ≡ check_words spec (words_of split args_text)
unfolding parse_args
parse_args-words split spec args_text = elim (Bool-cases (is_empty (strip args_text))) [
  | inl blank ↦ rw blank refl
  | inr other ↦ rw other refl
]

check_words_iff :
    (spec : CommandArgsSpec) (w : Words) (args : List Text)
    → (check_words spec w ≡ parsed args) ↔ ((w ≡ words args) × Within spec args)
check_words_iff spec (words given) args = (
  λ h.
      let (e, within) = check_count-Within spec.min_args spec.max_args given args h in
      (ap words e, within),
  λ h. ground (arith, check_count-parsed spec.min_args spec.max_args args h.1),
)
check_words_iff spec (malformed reason) args = (λ h. cc, λ h. cc)

-- A command gets arguments exactly when `shlex.split` splits their text into them (a blank text has
-- none, and is not split) and their number is within the bounds that the command declares.
pub parse_args_iff :
    (split : Text → Words) (spec : CommandArgsSpec) (args_text : Text) (args : List Text)
    → (parse_args split spec args_text ≡ parsed args)
      ↔ ((words_of split args_text ≡ words args) × Within spec args)
parse_args_iff split spec args_text args =
    rw (parse_args-words split spec args_text)
      (check_words_iff spec (words_of split args_text) args)

-- What the context of a Session must say for an actor to pass as `required`.
abbrev pub granted_by : Session → CommandRole → Bool
granted_by session user = true
granted_by session channel_admin =
    has_entry session.context session.actor.id channel
    || has_entry session.context session.actor.id org
granted_by session org_admin = has_entry session.context session.actor.id org

-- With the roles of the Session's context, everybody passes as a user, an admin of the organisation
-- passes as anything, an admin of the channel passes as one of the channel only.
pub actor_has_required_role-context :
    (session : Session) (required : CommandRole)
    → actor_has_required_role context_roles session required ≡ granted_by session required
unfolding actor_has_required_role any_at_least context_roles actor_has_context_role
actor_has_required_role-context session user = ground arith
actor_has_required_role-context session channel_admin = ground arith
actor_has_required_role-context session org_admin = ground arith
