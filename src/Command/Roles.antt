-- ===== src/Command/Roles.antt =====
-- Who may run a command (src/core/commands.py): the roles that a Session's context grants.
use im_assistant.Prelude.{
  Bool, true, false, ◌||◌, Option, none, some, List, [], ◌∷◌, ◌++◌, Text, codes, strip, is_empty,
  member, leb, if◌then◌else◌,
}
use im_assistant.Json.{Value, text, array, object, Items, nil, cons, Mapping, empty, entry, get}
use im_assistant.Session.{Session, Actor, SessionKind, dm, group}
use im_assistant.Command.{CommandRole, user, channel_admin, org_admin, role_level}

-- The roles that a context names.
pub data AdminRole : Type 0 where
  channel org : AdminRole

abbrev pub command_role : AdminRole → CommandRole
command_role channel = channel_admin
command_role org = org_admin

abbrev pub admin_text : AdminRole → Text
admin_text channel = codes "channel_admin"
admin_text org = codes "org_admin"

-- `s.strip()`, put before the strings found so far unless it is empty
abbrev add_stripped : Text → List Text → List Text
add_stripped s found = let t = strip s in if is_empty t then found else t ∷ found

-- The strings among the items of an iterable; those of a mapping are its keys.
item_strings : Items → List Text
item_strings nil = []
item_strings (cons (text s) xs) = add_stripped s (item_strings xs)
item_strings (cons _ xs) = item_strings xs

key_strings : Mapping → List Text
key_strings empty = []
key_strings (entry k v m) = add_stripped k (key_strings m)

-- `_string_set`, its elements with repetitions
unfoldable pub string_set : Option Value → List Text
unfolding item_strings key_strings
string_set (some (text s)) = add_stripped s []
string_set (some (array xs)) = item_strings xs
string_set (some (object m)) = key_strings m
string_set _ = []

-- `actor_roles.get(actor_id)`, if that is a mapping
abbrev named_roles : Option Value → Text → Option Value
named_roles (some (object m)) actor_id = get actor_id m
named_roles _ actor_id = none

-- A role that the context gives the actor by itself: by the list of the role, or by the actor's
-- entry of `actor_roles`.
unfoldable pub has_entry : Mapping → Text → AdminRole → Bool
unfolding string_set member
has_entry context actor_id role =
    member actor_id (string_set (get (admin_text role ++ codes "_ids") context))
    || member (admin_text role)
        (string_set (named_roles (get (codes "actor_roles") context) actor_id))

-- `_actor_has_context_role`: an admin of the organisation is one of every channel.
unfoldable pub actor_has_context_role : Mapping → Text → AdminRole → Bool
unfolding has_entry
actor_has_context_role context actor_id org = has_entry context actor_id org
actor_has_context_role context actor_id channel =
    has_entry context actor_id org || has_entry context actor_id channel

-- `ContextCommandRoleAuthorizer.roles_for_actor`
abbrev add_role : Bool → CommandRole → List CommandRole → List CommandRole
add_role held role roles = if held then role ∷ roles else roles

unfoldable pub context_roles : Session → Actor → List CommandRole
unfolding actor_has_context_role
context_roles session actor =
    user
    ∷ add_role (actor_has_context_role session.context actor.id channel) channel_admin
        (add_role (actor_has_context_role session.context actor.id org) org_admin [])

-- `any(_ROLE_LEVELS[role] >= required_level for role in roles)`
unfoldable pub any_at_least : CommandRole → List CommandRole → Bool
any_at_least required [] = false
any_at_least required (role ∷ roles) =
    leb (role_level required) (role_level role) || any_at_least required roles

abbrev same_kind : SessionKind → SessionKind → Bool
same_kind dm dm = true
same_kind group group = true
same_kind _ _ = false

-- `session.kind in command.available_in`
unfoldable pub is_available : SessionKind → List SessionKind → Bool
is_available kind [] = false
is_available kind (k ∷ ks) = same_kind k kind || is_available kind ks
