-- ===== src/Command/Registry.antt =====
-- CommandRegistry without the dispatch (src/core/commands.py): a dict from names to commands.
pub mod Lookup
use im_assistant.Prelude.{
  Bool, true, false, ◌&&◌, ◌||◌, Option, none, some, List, [], ◌∷◌, Text, Result, ok, err, bind,
  value_error, ltb, eqb, if◌then◌else◌,
}
use im_assistant.Prelude.Sorted.{sorted_keys, values_at}
use im_assistant.Prelude.Dict.{Dict, get, contains, set}
use im_assistant.Session.{Session, Actor}
use im_assistant.Command.{Command, CommandRole, normalize_command_name}
use im_assistant.Command.Roles.{any_at_least, is_available}

-- `_actor_has_required_role`
unfoldable pub actor_has_required_role :
    (Session → Actor → List CommandRole) → Session → CommandRole → Bool
unfolding any_at_least
actor_has_required_role roles_for_actor session required =
    any_at_least required (roles_for_actor session session.actor)

module _ {H : Type 0} where
  -- `register`
  unfoldable pub register : Command H → Dict (Command H) → Result (Dict (Command H))
  register c registry =
      if contains c.name registry then err value_error else ok (set c.name c registry)

  -- The loop of `__init__`.
  unfoldable pub register_all : List (Command H) → Dict (Command H) → Result (Dict (Command H))
  unfolding register
  register_all [] registry = ok registry
  register_all (c ∷ cs) registry = bind (register c registry) λ next. register_all cs next

  -- `get`
  unfoldable pub get_command : Text → Dict (Command H) → Result (Option (Command H))
  get_command name registry = bind (normalize_command_name name) λ key. ok (get key registry)

  -- `list_commands`
  unfoldable pub list_commands : Dict (Command H) → List (Command H)
  unfolding sorted_keys values_at
  list_commands registry = values_at (sorted_keys registry) registry

  select_available :
      (Session → Actor → List CommandRole) → Session → List (Command H) → List (Command H)
  unfolding actor_has_required_role is_available
  select_available roles_for_actor session [] = []
  select_available roles_for_actor session (c ∷ cs) =
      let rest = select_available roles_for_actor session cs in
      if is_available session.kind c.available_in
        && actor_has_required_role roles_for_actor session c.requires_role
      then c ∷ rest
      else rest

  -- `list_available_commands`
  unfoldable pub list_available_commands :
      (Session → Actor → List CommandRole) → Session → Dict (Command H) → List (Command H)
  unfolding select_available list_commands
  list_available_commands roles_for_actor session registry =
      select_available roles_for_actor session (list_commands registry)
