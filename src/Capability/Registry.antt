-- ===== src/Capability/Registry.antt =====
-- The registry of capabilities and who may see which (src/capabilities/registry.py).
use im_assistant.Prelude.{
  Bool, true, false, not, ◌&&◌, ◌||◌, Option, none, some, List, [], ◌∷◌, Text, ◌==◌, member, Result,
  ok, bind, non_empty_string, non_empty_strings, if◌then◌else◌,
}
use im_assistant.Prelude.Dict.{Dict, get, set}
use im_assistant.Prelude.Sorted.{sorted_keys, values_at}
use im_assistant.Session.{Actor, SessionKind, dm, group}
use im_assistant.Capability.{
  Capability, CapabilityAvailability, everywhere, in_group, in_dm, CapabilityOrigin, system, base,
  user, requires_user_authority,
}

pub record CapabilityChannelContext : Type 0 where
  pub id : Text
  pub enabled_capabilities : List Text

-- `CapabilityChannelContext(...)`; the set keeps its repetitions
unfoldable pub channel_context : Text → List Text → Result CapabilityChannelContext
channel_context id enabled = bind (non_empty_string id) λ i.
    bind (non_empty_strings enabled) λ names. ok (record { id = i; enabled_capabilities = names })

module _ {H : Type 0} where
  -- `register`: a capability of the same name is replaced
  unfoldable pub register : Capability H → Dict (Capability H) → Dict (Capability H)
  register c registry = set c.name c registry

  unfoldable pub register_each : List (Capability H) → Dict (Capability H) → Dict (Capability H)
  unfolding register
  register_each [] registry = registry
  register_each (c ∷ cs) registry = register_each cs (register c registry)

  -- `get`
  unfoldable pub get_capability : Text → Dict (Capability H) → Option (Capability H)
  get_capability name registry = get name registry

  -- `list`
  unfoldable pub list_capabilities : Dict (Capability H) → List (Capability H)
  unfolding sorted_keys values_at
  list_capabilities registry = values_at (sorted_keys registry) registry

  -- `names`
  unfoldable pub capability_names : Dict (Capability H) → List Text
  unfolding sorted_keys
  capability_names registry = sorted_keys registry

abbrev pub same : CapabilityAvailability → CapabilityAvailability → Bool
same everywhere everywhere = true
same in_group in_group = true
same in_dm in_dm = true
same _ _ = false

unfoldable pub offers : CapabilityAvailability → List CapabilityAvailability → Bool
offers a [] = false
offers a (b ∷ bs) = same b a || offers a bs

abbrev pub is_owner : Option Text → Text → Bool
is_owner none actor_id = false
is_owner (some owner) actor_id = owner == actor_id

abbrev pub is_user : CapabilityOrigin → Bool
is_user system = false
is_user base = false
is_user user = true

abbrev pub is_enabled : Text → Option CapabilityChannelContext → Bool
is_enabled name none = false
is_enabled name (some channel) = member name channel.enabled_capabilities

-- The tests of `can_use` behind the one for user authority.
abbrev pub usable_in :
    {H : Type 0} → Capability H → SessionKind → Text → Option CapabilityChannelContext → Bool
usable_in c dm actor_id channel =
    offers everywhere c.available_in
    || (offers in_dm c.available_in
        && (if is_user c.origin then is_owner c.owner_id actor_id else true))
usable_in c group actor_id channel =
    offers everywhere c.available_in
    || (offers in_group c.available_in && is_enabled c.name channel)

abbrev pub is_dm : SessionKind → Bool
is_dm dm = true
is_dm group = false

-- `can_use`
unfoldable pub can_use :
    {H : Type 0}
    → Capability H
    → SessionKind
    → Actor
    → Option CapabilityChannelContext
    → Result Bool
unfolding offers
can_use c mode actor channel = bind (non_empty_string actor.id) λ actor_id.
    if requires_user_authority c && not (is_dm mode)
    then ok false
    else ok (usable_in c mode actor_id channel)
