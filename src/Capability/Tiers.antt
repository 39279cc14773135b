-- ===== src/Capability/Tiers.antt =====
-- The three tiers of capabilities (load_capability_registry in src/capabilities/registry.py). What
-- stands on the disk is a parameter: a directory is its Python files, in the order of their names,
-- and a file is what its module exports, or nothing where the module fails or exports another thing.
pub mod Loading
pub mod Owned
use im_assistant.Prelude.{
  ℕ, ◌≡◌, refl, Bool, true, false, not, ◌||◌, Option, none, some, List, [], ◌∷◌, ◌++◌, Text, codes,
  ◌==◌, starts_with, Result, ok, err, bind, capability_registry_error, if◌then◌else◌,
}
use im_assistant.Prelude.Dict.{Dict}
use im_assistant.Capability.{checked_optional, Capability, CapabilityOrigin, system, base, user}
use im_assistant.Capability.Registry.{register_each}

abbrev same_origin : CapabilityOrigin → CapabilityOrigin → Bool
same_origin system system = true
same_origin base base = true
same_origin user user = true
same_origin _ _ = false

pub data Directory (H : Type 0) : Type 0 where
  missing : Directory H
  other_file : Directory H
  files : List (Text × Option (List (Capability H))) → Directory H

-- The files that are no capabilities: `__init__.py`, and those that start with `_`.
abbrev is_skipped : Text → Bool
is_skipped name = name == codes "__init__.py" || starts_with b'_' name

module _ {H : Type 0} where
  -- `replace(capability, owner_id=owner_id)`, which checks the fields again
  abbrev owned_by : Option Text → Capability H → Option Text → Result (Capability H)
  owned_by owner_id c none = bind (checked_optional owner_id) λ o. ok (record c { owner_id = o })
  owned_by owner_id c (some _) = ok c

  -- `_capability_for_tier`
  unfoldable pub capability_for_tier :
      CapabilityOrigin → Option Text → Capability H → Result (Capability H)
  capability_for_tier origin owner_id c =
      if not (same_origin c.origin origin)
      then err capability_registry_error
      else if same_origin origin user
      then owned_by owner_id c c.owner_id
      else ok c

  unfoldable pub capabilities_for_tier :
      CapabilityOrigin → Option Text → List (Capability H) → Result (List (Capability H))
  unfolding capability_for_tier
  capabilities_for_tier origin owner_id [] = ok []
  capabilities_for_tier origin owner_id (c ∷ cs) =
      bind (capability_for_tier origin owner_id c)
        λ d. bind (capabilities_for_tier origin owner_id cs) λ ds. ok (d ∷ ds)

  abbrev exported : Option (List (Capability H)) → Result (List (Capability H))
  exported none = err capability_registry_error
  exported (some cs) = ok cs

  load_files :
      CapabilityOrigin
      → Option Text
      → List (Text × Option (List (Capability H)))
      → Result (List (Capability H))
  unfolding capabilities_for_tier
  load_files origin owner_id [] = ok []
  load_files origin owner_id ((name, module_exports) ∷ rest) =
      bind
        (if is_skipped name
          then ok []
          else bind (exported module_exports) λ cs. capabilities_for_tier origin owner_id cs)
        λ found. bind (load_files origin owner_id rest) λ more. ok (found ++ more)

  -- `load_capabilities_from_directory`
  unfoldable pub load_capabilities_from_directory :
      CapabilityOrigin → Option Text → Directory H → Result (List (Capability H))
  unfolding load_files
  load_capabilities_from_directory origin owner_id missing = ok []
  load_capabilities_from_directory origin owner_id other_file = err capability_registry_error
  load_capabilities_from_directory origin owner_id (files fs) = load_files origin owner_id fs

  abbrev user_tier : Option Text → (Text → Directory H) → Result (List (Capability H))
  user_tier none user_dir = ok []
  user_tier (some user_id) user_dir =
      load_capabilities_from_directory user (some user_id) (user_dir user_id)

  -- `load_capability_registry`; `user_dir` gives the directory of a user.
  unfoldable pub load_capability_registry :
      Directory H → Directory H → (Text → Directory H) → Option Text → Result (Dict (Capability H))
  unfolding register_each load_capabilities_from_directory
  load_capability_registry system_dir base_dir user_dir user_id =
      bind (load_capabilities_from_directory system none system_dir) λ first.
        bind (load_capabilities_from_directory base none base_dir) λ second.
          bind (user_tier user_id user_dir)
            λ third. ok (register_each third (register_each second (register_each first [])))
