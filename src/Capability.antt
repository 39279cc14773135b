-- ===== src/Capability.antt =====
-- What a capability declares (src/capabilities/base/__init__.py), in the normal form that its
-- constructor gives it. A handler is a value of a type `H`.
pub mod Registry
pub mod Visibility
pub mod Tiers
pub mod Credential
pub mod Authorizer
mod Tests
use im_assistant.Prelude.{
  Bool, true, false, not, ◌||◌, Option, none, some, List, [], ◌∷◌, Text, codes, lower, ◌==◌, member,
  Result, ok, err, bind, value_error, non_empty_string, non_empty_strings, is_some, if◌then◌else◌,
}
use im_assistant.Json.{Value, null, text, object, Mapping, get}

pub data CapabilityOrigin : Type 0 where
  system base user : CapabilityOrigin

pub data CapabilityAvailability : Type 0 where
  everywhere in_group in_dm : CapabilityAvailability

pub record Requirement : Type 0 where
  pub service : Text
  pub scopes : List Text
  pub on_behalf_of : Option Text

-- A field that is checked when it is there.
abbrev pub checked_optional : Option Text → Result (Option Text)
checked_optional none = ok none
checked_optional (some s) = bind (non_empty_string s) λ t. ok (some t)

-- `Requirement(...)`
unfoldable pub requirement : Text → List Text → Option Text → Result Requirement
requirement service scopes on_behalf_of = bind (non_empty_string service) λ v.
    bind (non_empty_strings scopes) λ ss.
      bind (checked_optional on_behalf_of)
        λ o. ok (record { service = v; scopes = ss; on_behalf_of = o })

pub record Capability (H : Type 0) : Type 0 where
  pub name : Text
  pub origin : CapabilityOrigin
  pub available_in : List CapabilityAvailability
  pub requires : List Requirement
  pub sensitivity : Text
  pub handler : Option H
  pub owner_id : Option Text
  pub description : Option Text
  pub input_schema : Mapping

-- `_literal_value` at the origins
unfoldable pub origin_value : Text → Result CapabilityOrigin
origin_value value = bind (non_empty_string value) λ v.
    if v == codes "system"
    then ok system
    else if v == codes "base"
    then ok base
    else if v == codes "user"
    then ok user
    else err value_error

availability_value : Text → Result CapabilityAvailability
availability_value v =
    if v == codes "global"
    then ok everywhere
    else if v == codes "group"
    then ok in_group
    else if v == codes "dm"
    then ok in_dm
    else err value_error

availability_values : List Text → Result (List CapabilityAvailability)
unfolding availability_value
availability_values [] = ok []
availability_values (v ∷ vs) =
    bind (availability_value v) λ a. bind (availability_values vs) λ rest. ok (a ∷ rest)

abbrev not_empty : {A : Type 0} → List A → Result (List A)
not_empty [] = err value_error
not_empty (x ∷ xs) = ok (x ∷ xs)

-- `_literal_tuple` at the availabilities
unfoldable pub availability_tuple : List Text → Result (List CapabilityAvailability)
unfolding availability_values
availability_tuple values =
    bind (non_empty_strings values) λ vs. bind (not_empty vs) λ ws. availability_values ws

abbrev is_object_type : Option Value → Bool
is_object_type (some (text s)) = s == codes "object"
is_object_type _ = false

abbrev is_properties : Option Value → Bool
is_properties none = true
is_properties (some null) = true
is_properties (some (object _)) = true
is_properties (some _) = false

-- `_input_schema_mapping`
unfoldable pub input_schema_mapping : Mapping → Result Mapping
input_schema_mapping m =
    if not (is_object_type (get (codes "type") m))
    then err value_error
    else if not (is_properties (get (codes "properties") m))
    then err value_error
    else ok m

-- `Capability(...)`
unfoldable pub capability :
    {H : Type 0}
    → Text
    → Text
    → List Text
    → List Requirement
    → Text
    → Option H
    → Option Text
    → Option Text
    → Mapping
    → Result (Capability H)
unfolding origin_value availability_tuple input_schema_mapping
capability name origin available_in requires sensitivity handler owner_id description schema =
    bind (non_empty_string name) λ n. bind (origin_value origin) λ o.
      bind (availability_tuple available_in) λ a. bind (non_empty_string sensitivity) λ s.
        bind (checked_optional owner_id) λ owner. bind (checked_optional description) λ d.
          bind (input_schema_mapping schema) λ m. ok (record {
            name = n;
            origin = o;
            available_in = a;
            requires = requires;
            sensitivity = lower s;
            handler = handler;
            owner_id = owner;
            description = d;
            input_schema = m;
          })

-- `any(requirement.on_behalf_of is not None for requirement in requires)`
unfoldable pub any_on_behalf : List Requirement → Bool
any_on_behalf [] = false
any_on_behalf (r ∷ rs) = is_some r.on_behalf_of || any_on_behalf rs

-- `requires_user_authority`
unfoldable pub requires_user_authority : {H : Type 0} → Capability H → Bool
unfolding any_on_behalf
requires_user_authority c = any_on_behalf c.requires
