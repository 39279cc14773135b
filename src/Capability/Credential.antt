-- ===== src/Capability/Credential.antt =====
-- The credentials that a capability's handler is given (src/capabilities/credential.py).
pub mod Token
use im_assistant.Prelude.{
  Bool, true, false, not, Option, none, some, List, [], ◌∷◌, Text, codes, ◌==◌, is_empty, Result,
  ok, err, bind, value_error, credential_error, non_empty_string, if◌then◌else◌,
}
use im_assistant.Prelude.Dict.{Dict, get, set}
use im_assistant.Json.{Value, null, text, Mapping}
use im_assistant.Json as Json
use im_assistant.Session.{Session, SessionKind, dm, group}
use im_assistant.Store.Auths.{normalize_scopes}
use im_assistant.Capability.{checked_optional}

pub data CredentialKind : Type 0 where
  application user : CredentialKind

pub record CredentialHandle : Type 0 where
  pub service : Text
  pub kind : CredentialKind
  pub scopes : List Text
  pub principal_id : Option Text
  pub actor_id : Option Text
  pub user_access_token : Option Text
  pub refreshed : Bool

-- A user's credential has a token, an application's has none.
abbrev pub checked_token : CredentialKind → Option Text → Result (Option Text)
checked_token user none = err value_error
checked_token user (some t) = bind (non_empty_string t) λ s. ok (some s)
checked_token application none = ok none
checked_token application (some _) = err value_error

-- `CredentialHandle(...)`
unfoldable pub credential_handle :
    Text
    → CredentialKind
    → List Text
    → Option Text
    → Option Text
    → Option Text
    → Bool
    → Result CredentialHandle
credential_handle service kind scopes principal_id actor_id token refreshed =
    bind (non_empty_string service) λ v. bind (normalize_scopes scopes) λ ss.
      bind (checked_optional principal_id) λ p. bind (checked_optional actor_id) λ a.
        bind (checked_token kind token) λ t. ok (record {
          service = v;
          kind = kind;
          scopes = ss;
          principal_id = p;
          actor_id = a;
          user_access_token = t;
          refreshed = refreshed;
        })

-- `CredentialHandle.application` and `CredentialHandle.user_token`
unfoldable pub application_handle :
    Text → List Text → Option Text → Option Text → Result CredentialHandle
application_handle service scopes principal_id actor_id =
    credential_handle service application scopes principal_id actor_id none false

unfoldable pub user_handle :
    Text → Text → List Text → Option Text → Option Text → Bool → Result CredentialHandle
user_handle service token scopes principal_id actor_id refreshed =
    credential_handle service user scopes principal_id actor_id (some token) refreshed

-- `_handle_mapping`: `done` holds the entries that are already checked.
unfoldable pub handle_mapping :
    Dict CredentialHandle → Dict CredentialHandle → Result (Dict CredentialHandle)
handle_mapping done [] = ok done
handle_mapping done ((service, handle) ∷ rest) = bind (non_empty_string service) λ name.
    if handle.service == name then handle_mapping (set name handle done) rest else err value_error

pub record CredentialUserContext : Type 0 where
  pub id : Text
  pub staff_id : Text
  pub principal_id : Text
  pub union_id : Option Text
  pub handles : Dict CredentialHandle

-- `CredentialUserContext(...)`
unfoldable pub user_context :
    Text → Text → Text → Option Text → Dict CredentialHandle → Result CredentialUserContext
unfolding handle_mapping
user_context id staff_id principal_id union_id handles = bind (non_empty_string id) λ i.
    bind (non_empty_string staff_id) λ s. bind (non_empty_string principal_id) λ p.
      bind (checked_optional union_id) λ u.
        bind (handle_mapping [] handles)
          λ hs. ok (record { id = i; staff_id = s; principal_id = p; union_id = u; handles = hs })

abbrev found_handle : Option CredentialHandle → Result CredentialHandle
found_handle none = err credential_error
found_handle (some h) = ok h

-- `CredentialUserContext.handle_for`
unfoldable pub handle_for : CredentialUserContext → Text → Result CredentialHandle
handle_for u service = bind (non_empty_string service) λ name. found_handle (get name u.handles)

abbrev user_token_of : CredentialKind → Option Text → Result Text
user_token_of user (some t) = ok t
user_token_of _ _ = err credential_error

-- `CredentialUserContext.token_for`
unfoldable pub token_for : CredentialUserContext → Text → Result Text
unfolding handle_for
token_for u service = bind (handle_for u service) λ h. user_token_of h.kind h.user_access_token

pub record CredentialGroupContext : Type 0 where
  pub id : Text
  pub open_conversation_id : Text

-- `CredentialGroupContext(...)`
unfoldable pub group_context : Text → Text → Result CredentialGroupContext
group_context id open_conversation_id = bind (non_empty_string id) λ i.
    bind (non_empty_string open_conversation_id)
      λ o. ok (record { id = i; open_conversation_id = o })

pub record CredentialContext : Type 0 where
  pub user : CredentialUserContext
  pub group : Option CredentialGroupContext
  pub handles : Dict CredentialHandle

-- `CredentialContext(...)`
unfoldable pub credential_context :
    CredentialUserContext
    → Option CredentialGroupContext
    → Dict CredentialHandle
    → Result CredentialContext
unfolding user_context handle_mapping
credential_context u g handles = bind (handle_mapping [] handles) λ hs.
    bind (user_context u.id u.staff_id u.principal_id u.union_id hs)
      λ v. ok (record { user = v; group = g; handles = hs })

-- `_optional_context_string`
unfoldable pub optional_context_string : Mapping → Text → Result (Option Text)
optional_context_string context key = elim (Json.get key context) [
  | none ↦ ok none
  | some null ↦ ok none
  | some (text s) ↦ bind (non_empty_string s) λ t. ok (some t)
  | some _ ↦ err value_error
]

-- `{handle.service: handle for handle in handles}`
unfoldable pub handle_map : List CredentialHandle → Dict CredentialHandle → Dict CredentialHandle
handle_map [] done = done
handle_map (h ∷ hs) done = handle_map hs (set h.service h done)

abbrev pub given_or : Option Text → Result (Option Text) → Result (Option Text)
given_or none other = other
given_or (some s) other = if is_empty s then other else ok (some s)

abbrev pub group_of : Session → SessionKind → Result (Option CredentialGroupContext)
group_of session dm = ok none
group_of session group = bind (non_empty_string session.principal.id) λ id.
    bind (optional_context_string session.context (codes "open_conversation_id")) λ named.
      bind (elim named [ none ↦ non_empty_string session.conversation_id | some s ↦ ok s ])
        λ conversation. bind (group_context id conversation) λ g. ok (some g)

-- `CredentialContext.for_session`
unfoldable pub for_session :
    Session → List CredentialHandle → Option Text → Result CredentialContext
unfolding handle_map user_context group_context optional_context_string credential_context
for_session session handles actor_union_id =
    let by_service = handle_map handles [] in
    bind
      (given_or actor_union_id (optional_context_string session.context (codes "actor_union_id")))
      λ union_id. bind (non_empty_string session.actor.id) λ id.
        bind (non_empty_string session.principal.id) λ principal_id.
          bind (user_context id id principal_id union_id by_service)
            λ u. bind (group_of session session.kind) λ g. credential_context u g by_service

-- `require_user_token`
unfoldable pub require_user_token : CredentialContext → Text → Result Text
require_user_token c service = token_for c.user service
