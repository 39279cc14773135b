-- ===== src/Capability/Tests.antt =====
-- A capability that reads a user's documents, the gates in front of it, and the theorems at those
-- calls.
use im_assistant.Prelude.{
  ◌+◌, ◌≡◌, ◌↔◌, ◌⊎◌, refl, true, false, Option, none, some, [], ◌∷◌, Text, codes, Result, ok,
  is_space, lstrip, rcons, rstrip, strip, lower, ◌==◌, member, non_empty_string, non_empty_strings,
  optional_string, find, delete, update, count, exists, arith,
}
use im_assistant.Prelude.Dict.{get, set, contains}
use im_assistant.Prelude.Sorted.{sorted_keys, values_at}
use im_assistant.Instant.{isoformat, seconds}
use im_assistant.Json as Json
use im_assistant.Json.Plain.{plain_object, plain_value, plain_fields, plain_items}
use im_assistant.Session.{SessionKind}
use im_assistant.Store.Records.{Db}
use im_assistant.Store.AuditLog.{append_audit_log}
use im_assistant.Store.Auths.{
  from_keys, normalize_scopes, auth_row, get_pending_auth, create_pending_auth,
  consume_pending_auth, delete_pending_auth,
}
use im_assistant.Store.Tokens.{get_token, put_token, token_row, upsert_token, delete_token}
use im_assistant.Audit.Obo.{obo_metadata, obo_event, record_obo_authorization}
use im_assistant.TokenVault.{
  Cipher, RefreshOutcome, rejected, token_needs_refresh, encrypt_text, decrypt_text, decrypt_record,
  get_user_token, token_record, put_user_token, after_refresh, get_valid,
}
use im_assistant.Oauth.{
  PendingAuth, actor_from_principal, pending_auth, pending_from_record, insert_pending,
  create_pending, get_pending, consume_pending,
}
use im_assistant.Capability.{
  Capability, Requirement, requirement, capability, origin_value, availability_tuple,
  input_schema_mapping, any_on_behalf, requires_user_authority, in_dm, user,
}
use im_assistant.Capability.Registry.{
  channel_context, register, register_each, list_capabilities, offers, usable_in, can_use,
}
use im_assistant.Capability.Visibility.{Sees, can_use_iff}
use im_assistant.Capability.Tiers.{
  Directory, missing, files, capability_for_tier, capabilities_for_tier,
  load_capabilities_from_directory, load_capability_registry,
}
use im_assistant.Capability.Tiers.Owned.{IsOwned, load_capability_registry-IsOwned}
use im_assistant.Capability.Credential.{
  CredentialKind, CredentialHandle, CredentialContext, credential_handle, application_handle,
  user_handle, handle_mapping, user_context, handle_for, token_for, group_context,
  credential_context, optional_context_string, handle_map, for_session, require_user_token,
}
use im_assistant.Capability.Credential.Token.{require_user_token-for_session}
use im_assistant.Capability.Authorizer.{
  AuthorizationResolution, granted, needs_consent, Urls, Asker, asker, scopes_cover,
  build_oauth_start_url, obo_authorization, record_obo_decision, handle_from_user_token,
  actor_identity, ask_consent, resolve,
}
use im_assistant.Capability.Authorizer.Granting.{IsApplication, IsUsers, resolve-granted}
use im_assistant.Capability.Authorizer.Consent.{resolve-consume_pending}
use im_assistant.Samples.{noon, s1, with_s1}

program : Unit {0}
unfolding is_space lstrip rcons rstrip strip lower ◌==◌ member non_empty_string non_empty_strings
    optional_string find delete update count exists get set contains sorted_keys values_at isoformat
    Json.get Json.set plain_object plain_value plain_fields plain_items append_audit_log from_keys
    normalize_scopes auth_row get_pending_auth create_pending_auth consume_pending_auth
    delete_pending_auth get_token put_token token_row upsert_token delete_token obo_metadata
    obo_event record_obo_authorization token_needs_refresh encrypt_text decrypt_text decrypt_record
    get_user_token token_record put_user_token after_refresh get_valid actor_from_principal
    pending_auth pending_from_record insert_pending create_pending get_pending consume_pending
    requirement capability origin_value availability_tuple input_schema_mapping any_on_behalf
    requires_user_authority channel_context register register_each list_capabilities offers
    usable_in can_use capability_for_tier capabilities_for_tier load_capabilities_from_directory
    load_capability_registry credential_handle application_handle user_handle handle_mapping
    user_context handle_for token_for group_context credential_context optional_context_string
    handle_map for_session require_user_token asker scopes_cover build_oauth_start_url
    obo_authorization record_obo_decision handle_from_user_token actor_identity ask_consent resolve
program = tt

-- A letter in front, in place of an encryption.
abbrev unwrap : Text → Option Text
unwrap [] = none
unwrap (c ∷ s) = some s

abbrev wrapping : Cipher
wrapping = record { encrypt = λ seed s. b'<' ∷ s; decrypt = unwrap }

abbrev urls : Urls
urls = record { parse_url = λ s. (codes "https", codes "bot"); quote = λ s. s }

abbrev refresh : Text → RefreshOutcome
refresh s = rejected

abbrev read_doc : Requirement
read_doc = record {
  service = codes "doc";
  scopes = codes "read" ∷ [];
  on_behalf_of = some (codes "actor");
}

abbrev call : Db → Result AuthorizationResolution × Db
call =
    resolve wrapping 300 600 urls (codes "https://bot/oauth/callback") none refresh true (1, 2) noon
      (codes "n1") read_doc s1.actor SessionKind.dm none (some (codes "s1"))

abbrev with_token : Db
with_token =
    (put_user_token wrapping 300 (1, 2) noon (codes "user:u1") (codes "doc") (codes "secret") none
      (codes "read" ∷ codes "write" ∷ []) (some (noon + seconds 7200)) with_s1).1

abbrev doc_handle : CredentialHandle
doc_handle = record {
  service = codes "doc";
  kind = CredentialKind.user;
  scopes = codes "read" ∷ [];
  principal_id = some (codes "user:u1");
  actor_id = some (codes "u1");
  user_access_token = some (codes "secret");
  refreshed = false;
}

abbrev after_grant : Db
after_grant = (call with_token).1

read_granted : call with_token ≡ (ok (granted doc_handle), after_grant)
unfolding program
read_granted = refl

resolve-granted_example :
    IsApplication read_doc doc_handle
    ⊎ ((a : Asker) × (asker s1.actor none (some (codes "s1")) ≡ ok a)
        × IsUsers wrapping 300 600 urls
            (codes "https://bot/oauth/callback")
            none
            refresh
            true
            (1, 2)
            noon
            (codes "n1")
            read_doc
            SessionKind.dm
            a
            with_token
            doc_handle)
resolve-granted_example =
    resolve-granted wrapping 300 600 urls (codes "https://bot/oauth/callback") none refresh true
      (1, 2) noon (codes "n1") read_doc s1.actor SessionKind.dm none (some (codes "s1")) doc_handle
      with_token after_grant read_granted

abbrev asked : PendingAuth
asked = record {
  nonce = codes "n1";
  principal_id = codes "user:u1";
  actor_id = codes "u1";
  session_id = codes "s1";
  service = codes "doc";
  scopes = codes "read" ∷ [];
  expires_at = noon + seconds 600;
}

abbrev after_ask : Db
after_ask = (call with_s1).1

read_asked : call with_s1 ≡ (
  ok (needs_consent (codes "https://bot/oauth/start?nonce=n1") asked (codes "missing")),
  after_ask,
)
unfolding program
read_asked = refl

resolve-consume_pending_example : (consume_pending (noon + 9) (codes "n1") after_ask).0 ≡ ok asked
resolve-consume_pending_example =
    resolve-consume_pending wrapping 300 600 urls (codes "https://bot/oauth/callback") none refresh
      true (1, 2) noon (codes "n1") read_doc s1.actor SessionKind.dm none (some (codes "s1"))
      (codes "https://bot/oauth/start?nonce=n1") asked (codes "missing") (noon + 9) with_s1
      after_ask read_asked (omega arith)

abbrev schema : Json.Mapping
schema = Json.entry (codes "type") (Json.text (codes "object")) Json.empty

abbrev reader : Capability (Unit {0})
reader = record {
  name = codes "read_doc";
  origin = user;
  available_in = in_dm ∷ [];
  requires = read_doc ∷ [];
  sensitivity = codes "low";
  handler = some tt;
  owner_id = none;
  description = none;
  input_schema = schema;
}

reader_made :
    capability
      (codes "read_doc ")
      (codes "user")
      (codes "dm" ∷ [])
      (read_doc ∷ [])
      (codes "Low")
      (some tt)
      none
      none
      schema
    ≡ ok reader
unfolding program
reader_made = refl

u1_named : non_empty_string s1.actor.id ≡ ok (codes "u1")
unfolding program
u1_named = refl

can_use_iff_example :
    (can_use reader SessionKind.dm s1.actor none ≡ ok true)
    ↔ Sees reader SessionKind.dm (codes "u1") none
can_use_iff_example = can_use_iff reader SessionKind.dm s1.actor none (codes "u1") u1_named

abbrev u1_dir : Text → Directory (Unit {0})
u1_dir user_id = files ((codes "doc.py", some (reader ∷ [])) ∷ [])

abbrev u1_reader : Capability (Unit {0})
u1_reader = record reader { owner_id = some (codes "u1") }

reader_loaded :
    load_capability_registry missing missing u1_dir (some (codes "u1"))
    ≡ ok ((codes "read_doc", u1_reader) ∷ [])
unfolding program
reader_loaded = refl

reader_found : get (codes "read_doc") ((codes "read_doc", u1_reader) ∷ []) ≡ some u1_reader
unfolding program
reader_found = refl

load_capability_registry-IsOwned_example :
    IsOwned missing missing u1_dir (some (codes "u1")) u1_reader
load_capability_registry-IsOwned_example =
    load_capability_registry-IsOwned missing missing u1_dir (some (codes "u1"))
      ((codes "read_doc", u1_reader) ∷ []) (codes "read_doc") u1_reader reader_loaded reader_found

abbrev as_application : CredentialHandle
as_application = record doc_handle { kind = CredentialKind.application; user_access_token = none }

abbrev mail_handle : CredentialHandle
mail_handle = record doc_handle { service = codes "mail"; user_access_token = some (codes "post") }

credentials_made :
    (c : CredentialContext) × (for_session s1 (as_application ∷ doc_handle ∷ mail_handle ∷ []) none
      ≡ ok c)
unfolding program
credentials_made = (_, refl)

only_mail : (mail_handle.service == doc_handle.service) ≡ false
unfolding program
only_mail = refl

doc_named : non_empty_string (codes " doc") ≡ ok (codes "doc")
unfolding program
doc_named = refl

require_user_token-for_session_example :
    require_user_token credentials_made.0 (codes " doc") ≡ ok (codes "secret")
require_user_token-for_session_example =
    require_user_token-for_session s1 (as_application ∷ []) (mail_handle ∷ []) doc_handle none
      credentials_made.0 (codes " doc") (codes "secret") credentials_made.1 (only_mail, tt)
      doc_named refl refl
