-- ===== src/Capability/Authorizer.antt =====
-- The gate between a requirement and a credential (src/capabilities/authorizer.py), over the vault
-- of tokens, the store of nonces in the database and the audit log. The refresh of a token, the
-- parsing and quoting of URLs and the resolver of an actor's identity are functions that are handed
-- in; the nonce of a call is an argument.
pub mod Handles
pub mod Granting
pub mod Consent
use im_assistant.Prelude.{
  ℕ, Bool, true, false, not, ◌&&◌, Option, none, some, List, [], ◌∷◌, ◌++◌, Text, codes, ◌==◌,
  member, is_empty, Result, ok, err, bind, Action, authorizer_error, lift, pure, raise, ◌>>=◌, ◌>>◌,
  non_empty_string, if◌then◌else◌,
}
use im_assistant.Instant.{Instant}
use im_assistant.Session.{Actor, SessionKind, dm, group}
use im_assistant.Store.Records.{Db}
use im_assistant.Audit.Obo.{OboDecision, OboAuthorization, record_obo_authorization}
use im_assistant.TokenVault.{
  Cipher, UserToken, RefreshOutcome, TokenReauthorizationReason, missing, missing_refresh_token,
  refresh_rejected, TokenVaultResolution, get_valid,
}
use im_assistant.Oauth.{PendingAuth, create_pending}
use im_assistant.Capability.{Requirement}
use im_assistant.Capability.Registry.{is_dm}
use im_assistant.Capability.Credential.{CredentialHandle, application_handle, user_handle}

pub data AuthorizationResolution : Type 0 where
  granted : CredentialHandle → AuthorizationResolution
  -- the URL of the consent, the pending authorization, the reason
  needs_consent : Text → PendingAuth → Text → AuthorizationResolution
  denied : Text → AuthorizationResolution

abbrev pub mode_text : SessionKind → Text
mode_text dm = codes "dm"
mode_text group = codes "group"

abbrev pub reason_text : TokenReauthorizationReason → Text
reason_text missing = codes "missing"
reason_text missing_refresh_token = codes "missing_refresh_token"
reason_text refresh_rejected = codes "refresh_rejected"

-- `_scopes_cover`
unfoldable pub scopes_cover : List Text → List Text → Bool
scopes_cover granted_scopes [] = true
scopes_cover granted_scopes (s ∷ required) =
    member s granted_scopes && scopes_cover granted_scopes required

-- `a or b`
abbrev pub text_or : Option Text → Text → Text
text_or none default = default
text_or (some s) default = if is_empty s then default else s

-- What a URL is parsed into: its scheme and its network location.
pub record Urls : Type 0 where
  pub parse_url : Text → Text × Text
  pub quote : Text → Text

-- `build_oauth_start_url`
unfoldable pub build_oauth_start_url : Urls → Text → PendingAuth → Result Text
build_oauth_start_url urls redirect_uri pending = bind (non_empty_string redirect_uri) λ uri.
    let (scheme, netloc) = urls.parse_url uri in
    if is_empty scheme
    then err authorizer_error
    else if is_empty netloc
    then err authorizer_error
    else ok
        (scheme ++ codes "://" ++ netloc ++ codes "/oauth/start?nonce=" ++ urls.quote pending.nonce)

-- The ids of one call, in normal form.
pub record Asker : Type 0 where
  pub actor_id : Text
  pub principal : Text
  pub session : Text

unfoldable pub asker : Actor → Option Text → Option Text → Result Asker
asker actor principal_id session_id = bind (non_empty_string actor.id) λ a.
    bind (non_empty_string (text_or principal_id (codes "user:" ++ a))) λ p.
      bind (non_empty_string (text_or session_id p))
        λ s. ok (record { actor_id = a; principal = p; session = s })

-- The outcome of one decision, for the log.
pub record Decided : Type 0 where
  pub decision : OboDecision
  pub reason : Option Text
  pub refreshed : Bool
  pub pending_nonce : Option Text
  pub actor_identity : Option Text

abbrev pub denial : Text → Decided
denial reason = record {
  decision = OboDecision.denied;
  reason = some reason;
  refreshed = false;
  pending_nonce = none;
  actor_identity = none;
}

abbrev pub grant : Bool → Decided
grant refreshed = record {
  decision = OboDecision.granted;
  reason = none;
  refreshed = refreshed;
  pending_nonce = none;
  actor_identity = none;
}

abbrev pub consent : Text → Text → Text → Decided
consent reason nonce identity = record {
  decision = OboDecision.needs_consent;
  reason = some reason;
  refreshed = false;
  pending_nonce = some nonce;
  actor_identity = some identity;
}

unfoldable pub obo_authorization : Asker → Requirement → SessionKind → Decided → OboAuthorization
obo_authorization a r mode d = record {
  actor_id = a.actor_id;
  principal_id = a.principal;
  session_id = a.session;
  service = r.service;
  scopes = r.scopes;
  mode = mode_text mode;
  decision = d.decision;
  on_behalf_of = r.on_behalf_of;
  reason = d.reason;
  refreshed = d.refreshed;
  pending_nonce = d.pending_nonce;
  actor_identity = d.actor_identity;
}

-- `_record_obo_decision`
unfoldable pub record_obo_decision :
    Bool → Instant → Asker → Requirement → SessionKind → Decided → Action Db (Unit {0})
unfolding obo_authorization
record_obo_decision audited now a r mode d =
    if audited
    then (do _ ← record_obo_authorization now (obo_authorization a r mode d); pure tt)
    else pure tt

-- `_handle_from_user_token`
unfoldable pub handle_from_user_token :
    UserToken → List Text → Text → Bool → Result CredentialHandle
handle_from_user_token t scopes actor_id refreshed =
    user_handle t.service t.user_access_token scopes (some t.principal_id) (some actor_id) refreshed

module _ (cipher : Cipher) (skew ttl : ℕ) (urls : Urls) (redirect_uri : Text)
    (resolver : Option (Actor → Result Text)) (refresh : Text → RefreshOutcome) (audited : Bool)
    (seeds : ℕ × ℕ) (now : Instant) (nonce : Text) where
  -- `_actor_identity`
  unfoldable pub actor_identity : Actor → Result Text
  actor_identity actor = elim resolver [
    | none ↦ non_empty_string actor.id
    | some resolve_identity ↦ bind (resolve_identity actor) λ s. non_empty_string s
  ]

  unfoldable pub ask_consent :
      Requirement → Actor → SessionKind → Asker → Text → Action Db AuthorizationResolution
  unfolding actor_identity record_obo_decision
  ask_consent r actor mode a reason = do
    identity ← lift (actor_identity actor)
    n ← lift (non_empty_string nonce)
    pending ← create_pending ttl now n a.principal (some identity) a.session r.service r.scopes none
    record_obo_decision audited now a r mode (consent reason pending.nonce identity)
    url ← lift (build_oauth_start_url urls redirect_uri pending)
    pure (needs_consent url pending reason)

  abbrev pub with_token :
      Requirement
      → Actor
      → SessionKind
      → Asker
      → Bool
      → Option TokenReauthorizationReason
      → Option UserToken
      → Action Db AuthorizationResolution
  with_token r actor mode a refreshed reason none =
      ask_consent r actor mode a (elim reason [ none ↦ codes "missing" | some x ↦ reason_text x ])
  with_token r actor mode a refreshed reason (some t) =
      if scopes_cover t.scopes r.scopes
      then (do
        record_obo_decision audited now a r mode (grant refreshed)
        h ← lift (handle_from_user_token t r.scopes a.actor_id refreshed)
        pure (granted h))
      else ask_consent r actor mode a (codes "missing_scopes")

  abbrev pub deny : Requirement → SessionKind → Asker → Text → Action Db AuthorizationResolution
  deny r mode a reason = do
    record_obo_decision audited now a r mode (denial reason)
    pure (denied reason)

  -- What is done for a requirement on behalf of `target`.
  abbrev pub on_behalf :
      Requirement → Actor → SessionKind → Asker → Option Text → Action Db AuthorizationResolution
  on_behalf r actor mode a none = do
    h ← lift (application_handle r.service r.scopes (some a.principal) (some a.actor_id))
    pure (granted h)
  on_behalf r actor mode a (some target) =
      if not (target == codes "actor")
      then deny r mode a (codes "unsupported on_behalf_of target: " ++ target)
      else if not (is_dm mode)
      then deny r mode a (codes "OBO requirements can only be granted in DM sessions")
      else (do
        res ← get_valid cipher skew seeds now refresh a.principal r.service
        with_token r actor mode a res.refreshed res.reauthorization_reason res.token)

  -- `resolve`
  unfoldable pub resolve :
      Requirement
      → Actor
      → SessionKind
      → Option Text
      → Option Text
      → Action Db AuthorizationResolution
  resolve r actor mode principal_id session_id = do
    a ← lift (asker actor principal_id session_id)
    on_behalf r actor mode a r.on_behalf_of
