-- ===== src/Capability/Authorizer/Granting.antt =====
-- When a requirement is granted, and what credential the grant carries.
use im_assistant.Prelude.{
  ℕ, ◌≡◌, ◌⊎◌, if◌then◌else◌, refl, sym, ap, ◌∙◌, inl, inr, Bool, false, not, Option, none, some,
  ◌++◌, Text, codes, ◌==◌, eq_iff, Result, ok, ok-injective, ◌>>=◌, continue-eq-ok,
  continue-lift-ok, returned-eq, Bool-cases, non_empty_string,
}
use im_assistant.Instant.{Instant}
use im_assistant.Session.{Actor, SessionKind, dm, group}
use im_assistant.Store.Records.{Db}
use im_assistant.TokenVault.{Cipher, UserToken, RefreshOutcome, TokenVaultResolution, get_valid}
use im_assistant.Oauth.{PendingAuth, create_pending}
use im_assistant.Capability.{Requirement}
use im_assistant.Capability.Registry.{is_dm}
use im_assistant.Capability.Credential.{
  CredentialHandle, CredentialKind, application_handle, user_handle,
}
use im_assistant.Capability.Authorizer.Handles.{
  Covers, scopes_cover-Covers, credential_handle-IsHandle, checked_token-carried,
}
use im_assistant.Capability.Authorizer.{
  Asker, asker, AuthorizationResolution, granted, needs_consent, Urls, scopes_cover, grant, denial,
  consent, build_oauth_start_url, record_obo_decision, handle_from_user_token, actor_identity,
  ask_consent, with_token, deny, on_behalf, resolve,
}

-- The credential of the application.
pub record IsApplication (r : Requirement) (h : CredentialHandle) : Type 0 where
  pub nobody : r.on_behalf_of ≡ none
  pub kind : h.kind ≡ CredentialKind.application
  pub token : h.user_access_token ≡ none

module _ (cipher : Cipher) (skew ttl : ℕ) (urls : Urls) (redirect_uri : Text)
    (resolver : Option (Actor → Result Text)) (refresh : Text → RefreshOutcome) (audited : Bool)
    (seeds : ℕ × ℕ) (now : Instant) (nonce : Text) where
  -- The credential of a user: the conversation is a DM, the vault has returned a token of the asker's
  -- principal for the service, the token's scopes cover those required, and the handle has it.
  pub record IsUsers (r : Requirement) (mode : SessionKind) (a : Asker) (db : Db)
      (h : CredentialHandle) : Type 0 where
    pub actor : r.on_behalf_of ≡ some (codes "actor")
    pub in_dm : mode ≡ dm
    pub resolution : TokenVaultResolution
    pub left : Db
    pub vault :
        get_valid cipher skew seeds now refresh a.principal r.service db ≡ (ok resolution, left)
    pub token : UserToken
    pub valid : resolution.token ≡ some token
    pub covered : Covers token.scopes r.scopes
    pub kind : h.kind ≡ CredentialKind.user
    pub secret : Text
    pub plain : non_empty_string token.user_access_token ≡ ok secret
    pub carried : h.user_access_token ≡ some secret

  -- What `ask_consent` has done: a pending authorization was created, and the decision recorded.
  pub record IsAsked (r : Requirement) (actor : Actor) (mode : SessionKind) (a : Asker)
      (reason : Text) (db db' : Db) (x : AuthorizationResolution) : Type 0 where
    pub identity : Text
    pub key : Text
    pub keyed : non_empty_string nonce ≡ ok key
    pub pending : PendingAuth
    pub left : Db
    pub created :
        create_pending ttl now key a.principal (some identity) a.session r.service r.scopes none db
        ≡ (ok pending, left)
    pub recorded :
        record_obo_decision audited now a r mode (consent reason pending.nonce identity) left
        ≡ (ok tt, db')
    pub url : Text
    pub result : x ≡ needs_consent url pending reason

  pub ask_consent-IsAsked :
      (r : Requirement) (actor : Actor) (mode : SessionKind) (a : Asker) (reason : Text)
      (x : AuthorizationResolution) (db db' : Db)
      → ask_consent cipher skew ttl urls redirect_uri resolver refresh audited seeds now nonce r
          actor mode a reason db
        ≡ (ok x, db')
      → IsAsked r actor mode a reason db db' x
  unfolding ask_consent
  ask_consent-IsAsked r actor mode a reason x db db' e =
      let (identity, _, e1) =
        continue-lift-ok
          (actor_identity cipher skew ttl urls redirect_uri resolver refresh audited seeds now nonce
            actor)
          _ e in
      let (n, hn, e2) = continue-lift-ok (non_empty_string nonce) _ e1 in
      let (pending, mid, made, e3) =
        continue-eq-ok
          (create_pending ttl now n a.principal (some identity) a.session r.service r.scopes none
            db)
          _ e2 in
      let (u, end, logged, e4) =
        continue-eq-ok
          (record_obo_decision audited now a r mode (consent reason pending.nonce identity) mid) _
          e3 in
      let (url, _, e5) = continue-lift-ok (build_oauth_start_url urls redirect_uri pending) _ e4 in
      let (is_x, is_end) = returned-eq e5 in
      record {
        identity = identity;
        key = n;
        keyed = hn;
        pending = pending;
        left = mid;
        created = made;
        recorded = logged ∙ ap (λ d. (ok tt, d)) is_end;
        url = url;
        result = sym is_x;
      }

  asked-ne-granted :
      (r : Requirement) (actor : Actor) (mode : SessionKind) (a : Asker) (reason : Text)
      (h : CredentialHandle) (db db' : Db)
      → ask_consent cipher skew ttl urls redirect_uri resolver refresh audited seeds now nonce r
          actor mode a reason db
        ≡ (ok (granted h), db')
      → ⊥
  asked-ne-granted r actor mode a reason h db db' e =
      cc (ask_consent-IsAsked r actor mode a reason (granted h) db db' e).result

  with_token-IsUsers :
      (r : Requirement) (actor : Actor) (mode : SessionKind) (a : Asker) (h : CredentialHandle)
      (db mid db' : Db) (res : TokenVaultResolution) (o : Option UserToken)
      → r.on_behalf_of ≡ some (codes "actor")
      → mode ≡ dm
      → get_valid cipher skew seeds now refresh a.principal r.service db ≡ (ok res, mid)
      → res.token ≡ o
      → with_token cipher skew ttl urls redirect_uri resolver refresh audited seeds now nonce r
          actor mode a res.refreshed res.reauthorization_reason o mid
        ≡ (ok (granted h), db')
      → IsUsers r mode a db h
  unfolding handle_from_user_token user_handle
  with_token-IsUsers r actor mode a h db mid db' res none is_actor is_dm got is_o e =
      absurd (asked-ne-granted r actor mode a _ h mid db' e)
  with_token-IsUsers r actor mode a h db mid db' res (some t) is_actor is_dm got is_o e =
      elim (Bool-cases (scopes_cover t.scopes r.scopes)) [
        | inr short ↦
            absurd
              (asked-ne-granted r actor mode a (codes "missing_scopes") h mid db' (rw short at e))
        | inl enough ↦
            let (_, u, _, e1) =
              continue-eq-ok (record_obo_decision audited now a r mode (grant res.refreshed) mid) _
                (rw enough at e) in
            let (g, made, e2) =
              continue-lift-ok (handle_from_user_token t r.scopes a.actor_id res.refreshed) _ e1 in
            let (same, _) = returned-eq e2 in
            let is_g : g ≡ h = cc same in
            let v =
              credential_handle-IsHandle t.service CredentialKind.user r.scopes
                (some t.principal_id) (some a.actor_id) (some t.user_access_token) res.refreshed h
                (made ∙ ap ok is_g) in
            let (secret, plain, carried) =
              checked_token-carried t.user_access_token h.user_access_token v.token in
            record {
              actor = is_actor;
              in_dm = is_dm;
              resolution = res;
              left = mid;
              vault = got;
              token = t;
              valid = is_o;
              covered = scopes_cover-Covers t.scopes r.scopes enough;
              kind = v.kind;
              secret = secret;
              plain = plain;
              carried = carried;
            }
      ]

  denied_only :
      (r : Requirement) (mode : SessionKind) (a : Asker) (reason : Text) (h : CredentialHandle)
      (db db' : Db)
      → deny cipher skew ttl urls redirect_uri resolver refresh audited seeds now nonce r mode a
          reason db
        ≡ (ok (granted h), db')
      → ⊥
  denied_only r mode a reason h db db' e =
      let (_, u, _, e1) =
        continue-eq-ok (record_obo_decision audited now a r mode (denial reason) db) _ e in
      cc (returned-eq e1).0

  granted_to_actor :
      (r : Requirement) (actor : Actor) (mode : SessionKind) (a : Asker) (h : CredentialHandle)
      (db db' : Db)
      → r.on_behalf_of ≡ some (codes "actor")
      → (if not (is_dm mode)
            then deny cipher skew ttl urls redirect_uri resolver refresh audited seeds now nonce r
                mode a
                (codes "OBO requirements can only be granted in DM sessions")
            else (do
              res ← get_valid cipher skew seeds now refresh a.principal r.service
              with_token cipher skew ttl urls redirect_uri resolver refresh audited seeds now nonce
                  r actor mode a res.refreshed res.reauthorization_reason res.token))
          db
        ≡ (ok (granted h), db')
      → IsApplication r h ⊎ IsUsers r mode a db h
  granted_to_actor r actor group a h db db' is_actor e = absurd (
      denied_only r group a (codes "OBO requirements can only be granted in DM sessions") h db db'
        e)
  granted_to_actor r actor dm a h db db' is_actor e =
      let (res, mid, got, e1) =
        continue-eq-ok (get_valid cipher skew seeds now refresh a.principal r.service db) _ e in
      inr (with_token-IsUsers r actor dm a h db mid db' res res.token is_actor refl got refl e1)

  on_behalf-granted :
      (r : Requirement) (actor : Actor) (mode : SessionKind) (a : Asker) (h : CredentialHandle)
      (db db' : Db) (target : Option Text)
      → r.on_behalf_of ≡ target
      → on_behalf cipher skew ttl urls redirect_uri resolver refresh audited seeds now nonce r actor
          mode a target db
        ≡ (ok (granted h), db')
      → IsApplication r h ⊎ IsUsers r mode a db h
  unfolding application_handle
  on_behalf-granted r actor mode a h db db' none is_target e =
      let (g, made, e1) =
        continue-lift-ok
          (application_handle r.service r.scopes (some a.principal) (some a.actor_id)) _ e in
      let is_g : g ≡ h = cc (returned-eq e1).0 in
      let v =
        credential_handle-IsHandle r.service CredentialKind.application r.scopes (some a.principal)
          (some a.actor_id) none false h (made ∙ ap ok is_g) in
      inl (record { nobody = is_target; kind = v.kind; token = sym (ok-injective v.token) })
  on_behalf-granted r actor mode a h db db' (some target) is_target e =
      elim (Bool-cases (target == codes "actor")) [
        | inr other ↦ absurd (
            denied_only r mode a (codes "unsupported on_behalf_of target: " ++ target) h db db'
              (rw other at e))
        | inl same ↦
            granted_to_actor r actor mode a h db db'
              (is_target ∙ ap some ((eq_iff target _).0 same)) (rw same at e)
      ]

  -- A requirement is granted in two cases only. It is on nobody's behalf, and the handle is that of
  -- the application, with no token; or it is on the actor's behalf, the conversation is a DM, the
  -- vault has returned a valid token of the asker's principal for the service, whose scopes are all
  -- those required and maybe more, and the handle is a user's and carries that token, stripped.
  pub resolve-granted :
      (r : Requirement) (actor : Actor) (mode : SessionKind) (principal_id session_id : Option Text)
      (h : CredentialHandle) (db db' : Db)
      → resolve cipher skew ttl urls redirect_uri resolver refresh audited seeds now nonce r actor
          mode principal_id session_id db
        ≡ (ok (granted h), db')
      → IsApplication r h
        ⊎ ((a : Asker) × (asker actor principal_id session_id ≡ ok a) × IsUsers r mode a db h)
  unfolding resolve
  resolve-granted r actor mode principal_id session_id h db db' e =
      let (a, ha, e1) = continue-lift-ok (asker actor principal_id session_id) _ e in
      elim (on_behalf-granted r actor mode a h db db' r.on_behalf_of refl e1) [
        | inl app ↦ inl app
        | inr users ↦ inr (a, ha, users)
      ]
