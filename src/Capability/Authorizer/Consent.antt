-- ===== src/Capability/Authorizer/Consent.antt =====
-- A consent that was asked for can be answered: its nonce is that of a pending authorization.
use im_assistant.Prelude.{
  ℕ, ◌≡◌, ◌<◌, refl, sym, ap, ◌∙◌, subst, inl, inr, Bool, true, false, Option, none, some, Text,
  codes, ◌++◌, ◌==◌, Result, ok, Result-cases, continue-eq-ok, continue-lift-ok, returned-eq,
  Bool-cases, non_empty_string, non_empty_string-fixed,
}
use im_assistant.Instant.{Instant}
use im_assistant.Session.{Actor, SessionKind}
use im_assistant.Store.Records.{Db}
use im_assistant.Store.AuditLog.Appends.{append_audit_log-IsRowOf}
use im_assistant.Store.Auths.{consume_pending_auth}
use im_assistant.Audit.Obo.{obo_event, record_obo_authorization}
use im_assistant.TokenVault.{
  Cipher, UserToken, RefreshOutcome, TokenReauthorizationReason, get_valid,
}
use im_assistant.Oauth.{PendingAuth, consume_pending}
use im_assistant.Oauth.SingleUse.{consume_pending-create}
use im_assistant.Capability.{Requirement}
use im_assistant.Capability.Registry.{is_dm}
use im_assistant.Capability.Credential.{application_handle}
use im_assistant.Capability.Authorizer.{
  Asker, asker, AuthorizationResolution, needs_consent, Urls, grant, denial, Decided,
  record_obo_decision, handle_from_user_token, ask_consent, with_token, deny, on_behalf, resolve,
  scopes_cover, obo_authorization,
}
use im_assistant.Capability.Authorizer.Granting.{ask_consent-IsAsked}

-- The record of a decision leaves the pending authorizations alone.
record_obo_decision-auths :
    (audited : Bool) (now : Instant) (a : Asker) (r : Requirement) (mode : SessionKind)
    (d : Decided) (db db' : Db)
    → record_obo_decision audited now a r mode d db ≡ (ok tt, db')
    → db'.auths ≡ db.auths
unfolding record_obo_decision record_obo_authorization
record_obo_decision-auths false now a r mode d db db' h = ap (λ x. x.auths) (sym (returned-eq h).1)
record_obo_decision-auths true now a r mode d db db' h =
    let event = obo_authorization a r mode d in
    let (row, u, logged, e) = continue-eq-ok (record_obo_authorization now event db) _ h in
    let (x, _, appended) = continue-lift-ok (obo_event event) _ logged in
    let (_, left, _) = append_audit_log-IsRowOf now x db u row appended in
    sym (ap (λ t. t.auths) (returned-eq e).1) ∙ ap (λ t. t.auths) left

-- What `consume` answers depends on the pending authorizations only.
consume_pending-auths :
    (now : Instant) (nonce : Text) (db db' : Db)
    → db'.auths ≡ db.auths
    → (consume_pending now nonce db').0 ≡ (consume_pending now nonce db).0
unfolding consume_pending consume_pending_auth
consume_pending-auths now nonce db db' h = elim (Result-cases (non_empty_string nonce)) [
  | inr (e, blank) ↦ rw blank refl
  | inl (n, hn) ↦ rw (hn, non_empty_string-fixed nonce n hn, h) refl
]

-- The white space around a nonce does not count.
consume_pending-key :
    (now : Instant) (nonce key : Text) (db : Db)
    → non_empty_string nonce ≡ ok key
    → consume_pending now nonce db ≡ consume_pending now key db
unfolding consume_pending
consume_pending-key now nonce key db h = rw (h, non_empty_string-fixed nonce key h) refl

consent-injective :
    (u v : Text) (p q : PendingAuth) (r s : Text)
    → ◌≡◌ {A = AuthorizationResolution} (needs_consent u p r) (needs_consent v q s)
    → p ≡ q
consent-injective u v p q r s h = ap (λ x. elim x [ needs_consent _ y _ ↦ y | _ ↦ p ]) h

module _ (cipher : Cipher) (skew ttl : ℕ) (urls : Urls) (redirect_uri : Text)
    (resolver : Option (Actor → Result Text)) (refresh : Text → RefreshOutcome) (audited : Bool)
    (seeds : ℕ × ℕ) (now : Instant) (nonce : Text) where
  -- A nonce that was asked with can be consumed, for the authorization that was created.
  asked-consume :
      (r : Requirement) (actor : Actor) (mode : SessionKind) (a : Asker) (why url : Text)
      (pending : PendingAuth) (reason : Text) (at : Instant) (db db' : Db)
      → ask_consent cipher skew ttl urls redirect_uri resolver refresh audited seeds now nonce r
          actor mode a why db
        ≡ (ok (needs_consent url pending reason), db')
      → at < pending.expires_at
      → (consume_pending at nonce db').0 ≡ ok pending
  asked-consume r actor mode a why url pending reason at db db' h soon =
      let asked =
        ask_consent-IsAsked cipher skew ttl urls redirect_uri resolver refresh audited seeds now
          nonce r actor mode a why (needs_consent url pending reason) db db' h in
      let same = consent-injective url asked.url pending asked.pending reason why asked.result in
      let in_time : at < asked.pending.expires_at = subst (λ p. at < p.expires_at) same soon in
      ap (λ x. x.0) (consume_pending-key at nonce asked.key db' asked.keyed)
      ∙ (consume_pending-auths at asked.key asked.left db'
            (record_obo_decision-auths audited now a r mode _ asked.left db' asked.recorded)
          ∙ (consume_pending-create ttl now at asked.key a.principal (some asked.identity) a.session
                r.service r.scopes none asked.pending db asked.left asked.created in_time
              ∙ ap ok (sym same)))

  with_token-consume :
      (r : Requirement) (actor : Actor) (mode : SessionKind) (a : Asker) (refreshed : Bool)
      (why : Option TokenReauthorizationReason) (o : Option UserToken) (url : Text)
      (pending : PendingAuth) (reason : Text) (at : Instant) (db db' : Db)
      → with_token cipher skew ttl urls redirect_uri resolver refresh audited seeds now nonce r
          actor mode a refreshed why o db
        ≡ (ok (needs_consent url pending reason), db')
      → at < pending.expires_at
      → (consume_pending at nonce db').0 ≡ ok pending
  with_token-consume r actor mode a refreshed why none url pending reason at db db' h soon =
      asked-consume r actor mode a _ url pending reason at db db' h soon
  with_token-consume r actor mode a refreshed why (some t) url pending reason at db db' h soon =
      elim (Bool-cases (scopes_cover t.scopes r.scopes)) [
        | inr short ↦
            asked-consume r actor mode a (codes "missing_scopes") url pending reason at db db'
              (rw short at h) soon
        | inl enough ↦
            let (_, u, _, h1) =
              continue-eq-ok (record_obo_decision audited now a r mode (grant refreshed) db) _
                (rw enough at h) in
            let (g, made, h2) =
              continue-lift-ok (handle_from_user_token t r.scopes a.actor_id refreshed) _ h1 in
            absurd (cc (returned-eq h2).0)
      ]

  deny-consume :
      (r : Requirement) (mode : SessionKind) (a : Asker) (why url : Text) (pending : PendingAuth)
      (reason : Text) (db db' : Db)
      → deny cipher skew ttl urls redirect_uri resolver refresh audited seeds now nonce r mode a why
          db
        ≡ (ok (needs_consent url pending reason), db')
      → ⊥
  deny-consume r mode a why url pending reason db db' h =
      let (_, u, _, e) =
        continue-eq-ok (record_obo_decision audited now a r mode (denial why) db) _ h in
      cc (returned-eq e).0

  on_behalf-consume :
      (r : Requirement) (actor : Actor) (mode : SessionKind) (a : Asker) (target : Option Text)
      (url : Text) (pending : PendingAuth) (reason : Text) (at : Instant) (db db' : Db)
      → on_behalf cipher skew ttl urls redirect_uri resolver refresh audited seeds now nonce r actor
          mode a target db
        ≡ (ok (needs_consent url pending reason), db')
      → at < pending.expires_at
      → (consume_pending at nonce db').0 ≡ ok pending
  on_behalf-consume r actor mode a none url pending reason at db db' h soon =
      let (g, _, e) =
        continue-lift-ok
          (application_handle r.service r.scopes (some a.principal) (some a.actor_id)) _ h in
      absurd (cc (returned-eq e).0)
  on_behalf-consume r actor mode a (some target) url pending reason at db db' h soon =
      elim (Bool-cases (target == codes "actor")) [
        | inr other ↦ absurd (
            deny-consume r mode a (codes "unsupported on_behalf_of target: " ++ target) url pending
              reason db db' (rw other at h))
        | inl same ↦ elim (Bool-cases (is_dm mode)) [
          | inr grouped ↦ absurd (
              deny-consume r mode a (codes "OBO requirements can only be granted in DM sessions")
                url pending reason db db' (rw (same, grouped) at h))
          | inl private ↦
              let (res, mid, _, e) =
                continue-eq-ok (get_valid cipher skew seeds now refresh a.principal r.service db) _
                  (rw (same, private) at h) in
              with_token-consume r actor mode a res.refreshed res.reauthorization_reason res.token
                url pending reason at mid db' e soon
        ]
      ]

  -- Once `resolve` has asked for a consent, the nonce it was given can be consumed until the pending
  -- authorization expires, and `consume` returns that authorization: the log's record and the reads
  -- of the vault before it do not come in between.
  pub resolve-consume_pending :
      (r : Requirement) (actor : Actor) (mode : SessionKind) (principal_id session_id : Option Text)
      (url : Text) (pending : PendingAuth) (reason : Text) (at : Instant) (db db' : Db)
      → resolve cipher skew ttl urls redirect_uri resolver refresh audited seeds now nonce r actor
          mode principal_id session_id db
        ≡ (ok (needs_consent url pending reason), db')
      → at < pending.expires_at
      → (consume_pending at nonce db').0 ≡ ok pending
  unfolding resolve
  resolve-consume_pending r actor mode principal_id session_id url pending reason at db db' h soon =
      let (a, _, h1) = continue-lift-ok (asker actor principal_id session_id) _ h in
      on_behalf-consume r actor mode a r.on_behalf_of url pending reason at db db' h1 soon
