-- ===== src/TokenVault/Refresh.antt =====
-- The steps of `get_valid`: the token that is found, its refresh, and its revocation.
use mathlib.Core.Option.{some-injective}
use im_assistant.Prelude.{
  ℕ, ◌≡◌, sym, ap, ◌∙◌, subst, true, Option, none, some, Text, eq_iff, ok, bind-eq-ok, ok-injective,
  non_empty_string, find, continue-eq-ok, continue-lift-ok, returned-eq, arith,
}
use im_assistant.Prelude.Table.Reads.{find-holds, find-delete}
use im_assistant.Instant.{Instant}
use im_assistant.Store.Records.{TokenRecord, Db}
use im_assistant.Store.Tokens.{is_token, get_token, delete_token}
use im_assistant.TokenVault.{
  Cipher, UserToken, RefreshOutcome, returned, rejected, failed, RefreshedUserToken,
  TokenReauthorizationReason, missing_refresh_token, refresh_rejected, TokenVaultResolution,
  reauthorize, decrypt_record, decrypt_found, get_user_token, put_user_token, revoke_for,
  after_refresh, refresh_with, valid_token, get_valid, decrypt_text, decrypt_optional,
}

-- A token that was found is of the principal and the service that were asked for.
pub record IsOf (p s : Text) (o : Option UserToken) (db : Db) : Type 0 where
  pub stored : (o ≡ none) → find (is_token p s) db.tokens ≡ none
  pub owner : (t : UserToken) → o ≡ some t → (t.principal_id ≡ p) × (t.service ≡ s)

-- Either the token was refreshed, or it is gone and the reason says why.
pub record IsRefreshed (p s : Text) (res : TokenVaultResolution) (db' : Db) : Type 0 where
  pub fresh : (t : UserToken) → res.token ≡ some t → res.refreshed ≡ true
  pub gone :
      (x : TokenReauthorizationReason)
      → res.reauthorization_reason ≡ some x
      → find (is_token p s) db'.tokens ≡ none

module _ (c : Cipher) (skew : ℕ) where
  decrypt_record-key :
      (now : Instant) (r : TokenRecord) (t : UserToken)
      → decrypt_record c skew now r ≡ ok t
      → (t.principal_id ≡ r.principal_id) × (t.service ≡ r.service)
  unfolding decrypt_record
  decrypt_record-key now r t h =
      let (a, _, h1) = bind-eq-ok (decrypt_text c skew r.access_token_ciphertext) _ h in
      let (f, _, h2) = bind-eq-ok (decrypt_optional c skew r.refresh_token_ciphertext) _ h1 in
      let same = ok-injective h2 in
      (ap (λ x. x.principal_id) (sym same), ap (λ x. x.service) (sym same))

  decrypt_found-IsOf :
      (now : Instant) (p s : Text) (db : Db) (f : Option TokenRecord) (o : Option UserToken)
      → find (is_token p s) db.tokens ≡ f
      → decrypt_found c skew now f ≡ ok o
      → IsOf p s o db
  decrypt_found-IsOf now p s db none o e h = record {
    stored = λ _. e;
    owner = λ t q. absurd (ground (arith, h, q));
  }
  decrypt_found-IsOf now p s db (some r) o e h =
      let (u, d, h1) = bind-eq-ok (decrypt_record c skew now r) _ h in
      let held = find-holds (is_token p s) db.tokens r e in
      let (same_p, same_s) = decrypt_record-key now r u d in
      record {
        stored = λ q. absurd (ground (arith, h1, q));
        owner = λ t q.
            let is_u = some-injective u t (ok-injective h1 ∙ q) in
            (
              ap (λ x. x.principal_id) (sym is_u)
                  ∙ same_p
                  ∙ (eq_iff r.principal_id p).0 (ground arith),
              ap (λ x. x.service) (sym is_u) ∙ same_s ∙ (eq_iff r.service s).0 (ground arith),
            );
      }

  -- The parts of a `get_valid` that returned.
  pub get_valid_parts :
      (seeds : ℕ × ℕ) (now : Instant) (refresh : Text → RefreshOutcome) (principal service : Text)
      (res : TokenVaultResolution) (db db' : Db)
      → get_valid c skew seeds now refresh principal service db ≡ (ok res, db')
      → (p : Text) × (s : Text) × (o : Option UserToken) × (non_empty_string principal ≡ ok p)
        × (non_empty_string service ≡ ok s)
        × IsOf p s o db
        × (valid_token c skew seeds now refresh o db ≡ (ok res, db'))
  unfolding get_valid get_user_token get_token
  get_valid_parts seeds now refresh principal service res db db' h =
      let (o, mid, read, h1) =
        continue-eq-ok (get_user_token c skew now principal service db) _ h in
      let (f, low, got, h2) = continue-eq-ok (get_token principal service db) _ read in
      let (p, hp, h3) = continue-lift-ok (non_empty_string principal) _ got in
      let (s, hs, h4) = continue-lift-ok (non_empty_string service) _ h3 in
      let (is_f, is_low) = returned-eq h4 in
      let (decrypted, is_mid) : (decrypt_found c skew now f ≡ ok o) × (low ≡ mid) =
        (ap (λ x. x.0) h2, ap (λ x. x.1) h2) in
      (
        p,
        s,
        o,
        hp,
        hs,
        decrypt_found-IsOf now p s db f o is_f decrypted,
        ap (valid_token c skew seeds now refresh o) (is_low ∙ is_mid) ∙ h1,
      )

  -- A revocation deletes the token that it names.
  revoke_for_revokes :
      (reason : TokenReauthorizationReason) (u : UserToken) (p s : Text)
      (res : TokenVaultResolution) (db db' : Db)
      → non_empty_string p ≡ ok p
      → non_empty_string s ≡ ok s
      → (u.principal_id ≡ p) × (u.service ≡ s)
      → revoke_for c skew reason u db ≡ (ok res, db')
      → (find (is_token p s) db'.tokens ≡ none) × (reauthorize reason ≡ res)
  unfolding delete_token
  revoke_for_revokes reason u p s res db db' hp hs owner h =
      let (is_res, is_db) = returned-eq (rw (owner.0, owner.1, hp, hs) at h) in
      (
        subst (λ d. find (is_token p s) d.tokens ≡ none) is_db
            (find-delete (is_token p s) (is_token p s) db.tokens (λ r e. e)),
        is_res,
      )

  revoke_for-IsRefreshed :
      (reason : TokenReauthorizationReason) (u : UserToken) (p s : Text)
      (res : TokenVaultResolution) (db db' : Db)
      → non_empty_string p ≡ ok p
      → non_empty_string s ≡ ok s
      → (u.principal_id ≡ p) × (u.service ≡ s)
      → revoke_for c skew reason u db ≡ (ok res, db')
      → IsRefreshed p s res db'
  revoke_for-IsRefreshed reason u p s res db db' hp hs owner h =
      let (gone, is_res) = revoke_for_revokes reason u p s res db db' hp hs owner h in
      record {
        fresh = λ t e. absurd (ground (arith, ap (λ x. x.token) is_res, e));
        gone = λ x e. gone;
      }

  put_user_token-IsRefreshed :
      (seeds : ℕ × ℕ) (now : Instant) (u : UserToken) (new : RefreshedUserToken) (p s : Text)
      (res : TokenVaultResolution) (db db' : Db)
      → after_refresh c skew seeds now u (returned new) db ≡ (ok res, db')
      → IsRefreshed p s res db'
  unfolding after_refresh
  put_user_token-IsRefreshed seeds now u new p s res db db' h =
      let (stored, mid, _, h1) =
        continue-eq-ok
          (put_user_token c skew seeds now u.principal_id u.service new.access_token
            (some new.refresh_token) u.scopes (some new.expires_at) db)
          _ h in
      let (is_res, _) = returned-eq h1 in
      record {
        fresh = λ t e. ap (λ x. x.refreshed) (sym is_res);
        gone = λ x e. absurd (ground (arith, ap (λ y. y.reauthorization_reason) is_res, e));
      }

  after_refresh-IsRefreshed :
      (seeds : ℕ × ℕ) (now : Instant) (u : UserToken) (outcome : RefreshOutcome) (p s : Text)
      (res : TokenVaultResolution) (db db' : Db)
      → non_empty_string p ≡ ok p
      → non_empty_string s ≡ ok s
      → (u.principal_id ≡ p) × (u.service ≡ s)
      → after_refresh c skew seeds now u outcome db ≡ (ok res, db')
      → IsRefreshed p s res db'
  unfolding after_refresh
  after_refresh-IsRefreshed seeds now u rejected p s res db db' hp hs owner h =
      revoke_for-IsRefreshed refresh_rejected u p s res db db' hp hs owner h
  after_refresh-IsRefreshed seeds now u (failed e) p s res db db' hp hs owner h = absurd (cc)
  after_refresh-IsRefreshed seeds now u (returned new) p s res db db' hp hs owner h =
      put_user_token-IsRefreshed seeds now u new p s res db db' h

  pub stale-IsRefreshed :
      (seeds : ℕ × ℕ) (now : Instant) (refresh : Text → RefreshOutcome) (u : UserToken)
      (kept : Option Text) (p s : Text) (res : TokenVaultResolution) (db db' : Db)
      → non_empty_string p ≡ ok p
      → non_empty_string s ≡ ok s
      → (u.principal_id ≡ p) × (u.service ≡ s)
      → refresh_with c skew seeds now refresh u kept db ≡ (ok res, db')
      → IsRefreshed p s res db'
  stale-IsRefreshed seeds now refresh u none p s res db db' hp hs owner h =
      revoke_for-IsRefreshed missing_refresh_token u p s res db db' hp hs owner h
  stale-IsRefreshed seeds now refresh u (some r) p s res db db' hp hs owner h =
      after_refresh-IsRefreshed seeds now u (refresh r) p s res db db' hp hs owner h
