-- ===== src/TokenVault/Valid.antt =====
-- What `get_valid` hands out, and what it leaves when it asks for a new consent.
use mathlib.Core.Option.{some-injective}
use im_assistant.Prelude.{
  ℕ, ◌≡◌, refl, sym, ap, ◌∙◌, subst, Bool, true, false, if◌then◌else◌, pure, Option, none, some,
  Text, ok, Action, Bool-cases, inl, inr, non_empty_string, non_empty_string-fixed, find,
  returned-eq, arith,
}
use im_assistant.Instant.{Instant}
use im_assistant.Store.Records.{Db}
use im_assistant.Store.Tokens.{is_token, get_token}
use im_assistant.TokenVault.{
  Cipher, UserToken, RefreshOutcome, TokenReauthorizationReason, TokenVaultResolution,
  get_user_token, refresh_with, valid_token, get_valid,
}
use im_assistant.TokenVault.Refresh.{get_valid_parts, stale-IsRefreshed, IsOf}

module _ (c : Cipher) (skew : ℕ) where
  -- What `get_valid` does with a token, on either answer to whether it needs a refresh.
  abbrev act_on :
      ℕ × ℕ → Instant → (Text → RefreshOutcome) → UserToken → Bool → Action Db TokenVaultResolution
  act_on seeds now refresh u stale =
      if stale
      then refresh_with c skew seeds now refresh u u.refresh_token
      else pure (record { token = some u; refreshed = false; reauthorization_reason = none })

  act_on-eq :
      (seeds : ℕ × ℕ) (now : Instant) (refresh : Text → RefreshOutcome) (u : UserToken) (b : Bool)
      (res : TokenVaultResolution) (db db' : Db)
      → u.needs_refresh ≡ b
      → valid_token c skew seeds now refresh (some u) db ≡ (ok res, db')
      → act_on seeds now refresh u b db ≡ (ok res, db')
  act_on-eq seeds now refresh u b res db db' e h =
      subst (λ x. act_on seeds now refresh u x db ≡ (ok res, db')) e h

  valid_token_fresh :
      (seeds : ℕ × ℕ) (now : Instant) (refresh : Text → RefreshOutcome) (p s : Text)
      (o : Option UserToken) (t : UserToken) (res : TokenVaultResolution) (db db' : Db)
      → non_empty_string p ≡ ok p
      → non_empty_string s ≡ ok s
      → IsOf p s o db
      → res.token ≡ some t
      → res.refreshed ≡ false
      → valid_token c skew seeds now refresh o db ≡ (ok res, db')
      → (t.needs_refresh ≡ false) × (db ≡ db')
  valid_token_fresh seeds now refresh p s none t res db db' hp hs own token old h =
      absurd (ground (arith, ap (λ x. x.token) (returned-eq h).0, token))
  valid_token_fresh seeds now refresh p s (some u) t res db db' hp hs own token old h =
      elim (Bool-cases u.needs_refresh) [
        | inl stale ↦
            let r =
              stale-IsRefreshed c skew seeds now refresh u u.refresh_token p s res db db' hp hs
                (own.owner u refl) (act_on-eq seeds now refresh u true res db db' stale h) in
            absurd (ground (arith, r.fresh t token, old))
        | inr good ↦
            let (is_res, is_db) =
              returned-eq (act_on-eq seeds now refresh u false res db db' good h) in
            let same = some-injective u t (ap (λ x. x.token) is_res ∙ token) in
            (ap (λ x. x.needs_refresh) (sym same) ∙ good, is_db)
      ]

  valid_token_gone :
      (seeds : ℕ × ℕ) (now : Instant) (refresh : Text → RefreshOutcome) (p s : Text)
      (o : Option UserToken) (x : TokenReauthorizationReason) (res : TokenVaultResolution)
      (db db' : Db)
      → non_empty_string p ≡ ok p
      → non_empty_string s ≡ ok s
      → IsOf p s o db
      → res.reauthorization_reason ≡ some x
      → valid_token c skew seeds now refresh o db ≡ (ok res, db')
      → find (is_token p s) db'.tokens ≡ none
  valid_token_gone seeds now refresh p s none x res db db' hp hs own why h =
      subst (λ d. find (is_token p s) d.tokens ≡ none) (returned-eq h).1 (own.stored refl)
  valid_token_gone seeds now refresh p s (some u) x res db db' hp hs own why h =
      elim (Bool-cases u.needs_refresh) [
        | inl stale ↦
            (stale-IsRefreshed c skew seeds now refresh u u.refresh_token p s res db db' hp hs
                (own.owner u refl) (act_on-eq seeds now refresh u true res db db' stale h)).gone
              x why
        | inr good ↦
            let (is_res, _) = returned-eq (act_on-eq seeds now refresh u false res db db' good h) in
            absurd (ground (arith, ap (λ y. y.reauthorization_reason) is_res, why))
      ]

-- A token that `get_valid` returns without having refreshed it does not need a refresh, and nothing
-- has changed.
pub get_valid_fresh :
    (c : Cipher) (skew : ℕ) (seeds : ℕ × ℕ) (now : Instant) (refresh : Text → RefreshOutcome)
    (principal service : Text) (t : UserToken) (res : TokenVaultResolution) (db db' : Db)
    → get_valid c skew seeds now refresh principal service db ≡ (ok res, db')
    → res.token ≡ some t
    → res.refreshed ≡ false
    → (t.needs_refresh ≡ false) × (db ≡ db')
get_valid_fresh c skew seeds now refresh principal service t res db db' h token old =
    let (p, s, o, hp, hs, own, acts) =
      get_valid_parts c skew seeds now refresh principal service res db db' h in
    valid_token_fresh c skew seeds now refresh p s o t res db db'
      (non_empty_string-fixed principal p hp) (non_empty_string-fixed service s hs) own token old
      acts

-- When `get_valid` asks for a new consent, for whatever reason, no token is stored any more for that
-- principal and service: `get` returns none, and changes nothing.
pub get_valid_reauthorization :
    (c : Cipher) (skew : ℕ) (seeds : ℕ × ℕ) (now at : Instant) (refresh : Text → RefreshOutcome)
    (principal service : Text) (x : TokenReauthorizationReason) (res : TokenVaultResolution)
    (db db' : Db)
    → get_valid c skew seeds now refresh principal service db ≡ (ok res, db')
    → res.reauthorization_reason ≡ some x
    → get_user_token c skew at principal service db' ≡ (ok none, db')
unfolding get_user_token get_token
get_valid_reauthorization c skew seeds now at refresh principal service x res db db' h why =
    let (p, s, o, hp, hs, own, acts) =
      get_valid_parts c skew seeds now refresh principal service res db db' h in
    let gone =
      valid_token_gone c skew seeds now refresh p s o x res db db'
        (non_empty_string-fixed principal p hp) (non_empty_string-fixed service s hs) own why
        acts in
    rw (hp, hs, gone) refl
