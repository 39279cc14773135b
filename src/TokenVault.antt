-- ===== src/TokenVault.antt =====
-- The encrypted storage of the users' tokens (src/infra/token_vault.py). Fernet is not part of the
-- program: a `Cipher` is what the vault uses of it, and its laws are what Fernet documents. The
-- refresh of a token is a function that is handed in; it leaves the database alone.
pub mod RoundTrip
pub mod Refresh
pub mod Valid
mod Tests
use im_assistant.Prelude.{
  ℕ, ◌+◌, ◌≡◌, Bool, true, false, Option, none, some, List, Text, Result, ok, err, bind, Error,
  value_error, vault_error, Action, lift, pure, raise, ◌>>=◌, ◌>>◌, non_empty_string, leb,
  if◌then◌else◌,
}
use im_assistant.Instant.{Instant, seconds}
use im_assistant.Store.Records.{TokenRecord, Db}
use im_assistant.Store.Auths.{normalize_scopes}
use im_assistant.Store.Tokens.{get_token, upsert_token, delete_token}

-- `Fernet` under the key of the vault. Each encryption draws on fresh randomness, the seed.
pub record Cipher : Type 0 where
  pub encrypt : ℕ → Text → Text
  -- `none` is `InvalidToken`
  pub decrypt : Text → Option Text

-- A token decrypts to what was encrypted, and is base64 text: not empty, no white space.
pub record IsFernet (c : Cipher) : Type 0 where
  pub decrypts : (seed : ℕ) (s : Text) → c.decrypt (c.encrypt seed s) ≡ some s
  pub plain : (seed : ℕ) (s : Text) → non_empty_string (c.encrypt seed s) ≡ ok (c.encrypt seed s)

pub record UserToken : Type 0 where
  pub principal_id : Text
  pub service : Text
  pub user_access_token : Text
  pub refresh_token : Option Text
  pub scopes : List Text
  pub expires_at : Option Instant
  pub needs_refresh : Bool
  pub created_at : Option Instant
  pub updated_at : Option Instant

pub record RefreshedUserToken : Type 0 where
  pub access_token : Text
  pub refresh_token : Text
  pub expires_at : Instant

-- What the refresh does: it returns, or raises one of the exceptions that mean a rejection, or
-- another one.
pub data RefreshOutcome : Type 0 where
  returned : RefreshedUserToken → RefreshOutcome
  rejected : RefreshOutcome
  failed : Error → RefreshOutcome

pub data TokenReauthorizationReason : Type 0 where
  missing missing_refresh_token refresh_rejected : TokenReauthorizationReason

pub record TokenVaultResolution : Type 0 where
  pub token : Option UserToken
  pub refreshed : Bool
  pub reauthorization_reason : Option TokenReauthorizationReason

abbrev pub reauthorize : TokenReauthorizationReason → TokenVaultResolution
reauthorize reason = record {
  token = none;
  refreshed = false;
  reauthorization_reason = some reason;
}

-- `_needs_refresh`, `skew` being `refresh_skew_seconds`
unfoldable pub token_needs_refresh : ℕ → Instant → Option Instant → Bool
token_needs_refresh skew now none = false
token_needs_refresh skew now (some t) = leb t (now + seconds skew)

module _ (cipher : Cipher) (skew : ℕ) where
  unfoldable pub encrypt_text : ℕ → Text → Result Text
  encrypt_text seed value = bind (non_empty_string value) λ v. ok (cipher.encrypt seed v)

  abbrev decrypted : Option Text → Result Text
  decrypted none = err vault_error
  decrypted (some s) = ok s

  unfoldable pub decrypt_text : Text → Result Text
  decrypt_text ciphertext = bind (non_empty_string ciphertext) λ c. decrypted (cipher.decrypt c)

  abbrev pub encrypt_optional : ℕ → Option Text → Result (Option Text)
  encrypt_optional seed none = ok none
  encrypt_optional seed (some value) = bind (encrypt_text seed value) λ c. ok (some c)

  abbrev pub decrypt_optional : Option Text → Result (Option Text)
  decrypt_optional none = ok none
  decrypt_optional (some ciphertext) = bind (decrypt_text ciphertext) λ s. ok (some s)

  -- `_decrypt_record`
  unfoldable pub decrypt_record : Instant → TokenRecord → Result UserToken
  decrypt_record now r = bind (decrypt_text r.access_token_ciphertext) λ access.
      bind (decrypt_optional r.refresh_token_ciphertext) λ refresh. ok (record {
        principal_id = r.principal_id;
        service = r.service;
        user_access_token = access;
        refresh_token = refresh;
        scopes = r.scopes;
        expires_at = r.expires_at;
        needs_refresh = token_needs_refresh skew now r.expires_at;
        created_at = r.created_at;
        updated_at = r.updated_at;
      })

  abbrev pub decrypt_found : Instant → Option TokenRecord → Result (Option UserToken)
  decrypt_found now none = ok none
  decrypt_found now (some r) = bind (decrypt_record now r) λ t. ok (some t)

  -- `TokenVault.get`
  unfoldable pub get_user_token : Instant → Text → Text → Action Db (Option UserToken)
  get_user_token now principal service = do
    found ← get_token principal service
    lift (decrypt_found now found)

  -- The record that `put` writes; the seeds are the randomness of its two encryptions.
  unfoldable pub token_record :
      ℕ × ℕ → Text → Text → Text → Option Text → List Text → Option Instant → Result TokenRecord
  token_record seeds principal service access refresh scopes expires_at =
      bind (non_empty_string principal) λ p. bind (non_empty_string service) λ s.
        bind (encrypt_text seeds.0 access) λ a. bind (encrypt_optional seeds.1 refresh) λ r.
          bind (normalize_scopes scopes) λ normal. ok (record {
            principal_id = p;
            service = s;
            access_token_ciphertext = a;
            refresh_token_ciphertext = r;
            scopes = normal;
            expires_at = expires_at;
            created_at = none;
            updated_at = none;
          })

  unfoldable pub put_user_token :
      ℕ × ℕ
      → Instant
      → Text
      → Text
      → Text
      → Option Text
      → List Text
      → Option Instant
      → Action Db UserToken
  put_user_token seeds now principal service access refresh scopes expires_at = do
    r ← lift (token_record seeds principal service access refresh scopes expires_at)
    stored ← upsert_token now r
    lift (decrypt_record now stored)

  abbrev pub revoke : Text → Text → Action Db Bool
  revoke principal service = delete_token principal service

  abbrev pub revoke_for : TokenReauthorizationReason → UserToken → Action Db TokenVaultResolution
  revoke_for reason t = do _ ← revoke t.principal_id t.service; pure (reauthorize reason)

  -- What `get_valid` does with what the refresh did.
  unfoldable pub after_refresh :
      ℕ × ℕ → Instant → UserToken → RefreshOutcome → Action Db TokenVaultResolution
  after_refresh seeds now t rejected = revoke_for refresh_rejected t
  after_refresh seeds now t (failed e) = raise e
  after_refresh seeds now t (returned new) = do
    stored ←
        put_user_token seeds now t.principal_id t.service new.access_token (some new.refresh_token)
          t.scopes (some new.expires_at)
    pure (record { token = some stored; refreshed = true; reauthorization_reason = none })

  abbrev pub refresh_with :
      ℕ × ℕ
      → Instant
      → (Text → RefreshOutcome)
      → UserToken
      → Option Text
      → Action Db TokenVaultResolution
  refresh_with seeds now refresh t none = revoke_for missing_refresh_token t
  refresh_with seeds now refresh t (some r) = after_refresh seeds now t (refresh r)

  abbrev pub valid_token :
      ℕ × ℕ → Instant → (Text → RefreshOutcome) → Option UserToken → Action Db TokenVaultResolution
  valid_token seeds now refresh none = pure (reauthorize missing)
  valid_token seeds now refresh (some t) =
      if t.needs_refresh
      then refresh_with seeds now refresh t t.refresh_token
      else pure (record { token = some t; refreshed = false; reauthorization_reason = none })

  -- `TokenVault.get_valid`
  unfoldable pub get_valid :
      ℕ × ℕ → Instant → (Text → RefreshOutcome) → Text → Text → Action Db TokenVaultResolution
  get_valid seeds now refresh principal service = do
    t ← get_user_token now principal service
    valid_token seeds now refresh t
