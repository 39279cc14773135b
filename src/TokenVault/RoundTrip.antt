-- ===== src/TokenVault/RoundTrip.antt =====
-- What `put` stores, `get` decrypts.
use im_assistant.Prelude.{
  ℕ, ◌≡◌, refl, ap, ◌∙◌, Option, none, some, List, Text, Result, ok, bind, non_empty_string,
  non_empty_string-fixed, optional_string, find, arith,
}
use im_assistant.Instant.{Instant}
use im_assistant.Store.Records.{TokenRecord, Db}
use im_assistant.Store.Auths.{normalize_scopes}
use im_assistant.Store.Auths.Scopes.{normalize_scopes-fixed}
use im_assistant.Store.Tokens.{is_token, put_token, get_token, token_row, upsert_token}
use im_assistant.Store.Tokens.Writes.{
  stored_token, stored_token-fields, find-put_token, upsert_token_stores,
}
use im_assistant.TokenVault.{
  Cipher, IsFernet, UserToken, token_needs_refresh, encrypt_text, decrypt_text, encrypt_optional,
  decrypt_optional, decrypt_record, get_user_token, token_record, put_user_token,
}

optional_string-normal : (v : Text) → non_empty_string v ≡ ok v → optional_string (some v) ≡ some v
unfolding optional_string non_empty_string
optional_string-normal v h = ground arith

-- The refresh token that is kept: none, or the text stripped.
abbrev pub stripped_optional : Option Text → Result (Option Text)
stripped_optional none = ok none
stripped_optional (some v) = bind (non_empty_string v) λ s. ok (some s)

abbrev pub ciphertext_of : Cipher → ℕ → Option Text → Option Text
ciphertext_of c seed none = none
ciphertext_of c seed (some v) = some (c.encrypt seed v)

-- The token of a record that was written at `now`, read at `at`; `t` is its `created_at`.
abbrev pub token_at :
    ℕ
    → Instant
    → Text
    → Text
    → Text
    → Option Text
    → List Text
    → Option Instant
    → Option Instant
    → Instant
    → UserToken
token_at skew now p s a kept normal expires_at t at = record {
  principal_id = p;
  service = s;
  user_access_token = a;
  refresh_token = kept;
  scopes = normal;
  expires_at = expires_at;
  needs_refresh = token_needs_refresh skew at expires_at;
  created_at = t;
  updated_at = some now;
}

module _ (c : Cipher) (skew : ℕ) (fernet : IsFernet c) where
  encrypt_optional-stripped :
      (seed : ℕ) (o kept : Option Text)
      → stripped_optional o ≡ ok kept
      → encrypt_optional c skew seed o ≡ ok (ciphertext_of c seed kept)
  unfolding encrypt_text
  encrypt_optional-stripped seed none kept h = ground arith
  encrypt_optional-stripped seed (some v) kept h = ground arith

  decrypt_ciphertext : (seed : ℕ) (v : Text) → decrypt_text c skew (c.encrypt seed v) ≡ ok v
  unfolding decrypt_text
  decrypt_ciphertext seed v = rw (fernet.plain seed v, fernet.decrypts seed v) refl

  decrypt_optional-ciphertext :
      (seed : ℕ) (kept : Option Text)
      → decrypt_optional c skew (ciphertext_of c seed kept) ≡ ok kept
  decrypt_optional-ciphertext seed none = refl
  decrypt_optional-ciphertext seed (some v) = rw (decrypt_ciphertext seed v) refl

  optional_ciphertext :
      (seed : ℕ) (kept : Option Text)
      → optional_string (ciphertext_of c seed kept) ≡ ciphertext_of c seed kept
  unfolding optional_string
  optional_ciphertext seed none = refl
  optional_ciphertext seed (some v) =
      optional_string-normal (c.encrypt seed v) (fernet.plain seed v)

  module _ (seeds : ℕ × ℕ) (now : Instant) (p s a : Text) (kept : Option Text) (normal : List Text)
      (expires_at : Option Instant) (hp : non_empty_string p ≡ ok p)
      (hs : non_empty_string s ≡ ok s) (hn : normalize_scopes normal ≡ ok normal) where
    abbrev row : TokenRecord
    row = record {
      principal_id = p;
      service = s;
      access_token_ciphertext = c.encrypt seeds.0 a;
      refresh_token_ciphertext = ciphertext_of c seeds.1 kept;
      scopes = normal;
      expires_at = expires_at;
      created_at = some now;
      updated_at = some now;
    }

    abbrev written : TokenRecord
    written = record row { created_at = none; updated_at = none }

    written_row : token_row now written ≡ ok row
    unfolding token_row
    written_row = rw (hp, hs, fernet.plain seeds.0 a, hn, optional_ciphertext seeds.1 kept) refl

    decrypt_row :
        (at : Instant) (r : TokenRecord)
        → record r { created_at = some now } ≡ row
        → decrypt_record c skew at r
          ≡ ok (token_at skew now p s a kept normal expires_at r.created_at at)
    unfolding decrypt_record
    decrypt_row at r h =
        ap (decrypt_record c skew at) (same_record r h)
        ∙ rw (decrypt_ciphertext seeds.0 a, decrypt_optional-ciphertext seeds.1 kept) refl
      where
        same_record :
            (r : TokenRecord)
            → record r { created_at = some now } ≡ row
            → r ≡ record row { created_at = r.created_at }
        same_record r h = ap (λ (x : TokenRecord). record x { created_at = r.created_at }) h

    put_stores :
        (db : Db)
        → upsert_token now written db
          ≡ (ok (stored_token row db.tokens), record db { tokens = put_token row db.tokens })
    put_stores db = upsert_token_stores now written row db written_row

    decrypt_stored :
        (at : Instant) (db : Db)
        → decrypt_record c skew at (stored_token row db.tokens)
          ≡ ok (
              token_at skew now p s a kept normal expires_at
                (stored_token row db.tokens).created_at
                at)
    decrypt_stored at db =
        decrypt_row at (stored_token row db.tokens) (stored_token-fields row db.tokens)

    find_stored :
        (db : Db)
        → find (is_token p s) (put_token row db.tokens) ≡ some (stored_token row db.tokens)
    find_stored db = find-put_token row db.tokens

-- Under the laws of Fernet, `put` on valid arguments returns the token with its texts stripped and
-- its scopes in normal form, and from then on `get` for that principal and service returns it, with
-- `needs_refresh` as of the time of the call, and changes nothing.
pub put_user_token-get :
    (c : Cipher) (skew : ℕ) (seeds : ℕ × ℕ) (now at : Instant) (principal service access : Text)
    (refresh : Option Text) (scopes : List Text) (expires_at : Option Instant) (p s a : Text)
    (kept : Option Text) (normal : List Text) (db : Db)
    → IsFernet c
    → non_empty_string principal ≡ ok p
    → non_empty_string service ≡ ok s
    → non_empty_string access ≡ ok a
    → stripped_optional refresh ≡ ok kept
    → normalize_scopes scopes ≡ ok normal
    → (t : Option Instant) × (db' : Db) × (put_user_token c skew seeds now principal service access
          refresh scopes expires_at db
        ≡ (ok (token_at skew now p s a kept normal expires_at t now), db'))
      × (get_user_token c skew at principal service db'
          ≡ (ok (some (token_at skew now p s a kept normal expires_at t at)), db'))
unfolding put_user_token get_user_token token_record encrypt_text get_token
put_user_token-get c skew seeds now at principal service access refresh scopes expires_at p s a kept
      normal db fernet hp hs ha hr hn =
    let fp = non_empty_string-fixed principal p hp in
    let fs = non_empty_string-fixed service s hs in
    let fn = normalize_scopes-fixed scopes normal hn in
    let new = row c skew fernet seeds now p s a kept normal expires_at fp fs fn in
    let mid = stored_token new db.tokens in
    (
      mid.created_at,
      record db { tokens = put_token new db.tokens },
      rw
          (
            hp,
            hs,
            ha,
            encrypt_optional-stripped c skew fernet seeds.1 refresh kept hr,
            hn,
            put_stores c skew fernet seeds now p s a kept normal expires_at fp fs fn db,
            decrypt_stored c skew fernet seeds now p s a kept normal expires_at fp fs fn now db,
          )
          refl,
      rw
          (
            hp,
            hs,
            find_stored c skew fernet seeds now p s a kept normal expires_at fp fs fn db,
            decrypt_stored c skew fernet seeds now p s a kept normal expires_at fp fs fn at db,
          )
          refl,
    )
