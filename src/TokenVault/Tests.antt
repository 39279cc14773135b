-- ===== src/TokenVault/Tests.antt =====
-- A cipher that meets the laws, runs of the vault under it, and the theorems at those runs.
use im_assistant.Prelude.{
  ◌+◌, ◌≡◌, refl, ap, false, Option, none, some, List, [], ◌∷◌, ◌++◌, Text, codes, ok, err,
  other_error, is_space, lstrip, rcons, rstrip, strip, ◌==◌, non_empty_string, non_empty_strings,
  optional_string, find, delete, update, count, exists,
}
use im_assistant.Instant.{Instant, seconds}
use im_assistant.Store.Records.{Db}
use im_assistant.Store.Auths.{from_keys, normalize_scopes}
use im_assistant.Store.Tokens.{get_token, put_token, token_row, upsert_token, delete_token}
use im_assistant.TokenVault.{
  Cipher, IsFernet, UserToken, rejected, failed, refresh_rejected, TokenVaultResolution,
  reauthorize, token_needs_refresh, encrypt_text, decrypt_text, decrypt_record, get_user_token,
  token_record, put_user_token, after_refresh, get_valid,
}
use im_assistant.TokenVault.RoundTrip.{token_at, put_user_token-get}
use im_assistant.TokenVault.Valid.{get_valid_reauthorization}
use im_assistant.Samples.{no_rows, noon}

-- A text between two letters, in place of an encryption.
abbrev all_but_last : Text → Text
all_but_last [] = []
all_but_last (c ∷ []) = []
all_but_last (c ∷ d ∷ s) = c ∷ all_but_last (d ∷ s)

abbrev unwrap : Text → Option Text
unwrap [] = none
unwrap (c ∷ s) = some (all_but_last s)

abbrev wrapping : Cipher
wrapping = record { encrypt = λ seed s. b'<' ∷ (s ++ b'>' ∷ []); decrypt = unwrap }

all_but_last-append : (s : Text) → all_but_last (s ++ b'>' ∷ []) ≡ s
all_but_last-append [] = refl
all_but_last-append (c ∷ []) = refl
all_but_last-append (c ∷ d ∷ s) = ap (◌∷◌ c) (all_but_last-append (d ∷ s))

rstrip-wrapped : (s : Text) → rstrip (s ++ b'>' ∷ []) ≡ s ++ b'>' ∷ []
unfolding rstrip rcons is_space
rstrip-wrapped [] = refl
rstrip-wrapped (c ∷ []) = refl
rstrip-wrapped (c ∷ d ∷ s) = ap (rcons c) (rstrip-wrapped (d ∷ s))

wrapping-IsFernet : IsFernet wrapping
unfolding non_empty_string strip lstrip is_space
wrapping-IsFernet = record {
  decrypts = λ seed s. ap some (all_but_last-append s);
  plain = λ seed s. rw (rstrip-wrapped (b'<' ∷ s)) refl;
}

program : Unit {0}
unfolding is_space lstrip rcons rstrip strip ◌==◌ non_empty_string non_empty_strings optional_string
    find delete update count exists from_keys normalize_scopes get_token put_token token_row
    upsert_token delete_token token_needs_refresh encrypt_text decrypt_text decrypt_record
    get_user_token token_record put_user_token after_refresh get_valid
program = tt

abbrev scopes : List Text
scopes = codes "read " ∷ codes "write" ∷ codes "read" ∷ []

normalize_scopes-read : normalize_scopes scopes ≡ ok (codes "read" ∷ codes "write" ∷ [])
unfolding program
normalize_scopes-read = refl

u1_id : non_empty_string (codes "u1 ") ≡ ok (codes "u1")
unfolding program
u1_id = refl

doc_id : non_empty_string (codes "doc") ≡ ok (codes "doc")
unfolding program
doc_id = refl

secret_stripped : non_empty_string (codes "secret") ≡ ok (codes "secret")
unfolding program
secret_stripped = refl

put_user_token-get_example :
    (t : Option Instant) × (db' : Db) × (put_user_token wrapping 300
        (1, 2)
        noon
        (codes "u1 ")
        (codes "doc")
        (codes "secret")
        none
        scopes
        (some (noon + seconds 7200))
        no_rows
      ≡ (
        ok (
            token_at 300 noon
              (codes "u1")
              (codes "doc")
              (codes "secret")
              none
              (codes "read" ∷ codes "write" ∷ [])
              (some (noon + seconds 7200))
              t
              noon),
        db',
      ))
    × (get_user_token wrapping 300 (noon + 5) (codes "u1 ") (codes "doc") db' ≡ (
      ok (
          some (
            token_at 300 noon
              (codes "u1")
              (codes "doc")
              (codes "secret")
              none
              (codes "read" ∷ codes "write" ∷ [])
              (some (noon + seconds 7200))
              t
              (noon + 5))),
      db',
    ))
put_user_token-get_example =
    put_user_token-get wrapping 300 (1, 2) noon (noon + 5) (codes "u1 ") (codes "doc")
      (codes "secret") none scopes (some (noon + seconds 7200)) (codes "u1") (codes "doc")
      (codes "secret") none (codes "read" ∷ codes "write" ∷ []) no_rows wrapping-IsFernet u1_id
      doc_id secret_stripped refl normalize_scopes-read

abbrev with_token : Db
with_token =
    (put_user_token wrapping 300 (1, 2) noon (codes "u1") (codes "doc") (codes "secret")
      (some (codes "again")) scopes (some (noon + seconds 7200)) no_rows).1

abbrev granted : UserToken
granted =
    token_at 300 noon (codes "u1") (codes "doc") (codes "secret") (some (codes "again"))
      (codes "read" ∷ codes "write" ∷ []) (some (noon + seconds 7200)) (some noon) (noon + 1)

abbrev fresh_resolution : TokenVaultResolution
fresh_resolution = record { token = some granted; refreshed = false; reauthorization_reason = none }

granted_valid :
    get_valid wrapping 300 (3, 4) (noon + 1) (λ _. rejected) (codes "u1") (codes "doc") with_token
    ≡ (ok fresh_resolution, with_token)
unfolding program
granted_valid = refl

abbrev late : Instant
late = noon + seconds 7000

abbrev without_token : Db
without_token =
    (get_valid wrapping 300 (3, 4) late (λ _. rejected) (codes "u1") (codes "doc") with_token).1

refresh_refused :
    get_valid wrapping 300 (3, 4) late (λ _. rejected) (codes "u1") (codes "doc") with_token
    ≡ (ok (reauthorize refresh_rejected), without_token)
unfolding program
refresh_refused = refl

get_valid_reauthorization_example :
    get_user_token wrapping 300 late (codes "u1") (codes "doc") without_token
    ≡ (ok none, without_token)
get_valid_reauthorization_example =
    get_valid_reauthorization wrapping 300 (3, 4) late late (λ _. rejected) (codes "u1")
      (codes "doc") refresh_rejected (reauthorize refresh_rejected) with_token without_token
      refresh_refused refl

-- Another failure of the refresh leaves the token where it is.
refresh_failed :
    get_valid wrapping 300
      (3, 4)
      late
      (λ _. failed other_error)
      (codes "u1")
      (codes "doc")
      with_token
    ≡ (err other_error, with_token)
unfolding program
refresh_failed = refl
