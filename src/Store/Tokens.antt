-- ===== src/Store/Tokens.antt =====
-- The table `token_vault`.
pub mod Writes
use im_assistant.Prelude.{
  Bool, ◌&&◌, Option, some, List, [], ◌∷◌, ◌++◌, Text, ◌==◌, Result, ok, bind, Action, pure, lift,
  gets, modify, ◌>>=◌, ◌>>◌, non_empty_string, optional_string, find, delete, update, count, exists,
  or_default, ltb, if◌then◌else◌,
}
use im_assistant.Instant.{Instant}
use im_assistant.Store.Records.{TokenRecord, Db}
use im_assistant.Store.Sessions.{expect}
use im_assistant.Store.Auths.{normalize_scopes}

-- the PRIMARY KEY (principal_id, service)
abbrev pub is_token : Text → Text → TokenRecord → Bool
is_token principal service r = r.principal_id == principal && r.service == service

abbrev pub overwrite_token : TokenRecord → TokenRecord → TokenRecord
overwrite_token new r = record new {
  principal_id = r.principal_id;
  service = r.service;
  created_at = r.created_at;
}

unfoldable pub put_token : TokenRecord → List TokenRecord → List TokenRecord
put_token new rows =
    if exists (is_token new.principal_id new.service) rows
    then update (is_token new.principal_id new.service) (overwrite_token new) rows
    else rows ++ new ∷ []

unfoldable pub get_token : Text → Text → Action Db (Option TokenRecord)
get_token principal_id service = do
  p ← lift (non_empty_string principal_id)
  s ← lift (non_empty_string service)
  gets λ db. find (is_token p s) db.tokens

unfoldable pub token_row : Instant → TokenRecord → Result TokenRecord
token_row now r = bind (non_empty_string r.principal_id) λ principal_id.
    bind (non_empty_string r.service) λ service.
      bind (non_empty_string r.access_token_ciphertext) λ access.
        bind (normalize_scopes r.scopes) λ scopes. ok (record r {
          principal_id = principal_id;
          service = service;
          access_token_ciphertext = access;
          refresh_token_ciphertext = optional_string r.refresh_token_ciphertext;
          scopes = scopes;
          created_at = some (or_default r.created_at now);
          updated_at = some now;
        })

unfoldable pub upsert_token : Instant → TokenRecord → Action Db TokenRecord
upsert_token now r = do
  row ← lift (token_row now r)
  modify λ db. record db { tokens = put_token row db.tokens }
  stored ← get_token r.principal_id r.service
  expect stored

unfoldable pub delete_token : Text → Text → Action Db Bool
delete_token principal_id service = do
  p ← lift (non_empty_string principal_id)
  s ← lift (non_empty_string service)
  n ← gets λ db. count (is_token p s) db.tokens
  modify λ db. record db { tokens = delete (is_token p s) db.tokens }
  pure (ltb 0 n)
