-- ===== src/Store/Auths.antt =====
-- The table `pending_auths`, and the normal form of a list of scopes.
pub mod Scopes
use im_assistant.Prelude.{
  Bool, not, Option, none, some, List, [], ◌∷◌, ◌++◌, Text, ◌==◌, Result, ok, bind, Action,
  integrity_error, pure, lift, gets, modify, raise_if, ◌>>=◌, ◌>>◌, non_empty_string,
  non_empty_strings, find, delete, count, exists, or_default, ltb,
}
use im_assistant.Instant.{Instant}
use im_assistant.Store.Records.{AuthRecord, Db}
use im_assistant.Store.Sessions.{has_session_id, expect}

-- `list(dict.fromkeys(values))`: the first occurrence of each, `seen` being those before.
unfoldable pub from_keys : List Text → List Text → List Text
from_keys seen [] = []
from_keys seen (v ∷ vs) =
    let old = from_keys seen vs in
    let new = from_keys (v ∷ seen) vs in
    elim (exists (λ s. s == v) seen) [ Bool.true ↦ old | Bool.false ↦ v ∷ new ]

unfoldable pub normalize_scopes : List Text → Result (List Text)
normalize_scopes scopes = bind (non_empty_strings scopes) λ s. ok (from_keys [] s)

abbrev pub has_nonce : Text → AuthRecord → Bool
has_nonce key r = r.nonce == key

unfoldable pub get_pending_auth : Text → Action Db (Option AuthRecord)
get_pending_auth nonce = do
  key ← lift (non_empty_string nonce)
  gets λ db. find (has_nonce key) db.auths

unfoldable pub auth_row : Instant → AuthRecord → Result AuthRecord
auth_row now r = bind (non_empty_string r.nonce) λ nonce.
    bind (non_empty_string r.principal_id) λ principal_id.
      bind (non_empty_string r.actor_id) λ actor_id.
        bind (non_empty_string r.session_id) λ session_id.
          bind (non_empty_string r.service) λ service. bind (normalize_scopes r.scopes) λ scopes.
            ok (record r {
              nonce = nonce;
              principal_id = principal_id;
              actor_id = actor_id;
              session_id = session_id;
              service = service;
              scopes = scopes;
              created_at = some (or_default r.created_at now);
            })

unfoldable pub create_pending_auth : Instant → AuthRecord → Action Db AuthRecord
create_pending_auth now r = do
  row ← lift (auth_row now r)
  raise_if (← gets λ db. exists (has_nonce row.nonce) db.auths) integrity_error
  raise_if (not (← gets λ db. exists (has_session_id row.session_id) db.sessions)) integrity_error
  modify λ db. record db { auths = db.auths ++ row ∷ [] }
  stored ← get_pending_auth r.nonce
  expect stored

-- One transaction: the row is read and deleted.
unfoldable pub consume_pending_auth : Text → Action Db (Option AuthRecord)
consume_pending_auth nonce = do
  key ← lift (non_empty_string nonce)
  row ← gets λ db. find (has_nonce key) db.auths
  modify
      λ db. elim row [ none ↦ db | some _ ↦ record db { auths = delete (has_nonce key) db.auths } ]
  pure row

unfoldable pub delete_pending_auth : Text → Action Db Bool
delete_pending_auth nonce = do
  key ← lift (non_empty_string nonce)
  n ← gets λ db. count (has_nonce key) db.auths
  modify λ db. record db { auths = delete (has_nonce key) db.auths }
  pure (ltb 0 n)
