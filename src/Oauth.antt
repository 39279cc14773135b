-- ===== src/Oauth.antt =====
-- The single-use nonces of the OAuth flow (src/infra/oauth.py): SQLitePendingAuthStore. The time to
-- live is a positive number of seconds.
pub mod SingleUse
mod Tests
use im_assistant.Prelude.{
  ℕ, ◌+◌, Bool, true, false, not, ◌&&◌, Option, none, some, List, [], ◌∷◌, Text, codes, eqb,
  is_empty, Result, ok, err, bind, value_error, auth_not_found, auth_expired, Action, lift, pure,
  raise, raise_if, ◌>>=◌, ◌>>◌, non_empty_string, or_default, leb, if◌then◌else◌,
}
use im_assistant.Instant.{Instant, seconds}
use im_assistant.Store.Records.{AuthRecord, Db}
use im_assistant.Store.Auths.{
  normalize_scopes, get_pending_auth, create_pending_auth, consume_pending_auth,
  delete_pending_auth,
}

pub record PendingAuth : Type 0 where
  pub nonce : Text
  pub principal_id : Text
  pub actor_id : Text
  pub session_id : Text
  pub service : Text
  pub scopes : List Text
  pub expires_at : Instant

-- `s.removeprefix(p)`, where `p` is a prefix of `s`
abbrev pub without_prefix : Text → Text → Option Text
without_prefix [] s = some s
without_prefix (c ∷ p) [] = none
without_prefix (c ∷ p) (d ∷ s) = if eqb c d then without_prefix p s else none

abbrev user_part : Text → Option Text → Text
user_part principal none = principal
user_part principal (some rest) = if is_empty rest then principal else rest

-- `_actor_from_principal`
unfoldable pub actor_from_principal : Text → Result Text
actor_from_principal principal =
    bind (non_empty_string principal) λ p. ok (user_part p (without_prefix (codes "user:") p))

abbrev pub actor_or_principal : Option Text → Text → Result Text
actor_or_principal none principal = actor_from_principal principal
actor_or_principal (some actor) principal = non_empty_string actor

-- `_pending_auth`
unfoldable pub pending_auth :
    Text → Text → Option Text → Text → Text → List Text → Instant → Result PendingAuth
pending_auth nonce principal actor session service scopes expires_at =
    bind (non_empty_string principal) λ p. bind (non_empty_string nonce) λ n.
      bind (actor_or_principal actor p) λ a. bind (non_empty_string session) λ s.
        bind (non_empty_string service) λ v. bind (normalize_scopes scopes) λ normal. ok (record {
          nonce = n;
          principal_id = p;
          actor_id = a;
          session_id = s;
          service = v;
          scopes = normal;
          expires_at = expires_at;
        })

-- `_pending_from_record`
unfoldable pub pending_from_record : AuthRecord → PendingAuth
pending_from_record r = record {
  nonce = r.nonce;
  principal_id = r.principal_id;
  actor_id = r.actor_id;
  session_id = r.session_id;
  service = r.service;
  scopes = r.scopes;
  expires_at = r.expires_at;
}

-- `_is_expired`
abbrev pub is_expired : PendingAuth → Instant → Bool
is_expired p now = leb p.expires_at now

abbrev pub auth_record : PendingAuth → AuthRecord
auth_record p = record {
  nonce = p.nonce;
  principal_id = p.principal_id;
  actor_id = p.actor_id;
  session_id = p.session_id;
  service = p.service;
  scopes = p.scopes;
  expires_at = p.expires_at;
  created_at = none;
}

-- An expired row of the same nonce is deleted, a live one is refused.
abbrev pub make_room : Instant → Option AuthRecord → Action Db (Unit {0})
make_room now none = pure tt
make_room now (some r) =
    if is_expired (pending_from_record r) now
    then (do _ ← delete_pending_auth r.nonce; pure tt)
    else raise value_error

-- The writes of `create`.
unfoldable pub insert_pending : Instant → PendingAuth → Action Db PendingAuth
insert_pending now p = do
  raise_if (leb p.expires_at now) value_error
  existing ← get_pending_auth p.nonce
  make_room now existing
  stored ← create_pending_auth now (auth_record p)
  pure (pending_from_record stored)

unfoldable pub create_pending :
    ℕ
    → Instant
    → Text
    → Text
    → Option Text
    → Text
    → Text
    → List Text
    → Option Instant
    → Action Db PendingAuth
create_pending ttl now nonce principal actor session service scopes expires_at = do
  p ← lift (
      pending_auth nonce principal actor session service scopes
        (or_default expires_at (now + seconds ttl)))
  insert_pending now p

abbrev live_or_delete : Instant → Text → Option AuthRecord → Action Db (Option PendingAuth)
live_or_delete now nonce none = pure none
live_or_delete now nonce (some r) =
    if is_expired (pending_from_record r) now
    then (do _ ← delete_pending_auth nonce; pure none)
    else pure (some (pending_from_record r))

-- `get`
unfoldable pub get_pending : Instant → Text → Action Db (Option PendingAuth)
get_pending now nonce = do
  n ← lift (non_empty_string nonce)
  found ← get_pending_auth n
  live_or_delete now n found

abbrev pub accepted : Instant → Option AuthRecord → Result PendingAuth
accepted now none = err auth_not_found
accepted now (some r) =
    if is_expired (pending_from_record r) now then err auth_expired else ok (pending_from_record r)

-- `consume`
unfoldable pub consume_pending : Instant → Text → Action Db PendingAuth
consume_pending now nonce = do
  n ← lift (non_empty_string nonce)
  row ← consume_pending_auth n
  lift (accepted now row)

-- `discard`
unfoldable pub discard_pending : Text → Action Db Bool
discard_pending nonce = do n ← lift (non_empty_string nonce); delete_pending_auth n
