-- ===== src/Oauth/Tests.antt =====
-- A nonce that is created and consumed, and the theorems at those calls.
use im_assistant.Prelude.{
  ◌+◌, ◌≡◌, ◌<◌, refl, none, [], ◌∷◌, codes, ok, err, auth_not_found, auth_expired, value_error,
  is_space, lstrip, rcons, rstrip, strip, ◌==◌, non_empty_string, non_empty_strings, find, delete,
  count, exists, arith,
}
use im_assistant.Instant.{seconds}
use im_assistant.Store.Records.{Db}
use im_assistant.Store.Auths.{
  from_keys, normalize_scopes, auth_row, get_pending_auth, create_pending_auth,
  consume_pending_auth, delete_pending_auth,
}
use im_assistant.Oauth.{
  PendingAuth, actor_from_principal, pending_auth, pending_from_record, insert_pending,
  create_pending, get_pending, consume_pending, discard_pending,
}
use im_assistant.Oauth.SingleUse.{consume_pending_once, consume_pending-create}
use im_assistant.Samples.{noon, with_s1}

program : Unit {0}
unfolding is_space lstrip rcons rstrip strip ◌==◌ non_empty_string non_empty_strings find delete
    count exists from_keys normalize_scopes auth_row get_pending_auth create_pending_auth
    consume_pending_auth delete_pending_auth actor_from_principal pending_auth pending_from_record
    insert_pending create_pending get_pending consume_pending discard_pending
program = tt

actors :
    (actor_from_principal (codes "user:u1 ") ≡ ok (codes "u1"))
    × (actor_from_principal (codes "user:") ≡ ok (codes "user:"))
    × (actor_from_principal (codes "group:o1") ≡ ok (codes "group:o1"))
unfolding program
actors = (refl, refl, refl)

abbrev asked : PendingAuth
asked = record {
  nonce = codes "n1";
  principal_id = codes "user:u1";
  actor_id = codes "u1";
  session_id = codes "s1";
  service = codes "doc";
  scopes = codes "read" ∷ [];
  expires_at = noon + seconds 600;
}

abbrev with_nonce : Db
with_nonce =
    (create_pending 600 noon (codes "n1 ") (codes "user:u1") none (codes "s1") (codes "doc")
      (codes "read" ∷ codes "read " ∷ []) none with_s1).1

asked_made :
    create_pending 600 noon
      (codes "n1 ")
      (codes "user:u1")
      none
      (codes "s1")
      (codes "doc")
      (codes "read" ∷ codes "read " ∷ [])
      none
      with_s1
    ≡ (ok asked, with_nonce)
unfolding program
asked_made = refl

-- A live nonce is not created again; a late answer is refused, and takes the nonce with it.
asked_refused :
    (create_pending 600
        (noon + 1)
        (codes "n1")
        (codes "user:u1")
        none
        (codes "s1")
        (codes "doc")
        []
        none
        with_nonce
      ≡ (err value_error, with_nonce))
    × (consume_pending (noon + seconds 600) (codes "n1") with_nonce ≡ (err auth_expired, with_s1))
unfolding program
asked_refused = (refl, refl)

consume_pending-create_example : (consume_pending (noon + 1) (codes "n1 ") with_nonce).0 ≡ ok asked
consume_pending-create_example =
    consume_pending-create 600 noon (noon + 1) (codes "n1 ") (codes "user:u1") none (codes "s1")
      (codes "doc") (codes "read" ∷ codes "read " ∷ []) none asked with_s1 with_nonce asked_made
      in_time
  where
    in_time : noon + 1 < noon + seconds 600
    in_time = omega arith

n1_id : non_empty_string (codes "n1 ") ≡ ok (codes "n1")
unfolding program
n1_id = refl

consume_pending_once_example :
    let db' = (consume_pending (noon + 1) (codes "n1 ") with_nonce).1 in
    (consume_pending (noon + 2) (codes "n1 ") db' ≡ (err auth_not_found, db'))
    × (get_pending (noon + 2) (codes "n1 ") db' ≡ (ok none, db'))
consume_pending_once_example =
    consume_pending_once (noon + 1) (noon + 2) (codes "n1 ") (codes "n1") with_nonce n1_id
