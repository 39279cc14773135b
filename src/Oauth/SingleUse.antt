-- ===== src/Oauth/SingleUse.antt =====
-- A nonce is consumed once.
use im_assistant.Prelude.{
  ℕ, ◌+◌, ◌≡◌, ◌<◌, refl, sym, ap, ◌∙◌, subst, false, not, Option, none, some, List, [], ◌∷◌, ◌++◌,
  Text, ok, err, ok-injective, auth_not_found, non_empty_string, non_empty_string-fixed, find,
  exists, or_default, Option-cases, inl, inr, continue-eq-ok, continue-lift-ok, returned-eq,
  bind-eq-ok, arith, leb, raise_if, integrity_error, value_error,
}
use im_assistant.Prelude.Table.Reads.{find-delete}
use im_assistant.Instant.{Instant, seconds}
use im_assistant.Store.Records.{AuthRecord, Db}
use im_assistant.Store.Sessions.{expect, has_session_id}
use im_assistant.Store.Auths.{
  has_nonce, normalize_scopes, auth_row, get_pending_auth, create_pending_auth,
  consume_pending_auth,
}
use im_assistant.Oauth.{
  PendingAuth, pending_auth, pending_from_record, is_expired, auth_record, make_room,
  insert_pending, create_pending, get_pending, consume_pending, actor_or_principal,
}

-- The row of a nonce is gone once the nonce has been consumed.
consumed :
    (now : Instant) (nonce key : Text) (db : Db)
    → non_empty_string nonce ≡ ok key
    → find (has_nonce key) (consume_pending now nonce db).1.auths ≡ none
unfolding consume_pending consume_pending_auth
consumed now nonce key db h = elim (Option-cases (find (has_nonce key) db.auths)) [
  | inl e ↦ rw (consume_pending, h, non_empty_string-fixed nonce key h, e) e
  | inr (r, e) ↦
      rw (consume_pending, h, non_empty_string-fixed nonce key h, e)
        (find-delete (has_nonce key) (has_nonce key) db.auths (λ x p. p))
]

absent_refused :
    (now : Instant) (nonce key : Text) (db : Db)
    → non_empty_string nonce ≡ ok key
    → find (has_nonce key) db.auths ≡ none
    → (consume_pending now nonce db ≡ (err auth_not_found, db))
      × (get_pending now nonce db ≡ (ok none, db))
unfolding get_pending get_pending_auth consume_pending consume_pending_auth
absent_refused now nonce key db h e =
    let fixed = non_empty_string-fixed nonce key h in (rw (h, fixed, e) refl, rw (h, fixed, e) refl)

-- After a `consume` of a nonce that is not blank, whatever it did, a second one of the same nonce
-- raises PendingAuthNotFound and changes nothing, and `get` returns none and changes nothing, at
-- whatever time.
pub consume_pending_once :
    (now now' : Instant) (nonce key : Text) (db : Db)
    → non_empty_string nonce ≡ ok key
    → let db' = (consume_pending now nonce db).1 in
      (consume_pending now' nonce db' ≡ (err auth_not_found, db'))
      × (get_pending now' nonce db' ≡ (ok none, db'))
consume_pending_once now now' nonce key db h =
    absent_refused now' nonce key (consume_pending now nonce db).1 h (consumed now nonce key db h)

expect-ok :
    (o : Option AuthRecord) (t : AuthRecord) (db db' : Db)
    → expect o db ≡ (ok t, db')
    → (o ≡ some t) × (db ≡ db')
expect-ok none t db db' h = absurd (cc)
expect-ok (some r) t db db' h = let (a, b) = returned-eq h in (ap some a, b)

create_pending_auth-found :
    (now : Instant) (r t : AuthRecord) (db db' : Db)
    → create_pending_auth now r db ≡ (ok t, db')
    → (key : Text) × (non_empty_string r.nonce ≡ ok key) × (find (has_nonce key) db'.auths ≡ some t)
unfolding create_pending_auth get_pending_auth
create_pending_auth-found now r t db db' h =
    let (row, _, h1) = continue-lift-ok (auth_row now r) _ h in
    let (_, a, _, h2) =
      continue-eq-ok (raise_if (exists (has_nonce row.nonce) db.auths) integrity_error db) _ h1 in
    let (_, b, _, h3) =
      continue-eq-ok
        (raise_if (not (exists (has_session_id row.session_id) a.sessions)) integrity_error a) _
        h2 in
    let (o, c, read, h4) =
      continue-eq-ok (get_pending_auth r.nonce (record b { auths = b.auths ++ row ∷ [] })) _ h3 in
    let (key, hk, found) = continue-lift-ok (non_empty_string r.nonce) _ read in
    let (is_o, is_c) = returned-eq found in
    let (is_t, is_db) = expect-ok o t c db' h4 in
    (key, hk, subst (λ d. find (has_nonce key) d.auths ≡ some t) (is_c ∙ is_db) (is_o ∙ is_t))

pending_auth-nonce :
    (nonce principal : Text) (actor : Option Text) (session service : Text) (scopes : List Text)
    (expires_at : Instant) (p : PendingAuth)
    → pending_auth nonce principal actor session service scopes expires_at ≡ ok p
    → non_empty_string nonce ≡ ok p.nonce
unfolding pending_auth
pending_auth-nonce nonce principal actor session service scopes expires_at p h =
    let (pr, _, h1) = bind-eq-ok (non_empty_string principal) _ h in
    let (n, hn, h2) = bind-eq-ok (non_empty_string nonce) _ h1 in
    let (_, _, h3) = bind-eq-ok (actor_or_principal actor pr) _ h2 in
    let (_, _, h4) = bind-eq-ok (non_empty_string session) _ h3 in
    let (_, _, h5) = bind-eq-ok (non_empty_string service) _ h4 in
    let (_, _, h6) = bind-eq-ok (normalize_scopes scopes) _ h5 in
    hn ∙ ap (λ x. ok x.nonce) (ok-injective h6)

-- The row that `create` has left, for the pending authorization that it has returned.
insert_pending-found :
    (now : Instant) (p q : PendingAuth) (db db' : Db)
    → insert_pending now p db ≡ (ok q, db')
    → (t : AuthRecord) × (key : Text) × (non_empty_string p.nonce ≡ ok key)
      × (find (has_nonce key) db'.auths ≡ some t)
      × (pending_from_record t ≡ q)
unfolding insert_pending
insert_pending-found now p q db db' h =
    let (_, a, _, h1) = continue-eq-ok (raise_if (leb p.expires_at now) value_error db) _ h in
    let (o, b, _, h2) = continue-eq-ok (get_pending_auth p.nonce a) _ h1 in
    let (_, c, _, h3) = continue-eq-ok (make_room now o b) _ h2 in
    let (t, d, made, h4) = continue-eq-ok (create_pending_auth now (auth_record p) c) _ h3 in
    let (is_q, is_db) = returned-eq h4 in
    let (key, hk, found) = create_pending_auth-found now (auth_record p) t c d made in
    (t, key, hk, subst (λ x. find (has_nonce key) x.auths ≡ some t) is_db found, is_q)

consume_found :
    (now : Instant) (nonce key : Text) (t : AuthRecord) (db : Db)
    → non_empty_string nonce ≡ ok key
    → find (has_nonce key) db.auths ≡ some t
    → is_expired (pending_from_record t) now ≡ false
    → (consume_pending now nonce db).0 ≡ ok (pending_from_record t)
unfolding consume_pending consume_pending_auth
consume_found now nonce key t db h e live = rw (h, non_empty_string-fixed nonce key h, e, live) refl

-- Once `create` has returned a pending authorization, `consume` of its nonce, by a caller who has not
-- let it expire, returns that authorization.
pub consume_pending-create :
    (ttl : ℕ) (now at : Instant) (nonce principal : Text) (actor : Option Text)
    (session service : Text) (scopes : List Text) (expires_at : Option Instant) (q : PendingAuth)
    (db db' : Db)
    → create_pending ttl now nonce principal actor session service scopes expires_at db
      ≡ (ok q, db')
    → at < q.expires_at
    → (consume_pending at nonce db').0 ≡ ok q
unfolding create_pending
consume_pending-create ttl now at nonce principal actor session service scopes expires_at q db db' h
      soon =
    let (p, made, h1) =
      continue-lift-ok
        (pending_auth nonce principal actor session service scopes
          (or_default expires_at (now + seconds ttl)))
        _ h in
    let (t, key, hk, found, is_q) = insert_pending-found now p q db db' h1 in
    let hn =
      pending_auth-nonce nonce principal actor session service scopes
        (or_default expires_at (now + seconds ttl)) p made in
    let same = ok-injective (sym (non_empty_string-fixed nonce p.nonce hn) ∙ hk) in
    consume_found at nonce key t db' (hn ∙ ap ok same) found
      (ap (λ x. is_expired x at) is_q ∙ ground arith)
    ∙ ap ok is_q
