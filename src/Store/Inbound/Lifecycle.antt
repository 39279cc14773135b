-- ===== src/Store/Inbound/Lifecycle.antt =====
-- What may follow a claim that was granted: its completion, or its release and another claim.
use im_assistant.Prelude.{
  ◌≡◌, refl, sym, ap, ◌∙◌, subst, true, false, Option, none, some, List, [], ◌∷◌, ◌++◌, Text,
  eq_refl, ok, non_empty_string, find, update, arith, or_default,
}
use im_assistant.Prelude.Table.Reads.{
  find-append_none, find-update, find-none_of_exists, find-none_of_weaker, count-some, exists-none,
  delete-append_new,
}
use im_assistant.Instant.{Instant}
use im_assistant.Json.{Mapping}
use im_assistant.Store.Records.{InboundRecord, Db}
use im_assistant.Store.Inbound.Claims.{claim_refused}
use im_assistant.Store.Inbound.{
  is_inbound, is_claim, mark, claim_row, try_claim_inbound_message, get_inbound_message,
  mark_inbound_message_processed, release_inbound_message_claim,
}

module _ (now : Instant) (q n k : Text) (d : Mapping) (t : Option Instant) (p m c : Text)
    (x : non_empty_string q ≡ ok p) (y : non_empty_string n ≡ ok m)
    (z : non_empty_string k ≡ ok c) where
  abbrev row : InboundRecord
  row = claim_row now p m c d t

  -- A claim is granted exactly where the table has no row of the message.
  granted :
      (db db' : Db)
      → try_claim_inbound_message now q n k d t db ≡ (ok true, db')
      → (find (is_inbound p m) db.inbound ≡ none)
        × (db' ≡ record db { inbound = db.inbound ++ row ∷ [] })
  unfolding try_claim_inbound_message
  granted db db' h = (find-none_of_exists (is_inbound p m) db.inbound (ground arith), ground arith)

  grants :
      (db : Db)
      → find (is_inbound p m) db.inbound ≡ none
      → try_claim_inbound_message now q n k d t db
        ≡ (ok true, record db { inbound = db.inbound ++ row ∷ [] })
  unfolding try_claim_inbound_message
  grants db h = ground (arith, x, y, z, exists-none (is_inbound p m) db.inbound h)

  module _ (rows : List InboundRecord) (free : find (is_inbound p m) rows ≡ none) where
    found : find (is_inbound p m) (rows ++ row ∷ []) ≡ some row
    unfolding find
    found =
        find-append_none (is_inbound p m) rows (row ∷ []) free
        ∙ ground (arith, eq_refl p, eq_refl m)

    found_claim : find (is_claim p m) (rows ++ row ∷ []) ≡ some row
    unfolding find
    found_claim =
        find-append_none (is_claim p m) rows (row ∷ [])
          (find-none_of_weaker (is_claim p m) (is_inbound p m) rows (λ r h. ground arith) free)
        ∙ ground (arith, eq_refl p, eq_refl m)

  completes :
      (db : Db) (at : Instant) (done : Option Instant)
      → find (is_inbound p m) db.inbound ≡ none
      → mark_inbound_message_processed at q n done (record db { inbound = db.inbound ++ row ∷ [] })
        ≡ (
          ok (mark (or_default done at) row),
          record db {
            inbound = update (is_claim p m) (mark (or_default done at)) (db.inbound ++ row ∷ []);
          },
        )
  unfolding mark_inbound_message_processed get_inbound_message
  completes db at done free = ground (
    arith,
    x,
    y,
    eq_refl p,
    eq_refl m,
    found db.inbound free,
    count-some (is_claim p m) (db.inbound ++ row ∷ []) row (found_claim db.inbound free),
    find-update (is_inbound p m) (is_claim p m) (mark (or_default done at)) (db.inbound ++ row ∷ [])
        (λ r h. refl),
  )

  releases :
      (db : Db)
      → find (is_inbound p m) db.inbound ≡ none
      → release_inbound_message_claim q n (record db { inbound = db.inbound ++ row ∷ [] })
        ≡ (ok true, db)
  unfolding release_inbound_message_claim
  releases db free = ground (
    arith,
    x,
    y,
    eq_refl p,
    eq_refl m,
    count-some (is_claim p m) (db.inbound ++ row ∷ []) row (found_claim db.inbound free),
    delete-append_new (is_claim p m) db.inbound row
        (find-none_of_weaker (is_claim p m) (is_inbound p m) db.inbound (λ r h. ground arith) free),
  )

-- After a claim that was granted, a second claim is refused; the completion returns the row as
-- processed, and a release returns `True` and gives back the database as it was before the claim,
-- so that the message can be claimed again.
pub claim_lifecycle :
    (now : Instant) (q n k : Text) (d : Mapping) (t : Option Instant) (p m c : Text) (db db' : Db)
    → non_empty_string q ≡ ok p
    → non_empty_string n ≡ ok m
    → non_empty_string k ≡ ok c
    → try_claim_inbound_message now q n k d t db ≡ (ok true, db')
    → (try_claim_inbound_message now q n k d t db' ≡ (ok false, db'))
      × ((at : Instant) (done : Option Instant)
          → (mark_inbound_message_processed at q n done db').0
            ≡ ok (mark (or_default done at) (claim_row now p m c d t)))
      × (release_inbound_message_claim q n db' ≡ (ok true, db))
claim_lifecycle now q n k d t p m c db db' x y z h =
    let (free, e) = granted now q n k d t p m c x y z db db' h in
    subst
      (λ s.
        (try_claim_inbound_message now q n k d t s ≡ (ok false, s))
        × ((at : Instant) (done : Option Instant)
            → (mark_inbound_message_processed at q n done s).0
              ≡ ok (mark (or_default done at) (claim_row now p m c d t)))
        × (release_inbound_message_claim q n s ≡ (ok true, db)))
      (sym e)
      (
        claim_refused now q n k d t p m c (claim_row now p m c d t) _ x y z
            (found now q n k d t p m c x y z db.inbound free),
        (λ at done. ap (λ r. r.0) (completes now q n k d t p m c x y z db at done free)),
        releases now q n k d t p m c x y z db free,
      )
