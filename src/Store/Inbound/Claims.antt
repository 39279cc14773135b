-- ===== src/Store/Inbound/Claims.antt =====
-- Inbound messages are processed once: what a sequence of claims, completions and releases does to
-- one message, whatever other messages it is about.
use im_assistant.Prelude.{
  ◌≡◌, refl, false, Option, none, some, List, [], ◌∷◌, Text, ok, Result-cases, inl, inr,
  non_empty_string, find, update, arith, or_default,
}
use im_assistant.Prelude.Table.Reads.{
  find-append_some, find-delete_kept, find-update_kept, exists-some,
}
use im_assistant.Instant.{Instant}
use im_assistant.Json.{Mapping}
use im_assistant.Store.Records.{InboundRecord, processed, Db}
use im_assistant.Store.Inbound.{
  claim_row, is_inbound, is_claim, is_stale, mark, release_stale, try_claim_inbound_message,
  get_inbound_message, mark_inbound_message_processed, release_inbound_message_claim,
  release_processing_inbound_messages,
}

-- A call on the table, by anybody, about any message.
pub data Call : Type 0 where
  claim : Instant → Text → Text → Text → Mapping → Option Instant → Call
  complete : Instant → Text → Text → Option Instant → Call
  release : Text → Text → Call
  recover : Option Text → Call

-- The database after a call, whether it returned or raised, and after a sequence of calls.
unfoldable pub after : Call → Db → Db
after (claim now p m c d t) db = (try_claim_inbound_message now p m c d t db).1
after (complete now p m t) db = (mark_inbound_message_processed now p m t db).1
after (release p m) db = (release_inbound_message_claim p m db).1
after (recover p) db = (release_processing_inbound_messages p db).1

unfoldable pub after_all : List Call → Db → Db
unfolding after
after_all [] db = db
after_all (c ∷ cs) db = after_all cs (after c db)

module _ (p m : Text) (r : InboundRecord) (done : r.status ≡ processed) where
  -- The row of a processed message stays as it is under each call.
  not_a_claim : (p' m' : Text) → is_claim p' m' r ≡ false
  not_a_claim p' m' = ground arith

  not_stale : (o : Option Text) → is_stale o r ≡ false
  not_stale none = ground arith
  not_stale (some q) = ground arith

  spared_by_update :
      (p' m' : Text) (t : Instant) (rows : List InboundRecord)
      → find (is_inbound p m) rows ≡ some r
      → find (is_inbound p m) (update (is_claim p' m') (mark t) rows) ≡ some r
  spared_by_update p' m' t rows h =
      find-update_kept (is_inbound p m) (is_claim p' m') (mark t) rows r (λ x _. refl) h
        (not_a_claim p' m')

  recovered :
      (o : Option Text) (db : Db)
      → find (is_inbound p m) db.inbound ≡ some r
      → find (is_inbound p m) (release_stale o db).1.inbound ≡ some r
  recovered o db h = find-delete_kept (is_inbound p m) (is_stale o) db.inbound r h (not_stale o)

  claim_keeps :
      (now : Instant) (q n k : Text) (d : Mapping) (t : Option Instant) (db : Db)
      → find (is_inbound p m) db.inbound ≡ some r
      → find (is_inbound p m) (try_claim_inbound_message now q n k d t db).1.inbound ≡ some r
  unfolding try_claim_inbound_message
  claim_keeps now q n k d t db h = elim (Result-cases (non_empty_string q)) [
    | inr (e, x) ↦ ground arith
    | inl (q', x) ↦ elim (Result-cases (non_empty_string n)) [
      | inr (e, y) ↦ ground arith
      | inl (n', y) ↦ elim (Result-cases (non_empty_string k)) [
        | inr (e, z) ↦ ground arith
        | inl (k', z) ↦ ground (
          arith,
          find-append_some (is_inbound p m) db.inbound (claim_row now q' n' k' d t ∷ []) r h,
        )
      ]
    ]
  ]

  complete_keeps :
      (now : Instant) (q n : Text) (t : Option Instant) (db : Db)
      → find (is_inbound p m) db.inbound ≡ some r
      → find (is_inbound p m) (mark_inbound_message_processed now q n t db).1.inbound ≡ some r
  unfolding mark_inbound_message_processed get_inbound_message
  complete_keeps now q n t db h = elim (Result-cases (non_empty_string q)) [
    | inr (e, x) ↦ ground arith
    | inl (q', x) ↦ elim (Result-cases (non_empty_string n)) [
      | inr (e, y) ↦ ground arith
      | inl (n', y) ↦ ground (arith, spared_by_update q' n' (or_default t now) db.inbound h)
    ]
  ]

  release_keeps :
      (q n : Text) (db : Db)
      → find (is_inbound p m) db.inbound ≡ some r
      → find (is_inbound p m) (release_inbound_message_claim q n db).1.inbound ≡ some r
  unfolding release_inbound_message_claim
  release_keeps q n db h = elim (Result-cases (non_empty_string q)) [
    | inr (e, x) ↦ ground arith
    | inl (q', x) ↦ elim (Result-cases (non_empty_string n)) [
      | inr (e, y) ↦ ground arith
      | inl (n', y) ↦ ground (
        arith,
        find-delete_kept (is_inbound p m) (is_claim q' n') db.inbound r h (not_a_claim q' n'),
      )
    ]
  ]

  recover_keeps :
      (o : Option Text) (db : Db)
      → find (is_inbound p m) db.inbound ≡ some r
      → find (is_inbound p m) (release_processing_inbound_messages o db).1.inbound ≡ some r
  unfolding release_processing_inbound_messages
  recover_keeps none db h = recovered none db h
  recover_keeps (some q) db h = elim (Result-cases (non_empty_string q)) [
    | inr (e, x) ↦ ground arith
    | inl (q', x) ↦ ground (arith, recovered (some q') db h)
  ]

  after_keeps :
      (c : Call) (db : Db)
      → find (is_inbound p m) db.inbound ≡ some r
      → find (is_inbound p m) (after c db).inbound ≡ some r
  unfolding after
  after_keeps (claim now q n k d t) db h = claim_keeps now q n k d t db h
  after_keeps (complete now q n t) db h = complete_keeps now q n t db h
  after_keeps (release q n) db h = release_keeps q n db h
  after_keeps (recover o) db h = recover_keeps o db h

  after_all_keeps :
      (cs : List Call) (db : Db)
      → find (is_inbound p m) db.inbound ≡ some r
      → find (is_inbound p m) (after_all cs db).inbound ≡ some r
  unfolding after_all
  after_all_keeps [] db h = h
  after_all_keeps (c ∷ cs) db h = after_all_keeps cs (after c db) (after_keeps c db h)

-- A claim of a message whose row is there is refused, and changes nothing.
pub claim_refused :
    (now : Instant) (q n k : Text) (d : Mapping) (t : Option Instant) (p m c : Text)
    (r : InboundRecord) (db : Db)
    → non_empty_string q ≡ ok p
    → non_empty_string n ≡ ok m
    → non_empty_string k ≡ ok c
    → find (is_inbound p m) db.inbound ≡ some r
    → try_claim_inbound_message now q n k d t db ≡ (ok false, db)
unfolding try_claim_inbound_message
claim_refused now q n k d t p m c r db x y z h =
    ground (arith, x, y, z, exists-some (is_inbound p m) db.inbound r h)

-- Once a message is marked as processed, its row stays as it is and every claim of it is refused,
-- after any sequence of claims, completions, releases and recoveries, of this and other messages.
pub after_all-processed :
    (cs : List Call) (now : Instant) (q n k : Text) (d : Mapping) (t : Option Instant)
    (p m c : Text) (r : InboundRecord) (db : Db)
    → non_empty_string q ≡ ok p
    → non_empty_string n ≡ ok m
    → non_empty_string k ≡ ok c
    → find (is_inbound p m) db.inbound ≡ some r
    → r.status ≡ processed
    → (find (is_inbound p m) (after_all cs db).inbound ≡ some r)
      × (try_claim_inbound_message now q n k d t (after_all cs db) ≡ (ok false, after_all cs db))
after_all-processed cs now q n k d t p m c r db x y z h done =
    let kept = after_all_keeps p m r done cs db h in
    (kept, claim_refused now q n k d t p m c r (after_all cs db) x y z kept)
