-- ===== src/Store/Inbound.antt =====
-- The table `inbound_messages`: the claim of a message before it is processed.
pub mod Claims
pub mod Lifecycle
use im_assistant.Prelude.{
  ℕ, Bool, true, false, not, ◌&&◌, Option, none, some, [], ◌∷◌, ◌++◌, Text, ◌==◌, Action,
  store_error, pure, lift, gets, modify, raise_if, ◌>>=◌, ◌>>◌, non_empty_string, find, delete,
  update, count, exists, or_default, if◌then◌else◌, eqb, ltb,
}
use im_assistant.Instant.{Instant}
use im_assistant.Json.{Mapping}
use im_assistant.Store.Records.{InboundStatus, processing, processed, InboundRecord, Db}
use im_assistant.Store.Sessions.{expect}

abbrev pub is_processing : InboundStatus → Bool
is_processing processing = true
is_processing processed = false

-- the PRIMARY KEY (platform, msg_id)
abbrev pub is_inbound : Text → Text → InboundRecord → Bool
is_inbound platform msg_id r = r.platform == platform && r.msg_id == msg_id

abbrev pub is_claim : Text → Text → InboundRecord → Bool
is_claim platform msg_id r = is_inbound platform msg_id r && is_processing r.status

abbrev pub claim_row : Instant → Text → Text → Text → Mapping → Option Instant → InboundRecord
claim_row now platform msg_id conversation_id metadata first_seen_at = record {
  platform = platform;
  msg_id = msg_id;
  conversation_id = conversation_id;
  status = processing;
  metadata = metadata;
  first_seen_at = or_default first_seen_at now;
  processed_at = none;
}

-- INSERT OR IGNORE: `True` where the row is new.
unfoldable pub try_claim_inbound_message :
    Instant → Text → Text → Text → Mapping → Option Instant → Action Db Bool
try_claim_inbound_message now platform msg_id conversation_id metadata first_seen_at = do
  p ← lift (non_empty_string platform)
  m ← lift (non_empty_string msg_id)
  c ← lift (non_empty_string conversation_id)
  fresh ← gets λ db. not (exists (is_inbound p m) db.inbound)
  modify λ db.
      if fresh
      then record db { inbound = db.inbound ++ claim_row now p m c metadata first_seen_at ∷ [] }
      else db
  pure fresh

unfoldable pub get_inbound_message : Text → Text → Action Db (Option InboundRecord)
get_inbound_message platform msg_id = do
  p ← lift (non_empty_string platform)
  m ← lift (non_empty_string msg_id)
  gets λ db. find (is_inbound p m) db.inbound

abbrev pub mark : Instant → InboundRecord → InboundRecord
mark at r = record r { status = processed; processed_at = some at }

unfoldable pub mark_inbound_message_processed :
    Instant → Text → Text → Option Instant → Action Db InboundRecord
mark_inbound_message_processed now platform msg_id processed_at = do
  p ← lift (non_empty_string platform)
  m ← lift (non_empty_string msg_id)
  n ← gets λ db. count (is_claim p m) db.inbound
  modify λ db. record db {
    inbound = update (is_claim p m) (mark (or_default processed_at now)) db.inbound;
  }
  raise_if (eqb n 0) store_error
  stored ← get_inbound_message platform msg_id
  expect stored

unfoldable pub release_inbound_message_claim : Text → Text → Action Db Bool
release_inbound_message_claim platform msg_id = do
  p ← lift (non_empty_string platform)
  m ← lift (non_empty_string msg_id)
  n ← gets λ db. count (is_claim p m) db.inbound
  modify λ db. record db { inbound = delete (is_claim p m) db.inbound }
  pure (ltb 0 n)

abbrev pub is_stale : Option Text → InboundRecord → Bool
is_stale none r = is_processing r.status
is_stale (some p) r = r.platform == p && is_processing r.status

abbrev pub release_stale : Option Text → Action Db ℕ
release_stale p = do
  n ← gets λ db. count (is_stale p) db.inbound
  modify λ db. record db { inbound = delete (is_stale p) db.inbound }
  pure n

-- The recovery at startup; with no platform it releases every claim.
unfoldable pub release_processing_inbound_messages : Option Text → Action Db ℕ
release_processing_inbound_messages none = release_stale none
release_processing_inbound_messages (some platform) = do
  p ← lift (non_empty_string platform)
  release_stale (some p)
