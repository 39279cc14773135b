-- ===== src/Store/Interactions.antt =====
-- The table `pending_interactions`.
pub mod Later
pub mod Writes
use im_assistant.Prelude.{
  ◌<◌, Bool, true, false, not, ◌&&◌, ◌||◌, Option, none, some, List, [], ◌∷◌, ◌++◌, Text, codes,
  ◌==◌, Result, ok, err, bind, Action, value_error, store_error, integrity_error, lift, gets,
  modify, raise_if, ◌>>=◌, ◌>>◌, non_empty_string, find, select, update, count, exists, or_default,
  eqb, ltb, leb, if◌then◌else◌,
}
use im_assistant.Instant.{Instant}
use im_assistant.Json.{Mapping}
use im_assistant.Store.Records.{
  InteractionStatus, pending, resolved, cancelled, InteractionRecord, Db,
}
use im_assistant.Store.Sessions.{has_session_id, expect}

abbrev pub is_pending : InteractionStatus → Bool
is_pending pending = true
is_pending resolved = false
is_pending cancelled = false

abbrev pub has_correlation : Text → InteractionRecord → Bool
has_correlation key r = r.correlation_id == key

abbrev pub is_active : Text → InteractionRecord → Bool
is_active key r = r.correlation_id == key && is_pending r.status

-- `_pending_interaction_kind`
unfoldable pub pending_interaction_kind : Text → Result Text
pending_interaction_kind kind =
    bind (non_empty_string kind)
      λ k. if k == codes "confirm" || k == codes "consent" then ok k else err value_error

-- `_pending_interaction_terminal_status`
unfoldable pub terminal_status : InteractionStatus → Result InteractionStatus
terminal_status s = if is_pending s then err value_error else ok s

unfoldable pub get_pending_interaction : Text → Action Db (Option InteractionRecord)
get_pending_interaction correlation_id = do
  key ← lift (non_empty_string correlation_id)
  gets λ db. find (has_correlation key) db.interactions

-- The row that is inserted.
unfoldable pub interaction_row : Instant → InteractionRecord → Result InteractionRecord
interaction_row now r = bind (non_empty_string r.correlation_id) λ correlation_id.
    bind (non_empty_string r.session_id) λ session_id.
      bind (pending_interaction_kind r.kind) λ kind.
        bind (non_empty_string r.responder_id) λ responder_id. ok (record r {
          correlation_id = correlation_id;
          session_id = session_id;
          kind = kind;
          responder_id = responder_id;
          created_at = some (or_default r.created_at now);
        })

unfoldable pub create_pending_interaction :
    Instant → InteractionRecord → Action Db InteractionRecord
create_pending_interaction now r = do
  row ← lift (interaction_row now r)
  raise_if (← gets λ db. exists (has_correlation row.correlation_id) db.interactions)
      integrity_error
  raise_if (not (← gets λ db. exists (has_session_id row.session_id) db.sessions)) integrity_error
  modify λ db. record db { interactions = db.interactions ++ row ∷ [] }
  stored ← get_pending_interaction r.correlation_id
  expect stored

abbrev created : InteractionRecord → Instant
created r = or_default r.created_at 0

-- ORDER BY created_at DESC LIMIT 1: the latest row, the first of those where several are.
unfoldable pub latest : List InteractionRecord → Option InteractionRecord
latest [] = none
latest (r ∷ rs) =
    let rest = latest rs in
    elim rest [ none ↦ some r | some q ↦ some (if ltb (created r) (created q) then q else r) ]

abbrev pub is_pending_of : Text → InteractionRecord → Bool
is_pending_of key r = r.session_id == key && is_pending r.status

unfoldable pub get_pending_interaction_for_session : Text → Action Db (Option InteractionRecord)
get_pending_interaction_for_session session_id = do
  key ← lift (non_empty_string session_id)
  gets λ db. latest (select (is_pending_of key) db.interactions)

-- ORDER BY expires_at, created_at, rows that tie in the order of the table
abbrev before : InteractionRecord → InteractionRecord → Bool
before r q =
    ltb r.expires_at q.expires_at || (eqb r.expires_at q.expires_at && leb (created r) (created q))

unfoldable pub insert_ordered : InteractionRecord → List InteractionRecord → List InteractionRecord
insert_ordered r [] = r ∷ []
insert_ordered r (q ∷ qs) =
    let rest = insert_ordered r qs in if before r q then r ∷ q ∷ qs else q ∷ rest

unfoldable pub order_by_expiry : List InteractionRecord → List InteractionRecord
order_by_expiry [] = []
order_by_expiry (r ∷ rs) = insert_ordered r (order_by_expiry rs)

unfoldable pub list_pending_interactions : Action Db (List InteractionRecord)
list_pending_interactions =
    gets λ db. order_by_expiry (select (λ r. is_pending r.status) db.interactions)

abbrev pub settle : InteractionStatus → Mapping → Instant → InteractionRecord → InteractionRecord
settle status resolution at r = record r {
  status = status;
  resolution = some resolution;
  resolved_at = some at;
}

unfoldable pub resolve_pending_interaction :
    Instant → Text → InteractionStatus → Mapping → Option Instant → Action Db InteractionRecord
resolve_pending_interaction now correlation_id status resolution resolved_at = do
  terminal ← lift (terminal_status status)
  key ← lift (non_empty_string correlation_id)
  n ← gets λ db. count (is_active key) db.interactions
  modify λ db. record db {
    interactions =
        update (is_active key) (settle terminal resolution (or_default resolved_at now))
          db.interactions;
  }
  raise_if (eqb n 0) store_error
  stored ← get_pending_interaction correlation_id
  expect stored
