-- ===== src/Store/Messages.antt =====
-- The table `messages`: appends under the foreign key to `sessions`, and the listings. Ids come
-- from AUTOINCREMENT, so that `ORDER BY message_id` is the order of insertion (Store/Messages/Ids).
pub mod Keeps
pub mod Window
pub mod Append
pub mod Ids
use mathlib.Core.List.{reverse}
use im_assistant.Prelude.{
  ℕ, suc, Bool, not, Option, none, some, List, [], ◌∷◌, ◌++◌, Text, ◌==◌, Action, value_error,
  integrity_error, pure, lift, gets, modify, raise_if, ◌>>=◌, ◌>>◌, non_empty_string,
  optional_string, select, delete, count, exists, or_default, eqb, take,
}
use im_assistant.Instant.{Instant}
use im_assistant.Json.{Mapping}
use im_assistant.Store.Records.{MessageRole, MessageRecord, Db}
use im_assistant.Store.Sessions.{has_session_id}

abbrev pub in_session : Text → MessageRecord → Bool
in_session key m = m.session_id == key

-- `_positive_int`
unfoldable pub positive_int : ℕ → Action Db ℕ
positive_int n = do raise_if (eqb n 0) value_error; pure n

-- The stored row is stripped; the record that is returned has the arguments as they were given.
unfoldable pub add_message :
    Instant
    → Text
    → MessageRole
    → Text
    → Option Text
    → Option Text
    → Mapping
    → Option Instant
    → Action Db MessageRecord
add_message now session_id role content actor_id provider_message_id metadata created_at = do
  key ← lift (non_empty_string session_id)
  stripped ← lift (non_empty_string content)
  raise_if (not (← gets λ db. exists (has_session_id key) db.sessions)) integrity_error
  id ← gets λ db. suc db.last_message
  modify λ db. record db {
    last_message = id;
    messages =
        db.messages
        ++ (record {
          message_id = id;
          session_id = key;
          role = role;
          content = stripped;
          actor_id = optional_string actor_id;
          provider_message_id = optional_string provider_message_id;
          metadata = metadata;
          created_at = or_default created_at now;
        })
          ∷ [];
  }
  pure (record {
    message_id = id;
    session_id = session_id;
    role = role;
    content = content;
    actor_id = actor_id;
    provider_message_id = provider_message_id;
    metadata = metadata;
    created_at = or_default created_at now;
  })

-- `limit=None` lists them all.
unfoldable pub list_messages : Text → Option ℕ → Action Db (List MessageRecord)
list_messages session_id none = do
  key ← lift (non_empty_string session_id)
  gets λ db. select (in_session key) db.messages
list_messages session_id (some limit) = do
  key ← lift (non_empty_string session_id)
  n ← positive_int limit
  gets λ db. take n (select (in_session key) db.messages)

-- The newest `limit` rows by descending id, then put back in ascending order.
unfoldable pub list_recent_messages : Text → ℕ → Action Db (List MessageRecord)
list_recent_messages session_id limit = do
  key ← lift (non_empty_string session_id)
  n ← positive_int limit
  gets λ db. reverse (take n (reverse (select (in_session key) db.messages)))

unfoldable pub delete_messages_for_session : Text → Action Db ℕ
delete_messages_for_session session_id = do
  key ← lift (non_empty_string session_id)
  n ← gets λ db. count (in_session key) db.messages
  modify λ db. record db { messages = delete (in_session key) db.messages }
  pure n
