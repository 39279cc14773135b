-- ===== src/Store/Sessions.antt =====
-- The table `sessions`: an upsert by `session_id` under a UNIQUE `conversation_id`, reads, and a
-- deletion that cascades to the messages, interactions and authorizations of the session.
pub mod Writes
pub mod Unique
pub mod Restore
use im_assistant.Prelude.{
  Bool, not, ◌&&◌, Option, none, some, List, [], ◌∷◌, ◌++◌, Text, ◌==◌, Action, Result, ok, bind,
  store_error, integrity_error, pure, raise, lift, gets, modify, raise_if, ◌>>=◌, ◌>>◌,
  non_empty_string, optional_string, find, delete, update, count, exists, or_default, ltb,
  if◌then◌else◌,
}
use im_assistant.Instant.{Instant}
use im_assistant.Store.Records.{SessionRecord, AuditRecord, Db}

abbrev pub has_session_id : Text → SessionRecord → Bool
has_session_id k r = r.session_id == k

abbrev pub has_conversation_id : Text → SessionRecord → Bool
has_conversation_id k r = r.conversation_id == k

-- Another session has the conversation.
abbrev pub takes_conversation : SessionRecord → SessionRecord → Bool
takes_conversation new r =
    r.conversation_id == new.conversation_id && not (r.session_id == new.session_id)

-- DO UPDATE SET: every column but the key and `created_at`
abbrev pub overwrite_session : SessionRecord → SessionRecord → SessionRecord
overwrite_session new r = record new { session_id = r.session_id; created_at = r.created_at }

-- INSERT … ON CONFLICT(session_id) DO UPDATE
unfoldable pub put_session : SessionRecord → List SessionRecord → List SessionRecord
put_session new rows =
    if exists (has_session_id new.session_id) rows
    then update (has_session_id new.session_id) (overwrite_session new) rows
    else rows ++ new ∷ []

-- An optional row that must be there, after a write.
abbrev pub expect {ℓ} : {A : Type ℓ} → Option A → Action Db A
expect none = raise store_error
expect (some a) = pure a

unfoldable pub get_session : Text → Action Db (Option SessionRecord)
get_session session_id = do
  key ← lift (non_empty_string session_id)
  gets λ db. find (has_session_id key) db.sessions

unfoldable pub get_session_by_conversation_id : Text → Action Db (Option SessionRecord)
get_session_by_conversation_id conversation_id = do
  key ← lift (non_empty_string conversation_id)
  gets λ db. find (has_conversation_id key) db.sessions

-- The row that `upsert_session` writes: `now` is the reading of the clock.
unfoldable pub session_row : Instant → SessionRecord → Result SessionRecord
session_row now r = bind (non_empty_string r.session_id) λ session_id.
    bind (non_empty_string r.conversation_id) λ conversation_id.
      bind (non_empty_string r.bot_id) λ bot_id.
        bind (non_empty_string r.principal_id) λ principal_id. ok (record r {
          session_id = session_id;
          conversation_id = conversation_id;
          bot_id = bot_id;
          principal_id = principal_id;
          actor_id = optional_string r.actor_id;
          created_at = some (or_default r.created_at now);
          updated_at = some now;
        })

unfoldable pub upsert_session : Instant → SessionRecord → Action Db SessionRecord
upsert_session now r = do
  row ← lift (session_row now r)
  raise_if (← gets λ db. exists (takes_conversation row) db.sessions) integrity_error
  modify λ db. record db { sessions = put_session row db.sessions }
  stored ← get_session r.session_id
  expect stored

-- ON DELETE SET NULL, in the audit log
abbrev pub unlink : Text → AuditRecord → AuditRecord
unlink key r = record r { session_id = none }

abbrev pub refers_to : Text → Option Text → Bool
refers_to key none = Bool.false
refers_to key (some s) = s == key

unfoldable pub delete_session : Text → Action Db Bool
delete_session session_id = do
  key ← lift (non_empty_string session_id)
  n ← gets λ db. count (has_session_id key) db.sessions
  modify λ db. record db {
    sessions = delete (has_session_id key) db.sessions;
    messages = delete (λ m. m.session_id == key) db.messages;
    interactions = delete (λ i. i.session_id == key) db.interactions;
    auths = delete (λ a. a.session_id == key) db.auths;
    audit_log = update (λ a. refers_to key a.session_id) (unlink key) db.audit_log;
  }
  pure (ltb 0 n)
