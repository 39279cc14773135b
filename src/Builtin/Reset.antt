-- ===== src/Builtin/Reset.antt =====
-- What `/reset` leaves of a Session (src/core/builtin_commands.py).
use im_assistant.Prelude.{
  ℕ, ok-injective, ◌≡◌, refl, sym, ap, ◌∙◌, none, some, List, [], ◌∷◌, Text, ok, member, find,
  select, delete, non_empty_string, eq_iff, continue-eq-ok, continue-lift-ok, returned-eq, arith,
  if◌then◌else◌,
}
use im_assistant.Json.{Mapping, empty, entry, get}
use im_assistant.Session.{Session, idle}
use im_assistant.Store.Records.{Db, SessionRecord, MessageRecord}
use im_assistant.Store.Sessions.{has_session_id, upsert_session}
use im_assistant.Store.Sessions.Writes.{upsert_session-IsStored}
use im_assistant.Store.Messages.{in_session, delete_messages_for_session}
use im_assistant.Interrupt.Manager.{session_record_with_state}
use im_assistant.Command.Dispatch.{CommandContext}
use im_assistant.Builtin.{
  BuiltinCommand, BuiltinCommandServices, operational_context_keys, reset_context, reset_handler,
}

-- A reset context has the keys that outlive it, and no others.
pub get-reset_context :
    (k : Text) (m : Mapping)
    → get k (reset_context m) ≡ (if member k operational_context_keys then get k m else none)
unfolding get reset_context
get-reset_context k empty = ground arith
get-reset_context k (entry j v m) = ground (arith, eq_iff j k, get-reset_context k m)

select-deleted :
    (k : Text) (xs : List MessageRecord) → select (in_session k) (delete (in_session k) xs) ≡ []
unfolding select delete
select-deleted k [] = refl
select-deleted k (x ∷ xs) = ground (arith, select-deleted k xs)

select-deleted_ne :
    (j k : Text) (xs : List MessageRecord)
    → (j ≡ k → ⊥)
    → select (in_session j) (delete (in_session k) xs) ≡ select (in_session j) xs
unfolding select delete
select-deleted_ne j k [] ne = refl
select-deleted_ne j k (x ∷ xs) ne =
    ground (arith, eq_iff x.session_id j, eq_iff x.session_id k, select-deleted_ne j k xs ne)

-- What holds of the Session `s` once it is reset.
pub record IsReset (s : Session) (db db' : Db) : Type 0 where
  pub key : Text
  pub normal : non_empty_string s.session_id ≡ ok key
  pub emptied : select (in_session key) db'.messages ≡ []
  -- the messages of other Sessions are what they were
  pub others :
      (j : Text)
      → (j ≡ key → ⊥)
      → select (in_session j) db'.messages ≡ select (in_session j) db.messages
  pub row : SessionRecord
  pub stored : find (has_session_id key) db'.sessions ≡ some row
  pub is_idle : row.state ≡ idle
  pub context :
      (k : Text)
      → get k row.context ≡ (if member k operational_context_keys then get k s.context else none)
  pub interactions : db'.interactions ≡ db.interactions

delete_messages-ok :
    (session_id : Text) (n : ℕ) (db db' : Db)
    → delete_messages_for_session session_id db ≡ (ok n, db')
    → (key : Text) × (non_empty_string session_id ≡ ok key)
      × (record db { messages = delete (in_session key) db.messages } ≡ db')
unfolding delete_messages_for_session
delete_messages-ok session_id n db db' h =
    let (key, e, h1) = continue-lift-ok (non_empty_string session_id) _ h in
    (key, e, (returned-eq h1).1)

module _ {H E : Type 0} (x : BuiltinCommandServices H E) where
  -- When `/reset` returns, the Session has no messages, those of all other Sessions are what they
  -- were, and the Session is stored as Idle; of its context the operational keys are left, with
  -- their values, and nothing else. The rows of the pending interactions are not touched.
  pub reset_handler-IsReset :
      (context : CommandContext BuiltinCommand E) (reply : Text) (db db' : Db)
      → reset_handler x context db ≡ (ok reply, db')
      → IsReset context.session db db'
  unfolding reset_handler session_record_with_state
  reset_handler-IsReset context reply db db' h =
      let s = context.session in
      let (n, mid, e, h1) = continue-eq-ok (delete_messages_for_session s.session_id db) _ h in
      let (t, last, e', h2) =
        continue-eq-ok
          (upsert_session x.now (session_record_with_state s idle (reset_context s.context)) mid) _
          h1 in
      let (_, ends) = returned-eq h2 in
      let (key, normal, deleted) = delete_messages-ok s.session_id n db mid e in
      let (key', stored) =
        upsert_session-IsStored x.now _ mid db' t (e' ∙ ap (λ d. (ok t, d)) ends) in
      let same_key : key' ≡ key = ok-injective (sym stored.normal ∙ normal) in
      let kept : db'.messages ≡ delete (in_session key) db.messages =
        ap (λ d. d.messages) stored.rest ∙ ap (λ d. d.messages) (sym deleted) in
      record {
        key = key;
        normal = normal;
        emptied = ap (select (in_session key)) kept ∙ select-deleted key db.messages;
        others = λ j ne. ap (select (in_session j)) kept ∙ select-deleted_ne j key db.messages ne;
        row = t;
        stored = ap (λ k. find (has_session_id k) db'.sessions) (sym same_key) ∙ stored.found;
        is_idle = stored.state;
        context = λ k. ap (get k) stored.context ∙ get-reset_context k s.context;
        interactions =
            ap (λ d. d.interactions) stored.rest ∙ ap (λ d. d.interactions) (sym deleted);
      }
