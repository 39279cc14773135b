-- ===== src/Store/Messages/Append.antt =====
-- A message that is added stands last in the listing of its session.
use im_assistant.Prelude.{
  ◌≡◌, refl, sym, ap, ◌∙◌, Option, none, [], ◌∷◌, ◌++◌, append-nil, Text, eq_refl, eq_ne, ok,
  Bool-cases, inl, inr, non_empty_string, optional_string, exists, select, arith,
}
use im_assistant.Instant.{Instant}
use im_assistant.Json.{Mapping}
use im_assistant.Store.Records.{MessageRole, MessageRecord, Db}
use im_assistant.Store.Sessions.{has_session_id}
use im_assistant.Store.Messages.{in_session, add_message, list_messages}
use im_assistant.Store.Messages.Window.{select-append}

-- The row that `add_message` stores for the record `r` that it returns.
abbrev pub stored_message : Text → Text → MessageRecord → MessageRecord
stored_message key content r = record r {
  session_id = key;
  content = content;
  actor_id = optional_string r.actor_id;
  provider_message_id = optional_string r.provider_message_id;
}

module _ (now : Instant) (session_id key : Text) (role : MessageRole) (content stripped : Text)
    (actor provider : Option Text) (metadata : Mapping) (at : Option Instant) (r : MessageRecord)
    (db db' : Db) (hk : non_empty_string session_id ≡ ok key)
    (hc : non_empty_string content ≡ ok stripped)
    (h : add_message now session_id role content actor provider metadata at db ≡ (ok r, db')) where
  added : db.messages ++ stored_message key stripped r ∷ [] ≡ db'.messages
  unfolding add_message
  added = elim (Bool-cases (exists (has_session_id key) db.sessions)) [
    | inl e ↦ ground (arith, hk, hc, h, e)
    | inr e ↦ ground (arith, hk, hc, h, e)
  ]

  listed :
      (k : Text)
      → select (in_session k) db'.messages
        ≡ select (in_session k) db.messages
          ++ select (in_session k) (stored_message key stripped r ∷ [])
  listed k =
      ap (select (in_session k)) (sym added)
      ∙ select-append k db.messages (stored_message key stripped r)

-- When `add_message` returns a record, the listing of that session gains, at its end, the row with
-- the id that was returned and the stripped content, and the listing of every other session is what
-- it was.
pub list_messages-add_message :
    (now : Instant) (session_id key : Text) (role : MessageRole) (content stripped : Text)
    (actor provider : Option Text) (metadata : Mapping) (at : Option Instant) (r : MessageRecord)
    (other k : Text) (db db' : Db)
    → non_empty_string session_id ≡ ok key
    → non_empty_string content ≡ ok stripped
    → non_empty_string other ≡ ok k
    → (k ≡ key → ⊥)
    → add_message now session_id role content actor provider metadata at db ≡ (ok r, db')
    → (list_messages session_id none db'
        ≡ (ok (select (in_session key) db.messages ++ stored_message key stripped r ∷ []), db'))
      × ((list_messages other none db').0 ≡ (list_messages other none db).0)
unfolding list_messages select
list_messages-add_message now session_id key role content stripped actor provider metadata at r
      other k db db' hk hc ho ne h =
    let here =
      listed now session_id key role content stripped actor provider metadata at r db db' hk hc h
        key in
    let there =
      listed now session_id key role content stripped actor provider metadata at r db db' hk hc h
        k in
    (
      rw hk (ap (λ l. (ok l, db')) (here ∙ rw (eq_refl key) refl)),
      rw ho (
          ap ok (
            there
            ∙ rw (eq_ne key k (λ e. ne (sym e))) (append-nil (select (in_session k) db.messages)))),
    )
