-- ===== src/Store/Messages/Ids.antt =====
-- The ids of the messages: AUTOINCREMENT gives them in ascending order and uses none twice, so that
-- the order by id is the order of insertion.
use im_assistant.Prelude.{
  ℕ, suc, ◌≤◌, ◌<◌, ◌≡◌, refl, sym, subst, subst₂, Bool, Option, List, [], ◌∷◌, ◌++◌, Text,
  Result-cases, Bool-cases, inl, inr, non_empty_string, exists, delete, All, All-append, arith,
}
use im_assistant.Prelude.Table.Keys.{All-delete}
use im_assistant.Instant.{Instant}
use im_assistant.Json.{Mapping}
use im_assistant.Store.Records.{MessageRole, MessageRecord, Db}
use im_assistant.Store.Sessions.{has_session_id, delete_session}
use im_assistant.Store.Messages.{in_session, add_message, delete_messages_for_session}

abbrev pub Ascending : List MessageRecord → Type 0
Ascending [] = Unit
Ascending (m ∷ ms) = All (λ x. m.message_id < x.message_id) ms × Ascending ms

abbrev pub AtMost : ℕ → List MessageRecord → Type 0
AtMost n ms = All (λ m. m.message_id ≤ n) ms

pub record IsNumbered (db : Db) : Type 0 where
  pub ascending : Ascending db.messages
  pub given : AtMost db.last_message db.messages

AtMost-step : (n k : ℕ) (ms : List MessageRecord) → n ≤ k → AtMost n ms → AtMost k ms
AtMost-step n k [] h a = tt
AtMost-step n k (m ∷ ms) h a = (omega (arith, a.0), AtMost-step n k ms h a.1)

Ascending-append :
    (n : ℕ) (ms : List MessageRecord) (m : MessageRecord)
    → n < m.message_id
    → AtMost n ms
    → Ascending ms
    → Ascending (ms ++ m ∷ [])
Ascending-append n [] m h b a = (tt, tt)
Ascending-append n (x ∷ ms) m h b a = (
  All-append (λ y. x.message_id < y.message_id) ms (m ∷ []) a.0 (omega (arith, b.0), tt),
  Ascending-append n ms m h b.1 a.1,
)

Ascending-delete :
    (p : MessageRecord → Bool) (ms : List MessageRecord) → Ascending ms → Ascending (delete p ms)
unfolding delete
Ascending-delete p [] a = tt
Ascending-delete p (m ∷ ms) a = elim (Bool-cases (p m)) [
  | inl e ↦ rw e (Ascending-delete p ms a.1)
  | inr e ↦ rw e (All-delete (λ y. m.message_id < y.message_id) p ms a.0, Ascending-delete p ms a.1)
]

-- A call that writes the table.
pub data MessageCall : Type 0 where
  add :
      Instant
      → Text
      → MessageRole
      → Text
      → Option Text
      → Option Text
      → Mapping
      → Option Instant
      → MessageCall
  clear : Text → MessageCall
  drop_session : Text → MessageCall

-- The database that a call leaves, whether it returned or raised.
unfoldable pub after_message_call : MessageCall → Db → Db
after_message_call (add now s role content actor provider metadata at) db =
    (add_message now s role content actor provider metadata at db).1
after_message_call (clear s) db = (delete_messages_for_session s db).1
after_message_call (drop_session s) db = (delete_session s db).1

IsNumbered-add :
    (m : MessageRecord) (db : Db)
    → m.message_id ≡ suc db.last_message
    → IsNumbered db
    → IsNumbered
        (record db { last_message = suc db.last_message; messages = db.messages ++ m ∷ [] })
IsNumbered-add m db e v = record {
  ascending = Ascending-append db.last_message db.messages m (omega (arith, e)) v.given v.ascending;
  given =
      All-append (λ x. x.message_id ≤ suc db.last_message) db.messages (m ∷ [])
        (AtMost-step db.last_message (suc db.last_message) db.messages (omega arith) v.given)
        (omega (arith, e), tt);
}

-- The rows that a deletion leaves.
IsNumbered-delete :
    (p : MessageRecord → Bool) (db new : Db)
    → new.messages ≡ delete p db.messages
    → new.last_message ≡ db.last_message
    → IsNumbered db
    → IsNumbered new
IsNumbered-delete p db new e f v = record {
  ascending = subst Ascending (sym e) (Ascending-delete p db.messages v.ascending);
  given =
      subst₂ AtMost (sym f) (sym e)
        (All-delete (λ m. m.message_id ≤ db.last_message) p db.messages v.given);
}

add_message-IsNumbered :
    (now : Instant) (s : Text) (role : MessageRole) (content : Text) (actor provider : Option Text)
    (metadata : Mapping) (at : Option Instant) (db : Db)
    → IsNumbered db
    → IsNumbered (add_message now s role content actor provider metadata at db).1
unfolding add_message
add_message-IsNumbered now s role content actor provider metadata at db v =
    elim (Result-cases (non_empty_string s)) [
      | inr (e, x) ↦ rw (add_message, x) v
      | inl (key, x) ↦ elim (Result-cases (non_empty_string content)) [
        | inr (e, y) ↦ rw (add_message, x, y) v
        | inl (text, y) ↦ elim (Bool-cases (exists (has_session_id key) db.sessions)) [
          | inr z ↦ rw (add_message, x, y, z) v
          | inl z ↦ rw (add_message, x, y, z) (IsNumbered-add _ db refl v)
        ]
      ]
    ]

delete_messages_for_session-IsNumbered :
    (s : Text) (db : Db) → IsNumbered db → IsNumbered (delete_messages_for_session s db).1
unfolding delete_messages_for_session
delete_messages_for_session-IsNumbered s db v = elim (Result-cases (non_empty_string s)) [
  | inr (e, x) ↦ rw (delete_messages_for_session, x) v
  | inl (key, x) ↦
      rw (delete_messages_for_session, x) (IsNumbered-delete (in_session key) db _ refl refl v)
]

delete_session-IsNumbered :
    (s : Text) (db : Db) → IsNumbered db → IsNumbered (delete_session s db).1
unfolding delete_session
delete_session-IsNumbered s db v = elim (Result-cases (non_empty_string s)) [
  | inr (e, x) ↦ rw (delete_session, x) v
  | inl (key, x) ↦ rw (delete_session, x) (IsNumbered-delete (in_session key) db _ refl refl v)
]

-- Every call that writes the table, whether it returns or raises, keeps the ids of the messages
-- strictly ascending in the order of insertion, and none above the last id that was given.
pub after_message_call-IsNumbered :
    (c : MessageCall) (db : Db) → IsNumbered db → IsNumbered (after_message_call c db)
unfolding after_message_call
after_message_call-IsNumbered (add now s role content actor provider metadata at) db v =
    add_message-IsNumbered now s role content actor provider metadata at db v
after_message_call-IsNumbered (clear s) db v = delete_messages_for_session-IsNumbered s db v
after_message_call-IsNumbered (drop_session s) db v = delete_session-IsNumbered s db v
