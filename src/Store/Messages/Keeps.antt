-- ===== src/Store/Messages/Keeps.antt =====
-- `add_message` (src/infra/store.py) writes no table but its own.
use im_assistant.Prelude.{
  ◌≡◌, refl, ap, ◌∙◌, inl, inr, Option, Text, non_empty_string, exists, Result-cases, Bool-cases,
}
use im_assistant.Instant.{Instant}
use im_assistant.Json.{Mapping}
use im_assistant.Store.Records.{Db, MessageRole}
use im_assistant.Store.Sessions.{has_session_id}
use im_assistant.Store.Messages.{add_message}

-- From `db` to `db'` only messages were written.
abbrev pub OnlyMessages : Db → Db → Type 0
OnlyMessages db db' = db' ≡ record db { messages = db'.messages; last_message = db'.last_message }

pub OnlyMessages-then : (a b c : Db) → OnlyMessages a b → OnlyMessages b c → OnlyMessages a c
OnlyMessages-then a b c p q =
    q ∙ ap (λ (x : Db). record x { messages = c.messages; last_message = c.last_message }) p

pub add_message-OnlyMessages :
    (now : Instant) (s : Text) (role : MessageRole) (content : Text) (actor provider : Option Text)
    (metadata : Mapping) (at : Option Instant) (db : Db)
    → OnlyMessages db (add_message now s role content actor provider metadata at db).1
unfolding add_message
add_message-OnlyMessages now s role content actor provider metadata at db =
    elim (Result-cases (non_empty_string s)) [
      | inr (e, x) ↦ rw x refl
      | inl (key, x) ↦ elim (Result-cases (non_empty_string content)) [
        | inr (e, y) ↦ rw (x, y) refl
        | inl (text, y) ↦ elim (Bool-cases (exists (has_session_id key) db.sessions)) [
          | inr z ↦ rw (x, y, z) refl
          | inl z ↦ rw (x, y, z) refl
        ]
      ]
    ]
