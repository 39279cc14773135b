-- ===== src/Session.antt =====
-- The domain objects of a conversation (src/core/session.py). The `Literal` types are enums, and
-- no other value is given to them.
use im_assistant.Prelude.{Bool, true, false, Option, Text}
use im_assistant.Instant.{Instant}
use im_assistant.Json.{Mapping}

pub data SessionKind : Type 0 where
  dm group : SessionKind

pub data SessionState : Type 0 where
  idle running_agent awaiting_interaction : SessionState

pub data SessionLifecycle : Type 0 where
  active archived : SessionLifecycle

pub data PrincipalKind : Type 0 where
  user group : PrincipalKind

pub record BotIdentity : Type 0 where
  pub id : Text

pub record Principal : Type 0 where
  pub kind : PrincipalKind
  pub id : Text

pub record Actor : Type 0 where
  pub id : Text
  pub display_name : Text

pub record Session : Type 0 where
  pub session_id : Text
  pub conversation_id : Text
  pub kind : SessionKind
  pub bot : BotIdentity
  pub principal : Principal
  pub actor : Actor
  pub context : Mapping
  pub state : SessionState
  pub lifecycle : SessionLifecycle
  pub created_at : Option Instant
  pub updated_at : Option Instant

-- `kind == "group"`
abbrev pub is_group : SessionKind → Bool
is_group SessionKind.dm = false
is_group SessionKind.group = true
