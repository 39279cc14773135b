-- ===== src/Store/Records.antt =====
-- The records of src/infra/store.py and its schema. A row is kept as the record that it is read
-- back as: a JSON column as its mapping, a time as its instant.
use im_assistant.Prelude.{ℕ, Option, List, Text}
use im_assistant.Instant.{Instant}
use im_assistant.Json.{Mapping}
use im_assistant.Session.{SessionKind, SessionState, SessionLifecycle}

pub data MessageRole : Type 0 where
  system user assistant tool : MessageRole

pub data InteractionStatus : Type 0 where
  pending resolved cancelled : InteractionStatus

pub data InboundStatus : Type 0 where
  processing processed : InboundStatus

pub record SessionRecord : Type 0 where
  pub session_id : Text
  pub conversation_id : Text
  pub kind : SessionKind
  pub bot_id : Text
  pub principal_id : Text
  pub actor_id : Option Text
  pub state : SessionState
  pub lifecycle : SessionLifecycle
  pub context : Mapping
  pub created_at : Option Instant
  pub updated_at : Option Instant

pub record MessageRecord : Type 0 where
  pub message_id : ℕ
  pub session_id : Text
  pub role : MessageRole
  pub content : Text
  pub actor_id : Option Text
  pub provider_message_id : Option Text
  pub metadata : Mapping
  pub created_at : Instant

pub record InteractionRecord : Type 0 where
  pub correlation_id : Text
  pub session_id : Text
  -- a `str`, checked when the record is written
  pub kind : Text
  pub responder_id : Text
  pub expires_at : Instant
  pub payload : Mapping
  pub status : InteractionStatus
  pub resolution : Option Mapping
  pub created_at : Option Instant
  pub resolved_at : Option Instant

pub record AuthRecord : Type 0 where
  pub nonce : Text
  pub principal_id : Text
  pub actor_id : Text
  pub session_id : Text
  pub service : Text
  pub scopes : List Text
  pub expires_at : Instant
  pub created_at : Option Instant

pub record InboundRecord : Type 0 where
  pub platform : Text
  pub msg_id : Text
  pub conversation_id : Text
  pub status : InboundStatus
  pub metadata : Mapping
  pub first_seen_at : Instant
  pub processed_at : Option Instant

pub record BindingRecord : Type 0 where
  pub provider : Text
  pub external_user_id : Text
  pub principal_id : Text
  pub union_id : Option Text
  pub staff_id : Option Text
  pub display_name : Option Text
  pub metadata : Mapping
  pub created_at : Option Instant
  pub updated_at : Option Instant

pub record AuditRecord : Type 0 where
  pub audit_id : ℕ
  pub event_type : Text
  pub actor_id : Option Text
  pub principal_id : Option Text
  pub session_id : Option Text
  pub scope : Option Text
  pub action : Option Text
  pub metadata : Mapping
  pub created_at : Instant

pub record TokenRecord : Type 0 where
  pub principal_id : Text
  pub service : Text
  pub access_token_ciphertext : Text
  pub refresh_token_ciphertext : Option Text
  pub scopes : List Text
  pub expires_at : Option Instant
  pub created_at : Option Instant
  pub updated_at : Option Instant

-- The tables, and the last ids that the two AUTOINCREMENT columns have given.
pub record Db : Type 0 where
  pub sessions : List SessionRecord
  pub messages : List MessageRecord
  pub interactions : List InteractionRecord
  pub auths : List AuthRecord
  pub inbound : List InboundRecord
  pub bindings : List BindingRecord
  pub audit_log : List AuditRecord
  pub tokens : List TokenRecord
  pub last_message : ℕ
  pub last_audit : ℕ
