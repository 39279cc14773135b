-- ===== src/AgentLoop.antt =====
-- The agent loop (src/core/agent_loop.py): one turn of a Session with the language model. What the
-- loop is wired to is a parameter, `Wiring`: the model, the executor of tools, the handlers, the
-- authorizer, the sender of cards. A call reads the clock once.
pub mod Texts
pub mod Tools
pub mod Calls
pub mod Gate
pub mod Turn
pub mod Cancellation
pub mod Callback
mod Tests
use im_assistant.Prelude.{ℕ, Bool, Option, List, Text, Error, Result, Action}
use im_assistant.Prelude.Dict.{Dict}
use im_assistant.Instant.{Instant}
use im_assistant.Json.{Mapping}
use im_assistant.Session.{Session, Actor, SessionKind}
use im_assistant.Store.Records.{Db}
use im_assistant.Oauth.{PendingAuth}
use im_assistant.Capability.{Capability, Requirement}
use im_assistant.Capability.Credential.{CredentialContext}
use im_assistant.Capability.Authorizer.{AuthorizationResolution}

pub record ToolUseRequest : Type 0 where
  pub id : Text
  pub name : Text
  pub arguments : Mapping

pub data ConfirmSource : Type 0 where
  handler runtime_sensitivity : ConfirmSource

-- AgentLoopConsentRequired, which carries the NeedsConsent of the authorizer
pub record ConsentRequired (H : Type 0) : Type 0 where
  pub url : Text
  pub pending : PendingAuth
  pub reason : Text
  pub capability : Capability H
  pub tool_use : ToolUseRequest

-- AgentLoopConfirmRequired
pub record ConfirmRequired (H : Type 0) : Type 0 where
  pub correlation_id : Text
  pub action : Text
  pub details : Mapping
  pub capability : Capability H
  pub tool_use : ToolUseRequest
  pub source : ConfirmSource

-- What a call comes to that may suspend the turn.
pub data Outcome (H A : Type 0) : Type 0 where
  value : A → Outcome H A
  wants_consent : ConsentRequired H → Outcome H A
  wants_confirm : ConfirmRequired H → Outcome H A

-- CapabilityExecutionContext, the services left out
pub record ExecutionContext (H : Type 0) : Type 0 where
  pub session : Session
  pub capability : Capability H
  pub credentials : CredentialContext

-- The response of the model: its blocks, and their text.
pub record ToolUseResponse : Type 0 where
  pub content : List Mapping
  pub text : Text

-- `ctx.confirm`, as a handler sees it
abbrev pub Confirm : Type 0 → Type 0
Confirm H = Text → Mapping → Result (Outcome H Bool)

pub record Wiring (H : Type 0) : Type 0 where
  -- the model: a plain completion, and the request with tools, which a client need not support
  pub complete : List Mapping → Result Text
  pub create_message : Option (List Mapping → List Mapping → Result ToolUseResponse)
  -- a handler's call, its result as a text; what `ctx.confirm` raises, it may hand on
  pub call_handler : H → ExecutionContext H → Mapping → Confirm H → Action Db (Outcome H Text)
  -- the first line of a handler's docstring, if it has one
  pub doc_line : H → Option Text
  pub tool_executor : Option (Session → Text → Mapping → Action Db Text)
  pub registry : Session → Option (Dict (Capability H))
  pub channel_enabled_capabilities : Dict (List Text)
  pub authorizer : Option (
      Requirement
      → Actor
      → SessionKind
      → Option Text
      → Option Text
      → Action Db AuthorizationResolution)
  -- the card goes out, or the call raises
  pub confirm_card_sender :
      Option (Session → ConfirmRequired H → Option Text → Instant → Action Db (Unit {0}))
  -- the fresh id that is drawn for a tool use
  pub confirm_id : ToolUseRequest → Text
  -- `str(exc)`
  pub message : Error → Text
  -- `json.dumps` of an object
  pub dumps : Mapping → Text
  pub history_limit : ℕ
  pub confirm_timeout_seconds : ℕ
  pub max_tool_iterations : ℕ
  pub audited : Bool
  pub now : Instant
