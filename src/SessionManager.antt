-- ===== src/SessionManager.antt =====
-- One persistent Session per conversation (src/core/session_manager.py).
pub mod Rows
pub mod Activation
pub mod Persistence
pub mod Calls
mod Tests
use im_assistant.Prelude.{
  ℕ, Bool, true, false, not, ◌&&◌, Option, none, some, ◌++◌, Text, codes, eqb, Result, ok, err,
  bind, value_error, Action, lift, pure, ◌>>=◌, non_empty_string, if◌then◌else◌,
}
use im_assistant.Instant.{Instant}
use im_assistant.Json.{text, number, boolean, Mapping, empty, entry, get, merge, truthy_opt}
use im_assistant.Session.{
  SessionKind, PrincipalKind, SessionState, SessionLifecycle, Session, Actor, is_group,
}
use im_assistant.Store.Records.{SessionRecord, Db}
use im_assistant.Store.Sessions.{get_session_by_conversation_id, upsert_session}

pub record SessionEvent : Type 0 where
  pub sender_staff_id : Text
  pub sender_nick : Text
  pub conversation_type : ℕ
  pub conversation_id : Text
  pub open_conversation_id : Text
  pub msg_id : Text

pub record SessionRouteResult : Type 0 where
  pub session : Session
  pub created : Bool
  pub should_send_welcome : Bool

abbrev pub dingtalk_platform : Text
dingtalk_platform = codes "dingtalk"

-- `_kind_from_conversation_type`
unfoldable pub kind_from_conversation_type : ℕ → Result SessionKind
kind_from_conversation_type n =
    if eqb n 1 then ok SessionKind.dm else if eqb n 2 then ok SessionKind.group else err value_error

-- `_actor_from_event`
unfoldable pub actor_from_event : SessionEvent → Result Actor
actor_from_event e =
    bind (non_empty_string e.sender_staff_id) λ id.
      bind (non_empty_string e.sender_nick) λ nick. ok (record { id = id; display_name = nick })

abbrev kind_text : SessionKind → Text
kind_text SessionKind.dm = codes "dm"
kind_text SessionKind.group = codes "group"

-- `_session_id`
unfoldable pub session_id : SessionKind → Text → Result Text
session_id kind conversation_id =
    bind (non_empty_string conversation_id)
      λ c. ok (dingtalk_platform ++ codes ":" ++ kind_text kind ++ codes ":" ++ c)

-- `_principal_id`
unfoldable pub principal_id : SessionKind → SessionEvent → Result Text
principal_id SessionKind.dm e =
    bind (non_empty_string e.sender_staff_id) λ s. ok (codes "user:" ++ s)
principal_id SessionKind.group e =
    bind (non_empty_string e.open_conversation_id) λ c. ok (codes "group:" ++ c)

-- `_base_context`
unfoldable pub base_context : SessionEvent → Actor → Result Mapping
base_context e actor = bind (non_empty_string e.open_conversation_id) λ open_id. ok (
    entry (codes "platform") (text dingtalk_platform) (
      entry (codes "conversation_type") (number e.conversation_type) (
        entry (codes "open_conversation_id") (text open_id)
          (entry (codes "last_actor_nick") (text actor.display_name) empty))))

abbrev pub activated_key : Text
activated_key = codes "activated"

-- `bool(context.get("activated"))`
abbrev pub is_activated : Mapping → Bool
is_activated context = truthy_opt (get activated_key context)

-- The three keys that a group's first message sets.
unfoldable pub activation : SessionEvent → Actor → Result Mapping
activation e actor = bind (non_empty_string e.msg_id) λ msg. ok (
    entry activated_key (boolean true) (
      entry (codes "activated_by") (text actor.id)
        (entry (codes "activation_msg_id") (text msg) empty)))

abbrev pub with_activation : Bool → SessionEvent → Actor → Mapping → Result Mapping
with_activation false e actor context = ok context
with_activation true e actor context = bind (activation e actor) λ a. ok (merge context a)

-- `_new_context`
unfoldable pub new_context : SessionKind → SessionEvent → Actor → Result Mapping
new_context kind e actor =
    bind (base_context e actor) λ context. with_activation (is_group kind) e actor context

-- `_updated_context`
unfoldable pub updated_context : Mapping → SessionKind → SessionEvent → Actor → Result Mapping
updated_context context kind e actor = bind (base_context e actor) λ base.
    let updated = merge context base in
    with_activation (is_group kind && not (is_activated updated)) e actor updated

abbrev principal_kind : SessionKind → PrincipalKind
principal_kind SessionKind.dm = PrincipalKind.user
principal_kind SessionKind.group = PrincipalKind.group

-- `_record_to_session`
unfoldable pub record_to_session : SessionRecord → Actor → Session
record_to_session r actor = record {
  session_id = r.session_id;
  conversation_id = r.conversation_id;
  kind = r.kind;
  bot = record { id = r.bot_id };
  principal = record { kind = principal_kind r.kind; id = r.principal_id };
  actor = actor;
  context = r.context;
  state = r.state;
  lifecycle = r.lifecycle;
  created_at = r.created_at;
  updated_at = r.updated_at;
}

-- The record of a conversation's first message.
unfoldable pub first_record : Text → SessionKind → SessionEvent → Actor → Result SessionRecord
first_record bot_id kind e actor = bind (session_id kind e.conversation_id) λ id.
    bind (non_empty_string e.conversation_id) λ conversation.
      bind (principal_id kind e) λ principal. bind (new_context kind e actor) λ context.
        ok (record {
          session_id = id;
          conversation_id = conversation;
          kind = kind;
          bot_id = bot_id;
          principal_id = principal;
          actor_id = some actor.id;
          state = SessionState.idle;
          lifecycle = SessionLifecycle.active;
          context = context;
          created_at = none;
          updated_at = none;
        })

unfoldable pub create_session :
    Instant → Text → SessionKind → SessionEvent → Actor → Action Db SessionRouteResult
create_session now bot_id kind e actor = do
  r ← lift (first_record bot_id kind e actor)
  stored ← upsert_session now r
  pure (record {
    session = record_to_session stored actor;
    created = true;
    should_send_welcome = is_group kind;
  })

unfoldable pub update_session :
    Instant → SessionKind → SessionEvent → Actor → SessionRecord → Action Db SessionRouteResult
update_session now kind e actor existing = do
  context ← lift (updated_context existing.context kind e actor)
  stored ← upsert_session now (record existing { actor_id = some actor.id; context = context })
  pure (record {
    session = record_to_session stored actor;
    created = false;
    should_send_welcome = is_group kind && not (is_activated existing.context);
  })

abbrev pub create_or_update :
    Instant
    → Text
    → SessionKind
    → SessionEvent
    → Actor
    → Option SessionRecord
    → Action Db SessionRouteResult
create_or_update now bot_id kind e actor none = create_session now bot_id kind e actor
create_or_update now bot_id kind e actor (some existing) = update_session now kind e actor existing

unfoldable pub get_or_create_for_event :
    Instant → Text → SessionEvent → Action Db SessionRouteResult
get_or_create_for_event now bot_id e = do
  kind ← lift (kind_from_conversation_type e.conversation_type)
  actor ← lift (actor_from_event e)
  existing ← get_session_by_conversation_id e.conversation_id
  create_or_update now bot_id kind e actor existing
