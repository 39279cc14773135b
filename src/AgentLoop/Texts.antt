-- ===== src/AgentLoop/Texts.antt =====
-- The replies, payloads and metadata that the agent loop writes (src/core/agent_loop.py).
use im_assistant.Prelude.{
  Bool, true, Option, none, some, List, [], ◌∷◌, ◌++◌, Text, codes, is_empty, ◌==◌, ltb, Result, ok,
  err, bind, loop_state_error, non_empty_string, if◌then◌else◌,
}
use im_assistant.Instant.{Instant}
use im_assistant.Json.{
  Value, boolean, text, array, object, Items, nil, Mapping, empty, entry, get, set,
}
use im_assistant.Json.Plain.{plain_object}
use im_assistant.Session.{Session, SessionKind, dm, group, PrincipalKind}
use im_assistant.Store.Records.{SessionRecord, InteractionRecord}
use im_assistant.Audit.{texts, stripped_text}
use im_assistant.Oauth.{without_prefix}
use im_assistant.Capability.{Capability}
use im_assistant.Capability.Authorizer.{mode_text}
use im_assistant.AgentLoop.{
  ToolUseRequest, ConfirmSource, handler, runtime_sensitivity, ConsentRequired, ConfirmRequired,
}

-- `"、".join(parts)`
unfoldable pub join_scopes : List Text → Text
join_scopes [] = []
join_scopes (s ∷ []) = s
join_scopes (s ∷ t ∷ rest) = s ++ codes "、" ++ join_scopes (t ∷ rest)

abbrev scopes_or : List Text → Text → Text
scopes_or [] service = service
scopes_or (s ∷ ss) service = join_scopes (s ∷ ss)

abbrev with_sensitivity : ConfirmSource → Text → Mapping → Mapping
with_sensitivity handler sensitivity m = m
with_sensitivity runtime_sensitivity sensitivity m =
    set (codes "sensitivity") (text sensitivity)
      (set (codes "confirm_source") (text (codes "runtime_sensitivity")) m)

module _ {H : Type 0} where
  -- `_consent_reply_text`
  unfoldable pub consent_reply_text : ConsentRequired H → Text
  consent_reply_text c =
      codes "需要你授权 "
      ++ c.pending.service
      ++ codes "（"
      ++ scopes_or c.pending.scopes c.pending.service
      ++ codes "）后我才能继续。请打开链接完成授权："
      ++ c.url

  -- `_consent_interrupt_payload`
  unfoldable pub consent_interrupt_payload : ConsentRequired H → Mapping
  consent_interrupt_payload c = entry (codes "capability") (text c.capability.name) (
      entry (codes "tool_use_id") (text c.tool_use.id) (
        entry (codes "service") (text c.pending.service) (
          entry (codes "scopes") (array (texts c.pending.scopes))
            (entry (codes "url") (text c.url) (entry (codes "reason") (text c.reason) empty)))))

  -- `_confirm_reply_text`
  unfoldable pub confirm_reply_text : ConfirmRequired H → Text
  confirm_reply_text c = codes "请在钉钉确认卡片中确认是否执行：" ++ c.action

  -- `_confirm_interrupt_payload`
  unfoldable pub confirm_interrupt_payload : Session → ConfirmRequired H → Result Mapping
  confirm_interrupt_payload session c = bind (plain_object c.tool_use.arguments) λ arguments. ok (
      with_sensitivity c.source c.capability.sensitivity (
        entry (codes "capability") (text c.capability.name) (
          entry (codes "tool_use_id") (text c.tool_use.id) (
            entry (codes "arguments") (object arguments) (
              entry (codes "action") (text c.action) (
                entry (codes "details") (object c.details)
                  (entry (codes "session_id") (text session.session_id) empty)))))))

  -- The metadata of the reply that a suspended turn leaves.
  unfoldable pub consent_metadata : ConsentRequired H → Text → Mapping
  consent_metadata c expires_at = entry (codes "status") (text (codes "awaiting_interaction")) (
      entry (codes "kind") (text (codes "consent")) (
        entry (codes "capability") (text c.capability.name) (
          entry (codes "tool_use_id") (text c.tool_use.id) (
            entry (codes "service") (text c.pending.service) (
              entry (codes "scopes") (array (texts c.pending.scopes)) (
                entry (codes "pending_nonce") (text c.pending.nonce) (
                  entry (codes "expires_at") (text expires_at)
                    (entry (codes "reason") (text c.reason) empty))))))))

  unfoldable pub confirm_metadata : ConfirmRequired H → Text → Mapping
  confirm_metadata c expires_at = entry (codes "status") (text (codes "awaiting_interaction")) (
      entry (codes "kind") (text (codes "confirm")) (
        entry (codes "capability") (text c.capability.name) (
          entry (codes "tool_use_id") (text c.tool_use.id) (
            entry (codes "correlation_id") (text c.correlation_id) (
              entry (codes "action") (text c.action) (
                entry (codes "details") (object c.details)
                  (entry (codes "expires_at") (text expires_at) empty)))))))

  -- `_requires_runtime_confirm`; a capability's sensitivity is in lower case
  unfoldable pub requires_runtime_confirm : Capability H → Bool
  requires_runtime_confirm c = c.sensitivity == codes "high"

  -- `_runtime_confirm_action` and `_runtime_confirm_details`
  unfoldable pub runtime_confirm_action : Capability H → Text
  runtime_confirm_action c = codes "执行高敏感能力：" ++ c.name

  unfoldable pub runtime_confirm_details : Session → Capability H → ToolUseRequest → Result Mapping
  runtime_confirm_details session c tool_use = bind (plain_object tool_use.arguments) λ arguments.
      ok (
        entry (codes "capability") (text c.name) (
          entry (codes "sensitivity") (text c.sensitivity) (
            entry (codes "session_kind") (text (mode_text session.kind))
              (entry (codes "arguments") (object arguments) empty))))

-- InteractionCancellationReason
pub data CancellationReason : Type 0 where
  superseded_by_new_message timeout command_cancelled : CancellationReason

abbrev pub reason_text : CancellationReason → Text
reason_text superseded_by_new_message = codes "superseded_by_new_message"
reason_text timeout = codes "timeout"
reason_text command_cancelled = codes "command_cancelled"

-- `_effective_cancellation_reason`
unfoldable pub effective_cancellation_reason :
    InteractionRecord → CancellationReason → Instant → CancellationReason
effective_cancellation_reason pending timeout now = timeout
effective_cancellation_reason pending requested now =
    if ltb pending.expires_at now then timeout else requested

-- `_runtime_responder`
unfoldable pub runtime_responder : CancellationReason → InteractionRecord → Text
runtime_responder timeout pending = codes "runtime:timeout"
runtime_responder _ pending = pending.responder_id

abbrev with_text : Text → Option Text → Mapping → Result Mapping
with_text key none m = ok m
with_text key (some s) m = bind (non_empty_string s) λ t. ok (set key (text t) m)

-- `_cancellation_resolution_payload`
unfoldable pub cancellation_resolution_payload :
    CancellationReason → Option Text → Option Text → Result Mapping
cancellation_resolution_payload reason actor_id provider_message_id =
    bind
      (with_text (codes "actor_id") actor_id (
        entry (codes "cancelled") (boolean true)
          (entry (codes "reason") (text (reason_text reason)) empty)))
      λ m. with_text (codes "provider_message_id") provider_message_id m

abbrev first_text : Option Text → Option Text → Text → Text
first_text (some s) other default = s
first_text none (some s) default = s
first_text none none default = default

-- `_pending_action_label`, `_pending_service_label` and `_pending_capability_name`
unfoldable pub pending_action_label : InteractionRecord → Text
pending_action_label r =
    first_text (stripped_text (get (codes "action") r.payload))
      (stripped_text (get (codes "capability") r.payload)) (codes "该操作")

unfoldable pub pending_service_label : InteractionRecord → Text
pending_service_label r =
    first_text (stripped_text (get (codes "service") r.payload))
      (stripped_text (get (codes "capability") r.payload)) (codes "授权")

unfoldable pub pending_capability_name : InteractionRecord → Option Text
pending_capability_name r = stripped_text (get (codes "capability") r.payload)

abbrev confirm_notice : CancellationReason → Text
confirm_notice timeout = codes "已取消:确认超时，["
confirm_notice command_cancelled = codes "已取消:用户主动取消，["
confirm_notice superseded_by_new_message = codes "已取消:未确认，["

abbrev consent_notice : CancellationReason → Text
consent_notice timeout = codes "已取消:授权超时，["
consent_notice command_cancelled = codes "已取消:用户主动取消，["
consent_notice superseded_by_new_message = codes "已取消:未完成授权，["

-- `_cancellation_notice_text`
unfoldable pub cancellation_notice_text : InteractionRecord → CancellationReason → Result Text
unfolding pending_action_label pending_service_label
cancellation_notice_text r reason =
    if r.kind == codes "confirm"
    then ok (confirm_notice reason ++ pending_action_label r ++ codes "] 未执行。")
    else if r.kind == codes "consent"
    then ok (consent_notice reason ++ pending_service_label r ++ codes "] 授权未完成。")
    else err loop_state_error

abbrev object_or_empty : Option Value → Result Mapping
object_or_empty (some (object m)) = plain_object m
object_or_empty _ = ok empty

abbrev items_or_nil : Option Value → Items
items_or_nil (some (array xs)) = xs
items_or_nil _ = nil

-- What `_cancelled_tool_result_text` prints.
unfoldable pub cancelled_tool_result : InteractionRecord → CancellationReason → Result Mapping
unfolding pending_action_label pending_service_label
cancelled_tool_result r reason =
    let common = entry (codes "status") (text (codes "Cancelled")) (
      entry (codes "kind") (text r.kind) (
        entry (codes "reason") (text (reason_text reason))
          (entry (codes "correlation_id") (text r.correlation_id) empty))) in
    if r.kind == codes "confirm"
    then (bind (object_or_empty (get (codes "details") r.payload)) λ details. ok (
        set (codes "details") (object details)
          (set (codes "action") (text (pending_action_label r)) common)))
    else if r.kind == codes "consent"
    then ok (
        set (codes "scopes") (array (items_or_nil (get (codes "scopes") r.payload)))
          (set (codes "service") (text (pending_service_label r)) common))
    else ok common

-- `_bot_identity`, `_principal` and `_actor`
abbrev principal_kind : SessionKind → PrincipalKind
principal_kind dm = PrincipalKind.user
principal_kind group = PrincipalKind.group

unfoldable pub loaded_session : Text → SessionRecord → Result Session
loaded_session actor_id r = bind (non_empty_string r.bot_id) λ bot.
    bind (non_empty_string r.principal_id) λ principal. bind (non_empty_string actor_id) λ actor.
      ok (record {
        session_id = r.session_id;
        conversation_id = r.conversation_id;
        kind = r.kind;
        bot = record { id = bot };
        principal = record { kind = principal_kind r.kind; id = principal };
        actor = record { id = actor; display_name = actor };
        context = r.context;
        state = r.state;
        lifecycle = r.lifecycle;
        created_at = r.created_at;
        updated_at = r.updated_at;
      })

-- `s.removeprefix("user:")`
abbrev without_user : Text → Option Text → Text
without_user whole none = whole
without_user whole (some rest) = rest

abbrev actor_or_principal : Option Text → Text → Text
actor_or_principal none principal =
    without_user principal (without_prefix (codes "user:") principal)
actor_or_principal (some s) principal =
    if is_empty s then without_user principal (without_prefix (codes "user:") principal) else s

-- `_session_from_record`
unfoldable pub session_from_record : SessionRecord → Result Session
session_from_record r = loaded_session (actor_or_principal r.actor_id r.principal_id) r
