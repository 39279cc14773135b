-- ===== src/Builtin.antt =====
-- The built-in slash commands (src/core/builtin_commands.py): what their handlers do. The services
-- that a handler is wired to are a record; the scheduler of timeouts, which only starts a timer, is
-- left out.
pub mod Texts
pub mod Reset
pub mod Revoked
mod Tests
use im_assistant.Prelude.{
  ℕ, Bool, true, false, ◌&&◌, Option, none, some, List, [], ◌∷◌, ◌++◌, map, Text, codes, strip,
  lower, is_empty, ◌==◌, member, is_some, Result, ok, err, bind, Action, value_error, index_error,
  runtime_error, lift, pure, raise, ◌>>=◌, optional_string, if◌then◌else◌,
}
use im_assistant.Prelude.Dict.{Dict}
use im_assistant.Instant.{Instant}
use im_assistant.Json.{Mapping, empty, entry}
use im_assistant.Session.{Session, Actor, SessionKind, idle}
use im_assistant.Store.Records.{Db, InteractionRecord}
use im_assistant.Store.Auths.{from_keys}
use im_assistant.Store.Sessions.{upsert_session}
use im_assistant.Store.Messages.{delete_messages_for_session}
use im_assistant.Store.Bindings.{get_identity_binding}
use im_assistant.Store.Interactions.{get_pending_interaction_for_session}
use im_assistant.Interrupt.{InterruptKind}
use im_assistant.Interrupt.Manager.{session_record_with_state, create}
use im_assistant.TokenVault.{Cipher, get_user_token, revoke}
use im_assistant.Command.{Command, CommandRole}
use im_assistant.Command.Registry.{list_available_commands}
use im_assistant.Command.Dispatch.{CommandContext}
use im_assistant.Capability.{Capability, Requirement, requirement}
use im_assistant.Capability.Registry.{CapabilityChannelContext, can_use, list_capabilities}
use im_assistant.Capability.Authorizer.{AuthorizationResolution, granted, needs_consent, denied}
use im_assistant.AgentLoop.{Wiring}
use im_assistant.AgentLoop.Texts.{command_cancelled}
use im_assistant.AgentLoop.Tools.{channel_context_for_session}
use im_assistant.AgentLoop.Cancellation.{
  InteractionCancellationResult, cancel_pending_interaction_for_session,
}
use im_assistant.Builtin.Texts.{
  reset_reply, no_pending_reply, no_service_reply, connect_granted_reply, connect_denied_reply,
  disconnect_reply, connect_reply_text, connect_consent_payload, identity_binding_line, join_lines,
  token_status_line, format_command_list, format_capability_list, user_line, session_line,
}

pub data BuiltinCommand : Type 0 where
  help reset whoami connect disconnect cancel : BuiltinCommand

-- The keys of a context that outlive a reset.
abbrev pub operational_context_keys : List Text
operational_context_keys =
    codes "platform"
    ∷ codes "conversation_type"
    ∷ codes "open_conversation_id"
    ∷ codes "last_actor_nick"
    ∷ codes "activated"
    ∷ codes "activated_by"
    ∷ codes "activation_msg_id"
    ∷ codes "channel_admin_ids"
    ∷ codes "org_admin_ids"
    ∷ codes "actor_roles"
    ∷ codes "actor_union_id"
    ∷ []

-- `_reset_context`
unfoldable pub reset_context : Mapping → Mapping
reset_context empty = empty
reset_context (entry k v m) =
    let rest = reset_context m in if member k operational_context_keys then entry k v rest else rest

-- `_normalize_service`
unfoldable pub normalize_service : Text → Result Text
normalize_service service =
    let s = lower (strip service) in if is_empty s then err value_error else ok s

abbrev is_actor : Option Text → Bool
is_actor none = false
is_actor (some s) = s == codes "actor"

-- The services of the requirements on the actor's behalf, repetitions included.
unfoldable pub actor_services : List Requirement → List Text
actor_services [] = []
actor_services (r ∷ rs) =
    let rest = actor_services rs in if is_actor r.on_behalf_of then r.service ∷ rest else rest

-- The scopes that they ask of one service.
unfoldable pub actor_scopes : Text → List Requirement → List Text
actor_scopes service [] = []
actor_scopes service (r ∷ rs) =
    let rest = actor_scopes service rs in
    if is_actor r.on_behalf_of && r.service == service then r.scopes ++ rest else rest

module _ {H : Type 0} where
  unfoldable pub all_requirements : List (Capability H) → List Requirement
  all_requirements [] = []
  all_requirements (c ∷ cs) = c.requires ++ all_requirements cs

  unfoldable pub with_handler :
      Session → Option CapabilityChannelContext → List (Capability H) → Result (List (Capability H))
  with_handler session channel [] = ok []
  with_handler session channel (c ∷ cs) =
      bind (if is_some c.handler then can_use c session.kind session.actor channel else ok false)
        λ seen. bind (with_handler session channel cs) λ rest. ok (if seen then c ∷ rest else rest)

pub record TokenVault : Type 0 where
  pub cipher : Cipher
  pub skew : ℕ

-- BuiltinCommandServices
pub record BuiltinCommandServices (H E : Type 0) : Type 0 where
  pub capability_registry : Session → Option (Dict (Capability H))
  pub channel_enabled_capabilities : Dict (List Text)
  pub token_vault : Option TokenVault
  pub authorizer : Option (
      Requirement
      → Actor
      → SessionKind
      → Option Text
      → Option Text
      → Action Db AuthorizationResolution)
  pub has_interrupt_manager : Bool
  pub interaction_canceller : Option (Wiring H)
  -- the `msg_id` of an event
  pub msg_id : E → Option Text
  pub now : Instant

-- `_obo_requirement_for_service`, of the requirements that are seen
unfoldable pub obo_requirement_for_service : List Requirement → Text → Result (Option Requirement)
unfolding actor_scopes
obo_requirement_for_service rs service = elim (from_keys [] (actor_scopes service rs)) [
  | [] ↦ ok none
  | s ∷ ss ↦ bind (requirement service (s ∷ ss) (some (codes "actor"))) λ r. ok (some r)
]

-- `args[0]`
abbrev pub first_arg : List Text → Result Text
first_arg [] = err index_error
first_arg (a ∷ rest) = ok a

module _ {H E : Type 0} (x : BuiltinCommandServices H E) where
  -- `_visible_capabilities`
  unfoldable pub seen_capabilities : Session → Result (List (Capability H))
  unfolding with_handler
  seen_capabilities session = elim (x.capability_registry session) [
    | none ↦ ok []
    | some registry ↦
        bind (channel_context_for_session session x.channel_enabled_capabilities)
          λ channel. with_handler session channel (list_capabilities registry)
  ]

  -- `_reset_handler`
  unfoldable pub reset_handler : CommandContext BuiltinCommand E → Action Db Text
  unfolding reset_context
  reset_handler context = do
    count ← delete_messages_for_session context.session.session_id
    _ ←
        upsert_session x.now
          (session_record_with_state context.session idle (reset_context context.session.context))
    pure (reset_reply count)

  unfoldable pub token_lines : TokenVault → Session → List Text → Action Db (List Text)
  token_lines v session [] = pure []
  token_lines v session (s ∷ ss) = do
    token ← get_user_token v.cipher v.skew x.now session.principal.id s
    rest ← token_lines v session ss
    pure (token_status_line s token ∷ rest)

  -- `_authorization_status_lines`
  unfoldable pub authorization_status_lines : Session → List Text → Action Db (List Text)
  unfolding token_lines
  authorization_status_lines session [] = pure (codes "授权状态: 当前没有需要用户授权的可用能力" ∷ [])
  authorization_status_lines session (s ∷ ss) = elim x.token_vault [
    | none ↦ pure (codes "授权状态: TokenVault 未配置" ∷ [])
    | some v ↦ do lines ← token_lines v session (s ∷ ss); pure (codes "授权状态:" ∷ lines)
  ]

  -- `_whoami_handler`
  unfoldable pub whoami_handler : CommandContext BuiltinCommand E → Action Db Text
  unfolding seen_capabilities authorization_status_lines
  whoami_handler context = do
    binding ← get_identity_binding (codes "dingtalk") context.session.actor.id
    seen ← lift (seen_capabilities context.session)
    lines ←
        authorization_status_lines context.session
          (from_keys [] (actor_services (all_requirements seen)))
    pure (
        join_lines (
          user_line context.session.actor
          ∷ session_line context.session
          ∷ identity_binding_line binding
          ∷ lines))

  abbrev pub on_resolution :
      CommandContext BuiltinCommand E → Text → AuthorizationResolution → Action Db Text
  on_resolution context service (granted h) = pure (connect_granted_reply service)
  on_resolution context service (denied reason) = pure (connect_denied_reply service reason)
  on_resolution context service (needs_consent url pending reason) = do
    _ ←
        create x.now context.session InterruptKind.consent
          (connect_consent_payload url pending reason) pending.nonce (some context.session.actor.id)
          (some pending.expires_at) 1800
    pure (connect_reply_text url pending)

  abbrev authorize_with :
      Option (
        Requirement
        → Actor
        → SessionKind
        → Option Text
        → Option Text
        → Action Db AuthorizationResolution)
      → Bool
      → CommandContext BuiltinCommand E
      → Text
      → Requirement
      → Action Db Text
  authorize_with (some authorize) true context service r = do
    resolution ←
        authorize r context.session.actor context.session.kind (some context.session.principal.id)
          (some context.session.session_id)
    on_resolution context service resolution
  authorize_with _ _ context service r = raise runtime_error

  -- `_connect_handler`
  unfoldable pub connect_handler : CommandContext BuiltinCommand E → Action Db Text
  unfolding seen_capabilities
  connect_handler context = do
    arg ← lift (first_arg context.args)
    service ← lift (normalize_service arg)
    seen ← lift (seen_capabilities context.session)
    wanted ← lift (obo_requirement_for_service (all_requirements seen) service)
    elim wanted [
      | none ↦ pure (no_service_reply service)
      | some r ↦ authorize_with x.authorizer x.has_interrupt_manager context service r
    ]

  -- `_disconnect_handler`
  unfoldable pub disconnect_handler : CommandContext BuiltinCommand E → Action Db Text
  disconnect_handler context = elim x.token_vault [
    | none ↦ raise runtime_error
    | some v ↦ do
      arg ← lift (first_arg context.args)
      service ← lift (normalize_service arg)
      removed ← revoke v.cipher v.skew context.session.principal.id service
      pure (disconnect_reply removed service)
  ]

  abbrev cancellation_text : Option InteractionCancellationResult → Text
  cancellation_text none = no_pending_reply
  cancellation_text (some result) = result.notice_text

  abbrev cancel_found :
      Wiring H → CommandContext BuiltinCommand E → Option InteractionRecord → Action Db Text
  cancel_found w context none = pure no_pending_reply
  cancel_found w context (some r) = do
    result ←
        cancel_pending_interaction_for_session w context.session command_cancelled
          (some context.session.actor.id) (optional_string (x.msg_id context.event))
    pure (cancellation_text result)

  -- `_cancel_handler`
  unfoldable pub cancel_handler : CommandContext BuiltinCommand E → Action Db Text
  cancel_handler context = elim x.interaction_canceller [
    | none ↦ raise runtime_error
    | some w ↦ do
      found ← get_pending_interaction_for_session context.session.session_id
      cancel_found w context found
  ]

  -- `_help_handler`; the registry is the one that dispatches
  unfoldable pub help_handler :
      (Session → Actor → List CommandRole)
      → Dict (Command BuiltinCommand)
      → CommandContext BuiltinCommand E
      → Action Db Text
  unfolding seen_capabilities
  help_handler roles_for_actor registry context = do
    seen ← lift (seen_capabilities context.session)
    pure (
        join_lines (
          codes "可用指令:"
          ∷ format_command_list (list_available_commands roles_for_actor context.session registry)
          ∷ codes "可用能力:"
          ∷ format_capability_list seen
          ∷ []))

  -- The handler that each built-in command is registered with.
  unfoldable pub builtin_call :
      (Session → Actor → List CommandRole)
      → Dict (Command BuiltinCommand)
      → BuiltinCommand
      → CommandContext BuiltinCommand E
      → Action Db (Option Text)
  unfolding help_handler reset_handler whoami_handler connect_handler disconnect_handler
      cancel_handler
  builtin_call roles_for_actor registry help context = do
    reply ← help_handler roles_for_actor registry context
    pure (some reply)
  builtin_call roles_for_actor registry reset context = do
    reply ← reset_handler context
    pure (some reply)
  builtin_call roles_for_actor registry whoami context = do
    reply ← whoami_handler context
    pure (some reply)
  builtin_call roles_for_actor registry connect context = do
    reply ← connect_handler context
    pure (some reply)
  builtin_call roles_for_actor registry disconnect context = do
    reply ← disconnect_handler context
    pure (some reply)
  builtin_call roles_for_actor registry cancel context = do
    reply ← cancel_handler context
    pure (some reply)
