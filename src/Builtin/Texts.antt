-- ===== src/Builtin/Texts.antt =====
-- The replies of the built-in commands (src/core/builtin_commands.py).
use im_assistant.Prelude.{
  ℕ, Bool, true, false, Option, none, some, List, [], ◌∷◌, ◌++◌, Text, codes, is_empty,
  if◌then◌else◌,
}
use im_assistant.Instant.{Instant, isoformat}
use im_assistant.Json.{text, array, Mapping, empty, entry}
use im_assistant.Session.{Session, Actor}
use im_assistant.Store.Records.{BindingRecord}
use im_assistant.Audit.{texts}
use im_assistant.TokenVault.{UserToken}
use im_assistant.Oauth.{PendingAuth}
use im_assistant.Command.{Command, decimal}
use im_assistant.Capability.{Capability}
use im_assistant.Capability.Authorizer.{mode_text}
use im_assistant.AgentLoop.Texts.{join_scopes}

-- `"\n".join(lines)` and `"; ".join(parts)`
unfoldable pub join_with : Text → List Text → Text
join_with separator [] = []
join_with separator (s ∷ []) = s
join_with separator (s ∷ t ∷ rest) = s ++ separator ++ join_with separator (t ∷ rest)

abbrev pub join_lines : List Text → Text
join_lines = join_with (b'\n' ∷ [])

unfoldable pub reset_reply : ℕ → Text
reset_reply count = codes "已重置当前会话，上下文消息已清空（" ++ decimal count ++ codes " 条）。"

abbrev pub no_pending_reply : Text
no_pending_reply = codes "当前没有等待中的确认或授权。"

unfoldable pub no_service_reply : Text → Text
no_service_reply service = codes "未找到需要 " ++ service ++ codes " 用户授权的可用能力。"

unfoldable pub connect_granted_reply : Text → Text
connect_granted_reply service = codes "已连接 " ++ service ++ codes "，无需重新授权。"

unfoldable pub connect_denied_reply : Text → Text → Text
connect_denied_reply service reason = codes "无法连接 " ++ service ++ codes ": " ++ reason

unfoldable pub disconnect_reply : Bool → Text → Text
disconnect_reply true service = codes "已断开 " ++ service ++ codes " 授权。"
disconnect_reply false service = codes "当前没有 " ++ service ++ codes " 授权。"

abbrev scopes_or : List Text → Text → Text
scopes_or [] default = default
scopes_or (s ∷ ss) default = join_scopes (s ∷ ss)

-- `_consent_reply_text`
unfoldable pub connect_reply_text : Text → PendingAuth → Text
connect_reply_text url p =
    codes "需要你授权 "
    ++ p.service
    ++ codes "（"
    ++ scopes_or p.scopes p.service
    ++ codes "）。请打开链接完成授权："
    ++ url

-- `_connect_consent_payload`
unfoldable pub connect_consent_payload : Text → PendingAuth → Text → Mapping
connect_consent_payload url p reason = entry (codes "source") (text (codes "command")) (
    entry (codes "command") (text (codes "/connect")) (
      entry (codes "service") (text p.service) (
        entry (codes "scopes") (array (texts p.scopes))
          (entry (codes "url") (text url) (entry (codes "reason") (text reason) empty)))))

unfoldable pub user_line : Actor → Text
user_line a = codes "当前用户: " ++ a.display_name ++ codes " (" ++ a.id ++ codes ")"

unfoldable pub session_line : Session → Text
session_line s = codes "会话: " ++ mode_text s.kind ++ codes " / " ++ s.principal.id

abbrev detail : Text → Option Text → List Text
detail name none = []
detail name (some s) = (name ++ s) ∷ []

-- `_identity_binding_line`
unfoldable pub identity_binding_line : Option BindingRecord → Text
identity_binding_line none = codes "身份绑定: 未绑定"
identity_binding_line (some b) =
    codes "身份绑定: 已绑定（"
    ++ join_with (codes "; ") (
        (codes "principal=" ++ b.principal_id) ∷ detail (codes "unionId=") b.union_id
        ++ detail (codes "name=") b.display_name)
    ++ codes "）"

abbrev expiry_text : Option Instant → Text
expiry_text none = codes "无过期时间"
expiry_text (some t) = isoformat t

-- `_token_status_line`
unfoldable pub token_status_line : Text → Option UserToken → Text
token_status_line service none = codes "- " ++ service ++ codes ": 未授权"
token_status_line service (some t) =
    codes "- "
    ++ service
    ++ codes ": 已授权（scopes: "
    ++ scopes_or t.scopes (codes "未声明 scope")
    ++ codes "; expires_at: "
    ++ expiry_text t.expires_at
    ++ (if t.needs_refresh then codes "，需要刷新" else [])
    ++ codes "）"

abbrev or_none : List Text → Text
or_none [] = codes "（无）"
or_none (l ∷ ls) = join_lines (l ∷ ls)

abbrev described : Option Text → Text → Text
described none sensitivity = sensitivity
described (some d) sensitivity = d

module _ {H : Type 0} where
  unfoldable pub command_lines : List (Command H) → List Text
  command_lines [] = []
  command_lines (c ∷ cs) =
      (codes "- "
        ++ c.name
        ++ codes ": "
        ++ (if is_empty c.description then codes "无说明" else c.description))
      ∷ command_lines cs

  -- `_format_command_list`
  unfoldable pub format_command_list : List (Command H) → Text
  unfolding command_lines
  format_command_list cs = or_none (command_lines cs)

  unfoldable pub capability_lines : List (Capability H) → List Text
  capability_lines [] = []
  capability_lines (c ∷ cs) =
      (codes "- " ++ c.name ++ codes ": " ++ described c.description c.sensitivity)
      ∷ capability_lines cs

  -- `_format_capability_list`
  unfoldable pub format_capability_list : List (Capability H) → Text
  unfolding capability_lines
  format_capability_list cs = or_none (capability_lines cs)
