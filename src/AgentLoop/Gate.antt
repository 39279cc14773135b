-- ===== src/AgentLoop/Gate.antt =====
-- The gate in front of a tool (src/core/agent_loop.py): what may run within a turn.
use im_assistant.Prelude.{◌≡◌, refl, Result, ok, err, true, Option, some, Text, Action}
use im_assistant.Prelude.Dict as Dict
use im_assistant.Prelude.Dict.{Dict}
use im_assistant.Json.{Mapping}
use im_assistant.Session.{Session}
use im_assistant.Store.Records.{Db}
use im_assistant.Capability.{Capability}
use im_assistant.Capability.Credential.{CredentialContext}
use im_assistant.AgentLoop.{
  Wiring, ToolUseRequest, Outcome, value, wants_consent, wants_confirm, ExecutionContext, Confirm,
}
use im_assistant.AgentLoop.Texts.{requires_runtime_confirm}
use im_assistant.AgentLoop.Calls.{
  execute_tool_call, credential_context_for_capability, call_with, then_value,
}

-- Two continuations that agree come to the same.
pub then_value-same :
    {H A B : Type 0} (r : Result (Outcome H A) × Db) (f g : A → Action Db (Outcome H B))
    → ((a : A) (db : Db) → f a db ≡ g a db)
    → then_value (λ _. r) f r.1 ≡ then_value (λ _. r) g r.1
then_value-same (err e, db) f g same = refl
then_value-same (ok (value a), db) f g same = same a db
then_value-same (ok (wants_consent c), db) f g same = refl
then_value-same (ok (wants_confirm c), db) f g same = refl

module _ {H : Type 0} (w : Wiring H)
    (call : H → ExecutionContext H → Mapping → Confirm H → Action Db (Outcome H Text))
    (executor : Option (Session → Text → Mapping → Action Db Text)) where
  -- The same wiring with other handlers and another executor.
  abbrev pub rewired : Wiring H
  rewired = record w { call_handler = call; tool_executor = executor }

  pub call_with-gated :
      (session : Session) (c : Capability H) (u : ToolUseRequest) (credentials : CredentialContext)
      (db : Db)
      → requires_runtime_confirm c ≡ true
      → call_with w session c u credentials db ≡ call_with rewired session c u credentials db
  unfolding call_with
  call_with-gated session c u credentials db high = rw high

  -- A call of a capability of high sensitivity runs no tool: whatever the handlers and the executor
  -- of tools do, the call has the same result and leaves the same state.
  pub execute_tool_call-gated :
      (session : Session) (capabilities : Dict (Capability H)) (u : ToolUseRequest)
      (c : Capability H) (db : Db)
      → Dict.get u.name capabilities ≡ some c
      → requires_runtime_confirm c ≡ true
      → execute_tool_call w session capabilities u db
        ≡ execute_tool_call rewired session capabilities u db
  unfolding execute_tool_call credential_context_for_capability
  execute_tool_call-gated session capabilities u c db found high = rw found (
      then_value-same (credential_context_for_capability w session c u db) _ _
        λ credentials after. call_with-gated session c u credentials after high)
