-- ===== src/Lib.antt =====
-- A verification library of the assistant: the repository of its state, the interactions that are
-- answered out of band, the inboxes that put the messages of a conversation in order, the routing in
-- front of the agent loop, the slash commands, the loop itself with its capabilities and their
-- authorization, the Sessions of the conversations, and the vault of the users' tokens.
--
-- How the program works. A message from DingTalk goes to the inbox of its conversation
-- (src/core/inbox.py), whose one worker handles the conversation's messages in order. The message is
-- claimed in the repository (src/infra/store.py), so that it is processed once; its conversation is a
-- Session; the router (src/core/router.py) takes out what is the answer of a pending interaction or a
-- slash command. While the agent waits for a confirmation or a consent, its Session is suspended by an
-- interrupt (src/core/interrupt.py), which the responder resolves or cancels and whose decision goes to
-- the audit log (src/infra/audit.py). A slash command is dispatched by its registry (src/core/commands.py).
-- Any other message is a turn of the agent loop (src/core/agent_loop.py), which shows the language model
-- the capabilities that the Session may use (src/capabilities/registry.py), calls them with the
-- credentials that the authorizer grants (src/capabilities/authorizer.py, credential.py), and suspends
-- the turn where a consent or a confirmation is missing.
--
-- Which file models what:
-- Prelude: what the files share: Boolean tests, lists, Python's `str` as code points (strip, lower,
--   comparison), calls that may raise on a shared state, tables of rows under SELECT, UPDATE and DELETE
--   (Prelude/Table, with the lemmas on reads and on keys below it), dicts (Prelude/Dict).
-- Instant, Json: `datetime` in UTC with `isoformat`; JSON values, and the normal form that
--   `_plain_json_object` and `_json_object` make (Json/Plain; Json/Fixed has the proof).
-- Session: the data types of src/core/session.py.
-- Store: src/infra/store.py. Store/Records has the rows and the database, and there is a file per
--   table: Sessions, Messages, Inbound (inbound_messages), Interactions (pending_interactions), Auths
--   (pending_auth), Bindings (identity_bindings), AuditLog, Tokens (token_vault). Each method of
--   SQLiteStore is the function of its name. The files below a table's have its proofs.
-- Audit: src/infra/audit.py, the record of a decision; Audit/Obo and Audit/Execution have those of an
--   authorization and of a command.
-- Interrupt: src/core/interrupt.py: the value objects; Interrupt/Manager is SessionInterruptManager,
--   whose `resolve` and `cancel` are resolve_interrupt and cancel_interrupt. The proofs: RoundTrip for
--   `create`, Decision and Finish for the two halves of a decision, Once, Resume and Returns. What is
--   written after a decision is a sequence of steps (Store/Interactions/Later), and Writes has it that
--   the manager's own calls, and a message that is added, write such sequences.
-- Inbox: src/core/inbox.py: SessionInbox as moves; Inbox/Dispatcher is SessionInboxDispatcher.
-- Router: src/core/router.py.
-- SessionManager: src/core/session_manager.py. SessionManager/Calls has its theorems; Rows, Activation
--   and Persistence lead up to them.
-- TokenVault: src/infra/token_vault.py over a cipher. RoundTrip is `put` and `get`; Refresh and Valid
--   are get_valid.
-- Command: src/core/commands.py. Command and Command/Roles have the data and the checks,
--   Command/Registry and Command/Dispatch are CommandRegistry; Names, Parsing, Admission,
--   Registry/Lookup and the files below Dispatch have the proofs.
-- Builtin: src/core/builtin_commands.py, its replies in Builtin/Texts; Reset and Revoked have the proofs.
-- Capability: src/capabilities/base/__init__.py; Registry and Tiers are src/capabilities/registry.py
--   (Visibility, Tiers/Loading and Tiers/Owned have the proofs), Credential is credential.py, with
--   Credential/Token, and Authorizer is authorizer.py, with the files below it.
-- AgentLoop: src/core/agent_loop.py: Texts for what it writes, Tools and Calls for the rounds of tools,
--   Turn for AgentLoop.run, Cancellation and Callback for the other entries. Gate, Turn/Ends and
--   Turn/Whole, Cancellation/Closed and Callback/Settled have the proofs.
-- Oauth: SQLitePendingAuthStore of src/infra/oauth.py, whose create, get, consume and discard are
--   create_pending, get_pending, consume_pending and discard_pending; Oauth/SingleUse has the proofs.
-- Samples has the data of the tests, which stand in the files called Tests.
--
-- How the program's notions are represented. A `Literal` type is a data type, and no other value is
-- given to it. A call is a function from a state to a result and a state; an exception is its class, and
-- what was written before it stays written. A time is a number of microseconds, and one call reads the
-- clock once. A table is the list of its rows in insertion order, and a row is the record that it is
-- read back as: a JSON column is its mapping. One method of the repository is one step: none runs
-- between its statement and the read that follows. Whether an audit logger is configured is an argument,
-- `audited`. An inbox is a state and moves, one for each stretch of code between two awaits, in any
-- order; the lock needs no state, since no await happens under it. A limit or a time to live is a
-- natural number, zero being refused as the source refuses it.
--
-- Fuel. The loop over mentions runs on one more than the length of the text; each turn takes a character
-- at least, and a loop without fuel left would be told from one that finds no command. The rounds of
-- tools in a turn are counted as the source counts them, and a turn that uses them up raises. Nothing
-- else needs fuel.
--
-- Not modelled: floats in JSON, `lower` outside ASCII, the messages of exceptions, the opening and
-- migration of the database file, log lines and metrics; the services that handlers look up, the
-- language model's client, the timers of the built-in commands, the rest of OAuth (the store in memory,
-- the callback, the exchange), the DingTalk client and adapters, the system capabilities, configuration
-- and the entry point.
pub mod Prelude
pub mod Instant
pub mod Json
pub mod Session
pub mod Store
pub mod Audit
pub mod Command
pub mod Capability
pub mod AgentLoop
pub mod Builtin
pub mod Interrupt
pub mod Samples
pub mod Inbox
pub mod Router
pub mod TokenVault
pub mod Oauth
pub mod SessionManager
