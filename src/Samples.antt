-- ===== src/Samples.antt =====
-- Test data: a Session, its interrupt, and the databases that calls leave.
use im_assistant.Prelude.{none, some, [], ◌∷◌, codes}
use im_assistant.Instant.{Instant}
use im_assistant.Json.{text, Mapping, empty, entry}
use im_assistant.Session.{SessionKind, SessionState, SessionLifecycle, PrincipalKind, Session}
use im_assistant.Store.Records.{SessionRecord, Db}

abbrev pub no_rows : Db
no_rows = record {
  sessions = [];
  messages = [];
  interactions = [];
  auths = [];
  inbound = [];
  bindings = [];
  audit_log = [];
  tokens = [];
  last_message = 0;
  last_audit = 0;
}

-- 2024-05-06T07:08:09Z
abbrev pub noon : Instant
noon = 63850576089000000

abbrev pub s1 : Session
s1 = record {
  session_id = codes "s1";
  conversation_id = codes "c1";
  kind = SessionKind.dm;
  bot = record { id = codes "bot" };
  principal = record { kind = PrincipalKind.user; id = codes "u1" };
  actor = record { id = codes "u1"; display_name = codes "Ada" };
  context = entry (codes "topic") (text (codes "tea")) empty;
  state = SessionState.running_agent;
  lifecycle = SessionLifecycle.active;
  created_at = some noon;
  updated_at = none;
}

abbrev pub s1_row : SessionRecord
s1_row = record {
  session_id = codes "s1";
  conversation_id = codes "c1";
  kind = SessionKind.dm;
  bot_id = codes "bot";
  principal_id = codes "u1";
  actor_id = some (codes "u1");
  state = SessionState.running_agent;
  lifecycle = SessionLifecycle.active;
  context = s1.context;
  created_at = some noon;
  updated_at = some noon;
}

abbrev pub with_s1 : Db
with_s1 = record no_rows { sessions = s1_row ∷ [] }

abbrev pub payload : Mapping
payload = entry (codes " action ") (text (codes "create_doc")) empty
