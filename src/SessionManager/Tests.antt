-- ===== src/SessionManager/Tests.antt =====
-- A group's first two messages, and the theorems at those calls.
use im_assistant.Prelude.{
  ◌≡◌, refl, Bool, true, false, Option, none, some, [], Text, codes, Result, ok, err, value_error,
  is_space, lstrip, rcons, rstrip, strip, ◌==◌, non_empty_string, optional_string, find, update,
  exists,
}
use im_assistant.Json.{Mapping, empty, get, set, merge, truthy}
use im_assistant.Session.{SessionKind, Actor, SessionState, PrincipalKind, SessionLifecycle}
use im_assistant.Store.Records.{SessionRecord, Db}
use im_assistant.Store.Sessions.{
  has_conversation_id, put_session, get_session, get_session_by_conversation_id, session_row,
  upsert_session,
}
use im_assistant.Store.Sessions.Unique.{IsValidTable}
use im_assistant.SessionManager.{
  SessionEvent, SessionRouteResult, kind_from_conversation_type, actor_from_event, session_id,
  principal_id, base_context, activation, new_context, updated_context, record_to_session,
  first_record, create_session, update_session, get_or_create_for_event,
}
use im_assistant.SessionManager.Persistence.{IsBound}
use im_assistant.SessionManager.Calls.{
  get_or_create_for_event-IsBound, get_or_create_for_event_again,
}
use im_assistant.Samples.{no_rows, noon, s1_row, with_s1}

program : Unit {0}
unfolding is_space lstrip rcons rstrip strip ◌==◌ non_empty_string optional_string find update
    exists get set merge truthy put_session get_session get_session_by_conversation_id session_row
    upsert_session kind_from_conversation_type actor_from_event session_id principal_id base_context
    activation new_context updated_context record_to_session first_record create_session
    update_session get_or_create_for_event
program = tt

abbrev hello : SessionEvent
hello = record {
  sender_staff_id = codes "u1";
  sender_nick = codes "Ada";
  conversation_type = 2;
  conversation_id = codes "g1";
  open_conversation_id = codes "o1";
  msg_id = codes "m1";
}

abbrev reply : SessionEvent
reply = record hello {
  sender_staff_id = codes "u2";
  conversation_id = codes "g1 ";
  msg_id = codes "m2";
}

abbrev bot : Text
bot = codes "bot"

abbrev result_of : Result SessionRouteResult → SessionRouteResult → SessionRouteResult
result_of (ok r) d = r
result_of (err _) d = d

abbrev greeted : Db
greeted = (get_or_create_for_event noon bot hello no_rows).1

abbrev summary : Result SessionRouteResult → Option (Text × Bool × Bool)
summary (ok r) = some (r.session.session_id, r.created, r.should_send_welcome)
summary (err _) = none

-- The first message of a group.
first_call :
    summary (get_or_create_for_event noon bot hello no_rows).0
    ≡ some (codes "dingtalk:group:g1", true, true)
unfolding program
first_call = refl

no_type :
    get_or_create_for_event noon bot (record hello { conversation_type = 3 }) no_rows
    ≡ (err value_error, no_rows)
unfolding program
no_type = refl

no_rows-IsValidTable : IsValidTable no_rows.sessions
no_rows-IsValidTable = record { normal = tt; keyed = tt; unique = tt }

with_s1-IsValidTable : IsValidTable with_s1.sessions
unfolding program
with_s1-IsValidTable = record {
  normal = (
    record { session_id = refl; conversation_id = refl; bot_id = refl; principal_id = refl },
    tt,
  );
  keyed = (tt, tt);
  unique = (tt, tt);
}

abbrev fallback : SessionRouteResult
fallback = record {
  session = record {
    session_id = [];
    conversation_id = [];
    kind = SessionKind.dm;
    bot = record { id = [] };
    principal = record { kind = PrincipalKind.user; id = [] };
    actor = record { id = []; display_name = [] };
    context = empty;
    state = SessionState.idle;
    lifecycle = SessionLifecycle.active;
    created_at = none;
    updated_at = none;
  };
  created = false;
  should_send_welcome = false;
}

abbrev first_result : SessionRouteResult
first_result = result_of (get_or_create_for_event noon bot hello no_rows).0 fallback

hello_made : get_or_create_for_event noon bot hello no_rows ≡ (ok first_result, greeted)
unfolding program
hello_made = refl

abbrev answered : Db
answered = (get_or_create_for_event 5 bot reply greeted).1

abbrev second_result : SessionRouteResult
second_result = result_of (get_or_create_for_event 5 bot reply greeted).0 fallback

reply_made : get_or_create_for_event 5 bot reply greeted ≡ (ok second_result, answered)
unfolding program
reply_made = refl

get_or_create_for_event-IsBound_example :
    (kind : SessionKind) × (t : SessionRecord) × (kind_from_conversation_type
        hello.conversation_type
      ≡ ok kind)
    × IsBound kind hello first_result t greeted
get_or_create_for_event-IsBound_example =
    get_or_create_for_event-IsBound noon bot hello no_rows greeted first_result no_rows-IsValidTable
      hello_made

g1_again : non_empty_string reply.conversation_id ≡ non_empty_string hello.conversation_id
unfolding program
g1_again = refl

get_or_create_for_event_again_example :
    (second_result.session.session_id ≡ first_result.session.session_id)
    × (second_result.session.state ≡ first_result.session.state)
    × (second_result.created ≡ false)
    × (second_result.should_send_welcome ≡ false)
get_or_create_for_event_again_example =
    get_or_create_for_event_again noon 5 bot hello reply no_rows greeted answered first_result
      second_result no_rows-IsValidTable hello_made g1_again refl reply_made

-- A message in a conversation that is there.
abbrev chat : SessionEvent
chat = record hello { conversation_type = 1; conversation_id = codes "c1" }

abbrev chat_db : Db
chat_db = (get_or_create_for_event 5 bot chat with_s1).1

abbrev chat_result : SessionRouteResult
chat_result = result_of (get_or_create_for_event 5 bot chat with_s1).0 fallback

chat_made : get_or_create_for_event 5 bot chat with_s1 ≡ (ok chat_result, chat_db)
unfolding program
chat_made = refl

c1_id : non_empty_string chat.conversation_id ≡ ok (codes "c1")
unfolding program
c1_id = refl

c1_found : find (has_conversation_id (codes "c1")) with_s1.sessions ≡ some s1_row
unfolding program
c1_found = refl

abbrev ada : Actor
ada = record { id = codes "u1"; display_name = codes "Ada" }

abbrev mapping_of : Result Mapping → Mapping
mapping_of (ok m) = m
mapping_of (err _) = empty

abbrev chat_context : Mapping
chat_context = mapping_of (updated_context s1_row.context SessionKind.dm chat ada)

chat_kind : kind_from_conversation_type chat.conversation_type ≡ ok SessionKind.dm
unfolding program
chat_kind = refl

chat_actor : actor_from_event chat ≡ ok ada
unfolding program
chat_actor = refl

chat_updated : updated_context s1_row.context SessionKind.dm chat ada ≡ ok chat_context
unfolding program
chat_updated = refl
