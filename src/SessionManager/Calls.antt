-- ===== src/SessionManager/Calls.antt =====
-- `get_or_create_for_event`, called once and called again.
use im_assistant.Prelude.{
  ◌≡◌, refl, sym, ap, ◌∙◌, subst, true, false, not, ◌&&◌, some, Text, ok, ok-injective,
  Option-cases, inl, inr, non_empty_string, find, arith, continue-lift-ok, continue-eq-ok,
  returned-eq,
}
use im_assistant.Instant.{Instant}
use im_assistant.Session.{SessionKind, Actor, is_group}
use im_assistant.Json.{Mapping}
use im_assistant.Store.Records.{SessionRecord, Db}
use im_assistant.Store.Sessions.{has_conversation_id, get_session_by_conversation_id}
use im_assistant.Store.Sessions.Unique.{IsValidTable}
use im_assistant.Store.Sessions.Restore.{upsert_session_returns}
use im_assistant.SessionManager.{
  SessionEvent, SessionRouteResult, kind_from_conversation_type, actor_from_event, is_activated,
  updated_context, record_to_session, update_session, create_or_update, get_or_create_for_event,
}
use im_assistant.SessionManager.Rows.{conversation_row, find_session}
use im_assistant.SessionManager.Activation.{is_settled_context}
use im_assistant.SessionManager.Persistence.{
  IsBound, IsContinued, create_session-IsBound, update_session-IsBound,
}

-- The kind of the event's conversation, its key, and what the call does with the stored row.
call_parts :
    (now : Instant) (bot_id : Text) (e : SessionEvent) (db db' : Db) (r : SessionRouteResult)
    → get_or_create_for_event now bot_id e db ≡ (ok r, db')
    → (kind : SessionKind) × (actor : Actor) × (c : Text) × (kind_from_conversation_type
          e.conversation_type
        ≡ ok kind)
      × (non_empty_string e.conversation_id ≡ ok c)
      × (create_or_update now bot_id kind e actor (find (has_conversation_id c) db.sessions) db
          ≡ (ok r, db'))
unfolding get_or_create_for_event get_session_by_conversation_id
call_parts now bot_id e db db' r h =
    let (kind, is_kind, h1) =
      continue-lift-ok (kind_from_conversation_type e.conversation_type) _ h in
    let (actor, _, h2) = continue-lift-ok (actor_from_event e) _ h1 in
    let (x, u, read, h3) =
      continue-eq-ok (get_session_by_conversation_id e.conversation_id db) _ h2 in
    let (c, is_c, found) = continue-lift-ok (non_empty_string e.conversation_id) _ read in
    let (is_x, is_u) = returned-eq found in
    (
      kind,
      actor,
      c,
      is_kind,
      is_c,
      ap (λ o. create_or_update now bot_id kind e actor o db) is_x
          ∙ ap (λ d. create_or_update now bot_id kind e actor x d) is_u
          ∙ h3,
    )

-- When a call returns on a valid table of sessions, the conversation of the event finds the row of
-- the Session that is returned, the context of a group is activated, and the table is valid.
pub get_or_create_for_event-IsBound :
    (now : Instant) (bot_id : Text) (e : SessionEvent) (db db' : Db) (r : SessionRouteResult)
    → IsValidTable db.sessions
    → get_or_create_for_event now bot_id e db ≡ (ok r, db')
    → (kind : SessionKind) × (t : SessionRecord) × (kind_from_conversation_type e.conversation_type
        ≡ ok kind)
      × IsBound kind e r t db'
get_or_create_for_event-IsBound now bot_id e db db' r v h =
    let (kind, actor, c, is_kind, is_c, acts) = call_parts now bot_id e db db' r h in
    elim (Option-cases (find (has_conversation_id c) db.sessions)) [
      | inl absent ↦
          let (t, b) =
            create_session-IsBound now bot_id kind e actor db db' r v (rw absent at acts) in
          (kind, t, is_kind, b)
      | inr (x, there) ↦
          let (same, n) = conversation_row c x db v there in
          let (t, b, _) =
            update_session-IsBound now kind e actor x db db' r v n (is_c ∙ ap ok (sym same))
              (rw there at acts) in
          (kind, t, is_kind, b)
    ]

-- A call for a conversation that has a Session returns that Session, in the state that it has: none
-- is created, and a welcome is due only for a group whose context is not activated.
pub get_or_create_for_event-IsContinued :
    (now : Instant) (bot_id c : Text) (e : SessionEvent) (x : SessionRecord) (db db' : Db)
    (r : SessionRouteResult)
    → IsValidTable db.sessions
    → non_empty_string e.conversation_id ≡ ok c
    → find (has_conversation_id c) db.sessions ≡ some x
    → get_or_create_for_event now bot_id e db ≡ (ok r, db')
    → (kind : SessionKind) × (t : SessionRecord) × (kind_from_conversation_type e.conversation_type
        ≡ ok kind)
      × IsBound kind e r t db'
      × IsContinued kind r x t
get_or_create_for_event-IsContinued now bot_id c e x db db' r v is_c there h =
    let (kind, actor, k, is_kind, is_k, acts) = call_parts now bot_id e db db' r h in
    let same_key = ok-injective (sym is_k ∙ is_c) in
    let found = ap (λ z. find (has_conversation_id z) db.sessions) same_key ∙ there in
    let (same, n) = conversation_row c x db v there in
    let (t, b, k) =
      update_session-IsBound now kind e actor x db db' r v n (is_c ∙ ap ok (sym same))
        (rw found at acts) in
    (kind, t, is_kind, b, k)

no_welcome :
    (kind : SessionKind) (context : Mapping)
    → is_settled_context kind context ≡ true
    → (is_group kind && not (is_activated context)) ≡ false
no_welcome kind context h = ground arith

-- Once a call has returned, the next call for the same conversation, with the same conversation type,
-- returns the same Session in the same state, creates none, and sends no welcome.
pub get_or_create_for_event_again :
    (now now' : Instant) (bot_id : Text) (e e' : SessionEvent) (db mid db' : Db)
    (r r' : SessionRouteResult)
    → IsValidTable db.sessions
    → get_or_create_for_event now bot_id e db ≡ (ok r, mid)
    → non_empty_string e'.conversation_id ≡ non_empty_string e.conversation_id
    → e'.conversation_type ≡ e.conversation_type
    → get_or_create_for_event now' bot_id e' mid ≡ (ok r', db')
    → (r'.session.session_id ≡ r.session.session_id)
      × (r'.session.state ≡ r.session.state)
      × (r'.created ≡ false)
      × (r'.should_send_welcome ≡ false)
get_or_create_for_event_again now now' bot_id e e' db mid db' r r' v h same same_type h' =
    let (kind, t, is_kind, b) = get_or_create_for_event-IsBound now bot_id e db mid r v h in
    let (kind', t', is_kind', b', k) =
      get_or_create_for_event-IsContinued now' bot_id t.conversation_id e' t mid db' r' b.valid
        (same ∙ b.conversation) b.found h' in
    let kinds : kind ≡ kind' =
      ok-injective (sym is_kind ∙ ap kind_from_conversation_type (sym same_type) ∙ is_kind') in
    (
      b'.same ∙ k.id ∙ sym b.same,
      b'.state ∙ k.same_state ∙ sym b.state,
      k.not_created,
      k.welcome
          ∙ no_welcome kind' t.context
              (subst (λ z. is_settled_context z t.context ≡ true) kinds b.settled),
    )

-- On a valid table, a call for a conversation that has a Session returns, where the parts of the
-- event are there: a known conversation type, a sender and the ids that the context needs.
pub get_or_create_for_event_returns :
    (now : Instant) (bot_id c : Text) (e : SessionEvent) (kind : SessionKind) (actor : Actor)
    (x : SessionRecord) (context : Mapping) (db : Db)
    → IsValidTable db.sessions
    → kind_from_conversation_type e.conversation_type ≡ ok kind
    → actor_from_event e ≡ ok actor
    → non_empty_string e.conversation_id ≡ ok c
    → find (has_conversation_id c) db.sessions ≡ some x
    → updated_context x.context kind e actor ≡ ok context
    → (r : SessionRouteResult) × (db' : Db) × (get_or_create_for_event now bot_id e db
        ≡ (ok r, db'))
unfolding get_or_create_for_event get_session_by_conversation_id update_session
get_or_create_for_event_returns now bot_id c e kind actor x context db v is_kind is_actor is_c there
      made =
    let y = record x { actor_id = some actor.id; context = context } in
    let (t, db', returned) =
      upsert_session_returns now x.session_id x y db v (find_session c x db.sessions v.keyed there)
        refl refl refl refl in
    (
      record {
        session = record_to_session t actor;
        created = false;
        should_send_welcome = is_group kind && not (is_activated x.context);
      },
      db',
      rw (is_kind, is_actor, is_c, there, made, returned) refl,
    )
