-- ===== src/SessionManager/Persistence.antt =====
-- A conversation keeps its Session, and a group is welcomed once.
use im_assistant.Prelude.{
  ◌≡◌, sym, ap, ◌∙◌, subst, true, false, not, ◌&&◌, some, Text, ok, ok-injective, non_empty_string,
  non_empty_string-fixed, find, arith, continue-lift-ok, continue-eq-ok, returned-eq,
}
use im_assistant.Instant.{Instant}
use im_assistant.Session.{SessionKind, Actor, is_group}
use im_assistant.Store.Records.{SessionRecord, Db}
use im_assistant.Store.Sessions.{has_conversation_id, upsert_session}
use im_assistant.Store.Sessions.Unique.{IsNormalRow, IsValidTable}
use im_assistant.SessionManager.{
  SessionEvent, SessionRouteResult, is_activated, new_context, updated_context, record_to_session,
  first_record, create_session, update_session,
}
use im_assistant.SessionManager.Rows.{upsert_session-IsKept}
use im_assistant.SessionManager.Activation.{
  is_settled_context, new_context-settled, updated_context-settled,
}

-- What a call that returned has left: the conversation finds the row `t` of the Session that was
-- returned, and the context of a group is activated.
pub record IsBound (kind : SessionKind) (e : SessionEvent) (r : SessionRouteResult)
    (t : SessionRecord) (db' : Db) : Type 0 where
  pub conversation : non_empty_string e.conversation_id ≡ ok t.conversation_id
  pub found : find (has_conversation_id t.conversation_id) db'.sessions ≡ some t
  pub same : r.session.session_id ≡ t.session_id
  pub state : r.session.state ≡ t.state
  pub settled : is_settled_context kind t.context ≡ true
  pub valid : IsValidTable db'.sessions

first_record-fields :
    (bot_id : Text) (kind : SessionKind) (e : SessionEvent) (actor : Actor) (r : SessionRecord)
    → first_record bot_id kind e actor ≡ ok r
    → (non_empty_string e.conversation_id ≡ ok r.conversation_id)
      × (new_context kind e actor ≡ ok r.context)
unfolding first_record
first_record-fields bot_id kind e actor r h = (ground arith, ground arith)

pub create_session-IsBound :
    (now : Instant) (bot_id : Text) (kind : SessionKind) (e : SessionEvent) (actor : Actor)
    (db db' : Db) (r : SessionRouteResult)
    → IsValidTable db.sessions
    → create_session now bot_id kind e actor db ≡ (ok r, db')
    → (t : SessionRecord) × IsBound kind e r t db'
unfolding create_session record_to_session
create_session-IsBound now bot_id kind e actor db db' r v h =
    let (x, made, h1) = continue-lift-ok (first_record bot_id kind e actor) _ h in
    let (t, u, stored, h2) = continue-eq-ok (upsert_session now x db) _ h1 in
    let (is_r, is_db) = returned-eq h2 in
    let (conversation, context) = first_record-fields bot_id kind e actor x made in
    let k = upsert_session-IsKept now x t db u v stored in
    let fixed = non_empty_string-fixed e.conversation_id x.conversation_id conversation in
    (
      t,
      record {
        conversation = conversation ∙ sym fixed ∙ k.conversation;
        found =
            subst (λ d. find (has_conversation_id t.conversation_id) d.sessions ≡ some t) is_db
              k.found;
        same = ap (λ y. y.session.session_id) (sym is_r);
        state = ap (λ y. y.session.state) (sym is_r);
        settled =
            subst (λ c. is_settled_context kind c ≡ true) (sym k.context)
              (new_context-settled kind e actor x.context context);
        valid = subst (λ d. IsValidTable d.sessions) is_db k.valid;
      },
    )

-- What a call does to a conversation that has its row `x`.
pub record IsContinued (kind : SessionKind) (r : SessionRouteResult) (x t : SessionRecord)
    : Type 0 where
  pub id : t.session_id ≡ x.session_id
  pub same_state : t.state ≡ x.state
  pub not_created : r.created ≡ false
  pub welcome : r.should_send_welcome ≡ (is_group kind && not (is_activated x.context))

pub update_session-IsBound :
    (now : Instant) (kind : SessionKind) (e : SessionEvent) (actor : Actor) (x : SessionRecord)
    (db db' : Db) (r : SessionRouteResult)
    → IsValidTable db.sessions
    → IsNormalRow x
    → non_empty_string e.conversation_id ≡ ok x.conversation_id
    → update_session now kind e actor x db ≡ (ok r, db')
    → (t : SessionRecord) × IsBound kind e r t db' × IsContinued kind r x t
unfolding update_session record_to_session
update_session-IsBound now kind e actor x db db' r v n same h =
    let (context, made, h1) = continue-lift-ok (updated_context x.context kind e actor) _ h in
    let y = record x { actor_id = some actor.id; context = context } in
    let (t, u, stored, h2) = continue-eq-ok (upsert_session now y db) _ h1 in
    let (is_r, is_db) = returned-eq h2 in
    let k = upsert_session-IsKept now y t db u v stored in
    (
      t,
      record {
        conversation = same ∙ sym n.conversation_id ∙ k.conversation;
        found =
            subst (λ d. find (has_conversation_id t.conversation_id) d.sessions ≡ some t) is_db
              k.found;
        same = ap (λ z. z.session.session_id) (sym is_r);
        state = ap (λ z. z.session.state) (sym is_r);
        settled =
            subst (λ c. is_settled_context kind c ≡ true) (sym k.context)
              (updated_context-settled x.context kind e actor context made);
        valid = subst (λ d. IsValidTable d.sessions) is_db k.valid;
      },
      record {
        id = ok-injective (sym k.id ∙ n.session_id);
        same_state = k.state;
        not_created = ap (λ z. z.created) (sym is_r);
        welcome = ap (λ z. z.should_send_welcome) (sym is_r);
      },
    )
