-- ===== src/AgentLoop/Cancellation/Closed.antt =====
-- A cancelled interaction is settled, and its Session is Idle again (src/core/agent_loop.py).
use mathlib.Core.Option.{some-injective}
use im_assistant.Prelude.{
  ◌≡◌, sym, ap, ◌∙◌, subst, ◌⊎◌, inl, inr, true, false, Option, none, some, Text, Result, ok, ◌≤◌,
  ltb, find, non_empty_string, non_empty_string-fixed, bind-eq-ok, ok-injective, continue-eq-ok,
  continue-lift-ok, returned-eq, continue, Bool-cases, Result-cases, Option-cases, eq_iff, arith,
  pure,
}
use im_assistant.Prelude.Table.Reads.{find-holds}
use im_assistant.Session.{Session, idle}
use im_assistant.Store.Records.{Db, InteractionRecord, SessionRecord, cancelled}
use im_assistant.Store.Sessions.{has_session_id, get_session}
use im_assistant.Store.Messages.{add_message}
use im_assistant.Store.Messages.Keeps.{OnlyMessages, OnlyMessages-then, add_message-OnlyMessages}
use im_assistant.Store.Interactions.{has_correlation, is_pending, get_pending_interaction}
use im_assistant.Interrupt.{InterruptResolution}
use im_assistant.Interrupt.Manager.{cancel_interrupt}
use im_assistant.Interrupt.Once.{IsSettled, cancel_interrupt-IsSettled}
use im_assistant.AgentLoop.{Wiring}
use im_assistant.AgentLoop.Texts.{
  CancellationReason, reason_text, effective_cancellation_reason, runtime_responder,
  cancellation_resolution_payload, cancellation_notice_text, cancelled_tool_result, loaded_session,
  session_from_record,
}
use im_assistant.AgentLoop.Cancellation.{
  InteractionCancellationResult, is_timeout, canceller, restored, persist_interaction_cancellation,
  close_interaction, cancel_pending_interaction_record, cancel_pending_interaction,
}

loaded_session-state :
    (actor : Text) (r : SessionRecord) (s : Session)
    → loaded_session actor r ≡ ok s
    → s.state ≡ r.state
unfolding loaded_session
loaded_session-state actor r s h =
    let (_, _, h1) = bind-eq-ok (non_empty_string r.bot_id) _ h in
    let (_, _, h2) = bind-eq-ok (non_empty_string r.principal_id) _ h1 in
    let (_, _, h3) = bind-eq-ok (non_empty_string actor) _ h2 in
    ap (λ x. x.state) (sym (ok-injective h3))

restored-state :
    (o : Option SessionRecord) (r : SessionRecord) (s : Session)
    → o ≡ some r
    → restored o ≡ ok s
    → s.state ≡ r.state
unfolding session_from_record
restored-state none r s e h = absurd (cc e)
restored-state (some q) r s e h =
    loaded_session-state _ q s h ∙ ap (λ x. x.state) (some-injective q r e)

get_session-found :
    (session_id key : Text) (r : SessionRecord) (o : Option SessionRecord) (db db' : Db)
    → non_empty_string session_id ≡ ok key
    → find (has_session_id key) db.sessions ≡ some r
    → get_session session_id db ≡ (ok o, db')
    → (o ≡ some r) × (db ≡ db')
unfolding get_session
get_session-found session_id key r o db db' n f h = ground arith

found_key :
    (cid key : Text) (r : InteractionRecord) (db : Db)
    → non_empty_string cid ≡ ok key
    → find (has_correlation key) db.interactions ≡ some r
    → non_empty_string r.correlation_id ≡ ok key
found_key cid key r db n f =
    ap non_empty_string
      ((eq_iff r.correlation_id key).0 (find-holds (has_correlation key) db.interactions r f))
    ∙ non_empty_string-fixed cid key n

-- What a call that closed the interaction `r` has done.
pub record IsClosed (r : InteractionRecord) (result : InteractionCancellationResult) (db db' : Db)
    : Type 0 where
  pub decision : InterruptResolution
  pub mid : Db
  pub settled : IsSettled r.correlation_id r decision db mid
  pub was_cancelled : decision.status ≡ cancelled
  -- only messages are written after that
  pub only_messages : OnlyMessages mid db'
  pub named : result.correlation_id ≡ r.correlation_id
  pub is_idle : result.session.state ≡ idle

module _ {H : Type 0} (w : Wiring H) where
  persist-OnlyMessages :
      (r : InteractionRecord) (reason : CancellationReason) (notice : Text)
      (actor provider : Option Text) (db db' : Db)
      → persist_interaction_cancellation w r reason notice actor provider db ≡ (ok tt, db')
      → OnlyMessages db db'
  unfolding persist_interaction_cancellation
  persist-OnlyMessages r reason notice actor provider db db' h =
      let (m, mid, e, h1) = continue-eq-ok (add_message _ _ _ _ _ _ _ _ db) _ h in
      let (result, _, h2) = continue-lift-ok (cancelled_tool_result r reason) _ h1 in
      let (n, last, e', h3) = continue-eq-ok (add_message _ _ _ _ _ _ _ _ mid) _ h2 in
      OnlyMessages-then db mid db'
        (subst (λ x. OnlyMessages db x) (ap (λ p. p.1) e)
          (add_message-OnlyMessages _ _ _ _ _ _ _ _ db))
        (subst (λ x. OnlyMessages mid x) (ap (λ p. p.1) e' ∙ ap (λ p. p.1) h3)
          (add_message-OnlyMessages _ _ _ _ _ _ _ _ mid))

  close_interaction-IsClosed :
      (r : InteractionRecord) (reason : CancellationReason) (actor provider : Option Text)
      (result : InteractionCancellationResult) (key : Text) (db db' : Db)
      → non_empty_string r.correlation_id ≡ ok key
      → find (has_correlation key) db.interactions ≡ some r
      → close_interaction w r reason actor provider db ≡ (ok result, db')
      → IsClosed r result db db' × (result.reason ≡ reason)
  unfolding close_interaction
  close_interaction-IsClosed r reason actor provider result key db db' n f h =
      let (payload, _, h1) =
        continue-lift-ok (cancellation_resolution_payload reason actor provider) _ h in
      let (d, mid, e, h2) =
        continue-eq-ok
          (cancel_interrupt w.audited w.now r.correlation_id (reason_text reason) (some payload)
            (canceller actor (runtime_responder reason r)) false true db)
          _ h1 in
      let (notice, _, h3) = continue-lift-ok (cancellation_notice_text r reason) _ h2 in
      let (tt, db3, e3, h4) =
        continue-eq-ok (persist_interaction_cancellation w r reason notice actor provider mid) _
          h3 in
      let (o, db4, e4, h5) = continue-eq-ok (get_session r.session_id db3) _ h4 in
      let (session, e5, h6) = continue-lift-ok (restored o) _ h5 in
      let (same_result, ends) = returned-eq h6 in
      let (row, settled, status, _, _) =
        cancel_interrupt-IsSettled w.audited w.now r.correlation_id (reason_text reason)
          (some payload) (canceller actor (runtime_responder reason r)) false true d db mid e in
      let row_is_r = some-injective row r (
        sym settled.found
        ∙ ap (λ k. find (has_correlation k) db.interactions) (ok-injective (sym settled.normal ∙ n))
        ∙ f) in
      let mine = subst (λ x. IsSettled r.correlation_id x d db mid) row_is_r settled in
      let same = persist-OnlyMessages r reason notice actor provider mid db3 e3 in
      let (is_found, read) =
        get_session-found r.session_id mine.finished.session_key mine.finished.after o db3 db4
          mine.finished.session_normal
          (ap (λ x. find (has_session_id mine.finished.session_key) x.sessions) same
            ∙ mine.finished.is_stored)
          e4 in
      (
        record {
          decision = d;
          mid = mid;
          settled = mine;
          was_cancelled = status;
          only_messages = subst (λ x. OnlyMessages mid x) (read ∙ ends) same;
          named = ap (λ x. x.correlation_id) (sym same_result);
          is_idle =
              ap (λ x. x.session.state) (sym same_result)
              ∙ restored-state o mine.finished.after session is_found e5
              ∙ mine.finished.is_idle;
        },
        ap (λ x. x.reason) (sym same_result),
      )

  unwrapped :
      (x : Result InteractionCancellationResult × Db) (result : InteractionCancellationResult)
      (db' : Db)
      → continue x (λ y. pure (some y)) ≡ (ok (some result), db')
      → x ≡ (ok result, db')
  unwrapped x result db' h =
      let (y, mid, e, h1) = continue-eq-ok x _ h in
      let (same, ends) = returned-eq h1 in
      e ∙ ap (λ z. (ok z, mid)) (some-injective y result same) ∙ ap (λ d. (ok result, d)) ends

  cancel_record-IsClosed :
      (r : InteractionRecord) (requested : CancellationReason) (actor provider : Option Text)
      (result : InteractionCancellationResult) (key : Text) (db db' : Db)
      → non_empty_string r.correlation_id ≡ ok key
      → find (has_correlation key) db.interactions ≡ some r
      → cancel_pending_interaction_record w r requested actor provider db ≡ (ok (some result), db')
      → IsClosed r result db db'
        × (result.reason ≡ effective_cancellation_reason r requested w.now)
        × ((is_timeout result.reason ≡ false) ⊎ (r.expires_at ≤ w.now))
  unfolding cancel_pending_interaction_record
  cancel_record-IsClosed r requested actor provider result key db db' n f h =
      let reason = effective_cancellation_reason r requested w.now in
      elim (Bool-cases (is_timeout reason)) [
        | inr t ↦
            let (closed, same) =
              close_interaction-IsClosed r reason actor provider result key db db' n f
                (unwrapped _ result db' (rw t at h)) in
            (closed, same, inl (ap is_timeout same ∙ t))
        | inl t ↦ elim (Bool-cases (ltb w.now r.expires_at)) [
          | inl early ↦ absurd (cc (rw (t, early) at h))
          | inr late ↦
              let (closed, same) =
                close_interaction-IsClosed r reason actor provider result key db db' n f
                  (unwrapped _ result db' (rw (t, late) at h)) in
              (closed, same, inr (ground (arith, late)))
        ]
      ]

  -- When the cancellation of an interaction by its id returns a result, the interaction was
  -- pending, and it is settled as cancelled; the reason is the effective one, and if that is a
  -- timeout, the time of the interaction was up. After that only messages are written, and the
  -- Session that is handed back is Idle.
  pub cancel_pending_interaction-IsClosed :
      (cid : Text) (requested : CancellationReason) (actor provider : Option Text)
      (result : InteractionCancellationResult) (db db' : Db)
      → cancel_pending_interaction w cid requested actor provider db ≡ (ok (some result), db')
      → (r : InteractionRecord) × IsClosed r result db db'
        × (non_empty_string cid ≡ non_empty_string r.correlation_id)
        × (result.reason ≡ effective_cancellation_reason r requested w.now)
        × ((is_timeout result.reason ≡ false) ⊎ (r.expires_at ≤ w.now))
  unfolding cancel_pending_interaction get_pending_interaction
  cancel_pending_interaction-IsClosed cid requested actor provider result db db' h =
      elim (Result-cases (non_empty_string cid)) [
        | inr (e, x) ↦ absurd (cc (rw x at h))
        | inl (key, x) ↦ elim (Option-cases (find (has_correlation key) db.interactions)) [
          | inl y ↦ absurd (cc (rw (x, y) at h))
          | inr (r, y) ↦ elim (Bool-cases (is_pending r.status)) [
            | inr z ↦ absurd (cc (rw (x, y, z) at h))
            | inl z ↦
                let n = found_key cid key r db x y in
                let (closed, reason, in_time) =
                  cancel_record-IsClosed r requested actor provider result key db db' n y
                    (rw (x, y, z) at h) in
                (r, closed, x ∙ sym n, reason, in_time)
          ]
        ]
      ]
