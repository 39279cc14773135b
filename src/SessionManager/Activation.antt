-- ===== src/SessionManager/Activation.antt =====
-- A context that a call stores for a group says that the group is activated.
use im_assistant.Prelude.{
  ◌≡◌, refl, subst, Bool, true, false, not, ◌&&◌, ◌||◌, codes, ◌==◌, ok, ok-injective,
  non_empty_string, arith, bind-eq-ok,
}
use im_assistant.Json.{text, boolean, Mapping, set, merge, truthy, get-set}
use im_assistant.Session.{SessionKind, Actor, is_group}
use im_assistant.SessionManager.{
  SessionEvent, activated_key, is_activated, activation, with_activation, new_context,
  updated_context, base_context,
}

-- A group's context is activated.
abbrev pub is_settled_context : SessionKind → Mapping → Bool
is_settled_context kind context = not (is_group kind) || is_activated context

merge-activation :
    (e : SessionEvent) (actor : Actor) (c a : Mapping)
    → activation e actor ≡ ok a
    → is_activated (merge c a) ≡ true
unfolding activation merge truthy ◌==◌
merge-activation e actor c a h =
    let (msg, _, made) = bind-eq-ok (non_empty_string e.msg_id) _ h in
    subst (λ x. is_activated (merge c x) ≡ true) (ok-injective made)
      (rw
        (
          get-set (codes "activation_msg_id") activated_key (text msg)
              (set (codes "activated_by") (text actor.id) (set activated_key (boolean true) c)),
          get-set (codes "activated_by") activated_key (text actor.id)
              (set activated_key (boolean true) c),
          get-set activated_key activated_key (boolean true) c,
        )
        refl)

with_activation-settled :
    (b : Bool) (kind : SessionKind) (e : SessionEvent) (actor : Actor) (c d : Mapping)
    → (b ≡ false → is_settled_context kind c ≡ true)
    → with_activation b e actor c ≡ ok d
    → is_settled_context kind d ≡ true
with_activation-settled false kind e actor c d s h =
    subst (λ x. is_settled_context kind x ≡ true) (ok-injective h) (s refl)
with_activation-settled true kind e actor c d s h =
    let (a, ea, made) = bind-eq-ok (activation e actor) _ h in
    let on = merge-activation e actor c a ea in
    subst (λ x. is_settled_context kind x ≡ true) (ok-injective made) (ground (arith, on))

pub new_context-settled :
    (kind : SessionKind) (e : SessionEvent) (actor : Actor) (d : Mapping)
    → new_context kind e actor ≡ ok d
    → is_settled_context kind d ≡ true
unfolding new_context
new_context-settled kind e actor d h =
    let (c, _, made) = bind-eq-ok (base_context e actor) _ h in
    with_activation-settled (is_group kind) kind e actor c d (λ b. ground arith) made

pub updated_context-settled :
    (old : Mapping) (kind : SessionKind) (e : SessionEvent) (actor : Actor) (d : Mapping)
    → updated_context old kind e actor ≡ ok d
    → is_settled_context kind d ≡ true
unfolding updated_context
updated_context-settled old kind e actor d h =
    let (base, _, made) = bind-eq-ok (base_context e actor) _ h in
    with_activation-settled (is_group kind && not (is_activated (merge old base))) kind e actor
      (merge old base) d (λ b. ground arith) made
