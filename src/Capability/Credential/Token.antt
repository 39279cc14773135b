-- ===== src/Capability/Credential/Token.antt =====
-- The token that a handler asks for is that of the handle of the service.
use im_assistant.Prelude.{
  ◌≡◌, refl, sym, ap, ◌∙◌, subst, inl, inr, Option, none, some, List, [], ◌∷◌, ◌++◌, Text, ◌==◌,
  eq_iff, ok, bind-eq-ok, ok-injective, non_empty_string, Bool-cases, if◌then◌else◌, arith, All,
  false,
}
use im_assistant.Prelude.Dict.{Dict, get, set, get-set, get-set_self}
use im_assistant.Session.{Session}
use im_assistant.Capability.{checked_optional}
use im_assistant.Capability.Credential.{
  CredentialHandle, CredentialKind, handle_mapping, handle_map, CredentialUserContext, user_context,
  CredentialContext, CredentialGroupContext, given_or, group_of, credential_context, for_session,
  handle_for, token_for, require_user_token,
}

-- The keys of a dict are distinct, and each is the service of its handle.
abbrev IsKeyed : Dict CredentialHandle → Type 0
IsKeyed [] = Unit
IsKeyed ((k, h) ∷ d) = (h.service ≡ k) × (get k d ≡ none) × IsKeyed d

set-IsKeyed :
    (h : CredentialHandle) (d : Dict CredentialHandle) → IsKeyed d → IsKeyed (set h.service h d)
unfolding get set
set-IsKeyed h [] v = (refl, refl, tt)
set-IsKeyed h ((k, g) ∷ d) v = elim (Bool-cases (k == h.service)) [
  | inl same ↦ rw same (sym ((eq_iff k h.service).0 same), v.1, v.2)
  | inr other ↦ rw other (
    v.0,
    get-set h.service k h d ∙ ground (arith, eq_iff h.service k, eq_iff k h.service),
    set-IsKeyed h d v.2,
  )
]

handle_map-IsKeyed :
    (hs : List CredentialHandle) (d : Dict CredentialHandle) → IsKeyed d → IsKeyed (handle_map hs d)
unfolding handle_map
handle_map-IsKeyed [] d v = v
handle_map-IsKeyed (h ∷ hs) d v = handle_map-IsKeyed hs (set h.service h d) (set-IsKeyed h d v)

handle_map-append :
    (before after : List CredentialHandle) (d : Dict CredentialHandle)
    → handle_map (before ++ after) d ≡ handle_map after (handle_map before d)
unfolding handle_map
handle_map-append [] after d = refl
handle_map-append (g ∷ before) after d = handle_map-append before after (set g.service g d)

-- Handles of other services do not change what is read at one.
handle_map-others :
    (k : Text) (hs : List CredentialHandle) (d : Dict CredentialHandle)
    → All (λ g. (g.service == k) ≡ false) hs
    → get k (handle_map hs d) ≡ get k d
unfolding handle_map
handle_map-others k [] d others = refl
handle_map-others k (g ∷ hs) d others =
    handle_map-others k hs (set g.service g d) others.1 ∙ get-set g.service k g d ∙ rw others.0 refl

-- The last handle of a service is the one that is read at it.
handle_map-last :
    (before after : List CredentialHandle) (h : CredentialHandle)
    → All (λ g. (g.service == h.service) ≡ false) after
    → get h.service (handle_map (before ++ h ∷ after) []) ≡ some h
unfolding handle_map
handle_map-last before after h others =
    ap (get h.service) (handle_map-append before (h ∷ after) [])
    ∙ handle_map-others h.service after (set h.service h (handle_map before [])) others
    ∙ get-set_self h.service h (handle_map before [])

abbrev first_of : Option CredentialHandle → Option CredentialHandle → Option CredentialHandle
first_of none y = y
first_of (some x) y = some x

read_once :
    (name j k : Text) (g : CredentialHandle) (d done : Dict CredentialHandle)
    → name ≡ j
    → get j d ≡ none
    → first_of (get k d) (get k (set name g done))
      ≡ first_of (if j == k then some g else get k d) (get k done)
read_once name j k g d done is_j absent = elim (Bool-cases (j == k)) [
  | inl same ↦
      let gone : get k d ≡ none = subst (λ x. get x d ≡ none) ((eq_iff j k).0 same) absent in
      rw (get-set name k g done, is_j, same, gone) refl
  | inr other ↦ rw (get-set name k g done, is_j, other) refl
]

-- A checked mapping reads like the mapping.
handle_mapping-get :
    (done d e : Dict CredentialHandle) (k : Text)
    → IsKeyed d
    → handle_mapping done d ≡ ok e
    → get k e ≡ first_of (get k d) (get k done)
unfolding handle_mapping get
handle_mapping-get done [] e k v h = ap (get k) (sym (ok-injective h))
handle_mapping-get done ((j, g) ∷ d) e k v h =
    let (name, named, h1) = bind-eq-ok (non_empty_string j) _ h in
    elim (Bool-cases (g.service == name)) [
      | inr other ↦ absurd (cc (rw other at h1))
      | inl same ↦
          let is_j : name ≡ j = sym ((eq_iff g.service name).0 same) ∙ v.0 in
          let ih = handle_mapping-get (set name g done) d e k v.2 (rw same at h1) in
          ih ∙ read_once name j k g d done is_j v.1
    ]

first_of-none : (o : Option CredentialHandle) → first_of o none ≡ o
first_of-none none = refl
first_of-none (some h) = refl

checked-get :
    (d e : Dict CredentialHandle) (k : Text)
    → IsKeyed d
    → handle_mapping [] d ≡ ok e
    → get k e ≡ get k d
unfolding get
checked-get d e k v h = handle_mapping-get [] d e k v h ∙ first_of-none (get k d)

user_context-handles :
    (id staff_id principal_id : Text) (union_id : Option Text) (d : Dict CredentialHandle)
    (u : CredentialUserContext)
    → user_context id staff_id principal_id union_id d ≡ ok u
    → handle_mapping [] d ≡ ok u.handles
unfolding user_context
user_context-handles id staff_id principal_id union_id d u h =
    let (_, _, h1) = bind-eq-ok (non_empty_string id) _ h in
    let (_, _, h2) = bind-eq-ok (non_empty_string staff_id) _ h1 in
    let (_, _, h3) = bind-eq-ok (non_empty_string principal_id) _ h2 in
    let (_, _, h4) = bind-eq-ok (checked_optional union_id) _ h3 in
    let (_, made, h5) = bind-eq-ok (handle_mapping [] d) _ h4 in
    made ∙ ap (λ x. ok x.handles) (ok-injective h5)

handle_mapping-IsKeyed :
    (done d e : Dict CredentialHandle) → IsKeyed done → handle_mapping done d ≡ ok e → IsKeyed e
unfolding handle_mapping
handle_mapping-IsKeyed done [] e v h = subst IsKeyed (ok-injective h) v
handle_mapping-IsKeyed done ((j, g) ∷ d) e v h =
    let (name, named, h1) = bind-eq-ok (non_empty_string j) _ h in
    elim (Bool-cases (g.service == name)) [
      | inr other ↦ absurd (cc (rw other at h1))
      | inl same ↦
          let by_service =
            subst (λ x. IsKeyed (set x g done)) ((eq_iff g.service name).0 same)
              (set-IsKeyed g done v) in
          handle_mapping-IsKeyed (set name g done) d e by_service (rw same at h1)
    ]

credential_context-get :
    (u : CredentialUserContext) (g : Option CredentialGroupContext) (d : Dict CredentialHandle)
    (c : CredentialContext) (k : Text)
    → IsKeyed d
    → credential_context u g d ≡ ok c
    → get k c.user.handles ≡ get k d
unfolding credential_context
credential_context-get u g d c k v h =
    let (hs, made, h1) = bind-eq-ok (handle_mapping [] d) _ h in
    let (w, again, h2) =
      bind-eq-ok (user_context u.id u.staff_id u.principal_id u.union_id hs) _ h1 in
    let inner = user_context-handles u.id u.staff_id u.principal_id u.union_id hs w again in
    ap (λ x. get k x.user.handles) (sym (ok-injective h2))
    ∙ (checked-get hs w.handles k (handle_mapping-IsKeyed [] d hs tt made) inner
        ∙ checked-get d hs k v made)

-- The credential context of a Session has the handles that it is given under their services, the
-- last one of a service being the one that counts, wherever in the list it stands: where that is a
-- user's handle with a token, the handler that asks for the service's token gets it.
pub require_user_token-for_session :
    (session : Session) (before after : List CredentialHandle) (h : CredentialHandle)
    (union_id : Option Text) (c : CredentialContext) (service token : Text)
    → for_session session (before ++ h ∷ after) union_id ≡ ok c
    → All (λ g. (g.service == h.service) ≡ false) after
    → non_empty_string service ≡ ok h.service
    → h.kind ≡ CredentialKind.user
    → h.user_access_token ≡ some token
    → require_user_token c service ≡ ok token
unfolding for_session require_user_token token_for handle_for
require_user_token-for_session session before after h union_id c service token made last named
      is_user has_token =
    let hs = before ++ h ∷ after in
    let (_, _, h1) = bind-eq-ok (given_or union_id _) _ made in
    let (id, _, h2) = bind-eq-ok (non_empty_string session.actor.id) _ h1 in
    let (p, _, h3) = bind-eq-ok (non_empty_string session.principal.id) _ h2 in
    let (u, _, h4) = bind-eq-ok (user_context id id p _ (handle_map hs [])) _ h3 in
    let (g, _, h5) = bind-eq-ok (group_of session session.kind) _ h4 in
    let keyed = handle_map-IsKeyed hs [] tt in
    let found =
      credential_context-get u g (handle_map hs []) c h.service keyed h5
      ∙ handle_map-last before after h last in
    rw (named, found, is_user, has_token) refl
