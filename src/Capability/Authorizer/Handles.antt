-- ===== src/Capability/Authorizer/Handles.antt =====
-- What a handle carries, and when the scopes of a token cover those required.
use im_assistant.Prelude.{
  ◌≡◌, refl, sym, subst, inl, inr, Bool, true, Option, some, List, [], ◌∷◌, Text, ◌==◌, eq_iff,
  member, All, Among, ok, bind-eq-ok, ok-injective, Bool-cases, non_empty_string, arith,
}
use im_assistant.Store.Auths.{normalize_scopes}
use im_assistant.Capability.{checked_optional}
use im_assistant.Capability.Credential.{
  CredentialHandle, CredentialKind, credential_handle, checked_token,
}
use im_assistant.Capability.Authorizer.{scopes_cover}

pub member-Among : (s : Text) (ts : List Text) → member s ts ≡ true → Among s ts
unfolding member
member-Among s [] h = cc
member-Among s (t ∷ ts) h = elim (Bool-cases (t == s)) [
  | inl same ↦ inl ((eq_iff t s).0 same)
  | inr other ↦ inr (member-Among s ts (rw other at h))
]

pub Among-member : (s : Text) (ts : List Text) → Among s ts → member s ts ≡ true
unfolding member
Among-member s [] h = elim h [ ]
Among-member s (t ∷ ts) (inl same) = rw ((eq_iff t s).1 same) refl
Among-member s (t ∷ ts) (inr later) = ground (arith, Among-member s ts later)

-- Every scope that is required is among those of the token.
abbrev pub Covers : List Text → List Text → Type 0
Covers held required = All (λ s. Among s held) required

pub scopes_cover-Covers :
    (held required : List Text) → scopes_cover held required ≡ true → Covers held required
unfolding scopes_cover
scopes_cover-Covers held [] h = tt
scopes_cover-Covers held (s ∷ required) h = elim (Bool-cases (member s held)) [
  | inl here ↦ (member-Among s held here, scopes_cover-Covers held required (rw here at h))
  | inr never ↦ absurd (cc (rw never at h))
]

-- What a handle that was made is like.
pub record IsHandle (v : Text) (k : CredentialKind) (t : Option Text) (h : CredentialHandle)
    : Type 0 where
  pub kind : h.kind ≡ k
  pub service : non_empty_string v ≡ ok h.service
  pub token : checked_token k t ≡ ok h.user_access_token

pub credential_handle-IsHandle :
    (service : Text) (kind : CredentialKind) (scopes : List Text) (p a token : Option Text)
    (b : Bool) (h : CredentialHandle)
    → credential_handle service kind scopes p a token b ≡ ok h
    → IsHandle service kind token h
unfolding credential_handle
credential_handle-IsHandle service kind scopes p a token b h made =
    let (v, hv, h1) = bind-eq-ok (non_empty_string service) _ made in
    let (_, _, h2) = bind-eq-ok (normalize_scopes scopes) _ h1 in
    let (_, _, h3) = bind-eq-ok (checked_optional p) _ h2 in
    let (_, _, h4) = bind-eq-ok (checked_optional a) _ h3 in
    let (t, ht, h5) = bind-eq-ok (checked_token kind token) _ h4 in
    subst (IsHandle service kind token) (ok-injective h5)
      (record { kind = refl; service = hv; token = ht })

pub checked_token-carried :
    (t : Text) (x : Option Text)
    → checked_token CredentialKind.user (some t) ≡ ok x
    → (secret : Text) × (non_empty_string t ≡ ok secret) × (x ≡ some secret)
checked_token-carried t x h =
    let (secret, plain, e) = bind-eq-ok (non_empty_string t) _ h in
    (secret, plain, sym (ok-injective e))
