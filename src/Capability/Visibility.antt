-- ===== src/Capability/Visibility.antt =====
-- Who sees a capability, told without the order of the tests.
use mathlib.Core.Option.{some-injective}
use im_assistant.Prelude.{
  ◌≡◌, ◌↔◌, ◌⊎◌, refl, sym, ap, ◌∙◌, inl, inr, Bool, true, false, not, ◌&&◌, ◌||◌, Option, none,
  some, List, [], ◌∷◌, Text, eq_iff, All, Among, Result, ok, ok-injective, non_empty_string,
  Bool-cases, Option-cases, if◌then◌else◌, arith,
}
use im_assistant.Session.{Actor, SessionKind, dm, group}
use im_assistant.Capability.{
  Capability, CapabilityAvailability, everywhere, in_group, in_dm, Requirement, any_on_behalf,
  requires_user_authority,
}
use im_assistant.Capability.Registry.{
  CapabilityChannelContext, offers, is_owner, is_user, is_enabled, same, usable_in, can_use,
}
use im_assistant.Capability.Authorizer.Handles.{member-Among, Among-member}

offers-Among :
    (a : CapabilityAvailability) (bs : List CapabilityAvailability)
    → offers a bs ≡ true
    → Among a bs
unfolding offers
offers-Among a [] h = cc
offers-Among everywhere (everywhere ∷ bs) h = inl refl
offers-Among in_group (in_group ∷ bs) h = inl refl
offers-Among in_dm (in_dm ∷ bs) h = inl refl
offers-Among everywhere (in_group ∷ bs) h = inr (offers-Among everywhere bs h)
offers-Among everywhere (in_dm ∷ bs) h = inr (offers-Among everywhere bs h)
offers-Among in_group (everywhere ∷ bs) h = inr (offers-Among in_group bs h)
offers-Among in_group (in_dm ∷ bs) h = inr (offers-Among in_group bs h)
offers-Among in_dm (everywhere ∷ bs) h = inr (offers-Among in_dm bs h)
offers-Among in_dm (in_group ∷ bs) h = inr (offers-Among in_dm bs h)

same_refl : (a : CapabilityAvailability) → same a a ≡ true
same_refl everywhere = refl
same_refl in_group = refl
same_refl in_dm = refl

Among-offers :
    (a : CapabilityAvailability) (bs : List CapabilityAvailability)
    → Among a bs
    → offers a bs ≡ true
unfolding offers
Among-offers a [] h = elim h [ ]
Among-offers a (b ∷ bs) (inl e) = rw (e, same_refl a) refl
Among-offers a (b ∷ bs) (inr h) = ground (arith, Among-offers a bs h)

-- Nothing that is required is on somebody's behalf.
abbrev pub NoAuthority : {H : Type 0} → Capability H → Type 0
NoAuthority c = All (λ r. r.on_behalf_of ≡ none) c.requires

any_on_behalf-All :
    (rs : List Requirement) → any_on_behalf rs ≡ false → All (λ r. r.on_behalf_of ≡ none) rs
unfolding any_on_behalf
any_on_behalf-All [] h = tt
any_on_behalf-All (r ∷ rs) h = elim (Option-cases r.on_behalf_of) [
  | inl nobody ↦ (nobody, any_on_behalf-All rs (rw nobody at h))
  | inr (o, e) ↦ absurd (cc (rw e at h))
]

All-any_on_behalf :
    (rs : List Requirement) → All (λ r. r.on_behalf_of ≡ none) rs → any_on_behalf rs ≡ false
unfolding any_on_behalf
All-any_on_behalf [] h = refl
All-any_on_behalf (r ∷ rs) h = rw (h.0, All-any_on_behalf rs h.1) refl

-- A channel whose configuration enables the capability.
abbrev pub Enabled : Text → Option CapabilityChannelContext → Type 0
Enabled name none = ⊥
Enabled name (some channel) = Among name channel.enabled_capabilities

-- The capability is for the actor: it is the assistant's own, or the actor owns it.
abbrev pub For : {H : Type 0} → Capability H → Text → Type 0
For c actor_id = (is_user c.origin ≡ false) ⊎ (c.owner_id ≡ some actor_id)

abbrev pub Sees :
    {H : Type 0} → Capability H → SessionKind → Text → Option CapabilityChannelContext → Type 0
Sees c dm actor_id channel =
    Among everywhere c.available_in ⊎ (Among in_dm c.available_in × For c actor_id)
Sees c group actor_id channel =
    NoAuthority c
    × (Among everywhere c.available_in ⊎ (Among in_group c.available_in × Enabled c.name channel))

-- A test that is an `or`, an `and` or a conditional, told with the tests' meanings.
or_iff :
    {P Q : Type 0} (a b : Bool) → ((a ≡ true) ↔ P) → ((b ≡ true) ↔ Q) → ((a || b) ≡ true) ↔ (P ⊎ Q)
or_iff true b p q = (λ h. inl (p.0 refl), λ h. refl)
or_iff false b p q = (λ h. inr (q.0 h), λ s. elim s [ inl x ↦ absurd (cc (p.1 x)) | inr y ↦ q.1 y ])

and_iff :
    {P Q : Type 0} (a b : Bool) → ((a ≡ true) ↔ P) → ((b ≡ true) ↔ Q) → ((a && b) ≡ true) ↔ (P × Q)
and_iff true b p q = (λ h. (p.0 refl, q.0 h), λ h. q.1 h.1)
and_iff false b p q = (λ h. absurd (cc h), λ h. absurd (cc (p.1 h.0)))

offers_iff :
    (a : CapabilityAvailability) (bs : List CapabilityAvailability)
    → (offers a bs ≡ true) ↔ Among a bs
offers_iff a bs = (offers-Among a bs, Among-offers a bs)

is_owner_iff :
    (owner : Option Text) (actor_id : Text)
    → (is_owner owner actor_id ≡ true) ↔ (owner ≡ some actor_id)
is_owner_iff none actor_id = (λ h. absurd (cc h), λ h. absurd (cc h))
is_owner_iff (some o) actor_id =
    (λ h. ap some ((eq_iff o actor_id).0 h), λ h. (eq_iff o actor_id).1 (some-injective _ _ h))

For-iff :
    {H : Type 0} (c : Capability H) (actor_id : Text)
    → ((if is_user c.origin then is_owner c.owner_id actor_id else true) ≡ true) ↔ For c actor_id
For-iff c actor_id = elim (Bool-cases (is_user c.origin)) [
  | inl users ↦ rw users (
    λ h. inr ((is_owner_iff c.owner_id actor_id).0 h),
    λ s. elim s [ inl e ↦ absurd (cc e) | inr o ↦ (is_owner_iff c.owner_id actor_id).1 o ],
  )
  | inr shared ↦ rw shared (λ h. inl refl, λ s. refl)
]

Enabled-iff :
    (name : Text) (channel : Option CapabilityChannelContext)
    → (is_enabled name channel ≡ true) ↔ Enabled name channel
Enabled-iff name none = (λ h. absurd (cc h), λ h. elim h [ ])
Enabled-iff name (some channel) =
    (member-Among name channel.enabled_capabilities, Among-member name channel.enabled_capabilities)

module _ {H : Type 0} (c : Capability H) (actor : Actor) (channel : Option CapabilityChannelContext)
    (actor_id : Text) (named : non_empty_string actor.id ≡ ok actor_id) where
  can_use-dm : can_use c dm actor channel ≡ ok (usable_in c dm actor_id channel)
  unfolding can_use
  can_use-dm = elim (Bool-cases (requires_user_authority c)) [
    | inl b ↦ rw (named, b) refl
    | inr b ↦ rw (named, b) refl
  ]

  can_use-group :
      can_use c group actor channel
      ≡ ok (not (any_on_behalf c.requires) && usable_in c group actor_id channel)
  unfolding can_use requires_user_authority
  can_use-group = elim (Bool-cases (any_on_behalf c.requires)) [
    | inl b ↦ rw (named, b) refl
    | inr b ↦ rw (named, b) refl
  ]

NoAuthority-iff :
    {H : Type 0} (c : Capability H) → (not (any_on_behalf c.requires) ≡ true) ↔ NoAuthority c
NoAuthority-iff c = (
  λ h. any_on_behalf-All c.requires (not_true (any_on_behalf c.requires) h),
  λ h. ap not (All-any_on_behalf c.requires h),
)
  where
    not_true : (b : Bool) → not b ≡ true → b ≡ false
    not_true true h = cc
    not_true false h = refl

-- What `ok b` says, told of `b`.
returned_iff :
    {P : Type 0} (r : Result Bool) (b : Bool) → r ≡ ok b → ((b ≡ true) ↔ P) → (r ≡ ok true) ↔ P
returned_iff r b e p = (λ h. p.0 (ok-injective (sym e ∙ h)), λ x. e ∙ ap ok (p.1 x))

-- A capability can be used exactly by those who see it. In a DM: if it is offered everywhere, or in
-- DMs and is the assistant's own or the actor's. In a group: if nothing that it requires is on
-- somebody's behalf, and it is offered everywhere, or in groups and the channel enables it.
pub can_use_iff :
    {H : Type 0} (c : Capability H) (mode : SessionKind) (actor : Actor)
    (channel : Option CapabilityChannelContext) (actor_id : Text)
    → non_empty_string actor.id ≡ ok actor_id
    → (can_use c mode actor channel ≡ ok true) ↔ Sees c mode actor_id channel
can_use_iff c dm actor channel actor_id h =
    returned_iff (can_use c dm actor channel) _ (can_use-dm c actor channel actor_id h) (
      or_iff (offers everywhere c.available_in) _ (offers_iff everywhere c.available_in) (
        and_iff (offers in_dm c.available_in) _ (offers_iff in_dm c.available_in)
          (For-iff c actor_id)))
can_use_iff c group actor channel actor_id h =
    returned_iff (can_use c group actor channel) _ (can_use-group c actor channel actor_id h) (
      and_iff (not (any_on_behalf c.requires)) _ (NoAuthority-iff c) (
        or_iff (offers everywhere c.available_in) _ (offers_iff everywhere c.available_in) (
          and_iff (offers in_group c.available_in) _ (offers_iff in_group c.available_in)
            (Enabled-iff c.name channel))))
