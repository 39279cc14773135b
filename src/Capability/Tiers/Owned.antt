-- ===== src/Capability/Tiers/Owned.antt =====
-- Where a loaded capability comes from, and whose it is (src/capabilities/registry.py).
use mathlib.Core.Option.{some-injective}
use im_assistant.Prelude.{
  ◌≡◌, ◌⊎◌, refl, subst, inl, inr, Option, none, some, List, [], ◌∷◌, Text, ◌==◌, All, ok,
  bind-eq-ok, ok-injective, Bool-cases,
}
use im_assistant.Prelude.Dict.{Dict, get, set}
use im_assistant.Capability.{Capability, system, base, user}
use im_assistant.Capability.Registry.{register, register_each}
use im_assistant.Capability.Tiers.{
  Directory, load_capabilities_from_directory, user_tier, load_capability_registry,
}
use im_assistant.Capability.Tiers.Loading.{Exports, IsFrom, directory-IsFrom}

module _ {H : Type 0} where
  -- The three places that a capability of the registry may come from.
  abbrev pub IsOwned :
      Directory H → Directory H → (Text → Directory H) → Option Text → Capability H → Type 0
  IsOwned system_dir base_dir user_dir user_id c =
      IsFrom system none (Exports system_dir) c
      ⊎ (IsFrom base none (Exports base_dir) c
          ⊎ ((u : Text) × (user_id ≡ some u) × IsFrom user (some u) (Exports (user_dir u)) c))

  All-into :
      (P Q : Capability H → Type 0) (cs : List (Capability H))
      → ((c : Capability H) → P c → Q c)
      → All P cs
      → All Q cs
  All-into P Q [] f a = tt
  All-into P Q (c ∷ cs) f a = (f c a.0, All-into P Q cs f a.1)

module _ {H : Type 0} (P : Capability H → Type 0) where
  set-All :
      (k : Text) (c : Capability H) (d : Dict (Capability H))
      → P c
      → All (λ e. P e.1) d
      → All (λ e. P e.1) (set k c d)
  unfolding set
  set-All k c [] h v = (h, tt)
  set-All k c ((j, b) ∷ d) h v = elim (Bool-cases (j == k)) [
    | inl same ↦ rw same (h, v.1)
    | inr other ↦ rw other (v.0, set-All k c d h v.1)
  ]

  register_each-All :
      (cs : List (Capability H)) (d : Dict (Capability H))
      → All P cs
      → All (λ e. P e.1) d
      → All (λ e. P e.1) (register_each cs d)
  unfolding register_each register
  register_each-All [] d h v = v
  register_each-All (c ∷ cs) d h v =
      register_each-All cs (set c.name c d) h.1 (set-All c.name c d h.0 v)

  get-All :
      (k : Text) (c : Capability H) (d : Dict (Capability H))
      → All (λ e. P e.1) d
      → get k d ≡ some c
      → P c
  unfolding get
  get-All k c [] v h = cc
  get-All k c ((j, b) ∷ d) v h = elim (Bool-cases (j == k)) [
    | inl same ↦ subst P (some-injective _ _ (rw same at h)) v.0
    | inr other ↦ get-All k c d v.1 (rw other at h)
  ]

user_tier-IsFrom :
    {H : Type 0} (user_id : Option Text) (user_dir : Text → Directory H) (cs : List (Capability H))
    → user_tier user_id user_dir ≡ ok cs
    → All (λ c. (u : Text) × (user_id ≡ some u) × IsFrom user (some u) (Exports (user_dir u)) c) cs
user_tier-IsFrom none user_dir cs h = subst (All _) (ok-injective h) tt
user_tier-IsFrom (some u) user_dir cs h =
    All-into (IsFrom user (some u) (Exports (user_dir u))) _ cs (λ c x. (u, refl, x))
      (directory-IsFrom user (some u) (user_dir u) cs tt h)

-- Whatever the directories hold, a capability that is found in the loaded registry was exported by a
-- file of one of them, of the tier of its origin. It is the export itself, unless that is a private
-- capability with no owner: then the owner is the user that the registry is loaded for, without white
-- space around, and nothing else is changed. The private ones are those of that user's directory only.
pub load_capability_registry-IsOwned :
    {H : Type 0} (system_dir base_dir : Directory H) (user_dir : Text → Directory H)
    (user_id : Option Text) (registry : Dict (Capability H)) (name : Text) (c : Capability H)
    → load_capability_registry system_dir base_dir user_dir user_id ≡ ok registry
    → get name registry ≡ some c
    → IsOwned system_dir base_dir user_dir user_id c
unfolding load_capability_registry
load_capability_registry-IsOwned system_dir base_dir user_dir user_id registry name c h found =
    let (first, one, h1) =
      bind-eq-ok (load_capabilities_from_directory system none system_dir) _ h in
    let (second, two, h2) = bind-eq-ok (load_capabilities_from_directory base none base_dir) _ h1 in
    let (third, three, h3) = bind-eq-ok (user_tier user_id user_dir) _ h2 in
    let P = IsOwned system_dir base_dir user_dir user_id in
    let shared =
      register_each-All P first []
        (All-into _ P first (λ x a. inl a) (directory-IsFrom system none system_dir first tt one))
        tt in
    let both =
      register_each-All P second (register_each first [])
        (All-into _ P second (λ x a. inr (inl a))
          (directory-IsFrom base none base_dir second tt two))
        shared in
    let all =
      register_each-All P third (register_each second (register_each first []))
        (All-into _ P third (λ x a. inr (inr a)) (user_tier-IsFrom user_id user_dir third three))
        both in
    get-All P name c registry (subst (All (λ e. P e.1)) (ok-injective h3) all) found
