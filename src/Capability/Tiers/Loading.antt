-- ===== src/Capability/Tiers/Loading.antt =====
-- What a directory of a tier loads comes from the exports of its files (src/capabilities/registry.py).
use im_assistant.Prelude.{
  ◌≡◌, ◌⊎◌, refl, sym, ap, ◌∙◌, subst, inl, inr, true, false, Option, none, some, List, [], ◌∷◌,
  Text, All, All-append, Among, ok, bind, bind-eq-ok, ok-injective, non_empty_string, Bool-cases,
  if◌then◌else◌,
}
use im_assistant.Capability.{checked_optional, Capability, CapabilityOrigin, system, base, user}
use im_assistant.Capability.Tiers.{
  same_origin, Directory, missing, other_file, files, owned_by, capability_for_tier,
  capabilities_for_tier, exported, is_skipped, load_files, load_capabilities_from_directory,
}

-- What a module of one of the files exports, the skipped files left out.
abbrev pub ExportedBy :
    {H : Type 0} → List (Text × Option (List (Capability H))) → Capability H → Type 0
ExportedBy {H} fs c =
    (name : Text) × (cs : List (Capability H)) × Among (name, some cs) fs
    × (is_skipped name ≡ false)
    × Among c cs

abbrev pub Exports : {H : Type 0} → Directory H → Capability H → Type 0
Exports missing c = ⊥
Exports other_file c = ⊥
Exports (files fs) c = ExportedBy fs c

-- A private capability `c` that is loaded from the export `e`, for `owner`: it keeps the owner that
-- it names, and is `owner`'s, without white space around, where it names none.
abbrev pub Owned : {H : Type 0} → Option Text → Capability H → Capability H → Type 0
Owned owner e c =
    ((o : Text) × (e.owner_id ≡ some o) × (c ≡ e))
    ⊎ ((e.owner_id ≡ none)
        × ((u : Text) × (o : Text) × (owner ≡ some u)
            × (non_empty_string u ≡ ok o)
            × (c ≡ record e { owner_id = some o })))

-- What a tier makes of an export: the shared tiers take it as it is.
abbrev pub Placed :
    {H : Type 0} → CapabilityOrigin → Option Text → Capability H → Capability H → Type 0
Placed system owner e c = c ≡ e
Placed base owner e c = c ≡ e
Placed user owner e c = Owned owner e c

-- A capability that the tier `origin` has taken from the exports `From`.
pub record IsFrom {H : Type 0} (origin : CapabilityOrigin) (owner : Option Text)
    (From : Capability H → Type 0) (c : Capability H) : Type 0 where
  pub export : Capability H
  pub exported_there : From export
  pub same_tier : export.origin ≡ origin
  pub placed : Placed origin owner export c

-- Private capabilities are loaded for somebody.
abbrev pub HasOwner : CapabilityOrigin → Option Text → Type 0
HasOwner system owner = Unit
HasOwner base owner = Unit
HasOwner user none = ⊥
HasOwner user (some o) = Unit

same_origin-user : (a b : CapabilityOrigin) → same_origin a b ≡ true → a ≡ b
same_origin-user system system h = refl
same_origin-user base base h = refl
same_origin-user user user h = refl
same_origin-user system base h = cc
same_origin-user system user h = cc
same_origin-user base system h = cc
same_origin-user base user h = cc
same_origin-user user system h = cc
same_origin-user user base h = cc

module _ {H : Type 0} where
  owned_by-Owned :
      (u : Text) (e c : Capability H) (owner : Option Text)
      → e.owner_id ≡ owner
      → owned_by (some u) e owner ≡ ok c
      → Owned (some u) e c
  owned_by-Owned u e c (some p) named h = inl (p, named, sym (ok-injective h))
  owned_by-Owned u e c none unnamed h =
      let (checked, found, h1) = bind-eq-ok (checked_optional (some u)) _ h in
      let (o, normal, h2) = bind-eq-ok (non_empty_string u) _ found in
      let is_o : some o ≡ checked = ok-injective h2 in
      inr (
        unnamed,
        (
          u,
          o,
          refl,
          normal,
          sym (ok-injective h1) ∙ ap (λ x. record e { owner_id = x }) (sym is_o),
        ),
      )

  in_tier :
      (origin : CapabilityOrigin) (owner : Option Text) (e c : Capability H)
      → HasOwner origin owner
      → (if same_origin origin user then owned_by owner e e.owner_id else ok e) ≡ ok c
      → Placed origin owner e c
  in_tier system owner e c has h = sym (ok-injective h)
  in_tier base owner e c has h = sym (ok-injective h)
  in_tier user none e c has h = elim has [ ]
  in_tier user (some u) e c has h = owned_by-Owned u e c e.owner_id refl h

  capability_for_tier-Placed :
      (origin : CapabilityOrigin) (owner : Option Text) (e c : Capability H)
      → HasOwner origin owner
      → capability_for_tier origin owner e ≡ ok c
      → (e.origin ≡ origin) × Placed origin owner e c
  unfolding capability_for_tier
  capability_for_tier-Placed origin owner e c has h =
      elim (Bool-cases (same_origin e.origin origin)) [
        | inr other ↦ absurd (cc (rw other at h))
        | inl same ↦
            (same_origin-user e.origin origin same, in_tier origin owner e c has (rw same at h))
      ]

  -- A larger place to come from.
  IsFrom-wider :
      (origin : CapabilityOrigin) (owner : Option Text) (P Q : Capability H → Type 0)
      → ((e : Capability H) → P e → Q e)
      → (cs : List (Capability H)) → All (IsFrom origin owner P) cs
      → All (IsFrom origin owner Q) cs
  IsFrom-wider origin owner P Q f [] a = tt
  IsFrom-wider origin owner P Q f (c ∷ cs) a = (
    record {
      export = a.0.export;
      exported_there = f a.0.export a.0.exported_there;
      same_tier = a.0.same_tier;
      placed = a.0.placed;
    },
    IsFrom-wider origin owner P Q f cs a.1,
  )

  capabilities_for_tier-IsFrom :
      (origin : CapabilityOrigin) (owner : Option Text) (es cs : List (Capability H))
      → HasOwner origin owner
      → capabilities_for_tier origin owner es ≡ ok cs
      → All (IsFrom origin owner (λ e. Among e es)) cs
  unfolding capabilities_for_tier
  capabilities_for_tier-IsFrom origin owner [] cs has h =
      subst (All (IsFrom origin owner (λ e. Among e []))) (ok-injective h) tt
  capabilities_for_tier-IsFrom origin owner (e ∷ es) cs has h =
      let (c, first, h1) = bind-eq-ok (capability_for_tier origin owner e) _ h in
      let (rest, more, h2) = bind-eq-ok (capabilities_for_tier origin owner es) _ h1 in
      let (tier, placed) = capability_for_tier-Placed origin owner e c has first in
      subst (All (IsFrom origin owner (λ x. Among x (e ∷ es)))) (ok-injective h2) (
        record { export = e; exported_there = inl refl; same_tier = tier; placed = placed },
        IsFrom-wider origin owner (λ x. Among x es) (λ x. Among x (e ∷ es)) (λ x a. inr a) rest
            (capabilities_for_tier-IsFrom origin owner es rest has more),
      )

  module-IsFrom :
      (origin : CapabilityOrigin) (owner : Option Text) (name : Text)
      (exports : Option (List (Capability H))) (fs : List (Text × Option (List (Capability H))))
      (cs : List (Capability H))
      → HasOwner origin owner
      → is_skipped name ≡ false
      → bind (exported exports) (λ es. capabilities_for_tier origin owner es) ≡ ok cs
      → All (IsFrom origin owner (ExportedBy ((name, exports) ∷ fs))) cs
  module-IsFrom origin owner name none fs cs has loaded h = absurd (cc h)
  module-IsFrom origin owner name (some es) fs cs has loaded h =
      IsFrom-wider origin owner (λ x. Among x es) (ExportedBy ((name, some es) ∷ fs))
        (λ x a. (name, es, inl refl, loaded, a)) cs
        (capabilities_for_tier-IsFrom origin owner es cs has h)

  file-IsFrom :
      (origin : CapabilityOrigin) (owner : Option Text) (name : Text)
      (exports : Option (List (Capability H))) (fs : List (Text × Option (List (Capability H))))
      (cs : List (Capability H))
      → HasOwner origin owner
      → (if is_skipped name
          then ok []
          else bind (exported exports) λ es. capabilities_for_tier origin owner es)
        ≡ ok cs
      → All (IsFrom origin owner (ExportedBy ((name, exports) ∷ fs))) cs
  file-IsFrom origin owner name exports fs cs has h = elim (Bool-cases (is_skipped name)) [
    | inl skipped ↦
        subst (All (IsFrom origin owner (ExportedBy ((name, exports) ∷ fs))))
          (ok-injective (rw skipped at h)) tt
    | inr loaded ↦ module-IsFrom origin owner name exports fs cs has loaded (rw loaded at h)
  ]

  load_files-IsFrom :
      (origin : CapabilityOrigin) (owner : Option Text)
      (fs : List (Text × Option (List (Capability H)))) (cs : List (Capability H))
      → HasOwner origin owner
      → load_files origin owner fs ≡ ok cs
      → All (IsFrom origin owner (ExportedBy fs)) cs
  unfolding load_files
  load_files-IsFrom origin owner [] cs has h =
      subst (All (IsFrom origin owner (ExportedBy []))) (ok-injective h) tt
  load_files-IsFrom origin owner ((name, exports) ∷ fs) cs has h =
      let (found, first, h1) = bind-eq-ok (if is_skipped name then ok [] else _) _ h in
      let (more, rest, h2) = bind-eq-ok (load_files origin owner fs) _ h1 in
      let here = ExportedBy ((name, exports) ∷ fs) in
      subst (All (IsFrom origin owner here)) (ok-injective h2) (
        All-append (IsFrom origin owner here) found more
          (file-IsFrom origin owner name exports fs found has first)
          (IsFrom-wider origin owner (ExportedBy fs) here
            (λ x e. let (n, es, a, l, m) = e in (n, es, inr a, l, m)) more
            (load_files-IsFrom origin owner fs more has rest)))

  pub directory-IsFrom :
      (origin : CapabilityOrigin) (owner : Option Text) (dir : Directory H)
      (cs : List (Capability H))
      → HasOwner origin owner
      → load_capabilities_from_directory origin owner dir ≡ ok cs
      → All (IsFrom origin owner (Exports dir)) cs
  unfolding load_capabilities_from_directory
  directory-IsFrom origin owner missing cs has h =
      subst (All (IsFrom origin owner (Exports missing))) (ok-injective h) tt
  directory-IsFrom origin owner other_file cs has h = cc
  directory-IsFrom origin owner (files fs) cs has h = load_files-IsFrom origin owner fs cs has h
