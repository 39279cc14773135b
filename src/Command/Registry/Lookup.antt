-- ===== src/Command/Registry/Lookup.antt =====
-- A registry as a finite map: what is registered is found, twice is refused, and the listing does
-- not depend on the order of registration.
use im_assistant.Prelude.{
  ◌≡◌, refl, sym, ap, ◌∙◌, subst, inl, inr, false, some, Text, ◌==◌, eq_refl, ok, err, ok-injective,
  value_error, Bool-cases, if◌then◌else◌,
}
use im_assistant.Prelude.Dict.{Dict, get, contains, set, get-set}
use im_assistant.Prelude.Sorted.{sorted_keys, values_at, contains-set_ne, values_at-set_comm}
use im_assistant.Command.{Command, normalize_command_name}
use im_assistant.Command.Registry.{register, get_command, list_commands}

module _ {H : Type 0} where
  register-eq :
      (c : Command H) (r r' : Dict (Command H))
      → register c r ≡ ok r'
      → (contains c.name r ≡ false) × (r' ≡ set c.name c r)
  unfolding register
  register-eq c r r' h = elim (Bool-cases (contains c.name r)) [
    | inl old ↦ absurd (cc (rw old at h))
    | inr new ↦ (new, sym (ok-injective (rw new at h)))
  ]

  -- After a registration the command is found under every spelling of its name, and every other
  -- name finds what it found before.
  pub get_command-register :
      (c : Command H) (r r' : Dict (Command H)) (name key : Text)
      → register c r ≡ ok r'
      → normalize_command_name name ≡ ok key
      → get_command name r' ≡ ok (if c.name == key then some c else get key r)
  unfolding get_command
  get_command-register c r r' name key h k =
      let (_, e) = register-eq c r r' h in rw (k, e, get-set c.name key c r) refl

  -- A second command of a name is refused.
  pub register_again :
      (c d : Command H) (r r' : Dict (Command H))
      → register c r ≡ ok r'
      → d.name ≡ c.name
      → register d r' ≡ err value_error
  unfolding register contains
  register_again c d r r' h same =
      let (_, e) = register-eq c r r' h in
      rw (e, get-set c.name d.name c r, same, eq_refl c.name) refl

  absent_ne :
      (c : Command H) (k : Text) (r : Dict (Command H))
      → contains k (set c.name c r) ≡ false
      → c.name ≡ k
      → ⊥
  unfolding contains
  absent_ne c k r h e = absurd (cc (rw (sym e, get-set c.name c.name c r, eq_refl c.name) at h))

  -- Commands of different names can be registered in either order: both orders are accepted, and
  -- the listing is the same.
  pub list_commands-register_comm :
      (c d : Command H) (r rc rcd : Dict (Command H))
      → register c r ≡ ok rc
      → register d rc ≡ ok rcd
      → (rd : Dict (Command H)) × (rdc : Dict (Command H)) × (register d r ≡ ok rd)
        × (register c rd ≡ ok rdc)
        × (list_commands rdc ≡ list_commands rcd)
  unfolding register list_commands
  list_commands-register_comm c d r rc rcd h k =
      let (new_c, ec) = register-eq c r rc h in
      let (new_d, ed) = register-eq d rc rcd k in
      let after : contains d.name (set c.name c r) ≡ false =
        subst (λ t. contains d.name t ≡ false) ec new_d in
      let ne = absent_ne c d.name r after in
      let before = sym (contains-set_ne c.name d.name c r ne) ∙ after in
      let other = contains-set_ne d.name c.name d r (λ e. ne (sym e)) ∙ new_c in
      (
        set d.name d r,
        set c.name c (set d.name d r),
        rw before refl,
        rw other refl,
        sym (values_at-set_comm c.name d.name c d r new_c before ne)
            ∙ ap (λ t. values_at (sorted_keys t) t) (sym (ed ∙ ap (set d.name d) ec)),
      )
