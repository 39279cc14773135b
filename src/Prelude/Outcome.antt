-- ===== src/Prelude/Outcome.antt =====
-- Calls that may raise. An exception is its class; its message is left out, except where the
-- program reads it. An action is a method call on a shared state: what was written before a raise
-- stays written.
use mathlib.Core.Path.{◌≡◌, refl, ap}
use mathlib.Core.Logic.{◌⊎◌, inl, inr}
use mathlib.Core.Bool.{Bool}
use mathlib.Core.Option.{Option, none, some}
use mathlib.Core.List.{List, [], ◌∷◌}
use native.Mathlib.Omega.{arith}
use im_assistant.Prelude.Tests.{if◌then◌else◌}
use im_assistant.Prelude.Chars.{Text, strip, is_empty, strip-strip}

pub data Error : Type 0 where
  value_error : Error
  index_error : Error
  store_error : Error
  -- SQLite refuses a row: a key is taken, or a referenced row is missing
  integrity_error : Error
  interrupt_error : Error
  interrupt_not_found : Error
  responder_mismatch : Error
  interrupt_expired : Error
  auth_not_found : Error
  auth_expired : Error
  vault_error : Error
  -- CommandExecutionError
  command_error : Error
  capability_registry_error : Error
  credential_error : Error
  authorizer_error : Error
  -- AgentLoopStateError, AgentLoopToolError and CapabilityServiceError
  loop_state_error : Error
  loop_tool_error : Error
  service_error : Error
  runtime_error : Error
  -- what a function that is handed in raises
  refresh_rejected : Error
  other_error : Error

pub data Result {ℓ} (A : Type ℓ) : Type ℓ where
  ok : A → Result A
  err : Error → Result A

-- A call on a state: the result, and the state that it leaves.
abbrev pub Action {ℓ} : Type 0 → Type ℓ → Type ℓ
Action S A = S → Result A × S

module _ {ℓ} {S : Type 0} {A : Type ℓ} where
  abbrev pub pure : A → Action S A
  pure a s = (ok a, s)

  abbrev pub raise : Error → Action S A
  raise e s = (err e, s)

  abbrev pub lift : Result A → Action S A
  lift r s = (r, s)

  abbrev pub gets : (S → A) → Action S A
  gets f s = (ok (f s), s)

abbrev pub modify : {S : Type 0} → (S → S) → Action S (Unit {0})
modify f s = (ok tt, f s)

abbrev pub raise_if : {S : Type 0} → Bool → Error → Action S (Unit {0})
raise_if b e s = (if b then err e else ok tt, s)

-- A call's outcome handed on: a raise ends the block.
abbrev pub continue {ℓ κ} :
    {S : Type 0} {A : Type ℓ} {B : Type κ} → Result A × S → (A → Action S B) → Result B × S
continue (ok a, s) f = f a s
continue (err e, s) f = (err e, s)

infixl 5 ◌>>=◌ ◌>>◌
abbrev pub ◌>>=◌ {ℓ κ} :
    {S : Type 0} {A : Type ℓ} {B : Type κ} → Action S A → (A → Action S B) → Action S B
◌>>=◌ m f s = continue (m s) f

abbrev pub ◌>>◌ {ℓ κ} :
    {S : Type 0} {A : Type ℓ} {B : Type κ} → Action S A → Action S B → Action S B
m >> k = m >>= λ _. k

-- The same for a call with no state.
abbrev pub bind {ℓ κ} : {A : Type ℓ} {B : Type κ} → Result A → (A → Result B) → Result B
bind (ok a) f = f a
bind (err e) f = err e

pub bind-eq-ok {ℓ κ} :
    {A : Type ℓ} {B : Type κ} (m : Result A) (f : A → Result B) {b : B}
    → bind m f ≡ ok b
    → (a : A) × (m ≡ ok a) × (f a ≡ ok b)
bind-eq-ok (ok a) f h = (a, refl, h)
bind-eq-ok (err e) f h = cc

pub ok-injective {ℓ} : {A : Type ℓ} {a b : A} → ok a ≡ ok b → a ≡ b
ok-injective {a} h = ap (λ r. elim r [ ok x ↦ x | err _ ↦ a ]) h

pub Result-cases {ℓ} :
    {A : Type ℓ} (r : Result A) → ((a : A) × (r ≡ ok a)) ⊎ ((e : Error) × (r ≡ err e))
Result-cases (ok a) = inl (a, refl)
Result-cases (err e) = inr (e, refl)

-- `_non_empty_string`, which most modules have a copy of: the stripped text, unless it is empty.
unfoldable pub non_empty_string : Text → Result Text
non_empty_string value = let s = strip value in if is_empty s then err value_error else ok s

-- `_optional_string`: an empty text counts as absent.
unfoldable pub optional_string : Option Text → Option Text
optional_string none = none
optional_string (some value) = let s = strip value in if is_empty s then none else some s

-- `[_non_empty_string(v) for v in values]`
unfoldable pub non_empty_strings : List Text → Result (List Text)
non_empty_strings [] = ok []
non_empty_strings (v ∷ vs) =
    bind (non_empty_string v) λ s. bind (non_empty_strings vs) λ rest. ok (s ∷ rest)

-- What the check has returned, it returns again.
pub non_empty_string-fixed : (v s : Text) → non_empty_string v ≡ ok s → non_empty_string s ≡ ok s
unfolding non_empty_string
non_empty_string-fixed v s h = ground (arith, strip-strip v)

-- Inversion of an action that returned.
pub continue-eq-ok {ℓ κ} :
    {S : Type 0} {A : Type ℓ} {B : Type κ} (r : Result A × S) (f : A → Action S B) {b : B} {t : S}
    → continue r f ≡ (ok b, t)
    → (a : A) × (u : S) × (r ≡ (ok a, u)) × (f a u ≡ (ok b, t))
continue-eq-ok (ok a, u) f h = (a, u, refl, h)
continue-eq-ok (err e, u) f h = cc

pub returned-eq {ℓ} :
    {S : Type 0} {A : Type ℓ} {a b : A} {s t : S}
    → ◌≡◌ {A = Result A × S} (ok a, s) (ok b, t)
    → (a ≡ b) × (s ≡ t)
returned-eq h = (ok-injective (ap (λ p. p.0) h), ap (λ p. p.1) h)

-- The same where the first call has no state.
pub continue-lift-ok {ℓ κ} :
    {S : Type 0} {A : Type ℓ} {B : Type κ} (r : Result A) (f : A → Action S B) {s : S} {b : B}
    {t : S}
    → continue (r, s) f ≡ (ok b, t)
    → (a : A) × (r ≡ ok a) × (f a s ≡ (ok b, t))
continue-lift-ok (ok a) f h = (a, refl, h)
continue-lift-ok (err e) f h = cc
