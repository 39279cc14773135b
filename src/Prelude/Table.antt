-- ===== src/Prelude/Table.antt =====
-- A table as the list of its rows in insertion order, under the statements that the program sends:
-- SELECT is `find` or `select`, UPDATE is `update`, DELETE is `delete`, and the count of the rows
-- concerned is `count`.
pub mod Reads
pub mod Keys
use Prim.Native.Nat.{ℕ, suc}
use mathlib.Core.Bool.{Bool, true, false}
use mathlib.Core.Option.{Option, none, some}
use mathlib.Core.List.{List, [], ◌∷◌}
use im_assistant.Prelude.Tests.{if◌then◌else◌}

module _ {ℓ} {R : Type ℓ} (p : R → Bool) where
  unfoldable pub find : List R → Option R
  find [] = none
  find (r ∷ rs) = if p r then some r else find rs

  unfoldable pub select : List R → List R
  select [] = []
  select (r ∷ rs) = let rest = select rs in if p r then r ∷ rest else rest

  unfoldable pub delete : List R → List R
  delete [] = []
  delete (r ∷ rs) = let rest = delete rs in if p r then rest else r ∷ rest

  unfoldable pub update : (R → R) → List R → List R
  update f [] = []
  update f (r ∷ rs) = (if p r then f r else r) ∷ update f rs

  unfoldable pub count : List R → ℕ
  count [] = 0
  count (r ∷ rs) = let rest = count rs in if p r then suc rest else rest

  unfoldable pub exists : List R → Bool
  exists [] = false
  exists (r ∷ rs) = if p r then true else exists rs
