-- ===== src/Json.antt =====
-- JSON values as Python holds them (`Mapping[str, Any]`): the contexts, payloads and metadata of
-- the program. A mapping keeps its keys in insertion order. Floats are left out.
pub mod Plain
pub mod Fixed
pub mod Equal
use im_assistant.Prelude.{
  ℕ, ◌≡◌, refl, Bool, true, false, not, Option, none, some, Text, is_empty, eqb, ◌==◌, eq_iff,
  eq_refl, is_some, if◌then◌else◌, arith,
}

mutual
  pub data Value : Type 0 where
    null : Value
    boolean : Bool → Value
    number : ℕ → Value
    -- -(n + 1)
    negative : ℕ → Value
    text : Text → Value
    array : Items → Value
    object : Mapping → Value

  pub data Items : Type 0 where
    nil : Items
    cons : Value → Items → Items

  pub data Mapping : Type 0 where
    empty : Mapping
    entry : Text → Value → Mapping → Mapping

-- `m.get(k)`
unfoldable pub get : Text → Mapping → Option Value
get k empty = none
get k (entry j v m) = if j == k then some v else get k m

-- `m[k] = v`
unfoldable pub set : Text → Value → Mapping → Mapping
set k v empty = entry k v empty
set k v (entry j w m) = if j == k then entry j v m else entry j w (set k v m)

-- `m.pop(k, None)`
unfoldable pub pop : Text → Mapping → Mapping
pop k empty = empty
pop k (entry j w m) = if j == k then m else entry j w (pop k m)

-- `m.update(n)`
unfoldable pub merge : Mapping → Mapping → Mapping
merge m empty = m
merge m (entry k v n) = merge (set k v m) n

-- `bool(v)`
unfoldable pub truthy : Value → Bool
truthy null = false
truthy (boolean b) = b
truthy (number n) = not (eqb n 0)
truthy (negative n) = true
truthy (text s) = not (is_empty s)
truthy (array nil) = false
truthy (array (cons _ _)) = true
truthy (object empty) = false
truthy (object (entry _ _ _)) = true

-- `bool(m.get(k))`
abbrev pub truthy_opt : Option Value → Bool
truthy_opt none = false
truthy_opt (some v) = truthy v

-- A read after a write.
pub get-set :
    (k j : Text) (v : Value) (m : Mapping)
    → get j (set k v m) ≡ (if k == j then some v else get j m)
unfolding get set
get-set k j v empty = refl
get-set k j v (entry i w m) = ground (arith, eq_iff k j, eq_iff i k, eq_iff i j, get-set k j v m)

pub get-set_self : (k : Text) (v : Value) (m : Mapping) → get k (set k v m) ≡ some v
get-set_self k v m = rw (get-set k k v m, eq_refl k)

pub get-pop_ne : (k j : Text) (m : Mapping) → (j ≡ k → ⊥) → get j (pop k m) ≡ get j m
unfolding get pop
get-pop_ne k j empty h = refl
get-pop_ne k j (entry i w m) h = ground (arith, eq_iff i k, eq_iff i j, get-pop_ne k j m h)

-- Writing a key that is absent and removing it again gives the mapping back.
pub pop-set_absent : (k : Text) (v : Value) (m : Mapping) → get k m ≡ none → pop k (set k v m) ≡ m
unfolding get set pop
pop-set_absent k v empty h = ground (arith, eq_refl k)
pop-set_absent k v (entry i w m) h = ground (arith, pop-set_absent k v m)

pub pop_absent : (k : Text) (m : Mapping) → get k m ≡ none → pop k m ≡ m
unfolding get pop
pop_absent k empty h = refl
pop_absent k (entry i w m) h = ground (arith, pop_absent k m)

-- Removing a key forgets what was last written to it.
pub pop-set : (k : Text) (v : Value) (m : Mapping) → pop k (set k v m) ≡ pop k m
unfolding set pop
pop-set k v empty = ground (arith, eq_refl k)
pop-set k v (entry i w m) = ground (arith, pop-set k v m)
