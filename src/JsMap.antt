-- ===== src/JsMap.antt =====
-- A JavaScript `Map`: its entries in insertion order, with the operations that the sources use.
-- Keys are unique, so `delete` may drop every entry of a key.
pub mod Laws
pub mod Bounds
use cursor_opencode_provider.Base.{
  ℕ, Bool, List, [], ◌∷◌, ◌++◌, Option, none, some, if◌then◌else◌, ltb, Eq, ◌==◌, length, is_some,
}

abbrev pub Map {ℓ κ} : Type ℓ → Type κ → Type (ℓ ⊔ κ)
Map K V = List (K × V)

module _ {ℓ κ} {K : Type ℓ} {V : Type κ} ⦃e : Eq K⦄ where
  abbrev pub get : K → Map K V → Option V
  get k [] = none
  get k ((j, v) ∷ m) = if j == k then some v else get k m

  abbrev pub has : K → Map K V → Bool
  has k m = is_some (get k m)

  -- `Map.prototype.set`: a present key keeps its place, a new one goes to the end.
  abbrev pub set : K → V → Map K V → Map K V
  set k v [] = (k, v) ∷ []
  set k v ((j, w) ∷ m) = if j == k then (j, v) ∷ m else (j, w) ∷ set k v m

  abbrev pub delete : K → Map K V → Map K V
  delete k [] = []
  delete k ((j, w) ∷ m) = let rest = delete k m in if j == k then rest else (j, w) ∷ rest

  -- An assignment to fields of the object that is stored under `k`.
  abbrev pub modify : K → (V → V) → Map K V → Map K V
  modify k f [] = []
  modify k f ((j, w) ∷ m) = if j == k then (j, f w) ∷ m else (j, w) ∷ modify k f m

  -- `map.delete(k); map.set(k, v)`: the entry becomes the newest.
  abbrev pub touch : K → V → Map K V → Map K V
  touch k v m = set k v (delete k m)

-- `while (map.size > most) map.delete(map.keys().next().value)`
abbrev pub evict {ℓ κ} : {K : Type ℓ} {V : Type κ} → ℕ → Map K V → Map K V
evict most [] = []
evict most (x ∷ m) = if ltb most (length (x ∷ m)) then evict most m else x ∷ m
