-- ===== src/JsMap/Bounds.antt =====
-- Sizes, and what the removal of the oldest entries leaves.
use cursor_opencode_provider.Base.{
  ℕ, suc, ◌≤◌, ◌≡◌, refl, [], ◌∷◌, ◌++◌, none, some, Eq, arith, length, length-append,
}
use cursor_opencode_provider.JsMap.{Map, get, delete, touch, evict}
use cursor_opencode_provider.JsMap.Laws.{touch_last, get-delete}

module _ {ℓ κ} {K : Type ℓ} {V : Type κ} where
  pub length-evict : (most : ℕ) (m : Map K V) → length (evict most m) ≤ most
  length-evict most [] = omega arith
  length-evict most (x ∷ m) = ground (arith, length-evict most m)

  pub evict_of_fits : (most : ℕ) (m : Map K V) → length m ≤ most → evict most m ≡ m
  evict_of_fits most [] h = refl
  evict_of_fits most (x ∷ m) h = ground arith

  -- The newest entry is dropped last.
  pub evict-append :
      (most : ℕ) (m : Map K V) (x : K × V)
      → evict (suc most) (m ++ (x ∷ [])) ≡ evict most m ++ (x ∷ [])
  evict-append most [] x = ground arith
  evict-append most (y ∷ m) x = ground (arith, evict-append most m x, length-append m (x ∷ []))

module _ {ℓ κ} {K : Type ℓ} {V : Type κ} ⦃e : Eq K⦄ where
  pub length-delete : (k : K) (m : Map K V) → length (delete k m) ≤ length m
  length-delete k [] = omega arith
  length-delete k ((j, w) ∷ m) = ground (arith, length-delete k m)

  pub get-append_new :
      (k : K) (v : V) (m : Map K V) → get k m ≡ none → get k (m ++ ((k, v) ∷ [])) ≡ some v
  get-append_new k v [] h = ground (arith, e.beq_iff k k)
  get-append_new k v ((j, w) ∷ m) h = ground (arith, get-append_new k v m)

  pub get-evict-none :
      (k : K) (most : ℕ) (m : Map K V) → get k m ≡ none → get k (evict most m) ≡ none
  get-evict-none k most [] h = refl
  get-evict-none k most ((j, w) ∷ m) h = ground (arith, get-evict-none k most m)

  -- The entry that was just written survives the eviction that follows.
  pub get-evict-touch :
      (k : K) (v : V) (most : ℕ) (m : Map K V) → get k (evict (suc most) (touch k v m)) ≡ some v
  get-evict-touch k v most m = ground (
    arith,
    touch_last k v m,
    evict-append most (delete k m) (k, v),
    get-delete k k m,
    e.beq_iff k k,
    get-evict-none k most (delete k m),
    get-append_new k v (evict most (delete k m)),
  )
