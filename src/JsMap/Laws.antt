-- ===== src/JsMap/Laws.antt =====
-- Reading a `Map` after each of its operations.
use cursor_opencode_provider.Base.{
  ◌≡◌, refl, [], ◌∷◌, ◌++◌, none, some, if◌then◌else◌, Eq, ◌==◌, arith,
}
use cursor_opencode_provider.JsMap.{Map, get, set, delete, modify, touch}
use mathlib.Core.Option

module _ {ℓ κ} {K : Type ℓ} {V : Type κ} ⦃e : Eq K⦄ where
  pub get-set :
      (k j : K) (v : V) (m : Map K V) → get j (set k v m) ≡ (if k == j then some v else get j m)
  get-set k j v [] = refl
  get-set k j v ((i, w) ∷ m) =
      ground (arith, e.beq_iff k j, e.beq_iff i k, e.beq_iff i j, get-set k j v m)

  pub get-delete : (k j : K) (m : Map K V) → get j (delete k m) ≡ (if k == j then none else get j m)
  get-delete k j [] = ground arith
  get-delete k j ((i, w) ∷ m) =
      ground (arith, e.beq_iff k j, e.beq_iff i k, e.beq_iff i j, get-delete k j m)

  pub get-modify :
      (k j : K) (f : V → V) (m : Map K V)
      → get j (modify k f m) ≡ (if k == j then Option.map f (get j m) else get j m)
  get-modify k j f [] = ground arith
  get-modify k j f ((i, w) ∷ m) =
      ground (arith, e.beq_iff k j, e.beq_iff i k, e.beq_iff i j, get-modify k j f m)

  pub get-touch :
      (k j : K) (v : V) (m : Map K V) → get j (touch k v m) ≡ (if k == j then some v else get j m)
  get-touch k j v m = ground (arith, get-set k j v (delete k m), get-delete k j m)

  -- A new entry is the last one.
  set_of_new : (k : K) (v : V) (m : Map K V) → get k m ≡ none → set k v m ≡ m ++ ((k, v) ∷ [])
  set_of_new k v [] h = refl
  set_of_new k v ((j, w) ∷ m) h = ground (arith, set_of_new k v m)

  pub touch_last : (k : K) (v : V) (m : Map K V) → touch k v m ≡ delete k m ++ ((k, v) ∷ [])
  touch_last k v m = set_of_new k v (delete k m) (ground (arith, get-delete k k m, e.beq_iff k k))
