-- ===== src/Base/Keys.antt =====
-- Equality of the keys of a JavaScript `Map` or `Set`, as an interface with its instances.
use Prim.Native.Nat.{ℕ}
use Prim.Native.String.{String}
use mathlib.Core.Path.{◌≡◌}
use mathlib.Core.Logic.{◌↔◌}
use mathlib.Core.Bool.{Bool, true}
use text.Mathlib.Text.{◌==◌ as str_eq}
use text.Mathlib.TextEquality.{eq_iff}
use cursor_opencode_provider.Base.Tests.{nat_beq, nat_beq_iff}

-- A Boolean test and the proof that it decides the path.
pub record Eq {ℓ} (Key : Type ℓ) : Type ℓ where
  pub beq : (k j : Key) → Bool
  pub beq_iff : (k j : Key) → (beq k j ≡ true) ↔ (k ≡ j)

instance abbrev pub string_eq : Eq String
string_eq = record { beq_iff = eq_iff; beq = str_eq }

module _ {ℓ} {Key : Type ℓ} ⦃keys : Eq Key⦄ where
  infix 50 ◌==◌
  -- `===` on keys.
  abbrev pub ◌==◌ : (k j : Key) → Bool
  k == j = keys.beq k j

  pub eq_refl : (k : Key) → (k == k) ≡ true
  eq_refl k = (keys.beq_iff k k).1 (λ i. k)

instance abbrev pub nat_eq : Eq ℕ
nat_eq = record { beq_iff = nat_beq_iff; beq = nat_beq }
