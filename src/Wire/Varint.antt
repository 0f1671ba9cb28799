-- ===== src/Wire/Varint.antt =====
-- The two varint readers on what the writer gives, and on each other's input.
use Prim.Native.Nat.{bit_or}
use native.Mathlib.Nat.{pow-le-pow_right, pow-suc, zero-mul, mul-le-mul_right}
use cursor_opencode_provider.Base.{
  ◌+◌, ◌*◌, ◌%◌, ◌^◌, ◌≤◌, ◌<◌, ℕ, zero, suc, ◌≡◌, refl, inl, inr, some, [], ◌∷◌, arith, ltb,
  Bool-cases, length, string_eq, nat_eq,
}
use cursor_opencode_provider.Base.Bits.{bit_or-shifted, bit_or-zero}
use cursor_opencode_provider.Wire.{
  Bytes, shifted, read_varint_loop, read_varint_at, bounded_loop, read_bounded_varint,
}

pub pow-add_seven : (s : ℕ) → 2 ^ (s + 7) ≡ 128 * 2 ^ s
pow-add_seven s =
    let steps : s + 7 ≡ suc (suc (suc (suc (suc (suc (suc s)))))) = omega arith in
    rw steps (
      omega (
        arith,
        pow-suc 2 s,
        pow-suc 2 (suc s),
        pow-suc 2 (suc (suc s)),
        pow-suc 2 (suc (suc (suc s))),
        pow-suc 2 (suc (suc (suc (suc s)))),
        pow-suc 2 (suc (suc (suc (suc (suc s))))),
        pow-suc 2 (suc (suc (suc (suc (suc (suc s)))))),
      ))

-- Nothing but 0 fits 32 bits after a shift by 32 or more.
no_bits : (g s : ℕ) → 32 ≤ s → g * 2 ^ s < 4294967296 → g ≡ 0
no_bits zero s h small = refl
no_bits (suc g) s h small =
    absurd
      (omega (arith, pow-le-pow_right {n = 2} (omega arith) h, mul-le-mul_right (2 ^ s) (one_le g)))
  where
    one_le : (n : ℕ) → 1 ≤ suc n
    one_le n = omega arith

-- A group that fits 32 bits above the ones read: the wrapped shift is the plain one.
bit_or-group :
    (x r s : ℕ)
    → r < 2 ^ s
    → r + x % 128 * 2 ^ s < 4294967296
    → bit_or r (shifted x s) ≡ r + x % 128 * 2 ^ s
bit_or-group x r s fits small = elim (Bool-cases (ltb s 32)) [
  | inl e ↦
      let same : s % 32 ≡ s = ground arith in
      let whole : x % 128 * 2 ^ s % 4294967296 ≡ x % 128 * 2 ^ s = omega arith in
      rw (same, whole) (bit_or-shifted s r (x % 128) fits)
  | inr e ↦
      let none_left : x % 128 ≡ 0 = no_bits (x % 128) s (ground arith) (omega arith) in
      rw (none_left, zero-mul, zero-mul) (omega (arith, bit_or-zero r))
]

-- The value never gets less.
bounded_loop-le :
    (count : ℕ) (b : Bytes) (r s maximum value : ℕ) (rest : Bytes)
    → bounded_loop count b r s maximum ≡ some (value, rest)
    → r ≤ value
unfolding bounded_loop
bounded_loop-le zero b r s maximum value rest e = ground arith
bounded_loop-le (suc count) [] r s maximum value rest e = ground arith
bounded_loop-le (suc count) (x ∷ b) r s maximum value rest e =
    ground (arith, bounded_loop-le count b (r + x % 128 * 2 ^ s) (s + 7) maximum value rest)

group_fits : (x r s : ℕ) → r < 2 ^ s → r + x % 128 * 2 ^ s < 2 ^ (s + 7)
group_fits x r s h = omega (arith, pow-add_seven s, mul-le-mul_right (2 ^ s) (group_le x))
  where
    group_le : (n : ℕ) → n % 128 ≤ 127
    group_le n = omega arith

-- The lax reader agrees with the strict one wherever the value has 32 bits.
pub read_varint_loop-bounded :
    (count : ℕ) (b : Bytes) (r s maximum value : ℕ) (rest : Bytes)
    → r < 2 ^ s
    → bounded_loop count b r s maximum ≡ some (value, rest)
    → value < 4294967296
    → read_varint_loop b r s ≡ (value, rest)
unfolding bounded_loop read_varint_loop
read_varint_loop-bounded zero b r s maximum value rest h e small = ground arith
read_varint_loop-bounded (suc count) [] r s maximum value rest h e small = ground arith
read_varint_loop-bounded (suc count) (x ∷ b) r s maximum value rest h e small =
    let below = bounded_loop-le count b (r + x % 128 * 2 ^ s) (s + 7) maximum value rest in
    let group = bit_or-group x r s h in
    ground (
      arith,
      below,
      group,
      group_fits x r s h,
      read_varint_loop-bounded count b (r + x % 128 * 2 ^ s) (s + 7) maximum value rest,
    )

-- A varint that the strict reader takes is read alike by the other, and takes a byte at least.
pub read_varint_at-bounded :
    (b : Bytes) (maximum value : ℕ) (rest : Bytes)
    → read_bounded_varint b maximum ≡ some (value, rest)
    → value < 4294967296
    → read_varint_at b ≡ (value, rest)
unfolding read_varint_at read_bounded_varint
read_varint_at-bounded b maximum value rest e small =
    read_varint_loop-bounded 10 b 0 0 maximum value rest (omega arith) e small

bounded_loop_bounds :
    (count : ℕ) (b : Bytes) (r s maximum value : ℕ) (rest : Bytes)
    → bounded_loop count b r s maximum ≡ some (value, rest)
    → (length rest < length b) × (value ≤ maximum)
unfolding bounded_loop
bounded_loop_bounds zero b r s maximum value rest e = ground arith
bounded_loop_bounds (suc count) [] r s maximum value rest e = ground arith
bounded_loop_bounds (suc count) (x ∷ b) r s maximum value rest e =
    ground (arith, bounded_loop_bounds count b (r + x % 128 * 2 ^ s) (s + 7) maximum value rest)

pub read_bounded_varint_bounds :
    (b : Bytes) (maximum value : ℕ) (rest : Bytes)
    → read_bounded_varint b maximum ≡ some (value, rest)
    → (length rest < length b) × (value ≤ maximum)
unfolding read_bounded_varint
read_bounded_varint_bounds b maximum value rest e =
    bounded_loop_bounds 10 b 0 0 maximum value rest e
