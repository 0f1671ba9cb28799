-- ===== src/Wire/Payloads.antt =====
-- The bytes of a field are shorter than its message.
use Prim.Native.Nat.{bit_or}
use cursor_opencode_provider.Base.{
  ◌+◌, ◌/◌, ◌%◌, ◌≤◌, ◌<◌, ℕ, zero, suc, ◌≡◌, refl, inl, inr, Bool, true, ◌&&◌, Option, none, some,
  List, [], ◌∷◌, arith, ltb, Option-cases, length, length-take, length-drop, string_eq, nat_eq,
}
use cursor_opencode_provider.Wire.{
  Bytes, shifted, read_varint_loop, read_varint_at, FieldValue, RawField, read_value, push_field,
  read_round, read_fields_loop, read_all_fields, varint, bytes, fixed64,
}

abbrev pub is_shorter : ℕ → FieldValue → Bool
is_shorter n (bytes b) = ltb (length b) n
is_shorter n _ = true

-- Each payload of the fields is shorter than `n`.
abbrev pub all_shorter : ℕ → List RawField → Bool
all_shorter n [] = true
all_shorter n (f ∷ fs) = is_shorter n f.value && all_shorter n fs

read_varint_loop-rest : (b : Bytes) (r s : ℕ) → length (read_varint_loop b r s).1 ≤ length b
unfolding read_varint_loop
read_varint_loop-rest [] r s = omega arith
read_varint_loop-rest (x ∷ b) r s =
    ground (arith, read_varint_loop-rest b (bit_or r (shifted x s)) (s + 7))

read_varint_at-rest : (b : Bytes) → length (read_varint_at b).1 ≤ length b
unfolding read_varint_at
read_varint_at-rest b = read_varint_loop-rest b 0 0

read_varint_at-rest_cons : (x : ℕ) (b : Bytes) → length (read_varint_at (x ∷ b)).1 ≤ length b
unfolding read_varint_at read_varint_loop
read_varint_at-rest_cons x b = ground (arith, read_varint_loop-rest b (bit_or 0 (shifted x 0)) 7)

abbrev value_shorter : ℕ → Option FieldValue → Bool
value_shorter n none = true
value_shorter n (some v) = is_shorter n v

read_value_bounds :
    (wire : ℕ) (b rest : Bytes) (v : Option FieldValue)
    → read_value wire b ≡ some (v, rest)
    → (value_shorter (suc (length b)) v ≡ true) × (length rest ≤ length b)
unfolding read_value
read_value_bounds wire b rest v e = ground (
  arith,
  read_varint_at-rest b,
  length-take (read_varint_at b).0 (read_varint_at b).1,
  length-drop (read_varint_at b).0 (read_varint_at b).1,
  length-drop 8 b,
  length-drop 4 b,
)

is_shorter_mono : (n m : ℕ) (v : FieldValue) → n ≤ m → is_shorter n v ≡ true → is_shorter m v ≡ true
is_shorter_mono n m (varint k) h e = refl
is_shorter_mono n m (fixed64 b) h e = refl
is_shorter_mono n m (bytes b) h e = ground arith

all_shorter-push :
    (n key : ℕ) (v : Option FieldValue) (fs : List RawField)
    → value_shorter n v ≡ true
    → all_shorter n fs ≡ true
    → all_shorter n (push_field key v fs) ≡ true
all_shorter-push n key none fs h e = e
all_shorter-push n key (some v) fs h e = ground arith

value_shorter_mono :
    (n m : ℕ) (v : Option FieldValue) → n ≤ m → value_shorter n v ≡ true → value_shorter m v ≡ true
value_shorter_mono n m none h e = refl
value_shorter_mono n m (some v) h e = is_shorter_mono n m v h e

read_round-shorter :
    (n : ℕ) (t : ℕ × Bytes) (next : Bytes → List RawField)
    → length (t.1) < n
    → ((b : Bytes) → length b ≤ n → all_shorter n (next b) ≡ true)
    → all_shorter n (read_round t next) ≡ true
unfolding read_round
read_round-shorter n (key, after) next l more = elim (Option-cases (read_value (key % 8) after)) [
  | inl e ↦ rw (e, read_round) refl
  | inr ((v, rest), e) ↦
      let (small, shrunk) = read_value_bounds (key % 8) after rest v e in
      rw (e, read_round)
        (all_shorter-push n (key / 8) v (next rest)
          (value_shorter_mono (suc (length after)) n v (omega arith) small)
          (more rest (omega arith)))
]

read_fields_loop-shorter :
    (n fuel : ℕ) (b : Bytes) → length b ≤ n → all_shorter n (read_fields_loop fuel b) ≡ true
unfolding read_fields_loop
read_fields_loop-shorter n zero b h = refl
read_fields_loop-shorter n (suc fuel) [] h = refl
read_fields_loop-shorter n (suc fuel) (x ∷ b) h =
    read_round-shorter n (read_varint_at (x ∷ b)) (read_fields_loop fuel)
      (omega (arith, read_varint_at-rest_cons x b)) (read_fields_loop-shorter n fuel)

pub read_all_fields-shorter : (b : Bytes) → all_shorter (length b) (read_all_fields b) ≡ true
unfolding read_all_fields
read_all_fields-shorter b = read_fields_loop-shorter (length b) (length b) b (omega arith)
