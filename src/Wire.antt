-- ===== src/Wire.antt =====
-- src/protocol/struct.ts, the protobuf wire format: varints, tags, and the two readers of a message's
-- fields. Bytes are a list; an offset into the array is the list of what is left behind it, so a read
-- beyond the end reads the empty list, as `subarray` does.
pub mod Varint
pub mod Refinement
pub mod Written
pub mod Payloads
mod Tests
use mathlib.Core.Option
use Prim.Native.Nat.{bit_or}
use cursor_opencode_provider.Base.{
  ◌+◌, ◌-◌, ◌*◌, ◌/◌, ◌%◌, ◌^◌, ◌≤◌, ◌<◌, min, max, ℕ, zero, suc, String, ◌≡◌, refl, sym, ap, ◌∙◌,
  subst, ◌≢◌, ◌↔◌, ◌⊎◌, inl, inr, Bool, true, false, not, ◌&&◌, ◌||◌, Option, none, some, List, [],
  ◌∷◌, ◌++◌, map, arith, ltb, leb, nat_beq, if◌then◌else◌, ltb→lt, lt→ltb, leb→le, nat_beq_iff,
  Bool-cases, Option-cases, is_some, get_or, length, take, drop, any, all, filter, length-append,
  length-filter-le, take-append-drop, length-take, length-drop, take-append, drop-append, All,
  All-append, All-filter, Eq, ◌==◌, eq_refl, string_eq, nat_eq,
}

abbrev pub Bytes : Type 0
Bytes = List ℕ

-- `while (v > 0x7f)`: a 32-bit number has five groups of seven bits at most.
unfoldable pub varint_loop : ℕ → ℕ → Bytes
varint_loop zero v = []
varint_loop (suc groups) v =
    let more = varint_loop groups (v / 128) in if ltb 127 v then (v % 128 + 128) ∷ more else v ∷ []

unfoldable pub write_varint : ℕ → Bytes
unfolding varint_loop
write_varint n = varint_loop 5 (n % 4294967296)

unfoldable pub write_tag : ℕ → ℕ → Bytes
unfolding write_varint
write_tag field wire = write_varint (field * 8 + wire)

unfoldable pub write_length_delimited : ℕ → Bytes → Bytes
unfolding write_tag write_varint
write_length_delimited field bytes = write_tag field 2 ++ (write_varint (length bytes) ++ bytes)

-- `(x & 0x7f) << s` on 32-bit integers, where the shift counts modulo 32; the bits are kept as those of
-- an unsigned number, which `>>> 0` gives at the end.
abbrev pub shifted : ℕ → ℕ → ℕ
shifted x s = x % 128 * 2 ^ (s % 32) % 4294967296

unfoldable pub read_varint_loop : Bytes → ℕ → ℕ → ℕ × Bytes
read_varint_loop [] r s = (r, [])
read_varint_loop (x ∷ b) r s =
    let more = read_varint_loop b (bit_or r (shifted x s)) (s + 7) in
    if leb 128 (x % 256) then more else (bit_or r (shifted x s), b)

unfoldable pub read_varint_at : Bytes → ℕ × Bytes
unfolding read_varint_loop
read_varint_at b = read_varint_loop b 0 0

-- The value of a field of `readAllFields`: `varint`, `bytes` or `i64`.
pub data FieldValue : Type 0 where
  varint : ℕ → FieldValue
  bytes fixed64 : Bytes → FieldValue

pub record RawField : Type 0 where
  pub number : ℕ
  pub value : FieldValue

abbrev pub cons_field : ℕ → FieldValue → List RawField → List RawField
cons_field n v fs = record { number = n; value = v } ∷ fs

-- One round of the loop of `readAllFields` behind the key: the field pushed, if any, and what is left;
-- `none` is the `break`.
unfoldable pub read_value : ℕ → Bytes → Option (Option FieldValue × Bytes)
unfolding read_varint_at
read_value wire b =
    let r = read_varint_at b in
    if nat_beq wire 0
    then some (some (varint r.0), r.1)
    else if nat_beq wire 2
    then some (some (bytes (take r.0 r.1)), drop r.0 r.1)
    else if nat_beq wire 1
    then some (some (fixed64 (take 8 b)), drop 8 b)
    else if nat_beq wire 5
    then some (none, drop 4 b)
    else none

abbrev pub push_field : ℕ → Option FieldValue → List RawField → List RawField
push_field n none fs = fs
push_field n (some v) fs = cons_field n v fs

-- One round: the key, its value, and the loop on what is left.
abbrev pub read_round : ℕ × Bytes → (Bytes → List RawField) → List RawField
unfolding read_value
read_round (key, after) next = elim (read_value (key % 8) after) [
  | none ↦ []
  | some (v, rest) ↦ push_field (key / 8) v (next rest)
]

-- The loop. Each round takes a byte at least, so the length is fuel enough.
unfoldable pub read_fields_loop : ℕ → Bytes → List RawField
unfolding read_round read_varint_at
read_fields_loop zero b = []
read_fields_loop (suc fuel) [] = []
read_fields_loop (suc fuel) (x ∷ b) = read_round (read_varint_at (x ∷ b)) (read_fields_loop fuel)

unfoldable pub read_all_fields : Bytes → List RawField
unfolding read_fields_loop
read_all_fields b = read_fields_loop (length b) b

-- The strict reader. A bigint is a natural number, whose new bits lie above those read.
unfoldable pub bounded_loop : ℕ → Bytes → ℕ → ℕ → ℕ → Option (ℕ × Bytes)
bounded_loop zero b value shift maximum = none
bounded_loop (suc count) [] value shift maximum = none
bounded_loop (suc count) (x ∷ b) value shift maximum =
    let more = bounded_loop count b (value + x % 128 * 2 ^ shift) (shift + 7) maximum in
    if ltb maximum (value + x % 128 * 2 ^ shift)
    then none
    else if leb 128 (x % 256)
    then more
    else some (value + x % 128 * 2 ^ shift, b)

unfoldable pub read_bounded_varint : Bytes → ℕ → Option (ℕ × Bytes)
unfolding bounded_loop
read_bounded_varint b maximum = bounded_loop 10 b 0 0 maximum

abbrev pub max_uint32 : ℕ
max_uint32 = 4294967295

abbrev pub max_uint64 : ℕ
max_uint64 = 18446744073709551615

abbrev pub max_field_number : ℕ
max_field_number = 536870911

pub data StrictValue : Type 0 where
  scalar : ℕ → StrictValue
  delimited eight four : Bytes → StrictValue

pub record StrictField : Type 0 where
  pub number : ℕ
  pub value : StrictValue

abbrev pub split_at : ℕ → Bytes → (Bytes → StrictValue) → Option (StrictValue × Bytes)
split_at n b make = if leb n (length b) then some (make (take n b), drop n b) else none

abbrev pub delimited_value : Option (ℕ × Bytes) → Option (StrictValue × Bytes)
delimited_value none = none
delimited_value (some (n, b)) = split_at n b delimited

abbrev pub scalar_value : Option (ℕ × Bytes) → Option (StrictValue × Bytes)
scalar_value none = none
scalar_value (some (n, b)) = some (scalar n, b)

-- One round of the strict loop behind the tag.
unfoldable pub strict_value : ℕ → Bytes → Option (StrictValue × Bytes)
unfolding read_bounded_varint
strict_value wire b =
    if nat_beq wire 0
    then scalar_value (read_bounded_varint b max_uint64)
    else if nat_beq wire 1
    then split_at 8 b eight
    else if nat_beq wire 2
    then delimited_value (read_bounded_varint b max_uint32)
    else if nat_beq wire 5
    then split_at 4 b four
    else none

abbrev pub is_field_number : ℕ → Bool
is_field_number n = ltb 0 n && leb n max_field_number

abbrev pub prepend : ℕ → StrictValue → Option (List StrictField) → Option (List StrictField)
prepend n v fs = Option.map (λ gs. record { number = n; value = v } ∷ gs) fs

-- The tag, or nothing for one that no field has.
abbrev pub strict_tag : Bytes → Option (ℕ × Bytes)
unfolding read_bounded_varint
strict_tag b = elim (read_bounded_varint b max_uint32) [
  | none ↦ none
  | some t ↦ if is_field_number (t.0 / 8) then some t else none
]

-- The loop; out of fuel, which its length never is, it would refuse.
unfoldable pub strict_loop : ℕ → Bytes → Option (List StrictField)
unfolding strict_value strict_tag
strict_loop fuel [] = some []
strict_loop zero (x ∷ b) = none
strict_loop (suc fuel) (x ∷ b) = elim (strict_tag (x ∷ b)) [
  | none ↦ none
  | some t ↦ elim (strict_value (t.0 % 8) t.1) [
    | none ↦ none
    | some (v, rest) ↦ prepend (t.0 / 8) v (strict_loop fuel rest)
  ]
]

unfoldable pub read_all_fields_strict : Bytes → Option (List StrictField)
unfolding strict_loop
read_all_fields_strict b = strict_loop (length b) b
