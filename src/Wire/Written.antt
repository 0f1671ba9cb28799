-- ===== src/Wire/Written.antt =====
-- Reading back what the writer gives.
use mathlib.Core.List.{append_assoc}
use native.Mathlib.Nat.{add-mul}
use cursor_opencode_provider.Base.{
  ◌+◌, ◌*◌, ◌/◌, ◌%◌, ◌^◌, ◌≤◌, ◌<◌, ℕ, zero, suc, ◌≡◌, refl, ap, ◌∙◌, inl, inr, Bool, true, false,
  ◌&&◌, some, List, [], ◌∷◌, ◌++◌, arith, ltb, leb, nat_beq, Bool-cases, length, length-append,
  take-append, drop-append, string_eq, nat_eq,
}
use cursor_opencode_provider.Wire.{
  Bytes, varint_loop, write_varint, write_tag, write_length_delimited, read_all_fields,
  bounded_loop, read_bounded_varint, max_uint32, max_uint64, StrictValue, StrictField, split_at,
  strict_value, is_field_number, prepend, strict_tag, strict_loop, read_all_fields_strict, scalar,
  delimited, eight, four,
}
use cursor_opencode_provider.Wire.Refinement.{
  is_narrow, all_narrow, raw_fields, read_all_fields_strict-refines, strict_tag-read,
  strict_value-read,
}
use cursor_opencode_provider.Wire.Varint.{pow-add_seven}

split_group : (v s : ℕ) → v % 128 * 2 ^ s + v / 128 * 2 ^ (s + 7) ≡ v * 2 ^ s
split_group v s =
    let parts : v ≡ v % 128 + 128 * (v / 128) = omega arith in
    omega (
      arith,
      ap (λ (t : ℕ). t * 2 ^ s) parts,
      add-mul (v % 128) (128 * (v / 128)) (2 ^ s),
      ap (λ (t : ℕ). v / 128 * t) (pow-add_seven s),
    )

-- The capacity of the groups that are left.
abbrev capacity : ℕ → ℕ
capacity zero = 1
capacity (suc n) = 128 * capacity n

more_groups : (groups v : ℕ) → 127 < v → v < capacity (suc groups) → 0 < groups
more_groups zero v h c = absurd (omega arith)
more_groups (suc groups) v h c = omega arith

bounded_loop-varint :
    (groups count v r s maximum : ℕ) (rest : Bytes)
    → groups ≤ count
    → v < capacity groups
    → r + v * 2 ^ s ≤ maximum
    → 0 < groups
    → bounded_loop count (varint_loop groups v ++ rest) r s maximum ≡ some (r + v * 2 ^ s, rest)
unfolding bounded_loop varint_loop
bounded_loop-varint zero count v r s maximum rest h c m z = absurd (omega arith)
bounded_loop-varint (suc groups) zero v r s maximum rest h c m z = absurd (omega arith)
bounded_loop-varint (suc groups) (suc count) v r s maximum rest h c m z =
    elim (Bool-cases (ltb 127 v)) [
      | inl e ↦
          let low : (v % 128 + 128) % 128 ≡ v % 128 = omega arith in
          let high : leb 128 ((v % 128 + 128) % 256) ≡ true = ground arith in
          let split = split_group v s in
          let fits : ltb maximum (r + v % 128 * 2 ^ s) ≡ false = ground arith in
          let more =
            bounded_loop-varint groups count (v / 128) (r + v % 128 * 2 ^ s) (s + 7) maximum rest
              (omega arith) (omega arith) (omega arith) (more_groups groups v (ground arith) c) in
          rw (e, low, high, fits) (more ∙ ap (λ (t : ℕ). some (t, rest)) (omega arith))
      | inr e ↦ ground (arith)
    ]

-- A 32-bit number is read back, whatever stands behind it.
pub read_bounded_varint-write_varint :
    (n maximum : ℕ) (rest : Bytes)
    → n < 4294967296
    → n ≤ maximum
    → read_bounded_varint (write_varint n ++ rest) maximum ≡ some (n, rest)
unfolding read_bounded_varint write_varint
read_bounded_varint-write_varint n maximum rest small fits =
    let same : n % 4294967296 ≡ n = omega arith in
    let whole : n * 2 ^ 0 ≡ n = omega arith in
    rw same (
      bounded_loop-varint 5 10 n 0 0 maximum rest (omega arith) (omega arith) (omega arith)
        (omega arith)
      ∙ ap (λ (t : ℕ). some (t, rest)) (omega arith))

-- The writer's three kinds of field, one behind another; the writer has no field of four bytes.
unfoldable pub write_value : ℕ → StrictValue → Bytes
unfolding write_tag write_length_delimited
write_value number (scalar n) = write_tag number 0 ++ write_varint n
write_value number (delimited b) = write_length_delimited number b
write_value number (eight b) = write_tag number 1 ++ b
write_value number (four b) = write_tag number 5 ++ b

unfoldable pub write_fields : List StrictField → Bytes
unfolding write_value
write_fields [] = []
write_fields (f ∷ fs) = write_value f.number f.value ++ write_fields fs

abbrev pub fits_wire : StrictValue → Bool
fits_wire (scalar n) = leb n 4294967295
fits_wire (delimited b) = leb (length b) 4294967295
fits_wire (eight b) = nat_beq (length b) 8
fits_wire (four b) = nat_beq (length b) 4

-- Each number is that of a field, and each value fits its wire type.
abbrev pub all_fit : List StrictField → Bool
all_fit [] = true
all_fit (f ∷ fs) = is_field_number f.number && (fits_wire f.value && all_fit fs)

strict_tag-write_tag :
    (number wire : ℕ) (rest : Bytes)
    → is_field_number number ≡ true
    → wire < 8
    → (strict_tag (write_tag number wire ++ rest) ≡ some (number * 8 + wire, rest))
unfolding strict_tag write_tag
strict_tag-write_tag number wire rest h w =
    let low : (number * 8 + wire) / 8 ≡ number = omega arith in
    let bound : number ≤ 536870911 = ground arith in
    rw
      (
        read_bounded_varint-write_varint (number * 8 + wire) max_uint32 rest (omega arith)
            (omega arith),
        strict_tag,
        low,
        h,
      )
      refl

split_at-append :
    (n : ℕ) (b rest : Bytes) (make : Bytes → StrictValue)
    → length b ≡ n
    → split_at n (b ++ rest) make ≡ some (make b, rest)
split_at-append n b rest make h =
    ground (arith, length-append b rest, take-append b rest, drop-append b rest)

-- What the round does with a written field: its tag, then its value.
written_round :
    (number : ℕ) (v : StrictValue) (rest : Bytes)
    → is_field_number number ≡ true
    → fits_wire v ≡ true
    → (wire : ℕ) × (after : Bytes) × (strict_tag (write_value number v ++ rest)
        ≡ some (number * 8 + wire, after))
      × (wire < 8)
      × (strict_value wire after ≡ some (v, rest))
unfolding write_value write_length_delimited strict_value
written_round number (scalar n) rest h f = (
  0,
  write_varint n ++ rest,
  ap strict_tag (append_assoc (write_tag number 0) (write_varint n) rest)
      ∙ strict_tag-write_tag number 0 (write_varint n ++ rest) h (omega arith),
  omega arith,
  rw (read_bounded_varint-write_varint n max_uint64 rest (ground arith) (ground arith)) refl,
)
written_round number (delimited b) rest h f = (
  2,
  write_varint (length b) ++ (b ++ rest),
  ap strict_tag (
        append_assoc (write_tag number 2) (write_varint (length b) ++ b) rest
        ∙ ap (λ (t : Bytes). write_tag number 2 ++ t)
            (append_assoc (write_varint (length b)) b rest))
      ∙ strict_tag-write_tag number 2 (write_varint (length b) ++ (b ++ rest)) h (omega arith),
  omega arith,
  rw
      (read_bounded_varint-write_varint (length b) max_uint32 (b ++ rest) (ground arith)
        (ground arith))
      (split_at-append (length b) b rest delimited refl),
)
written_round number (eight b) rest h f = (
  1,
  b ++ rest,
  ap strict_tag (append_assoc (write_tag number 1) b rest)
      ∙ strict_tag-write_tag number 1 (b ++ rest) h (omega arith),
  omega arith,
  split_at-append 8 b rest eight (ground arith),
)
written_round number (four b) rest h f = (
  5,
  b ++ rest,
  ap strict_tag (append_assoc (write_tag number 5) b rest)
      ∙ strict_tag-write_tag number 5 (b ++ rest) h (omega arith),
  omega arith,
  split_at-append 4 b rest four (ground arith),
)

strict_round :
    (n key : ℕ) (b after rest : Bytes) (v : StrictValue)
    → strict_tag b ≡ some (key, after)
    → strict_value (key % 8) after ≡ some (v, rest)
    → strict_loop (suc n) b ≡ prepend (key / 8) v (strict_loop n rest)
unfolding strict_loop
strict_round n key [] after rest v e f =
    unfold strict_tag read_bounded_varint bounded_loop in ground arith
strict_round n key (x ∷ b) after rest v e f = rw (e, strict_loop) (rw f refl)

narrow_of_fits : (v : StrictValue) → fits_wire v ≡ true → is_narrow v ≡ true
narrow_of_fits (scalar n) h = h
narrow_of_fits (delimited b) h = refl
narrow_of_fits (eight b) h = refl
narrow_of_fits (four b) h = refl

strict_loop-write_fields :
    (n : ℕ) (fs : List StrictField)
    → all_fit fs ≡ true
    → length (write_fields fs) ≤ n
    → strict_loop n (write_fields fs) ≡ some fs
unfolding write_fields
strict_loop-write_fields n [] h l = unfold strict_loop in refl
strict_loop-write_fields zero (f ∷ fs) h l =
    let (wire, after, e, w, g) =
      written_round f.number f.value (write_fields fs) (ground arith) (ground arith) in
    absurd (omega (arith, (strict_tag-read _ after (f.number * 8 + wire) e).1))
strict_loop-write_fields (suc n) (f ∷ fs) h l =
    let (wire, after, e, w, g) =
      written_round f.number f.value (write_fields fs) (ground arith) (ground arith) in
    let low : (f.number * 8 + wire) % 8 ≡ wire = omega arith in
    let high : (f.number * 8 + wire) / 8 ≡ f.number = omega arith in
    strict_round n (f.number * 8 + wire) _ after (write_fields fs) f.value e (rw low g)
    ∙ rw
        (
          high,
          strict_loop-write_fields n fs (ground arith) (
              omega (
                arith,
                (strict_tag-read _ after (f.number * 8 + wire) e).1,
                (strict_value-read wire after (write_fields fs) f.value g
                    (narrow_of_fits f.value (ground arith))).1,
              )),
        )
        refl

-- What the writer gives the strict reader takes, and reads back field for field: numbers of 29 bits,
-- scalars and lengths of 32 bits, and values of eight bytes (of four, too, which the writer never has).
pub read_all_fields_strict-write_fields :
    (fs : List StrictField) → all_fit fs ≡ true → read_all_fields_strict (write_fields fs) ≡ some fs
unfolding read_all_fields_strict
read_all_fields_strict-write_fields fs h =
    strict_loop-write_fields (length (write_fields fs)) fs h (omega arith)

all_narrow_of_fit : (fs : List StrictField) → all_fit fs ≡ true → all_narrow fs ≡ true
all_narrow_of_fit [] h = refl
all_narrow_of_fit (f ∷ fs) h = ground (arith, narrow_of_fits f.value, all_narrow_of_fit fs)

-- The other reader reads the same fields of what was written.
pub read_all_fields-write_fields :
    (fs : List StrictField) → all_fit fs ≡ true → read_all_fields (write_fields fs) ≡ raw_fields fs
read_all_fields-write_fields fs h =
    read_all_fields_strict-refines (write_fields fs) fs (read_all_fields_strict-write_fields fs h)
      (all_narrow_of_fit fs h)
