-- ===== src/Wire/Refinement.antt =====
-- The strict reader refines the other: what it accepts, both read alike.
use cursor_opencode_provider.Base.{
  ◌/◌, ◌%◌, ◌≤◌, ◌<◌, ℕ, zero, suc, ◌≡◌, refl, ap, ◌∙◌, inl, inr, Bool, true, ◌&&◌, Option, none,
  some, List, [], ◌∷◌, arith, leb, nat_beq_iff, Option-cases, length, take, drop, length-drop,
  string_eq, nat_eq,
}
use cursor_opencode_provider.Wire.{
  Bytes, read_varint_at, FieldValue, RawField, read_value, push_field, read_round, read_fields_loop,
  read_all_fields, read_bounded_varint, max_uint32, max_uint64, StrictValue, StrictField, split_at,
  delimited_value, scalar_value, strict_value, strict_tag, strict_loop, read_all_fields_strict,
  varint, bytes, fixed64, scalar, delimited, eight, four,
}
use cursor_opencode_provider.Wire.Varint.{read_varint_at-bounded, read_bounded_varint_bounds}

-- A field as the other reader gives it: fields of four bytes are passed over.
abbrev pub raw_value : StrictValue → Option FieldValue
raw_value (scalar n) = some (varint n)
raw_value (delimited b) = some (bytes b)
raw_value (eight b) = some (fixed64 b)
raw_value (four b) = none

unfoldable pub raw_fields : List StrictField → List RawField
raw_fields [] = []
raw_fields (f ∷ fs) = push_field f.number (raw_value f.value) (raw_fields fs)

abbrev pub is_narrow : StrictValue → Bool
is_narrow (scalar n) = leb n 4294967295
is_narrow _ = true

-- No scalar has more than 32 bits, which is what the other reader keeps of one.
abbrev pub all_narrow : List StrictField → Bool
all_narrow [] = true
all_narrow (f ∷ fs) = is_narrow f.value && all_narrow fs

read_value-split :
    (n : ℕ) (b rest : Bytes) (v : StrictValue) (make : Bytes → StrictValue)
    → split_at n b make ≡ some (v, rest)
    → (v ≡ make (take n b)) × ((rest ≡ drop n b) × (length rest ≤ length b))
read_value-split n b rest v make e = ground (arith, length-drop n b)

scalar-read :
    (b rest : Bytes) (v : StrictValue)
    → scalar_value (read_bounded_varint b max_uint64) ≡ some (v, rest)
    → is_narrow v ≡ true
    → (◌≡◌ {A = Option (Option FieldValue × Bytes)}
        (some (some (varint (read_varint_at b).0), (read_varint_at b).1))
        (some (raw_value v, rest)))
      × (length rest ≤ length b)
scalar-read b rest v e narrow = elim (Option-cases (read_bounded_varint b max_uint64)) [
  | inl f ↦ ground arith
  | inr ((n, r), f) ↦ ground (
    arith,
    read_varint_at-bounded b max_uint64 n r f,
    read_bounded_varint_bounds b max_uint64 n r f,
  )
]

delimited-read :
    (b rest : Bytes) (v : StrictValue)
    → delimited_value (read_bounded_varint b max_uint32) ≡ some (v, rest)
    → let r = read_varint_at b in
      (◌≡◌ {A = Option (Option FieldValue × Bytes)}
        (some (some (bytes (take r.0 r.1)), drop r.0 r.1))
        (some (raw_value v, rest)))
      × (length rest ≤ length b)
delimited-read b rest v e = elim (Option-cases (read_bounded_varint b max_uint32)) [
  | inl f ↦ ground arith
  | inr ((n, r), f) ↦ ground (
    arith,
    read_varint_at-bounded b max_uint32 n r f,
    read_bounded_varint_bounds b max_uint32 n r f,
    length-drop n r,
  )
]

pub strict_value-read :
    (wire : ℕ) (b rest : Bytes) (v : StrictValue)
    → strict_value wire b ≡ some (v, rest)
    → is_narrow v ≡ true
    → (read_value wire b ≡ some (raw_value v, rest)) × (length rest ≤ length b)
unfolding strict_value read_value
strict_value-read wire b rest v e narrow = ground (
  arith,
  nat_beq_iff wire 0,
  nat_beq_iff wire 1,
  nat_beq_iff wire 2,
  nat_beq_iff wire 5,
  scalar-read b rest v,
  delimited-read b rest v,
  length-drop 8 b,
  length-drop 4 b,
)

pub strict_tag-read :
    (b rest : Bytes) (key : ℕ)
    → strict_tag b ≡ some (key, rest)
    → (read_varint_at b ≡ (key, rest)) × (length rest < length b)
unfolding strict_tag
strict_tag-read b rest key e = elim (Option-cases (read_bounded_varint b max_uint32)) [
  | inl f ↦ ground arith
  | inr ((n, r), f) ↦ ground (
    arith,
    read_varint_at-bounded b max_uint32 n r f,
    read_bounded_varint_bounds b max_uint32 n r f,
  )
]

none_left :
    (n : ℕ) (b : Bytes) (fs : List StrictField)
    → length b ≤ 0
    → strict_loop n b ≡ some fs
    → [] ≡ raw_fields fs
unfolding strict_loop raw_fields
none_left n [] fs h e = ground arith
none_left n (x ∷ b) fs h e = absurd (omega arith)

round_lem :
    (m x : ℕ) (b : Bytes)
    → read_fields_loop (suc m) (x ∷ b) ≡ read_round (read_varint_at (x ∷ b)) (read_fields_loop m)
unfolding read_fields_loop
round_lem m x b = refl

loops_agree :
    (n m : ℕ) (b : Bytes) (fs : List StrictField)
    → length b ≤ m
    → strict_loop n b ≡ some fs
    → all_narrow fs ≡ true
    → read_fields_loop m b ≡ raw_fields fs
unfolding strict_loop raw_fields read_round
loops_agree n zero b fs h e narrow = unfold read_fields_loop in none_left n b fs (omega arith) e
loops_agree n (suc m) [] fs h e narrow = unfold read_fields_loop in ground arith
loops_agree zero (suc m) (x ∷ b) fs h e narrow = ground arith
loops_agree (suc n) (suc m) (x ∷ b) fs h e narrow = elim (Option-cases (strict_tag (x ∷ b))) [
  | inl f ↦ ground arith
  | inr ((key, after), f) ↦ elim (Option-cases (strict_value (key % 8) after)) [
    | inl g ↦ ground arith
    | inr ((v, rest), g) ↦ elim (Option-cases (strict_loop n rest)) [
      | inl k ↦ ground arith
      | inr (gs, k) ↦
          let shape : fs ≡ record { number = key / 8; value = v } ∷ gs = ground arith in
          let tag = strict_tag-read (x ∷ b) after key f in
          let now = strict_value-read (key % 8) after rest v g (ground arith) in
          rw shape (
            round_lem m x b
            ∙ (ap (λ r. read_round r (read_fields_loop m)) tag.0
                ∙ rw (now.0, read_round)
                    (ap (push_field (key / 8) (raw_value v))
                      (loops_agree n m rest gs (omega (arith, tag.1, now.1)) k (ground arith)))))
    ]
  ]
]

-- The strict reader refines the other: where it accepts a message and no scalar in it is wider than 32 bits,
-- `readAllFields` reads the same fields with the same values, but for those of four bytes, which it passes
-- over.
pub read_all_fields_strict-refines :
    (b : Bytes) (fs : List StrictField)
    → read_all_fields_strict b ≡ some fs
    → all_narrow fs ≡ true
    → read_all_fields b ≡ raw_fields fs
unfolding read_all_fields_strict read_all_fields
read_all_fields_strict-refines b fs e narrow =
    loops_agree (length b) (length b) b fs (omega arith) e narrow
