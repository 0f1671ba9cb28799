-- ===== src/Json/Fuel.antt =====
-- The decoder's fuel: any amount above the length of the message gives the same value.
use mathlib.Core.Option
use cursor_opencode_provider.Base.{
  ◌≤◌, ◌<◌, ℕ, zero, suc, String, ◌≡◌, refl, ap, inl, inr, Bool, true, Option, none, some, List, [],
  ◌∷◌, arith, ltb, nat_beq, Bool-cases, Option-cases, length, string_eq, nat_eq,
}
use cursor_opencode_provider.Wire.{
  Bytes, FieldValue, RawField, read_all_fields, varint, bytes, fixed64,
}
use cursor_opencode_provider.Wire.Payloads.{all_shorter, is_shorter, read_all_fields-shorter}
use cursor_opencode_provider.Json.{
  Json, Entries, bytes_of, map_entry_loop, read_map_entry, put_entry, decode_struct_loop,
  decode_list_loop, as_object, as_array, value_of, decode_value, array, object, no_entries,
}

all_shorter_mono :
    (n m : ℕ) (fs : List RawField) → n ≤ m → all_shorter n fs ≡ true → all_shorter m fs ≡ true
all_shorter_mono n m [] h e = refl
all_shorter_mono n m (f ∷ fs) h e = ground (arith, all_shorter_mono n m fs)

short_payload :
    (n : ℕ) (v : FieldValue) (b : Bytes)
    → bytes_of v ≡ some b
    → is_shorter n v ≡ true
    → length b < n
short_payload n (bytes c) b e h = ground arith
short_payload n (varint k) b e h = ground arith
short_payload n (fixed64 c) b e h = ground arith

module _ (decode_text : Bytes → String) (get_float64 : Bytes → ℕ) (d d' : Bytes → Json)
    (n : ℕ) where
  -- Two decoders agree on what is shorter than `n`.
  abbrev Agree : Type 0
  Agree = (b : Bytes) → length b < n → d b ≡ d' b

  decode_list-agree :
      Agree
      → (fs : List RawField) → all_shorter n fs ≡ true
      → decode_list_loop decode_text get_float64 d fs
        ≡ decode_list_loop decode_text get_float64 d' fs
  unfolding decode_list_loop
  decode_list-agree same [] h = refl
  decode_list-agree same (f ∷ fs) h = elim (Option-cases (bytes_of f.value)) [
    | inl e ↦ rw (e, decode_list_loop) (decode_list-agree same fs (ground arith))
    | inr (b, e) ↦
        let here = same b (short_payload n f.value b e (ground arith)) in
        rw (e, here, decode_list-agree same fs (ground arith), decode_list_loop) refl
  ]

  abbrev is_short : Option Bytes → Bool
  is_short none = true
  is_short (some b) = ltb (length b) n

  -- The value of a map entry is a payload of its message.
  map_entry_loop-short :
      (key : Option String) (value : Option Bytes) (fs : List RawField)
      → is_short value ≡ true
      → all_shorter n fs ≡ true
      → is_short (map_entry_loop decode_text get_float64 (key, value) fs).1 ≡ true
  unfolding map_entry_loop
  map_entry_loop-short key value [] h e = h
  map_entry_loop-short key value (f ∷ fs) h e = elim (Option-cases (bytes_of f.value)) [
    | inl none_there ↦ ground (arith, map_entry_loop-short key value fs)
    | inr (b, there) ↦ ground (
      arith,
      short_payload n f.value b there,
      map_entry_loop-short key value fs,
      map_entry_loop-short key (some b) fs,
      map_entry_loop-short (Option.map decode_text (some b)) value fs,
    )
  ]

  put_entry-agree :
      Agree
      → (es : Entries) (p : Option String × Option Bytes) → is_short (p.1) ≡ true
      → put_entry decode_text get_float64 d es p ≡ put_entry decode_text get_float64 d' es p
  put_entry-agree same es (none, v) h = refl
  put_entry-agree same es (some k, none) h = refl
  put_entry-agree same es (some k, some b) h = rw (same b (ground arith)) refl

  read_map_entry-short :
      (b : Bytes) → length b < n → is_short (read_map_entry decode_text get_float64 b).1 ≡ true
  unfolding read_map_entry
  read_map_entry-short b h =
      map_entry_loop-short none none (read_all_fields b) refl (
        all_shorter_mono (length b) n (read_all_fields b) (omega arith) (read_all_fields-shorter b))

  decode_struct-agree :
      Agree
      → (es : Entries) (fs : List RawField) → all_shorter n fs ≡ true
      → decode_struct_loop decode_text get_float64 d es fs
        ≡ decode_struct_loop decode_text get_float64 d' es fs
  unfolding decode_struct_loop
  decode_struct-agree same es [] h = refl
  decode_struct-agree same es (f ∷ fs) h = elim (Option-cases (bytes_of f.value)) [
    | inl e ↦ rw (e, decode_struct_loop) (decode_struct-agree same es fs (ground arith))
    | inr (b, e) ↦
        let short = read_map_entry-short b (short_payload n f.value b e (ground arith)) in
        let here = put_entry-agree same es (read_map_entry decode_text get_float64 b) short in
        elim (Bool-cases (nat_beq f.number 1)) [
          | inl k ↦
              rw (e, here, k, decode_struct_loop)
                (decode_struct-agree same
                  (put_entry decode_text get_float64 d' es
                    (read_map_entry decode_text get_float64 b))
                  fs (ground arith))
          | inr k ↦ rw (e, k, decode_struct_loop) (decode_struct-agree same es fs (ground arith))
        ]
  ]

  inner_shorter : (b : Bytes) → length b < n → all_shorter n (read_all_fields b) ≡ true
  inner_shorter b h =
      all_shorter_mono (length b) n (read_all_fields b) (omega arith) (read_all_fields-shorter b)

  as_object-agree :
      Agree
      → (v : FieldValue) → is_shorter n v ≡ true
      → as_object decode_text get_float64 d v ≡ as_object decode_text get_float64 d' v
  unfolding as_object
  as_object-agree same (bytes b) h =
      ap object
        (decode_struct-agree same no_entries (read_all_fields b) (inner_shorter b (ground arith)))
  as_object-agree same (varint k) h = refl
  as_object-agree same (fixed64 b) h = refl

  as_array-agree :
      Agree
      → (v : FieldValue) → is_shorter n v ≡ true
      → as_array decode_text get_float64 d v ≡ as_array decode_text get_float64 d' v
  unfolding as_array
  as_array-agree same (bytes b) h =
      ap array (decode_list-agree same (read_all_fields b) (inner_shorter b (ground arith)))
  as_array-agree same (varint k) h = refl
  as_array-agree same (fixed64 b) h = refl

  value_of-agree :
      Agree
      → (fs : List RawField) → all_shorter n fs ≡ true
      → value_of decode_text get_float64 d fs ≡ value_of decode_text get_float64 d' fs
  unfolding value_of
  value_of-agree same [] h = refl
  value_of-agree same (f ∷ fs) h =
      rw (as_object-agree same f.value (ground arith), as_array-agree same f.value (ground arith))
        refl

-- The decoder ends: the recursion never runs out of its fuel, which is one more than the length of the
-- message, since any two amounts above the length give the same value.
pub decode_value_fuel :
    (decode_text : Bytes → String) (get_float64 : Bytes → ℕ) (n m : ℕ) (b : Bytes)
    → length b < n
    → length b < m
    → decode_value decode_text get_float64 n b ≡ decode_value decode_text get_float64 m b
unfolding decode_value
decode_value_fuel decode_text get_float64 zero m b h l = absurd (omega arith)
decode_value_fuel decode_text get_float64 (suc n) zero b h l = absurd (omega arith)
decode_value_fuel decode_text get_float64 (suc n) (suc m) b h l =
    value_of-agree decode_text get_float64 (decode_value decode_text get_float64 n)
      (decode_value decode_text get_float64 m) (length b)
      (λ c k. decode_value_fuel decode_text get_float64 n m c (omega arith) (omega arith))
      (read_all_fields b) (read_all_fields-shorter b)
