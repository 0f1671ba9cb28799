-- ===== src/Json/Fields.antt =====
-- The fields of the messages that the encoder writes.
use mathlib.Core.List.{append-nil}
use cursor_opencode_provider.Base.{
  ◌≤◌, ◌<◌, ℕ, ◌≡◌, refl, sym, ap, ◌∙◌, true, List, [], ◌∷◌, ◌++◌, arith, length, length-append,
  string_eq, nat_eq,
}
use cursor_opencode_provider.Wire.{
  Bytes, varint_loop, write_varint, write_tag, write_length_delimited, RawField, cons_field,
  push_field, read_all_fields, StrictValue, StrictField, is_field_number, varint, bytes, fixed64,
  scalar, delimited, eight,
}
use cursor_opencode_provider.Wire.Refinement.{raw_fields, raw_value}
use cursor_opencode_provider.Wire.Written.{
  write_fields, write_value, all_fit, fits_wire, read_all_fields-write_fields,
}
use cursor_opencode_provider.Json.{write_repeated}

one_field :
    (number : ℕ) (v : StrictValue)
    → is_field_number number ≡ true
    → fits_wire v ≡ true
    → read_all_fields (write_value number v) ≡ push_field number (raw_value v) []
unfolding write_fields raw_fields
one_field number v h f =
    ap read_all_fields (sym (append-nil (write_value number v)))
    ∙ read_all_fields-write_fields (record { number = number; value = v } ∷ []) (ground arith)

pub fields-delimited :
    (number : ℕ) (b : Bytes)
    → is_field_number number ≡ true
    → length b < 4294967296
    → read_all_fields (write_length_delimited number b) ≡ cons_field number (bytes b) []
unfolding write_value
fields-delimited number b h l = one_field number (delimited b) h (ground arith)

pub fields-scalar :
    (number n : ℕ)
    → is_field_number number ≡ true
    → n < 4294967296
    → read_all_fields (write_tag number 0 ++ write_varint n) ≡ cons_field number (varint n) []
unfolding write_value
fields-scalar number n h l = one_field number (scalar n) h (ground arith)

pub fields-eight :
    (number : ℕ) (b : Bytes)
    → is_field_number number ≡ true
    → length b ≡ 8
    → read_all_fields (write_tag number 1 ++ b) ≡ cons_field number (fixed64 b) []
unfolding write_value
fields-eight number b h l = one_field number (eight b) h (ground arith)

-- A key and a value, as the entry of a map.
pub fields-pair :
    (key value : Bytes)
    → length key < 4294967296
    → length value < 4294967296
    → read_all_fields (write_length_delimited 1 key ++ write_length_delimited 2 value)
      ≡ cons_field 1 (bytes key) (cons_field 2 (bytes value) [])
unfolding write_fields write_value raw_fields
fields-pair key value k v =
    ap (λ (t : Bytes). read_all_fields (write_length_delimited 1 key ++ t))
      (sym (append-nil (write_length_delimited 2 value)))
    ∙ read_all_fields-write_fields
        (record { number = 1; value = delimited key }
          ∷ record { number = 2; value = delimited value }
          ∷ [])
        (ground arith)

abbrev repeated : List Bytes → List StrictField
repeated [] = []
repeated (b ∷ bs) = record { number = 1; value = delimited b } ∷ repeated bs

abbrev pub raw_repeated : List Bytes → List RawField
raw_repeated [] = []
raw_repeated (b ∷ bs) = cons_field 1 (bytes b) (raw_repeated bs)

abbrev pub AllWithin : ℕ → List Bytes → Type 0
AllWithin n [] = Unit
AllWithin n (b ∷ bs) = (length b < n) × AllWithin n bs

length-write_varint : (n : ℕ) → 0 < length (write_varint n)
unfolding write_varint varint_loop
length-write_varint n = ground arith

pub length-delimited :
    (number : ℕ) (b : Bytes) → length b < length (write_length_delimited number b)
unfolding write_length_delimited
length-delimited number b = omega (
  arith,
  length-append (write_tag number 2) (write_varint (length b) ++ b),
  length-append (write_varint (length b)) b,
  length-write_varint (length b),
)

pub write_repeated_within :
    (n : ℕ) (bs : List Bytes) → length (write_repeated bs) ≤ n → AllWithin n bs
unfolding write_repeated
write_repeated_within n [] h = tt
write_repeated_within n (b ∷ bs) h = (
  omega
      (arith, length-append (write_length_delimited 1 b) (write_repeated bs), length-delimited 1 b),
  write_repeated_within n bs
      (omega (arith, length-append (write_length_delimited 1 b) (write_repeated bs))),
)

repeated-fit : (bs : List Bytes) → AllWithin 4294967296 bs → all_fit (repeated bs) ≡ true
repeated-fit [] h = refl
repeated-fit (b ∷ bs) (h, hs) = ground (arith, repeated-fit bs hs)

write_repeated-fields : (bs : List Bytes) → write_repeated bs ≡ write_fields (repeated bs)
unfolding write_repeated write_fields write_value
write_repeated-fields [] = refl
write_repeated-fields (b ∷ bs) =
    ap (λ (t : Bytes). write_length_delimited 1 b ++ t) (write_repeated-fields bs)

raw_fields-repeated : (bs : List Bytes) → raw_fields (repeated bs) ≡ raw_repeated bs
unfolding raw_fields
raw_fields-repeated [] = refl
raw_fields-repeated (b ∷ bs) = ap (cons_field 1 (bytes b)) (raw_fields-repeated bs)

pub fields-repeated :
    (bs : List Bytes)
    → length (write_repeated bs) < 4294967296
    → read_all_fields (write_repeated bs) ≡ raw_repeated bs
fields-repeated bs h =
    ap read_all_fields (write_repeated-fields bs)
    ∙ (read_all_fields-write_fields (repeated bs)
          (repeated-fit bs (write_repeated_within 4294967296 bs (omega arith)))
        ∙ raw_fields-repeated bs)
