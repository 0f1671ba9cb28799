-- ===== src/Json.antt =====
-- src/protocol/struct.ts, google.protobuf.Value: a JSON value as bytes, and back. TextEncoder, TextDecoder,
-- the order `<` of strings and the eight bytes of a double are parameters. A double is the number of its bit
-- pattern. An object is its entries in the order of insertion; an assignment does not store the key
-- "__proto__". Keys that are array indices, which JavaScript moves to the front, are not modelled.
pub mod Fields
pub mod RoundTrip
pub mod Fuel
mod Codes
mod Tests
use mathlib.Core.Option
use cursor_opencode_provider.Base.{
  ◌+◌, ◌-◌, ◌*◌, ◌/◌, ◌%◌, ◌^◌, ◌≤◌, ◌<◌, min, max, ℕ, zero, suc, String, ◌≡◌, refl, sym, ap, ◌∙◌,
  subst, ◌≢◌, ◌↔◌, ◌⊎◌, inl, inr, Bool, true, false, not, ◌&&◌, ◌||◌, Option, none, some, List, [],
  ◌∷◌, ◌++◌, map, arith, ltb, leb, nat_beq, if◌then◌else◌, ltb→lt, lt→ltb, leb→le, nat_beq_iff,
  Bool-cases, Option-cases, is_some, get_or, length, take, drop, any, all, filter, length-append,
  length-filter-le, take-append-drop, length-take, length-drop, take-append, drop-append, All,
  All-append, All-filter, Eq, ◌==◌, eq_refl, string_eq, nat_eq,
}
use cursor_opencode_provider.Wire.{
  Bytes, varint_loop, write_varint, write_tag, write_length_delimited, shifted, read_varint_loop,
  read_varint_at, FieldValue, RawField, cons_field, read_value, push_field, read_round,
  read_fields_loop, read_all_fields, bounded_loop, read_bounded_varint, max_uint32, max_uint64,
  max_field_number, StrictValue, StrictField, split_at, delimited_value, scalar_value, strict_value,
  is_field_number, prepend, strict_tag, strict_loop, read_all_fields_strict, varint, bytes, fixed64,
  scalar, delimited, eight, four,
}

mutual
  pub data Json : Type 0 where
    null undefined : Json
    number : ℕ → Json
    boolean : Bool → Json
    string : String → Json
    array : Items → Json
    object : Entries → Json

  pub data Items : Type 0 where
    no_items : Items
    item : Json → Items → Items

  pub data Entries : Type 0 where
    no_entries : Entries
    entry : String → Json → Entries → Entries

abbrev pub is_undefined : Json → Bool
is_undefined undefined = true
is_undefined _ = false

-- A property of the object's own: its value is replaced, or it is new.
abbrev pub put_own : String → Json → Entries → Entries
put_own k v no_entries = entry k v no_entries
put_own k v (entry j w es) = if j == k then entry j v es else entry j w (put_own k v es)

-- `obj[key] = value`. The key `__proto__` sets the prototype, and no property of the object.
abbrev pub put : String → Json → Entries → Entries
put k v es = if k == "__proto__" then es else put_own k v es

abbrev pub put_all : Entries → List (String × Json) → Entries
put_all es [] = es
put_all es ((k, v) ∷ ps) = put_all (put k v es) ps

-- A repeated field with number 1.
pub write_repeated : List Bytes → Bytes
write_repeated [] = []
write_repeated (b ∷ bs) = write_length_delimited 1 b ++ write_repeated bs

-- `sort` by the comparison of the keys: stable, so an insertion behind what is not greater.
module _ {ℓ} {A : Type ℓ} (before : String → String → Bool) where
  abbrev pub insert_entry : String × A → List (String × A) → List (String × A)
  insert_entry p [] = p ∷ []
  insert_entry p (q ∷ qs) = if before (q.0) (p.0) then q ∷ insert_entry p qs else p ∷ q ∷ qs

  abbrev pub sort_entries : List (String × A) → List (String × A)
  sort_entries [] = []
  sort_entries (p ∷ ps) = insert_entry p (sort_entries ps)

module _ (encode_text : String → Bytes) (set_float64 : ℕ → Bytes)
    (before : String → String → Bool) where
  abbrev pub encode_entry : String × Bytes → Bytes
  encode_entry (k, b) = write_length_delimited 1 (encode_text k) ++ write_length_delimited 2 b

  -- The value, the items of an array, and the entries of an object that are not undefined, each encoded.
  unfoldable mutual
    pub encode_json_as_value : Json → Bytes
    encode_json_as_value null = write_tag 1 0 ++ write_varint 0
    encode_json_as_value undefined = write_tag 1 0 ++ write_varint 0
    encode_json_as_value (number n) = write_tag 2 1 ++ set_float64 n
    encode_json_as_value (boolean b) = write_tag 4 0 ++ write_varint (if b then 1 else 0)
    encode_json_as_value (string s) = write_length_delimited 3 (encode_text s)
    encode_json_as_value (array xs) = write_length_delimited 6 (write_repeated (encode_items xs))
    encode_json_as_value (object es) =
        write_length_delimited 5
          (write_repeated (map encode_entry (sort_entries before (encode_entries es))))

    pub encode_items : Items → List Bytes
    encode_items no_items = []
    encode_items (item v xs) = encode_json_as_value v ∷ encode_items xs

    pub encode_entries : Entries → List (String × Bytes)
    encode_entries no_entries = []
    encode_entries (entry k v es) =
        if is_undefined v
        then encode_entries es
        else (k, encode_json_as_value v) ∷ encode_entries es

abbrev pub bytes_of : FieldValue → Option Bytes
bytes_of (bytes b) = some b
bytes_of _ = none

module _ (decode_text : Bytes → String) (get_float64 : Bytes → ℕ) where
  -- The loop over the fields of a map entry: the last key and the last value.
  pub map_entry_loop : Option String × Option Bytes → List RawField → Option String × Option Bytes
  map_entry_loop found [] = found
  map_entry_loop (key, value) (f ∷ fs) =
      let new_key = map_entry_loop (Option.map decode_text (bytes_of f.value), value) fs in
      let new_value = map_entry_loop (key, bytes_of f.value) fs in
      let same = map_entry_loop (key, value) fs in
      if not (is_some (bytes_of f.value))
      then same
      else if nat_beq f.number 1
      then new_key
      else if nat_beq f.number 2
      then new_value
      else same

  pub read_map_entry : Bytes → Option String × Option Bytes
  unfolding map_entry_loop
  read_map_entry b = map_entry_loop (none, none) (read_all_fields b)

  module _ (decode : Bytes → Json) where
    abbrev pub put_entry : Entries → Option String × Option Bytes → Entries
    put_entry es (none, value) = es
    put_entry es (some key, value) = put key (get_or (Option.map decode value) null) es

    pub decode_struct_loop : Entries → List RawField → Entries
    unfolding read_map_entry
    decode_struct_loop es [] = es
    decode_struct_loop es (f ∷ fs) = elim (bytes_of f.value) [
      | none ↦ decode_struct_loop es fs
      | some b ↦
          if nat_beq f.number 1
          then decode_struct_loop (put_entry es (read_map_entry b)) fs
          else decode_struct_loop es fs
    ]

    pub decode_list_loop : List RawField → Items
    decode_list_loop [] = no_items
    decode_list_loop (f ∷ fs) = elim (bytes_of f.value) [
      | none ↦ decode_list_loop fs
      | some b ↦
          if nat_beq f.number 1 then item (decode b) (decode_list_loop fs) else decode_list_loop fs
    ]

    -- A double has all its eight bytes here. What a message cut within one gives is not modelled: there the
    -- source reads what follows the message in its buffer, or throws.
    abbrev pub as_number : FieldValue → Json
    as_number (fixed64 b) = number (get_float64 b)
    as_number _ = number 0

    abbrev pub as_string : FieldValue → Json
    as_string (bytes b) = string (decode_text b)
    as_string _ = string ""

    abbrev pub as_boolean : FieldValue → Json
    as_boolean (varint n) = boolean (not (nat_beq n 0))
    as_boolean _ = boolean false

    pub as_object : FieldValue → Json
    unfolding decode_struct_loop
    as_object (bytes b) = object (decode_struct_loop no_entries (read_all_fields b))
    as_object _ = object no_entries

    pub as_array : FieldValue → Json
    unfolding decode_list_loop
    as_array (bytes b) = array (decode_list_loop (read_all_fields b))
    as_array _ = array no_items

    -- The switch on the first field.
    pub value_of : List RawField → Json
    unfolding as_object as_array
    value_of [] = null
    value_of (f ∷ fs) =
        if nat_beq f.number 2
        then as_number f.value
        else if nat_beq f.number 3
        then as_string f.value
        else if nat_beq f.number 4
        then as_boolean f.value
        else if nat_beq f.number 5
        then as_object f.value
        else if nat_beq f.number 6
        then as_array f.value
        else null

  -- The recursion, on fuel: a nested value is shorter than its message.
  pub decode_value : ℕ → Bytes → Json
  unfolding value_of
  decode_value zero b = null
  decode_value (suc fuel) b = value_of (decode_value fuel) (read_all_fields b)

  pub decode_value_to_json : Bytes → Json
  unfolding decode_value
  decode_value_to_json b = decode_value (suc (length b)) b

  -- A map field that was captured as its entries.
  pub decode_struct_entries_to_json : List Bytes → Entries
  decode_struct_entries_to_json entries = go no_entries entries
    where
      go : Entries → List Bytes → Entries
      go es [] = es
      go es (b ∷ bs) = go (put_entry decode_value_to_json es (read_map_entry b)) bs
