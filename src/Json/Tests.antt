-- ===== src/Json/Tests.antt =====
-- An object with an array and an undefined field, encoded and decoded.
use cursor_opencode_provider.Base.{
  ◌+◌, ◌*◌, ◌/◌, ◌%◌, ◌<◌, ℕ, zero, suc, String, ◌≡◌, refl, Bool, true, ◌&&◌, [], ◌∷◌, arith, take,
  ◌==◌, string_eq, nat_eq,
}
use cursor_opencode_provider.Wire.{Bytes, write_length_delimited}
use cursor_opencode_provider.Json.{
  Json, write_repeated, encode_json_as_value, decode_value, decode_value_to_json, undefined, number,
  boolean, string, array, object, no_items, item, no_entries, entry,
}
use cursor_opencode_provider.Json.RoundTrip.{
  normal, all_doubles, all_unmarked, unmarked, decode_value_to_json-encode,
}
use cursor_opencode_provider.Json.Fuel.{decode_value_fuel}
use cursor_opencode_provider.Json.Codes.{codes, text_of, text_of-codes}

abbrev before : String → String → Bool
before s t = s == "a" && t == "b"

-- The eight bytes of a bit pattern, the lowest first.
abbrev split_bytes : ℕ → ℕ → Bytes
split_bytes zero n = []
split_bytes (suc k) n = n % 256 ∷ split_bytes k (n / 256)

abbrev joined : Bytes → ℕ
joined [] = 0
joined (b ∷ bs) = b + 256 * joined bs

double : (n : ℕ) → n < 18446744073709551616 → joined (split_bytes 8 n) ≡ n
double n h = omega arith

abbrev sample : Json
sample = object (
    entry "b" (array (item (boolean true) (item (string "x") no_items)))
      (entry "c" undefined (entry "a" (number 7) no_entries)))

-- Field 5, 34 bytes: the entry of "a" first.
begins : take 4 (encode_json_as_value codes (split_bytes 8) before sample) ≡ 42 ∷ 34 ∷ 10 ∷ 14 ∷ []
unfolding encode_json_as_value write_repeated codes write_length_delimited
begins = refl

decode_value_to_json-encode_example :
    decode_value_to_json text_of joined (encode_json_as_value codes (split_bytes 8) before sample)
    ≡ object (
        entry "a"
          (number 7)
          (entry "b" (array (item (boolean true) (item (string "x") no_items))) no_entries))
unfolding normal write_length_delimited all_doubles all_unmarked unmarked
decode_value_to_json-encode_example =
    decode_value_to_json-encode codes text_of (split_bytes 8) joined before (λ s u. text_of-codes s)
      double (λ n. refl) sample (unfold encode_json_as_value write_repeated codes in omega arith)
      refl refl

decode_value_fuel_example :
    decode_value text_of joined 9 (8 ∷ 1 ∷ []) ≡ decode_value text_of joined 3 (8 ∷ 1 ∷ [])
decode_value_fuel_example =
    decode_value_fuel text_of joined 9 3 (8 ∷ 1 ∷ []) (omega arith) (omega arith)
