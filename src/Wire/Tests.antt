-- ===== src/Wire/Tests.antt =====
-- Two messages, and the two readers on them.
use cursor_opencode_provider.Base.{◌≡◌, refl, none, some, List, [], ◌∷◌, string_eq, nat_eq}
use cursor_opencode_provider.Wire.{
  Bytes, read_all_fields, StrictField, read_all_fields_strict, bytes, scalar, delimited, eight,
  four,
}
use cursor_opencode_provider.Wire.Refinement.{raw_fields, read_all_fields_strict-refines}
use cursor_opencode_provider.Wire.Written.{write_fields, read_all_fields_strict-write_fields}

abbrev message : List StrictField
message =
    record { number = 1; value = scalar 300 }
    ∷ record { number = 2; value = delimited (104 ∷ 105 ∷ []) }
    ∷ record { number = 3; value = eight (1 ∷ 2 ∷ 3 ∷ 4 ∷ 5 ∷ 6 ∷ 7 ∷ 8 ∷ []) }
    ∷ []

written :
    write_fields message
    ≡ 8 ∷ 172 ∷ 2 ∷ 18 ∷ 2 ∷ 104 ∷ 105 ∷ 25 ∷ 1 ∷ 2 ∷ 3 ∷ 4 ∷ 5 ∷ 6 ∷ 7 ∷ 8 ∷ []
unfolding write_fields
written = refl

-- A field of four bytes, and an overlong scalar.
abbrev received : Bytes
received = 13 ∷ 0 ∷ 0 ∷ 0 ∷ 1 ∷ 16 ∷ 133 ∷ 128 ∷ 0 ∷ []

accepted :
    read_all_fields_strict received
    ≡ some (
        record { number = 1; value = four (0 ∷ 0 ∷ 0 ∷ 1 ∷ []) }
        ∷ record { number = 2; value = scalar 5 }
        ∷ [])
unfolding read_all_fields_strict
accepted = refl

-- A length beyond the end is refused by the one reader and cut short by the other.
truncated : read_all_fields_strict (10 ∷ 9 ∷ 1 ∷ []) ≡ none
unfolding read_all_fields_strict
truncated = refl

cut_short : read_all_fields (10 ∷ 9 ∷ 1 ∷ []) ≡ record { number = 1; value = bytes (1 ∷ []) } ∷ []
unfolding read_all_fields
cut_short = refl

read_all_fields_strict-refines_example :
    read_all_fields received
    ≡ raw_fields (
        record { number = 1; value = four (0 ∷ 0 ∷ 0 ∷ 1 ∷ []) }
        ∷ record { number = 2; value = scalar 5 }
        ∷ [])
read_all_fields_strict-refines_example = read_all_fields_strict-refines received _ accepted refl

read_all_fields_strict-write_fields_example :
    read_all_fields_strict (write_fields message) ≡ some message
read_all_fields_strict-write_fields_example = read_all_fields_strict-write_fields message refl
