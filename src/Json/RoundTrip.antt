-- ===== src/Json/RoundTrip.antt =====
-- Decoding what was encoded.
use cursor_opencode_provider.Base.{
  ◌+◌, ◌≤◌, ◌<◌, ℕ, zero, suc, String, ◌≡◌, refl, ap, ◌∙◌, inl, inr, Bool, true, false, not, ◌&&◌,
  some, List, [], ◌∷◌, ◌++◌, map, arith, leb, nat_beq, if◌then◌else◌, Bool-cases, ◌==◌, length, all,
  length-append, string_eq, nat_eq,
}
use Prim.Native.Char.{code}
use cursor_opencode_provider.Wire.{
  Bytes, write_varint, write_tag, write_length_delimited, FieldValue, cons_field, read_all_fields,
  varint, bytes, fixed64,
}
use cursor_opencode_provider.Json.{
  Json, Items, Entries, is_undefined, put, put_own, put_all, write_repeated, insert_entry,
  sort_entries, encode_entry, encode_json_as_value, encode_items, encode_entries, map_entry_loop,
  read_map_entry, decode_struct_loop, decode_list_loop, as_object, as_array, value_of, decode_value,
  decode_value_to_json, null, undefined, number, boolean, string, array, object, no_items, item,
  no_entries, entry,
}
use cursor_opencode_provider.Json.Fields.{
  fields-delimited, fields-scalar, fields-eight, fields-pair, raw_repeated, AllWithin,
  length-delimited, write_repeated_within, fields-repeated,
}

-- The properties of an object to which these are assigned: none has the key `__proto__`.
abbrev pub assigned : Entries → List (String × Json) → Entries
assigned es [] = es
assigned es ((k, v) ∷ ps) =
    let rest = assigned (put_own k v es) ps in if k == "__proto__" then assigned es ps else rest

assigned-put_all : (es : Entries) (ps : List (String × Json)) → put_all es ps ≡ assigned es ps
assigned-put_all es [] = refl
assigned-put_all es ((k, v) ∷ ps) = elim (Bool-cases (k == "__proto__")) [
  | inl e ↦ rw e (assigned-put_all es ps)
  | inr e ↦ rw e (assigned-put_all (put_own k v es) ps)
]

-- What the encoder means: an undefined value is null, an undefined field of an object is left out, and the
-- fields are assigned in the order of their keys.
unfoldable mutual
  pub normal : (String → String → Bool) → Json → Json
  normal before null = null
  normal before undefined = null
  normal before (number n) = number n
  normal before (boolean b) = boolean b
  normal before (string s) = string s
  normal before (array xs) = array (normal_items before xs)
  normal before (object es) =
      object (assigned no_entries (sort_entries before (normal_entries before es)))

  pub normal_items : (String → String → Bool) → Items → Items
  normal_items before no_items = no_items
  normal_items before (item v xs) = item (normal before v) (normal_items before xs)

  pub normal_entries : (String → String → Bool) → Entries → List (String × Json)
  normal_entries before no_entries = []
  normal_entries before (entry k v es) =
      if is_undefined v
      then normal_entries before es
      else (k, normal before v) ∷ normal_entries before es

-- The bit pattern of each number has 64 bits.
unfoldable mutual
  pub all_doubles : Json → Bool
  all_doubles null = true
  all_doubles undefined = true
  all_doubles (number n) = leb n 18446744073709551615
  all_doubles (boolean b) = true
  all_doubles (string s) = true
  all_doubles (array xs) = all_doubles_items xs
  all_doubles (object es) = all_doubles_entries es

  pub all_doubles_items : Items → Bool
  all_doubles_items no_items = true
  all_doubles_items (item v xs) = all_doubles v && all_doubles_items xs

  pub all_doubles_entries : Entries → Bool
  all_doubles_entries no_entries = true
  all_doubles_entries (entry k v es) = all_doubles v && all_doubles_entries es

-- A text that does not begin with U+FEFF, the byte order mark, which a decoder of UTF-8 takes off.
unfoldable pub unmarked : String → Bool
unmarked String.[] = true
unmarked (String.◌∷◌ c s) = not (nat_beq (code c) 65279)

-- No text of the value, and no key of its objects, begins with a byte order mark.
unfoldable mutual
  pub all_unmarked : Json → Bool
  all_unmarked null = true
  all_unmarked undefined = true
  all_unmarked (number n) = true
  all_unmarked (boolean b) = true
  all_unmarked (string s) = unmarked s
  all_unmarked (array xs) = all_unmarked_items xs
  all_unmarked (object es) = all_unmarked_entries es

  pub all_unmarked_items : Items → Bool
  all_unmarked_items no_items = true
  all_unmarked_items (item v xs) = all_unmarked v && all_unmarked_items xs

  pub all_unmarked_entries : Entries → Bool
  all_unmarked_entries no_entries = true
  all_unmarked_entries (entry k v es) = unmarked k && (all_unmarked v && all_unmarked_entries es)

abbrev items_of : (Bytes → Json) → List Bytes → Items
items_of d [] = no_items
items_of d (b ∷ bs) = item (d b) (items_of d bs)

abbrev decoded : (Bytes → Json) → List (String × Bytes) → List (String × Json)
decoded d [] = []
decoded d ((k, b) ∷ ps) = (k, d b) ∷ decoded d ps

-- The key of a pair.
abbrev keyed : String × Bytes → Bool
keyed (k, b) = unmarked k

module _ (before : String → String → Bool) where
  keyed-insert :
      (p : String × Bytes) (ps : List (String × Bytes))
      → all keyed (insert_entry before p ps) ≡ (keyed p && all keyed ps)
  keyed-insert p [] = refl
  keyed-insert (k, b) ((j, c) ∷ qs) = ground (arith, keyed-insert (k, b) qs)

  keyed-sort : (ps : List (String × Bytes)) → all keyed (sort_entries before ps) ≡ all keyed ps
  keyed-sort [] = refl
  keyed-sort (p ∷ ps) =
      keyed-insert p (sort_entries before ps) ∙ ap (λ b. keyed p && b) (keyed-sort ps)

  keyed-encode_entries :
      (encode_text : String → Bytes) (set_float64 : ℕ → Bytes) (es : Entries)
      → all_unmarked_entries es ≡ true
      → all keyed (encode_entries encode_text set_float64 before es) ≡ true
  unfolding encode_entries all_unmarked_entries
  keyed-encode_entries encode_text set_float64 no_entries u = refl
  keyed-encode_entries encode_text set_float64 (entry k v es) u =
      ground (arith, u, keyed-encode_entries encode_text set_float64 es)

module _ (before : String → String → Bool) (d : Bytes → Json) where
  decoded-insert :
      (p : String × Bytes) (ps : List (String × Bytes))
      → decoded d (insert_entry before p ps) ≡ insert_entry before (p.0, d (p.1)) (decoded d ps)
  decoded-insert p [] = refl
  decoded-insert p (q ∷ qs) = ground (arith, decoded-insert p qs)

  decoded-sort :
      (ps : List (String × Bytes))
      → decoded d (sort_entries before ps) ≡ sort_entries before (decoded d ps)
  decoded-sort [] = refl
  decoded-sort (p ∷ ps) =
      decoded-insert p (sort_entries before ps)
      ∙ ap (insert_entry before (p.0, d (p.1))) (decoded-sort ps)

module _ (encode_text : String → Bytes) (decode_text : Bytes → String) (set_float64 : ℕ → Bytes)
    (get_float64 : Bytes → ℕ) (before : String → String → Bool) where
  -- A pair whose parts fit the wire, with a value shorter than `n`.
  abbrev FitsPair : ℕ → String × Bytes → Type 0
  FitsPair n (k, b) =
      (length (encode_text k) < 4294967296) × ((length b < 4294967296) × (length b < n))

  abbrev FitPairs : ℕ → List (String × Bytes) → Type 0
  FitPairs n [] = Unit
  FitPairs n (p ∷ ps) = FitsPair n p × FitPairs n ps

  FitPairs-insert :
      (n : ℕ) (p : String × Bytes) (ps : List (String × Bytes))
      → FitPairs n (insert_entry before p ps)
      → FitsPair n p × FitPairs n ps
  FitPairs-insert n p [] h = h
  FitPairs-insert n p (q ∷ qs) h = elim (Bool-cases (before (q.0) (p.0))) [
    | inl e ↦
        let (hq, hs) : FitsPair n q × FitPairs n (insert_entry before p qs) = rw e at h in
        let (hp, hqs) = FitPairs-insert n p qs hs in (hp, (hq, hqs))
    | inr e ↦ rw e at h
  ]

  FitPairs-sort :
      (n : ℕ) (ps : List (String × Bytes)) → FitPairs n (sort_entries before ps) → FitPairs n ps
  FitPairs-sort n [] h = tt
  FitPairs-sort n (p ∷ ps) h =
      let (hp, hs) = FitPairs-insert n p (sort_entries before ps) h in (hp, FitPairs-sort n ps hs)

  pairs_fit :
      (n : ℕ) (ps : List (String × Bytes))
      → length (write_repeated (map (encode_entry encode_text set_float64 before) ps)) ≤ n
      → length (write_repeated (map (encode_entry encode_text set_float64 before) ps)) < 4294967296
      → FitPairs n ps
  unfolding write_repeated
  pairs_fit n [] h l = tt
  pairs_fit n ((k, b) ∷ ps) h l =
      let whole = encode_entry encode_text set_float64 before (k, b) in
      let rest = write_repeated (map (encode_entry encode_text set_float64 before) ps) in
      let total : length
            (write_repeated (map (encode_entry encode_text set_float64 before) ((k, b) ∷ ps)))
          ≡ length (write_length_delimited 1 whole) + length rest =
        length-append (write_length_delimited 1 whole) rest in
      let parts =
        length-append (write_length_delimited 1 (encode_text k)) (write_length_delimited 2 b) in
      let outer = length-delimited 1 whole in
      let key = length-delimited 1 (encode_text k) in
      let value = length-delimited 2 b in
      (
        (
          omega (arith, total, parts, outer, key, value),
          (
            omega (arith, total, parts, outer, key, value),
            omega (arith, total, parts, outer, key, value),
          ),
        ),
        pairs_fit n ps (omega (arith, total)) (omega (arith, total)),
      )

  decode_list-repeated :
      (d : Bytes → Json) (bs : List Bytes)
      → decode_list_loop decode_text get_float64 d (raw_repeated bs) ≡ items_of d bs
  unfolding decode_list_loop
  decode_list-repeated d [] = refl
  decode_list-repeated d (b ∷ bs) = ap (item (d b)) (decode_list-repeated d bs)

  read_map_entry-encode :
      (k : String) (b : Bytes)
      → decode_text (encode_text k) ≡ k
      → length (encode_text k) < 4294967296
      → length b < 4294967296
      → read_map_entry decode_text get_float64 (encode_entry encode_text set_float64 before (k, b))
        ≡ (some k, some b)
  unfolding read_map_entry map_entry_loop
  read_map_entry-encode k b text hk hb = rw (fields-pair (encode_text k) b hk hb) (rw text refl)

  decode_struct-repeated :
      (d : Bytes → Json) (n : ℕ) (es : Entries) (ps : List (String × Bytes))
      → ((s : String) → unmarked s ≡ true → decode_text (encode_text s) ≡ s)
      → all keyed ps ≡ true
      → FitPairs n ps
      → decode_struct_loop decode_text get_float64 d es
          (raw_repeated (map (encode_entry encode_text set_float64 before) ps))
        ≡ put_all es (decoded d ps)
  unfolding decode_struct_loop
  decode_struct-repeated d n es [] text u h = refl
  decode_struct-repeated d n es ((k, b) ∷ ps) text u ((hk, (hb, hn)), hs) =
      rw (read_map_entry-encode k b (text k (ground (arith, u))) hk hb)
        (decode_struct-repeated d n (put k (d b) es) ps text (ground (arith, u)) hs)

module _ (encode_text : String → Bytes) (decode_text : Bytes → String) (set_float64 : ℕ → Bytes)
    (get_float64 : Bytes → ℕ) (before : String → String → Bool)
    (text : (s : String) → unmarked s ≡ true → decode_text (encode_text s) ≡ s)
    (double : (n : ℕ) → n < 18446744073709551616 → get_float64 (set_float64 n) ≡ n)
    (eight_bytes : (n : ℕ) → length (set_float64 n) ≡ 8) where
  abbrev encode : Json → Bytes
  encode = encode_json_as_value encode_text set_float64 before

  abbrev decode : ℕ → Bytes → Json
  decode = decode_value decode_text get_float64

  -- The first field decides, whatever it holds.
  decode_first :
      (n m key : ℕ) (b : Bytes) (v : FieldValue)
      → n ≡ suc m
      → read_all_fields b ≡ cons_field key v []
      → decode n b ≡ value_of decode_text get_float64 (decode m) (cons_field key v [])
  unfolding decode_value
  decode_first n m key b v e h = rw e (rw h refl)

  decode_null : (n : ℕ) → decode (suc n) (write_tag 1 0 ++ write_varint 0) ≡ null
  decode_null n =
      decode_first (suc n) n 1 (write_tag 1 0 ++ write_varint 0) (varint 0) refl
        (fields-scalar 1 0 refl (omega arith))
      ∙ unfold value_of in refl

  decode_boolean : (n : ℕ) (b : Bool) → decode (suc n) (encode (boolean b)) ≡ boolean b
  unfolding value_of encode_json_as_value
  decode_boolean n true =
      decode_first (suc n) n 4 _ (varint 1) refl (fields-scalar 4 1 refl (omega arith))
  decode_boolean n false =
      decode_first (suc n) n 4 _ (varint 0) refl (fields-scalar 4 0 refl (omega arith))

  decode_number :
      (n m : ℕ) → m < 18446744073709551616 → decode (suc n) (encode (number m)) ≡ number m
  unfolding value_of encode_json_as_value
  decode_number n m h =
      decode_first (suc n) n 2 _ (fixed64 (set_float64 m)) refl
        (fields-eight 2 (set_float64 m) refl (eight_bytes m))
      ∙ ap number (double m h)

  mutual
    unfolding value_of encode_json_as_value normal all_doubles all_unmarked as_object as_array

    roundtrip_value :
        (n : ℕ) (v : Json)
        → length (encode v) < n
        → length (encode v) < 4294967296
        → all_doubles v ≡ true
        → all_unmarked v ≡ true
        → decode n (encode v) ≡ normal before v
    roundtrip_value zero v h l w u = absurd (omega arith)
    roundtrip_value (suc n) null h l w u = decode_null n
    roundtrip_value (suc n) undefined h l w u = decode_null n
    roundtrip_value (suc n) (number m) h l w u = decode_number n m (ground arith)
    roundtrip_value (suc n) (boolean b) h l w u = decode_boolean n b
    roundtrip_value (suc n) (string s) h l w u =
        decode_first (suc n) n 3 _ (bytes (encode_text s)) refl (
          fields-delimited 3 (encode_text s) refl
            (omega (arith, length-delimited 3 (encode_text s))))
        ∙ ap string (text s u)
    roundtrip_value (suc n) (array xs) h l w u =
        let bs = encode_items encode_text set_float64 before xs in
        let size = length-delimited 6 (write_repeated bs) in
        decode_first (suc n) n 6 _ (bytes (write_repeated bs)) refl
          (fields-delimited 6 (write_repeated bs) refl (omega (arith, size)))
        ∙ ap array (
            ap (decode_list_loop decode_text get_float64 (decode n))
              (fields-repeated bs (omega (arith, size)))
            ∙ (decode_list-repeated encode_text decode_text set_float64 get_float64 before
                  (decode n) bs
                ∙ roundtrip_items n xs (write_repeated_within n bs (omega (arith, size)))
                    (write_repeated_within 4294967296 bs (omega (arith, size))) w u))
    roundtrip_value (suc n) (object es) h l w u =
        let ps = encode_entries encode_text set_float64 before es in
        let bs = map (encode_entry encode_text set_float64 before) (sort_entries before ps) in
        let size = length-delimited 5 (write_repeated bs) in
        let fit =
          pairs_fit encode_text decode_text set_float64 get_float64 before n
            (sort_entries before ps) (omega (arith, size)) (omega (arith, size)) in
        let keys : all keyed (sort_entries before ps) ≡ true =
          keyed-sort before ps ∙ keyed-encode_entries before encode_text set_float64 es u in
        decode_first (suc n) n 5 _ (bytes (write_repeated bs)) refl
          (fields-delimited 5 (write_repeated bs) refl (omega (arith, size)))
        ∙ ap object (
            ap (decode_struct_loop decode_text get_float64 (decode n) no_entries)
              (fields-repeated bs (omega (arith, size)))
            ∙ (decode_struct-repeated encode_text decode_text set_float64 get_float64 before
                  (decode n) n no_entries (sort_entries before ps) text keys fit
                ∙ (assigned-put_all no_entries (decoded (decode n) (sort_entries before ps))
                    ∙ ap (assigned no_entries) (
                        decoded-sort before (decode n) ps
                        ∙ ap (sort_entries before) (
                            roundtrip_entries n es
                              (FitPairs-sort encode_text decode_text set_float64 get_float64 before
                                n ps fit)
                              w u)))))

    roundtrip_items :
        (n : ℕ) (xs : Items)
        → AllWithin n (encode_items encode_text set_float64 before xs)
        → AllWithin 4294967296 (encode_items encode_text set_float64 before xs)
        → all_doubles_items xs ≡ true
        → all_unmarked_items xs ≡ true
        → items_of (decode n) (encode_items encode_text set_float64 before xs)
          ≡ normal_items before xs
    roundtrip_items n no_items h l w u = refl
    roundtrip_items n (item v xs) (h, hs) (l, ls) w u =
        rw
          (
            roundtrip_value n v h l (ground arith) (ground (arith, u)),
            roundtrip_items n xs hs ls (ground arith) (ground (arith, u)),
          )
          refl

    roundtrip_entries :
        (n : ℕ) (es : Entries)
        → FitPairs encode_text decode_text set_float64 get_float64 before n
            (encode_entries encode_text set_float64 before es)
        → all_doubles_entries es ≡ true
        → all_unmarked_entries es ≡ true
        → decoded (decode n) (encode_entries encode_text set_float64 before es)
          ≡ normal_entries before es
    roundtrip_entries n no_entries h w u = refl
    roundtrip_entries n (entry k v es) h w u = elim (Bool-cases (is_undefined v)) [
      | inl e ↦
          let rest : FitPairs encode_text decode_text set_float64 get_float64 before n
              (encode_entries encode_text set_float64 before es) =
            rw e at h in
          rw e (roundtrip_entries n es rest (ground arith) (ground (arith, u)))
      | inr e ↦
          let both : FitPairs encode_text decode_text set_float64 get_float64 before n
              ((k, encode v) ∷ encode_entries encode_text set_float64 before es) =
            rw e at h in
          rw e (
            rw
              (
                roundtrip_value n v both.0.1.1 both.0.1.0 (ground arith) (ground (arith, u)),
                roundtrip_entries n es both.1 (ground arith) (ground (arith, u)),
              )
              refl)
    ]

  -- A JSON value that was encoded within 4 GiB is decoded to its normal form: the same value, with null for
  -- undefined, without the undefined fields of objects, and with the fields assigned in the order of their
  -- keys, of which `__proto__` leaves none. The text decoder undoes the encoder on a text that does not begin with
  -- a byte order mark, as none does here; that of numbers does on 64 bits, which have eight bytes.
  pub decode_value_to_json-encode :
      (v : Json)
      → length (encode v) < 4294967296
      → all_doubles v ≡ true
      → all_unmarked v ≡ true
      → decode_value_to_json decode_text get_float64 (encode v) ≡ normal before v
  unfolding decode_value_to_json
  decode_value_to_json-encode v h w u =
      roundtrip_value (suc (length (encode v))) v (omega arith) h w u
