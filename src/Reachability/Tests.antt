-- ===== src/Reachability/Tests.antt =====
-- The walk and the compaction on a small conversation.
use cursor_opencode_provider.Base.{
  String, ◌≡◌, refl, false, Option, none, some, List, [], ◌∷◌, string_eq, nat_eq,
}
use cursor_opencode_provider.BlobStore.{
  Bytes, key_eq, Store, hex, bucket_of, lookup_blob, reach, compact_conversation_blobs,
}
use cursor_opencode_provider.Reachability.{
  BytesField, visit_state_field, walk_state, collect_reachable_conversation_blob_ids,
}
use cursor_opencode_provider.Reachability.Restart.{walk_for, reach-compact_conversation_blobs}

-- Messages of fields with one byte each.
abbrev pairs : Bytes → List BytesField
pairs [] = []
pairs (n ∷ []) = []
pairs (n ∷ x ∷ rest) = record { number = n; content = x ∷ [] } ∷ pairs rest

abbrev read_pairs : Bytes → Option (List BytesField)
read_pairs message = some (pairs message)

-- The text of an error, by what the walk is given.
abbrev broken : Bytes → (Bytes → Option Bytes) → String
broken checkpoint look = elim (look checkpoint) [ none ↦ "missing" | some b ↦ "malformed" ]

abbrev two_blobs : Store
two_blobs = ("c", (hex (7 ∷ []), 1 ∷ []) ∷ (hex (9 ∷ []), 2 ∷ []) ∷ []) ∷ []

-- The id 7 in a direct field, twice; 5 is a literal.
test-collect :
    collect_reachable_conversation_blob_ids read_pairs
      (lookup_blob (bucket_of two_blobs "c"))
      (3 ∷ 7 ∷ 6 ∷ 5 ∷ 13 ∷ 7 ∷ [])
    ≡ some (hex (7 ∷ []) ∷ hex (5 ∷ []) ∷ [])
unfolding collect_reachable_conversation_blob_ids walk_state visit_state_field lookup_blob
test-collect = refl

reach-compact_conversation_blobs_example :
    let once : Store =
      (compact_conversation_blobs
        (walk_for read_pairs broken)
        two_blobs
        "c"
        (some (3 ∷ 7 ∷ []))
        false).0 in
    (reach (walk_for read_pairs broken) (bucket_of once "c") (some (3 ∷ 7 ∷ []))
      ≡ reach (walk_for read_pairs broken) (bucket_of two_blobs "c") (some (3 ∷ 7 ∷ [])))
    × (bucket_of
          (compact_conversation_blobs
            (walk_for read_pairs broken)
            once
            "c"
            (some (3 ∷ 7 ∷ []))
            false).0
          "c"
        ≡ bucket_of once "c")
reach-compact_conversation_blobs_example =
    reach-compact_conversation_blobs read_pairs broken two_blobs "c" (some (3 ∷ 7 ∷ []))
