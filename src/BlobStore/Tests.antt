-- ===== src/BlobStore/Tests.antt =====
-- Two blobs, of which the checkpoint reaches one.
use cursor_opencode_provider.Base.{◌≡◌, refl, false, Option, none, some, [], ◌∷◌, string_eq, nat_eq}
use cursor_opencode_provider.JsMap.{get}
use cursor_opencode_provider.BlobStore.{
  Bytes, Store, Reached, failed, reached, hex, bucket, bucket_of, set_conversation_blob,
  lookup_blob, is_blob_id_hash, reach, compact_conversation_blobs, key_eq,
}
use cursor_opencode_provider.BlobStore.Compaction.{get-compact_conversation_blobs}

-- A checkpoint whose bytes are one id.
abbrev one_id : Bytes → (Bytes → Option Bytes) → Reached
unfolding hex
one_id checkpoint find = elim (find checkpoint) [
  | none ↦ failed "missing blob"
  | some content ↦ reached (hex checkpoint ∷ [])
]

abbrev two_blobs : Store
unfolding set_conversation_blob
two_blobs =
    (set_conversation_blob (set_conversation_blob [] "c" (1 ∷ []) (7 ∷ [])).0 "c" (255 ∷ [])
      (8 ∷ 9 ∷ [])).0

drops_unreached :
    bucket_of (compact_conversation_blobs one_id two_blobs "c" (some (255 ∷ [])) false).0 "c"
    ≡ (102 ∷ 102 ∷ [], 8 ∷ 9 ∷ []) ∷ []
unfolding two_blobs one_id set_conversation_blob bucket hex lookup_blob is_blob_id_hash reach
    compact_conversation_blobs
drops_unreached = refl

get-compact_conversation_blobs_example :
    get
      (48 ∷ 49 ∷ [])
      (bucket_of (compact_conversation_blobs one_id two_blobs "c" (some (255 ∷ [])) false).0 "c")
    ≡ none
unfolding two_blobs one_id set_conversation_blob bucket hex lookup_blob is_blob_id_hash reach
get-compact_conversation_blobs_example =
    get-compact_conversation_blobs one_id two_blobs "c" (some (255 ∷ [])) false (48 ∷ 49 ∷ [])
