-- ===== src/Reachability/Restart.antt =====
-- The walk over a bucket that was compacted for the same checkpoint.
use mathlib.Core.Option.{some-injective}
use cursor_opencode_provider.Base.{
  String, ◌≡◌, refl, sym, ap, ◌∙◌, inl, inr, false, Option, none, some, List, [], ◌∷◌, arith,
  Option-cases, string_eq, nat_eq,
}
use cursor_opencode_provider.BlobStore.{
  Bytes, Key, key_eq, Store, hex, bucket_of, lookup_blob, keep_reachable, Reached, reach,
  compact_conversation_blobs, reached, failed,
}
use cursor_opencode_provider.BlobStore.Compaction.{
  get-keep_reachable, bucket_of-install, Reached-cases,
}
use cursor_opencode_provider.Reachability.{
  BytesField, collect_reachable_conversation_blob_ids, reached_or,
}
use cursor_opencode_provider.Reachability.Local.{AgreeOn, collect_reachable-IsLocal}
use cursor_opencode_provider.JsMap.{Map, get}

abbrev ids_of : Reached → Option (List Key)
ids_of (failed reason) = none
ids_of (reached ids) = some ids

module _ (bytes_fields : Bytes → Option (List BytesField))
    (reason : Bytes → (Bytes → Option Bytes) → String) where
  -- The walk as the blob store calls it.
  abbrev pub walk_for : Bytes → (Bytes → Option Bytes) → Reached
  walk_for checkpoint look =
      reached_or (reason checkpoint look)
        (collect_reachable_conversation_blob_ids bytes_fields look checkpoint)

  lookup_blob-keep_reachable :
      (current : Map Key Bytes) (ids : List Key)
      → AgreeOn (lookup_blob current) (lookup_blob (keep_reachable ids current)) ids
  unfolding AgreeOn lookup_blob
  lookup_blob-keep_reachable current ids id e =
      let kept : get (hex id) (keep_reachable ids current) ≡ get (hex id) current =
        ground (arith, get-keep_reachable (hex id) ids current) in
      rw (kept, lookup_blob) refl

  walk_for-keep_reachable :
      (checkpoint : Bytes) (current : Map Key Bytes) (ids : List Key)
      → walk_for checkpoint (lookup_blob current) ≡ reached ids
      → walk_for checkpoint (lookup_blob (keep_reachable ids current)) ≡ reached ids
  walk_for-keep_reachable checkpoint current ids e =
      elim (Option-cases
        (collect_reachable_conversation_blob_ids bytes_fields (lookup_blob current) checkpoint)) [
          | inl g ↦ ground (arith, g)
          | inr (walked, g) ↦
              let same : walked ≡ ids = some-injective _ _ (ap ids_of (rw g at e)) in
              rw
                (collect_reachable-IsLocal bytes_fields (lookup_blob current)
                  (lookup_blob (keep_reachable ids current)) checkpoint ids (rw same at g)
                  (lookup_blob-keep_reachable current ids))
                refl
        ]

  keep_reachable-again :
      (ids : List Key) (current : Map Key Bytes)
      → keep_reachable ids (keep_reachable ids current) ≡ keep_reachable ids current
  keep_reachable-again ids [] = refl
  keep_reachable-again ids ((k, b) ∷ m) = ground (arith, keep_reachable-again ids m)

  reach-keep_reachable :
      (checkpoint : Option Bytes) (current : Map Key Bytes) (ids : List Key)
      → reach walk_for current checkpoint ≡ reached ids
      → reach walk_for (keep_reachable ids current) checkpoint ≡ reached ids
  unfolding reach
  reach-keep_reachable none current ids e = ground arith
  reach-keep_reachable (some []) current ids e = ground arith
  reach-keep_reachable (some (b ∷ bs)) current ids e =
      walk_for-keep_reachable (b ∷ bs) current ids e

  compacted_bucket :
      (store : Store) (conversation : String) (checkpoint : Option Bytes) (ids : List Key)
      → reach walk_for (bucket_of store conversation) checkpoint ≡ reached ids
      → bucket_of
          (compact_conversation_blobs walk_for store conversation checkpoint false).0
          conversation
        ≡ keep_reachable ids (bucket_of store conversation)
  unfolding compact_conversation_blobs
  compacted_bucket store conversation checkpoint ids e =
      rw (e, compact_conversation_blobs) (bucket_of-install store conversation _)

  store_as_it_was :
      (store : Store) (conversation reason' : String) (checkpoint : Option Bytes)
      → reach walk_for (bucket_of store conversation) checkpoint ≡ failed reason'
      → (compact_conversation_blobs walk_for store conversation checkpoint false).0 ≡ store
  unfolding compact_conversation_blobs
  store_as_it_was store conversation reason' checkpoint e = rw (e, compact_conversation_blobs) refl

  -- A restart from the same checkpoint after a compaction: the walk over what was kept ends as the walk did
  -- before, with the same ids or the same reason, and a second compaction changes nothing. The walk's own
  -- references decide it, whatever fields the messages have.
  pub reach-compact_conversation_blobs :
      (store : Store) (conversation : String) (checkpoint : Option Bytes)
      → let once : Store =
          (compact_conversation_blobs walk_for store conversation checkpoint false).0 in
        (reach walk_for (bucket_of once conversation) checkpoint
          ≡ reach walk_for (bucket_of store conversation) checkpoint)
        × (bucket_of
              (compact_conversation_blobs walk_for once conversation checkpoint false).0
              conversation
            ≡ bucket_of once conversation)
  reach-compact_conversation_blobs store conversation checkpoint =
      let once : Store =
        (compact_conversation_blobs walk_for store conversation checkpoint false).0 in
      elim (Reached-cases (reach walk_for (bucket_of store conversation) checkpoint)) [
        | inl (why, e) ↦
            let same : once ≡ store = store_as_it_was store conversation why checkpoint e in
            (
              ap (λ s. reach walk_for (bucket_of s conversation) checkpoint) same,
              ap
                  (λ s.
                    bucket_of
                      (compact_conversation_blobs walk_for s conversation checkpoint false).0
                      conversation)
                  same,
            )
        | inr (ids, e) ↦
            let kept : bucket_of once conversation
                ≡ keep_reachable ids (bucket_of store conversation) =
              compacted_bucket store conversation checkpoint ids e in
            let again : reach walk_for (bucket_of once conversation) checkpoint ≡ reached ids =
              ap (λ m. reach walk_for m checkpoint) kept
              ∙ reach-keep_reachable checkpoint (bucket_of store conversation) ids e in
            (
              again ∙ sym e,
              compacted_bucket once conversation checkpoint ids again
                  ∙ ap (λ m. keep_reachable ids m) kept
                  ∙ keep_reachable-again ids (bucket_of store conversation)
                  ∙ sym kept,
            )
      ]
