-- ===== src/BlobStore/Compaction.antt =====
-- What a compaction keeps, and reading a blob back.
use cursor_opencode_provider.Base.{
  String, ◌≡◌, refl, ap, ◌∙◌, ◌⊎◌, inl, inr, Bool, ◌||◌, Option, none, some, List, [], ◌∷◌, arith,
  if◌then◌else◌, Bool-cases, Option-cases, any, ◌==◌, eq_refl, string_eq, nat_eq,
}
use cursor_opencode_provider.JsMap.{Map, get, set}
use cursor_opencode_provider.JsMap.Laws.{get-set, get-delete}
use cursor_opencode_provider.BlobStore.{
  Bytes, Key, Store, Reached, failed, reached, same_key_iff, key_eq, hex, bucket, bucket_of,
  set_conversation_blob, get_conversation_blob, keep_reachable, install, reach,
  compact_conversation_blobs,
}

pub get-keep_reachable :
    (k : Key) (ids : List Key) (m : Map Key Bytes)
    → get k (keep_reachable ids m) ≡ (if any (λ id. k == id) ids then get k m else none)
get-keep_reachable k ids [] = ground arith
get-keep_reachable k ids ((j, content) ∷ m) = elim (Bool-cases (j == k)) [
  | inl e ↦ ground (arith, same_key_iff j k, get-keep_reachable k ids m)
  | inr e ↦ ground (arith, get-keep_reachable k ids m)
]

pub bucket_of-install :
    (store : Store) (conversation : String) (m : Map Key Bytes)
    → bucket_of (install store conversation m) conversation ≡ m
bucket_of-install store conversation [] =
    ground (arith, get-delete conversation conversation store, eq_refl conversation)
bucket_of-install store conversation (x ∷ m) =
    ground (arith, get-set conversation conversation (x ∷ m) store, eq_refl conversation)

pub Reached-cases :
    (r : Reached)
    → ((reason : String) × (r ≡ failed reason)) ⊎ ((ids : List Key) × (r ≡ reached ids))
Reached-cases (failed reason) = inl (reason, refl)
Reached-cases (reached ids) = inr (ids, refl)

-- A compaction drops no blob that the checkpoint reaches. Each id is found afterwards as before, but for
-- those that a complete walk does not reach, unless memory is kept; after a walk that fails, and without a
-- checkpoint, every blob stays.
pub get-compact_conversation_blobs :
    (collect : Bytes → (Bytes → Option Bytes) → Reached) (store : Store) (conversation : String)
    (checkpoint : Option Bytes) (keep_in_memory : Bool) (k : Key)
    → get k (
        bucket_of
          (compact_conversation_blobs collect store conversation checkpoint keep_in_memory).0
          conversation)
      ≡ elim (reach collect (bucket_of store conversation) checkpoint) [
        | failed reason ↦ get k (bucket_of store conversation)
        | reached ids ↦
            if keep_in_memory || any (λ id. k == id) ids
            then get k (bucket_of store conversation)
            else none
      ]
unfolding compact_conversation_blobs
get-compact_conversation_blobs collect store conversation checkpoint keep_in_memory k =
    elim (Reached-cases (reach collect (bucket_of store conversation) checkpoint)) [
      | inl (reason, e) ↦ rw (e, compact_conversation_blobs) refl
      | inr (ids, e) ↦ elim (Bool-cases keep_in_memory) [
        | inl h ↦ rw (e, h, compact_conversation_blobs) refl
        | inr h ↦
            rw (e, h, compact_conversation_blobs)
              (ap (λ m. get k m) (bucket_of-install store conversation _)
                ∙ get-keep_reachable k ids (bucket_of store conversation))
      ]
    ]

-- A blob that was set is read back, in its conversation, whatever the store held; the other ids of the
-- conversation keep theirs.
pub get-set_conversation_blob :
    (store : Store) (conversation : String) (id other blob : Bytes)
    → (get_conversation_blob
        (set_conversation_blob store conversation id blob).0
        conversation
        other).1
      ≡ (if hex id == hex other
          then some blob
          else (get_conversation_blob store conversation other).1)
unfolding set_conversation_blob get_conversation_blob bucket
get-set_conversation_blob store conversation id other blob =
    elim (Option-cases (get conversation store)) [
      | inl e ↦ ground (
        arith,
        eq_refl conversation,
        get-set conversation conversation [] store,
        get-set conversation conversation (set (hex id) blob []) (set conversation [] store),
        get-set (hex id) (hex other) blob [],
      )
      | inr (m, e) ↦ ground (
        arith,
        eq_refl conversation,
        get-set conversation conversation (set (hex id) blob m) store,
        get-set (hex id) (hex other) blob m,
      )
    ]
