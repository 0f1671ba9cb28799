-- ===== src/BlobStore.antt =====
-- src/protocol/blob-store.ts: the conversation blobs, by the hexadecimal text of their ids. The walk over a
-- checkpoint's blobs (src/protocol/blob-reachability.ts) is a parameter: the ids that it reaches (each once) from a
-- lookup, or the reason of its failure. A text is the list of its code units.
pub mod Compaction
mod Tests
use mathlib.Core.Option
use cursor_opencode_provider.Base.{
  ◌+◌, ◌-◌, ◌*◌, ◌/◌, ◌%◌, ◌^◌, ◌≤◌, ◌<◌, min, max, ℕ, zero, suc, String, ◌≡◌, refl, sym, ap, ◌∙◌,
  subst, ◌≢◌, ◌↔◌, ◌⊎◌, inl, inr, Bool, true, false, not, ◌&&◌, ◌||◌, Option, none, some, List, [],
  ◌∷◌, ◌++◌, map, arith, ltb, leb, nat_beq, if◌then◌else◌, ltb→lt, lt→ltb, leb→le, nat_beq_iff,
  Bool-cases, Option-cases, is_some, get_or, length, take, drop, any, all, filter, length-append,
  length-filter-le, take-append-drop, length-take, length-drop, take-append, drop-append, All,
  All-append, All-filter, Eq, ◌==◌, eq_refl, string_eq, nat_eq,
}
use cursor_opencode_provider.JsMap.{Map, get, set, delete}

abbrev pub Bytes : Type 0
Bytes = List ℕ

abbrev pub Key : Type 0
Key = List ℕ

abbrev pub same_key : Key → Key → Bool
same_key [] [] = true
same_key (x ∷ xs) (y ∷ ys) = nat_beq x y && same_key xs ys
same_key _ _ = false

pub same_key_iff : (k j : Key) → (same_key k j ≡ true) ↔ (k ≡ j)
same_key_iff [] [] = (λ e. refl, λ e. refl)
same_key_iff [] (y ∷ ys) = ground arith
same_key_iff (x ∷ xs) [] = ground arith
same_key_iff (x ∷ xs) (y ∷ ys) = ground (arith, nat_beq_iff x y, same_key_iff xs ys)

instance abbrev pub key_eq : Eq Key
key_eq = record { beq_iff = same_key_iff; beq = same_key }

abbrev pub Store : Type 0
Store = Map String (Map Key Bytes)

-- The code of a hexadecimal digit: 48 is "0", 97 is "a".
abbrev pub digit : ℕ → ℕ
digit n = if ltb n 10 then 48 + n else 87 + n

pub hex : Bytes → Key
hex [] = []
hex (b ∷ bs) = digit (b / 16) ∷ digit (b % 16) ∷ hex bs

abbrev pub bucket_of : Store → String → Map Key Bytes
bucket_of store conversation = get_or (get conversation store) []

-- A conversation without a bucket is given an empty one.
pub bucket : Store → String → Store × Map Key Bytes
bucket store conversation = elim (get conversation store) [
  | none ↦ (set conversation [] store, [])
  | some m ↦ (store, m)
]

pub set_conversation_blob : Store → String → Bytes → Bytes → Store × Key
unfolding bucket hex
set_conversation_blob store conversation id blob =
    let (created, m) = bucket store conversation in
    (set conversation (set (hex id) blob m) created, hex id)

pub get_conversation_blob : Store → String → Bytes → Store × Option Bytes
unfolding bucket hex
get_conversation_blob store conversation id =
    let (created, m) = bucket store conversation in (created, get (hex id) m)

pub conversation_blob_count : Store → String → ℕ
conversation_blob_count store conversation = length (bucket_of store conversation)

-- The count and the bytes of what is retained.
abbrev pub total_bytes : Map Key Bytes → ℕ
total_bytes [] = 0
total_bytes ((k, content) ∷ m) = length content + total_bytes m

abbrev pub retained_blob_stats : Map Key Bytes → ℕ × ℕ
retained_blob_stats m = (length m, total_bytes m)

abbrev pub outside_text : ℕ → Bool
outside_text b = ltb b 9 || ((ltb 13 b && ltb b 32) || ltb 126 b)

pub is_blob_id_hash : Bytes → Bool
is_blob_id_hash id = nat_beq (length id) 32 && any outside_text id

-- A blob that is stored, or a short literal that is its own id.
unfoldable pub lookup_blob : Map Key Bytes → Bytes → Option Bytes
unfolding hex is_blob_id_hash
lookup_blob current id = elim (get (hex id) current) [
  | some content ↦ some content
  | none ↦ if is_blob_id_hash id then none else some id
]

abbrev pub keep_reachable : List Key → Map Key Bytes → Map Key Bytes
keep_reachable ids m = filter (λ entry. any (λ id. entry.0 == id) ids) m

abbrev pub install : Store → String → Map Key Bytes → Store
install store conversation [] = delete conversation store
install store conversation (x ∷ m) = set conversation (x ∷ m) store

pub data Reached : Type 0 where
  reached : List Key → Reached
  failed : String → Reached

pub record BlobCompaction : Type 0 where
  pub blobs : Map Key Bytes
  pub before : ℕ × ℕ
  pub after : ℕ × ℕ
  pub compacted : Bool
  pub fallback_reason : Option String

abbrev pub fall_back : Map Key Bytes → String → BlobCompaction
fall_back current reason = record {
  blobs = current;
  before = retained_blob_stats current;
  after = retained_blob_stats current;
  compacted = false;
  fallback_reason = some reason;
}

abbrev pub compaction_of : Map Key Bytes → Map Key Bytes → BlobCompaction
compaction_of current retained = record {
  blobs = retained;
  before = retained_blob_stats current;
  after = retained_blob_stats retained;
  compacted = true;
  fallback_reason = none;
}

pub snapshot_conversation_blobs : Store → String → Map Key Bytes
snapshot_conversation_blobs store conversation = bucket_of store conversation

abbrev pub stats_of_ids : Map Key Bytes → List Key → ℕ × ℕ
stats_of_ids current [] = (0, 0)
stats_of_ids current (id ∷ ids) =
    let (count, bytes) = stats_of_ids current ids in
    elim (get id current) [
      | none ↦ (count, bytes)
      | some content ↦ (suc count, length content + bytes)
    ]

module _ (collect : Bytes → (Bytes → Option Bytes) → Reached) where
  -- The walk, or the reason that there is none: an absent or empty checkpoint.
  unfoldable pub reach : Map Key Bytes → Option Bytes → Reached
  unfolding lookup_blob
  reach current none = failed "checkpoint unavailable"
  reach current (some []) = failed "checkpoint unavailable"
  reach current (some (b ∷ bs)) = collect (b ∷ bs) (lookup_blob current)

  pub inspect_conversation_blob_graph : Store → String → Option Bytes → (ℕ × ℕ) × Option String
  unfolding reach
  inspect_conversation_blob_graph store conversation checkpoint =
      elim (reach (bucket_of store conversation) checkpoint) [
        | failed reason ↦ (retained_blob_stats (bucket_of store conversation), some reason)
        | reached ids ↦ (stats_of_ids (bucket_of store conversation) ids, none)
      ]

  unfoldable pub compact_conversation_blobs :
      Store → String → Option Bytes → Bool → Store × BlobCompaction
  unfolding reach
  compact_conversation_blobs store conversation checkpoint keep_in_memory =
      let current = bucket_of store conversation in
      elim (reach current checkpoint) [
        | failed reason ↦ (store, fall_back current reason)
        | reached ids ↦
            let retained = keep_reachable ids current in
            (
              if keep_in_memory then store else install store conversation retained,
              compaction_of current retained,
            )
      ]

pub clear_conversation_blobs : Store → String → Store
clear_conversation_blobs store conversation = delete conversation store
