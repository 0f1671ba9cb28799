-- ===== src/Reachability.antt =====
-- src/protocol/blob-reachability.ts: the walk over the blobs that a checkpoint refers to. protobufjs's Reader
-- is a parameter: the length-delimited fields of a message, or none where it throws. An error ends the walk
-- without a result.
pub mod Local
pub mod Restart
mod Tests
use mathlib.Core.Option
use cursor_opencode_provider.Base.{
  ◌+◌, ◌-◌, ◌*◌, ◌/◌, ◌%◌, ◌^◌, ◌≤◌, ◌<◌, min, max, ℕ, zero, suc, String, ◌≡◌, refl, sym, ap, ◌∙◌,
  subst, ◌≢◌, ◌↔◌, ◌⊎◌, inl, inr, Bool, true, false, not, ◌&&◌, ◌||◌, Option, none, some, List, [],
  ◌∷◌, ◌++◌, map, arith, ltb, leb, nat_beq, if◌then◌else◌, ltb→lt, lt→ltb, leb→le, nat_beq_iff,
  Bool-cases, Option-cases, is_some, get_or, length, take, drop, any, all, filter, length-append,
  length-filter-le, take-append-drop, length-take, length-drop, take-append, drop-append, All,
  All-append, All-filter, Eq, ◌==◌, eq_refl, string_eq, nat_eq,
}
use cursor_opencode_provider.BlobStore.{Bytes, Key, Reached, reached, failed, hex, key_eq}

pub record BytesField : Type 0 where
  pub number : ℕ
  pub content : Bytes

abbrev pub max_nested_state_depth : ℕ
max_nested_state_depth = 64

-- The ids that were reached, or an error.
abbrev pub Walk : Type 0
Walk = Option (List Key)

infixl 20 ◌then◌
-- One walk and then another.
abbrev pub ◌then◌ : Walk → Walk → Walk
none then w = none
(some ids) then none = none
(some ids) then (some more) = some (ids ++ more)

-- `for (const x of xs) visit(x)`
abbrev pub visit_all {ℓ} : {A : Type ℓ} → (A → Walk) → List A → Walk
visit_all visit [] = some []
visit_all visit (x ∷ xs) = visit x then visit_all visit xs

-- The first field with this number.
abbrev pub find_field : ℕ → List BytesField → Option Bytes
find_field n [] = none
find_field n (f ∷ fs) = if nat_beq f.number n then some f.content else find_field n fs

abbrev pub is_direct : ℕ → Bool
is_direct n = any (nat_beq n) (1 ∷ 3 ∷ 6 ∷ 7 ∷ 13 ∷ [])

-- The set of the ids: each once, in the order of their first references.
abbrev pub distinct : List Key → List Key
distinct [] = []
distinct (k ∷ ks) = k ∷ filter (λ (j : Key). not (k == j)) (distinct ks)

module _ (bytes_fields : Bytes → Option (List BytesField))
    (resolve_blob : Bytes → Option Bytes) where
  -- `reference`, and what follows with the value: nothing for an empty id.
  abbrev pub reference_then : Bytes → (Bytes → Walk) → Walk
  reference_then [] next = some []
  reference_then (b ∷ bs) next = elim (resolve_blob (b ∷ bs)) [
    | none ↦ none
    | some value ↦ some (hex (b ∷ bs) ∷ []) then next value
  ]

  abbrev pub finish : Bytes → Walk
  finish value = some []

  abbrev pub reference : Bytes → Walk
  reference id = reference_then id finish

  -- A message that is parsed, with its fields.
  abbrev pub with_fields : Bytes → (List BytesField → Walk) → Walk
  with_fields message next = elim (bytes_fields message) [ none ↦ none | some fs ↦ next fs ]

  -- A field that may be absent.
  abbrev pub when_present : Option Bytes → (Bytes → Walk) → Walk
  when_present none next = some []
  when_present (some b) next = next b

  abbrev pub visit_image_part : BytesField → Walk
  visit_image_part f =
      if nat_beq f.number 1
      then reference f.content
      else if nat_beq f.number 9
      then with_fields f.content (λ fs. when_present (find_field 1 fs) reference)
      else some []

  abbrev pub visit_image : BytesField → Walk
  visit_image f =
      if nat_beq f.number 1 then with_fields f.content (visit_all visit_image_part) else some []

  pub walk_user_message : Bytes → Walk
  walk_user_message message = with_fields message (λ fs.
      when_present (find_field 3 fs) (λ context. with_fields context (visit_all visit_image)))

  abbrev pub visit_agent_field : BytesField → Walk
  unfolding walk_user_message
  visit_agent_field f =
      if nat_beq f.number 1
      then reference_then f.content walk_user_message
      else if nat_beq f.number 2
      then reference f.content
      else some []

  abbrev pub visit_shell_field : BytesField → Walk
  visit_shell_field f =
      if nat_beq f.number 1 || nat_beq f.number 2 then reference f.content else some []

  -- The loop returns at the first agent or shell turn.
  pub turn_loop : List BytesField → Walk
  unfolding visit_agent_field
  turn_loop [] = some []
  turn_loop (f ∷ fs) =
      let rest = turn_loop fs in
      if nat_beq f.number 1
      then with_fields f.content (visit_all visit_agent_field)
      else if nat_beq f.number 2
      then with_fields f.content (visit_all visit_shell_field)
      else rest

  pub walk_turn : Bytes → Walk
  unfolding turn_loop
  walk_turn message = with_fields message turn_loop

  -- The subagent's state in a persisted one.
  abbrev pub nested_state : (Bytes → Walk) → Bytes → Walk
  nested_state walk persisted = with_fields persisted (λ fs. when_present (find_field 1 fs) walk)

  -- The switch on a field of the state.
  pub visit_state_field : (Bytes → Walk) → BytesField → Walk
  unfolding walk_turn
  visit_state_field walk f =
      if nat_beq f.number 8
      then reference_then f.content walk_turn
      else if is_direct f.number
      then reference f.content
      else if nat_beq f.number 16
      then with_fields f.content (λ fs. when_present (find_field 2 fs) (nested_state walk))
      else if nat_beq f.number 31
      then with_fields f.content
          (λ fs. when_present (find_field 2 fs) (λ id. reference_then id (nested_state walk)))
      else some []

  -- `left` is how many states may be nested still, this one included: `depth > 64` is an error.
  pub walk_state : ℕ → Bytes → Walk
  unfolding visit_state_field
  walk_state zero message = none
  walk_state (suc left) message =
      with_fields message (visit_all (visit_state_field (walk_state left)))

  pub collect_reachable_conversation_blob_ids : Bytes → Option (List Key)
  unfolding walk_state
  collect_reachable_conversation_blob_ids checkpoint =
      Option.map distinct (walk_state (suc max_nested_state_depth) checkpoint)

-- The walk's result for the blob store: the ids, or the text of the error that ended it. The source has several
-- such texts, so the text is given with the walk.
abbrev pub reached_or : String → Option (List Key) → Reached
reached_or reason none = failed reason
reached_or reason (some ids) = reached ids
