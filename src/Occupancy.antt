-- ===== src/Occupancy.antt =====
-- src/checkpoint-occupancy.ts: whether a reading of the context window that jumps without reason is
-- held back. Token counts are ℕ, so a negative or fractional number is not a reading here; a factor
-- such as 1.75 is a comparison of whole multiples.
pub mod Hold
mod Tests
use mathlib.Core.Option
use cursor_opencode_provider.Base.{
  ◌+◌, ◌-◌, ◌*◌, ◌/◌, ◌%◌, ◌^◌, ◌≤◌, ◌<◌, min, max, ℕ, zero, suc, String, ◌≡◌, refl, sym, ap, ◌∙◌,
  subst, ◌≢◌, ◌↔◌, ◌⊎◌, inl, inr, Bool, true, false, not, ◌&&◌, ◌||◌, Option, none, some, List, [],
  ◌∷◌, ◌++◌, map, arith, ltb, leb, nat_beq, if◌then◌else◌, ltb→lt, lt→ltb, leb→le, nat_beq_iff,
  Bool-cases, Option-cases, is_some, get_or, length, take, drop, any, all, filter, length-append,
  length-filter-le, take-append-drop, length-take, length-drop, take-append, drop-append, All,
  All-append, All-filter, Eq, ◌==◌, eq_refl, string_eq, nat_eq,
}
use cursor_opencode_provider.JsMap.{Map, get, has, set}

pub record Category : Type 0 where
  pub id : String
  pub label : String
  pub estimated_tokens : ℕ
  pub character_count : Option ℕ

pub record Breakdown : Type 0 where
  pub total_used_tokens : ℕ
  pub breakdown_max_tokens : ℕ
  pub items : List Category

pub record Details : Type 0 where
  pub used_tokens : ℕ
  pub max_tokens : ℕ
  pub breakdown : Option Breakdown

pub record Pending : Type 0 where
  pub details : Details
  pub boundary : Option String

pub record Observation : Type 0 where
  pub observed_boundary : Option String
  pub observed_model : Option String
  pub bypass : Bool

pub record Guard : Type 0 where
  pub model : Option String
  pub needs_fresh_baseline : Bool
  pub pending : Option Pending

-- Number.isSafeInteger
abbrev pub is_safe : ℕ → Bool
is_safe n = leb n 9007199254740991

abbrev pub current_breakdown : Details → Option Breakdown
current_breakdown d = elim d.breakdown [
  | none ↦ none
  | some b ↦
      if nat_beq b.total_used_tokens d.used_tokens && nat_beq b.breakdown_max_tokens d.max_tokens
      then some b
      else none
]

abbrev pub well_formed : Category → Map String Category → Bool
well_formed c seen =
    not (c.id == "")
    && (not (has c.id seen)
        && (is_safe c.estimated_tokens && get_or (Option.map is_safe c.character_count) true))

-- The loop over the categories: the map built and the total, or a malformed category.
abbrev pub collect : List Category → Map String Category → ℕ → Option (Map String Category × ℕ)
collect [] seen total = some (seen, total)
collect (c ∷ cs) seen total =
    let rest = collect cs (set c.id c seen) (total + c.estimated_tokens) in
    if well_formed c seen then rest else none

abbrev pub characters : Map String Category → ℕ
characters m = get_or (Option.map (λ c. get_or c.character_count 0) (get "conversation" m)) 0

abbrev pub checked : ℕ → Option (Map String Category × ℕ) → Option (Map String Category)
checked used none = none
checked used (some (m, total)) = if nat_beq total used && ltb 0 (characters m) then some m else none

pub categories : Details → Option (Map String Category)
categories d = elim (current_breakdown d) [
  | none ↦ none
  | some b ↦
      if is_safe d.used_tokens
        && (is_safe d.max_tokens && (ltb 0 d.used_tokens && ltb 0 d.max_tokens))
      then checked d.used_tokens (collect b.items [] 0)
      else none
]

abbrev pub same_count : Option ℕ → Option ℕ → Bool
same_count none none = true
same_count (some m) (some n) = nat_beq m n
same_count _ _ = false

pub equal_category : Category → Category → Bool
equal_category a b =
    a.label == b.label
    && (nat_beq a.estimated_tokens b.estimated_tokens
        && same_count a.character_count b.character_count)

-- Every category but the conversation's is the same.
abbrev pub others_equal : Map String Category → Map String Category → Bool
others_equal [] after = true
others_equal ((id, c) ∷ m) after =
    get_or (Option.map (λ n. id == "conversation" || equal_category c n) (get id after)) false
    && others_equal m after

abbrev pub all_equal : Map String Category → Map String Category → Bool
all_equal [] after = true
all_equal ((id, c) ∷ m) after =
    get_or (Option.map (λ n. equal_category c n) (get id after)) false && all_equal m after

abbrev pub tokens_of : Option Category → ℕ
tokens_of c = get_or (Option.map (λ d. d.estimated_tokens) c) 0

-- The growth of the conversation that its characters do not explain.
abbrev pub grew : Map String Category → Map String Category → Bool
grew before after =
    let a = tokens_of (get "conversation" before) in
    let b = tokens_of (get "conversation" after) in
    let m = characters before in
    let n = characters after in
    ltb 0 a && (leb (m * 4) (n * 5) && (leb (n * 4) (m * 5) && leb (a * n * 3) (b * m * 2)))

abbrev pub both :
    Option (Map String Category)
    → Option (Map String Category)
    → (Map String Category → Map String Category → Bool)
    → Bool
both (some m) (some n) f = nat_beq (length m) (length n) && f m n
both _ _ f = false

pub is_unexplained_occupancy_jump : Details → Details → Bool
unfolding categories equal_category
is_unexplained_occupancy_jump previous current =
    nat_beq previous.max_tokens current.max_tokens
    && (leb (previous.used_tokens * 7) (current.used_tokens * 4)
        && both (categories previous) (categories current) (λ m n. others_equal m n && grew m n))

pub same_occupancy_reading : Details → Details → Bool
unfolding categories equal_category
same_occupancy_reading a b =
    nat_beq a.used_tokens b.used_tokens
    && (nat_beq a.max_tokens b.max_tokens && both (categories a) (categories b) all_equal)

abbrev pub same_text : Option String → Option String → Bool
same_text none none = true
same_text (some s) (some t) = s == t
same_text _ _ = false

abbrev pub or_else : Option String → Option String → Option String
or_else (some s) other = some s
or_else none other = other

abbrev pub model_changed : Guard → Observation → Bool
model_changed g o =
    is_some o.observed_model && (is_some g.model && not (same_text g.model o.observed_model))

abbrev pub resets_baseline : Guard → Observation → Bool
resets_baseline g o = model_changed g o || (o.bypass || g.needs_fresh_baseline)

-- The guard without a held reading.
abbrev pub next_guard : Guard → Observation → Guard
next_guard g o = record {
  model = or_else o.observed_model g.model;
  needs_fresh_baseline = false;
  pending = none;
}

-- The reading confirms the one that is held: another observation, or a different count nearby.
pub confirms : Pending → Details → Observation → Bool
unfolding same_occupancy_reading
confirms p current o =
    (is_some o.observed_boundary && not (same_text o.observed_boundary p.boundary))
    || (not (same_occupancy_reading p.details current)
        && (leb (p.details.used_tokens * 4) (current.used_tokens * 5)
            && leb (current.used_tokens * 4) (p.details.used_tokens * 5)))

abbrev pub hold_reading : Guard → Details → Observation → Guard
hold_reading g current o = record (next_guard g o) {
  pending = some (record {
    details = current;
    boundary =
        get_or (Option.map (λ p. or_else p.boundary o.observed_boundary) g.pending)
          o.observed_boundary;
  });
}

abbrev pub jumped : Option Details → Details → Bool
jumped none current = false
jumped (some previous) current = is_unexplained_occupancy_jump previous current

-- Whether the reading is held, and the guard after it.
pub select_checkpoint_occupancy : Option Details → Details → Guard → Observation → Bool × Guard
unfolding is_unexplained_occupancy_jump confirms
select_checkpoint_occupancy previous current g o =
    if nat_beq current.used_tokens 0
    then (
      false,
      if resets_baseline g o then record (next_guard g o) { needs_fresh_baseline = true } else g,
    )
    else if resets_baseline g o || not (jumped previous current)
    then (false, next_guard g o)
    else if get_or (Option.map (λ p. confirms p current o) g.pending) false
    then (false, next_guard g o)
    else (true, hold_reading g current o)
