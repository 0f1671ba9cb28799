-- ===== src/Usage.antt =====
-- src/usage.ts: Cursor's `turn_ended` counters as the usage that the host is told.
-- Token counts are whole numbers; `Math.max(0, Math.trunc(x))` of one is itself, and
-- `Math.max(a - b, 0)` is the subtraction of ℕ. `Math.round(input * part / whole)` is exact while
-- the product stays below 2 ^ 51, and is written over ℕ.
pub mod Partition
mod Tests
use cursor_opencode_provider.Base.{
  ◌+◌, ◌-◌, ◌*◌, ◌/◌, ◌%◌, ◌^◌, ◌≤◌, ◌<◌, min, max, ℕ, zero, suc, String, ◌≡◌, refl, sym, ap, ◌∙◌,
  subst, ◌≢◌, ◌↔◌, ◌⊎◌, inl, inr, Bool, true, false, not, ◌&&◌, ◌||◌, Option, none, some, List, [],
  ◌∷◌, ◌++◌, map, arith, ltb, leb, nat_beq, if◌then◌else◌, ltb→lt, lt→ltb, leb→le, nat_beq_iff,
  Bool-cases, Option-cases, is_some, get_or, length, take, drop, any, all, filter, length-append,
  length-filter-le, take-append-drop, length-take, length-drop, take-append, drop-append, All,
  All-append, All-filter, Eq, ◌==◌, eq_refl, string_eq, nat_eq,
}

-- A field of the decoded message: not a number, a number that is not finite or is negative, or
-- a number with its integer part.
pub data Field : Type 0 where
  absent other non_finite negative : Field
  number : ℕ → Field

pub turn_ended_counter : Field → ℕ
turn_ended_counter (number whole) = whole
turn_ended_counter _ = 0

pub record Counters : Type 0 where
  pub input_tokens : ℕ
  pub output_tokens : ℕ
  pub cache_read : ℕ
  pub cache_write : ℕ
  pub reasoning_tokens : ℕ

pub record TurnEnded : Type 0 where
  pub input_tokens : Field
  pub output_tokens : Field
  pub cache_read : Field
  pub cache_write : Field
  pub reasoning_tokens : Field

pub counters_from_turn_ended : TurnEnded → Counters
unfolding turn_ended_counter
counters_from_turn_ended te = record {
  input_tokens = turn_ended_counter te.input_tokens;
  output_tokens = turn_ended_counter te.output_tokens;
  cache_read = turn_ended_counter te.cache_read;
  cache_write = turn_ended_counter te.cache_write;
  reasoning_tokens = turn_ended_counter te.reasoning_tokens;
}

pub record Options : Type 0 where
  pub context_total_tokens : Option ℕ
  pub prior_context_tokens : Option ℕ

pub record InputTokens : Type 0 where
  pub total : ℕ
  pub no_cache : ℕ
  pub cache_read : ℕ
  pub cache_write : ℕ

pub record OutputTokens : Type 0 where
  pub total : ℕ
  pub text : ℕ
  pub reasoning : ℕ

pub record Usage : Type 0 where
  pub input : InputTokens
  pub output : OutputTokens

-- `whole > 0 ? Math.round(a * part / whole) : 0`
pub share : ℕ → ℕ → ℕ → ℕ
share a part whole = if ltb 0 whole then (2 * (a * part) + whole) / (2 * whole) else 0

abbrev pub prefix_read : Option ℕ → ℕ → ℕ → ℕ
prefix_read none raw_read input = 0
prefix_read (some prior) raw_read input =
    if ltb 0 prior && leb prior raw_read then min input prior else 0

-- The partition, from the raw counts once they are clipped.
abbrev pub input_tokens : ℕ → ℕ → ℕ → InputTokens
input_tokens input read write = record {
  total = input;
  no_cache = input - read - write;
  cache_read = read;
  cache_write = write;
}

abbrev pub output_tokens : ℕ → ℕ → OutputTokens
output_tokens output reasoning = record {
  total = output;
  text = output - reasoning;
  reasoning = reasoning;
}

abbrev pub raw_read : Counters → ℕ
raw_read c = min c.cache_read c.input_tokens

abbrev pub raw_write : Counters → ℕ
raw_write c = min c.cache_write (c.input_tokens - raw_read c)

abbrev pub raw_reasoning : Counters → ℕ
raw_reasoning c = min c.reasoning_tokens c.output_tokens

abbrev pub total_tokens : Counters → Options → ℕ
total_tokens c o = get_or o.context_total_tokens (c.input_tokens + c.output_tokens)

abbrev pub total_output : Counters → Options → ℕ
total_output c o = min c.output_tokens (total_tokens c o)

abbrev pub total_input : Counters → Options → ℕ
total_input c o = total_tokens c o - total_output c o

pub read_tokens : Counters → Options → ℕ
read_tokens c o =
    let input = total_input c o in
    let proportional = min input (share input (raw_read c) c.input_tokens) in
    min input (max proportional (prefix_read o.prior_context_tokens (raw_read c) input))

pub write_tokens : Counters → Options → ℕ
write_tokens c o =
    min (total_input c o - read_tokens c o) (share (total_input c o) (raw_write c) c.input_tokens)

pub reasoning_tokens : Counters → Options → ℕ
reasoning_tokens c o =
    min (total_output c o) (share (total_output c o) (raw_reasoning c) c.output_tokens)

pub usage_from_counters : Counters → Options → Usage
unfolding read_tokens write_tokens reasoning_tokens
usage_from_counters c o = record {
  input = input_tokens (total_input c o) (read_tokens c o) (write_tokens c o);
  output = output_tokens (total_output c o) (reasoning_tokens c o);
}

pub usage_from_turn_ended : TurnEnded → Options → Usage
unfolding usage_from_counters counters_from_turn_ended
usage_from_turn_ended te o = usage_from_counters (counters_from_turn_ended te) o
