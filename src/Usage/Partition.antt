-- ===== src/Usage/Partition.antt =====
-- What the reported usage adds up to.
use cursor_opencode_provider.Base.{
  ◌+◌, ◌-◌, ◌*◌, ◌≤◌, min, ℕ, zero, suc, ◌≡◌, none, arith, lt→ltb, string_eq, nat_eq,
}
use native.Mathlib.Nat.{div-eq_of_lt-le}
use cursor_opencode_provider.Usage.{
  Counters, Options, Usage, share, raw_read, raw_write, raw_reasoning, total_tokens, read_tokens,
  write_tokens, reasoning_tokens, usage_from_counters,
}

-- The parts of each side add up to it, and both sides to the context's total.
pub record AddsUp (u : Usage) (total : ℕ) : Type 0 where
  pub input : u.input.no_cache + u.input.cache_read + u.input.cache_write ≡ u.input.total
  pub output : u.output.text + u.output.reasoning ≡ u.output.total
  pub both : u.input.total + u.output.total ≡ total

-- Whatever Cursor counts, the usage is a partition: cached, written and uncached input add up to the
-- input, text and reasoning to the output, and input and output to the checkpoint's occupancy if it
-- is given, otherwise to the raw input and output.
pub usage_from_counters-AddsUp :
    (c : Counters) (o : Options) → AddsUp (usage_from_counters c o) (total_tokens c o)
unfolding usage_from_counters read_tokens write_tokens reasoning_tokens
usage_from_counters-AddsUp c o = record {
  input = omega arith;
  output = omega arith;
  both = omega arith;
}

share_whole : (whole part : ℕ) → part ≤ whole → share whole part whole ≡ part
unfolding share
share_whole zero part h = omega arith
share_whole (suc w) part h =
    rw (lt→ltb 0 (suc w) (omega arith))
      (div-eq_of_lt-le {k = part} (2 * suc w) (omega arith) (omega arith))

-- Without an occupancy of the checkpoint nothing is rescaled: the counters come through as Cursor
-- sent them, each clipped to what contains it.
pub usage_from_counters_plain :
    (c : Counters)
    → let u =
        usage_from_counters c
          (record { context_total_tokens = none; prior_context_tokens = none }) in
      (u.input.total ≡ c.input_tokens)
      × (u.input.cache_read ≡ min c.cache_read c.input_tokens)
      × (u.input.cache_write ≡ min c.cache_write (c.input_tokens - min c.cache_read c.input_tokens))
      × (u.output.total ≡ c.output_tokens)
      × (u.output.reasoning ≡ min c.reasoning_tokens c.output_tokens)
unfolding usage_from_counters read_tokens write_tokens reasoning_tokens
usage_from_counters_plain c =
    let whole : c.input_tokens
          + c.output_tokens
          - min c.output_tokens (c.input_tokens + c.output_tokens)
        ≡ c.input_tokens =
      omega arith in
    let out : min c.output_tokens (c.input_tokens + c.output_tokens) ≡ c.output_tokens =
      omega arith in
    let read = share_whole c.input_tokens (raw_read c) (omega arith) in
    let write = share_whole c.input_tokens (raw_write c) (omega arith) in
    let reason = share_whole c.output_tokens (raw_reasoning c) (omega arith) in
    rw (whole, out, read, write, reason) (omega arith)
