-- ===== src/Usage/Tests.antt =====
-- A turn of several internal calls, scaled to the checkpoint's occupancy, and the theorems at it.
use cursor_opencode_provider.Base.{◌≡◌, refl, some, string_eq, nat_eq}
use cursor_opencode_provider.Usage.{Counters, Options, usage_from_counters, share}
use cursor_opencode_provider.Usage.Partition.{AddsUp, usage_from_counters-AddsUp}

abbrev counted : Counters
counted = record {
  input_tokens = 1000;
  output_tokens = 100;
  cache_read = 900;
  cache_write = 50;
  reasoning_tokens = 20;
}

abbrev occupied : Options
occupied = record { context_total_tokens = some 600; prior_context_tokens = some 400 }

scales : (usage_from_counters counted occupied).input.cache_read ≡ 450
unfolding usage_from_counters share
scales = refl

usage_from_counters-AddsUp_example : AddsUp (usage_from_counters counted occupied) 600
usage_from_counters-AddsUp_example = usage_from_counters-AddsUp counted occupied
