-- ===== src/ParallelStep.antt =====
-- src/parallel-step.ts: when a host step with several tool calls is closed. A `Set` is a list
-- without repetition; times are milliseconds in ℕ; the process-level gate is a value of its own.
-- A count that is not finite or is negative is `none`.
pub mod Counting
mod Tests
use cursor_opencode_provider.Base.{
  ◌+◌, ◌-◌, ◌*◌, ◌/◌, ◌%◌, ◌^◌, ◌≤◌, ◌<◌, min, max, ℕ, zero, suc, String, ◌≡◌, refl, sym, ap, ◌∙◌,
  subst, ◌≢◌, ◌↔◌, ◌⊎◌, inl, inr, Bool, true, false, not, ◌&&◌, ◌||◌, Option, none, some, List, [],
  ◌∷◌, ◌++◌, map, arith, ltb, leb, nat_beq, if◌then◌else◌, ltb→lt, lt→ltb, leb→le, nat_beq_iff,
  Bool-cases, Option-cases, is_some, get_or, length, take, drop, any, all, filter, length-append,
  length-filter-le, take-append-drop, length-take, length-drop, take-append, drop-append, All,
  All-append, All-filter, Eq, ◌==◌, eq_refl, string_eq, nat_eq,
}

abbrev pub parallel_step_idle_ms : ℕ
parallel_step_idle_ms = 1500

pub record ParallelStep : Type 0 where
  pub listed_count : Option ℕ
  pub call_ids : List String
  pub resolved : List String
  pub emitted : ℕ
  pub last_progress_at : ℕ
  pub unbilled : Bool

abbrev pub contains : String → List String → Bool
contains id xs = any (λ x. x == id) xs

-- `Set.prototype.add`
abbrev pub add : String → List String → List String
add id xs = if contains id xs then xs else xs ++ (id ∷ [])

pub create_parallel_step : ℕ → ParallelStep
create_parallel_step now = record {
  listed_count = none;
  call_ids = [];
  resolved = [];
  emitted = 0;
  last_progress_at = now;
  unbilled = false;
}

abbrev pub note_parallel_step_progress : ParallelStep → ℕ → ParallelStep
note_parallel_step_progress step now = record step { last_progress_at = now }

-- The step, and the gate of the process, which this call opens.
pub note_listed_call_count : ParallelStep → Option ℕ → ℕ → ParallelStep × Bool
note_listed_call_count step none now = (note_parallel_step_progress step now, true)
note_listed_call_count step (some n) now =
    (note_parallel_step_progress (record step { listed_count = some n }) now, true)

abbrev pub record_call : ParallelStep → String → ℕ → ParallelStep × Bool
record_call step id now =
    let seen = record step { call_ids = add id step.call_ids } in
    if contains id step.resolved
    then (seen, false)
    else (note_parallel_step_progress (record seen { resolved = add id step.resolved }) now, true)

-- An absent id is treated as an empty one.
pub resolve_parallel_step_call :
    ParallelStep → Option String → List String → ℕ → ParallelStep × Bool
resolve_parallel_step_call step none prior now = (step, false)
resolve_parallel_step_call step (some id) prior now =
    if id == "" || contains id prior then (step, false) else record_call step id now

pub record_parallel_step_emission : ParallelStep → ℕ → ParallelStep
record_parallel_step_emission step now =
    note_parallel_step_progress (record step { emitted = step.emitted + 1 }) now

pub parallel_step_count_met : ParallelStep → Bool
parallel_step_count_met step = elim step.listed_count [
  | none ↦ false
  | some n ↦ leb n (length step.resolved)
]

-- `gate` is `options.fieldSeen ?? hasSeenToolRequestsListed()`.
pub should_hold_parallel_step : ParallelStep → Bool → Bool → Bool
unfolding parallel_step_count_met
should_hold_parallel_step step human_gated_without_count gate =
    if human_gated_without_count && not (is_some step.listed_count)
    then false
    else if not gate && not (is_some step.listed_count)
    then false
    else if parallel_step_count_met step
    then false
    else true

pub should_guard_close_parallel_step : ParallelStep → ℕ → ℕ → Bool
unfolding parallel_step_count_met
should_guard_close_parallel_step step now idle_ms =
    if parallel_step_count_met step then false else leb idle_ms (now - step.last_progress_at)

-- Which kinds of frame are present.
pub record FrameKinds : Type 0 where
  pub tool_requests_listed : Bool
  pub partial_tool_call : Bool
  pub tool_call_delta : Bool
  pub tool_call_started : Bool
  pub tool_call_completed : Bool
  pub exec : Bool
  pub interaction_query : Bool
  pub text_delta : Bool
  pub thinking_delta : Bool

pub is_parallel_step_progress_frame : FrameKinds → Bool
is_parallel_step_progress_frame k =
    k.tool_requests_listed
    || (k.partial_tool_call
        || (k.tool_call_delta
            || (k.tool_call_started
                || (k.tool_call_completed
                    || (k.exec || (k.interaction_query || (k.text_delta || k.thinking_delta)))))))
