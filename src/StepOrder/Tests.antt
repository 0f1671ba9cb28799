-- ===== src/StepOrder/Tests.antt =====
-- A step with an edit between two commands, and the theorems at it.
use cursor_opencode_provider.Base.{
  ℕ, ◌≡◌, refl, true, false, not, List, [], ◌∷◌, arith, filter, string_eq, nat_eq,
}
use cursor_opencode_provider.StepOrder.{
  HeldExec, StepOrder, hold, create_step_order, announce_call, order_exec, hold_exec, run_exec,
  finish_call, note_exec_result, take_releasable_execs, ensure_call, blocked, follows_refusal,
  step_finished, releasable, release_loop, insert_held, take_held, take_cancelled_execs,
  is_cancelled, drop_held_exec, note_dispatched_result, refuse_call, finish_call, clear_step,
}
use cursor_opencode_provider.StepOrder.Release.{AllWaiting, take_releasable_execs-filter}
use cursor_opencode_provider.StepOrder.Decisions.{Justified, order_exec-Justified}
use cursor_opencode_provider.StepOrder.History.{
  Event, announces, holds, runs, results, releases, after_event, after_events, IsWellFormed,
  after_events-IsWellFormed,
}

step_order : Unit {0}
unfolding create_step_order announce_call order_exec hold_exec run_exec take_releasable_execs
    take_cancelled_execs ensure_call blocked follows_refusal step_finished clear_step releasable
    release_loop insert_held take_held drop_held_exec note_exec_result note_dispatched_result
    refuse_call finish_call is_cancelled after_event after_events
step_order = tt

abbrev command : HeldExec ℕ ℕ
command = record { call_id = "test"; exec_id = 7; frame = 0; request = 0; pending = true }

abbrev edit_then_command : List (Event ℕ ℕ)
edit_then_command = announces "edit" true ∷ announces "test" false ∷ runs "edit" 3 false ∷ []

abbrev editing : StepOrder ℕ ℕ
editing = after_events create_step_order edit_then_command

-- The command waits for the edit, and runs once the edit is done; a refused edit cancels it.
holds_command : (order_exec editing "test" false).1 ≡ hold
unfolding step_order
holds_command = refl

abbrev finished : StepOrder ℕ ℕ
finished = after_events editing (holds command ∷ results 3 false ∷ [])

releases_command : (take_releasable_execs finished).1 ≡ command ∷ []
unfolding step_order
releases_command = refl

cancels_command :
    (take_cancelled_execs (after_events editing (holds command ∷ results 3 true ∷ []))).1
    ≡ command ∷ []
unfolding step_order
cancels_command = refl

finished-AllWaiting : AllWaiting finished.calls finished.held
unfolding step_order
finished-AllWaiting = ((λ c e. ground arith), tt)

take_releasable_execs-filter_example :
    ((take_releasable_execs finished).1 ≡ filter (releasable finished.calls) finished.held)
    × ((take_releasable_execs finished).0.held
        ≡ filter (λ h. not (releasable finished.calls h)) finished.held)
take_releasable_execs-filter_example = take_releasable_execs-filter finished finished-AllWaiting

order_exec-Justified_example :
    Justified
      (order_exec editing "test" false).0.calls
      "test"
      (ensure_call editing "test" false).1
      (order_exec editing "test" false).1
order_exec-Justified_example = order_exec-Justified editing "test" false

after_events-IsWellFormed_example :
    IsWellFormed (after_events create_step_order (holds command ∷ releases ∷ []))
unfolding create_step_order
after_events-IsWellFormed_example =
    after_events-IsWellFormed create_step_order (holds command ∷ releases ∷ []) tt
