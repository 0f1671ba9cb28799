-- ===== src/Retry/Tests.antt =====
-- One budget through two host retries, and the theorems at it.
use cursor_opencode_provider.Base.{
  ◌≤◌, ◌≡◌, refl, true, false, none, some, [], ◌∷◌, arith, string_eq, nat_eq,
}
use cursor_opencode_provider.Retry.{
  Origin, Failure, new_retry_budget, Budgets, Policy, assign, lookup, find_retry, continued, commit,
  session_turn, turn_retry_budget, reserve_retry, retry_category, forget_retry_budget,
  forget_session, drop_budget,
}
use cursor_opencode_provider.Retry.Bounds.{reserve_all, reserve_all_bounds, WithinAttempts}
use cursor_opencode_provider.Retry.Turns.{
  IsBounded, Carried, turn_retry_budget-continues, turn_retry_budget-IsBounded,
}

retry : Unit {0}
unfolding turn_retry_budget session_turn continued lookup find_retry commit assign reserve_retry
    retry_category forget_retry_budget forget_session drop_budget reserve_all
retry = tt

abbrev start : Budgets
start = record { next_id = 0; heap = λ _. new_retry_budget; sessions = [] }

abbrev first : Budgets
first = (turn_retry_budget start (some "s") "t1" none).0

-- The provider asks the host to retry the turn `t1`.
abbrev asked : Budgets
asked = record first {
  heap =
      assign 0 (record (first.heap 0) { server = 2; retries = 2; host_retry_pending = true })
        first.heap;
}

same_budget : (turn_retry_budget asked (some "s") "t2" (some "t1")).1 ≡ 0
unfolding retry
same_budget = refl

forgotten : (forget_retry_budget asked (some "s") (some 0)).sessions ≡ []
unfolding retry
forgotten = refl

abbrev stall : Failure
stall = record { origin = Origin.transport; code = some "CURSOR_SEMANTIC_IDLE_TIMEOUT" }

abbrev plain : Failure
plain = record { origin = Origin.server; code = none }

abbrev three_attempts : Policy
three_attempts = record { endless = false; max_attempts = some 3 }

two_retries :
    (reserve_all three_attempts new_retry_budget ((plain, 0) ∷ (stall, 5) ∷ (plain, 9) ∷ [])).1 ≡ 2
unfolding retry
two_retries = refl

turn_retry_budget-continues_example :
    Carried asked (turn_retry_budget asked (some "s") "t2" (some "t1")) "s" "t2" "t1" 0
    × ((turn_retry_budget
          (turn_retry_budget asked (some "s") "t2" (some "t1")).0
          (some "s")
          "t2"
          (some "t9")).1
        ≡ 0)
unfolding retry
turn_retry_budget-continues_example =
    turn_retry_budget-continues asked "s" "t2" "t1" "t1" 0 (some "t9") refl refl refl refl

turn_retry_budget-IsBounded_example : IsBounded (turn_retry_budget asked (some "s") "t2" none).0
unfolding retry
turn_retry_budget-IsBounded_example =
    turn_retry_budget-IsBounded asked (some "s") "t2" none (omega arith, omega arith)

reserve_all_bounds_example :
    ((reserve_all three_attempts new_retry_budget ((plain, 0) ∷ (stall, 5) ∷ [])).1 ≤ 13)
    × WithinAttempts
        (some 3)
        (reserve_all three_attempts new_retry_budget ((plain, 0) ∷ (stall, 5) ∷ [])).1
reserve_all_bounds_example = reserve_all_bounds three_attempts ((plain, 0) ∷ (stall, 5) ∷ []) refl

abbrev endless : Policy
endless = record { endless = true; max_attempts = none }
