-- ===== src/PlanOperations/Tests.antt =====
-- Two receipts of one session, recorded, consumed, and read back after a restart.
use cursor_opencode_provider.Base.{
  String, ◌≡◌, refl, Option, none, some, List, [], ◌∷◌, map, arith, if◌then◌else◌, get_or, ◌==◌,
  string_eq, nat_eq,
}
use cursor_opencode_provider.JsMap.{get}
use cursor_opencode_provider.PlanOperations.{
  Receipt, record_plan_operation, consume_first, update_plan_operation_consumed,
  clear_plan_operation, plan_operations_for, incomplete_plan_operations, Envelope, envelope_of,
  serialize_plan_operations, restore_plan_operations, write,
}
use cursor_opencode_provider.PlanOperations.Budget.{
  recorded, updated, cleared, IsWithinBudget, Operation, apply_operations,
}
use cursor_opencode_provider.PlanOperations.History.{apply_operations-IsWithinBudget}
use cursor_opencode_provider.PlanOperations.Durable.{plan_operations_for-restore}
use Prim.Native.String.{len}

abbrev receipt : String → Receipt
receipt host = record {
  interaction_id = 7;
  create_plan_tool_call_id = none;
  host_call_id = host;
  plan_path = "plan.md";
  plan_uri = "file:plan.md";
  markdown = "# Plan";
  phase = write;
  bridge_kind = "question";
  after_write = none;
  review_tool_name = none;
  consumed_result_id = none;
}

abbrev steps : List Operation
steps =
    recorded (some "s") (receipt "a")
    ∷ recorded (some "s") (receipt "b")
    ∷ updated (some "s") "a" "result" none
    ∷ cleared (some "t") "a"
    ∷ []

consumed_one :
    map
      (λ r. r.host_call_id)
      (incomplete_plan_operations (apply_operations len [] steps) (some "s"))
    ≡ "b" ∷ []
unfolding record_plan_operation update_plan_operation_consumed incomplete_plan_operations
    consume_first plan_operations_for clear_plan_operation
consumed_one = refl

empty_store : IsWithinBudget len []
unfolding IsWithinBudget
empty_store key rs e = ground arith

apply_operations-IsWithinBudget_example : IsWithinBudget len (apply_operations len [] steps)
apply_operations-IsWithinBudget_example = apply_operations-IsWithinBudget len [] steps empty_store

after_steps : IsWithinBudget len (apply_operations len [] steps)
after_steps = apply_operations-IsWithinBudget len [] steps empty_store

-- A codec that knows one envelope, that of the receipts of the session `s`.
abbrev stringify : Envelope → String
stringify e = "receipts of s"

abbrev parse : String → Option Envelope
parse text =
    if text == "receipts of s"
    then some (envelope_of (get_or (get "s" (apply_operations len [] steps)) []))
    else none

plan_operations_for-restore_example :
    plan_operations_for
      (restore_plan_operations len parse [] "s"
        (serialize_plan_operations stringify (apply_operations len [] steps) "s"))
      (some "s")
    ≡ plan_operations_for (apply_operations len [] steps) (some "s")
plan_operations_for-restore_example =
    plan_operations_for-restore len stringify parse (apply_operations len [] steps) [] "s" refl
      (ground (arith, string_eq.beq_iff "receipts of s" "")) after_steps
      (ground (arith, string_eq.beq_iff "s" "")) refl
