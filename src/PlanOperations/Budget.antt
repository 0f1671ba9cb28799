-- ===== src/PlanOperations/Budget.antt =====
-- The bounds on the receipts of a session, over every sequence of operations.
use cursor_opencode_provider.Base.{
  ◌+◌, ◌≤◌, ℕ, String, ◌≡◌, refl, inl, inr, Bool, Option, some, List, [], ◌∷◌, ◌++◌, arith,
  Bool-cases, length, filter, ◌==◌, string_eq, nat_eq,
}
use cursor_opencode_provider.JsMap.{get, delete, set}
use cursor_opencode_provider.JsMap.Laws.{get-set, get-delete}
use cursor_opencode_provider.PlanOperations.{
  Phase, Receipt, Store, Envelope, consume_first, markdown_bytes, record_plan_operation,
  update_plan_operation_consumed, clear_plan_operation, clear_plan_operations,
  restore_plan_operations,
}

pub data Operation : Type 0 where
  recorded : Option String → Receipt → Operation
  updated : Option String → String → String → Option Phase → Operation
  cleared : Option String → String → Operation
  all_cleared : Option String → Operation
  restored : (String → Option Envelope) → String → Option String → Operation

module _ (byte_length : String → ℕ) where
  unfoldable pub Fits : List Receipt → Type 0
  Fits rs = (length rs ≤ 8) × (markdown_bytes byte_length rs ≤ 524288)

  -- No session has more receipts, or more bytes of markdown, than the limits.
  unfoldable pub IsWithinBudget : Store → Type 0
  IsWithinBudget store = (key : String) → (rs : List Receipt) → get key store ≡ some rs → Fits rs

  abbrev pub apply_operation : Store → Operation → Store
  apply_operation store (recorded session r) = (record_plan_operation byte_length store session r).0
  apply_operation store (updated session host result next) =
      update_plan_operation_consumed store session host result next
  apply_operation store (cleared session host) = clear_plan_operation store session host
  apply_operation store (all_cleared session) = clear_plan_operations store session
  apply_operation store (restored parse key encoded) =
      restore_plan_operations byte_length parse store key encoded

  abbrev pub apply_operations : Store → List Operation → Store
  apply_operations store [] = store
  apply_operations store (o ∷ os) = apply_operations (apply_operation store o) os

  pub markdown_bytes-append :
      (xs ys : List Receipt)
      → markdown_bytes byte_length (xs ++ ys)
        ≡ markdown_bytes byte_length xs + markdown_bytes byte_length ys
  markdown_bytes-append [] ys = omega arith
  markdown_bytes-append (x ∷ xs) ys = ground (arith, markdown_bytes-append xs ys)

  pub length-consume_first :
      (host result : String) (next : Option Phase) (rs : List Receipt)
      → length (consume_first host result next rs) ≡ length rs
  unfolding consume_first
  length-consume_first host result next [] = refl
  length-consume_first host result next (r ∷ rs) =
      ground (arith, length-consume_first host result next rs)

  pub markdown_bytes-consume_first :
      (host result : String) (next : Option Phase) (rs : List Receipt)
      → markdown_bytes byte_length (consume_first host result next rs)
        ≡ markdown_bytes byte_length rs
  unfolding consume_first
  markdown_bytes-consume_first host result next [] = refl
  markdown_bytes-consume_first host result next (r ∷ rs) =
      ground (arith, markdown_bytes-consume_first host result next rs)

  pub markdown_bytes-filter :
      (p : Receipt → Bool) (rs : List Receipt)
      → markdown_bytes byte_length (filter p rs) ≤ markdown_bytes byte_length rs
  markdown_bytes-filter p [] = omega arith
  markdown_bytes-filter p (r ∷ rs) = ground (arith, markdown_bytes-filter p rs)

  pub IsWithinBudget-set :
      (key : String) (rs : List Receipt) (store : Store)
      → IsWithinBudget store
      → Fits rs
      → IsWithinBudget (set key rs store)
  unfolding Fits IsWithinBudget
  IsWithinBudget-set key rs store h f j ss g = elim (Bool-cases (key == j)) [
    | inl e ↦ ground (arith, get-set key j rs store)
    | inr e ↦ h j ss (ground (arith, get-set key j rs store))
  ]

  pub IsWithinBudget-delete :
      (key : String) (store : Store) → IsWithinBudget store → IsWithinBudget (delete key store)
  unfolding Fits IsWithinBudget
  IsWithinBudget-delete key store h j ss g = elim (Bool-cases (key == j)) [
    | inl e ↦ ground (arith, get-delete key j store)
    | inr e ↦ h j ss (ground (arith, get-delete key j store))
  ]
