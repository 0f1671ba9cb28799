-- ===== src/PlanOperations/History.antt =====
-- Every operation keeps the bounds, so every history does; what a recorded receipt leaves.
use cursor_opencode_provider.Base.{
  ◌+◌, ◌≤◌, ◌<◌, ℕ, String, ◌≡◌, refl, sym, subst, ◌⊎◌, inl, inr, Bool, not, ◌&&◌, ◌||◌, Option,
  none, some, List, [], ◌∷◌, ◌++◌, arith, ltb, leb, Bool-cases, Option-cases, get_or, length,
  filter, length-append, length-filter-le, ◌==◌, string_eq, nat_eq,
}
use cursor_opencode_provider.JsMap.{get, has, delete, touch, modify}
use cursor_opencode_provider.JsMap.Laws.{get-modify}
use cursor_opencode_provider.PlanOperations.{
  Phase, Receipt, Store, max_receipts, max_markdown_bytes, max_sessions, session_of, markdown_bytes,
  can_admit_in, record_in, record_plan_operation, consume_first, update_plan_operation_consumed,
  store_rest, clear_in, clear_plan_operation, clear_plan_operations, ParsedReceipt, parse_receipt,
  Envelope, is_version_one, parse_receipts, restore_list, restored_receipts,
  restore_plan_operations,
}
use cursor_opencode_provider.PlanOperations.Budget.{
  Operation, recorded, updated, cleared, all_cleared, restored, Fits, IsWithinBudget,
  apply_operation, apply_operations, markdown_bytes-append, length-consume_first,
  markdown_bytes-consume_first, markdown_bytes-filter, IsWithinBudget-set, IsWithinBudget-delete,
}

module _ (byte_length : String → ℕ) where
  get-Fits :
      (store : Store) (key : String)
      → IsWithinBudget byte_length store
      → Fits byte_length (get_or (get key store) [])
  unfolding Fits IsWithinBudget
  get-Fits store key h = elim (Option-cases (get key store)) [
    | inl e ↦ rw e (omega arith, omega arith)
    | inr e ↦ rw (e.1) (h key (e.0) (e.1))
  ]

  -- A receipt that is refused leaves the store; one that is recorded had room.
  pub record_in-cases :
      (store : Store) (key : String) (r : Receipt)
      → (record_in byte_length store key r).0 ≡ store
        ⊎ (((record_in byte_length store key r).0
              ≡ touch key (get_or (get key store) [] ++ (r ∷ [])) store)
            × ((length (get_or (get key store) []) < 8)
                × (markdown_bytes byte_length (get_or (get key store) []) + byte_length r.markdown
                    ≤ 524288)))
  record_in-cases store key r =
      elim (Bool-cases (not (has key store) && leb max_sessions (length store))) [
        | inl e ↦ inl (rw (e, record_in, can_admit_in) refl)
        | inr e ↦ elim (Bool-cases (leb max_receipts (length (get_or (get key store) [])))) [
          | inl f ↦ inl (rw (e, f, record_in, can_admit_in) refl)
          | inr f ↦
              elim (Bool-cases (
                ltb max_markdown_bytes (
                  markdown_bytes byte_length (get_or (get key store) [])
                  + byte_length r.markdown))) [
                    | inl g ↦ inl (rw (e, f, g, record_in, can_admit_in) refl)
                    | inr g ↦
                        inr (
                          rw (e, f, g, record_in, can_admit_in)
                            (refl, (ground arith, ground arith)))
                  ]
        ]
      ]

  IsWithinBudget-touch :
      (key : String) (rs : List Receipt) (store : Store)
      → IsWithinBudget byte_length store
      → Fits byte_length rs
      → IsWithinBudget byte_length (touch key rs store)
  IsWithinBudget-touch key rs store h f =
      IsWithinBudget-set byte_length key rs (delete key store)
        (IsWithinBudget-delete byte_length key store h) f

  Fits-append :
      (rs : List Receipt) (r : Receipt)
      → length rs < 8
      → markdown_bytes byte_length rs + byte_length r.markdown ≤ 524288
      → Fits byte_length (rs ++ (r ∷ []))
  unfolding Fits
  Fits-append rs r l b = (
    ground (arith, length-append rs (r ∷ [])),
    ground (arith, markdown_bytes-append byte_length rs (r ∷ [])),
  )

  IsWithinBudget-record_in :
      (store : Store) (key : String) (r : Receipt)
      → IsWithinBudget byte_length store
      → IsWithinBudget byte_length (record_in byte_length store key r).0
  IsWithinBudget-record_in store key r h = elim (record_in-cases store key r) [
    | inl e ↦ subst (IsWithinBudget byte_length) (sym e) h
    | inr (e, lb) ↦
        subst (IsWithinBudget byte_length) (sym e)
          (IsWithinBudget-touch key _ store h (Fits-append _ r (lb.0) (lb.1)))
  ]

  IsWithinBudget-consume :
      (store : Store) (key host result : String) (next : Option Phase)
      → IsWithinBudget byte_length store
      → IsWithinBudget byte_length (modify key (consume_first host result next) store)
  unfolding Fits IsWithinBudget
  IsWithinBudget-consume store key host result next h j ss g = elim (Option-cases (get j store)) [
    | inl e ↦ ground (arith, get-modify key j (consume_first host result next) store)
    | inr e ↦ ground (
      arith,
      get-modify key j (consume_first host result next) store,
      h j (e.0) (e.1),
      length-consume_first byte_length host result next (e.0),
      markdown_bytes-consume_first byte_length host result next (e.0),
    )
  ]

  IsWithinBudget-store_rest :
      (store : Store) (key : String) (rs : List Receipt)
      → IsWithinBudget byte_length store
      → Fits byte_length rs
      → IsWithinBudget byte_length (store_rest store key rs)
  IsWithinBudget-store_rest store key [] h f = IsWithinBudget-delete byte_length key store h
  IsWithinBudget-store_rest store key (r ∷ rs) h f =
      IsWithinBudget-set byte_length key (r ∷ rs) store h f

  Fits-filter :
      (p : Receipt → Bool) (rs : List Receipt)
      → Fits byte_length rs
      → Fits byte_length (filter p rs)
  unfolding Fits
  Fits-filter p rs (l, b) = (
    ground (arith, length-filter-le p rs),
    ground (arith, markdown_bytes-filter byte_length p rs),
  )

  IsWithinBudget-clear_in :
      (store : Store) (key host : String)
      → IsWithinBudget byte_length store
      → IsWithinBudget byte_length (clear_in store key host)
  unfolding IsWithinBudget
  IsWithinBudget-clear_in store key host h = elim (Option-cases (get key store)) [
    | inl e ↦ rw (e, clear_in) h
    | inr e ↦
        rw (e.1, clear_in)
          (IsWithinBudget-store_rest store key _ h (Fits-filter _ (e.0) (h key (e.0) (e.1))))
  ]

  parsed-Fits :
      (rs : List Receipt) (ps : List (Option ParsedReceipt))
      → length ps ≤ 8
      → (length rs ≡ length ps) × (0 + markdown_bytes byte_length rs ≤ 524288)
      → Fits byte_length rs
  unfolding Fits
  parsed-Fits rs ps l (e, b) = (ground arith, ground arith)

  -- The entries that the loop gives fit, with what was counted before them.
  parse_receipts-Fits :
      (bytes : ℕ) (ps : List (Option ParsedReceipt)) (rs : List Receipt)
      → bytes ≤ 524288
      → parse_receipts byte_length bytes ps ≡ some rs
      → (length rs ≡ length ps) × (bytes + markdown_bytes byte_length rs ≤ 524288)
  unfolding parse_receipts
  parse_receipts-Fits bytes [] rs b e = ground arith
  parse_receipts-Fits bytes (p ∷ ps) rs b e = elim (Option-cases (parse_receipt p)) [
    | inl f ↦ ground arith
    | inr (r, f) ↦
        elim (Option-cases (parse_receipts byte_length (bytes + byte_length r.markdown) ps)) [
          | inl k ↦ ground arith
          | inr (rest, k) ↦ ground (
            arith,
            λ (bound : bytes + byte_length r.markdown ≤ 524288).
                parse_receipts-Fits (bytes + byte_length r.markdown) ps rest bound k,
          )
        ]
  ]

  IsWithinBudget-restore_list :
      (store : Store) (key : String) (ps : List (Option ParsedReceipt))
      → IsWithinBudget byte_length store
      → length ps ≤ 8
      → IsWithinBudget byte_length
          (restore_list byte_length store key (parse_receipts byte_length 0 ps))
  IsWithinBudget-restore_list store key ps h l =
      elim (Option-cases (parse_receipts byte_length 0 ps)) [
        | inl e ↦ rw (e, restore_list) h
        | inr ([], e) ↦ rw (e, restore_list) h
        | inr (r ∷ rs, e) ↦
            rw (e, restore_list)
              (IsWithinBudget-set byte_length key (r ∷ rs) store h
                (parsed-Fits (r ∷ rs) ps l (parse_receipts-Fits 0 ps (r ∷ rs) (omega arith) e)))
      ]

  IsWithinBudget-envelope :
      (store : Store) (key : String) (o : Option Envelope)
      → IsWithinBudget byte_length store
      → IsWithinBudget byte_length
          (restore_list byte_length store key (restored_receipts byte_length o))
  unfolding restored_receipts
  IsWithinBudget-envelope store key none h = h
  IsWithinBudget-envelope store key (some e) h = elim (Bool-cases (is_version_one e.version)) [
    | inr v ↦ rw (v, restored_receipts) h
    | inl v ↦ elim (Option-cases e.receipts) [
      | inl q ↦ rw (v, q, restored_receipts) h
      | inr (ps, q) ↦ elim (Bool-cases (ltb max_receipts (length ps))) [
        | inl l ↦ rw (v, q, l, restored_receipts) h
        | inr l ↦
            rw (v, q, l, restored_receipts)
              (IsWithinBudget-restore_list store key ps h (ground (arith, l)))
      ]
    ]
  ]

  IsWithinBudget-restore :
      (parse : String → Option Envelope) (store : Store) (key : String) (encoded : Option String)
      → IsWithinBudget byte_length store
      → IsWithinBudget byte_length (restore_plan_operations byte_length parse store key encoded)
  unfolding restore_plan_operations
  IsWithinBudget-restore parse store key none h = h
  IsWithinBudget-restore parse store key (some encoded) h =
      elim (Bool-cases (encoded == "" || has key store)) [
        | inl e ↦ rw e h
        | inr e ↦ rw e (IsWithinBudget-envelope store key (parse encoded) h)
      ]

  IsWithinBudget-apply_operation :
      (store : Store) (o : Operation)
      → IsWithinBudget byte_length store
      → IsWithinBudget byte_length (apply_operation byte_length store o)
  unfolding record_plan_operation update_plan_operation_consumed clear_plan_operation
      clear_plan_operations
  IsWithinBudget-apply_operation store (recorded session r) h =
      elim (Option-cases (session_of session)) [
        | inl e ↦ rw (e, apply_operation) h
        | inr e ↦ rw (e.1, apply_operation) (IsWithinBudget-record_in store (e.0) r h)
      ]
  IsWithinBudget-apply_operation store (updated session host result next) h =
      elim (Option-cases (session_of session)) [
        | inl e ↦ rw (e, apply_operation, update_plan_operation_consumed) h
        | inr e ↦
            rw (e.1, apply_operation, update_plan_operation_consumed)
              (IsWithinBudget-consume store (e.0) host result next h)
      ]
  IsWithinBudget-apply_operation store (cleared session host) h =
      elim (Option-cases (session_of session)) [
        | inl e ↦ rw (e, apply_operation, clear_plan_operation) h
        | inr e ↦
            rw (e.1, apply_operation, clear_plan_operation)
              (IsWithinBudget-clear_in store (e.0) host h)
      ]
  IsWithinBudget-apply_operation store (all_cleared session) h =
      elim (Option-cases (session_of session)) [
        | inl e ↦ rw (e, apply_operation, clear_plan_operations) h
        | inr e ↦
            rw (e.1, apply_operation, clear_plan_operations)
              (IsWithinBudget-delete byte_length (e.0) store h)
      ]
  IsWithinBudget-apply_operation store (restored parse key encoded) h =
      IsWithinBudget-restore parse store key encoded h

  -- From a store within the limits, every sequence of recordings, updates, clearings and restorations
  -- leaves each session with at most 8 receipts and at most 512 KiB of markdown.
  pub apply_operations-IsWithinBudget :
      (store : Store) (os : List Operation)
      → IsWithinBudget byte_length store
      → IsWithinBudget byte_length (apply_operations byte_length store os)
  apply_operations-IsWithinBudget store [] h = h
  apply_operations-IsWithinBudget store (o ∷ os) h =
      apply_operations-IsWithinBudget (apply_operation byte_length store o) os
        (IsWithinBudget-apply_operation store o h)
