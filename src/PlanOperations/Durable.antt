-- ===== src/PlanOperations/Durable.antt =====
-- Receipts across a restart.
use cursor_opencode_provider.Base.{
  ◌+◌, ◌≤◌, ℕ, suc, String, ◌≡◌, refl, sym, ap, ◌∙◌, subst, inl, inr, false, Option, none, some,
  List, [], ◌∷◌, map, arith, Option-cases, get_or, length, ◌==◌, eq_refl, string_eq, nat_eq,
}
use cursor_opencode_provider.JsMap.{get}
use cursor_opencode_provider.JsMap.Laws.{get-set}
use cursor_opencode_provider.PlanOperations.{
  Receipt, Store, session_of, markdown_bytes, plan_operations_for, to_parsed, Envelope, envelope_of,
  serialize_plan_operations, is_version_one, parse_receipts, restored_receipts,
  restore_plan_operations,
}
use cursor_opencode_provider.PlanOperations.Budget.{Fits, IsWithinBudget}

module _ (byte_length : String → ℕ) where
  session_of_key : (key : String) → ¬ (key ≡ "") → session_of (some key) ≡ some key
  session_of_key key k = ground (arith, string_eq.beq_iff key "")

  plan_operations_for_key :
      (store : Store) (key : String)
      → ¬ (key ≡ "")
      → plan_operations_for store (some key) ≡ get_or (get key store) []
  unfolding plan_operations_for
  plan_operations_for_key store key k = rw (session_of_key key k, plan_operations_for) refl

  parse_receipts-to_parsed :
      (bytes : ℕ) (rs : List Receipt)
      → bytes + markdown_bytes byte_length rs ≤ 524288
      → parse_receipts byte_length bytes (map to_parsed rs) ≡ some rs
  unfolding parse_receipts
  parse_receipts-to_parsed bytes [] h = refl
  parse_receipts-to_parsed bytes (r ∷ rs) h =
      ground (arith, parse_receipts-to_parsed (bytes + byte_length r.markdown) rs)

  length-to_parsed : (rs : List Receipt) → length (map to_parsed rs) ≡ length rs
  length-to_parsed [] = refl
  length-to_parsed (r ∷ rs) = ap suc (length-to_parsed rs)

  restored_receipts-envelope :
      (rs : List Receipt)
      → Fits byte_length rs
      → restored_receipts byte_length (some (envelope_of rs)) ≡ some rs
  unfolding restored_receipts Fits
  restored_receipts-envelope rs (n, b) =
      ground (arith, n, b, length-to_parsed rs, parse_receipts-to_parsed 0 rs)

  module _ (stringify : Envelope → String) (parse : String → Option Envelope) where
    get-restore :
        (store other : Store) (key : String)
        → parse (stringify (envelope_of (get_or (get key store) [])))
          ≡ some (envelope_of (get_or (get key store) []))
        → (stringify (envelope_of (get_or (get key store) [])) == "") ≡ false
        → IsWithinBudget byte_length store
        → get key other ≡ none
        → get_or
            (get key (
              restore_plan_operations byte_length parse other key
                (serialize_plan_operations stringify store key)))
            []
          ≡ get_or (get key store) []
    unfolding IsWithinBudget restore_plan_operations serialize_plan_operations
    get-restore store other key codec full h n = elim (Option-cases (get key store)) [
      | inl e ↦ ground arith
      | inr ([], e) ↦ ground arith
      | inr (r ∷ rs, e) ↦
          let codec' : parse (stringify (envelope_of (r ∷ rs))) ≡ some (envelope_of (r ∷ rs)) =
            subst
              (λ o.
                parse (stringify (envelope_of (get_or o []))) ≡ some (envelope_of (get_or o [])))
              e codec in
          let full' : (stringify (envelope_of (r ∷ rs)) == "") ≡ false =
            subst (λ o. (stringify (envelope_of (get_or o [])) == "") ≡ false) e full in
          ground (
            arith,
            full',
            codec',
            restored_receipts-envelope (r ∷ rs) (h key (r ∷ rs) e),
            get-set key key (r ∷ rs) other,
            eq_refl key,
          )
    ]

    -- The receipts of a session within the limits, read back from the text of its snapshot into a store that does
    -- not know the session, are the receipts of that session again, provided the JSON codec reads the envelope of
    -- these receipts back from the text it wrote, and that text is not empty.
    pub plan_operations_for-restore :
        (store other : Store) (key : String)
        → parse (stringify (envelope_of (get_or (get key store) [])))
          ≡ some (envelope_of (get_or (get key store) []))
        → (stringify (envelope_of (get_or (get key store) [])) == "") ≡ false
        → IsWithinBudget byte_length store
        → ¬ (key ≡ "")
        → get key other ≡ none
        → plan_operations_for
            (restore_plan_operations byte_length parse other key
              (serialize_plan_operations stringify store key))
            (some key)
          ≡ plan_operations_for store (some key)
    plan_operations_for-restore store other key codec full h k n =
        plan_operations_for_key _ key k
        ∙ (get-restore store other key codec full h n ∙ sym (plan_operations_for_key store key k))

    -- A snapshot of another version changes nothing.
    pub other_version :
        (store : Store) (key encoded : String) (e : Envelope)
        → parse encoded ≡ some e
        → is_version_one e.version ≡ false
        → restore_plan_operations byte_length parse store key (some encoded) ≡ store
    unfolding restore_plan_operations restored_receipts
    other_version store key encoded e p v = ground (arith, p, v)
