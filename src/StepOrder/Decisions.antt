-- ===== src/StepOrder/Decisions.antt =====
-- `orderExec`: what each of its answers says about the earlier calls of the step.
use cursor_opencode_provider.Base.{
  ◌<◌, String, ◌≡◌, refl, ◌≢◌, ◌⊎◌, inl, inr, Bool, true, false, List, [], ◌∷◌, arith, Bool-cases,
  any, string_eq, nat_eq,
}
use mathlib.Core.List.{Memᴰ}
use cursor_opencode_provider.StepOrder.{
  done, refused, OrderedCall, Calls, StepOrder, Decision, run, hold, cancel, is_waiting, is_open,
  blocks, blocked, refuses, follows_refusal, decide, ensure_call, order_exec,
}

any_witness {ℓ} :
    {A : Type ℓ} (p : A → Bool) (xs : List A) → any p xs ≡ true → (x : A) × Memᴰ x xs × (p x ≡ true)
any_witness p [] h = cc
any_witness p (x ∷ xs) h = elim (Bool-cases (p x)) [
  | inl e ↦ (x, Memᴰ.head refl, e)
  | inr e ↦ let (y, m, q) = any_witness p xs (ground arith) in (y, Memᴰ.tail m, q)
]

any_none {ℓ} :
    {A : Type ℓ} (p : A → Bool) (xs : List A) {x : A} → any p xs ≡ false → Memᴰ x xs → p x ≡ false
any_none p [] h m = elim m [ ]
any_none p (y ∷ ys) h (Memᴰ.head e) = rw e (ground arith)
any_none p (y ∷ ys) h (Memᴰ.tail m) = any_none p ys (ground arith) m

-- Another call, earlier in the model's order.
abbrev pub IsEarlier : String → OrderedCall → String × OrderedCall → Type 0
IsEarlier id call (other_id, other) = (other_id ≢ id) × (other.index < call.index)

-- Nothing earlier stands in the way: a file change among the earlier calls is done, and a file
-- change has no earlier call under way.
abbrev pub IsClear : String → OrderedCall → String × OrderedCall → Type 0
IsClear id call (other_id, other) =
    (other.file_change ≡ true → other.state ≡ done)
    × (call.file_change ≡ true → is_waiting other.state ≡ false)

-- Something earlier stands in the way that is still to finish.
abbrev pub IsObstacle : OrderedCall → OrderedCall → Type 0
IsObstacle call other =
    ((other.file_change ≡ true) × (is_open other.state ≡ true))
    ⊎ ((call.file_change ≡ true) × (is_waiting other.state ≡ true))

-- What an answer says of the calls as they stand.
abbrev pub Justified : Calls → String → OrderedCall → Decision → Type 0
Justified calls id call run =
    (entry : String × OrderedCall)
    → Memᴰ entry calls
    → IsEarlier id call entry
    → IsClear id call entry
Justified calls id call hold =
    (entry : String × OrderedCall) × Memᴰ entry calls
    × IsEarlier id call entry
    × IsObstacle call entry.1
Justified calls id call cancel =
    (entry : String × OrderedCall) × Memᴰ entry calls
    × (entry.1.index < call.index)
    × (entry.1.file_change ≡ true)
    × (entry.1.state ≡ refused)

blocks-IsClear :
    (id : String) (call : OrderedCall) (entry : String × OrderedCall)
    → blocks entry id call ≡ false
    → refuses entry call ≡ false
    → IsEarlier id call entry
    → IsClear id call entry
blocks-IsClear id call (j, o) b r e = ground (arith, string_eq.beq_iff j id)

blocks-IsObstacle :
    (id : String) (call : OrderedCall) (entry : String × OrderedCall)
    → blocks entry id call ≡ true
    → IsEarlier id call entry × IsObstacle call entry.1
blocks-IsObstacle id call (j, o) b = ground (arith, string_eq.beq_iff j id)

refuses-facts :
    (call : OrderedCall) (entry : String × OrderedCall)
    → refuses entry call ≡ true
    → (entry.1.index < call.index) × (entry.1.file_change ≡ true) × (entry.1.state ≡ refused)
refuses-facts call (j, o) r = ground arith

decide-Justified :
    (calls : Calls) (id : String) (call : OrderedCall)
    → Justified calls id call (decide calls id call)
unfolding blocked follows_refusal
decide-Justified calls id call = elim (Bool-cases (follows_refusal calls call)) [
  | inl r ↦
      let (entry, m, e) = any_witness (λ x. refuses x call) calls r in
      let (lt, fc, st) = refuses-facts call entry e in rw r (entry, m, lt, fc, st)
  | inr r ↦ elim (Bool-cases (blocked calls id call)) [
    | inl b ↦
        let (entry, m, e) = any_witness (λ x. blocks x id call) calls b in
        let (earlier, obstacle) = blocks-IsObstacle id call entry e in
        rw (r, b) (entry, m, earlier, obstacle)
    | inr b ↦
        rw (r, b)
          λ entry m earlier.
            blocks-IsClear id call entry (any_none (λ x. blocks x id call) calls b m)
              (any_none (λ x. refuses x call) calls r m) earlier
  ]
]

-- Each answer of `orderExec` is justified by the calls of the state that it returns, the exec's own
-- call included: "run" only if every earlier file change of another call is done and, for a file
-- change, no earlier call of another is held or running; "hold" only if such a call stands in the
-- way; "cancel" only if an earlier file change was refused.
pub order_exec-Justified :
    {F P : Type 0} (order : StepOrder F P) (id : String) (file_change : Bool)
    → Justified
        (order_exec order id file_change).0.calls
        id
        (ensure_call order id file_change).1
        (order_exec order id file_change).1
unfolding order_exec
order_exec-Justified order id file_change =
    decide-Justified (ensure_call order id file_change).0.calls id
      (ensure_call order id file_change).1
