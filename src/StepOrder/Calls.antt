-- ===== src/StepOrder/Calls.antt =====
-- The call map under the operations that assign to one call: which decisions do not change.
use cursor_opencode_provider.Base.{
  String, ◌≡◌, refl, sym, ◌∙◌, inl, inr, Bool, true, false, not, ◌||◌, none, some, [], ◌∷◌, arith,
  if◌then◌else◌, Bool-cases, Option-cases, ◌==◌, string_eq, nat_eq,
}
use mathlib.Core.Option
use cursor_opencode_provider.JsMap.Laws.{get-modify}
use cursor_opencode_provider.JsMap.{get, modify}
use cursor_opencode_provider.StepOrder.{
  CallState, running, OrderedCall, Calls, HeldExec, is_waiting, with_state, blocks, blocked,
  follows_refusal, releasable,
}

-- A call that is held or running, if it is known at all.
abbrev pub IsWaitingAt : Calls → String → Type 0
IsWaitingAt calls id = (c : OrderedCall) → get id calls ≡ some c → is_waiting c.state ≡ true

IsWaitingAt-tail :
    (id j : String) (w : OrderedCall) (calls : Calls)
    → (j == id) ≡ false
    → IsWaitingAt ((j, w) ∷ calls) id
    → IsWaitingAt calls id
IsWaitingAt-tail id j w calls ne h c e = h c (ground arith)

-- A call that waits already blocks what it blocks when it runs.
blocks-running :
    (j k : String) (w c : OrderedCall)
    → is_waiting w.state ≡ true
    → blocks (j, with_state running w) k c ≡ blocks (j, w) k c
blocks-running j k w c h = ground arith

pub blocked-running :
    (calls : Calls) (id k : String) (c : OrderedCall)
    → IsWaitingAt calls id
    → blocked (modify id (with_state running) calls) k c ≡ blocked calls k c
unfolding blocked
blocked-running [] id k c h = refl
blocked-running ((j, w) ∷ calls) id k c h = elim (Bool-cases (j == id)) [
  | inl e ↦ rw e (rw (blocks-running j k w c (h w (rw e))))
  | inr e ↦ rw e (rw (blocked-running calls id k c (IsWaitingAt-tail id j w calls e h)))
]

pub follows_refusal-running :
    (calls : Calls) (id : String) (c : OrderedCall)
    → IsWaitingAt calls id
    → follows_refusal (modify id (with_state running) calls) c ≡ follows_refusal calls c
unfolding follows_refusal
follows_refusal-running [] id c h = refl
follows_refusal-running ((j, w) ∷ calls) id c h = elim (Bool-cases (j == id)) [
  | inl e ↦ rw e (ground (arith, h w (rw e)))
  | inr e ↦ rw e (rw (follows_refusal-running calls id c (IsWaitingAt-tail id j w calls e h)))
]

-- The decisions read the order of a call and not its state.
abbrev free : Calls → String → OrderedCall → Bool
free calls k c = not (follows_refusal calls c || blocked calls k c)

free-running :
    (calls : Calls) (id k : String) (c : OrderedCall)
    → IsWaitingAt calls id
    → free (modify id (with_state running) calls) k c ≡ free calls k c
free-running calls id k c h =
    rw (follows_refusal-running calls id c h, blocked-running calls id k c h)

free-with_state :
    (calls : Calls) (k : String) (s : CallState) (c : OrderedCall)
    → free calls k (with_state s c) ≡ free calls k c
unfolding blocked follows_refusal
free-with_state calls k s c = refl

module _ {F P : Type 0} where
  releasable_of_get :
      (calls : Calls) (h : HeldExec F P) (c : OrderedCall)
      → get h.call_id calls ≡ some c
      → releasable calls h ≡ free calls h.call_id c
  unfolding releasable
  releasable_of_get calls h c e = rw (e, releasable)

  releasable_of_missing :
      (calls : Calls) (h : HeldExec F P) → get h.call_id calls ≡ none → releasable calls h ≡ false
  unfolding releasable
  releasable_of_missing calls h e = rw (e, releasable)

  -- Releasing one waiting call changes no other decision.
  pub releasable-running :
      (calls : Calls) (id : String) (h : HeldExec F P)
      → IsWaitingAt calls id
      → releasable (modify id (with_state running) calls) h ≡ releasable calls h
  releasable-running calls id h w =
      let calls' = modify id (with_state running) calls in
      elim (Option-cases (get h.call_id calls)) [
        | inl e ↦
            cc
              (releasable_of_missing calls h e, releasable_of_missing calls' h (get-running_none e))
        | inr (c, e) ↦ elim (Bool-cases (id == h.call_id)) [
          | inl same ↦
              releasable_of_get calls' h (with_state running c) (get-running_same e same)
              ∙ free-with_state calls' h.call_id running c
              ∙ free-running calls id h.call_id c w
              ∙ sym (releasable_of_get calls h c e)
          | inr other ↦
              releasable_of_get calls' h c (get-running_other e other)
              ∙ free-running calls id h.call_id c w
              ∙ sym (releasable_of_get calls h c e)
        ]
      ]
    where
      law : get h.call_id (modify id (with_state running) calls) ≡ (
          if id == h.call_id
          then Option.map (with_state running) (get h.call_id calls)
          else get h.call_id calls)
      law = get-modify id h.call_id (with_state running) calls

      get-running_none :
          get h.call_id calls ≡ none → get h.call_id (modify id (with_state running) calls) ≡ none
      get-running_none e = ground (arith, law)

      get-running_same :
          {c : OrderedCall}
          → get h.call_id calls ≡ some c
          → (id == h.call_id) ≡ true
          → get h.call_id (modify id (with_state running) calls) ≡ some (with_state running c)
      get-running_same e s = ground (arith, law)

      get-running_other :
          {c : OrderedCall}
          → get h.call_id calls ≡ some c
          → (id == h.call_id) ≡ false
          → get h.call_id (modify id (with_state running) calls) ≡ some c
      get-running_other e s = ground (arith, law)
