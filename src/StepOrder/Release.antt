-- ===== src/StepOrder/Release.antt =====
-- `takeReleasableExecs`: one pass over the held execs, although each release changes the calls.
use cursor_opencode_provider.Base.{
  String, ◌≡◌, refl, ap, ◌∙◌, inl, inr, not, List, [], ◌∷◌, arith, Bool-cases, Option-cases, filter,
  All, string_eq, nat_eq,
}
use cursor_opencode_provider.JsMap.{get, modify}
use cursor_opencode_provider.JsMap.Laws.{get-modify}
use cursor_opencode_provider.StepOrder.{
  running, Calls, HeldExec, StepOrder, with_state, releasable, release_loop, take_releasable_execs,
}
use cursor_opencode_provider.StepOrder.Calls.{IsWaitingAt, releasable-running}

IsWaitingAt-running :
    (calls : Calls) (id k : String)
    → IsWaitingAt calls k
    → IsWaitingAt (modify id (with_state running) calls) k
IsWaitingAt-running calls id k w c e = elim (Option-cases (get k calls)) [
  | inl missing ↦ ground (arith, get-modify id k (with_state running) calls)
  | inr (d, found) ↦ ground (arith, get-modify id k (with_state running) calls, w d)
]

module _ {F P : Type 0} where
  -- The calls of the held execs are held or running, as `holdExec` and a release leave them.
  abbrev pub AllWaiting : Calls → List (HeldExec F P) → Type 0
  AllWaiting calls = All (λ h. IsWaitingAt calls h.call_id)

  AllWaiting-running :
      (calls : Calls) (id : String) (hs : List (HeldExec F P))
      → AllWaiting calls hs
      → AllWaiting (modify id (with_state running) calls) hs
  AllWaiting-running calls id [] w = tt
  AllWaiting-running calls id (h ∷ hs) (w, ws) =
      (IsWaitingAt-running calls id h.call_id w, AllWaiting-running calls id hs ws)

  filter-releasable :
      (calls : Calls) (id : String) (hs : List (HeldExec F P))
      → IsWaitingAt calls id
      → (filter (releasable (modify id (with_state running) calls)) hs
          ≡ filter (releasable calls) hs)
        × (filter (λ h. not (releasable (modify id (with_state running) calls) h)) hs
            ≡ filter (λ h. not (releasable calls h)) hs)
  filter-releasable calls id [] w = (refl, refl)
  filter-releasable calls id (h ∷ hs) w =
      let (ih, ih') = filter-releasable calls id hs w in
      (rw (releasable-running calls id h w, ih), rw (releasable-running calls id h w, ih'))

  loop_splits :
      (calls : Calls) (hs : List (HeldExec F P))
      → AllWaiting calls hs
      → ((release_loop calls hs).released ≡ filter (releasable calls) hs)
        × ((release_loop calls hs).held ≡ filter (λ h. not (releasable calls h)) hs)
  unfolding release_loop
  loop_splits calls [] w = (refl, refl)
  loop_splits calls (h ∷ hs) (w, ws) = elim (Bool-cases (releasable calls h)) [
    | inl e ↦
        let calls' = modify h.call_id (with_state running) calls in
        let ih = loop_splits calls' hs (AllWaiting-running calls h.call_id hs ws) in
        let same = filter-releasable calls h.call_id hs w in
        (
          rw (e, release_loop) (ap (λ t. h ∷ t) (ih.0 ∙ same.0)),
          rw (e, release_loop) (ih.1 ∙ same.1),
        )
    | inr e ↦
        let ih = loop_splits calls hs ws in
        (rw (e, release_loop) ih.0, rw (e, release_loop) (ap (λ t. h ∷ t) ih.1))
  ]

  -- One pass of `takeReleasableExecs` releases exactly the held execs that nothing blocked when it
  -- began, in model order, and keeps exactly the others, in order: a release made on the way changes
  -- no later decision. The condition is that the calls of the held execs are held or running.
  pub take_releasable_execs-filter :
      (order : StepOrder F P)
      → AllWaiting order.calls order.held
      → ((take_releasable_execs order).1 ≡ filter (releasable order.calls) order.held)
        × ((take_releasable_execs order).0.held
            ≡ filter (λ h. not (releasable order.calls h)) order.held)
  unfolding take_releasable_execs
  take_releasable_execs-filter order w = loop_splits order.calls order.held w
