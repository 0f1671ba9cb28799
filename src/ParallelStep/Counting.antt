-- ===== src/ParallelStep/Counting.antt =====
-- The resolved ids are counted once each, and the listed count closes the step.
use cursor_opencode_provider.Base.{
  ◌+◌, ◌-◌, ℕ, String, ◌≡◌, refl, ap, ◌∙◌, inl, inr, Bool, not, ◌&&◌, ◌||◌, none, some, List, [],
  ◌∷◌, ◌++◌, arith, leb, if◌then◌else◌, Bool-cases, length, length-append, ◌==◌, string_eq, nat_eq,
}
use cursor_opencode_provider.ParallelStep.{
  ParallelStep, contains, resolve_parallel_step_call, should_hold_parallel_step,
  create_parallel_step, note_listed_call_count, should_guard_close_parallel_step,
}

-- Every id is resolved, in turn; the time of each is its own.
unfoldable pub resolve_all : ParallelStep → List String → List (String × ℕ) → ParallelStep
resolve_all step prior [] = step
resolve_all step prior ((id, now) ∷ ids) =
    resolve_all (resolve_parallel_step_call step (some id) prior now).0 prior ids

-- The ids of a list that count: the first occurrence of each that is not empty, belongs to no
-- earlier step and is not yet among `seen`.
unfoldable pub fresh_count : List String → List String → List (String × ℕ) → ℕ
fresh_count prior seen [] = 0
fresh_count prior seen ((id, now) ∷ ids) =
    let rest = fresh_count prior seen ids in
    let more = fresh_count prior (seen ++ (id ∷ [])) ids in
    if id == "" || contains id prior then rest else if contains id seen then rest else more + 1

resolved-resolve :
    (step : ParallelStep) (id : String) (prior : List String) (now : ℕ)
    → (resolve_parallel_step_call step (some id) prior now).0.resolved ≡ (
        if id == "" || contains id prior
        then step.resolved
        else if contains id step.resolved
        then step.resolved
        else step.resolved ++ (id ∷ []))
unfolding resolve_parallel_step_call
resolved-resolve step id prior now = elim (Bool-cases (id == "" || contains id prior)) [
  | inl e ↦ rw e
  | inr e ↦ elim (Bool-cases (contains id step.resolved)) [ inl f ↦ rw (e, f) | inr f ↦ rw (e, f) ]
]

pub resolve_all-count :
    (step : ParallelStep) (prior : List String) (ids : List (String × ℕ))
    → length (resolve_all step prior ids).resolved
      ≡ length step.resolved + fresh_count prior step.resolved ids
unfolding resolve_all fresh_count
resolve_all-count step prior [] = omega arith
resolve_all-count step prior ((id, now) ∷ ids) =
    let step' = (resolve_parallel_step_call step (some id) prior now).0 in
    let ih = resolve_all-count step' prior ids in
    let resolved = resolved-resolve step id prior now in
    elim (Bool-cases (id == "" || contains id prior)) [
      | inl e ↦ let same : step'.resolved ≡ step.resolved = rw e at resolved in rw e (rw same at ih)
      | inr e ↦ elim (Bool-cases (contains id step.resolved)) [
        | inl f ↦
            let same : step'.resolved ≡ step.resolved = rw (e, f) at resolved in
            rw (e, f) (rw same at ih)
        | inr f ↦
            let more : step'.resolved ≡ step.resolved ++ (id ∷ []) = rw (e, f) at resolved in
            rw (e, f) (omega (arith, rw more at ih, length-append step.resolved (id ∷ [])))
      ]
    ]

listed-resolve :
    (step : ParallelStep) (id : String) (prior : List String) (now : ℕ)
    → (resolve_parallel_step_call step (some id) prior now).0.listed_count ≡ step.listed_count
unfolding resolve_parallel_step_call
listed-resolve step id prior now = ground arith

listed-resolve_all :
    (step : ParallelStep) (prior : List String) (ids : List (String × ℕ))
    → (resolve_all step prior ids).listed_count ≡ step.listed_count
unfolding resolve_all
listed-resolve_all step prior [] = refl
listed-resolve_all step prior ((id, now) ∷ ids) =
    listed-resolve_all (resolve_parallel_step_call step (some id) prior now).0 prior ids
    ∙ listed-resolve step id prior now

hold_of_listed :
    (step : ParallelStep) (n : ℕ) (human gate : Bool)
    → step.listed_count ≡ some n
    → should_hold_parallel_step step human gate ≡ not (leb n (length step.resolved))
unfolding should_hold_parallel_step
hold_of_listed step n human gate e = ground arith

-- Once Cursor has listed `n` calls, the step is held exactly until `n` calls have their disposition,
-- whatever else the options say: each id counts once, the empty id and the ids of earlier steps
-- never.
pub should_hold-resolve_all :
    (start listed n : ℕ) (prior : List String) (ids : List (String × ℕ)) (human gate : Bool)
    → should_hold_parallel_step
        (resolve_all
          (note_listed_call_count (create_parallel_step start) (some n) listed).0
          prior
          ids)
        human
        gate
      ≡ not (leb n (fresh_count prior [] ids))
unfolding note_listed_call_count create_parallel_step
should_hold-resolve_all start listed n prior ids human gate =
    let step = (note_listed_call_count (create_parallel_step start) (some n) listed).0 in
    hold_of_listed (resolve_all step prior ids) n human gate (listed-resolve_all step prior ids)
    ∙ ap (λ k. not (leb n k)) (resolve_all-count step prior ids ∙ omega arith)

-- Without a listed count nothing is held before Cursor's count was ever seen, nor for an
-- interaction that waits for the user; otherwise the step is held. The guard closes it
-- after `idle` milliseconds without progress.
pub hold_unlisted :
    (step : ParallelStep) (human gate : Bool) (now idle : ℕ)
    → step.listed_count ≡ none
    → (should_hold_parallel_step step human gate ≡ (gate && not human))
      × (should_guard_close_parallel_step step now idle ≡ leb idle (now - step.last_progress_at))
unfolding should_hold_parallel_step should_guard_close_parallel_step
hold_unlisted step human gate now idle e = (ground arith, ground arith)
