-- ===== src/ReplaySafety/Displays.antt =====
-- Histories of an attempt and of those after it: what a failure may claim, and what a rebuild from
-- history has to represent.
use cursor_opencode_provider.Base.{
  ℕ, String, ◌≡◌, refl, subst, ◌⊎◌, inl, inr, Bool, true, false, ◌&&◌, ◌||◌, Option, none, some,
  List, [], ◌∷◌, ◌++◌, arith, leb, if◌then◌else◌, Bool-cases, Option-cases, is_some, length, all,
  ◌==◌, string_eq, nat_eq,
}
use cursor_opencode_provider.JsMap.{get}
use cursor_opencode_provider.ReplaySafety.{
  Reason, is_output_only, is_non_control_exec, AppendedInjection, max_appended_injections,
  CatalogState, SafetyState, is_claimed, is_completed, is_started, announced_calls_claimed, Attempt,
  new_attempt, mark, mark_barrier, LifecycleKind, Lifecycle, with_catalog, announce, complete_call,
  start_call, record_tool_lifecycle, record_exec, record_appended_message, Failure, apply_to,
  display_tool_lifecycle, stateful_interaction,
}
use cursor_opencode_provider.ReplaySafety.Barriers.{
  Keeps, Keeps-refl, Keeps-trans, has_call, add_call_has, mark-Keeps, lifecycle-Keeps, exec-Keeps,
  message-Keeps,
}

-- What the pump reports to the attempt; `retries` opens the next attempt on the Run's state.
pub data Event : Type 0 where
  marks : Reason → Event
  shows : Option Lifecycle → Event
  executes : Option ℕ → Option String → Event
  appends : Option AppendedInjection → Event
  retries : String → Event

unfoldable pub after_event : Attempt → Event → Attempt
after_event a (marks r) = mark_barrier a r
after_event a (shows l) = record_tool_lifecycle a l
after_event a (executes id c) = record_exec a id c
after_event a (appends m) = record_appended_message a m
after_event a (retries session) = new_attempt session a.state

unfoldable pub after_events : Attempt → List Event → Attempt
unfolding after_event
after_events a [] = a
after_events a (e ∷ es) = after_events (after_event a e) es

after_event-Keeps : (a : Attempt) (e : Event) → Keeps a.state (after_event a e).state
unfolding after_event mark_barrier new_attempt
after_event-Keeps a (marks r) = mark-Keeps a r (is_non_control_exec r) false
after_event-Keeps a (shows l) = lifecycle-Keeps a l
after_event-Keeps a (executes id c) = exec-Keeps a id c
after_event-Keeps a (appends m) = message-Keeps a m
after_event-Keeps a (retries session) = Keeps-refl a.state

after_events-Keeps : (a : Attempt) (es : List Event) → Keeps a.state (after_events a es).state
unfolding after_events
after_events-Keeps a [] = Keeps-refl a.state
after_events-Keeps a (e ∷ es) =
    Keeps-trans a.state (after_event a e).state _ (after_event-Keeps a e)
      (after_events-Keeps (after_event a e) es)

-- A started display call is accounted for: claimed by an exec, among the announced calls, or the
-- history is no longer safe to rebuild from.
abbrev pub IsCovered : SafetyState → String → Type 0
IsCovered s id =
    (is_claimed s id ≡ true)
    ⊎ ((has_call id s.announced_calls ≡ true) ⊎ (s.history_rebase_unsafe ≡ true))

IsCovered-Keeps : (s t : SafetyState) (id : String) → Keeps s t → IsCovered s id → IsCovered t id
IsCovered-Keeps s t id k (inl h) = inl (k.claimed id h)
IsCovered-Keeps s t id k (inr (inl h)) = inr (inl (k.announced id h))
IsCovered-Keeps s t id k (inr (inr h)) = inr (inr (k.unsafe h))

mark_unsafe :
    (a : Attempt) (echo : Bool)
    → (mark a display_tool_lifecycle false echo).state.history_rebase_unsafe ≡ true
unfolding mark
mark_unsafe a echo = refl

start-IsCovered : (a : Attempt) (id : String) (c : Bool) → IsCovered (start_call a id c).state id
unfolding start_call
start-IsCovered a id c =
    elim (Bool-cases (is_claimed a.state id || is_some (get id a.state.catalog_calls))) [
      | inl e ↦ rw e (inr (inr (mark_unsafe a false)))
      | inr e ↦ rw e (
          IsCovered-Keeps (announce (with_catalog_if c) id).state _ id
            (mark-Keeps (announce (with_catalog_if c) id) display_tool_lifecycle true false)
            (inr (inl (add_call_has id (with_catalog_if c).state.announced_calls))))
    ]
  where
    with_catalog_if : Bool → Attempt
    with_catalog_if c = if c then with_catalog a id CatalogState.started else a

shows-IsCovered :
    (a : Attempt) (l : Lifecycle)
    → l.kind ≡ LifecycleKind.started
    → IsCovered (record_tool_lifecycle a (some l)).state l.call_id
unfolding record_tool_lifecycle
shows-IsCovered a l e = rw e (start-IsCovered a l.call_id l.catalog)

all_at :
    (p : String → Bool) (id : String) (xs : List String)
    → all p xs ≡ true
    → has_call id xs ≡ true
    → p id ≡ true
all_at p id [] h k = cc
all_at p id (x ∷ xs) h k = elim (Bool-cases (x == id)) [
  | inl e ↦ subst (λ y. p y ≡ true) ((string_eq.beq_iff x id).0 e) (ground arith)
  | inr e ↦ all_at p id xs (ground arith) (ground arith)
]

-- A rebuild from history never drops a display call. Whatever came before and after the frame that
-- started the call, over retries too: once the announced calls are all claimed and the history is
-- not marked unsafe, the call is claimed by a host exec, or its inline catalog lookup completed.
pub started-is_claimed :
    (a : Attempt) (l : Lifecycle) (es : List Event)
    → l.kind ≡ LifecycleKind.started
    → let s = (after_events (after_event a (shows (some l))) es).state in
      announced_calls_claimed s ≡ true
      → s.history_rebase_unsafe ≡ false
      → (is_claimed s l.call_id ≡ true) ⊎ (is_completed (get l.call_id s.catalog_calls) ≡ true)
unfolding after_event announced_calls_claimed
started-is_claimed a l es e all_claimed safe = covered (
    IsCovered-Keeps _ _ l.call_id (after_events-Keeps (after_event a (shows (some l))) es)
      (shows-IsCovered a l e))
  where
    s : SafetyState
    s = (after_events (after_event a (shows (some l))) es).state

    covered :
        IsCovered s l.call_id
        → (is_claimed s l.call_id ≡ true) ⊎ (is_completed (get l.call_id s.catalog_calls) ≡ true)
    covered (inl h) = inl h
    covered (inr (inl h)) =
        let at =
          all_at (λ id. is_claimed s id || is_completed (get id s.catalog_calls)) l.call_id
            s.announced_calls all_claimed h in
        elim (Bool-cases (is_claimed s l.call_id)) [ inl c ↦ inl c | inr c ↦ inr (ground arith) ]
    covered (inr (inr h)) = cc

-- An attempt whose failures are not replay-safe: it has met a barrier, or the Run has.
abbrev IsBarred : Attempt → Type 0
IsBarred a = (is_some a.barrier_reason ≡ true) ⊎ (a.stateful ≡ true)

abbrev IsStateful : SafetyState → Type 0
IsStateful s = (r : Reason) × (s.stateful_barrier ≡ some r)

mark-keeps_barrier :
    (a : Attempt) (r : Reason) (p echo : Bool)
    → is_output_only r ≡ false
    → IsStateful (mark a r p echo).state
unfolding mark
mark-keeps_barrier a r p echo e = elim (Option-cases a.state.stateful_barrier) [
  | inl n ↦ (r, rw (e, n))
  | inr (q, n) ↦ (q, rw (e, n))
]

barred_safe : (a : Attempt) (f : Failure) → IsBarred a → (apply_to a f).replay_safe ≡ false
unfolding apply_to
barred_safe a f (inl h) = rw h
barred_safe a f (inr h) = ground arith

-- The barrier of the Run, and of each attempt on it.
abbrev IsLasting : Attempt → Type 0
IsLasting a = (a.stateful ≡ true) × IsStateful a.state

mark-stateful :
    (a : Attempt) (r : Reason) (p echo : Bool)
    → a.stateful ≡ true
    → (mark a r p echo).stateful ≡ true
unfolding mark
mark-stateful a r p echo h = ground arith

mark-becomes_stateful :
    (a : Attempt) (r : Reason) (p echo : Bool)
    → is_output_only r ≡ false
    → (mark a r p echo).stateful ≡ true
unfolding mark
mark-becomes_stateful a r p echo h = ground arith

start_call-stateful :
    (a : Attempt) (id : String) (c : Bool) → a.stateful ≡ true → (start_call a id c).stateful ≡ true
unfolding start_call
start_call-stateful a id c h =
    elim (Bool-cases (is_claimed a.state id || is_some (get id a.state.catalog_calls))) [
      | inl e ↦ rw e (mark-stateful a display_tool_lifecycle false false h)
      | inr e ↦
          elim c
            as (λ b.
              (if is_claimed a.state id || is_some (get id a.state.catalog_calls)
                then mark a display_tool_lifecycle false false
                else mark (announce (if b then with_catalog a id CatalogState.started else a) id)
                    display_tool_lifecycle true false).stateful
              ≡ true) [
                | true ↦ rw e (
                    mark-stateful (announce (with_catalog a id CatalogState.started) id)
                      display_tool_lifecycle true false h)
                | false ↦ rw e (mark-stateful (announce a id) display_tool_lifecycle true false h)
              ]
    ]

complete_call-stateful :
    (a : Attempt) (id : String) (c : Bool)
    → a.stateful ≡ true
    → (complete_call a id c).stateful ≡ true
unfolding complete_call
complete_call-stateful a id c h =
    elim (Bool-cases (c && is_started (get id a.state.catalog_calls))) [
      | inl e ↦ rw e h
      | inr e ↦ elim (Bool-cases (is_claimed a.state id)) [
        | inl q ↦ rw (e, q) h
        | inr q ↦ rw (e, q) (mark-stateful a display_tool_lifecycle false false h)
      ]
    ]

lifecycle-stateful :
    (a : Attempt) (l : Option Lifecycle)
    → a.stateful ≡ true
    → (record_tool_lifecycle a l).stateful ≡ true
unfolding record_tool_lifecycle
lifecycle-stateful a none h = mark-stateful a display_tool_lifecycle false false h
lifecycle-stateful a (some l) h =
    elim l.kind
      as (λ k.
        (elim k as (λ x. Attempt) [
          | LifecycleKind.started ↦ start_call a l.call_id l.catalog
          | LifecycleKind.completed ↦ complete_call a l.call_id l.catalog
        ]).stateful
        ≡ true) [
          | LifecycleKind.started ↦ start_call-stateful a l.call_id l.catalog h
          | LifecycleKind.completed ↦ complete_call-stateful a l.call_id l.catalog h
        ]

after_event-stateful : (a : Attempt) (e : Event) → IsLasting a → (after_event a e).stateful ≡ true
unfolding after_event mark_barrier new_attempt record_exec record_appended_message
after_event-stateful a (marks r) (h, s) = mark-stateful a r (is_non_control_exec r) false h
after_event-stateful a (shows l) (h, s) = lifecycle-stateful a l h
after_event-stateful a (executes none c) (h, s) = h
after_event-stateful a (executes (some id) c) (h, s) = ground (arith, h)
after_event-stateful a (appends none) (h, s) = mark-stateful a stateful_interaction false false h
after_event-stateful a (appends (some m)) (h, s) =
    elim (Bool-cases (leb max_appended_injections (length a.state.appended_injections))) [
      | inl e ↦ rw e (mark-stateful a stateful_interaction false false h)
      | inr e ↦
          let appended : Attempt = record a {
            state = record (a.state) {
              appended_injections = a.state.appended_injections ++ (m ∷ []);
            };
          } in
          rw e (mark-stateful appended stateful_interaction true true h)
    ]
after_event-stateful a (retries session) (h, (q, e)) = rw e refl

after_events-IsLasting :
    (a : Attempt) (es : List Event) → IsLasting a → IsLasting (after_events a es)
unfolding after_events
after_events-IsLasting a [] h = h
after_events-IsLasting a (x ∷ xs) (h, (q, e)) =
    after_events-IsLasting (after_event a x) xs
      (after_event-stateful a x (h, (q, e)), (q, (after_event-Keeps a x).barrier q e))

-- A barrier that is not output alone lasts: whatever the attempt and those after it on the Run's state report
-- afterwards, over any number of retries, no failure of the current attempt is safe to replay.
pub mark_barrier-never_replay_safe :
    (a : Attempt) (r : Reason) (es : List Event) (f : Failure)
    → is_output_only r ≡ false
    → (apply_to (after_events (mark_barrier a r) es) f).replay_safe ≡ false
unfolding mark_barrier
mark_barrier-never_replay_safe a r es f e =
    let marked : Attempt = mark a r (is_non_control_exec r) false in
    barred_safe _ f (
      inr
        (after_events-IsLasting marked es (
          mark-becomes_stateful a r (is_non_control_exec r) false e,
          mark-keeps_barrier a r (is_non_control_exec r) false e,
        )).0)
