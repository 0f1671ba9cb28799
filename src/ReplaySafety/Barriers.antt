-- ===== src/ReplaySafety/Barriers.antt =====
-- What stays, once it was recorded: barriers of an attempt, and the Run's state over all attempts.
use cursor_opencode_provider.Base.{
  ℕ, String, ◌≡◌, refl, inl, inr, Bool, true, false, ◌&&◌, ◌||◌, Option, none, some, List, [], ◌∷◌,
  ◌++◌, arith, leb, if◌then◌else◌, Bool-cases, is_some, length, any, ◌==◌, eq_refl, string_eq,
  nat_eq,
}
use cursor_opencode_provider.JsMap.{get}
use cursor_opencode_provider.ReplaySafety.{
  Reason, is_output_only, SafetyState, Attempt, AppendedInjection, Lifecycle, LifecycleKind,
  CatalogState, claims, is_claimed, mark_history_unsafe, mark, add_call, with_catalog, announce,
  complete_call, start_call, record_tool_lifecycle, record_exec, record_appended_message, same_exec,
  display_tool_lifecycle, stateful_interaction, is_started, max_appended_injections,
}

abbrev pub has_call : String → List String → Bool
has_call id xs = any (λ x. x == id) xs

-- The later state keeps what the earlier one had recorded.
pub record Keeps (s t : SafetyState) : Type 0 where
  pub barrier : (r : Reason) → s.stateful_barrier ≡ some r → t.stateful_barrier ≡ some r
  pub unsafe : s.history_rebase_unsafe ≡ true → t.history_rebase_unsafe ≡ true
  pub announced :
      (id : String) → has_call id s.announced_calls ≡ true → has_call id t.announced_calls ≡ true
  pub claimed : (id : String) → is_claimed s id ≡ true → is_claimed t id ≡ true

pub Keeps-refl : (s : SafetyState) → Keeps s s
Keeps-refl s = record {
  barrier = λ r e. e;
  unsafe = λ e. e;
  announced = λ id e. e;
  claimed = λ id e. e;
}

pub Keeps-trans : (s t u : SafetyState) → Keeps s t → Keeps t u → Keeps s u
Keeps-trans s t u k l = record {
  barrier = λ r e. l.barrier r (k.barrier r e);
  unsafe = λ e. l.unsafe (k.unsafe e);
  announced = λ id e. l.announced id (k.announced id e);
  claimed = λ id e. l.claimed id (k.claimed id e);
}

any-append :
    {A : Type 0} (p : A → Bool) (xs ys : List A) → any p xs ≡ true → any p (xs ++ ys) ≡ true
any-append p [] ys h = cc
any-append p (x ∷ xs) ys h = ground (arith, any-append p xs ys)

any_last :
    {A : Type 0} (p : A → Bool) (xs : List A) (y : A) → p y ≡ true → any p (xs ++ (y ∷ [])) ≡ true
any_last p [] y h = rw h
any_last p (x ∷ xs) y h = ground (arith, any_last p xs y h)

add_call_keeps :
    (x id : String) (xs : List String) → has_call id xs ≡ true → has_call id (add_call x xs) ≡ true
add_call_keeps x id xs h = elim (Bool-cases (any (λ y. y == x) xs)) [
  | inl e ↦ rw e h
  | inr e ↦ rw e (any-append (λ y. y == id) xs (x ∷ []) h)
]

pub add_call_has : (id : String) (xs : List String) → has_call id (add_call id xs) ≡ true
add_call_has id xs = elim (Bool-cases (any (λ y. y == id) xs)) [
  | inl e ↦ rw e e
  | inr e ↦ rw e (any_last (λ y. y == id) xs id (eq_refl id))
]

pub mark-Keeps : (a : Attempt) (r : Reason) (p echo : Bool) → Keeps a.state (mark a r p echo).state
unfolding mark is_claimed
mark-Keeps a r p echo = elim (Bool-cases (is_output_only r)) [
  | inl e ↦ rw e (Keeps-refl a.state)
  | inr e ↦ rw e (record {
    barrier = λ q h. rw h;
    unsafe = λ h. rw h (either p);
    announced = λ id h. h;
    claimed = λ id h. h;
  })
]
  where
    either : (p : Bool) → (if p then true else true) ≡ true
    either true = refl
    either false = refl

unsafe-Keeps : (a : Attempt) → Keeps a.state (mark_history_unsafe a).state
unfolding is_claimed
unsafe-Keeps a = record {
  barrier = λ r e. e;
  unsafe = λ e. refl;
  announced = λ id e. e;
  claimed = λ id e. e;
}

catalog-Keeps :
    (a : Attempt) (id : String) (s : CatalogState) → Keeps a.state (with_catalog a id s).state
unfolding is_claimed
catalog-Keeps a id s = record {
  barrier = λ r e. e;
  unsafe = λ e. e;
  announced = λ id e. e;
  claimed = λ id e. e;
}

announce-Keeps : (a : Attempt) (id : String) → Keeps a.state (announce a id).state
unfolding is_claimed
announce-Keeps a id = record {
  barrier = λ r e. e;
  unsafe = λ e. e;
  announced = λ j h. add_call_keeps id j a.state.announced_calls h;
  claimed = λ id e. e;
}

complete-Keeps : (a : Attempt) (id : String) (c : Bool) → Keeps a.state (complete_call a id c).state
unfolding complete_call
complete-Keeps a id c = elim (Bool-cases (c && is_started (get id a.state.catalog_calls))) [
  | inl e ↦ rw e (catalog-Keeps a id CatalogState.completed)
  | inr e ↦ elim (Bool-cases (is_claimed a.state id)) [
    | inl f ↦ rw (e, f) (Keeps-refl a.state)
    | inr f ↦ rw (e, f) (mark-Keeps a display_tool_lifecycle false false)
  ]
]

start-Keeps : (a : Attempt) (id : String) (c : Bool) → Keeps a.state (start_call a id c).state
unfolding start_call
start-Keeps a id c =
    elim (Bool-cases (is_claimed a.state id || is_some (get id a.state.catalog_calls))) [
      | inl e ↦ rw e (mark-Keeps a display_tool_lifecycle false false)
      | inr e ↦ rw e (
          Keeps-trans a.state (with_catalog_if c).state _ (first c) (
            Keeps-trans (with_catalog_if c).state (announce (with_catalog_if c) id).state _
              (announce-Keeps (with_catalog_if c) id)
              (mark-Keeps (announce (with_catalog_if c) id) display_tool_lifecycle true false)))
    ]
  where
    with_catalog_if : Bool → Attempt
    with_catalog_if c = if c then with_catalog a id CatalogState.started else a

    first : (c : Bool) → Keeps a.state (with_catalog_if c).state
    first true = catalog-Keeps a id CatalogState.started
    first false = Keeps-refl a.state

pub lifecycle-Keeps :
    (a : Attempt) (l : Option Lifecycle) → Keeps a.state (record_tool_lifecycle a l).state
unfolding record_tool_lifecycle
lifecycle-Keeps a none = mark-Keeps a display_tool_lifecycle false false
lifecycle-Keeps a (some l) = by_kind l.kind
  where
    by_kind :
        (k : LifecycleKind)
        → Keeps a.state
            (elim k as (λ _. Attempt) [
              | LifecycleKind.started ↦ start_call a l.call_id l.catalog
              | LifecycleKind.completed ↦ complete_call a l.call_id l.catalog
            ]).state
    by_kind LifecycleKind.started = start-Keeps a l.call_id l.catalog
    by_kind LifecycleKind.completed = complete-Keeps a l.call_id l.catalog

pub exec-Keeps :
    (a : Attempt) (id : Option ℕ) (c : Option String) → Keeps a.state (record_exec a id c).state
unfolding record_exec is_claimed
exec-Keeps a none c = unsafe-Keeps a
exec-Keeps a (some n) c = elim (Bool-cases (any (same_exec a.session_id n) a.state.execs)) [
  | inl e ↦ rw e (unsafe-Keeps a)
  | inr e ↦ rw e (record {
    barrier = λ r h. h;
    unsafe = λ h. h;
    announced = λ id h. h;
    claimed = λ id h. any-append (claims id) a.state.execs _ h;
  })
]

abbrev with_appended : Attempt → AppendedInjection → Attempt
with_appended a i = record a {
  state = record (a.state) { appended_injections = a.state.appended_injections ++ (i ∷ []) };
}

appended-Keeps : (a : Attempt) (i : AppendedInjection) → Keeps a.state (with_appended a i).state
unfolding is_claimed
appended-Keeps a i = record {
  barrier = λ r h. h;
  unsafe = λ h. h;
  announced = λ id h. h;
  claimed = λ id h. h;
}

pub message-Keeps :
    (a : Attempt) (m : Option AppendedInjection) → Keeps a.state (record_appended_message a m).state
unfolding record_appended_message
message-Keeps a none = mark-Keeps a stateful_interaction false false
message-Keeps a (some i) =
    elim (Bool-cases (leb max_appended_injections (length a.state.appended_injections))) [
      | inl e ↦ rw e (mark-Keeps a stateful_interaction false false)
      | inr e ↦ rw e (
          Keeps-trans a.state (with_appended a i).state _ (appended-Keeps a i)
            (mark-Keeps (with_appended a i) stateful_interaction true true))
    ]
