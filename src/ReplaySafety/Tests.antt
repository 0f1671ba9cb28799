-- ===== src/ReplaySafety/Tests.antt =====
-- A Run that shows a tool call, is retried, and gets an echo of its steer; the theorems at it.
use cursor_opencode_provider.Base.{
  ◌+◌, ℕ, ◌≡◌, refl, ◌⊎◌, true, false, none, some, [], ◌∷◌, length, string_eq, nat_eq,
}
use cursor_opencode_provider.JsMap.{get}
use cursor_opencode_provider.ReplaySafety.{
  appended_of, visible_text, stateful_interaction, Kind, Injection, AppendedInjection,
  AppendedMessage, SafetyState, Attempt, Lifecycle, LifecycleKind, Failure, new_attempt,
  mark_barrier, mark, apply_to, is_claimed, is_completed, announced_calls_claimed,
  record_tool_lifecycle, start_call, complete_call, record_exec, take_appended_injection,
  take_first,
}
use cursor_opencode_provider.ReplaySafety.Displays.{
  shows, executes, retries, marks, after_event, after_events, started-is_claimed,
  mark_barrier-never_replay_safe,
}
use cursor_opencode_provider.ReplaySafety.Injections.{IsMatch, take_appended_injection-IsMatch}

replay : Unit {0}
unfolding new_attempt mark_barrier mark apply_to is_claimed announced_calls_claimed
    record_tool_lifecycle start_call complete_call record_exec after_events after_event take_first
    take_appended_injection
replay = tt

abbrev nothing : SafetyState
nothing = record {
  stateful_barrier = none;
  execs = [];
  announced_calls = [];
  catalog_calls = [];
  history_rebase_unsafe = false;
  appended_injections = [];
}

abbrev fresh : Attempt
fresh = new_attempt "s" nothing

abbrev reads : Lifecycle
reads = record { kind = LifecycleKind.started; call_id = "read"; catalog = false }

abbrev failed : Failure
failed = record { replay_safe = true; replay_barrier = none; replay_barrier_echoes_only = false }

-- Text that was shown is a barrier of its own attempt, and of no other.
output_only :
    ((apply_to (after_events fresh (marks visible_text ∷ [])) failed).replay_safe ≡ false)
    × ((apply_to (after_events fresh (marks visible_text ∷ retries "s" ∷ [])) failed).replay_safe
        ≡ true)
unfolding replay
output_only = (refl, refl)

started-is_claimed_example :
    let s =
      (after_events
        (after_event fresh (shows (some reads)))
        (executes (some 4) (some "read") ∷ [])).state in
    (is_claimed s "read" ≡ true) ⊎ (is_completed (get "read" s.catalog_calls) ≡ true)
unfolding replay
started-is_claimed_example =
    started-is_claimed fresh reads (executes (some 4) (some "read") ∷ []) refl refl refl

mark_barrier-never_replay_safe_example :
    (apply_to
      (after_events
        (mark_barrier fresh stateful_interaction)
        (marks visible_text ∷ retries "t" ∷ executes (some 5) none ∷ []))
      failed).replay_safe
    ≡ false
mark_barrier-never_replay_safe_example =
    mark_barrier-never_replay_safe fresh stateful_interaction
      (marks visible_text ∷ retries "t" ∷ executes (some 5) none ∷ []) failed refl

abbrev steered : Injection
steered = record {
  kind = Kind.steer;
  injection_id = "i";
  message_id = "m";
  text = "stop";
  notes = [];
  delivered = true;
}

abbrev echo : AppendedMessage
echo = record { message_id = "m"; text = "stop" }

take_appended_injection-IsMatch_example :
    (x : Injection) × (appended_of x ≡ AppendedInjection.steer "i")
    × IsMatch echo (steered ∷ []) x (take_appended_injection (steered ∷ []) (some echo)).0
    × (◌≡◌ {A = ℕ} 1 (length (take_appended_injection (steered ∷ []) (some echo)).0 + 1))
unfolding take_first take_appended_injection
take_appended_injection-IsMatch_example =
    take_appended_injection-IsMatch (steered ∷ []) echo (AppendedInjection.steer "i") refl
