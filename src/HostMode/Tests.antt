-- ===== src/HostMode/Tests.antt =====
-- A switch to the plan agent, queued by one Run and applied at its end.
use cursor_opencode_provider.Base.{
  String, ◌≡◌, refl, true, false, none, some, [], ◌∷◌, string_eq, nat_eq,
}
use cursor_opencode_provider.JsMap.{get}
use cursor_opencode_provider.HostMode.{
  State, Input, Pending, FlushOptions, attempted, flush_key, flush_finish,
  queue_host_agent_mode_switch, host_agent_for_cursor_mode, cursor_mode_spec,
  is_host_agent_handoff_pending, plan,
}
use cursor_opencode_provider.HostMode.Flush.{get-flush_finish}

abbrev same : String → String
same s = s

abbrev start : State
start = record {
  registrations = (record { id = 1; resumes_turn = true; accepts = none }) ∷ [];
  pending = [];
  applying = [];
  next = 0;
}

abbrev to_plan : Input
to_plan = record {
  session_id = "s";
  target_mode_id = "spec";
  cursor_session_id = some "run";
  host_agent = some "build";
}

unfoldable queued : State
unfolding queue_host_agent_mode_switch
queued = (queue_host_agent_mode_switch same same start to_plan).0

abbrev at_end : FlushOptions
at_end = record { run = some "run"; terminal = true; pump_active = false; pending_execs = 0 }

abbrev entry : Pending
entry = record {
  request = record { input = to_plan; agent = plan };
  owner = some "run";
  attempts = 0;
  serial = 0;
}

unfoldable running : State
unfolding flush_key
running = (flush_key queued "s" at_end).0

hands_off : is_host_agent_handoff_pending same same queued (some "s") "run" ≡ true
unfolding queued queue_host_agent_mode_switch host_agent_for_cursor_mode cursor_mode_spec
    is_host_agent_handoff_pending
hands_off = refl

calls : (flush_key queued "s" at_end).1 ≡ some (attempted entry)
unfolding queued queue_host_agent_mode_switch host_agent_for_cursor_mode cursor_mode_spec flush_key
calls = refl

still_queued : get "s" running.pending ≡ some (attempted entry)
unfolding running queued queue_host_agent_mode_switch host_agent_for_cursor_mode cursor_mode_spec
    flush_key
still_queued = refl

get-flush_finish_example : get "s" (flush_finish running "s" (attempted entry) true).pending ≡ none
get-flush_finish_example =
    get-flush_finish running "s" (attempted entry) (attempted entry) true still_queued
