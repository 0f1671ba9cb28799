-- ===== src/Sessions/Pump.antt =====
-- src/session.ts: the pump's ownership of a Run, the end of its stream, and the routes of early tool rows. The
-- heartbeat is left out.
use cursor_opencode_provider.Base.{
  ℕ, String, Bool, true, false, not, ◌&&◌, ◌||◌, Option, none, some, List, [], ◌∷◌, nat_beq,
  if◌then◌else◌, is_some, length, all, string_eq, nat_eq,
}
use cursor_opencode_provider.Sessions.State.{
  TerminalReason, PendingExec, Session, ExecKey, exec_eq, Manager, Host, put_session,
  hard_deadline_expired, refresh_all, schedule_hard_deadline, put_tombstone, hard_cap_expired,
  remote_clean_close, remote_error, process_disposed, terminal,
}
use cursor_opencode_provider.Sessions.{close, session_of}
use cursor_opencode_provider.Sessions.Registry.{register_session}
use cursor_opencode_provider.JsMap.{Map, get, delete, touch, evict}

abbrev pub other_owner : ℕ → Option ℕ → Bool
other_owner owner none = false
other_owner owner (some held) = not (nat_beq held owner)

-- No result for a closed session, or one that another pump owns, which are errors.
unfoldable pub begin_pump : Host → ℕ → Session → ℕ → Manager → Option Manager
unfolding register_session
begin_pump h now s owner m = elim (register_session h now s m) [
  | none ↦ none
  | some registered ↦
      if other_owner owner s.pump_owner
      then none
      else some (
          put_session s.session_id
            (record s {
              pump_owner = some owner;
              pump_active = true;
              answered_continuation = false;
            })
            registered)
]

-- Nothing is owed but steps that Cursor has the replies of.
abbrev pub holds_only_answered_work : Session → Bool
holds_only_answered_work s =
    if s.is_host_interrupted
    then false
    else if nat_beq (length s.pendings) 0
    then s.answered_continuation
    else all (λ (entry : ℕ × PendingExec). entry.1.answered) s.pendings

abbrev pub is_clean_close : Option TerminalReason → Bool
is_clean_close (some remote_clean_close) = true
is_clean_close _ = false

abbrev pub hold_after_clean_close : Session → Session
hold_after_clean_close s = record s { deferred_terminal_reason = some remote_clean_close }

-- The reason that was deferred while the pump ran closes the Run now, unless it is kept or its cancel will.
abbrev pub close_deferred : Host → ℕ → Session → Option TerminalReason → Manager → Manager
unfolding close
close_deferred h now s none m = m
close_deferred h now s (some why) m =
    if s.is_host_interrupted then m else close h now s.session_id (terminal why) m

unfoldable pub end_pump : Host → ℕ → String → ℕ → Manager → Manager × Bool
unfolding close_deferred
end_pump h now id owner m = elim (get id m.objects) [
  | none ↦ (m, false)
  | some s ↦
      if other_owner owner s.pump_owner || not (is_some s.pump_owner)
      then (m, false)
      else let freed = record s {
        pump_owner = none;
        pump_active = false;
        deferred_terminal_reason = none;
      } in
        if is_clean_close s.deferred_terminal_reason && holds_only_answered_work freed
        then (put_session id (hold_after_clean_close freed) m, true)
        else (close_deferred h now freed s.deferred_terminal_reason (put_session id freed m), true)
]

pub data TerminalEvent : Type 0 where
  local_close clean_close error_close : TerminalEvent

abbrev pub event_reason : TerminalEvent → TerminalReason
event_reason local_close = remote_clean_close
event_reason clean_close = remote_clean_close
event_reason error_close = remote_error

abbrev pub is_local : TerminalEvent → Bool
is_local local_close = true
is_local clean_close = false
is_local error_close = false

unfoldable pub on_stream_terminal : Host → ℕ → String → TerminalEvent → Manager → Manager
unfolding close
on_stream_terminal h now id event m = elim (get id m.objects) [
  | none ↦ m
  | some s ↦
      if is_local event || s.closed
      then m
      else if is_clean_close (some (event_reason event))
          && (not (is_some s.pump_owner) && holds_only_answered_work s)
      then put_session id (hold_after_clean_close s) m
      else if is_some s.pump_owner || s.is_host_interrupted
      then put_session id (record s { deferred_terminal_reason = some (event_reason event) }) m
      else close h now id (terminal (event_reason event)) m
]

-- An exec whose result was delivered elsewhere.
unfoldable pub resolve : Host → ℕ → String → ℕ → Manager → Manager
unfolding put_tombstone schedule_hard_deadline
resolve h now id exec m =
    let settled : Manager = elim (session_of (id, exec) m) [
      | none ↦ m
      | some s ↦
          put_session id
            (schedule_hard_deadline h now (record s { pendings = delete exec s.pendings }))
            (put_tombstone h now (id, exec) none m)
    ] in
    record settled { by_exec_id = delete (id, exec) settled.by_exec_id }

abbrev pub bind_tool_call : Host → String → String → ℕ → Manager → Manager
bind_tool_call h call id exec m = record m {
  tool_call_routes = evict h.tombstone_limit (touch call (id, exec) m.tool_call_routes);
}

abbrev pub tool_call_exec : String → Manager → Option ExecKey
tool_call_exec call m = get call m.tool_call_routes

abbrev pub any_expired : Host → ℕ → Session → Map ℕ PendingExec → Bool
unfolding hard_deadline_expired
any_expired h now s [] = false
any_expired h now s ((id, p) ∷ m) = hard_deadline_expired h now s p || any_expired h now s m

-- One Run of the sweep: it is closed at its cap, and otherwise its leases are as they were looked at.
abbrev pub sweep_session : Host → ℕ → String → Manager → Manager
unfolding any_expired close refresh_all
sweep_session h now id m = elim (get id m.objects) [
  | none ↦ m
  | some s ↦
      if s.closed
      then m
      else if any_expired h now s s.pendings
      then close h now id (terminal hard_cap_expired) m
      else put_session id (record s { pendings = refresh_all h now s s.pendings }) m
]

abbrev pub sweep_each : Host → ℕ → List String → Manager → Manager
unfolding sweep_session
sweep_each h now [] m = m
sweep_each h now (id ∷ ids) m = sweep_each h now ids (sweep_session h now id m)

pub sweep_hard_deadlines : Host → ℕ → Manager → Manager
unfolding sweep_each
sweep_hard_deadlines h now m = sweep_each h now m.sessions m

unfoldable pub close_each : Host → ℕ → List String → Manager → Manager
unfolding close
close_each h now [] m = m
close_each h now (id ∷ ids) m = close_each h now ids (close h now id (terminal process_disposed) m)

unfoldable pub dispose : Host → ℕ → Manager → Manager
unfolding close_each
dispose h now m =
    let ended = close_each h now m.sessions m in
    record ended { by_exec_id = []; tool_call_routes = [] }
