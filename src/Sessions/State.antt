-- ===== src/Sessions/State.antt =====
-- src/session.ts: the data of the registry, the tombstones and the deadlines.
use mathlib.Core.Option
use cursor_opencode_provider.Base.{
  ◌+◌, ◌-◌, min, ℕ, String, ◌≡◌, ◌↔◌, Bool, true, ◌&&◌, ◌||◌, Option, none, some, List, [], ◌∷◌,
  arith, ltb, leb, nat_beq, if◌then◌else◌, nat_beq_iff, is_some, Eq, ◌==◌, string_eq, nat_eq,
}
use cursor_opencode_provider.JsMap.{Map, get, set, delete, touch, evict}

pub data PendingExecState : Type 0 where
  pending claimed delivered : PendingExecState

pub data TerminalReason : Type 0 where
  host_interrupted hard_cap_expired remote_clean_close remote_error : TerminalReason
  result_write_failed ambiguous_partial_write heartbeat_write_failed : TerminalReason
  reply_write_failed process_disposed superseded_by_new_run open_session_cap_exceeded :
      TerminalReason

pub data CloseReason : Type 0 where
  terminal : TerminalReason → CloseReason
  ordinary_cleanup turn_ended initial_write_failed : CloseReason

-- `object` stands for the object's identity, `is_delivering` for its place in the set `delivering`.
pub record PendingExec : Type 0 where
  pub result_field : String
  pub tool_name : Option String
  pub managed_job_directory : Option String
  pub state : PendingExecState
  pub registered_at : ℕ
  pub hard_deadline_at : ℕ
  pub bridged : Bool
  pub aborted : Bool
  pub answered : Bool
  pub is_delivering : Bool
  pub object : ℕ

-- An absent OpenCode session id stands for an empty one too. `hard_deadline_timer` is the delay of the timer.
pub record Session : Type 0 where
  pub session_id : String
  pub open_code_session_id : Option String
  pub pendings : Map ℕ PendingExec
  pub pump_owner : Option ℕ
  pub pump_active : Bool
  pub closed : Bool
  pub stream_is_closed : Bool
  pub answered_continuation : Bool
  pub deferred_terminal_reason : Option TerminalReason
  pub is_host_interrupted : Bool
  pub semantic_idle_ms : ℕ
  pub hard_cap_ms : ℕ
  pub created_at : ℕ
  pub last_inbound_at : ℕ
  pub semantic_deadline_at : ℕ
  pub expires_at : Option ℕ
  pub hard_deadline_timer : Option ℕ

-- No reason stands for "delivered".
pub record Tombstone : Type 0 where
  pub reason : Option TerminalReason
  pub expires_at : ℕ

abbrev pub ExecKey : Type 0
ExecKey = String × ℕ

abbrev pub same_exec : ExecKey → ExecKey → Bool
same_exec (s, e) (t, f) = (s == t) && nat_beq e f

pub same_exec_iff : (k j : ExecKey) → (same_exec k j ≡ true) ↔ (k ≡ j)
same_exec_iff (s, e) (t, f) = ground (arith, string_eq.beq_iff s t, nat_beq_iff e f)

instance abbrev pub exec_eq : Eq ExecKey
exec_eq = record { beq_iff = same_exec_iff; beq = same_exec }

-- `objects` holds every session that was registered, by its id; `sessions` names the open ones, oldest first.
-- `released` lists the directories of the terminals that were released.
pub record Manager : Type 0 where
  pub objects : Map String Session
  pub sessions : List String
  pub by_exec_id : Map ExecKey String
  pub by_open_code_session_id : Map String String
  pub tombstones : Map ExecKey Tombstone
  pub tool_call_routes : Map String ExecKey
  pub next_object : ℕ
  pub released : List String

-- The activity of the host's sessions (src/activity.ts), and the limits that the registry was made with.
pub record Host : Type 0 where
  pub last_activity_at : String → Option ℕ
  pub running_tool_deadline : String → ℕ → ℕ → Option ℕ
  pub tombstone_ttl_ms : ℕ
  pub tombstone_limit : ℕ
  pub max_open_sessions : ℕ

abbrev pub put_session : String → Session → Manager → Manager
put_session id s m = record m { objects = set id s m.objects }

-- A later deadline replaces the one that is held.
abbrev pub renew : Option ℕ → PendingExec → PendingExec
renew none p = p
renew (some at) p = if ltb p.hard_deadline_at at then record p { hard_deadline_at = at } else p

abbrev pub running_tool_cap_ms : ℕ
running_tool_cap_ms = 14400000

abbrev pub activity_deadline : Host → Session → String → PendingExec → Option ℕ
activity_deadline h s id p = elim (h.last_activity_at id) [
  | none ↦ none
  | some at ↦ if ltb p.registered_at at then some (at + s.hard_cap_ms) else none
]

abbrev pub tool_deadline : Host → ℕ → Session → String → Option ℕ
tool_deadline h now s id =
    Option.map (λ cap. min (now + s.hard_cap_ms) cap)
      (h.running_tool_deadline id now running_tool_cap_ms)

unfoldable pub refresh_hard_deadline : Host → ℕ → Session → PendingExec → PendingExec
refresh_hard_deadline h now s p = elim s.open_code_session_id [
  | none ↦ p
  | some id ↦ renew (tool_deadline h now s id) (renew (activity_deadline h s id p) p)
]

unfoldable pub hard_deadline_expired : Host → ℕ → Session → PendingExec → Bool
unfolding refresh_hard_deadline
hard_deadline_expired h now s p = leb (refresh_hard_deadline h now s p).hard_deadline_at now

unfoldable pub refresh_all : Host → ℕ → Session → Map ℕ PendingExec → Map ℕ PendingExec
unfolding refresh_hard_deadline
refresh_all h now s [] = []
refresh_all h now s ((id, p) ∷ m) = (id, refresh_hard_deadline h now s p) ∷ refresh_all h now s m

-- The delay to the earliest deadline; none without a result to wait for.
abbrev pub earliest : Map ℕ PendingExec → Option ℕ
earliest [] = none
earliest ((id, p) ∷ m) = elim (earliest m) [
  | none ↦ some p.hard_deadline_at
  | some at ↦ some (min p.hard_deadline_at at)
]

unfoldable pub schedule_hard_deadline : Host → ℕ → Session → Session
unfolding refresh_all
schedule_hard_deadline h now s =
    if s.closed
    then record s { hard_deadline_timer = none }
    else let refreshed = refresh_all h now s s.pendings in
      record s {
        pendings = refreshed;
        hard_deadline_timer = Option.map (λ at. at - now) (earliest refreshed);
      }

unfoldable pub put_tombstone : Host → ℕ → ExecKey → Option TerminalReason → Manager → Manager
put_tombstone h now key why m = record m {
  tombstones =
      evict h.tombstone_limit
        (touch key (record { reason = why; expires_at = now + h.tombstone_ttl_ms }) m.tombstones);
}

-- An expired one is deleted when it is read.
unfoldable pub get_tombstone : ℕ → ExecKey → Manager → Manager × Option Tombstone
get_tombstone now key m = elim (get key m.tombstones) [
  | none ↦ (m, none)
  | some t ↦
      if leb t.expires_at now
      then (record m { tombstones = delete key m.tombstones }, none)
      else (m, some t)
]

unfoldable pub record_semantic_progress : ℕ → Session → Session
record_semantic_progress now s =
    if s.closed
    then s
    else record s { last_inbound_at = now; semantic_deadline_at = now + s.semantic_idle_ms }

abbrev pub is_pumping : Session → Bool
is_pumping s = is_some s.pump_owner || s.pump_active
