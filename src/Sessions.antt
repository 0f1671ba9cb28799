-- ===== src/Sessions.antt =====
-- src/session.ts: the registry of the open Runs (SessionManager) and the host results that they wait for. A
-- session and a pending result are objects: a session is known by its id, which is unique, a pending result by a
-- number. What the session's streams, frames and blobs hold is left out. The clock is an argument.
pub mod State
pub mod Registry
pub mod Taking
pub mod Once
pub mod Claims
pub mod Cap
pub mod Policy
pub mod Pump
pub mod Ends
pub mod Delivery
pub mod Delivered
pub mod Accepted
pub mod Capped
mod Tests
use mathlib.Core.Option
use cursor_opencode_provider.Base.{
  ◌+◌, ◌-◌, ◌*◌, ◌/◌, ◌%◌, ◌^◌, ◌≤◌, ◌<◌, min, max, ℕ, zero, suc, String, ◌≡◌, refl, sym, ap, ◌∙◌,
  subst, ◌≢◌, ◌↔◌, ◌⊎◌, inl, inr, Bool, true, false, not, ◌&&◌, ◌||◌, Option, none, some, List, [],
  ◌∷◌, ◌++◌, map, arith, ltb, leb, nat_beq, if◌then◌else◌, ltb→lt, lt→ltb, leb→le, nat_beq_iff,
  Bool-cases, Option-cases, is_some, get_or, length, take, drop, any, all, filter, length-append,
  length-filter-le, take-append-drop, length-take, length-drop, take-append, drop-append, All,
  All-append, All-filter, Eq, ◌==◌, eq_refl, string_eq, nat_eq,
}
use cursor_opencode_provider.Sessions.State.{
  PendingExecState, TerminalReason, CloseReason, PendingExec, Session, Tombstone, ExecKey,
  same_exec_iff, exec_eq, Manager, Host, put_session, renew, running_tool_cap_ms, activity_deadline,
  tool_deadline, refresh_hard_deadline, hard_deadline_expired, refresh_all, earliest,
  schedule_hard_deadline, put_tombstone, get_tombstone, record_semantic_progress, is_pumping,
  pending, claimed, delivered, host_interrupted, hard_cap_expired, remote_clean_close, remote_error,
  result_write_failed, ambiguous_partial_write, heartbeat_write_failed, reply_write_failed,
  process_disposed, superseded_by_new_run, open_session_cap_exceeded, terminal, ordinary_cleanup,
  turn_ended, initial_write_failed,
}
use cursor_opencode_provider.JsMap.{Map, get, set, delete, touch, evict}

-- The entries of a Run that ends: their terminals are released, and `mark` writes the tombstones.
abbrev pub drop_pendings :
    (ExecKey → Manager → Manager) → String → Map ℕ PendingExec → Manager → Manager
drop_pendings mark id [] m = m
drop_pendings mark id ((exec, p) ∷ rest) m = drop_pendings mark id rest (
    mark (id, exec)
      (record m {
        by_exec_id = delete (id, exec) m.by_exec_id;
        released = elim p.managed_job_directory [
          | none ↦ m.released
          | some directory ↦ m.released ++ (directory ∷ [])
        ];
      }))

abbrev pub mark_for : Host → ℕ → CloseReason → ExecKey → Manager → Manager
unfolding put_tombstone
mark_for h now (terminal why) key m = put_tombstone h now key (some why) m
mark_for h now _ key m = m

abbrev pub closed_session : Session → Session
closed_session s = record s {
  closed = true;
  hard_deadline_timer = none;
  deferred_terminal_reason = none;
  pendings = [];
  pump_owner = none;
  pump_active = false;
  stream_is_closed = true;
}

-- The newest session of an OpenCode session is forgotten if it is this one.
abbrev pub forget_newest : Session → Map String String → Map String String
forget_newest s m = elim s.open_code_session_id [
  | none ↦ m
  | some id ↦ elim (get id m) [
    | none ↦ m
    | some newest ↦ if newest == s.session_id then delete id m else m
  ]
]

abbrev pub close_session : Host → ℕ → CloseReason → String → Session → Manager → Manager
close_session h now why id s m =
    let dropped = drop_pendings (mark_for h now why) id s.pendings m in
    record dropped {
      objects = set id (closed_session s) dropped.objects;
      sessions = filter (λ (k : String). not (k == id)) dropped.sessions;
      by_open_code_session_id = forget_newest s dropped.by_open_code_session_id;
    }

unfoldable pub close : Host → ℕ → String → CloseReason → Manager → Manager
unfolding mark_for
close h now id why m = elim (get id m.objects) [
  | none ↦ m
  | some s ↦ if s.closed then m else close_session h now why id s m
]

pub data Classification : Type 0 where
  deliverable : Session → PendingExec → Classification
  in_flight already_delivered missing : Classification
  ended : TerminalReason → Classification

-- What the tombstone of an exec says.
abbrev pub classify_tombstone : ℕ → ExecKey → Manager → Manager × Classification
unfolding get_tombstone
classify_tombstone now key m =
    let (read, found) = get_tombstone now key m in
    (
      read,
      elim found [
        | none ↦ missing
        | some t ↦ elim t.reason [ none ↦ already_delivered | some why ↦ ended why ]
      ],
    )

abbrev pub legacy_expired : ℕ → Session → Bool
legacy_expired now s = elim s.expires_at [ none ↦ false | some at ↦ leb at now ]

abbrev pub set_pending : ℕ → PendingExec → Session → Session
set_pending exec p s = record s { pendings = set exec p s.pendings }

-- A pending result of an open Run, which the look at its deadline may have renewed.
abbrev pub classify_pending :
    Host → ℕ → String → Session → ℕ → PendingExec → Manager → Manager × Classification
unfolding hard_deadline_expired close
classify_pending h now id s exec p m =
    let renewed = refresh_hard_deadline h now s p in
    let kept = set_pending exec renewed s in
    if hard_deadline_expired h now s p
    then classify_tombstone now (id, exec) (close h now id (terminal hard_cap_expired) m)
    else (
      put_session id kept m,
      elim p.state [
        | pending ↦ deliverable kept renewed
        | claimed ↦ in_flight
        | delivered ↦ already_delivered
      ],
    )

abbrev pub is_unusable : ℕ → Session → PendingExec → Bool
is_unusable now s p = s.closed || ((s.stream_is_closed && not p.answered) || legacy_expired now s)

-- The route of an exec that no Run can take: it is deleted, and the Run is closed.
abbrev pub classify_lost : Host → ℕ → String → Session → ℕ → Manager → Manager × Classification
unfolding close
classify_lost h now id s exec m =
    let unrouted = record m { by_exec_id = delete (id, exec) m.by_exec_id } in
    classify_tombstone now (id, exec)
      (if s.closed then unrouted else close h now id (terminal remote_clean_close) unrouted)

-- The session that an exec is routed to is the one whose id is in the key.
abbrev pub session_of : ExecKey → Manager → Option Session
session_of (id, exec) m = elim (get (id, exec) m.by_exec_id) [
  | none ↦ none
  | some owner ↦ get id m.objects
]

unfoldable pub classify : Host → ℕ → String → ℕ → Manager → Manager × Classification
unfolding classify_pending classify_lost classify_tombstone
classify h now id exec m = elim (session_of (id, exec) m) [
  | none ↦ classify_tombstone now (id, exec) m
  | some s ↦ elim (get exec s.pendings) [
    | none ↦ classify_lost h now id s exec m
    | some p ↦
        if is_unusable now s p
        then classify_lost h now id s exec m
        else classify_pending h now id s exec p m
  ]
]

pub record Claim : Type 0 where
  pub session_id : String
  pub exec_id : ℕ
  pub object : ℕ

-- The claim, or why there is none.
pub data Claimed : Type 0 where
  claim_of : Claim → Claimed
  refused : Classification → Claimed

abbrev pub claim_pending : String → ℕ → Session → PendingExec → Manager → Manager × Claimed
claim_pending id exec s p m = (
  put_session id (set_pending exec (record p { state = claimed }) s) m,
  claim_of (record { session_id = id; exec_id = exec; object = p.object }),
)

abbrev pub finish_claim : String → ℕ → Manager → Classification → Manager × Claimed
finish_claim id exec m (deliverable s p) = claim_pending id exec s p m
finish_claim id exec m in_flight = (m, refused in_flight)
finish_claim id exec m already_delivered = (m, refused already_delivered)
finish_claim id exec m missing = (m, refused missing)
finish_claim id exec m (ended why) = (m, refused (ended why))

unfoldable pub claim : Host → ℕ → String → ℕ → Manager → Manager × Claimed
unfolding classify
claim h now id exec m =
    let (read, found) = classify h now id exec m in finish_claim id exec read found
