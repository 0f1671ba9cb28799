-- ===== src/Sessions/Registry.antt =====
-- src/session.ts: the operations of the registry on whole Runs: registerSession with its cap, registerPending, and
-- the operations that drop what a Run waits for.
use cursor_opencode_provider.Base.{
  ◌+◌, ℕ, zero, suc, String, Bool, true, false, not, ◌&&◌, ◌||◌, Option, none, some, List, [], ◌∷◌,
  ◌++◌, ltb, leb, nat_beq, if◌then◌else◌, length, any, all, ◌==◌, string_eq, nat_eq,
}
use cursor_opencode_provider.Sessions.State.{
  PendingExec, Session, exec_eq, Manager, Host, put_session, schedule_hard_deadline, put_tombstone,
  record_semantic_progress, is_pumping, pending, claimed, delivered, host_interrupted,
  superseded_by_new_run, open_session_cap_exceeded, terminal, ordinary_cleanup,
}
use cursor_opencode_provider.Sessions.{drop_pendings, mark_for, close, set_pending}
use cursor_opencode_provider.JsMap.{Map, get, set, delete}

-- What needs no write to Cursor is dropped as delivered, but for what is being delivered.
abbrev pub settles : PendingExec → Bool
settles p =
    (p.bridged || (p.aborted || p.answered))
    && elim p.state [ pending ↦ true | claimed ↦ false | delivered ↦ true ]

abbrev pub kept_pendings : Map ℕ PendingExec → Map ℕ PendingExec
kept_pendings [] = []
kept_pendings ((id, p) ∷ m) =
    let rest = kept_pendings m in if settles p then rest else (id, p) ∷ rest

abbrev pub settled_pendings : Map ℕ PendingExec → Map ℕ PendingExec
settled_pendings [] = []
settled_pendings ((id, p) ∷ m) =
    let rest = settled_pendings m in if settles p then (id, p) ∷ rest else rest

unfoldable pub unroute : Host → ℕ → String → Map ℕ PendingExec → Manager → Manager
unfolding put_tombstone
unroute h now id [] m = m
unroute h now id ((exec, p) ∷ rest) m =
    let marked = put_tombstone h now (id, exec) none m in
    unroute h now id rest (record marked { by_exec_id = delete (id, exec) marked.by_exec_id })

-- After results were taken from a Run: progress if it waits for none, and the timer anew.
unfoldable pub after_taking : Host → ℕ → Session → Session
unfolding record_semantic_progress schedule_hard_deadline
after_taking h now s =
    schedule_hard_deadline h now
      (if nat_beq (length s.pendings) 0 then record_semantic_progress now s else s)

pub settle_bridged_pending : Host → ℕ → String → Manager → Manager × ℕ
unfolding unroute after_taking
settle_bridged_pending h now id m = elim (get id m.objects) [
  | none ↦ (m, 0)
  | some s ↦
      let settled = settled_pendings s.pendings in
      if s.closed || nat_beq (length settled) 0 then (m, 0) else (
        put_session id (after_taking h now (record s { pendings = kept_pendings s.pendings }))
            (unroute h now id settled m),
        length settled,
      )
]

-- Neither pumping nor waiting for a result that Cursor has not withdrawn.
abbrev pub is_idle : Session → Bool
is_idle s = not (is_pumping s) && all (λ (entry : ℕ × PendingExec). entry.1.aborted) s.pendings

-- The older of two, the first where they are of one time.
abbrev pub older : Session → Option Session → Session
older s none = s
older s (some t) = if leb s.created_at t.created_at then s else t

-- The oldest of the other idle sessions, the first in order among those of one time.
unfoldable pub oldest_idle : String → Map String Session → List String → Option Session
oldest_idle just objects [] = none
oldest_idle just objects (id ∷ ids) =
    let rest = oldest_idle just objects ids in
    elim (get id objects) [
      | none ↦ rest
      | some s ↦ if not (id == just) && is_idle s then some (older s rest) else rest
    ]

-- On fuel: each round closes a session.
unfoldable pub enforce_cap_loop : ℕ → Host → ℕ → String → Manager → Manager
unfolding oldest_idle
enforce_cap_loop zero h now just m = m
enforce_cap_loop (suc fuel) h now just m =
    if ltb h.max_open_sessions (length m.sessions)
    then elim (oldest_idle just m.objects m.sessions) [
      | none ↦ m
      | some s ↦
          enforce_cap_loop fuel h now just
            (close h now s.session_id (terminal open_session_cap_exceeded) m)
    ]
    else m

unfoldable pub enforce_open_session_cap : Host → ℕ → String → Manager → Manager
unfolding enforce_cap_loop
enforce_open_session_cap h now just m = enforce_cap_loop (length m.sessions) h now just m

-- The prior Run of the same OpenCode session: it stays if it is pumping or still owes a result.
pub supersede : Host → ℕ → String → String → Manager → Manager
unfolding settle_bridged_pending
supersede h now just prior m = elim (get prior m.objects) [
  | none ↦ m
  | some p ↦
      if prior == just || (p.closed || is_pumping p)
      then m
      else let settled = (settle_bridged_pending h now prior m).0 in
        elim (get prior settled.objects) [
          | none ↦ settled
          | some q ↦
              if nat_beq (length q.pendings) 0
              then close h now prior (terminal superseded_by_new_run) settled
              else settled
        ]
]

abbrev pub take_over : Host → ℕ → Session → Manager → Manager
unfolding supersede
take_over h now s m = elim s.open_code_session_id [
  | none ↦ m
  | some owner ↦
      let cleared : Manager = elim (get owner m.by_open_code_session_id) [
        | none ↦ m
        | some prior ↦ supersede h now s.session_id prior m
      ] in
      record cleared {
        by_open_code_session_id = set owner s.session_id cleared.by_open_code_session_id;
      }
]

-- No result for a closed session, which is an error.
unfoldable pub register_session : Host → ℕ → Session → Manager → Option Manager
unfolding take_over enforce_open_session_cap
register_session h now s m =
    if s.closed
    then none
    else if any (λ (k : String). k == s.session_id) m.sessions
    then some m
    else let added =
        put_session s.session_id s (record m { sessions = m.sessions ++ (s.session_id ∷ []) }) in
      some (enforce_open_session_cap h now s.session_id (take_over h now s added))

abbrev pub new_pending :
    ℕ → Session → String → Option String → Bool → Option String → Bool → ℕ → PendingExec
new_pending now s field name is_bridged directory is_answered number = record {
  result_field = field;
  tool_name = name;
  managed_job_directory = directory;
  state = pending;
  registered_at = now;
  hard_deadline_at = now + s.hard_cap_ms;
  bridged = is_bridged;
  aborted = false;
  answered = is_answered;
  is_delivering = false;
  object = number;
}

abbrev pub add_pending : Host → ℕ → String → ℕ → PendingExec → Session → Manager → Manager
unfolding schedule_hard_deadline
add_pending h now id exec p s m =
    put_session id (schedule_hard_deadline h now (set_pending exec p s)) (record m {
      tombstones = delete (id, exec) m.tombstones;
      by_exec_id = set (id, exec) id m.by_exec_id;
      next_object = suc m.next_object;
    })

-- For a session that is not registered yet or is, with its current state in `s`.
pub register_pending :
    Host
    → ℕ
    → ℕ
    → Session
    → String
    → Option String
    → Bool
    → Option String
    → Bool
    → Manager
    → Option Manager
unfolding register_session add_pending
register_pending h now exec s field name is_bridged directory is_answered m =
    elim (register_session h now s m) [
      | none ↦ none
      | some registered ↦ some (
          add_pending h now s.session_id exec
            (new_pending now s field name is_bridged directory is_answered registered.next_object) s
            registered)
    ]

pub abandon_pending : Host → ℕ → String → Manager → Manager × ℕ
unfolding schedule_hard_deadline
abandon_pending h now id m = elim (get id m.objects) [
  | none ↦ (m, 0)
  | some s ↦ if s.closed then (m, 0) else (
    put_session id (schedule_hard_deadline h now (record s { pendings = [] }))
        (drop_pendings (mark_for h now (terminal host_interrupted)) id s.pendings m),
    length s.pendings,
  )
]

abbrev pub is_pending : PendingExec → Bool
is_pending p = elim p.state [ pending ↦ true | claimed ↦ false | delivered ↦ false ]

-- `number` names the entry that the caller holds.
pub forget_held_exec : Host → ℕ → String → ℕ → ℕ → Manager → Manager × Bool
unfolding after_taking
forget_held_exec h now id exec number m = elim (get id m.objects) [
  | none ↦ (m, false)
  | some s ↦ elim (get exec s.pendings) [
    | none ↦ (m, false)
    | some p ↦
        if s.closed || (not (nat_beq p.object number) || (not (is_pending p) || p.aborted))
        then (m, false)
        else (
          put_session id (after_taking h now (record s { pendings = delete exec s.pendings }))
              (record m { by_exec_id = delete (id, exec) m.by_exec_id }),
          true,
        )
  ]
]

pub mark_exec_aborted : String → ℕ → Manager → Manager × Bool
mark_exec_aborted id exec m = elim (get id m.objects) [
  | none ↦ (m, false)
  | some s ↦ elim (get exec s.pendings) [
    | none ↦ (m, false)
    | some p ↦
        if s.closed || (p.bridged || (p.aborted || (p.answered || not (is_pending p))))
        then (m, false)
        else (put_session id (set_pending exec (record p { aborted = true }) s) m, true)
  ]
]

pub close_unless_pending : Host → ℕ → String → Manager → Manager × Bool
close_unless_pending h now id m = elim (get id m.objects) [
  | none ↦ (m, true)
  | some s ↦
      if s.closed
      then (m, true)
      else if ltb 0 (length s.pendings) || is_pumping s
      then (m, false)
      else (close h now id ordinary_cleanup m, true)
]
