-- ===== src/ReplaySafety.antt =====
-- src/replay-safety.ts, the Run-owned state and `AttemptReplaySafety`; the failure's fields are those
-- of src/errors.ts. The attempt holds the Run's state, which the next attempt takes over. An array
-- or a map that is still undefined is an empty one. Traces are left out.
pub mod Barriers
pub mod Displays
pub mod Injections
mod Tests
use cursor_opencode_provider.Base.{
  ◌+◌, ◌-◌, ◌*◌, ◌/◌, ◌%◌, ◌^◌, ◌≤◌, ◌<◌, min, max, ℕ, zero, suc, String, ◌≡◌, refl, sym, ap, ◌∙◌,
  subst, ◌≢◌, ◌↔◌, ◌⊎◌, inl, inr, Bool, true, false, not, ◌&&◌, ◌||◌, Option, none, some, List, [],
  ◌∷◌, ◌++◌, map, arith, ltb, leb, nat_beq, if◌then◌else◌, ltb→lt, lt→ltb, leb→le, nat_beq_iff,
  Bool-cases, Option-cases, is_some, get_or, length, take, drop, any, all, filter, length-append,
  length-filter-le, take-append-drop, length-take, length-drop, take-append, drop-append, All,
  All-append, All-filter, Eq, ◌==◌, eq_refl, string_eq, nat_eq,
}
use cursor_opencode_provider.JsMap.{Map, get, set}

pub data Reason : Type 0 where
  visible_text visible_reasoning visible_tool_row : Reason
  display_tool_lifecycle non_control_exec stateful_interaction unknown_or_malformed_frame : Reason

-- `OUTPUT_ONLY_BARRIERS.has(reason)`
abbrev pub is_output_only : Reason → Bool
is_output_only visible_text = true
is_output_only visible_reasoning = true
is_output_only visible_tool_row = true
is_output_only _ = false

abbrev pub is_non_control_exec : Reason → Bool
is_non_control_exec non_control_exec = true
is_non_control_exec _ = false

pub data Kind : Type 0 where
  steer note : Kind

pub record Injection : Type 0 where
  pub kind : Kind
  pub injection_id : String
  pub message_id : String
  pub text : String
  pub notes : List String
  pub delivered : Bool

pub data AppendedInjection : Type 0 where
  steer : String → AppendedInjection
  note : String → List String → AppendedInjection

pub record AppendedMessage : Type 0 where
  pub message_id : String
  pub text : String

abbrev pub max_run_injections : ℕ
max_run_injections = 64

abbrev pub max_appended_injections : ℕ
max_appended_injections = 128

-- `splice(0, length - MAX)` drops the oldest.
pub track_run_injection : List Injection → Injection → List Injection
track_run_injection injections injection =
    let pushed = injections ++ (injection ∷ []) in
    if ltb max_run_injections (length pushed)
    then drop (length pushed - max_run_injections) pushed
    else pushed

abbrev pub deliver : String → List Injection → List Injection
deliver id [] = []
deliver id (x ∷ xs) =
    if x.injection_id == id then record x { delivered = true } ∷ xs else x ∷ deliver id xs

-- An absent id, and an empty one, marks nothing.
pub mark_run_injection_delivered : List Injection → Option String → List Injection
mark_run_injection_delivered injections none = injections
mark_run_injection_delivered injections (some id) =
    if id == "" then injections else deliver id injections

abbrev pub appended_of : Injection → AppendedInjection
appended_of x = elim x.kind [
  | steer ↦ AppendedInjection.steer x.injection_id
  | note ↦ AppendedInjection.note x.injection_id x.notes
]

abbrev pub put_back :
    Injection → Option (Injection × List Injection) → Option (Injection × List Injection)
put_back x none = none
put_back x (some (y, ys)) = some (y, x ∷ ys)

-- The first candidate with the message's id decides; a match is taken out of the list.
pub take_first : List Injection → AppendedMessage → Option (Injection × List Injection)
take_first [] message = none
take_first (x ∷ xs) message =
    if x.message_id == message.message_id
    then if x.delivered && x.text == message.text then some (x, xs) else none
    else put_back x (take_first xs message)

pub take_appended_injection :
    List Injection → Option AppendedMessage → List Injection × Option AppendedInjection
take_appended_injection injections none = (injections, none)
take_appended_injection injections (some message) = elim (take_first injections message) [
  | none ↦ (injections, none)
  | some (x, rest) ↦ (rest, some (appended_of x))
]

pub record ExecClaim : Type 0 where
  pub session_id : String
  pub id : ℕ
  pub call_id : Option String

pub data CatalogState : Type 0 where
  started completed : CatalogState

pub record SafetyState : Type 0 where
  pub stateful_barrier : Option Reason
  pub execs : List ExecClaim
  pub announced_calls : List String
  pub catalog_calls : Map String CatalogState
  pub history_rebase_unsafe : Bool
  pub appended_injections : List AppendedInjection

abbrev pub claims : String → ExecClaim → Bool
claims id exec = elim exec.call_id [ none ↦ false | some c ↦ c == id ]

pub is_claimed : SafetyState → String → Bool
is_claimed state id = any (claims id) state.execs

abbrev pub is_completed : Option CatalogState → Bool
is_completed (some completed) = true
is_completed _ = false

abbrev pub is_started : Option CatalogState → Bool
is_started (some started) = true
is_started _ = false

pub announced_calls_claimed : SafetyState → Bool
announced_calls_claimed state =
    all (λ id. is_claimed state id || is_completed (get id state.catalog_calls))
      state.announced_calls

pub record Attempt : Type 0 where
  pub session_id : String
  pub state : SafetyState
  pub barrier_reason : Option Reason
  pub stateful : Bool
  pub other_barrier : Bool

-- The constructor of `AttemptReplaySafety`.
pub new_attempt : String → SafetyState → Attempt
new_attempt session_id state = record {
  session_id = session_id;
  state = state;
  barrier_reason = none;
  stateful = is_some state.stateful_barrier;
  other_barrier = false;
}

abbrev pub first_reason : Option Reason → Reason → Option Reason
first_reason none reason = some reason
first_reason (some old) reason = some old

abbrev pub mark_history_unsafe : Attempt → Attempt
mark_history_unsafe a = record a { state = record (a.state) { history_rebase_unsafe = true } }

-- The assignments for a reason that is not output alone.
abbrev pub mark_stateful : Attempt → Reason → Bool → Attempt
mark_stateful a reason representable = record a {
  stateful = true;
  state = record (a.state) {
    stateful_barrier = first_reason a.state.stateful_barrier reason;
    history_rebase_unsafe = if representable then a.state.history_rebase_unsafe else true;
  };
}

pub mark : Attempt → Reason → Bool → Bool → Attempt
mark a reason representable injection_echo =
    let b = record a { other_barrier = if injection_echo then a.other_barrier else true } in
    let c = if is_output_only reason then b else mark_stateful b reason representable in
    record c { barrier_reason = first_reason c.barrier_reason reason }

pub mark_barrier : Attempt → Reason → Attempt
unfolding mark
mark_barrier a reason = mark a reason (is_non_control_exec reason) false

pub data LifecycleKind : Type 0 where
  started completed : LifecycleKind

pub record Lifecycle : Type 0 where
  pub kind : LifecycleKind
  pub call_id : String
  pub catalog : Bool

abbrev pub add_call : String → List String → List String
add_call id xs = if any (λ x. x == id) xs then xs else xs ++ (id ∷ [])

abbrev pub with_catalog : Attempt → String → CatalogState → Attempt
with_catalog a id s = record a {
  state = record (a.state) { catalog_calls = set id s a.state.catalog_calls };
}

abbrev pub announce : Attempt → String → Attempt
announce a id = record a {
  state = record (a.state) { announced_calls = add_call id a.state.announced_calls };
}

-- A completed display call: a catalog lookup that was started, a claimed call, or neither.
pub complete_call : Attempt → String → Bool → Attempt
unfolding mark
complete_call a id catalog =
    if catalog && is_started (get id a.state.catalog_calls)
    then with_catalog a id CatalogState.completed
    else if is_claimed a.state id
    then a
    else mark a display_tool_lifecycle false false

-- A started display call.
pub start_call : Attempt → String → Bool → Attempt
unfolding mark
start_call a id catalog =
    if is_claimed a.state id || is_some (get id a.state.catalog_calls)
    then mark a display_tool_lifecycle false false
    else let b = if catalog then with_catalog a id CatalogState.started else a in
      mark (announce b id) display_tool_lifecycle true false

pub record_tool_lifecycle : Attempt → Option Lifecycle → Attempt
unfolding complete_call start_call mark
record_tool_lifecycle a none = mark a display_tool_lifecycle false false
record_tool_lifecycle a (some l) = elim l.kind [
  | started ↦ start_call a l.call_id l.catalog
  | completed ↦ complete_call a l.call_id l.catalog
]

abbrev pub same_exec : String → ℕ → ExecClaim → Bool
same_exec session_id id exec = exec.session_id == session_id && nat_beq exec.id id

abbrev pub claim_of : Option String → Option String
claim_of none = none
claim_of (some c) = if c == "" then none else some c

-- An id that is no safe integer is `none`.
pub record_exec : Attempt → Option ℕ → Option String → Attempt
record_exec a none call_id = mark_history_unsafe a
record_exec a (some id) call_id =
    if any (same_exec a.session_id id) a.state.execs then mark_history_unsafe a else record a {
      state = record (a.state) {
        execs =
            a.state.execs
            ++ (record { session_id = a.session_id; id = id; call_id = claim_of call_id } ∷ []);
      };
    }

pub record_appended_message : Attempt → Option AppendedInjection → Attempt
unfolding mark
record_appended_message a none = mark a stateful_interaction false false
record_appended_message a (some injection) =
    if leb max_appended_injections (length a.state.appended_injections)
    then mark a stateful_interaction false false
    else mark
        (record a {
          state = record (a.state) {
            appended_injections = a.state.appended_injections ++ (injection ∷ []);
          };
        })
        stateful_interaction true true

pub data ReplayBarrier : Type 0 where
  output_only stateful : ReplayBarrier

pub record Failure : Type 0 where
  pub replay_safe : Bool
  pub replay_barrier : Option ReplayBarrier
  pub replay_barrier_echoes_only : Bool

pub apply_to : Attempt → Failure → Failure
apply_to a failure = record {
  replay_safe = not (is_some a.barrier_reason) && (not a.stateful && failure.replay_safe);
  replay_barrier =
      if is_some a.barrier_reason
      then some (if a.stateful then ReplayBarrier.stateful else ReplayBarrier.output_only)
      else failure.replay_barrier;
  replay_barrier_echoes_only =
      if is_some a.barrier_reason && not a.other_barrier
      then true
      else failure.replay_barrier_echoes_only;
}
