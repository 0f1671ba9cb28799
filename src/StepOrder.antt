-- ===== src/StepOrder.antt =====
-- src/step-order.ts: model-order holds for a Cursor step that changes a file.
-- The JavaScript objects in `calls` are reached through the map alone, so an assignment to one is
-- `modify`. A count that is not finite or is negative is `none`; a held exec is one object, so its
-- removal by `indexOf` takes the element that the loop stands at.
pub mod Calls
pub mod Decisions
pub mod Release
pub mod Invariant
pub mod History
mod Tests
use cursor_opencode_provider.Base.{
  ◌+◌, ◌-◌, ◌*◌, ◌/◌, ◌%◌, ◌^◌, ◌≤◌, ◌<◌, min, max, ℕ, zero, suc, String, ◌≡◌, refl, sym, ap, ◌∙◌,
  subst, ◌≢◌, ◌↔◌, ◌⊎◌, inl, inr, Bool, true, false, not, ◌&&◌, ◌||◌, Option, none, some, List, [],
  ◌∷◌, ◌++◌, map, arith, ltb, leb, nat_beq, if◌then◌else◌, ltb→lt, lt→ltb, leb→le, nat_beq_iff,
  Bool-cases, Option-cases, is_some, get_or, length, take, drop, any, all, filter, length-append,
  length-filter-le, take-append-drop, length-take, length-drop, take-append, drop-append, All,
  All-append, All-filter, Eq, ◌==◌, eq_refl, string_eq, nat_eq,
}
use mathlib.Core.Option
use cursor_opencode_provider.JsMap.{Map, get, set, delete, modify}

pub data CallState : Type 0 where
  announced held running done refused : CallState

pub record OrderedCall : Type 0 where
  pub index : ℕ
  pub file_change : Bool
  pub state : CallState

abbrev pub Calls : Type 0
Calls = Map String OrderedCall

pub record ExecOwner : Type 0 where
  pub call_id : String
  pub file_change_read : Bool

pub record HeldExec (F P : Type 0) : Type 0 where
  pub call_id : String
  pub exec_id : ℕ
  pub frame : F
  pub request : P
  pub pending : Bool

pub record StepOrder (F P : Type 0) : Type 0 where
  pub next_index : ℕ
  pub listed_count : Option ℕ
  pub calls : Calls
  pub execs : Map ℕ ExecOwner
  pub held : List (HeldExec F P)

pub data Decision : Type 0 where
  run hold cancel : Decision

abbrev pub mem_string : String → List String → Bool
mem_string s xs = any (λ x. x == s) xs

abbrev pub file_change_display_variants : List String
file_change_display_variants =
    "edit_tool_call" ∷ "delete_tool_call" ∷ "pi_edit_tool_call" ∷ "pi_write_tool_call" ∷ []

abbrev pub file_change_result_fields : List String
file_change_result_fields =
    "write_result" ∷ "delete_result" ∷ "pi_edit_result" ∷ "pi_write_result" ∷ []

abbrev pub file_change_host_tools : List String
file_change_host_tools = "edit" ∷ "write" ∷ "apply_patch" ∷ "patch" ∷ []

-- The tool call is the list of its fields that are not null; `none` is a value that is no object.
pub is_file_change_display : Option (List String) → Option String → Bool
is_file_change_display none mcp_host_tool = false
is_file_change_display (some keys) mcp_host_tool =
    if get_or (Option.map (λ t. mem_string t file_change_host_tools) mcp_host_tool) false
    then true
    else any (λ k. mem_string k file_change_display_variants) keys

pub is_file_change_exec : String → String → Bool
is_file_change_exec result_field tool_name =
    mem_string result_field file_change_result_fields || mem_string tool_name file_change_host_tools

abbrev pub terminal : CallState → Bool
terminal done = true
terminal refused = true
terminal _ = false

-- `state === "held" || state === "running"`
abbrev pub is_waiting : CallState → Bool
is_waiting held = true
is_waiting running = true
is_waiting _ = false

-- The same, or `state === "announced"`.
abbrev pub is_open : CallState → Bool
is_open announced = true
is_open held = true
is_open running = true
is_open _ = false

abbrev pub is_refused : CallState → Bool
is_refused refused = true
is_refused _ = false

-- `state !== "held" && state !== "refused"`
abbrev pub is_held_or_refused : CallState → Bool
is_held_or_refused held = true
is_held_or_refused refused = true
is_held_or_refused _ = false

abbrev pub is_held : CallState → Bool
is_held held = true
is_held _ = false

abbrev pub with_state : CallState → OrderedCall → OrderedCall
with_state s c = record c { state = s }

-- One round of the loop of `blocked`.
abbrev pub blocks : String × OrderedCall → String → OrderedCall → Bool
blocks (other_id, other) call_id call =
    if other_id == call_id || leb call.index other.index
    then false
    else (other.file_change && is_open other.state) || (call.file_change && is_waiting other.state)

pub blocked : Calls → String → OrderedCall → Bool
blocked calls call_id call = any (λ entry. blocks entry call_id call) calls

abbrev pub refuses : String × OrderedCall → OrderedCall → Bool
refuses (other_id, other) call =
    ltb other.index call.index && (other.file_change && is_refused other.state)

pub follows_refusal : Calls → OrderedCall → Bool
follows_refusal calls call = any (λ entry. refuses entry call) calls

abbrev pub mark_file_change : OrderedCall → OrderedCall
mark_file_change c = record c { file_change = true }

abbrev pub decide : Calls → String → OrderedCall → Decision
decide calls call_id call =
    if follows_refusal calls call then cancel else if blocked calls call_id call then hold else run

-- What `takeReleasableExecs` leaves: the calls, the execs still held, and those released.
pub record Released (F P : Type 0) : Type 0 where
  pub calls : Calls
  pub held : List (HeldExec F P)
  pub released : List (HeldExec F P)

module _ {F P : Type 0} where
  pub create_step_order : StepOrder F P
  create_step_order = record {
    next_index = 0;
    listed_count = none;
    calls = [];
    execs = [];
    held = [];
  }

  pub step_finished : StepOrder F P → Bool
  step_finished order = elim order.listed_count [
    | none ↦ false
    | some listed ↦
        nat_beq (length order.held) 0
        && (leb listed (length order.calls) && all (λ entry. terminal entry.1.state) order.calls)
  ]

  pub clear_step : StepOrder F P → StepOrder F P
  clear_step order = record order { calls = []; execs = []; next_index = 0; listed_count = none }

  pub note_ordered_call_count : StepOrder F P → Option ℕ → StepOrder F P
  unfolding step_finished clear_step
  note_ordered_call_count order none = order
  note_ordered_call_count order (some count) =
      let cleared = if step_finished order then clear_step order else order in
      record cleared { listed_count = some count }

  pub start_ordered_step : StepOrder F P → StepOrder F P
  unfolding clear_step
  start_ordered_step order =
      if nat_beq (length order.held) 0 && all (λ entry. terminal entry.1.state) order.calls
      then clear_step order
      else order

  abbrev pub new_call : StepOrder F P → Bool → OrderedCall
  new_call order file_change = record {
    index = order.next_index;
    file_change = file_change;
    state = announced;
  }

  -- The new state, and the call that the source returns.
  pub ensure_call : StepOrder F P → String → Bool → StepOrder F P × OrderedCall
  ensure_call order call_id file_change = elim (get call_id order.calls) [
    | none ↦ (
      record order {
        next_index = order.next_index + 1;
        calls = set call_id (new_call order file_change) order.calls;
      },
      new_call order file_change,
    )
    | some call ↦
        if file_change
        then (
          record order { calls = modify call_id mark_file_change order.calls },
          mark_file_change call,
        )
        else (order, call)
  ]

  pub announce_call : StepOrder F P → String → Bool → StepOrder F P
  unfolding step_finished clear_step
  announce_call order call_id file_change =
      (ensure_call (if step_finished order then clear_step order else order) call_id file_change).0

  pub order_exec : StepOrder F P → String → Bool → StepOrder F P × Decision
  order_exec order call_id file_change =
      let (order', call) = ensure_call order call_id file_change in
      (order', decide order'.calls call_id call)

  pub is_file_change_call : Option (StepOrder F P) → String → Bool
  is_file_change_call none call_id = false
  is_file_change_call (some order) call_id =
      get_or (Option.map (λ c. c.file_change) (get call_id order.calls)) false

  -- `order.calls.get(other.callId)?.index ?? 0`
  abbrev pub index_of : Calls → HeldExec F P → ℕ
  index_of calls h = get_or (Option.map (λ c. c.index) (get h.call_id calls)) 0

  -- `splice` before the first held exec of a greater index, `push` if there is none.
  pub insert_held : Calls → ℕ → HeldExec F P → List (HeldExec F P) → List (HeldExec F P)
  insert_held calls index h [] = h ∷ []
  insert_held calls index h (x ∷ xs) =
      if ltb index (index_of calls x) then h ∷ (x ∷ xs) else x ∷ insert_held calls index h xs

  pub hold_exec : StepOrder F P → HeldExec F P → StepOrder F P
  hold_exec order h =
      let (order', call) = ensure_call order h.call_id false in
      let calls' = modify h.call_id (with_state held) order'.calls in
      record order' { calls = calls'; held = insert_held calls' call.index h order'.held }

  pub run_exec : StepOrder F P → String → ℕ → Bool → StepOrder F P
  run_exec order call_id exec_id file_change_read =
      let (order', call) = ensure_call order call_id false in
      record order' {
        calls =
            if terminal call.state
            then order'.calls
            else modify call_id (with_state running) order'.calls;
        execs =
            set exec_id (record { call_id = call_id; file_change_read = file_change_read })
              order'.execs;
      }

  pub finish_call : StepOrder F P → String → StepOrder F P
  finish_call order call_id = record order {
    calls =
        modify call_id (λ c. if is_held_or_refused c.state then c else with_state done c)
          order.calls;
  }

  pub refuse_call : StepOrder F P → String → StepOrder F P
  refuse_call order call_id = record order {
    calls =
        modify call_id
          (λ c.
            if is_held c.state
            then c
            else if c.file_change
            then with_state refused c
            else with_state done c)
          order.calls;
  }

  -- `findIndex` and `splice`: the exec found, and the list without it.
  pub take_held : ℕ → List (HeldExec F P) → Option (HeldExec F P × List (HeldExec F P))
  take_held exec_id [] = none
  take_held exec_id (h ∷ hs) =
      if nat_beq h.exec_id exec_id
      then some (h, hs)
      else Option.map (λ r. (r.0, h ∷ r.1)) (take_held exec_id hs)

  pub drop_held_exec : StepOrder F P → ℕ → StepOrder F P × Option (HeldExec F P)
  drop_held_exec order exec_id = elim (take_held exec_id order.held) [
    | none ↦ (order, none)
    | some (h, rest) ↦ (
      record order { held = rest; calls = modify h.call_id (with_state done) order.calls },
      some h,
    )
  ]

  -- The tail of `noteExecResult`, for an exec that is not held; `true` is the outcome "refused".
  pub note_dispatched_result : StepOrder F P → ℕ → Bool → StepOrder F P × Bool
  unfolding refuse_call finish_call
  note_dispatched_result order exec_id outcome_refused = elim (get exec_id order.execs) [
    | none ↦ (order, false)
    | some exec ↦
        let order' = record order { execs = delete exec_id order.execs } in
        (
          if outcome_refused
              then refuse_call order' exec.call_id
              else if exec.file_change_read
              then order'
              else finish_call order' exec.call_id,
          true,
        )
  ]

  pub note_exec_result : StepOrder F P → ℕ → Bool → StepOrder F P × Bool
  unfolding drop_held_exec note_dispatched_result
  note_exec_result order exec_id outcome_refused =
      let (order', dropped) = drop_held_exec order exec_id in
      elim dropped [
        | some h ↦ (order', true)
        | none ↦ note_dispatched_result order exec_id outcome_refused
      ]

  pub is_cancelled : Calls → HeldExec F P → Bool
  is_cancelled calls h =
      get_or (Option.map (λ call. follows_refusal calls call) (get h.call_id calls)) false

  abbrev pub finish_all : List (HeldExec F P) → Calls → Calls
  finish_all [] calls = calls
  finish_all (h ∷ hs) calls = finish_all hs (modify h.call_id (with_state done) calls)

  pub take_cancelled_execs : StepOrder F P → StepOrder F P × List (HeldExec F P)
  take_cancelled_execs order =
      let cancelled = filter (is_cancelled order.calls) order.held in
      (
        record order {
          held = filter (λ h. not (is_cancelled order.calls h)) order.held;
          calls = finish_all cancelled order.calls;
        },
        cancelled,
      )

  pub releasable : Calls → HeldExec F P → Bool
  releasable calls h = elim (get h.call_id calls) [
    | none ↦ false
    | some call ↦ not (follows_refusal calls call || blocked calls h.call_id call)
  ]

  -- The loop of `takeReleasableExecs` over a copy of the held execs: a call that is released
  -- counts as running for the execs after it.
  pub release_loop : Calls → List (HeldExec F P) → Released F P
  release_loop calls [] = record { calls = calls; held = []; released = [] }
  release_loop calls (h ∷ hs) = elim (releasable calls h) [
    | true ↦
        let r = release_loop (modify h.call_id (with_state running) calls) hs in
        record { calls = r.calls; held = r.held; released = h ∷ r.released }
    | false ↦
        let r = release_loop calls hs in
        record { calls = r.calls; held = h ∷ r.held; released = r.released }
  ]

  pub take_releasable_execs : StepOrder F P → StepOrder F P × List (HeldExec F P)
  take_releasable_execs order =
      let r = release_loop order.calls order.held in
      (record order { calls = r.calls; held = r.held }, r.released)
