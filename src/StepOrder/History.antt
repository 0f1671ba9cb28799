-- ===== src/StepOrder/History.antt =====
-- Every history of calls of step-order.ts keeps the invariant.
use cursor_opencode_provider.Base.{
  ℕ, String, ◌≡◌, refl, inl, inr, Bool, true, false, not, ◌&&◌, Option, none, some, List, [], ◌∷◌,
  arith, nat_beq, if◌then◌else◌, Bool-cases, Option-cases, length, filter, string_eq, nat_eq,
}
use cursor_opencode_provider.JsMap.{get, delete, modify}
use cursor_opencode_provider.JsMap.Laws.{get-modify, get-set}
use cursor_opencode_provider.StepOrder.{
  held, running, done, Calls, HeldExec, StepOrder, with_state, step_finished, clear_step,
  note_ordered_call_count, start_ordered_step, mark_file_change, new_call, ensure_call,
  announce_call, order_exec, hold_exec, run_exec, finish_call, refuse_call, take_held,
  drop_held_exec, note_dispatched_result, note_exec_result, is_cancelled, take_cancelled_execs,
  take_releasable_execs, terminal,
}
use cursor_opencode_provider.StepOrder.Invariant.{
  Extends, Extends-refl, modify-Extends, set-Extends, finish_all-Extends, InOrder, InOrder-Extends,
  InOrder-filter, insert_held-InOrder, take_held-InOrder, release_loop-InOrder,
}

-- A call of one of the operations, with its arguments.
pub data Event (F P : Type 0) : Type 0 where
  counts : Option ℕ → Event F P
  starts : Event F P
  announces orders : String → Bool → Event F P
  holds : HeldExec F P → Event F P
  runs : String → ℕ → Bool → Event F P
  finishes : String → Event F P
  results : ℕ → Bool → Event F P
  drops : ℕ → Event F P
  cancels releases : Event F P

module _ {F P : Type 0} where
  unfoldable pub after_event : StepOrder F P → Event F P → StepOrder F P
  after_event o (counts n) = note_ordered_call_count o n
  after_event o starts = start_ordered_step o
  after_event o (announces id fc) = announce_call o id fc
  after_event o (orders id fc) = (order_exec o id fc).0
  after_event o (holds h) = hold_exec o h
  after_event o (runs id exec read) = run_exec o id exec read
  after_event o (finishes id) = finish_call o id
  after_event o (results exec r) = (note_exec_result o exec r).0
  after_event o (drops exec) = (drop_held_exec o exec).0
  after_event o cancels = (take_cancelled_execs o).0
  after_event o releases = (take_releasable_execs o).0

  unfoldable pub after_events : StepOrder F P → List (Event F P) → StepOrder F P
  unfolding after_event
  after_events o [] = o
  after_events o (e ∷ es) = after_events (after_event o e) es

  abbrev pub IsWellFormed : StepOrder F P → Type 0
  IsWellFormed o = InOrder o.calls 0 o.held

  -- What a change of the calls alone keeps.
  keeps :
      (o : StepOrder F P) (calls : Calls)
      → Extends o.calls calls
      → IsWellFormed o
      → InOrder calls 0 o.held
  keeps o calls x w = InOrder-Extends o.calls calls 0 o.held x w

  pub ensure_call-Extends :
      (o : StepOrder F P) (id : String) (fc : Bool)
      → Extends o.calls (ensure_call o id fc).0.calls
        × ((ensure_call o id fc).0.held ≡ o.held)
        × (get id (ensure_call o id fc).0.calls ≡ some (ensure_call o id fc).1)
  unfolding ensure_call
  ensure_call-Extends o id fc = elim (Option-cases (get id o.calls)) [
    | inl e ↦
        rw (e, ensure_call)
          (
            set-Extends o.calls id (new_call o fc) e,
            refl,
            ground (arith, get-set id id (new_call o fc) o.calls, string_eq.beq_iff id id),
          )
    | inr (c, e) ↦ elim (Bool-cases fc) [
      | inl y ↦
          rw (e, ensure_call)
            (rw y (
              modify-Extends o.calls id mark_file_change (λ d. refl),
              refl,
              ground (arith, get-modify id id mark_file_change o.calls, string_eq.beq_iff id id),
            ))
      | inr n ↦ rw (e, ensure_call) (rw n (Extends-refl o.calls, refl, e))
    ]
  ]

  ensure_call-IsWellFormed :
      (o : StepOrder F P) (id : String) (fc : Bool)
      → IsWellFormed o
      → IsWellFormed (ensure_call o id fc).0
  ensure_call-IsWellFormed o id fc w =
      let (x, h, g) = ensure_call-Extends o id fc in rw h (keeps o _ x w)

  -- A step is cleared only when nothing is held.
  held_of_finished : (o : StepOrder F P) → step_finished o ≡ true → o.held ≡ []
  unfolding step_finished
  held_of_finished o h = ground arith

  clear_if_IsWellFormed :
      (o : StepOrder F P) (b : Bool)
      → (b ≡ true → o.held ≡ [])
      → IsWellFormed o
      → IsWellFormed (if b then clear_step o else o)
  unfolding clear_step
  clear_if_IsWellFormed o true h w = rw (h refl) tt
  clear_if_IsWellFormed o false h w = w

  no_held : (hs : List (HeldExec F P)) (b : Bool) → (nat_beq (length hs) 0 && b) ≡ true → hs ≡ []
  no_held [] b h = refl
  no_held (x ∷ xs) b h = ground arith

  count-IsWellFormed :
      (o : StepOrder F P) (n : Option ℕ)
      → IsWellFormed o
      → IsWellFormed (note_ordered_call_count o n)
  unfolding note_ordered_call_count
  count-IsWellFormed o none w = w
  count-IsWellFormed o (some n) w = clear_if_IsWellFormed o (step_finished o) (held_of_finished o) w

  start-IsWellFormed : (o : StepOrder F P) → IsWellFormed o → IsWellFormed (start_ordered_step o)
  unfolding start_ordered_step
  start-IsWellFormed o w = clear_if_IsWellFormed o _ (no_held o.held _) w

  announce-IsWellFormed :
      (o : StepOrder F P) (id : String) (fc : Bool)
      → IsWellFormed o
      → IsWellFormed (announce_call o id fc)
  unfolding announce_call
  announce-IsWellFormed o id fc w =
      ensure_call-IsWellFormed _ id fc
        (clear_if_IsWellFormed o (step_finished o) (held_of_finished o) w)

  order-IsWellFormed :
      (o : StepOrder F P) (id : String) (fc : Bool)
      → IsWellFormed o
      → IsWellFormed (order_exec o id fc).0
  unfolding order_exec
  order-IsWellFormed o id fc w = ensure_call-IsWellFormed o id fc w

  hold-IsWellFormed :
      (o : StepOrder F P) (h : HeldExec F P) → IsWellFormed o → IsWellFormed (hold_exec o h)
  unfolding hold_exec
  hold-IsWellFormed o h w =
      let o' = (ensure_call o h.call_id false).0 in
      let c = (ensure_call o h.call_id false).1 in
      let found = (ensure_call-Extends o h.call_id false).2 in
      let calls' = modify h.call_id (with_state held) o'.calls in
      insert_held-InOrder calls' 0 h (with_state held c) o'.held
        (ground (
          arith,
          get-modify h.call_id h.call_id (with_state held) o'.calls,
          string_eq.beq_iff h.call_id h.call_id,
        ))
        (omega arith)
        (keeps o' calls' (modify-Extends o'.calls h.call_id (with_state held) (λ d. refl))
          (ensure_call-IsWellFormed o h.call_id false w))

  run-IsWellFormed :
      (o : StepOrder F P) (id : String) (exec : ℕ) (read : Bool)
      → IsWellFormed o
      → IsWellFormed (run_exec o id exec read)
  unfolding run_exec
  run-IsWellFormed o id exec read w =
      let o' = (ensure_call o id false).0 in
      elim (Bool-cases (terminal (ensure_call o id false).1.state)) [
        | inl y ↦ rw y (ensure_call-IsWellFormed o id false w)
        | inr n ↦ rw n (
            keeps o' _ (modify-Extends o'.calls id (with_state running) (λ d. refl))
              (ensure_call-IsWellFormed o id false w))
      ]

  finish-IsWellFormed :
      (o : StepOrder F P) (id : String) → IsWellFormed o → IsWellFormed (finish_call o id)
  unfolding finish_call
  finish-IsWellFormed o id w = keeps o _ (modify-Extends o.calls id _ (λ d. ground arith)) w

  refuse-IsWellFormed :
      (o : StepOrder F P) (id : String) → IsWellFormed o → IsWellFormed (refuse_call o id)
  unfolding refuse_call
  refuse-IsWellFormed o id w = keeps o _ (modify-Extends o.calls id _ (λ d. ground arith)) w

  drop-IsWellFormed :
      (o : StepOrder F P) (exec : ℕ) → IsWellFormed o → IsWellFormed (drop_held_exec o exec).0
  unfolding drop_held_exec
  drop-IsWellFormed o exec w = elim (Option-cases (take_held exec o.held)) [
    | inl e ↦ rw (e, drop_held_exec) w
    | inr ((h, rest), e) ↦
        let kept : InOrder o.calls 0 rest = rw e at (take_held-InOrder o.calls 0 exec o.held w) in
        rw (e, drop_held_exec)
          (InOrder-Extends o.calls _ 0 rest
            (modify-Extends o.calls h.call_id (with_state done) (λ d. refl)) kept)
  ]

  dispatched-IsWellFormed :
      (o : StepOrder F P) (exec : ℕ) (r : Bool)
      → IsWellFormed o
      → IsWellFormed (note_dispatched_result o exec r).0
  unfolding note_dispatched_result
  dispatched-IsWellFormed o exec r w = elim (Option-cases (get exec o.execs)) [
    | inl e ↦ rw (e, note_dispatched_result) w
    | inr (x, e) ↦ rw (e, note_dispatched_result) (settled r x.file_change_read x.call_id)
  ]
    where
      after : StepOrder F P
      after = record o { execs = delete exec o.execs }

      settled :
          (r read : Bool) (id : String)
          → IsWellFormed
              (if r then refuse_call after id else if read then after else finish_call after id)
      settled true read id = refuse-IsWellFormed after id w
      settled false true id = w
      settled false false id = finish-IsWellFormed after id w

  result-IsWellFormed :
      (o : StepOrder F P) (exec : ℕ) (r : Bool)
      → IsWellFormed o
      → IsWellFormed (note_exec_result o exec r).0
  unfolding note_exec_result
  result-IsWellFormed o exec r w = elim (Option-cases (drop_held_exec o exec).1) [
    | inl e ↦ rw (e, note_exec_result) (dispatched-IsWellFormed o exec r w)
    | inr (h, e) ↦ rw (e, note_exec_result) (drop-IsWellFormed o exec w)
  ]

  cancel-IsWellFormed :
      (o : StepOrder F P) → IsWellFormed o → IsWellFormed (take_cancelled_execs o).0
  unfolding take_cancelled_execs
  cancel-IsWellFormed o w =
      InOrder-Extends o.calls _ 0 _
        (finish_all-Extends (filter (is_cancelled o.calls) o.held) o.calls)
        (InOrder-filter o.calls (λ h. not (is_cancelled o.calls h)) 0 o.held w)

  release-IsWellFormed :
      (o : StepOrder F P) → IsWellFormed o → IsWellFormed (take_releasable_execs o).0
  unfolding take_releasable_execs
  release-IsWellFormed o w = (release_loop-InOrder o.calls 0 o.held w).1

  after_event-IsWellFormed :
      (o : StepOrder F P) (e : Event F P) → IsWellFormed o → IsWellFormed (after_event o e)
  unfolding after_event
  after_event-IsWellFormed o (counts n) w = count-IsWellFormed o n w
  after_event-IsWellFormed o starts w = start-IsWellFormed o w
  after_event-IsWellFormed o (announces id fc) w = announce-IsWellFormed o id fc w
  after_event-IsWellFormed o (orders id fc) w = order-IsWellFormed o id fc w
  after_event-IsWellFormed o (holds h) w = hold-IsWellFormed o h w
  after_event-IsWellFormed o (runs id exec read) w = run-IsWellFormed o id exec read w
  after_event-IsWellFormed o (finishes id) w = finish-IsWellFormed o id w
  after_event-IsWellFormed o (results exec r) w = result-IsWellFormed o exec r w
  after_event-IsWellFormed o (drops exec) w = drop-IsWellFormed o exec w
  after_event-IsWellFormed o cancels w = cancel-IsWellFormed o w
  after_event-IsWellFormed o releases w = release-IsWellFormed o w

  -- Whatever sequence of operations runs from a well-formed state (the empty one of
  -- `createStepOrder` is), the call of each held exec is known and the held execs stand in the order
  -- of their calls' indices: a step is cleared only when nothing is held, `holdExec` inserts at the
  -- right place, and removals and state changes keep the order.
  pub after_events-IsWellFormed :
      (o : StepOrder F P) (es : List (Event F P))
      → IsWellFormed o
      → IsWellFormed (after_events o es)
  unfolding after_events
  after_events-IsWellFormed o [] w = w
  after_events-IsWellFormed o (e ∷ es) w =
      after_events-IsWellFormed (after_event o e) es (after_event-IsWellFormed o e w)
