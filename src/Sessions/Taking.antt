-- ===== src/Sessions/Taking.antt =====
-- What the operations of the registry may do to the results that are waited for.
use cursor_opencode_provider.Base.{
  ℕ, String, ◌≡◌, refl, sym, ap, ◌∙◌, subst, ◌⊎◌, inl, inr, Bool, true, false, not, ◌&&◌, Option,
  none, some, [], ◌∷◌, ◌++◌, arith, leb, nat_beq, if◌then◌else◌, nat_beq_iff, Bool-cases,
  Option-cases, ◌==◌, string_eq, nat_eq,
}
use cursor_opencode_provider.Sessions.State.{
  PendingExecState, CloseReason, PendingExec, Session, ExecKey, exec_eq, Manager, Host, put_session,
  renew, activity_deadline, tool_deadline, refresh_hard_deadline, hard_deadline_expired,
  put_tombstone, get_tombstone, pending, claimed, delivered, hard_cap_expired, remote_clean_close,
  terminal, ordinary_cleanup, turn_ended, initial_write_failed,
}
use cursor_opencode_provider.Sessions.{
  drop_pendings, mark_for, closed_session, close_session, close, Classification, classify_tombstone,
  set_pending, classify_pending, is_unusable, classify_lost, session_of, classify, deliverable,
  in_flight, already_delivered, missing, ended,
}
use cursor_opencode_provider.JsMap.{Map, get, delete}
use cursor_opencode_provider.JsMap.Laws.{get-set, get-delete}

abbrev pub is_pending_state : PendingExecState → Bool
is_pending_state pending = true
is_pending_state claimed = false
is_pending_state delivered = false

-- An open session waits for this result and has not given it to anybody.
abbrev pub wants : ℕ → Option Session → Bool
wants exec none = false
wants exec (some s) =
    not s.closed && elim (get exec s.pendings) [ none ↦ false | some p ↦ is_pending_state p.state ]

abbrev pub NotOffered : String → ℕ → Manager → Type 0
NotOffered id exec m =
    (get (id, exec) m.by_exec_id ≡ none) ⊎ (wants exec (get id m.objects) ≡ false)

-- What an operation may do: drop routes, and leave a session that wants no more than it did.
abbrev pub IsTaking : Manager → Manager → Type 0
IsTaking m m' =
    ((id : String) (exec : ℕ)
      → get (id, exec) m.by_exec_id ≡ none
      → get (id, exec) m'.by_exec_id ≡ none)
    × ((id : String) (exec : ℕ)
        → wants exec (get id m.objects) ≡ false
        → wants exec (get id m'.objects) ≡ false)

pub NotOffered-later :
    (id : String) (exec : ℕ) (m m' : Manager)
    → IsTaking m m'
    → NotOffered id exec m
    → NotOffered id exec m'
NotOffered-later id exec m m' (f, g) (inl e) = inl (f id exec e)
NotOffered-later id exec m m' (f, g) (inr e) = inr (g id exec e)

IsTaking-refl : (m : Manager) → IsTaking m m
IsTaking-refl m = (λ id exec e. e, λ id exec e. e)

pub IsTaking-trans : (a b c : Manager) → IsTaking a b → IsTaking b c → IsTaking a c
IsTaking-trans a b c (f, g) (f', g') =
    (λ id exec e. f' id exec (f id exec e), λ id exec e. g' id exec (g id exec e))

abbrev pub is_deliverable : Classification → Bool
is_deliverable (deliverable s p) = true
is_deliverable in_flight = false
is_deliverable already_delivered = false
is_deliverable missing = false
is_deliverable (ended why) = false

-- A tombstone offers nothing.
pub classify_tombstone_lem :
    (now : ℕ) (key : ExecKey) (m : Manager)
    → is_deliverable (classify_tombstone now key m).1 ≡ false
unfolding classify_tombstone
classify_tombstone_lem now key m =
    elim (get_tombstone now key m).1
      as (λ o.
        is_deliverable (elim o [
          | none ↦ missing
          | some t ↦ elim t.reason [ none ↦ already_delivered | some why ↦ ended why ]
        ])
        ≡ false) [
          | none ↦ refl
          | some t ↦
              elim t.reason
                as (λ why.
                  is_deliverable (elim why [ none ↦ already_delivered | some w ↦ ended w ])
                  ≡ false) [ none ↦ refl | some w ↦ refl ]
        ]

IsTaking-get_tombstone :
    (now : ℕ) (key : ExecKey) (m : Manager) → IsTaking m (classify_tombstone now key m).0
unfolding get_tombstone
IsTaking-get_tombstone now key m = elim (Option-cases (get key m.tombstones)) [
  | inl e ↦ rw (e, get_tombstone) (IsTaking-refl m)
  | inr (t, e) ↦ elim (Bool-cases (leb t.expires_at now)) [
    | inl b ↦ rw (e, b, get_tombstone) (λ id exec q. q, λ id exec q. q)
    | inr b ↦ rw (e, b, get_tombstone) (IsTaking-refl m)
  ]
]

IsTaking-delete :
    (key : ExecKey) (m : Manager) → IsTaking m (record m { by_exec_id = delete key m.by_exec_id })
IsTaking-delete key m =
    (λ id exec e. ground (arith, get-delete key (id, exec) m.by_exec_id), λ id exec e. e)

IsTaking-mark :
    (h : Host) (now : ℕ) (why : CloseReason) (key : ExecKey) (m : Manager)
    → IsTaking m (mark_for h now why key m)
unfolding put_tombstone
IsTaking-mark h now (terminal r) key m = (λ id exec e. e, λ id exec e. e)
IsTaking-mark h now ordinary_cleanup key m = IsTaking-refl m
IsTaking-mark h now turn_ended key m = IsTaking-refl m
IsTaking-mark h now initial_write_failed key m = IsTaking-refl m

IsTaking-drop_pendings :
    (h : Host) (now : ℕ) (why : CloseReason) (id : String) (ps : Map ℕ PendingExec) (m : Manager)
    → IsTaking m (drop_pendings (mark_for h now why) id ps m)
IsTaking-drop_pendings h now why id [] m = IsTaking-refl m
IsTaking-drop_pendings h now why id ((exec, p) ∷ ps) m =
    let unrouted : Manager = record m {
      by_exec_id = delete (id, exec) m.by_exec_id;
      released = elim p.managed_job_directory [
        | none ↦ m.released
        | some directory ↦ m.released ++ (directory ∷ [])
      ];
    } in
    let marked : Manager = mark_for h now why (id, exec) unrouted in
    let first : IsTaking m unrouted =
      (λ i e q. ground (arith, get-delete (id, exec) (i, e) m.by_exec_id), λ i e q. q) in
    let whole : Manager = drop_pendings (mark_for h now why) id ps marked in
    IsTaking-trans m unrouted whole first (
      IsTaking-trans unrouted marked whole (IsTaking-mark h now why (id, exec) unrouted)
        (IsTaking-drop_pendings h now why id ps marked))

pub IsTaking-put_session :
    (id : String) (s : Session) (m : Manager)
    → ((exec : ℕ) → wants exec (get id m.objects) ≡ false → wants exec (some s) ≡ false)
    → IsTaking m (put_session id s m)
IsTaking-put_session id s m f = (
  λ i exec e. e,
  λ i exec e. elim (Bool-cases (id == i)) [
    | inl b ↦
        let same : id ≡ i = (string_eq.beq_iff id i).0 b in
        rw (get-set id i s m.objects, b)
          (f exec (subst (λ j. wants exec (get j m.objects) ≡ false) (sym same) e))
    | inr b ↦ rw (get-set id i s m.objects, b) e
  ],
)

IsTaking-close_session :
    (h : Host) (now : ℕ) (id : String) (why : CloseReason) (s : Session) (m : Manager)
    → IsTaking m (close_session h now why id s m)
IsTaking-close_session h now id why s m =
    let dropped : Manager = drop_pendings (mark_for h now why) id s.pendings m in
    IsTaking-trans m dropped (close_session h now why id s m)
      (IsTaking-drop_pendings h now why id s.pendings m)
      (IsTaking-put_session id (closed_session s) dropped (λ exec q. refl))

pub IsTaking-close :
    (h : Host) (now : ℕ) (id : String) (why : CloseReason) (m : Manager)
    → IsTaking m (close h now id why m)
unfolding close
IsTaking-close h now id why m = elim (Option-cases (get id m.objects)) [
  | inl e ↦ rw (e, close) (IsTaking-refl m)
  | inr (s, e) ↦ elim (Bool-cases s.closed) [
    | inl c ↦ simp (e, c, close) (IsTaking-refl m)
    | inr c ↦
        let step : close h now id why m ≡ close_session h now why id s m =
          simp (e, c, close) refl in
        subst (λ (t : Manager). IsTaking m t) (sym step) (IsTaking-close_session h now id why s m)
  ]
]

IsTaking-lost :
    (h : Host) (now : ℕ) (id : String) (s : Session) (exec : ℕ) (m : Manager)
    → IsTaking m (classify_lost h now id s exec m).0
unfolding classify_lost classify_tombstone
IsTaking-lost h now id s exec m =
    let unrouted : Manager = record m { by_exec_id = delete (id, exec) m.by_exec_id } in
    let left : Manager =
      if s.closed then unrouted else close h now id (terminal remote_clean_close) unrouted in
    let end : Manager = (classify_lost h now id s exec m).0 in
    IsTaking-trans m unrouted end (IsTaking-delete (id, exec) m) (
      IsTaking-trans unrouted left end
        (elim s.closed
          as (λ b.
            IsTaking unrouted
              (if b then unrouted else close h now id (terminal remote_clean_close) unrouted)) [
                | true ↦ IsTaking-refl unrouted
                | false ↦ IsTaking-close h now id (terminal remote_clean_close) unrouted
              ])
        (IsTaking-get_tombstone now (id, exec) left))

renew-state : (at : Option ℕ) (p : PendingExec) → (renew at p).state ≡ p.state
renew-state none p = refl
renew-state (some at) p = ground arith

pub refresh-state :
    (h : Host) (now : ℕ) (s : Session) (p : PendingExec)
    → (refresh_hard_deadline h now s p).state ≡ p.state
unfolding refresh_hard_deadline
refresh-state h now s p = elim (Option-cases s.open_code_session_id) [
  | inl e ↦ rw (e, refresh_hard_deadline) refl
  | inr (id, e) ↦
      rw (e, refresh_hard_deadline)
        (renew-state (tool_deadline h now s id) _ ∙ renew-state (activity_deadline h s id p) p)
]

-- A pending result is replaced by one of the same state, or by one that is not offered.
pub wants-set_pending :
    (exec other : ℕ) (s : Session) (p q : PendingExec)
    → get exec s.pendings ≡ some p
    → (is_pending_state p.state ≡ false → is_pending_state q.state ≡ false)
    → wants other (some s) ≡ false
    → wants other (some (set_pending exec q s)) ≡ false
wants-set_pending exec other s p q e f w = elim (Bool-cases (nat_beq exec other)) [
  | inl b ↦
      let same : exec ≡ other = (nat_beq_iff exec other).0 b in
      let here : get other s.pendings ≡ some p = subst (λ k. get k s.pendings ≡ some p) same e in
      elim (Bool-cases (is_pending_state p.state)) [
        | inl g ↦ ground (arith, get-set exec other q s.pendings)
        | inr g ↦ ground (arith, get-set exec other q s.pendings, f g)
      ]
  | inr b ↦ ground (arith, get-set exec other q s.pendings)
]

IsTaking-pending :
    (h : Host) (now : ℕ) (id : String) (s : Session) (exec : ℕ) (p : PendingExec) (m : Manager)
    → get id m.objects ≡ some s
    → get exec s.pendings ≡ some p
    → IsTaking m (classify_pending h now id s exec p m).0
unfolding classify_pending
IsTaking-pending h now id s exec p m e g =
    let renewed : PendingExec = refresh_hard_deadline h now s p in
    let kept : Manager = put_session id (set_pending exec renewed s) m in
    elim (Bool-cases (hard_deadline_expired h now s p)) [
      | inl b ↦
          let gone : Manager = close h now id (terminal hard_cap_expired) m in
          let step : (classify_pending h now id s exec p m).0
              ≡ (classify_tombstone now (id, exec) gone).0 =
            simp (b, classify_pending) refl in
          subst (λ (t : Manager). IsTaking m t) (sym step)
            (IsTaking-trans m gone (classify_tombstone now (id, exec) gone).0
              (IsTaking-close h now id (terminal hard_cap_expired) m)
              (IsTaking-get_tombstone now (id, exec) gone))
      | inr b ↦
          let step : (classify_pending h now id s exec p m).0 ≡ kept =
            simp (b, classify_pending) refl in
          subst (λ (t : Manager). IsTaking m t) (sym step)
            (IsTaking-put_session id (set_pending exec renewed s) m (λ other w.
              wants-set_pending exec other s p renewed g
                (λ q. ap is_pending_state (refresh-state h now s p) ∙ q)
                (subst (λ o. wants other o ≡ false) e w)))
    ]

pub session_of-cases :
    (id : String) (exec : ℕ) (m : Manager)
    → (session_of (id, exec) m ≡ none)
      ⊎ ((s : Session) × (session_of (id, exec) m ≡ some s) × (get id m.objects ≡ some s))
session_of-cases id exec m = elim (Option-cases (get (id, exec) m.by_exec_id)) [
  | inl e ↦ inl (rw (e, session_of) refl)
  | inr (owner, e) ↦ elim (Option-cases (get id m.objects)) [
    | inl g ↦ inl (rw (e, session_of) g)
    | inr (s, g) ↦ inr (s, rw (e, session_of) g, g)
  ]
]

pub IsTaking-classify :
    (h : Host) (now : ℕ) (id : String) (exec : ℕ) (m : Manager)
    → IsTaking m (classify h now id exec m).0
unfolding classify
IsTaking-classify h now id exec m = elim (session_of-cases id exec m) [
  | inl e ↦
      let step : (classify h now id exec m).0 ≡ (classify_tombstone now (id, exec) m).0 =
        simp (e, classify) refl in
      subst (λ (t : Manager). IsTaking m t) (sym step) (IsTaking-get_tombstone now (id, exec) m)
  | inr (s, e, o) ↦ elim (Option-cases (get exec s.pendings)) [
    | inl g ↦
        let step : (classify h now id exec m).0 ≡ (classify_lost h now id s exec m).0 =
          simp (e, g, classify) refl in
        subst (λ (t : Manager). IsTaking m t) (sym step) (IsTaking-lost h now id s exec m)
    | inr (p, g) ↦ elim (Bool-cases (is_unusable now s p)) [
      | inl u ↦
          let step : (classify h now id exec m).0 ≡ (classify_lost h now id s exec m).0 =
            simp (e, g, u, classify) refl in
          subst (λ (t : Manager). IsTaking m t) (sym step) (IsTaking-lost h now id s exec m)
      | inr u ↦
          let step : (classify h now id exec m).0 ≡ (classify_pending h now id s exec p m).0 =
            simp (e, g, u, classify) refl in
          subst (λ (t : Manager). IsTaking m t) (sym step)
            (IsTaking-pending h now id s exec p m o g)
    ]
  ]
]
