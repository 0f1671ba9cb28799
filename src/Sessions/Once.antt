-- ===== src/Sessions/Once.antt =====
-- Who may claim a result.
use cursor_opencode_provider.Base.{
  ℕ, String, ◌≡◌, refl, sym, ap, ◌∙◌, subst, ◌⊎◌, inl, inr, Bool, true, false, not, ◌&&◌, ◌||◌,
  some, arith, Bool-cases, Option-cases, Eq, eq_refl, string_eq, nat_eq,
}
use cursor_opencode_provider.Sessions.State.{
  PendingExecState, PendingExec, Session, exec_eq, Manager, Host, put_session,
  refresh_hard_deadline, hard_deadline_expired, pending, claimed, delivered,
}
use cursor_opencode_provider.Sessions.{
  Classification, set_pending, classify_pending, is_unusable, classify_lost, session_of, classify,
  Claimed, finish_claim, claim, deliverable, in_flight, already_delivered, missing, ended, claim_of,
  refused,
}
use cursor_opencode_provider.Sessions.Taking.{
  is_pending_state, wants, NotOffered, IsTaking, IsTaking-trans, is_deliverable,
  classify_tombstone_lem, IsTaking-put_session, wants-set_pending, session_of-cases,
  IsTaking-classify,
}
use cursor_opencode_provider.JsMap.{Map, get, set}
use cursor_opencode_provider.JsMap.Laws.{get-set}

-- A result that is offered: an open session waits for it, and its entry is kept with the deadline renewed.
record Offered (h : Host) (now : ℕ) (id : String) (exec : ℕ) (m : Manager) : Type 0 where
  session : Session
  entry : PendingExec
  routed : session_of (id, exec) m ≡ some session
  found : get id m.objects ≡ some session
  held : get exec session.pendings ≡ some entry
  is_open : session.closed ≡ false
  is_waiting : is_pending_state entry.state ≡ true
  result : classify h now id exec m ≡ (
    put_session id (set_pending exec (refresh_hard_deadline h now session entry) session) m,
    deliverable
        (set_pending exec (refresh_hard_deadline h now session entry) session)
        (refresh_hard_deadline h now session entry),
  )

pub PendingExecState-cases :
    (st : PendingExecState) → (st ≡ pending) ⊎ ((st ≡ claimed) ⊎ (st ≡ delivered))
PendingExecState-cases pending = inl refl
PendingExecState-cases claimed = inr (inl refl)
PendingExecState-cases delivered = inr (inr refl)

or_left : (a b : Bool) → (a || b) ≡ false → a ≡ false
or_left true b e = e
or_left false b e = refl

classify-cases :
    (h : Host) (now : ℕ) (id : String) (exec : ℕ) (m : Manager)
    → (is_deliverable (classify h now id exec m).1 ≡ false) ⊎ Offered h now id exec m
unfolding classify classify_lost classify_pending
classify-cases h now id exec m = elim (session_of-cases id exec m) [
  | inl e ↦ inl (simp (e, classify) (classify_tombstone_lem now (id, exec) m))
  | inr (s, e, o) ↦ elim (Option-cases (get exec s.pendings)) [
    | inl g ↦ inl (simp (e, g, classify) (classify_tombstone_lem now (id, exec) _))
    | inr (p, g) ↦ elim (Bool-cases (is_unusable now s p)) [
      | inl u ↦ inl (simp (e, g, u, classify) (classify_tombstone_lem now (id, exec) _))
      | inr u ↦ elim (Bool-cases (hard_deadline_expired h now s p)) [
        | inl b ↦ inl (simp (e, g, u, b, classify) (classify_tombstone_lem now (id, exec) _))
        | inr b ↦ elim (PendingExecState-cases p.state) [
          | inl q ↦ inr (record {
            session = s;
            entry = p;
            routed = e;
            found = o;
            held = g;
            is_open = or_left s.closed _ u;
            is_waiting = ap is_pending_state q;
            result = simp (e, g, u, b, q, classify) refl;
          })
          | inr (inl q) ↦ inl (simp (e, g, u, b, q, classify) refl)
          | inr (inr q) ↦ inl (simp (e, g, u, b, q, classify) refl)
        ]
      ]
    ]
  ]
]

abbrev pub is_claim : Claimed → Bool
is_claim (claim_of c) = true
is_claim (refused c) = false

finish_claim-refused :
    (id : String) (exec : ℕ) (m : Manager) (c : Classification)
    → is_deliverable c ≡ false
    → ((finish_claim id exec m c).0 ≡ m) × (is_claim (finish_claim id exec m c).1 ≡ false)
finish_claim-refused id exec m (deliverable s p) e = ground arith
finish_claim-refused id exec m in_flight e = (refl, refl)
finish_claim-refused id exec m already_delivered e = (refl, refl)
finish_claim-refused id exec m missing e = (refl, refl)
finish_claim-refused id exec m (ended why) e = (refl, refl)

pub claim-refused :
    (h : Host) (now : ℕ) (id : String) (exec : ℕ) (m : Manager)
    → is_deliverable (classify h now id exec m).1 ≡ false
    → ((claim h now id exec m).0 ≡ (classify h now id exec m).0)
      × (is_claim (claim h now id exec m).1 ≡ false)
unfolding claim
claim-refused h now id exec m e =
    finish_claim-refused id exec (classify h now id exec m).0 (classify h now id exec m).1 e

pub NotOffered-refused :
    (h : Host) (now : ℕ) (id : String) (exec : ℕ) (m : Manager)
    → NotOffered id exec m
    → is_deliverable (classify h now id exec m).1 ≡ false
NotOffered-refused h now id exec m n = elim (classify-cases h now id exec m) [
  | inl e ↦ e
  | inr o ↦ elim n [
    | inl f ↦ contradiction (ground (arith, o.routed))
    | inr f ↦ contradiction (
        ground
          (arith, o.held, o.is_open, o.is_waiting, subst (λ t. wants exec t ≡ false) o.found f))
  ]
]
  where
    contradiction : true ≡ false → is_deliverable (classify h now id exec m).1 ≡ false
    contradiction e = cc

-- What a claim makes of an offered result.
claimed_session :
    (h : Host) (now : ℕ) (id : String) (exec : ℕ) (m : Manager) → Offered h now id exec m → Session
claimed_session h now id exec m o =
    set_pending exec (record (refresh_hard_deadline h now o.session o.entry) { state = claimed })
      (set_pending exec (refresh_hard_deadline h now o.session o.entry) o.session)

claim-Offered :
    (h : Host) (now : ℕ) (id : String) (exec : ℕ) (m : Manager) (o : Offered h now id exec m)
    → (claim h now id exec m).0
      ≡ put_session id (claimed_session h now id exec m o) (classify h now id exec m).0
unfolding claim claimed_session
claim-Offered h now id exec m o = simp (o.result, claim) refl

kept_session :
    (h : Host) (now : ℕ) (id : String) (exec : ℕ) (m : Manager) → Offered h now id exec m → Session
kept_session h now id exec m o =
    set_pending exec (refresh_hard_deadline h now o.session o.entry) o.session

get-set_same :
    {K : Type 0} {V : Type 0} ⦃keys : Eq K⦄ (k : K) (v : V) (m : Map K V)
    → get k (set k v m) ≡ some v
get-set_same k v m = ground (arith, get-set k k v m, eq_refl k)

found-kept :
    (h : Host) (now : ℕ) (id : String) (exec : ℕ) (m : Manager) (o : Offered h now id exec m)
    → get id (classify h now id exec m).0.objects ≡ some (kept_session h now id exec m o)
unfolding kept_session
found-kept h now id exec m o =
    ap (λ (t : Manager × Classification). get id t.0.objects) o.result
    ∙ get-set_same id (kept_session h now id exec m o) m.objects

held-kept :
    (h : Host) (now : ℕ) (id : String) (exec : ℕ) (m : Manager) (o : Offered h now id exec m)
    → get exec (kept_session h now id exec m o).pendings
      ≡ some (refresh_hard_deadline h now o.session o.entry)
unfolding kept_session
held-kept h now id exec m o = get-set_same exec _ o.session.pendings

pub IsTaking-claim :
    (h : Host) (now : ℕ) (id : String) (exec : ℕ) (m : Manager)
    → IsTaking m (claim h now id exec m).0
unfolding claimed_session kept_session
IsTaking-claim h now id exec m = elim (classify-cases h now id exec m) [
  | inl e ↦
      subst (λ (t : Manager). IsTaking m t) (sym (claim-refused h now id exec m e).0)
        (IsTaking-classify h now id exec m)
  | inr o ↦
      let read : Manager = (classify h now id exec m).0 in
      IsTaking-trans m read (claim h now id exec m).0 (IsTaking-classify h now id exec m) (
        subst (λ (t : Manager). IsTaking read t) (sym (claim-Offered h now id exec m o))
          (IsTaking-put_session id (claimed_session h now id exec m o) read (λ other w.
            wants-set_pending exec other (kept_session h now id exec m o)
              (refresh_hard_deadline h now o.session o.entry) _ (held-kept h now id exec m o)
              (λ q. refl) (subst (λ t. wants other t ≡ false) (found-kept h now id exec m o) w))))
]

pub claim-NotOffered :
    (h : Host) (now : ℕ) (id : String) (exec : ℕ) (m : Manager)
    → is_claim (claim h now id exec m).1 ≡ true
    → NotOffered id exec (claim h now id exec m).0
unfolding claimed_session
claim-NotOffered h now id exec m e = elim (classify-cases h now id exec m) [
  | inl f ↦ contradiction (sym e ∙ (claim-refused h now id exec m f).1)
  | inr o ↦
      let session : Session = claimed_session h now id exec m o in
      let read : Manager = (classify h now id exec m).0 in
      inr (
        ap (λ (t : Manager). wants exec (get id t.objects)) (claim-Offered h now id exec m o)
        ∙ rw
            (
              get-set_same id session read.objects,
              get-set_same exec
                  (record (refresh_hard_deadline h now o.session o.entry) { state = claimed })
                  (set_pending exec (refresh_hard_deadline h now o.session o.entry)
                    o.session).pendings,
            )
            (and_false (not session.closed)))
]
  where
    contradiction : true ≡ false → NotOffered id exec (claim h now id exec m).0
    contradiction q = cc

    and_false : (b : Bool) → b && false ≡ false
    and_false true = refl
    and_false false = refl
