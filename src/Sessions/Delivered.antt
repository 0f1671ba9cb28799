-- ===== src/Sessions/Delivered.antt =====
-- What a delivery that succeeds has written, and what the registry answers after it.
use cursor_opencode_provider.Base.{
  ◌+◌, ◌<◌, ℕ, zero, suc, String, ◌≡◌, refl, sym, ap, ◌∙◌, subst, ◌⊎◌, inl, inr, Bool, true, false,
  ◌&&◌, none, some, List, [], ◌∷◌, arith, leb, nat_beq, Bool-cases, Option-cases, length, all,
  eq_refl, string_eq, nat_eq,
}
use cursor_opencode_provider.Sessions.State.{
  PendingExec, Session, Tombstone, ExecKey, exec_eq, Manager, Host, put_session,
  refresh_hard_deadline, hard_deadline_expired, put_tombstone, get_tombstone,
}
use cursor_opencode_provider.Sessions.{
  Classification, classify_tombstone, set_pending, session_of, classify, Claim, deliverable,
  in_flight, already_delivered, missing, ended,
}
use cursor_opencode_provider.Sessions.Delivery.{
  Write, FrameWrite, DeliveryOutcome, claimed_entry, outcome_of, unavailable, give_up,
  settle_delivered, after_write, write_frames, needs_frames, start_writing, deliver_entry,
  deliver_claim, sent, not_drained, failed_write, all_delivered, is_in_flight, was_delivered,
  was_missing, was_ended,
}
use cursor_opencode_provider.Sessions.Once.{PendingExecState-cases}
use cursor_opencode_provider.JsMap.{Map, get, delete, touch, evict}
use cursor_opencode_provider.JsMap.Laws.{get-delete}
use cursor_opencode_provider.JsMap.Bounds.{get-evict-touch}

-- When the last frame was written.
abbrev pub ended_at : ℕ → List FrameWrite → ℕ
ended_at now [] = now
ended_at now (f ∷ fs) = ended_at f.after fs

-- The exec has no route, and its tombstone says that it was delivered at this time.
record IsDone (h : Host) (at : ℕ) (c : Claim) (m : Manager) : Type 0 where
  unrouted : get (c.session_id, c.exec_id) m.by_exec_id ≡ none
  marked :
      get (c.session_id, c.exec_id) m.tombstones
      ≡ some (record { reason = none; expires_at = at + h.tombstone_ttl_ms })

abbrev is_success : DeliveryOutcome → Bool
is_success (all_delivered n) = true
is_success (is_in_flight n) = false
is_success (was_delivered n) = false
is_success (was_missing n) = false
is_success (was_ended why n) = false

outcome_of-is_success : (c : Classification) (n : ℕ) → is_success (outcome_of c n) ≡ false
outcome_of-is_success (deliverable s p) n = refl
outcome_of-is_success in_flight n = refl
outcome_of-is_success already_delivered n = refl
outcome_of-is_success missing n = refl
outcome_of-is_success (ended why) n = refl

give_up-is_success :
    (h : Host) (now : ℕ) (c : Claim) (written : ℕ) (m : Manager)
    → is_success (give_up h now c written m).1 ≡ false
unfolding give_up unavailable
give_up-is_success h now c written m = elim (Option-cases (claimed_entry c m)) [
  | inl e ↦
      rw (e, give_up) (outcome_of-is_success (classify h now c.session_id c.exec_id m).1 written)
  | inr ((s, p), e) ↦ rw (e, give_up) refl
]

count_of : DeliveryOutcome → ℕ
count_of (all_delivered n) = n
count_of (is_in_flight n) = n
count_of (was_delivered n) = n
count_of (was_missing n) = n
count_of (was_ended why n) = n

delete_gone : (key : ExecKey) (m : Map ExecKey String) → get key (delete key m) ≡ none
delete_gone key m = ground (arith, get-delete key key m, eq_refl key)

newest_stays :
    (key : ExecKey) (t : Tombstone) (most : ℕ) (m : Map ExecKey Tombstone)
    → 0 < most
    → get key (evict most (touch key t m)) ≡ some t
newest_stays key t zero m l = absurd_below l
  where
    absurd_below : 0 < 0 → get key (evict 0 (touch key t m)) ≡ some t
    absurd_below l = ground (arith, l)
newest_stays key t (suc most) m l = get-evict-touch key t most m

settle_delivered-IsDone :
    (h : Host) (now : ℕ) (c : Claim) (written : ℕ) (m : Manager)
    → 0 < h.tombstone_limit
    → is_success (settle_delivered h now c written m).1 ≡ true
    → (count_of (settle_delivered h now c written m).1 ≡ written)
      × IsDone h now c (settle_delivered h now c written m).0
unfolding settle_delivered unavailable put_tombstone count_of
settle_delivered-IsDone h now c written m l e = elim (Option-cases (claimed_entry c m)) [
  | inl f ↦
      let other : is_success (outcome_of (classify h now c.session_id c.exec_id m).1 written)
          ≡ true =
        rw (f, settle_delivered) at e in
      contradiction
        (sym other ∙ outcome_of-is_success (classify h now c.session_id c.exec_id m).1 written)
  | inr ((s, p), f) ↦
      rw (f, settle_delivered)
        (
          refl,
          record {
            unrouted = delete_gone (c.session_id, c.exec_id) m.by_exec_id;
            marked = newest_stays (c.session_id, c.exec_id) _ h.tombstone_limit m.tombstones l;
          },
        )
]
  where
    contradiction :
        true ≡ false
        → (count_of (settle_delivered h now c written m).1 ≡ written)
          × IsDone h now c (settle_delivered h now c written m).0
    contradiction q = cc

unavailable-is_success :
    (h : Host) (now : ℕ) (c : Claim) (written : ℕ) (m : Manager)
    → is_success (unavailable h now c written m).1 ≡ false
unfolding unavailable
unavailable-is_success h now c written m =
    outcome_of-is_success (classify h now c.session_id c.exec_id m).1 written

Write-cases : (w : Write) → (w ≡ sent) ⊎ ((w ≡ not_drained) ⊎ (w ≡ failed_write))
Write-cases sent = inl refl
Write-cases not_drained = inr (inl refl)
Write-cases failed_write = inr (inr refl)

after_write-success :
    (h : Host) (now : ℕ) (c : Claim) (written : ℕ) (w : Write) (m : Manager)
    (rest : Manager × DeliveryOutcome)
    → is_success (after_write h now c written w m rest).1 ≡ true
    → after_write h now c written w m rest ≡ rest
unfolding after_write
after_write-success h now c written failed_write m rest e =
    ground (arith, give_up-is_success h now c written m)
after_write-success h now c written not_drained m rest e =
    ground (arith, give_up-is_success h now c (suc written) m)
after_write-success h now c written sent m rest e = elim (Option-cases (claimed_entry c m)) [
  | inl f ↦ ground (arith, rw (f, after_write) at e, unavailable-is_success h now c (suc written) m)
  | inr (held, f) ↦ rw (f, after_write) refl
]

abbrev pub is_sent : FrameWrite → Bool
is_sent f = elim f.write [ sent ↦ true | not_drained ↦ false | failed_write ↦ false ]

after_write-sent :
    (h : Host) (now : ℕ) (c : Claim) (written : ℕ) (f : FrameWrite) (m : Manager)
    (rest : Manager × DeliveryOutcome)
    → is_success (after_write h now c written f.write m rest).1 ≡ true
    → is_sent f ≡ true
unfolding after_write
after_write-sent h now c written f m rest e = elim (Write-cases f.write) [
  | inl w ↦ rw w refl
  | inr (inl w) ↦
      let k : is_success (give_up h now c (suc written) m).1 ≡ true = rw (w, after_write) at e in
      ground (arith, k, give_up-is_success h now c (suc written) m)
  | inr (inr w) ↦
      let k : is_success (give_up h now c written m).1 ≡ true = rw (w, after_write) at e in
      ground (arith, k, give_up-is_success h now c written m)
]

write_frames-sent :
    (h : Host) (now : ℕ) (c : Claim) (written : ℕ) (fs : List FrameWrite) (m : Manager)
    → is_success (write_frames h now c written fs m).1 ≡ true
    → all is_sent fs ≡ true
unfolding write_frames
write_frames-sent h now c written [] m e = refl
write_frames-sent h now c written (f ∷ fs) m e =
    let rest : Manager × DeliveryOutcome =
      write_frames h f.after c (suc written) fs (f.meanwhile m) in
    let same : after_write h f.after c written f.write (f.meanwhile m) rest ≡ rest =
      after_write-success h f.after c written f.write (f.meanwhile m) rest e in
    let here : is_sent f ≡ true = after_write-sent h f.after c written f (f.meanwhile m) rest e in
    let later : all is_sent fs ≡ true =
      write_frames-sent h f.after c (suc written) fs (f.meanwhile m)
        (subst (λ (r : Manager × DeliveryOutcome). is_success r.1 ≡ true) same e) in
    rw (here, later) refl

write_frames-IsDone :
    (h : Host) (now : ℕ) (c : Claim) (written : ℕ) (fs : List FrameWrite) (m : Manager)
    → 0 < h.tombstone_limit
    → is_success (write_frames h now c written fs m).1 ≡ true
    → (count_of (write_frames h now c written fs m).1 ≡ written + length fs)
      × IsDone h (ended_at now fs) c (write_frames h now c written fs m).0
unfolding write_frames
write_frames-IsDone h now c written [] m l e =
    let (n, d) : (count_of (settle_delivered h now c written m).1 ≡ written)
        × IsDone h now c (settle_delivered h now c written m).0 =
      settle_delivered-IsDone h now c written m l e in
    (omega (arith, n), d)
write_frames-IsDone h now c written (f ∷ fs) m l e =
    let rest : Manager × DeliveryOutcome =
      write_frames h f.after c (suc written) fs (f.meanwhile m) in
    let same : after_write h f.after c written f.write (f.meanwhile m) rest ≡ rest =
      after_write-success h f.after c written f.write (f.meanwhile m) rest e in
    let (n, d) : (count_of rest.1 ≡ suc written + length fs)
        × IsDone h (ended_at f.after fs) c rest.0 =
      write_frames-IsDone h f.after c (suc written) fs (f.meanwhile m) l
        (subst (λ (r : Manager × DeliveryOutcome). is_success r.1 ≡ true) same e) in
    (
      ap (λ (r : Manager × DeliveryOutcome). count_of r.1) same ∙ n ∙ omega arith,
      subst (λ (r : Manager × DeliveryOutcome). IsDone h (ended_at f.after fs) c r.0) (sym same) d,
    )

-- The registry answers for a delivered exec, until its tombstone expires.
classify-IsDone :
    (h : Host) (at later : ℕ) (c : Claim) (m : Manager)
    → IsDone h at c m
    → later < at + h.tombstone_ttl_ms
    → (classify h later c.session_id c.exec_id m).1 ≡ already_delivered
unfolding classify classify_tombstone get_tombstone
classify-IsDone h at later c m d l =
    let lost : session_of (c.session_id, c.exec_id) m ≡ none = rw (d.unrouted, session_of) refl in
    let fresh : leb (at + h.tombstone_ttl_ms) later ≡ false = ground (arith, l) in
    rw (lost, classify) (rw (d.marked, fresh, classify_tombstone, get_tombstone) refl)

-- Success comes from the writing of the frames alone.
abbrev Writes : Host → ℕ → Claim → List FrameWrite → Manager × DeliveryOutcome → Type 0
Writes h now c fs result = (begun : Manager) × (result ≡ write_frames h now c 0 fs begun)

start_writing-Writes :
    (h : Host) (now : ℕ) (c : Claim) (s : Session) (p : PendingExec) (fs : List FrameWrite)
    (deferred : Bool) (m : Manager)
    → is_success (start_writing h now c s p fs deferred m).1 ≡ true
    → Writes h now c fs (start_writing h now c s p fs deferred m)
unfolding start_writing
start_writing-Writes h now c s p fs deferred m e =
    elim (Bool-cases (nat_beq (length fs) 0 && needs_frames p deferred)) [
      | inl b ↦ contradiction (sym (rw (b, start_writing) at e) ∙ give_up-is_success h now c 0 _)
      | inr b ↦
          let renewed : PendingExec = refresh_hard_deadline h now s p in
          let begun : Manager =
            put_session c.session_id
              (set_pending c.exec_id (record renewed { is_delivering = true }) s) m in
          (begun, rw (b, start_writing) refl)
    ]
  where
    contradiction : true ≡ false → Writes h now c fs (start_writing h now c s p fs deferred m)
    contradiction q = cc

deliver_entry-Writes :
    (h : Host) (now : ℕ) (c : Claim) (s : Session) (p : PendingExec) (fs : List FrameWrite)
    (deferred : Bool) (m : Manager)
    → is_success (deliver_entry h now c s p fs deferred m).1 ≡ true
    → Writes h now c fs (deliver_entry h now c s p fs deferred m)
unfolding deliver_entry
deliver_entry-Writes h now c s p fs deferred m e = elim (PendingExecState-cases p.state) [
  | inl q ↦ contradiction (sym (rw (q, deliver_entry) at e))
  | inr (inr q) ↦ contradiction (sym (rw (q, deliver_entry) at e))
  | inr (inl q) ↦ elim (Bool-cases p.is_delivering) [
    | inl b ↦ contradiction (sym (rw (q, b, deliver_entry) at e))
    | inr b ↦ elim (Bool-cases (hard_deadline_expired h now s p)) [
      | inl x ↦ contradiction (sym (simp (q, b, x, deliver_entry) at e))
      | inr x ↦
          let same : deliver_entry h now c s p fs deferred m
              ≡ start_writing h now c s p fs deferred m =
            simp (q, b, x, deliver_entry) refl in
          let (begun, w) : Writes h now c fs (start_writing h now c s p fs deferred m) =
            start_writing-Writes h now c s p fs deferred m
              (subst (λ (r : Manager × DeliveryOutcome). is_success r.1 ≡ true) same e) in
          (begun, same ∙ w)
    ]
  ]
]
  where
    contradiction : true ≡ false → Writes h now c fs (deliver_entry h now c s p fs deferred m)
    contradiction q = cc

deliver_claim-Writes :
    (h : Host) (now : ℕ) (c : Claim) (fs : List FrameWrite) (deferred : Bool) (m : Manager)
    → is_success (deliver_claim h now c fs deferred m).1 ≡ true
    → Writes h now c fs (deliver_claim h now c fs deferred m)
unfolding deliver_claim
deliver_claim-Writes h now c fs deferred m e = elim (Option-cases (claimed_entry c m)) [
  | inl f ↦ contradiction (sym (rw (f, deliver_claim) at e) ∙ unavailable-is_success h now c 0 m)
  | inr ((s, p), f) ↦
      let same : deliver_claim h now c fs deferred m ≡ deliver_entry h now c s p fs deferred m =
        rw (f, deliver_claim) refl in
      let (begun, w) : Writes h now c fs (deliver_entry h now c s p fs deferred m) =
        deliver_entry-Writes h now c s p fs deferred m
          (subst (λ (r : Manager × DeliveryOutcome). is_success r.1 ≡ true) same e) in
      (begun, same ∙ w)
]
  where
    contradiction : true ≡ false → Writes h now c fs (deliver_claim h now c fs deferred m)
    contradiction q = cc

-- A delivery that succeeds has sent every frame, each with its drain, and none more; and in the registry that it
-- leaves, a look at the result answers that it was delivered, at any time before the tombstone expires. During
-- the writes the other callers may have done anything to the registry.
pub deliver_claim-all_delivered :
    (h : Host) (now : ℕ) (c : Claim) (fs : List FrameWrite) (deferred : Bool) (m : Manager)
    (n later : ℕ)
    → 0 < h.tombstone_limit
    → (deliver_claim h now c fs deferred m).1 ≡ all_delivered n
    → later < ended_at now fs + h.tombstone_ttl_ms
    → (n ≡ length fs)
      × (all is_sent fs ≡ true)
      × ((classify h later c.session_id c.exec_id (deliver_claim h now c fs deferred m).0).1
          ≡ already_delivered)
unfolding deliver_claim count_of
deliver_claim-all_delivered h now c fs deferred m n later l e t =
    let good : is_success (deliver_claim h now c fs deferred m).1 ≡ true = ap is_success e in
    let (begun, same) : Writes h now c fs (deliver_claim h now c fs deferred m) =
      deliver_claim-Writes h now c fs deferred m good in
    let (count, done) : (count_of (write_frames h now c 0 fs begun).1 ≡ 0 + length fs)
        × IsDone h (ended_at now fs) c (write_frames h now c 0 fs begun).0 =
      write_frames-IsDone h now c 0 fs begun l
        (subst (λ (r : Manager × DeliveryOutcome). is_success r.1 ≡ true) same good) in
    (
      sym (ap count_of e)
          ∙ ap (λ (r : Manager × DeliveryOutcome). count_of r.1) same
          ∙ count
          ∙ omega arith,
      write_frames-sent h now c 0 fs begun
          (subst (λ (r : Manager × DeliveryOutcome). is_success r.1 ≡ true) same good),
      classify-IsDone h (ended_at now fs) later c (deliver_claim h now c fs deferred m).0
          (subst (λ (r : Manager × DeliveryOutcome). IsDone h (ended_at now fs) c r.0) (sym same)
            done)
          t,
    )
