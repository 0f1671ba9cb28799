-- ===== src/Sessions/Delivery.antt =====
-- src/session.ts: deliverClaim. A frame's write is sent, buffered without a drain, or refused, and during the wait
-- for its drain the other callers may do anything to the registry.
use cursor_opencode_provider.Base.{
  ℕ, suc, Bool, true, not, ◌&&◌, ◌||◌, Option, none, some, List, [], ◌∷◌, nat_beq, if◌then◌else◌,
  length, string_eq, nat_eq,
}
use cursor_opencode_provider.Sessions.State.{
  TerminalReason, PendingExec, Session, exec_eq, Manager, Host, put_session, refresh_hard_deadline,
  hard_deadline_expired, put_tombstone, pending, claimed, delivered, hard_cap_expired,
  result_write_failed, ambiguous_partial_write, terminal,
}
use cursor_opencode_provider.Sessions.{
  close, Classification, set_pending, session_of, classify, Claim, deliverable, in_flight,
  already_delivered, missing, ended,
}
use cursor_opencode_provider.Sessions.Registry.{after_taking}
use cursor_opencode_provider.JsMap.{get, delete}

pub data Write : Type 0 where
  sent not_drained failed_write : Write

-- A frame: how its write ends, what happens meanwhile, and the time after it.
pub record FrameWrite : Type 0 where
  pub write : Write
  pub meanwhile : Manager → Manager
  pub after : ℕ

pub data DeliveryOutcome : Type 0 where
  all_delivered is_in_flight was_delivered was_missing : ℕ → DeliveryOutcome
  was_ended : TerminalReason → ℕ → DeliveryOutcome

-- The entry that was claimed, while the Run still holds it.
abbrev pub claimed_entry : Claim → Manager → Option (Session × PendingExec)
claimed_entry c m = elim (session_of (c.session_id, c.exec_id) m) [
  | none ↦ none
  | some s ↦ elim (get c.exec_id s.pendings) [
    | none ↦ none
    | some p ↦ if s.closed || not (nat_beq p.object c.object) then none else some (s, p)
  ]
]

abbrev pub outcome_of : Classification → ℕ → DeliveryOutcome
outcome_of (deliverable s p) written = was_missing written
outcome_of in_flight written = is_in_flight written
outcome_of already_delivered written = was_delivered written
outcome_of missing written = was_missing written
outcome_of (ended why) written = was_ended why written

unfoldable pub unavailable : Host → ℕ → Claim → ℕ → Manager → Manager × DeliveryOutcome
unfolding classify
unavailable h now c written m =
    let (read, found) = classify h now c.session_id c.exec_id m in (read, outcome_of found written)

-- The end of a write that threw: the Run is closed, unless the entry is another's by now.
unfoldable pub give_up : Host → ℕ → Claim → ℕ → Manager → Manager × DeliveryOutcome
unfolding unavailable close
give_up h now c written m =
    let why = if nat_beq written 0 then result_write_failed else ambiguous_partial_write in
    elim (claimed_entry c m) [
      | none ↦ unavailable h now c written m
      | some (s, p) ↦ (close h now c.session_id (terminal why) m, was_ended why written)
    ]

-- The entry is taken out as delivered.
unfoldable pub settle_delivered : Host → ℕ → Claim → ℕ → Manager → Manager × DeliveryOutcome
unfolding unavailable put_tombstone after_taking
settle_delivered h now c written m = elim (claimed_entry c m) [
  | none ↦ unavailable h now c written m
  | some (s, p) ↦
      let marked = put_tombstone h now (c.session_id, c.exec_id) none m in
      (
        put_session c.session_id
            (after_taking h now (record s {
              pendings = delete c.exec_id s.pendings;
              answered_continuation = s.answered_continuation || p.answered;
            }))
            (record marked { by_exec_id = delete (c.session_id, c.exec_id) marked.by_exec_id }),
        all_delivered written,
      )
]

-- After a frame: the rest if its write was sent and the Run still holds the entry.
unfoldable pub after_write :
    Host → ℕ → Claim → ℕ → Write → Manager → Manager × DeliveryOutcome → Manager × DeliveryOutcome
unfolding give_up unavailable
after_write h now c written failed_write m rest = give_up h now c written m
after_write h now c written not_drained m rest = give_up h now c (suc written) m
after_write h now c written sent m rest = elim (claimed_entry c m) [
  | none ↦ unavailable h now c (suc written) m
  | some held ↦ rest
]

-- The frames one after another, from the number that is written.
unfoldable pub write_frames :
    Host → ℕ → Claim → ℕ → List FrameWrite → Manager → Manager × DeliveryOutcome
unfolding settle_delivered after_write
write_frames h now c written [] m = settle_delivered h now c written m
write_frames h now c written (f ∷ fs) m =
    let rest = write_frames h f.after c (suc written) fs (f.meanwhile m) in
    after_write h f.after c written f.write (f.meanwhile m) rest

abbrev pub needs_frames : PendingExec → Bool → Bool
needs_frames p reply_deferred = not (p.bridged || (p.aborted || (p.answered || reply_deferred)))

unfoldable pub start_writing :
    Host
    → ℕ
    → Claim
    → Session
    → PendingExec
    → List FrameWrite
    → Bool
    → Manager
    → Manager × DeliveryOutcome
unfolding write_frames
start_writing h now c s p frames reply_deferred m =
    let renewed = refresh_hard_deadline h now s p in
    let begun =
      put_session c.session_id (set_pending c.exec_id (record renewed { is_delivering = true }) s)
        m in
    if nat_beq (length frames) 0 && needs_frames p reply_deferred
    then give_up h now c 0 begun
    else write_frames h now c 0 frames begun

-- A claimed entry, by its state and its deadline.
unfoldable pub deliver_entry :
    Host
    → ℕ
    → Claim
    → Session
    → PendingExec
    → List FrameWrite
    → Bool
    → Manager
    → Manager × DeliveryOutcome
unfolding start_writing
deliver_entry h now c s p frames reply_deferred m = elim p.state [
  | pending ↦ (m, is_in_flight 0)
  | delivered ↦ (m, was_delivered 0)
  | claimed ↦
      if p.is_delivering
      then (m, is_in_flight 0)
      else if hard_deadline_expired h now s p
      then (close h now c.session_id (terminal hard_cap_expired) m, was_ended hard_cap_expired 0)
      else start_writing h now c s p frames reply_deferred m
]

unfoldable pub deliver_claim :
    Host → ℕ → Claim → List FrameWrite → Bool → Manager → Manager × DeliveryOutcome
unfolding deliver_entry
deliver_claim h now c frames reply_deferred m = elim (claimed_entry c m) [
  | none ↦ unavailable h now c 0 m
  | some (s, p) ↦ deliver_entry h now c s p frames reply_deferred m
]
