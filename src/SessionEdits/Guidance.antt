-- ===== src/SessionEdits/Guidance.antt =====
-- What a conversation holds of the deny, over its requests and over restarts.
use mathlib.Core.Option
use cursor_opencode_provider.Base.{
  String, ◌≡◌, refl, inl, inr, Bool, true, false, ◌&&◌, ◌||◌, Option, none, some, List, [], ◌∷◌,
  ◌++◌, arith, Bool-cases, Option-cases, get_or, eq_refl, string_eq, nat_eq,
}
use cursor_opencode_provider.JsMap.{get, delete}
use cursor_opencode_provider.JsMap.Laws.{get-delete, touch_last}
use cursor_opencode_provider.JsMap.Bounds.{get-append_new}
use cursor_opencode_provider.SessionEdits.{
  EditGuidance, Guidances, drop_oldest, set_edit_guidance, session_edits_guidance, sent_before,
  record_session_edits_guidance, session_edits_deny_sent, restore_session_edits_deny_sent,
}

-- What the conversation holds after a request with this guidance was written.
pub told : Bool → Option Bool → Bool
told holds guidance = get_or guidance holds

-- A request that is written and recorded: whether the session denies edits, whether it carries earlier state,
-- and whether its notes carry a deny. A restart: a new process restores the snapshot, and the conversation goes
-- on from an earlier checkpoint, which may be one that received a deny.
pub data Step : Type 0 where
  requests : Bool → Bool → Bool → Step
  restarts : Bool → Step

-- The process's records, whether the conversation holds a deny, and whether it ever received one.
pub record World : Type 0 where
  pub map : Guidances
  pub holds : Bool
  pub ever : Bool

-- What the conversation holds when a request is read, before its guidance: a fresh one holds what its notes carry.
abbrev pub held_by : Bool → Bool → Bool → Bool
held_by holds earlier carried = (earlier && holds) || carried

unfoldable pub after_step : String → World → Step → World
unfolding told session_edits_guidance record_session_edits_guidance session_edits_deny_sent
    restore_session_edits_deny_sent
after_step conversation w (requests denied earlier carried) = record {
  map = record_session_edits_guidance w.map conversation (some denied);
  holds =
      told (held_by w.holds earlier carried)
        (session_edits_guidance w.map conversation (some denied) earlier carried);
  ever = w.ever || denied;
}
after_step conversation w (restarts older) = record {
  map =
      restore_session_edits_deny_sent [] conversation (session_edits_deny_sent w.map conversation)
        false;
  holds = older && w.ever;
  ever = w.ever;
}

unfoldable pub after_steps : String → World → List Step → World
unfolding after_step
after_steps conversation w [] = w
after_steps conversation w (s ∷ ss) = after_steps conversation (after_step conversation w s) ss

drop_oldest-append :
    (conversation : String) (state : EditGuidance) (m : Guidances)
    → get conversation m ≡ none
    → get conversation (drop_oldest (m ++ ((conversation, state) ∷ []))) ≡ some state
drop_oldest-append conversation state [] h = ground (arith, eq_refl conversation)
drop_oldest-append conversation state (x ∷ m) h =
    ground (arith, get-append_new conversation state m, get-append_new conversation state (x ∷ m))

get-set_edit_guidance :
    (conversation : String) (state : EditGuidance) (m : Guidances)
    → get conversation (set_edit_guidance m conversation state) ≡ some state
unfolding set_edit_guidance
get-set_edit_guidance conversation state m = rw (touch_last conversation state m) (
    drop_oldest-append conversation state (delete conversation m)
      (ground (arith, get-delete conversation conversation m, eq_refl conversation)))

-- What a record means for the conversation: nothing is recorded of one that received no deny; the last request of
-- this process left its state; a restored mark is set if a deny was ever received.
abbrev Meaning : Option EditGuidance → Bool → Bool → Type 0
Meaning none holds ever = ever ≡ false
Meaning (some s) holds ever =
    ((ever ≡ true) → s.deny_sent ≡ true)
    × (elim s.last as (λ x. Type 0) [ none ↦ Unit | some d ↦ holds ≡ d ])

abbrev IsKnown : String → World → Type 0
IsKnown conversation w =
    Meaning (get conversation w.map) w.holds w.ever × ((w.holds ≡ true) → w.ever ≡ true)

guided :
    (o : Option EditGuidance) (m : Guidances) (conversation : String)
    (holds ever denied earlier carried : Bool)
    → get conversation m ≡ o
    → Meaning o holds ever
    → ((holds ≡ true) → ever ≡ true)
    → told
        (held_by holds earlier carried)
        (session_edits_guidance m conversation (some denied) earlier carried)
      ≡ denied
unfolding told session_edits_guidance
guided none m conversation holds ever denied earlier carried e h k = elim (Bool-cases holds) [
  | inl b ↦ ground (arith, k b)
  | inr b ↦ ground arith
]
guided (some s) m conversation holds ever denied earlier carried e (sent, last) k =
    elim (Option-cases s.last) [
      | inl n ↦ elim (Bool-cases holds) [
        | inl b ↦ ground (arith, k b, sent (k b))
        | inr b ↦ ground arith
      ]
      | inr (d, n) ↦ let same : holds ≡ d = rw n at last in ground (arith, same)
    ]

ever_sent :
    (o : Option EditGuidance) (holds ever : Bool)
    → Meaning o holds ever
    → ever ≡ true
    → sent_before o ≡ true
ever_sent none holds ever h e = ground (arith, h)
ever_sent (some s) holds ever (sent, last) e = sent e

snapshot_sent :
    (o : Option EditGuidance) (holds ever : Bool)
    → Meaning o holds ever
    → ever ≡ true
    → get_or (Option.map (λ (s : EditGuidance). s.deny_sent) o) true ≡ true
snapshot_sent none holds ever h e = refl
snapshot_sent (some s) holds ever (sent, last) e = sent e

recorded-IsKnown :
    (conversation : String) (w : World) (denied earlier carried : Bool)
    → IsKnown conversation w
    → IsKnown conversation (after_step conversation w (requests denied earlier carried))
      × ((after_step conversation w (requests denied earlier carried)).holds ≡ denied)
unfolding after_step record_session_edits_guidance
recorded-IsKnown conversation w denied earlier carried (h, k) =
    let state : EditGuidance = record {
      last = some denied;
      deny_sent = denied || sent_before (get conversation w.map);
    } in
    let at : get conversation (set_edit_guidance w.map conversation state) ≡ some state =
      get-set_edit_guidance conversation state w.map in
    let now =
      guided (get conversation w.map) w.map conversation w.holds w.ever denied earlier carried refl
        h k in
    let sent : (w.ever || denied) ≡ true → (denied || sent_before (get conversation w.map)) ≡ true =
      λ e.
        either denied w.ever (sent_before (get conversation w.map))
          (ever_sent (get conversation w.map) w.holds w.ever h) e in
    ((rw at (sent, now), λ e. ground (arith, now, e)), now)
  where
    either : (d v b : Bool) → (v ≡ true → b ≡ true) → (v || d) ≡ true → (d || b) ≡ true
    either true v b f e = refl
    either false true b f e = f refl
    either false false b f e = ground (arith, e)

restarted-IsKnown :
    (conversation : String) (w : World) (older : Bool)
    → IsKnown conversation w
    → IsKnown conversation (after_step conversation w (restarts older))
unfolding after_step restore_session_edits_deny_sent session_edits_deny_sent
restarted-IsKnown conversation w older (h, k) =
    let state : EditGuidance = record {
      last = none;
      deny_sent = session_edits_deny_sent w.map conversation;
    } in
    let at : get conversation (set_edit_guidance [] conversation state) ≡ some state =
      get-set_edit_guidance conversation state [] in
    (
      rw at (λ e. snapshot_sent (get conversation w.map) w.holds w.ever h e, tt),
      λ e. ground (arith, e),
    )

after_steps-IsKnown :
    (conversation : String) (w : World) (ss : List Step)
    → IsKnown conversation w
    → IsKnown conversation (after_steps conversation w ss)
unfolding after_steps
after_steps-IsKnown conversation w [] h = h
after_steps-IsKnown conversation w (requests denied earlier carried ∷ ss) h =
    after_steps-IsKnown conversation (after_step conversation w (requests denied earlier carried))
      ss (recorded-IsKnown conversation w denied earlier carried h).0
after_steps-IsKnown conversation w (restarts older ∷ ss) h =
    after_steps-IsKnown conversation (after_step conversation w (restarts older)) ss
      (restarted-IsKnown conversation w older h)

-- A conversation that the records do not know and that received no deny.
abbrev pub fresh_world : Guidances → World
fresh_world m = record { map = m; holds = false; ever = false }

-- Over every history of a conversation, from one that is not recorded and received no deny: after each request that
-- is written and recorded, whatever earlier state it carries and whatever deny its notes bring back, and after
-- restarts from any earlier checkpoint, the conversation holds the present state. Its record is not evicted between.
pub after_steps-holds :
    (m : Guidances) (conversation : String) (ss : List Step) (denied earlier carried : Bool)
    → get conversation m ≡ none
    → (after_step conversation
        (after_steps conversation (fresh_world m) ss)
        (requests denied earlier carried)).holds
      ≡ denied
after_steps-holds m conversation ss denied earlier carried e =
    (recorded-IsKnown conversation (after_steps conversation (fresh_world m) ss) denied earlier
      carried (after_steps-IsKnown conversation (fresh_world m) ss (rw e refl, λ f. f))).1
