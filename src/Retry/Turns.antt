-- ===== src/Retry/Turns.antt =====
-- `turnRetryBudget`: which budget a turn is given, and how much the map of budgets can hold.
use cursor_opencode_provider.Base.{
  ◌≤◌, ℕ, String, ◌≡◌, refl, inl, inr, true, false, Option, none, some, [], arith, Bool-cases,
  Option-cases, get_or, length, All, ◌==◌, string_eq, nat_eq,
}
use cursor_opencode_provider.JsMap.{get, touch, evict}
use cursor_opencode_provider.JsMap.Bounds.{length-evict, get-evict-touch}
use cursor_opencode_provider.Retry.{
  RetryBudget, max_turns_per_session, Turns, Budgets, assign, alloc, lookup, continued, commit,
  relabel, session_turn, turn_retry_budget,
}
use cursor_opencode_provider.Retry.Found.{All-set, All-delete, All-evict, lookup-touch}

abbrev pub turns_of : Budgets → String → Turns
turns_of st session = get_or (get session st.sessions) []

-- What the budget has counted, which a new attempt may not reset.
abbrev pub SameCounts : RetryBudget → RetryBudget → Type 0
SameCounts a b = (a.server ≡ b.server) × (a.transport ≡ b.transport) × (a.retries ≡ b.retries)

turns_of-commit :
    (st : Budgets) (session : String) (turns : Turns) (key : String) (id : ℕ)
    → turns_of (commit st session turns key id) session
      ≡ evict max_turns_per_session (touch key id turns)
unfolding commit
turns_of-commit st session turns key id =
    rw (get-evict-touch session (evict max_turns_per_session (touch key id turns)) 1023 st.sessions)

get-commit :
    (st : Budgets) (session : String) (turns : Turns) (key : String) (id : ℕ)
    → get key (turns_of (commit st session turns key id) session) ≡ some id
get-commit st session turns key id =
    rw (turns_of-commit st session turns key id) (get-evict-touch key id 15 turns)

continued_found :
    (heap : ℕ → RetryBudget) (c k : String) (id : ℕ) (turns : Turns)
    → lookup heap c turns ≡ some (k, id)
    → (heap id).host_retry_pending ≡ true
    → continued heap (some c) turns ≡ some (k, id)
unfolding continued
continued_found heap c k id turns found pending = rw (found, continued) (rw pending)

session_turn_continues :
    (st : Budgets) (session turn_key c k : String) (id : ℕ) (turns : Turns)
    → lookup st.heap turn_key turns ≡ none
    → continued st.heap (some c) turns ≡ some (k, id)
    → session_turn st session turns turn_key (some c)
      ≡ (commit (relabel st id turn_key) session turns k id, id)
unfolding session_turn
session_turn_continues st session turn_key c k id turns unknown found =
    rw (unknown, session_turn) (rw (found, session_turn))

turn_continues :
    (st : Budgets) (session turn_key c k : String) (id : ℕ)
    → (session == "") ≡ false
    → lookup st.heap turn_key (turns_of st session) ≡ none
    → lookup st.heap c (turns_of st session) ≡ some (k, id)
    → (st.heap id).host_retry_pending ≡ true
    → turn_retry_budget st (some session) turn_key (some c)
      ≡ (commit (relabel st id turn_key) session (turns_of st session) k id, id)
unfolding turn_retry_budget
turn_continues st session turn_key c k id named unknown found pending = rw named (
    session_turn_continues st session turn_key c k id (turns_of st session) unknown
      (continued_found st.heap c k id (turns_of st session) found pending))

-- The budget itself, once the entry is committed under its own key.
abbrev pub Carried : Budgets → Budgets × ℕ → String → String → String → ℕ → Type 0
Carried st r session turn_key k id =
    (r.1 ≡ id)
    × SameCounts (r.0.heap id) (st.heap id)
    × ((r.0.heap id).host_retry_pending ≡ false)
    × ((r.0.heap id).host_retry_key ≡ some turn_key)
    × (get k (turns_of r.0 session) ≡ some id)

commit-relabel :
    (st : Budgets) (session turn_key k : String) (id : ℕ) (turns : Turns)
    → Carried st (commit (relabel st id turn_key) session turns k id, id) session turn_key k id
commit-relabel st session turn_key k id turns =
    unfold commit assign in
    (
      refl,
      (ground arith, ground arith, ground arith),
      ground arith,
      ground arith,
      get-commit (relabel st id turn_key) session turns k id,
    )

lookup-commit :
    (st : Budgets) (session turn_key k : String) (id : ℕ) (turns : Turns)
    → lookup st.heap turn_key turns ≡ none
    → (k' : String) × (lookup
          (commit (relabel st id turn_key) session turns k id).heap
          turn_key
          (turns_of (commit (relabel st id turn_key) session turns k id) session)
        ≡ some (k', id))
lookup-commit st session turn_key k id turns unknown =
    rw (turns_of-commit (relabel st id turn_key) session turns k id) (
      lookup-touch st.heap (commit (relabel st id turn_key) session turns k id).heap turn_key k id
        turns (unfold commit assign in ground arith)
        (λ i e. unfold commit assign in ground (arith, e)) unknown)

session_turn_found :
    (st : Budgets) (session turn_key k' : String) (id : ℕ) (turns : Turns) (c : Option String)
    → lookup st.heap turn_key turns ≡ some (k', id)
    → (session_turn st session turns turn_key c).1 ≡ id
unfolding session_turn
session_turn_found st session turn_key k' id turns c found = rw (found, session_turn) refl

turn_found :
    (st : Budgets) (session turn_key k' : String) (id : ℕ) (c : Option String)
    → (session == "") ≡ false
    → lookup st.heap turn_key (turns_of st session) ≡ some (k', id)
    → (turn_retry_budget st (some session) turn_key c).1 ≡ id
unfolding turn_retry_budget
turn_found st session turn_key k' id c named found =
    rw named (session_turn_found st session turn_key k' id (turns_of st session) c found)

-- A host retry does not mint a fresh allowance. Where a turn's key is unknown and the continuation's
-- entry has a host retry pending, the turn is given that same budget object with its counts, and
-- the pending mark is cleared; the entry stays in the session's map, and the turn, asked for
-- again with any continuation or none, is given that same object.
pub turn_retry_budget-continues :
    (st : Budgets) (session turn_key continuation k : String) (id : ℕ) (next : Option String)
    → (session == "") ≡ false
    → lookup st.heap turn_key (turns_of st session) ≡ none
    → lookup st.heap continuation (turns_of st session) ≡ some (k, id)
    → (st.heap id).host_retry_pending ≡ true
    → Carried st
        (turn_retry_budget st (some session) turn_key (some continuation))
        session
        turn_key
        k
        id
      × ((turn_retry_budget
            (turn_retry_budget st (some session) turn_key (some continuation)).0
            (some session)
            turn_key
            next).1
          ≡ id)
turn_retry_budget-continues st session turn_key continuation k id next named unknown found pending =
    let turns = turns_of st session in
    let st' = commit (relabel st id turn_key) session turns k id in
    let again = lookup-commit st session turn_key k id turns unknown in
    rw (turn_continues st session turn_key continuation k id named unknown found pending) (
      commit-relabel st session turn_key k id turns,
      turn_found st' session turn_key again.0 id next named again.1,
    )

-- The bounds of the two maps: at most 16 turns for each session, and 1024 sessions.
abbrev pub IsBounded : Budgets → Type 0
IsBounded st =
    (length st.sessions ≤ 1024) × All (λ (e : String × Turns). length e.1 ≤ 16) st.sessions

commit-IsBounded :
    (st : Budgets) (session : String) (turns : Turns) (key : String) (id : ℕ)
    → IsBounded st
    → IsBounded (commit st session turns key id)
unfolding commit
commit-IsBounded st session turns key id (n, h) =
    let turns' = evict max_turns_per_session (touch key id turns) in
    let small : length turns' ≤ 16 = length-evict 16 (touch key id turns) in
    (
      length-evict 1024 (touch session turns' st.sessions),
      All-evict (λ t. length t ≤ 16) 1024 _
          (All-set (λ t. length t ≤ 16) session turns' _ small
            (All-delete (λ t. length t ≤ 16) session st.sessions h)),
    )

session_turn-IsBounded :
    (st : Budgets) (session : String) (turns : Turns) (key : String) (c : Option String)
    → IsBounded st
    → IsBounded (session_turn st session turns key c).0
unfolding session_turn
session_turn-IsBounded st session turns key c b = elim (Option-cases (lookup st.heap key turns)) [
  | inr ((k, id), e) ↦ rw (e, session_turn) (commit-IsBounded st session turns k id b)
  | inl e ↦ elim (Option-cases (continued st.heap c turns)) [
    | inr ((k, id), f) ↦
        rw (e, session_turn)
          (rw (f, session_turn) (commit-IsBounded (relabel st id key) session turns k id b))
    | inl f ↦
        rw (e, session_turn)
          (rw (f, session_turn) (commit-IsBounded (alloc st).0 session turns key (alloc st).1 b))
  ]
]

-- Abandoned turns cannot pile up: whatever is asked for, the map keeps at most 1024 sessions with
-- at most 16 turns each, if it did before.
pub turn_retry_budget-IsBounded :
    (st : Budgets) (session : Option String) (key : String) (c : Option String)
    → IsBounded st
    → IsBounded (turn_retry_budget st session key c).0
unfolding turn_retry_budget
turn_retry_budget-IsBounded st none key c b = b
turn_retry_budget-IsBounded st (some session) key c b = elim (Bool-cases (session == "")) [
  | inl e ↦ rw e b
  | inr e ↦ rw e (session_turn-IsBounded st session (turns_of st session) key c b)
]
