-- ===== src/Retry.antt =====
-- src/retry-budget.ts, and the fields of src/errors.ts that it reads.
-- A budget is shared by the map and by the live Run, so budgets are objects on a heap and the map
-- holds their names. Times are milliseconds in ℕ: a clock that goes back gives a difference of 0.
pub mod Bounds
pub mod Found
pub mod Turns
mod Tests
use cursor_opencode_provider.Base.{
  ◌+◌, ◌-◌, ◌*◌, ◌/◌, ◌%◌, ◌^◌, ◌≤◌, ◌<◌, min, max, ℕ, zero, suc, String, ◌≡◌, refl, sym, ap, ◌∙◌,
  subst, ◌≢◌, ◌↔◌, ◌⊎◌, inl, inr, Bool, true, false, not, ◌&&◌, ◌||◌, Option, none, some, List, [],
  ◌∷◌, ◌++◌, map, arith, ltb, leb, nat_beq, if◌then◌else◌, ltb→lt, lt→ltb, leb→le, nat_beq_iff,
  Bool-cases, Option-cases, is_some, get_or, length, take, drop, any, all, filter, length-append,
  length-filter-le, take-append-drop, length-take, length-drop, take-append, drop-append, All,
  All-append, All-filter, Eq, ◌==◌, eq_refl, string_eq, nat_eq,
}
use cursor_opencode_provider.JsMap.{Map, get, set, delete, touch, evict, modify}

pub data Origin : Type 0 where
  local_cancel transport server protocol auth : Origin

pub record Failure : Type 0 where
  pub origin : Origin
  pub code : Option String

pub record RetryBudget : Type 0 where
  pub server : ℕ
  pub transport : ℕ
  pub retries : ℕ
  pub stall_started_at : Option ℕ
  pub host_retry_pending : Bool
  pub host_retry_key : Option String

abbrev pub max_sessions : ℕ
max_sessions = 1024

abbrev pub max_turns_per_session : ℕ
max_turns_per_session = 16

abbrev pub new_retry_budget : RetryBudget
new_retry_budget = record {
  server = 0;
  transport = 0;
  retries = 0;
  stall_started_at = none;
  host_retry_pending = false;
  host_retry_key = none;
}

abbrev pub Turns : Type 0
Turns = Map String ℕ

pub record Budgets : Type 0 where
  pub next_id : ℕ
  pub heap : ℕ → RetryBudget
  pub sessions : Map String Turns

pub assign : ℕ → RetryBudget → (ℕ → RetryBudget) → ℕ → RetryBudget
assign id b heap j = if nat_beq j id then b else heap j

abbrev pub alloc : Budgets → Budgets × ℕ
alloc st = (
  record st { next_id = st.next_id + 1; heap = assign st.next_id new_retry_budget st.heap },
  st.next_id,
)

abbrev pub is_key : String → Option String → Bool
is_key key none = false
is_key key (some k) = k == key

-- `[...turns].find(([, budget]) => budget.hostRetryKey === key)`
pub find_retry : (ℕ → RetryBudget) → String → Turns → Option (String × ℕ)
find_retry heap key [] = none
find_retry heap key ((k, id) ∷ turns) =
    if is_key key (heap id).host_retry_key then some (k, id) else find_retry heap key turns

pub lookup : (ℕ → RetryBudget) → String → Turns → Option (String × ℕ)
lookup heap key turns = elim (get key turns) [
  | some id ↦ some (key, id)
  | none ↦ find_retry heap key turns
]

-- The budget that a continuation takes over: its entry, if a host retry was requested of it.
pub continued : (ℕ → RetryBudget) → Option String → Turns → Option (String × ℕ)
continued heap none turns = none
continued heap (some key) turns = elim (lookup heap key turns) [
  | none ↦ none
  | some (k, id) ↦ if (heap id).host_retry_pending then some (k, id) else none
]

-- The end of `turnRetryBudget`, once the key and the budget are known.
pub commit : Budgets → String → Turns → String → ℕ → Budgets
commit st session turns key id = record st {
  heap = assign id (record (st.heap id) { host_retry_pending = false }) st.heap;
  sessions =
      evict max_sessions
        (touch session (evict max_turns_per_session (touch key id turns)) st.sessions);
}

-- `budget.hostRetryKey = currentKey`
abbrev pub relabel : Budgets → ℕ → String → Budgets
relabel st id key = record st {
  heap = assign id (record (st.heap id) { host_retry_key = some key }) st.heap;
}

pub session_turn : Budgets → String → Turns → String → Option String → Budgets × ℕ
session_turn st session turns turn_key continuation_key = elim (lookup st.heap turn_key turns) [
  | some (k, id) ↦ (commit st session turns k id, id)
  | none ↦ elim (continued st.heap continuation_key turns) [
    | some (k, id) ↦ (commit (relabel st id turn_key) session turns k id, id)
    | none ↦ (commit (alloc st).0 session turns turn_key (alloc st).1, (alloc st).1)
  ]
]

-- An empty session key is falsy too. The answer is the budget object.
pub turn_retry_budget : Budgets → Option String → String → Option String → Budgets × ℕ
turn_retry_budget st none turn_key continuation_key = alloc st
turn_retry_budget st (some session) turn_key continuation_key =
    if session == ""
    then alloc st
    else session_turn st session (get_or (get session st.sessions) []) turn_key continuation_key

pub drop_budget : ℕ → Turns → Turns
drop_budget id turns = filter (λ e. not (nat_beq e.1 id)) turns

pub forget_session : Budgets → String → Option ℕ → Budgets
forget_session st session budget = elim (get session st.sessions) [
  | none ↦ st
  | some turns ↦ elim budget [
    | none ↦ record st { sessions = delete session st.sessions }
    | some id ↦
        let rest = drop_budget id turns in
        record st {
          sessions =
              if nat_beq (length rest) 0
              then delete session st.sessions
              else modify session (λ _. rest) st.sessions;
        }
  ]
]

pub forget_retry_budget : Budgets → Option String → Option ℕ → Budgets
forget_retry_budget st none budget = st
forget_retry_budget st (some session) budget =
    if session == "" then st else forget_session st session budget

-- `process.env.CURSOR_ENDLESS_RETRIES`, as the environment gives it.
pub endless_retries_enabled : Option String → Bool
endless_retries_enabled none = false
endless_retries_enabled (some v) = v == "1" || v == "true"

pub data Category : Type 0 where
  server transport : Category

abbrev pub is_transport : Origin → Bool
is_transport Origin.transport = true
is_transport _ = false

pub retry_category : Failure → Category
retry_category failure =
    if is_transport failure.origin && not (is_key "CURSOR_READ_IDLE_TIMEOUT" failure.code)
    then Category.transport
    else Category.server

pub record Policy : Type 0 where
  pub endless : Bool
  pub max_attempts : Option ℕ

abbrev pub used : Category → RetryBudget → ℕ
used Category.server b = b.server
used Category.transport b = b.transport

abbrev pub limit : Category → ℕ
limit Category.server = 3
limit Category.transport = 10

abbrev pub attempts_spent : Option ℕ → ℕ → Bool
attempts_spent none retries = false
attempts_spent (some most) retries = leb (most - 1) retries

abbrev pub expired : Option ℕ → ℕ → Bool
expired none now = false
expired (some start) now = leb 180000 (now - start)

abbrev pub count : Category → RetryBudget → RetryBudget
count Category.server b = record b { server = b.server + 1; retries = b.retries + 1 }
count Category.transport b = record b { transport = b.transport + 1; retries = b.retries + 1 }

-- `exhausted n` is the exception with its attempt count. The budget is assigned to in both cases.
pub data Outcome : Type 0 where
  reserved : Outcome
  exhausted : ℕ → Outcome

abbrev pub is_stall : Failure → Bool
is_stall failure = is_key "CURSOR_SEMANTIC_IDLE_TIMEOUT" failure.code

abbrev pub unstalled : Bool → RetryBudget → RetryBudget
unstalled stalled b = if stalled then b else record b { stall_started_at = none }

abbrev pub start_stall : Bool → ℕ → RetryBudget → RetryBudget
start_stall stalled now b =
    if stalled then record b { stall_started_at = some (get_or b.stall_started_at now) } else b

abbrev pub refuses : Policy → Category → Bool → ℕ → RetryBudget → Bool
refuses policy category stalled now b =
    (stalled && expired b.stall_started_at now)
    || (not policy.endless
        && (leb (limit category) (used category b) || attempts_spent policy.max_attempts b.retries))

pub reserve_retry : Policy → RetryBudget → Failure → ℕ → RetryBudget × Outcome
unfolding retry_category
reserve_retry policy budget failure now =
    let b = unstalled (is_stall failure) budget in
    if refuses policy (retry_category failure) (is_stall failure) now b
    then (b, exhausted (b.retries + 1))
    else (count (retry_category failure) (start_stall (is_stall failure) now b), reserved)
