-- ===== src/Retry/Bounds.antt =====
-- How many retries one budget allows.
use cursor_opencode_provider.Base.{
  ◌+◌, ◌-◌, ◌≤◌, ◌<◌, ℕ, ◌≡◌, refl, ap, ◌∙◌, subst, ◌↔◌, inl, inr, Bool, true, false, not, ◌&&◌,
  Option, none, some, List, [], ◌∷◌, arith, if◌then◌else◌, Bool-cases, string_eq, nat_eq,
}
use cursor_opencode_provider.Retry.{
  Failure, RetryBudget, new_retry_budget, Policy, Category, used, limit, attempts_spent, expired,
  count, Outcome, reserved, exhausted, is_stall, unstalled, start_stall, refuses, retry_category,
  reserve_retry,
}

-- What the limits allow; `most` is the policy's number of attempts.
abbrev pub WithinAttempts : Option ℕ → ℕ → Type 0
WithinAttempts none retries = Unit {0}
WithinAttempts (some most) retries = retries ≤ most - 1

pub record IsWithin (policy : Policy) (b : RetryBudget) : Type 0 where
  pub server : b.server ≤ 3
  pub transport : b.transport ≤ 10
  pub total : b.retries ≡ b.server + b.transport
  pub attempts : WithinAttempts policy.max_attempts b.retries

WithinAttempts-step : (m : Option ℕ) (n : ℕ) → attempts_spent m n ≡ false → WithinAttempts m (n + 1)
WithinAttempts-step none n h = tt
WithinAttempts-step (some most) n h = ground arith

-- What a test that lets a retry pass has checked.
abbrev Passed : Policy → Category → RetryBudget → Type 0
Passed policy c b = (used c b < limit c) × (attempts_spent policy.max_attempts b.retries ≡ false)

refuses-Passed :
    (policy : Policy) (c : Category) (b : RetryBudget) (stalled : Bool) (now : ℕ)
    → policy.endless ≡ false
    → refuses policy c stalled now b ≡ false
    → Passed policy c b
refuses-Passed policy c b stalled now e r = (ground arith, ground arith)

count-IsWithin :
    (policy : Policy) (c : Category) (b : RetryBudget)
    → IsWithin policy b
    → Passed policy c b
    → IsWithin policy (count c b)
count-IsWithin policy Category.server b w (lt, a) = record {
  server = omega arith;
  transport = w.transport;
  total = omega arith;
  attempts = WithinAttempts-step policy.max_attempts b.retries a;
}
count-IsWithin policy Category.transport b w (lt, a) = record {
  server = w.server;
  transport = omega arith;
  total = omega arith;
  attempts = WithinAttempts-step policy.max_attempts b.retries a;
}

unstalled-IsWithin :
    (policy : Policy) (s : Bool) (b : RetryBudget)
    → IsWithin policy b
    → IsWithin policy (unstalled s b)
unstalled-IsWithin policy true b w = w
unstalled-IsWithin policy false b w = record {
  server = w.server;
  transport = w.transport;
  total = w.total;
  attempts = w.attempts;
}

start_stall-IsWithin :
    (policy : Policy) (c : Category) (s : Bool) (now : ℕ) (b : RetryBudget)
    → IsWithin policy b × Passed policy c b
    → IsWithin policy (start_stall s now b) × Passed policy c (start_stall s now b)
start_stall-IsWithin policy Category.server true now b (w, p) = (
  record { server = w.server; transport = w.transport; total = w.total; attempts = w.attempts },
  p,
)
start_stall-IsWithin policy Category.transport true now b (w, p) = (
  record { server = w.server; transport = w.transport; total = w.total; attempts = w.attempts },
  p,
)
start_stall-IsWithin policy c false now b h = h

pub new-IsWithin : (policy : Policy) → IsWithin policy new_retry_budget
new-IsWithin policy = record {
  server = omega arith;
  transport = omega arith;
  total = refl;
  attempts = none_spent policy.max_attempts;
}
  where
    none_spent : (m : Option ℕ) → WithinAttempts m 0
    none_spent none = tt
    none_spent (some most) = omega arith

pub reserve_retry-IsWithin :
    (policy : Policy) (b : RetryBudget) (f : Failure) (now : ℕ)
    → policy.endless ≡ false
    → IsWithin policy b
    → IsWithin policy (reserve_retry policy b f now).0
unfolding reserve_retry
reserve_retry-IsWithin policy b f now e w =
    let b' = unstalled (is_stall f) b in
    let w' = unstalled-IsWithin policy (is_stall f) b w in
    elim (Bool-cases (refuses policy (retry_category f) (is_stall f) now b')) [
      | inl no_more ↦ rw no_more w'
      | inr free ↦
          let p = refuses-Passed policy (retry_category f) b' (is_stall f) now e free in
          let (v, q) = start_stall-IsWithin policy (retry_category f) (is_stall f) now b' (w', p) in
          rw free (count-IsWithin policy (retry_category f) _ v q)
    ]

abbrev pub is_reserved : Outcome → Bool
is_reserved reserved = true
is_reserved (exhausted n) = false

-- The budget after a run of failures, and how many of them were given a retry.
unfoldable pub reserve_all : Policy → RetryBudget → List (Failure × ℕ) → RetryBudget × ℕ
unfolding reserve_retry
reserve_all policy b [] = (b, 0)
reserve_all policy b ((f, now) ∷ fs) =
    let (b', outcome) = reserve_retry policy b f now in
    let (last, n) = reserve_all policy b' fs in (last, if is_reserved outcome then n + 1 else n)

count_retries :
    (c : Category) (s : Bool) (now : ℕ) (b : RetryBudget)
    → (count c (start_stall s now b)).retries ≡ b.retries + 1
count_retries Category.server true now b = refl
count_retries Category.server false now b = refl
count_retries Category.transport true now b = refl
count_retries Category.transport false now b = refl

unstalled_retries : (s : Bool) (b : RetryBudget) → (unstalled s b).retries ≡ b.retries
unstalled_retries true b = refl
unstalled_retries false b = refl

reserve_retry-counts :
    (policy : Policy) (b : RetryBudget) (f : Failure) (now : ℕ)
    → (reserve_retry policy b f now).0.retries
      ≡ (if is_reserved (reserve_retry policy b f now).1 then b.retries + 1 else b.retries)
unfolding reserve_retry
reserve_retry-counts policy b f now = ground (
  arith,
  unstalled_retries (is_stall f) b,
  count_retries (retry_category f) (is_stall f) now (unstalled (is_stall f) b),
)

reserve_all-counts :
    (policy : Policy) (b : RetryBudget) (fs : List (Failure × ℕ))
    → (reserve_all policy b fs).0.retries ≡ b.retries + (reserve_all policy b fs).1
unfolding reserve_all
reserve_all-counts policy b [] = omega arith
reserve_all-counts policy b ((f, now) ∷ fs) = ground (
  arith,
  reserve_retry-counts policy b f now,
  reserve_all-counts policy (reserve_retry policy b f now).0 fs,
)

reserve_all-IsWithin :
    (policy : Policy) (b : RetryBudget) (fs : List (Failure × ℕ))
    → policy.endless ≡ false
    → IsWithin policy b
    → IsWithin policy (reserve_all policy b fs).0
unfolding reserve_all
reserve_all-IsWithin policy b [] e w = w
reserve_all-IsWithin policy b ((f, now) ∷ fs) e w =
    reserve_all-IsWithin policy (reserve_retry policy b f now).0 fs e
      (reserve_retry-IsWithin policy b f now e w)

-- However many failures a turn meets, and in whatever order and at whatever times, one budget gives
-- at most 13 retries (3 of the server category and 10 of transport) when endless retries are off,
-- and fewer than the policy's attempts where it sets them.
pub reserve_all_bounds :
    (policy : Policy) (fs : List (Failure × ℕ))
    → policy.endless ≡ false
    → ((reserve_all policy new_retry_budget fs).1 ≤ 13)
      × WithinAttempts policy.max_attempts (reserve_all policy new_retry_budget fs).1
reserve_all_bounds policy fs e =
    let w = reserve_all-IsWithin policy new_retry_budget fs e (new-IsWithin policy) in
    let same : (reserve_all policy new_retry_budget fs).0.retries
        ≡ (reserve_all policy new_retry_budget fs).1 =
      omega (arith, reserve_all-counts policy new_retry_budget fs) in
    (omega arith, subst (WithinAttempts policy.max_attempts) same w.attempts)

abbrev pub StalledSince : Option ℕ → ℕ → Type 0
StalledSince began now = (start : ℕ) × (began ≡ some start) × (180000 ≤ now - start)

expired-StalledSince : (o : Option ℕ) (now : ℕ) → expired o now ≡ true → StalledSince o now
expired-StalledSince none now h = cc
expired-StalledSince (some start) now h = (start, refl, ground arith)

StalledSince-expired : (o : Option ℕ) (now : ℕ) → StalledSince o now → expired o now ≡ true
StalledSince-expired o now (start, e, l) = rw e (ground arith)

reserve_retry_outcome :
    (policy : Policy) (b : RetryBudget) (f : Failure) (now : ℕ)
    → is_reserved (reserve_retry policy b f now).1
      ≡ not (refuses policy (retry_category f) (is_stall f) now (unstalled (is_stall f) b))
unfolding reserve_retry
reserve_retry_outcome policy b f now =
    elim (Bool-cases
      (refuses policy (retry_category f) (is_stall f) now (unstalled (is_stall f) b))) [
        | inl h ↦ rw h
        | inr h ↦ rw h
      ]

refuses_endless :
    (policy : Policy) (c : Category) (s : Bool) (b : RetryBudget) (now : ℕ)
    → policy.endless ≡ true
    → refuses policy c s now (unstalled s b) ≡ (s && expired b.stall_started_at now)
refuses_endless policy c true b now e = ground arith
refuses_endless policy c false b now e = ground arith

-- With endless retries a reservation is refused exactly for a stall that began at least 180 seconds
-- before; every other failure is given a retry, whatever was used up.
pub reserve_retry_endless :
    (policy : Policy) (b : RetryBudget) (f : Failure) (now : ℕ)
    → policy.endless ≡ true
    → (is_reserved (reserve_retry policy b f now).1 ≡ false)
      ↔ ((is_stall f ≡ true) × StalledSince b.stall_started_at now)
reserve_retry_endless policy b f now e = (
  λ h. (ground (arith, same), expired-StalledSince b.stall_started_at now (ground (arith, same))),
  λ h. ground (arith, same, StalledSince-expired b.stall_started_at now h.1),
)
  where
    same :
        is_reserved (reserve_retry policy b f now).1
        ≡ not (is_stall f && expired b.stall_started_at now)
    same =
        reserve_retry_outcome policy b f now
        ∙ ap not (refuses_endless policy (retry_category f) (is_stall f) b now e)
