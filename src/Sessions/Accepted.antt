-- ===== src/Sessions/Accepted.antt =====
-- Which options are accepted, and as what.
use cursor_opencode_provider.Base.{
  ◌≤◌, ◌<◌, ℕ, String, ◌≡◌, refl, sym, ap, ◌∙◌, subst, ◌↔◌, ◌⊎◌, inl, inr, Bool, true, false, not,
  ◌&&◌, ◌||◌, Option, none, some, List, [], ◌∷◌, arith, ltb, leb, Bool-cases, Option-cases, any,
  ◌==◌, eq_refl, string_eq, nat_eq,
}
use cursor_opencode_provider.Sessions.Policy.{
  Value, same_value, Resolved, then_resolve, Options, Policy, max_timer_ms, positive_integer,
  is_known_option, first_unknown, or_else, is_defined, mismatched, ordered_policy, read_policy,
  resolve_object, resolve_continuation_policy, undefined, null, integer, unusable, mismatch,
  heartbeat_too_long, idle_too_long, unknown_option, not_positive, ok, thrown, object,
}

-- A setting that is accepted, and its value.
pub data Setting (v : Value) (fallback : ℕ) : ℕ → Type 0 where
  by_default : v ≡ undefined → Setting v fallback fallback
  as_given : {n : ℕ} → v ≡ integer n → 0 < n → n ≤ max_timer_ms → Setting v fallback n

-- The idle time: as it is given, or, where it is absent or null, by the deprecated name.
pub data IdleSetting (o : Options) (n : ℕ) : Type 0 where
  new_name : o.semantic_idle_ms ≡ integer n → 0 < n → n ≤ max_timer_ms → IdleSetting o n
  old_name : o.semantic_idle_ms ≡ undefined → Setting o.soft_health_ms 30000 n → IdleSetting o n
  old_name_of_null : o.semantic_idle_ms ≡ null → Setting o.soft_health_ms 30000 n → IdleSetting o n

-- The two names of the idle time agree where both are present.
abbrev pub IsAgreed : Options → Type 0
IsAgreed o =
    (o.semantic_idle_ms ≡ undefined)
    ⊎ ((o.soft_health_ms ≡ undefined) ⊎ (same_value o.semantic_idle_ms o.soft_health_ms ≡ true))

-- The policies that the options of an object stand for.
pub record IsPolicyOf (o : Options) (p : Policy) : Type 0 where
  pub known :
      (key : String) → any (λ (k : String). k == key) o.keys ≡ true → is_known_option key ≡ true
  pub agree : IsAgreed o
  pub heartbeat : Setting o.heartbeat_ms 5000 p.heartbeat_ms
  pub idle : IdleSetting o p.semantic_idle_ms
  pub cap : Setting o.hard_cap_ms 600000 p.hard_cap_ms
  pub alive : p.heartbeat_ms < p.semantic_idle_ms
  pub capped : p.semantic_idle_ms ≤ p.hard_cap_ms

result_of {ℓ} : {A : Type ℓ} → A → Resolved A → A
result_of a (ok b) = b
result_of a (thrown e) = a

ok-injective {ℓ} : {A : Type ℓ} (a b : A) → ok a ≡ ok b → a ≡ b
unfolding result_of
ok-injective a b e = ap (result_of a) e

positive_integer-Setting :
    (name : String) (v : Value) (fallback n : ℕ)
    → positive_integer name v fallback ≡ ok n
    → Setting v fallback n
positive_integer-Setting name undefined fallback n e =
    elim (Bool-cases (ltb 0 fallback && leb fallback max_timer_ms)) [
      | inl b ↦
          subst (Setting undefined fallback) (ok-injective fallback n (rw b at e)) (by_default refl)
      | inr b ↦ let q : ◌≡◌ {A = Resolved ℕ} (thrown (not_positive name)) (ok n) = rw b at e in cc
    ]
positive_integer-Setting name null fallback n e = cc
positive_integer-Setting name (unusable k) fallback n e = cc
positive_integer-Setting name (integer k) fallback n e =
    elim (Bool-cases (ltb 0 k && leb k max_timer_ms)) [
      | inl b ↦
          subst (Setting (integer k) fallback) (ok-injective k n (rw b at e))
            (as_given refl (ground (arith, b)) (ground (arith, b)))
      | inr b ↦ let q : ◌≡◌ {A = Resolved ℕ} (thrown (not_positive name)) (ok n) = rw b at e in cc
    ]

Setting-positive_integer :
    (name : String) (v : Value) (fallback n : ℕ)
    → 0 < fallback
    → fallback ≤ max_timer_ms
    → Setting v fallback n
    → positive_integer name v fallback ≡ ok n
Setting-positive_integer name v fallback n l u (by_default e) = rw e (ground arith)
Setting-positive_integer name v fallback n l u (as_given e f g) = rw e (ground arith)

Value-cases :
    (v : Value)
    → (v ≡ undefined) ⊎ ((v ≡ null) ⊎ (((k : ℕ) × (v ≡ integer k)) ⊎ ((k : ℕ) × (v ≡ unusable k))))
Value-cases undefined = inl refl
Value-cases null = inr (inl refl)
Value-cases (integer k) = inr (inr (inl (k, refl)))
Value-cases (unusable k) = inr (inr (inr (k, refl)))

first_unknown-known :
    (ks : List String) (key : String)
    → first_unknown ks ≡ none
    → any (λ (k : String). k == key) ks ≡ true
    → is_known_option key ≡ true
first_unknown-known [] key e q = cc
first_unknown-known (k ∷ ks) key e q = elim (Bool-cases (is_known_option k)) [
  | inr b ↦ let none_left : ◌≡◌ {A = Option String} (some k) none = rw b at e in cc
  | inl b ↦ elim (Bool-cases (k == key)) [
    | inl c ↦ subst (λ t. is_known_option t ≡ true) ((string_eq.beq_iff k key).0 c) b
    | inr c ↦ first_unknown-known ks key (rw b at e) (rw c at q)
  ]
]

known-first_unknown :
    (ks : List String)
    → ((key : String) → any (λ (k : String). k == key) ks ≡ true → is_known_option key ≡ true)
    → first_unknown ks ≡ none
known-first_unknown [] f = refl
known-first_unknown (k ∷ ks) f =
    rw (f k (rw (eq_refl k) refl))
      (known-first_unknown ks (λ key q. f key (rw q (or_true (k == key)))))
  where
    or_true : (b : Bool) → b || true ≡ true
    or_true true = refl
    or_true false = refl

then_resolve-ok {ℓ κ} :
    {A : Type ℓ} {B : Type κ} (r : Resolved A) (next : A → Resolved B) (b : B)
    → then_resolve r next ≡ ok b
    → (a : A) × (r ≡ ok a) × (next a ≡ ok b)
then_resolve-ok (ok a) next b e = (a, refl, e)
then_resolve-ok (thrown f) next b e = cc

ok-then_resolve {ℓ κ} :
    {A : Type ℓ} {B : Type κ} (r : Resolved A) (a : A) (next : A → Resolved B) (b : B)
    → r ≡ ok a
    → next a ≡ ok b
    → then_resolve r next ≡ ok b
ok-then_resolve r a next b e f = rw e f

Setting-integer :
    (k fallback n : ℕ) → Setting (integer k) fallback n → (k ≡ n) × (0 < n) × (n ≤ max_timer_ms)
Setting-integer k fallback n (by_default q) = cc
Setting-integer k fallback n (as_given q l u) = (cc, l, u)

Setting-unusable : (k fallback n : ℕ) → Setting (unusable k) fallback n → false ≡ true
Setting-unusable k fallback n (by_default q) = cc
Setting-unusable k fallback n (as_given q l u) = cc

IdleSetting-or_else :
    (o : Options) (n : ℕ)
    → Setting (or_else o.semantic_idle_ms o.soft_health_ms) 30000 n
    → IdleSetting o n
IdleSetting-or_else o n h = elim (Value-cases o.semantic_idle_ms) [
  | inl e ↦ old_name e (rw e at h)
  | inr (inl e) ↦ old_name_of_null e (rw e at h)
  | inr (inr (inl (k, e))) ↦
      let (q, l, u) = Setting-integer k 30000 n (rw e at h) in new_name (e ∙ ap integer q) l u
  | inr (inr (inr (k, e))) ↦ contradiction (Setting-unusable k 30000 n (rw e at h))
]
  where
    contradiction : false ≡ true → IdleSetting o n
    contradiction q = cc

or_else-IdleSetting :
    (o : Options) (n : ℕ)
    → IdleSetting o n
    → Setting (or_else o.semantic_idle_ms o.soft_health_ms) 30000 n
or_else-IdleSetting o n (new_name e l u) = rw e (as_given refl l u)
or_else-IdleSetting o n (old_name e h) = rw e h
or_else-IdleSetting o n (old_name_of_null e h) = rw e h

IsAgreed-mismatched : (o : Options) → mismatched o ≡ false → IsAgreed o
IsAgreed-mismatched o h = elim (Bool-cases (same_value o.semantic_idle_ms o.soft_health_ms)) [
  | inl e ↦ inr (inr e)
  | inr e ↦ elim (Value-cases o.semantic_idle_ms) [
    | inl f ↦ inl f
    | inr f ↦ elim (Value-cases o.soft_health_ms) [
      | inl g ↦ inr (inl g)
      | inr g ↦
          contradiction
            (sym (rw (defined o.semantic_idle_ms f, defined o.soft_health_ms g, e) at h))
    ]
  ]
]
  where
    contradiction : false ≡ true → IsAgreed o
    contradiction q = cc

    defined :
        (v : Value)
        → ((v ≡ null) ⊎ (((k : ℕ) × (v ≡ integer k)) ⊎ ((k : ℕ) × (v ≡ unusable k))))
        → is_defined v ≡ true
    defined v (inl q) = rw q refl
    defined v (inr (inl (k, q))) = rw q refl
    defined v (inr (inr (k, q))) = rw q refl

mismatched-IsAgreed : (o : Options) → IsAgreed o → mismatched o ≡ false
mismatched-IsAgreed o (inl e) = rw e refl
mismatched-IsAgreed o (inr (inl e)) = elim (Value-cases o.semantic_idle_ms) [
  | inl f ↦ rw f refl
  | inr (inl f) ↦ rw (e, f) refl
  | inr (inr (inl (k, f))) ↦ rw (e, f) refl
  | inr (inr (inr (k, f))) ↦ rw (e, f) refl
]
mismatched-IsAgreed o (inr (inr e)) =
    both (is_defined o.semantic_idle_ms) (is_defined o.soft_health_ms) _ e
  where
    both : (a b c : Bool) → c ≡ true → (a && (b && not c)) ≡ false
    both a b c e = ground (arith, e)

ordered_policy-ok :
    (heartbeat idle cap : ℕ) (p : Policy)
    → ordered_policy heartbeat idle cap ≡ ok p
    → (heartbeat ≡ p.heartbeat_ms)
      × (idle ≡ p.semantic_idle_ms)
      × (cap ≡ p.hard_cap_ms)
      × (heartbeat < idle)
      × (idle ≤ cap)
ordered_policy-ok heartbeat idle cap p e = elim (Bool-cases (leb idle heartbeat)) [
  | inl b ↦ let q : ◌≡◌ {A = Resolved Policy} (thrown heartbeat_too_long) (ok p) = rw b at e in cc
  | inr b ↦ elim (Bool-cases (ltb cap idle)) [
    | inl c ↦ let q : ◌≡◌ {A = Resolved Policy} (thrown idle_too_long) (ok p) = rw (b, c) at e in cc
    | inr c ↦
        let same : record { heartbeat_ms = heartbeat; semantic_idle_ms = idle; hard_cap_ms = cap }
            ≡ p =
          ok-injective _ p (rw (b, c) at e) in
        (
          ap (λ (t : Policy). t.heartbeat_ms) same,
          ap (λ (t : Policy). t.semantic_idle_ms) same,
          ap (λ (t : Policy). t.hard_cap_ms) same,
          ground (arith, b),
          ground (arith, c),
        )
  ]
]

read_policy-IsPolicyOf :
    (o : Options) (p : Policy)
    → first_unknown o.keys ≡ none
    → mismatched o ≡ false
    → read_policy o ≡ ok p
    → IsPolicyOf o p
read_policy-IsPolicyOf o p k m e =
    let (heartbeat, h, e1) =
      then_resolve-ok (positive_integer "heartbeatMs" o.heartbeat_ms 5000) _ p e in
    let (idle, i, e2) =
      then_resolve-ok
        (positive_integer "semanticIdleMs" (or_else o.semantic_idle_ms o.soft_health_ms) 30000) _ p
        e1 in
    let (cap, c, e3) = then_resolve-ok (positive_integer "hardCapMs" o.hard_cap_ms 600000) _ p e2 in
    let (sh, si, sc, lt, le) = ordered_policy-ok heartbeat idle cap p e3 in
    record {
      known = λ key q. first_unknown-known o.keys key k q;
      agree = IsAgreed-mismatched o m;
      heartbeat =
          subst (Setting o.heartbeat_ms 5000) sh (positive_integer-Setting _ _ 5000 heartbeat h);
      idle = IdleSetting-or_else o p.semantic_idle_ms (
          subst (Setting (or_else o.semantic_idle_ms o.soft_health_ms) 30000) si
            (positive_integer-Setting _ _ 30000 idle i));
      cap = subst (Setting o.hard_cap_ms 600000) sc (positive_integer-Setting _ _ 600000 cap c);
      alive = omega (arith, sh, si, lt);
      capped = omega (arith, si, sc, le);
    }

-- An object of options is accepted exactly as the policies that it stands for: only known keys; the heartbeat
-- and the cap each absent, for the default, or a positive integer within the timer's range; the idle time so
-- too, where an absent or a null one is that of the deprecated name, and the two names agree where both are
-- present; the heartbeat below the idle time, and the idle time within the cap. Every other object is an error.
pub resolve_continuation_policy-IsPolicyOf :
    (o : Options) (p : Policy) → (resolve_continuation_policy (object o) ≡ ok p) ↔ IsPolicyOf o p
unfolding resolve_continuation_policy
resolve_continuation_policy-IsPolicyOf o p = (
  λ e. elim (Option-cases (first_unknown o.keys)) [
    | inr (key, k) ↦
        let q : ◌≡◌ {A = Resolved Policy} (thrown (unknown_option key)) (ok p) =
          rw (k, resolve_object) at e in
        cc
    | inl k ↦ elim (Bool-cases (mismatched o)) [
      | inl m ↦
          let q : ◌≡◌ {A = Resolved Policy} (thrown mismatch) (ok p) =
            rw (k, m, resolve_object) at e in
          cc
      | inr m ↦ read_policy-IsPolicyOf o p k m (rw (k, m, resolve_object) at e)
    ]
  ],
  λ s.
      let k : first_unknown o.keys ≡ none = known-first_unknown o.keys s.known in
      let h : positive_integer "heartbeatMs" o.heartbeat_ms 5000 ≡ ok p.heartbeat_ms =
        Setting-positive_integer "heartbeatMs" o.heartbeat_ms 5000 p.heartbeat_ms (omega arith)
          (omega arith) s.heartbeat in
      let i : positive_integer "semanticIdleMs" (or_else o.semantic_idle_ms o.soft_health_ms) 30000
          ≡ ok p.semantic_idle_ms =
        Setting-positive_integer "semanticIdleMs" (or_else o.semantic_idle_ms o.soft_health_ms)
          30000 p.semantic_idle_ms (omega arith) (omega arith)
          (or_else-IdleSetting o p.semantic_idle_ms s.idle) in
      let c : positive_integer "hardCapMs" o.hard_cap_ms 600000 ≡ ok p.hard_cap_ms =
        Setting-positive_integer "hardCapMs" o.hard_cap_ms 600000 p.hard_cap_ms (omega arith)
          (omega arith) s.cap in
      let ordered : ordered_policy p.heartbeat_ms p.semantic_idle_ms p.hard_cap_ms ≡ ok p =
        ground (arith, s.alive, s.capped) in
      rw (k, mismatched-IsAgreed o s.agree, resolve_object)
        (ok-then_resolve _ p.heartbeat_ms _ p h (
          ok-then_resolve _ p.semantic_idle_ms _ p i
            (ok-then_resolve _ p.hard_cap_ms _ p c ordered))),
)
