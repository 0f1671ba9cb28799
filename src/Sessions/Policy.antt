-- ===== src/Sessions/Policy.antt =====
-- src/session.ts: resolveContinuationPolicy and positiveInteger. A value is absent, null, a safe integer that is
-- not negative, or of another kind that no test accepts, with a number for its identity under `===`.
use cursor_opencode_provider.Base.{
  ℕ, String, Bool, true, false, not, ◌&&◌, Option, none, some, List, [], ◌∷◌, ltb, leb, nat_beq,
  if◌then◌else◌, any, ◌==◌, string_eq, nat_eq,
}

pub data Value : Type 0 where
  undefined null : Value
  integer : ℕ → Value
  unusable : ℕ → Value

abbrev pub same_value : Value → Value → Bool
same_value undefined undefined = true
same_value null null = true
same_value (integer n) (integer k) = nat_beq n k
same_value (unusable n) (unusable k) = nat_beq n k
same_value _ _ = false

pub data PolicyError : Type 0 where
  not_an_object mismatch heartbeat_too_long idle_too_long : PolicyError
  unknown_option : String → PolicyError
  not_positive : String → PolicyError

pub data Resolved {ℓ} (A : Type ℓ) : Type ℓ where
  ok : A → Resolved A
  thrown : PolicyError → Resolved A

abbrev pub then_resolve {ℓ κ} :
    {A : Type ℓ} {B : Type κ} → Resolved A → (A → Resolved B) → Resolved B
then_resolve (ok a) next = next a
then_resolve (thrown e) next = thrown e

pub record Options : Type 0 where
  pub keys : List String
  pub heartbeat_ms : Value
  pub semantic_idle_ms : Value
  pub soft_health_ms : Value
  pub hard_cap_ms : Value

pub record Policy : Type 0 where
  pub heartbeat_ms : ℕ
  pub semantic_idle_ms : ℕ
  pub hard_cap_ms : ℕ

abbrev pub default_continuation_policy : Policy
default_continuation_policy = record {
  heartbeat_ms = 5000;
  semantic_idle_ms = 30000;
  hard_cap_ms = 600000;
}

abbrev pub max_timer_ms : ℕ
max_timer_ms = 2147483647

abbrev pub positive_integer : String → Value → ℕ → Resolved ℕ
positive_integer name undefined fallback =
    if ltb 0 fallback && leb fallback max_timer_ms then ok fallback else thrown (not_positive name)
positive_integer name (integer n) fallback =
    if ltb 0 n && leb n max_timer_ms then ok n else thrown (not_positive name)
positive_integer name null fallback = thrown (not_positive name)
positive_integer name (unusable k) fallback = thrown (not_positive name)

abbrev pub is_known_option : String → Bool
is_known_option key =
    any (λ (k : String). k == key)
      ("heartbeatMs" ∷ "semanticIdleMs" ∷ "softHealthMs" ∷ "hardCapMs" ∷ [])

abbrev pub first_unknown : List String → Option String
first_unknown [] = none
first_unknown (k ∷ ks) = if is_known_option k then first_unknown ks else some k

-- `a ?? b`
abbrev pub or_else : Value → Value → Value
or_else undefined b = b
or_else null b = b
or_else (integer n) b = integer n
or_else (unusable k) b = unusable k

abbrev pub is_defined : Value → Bool
is_defined v = not (same_value v undefined)

abbrev pub mismatched : Options → Bool
mismatched o =
    is_defined o.semantic_idle_ms
    && (is_defined o.soft_health_ms && not (same_value o.semantic_idle_ms o.soft_health_ms))

-- The order of the three that were read.
abbrev pub ordered_policy : ℕ → ℕ → ℕ → Resolved Policy
ordered_policy heartbeat idle cap =
    if leb idle heartbeat
    then thrown heartbeat_too_long
    else if ltb cap idle
    then thrown idle_too_long
    else ok (record { heartbeat_ms = heartbeat; semantic_idle_ms = idle; hard_cap_ms = cap })

abbrev pub read_policy : Options → Resolved Policy
read_policy o =
    then_resolve
      (positive_integer "heartbeatMs" o.heartbeat_ms default_continuation_policy.heartbeat_ms)
      (λ heartbeat.
        then_resolve
          (positive_integer "semanticIdleMs" (or_else o.semantic_idle_ms o.soft_health_ms)
            default_continuation_policy.semantic_idle_ms)
          (λ idle.
            then_resolve
              (positive_integer "hardCapMs" o.hard_cap_ms default_continuation_policy.hard_cap_ms)
              (λ cap. ordered_policy heartbeat idle cap)))

abbrev pub no_options : Options
no_options = record {
  keys = [];
  heartbeat_ms = undefined;
  semantic_idle_ms = undefined;
  soft_health_ms = undefined;
  hard_cap_ms = undefined;
}

abbrev pub resolve_object : Options → Resolved Policy
resolve_object o = elim (first_unknown o.keys) [
  | some key ↦ thrown (unknown_option key)
  | none ↦ if mismatched o then thrown mismatch else read_policy o
]

-- The argument: absent, an object that is no array, or of another kind.
pub data Argument : Type 0 where
  absent other_kind : Argument
  object : Options → Argument

unfoldable pub resolve_continuation_policy : Argument → Resolved Policy
resolve_continuation_policy absent = resolve_object no_options
resolve_continuation_policy other_kind = thrown not_an_object
resolve_continuation_policy (object o) = resolve_object o
