-- ===== src/SessionEdits/Rules.antt =====
-- Which rule decides.
use mathlib.Core.Option
use mathlib.Core.Option.{some-injective}
use cursor_opencode_provider.Base.{
  ◌≡◌, refl, sym, ap, ◌∙◌, ◌↔◌, inl, inr, Bool, true, false, ◌&&◌, Option, none, some, List, [],
  ◌∷◌, arith, Bool-cases, Option-cases, get_or, string_eq, nat_eq,
}
use cursor_opencode_provider.SessionEdits.{
  wildcard_match, Effect, Field, Rule, is_star, effect_of, edit_word, field_text, names_edit,
  edit_effect, is_deny, rules_loop, session_rules_deny_edits, allow, deny, ask, effect, star, words,
  rule, no_record,
}

-- A rule on edits of everything, in the form of OpenCode 1.x (permission, pattern, action) or of 2.0 (action,
-- resource, effect), and its effect. A rule of the older form has a permission.
pub data Concerns : Rule → Effect → Type 0 where
  classic :
      (permission : Field) (resource effect_field : Option Field) (e : Effect)
      → wildcard_match edit_word (field_text permission) ≡ true
      → Concerns (rule (some permission) (some (effect e)) (some star) resource effect_field) e
  native :
      (action : Field) (pattern : Option Field) (e : Effect)
      → wildcard_match edit_word (field_text action) ≡ true
      → Concerns (rule none (some action) pattern (some star) (some (effect e))) e

-- No rule concerns edits of everything.
pub data NoneConcerns : List Rule → Type 0 where
  nothing : NoneConcerns []
  another :
      (r : Rule) (rs : List Rule)
      → ((e : Effect) → Concerns r e → ⊥)
      → NoneConcerns rs
      → NoneConcerns (r ∷ rs)

-- A rule denies them, and none after it concerns them.
pub data LastDenies : List Rule → Type 0 where
  here : (r : Rule) (rs : List Rule) → Concerns r deny → NoneConcerns rs → LastDenies (r ∷ rs)
  later : (r : Rule) (rs : List Rule) → LastDenies rs → LastDenies (r ∷ rs)

Concerns-edit_effect : (r : Rule) (e : Effect) → Concerns r e → edit_effect r ≡ some e
unfolding edit_effect
Concerns-edit_effect _ _ (classic permission resource effect_field e h) = ground (arith, h)
Concerns-edit_effect _ _ (native action pattern e h) = ground (arith, h)

star_field : (f : Option Field) → is_star f ≡ true → f ≡ some star
star_field none h = cc
star_field (some (effect e)) h = cc
star_field (some star) h = refl
star_field (some (words t)) h = cc

effect_field : (f : Option Field) (e : Effect) → effect_of f ≡ some e → f ≡ some (effect e)
effect_field none e h = cc
effect_field (some (effect a)) e h = ap (λ x. some (effect x)) (some-injective a e h)
effect_field (some star) e h = cc
effect_field (some (words t)) e h = cc

native-Concerns :
    (action pattern resource f : Option Field) (e : Effect)
    → f ≡ some (effect e)
    → resource ≡ some star
    → names_edit action ≡ true
    → Concerns (rule none action pattern resource f) e
native-Concerns none pattern resource f e p q h = cc
native-Concerns (some a) pattern resource f e p q h = rw (p, q) (native a pattern e h)

edit_effect-Concerns : (r : Rule) (e : Effect) → edit_effect r ≡ some e → Concerns r e
unfolding edit_effect
edit_effect-Concerns no_record e h = cc
edit_effect-Concerns (rule (some p) action pattern c d) e h =
    elim (Bool-cases (is_star pattern && names_edit (some p))) [
      | inl b ↦
          let a : action ≡ some (effect e) = effect_field action e (rw b at h) in
          let s : pattern ≡ some star = star_field pattern (ground (arith, b)) in
          rw (a, s) (classic p c d e (ground (arith, b)))
      | inr b ↦ let q : ◌≡◌ {A = Option Effect} none (some e) = rw b at h in cc
    ]
edit_effect-Concerns (rule none action pattern c d) e h =
    elim (Bool-cases (is_star c && names_edit action)) [
      | inl b ↦
          native-Concerns action pattern c d e (effect_field d e (rw b at h))
            (star_field c (ground (arith, b))) (ground (arith, b))
      | inr b ↦ let q : ◌≡◌ {A = Option Effect} none (some e) = rw b at h in cc
    ]

-- The effect of the last rule that concerns them, if there is one.
abbrev last_effect : List Rule → Option Effect
unfolding edit_effect
last_effect [] = none
last_effect (r ∷ rs) = elim (last_effect rs) [ some e ↦ some e | none ↦ edit_effect r ]

rules_loop-last :
    (denied : Bool) (rs : List Rule)
    → rules_loop denied rs ≡ get_or (Option.map is_deny (last_effect rs)) denied
unfolding rules_loop
rules_loop-last denied [] = refl
rules_loop-last denied (r ∷ rs) =
    rules_loop-last (get_or (Option.map is_deny (edit_effect r)) denied) rs
    ∙ (elim (Option-cases (last_effect rs)) [ inl e ↦ rw e refl | inr e ↦ rw (e.1) refl ])

last_effect-none : (rs : List Rule) → last_effect rs ≡ none → NoneConcerns rs
unfolding last_effect
last_effect-none [] h = nothing
last_effect-none (r ∷ rs) h = elim (Option-cases (last_effect rs)) [
  | inl e ↦
      another r rs
        (λ k c. none_some k (sym (rw (e, last_effect) at h) ∙ Concerns-edit_effect r k c))
        (last_effect-none rs e)
  | inr (k, e) ↦ let q : ◌≡◌ {A = Option Effect} (some k) none = rw (e, last_effect) at h in cc
]
  where
    none_some : (k : Effect) → ◌≡◌ {A = Option Effect} none (some k) → ⊥
    none_some k q = cc

NoneConcerns-last_effect : (rs : List Rule) → NoneConcerns rs → last_effect rs ≡ none
unfolding last_effect
NoneConcerns-last_effect _ nothing = refl
NoneConcerns-last_effect _ (another r rs f n) = elim (Option-cases (edit_effect r)) [
  | inl e ↦ rw (NoneConcerns-last_effect rs n, last_effect) e
  | inr (k, e) ↦ absurd (f k (edit_effect-Concerns r k e))
]

last_effect-LastDenies : (rs : List Rule) → last_effect rs ≡ some deny → LastDenies rs
unfolding last_effect
last_effect-LastDenies [] h = cc
last_effect-LastDenies (r ∷ rs) h = elim (Option-cases (last_effect rs)) [
  | inl e ↦
      here r rs (edit_effect-Concerns r deny (rw (e, last_effect) at h)) (last_effect-none rs e)
  | inr (k, e) ↦ later r rs (last_effect-LastDenies rs (e ∙ (rw (e, last_effect) at h)))
]

LastDenies-last_effect : (rs : List Rule) → LastDenies rs → last_effect rs ≡ some deny
unfolding last_effect
LastDenies-last_effect _ (here r rs c n) =
    rw (NoneConcerns-last_effect rs n, last_effect) (Concerns-edit_effect r deny c)
LastDenies-last_effect _ (later r rs l) = rw (LastDenies-last_effect rs l, last_effect) refl

denies_only : (o : Option Effect) → get_or (Option.map is_deny o) false ≡ true → o ≡ some deny
denies_only none h = cc
denies_only (some allow) h = cc
denies_only (some deny) h = refl
denies_only (some ask) h = cc

-- Edits are denied exactly when a rule that concerns edits of everything, in either form of a rule, has the effect
-- "deny", and no rule after it concerns them; an allow of one path changes nothing.
pub session_rules_deny_edits-LastDenies :
    (rs : List Rule) → (session_rules_deny_edits (some rs) ≡ true) ↔ LastDenies rs
unfolding session_rules_deny_edits
session_rules_deny_edits-LastDenies rs = (
  λ h.
      last_effect-LastDenies rs (denies_only (last_effect rs) (sym (rules_loop-last false rs) ∙ h)),
  λ l. rules_loop-last false rs ∙ rw (LastDenies-last_effect rs l) refl,
)
