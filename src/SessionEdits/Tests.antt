-- ===== src/SessionEdits/Tests.antt =====
-- A session that denies edits and allows the plan's file; a conversation that is told so.
use cursor_opencode_provider.Base.{
  ◌≡◌, refl, ◌↔◌, true, false, none, some, List, [], ◌∷◌, string_eq, nat_eq,
}
use cursor_opencode_provider.SessionEdits.{
  Guidances, Text, Rule, rule, allow, deny, effect, star, words, edit_effect, rules_loop,
  session_rules_deny_edits, wildcard_match, tokens, without_tail,
}
use cursor_opencode_provider.SessionEdits.Rules.{LastDenies, session_rules_deny_edits-LastDenies}
use cursor_opencode_provider.SessionEdits.Guidance.{
  Step, after_step, after_steps, fresh_world, after_steps-holds, requests, restarts,
}

-- "ed*" and "plan.md"
abbrev edits : Text
edits = 101 ∷ 100 ∷ 42 ∷ []

abbrev plan_file : Text
plan_file = 112 ∷ 108 ∷ 97 ∷ 110 ∷ 46 ∷ 109 ∷ 100 ∷ []

abbrev rules : List Rule
rules =
    rule none (some (words edits)) none (some star) (some (effect deny))
    ∷ rule none (some (words edits)) none (some (words plan_file)) (some (effect allow))
    ∷ []

plan_file_allow : session_rules_deny_edits (some rules) ≡ true
unfolding session_rules_deny_edits rules_loop edit_effect wildcard_match tokens without_tail
plan_file_allow = refl

session_rules_deny_edits-LastDenies_example :
    (session_rules_deny_edits (some rules) ≡ true) ↔ LastDenies rules
session_rules_deny_edits-LastDenies_example = session_rules_deny_edits-LastDenies rules

abbrev no_guidance : Guidances
no_guidance = []

-- A deny and its lift, then a restart from the checkpoint before the lift.
abbrev lifted : List Step
lifted = requests true false false ∷ requests false true false ∷ restarts true ∷ []

after_steps-holds_example :
    (after_step "c"
      (after_steps "c" (fresh_world no_guidance) lifted)
      (requests false true false)).holds
    ≡ false
after_steps-holds_example = after_steps-holds no_guidance "c" lifted false true false refl
