-- ===== src/SessionEdits.antt =====
-- src/protocol/session-edits.ts: session rules that deny edits, and the guidance that a conversation
-- is sent about them. Text is a list of code units. The regular expression of a rule's action is read
-- as its wildcards, with case kept (as it is everywhere but on Windows).
pub mod Rules
pub mod Guidance
mod Tests
use cursor_opencode_provider.Base.{
  ◌+◌, ◌-◌, ◌*◌, ◌/◌, ◌%◌, ◌^◌, ◌≤◌, ◌<◌, min, max, ℕ, zero, suc, String, ◌≡◌, refl, sym, ap, ◌∙◌,
  subst, ◌≢◌, ◌↔◌, ◌⊎◌, inl, inr, Bool, true, false, not, ◌&&◌, ◌||◌, Option, none, some, List, [],
  ◌∷◌, ◌++◌, map, arith, ltb, leb, nat_beq, if◌then◌else◌, ltb→lt, lt→ltb, leb→le, nat_beq_iff,
  Bool-cases, Option-cases, is_some, get_or, length, take, drop, any, all, filter, length-append,
  length-filter-le, take-append-drop, length-take, length-drop, take-append, drop-append, All,
  All-append, All-filter, Eq, ◌==◌, eq_refl, string_eq, nat_eq,
}
use mathlib.Core.Option
use cursor_opencode_provider.JsMap.{Map, get, has, delete, touch}

abbrev pub Text : Type 0
Text = List ℕ

pub data Token : Type 0 where
  any_run any_one : Token
  literal : ℕ → Token

-- Backslashes are slashes; `*` is 42, `?` is 63, `\` is 92 and `/` is 47.
abbrev pub slashed : ℕ → ℕ
slashed c = if nat_beq c 92 then 47 else c

pub tokens : Text → List Token
tokens [] = []
tokens (c ∷ cs) =
    (if nat_beq (slashed c) 42
      then any_run
      else if nat_beq (slashed c) 63
      then any_one
      else literal (slashed c))
    ∷ tokens cs

abbrev pub some_suffix : (Text → Bool) → Text → Bool
some_suffix test [] = test []
some_suffix test (c ∷ cs) = test (c ∷ cs) || some_suffix test cs

-- Anchored at both ends.
abbrev pub matches : List Token → Text → Bool
matches [] [] = true
matches [] (c ∷ cs) = false
matches (any_run ∷ ts) input = some_suffix (matches ts) input
matches (any_one ∷ ts) [] = false
matches (any_one ∷ ts) (c ∷ cs) = matches ts cs
matches (literal d ∷ ts) [] = false
matches (literal d ∷ ts) (c ∷ cs) = nat_beq c d && matches ts cs

-- The tokens before a final " *", which the pattern may leave out; 32 is the space.
pub without_tail : List Token → Option (List Token)
without_tail [] = none
without_tail (literal c ∷ any_run ∷ []) = if nat_beq c 32 then some [] else none
without_tail (t ∷ ts) = Option.map (λ us. t ∷ us) (without_tail ts)

pub wildcard_match : Text → Text → Bool
unfolding tokens without_tail
wildcard_match input pattern =
    matches (tokens pattern) (map slashed input)
    || get_or (Option.map (λ ts. matches ts (map slashed input)) (without_tail (tokens pattern)))
        false

pub data Effect : Type 0 where
  allow deny ask : Effect

-- A string field: an effect's word, "*" or other text.
pub data Field : Type 0 where
  effect : Effect → Field
  star : Field
  words : Text → Field

-- A rule's fields, `none` for one that is no string; `no_record` is an item that is no object.
pub data Rule : Type 0 where
  rule : (permission action pattern resource effect_field : Option Field) → Rule
  no_record : Rule

abbrev pub is_star : Option Field → Bool
is_star (some star) = true
is_star _ = false

abbrev pub effect_of : Option Field → Option Effect
effect_of (some (effect e)) = some e
effect_of _ = none

-- The characters of the words "allow", "deny", "ask", "edit".
abbrev pub effect_word : Effect → Text
effect_word allow = 97 ∷ 108 ∷ 108 ∷ 111 ∷ 119 ∷ []
effect_word deny = 100 ∷ 101 ∷ 110 ∷ 121 ∷ []
effect_word ask = 97 ∷ 115 ∷ 107 ∷ []

abbrev pub edit_word : Text
edit_word = 101 ∷ 100 ∷ 105 ∷ 116 ∷ []

abbrev pub field_text : Field → Text
field_text (effect e) = effect_word e
field_text star = 42 ∷ []
field_text (words t) = t

abbrev pub names_edit : Option Field → Bool
names_edit none = false
names_edit (some f) = wildcard_match edit_word (field_text f)

-- The effect of a rule on edits of everything; `none` is a rule that is passed over.
pub edit_effect : Rule → Option Effect
unfolding wildcard_match
edit_effect no_record = none
edit_effect (rule (some permission) action pattern resource effect_field) =
    if is_star pattern && names_edit (some permission) then effect_of action else none
edit_effect (rule none action pattern resource effect_field) =
    if is_star resource && names_edit action then effect_of effect_field else none

abbrev pub is_deny : Effect → Bool
is_deny e = elim e [ allow ↦ false | deny ↦ true | ask ↦ false ]

-- The loop, with the answer so far.
pub rules_loop : Bool → List Rule → Bool
unfolding edit_effect
rules_loop denied [] = denied
rules_loop denied (r ∷ rs) = rules_loop (get_or (Option.map is_deny (edit_effect r)) denied) rs

-- `none` is a value that is no array.
pub session_rules_deny_edits : Option (List Rule) → Bool
unfolding rules_loop
session_rules_deny_edits none = false
session_rules_deny_edits (some rs) = rules_loop false rs

pub record EditGuidance : Type 0 where
  pub last : Option Bool
  pub deny_sent : Bool

abbrev pub Guidances : Type 0
Guidances = Map String EditGuidance

abbrev pub max_edit_guidance_conversations : ℕ
max_edit_guidance_conversations = 256

abbrev pub drop_oldest : Guidances → Guidances
drop_oldest [] = []
drop_oldest (x ∷ m) = if ltb max_edit_guidance_conversations (length (x ∷ m)) then m else x ∷ m

pub set_edit_guidance : Guidances → String → EditGuidance → Guidances
set_edit_guidance m conversation state = drop_oldest (touch conversation state m)

-- What a recorded state asks for when edits are not denied.
abbrev pub after_state : Option EditGuidance → Bool → Option Bool
after_state none carries_earlier_state = if carries_earlier_state then some false else none
after_state (some s) carries_earlier_state = elim s.last [
  | some denied ↦ if denied then some false else none
  | none ↦ if not carries_earlier_state then none else if not s.deny_sent then none else some false
]

pub session_edits_guidance : Guidances → String → Option Bool → Bool → Bool → Option Bool
session_edits_guidance m conversation none carries_earlier_state carries_edit_deny = none
session_edits_guidance m conversation (some denied) carries_earlier_state carries_edit_deny =
    if denied
    then some true
    else if carries_edit_deny
    then some false
    else after_state (get conversation m) carries_earlier_state

abbrev pub sent_before : Option EditGuidance → Bool
sent_before s = get_or (Option.map (λ e. e.deny_sent) s) false

pub record_session_edits_guidance : Guidances → String → Option Bool → Guidances
unfolding set_edit_guidance
record_session_edits_guidance m conversation none = m
record_session_edits_guidance m conversation (some denied) =
    set_edit_guidance m conversation
      (record { last = some denied; deny_sent = denied || sent_before (get conversation m) })

pub session_edits_deny_sent : Guidances → String → Bool
session_edits_deny_sent m conversation =
    get_or (Option.map (λ e. e.deny_sent) (get conversation m)) true

pub restore_session_edits_deny_sent : Guidances → String → Bool → Bool → Guidances
unfolding set_edit_guidance
restore_session_edits_deny_sent m conversation sent replace =
    if not replace && has conversation m
    then m
    else set_edit_guidance m conversation (record { last = none; deny_sent = sent })
