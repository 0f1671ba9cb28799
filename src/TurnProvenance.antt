-- ===== src/TurnProvenance.antt =====
-- src/protocol/turn-provenance.ts: what this provider emitted last, and whether the host's latest
-- assistant turn is it. A text is the list of its UTF-16 code units. The JSON codec is left out: the
-- functions around it work on the parsed value.
pub mod Shown
pub mod Own
pub mod Recorded
mod Tests
use cursor_opencode_provider.Base.{
  ◌+◌, ◌-◌, ◌*◌, ◌/◌, ◌%◌, ◌^◌, ◌≤◌, ◌<◌, min, max, ℕ, zero, suc, String, ◌≡◌, refl, sym, ap, ◌∙◌,
  subst, ◌≢◌, ◌↔◌, ◌⊎◌, inl, inr, Bool, true, false, not, ◌&&◌, ◌||◌, Option, none, some, List, [],
  ◌∷◌, ◌++◌, map, arith, ltb, leb, nat_beq, if◌then◌else◌, ltb→lt, lt→ltb, leb→le, nat_beq_iff,
  Bool-cases, Option-cases, is_some, get_or, length, take, drop, any, all, filter, length-append,
  length-filter-le, take-append-drop, length-take, length-drop, take-append, drop-append, All,
  All-append, All-filter, Eq, ◌==◌, eq_refl, string_eq, nat_eq,
}
use mathlib.Core.Option
use cursor_opencode_provider.JsMap.{Map, get, set, delete}

abbrev pub Text : Type 0
Text = List ℕ

abbrev pub max_provenance_sessions : ℕ
max_provenance_sessions = 256

abbrev pub max_tool_call_ids : ℕ
max_tool_call_ids = 64

abbrev pub max_text_chars : ℕ
max_text_chars = 4096

pub record EmittedStep : Type 0 where
  pub tool_call_ids : List String
  pub text : Text
  pub text_with_reasoning : Text

abbrev pub no_step : EmittedStep
no_step = record { tool_call_ids = []; text = []; text_with_reasoning = [] }

pub record TurnProvenance : Type 0 where
  pub conversation_id : String
  pub step : EmittedStep
  pub unfinished : Bool
  pub previous : Option EmittedStep

pub record Entry : Type 0 where
  pub provenance : TurnProvenance
  pub open provenance use *
  pub step_pending : Bool

abbrev pub Sessions : Type 0
Sessions = Map String Entry

-- The code units of `\s`.
pub is_space : ℕ → Bool
is_space c =
    (leb 9 c && leb c 13)
    || (any (nat_beq c) (32 ∷ 160 ∷ 5760 ∷ 8232 ∷ 8233 ∷ 8239 ∷ 8287 ∷ 12288 ∷ 65279 ∷ [])
        || (leb 8192 c && leb c 8202))

pub normalize_text : Text → Text
normalize_text text = filter (λ c. not (is_space c)) text

-- The loop stops at an empty key, as `if (!oldest) break` does.
abbrev pub evict_named : ℕ → Sessions → Sessions
evict_named most [] = []
evict_named most (x ∷ m) =
    if ltb most (length (x ∷ m)) && not (x.0 == "") then evict_named most m else x ∷ m

pub touch : Sessions → String → Entry → Sessions
touch sessions key entry = evict_named max_provenance_sessions (set key entry (delete key sessions))

abbrev pub new_entry : String → Entry
new_entry conversation = record {
  provenance = record {
    conversation_id = conversation;
    step = no_step;
    unfinished = false;
    previous = none;
  };
  step_pending = false;
}

-- The entry that `entryFor` returns; `touch` puts it at the end of the map.
pub entry_for : Sessions → String → String → Entry
entry_for sessions key conversation = elim (get key sessions) [
  | none ↦ new_entry conversation
  | some e ↦ if e.conversation_id == conversation then e else new_entry conversation
]

abbrev pub append_capped : Text → Text → Text
append_capped value delta =
    if ltb (length value) max_text_chars then take max_text_chars (value ++ delta) else value

abbrev pub is_empty {ℓ} : {A : Type ℓ} → List A → Bool
is_empty [] = true
is_empty (x ∷ xs) = false

abbrev pub has_content : EmittedStep → Bool
has_content s =
    not (is_empty s.tool_call_ids)
    || (not (is_empty s.text) || not (is_empty s.text_with_reasoning))

-- The first content of a pending step replaces the recorded one.
pub content_entry : Entry → Entry
content_entry e =
    if e.step_pending
    then record {
      provenance = record {
        conversation_id = e.conversation_id;
        step = no_step;
        unfinished = true;
        previous = if has_content e.step then some e.step else none;
      };
      step_pending = false;
    }
    else e

pub begin_emitted_step : Sessions → String → String → Sessions
unfolding touch
begin_emitted_step sessions key conversation =
    touch sessions key (record (entry_for sessions key conversation) { step_pending = true })

-- A stream part, as the function reads it: a delta that is text, a call id that is text, or neither.
pub data Part : Type 0 where
  text_delta reasoning_delta : Text → Part
  tool_call : String → Part
  other : Part

abbrev pub with_step : Entry → EmittedStep → Entry
with_step e s = record e { provenance = record (e.provenance) { step = s } }

abbrev pub add_text : Text → EmittedStep → EmittedStep
add_text delta s = record s {
  text_with_reasoning = append_capped s.text_with_reasoning delta;
  text = append_capped s.text delta;
}

abbrev pub add_reasoning : Text → EmittedStep → EmittedStep
add_reasoning delta s = record s { text_with_reasoning = append_capped s.text_with_reasoning delta }

abbrev pub add_tool_call : String → EmittedStep → EmittedStep
add_tool_call id s =
    if ltb (length s.tool_call_ids) max_tool_call_ids
    then record s { tool_call_ids = s.tool_call_ids ++ (id ∷ []) }
    else s

-- What a part adds to the step, or nothing: blank text and an empty id are passed over.
pub contribution : Part → Option (EmittedStep → EmittedStep)
unfolding normalize_text is_space
contribution (text_delta d) =
    if is_empty (normalize_text d) then none else some (add_text (normalize_text d))
contribution (reasoning_delta d) =
    if is_empty (normalize_text d) then none else some (add_reasoning (normalize_text d))
contribution (tool_call id) = if id == "" then none else some (add_tool_call id)
contribution other = none

abbrev pub add_part : Option (EmittedStep → EmittedStep) → Entry → Entry
add_part none e = e
add_part (some f) e = let c = content_entry e in with_step c (f c.step)

pub record_emitted_part : Sessions → String → String → Part → Sessions
unfolding touch entry_for content_entry contribution
record_emitted_part sessions key conversation part = elim (contribution part) [
  | none ↦ sessions
  | some f ↦ touch sessions key (add_part (some f) (entry_for sessions key conversation))
]

-- An assignment to the entry of the session, if it is of this conversation and no step is pending.
abbrev pub update_entry : Sessions → String → String → (TurnProvenance → TurnProvenance) → Sessions
update_entry sessions key conversation f = elim (get key sessions) [
  | none ↦ sessions
  | some e ↦
      if not (e.conversation_id == conversation) || e.step_pending
      then sessions
      else set key (record e { provenance = f e.provenance }) sessions
]

pub finish_emitted_step : Sessions → String → String → Sessions
finish_emitted_step sessions key conversation =
    update_entry sessions key conversation (λ p. record p { unfinished = false; previous = none })

pub resume_emitted_step : Sessions → String → String → Sessions
resume_emitted_step sessions key conversation =
    update_entry sessions key conversation (λ p. record p { unfinished = true })

pub track_turn_provenance : Sessions → String → String → Sessions
unfolding touch entry_for
track_turn_provenance sessions key conversation =
    touch sessions key (entry_for sessions key conversation)

abbrev pub exported : TurnProvenance → TurnProvenance
exported p = record p { previous = if p.unfinished then p.previous else none }

pub get_turn_provenance : Sessions → String → Option TurnProvenance
get_turn_provenance sessions key = Option.map (λ e. exported e.provenance) (get key sessions)

pub restore_turn_provenance : Sessions → String → TurnProvenance → Sessions
unfolding touch
restore_turn_provenance sessions key value =
    touch sessions key (record { provenance = exported value; step_pending = false })

pub forget_turn_provenance : Sessions → String → Sessions
forget_turn_provenance sessions key = delete key sessions

-- The parsed JSON value, with `none` for a field of another type; array items likewise.
pub record ParsedStep : Type 0 where
  pub tool_call_ids : Option (List (Option String))
  pub text : Option Text
  pub text_with_reasoning : Option Text

pub record ParsedProvenance : Type 0 where
  pub conversation_id : Option String
  pub step : ParsedStep
  pub unfinished : Bool
  pub previous : Option ParsedStep

abbrev pub texts_of : List (Option String) → List String
texts_of [] = []
texts_of (none ∷ xs) = texts_of xs
texts_of (some s ∷ xs) = s ∷ texts_of xs

pub parse_step : ParsedStep → EmittedStep
parse_step p = record {
  tool_call_ids = take max_tool_call_ids (texts_of (get_or p.tool_call_ids []));
  text = take max_text_chars (get_or p.text []);
  text_with_reasoning = take max_text_chars (get_or p.text_with_reasoning []);
}

-- `none` is a text that is no JSON.
pub parse_turn_provenance : Option ParsedProvenance → Option TurnProvenance
unfolding parse_step
parse_turn_provenance none = none
parse_turn_provenance (some p) = elim p.conversation_id [
  | none ↦ none
  | some c ↦
      if c == ""
      then none
      else some (record {
        conversation_id = c;
        step = parse_step p.step;
        unfinished = p.unfinished;
        previous = if p.unfinished then Option.map parse_step p.previous else none;
      })
]

-- A message of the prompt: an assistant's with its parts, or with content that is no array.
pub data Message : Type 0 where
  assistant : List Part → Message
  assistant_opaque from_other : Message

-- The loop from the prompt's end: the first assistant message found.
abbrev pub last_assistant : List Message → Option Message
last_assistant [] = none
last_assistant (m ∷ ms) = elim (last_assistant ms) [
  | some found ↦ some found
  | none ↦ elim m [
    | assistant ps ↦ some (assistant ps)
    | assistant_opaque ↦ some assistant_opaque
    | from_other ↦ none
  ]
]

-- The loop over the parts of the host's message.
pub collect : EmittedStep → List Part → EmittedStep
unfolding normalize_text is_space
collect s [] = s
collect s (tool_call id ∷ ps) =
    collect (record s { tool_call_ids = s.tool_call_ids ++ (id ∷ []) }) ps
collect s (text_delta t ∷ ps) =
    collect
      (record s {
        text_with_reasoning = s.text_with_reasoning ++ normalize_text t;
        text = s.text ++ normalize_text t;
      })
      ps
collect s (reasoning_delta t ∷ ps) =
    collect (record s { text_with_reasoning = s.text_with_reasoning ++ normalize_text t }) ps
collect s (other ∷ ps) = collect s ps

pub same_text : Text → Text → Bool
same_text [] [] = true
same_text (x ∷ xs) (y ∷ ys) = nat_beq x y && same_text xs ys
same_text _ _ = false

-- `text.startsWith(prefix)`
pub begins_with : Text → Text → Bool
begins_with text [] = true
begins_with [] (y ∷ ys) = false
begins_with (x ∷ xs) (y ∷ ys) = nat_beq x y && begins_with xs ys

abbrev pub includes : String → List String → Bool
includes id xs = any (λ x. x == id) xs

pub same_step : EmittedStep → EmittedStep → Bool
unfolding same_text
same_step step host =
    any (λ id. includes id step.tool_call_ids) host.tool_call_ids
    || ((not (is_empty step.text) && same_text host.text step.text)
        || (not (is_empty step.text_with_reasoning)
            && same_text host.text_with_reasoning step.text_with_reasoning))

abbrev pub capped : EmittedStep → EmittedStep
capped s = record s {
  text = take max_text_chars s.text;
  text_with_reasoning = take max_text_chars s.text_with_reasoning;
}

-- The excuses for a step that has not finished.
pub matches_unfinished : TurnProvenance → EmittedStep → Bool
unfolding same_step begins_with
matches_unfinished p host =
    p.unfinished
    && (get_or (Option.map (λ s. same_step s host) p.previous) false
        || (is_empty host.tool_call_ids
            && ((not (is_empty host.text) && begins_with p.step.text host.text)
                || (not (is_empty host.text_with_reasoning)
                    && begins_with p.step.text_with_reasoning host.text_with_reasoning))))

-- The decision on the host's latest step; `true` is "foreign-assistant".
pub is_foreign : TurnProvenance → EmittedStep → Bool
unfolding matches_unfinished
is_foreign p host = not (
    (is_empty host.tool_call_ids && is_empty host.text)
    || (same_step p.step (capped host) || matches_unfinished p (capped host)))

abbrev pub foreign_message : TurnProvenance → Option Message → Bool
foreign_message p (some (assistant parts)) = is_foreign p (collect no_step parts)
foreign_message p _ = false

-- An absent session key gives no evidence; an empty one is falsy.
pub detect_foreign_history : Sessions → Option String → String → List Message → Bool
unfolding is_foreign collect
detect_foreign_history sessions none conversation prompt = false
detect_foreign_history sessions (some key) conversation prompt =
    if key == "" then false else elim (get key sessions) [
      | none ↦ false
      | some e ↦
          if e.conversation_id == conversation
          then foreign_message e.provenance (last_assistant prompt)
          else false
    ]
