-- ===== src/TurnProvenance/Tests.antt =====
-- A step that was recorded, the host's prompt with it, and with another provider's step.
use cursor_opencode_provider.Base.{
  ◌≡◌, refl, true, false, some, List, [], ◌∷◌, arith, string_eq, nat_eq,
}
use cursor_opencode_provider.TurnProvenance.{
  Part, Text, Sessions, Message, assistant, from_other, text_delta, tool_call, other,
  begin_emitted_step, record_emitted_part, finish_emitted_step, detect_foreign_history, touch,
  entry_for, content_entry, contribution, normalize_text, is_space, collect, is_foreign,
  matches_unfinished, same_step, same_text, begins_with, new_entry, no_step,
}
use cursor_opencode_provider.TurnProvenance.Own.{record_parts, detect_foreign_history-record_parts}
use cursor_opencode_provider.TurnProvenance.Recorded.{IsBounded, add_parts, add_parts-IsBounded}

-- "Hi you" and "Bye"
abbrev greeting : Text
greeting = 72 ∷ 105 ∷ 32 ∷ 121 ∷ 111 ∷ 117 ∷ []

abbrev farewell : Text
farewell = 66 ∷ 121 ∷ 101 ∷ []

abbrev recorded : Sessions
unfolding begin_emitted_step record_emitted_part finish_emitted_step
recorded =
    let a = begin_emitted_step [] "s" "c" in
    let b = record_emitted_part a "s" "c" (text_delta greeting) in finish_emitted_step b "s" "c"

abbrev own : List Message
own = assistant (text_delta greeting ∷ []) ∷ from_other ∷ []

abbrev foreign : List Message
foreign = assistant (text_delta greeting ∷ []) ∷ assistant (text_delta farewell ∷ []) ∷ []

recognizes_own : detect_foreign_history recorded (some "s") "c" own ≡ false
unfolding recorded begin_emitted_step record_emitted_part finish_emitted_step detect_foreign_history
    touch entry_for content_entry contribution normalize_text is_space collect is_foreign
    matches_unfinished same_step same_text begins_with
recognizes_own = refl

recognizes_foreign : detect_foreign_history recorded (some "s") "c" foreign ≡ true
unfolding recorded begin_emitted_step record_emitted_part finish_emitted_step detect_foreign_history
    touch entry_for content_entry contribution normalize_text is_space collect is_foreign
    matches_unfinished same_step same_text begins_with
recognizes_foreign = refl

no_step-IsBounded : IsBounded no_step
unfolding IsBounded
no_step-IsBounded = (omega arith, (omega arith, omega arith))

add_parts-IsBounded_example :
    IsBounded (add_parts (new_entry "c") (text_delta greeting ∷ tool_call "t" ∷ other ∷ [])).step
add_parts-IsBounded_example =
    add_parts-IsBounded (new_entry "c") (text_delta greeting ∷ tool_call "t" ∷ other ∷ [])
      no_step-IsBounded

-- A step that began after the one recorded, with a call and a text.
abbrev answer : List Part
answer = text_delta greeting ∷ other ∷ tool_call "t" ∷ text_delta farewell ∷ []

abbrev answered : List Message
answered = from_other ∷ assistant answer ∷ from_other ∷ []

detect_foreign_history-record_parts_example :
    (detect_foreign_history
        (record_parts (begin_emitted_step recorded "s" "c") "s" "c" answer)
        (some "s")
        "c"
        answered
      ≡ false)
    × (detect_foreign_history
          (finish_emitted_step
            (record_parts (begin_emitted_step recorded "s" "c") "s" "c" answer)
            "s"
            "c")
          (some "s")
          "c"
          answered
        ≡ false)
detect_foreign_history-record_parts_example =
    detect_foreign_history-record_parts recorded "s" "c" answered answer refl refl
