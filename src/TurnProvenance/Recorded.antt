-- ===== src/TurnProvenance/Recorded.antt =====
-- The bounds on a recorded step.

use cursor_opencode_provider.Base.{
  ◌≤◌, String, ◌≡◌, inl, inr, some, List, [], ◌∷◌, ◌++◌, arith, Option-cases, length, length-append,
  length-take, string_eq, nat_eq,
}
use cursor_opencode_provider.TurnProvenance.{
  Text, Entry, EmittedStep, Part, text_delta, reasoning_delta, tool_call, other, append_capped,
  add_part, add_text, add_reasoning, add_tool_call, content_entry, contribution, no_step,
  normalize_text, max_text_chars,
}

unfoldable pub IsBounded : EmittedStep → Type 0
IsBounded s =
    (length s.tool_call_ids ≤ 64) × ((length s.text ≤ 4096) × (length s.text_with_reasoning ≤ 4096))

length-append_capped :
    (value delta : Text) → length value ≤ 4096 → length (append_capped value delta) ≤ 4096
length-append_capped value delta h = ground (arith, length-take max_text_chars (value ++ delta))

IsBounded-no_step : IsBounded no_step
unfolding IsBounded
IsBounded-no_step = (omega arith, (omega arith, omega arith))

IsBounded-content_entry : (e : Entry) → IsBounded e.step → IsBounded (content_entry e).step
unfolding IsBounded content_entry
IsBounded-content_entry e h = ground arith

IsBounded-add_tool_call :
    (id : String) (s : EmittedStep) → IsBounded s → IsBounded (add_tool_call id s)
unfolding IsBounded
IsBounded-add_tool_call id s h = ground (arith, length-append s.tool_call_ids (id ∷ []))

IsBounded-add_text : (d : Text) (s : EmittedStep) → IsBounded s → IsBounded (add_text d s)
unfolding IsBounded
IsBounded-add_text d s (i, (t, r)) = (i, (length-append_capped _ d t, length-append_capped _ d r))

IsBounded-add_reasoning : (d : Text) (s : EmittedStep) → IsBounded s → IsBounded (add_reasoning d s)
unfolding IsBounded
IsBounded-add_reasoning d s (i, (t, r)) = (i, (t, length-append_capped _ d r))

IsBounded-contribution :
    (p : Part) (f : EmittedStep → EmittedStep) (s : EmittedStep)
    → contribution p ≡ some f
    → IsBounded s
    → IsBounded (f s)
unfolding contribution
IsBounded-contribution (text_delta d) f s e h =
    ground (arith, IsBounded-add_text (normalize_text d) s h)
IsBounded-contribution (reasoning_delta d) f s e h =
    ground (arith, IsBounded-add_reasoning (normalize_text d) s h)
IsBounded-contribution (tool_call id) f s e h = ground (arith, IsBounded-add_tool_call id s h)
IsBounded-contribution other f s e h = ground arith

IsBounded-add_part :
    (p : Part) (e : Entry) → IsBounded e.step → IsBounded (add_part (contribution p) e).step
IsBounded-add_part p e h = elim (Option-cases (contribution p)) [
  | inl f ↦ rw (f, add_part) h
  | inr (g, f) ↦ rw (f, add_part) (IsBounded-contribution p g _ f (IsBounded-content_entry e h))
]

-- The parts of a stream, added to the entry of its session in turn.
unfoldable pub add_parts : Entry → List Part → Entry
unfolding contribution content_entry
add_parts e [] = e
add_parts e (p ∷ ps) = add_parts (add_part (contribution p) e) ps

-- Whatever parts a stream has, the step that is recorded of it has at most 64 tool call ids and at most
-- 4096 characters of either text, if the step before it had.
pub add_parts-IsBounded :
    (e : Entry) (ps : List Part) → IsBounded e.step → IsBounded (add_parts e ps).step
unfolding add_parts
add_parts-IsBounded e [] h = h
add_parts-IsBounded e (p ∷ ps) h =
    add_parts-IsBounded (add_part (contribution p) e) ps (IsBounded-add_part p e h)
