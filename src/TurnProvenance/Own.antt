-- ===== src/TurnProvenance/Own.antt =====
-- A prompt that ends on the provider's own step.
use cursor_opencode_provider.Base.{
  ℕ, suc, String, ◌≡◌, refl, ap, ◌∙◌, subst, inl, inr, Bool, true, false, Option, none, some, List,
  [], ◌∷◌, ◌++◌, arith, if◌then◌else◌, Bool-cases, Option-cases, all, ◌==◌, eq_refl, string_eq,
  nat_eq,
}
use cursor_opencode_provider.JsMap.{get, delete}
use cursor_opencode_provider.JsMap.Laws.{get-set, get-delete, touch_last}
use cursor_opencode_provider.JsMap.Bounds.{get-append_new}
use cursor_opencode_provider.TurnProvenance.{
  EmittedStep, no_step, Entry, Sessions, evict_named, touch, entry_for, content_entry,
  begin_emitted_step, Part, contribution, add_part, record_emitted_part, finish_emitted_step,
  Message, last_assistant, collect, detect_foreign_history, assistant,
}
use cursor_opencode_provider.TurnProvenance.Shown.{
  is_named, IsOwn, add_part-IsOwn, collect_next, not_foreign,
}

-- The parts of a stream, each recorded for the session.
unfoldable pub record_parts : Sessions → String → String → List Part → Sessions
unfolding record_emitted_part
record_parts sessions key conversation [] = sessions
record_parts sessions key conversation (p ∷ ps) =
    record_parts (record_emitted_part sessions key conversation p) key conversation ps

get-evict_named :
    (key : String) (e : Entry) (most : ℕ) (m : Sessions)
    → get key m ≡ none
    → get key (evict_named (suc most) (m ++ ((key, e) ∷ []))) ≡ some e
get-evict_named key e most [] h = ground (arith, eq_refl key)
get-evict_named key e most (x ∷ m) h =
    ground (arith, get-evict_named key e most m, get-append_new key e (x ∷ m))

get-touch_entry :
    (sessions : Sessions) (key : String) (e : Entry) → get key (touch sessions key e) ≡ some e
unfolding touch
get-touch_entry sessions key e = rw (touch_last key e sessions) (
    get-evict_named key e 255 (delete key sessions)
      (ground (arith, get-delete key key sessions, eq_refl key)))

-- The session has an entry of this conversation, with what was shown.
abbrev Holds : Sessions → String → String → EmittedStep → Type 0
Holds sessions key conversation h =
    (e : Entry) × (get key sessions ≡ some e) × (e.conversation_id ≡ conversation) × IsOwn e h

entry_for_conversation :
    (sessions : Sessions) (key conversation : String)
    → (entry_for sessions key conversation).conversation_id ≡ conversation
unfolding entry_for
entry_for_conversation sessions key conversation = elim (Option-cases (get key sessions)) [
  | inl g ↦ rw (g, entry_for) refl
  | inr (e, g) ↦ elim (Bool-cases (e.conversation_id == conversation)) [
    | inl b ↦ rw (g, entry_for) (rw b ((string_eq.beq_iff e.conversation_id conversation).0 b))
    | inr b ↦ rw (g, entry_for) (rw b refl)
  ]
]

begun-Holds :
    (sessions : Sessions) (key conversation : String)
    → Holds (begin_emitted_step sessions key conversation) key conversation no_step
unfolding begin_emitted_step entry_for
begun-Holds sessions key conversation = (
  record (entry_for sessions key conversation) { step_pending = true },
  get-touch_entry sessions key _,
  entry_for_conversation sessions key conversation,
  inl (refl, (refl, refl)),
)

entry_for_found :
    (sessions : Sessions) (key conversation : String) (e : Entry)
    → get key sessions ≡ some e
    → e.conversation_id ≡ conversation
    → entry_for sessions key conversation ≡ e
unfolding entry_for
entry_for_found sessions key conversation e g c =
    let same : (e.conversation_id == conversation) ≡ true =
      (string_eq.beq_iff e.conversation_id conversation).1 c in
    rw (g, entry_for) (rw same refl)

content_entry_conversation : (e : Entry) → (content_entry e).conversation_id ≡ e.conversation_id
unfolding content_entry
content_entry_conversation e = ground arith

add_part_conversation :
    (o : Option (EmittedStep → EmittedStep)) (e : Entry)
    → (add_part o e).conversation_id ≡ e.conversation_id
add_part_conversation none e = refl
add_part_conversation (some f) e = content_entry_conversation e

get-record_emitted_part :
    (p : Part) (sessions : Sessions) (key conversation : String) (e : Entry)
    → get key sessions ≡ some e
    → e.conversation_id ≡ conversation
    → get key (record_emitted_part sessions key conversation p) ≡ some (add_part (contribution p) e)
unfolding record_emitted_part
get-record_emitted_part p sessions key conversation e g c = elim (Option-cases (contribution p)) [
  | inl f ↦ rw (f, record_emitted_part) g
  | inr (k, f) ↦
      rw (f, record_emitted_part)
        (rw (entry_for_found sessions key conversation e g c)
          (get-touch_entry sessions key (add_part (some k) e)))
]

recorded-Holds :
    (p : Part) (sessions : Sessions) (key conversation : String) (h : EmittedStep)
    → is_named p ≡ true
    → Holds sessions key conversation h
    → Holds (record_emitted_part sessions key conversation p) key conversation (collect h (p ∷ []))
unfolding record_emitted_part
recorded-Holds p sessions key conversation h n (e, g, c, own) = (
  add_part (contribution p) e,
  get-record_emitted_part p sessions key conversation e g c,
  add_part_conversation (contribution p) e ∙ c,
  add_part-IsOwn p e h n own,
)

record_parts-Holds :
    (ps : List Part) (sessions : Sessions) (key conversation : String) (h : EmittedStep)
    → all is_named ps ≡ true
    → Holds sessions key conversation h
    → Holds (record_parts sessions key conversation ps) key conversation (collect h ps)
unfolding record_parts collect
record_parts-Holds [] sessions key conversation h n held = held
record_parts-Holds (p ∷ ps) sessions key conversation h n held =
    subst
      (Holds (record_parts (record_emitted_part sessions key conversation p) key conversation ps)
        key conversation)
      (collect_next h p ps)
      (record_parts-Holds ps (record_emitted_part sessions key conversation p) key conversation
        (collect h (p ∷ [])) (ground (arith, n))
        (recorded-Holds p sessions key conversation h (ground (arith, n)) held))

abbrev finished : Entry → Entry
finished e = record e { provenance = record (e.provenance) { unfinished = false; previous = none } }

chosen : (b : Bool) (d e : Entry) (c : Bool) → b ≡ c → (if b then d else e) ≡ (if c then d else e)
chosen b d e c h = ap (λ x. if x then d else e) h

get-finish_emitted_step :
    (sessions : Sessions) (key conversation : String) (e : Entry)
    → get key sessions ≡ some e
    → (e.conversation_id == conversation) ≡ true
    → get key (finish_emitted_step sessions key conversation)
      ≡ some (if e.step_pending then e else finished e)
unfolding finish_emitted_step
get-finish_emitted_step sessions key conversation e g same =
    ground (arith, g, same, get-set key key (finished e) sessions, eq_refl key)

finished-Holds :
    (sessions : Sessions) (key conversation : String) (h : EmittedStep)
    → Holds sessions key conversation h
    → Holds (finish_emitted_step sessions key conversation) key conversation h
unfolding finish_emitted_step
finished-Holds sessions key conversation h (e, g, c, own) =
    let same : (e.conversation_id == conversation) ≡ true =
      (string_eq.beq_iff e.conversation_id conversation).1 c in
    let found = get-finish_emitted_step sessions key conversation e g same in
    elim (Bool-cases e.step_pending) [
      | inl b ↦ (e, found ∙ ap some (chosen e.step_pending e (finished e) true b), c, own)
      | inr b ↦ (finished e, found ∙ ap some (chosen e.step_pending e (finished e) false b), c, own)
    ]

not_foreign-Holds :
    (sessions : Sessions) (key conversation : String) (prompt : List Message) (ps : List Part)
    → last_assistant prompt ≡ some (assistant ps)
    → Holds sessions key conversation (collect no_step ps)
    → detect_foreign_history sessions (some key) conversation prompt ≡ false
unfolding detect_foreign_history
not_foreign-Holds sessions key conversation prompt ps last (e, g, c, own) =
    elim (Bool-cases (key == "")) [
      | inl b ↦ rw b refl
      | inr b ↦
          let same : (e.conversation_id == conversation) ≡ true =
            (string_eq.beq_iff e.conversation_id conversation).1 c in
          rw b (rw g (rw same (rw last (not_foreign e (collect no_step ps) own))))
    ]

-- A message with the parts of this provider's own step is not called foreign, during the stream or after its end,
-- whatever was recorded before, whatever the session and however long the texts or many the calls: provided that
-- they were all recorded since the step began, in their order, and that no call has an empty id.
pub detect_foreign_history-record_parts :
    (sessions : Sessions) (key conversation : String) (prompt : List Message) (ps : List Part)
    → all is_named ps ≡ true
    → last_assistant prompt ≡ some (assistant ps)
    → let recorded =
        record_parts (begin_emitted_step sessions key conversation) key conversation ps in
      (detect_foreign_history recorded (some key) conversation prompt ≡ false)
      × (detect_foreign_history
            (finish_emitted_step recorded key conversation)
            (some key)
            conversation
            prompt
          ≡ false)
detect_foreign_history-record_parts sessions key conversation prompt ps n last =
    let recorded =
      record_parts (begin_emitted_step sessions key conversation) key conversation ps in
    let held =
      record_parts-Holds ps (begin_emitted_step sessions key conversation) key conversation no_step
        n (begun-Holds sessions key conversation) in
    (
      not_foreign-Holds recorded key conversation prompt ps last held,
      not_foreign-Holds (finish_emitted_step recorded key conversation) key conversation prompt ps
          last (finished-Holds recorded key conversation (collect no_step ps) held),
    )
