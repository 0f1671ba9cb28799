-- ===== src/LostRequest/Carry.antt =====
-- What a turn sends, and what is remembered of it.
use cursor_opencode_provider.Base.{
  ℕ, String, ◌≡◌, refl, sym, ◌∙◌, inl, inr, true, false, none, some, List, map, arith,
  if◌then◌else◌, Bool-cases, ◌==◌, eq_refl, string_eq, nat_eq,
}
use Prim.Native.String.{◌++◌ as str_append}
use text.Mathlib.Text.{starts_with}
use text.Mathlib.TextBridge.{IsPrefix}
use text.Mathlib.TextEquality.{starts_with_iff}
use text.Mathlib.TextLemmas.{append_assoc, append-nil}
use cursor_opencode_provider.JsMap.{get}
use cursor_opencode_provider.JsMap.Laws.{get-delete}
use cursor_opencode_provider.JsMap.Bounds.{get-evict-touch}
use cursor_opencode_provider.LostRequest.{
  LostRequest, Records, CarryInput, RememberInput, paragraph, set_record, carry_record,
  checkpoint_key, is_stale, carry_lost_request, remember_lost_request, note_checkpoint, note_for,
}

prefix_of_paragraph : (t s : String) → IsPrefix (paragraph t) s → IsPrefix t s
prefix_of_paragraph t s (u, e) = (str_append "\n\n" u, sym (append_assoc t "\n\n" u) ∙ e)

prefix_self : (t : String) → IsPrefix t t
prefix_self t = ("", append-nil t)

carry_record-IsPrefix :
    (map : Records) (input : CarryInput) (r : LostRequest)
    → IsPrefix r.text (carry_record map input r).1
unfolding carry_record
carry_record-IsPrefix map input r = elim (Bool-cases (input.text == r.latest)) [
  | inl e ↦ rw e (prefix_self r.text)
  | inr e ↦ elim (Bool-cases (input.text == r.text)) [
    | inl f ↦ rw (e, f) (rw ((string_eq.beq_iff _ _).0 f) (prefix_self r.text))
    | inr f ↦ elim (Bool-cases (starts_with input.text (paragraph r.text))) [
      | inl g ↦
          rw (e, f, g)
            (prefix_of_paragraph r.text input.text
              ((starts_with_iff input.text (paragraph r.text)).0 g))
      | inr g ↦ rw (e, f, g) (prefix_of_paragraph r.text _ (input.text, refl))
    ]
  ]
]

module _ (digest : List ℕ → String) where
  carry_found :
      (map : Records) (input : CarryInput) (r : LostRequest)
      → get input.session_key map ≡ some r
      → is_stale digest input r ≡ false
      → carry_lost_request digest map input ≡ carry_record map input r
  unfolding carry_lost_request
  carry_found map input r found fresh = rw (found, carry_lost_request) (rw fresh)

  -- A lost request is not lost again: where the session has a record of the same conversation and
  -- checkpoint and the turn does not rebuild from history, what is sent begins with the record's
  -- text, whichever text the host gives.
  pub carry_lost_request-IsPrefix :
      (map : Records) (input : CarryInput) (r : LostRequest)
      → get input.session_key map ≡ some r
      → is_stale digest input r ≡ false
      → IsPrefix r.text (carry_lost_request digest map input).1
  carry_lost_request-IsPrefix map input r found fresh =
      rw (carry_found map input r found fresh) (carry_record-IsPrefix map input r)

  -- A record of another conversation or checkpoint, or a rebuild from history, sends the text alone
  -- and drops the record.
  pub carry_lost_request_stale :
      (map : Records) (input : CarryInput) (r : LostRequest)
      → get input.session_key map ≡ some r
      → is_stale digest input r ≡ true
      → ((carry_lost_request digest map input).1 ≡ input.text)
        × (get input.session_key (carry_lost_request digest map input).0 ≡ none)
  unfolding carry_lost_request
  carry_lost_request_stale map input r found stale =
      rw (found, carry_lost_request)
        (rw stale (
          refl,
          ground (
            arith,
            get-delete input.session_key input.session_key map,
            string_eq.beq_iff input.session_key input.session_key,
          ),
        ))

  -- What the source remembers of a turn that sent `text` for the live text of `input`.
  abbrev pub sent : CarryInput → String → RememberInput
  sent input text = record {
    session_key = input.session_key;
    conversation_id = input.conversation_id;
    checkpoint = input.checkpoint;
    text = text;
    latest = some input.text;
  }

  abbrev pub again : CarryInput → CarryInput
  again input = record input { rebuild_from_history = false }

  get-remember :
      (map : Records) (input : CarryInput) (text : String)
      → (input.session_key == "") ≡ false
      → (text == "") ≡ false
      → (text == ".") ≡ false
      → get input.session_key (remember_lost_request digest map (sent input text))
        ≡ some (record {
          conversation_id = input.conversation_id;
          checkpoint_key = checkpoint_key digest input.checkpoint;
          text = text;
          latest = input.text;
        })
  unfolding remember_lost_request set_record
  get-remember map input text k t d = rw (k, t, d) (get-evict-touch input.session_key _ 1023 map)

  -- A retry sends what the attempt before it sent, however often: once a turn has remembered what it
  -- sent, the same live text on the same checkpoint is carried to that very text again, and does
  -- not pile up. The session key is not empty and the text sent is neither empty nor ".".
  pub carry-remember :
      (map map' : Records) (input : CarryInput)
      → let text = (carry_lost_request digest map input).1 in
        (input.session_key == "") ≡ false
        → (text == "") ≡ false
        → (text == ".") ≡ false
        → (carry_lost_request digest
            (remember_lost_request digest map' (sent input text))
            (again input)).1
          ≡ text
  carry-remember map map' input k t d =
      let text = (carry_lost_request digest map input).1 in
      rw
        (carry_found (remember_lost_request digest map' (sent input text)) (again input) _
          (get-remember map' input text k t d) same)
        (unfold carry_record in rw (eq_refl input.text))
    where
      same :
          is_stale digest (again input) (record {
            conversation_id = input.conversation_id;
            checkpoint_key = checkpoint_key digest input.checkpoint;
            text = (carry_lost_request digest map input).1;
            latest = input.text;
          })
          ≡ false
      same = rw (eq_refl input.conversation_id, eq_refl (checkpoint_key digest input.checkpoint))

  get-note_for :
      (map : Records) (k : String) (r : LostRequest) (bytes : List ℕ)
      → get k map ≡ some r
      → get k (note_for digest map k bytes)
        ≡ (if checkpoint_key digest (some bytes) == r.checkpoint_key then some r else none)
  get-note_for map k r bytes found =
      rw (found, note_for)
        (elim (Bool-cases (checkpoint_key digest (some bytes) == r.checkpoint_key)) [
          | inl e ↦ rw e found
          | inr e ↦ rw e (ground (arith, get-delete k k map, string_eq.beq_iff k k))
        ])

  -- A checkpoint ends the record exactly when it is another one than the turn was sent on.
  pub get-note_checkpoint :
      (map : Records) (k : String) (r : LostRequest) (bytes : List ℕ)
      → (k == "") ≡ false
      → get k map ≡ some r
      → get k (note_checkpoint digest map (some k) bytes)
        ≡ (if checkpoint_key digest (some bytes) == r.checkpoint_key then some r else none)
  unfolding note_checkpoint
  get-note_checkpoint map k r bytes named found = rw named (get-note_for map k r bytes found)
