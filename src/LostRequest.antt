-- ===== src/LostRequest.antt =====
-- src/lost-request.ts: the request that Cursor has not checkpointed yet, carried to the next turn.
-- The record map is explicit state. The SHA-256 digest and the JSON codec are not part of the
-- repository, and are parameters.
pub mod Carry
pub mod Saved
mod Tests
use cursor_opencode_provider.Base.{
  ◌+◌, ◌-◌, ◌*◌, ◌/◌, ◌%◌, ◌^◌, ◌≤◌, ◌<◌, min, max, ℕ, zero, suc, String, ◌≡◌, refl, sym, ap, ◌∙◌,
  subst, ◌≢◌, ◌↔◌, ◌⊎◌, inl, inr, Bool, true, false, not, ◌&&◌, ◌||◌, Option, none, some, List, [],
  ◌∷◌, ◌++◌, map, arith, ltb, leb, nat_beq, if◌then◌else◌, ltb→lt, lt→ltb, leb→le, nat_beq_iff,
  Bool-cases, Option-cases, is_some, get_or, length, take, drop, any, all, filter, length-append,
  length-filter-le, take-append-drop, length-take, length-drop, take-append, drop-append, All,
  All-append, All-filter, Eq, ◌==◌, eq_refl, string_eq, nat_eq,
}
use Prim.Native.String.{◌++◌ as str_append}
use mathlib.Core.Option
use text.Mathlib.Text.{starts_with}
use cursor_opencode_provider.JsMap.{Map, get, has, set, delete, touch, evict}

pub record LostRequest : Type 0 where
  pub conversation_id : String
  pub checkpoint_key : String
  pub text : String
  pub latest : String

abbrev pub Records : Type 0
Records = Map String LostRequest

abbrev pub max_records : ℕ
max_records = 1024

pub record CarryInput : Type 0 where
  pub session_key : String
  pub conversation_id : String
  pub checkpoint : Option (List ℕ)
  pub text : String
  pub rebuild_from_history : Bool

pub record RememberInput : Type 0 where
  pub session_key : String
  pub conversation_id : String
  pub checkpoint : Option (List ℕ)
  pub text : String
  pub latest : Option String

-- A field of the parsed JSON object: missing, a text, or another value.
pub data Field : Type 0 where
  missing other : Field
  string : String → Field

pub record Parsed : Type 0 where
  pub conversation_id : Field
  pub checkpoint_key : Field
  pub text : Field
  pub latest : Field

-- `${text}\n\n`
abbrev pub paragraph : String → String
paragraph t = str_append t "\n\n"

pub set_record : Records → String → LostRequest → Records
set_record map session_key record' = evict max_records (touch session_key record' map)

-- `!sessionKey` for a key that may be undefined.
abbrev pub key_of : Option String → Option String
key_of none = none
key_of (some k) = if k == "" then none else some k

pub has_lost_request : Records → Option String → Bool
has_lost_request map session_key = get_or (Option.map (λ k. has k map) (key_of session_key)) false

pub drop_lost_request : Records → Option String → Records
drop_lost_request map session_key = get_or (Option.map (λ k. delete k map) (key_of session_key)) map

-- What is sent, and what becomes of the record, once a record of this checkpoint is there.
pub carry_record : Records → CarryInput → LostRequest → Records × String
carry_record map input r =
    if input.text == r.latest
    then (map, r.text)
    else if input.text == r.text || starts_with input.text (paragraph r.text)
    then (map, input.text)
    else (delete input.session_key map, str_append (paragraph r.text) input.text)

module _ (digest : List ℕ → String) where
  pub checkpoint_key : Option (List ℕ) → String
  checkpoint_key none = "none"
  checkpoint_key (some []) = "none"
  checkpoint_key (some (b ∷ bytes)) = digest (b ∷ bytes)

  abbrev pub is_stale : CarryInput → LostRequest → Bool
  is_stale input r =
      input.rebuild_from_history
      || (not (r.conversation_id == input.conversation_id)
          || not (r.checkpoint_key == checkpoint_key input.checkpoint))

  -- The new records and the text to send.
  pub carry_lost_request : Records → CarryInput → Records × String
  unfolding carry_record
  carry_lost_request map input = elim (get input.session_key map) [
    | none ↦ (map, input.text)
    | some r ↦
        if is_stale input r
        then (delete input.session_key map, input.text)
        else carry_record map input r
  ]

  pub remember_lost_request : Records → RememberInput → Records
  unfolding set_record
  remember_lost_request map input =
      if input.session_key == "" || (input.text == "" || input.text == ".")
      then map
      else set_record map input.session_key (record {
        conversation_id = input.conversation_id;
        checkpoint_key = checkpoint_key input.checkpoint;
        text = input.text;
        latest = get_or input.latest input.text;
      })

  abbrev pub note_for : Records → String → List ℕ → Records
  note_for map k bytes = elim (get k map) [
    | none ↦ map
    | some r ↦ if not (checkpoint_key (some bytes) == r.checkpoint_key) then delete k map else map
  ]

  pub note_checkpoint : Records → Option String → List ℕ → Records
  note_checkpoint map session_key bytes =
      get_or (Option.map (λ k. note_for map k bytes) (key_of session_key)) map

-- The checks on the parsed object's texts: strings, and a text that is not empty.
abbrev pub with_latest : String → String → String → Field → Option LostRequest
with_latest conversation key t other = none
with_latest conversation key t missing =
    some (record { conversation_id = conversation; checkpoint_key = key; text = t; latest = t })
with_latest conversation key t (string l) =
    some (record { conversation_id = conversation; checkpoint_key = key; text = t; latest = l })

abbrev pub with_text : String → String → Field → Field → Option LostRequest
with_text conversation key (string t) latest =
    if t == "" then none else with_latest conversation key t latest
with_text conversation key _ latest = none

abbrev pub with_key : String → Field → Field → Field → Option LostRequest
with_key conversation (string key) t latest = with_text conversation key t latest
with_key conversation _ t latest = none

abbrev pub with_conversation : Field → Field → Field → Field → Option LostRequest
with_conversation (string conversation) key t latest = with_key conversation key t latest
with_conversation _ key t latest = none

pub to_record : Parsed → Option LostRequest
to_record p = with_conversation p.conversation_id p.checkpoint_key p.text p.latest

abbrev pub restored : Records → String → Option LostRequest → Records
restored map session_key none = map
restored map session_key (some r) = set_record map session_key r

-- What `JSON.parse` makes of a text: an exception, null, or another value with its fields, which a number, a
-- Boolean, a string and an array do not have.
pub data Read : Type 0 where
  unreadable null_value : Read
  value : Parsed → Read

-- A read of a field of null throws, before anything is written.
pub data Restored : Type 0 where
  threw : Restored
  now_holds : Records → Restored

abbrev pub restore_value : Records → String → Read → Restored
unfolding to_record set_record
restore_value map session_key unreadable = now_holds map
restore_value map session_key null_value = threw
restore_value map session_key (value p) = now_holds (restored map session_key (to_record p))

module _ (stringify : LostRequest → String) (parse : String → Read) where
  pub serialize_lost_request : Records → Option String → Option String
  serialize_lost_request map none = none
  serialize_lost_request map (some k) = if k == "" then none else Option.map stringify (get k map)

  pub restore_lost_request : Records → String → Option String → Restored
  unfolding restore_value
  restore_lost_request map session_key none = now_holds map
  restore_lost_request map session_key (some raw) =
      if raw == "" || has session_key map
      then now_holds map
      else restore_value map session_key (parse raw)
