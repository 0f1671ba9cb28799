-- ===== src/LostRequest/Saved.antt =====
-- A record in the conversation's saved state.
use cursor_opencode_provider.Base.{
  String, ◌≡◌, refl, false, Option, none, some, map, arith, ◌==◌, string_eq, nat_eq,
}
use cursor_opencode_provider.JsMap.{get}
use cursor_opencode_provider.JsMap.Bounds.{get-evict-touch}
use cursor_opencode_provider.LostRequest.{
  LostRequest, Records, Parsed, set_record, to_record, Read, restore_value, serialize_lost_request,
  restore_lost_request, string, value, now_holds,
}

-- The object that `JSON.stringify` writes for a record.
abbrev pub fields_of : LostRequest → Parsed
fields_of r = record {
  conversation_id = string r.conversation_id;
  checkpoint_key = string r.checkpoint_key;
  text = string r.text;
  latest = string r.latest;
}

module _ (stringify : LostRequest → String) (parse : String → Read) where
  -- A record that was serialized is restored as it was, into a process that has none for the
  -- session. The codec reads back the fields of a record that it wrote, and its text is not empty;
  -- nor are the session key and the record's text.
  pub restore-serialize :
      (map map' : Records) (k : String) (r : LostRequest)
      → parse (stringify r) ≡ value (fields_of r)
      → (stringify r == "") ≡ false
      → (k == "") ≡ false
      → (r.text == "") ≡ false
      → get k map ≡ some r
      → get k map' ≡ none
      → (after : Records) × (restore_lost_request stringify parse map' k
            (serialize_lost_request stringify parse map (some k))
          ≡ now_holds after)
        × (get k after ≡ some r)
  unfolding restore_lost_request serialize_lost_request to_record set_record restore_value
  restore-serialize map map' k r codec written named full found new = (
    set_record map' k r,
    rw (named, found) (rw (written, new) (rw codec (rw full refl))),
    get-evict-touch k r 1023 map',
  )

  -- A live record wins: what is saved never replaces it.
  pub restore_keeps :
      (map : Records) (k : String) (raw : Option String) (r : LostRequest)
      → get k map ≡ some r
      → restore_lost_request stringify parse map k raw ≡ now_holds map
  unfolding restore_lost_request
  restore_keeps map k none r found = refl
  restore_keeps map k (some raw) r found = ground arith
