-- ===== src/LostRequest/Tests.antt =====
-- A turn that never got its checkpoint, the next one, and the theorems at it.
use cursor_opencode_provider.Base.{
  ℕ, String, ◌≡◌, refl, Bool, false, none, some, List, [], ◌∷◌, string_eq, nat_eq,
}
use text.Mathlib.TextBridge.{IsPrefix}
use cursor_opencode_provider.JsMap.{get}
use cursor_opencode_provider.LostRequest.{
  LostRequest, Records, checkpoint_key, CarryInput, carry_lost_request, remember_lost_request, Read,
  serialize_lost_request, restore_lost_request, null_value, value, threw, now_holds,
}
use cursor_opencode_provider.LostRequest.Carry.{
  carry_lost_request-IsPrefix, carry-remember, sent, again,
}
use cursor_opencode_provider.LostRequest.Saved.{fields_of, restore-serialize}

-- A digest that tells the empty bytes from others.
abbrev digest : List ℕ → String
digest [] = "empty"
digest (b ∷ bytes) = "bytes"

abbrev red : LostRequest
red = record { conversation_id = "c"; checkpoint_key = "none"; text = "red"; latest = "red" }

abbrev kept : Records
kept = ("s", red) ∷ []

abbrev ask : Bool → String → CarryInput
ask rebuild text = record {
  session_key = "s";
  conversation_id = "c";
  checkpoint = none;
  text = text;
  rebuild_from_history = rebuild;
}

appends : (carry_lost_request digest kept (ask false "blue")).1 ≡ "red\n\nblue"
unfolding carry_lost_request checkpoint_key
appends = refl

carry_lost_request-IsPrefix_example :
    IsPrefix "red" (carry_lost_request digest kept (ask false "blue")).1
unfolding checkpoint_key
carry_lost_request-IsPrefix_example =
    carry_lost_request-IsPrefix digest kept (ask false "blue") red refl refl

carry-remember_example :
    (carry_lost_request digest
      (remember_lost_request digest []
        (sent digest (ask false "blue") (carry_lost_request digest kept (ask false "blue")).1))
      (again digest (ask false "blue"))).1
    ≡ (carry_lost_request digest kept (ask false "blue")).1
unfolding carry_lost_request checkpoint_key
carry-remember_example = carry-remember digest kept [] (ask false "blue") refl refl refl

abbrev write : LostRequest → String
write r = "{}"

abbrev read : String → Read
read raw = value (fields_of red)

restore-serialize_example :
    (after : Records) × (restore_lost_request write read [] "s"
        (serialize_lost_request write read kept (some "s"))
      ≡ now_holds after)
    × (get "s" after ≡ some red)
restore-serialize_example =
    restore-serialize write read kept [] "s" red refl refl refl refl refl refl

-- The text null makes the restoration throw.
null_throws : restore_lost_request write (λ raw. null_value) [] "s" (some "null") ≡ threw
unfolding restore_lost_request
null_throws = refl
