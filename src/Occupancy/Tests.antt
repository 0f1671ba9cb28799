-- ===== src/Occupancy/Tests.antt =====
-- A jump that is held once.
use cursor_opencode_provider.Base.{
  ◌+◌, ℕ, String, ◌≡◌, refl, true, false, none, some, [], ◌∷◌, arith, string_eq, nat_eq,
}
use cursor_opencode_provider.Occupancy.{
  Details, Guard, Observation, categories, equal_category, is_unexplained_occupancy_jump,
  same_occupancy_reading, confirms, select_checkpoint_occupancy,
}
use cursor_opencode_provider.Occupancy.Hold.{held_once}

abbrev reading : ℕ → ℕ → Details
reading tokens system = record {
  used_tokens = tokens + system;
  max_tokens = 200000;
  breakdown = some (record {
    total_used_tokens = tokens + system;
    breakdown_max_tokens = 200000;
    items =
        (record {
          id = "conversation";
          label = "Conversation";
          estimated_tokens = tokens;
          character_count = some 4000;
        })
        ∷ (record {
          id = "system";
          label = "System";
          estimated_tokens = system;
          character_count = none;
        })
        ∷ [];
  });
}

abbrev guard : Guard
guard = record { model = none; needs_fresh_baseline = false; pending = none }

abbrev at_boundary : String → Observation
at_boundary b = record { observed_boundary = some b; observed_model = none; bypass = false }

holds_jump :
    (select_checkpoint_occupancy
      (some (reading 1000 500))
      (reading 4000 500)
      guard
      (at_boundary "m1")).0
    ≡ true
unfolding select_checkpoint_occupancy is_unexplained_occupancy_jump categories equal_category
    confirms same_occupancy_reading
holds_jump = refl

accepts_growth :
    (select_checkpoint_occupancy
      (some (reading 1000 500))
      (reading 1100 500)
      guard
      (at_boundary "m1")).0
    ≡ false
unfolding select_checkpoint_occupancy is_unexplained_occupancy_jump categories equal_category
    confirms same_occupancy_reading
accepts_growth = refl

held_once_example :
    (select_checkpoint_occupancy
      (some (reading 1000 500))
      (reading 4000 500)
      (select_checkpoint_occupancy
        (some (reading 1000 500))
        (reading 4000 500)
        guard
        (at_boundary "m1")).1
      (at_boundary "m2")).0
    ≡ false
held_once_example =
    held_once (some (reading 1000 500)) (some (reading 1000 500)) (reading 4000 500)
      (reading 4000 500) guard (at_boundary "m1") (at_boundary "m2") "m1" "m2" refl refl
      (ground (arith, string_eq.beq_iff "m1" "m2")) holds_jump
