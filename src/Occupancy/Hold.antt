-- ===== src/Occupancy/Hold.antt =====
-- When a reading is held, and for how long.
use mathlib.Core.Option
use cursor_opencode_provider.Base.{
  String, ◌≡◌, refl, sym, ap, ◌∙◌, inl, inr, true, false, Option, none, some, arith, Bool-cases,
  Option-cases, get_or, ◌==◌, string_eq, nat_eq,
}
use cursor_opencode_provider.Occupancy.{
  Details, Pending, Guard, Observation, same_text, resets_baseline, confirms, hold_reading, jumped,
  select_checkpoint_occupancy, or_else,
}

-- Held readings: none is reset, there is an earlier reading that the present one jumps from, the pending
-- reading does not confirm it, and it is kept in the guard.
IsHeld : Option Details → Details → Guard → Observation → Type 0
IsHeld previous current g o =
    (resets_baseline g o ≡ false)
    × ((jumped previous current ≡ true)
        × ((get_or (Option.map (λ p. confirms p current o) g.pending) false ≡ false)
            × ((select_checkpoint_occupancy previous current g o).1 ≡ hold_reading g current o)))

-- What the code has tested of a held reading.
select_checkpoint_occupancy-IsHeld :
    (previous : Option Details) (current : Details) (g : Guard) (o : Observation)
    → (select_checkpoint_occupancy previous current g o).0 ≡ true
    → IsHeld previous current g o
unfolding IsHeld select_checkpoint_occupancy
select_checkpoint_occupancy-IsHeld previous current g o h = ground arith

confirms_elsewhere :
    (p : Pending) (current : Details) (o : Observation) (b : String)
    → o.observed_boundary ≡ some b
    → same_text (some b) p.boundary ≡ false
    → confirms p current o ≡ true
unfolding confirms
confirms_elsewhere p current o b e f = rw e (rw f refl)

-- A pending reading that an observation does not confirm is of that observation.
boundary_of_unconfirmed :
    (p : Pending) (current : Details) (o : Observation) (b : String)
    → o.observed_boundary ≡ some b
    → confirms p current o ≡ false
    → p.boundary ≡ some b
boundary_of_unconfirmed p current o b e h = elim (Option-cases (p.boundary)) [
  | inl f ↦ ground (arith, confirms_elsewhere p current o b e (rw f refl))
  | inr (d, f) ↦ elim (Bool-cases (b == d)) [
    | inl s ↦ f ∙ ap some (sym ((string_eq.beq_iff b d).0 s))
    | inr s ↦ ground (arith, confirms_elsewhere p current o b e (rw f s))
  ]
]

boundary_of_hold :
    (pending : Option Pending) (current : Details) (o : Observation) (b : String)
    → o.observed_boundary ≡ some b
    → get_or (Option.map (λ q. confirms q current o) pending) false ≡ false
    → get_or (Option.map (λ q. or_else q.boundary o.observed_boundary) pending) o.observed_boundary
      ≡ some b
boundary_of_hold none current o b e h = e
boundary_of_hold (some p) current o b e h =
    ground (arith, boundary_of_unconfirmed p current o b e h)

-- A pending reading of another observation is confirmed, so nothing is held.
accepts_elsewhere :
    (previous : Option Details) (current : Details) (g : Guard) (p : Pending) (o : Observation)
    (b c : String)
    → g.pending ≡ some p
    → p.boundary ≡ some b
    → o.observed_boundary ≡ some c
    → ¬ (b ≡ c)
    → (select_checkpoint_occupancy previous current g o).0 ≡ false
unfolding select_checkpoint_occupancy
accepts_elsewhere previous current g p o b c e f h n =
    ground
      (arith, confirms_elsewhere p current o c h (rw f (ground (arith, string_eq.beq_iff c b))))

-- A reading held in one observation is not followed by another held one in the next: whatever the
-- readings are, the first reading of an observation with another boundary is accepted.
pub held_once :
    (previous later : Option Details) (current next : Details) (g : Guard) (o q : Observation)
    (b c : String)
    → o.observed_boundary ≡ some b
    → q.observed_boundary ≡ some c
    → ¬ (b ≡ c)
    → (select_checkpoint_occupancy previous current g o).0 ≡ true
    → (select_checkpoint_occupancy later next
        (select_checkpoint_occupancy previous current g o).1
        q).0
      ≡ false
unfolding IsHeld
held_once previous later current next g o q b c e f n h =
    let k = select_checkpoint_occupancy-IsHeld previous current g o h in
    accepts_elsewhere later next _ _ q b c (ap (λ x. x.pending) (k.1.1.1))
      (boundary_of_hold g.pending current o b e (k.1.1.0)) f n
