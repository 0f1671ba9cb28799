-- ===== src/Sessions/Capped.antt =====
-- What a registration leaves of the other Runs.
use mathlib.Core.Option.{some-injective}
use cursor_opencode_provider.Base.{
  ◌≤◌, ℕ, zero, suc, String, ◌≡◌, refl, sym, ap, ◌∙◌, subst, ◌⊎◌, inl, inr, Bool, true, false, not,
  ◌&&◌, ◌||◌, none, some, List, [], ◌∷◌, arith, ltb, if◌then◌else◌, Bool-cases, Option-cases,
  length, any, all, filter, ◌==◌, string_eq, nat_eq,
}
use cursor_opencode_provider.Sessions.State.{
  PendingExec, Session, exec_eq, Manager, Host, is_pumping, open_session_cap_exceeded, terminal,
}
use cursor_opencode_provider.Sessions.{closed_session, close}
use cursor_opencode_provider.Sessions.Registry.{
  is_idle, oldest_idle, enforce_cap_loop, enforce_open_session_cap,
}
use cursor_opencode_provider.Sessions.Cap.{
  objects-close, in_set, IsOpen, IsRegistry, length-filter-lt, IsRegistry-close, IsChosen,
  oldest_idle-IsChosen,
}
use cursor_opencode_provider.JsMap.{Map, get}
use cursor_opencode_provider.JsMap.Laws.{get-set}

-- It pumps, or the host owes it a result that Cursor has not withdrawn.
abbrev pub is_waiting : Session → Bool
is_waiting s = is_pumping s || any (λ (entry : ℕ × PendingExec). not entry.1.aborted) s.pendings

all-not-any :
    (m : Map ℕ PendingExec)
    → all (λ (entry : ℕ × PendingExec). entry.1.aborted) m
      ≡ not (any (λ (entry : ℕ × PendingExec). not entry.1.aborted) m)
all-not-any [] = refl
all-not-any ((id, p) ∷ m) = ground (arith, all-not-any m)

idle_not_waiting : (s : Session) → is_idle s ≡ not (is_waiting s)
idle_not_waiting s = ground (arith, all-not-any s.pendings)

-- The Run that was registered just now, or one that pumps or waits for a result.
abbrev pub is_busy : String → Map String Session → String → Bool
is_busy just objects id =
    id == just || elim (get id objects) [ none ↦ true | some s ↦ is_waiting s ]

none-is_busy :
    (just : String) (objects : Map String Session) (ids : List String)
    → oldest_idle just objects ids ≡ none
    → all (is_busy just objects) ids ≡ true
unfolding oldest_idle
none-is_busy just objects [] e = refl
none-is_busy just objects (id ∷ ids) e = elim (Option-cases (get id objects)) [
  | inl f ↦ ground (arith, f, none-is_busy just objects ids (rw (f, oldest_idle) at e))
  | inr (t, f) ↦ elim (Bool-cases (not (id == just) && is_idle t)) [
    | inl b ↦ cc
    | inr b ↦ ground (
      arith,
      f,
      b,
      idle_not_waiting t,
      none-is_busy just objects ids (rw (f, b, oldest_idle) at e),
    )
  ]
]

-- What the cap makes of a registry.
pub record IsCapped (most : ℕ) (just : String) (m m' : Manager) : Type 0 where
  pub fits : (length m'.sessions ≤ most) ⊎ (all (is_busy just m'.objects) m'.sessions ≡ true)
  pub keeps :
      (id : String) (s : Session)
      → get id m.objects ≡ some s
      → (id == just || is_waiting s) ≡ true
      → get id m'.objects ≡ some s

-- The chosen Run under its own id.
record IsChosenOpen (just : String) (m : Manager) (s : Session) : Type 0 where
  as_open : IsOpen m s.session_id
  at : get s.session_id m.objects ≡ some s
  other : (s.session_id == just) ≡ false
  inside : in_set s.session_id m.sessions ≡ true

chosen-IsOpen :
    (just : String) (m : Manager) (s : Session)
    → IsRegistry m
    → IsChosen just m.objects m.sessions s
    → IsChosenOpen just m s
chosen-IsOpen just m s r c =
    let o : IsOpen m c.id = r c.id c.inside in
    let same : o.session ≡ s = some-injective o.session s (sym o.found ∙ c.found) in
    let named : c.id ≡ s.session_id = sym o.named ∙ ap (λ (t : Session). t.session_id) same in
    record {
      as_open = subst (IsOpen m) named o;
      at = subst (λ k. get k m.objects ≡ some s) named c.found;
      other = subst (λ (k : String). (k == just) ≡ false) named c.other;
      inside = subst (λ (k : String). in_set k m.sessions ≡ true) named c.inside;
    }

-- The close of the chosen Run leaves the others, and none of those that are busy.
chosen-keeps :
    (h : Host) (now : ℕ) (just : String) (m : Manager) (s : Session)
    → IsRegistry m
    → (c : IsChosen just m.objects m.sessions s) → (id : String) (t : Session)
    → get id m.objects ≡ some t
    → (id == just || is_waiting t) ≡ true
    → get id (close h now s.session_id (terminal open_session_cap_exceeded) m).objects ≡ some t
chosen-keeps h now just m s r c id t e q =
    let chosen : IsChosenOpen just m s = chosen-IsOpen just m s r c in
    let o : IsOpen m s.session_id = chosen.as_open in
    ap (get id)
      (objects-close h now s.session_id (terminal open_session_cap_exceeded) m o.session o.found
        o.is_open).0
    ∙ get-set s.session_id id (closed_session o.session) m.objects
    ∙ elim (Bool-cases (s.session_id == id)) [
      | inr b ↦ rw b e
      | inl b ↦
          let same : s.session_id ≡ id = (string_eq.beq_iff s.session_id id).0 b in
          let entry : t ≡ s =
            some-injective t s (sym e ∙ subst (λ k. get k m.objects ≡ some s) same chosen.at) in
          let new : (id == just) ≡ false =
            subst (λ (k : String). (k == just) ≡ false) same chosen.other in
          let idle : is_waiting t ≡ false =
            ground (arith, idle_not_waiting t, ap is_idle entry ∙ c.idle) in
          contradiction (sym q ∙ rw (new, idle) refl)
    ]
  where
    contradiction :
        true ≡ false
        → (if s.session_id == id
            then some (closed_session (chosen-IsOpen just m s r c).as_open.session)
            else get id m.objects)
          ≡ some t
    contradiction f = cc

enforce_cap_loop-IsCapped :
    (fuel : ℕ) (h : Host) (now : ℕ) (just : String) (m : Manager)
    → length m.sessions ≤ fuel
    → IsRegistry m
    → IsCapped h.max_open_sessions just m (enforce_cap_loop fuel h now just m)
unfolding enforce_cap_loop
enforce_cap_loop-IsCapped zero h now just m l r = record {
  fits = inl (omega arith);
  keeps = λ id s e b. e;
}
enforce_cap_loop-IsCapped (suc fuel) h now just m l r =
    elim (Bool-cases (ltb h.max_open_sessions (length m.sessions))) [
      | inr b ↦
          let step : enforce_cap_loop (suc fuel) h now just m ≡ m = rw (b, enforce_cap_loop) refl in
          subst (λ (t : Manager). IsCapped h.max_open_sessions just m t) (sym step)
            (record { fits = inl (ground (arith, b)); keeps = λ id s e q. e })
      | inl b ↦ elim (Option-cases (oldest_idle just m.objects m.sessions)) [
        | inl o ↦
            let step : enforce_cap_loop (suc fuel) h now just m ≡ m =
              rw (b, o, enforce_cap_loop) refl in
            subst (λ (t : Manager). IsCapped h.max_open_sessions just m t) (sym step)
              (record {
                fits = inr (none-is_busy just m.objects m.sessions o);
                keeps = λ id s e q. e;
              })
        | inr (s, o) ↦
            let next : Manager = close h now s.session_id (terminal open_session_cap_exceeded) m in
            let step : enforce_cap_loop (suc fuel) h now just m
                ≡ enforce_cap_loop fuel h now just next =
              rw (b, o, enforce_cap_loop) refl in
            let c : IsChosen just m.objects m.sessions s =
              oldest_idle-IsChosen just m.objects m.sessions s o in
            let chosen : IsChosenOpen just m s = chosen-IsOpen just m s r c in
            let p : IsOpen m s.session_id = chosen.as_open in
            let ids : next.sessions ≡ filter (λ (k : String). not (k == s.session_id)) m.sessions =
              (objects-close h now s.session_id (terminal open_session_cap_exceeded) m p.session
                p.found p.is_open).1 in
            let rest : IsCapped h.max_open_sessions just next
                (enforce_cap_loop fuel h now just next) =
              enforce_cap_loop-IsCapped fuel h now just next
                (omega
                  (arith, ap length ids, length-filter-lt s.session_id m.sessions chosen.inside))
                (IsRegistry-close h now s.session_id (terminal open_session_cap_exceeded) m p r) in
            subst (λ (t : Manager). IsCapped h.max_open_sessions just m t) (sym step)
              (record {
                fits = rest.fits;
                keeps = λ id t e q. rest.keeps id t (chosen-keeps h now just m s r c id t e q) q;
              })
      ]
    ]

-- For a registry whose set names open Runs: after the cap at most the allowed number is open, or each of them is
-- the new one, pumps, or waits for a result that Cursor has not withdrawn. The new Run and those that pump or wait
-- keep their state.
pub enforce_open_session_cap-IsCapped :
    (h : Host) (now : ℕ) (just : String) (m : Manager)
    → IsRegistry m
    → IsCapped h.max_open_sessions just m (enforce_open_session_cap h now just m)
unfolding enforce_open_session_cap
enforce_open_session_cap-IsCapped h now just m r =
    enforce_cap_loop-IsCapped (length m.sessions) h now just m (omega arith) r
