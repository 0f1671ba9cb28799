-- ===== src/Sessions/Cap.antt =====
-- The cap on the open Runs: what a close does, and which Run is chosen (src/session.ts).
use mathlib.Core.Option.{some-injective}
use cursor_opencode_provider.Base.{
  ◌<◌, ℕ, String, ◌≡◌, refl, ap, ◌∙◌, subst, inl, inr, Bool, true, false, not, ◌&&◌, some, List, [],
  ◌∷◌, arith, leb, Bool-cases, Option-cases, length, any, filter, length-filter-le, ◌==◌, eq_refl,
  string_eq, nat_eq,
}
use cursor_opencode_provider.Sessions.State.{
  CloseReason, PendingExec, Session, exec_eq, Manager, Host, put_tombstone, terminal,
  ordinary_cleanup, turn_ended, initial_write_failed,
}
use cursor_opencode_provider.Sessions.{
  drop_pendings, mark_for, closed_session, close_session, close,
}
use cursor_opencode_provider.Sessions.Registry.{is_idle, oldest_idle}
use cursor_opencode_provider.JsMap.{Map, get, set}
use cursor_opencode_provider.JsMap.Laws.{get-set}

objects-drop_pendings :
    (h : Host) (now : ℕ) (why : CloseReason) (id : String) (ps : Map ℕ PendingExec) (m : Manager)
    → ((drop_pendings (mark_for h now why) id ps m).objects ≡ m.objects)
      × ((drop_pendings (mark_for h now why) id ps m).sessions ≡ m.sessions)
unfolding put_tombstone
objects-drop_pendings h now why id [] m = (refl, refl)
objects-drop_pendings h now (terminal r) id ((exec, p) ∷ ps) m =
    objects-drop_pendings h now (terminal r) id ps _
objects-drop_pendings h now ordinary_cleanup id ((exec, p) ∷ ps) m =
    objects-drop_pendings h now ordinary_cleanup id ps _
objects-drop_pendings h now turn_ended id ((exec, p) ∷ ps) m =
    objects-drop_pendings h now turn_ended id ps _
objects-drop_pendings h now initial_write_failed id ((exec, p) ∷ ps) m =
    objects-drop_pendings h now initial_write_failed id ps _

-- A close of an open session: its object and the set.
pub objects-close :
    (h : Host) (now : ℕ) (id : String) (why : CloseReason) (m : Manager) (s : Session)
    → get id m.objects ≡ some s
    → s.closed ≡ false
    → ((close h now id why m).objects ≡ set id (closed_session s) m.objects)
      × ((close h now id why m).sessions ≡ filter (λ (k : String). not (k == id)) m.sessions)
unfolding close
objects-close h now id why m s e c =
    let step : close h now id why m ≡ close_session h now why id s m = simp (e, c, close) refl in
    let (o, ss) : ((drop_pendings (mark_for h now why) id s.pendings m).objects ≡ m.objects)
        × ((drop_pendings (mark_for h now why) id s.pendings m).sessions ≡ m.sessions) =
      objects-drop_pendings h now why id s.pendings m in
    (
      ap (λ (t : Manager). t.objects) step ∙ ap (λ t. set id (closed_session s) t) o,
      ap (λ (t : Manager). t.sessions) step ∙ ap (λ t. filter (λ (k : String). not (k == id)) t) ss,
    )

abbrev pub in_set : String → List String → Bool
in_set id ids = any (λ (k : String). k == id) ids

-- An id of the set names an open session that knows its id.
pub record IsOpen (m : Manager) (id : String) : Type 0 where
  pub session : Session
  pub found : get id m.objects ≡ some session
  pub named : session.session_id ≡ id
  pub is_open : session.closed ≡ false

abbrev pub IsRegistry : Manager → Type 0
IsRegistry m = (id : String) → in_set id m.sessions ≡ true → IsOpen m id

in_set-filter :
    (x id : String) (ids : List String)
    → in_set x (filter (λ (k : String). not (k == id)) ids) ≡ true
    → (in_set x ids ≡ true) × ((x == id) ≡ false)
in_set-filter x id [] e = ground arith
in_set-filter x id (k ∷ ids) e = elim (Bool-cases (k == id)) [
  | inl b ↦
      let (f, g) : (in_set x ids ≡ true) × ((x == id) ≡ false) =
        in_set-filter x id ids (rw b at e) in
      (ground arith, g)
  | inr b ↦ elim (Bool-cases (k == x)) [
    | inl c ↦
        (ground arith, subst (λ (t : String). (t == id) ≡ false) ((string_eq.beq_iff k x).0 c) b)
    | inr c ↦
        let (f, g) : (in_set x ids ≡ true) × ((x == id) ≡ false) =
          in_set-filter x id ids (ground arith) in
        (ground arith, g)
  ]
]

pub length-filter-lt :
    (id : String) (ids : List String)
    → in_set id ids ≡ true
    → length (filter (λ (k : String). not (k == id)) ids) < length ids
length-filter-lt id [] e = ground arith
length-filter-lt id (k ∷ ids) e = elim (Bool-cases (k == id)) [
  | inl b ↦ ground (arith, length-filter-le (λ (j : String). not (j == id)) ids)
  | inr b ↦ ground (arith, length-filter-lt id ids)
]

pub unequal : (a b : String) → (a == b) ≡ false → (b == a) ≡ false
unequal a b e = ground (arith, string_eq.beq_iff a b, string_eq.beq_iff b a)

pub IsRegistry-close :
    (h : Host) (now : ℕ) (id : String) (why : CloseReason) (m : Manager)
    → IsOpen m id
    → IsRegistry m
    → IsRegistry (close h now id why m)
IsRegistry-close h now id why m o r x e =
    let (objects, ids) : ((close h now id why m).objects
          ≡ set id (closed_session o.session) m.objects)
        × ((close h now id why m).sessions ≡ filter (λ (k : String). not (k == id)) m.sessions) =
      objects-close h now id why m o.session o.found o.is_open in
    let (inside, other) : (in_set x m.sessions ≡ true) × ((x == id) ≡ false) =
      in_set-filter x id m.sessions (subst (λ t. in_set x t ≡ true) ids e) in
    let before : IsOpen m x = r x inside in
    record {
      session = before.session;
      found =
          ap (get x) objects
          ∙ get-set id x (closed_session o.session) m.objects
          ∙ rw (unequal x id other) before.found;
      named = before.named;
      is_open = before.is_open;
    }

-- A session that the scan may choose.
pub record IsChosen (just : String) (objects : Map String Session) (ids : List String) (s : Session)
    : Type 0 where
  pub id : String
  pub inside : in_set id ids ≡ true
  pub found : get id objects ≡ some s
  pub other : (id == just) ≡ false
  pub idle : is_idle s ≡ true

IsChosen-later :
    (just id : String) (objects : Map String Session) (ids : List String) (s : Session)
    → IsChosen just objects ids s
    → IsChosen just objects (id ∷ ids) s
IsChosen-later just id objects ids s c = record {
  id = c.id;
  inside = ground (arith, c.inside);
  found = c.found;
  other = c.other;
  idle = c.idle;
}

pub oldest_idle-IsChosen :
    (just : String) (objects : Map String Session) (ids : List String) (s : Session)
    → oldest_idle just objects ids ≡ some s
    → IsChosen just objects ids s
unfolding oldest_idle
oldest_idle-IsChosen just objects [] s e = cc
oldest_idle-IsChosen just objects (id ∷ ids) s e = elim (Option-cases (get id objects)) [
  | inl f ↦
      IsChosen-later just id objects ids s
        (oldest_idle-IsChosen just objects ids s (rw (f, oldest_idle) at e))
  | inr (t, f) ↦ elim (Bool-cases (not (id == just) && is_idle t)) [
    | inr b ↦
        IsChosen-later just id objects ids s
          (oldest_idle-IsChosen just objects ids s (rw (f, b, oldest_idle) at e))
    | inl b ↦
        let chosen : IsChosen just objects (id ∷ ids) t = record {
          id = id;
          inside = ground (arith, eq_refl id);
          found = f;
          other = ground (arith, b);
          idle = ground (arith, b);
        } in
        elim (Option-cases (oldest_idle just objects ids)) [
          | inl g ↦
              subst (IsChosen just objects (id ∷ ids))
                (some-injective t s (rw (f, b, g, oldest_idle) at e)) chosen
          | inr (u, g) ↦ elim (Bool-cases (leb t.created_at u.created_at)) [
            | inl c ↦
                subst (IsChosen just objects (id ∷ ids))
                  (some-injective t s (rw (f, b, g, c, oldest_idle) at e)) chosen
            | inr c ↦
                let same : u ≡ s = some-injective u s (rw (f, b, g, c, oldest_idle) at e) in
                IsChosen-later just id objects ids s
                  (oldest_idle-IsChosen just objects ids s (g ∙ ap some same))
          ]
        ]
  ]
]
