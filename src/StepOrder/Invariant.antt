-- ===== src/StepOrder/Invariant.antt =====
-- The invariant of the step order: the held execs stand in the model's order, and each one's call
-- is known; no operation of step-order.ts breaks it.
use cursor_opencode_provider.Base.{
  ◌≤◌, ℕ, String, ◌≡◌, refl, ◌∙◌, inl, inr, Bool, Option, none, some, List, [], ◌∷◌, arith, ltb,
  nat_beq, Bool-cases, filter, ◌==◌, string_eq, nat_eq,
}
use mathlib.Core.Option
use cursor_opencode_provider.JsMap.{get, set, modify}
use cursor_opencode_provider.JsMap.Laws.{get-modify, get-set}
use cursor_opencode_provider.StepOrder.{
  running, done, OrderedCall, Calls, HeldExec, with_state, index_of, insert_held, take_held,
  finish_all, releasable, release_loop,
}

-- Every call that is known stays known, at its place in the order.
abbrev pub Extends : Calls → Calls → Type 0
Extends calls calls' =
    (id : String) (c : OrderedCall)
    → get id calls ≡ some c
    → (c' : OrderedCall) × (get id calls' ≡ some c') × (c'.index ≡ c.index)

pub Extends-refl : (calls : Calls) → Extends calls calls
Extends-refl calls id c e = (c, e, refl)

pub Extends-trans : (a b c : Calls) → Extends a b → Extends b c → Extends a c
Extends-trans a b c p q id x e =
    let (y, f, s) = p id x e in let (z, g, t) = q id y f in (z, g, t ∙ s)

pub modify-Extends :
    (calls : Calls) (k : String) (f : OrderedCall → OrderedCall)
    → ((c : OrderedCall) → (f c).index ≡ c.index)
    → Extends calls (modify k f calls)
modify-Extends calls k f same id c e = elim (Bool-cases (k == id)) [
  | inl s ↦ (f c, ground (arith, get-modify k id f calls), same c)
  | inr s ↦ (c, ground (arith, get-modify k id f calls), refl)
]

pub set-Extends :
    (calls : Calls) (k : String) (v : OrderedCall)
    → get k calls ≡ none
    → Extends calls (set k v calls)
set-Extends calls k v new id c e =
    (c, ground (arith, get-set k id v calls, string_eq.beq_iff k id), refl)

pub finish_all-Extends :
    {F P : Type 0} (hs : List (HeldExec F P)) (calls : Calls) → Extends calls (finish_all hs calls)
finish_all-Extends [] calls = Extends-refl calls
finish_all-Extends (h ∷ hs) calls =
    Extends-trans calls (modify h.call_id (with_state done) calls) _
      (modify-Extends calls h.call_id (with_state done) (λ c. refl))
      (finish_all-Extends hs (modify h.call_id (with_state done) calls))

module _ {F P : Type 0} where
  -- The calls of the held execs are known, and their indices do not fall; `low` bounds the first.
  abbrev pub InOrder : Calls → ℕ → List (HeldExec F P) → Type 0
  InOrder calls low [] = Unit {0}
  InOrder calls low (h ∷ hs) =
      (c : OrderedCall) × (get h.call_id calls ≡ some c)
      × (low ≤ c.index)
      × InOrder calls c.index hs

  InOrder-lower :
      (calls : Calls) (low low' : ℕ) (hs : List (HeldExec F P))
      → low' ≤ low
      → InOrder calls low hs
      → InOrder calls low' hs
  InOrder-lower calls low low' [] h w = tt
  InOrder-lower calls low low' (x ∷ xs) h (c, e, b, r) = (c, e, omega arith, r)

  pub InOrder-Extends :
      (calls calls' : Calls) (low : ℕ) (hs : List (HeldExec F P))
      → Extends calls calls'
      → InOrder calls low hs
      → InOrder calls' low hs
  InOrder-Extends calls calls' low [] x w = tt
  InOrder-Extends calls calls' low (h ∷ hs) x (c, e, b, r) =
      let (c', e', s) = x h.call_id c e in
      (c', e', omega arith, rw s (InOrder-Extends calls calls' c.index hs x r))

  pub InOrder-filter :
      (calls : Calls) (p : HeldExec F P → Bool) (low : ℕ) (hs : List (HeldExec F P))
      → InOrder calls low hs
      → InOrder calls low (filter p hs)
  InOrder-filter calls p low [] w = tt
  InOrder-filter calls p low (h ∷ hs) (c, e, b, r) = elim (Bool-cases (p h)) [
    | inl y ↦ rw y (c, e, b, InOrder-filter calls p c.index hs r)
    | inr n ↦ rw n (InOrder-filter calls p low hs (InOrder-lower calls c.index low hs b r))
  ]

  pub insert_held-InOrder :
      (calls : Calls) (low : ℕ) (h : HeldExec F P) (c : OrderedCall) (hs : List (HeldExec F P))
      → get h.call_id calls ≡ some c
      → low ≤ c.index
      → InOrder calls low hs
      → InOrder calls low (insert_held calls c.index h hs)
  unfolding insert_held
  insert_held-InOrder calls low h c [] e b w = (c, e, b, tt)
  insert_held-InOrder calls low h c (x ∷ xs) e b (d, f, l, r) =
      let at : index_of calls x ≡ d.index = rw f in
      elim (Bool-cases (ltb c.index d.index)) [
        | inl y ↦ rw (at, y) (c, e, b, (d, f, ground arith, r))
        | inr n ↦ rw (at, n) (d, f, l, insert_held-InOrder calls d.index h c xs e (ground arith) r)
      ]

  abbrev pub InOrderAfter : Calls → ℕ → Option (HeldExec F P × List (HeldExec F P)) → Type 0
  InOrderAfter calls low none = Unit {0}
  InOrderAfter calls low (some (h, rest)) = InOrder calls low rest

  InOrderAfter-cons :
      (calls : Calls) (low : ℕ) (x : HeldExec F P) (c : OrderedCall)
      (r : Option (HeldExec F P × List (HeldExec F P)))
      → get x.call_id calls ≡ some c
      → low ≤ c.index
      → InOrderAfter calls c.index r
      → InOrderAfter calls low (Option.map (λ p. (p.0, x ∷ p.1)) r)
  InOrderAfter-cons calls low x c none e b w = tt
  InOrderAfter-cons calls low x c (some (h, rest)) e b w = (c, e, b, w)

  pub take_held-InOrder :
      (calls : Calls) (low exec_id : ℕ) (hs : List (HeldExec F P))
      → InOrder calls low hs
      → InOrderAfter calls low (take_held exec_id hs)
  unfolding take_held
  take_held-InOrder calls low exec_id [] w = tt
  take_held-InOrder calls low exec_id (x ∷ xs) (c, e, b, r) =
      elim (Bool-cases (nat_beq x.exec_id exec_id)) [
        | inl y ↦ rw y (InOrder-lower calls c.index low xs b r)
        | inr n ↦ rw n (
            InOrderAfter-cons calls low x c (take_held exec_id xs) e b
              (take_held-InOrder calls c.index exec_id xs r))
      ]

  pub release_loop-InOrder :
      (calls : Calls) (low : ℕ) (hs : List (HeldExec F P))
      → InOrder calls low hs
      → Extends calls (release_loop calls hs).calls
        × InOrder (release_loop calls hs).calls low (release_loop calls hs).held
  unfolding release_loop
  release_loop-InOrder calls low [] w = (Extends-refl calls, tt)
  release_loop-InOrder calls low (h ∷ hs) (c, e, b, r) = elim (Bool-cases (releasable calls h)) [
    | inl y ↦
        let calls' = modify h.call_id (with_state running) calls in
        let step = modify-Extends calls h.call_id (with_state running) (λ c. refl) in
        let (x, i) =
          release_loop-InOrder calls' low hs
            (InOrder-Extends calls calls' low hs step (InOrder-lower calls c.index low hs b r)) in
        rw (y, release_loop) (Extends-trans calls calls' _ step x, i)
    | inr n ↦
        let (x, i) = release_loop-InOrder calls c.index hs r in
        let (c', e', s) = x h.call_id c e in rw (n, release_loop) (x, (c', e', omega arith, rw s i))
  ]
