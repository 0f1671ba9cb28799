-- ===== src/Sessions/Claims.antt =====
-- Claims of results by several callers, with the ends of Runs between them.
use cursor_opencode_provider.Base.{
  ◌+◌, ◌≤◌, ℕ, String, ◌≡◌, refl, sym, subst, ◌⊎◌, inl, inr, false, ◌&&◌, List, [], ◌∷◌, arith,
  if◌then◌else◌, Bool-cases, string_eq, nat_eq,
}
use cursor_opencode_provider.Sessions.State.{
  CloseReason, ExecKey, same_exec, same_exec_iff, exec_eq, Manager, Host,
}
use cursor_opencode_provider.Sessions.{close, classify, claim}
use cursor_opencode_provider.Sessions.Taking.{
  NotOffered, IsTaking, NotOffered-later, IsTaking-close, IsTaking-classify,
}
use cursor_opencode_provider.Sessions.Pump.{TerminalEvent, on_stream_terminal, dispose}
use cursor_opencode_provider.Sessions.Ends.{IsTaking-dispose, IsTaking-on_stream_terminal}
use cursor_opencode_provider.Sessions.Once.{
  is_claim, claim-refused, NotOffered-refused, IsTaking-claim, claim-NotOffered,
}

-- A step of one of the callers, with its time.
pub data Step : Type 0 where
  claims : ℕ → String → ℕ → Step
  looks : ℕ → String → ℕ → Step
  closes : ℕ → String → CloseReason → Step
  stream_ends : ℕ → String → TerminalEvent → Step
  disposes : ℕ → Step

unfoldable pub take_step : Host → Step → Manager → Manager
unfolding claim classify close on_stream_terminal dispose
take_step h (claims at id exec) m = (claim h at id exec m).0
take_step h (looks at id exec) m = (classify h at id exec m).0
take_step h (closes at id why) m = close h at id why m
take_step h (stream_ends at id event) m = on_stream_terminal h at id event m
take_step h (disposes at) m = dispose h at m

-- One if the step is a claim of this result that succeeds.
unfoldable pub won : Host → String → ℕ → Step → Manager → ℕ
unfolding claim
won h id exec (claims at id' exec') m =
    if same_exec (id', exec') (id, exec) && is_claim (claim h at id' exec' m).1 then 1 else 0
won h id exec (looks at id' exec') m = 0
won h id exec (closes at id' why) m = 0
won h id exec (stream_ends at id' event) m = 0
won h id exec (disposes at) m = 0

-- How many of the steps claim this result with success.
unfoldable pub claims_won : Host → String → ℕ → List Step → Manager → ℕ
unfolding take_step won
claims_won h id exec [] m = 0
claims_won h id exec (s ∷ ss) m = won h id exec s m + claims_won h id exec ss (take_step h s m)

IsTaking-take_step : (h : Host) (s : Step) (m : Manager) → IsTaking m (take_step h s m)
unfolding take_step
IsTaking-take_step h (claims at id exec) m = IsTaking-claim h at id exec m
IsTaking-take_step h (looks at id exec) m = IsTaking-classify h at id exec m
IsTaking-take_step h (closes at id why) m = IsTaking-close h at id why m
IsTaking-take_step h (stream_ends at id event) m = IsTaking-on_stream_terminal h at id event m
IsTaking-take_step h (disposes at) m = IsTaking-dispose h at m

won_none :
    (h : Host) (id : String) (exec : ℕ) (s : Step) (m : Manager)
    → NotOffered id exec m
    → won h id exec s m ≡ 0
unfolding won
won_none h id exec (claims at i e) m n = elim (Bool-cases (same_exec (i, e) (id, exec))) [
  | inl b ↦
      let same : (i, e) ≡ (id, exec) = (same_exec_iff (i, e) (id, exec)).0 b in
      let lost : is_claim (claim h at id exec m).1 ≡ false =
        (claim-refused h at id exec m (NotOffered-refused h at id exec m n)).1 in
      let here : is_claim (claim h at i e m).1 ≡ false =
        subst (λ (k : ExecKey). is_claim (claim h at k.0 k.1 m).1 ≡ false) (sym same) lost in
      rw (b, here) refl
  | inr b ↦ rw (b, won) refl
]
won_none h id exec (looks at i e) m n = refl
won_none h id exec (closes at i why) m n = refl
won_none h id exec (stream_ends at i event) m n = refl
won_none h id exec (disposes at) m n = refl

claims_won_none :
    (h : Host) (id : String) (exec : ℕ) (ss : List Step) (m : Manager)
    → NotOffered id exec m
    → claims_won h id exec ss m ≡ 0
unfolding claims_won
claims_won_none h id exec [] m n = refl
claims_won_none h id exec (s ∷ ss) m n =
    let later : NotOffered id exec (take_step h s m) =
      NotOffered-later id exec m (take_step h s m) (IsTaking-take_step h s m) n in
    omega (arith, won_none h id exec s m n, claims_won_none h id exec ss (take_step h s m) later)

won-NotOffered :
    (h : Host) (id : String) (exec : ℕ) (s : Step) (m : Manager)
    → (won h id exec s m ≡ 0) ⊎ ((won h id exec s m ≡ 1) × NotOffered id exec (take_step h s m))
unfolding won take_step
won-NotOffered h id exec (claims at i e) m = elim (Bool-cases (same_exec (i, e) (id, exec))) [
  | inl b ↦ elim (Bool-cases (is_claim (claim h at i e m).1)) [
    | inl g ↦
        let same : (i, e) ≡ (id, exec) = (same_exec_iff (i, e) (id, exec)).0 b in
        inr (
          rw (b, g) refl,
          subst (λ (k : ExecKey). NotOffered k.0 k.1 (claim h at i e m).0) same
              (claim-NotOffered h at i e m g),
        )
    | inr g ↦ inl (rw (b, g) refl)
  ]
  | inr b ↦ inl (rw b refl)
]
won-NotOffered h id exec (looks at i e) m = inl refl
won-NotOffered h id exec (closes at i why) m = inl refl
won-NotOffered h id exec (stream_ends at i event) m = inl refl
won-NotOffered h id exec (disposes at) m = inl refl

-- Whatever the registry holds, over every sequence of claims, looks, closes, ends of streams and disposals, of any
-- Runs and at any times, a pending result is claimed with success at most once.
pub claims_won-le-one :
    (h : Host) (id : String) (exec : ℕ) (ss : List Step) (m : Manager)
    → claims_won h id exec ss m ≤ 1
unfolding claims_won
claims_won-le-one h id exec [] m = omega arith
claims_won-le-one h id exec (s ∷ ss) m = elim (won-NotOffered h id exec s m) [
  | inl e ↦ omega (arith, claims_won-le-one h id exec ss (take_step h s m))
  | inr (e, n) ↦ omega (arith, claims_won_none h id exec ss (take_step h s m) n)
]
