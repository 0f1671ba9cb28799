-- ===== src/Sessions/Ends.antt =====
-- What the end of a stream and the disposal may do to the results that are waited for.
use cursor_opencode_provider.Base.{
  ℕ, String, ◌≡◌, refl, sym, ◌∙◌, subst, inl, inr, false, not, ◌&&◌, ◌||◌, some, List, [], ◌∷◌,
  Bool-cases, Option-cases, is_some, string_eq, nat_eq,
}
use cursor_opencode_provider.Sessions.State.{
  Session, exec_eq, Manager, Host, put_session, process_disposed, terminal,
}
use cursor_opencode_provider.Sessions.{close}
use cursor_opencode_provider.Sessions.Taking.{
  wants, IsTaking, IsTaking-trans, IsTaking-put_session, IsTaking-close,
}
use cursor_opencode_provider.Sessions.Pump.{
  holds_only_answered_work, is_clean_close, hold_after_clean_close, TerminalEvent, event_reason,
  is_local, on_stream_terminal, close_each, dispose,
}
use cursor_opencode_provider.JsMap.{get}

-- A session whose results stay as they are.
IsTaking-same :
    (id : String) (s t : Session) (m : Manager)
    → get id m.objects ≡ some s
    → ((exec : ℕ) → wants exec (some t) ≡ wants exec (some s))
    → IsTaking m (put_session id t m)
IsTaking-same id s t m e f =
    IsTaking-put_session id t m (λ exec w. f exec ∙ subst (λ o. wants exec o ≡ false) e w)

IsTaking-close_each :
    (h : Host) (now : ℕ) (ids : List String) (m : Manager) → IsTaking m (close_each h now ids m)
unfolding close_each
IsTaking-close_each h now [] m = (λ id exec e. e, λ id exec e. e)
IsTaking-close_each h now (id ∷ ids) m =
    let next : Manager = close h now id (terminal process_disposed) m in
    IsTaking-trans m next (close_each h now ids next)
      (IsTaking-close h now id (terminal process_disposed) m) (IsTaking-close_each h now ids next)

pub IsTaking-dispose : (h : Host) (now : ℕ) (m : Manager) → IsTaking m (dispose h now m)
unfolding dispose
IsTaking-dispose h now m =
    let ended : Manager = close_each h now m.sessions m in
    IsTaking-trans m ended (dispose h now m) (IsTaking-close_each h now m.sessions m)
      (λ id exec e. refl, λ id exec e. e)

pub IsTaking-on_stream_terminal :
    (h : Host) (now : ℕ) (id : String) (event : TerminalEvent) (m : Manager)
    → IsTaking m (on_stream_terminal h now id event m)
unfolding on_stream_terminal
IsTaking-on_stream_terminal h now id event m = elim (Option-cases (get id m.objects)) [
  | inl e ↦ rw (e, on_stream_terminal) (λ i exec q. q, λ i exec q. q)
  | inr (s, e) ↦ elim (Bool-cases (is_local event || s.closed)) [
    | inl a ↦ to m (simp (e, a, on_stream_terminal) refl) (λ i exec q. q, λ i exec q. q)
    | inr a ↦
        elim (Bool-cases (
          is_clean_close (some (event_reason event))
          && (not (is_some s.pump_owner) && holds_only_answered_work s))) [
            | inl b ↦
                to (put_session id (hold_after_clean_close s) m)
                  (simp (e, a, b, on_stream_terminal) refl)
                  (IsTaking-same id s (hold_after_clean_close s) m e (λ exec. refl))
            | inr b ↦ elim (Bool-cases (is_some s.pump_owner || s.is_host_interrupted)) [
              | inl c ↦
                  let t : Session = record s {
                    deferred_terminal_reason = some (event_reason event);
                  } in
                  to (put_session id t m) (simp (e, a, b, c, on_stream_terminal) refl)
                    (IsTaking-same id s t m e (λ exec. refl))
              | inr c ↦
                  to (close h now id (terminal (event_reason event)) m)
                    (simp (e, a, b, c, on_stream_terminal) refl)
                    (IsTaking-close h now id (terminal (event_reason event)) m)
            ]
          ]
  ]
]
  where
    to :
        (t : Manager)
        → on_stream_terminal h now id event m ≡ t
        → IsTaking m t
        → IsTaking m (on_stream_terminal h now id event m)
    to t e f = subst (λ (x : Manager). IsTaking m x) (sym e) f
