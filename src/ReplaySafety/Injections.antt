-- ===== src/ReplaySafety/Injections.antt =====
-- The Run's own injections, and the echoes of them that Cursor appends.
use cursor_opencode_provider.Base.{
  ◌+◌, ◌-◌, ◌≤◌, ◌≡◌, refl, ◌≢◌, inl, inr, true, ◌&&◌, Option, none, some, List, [], ◌∷◌, ◌++◌,
  arith, ltb, ltb→lt, Bool-cases, Option-cases, length, drop, length-append, length-drop, ◌==◌,
  string_eq, nat_eq,
}
use cursor_opencode_provider.Base.{drop-append_left}
use cursor_opencode_provider.ReplaySafety.{
  Injection, AppendedInjection, AppendedMessage, track_run_injection, appended_of, put_back,
  take_first, take_appended_injection,
}

-- However many injections a Run writes, at most the 64 newest are tracked, and the newest one is among
-- them: it is the last entry.
pub track_run_injection_newest :
    (injections : List Injection) (x : Injection)
    → length injections ≤ 64
    → (older : List Injection) × (track_run_injection injections x ≡ older ++ (x ∷ []))
      × (length older ≤ 63)
unfolding track_run_injection
track_run_injection_newest injections x h =
    let size = length-append injections (x ∷ []) in
    elim (Bool-cases (ltb 64 (length (injections ++ (x ∷ []))))) [
      | inl e ↦
          let extra = length (injections ++ (x ∷ [])) - 64 in
          let over = ltb→lt 64 (length (injections ++ (x ∷ []))) e in
          rw e (
            drop extra injections,
            drop-append_left extra injections (x ∷ []) (omega arith),
            omega (arith, length-drop extra injections),
          )
      | inr e ↦ rw e (injections, refl, ground arith)
    ]

-- What it means that `x` is the match for a message: the first entry with the message's id, which
-- was delivered and has the message's text; `rest` is the list without it.
pub data IsMatch (m : AppendedMessage) : List Injection → Injection → List Injection → Type 0 where
  here :
      {x : Injection} {xs : List Injection}
      → x.message_id ≡ m.message_id
      → x.delivered ≡ true
      → x.text ≡ m.text
      → IsMatch m (x ∷ xs) x xs
  later :
      {y x : Injection} {xs rest : List Injection}
      → y.message_id ≢ m.message_id
      → IsMatch m xs x rest
      → IsMatch m (y ∷ xs) x (y ∷ rest)

abbrev Found : AppendedMessage → List Injection → Option (Injection × List Injection) → Type 0
Found m xs none = Unit {0}
Found m xs (some (x, rest)) = IsMatch m xs x rest

put_back-Found :
    (m : AppendedMessage) (y : Injection) (ys : List Injection)
    (o : Option (Injection × List Injection))
    → y.message_id ≢ m.message_id
    → Found m ys o
    → Found m (y ∷ ys) (put_back y o)
put_back-Found m y ys none ne f = tt
put_back-Found m y ys (some (x, rest)) ne f = later ne f

take_first-Found : (xs : List Injection) (m : AppendedMessage) → Found m xs (take_first xs m)
unfolding take_first
take_first-Found [] m = tt
take_first-Found (y ∷ ys) m = elim (Bool-cases (y.message_id == m.message_id)) [
  | inl e ↦ elim (Bool-cases (y.delivered && y.text == m.text)) [
    | inl g ↦
        rw (e, g)
          (here ((string_eq.beq_iff y.message_id m.message_id).0 e) (ground arith)
            ((string_eq.beq_iff y.text m.text).0 (ground arith)))
    | inr g ↦ rw (e, g) tt
  ]
  | inr e ↦ rw e (
      put_back-Found m y ys (take_first ys m)
        (ground (arith, string_eq.beq_iff y.message_id m.message_id)) (take_first-Found ys m))
]

length-IsMatch :
    {m : AppendedMessage} {xs rest : List Injection} {x : Injection}
    → IsMatch m xs x rest
    → length xs ≡ length rest + 1
length-IsMatch (here a b c) = omega arith
length-IsMatch (later a b) = omega (arith, length-IsMatch b)

-- An echo is only ever taken for an injection of this Run: `takeAppendedInjection` answers with the
-- first tracked entry of the message's id, and only if Cursor had reported it delivered and its
-- text is the message's; that one entry leaves the list, so it can be matched once.
pub take_appended_injection-IsMatch :
    (xs : List Injection) (m : AppendedMessage) (a : AppendedInjection)
    → (take_appended_injection xs (some m)).1 ≡ some a
    → (x : Injection) × (appended_of x ≡ a)
      × IsMatch m xs x (take_appended_injection xs (some m)).0
      × (length xs ≡ length (take_appended_injection xs (some m)).0 + 1)
unfolding take_appended_injection
take_appended_injection-IsMatch xs m a h = elim (Option-cases (take_first xs m)) [
  | inl e ↦ absurd (missing e)
  | inr ((x, rest), e) ↦
      let match : IsMatch m xs x rest = rw e at (take_first-Found xs m) in
      rw (e, take_appended_injection) (x, ground arith, match, length-IsMatch match)
]
  where
    missing : take_first xs m ≡ none → ⊥
    missing e = ground arith
