-- ===== src/TurnProvenance/Shown.antt =====
-- What an entry has of the parts that were shown, against the host's copy of them.
use cursor_opencode_provider.Base.{
  ◌≤◌, ℕ, zero, suc, String, ◌≡◌, refl, sym, ap, ◌∙◌, subst, ◌⊎◌, inl, inr, Bool, true, false, not,
  none, some, List, [], ◌∷◌, ◌++◌, arith, ltb, if◌then◌else◌, ltb→lt, Bool-cases, length, take,
  length-append, length-take, ◌==◌, eq_refl, string_eq, nat_eq,
}
use cursor_opencode_provider.TurnProvenance.{
  Text, EmittedStep, TurnProvenance, Entry, normalize_text, is_empty, content_entry, Part, add_text,
  add_reasoning, add_tool_call, contribution, add_part, collect, same_text, same_step, is_foreign,
  text_delta, reasoning_delta, tool_call, other,
}

-- A call has an id that is not empty.
abbrev pub is_named : Part → Bool
is_named (tool_call id) = not (id == "")
is_named _ = true

module _ {ℓ} {A : Type ℓ} where
  take_all : (n : ℕ) (xs : List A) → length xs ≤ n → take n xs ≡ xs
  take_all zero [] h = refl
  take_all zero (x ∷ xs) h = absurd (omega arith)
  take_all (suc n) [] h = refl
  take_all (suc n) (x ∷ xs) h = ap (λ t. x ∷ t) (take_all n xs (omega arith))

  take-append_full : (n : ℕ) (xs ys : List A) → n ≤ length xs → take n (xs ++ ys) ≡ take n xs
  take-append_full zero xs ys h = refl
  take-append_full (suc n) [] ys h = absurd (omega arith)
  take-append_full (suc n) (x ∷ xs) ys h = ap (λ t. x ∷ t) (take-append_full n xs ys (omega arith))

  append_nothing : (xs : List A) → xs ++ [] ≡ xs
  append_nothing [] = refl
  append_nothing (x ∷ xs) = ap (λ t. x ∷ t) (append_nothing xs)

  -- Text cut at each step is the whole text cut at the end.
  take-take_append :
      (n : ℕ) (xs ys : List A)
      → (if ltb (length (take n xs)) n then take n (take n xs ++ ys) else take n xs)
        ≡ take n (xs ++ ys)
  take-take_append n xs ys = elim (Bool-cases (ltb (length xs) n)) [
    | inl e ↦ rw (take_all n xs (omega (arith, ltb→lt (length xs) n e))) (rw e refl)
    | inr e ↦
        let full : n ≤ length xs = ground (arith, e) in
        let size : ltb (length (take n xs)) n ≡ false = ground (arith, length-take n xs, full) in
        rw (size, take-append_full n xs ys full) refl
  ]

  take-take_snoc :
      (n : ℕ) (xs : List A) (y : A)
      → (if ltb (length (take n xs)) n then take n xs ++ (y ∷ []) else take n xs)
        ≡ take n (xs ++ (y ∷ []))
  take-take_snoc n xs y = elim (Bool-cases (ltb (length xs) n)) [
    | inl e ↦
        let small : length (xs ++ (y ∷ [])) ≤ n =
          omega (arith, length-append xs (y ∷ []), ltb→lt (length xs) n e) in
        rw (take_all n xs (omega (arith, ltb→lt (length xs) n e)))
          (rw e (sym (take_all n (xs ++ (y ∷ [])) small)))
    | inr e ↦
        let full : n ≤ length xs = ground (arith, e) in
        let size : ltb (length (take n xs)) n ≡ false = ground (arith, length-take n xs, full) in
        rw size (sym (take-append_full n xs (y ∷ []) full))
  ]

chosen_ids :
    (b : Bool) (s : EmittedStep) (ids : List String)
    → (if b then record s { tool_call_ids = ids } else s).tool_call_ids
      ≡ (if b then ids else s.tool_call_ids)
chosen_ids true s ids = refl
chosen_ids false s ids = refl

chosen_text :
    (b : Bool) (s : EmittedStep) (ids : List String)
    → (if b then record s { tool_call_ids = ids } else s).text ≡ s.text
chosen_text true s ids = refl
chosen_text false s ids = refl

abbrev pub Matches : EmittedStep → EmittedStep → Type 0
Matches s h = (s.tool_call_ids ≡ take 64 h.tool_call_ids) × (s.text ≡ take 4096 h.text)

-- Nothing of the step was shown so far, or the entry has what was shown, cut.
abbrev pub IsOwn : Entry → EmittedStep → Type 0
IsOwn e h =
    ((e.step_pending ≡ true) × ((h.tool_call_ids ≡ []) × (h.text ≡ [])))
    ⊎ ((e.step_pending ≡ false) × Matches e.step h)

content_entry-Matches :
    (e : Entry) (h : EmittedStep)
    → IsOwn e h
    → ((content_entry e).step_pending ≡ false) × Matches (content_entry e).step h
unfolding content_entry
content_entry-Matches e h (inl (p, (i, t))) = rw (p, i, t) (refl, (refl, refl))
content_entry-Matches e h (inr (p, m)) = rw p (refl, m)

text_part :
    (n reasoned : Text) (e : Entry) (h : EmittedStep)
    → IsOwn e h
    → IsOwn
        (add_part (if is_empty n then none else some (add_text n)) e)
        (record h { text_with_reasoning = reasoned; text = h.text ++ n })
text_part [] reasoned e h own =
    subst (λ t. IsOwn e (record h { text_with_reasoning = reasoned; text = t }))
      (sym (append_nothing h.text)) own
text_part (x ∷ xs) reasoned e h own =
    let (p, (i, t)) = content_entry-Matches e h own in
    inr (p, (i, rw t (take-take_append 4096 h.text (x ∷ xs))))

reasoning_part :
    (n reasoned : Text) (e : Entry) (h : EmittedStep)
    → IsOwn e h
    → IsOwn
        (add_part (if is_empty n then none else some (add_reasoning n)) e)
        (record h { text_with_reasoning = reasoned })
reasoning_part [] reasoned e h own = own
reasoning_part (x ∷ xs) reasoned e h own = inr (content_entry-Matches e h own)

add_tool_call-Matches :
    (id : String) (s h : EmittedStep)
    → Matches s h
    → Matches (add_tool_call id s) (record h { tool_call_ids = h.tool_call_ids ++ (id ∷ []) })
add_tool_call-Matches id s h (i, t) =
    let b = ltb (length s.tool_call_ids) 64 in
    let ids = s.tool_call_ids ++ (id ∷ []) in
    (chosen_ids b s ids ∙ rw i (take-take_snoc 64 h.tool_call_ids id), chosen_text b s ids ∙ t)

call_part :
    (id : String) (e : Entry) (h : EmittedStep)
    → (id == "") ≡ false
    → IsOwn e h
    → IsOwn
        (add_part (if id == "" then none else some (add_tool_call id)) e)
        (record h { tool_call_ids = h.tool_call_ids ++ (id ∷ []) })
call_part id e h named own =
    let (p, (i, t)) = content_entry-Matches e h own in
    rw named (inr (p, add_tool_call-Matches id (content_entry e).step h (i, t)))

pub add_part-IsOwn :
    (p : Part) (e : Entry) (h : EmittedStep)
    → is_named p ≡ true
    → IsOwn e h
    → IsOwn (add_part (contribution p) e) (collect h (p ∷ []))
unfolding contribution collect
add_part-IsOwn (text_delta d) e h n own =
    text_part (normalize_text d) (h.text_with_reasoning ++ normalize_text d) e h own
add_part-IsOwn (reasoning_delta d) e h n own =
    reasoning_part (normalize_text d) (h.text_with_reasoning ++ normalize_text d) e h own
add_part-IsOwn (tool_call id) e h n own = call_part id e h (ground (arith, n)) own
add_part-IsOwn other e h n own = own

pub collect_next :
    (h : EmittedStep) (p : Part) (ps : List Part)
    → collect (collect h (p ∷ [])) ps ≡ collect h (p ∷ ps)
unfolding collect
collect_next h (text_delta d) ps = refl
collect_next h (reasoning_delta d) ps = refl
collect_next h (tool_call id) ps = refl
collect_next h other ps = refl

same_text_refl : (t : Text) → same_text t t ≡ true
unfolding same_text
same_text_refl [] = refl
same_text_refl (x ∷ xs) = ground (arith, same_text_refl xs)

-- The host's step, as far as it decides.
own_step :
    (p : TurnProvenance) (ids : List String) (t reasoned : Text)
    → p.step.tool_call_ids ≡ take 64 ids
    → p.step.text ≡ take 4096 t
    → is_foreign p (record { tool_call_ids = ids; text = t; text_with_reasoning = reasoned })
      ≡ false
unfolding is_foreign same_step
own_step p [] [] reasoned i e = refl
own_step p [] (x ∷ xs) reasoned i e = ground (arith, i, e, same_text_refl (take 4096 (x ∷ xs)))
own_step p (id ∷ ids) t reasoned i e = ground (arith, i, eq_refl id)

pub not_foreign : (e : Entry) (h : EmittedStep) → IsOwn e h → is_foreign e.provenance h ≡ false
unfolding is_foreign
not_foreign e h (inl (p, (i, t))) = rw (i, t) refl
not_foreign e h (inr (p, (i, t))) =
    own_step e.provenance h.tool_call_ids h.text h.text_with_reasoning i t
