-- ===== src/Retry/Found.antt =====
-- What holds of each entry of a session's turns, and the search for a turn's budget once it is renamed.
use cursor_opencode_provider.Base.{
  ℕ, String, ◌≡◌, refl, ap, ◌∙◌, subst, inl, inr, true, false, none, some, [], ◌∷◌, arith, ltb,
  nat_beq, nat_beq_iff, Bool-cases, Option-cases, length, All, ◌==◌, eq_refl, string_eq, nat_eq,
}
use cursor_opencode_provider.JsMap.{Map, get, set, delete, touch, evict}
use cursor_opencode_provider.JsMap.Laws.{get-touch}
use cursor_opencode_provider.JsMap.Bounds.{get-evict-touch, get-evict-none}
use cursor_opencode_provider.Retry.{RetryBudget, Turns, is_key, find_retry, lookup}

module _ {ℓ κ} {V : Type κ} (P : V → Type ℓ) where
  pub All-set :
      (k : String) (v : V) (m : Map String V)
      → P v
      → All (λ (e : String × V). P e.1) m
      → All (λ (e : String × V). P e.1) (set k v m)
  All-set k v [] p h = (p, tt)
  All-set k v ((j, w) ∷ m) p (q, h) = elim (Bool-cases (j == k)) [
    | inl e ↦ rw e (p, h)
    | inr e ↦ rw e (q, All-set k v m p h)
  ]

  pub All-delete :
      (k : String) (m : Map String V)
      → All (λ (e : String × V). P e.1) m
      → All (λ (e : String × V). P e.1) (delete k m)
  All-delete k [] h = tt
  All-delete k ((j, w) ∷ m) (q, h) = elim (Bool-cases (j == k)) [
    | inl e ↦ rw e (All-delete k m h)
    | inr e ↦ rw e (q, All-delete k m h)
  ]

  pub All-evict :
      (n : ℕ) (m : Map String V)
      → All (λ (e : String × V). P e.1) m
      → All (λ (e : String × V). P e.1) (evict n m)
  All-evict n [] h = tt
  All-evict n (x ∷ m) (q, h) = elim (Bool-cases (ltb n (length (x ∷ m)))) [
    | inl e ↦ rw e (All-evict n m h)
    | inr e ↦ rw e (q, h)
  ]

-- The budget `i` bears the key only if it is `id`.
abbrev pub OnlyAt : (ℕ → RetryBudget) → String → ℕ → ℕ → Type 0
OnlyAt heap key id i = is_key key (heap i).host_retry_key ≡ true → i ≡ id

find_retry-OnlyAt :
    (heap : ℕ → RetryBudget) (key k : String) (id : ℕ) (turns : Turns)
    → is_key key (heap id).host_retry_key ≡ true
    → All (λ (e : String × ℕ). OnlyAt heap key id e.1) turns
    → get k turns ≡ some id
    → (k' : String) × (find_retry heap key turns ≡ some (k', id))
unfolding find_retry
find_retry-OnlyAt heap key k id [] b h g = absurd (ground arith)
find_retry-OnlyAt heap key k id ((j, i) ∷ turns) b (p, h) g =
    elim (Bool-cases (is_key key (heap i).host_retry_key)) [
      | inl e ↦ rw e (j, ap (λ x. some (j, x)) (p e))
      | inr e ↦ rw e (find_retry-OnlyAt heap key k id turns b h (ground (arith, b, e, g)))
    ]

-- A heap that renames the budget `id` alone, which no other budget of the turns was named.
renamed-OnlyAt :
    (heap heap' : ℕ → RetryBudget) (key : String) (id : ℕ) (turns : Turns)
    → ((i : ℕ) → nat_beq i id ≡ false → (heap' i).host_retry_key ≡ (heap i).host_retry_key)
    → find_retry heap key turns ≡ none
    → All (λ (e : String × ℕ). OnlyAt heap' key id e.1) turns
unfolding find_retry
renamed-OnlyAt heap heap' key id [] same n = tt
renamed-OnlyAt heap heap' key id ((j, i) ∷ turns) same n = (
  λ b. elim (Bool-cases (nat_beq i id)) [
    | inl e ↦ ground (arith, e, nat_beq_iff i id)
    | inr e ↦ absurd (ground (arith, b, same i e, n))
  ],
  renamed-OnlyAt heap heap' key id turns same (ground (arith, n)),
)

lookup-none :
    (heap : ℕ → RetryBudget) (key : String) (turns : Turns)
    → lookup heap key turns ≡ none
    → (get key turns ≡ none) × (find_retry heap key turns ≡ none)
unfolding lookup
lookup-none heap key turns h = elim (Option-cases (get key turns)) [
  | inl e ↦ (e, ground (arith, h, e))
  | inr (i, e) ↦ absurd (ground (arith, h, e))
]

lookup_of_get :
    (heap : ℕ → RetryBudget) (key : String) (id : ℕ) (turns : Turns)
    → get key turns ≡ some id
    → lookup heap key turns ≡ some (key, id)
unfolding lookup
lookup_of_get heap key id turns h = rw (h, lookup) refl

lookup_of_retry :
    (heap : ℕ → RetryBudget) (key : String) (turns : Turns)
    → get key turns ≡ none
    → lookup heap key turns ≡ find_retry heap key turns
unfolding lookup
lookup_of_retry heap key turns h = rw (h, lookup) refl

-- Once the budget `id` is renamed and its entry written anew, the search for its name gives it.
pub lookup-touch :
    (heap heap' : ℕ → RetryBudget) (key k : String) (id : ℕ) (turns : Turns)
    → (heap' id).host_retry_key ≡ some key
    → ((i : ℕ) → nat_beq i id ≡ false → (heap' i).host_retry_key ≡ (heap i).host_retry_key)
    → lookup heap key turns ≡ none
    → (k' : String) × (lookup heap' key (evict 16 (touch k id turns)) ≡ some (k', id))
lookup-touch heap heap' key k id turns named same unknown =
    let m = evict 16 (touch k id turns) in
    let neither = lookup-none heap key turns unknown in
    let only : All (λ (e : String × ℕ). OnlyAt heap' key id e.1) m =
      All-evict (OnlyAt heap' key id) 16 _ (
        All-set (OnlyAt heap' key id) k id _ (λ _. refl)
          (All-delete (OnlyAt heap' key id) k turns
            (renamed-OnlyAt heap heap' key id turns same neither.1))) in
    elim (Bool-cases (k == key)) [
      | inl e ↦
          let found : get key m ≡ some id =
            subst (λ j. get j m ≡ some id) (ground (arith, e, string_eq.beq_iff k key))
              (get-evict-touch k id 15 turns) in
          (key, lookup_of_get heap' key id m found)
      | inr e ↦
          let missing : get key m ≡ none =
            get-evict-none key 16 (touch k id turns)
              (ground (arith, get-touch k key id turns, e, neither.0)) in
          let found =
            find_retry-OnlyAt heap' key k id m (ground (arith, named, eq_refl key)) only
              (get-evict-touch k id 15 turns) in
          (found.0, lookup_of_retry heap' key m missing ∙ found.1)
    ]
