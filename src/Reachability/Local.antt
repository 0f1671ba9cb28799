-- ===== src/Reachability/Local.antt =====
-- Which blobs the walk over a checkpoint depends on (src/protocol/blob-reachability.ts).
use mathlib.Core.Option.{some-injective}
use cursor_opencode_provider.Base.{
  ℕ, zero, suc, ◌≡◌, refl, sym, ap, ◌∙◌, subst, inl, inr, Bool, true, false, not, ◌||◌, Option,
  none, some, List, [], ◌∷◌, ◌++◌, arith, nat_beq, if◌then◌else◌, Bool-cases, Option-cases, any,
  filter, ◌==◌, eq_refl, string_eq, nat_eq,
}
use cursor_opencode_provider.BlobStore.{Bytes, Key, hex, same_key_iff, key_eq}
use cursor_opencode_provider.Reachability.{
  BytesField, max_nested_state_depth, Walk, ◌then◌, visit_all, find_field, is_direct, distinct,
  reference_then, finish, reference, with_fields, when_present, visit_image_part, walk_user_message,
  visit_agent_field, visit_shell_field, turn_loop, walk_turn, nested_state, visit_state_field,
  walk_state, collect_reachable_conversation_blob_ids,
}

-- The id is one of those reached.
abbrev pub reaches : List Key → Bytes → Bool
reaches ids id = any (λ k. hex id == k) ids

-- Two lookups agree on the ids reached.
unfoldable pub AgreeOn : (Bytes → Option Bytes) → (Bytes → Option Bytes) → List Key → Type 0
AgreeOn r r' ids = (id : Bytes) → reaches ids id ≡ true → r id ≡ r' id

reaches-append :
    (xs ys : List Key) (id : Bytes) → reaches (xs ++ ys) id ≡ (reaches xs id || reaches ys id)
reaches-append [] ys id = refl
reaches-append (x ∷ xs) ys id = ground (arith, reaches-append xs ys id)

same-reaches :
    (x : Key) (id : Bytes) (ys : List Key)
    → (hex id == x) ≡ false
    → reaches (filter (λ (j : Key). not (x == j)) ys) id ≡ reaches ys id
same-reaches x id [] e = refl
same-reaches x id (y ∷ ys) e = elim (Bool-cases (x == y)) [
  | inl g ↦
      let other : (hex id == y) ≡ false =
        subst (λ (k : Key). (hex id == k) ≡ false) ((same_key_iff x y).0 g) e in
      ground (arith, same-reaches x id ys e)
  | inr g ↦ ground (arith, same-reaches x id ys e)
]

reaches-distinct : (xs : List Key) (id : Bytes) → reaches (distinct xs) id ≡ reaches xs id
reaches-distinct [] id = refl
reaches-distinct (x ∷ xs) id = elim (Bool-cases (hex id == x)) [
  | inl e ↦ ground arith
  | inr e ↦ ground (arith, same-reaches x id (distinct xs) e, reaches-distinct xs id)
]

AgreeOn-left :
    (r r' : Bytes → Option Bytes) (xs ys : List Key) → AgreeOn r r' (xs ++ ys) → AgreeOn r r' xs
unfolding AgreeOn
AgreeOn-left r r' xs ys h id e = h id (ground (arith, reaches-append xs ys id))

AgreeOn-right :
    (r r' : Bytes → Option Bytes) (xs ys : List Key) → AgreeOn r r' (xs ++ ys) → AgreeOn r r' ys
unfolding AgreeOn
AgreeOn-right r r' xs ys h id e = h id (reaches-append xs ys id ∙ rw e (right_true (reaches xs id)))
  where
    right_true : (b : Bool) → b || true ≡ true
    right_true true = refl
    right_true false = refl

module _ (bytes_fields : Bytes → Option (List BytesField)) (r r' : Bytes → Option Bytes) where
  -- A walk under the one lookup that gives ids gives them under each lookup that agrees on them.
  abbrev IsLocal : Walk → Walk → Type 0
  IsLocal w w' = (ids : List Key) → w ≡ some ids → AgreeOn r r' ids → w' ≡ some ids

  IsLocal-then : (a a' b b' : Walk) → IsLocal a a' → IsLocal b b' → IsLocal (a then b) (a' then b')
  IsLocal-then none a' b b' f g ids e h = ground arith
  IsLocal-then (some xs) a' none b' f g ids e h = ground arith
  IsLocal-then (some xs) a' (some ys) b' f g ids e h =
      let whole : xs ++ ys ≡ ids = ground arith in
      let both : AgreeOn r r' (xs ++ ys) = subst (AgreeOn r r') (sym whole) h in
      rw (f xs refl (AgreeOn-left r r' xs ys both), g ys refl (AgreeOn-right r r' xs ys both))
        (ap some whole)

  IsLocal-visit_all :
      {A : Type 0} (v v' : A → Walk)
      → ((x : A) → IsLocal (v x) (v' x))
      → (xs : List A) → IsLocal (visit_all v xs) (visit_all v' xs)
  IsLocal-visit_all v v' f [] ids e h = e
  IsLocal-visit_all v v' f (x ∷ xs) ids e h =
      IsLocal-then (v x) (v' x) (visit_all v xs) (visit_all v' xs) (f x)
        (IsLocal-visit_all v v' f xs) ids e h

  head_reached :
      (b : ℕ) (bs : Bytes) (ids : List Key) (w : Walk)
      → (some (hex (b ∷ bs) ∷ []) then w) ≡ some ids
      → reaches ids (b ∷ bs) ≡ true
  head_reached b bs ids none q = ground (arith, q)
  head_reached b bs ids (some xs) q =
      subst (λ k. reaches k (b ∷ bs) ≡ true) (some-injective (hex (b ∷ bs) ∷ xs) ids q)
        (rw (eq_refl (hex (b ∷ bs))) refl)

  IsLocal-reference_then :
      (id : Bytes) (n n' : Bytes → Walk)
      → ((b : Bytes) → IsLocal (n b) (n' b))
      → IsLocal (reference_then bytes_fields r id n) (reference_then bytes_fields r' id n')
  unfolding AgreeOn
  IsLocal-reference_then [] n n' f ids e h = e
  IsLocal-reference_then (b ∷ bs) n n' f ids e h = elim (Option-cases (r (b ∷ bs))) [
    | inl g ↦ ground (arith, g)
    | inr (value, g) ↦
        let walked : (some (hex (b ∷ bs) ∷ []) then n value) ≡ some ids =
          rw (g, reference_then) at e in
        let found : r' (b ∷ bs) ≡ some value =
          sym (h (b ∷ bs) (head_reached b bs ids (n value) walked)) ∙ g in
        rw (found, reference_then)
          (IsLocal-then (some (hex (b ∷ bs) ∷ [])) (some (hex (b ∷ bs) ∷ [])) (n value) (n' value)
            (λ xs q k. q) (f value) ids walked h)
  ]

  IsLocal-with_fields :
      (m : Bytes) (n n' : List BytesField → Walk)
      → ((fs : List BytesField) → IsLocal (n fs) (n' fs))
      → IsLocal (with_fields bytes_fields r m n) (with_fields bytes_fields r' m n')
  IsLocal-with_fields m n n' f ids e h = elim (Option-cases (bytes_fields m)) [
    | inl g ↦ ground (arith, g)
    | inr (fs, g) ↦ rw (g, with_fields) (f fs ids (rw (g, with_fields) at e) h)
  ]

  IsLocal-when_present :
      (o : Option Bytes) (n n' : Bytes → Walk)
      → ((b : Bytes) → IsLocal (n b) (n' b))
      → IsLocal (when_present bytes_fields r o n) (when_present bytes_fields r' o n')
  IsLocal-when_present none n n' f ids e h = e
  IsLocal-when_present (some b) n n' f ids e h = f b ids e h

  IsLocal-reference :
      (id : Bytes) → IsLocal (reference bytes_fields r id) (reference bytes_fields r' id)
  IsLocal-reference id =
      IsLocal-reference_then id (finish bytes_fields r) (finish bytes_fields r') (λ b ids e h. e)

  -- A choice by a test on the number of a field.
  IsLocal-if :
      (c : Bool) (a a' b b' : Walk)
      → IsLocal a a'
      → IsLocal b b'
      → IsLocal (if c then a else b) (if c then a' else b')
  IsLocal-if true a a' b b' f g = f
  IsLocal-if false a a' b b' f g = g

  IsLocal-nothing : IsLocal (some []) (some [])
  IsLocal-nothing ids e h = e

  IsLocal-image_part :
      (f : BytesField)
      → IsLocal (visit_image_part bytes_fields r f) (visit_image_part bytes_fields r' f)
  IsLocal-image_part f = IsLocal-if (nat_beq f.number 1) _ _ _ _ (IsLocal-reference f.content) (
      IsLocal-if (nat_beq f.number 9) _ _ _ _
        (IsLocal-with_fields f.content _ _
          (λ fs. IsLocal-when_present (find_field 1 fs) _ _ IsLocal-reference))
        IsLocal-nothing)

  IsLocal-user_message :
      (m : Bytes)
      → IsLocal (walk_user_message bytes_fields r m) (walk_user_message bytes_fields r' m)
  unfolding walk_user_message
  IsLocal-user_message m = IsLocal-with_fields m _ _ (λ fs.
      IsLocal-when_present (find_field 3 fs) _ _ (λ context. IsLocal-with_fields context _ _ (
        IsLocal-visit_all _ _ (λ image.
          IsLocal-if (nat_beq image.number 1) _ _ _ _
            (IsLocal-with_fields image.content _ _ (IsLocal-visit_all _ _ IsLocal-image_part))
            IsLocal-nothing))))

  IsLocal-agent_field :
      (f : BytesField)
      → IsLocal (visit_agent_field bytes_fields r f) (visit_agent_field bytes_fields r' f)
  unfolding visit_agent_field
  IsLocal-agent_field f =
      IsLocal-if (nat_beq f.number 1) _ _ _ _
        (IsLocal-reference_then f.content _ _ IsLocal-user_message)
        (IsLocal-if (nat_beq f.number 2) _ _ _ _ (IsLocal-reference f.content) IsLocal-nothing)

  IsLocal-shell_field :
      (f : BytesField)
      → IsLocal (visit_shell_field bytes_fields r f) (visit_shell_field bytes_fields r' f)
  IsLocal-shell_field f =
      IsLocal-if (nat_beq f.number 1 || nat_beq f.number 2) _ _ _ _ (IsLocal-reference f.content)
        IsLocal-nothing

  IsLocal-turn_loop :
      (fs : List BytesField) → IsLocal (turn_loop bytes_fields r fs) (turn_loop bytes_fields r' fs)
  unfolding turn_loop
  IsLocal-turn_loop [] = IsLocal-nothing
  IsLocal-turn_loop (f ∷ fs) =
      IsLocal-if (nat_beq f.number 1) _ _ _ _
        (IsLocal-with_fields f.content _ _ (IsLocal-visit_all _ _ IsLocal-agent_field))
        (IsLocal-if (nat_beq f.number 2) _ _ _ _
          (IsLocal-with_fields f.content _ _ (IsLocal-visit_all _ _ IsLocal-shell_field))
          (IsLocal-turn_loop fs))

  IsLocal-turn : (m : Bytes) → IsLocal (walk_turn bytes_fields r m) (walk_turn bytes_fields r' m)
  unfolding walk_turn
  IsLocal-turn m = IsLocal-with_fields m _ _ IsLocal-turn_loop

  IsLocal-nested :
      (w w' : Bytes → Walk)
      → ((m : Bytes) → IsLocal (w m) (w' m))
      → (persisted : Bytes)
      → IsLocal
          (nested_state bytes_fields r w persisted)
          (nested_state bytes_fields r' w' persisted)
  IsLocal-nested w w' g persisted =
      IsLocal-with_fields persisted _ _ (λ fs. IsLocal-when_present (find_field 1 fs) w w' g)

  IsLocal-state_field :
      (w w' : Bytes → Walk)
      → ((m : Bytes) → IsLocal (w m) (w' m))
      → (f : BytesField)
      → IsLocal (visit_state_field bytes_fields r w f) (visit_state_field bytes_fields r' w' f)
  unfolding visit_state_field
  IsLocal-state_field w w' g f =
      IsLocal-if (nat_beq f.number 8) _ _ _ _ (IsLocal-reference_then f.content _ _ IsLocal-turn) (
        IsLocal-if (is_direct f.number) _ _ _ _ (IsLocal-reference f.content) (
          IsLocal-if (nat_beq f.number 16) _ _ _ _
            (IsLocal-with_fields f.content _ _
              (λ fs. IsLocal-when_present (find_field 2 fs) _ _ (IsLocal-nested w w' g)))
            (IsLocal-if (nat_beq f.number 31) _ _ _ _
              (IsLocal-with_fields f.content _ _ (λ fs.
                IsLocal-when_present (find_field 2 fs) _ _
                  (λ id. IsLocal-reference_then id _ _ (IsLocal-nested w w' g))))
              IsLocal-nothing)))

  IsLocal-walk_state :
      (left : ℕ) (m : Bytes)
      → IsLocal (walk_state bytes_fields r left m) (walk_state bytes_fields r' left m)
  unfolding walk_state
  IsLocal-walk_state zero m ids e h = e
  IsLocal-walk_state (suc left) m ids e h =
      IsLocal-with_fields m _ _
        (IsLocal-visit_all _ _ (IsLocal-state_field _ _ (IsLocal-walk_state left))) ids e h

  pub collect_reachable-IsLocal :
      (checkpoint : Bytes) (ids : List Key)
      → collect_reachable_conversation_blob_ids bytes_fields r checkpoint ≡ some ids
      → AgreeOn r r' ids
      → collect_reachable_conversation_blob_ids bytes_fields r' checkpoint ≡ some ids
  unfolding collect_reachable_conversation_blob_ids AgreeOn
  collect_reachable-IsLocal checkpoint ids e h =
      elim (Option-cases (walk_state bytes_fields r (suc max_nested_state_depth) checkpoint)) [
        | inl g ↦ ground (arith, g)
        | inr (walked, g) ↦
            let whole : distinct walked ≡ ids = some-injective _ _ (rw g at e) in
            rw
              (IsLocal-walk_state (suc max_nested_state_depth) checkpoint walked g (λ id q.
                h id (subst (λ k. reaches k id ≡ true) whole (reaches-distinct walked id ∙ q))))
              (ap some whole)
      ]
