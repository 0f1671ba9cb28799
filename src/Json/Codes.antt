-- ===== src/Json/Codes.antt =====
-- A text as the numbers of its characters, and back: an encoder with its inverse.
use Prim.Native.Nat.{Ordering, compare}
use Prim.Native.Nat.Ordering.{lt, eq, gt}
use Prim.Native.Char.{Char, char, code, nul, IsLt, IsScalar}
use text.Mathlib.TextEquality.{Char-path}
use cursor_opencode_provider.Base.{ℕ, String, ◌≡◌, refl, List, [], ◌∷◌, string_eq, nat_eq}

abbrev IsLater : Ordering → Ordering → Type 0
IsLater lt o = IsLt o
IsLater eq _ = ⊥
IsLater gt _ = ⊥

-- The clauses of `IsScalar` on its three comparisons.
abbrev InRange : Ordering → Ordering → Ordering → Type 0
InRange lt _ _ = Unit
InRange eq o p = IsLater o p
InRange gt o p = IsLater o p

second_half : (n : ℕ) (o p : Ordering) → (IsLater o p → IsScalar n) → Char
second_half n lt lt f = char n (f tt)
second_half n lt eq f = nul
second_half n lt gt f = nul
second_half n eq p f = nul
second_half n gt p f = nul

by_range : (n : ℕ) (o p q : Ordering) → (InRange o p q → IsScalar n) → Char
unfolding second_half
by_range n lt p q f = char n (f tt)
by_range n eq p q f = second_half n p q f
by_range n gt p q f = second_half n p q f

pub char_of : ℕ → Char
unfolding by_range
char_of n = by_range n (compare n 55296) (compare 57343 n) (compare n 1114112) (λ h. h)

code-second_half :
    (n : ℕ) (o p : Ordering) (f : IsLater o p → IsScalar n)
    → IsLater o p
    → code (second_half n o p f) ≡ n
unfolding second_half
code-second_half n lt lt f h = refl
code-second_half n lt eq f h = elim h [ ]
code-second_half n lt gt f h = elim h [ ]
code-second_half n eq p f h = elim h [ ]
code-second_half n gt p f h = elim h [ ]

code-by_range :
    (n : ℕ) (o p q : Ordering) (f : InRange o p q → IsScalar n)
    → InRange o p q
    → code (by_range n o p q f) ≡ n
unfolding by_range
code-by_range n lt p q f h = refl
code-by_range n eq p q f h = code-second_half n p q f h
code-by_range n gt p q f h = code-second_half n p q f h

char_of-code : (c : Char) → char_of (code c) ≡ c
unfolding char_of
char_of-code (char n p) = Char-path _ _ (code-by_range n _ _ _ (λ h. h) p)

unfoldable pub codes : String → List ℕ
codes String.[] = []
codes (String.◌∷◌ c s) = code c ∷ codes s

unfoldable pub text_of : List ℕ → String
unfolding char_of
text_of [] = String.[]
text_of (n ∷ ns) = String.◌∷◌ (char_of n) (text_of ns)

pub text_of-codes : (s : String) → text_of (codes s) ≡ s
unfolding text_of codes
text_of-codes String.[] = refl
text_of-codes (String.◌∷◌ c s) = rw (char_of-code c, text_of-codes s) refl
