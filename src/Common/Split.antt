-- ===== src/Common/Split.antt =====
-- `split` and `join` on one separator, numbers in decimal, and the bounds of a regular expression's
-- `{first,last}`.
use Prim.Native.Nat.{ℕ, zero, suc, ◌+◌, ◌/◌, ◌%◌}
use mathlib.Core.Path.{◌≡◌, refl}
use mathlib.Core.Bool.{Bool, true, false, ◌&&◌}
use mathlib.Core.List.{List, [], ◌∷◌, ◌++◌}
use native.Mathlib.Omega.{arith}
use mathlib.Core.Logic.{inl, inr}
use eventory.Common.Tests.{Bool-cases, nat_beq, ltb, leb, if◌then◌else◌}
use eventory.Common.Lists.{All, All-append, length}
use eventory.Common.Texts.{Text}

push : ℕ → List Text → List Text
push c [] = (c ∷ []) ∷ []
push c (w ∷ ws) = (c ∷ w) ∷ ws

-- `s.split(sep)`, for a separator of one code unit
unfoldable pub split : ℕ → Text → List Text
unfolding push
split sep [] = [] ∷ []
split sep (c ∷ s) = let rest = split sep s in if nat_beq c sep then [] ∷ rest else push c rest

-- `words.join(sep)`
unfoldable pub join : ℕ → List Text → Text
join sep [] = []
join sep (w ∷ []) = w
join sep (w ∷ v ∷ ws) = w ++ sep ∷ join sep (v ∷ ws)

abbrev Free : ℕ → Text → Type 0
Free sep = All (λ c. nat_beq c sep ≡ false)

split-last : (sep : ℕ) (w : Text) → Free sep w → split sep w ≡ w ∷ []
unfolding split
split-last sep [] h = refl
split-last sep (c ∷ w) h = rw (h.0, split-last sep w h.1)

split-word : (sep : ℕ) (w s : Text) → Free sep w → split sep (w ++ sep ∷ s) ≡ w ∷ split sep s
unfolding split
split-word sep [] s h = ground arith
split-word sep (c ∷ w) s h = rw (h.0, split-word sep w s h.1)

-- Words without the separator come back from the text they are joined to.
pub split-join :
    (sep : ℕ) (w : Text) (ws : List Text)
    → All (λ v. All (λ c. nat_beq c sep ≡ false) v) (w ∷ ws)
    → split sep (join sep (w ∷ ws)) ≡ w ∷ ws
unfolding join
split-join sep w [] h = split-last sep w h.0
split-join sep w (v ∷ ws) h = rw (split-word sep w _ h.0, split-join sep v ws h.1)

abbrev pub is_digit : ℕ → Bool
is_digit c = leb b'0' c && leb c b'9'

decimal_on : ℕ → ℕ → Text
decimal_on zero n = []
decimal_on (suc fuel) n =
    let front = decimal_on fuel (n / 10) in
    if ltb n 10 then (b'0' + n) ∷ [] else front ++ (b'0' + n % 10) ∷ []

-- `String(n)`
unfoldable pub decimal : ℕ → Text
unfolding decimal_on
decimal n = decimal_on (suc n) n

All-decimal_on : (fuel n : ℕ) → All (λ c. is_digit c ≡ true) (decimal_on fuel n)
unfolding decimal_on
All-decimal_on zero n = tt
All-decimal_on (suc fuel) n = elim (Bool-cases (ltb n 10)) [
  | inl small ↦ rw small (ground arith, tt)
  | inr large ↦ rw large (All-append _ _ _ (All-decimal_on fuel (n / 10)) (ground arith, tt))
]

pub All-decimal : (n : ℕ) → All (λ c. is_digit c ≡ true) (decimal n)
unfolding decimal
All-decimal n = All-decimal_on (suc n) n

-- A length from `first` to `last`.
abbrev pub has_length : ℕ → ℕ → Text → Bool
has_length first last s = leb first (length s) && leb (length s) last
