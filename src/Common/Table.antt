-- ===== src/Common/Table.antt =====
-- A table of the database as the list of its rows, read and written by conditions on a row.
use Prim.Native.Nat.{ℕ, suc, ◌+◌, ◌≤◌}
use mathlib.Core.Path.{◌≡◌, refl, sym, ap, subst}
use mathlib.Core.Logic.{inl, inr}
use mathlib.Core.Bool.{Bool, true, false}
use mathlib.Core.Option
use mathlib.Core.Option.{Option, none, some}
use mathlib.Core.List.{List, [], ◌∷◌}
use native.Mathlib.Omega.{arith}
use eventory.Common.Tests.{if◌then◌else◌, Bool-cases}
use eventory.Common.Lists.{All, length}

module _ {ℓ} {A : Type ℓ} where
  -- `findUnique` and `findFirst`
  unfoldable pub find_by : (A → Bool) → List A → Option A
  find_by p [] = none
  find_by p (x ∷ xs) = if p x then some x else find_by p xs

  -- `findMany`
  unfoldable pub filter_by : (A → Bool) → List A → List A
  filter_by p [] = []
  filter_by p (x ∷ xs) = let rest = filter_by p xs in if p x then x ∷ rest else rest

  -- `update` and `updateMany`
  unfoldable pub update_where : (A → Bool) → (A → A) → List A → List A
  update_where p f [] = []
  update_where p f (x ∷ xs) = (if p x then f x else x) ∷ update_where p f xs

  -- the rows that `updateMany` reports
  unfoldable pub count_by : (A → Bool) → List A → ℕ
  count_by p [] = 0
  count_by p (x ∷ xs) = (if p x then 1 else 0) + count_by p xs

  pub find_by-holds : (p : A → Bool) (xs : List A) (a : A) → find_by p xs ≡ some a → p a ≡ true
  unfolding find_by
  find_by-holds p [] a h = cc
  find_by-holds p (x ∷ xs) a h = ground (arith, find_by-holds p xs a)

  -- A row that is found satisfies what every row satisfies.
  pub find_by-All {κ} :
      (P : A → Type κ) (p : A → Bool) (xs : List A) {a : A} → All P xs → find_by p xs ≡ some a → P a
  unfolding find_by
  find_by-All P p [] h e = absurd (ground arith)
  find_by-All P p (x ∷ xs) {a} h e = elim (Bool-cases (p x)) [
    | inl t ↦ let same : x ≡ a = ground arith in subst P same h.0
    | inr f ↦ find_by-All P p xs h.1 (ground arith)
  ]

  -- An update that keeps the rows' identity is found where its row was.
  pub find_by-update_where :
      (p : A → Bool) (f : A → A) (xs : List A)
      → ((x : A) → p (f x) ≡ p x)
      → find_by p (update_where p f xs) ≡ Option.map f (find_by p xs)
  unfolding find_by update_where
  find_by-update_where p f [] keep = refl
  find_by-update_where p f (x ∷ xs) keep = ground (arith, keep x, find_by-update_where p f xs keep)

  pub All-update_where {κ} :
      (P : A → Type κ) (p : A → Bool) (f : A → A) (xs : List A)
      → ((x : A) → p x ≡ true → P x → P (f x))
      → All P xs
      → All P (update_where p f xs)
  unfolding update_where
  All-update_where P p f [] step h = tt
  All-update_where P p f (x ∷ xs) step h = elim (Bool-cases (p x)) [
    | inl t ↦ rw t (step x t h.0, All-update_where P p f xs step h.1)
    | inr n ↦ rw n (h.0, All-update_where P p f xs step h.1)
  ]

  pub length-update_where :
      (p : A → Bool) (f : A → A) (xs : List A) → length (update_where p f xs) ≡ length xs
  unfolding update_where
  length-update_where p f [] = refl
  length-update_where p f (x ∷ xs) = ap suc (length-update_where p f xs)

  -- What an update does to a count, when it turns every row it touches from `q` false to true.
  pub count_by-update_gain :
      (p q : A → Bool) (f : A → A) (xs : List A)
      → ((x : A) → p x ≡ true → (q x ≡ false) × (q (f x) ≡ true))
      → count_by q (update_where p f xs) ≡ count_by q xs + count_by p xs
  unfolding count_by update_where
  count_by-update_gain p q f [] h = refl
  count_by-update_gain p q f (x ∷ xs) h = ground (arith, h x, count_by-update_gain p q f xs h)

  -- An update that does not touch what `q` tests leaves the count.
  pub count_by-update_keep :
      (p q : A → Bool) (f : A → A) (xs : List A)
      → ((x : A) → q (f x) ≡ q x)
      → count_by q (update_where p f xs) ≡ count_by q xs
  unfolding count_by update_where
  count_by-update_keep p q f [] h = refl
  count_by-update_keep p q f (x ∷ xs) h = ground (arith, h x, count_by-update_keep p q f xs h)

  -- An update of other rows does not change what is found.
  pub find_by-update_other :
      (p q : A → Bool) (f : A → A) (xs : List A)
      → ((x : A) → p x ≡ true → (q x ≡ false) × (q (f x) ≡ false))
      → find_by q (update_where p f xs) ≡ find_by q xs
  unfolding find_by update_where
  find_by-update_other p q f [] h = refl
  find_by-update_other p q f (x ∷ xs) h = ground (arith, h x, find_by-update_other p q f xs h)

  -- An update that keeps the rows' identity and one of their fields keeps the field of what is found.
  pub find_by-update_field {κ} :
      {B : Type κ} (p q : A → Bool) (f : A → A) (g : A → B) (xs : List A)
      → ((x : A) → q (f x) ≡ q x)
      → ((x : A) → g (f x) ≡ g x)
      → Option.map g (find_by q (update_where p f xs)) ≡ Option.map g (find_by q xs)
  unfolding find_by update_where
  find_by-update_field p q f g [] keep field = refl
  find_by-update_field p q f g (x ∷ xs) keep field = elim (Bool-cases (p x)) [
    | inl t ↦ elim (Bool-cases (q x)) [
      | inl this ↦ rw (t, keep x, this) (ap some (field x))
      | inr other ↦ rw (t, keep x, other) (find_by-update_field p q f g xs keep field)
    ]
    | inr n ↦ elim (Bool-cases (q x)) [
      | inl this ↦ rw (n, this)
      | inr other ↦ rw (n, other) (find_by-update_field p q f g xs keep field)
    ]
  ]

  -- A row that is found and passes another test is counted by that test.
  pub count_by-found :
      (p q : A → Bool) (xs : List A) {a : A}
      → find_by p xs ≡ some a
      → q a ≡ true
      → 1 ≤ count_by q xs
  unfolding find_by count_by
  count_by-found p q [] h t = absurd (ground arith)
  count_by-found p q (x ∷ xs) {a} h t = elim (Bool-cases (p x)) [
    | inl this ↦
        let same : x ≡ a = ground arith in rw (subst (λ y. q y ≡ true) (sym same) t) (omega arith)
    | inr other ↦ omega (arith, count_by-found p q xs {a = a} (ground arith) t)
  ]

  pub length-filter_by : (p : A → Bool) (xs : List A) → length (filter_by p xs) ≡ count_by p xs
  unfolding filter_by count_by
  length-filter_by p [] = refl
  length-filter_by p (x ∷ xs) = ground (arith, length-filter_by p xs)

  -- A row that is filtered satisfies the test, and what every row satisfies.
  pub All-filter_by {κ} :
      (P : A → Type κ) (p : A → Bool) (xs : List A)
      → All P xs
      → All (λ x. P x × (p x ≡ true)) (filter_by p xs)
  unfolding filter_by
  All-filter_by P p [] h = tt
  All-filter_by P p (x ∷ xs) h = elim (Bool-cases (p x)) [
    | inl t ↦ rw t ((h.0, t), All-filter_by P p xs h.1)
    | inr n ↦ rw n (All-filter_by P p xs h.1)
  ]

  -- What an update makes of one row.
  abbrev pub touch : (A → Bool) → (A → A) → A → A
  touch p f x = if p x then f x else x

  -- An update that keeps what a search tests finds the row as the update leaves it.
  pub find_by-touch :
      (p q : A → Bool) (f : A → A) (xs : List A)
      → ((x : A) → q (f x) ≡ q x)
      → find_by q (update_where p f xs) ≡ Option.map (touch p f) (find_by q xs)
  unfolding find_by update_where
  find_by-touch p q f [] keep = refl
  find_by-touch p q f (x ∷ xs) keep = elim (Bool-cases (p x)) [
    | inl t ↦ ground (arith, keep x, find_by-touch p q f xs keep)
    | inr n ↦ ground (arith, find_by-touch p q f xs keep)
  ]

  -- An update after which no row it touches is counted does not raise the count,
  pub count_by-update_le :
      (p q : A → Bool) (f : A → A) (xs : List A)
      → ((x : A) → q (f x) ≡ false)
      → count_by q (update_where p f xs) ≤ count_by q xs
  unfolding count_by update_where
  count_by-update_le p q f [] h = omega arith
  count_by-update_le p q f (x ∷ xs) h = elim (Bool-cases (p x)) [
    | inl t ↦ rw (t, h x) (omega (arith, count_by-update_le p q f xs h))
    | inr n ↦ rw n (omega (arith, count_by-update_le p q f xs h))
  ]

  -- and lowers it where it touches a row that was counted.
  pub count_by-update_drop :
      (p q : A → Bool) (f : A → A) (xs : List A) {a : A}
      → ((x : A) → q (f x) ≡ false)
      → find_by p xs ≡ some a
      → q a ≡ true
      → count_by q (update_where p f xs) + 1 ≤ count_by q xs
  unfolding count_by update_where find_by
  count_by-update_drop p q f [] {a} h found t = absurd (ground arith)
  count_by-update_drop p q f (x ∷ xs) {a} h found t = elim (Bool-cases (p x)) [
    | inl this ↦
        let same : x ≡ a = ground arith in
        let counted : q x ≡ true = rw same t in
        rw (this, h x, counted) (omega (arith, count_by-update_le p q f xs h))
    | inr other ↦ rw other (omega (arith, count_by-update_drop p q f xs {a = a} h (ground arith) t))
  ]
