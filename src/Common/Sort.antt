-- ===== src/Common/Sort.antt =====
-- `orderBy` and `sort`: insertion by an order, which is stable.
use mathlib.Core.Path.{◌≡◌, refl}
use mathlib.Core.Logic.{inl, inr}
use mathlib.Core.Bool.{Bool, true, false}
use mathlib.Core.List.{List, [], ◌∷◌}
use native.Mathlib.Omega.{arith}
use eventory.Common.Tests.{if◌then◌else◌, Bool-cases}
use eventory.Common.Lists.{All, All-mono, length}
use Prim.Native.Nat.{suc}
use eventory.Common.Table.{count_by}

module _ {ℓ} {A : Type ℓ} where
  unfoldable pub insert_by : (A → A → Bool) → A → List A → List A
  insert_by before a [] = a ∷ []
  insert_by before a (b ∷ bs) =
      let rest = insert_by before a bs in if before b a then b ∷ rest else a ∷ b ∷ bs

  -- `before b a` puts `b` strictly ahead of `a`.
  unfoldable pub order_by : (A → A → Bool) → List A → List A
  order_by before [] = []
  order_by before (a ∷ rest) = insert_by before a (order_by before rest)

  -- No element comes after one that it belongs ahead of.
  unfoldable pub IsSorted {κ} : (A → A → Type κ) → List A → Type κ
  IsSorted R [] = Unit
  IsSorted R (a ∷ rest) = All (R a) rest × IsSorted R rest

  All-insert_by {κ} :
      (P : A → Type κ) (before : A → A → Bool) (a : A) (bs : List A)
      → P a
      → All P bs
      → All P (insert_by before a bs)
  unfolding insert_by
  All-insert_by P before a [] h k = (h, tt)
  All-insert_by P before a (b ∷ bs) h k = elim (Bool-cases (before b a)) [
    | inl first ↦ rw first (k.0, All-insert_by P before a bs h k.1)
    | inr later ↦ rw later (h, (k.0, k.1))
  ]

  pub All-order_by {κ} :
      (P : A → Type κ) (before : A → A → Bool) (xs : List A) → All P xs → All P (order_by before xs)
  unfolding order_by
  All-order_by P before [] h = tt
  All-order_by P before (a ∷ rest) h =
      All-insert_by P before a _ h.0 (All-order_by P before rest h.1)

  insert_by-IsSorted {κ} :
      (R : A → A → Type κ) (before : A → A → Bool) (a : A) (bs : List A)
      → ((x y : A) → before x y ≡ true → R x y)
      → ((x y : A) → before x y ≡ false → R y x)
      → ((x y z : A) → R x y → R y z → R x z)
      → IsSorted R bs
      → IsSorted R (insert_by before a bs)
  unfolding insert_by IsSorted
  insert_by-IsSorted R before a [] ahead behind trans h = (tt, tt)
  insert_by-IsSorted R before a (b ∷ bs) ahead behind trans h = elim (Bool-cases (before b a)) [
    | inl first ↦ rw first (
      All-insert_by (R b) before a bs (ahead b a first) h.0,
      insert_by-IsSorted R before a bs ahead behind trans h.1,
    )
    | inr later ↦
        let here = behind b a later in
        rw later ((here, All-mono (R b) (R a) bs (λ x. trans a b x here) h.0), h)
  ]

  -- With a total order the result is in order.
  pub order_by-IsSorted {κ} :
      (R : A → A → Type κ) (before : A → A → Bool) (xs : List A)
      → ((x y : A) → before x y ≡ true → R x y)
      → ((x y : A) → before x y ≡ false → R y x)
      → ((x y z : A) → R x y → R y z → R x z)
      → IsSorted R (order_by before xs)
  unfolding order_by IsSorted
  order_by-IsSorted R before [] ahead behind trans = tt
  order_by-IsSorted R before (a ∷ rest) ahead behind trans =
      insert_by-IsSorted R before a _ ahead behind trans
        (order_by-IsSorted R before rest ahead behind trans)

  count_by-insert_by :
      (p : A → Bool) (before : A → A → Bool) (a : A) (bs : List A)
      → count_by p (insert_by before a bs) ≡ count_by p (a ∷ bs)
  unfolding insert_by count_by
  count_by-insert_by p before a [] = refl
  count_by-insert_by p before a (b ∷ bs) = ground (arith, count_by-insert_by p before a bs)

  -- The result has each row as often as the list.
  pub count_by-order_by :
      (p : A → Bool) (before : A → A → Bool) (xs : List A)
      → count_by p (order_by before xs) ≡ count_by p xs
  unfolding order_by count_by
  count_by-order_by p before [] = refl
  count_by-order_by p before (a ∷ rest) = rw (
    count_by-insert_by p before a (order_by before rest),
    count_by,
    count_by-order_by p before rest,
  )

  length-insert_by :
      (before : A → A → Bool) (a : A) (bs : List A)
      → length (insert_by before a bs) ≡ suc (length bs)
  unfolding insert_by
  length-insert_by before a [] = refl
  length-insert_by before a (b ∷ bs) = ground (arith, length-insert_by before a bs)

  pub length-order_by :
      (before : A → A → Bool) (xs : List A) → length (order_by before xs) ≡ length xs
  unfolding order_by
  length-order_by before [] = refl
  length-order_by before (a ∷ rest) =
      rw (length-insert_by before a (order_by before rest), length-order_by before rest)
