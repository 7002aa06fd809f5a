-- ===== src/Paging/Cover.antt =====
-- The pages of a list, one after the other, are the whole list.
use eventory.Common.{
  ℕ, zero, suc, ◌+◌, ◌-◌, ◌*◌, ◌≤◌, ◌≡◌, refl, sym, ap, ◌∙◌, Bool, some, List, [], ◌∷◌, ◌++◌, arith,
  nat_eq, length, take, length-take, text_eq, filter_by, count_by, order_by, length-order_by,
  length-filter_by,
}
use eventory.Paging.{drop, list_page, ceil_div, safe_page}

page-number : (k : ℕ) → suc k ≤ 10_000 → safe_page (some (suc k)) - 1 ≡ k
page-number k h = omega arith

count-covered : (total size : ℕ) → 1 ≤ size → total ≤ ceil_div total size * size
count-covered total size h = grind arith

module _ {ℓ} {A : Type ℓ} where
  take-nil : (n : ℕ) → take {A = A} n [] ≡ []
  take-nil zero = refl
  take-nil (suc n) = refl

  take-add : (a b : ℕ) (xs : List A) → take a xs ++ take b (drop a xs) ≡ take (a + b) xs
  unfolding drop
  take-add zero b xs = let same : 0 + b ≡ b = omega arith in rw same
  take-add (suc a) b [] = rw (take-nil b, take-nil (suc a + b))
  take-add (suc a) b (x ∷ xs) =
      let same : suc a + b ≡ suc (a + b) = omega arith in rw (same, take-add a b xs)

  take-all : (n : ℕ) (xs : List A) → length xs ≤ n → take n xs ≡ xs
  take-all zero [] h = refl
  take-all zero (x ∷ xs) h = absurd (omega arith)
  take-all (suc n) [] h = refl
  take-all (suc n) (x ∷ xs) h = ap (λ ys. x ∷ ys) (take-all n xs (omega arith))

  -- The items of the first `k` pages, one page after the other.
  unfoldable pub first_pages : (A → Bool) → (A → A → Bool) → ℕ → List A → ℕ → List A
  first_pages where_ before size rows zero = []
  first_pages where_ before size rows (suc k) =
      first_pages where_ before size rows k
      ++ (list_page where_ before (safe_page (some (suc k))) size rows).items

  first_pages-take :
      (where_ : A → Bool) (before : A → A → Bool) (size : ℕ) (rows : List A) (k : ℕ)
      → k ≤ 10_000
      → first_pages where_ before size rows k
        ≡ take (k * size) (order_by before (filter_by where_ rows))
  unfolding first_pages list_page
  first_pages-take where_ before size rows zero h =
      let nothing : 0 * size ≡ 0 = omega arith in rw nothing
  first_pages-take where_ before size rows (suc k) h =
      let ordered = order_by before (filter_by where_ rows) in
      let area : k * size + size ≡ suc k * size = grind arith in
      rw (
        first_pages-take where_ before size rows k (omega arith),
        page-number k h,
        take-add (k * size) size ordered,
        area,
      )

  -- The pages from the first to the last that a list announces are, one after the other, all the rows of
  -- the list in its order; the announced total is their number, and no page has more than its size. This
  -- holds for a page size that is not 0, up to the 10,000 pages that can be asked for.
  pub first_pages-cover :
      (where_ : A → Bool) (before : A → A → Bool) (page size : ℕ) (rows : List A)
      → 1 ≤ size
      → (list_page where_ before page size rows).page_count ≤ 10_000
      → (first_pages where_ before size rows (list_page where_ before page size rows).page_count
          ≡ order_by before (filter_by where_ rows))
        × ((list_page where_ before page size rows).total
            ≡ length (order_by before (filter_by where_ rows)))
        × (length (list_page where_ before page size rows).items ≤ size)
  unfolding list_page
  first_pages-cover where_ before page size rows full few =
      let ordered = order_by before (filter_by where_ rows) in
      let total : length ordered ≡ count_by where_ rows =
        length-order_by before (filter_by where_ rows) ∙ length-filter_by where_ rows in
      let enough : length ordered ≤ ceil_div (count_by where_ rows) size * size =
        rw total (count-covered (count_by where_ rows) size full) in
      (
        first_pages-take where_ before size rows _ few ∙ take-all _ ordered enough,
        sym total,
        rw (length-take size (drop ((page - 1) * size) ordered)) (omega arith),
      )
