-- ===== src/Paging.antt =====
-- The pages of a list, as admin/admin.service.ts (`page`, `pageSize`, and `skip`, `take`, `pageCount` of
-- its lists) and `listPublic` of events/events.service.ts make them.
pub mod Cover
use eventory.Common.{
  ℕ, zero, suc, ◌+◌, ◌-◌, ◌*◌, ◌/◌, ◌%◌, ◌^◌, ◌≤◌, ◌<◌, min, max, ◌≡◌, refl, sym, ap, ◌∙◌, subst,
  ◌≢◌, ◌↔◌, ◌⊎◌, inl, inr, Bool, true, false, ◌&&◌, ◌||◌, not, Option, none, some, List, [], ◌∷◌,
  ◌++◌, map, arith, ltb, leb, nat_beq, if◌then◌else◌, nat_beq_iff, Eq, ◌==◌, nat_eq, Bool-cases,
  Option-cases, is_some, is_none, get_or, some_eq, length, take, any, all, All, length-append,
  length-take, All-of_all, all_of_All, All-of_not_any, not_any_of_All, All-mono, length-map,
  includes, All-includes, All-includes_self, Text, codes, text_beq, text_beq_iff, text_eq,
  text_beq_refl, is_empty, trim, IsPrintable, trim-All, split, join, split-join, decimal,
  All-decimal, is_digit, All-append, All-take, All-reverse, has_length, find_by, filter_by,
  update_where, count_by, count_by-found, find_by-holds, find_by-All, find_by-update_where,
  find_by-update_other, All-update_where, length-update_where, count_by-update_gain,
  count_by-update_keep, find_by-update_field, insert_by, order_by, IsSorted, All-order_by,
  order_by-IsSorted, count_by-order_by, length-order_by, length-filter_by, All-filter_by, touch,
  find_by-touch, count_by-update_le, count_by-update_drop,
}

-- `page` and `pageSize` of admin.service.ts
abbrev pub safe_page : Option ℕ → ℕ
safe_page value = min (max (get_or value 1) 1) 10_000

abbrev pub safe_page_size : Option ℕ → ℕ
safe_page_size value = min (max (get_or value 20) 1) 100

pub record Page {ℓ} (A : Type ℓ) : Type ℓ where
  pub items : List A
  pub page : ℕ
  pub page_size : ℕ
  pub total : ℕ
  pub page_count : ℕ

-- `Math.ceil(total / pageSize)`, for a page size that is not 0
abbrev pub ceil_div : ℕ → ℕ → ℕ
ceil_div total size = (total + (size - 1)) / size

module _ {ℓ} {A : Type ℓ} where
  -- `skip`
  unfoldable pub drop : ℕ → List A → List A
  drop zero xs = xs
  drop (suc n) [] = []
  drop (suc n) (x ∷ xs) = drop n xs

  -- `findMany({ where, orderBy, skip, take })` with `count({ where })`
  unfoldable pub list_page : (A → Bool) → (A → A → Bool) → ℕ → ℕ → List A → Page A
  list_page where_ before page size rows = record {
    items = take size (drop ((page - 1) * size) (order_by before (filter_by where_ rows)));
    page = page;
    page_size = size;
    total = count_by where_ rows;
    page_count = ceil_div (count_by where_ rows) size;
  }
