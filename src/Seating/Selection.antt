-- ===== src/Seating/Selection.antt =====
-- The seat selection: `normalizeSeatIds`, and the comparison of `assertWholeHold`.
use eventory.Common.{
  ◌≤◌, ◌<◌, ◌≡◌, refl, sym, ap, ◌∙◌, subst, true, false, ◌&&◌, ◌||◌, not, List, [], ◌∷◌, arith,
  ◌==◌, nat_eq, length, any, All, includes, Text, text_beq_iff, text_eq, text_beq_refl, filter_by,
}
use eventory.Errors.{ok}
use eventory.Uuid.{is_uuid}
use eventory.Seating.Checks.{unique, insert_sorted, sort, lists_differ, normalize_seat_ids}

includes-filter_by :
    (x a : Text) (xs : List Text)
    → includes (filter_by (λ y. not (x == y)) xs) a ≡ (not (x == a) && includes xs a)
unfolding includes filter_by
includes-filter_by x a [] = ground arith
includes-filter_by x a (y ∷ xs) =
    ground (arith, includes-filter_by x a xs, text_beq_iff x a, text_beq_iff x y, text_beq_iff y a)

-- `unique` keeps the members.
pub includes-unique : (xs : List Text) (a : Text) → includes (unique xs) a ≡ includes xs a
unfolding includes unique
includes-unique [] a = refl
includes-unique (x ∷ xs) a =
    ground (arith, includes-filter_by x a (unique xs), includes-unique xs a)

abbrev pub IsDistinct : List Text → Type 0
IsDistinct [] = Unit {0}
IsDistinct (x ∷ xs) = (includes xs x ≡ false) × IsDistinct xs

filter_by-IsDistinct :
    (x : Text) (xs : List Text) → IsDistinct xs → IsDistinct (filter_by (λ y. not (x == y)) xs)
unfolding filter_by
filter_by-IsDistinct x [] d = tt
filter_by-IsDistinct x (y ∷ xs) d =
    ground (arith, filter_by-IsDistinct x xs d.1, includes-filter_by x y xs)

pub unique-IsDistinct : (xs : List Text) → IsDistinct (unique xs)
unfolding unique
unique-IsDistinct [] = tt
unique-IsDistinct (x ∷ xs) = (
  includes-filter_by x x (unique xs) ∙ ground (arith, text_beq_refl x),
  filter_by-IsDistinct x (unique xs) (unique-IsDistinct xs),
)

-- What a selection that `normalizeSeatIds` lets through is.
pub record IsSelection (given ids : List Text) : Type 0 where
  pub not_empty : 0 < length ids
  pub at_most_12 : length ids ≤ 12
  pub distinct : IsDistinct ids
  pub uuids : All (λ id. is_uuid id ≡ true) ids
  pub same_members : (a : Text) → includes ids a ≡ includes given a

not-any-uuids :
    (ids : List Text) → any (λ id. not (is_uuid id)) ids ≡ false → All (λ id. is_uuid id ≡ true) ids
not-any-uuids [] h = tt
not-any-uuids (x ∷ ids) h = (ground arith, not-any-uuids ids (ground arith))

-- An accepted selection has 1 to 12 distinct identifiers, all of them UUIDs, and the members of
-- what was given.
pub normalize_seat_ids-IsSelection :
    (given ids : List Text) → normalize_seat_ids given ≡ ok ids → IsSelection given ids
unfolding normalize_seat_ids
normalize_seat_ids-IsSelection given ids e =
    let same : unique given ≡ ids = ground arith in
    record {
      not_empty = ground arith;
      at_most_12 = ground arith;
      distinct = subst IsDistinct same (unique-IsDistinct given);
      uuids = not-any-uuids ids (ground arith);
      same_members = λ a. ap (λ l. includes l a) (sym same) ∙ includes-unique given a;
    }

includes-insert_sorted :
    (x a : Text) (xs : List Text) → includes (insert_sorted x xs) a ≡ (x == a || includes xs a)
unfolding includes insert_sorted
includes-insert_sorted x a [] = refl
includes-insert_sorted x a (y ∷ xs) = ground (arith, includes-insert_sorted x a xs)

includes-sort : (xs : List Text) (a : Text) → includes (sort xs) a ≡ includes xs a
unfolding includes sort
includes-sort [] a = refl
includes-sort (x ∷ xs) a = ground (arith, includes-insert_sorted x a (sort xs), includes-sort xs a)

pub lists_differ_self : (xs : List Text) → lists_differ xs xs ≡ false
unfolding lists_differ
lists_differ_self [] = refl
lists_differ_self (x ∷ xs) = ground (arith, text_beq_refl x, lists_differ_self xs)

pub eq_of_not_lists_differ : (xs ys : List Text) → lists_differ xs ys ≡ false → xs ≡ ys
unfolding lists_differ
eq_of_not_lists_differ [] [] h = refl
eq_of_not_lists_differ [] (y ∷ ys) h = absurd (ground arith)
eq_of_not_lists_differ (x ∷ xs) [] h = absurd (ground arith)
eq_of_not_lists_differ (x ∷ xs) (y ∷ ys) h =
    ground (arith, text_beq_iff x y, eq_of_not_lists_differ xs ys)

-- Two selections that `assertWholeHold` takes for one have the same members.
pub same_seats :
    (held requested : List Text)
    → lists_differ (sort (unique held)) (sort (unique requested)) ≡ false
    → (a : Text) → includes held a ≡ includes requested a
same_seats held requested h a =
    sym (includes-sort (unique held) a ∙ includes-unique held a)
    ∙ ap (λ l. includes l a) (eq_of_not_lists_differ _ _ h)
    ∙ (includes-sort (unique requested) a ∙ includes-unique requested a)
