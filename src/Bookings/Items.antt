-- ===== src/Bookings/Items.antt =====
-- The items that a checkout makes of the seat allocations that it loads (`create` of bookings.service.ts).
use eventory.Common.{
  ℕ, ◌+◌, ◌≡◌, refl, inl, inr, Bool, true, false, ◌&&◌, some, List, [], ◌∷◌, map, arith, ◌==◌,
  nat_eq, Bool-cases, Option-cases, any, All, All-mono, includes, Text, text_beq_iff, text_eq,
  text_beq_refl, filter_by,
}
use eventory.Bookings.Model.{BookingItem, SeatAllocation}
use eventory.Bookings.Sale.{
  SaleDetails, SaleAllocation, SaleSnapshot, is_selected, load, has_other_currency, total_of,
  SaleTicketType,
}
use eventory.Bookings.Checkout.{Drawn, item_for}

unfoldable pub sum_of_items : List BookingItem → ℕ
sum_of_items [] = 0
sum_of_items (i ∷ items) = i.price_minor + sum_of_items items

-- An item has the price, the currency and the name of the ticket type of its allocation.
abbrev pub IsPricedItem : (Text → SaleDetails) → BookingItem → Type 0
IsPricedItem details i =
    (t : SaleTicketType) × ((details i.seat_allocation_id).ticket_type ≡ some t)
    × (i.price_minor ≡ t.price_minor)
    × (i.currency ≡ t.currency)
    × (i.ticket_type_name ≡ t.name)

-- The allocation of an item, with its seat.
abbrev pub is_allocation_of : BookingItem → SeatAllocation → Bool
is_allocation_of i a = a.id == i.seat_allocation_id && a.seat_id == i.seat_id

pub sum-items :
    (drawn : Drawn) (source : SaleSnapshot) (allocations : List SaleAllocation)
    → sum_of_items (map (item_for drawn source) allocations) ≡ total_of allocations
unfolding sum_of_items total_of
sum-items drawn source [] = refl
sum-items drawn source (a ∷ rest) = rw (sum-items drawn source rest)

pub items-one_currency :
    (drawn : Drawn) (source : SaleSnapshot) (allocations : List SaleAllocation)
    → any (has_other_currency source.currency) allocations ≡ false
    → All (λ i. i.currency ≡ source.currency) (map (item_for drawn source) allocations)
items-one_currency drawn source [] h = tt
items-one_currency drawn source (a ∷ rest) h = elim (Option-cases a.details.ticket_type) [
  | inl missing ↦ absurd (ground arith)
  | inr (t, found) ↦ (
    rw found ((text_beq_iff t.currency source.currency).0 (ground arith)),
    items-one_currency drawn source rest (ground arith),
  )
]

pub loaded-seats :
    (details : Text → SaleDetails) (drawn : Drawn) (source : SaleSnapshot) (session : Text)
    (ids : List Text) (rows : List SeatAllocation)
    → All
        (λ i. includes ids i.seat_id ≡ true)
        (map
          (item_for drawn source)
          (map (load details) (filter_by (is_selected session ids) rows)))
unfolding filter_by
loaded-seats details drawn source session ids [] = tt
loaded-seats details drawn source session ids (a ∷ rows) =
    let rest = loaded-seats details drawn source session ids rows in
    elim (Bool-cases (is_selected session ids a)) [
      | inr other ↦ rw other rest
      | inl selected ↦ rw selected (ground arith, rest)
    ]

pub loaded-prices :
    (details : Text → SaleDetails) (drawn : Drawn) (source : SaleSnapshot) (session currency : Text)
    (ids : List Text) (rows : List SeatAllocation)
    → any
        (has_other_currency currency)
        (map (load details) (filter_by (is_selected session ids) rows))
      ≡ false
    → All (IsPricedItem details) (
        map (item_for drawn source) (map (load details) (filter_by (is_selected session ids) rows)))
unfolding filter_by
loaded-prices details drawn source session currency ids [] h = tt
loaded-prices details drawn source session currency ids (a ∷ rows) h =
    elim (Bool-cases (is_selected session ids a)) [
      | inr other ↦
          rw other (loaded-prices details drawn source session currency ids rows (rw other at h))
      | inl selected ↦
          let tests = rw selected at h in
          elim (Option-cases (details a.id).ticket_type) [
            | inl missing ↦ absurd (cc (rw missing at tests))
            | inr (t, found) ↦ rw selected (
              (t, found, rw found refl, rw found refl, rw found refl),
              loaded-prices details drawn source session currency ids rows
                  (ground (arith, rw found at tests)),
            )
          ]
    ]

-- The rows in front of a list hide none of it.
pub loaded-allocations :
    (details : Text → SaleDetails) (drawn : Drawn) (source : SaleSnapshot) (session : Text)
    (ids : List Text) (rows : List SeatAllocation)
    → All
        (λ i. any (is_allocation_of i) rows ≡ true)
        (map
          (item_for drawn source)
          (map (load details) (filter_by (is_selected session ids) rows)))
unfolding filter_by
loaded-allocations details drawn source session ids [] = tt
loaded-allocations details drawn source session ids (a ∷ rows) =
    let rest =
      All-mono (λ i. any (is_allocation_of i) rows ≡ true)
        (λ i. any (is_allocation_of i) (a ∷ rows) ≡ true) _ (λ i h. ground arith)
        (loaded-allocations details drawn source session ids rows) in
    elim (Bool-cases (is_selected session ids a)) [
      | inr other ↦ rw other rest
      | inl selected ↦ rw selected (rw (text_beq_refl a.id, text_beq_refl a.seat_id) refl, rest)
    ]
