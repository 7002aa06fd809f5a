-- ===== src/Bookings/Sale.antt =====
-- bookings.service.ts: what is for sale, as a checkout reads it (`getSaleSnapshot`,
-- `assertSaleSnapshot`, `saleSnapshotFromAllocations`). The seat and the ticket type that a query
-- includes with an allocation come from `details`.
use eventory.Common.{
  ℕ, ◌+◌, Bool, true, ◌&&◌, ◌||◌, not, Option, none, some, List, [], ◌∷◌, map, nat_beq, ◌==◌,
  nat_eq, is_none, length, any, includes, Text, codes, text_eq, filter_by,
}
use eventory.Errors.{Code, conflict, Result, ok, ◌>>◌, throw_if}
use eventory.Domain.{SeatAllocationStatus, EventStatus, is_available, is_sales_open}
use eventory.Bookings.Model.{SeatAllocation, Db}

pub record SaleTicketType : Type 0 where
  pub name : Text
  pub price_minor : ℕ
  pub currency : Text

pub record SaleDetails : Type 0 where
  pub seat_code : Text
  pub ticket_type_id : Option Text
  pub ticket_type : Option SaleTicketType

pub record SaleAllocation : Type 0 where
  pub id : Text
  pub seat_id : Text
  pub status : SeatAllocationStatus
  pub details : SaleDetails

pub record SaleSnapshot : Type 0 where
  pub currency : Text
  pub total_minor : ℕ

-- `where: { eventSessionId, seatId: { in: seatIds } }`
abbrev pub is_selected : Text → List Text → SeatAllocation → Bool
is_selected event_session_id seat_ids a =
    a.event_session_id == event_session_id && includes seat_ids a.seat_id

abbrev pub load : (Text → SaleDetails) → SeatAllocation → SaleAllocation
load details a = record {
  id = a.id;
  seat_id = a.seat_id;
  status = a.status;
  details = details a.id;
}

unfoldable pub load_allocations : (Text → SaleDetails) → Text → List Text → Db → List SaleAllocation
load_allocations details event_session_id seat_ids db =
    map (load details) (filter_by (is_selected event_session_id seat_ids) db.seat_allocations)

abbrev pub is_unavailable : SaleAllocation → Bool
is_unavailable a = not (is_available a.status) || is_none a.details.ticket_type

abbrev pub assert_sale_snapshot : List SaleAllocation → List Text → Result (Unit {0})
assert_sale_snapshot allocations seat_ids =
    throw_if
      (not (nat_beq (length allocations) (length seat_ids)) || any is_unavailable allocations)
      (conflict Code.seat_unavailable)

-- `allocation.ticketType?.priceMinor ?? 0`
abbrev pub price_of : SaleAllocation → ℕ
price_of a = elim a.details.ticket_type [ none ↦ 0 | some t ↦ t.price_minor ]

-- The currency of a ticket type, or the default.
abbrev pub currency_or : Text → SaleAllocation → Text
currency_or default a = elim a.details.ticket_type [ none ↦ default | some t ↦ t.currency ]

abbrev pub first_currency : List SaleAllocation → Text
first_currency [] = codes "VND"
first_currency (a ∷ _) = currency_or (codes "VND") a

unfoldable pub total_of : List SaleAllocation → ℕ
total_of [] = 0
total_of (a ∷ allocations) = price_of a + total_of allocations

-- `allocation.ticketType?.currency !== currency`
abbrev pub has_other_currency : Text → SaleAllocation → Bool
has_other_currency currency a = elim a.details.ticket_type [
  | none ↦ true
  | some t ↦ not (t.currency == currency)
]

unfoldable pub sale_snapshot : List SaleAllocation → Result SaleSnapshot
sale_snapshot allocations =
    let currency = first_currency allocations in
    throw_if (any (has_other_currency currency) allocations) (conflict Code.currency_mismatch)
    >> ok (record { currency = currency; total_minor = total_of allocations })

-- `statuses` is the status of the session's event, if there is such a session.
unfoldable pub get_sale_snapshot :
    (Text → Option EventStatus) → (Text → SaleDetails) → Text → List Text → Db → Result SaleSnapshot
get_sale_snapshot statuses details event_session_id seat_ids db = do
  throw_if (elim (statuses event_session_id) [ none ↦ true | some s ↦ not (is_sales_open s) ])
      (conflict Code.sales_not_open)
  let allocations = load_allocations details event_session_id seat_ids db
  assert_sale_snapshot allocations seat_ids
  sale_snapshot allocations
