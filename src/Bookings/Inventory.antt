-- ===== src/Bookings/Inventory.antt =====
-- bookings.service.ts: the sale of a booking's seats inside `applyPaymentWebhook`, and
-- `incrementTicketTypeCounts`.
use eventory.Common.{
  ℕ, ◌+◌, Bool, ◌&&◌, not, none, some, List, [], ◌∷◌, ◌++◌, map, leb, nat_beq, if◌then◌else◌, ◌==◌,
  nat_eq, length, includes, Text, text_eq, update_where, count_by,
}
use eventory.Errors.{Code, conflict, Result, ok, err, ◌>>=◌, ◌>>◌, throw_if}
use eventory.Domain.{SeatAllocationStatus, TicketStatus, is_available}
use eventory.Bookings.Model.{Booking, BookingItem, SeatAllocation, TicketType, Ticket, Db}

-- `counts.set(id, (counts.get(id) ?? 0) + 1)` on a map that keeps the order of insertion.
unfoldable pub count_one : Text → List (Text × ℕ) → List (Text × ℕ)
count_one id [] = (id, 1) ∷ []
count_one id ((k, n) ∷ counts) =
    if k == id then (k, n + 1) ∷ counts else (k, n) ∷ count_one id counts

-- The loop that counts the items of each ticket type.
unfoldable pub count_items : List (Text × ℕ) → List BookingItem → Result (List (Text × ℕ))
count_items counts [] = ok counts
count_items counts (item ∷ items) = elim item.ticket_type_id [
  | none ↦ err (conflict Code.ticket_type_missing)
  | some id ↦ count_items (count_one id counts) items
]

-- The row that `UPDATE "ticket_types" … WHERE "id" = … AND "soldQuantity" + count <= "capacity"`
-- changes.
abbrev pub has_room : Text → ℕ → TicketType → Bool
has_room id count t = t.id == id && leb (t.sold_quantity + count) t.capacity

abbrev pub sell : ℕ → TicketType → TicketType
sell count t = record t { sold_quantity = t.sold_quantity + count }

-- The loop of updates, which stops at the first that does not change one row.
unfoldable pub sell_counts : List (Text × ℕ) → List TicketType → Result (List TicketType)
sell_counts [] types = ok types
sell_counts ((id, count) ∷ counts) types =
    let rest = sell_counts counts (update_where (has_room id count) (sell count) types) in
    if nat_beq (count_by (has_room id count) types) 1
    then rest
    else err (conflict Code.ticket_capacity_reached)

unfoldable pub increment_ticket_type_counts :
    List BookingItem → List TicketType → Result (List TicketType)
increment_ticket_type_counts items types = do
  counts ← count_items [] items
  sell_counts counts types

-- What is drawn at random for the ticket of an item, and the configured key version.
pub record TicketSource : Type 0 where
  pub public_code : Text → Text
  pub qr_nonce : Text → Text
  pub qr_key_version : ℕ

abbrev pub ticket_for : TicketSource → Booking → BookingItem → Ticket
ticket_for source booking item = record {
  booking_id = booking.id;
  booking_item_id = item.id;
  user_id = booking.user_id;
  event_session_id = booking.event_session_id;
  public_code = source.public_code item.id;
  qr_nonce = source.qr_nonce item.id;
  qr_key_version = source.qr_key_version;
  status = TicketStatus.issued;
}

-- `where: { id: { in: … }, status: AVAILABLE }`
abbrev pub is_for_sale : Booking → SeatAllocation → Bool
is_for_sale booking a =
    includes (map (λ (i : BookingItem). i.seat_allocation_id) booking.items) a.id
    && is_available a.status

abbrev pub mark_sold : SeatAllocation → SeatAllocation
mark_sold a = record a { status = SeatAllocationStatus.sold }

-- The seats turn sold, the ticket types count them, and each item gets a ticket.
unfoldable pub sell_items : TicketSource → Booking → Db → Result Db
sell_items source booking db = do
  throw_if
      (not (nat_beq (count_by (is_for_sale booking) db.seat_allocations) (length booking.items)))
      (conflict Code.seat_already_sold)
  types ← increment_ticket_type_counts booking.items db.ticket_types
  ok (record db {
    seat_allocations = update_where (is_for_sale booking) mark_sold db.seat_allocations;
    ticket_types = types;
    tickets = map (ticket_for source booking) booking.items ++ db.tickets;
  })
