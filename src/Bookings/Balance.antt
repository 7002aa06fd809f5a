-- ===== src/Bookings/Balance.antt =====
-- Seats, tickets and capacities stay in balance under payment events (`applyPaymentWebhook`).
use eventory.Common.{
  ℕ, ◌+◌, ◌*◌, ◌≤◌, ◌≡◌, refl, ap, ◌∙◌, subst, inl, inr, Bool, true, Option, List, [], ◌∷◌, ◌++◌,
  map, arith, nat_beq, nat_beq_iff, nat_eq, Bool-cases, Option-cases, length, all, All,
  length-append, length-map, Text, text_eq, update_where, count_by, All-update_where,
  count_by-update_gain,
}
use eventory.Errors.{Failure, ok, Result-cases}
use eventory.Domain.{is_sold}
use eventory.Bookings.Model.{
  Booking, BookingItem, SeatAllocation, TicketType, Db, audit, enqueue, mark_payment_event,
  upsert_reconciliation, Payment, Reconciliation, Reason, payment_of, AuditAction,
}
use eventory.Bookings.Cases.{
  Ending, ignored, late, confirmed, failed, apply_payment_webhook-Applied,
}
use eventory.Bookings.View.{BookingView}
use eventory.Bookings.Inventory.{
  count_one, count_items, has_room, sell, sell_counts, increment_ticket_type_counts, TicketSource,
  ticket_for, is_for_sale, mark_sold, sell_items,
}
use eventory.Bookings.Webhook.{
  WebhookPayload, expire_if_pending, expire_pending_booking, apply_payment_webhook, close_pending,
  failure_state, confirm_state, late_state, ignored_state,
}

abbrev pub sold_seats : Db → ℕ
sold_seats db = count_by (λ (a : SeatAllocation). is_sold a.status) db.seat_allocations

abbrev pub total_sold : List TicketType → ℕ
total_sold [] = 0
total_sold (t ∷ types) = t.sold_quantity + total_sold types

-- The number of items that a list of counts stands for.
abbrev total_count : List (Text × ℕ) → ℕ
total_count [] = 0
total_count ((id, n) ∷ counts) = n + total_count counts

total_count-count_one :
    (id : Text) (counts : List (Text × ℕ))
    → total_count (count_one id counts) ≡ total_count counts + 1
unfolding count_one
total_count-count_one id [] = refl
total_count-count_one id ((k, n) ∷ counts) = ground (arith, total_count-count_one id counts)

total_count-count_items :
    (counts : List (Text × ℕ)) (items : List BookingItem) (all : List (Text × ℕ))
    → count_items counts items ≡ ok all
    → total_count all ≡ total_count counts + length items
unfolding count_items
total_count-count_items counts [] all e = ground arith
total_count-count_items counts (item ∷ items) all e = elim (Option-cases item.ticket_type_id) [
  | inl missing ↦ absurd (ground arith)
  | inr (id, there) ↦ omega (
    arith,
    total_count-count_one id counts,
    total_count-count_items (count_one id counts) items all (rw (there, count_items) at e),
  )
]

total_sold-sell :
    (id : Text) (n : ℕ) (types : List TicketType)
    → total_sold (update_where (has_room id n) (sell n) types)
      ≡ total_sold types + n * count_by (has_room id n) types
unfolding update_where count_by
total_sold-sell id n [] = omega arith
total_sold-sell id n (t ∷ types) = elim (Bool-cases (has_room id n t)) [
  | inl room ↦ rw room (omega (arith, total_sold-sell id n types))
  | inr full ↦ rw full (omega (arith, total_sold-sell id n types))
]

total_sold-sell_counts :
    (counts : List (Text × ℕ)) (types after : List TicketType)
    → sell_counts counts types ≡ ok after
    → total_sold after ≡ total_sold types + total_count counts
unfolding sell_counts
total_sold-sell_counts [] types after e = ground arith
total_sold-sell_counts ((id, n) ∷ counts) types after e =
    elim (Bool-cases (nat_beq (count_by (has_room id n) types) 1)) [
      | inl one ↦
          let sold = update_where (has_room id n) (sell n) types in
          let is_one = (nat_beq_iff _ _).0 one in
          let rest = total_sold-sell_counts counts sold after (rw (one, sell_counts) at e) in
          let here : total_sold sold ≡ total_sold types + n * 1 =
            total_sold-sell id n types ∙ ap (λ k. total_sold types + n * k) is_one in
          omega (arith, rest, here)
      | inr none_or_more ↦ absurd (ground arith)
    ]

abbrev pub WithinCapacity : TicketType → Type 0
WithinCapacity t = t.sold_quantity ≤ t.capacity

sell_counts-WithinCapacity :
    (counts : List (Text × ℕ)) (types after : List TicketType)
    → All WithinCapacity types
    → sell_counts counts types ≡ ok after
    → All WithinCapacity after
unfolding sell_counts
sell_counts-WithinCapacity [] types after h e =
    let same : types ≡ after = ground arith in subst (All WithinCapacity) same h
sell_counts-WithinCapacity ((id, n) ∷ counts) types after h e =
    sell_counts-WithinCapacity counts (update_where (has_room id n) (sell n) types) after
      (All-update_where WithinCapacity (has_room id n) (sell n) types (λ t room _. ground arith) h)
      (ground arith)

-- What a sale does to the books.
pub record Balanced (before after : Db) : Type 0 where
  pub seats_and_tickets :
      sold_seats after + length before.tickets ≡ sold_seats before + length after.tickets
  pub quantities_and_tickets :
      total_sold after.ticket_types + length before.tickets
      ≡ total_sold before.ticket_types + length after.tickets
  pub capacities : All WithinCapacity before.ticket_types → All WithinCapacity after.ticket_types

sell_items-Balanced :
    (source : TicketSource) (booking : Booking) (db after : Db)
    → sell_items source booking db ≡ ok after
    → Balanced db after
unfolding sell_items increment_ticket_type_counts
sell_items-Balanced source booking db after e = elim (Result-cases (count_items [] booking.items)) [
  | inr (f, c) ↦ absurd (ground arith)
  | inl (counts, c) ↦ elim (Result-cases (sell_counts counts db.ticket_types)) [
    | inr (f, s) ↦ absurd (ground arith)
    | inl (types, s) ↦
        let enough : count_by (is_for_sale booking) db.seat_allocations ≡ length booking.items =
          ground arith in
        let tickets : after.tickets ≡ map (ticket_for source booking) booking.items ++ db.tickets =
          ground arith in
        let seats : after.seat_allocations
            ≡ update_where (is_for_sale booking) mark_sold db.seat_allocations =
          ground arith in
        let quantities : after.ticket_types ≡ types = ground arith in
        let gained =
          count_by-update_gain (is_for_sale booking) (λ (a : SeatAllocation). is_sold a.status)
            mark_sold db.seat_allocations (λ a h. (ground arith, refl)) in
        let issued =
          ap length tickets
          ∙ length-append (map (ticket_for source booking) booking.items) db.tickets in
        let each = length-map booking.items (ticket_for source booking) in
        record {
          seats_and_tickets = rw seats (omega (arith, gained, enough, issued, each));
          quantities_and_tickets = rw quantities (
              omega (
                arith,
                total_sold-sell_counts counts db.ticket_types types s,
                total_count-count_items [] booking.items counts c,
                issued,
                each,
              ));
          capacities =
              λ h. rw quantities (sell_counts-WithinCapacity counts db.ticket_types types h s);
        }
  ]
]

-- The books are left alone.
pub record SameBooks (before after : Db) : Type 0 where
  pub seats : after.seat_allocations ≡ before.seat_allocations
  pub types : after.ticket_types ≡ before.ticket_types
  pub tickets : after.tickets ≡ before.tickets

pub SameBooks-Balanced : (before after : Db) → SameBooks before after → Balanced before after
SameBooks-Balanced before after s = record {
  seats_and_tickets = rw (s.seats, s.tickets) refl;
  quantities_and_tickets = rw (s.types, s.tickets) refl;
  capacities = λ h. rw s.types h;
}

upsert-SameBooks :
    (c : Reconciliation) (reason : Option Reason) (db : Db)
    → SameBooks db (upsert_reconciliation c reason db)
unfolding upsert_reconciliation
upsert-SameBooks c reason db = ground arith

pub late_state-SameBooks :
    (later : ℕ) (booking : Booking) (payment_id event_id : Text) (payload : WebhookPayload)
    (db : Db)
    → SameBooks db (late_state later booking payment_id event_id payload db)
unfolding late_state audit mark_payment_event upsert_reconciliation expire_if_pending
late_state-SameBooks later booking payment_id event_id payload db = ground arith

expire_pending_booking-SameBooks :
    (now : ℕ) (booking : Booking) (payment : Option Payment) (force : Bool) (db : Db)
    → SameBooks db (expire_pending_booking now booking payment force db).1
unfolding expire_pending_booking
expire_pending_booking-SameBooks now booking payment force db = ground arith

close_pending-SameBooks :
    (now : ℕ) (booking : Booking) (payment : Option Payment) (payment_id : Text)
    (payload : WebhookPayload) (db : Db)
    → SameBooks db (close_pending now booking payment payment_id payload db)
unfolding close_pending enqueue
close_pending-SameBooks now booking payment payment_id payload db =
    ground (arith, expire_pending_booking-SameBooks now booking payment true db)

pub failure_state-SameBooks :
    (now later : ℕ) (booking : Booking) (payment : Option Payment) (payment_id event_id : Text)
    (payload : WebhookPayload) (db : Db)
    → SameBooks db (failure_state now later booking payment payment_id event_id payload db)
unfolding failure_state mark_payment_event
failure_state-SameBooks now later booking payment payment_id event_id payload db =
    ground (arith, close_pending-SameBooks now booking payment payment_id payload db)

confirm_state-SameBooks :
    (now later : ℕ) (booking : Booking) (payment_id event_id : Text) (sold : Db)
    → SameBooks sold (confirm_state now later booking payment_id event_id sold)
unfolding confirm_state enqueue mark_payment_event
confirm_state-SameBooks now later booking payment_id event_id sold = ground arith

module _ (source : TicketSource) (now later : ℕ) (owned : Booking → Option Failure) where
  Ending-Balanced :
      (booking : Booking) (payment : Option Payment) (payment_id event_id : Text)
      (payload : WebhookPayload) (db after : Db)
      → Ending source now later owned booking payment payment_id event_id payload db after
      → Balanced db after
  unfolding ignored_state audit mark_payment_event
  Ending-Balanced booking payment payment_id event_id payload db after (ignored s e) =
      SameBooks-Balanced db after (rw e (record { seats = refl; types = refl; tickets = refl }))
  Ending-Balanced booking payment payment_id event_id payload db after (late s p r e) =
      SameBooks-Balanced db after
        (rw e (late_state-SameBooks later booking payment_id event_id payload db))
  Ending-Balanced booking payment payment_id event_id payload db after (failed s p e) =
      SameBooks-Balanced db after
        (rw e (failure_state-SameBooks now later booking payment payment_id event_id payload db))
  Ending-Balanced booking payment payment_id event_id payload db after
        (confirmed sold s p n t o m e) =
      let b = sell_items-Balanced source booking db sold m in
      let same : SameBooks sold after =
        rw e (confirm_state-SameBooks now later booking payment_id event_id sold) in
      record {
        seats_and_tickets = rw (same.seats, same.tickets) b.seats_and_tickets;
        quantities_and_tickets = rw (same.types, same.tickets) b.quantities_and_tickets;
        capacities = λ h. rw same.types (b.capacities h);
      }

  -- A payment event that is applied keeps the books: as many seats turn sold as tickets are
  -- issued, the ticket types count each of them, and no type exceeds its capacity.
  pub apply_payment_webhook-Balanced :
      (payment_id event_id : Text) (payload : WebhookPayload) (db after : Db) (v : BookingView)
      → apply_payment_webhook source now later owned payment_id event_id payload db ≡ ok (v, after)
      → Balanced db after
  unfolding audit
  apply_payment_webhook-Balanced payment_id event_id payload db after v e =
      let a =
        apply_payment_webhook-Applied source now later owned payment_id event_id payload db after v
          e in
      elim a.ending [
        | inl (replayed, same) ↦
            SameBooks-Balanced db after
              (rw same (record { seats = refl; types = refl; tickets = refl }))
        | inr (fresh, ending) ↦
            let b =
              Ending-Balanced a.booking (payment_of a.booking.id db) payment_id event_id payload
                (audit AuditAction.payment_webhook_accepted payment_id db) after ending in
            record {
              seats_and_tickets = b.seats_and_tickets;
              quantities_and_tickets = b.quantities_and_tickets;
              capacities = b.capacities;
            }
      ]
