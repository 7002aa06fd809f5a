-- ===== src/Bookings/Issue.antt =====
-- For whom tickets are issued: `applyPaymentWebhook` over `assertOwnedHold` of seating.service.ts.
use eventory.Common.{
  ℕ, ◌<◌, ◌≡◌, refl, sym, ap, ◌∙◌, subst, ◌≢◌, inl, inr, true, not, Option, none, some, List, [],
  ◌∷◌, ◌++◌, map, arith, nat_beq, nat_eq, some_eq, length, All, Text, text_eq, find_by, count_by,
}
use eventory.Seating.Redis.{Redis}
use eventory.Bookings.Inventory.{
  sell_items, TicketSource, ticket_for, is_for_sale, increment_ticket_type_counts,
}
use eventory.Bookings.Model.{
  Booking, Ticket, BookingItem, audit, Db, mark_payment_event, enqueue, Payment, is_payment,
  is_booking, payment_of, AuditAction,
}
use eventory.Errors.{
  Failure, failure_of, ok, >>=-eq-ok, Result-cases, throw_if, conflict, Code, ok_eq,
}
use eventory.Bookings.Webhook.{ignored_state, WebhookPayload, confirm_state, apply_payment_webhook}
use eventory.Seating.Owned.{OwnedHold, assert_owned_hold}
use eventory.Seating.Ownership.{IsOwned, assert_owned_hold-IsOwned}
use eventory.Domain.{is_pending, TicketStatus}
use eventory.Bookings.View.{BookingView}
use eventory.Bookings.Cases.{
  apply_payment_webhook-Applied, Ending, ignored, late, failed, confirmed,
}
use eventory.Bookings.Balance.{SameBooks, late_state-SameBooks, failure_state-SameBooks}

abbrev pub seats_of : Booking → List Text
seats_of b = map (λ (i : BookingItem). i.seat_id) b.items

-- What the call of `assertOwnedHold` throws for a booking.
abbrev pub hold_refusal : (r : Redis) → ℕ → r.Store → Booking → Option Failure
hold_refusal r now s b =
    failure_of (assert_owned_hold r now b.event_session_id b.user_id (seats_of b) b.hold_id s)

-- A ticket of the booking, for its user and its session.
pub record IsTicketOf (b : Booking) (t : Ticket) : Type 0 where
  pub user : t.user_id ≡ b.user_id
  pub booking : t.booking_id ≡ b.id
  pub event_session : t.event_session_id ≡ b.event_session_id
  pub unused : t.status ≡ TicketStatus.issued

-- The booking was to be paid, its user held its seats, and what is issued is a ticket of that user for
-- each of its items.
pub record IsEntitled (r : Redis) (now : ℕ) (s : r.Store) (b : Booking) (before after : List Ticket)
    : Type 0 where
  pub pending : is_pending b.status ≡ true
  pub in_time : now < b.expires_at
  pub hold : OwnedHold
  pub owned : IsOwned r now b.event_session_id b.user_id (seats_of b) b.hold_id s hold
  pub issued :
      (tickets : List Ticket) × (after ≡ tickets ++ before)
      × All (IsTicketOf b) tickets
      × (map (λ t. t.booking_item_id) tickets ≡ map (λ (i : BookingItem). i.id) b.items)

tickets-IsTicketOf :
    (source : TicketSource) (b : Booking) (items : List BookingItem)
    → All (IsTicketOf b) (map (ticket_for source b) items)
      × (map (λ (t : Ticket). t.booking_item_id) (map (ticket_for source b) items)
          ≡ map (λ (i : BookingItem). i.id) items)
tickets-IsTicketOf source b [] = (tt, refl)
tickets-IsTicketOf source b (i ∷ items) =
    let (all_of_rest, ids) = tickets-IsTicketOf source b items in
    (
      (record { user = refl; booking = refl; event_session = refl; unused = refl }, all_of_rest),
      ap (λ rest. i.id ∷ rest) ids,
    )

sell_items-tickets :
    (source : TicketSource) (b : Booking) (db sold : Db)
    → sell_items source b db ≡ ok sold
    → sold.tickets ≡ map (ticket_for source b) b.items ++ db.tickets
unfolding sell_items
sell_items-tickets source b db sold h =
    let (_, _, h1) =
      >>=-eq-ok
        (throw_if (not (nat_beq (count_by (is_for_sale b) db.seat_allocations) (length b.items)))
          (conflict Code.seat_already_sold))
        _ h in
    let (types, _, h2) = >>=-eq-ok (increment_ticket_type_counts b.items db.ticket_types) _ h1 in
    sym (ap (λ (d : Db). d.tickets) (ok_eq h2))

module _ (r : Redis) (source : TicketSource) (now later : ℕ) (s : r.Store) where
  hold_of :
      (b : Booking)
      → hold_refusal r now s b ≡ none
      → (o : OwnedHold) × IsOwned r now b.event_session_id b.user_id (seats_of b) b.hold_id s o
  hold_of b h =
      elim (Result-cases
        (assert_owned_hold r now b.event_session_id b.user_id (seats_of b) b.hold_id s)) [
          | inl (o, e) ↦ (
            o,
            assert_owned_hold-IsOwned r now b.event_session_id b.user_id (seats_of b) b.hold_id s o
                e,
          )
          | inr (f, e) ↦ let thrown : some f ≡ none = rw e at h in absurd (ground arith)
        ]

  Ending-IsEntitled :
      (b : Booking) (payment : Option Payment) (payment_id event_id : Text)
      (payload : WebhookPayload) (db after : Db)
      → Ending source now later
          (hold_refusal r now s)
          b
          payment
          payment_id
          event_id
          payload
          db
          after
      → after.tickets ≢ db.tickets
      → IsEntitled r now s b db.tickets after.tickets
  unfolding ignored_state audit mark_payment_event confirm_state enqueue
  Ending-IsEntitled b payment payment_id event_id payload db after (ignored t e) new =
      absurd (new (rw e))
  Ending-IsEntitled b payment payment_id event_id payload db after (late t p w e) new =
      let same : SameBooks db after =
        rw e (late_state-SameBooks later b payment_id event_id payload db) in
      absurd (new same.tickets)
  Ending-IsEntitled b payment payment_id event_id payload db after (failed t p e) new =
      let same : SameBooks db after =
        rw e (failure_state-SameBooks now later b payment payment_id event_id payload db) in
      absurd (new same.tickets)
  Ending-IsEntitled b payment payment_id event_id payload db after
        (confirmed sold t p is_open early mine m e) new =
      let (o, owned) = hold_of b mine in
      let (mine_all, ids) = tickets-IsTicketOf source b b.items in
      record {
        pending = is_open;
        in_time = early;
        hold = o;
        owned = owned;
        issued = (
          map (ticket_for source b) b.items,
          rw e (sell_items-tickets source b db sold m),
          mine_all,
          ids,
        );
      }

  -- Tickets are issued only to the holder of the seats: if a payment event that is applied issues
  -- tickets, then its booking was pending and not over, and each of its seats was under an unexpired
  -- hold of the booking's user, for its session and with its hold's identifier; and what is
  -- issued is an unused ticket for each item of the booking, all of them that user's, and no other.
  pub tickets-IsEntitled :
      (payment_id event_id : Text) (payload : WebhookPayload) (db after : Db) (v : BookingView)
      (p : Payment) (b : Booking)
      → find_by (is_payment payment_id) db.payments ≡ some p
      → find_by (is_booking p.booking_id) db.bookings ≡ some b
      → apply_payment_webhook source now later (hold_refusal r now s) payment_id event_id payload db
        ≡ ok (v, after)
      → after.tickets ≢ db.tickets
      → IsEntitled r now s b db.tickets after.tickets
  unfolding audit
  tickets-IsEntitled payment_id event_id payload db after v p b fp fb e new =
      let a =
        apply_payment_webhook-Applied source now later (hold_refusal r now s) payment_id event_id
          payload db after v e in
      let same_p : a.payment ≡ p = some_eq (sym a.payment_found ∙ fp) in
      let same_b : a.booking ≡ b = some_eq (
        sym (
          subst (λ (x : Payment). find_by (is_booking x.booking_id) db.bookings ≡ some a.booking)
            same_p a.booking_found)
        ∙ fb) in
      subst (λ x. IsEntitled r now s x db.tickets after.tickets) same_b
        (elim a.ending [
          | inl (_, same) ↦ absurd (new (rw same))
          | inr (_, ending) ↦
              Ending-IsEntitled a.booking (payment_of a.booking.id db) payment_id event_id payload
                (audit AuditAction.payment_webhook_accepted payment_id db) after ending new
        ])
