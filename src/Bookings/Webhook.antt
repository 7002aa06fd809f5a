-- ===== src/Bookings/Webhook.antt =====
-- bookings.service.ts: `applyPaymentWebhook`, `markLatePayment`, `expirePendingBookingInTransaction`
-- and `reconcileFulfillmentFailure`. Each runs in one database transaction, under a lock on the
-- booking: it returns the new state, or throws and the state stays. `now` is the clock where the
-- code branches on it, `later` where it only stamps a row.
use eventory.Common.{
  ℕ, Bool, true, false, ◌&&◌, ◌||◌, not, Option, none, some, ltb, leb, if◌then◌else◌, nat_eq, Text,
  text_eq, find_by, update_where,
}
use eventory.Errors.{Code, Failure, conflict, forbidden, internal, Result, ok, err, ◌>>=◌, or_throw}
use eventory.Domain.{
  BookingStatus, PaymentStatus, PaymentEventStatus, ReconciliationStatus, is_pending, is_confirmed,
  is_payment_pending, is_payment_succeeded, needs_reconciliation, is_received,
}
use eventory.Bookings.Model.{
  Booking, Payment, WebhookType, payment_succeeded, payment_expired, Reason, Db, is_booking,
  is_payment, is_event, payment_of, set_booking_status, update_payment, audit, AuditAction, enqueue,
  Topic, mark_payment_event, upsert_reconciliation,
}
use eventory.Bookings.View.{BookingView, to_view}
use eventory.Bookings.Inventory.{TicketSource, sell_items}

pub record WebhookPayload : Type 0 where
  pub id : Text
  pub type : WebhookType
  pub reference : Text
  pub amount_minor : ℕ
  pub currency : Text

-- The end of a transaction: `findBookingInTransaction`, `toView`, and the commit.
unfoldable pub view_of : Text → Db → Result (BookingView × Db)
view_of id db = do
  booking ← or_throw (find_by (is_booking id) db.bookings) internal
  ok (to_view booking (payment_of id db), db)

-- `if (booking.status === PENDING) tx.booking.update({ status: EXPIRED })`
unfoldable pub expire_if_pending : Booking → Db → Db
expire_if_pending booking db =
    if is_pending booking.status then set_booking_status booking.id BookingStatus.expired db else db

-- The status and stamp that a captured payment without a fulfilment gets.
abbrev pub require_reconciliation : ℕ → Payment → Payment
require_reconciliation later p = record p {
  status = PaymentStatus.requires_reconciliation;
  reconciliation_required_at = some later;
}

-- The writes of `markLatePayment`.
unfoldable pub late_state : ℕ → Booking → Text → Text → WebhookPayload → Db → Db
late_state later booking payment_id event_id payload db =
    let reason =
      if is_pending booking.status
      then Reason.late_payment_after_hold_expiry
      else Reason.payment_after_terminal_booking in
    let marked = update_payment payment_id (require_reconciliation later) db in
    let expired = expire_if_pending booking marked in
    let opened =
      upsert_reconciliation
        (record {
          payment_id = payment_id;
          provider_event_id = payload.id;
          reason = reason;
          status = ReconciliationStatus.open_case;
        })
        none expired in
    let logged = audit AuditAction.payment_reconciliation_required payment_id opened in
    mark_payment_event event_id PaymentEventStatus.processed later logged

abbrev pub mark_late_payment :
    ℕ → Booking → Text → Text → WebhookPayload → Db → Result (BookingView × Db)
mark_late_payment later booking payment_id event_id payload db =
    view_of booking.id (late_state later booking payment_id event_id payload db)

-- `booking` with `payment` as it was loaded.
unfoldable pub expire_pending_booking : ℕ → Booking → Option Payment → Bool → Db → Bool × Db
expire_pending_booking now booking payment force db =
    if not (is_pending booking.status)
    then (false, db)
    else if elim payment [ none ↦ false | some p ↦ is_payment_succeeded p.status ]
    then (false, db)
    else if not force && ltb now booking.expires_at
    then (false, db)
    else let expired = set_booking_status booking.id BookingStatus.expired db in
      (
        true,
        elim payment [
          | none ↦ expired
          | some p ↦
              if is_payment_pending p.status
              then update_payment p.id (λ q. record q { status = PaymentStatus.expired }) expired
              else expired
        ],
      )

-- The writes that follow the sale of a booking's seats.
unfoldable pub confirm_state : ℕ → ℕ → Booking → Text → Text → Db → Db
confirm_state now later booking payment_id event_id sold =
    let confirmed : Db = record sold {
      bookings =
          update_where (is_booking booking.id)
            (λ b. record b { status = BookingStatus.confirmed; confirmed_at = some now })
            sold.bookings;
    } in
    let paid =
      update_payment payment_id
        (λ p. record p { status = PaymentStatus.succeeded; provider_last_error = none })
        confirmed in
    mark_payment_event event_id PaymentEventStatus.processed later
      (enqueue booking Topic.booking_confirmed paid)

-- The end of a `payment.succeeded` event whose booking can be fulfilled.
unfoldable pub confirm :
    TicketSource → ℕ → ℕ → Booking → Text → Text → Db → Result (BookingView × Db)
confirm source now later booking payment_id event_id db = do
  sold ← sell_items source booking db
  view_of booking.id (confirm_state now later booking payment_id event_id sold)

-- `isHoldUnavailable`: the refusals of `assertOwnedHold` that make a payment late.
abbrev pub is_hold_unavailable : Failure → Bool
is_hold_unavailable (conflict Code.hold_expired) = true
is_hold_unavailable (conflict Code.hold_not_owned) = true
is_hold_unavailable (forbidden Code.hold_expired) = true
is_hold_unavailable (forbidden Code.hold_not_owned) = true
is_hold_unavailable _ = false

-- A `payment.succeeded` event on a booking that is not settled yet. `owned` is what
-- `seating.assertOwnedHold` threw, if anything, for the booking's session, user, seats and hold.
unfoldable pub apply_success :
    TicketSource
    → ℕ
    → ℕ
    → Option Failure
    → Booking
    → Text
    → Text
    → WebhookPayload
    → Db
    → Result (BookingView × Db)
apply_success source now later owned booking payment_id event_id payload db =
    if not (is_pending booking.status) || leb booking.expires_at now
    then mark_late_payment later booking payment_id event_id payload db
    else elim owned [
      | none ↦ confirm source now later booking payment_id event_id db
      | some e ↦
          if is_hold_unavailable e
          then mark_late_payment later booking payment_id event_id payload db
          else err e
    ]

abbrev pub is_expiry : WebhookType → Bool
is_expiry payment_expired = true
is_expiry _ = false

-- What an event other than a success makes of a pending booking.
unfoldable pub close_pending : ℕ → Booking → Option Payment → Text → WebhookPayload → Db → Db
close_pending now booking payment payment_id payload db =
    if is_expiry payload.type || leb booking.expires_at now
    then (expire_pending_booking now booking payment true db).1
    else enqueue booking Topic.booking_payment_failed (
        set_booking_status booking.id BookingStatus.payment_failed
          (update_payment payment_id (λ p. record p { status = PaymentStatus.failed }) db))

-- The writes of an event other than a success.
unfoldable pub failure_state :
    ℕ → ℕ → Booking → Option Payment → Text → Text → WebhookPayload → Db → Db
failure_state now later booking payment payment_id event_id payload db =
    if not (is_pending booking.status)
    then mark_payment_event event_id PaymentEventStatus.ignored later db
    else mark_payment_event event_id PaymentEventStatus.processed later
        (close_pending now booking payment payment_id payload db)

-- The other events.
unfoldable pub apply_failure :
    ℕ → ℕ → Booking → Option Payment → Text → Text → WebhookPayload → Db → Result (BookingView × Db)
apply_failure now later booking payment payment_id event_id payload db =
    let done = failure_state now later booking payment payment_id event_id payload db in
    if not (is_pending booking.status)
    then ok (to_view booking payment, done)
    else view_of booking.id done

-- Whether the booking or its payment has reached a state that no event may leave.
abbrev pub is_settled : Booking → Option Payment → Bool
is_settled booking none = is_confirmed booking.status
is_settled booking (some p) =
    is_confirmed booking.status || (is_payment_succeeded p.status || needs_reconciliation p.status)

abbrev pub is_success : WebhookType → Bool
is_success payment_succeeded = true
is_success _ = false

-- The writes of an event on a booking that is settled.
unfoldable pub ignored_state : ℕ → Text → Text → Db → Db
ignored_state later payment_id event_id db =
    audit AuditAction.payment_webhook_ignored payment_id
      (mark_payment_event event_id PaymentEventStatus.ignored later db)

-- The rest of `applyPaymentWebhook`, for an event that is still `RECEIVED`.
unfoldable pub apply_received :
    TicketSource
    → ℕ
    → ℕ
    → (Booking → Option Failure)
    → Booking
    → Option Payment
    → Text
    → Text
    → WebhookPayload
    → Db
    → Result (BookingView × Db)
apply_received source now later owned booking payment payment_id event_id payload db =
    let accepted = audit AuditAction.payment_webhook_accepted payment_id db in
    if is_settled booking payment
    then ok (to_view booking payment, ignored_state later payment_id event_id accepted)
    else if is_success payload.type
    then apply_success source now later (owned booking) booking payment_id event_id payload accepted
    else apply_failure now later booking payment payment_id event_id payload accepted

unfoldable pub apply_payment_webhook :
    TicketSource
    → ℕ
    → ℕ
    → (Booking → Option Failure)
    → Text
    → Text
    → WebhookPayload
    → Db
    → Result (BookingView × Db)
apply_payment_webhook source now later owned payment_id event_id payload db = do
  payment ← or_throw (find_by (is_payment payment_id) db.payments) internal
  event ← or_throw (find_by (is_event event_id) db.payment_events) internal
  booking ← or_throw (find_by (is_booking payment.booking_id) db.bookings) internal
  let own = payment_of booking.id db
  if not (is_received event.status)
      then ok (to_view booking own, db)
      else apply_received source now later owned booking own payment_id event_id payload db
