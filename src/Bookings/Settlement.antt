-- ===== src/Bookings/Settlement.antt =====
-- What becomes of a payment event: `applyPaymentWebhook` and the handler around it.
use mathlib.Core.Option
use eventory.Common.{
  ℕ, ◌≡◌, refl, ◌∙◌, subst, ◌⊎◌, inl, inr, Bool, true, ◌||◌, Option, none, some, List, arith, leb,
  ◌==◌, nat_eq, Bool-cases, Text, text_beq_iff, text_eq, find_by, update_where,
  find_by-update_where, find_by-update_other,
}
use eventory.Errors.{Failure, ok}
use eventory.Domain.{BookingStatus, PaymentStatus, PaymentEventStatus, is_pending}
use eventory.Bookings.Model.{
  Booking, Payment, PaymentEvent, Reconciliation, Reason, Db, is_booking, is_payment, is_event,
  payment_of, audit, AuditAction, mark_payment_event, upsert_reconciliation, set_booking_status,
  enqueue,
}
use eventory.Bookings.View.{BookingView}
use eventory.Bookings.Inventory.{TicketSource, sell_items}
use eventory.Bookings.Webhook.{
  WebhookPayload, late_state, expire_if_pending, confirm_state, failure_state, close_pending,
  expire_pending_booking, ignored_state, apply_payment_webhook, is_expiry,
}
use eventory.Bookings.Cases.{
  Ending, ignored, late, confirmed, failed, apply_payment_webhook-Applied, Applied-found,
}

-- The status of the first row with an identifier.
abbrev pub booking_status : Text → Db → Option BookingStatus
booking_status id db = Option.map (λ (b : Booking). b.status) (find_by (is_booking id) db.bookings)

abbrev pub payment_status : Text → Db → Option PaymentStatus
payment_status id db = Option.map (λ (p : Payment). p.status) (find_by (is_payment id) db.payments)

abbrev pub event_status : Text → Db → Option PaymentEventStatus
event_status id db =
    Option.map (λ (e : PaymentEvent). e.status) (find_by (is_event id) db.payment_events)

-- The moves of a booking that a payment event makes.
pub data Move : BookingStatus → BookingStatus → Type 0 where
  stay : {s : BookingStatus} → Move s s
  confirm : Move BookingStatus.pending BookingStatus.confirmed
  fail : Move BookingStatus.pending BookingStatus.payment_failed
  expire : Move BookingStatus.pending BookingStatus.expired

-- A sale of seats leaves the bookings, the payments and the events.
pub sell_items-keeps :
    (source : TicketSource) (booking : Booking) (db sold : Db)
    → sell_items source booking db ≡ ok sold
    → (sold.bookings ≡ db.bookings)
      × (sold.payments ≡ db.payments)
      × (sold.payment_events ≡ db.payment_events)
unfolding sell_items
sell_items-keeps source booking db sold e = ground arith

pub upsert-keeps :
    (c : Reconciliation) (reason : Option Reason) (db : Db)
    → ((upsert_reconciliation c reason db).bookings ≡ db.bookings)
      × ((upsert_reconciliation c reason db).payments ≡ db.payments)
      × ((upsert_reconciliation c reason db).payment_events ≡ db.payment_events)
unfolding upsert_reconciliation
upsert-keeps c reason db = ground arith

-- What the writes of an event do to the bookings: nothing, or one move of the pending booking.
abbrev TouchesRows : Booking → List Booking → List Booking → Type 0
TouchesRows booking before after =
    (after ≡ before)
    ⊎ ((s : BookingStatus) × (f : Booking → Booking) × (is_pending booking.status ≡ true)
        × Move BookingStatus.pending s
        × (after ≡ update_where (is_booking booking.id) f before)
        × ((b : Booking) → (f b).id ≡ b.id)
        × ((b : Booking) → (f b).status ≡ s))

abbrev Touches : Booking → Db → Db → Type 0
Touches booking db after = TouchesRows booking db.bookings after.bookings

late_state-Touches :
    (later : ℕ) (booking : Booking) (payment_id event_id : Text) (payload : WebhookPayload)
    (db : Db)
    → Touches booking db (late_state later booking payment_id event_id payload db)
unfolding late_state expire_if_pending audit mark_payment_event
late_state-Touches later booking payment_id event_id payload db =
    elim (Bool-cases (is_pending booking.status)) [
      | inl pending ↦ inr (
        BookingStatus.expired,
        (λ b. record b { status = BookingStatus.expired }),
        pending,
        expire,
        (upsert-keeps _ _ _).0 ∙ rw (pending, expire_if_pending),
        (λ b. refl),
        (λ b. refl),
      )
      | inr closed ↦ inl ((upsert-keeps _ _ _).0 ∙ rw (closed, expire_if_pending))
    ]

expire_pending_booking-bookings :
    (now : ℕ) (booking : Booking) (payment : Option Payment) (force : Bool) (db : Db)
    → ((expire_pending_booking now booking payment force db).1.bookings ≡ db.bookings)
      ⊎ ((is_pending booking.status ≡ true)
          × ((expire_pending_booking now booking payment force db).1.bookings
              ≡ (set_booking_status booking.id BookingStatus.expired db).bookings))
unfolding expire_pending_booking
expire_pending_booking-bookings now booking payment force db = ground arith

close_pending-Touches :
    (now : ℕ) (booking : Booking) (payment : Option Payment) (payment_id : Text)
    (payload : WebhookPayload) (db : Db)
    → is_pending booking.status ≡ true
    → Touches booking db (close_pending now booking payment payment_id payload db)
unfolding close_pending enqueue
close_pending-Touches now booking payment payment_id payload db pending =
    elim (Bool-cases (is_expiry payload.type || leb booking.expires_at now)) [
      | inl over ↦ elim (expire_pending_booking-bookings now booking payment true db) [
        | inl same ↦ inl (rw over same)
        | inr (_, moved) ↦ inr (
          BookingStatus.expired,
          (λ b. record b { status = BookingStatus.expired }),
          pending,
          expire,
          rw (over, close_pending) moved,
          (λ b. refl),
          (λ b. refl),
        )
      ]
      | inr early ↦ inr (
        BookingStatus.payment_failed,
        (λ b. record b { status = BookingStatus.payment_failed }),
        pending,
        fail,
        rw (early, close_pending),
        (λ b. refl),
        (λ b. refl),
      )
    ]

failure_state-Touches :
    (now later : ℕ) (booking : Booking) (payment : Option Payment) (payment_id event_id : Text)
    (payload : WebhookPayload) (db : Db)
    → Touches booking db (failure_state now later booking payment payment_id event_id payload db)
unfolding failure_state mark_payment_event
failure_state-Touches now later booking payment payment_id event_id payload db =
    elim (Bool-cases (is_pending booking.status)) [
      | inl pending ↦
          let same : (close_pending now booking payment payment_id payload db).bookings
              ≡ (failure_state now later booking payment payment_id event_id payload db).bookings =
            rw (pending, failure_state) in
          subst (TouchesRows booking db.bookings) same
            (close_pending-Touches now booking payment payment_id payload db pending)
      | inr closed ↦ inl (rw (closed, failure_state))
    ]

module _ (source : TicketSource) (now later : ℕ) (owned : Booking → Option Failure) where
  Ending-Touches :
      (booking : Booking) (payment : Option Payment) (payment_id event_id : Text)
      (payload : WebhookPayload) (db after : Db)
      → Ending source now later owned booking payment payment_id event_id payload db after
      → Touches booking db after
  unfolding ignored_state audit mark_payment_event confirm_state enqueue
  Ending-Touches booking payment payment_id event_id payload db after (ignored s e) = inl (rw e)
  Ending-Touches booking payment payment_id event_id payload db after (late s p r e) =
      rw e (late_state-Touches later booking payment_id event_id payload db)
  Ending-Touches booking payment payment_id event_id payload db after (failed s p e) =
      rw e (failure_state-Touches now later booking payment payment_id event_id payload db)
  Ending-Touches booking payment payment_id event_id payload db after
        (confirmed sold s p n t o m e) =
      inr (
        BookingStatus.confirmed,
        (λ b. record b { status = BookingStatus.confirmed; confirmed_at = some now }),
        n,
        confirm,
        rw (e, (sell_items-keeps source booking db sold m).0),
        (λ b. refl),
        (λ b. refl),
      )

-- A move of what is found: a booking does not appear or vanish, and its status moves.
abbrev pub StatusMove : Option BookingStatus → Option BookingStatus → Type 0
StatusMove none none = Unit {0}
StatusMove none (some t) = ⊥
StatusMove (some s) none = ⊥
StatusMove (some s) (some t) = Move s t

StatusMove-self : (o : Option BookingStatus) → StatusMove o o
StatusMove-self none = tt
StatusMove-self (some s) = stay

Touches-StatusMove :
    (booking : Booking) (db after : Db) (id : Text)
    → find_by (is_booking booking.id) db.bookings ≡ some booking
    → Touches booking db after
    → StatusMove (booking_status id db) (booking_status id after)
Touches-StatusMove booking db after id found (inl same) =
    rw same (StatusMove-self (booking_status id db))
Touches-StatusMove booking db after id found (inr (s, f, pending, move, e, keep, to)) =
    elim (Bool-cases (booking.id == id)) [
      | inl this ↦
          let same = (text_beq_iff booking.id id).0 this in
          subst (λ i. StatusMove (booking_status i db) (booking_status i after)) same
            (rw
              (
                e,
                find_by-update_where (is_booking booking.id) f db.bookings (λ b. rw (keep b)),
                found,
                to booking,
              )
              (let was : booking.status ≡ BookingStatus.pending = ground arith in rw was move))
      | inr other ↦
          rw
            (
              e,
              find_by-update_other (is_booking booking.id) (is_booking id) f db.bookings (λ b h. (
                ground (arith, text_beq_iff b.id booking.id),
                rw (keep b) (ground (arith, text_beq_iff b.id booking.id)),
              )),
            )
            (StatusMove-self (booking_status id db))
    ]

-- Whatever the event, each booking keeps its status or moves from `PENDING` to `CONFIRMED`,
-- `PAYMENT_FAILED` or `EXPIRED`, and none is added or removed.
pub apply_payment_webhook-StatusMove :
    (source : TicketSource) (now later : ℕ) (owned : Booking → Option Failure)
    (payment_id event_id : Text) (payload : WebhookPayload) (db after : Db) (v : BookingView)
    (id : Text)
    → apply_payment_webhook source now later owned payment_id event_id payload db ≡ ok (v, after)
    → StatusMove (booking_status id db) (booking_status id after)
unfolding audit
apply_payment_webhook-StatusMove source now later owned payment_id event_id payload db after v id
      e =
    let a =
      apply_payment_webhook-Applied source now later owned payment_id event_id payload db after v
        e in
    let found = Applied-found source now later owned payment_id event_id payload db after a in
    elim a.ending [
      | inl (_, same) ↦ rw same (StatusMove-self (booking_status id db))
      | inr (_, ending) ↦ Touches-StatusMove a.booking db after id found (
          Ending-Touches source now later owned a.booking (payment_of a.booking.id db) payment_id
            event_id payload (audit AuditAction.payment_webhook_accepted payment_id db) after
            ending)
    ]
