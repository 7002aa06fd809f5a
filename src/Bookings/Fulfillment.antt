-- ===== src/Bookings/Fulfillment.antt =====
-- What `handlePaymentWebhook` makes of a captured payment that cannot be fulfilled
-- (`reconcileFulfillmentFailure`).
use eventory.Common.{
  ℕ, ◌≡◌, refl, sym, ◌∙◌, subst, ◌≢◌, inl, inr, true, false, Option, some, arith, if◌then◌else◌,
  nat_eq, Bool-cases, some_eq, Text, text_beq_iff, text_eq, find_by, update_where, find_by-holds,
  find_by-update_where,
}
use eventory.Errors.{Failure, ok, err}
use eventory.Domain.{
  BookingStatus, PaymentStatus, PaymentEventStatus, ReconciliationStatus, is_pending, is_confirmed,
  is_payment_succeeded, is_received,
}
use eventory.Bookings.Model.{
  Booking, Payment, PaymentEvent, Reason, Db, is_booking, is_payment, is_event, payment_of,
  update_payment, audit, AuditAction, mark_payment_event, upsert_reconciliation,
}
use eventory.Bookings.View.{BookingView, to_view}
use eventory.Bookings.Inventory.{TicketSource}
use eventory.Bookings.Webhook.{
  WebhookPayload, view_of, expire_if_pending, require_reconciliation, is_success,
  apply_payment_webhook,
}
use eventory.Bookings.Handler.{
  is_fulfillment_conflict, open_reconciliation, reconcile_fulfillment_failure, settle,
}
use eventory.Bookings.Settlement.{upsert-keeps}
use eventory.Bookings.Capture.{IsReconciled, upsert-HasCase, payment_status-update}

-- The writes of `reconcileFulfillmentFailure`.
unfoldable opened_state : ℕ → Booking → Text → Text → WebhookPayload → Db → Db
opened_state later booking payment_id event_id payload db =
    mark_payment_event event_id PaymentEventStatus.processed later (
      audit AuditAction.payment_reconciliation_required payment_id (
        upsert_reconciliation
          (record {
            payment_id = payment_id;
            provider_event_id = payload.id;
            reason = Reason.payment_captured_but_fulfillment_failed;
            status = ReconciliationStatus.open_case;
          })
          (some Reason.payment_captured_but_fulfillment_failed)
          (expire_if_pending booking
            (update_payment payment_id (require_reconciliation later) db))))

opened_state-bookings :
    (later : ℕ) (booking : Booking) (payment_id event_id : Text) (payload : WebhookPayload)
    (db : Db)
    → (opened_state later booking payment_id event_id payload db).bookings ≡ (
        if is_pending booking.status
        then update_where
            (is_booking booking.id)
            (λ b. record b { status = BookingStatus.expired })
            db.bookings
        else db.bookings)
unfolding opened_state audit mark_payment_event expire_if_pending
opened_state-bookings later booking payment_id event_id payload db =
    (upsert-keeps _ _ _).0 ∙ ground arith

opened_state-payments :
    (later : ℕ) (booking : Booking) (payment_id event_id : Text) (payload : WebhookPayload)
    (db : Db)
    → (opened_state later booking payment_id event_id payload db).payments
      ≡ update_where (is_payment payment_id) (require_reconciliation later) db.payments
unfolding opened_state audit mark_payment_event expire_if_pending
opened_state-payments later booking payment_id event_id payload db =
    (upsert-keeps _ _ _).1 ∙ ground arith

module _ (later : ℕ) (booking : Booking) (payment : Payment) (payment_id event_id : Text)
    (payload : WebhookPayload) (db : Db)
    (fb : find_by (is_booking booking.id) db.bookings ≡ some booking)
    (fp : find_by (is_payment payment_id) db.payments ≡ some payment) where
  opened_state-found :
      ((b : Booking) × (find_by
            (is_booking booking.id)
            (opened_state later booking payment_id event_id payload db).bookings
          ≡ some b)
        × (b.status ≢ BookingStatus.pending))
  opened_state-found = elim (Bool-cases (is_pending booking.status)) [
    | inl pending ↦ (
      record booking { status = BookingStatus.expired },
      rw (
        opened_state-bookings later booking payment_id event_id payload db,
        pending,
        find_by-update_where (is_booking booking.id)
            (λ b. record b { status = BookingStatus.expired }) db.bookings (λ b. refl),
        fb,
      ),
      (λ h. cc),
    )
    | inr closed ↦ (
      booking,
      rw (opened_state-bookings later booking payment_id event_id payload db, closed, fb),
      (λ h. ground arith),
    )
  ]

  opened_state-IsReconciled :
      IsReconciled payment_id booking.id (opened_state later booking payment_id event_id payload db)
  unfolding opened_state audit mark_payment_event
  opened_state-IsReconciled =
      let (b, found, moved) = opened_state-found in
      record {
        payment = rw (opened_state-payments later booking payment_id event_id payload db) (
            payment_status-update payment_id (require_reconciliation later)
              PaymentStatus.requires_reconciliation db.payments payment fp (λ x. (refl, refl)));
        booking = rw found (λ h. moved (some_eq h));
        case = upsert-HasCase _ (some Reason.payment_captured_but_fulfillment_failed) _;
      }

open_reconciliation-ok :
    (later : ℕ) (payment : Payment) (booking : Booking) (own : Option Payment) (event_id : Text)
    (payload : WebhookPayload) (db : Db) (b : Booking)
    → is_confirmed booking.status ≡ false
    → is_payment_succeeded payment.status ≡ false
    → find_by
        (is_booking booking.id)
        (opened_state later booking payment.id event_id payload db).bookings
      ≡ some b
    → open_reconciliation later payment booking own event_id payload db ≡ (
        let after = opened_state later booking payment.id event_id payload db in
        ok (to_view b (payment_of booking.id after), after))
unfolding open_reconciliation opened_state view_of
open_reconciliation-ok later payment booking own event_id payload db b unconfirmed unpaid found =
    rw (unconfirmed, unpaid, open_reconciliation, found, view_of)

reconcile-ok :
    (later : ℕ) (payment_id event_id : Text) (payload : WebhookPayload) (db : Db) (p : Payment)
    (b b2 : Booking) (ev : PaymentEvent)
    → find_by (is_payment payment_id) db.payments ≡ some p
    → find_by (is_booking p.booking_id) db.bookings ≡ some b
    → find_by (is_event event_id) db.payment_events ≡ some ev
    → is_received ev.status ≡ true
    → is_confirmed b.status ≡ false
    → is_payment_succeeded p.status ≡ false
    → find_by (is_booking b.id) (opened_state later b p.id event_id payload db).bookings ≡ some b2
    → reconcile_fulfillment_failure later payment_id event_id payload db ≡ (
        let after = opened_state later b p.id event_id payload db in
        ok (to_view b2 (payment_of b.id after), after))
unfolding reconcile_fulfillment_failure
reconcile-ok later payment_id event_id payload db p b b2 ev fp fb fe received unconfirmed unpaid
      found =
    rw (fp, fb, fe, reconcile_fulfillment_failure, received)
      (open_reconciliation-ok later p b (payment_of b.id db) event_id payload db b2 unconfirmed
        unpaid found)

settle-failed :
    (source : TicketSource) (now later : ℕ) (owned : Booking → Option Failure)
    (payment_id event_id : Text) (payload : WebhookPayload) (db after : Db) (e : Failure)
    (v : BookingView)
    → apply_payment_webhook source now later owned payment_id event_id payload db ≡ err e
    → is_success payload.type ≡ true
    → is_fulfillment_conflict e ≡ true
    → reconcile_fulfillment_failure later payment_id event_id payload db ≡ ok (v, after)
    → settle source now later owned payment_id event_id payload db ≡ (ok v, after)
unfolding settle
settle-failed source now later owned payment_id event_id payload db after e v failed paid gone
      done =
    rw (settle, failed, settle, paid, gone, done)

-- A captured payment whose seats or tickets are gone is put up for reconciliation: if the
-- transaction of a `payment.succeeded` event fails because a seat is sold already or a ticket type
-- is at its capacity, the event is still to be processed, the booking is not confirmed and the
-- payment has not succeeded, then the handler returns a booking, and the payment requires
-- reconciliation, the booking is no longer pending and a case of the payment exists.
pub settle-IsReconciled :
    (source : TicketSource) (now later : ℕ) (owned : Booking → Option Failure)
    (payment_id event_id : Text) (payload : WebhookPayload) (db : Db) (e : Failure) (p : Payment)
    (b : Booking) (ev : PaymentEvent)
    → apply_payment_webhook source now later owned payment_id event_id payload db ≡ err e
    → is_fulfillment_conflict e ≡ true
    → is_success payload.type ≡ true
    → find_by (is_payment payment_id) db.payments ≡ some p
    → find_by (is_booking p.booking_id) db.bookings ≡ some b
    → find_by (is_event event_id) db.payment_events ≡ some ev
    → is_received ev.status ≡ true
    → is_confirmed b.status ≡ false
    → is_payment_succeeded p.status ≡ false
    → (v : BookingView) × (after : Db) × (settle source now later owned payment_id event_id payload
          db
        ≡ (ok v, after))
      × IsReconciled payment_id b.id after
settle-IsReconciled source now later owned payment_id event_id payload db e p b ev failed gone paid
      fp fb fe received unconfirmed unpaid =
    let same_b = (text_beq_iff b.id p.booking_id).0 (find_by-holds _ db.bookings b fb) in
    let same_p = (text_beq_iff p.id payment_id).0 (find_by-holds _ db.payments p fp) in
    let fb2 = subst (λ i. find_by (is_booking i) db.bookings ≡ some b) (sym same_b) fb in
    let fp2 = subst (λ i. find_by (is_payment i) db.payments ≡ some p) (sym same_p) fp in
    let (b2, found, moved) = opened_state-found later b p p.id event_id payload db fb2 fp2 in
    let after = opened_state later b p.id event_id payload db in
    let view = to_view b2 (payment_of b.id after) in
    (
      view,
      after,
      settle-failed source now later owned payment_id event_id payload db after e view failed paid
          gone
          (reconcile-ok later payment_id event_id payload db p b b2 ev fp fb fe received unconfirmed
            unpaid found),
      subst (λ i. IsReconciled i b.id after) same_p
          (opened_state-IsReconciled later b p p.id event_id payload db fb2 fp2),
    )
