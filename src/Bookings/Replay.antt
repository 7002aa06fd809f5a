-- ===== src/Bookings/Replay.antt =====
-- A payment event that is delivered again (`applyPaymentWebhook` after it has processed the event).
use eventory.Common.{
  ℕ, ◌≡◌, refl, ap, ◌∙◌, ◌⊎◌, inl, inr, false, Option, some, arith, nat_eq, Bool-cases, some_eq,
  Text, text_eq, find_by, find_by-update_where,
}
use eventory.Errors.{Failure, ok}
use eventory.Domain.{PaymentEventStatus, is_pending, is_received}
use eventory.Bookings.Model.{
  Booking, Payment, PaymentEvent, Db, is_event, payment_of, audit, AuditAction, mark_payment_event,
  enqueue,
}
use eventory.Bookings.View.{BookingView}
use eventory.Bookings.Inventory.{TicketSource}
use eventory.Bookings.Webhook.{
  WebhookPayload, late_state, expire_if_pending, confirm_state, failure_state, close_pending,
  expire_pending_booking, ignored_state, apply_payment_webhook,
}
use eventory.Bookings.Cases.{
  Ending, ignored, late, confirmed, failed, apply_payment_webhook-Applied,
}
use eventory.Bookings.Settlement.{sell_items-keeps, upsert-keeps, event_status}

-- The event is closed: it is on record as processed or ignored.
abbrev pub IsClosed : Text → Db → Type 0
IsClosed event_id db =
    (event_status event_id db ≡ some PaymentEventStatus.processed)
    ⊎ (event_status event_id db ≡ some PaymentEventStatus.ignored)

marked-event :
    (id : Text) (s : PaymentEventStatus) (later : ℕ) (mid : Db) (ev : PaymentEvent)
    → find_by (is_event id) mid.payment_events ≡ some ev
    → event_status id (mark_payment_event id s later mid) ≡ some s
unfolding mark_payment_event
marked-event id s later mid ev found = rw (
  find_by-update_where (is_event id) (λ e. record e { status = s; processed_at = some later })
      mid.payment_events (λ e. refl),
  found,
)

close_pending-events :
    (now : ℕ) (booking : Booking) (payment : Option Payment) (payment_id : Text)
    (payload : WebhookPayload) (db : Db)
    → (close_pending now booking payment payment_id payload db).payment_events ≡ db.payment_events
unfolding close_pending expire_pending_booking enqueue
close_pending-events now booking payment payment_id payload db = ground arith

module _ (source : TicketSource) (now later : ℕ) (owned : Booking → Option Failure) where
  Ending-IsClosed :
      (booking : Booking) (payment : Option Payment) (payment_id event_id : Text)
      (payload : WebhookPayload) (db after : Db) (ev : PaymentEvent)
      → find_by (is_event event_id) db.payment_events ≡ some ev
      → Ending source now later owned booking payment payment_id event_id payload db after
      → IsClosed event_id after
  unfolding ignored_state audit late_state expire_if_pending confirm_state enqueue failure_state
  Ending-IsClosed booking payment payment_id event_id payload db after ev found (ignored s e) =
      rw e (inr (marked-event event_id _ later db ev found))
  Ending-IsClosed booking payment payment_id event_id payload db after ev found (late s p r e) =
      rw e (
        inl (
          marked-event event_id PaymentEventStatus.processed later _ ev
            (ap (find_by (is_event event_id)) ((upsert-keeps _ _ _).2 ∙ ground arith) ∙ found)))
  Ending-IsClosed booking payment payment_id event_id payload db after ev found
        (confirmed sold s p n t o m e) =
      rw e (
        inl (
          marked-event event_id PaymentEventStatus.processed later _ ev (
            ap (find_by (is_event event_id)) (sell_items-keeps source booking db sold m).2
            ∙ found)))
  Ending-IsClosed booking payment payment_id event_id payload db after ev found (failed s p e) =
      elim (Bool-cases (is_pending booking.status)) [
        | inl pending ↦
            rw (e, pending)
              (inl (
                marked-event event_id PaymentEventStatus.processed later _ ev (
                  ap (find_by (is_event event_id))
                    (close_pending-events now booking payment payment_id payload db)
                  ∙ found)))
        | inr closed ↦ rw (e, closed) (inr (marked-event event_id _ later db ev found))
      ]

  -- If an event that is still to be processed is applied without an exception, then it is on
  -- record as processed or ignored.
  pub apply_payment_webhook-IsClosed :
      (payment_id event_id : Text) (payload : WebhookPayload) (db after : Db) (v : BookingView)
      → event_status event_id db ≡ some PaymentEventStatus.received
      → apply_payment_webhook source now later owned payment_id event_id payload db ≡ ok (v, after)
      → IsClosed event_id after
  unfolding audit
  apply_payment_webhook-IsClosed payment_id event_id payload db after v received e =
      let a =
        apply_payment_webhook-Applied source now later owned payment_id event_id payload db after v
          e in
      let status : some a.event.status ≡ some PaymentEventStatus.received =
        rw a.event_found at received in
      elim a.ending [
        | inl (replayed, _) ↦ absurd (ground arith)
        | inr (_, ending) ↦
            Ending-IsClosed a.booking (payment_of a.booking.id db) payment_id event_id payload
              (audit AuditAction.payment_webhook_accepted payment_id db) after a.event a.event_found
              ending
      ]

closed-ne-received :
    (event_id : Text) (db : Db) (ev : PaymentEvent)
    → find_by (is_event event_id) db.payment_events ≡ some ev
    → IsClosed event_id db
    → is_received ev.status ≡ false
closed-ne-received event_id db ev found (inl h) =
    let s : some ev.status ≡ some PaymentEventStatus.processed = rw found at h in
    let t = some_eq s in rw t
closed-ne-received event_id db ev found (inr h) =
    let s : some ev.status ≡ some PaymentEventStatus.ignored = rw found at h in
    let t = some_eq s in rw t

-- Delivery is idempotent: once an event was applied, another delivery of it, at any later time,
-- with any payload and whatever the hold has become, that does not throw leaves the database.
pub apply_payment_webhook-replay :
    (source : TicketSource) (now later now2 later2 : ℕ) (owned owned2 : Booking → Option Failure)
    (payment_id event_id : Text) (payload payload2 : WebhookPayload) (db mid after : Db)
    (v w : BookingView)
    → event_status event_id db ≡ some PaymentEventStatus.received
    → apply_payment_webhook source now later owned payment_id event_id payload db ≡ ok (v, mid)
    → apply_payment_webhook source now2 later2 owned2 payment_id event_id payload2 mid
      ≡ ok (w, after)
    → after ≡ mid
apply_payment_webhook-replay source now later now2 later2 owned owned2 payment_id event_id payload
      payload2 db mid after v w received first second =
    let closed =
      apply_payment_webhook-IsClosed source now later owned payment_id event_id payload db mid v
        received first in
    let a =
      apply_payment_webhook-Applied source now2 later2 owned2 payment_id event_id payload2 mid after
        w second in
    let never = closed-ne-received event_id mid a.event a.event_found closed in
    elim a.ending [ inl (_, same) ↦ same | inr (fresh, _) ↦ absurd (ground arith) ]
