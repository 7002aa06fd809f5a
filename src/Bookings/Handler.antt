-- ===== src/Bookings/Handler.antt =====
-- bookings.service.ts: `handlePaymentWebhook` and what it calls outside `applyPaymentWebhook`.
use eventory.Common.{
  ℕ, Bool, true, false, ◌&&◌, ◌||◌, not, Option, none, some, ◌∷◌, nat_beq, if◌then◌else◌, ◌==◌,
  nat_eq, Text, text_eq, find_by,
}
use eventory.Errors.{
  Code, Failure, conflict, internal, Result, ok, err, ◌>>=◌, ◌>>◌, throw_if, or_throw,
}
use eventory.Domain.{
  PaymentEventStatus, ReconciliationStatus, is_confirmed, is_payment_succeeded, is_received,
}
use eventory.Bookings.Model.{
  Booking, Payment, WebhookType, payment_succeeded, payment_failed, payment_expired, PaymentEvent,
  InboxEntry, Reason, Db, is_booking, is_payment, is_event, payment_of, update_payment, audit,
  AuditAction, mark_payment_event, upsert_reconciliation,
}
use eventory.Bookings.View.{BookingView, to_view}
use eventory.Bookings.Inventory.{TicketSource}
use eventory.Bookings.Webhook.{
  WebhookPayload, view_of, expire_if_pending, require_reconciliation, is_success,
  apply_payment_webhook,
}

abbrev pub same_type : WebhookType → WebhookType → Bool
same_type payment_succeeded payment_succeeded = true
same_type payment_failed payment_failed = true
same_type payment_expired payment_expired = true
same_type _ _ = false

-- `PaymentWebhookResult`: a booking, or the acceptance of an event whose payment is not known.
pub data WebhookResult : Type 0 where
  settled_booking : BookingView → WebhookResult
  accepted : Text → WebhookResult

abbrev pub is_inbox_entry : Text → InboxEntry → Bool
is_inbox_entry provider_event_id entry = entry.provider_event_id == provider_event_id

abbrev pub entry_differs : InboxEntry → WebhookPayload → Bool
entry_differs entry payload =
    not (same_type entry.event_type payload.type)
    || (not (entry.reference == payload.reference)
        || (not (nat_beq entry.amount_minor payload.amount_minor)
            || not (entry.currency == payload.currency)))

-- `storeUnmatchedPaymentWebhook`: the upsert keeps an entry that is there.
unfoldable pub store_unmatched : WebhookPayload → Db → Result WebhookResult × Db
store_unmatched payload db = elim (find_by (is_inbox_entry payload.id) db.payment_webhook_inbox) [
  | none ↦ (
    ok (accepted payload.id),
    record db {
      payment_webhook_inbox =
          record {
            provider_event_id = payload.id;
            event_type = payload.type;
            reference = payload.reference;
            amount_minor = payload.amount_minor;
            currency = payload.currency;
            status = PaymentEventStatus.received;
          }
          ∷ db.payment_webhook_inbox;
    },
  )
  | some entry ↦ (
    throw_if (entry_differs entry payload) (conflict Code.payment_event_replay_mismatch)
        >> ok (accepted payload.id),
    db,
  )
]

abbrev pub is_provider_event : Text → PaymentEvent → Bool
is_provider_event provider_event_id e = e.provider_event_id == provider_event_id

-- `recordPaymentEvent`; `fresh` is the identifier of a row that it creates.
unfoldable pub record_payment_event : Text → Text → WebhookPayload → Db → PaymentEvent × Db
record_payment_event fresh payment_id payload db =
    elim (find_by (is_provider_event payload.id) db.payment_events) [
      | some event ↦ (event, db)
      | none ↦
          let event : PaymentEvent = record {
            id = fresh;
            payment_id = payment_id;
            provider_event_id = payload.id;
            event_type = payload.type;
            status = PaymentEventStatus.received;
            processed_at = none;
          } in
          (event, record db { payment_events = event ∷ db.payment_events })
    ]

abbrev pub assert_payment_event_matches : PaymentEvent → Text → WebhookPayload → Result (Unit {0})
assert_payment_event_matches event payment_id payload =
    throw_if (not (event.payment_id == payment_id) || not (same_type event.event_type payload.type))
      (conflict Code.payment_event_replay_mismatch)

abbrev pub assert_payment_amount : Payment → WebhookPayload → Result (Unit {0})
assert_payment_amount payment payload =
    throw_if
      (not (nat_beq payment.amount_minor payload.amount_minor)
        || not (payment.currency == payload.currency))
      (conflict Code.payment_amount_mismatch)

abbrev pub is_fulfillment_conflict : Failure → Bool
is_fulfillment_conflict (conflict Code.seat_already_sold) = true
is_fulfillment_conflict (conflict Code.ticket_capacity_reached) = true
is_fulfillment_conflict _ = false

-- The rest of `reconcileFulfillmentFailure`, for an event that is still `RECEIVED`.
unfoldable pub open_reconciliation :
    ℕ → Payment → Booking → Option Payment → Text → WebhookPayload → Db → Result (BookingView × Db)
open_reconciliation later payment booking own event_id payload db =
    if is_confirmed booking.status || is_payment_succeeded payment.status
    then ok (to_view booking own, mark_payment_event event_id PaymentEventStatus.ignored later db)
    else let marked = update_payment payment.id (require_reconciliation later) db in
      let expired = expire_if_pending booking marked in
      let opened =
        upsert_reconciliation
          (record {
            payment_id = payment.id;
            provider_event_id = payload.id;
            reason = Reason.payment_captured_but_fulfillment_failed;
            status = ReconciliationStatus.open_case;
          })
          (some Reason.payment_captured_but_fulfillment_failed) expired in
      let logged = audit AuditAction.payment_reconciliation_required payment.id opened in
      let done = mark_payment_event event_id PaymentEventStatus.processed later logged in
      view_of booking.id done

unfoldable pub reconcile_fulfillment_failure :
    ℕ → Text → Text → WebhookPayload → Db → Result (BookingView × Db)
reconcile_fulfillment_failure later payment_id event_id payload db = do
  payment ← or_throw (find_by (is_payment payment_id) db.payments) internal
  booking ← or_throw (find_by (is_booking payment.booking_id) db.bookings) internal
  event ← or_throw (find_by (is_event event_id) db.payment_events) internal
  let own = payment_of booking.id db
  if not (is_received event.status)
      then ok (to_view booking own, db)
      else open_reconciliation later payment booking own event_id payload db

-- The `try` of `handlePaymentWebhook`: the transaction, and what its failure leads to.
unfoldable pub settle :
    TicketSource
    → ℕ
    → ℕ
    → (Booking → Option Failure)
    → Text
    → Text
    → WebhookPayload
    → Db
    → Result BookingView × Db
settle source now later owned payment_id event_id payload db =
    elim (apply_payment_webhook source now later owned payment_id event_id payload db) [
      | ok (view, after) ↦ (ok view, after)
      | err e ↦
          if is_success payload.type && is_fulfillment_conflict e
          then elim (reconcile_fulfillment_failure later payment_id event_id payload db) [
            | ok (view, after) ↦ (ok view, after)
            | err f ↦ (err f, db)
          ]
          else (err e, db)
    ]

-- `where: { providerReference }`
abbrev pub has_reference : Text → Payment → Bool
has_reference reference p = elim p.provider_reference [ none ↦ false | some x ↦ x == reference ]

-- The handler up to the release of the seats, on a payload that is normalised.
unfoldable pub handle_normalized :
    TicketSource
    → ℕ
    → ℕ
    → (Booking → Option Failure)
    → Text
    → WebhookPayload
    → Db
    → Result WebhookResult × Db
handle_normalized source now later owned fresh payload db =
    elim (find_by (has_reference payload.reference) db.payments) [
      | none ↦ store_unmatched payload db
      | some payment ↦ elim (assert_payment_amount payment payload) [
        | err e ↦ (err e, db)
        | ok _ ↦
            let (event, recorded) = record_payment_event fresh payment.id payload db in
            elim (assert_payment_event_matches event payment.id payload) [
              | err e ↦ (err e, recorded)
              | ok _ ↦
                  let (result, after) =
                    settle source now later owned payment.id event.id payload recorded in
                  (elim result [ err e ↦ err e | ok view ↦ ok (settled_booking view) ], after)
            ]
      ]
    ]
