-- ===== src/Bookings/Cases.antt =====
-- The ways in which `applyPaymentWebhook` ends without an exception.
use eventory.Common.{
  sym, subst, ℕ, ◌≤◌, ◌<◌, ◌≡◌, ◌⊎◌, inl, inr, true, false, Option, none, some, arith, leb, nat_eq,
  Bool-cases, Option-cases, Text, text_eq, find_by, text_beq_iff, find_by-holds,
}
use eventory.Errors.{Failure, ok, err, Result-cases, Result}
use eventory.Domain.{is_pending, is_received}
use eventory.Bookings.Model.{
  Booking, Payment, PaymentEvent, Db, is_booking, is_payment, is_event, payment_of, audit,
  AuditAction,
}
use eventory.Bookings.View.{BookingView}
use eventory.Bookings.Inventory.{TicketSource, sell_items}
use eventory.Bookings.Webhook.{
  WebhookPayload, view_of, late_state, confirm_state, confirm, is_hold_unavailable, apply_success,
  failure_state, apply_failure, is_settled, is_success, ignored_state, apply_received,
  apply_payment_webhook,
}

-- A transaction that ends by reading its booking commits the state it reads.
pub view_of-state :
    (id : Text) (done : Db) (v : BookingView) (after : Db)
    → view_of id done ≡ ok (v, after)
    → after ≡ done
unfolding view_of
view_of-state id done v after e = ground arith

module _ (source : TicketSource) (now later : ℕ) (owned : Booking → Option Failure) where
  -- How an event that is received ends: the booking was settled already; the payment is late; the
  -- booking is confirmed; or the event is no success.
  pub data Ending (booking : Booking) (payment : Option Payment) (payment_id event_id : Text)
      (payload : WebhookPayload) (db after : Db) : Type 0 where
    ignored :
        is_settled booking payment ≡ true
        → after ≡ ignored_state later payment_id event_id db
        → Ending booking payment payment_id event_id payload db after
    late :
        is_settled booking payment ≡ false
        → is_success payload.type ≡ true
        → (is_pending booking.status ≡ false)
          ⊎ ((booking.expires_at ≤ now)
              ⊎ ((e : Failure) × (owned booking ≡ some e) × (is_hold_unavailable e ≡ true)))
        → after ≡ late_state later booking payment_id event_id payload db
        → Ending booking payment payment_id event_id payload db after
    confirmed :
        (sold : Db)
        → is_settled booking payment ≡ false
        → is_success payload.type ≡ true
        → is_pending booking.status ≡ true
        → now < booking.expires_at
        → owned booking ≡ none
        → sell_items source booking db ≡ ok sold
        → after ≡ confirm_state now later booking payment_id event_id sold
        → Ending booking payment payment_id event_id payload db after
    failed :
        is_settled booking payment ≡ false
        → is_success payload.type ≡ false
        → after ≡ failure_state now later booking payment payment_id event_id payload db
        → Ending booking payment payment_id event_id payload db after

  module _ (booking : Booking) (payment : Option Payment) (payment_id event_id : Text)
      (payload : WebhookPayload) (db after : Db) (v : BookingView) where
    confirm-Ending :
        is_settled booking payment ≡ false
        → is_success payload.type ≡ true
        → is_pending booking.status ≡ true
        → now < booking.expires_at
        → owned booking ≡ none
        → confirm source now later booking payment_id event_id db ≡ ok (v, after)
        → Ending booking payment payment_id event_id payload db after
    unfolding confirm
    confirm-Ending unsettled is_paid pending early mine e =
        elim (Result-cases (sell_items source booking db)) [
          | inr (f, s) ↦ absurd (ground arith)
          | inl (sold, s) ↦ confirmed sold unsettled is_paid pending early mine s (
              view_of-state booking.id (confirm_state now later booking payment_id event_id sold) v
                after (ground arith))
        ]

    success-Ending :
        is_settled booking payment ≡ false
        → is_success payload.type ≡ true
        → apply_success source now later (owned booking) booking payment_id event_id payload db
          ≡ ok (v, after)
        → Ending booking payment payment_id event_id payload db after
    unfolding apply_success
    success-Ending unsettled is_paid e =
        let lost =
          λ (h : view_of booking.id (late_state later booking payment_id event_id payload db)
              ≡ ok (v, after)).
            view_of-state booking.id (late_state later booking payment_id event_id payload db) v
              after h in
        elim (Bool-cases (is_pending booking.status)) [
          | inr closed ↦ late unsettled is_paid (inl closed) (lost (ground arith))
          | inl pending ↦ elim (Bool-cases (leb booking.expires_at now)) [
            | inl over ↦ late unsettled is_paid (inr (inl (ground arith))) (lost (ground arith))
            | inr early ↦ elim (Option-cases (owned booking)) [
              | inl mine ↦
                  confirm-Ending unsettled is_paid pending (ground arith) mine
                    (rw (pending, early, mine, apply_success) at e)
              | inr (f, refused) ↦ elim (Bool-cases (is_hold_unavailable f)) [
                | inl gone ↦
                    late unsettled is_paid (inr (inr (f, refused, gone)))
                      (lost (rw (pending, early, refused, gone, apply_success) at e))
                | inr other ↦
                    let thrown : ◌≡◌ {A = Result (BookingView × Db)} (err f) (ok (v, after)) =
                      rw (pending, early, refused, other, apply_success) at e in
                    absurd (ground arith)
              ]
            ]
          ]
        ]

    failure-state :
        apply_failure now later booking payment payment_id event_id payload db ≡ ok (v, after)
        → after ≡ failure_state now later booking payment payment_id event_id payload db
    unfolding apply_failure
    failure-state e = elim (Bool-cases (is_pending booking.status)) [
      | inr closed ↦ ground arith
      | inl pending ↦ view_of-state booking.id _ v after (rw (pending, apply_failure) at e)
    ]

  -- An event that is received ends in one of the four ways, with its acceptance on record.
  pub apply_received-Ending :
      (booking : Booking) (payment : Option Payment) (payment_id event_id : Text)
      (payload : WebhookPayload) (db after : Db) (v : BookingView)
      → apply_received source now later owned booking payment payment_id event_id payload db
        ≡ ok (v, after)
      → Ending booking payment payment_id event_id payload
          (audit AuditAction.payment_webhook_accepted payment_id db)
          after
  unfolding apply_received
  apply_received-Ending booking payment payment_id event_id payload db after v e =
      let accepted = audit AuditAction.payment_webhook_accepted payment_id db in
      elim (Bool-cases (is_settled booking payment)) [
        | inl over ↦ ignored over (ground arith)
        | inr unsettled ↦ elim (Bool-cases (is_success payload.type)) [
          | inl paid ↦
              success-Ending booking payment payment_id event_id payload accepted after v unsettled
                paid (rw (unsettled, paid, apply_received) at e)
          | inr other ↦ failed unsettled other (
              failure-state booking payment payment_id event_id payload accepted after v
                (rw (unsettled, other, apply_received) at e))
        ]
      ]

  -- What a call of `applyPaymentWebhook` that does not throw did.
  pub record Applied (payment_id event_id : Text) (payload : WebhookPayload) (db after : Db)
      : Type 0 where
    pub payment : Payment
    pub event : PaymentEvent
    pub booking : Booking
    pub payment_found : find_by (is_payment payment_id) db.payments ≡ some payment
    pub event_found : find_by (is_event event_id) db.payment_events ≡ some event
    pub booking_found : find_by (is_booking payment.booking_id) db.bookings ≡ some booking
    pub ending :
        ((is_received event.status ≡ false) × (after ≡ db))
        ⊎ ((is_received event.status ≡ true)
            × Ending booking
                (payment_of booking.id db)
                payment_id
                event_id
                payload
                (audit AuditAction.payment_webhook_accepted payment_id db)
                after)

  pub apply_payment_webhook-Applied :
      (payment_id event_id : Text) (payload : WebhookPayload) (db after : Db) (v : BookingView)
      → apply_payment_webhook source now later owned payment_id event_id payload db ≡ ok (v, after)
      → Applied payment_id event_id payload db after
  unfolding apply_payment_webhook
  apply_payment_webhook-Applied payment_id event_id payload db after v e =
      elim (Option-cases (find_by (is_payment payment_id) db.payments)) [
        | inl lost ↦ absurd (ground arith)
        | inr (p, fp) ↦ elim (Option-cases (find_by (is_event event_id) db.payment_events)) [
          | inl lost ↦ absurd (ground arith)
          | inr (ev, fe) ↦ elim (Option-cases (find_by (is_booking p.booking_id) db.bookings)) [
            | inl lost ↦ absurd (ground arith)
            | inr (b, fb) ↦ record {
              payment = p;
              event = ev;
              booking = b;
              payment_found = fp;
              event_found = fe;
              booking_found = fb;
              ending = elim (Bool-cases (is_received ev.status)) [
                | inr replay ↦ inl (replay, ground arith)
                | inl fresh ↦ inr (
                  fresh,
                  apply_received-Ending b (payment_of b.id db) payment_id event_id payload db after
                      v (rw (fp, fe, fb, fresh, apply_payment_webhook) at e),
                )
              ];
            }
          ]
        ]
      ]

  -- The booking that is found by the payment is found by its own identifier.
  pub Applied-found :
      (payment_id event_id : Text) (payload : WebhookPayload) (db after : Db)
      (a : Applied payment_id event_id payload db after)
      → find_by (is_booking a.booking.id) db.bookings ≡ some a.booking
  Applied-found payment_id event_id payload db after a =
      let same_id =
        (text_beq_iff a.booking.id a.payment.booking_id).0
          (find_by-holds _ db.bookings a.booking a.booking_found) in
      subst (λ i. find_by (is_booking i) db.bookings ≡ some a.booking) (sym same_id) a.booking_found
