-- ===== src/Bookings/Capture.antt =====
-- What becomes of the money, and of a payment event that comes twice (`applyPaymentWebhook`).
use mathlib.Core.Option
use eventory.Common.{
  ℕ, ◌≡◌, refl, sym, ◌∙◌, subst, ◌≢◌, inl, inr, true, Option, none, some, List, arith,
  if◌then◌else◌, nat_eq, Bool-cases, Option-cases, is_some, get_or, some_eq, Text, text_eq,
  text_beq_refl, find_by, update_where, find_by-update_where,
}
use eventory.Errors.{Failure, ok}
use eventory.Domain.{BookingStatus, PaymentStatus, PaymentEventStatus, is_pending}
use eventory.Bookings.Model.{
  Booking, Payment, Reconciliation, Reason, Db, is_booking, is_payment, is_case_of, payment_of,
  audit, AuditAction, mark_payment_event, upsert_reconciliation, enqueue,
}
use eventory.Bookings.View.{BookingView}
use eventory.Bookings.Inventory.{TicketSource}
use eventory.Bookings.Webhook.{
  WebhookPayload, is_success, is_settled, late_state, expire_if_pending, confirm_state,
  ignored_state, apply_payment_webhook, require_reconciliation,
}
use eventory.Bookings.Cases.{
  Ending, ignored, late, confirmed, failed, apply_payment_webhook-Applied, Applied-found,
}
use eventory.Bookings.Settlement.{
  booking_status, payment_status, event_status, sell_items-keeps, upsert-keeps,
}

-- After an upsert the payment has a case.
pub upsert-HasCase :
    (c : Reconciliation) (reason : Option Reason) (db : Db)
    → is_some
        (find_by (is_case_of c.payment_id) (upsert_reconciliation c reason db).reconciliations)
      ≡ true
unfolding upsert_reconciliation find_by
upsert-HasCase c reason db =
    elim (Option-cases (find_by (is_case_of c.payment_id) db.reconciliations)) [
      | inl fresh ↦ rw (fresh, upsert_reconciliation, text_beq_refl c.payment_id)
      | inr (d, there) ↦
          rw (there, upsert_reconciliation)
            (rw
              (find_by-update_where (is_case_of c.payment_id)
                (λ x. record x { reason = get_or reason x.reason }) db.reconciliations (λ x. refl))
              (rw there))
    ]

abbrev HasCase : Text → Db → Type 0
HasCase payment_id db = is_some (find_by (is_case_of payment_id) db.reconciliations) ≡ true

-- The status of the payment, once a row with its identifier was updated.
pub payment_status-update :
    (id : Text) (f : Payment → Payment) (s : PaymentStatus) (ps : List Payment) (p : Payment)
    → find_by (is_payment id) ps ≡ some p
    → ((x : Payment) → ((f x).id ≡ x.id) × ((f x).status ≡ s))
    → Option.map
        (λ (x : Payment). x.status)
        (find_by (is_payment id) (update_where (is_payment id) f ps))
      ≡ some s
payment_status-update id f s ps p found h =
    rw (find_by-update_where (is_payment id) f ps (λ x. rw ((h x).0)), found, (h p).1)

-- The books of a payment that was captured too late or in vain.
pub record IsReconciled (payment_id booking_id : Text) (db : Db) : Type 0 where
  pub payment : payment_status payment_id db ≡ some PaymentStatus.requires_reconciliation
  pub booking : booking_status booking_id db ≢ some BookingStatus.pending
  pub case : HasCase payment_id db

late_state-payments :
    (later : ℕ) (booking : Booking) (payment_id event_id : Text) (payload : WebhookPayload)
    (db : Db)
    → (late_state later booking payment_id event_id payload db).payments
      ≡ update_where (is_payment payment_id) (require_reconciliation later) db.payments
unfolding late_state audit mark_payment_event expire_if_pending
late_state-payments later booking payment_id event_id payload db =
    (upsert-keeps _ _ _).1 ∙ ground arith

late_state-HasCase :
    (later : ℕ) (booking : Booking) (payment_id event_id : Text) (payload : WebhookPayload)
    (db : Db)
    → HasCase payment_id (late_state later booking payment_id event_id payload db)
unfolding late_state audit mark_payment_event
late_state-HasCase later booking payment_id event_id payload db = upsert-HasCase _ none _

late_state-bookings :
    (later : ℕ) (booking : Booking) (payment_id event_id : Text) (payload : WebhookPayload)
    (db : Db)
    → (late_state later booking payment_id event_id payload db).bookings ≡ (
        if is_pending booking.status
        then update_where
            (is_booking booking.id)
            (λ b. record b { status = BookingStatus.expired })
            db.bookings
        else db.bookings)
unfolding late_state audit mark_payment_event expire_if_pending
late_state-bookings later booking payment_id event_id payload db =
    (upsert-keeps _ _ _).0 ∙ ground arith

late_state-not_pending :
    (later : ℕ) (booking : Booking) (payment_id event_id : Text) (payload : WebhookPayload)
    (db : Db)
    → find_by (is_booking booking.id) db.bookings ≡ some booking
    → booking_status booking.id (late_state later booking payment_id event_id payload db)
      ≢ some BookingStatus.pending
late_state-not_pending later booking payment_id event_id payload db found =
    rw (late_state-bookings later booking payment_id event_id payload db)
      (elim (Bool-cases (is_pending booking.status)) [
        | inl pending ↦
            rw
              (
                pending,
                find_by-update_where (is_booking booking.id)
                    (λ b. record b { status = BookingStatus.expired }) db.bookings (λ b. refl),
                found,
              )
              (λ h. cc)
        | inr closed ↦ rw (closed, found) (λ h. ground arith)
      ])

-- The fate of a `payment.succeeded` event.
pub data Fate (payment_id : Text) (booking : Booking) (db after : Db) : Type 0 where
  settled_before :
      is_settled booking (payment_of booking.id db) ≡ true
      → after.bookings ≡ db.bookings
      → after.payments ≡ db.payments
      → Fate payment_id booking db after
  fulfilled :
      booking_status booking.id after ≡ some BookingStatus.confirmed
      → payment_status payment_id after ≡ some PaymentStatus.succeeded
      → Fate payment_id booking db after
  reconciled : IsReconciled payment_id booking.id after → Fate payment_id booking db after

lift_accepted :
    (payment_id : Text) (booking : Booking) (db after : Db)
    → Fate payment_id booking (audit AuditAction.payment_webhook_accepted payment_id db) after
    → Fate payment_id booking db after
unfolding audit payment_of
lift_accepted payment_id booking db after (settled_before s b p) = settled_before s b p
lift_accepted payment_id booking db after (fulfilled b p) = fulfilled b p
lift_accepted payment_id booking db after (reconciled r) = reconciled r

module _ (source : TicketSource) (now later : ℕ) (owned : Booking → Option Failure) where
  Ending-Fate :
      (booking : Booking) (payment : Payment) (payment_id event_id : Text)
      (payload : WebhookPayload) (db after : Db)
      → find_by (is_payment payment_id) db.payments ≡ some payment
      → find_by (is_booking booking.id) db.bookings ≡ some booking
      → is_success payload.type ≡ true
      → Ending source now later owned booking
          (payment_of booking.id db)
          payment_id
          event_id
          payload
          db
          after
      → Fate payment_id booking db after
  unfolding ignored_state audit mark_payment_event confirm_state enqueue
  Ending-Fate booking payment payment_id event_id payload db after fp fb paid (ignored s e) =
      settled_before s (rw e) (rw e)
  Ending-Fate booking payment payment_id event_id payload db after fp fb paid (late s p r e) =
      reconciled (
        rw e (record {
          payment = rw (late_state-payments later booking payment_id event_id payload db) (
              payment_status-update payment_id (require_reconciliation later)
                PaymentStatus.requires_reconciliation db.payments payment fp (λ x. (refl, refl)));
          booking = late_state-not_pending later booking payment_id event_id payload db fb;
          case = late_state-HasCase later booking payment_id event_id payload db;
        }))
  Ending-Fate booking payment payment_id event_id payload db after fp fb paid (failed s p e) =
      absurd (ground arith)
  Ending-Fate booking payment payment_id event_id payload db after fp fb paid
        (confirmed sold s p n t o m e) =
      let keeps = sell_items-keeps source booking db sold m in
      fulfilled
        (rw (
          e,
          find_by-update_where (is_booking booking.id)
              (λ b. record b { status = BookingStatus.confirmed; confirmed_at = some now })
              sold.bookings (λ b. refl),
          keeps.0,
          fb,
        ))
        (rw e (
          payment_status-update payment_id
            (λ x. record x { status = PaymentStatus.succeeded; provider_last_error = none })
            PaymentStatus.succeeded sold.payments payment (rw keeps.1 fp) (λ x. (refl, refl))))

  -- A captured payment is not lost: if a `payment.succeeded` event that is still to be processed
  -- is applied, then its booking or payment was settled before and nothing of them changes, or the
  -- booking is now confirmed and the payment succeeded, or the payment requires reconciliation,
  -- the booking is no longer pending, and a reconciliation case of the payment exists.
  pub apply_payment_webhook-Fate :
      (payment_id event_id : Text) (payload : WebhookPayload) (db after : Db) (v : BookingView)
      (p : Payment) (b : Booking)
      → find_by (is_payment payment_id) db.payments ≡ some p
      → find_by (is_booking p.booking_id) db.bookings ≡ some b
      → event_status event_id db ≡ some PaymentEventStatus.received
      → is_success payload.type ≡ true
      → apply_payment_webhook source now later owned payment_id event_id payload db ≡ ok (v, after)
      → Fate payment_id b db after
  unfolding audit payment_of
  apply_payment_webhook-Fate payment_id event_id payload db after v p b fp fb received paid e =
      let a =
        apply_payment_webhook-Applied source now later owned payment_id event_id payload db after v
          e in
      let same_p : a.payment ≡ p = some_eq (sym a.payment_found ∙ fp) in
      let same_b : a.booking ≡ b = some_eq (
        sym (
          subst (λ x. find_by (is_booking x.booking_id) db.bookings ≡ some a.booking) same_p
            a.booking_found)
        ∙ fb) in
      let status : some a.event.status ≡ some PaymentEventStatus.received =
        rw a.event_found at received in
      subst (λ x. Fate payment_id x db after) same_b
        (elim a.ending [
          | inl (replayed, _) ↦ absurd (ground arith)
          | inr (_, ending) ↦ lift_accepted payment_id a.booking db after (
              Ending-Fate a.booking p payment_id event_id payload
                (audit AuditAction.payment_webhook_accepted payment_id db) after fp
                (Applied-found source now later owned payment_id event_id payload db after a) paid
                ending)
        ])
