-- ===== src/Bookings/Provider.antt =====
-- bookings.service.ts: the claim of a payment for an attempt at the provider (in
-- `ensureProviderPayment`), and the two ways in which an attempt ends (`persistProviderPayment` and
-- `recordProviderFailure`). `attempt` is the identifier of the attempt.
use eventory.Common.{
  ℕ, ◌+◌, ◌*◌, Bool, true, false, ◌&&◌, ◌||◌, not, none, some, List, ◌++◌, ltb, if◌then◌else◌, ◌==◌,
  nat_eq, is_some, is_none, take, Text, codes, text_eq, find_by, update_where, count_by,
}
use eventory.Errors.{internal, Result, ok, ◌>>=◌, or_throw}
use eventory.Domain.{
  PaymentStatus, ReconciliationStatus, is_pending, is_payment_pending, is_payment_processing,
}
use eventory.Bookings.Model.{
  Booking, Payment, Reason, Db, is_booking, is_payment, update_payment, audit, AuditAction,
  upsert_reconciliation,
}
use eventory.Bookings.Webhook.{expire_if_pending}

abbrev pub provider_attempt_lease_ms : ℕ
provider_attempt_lease_ms = 30 * 1_000

-- What the provider answers with.
pub record CreatedPayment : Type 0 where
  pub provider_reference : Text
  pub client_secret : Text
  pub expires_at : ℕ

-- The `where` of the claim; an attempt is stale once its lease is over.
abbrev pub is_claimable : ℕ → Text → Payment → Bool
is_claimable now payment_id p =
    p.id == payment_id
    && (is_none p.provider_reference
        && ((is_payment_pending p.status || is_payment_processing p.status)
            && elim p.provider_attempted_at [
              | none ↦ true
              | some at ↦ ltb (at + provider_attempt_lease_ms) now
            ]))

-- The claim: how many rows it changes, and the tables after it.
unfoldable pub claim_attempt : ℕ → Text → Text → Db → ℕ × Db
claim_attempt now attempt payment_id db = (
  count_by (is_claimable now payment_id) db.payments,
  record db {
    payments =
        update_where (is_claimable now payment_id)
          (λ p. record p {
            status = PaymentStatus.processing;
            provider_attempt_id = some attempt;
            provider_attempted_at = some now;
            provider_last_error = none;
          })
          db.payments;
  },
)

abbrev pub has_attempt : Text → Payment → Bool
has_attempt attempt p = elim p.provider_attempt_id [ none ↦ false | some x ↦ x == attempt ]

-- The row of the booking is pending and not over at the time.
abbrev pub is_open_booking : ℕ → Text → List Booking → Bool
is_open_booking now id bookings = elim (find_by (is_booking id) bookings) [
  | none ↦ false
  | some b ↦ is_pending b.status && ltb now b.expires_at
]

-- The `WHERE` of the update that finishes an attempt.
abbrev pub is_finalizable : ℕ → Text → Text → List Booking → Payment → Bool
is_finalizable now attempt payment_id bookings p =
    p.id == payment_id
    && (has_attempt attempt p
        && (is_none p.provider_reference
            && (is_payment_processing p.status && is_open_booking now p.booking_id bookings)))

abbrev pub finish : CreatedPayment → Payment → Payment
finish created p = record p {
  provider_reference = some created.provider_reference;
  client_secret = some created.client_secret;
  expires_at = some created.expires_at;
  status = PaymentStatus.pending;
  provider_attempt_id = none;
  provider_attempted_at = none;
  provider_last_error = none;
}

-- The case of an attempt that ended after its booking.
abbrev pub open_case : Text → Text → Reason → Db → Db
open_case attempt payment_id reason db =
    audit AuditAction.payment_reconciliation_required payment_id (
      upsert_reconciliation
        (record {
          payment_id = payment_id;
          provider_event_id = codes "provider-attempt:" ++ attempt;
          reason = reason;
          status = ReconciliationStatus.open_case;
        })
        (some reason) db)

-- The end of `persistProviderPayment` for a booking that is over.
unfoldable pub reconcile_created : ℕ → Text → Text → Booking → CreatedPayment → Db → Db
reconcile_created later attempt payment_id booking created db =
    open_case attempt payment_id Reason.provider_response_after_booking_terminal (
      expire_if_pending booking (
        update_payment payment_id
          (λ p. record p {
            provider_reference = some created.provider_reference;
            client_secret = some created.client_secret;
            expires_at = some created.expires_at;
            status = PaymentStatus.requires_reconciliation;
            provider_attempt_id = none;
            provider_attempted_at = none;
            provider_last_error = none;
            reconciliation_required_at = some later;
          })
          db))

unfoldable pub persist_provider_payment : ℕ → ℕ → Text → Text → CreatedPayment → Db → Result Db
persist_provider_payment now later attempt payment_id created db =
    let is_mine = is_finalizable now attempt payment_id db.bookings in
    if count_by is_mine db.payments == 1
    then ok (record db { payments = update_where is_mine (finish created) db.payments })
    else (do
      payment ← or_throw (find_by (is_payment payment_id) db.payments) internal
      if is_some payment.provider_reference || not (has_attempt attempt payment) then ok db else (do
        booking ← or_throw (find_by (is_booking payment.booking_id) db.bookings) internal
        if is_payment_processing payment.status
              && (is_pending booking.status && ltb later booking.expires_at)
            then ok (update_payment payment_id (finish created) db)
            else ok (reconcile_created later attempt payment_id booking created db)))

-- `later` is the time at which the failure is recorded, `attempted_at` that of the attempt.
unfoldable pub record_provider_failure : ℕ → ℕ → Text → Text → Text → Db → Result Db
record_provider_failure later attempted_at attempt payment_id message db = do
  payment ← or_throw (find_by (is_payment payment_id) db.payments) internal
  if is_some payment.provider_reference || not (has_attempt attempt payment) then ok db else (do
    booking ← or_throw (find_by (is_booking payment.booking_id) db.bookings) internal
    if is_pending booking.status && ltb later booking.expires_at
        then ok (
            update_payment payment_id
              (λ p. record p {
                status = PaymentStatus.pending;
                provider_attempt_id = none;
                provider_last_error = some (take 500 message);
                provider_attempted_at = some attempted_at;
              })
              db)
        else ok (
            open_case attempt payment_id Reason.provider_error_after_booking_terminal (
              expire_if_pending booking (
                update_payment payment_id
                  (λ p. record p {
                    status = PaymentStatus.requires_reconciliation;
                    provider_attempt_id = none;
                    provider_last_error = some (take 500 message);
                    provider_attempted_at = none;
                    reconciliation_required_at = some later;
                  })
                  db))))
