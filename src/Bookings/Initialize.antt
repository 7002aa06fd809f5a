-- ===== src/Bookings/Initialize.antt =====
-- bookings.service.ts: `ensureProviderPayment` and `waitForProviderPayment`. The provider is the
-- interface of payments/payment-provider.ts: it creates a payment or fails with a message.
use eventory.Common.{
  ℕ, ◌+◌, ◌⊎◌, inl, inr, Bool, true, ◌&&◌, ◌||◌, not, Option, none, some, List, [], ◌∷◌, leb,
  if◌then◌else◌, ◌==◌, nat_eq, get_or, Text, text_eq, find_by,
}
use eventory.Errors.{Code, Failure, not_found, internal, Result, ok, err}
use eventory.Domain.{is_pending, is_payment_processing}
use eventory.Bookings.Model.{Booking, Payment, Db, is_booking, is_payment, payment_of}
use eventory.Bookings.View.{BookingView, to_view}
use eventory.Bookings.Provider.{
  CreatedPayment, provider_attempt_lease_ms, claim_attempt, persist_provider_payment,
  record_provider_failure,
}
use eventory.Bookings.Idempotency.{is_given}

-- The argument of `payments.create`.
pub record ProviderRequest : Type 0 where
  pub booking_id : Text
  pub amount_minor : ℕ
  pub currency : Text
  pub expires_at : ℕ
  pub idempotency_key : Text

pub record Provider : Type 0 where
  pub create : ProviderRequest → CreatedPayment ⊎ Text
  -- the message of an error that the database throws
  pub message_of : Failure → Text

-- When an attempt is made: `now` is read before the claim, `later` where its end is recorded, and
-- `polls` are the databases that `waitForProviderPayment` finds until its deadline.
pub record Attempt : Type 0 where
  pub id : Text
  pub now : ℕ
  pub later : ℕ
  pub polls : List Db

-- A poll that ends the wait.
abbrev pub is_over : Option Payment → Bool
is_over none = true
is_over (some p) = is_given p.provider_reference || not (is_payment_processing p.status)

-- `current` is the booking of the last poll.
unfoldable pub wait_for_provider_payment : Text → BookingView → List Db → BookingView
wait_for_provider_payment id current [] = current
wait_for_provider_payment id current (db ∷ polls) = elim (find_by (is_booking id) db.bookings) [
  | none ↦ current
  | some b ↦
      if is_over (payment_of id db)
      then to_view b (payment_of id db)
      else wait_for_provider_payment id (to_view b (payment_of id db)) polls
]

-- `staleProviderAttempt`
abbrev pub is_stale : ℕ → Payment → Bool
is_stale now p = is_payment_processing p.status && elim p.provider_attempted_at [
  | none ↦ true
  | some at ↦ leb (at + provider_attempt_lease_ms) now
]

-- `expiredBooking`
abbrev pub is_expired : ℕ → Booking → Bool
is_expired now b = not (is_pending b.status) || leb b.expires_at now

-- The call of the provider, under the claim, and the record of how it ended.
unfoldable pub call_provider : Provider → Attempt → Booking → Payment → Db → Result Db
call_provider provider attempt booking claimed db =
    let failed : Text → Result Db = λ message.
      record_provider_failure attempt.later attempt.now attempt.id claimed.id message db in
    elim (provider.create (record {
      booking_id = booking.id;
      amount_minor = claimed.amount_minor;
      currency = claimed.currency;
      expires_at = get_or claimed.expires_at booking.expires_at;
      idempotency_key = claimed.provider_idempotency_key;
    })) [
      | inr message ↦ failed message
      | inl created ↦
          elim (persist_provider_payment attempt.now attempt.later attempt.id claimed.id created
            db) [ ok after ↦ ok after | err e ↦ failed (provider.message_of e) ]
    ]

-- The booking as it is after the call.
abbrev pub refresh : Text → Db → Result BookingView × Db
refresh id db = elim (find_by (is_booking id) db.bookings) [
  | none ↦ (err internal, db)
  | some b ↦ (ok (to_view b (payment_of id db)), db)
]

-- The rest of `ensureProviderPayment`, for a payment that has no reference and may be claimed.
unfoldable pub initialize_payment :
    Provider → Attempt → Booking → Payment → Db → Result BookingView × Db
initialize_payment provider attempt booking payment db =
    let (count, claimed_db) = claim_attempt attempt.now attempt.id payment.id db in
    if not (count == 1)
    then (
      ok (wait_for_provider_payment booking.id (to_view booking (some payment)) attempt.polls),
      claimed_db,
    )
    else elim (find_by (is_payment payment.id) claimed_db.payments) [
      | none ↦ (err internal, claimed_db)
      | some claimed ↦ elim (call_provider provider attempt booking claimed claimed_db) [
        | err e ↦ (err e, claimed_db)
        | ok after ↦ refresh booking.id after
      ]
    ]

unfoldable pub ensure_provider_payment :
    Provider → Bool → Attempt → Text → Db → Result BookingView × Db
ensure_provider_payment provider allow_expired_recovery attempt booking_id db =
    elim (find_by (is_booking booking_id) db.bookings) [
      | none ↦ (err (not_found Code.booking_not_found), db)
      | some booking ↦ elim (payment_of booking_id db) [
        | none ↦ (ok (to_view booking none), db)
        | some payment ↦
            if is_given payment.provider_reference
              || (is_expired attempt.now booking
                  && not (allow_expired_recovery && is_stale attempt.now payment))
            then (ok (to_view booking (some payment)), db)
            else initialize_payment provider attempt booking payment db
      ]
    ]
