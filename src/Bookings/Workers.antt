-- ===== src/Bookings/Workers.antt =====
-- bookings.service.ts: the whole of `handlePaymentWebhook`, and the passes that
-- booking-reconciliation.worker.ts makes (`recoverPendingProviderPayments`, `expirePendingBookings`,
-- `reconcilePendingPaymentWebhooks`). A pass takes one reading of the clock. An inbox entry has one of
-- the three types that its payload may have.
use eventory.Common.{
  ℕ, ◌+◌, min, max, Bool, true, false, ◌&&◌, ◌||◌, Option, none, some, List, [], ◌∷◌, map, ltb, leb,
  if◌then◌else◌, ◌==◌, nat_eq, is_none, length, take, Text, text_eq, trim, find_by, filter_by,
  update_where, count_by, order_by,
}
use eventory.Errors.{Code, Failure, conflict, not_found, internal, Result, ok, err, ◌>>=◌, or_throw}
use mathlib.Core.List.{reverse}
use eventory.Domain.{
  PaymentEventStatus, is_pending, is_confirmed, is_payment_pending, is_payment_processing,
  is_received,
}
use eventory.Seating.Redis.{Redis}
use eventory.Seating.Service.{World}
use eventory.Seating.Change.{release_confirmed_hold}
use eventory.Bookings.Model.{
  Booking, Payment, InboxEntry, Db, WebhookType, is_booking, payment_of, audit, AuditAction,
}
use eventory.Bookings.View.{BookingView}
use eventory.Bookings.Inventory.{TicketSource}
use eventory.Bookings.Webhook.{WebhookPayload, expire_pending_booking, apply_payment_webhook}
use eventory.Bookings.Handler.{
  WebhookResult, settled_booking, accepted, is_inbox_entry, has_reference, handle_normalized,
  record_payment_event,
}
use eventory.Bookings.Provider.{provider_attempt_lease_ms}
use eventory.Bookings.Initialize.{Provider, Attempt, ensure_provider_payment}

-- `Math.max(1, Math.min(limit, 200))`
abbrev pub safe_limit : ℕ → ℕ
safe_limit limit = max 1 (min limit 200)

-- The `where` of the expiry pass.
abbrev pub is_due : ℕ → Booking → Bool
is_due now b = is_pending b.status && leb b.expires_at now

abbrev pub expires_first : Booking → Booking → Bool
expires_first a b = ltb a.expires_at b.expires_at

abbrev pub due_bookings : ℕ → ℕ → Db → List Booking
due_bookings now limit db =
    take (safe_limit limit) (order_by expires_first (filter_by (is_due now) db.bookings))

-- The transaction of one candidate.
unfoldable pub expire_candidate : ℕ → Text → Db → Result (Bool × Db)
expire_candidate now id db = do
  booking ← or_throw (find_by (is_booking id) db.bookings) internal
  let (changed, after) = expire_pending_booking now booking (payment_of id db) false db
  ok (changed, if changed then audit AuditAction.booking_expired id after else after)

-- The loop, which an error ends.
unfoldable pub expire_candidates : ℕ → List Booking → Db → Result ℕ × Db
expire_candidates now [] db = (ok 0, db)
expire_candidates now (c ∷ rest) db = elim (expire_candidate now c.id db) [
  | err e ↦ (err e, db)
  | ok (changed, after) ↦
      let (expired, last) = expire_candidates now rest after in
      (elim expired [ err e ↦ err e | ok n ↦ ok ((if changed then 1 else 0) + n) ], last)
]

unfoldable pub expire_pending_bookings : ℕ → ℕ → Db → Result ℕ × Db
expire_pending_bookings now limit db = expire_candidates now (due_bookings now limit db) db

-- The `where` of the recovery pass.
abbrev pub is_recoverable : ℕ → Payment → Bool
is_recoverable now p =
    is_none p.provider_reference
    && ((is_payment_pending p.status || is_payment_processing p.status)
        && elim p.provider_attempted_at [
          | none ↦ true
          | some at ↦ ltb (at + provider_attempt_lease_ms) now
        ])

-- The loop: `attempt_for` is the attempt that the call for a booking makes.
unfoldable pub recover_payments :
    Provider → (Text → Attempt) → List Payment → Db → Result (Unit {0}) × Db
recover_payments provider attempt_for [] db = (ok tt, db)
recover_payments provider attempt_for (p ∷ rest) db =
    let (result, after) =
      ensure_provider_payment provider true (attempt_for p.booking_id) p.booking_id db in
    elim result [ err e ↦ (err e, after) | ok _ ↦ recover_payments provider attempt_for rest after ]

-- `least_recent` is the order of `updatedAt`.
unfoldable pub recover_pending_provider_payments :
    Provider → (Text → Attempt) → (Payment → Payment → Bool) → ℕ → ℕ → Db → Result ℕ × Db
recover_pending_provider_payments provider attempt_for least_recent now limit db =
    let candidates =
      take (safe_limit limit)
        (order_by least_recent (filter_by (is_recoverable now) db.payments)) in
    let (result, after) = recover_payments provider attempt_for candidates db in
    (elim result [ err e ↦ err e | ok _ ↦ ok (length candidates) ], after)

-- The permanent errors of an inbox entry.
abbrev pub is_permanent : Failure → Bool
is_permanent (conflict Code.payment_amount_mismatch) = true
is_permanent (conflict Code.payment_event_replay_mismatch) = true
is_permanent _ = false

abbrev pub is_waiting : InboxEntry → Bool
is_waiting entry = is_received entry.status

abbrev pub is_waiting_entry : Text → InboxEntry → Bool
is_waiting_entry provider_event_id entry =
    is_inbox_entry provider_event_id entry && is_waiting entry

abbrev pub close_entry : Text → PaymentEventStatus → Db → Db
close_entry provider_event_id status db = record db {
  payment_webhook_inbox =
      update_where (is_waiting_entry provider_event_id) (λ e. record e { status = status })
        db.payment_webhook_inbox;
}

-- `ignorePaymentWebhookInbox`
unfoldable pub ignore_entry : Text → Db → Db
ignore_entry provider_event_id db =
    let after = close_entry provider_event_id PaymentEventStatus.ignored db in
    if count_by (is_waiting_entry provider_event_id) db.payment_webhook_inbox == 1
    then audit AuditAction.payment_webhook_ignored provider_event_id after
    else after

abbrev pub payload_of : InboxEntry → WebhookPayload
payload_of entry = record {
  id = entry.provider_event_id;
  type = entry.event_type;
  reference = entry.reference;
  amount_minor = entry.amount_minor;
  currency = entry.currency;
}

module _ (r : Redis) where
  open r use {Store}

  -- The bookings with the holds.
  pub record Site : Type 0 where
    pub core : Db
    pub seats : World Store

  -- `releaseConfirmedSeatHold`, which logs an error and goes on.
  unfoldable pub release_confirmed_seat_hold : Text → Site → Site
  release_confirmed_seat_hold booking_id site =
      elim (find_by (is_booking booking_id) site.core.bookings) [
        | none ↦ site
        | some b ↦
            if is_confirmed b.status
            then record site {
              seats =
                  (release_confirmed_hold r b.event_session_id (map (λ i. i.seat_id) b.items)
                    site.seats).1;
            }
            else site
      ]

  abbrev pub normalize_payload : (Text → Text) → WebhookPayload → WebhookPayload
  normalize_payload to_upper_case payload = record payload {
    reference = trim payload.reference;
    currency = to_upper_case (trim payload.currency);
  }

  module _ (source : TicketSource) (now later : ℕ) (owned : Booking → Option Failure)
      (to_upper_case : Text → Text) where
    -- The booking that the transaction confirms; a reconciliation after it releases nothing.
    unfoldable pub confirmed_booking : Text → WebhookPayload → Db → Option Text
    confirmed_booking fresh payload db =
        elim (find_by (has_reference payload.reference) db.payments) [
          | none ↦ none
          | some payment ↦
              let (event, recorded) = record_payment_event fresh payment.id payload db in
              elim (apply_payment_webhook source now later owned payment.id event.id payload
                recorded) [
                  | err _ ↦ none
                  | ok (view, _) ↦ if is_confirmed view.status then some view.id else none
                ]
        ]

    -- `fresh` is the identifier of the event's row, if one is created.
    unfoldable pub handle_payment_webhook :
        Text → WebhookPayload → Site → Result WebhookResult × Site
    handle_payment_webhook fresh payload site =
        let normalized = normalize_payload to_upper_case payload in
        let (result, core) = handle_normalized source now later owned fresh normalized site.core in
        let after : Site = record site { core = core } in
        let released : Site = elim (confirmed_booking fresh normalized site.core) [
          | none ↦ after
          | some id ↦ release_confirmed_seat_hold id after
        ] in
        (result, elim result [ ok (settled_booking _) ↦ released | _ ↦ after ])

    -- `completeMockPayment`; `id` is the identity of the event that it makes up.
    unfoldable pub complete_mock_payment :
        Text → Text → Text → WebhookType → Site → Result BookingView × Site
    complete_mock_payment fresh id reference outcome site =
        elim (find_by (has_reference reference) site.core.payments) [
          | none ↦ (err (not_found Code.payment_not_found), site)
          | some payment ↦
              let (result, after) =
                handle_payment_webhook fresh
                  (record {
                    id = id;
                    type = outcome;
                    reference = reference;
                    amount_minor = payment.amount_minor;
                    currency = payment.currency;
                  })
                  site in
              (
                elim result [
                  | err e ↦ err e
                  | ok (settled_booking view) ↦ ok view
                  | ok (accepted _) ↦ err (not_found Code.payment_not_found)
                ],
                after,
              )
        ]

    -- One entry of the inbox: whether it was processed, or the error that ends the pass.
    unfoldable pub process_entry : Text → InboxEntry → Site → Result Bool × Site
    process_entry fresh entry site =
        if is_none (find_by (has_reference entry.reference) site.core.payments)
        then (ok false, site)
        else (let (result, after) = handle_payment_webhook fresh (payload_of entry) site in
            elim result [
              | err e ↦
                  if is_permanent e
                  then (
                    ok false,
                    record after { core = ignore_entry entry.provider_event_id after.core },
                  )
                  else (err e, after)
              | ok (accepted _) ↦ (ok false, after)
              | ok (settled_booking _) ↦ (
                ok true,
                record after {
                  core =
                      close_entry entry.provider_event_id PaymentEventStatus.processed after.core;
                },
              )
            ])

    unfoldable pub process_entries : (Text → Text) → List InboxEntry → Site → Result ℕ × Site
    process_entries fresh_for [] site = (ok 0, site)
    process_entries fresh_for (entry ∷ rest) site =
        let (result, after) = process_entry (fresh_for entry.provider_event_id) entry site in
        elim result [
          | err e ↦ (err e, after)
          | ok processed ↦
              let (count, last) = process_entries fresh_for rest after in
              (elim count [ err e ↦ err e | ok n ↦ ok ((if processed then 1 else 0) + n) ], last)
        ]

    -- The entries are listed with the newest first.
    unfoldable pub reconcile_pending_payment_webhooks : (Text → Text) → ℕ → Site → Result ℕ × Site
    reconcile_pending_payment_webhooks fresh_for limit site =
        process_entries fresh_for
          (take (safe_limit limit) (reverse (filter_by is_waiting site.core.payment_webhook_inbox)))
          site
