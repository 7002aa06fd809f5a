-- ===== src/Bookings/Create.antt =====
-- bookings.service.ts: `create` as a whole, with what it does again for a request or a hold that is
-- known already.
use eventory.Common.{
  ℕ, Bool, true, false, ◌&&◌, ◌||◌, not, Option, none, some, List, [], map, nat_beq, if◌then◌else◌,
  ◌==◌, nat_eq, get_or, Text, text_eq, find_by,
}
use eventory.Errors.{
  Code, Failure, conflict, not_found, unique_violation, internal, Result, ok, err, throw_if,
  or_throw,
}
use eventory.Domain.{EventStatus}
use eventory.Seating.Redis.{Redis}
use eventory.Seating.Checks.{unique, sort, lists_differ}
use eventory.Bookings.Model.{Booking, Db, payment_of}
use eventory.Bookings.View.{BookingView, to_view}
use eventory.Bookings.Sale.{SaleDetails}
use eventory.Bookings.Idempotency.{
  IdempotencyRecord, CheckoutDb, Fingerprint, assert_idempotency_fingerprint, find_idempotent,
  store_idempotency, is_initialized,
}
use eventory.Bookings.Initialize.{Provider, Attempt, ensure_provider_payment}
use eventory.Bookings.Checkout.{
  CheckoutInput, RequestKey, Draft, Drawn, request_key, draft_checkout, has_hold,
  checkout_transaction,
}

-- `storeIdempotency` with the response in hand.
unfoldable pub stored_response :
    ℕ → Text → Text → Text → BookingView → CheckoutDb → Result BookingView × CheckoutDb
stored_response now user_id key fingerprint response db =
    let (stored, after) = store_idempotency now user_id key fingerprint response db in
    (elim stored [ err e ↦ err e | ok _ ↦ ok response ], after)

-- `ensureProviderPayment`, and the record of its response.
unfoldable pub finish_checkout :
    Provider
    → Attempt
    → ℕ
    → Text
    → Option RequestKey
    → Text
    → CheckoutDb
    → Result BookingView × CheckoutDb
finish_checkout provider attempt now user_id request booking_id db =
    let (result, core) = ensure_provider_payment provider false attempt booking_id db.core in
    let after : CheckoutDb = record db { core = core } in
    elim result [
      | err e ↦ (err e, after)
      | ok response ↦ elim request [
        | none ↦ (ok response, after)
        | some key ↦ stored_response now user_id key.key key.fingerprint response after
      ]
    ]

-- `findBooking`
abbrev pub is_booking_of : Text → Text → Booking → Bool
is_booking_of user_id id b = b.id == id && b.user_id == user_id

-- What follows in `replayIdempotency` for a booking that is not answered yet.
unfoldable pub resume :
    Provider
    → Attempt
    → ℕ
    → Text
    → IdempotencyRecord
    → Text
    → CheckoutDb
    → Result BookingView × CheckoutDb
resume provider attempt now user_id found booking_id db =
    let (result, core) = ensure_provider_payment provider false attempt booking_id db.core in
    let after : CheckoutDb = record db { core = core } in
    elim result [
      | err e ↦ (err e, after)
      | ok response ↦
          if is_initialized response
          then stored_response now user_id found.key (get_or found.request_fingerprint []) response
              after
          else (ok response, after)
    ]

unfoldable pub replay_idempotency :
    Provider → Attempt → ℕ → Text → IdempotencyRecord → CheckoutDb → Result BookingView × CheckoutDb
replay_idempotency provider attempt now user_id found db =
    if nat_beq found.response_status 201
    then (or_throw found.response_body internal, db)
    else elim found.booking_id [
      | none ↦ (err (conflict Code.idempotency_request_in_progress), db)
      | some booking_id ↦ elim (find_by (is_booking_of user_id booking_id) db.core.bookings) [
        | none ↦ (err (not_found Code.booking_not_found), db)
        | some _ ↦ resume provider attempt now user_id found booking_id db
      ]
    ]

-- A record of the key answers, or refuses, the request.
unfoldable pub answer_from :
    Provider
    → Attempt
    → ℕ
    → Text
    → RequestKey
    → IdempotencyRecord
    → CheckoutDb
    → Result BookingView × CheckoutDb
answer_from provider attempt now user_id request found db =
    elim (assert_idempotency_fingerprint found.request_fingerprint (some request.fingerprint)) [
      | err e ↦ (err e, db)
      | ok _ ↦ replay_idempotency provider attempt now user_id found db
    ]

abbrev pub differs_from : Booking → Text → Text → List Text → Option ℕ → Bool
differs_from booking user_id event_session_id seat_ids client_total_minor =
    not (booking.user_id == user_id)
    || (not (booking.event_session_id == event_session_id)
        || (lists_differ (sort (map (λ item. item.seat_id) booking.items)) (sort (unique seat_ids))
            || elim client_total_minor [
              | none ↦ false
              | some total ↦ not (nat_beq total booking.total_minor)
            ]))

abbrev pub assert_booking_matches_request :
    Booking → Text → Text → List Text → Option ℕ → Result (Unit {0})
assert_booking_matches_request booking user_id event_session_id seat_ids client_total_minor =
    throw_if (differs_from booking user_id event_session_id seat_ids client_total_minor)
      (conflict Code.hold_already_checked_out)

-- The end of the `catch`: the booking that the hold has already.
unfoldable pub recover_hold :
    Provider → Attempt → ℕ → Draft → Option ℕ → CheckoutDb → Result BookingView × CheckoutDb
recover_hold provider attempt now draft client_total_minor db =
    elim (find_by (has_hold draft.hold.hold_id) db.core.bookings) [
      | none ↦ (err unique_violation, db)
      | some existing ↦
          elim (assert_booking_matches_request existing draft.user_id draft.event_session_id
            draft.hold.seat_ids client_total_minor) [
              | err e ↦ (err e, db)
              | ok _ ↦
                  finish_checkout provider attempt now draft.user_id draft.request existing.id db
            ]
    ]

-- The `catch` for a violation of a unique index.
unfoldable pub recover_checkout :
    Provider → Attempt → ℕ → Draft → Option ℕ → CheckoutDb → Result BookingView × CheckoutDb
recover_checkout provider attempt now draft client_total_minor db = elim draft.request [
  | none ↦ recover_hold provider attempt now draft client_total_minor db
  | some request ↦
      let (existing, kept) = find_idempotent now request.key db in
      elim existing [
        | some found ↦ answer_from provider attempt now draft.user_id request found kept
        | none ↦ recover_hold provider attempt now draft client_total_minor kept
      ]
]

abbrev pub is_unique_violation : Failure → Bool
is_unique_violation unique_violation = true
is_unique_violation _ = false

-- The `try` and its `catch`.
unfoldable pub book :
    (Text → SaleDetails)
    → Provider
    → Attempt
    → ℕ
    → Drawn
    → Draft
    → Option ℕ
    → CheckoutDb
    → Result BookingView × CheckoutDb
book details provider attempt now drawn draft client_total_minor db =
    let caught : Result BookingView × CheckoutDb → Result BookingView × CheckoutDb =
      λ (result, after). elim result [
        | ok response ↦ (ok response, after)
        | err e ↦
            if is_unique_violation e
            then recover_checkout provider attempt now draft client_total_minor after
            else (err e, after)
      ] in
    elim (checkout_transaction details now drawn draft db) [
      | err e ↦ caught (err e, db)
      | ok (booking, booked) ↦
          caught
            (finish_checkout provider attempt now draft.user_id draft.request booking.id booked)
    ]

-- `create` with nothing in between.
unfoldable pub create :
    (Text → Text)
    → (Fingerprint → Text)
    → (r : Redis) → (Text → Option EventStatus)
    → (Text → SaleDetails)
    → Provider
    → Attempt
    → ℕ
    → Drawn
    → Text
    → CheckoutInput
    → r.Store
    → CheckoutDb
    → Result BookingView × CheckoutDb
create hash stringify r statuses details provider attempt now drawn user_id input store db =
    let request = request_key hash stringify user_id input in
    let (existing, kept) : Option IdempotencyRecord × CheckoutDb = elim request [
      | none ↦ (none, db)
      | some key ↦ find_idempotent now key.key db
    ] in
    let fresh : Result BookingView × CheckoutDb =
      elim (draft_checkout r statuses details now request user_id input store kept.core) [
        | err e ↦ (err e, kept)
        | ok draft ↦ book details provider attempt now drawn draft input.client_total_minor kept
      ] in
    elim request [
      | none ↦ fresh
      | some key ↦ elim existing [
        | none ↦ fresh
        | some found ↦ answer_from provider attempt now user_id key found kept
      ]
    ]

-- `get`: the booking after the call of the provider, or as it was found.
unfoldable pub get_booking : Provider → Attempt → Text → Text → Db → Result BookingView × Db
get_booking provider attempt user_id id db = elim (find_by (is_booking_of user_id id) db.bookings) [
  | none ↦ (err (not_found Code.booking_not_found), db)
  | some found ↦
      let (result, after) = ensure_provider_payment provider false attempt id db in
      (
        elim result [
          | err e ↦ err e
          | ok _ ↦ elim (find_by (is_booking_of user_id id) after.bookings) [
            | none ↦ ok (to_view found (payment_of id db))
            | some b ↦ ok (to_view b (payment_of id after))
          ]
        ],
        after,
      )
]
