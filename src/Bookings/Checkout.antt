-- ===== src/Bookings/Checkout.antt =====
-- bookings.service.ts: `create`, the checkout of a seat hold, in the parts that another request may
-- come between: what it reads, the transaction that books, and what follows it.
use eventory.Common.{
  ℕ, ◌+◌, ◌*◌, min, Bool, false, ◌||◌, not, Option, none, some, List, [], ◌∷◌, ◌++◌, map, leb,
  nat_beq, if◌then◌else◌, ◌==◌, nat_eq, get_or, any, Text, codes, text_eq, is_empty, trim,
}
use eventory.Errors.{Code, conflict, unique_violation, Result, ok, ◌>>=◌, ◌>>◌, throw_if}
use eventory.Domain.{BookingStatus, PaymentStatus, EventStatus}
use eventory.Seating.Redis.{Redis}
use eventory.Seating.Owned.{OwnedHold, assert_owned_hold, get_hold_by_token}
use eventory.Bookings.Model.{Booking, BookingItem, Payment, Db, audit, AuditAction, enqueue, Topic}
use eventory.Bookings.Sale.{
  SaleDetails, SaleAllocation, SaleSnapshot, load_allocations, assert_sale_snapshot, sale_snapshot,
  get_sale_snapshot, price_of, currency_or,
}
use eventory.Bookings.Idempotency.{
  IdempotencyRecord, CheckoutDb, Fingerprint, request_fingerprint, idempotency_key, has_key,
}

abbrev pub booking_ttl_ms : ℕ
booking_ttl_ms = 10 * 60 * 1_000

pub record CheckoutInput : Type 0 where
  pub event_session_id : Text
  pub seat_ids : List Text
  pub hold_token : Text
  pub idempotency_key : Option Text
  pub client_total_minor : Option ℕ

-- The hashed key of a request with its fingerprint.
pub record RequestKey : Type 0 where
  pub key : Text
  pub fingerprint : Text

-- What the transaction is given.
pub record Draft : Type 0 where
  pub user_id : Text
  pub event_session_id : Text
  pub hold : OwnedHold
  pub source : SaleSnapshot
  pub expires_at : ℕ
  pub request : Option RequestKey

-- The identifiers and the code that are drawn for a booking.
pub record Drawn : Type 0 where
  pub booking_id : Text
  pub public_code : Text
  pub payment_id : Text
  pub item_id : Text → Text

-- `normalizedKey` and `requestFingerprint`
unfoldable pub request_key :
    (Text → Text) → (Fingerprint → Text) → Text → CheckoutInput → Option RequestKey
request_key hash stringify user_id input =
    let normalized = trim (get_or input.idempotency_key []) in
    if is_empty normalized
    then none
    else some record {
      key = idempotency_key hash user_id normalized;
      fingerprint =
          request_fingerprint hash stringify input.event_session_id input.seat_ids input.hold_token
            input.client_total_minor;
    }

-- From the hold to the draft: `resolveHoldId`, `assertOwnedHold`, `getSaleSnapshot`.
unfoldable pub draft_checkout :
    (r : Redis)
    → (Text → Option EventStatus)
    → (Text → SaleDetails)
    → ℕ
    → Option RequestKey
    → Text
    → CheckoutInput
    → r.Store
    → Db
    → Result Draft
draft_checkout r statuses details now request user_id input store db = do
  resolved ←
      get_hold_by_token r now input.event_session_id user_id input.seat_ids input.hold_token store
  hold ←
      assert_owned_hold r now input.event_session_id user_id input.seat_ids resolved.hold_id store
  source ← get_sale_snapshot statuses details input.event_session_id hold.seat_ids db
  ok (record {
    user_id = user_id;
    event_session_id = input.event_session_id;
    hold = hold;
    source = source;
    expires_at = min hold.expires_at (now + booking_ttl_ms);
    request = request;
  })

abbrev pub item_for : Drawn → SaleSnapshot → SaleAllocation → BookingItem
item_for drawn source a = record {
  id = drawn.item_id a.id;
  seat_allocation_id = a.id;
  seat_id = a.seat_id;
  ticket_type_id = a.details.ticket_type_id;
  ticket_type_name = elim a.details.ticket_type [ none ↦ codes "Ticket" | some t ↦ t.name ];
  seat_code = some a.details.seat_code;
  price_minor = price_of a;
  currency = currency_or source.currency a;
}

abbrev pub booking_for : Drawn → Draft → List SaleAllocation → Booking
booking_for drawn draft allocations = record {
  id = drawn.booking_id;
  public_code = drawn.public_code;
  user_id = draft.user_id;
  event_session_id = draft.event_session_id;
  hold_id = draft.hold.hold_id;
  status = BookingStatus.pending;
  currency = draft.source.currency;
  subtotal_minor = draft.source.total_minor;
  fee_minor = 0;
  total_minor = draft.source.total_minor;
  expires_at = draft.expires_at;
  confirmed_at = none;
  items = map (item_for drawn draft.source) allocations;
}

abbrev pub payment_for : Drawn → Draft → Payment
payment_for drawn draft = record {
  id = drawn.payment_id;
  booking_id = drawn.booking_id;
  provider_reference = none;
  provider_idempotency_key = codes "booking:" ++ drawn.booking_id;
  provider_attempt_id = none;
  provider_attempted_at = none;
  provider_last_error = none;
  status = PaymentStatus.pending;
  amount_minor = draft.source.total_minor;
  currency = draft.source.currency;
  client_secret = none;
  expires_at = some draft.expires_at;
  reconciliation_required_at = none;
}

-- The record that a transaction leaves while the provider is pending.
abbrev pub pending_record : Draft → Text → RequestKey → IdempotencyRecord
pending_record draft booking_id request = record {
  key = request.key;
  user_id = draft.user_id;
  booking_id = some booking_id;
  request_fingerprint = some request.fingerprint;
  response_status = 202;
  response_body = none;
  expires_at = draft.expires_at;
}

abbrev pub has_hold : Text → Booking → Bool
has_hold hold_id b = b.hold_id == hold_id

-- A row that the unique indexes refuse.
abbrev pub is_taken : Draft → CheckoutDb → Bool
is_taken draft db = any (has_hold draft.hold.hold_id) db.core.bookings || elim draft.request [
  | none ↦ false
  | some request ↦ any (has_key request.key) db.idempotency_records
]

-- The writes of the transaction.
unfoldable pub booked_state : Draft → Booking → Payment → CheckoutDb → CheckoutDb
booked_state draft booking payment db = record {
  core = enqueue booking Topic.booking_created (
      audit AuditAction.booking_was_created booking.id (record db.core {
        bookings = booking ∷ db.core.bookings;
        payments = payment ∷ db.core.payments;
      }));
  idempotency_records = elim draft.request [
    | none ↦ db.idempotency_records
    | some request ↦ pending_record draft booking.id request ∷ db.idempotency_records
  ];
}

-- The transaction; it is rolled back where it throws.
unfoldable pub checkout_transaction :
    (Text → SaleDetails) → ℕ → Drawn → Draft → CheckoutDb → Result (Booking × CheckoutDb)
checkout_transaction details now drawn draft db = do
  let allocations = load_allocations details draft.event_session_id draft.hold.seat_ids db.core
  assert_sale_snapshot allocations draft.hold.seat_ids
  throw_if (leb draft.expires_at now) (conflict Code.hold_expired)
  current ← sale_snapshot allocations
  throw_if
      (not (current.currency == draft.source.currency)
        || not (nat_beq current.total_minor draft.source.total_minor))
      (conflict Code.sale_snapshot_changed)
  throw_if (is_taken draft db) unique_violation
  let booking = booking_for drawn draft allocations
  ok (booking, booked_state draft booking (payment_for drawn draft) db)
