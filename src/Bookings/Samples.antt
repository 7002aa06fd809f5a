-- ===== src/Bookings/Samples.antt =====
-- A checkout of one seat, a second request under its key, and passes over a booking that is due.
use eventory.Common.{
  ℕ, ◌≤◌, ◌≡◌, refl, ap, ◌≢◌, inr, Option, none, some, [], ◌∷◌, arith, nat_eq, get_or, length, Text,
  codes, text_beq, text_eq, trim, find_by, count_by,
}
use eventory.Errors.{Code, conflict, ok, err}
use eventory.Domain.{BookingStatus, SeatAllocationStatus}
use eventory.Seating.Examples.{memory}
use eventory.Bookings.Model.{Booking, Db, payment_of, audit, enqueue}
use eventory.Bookings.View.{BookingView, to_view}
use eventory.Bookings.Sale.{SaleDetails}
use eventory.Bookings.Idempotency.{
  has_key, IdempotencyRecord, IdempotencyRecord, CheckoutDb, Fingerprint, store_idempotency,
  find_idempotent, request_fingerprint,
}
use eventory.Bookings.Initialize.{Provider, Attempt}
use eventory.Bookings.Checkout.{
  CheckoutInput, RequestKey, Draft, Drawn, payment_for, has_hold, booked_state, request_key,
}
use eventory.Bookings.Create.{create}
use eventory.Bookings.Priced.{Requested, checkouts, checkouts-once}
use eventory.Bookings.Resubmit.{create-replay, create-refuses}
use eventory.Bookings.Workers.{is_due, expire_pending_bookings}
use eventory.Bookings.Expiry.{IsRegular}
use eventory.Bookings.Passes.{passes, passes-finish}

abbrev details : Text → SaleDetails
details id = record {
  seat_code = codes "A1";
  ticket_type_id = some (codes "t1");
  ticket_type = some record { name = codes "Standard"; price_minor = 100; currency = codes "VND" };
}

abbrev core : Db
core = record {
  bookings = [];
  payments = [];
  payment_events = [];
  reconciliations = [];
  payment_webhook_inbox = [];
  seat_allocations =
      record {
        id = codes "a1";
        event_session_id = codes "es1";
        seat_id = codes "s1";
        status = SeatAllocationStatus.available;
      }
      ∷ [];
  ticket_types = [];
  tickets = [];
  outbox_events = [];
  audit_logs = [];
}

abbrev db : CheckoutDb
db = record { core = core; idempotency_records = [] }

abbrev request : RequestKey
request = record { key = codes "ann:k"; fingerprint = codes "token" }

abbrev draft : Draft
draft = record {
  user_id = codes "ann";
  event_session_id = codes "es1";
  hold = record {
    hold_id = codes "h1";
    event_session_id = codes "es1";
    seat_ids = codes "s1" ∷ [];
    expires_at = 90;
  };
  source = record { currency = codes "VND"; total_minor = 100 };
  expires_at = 90;
  request = some request;
}

abbrev drawn : Drawn
drawn = record {
  booking_id = codes "b1";
  public_code = codes "EVT-1";
  payment_id = codes "p1";
  item_id = λ id. id;
}

abbrev booked : Booking
booked = record {
  id = codes "b1";
  public_code = codes "EVT-1";
  user_id = codes "ann";
  event_session_id = codes "es1";
  hold_id = codes "h1";
  status = BookingStatus.pending;
  currency = codes "VND";
  subtotal_minor = 100;
  fee_minor = 0;
  total_minor = 100;
  expires_at = 90;
  confirmed_at = none;
  items =
      record {
        id = codes "a1";
        seat_allocation_id = codes "a1";
        seat_id = codes "s1";
        ticket_type_id = some (codes "t1");
        ticket_type_name = codes "Standard";
        seat_code = some (codes "A1");
        price_minor = 100;
        currency = codes "VND";
      }
      ∷ [];
}

abbrev after : CheckoutDb
after = booked_state draft booked (payment_for drawn draft) db

abbrev requested : ℕ → Requested
requested now = record { details = details; now = now; drawn = drawn; draft = draft }

none_booked : count_by (has_hold (codes "h1")) db.core.bookings ≤ 1
unfolding count_by
none_booked = omega arith

checkouts-once_example :
    count_by (has_hold (codes "h1")) (checkouts (requested 5 ∷ requested 6 ∷ []) db).core.bookings
    ≤ 1
checkouts-once_example = checkouts-once (codes "h1") (requested 5 ∷ requested 6 ∷ []) db none_booked

abbrev hash : Text → Text
hash s = s

abbrev stringify : Fingerprint → Text
stringify f = f.hold_token

abbrev input : CheckoutInput
input = record {
  event_session_id = codes "es1";
  seat_ids = codes "s1" ∷ [];
  hold_token = codes "token";
  idempotency_key = some (codes "k");
  client_total_minor = none;
}

abbrev provider : Provider
provider = record { create = λ q. inr (codes "down"); message_of = λ e. codes "error" }

abbrev attempt : Attempt
attempt = record { id = codes "at"; now = 6; later = 7; polls = [] }

abbrev answered : BookingView
answered =
    to_view booked
      (some (record (payment_for drawn draft) { provider_reference = some (codes "ref") }))

abbrev kept : CheckoutDb
kept = record {
  core = core;
  idempotency_records =
      record {
        key = codes "ann:k";
        user_id = codes "ann";
        booking_id = some (codes "b1");
        request_fingerprint = some (codes "token");
        response_status = 201;
        response_body = some answered;
        expires_at = 90;
      }
      ∷ [];
}

named : request_key hash stringify (codes "ann") input ≡ some request
unfolding request_key trim request_fingerprint
named = refl

stored :
    store_idempotency 6 (codes "ann") (codes "ann:k") (codes "token") answered db ≡ (ok tt, kept)
unfolding store_idempotency to_view find_idempotent find_by
stored = refl

create-replay_example :
    create hash stringify memory
      (λ s. none)
      details
      provider
      attempt
      8
      drawn
      (codes "ann")
      input
      (λ k. none)
      kept
    ≡ (ok answered, kept)
unfolding to_view
create-replay_example =
    create-replay hash stringify memory (λ s. none) details provider attempt 6 8 drawn (codes "ann")
      input (λ k. none) db kept request answered named refl refl stored (omega arith)

different : codes "token" ≢ codes "other"
different e =
    absurd (ground (arith, ap (λ (s : Text). length s) e, ap (λ (s : Text). get_or (first s) 0) e))
  where
    first : Text → Option ℕ
    first [] = none
    first (c ∷ s) = some c

abbrev other_input : CheckoutInput
other_input = record input { hold_token = codes "other" }

abbrev other_request : RequestKey
other_request = record { key = codes "ann:k"; fingerprint = codes "other" }

other_named : request_key hash stringify (codes "ann") other_input ≡ some other_request
unfolding request_key trim request_fingerprint
other_named = refl

abbrev kept_record : IdempotencyRecord
kept_record = record {
  key = codes "ann:k";
  user_id = codes "ann";
  booking_id = some (codes "b1");
  request_fingerprint = some (codes "token");
  response_status = 201;
  response_body = some answered;
  expires_at = 90;
}

kept_found : find_by (has_key (codes "ann:k")) kept.idempotency_records ≡ some kept_record
unfolding find_by text_beq
kept_found = refl

create-refuses_example :
    create hash stringify memory
      (λ s. none)
      details
      provider
      attempt
      8
      drawn
      (codes "ann")
      other_input
      (λ k. none)
      kept
    ≡ (err (conflict Code.idempotency_key_reused), kept)
create-refuses_example =
    create-refuses hash stringify memory (λ s. none) details provider attempt 8 drawn (codes "ann")
      other_input (λ k. none) kept other_request kept_record (codes "token") other_named kept_found
      (omega arith) refl refl refl different

regular : IsRegular after.core
unfolding booked_state enqueue audit find_by text_beq payment_of
regular = record { keyed = (refl, tt); unpaid = (refl, tt) }

due_once : count_by (is_due 90) after.core.bookings ≤ 1
unfolding booked_state count_by enqueue audit
due_once = omega arith

passes-finish_example :
    (count_by (is_due 90) (passes 1 90 50 after.core).bookings ≡ 0)
    × IsRegular (passes 1 90 50 after.core)
    × ((n : ℕ) × ((expire_pending_bookings 90 50 after.core).0 ≡ ok n))
passes-finish_example = passes-finish 1 90 50 after.core regular due_once
