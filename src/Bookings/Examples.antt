-- ===== src/Bookings/Examples.antt =====
-- A booking of one seat whose payment succeeds.
use eventory.Common.{
  ℕ, filter_by, length, ap, ◌≢◌, arith, none, count_by, ◌+◌, ◌≡◌, refl, Option, some, [], ◌∷◌,
  nat_eq, includes, codes, text_beq, text_eq, find_by, update_where, Text, inr,
}
use eventory.Errors.{Code, Failure, conflict, Result, ok, err}
use eventory.Domain.{BookingStatus, PaymentStatus, PaymentEventStatus, SeatAllocationStatus}
use eventory.Bookings.Model.{
  Booking, BookingItem, Payment, PaymentEvent, SeatAllocation, TicketType, payment_succeeded, Db,
  is_booking, is_payment, is_event, payment_of, audit, mark_payment_event, enqueue,
}
use eventory.Bookings.View.{BookingView, to_view}
use eventory.Bookings.Inventory.{
  TicketSource, sell_items, increment_ticket_type_counts, count_items, count_one, sell_counts,
}
use eventory.Bookings.Webhook.{
  WebhookPayload, view_of, confirm_state, confirm, apply_success, apply_received,
  apply_payment_webhook,
}
use eventory.Bookings.Handler.{settle}
use eventory.Bookings.Balance.{Balanced, apply_payment_webhook-Balanced}
use eventory.Bookings.Settlement.{
  booking_status, event_status, StatusMove, apply_payment_webhook-StatusMove,
}
use eventory.Bookings.Capture.{Fate, IsReconciled, apply_payment_webhook-Fate}
use eventory.Bookings.Replay.{apply_payment_webhook-replay}
use eventory.Bookings.Fulfillment.{settle-IsReconciled}
use eventory.Bookings.Provider.{
  CreatedPayment, claim_attempt, persist_provider_payment, record_provider_failure,
}
use eventory.Uuid.{is_uuid}
use eventory.Seating.Checks.{
  normalize_seat_ids, unique, read_holds, assert_whole_hold, whole_hold, first_hold, lists_differ,
  sort,
}
use eventory.Seating.Holds.{acquire_script, set_all, seat_hold_request_key, seat_hold_key}
use eventory.Seating.Owned.{assert_owned_hold}
use eventory.Seating.Service.{acquire}
use eventory.Seating.Examples.{memory, session, seat_a, seat_b, hold_one, ann, held_world}
use eventory.Bookings.Issue.{IsEntitled, hold_refusal, tickets-IsEntitled}
use eventory.Bookings.Initialize.{Attempt, Provider, initialize_payment, wait_for_provider_payment}
use eventory.Bookings.Attempts.{IsSuperseded, superseded-fenced, initialize_payment-waits}

abbrev item : BookingItem
item = record {
  id = codes "i1";
  seat_allocation_id = codes "a1";
  seat_id = codes "s1";
  ticket_type_id = some (codes "t1");
  ticket_type_name = codes "Standard";
  seat_code = some (codes "A1");
  price_minor = 100;
  currency = codes "VND";
}

abbrev booking : Booking
booking = record {
  id = codes "b1";
  public_code = codes "EVT-1";
  user_id = codes "u1";
  event_session_id = codes "es1";
  hold_id = codes "h1";
  status = BookingStatus.pending;
  currency = codes "VND";
  subtotal_minor = 100;
  fee_minor = 0;
  total_minor = 100;
  expires_at = 100;
  confirmed_at = none;
  items = item ∷ [];
}

abbrev payment : Payment
payment = record {
  id = codes "p1";
  booking_id = codes "b1";
  provider_reference = some (codes "ref");
  provider_idempotency_key = codes "k";
  provider_attempt_id = none;
  provider_attempted_at = none;
  provider_last_error = none;
  status = PaymentStatus.pending;
  amount_minor = 100;
  currency = codes "VND";
  client_secret = none;
  expires_at = some 100;
  reconciliation_required_at = none;
}

abbrev event : PaymentEvent
event = record {
  id = codes "e1";
  payment_id = codes "p1";
  provider_event_id = codes "evt";
  event_type = payment_succeeded;
  status = PaymentEventStatus.received;
  processed_at = none;
}

abbrev seat : SeatAllocationStatus → SeatAllocation
seat status = record {
  id = codes "a1";
  event_session_id = codes "es1";
  seat_id = codes "s1";
  status = status;
}

abbrev ticket_type : TicketType
ticket_type = record { id = codes "t1"; capacity = 5; sold_quantity = 2 }

abbrev db_with : SeatAllocationStatus → Db
db_with status = record {
  bookings = booking ∷ [];
  payments = payment ∷ [];
  payment_events = event ∷ [];
  reconciliations = [];
  payment_webhook_inbox = [];
  seat_allocations = seat status ∷ [];
  ticket_types = ticket_type ∷ [];
  tickets = [];
  outbox_events = [];
  audit_logs = [];
}

abbrev db : Db
db = db_with SeatAllocationStatus.available

abbrev payload : WebhookPayload
payload = record {
  id = codes "evt";
  type = payment_succeeded;
  reference = codes "ref";
  amount_minor = 100;
  currency = codes "VND";
}

abbrev source : TicketSource
source = record { public_code = λ id. id; qr_nonce = λ id. id; qr_key_version = 1 }

abbrev held : Booking → Option Failure
held _ = none

abbrev apply_at : ℕ → Db → Result (BookingView × Db)
apply_at now before =
    apply_payment_webhook source now (now + 1) held (codes "p1") (codes "e1") payload before

abbrev view_in : Result (BookingView × Db) → BookingView
view_in (ok (view, _)) = view
view_in (err _) = to_view booking none

abbrev state_in : Result (BookingView × Db) → Db
state_in (ok (_, after)) = after
state_in (err _) = db

abbrev view : BookingView
view = view_in (apply_at 50 db)

abbrev after : Db
after = state_in (apply_at 50 db)

applied : apply_at 50 db ≡ ok (view, after)
unfolding apply_payment_webhook apply_received apply_success confirm confirm_state sell_items
    increment_ticket_type_counts count_items count_one sell_counts view_of payment_of audit
    mark_payment_event enqueue find_by update_where count_by includes text_beq
applied = refl

event_received : event_status (codes "e1") db ≡ some PaymentEventStatus.received
unfolding find_by text_beq
event_received = refl

apply_payment_webhook-Balanced_example : Balanced db after
apply_payment_webhook-Balanced_example =
    apply_payment_webhook-Balanced source 50 51 held (codes "p1") (codes "e1") payload db after view
      applied

apply_payment_webhook-StatusMove_example :
    StatusMove (booking_status (codes "b1") db) (booking_status (codes "b1") after)
apply_payment_webhook-StatusMove_example =
    apply_payment_webhook-StatusMove source 50 51 held (codes "p1") (codes "e1") payload db after
      view (codes "b1") applied

payment_found : find_by (is_payment (codes "p1")) db.payments ≡ some payment
unfolding find_by text_beq
payment_found = refl

booking_found : find_by (is_booking (codes "b1")) db.bookings ≡ some booking
unfolding find_by text_beq
booking_found = refl

event_found : find_by (is_event (codes "e1")) db.payment_events ≡ some event
unfolding find_by text_beq
event_found = refl

apply_payment_webhook-Fate_example : Fate (codes "p1") booking db after
apply_payment_webhook-Fate_example =
    apply_payment_webhook-Fate source 50 51 held (codes "p1") (codes "e1") payload db after view
      payment booking payment_found booking_found event_received refl applied

applied_again : apply_at 70 after ≡ ok (view_in (apply_at 70 after), state_in (apply_at 70 after))
unfolding apply_payment_webhook apply_received apply_success confirm confirm_state sell_items
    increment_ticket_type_counts count_items count_one sell_counts view_of payment_of audit
    mark_payment_event enqueue find_by update_where count_by includes text_beq
applied_again = refl

apply_payment_webhook-replay_example : state_in (apply_at 70 after) ≡ after
apply_payment_webhook-replay_example =
    apply_payment_webhook-replay source 50 51 70 71 held held (codes "p1") (codes "e1") payload
      payload db after (state_in (apply_at 70 after)) view (view_in (apply_at 70 after))
      event_received applied applied_again

-- The same booking, when its seat was sold meanwhile.
abbrev sold_db : Db
sold_db = db_with SeatAllocationStatus.sold

refused : apply_at 50 sold_db ≡ err (conflict Code.seat_already_sold)
unfolding apply_payment_webhook apply_received apply_success confirm confirm_state sell_items
    increment_ticket_type_counts count_items count_one sell_counts view_of payment_of audit
    mark_payment_event enqueue find_by update_where count_by includes text_beq
refused = refl

settle-IsReconciled_example :
    (v : BookingView) × (done : Db) × (settle source 50 51 held
        (codes "p1")
        (codes "e1")
        payload
        sold_db
      ≡ (ok v, done))
    × IsReconciled (codes "p1") (codes "b1") done
settle-IsReconciled_example =
    settle-IsReconciled source 50 51 held (codes "p1") (codes "e1") payload sold_db
      (conflict Code.seat_already_sold) payment booking event refused refl refl payment_found
      booking_found event_found refl refl refl

abbrev created : CreatedPayment
created = record {
  provider_reference = codes "ref";
  client_secret = codes "secret";
  expires_at = 100;
}

-- A payment whose reference is still to come.
abbrev new_payment : Payment
new_payment = record payment { provider_reference = none }

abbrev new_db : Db
new_db = record db { payments = record payment { provider_reference = none } ∷ [] }

new_payment_found :
    find_by (is_payment (codes "p1")) new_db.payments
    ≡ some (record payment { provider_reference = none })
unfolding find_by text_beq
new_payment_found = refl

no_attempt : IsSuperseded (codes "old") (codes "p1") new_db
no_attempt = ((λ _. refl), tt)

superseded-fenced_example :
    (persist_provider_payment 50 51 (codes "old") (codes "p1") created new_db ≡ ok new_db)
    × (record_provider_failure 51 40 (codes "old") (codes "p1") (codes "error") new_db ≡ ok new_db)
superseded-fenced_example =
    superseded-fenced 50 51 40 (codes "old") (codes "p1") (codes "error") created new_db
      (record payment { provider_reference = none }) new_payment_found no_attempt

one_payment : count_by (is_payment (codes "p1")) new_db.payments ≡ 1
unfolding count_by text_beq
one_payment = refl

claimed_once : (claim_attempt 50 (codes "a1") (codes "p1") new_db).0 ≡ 1
unfolding claim_attempt count_by text_beq
claimed_once = refl

-- A second request, which would find the payment as the first attempt left it.
abbrev second_attempt : Attempt
second_attempt = record {
  id = codes "a2";
  now = 60;
  later = 61;
  polls = (claim_attempt 50 (codes "a1") (codes "p1") new_db).1 ∷ [];
}

abbrev offline : Provider
offline = record { create = λ _. inr (codes "offline"); message_of = λ _. [] }

initialize_payment-waits_example :
    initialize_payment offline second_attempt booking new_payment
      (claim_attempt 50 (codes "a1") (codes "p1") new_db).1
    ≡ (
      ok (
          wait_for_provider_payment
            (codes "b1")
            (to_view booking (some new_payment))
            second_attempt.polls),
      (claim_attempt 50 (codes "a1") (codes "p1") new_db).1,
    )
initialize_payment-waits_example =
    initialize_payment-waits offline 50 (codes "a1") second_attempt booking new_payment new_db
      one_payment claimed_once (omega arith)

-- Ann's booking of the seats that she holds, in the world of the examples of the seat holds.
abbrev ann_item : Text → Text → BookingItem
ann_item id seat_id = record item { id = id; seat_allocation_id = id; seat_id = seat_id }

abbrev ann_booking : Booking
ann_booking = record booking {
  user_id = ann;
  event_session_id = session;
  hold_id = hold_one;
  expires_at = 390;
  items = ann_item (codes "a1") seat_a ∷ (ann_item (codes "a2") seat_b ∷ []);
}

abbrev ann_db : Db
ann_db = record db {
  bookings = ann_booking ∷ [];
  seat_allocations =
      seat SeatAllocationStatus.available
      ∷ (record (seat SeatAllocationStatus.available) { id = codes "a2" } ∷ []);
}

abbrev ann_result : Result (BookingView × Db)
ann_result =
    apply_payment_webhook source 350 351 (hold_refusal memory 350 held_world.store) (codes "p1")
      (codes "e1") payload ann_db

ann_applied : ann_result ≡ ok (view_in ann_result, state_in ann_result)
unfolding apply_payment_webhook apply_received apply_success confirm confirm_state sell_items
    increment_ticket_type_counts count_items count_one sell_counts view_of payment_of audit
    mark_payment_event enqueue find_by update_where count_by includes text_beq acquire
    acquire_script set_all assert_owned_hold is_uuid normalize_seat_ids unique filter_by read_holds
    seat_hold_request_key seat_hold_key assert_whole_hold whole_hold first_hold lists_differ sort
ann_applied = refl

two_tickets : length (state_in ann_result).tickets ≡ 2
unfolding apply_payment_webhook apply_received apply_success confirm confirm_state sell_items
    increment_ticket_type_counts count_items count_one sell_counts view_of payment_of audit
    mark_payment_event enqueue find_by update_where count_by includes text_beq acquire
    acquire_script set_all assert_owned_hold is_uuid normalize_seat_ids unique filter_by read_holds
    seat_hold_request_key seat_hold_key assert_whole_hold whole_hold first_hold lists_differ sort
two_tickets = refl

not_both : (n : ℕ) → n ≡ 2 → n ≢ 0
not_both n two zero_now = absurd (omega (arith, two, zero_now))

tickets_new : (state_in ann_result).tickets ≢ ann_db.tickets
tickets_new h = not_both (length (state_in ann_result).tickets) two_tickets (ap length h)

ann_booking_found : find_by (is_booking (codes "b1")) ann_db.bookings ≡ some ann_booking
unfolding find_by text_beq
ann_booking_found = refl

tickets-IsEntitled_example :
    IsEntitled memory 350 held_world.store ann_booking ann_db.tickets (state_in ann_result).tickets
tickets-IsEntitled_example =
    tickets-IsEntitled memory source 350 351 held_world.store (codes "p1") (codes "e1") payload
      ann_db (state_in ann_result) (view_in ann_result) payment ann_booking payment_found
      ann_booking_found ann_applied tickets_new
