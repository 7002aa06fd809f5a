-- ===== src/Bookings/Priced.antt =====
-- What a checkout books: the seats of the hold at the prices of the sale, once for a hold.
use eventory.Common.{
  ℕ, ◌+◌, ◌≤◌, ◌≡◌, refl, sym, ap, ◌∙◌, subst, inl, inr, true, false, ◌||◌, not, some, List, [],
  ◌∷◌, arith, leb, nat_beq, ◌==◌, nat_eq, Bool-cases, length, any, All, length-map, includes, Text,
  text_beq_iff, text_eq, text_beq_refl, find_by, count_by,
}
use eventory.Errors.{
  Code, conflict, unique_violation, ok, err, throw_if, ok_eq, throw_if-eq-ok, Result-cases,
  >>=-eq-ok,
}
use eventory.Domain.{BookingStatus}
use eventory.Bookings.Model.{Booking, Payment, payment_of, audit, enqueue}
use eventory.Bookings.Sale.{
  SaleDetails, SaleAllocation, SaleSnapshot, load_allocations, assert_sale_snapshot, is_unavailable,
  first_currency, has_other_currency, total_of, sale_snapshot,
}
use eventory.Bookings.Idempotency.{CheckoutDb}
use eventory.Bookings.Checkout.{
  Draft, Drawn, item_for, booking_for, payment_for, has_hold, is_taken, booked_state,
  checkout_transaction,
}
use eventory.Bookings.Items.{
  sum_of_items, IsPricedItem, is_allocation_of, sum-items, items-one_currency, loaded-seats,
  loaded-prices, loaded-allocations,
}

-- What is true of the booking that a checkout made at the time `now`.
pub record IsPriced (details : Text → SaleDetails) (now : ℕ) (draft : Draft) (db : CheckoutDb)
    (b : Booking) (after : CheckoutDb) : Type 0 where
  pub is_open : (b.status ≡ BookingStatus.pending) × (now + 1 ≤ b.expires_at)
  pub total : b.total_minor ≡ sum_of_items b.items
  pub prices : All (IsPricedItem details) b.items
  pub allocations : All (λ i. any (is_allocation_of i) db.core.seat_allocations ≡ true) b.items
  pub one_currency : All (λ i. i.currency ≡ b.currency) b.items
  pub seats : All (λ i. includes draft.hold.seat_ids i.seat_id ≡ true) b.items
  pub as_many : length b.items ≡ length draft.hold.seat_ids
  pub charged :
      (p : Payment) × (payment_of b.id after.core ≡ some p)
      × (p.amount_minor ≡ b.total_minor)
      × (p.currency ≡ b.currency)
  pub only_for_hold : any (has_hold b.hold_id) db.core.bookings ≡ false
  pub added : after.core.bookings ≡ b ∷ db.core.bookings

priced :
    (details : Text → SaleDetails) (now : ℕ) (drawn : Drawn) (draft : Draft) (db : CheckoutDb)
    (allocations : List SaleAllocation)
    → allocations ≡ load_allocations details draft.event_session_id draft.hold.seat_ids db.core
    → now + 1 ≤ draft.expires_at
    → length allocations ≡ length draft.hold.seat_ids
    → any (has_other_currency draft.source.currency) allocations ≡ false
    → total_of allocations ≡ draft.source.total_minor
    → is_taken draft db ≡ false
    → IsPriced details now draft db
        (booking_for drawn draft allocations)
        (booked_state draft (booking_for drawn draft allocations) (payment_for drawn draft) db)
unfolding booked_state payment_of audit enqueue load_allocations find_by
priced details now drawn draft db allocations loaded early many same total free = record {
  is_open = (refl, early);
  total = rw (sum-items drawn draft.source allocations) (sym total);
  prices = rw loaded (
      loaded-prices details drawn draft.source draft.event_session_id draft.source.currency
        draft.hold.seat_ids db.core.seat_allocations (rw loaded at same));
  allocations = rw loaded (
      loaded-allocations details drawn draft.source draft.event_session_id draft.hold.seat_ids
        db.core.seat_allocations);
  one_currency = items-one_currency drawn draft.source allocations same;
  seats = rw loaded (
      loaded-seats details drawn draft.source draft.event_session_id draft.hold.seat_ids
        db.core.seat_allocations);
  as_many = length-map allocations (item_for drawn draft.source) ∙ many;
  charged = (payment_for drawn draft, rw (payment_of, text_beq_refl drawn.booking_id), refl, refl);
  only_for_hold = ground arith;
  added = refl;
}

snapshot_ok :
    (allocations : List SaleAllocation) (s : SaleSnapshot)
    → sale_snapshot allocations ≡ ok s
    → (any (has_other_currency s.currency) allocations ≡ false)
      × (total_of allocations ≡ s.total_minor)
unfolding sale_snapshot
snapshot_ok allocations s h =
    let currency = first_currency allocations in
    let (u, passed, made) =
      >>=-eq-ok
        (throw_if (any (has_other_currency currency) allocations) (conflict Code.currency_mismatch))
        _ h in
    let same = ok_eq made in
    (
      subst (λ (x : SaleSnapshot). any (has_other_currency x.currency) allocations ≡ false) same
          (throw_if-eq-ok _ _ u passed),
      ap (λ (x : SaleSnapshot). x.total_minor) same,
    )

same_sale :
    (a b : SaleSnapshot)
    → not (a.currency == b.currency) || not (nat_beq a.total_minor b.total_minor) ≡ false
    → (a.currency ≡ b.currency) × (a.total_minor ≡ b.total_minor)
same_sale a b h = ((text_beq_iff a.currency b.currency).0 (ground arith), ground arith)

as_many_rows :
    (allocations : List SaleAllocation) (ids : List Text)
    → not (nat_beq (length allocations) (length ids)) || any is_unavailable allocations ≡ false
    → length allocations ≡ length ids
as_many_rows allocations ids h = ground arith

is_early : (expires now : ℕ) → leb expires now ≡ false → now + 1 ≤ expires
is_early expires now h = ground arith

pub checkout_transaction-IsPriced :
    (details : Text → SaleDetails) (now : ℕ) (drawn : Drawn) (draft : Draft) (db : CheckoutDb)
    (b : Booking) (after : CheckoutDb)
    → checkout_transaction details now drawn draft db ≡ ok (b, after)
    → IsPriced details now draft db b after
unfolding checkout_transaction
checkout_transaction-IsPriced details now drawn draft db b after h =
    let allocations = load_allocations details draft.event_session_id draft.hold.seat_ids db.core in
    let (u, complete, h1) = >>=-eq-ok (assert_sale_snapshot allocations draft.hold.seat_ids) _ h in
    let (v, early, h2) =
      >>=-eq-ok (throw_if (leb draft.expires_at now) (conflict Code.hold_expired)) _ h1 in
    let (current, taken, h3) = >>=-eq-ok (sale_snapshot allocations) _ h2 in
    let (w, same, h4) =
      >>=-eq-ok
        (throw_if
          (not (current.currency == draft.source.currency)
            || not (nat_beq current.total_minor draft.source.total_minor))
          (conflict Code.sale_snapshot_changed))
        _ h3 in
    let (x, free, h5) = >>=-eq-ok (throw_if (is_taken draft db) unique_violation) _ h4 in
    let many : length allocations ≡ length draft.hold.seat_ids =
      as_many_rows allocations draft.hold.seat_ids (throw_if-eq-ok _ _ u complete) in
    let (one, total) = snapshot_ok allocations current taken in
    let unchanged = throw_if-eq-ok _ _ w same in
    let (currency, amount) = same_sale current draft.source (throw_if-eq-ok _ _ w same) in
    let made =
      priced details now drawn draft db allocations refl
        (is_early draft.expires_at now (throw_if-eq-ok _ _ v early)) many
        (subst (λ c. any (has_other_currency c) allocations ≡ false) currency one) (total ∙ amount)
        (throw_if-eq-ok _ _ x free) in
    subst (λ (r : Booking × CheckoutDb). IsPriced details now draft db r.0 r.1) (ok_eq h5) made

-- A request that reaches its transaction.
pub record Requested : Type 0 where
  pub details : Text → SaleDetails
  pub now : ℕ
  pub drawn : Drawn
  pub draft : Draft

-- The transactions of requests in the order in which the database runs them.
unfoldable pub checkouts : List Requested → CheckoutDb → CheckoutDb
checkouts [] db = db
checkouts (q ∷ rest) db =
    checkouts rest (elim (checkout_transaction q.details q.now q.drawn q.draft db) [
      | err _ ↦ db
      | ok (_, after) ↦ after
    ])

not_held :
    (hold_id : Text) (bs : List Booking)
    → any (has_hold hold_id) bs ≡ false
    → count_by (has_hold hold_id) bs ≡ 0
unfolding count_by
not_held hold_id [] h = refl
not_held hold_id (b ∷ bs) h = ground (arith, not_held hold_id bs)

held_once :
    (hold_id : Text) (b : Booking) (bs : List Booking)
    → any (has_hold b.hold_id) bs ≡ false
    → count_by (has_hold hold_id) bs ≤ 1
    → count_by (has_hold hold_id) (b ∷ bs) ≤ 1
unfolding count_by
held_once hold_id b bs free h = elim (Bool-cases (has_hold hold_id b)) [
  | inr other ↦ rw other (omega arith)
  | inl this ↦
      let same = (text_beq_iff b.hold_id hold_id).0 this in
      let none_yet = not_held hold_id bs (rw same at free) in rw (this, none_yet) (omega arith)
]

-- However the checkouts of a hold follow each other, and whoever makes them, a hold that is booked at
-- most once before them is booked at most once after them.
pub checkouts-once :
    (hold_id : Text) (requests : List Requested) (db : CheckoutDb)
    → count_by (has_hold hold_id) db.core.bookings ≤ 1
    → count_by (has_hold hold_id) (checkouts requests db).core.bookings ≤ 1
unfolding checkouts
checkouts-once hold_id [] db h = h
checkouts-once hold_id (q ∷ rest) db h =
    elim (Result-cases (checkout_transaction q.details q.now q.drawn q.draft db)) [
      | inr (e, refused) ↦ rw (checkouts, refused) (checkouts-once hold_id rest db h)
      | inl ((b, after), booked) ↦
          let done =
            checkout_transaction-IsPriced q.details q.now q.drawn q.draft db b after booked in
          let once : count_by (has_hold hold_id) after.core.bookings ≤ 1 =
            rw done.added (held_once hold_id b db.core.bookings done.only_for_hold h) in
          rw (checkouts, booked) (checkouts-once hold_id rest after once)
    ]
