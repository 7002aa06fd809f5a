-- ===== src/Bookings/Passes.antt =====
-- Enough passes of `expirePendingBookings` leave no booking that is due.
use eventory.Common.{
  ℕ, zero, suc, ◌+◌, ◌≤◌, min, ◌≡◌, refl, sym, ◌∙◌, subst, inl, inr, Bool, true, some, List, [],
  ◌∷◌, arith, nat_beq, if◌then◌else◌, nat_beq_iff, nat_eq, Bool-cases, Option-cases, is_some,
  length, All, length-take, All-mono, text_beq_iff, text_eq, All-take, find_by, filter_by, count_by,
  find_by-holds, order_by, All-order_by, length-order_by, length-filter_by, All-filter_by,
}
use eventory.Errors.{ok}
use eventory.Bookings.Model.{Booking, Db, is_booking}
use eventory.Bookings.Workers.{
  safe_limit, is_due, expires_first, due_bookings, expire_candidate, expire_candidates,
  expire_pending_bookings,
}
use eventory.Bookings.Expiry.{IsRegular, candidate-Step}

-- A candidate that the database has.
abbrev IsKnown : Db → Booking → Type 0
IsKnown db c = is_some (find_by (is_booking c.id) db.bookings) ≡ true

-- How a loop over candidates ends.
record Loop (now : ℕ) (cs : List Booking) (db : Db) : Type 0 where
  count : ℕ
  returned : (expire_candidates now cs db).0 ≡ ok count
  regular : IsRegular (expire_candidates now cs db).1
  fewer :
      count_by (is_due now) (expire_candidates now cs db).1.bookings
      ≤ count_by (is_due now) db.bookings

-- The state after the first of several candidates.
candidates-cons :
    (now : ℕ) (c : Booking) (rest : List Booking) (changed : Bool) (db after : Db)
    → expire_candidate now c.id db ≡ ok (changed, after)
    → Loop now rest after
    → ((expire_candidates now (c ∷ rest) db).1 ≡ (expire_candidates now rest after).1)
      × ((n : ℕ) × ((expire_candidates now (c ∷ rest) db).0 ≡ ok n))
unfolding expire_candidates
candidates-cons now c rest changed db after done loop = (
  rw (expire_candidates, done),
  ((if changed then 1 else 0) + loop.count, rw (expire_candidates, done, loop.returned)),
)

candidates-Loop :
    (now : ℕ) (cs : List Booking) (db : Db) → IsRegular db → All (IsKnown db) cs → Loop now cs db
unfolding expire_candidates
candidates-Loop now [] db h known = record {
  count = 0;
  returned = refl;
  regular = h;
  fewer = omega arith;
}
candidates-Loop now (c ∷ rest) db h known =
    elim (Option-cases (find_by (is_booking c.id) db.bookings)) [
      | inl missing ↦ absurd (cc (rw missing at known.0))
      | inr (b, found) ↦
          let same =
            (text_beq_iff b.id c.id).0 (find_by-holds (is_booking c.id) db.bookings b found) in
          let itself : find_by (is_booking b.id) db.bookings ≡ some b =
            subst (λ i. find_by (is_booking i) db.bookings ≡ some b) (sym same) found in
          let (changed, after, done, step) = candidate-Step now b db h itself in
          let still =
            All-mono (IsKnown db) (IsKnown after) rest (λ x k. step.known x.id ∙ k) known.1 in
          let loop = candidates-Loop now rest after step.regular still in
          let (last, (n, returned)) =
            candidates-cons now c rest changed db after
              (subst (λ i. expire_candidate now i db ≡ ok (changed, after)) same done) loop in
          record {
            count = n;
            returned = returned;
            regular = rw last loop.regular;
            fewer = rw last (omega (arith, loop.fewer, step.fewer));
          }
    ]

-- A loop whose first candidate is due leaves fewer that are due.
first-less :
    (now : ℕ) (c : Booking) (rest : List Booking) (db : Db)
    → IsRegular db
    → find_by (is_booking c.id) db.bookings ≡ some c
    → is_due now c ≡ true
    → All (IsKnown db) rest
    → count_by (is_due now) (expire_candidates now (c ∷ rest) db).1.bookings + 1
      ≤ count_by (is_due now) db.bookings
first-less now c rest db h itself due known =
    let (changed, after, done, step) = candidate-Step now c db h itself in
    let still = All-mono (IsKnown db) (IsKnown after) rest (λ x k. step.known x.id ∙ k) known in
    let loop = candidates-Loop now rest after step.regular still in
    let (last, _) = candidates-cons now c rest changed db after done loop in
    rw last (omega (arith, loop.fewer, step.less due))

-- What the candidates of a pass are.
due_bookings-All :
    (now limit : ℕ) (db : Db)
    → IsRegular db
    → All
        (λ c. (find_by (is_booking c.id) db.bookings ≡ some c) × (is_due now c ≡ true))
        (due_bookings now limit db)
due_bookings-All now limit db h = All-take _ (safe_limit limit) _ (
    All-order_by _ expires_first _ (
      All-filter_by (λ c. find_by (is_booking c.id) db.bookings ≡ some c) (is_due now) db.bookings
        h.keyed))

length-due_bookings :
    (now limit : ℕ) (db : Db)
    → length (due_bookings now limit db)
      ≡ min (safe_limit limit) (count_by (is_due now) db.bookings)
length-due_bookings now limit db = rw (
  length-take (safe_limit limit) (order_by expires_first (filter_by (is_due now) db.bookings)),
  length-order_by expires_first (filter_by (is_due now) db.bookings),
  length-filter_by (is_due now) db.bookings,
)

-- The candidates of a pass are in the database.
due_bookings-IsKnown :
    (now limit : ℕ) (db : Db) → IsRegular db → All (IsKnown db) (due_bookings now limit db)
due_bookings-IsKnown now limit db h =
    All-mono _ (IsKnown db) (due_bookings now limit db) (λ c k. rw k.0)
      (due_bookings-All now limit db h)

-- A pass that finds candidates leaves fewer bookings that are due.
some-less :
    (now : ℕ) (cs : List Booking) (db : Db)
    → IsRegular db
    → 1 ≤ length cs
    → All (λ c. (find_by (is_booking c.id) db.bookings ≡ some c) × (is_due now c ≡ true)) cs
    → count_by (is_due now) (expire_candidates now cs db).1.bookings + 1
      ≤ count_by (is_due now) db.bookings
some-less now [] db h full due = absurd (omega arith)
some-less now (c ∷ rest) db h full due =
    first-less now c rest db h due.0.0 due.0.1 (All-mono _ (IsKnown db) rest (λ x k. rw k.0) due.1)

-- Passes at one time, one after the other.
unfoldable pub passes : ℕ → ℕ → ℕ → Db → Db
passes zero now limit db = db
passes (suc k) now limit db = passes k now limit (expire_pending_bookings now limit db).1

pass-Loop : (now limit : ℕ) (db : Db) → IsRegular db → Loop now (due_bookings now limit db) db
pass-Loop now limit db h =
    candidates-Loop now (due_bookings now limit db) db h (due_bookings-IsKnown now limit db h)

pass-less :
    (now limit k : ℕ) (db : Db)
    → IsRegular db
    → count_by (is_due now) db.bookings ≤ suc k
    → count_by (is_due now) (expire_pending_bookings now limit db).1.bookings ≤ k
unfolding expire_pending_bookings
pass-less now limit k db h few = elim (Bool-cases (nat_beq (count_by (is_due now) db.bookings) 0)) [
  | inl idle ↦ omega (
    arith,
    (pass-Loop now limit db h).fewer,
    (nat_beq_iff (count_by (is_due now) db.bookings) 0).0 idle,
  )
  | inr busy ↦
      let size = length-due_bookings now limit db in
      let positive : 1 ≤ count_by (is_due now) db.bookings = ground arith in
      let full : 1 ≤ length (due_bookings now limit db) = rw size (omega arith) in
      omega (
        arith,
        some-less now (due_bookings now limit db) db h full (due_bookings-All now limit db h),
      )
]

-- Whatever the limit of a pass, as many passes as there are bookings due leave none that is due. A
-- pass returns, and the database after them is again one in which every booking is found by its
-- identifier and no pending booking is paid.
pub passes-finish :
    (k now limit : ℕ) (db : Db)
    → IsRegular db
    → count_by (is_due now) db.bookings ≤ k
    → (count_by (is_due now) (passes k now limit db).bookings ≡ 0)
      × IsRegular (passes k now limit db)
      × ((n : ℕ) × ((expire_pending_bookings now limit db).0 ≡ ok n))
unfolding passes expire_pending_bookings
passes-finish zero now limit db h few =
    let loop = pass-Loop now limit db h in (omega arith, h, (loop.count, loop.returned))
passes-finish (suc k) now limit db h few =
    let loop = pass-Loop now limit db h in
    let (none_due, regular, _) =
      passes-finish k now limit (expire_pending_bookings now limit db).1 loop.regular
        (pass-less now limit k db h few) in
    (none_due, regular, (loop.count, loop.returned))
