-- ===== src/Bookings/Expiry.antt =====
-- The passes of `expirePendingBookings` get to every booking whose time is over.
use mathlib.Core.Option
use eventory.Common.{
  ◌≡◌, refl, inl, inr, Bool, true, false, Option, none, some, List, [], ◌∷◌, nat_eq, Bool-cases,
  All, Text, text_eq, find_by, update_where, touch, find_by-touch, ℕ, is_some, count_by-update_le,
  count_by, count_by-update_drop, text_beq_iff, ◌≤◌, arith, ◌+◌, find_by-holds, Option-cases,
  find_by-All, subst, ltb, ◌&&◌,
}
use eventory.Domain.{
  BookingStatus, PaymentStatus, is_pending, is_payment_succeeded, is_payment_pending,
}
use eventory.Bookings.Workers.{is_due, expire_candidate}
use eventory.Bookings.Webhook.{expire_pending_booking}
use eventory.Errors.{ok}
use eventory.Bookings.Model.{
  Booking, Payment, Db, is_booking, is_payment, is_payment_of, payment_of, set_booking_status,
  update_payment, audit, AuditAction,
}

-- The payment of the booking has not succeeded.
abbrev pub is_paid : Option Payment → Bool
is_paid none = false
is_paid (some p) = is_payment_succeeded p.status

-- Every booking is the one that its identifier finds, and no pending booking is paid.
pub record IsRegular (db : Db) : Type 0 where
  pub keyed : All (λ b. find_by (is_booking b.id) db.bookings ≡ some b) db.bookings
  pub unpaid : All (λ b. is_pending b.status && is_paid (payment_of b.id db) ≡ false) db.bookings

abbrev expire : Booking → Booking
expire b = record b { status = BookingStatus.expired }

expired-keyed :
    (id : Text) (bs rows : List Booking)
    → All (λ b. find_by (is_booking b.id) bs ≡ some b) rows
    → All
        (λ b. find_by (is_booking b.id) (update_where (is_booking id) expire bs) ≡ some b)
        (update_where (is_booking id) expire rows)
unfolding update_where
expired-keyed id bs [] h = tt
expired-keyed id bs (b ∷ rows) h =
    let rest = expired-keyed id bs rows h.1 in
    let moved = find_by-touch (is_booking id) (is_booking b.id) expire bs (λ x. refl) in
    let here : find_by (is_booking b.id) (update_where (is_booking id) expire bs)
        ≡ some (touch (is_booking id) expire b) =
      rw (moved, h.0) in
    elim (Bool-cases (is_booking id b)) [
      | inl t ↦ rw t (rw t at here, rest)
      | inr n ↦ rw n (rw n at here, rest)
    ]

-- A payment that expires is not a payment that has succeeded.
expired-unpaid :
    (payment_id booking_id : Text) (ps : List Payment)
    → is_paid (find_by (is_payment_of booking_id) ps) ≡ false
    → is_paid (
        find_by (is_payment_of booking_id) (
          update_where
            (is_payment payment_id)
            (λ q. record q { status = PaymentStatus.expired })
            ps))
      ≡ false
unfolding find_by update_where
expired-unpaid payment_id booking_id [] h = refl
expired-unpaid payment_id booking_id (p ∷ ps) h = elim (Bool-cases (is_payment payment_id p)) [
  | inl t ↦ elim (Bool-cases (is_payment_of booking_id p)) [
    | inl u ↦ rw (t, u)
    | inr n ↦ rw (t, n) (expired-unpaid payment_id booking_id ps (rw n at h))
  ]
  | inr o ↦ elim (Bool-cases (is_payment_of booking_id p)) [
    | inl u ↦ rw (o, u) (rw u at h)
    | inr n ↦ rw (o, n) (expired-unpaid payment_id booking_id ps (rw n at h))
  ]
]

-- The two states that an expiry may leave.
abbrev expired_state : Text → Db → Db
expired_state id db = set_booking_status id BookingStatus.expired db

abbrev expired_with_payment : Text → Text → Db → Db
expired_with_payment id payment_id db =
    update_payment payment_id (λ q. record q { status = PaymentStatus.expired })
      (expired_state id db)

rows-unpaid :
    (id : Text) (rows : List Booking) (paid paid' : Text → Bool)
    → ((x : Text) → paid x ≡ false → paid' x ≡ false)
    → All (λ b. is_pending b.status && paid b.id ≡ false) rows
    → All
        (λ b. is_pending b.status && paid' b.id ≡ false)
        (update_where (is_booking id) expire rows)
unfolding update_where
rows-unpaid id [] paid paid' f h = tt
rows-unpaid id (b ∷ rows) paid paid' f h = elim (Bool-cases (is_booking id b)) [
  | inl t ↦ rw t (refl, rows-unpaid id rows paid paid' f h.1)
  | inr n ↦ rw n (
    still_unpaid (is_pending b.status) (paid b.id) (paid' b.id) (f b.id) h.0,
    rows-unpaid id rows paid paid' f h.1,
  )
]
  where
    still_unpaid :
        (pending p p' : Bool)
        → (p ≡ false → p' ≡ false)
        → pending && p ≡ false
        → pending && p' ≡ false
    still_unpaid true p p' g k = g k
    still_unpaid false p p' g k = refl

expired-IsRegular : (id : Text) (db : Db) → IsRegular db → IsRegular (expired_state id db)
unfolding payment_of
expired-IsRegular id db h = record {
  keyed = expired-keyed id db.bookings db.bookings h.keyed;
  unpaid =
      rows-unpaid id db.bookings (λ x. is_paid (payment_of x db)) (λ x. is_paid (payment_of x db))
        (λ x u. u) h.unpaid;
}

expired_with_payment-IsRegular :
    (id payment_id : Text) (db : Db)
    → IsRegular db
    → IsRegular (expired_with_payment id payment_id db)
unfolding payment_of
expired_with_payment-IsRegular id payment_id db h = record {
  keyed = expired-keyed id db.bookings db.bookings h.keyed;
  unpaid =
      rows-unpaid id db.bookings (λ x. is_paid (payment_of x db))
        (λ x. is_paid (payment_of x (expired_with_payment id payment_id db)))
        (λ x u. expired-unpaid payment_id x db.payments u) h.unpaid;
}

-- What a transaction of the pass does, with the booking `b` that it finds.
pub record Step (now : ℕ) (b : Booking) (db after : Db) : Type 0 where
  pub regular : IsRegular after
  pub fewer : count_by (is_due now) after.bookings ≤ count_by (is_due now) db.bookings
  pub known :
      (x : Text)
      → is_some (find_by (is_booking x) after.bookings)
        ≡ is_some (find_by (is_booking x) db.bookings)
  pub less :
      is_due now b ≡ true
      → count_by (is_due now) after.bookings + 1 ≤ count_by (is_due now) db.bookings

not_due_anymore : (now : ℕ) (b : Booking) → is_due now (expire b) ≡ false
not_due_anymore now b = refl

touched-known : (o : Option Booking) (f : Booking → Booking) → is_some (Option.map f o) ≡ is_some o
touched-known none f = refl
touched-known (some b) f = refl

-- A step whose bookings are those of the expiry.
expiry-Step :
    (now : ℕ) (id : Text) (b : Booking) (db after : Db)
    → after.bookings ≡ update_where (is_booking id) expire db.bookings
    → IsRegular after
    → find_by (is_booking id) db.bookings ≡ some b
    → Step now b db after
expiry-Step now id b db after moved regular found = record {
  regular = regular;
  fewer =
      rw moved
        (count_by-update_le (is_booking id) (is_due now) expire db.bookings (not_due_anymore now));
  known = λ x.
      rw (moved, find_by-touch (is_booking id) (is_booking x) expire db.bookings (λ y. refl))
        (touched-known (find_by (is_booking x) db.bookings) (touch (is_booking id) expire));
  less = λ due. rw moved (
      count_by-update_drop (is_booking id) (is_due now) expire db.bookings (not_due_anymore now)
        found due);
}

audited-IsRegular :
    (action : AuditAction) (id : Text) (db : Db) → IsRegular db → IsRegular (audit action id db)
unfolding audit payment_of
audited-IsRegular action id db h = record { keyed = h.keyed; unpaid = h.unpaid }

still-Step :
    (now : ℕ) (b : Booking) (db : Db) → IsRegular db → is_due now b ≡ false → Step now b db db
still-Step now b db regular calm = record {
  regular = regular;
  fewer = omega arith;
  known = λ x. refl;
  less = λ due. absurd (ground arith);
}

-- A due booking of a regular database is not paid.
due-unpaid :
    (now : ℕ) (id : Text) (b : Booking) (db : Db)
    → IsRegular db
    → find_by (is_booking id) db.bookings ≡ some b
    → is_due now b ≡ true
    → is_paid (payment_of id db) ≡ false
due-unpaid now id b db h found due =
    let same = (text_beq_iff b.id id).0 (find_by-holds (is_booking id) db.bookings b found) in
    let unpaid =
      find_by-All (λ x. is_pending x.status && is_paid (payment_of x.id db) ≡ false) (is_booking id)
        db.bookings h.unpaid found in
    subst (λ x. is_paid (payment_of x db) ≡ false) same (ground arith)

due_parts :
    (now : ℕ) (b : Booking)
    → is_due now b ≡ true
    → (is_pending b.status ≡ true) × (ltb now b.expires_at ≡ false)
due_parts now b due = (ground arith, ground arith)

early_expiry :
    (now : ℕ) (b : Booking)
    → is_pending b.status ≡ true
    → is_due now b ≡ false
    → ltb now b.expires_at ≡ true
early_expiry now b pending calm = ground arith

calm_rest :
    (now : ℕ) (b : Booking) (payment : Option Payment) (db : Db)
    → is_due now b ≡ false
    → expire_pending_booking now b payment false db ≡ (false, db)
unfolding expire_pending_booking
calm_rest now b none db calm = elim (Bool-cases (is_pending b.status)) [
  | inr closed ↦ rw (expire_pending_booking, closed)
  | inl pending ↦
      let early : ltb now b.expires_at ≡ true = early_expiry now b pending calm in
      rw (expire_pending_booking, pending, early)
]
calm_rest now b (some p) db calm = elim (Bool-cases (is_pending b.status)) [
  | inr closed ↦ rw (expire_pending_booking, closed)
  | inl pending ↦ elim (Bool-cases (is_payment_succeeded p.status)) [
    | inl paid ↦ rw (expire_pending_booking, pending, paid)
    | inr unpaid ↦
        let early : ltb now b.expires_at ≡ true = early_expiry now b pending calm in
        rw (expire_pending_booking, pending, unpaid, early)
  ]
]

-- The transaction for a booking that finds itself by its identifier.
pub candidate-Step :
    (now : ℕ) (b : Booking) (db : Db)
    → IsRegular db
    → find_by (is_booking b.id) db.bookings ≡ some b
    → (changed : Bool) × (after : Db) × (expire_candidate now b.id db ≡ ok (changed, after))
      × Step now b db after
unfolding expire_candidate expire_pending_booking audit
candidate-Step now b db h found = elim (Bool-cases (is_due now b)) [
  | inr calm ↦
      let rest = calm_rest now b (payment_of b.id db) db calm in
      (false, db, rw (expire_candidate, found, rest), still-Step now b db h calm)
  | inl due ↦
      let (pending, over) = due_parts now b due in
      let unpaid = due-unpaid now b.id b db h found due in
      elim (Option-cases (payment_of b.id db)) [
        | inl free ↦
            let after = audit AuditAction.booking_expired b.id (expired_state b.id db) in
            (
              true,
              after,
              rw (expire_candidate, found, expire_pending_booking, free, pending, over),
              expiry-Step now b.id b db after refl
                  (audited-IsRegular _ b.id (expired_state b.id db) (expired-IsRegular b.id db h))
                  found,
            )
        | inr (p, paid) ↦
            let unpaid_row : is_payment_succeeded p.status ≡ false = rw paid at unpaid in
            elim (Bool-cases (is_payment_pending p.status)) [
              | inl open_payment ↦
                  let after =
                    audit AuditAction.booking_expired b.id (expired_with_payment b.id p.id db) in
                  (
                    true,
                    after,
                    rw (
                      expire_candidate, found, expire_pending_booking, paid, pending, unpaid_row,
                      over, open_payment,
                    ),
                    expiry-Step now b.id b db after refl
                        (audited-IsRegular _ b.id (expired_with_payment b.id p.id db)
                          (expired_with_payment-IsRegular b.id p.id db h))
                        found,
                  )
              | inr other ↦
                  let after = audit AuditAction.booking_expired b.id (expired_state b.id db) in
                  (
                    true,
                    after,
                    rw (
                      expire_candidate, found, expire_pending_booking, paid, pending, unpaid_row,
                      over, other,
                    ),
                    expiry-Step now b.id b db after refl
                        (audited-IsRegular _ b.id (expired_state b.id db)
                          (expired-IsRegular b.id db h))
                        found,
                  )
            ]
      ]
]
