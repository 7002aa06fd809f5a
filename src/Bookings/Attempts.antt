-- ===== src/Bookings/Attempts.antt =====
-- One attempt at the provider at a time, and no effect of an attempt that was superseded
-- (`ensureProviderPayment`, `persistProviderPayment` and `recordProviderFailure`).
use eventory.Common.{
  ℕ, ◌+◌, ◌≤◌, ◌≡◌, refl, sym, ◌∙◌, inl, inr, true, false, none, some, List, [], ◌∷◌, arith, ltb,
  ◌==◌, nat_eq, Bool-cases, Option-cases, All, Text, text_eq, find_by, update_where, count_by,
  find_by-holds, find_by-All, Bool, ap,
}
use eventory.Errors.{ok}
use eventory.Domain.{PaymentStatus}
use eventory.Bookings.Model.{Payment, Db, is_payment, Booking}
use eventory.Bookings.View.{to_view}
use eventory.Bookings.Initialize.{Provider, Attempt, initialize_payment, wait_for_provider_payment}
use eventory.Bookings.Provider.{
  CreatedPayment, is_claimable, claim_attempt, has_attempt, is_finalizable,
  persist_provider_payment, record_provider_failure, provider_attempt_lease_ms,
}

-- No row of the payment is with the attempt: another attempt has claimed it, or none is under way.
abbrev pub IsSuperseded : Text → Text → Db → Type 0
IsSuperseded attempt payment_id db =
    All (λ p. (p.id == payment_id ≡ true) → has_attempt attempt p ≡ false) db.payments

none_mine :
    (now : ℕ) (attempt payment_id : Text) (db : Db) (ps : List Payment)
    → All (λ p. (p.id == payment_id ≡ true) → has_attempt attempt p ≡ false) ps
    → count_by (is_finalizable now attempt payment_id db.bookings) ps ≡ 0
unfolding count_by
none_mine now attempt payment_id db [] h = refl
none_mine now attempt payment_id db (p ∷ ps) h =
    let rest = none_mine now attempt payment_id db ps h.1 in
    elim (Bool-cases (p.id == payment_id)) [
      | inr other ↦ rw (other, rest)
      | inl this ↦ rw (this, h.0 this, rest)
    ]

found-superseded :
    (attempt payment_id : Text) (db : Db) (p : Payment)
    → find_by (is_payment payment_id) db.payments ≡ some p
    → IsSuperseded attempt payment_id db
    → has_attempt attempt p ≡ false
found-superseded attempt payment_id db p found h =
    find_by-All (λ x. (x.id == payment_id ≡ true) → has_attempt attempt x ≡ false)
      (is_payment payment_id) db.payments h found
      (find_by-holds (is_payment payment_id) db.payments p found)

-- An attempt that was superseded is fenced off: when it ends, with an answer of the provider or with
-- an error, nothing in the database changes.
pub superseded-fenced :
    (now later attempted_at : ℕ) (attempt payment_id message : Text) (created : CreatedPayment)
    (db : Db) (p : Payment)
    → find_by (is_payment payment_id) db.payments ≡ some p
    → IsSuperseded attempt payment_id db
    → (persist_provider_payment now later attempt payment_id created db ≡ ok db)
      × (record_provider_failure later attempted_at attempt payment_id message db ≡ ok db)
unfolding persist_provider_payment record_provider_failure
superseded-fenced now later attempted_at attempt payment_id message created db p found h =
    let other = found-superseded attempt payment_id db p found h in
    let zero_rows = none_mine now attempt payment_id db db.payments h in
    elim (Option-cases p.provider_reference) [
      | inl open_row ↦ (
        rw (persist_provider_payment, zero_rows, found, open_row, other),
        rw (record_provider_failure, found, open_row, other),
      )
      | inr (x, there) ↦ (
        rw (persist_provider_payment, zero_rows, found, there),
        rw (record_provider_failure, found, there),
      )
    ]

claimable-le :
    (now : ℕ) (id : Text) (ps : List Payment)
    → count_by (is_claimable now id) ps ≤ count_by (is_payment id) ps
unfolding count_by
claimable-le now id [] = omega arith
claimable-le now id (p ∷ ps) = elim (Bool-cases (p.id == id)) [
  | inr other ↦ rw other (omega (arith, claimable-le now id ps))
  | inl this ↦ rw this (ground (arith, claimable-le now id ps))
]

-- A row that was claimed cannot be claimed again before its lease is over.
claimed_row :
    (now t : ℕ) (attempt id : Text) (p : Payment)
    → t ≤ now + provider_attempt_lease_ms
    → is_claimable t id (record p {
      status = PaymentStatus.processing;
      provider_attempt_id = some attempt;
      provider_attempted_at = some now;
      provider_last_error = none;
    })
      ≡ false
claimed_row now t attempt id p until =
    let early : ltb (now + provider_attempt_lease_ms) t ≡ false = ground arith in
    rw early (ground arith)

claimable-id :
    (now : ℕ) (id : Text) (p : Payment) → is_claimable now id p ≡ true → p.id == id ≡ true
claimable-id now id p h = ground arith

other-id : (now : ℕ) (id : Text) (p : Payment) → p.id == id ≡ false → is_claimable now id p ≡ false
other-id now id p h = rw h

leased :
    (now t : ℕ) (attempt id : Text) (ps : List Payment)
    → t ≤ now + provider_attempt_lease_ms
    → count_by (is_claimable now id) ps ≡ count_by (is_payment id) ps
    → count_by (is_claimable t id) (
        update_where
          (is_claimable now id)
          (λ p. record p {
            status = PaymentStatus.processing;
            provider_attempt_id = some attempt;
            provider_attempted_at = some now;
            provider_last_error = none;
          })
          ps)
      ≡ 0
unfolding count_by update_where
leased now t attempt id [] until h = refl
leased now t attempt id (p ∷ ps) until h =
    let bound = claimable-le now id ps in
    elim (Bool-cases (is_claimable now id p)) [
      | inl mine ↦
          let this = claimable-id now id p mine in
          let all_of_rest = rw (mine, this) at h in
          rw (mine, claimed_row now t attempt id p until)
            (omega (arith, leased now t attempt id ps until (omega (arith, all_of_rest))))
      | inr not_mine ↦ elim (Bool-cases (p.id == id)) [
        | inl this ↦
            let too_few = rw (not_mine, this) at h in absurd (omega (arith, too_few, bound))
        | inr other ↦
            let all_of_rest = rw (not_mine, other) at h in
            rw (not_mine, other-id t id p other)
              (omega (arith, leased now t attempt id ps until (omega (arith, all_of_rest))))
      ]
    ]

-- A claim within the lease changes no row.
claim_attempt-leased :
    (now t : ℕ) (attempt attempt' payment_id : Text) (db : Db)
    → count_by (is_payment payment_id) db.payments ≡ 1
    → (claim_attempt now attempt payment_id db).0 ≡ 1
    → t ≤ now + provider_attempt_lease_ms
    → (claim_attempt t attempt' payment_id (claim_attempt now attempt payment_id db).1).0 ≡ 0
unfolding claim_attempt
claim_attempt-leased now t attempt attempt' payment_id db single claimed until =
    leased now t attempt payment_id db.payments until (claimed ∙ sym single)

update_where-none :
    (p : Payment → Bool) (f : Payment → Payment) (ps : List Payment)
    → count_by p ps ≡ 0
    → update_where p f ps ≡ ps
unfolding count_by update_where
update_where-none p f [] h = refl
update_where-none p f (x ∷ ps) h = elim (Bool-cases (p x)) [
  | inl t ↦ absurd (ground (arith, rw t at h))
  | inr n ↦ rw n (ap (λ rest. x ∷ rest) (update_where-none p f ps (omega (arith, rw n at h))))
]

claim_attempt-none :
    (t : ℕ) (attempt payment_id : Text) (db : Db)
    → (claim_attempt t attempt payment_id db).0 ≡ 0
    → claim_attempt t attempt payment_id db ≡ (0, db)
unfolding claim_attempt
claim_attempt-none t attempt payment_id db h =
    rw (h, update_where-none (is_claimable t payment_id) _ db.payments h)

-- Only one attempt holds the lease: once a claim has changed the payment's row, the only one of its
-- identifier, a request that comes to claim it within the lease answers with what it finds while it
-- waits, whatever the provider would have answered it, and leaves the database as it is.
pub initialize_payment-waits :
    (provider : Provider) (now : ℕ) (attempt : Text) (second : Attempt) (booking : Booking)
    (payment : Payment) (db : Db)
    → count_by (is_payment payment.id) db.payments ≡ 1
    → (claim_attempt now attempt payment.id db).0 ≡ 1
    → second.now ≤ now + provider_attempt_lease_ms
    → initialize_payment provider second booking payment (claim_attempt now attempt payment.id db).1
      ≡ (
        ok (wait_for_provider_payment booking.id (to_view booking (some payment)) second.polls),
        (claim_attempt now attempt payment.id db).1,
      )
unfolding initialize_payment
initialize_payment-waits provider now attempt second booking payment db single claimed until =
    let after = (claim_attempt now attempt payment.id db).1 in
    let nothing =
      claim_attempt-none second.now second.id payment.id after (
        claim_attempt-leased now second.now attempt second.id payment.id db single claimed until) in
    rw (initialize_payment, nothing) refl
