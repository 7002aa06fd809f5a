-- ===== src/Errors.antt =====
-- What a service returns or throws. The classes are those of @nestjs/common that the services
-- throw; each carries the `code` of its response body. `unique_violation` is Prisma's P2002, and
-- `internal` stands for any other error (a row that must exist and does not, a failed call).
use eventory.Common.{◌≡◌, refl, ap, ◌⊎◌, inl, inr, Bool, true, false, Option, none, some}

pub data Code : Type 0 where
  hold_expired hold_not_owned hold_must_be_checked_out_as_a_unit hold_already_checked_out : Code
  seat_selection_invalid event_session_invalid hold_invalid event_session_not_found : Code
  sales_not_open seat_not_found seat_unavailable seat_already_held seat_already_sold : Code
  sale_snapshot_changed currency_mismatch ticket_type_missing ticket_capacity_reached : Code
  booking_not_found payment_not_found payment_amount_mismatch payment_event_replay_mismatch : Code
  idempotency_request_in_progress idempotency_key_requires_new_request : Code
  idempotency_key_reused webhook_processing_failed unsupported_event_type : Code
  event_not_found event_invalid_transition event_missing_inventory : Code
  event_already_started event_immutable_after_sales invalid_date invalid_date_range : Code
  session_sales_window_invalid organization_access_denied user_not_found : Code
  organization_member_exists invalid_organization_name organization_slug_conflict ticket_type_exists
        event_slug_conflict venue_not_found :
      Code
  invalid_qr_signature wrong_event qr_key_version_unsupported : Code
  invalid_credentials refresh_token_reuse registration_conflict weak_password : Code
  rate_limited session_origin_denied csrf_origin_denied : Code
  admin_self_moderation_denied payment_reconciliation_not_found : Code
  payment_reconciliation_already_resolved : Code
  ticket_code_invalid qr_nonce_invalid ticket_not_found : Code
  authentication_required insufficient_role : Code

pub data Failure : Type 0 where
  conflict forbidden not_found bad_request unauthorized too_many_requests : Code → Failure
  unique_violation internal : Failure

pub data Result {ℓ} (A : Type ℓ) : Type ℓ where
  ok : A → Result A
  err : Failure → Result A

-- `if (refused) throw e`
abbrev pub throw_if : Bool → Failure → Result (Unit {0})
throw_if true e = err e
throw_if false e = ok tt

-- `if (!found) throw e`
abbrev pub or_throw {ℓ} : {A : Type ℓ} → Option A → Failure → Result A
or_throw none e = err e
or_throw (some a) e = ok a

infixl 5 ◌>>=◌
abbrev pub ◌>>=◌ {ℓ μ} : {A : Type ℓ} {B : Type μ} → Result A → (A → Result B) → Result B
err failure >>= next = err failure
ok value >>= next = next value

-- What is thrown, if anything is.
abbrev pub failure_of {ℓ} : {A : Type ℓ} → Result A → Option Failure
failure_of (ok _) = none
failure_of (err e) = some e

-- A step whose result is only that it did not throw.
infixl 5 ◌>>◌
abbrev pub ◌>>◌ {ℓ} : {B : Type ℓ} → Result (Unit {0}) → Result B → Result B
check >> rest = check >>= λ _. rest

pub Result-cases {ℓ} :
    {A : Type ℓ} (r : Result A) → ((a : A) × (r ≡ ok a)) ⊎ ((e : Failure) × (r ≡ err e))
Result-cases (ok a) = inl (a, refl)
Result-cases (err e) = inr (e, refl)

-- Inversion of a successful step.
pub >>=-eq-ok {ℓ μ} :
    {A : Type ℓ} {B : Type μ} (step : Result A) (next : A → Result B) {result : B}
    → (step >>= next) ≡ ok result
    → (value : A) × (step ≡ ok value) × (next value ≡ ok result)
>>=-eq-ok (err failure) next h = cc
>>=-eq-ok (ok value) next h = (value, refl, h)

pub ok_eq {ℓ} : {A : Type ℓ} {a b : A} → ok a ≡ ok b → a ≡ b
ok_eq {a} h = ap (λ r. elim r [ ok x ↦ x | err _ ↦ a ]) h

-- Inversion of the two tests that throw.
pub or_throw-eq-ok {ℓ} :
    {A : Type ℓ} (o : Option A) (e : Failure) (a : A) → or_throw o e ≡ ok a → o ≡ some a
or_throw-eq-ok none e a h = absurd (cc h)
or_throw-eq-ok (some b) e a h = ap some (ok_eq h)

pub throw_if-eq-ok :
    (test : Bool) (e : Failure) (u : Unit {0}) → throw_if test e ≡ ok u → test ≡ false
throw_if-eq-ok true e u h = absurd (cc h)
throw_if-eq-ok false e u h = refl
