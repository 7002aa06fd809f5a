-- ===== src/Bookings/Idempotency.antt =====
-- bookings.service.ts: the record of an idempotency key and what a replay makes of it. `hash` is the
-- SHA-256 of node:crypto in hexadecimal and `stringify` is `JSON.stringify`; all the records are of
-- the one scope `booking:create`.
use eventory.Common.{
  ℕ, Bool, false, ◌&&◌, not, Option, none, some, List, [], ◌∷◌, ◌++◌, leb, if◌then◌else◌, ◌==◌,
  nat_eq, get_or, Text, text_eq, is_empty, trim, find_by, filter_by, update_where,
}
use eventory.Errors.{Code, conflict, Result, ok, err, ◌>>◌, throw_if}
use eventory.Seating.Checks.{unique, sort}
use eventory.Bookings.Model.{Db}
use eventory.Bookings.View.{BookingView}

pub record IdempotencyRecord : Type 0 where
  pub key : Text
  pub user_id : Text
  pub booking_id : Option Text
  pub request_fingerprint : Option Text
  pub response_status : ℕ
  -- the view of a 201 record; that of a 202 record only says that the provider is pending
  pub response_body : Option BookingView
  pub expires_at : ℕ

-- The tables of the bookings with that of the idempotency records.
pub record CheckoutDb : Type 0 where
  pub core : Db
  pub idempotency_records : List IdempotencyRecord

-- The object that `requestFingerprint` prints.
pub record Fingerprint : Type 0 where
  pub event_session_id : Text
  pub seat_ids : List Text
  pub hold_token : Text
  pub client_total_minor : Option ℕ

unfoldable pub request_fingerprint :
    (Text → Text) → (Fingerprint → Text) → Text → List Text → Text → Option ℕ → Text
request_fingerprint hash stringify event_session_id seat_ids hold_token client_total_minor = hash (
    stringify (record {
      event_session_id = event_session_id;
      seat_ids = sort (unique seat_ids);
      hold_token = trim hold_token;
      client_total_minor = client_total_minor;
    }))

-- `idempotencyKey`
abbrev pub idempotency_key : (Text → Text) → Text → Text → Text
idempotency_key hash user_id key = hash (user_id ++ b':' ∷ key)

-- A fingerprint that is there and not empty, as `if (fingerprint)` tests it.
abbrev pub is_given : Option Text → Bool
is_given none = false
is_given (some s) = not (is_empty s)

unfoldable pub assert_idempotency_fingerprint : Option Text → Option Text → Result (Unit {0})
assert_idempotency_fingerprint stored request =
    throw_if (is_given request && not (is_given stored))
      (conflict Code.idempotency_key_requires_new_request)
    >> throw_if
        (is_given stored && (is_given request && not (get_or stored [] == get_or request [])))
        (conflict Code.idempotency_key_reused)

abbrev pub has_key : Text → IdempotencyRecord → Bool
has_key key record_ = record_.key == key

-- `findIdempotent`: a record that has expired is deleted. The pair of scope and key is unique, so
-- the record's `id` selects the rows with its key.
unfoldable pub find_idempotent : ℕ → Text → CheckoutDb → Option IdempotencyRecord × CheckoutDb
find_idempotent now key db = elim (find_by (has_key key) db.idempotency_records) [
  | none ↦ (none, db)
  | some r ↦
      if leb r.expires_at now
      then (
        none,
        record db {
          idempotency_records = filter_by (λ x. not (has_key key x)) db.idempotency_records;
        },
      )
      else (some r, db)
]

abbrev pub provider_reference_of : BookingView → Option Text
provider_reference_of view = elim view.payment [ none ↦ none | some p ↦ p.provider_reference ]

abbrev pub is_initialized : BookingView → Bool
is_initialized view = is_given (provider_reference_of view)

-- `storeIdempotency`, for a key that is hashed already. A response that is still being initialised
-- is not frozen.
unfoldable pub store_idempotency :
    ℕ → Text → Text → Text → BookingView → CheckoutDb → Result (Unit {0}) × CheckoutDb
store_idempotency now user_id key fingerprint response db =
    if not (is_initialized response)
    then (ok tt, db)
    else (let (existing, kept) = find_idempotent now key db in
        elim existing [
          | some r ↦
              elim (assert_idempotency_fingerprint r.request_fingerprint (some fingerprint)) [
                | err e ↦ (err e, kept)
                | ok _ ↦ (
                  ok tt,
                  record kept {
                    idempotency_records =
                        update_where (has_key key)
                          (λ x. record x {
                            booking_id = some response.id;
                            response_status = 201;
                            response_body = some response;
                            expires_at = response.expires_at;
                          })
                          kept.idempotency_records;
                  },
                )
              ]
          | none ↦ (
            ok tt,
            record kept {
              idempotency_records =
                  record {
                    key = key;
                    user_id = user_id;
                    booking_id = some response.id;
                    request_fingerprint = some fingerprint;
                    response_status = 201;
                    response_body = some response;
                    expires_at = response.expires_at;
                  }
                  ∷ kept.idempotency_records;
            },
          )
        ])
