-- ===== src/Bookings/Resubmit.antt =====
-- What a second request under an idempotency key gets.
use eventory.Common.{
  ℕ, ◌+◌, ◌≤◌, ◌≡◌, refl, ap, subst, ◌≢◌, inl, inr, true, false, not, Option, none, some, List, ◌∷◌,
  arith, leb, ◌==◌, nat_eq, Bool-cases, Option-cases, Text, text_beq_iff, text_eq, text_beq_refl,
  is_empty, find_by, filter_by, update_where, find_by-update_where,
}
use eventory.Errors.{Code, conflict, ok, err, Result-cases}
use eventory.Domain.{EventStatus}
use eventory.Seating.Redis.{Redis}
use eventory.Bookings.View.{BookingView}
use eventory.Bookings.Sale.{SaleDetails}
use eventory.Bookings.Idempotency.{
  IdempotencyRecord, CheckoutDb, Fingerprint, assert_idempotency_fingerprint, has_key,
  find_idempotent, is_initialized, store_idempotency,
}
use eventory.Bookings.Initialize.{Provider, Attempt}
use eventory.Bookings.Checkout.{CheckoutInput, RequestKey, Drawn, request_key}
use eventory.Bookings.Create.{create, answer_from, replay_idempotency}

-- The record of a response that is to be given again.
pub record IsKept (fingerprint : Text) (response : BookingView) (r : IdempotencyRecord)
    : Type 0 where
  pub status : r.response_status ≡ 201
  pub body : r.response_body ≡ some response
  pub until : r.expires_at ≡ response.expires_at
  pub bound : r.request_fingerprint ≡ some fingerprint

-- What passes the test of the fingerprints is the fingerprint that is stored.
fingerprint-bound :
    (stored : Option Text) (fingerprint : Text)
    → is_empty fingerprint ≡ false
    → assert_idempotency_fingerprint stored (some fingerprint) ≡ ok tt
    → stored ≡ some fingerprint
unfolding assert_idempotency_fingerprint
fingerprint-bound none fingerprint full h =
    absurd (cc (rw (assert_idempotency_fingerprint, full) at h))
fingerprint-bound (some s) fingerprint full h = elim (Bool-cases (is_empty s)) [
  | inl empty ↦ absurd (cc (rw (assert_idempotency_fingerprint, full, empty) at h))
  | inr given ↦ elim (Bool-cases (s == fingerprint)) [
    | inl same ↦ ap some ((text_beq_iff s fingerprint).0 same)
    | inr other ↦ absurd (cc (rw (assert_idempotency_fingerprint, full, given, other) at h))
  ]
]

-- The record of the key is that of the response.
abbrev pub Keeps : Text → Text → BookingView → CheckoutDb → Type 0
Keeps key fingerprint response db =
    (r : IdempotencyRecord) × (find_by (has_key key) db.idempotency_records ≡ some r)
    × IsKept fingerprint response r

found_first :
    (r : IdempotencyRecord) (rs : List IdempotencyRecord)
    → find_by (has_key r.key) (r ∷ rs) ≡ some r
unfolding find_by
found_first r rs = rw (text_beq_refl r.key)

-- The record that `storeIdempotency` creates.
abbrev created : Text → Text → Text → BookingView → IdempotencyRecord
created user_id key fingerprint response = record {
  key = key;
  user_id = user_id;
  booking_id = some response.id;
  request_fingerprint = some fingerprint;
  response_status = 201;
  response_body = some response;
  expires_at = response.expires_at;
}

created-IsKept :
    (user_id key fingerprint : Text) (response : BookingView) (rs : List IdempotencyRecord)
    → (r : IdempotencyRecord) × (find_by
          (has_key key)
          (created user_id key fingerprint response ∷ rs)
        ≡ some r)
      × IsKept fingerprint response r
created-IsKept user_id key fingerprint response rs = (
  created user_id key fingerprint response,
  found_first (created user_id key fingerprint response) rs,
  record { status = refl; body = refl; until = refl; bound = refl },
)

abbrev answered : BookingView → IdempotencyRecord → IdempotencyRecord
answered response x = record x {
  booking_id = some response.id;
  response_status = 201;
  response_body = some response;
  expires_at = response.expires_at;
}

updated-IsKept :
    (key fingerprint : Text) (response : BookingView) (rs : List IdempotencyRecord)
    (found : IdempotencyRecord)
    → find_by (has_key key) rs ≡ some found
    → found.request_fingerprint ≡ some fingerprint
    → (r : IdempotencyRecord) × (find_by
          (has_key key)
          (update_where (has_key key) (answered response) rs)
        ≡ some r)
      × IsKept fingerprint response r
updated-IsKept key fingerprint response rs found there bound = (
  answered response found,
  rw (find_by-update_where (has_key key) (answered response) rs (λ x. refl), there),
  record { status = refl; body = refl; until = refl; bound = bound },
)

-- A record that has not expired is found, and nothing is deleted.
find_idempotent-valid :
    (now : ℕ) (key : Text) (db : CheckoutDb) (r : IdempotencyRecord)
    → find_by (has_key key) db.idempotency_records ≡ some r
    → leb r.expires_at now ≡ false
    → find_idempotent now key db ≡ (some r, db)
unfolding find_idempotent
find_idempotent-valid now key db r found valid = rw (find_idempotent, found, valid)

find_idempotent-fresh :
    (now : ℕ) (key : Text) (db : CheckoutDb)
    → find_by (has_key key) db.idempotency_records ≡ none
    → find_idempotent now key db ≡ (none, db)
unfolding find_idempotent
find_idempotent-fresh now key db missing = rw (find_idempotent, missing)

find_idempotent-late :
    (now : ℕ) (key : Text) (db : CheckoutDb) (r : IdempotencyRecord)
    → find_by (has_key key) db.idempotency_records ≡ some r
    → leb r.expires_at now ≡ true
    → (kept : CheckoutDb) × (find_idempotent now key db ≡ (none, kept))
unfolding find_idempotent
find_idempotent-late now key db r found late = (
  record db { idempotency_records = filter_by (λ x. not (has_key key x)) db.idempotency_records },
  rw (find_idempotent, found, late),
)

stored-Keeps :
    (now : ℕ) (user_id key fingerprint : Text) (response : BookingView) (db after : CheckoutDb)
    → is_empty fingerprint ≡ false
    → is_initialized response ≡ true
    → store_idempotency now user_id key fingerprint response db ≡ (ok tt, after)
    → Keeps key fingerprint response after
unfolding store_idempotency
stored-Keeps now user_id key fingerprint response db after full ready h =
    let keeps : CheckoutDb → Type 0 = Keeps key fingerprint response in
    elim (Option-cases (find_by (has_key key) db.idempotency_records)) [
      | inl fresh ↦
          let none_yet = find_idempotent-fresh now key db fresh in
          let e = rw (store_idempotency, ready, none_yet, none_yet) at h in
          subst keeps (ap (λ p. p.1) e) (created-IsKept user_id key fingerprint response _)
      | inr (r, found) ↦ elim (Bool-cases (leb r.expires_at now)) [
        | inl late ↦
            let (kept, deleted) = find_idempotent-late now key db r found late in
            let e = rw (store_idempotency, ready, deleted, deleted) at h in
            subst keeps (ap (λ p. p.1) e) (created-IsKept user_id key fingerprint response _)
        | inr valid ↦
            let kept = find_idempotent-valid now key db r found valid in
            let e = rw (store_idempotency, ready, kept) at h in
            elim (Result-cases
              (assert_idempotency_fingerprint r.request_fingerprint (some fingerprint))) [
                | inr (f, refused) ↦ absurd (cc (ap (λ p. p.0) (rw refused at e)))
                | inl (u, same) ↦ subst keeps (ap (λ p. p.1) (rw (same, kept) at e)) (
                    updated-IsKept key fingerprint response db.idempotency_records r found
                      (fingerprint-bound r.request_fingerprint fingerprint full same))
              ]
      ]
    ]

-- The answer to a request whose key has a record.
create-answers :
    (hash : Text → Text) (stringify : Fingerprint → Text) (redis : Redis)
    (statuses : Text → Option EventStatus) (details : Text → SaleDetails) (provider : Provider)
    (attempt : Attempt) (now : ℕ) (drawn : Drawn) (user_id : Text) (input : CheckoutInput)
    (store : redis.Store) (db : CheckoutDb) (request : RequestKey) (r : IdempotencyRecord)
    → request_key hash stringify user_id input ≡ some request
    → find_by (has_key request.key) db.idempotency_records ≡ some r
    → leb r.expires_at now ≡ false
    → create hash stringify redis statuses details provider attempt now drawn user_id input store db
      ≡ answer_from provider attempt now user_id request r db
unfolding create
create-answers hash stringify redis statuses details provider attempt now drawn user_id input store
      db request r named found valid =
    let kept = find_idempotent-valid now request.key db r found valid in
    rw (create, named, named, kept, named, kept)

-- A request that is sent again, under the key and with the fingerprint of one whose response was
-- stored, gets that response until it expires, and changes nothing: whatever became of the hold and of
-- the sale, and without the provider.
pub create-replay :
    (hash : Text → Text) (stringify : Fingerprint → Text) (redis : Redis)
    (statuses : Text → Option EventStatus) (details : Text → SaleDetails) (provider : Provider)
    (attempt : Attempt) (stored_at now : ℕ) (drawn : Drawn) (user_id : Text) (input : CheckoutInput)
    (store : redis.Store) (before db : CheckoutDb) (request : RequestKey) (response : BookingView)
    → request_key hash stringify user_id input ≡ some request
    → is_empty request.fingerprint ≡ false
    → is_initialized response ≡ true
    → store_idempotency stored_at user_id request.key request.fingerprint response before
      ≡ (ok tt, db)
    → now + 1 ≤ response.expires_at
    → create hash stringify redis statuses details provider attempt now drawn user_id input store db
      ≡ (ok response, db)
unfolding answer_from replay_idempotency assert_idempotency_fingerprint
create-replay hash stringify redis statuses details provider attempt stored_at now drawn user_id
      input store before db request response named full ready stored early =
    let (r, found, kept) =
      stored-Keeps stored_at user_id request.key request.fingerprint response before db full ready
        stored in
    let valid : leb r.expires_at now ≡ false = rw kept.until (ground arith) in
    let answer =
      create-answers hash stringify redis statuses details provider attempt now drawn user_id input
        store db request r named found valid in
    rw answer (
      rw (
        answer_from,
        assert_idempotency_fingerprint,
        kept.bound,
        full,
        text_beq_refl request.fingerprint,
        replay_idempotency,
        kept.status,
        kept.body,
      ))

-- While the record of a key has not expired and holds a fingerprint, a request under that key with
-- another fingerprint is refused, and nothing changes; neither fingerprint is empty.
pub create-refuses :
    (hash : Text → Text) (stringify : Fingerprint → Text) (redis : Redis)
    (statuses : Text → Option EventStatus) (details : Text → SaleDetails) (provider : Provider)
    (attempt : Attempt) (now : ℕ) (drawn : Drawn) (user_id : Text) (input : CheckoutInput)
    (store : redis.Store) (db : CheckoutDb) (request : RequestKey) (r : IdempotencyRecord)
    (fingerprint : Text)
    → request_key hash stringify user_id input ≡ some request
    → find_by (has_key request.key) db.idempotency_records ≡ some r
    → now + 1 ≤ r.expires_at
    → r.request_fingerprint ≡ some fingerprint
    → is_empty fingerprint ≡ false
    → is_empty request.fingerprint ≡ false
    → fingerprint ≢ request.fingerprint
    → create hash stringify redis statuses details provider attempt now drawn user_id input store db
      ≡ (err (conflict Code.idempotency_key_reused), db)
unfolding answer_from assert_idempotency_fingerprint
create-refuses hash stringify redis statuses details provider attempt now drawn user_id input store
      db request r fingerprint named found early bound full given other =
    let valid : leb r.expires_at now ≡ false = ground arith in
    let answer =
      create-answers hash stringify redis statuses details provider attempt now drawn user_id input
        store db request r named found valid in
    elim (Bool-cases (fingerprint == request.fingerprint)) [
      | inl same ↦ absurd (other ((text_beq_iff fingerprint request.fingerprint).0 same))
      | inr differs ↦
          rw answer (rw (answer_from, assert_idempotency_fingerprint, bound, given, full, differs))
    ]
