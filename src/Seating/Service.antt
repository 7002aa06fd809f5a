-- ===== src/Seating/Service.antt =====
-- seating.service.ts: the operations that change the holds. Each returns what it returns or throws
-- together with the store and the updates published through the gateway; what is drawn at random
-- (`randomUUID`, `randomBytes`) is an argument, and so is the reading of the clock.
use eventory.Common.{
  ℕ, ◌+◌, Bool, false, ◌||◌, not, Option, none, some, List, [], ◌∷◌, ltb, nat_beq, if◌then◌else◌,
  ◌==◌, nat_eq, is_some, get_or, length, any, all, includes, Text, text_eq, is_empty, trim,
  filter_by,
}
use eventory.Errors.{Code, conflict, not_found, Result, ok, err, ◌>>=◌, ◌>>◌, throw_if, or_throw}
use eventory.Domain.{SeatAllocationStatus, EventStatus, is_sales_open, is_available}
use eventory.Uuid.{is_uuid}
use eventory.Seating.Redis.{Redis, HoldResponse, Stored, hold, response}
use eventory.Seating.Holds.{seat_hold_request_key, seat_hold_key, done, acquire_script, Reply}
use eventory.Seating.Checks.{
  assert_uuid, normalize_seat_ids, seat_keys, parse_hold, parse_hold_response,
}

pub record Allocation : Type 0 where
  pub seat_id : Text
  pub status : SeatAllocationStatus

-- What `findSession` loads of an event session.
pub record SaleSession : Type 0 where
  pub event_status : EventStatus
  pub sales_start_at : ℕ
  pub sales_end_at : ℕ
  pub allocations : List Allocation

pub data SeatState : Type 0 where
  held available blocked sold : SeatState

-- The arguments of `gateway.publishSeatChange`.
pub record SeatUpdate : Type 0 where
  pub event_session_id : Text
  pub seat_ids : List Text
  pub state : SeatState
  pub hold_expires_at : Option ℕ

pub record World (Store : Type 0) : Type 0 where
  pub store : Store
  pub published : List SeatUpdate

unfoldable pub find_session : (Text → Option SaleSession) → Text → Result SaleSession
find_session sessions id = do
  throw_if (not (is_uuid id)) (not_found Code.event_session_not_found)
  or_throw (sessions id) (not_found Code.event_session_not_found)

-- The checks of `hold` on the session and its allocations.
unfoldable pub check_sale : ℕ → SaleSession → List Text → Result (Unit {0})
check_sale now session ids = do
  throw_if
      (not (is_sales_open session.event_status)
        || (ltb now session.sales_start_at || ltb session.sales_end_at now))
      (conflict Code.sales_not_open)
  let allocations = filter_by (λ a. includes ids a.seat_id) session.allocations
  throw_if (not (nat_beq (length allocations) (length ids))) (conflict Code.seat_not_found)
  throw_if (any (λ a. not (is_available a.status)) allocations) (conflict Code.seat_unavailable)

unfoldable pub hold_checks : (Text → Option SaleSession) → ℕ → Text → List Text → Result (List Text)
unfolding find_session check_sale
hold_checks sessions now event_session_id seat_ids = do
  assert_uuid event_session_id Code.event_session_invalid
  ids ← normalize_seat_ids seat_ids
  session ← find_session sessions event_session_id
  check_sale now session ids
  ok ids

module _ (r : Redis) where
  open r use {Store, get, set, delete}

  -- `holdKeysExist`
  unfoldable pub hold_keys_exist : ℕ → HoldResponse → Store → Bool
  hold_keys_exist now p s =
      all
        (λ id. elim (parse_hold (get now (seat_hold_key p.event_session_id id) s)) [
          | none ↦ false
          | some h ↦ h.token == p.hold_token
        ])
        p.seat_ids

  -- The replay of a request key: the answer, if it is still good, and else the store without it.
  unfoldable pub replay_hold : ℕ → Option Text → Store → Option HoldResponse × Store
  replay_hold now none s = (none, s)
  replay_hold now (some key) s =
      let existing = get now key s in
      let kept = if is_some existing then delete key s else s in
      elim (parse_hold_response existing) [
        | none ↦ (none, kept)
        | some p ↦ if hold_keys_exist now p s then (some p, s) else (none, kept)
      ]

  -- What `hold` makes of the acquisition script's reply.
  pub settle_hold :
      ℕ
      → ℕ
      → Text
      → List Text
      → Option Text
      → HoldResponse
      → World Store
      → Reply × Store
      → Result HoldResponse × World Store
  settle_hold ttl now event_session_id ids request_key answer w (done, s) = (
    ok answer,
    record {
      store = elim request_key [ none ↦ s | some key ↦ set now ttl key (response answer) s ];
      published =
          record {
            event_session_id = event_session_id;
            seat_ids = ids;
            state = held;
            hold_expires_at = some answer.expires_at;
          }
          ∷ w.published;
    },
  )
  settle_hold ttl now event_session_id ids request_key answer w (_, s) =
      (err (conflict Code.seat_already_held), record w { store = s })

  -- The rest of `hold`, behind the replay.
  unfoldable pub acquire :
      ℕ
      → ℕ
      → Text
      → Text
      → Text
      → Text
      → List Text
      → Option Text
      → World Store
      → Result HoldResponse × World Store
  unfolding settle_hold
  acquire ttl now hold_id hold_token event_session_id user_id ids request_key w =
      let value : Stored = hold (record {
        token = hold_token;
        hold_id = hold_id;
        user_id = user_id;
        event_session_id = event_session_id;
        seat_ids = some ids;
        expires_at = now + ttl;
      }) in
      let answer : HoldResponse = record {
        hold_id = hold_id;
        hold_token = hold_token;
        event_session_id = event_session_id;
        seat_ids = ids;
        expires_at = now + ttl;
      } in
      settle_hold ttl now event_session_id ids request_key answer w
        (acquire_script r now (seat_keys event_session_id ids) value ttl w.store)

  unfoldable pub hold_seats :
      (Text → Option SaleSession)
      → (Text → Text)
      → ℕ
      → ℕ
      → Text
      → Text
      → Text
      → Text
      → List Text
      → Option Text
      → World Store
      → Result HoldResponse × World Store
  hold_seats sessions safe_key ttl now hold_id hold_token event_session_id user_id seat_ids
        idempotency_key w =
      let key = trim (get_or idempotency_key []) in
      let request_key : Option Text =
        if is_empty key then none else some (seat_hold_request_key user_id (safe_key key)) in
      elim (hold_checks sessions now event_session_id seat_ids) [
        | err e ↦ (err e, w)
        | ok ids ↦
            let (replayed, s) = replay_hold now request_key w.store in
            elim replayed [
              | some p ↦ (ok p, w)
              | none ↦
                  acquire ttl now hold_id hold_token event_session_id user_id ids request_key
                    (record w { store = s })
            ]
      ]
