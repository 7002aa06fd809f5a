-- ===== src/Seating/Examples.antt =====
-- Runs of the seat holds over a store in memory.
use eventory.Common.{
  is_empty, trim, false, filter_by, ℕ, ◌+◌, ◌≡◌, refl, ◌≢◌, ◌⊎◌, inl, inr, true, Option, none, some,
  List, [], ◌∷◌, arith, ltb, if◌then◌else◌, ◌==◌, nat_eq, Bool-cases, includes, Text, codes,
  text_beq, text_eq,
}
use eventory.Errors.{Code, conflict, ok, err}
use eventory.Uuid.{is_uuid}
use eventory.Seating.Redis.{Redis, HoldResponse, Stored}
use eventory.Seating.Holds.{seat_hold_request_key, set_all, acquire_script}
use eventory.Seating.Checks.{normalize_seat_ids, unique}
use eventory.Seating.Owned.{OwnedHold, assert_owned_hold}
use eventory.Domain.{EventStatus, SeatAllocationStatus}
use eventory.Seating.Replay.{hold_seats-replay}
use eventory.Seating.Service.{
  SaleSession, hold_checks, hold_seats, find_session, check_sale, World, acquire, SeatState,
  Allocation,
}
use eventory.Seating.Change.{release}
use eventory.Seating.Availability.{seat_view, seat_view-Acquired}
use eventory.Seating.Exclusion.{IsRequestKey, Acquired, acquire-Acquired, acquire-excludes}
use eventory.Seating.Selection.{IsSelection, normalize_seat_ids-IsSelection}
use eventory.Seating.Ownership.{IsOwned, assert_owned_hold-IsOwned, assert_owned_hold-one_owner}
use eventory.Seating.Checkout.{assert_owned_hold-acquire, release_outcome, Released}

-- Each key with its document and its deadline.
abbrev pub Memory : Type 0
Memory = Text → Option (Stored × ℕ)

abbrev read_entry : ℕ → Option (Stored × ℕ) → Option Stored
read_entry t none = none
read_entry t (some (v, deadline)) = if ltb t deadline then some v else none

pub memory_get-set :
    (now ttl t : ℕ) (k j : Text) (v : Stored) (s : Memory)
    → read_entry t (if k == j then some (v, now + ttl) else s j)
      ≡ (if k == j then if ltb t (now + ttl) then some v else none else read_entry t (s j))
memory_get-set now ttl t k j v s = elim (Bool-cases (k == j)) [
  | inl this ↦ rw this
  | inr other ↦ rw other
]

pub memory_get-delete :
    (t : ℕ) (k j : Text) (s : Memory)
    → read_entry t (if k == j then none else s j) ≡ (if k == j then none else read_entry t (s j))
memory_get-delete t k j s = elim (Bool-cases (k == j)) [ inl this ↦ rw this | inr other ↦ rw other ]

abbrev pub memory : Redis
memory = record {
  Store = Memory;
  get = λ t k s. read_entry t (s k);
  set = λ now ttl k v s j. if k == j then some (v, now + ttl) else s j;
  delete = λ k s j. if k == j then none else s j;
  get-set = λ now ttl t k j v s _. memory_get-set now ttl t k j v s;
  get-delete = memory_get-delete;
}

abbrev pub session : Text
session = codes "00000000-0000-4000-8000-000000000001"

abbrev pub seat_a : Text
seat_a = codes "00000000-0000-4000-8000-00000000000a"

abbrev pub seat_b : Text
seat_b = codes "00000000-0000-4000-8000-00000000000b"

abbrev pub hold_one : Text
hold_one = codes "00000000-0000-4000-8000-000000000011"

abbrev hold_two : Text
hold_two = codes "00000000-0000-4000-8000-000000000012"

abbrev pub ann : Text
ann = codes "ann"

abbrev bob : Text
bob = codes "bob"

abbrev request_key : Option Text
request_key = some (seat_hold_request_key ann (codes "k"))

abbrev pub seats : List Text
seats = seat_a ∷ seat_b ∷ []

abbrev empty_world : World Memory
empty_world = record { store = λ _. none; published = [] }

abbrev answer_one : HoldResponse
answer_one = record {
  hold_id = hold_one;
  hold_token = codes "t";
  event_session_id = session;
  seat_ids = seats;
  expires_at = 400;
}

acquired :
    (acquire memory 300 100 hold_one (codes "t") session ann seats request_key empty_world).0
    ≡ ok answer_one
unfolding acquire acquire_script set_all
acquired = refl

-- The world once Ann holds both seats.
abbrev pub held_world : World Memory
held_world =
    (acquire memory 300 100 hold_one (codes "t") session ann seats request_key empty_world).1

abbrev ann_key : IsRequestKey request_key
ann_key = (ann, codes "k", refl)

acquire-Acquired_example :
    Acquired memory 100 300 hold_one
      (codes "t")
      session
      ann
      seats
      empty_world.store
      held_world.store
acquire-Acquired_example =
    acquire-Acquired memory 300 100 hold_one (codes "t") session ann seats request_key empty_world
      answer_one ann_key acquired

abbrev seat_b_row : Allocation
seat_b_row = record { seat_id = seat_b; status = SeatAllocationStatus.available }

seat_view-Acquired_example : seat_view memory 200 session held_world.store seat_b_row ≡ (
    if includes seats seat_b
    then record { seat_id = seat_b; status = SeatState.held; hold_expires_at = some 400 }
    else seat_view memory 200 session empty_world.store seat_b_row)
seat_view-Acquired_example =
    seat_view-Acquired memory 100 300 200 hold_one (codes "t") session ann seats empty_world.store
      held_world.store seat_b_row
      (acquire-Acquired memory 300 100 hold_one (codes "t") session ann seats request_key
        empty_world answer_one ann_key acquired)
      (omega arith) (omega arith) refl

seat_b_held : includes seats seat_b ≡ true
unfolding includes text_beq
seat_b_held = refl

seat_b_wanted : includes (seat_b ∷ []) seat_b ≡ true
unfolding includes text_beq
seat_b_wanted = refl

acquire-excludes_example :
    acquire memory 300 200 hold_two
      (codes "u")
      session
      bob
      (seat_b ∷ [])
      none
      (record { store = held_world.store; published = [] })
    ≡ (err (conflict Code.seat_already_held), record { store = held_world.store; published = [] })
acquire-excludes_example =
    acquire-excludes memory 300 100 hold_one (codes "t") session ann seats request_key empty_world
      answer_one 300 200 hold_two (codes "u") bob (seat_b ∷ []) none [] seat_b ann_key acquired
      (omega arith) (omega arith) seat_b_held seat_b_wanted

session_uuid : is_uuid session ≡ true
unfolding is_uuid
session_uuid = refl

hold_uuid : is_uuid hold_one ≡ true
unfolding is_uuid
hold_uuid = refl

seats_normal : normalize_seat_ids seats ≡ ok seats
unfolding normalize_seat_ids unique includes text_beq is_uuid filter_by
seats_normal = refl

normalize_seat_ids-IsSelection_example : IsSelection seats seats
normalize_seat_ids-IsSelection_example = normalize_seat_ids-IsSelection seats seats seats_normal

abbrev owned_one : OwnedHold
owned_one = record {
  hold_id = hold_one;
  event_session_id = session;
  seat_ids = seats;
  expires_at = 400;
}

assert_owned_hold-acquire_example :
    assert_owned_hold memory 350 session ann seats hold_one held_world.store ≡ ok owned_one
assert_owned_hold-acquire_example =
    assert_owned_hold-acquire memory 300 100 350 hold_one (codes "t") session ann seats seats
      request_key empty_world answer_one session_uuid hold_uuid seats_normal ann_key acquired
      (omega arith) (omega arith)

-- The same confirmation, for the theorems that start from one.
confirmed_owned :
    assert_owned_hold memory 350 session ann seats hold_one held_world.store ≡ ok owned_one
confirmed_owned =
    assert_owned_hold-acquire memory 300 100 350 hold_one (codes "t") session ann seats seats
      request_key empty_world answer_one session_uuid hold_uuid seats_normal ann_key acquired
      (omega arith) (omega arith)

assert_owned_hold-IsOwned_example :
    IsOwned memory 350 session ann seats hold_one held_world.store owned_one
assert_owned_hold-IsOwned_example =
    assert_owned_hold-IsOwned memory 350 session ann seats hold_one held_world.store owned_one
      confirmed_owned

assert_owned_hold-one_owner_example : (ann ≡ ann) × (hold_one ≡ hold_one)
assert_owned_hold-one_owner_example =
    assert_owned_hold-one_owner memory 350 session ann ann seats seats hold_one hold_one
      held_world.store owned_one owned_one seat_b confirmed_owned confirmed_owned seat_b_held
      seat_b_held

release_outcome_example :
    ((ids : List Text) × ((release memory 200 session ann seats (codes "t") [] held_world).0
        ≡ ok true)
      × (normalize_seat_ids seats ≡ ok ids)
      × Released memory 200 session ann
          (codes "t")
          ids
          held_world.store
          (release memory 200 session ann seats (codes "t") [] held_world).1.store)
    ⊎ (((release memory 200 session ann seats (codes "t") [] held_world).0 ≢ ok true)
        × ((release memory 200 session ann seats (codes "t") [] held_world).1 ≡ held_world))
release_outcome_example = release_outcome memory 200 session ann (codes "t") seats [] held_world

-- A sale of both seats, for a retry that asks for one of them only.
abbrev on_sale : Text → Option SaleSession
on_sale _ = some (record {
  event_status = EventStatus.sales_open;
  sales_start_at = 10;
  sales_end_at = 900;
  allocations =
      record { seat_id = seat_a; status = SeatAllocationStatus.available }
      ∷ (record { seat_id = seat_b; status = SeatAllocationStatus.available } ∷ []);
})

abbrev same_key : Text → Text
same_key k = k

abbrev retry_key : Option Text
retry_key = some (seat_hold_request_key ann (trim (codes "k")))

retry_acquired :
    (acquire memory 300 100 hold_one (codes "t") session ann seats retry_key empty_world).0
    ≡ ok answer_one
unfolding acquire acquire_script set_all
retry_acquired = refl

key_given : is_empty (trim (codes "k")) ≡ false
unfolding trim
key_given = refl

retry_passes : hold_checks on_sale 200 session (seat_b ∷ []) ≡ ok (seat_b ∷ [])
unfolding hold_checks normalize_seat_ids unique includes text_beq is_uuid filter_by find_session
    check_sale
retry_passes = refl

hold_seats-replay_example :
    hold_seats memory on_sale same_key 300 200 hold_two
      (codes "u")
      session
      ann
      (seat_b ∷ [])
      (some (codes "k"))
      (acquire memory 300 100 hold_one (codes "t") session ann seats retry_key empty_world).1
    ≡ (
      ok answer_one,
      (acquire memory 300 100 hold_one (codes "t") session ann seats retry_key empty_world).1,
    )
hold_seats-replay_example =
    hold_seats-replay memory on_sale same_key 300 100 200 hold_one (codes "t") session ann
      (codes "k") seats empty_world answer_one hold_two (codes "u") session (seat_b ∷ [])
      (seat_b ∷ []) refl refl refl (omega arith) key_given retry_acquired retry_passes (omega arith)
      (omega arith)
