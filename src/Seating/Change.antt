-- ===== src/Seating/Change.antt =====
-- seating.service.ts: `release`, `renew` and `releaseConfirmedHold`.
use eventory.Common.{
  ℕ, ◌+◌, Bool, true, false, none, some, List, [], ◌∷◌, ◌++◌, if◌then◌else◌, nat_eq, is_none, any,
  all, includes, Text, text_eq, filter_by, Option,
}
use eventory.Errors.{Code, conflict, forbidden, Result, ok, err, ◌>>=◌, ◌>>◌, throw_if, or_throw}
use eventory.Domain.{SeatAllocationStatus}
use eventory.Seating.Redis.{Redis, Hold, HoldResponse, hold}
use eventory.Seating.Holds.{done, nothing, denied, release_script, renew_script, delete_all, Reply}
use eventory.Seating.Checks.{
  assert_uuid, normalize_seat_ids, assert_whole_hold, is_lost, seat_keys, read_holds,
}
use eventory.Seating.Service.{Allocation, SeatState, SeatUpdate, World}

-- `allocation.status.toLowerCase()`
abbrev pub persistent_state : SeatAllocationStatus → SeatState
persistent_state SeatAllocationStatus.available = SeatState.available
persistent_state SeatAllocationStatus.blocked = SeatState.blocked
persistent_state SeatAllocationStatus.sold = SeatState.sold

abbrev same_state : SeatState → SeatState → Bool
same_state SeatState.held SeatState.held = true
same_state SeatState.available SeatState.available = true
same_state SeatState.blocked SeatState.blocked = true
same_state SeatState.sold SeatState.sold = true
same_state _ _ = false

-- One round of the loop over the rows: `byState.set(state, [...(byState.get(state) ?? []), id])` on
-- a map that keeps the order of insertion.
group_by_state : SeatState → Text → List (SeatState × List Text) → List (SeatState × List Text)
group_by_state state id [] = (state, id ∷ []) ∷ []
group_by_state state id ((k, ids) ∷ groups) =
    if same_state k state
    then (k, ids ++ id ∷ []) ∷ groups
    else (k, ids) ∷ group_by_state state id groups

groups_from : List (SeatState × List Text) → List Allocation → List (SeatState × List Text)
groups_from groups [] = groups
groups_from groups (a ∷ rest) =
    groups_from (group_by_state (persistent_state a.status) a.seat_id groups) rest

publish_groups : Text → List (SeatState × List Text) → List SeatUpdate → List SeatUpdate
publish_groups event_session_id [] published = published
publish_groups event_session_id ((state, ids) ∷ groups) published =
    publish_groups event_session_id groups (
      record {
        event_session_id = event_session_id;
        seat_ids = ids;
        state = state;
        hold_expires_at = none;
      }
      ∷ published)

-- `publishPersistentSeatStates`, on the allocations of the session.
unfoldable pub publish_persistent_seat_states :
    Text → List Text → List Allocation → List SeatUpdate → List SeatUpdate
unfolding group_by_state groups_from publish_groups
publish_persistent_seat_states event_session_id ids allocations published =
    publish_groups event_session_id
      (groups_from [] (filter_by (λ a. includes ids a.seat_id) allocations)) published

module _ (r : Redis) where
  open r use {Store}

  -- What `release` makes of the script's reply.
  pub settle_release :
      Text → List Text → List Allocation → World Store → Reply × Store → Result Bool × World Store
  settle_release event_session_id ids allocations w (denied, s) =
      (err (forbidden Code.hold_not_owned), record w { store = s })
  settle_release event_session_id ids allocations w (done, s) = (
    ok true,
    record {
      store = s;
      published = publish_persistent_seat_states event_session_id ids allocations w.published;
    },
  )
  settle_release event_session_id ids allocations w (nothing, s) =
      (ok false, record w { store = s })

  -- The checks of `release`: `none` answers that there is nothing to release.
  unfoldable pub release_checks : ℕ → Text → List Text → Store → Result (Option (List Text))
  release_checks now event_session_id seat_ids s = do
    assert_uuid event_session_id Code.event_session_invalid
    ids ← normalize_seat_ids seat_ids
    let existing = read_holds r now (seat_keys event_session_id ids) s
    if all is_none existing then ok none else (do
      throw_if (any (is_lost now) existing) (conflict Code.hold_expired)
      assert_whole_hold existing ids
      ok (some ids))

  unfoldable pub release :
      ℕ → Text → Text → List Text → Text → List Allocation → World Store → Result Bool × World Store
  unfolding settle_release
  release now event_session_id user_id seat_ids hold_token allocations w =
      elim (release_checks now event_session_id seat_ids w.store) [
        | err e ↦ (err e, w)
        | ok none ↦ (ok false, w)
        | ok (some ids) ↦
            settle_release event_session_id ids allocations w
              (release_script r now (seat_keys event_session_id ids) hold_token user_id w.store)
      ]

  -- What `renew` makes of the script's reply.
  pub settle_renewal :
      Text
      → List Text
      → HoldResponse
      → World Store
      → Reply × Store
      → Result HoldResponse × World Store
  settle_renewal event_session_id ids answer w (denied, s) =
      (err (forbidden Code.hold_not_owned), record w { store = s })
  settle_renewal event_session_id ids answer w (nothing, s) =
      (err (conflict Code.hold_expired), record w { store = s })
  settle_renewal event_session_id ids answer w (done, s) = (
    ok answer,
    record {
      store = s;
      published =
          record {
            event_session_id = event_session_id;
            seat_ids = ids;
            state = SeatState.held;
            hold_expires_at = some answer.expires_at;
          }
          ∷ w.published;
    },
  )

  -- The checks of `renew`: the seats, and the hold of the first one.
  unfoldable pub renew_checks : ℕ → Text → List Text → Store → Result (List Text × Hold)
  renew_checks now event_session_id seat_ids s = do
    assert_uuid event_session_id Code.event_session_invalid
    ids ← normalize_seat_ids seat_ids
    let holds = read_holds r now (seat_keys event_session_id ids) s
    first ← or_throw (elim holds [ [] ↦ none | h ∷ _ ↦ h ]) (conflict Code.hold_expired)
    assert_whole_hold holds ids
    ok (ids, first)

  unfoldable pub renew :
      ℕ → ℕ → Text → Text → List Text → Text → World Store → Result HoldResponse × World Store
  unfolding settle_renewal
  renew ttl now event_session_id user_id seat_ids hold_token w =
      elim (renew_checks now event_session_id seat_ids w.store) [
        | err e ↦ (err e, w)
        | ok (ids, first) ↦
            settle_renewal event_session_id ids
              (record {
                hold_id = first.hold_id;
                hold_token = hold_token;
                event_session_id = event_session_id;
                seat_ids = ids;
                expires_at = now + ttl;
              })
              w
              (renew_script r now (seat_keys event_session_id ids) hold_token user_id
                (hold (record first { expires_at = now + ttl })) ttl w.store)
      ]

  unfoldable pub release_confirmed_hold :
      Text → List Text → World Store → Result (Unit {0}) × World Store
  release_confirmed_hold event_session_id seat_ids w =
      elim (assert_uuid event_session_id Code.event_session_invalid
        >> normalize_seat_ids seat_ids) [
          | err e ↦ (err e, w)
          | ok ids ↦ (
            ok tt,
            record {
              store = delete_all r (seat_keys event_session_id ids) w.store;
              published =
                  record {
                    event_session_id = event_session_id;
                    seat_ids = ids;
                    state = SeatState.sold;
                    hold_expires_at = none;
                  }
                  ∷ w.published;
            },
          )
        ]
