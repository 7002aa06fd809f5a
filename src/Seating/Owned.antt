-- ===== src/Seating/Owned.antt =====
-- seating.service.ts: `assertOwnedHold` and `getHoldByToken`, which a checkout calls. Both read the
-- clock once for each seat; the model takes one reading, `now`, for the call.
use eventory.Common.{
  ℕ, Bool, true, ◌||◌, not, Option, none, some, List, [], ◌∷◌, ◌==◌, nat_eq, any, Text, text_eq,
}
use eventory.Errors.{Code, conflict, forbidden, Result, ok, ◌>>=◌, ◌>>◌, throw_if, or_throw}
use eventory.Seating.Redis.{Redis, Hold}
use eventory.Seating.Checks.{
  assert_uuid, normalize_seat_ids, assert_whole_hold, is_lost, min_expiry, seat_keys, read_holds,
}

pub record OwnedHold : Type 0 where
  pub hold_id : Text
  pub event_session_id : Text
  pub seat_ids : List Text
  pub expires_at : ℕ

-- The ownership test of `assertOwnedHold` on one hold (`hold?.userId !== userId || …`).
abbrev pub is_other_hold : Text → Text → Text → Option Hold → Bool
is_other_hold user_id hold_id event_session_id none = true
is_other_hold user_id hold_id event_session_id (some h) =
    not (h.user_id == user_id)
    || (not (h.hold_id == hold_id) || not (h.event_session_id == event_session_id))

-- That of `getHoldByToken`.
abbrev pub is_other_token : Text → Text → Text → Option Hold → Bool
is_other_token user_id token event_session_id none = true
is_other_token user_id token event_session_id (some h) =
    not (h.user_id == user_id)
    || (not (h.token == token) || not (h.event_session_id == event_session_id))

module _ (r : Redis) where
  open r use {Store}

  unfoldable pub assert_owned_hold : ℕ → Text → Text → List Text → Text → Store → Result OwnedHold
  assert_owned_hold now event_session_id user_id seat_ids hold_id s = do
    assert_uuid event_session_id Code.event_session_invalid
    assert_uuid hold_id Code.hold_invalid
    ids ← normalize_seat_ids seat_ids
    let holds = read_holds r now (seat_keys event_session_id ids) s
    throw_if (any (is_lost now) holds) (conflict Code.hold_expired)
    throw_if (any (is_other_hold user_id hold_id event_session_id) holds)
        (forbidden Code.hold_not_owned)
    assert_whole_hold holds ids
    ok (record {
      hold_id = hold_id;
      event_session_id = event_session_id;
      seat_ids = ids;
      expires_at = min_expiry now holds;
    })

  unfoldable pub get_hold_by_token : ℕ → Text → Text → List Text → Text → Store → Result OwnedHold
  get_hold_by_token now event_session_id user_id seat_ids hold_token s = do
    assert_uuid event_session_id Code.event_session_invalid
    ids ← normalize_seat_ids seat_ids
    let holds = read_holds r now (seat_keys event_session_id ids) s
    throw_if (any (is_lost now) holds) (conflict Code.hold_expired)
    throw_if (any (is_other_token user_id hold_token event_session_id) holds)
        (forbidden Code.hold_not_owned)
    assert_whole_hold holds ids
    first ← or_throw (elim holds [ [] ↦ none | h ∷ _ ↦ h ]) (conflict Code.hold_expired)
    ok (record {
      hold_id = first.hold_id;
      event_session_id = event_session_id;
      seat_ids = ids;
      expires_at = min_expiry now holds;
    })
