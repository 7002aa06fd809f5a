-- ===== src/Seating/Availability.antt =====
-- seating.service.ts: `availability`, with one reading of the clock, and what an acquisition makes of
-- it. Of a seat the answer has its identifier, its state and the end of its hold, as a number; the
-- columns that are only passed on are left out.
use eventory.Common.{
  ℕ, ◌+◌, ◌≤◌, ◌<◌, ◌≡◌, refl, inl, inr, Bool, true, false, Option, none, some, List, map, arith,
  ltb, if◌then◌else◌, nat_eq, Bool-cases, is_some, includes, Text, text_eq,
}
use eventory.Errors.{Code, not_found, Result, ok, ◌>>=◌, ◌>>◌, throw_if}
use eventory.Domain.{EventStatus, is_available}
use eventory.Seating.Redis.{Redis, Hold}
use eventory.Seating.Holds.{seat_hold_key}
use eventory.Seating.Checks.{parse_hold}
use eventory.Seating.Service.{Allocation, SaleSession, SeatState, find_session}
use eventory.Seating.Change.{persistent_state}
use eventory.Seating.Exclusion.{Acquired}

pub record SeatView : Type 0 where
  pub seat_id : Text
  pub status : SeatState
  pub hold_expires_at : Option ℕ

abbrev is_hidden : EventStatus → Bool
is_hidden EventStatus.draft = true
is_hidden EventStatus.cancelled = true
is_hidden _ = false

-- `hold && hold.expiresAt > Date.now() ? hold : undefined`
abbrev active_hold : ℕ → Option Hold → Option Hold
active_hold now none = none
active_hold now (some h) = if ltb now h.expires_at then some h else none

-- The state of a seat and the end of its hold, from the hold that is active.
unfoldable pub view_under : Allocation → Option Hold → SeatView
view_under allocation active_hold =
    let expires_at =
      if is_available allocation.status
      then elim active_hold [ none ↦ none | some h ↦ some h.expires_at ]
      else none in
    record {
      seat_id = allocation.seat_id;
      status = if is_some expires_at then SeatState.held else persistent_state allocation.status;
      hold_expires_at = expires_at;
    }

module _ (r : Redis) where
  open r use {Store, get}

  -- One seat of the answer.
  unfoldable pub seat_view : ℕ → Text → Store → Allocation → SeatView
  seat_view now event_session_id s allocation =
      view_under allocation (
        active_hold now
          (parse_hold (get now (seat_hold_key event_session_id allocation.seat_id) s)))

  -- `availability`: the seats
  unfoldable pub availability :
      (Text → Option SaleSession) → ℕ → Text → Store → Result (List SeatView)
  availability sessions now event_session_id s = do
    session ← find_session sessions event_session_id
    throw_if (is_hidden session.event_status) (not_found Code.event_session_not_found)
    ok (map (seat_view now event_session_id s) session.allocations)

  -- After an acquisition and until it lapses, a seat that is for sale is shown as held until then if it
  -- is one of the acquired, and as without the acquisition if it is not.
  pub seat_view-Acquired :
      (now ttl t : ℕ) (hold_id token session user : Text) (ids : List Text) (before after : Store)
      (allocation : Allocation)
      → Acquired r now ttl hold_id token session user ids before after
      → now ≤ t
      → t < now + ttl
      → is_available allocation.status ≡ true
      → seat_view t session after allocation ≡ (
          if includes ids allocation.seat_id
          then record {
            seat_id = allocation.seat_id;
            status = SeatState.held;
            hold_expires_at = some (now + ttl);
          }
          else seat_view t session before allocation)
  unfolding seat_view view_under
  seat_view-Acquired now ttl t hold_id token session user ids before after allocation acquired h
        lasts sale =
      let reads = acquired.reads t allocation.seat_id h in
      let early : ltb t (now + ttl) ≡ true = ground arith in
      elim (Bool-cases (includes ids allocation.seat_id)) [
        | inl mine ↦ rw (reads, mine, early, early, sale) refl
        | inr other ↦ rw (reads, other) refl
      ]
