-- ===== src/Seating/Checks.antt =====
-- seating.service.ts: what the operations check of their arguments and of the holds they read.
use eventory.Common.{
  ℕ, min, Bool, true, false, ◌&&◌, ◌||◌, not, Option, none, some, List, [], ◌∷◌, map, ltb, leb,
  nat_beq, if◌then◌else◌, ◌==◌, nat_eq, get_or, length, any, Text, text_eq, is_empty, filter_by,
}
use eventory.Errors.{Code, conflict, Result, ok, err, throw_if}
use eventory.Uuid.{is_uuid}
use eventory.Seating.Redis.{Redis, Hold, HoldResponse, Stored, hold, response}
use eventory.Seating.Holds.{seat_hold_key}

-- `[...new Set(xs)]`: the first occurrences, in their order.
unfoldable pub unique : List Text → List Text
unique [] = []
unique (x ∷ xs) = x ∷ filter_by (λ y. not (x == y)) (unique xs)

-- The order of `Array.sort` on strings: by code units.
pub text_leb : Text → Text → Bool
text_leb [] t = true
text_leb (a ∷ s) [] = false
text_leb (a ∷ s) (b ∷ t) = ltb a b || (nat_beq a b && text_leb s t)

unfoldable pub insert_sorted : Text → List Text → List Text
insert_sorted x [] = x ∷ []
insert_sorted x (y ∷ ys) = if text_leb x y then x ∷ y ∷ ys else y ∷ insert_sorted x ys

-- `xs.sort()`
unfoldable pub sort : List Text → List Text
unfolding insert_sorted text_leb
sort [] = []
sort (x ∷ xs) = insert_sorted x (sort xs)

-- `a.length !== b.length || a.some((x, i) => x !== b[i])`
unfoldable pub lists_differ : List Text → List Text → Bool
lists_differ [] [] = false
lists_differ [] (_ ∷ _) = true
lists_differ (_ ∷ _) [] = true
lists_differ (x ∷ xs) (y ∷ ys) = not (x == y) || lists_differ xs ys

abbrev pub assert_uuid : Text → Code → Result (Unit {0})
assert_uuid value code = throw_if (not (is_uuid value)) (conflict code)

unfoldable pub normalize_seat_ids : List Text → Result (List Text)
normalize_seat_ids seat_ids =
    let unique_ids = unique seat_ids in
    if nat_beq (length unique_ids) 0
      || (ltb 12 (length unique_ids) || any (λ id. not (is_uuid id)) unique_ids)
    then err (conflict Code.seat_selection_invalid)
    else ok unique_ids

-- `parseHold`: a stored document is a hold, another document, or absent.
abbrev pub parse_hold : Option Stored → Option Hold
parse_hold none = none
parse_hold (some (hold h)) = some h
parse_hold (some (response _)) = none

-- `parseHoldResponse`: a response is used if none of its parts is empty.
unfoldable pub parse_hold_response : Option Stored → Option HoldResponse
parse_hold_response none = none
parse_hold_response (some (hold _)) = none
parse_hold_response (some (response p)) =
    if is_empty p.hold_id
      || (is_empty p.hold_token || (is_empty p.event_session_id || nat_beq (length p.seat_ids) 0))
    then none
    else some p

-- `holds.find(Boolean)`
unfoldable pub first_hold : List (Option Hold) → Option Hold
first_hold [] = none
first_hold (none ∷ hs) = first_hold hs
first_hold (some h ∷ hs) = some h

-- The body of `assertWholeHold` behind `first?.seatIds`.
unfoldable pub whole_hold : Option Hold → List Text → Result (Unit {0})
whole_hold none requested = ok tt
whole_hold (some first) requested = elim first.seat_ids [
  | none ↦ ok tt
  | some ids ↦
      throw_if (lists_differ (sort (unique ids)) (sort (unique requested)))
        (conflict Code.hold_must_be_checked_out_as_a_unit)
]

unfoldable pub assert_whole_hold : List (Option Hold) → List Text → Result (Unit {0})
assert_whole_hold holds requested = whole_hold (first_hold holds) requested

-- `!hold || hold.expiresAt <= Date.now()`
abbrev pub is_lost : ℕ → Option Hold → Bool
is_lost now none = true
is_lost now (some h) = leb h.expires_at now

-- `Math.min(...holds.map((hold) => hold?.expiresAt ?? Date.now()))`, which is only read of a list
-- that is not empty.
unfoldable pub min_expiry : ℕ → List (Option Hold) → ℕ
min_expiry now [] = now
min_expiry now (h ∷ []) = get_or (elim h [ none ↦ none | some x ↦ some x.expires_at ]) now
min_expiry now (h ∷ k ∷ hs) =
    min (get_or (elim h [ none ↦ none | some x ↦ some x.expires_at ]) now) (min_expiry now (k ∷ hs))

-- `eventSessionId` and the seats to their keys
abbrev pub seat_keys : Text → List Text → List Text
seat_keys event_session_id seat_ids = map (seat_hold_key event_session_id) seat_ids

-- `(await this.redis.mget(keys)).map((value) => this.parseHold(value))`
unfoldable pub read_holds : (r : Redis) → ℕ → List Text → r.Store → List (Option Hold)
read_holds r now keys s = map (λ k. parse_hold (r.get now k s)) keys
