-- ===== src/Seating/Holds.antt =====
-- seat-hold.constants.ts: the keys and the three Lua scripts, each of which Redis runs as one step.
use eventory.Common.{
  ℕ, Bool, true, false, ◌&&◌, Option, none, some, List, [], ◌∷◌, ◌++◌, Text, codes, ◌==◌, text_eq,
  if◌then◌else◌, is_some, any,
}
use eventory.Seating.Redis.{Redis, Stored, hold, response}

abbrev pub seat_hold_prefix : Text
seat_hold_prefix = codes "eventory:seat-hold:"

abbrev pub seat_hold_request_prefix : Text
seat_hold_request_prefix = codes "eventory:seat-hold-request:"

unfoldable pub seat_hold_key : Text → Text → Text
seat_hold_key event_session_id seat_id =
    seat_hold_prefix ++ (event_session_id ++ (codes ":" ++ seat_id))

unfoldable pub seat_hold_request_key : Text → Text → Text
seat_hold_request_key user_id idempotency_key =
    seat_hold_request_prefix ++ (user_id ++ (codes ":" ++ idempotency_key))

-- The reply of a script: 1, 0 and -1.
pub data Reply : Type 0 where
  done nothing denied : Reply

-- `parsed.token == ARGV[1] and parsed.userId == ARGV[2]`; another document has no token.
abbrev pub owns : Text → Text → Stored → Bool
owns token user_id (hold h) = h.token == token && h.user_id == user_id
owns token user_id (response _) = false

module _ (r : Redis) where
  open r use {Store, get, set, delete}

  -- the loop of `SET` calls
  unfoldable pub set_all : ℕ → ℕ → Stored → List Text → Store → Store
  set_all now ttl value [] s = s
  set_all now ttl value (k ∷ ks) s = set_all now ttl value ks (set now ttl k value s)

  -- the loop of `DEL` calls, which is also `RedisService.delete`
  unfoldable pub delete_all : List Text → Store → Store
  delete_all [] s = s
  delete_all (k ∷ ks) s = delete_all ks (delete k s)

  unfoldable pub acquire_script : ℕ → List Text → Stored → ℕ → Store → Reply × Store
  acquire_script now keys value ttl s =
      if any (λ k. is_some (get now k s)) keys
      then (nothing, s)
      else (done, set_all now ttl value keys s)

  -- the first loop of the release script: `none` is its `return -1`, else the flag `found`
  unfoldable pub release_check : ℕ → Text → Text → Store → Bool → List Text → Option Bool
  release_check now token user_id s found [] = some found
  release_check now token user_id s found (k ∷ ks) = elim (get now k s) [
    | none ↦ release_check now token user_id s found ks
    | some v ↦
        let rest = release_check now token user_id s true ks in
        if owns token user_id v then rest else none
  ]

  unfoldable pub release_script : ℕ → List Text → Text → Text → Store → Reply × Store
  release_script now keys token user_id s = elim (release_check now token user_id s false keys) [
    | none ↦ (denied, s)
    | some found ↦ if found then (done, delete_all keys s) else (nothing, s)
  ]

  -- the first loop of the renewal script
  unfoldable pub renew_check : ℕ → Text → Text → Store → List Text → Reply
  renew_check now token user_id s [] = done
  renew_check now token user_id s (k ∷ ks) = elim (get now k s) [
    | none ↦ nothing
    | some v ↦
        let rest = renew_check now token user_id s ks in
        if owns token user_id v then rest else denied
  ]

  unfoldable pub renew_script : ℕ → List Text → Text → Text → Stored → ℕ → Store → Reply × Store
  renew_script now keys token user_id value ttl s = elim (renew_check now token user_id s keys) [
    | done ↦ (done, set_all now ttl value keys s)
    | nothing ↦ (nothing, s)
    | denied ↦ (denied, s)
  ]
