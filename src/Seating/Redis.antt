-- ===== src/Seating/Redis.antt =====
-- The Redis server behind infrastructure/redis/redis.service.ts, as far as the seat holds use it,
-- and what is stored in it. The server is not part of the repository: its operations are fields of
-- an interface, with the documented behaviour of GET, SET with PX, and DEL as laws. `get now k`
-- is a read at the time `now`; `EXISTS` is a read that finds something.
use eventory.Common.{
  ℕ, ◌+◌, ◌≤◌, ◌≡◌, Option, none, some, List, Text, ltb, ◌==◌, text_eq, if◌then◌else◌,
}

-- A HoldRecord of seating.service.ts, as the JSON value under a seat's key.
pub record Hold : Type 0 where
  pub token : Text
  pub hold_id : Text
  pub user_id : Text
  pub event_session_id : Text
  pub seat_ids : Option (List Text)
  pub expires_at : ℕ

-- A HoldResponse, which is also stored under a request's key.
pub record HoldResponse : Type 0 where
  pub hold_id : Text
  pub hold_token : Text
  pub event_session_id : Text
  pub seat_ids : List Text
  pub expires_at : ℕ

-- The JSON documents that the service writes.
pub data Stored : Type 0 where
  hold : Hold → Stored
  response : HoldResponse → Stored

pub record Redis : Type 1 where
  pub Store : Type 0
  pub get : ℕ → Text → Store → Option Stored
  pub set : ℕ → ℕ → Text → Stored → Store → Store
  pub delete : Text → Store → Store
  pub get-set :
      (now ttl t : ℕ) (k j : Text) (v : Stored) (s : Store)
      → now ≤ t
      → get t j (set now ttl k v s)
        ≡ (if k == j then if ltb t (now + ttl) then some v else none else get t j s)
  pub get-delete :
      (t : ℕ) (k j : Text) (s : Store) → get t j (delete k s) ≡ (if k == j then none else get t j s)
