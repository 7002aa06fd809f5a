-- ===== src/RateLimit/Guard.antt =====
-- apps/api/src/common/security/rate-limit.guard.ts: the buckets, in the order in which they were
-- inserted. Times are milliseconds; the headers of the response are not modelled, but for the
-- seconds of `Retry-After`, which the exception carries too.
use eventory.Common.{
  ℕ, zero, suc, ◌+◌, ◌-◌, ◌*◌, ◌/◌, min, max, not, Option, none, some, List, [], ◌∷◌, ltb, leb,
  if◌then◌else◌, ◌==◌, nat_eq, length, Text, text_eq, filter_by,
}

pub record Bucket : Type 0 where
  pub count : ℕ
  pub reset_at : ℕ

abbrev pub Buckets : Type 0
Buckets = List (Text × Bucket)

-- A limit that is not a positive whole number is `0` here.
abbrev pub safe_limit : ℕ → ℕ → ℕ
safe_limit value fallback = if ltb 0 value then min value 10_000 else fallback

abbrev pub safe_window : ℕ → ℕ → ℕ
safe_window value fallback = if ltb 0 value then min value 3_600 else fallback

-- `buckets.get`
unfoldable pub get_bucket : Text → Buckets → Option Bucket
get_bucket key [] = none
get_bucket key ((k, b) ∷ bs) = if k == key then some b else get_bucket key bs

-- `buckets.set`, which keeps the place of a key that is there
unfoldable pub set_bucket : Text → Bucket → Buckets → Buckets
set_bucket key bucket [] = (key, bucket) ∷ []
set_bucket key bucket ((k, b) ∷ bs) =
    let rest = set_bucket key bucket bs in if k == key then (k, bucket) ∷ bs else (k, b) ∷ rest

-- The last loop of `prune` with the buckets that are too many.
unfoldable pub drop_oldest : ℕ → Buckets → Buckets
drop_oldest zero bs = bs
drop_oldest (suc n) [] = []
drop_oldest (suc n) (b ∷ bs) = drop_oldest n bs

unfoldable pub prune : ℕ → Buckets → Buckets
prune now buckets =
    if leb (length buckets) 10_000
    then buckets
    else let live = filter_by (λ (_, b). not (leb b.reset_at now)) buckets in
      drop_oldest (length live - 10_000) live

-- The bucket of a request: a new one, if there is none or its window is over.
abbrev pub current_bucket : ℕ → ℕ → Option Bucket → Bucket
current_bucket now window_seconds none = record {
  count = 0;
  reset_at = now + window_seconds * 1_000;
}
current_bucket now window_seconds (some b) =
    if leb b.reset_at now then record { count = 0; reset_at = now + window_seconds * 1_000 } else b

-- `Math.max(1, Math.ceil((bucket.resetAt - now) / 1_000))`
abbrev pub retry_after : ℕ → Bucket → ℕ
retry_after now b = max 1 ((b.reset_at - now + 999) / 1_000)

-- `canActivate` of a route with a limit: whether the request passes, or after how many seconds it may
-- be tried again.
pub data Decision : Type 0 where
  pass : Decision
  too_many : ℕ → Decision

unfoldable pub can_activate : ℕ → ℕ → ℕ → Text → Buckets → Decision × Buckets
can_activate maximum window_seconds now key buckets =
    let bucket = current_bucket now window_seconds (get_bucket key buckets) in
    if leb maximum bucket.count
    then (too_many (retry_after now bucket), set_bucket key bucket buckets)
    else (pass, prune now (set_bucket key (record bucket { count = bucket.count + 1 }) buckets))
