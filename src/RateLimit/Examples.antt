-- ===== src/RateLimit/Examples.antt =====
-- Requests against a limit of two.
use eventory.Common.{
  ℕ, ◌+◌, ◌≤◌, max, ◌≡◌, refl, some, List, [], ◌∷◌, arith, nat_eq, Text, codes, text_beq, text_eq,
}
use eventory.RateLimit.Guard.{Bucket, Buckets, get_bucket}
use eventory.RateLimit.Bound.{Request, passed, passed-bound}

abbrev bucket : Bucket
bucket = record { count = 1; reset_at = 1000 }

abbrev buckets : Buckets
buckets = (codes "login:a", bucket) ∷ []

abbrev request : Text → ℕ → Request
request key now = record { key = key; now = now }

abbrev requests : List Request
requests =
    request (codes "login:a") 10
    ∷ (request (codes "login:b") 20 ∷ (request (codes "login:a") 30 ∷ []))

bucket_found : get_bucket (codes "login:a") buckets ≡ some bucket
unfolding get_bucket text_beq
bucket_found = refl

passed-bound_example : 1 + passed 2 60 (codes "login:a") requests buckets ≤ max 1 2
passed-bound_example =
    passed-bound 2 60 (codes "login:a") requests buckets bucket bucket_found
      (omega arith, (omega arith, (omega arith, tt))) (omega arith)
