-- ===== src/RateLimit/Bound.antt =====
-- How many requests pass within a window (rate-limit.guard.ts).
use eventory.Common.{
  ℕ, ◌+◌, ◌≤◌, ◌<◌, max, ◌≡◌, refl, sym, ap, ◌∙◌, subst, inl, inr, true, false, some, List, [], ◌∷◌,
  arith, leb, if◌then◌else◌, ◌==◌, nat_eq, Bool-cases, length, All, Text, text_beq_iff, text_eq,
  text_beq_refl,
}
use eventory.RateLimit.Guard.{
  Bucket, Buckets, get_bucket, set_bucket, prune, Decision, pass, too_many, can_activate,
  current_bucket,
}

-- A request: its key and its time.
pub record Request : Type 0 where
  pub key : Text
  pub now : ℕ

abbrev pub passes : Decision → ℕ
passes pass = 1
passes (too_many _) = 0

-- How many of the requests with a key pass, where each route and client has a key of its own.
unfoldable pub passed : ℕ → ℕ → Text → List Request → Buckets → ℕ
passed maximum window key [] buckets = 0
passed maximum window key (q ∷ qs) buckets =
    let (decision, after) = can_activate maximum window q.now q.key buckets in
    (if q.key == key then passes decision else 0) + passed maximum window key qs after

get-set_same :
    (key : Text) (b : Bucket) (bs : Buckets) → get_bucket key (set_bucket key b bs) ≡ some b
unfolding get_bucket set_bucket
get-set_same key b [] = rw (text_beq_refl key)
get-set_same key b ((k, c) ∷ bs) = elim (Bool-cases (k == key)) [
  | inl this ↦ rw (this, this)
  | inr other ↦ rw (other, other) (get-set_same key b bs)
]

get-set_other :
    (key j : Text) (b : Bucket) (bs : Buckets)
    → key == j ≡ false
    → get_bucket j (set_bucket key b bs) ≡ get_bucket j bs
unfolding get_bucket set_bucket
get-set_other key j b [] ne = rw ne
get-set_other key j b ((k, c) ∷ bs) ne = elim (Bool-cases (k == key)) [
  | inl this ↦
      let not_j : k == j ≡ false =
        subst (λ i. i == j ≡ false) (sym ((text_beq_iff k key).0 this)) ne in
      rw (this, not_j)
  | inr other ↦ rw other (ap (λ o. if k == j then some c else o) (get-set_other key j b bs ne))
]

length-set_bucket :
    (key : Text) (b : Bucket) (bs : Buckets) → length (set_bucket key b bs) ≤ length bs + 1
unfolding set_bucket
length-set_bucket key b [] = omega arith
length-set_bucket key b ((k, c) ∷ bs) = elim (Bool-cases (k == key)) [
  | inl this ↦ rw this (omega arith)
  | inr other ↦ rw other (omega (arith, length-set_bucket key b bs))
]

prune-small : (now : ℕ) (bs : Buckets) → length bs ≤ 10_000 → prune now bs ≡ bs
unfolding prune
prune-small now bs h = let small : leb (length bs) 10_000 ≡ true = ground arith in rw small

-- What a request does to the bucket of a key, as long as there is room for all buckets.
data Served (maximum window : ℕ) (q : Request) (bs : Buckets) : Type 0 where
  refused :
      (b : Bucket)
      → b ≡ current_bucket q.now window (get_bucket q.key bs)
      → maximum ≤ b.count
      → passes (can_activate maximum window q.now q.key bs).0 ≡ 0
      → (can_activate maximum window q.now q.key bs).1 ≡ set_bucket q.key b bs
      → Served maximum window q bs
  served :
      (b : Bucket)
      → b ≡ current_bucket q.now window (get_bucket q.key bs)
      → b.count < maximum
      → passes (can_activate maximum window q.now q.key bs).0 ≡ 1
      → (can_activate maximum window q.now q.key bs).1
        ≡ set_bucket q.key (record b { count = b.count + 1 }) bs
      → Served maximum window q bs

can_activate-Served :
    (maximum window : ℕ) (q : Request) (bs : Buckets)
    → length bs + 1 ≤ 10_000
    → Served maximum window q bs
unfolding can_activate
can_activate-Served maximum window q bs room =
    let b = current_bucket q.now window (get_bucket q.key bs) in
    elim (Bool-cases (leb maximum b.count)) [
      | inl full ↦ refused b refl (ground arith) (rw (can_activate, full)) (rw (can_activate, full))
      | inr free ↦ served b refl (ground arith) (rw (can_activate, free)) (
          rw (can_activate, free)
            (prune-small q.now (set_bucket q.key (record b { count = b.count + 1 }) bs)
              (omega (arith, length-set_bucket q.key (record b { count = b.count + 1 }) bs, room))))
    ]

-- A bucket whose window lasts is the current one.
current_bucket-lasting :
    (now window : ℕ) (b : Bucket) → now < b.reset_at → current_bucket now window (some b) ≡ b
current_bucket-lasting now window b early =
    let lasts : leb b.reset_at now ≡ false = ground arith in rw lasts

lasting_bucket :
    (q : Request) (window : ℕ) (key : Text) (bs : Buckets) (b c : Bucket)
    → c ≡ current_bucket q.now window (get_bucket q.key bs)
    → q.key ≡ key
    → get_bucket key bs ≡ some b
    → q.now < b.reset_at
    → c ≡ b
lasting_bucket q window key bs b c is_current same_key found early =
    is_current
    ∙ (ap (λ k. current_bucket q.now window (get_bucket k bs)) same_key
        ∙ (ap (current_bucket q.now window) found ∙ current_bucket-lasting q.now window b early))

-- A window lets no more requests through than the limit: if all the requests come before the window
-- of the key's bucket ends, and with a bucket for each of them there are at most 10,000 buckets, then
-- the count of the bucket and the number of its requests that pass are together at most the limit, or
-- the count itself where that is greater.
pub passed-bound :
    (maximum window : ℕ) (key : Text) (qs : List Request) (bs : Buckets) (b : Bucket)
    → get_bucket key bs ≡ some b
    → All (λ q. q.now < b.reset_at) qs
    → length bs + length qs ≤ 10_000
    → b.count + passed maximum window key qs bs ≤ max b.count maximum
unfolding passed
passed-bound maximum window key [] bs b found early room = omega arith
passed-bound maximum window key (q ∷ qs) bs b found early room =
    elim (can_activate-Served maximum window q bs (omega (arith, room))) [
      | refused c is_current full none_pass after ↦ elim (Bool-cases (q.key == key)) [
        | inr other ↦
            rw (other, after)
              (omega (
                arith,
                passed-bound maximum window key qs (set_bucket q.key c bs) b
                    (get-set_other q.key key c bs other ∙ found) early.1
                    (omega (arith, room, length-set_bucket q.key c bs)),
              ))
        | inl this ↦
            let same_key = (text_beq_iff q.key key).0 this in
            let is_b : c ≡ b =
              lasting_bucket q window key bs b c is_current same_key found early.0 in
            let there : get_bucket key (set_bucket q.key c bs) ≡ some b =
              subst (λ k. get_bucket k (set_bucket q.key c bs) ≡ some b) same_key
                (get-set_same q.key c bs ∙ ap some is_b) in
            rw (this, after, none_pass)
              (omega (
                arith,
                passed-bound maximum window key qs (set_bucket q.key c bs) b there early.1
                    (omega (arith, room, length-set_bucket q.key c bs)),
              ))
      ]
      | served c is_current free one_passes after ↦ elim (Bool-cases (q.key == key)) [
        | inr other ↦
            rw (other, after)
              (omega (
                arith,
                passed-bound maximum window key qs
                    (set_bucket q.key (record c { count = c.count + 1 }) bs) b
                    (get-set_other q.key key (record c { count = c.count + 1 }) bs other ∙ found)
                    early.1
                    (omega
                      (arith, room, length-set_bucket q.key (record c { count = c.count + 1 }) bs)),
              ))
        | inl this ↦
            let same_key = (text_beq_iff q.key key).0 this in
            let is_b : c ≡ b =
              lasting_bucket q window key bs b c is_current same_key found early.0 in
            let next : Bucket = record b { count = b.count + 1 } in
            let there : get_bucket key (set_bucket q.key (record c { count = c.count + 1 }) bs)
                ≡ some next =
              subst
                (λ k.
                  get_bucket k (set_bucket q.key (record c { count = c.count + 1 }) bs) ≡ some next)
                same_key
                (get-set_same q.key (record c { count = c.count + 1 }) bs
                  ∙ ap (λ (x : Bucket). some (record x { count = x.count + 1 })) is_b) in
            rw (this, after, one_passes)
              (omega (
                arith,
                free,
                ap (λ (x : Bucket). x.count) is_b,
                passed-bound maximum window key qs
                    (set_bucket q.key (record c { count = c.count + 1 }) bs) next there early.1
                    (omega
                      (arith, room, length-set_bucket q.key (record c { count = c.count + 1 }) bs)),
              ))
      ]
    ]
