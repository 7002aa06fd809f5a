-- ===== src/Seating/Checkout.antt =====
-- A hold serves its owner: what `hold` acquires, `assertOwnedHold` confirms until it lapses, and
-- `release` gives up the seats of the caller's own hold only.
use eventory.Common.{
  ℕ, ◌+◌, ◌≤◌, ◌<◌, ◌≡◌, refl, ◌∙◌, ◌≢◌, ◌⊎◌, inl, inr, true, false, Option, none, some, List, [],
  ◌∷◌, map, arith, if◌then◌else◌, nat_eq, Option-cases, length, any, All, All-mono, includes,
  All-includes_self, Text, text_eq, text_beq_refl,
}
use eventory.Errors.{ok, Result-cases}
use eventory.Uuid.{is_uuid}
use eventory.Seating.Redis.{Redis, Hold, Stored, hold, HoldResponse}
use eventory.Seating.Holds.{
  seat_hold_key, owns, release_script, release_check, done, nothing, denied, delete_all,
}
use eventory.Seating.Checks.{
  normalize_seat_ids, first_hold, whole_hold, assert_whole_hold, is_lost, min_expiry, seat_keys,
  read_holds,
}
use eventory.Seating.Owned.{is_other_hold, assert_owned_hold}
use eventory.Seating.Service.{World, acquire, Allocation}
use eventory.Seating.Change.{release, release_checks}
use eventory.Seating.Keys.{includes-seat_keys}
use eventory.Seating.Selection.{normalize_seat_ids-IsSelection, lists_differ_self}
use eventory.Seating.Scripts.{release_check_owned, get-delete_all}
use eventory.Seating.Exclusion.{IsRequestKey, written, acquire-Acquired}

-- A list of the same hold for every seat passes the checks.
abbrev copies : Hold → List Text → List (Option Hold)
copies h ids = map (λ _. some h) ids

copies_kept :
    (t : ℕ) (h : Hold) (ids : List Text) → t < h.expires_at → any (is_lost t) (copies h ids) ≡ false
copies_kept t h [] l = refl
copies_kept t h (x ∷ ids) l = ground (arith, copies_kept t h ids l)

copies_own :
    (h : Hold) (ids : List Text)
    → any (is_other_hold h.user_id h.hold_id h.event_session_id) (copies h ids) ≡ false
copies_own h [] = refl
copies_own h (x ∷ ids) = ground (
  arith,
  copies_own h ids,
  text_beq_refl h.user_id,
  text_beq_refl h.hold_id,
  text_beq_refl h.event_session_id,
)

copies_whole :
    (h : Hold) (ids : List Text)
    → h.seat_ids ≡ some ids
    → assert_whole_hold (copies h ids) ids ≡ ok tt
unfolding assert_whole_hold first_hold whole_hold
copies_whole h [] e = refl
copies_whole h (x ∷ ids) e = rw (e, lists_differ_self _)

copies_expiry :
    (t : ℕ) (h : Hold) (ids : List Text)
    → 0 < length ids
    → min_expiry t (copies h ids) ≡ h.expires_at
unfolding min_expiry
copies_expiry t h [] l = absurd (omega arith)
copies_expiry t h (x ∷ []) l = refl
copies_expiry t h (x ∷ y ∷ ids) l = omega (arith, copies_expiry t h (y ∷ ids) (omega arith))

module _ (r : Redis) where
  open r use {Store, get}

  read_copies :
      (t : ℕ) (session : Text) (h : Hold) (ids : List Text) (s : Store)
      → All (λ id. get t (seat_hold_key session id) s ≡ some (hold h)) ids
      → read_holds r t (seat_keys session ids) s ≡ copies h ids
  unfolding read_holds
  read_copies t session h [] s a = refl
  read_copies t session h (x ∷ ids) s a = rw (a.0, read_copies t session h ids s a.1)

  -- Until it lapses, an acquired hold is confirmed to its user for exactly its seats.
  pub assert_owned_hold-acquire :
      (ttl now t : ℕ) (hold_id token session user : Text) (seat_ids ids : List Text)
      (key : Option Text) (w : World Store) (p : HoldResponse)
      → is_uuid session ≡ true
      → is_uuid hold_id ≡ true
      → normalize_seat_ids seat_ids ≡ ok ids
      → IsRequestKey key
      → (acquire r ttl now hold_id token session user ids key w).0 ≡ ok p
      → now ≤ t
      → t < now + ttl
      → assert_owned_hold r t session user seat_ids hold_id
          (acquire r ttl now hold_id token session user ids key w).1.store
        ≡ ok (record {
          hold_id = hold_id;
          event_session_id = session;
          seat_ids = ids;
          expires_at = now + ttl;
        })
  unfolding assert_owned_hold
  assert_owned_hold-acquire ttl now t hold_id token session user seat_ids ids key w p us uh n k e
        from until =
      let after = (acquire r ttl now hold_id token session user ids key w).1.store in
      let h = written r (now + ttl) hold_id token session user ids in
      let a = acquire-Acquired r ttl now hold_id token session user ids key w p k e in
      let stored : All (λ id. get t (seat_hold_key session id) after ≡ some (hold h)) ids =
        All-mono _ _ ids (λ id i. a.reads t id from ∙ ground arith) (All-includes_self ids) in
      rw (
        us,
        uh,
        n,
        read_copies t session h ids after stored,
        copies_kept t h ids until,
        copies_own h ids,
        copies_whole h ids refl,
        copies_expiry t h ids (normalize_seat_ids-IsSelection seat_ids ids n).not_empty,
      )

  -- A release that succeeds found only documents of the caller under the seats' keys, frees those
  -- seats and no others; one that does not succeed changes nothing.
  pub record Released (now : ℕ) (session user token : Text) (ids : List Text) (before after : Store)
      : Type 0 where
    pub owned :
        All
          (λ k. (v : Stored) → get now k before ≡ some v → owns token user v ≡ true)
          (seat_keys session ids)
    pub reads :
        (t : ℕ) (seat : Text)
        → get t (seat_hold_key session seat) after
          ≡ (if includes ids seat then none else get t (seat_hold_key session seat) before)

  release_script-Released :
      (now : ℕ) (session user token : Text) (ids : List Text) (s : Store)
      → ((after : Store) × (release_script r now (seat_keys session ids) token user s
            ≡ (done, after))
          × Released now session user token ids s after)
        ⊎ ((release_script r now (seat_keys session ids) token user s ≡ (denied, s))
            ⊎ (release_script r now (seat_keys session ids) token user s ≡ (nothing, s)))
  unfolding release_script
  release_script-Released now session user token ids s =
      elim (Option-cases (release_check r now token user s false (seat_keys session ids))) [
        | inl theirs ↦ inr (inl (rw (theirs, release_script)))
        | inr (true, mine) ↦ inl (
          delete_all r (seat_keys session ids) s,
          rw (mine, release_script),
          record {
            owned = release_check_owned r now token user s false (seat_keys session ids) true mine;
            reads = λ t seat.
                get-delete_all r t (seat_keys session ids) (seat_hold_key session seat) s
                ∙ rw (includes-seat_keys session ids seat);
          },
        )
        | inr (false, mine) ↦ inr (inr (rw (mine, release_script)))
      ]

  release_checks-normalized :
      (now : ℕ) (session : Text) (seat_ids ids : List Text) (s : Store)
      → release_checks r now session seat_ids s ≡ ok (some ids)
      → normalize_seat_ids seat_ids ≡ ok ids
  unfolding release_checks
  release_checks-normalized now session seat_ids ids s e = ground arith

  -- `release` answers true only if each document that stood under the seats' keys carries the
  -- caller's token and user; then those seats, and no other seat of the session, are free. Any
  -- other outcome leaves the holds and what was published as they were.
  pub release_outcome :
      (now : ℕ) (session user token : Text) (seat_ids : List Text) (rows : List Allocation)
      (w : World Store)
      → ((ids : List Text) × ((release r now session user seat_ids token rows w).0 ≡ ok true)
          × (normalize_seat_ids seat_ids ≡ ok ids)
          × Released now session user token ids w.store
              (release r now session user seat_ids token rows w).1.store)
        ⊎ (((release r now session user seat_ids token rows w).0 ≢ ok true)
            × ((release r now session user seat_ids token rows w).1 ≡ w))
  unfolding release
  release_outcome now session user token seat_ids rows w =
      elim (Result-cases (release_checks r now session seat_ids w.store)) [
        | inr (f, e) ↦ inr ((λ h. ground arith), rw (e, release))
        | inl (none, e) ↦ inr ((λ h. ground arith), rw (e, release))
        | inl (some ids, e) ↦ elim (release_script-Released now session user token ids w.store) [
          | inl (after, script, done_so) ↦ inl (
            ids,
            rw (e, script, release),
            release_checks-normalized now session seat_ids ids w.store e,
            rw (e, script, release) done_so,
          )
          | inr (inl script) ↦ inr ((λ h. ground arith), rw (e, script, release))
          | inr (inr script) ↦ inr ((λ h. ground arith), rw (e, script, release))
        ]
      ]
