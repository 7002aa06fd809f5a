-- ===== src/Seating/Ownership.antt =====
-- Who owns a hold: `assertOwnedHold` of seating.service.ts, on which a checkout and a payment rest.
use eventory.Common.{
  ℕ, ◌≤◌, ◌<◌, ◌≡◌, refl, sym, ◌∙◌, subst, inl, inr, true, false, Option, none, some, List, [], ◌∷◌,
  arith, nat_eq, get_or, any, All, includes, All-includes, Text, text_beq_iff, text_eq,
}
use eventory.Errors.{Code, conflict, forbidden, ok, ◌>>◌, throw_if, Result-cases}
use eventory.Seating.Redis.{Redis, Hold}
use eventory.Seating.Holds.{seat_hold_key}
use eventory.Seating.Checks.{
  normalize_seat_ids, parse_hold, assert_whole_hold, is_lost, min_expiry, seat_keys, read_holds,
}
use eventory.Seating.Owned.{OwnedHold, is_other_hold, assert_owned_hold}
use eventory.Seating.Selection.{IsSelection, normalize_seat_ids-IsSelection}

-- A hold as its owner may use it at the time `now`.
abbrev IsMine : ℕ → Text → Text → Text → ℕ → Option Hold → Type 0
IsMine now user hold_id session until none = ⊥
IsMine now user hold_id session until (some h) =
    (h.user_id ≡ user)
    × (h.hold_id ≡ hold_id)
    × (h.event_session_id ≡ session)
    × (now < h.expires_at)
    × (until ≤ h.expires_at)

check_one :
    (now : ℕ) (user hold_id session : Text) (until : ℕ) (o : Option Hold)
    → is_lost now o ≡ false
    → is_other_hold user hold_id session o ≡ false
    → until ≤ get_or (elim o [ none ↦ none | some x ↦ some x.expires_at ]) now
    → IsMine now user hold_id session until o
check_one now user hold_id session until none l o u = absurd (ground arith)
check_one now user hold_id session until (some h) l o u = ground (
  arith,
  text_beq_iff h.user_id user,
  text_beq_iff h.hold_id hold_id,
  text_beq_iff h.event_session_id session,
)

check_each :
    (now : ℕ) (user hold_id session : Text) (hs : List (Option Hold)) (until : ℕ)
    → any (is_lost now) hs ≡ false
    → any (is_other_hold user hold_id session) hs ≡ false
    → until ≤ min_expiry now hs
    → All (IsMine now user hold_id session until) hs
unfolding min_expiry
check_each now user hold_id session [] until l o u = tt
check_each now user hold_id session (h ∷ []) until l o u =
    (check_one now user hold_id session until h (ground arith) (ground arith) u, tt)
check_each now user hold_id session (h ∷ k ∷ hs) until l o u = (
  check_one now user hold_id session until h (ground arith) (ground arith) (omega arith),
  check_each now user hold_id session (k ∷ hs) until (ground arith) (ground arith) (omega arith),
)

module _ (r : Redis) where
  open r use {Store, get}

  All-read_holds :
      (P : Option Hold → Type 0) (now : ℕ) (session : Text) (ids : List Text) (s : Store)
      → All P (read_holds r now (seat_keys session ids) s)
      → All (λ id. P (parse_hold (get now (seat_hold_key session id) s))) ids
  unfolding read_holds
  All-read_holds P now session [] s h = tt
  All-read_holds P now session (x ∷ ids) s h = (h.0, All-read_holds P now session ids s h.1)

  -- What `assertOwnedHold` vouches for.
  pub record IsOwned (now : ℕ) (session user : Text) (seat_ids : List Text) (hold_id : Text)
      (s : Store) (o : OwnedHold) : Type 0 where
    pub named : (o.hold_id ≡ hold_id) × (o.event_session_id ≡ session)
    pub selection : IsSelection seat_ids o.seat_ids
    pub mine :
        All
          (λ id.
            IsMine now user hold_id session o.expires_at
              (parse_hold (get now (seat_hold_key session id) s)))
          o.seat_ids

  IsOwned-checks :
      (now : ℕ) (session user : Text) (seat_ids ids : List Text) (hold_id : Text) (s : Store)
      (o : OwnedHold)
      → normalize_seat_ids seat_ids ≡ ok ids
      → (let holds = read_holds r now (seat_keys session ids) s in
          throw_if (any (is_lost now) holds) (conflict Code.hold_expired)
          >> throw_if
              (any (is_other_hold user hold_id session) holds)
              (forbidden Code.hold_not_owned)
          >> assert_whole_hold holds ids
          >> ok (record {
            hold_id = hold_id;
            event_session_id = session;
            seat_ids = ids;
            expires_at = min_expiry now holds;
          }))
        ≡ ok o
      → IsOwned now session user seat_ids hold_id s o
  IsOwned-checks now session user seat_ids ids hold_id s o n e =
      let holds = read_holds r now (seat_keys session ids) s in
      let kept : any (is_lost now) holds ≡ false = ground arith in
      let own : any (is_other_hold user hold_id session) holds ≡ false = ground arith in
      let same : OwnedHold = record {
        hold_id = hold_id;
        event_session_id = session;
        seat_ids = ids;
        expires_at = min_expiry now holds;
      } in
      let is_same : same ≡ o = ground arith in
      subst (IsOwned now session user seat_ids hold_id s) is_same (record {
        named = (refl, refl);
        selection = normalize_seat_ids-IsSelection seat_ids ids n;
        mine = All-read_holds _ now session ids s (
            check_each now user hold_id session holds (min_expiry now holds) kept own
              (omega arith));
      })

  -- If `assertOwnedHold` succeeds, the seats are a proper selection of those given, each of them
  -- is at that time under an unexpired hold of this user, with this id, for this session, and the
  -- expiry that is returned is no later than that of any of them.
  pub assert_owned_hold-IsOwned :
      (now : ℕ) (session user : Text) (seat_ids : List Text) (hold_id : Text) (s : Store)
      (o : OwnedHold)
      → assert_owned_hold r now session user seat_ids hold_id s ≡ ok o
      → IsOwned now session user seat_ids hold_id s o
  unfolding assert_owned_hold
  assert_owned_hold-IsOwned now session user seat_ids hold_id s o e =
      elim (Result-cases (normalize_seat_ids seat_ids)) [
        | inl (ids, n) ↦ IsOwned-checks now session user seat_ids ids hold_id s o n (ground arith)
        | inr (f, n) ↦ absurd (ground arith)
      ]

  -- Two holds that are vouched for at the same time and share a seat belong to one user.
  pub assert_owned_hold-one_owner :
      (now : ℕ) (session user user' : Text) (seat_ids seat_ids' : List Text)
      (hold_id hold_id' : Text) (s : Store) (o o' : OwnedHold) (seat : Text)
      → assert_owned_hold r now session user seat_ids hold_id s ≡ ok o
      → assert_owned_hold r now session user' seat_ids' hold_id' s ≡ ok o'
      → includes seat_ids seat ≡ true
      → includes seat_ids' seat ≡ true
      → (user ≡ user') × (hold_id ≡ hold_id')
  assert_owned_hold-one_owner now session user user' seat_ids seat_ids' hold_id hold_id' s o o' seat
        e e' i i' =
      let a = assert_owned_hold-IsOwned now session user seat_ids hold_id s o e in
      let b = assert_owned_hold-IsOwned now session user' seat_ids' hold_id' s o' e' in
      let here = All-includes _ o.seat_ids seat a.mine (a.selection.same_members seat ∙ i) in
      let there = All-includes _ o'.seat_ids seat b.mine (b.selection.same_members seat ∙ i') in
      agree (parse_hold (get now (seat_hold_key session seat) s)) here there
    where
      agree :
          (h : Option Hold)
          → IsMine now user hold_id session o.expires_at h
          → IsMine now user' hold_id' session o'.expires_at h
          → (user ≡ user') × (hold_id ≡ hold_id')
      agree none x y = absurd x
      agree (some h) x y = (sym x.0 ∙ y.0, sym x.1 ∙ y.1)
