-- ===== src/Seating/Exclusion.antt =====
-- No seat is held twice (`hold` of seating.service.ts over the acquisition script).
use eventory.Common.{
  ℕ, ◌+◌, ◌≤◌, ◌<◌, ◌≡◌, refl, ◌∙◌, inl, inr, true, false, Option, none, some, List, arith, ltb,
  if◌then◌else◌, nat_eq, is_some, any, includes, Text, text_eq,
}
use eventory.Errors.{Code, conflict, ok, err}
use eventory.Seating.Redis.{Redis, Hold, HoldResponse, hold, response}
use eventory.Seating.Holds.{seat_hold_key, seat_hold_request_key}
use eventory.Seating.Checks.{seat_keys}
use eventory.Seating.Service.{World, SeatUpdate, acquire}
use eventory.Seating.Keys.{includes-seat_keys, request_key_beq}
use eventory.Seating.Scripts.{get-set_all, any_held, acquire_script_cases}

-- A key as `hold_seats` makes it, if it makes one.
abbrev pub IsRequestKey : Option Text → Type 0
IsRequestKey none = Unit {0}
IsRequestKey (some key) = (user : Text) × (safe : Text) × (key ≡ seat_hold_request_key user safe)

module _ (r : Redis) where
  open r use {Store, get, set, get-set}

  -- The document that an acquisition writes.
  abbrev pub written : ℕ → Text → Text → Text → Text → List Text → Hold
  written deadline hold_id token session user ids = record {
    token = token;
    hold_id = hold_id;
    user_id = user;
    event_session_id = session;
    seat_ids = some ids;
    expires_at = deadline;
  }

  -- Keeping the answer for a replay touches no seat.
  get-answer :
      (now ttl t : ℕ) (key : Option Text) (p : HoldResponse) (session seat : Text) (s : Store)
      → now ≤ t
      → IsRequestKey key
      → get t
          (seat_hold_key session seat)
          (elim key [ none ↦ s | some k ↦ set now ttl k (response p) s ])
        ≡ get t (seat_hold_key session seat) s
  get-answer now ttl t none p session seat s h k = refl
  get-answer now ttl t (some key) p session seat s h (user, safe, e) = rw (
    get-set now ttl t key (seat_hold_key session seat) (response p) s h,
    e,
    request_key_beq user safe session seat,
  )

  -- What a successful acquisition did.
  pub record Acquired (now ttl : ℕ) (hold_id token session user : Text) (ids : List Text)
      (before after : Store) : Type 0 where
    pub was_free : any (λ k. is_some (get now k before)) (seat_keys session ids) ≡ false
    pub reads :
        (t : ℕ) (seat : Text)
        → now ≤ t
        → get t (seat_hold_key session seat) after ≡ (
            if includes ids seat
            then if ltb t (now + ttl)
              then some (hold (written (now + ttl) hold_id token session user ids))
              else none
            else get t (seat_hold_key session seat) before)

  -- Every seat was free, each now carries this hold until it lapses, and no other seat of the
  -- session changed.
  pub acquire-Acquired :
      (ttl now : ℕ) (hold_id token session user : Text) (ids : List Text) (key : Option Text)
      (w : World Store) (p : HoldResponse)
      → IsRequestKey key
      → (acquire r ttl now hold_id token session user ids key w).0 ≡ ok p
      → Acquired now ttl hold_id token session user ids w.store
          (acquire r ttl now hold_id token session user ids key w).1.store
  unfolding acquire
  acquire-Acquired ttl now hold_id token session user ids key w p k e =
      elim (acquire_script_cases r now ttl (seat_keys session ids)
        (hold (written (now + ttl) hold_id token session user ids)) w.store) [
          | inl (busy, script) ↦ absurd (ground arith)
          | inr (free, script) ↦ rw script (record {
            was_free = free;
            reads = λ t seat h.
                get-answer now ttl t key _ session seat _ h k
                ∙ get-set_all r now ttl t _ (seat_keys session ids) (seat_hold_key session seat)
                    w.store h
                ∙ rw (includes-seat_keys session ids seat);
          })
        ]

  -- While a hold lasts, a second acquisition that shares a seat with it is refused and changes
  -- nothing in the store.
  pub acquire-excludes :
      (ttl now : ℕ) (hold_id token session user : Text) (ids : List Text) (key : Option Text)
      (w : World Store) (p : HoldResponse) (ttl' t : ℕ) (hold_id' token' user' : Text)
      (ids' : List Text) (key' : Option Text) (published : List SeatUpdate) (seat : Text)
      → IsRequestKey key
      → (acquire r ttl now hold_id token session user ids key w).0 ≡ ok p
      → now ≤ t
      → t < now + ttl
      → includes ids seat ≡ true
      → includes ids' seat ≡ true
      → let s = (acquire r ttl now hold_id token session user ids key w).1.store in
        acquire r ttl' t hold_id' token' session user' ids' key'
          (record { store = s; published = published })
        ≡ (err (conflict Code.seat_already_held), record { store = s; published = published })
  unfolding acquire
  acquire-excludes ttl now hold_id token session user ids key w p ttl' t hold_id' token' user' ids'
        key' published seat k e from until mine yours =
      let s = (acquire r ttl now hold_id token session user ids key w).1.store in
      let a = acquire-Acquired ttl now hold_id token session user ids key w p k e in
      let there : get t (seat_hold_key session seat) s
          ≡ some (hold (written (now + ttl) hold_id token session user ids)) =
        a.reads t seat from ∙ ground arith in
      let busy =
        any_held r t (seat_keys session ids') (seat_hold_key session seat) s _
          (includes-seat_keys session ids' seat ∙ yours) there in
      elim (acquire_script_cases r t ttl' (seat_keys session ids')
        (hold (written (t + ttl') hold_id' token' session user' ids')) s) [
          | inl (_, script) ↦ rw script
          | inr (free, _) ↦ absurd (ground arith)
        ]
