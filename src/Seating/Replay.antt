-- ===== src/Seating/Replay.antt =====
-- The replay of a request key (`hold` of seating.service.ts).
use eventory.Common.{
  is_empty, trim, length, All-mono, All-includes_self, nat_beq, refl, false, ℕ, ◌+◌, ◌≤◌, ◌<◌, ◌≡◌,
  sym, ap, ◌∙◌, inl, inr, true, none, some, List, [], ◌∷◌, arith, ltb, ◌==◌, nat_eq, all, All, Text,
  text_eq, text_beq_refl, Option, subst,
}
use eventory.Errors.{ok}
use eventory.Seating.Redis.{Redis, Hold, HoldResponse, hold, response}
use eventory.Seating.Holds.{seat_hold_key, seat_hold_request_key}
use eventory.Seating.Checks.{seat_keys, parse_hold, parse_hold_response}
use eventory.Seating.Service.{
  World, acquire, replay_hold, hold_seats, SaleSession, hold_keys_exist, hold_checks,
}
use eventory.Seating.Scripts.{acquire_script_cases}
use eventory.Seating.Exclusion.{written, IsRequestKey, acquire-Acquired}

module _ (r : Redis) where
  open r use {Store, get, set, get-set}

  -- What a successful acquisition under a request key leaves there.
  acquire-answer :
      (ttl now t : ℕ) (hold_id token session user : Text) (ids : List Text) (key : Text)
      (w : World Store) (p : HoldResponse)
      → (acquire r ttl now hold_id token session user ids (some key) w).0 ≡ ok p
      → now ≤ t
      → t < now + ttl
      → (p ≡ record {
        hold_id = hold_id;
        hold_token = token;
        event_session_id = session;
        seat_ids = ids;
        expires_at = now + ttl;
      })
        × (get t key (acquire r ttl now hold_id token session user ids (some key) w).1.store
            ≡ some (response p))
  unfolding acquire
  acquire-answer ttl now t hold_id token session user ids key w p e from until =
      elim (acquire_script_cases r now ttl (seat_keys session ids)
        (hold (written r (now + ttl) hold_id token session user ids)) w.store) [
          | inl (busy, script) ↦ absurd (ground arith)
          | inr (free, script) ↦
              let lasts : ltb t (now + ttl) ≡ true = ground arith in
              let given : (record {
                hold_id = hold_id;
                hold_token = token;
                event_session_id = session;
                seat_ids = ids;
                expires_at = now + ttl;
              })
                  ≡ p =
                ground arith in
              (
                sym given,
                rw script (
                    get-set now ttl t key key _ _ from
                    ∙ rw (text_beq_refl key, lasts) (ap (λ x. some (response x)) given)),
              )
        ]

  keys_there :
      (t : ℕ) (token session : Text) (h : Hold) (s : Store) (ids : List Text)
      → h.token ≡ token
      → All (λ id. get t (seat_hold_key session id) s ≡ some (hold h)) ids
      → all
          (λ id. elim (parse_hold (get t (seat_hold_key session id) s)) [
            | none ↦ false
            | some x ↦ x.token == token
          ])
          ids
        ≡ true
  keys_there t token session h s [] mine a = refl
  keys_there t token session h s (id ∷ ids) mine a =
      rw (a.0, mine, text_beq_refl token) (keys_there t token session h s ids mine a.1)

  replayed :
      (ttl now t : ℕ) (hold_id token session user : Text) (ids : List Text) (key : Text)
      (w : World Store) (p : HoldResponse)
      → is_empty hold_id ≡ false
      → is_empty token ≡ false
      → is_empty session ≡ false
      → 0 < length ids
      → IsRequestKey (some key)
      → (acquire r ttl now hold_id token session user ids (some key) w).0 ≡ ok p
      → now ≤ t
      → t < now + ttl
      → replay_hold r t
          (some key)
          (acquire r ttl now hold_id token session user ids (some key) w).1.store
        ≡ (some p, (acquire r ttl now hold_id token session user ids (some key) w).1.store)
  unfolding replay_hold parse_hold_response hold_keys_exist
  replayed ttl now t hold_id token session user ids key w p nh nt ns some_seats k e from until =
      let after = (acquire r ttl now hold_id token session user ids (some key) w).1.store in
      let (is_answer, stored) =
        acquire-answer ttl now t hold_id token session user ids key w p e from until in
      let a = acquire-Acquired r ttl now hold_id token session user ids (some key) w p k e in
      let h = written r (now + ttl) hold_id token session user ids in
      let seats_there : All (λ id. get t (seat_hold_key session id) after ≡ some (hold h)) ids =
        All-mono _ _ ids (λ id i. a.reads t id from ∙ ground arith) (All-includes_self ids) in
      let some_ids : nat_beq (length ids) 0 ≡ false = ground arith in
      let good : parse_hold_response (some (response p)) ≡ some p =
        rw (is_answer, parse_hold_response, nh, nt, ns, some_ids) in
      let alive : hold_keys_exist r t p after ≡ true =
        subst (λ x. hold_keys_exist r t x after ≡ true) (sym is_answer)
          (keys_there t token session h after ids refl seats_there) in
      rw (replay_hold, stored, good, alive)

  -- A retry of `hold` is answered with the first answer: if a user acquired seats under an
  -- idempotency key, and while the hold lasts the same user sends a request with that key that
  -- passes the checks of the sale, then the answer is that of the first request and neither a hold
  -- nor what was published changes. The second request may name another session and other seats.
  pub hold_seats-replay :
      (sessions : Text → Option SaleSession) (safe_key : Text → Text) (ttl now t : ℕ)
      (hold_id token session user idempotency_key : Text) (ids : List Text) (w : World Store)
      (p : HoldResponse) (hold_id' token' session' : Text) (seat_ids' ids' : List Text)
      → is_empty hold_id ≡ false
      → is_empty token ≡ false
      → is_empty session ≡ false
      → 0 < length ids
      → is_empty (trim idempotency_key) ≡ false
      → let key = seat_hold_request_key user (safe_key (trim idempotency_key)) in
        (acquire r ttl now hold_id token session user ids (some key) w).0 ≡ ok p
        → hold_checks sessions t session' seat_ids' ≡ ok ids'
        → now ≤ t
        → t < now + ttl
        → hold_seats r sessions safe_key ttl t hold_id' token' session' user seat_ids'
            (some idempotency_key)
            (acquire r ttl now hold_id token session user ids (some key) w).1
          ≡ (ok p, (acquire r ttl now hold_id token session user ids (some key) w).1)
  unfolding hold_seats
  hold_seats-replay sessions safe_key ttl now t hold_id token session user idempotency_key ids w p
        hold_id' token' session' seat_ids' ids' nh nt ns some_seats nk e checks from until =
      let key = seat_hold_request_key user (safe_key (trim idempotency_key)) in
      let after = (acquire r ttl now hold_id token session user ids (some key) w).1.store in
      rw (
        hold_seats,
        checks,
        hold_seats,
        nk,
        replayed ttl now t hold_id token session user ids key w p nh nt ns some_seats
            (user, safe_key (trim idempotency_key), refl) e from until,
      )
