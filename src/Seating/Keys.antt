-- ===== src/Seating/Keys.antt =====
-- The keys under which holds are stored (seat-hold.constants.ts).
use eventory.Common.{
  ℕ, ◌≡◌, refl, ap, ◌≢◌, inl, inr, false, List, [], ◌∷◌, ◌++◌, map, arith, ◌==◌, nat_eq, Bool-cases,
  includes, Text, codes, text_beq_iff, text_eq,
}
use eventory.Seating.Holds.{seat_hold_prefix, seat_hold_key, seat_hold_request_key}

pub append_cancel : (p s t : Text) → p ++ s ≡ p ++ t → s ≡ t
append_cancel [] s t e = e
append_cancel (c ∷ p) s t e = append_cancel p s t (ground arith)

-- Within a session two seats have two keys.
pub seat_hold_key-injective :
    (session seat other : Text)
    → seat_hold_key session seat ≡ seat_hold_key session other
    → seat ≡ other
unfolding seat_hold_key
seat_hold_key-injective session seat other e =
    append_cancel (codes ":") seat other
      (append_cancel session _ _ (append_cancel seat_hold_prefix _ _ e))

pub seat_hold_key_beq :
    (session seat other : Text)
    → (seat_hold_key session seat == seat_hold_key session other) ≡ (seat == other)
seat_hold_key_beq session seat other = elim (Bool-cases (seat == other)) [
  | inl same ↦
      rw
        (same, (text_beq_iff _ _).1 (ap (seat_hold_key session) ((text_beq_iff seat other).0 same)))
  | inr differ ↦ elim (Bool-cases (seat_hold_key session seat == seat_hold_key session other)) [
    | inl e ↦
        let same = seat_hold_key-injective session seat other ((text_beq_iff _ _).0 e) in
        absurd (ground (arith, (text_beq_iff seat other).1 same))
    | inr e ↦ rw (e, differ)
  ]
]

pub includes-seat_keys :
    (session : Text) (seats : List Text) (seat : Text)
    → includes (map (seat_hold_key session) seats) (seat_hold_key session seat)
      ≡ includes seats seat
unfolding includes
includes-seat_keys session [] seat = refl
includes-seat_keys session (x ∷ seats) seat =
    rw (seat_hold_key_beq session x seat, includes-seat_keys session seats seat)

abbrev first_code : Text → ℕ
first_code [] = 0
first_code (c ∷ s) = c

-- A request's key is never a seat's.
pub request_key-ne-seat_key :
    (user key session seat : Text) → seat_hold_request_key user key ≢ seat_hold_key session seat
unfolding seat_hold_key seat_hold_request_key
request_key-ne-seat_key user key session seat e =
    omega (arith, ap first_code (append_cancel (codes "eventory:seat-hold") _ _ e))

pub request_key_beq :
    (user key session seat : Text)
    → (seat_hold_request_key user key == seat_hold_key session seat) ≡ false
request_key_beq user key session seat =
    elim (Bool-cases (seat_hold_request_key user key == seat_hold_key session seat)) [
      | inl e ↦ absurd (request_key-ne-seat_key user key session seat ((text_beq_iff _ _).0 e))
      | inr e ↦ e
    ]
