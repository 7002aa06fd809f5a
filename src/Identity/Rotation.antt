-- ===== src/Identity/Rotation.antt =====
-- A refresh token is exchanged once, and a second use ends its family (identity.service.ts).
use eventory.Common.{
  ℕ, ◌+◌, ◌≤◌, ◌≡◌, refl, sym, subst, ◌⊎◌, inl, inr, Bool, true, false, ◌&&◌, some, List, [], ◌∷◌,
  arith, if◌then◌else◌, ◌==◌, nat_eq, Bool-cases, Option-cases, is_some, All, Text, text_beq_iff,
  text_eq, is_empty, find_by, update_where, count_by,
}
use eventory.Errors.{Code, unauthorized, err}
use eventory.Identity.Service.{
  RefreshToken, Rotation, rotated, invalid, reuse, has_hash, is_live, is_spent, consume,
  rotate_refresh_token, revoke_family, refresh,
}

-- No token of the family can be exchanged any more.
abbrev pub IsRevoked : Text → List RefreshToken → Type 0
IsRevoked family_id = All (λ t. (t.family_id == family_id ≡ true) → is_some t.revoked_at ≡ true)

revoke_family-IsRevoked :
    (now : ℕ) (family_id : Text) (ts : List RefreshToken)
    → IsRevoked family_id (revoke_family now family_id ts)
unfolding revoke_family update_where
revoke_family-IsRevoked now family_id [] = tt
revoke_family-IsRevoked now family_id (t ∷ ts) = (
  elim (Bool-cases (t.family_id == family_id)) [
    | inr other ↦ rw other (λ h. absurd (ground arith))
    | inl this ↦ elim (Option-cases t.revoked_at) [
      | inl live ↦ rw (this, live) (λ h. refl)
      | inr (at, revoked) ↦ rw (this, revoked) (λ h. refl)
    ]
  ],
  revoke_family-IsRevoked now family_id ts,
)

rotate-reuse :
    (hash : Text → Text) (now ttl : ℕ) (fresh refresh_token raw_token : Text)
    (ts : List RefreshToken) (t : RefreshToken)
    → find_by (has_hash (hash raw_token)) ts ≡ some t
    → is_spent now t ≡ true
    → rotate_refresh_token hash now ttl fresh refresh_token raw_token ts ≡ (reuse t.family_id, ts)
unfolding rotate_refresh_token
rotate-reuse hash now ttl fresh refresh_token raw_token ts t found spent =
    rw (rotate_refresh_token, found, spent)

-- If the token of a request is on record, of a family with a name, and was used, was revoked or has
-- expired, then the refresh is refused as a reuse and every token of the family is revoked.
pub refresh-IsRevoked :
    (hash : Text → Text) (now later ttl : ℕ) (fresh refresh_token raw_token : Text)
    (ts : List RefreshToken) (t : RefreshToken)
    → find_by (has_hash (hash raw_token)) ts ≡ some t
    → is_spent now t ≡ true
    → is_empty t.family_id ≡ false
    → ((refresh hash now later ttl fresh refresh_token (some raw_token) ts).0
        ≡ err (unauthorized Code.refresh_token_reuse))
      × IsRevoked t.family_id (refresh hash now later ttl fresh refresh_token (some raw_token) ts).1
unfolding refresh
refresh-IsRevoked hash now later ttl fresh refresh_token raw_token ts t found spent named =
    let e = rotate-reuse hash now ttl fresh refresh_token raw_token ts t found spent in
    (rw (refresh, e), rw (refresh, e, named) (rw e (revoke_family-IsRevoked later t.family_id ts)))

-- A request that reaches the transaction's `updateMany`, with the token as it was read.
pub record Exchange : Type 0 where
  pub now : ℕ
  pub ttl : ℕ
  pub fresh : Text
  pub refresh_token : Text
  pub refresh_hash : Text
  pub current : RefreshToken

abbrev pub is_rotated : Rotation → Bool
is_rotated (rotated _ _) = true
is_rotated invalid = false
is_rotated (reuse _) = false

-- How many of the requests exchange the token `id`, in the order in which the database runs them.
unfoldable pub exchanges : Text → List Exchange → List RefreshToken → ℕ
exchanges id [] ts = 0
exchanges id (x ∷ xs) ts =
    let (rotation, after) =
      consume x.now x.ttl x.fresh x.refresh_token x.refresh_hash x.current ts in
    (if x.current.id == id && is_rotated rotation then 1 else 0) + exchanges id xs after

-- The identifiers of the rows that the requests create are not `id`.
abbrev pub AreFresh : Text → List Exchange → Type 0
AreFresh id = All (λ x. x.fresh == id ≡ false)

use_up :
    (id x : Text) (now : ℕ) (ts : List RefreshToken)
    → (count_by (is_live id) ts ≡ 0) ⊎ (x ≡ id)
    → count_by (is_live id) (update_where (is_live x) (λ t. record t { used_at = some now }) ts) ≡ 0
unfolding count_by update_where
use_up id x now [] h = refl
use_up id x now (t ∷ ts) (inl h) = ground (arith, use_up id x now ts (inl (omega (arith, h))))
use_up id x now (t ∷ ts) (inr e) = elim (Bool-cases (is_live x t)) [
  | inl live ↦ rw live (omega (arith, use_up id x now ts (inr e)))
  | inr over ↦
      let not_id : is_live id t ≡ false = subst (λ i. is_live i t ≡ false) e over in
      rw (over, not_id) (omega (arith, use_up id x now ts (inr e)))
]

-- What a request leaves of the live tokens with an identifier, if it had none or is about them.
consume-used :
    (id : Text) (x : Exchange) (ts : List RefreshToken)
    → x.fresh == id ≡ false
    → (count_by (is_live id) ts ≡ 0) ⊎ (x.current.id ≡ id)
    → count_by
        (is_live id)
        (consume x.now x.ttl x.fresh x.refresh_token x.refresh_hash x.current ts).1
      ≡ 0
unfolding consume count_by
consume-used id x ts fresh h = elim (Bool-cases (count_by (is_live x.current.id) ts == 1)) [
  | inl one ↦ rw (consume, one, fresh) (omega (arith, use_up id x.current.id x.now ts h))
  | inr other ↦ rw (consume, other) (use_up id x.current.id x.now ts h)
]

consume-refused :
    (x : Exchange) (ts : List RefreshToken)
    → count_by (is_live x.current.id) ts ≡ 0
    → is_rotated (consume x.now x.ttl x.fresh x.refresh_token x.refresh_hash x.current ts).0 ≡ false
unfolding consume
consume-refused x ts h = rw (consume, h)

used_up :
    (id : Text) (xs : List Exchange) (ts : List RefreshToken)
    → AreFresh id xs
    → count_by (is_live id) ts ≡ 0
    → exchanges id xs ts ≡ 0
unfolding exchanges
used_up id [] ts f h = refl
used_up id (x ∷ xs) ts f h =
    let rest = used_up id xs _ f.1 (consume-used id x ts f.0 (inl h)) in
    elim (Bool-cases (x.current.id == id)) [
      | inr other ↦ rw (other, rest)
      | inl this ↦
          let e = (text_beq_iff x.current.id id).0 this in
          rw (this, consume-refused x ts (subst (λ i. count_by (is_live i) ts ≡ 0) (sym e) h), rest)
    ]

-- However many requests carry the same refresh token and however they interleave, at most one of
-- them is given a new token for it, provided that new rows have identifiers of their own.
pub exchanges-once :
    (id : Text) (xs : List Exchange) (ts : List RefreshToken)
    → AreFresh id xs
    → exchanges id xs ts ≤ 1
unfolding exchanges
exchanges-once id [] ts f = omega arith
exchanges-once id (x ∷ xs) ts f = elim (Bool-cases (x.current.id == id)) [
  | inr other ↦ rw other (omega (arith, exchanges-once id xs _ f.1))
  | inl this ↦
      let e = (text_beq_iff x.current.id id).0 this in
      let rest = used_up id xs _ f.1 (consume-used id x ts f.0 (inr e)) in
      rw (this, rest) (ground arith)
]
