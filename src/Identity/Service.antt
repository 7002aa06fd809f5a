-- ===== src/Identity/Service.antt =====
-- apps/api/src/modules/identity: `assertPasswordPolicy` of password-policy.ts, and of
-- identity.service.ts what happens to the refresh tokens. `hash` is `hashToken`; a new token is an
-- argument, as `randomBytes` gives it. The cookies, access token and audit record of `refresh` and of
-- `logout` are not modelled.
use eventory.Common.{
  ℕ, ◌+◌, ◌*◌, Bool, ◌&&◌, ◌||◌, not, Option, none, some, List, ◌∷◌, ltb, leb, if◌then◌else◌, ◌==◌,
  nat_eq, is_some, is_none, length, any, Text, text_eq, is_empty, find_by, update_where, count_by,
}
use eventory.Errors.{Code, bad_request, unauthorized, Result, ok, err, throw_if}

pub record RefreshToken : Type 0 where
  pub id : Text
  pub user_id : Text
  pub token_hash : Text
  pub family_id : Text
  pub expires_at : ℕ
  pub used_at : Option ℕ
  pub revoked_at : Option ℕ

pub data Rotation : Type 0 where
  rotated : Text → Text → Rotation
  invalid : Rotation
  reuse : Text → Rotation

abbrev pub has_hash : Text → RefreshToken → Bool
has_hash token_hash t = t.token_hash == token_hash

-- `where: { id, usedAt: null, revokedAt: null }`
abbrev pub is_live : Text → RefreshToken → Bool
is_live id t = (is_none t.used_at && is_none t.revoked_at) && t.id == id

abbrev pub is_spent : ℕ → RefreshToken → Bool
is_spent now t = is_some t.used_at || (is_some t.revoked_at || leb t.expires_at now)

-- The rest of the transaction of `rotateRefreshToken`, from the token as it was read.
unfoldable pub consume :
    ℕ → ℕ → Text → Text → Text → RefreshToken → List RefreshToken → Rotation × List RefreshToken
consume now ttl fresh refresh_token refresh_hash current tokens =
    let used = update_where (is_live current.id) (λ t. record t { used_at = some now }) tokens in
    if not (count_by (is_live current.id) tokens == 1) then (reuse current.family_id, used) else (
      rotated current.user_id refresh_token,
      record {
        id = fresh;
        user_id = current.user_id;
        token_hash = refresh_hash;
        family_id = current.family_id;
        expires_at = now + ttl * 1_000;
        used_at = none;
        revoked_at = none;
      }
          ∷ used,
    )

-- `rotateRefreshToken`
unfoldable pub rotate_refresh_token :
    (Text → Text) → ℕ → ℕ → Text → Text → Text → List RefreshToken → Rotation × List RefreshToken
rotate_refresh_token hash now ttl fresh refresh_token raw_token tokens =
    elim (find_by (has_hash (hash raw_token)) tokens) [
      | none ↦ (invalid, tokens)
      | some current ↦
          if is_spent now current
          then (reuse current.family_id, tokens)
          else consume now ttl fresh refresh_token (hash refresh_token) current tokens
    ]

-- `where: { familyId, revokedAt: null }`
abbrev pub is_unrevoked_of : Text → RefreshToken → Bool
is_unrevoked_of family_id t = t.family_id == family_id && is_none t.revoked_at

unfoldable pub revoke_family : ℕ → Text → List RefreshToken → List RefreshToken
revoke_family now family_id tokens =
    update_where (is_unrevoked_of family_id) (λ t. record t { revoked_at = some now }) tokens

-- `refresh`: the user's identifier and the new token. `later` is the reading for a revocation.
unfoldable pub refresh :
    (Text → Text)
    → ℕ
    → ℕ
    → ℕ
    → Text
    → Text
    → Option Text
    → List RefreshToken
    → Result (Text × Text) × List RefreshToken
refresh hash now later ttl fresh refresh_token none tokens =
    (err (unauthorized Code.invalid_credentials), tokens)
refresh hash now later ttl fresh refresh_token (some raw_token) tokens =
    let (rotation, after) =
      rotate_refresh_token hash now ttl fresh refresh_token raw_token tokens in
    elim rotation [
      | rotated user_id token ↦ (ok (user_id, token), after)
      | invalid ↦ (err (unauthorized Code.invalid_credentials), after)
      | reuse family_id ↦ (
        err (unauthorized Code.refresh_token_reuse),
        (if is_empty family_id then after else revoke_family later family_id after),
      )
    ]

-- `logout`
unfoldable pub logout : (Text → Text) → ℕ → Option Text → List RefreshToken → List RefreshToken
logout hash now none tokens = tokens
logout hash now (some raw_token) tokens =
    update_where (λ t. has_hash (hash raw_token) t && is_none t.revoked_at)
      (λ t. record t { revoked_at = some now }) tokens

abbrev pub in_range : ℕ → ℕ → ℕ → Bool
in_range low high c = leb low c && leb c high

-- `assertPasswordPolicy`
unfoldable pub assert_password_policy : Text → Result (Unit {0})
assert_password_policy password =
    let has_uppercase = any (in_range 65 90) password in
    let has_lowercase = any (in_range 97 122) password in
    let has_number = any (in_range 48 57) password in
    throw_if
      (ltb (length password) 12
        || (ltb 128 (length password)
            || (not has_uppercase || (not has_lowercase || not has_number))))
      (bad_request Code.weak_password)
