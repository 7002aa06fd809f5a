-- ===== src/Identity/Accounts.antt =====
-- apps/api/src/modules/identity/identity.service.ts: `register` and `login`, with the cookies of a
-- session, and of users/users.service.ts what they use. The address of a request is not modelled.
use eventory.Common.{
  ℕ, ◌+◌, ◌*◌, Bool, false, ◌||◌, not, Option, none, some, List, [], ◌∷◌, if◌then◌else◌, ◌==◌,
  nat_eq, get_or, any, Text, codes, text_eq, trim, find_by,
}
use eventory.Errors.{Code, conflict, unauthorized, unique_violation, Result, ok, err}
use eventory.Domain.{UserRole, UserStatus, is_active}
use eventory.Identity.Service.{RefreshToken, assert_password_policy, has_hash}

pub record Account : Type 0 where
  pub id : Text
  pub email : Text
  pub display_name : Text
  pub password_hash : Text
  pub role : UserRole
  pub status : UserStatus

pub record AccountDb : Type 0 where
  pub users : List Account
  pub refresh_tokens : List RefreshToken
  -- The action and the user of an audit record.
  pub audit_logs : List (Text × Text)

-- What the code takes from its libraries. `verify_password` gives nothing where `argon2.verify` throws.
pub record Library : Type 0 where
  pub to_lower_case : Text → Text
  pub hash_token : Text → Text
  -- from a salt and a password
  pub hash_password : Text → Text → Text
  pub verify_password : Text → Text → Option Bool
  -- from the time of the signature, the time to live, the user and the role
  pub sign_access_token : ℕ → ℕ → Text → UserRole → Text

pub record Settings : Type 0 where
  pub is_production : Bool
  pub access_token_ttl_seconds : ℕ
  pub refresh_token_ttl_seconds : ℕ

-- What a request draws, and its readings of the clock.
pub record Draws : Type 0 where
  pub signed_at : ℕ
  pub now : ℕ
  pub user_id : Text
  pub salt : Text
  pub refresh_token : Text
  pub token_id : Text
  pub family_id : Text

pub record PublicUser : Type 0 where
  pub id : Text
  pub role : UserRole
  pub email : Text
  pub display_name : Text

-- The calls on the response: `cookie` with its name, value, path, `secure` and `maxAge`, and
-- `clearCookie`. `httpOnly` is always set, and `sameSite` is always `lax`.
pub data CookieCall : Type 0 where
  cookie : Text → Text → Text → Bool → ℕ → CookieCall
  clear_cookie : Text → Text → Bool → CookieCall

pub record Session : Type 0 where
  pub user : PublicUser
  pub cookies : List CookieCall

pub record Credentials : Type 0 where
  pub email : Text
  pub password : Text

abbrev pub to_public_user : Account → PublicUser
to_public_user user = record {
  id = user.id;
  role = user.role;
  email = user.email;
  display_name = user.display_name;
}

abbrev access_cookie : Text
access_cookie = codes "eventory_access"

abbrev refresh_cookie : Text
refresh_cookie = codes "eventory_refresh"

-- `setSessionCookies`, with `clearLegacySessionCookies`
unfoldable pub set_session_cookies : Settings → Text → Text → List CookieCall
set_session_cookies settings access_token refresh_token =
    cookie access_cookie access_token (codes "/") settings.is_production
      (settings.access_token_ttl_seconds * 1_000)
    ∷ (cookie refresh_cookie refresh_token (codes "/") settings.is_production
          (settings.refresh_token_ttl_seconds * 1_000)
        ∷ (clear_cookie access_cookie (codes "/api") settings.is_production
            ∷ (clear_cookie refresh_cookie (codes "/api/v1/auth") settings.is_production ∷ [])))

abbrev pub normalize_email : Library → Text → Text
normalize_email lib value = lib.to_lower_case (trim value)

abbrev pub has_email : Text → Account → Bool
has_email email user = user.email == email

-- A row that the unique indexes of the accounts, and of the refresh tokens, refuse.
abbrev pub is_registered : Text → Text → Account → Bool
is_registered id email user = user.id == id || has_email email user

abbrev pub is_issued : Text → Text → RefreshToken → Bool
is_issued id token_hash t = t.id == id || has_hash token_hash t

-- `issueSession`: the cookies
unfoldable pub issue_session :
    Library → Settings → Draws → Account → AccountDb → Result (List CookieCall) × AccountDb
issue_session lib settings draws user db =
    let token_hash = lib.hash_token draws.refresh_token in
    let access_token =
      lib.sign_access_token draws.signed_at settings.access_token_ttl_seconds user.id user.role in
    if any (is_issued draws.token_id token_hash) db.refresh_tokens
    then (err unique_violation, db)
    else (
      ok (set_session_cookies settings access_token draws.refresh_token),
      record db {
        refresh_tokens =
            record {
              id = draws.token_id;
              user_id = user.id;
              token_hash = token_hash;
              family_id = draws.family_id;
              expires_at = draws.now + settings.refresh_token_ttl_seconds * 1_000;
              used_at = none;
              revoked_at = none;
            }
            ∷ db.refresh_tokens;
      },
    )

-- The end of `register` and of `login`: the session, the audit record and the answer.
unfoldable pub enter :
    Text → Library → Settings → Draws → Account → AccountDb → Result Session × AccountDb
enter action lib settings draws user db =
    let (issued, after) = issue_session lib settings draws user db in
    elim issued [
      | err e ↦ (err e, after)
      | ok cookies ↦ (
        ok (record { user = to_public_user user; cookies = cookies }),
        record after { audit_logs = (action, user.id) ∷ after.audit_logs },
      )
    ]

-- The row that `users.create` writes, with the defaults of the schema.
unfoldable pub account_for : Library → Draws → Text → Credentials → Account
account_for lib draws display_name input = record {
  id = draws.user_id;
  email = normalize_email lib input.email;
  display_name = trim display_name;
  password_hash = lib.hash_password draws.salt input.password;
  role = UserRole.attendee;
  status = UserStatus.active;
}

-- `register`
unfoldable pub register :
    Library → Settings → Draws → Text → Credentials → AccountDb → Result Session × AccountDb
register lib settings draws display_name input db = elim (assert_password_policy input.password) [
  | err e ↦ (err e, db)
  | ok _ ↦
      let user = account_for lib draws display_name input in
      if any (is_registered user.id user.email) db.users
      then (err (conflict Code.registration_conflict), db)
      else enter (codes "USER_REGISTERED") lib settings draws user
          (record db { users = user ∷ db.users })
]

-- `argon2.verify(…).catch(() => false)`
abbrev pub is_password_of : Library → Text → Account → Bool
is_password_of lib password user = get_or (lib.verify_password user.password_hash password) false

-- `login`
unfoldable pub login :
    Library → Settings → Draws → Credentials → AccountDb → Result Session × AccountDb
login lib settings draws input db =
    elim (find_by (has_email (normalize_email lib input.email)) db.users) [
      | none ↦ (err (unauthorized Code.invalid_credentials), db)
      | some user ↦
          if not (is_password_of lib input.password user) || not (is_active user.status)
          then (err (unauthorized Code.invalid_credentials), db)
          else enter (codes "USER_LOGGED_IN") lib settings draws user db
    ]
