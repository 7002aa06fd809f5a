-- ===== src/Security/Guards.antt =====
-- apps/api/src/common/security/csrf.guard.ts and session-origin.guard.ts, and of
-- apps/api/src/common/auth the guards auth.guard.ts, roles.guard.ts and organization-member.guard.ts.
-- What a route's metadata say is an argument; `verify` is `verifyAsync` of the JWT library with the
-- session secret, and gives nothing where it rejects.
use eventory.Common.{
  Bool, true, false, ◌&&◌, ◌||◌, not, Option, none, some, List, [], ◌∷◌, if◌then◌else◌, ◌==◌,
  nat_eq, is_some, length, any, includes, Text, codes, text_eq, is_empty, trim, find_by,
}
use eventory.Errors.{
  Code, Failure, forbidden, unauthorized, Result, ok, ◌>>=◌, ◌>>◌, throw_if, or_throw,
}
use eventory.Domain.{UserRole, UserStatus, OrganizationMemberRole, is_admin}
use eventory.Uuid.{is_uuid}
use eventory.Organizations.{Member, is_member, same_role}
use eventory.Security.Request.{Request, given, get_request_cookie}
use eventory.Security.Origin.{Url, starts_with, is_trusted_origin, assert_trusted_session_issuer}

abbrev pub safe_methods : List Text
safe_methods = codes "GET" ∷ codes "HEAD" ∷ codes "OPTIONS" ∷ []

abbrev pub access_token_cookie : Text
access_token_cookie = codes "eventory_access"

abbrev pub refresh_token_cookie : Text
refresh_token_cookie = codes "eventory_refresh"

-- `hasSessionCookie`: the second cookie is read where the first is absent or empty.
unfoldable pub has_session_cookie : (Text → Option Text) → Request → Result Bool
has_session_cookie decode request = do
  access ← get_request_cookie decode request access_token_cookie
  if is_some (given access) then ok true else (do
    refresh ← get_request_cookie decode request refresh_token_cookie
    ok (is_some (given refresh)))

unfoldable pub csrf_guard :
    (Text → Option Url) → (Text → Option Text) → List Text → Request → Result (Unit {0})
csrf_guard parse_url decode allowed request =
    if includes safe_methods request.method then ok tt else (do
      with_session ← has_session_cookie decode request
      if not with_session then ok tt else elim (given (request.header (codes "origin"))) [
        | none ↦ ok tt
        | some origin ↦
            throw_if (not (is_trusted_origin parse_url (some origin) allowed))
              (forbidden Code.csrf_origin_denied)
      ])

unfoldable pub session_origin_guard :
    (Text → Option Url) → List Text → Bool → Request → Result (Unit {0})
session_origin_guard parse_url allowed issues_session request =
    if issues_session then assert_trusted_session_issuer parse_url request allowed else ok tt

pub record Account : Type 0 where
  pub id : Text
  pub role : UserRole
  pub status : UserStatus
  pub email : Text
  pub display_name : Text

pub record AccessTokenPayload : Type 0 where
  pub sub : Text
  pub token_type : Text

-- `request.user`
pub record AuthenticatedUser : Type 0 where
  pub id : Text
  pub role : UserRole
  pub email : Text
  pub display_name : Text

abbrev pub is_active : UserStatus → Bool
is_active UserStatus.active = true
is_active UserStatus.suspended = false

abbrev pub authentication_error : Failure
authentication_error = unauthorized Code.authentication_required

-- `s.slice(prefix.length)`, where `s` starts with the prefix
unfoldable pub without : Text → Text → Text
without [] s = s
without (_ ∷ prefix) [] = []
without (_ ∷ prefix) (_ ∷ s) = without prefix s

abbrev pub bearer : Text
bearer = codes "Bearer "

unfoldable pub bearer_token : Request → Option Text
bearer_token request = elim (request.header (codes "authorization")) [
  | none ↦ none
  | some authorization ↦
      if starts_with bearer authorization
      then given (some (trim (without bearer authorization)))
      else none
]

unfoldable pub get_access_token : (Text → Option Text) → Request → Result (Option Text)
get_access_token decode request = do
  cookie ← get_request_cookie decode request access_token_cookie
  ok (elim (given cookie) [ some token ↦ some token | none ↦ bearer_token request ])

abbrev pub is_account : Text → Account → Bool
is_account id a = a.id == id

abbrev pub user_of : Account → AuthenticatedUser
user_of a = record { id = a.id; role = a.role; email = a.email; display_name = a.display_name }

-- What the token of a request proves.
unfoldable pub authenticate :
    (Text → Option AccessTokenPayload) → List Account → Text → Result AuthenticatedUser
authenticate verify accounts token = do
  payload ← or_throw (verify token) authentication_error
  throw_if (not (payload.token_type == codes "access") || is_empty payload.sub) authentication_error
  account ← or_throw (find_by (is_account payload.sub) accounts) authentication_error
  throw_if (not (is_active account.status)) authentication_error
  ok (user_of account)

-- `canActivate` of AuthGuard: the user that it sets, or none for a public route.
unfoldable pub auth_guard :
    (Text → Option Text)
    → (Text → Option AccessTokenPayload)
    → List Account
    → Bool
    → Request
    → Result (Option AuthenticatedUser)
auth_guard decode verify accounts is_public request = if is_public then ok none else (do
  found ← get_access_token decode request
  token ← or_throw found authentication_error
  user ← authenticate verify accounts token
  ok (some user))

abbrev pub same_user_role : UserRole → UserRole → Bool
same_user_role UserRole.admin UserRole.admin = true
same_user_role UserRole.organizer UserRole.organizer = true
same_user_role UserRole.attendee UserRole.attendee = true
same_user_role _ _ = false

-- `if (!roles?.length) return true`; a route without the metadata has `[]`.
unfoldable pub roles_guard : List UserRole → Option AuthenticatedUser → Result (Unit {0})
roles_guard roles user =
    throw_if
      (not (length roles == 0)
        && elim user [ none ↦ true | some u ↦ not (any (same_user_role u.role) roles) ])
      (forbidden Code.insufficient_role)

abbrev pub access_denied : Failure
access_denied = forbidden Code.organization_access_denied

unfoldable pub organization_member_guard :
    List OrganizationMemberRole
    → List Member
    → Option Text
    → Option AuthenticatedUser
    → Result (Unit {0})
organization_member_guard roles members organization_id user = do
  u ← or_throw user access_denied
  id ← or_throw (given organization_id) access_denied
  if is_admin u.role then ok tt else (do
    throw_if (not (is_uuid id)) access_denied
    membership ← or_throw (find_by (is_member id u.id) members) access_denied
    throw_if (not (length roles == 0) && not (any (same_role membership.role) roles)) access_denied)
