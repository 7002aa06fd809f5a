-- ===== src/Security/Examples.antt =====
-- A member of the staff calls a route of the organisation.
use eventory.Common.{
  ◌≡◌, refl, Option, none, some, List, [], ◌∷◌, if◌then◌else◌, ◌==◌, nat_eq, includes, Text, codes,
  text_beq, text_eq, trim, split, filter_by,
}
use eventory.Errors.{Code, forbidden, ok, err}
use eventory.Domain.{UserRole, UserStatus, OrganizationMemberRole}
use eventory.Organizations.{Member}
use eventory.Security.Request.{Request, get_request_cookie, cut_at, find_cookie}
use eventory.Security.Guards.{Account, AccessTokenPayload, csrf_guard, has_session_cookie}
use eventory.Security.Origin.{
  Url, get_cors_origins, starts_with, parse_all, is_trusted_origin, parse_serialized_origin,
}
use eventory.Seating.Checks.{unique}

abbrev account : Account
account = record {
  id = codes "ann";
  role = UserRole.organizer;
  status = UserStatus.active;
  email = codes "ann@x";
  display_name = codes "Ann";
}

abbrev organization : Text
organization = codes "11111111-1111-4111-8111-111111111111"

abbrev members : List Member
members =
    record {
      organization_id = organization;
      user_id = codes "ann";
      role = OrganizationMemberRole.staff;
    }
    ∷ []

abbrev request : Request
request = record {
  method = codes "POST";
  header = λ name. if name == codes "origin" then some (codes "https://shop.example") else none;
  cookies = none;
  raw_cookies = some (codes "theme=dark; eventory_access=token");
}

abbrev verify : Text → Option AccessTokenPayload
verify token =
    if token == codes "token"
    then some record { sub = codes "ann"; token_type = codes "access" }
    else none

abbrev decode : Text → Option Text
decode s = some s

abbrev roles : List OrganizationMemberRole
roles = OrganizationMemberRole.owner ∷ OrganizationMemberRole.staff ∷ []

-- A URL reader that takes a text without a path for an origin.
abbrev parse_url : Text → Option Url
parse_url s = some record {
  protocol = codes "https:";
  origin = s;
  username = [];
  password = [];
  pathname = codes "/";
  search = [];
  hash = [];
}

origins :
    get_cors_origins parse_url (codes "https://shop.example, https://www.example")
    ≡ some (codes "https://shop.example" ∷ codes "https://www.example" ∷ [])
unfolding get_cors_origins filter_by split trim parse_all text_beq unique
origins = refl

same_site : csrf_guard parse_url decode (codes "https://shop.example" ∷ []) request ≡ ok tt
unfolding csrf_guard includes text_beq has_session_cookie get_request_cookie find_cookie split
    cut_at trim is_trusted_origin parse_serialized_origin starts_with
same_site = refl

cross_site :
    csrf_guard parse_url decode (codes "https://www.example" ∷ []) request
    ≡ err (forbidden Code.csrf_origin_denied)
unfolding csrf_guard includes text_beq has_session_cookie get_request_cookie find_cookie split
    cut_at trim is_trusted_origin parse_serialized_origin starts_with
cross_site = refl
