-- ===== src/Security/Origin.antt =====
-- apps/api/src/common/security/origin-policy.ts, with `getCorsOrigins` of
-- packages/config/src/environment.ts. `parse_url` is `new URL`, which throws where it gives nothing.
use eventory.Common.{
  Bool, true, false, ◌&&◌, ◌||◌, not, Option, none, some, List, [], ◌∷◌, map, nat_beq,
  if◌then◌else◌, ◌==◌, nat_eq, is_some, includes, Text, codes, text_eq, is_empty, trim, split,
  filter_by,
}
use eventory.Errors.{Code, Failure, forbidden, Result, throw_if}
use eventory.Seating.Checks.{unique}
use eventory.Security.Request.{Request, given}

pub record Url : Type 0 where
  pub protocol : Text
  pub origin : Text
  pub username : Text
  pub password : Text
  pub pathname : Text
  pub search : Text
  pub hash : Text

-- The parts that a serialized origin does not have.
abbrev pub is_bare : Url → Bool
is_bare url =
    is_empty url.username
    && (is_empty url.password
        && (url.pathname == codes "/" && (is_empty url.search && is_empty url.hash)))

abbrev pub is_http_protocol : Text → Bool
is_http_protocol protocol = protocol == codes "http:" || protocol == codes "https:"

-- `s.startsWith(prefix)`
unfoldable pub starts_with : Text → Text → Bool
starts_with [] s = true
starts_with (p ∷ prefix) [] = false
starts_with (p ∷ prefix) (c ∷ s) = nat_beq p c && starts_with prefix s

abbrev pub is_http_origin : Text → Bool
is_http_origin origin =
    starts_with (codes "http://") origin || starts_with (codes "https://") origin

module _ (parse_url : Text → Option Url) where
  -- `parseCorsOrigin`; nothing stands for the error that it throws.
  abbrev pub parse_cors_origin : Text → Option Text
  parse_cors_origin value = elim (parse_url value) [
    | none ↦ none
    | some url ↦ if is_http_protocol url.protocol && is_bare url then some url.origin else none
  ]

  unfoldable pub parse_all : List Text → Option (List Text)
  parse_all [] = some []
  parse_all (value ∷ rest) = elim (parse_cors_origin value) [
    | none ↦ none
    | some origin ↦ elim (parse_all rest) [ none ↦ none | some origins ↦ some (origin ∷ origins) ]
  ]

  -- `getCorsOrigins` and `createTrustedOrigins`
  unfoldable pub get_cors_origins : Text → Option (List Text)
  get_cors_origins value =
      let configured = filter_by (λ s. not (is_empty s)) (map trim (split b',' value)) in
      if is_empty_list configured
      then none
      else elim (parse_all configured) [ none ↦ none | some origins ↦ some (unique origins) ]
    where
      is_empty_list : List Text → Bool
      is_empty_list [] = true
      is_empty_list (_ ∷ _) = false

  unfoldable pub parse_serialized_origin : Text → Option Text
  parse_serialized_origin value = elim (parse_url value) [
    | none ↦ none
    | some url ↦ if is_http_origin url.origin && is_bare url then some url.origin else none
  ]

  unfoldable pub is_trusted_origin : Option Text → List Text → Bool
  is_trusted_origin value allowed = elim (given value) [
    | none ↦ false
    | some v ↦ elim (given (parse_serialized_origin v)) [
      | none ↦ false
      | some origin ↦ includes allowed origin
    ]
  ]

  unfoldable pub is_trusted_referer : Text → List Text → Bool
  is_trusted_referer value allowed = elim (parse_url value) [
    | none ↦ false
    | some url ↦ is_http_origin url.origin && includes allowed url.origin
  ]

  abbrev pub session_origin_denied : Failure
  session_origin_denied = forbidden Code.session_origin_denied

  -- `request.header(TRUSTED_SERVICE_CLIENT_HEADER) === TRUSTED_SERVICE_CLIENT_VALUE`
  abbrev pub is_service_client : Request → Bool
  is_service_client request = elim (request.header (codes "x-eventory-client")) [
    | none ↦ false
    | some value ↦ value == codes "server"
  ]

  unfoldable pub assert_trusted_session_issuer : Request → List Text → Result (Unit {0})
  assert_trusted_session_issuer request allowed = elim (request.header (codes "origin")) [
    | some origin ↦ throw_if (not (is_trusted_origin (some origin) allowed)) session_origin_denied
    | none ↦ elim (request.header (codes "referer")) [
      | some referer ↦ throw_if (not (is_trusted_referer referer allowed)) session_origin_denied
      | none ↦
          throw_if
            (is_some (request.header (codes "sec-fetch-site")) || not (is_service_client request))
            session_origin_denied
    ]
  ]
