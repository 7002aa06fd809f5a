-- ===== src/Tickets/Qr.antt =====
-- apps/api/src/modules/tickets/ticket-qr.service.ts: `createPayload` and `verifyPayload`. The digests
-- of node:crypto, in base64url, and the built-in functions `Number` and `toUpperCase` are parameters;
-- `number` gives nothing where `Number` gives no natural number, which the code refuses as well.
use eventory.Common.{
  ℕ, Bool, ◌&&◌, ◌||◌, not, Option, none, some, List, [], ◌∷◌, ◌++◌, leb, nat_beq, if◌then◌else◌,
  ◌==◌, nat_eq, is_some, take, all, Text, codes, text_eq, is_empty, trim, split, join, decimal,
  is_digit, has_length, find_by,
}
use eventory.Errors.{Code, Failure, bad_request, Result, ok, err, ◌>>=◌, ◌>>◌, throw_if}

pub record TicketQrMaterial : Type 0 where
  pub public_code : Text
  pub event_session_id : Text
  pub qr_nonce : Text
  pub qr_key_version : ℕ

pub record VerifiedTicketQr : Type 0 where
  pub key_version : ℕ
  pub public_code : Text
  pub session_binding : Text
  pub qr_nonce : Text

-- The signing keys by their version: of two for the same version, the first is the one in use.
abbrev pub SigningKeys : Type 0
SigningKeys = List (ℕ × Text)

abbrev pub is_key_of : ℕ → ℕ × Text → Bool
is_key_of version (v, _) = v == version

pub record Builtins : Type 0 where
  -- `createHash('sha256').update(s).digest('base64url')`
  pub sha256 : Text → Text
  -- `createHmac('sha256', secret).update(body).digest('base64url')`
  pub hmac : Text → Text → Text
  -- `Number(s)`
  pub number : Text → Option ℕ
  pub to_upper_case : Text → Text

abbrev pub qr_prefix : Text
qr_prefix = codes "evtqr"

abbrev pub qr_version : ℕ
qr_version = 1

abbrev dot : ℕ
dot = b'.'

abbrev is_upper : ℕ → Bool
is_upper c = leb b'A' c && leb c b'Z'

-- [A-Z0-9-]
abbrev pub is_code_unit : ℕ → Bool
is_code_unit c = is_upper c || (is_digit c || nat_beq c b'-')

-- [A-Za-z0-9_-]
abbrev pub is_base64url : ℕ → Bool
is_base64url c =
    is_upper c || (leb b'a' c && leb c b'z' || (is_digit c || (nat_beq c b'_' || nat_beq c b'-')))

abbrev pub is_public_code : Text → Bool
is_public_code s = has_length 8 40 s && all is_code_unit s

abbrev pub is_session_binding : Text → Bool
is_session_binding s = has_length 20 64 s && all is_base64url s

abbrev pub is_nonce : Text → Bool
is_nonce s = has_length 16 80 s && all is_base64url s

abbrev pub is_signature : Text → Bool
is_signature s = has_length 40 64 s && all is_base64url s

abbrev pub key_version_unsupported : Failure
key_version_unsupported = bad_request Code.qr_key_version_unsupported

module _ (js : Builtins) where
  abbrev pub session_binding : Text → Text
  session_binding event_session_id = take 32 (js.sha256 event_session_id)

  -- `!secret` refuses an empty secret too.
  unfoldable pub sign : SigningKeys → Text → ℕ → Result Text
  sign keys body key_version = elim (find_by (is_key_of key_version) keys) [
    | none ↦ err key_version_unsupported
    | some (_, secret) ↦
        if is_empty secret then err key_version_unsupported else ok (js.hmac secret body)
  ]

  unfoldable pub has_key : SigningKeys → ℕ → Bool
  has_key keys key_version = is_some (find_by (is_key_of key_version) keys)

  abbrev pub assert_supported_key_version : SigningKeys → ℕ → ℕ → Result (Unit {0})
  assert_supported_key_version keys active_key_version key_version =
      throw_if (not (key_version == active_key_version) && not (has_key keys key_version))
        key_version_unsupported

  unfoldable pub normalize_public_code : Text → Result Text
  normalize_public_code value =
      let public_code = js.to_upper_case (trim value) in
      if is_public_code public_code
      then ok public_code
      else err (bad_request Code.ticket_code_invalid)

  unfoldable pub normalize_nonce : Text → Result Text
  normalize_nonce value =
      let nonce = trim value in
      if is_nonce nonce then ok nonce else err (bad_request Code.qr_nonce_invalid)

  abbrev pub payload_body : ℕ → Text → Text → Text → Text
  payload_body key_version public_code binding nonce =
      join dot
        (qr_prefix ∷ decimal qr_version ∷ decimal key_version ∷ public_code ∷ binding ∷ nonce ∷ [])

  unfoldable pub create_payload : SigningKeys → ℕ → TicketQrMaterial → Result Text
  create_payload keys active_key_version material = do
    let key_version = material.qr_key_version
    assert_supported_key_version keys active_key_version key_version
    public_code ← normalize_public_code material.public_code
    nonce ← normalize_nonce material.qr_nonce
    let body =
        payload_body key_version public_code (session_binding material.event_session_id) nonce
    signature ← sign keys body key_version
    ok (body ++ dot ∷ signature)

  -- What follows the checks on the parts: the signature is made again and compared.
  unfoldable pub compare_signature :
      SigningKeys → VerifiedTicketQr → Text → Result (Option VerifiedTicketQr)
  compare_signature keys fields signature =
      if not (has_key keys fields.key_version) then ok none else do
        expected ←
            sign keys
              (payload_body fields.key_version fields.public_code fields.session_binding
                fields.qr_nonce)
              fields.key_version
        ok (if expected == signature then some fields else none)

  unfoldable pub verify_parts : SigningKeys → List Text → Result (Option VerifiedTicketQr)
  verify_parts keys
        (prefix ∷ version ∷ key_version ∷ public_code ∷ binding ∷ nonce ∷ signature ∷ []) =
      if not (prefix == qr_prefix && version == decimal qr_version)
      then ok none
      else elim (js.number key_version) [
        | none ↦ ok none
        | some n ↦
            if leb 1 n
              && leb n 100
              && (is_public_code public_code
                  && (is_session_binding binding && (is_nonce nonce && is_signature signature)))
            then compare_signature keys
                record {
                  key_version = n;
                  public_code = public_code;
                  session_binding = binding;
                  qr_nonce = nonce;
                }
                signature
            else ok none
      ]
  verify_parts keys _ = ok none

  unfoldable pub verify_payload : SigningKeys → Text → Result (Option VerifiedTicketQr)
  verify_payload keys raw_payload = verify_parts keys (split dot (trim raw_payload))
