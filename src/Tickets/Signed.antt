-- ===== src/Tickets/Signed.antt =====
-- `verifyPayload` accepts nothing that was not signed with a key of its version.
use eventory.Common.{
  ℕ, ◌≡◌, ap, ◌∙◌, subst, inl, inr, true, false, ◌&&◌, none, some, List, [], ◌∷◌, arith, leb,
  if◌then◌else◌, ◌==◌, nat_eq, Bool-cases, Option-cases, some_eq, Text, text_beq_iff, text_eq,
  is_empty, trim, split, decimal, find_by,
}
use eventory.Errors.{ok, ok_eq, >>=-eq-ok}
use eventory.Tickets.Qr.{
  VerifiedTicketQr, SigningKeys, is_key_of, Builtins, qr_prefix, qr_version, is_public_code,
  is_session_binding, is_nonce, is_signature, sign, has_key, payload_body, compare_signature,
  verify_parts, verify_payload,
}

-- The parts are the fields', followed by their signature under a key of their version.
abbrev pub IsSigned : Builtins → SigningKeys → VerifiedTicketQr → List Text → Type 0
IsSigned js keys fields parts =
    (version : Text) × (key : ℕ × Text) × (js.number version ≡ some fields.key_version)
    × (find_by (is_key_of fields.key_version) keys ≡ some key)
    × (is_empty key.1 ≡ false)
    × (parts
        ≡ qr_prefix
          ∷ decimal qr_version
          ∷ version
          ∷ fields.public_code
          ∷ fields.session_binding
          ∷ fields.qr_nonce
          ∷ js.hmac key.1 (
              payload_body js fields.key_version fields.public_code fields.session_binding
                fields.qr_nonce)
          ∷ [])

-- What `sign` returns is made with a key that is there.
pub sign_key :
    (js : Builtins) (keys : SigningKeys) (body : Text) (version : ℕ) (signature : Text)
    → sign js keys body version ≡ ok signature
    → (key : ℕ × Text) × (find_by (is_key_of version) keys ≡ some key)
      × (is_empty key.1 ≡ false)
      × (js.hmac key.1 body ≡ signature)
unfolding sign
sign_key js keys body version signature h = elim (Option-cases (find_by (is_key_of version) keys)) [
  | inl missing ↦ absurd (cc (rw (sign, missing) at h))
  | inr (key, found) ↦ elim (Bool-cases (is_empty key.1)) [
    | inl empty ↦ absurd (cc (rw (sign, found, empty) at h))
    | inr full ↦ (key, found, full, ok_eq (rw (sign, found, full) at h))
  ]
]

compare-signed :
    (js : Builtins) (keys : SigningKeys) (given fields : VerifiedTicketQr) (signature : Text)
    → compare_signature js keys given signature ≡ ok (some fields)
    → (given ≡ fields)
      × (sign js keys
            (payload_body js given.key_version given.public_code given.session_binding
              given.qr_nonce)
            given.key_version
          ≡ ok signature)
unfolding compare_signature
compare-signed js keys given fields signature h =
    elim (Bool-cases (has_key js keys given.key_version)) [
      | inr gone ↦ absurd (cc (rw (compare_signature, gone) at h))
      | inl there ↦
          let body =
            payload_body js given.key_version given.public_code given.session_binding
              given.qr_nonce in
          let (expected, made, h1) =
            >>=-eq-ok (sign js keys body given.key_version) _
              (rw (compare_signature, there) at h) in
          elim (Bool-cases (expected == signature)) [
            | inl same ↦ (
              some_eq (ok_eq (rw same at h1)),
              made ∙ ap ok ((text_beq_iff expected signature).0 same),
            )
            | inr differs ↦ absurd (cc (rw differs at h1))
          ]
    ]

both :
    (p v : Text)
    → p == qr_prefix && v == decimal qr_version ≡ true
    → (p ≡ qr_prefix) × (v ≡ decimal qr_version)
both p v h = (
  (text_beq_iff p qr_prefix).0 (ground arith),
  (text_beq_iff v (decimal qr_version)).0 (ground arith),
)

accepted :
    (js : Builtins) (keys : SigningKeys) (fields : VerifiedTicketQr) (p v kv pc sb qn sg : Text)
    (n : ℕ)
    → p == qr_prefix && v == decimal qr_version ≡ true
    → js.number kv ≡ some n
    → (if leb 1 n
          && leb n 100
          && (is_public_code pc && (is_session_binding sb && (is_nonce qn && is_signature sg)))
        then compare_signature js keys
            record { key_version = n; public_code = pc; session_binding = sb; qr_nonce = qn }
            sg
        else ok none)
      ≡ ok (some fields)
    → IsSigned js keys fields (p ∷ v ∷ kv ∷ pc ∷ sb ∷ qn ∷ sg ∷ [])
accepted js keys fields p v kv pc sb qn sg n prefixed number h =
    elim (Bool-cases (
      leb 1 n
      && leb n 100
      && (is_public_code pc && (is_session_binding sb && (is_nonce qn && is_signature sg))))) [
        | inr bad ↦ absurd (cc (rw bad at h))
        | inl good ↦
            let given : VerifiedTicketQr = record {
              key_version = n;
              public_code = pc;
              session_binding = sb;
              qr_nonce = qn;
            } in
            let (same, by) = compare-signed js keys given fields sg (rw good at h) in
            let (key, found, full, made) = sign_key js keys _ n sg by in
            let (is_prefix, is_version) = both p v prefixed in
            subst (λ f. IsSigned js keys f (p ∷ v ∷ kv ∷ pc ∷ sb ∷ qn ∷ sg ∷ [])) same
              (kv, key, number, found, full, rw (is_prefix, is_version, made))
      ]

verify_parts-IsSigned :
    (js : Builtins) (keys : SigningKeys) (fields : VerifiedTicketQr) (parts : List Text)
    → verify_parts js keys parts ≡ ok (some fields)
    → IsSigned js keys fields parts
unfolding verify_parts
verify_parts-IsSigned js keys fields (p ∷ v ∷ kv ∷ pc ∷ sb ∷ qn ∷ sg ∷ []) h =
    elim (Bool-cases (p == qr_prefix && v == decimal qr_version)) [
      | inr other ↦ absurd (cc (rw (verify_parts, other) at h))
      | inl prefixed ↦ elim (Option-cases (js.number kv)) [
        | inl unread ↦ absurd (cc (rw (verify_parts, prefixed, unread) at h))
        | inr (n, number) ↦
            accepted js keys fields p v kv pc sb qn sg n prefixed number
              (rw (verify_parts, prefixed, number) at h)
      ]
    ]
verify_parts-IsSigned js keys fields _ h = absurd (cc h)

-- What is accepted has the seven parts of a payload: the prefix, the version, a text that reads as
-- the key version, the fields, and as its signature the digest of the body of those fields, with the
-- key version in decimal, under the key of that version, which is not empty.
pub verify_payload-IsSigned :
    (js : Builtins) (keys : SigningKeys) (raw_payload : Text) (fields : VerifiedTicketQr)
    → verify_payload js keys raw_payload ≡ ok (some fields)
    → IsSigned js keys fields (split b'.' (trim raw_payload))
unfolding verify_payload
verify_payload-IsSigned js keys raw_payload fields h =
    verify_parts-IsSigned js keys fields (split b'.' (trim raw_payload)) h
