-- ===== src/Tickets/RoundTrip.antt =====
-- A payload that was made is read back (`createPayload`, then `verifyPayload`), and a payload that
-- is accepted was signed.
use eventory.Common.{
  ℕ, ◌≤◌, ◌≡◌, refl, sym, subst, inl, inr, Bool, true, false, ◌&&◌, some, List, [], ◌∷◌, ◌++◌,
  arith, leb, nat_beq, nat_eq, Bool-cases, length, take, all, All, length-take, All-of_all,
  all_of_All, All-mono, Text, text_eq, text_beq_refl, trim, IsPrintable, trim-All, split, join,
  split-join, decimal, All-decimal, is_digit, All-append, All-take, has_length,
}
use mathlib.Core.List.{append_assoc}
use eventory.Errors.{ok, ok_eq, >>=-eq-ok}
use eventory.Tickets.Signed.{sign_key}
use eventory.Tickets.Qr.{
  Builtins, is_code_unit, is_base64url, sign, is_signature, is_session_binding, has_key,
  session_binding, SigningKeys, normalize_nonce, verify_payload, normalize_public_code,
  is_public_code, verify_parts, is_nonce, compare_signature, VerifiedTicketQr, payload_body,
  qr_prefix, qr_version, create_payload, TicketQrMaterial, assert_supported_key_version,
}

-- What node:crypto and the language document: a digest of 32 bytes has 43 characters in base64url,
-- and a version in decimal is read back.
pub record IsDocumented (js : Builtins) : Type 0 where
  pub sha256_base64url : (s : Text) → All (λ c. is_base64url c ≡ true) (js.sha256 s)
  pub sha256_length : (s : Text) → length (js.sha256 s) ≡ 43
  pub hmac_base64url : (secret body : Text) → All (λ c. is_base64url c ≡ true) (js.hmac secret body)
  pub hmac_length : (secret body : Text) → length (js.hmac secret body) ≡ 43
  pub number-decimal : (n : ℕ) → n ≤ 100 → js.number (decimal n) ≡ some n

-- A part of a payload: printable, and without a dot.
abbrev IsPart : ℕ → Type 0
IsPart c = IsPrintable c × (nat_beq c b'.' ≡ false)

digit-IsPart : (c : ℕ) → is_digit c ≡ true → IsPart c
digit-IsPart c h = ground arith

code_unit-IsPart : (c : ℕ) → is_code_unit c ≡ true → IsPart c
code_unit-IsPart c h = ground arith

base64url-IsPart : (c : ℕ) → is_base64url c ≡ true → IsPart c
base64url-IsPart c h = ground arith

All-join :
    (w : Text) (ws : List Text) → All (All IsPart) (w ∷ ws) → All IsPrintable (join b'.' (w ∷ ws))
unfolding join
All-join w [] h = All-mono _ _ w (λ c p. p.0) h.0
All-join w (v ∷ ws) h =
    All-append IsPrintable w _ (All-mono _ _ w (λ c p. p.0) h.0)
      ((omega arith, omega arith), All-join v ws h.1)

-- The parts of a text that joins them.
parts_of_join :
    (w : Text) (ws : List Text)
    → All (All IsPart) (w ∷ ws)
    → split b'.' (trim (join b'.' (w ∷ ws))) ≡ w ∷ ws
parts_of_join w ws h = rw (
  trim-All _ (All-join w ws h),
  split-join b'.' w ws (All-mono _ _ (w ∷ ws) (λ v. All-mono _ _ v (λ c p. p.1)) h),
)

join-snoc :
    (a b c d e f g : Text)
    → join b'.' (a ∷ b ∷ c ∷ d ∷ e ∷ f ∷ []) ++ b'.' ∷ g
      ≡ join b'.' (a ∷ b ∷ c ∷ d ∷ e ∷ f ∷ g ∷ [])
unfolding join
join-snoc a b c d e f g = simp append_assoc

signed :
    (js : Builtins) (keys : SigningKeys) (body : Text) (version : ℕ) (signature : Text)
    → sign js keys body version ≡ ok signature
    → (has_key js keys version ≡ true) × ((secret : Text) × (signature ≡ js.hmac secret body))
unfolding has_key
signed js keys body version signature h =
    let (key, found, full, made) = sign_key js keys body version signature h in
    (rw (has_key, found), (key.1, sym made))

module _ (js : Builtins) (laws : IsDocumented js) where
  session_binding_ok : (s : Text) → is_session_binding (session_binding js s) ≡ true
  session_binding_ok s =
      let size : length (take 32 (js.sha256 s)) ≡ 32 =
        omega (arith, length-take 32 (js.sha256 s), laws.sha256_length s) in
      rw (size, all_of_All is_base64url _ (All-take _ 32 _ (laws.sha256_base64url s)))

  signature_ok : (secret body : Text) → is_signature (js.hmac secret body) ≡ true
  signature_ok secret body =
      rw (all_of_All is_base64url _ (laws.hmac_base64url secret body), laws.hmac_length secret body)

normalized_code :
    (js : Builtins) (value code : Text)
    → normalize_public_code js value ≡ ok code
    → (code ≡ js.to_upper_case (trim value)) × (is_public_code code ≡ true)
unfolding normalize_public_code
normalized_code js value code h =
    let good = is_public_code (js.to_upper_case (trim value)) in
    elim (Bool-cases good) [
      | inl t ↦ let e = ok_eq (rw t at h) in (sym e, subst (λ c. is_public_code c ≡ true) e t)
      | inr f ↦ absurd (cc (rw f at h))
    ]

normalized_nonce :
    (js : Builtins) (value nonce : Text)
    → normalize_nonce js value ≡ ok nonce
    → (nonce ≡ trim value) × (is_nonce nonce ≡ true)
unfolding normalize_nonce
normalized_nonce js value nonce h = elim (Bool-cases (is_nonce (trim value))) [
  | inl t ↦ let e = ok_eq (rw t at h) in (sym e, subst (λ c. is_nonce c ≡ true) e t)
  | inr f ↦ absurd (cc (rw f at h))
]

-- What a regular expression of one class accepts.
parts_of_class :
    (test : ℕ → Bool) (first last : ℕ) (s : Text)
    → ((c : ℕ) → test c ≡ true → IsPart c)
    → has_length first last s && all test s ≡ true
    → All IsPart s
parts_of_class test first last s part h = All-mono _ _ s part (All-of_all test s (ground arith))

prefix_parts : All IsPart qr_prefix
prefix_parts = parts_of_class is_base64url 5 5 qr_prefix base64url-IsPart refl

decimal_parts : (n : ℕ) → All IsPart (decimal n)
decimal_parts n = All-mono _ _ _ digit-IsPart (All-decimal n)

leb_in_range : (n : ℕ) → 1 ≤ n → n ≤ 100 → leb 1 n && leb n 100 ≡ true
leb_in_range n lo hi = ground arith

-- The parts of a signed body, checked and signed again.
verify_signed :
    (js : Builtins) (laws : IsDocumented js) (keys : SigningKeys) (fields : VerifiedTicketQr)
    (signature : Text)
    → 1 ≤ fields.key_version
    → fields.key_version ≤ 100
    → is_public_code fields.public_code ≡ true
    → is_session_binding fields.session_binding ≡ true
    → is_nonce fields.qr_nonce ≡ true
    → is_signature signature ≡ true
    → sign js keys
        (payload_body js fields.key_version fields.public_code fields.session_binding
          fields.qr_nonce)
        fields.key_version
      ≡ ok signature
    → has_key js keys fields.key_version ≡ true
    → verify_payload js keys (
        payload_body js fields.key_version fields.public_code fields.session_binding fields.qr_nonce
        ++ b'.' ∷ signature)
      ≡ ok (some fields)
unfolding verify_payload verify_parts compare_signature
verify_signed js laws keys fields signature lo hi pc sb qn sg signed_by there =
    let parts : All (All IsPart) (
        qr_prefix
        ∷ decimal qr_version
        ∷ decimal fields.key_version
        ∷ fields.public_code
        ∷ fields.session_binding
        ∷ fields.qr_nonce
        ∷ signature
        ∷ []) =
      (
        prefix_parts,
        (
          decimal_parts qr_version,
          (
            decimal_parts fields.key_version,
            (
              parts_of_class is_code_unit 8 40 _ code_unit-IsPart pc,
              (
                parts_of_class is_base64url 20 64 _ base64url-IsPart sb,
                (
                  parts_of_class is_base64url 16 80 _ base64url-IsPart qn,
                  (parts_of_class is_base64url 40 64 _ base64url-IsPart sg, tt),
                ),
              ),
            ),
          ),
        ),
      ) in
    rw (
      join-snoc qr_prefix (decimal qr_version) (decimal fields.key_version) fields.public_code
          fields.session_binding fields.qr_nonce signature,
      parts_of_join qr_prefix _ parts,
      laws.number-decimal fields.key_version hi,
      text_beq_refl qr_prefix,
      text_beq_refl (decimal qr_version),
      leb_in_range fields.key_version lo hi,
      pc,
      sb,
      qn,
      sg,
      compare_signature,
      there,
      signed_by,
      text_beq_refl signature,
    )

-- A payload that was made for a ticket is accepted, with the ticket's key version, its public code in
-- upper case without the white space around it, the digest of its session and its nonce, when the
-- key version is one of the 100 that a payload may name.
pub verify_payload-create_payload :
    (js : Builtins) (laws : IsDocumented js) (keys : SigningKeys) (active_key_version : ℕ)
    (material : TicketQrMaterial) (payload : Text)
    → 1 ≤ material.qr_key_version
    → material.qr_key_version ≤ 100
    → create_payload js keys active_key_version material ≡ ok payload
    → verify_payload js keys payload
      ≡ ok (
          some record {
            key_version = material.qr_key_version;
            public_code = js.to_upper_case (trim material.public_code);
            session_binding = session_binding js material.event_session_id;
            qr_nonce = trim material.qr_nonce;
          })
unfolding create_payload
verify_payload-create_payload js laws keys active material payload lo hi h =
    let (_, _, h1) =
      >>=-eq-ok (assert_supported_key_version js keys active material.qr_key_version) _ h in
    let (code, made, h2) = >>=-eq-ok (normalize_public_code js material.public_code) _ h1 in
    let (nonce, kept, h3) = >>=-eq-ok (normalize_nonce js material.qr_nonce) _ h2 in
    let (signature, by, h4) =
      >>=-eq-ok
        (sign js keys
          (payload_body js material.qr_key_version code
            (session_binding js material.event_session_id) nonce)
          material.qr_key_version)
        _ h3 in
    let (there, (secret, is_hmac)) = signed js keys _ _ signature by in
    let (upper, pc) = normalized_code js _ code made in
    let (trimmed, qn) = normalized_nonce js _ nonce kept in
    let sg : is_signature signature ≡ true = rw is_hmac (signature_ok js laws secret _) in
    let fields : VerifiedTicketQr = record {
      key_version = material.qr_key_version;
      public_code = code;
      session_binding = session_binding js material.event_session_id;
      qr_nonce = nonce;
    } in
    let read =
      verify_signed js laws keys fields signature lo hi pc
        (session_binding_ok js laws material.event_session_id) qn sg by there in
    rw (sym upper, sym trimmed, sym (ok_eq h4)) read
