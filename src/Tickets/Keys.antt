-- ===== src/Tickets/Keys.antt =====
-- ticket-qr.service.ts: the constructor, which reads the signing keys of the configuration, and that
-- `verifyPayload` throws for no payload under keys it has read.
use eventory.Common.{
  ℕ, ◌≤◌, ◌≡◌, refl, sym, subst, ◌⊎◌, inl, inr, Bool, true, false, ◌&&◌, not, Option, none, some,
  List, [], ◌∷◌, arith, leb, nat_beq, if◌then◌else◌, ◌==◌, nat_eq, Bool-cases, Option-cases, get_or,
  some_eq, length, All, All-mono, includes, Text, text_eq, is_empty, trim, split, decimal, find_by,
  find_by-All,
}
use eventory.Errors.{Result, ok}
use eventory.Tickets.Qr.{
  VerifiedTicketQr, SigningKeys, is_key_of, Builtins, sign, has_key, payload_body,
  compare_signature, verify_parts, verify_payload, is_public_code, is_session_binding, is_nonce,
  is_signature, qr_prefix, qr_version,
}

-- What is before the first `:` and after it, if there is one (`indexOf`, `slice`).
unfoldable pub cut : Text → Option (Text × Text)
cut [] = none
cut (c ∷ s) =
    let rest = cut s in
    if nat_beq c b':'
    then some ([], s)
    else elim rest [ none ↦ none | some (before, after) ↦ some (c ∷ before, after) ]

abbrev pub is_fit : List ℕ → ℕ → Text → Bool
is_fit seen version secret =
    leb 1 version && (leb version 100 && (leb 32 (length secret) && not (includes seen version)))

-- One entry `version:secret`; `seen` are the versions of the entries before it.
unfoldable pub read_entry : Builtins → List ℕ → Text → Option (ℕ × Text)
read_entry js seen entry = elim (cut entry) [
  | none ↦ none
  | some (before, after) ↦ elim (js.number before) [
    | none ↦ none
    | some version ↦
        if not (is_empty before) && is_fit seen version (trim after)
        then some (version, trim after)
        else none
  ]
]

-- The loop over the entries; `none` is the error that it throws.
unfoldable pub read_entries : Builtins → List ℕ → SigningKeys → List Text → Option SigningKeys
read_entries js seen keys [] = some keys
read_entries js seen keys (entry ∷ entries) = elim (read_entry js seen entry) [
  | none ↦ none
  | some (version, secret) ↦ read_entries js (version ∷ seen) ((version, secret) ∷ keys) entries
]

-- The constructor, with the settings QR_KEY_VERSION, QR_SIGNING_SECRET and QR_SIGNING_KEYS.
unfoldable pub signing_keys : Builtins → ℕ → Text → Option Text → Option SigningKeys
signing_keys js active_key_version secret configured =
    let first : SigningKeys = (active_key_version, secret) ∷ [] in
    let text = trim (get_or configured []) in
    if is_empty text then some first else read_entries js [] first (split b';' text)

-- A key is the active one, or one of a version from 1 to 100 with a secret of at least 32 units.
abbrev pub IsKey : ℕ → Text → ℕ × Text → Type 0
IsKey active secret (version, s) =
    ((version ≡ active) × (s ≡ secret)) ⊎ ((1 ≤ version) × (version ≤ 100) × (32 ≤ length s))

entry-IsKey :
    (js : Builtins) (active : ℕ) (secret : Text) (seen : List ℕ) (entry : Text) (key : ℕ × Text)
    → read_entry js seen entry ≡ some key
    → IsKey active secret key
unfolding read_entry
entry-IsKey js active secret seen entry key h = elim (Option-cases (cut entry)) [
  | inl missing ↦ absurd (cc (rw (read_entry, missing) at h))
  | inr ((before, after), found) ↦ elim (Option-cases (js.number before)) [
    | inl unread ↦ absurd (cc (rw (read_entry, found, unread) at h))
    | inr (version, number) ↦
        elim (Bool-cases (not (is_empty before) && is_fit seen version (trim after))) [
          | inr bad ↦ absurd (cc (rw (read_entry, found, number, bad) at h))
          | inl good ↦
              let same : (version, trim after) ≡ key =
                some_eq (rw (read_entry, found, number, good) at h) in
              subst (IsKey active secret) same (inr (ground arith, ground arith, ground arith))
        ]
  ]
]

entries-IsKey :
    (js : Builtins) (active : ℕ) (secret : Text) (seen : List ℕ) (keys : SigningKeys)
    (entries : List Text) (result : SigningKeys)
    → All (IsKey active secret) keys
    → read_entries js seen keys entries ≡ some result
    → All (IsKey active secret) result
unfolding read_entries
entries-IsKey js active secret seen keys [] result good h =
    subst (All (IsKey active secret)) (some_eq h) good
entries-IsKey js active secret seen keys (entry ∷ entries) result good h =
    elim (Option-cases (read_entry js seen entry)) [
      | inl refused ↦ absurd (cc (rw (read_entries, refused) at h))
      | inr ((version, s), read) ↦
          entries-IsKey js active secret (version ∷ seen) ((version, s) ∷ keys) entries result
            (entry-IsKey js active secret seen entry (version, s) read, good)
            (rw (read_entries, read) at h)
    ]

signing_keys-IsKey :
    (js : Builtins) (active : ℕ) (secret : Text) (configured : Option Text) (keys : SigningKeys)
    → signing_keys js active secret configured ≡ some keys
    → All (IsKey active secret) keys
unfolding signing_keys
signing_keys-IsKey js active secret configured keys h =
    let first : All (IsKey active secret) ((active, secret) ∷ []) = (inl (refl, refl), tt) in
    elim (Bool-cases (is_empty (trim (get_or configured [])))) [
      | inl empty ↦
          subst (All (IsKey active secret)) (some_eq (rw (signing_keys, empty) at h)) first
      | inr full ↦ entries-IsKey js active secret [] _ _ keys first (rw (signing_keys, full) at h)
    ]

IsKey-full :
    (active : ℕ) (secret : Text) (key : ℕ × Text)
    → is_empty secret ≡ false
    → IsKey active secret key
    → is_empty key.1 ≡ false
IsKey-full active secret (v, []) h (inl (_, same)) = subst (λ s. is_empty s ≡ false) (sym same) h
IsKey-full active secret (v, []) h (inr (_, _, long)) = absurd (omega arith)
IsKey-full active secret (v, c ∷ s) h k = refl

sign-ok :
    (js : Builtins) (keys : SigningKeys) (body : Text) (version : ℕ)
    → All (λ key. is_empty key.1 ≡ false) keys
    → has_key js keys version ≡ true
    → (signature : Text) × (sign js keys body version ≡ ok signature)
unfolding sign has_key
sign-ok js keys body version full there = elim (Option-cases (find_by (is_key_of version) keys)) [
  | inl missing ↦ absurd (cc (rw (has_key, missing) at there))
  | inr (key, found) ↦
      let nonempty = find_by-All (λ k. is_empty k.1 ≡ false) (is_key_of version) keys full found in
      (js.hmac key.1 body, rw (sign, found, nonempty))
]

-- A step that does not throw.
abbrev pub Answers {ℓ} : {A : Type ℓ} → Result A → Type ℓ
Answers {A} r = (a : A) × (r ≡ ok a)

if-Answers {ℓ} :
    {A : Type ℓ} (test : Bool) (x y : Result A)
    → Answers x
    → Answers y
    → Answers (if test then x else y)
if-Answers true x y h k = h
if-Answers false x y h k = k

compare-Answers :
    (js : Builtins) (keys : SigningKeys) (fields : VerifiedTicketQr) (signature : Text)
    → All (λ key. is_empty key.1 ≡ false) keys
    → Answers (compare_signature js keys fields signature)
unfolding compare_signature
compare-Answers js keys fields signature full =
    elim (Bool-cases (has_key js keys fields.key_version)) [
      | inr gone ↦ (none, rw (compare_signature, gone))
      | inl there ↦
          let body =
            payload_body js fields.key_version fields.public_code fields.session_binding
              fields.qr_nonce in
          let (expected, made) = sign-ok js keys body fields.key_version full there in
          (if expected == signature then some fields else none, rw (compare_signature, there, made))
    ]

parts-Answers :
    (js : Builtins) (keys : SigningKeys) (parts : List Text)
    → All (λ key. is_empty key.1 ≡ false) keys
    → Answers (verify_parts js keys parts)
unfolding verify_parts
parts-Answers js keys (p ∷ v ∷ kv ∷ pc ∷ sb ∷ qn ∷ sg ∷ []) full =
    elim (Bool-cases (p == qr_prefix && v == decimal qr_version)) [
      | inr other ↦ (none, rw (verify_parts, other))
      | inl prefixed ↦ elim (Option-cases (js.number kv)) [
        | inl unread ↦ (none, rw (verify_parts, prefixed, unread))
        | inr (n, number) ↦
            let (a, h) =
              if-Answers
                (leb 1 n
                  && leb n 100
                  && (is_public_code pc
                      && (is_session_binding sb && (is_nonce qn && is_signature sg))))
                _ (ok none)
                (compare-Answers js keys
                  (record {
                    key_version = n;
                    public_code = pc;
                    session_binding = sb;
                    qr_nonce = qn;
                  })
                  sg full)
                (none, refl) in
            (a, rw (verify_parts, prefixed, number) h)
      ]
    ]
parts-Answers js keys _ full = (none, refl)

-- Under the keys that the constructor reads from a configuration whose own secret is not empty, every
-- key but the active one has a version from 1 to 100 and a secret of at least 32 units, and
-- `verifyPayload` throws for no text, however it is formed: it answers with fields or with nothing.
pub signing_keys-Answers :
    (js : Builtins) (active : ℕ) (secret : Text) (configured : Option Text) (keys : SigningKeys)
    (raw_payload : Text)
    → is_empty secret ≡ false
    → signing_keys js active secret configured ≡ some keys
    → All (IsKey active secret) keys × Answers (verify_payload js keys raw_payload)
unfolding verify_payload
signing_keys-Answers js active secret configured keys raw_payload given h =
    let good = signing_keys-IsKey js active secret configured keys h in
    (
      good,
      parts-Answers js keys (split b'.' (trim raw_payload))
          (All-mono _ _ keys (λ key. IsKey-full active secret key given) good),
    )
