-- ===== src/Tickets/Examples.antt =====
-- A ticket, its payload and its scan, with digests and a number reader that behave as documented.
use eventory.Common.{
  ℕ, zero, suc, ◌+◌, ◌-◌, ◌*◌, ◌%◌, ◌≤◌, ◌≡◌, refl, ap, inl, inr, Bool, true, false, ◌&&◌, Option,
  none, some, [], ◌∷◌, ◌++◌, arith, nat_beq, if◌then◌else◌, nat_beq_iff, nat_eq, Bool-cases, length,
  All, All-of_all, includes, Text, codes, text_beq, text_eq, trim, split, join, decimal, is_digit,
  All-append, find_by, order_by, insert_by, filter_by,
}
use eventory.Errors.{ok}
use eventory.Domain.{TicketStatus, EventStatus, UserRole}
use eventory.Organizations.{Directory, assert_access}
use eventory.CheckIn.Service.{CheckInResult, CheckInDb, Ticket, SessionEvent, check}
use eventory.Tickets.Qr.{
  normalize_public_code, normalize_nonce, sign, VerifiedTicketQr, SigningKeys, Builtins,
  is_base64url, session_binding, create_payload, verify_payload, compare_signature, has_key,
  verify_parts,
}
use eventory.Tickets.RoundTrip.{IsDocumented, verify_payload-create_payload}
use eventory.Tickets.Signed.{IsSigned, verify_payload-IsSigned}
use eventory.Tickets.Service.{TicketWithDetails, TicketView, list_for_user, to_views, to_view}
use eventory.Tickets.Keys.{
  signing_keys, IsKey, Answers, signing_keys-Answers, read_entries, read_entry, cut,
}
use eventory.Tickets.Scan.{verify_for_check_in, material, check-create_payload}

-- 43 characters, the last two of which tell an even length of the input from an odd one
unfoldable digest : Text → Text
digest s = codes "0123456789abcdefghijklmnopqrstuvwxyzABCDE" ++ (b'A' + length s % 2) ∷ b'Z' ∷ []

-- A reader of decimal digits.
unfoldable read_digits : ℕ → Text → Option ℕ
read_digits n [] = some n
read_digits n (c ∷ s) =
    let rest = read_digits (n * 10 + (c - b'0')) s in if is_digit c then rest else none

abbrev js : Builtins
js = record {
  sha256 = digest;
  hmac = λ secret body. digest (secret ++ body);
  number = read_digits 0;
  to_upper_case = λ s. s;
}

tail_base64url : (n : ℕ) → n ≤ 1 → is_base64url (b'A' + n) ≡ true
tail_base64url n h = ground arith

digest_base64url : (s : Text) → All (λ c. is_base64url c ≡ true) (digest s)
unfolding digest
digest_base64url s =
    All-append (λ c. is_base64url c ≡ true) (codes "0123456789abcdefghijklmnopqrstuvwxyzABCDE")
      ((b'A' + length s % 2) ∷ b'Z' ∷ [])
      (All-of_all is_base64url (codes "0123456789abcdefghijklmnopqrstuvwxyzABCDE") refl)
      (tail_base64url (length s % 2) (omega arith), (refl, tt))

length-digest : (s : Text) → length (digest s) ≡ 43
unfolding digest
length-digest s = refl

abbrev reads_as : ℕ → Option ℕ → Bool
reads_as n none = false
reads_as n (some m) = nat_beq m n

-- Every number up to `k` reads back.
read_back : ℕ → Bool
read_back zero = reads_as 0 (read_digits 0 (decimal 0))
read_back (suc k) = reads_as (suc k) (read_digits 0 (decimal (suc k))) && read_back k

reads_as_eq : (n : ℕ) (o : Option ℕ) → reads_as n o ≡ true → o ≡ some n
reads_as_eq n none h = absurd (ground arith)
reads_as_eq n (some m) h = ap some ((nat_beq_iff m n).0 h)

read_below : (k n : ℕ) → read_back k ≡ true → n ≤ k → read_digits 0 (decimal n) ≡ some n
unfolding read_back
read_below zero zero h le = reads_as_eq 0 _ h
read_below zero (suc n) h le = absurd (omega arith)
read_below (suc k) n h le = elim (Bool-cases (nat_beq n (suc k))) [
  | inl same ↦ let e = (nat_beq_iff n (suc k)).0 same in rw e (reads_as_eq (suc k) _ (ground arith))
  | inr other ↦ read_below k n (ground arith) (ground arith)
]

hundred : read_back 100 ≡ true
unfolding read_back read_digits decimal
hundred = refl

js-IsDocumented : IsDocumented js
js-IsDocumented = record {
  sha256_base64url = digest_base64url;
  sha256_length = length-digest;
  hmac_base64url = λ secret body. digest_base64url (secret ++ body);
  hmac_length = λ secret body. length-digest (secret ++ body);
  number-decimal = λ n h. read_below 100 n hundred h;
}

abbrev secret : Text
secret = codes "a secret of the deployment"

abbrev keys : SigningKeys
keys = (7, secret) ∷ []

abbrev ticket : Ticket
ticket = record {
  id = codes "t1";
  public_code = codes "TKT-0123456789ABCDEF";
  event_session_id = codes "s1";
  qr_nonce = codes "abcdefghijklmnopqrstuvwxyz012345";
  status = TicketStatus.issued;
  checked_in_at = none;
}

abbrev payload : Text
payload =
    codes
      "evtqr.1.7.TKT-0123456789ABCDEF.0123456789abcdefghijklmnopqrstuv.abcdefghijklmnopqrstuvwxyz012345."
    ++ codes "0123456789abcdefghijklmnopqrstuvwxyzABCDEAZ"

abbrev fields : VerifiedTicketQr
fields = record {
  key_version = 7;
  public_code = codes "TKT-0123456789ABCDEF";
  session_binding = codes "0123456789abcdefghijklmnopqrstuv";
  qr_nonce = codes "abcdefghijklmnopqrstuvwxyz012345";
}

made : create_payload js keys 7 (material 7 ticket) ≡ ok payload
unfolding create_payload normalize_public_code trim normalize_nonce sign find_by join decimal digest
made = refl

read : verify_payload js keys payload ≡ ok (some fields)
unfolding verify_payload verify_parts split trim text_beq decimal read_digits compare_signature
    has_key find_by sign digest join
read = refl

verify_payload-create_payload_example : verify_payload js keys payload ≡ ok (some fields)
unfolding trim digest
verify_payload-create_payload_example =
    verify_payload-create_payload js js-IsDocumented keys 7 (material 7 ticket) payload
      (omega arith) (omega arith) made

verify_payload-IsSigned_example : IsSigned js keys fields (split b'.' (trim payload))
verify_payload-IsSigned_example = verify_payload-IsSigned js keys payload fields read

rotated :
    signing_keys js 7 secret (some (codes "3:an older secret of the deployment, 2024"))
    ≡ some ((3, codes "an older secret of the deployment, 2024") ∷ keys)
unfolding signing_keys trim read_entries split read_entry cut read_digits includes
rotated = refl

signing_keys-Answers_example :
    All (IsKey 7 secret) ((3, codes "an older secret of the deployment, 2024") ∷ keys)
    × Answers
        (verify_payload js ((3, codes "an older secret of the deployment, 2024") ∷ keys) payload)
signing_keys-Answers_example =
    signing_keys-Answers js 7 secret (some (codes "3:an older secret of the deployment, 2024"))
      ((3, codes "an older secret of the deployment, 2024") ∷ keys) payload refl rotated

abbrev event : SessionEvent
event = record {
  event_session_id = codes "s1";
  organization_id = codes "o1";
  status = EventStatus.sales_open;
}

abbrev directory : Directory
directory = record {
  users = record { id = codes "staff"; role = UserRole.admin } ∷ [];
  members = [];
}

abbrev db : CheckInDb
db = record {
  tickets = ticket ∷ [];
  session_events = event ∷ [];
  ticket_check_ins = [];
  audit_logs = [];
}

plain_code : trim ticket.public_code ≡ ticket.public_code
unfolding trim
plain_code = refl

plain_nonce : trim ticket.qr_nonce ≡ ticket.qr_nonce
unfolding trim
plain_nonce = refl

check-create_payload_example :
    (check
      (verify_for_check_in js keys)
      (session_binding js)
      directory
      5
      (codes "staff")
      (record { qr_payload = payload; event_session_id = none })
      db).0
    ≡ ok record {
      result = CheckInResult.valid;
      ticket_code = ticket.public_code;
      ticket_status = TicketStatus.checked_in;
      event_session_id = ticket.event_session_id;
      checked_in_at = some 5;
    }
unfolding find_by assert_access text_beq
check-create_payload_example =
    check-create_payload js js-IsDocumented keys 7 7 5 directory (codes "staff") payload none db
      ticket event (omega arith) (omega arith) plain_code plain_nonce made refl refl refl refl refl
      refl refl

abbrev stored : ℕ → TicketWithDetails
stored at = record {
  id = codes "t1";
  user_id = codes "ann";
  public_code = codes "TKT-0123456789ABCDEF";
  status = TicketStatus.issued;
  event_session_id = codes "s1";
  qr_nonce = codes "abcdefghijklmnopqrstuvwxyz012345";
  qr_key_version = 7;
  seat_code = none;
  ticket_type_name = codes "Standard";
  price_minor = 100;
  currency = codes "VND";
  issued_at = at;
  checked_in_at = none;
}

abbrev shown : ℕ → TicketView
shown at = record {
  id = codes "t1";
  public_code = codes "TKT-0123456789ABCDEF";
  status = TicketStatus.issued;
  event_session_id = codes "s1";
  seat_code = none;
  ticket_type_name = codes "Standard";
  price_minor = 100;
  currency = codes "VND";
  issued_at = at;
  checked_in_at = none;
  qr_payload = payload;
}

listed :
    list_for_user js keys 7 (λ a b. false) (codes "ann") (stored 3 ∷ stored 8 ∷ [])
    ≡ ok (shown 8 ∷ shown 3 ∷ [])
unfolding list_for_user to_views order_by filter_by text_beq insert_by to_view create_payload
    normalize_public_code trim normalize_nonce sign find_by join decimal digest
listed = refl
