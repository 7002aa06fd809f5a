-- ===== src/Tickets/Scan.antt =====
-- The payload that a user is shown opens the door: tickets.service.ts with check-in.service.ts.
use eventory.Common.{
  ℕ, ◌≤◌, ◌≡◌, inl, inr, true, false, Option, none, some, arith, ◌==◌, nat_eq, Bool-cases,
  Option-cases, get_or, any, Text, text_eq, text_beq_refl, is_empty, trim, find_by, count_by,
  count_by-found,
}
use eventory.Errors.{ok}
use eventory.Domain.{TicketStatus}
use eventory.Organizations.{Directory, assert_access, managers}
use eventory.Tickets.Qr.{
  TicketQrMaterial, SigningKeys, Builtins, session_binding, create_payload, verify_payload,
}
use eventory.Tickets.RoundTrip.{IsDocumented, verify_payload-create_payload}
use eventory.CheckIn.Service.{
  CheckInResult, CheckInDb, Ticket, Verified, CheckInInput, has_code, is_event_of, is_cancelled,
  is_open, is_check_in_of, look_up, claimable, check, claim, SessionEvent, is_issued,
}

-- `this.qr.verifyPayload(input.qrPayload)` in `check`, for keys under which it does not throw.
unfoldable pub verify_for_check_in : Builtins → SigningKeys → Text → Option Verified
verify_for_check_in js keys qr_payload = elim (verify_payload js keys qr_payload) [
  | ok (some fields) ↦ some record {
    public_code = fields.public_code;
    session_binding = fields.session_binding;
    qr_nonce = fields.qr_nonce;
  }
  | _ ↦ none
]

abbrev pub material : ℕ → Ticket → TicketQrMaterial
material version t = record {
  public_code = t.public_code;
  event_session_id = t.event_session_id;
  qr_nonce = t.qr_nonce;
  qr_key_version = version;
}

-- What the scan of a made payload reads.
verify-create_payload :
    (js : Builtins) (laws : IsDocumented js) (keys : SigningKeys) (active version : ℕ) (t : Ticket)
    (payload : Text)
    → 1 ≤ version
    → version ≤ 100
    → js.to_upper_case (trim t.public_code) ≡ t.public_code
    → trim t.qr_nonce ≡ t.qr_nonce
    → create_payload js keys active (material version t) ≡ ok payload
    → verify_for_check_in js keys payload
      ≡ some record {
        public_code = t.public_code;
        session_binding = session_binding js t.event_session_id;
        qr_nonce = t.qr_nonce;
      }
unfolding verify_for_check_in
verify-create_payload js laws keys active version t payload lo hi upper plain h = rw (
  verify_for_check_in,
  verify_payload-create_payload js laws keys active (material version t) payload lo hi h,
  upper,
  plain,
)

-- Where the ticket's row is found by its code.
look_up-claimable :
    (verify : Text → Option Verified) (binding : Text → Text) (directory : Directory)
    (scanner : Text) (input : CheckInInput) (db : CheckInDb) (t : Ticket) (event : SessionEvent)
    → verify input.qr_payload
      ≡ some record {
        public_code = t.public_code;
        session_binding = binding t.event_session_id;
        qr_nonce = t.qr_nonce;
      }
    → find_by (has_code t.public_code) db.tickets ≡ some t
    → find_by (is_event_of t.event_session_id) db.session_events ≡ some event
    → assert_access directory event.organization_id scanner managers ≡ ok tt
    → get_or input.event_session_id t.event_session_id ≡ t.event_session_id
    → is_cancelled event.status ≡ false
    → is_issued t.status ≡ true
    → look_up verify binding directory scanner input db ≡ ok (claimable t)
unfolding look_up
look_up-claimable verify binding directory scanner input db t event read row its allowed session
      going issued =
    elim (Option-cases input.event_session_id) [
      | inl missing ↦ rw (
        look_up,
        read,
        row,
        text_beq_refl t.qr_nonce,
        text_beq_refl (binding t.event_session_id),
        its,
        allowed,
        missing,
        going,
        issued,
      )
      | inr (id, given) ↦
          let same : id ≡ t.event_session_id = rw given at session in
          elim (Bool-cases (is_empty t.event_session_id)) [
            | inl e ↦ rw (
              look_up,
              read,
              row,
              text_beq_refl t.qr_nonce,
              text_beq_refl (binding t.event_session_id),
              its,
              allowed,
              given,
              same,
              text_beq_refl t.event_session_id,
              going,
              issued,
              e,
            )
            | inr e ↦ rw (
              look_up,
              read,
              row,
              text_beq_refl t.qr_nonce,
              text_beq_refl (binding t.event_session_id),
              its,
              allowed,
              given,
              same,
              text_beq_refl t.event_session_id,
              going,
              issued,
              e,
            )
          ]
    ]

claim-valid :
    (now : ℕ) (scanner : Text) (t : Ticket) (db : CheckInDb)
    → 1 ≤ count_by (is_open t.id) db.tickets
    → any (is_check_in_of t.id) db.ticket_check_ins ≡ false
    → (claim now scanner t db).0
      ≡ ok record {
        result = CheckInResult.valid;
        ticket_code = t.public_code;
        ticket_status = TicketStatus.checked_in;
        event_session_id = t.event_session_id;
        checked_in_at = some now;
      }
unfolding claim
claim-valid now scanner t db there fresh =
    elim (Bool-cases (count_by (is_open t.id) db.tickets == 0)) [
      | inl gone ↦ absurd (ground arith)
      | inr open_row ↦ rw (claim, open_row, fresh)
    ]

-- The payload that `createPayload` makes for an issued ticket lets its holder in the first time:
-- `check` answers VALID to a scanner whom the event's organisation lets manage, for no session or the
-- ticket's own, when the event is not cancelled, no check-in of the ticket is on record, the row is
-- found by its code, and code and nonce are stored the way they are printed.
pub check-create_payload :
    (js : Builtins) (laws : IsDocumented js) (keys : SigningKeys) (active version now : ℕ)
    (directory : Directory) (scanner payload : Text) (session : Option Text) (db : CheckInDb)
    (t : Ticket) (event : SessionEvent)
    → 1 ≤ version
    → version ≤ 100
    → js.to_upper_case (trim t.public_code) ≡ t.public_code
    → trim t.qr_nonce ≡ t.qr_nonce
    → create_payload js keys active (material version t) ≡ ok payload
    → find_by (has_code t.public_code) db.tickets ≡ some t
    → find_by (is_event_of t.event_session_id) db.session_events ≡ some event
    → assert_access directory event.organization_id scanner managers ≡ ok tt
    → get_or session t.event_session_id ≡ t.event_session_id
    → is_cancelled event.status ≡ false
    → is_issued t.status ≡ true
    → any (is_check_in_of t.id) db.ticket_check_ins ≡ false
    → (check
        (verify_for_check_in js keys)
        (session_binding js)
        directory
        now
        scanner
        (record { qr_payload = payload; event_session_id = session })
        db).0
      ≡ ok record {
        result = CheckInResult.valid;
        ticket_code = t.public_code;
        ticket_status = TicketStatus.checked_in;
        event_session_id = t.event_session_id;
        checked_in_at = some now;
      }
unfolding check
check-create_payload js laws keys active version now directory scanner payload session db t event lo
      hi upper plain made row its allowed chosen going issued fresh =
    let read = verify-create_payload js laws keys active version t payload lo hi upper plain made in
    let looked =
      look_up-claimable (verify_for_check_in js keys) (session_binding js) directory scanner
        (record { qr_payload = payload; event_session_id = session }) db t event read row its
        allowed chosen going issued in
    let is_there : is_open t.id t ≡ true = rw (issued, text_beq_refl t.id) in
    let there = count_by-found (has_code t.public_code) (is_open t.id) db.tickets row is_there in
    rw (check, looked) (claim-valid now scanner t db there fresh)
