-- ===== src/CheckIn/Service.antt =====
-- apps/api/src/modules/check-in/check-in.service.ts: `check`, in the two parts that another scan may
-- come between: what it reads of the ticket, and the transaction that claims it. `verify` and
-- `binding` are `verifyPayload` and `sessionBinding` of tickets/ticket-qr.service.ts.
use eventory.Common.{
  ℕ, Bool, true, false, ◌&&◌, not, Option, none, some, List, ◌∷◌, if◌then◌else◌, ◌==◌, nat_eq, any,
  Text, text_eq, is_empty, find_by, update_where, count_by,
}
use eventory.Errors.{
  Code, Failure, conflict, bad_request, unique_violation, internal, Result, ok, err, ◌>>=◌, ◌>>◌,
  throw_if, or_throw,
}
use eventory.Domain.{EventStatus, TicketStatus}
use eventory.Organizations.{Directory, assert_access, managers}

pub data CheckInResult : Type 0 where
  valid already_checked_in ticket_void ticket_refunded event_cancelled : CheckInResult

pub record Ticket : Type 0 where
  pub id : Text
  pub public_code : Text
  pub event_session_id : Text
  pub qr_nonce : Text
  pub status : TicketStatus
  pub checked_in_at : Option ℕ

-- The event that `include: { eventSession: { include: { event } } }` reads.
pub record SessionEvent : Type 0 where
  pub event_session_id : Text
  pub organization_id : Text
  pub status : EventStatus

pub record TicketCheckIn : Type 0 where
  pub ticket_id : Text
  pub event_session_id : Text
  pub scanner_user_id : Text
  pub checked_in_at : ℕ

pub record CheckInDb : Type 0 where
  pub tickets : List Ticket
  pub session_events : List SessionEvent
  pub ticket_check_ins : List TicketCheckIn
  -- the resources of the `TICKET_CHECKED_IN` records, with their actors
  pub audit_logs : List (Text × Text)

pub record Verified : Type 0 where
  pub public_code : Text
  pub session_binding : Text
  pub qr_nonce : Text

pub record CheckInResponse : Type 0 where
  pub result : CheckInResult
  pub ticket_code : Text
  pub ticket_status : TicketStatus
  pub event_session_id : Text
  pub checked_in_at : Option ℕ

pub record CheckInInput : Type 0 where
  pub qr_payload : Text
  pub event_session_id : Option Text

abbrev pub is_issued : TicketStatus → Bool
is_issued TicketStatus.issued = true
is_issued _ = false

abbrev pub is_cancelled : EventStatus → Bool
is_cancelled EventStatus.cancelled = true
is_cancelled _ = false

abbrev pub is_ticket : Text → Ticket → Bool
is_ticket id t = t.id == id

abbrev pub has_code : Text → Ticket → Bool
has_code public_code t = t.public_code == public_code

-- `where: { id, status: ISSUED }`
abbrev pub is_open : Text → Ticket → Bool
is_open id t = is_issued t.status && t.id == id

abbrev pub is_event_of : Text → SessionEvent → Bool
is_event_of event_session_id e = e.event_session_id == event_session_id

abbrev pub is_check_in_of : Text → TicketCheckIn → Bool
is_check_in_of ticket_id c = c.ticket_id == ticket_id

-- `invalidQr`
abbrev pub invalid_qr : Failure
invalid_qr = bad_request Code.invalid_qr_signature

abbrev pub to_response : CheckInResult → Ticket → CheckInResponse
to_response result t = record {
  result = result;
  ticket_code = t.public_code;
  ticket_status = t.status;
  event_session_id = t.event_session_id;
  checked_in_at = t.checked_in_at;
}

abbrev pub result_for_status : TicketStatus → CheckInResult
result_for_status TicketStatus.checked_in = CheckInResult.already_checked_in
result_for_status TicketStatus.refunded = CheckInResult.ticket_refunded
result_for_status _ = CheckInResult.ticket_void

abbrev pub to_response_for_status : Ticket → CheckInResponse
to_response_for_status t = to_response (result_for_status t.status) t

abbrev pub matches_qr : (Text → Text) → Ticket → Verified → Bool
matches_qr binding t v = t.qr_nonce == v.qr_nonce && binding t.event_session_id == v.session_binding

-- What the first part ends in: an answer, or a ticket to claim.
pub data Lookup : Type 0 where
  answer : CheckInResponse → Lookup
  claimable : Ticket → Lookup

unfoldable pub look_up :
    (Text → Option Verified)
    → (Text → Text)
    → Directory
    → Text
    → CheckInInput
    → CheckInDb
    → Result Lookup
look_up verify binding directory scanner_user_id input db = do
  verified ← or_throw (verify input.qr_payload) invalid_qr
  ticket ← or_throw (find_by (has_code verified.public_code) db.tickets) invalid_qr
  throw_if (not (matches_qr binding ticket verified)) invalid_qr
  event ← or_throw (find_by (is_event_of ticket.event_session_id) db.session_events) internal
  assert_access directory event.organization_id scanner_user_id managers
  throw_if
      (elim input.event_session_id [
        | none ↦ false
        | some id ↦ not (is_empty id) && not (id == ticket.event_session_id)
      ])
      (conflict Code.wrong_event)
  if is_cancelled event.status
      then ok (answer (to_response CheckInResult.event_cancelled ticket))
      else if not (is_issued ticket.status)
      then ok (answer (to_response_for_status ticket))
      else ok (claimable ticket)

-- The row of the ticket as it stands, for a claim that came too late; `failure` if it is gone.
abbrev pub current_response : Text → Failure → CheckInDb → Result CheckInResponse
current_response id failure db = elim (find_by (is_ticket id) db.tickets) [
  | none ↦ err failure
  | some t ↦ ok (to_response_for_status t)
]

-- The writes of the transaction.
unfoldable pub checked_in_state : ℕ → Text → Ticket → CheckInDb → CheckInDb
checked_in_state now scanner_user_id ticket db = record db {
  tickets =
      update_where (is_open ticket.id)
        (λ t. record t { status = TicketStatus.checked_in; checked_in_at = some now }) db.tickets;
  ticket_check_ins =
      record {
        ticket_id = ticket.id;
        event_session_id = ticket.event_session_id;
        scanner_user_id = scanner_user_id;
        checked_in_at = now;
      }
      ∷ db.ticket_check_ins;
  audit_logs = (ticket.id, scanner_user_id) ∷ db.audit_logs;
}

-- The transaction and the `catch` around it. The index on `ticketId` refuses a second check-in row,
-- which rolls the update back.
unfoldable pub claim : ℕ → Text → Ticket → CheckInDb → Result CheckInResponse × CheckInDb
claim now scanner_user_id ticket db =
    if count_by (is_open ticket.id) db.tickets == 0
    then (current_response ticket.id invalid_qr db, db)
    else if any (is_check_in_of ticket.id) db.ticket_check_ins
    then (current_response ticket.id unique_violation db, db)
    else (
      ok (record {
        result = CheckInResult.valid;
        ticket_code = ticket.public_code;
        ticket_status = TicketStatus.checked_in;
        event_session_id = ticket.event_session_id;
        checked_in_at = some now;
      }),
      checked_in_state now scanner_user_id ticket db,
    )

-- `check` with nothing in between.
unfoldable pub check :
    (Text → Option Verified)
    → (Text → Text)
    → Directory
    → ℕ
    → Text
    → CheckInInput
    → CheckInDb
    → Result CheckInResponse × CheckInDb
check verify binding directory now scanner_user_id input db =
    elim (look_up verify binding directory scanner_user_id input db) [
      | err e ↦ (err e, db)
      | ok (answer response) ↦ (ok response, db)
      | ok (claimable ticket) ↦ claim now scanner_user_id ticket db
    ]
