-- ===== src/CheckIn/Examples.antt =====
-- Scans of a ticket.
use eventory.Common.{
  ◌+◌, ◌≤◌, ◌≡◌, refl, none, List, [], ◌∷◌, nat_eq, codes, text_beq, text_eq, find_by, update_where,
  count_by,
}
use eventory.Domain.{TicketStatus}
use eventory.CheckIn.Service.{Ticket, CheckInDb, claim, checked_in_state, is_check_in_of}
use eventory.CheckIn.Once.{
  Scan, admissions, admissions-once, scanned, is_audit_of, admissions-recorded,
}

abbrev ticket : Ticket
ticket = record {
  id = codes "t1";
  public_code = codes "TICKET-0001";
  event_session_id = codes "s1";
  qr_nonce = codes "nonce";
  status = TicketStatus.issued;
  checked_in_at = none;
}

abbrev db : CheckInDb
db = record { tickets = ticket ∷ []; session_events = []; ticket_check_ins = []; audit_logs = [] }

abbrev scans : List Scan
scans =
    record { now = 1; scanner_user_id = codes "u1"; ticket = ticket }
    ∷ (record { now = 2; scanner_user_id = codes "u2"; ticket = ticket } ∷ [])

-- Two gates that have both read the ticket as issued: one lets its holder in.
one_admission : admissions (codes "t1") scans db ≡ 1
unfolding admissions claim checked_in_state count_by update_where text_beq find_by
one_admission = refl

admissions-once_example : admissions (codes "t1") scans db ≤ 1
admissions-once_example = admissions-once (codes "t1") scans db

admissions-recorded_example :
    (count_by (is_check_in_of (codes "t1")) (scanned scans db).ticket_check_ins
      ≡ admissions (codes "t1") scans db
        + count_by (is_check_in_of (codes "t1")) db.ticket_check_ins)
    × (count_by (is_audit_of (codes "t1")) (scanned scans db).audit_logs
        ≡ admissions (codes "t1") scans db + count_by (is_audit_of (codes "t1")) db.audit_logs)
admissions-recorded_example = admissions-recorded (codes "t1") scans db
