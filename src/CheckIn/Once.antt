-- ===== src/CheckIn/Once.antt =====
-- No ticket is let in twice, however the scans interleave.
use eventory.Common.{
  ℕ, ◌+◌, ◌≤◌, ◌≡◌, refl, sym, subst, ◌≢◌, ◌⊎◌, inl, inr, Bool, true, false, ◌&&◌, some, List, [],
  ◌∷◌, arith, if◌then◌else◌, ◌==◌, nat_eq, Bool-cases, any, Text, text_beq_iff, text_eq,
  update_where, count_by,
}
use eventory.Errors.{Failure, Result, ok, err}
use eventory.Domain.{TicketStatus}
use eventory.CheckIn.Service.{
  CheckInResult, Ticket, CheckInDb, CheckInResponse, is_open, is_check_in_of, current_response,
  checked_in_state, claim,
}

-- A scan that reaches its transaction, with the ticket as it was read.
pub record Scan : Type 0 where
  pub now : ℕ
  pub scanner_user_id : Text
  pub ticket : Ticket

abbrev is_valid_result : CheckInResult → Bool
is_valid_result CheckInResult.valid = true
is_valid_result _ = false

abbrev pub is_valid : Result CheckInResponse → Bool
is_valid (ok r) = is_valid_result r.result
is_valid (err _) = false

-- The transactions of the scans in the order in which the database runs them, and how many of them
-- let the holder of the ticket `id` in.
unfoldable pub admissions : Text → List Scan → CheckInDb → ℕ
admissions id [] db = 0
admissions id (s ∷ scans) db =
    let (response, after) = claim s.now s.scanner_user_id s.ticket db in
    (if s.ticket.id == id && is_valid response then 1 else 0) + admissions id scans after

current-invalid :
    (id : Text) (f : Failure) (db : CheckInDb) → is_valid (current_response id f db) ≡ false
current-invalid id f db = ground arith

-- How a claim ends.
data Claimed (now : ℕ) (scanner : Text) (ticket : Ticket) (db : CheckInDb) : Type 0 where
  refused :
      is_valid (claim now scanner ticket db).0 ≡ false
      → (claim now scanner ticket db).1 ≡ db
      → Claimed now scanner ticket db
  admitted :
      is_valid (claim now scanner ticket db).0 ≡ true
      → count_by (is_open ticket.id) db.tickets ≢ 0
      → any (is_check_in_of ticket.id) db.ticket_check_ins ≡ false
      → (claim now scanner ticket db).1 ≡ checked_in_state now scanner ticket db
      → Claimed now scanner ticket db

-- A claim either refuses and leaves the database, or admits a ticket that is issued and of which no
-- check-in is on record.
claim-Claimed :
    (now : ℕ) (scanner : Text) (ticket : Ticket) (db : CheckInDb) → Claimed now scanner ticket db
unfolding claim
claim-Claimed now scanner ticket db =
    elim (Bool-cases (count_by (is_open ticket.id) db.tickets == 0)) [
      | inl gone ↦ refused (rw gone (current-invalid ticket.id _ db)) (rw gone)
      | inr there ↦ elim (Bool-cases (any (is_check_in_of ticket.id) db.ticket_check_ins)) [
        | inl taken ↦
            refused (rw (there, taken) (current-invalid ticket.id _ db)) (rw (there, taken))
        | inr fresh ↦ admitted (rw (there, fresh)) (λ h. ground arith) fresh (rw (there, fresh))
      ]
    ]

-- A claim leaves no more issued tickets with an identifier than there were, and none with its own.
closed-update :
    (id x : Text) (now : ℕ) (ts : List Ticket)
    → (count_by (is_open id) ts ≡ 0) ⊎ (x ≡ id)
    → count_by (is_open id) (
        update_where
          (is_open x)
          (λ t. record t { status = TicketStatus.checked_in; checked_in_at = some now })
          ts)
      ≡ 0
unfolding count_by update_where
closed-update id x now [] h = refl
closed-update id x now (t ∷ ts) (inl h) =
    ground (arith, closed-update id x now ts (inl (omega (arith, h))))
closed-update id x now (t ∷ ts) (inr e) = elim (Bool-cases (is_open x t)) [
  | inl open_row ↦ rw open_row (omega (arith, closed-update id x now ts (inr e)))
  | inr closed_row ↦
      let not_id : is_open id t ≡ false = subst (λ i. is_open i t ≡ false) e closed_row in
      rw (closed_row, not_id) (omega (arith, closed-update id x now ts (inr e)))
]

closed-none :
    (id : Text) (scans : List Scan) (db : CheckInDb)
    → count_by (is_open id) db.tickets ≡ 0
    → admissions id scans db ≡ 0
unfolding admissions checked_in_state
closed-none id [] db h = refl
closed-none id (s ∷ scans) db h = elim (claim-Claimed s.now s.scanner_user_id s.ticket db) [
  | refused denied same ↦ rw (denied, same) (ground (arith, closed-none id scans db h))
  | admitted let_in there fresh same ↦ elim (Bool-cases (s.ticket.id == id)) [
    | inl this ↦
        let e = (text_beq_iff s.ticket.id id).0 this in
        absurd (there (subst (λ i. count_by (is_open i) db.tickets ≡ 0) (sym e) h))
    | inr other ↦
        rw (other, same)
          (omega (
            arith,
            closed-none id scans (checked_in_state s.now s.scanner_user_id s.ticket db)
                (closed-update id s.ticket.id s.now db.tickets (inl h)),
          ))
  ]
]

-- Whatever scans reach their transaction, in whatever order and with however old a reading of the
-- ticket, at most one of them lets the holder of a given ticket in.
pub admissions-once : (id : Text) (scans : List Scan) (db : CheckInDb) → admissions id scans db ≤ 1
unfolding admissions checked_in_state
admissions-once id [] db = omega arith
admissions-once id (s ∷ scans) db = elim (claim-Claimed s.now s.scanner_user_id s.ticket db) [
  | refused denied same ↦ rw (denied, same) (ground (arith, admissions-once id scans db))
  | admitted let_in there fresh same ↦ elim (Bool-cases (s.ticket.id == id)) [
    | inr other ↦
        rw (other, same)
          (omega (
            arith,
            admissions-once id scans (checked_in_state s.now s.scanner_user_id s.ticket db),
          ))
    | inl this ↦
        let e = (text_beq_iff s.ticket.id id).0 this in
        let after = checked_in_state s.now s.scanner_user_id s.ticket db in
        rw (this, let_in, same)
          (omega (
            arith,
            closed-none id scans after (closed-update id s.ticket.id s.now db.tickets (inr e)),
          ))
  ]
]

-- The database after the transactions of the scans.
unfoldable pub scanned : List Scan → CheckInDb → CheckInDb
scanned [] db = db
scanned (s ∷ scans) db = scanned scans (claim s.now s.scanner_user_id s.ticket db).1

-- The ticket of an audit record.
abbrev pub is_audit_of : Text → Text × Text → Bool
is_audit_of ticket_id log = log.0 == ticket_id

-- Who is let in is on record: however scans follow each other, the check-ins of a ticket and the audit
-- records of them grow by as many as the scans that let its holder in.
pub admissions-recorded :
    (id : Text) (scans : List Scan) (db : CheckInDb)
    → (count_by (is_check_in_of id) (scanned scans db).ticket_check_ins
        ≡ admissions id scans db + count_by (is_check_in_of id) db.ticket_check_ins)
      × (count_by (is_audit_of id) (scanned scans db).audit_logs
          ≡ admissions id scans db + count_by (is_audit_of id) db.audit_logs)
unfolding admissions scanned checked_in_state count_by
admissions-recorded id [] db = (omega arith, omega arith)
admissions-recorded id (s ∷ scans) db = elim (claim-Claimed s.now s.scanner_user_id s.ticket db) [
  | refused denied same ↦
      let rest = admissions-recorded id scans db in
      rw (scanned, admissions, denied, same) (ground (arith, rest.0), ground (arith, rest.1))
  | admitted let_in there fresh same ↦
      let rest =
        admissions-recorded id scans (checked_in_state s.now s.scanner_user_id s.ticket db) in
      elim (Bool-cases (s.ticket.id == id)) [
        | inl this ↦
            let (rows, logs) = rw this at rest in
            rw (scanned, admissions, let_in, same, this) (omega (arith, rows), omega (arith, logs))
        | inr other ↦
            let (rows, logs) = rw other at rest in
            rw (scanned, admissions, let_in, same, other) (omega (arith, rows), omega (arith, logs))
      ]
]
