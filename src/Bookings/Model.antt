-- ===== src/Bookings/Model.antt =====
-- The rows of apps/api/prisma/schema.prisma that bookings.service.ts reads and writes, and the
-- database as its tables. Identifiers are texts, amounts are in minor units, and times are
-- milliseconds. Columns that the service neither reads nor writes are left out.
use eventory.Common.{
  ℕ, Bool, Option, none, some, List, ◌∷◌, ◌==◌, nat_eq, get_or, Text, text_eq, find_by,
  update_where,
}
use eventory.Domain.{
  BookingStatus, PaymentStatus, PaymentEventStatus, ReconciliationStatus, SeatAllocationStatus,
  TicketStatus,
}

pub record BookingItem : Type 0 where
  pub id : Text
  pub seat_allocation_id : Text
  pub seat_id : Text
  pub ticket_type_id : Option Text
  pub ticket_type_name : Text
  pub seat_code : Option Text
  pub price_minor : ℕ
  pub currency : Text

pub record Booking : Type 0 where
  pub id : Text
  pub public_code : Text
  pub user_id : Text
  pub event_session_id : Text
  pub hold_id : Text
  pub status : BookingStatus
  pub currency : Text
  pub subtotal_minor : ℕ
  pub fee_minor : ℕ
  pub total_minor : ℕ
  pub expires_at : ℕ
  pub confirmed_at : Option ℕ
  pub items : List BookingItem

pub record Payment : Type 0 where
  pub id : Text
  pub booking_id : Text
  pub provider_reference : Option Text
  pub provider_idempotency_key : Text
  pub provider_attempt_id : Option Text
  pub provider_attempted_at : Option ℕ
  pub provider_last_error : Option Text
  pub status : PaymentStatus
  pub amount_minor : ℕ
  pub currency : Text
  pub client_secret : Option Text
  pub expires_at : Option ℕ
  pub reconciliation_required_at : Option ℕ

-- `PaymentWebhookType`
pub data WebhookType : Type 0 where
  payment_succeeded payment_failed payment_expired : WebhookType

-- `status` is what the column `status` says of the processing of the event.
pub record PaymentEvent : Type 0 where
  pub id : Text
  pub payment_id : Text
  pub provider_event_id : Text
  pub event_type : WebhookType
  pub status : PaymentEventStatus
  pub processed_at : Option ℕ

pub data Reason : Type 0 where
  late_payment_after_hold_expiry payment_after_terminal_booking : Reason
  payment_captured_but_fulfillment_failed provider_response_after_booking_terminal : Reason
  provider_error_after_booking_terminal : Reason

pub record Reconciliation : Type 0 where
  pub payment_id : Text
  pub provider_event_id : Text
  pub reason : Reason
  pub status : ReconciliationStatus

pub record SeatAllocation : Type 0 where
  pub id : Text
  pub event_session_id : Text
  pub seat_id : Text
  pub status : SeatAllocationStatus

pub record TicketType : Type 0 where
  pub id : Text
  pub capacity : ℕ
  pub sold_quantity : ℕ

pub record Ticket : Type 0 where
  pub booking_id : Text
  pub booking_item_id : Text
  pub user_id : Text
  pub event_session_id : Text
  pub public_code : Text
  pub qr_nonce : Text
  pub qr_key_version : ℕ
  pub status : TicketStatus

pub data Topic : Type 0 where
  booking_created booking_confirmed booking_payment_failed : Topic

pub record OutboxMessage : Type 0 where
  pub topic : Topic
  pub booking_id : Text
  pub public_code : Text

pub data AuditAction : Type 0 where
  booking_expired payment_webhook_accepted payment_webhook_ignored : AuditAction
  payment_reconciliation_required booking_was_created : AuditAction

-- An audit row, by its action and its resource; its metadata is not modelled.
pub record AuditEntry : Type 0 where
  pub action : AuditAction
  pub resource_id : Text

-- A row of `payment_webhook_inbox`: an event whose payment was not known when it came.
pub record InboxEntry : Type 0 where
  pub provider_event_id : Text
  pub event_type : WebhookType
  pub reference : Text
  pub amount_minor : ℕ
  pub currency : Text
  pub status : PaymentEventStatus

pub record Db : Type 0 where
  pub bookings : List Booking
  pub payments : List Payment
  pub payment_events : List PaymentEvent
  pub reconciliations : List Reconciliation
  pub payment_webhook_inbox : List InboxEntry
  pub seat_allocations : List SeatAllocation
  pub ticket_types : List TicketType
  pub tickets : List Ticket
  pub outbox_events : List OutboxMessage
  pub audit_logs : List AuditEntry

-- `where: { id }`
abbrev pub is_booking : Text → Booking → Bool
is_booking id b = b.id == id

abbrev pub is_payment : Text → Payment → Bool
is_payment id p = p.id == id

abbrev pub is_event : Text → PaymentEvent → Bool
is_event id e = e.id == id

-- The `payment` that is loaded with a booking.
abbrev pub is_payment_of : Text → Payment → Bool
is_payment_of booking_id p = p.booking_id == booking_id

unfoldable pub payment_of : Text → Db → Option Payment
payment_of booking_id db = find_by (is_payment_of booking_id) db.payments

-- The updates of one row, as `tx.booking.update`, `tx.payment.update` and the like make them.
abbrev pub set_booking_status : Text → BookingStatus → Db → Db
set_booking_status id status db = record db {
  bookings = update_where (is_booking id) (λ b. record b { status = status }) db.bookings;
}

abbrev pub update_payment : Text → (Payment → Payment) → Db → Db
update_payment id f db = record db { payments = update_where (is_payment id) f db.payments }

unfoldable pub audit : AuditAction → Text → Db → Db
audit action resource_id db = record db {
  audit_logs = record { action = action; resource_id = resource_id } ∷ db.audit_logs;
}

-- `enqueue`
unfoldable pub enqueue : Booking → Topic → Db → Db
enqueue booking topic db = record db {
  outbox_events =
      record { topic = topic; booking_id = booking.id; public_code = booking.public_code }
      ∷ db.outbox_events;
}

-- `markPaymentEvent`
unfoldable pub mark_payment_event : Text → PaymentEventStatus → ℕ → Db → Db
mark_payment_event event_id status now db = record db {
  payment_events =
      update_where (is_event event_id) (λ e. record e { status = status; processed_at = some now })
        db.payment_events;
}

-- `paymentReconciliation.upsert`: a case of the payment that is there keeps its row, with the
-- reason that the call's `update` gives, if it gives one.
abbrev pub is_case_of : Text → Reconciliation → Bool
is_case_of payment_id c = c.payment_id == payment_id

unfoldable pub upsert_reconciliation : Reconciliation → Option Reason → Db → Db
upsert_reconciliation case new_reason db =
    elim (find_by (is_case_of case.payment_id) db.reconciliations) [
      | none ↦ record db { reconciliations = case ∷ db.reconciliations }
      | some _ ↦ record db {
        reconciliations =
            update_where (is_case_of case.payment_id)
              (λ c. record c { reason = get_or new_reason c.reason }) db.reconciliations;
      }
    ]
