-- ===== src/Domain.antt =====
-- The enumerations of apps/api/prisma/schema.prisma that the services branch on, with the tests
-- `status === X` that they make.
use eventory.Common.{Bool, true, false}

pub data EventStatus : Type 0 where
  draft published sales_open sales_closed ongoing completed cancelled : EventStatus

pub data SeatAllocationStatus : Type 0 where
  available blocked sold : SeatAllocationStatus

pub data BookingStatus : Type 0 where
  pending confirmed payment_failed expired cancelled refunded : BookingStatus

pub data PaymentStatus : Type 0 where
  pending processing succeeded failed expired refunded requires_reconciliation : PaymentStatus

pub data PaymentEventStatus : Type 0 where
  received processed ignored : PaymentEventStatus

pub data ReconciliationStatus : Type 0 where
  open_case resolved : ReconciliationStatus

pub data TicketStatus : Type 0 where
  issued checked_in void refunded : TicketStatus

pub data UserRole : Type 0 where
  admin organizer attendee : UserRole

pub data UserStatus : Type 0 where
  active suspended : UserStatus

pub data OrganizationMemberRole : Type 0 where
  owner admin staff : OrganizationMemberRole

abbrev pub is_sales_open : EventStatus → Bool
is_sales_open EventStatus.sales_open = true
is_sales_open _ = false

abbrev pub is_available : SeatAllocationStatus → Bool
is_available SeatAllocationStatus.available = true
is_available _ = false

abbrev pub is_sold : SeatAllocationStatus → Bool
is_sold SeatAllocationStatus.sold = true
is_sold _ = false

abbrev pub is_pending : BookingStatus → Bool
is_pending BookingStatus.pending = true
is_pending _ = false

abbrev pub is_confirmed : BookingStatus → Bool
is_confirmed BookingStatus.confirmed = true
is_confirmed _ = false

abbrev pub is_payment_pending : PaymentStatus → Bool
is_payment_pending PaymentStatus.pending = true
is_payment_pending _ = false

abbrev pub is_payment_processing : PaymentStatus → Bool
is_payment_processing PaymentStatus.processing = true
is_payment_processing _ = false

abbrev pub is_payment_succeeded : PaymentStatus → Bool
is_payment_succeeded PaymentStatus.succeeded = true
is_payment_succeeded _ = false

abbrev pub needs_reconciliation : PaymentStatus → Bool
needs_reconciliation PaymentStatus.requires_reconciliation = true
needs_reconciliation _ = false

abbrev pub is_received : PaymentEventStatus → Bool
is_received PaymentEventStatus.received = true
is_received _ = false

abbrev pub is_admin : UserRole → Bool
is_admin UserRole.admin = true
is_admin _ = false

abbrev pub is_active : UserStatus → Bool
is_active UserStatus.active = true
is_active _ = false

pub data OutboxStatus : Type 0 where
  pending processing processed failed dead : OutboxStatus

pub data NotificationStatus : Type 0 where
  pending processing sent failed dead : NotificationStatus
