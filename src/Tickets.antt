-- ===== src/Tickets.antt =====
-- apps/api/src/modules/tickets: the QR payload of a ticket and the tickets a user sees.
pub mod Qr
pub mod RoundTrip
pub mod Signed
pub mod Keys
pub mod Service
pub mod Listing
pub mod Scan
mod Examples
