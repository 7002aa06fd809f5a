-- ===== src/Outbox/Examples.antt =====
-- A dispatch of a notification, between the writes of another worker.
use eventory.Common.{ℕ, Option, none, some, [], ◌∷◌, nat_eq, Text, codes, text_eq}
use eventory.Domain.{OutboxStatus}
use eventory.Outbox.Service.{OutboxEvent, OutboxDb, Addressee, Message, dedupe_key, mark_processing}

abbrev event : Text → OutboxEvent
event id = record {
  id = id;
  topic = codes "booking.confirmed";
  booking_id = some (codes "b1");
  status = OutboxStatus.pending;
  attempts = 0;
  created_at = 1;
  updated_at = 1;
  next_attempt_at = 1;
  processed_at = none;
  last_error = none;
}

abbrev addressee : Addressee
addressee = record { booking_id = codes "b1"; public_code = codes "EVT-1"; email = codes "a@b" }

abbrev db : OutboxDb
db = record {
  events = event (codes "e1") ∷ (event (codes "e2") ∷ []);
  deliveries = [];
  bookings = addressee ∷ [];
  mails = [];
}

abbrev key : Text
key = dedupe_key (codes "booking.confirmed") (codes "b1")

-- Another worker marks the delivery as being processed ahead of each access.
abbrev other_worker : ℕ → OutboxDb → OutboxDb
other_worker _ tables = mark_processing key tables

abbrev online : Message → Option Text
online _ = none
