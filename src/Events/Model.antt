-- ===== src/Events/Model.antt =====
-- The rows that apps/api/src/modules/events/events.service.ts reads and writes.
use eventory.Common.{ℕ, Bool, Option, List, ◌==◌, nat_eq, Text, text_eq, filter_by}
use eventory.Domain.{EventStatus}

pub record Venue : Type 0 where
  pub id : Text
  pub organization_id : Text

pub record Event : Type 0 where
  pub id : Text
  pub organization_id : Text
  pub venue_id : Option Text
  pub name : Text
  pub slug : Text
  pub description : Option Text
  pub timezone : Text
  pub start_at : ℕ
  pub end_at : ℕ
  pub status : EventStatus
  pub published_at : Option ℕ

pub record Session : Type 0 where
  pub id : Text
  pub event_id : Text
  pub name : Text
  pub start_at : ℕ
  pub end_at : ℕ
  pub sales_start_at : ℕ
  pub sales_end_at : ℕ

pub record TicketType : Type 0 where
  pub id : Text
  pub event_id : Text
  pub name : Text
  pub description : Option Text
  pub price_minor : ℕ
  pub currency : Text
  pub capacity : ℕ

pub record EventDb : Type 0 where
  pub venues : List Venue
  pub events : List Event
  pub sessions : List Session
  pub ticket_types : List TicketType

-- What `toEventView` returns.
pub record EventView : Type 0 where
  pub id : Text
  pub organization_id : Text
  pub name : Text
  pub slug : Text
  pub description : Option Text
  pub timezone : Text
  pub start_at : ℕ
  pub end_at : ℕ
  pub status : EventStatus

abbrev pub to_event_view : Event → EventView
to_event_view e = record {
  id = e.id;
  organization_id = e.organization_id;
  name = e.name;
  slug = e.slug;
  description = e.description;
  timezone = e.timezone;
  start_at = e.start_at;
  end_at = e.end_at;
  status = e.status;
}

abbrev pub is_event : Text → Event → Bool
is_event id e = e.id == id

abbrev pub has_slug : Text → Event → Bool
has_slug slug e = e.slug == slug

-- `include: { sessions, ticketTypes }`
abbrev pub sessions_of : Text → EventDb → List Session
sessions_of id db = filter_by (λ s. s.event_id == id) db.sessions

abbrev pub ticket_types_of : Text → EventDb → List TicketType
ticket_types_of id db = filter_by (λ t. t.event_id == id) db.ticket_types
