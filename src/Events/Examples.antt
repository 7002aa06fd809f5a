-- ===== src/Events/Examples.antt =====
-- An event on its way to its sale.
use eventory.Common.{
  ℕ, ◌≤◌, ◌≡◌, refl, Option, none, some, [], ◌∷◌, arith, nat_eq, Text, codes, text_beq, text_eq,
  find_by, filter_by, update_where,
}
use eventory.Errors.{ok}
use eventory.Domain.{EventStatus, OrganizationMemberRole}
use eventory.Organizations.{Directory, assert_access}
use eventory.Events.Lifecycle.{assert_event_transition, phase}
use eventory.Events.Model.{Event, Session, TicketType, EventDb, EventView}
use eventory.Events.Service.{
  get_managed_event, check_publication, transition, check_transition, set_status,
}
use eventory.Events.Progress.{status_of, Transitioned, transition-Transitioned}
use eventory.Events.Runs.{IsConsistent, moved}
use eventory.Events.Course.{Step-IsConsistent, done, changed, Run-bound}

abbrev directory : Directory
directory = record {
  users = [];
  members =
      record {
        organization_id = codes "o";
        user_id = codes "u";
        role = OrganizationMemberRole.staff;
      }
      ∷ [];
}

abbrev event : Event
event = record {
  id = codes "e";
  organization_id = codes "o";
  venue_id = none;
  name = codes "Concert";
  slug = codes "concert";
  description = none;
  timezone = codes "UTC";
  start_at = 100;
  end_at = 200;
  status = EventStatus.draft;
  published_at = none;
}

abbrev session : Session
session = record {
  id = codes "s";
  event_id = codes "e";
  name = codes "Evening";
  start_at = 100;
  end_at = 150;
  sales_start_at = 10;
  sales_end_at = 90;
}

abbrev ticket_type : TicketType
ticket_type = record {
  id = codes "t";
  event_id = codes "e";
  name = codes "Standard";
  description = none;
  price_minor = 100;
  currency = codes "VND";
  capacity = 10;
}

abbrev db : EventDb
db = record {
  venues = [];
  events = event ∷ [];
  sessions = session ∷ [];
  ticket_types = ticket_type ∷ [];
}

abbrev published_view : EventView
published_view = record {
  id = codes "e";
  organization_id = codes "o";
  name = codes "Concert";
  slug = codes "concert";
  description = none;
  timezone = codes "UTC";
  start_at = 100;
  end_at = 200;
  status = EventStatus.published;
}

abbrev published_db : EventDb
published_db = record db {
  events = record event { status = EventStatus.published; published_at = some 5 } ∷ [];
}

published :
    transition directory 5 (codes "e") (codes "u") EventStatus.published db db
    ≡ ok (published_view, published_db)
unfolding transition check_transition set_status get_managed_event assert_access
    assert_event_transition check_publication find_by filter_by update_where text_beq
published = refl

transition-Transitioned_example :
    Transitioned directory 5 (codes "e") (codes "u") EventStatus.published db db published_db
transition-Transitioned_example =
    transition-Transitioned directory 5 (codes "e") (codes "u") EventStatus.published db db
      published_db published_view published

abbrev no_dates : Text → Option ℕ
no_dates _ = none

abbrev as_given : Text → Text
as_given c = c

consistent : IsConsistent db
consistent = record {
  events = (omega arith, tt);
  sessions = (record { runs = omega arith; sells = omega arith; in_advance = omega arith }, tt);
}

Step-IsConsistent_example : IsConsistent published_db
Step-IsConsistent_example =
    Step-IsConsistent no_dates as_given db published_db
      (moved directory 5 (codes "e") (codes "u") EventStatus.published db published_view published)
      consistent

is_draft : status_of (codes "e") db ≡ some EventStatus.draft
unfolding find_by text_beq
is_draft = refl

Run-bound_example :
    (1 ≤ 5)
    × ((t : EventStatus) × (status_of (codes "e") published_db ≡ some t)
        × (phase EventStatus.draft ≤ phase t))
Run-bound_example =
    Run-bound no_dates as_given (codes "e") EventStatus.draft db 1 published_db is_draft
      (changed directory 5 (codes "u") EventStatus.published db published_view done refl published)
