-- ===== src/Events/Service.antt =====
-- apps/api/src/modules/events/events.service.ts: the operations that write. `parse` is what `new
-- Date` makes of a text, `upper` is `toUpperCase`; `fresh` is the identifier of a new row, and each
-- operation is given the readings of the clock. `create`, `update` and the two additions read and write
-- in one step.
use eventory.Common.{
  ℕ, ◌&&◌, ◌||◌, not, Option, none, some, [], ◌∷◌, ltb, leb, if◌then◌else◌, ◌==◌, nat_eq, is_some,
  is_none, length, any, Text, codes, text_eq, is_empty, trim, find_by, update_where,
}
use eventory.Errors.{
  Code, conflict, not_found, internal, Result, ok, ◌>>=◌, ◌>>◌, throw_if, or_throw,
}
use eventory.Domain.{EventStatus}
use eventory.Organizations.{Directory, assert_access, managers}
use eventory.Events.Lifecycle.{same_status, assert_event_transition}
use eventory.Events.Model.{
  Venue, Event, Session, TicketType, EventDb, EventView, to_event_view, is_event, has_slug,
  sessions_of, ticket_types_of,
}

-- `getManagedEvent`; `getManagedEventWithInventory` loads the rows of `sessions_of` with it.
unfoldable pub get_managed_event : Directory → Text → Text → EventDb → Result Event
get_managed_event directory event_id user_id db = do
  event ← or_throw (find_by (is_event event_id) db.events) (not_found Code.event_not_found)
  assert_access directory event.organization_id user_id managers
  ok event

-- `assertDraftLike`
abbrev pub assert_draft_like : EventStatus → Result (Unit {0})
assert_draft_like status =
    throw_if
      (not (same_status status EventStatus.draft) && not (same_status status EventStatus.published))
      (conflict Code.event_immutable_after_sales)

abbrev pub assert_date_range : ℕ → ℕ → Result (Unit {0})
assert_date_range start_at end_at =
    throw_if (leb end_at start_at) (conflict Code.invalid_date_range)

-- `input.x?.trim() || d`
abbrev pub trimmed_or : Option Text → Text → Text
trimmed_or none d = d
trimmed_or (some s) d = let t = trim s in if is_empty t then d else t

-- `...(input.x ? { x: input.x.trim() } : {})` on a column that keeps `old` otherwise
abbrev pub trimmed_if_given : Option Text → Option Text → Option Text
trimmed_if_given none old = old
trimmed_if_given (some s) old = if is_empty s then old else some (trim s)

module _ (parse : Text → Option ℕ) where
  abbrev pub parse_date : Text → Result ℕ
  parse_date value = or_throw (parse value) (conflict Code.invalid_date)

  pub record NewEvent : Type 0 where
    pub organization_id : Text
    pub user_id : Text
    pub venue_id : Option Text
    pub name : Text
    pub description : Option Text
    pub start_at : Text
    pub end_at : Text
    pub timezone : Option Text

  -- `if (input.venueId)`
  unfoldable pub check_venue : Text → Option Text → EventDb → Result (Unit {0})
  check_venue organization_id none db = ok tt
  check_venue organization_id (some id) db =
      throw_if
        (not (is_empty id)
          && is_none (
              find_by (λ (v : Venue). v.id == id && v.organization_id == organization_id)
                db.venues))
        (not_found Code.venue_not_found)

  -- the row that `create` inserts
  abbrev pub new_event : Text → Text → ℕ → ℕ → NewEvent → Event
  new_event fresh slug start_at end_at input = record {
    id = fresh;
    organization_id = input.organization_id;
    venue_id = elim input.venue_id [
      | none ↦ none
      | some id ↦ if is_empty id then none else some id
    ];
    name = trim input.name;
    slug = slug;
    description = trimmed_if_given input.description none;
    timezone = trimmed_or input.timezone (codes "UTC");
    start_at = start_at;
    end_at = end_at;
    status = EventStatus.draft;
    published_at = none;
  }

  -- `create`; `slug` is what `uniqueSlug` returned.
  unfoldable pub create :
      Directory → Text → Text → NewEvent → EventDb → Result (EventView × EventDb)
  create directory fresh slug input db = do
    assert_access directory input.organization_id input.user_id []
    start_at ← parse_date input.start_at
    end_at ← parse_date input.end_at
    assert_date_range start_at end_at
    check_venue input.organization_id input.venue_id db
    throw_if (is_some (find_by (has_slug slug) db.events)) (conflict Code.event_slug_conflict)
    let event = new_event fresh slug start_at end_at input
    ok (to_event_view event, record db { events = event ∷ db.events })

  pub record NewSession : Type 0 where
    pub user_id : Text
    pub name : Text
    pub start_at : Text
    pub end_at : Text
    pub sales_start_at : Text
    pub sales_end_at : Text

  unfoldable pub add_session :
      Directory → Text → Text → NewSession → EventDb → Result (Session × EventDb)
  add_session directory fresh event_id input db = do
    event ← get_managed_event directory event_id input.user_id db
    assert_draft_like event.status
    start_at ← parse_date input.start_at
    end_at ← parse_date input.end_at
    sales_start_at ← parse_date input.sales_start_at
    sales_end_at ← parse_date input.sales_end_at
    assert_date_range start_at end_at
    assert_date_range sales_start_at sales_end_at
    throw_if (ltb start_at sales_end_at || leb start_at sales_start_at)
        (conflict Code.session_sales_window_invalid)
    let session : Session = record {
      id = fresh;
      event_id = event_id;
      name = trim input.name;
      start_at = start_at;
      end_at = end_at;
      sales_start_at = sales_start_at;
      sales_end_at = sales_end_at;
    }
    ok (session, record db { sessions = session ∷ db.sessions })

-- `update`
unfoldable pub update :
    Directory → Text → Text → Option Text → Option Text → EventDb → Result (EventView × EventDb)
update directory event_id user_id name description db = do
  event ← get_managed_event directory event_id user_id db
  throw_if
      (not (same_status event.status EventStatus.draft)
        && not (same_status event.status EventStatus.published))
      (conflict Code.event_immutable_after_sales)
  let change : Event → Event = λ e. record e {
    name = elim name [ none ↦ e.name | some s ↦ if is_empty s then e.name else trim s ];
    description = elim description [ none ↦ e.description | some s ↦ some (trim s) ];
  }
  ok (
    to_event_view (change event),
    record db { events = update_where (is_event event_id) change db.events },
  )

pub record NewTicketType : Type 0 where
  pub user_id : Text
  pub name : Text
  pub description : Option Text
  pub price_minor : ℕ
  pub currency : Option Text
  pub capacity : ℕ

-- `addTicketType`; the unique index is on the event and the name.
unfoldable pub add_ticket_type :
    (Text → Text)
    → Directory
    → Text
    → Text
    → NewTicketType
    → EventDb
    → Result (TicketType × EventDb)
add_ticket_type upper directory fresh event_id input db = do
  event ← get_managed_event directory event_id input.user_id db
  assert_draft_like event.status
  throw_if (any (λ t. t.name == trim input.name) (ticket_types_of event_id db))
      (conflict Code.ticket_type_exists)
  let ticket_type : TicketType = record {
    id = fresh;
    event_id = event_id;
    name = trim input.name;
    description = trimmed_if_given input.description none;
    price_minor = input.price_minor;
    currency = elim input.currency [
      | none ↦ codes "VND"
      | some c ↦ let u = upper (trim c) in if is_empty u then codes "VND" else u
    ];
    capacity = input.capacity;
  }
  ok (ticket_type, record db { ticket_types = ticket_type ∷ db.ticket_types })

-- `if (target === PUBLISHED)`
unfoldable pub check_publication : ℕ → Text → EventDb → Result (Unit {0})
check_publication now event_id db = do
  throw_if (length (sessions_of event_id db) == 0 || length (ticket_types_of event_id db) == 0)
      (conflict Code.event_missing_inventory)
  throw_if (any (λ s. leb s.start_at now || leb s.end_at s.start_at) (sessions_of event_id db))
      (conflict Code.event_session_invalid)

-- What `transition` checks of the event as it reads it.
unfoldable pub check_transition :
    Directory → ℕ → Text → Text → EventStatus → EventDb → Result (Unit {0})
check_transition directory now event_id user_id target read = do
  event ← get_managed_event directory event_id user_id read
  assert_event_transition event.status target
  if same_status target EventStatus.published then check_publication now event_id read else ok tt
  throw_if (same_status target EventStatus.sales_open && leb event.start_at now)
      (conflict Code.event_already_started)

-- The update of `transition`, which fails where the row is gone.
unfoldable pub set_status : ℕ → Text → EventStatus → EventDb → Result (EventView × EventDb)
set_status now event_id target db = do
  event ← or_throw (find_by (is_event event_id) db.events) internal
  let change : Event → Event = λ e. record e {
    status = target;
    published_at = if same_status target EventStatus.published then some now else e.published_at;
  }
  ok (
    to_event_view (change event),
    record db { events = update_where (is_event event_id) change db.events },
  )

-- `transition`: `read` is the database as it is read, and `db` as it is when the update comes, which
-- other requests may have changed in between.
unfoldable pub transition :
    Directory → ℕ → Text → Text → EventStatus → EventDb → EventDb → Result (EventView × EventDb)
transition directory now event_id user_id target read db =
    check_transition directory now event_id user_id target read >> set_status now event_id target db
