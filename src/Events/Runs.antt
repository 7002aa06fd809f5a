-- ===== src/Events/Runs.antt =====
-- Sequences of the operations of events.service.ts.
use eventory.Common.{
  is_empty, if◌then◌else◌, none, ◌&&◌, not, ℕ, ◌≤◌, ◌<◌, ◌≡◌, refl, sym, ap, subst, true, ◌||◌,
  Option, some, [], ◌∷◌, arith, ltb, leb, ◌==◌, nat_eq, is_some, is_none, any, All, Text, text_eq,
  trim, find_by, update_where, not,
}
use eventory.Errors.{Code, conflict, ok, err, throw_if, >>=-eq-ok}
use eventory.Domain.{EventStatus}
use eventory.Organizations.{Directory, assert_access}
use eventory.Events.Lifecycle.{same_status}
use eventory.Events.Model.{
  Event, Session, TicketType, EventDb, EventView, is_event, has_slug, ticket_types_of,
}
use eventory.Events.Service.{
  get_managed_event, NewEvent, create, NewSession, add_session, update, NewTicketType,
  add_ticket_type, transition, assert_draft_like, parse_date, assert_date_range, check_venue,
  new_event,
}
use eventory.Events.Progress.{get_managed_event-found}

-- The dates of an event are in order, and so are those of a session, whose sale ends before it.
abbrev pub IsOrdered : Event → Type 0
IsOrdered e = e.start_at < e.end_at

pub record IsScheduled (s : Session) : Type 0 where
  pub runs : s.start_at < s.end_at
  pub sells : s.sales_start_at < s.sales_end_at
  pub in_advance : s.sales_end_at ≤ s.start_at

pub record IsConsistent (db : EventDb) : Type 0 where
  pub events : All IsOrdered db.events
  pub sessions : All IsScheduled db.sessions

module _ (parse : Text → Option ℕ) (upper : Text → Text) where
  -- One operation that succeeds. A new event's identifier is the key of no other event. A
  -- transition may have read any database.
  pub data Step (db after : EventDb) : Type 0 where
    created :
        (directory : Directory) (fresh slug : Text) (input : NewEvent parse) (v : EventView)
        → is_none (find_by (is_event fresh) db.events) ≡ true
        → create parse directory fresh slug input db ≡ ok (v, after)
        → Step db after
    updated :
        (directory : Directory) (event_id user_id : Text) (name description : Option Text)
        (v : EventView)
        → update directory event_id user_id name description db ≡ ok (v, after)
        → Step db after
    session_added :
        (directory : Directory) (fresh event_id : Text) (input : NewSession parse) (s : Session)
        → add_session parse directory fresh event_id input db ≡ ok (s, after)
        → Step db after
    ticket_type_added :
        (directory : Directory) (fresh event_id : Text) (input : NewTicketType) (t : TicketType)
        → add_ticket_type upper directory fresh event_id input db ≡ ok (t, after)
        → Step db after
    moved :
        (directory : Directory) (now : ℕ) (event_id user_id : Text) (target : EventStatus)
        (read : EventDb) (v : EventView)
        → transition directory now event_id user_id target read db ≡ ok (v, after)
        → Step db after

  pub create-cons :
      (directory : Directory) (fresh slug : Text) (input : NewEvent parse) (v : EventView)
      (db after : EventDb)
      → create parse directory fresh slug input db ≡ ok (v, after)
      → (e : Event) × (record db { events = e ∷ db.events } ≡ after) × (e.id ≡ fresh) × IsOrdered e
  unfolding create
  create-cons directory fresh slug input v db after h =
      let (_, _, h1) =
        >>=-eq-ok (assert_access directory input.organization_id input.user_id []) _ h in
      let (start_at, _, h2) = >>=-eq-ok (parse_date parse input.start_at) _ h1 in
      let (end_at, _, h3) = >>=-eq-ok (parse_date parse input.end_at) _ h2 in
      let (_, ordered, h4) = >>=-eq-ok (assert_date_range start_at end_at) _ h3 in
      let (_, _, h5) = >>=-eq-ok (check_venue parse input.organization_id input.venue_id db) _ h4 in
      let (_, _, h6) =
        >>=-eq-ok
          (throw_if (is_some (find_by (has_slug slug) db.events))
            (conflict Code.event_slug_conflict))
          _ h5 in
      (
        new_event parse fresh slug start_at end_at input,
        (ap (λ r. elim r [ ok (_, x) ↦ x | err _ ↦ db ]) h6),
        refl,
        ground arith,
      )

  pub add_session-cons :
      (directory : Directory) (fresh event_id : Text) (input : NewSession parse) (s : Session)
      (db after : EventDb)
      → add_session parse directory fresh event_id input db ≡ ok (s, after)
      → (record db { sessions = s ∷ db.sessions } ≡ after)
        × IsScheduled s
        × ((e : Event) × (find_by (is_event event_id) db.events ≡ some e)
            × (assert_draft_like e.status ≡ ok tt))
  unfolding add_session
  add_session-cons directory fresh event_id input s db after h =
      let (e, managed, h1) =
        >>=-eq-ok (get_managed_event directory event_id input.user_id db) _ h in
      let (_, draft, h2) = >>=-eq-ok (assert_draft_like e.status) _ h1 in
      let (start_at, _, h3) = >>=-eq-ok (parse_date parse input.start_at) _ h2 in
      let (end_at, _, h4) = >>=-eq-ok (parse_date parse input.end_at) _ h3 in
      let (sales_start_at, _, h5) = >>=-eq-ok (parse_date parse input.sales_start_at) _ h4 in
      let (sales_end_at, _, h6) = >>=-eq-ok (parse_date parse input.sales_end_at) _ h5 in
      let (_, runs, h7) = >>=-eq-ok (assert_date_range start_at end_at) _ h6 in
      let (_, sells, h8) = >>=-eq-ok (assert_date_range sales_start_at sales_end_at) _ h7 in
      let (_, before, h9) =
        >>=-eq-ok
          (throw_if (ltb start_at sales_end_at || leb start_at sales_start_at)
            (conflict Code.session_sales_window_invalid))
          _ h8 in
      let session : Session = record {
        id = fresh;
        event_id = event_id;
        name = trim input.name;
        start_at = start_at;
        end_at = end_at;
        sales_start_at = sales_start_at;
        sales_end_at = sales_end_at;
      } in
      let made : session ≡ s = ground arith in
      let scheduled : IsScheduled session = record {
        runs = ground arith;
        sells = ground arith;
        in_advance = ground arith;
      } in
      (
        ground arith,
        subst IsScheduled made scheduled,
        (e, (get_managed_event-found directory event_id input.user_id db e managed).0, draft),
      )

  pub add_ticket_type-keeps :
      (directory : Directory) (fresh event_id : Text) (input : NewTicketType) (x : TicketType)
      (db after : EventDb)
      → add_ticket_type upper directory fresh event_id input db ≡ ok (x, after)
      → (after.events ≡ db.events) × (after.sessions ≡ db.sessions)
  unfolding add_ticket_type
  add_ticket_type-keeps directory fresh event_id input x db after h =
      let (e, _, h1) = >>=-eq-ok (get_managed_event directory event_id input.user_id db) _ h in
      let (_, _, h2) = >>=-eq-ok (assert_draft_like e.status) _ h1 in
      let (_, _, h3) =
        >>=-eq-ok
          (throw_if (any (λ t. t.name == trim input.name) (ticket_types_of event_id db))
            (conflict Code.ticket_type_exists))
          _ h2 in
      let done = ap (λ r. elim r [ ok (_, y) ↦ y | err _ ↦ db ]) h3 in
      (ap (λ (y : EventDb). y.events) (sym done), ap (λ (y : EventDb). y.sessions) (sym done))

-- What a successful `update` leaves of the events.
pub update-keeps :
    (directory : Directory) (event_id user_id : Text) (name description : Option Text)
    (v : EventView) (db after : EventDb)
    → update directory event_id user_id name description db ≡ ok (v, after)
    → (after.sessions ≡ db.sessions)
      × ((f : Event → Event) × (after.events ≡ update_where (is_event event_id) f db.events)
          × ((x : Event) → ((f x).start_at ≡ x.start_at) × ((f x).end_at ≡ x.end_at))
          × ((x : Event) → ((f x).id ≡ x.id) × ((f x).status ≡ x.status)))
unfolding update
update-keeps directory event_id user_id name description v db after h =
    let (e, _, h1) = >>=-eq-ok (get_managed_event directory event_id user_id db) _ h in
    let (_, _, h2) =
      >>=-eq-ok
        (throw_if
          (not (same_status e.status EventStatus.draft)
            && not (same_status e.status EventStatus.published))
          (conflict Code.event_immutable_after_sales))
        _ h1 in
    let done = ap (λ r. elim r [ ok (_, y) ↦ y | err _ ↦ db ]) h2 in
    (
      ap (λ (y : EventDb). y.sessions) (sym done),
      (
        (λ x. record x {
          name = elim name [ none ↦ x.name | some s ↦ if is_empty s then x.name else trim s ];
          description = elim description [ none ↦ x.description | some s ↦ some (trim s) ];
        }),
        ap (λ (y : EventDb). y.events) (sym done),
        (λ x. (refl, refl)),
        (λ x. (refl, refl)),
      ),
    )
