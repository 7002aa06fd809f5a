-- ===== src/Events/Progress.antt =====
-- How an event moves towards its end, whatever operations events.service.ts performs, and what
-- every session that it creates satisfies.
use mathlib.Core.Option
use eventory.Common.{
  ℕ, ◌<◌, ◌≡◌, refl, ap, ◌∙◌, subst, inl, inr, Bool, true, false, ◌&&◌, Option, some, List, arith,
  leb, if◌then◌else◌, ◌==◌, nat_eq, Option-cases, Text, text_beq_iff, text_eq, find_by,
  update_where, find_by-update_where, find_by-update_other,
}
use eventory.Errors.{
  internal, or_throw, or_throw-eq-ok, Failure, Result, ok, err, throw_if, Result-cases, >>=-eq-ok,
}
use eventory.Domain.{EventStatus}
use eventory.Organizations.{Directory, Granted, assert_access, assert_access-Granted, managers}
use eventory.Events.Lifecycle.{
  same_status, assert_event_transition, assert_event_transition_iff, IsTransition, same_status_iff,
}
use eventory.Events.Model.{Event, EventDb, EventView, is_event}
use eventory.Events.Service.{
  get_managed_event, check_publication, check_transition, set_status, transition,
}

abbrev pub status_of : Text → EventDb → Option EventStatus
status_of id db = Option.map (λ (e : Event). e.status) (find_by (is_event id) db.events)

-- What a successful `transition` did.
pub record Transitioned (directory : Directory) (now : ℕ) (event_id user_id : Text)
    (target : EventStatus) (read db after : EventDb) : Type 0 where
  pub event : Event
  pub found : find_by (is_event event_id) read.events ≡ some event
  pub granted : Granted directory event.organization_id user_id
  pub allowed : IsTransition event.status target
  pub published : target ≡ EventStatus.published → check_publication now event_id read ≡ ok tt
  pub opened : target ≡ EventStatus.sales_open → now < event.start_at
  pub status : status_of event_id after ≡ some target
  pub others : (id : Text) → (event_id == id ≡ false) → status_of id after ≡ status_of id db
  pub sessions : after.sessions ≡ db.sessions
  pub edit :
      (f : Event → Event) × (after.events ≡ update_where (is_event event_id) f db.events)
      × ((x : Event) → ((f x).start_at ≡ x.start_at) × ((f x).end_at ≡ x.end_at))

pub get_managed_event-found :
    (directory : Directory) (event_id user_id : Text) (db : EventDb) (e : Event)
    → get_managed_event directory event_id user_id db ≡ ok e
    → (find_by (is_event event_id) db.events ≡ some e) × Granted directory e.organization_id user_id
unfolding get_managed_event
get_managed_event-found directory event_id user_id db e h =
    elim (Option-cases (find_by (is_event event_id) db.events)) [
      | inl lost ↦ absurd (ground arith)
      | inr (x, found) ↦
          elim (Result-cases (assert_access directory x.organization_id user_id managers)) [
            | inr (f, refused) ↦ absurd (ground arith)
            | inl (u, granted) ↦
                let same : x ≡ e = ground arith in
                (
                  found ∙ ap some same,
                  subst (λ (y : Event). Granted directory y.organization_id user_id) same
                      (assert_access-Granted directory x.organization_id user_id managers granted),
                )
          ]
    ]

-- An update of one event that sets its status, seen from every event.
pub status_of-update :
    (event_id : Text) (f : Event → Event) (db : EventDb) (e : Event)
    → find_by (is_event event_id) db.events ≡ some e
    → ((x : Event) → (f x).id ≡ x.id)
    → Option.map
        (λ (x : Event). x.status)
        (find_by (is_event event_id) (update_where (is_event event_id) f db.events))
      ≡ some (f e).status
status_of-update event_id f db e found keep =
    rw (find_by-update_where (is_event event_id) f db.events (λ x. rw (keep x)), found)

pub status_of-others :
    (event_id id : Text) (f : Event → Event) (events : List Event)
    → ((x : Event) → (f x).id ≡ x.id)
    → event_id == id ≡ false
    → find_by (is_event id) (update_where (is_event event_id) f events)
      ≡ find_by (is_event id) events
status_of-others event_id id f events keep other =
    find_by-update_other (is_event event_id) (is_event id) f events (λ x h.
      let not_it : x.id == id ≡ false = ground (arith, text_beq_iff x.id event_id) in
      (not_it, rw (keep x) not_it))

leb-false : (a b : ℕ) → leb a b ≡ false → b < a
leb-false a b h = ground arith

if-ok :
    (test : Bool) (m : Result (Unit {0})) (u : Unit {0})
    → (if test then m else ok tt) ≡ ok u
    → test ≡ true
    → m ≡ ok tt
if-ok test m u h t = rw t at h

not_thrown :
    (test over : Bool) (e : Failure) (u : Unit {0})
    → throw_if (test && over) e ≡ ok u
    → test ≡ true
    → over ≡ false
not_thrown test over e u h t = ground arith

-- What a success of the update shows.
set_status-cons :
    (now : ℕ) (event_id : Text) (target : EventStatus) (db after : EventDb) (v : EventView)
    → set_status now event_id target db ≡ ok (v, after)
    → (status_of event_id after ≡ some target)
      × ((id : Text) → (event_id == id ≡ false) → status_of id after ≡ status_of id db)
      × (after.sessions ≡ db.sessions)
      × ((f : Event → Event) × (after.events ≡ update_where (is_event event_id) f db.events)
          × ((x : Event) → ((f x).start_at ≡ x.start_at) × ((f x).end_at ≡ x.end_at)))
unfolding set_status
set_status-cons now event_id target db after v h =
    let change : Event → Event = λ x. record x {
      status = target;
      published_at = if same_status target EventStatus.published then some now else x.published_at;
    } in
    let (e, there, h1) =
      >>=-eq-ok (or_throw (find_by (is_event event_id) db.events) internal) _ h in
    let found = or_throw-eq-ok _ _ e there in
    let done : (record db { events = update_where (is_event event_id) change db.events }) ≡ after =
      ap (λ r. elim r [ ok (_, x) ↦ x | err _ ↦ db ]) h1 in
    subst
      (λ (x : EventDb).
        (status_of event_id x ≡ some target)
        × ((id : Text) → (event_id == id ≡ false) → status_of id x ≡ status_of id db)
        × (x.sessions ≡ db.sessions)
        × ((f : Event → Event) × (x.events ≡ update_where (is_event event_id) f db.events)
            × ((y : Event) → ((f y).start_at ≡ y.start_at) × ((f y).end_at ≡ y.end_at))))
      done
      (
        status_of-update event_id change db e found (λ x. refl),
        (λ id other.
            ap (Option.map (λ (x : Event). x.status))
              (status_of-others event_id id change db.events (λ x. refl) other)),
        refl,
        (change, refl, λ x. (refl, refl)),
      )

-- If `transition` succeeds, then the event existed when it was read, and at that time the user might
-- manage it, the lifecycle allowed the new status, a publication had passed its checks, and a sale
-- opened before the event starts; in the database as the update found it, the event now has the new
-- status, and no other event and no session has changed.
pub transition-Transitioned :
    (directory : Directory) (now : ℕ) (event_id user_id : Text) (target : EventStatus)
    (read db after : EventDb) (v : EventView)
    → transition directory now event_id user_id target read db ≡ ok (v, after)
    → Transitioned directory now event_id user_id target read db after
unfolding transition check_transition
transition-Transitioned directory now event_id user_id target read db after v h =
    let (u, checked, h0) =
      >>=-eq-ok (check_transition directory now event_id user_id target read) _ h in
    let (e, managed, h1) =
      >>=-eq-ok (get_managed_event directory event_id user_id read) _ checked in
    let (_, allowed, h2) = >>=-eq-ok (assert_event_transition e.status target) _ h1 in
    let (_, published, opened) =
      >>=-eq-ok
        (if same_status target EventStatus.published
          then check_publication now event_id read
          else ok tt)
        _ h2 in
    let (found, granted) = get_managed_event-found directory event_id user_id read e managed in
    let (status, others, sessions, edit) = set_status-cons now event_id target db after v h0 in
    record {
      event = e;
      found = found;
      granted = granted;
      allowed = (assert_event_transition_iff e.status target).0 allowed;
      published = λ t.
          if-ok (same_status target EventStatus.published) (check_publication now event_id read) _
            published ((same_status_iff target EventStatus.published).1 t);
      opened = λ t.
          let late =
            not_thrown (same_status target EventStatus.sales_open) (leb e.start_at now) _ _ opened
              ((same_status_iff target EventStatus.sales_open).1 t) in
          leb-false e.start_at now late;
      status = status;
      others = others;
      sessions = sessions;
      edit = edit;
    }
