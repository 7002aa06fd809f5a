-- ===== src/Events/Course.antt =====
-- What every sequence of the operations of events.service.ts keeps, and how often an event's status
-- can change.
use eventory.Common.{
  find_by-update_field, ℕ, suc, ◌+◌, ◌≤◌, ◌≡◌, sym, ap, ◌∙◌, subst, inl, inr, true, Option, some,
  List, arith, ◌==◌, nat_eq, Bool-cases, is_none, some_eq, All, Text, text_beq_iff, text_eq,
  find_by, update_where, All-update_where,
}
use eventory.Errors.{ok}
use eventory.Domain.{EventStatus}
use eventory.Organizations.{Directory}
use eventory.Events.Lifecycle.{phase, IsTransition-phase}
use eventory.Events.Model.{Event, EventDb, EventView, is_event}
use eventory.Events.Service.{transition}
use eventory.Events.Progress.{status_of, transition-Transitioned}
use eventory.Events.Runs.{
  IsOrdered, IsConsistent, Step, created, updated, session_added, ticket_type_added, moved,
  create-cons, add_session-cons, add_ticket_type-keeps, update-keeps,
}

IsOrdered-edit :
    (event_id : Text) (f : Event → Event) (events : List Event)
    → ((x : Event) → ((f x).start_at ≡ x.start_at) × ((f x).end_at ≡ x.end_at))
    → All IsOrdered events
    → All IsOrdered (update_where (is_event event_id) f events)
IsOrdered-edit event_id f events keep h =
    All-update_where IsOrdered (is_event event_id) f events
      (λ x _ o. let k = keep x in omega (arith, k.0, k.1, o)) h

phase_bound : (s : EventStatus) → phase s ≤ 5
phase_bound s = ground arith

module _ (parse : Text → Option ℕ) (upper : Text → Text) where
  -- Every operation keeps the dates in order: an event ends after it starts, a session ends after
  -- it starts, and its sale has some time and ends no later than the session starts.
  pub Step-IsConsistent :
      (db after : EventDb) → Step parse upper db after → IsConsistent db → IsConsistent after
  Step-IsConsistent db after (created directory fresh slug input v new h) c =
      let (e, done, _, ordered) = create-cons parse upper directory fresh slug input v db after h in
      subst IsConsistent done (record { events = (ordered, c.events); sessions = c.sessions })
  Step-IsConsistent db after (updated directory event_id user_id name description v h) c =
      let (s, (f, e, dates, _)) =
        update-keeps directory event_id user_id name description v db after h in
      record {
        events = rw e (IsOrdered-edit event_id f db.events dates c.events);
        sessions = rw s c.sessions;
      }
  Step-IsConsistent db after (session_added directory fresh event_id input s h) c =
      let (done, scheduled, _) =
        add_session-cons parse upper directory fresh event_id input s db after h in
      subst IsConsistent done (record { events = c.events; sessions = (scheduled, c.sessions) })
  Step-IsConsistent db after (ticket_type_added directory fresh event_id input t h) c =
      let (e, s) = add_ticket_type-keeps parse upper directory fresh event_id input t db after h in
      record { events = rw e c.events; sessions = rw s c.sessions }
  Step-IsConsistent db after (moved directory now event_id user_id target read v h) c =
      let t = transition-Transitioned directory now event_id user_id target read db after v h in
      let (f, e, dates) = t.edit in
      record {
        events = rw e (IsOrdered-edit event_id f db.events dates c.events);
        sessions = rw t.sessions c.sessions;
      }

  -- Between what a transition reads and what it writes, the status of its event has not changed.
  abbrev pub IsUndisturbed : (db after : EventDb) → Step parse upper db after → Type 0
  IsUndisturbed db after (moved directory now event_id user_id target read v h) =
      status_of event_id read ≡ status_of event_id db
  IsUndisturbed db after _ = Unit

  -- An operation keeps the status of an event or advances it.
  Step-Course :
      (id : Text) (s : EventStatus) (db after : EventDb)
      → status_of id db ≡ some s
      → (step : Step parse upper db after) → IsUndisturbed db after step
      → (t : EventStatus) × (status_of id after ≡ some t) × (phase s ≤ phase t)
  unfolding find_by
  Step-Course id s db after h (created directory fresh slug input v new done) quiet =
      let (e, same, key, _) = create-cons parse upper directory fresh slug input v db after done in
      elim (Bool-cases (e.id == id)) [
        | inl taken ↦
            let is_id : e.id ≡ id = (text_beq_iff e.id id).0 taken in
            let none_there : is_none (find_by (is_event id) db.events) ≡ true =
              subst (λ i. is_none (find_by (is_event i) db.events) ≡ true) (sym key ∙ is_id) new in
            absurd (ground arith)
        | inr other ↦ (s, subst (λ x. status_of id x ≡ some s) same (rw other h), omega arith)
      ]
  Step-Course id s db after h (updated directory event_id user_id name description v done) quiet =
      let (_, (f, e, _, keep)) =
        update-keeps directory event_id user_id name description v db after done in
      (
        s,
        rw e (
            find_by-update_field (is_event event_id) (is_event id) f (λ (x : Event). x.status)
              db.events (λ x. rw ((keep x).0)) (λ x. (keep x).1)
            ∙ h),
        omega arith,
      )
  Step-Course id s db after h (session_added directory fresh event_id input x done) quiet =
      let (same, _, _) =
        add_session-cons parse upper directory fresh event_id input x db after done in
      (s, subst (λ y. status_of id y ≡ some s) same h, omega arith)
  Step-Course id s db after h (ticket_type_added directory fresh event_id input x done) quiet =
      let (same, _) =
        add_ticket_type-keeps parse upper directory fresh event_id input x db after done in
      (s, rw same h, omega arith)
  Step-Course id s db after h (moved directory now event_id user_id target read v done) quiet =
      let t = transition-Transitioned directory now event_id user_id target read db after v done in
      elim (Bool-cases (event_id == id)) [
        | inr other ↦ (s, t.others id other ∙ h, omega arith)
        | inl this ↦
            let same = (text_beq_iff event_id id).0 this in
            let was : some t.event.status ≡ some s =
              rw t.found at (quiet ∙ subst (λ i. status_of i db ≡ some s) (sym same) h) in
            (
              target,
              subst (λ i. status_of i after ≡ some target) same t.status,
              omega (
                arith,
                IsTransition-phase t.event.status target t.allowed,
                ap phase (some_eq was),
              ),
            )
      ]

  -- A sequence of operations, with the number of the status changes of the event `id`. The code does not
  -- lock an event: that its transitions are undisturbed is a condition.
  pub data Run (id : Text) (start : EventDb) : ℕ → EventDb → Type 0 where
    done : Run id start 0 start
    other :
        {n : ℕ} {db after : EventDb}
        → Run id start n db
        → (step : Step parse upper db after) → IsUndisturbed db after step
        → Run id start n after
    changed :
        {n : ℕ} {db after : EventDb} (directory : Directory) (now : ℕ) (user_id : Text)
        (target : EventStatus) (read : EventDb) (v : EventView)
        → Run id start n db
        → status_of id read ≡ status_of id db
        → transition directory now id user_id target read db ≡ ok (v, after)
        → Run id start (suc n) after

  Run-phase :
      (id : Text) (s : EventStatus) (start : EventDb) (n : ℕ) (db : EventDb)
      → status_of id start ≡ some s
      → Run id start n db
      → (t : EventStatus) × (status_of id db ≡ some t) × (n + phase s ≤ phase t)
  Run-phase id s start n db h done = (s, h, omega arith)
  Run-phase id s start n db h (other {n = m} {db = mid} r step quiet) =
      let (t, at, far) = Run-phase id s start n mid h r in
      let (u, there, further) = Step-Course id t mid db at step quiet in
      (u, there, omega (arith, far, further))
  Run-phase id s start _ db h
        (changed {n = m} {db = mid} directory now user_id target read v r quiet e) =
      let (t, at, far) = Run-phase id s start m mid h r in
      let x = transition-Transitioned directory now id user_id target read mid db v e in
      let was : some x.event.status ≡ some t = rw x.found at (quiet ∙ at) in
      (
        target,
        x.status,
        omega (
          arith,
          far,
          IsTransition-phase x.event.status target x.allowed,
          ap phase (some_eq was),
        ),
      )

  -- As long as no status of an event changes between what a transition of it reads and what it writes,
  -- the status of an event changes at most five times, however many operations are performed and in
  -- whatever order; the event keeps existing.
  pub Run-bound :
      (id : Text) (s : EventStatus) (start : EventDb) (n : ℕ) (db : EventDb)
      → status_of id start ≡ some s
      → Run id start n db
      → (n ≤ 5) × ((t : EventStatus) × (status_of id db ≡ some t) × (phase s ≤ phase t))
  Run-bound id s start n db h r =
      let (t, there, far) = Run-phase id s start n db h r in
      let few : n ≤ 5 = omega (arith, far, phase_bound t) in (few, (t, there, omega (arith, far)))
