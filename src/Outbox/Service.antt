-- ===== src/Outbox/Service.antt =====
-- apps/api/src/modules/outbox/outbox.service.ts. Each pass is given one reading of the clock. `send`
-- is the mail server: the error that the sending of a message of an event fails with, if it does.
-- `mails` are the dedupe keys of the messages that it has accepted. A delivery is found by its dedupe
-- key, which is unique, where the code uses the identifier of the row that it has just read.
use eventory.Common.{
  ℕ, ◌+◌, ◌-◌, ◌*◌, ◌^◌, min, max, Bool, true, false, ◌||◌, not, Option, none, some, List, [], ◌∷◌,
  ◌++◌, map, ltb, leb, if◌then◌else◌, ◌==◌, nat_eq, length, take, includes, Text, codes, text_eq,
  find_by, filter_by, update_where,
}
use eventory.Domain.{NotificationStatus, OutboxStatus}

pub record OutboxEvent : Type 0 where
  pub id : Text
  pub topic : Text
  pub booking_id : Option Text
  pub status : OutboxStatus
  pub attempts : ℕ
  pub created_at : ℕ
  pub updated_at : ℕ
  pub next_attempt_at : ℕ
  pub processed_at : Option ℕ
  pub last_error : Option Text

pub record Delivery : Type 0 where
  pub dedupe_key : Text
  pub outbox_event_id : Text
  pub booking_id : Text
  pub recipient : Text
  pub template : Text
  pub status : NotificationStatus
  pub attempts : ℕ
  pub next_attempt_at : ℕ
  pub sent_at : Option ℕ
  pub last_error : Option Text

-- A booking with its user's address.
pub record Addressee : Type 0 where
  pub booking_id : Text
  pub public_code : Text
  pub email : Text

pub record OutboxDb : Type 0 where
  pub events : List OutboxEvent
  pub deliveries : List Delivery
  pub bookings : List Addressee
  pub mails : List Text

pub record Message : Type 0 where
  pub recipient : Text
  pub subject : Text
  pub text : Text

abbrev pub max_attempts : ℕ
max_attempts = 5

abbrev pub lease_timeout_minutes : ℕ
lease_timeout_minutes = 5

abbrev pub is_due : ℕ → OutboxEvent → Bool
is_due now e = elim e.status [
  | OutboxStatus.pending ↦ leb e.next_attempt_at now
  | OutboxStatus.processing ↦ ltb (e.updated_at + lease_timeout_minutes * 60_000) now
  | _ ↦ false
]

-- `ORDER BY "createdAt"`
unfoldable pub insert_by_age : OutboxEvent → List OutboxEvent → List OutboxEvent
insert_by_age e [] = e ∷ []
insert_by_age e (x ∷ xs) =
    let rest = insert_by_age e xs in if leb e.created_at x.created_at then e ∷ x ∷ xs else x ∷ rest

unfoldable pub oldest_first : List OutboxEvent → List OutboxEvent
oldest_first [] = []
oldest_first (e ∷ es) = insert_by_age e (oldest_first es)

abbrev pub lease : ℕ → OutboxEvent → OutboxEvent
lease now e = record e {
  status = OutboxStatus.processing;
  attempts = e.attempts + 1;
  updated_at = now;
}

-- `claim`: the rows that it returns, and the table that it leaves.
unfoldable pub claim : ℕ → ℕ → OutboxDb → List OutboxEvent × OutboxDb
claim limit now db =
    let candidates = take limit (oldest_first (filter_by (is_due now) db.events)) in
    let ids = map (λ (e : OutboxEvent). e.id) candidates in
    (
      map (lease now) candidates,
      record db { events = update_where (λ e. includes ids e.id) (lease now) db.events },
    )

abbrev pub is_outbox_event : Text → OutboxEvent → Bool
is_outbox_event id e = e.id == id

abbrev pub has_dedupe_key : Text → Delivery → Bool
has_dedupe_key key d = d.dedupe_key == key

abbrev pub is_sent : NotificationStatus → Bool
is_sent NotificationStatus.sent = true
is_sent _ = false

-- `1_000 * 2 ** Math.max(0, attempts - 1)`, at most a quarter of an hour
abbrev pub delay_ms : ℕ → ℕ
delay_ms attempts = min (15 * 60_000) (1_000 * 2 ^ (attempts - 1))

abbrev pub next_attempt : ℕ → ℕ → ℕ
next_attempt now attempts = now + delay_ms attempts

abbrev pub safe_error : Text → Text
safe_error message = take 500 message

unfoldable pub mark_processed : ℕ → Text → OutboxDb → OutboxDb
mark_processed now id db = record db {
  events =
      update_where (is_outbox_event id)
        (λ e. record e {
          status = OutboxStatus.processed;
          updated_at = now;
          processed_at = some now;
          last_error = none;
        })
        db.events;
}

unfoldable pub mark_failure : ℕ → OutboxEvent → Text → OutboxDb → OutboxDb
mark_failure now event message db = record db {
  events =
      update_where (is_outbox_event event.id)
        (λ e. record e {
          status =
              if leb max_attempts event.attempts then OutboxStatus.dead else OutboxStatus.pending;
          updated_at = now;
          next_attempt_at = next_attempt now event.attempts;
          last_error = some (safe_error message);
        })
        db.events;
}

abbrev pub is_notification_topic : Text → Bool
is_notification_topic topic =
    topic == codes "booking.created"
    || (topic == codes "booking.confirmed" || topic == codes "booking.payment_failed")

abbrev pub template_for : Text → Text
template_for topic =
    if topic == codes "booking.confirmed"
    then codes "booking-confirmed"
    else if topic == codes "booking.payment_failed"
    then codes "booking-payment-failed"
    else codes "booking-created"

-- `subjectFor`; 183 is the code of the dot between a subject and a booking's code.
unfoldable pub subject_for : Text → Text → Text
subject_for topic public_code =
    let dot = codes " " ++ (183 ∷ codes " ") in
    if topic == codes "booking.confirmed"
    then codes "Eventory ticket confirmed" ++ (dot ++ public_code)
    else if topic == codes "booking.payment_failed"
    then codes "Eventory payment needs attention" ++ (dot ++ public_code)
    else codes "Eventory booking started" ++ (dot ++ public_code)

unfoldable pub body_for : Text → Text → Text
body_for topic public_code =
    if topic == codes "booking.confirmed"
    then codes "Your booking "
      ++ (public_code ++ codes " is confirmed. Your tickets are ready in Eventory.")
    else if topic == codes "booking.payment_failed"
    then codes "Payment for booking "
      ++ (public_code ++ codes " did not complete. Please try checkout again.")
    else codes "Booking "
      ++ (public_code ++ codes " was created. Complete payment before the hold expires.")

-- `${topic}:${booking.id}:EMAIL`
abbrev pub dedupe_key : Text → Text → Text
dedupe_key topic booking_id = topic ++ (codes ":" ++ (booking_id ++ codes ":EMAIL"))

-- The `upsert` of a delivery: a row that is there stays as it is.
unfoldable pub upsert_delivery : Delivery → OutboxDb → Delivery × OutboxDb
upsert_delivery row db = elim (find_by (has_dedupe_key row.dedupe_key) db.deliveries) [
  | some d ↦ (d, db)
  | none ↦ (row, record db { deliveries = row ∷ db.deliveries })
]

abbrev pub set_delivery : Text → (Delivery → Delivery) → OutboxDb → OutboxDb
set_delivery key f db = record db { deliveries = update_where (has_dedupe_key key) f db.deliveries }

unfoldable pub mark_processing : Text → OutboxDb → OutboxDb
mark_processing key db =
    set_delivery key
      (λ d. record d {
        status = NotificationStatus.processing;
        attempts = d.attempts + 1;
        last_error = none;
      })
      db

-- The transaction that follows an accepted message.
unfoldable pub mark_sent : ℕ → Text → Text → OutboxDb → OutboxDb
mark_sent now key event_id db = mark_processed now event_id (
    set_delivery key
      (λ d. record d { status = NotificationStatus.sent; sent_at = some now; last_error = none })
      db)

-- The update of the delivery that was read as `processing`, when its message is refused.
unfoldable pub mark_undelivered : ℕ → Delivery → Text → OutboxDb → OutboxDb
mark_undelivered now processing message db =
    set_delivery processing.dedupe_key
      (λ d. record d {
        status =
            if leb max_attempts processing.attempts
            then NotificationStatus.dead
            else NotificationStatus.failed;
        next_attempt_at = next_attempt now processing.attempts;
        last_error = some (safe_error message);
      })
      db

-- The mail server accepts the message of a delivery.
abbrev pub accept : Text → OutboxDb → OutboxDb
accept key db = record db { mails = key ∷ db.mails }

-- The part of `dispatch` that follows the `upsert`, with the error that it throws, if any. `others`
-- are what other workers and services do to the tables ahead of each access to them; the message of
-- the error that the database throws for a missing row is left empty.
unfoldable pub deliver :
    ℕ
    → (ℕ → OutboxDb → OutboxDb)
    → (Delivery → Option Text)
    → OutboxEvent
    → Delivery
    → OutboxDb
    → Option Text × OutboxDb
deliver now others send event delivery db =
    if is_sent delivery.status
    then (none, mark_processed now event.id (others 1 db))
    else let updated = mark_processing delivery.dedupe_key (others 1 db) in
      elim (find_by (has_dedupe_key delivery.dedupe_key) updated.deliveries) [
        | none ↦ (some [], updated)
        | some processing ↦ elim (send processing) [
          | none ↦ (
            none,
            mark_sent now delivery.dedupe_key event.id
                (others 3 (accept delivery.dedupe_key (others 2 updated))),
          )
          | some e ↦ (some e, mark_undelivered now processing e (others 2 updated))
        ]
      ]

-- The row that the `upsert` creates.
abbrev pub new_delivery : ℕ → OutboxEvent → Addressee → Delivery
new_delivery now event booking = record {
  dedupe_key = dedupe_key event.topic booking.booking_id;
  outbox_event_id = event.id;
  booking_id = booking.booking_id;
  recipient = booking.email;
  template = template_for event.topic;
  status = NotificationStatus.pending;
  attempts = 0;
  next_attempt_at = now;
  sent_at = none;
  last_error = none;
}

abbrev pub message_for : OutboxEvent → Addressee → Delivery → Message
message_for event booking processing = record {
  recipient = processing.recipient;
  subject = subject_for event.topic booking.public_code;
  text = body_for event.topic booking.public_code;
}

-- `dispatch`
unfoldable pub dispatch :
    (Message → Option Text)
    → (ℕ → OutboxDb → OutboxDb)
    → ℕ
    → OutboxEvent
    → OutboxDb
    → Option Text × OutboxDb
dispatch send others now event db =
    if not (is_notification_topic event.topic)
    then (none, mark_processed now event.id db)
    else elim event.booking_id [
      | none ↦ (some (codes "Notification outbox event has no booking aggregate"), db)
      | some booking_id ↦
          elim (find_by (λ (b : Addressee). b.booking_id == booking_id) db.bookings) [
            | none ↦ (some (codes "Booking notification aggregate no longer exists"), db)
            | some booking ↦
                let (delivery, stored) =
                  upsert_delivery (new_delivery now event booking) (others 0 db) in
                deliver now others (λ processing. send (message_for event booking processing)) event
                  delivery stored
          ]
    ]

-- The `for` of `processOnce`; the other workers come before each event and at its accesses.
unfoldable pub process_claimed :
    (OutboxEvent → Message → Option Text)
    → (OutboxEvent → ℕ → OutboxDb → OutboxDb)
    → ℕ
    → List OutboxEvent
    → OutboxDb
    → OutboxDb
process_claimed send others now [] db = db
process_claimed send others now (event ∷ events) db =
    let (failure, done) = dispatch (send event) (others event) now event (others event 4 db) in
    let next : OutboxDb = elim failure [
      | none ↦ done
      | some e ↦ mark_failure now event e (others event 5 done)
    ] in
    process_claimed send others now events next

-- `processOnce`, when the claim does not fail; `limit` is a whole number.
unfoldable pub process_once :
    (OutboxEvent → Message → Option Text)
    → (OutboxEvent → ℕ → OutboxDb → OutboxDb)
    → ℕ
    → ℕ
    → OutboxDb
    → ℕ × OutboxDb
process_once send others limit now db =
    let (claimed, leased) = claim (max 1 (min limit 100)) now db in
    (length claimed, process_claimed send others now claimed leased)
