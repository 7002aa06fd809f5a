-- ===== src/Outbox/Delivery.antt =====
-- Notifications get out at least once (outbox.service.ts), whatever other workers do in between: a
-- dispatch relies on what they keep, and keeps the same for them.
use eventory.Common.{
  ℕ, min, max, ◌≡◌, refl, inl, inr, Bool, true, false, Option, none, List, [], ◌∷◌, arith, ◌==◌,
  nat_eq, Bool-cases, Option-cases, All, All-mono, includes, Text, text_beq_iff, text_eq,
  text_beq_refl, find_by, update_where, All-update_where,
}
use eventory.Outbox.Service.{
  OutboxEvent, Delivery, Addressee, OutboxDb, Message, has_dedupe_key, is_sent, mark_processed,
  mark_processing, mark_sent, mark_undelivered, accept, new_delivery, message_for, mark_failure,
  upsert_delivery, deliver, dispatch, process_claimed, process_once, claim, dedupe_key,
  is_notification_topic,
}

-- The mail server has accepted a message for the key.
abbrev pub is_mailed : Text → OutboxDb → Bool
is_mailed key db = includes db.mails key

-- A delivery that is marked as sent has had its message accepted.
abbrev pub IsBacked : OutboxDb → Type 0
IsBacked db = All (λ d. is_sent d.status ≡ true → is_mailed d.dedupe_key db ≡ true) db.deliveries

-- What a change of the tables keeps: no accepted message is forgotten, and sent deliveries stay backed.
pub record Follows (db after : OutboxDb) : Type 0 where
  pub backed : IsBacked db → IsBacked after
  pub kept : (key : Text) → is_mailed key db ≡ true → is_mailed key after ≡ true

-- What is relied on of the other workers and services.
abbrev pub IsFair : (ℕ → OutboxDb → OutboxDb) → Type 0
IsFair others = (n : ℕ) (db : OutboxDb) → Follows db (others n db)

Follows-refl : (db : OutboxDb) → Follows db db
Follows-refl db = record { backed = λ h. h; kept = λ key h. h }

Follows-trans : {a b c : OutboxDb} → Follows a b → Follows b c → Follows a c
Follows-trans f g = record {
  backed = λ h. g.backed (f.backed h);
  kept = λ key h. g.kept key (f.kept key h);
}

mark_processed-Follows :
    (now : ℕ) (id : Text) (db : OutboxDb) → Follows db (mark_processed now id db)
unfolding mark_processed
mark_processed-Follows now id db = record { backed = λ h. h; kept = λ key h. h }

mark_failure-Follows :
    (now : ℕ) (event : OutboxEvent) (message : Text) (db : OutboxDb)
    → Follows db (mark_failure now event message db)
unfolding mark_failure
mark_failure-Follows now event message db = record { backed = λ h. h; kept = λ key h. h }

claim-Follows : (limit now : ℕ) (db : OutboxDb) → Follows db (claim limit now db).1
unfolding claim
claim-Follows limit now db = record { backed = λ h. h; kept = λ key h. h }

-- An update that marks no delivery as sent.
unsent-Follows :
    (key : Text) (f : Delivery → Delivery) (db : OutboxDb)
    → ((d : Delivery) → is_sent (f d).status ≡ false)
    → Follows db (record db { deliveries = update_where (has_dedupe_key key) f db.deliveries })
unsent-Follows key f db never = record {
  backed = λ h.
      All-update_where (λ d. is_sent d.status ≡ true → is_mailed d.dedupe_key db ≡ true)
        (has_dedupe_key key) f db.deliveries
        (λ d _ _ sent. let open_row = never d in absurd (ground arith)) h;
  kept = λ k h. h;
}

pub mark_processing-Follows : (key : Text) (db : OutboxDb) → Follows db (mark_processing key db)
unfolding mark_processing
mark_processing-Follows key db = unsent-Follows key _ db (λ d. refl)

mark_undelivered-Follows :
    (now : ℕ) (d : Delivery) (message : Text) (db : OutboxDb)
    → Follows db (mark_undelivered now d message db)
unfolding mark_undelivered
mark_undelivered-Follows now d message db = unsent-Follows d.dedupe_key _ db (λ x. ground arith)

accept-mailed : (key : Text) (db : OutboxDb) → is_mailed key (accept key db) ≡ true
unfolding includes
accept-mailed key db = rw (text_beq_refl key) refl

accept-Follows : (key : Text) (db : OutboxDb) → Follows db (accept key db)
unfolding includes
accept-Follows key db = record {
  backed = λ h.
      All-mono (λ d. is_sent d.status ≡ true → is_mailed d.dedupe_key db ≡ true)
        (λ d. is_sent d.status ≡ true → is_mailed d.dedupe_key (accept key db) ≡ true) db.deliveries
        (λ d old sent. let before = old sent in ground arith) h;
  kept = λ k h. ground arith;
}

mark_sent-Follows :
    (now : ℕ) (key event_id : Text) (db : OutboxDb)
    → is_mailed key db ≡ true
    → Follows db (mark_sent now key event_id db)
unfolding mark_sent mark_processed
mark_sent-Follows now key event_id db mailed = record {
  backed = λ h.
      All-update_where (λ d. is_sent d.status ≡ true → is_mailed d.dedupe_key db ≡ true)
        (has_dedupe_key key) _ db.deliveries
        (λ d this _ _. rw ((text_beq_iff d.dedupe_key key).0 this) mailed) h;
  kept = λ k h. h;
}

upsert_delivery-Follows :
    (row : Delivery) (db : OutboxDb)
    → is_sent row.status ≡ false
    → Follows db (upsert_delivery row db).1
unfolding upsert_delivery
upsert_delivery-Follows row db open_row =
    elim (Option-cases (find_by (has_dedupe_key row.dedupe_key) db.deliveries)) [
      | inr (d, there) ↦ rw (upsert_delivery, there) (Follows-refl db)
      | inl fresh ↦
          rw (upsert_delivery, fresh)
            (record { backed = λ h. ((λ sent. absurd (ground arith)), h); kept = λ k h. h })
    ]

module _ (others : ℕ → OutboxDb → OutboxDb) (fair : IsFair others) (now : ℕ) where
  -- What a step that ends without an error has got accepted.
  abbrev GetsOut : Text → Option Text × OutboxDb → Type 0
  GetsOut key (failure, after) = failure ≡ none → is_mailed key after ≡ true

  deliver-is_mailed :
      (send : Delivery → Option Text) (event : OutboxEvent) (d : Delivery) (db : OutboxDb)
      → Follows db (deliver now others send event d db).1
        × ((is_sent d.status ≡ true → is_mailed d.dedupe_key db ≡ true)
            → GetsOut d.dedupe_key (deliver now others send event d db))
  unfolding deliver
  deliver-is_mailed send event d db = elim (Bool-cases (is_sent d.status)) [
    | inl closed ↦
        let ahead = fair 1 db in
        let marked = mark_processed-Follows now event.id (others 1 db) in
        rw (deliver, closed)
          (
            Follows-trans ahead marked,
            λ read _. marked.kept d.dedupe_key (ahead.kept d.dedupe_key (read refl)),
          )
    | inr open_row ↦
        let updated = mark_processing d.dedupe_key (others 1 db) in
        let so_far =
          Follows-trans (fair 1 db) (mark_processing-Follows d.dedupe_key (others 1 db)) in
        elim (Option-cases (find_by (has_dedupe_key d.dedupe_key) updated.deliveries)) [
          | inl gone ↦ rw (deliver, open_row, gone) (so_far, λ read failed. absurd (ground arith))
          | inr (processing, found) ↦ elim (Option-cases (send processing)) [
            | inr (e, refused) ↦
                rw (deliver, open_row, found, refused)
                  (
                    Follows-trans so_far (
                        Follows-trans (fair 2 updated)
                          (mark_undelivered-Follows now processing e (others 2 updated))),
                    λ read failed. absurd (ground arith),
                  )
            | inl accepted ↦
                let mailed = accept d.dedupe_key (others 2 updated) in
                let there =
                  (fair 3 mailed).kept d.dedupe_key
                    (accept-mailed d.dedupe_key (others 2 updated)) in
                let end_step =
                  mark_sent-Follows now d.dedupe_key event.id (others 3 mailed) there in
                rw (deliver, open_row, found, accepted)
                  (
                    Follows-trans so_far (
                        Follows-trans (fair 2 updated) (
                          Follows-trans (accept-Follows d.dedupe_key (others 2 updated))
                            (Follows-trans (fair 3 mailed) end_step))),
                    λ read _. end_step.kept d.dedupe_key there,
                  )
          ]
        ]
  ]

  dispatch-Follows :
      (send : Message → Option Text) (event : OutboxEvent) (db : OutboxDb)
      → Follows db (dispatch send others now event db).1
  unfolding dispatch
  dispatch-Follows send event db = elim (Bool-cases (is_notification_topic event.topic)) [
    | inr other ↦ rw (dispatch, other) (mark_processed-Follows now event.id db)
    | inl listed ↦ elim (Option-cases event.booking_id) [
      | inl missing ↦ rw (dispatch, listed, missing) (Follows-refl db)
      | inr (id, given) ↦
          elim (Option-cases (find_by (λ (b : Addressee). b.booking_id == id) db.bookings)) [
            | inl gone ↦ rw (dispatch, listed, given, gone) (Follows-refl db)
            | inr (b, found) ↦
                let row = new_delivery now event b in
                let stored = upsert_delivery row (others 0 db) in
                rw (dispatch, listed, given, found)
                  (Follows-trans (fair 0 db) (
                    Follows-trans (upsert_delivery-Follows row (others 0 db) refl)
                      (deliver-is_mailed (λ processing. send (message_for event b processing)) event
                        stored.0 stored.1).0))
          ]
    ]
  ]

module _ (send : OutboxEvent → Message → Option Text)
    (others : OutboxEvent → ℕ → OutboxDb → OutboxDb)
    (fair : (event : OutboxEvent) → IsFair (others event)) (now : ℕ) where
  process_claimed-Follows :
      (events : List OutboxEvent) (db : OutboxDb)
      → Follows db (process_claimed send others now events db)
  unfolding process_claimed
  process_claimed-Follows [] db = Follows-refl db
  process_claimed-Follows (event ∷ events) db =
      let start = others event 4 db in
      let ended = dispatch (send event) (others event) now event start in
      let one =
        Follows-trans (fair event 4 db)
          (dispatch-Follows (others event) (fair event) now (send event) event start) in
      elim (Option-cases ended.0) [
        | inl fine ↦
            rw (process_claimed, fine) (Follows-trans one (process_claimed-Follows events ended.1))
        | inr (e, failed) ↦
            let later = others event 5 ended.1 in
            rw (process_claimed, failed)
              (Follows-trans one (
                Follows-trans (fair event 5 ended.1) (
                  Follows-trans (mark_failure-Follows now event e later)
                    (process_claimed-Follows events (mark_failure now event e later)))))
      ]

  -- A pass of a worker keeps what the dispatches of the others rely on.
  process_once-Follows :
      (limit : ℕ) (db : OutboxDb) → Follows db (process_once send others limit now db).1
  unfolding process_once
  process_once-Follows limit db = Follows-trans (claim-Follows (max 1 (min limit 100)) now db) (
      process_claimed-Follows (claim (max 1 (min limit 100)) now db).0
        (claim (max 1 (min limit 100)) now db).1)
