-- ===== src/Lib.antt =====
-- Eventory, a ticketing service: seats are held in Redis, bookings are paid through a provider that
-- reports by webhooks, tickets are issued and checked in. This library models the services of
-- apps/api/src/modules, with the code's words in the spelling of this language (`seat_ids` for
-- `seatIds`, `assert_owned_hold` for `assertOwnedHold`).
--
-- The parts and their files:
--   Common, Errors, Domain, Uuid   texts, tables as lists of rows, sorting, results and exceptions, the
--       enumerations of apps/api/prisma/schema.prisma, and the UUID pattern of `isUuid`.
--   Seating   seating/seat-hold.constants.ts and seating/seating.service.ts: Redis (the interface of
--       the server), Holds (keys and scripts), Checks and Owned (the checks), Service (`hold`), Change
--       (`release`, `renew`, `releaseConfirmedHold`), Availability; the proofs in Keys, Scripts,
--       Exclusion, Selection, Ownership, Checkout and Replay.
--   Bookings  bookings/bookings.service.ts and what it imports. The checkout: Sale (the snapshot and the
--       price), Idempotency (the records of a request), Initialize (the provider's answer), Checkout
--       (the transaction) and Create (`create`, `getBooking`); the proofs in Items, Priced and
--       Resubmit.
--       Provider: the claim of a payment for an attempt at the provider, `persistProviderPayment` and
--       `recordProviderFailure`, with the proofs in Attempts. The payments: Model (the rows), View
--       (`toView`), Inventory (the sale of seats), Webhook (`applyPaymentWebhook`) and Handler
--       (`handlePaymentWebhook` up to the release of the seats); the proofs in Cases, Balance,
--       Settlement, Capture, Replay, Fulfillment and Issue (the link to Seating). The passes of the
--       worker: Workers, with the proofs in Expiry and Passes.
--   Tickets   tickets/ticket-qr.service.ts, tickets/tickets.service.ts and the signing keys: Keys, Qr
--       (`createPayload`, `verifyPayload`), Service (the tickets of a user); the proofs in RoundTrip,
--       Signed, Listing and Scan (the link to CheckIn).
--   Organizations, Slug   organizations/organizations.service.ts: `assertAccess` and `addMember` in
--       Organizations, Create (`create`, `getForMember`, `listForUser`) and Slug (`slugify`); the proofs
--       in Founder.
--   Events    events/event-lifecycle.ts and events/events.service.ts: Lifecycle, Model, Service (the
--       operations that write); the proofs in Progress, Runs and Course.
--   CheckIn   check-in/check-in.service.ts: Service (`check`, in the part that reads and the
--       transaction), and Once.
--   Outbox    outbox/outbox.service.ts: Service (`processOnce`, `claim`, `dispatch` and the marks, with
--       what other workers do between two accesses to the tables), and Delivery.
--   Identity  identity/identity.service.ts and password-policy.ts: Service (the refresh tokens and the
--       password policy) and Accounts (`register`, `login`, the cookies); the proofs in Rotation and
--       Entry.
--   Admin     admin/admin.service.ts: Service, and Moderation (the link to Identity).
--   Security  apps/api/src/common: Request (headers and cookies), Origin and Guards (the guards on
--       origins, tokens, roles and memberships), and Authorized.
--   RateLimit apps/api/src/common/security/rate-limit.guard.ts: Guard (the buckets), and Bound.
--   Paging    the pages of the lists, and Cover.
--   The modules named Examples or Samples run the definitions on concrete data.
--
-- How they interact: a checkout asks Seating to vouch for a hold before it makes a booking, and so does
-- `applyPaymentWebhook` before it sells the seats. `owned` there is what `assertOwnedHold` throws for the
-- booking, if anything. A check-in reads the ticket that a QR payload names after Tickets has verified
-- it. Events, CheckIn and the other services for organisers ask Organizations for access, and
-- the guard of Security reads the same memberships. Bookings put messages into the outbox, which Outbox delivers. Admin revokes
-- the refresh tokens of Identity.
--
-- Conventions. A text is the list of its code units; an identifier is a text; a time is a number of
-- milliseconds. What the code draws at random and each reading of the clock is an argument; `now` is the
-- reading that the code branches on, `later` the one that it stores; an operation on holds has one
-- reading, and so has a pass of the worker. A table is the list of its rows, found by the conditions of
-- the query. A transaction returns its value and the new tables, or an exception and with it the old
-- tables; it is one step, since the code locks the booking's row. A checkout has three steps: what it
-- reads, the transaction, and the rest; the transition of an event has two, its reading and its update,
-- and the other operations on events have one. A script runs as one step on the Redis server, whose GET, SET
-- and DEL are an interface with their documented behaviour as laws; a value in Redis is the document
-- that the code writes, before it is made a text. The digests of node:crypto, argon2, `JSON.stringify`,
-- `Number`, `new Date`, `new URL`, `decodeURIComponent`, `toUpperCase`, `toLowerCase`, the library of
-- access tokens, the payment provider and the mail server are arguments, and so is `normalize`. Of an
-- audit record only the action, the resource and in some parts the user are kept. Amounts, counts and times are natural numbers without an upper
-- bound. There is no fuel: each loop of the code runs along a list.
--
-- Not modelled: the sockets of the seating gateway; analytics; venues; the queries and the slugs of
-- events; the timers of the workers; controllers and modules, which are wiring; the web client; the
-- clients of PostgreSQL and Redis. In the outbox, a database write that fails after the mail server
-- has accepted a message is not modelled, nor is a claim that fails.
pub mod Common
pub mod Errors
pub mod Domain
pub mod Paging
pub mod Admin
pub mod Security
pub mod Tickets
pub mod Uuid
pub mod Seating
pub mod Slug
pub mod Bookings
pub mod Organizations
pub mod Events
pub mod CheckIn
pub mod Outbox
pub mod Identity
pub mod RateLimit
