-- ===== src/Lib.antt =====
-- The core of the HAKAWI backend, a NestJS service for reading, renting and selling books: what its
-- money, its entitlements, its contests, its moderation, its cache, its migrations, its access
-- control and its protection of outgoing calls promise.
--
-- Parts, and the files of the repository that they model:
--
-- * Payments models backend/src/modules/payments. Store has the rows and events, Repository the
--   methods of repositories/payments.repository.ts that write, Service and Refunds those of
--   payments.service.ts, Reads what only reads in both, Webhook `handlePaymobWebhook` and the
--   payload of clients/paymob.schemas.ts. Capacity, Statuses, Checkout, Stats,
--   Webhook.Settlement, Webhook.Laws and Webhook.Deliveries have the proofs.
-- * Rentals models backend/src/modules/rentals: Store the rows, with the prices of
--   packages/shared-types/src/book.ts; Repository repositories/rentals.repository.ts; Service
--   rentals.service.ts, with `resolvePaymobPaymentMethodId` of backend/src/config/paymob.config.ts;
--   Events events/rentals.event-handler.ts. Access, Grants, Extensions, Extensions.Paid, Reads
--   and History have the proofs.
-- * Contests models backend/src/modules/contests: Store the rows of types.ts; Repository
--   repositories/contests.repository.ts; Service, Entries and Reads contests.service.ts; Events
--   events/contests.event-handler.ts. History runs requests one after another; Lifecycle, Voting,
--   Ballots, Winners and Entrants have the proofs.
-- * Cache models backend/src/modules/shared/cache: Valkey is the interface of the store's commands
--   and of a value's encoding, Tagged has tagged-cache.service.ts with tag-generation.ts and
--   tag-index.ts, Readers cuts `getOrSet` at its `await options.load()` and runs it beside changes
--   of the source. Generations, Coherence and Race have the proofs.
-- * Migrations models backend/src/db/migrations/sql-statement-splitter.ts in Splitter; the modules
--   below it have the proofs.
-- * Moderation models backend/src/modules/moderation: Store and Service moderation.service.ts,
--   Enforcement events/moderation.event-handler.ts, with the restriction guard of Access as the
--   reader of what it caches. Enforcement and Escalation have the proofs.
-- * Resilience models backend/src/common/resilience: Breaker circuit-breaker.service.ts, Retry
--   retry.service.ts.
-- * Access models who may call a route: Roles packages/shared-types/src/user.ts, Permissions
--   backend/src/common/permissions/permissions.ts, Guards permissions.guard.ts and roles.guard.ts of
--   backend/src/common/guards, Restrictions restriction.guard.ts there and
--   backend/src/modules/moderation/restriction-policy.ts.
-- * Common has what these share: tables as lists, Boolean tests, texts as lists of code points, and
--   the monad of the service methods, in which an exception leaves the writes before it in place.
--
-- How they interact: payments announce `payment.completed` and `refund.completed`; the rentals read
-- the payment back by its id and write or end a rental. The world of the rentals holds the world of
-- the payments, so that an extension's charge is the real `paymobInitializePayment`. A history is a
-- list of such events, requests and waiting, in any order; overlapping calls of the circuit breaker
-- are a step relation, with `execute` cut at its `await fn()`. The contests announce their events,
-- and the handler gives the notifications that each of them asks for in the world after the request.
-- An action of a moderator is handled and cached, and the guard reads the cache at a later time. The
-- service methods of rentals and contests retire keys of the tagged cache; Cache says on its own
-- what such a retirement gives the readers.
--
-- Correspondence: a service method is a function from its arguments to an action on the world; an
-- HTTP exception is an `err` with the constant part of its message. An insert that names no value
-- for a column that is NOT NULL and has no default is refused, as the database refuses it:
-- `createTransaction` names neither the id nor the time of its row, against
-- backend/src/db/schema/payments.schema.ts and migrations/0035_create_partitioned_tables.sql.
-- Rows keep the order of insertion, an id that the database draws comes from the world, and the
-- clock of the world stands still during one method. Amounts are whole piastres, dates are
-- milliseconds, and adding days adds 86400000 each, as in a zone without changes of the clock. A
-- query for the newest row takes the later of two rows with the same time, a list keeps them as
-- they stand in the table; of two entries with as many votes the earlier one comes first, where
-- the database may choose. The gateway, the signature check, the decoder of a webhook body, the
-- copy that a cache holds, the database's `like`, the random source and the wrapped functions are
-- arguments; the commands of Valkey are a record of operations with their documented laws, over
-- keys that stand for the texts of cache, index and generation keys. The metadata of a payment is
-- an object whose fields are seen one level deep, with whole numbers; its JSON text is taken to
-- be read back as it was written. `trim` and `toLowerCase` are those of ASCII texts, and a record
-- that maps words is taken as having its own keys alone.
--
-- Bounds: the loop of the statement splitter runs on fuel, the length of its text, which is enough
-- as each round reads a code unit; no other loop needs fuel. The retry loop recurses on the rounds
-- that are left, `maxRetries + 1` at first, which its test of the last attempt never exhausts. A
-- backoff multiplier is a whole number, and a delay is exact where the source has a float.
--
-- Not modelled: concurrent transactions of the repositories, whose row lock makes each reservation
-- one step, and of the contests, whose checks and writes are one step; failures of the database and
-- of the cache in the middle of a method, and the lifetimes of the cache's keys but for the end of
-- an entry; the controllers, most of the mapping of rows to responses, logging; and the other
-- modules of the backend and the frontend.
pub mod Common
pub mod Payments
pub mod Resilience
pub mod Rentals
pub mod Access
pub mod Cache
pub mod Contests
pub mod Migrations
pub mod Moderation
