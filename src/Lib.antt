-- ===== src/Lib.antt =====
-- The earthquake service. Provider workers read the catalogues of USGS, EMSC, GEOFON and KNDC and
-- publish observations; the core correlates them into incidents and publishes every change of one;
-- the notification service raises triggers for subscriptions and delivers webhooks and Telegram
-- messages. The services share a PostgreSQL database and a Kafka broker.
--
-- Files, and the code that they model (paths from the root of the repository):
--   Prelude, Prelude/*         shared names, lists and integers over the native numbers
--   Go/Float                   float64 and `math` as interfaces, the laws of IEEE 754 comparison, and
--                              fixed point as an instance that runs
--   Go/Time, Go/Text, Go/Sql   time.Time and time.Duration with the saturation of Sub, strings, and
--                              what SQL statements do to a table
--   Earthquake/Solution        internal/domain/earthquake/correlation.go: ResolveLifecycle,
--                              StrongerSolution, PreferCanonicalSource and their ranks
--   Earthquake/Event           internal/domain/earthquake/model.go: Event, Event.Validate
--   Earthquake/Correlation     internal/domain/earthquake/correlation.go: CorrelationPolicy.Correlate
--                              (rank_candidates, sort, decide) and score
--   Eventstream/Messages, Eventstream/Snapshots, Eventstream/Contracts
--                              internal/eventstream/contracts.go
--   Ingestion/Batches, Ingestion/Poll, Ingestion/Backfill
--                              internal/ingestion/service.go: Poll, ApplyRealtime, RecoveryRange,
--                              RunBackfill
--   Messaging/Inbox            internal/repository/postgres/messaging.go: ApplyProviderMessage,
--                              ApplyIncidentMessage
--   Messaging/Outbox           internal/repository/postgres/messaging.go: the statements on the
--                              outbox; internal/core/outbox.go: OutboxRelay
--   Notification/Subscription  internal/domain/notification/model.go: Triggers, IntensityTriggers,
--                              Subscription.Validate
--   Notification/Alert         internal/repository/postgres/telegram_alert.go
--   Notification/Delivery      internal/repository/postgres/notification.go: Claim,
--                              CompleteDelivery, RetryDelivery
--   Notification/Worker        internal/notification/worker.go: deliverTelegramAlert, deliver, send,
--                              retryDelay, parseRetryAfter
--   Repository/Tables, Repository/Matching, Repository/Changes, Repository/Statements,
--   Repository/Known, Repository/Constraints, Repository/Events
--                              internal/repository/postgres/repository.go: the tables, the query and
--                              decision of correlationDecision, the statements of applyEvent, its
--                              branches for a known source record, the constraints that migrations/
--                              put on the tables, and applyEvent
--   Repository/Notices, Repository/Selection, Repository/Deliveries,
--   Repository/Refreshing      internal/repository/postgres/repository.go: createDeliveries,
--                              refreshTelegramAlertMessages and what they use
--   Repository/Runs            internal/repository/postgres/repository.go: StartRun, FinishRun, State,
--                              setState
--   Repository/Batch           internal/repository/postgres/repository.go: applyBatch, ApplyBatch;
--                              its child Delivered composes it with ApplyProviderMessage
--   Repository/Consistency     what the tables keep true, and the proofs for each statement
--   Shaking                    internal/domain/shaking/model.go: EstimateAt, CandidateRadiusKM
--   Realtime/Hub               internal/realtime/hub.go: Hub
--   Api/Limiter                internal/httpapi/server.go: rateLimiter
--   Config                     internal/config/config.go: Config, validate
--   Tests                      the theorems at concrete inputs, and runs of the modelled code
-- Definitions keep the names of the source in snake case. A child module named for what it proves
-- (Laws, Decision, Rows, Once, ...) holds the proofs about its parent.
--
-- How the parts fit: a message of Eventstream carries an Event of Earthquake and passes the inbox of
-- Messaging, whose effect on the tables of Repository is applyBatch; it leaves by the outbox.
-- Notification reads the Event of a change, and its worker composes the statements of Alert and
-- Delivery. Config bounds the numbers that the loops of Ingestion and the workers run on. Realtime
-- passes the changes on to the browsers that Api admits.
--
-- Representation: a pointer that may be nil is an Option; a Go string type with constants is a data
-- type with a constructor for other texts; a table is the list of its rows, and a transaction is one
-- function. int and int64 are integers without bounds, except where the source can leave them: the
-- saturation of time.Sub, the negation of the least Duration, the product in parseRetryAfter and the
-- versions that applyEvent counts up, which wrap around.
-- Counts that start at zero are natural numbers.
--
-- Parameters: float64 and the functions of math, url.Parse, the hashing of payloads and identities,
-- the order of UUID texts, formats of times, Telegram and the webhook exchange, the publisher, the
-- distance test of PostGIS, the identities that gen_random_uuid draws, which rows another transaction
-- has locked, which bytes are JSON, and which statement fails for another reason than a constraint.
-- The JSON codec may rewrite the raw payload of an observation to other JSON, and gives back all else
-- of a message as it is. The effect behind the inbox is a parameter of Messaging/Inbox, which
-- Repository/Batch/Delivered fills with applyBatch. The effects of a batch besides applyEvent
-- (createDeliveries, refreshTelegramAlertMessages, enqueueIncidentChange) are a record of functions
-- that may fail: the theorems hold for whatever they do, and notice_effects is the record of the
-- modelled createDeliveries and refreshTelegramAlertMessages.
--
-- Errors of the database: a transaction of applyEvent fails when the tables behind its statements
-- break a constraint that the migrations declare. A row is written once in it, so that the
-- constraints can be read off these tables. The references between the tables are the consistency of
-- Repository/Consistency. Elsewhere a statement fails where it finds no row.
--
-- Fuel: the loop over the pages of a window runs on fuel, since only the provider decides how many
-- there are. The loop over windows has enough fuel with the number of chunks in the range, rounded
-- up. The loop over batches has the number of events, which is always enough. applyEvent starts again
-- when its INSERT finds the identity taken, which consistent tables exclude: fuel for one run is
-- enough for them.
--
-- Not modelled: process start-up, the Kafka client, metrics, the clock, HTTP handlers and clients,
-- the query layer, administration, the bot, the TOML file, the text of Telegram messages, concurrent
-- transactions on the tables of repository.go (its advisory lock and row locks order them), and the
-- microseconds to which the database keeps a time.
pub mod Prelude
pub mod Go
pub mod Earthquake
pub mod Eventstream
pub mod Ingestion
pub mod Messaging
pub mod Notification
pub mod Repository
pub mod Shaking
pub mod Realtime
pub mod Api
pub mod Config
pub mod Tests
