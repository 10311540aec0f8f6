-- ===== src/Lib.antt =====
-- The ride service (ride-service/), a Go program: riders ask for trips over HTTP, a matcher picks the
-- nearest driver, and clients follow a trip over a web socket.
--
-- How the parts interact. `trips` inserts a trip and publishes ride.requested; `matching` reads
-- that topic, asks Redis for the nearest driver, publishes driver.assigned and takes the driver
-- out of the set; `trips` reads driver.assigned and assigns the driver in the table. Starting and
-- ending a trip are requests to `trips`, which publishes trip.completed. `tracking` keeps the
-- sockets of each trip. `main` connects to the servers one after the other, applies the migrations
-- and mounts the routes of all components in one router behind `OptionalAuth`.
--
--   Base                 the library's names, and what the components share: Base.Outcome is a Go
--                        `(value, error)`, Base.Runtime the floats and times as a parameter `Go`,
--                        Base.Dict a Go map as an association list
--   Events               ride-service/internal/events/events.go, and encoding/json as a parameter
--   Kafka                ride-service/pkg/kafka/client.go: `Publish`, the loop of `Subscribe`,
--                        Kafka.Topics `EnsureTopics`; Delivery and Once prove
--   Redis                ride-service/pkg/redis/client.go: the set of driver locations, Redis.Connect
--                        `NewClient`, Redis.Cache the cache of trips
--   Db                   ride-service/pkg/db/postgres.go: Connect and Migrations the code, Files the
--                        sorting of names; the other modules prove
--   Matching             ride-service/internal/matching/matcher.go: the handler of `Start`
--   Http, Auth           what handlers see of net/http; ride-service/pkg/jwt/jwt.go: tokens, middleware
--   Tracking             ride-service/internal/tracking/ws.go: `HandleWS`, `removeConn`,
--                        `BroadcastLocation` over a heap of arrays, since slices share theirs;
--                        Sessions the calls of `HandleWS` that have not returned
--   Validation           ride-service/pkg/validation/validation.go: the five validators
--   Trips                ride-service/internal/trips/: Model the data, Store the table and its
--                        statements, Service the operations, Handler the endpoints (handler.go); the
--                        other modules prove
--   Accounts             what ride-service/internal/users/ and drivers/ share: the table, bcrypt, the
--                        steps from the INSERT on, and the lemmas on them
--   Users                ride-service/internal/users/: Model, Store the table's columns, Service the
--                        operations, Accounts what they guarantee, Handler the endpoints
--                        (handler.go), Replies what they tell, Endpoints what all guarantee
--   Drivers              ride-service/internal/drivers/: Model, Store, Service and Handler in the same
--                        way; Locations the endpoints `UpdateLocation` and `GetNearby` (handler.go)
--                        and their operations; Routes; Accounts, Answers and Endpoints prove
--   Server               ride-service/cmd/main.go: Startup the steps up to the services, Lifetime the
--                        listener, the signals and the end; Model and Router the router over the
--                        state of all components, Contract what each endpoint may answer; Process the
--                        program as it runs: requests, goroutines, consumers and sockets in any
--                        order; the other modules prove
--
-- State and operations. An operation is a function from the state it shares to the new state and
-- its result. A Go error is its text. Trips.Service.World is the database, the messages that the
-- brokers hold, and the goroutines that were spawned and have not run. `time.Now()` and
-- `uuid.New()` are arguments. Trips.System lets requests, goroutines and the consumer run in any
-- order, and splits `End` where another request can come between its read and its update.
-- Server.Process.Process is the state of all components with the Ends and the calls of `HandleWS`
-- that are under way; its steps also have the matcher, which reads what stands in the topics, the
-- INSERT of a registration whose checks have run before, and the steps of a socket's call. A message
-- may be handed to a consumer at any time and again. A goroutine's work, and a round of the matcher,
-- is one step. Trips.Traced says what stands behind a message: the row of its trip.
--
-- Parameters. What is not in the repository is a record of functions with a record of laws:
-- PostgreSQL (Postgres, IsPostgres for trips; AccountSql, IsAccountSql for accounts; MigrationSql,
-- IsMigrationSql for migrations), golang-jwt (GoJwt, IsGoJwt), the brokers (Broker, IsBroker),
-- Redis (Redis, IsRedis; RedisHashes, IsRedisHashes), encoding/json (Json, IsJson), bcrypt
-- (Bcrypt, IsBcrypt), and float64 and time (Go, which has no laws). What dialling a server answers
-- in each round is a function of the round. A law says what the documentation says, for instance
-- that a statement takes effect as a whole or not at all, and that a write without an error was
-- stored at least once. A UUID column gives the text of a driver's id back in its own form, which
-- `Postgres.uuid` is; the other ids that are stored come from `uuid.New()`, directly or in a
-- token, and have that form already. A `Query` holds every field that the code sets; that the
-- answer begins with the nearest is a law for the order "ASC" only. That each message of a topic
-- comes to a reader once is a hypothesis where it is used (Kafka.Once.IsReadOnce). Trips.Memory,
-- Accounts.Memory, Db.Memory, Redis.Everywhere, Auth.OneToken and the tests have instances, at
-- which the laws are proved and the theorems applied.
--
-- Bounds. No definition takes fuel. The loops of `Connect`, `NewClient` and `EnsureTopics` recurse
-- on the rounds that are left, of 30, 20 and 20, as in the code. The other loops are over lists,
-- and the loop of `Subscribe`, which only the context ends, is over the reads it gets. Texts are
-- lists of code points, which a text decoded from JSON is; a length in bytes is that of its UTF-8.
-- Floats are abstract, so that no theorem assumes a law of exact arithmetic.
--
-- Not modelled: go-chi, its path patterns and its own middleware (a request names its endpoint);
-- what `Shutdown` and the deferred calls of `main` do, of which only the order is stated; what
-- another step does between the three calls of one round of the matcher; what the scripts in
-- ride-service/migrations/ do, whose constraints are laws of the tables; logging; Kafka's
-- partitions and consumer groups, of which only the order of the values that one reader gets, and
-- that each comes once, is used; the transport of a web socket.
pub mod Base
pub mod Events
pub mod Kafka
pub mod Redis
pub mod Http
pub mod Auth
pub mod Accounts
pub mod Matching
pub mod Tracking
pub mod Validation
pub mod Db
pub mod Trips
pub mod Users
pub mod Drivers
pub mod Server
