-- ===== src/Lib.antt =====
-- A verification library for canton-pillar: the logic of its TypeScript API, packages and services.
--
-- The program is a monorepo. apps/api is a Fastify server; a mutating request passes its middleware
-- (authentication, rate limit, idempotency), a handler that writes to PostgreSQL, and hooks on the
-- reply. Events that the database logs are tailed into a broker that streams them to clients.
-- packages/ holds what the processes share: idempotency, migrations, security, the contracts of the
-- API. services/ holds small servers: identity, onboarding, usage metering, the validator registry.
--
-- Base: Booleans, lists, texts as code units, results, and a stable sort; nothing of the program.
--
-- Idempotency: packages/idempotency. Store is src/state-machine.ts (`claim`, `complete`, `release`) with
--   the update `bindClaimToOperation` of apps/api/src/db/intent-enqueue.ts, which Api/Enqueue runs; the table idempotency_keys
--   is a list of rows, and a failing statement or a taken advisory lock is an argument. Decimal and
--   Canonical are src/canonical-hash.ts, with JSON as a data type; sha256 and localeCompare are
--   parameters. Canonical/Request has `canonicalRequestHash` and src/request-fingerprint.ts.
-- Api: apps/api. Errors is src/errors; PathTemplate and Idempotency are src/middleware/idempotency.ts
--   with src/http/idempotency-store.ts, and Idempotency/Lifecycle runs a request through the hooks and
--   its handler, Idempotency/Memory with the store in memory. Sse is src/services/sse-broker/Broker.ts; RateLimit is src/middleware/rate-limit.ts.
--   Auth is src/middleware/auth.ts with src/repositories/api-key-repo.ts.
--   Cache is src/cache: the read-through cache, its pool of clients and its keys.
--   Tailer is src/services/sse-broker/EventLogTailer.ts over the broker, with Tailer/Polls for what
--   repeated polls publish.
--   Projection is src/repositories/projection-repo.ts and, in Projection/Routes, the lists of
--   src/routes/v1/balances.ts and holdings.ts, with the demo data and what the cache holds; Projection/Pages says which rows they may show.
--   Transaction is src/db/transaction.ts over any statements, and Enqueue is src/db/intent-enqueue.ts on
--   it, over the tables of IntentRows, with Enqueue/Recorded for what they hold afterwards.
--   Network is src/middleware/network.ts with the queries of src/repositories/network-repo.ts.
-- Db: packages/db/src/migration-runner.ts: the files, the plan, `up`, `status` and `dryRun`. What a
--   script does to the database is a parameter.
-- Events: packages/api-contracts/src/schemas/events/registry.ts, the whole table, and the wildcard
--   subscriptions of apps/api/src/events/registry.ts over it.
-- Security: packages/security/src/webhook. Webhook is sign.ts and verify.ts over an HMAC that is a parameter;
--   Webhook/Verdict says what a successful verification means, Webhook/Roundtrip builds and verifies.
--   IdToken is src/oauth/jwks.ts and google.ts, the verification of Google's identity tokens, and
--   ServiceToken is src/jwt/internal.ts; Tokens splits both kinds.
-- Onboarding: services/onboarding/src: engine.ts and the handlers under steps;
--   Onboarding/NextAction is what a session asks for next, with the routes of server.ts.
-- Identity: services/identity/src: the repositories in memory and the invitations, with
--   Identity/Invitations for histories of them; Identity/Provisioning is the first sign-in, and
--   Identity/Owners says which memberships it adds.
-- Receiver: apps/webhook-receiver/src/server.ts, the capture buffer behind its routes.
-- Usage: services/usage-meter/src: the consumer, the rollups and their reconciliation;
--   Usage/Quantity has BigInt on a text and String on a bigint.
-- Registry: services/validator-registry/src: the store, the policy, the resolver and the handlers that
--   verify, activate, bind and pause; Registry/Creation has the creations and the health
--   reports, Registry/Exposure is about the validators that are listed.
--
-- Web: apps/web/src/app/get-api-keys/GetApiKeysPageClient.tsx. Email is its regular expression; Generate the
--   mock keys, over parameters for the calls of Math.random; Keys the wizard's state, handlers and
--   controls, with Keys/Sections for what a step shows and Keys/Flow for runs of it.
--
-- Fuel: the two regular expressions of PathTemplate run on the length of the text, and the digits of a
-- number n on n + 1; each step takes at least one unit, or divides by ten. All other loops are
-- structural. Numbers of the program are natural numbers below 2^53, where JavaScript is exact.
--
-- Not modelled: the other user interfaces, the routes and most repositories of the API, the billing
-- service, the schemas and generated code, and everything that is not TypeScript.
pub mod Api
pub mod Base
pub mod Db
pub mod Events
pub mod Idempotency
pub mod Identity
pub mod Onboarding
pub mod Receiver
pub mod Registry
pub mod Security
pub mod Usage
pub mod Web
