-- ===== src/Api.antt =====
-- apps/api: errors, middleware and services of the HTTP API.
pub mod Errors
pub mod PathTemplate
pub mod Idempotency
pub mod Sse
pub mod Transaction
pub mod Projection
pub mod Tailer
pub mod IntentRows
pub mod Enqueue
mod Tests
pub mod RateLimit
pub mod Cache
pub mod Auth
pub mod Network
