-- ===== src/Idempotency.antt =====
-- packages/idempotency: the store of claims and the canonical form of a request.
pub mod Store
pub mod Decimal
pub mod Canonical
mod Tests
