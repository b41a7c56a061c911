-- ===== src/Events.antt =====
-- The event types of packages/api-contracts and the subscriptions of apps/api to them.
pub mod Registry
pub mod Subscriptions
mod Tests
