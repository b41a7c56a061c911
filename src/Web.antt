-- ===== src/Web.antt =====
-- Pages of the web application apps/web that keep state of their own.
mod Tests
pub mod Email
pub mod Generate
pub mod Keys
