-- ===== src/Security.antt =====
-- packages/security: the signatures of webhooks, and the verification of tokens.
pub mod Webhook
pub mod Tokens
pub mod IdToken
pub mod ServiceToken
mod Tests
