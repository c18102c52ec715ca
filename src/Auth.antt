-- ===== src/Auth.antt =====
-- internal/auth: who a request comes from, and what it may reach.
pub mod Types
pub mod Scopes
pub mod Tokens
pub mod Cookie
pub mod Sessions
pub mod MagicLinks
pub mod Users
pub mod Request
pub mod Providers
pub mod Manager
pub mod Telegram
pub mod Legacy
