-- ===== src/Security.antt =====
-- src/security: bans, rate limits and the filter of addresses in front of authentication.
pub mod Ban
pub mod RateLimit
pub mod Manager
