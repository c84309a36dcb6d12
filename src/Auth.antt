-- ===== src/Auth.antt =====
-- internal/auth.
pub mod RateLimit
pub mod Hash
