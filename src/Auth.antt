-- ===== src/Auth.antt =====
-- backend/internal/auth: session cookies, the attempt limiter and API keys.
pub mod Base64
pub mod Session
pub mod RateLimit
