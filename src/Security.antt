-- ===== src/Security.antt =====
-- internal/security: who may call the control plane.
pub mod Hmac
pub mod RateLimiter
pub mod BootstrapLimiter
