-- ===== src/Platform.antt =====
-- The platform module: signing in and sessions (apps/api/src/modules/platform).
pub mod Totp
pub mod Redis
pub mod Security
pub mod Jwt
pub mod Guards
pub mod Accounts
pub mod Mfa
pub mod Tests
