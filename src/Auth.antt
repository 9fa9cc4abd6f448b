-- ===== src/Auth.antt =====
-- The single account, backend/app/auth: the login rate limiter, the account's sessions and keys,
-- and the guard of the routes.
pub mod Limiter
pub mod Service
mod Tests
