-- ===== src/Auth.antt =====
-- Tokens and the authentication of requests (ride-service/pkg/jwt/).
pub mod Tokens
pub mod Middleware
pub mod Part
pub mod Guard
pub mod OneToken
mod Tests
