-- ===== src/Users.antt =====
-- The riders' accounts (ride-service/internal/users/).
pub mod Model
pub mod Store
pub mod Service
pub mod Handler
pub mod Accounts
pub mod Replies
pub mod Endpoints
mod Tests
