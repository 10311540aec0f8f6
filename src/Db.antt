-- ===== src/Db.antt =====
-- The database (ride-service/pkg/db/postgres.go).
pub mod Connect
pub mod Dialling
pub mod Files
pub mod Migrations
pub mod Rounds
pub mod Progress
pub mod Applied
pub mod Again
pub mod Memory
mod Tests
