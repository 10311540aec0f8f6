-- ===== src/Drivers.antt =====
-- The drivers' accounts and locations (ride-service/internal/drivers/).
pub mod Model
pub mod Store
pub mod Service
pub mod Handler
pub mod Accounts
pub mod Locations
pub mod Answers
pub mod Routes
pub mod Endpoints
mod Tests
mod AccountTests
