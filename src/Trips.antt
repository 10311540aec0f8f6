-- ===== src/Trips.antt =====
-- The trips component (ride-service/internal/trips/).
pub mod Model
pub mod Store
pub mod Service
pub mod Handler
pub mod Routes
pub mod Replies
pub mod Refusals
pub mod Rows
pub mod Written
pub mod Lifecycle
pub mod Life
pub mod Updates
pub mod Held
pub mod Operations
pub mod System
pub mod Simulation
pub mod Traced
pub mod Tracing
pub mod Results
pub mod Ending
pub mod Requesting
pub mod Memory
mod RouteTests
mod Tests
