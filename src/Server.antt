-- ===== src/Server.antt =====
-- The program as a whole (ride-service/cmd/main.go).
pub mod Model
pub mod Router
pub mod Guard
pub mod Every
pub mod Traffic
pub mod Journey
pub mod Contract
pub mod Answers
pub mod Process
pub mod Effects
pub mod Provenance
pub mod Runs
pub mod Booking
pub mod Ride
pub mod Startup
pub mod Started
pub mod Stages
pub mod Lifetime
pub mod Endings
pub mod Memory
mod Tests
mod ProcessTests
mod RideTests
