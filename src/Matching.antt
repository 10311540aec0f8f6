-- ===== src/Matching.antt =====
-- ride-service/internal/matching/matcher.go: the handler of ride.requested.
pub mod Dispatch
pub mod Choice
pub mod Flow
pub mod Memory
mod Tests
unfoldable pub use Dispatch.*
