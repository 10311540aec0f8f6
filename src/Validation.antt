-- ===== src/Validation.antt =====
-- Input validation (ride-service/pkg/validation/).
pub mod Regex
mod Text
mod Rules
pub mod Phone
pub mod Email
pub mod Padding
mod Tests
unfoldable pub use Rules.*
