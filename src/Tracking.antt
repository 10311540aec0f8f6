-- ===== src/Tracking.antt =====
-- The WebSocket hub (ride-service/internal/tracking/).
pub mod Hub
pub mod Handler
pub mod Sound
pub mod Connect
pub mod Remove
pub mod Broadcast
pub mod Refinement
pub mod Sessions
pub mod Audience
mod Tests
