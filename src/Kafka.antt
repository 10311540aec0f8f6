-- ===== src/Kafka.antt =====
-- The Kafka client (ride-service/pkg/kafka/).
mod Core
pub mod Delivery
pub mod Once
pub mod Topics
mod Tests
unfoldable pub use Core.*
