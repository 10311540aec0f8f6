-- ===== src/Events.antt =====
-- The events that the parts of the service exchange over Kafka, and their JSON form.
mod Payloads
mod Codec
pub use Payloads.*
pub use Codec.*
