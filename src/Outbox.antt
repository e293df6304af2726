-- ===== src/Outbox.antt =====
-- outbox/: the relay from the outbox table to Kafka, and the table's statements.
pub mod Config
pub mod Row
pub mod Relay
pub mod Table
pub mod Delivery
mod Tests
pub mod Retention
pub mod Writer
pub mod Schema
