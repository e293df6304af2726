-- ===== src/Core.antt =====
-- core/: what the other components share.
pub mod Utf8
pub mod Error
pub mod Metrics
pub mod Message
pub mod Clock
