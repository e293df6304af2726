-- ===== src/Replay.antt =====
-- replay/: select old records and publish them again, and the router to a dead-letter topic.
pub mod Count
pub mod Reader
pub mod Selector
pub mod Audit
pub mod Options
pub mod Message
pub mod Runner
pub mod Dlq
pub mod Rounds
pub mod Expr
