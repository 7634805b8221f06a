-- ===== src/Outbox.antt =====
-- src/modules/outbox: events that are stored with the change that they announce, and published later.
pub mod Creation
pub mod Publisher
mod Tests
