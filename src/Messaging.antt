-- ===== src/Messaging.antt =====
-- Messages between the backend and its workers (src/core/messaging).
pub mod DomainEvent
