-- ===== src/Source.antt =====
-- Sources and their processing by the workers (src/modules/sources).
pub mod Types
pub mod Payload
pub mod Transition
pub mod Lifecycle
