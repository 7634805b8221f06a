-- ===== src/InternalAuth.antt =====
-- Tokens between the services (src/core/internal-auth).
pub mod Token
pub mod Replay
pub mod Samples
mod Tests
