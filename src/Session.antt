-- ===== src/Session.antt =====
-- Elicitation sessions: the state machine (src/modules/sessions/session-fsm.ts) and the service
-- (src/modules/sessions/sessions.service.ts).
pub mod Fsm
pub mod Types
pub mod Service
