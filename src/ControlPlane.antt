-- ===== src/ControlPlane.antt =====
-- packages/control-plane/src: who may run what. Its tokens, the errors it answers with, and the index of
-- the sessions that a user owns.
pub mod Errors
pub mod Token
pub mod Ownership
pub mod Exchange
pub mod Sessions
