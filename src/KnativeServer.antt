-- ===== src/KnativeServer.antt =====
-- packages/knative-server/src: the server of turns.
pub mod Tenancy
pub mod TurnAuth
