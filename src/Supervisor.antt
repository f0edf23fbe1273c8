-- ===== src/Supervisor.antt =====
-- packages/supervisor: the process that accepts connections and hands each to a worker.
pub mod Routing
pub mod Head
pub mod Pool
pub mod Route
mod Tests
