-- ===== src/Supervisor/Pool.antt =====
-- packages/supervisor/src/pool.ts, class `WorkerPool`: the worker processes, the supervisor's estimate
-- of their load, hand-off, restart and drain.
pub mod State
pub mod Views
pub mod HandOff
pub mod Events
pub mod Run
pub mod Telemetry
