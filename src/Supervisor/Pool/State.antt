-- ===== src/Supervisor/Pool/State.antt =====
-- The state of `WorkerPool`. Slots are objects that the listeners of a worker keep after the slot has
-- left the array, so they stand in a store: `cells` gives the slot of a reference, and `slots` is the
-- array, of references.
use serverless_harness.Base.{
  ℕ, suc, ◌+◌, Bool, Option, none, some, List, [], ◌∷◌, leb, nat_beq, if◌then◌else◌, all, get_elem?,
}
use serverless_harness.Supervisor.Routing.{WorkerView}

-- The child process, as far as the pool sees it: whether the channel is open, and whether a send
-- throws although it was.
pub record Handle : Type 0 where
  pub pid : Option ℕ
  pub connected : Bool
  pub send_throws : Bool

-- A reading that no worker has made yet is NaN in the code, `none` here.
pub record Readings : Type 0 where
  pub loop_lag_p99_ms : Option ℕ
  pub rss_bytes : Option ℕ
  pub leases_held : Option ℕ
  pub lease_pool_size : Option ℕ
  pub file_op_p95_ms : Option ℕ

-- `id` is the array index that the slot's listeners close over.
pub record Slot : Type 0 where
  pub id : ℕ
  pub handle : Handle
  pub in_flight : ℕ
  pub healthy : Bool
  pub started_at : ℕ
  pub crashes : ℕ
  pub drained : Bool
  pub refusal_estimate : Option ℕ
  pub readings : Readings

pub record PoolOptions : Type 0 where
  pub workers : ℕ
  pub restart_backoff_ms : ℕ
  pub healthy_run_ms : ℕ

pub record PoolCounters : Type 0 where
  pub restarts : ℕ
  pub handoff_retries : ℕ
  pub handoff_failures : ℕ
  pub over_admission : ℕ
  pub spurious_refusals : ℕ
  pub head_truncations : ℕ

-- What the pool does to the world: a socket sent to a slot's worker, a drain sent to one, a socket
-- answered 429, a worker forked, a socket destroyed. A `conn` with a head carries its bytes.
pub data Effect : Type 0 where
  conn : ℕ → ℕ → Option (List ℕ) → Effect
  drain : ℕ → Effect
  refuse : ℕ → Effect
  fork : ℕ → Effect
  destroy : ℕ → Effect

-- `timers` are the restarts that are due, with their delays. A promise that `awaitIdle` returned is
-- a number; `resolved` lists those that have a value. `effects` has the latest first.
pub record Pool : Type 0 where
  pub opts : PoolOptions
  pub cells : ℕ → Slot
  pub next : ℕ
  pub slots : List ℕ
  pub shutting_down : Bool
  pub idle_waiters : List ℕ
  pub resolved : List (ℕ × Bool)
  pub refusal_seq : ℕ
  pub refusal_counted : Bool
  pub tally : PoolCounters
  pub timers : List (ℕ × ℕ)
  pub effects : List Effect

-- A write to the slot object at `r`.
abbrev pub write : ℕ → Slot → (ℕ → Slot) → ℕ → Slot
write r s cells q = if nat_beq q r then s else cells q

unfoldable pub set_slot : ℕ → Slot → Pool → Pool
set_slot r s p = record p { cells = write r s p.cells }

unfoldable pub views_from : ℕ → (ℕ → Slot) → List ℕ → List WorkerView
views_from id cells [] = []
views_from id cells (r ∷ rs) =
    record { id = id; in_flight = (cells r).in_flight; healthy = (cells r).healthy }
    ∷ views_from (suc id) cells rs

unfoldable pub views : Pool → List WorkerView
unfolding views_from
views p = views_from 0 p.cells p.slots

pub record WorkerTelemetry : Type 0 where
  pub id : ℕ
  pub pid : Option ℕ
  pub in_flight : ℕ
  pub healthy : Bool
  pub loop_lag_p99_ms : Option ℕ
  pub rss_bytes : Option ℕ

unfoldable pub telemetry_from : ℕ → (ℕ → Slot) → List ℕ → List WorkerTelemetry
telemetry_from id cells [] = []
telemetry_from id cells (r ∷ rs) =
    record {
      id = id;
      pid = (cells r).handle.pid;
      in_flight = (cells r).in_flight;
      healthy = (cells r).healthy;
      loop_lag_p99_ms = (cells r).readings.loop_lag_p99_ms;
      rss_bytes = (cells r).readings.rss_bytes;
    }
    ∷ telemetry_from (suc id) cells rs

unfoldable pub telemetry : Pool → List WorkerTelemetry
unfolding telemetry_from
telemetry p = telemetry_from 0 p.cells p.slots

-- `Math.max` of the finite readings, 0 or `none` where there is none.
abbrev pub max_or : ℕ → Option ℕ → ℕ
max_or best none = best
max_or best (some n) = if leb n best then best else n

unfoldable pub pool_size_of : (ℕ → Slot) → List ℕ → ℕ
pool_size_of cells [] = 0
pool_size_of cells (r ∷ rs) = max_or (pool_size_of cells rs) (cells r).readings.lease_pool_size

abbrev pub add_held : Option ℕ → Option ℕ → Option ℕ
add_held none rest = rest
add_held (some n) none = some n
add_held (some n) (some m) = some (n + m)

-- The sum of the finite `leasesHeld`, `none` where no slot has one.
unfoldable pub held_of : (ℕ → Slot) → List ℕ → Option ℕ
held_of cells [] = none
held_of cells (r ∷ rs) = add_held (cells r).readings.leases_held (held_of cells rs)

abbrev pub worst : Option ℕ → Option ℕ → Option ℕ
worst none rest = rest
worst (some n) none = some n
worst (some n) (some m) = some (max_or m (some n))

unfoldable pub file_op_of : (ℕ → Slot) → List ℕ → Option ℕ
file_op_of cells [] = none
file_op_of cells (r ∷ rs) = worst (cells r).readings.file_op_p95_ms (file_op_of cells rs)

-- The quotient is given as its two parts; `none` is NaN.
pub record TelemetryAggregates : Type 0 where
  pub lease_saturation : Option (ℕ × ℕ)
  pub file_op_p95_ms : Option ℕ

unfoldable pub saturation : Option ℕ → ℕ → Option (ℕ × ℕ)
saturation none size = none
saturation (some held) size = if leb size 0 then none else some (held, size)

unfoldable pub aggregates : Pool → TelemetryAggregates
unfolding pool_size_of held_of file_op_of saturation
aggregates p = record {
  lease_saturation = saturation (held_of p.cells p.slots) (pool_size_of p.cells p.slots);
  file_op_p95_ms = file_op_of p.cells p.slots;
}

unfoldable pub all_idle : Pool → Bool
all_idle p = all (λ r. leb (p.cells r).in_flight 0) p.slots

abbrev pub slot_at : Pool → ℕ → Option ℕ
slot_at p id = get_elem? p.slots id
