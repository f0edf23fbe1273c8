-- ===== src/Supervisor/Pool/Events.antt =====
-- The listeners and methods of `WorkerPool` that change its state, one function each, and `step`, which
-- makes the call for one event. Times are milliseconds; the new worker's handle comes with the event
-- that forks it. Log lines are left out: they change no state.
pub mod Restarts
pub mod Steady
use serverless_harness.Base.{
  ℕ, zero, suc, ◌+◌, ◌*◌, ◌^◌, min, Bool, true, false, not, ◌&&◌, Option, none, some, List, [], ◌∷◌,
  ◌++◌, map, ltb, leb, nat_beq, if◌then◌else◌, any, keep_if, get_elem?, put_at, length,
}
use serverless_harness.Supervisor.Pool.State.{
  Handle, Readings, Slot, PoolOptions, PoolCounters, Pool, Effect, write, set_slot, all_idle,
  slot_at,
}
use serverless_harness.Supervisor.Pool.HandOff.{note_refusal, note_head_truncated, hand_off}

abbrev pub max_backoff_ms : ℕ
max_backoff_ms = 30000

abbrev no_readings : Readings
no_readings = record {
  loop_lag_p99_ms = none;
  rss_bytes = none;
  leases_held = none;
  lease_pool_size = none;
  file_op_p95_ms = none;
}

abbrev pub crashes_of : (ℕ → Slot) → Option ℕ → ℕ
crashes_of cells none = 0
crashes_of cells (some r) = (cells r).crashes

-- `spawn(id)` at time `now`, where `fork(id)` returns `handle`.
unfoldable pub spawn : ℕ → ℕ → Handle → Pool → Pool
spawn id now handle p = record p {
  cells =
      write p.next
        (record {
          id = id;
          handle = handle;
          in_flight = 0;
          healthy = false;
          started_at = now;
          crashes = crashes_of p.cells (slot_at p id);
          drained = false;
          refusal_estimate = none;
          readings = no_readings;
        })
        p.cells;
  next = suc p.next;
  slots = put_at p.slots id p.next;
  effects = Effect.fork id ∷ p.effects;
}

unfoldable pub spawn_all : ℕ → ℕ → ℕ → (ℕ → Handle) → Pool → Pool
spawn_all zero id now handles p = p
spawn_all (suc n) id now handles p = spawn_all n (suc id) now handles (spawn id now (handles id) p)

abbrev gone : Handle
gone = record { pid = none; connected = false; send_throws = true }

abbrev unused : Slot
unused = record {
  id = 0;
  handle = gone;
  in_flight = 0;
  healthy = false;
  started_at = 0;
  crashes = 0;
  drained = false;
  refusal_estimate = none;
  readings = no_readings;
}

abbrev pub empty_pool : PoolOptions → Pool
empty_pool opts = record {
  opts = opts;
  cells = λ _. unused;
  next = 0;
  slots = [];
  shutting_down = false;
  idle_waiters = [];
  resolved = [];
  refusal_seq = 0;
  refusal_counted = true;
  tally = record {
    restarts = 0;
    handoff_retries = 0;
    handoff_failures = 0;
    over_admission = 0;
    spurious_refusals = 0;
    head_truncations = 0;
  };
  timers = [];
  effects = [];
}

-- The constructor.
unfoldable pub new_pool : PoolOptions → ℕ → (ℕ → Handle) → Pool
unfolding spawn_all spawn
new_pool opts now handles = spawn_all opts.workers 0 now handles (empty_pool opts)

unfoldable pub notify_if_idle : Pool → Pool
notify_if_idle p =
    if all_idle p
    then record p {
      resolved = map (λ w. (w, true)) p.idle_waiters ++ p.resolved;
      idle_waiters = [];
    }
    else p

-- The end of `reconcile`: whether the report shows that the last refusal was needless.
unfoldable pub settle_refusal : ℕ → ℕ → Option ℕ → Pool → Pool
settle_refusal r actual none p = p
settle_refusal r actual (some at_refusal) p =
    let seen = set_slot r (record (p.cells r) { refusal_estimate = none }) p in
    if ltb actual at_refusal && not p.refusal_counted
    then record seen {
      refusal_counted = true;
      tally = record (p.tally) { spurious_refusals = p.tally.spurious_refusals + 1 };
    }
    else seen

abbrev pub count_over : Bool → Pool → Pool
count_over over p =
    if over
    then record p { tally = record (p.tally) { over_admission = p.tally.over_admission + 1 } }
    else p

unfoldable pub reconcile : ℕ → ℕ → Pool → Pool
reconcile r actual p =
    let told = notify_if_idle (set_slot r (record (p.cells r) { in_flight = actual }) p) in
    let counted = count_over (ltb (p.cells r).in_flight actual) told in
    settle_refusal r actual (counted.cells r).refusal_estimate counted

-- A reading in a message may be missing (`none`), and one that is there may be NaN (`some none`).
pub record Stats : Type 0 where
  pub loop_lag_p99_ms : Option (Option ℕ)
  pub rss_bytes : Option (Option ℕ)
  pub leases_held : Option (Option ℕ)
  pub lease_pool_size : Option (Option ℕ)
  pub file_op_p95_ms : Option (Option ℕ)

-- `load none` is every other message whose `inFlight` is not a finite number.
pub data Message : Type 0 where
  ready : Message
  draining : Message
  stats : Stats → Message
  load : Option ℕ → Message

abbrev newer : Option (Option ℕ) → Option ℕ → Option ℕ
newer none old = old
newer (some reading) old = reading

unfoldable pub record_stats : Stats → Readings → Readings
record_stats m old = record {
  loop_lag_p99_ms = newer m.loop_lag_p99_ms old.loop_lag_p99_ms;
  rss_bytes = newer m.rss_bytes old.rss_bytes;
  leases_held = newer m.leases_held old.leases_held;
  lease_pool_size = newer m.lease_pool_size old.lease_pool_size;
  file_op_p95_ms = newer m.file_op_p95_ms old.file_op_p95_ms;
}

-- The listener of the slot at `r` for `message`.
unfoldable pub on_message : ℕ → Message → Pool → Pool
on_message r ready p =
    if (p.cells r).drained then p else set_slot r (record (p.cells r) { healthy = true }) p
on_message r draining p = set_slot r (record (p.cells r) { healthy = false }) p
on_message r (stats m) p =
    set_slot r (record (p.cells r) { readings = record_stats m (p.cells r).readings }) p
on_message r (load none) p = p
on_message r (load (some actual)) p = reconcile r actual p

-- What a slot's next crash counts from: a run that was long enough clears it.
unfoldable pub settled_crashes : PoolOptions → ℕ → Slot → ℕ
settled_crashes opts now s = if leb (s.started_at + opts.healthy_run_ms) now then 0 else s.crashes

unfoldable pub backoff : PoolOptions → ℕ → ℕ
backoff opts crashes = min (opts.restart_backoff_ms * 2 ^ crashes) max_backoff_ms

abbrev pub restart_later : ℕ → ℕ → Pool → Pool
restart_later r now p =
    let crashes = settled_crashes p.opts now (p.cells r) in
    record p {
      cells = write r (record (p.cells r) { crashes = suc crashes }) p.cells;
      tally = record (p.tally) { restarts = p.tally.restarts + 1 };
      timers = p.timers ++ ((p.cells r).id, backoff p.opts crashes) ∷ [];
    }

-- The listener of the slot at `r` for `exit`, at time `now`.
unfoldable pub on_exit : ℕ → ℕ → Pool → Pool
on_exit r now p =
    let down =
      notify_if_idle (set_slot r (record (p.cells r) { healthy = false; in_flight = 0 }) p) in
    if down.shutting_down then down else restart_later r now down

abbrev pub remove_at {ℓ} : {A : Type ℓ} → ℕ → List A → List A
remove_at i [] = []
remove_at zero (x ∷ xs) = xs
remove_at (suc i) (x ∷ xs) = x ∷ remove_at i xs

unfoldable pub restart : Option (ℕ × ℕ) → ℕ → Handle → Pool → Pool
restart none now handle p = p
restart (some (id, delay)) now handle p = if p.shutting_down then p else spawn id now handle p

-- The `k`-th of the timers that are due goes off.
unfoldable pub on_timer : ℕ → ℕ → Handle → Pool → Pool
unfolding restart
on_timer k now handle p =
    restart (get_elem? p.timers k) now handle (record p { timers = remove_at k p.timers })

unfoldable pub await_idle : ℕ → Pool → Pool
await_idle waiter p =
    if all_idle p
    then record p { resolved = (waiter, true) ∷ p.resolved }
    else record p { idle_waiters = p.idle_waiters ++ waiter ∷ [] }

-- The timeout of a promise that is still waiting; the timer of one that was resolved is cleared.
unfoldable pub on_timeout : ℕ → Pool → Pool
on_timeout waiter p =
    if any (nat_beq waiter) p.idle_waiters
    then record p {
      idle_waiters = keep_if (λ w. not (nat_beq waiter w)) p.idle_waiters;
      resolved = (waiter, false) ∷ p.resolved;
    }
    else p

abbrev pub drain_effect : Slot → ℕ → List Effect → List Effect
drain_effect s r effects =
    if s.handle.connected && not s.handle.send_throws then Effect.drain r ∷ effects else effects

unfoldable pub drain_slot : ℕ → Pool → Pool
drain_slot r p =
    if (p.cells r).drained
    then p
    else record (set_slot r (record (p.cells r) { drained = true }) p) {
      effects = drain_effect (p.cells r) r p.effects;
    }

unfoldable pub drain_slots : List ℕ → Pool → Pool
unfolding drain_slot
drain_slots [] p = p
drain_slots (r ∷ rs) p = drain_slots rs (drain_slot r p)

unfoldable pub drain_all : Pool → Pool
unfolding drain_slots
drain_all p = drain_slots p.slots (record p { shutting_down = true })
