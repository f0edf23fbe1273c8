-- ===== src/Supervisor/Pool/Run.antt =====
-- Every order of calls and events that a pool may see: `step` makes the call for one, `run` for a list
-- of them. The event loop runs one listener at a time, so a run is an interleaving.
pub mod Shape
pub mod Moves
pub mod Array
pub mod Refusals
pub mod Drain
pub mod Idle
pub mod Waiting
use serverless_harness.Base.{ℕ, Option, none, some, List, [], ◌∷◌}
use serverless_harness.Supervisor.Pool.State.{Handle, PoolOptions, Pool, set_slot}
use serverless_harness.Supervisor.Pool.HandOff.{note_refusal, note_head_truncated, hand_off}
use serverless_harness.Supervisor.Pool.Events.{
  Message, new_pool, on_message, on_exit, on_timer, await_idle, on_timeout, drain_all,
}

-- `channel r handle` is the environment's: the channel of a worker closes, or begins to fail.
pub data Event : Type 0 where
  hands_off : ℕ → ℕ → Option (List ℕ) → Event
  refuses : Event
  truncates : Event
  message : ℕ → Message → Event
  exit : ℕ → ℕ → Event
  channel : ℕ → Handle → Event
  timer : ℕ → ℕ → Handle → Event
  awaits : ℕ → Event
  timeout : ℕ → Event
  drains : Event

-- The pool after `handOff`, which always returns (`hand_off-HandedOff`).
abbrev pub after_hand_off : Pool → Option (Pool × Option ℕ) → Pool
after_hand_off p none = p
after_hand_off p (some (after, target)) = after

unfoldable pub step : Event → Pool → Pool
step (hands_off preferred socket head) p = after_hand_off p (hand_off preferred socket head p)
step refuses p = note_refusal p
step truncates p = note_head_truncated p
step (message r m) p = on_message r m p
step (exit r now) p = on_exit r now p
step (channel r handle) p = set_slot r (record (p.cells r) { handle = handle }) p
step (timer k now handle) p = on_timer k now handle p
step (awaits waiter) p = await_idle waiter p
step (timeout waiter) p = on_timeout waiter p
step drains p = drain_all p

unfoldable pub run : List Event → Pool → Pool
run [] p = p
run (e ∷ es) p = run es (step e p)
