-- ===== src/Supervisor/Pool/Run/Refusals.antt =====
-- A refusal is found needless at most once.
use serverless_harness.Base.{
  ℕ, ◌+◌, ◌≤◌, Bool, none, some, Option, List, [], ◌∷◌, arith, if◌then◌else◌, get_elem?,
}
use serverless_harness.Supervisor.Pool.State.{Handle, Pool, set_slot}
use serverless_harness.Supervisor.Pool.HandOff.{note_refusal, note_head_truncated}
use serverless_harness.Supervisor.Pool.HandOff.Outcome.{HandedOff}
use serverless_harness.Supervisor.Pool.HandOff.Total.{hand_off-HandedOff}
use serverless_harness.Supervisor.Pool.Events.{
  Message, ready, draining, stats, load, notify_if_idle, settle_refusal, reconcile, on_message,
  on_exit, on_timer, await_idle, on_timeout, drain_slot, drain_slots, drain_all, spawn, restart,
}
use serverless_harness.Supervisor.Pool.Run.{
  Event, hands_off, refuses, truncates, message, exit, channel, timer, awaits, timeout, drains,
  step, run,
}

-- The last refusal, while it is open, counts for one.
abbrev open_refusal : Bool → ℕ
open_refusal counted = if counted then 0 else 1

-- No more refusals were found needless than were issued, the open one left out.
abbrev pub IsTallied : Pool → Type 0
IsTallied p = p.tally.spurious_refusals + open_refusal p.refusal_counted ≤ p.refusal_seq

reconcile-IsTallied : (r actual : ℕ) (p : Pool) → IsTallied p → IsTallied (reconcile r actual p)
unfolding reconcile notify_if_idle settle_refusal set_slot
reconcile-IsTallied r actual p h = ground arith

on_message-IsTallied : (r : ℕ) (m : Message) (p : Pool) → IsTallied p → IsTallied (on_message r m p)
unfolding on_message set_slot
on_message-IsTallied r ready p h = ground arith
on_message-IsTallied r draining p h = h
on_message-IsTallied r (stats m) p h = h
on_message-IsTallied r (load none) p h = h
on_message-IsTallied r (load (some actual)) p h = reconcile-IsTallied r actual p h

on_exit-IsTallied : (r now : ℕ) (p : Pool) → IsTallied p → IsTallied (on_exit r now p)
unfolding on_exit notify_if_idle set_slot
on_exit-IsTallied r now p h = ground arith

restart-IsTallied :
    (due : Option (ℕ × ℕ)) (now : ℕ) (handle : Handle) (p : Pool)
    → IsTallied p
    → IsTallied (restart due now handle p)
unfolding restart spawn
restart-IsTallied none now handle p h = h
restart-IsTallied (some (id, delay)) now handle p h = ground arith

drain_slots-IsTallied : (rs : List ℕ) (p : Pool) → IsTallied p → IsTallied (drain_slots rs p)
unfolding drain_slots drain_slot set_slot
drain_slots-IsTallied [] p h = h
drain_slots-IsTallied (r ∷ rs) p h = drain_slots-IsTallied rs (drain_slot r p) (ground arith)

HandedOff-IsTallied :
    (p : Pool) (socket : ℕ) (head : Option (List ℕ)) (r : Pool × Option ℕ)
    → HandedOff p socket head r
    → IsTallied p
    → IsTallied r.0
HandedOff-IsTallied p socket head (after, none) o h =
    rw (o.refusal_counted) (omega (arith, o.rest.spurious, o.refusal_seq))
HandedOff-IsTallied p socket head (after, some t) o h =
    rw (o.refusal_counted) (omega (arith, o.rest.spurious, o.refusal_seq))

step-IsTallied : (e : Event) (p : Pool) → IsTallied p → IsTallied (step e p)
unfolding step note_refusal note_head_truncated set_slot on_timer await_idle on_timeout drain_all
step-IsTallied (hands_off preferred socket head) p h =
    let (r, e, o) = hand_off-HandedOff socket head preferred p in
    rw e (HandedOff-IsTallied p socket head r o h)
step-IsTallied refuses p h = omega arith
step-IsTallied truncates p h = h
step-IsTallied (message r m) p h = on_message-IsTallied r m p h
step-IsTallied (exit r now) p h = on_exit-IsTallied r now p h
step-IsTallied (channel r handle) p h = h
step-IsTallied (timer k now handle) p h = restart-IsTallied (get_elem? p.timers k) now handle _ h
step-IsTallied (awaits waiter) p h = ground arith
step-IsTallied (timeout waiter) p h = ground arith
step-IsTallied drains p h = drain_slots-IsTallied p.slots _ h

-- A pool that has counted no more needless refusals than it issued, the open one left out, does so whatever
-- it goes through.
pub run-IsTallied : (es : List Event) (p : Pool) → IsTallied p → IsTallied (run es p)
unfolding run
run-IsTallied [] p h = h
run-IsTallied (e ∷ es) p h = run-IsTallied es (step e p) (step-IsTallied e p h)
