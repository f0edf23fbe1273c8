-- ===== src/Supervisor/Tests.antt =====
-- Runs of the supervisor at concrete inputs: a pool of two workers, a request head, an affinity table.
use serverless_harness.Base.{
  ℕ, ◌*◌, ◌^◌, ◌≤◌, ◌<◌, min, ◌≡◌, refl, ap, ◌⊎◌, inl, inr, ◌↔◌, true, false, Option, none, some,
  List, [], ◌∷◌, length, take, arith, All, In, Text,
}
use serverless_harness.Supervisor.Routing.{
  WorkerView, least_in_flight, sticky_by_session, needs_head, pick, pick_least_loaded, is_saturated,
  pick_sticky,
}
use serverless_harness.Supervisor.Routing.LeastLoaded.{IsLeast, pick_least_loaded_cases}
use serverless_harness.Supervisor.Routing.Sticky.{
  IsTable, pick_run-IsTable, pick_sticky_returns, Request, pick_run,
}
use serverless_harness.Supervisor.Head.{
  Bytes, header_block_end, has_terminator, complete, cap, closed, start, SocketEvent, chunk, end,
  timer, read_head, session_id_from_head,
}
use serverless_harness.Supervisor.Head.Scan.{read_head_scans}
use serverless_harness.Supervisor.Head.Keeps.{joined, read_head_keeps}
use serverless_harness.Supervisor.Pool.State.{
  Handle, PoolOptions, Pool, Effect, conn, drain, refuse, fork, views, slot_at, all_idle, set_slot,
}
use serverless_harness.Supervisor.Pool.HandOff.{hand_off, taker, fail_handoff, deliver, takes}
use serverless_harness.Supervisor.Pool.HandOff.Outcome.{HandedOff}
use serverless_harness.Supervisor.Pool.HandOff.Total.{hand_off-HandedOff}
use serverless_harness.Supervisor.Pool.Events.{
  Stats, new_pool, on_message, on_exit, drain_all, await_idle, ready, load, backoff, reconcile,
  settle_refusal, notify_if_idle, on_timer,
}
use serverless_harness.Supervisor.Pool.Events.Steady.{hears}
use serverless_harness.Supervisor.Pool.Events.Restarts.{IsUp, Crash, crash_run, crash_run-delay}
use serverless_harness.Supervisor.Pool.Run.{
  Event, refuses, message, exit, timer, awaits, timeout, step, run,
}
use serverless_harness.Supervisor.Pool.Run.Shape.{forks}
use serverless_harness.Supervisor.Pool.Run.Array.{IsWf, run-new_pool-IsWf, on_message_isolated}
use serverless_harness.Supervisor.Pool.Run.Drain.{run-drain_all}
use serverless_harness.Supervisor.Pool.Run.Idle.{IsAwake, IsKnown}
use serverless_harness.Supervisor.Pool.Run.Waiting.{IdleDuring, run-IsAwake}
use serverless_harness.Supervisor.Pool.Run.Refusals.{IsTallied, run-IsTallied}
use serverless_harness.Supervisor.Route.{Supervisor, route_start, route_head}
use serverless_harness.Supervisor.Route.Settled.{
  SettlesPool, route_start_admits, route_start-Settles, route_head-Settles,
}

computes : Unit {0}
unfolding hand_off taker fail_handoff deliver reconcile settle_refusal set_slot notify_if_idle
    on_timer pick_least_loaded new_pool on_message on_exit drain_all await_idle views all_idle
    is_saturated step run pick_sticky pick needs_head pick_run header_block_end has_terminator
    read_head session_id_from_head route_start route_head backoff
computes = tt

abbrev opts : PoolOptions
opts = record { workers = 2; restart_backoff_ms = 250; healthy_run_ms = 10000 }

abbrev child : Handle
child = record { pid = some 7; connected = true; send_throws = false }

abbrev children : ℕ → Handle
children id = child

-- Both workers are ready; the first has a turn in flight.
abbrev started : List Event
started = message 0 ready ∷ message 1 ready ∷ message 0 (load (some 1)) ∷ []

abbrev up : Pool
up = run started (new_pool opts 0 children)

hand_off-HandedOff_example :
    (r : Pool × Option ℕ) × (hand_off 1 5 (some (71 ∷ [])) up ≡ some r)
    × HandedOff up 5 (some (71 ∷ [])) r
hand_off-HandedOff_example = hand_off-HandedOff 5 (some (71 ∷ [])) 1 up

-- The second worker dies between its selection and the hand-off: the socket goes to the first.
abbrev down : Pool
down = on_exit 1 3 up

abbrev went_to : Option (Pool × Option ℕ) → Option (Option ℕ × List Effect)
went_to none = none
went_to (some (p, target)) = some (target, p.effects)

hand_off_tests :
    (went_to (hand_off 1 5 none up) ≡ some (some 1, conn 1 5 none ∷ fork 1 ∷ fork 0 ∷ []))
    × (went_to (hand_off 1 5 none down) ≡ some (some 0, conn 0 5 none ∷ fork 1 ∷ fork 0 ∷ []))
    × (went_to (hand_off 1 5 none (new_pool opts 0 children))
        ≡ some (none, refuse 5 ∷ fork 1 ∷ fork 0 ∷ []))
unfolding computes
hand_off_tests = (refl, refl, refl)

-- A worker that was drained says `ready` again, the timer of a restart goes off, the turn ends.
abbrev closing_events : List Event
closing_events =
    awaits 9 ∷ message 1 ready ∷ exit 1 20 ∷ timer 0 40 child ∷ message 0 (load (some 0)) ∷ []

run-drain_all_example :
    let q = run closing_events (drain_all up) in
    (q.slots ≡ up.slots)
    × (forks q.effects ≡ forks up.effects)
    × ((r : ℕ)
        → In r up.slots
        → ((q.cells r).drained ≡ true) × ((q.cells r).healthy ≡ true → (up.cells r).healthy ≡ true))
run-drain_all_example = run-drain_all closing_events up

drain_all_tests :
    let q = run closing_events (drain_all up) in
    (q.effects ≡ drain 1 ∷ drain 0 ∷ fork 1 ∷ fork 0 ∷ [])
    × (q.resolved ≡ (9, true) ∷ [])
    × ((q.cells 1).healthy ≡ false)
unfolding computes
drain_all_tests = (refl, refl, refl)

run-IsAwake_example :
    IsAwake (run closing_events (drain_all up))
    × ((w : ℕ)
        → In (w, true) (run closing_events (drain_all up)).resolved
        → In (w, true) (drain_all up).resolved ⊎ IdleDuring closing_events (drain_all up))
    × ((w : ℕ)
        → In (w, false) (run closing_events (drain_all up)).resolved
        → In (w, false) (drain_all up).resolved ⊎ In (timeout w) closing_events)
    × ((w : ℕ)
        → IsKnown (drain_all up) w ⊎ In (awaits w) closing_events
        → IsKnown (run closing_events (drain_all up)) w)
unfolding computes
run-IsAwake_example = run-IsAwake closing_events (drain_all up) refl (inl refl)

run-IsTallied_example :
    IsTallied (run (message 0 (load (some 3)) ∷ refuses ∷ message 0 (load (some 1)) ∷ []) up)
unfolding computes
run-IsTallied_example =
    run-IsTallied (message 0 (load (some 3)) ∷ refuses ∷ message 0 (load (some 1)) ∷ []) up
      (let e : 0 ≤ 0 = omega arith in e)

run-new_pool-IsWf_example : IsWf (run started (new_pool opts 0 children))
run-new_pool-IsWf_example = run-new_pool-IsWf opts 0 children started

on_message_isolated_example :
    (slot_at (on_message 1 (load (some 4)) up) 0 ≡ some 0)
    × ((on_message 1 (load (some 4)) up).cells 0 ≡ up.cells 0)
unfolding computes
on_message_isolated_example =
    on_message_isolated up 1 0 1 0 (load (some 4)) run-new_pool-IsWf_up refl refl
      (λ e. omega (arith, e))
  where
    run-new_pool-IsWf_up : IsWf up
    run-new_pool-IsWf_up = run-new_pool-IsWf opts 0 children started

abbrev two_crashes : List Crash
two_crashes =
    record { said = ready ∷ load (some 2) ∷ []; exited_at = 100; forked_at = 350; handle = child }
    ∷ record { said = []; exited_at = 400; forked_at = 900; handle = child }
    ∷ []

up-IsUp : IsUp up 1 0 0
unfolding computes
up-IsUp = record {
  slot = 1;
  at = refl;
  id = refl;
  allocated = omega arith;
  crashed = refl;
  since = refl;
  quiet = refl;
  running = refl;
}

crash_run-delay_example :
    (u : IsUp (crash_run 1 two_crashes up) 1 2 900) × ((on_exit u.slot 1000
        (hears u.slot (ready ∷ []) (crash_run 1 two_crashes up))).timers
      ≡ (1, min (250 * 2 ^ 2) 30000) ∷ [])
unfolding computes
crash_run-delay_example =
    crash_run-delay 1 0 1000 two_crashes (ready ∷ []) up up-IsUp (omega arith, (omega arith, tt))
      (omega arith)

-- `GET` cut in the middle of its terminator, then a byte of the body.
abbrev pieces : List SocketEvent
pieces = chunk (71 ∷ 13 ∷ 10 ∷ []) ∷ chunk (13 ∷ []) ∷ chunk (10 ∷ 9 ∷ []) ∷ chunk (8 ∷ []) ∷ []

read_head_scans_example :
    let r = read_head 16384 pieces start in
    ((r.outcome ≡ some complete) ↔ (has_terminator r.bytes ≡ true))
    × (r.outcome ≡ some cap → 16384 ≤ length r.bytes)
    × (r.outcome ≡ none → (r.bytes ≡ []) ⊎ (length r.bytes < 16384))
read_head_scans_example = read_head_scans 16384 pieces

read_head_keeps_example :
    let after = read_head 16384 pieces start in
    (k : ℕ) × (after.bytes ≡ joined (take k pieces))
    × (after.outcome ≡ none → k ≡ length pieces)
    × (read_head 16384 (take k pieces) start ≡ after)
    × ((j : ℕ) → j < k → (read_head 16384 (take j pieces) start).outcome ≡ none)
read_head_keeps_example = read_head_keeps 16384 pieces

read_head_tests :
    ((read_head 16384 pieces start).bytes ≡ 71 ∷ 13 ∷ 10 ∷ 13 ∷ 10 ∷ 9 ∷ [])
    × ((read_head 16384 pieces start).outcome ≡ some complete)
    × ((read_head 2 (chunk (1 ∷ 2 ∷ 3 ∷ []) ∷ []) start).outcome ≡ some cap)
    × ((read_head 2 (chunk (1 ∷ []) ∷ end ∷ timer ∷ []) start).outcome ≡ some closed)
unfolding computes
read_head_tests = (refl, refl, refl, refl)

-- A request line of one byte, then `X-SH-Session-Id: a`.
abbrev sticky_head : Bytes
sticky_head =
    71 ∷ 13 ∷ 10 ∷ 88 ∷ 45 ∷ 83 ∷ 72 ∷ 45 ∷ 83 ∷ 101 ∷ 115 ∷ 115 ∷ 105 ∷ 111 ∷ 110 ∷ 45 ∷ 73 ∷ 100
    ∷ 58 ∷ 32 ∷ 97 ∷ 13 ∷ 10 ∷ 13 ∷ 10 ∷ []

session_id_tests :
    (session_id_from_head sticky_head ≡ some (97 ∷ []))
    × (session_id_from_head (71 ∷ 13 ∷ 10 ∷ 13 ∷ 10 ∷ []) ≡ none)
unfolding computes
session_id_tests = (refl, refl)

abbrev seen : List WorkerView
seen =
    record { id = 0; in_flight = 2; healthy = true }
    ∷ record { id = 1; in_flight = 1; healthy = true }
    ∷ record { id = 2; in_flight = 0; healthy = false }
    ∷ record { id = 3; in_flight = 1; healthy = true }
    ∷ []

pick_least_loaded_cases_example :
    ((pick_least_loaded seen ≡ none) × All (λ w. w.healthy ≡ false) seen)
    ⊎ ((b : WorkerView) × (pick_least_loaded seen ≡ some b.id) × IsLeast b seen)
pick_least_loaded_cases_example = pick_least_loaded_cases seen

abbrev alice : Text
alice = 97 ∷ []

abbrev bob : Text
bob = 98 ∷ []

-- Another session, and a connection that names none.
abbrev between : List Request
between = (seen, some bob) ∷ (seen, none) ∷ []

abbrev first_of : Option Text → ℕ
first_of none = 0
first_of (some []) = 0
first_of (some (c ∷ cs)) = c

abbrev put_first : List WorkerView → List WorkerView
put_first ws = record { id = 9; in_flight = 0; healthy = true } ∷ ws

pick_sticky_returns_example :
    (pick_sticky 3
      (put_first seen)
      (some alice)
      (pick_run 3 between (pick_sticky 3 seen (some alice) []).1)).0
    ≡ some 1
unfolding computes
pick_sticky_returns_example =
    pick_sticky_returns 3 seen (put_first seen) between [] alice 1 refl
      ((λ e. omega (arith, ap first_of e)), ((λ e. omega (arith, ap first_of e)), tt)) (omega arith)
      (record { id = 1; in_flight = 1; healthy = true }, inr (inr (inl refl)), refl, refl)

pick_run-IsTable_example : IsTable 1 (pick_run 1 between ((alice, 0) ∷ []))
pick_run-IsTable_example = pick_run-IsTable 1 between ((alice, 0) ∷ []) (omega arith, (refl, tt))

abbrev front : Supervisor
front = record { pool = up; policy = least_in_flight; turns_per_worker = 2 }

route_start_admits_example :
    (b : WorkerView) × IsLeast b (views up)
    × (b.in_flight < 2)
    × ((r : ℕ) × (slot_at up b.id ≡ some r)
        × (takes (up.cells r) ≡ true → (route_start 5 front).0.pool ≡ deliver r 5 none up))
unfolding computes
route_start_admits_example = route_start_admits 5 front refl refl

abbrev sticky_front : Supervisor
sticky_front = record { pool = up; policy = sticky_by_session 10000 []; turns_per_worker = 2 }

route_start-Settles_example :
    ((route_start 5 sticky_front ≡ (sticky_front, true)) × (needs_head sticky_front.policy ≡ true))
    ⊎ (((route_start 5 sticky_front).1 ≡ false)
        × SettlesPool 5 none up (route_start 5 sticky_front).0.pool)
route_start-Settles_example = route_start-Settles 5 sticky_front

route_head-Settles_example :
    SettlesPool 5 (some sticky_head) up (route_head 5 complete sticky_head sticky_front).pool
route_head-Settles_example = route_head-Settles 5 complete sticky_head sticky_front

route_tests :
    ((route_start 5 front).0.pool.effects ≡ conn 1 5 none ∷ fork 1 ∷ fork 0 ∷ [])
    × ((route_head 5 complete sticky_head sticky_front).policy
        ≡ sticky_by_session 10000 ((alice, 1) ∷ []))
unfolding computes
route_tests = (refl, refl)

-- The first worker reports a slow file operation, and a lag that is not a number.
abbrev slow : Stats
slow = record {
  loop_lag_p99_ms = some none;
  rss_bytes = none;
  leases_held = some (some 2);
  lease_pool_size = some (some 4);
  file_op_p95_ms = some (some 90);
}
