-- ===== src/Supervisor/Route.antt =====
-- packages/supervisor/src/main.ts, the function `route` and its callees: one connection from its
-- acceptance to its hand-off. The wait for the header block is an `await`, so `route` is two functions:
-- what runs before it, and what runs after it on the supervisor as it is then. A socket is a number.
pub mod Settled
use serverless_harness.Base.{
  ℕ, Bool, true, false, Option, none, some, List, [], ◌∷◌, if◌then◌else◌, Text,
}
use serverless_harness.Supervisor.Routing.{RoutingPolicy, needs_head, pick, is_saturated}
use serverless_harness.Supervisor.Head.{
  Bytes, HeadOutcome, complete, cap, timeout, closed, session_id_from_head,
}
use serverless_harness.Supervisor.Pool.State.{Pool, Effect, views}
use serverless_harness.Supervisor.Pool.HandOff.{note_refusal, note_head_truncated, hand_off}

pub record Supervisor : Type 0 where
  pub pool : Pool
  pub policy : RoutingPolicy
  pub turns_per_worker : ℕ

-- `pool.noteRefusal(); refuse(socket)`
unfoldable pub turn_away : ℕ → Pool → Pool
unfolding note_refusal
turn_away socket p =
    let noted = note_refusal p in record noted { effects = Effect.refuse socket ∷ noted.effects }

abbrev pub pool_after : Pool → Option (Pool × Option ℕ) → Pool
pool_after p none = p
pool_after p (some (after, target)) = after

unfoldable pub send_to : Option ℕ → ℕ → Option Bytes → Pool → Pool
unfolding turn_away
send_to none socket head p = turn_away socket p
send_to (some chosen) socket head p = pool_after p (hand_off chosen socket head p)

-- From the call of `policy.pick` on.
unfoldable pub route_on : ℕ → Option Bytes → Option Text → Supervisor → Supervisor
unfolding send_to
route_on socket head session_id s =
    let (chosen, policy) = pick s.policy (views s.pool) session_id in
    record s { policy = policy; pool = send_to chosen socket head s.pool }

-- Up to the `await`; the second part says whether the header block is waited for.
unfoldable pub route_start : ℕ → Supervisor → Supervisor × Bool
unfolding route_on turn_away
route_start socket s =
    if is_saturated (views s.pool) s.turns_per_worker
    then (record s { pool = turn_away socket s.pool }, false)
    else if needs_head s.policy
    then (s, true)
    else (route_on socket none none s, false)

-- What the end of the read says: the session id, and whether the cap cut the block.
unfoldable pub session_id_of : HeadOutcome → Bytes → Option Text
session_id_of complete bytes = session_id_from_head bytes
session_id_of cap bytes = none
session_id_of timeout bytes = none
session_id_of closed bytes = none

unfoldable pub count_cap : HeadOutcome → Pool → Pool
count_cap cap p = note_head_truncated p
count_cap complete p = p
count_cap timeout p = p
count_cap closed p = p

-- After the `await`, with the bytes read and why the read stopped.
unfoldable pub route_head : ℕ → HeadOutcome → Bytes → Supervisor → Supervisor
unfolding session_id_of count_cap route_on
route_head socket closed bytes s =
    let p = s.pool in record s { pool = record p { effects = Effect.destroy socket ∷ p.effects } }
route_head socket outcome bytes s =
    route_on socket (some bytes) (session_id_of outcome bytes)
      (record s { pool = count_cap outcome s.pool })
