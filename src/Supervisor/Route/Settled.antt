-- ===== src/Supervisor/Route/Settled.antt =====
-- No connection is forgotten, and which ones are admitted.
use serverless_harness.Base.{
  ℕ, ◌≤◌, ◌<◌, ◌≡◌, refl, ◌∙◌, ap, ◌⊎◌, inl, inr, Bool, true, false, Option, none, some, List, [],
  ◌∷◌, arith, if◌then◌else◌, Text, All, Bool-cases, ltb, ltb→lt,
}
use serverless_harness.Supervisor.Routing.{
  WorkerView, RoutingPolicy, least_in_flight, needs_head, pick, pick_least_loaded, is_saturated,
}
use serverless_harness.Supervisor.Routing.LeastLoaded.{
  IsLeast, here, there, pick_least_loaded_cases, is_saturated_iff, IsLeast-In,
}
use serverless_harness.Supervisor.Head.{Bytes, HeadOutcome, complete, cap, timeout, closed}
use serverless_harness.Supervisor.Pool.State.{Pool, Effect, views, slot_at}
use serverless_harness.Supervisor.Pool.Views.{views-slot}
use serverless_harness.Supervisor.Pool.HandOff.{note_head_truncated, head_field, deliver, takes}
use serverless_harness.Supervisor.Pool.HandOff.Outcome.{HandedOff}
use serverless_harness.Supervisor.Pool.HandOff.Total.{hand_off-HandedOff, hand_off_taken}
use serverless_harness.Supervisor.Route.{
  Supervisor, turn_away, pool_after, send_to, route_on, route_start, route_head,
}

-- What goes to the worker beside the socket: the bytes that were read, where there are any.
abbrev pub Carries : Option Bytes → Option Bytes → Type 0
Carries none sent = sent ≡ none
Carries (some []) sent = sent ≡ none
Carries (some (b ∷ bs)) sent = sent ≡ some (b ∷ bs)

head_field-Carries : (head : Option Bytes) → Carries head (head_field head)
head_field-Carries none = refl
head_field-Carries (some []) = refl
head_field-Carries (some (b ∷ bs)) = refl

-- One effect has been added, and it settles the socket: a worker has it with the bytes read, it was
-- answered 429, or it was destroyed.
pub data Settles (socket : ℕ) (head : Option Bytes) (before after : List Effect) : Type 0 where
  handed :
      (slot : ℕ) (sent : Option Bytes)
      → Carries head sent
      → after ≡ Effect.conn slot socket sent ∷ before
      → Settles socket head before after
  refused : after ≡ Effect.refuse socket ∷ before → Settles socket head before after
  destroyed : after ≡ Effect.destroy socket ∷ before → Settles socket head before after

abbrev pub SettlesPool : ℕ → Option Bytes → Pool → Pool → Type 0
SettlesPool socket head p q = Settles socket head p.effects q.effects

turn_away-Settles :
    (socket : ℕ) (head : Option Bytes) (p : Pool) → SettlesPool socket head p (turn_away socket p)
unfolding turn_away
turn_away-Settles socket head p = refused refl

HandedOff-Settles :
    (socket : ℕ) (head : Option Bytes) (p : Pool) (r : Pool × Option ℕ)
    → HandedOff p socket head r
    → SettlesPool socket head p r.0
HandedOff-Settles socket head p (after, none) o = refused o.effects
HandedOff-Settles socket head p (after, some t) o =
    handed o.slot (head_field head) (head_field-Carries head) o.effects

send_to-Settles :
    (chosen : Option ℕ) (socket : ℕ) (head : Option Bytes) (p : Pool)
    → SettlesPool socket head p (send_to chosen socket head p)
unfolding send_to
send_to-Settles none socket head p = turn_away-Settles socket head p
send_to-Settles (some t) socket head p =
    let (r, e, o) = hand_off-HandedOff socket head t p in rw e (HandedOff-Settles socket head p r o)

route_on-Settles :
    (socket : ℕ) (head : Option Bytes) (sid : Option Text) (s : Supervisor)
    → SettlesPool socket head s.pool (route_on socket head sid s).pool
unfolding route_on
route_on-Settles socket head sid s =
    send_to-Settles (pick s.policy (views s.pool) sid).0 socket head s.pool

-- Before the wait for its header block a connection is settled, or nothing was done with it and it is
-- waited for.
pub route_start-Settles :
    (socket : ℕ) (s : Supervisor)
    → ((route_start socket s ≡ (s, true)) × (needs_head s.policy ≡ true))
      ⊎ (((route_start socket s).1 ≡ false)
          × SettlesPool socket none s.pool (route_start socket s).0.pool)
unfolding route_start
route_start-Settles socket s = elim (Bool-cases (is_saturated (views s.pool) s.turns_per_worker)) [
  | inl full ↦ inr (rw full (refl, refused refl))
  | inr room ↦ elim (Bool-cases (needs_head s.policy)) [
    | inl wait ↦ inl (rw (room, wait) (refl, refl))
    | inr go ↦ inr (rw (room, go) (refl, route_on-Settles socket none none s))
  ]
]

-- Once the read of its header block has ended a connection is settled, and where it is sent to a worker, the worker
-- gets the bytes that were read, unless there are none.
pub route_head-Settles :
    (socket : ℕ) (outcome : HeadOutcome) (bytes : Bytes) (s : Supervisor)
    → SettlesPool socket (some bytes) s.pool (route_head socket outcome bytes s).pool
unfolding route_head note_head_truncated
route_head-Settles socket closed bytes s = destroyed refl
route_head-Settles socket complete bytes s = route_on-Settles socket (some bytes) _ s
route_head-Settles socket cap bytes s =
    route_on-Settles socket (some bytes) _ (record s { pool = note_head_truncated s.pool })
route_head-Settles socket timeout bytes s = route_on-Settles socket (some bytes) _ s

All-at_least :
    (n k : ℕ) (ws : List WorkerView)
    → k ≤ n
    → All (λ w. w.healthy ≡ true → n ≤ w.in_flight) ws
    → All (λ w. w.healthy ≡ true → k ≤ w.in_flight) ws
All-at_least n k [] h a = tt
All-at_least n k (w ∷ ws) h a = (λ up. let b = a.0 up in omega arith, All-at_least n k ws h a.1)

IsLeast-All :
    {b : WorkerView} {ws : List WorkerView}
    → IsLeast b ws
    → All (λ w. w.healthy ≡ true → b.in_flight ≤ w.in_flight) ws
IsLeast-All (here up rest) = (λ _. omega arith, rest)
IsLeast-All (there skip l) = (λ up. let h = skip up in omega arith, IsLeast-All l)

-- In a pool that is not saturated the least loaded worker is below the cap.
IsLeast-below_cap :
    (ws : List WorkerView) (turns : ℕ)
    → is_saturated ws turns ≡ false
    → (b : WorkerView) × IsLeast b ws × (pick_least_loaded ws ≡ some b.id) × (b.in_flight < turns)
IsLeast-below_cap ws turns room = elim (pick_least_loaded_cases ws) [
  | inl (e, down) ↦ absurd (cc ((is_saturated_iff ws turns).1 (all_down ws down), room))
  | inr (b, e, l) ↦ elim (Bool-cases (ltb b.in_flight turns)) [
    | inl below ↦ (b, l, e, ltb→lt _ _ below)
    | inr above ↦ absurd (
        cc (
          (is_saturated_iff ws turns).1
              (All-at_least b.in_flight turns ws (ground arith) (IsLeast-All l)),
          room,
        ))
  ]
]
  where
    all_down :
        (vs : List WorkerView)
        → All (λ w. w.healthy ≡ false) vs
        → All (λ w. w.healthy ≡ true → turns ≤ w.in_flight) vs
    all_down [] h = tt
    all_down (v ∷ vs) h = (λ up. cc (h.0), all_down vs h.1)

-- `handOff` at a worker that takes the socket.
send_to-takes :
    (chosen : Option ℕ) (t r socket : ℕ) (head : Option Bytes) (p : Pool)
    → chosen ≡ some t
    → slot_at p t ≡ some r
    → takes (p.cells r) ≡ true
    → send_to chosen socket head p ≡ deliver r socket head p
unfolding send_to
send_to-takes chosen t r socket head p e at able =
    ap (λ c. send_to c socket head p) e
    ∙ ap (pool_after p) (hand_off_taken t r socket head p at able)

route_start_least :
    (socket : ℕ) (s : Supervisor)
    → s.policy ≡ least_in_flight
    → is_saturated (views s.pool) s.turns_per_worker ≡ false
    → (route_start socket s).0.pool ≡ send_to (pick_least_loaded (views s.pool)) socket none s.pool
unfolding route_start route_on needs_head pick
route_start_least socket s policy room = rw room (ap started policy)
  where
    started : RoutingPolicy → Pool
    started q =
        let r : Supervisor × Bool = if needs_head q then (s, true) else (
          record s {
            pool = send_to (pick q (views s.pool) none).0 socket none s.pool;
            policy = (pick q (views s.pool) none).1;
          },
          false,
        ) in
        r.0.pool

-- A connection that arrives at a pool that is not saturated, under the default policy: the worker chosen
-- is the first of the healthy ones with the fewest turns in flight, it is below the cap, and it has the
-- socket, of which no byte has been read, unless its channel fails.
pub route_start_admits :
    (socket : ℕ) (s : Supervisor)
    → s.policy ≡ least_in_flight
    → is_saturated (views s.pool) s.turns_per_worker ≡ false
    → (b : WorkerView) × IsLeast b (views s.pool)
      × (b.in_flight < s.turns_per_worker)
      × ((r : ℕ) × (slot_at s.pool b.id ≡ some r)
          × (takes (s.pool.cells r) ≡ true
              → (route_start socket s).0.pool ≡ deliver r socket none s.pool))
unfolding route_start
route_start_admits socket s policy room =
    let (b, l, chosen, below) = IsLeast-below_cap (views s.pool) s.turns_per_worker room in
    let (r, at, _) = views-slot s.pool b (IsLeast-In l) in
    (
      b,
      l,
      below,
      (
        r,
        at,
        λ able.
            route_start_least socket s policy room
            ∙ send_to-takes (pick_least_loaded (views s.pool)) b.id r socket none s.pool chosen at
                able,
      ),
    )
