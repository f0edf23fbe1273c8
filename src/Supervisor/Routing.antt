-- ===== src/Supervisor/Routing.antt =====
-- packages/supervisor/src/routing.ts, and the admission test of admission.ts. A policy that keeps an
-- affinity table is its table, and `pick` returns the table as it is afterwards.
pub mod LeastLoaded
pub mod Pins
pub mod Sticky
use serverless_harness.Base.{
  ℕ, ◌≡◌, Bool, true, false, not, ◌&&◌, Option, none, some, List, [], ◌∷◌, Text, ltb, leb,
  if◌then◌else◌, ◌==◌, nat_key, text_key, any, length, get, delete, set,
}

pub record WorkerView : Type 0 where
  pub id : ℕ
  pub in_flight : ℕ
  pub healthy : Bool

-- One round of the loop in `pickLeastLoaded`.
pub consider : Option WorkerView → WorkerView → Option WorkerView
consider best wv = if not wv.healthy then best else elim best [
  | none ↦ some wv
  | some b ↦ if ltb wv.in_flight b.in_flight then some wv else some b
]

pub least_from : Option WorkerView → List WorkerView → Option WorkerView
least_from best [] = best
least_from best (wv ∷ wvs) = least_from (consider best wv) wvs

pub id_of : Option WorkerView → Option ℕ
id_of none = none
id_of (some wv) = some wv.id

unfoldable pub pick_least_loaded : List WorkerView → Option ℕ
unfolding consider least_from id_of
pick_least_loaded workers = id_of (least_from none workers)

-- admission.ts
unfoldable pub is_saturated : List WorkerView → ℕ → Bool
is_saturated workers turns_per_worker =
    not (any (λ wv. wv.healthy && ltb wv.in_flight turns_per_worker) workers)

abbrev pub Pins : Type 0
Pins = List (Text × ℕ)

-- `while (pins.size > maxPins)`: the oldest entry goes first.
pub evict : ℕ → Pins → Pins
evict max_pins [] = []
evict max_pins (p ∷ pins) =
    let rest = evict max_pins pins in if ltb max_pins (length (p ∷ pins)) then rest else p ∷ pins

pub remember : ℕ → Text → ℕ → Pins → Pins
unfolding evict
remember max_pins sid id pins = evict max_pins (set sid id (delete sid pins))

pub serves : ℕ → List WorkerView → Bool
serves pinned workers = any (λ wv. wv.id == pinned && wv.healthy) workers

pub repin : ℕ → Text → Option ℕ → Pins → Option ℕ × Pins
repin max_pins sid none pins = (none, pins)
repin max_pins sid (some chosen) pins = (some chosen, remember max_pins sid chosen pins)

pub pick_pinned : ℕ → List WorkerView → Text → Option ℕ → Pins → Option ℕ × Pins
unfolding serves repin remember
pick_pinned max_pins workers sid none pins = repin max_pins sid (pick_least_loaded workers) pins
pick_pinned max_pins workers sid (some pinned) pins =
    if serves pinned workers
    then (some pinned, remember max_pins sid pinned pins)
    else repin max_pins sid (pick_least_loaded workers) pins

unfoldable pub pick_sticky : ℕ → List WorkerView → Option Text → Pins → Option ℕ × Pins
unfolding pick_pinned
pick_sticky max_pins workers none pins = (pick_least_loaded workers, pins)
pick_sticky max_pins workers (some sid) pins = pick_pinned max_pins workers sid (get sid pins) pins

pub data RoutingPolicy : Type 0 where
  least_in_flight : RoutingPolicy
  sticky_by_session : ℕ → Pins → RoutingPolicy

unfoldable pub needs_head : RoutingPolicy → Bool
needs_head least_in_flight = false
needs_head (sticky_by_session max_pins pins) = true

pub sticky_result : ℕ → Option ℕ × Pins → Option ℕ × RoutingPolicy
sticky_result max_pins (chosen, pins) = (chosen, sticky_by_session max_pins pins)

unfoldable pub pick : RoutingPolicy → List WorkerView → Option Text → Option ℕ × RoutingPolicy
unfolding sticky_result
pick least_in_flight workers session_id = (pick_least_loaded workers, least_in_flight)
pick (sticky_by_session max_pins pins) workers session_id =
    sticky_result max_pins (pick_sticky max_pins workers session_id pins)

abbrev pub max_session_pins : ℕ
max_session_pins = 10000
