-- ===== src/Supervisor/Pool/Events/Steady.antt =====
-- What a worker says changes neither its record of crashes nor the restarts that are due.
use serverless_harness.Base.{
  ℕ, ◌≡◌, refl, ◌∙◌, ap, Bool, true, false, none, some, inl, inr, Option, List, [], ◌∷◌, arith,
  nat_beq_iff, if◌then◌else◌, ltb, not, ◌&&◌, Bool-cases,
}
use serverless_harness.Supervisor.Pool.State.{Slot, PoolCounters, Pool, write, set_slot, all_idle}
use serverless_harness.Supervisor.Pool.Events.{
  Message, ready, draining, stats, load, on_message, reconcile, settle_refusal, count_over,
  notify_if_idle,
}

-- What stands beside the promises is as it was.
pub record Told (p q : Pool) : Type 0 where
  pub cells : q.cells ≡ p.cells
  pub slots : q.slots ≡ p.slots
  pub next : q.next ≡ p.next
  pub opts : q.opts ≡ p.opts
  pub running : q.shutting_down ≡ p.shutting_down
  pub timers : q.timers ≡ p.timers

pub notify_if_idle-Told : (p : Pool) → Told p (notify_if_idle p)
unfolding notify_if_idle
notify_if_idle-Told p = elim (Bool-cases (all_idle p)) [
  | inl e ↦ rw e (record {
    cells = refl;
    slots = refl;
    next = refl;
    opts = refl;
    running = refl;
    timers = refl;
  })
  | inr e ↦ rw e (record {
    cells = refl;
    slots = refl;
    next = refl;
    opts = refl;
    running = refl;
    timers = refl;
  })
]

-- The messages of the worker in the slot at `r`.
abbrev pub hears : ℕ → List Message → Pool → Pool
hears r [] p = p
hears r (m ∷ ms) p = hears r ms (on_message r m p)

-- The record of the worker in the slot at `r`, the array, and the restarts that are due are as they were.
pub record Steady (r : ℕ) (p q : Pool) : Type 0 where
  pub id : (q.cells r).id ≡ (p.cells r).id
  pub crashes : (q.cells r).crashes ≡ (p.cells r).crashes
  pub since : (q.cells r).started_at ≡ (p.cells r).started_at
  pub slots : q.slots ≡ p.slots
  pub next : q.next ≡ p.next
  pub opts : q.opts ≡ p.opts
  pub running : q.shutting_down ≡ p.shutting_down
  pub timers : q.timers ≡ p.timers

Steady-refl : (r : ℕ) (p : Pool) → Steady r p p
Steady-refl r p = record {
  id = refl;
  crashes = refl;
  since = refl;
  slots = refl;
  next = refl;
  opts = refl;
  running = refl;
  timers = refl;
}

Steady-trans : {r : ℕ} {p q u : Pool} → Steady r p q → Steady r q u → Steady r p u
Steady-trans a b = record {
  id = b.id ∙ a.id;
  crashes = b.crashes ∙ a.crashes;
  since = b.since ∙ a.since;
  slots = b.slots ∙ a.slots;
  next = b.next ∙ a.next;
  opts = b.opts ∙ a.opts;
  running = b.running ∙ a.running;
  timers = b.timers ∙ a.timers;
}

Steady-if :
    (b : Bool) (r : ℕ) (p q u : Pool)
    → Steady r p q
    → Steady r p u
    → Steady r p (if b then q else u)
Steady-if true r p q u h k = h
Steady-if false r p q u h k = k

Told-Steady : (r : ℕ) {p q : Pool} → Told p q → Steady r p q
Told-Steady r t = record {
  id = ap (λ c. (c r).id) t.cells;
  crashes = ap (λ c. (c r).crashes) t.cells;
  since = ap (λ c. (c r).started_at) t.cells;
  slots = t.slots;
  next = t.next;
  opts = t.opts;
  running = t.running;
  timers = t.timers;
}

set_slot-Steady :
    (r : ℕ) (s : Slot) (p : Pool)
    → s.id ≡ (p.cells r).id
    → s.crashes ≡ (p.cells r).crashes
    → s.started_at ≡ (p.cells r).started_at
    → Steady r p (set_slot r s p)
unfolding set_slot
set_slot-Steady r s p id crashes since =
    let e : write r s p.cells r ≡ s = ground (arith, nat_beq_iff r r) in
    record {
      id = ap (λ (c : Slot). c.id) e ∙ id;
      crashes = ap (λ (c : Slot). c.crashes) e ∙ crashes;
      since = ap (λ (c : Slot). c.started_at) e ∙ since;
      slots = refl;
      next = refl;
      opts = refl;
      running = refl;
      timers = refl;
    }

-- A count in the tally.
tally-Steady :
    (r : ℕ) (p : Pool) (counted : Bool) (t : PoolCounters)
    → Steady r p (record p { refusal_counted = counted; tally = t })
tally-Steady r p counted t = record {
  id = refl;
  crashes = refl;
  since = refl;
  slots = refl;
  next = refl;
  opts = refl;
  running = refl;
  timers = refl;
}

count_over-Steady : (r : ℕ) (over : Bool) (p : Pool) → Steady r p (count_over over p)
count_over-Steady r over p =
    Steady-if over r p _ p (tally-Steady r p p.refusal_counted _) (Steady-refl r p)

settle_refusal-Steady :
    (r actual : ℕ) (o : Option ℕ) (p : Pool) → Steady r p (settle_refusal r actual o p)
unfolding settle_refusal
settle_refusal-Steady r actual none p = Steady-refl r p
settle_refusal-Steady r actual (some e) p =
    let seen =
      set_slot-Steady r (record (p.cells r) { refusal_estimate = none }) p refl refl refl in
    Steady-if (ltb actual e && not p.refusal_counted) r p _ _
      (Steady-trans seen (tally-Steady r _ true _)) seen

reconcile-Steady : (r actual : ℕ) (p : Pool) → Steady r p (reconcile r actual p)
unfolding reconcile
reconcile-Steady r actual p =
    let s = record (p.cells r) { in_flight = actual } in
    let over = ltb (p.cells r).in_flight actual in
    let told = notify_if_idle (set_slot r s p) in
    Steady-trans (set_slot-Steady r s p refl refl refl) (
      Steady-trans (Told-Steady r (notify_if_idle-Told (set_slot r s p))) (
        Steady-trans (count_over-Steady r over told)
          (settle_refusal-Steady r actual _ (count_over over told))))

on_message-Steady : (r : ℕ) (m : Message) (p : Pool) → Steady r p (on_message r m p)
unfolding on_message
on_message-Steady r ready p =
    Steady-if (p.cells r).drained r p p _ (Steady-refl r p) (set_slot-Steady r _ p refl refl refl)
on_message-Steady r draining p = set_slot-Steady r _ p refl refl refl
on_message-Steady r (stats m) p = set_slot-Steady r _ p refl refl refl
on_message-Steady r (load none) p = Steady-refl r p
on_message-Steady r (load (some actual)) p = reconcile-Steady r actual p

pub hears-Steady : (r : ℕ) (ms : List Message) (p : Pool) → Steady r p (hears r ms p)
hears-Steady r [] p = Steady-refl r p
hears-Steady r (m ∷ ms) p =
    Steady-trans (on_message-Steady r m p) (hears-Steady r ms (on_message r m p))
