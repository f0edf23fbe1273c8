-- ===== src/Supervisor/Pool/Run/Array.antt =====
-- The array and the store: each slot of the array was created for its own index, so no slot stands
-- twice, and the report of one worker changes no other's slot.
use serverless_harness.Base.{
  ℕ, zero, suc, ◌<◌, ◌≡◌, ◌≢◌, refl, sym, ◌∙◌, ap, subst, Bool, true, false, inl, inr, none, some,
  Option, List, [], ◌∷◌, arith, nat_beq_iff, if◌then◌else◌, get_elem?, put_at, ltb, ◌⊎◌,
}
use serverless_harness.Supervisor.Pool.State.{
  Handle, Slot, PoolOptions, Pool, write, set_slot, slot_at,
}
use serverless_harness.Supervisor.Pool.Events.{
  Message, ready, draining, stats, load, new_pool, spawn_all, empty_pool, notify_if_idle,
  settle_refusal, count_over, reconcile, on_message, on_timer, spawn, restart, remove_at,
}
use serverless_harness.Supervisor.Pool.Run.{Event, timer, step, run}
use serverless_harness.Supervisor.Pool.Run.Shape.{Moves, Moves-outside}
use serverless_harness.Supervisor.Pool.Run.Moves.{step-Moves, on_message-Moves}

-- The slot at index `i` was spawned for `i`, and its reference has been given out.
pub record IsAt (p : Pool) (i r : ℕ) : Type 0 where
  pub allocated : r < p.next
  pub index : (p.cells r).id ≡ i

abbrev pub IsWf : Pool → Type 0
IsWf p = (i r : ℕ) → slot_at p i ≡ some r → IsAt p i r

pub Moves-IsWf : {p q : Pool} → Moves p q → IsWf p → IsWf q
Moves-IsWf {p} {q} s w i r h =
    let before = w i r (subst (λ l. get_elem? l i ≡ some r) s.slots h) in
    record {
      allocated = omega (arith, s.next, before.allocated);
      index = (s.cell r).id ∙ before.index;
    }

get_elem?-put_at :
    (xs : List ℕ) (i v j r : ℕ)
    → get_elem? (put_at xs i v) j ≡ some r
    → ((j ≡ i) × (r ≡ v)) ⊎ (get_elem? xs j ≡ some r)
get_elem?-put_at [] zero v zero r h = inl (refl, cc)
get_elem?-put_at [] zero v (suc j) r h = cc
get_elem?-put_at [] (suc i) v j r h = cc
get_elem?-put_at (x ∷ xs) zero v zero r h = inl (refl, cc)
get_elem?-put_at (x ∷ xs) zero v (suc j) r h = inr h
get_elem?-put_at (x ∷ xs) (suc i) v zero r h = inr h
get_elem?-put_at (x ∷ xs) (suc i) v (suc j) r h = elim (get_elem?-put_at xs i v j r h) [
  | inl (a, b) ↦ inl (ap suc a, b)
  | inr e ↦ inr e
]

spawn-IsWf : (id now : ℕ) (handle : Handle) (p : Pool) → IsWf p → IsWf (spawn id now handle p)
unfolding spawn
spawn-IsWf id now handle p w i r h = elim (get_elem?-put_at p.slots id p.next i r h) [
  | inl (here, new) ↦ record {
    allocated = omega arith;
    index = ground (arith, nat_beq_iff r p.next);
  }
  | inr old ↦
      let at = w i r old in
      record {
        allocated = omega (arith, at.allocated);
        index = ground (arith, nat_beq_iff r p.next, at.allocated, at.index);
      }
]

spawn_all-IsWf :
    (n id now : ℕ) (handles : ℕ → Handle) (p : Pool) → IsWf p → IsWf (spawn_all n id now handles p)
unfolding spawn_all
spawn_all-IsWf zero id now handles p w = w
spawn_all-IsWf (suc n) id now handles p w =
    spawn_all-IsWf n (suc id) now handles _ (spawn-IsWf id now (handles id) p w)

IsWf-if : (b : Bool) (p q : Pool) → IsWf p → IsWf q → IsWf (if b then p else q)
IsWf-if true p q v w = v
IsWf-if false p q v w = w

restart-IsWf :
    (due : Option (ℕ × ℕ)) (now : ℕ) (handle : Handle) (p : Pool)
    → IsWf p
    → IsWf (restart due now handle p)
unfolding restart
restart-IsWf none now handle p w = w
restart-IsWf (some (id, delay)) now handle p w =
    IsWf-if p.shutting_down p _ w (spawn-IsWf id now handle p w)

step-IsWf : (e : Event) (p : Pool) → IsWf p → IsWf (step e p)
unfolding step on_timer
step-IsWf (timer k now handle) p w =
    restart-IsWf (get_elem? p.timers k) now handle popped
      (Moves-IsWf (Moves-outside p popped refl refl refl (λ e. e) refl) w)
  where
    popped : Pool
    popped = record p { timers = remove_at k p.timers }
step-IsWf e p w = Moves-IsWf (step-Moves e p (inr (λ t. t))) w

run-IsWf : (es : List Event) (p : Pool) → IsWf p → IsWf (run es p)
unfolding run
run-IsWf [] p w = w
run-IsWf (e ∷ es) p w = run-IsWf es (step e p) (step-IsWf e p w)

-- From its constructor on, whatever a pool goes through, the slot that stands at index `i` of its array
-- was spawned for `i` and no later slot has its reference.
pub run-new_pool-IsWf :
    (opts : PoolOptions) (now : ℕ) (handles : ℕ → Handle) (es : List Event)
    → IsWf (run es (new_pool opts now handles))
unfolding new_pool
run-new_pool-IsWf opts now handles es =
    run-IsWf es _ (spawn_all-IsWf opts.workers 0 now handles (empty_pool opts) (λ i r h. cc))

-- The cells other than the one at `r` are as they were.
abbrev OnlyAt : ℕ → Pool → Pool → Type 0
OnlyAt r p q = (k : ℕ) → k ≢ r → q.cells k ≡ p.cells k

write_ne : (cells : ℕ → Slot) (r : ℕ) (s : Slot) (k : ℕ) → k ≢ r → write r s cells k ≡ cells k
write_ne cells r s k h = ground (arith, nat_beq_iff k r)

pub notify_if_idle-cells : (p : Pool) → (notify_if_idle p).cells ≡ p.cells
unfolding notify_if_idle
notify_if_idle-cells p = ground arith

pub count_over-cells : (over : Bool) (p : Pool) → (count_over over p).cells ≡ p.cells
count_over-cells true p = refl
count_over-cells false p = refl

settle_refusal-OnlyAt :
    (r actual : ℕ) (o : Option ℕ) (p : Pool) → OnlyAt r p (settle_refusal r actual o p)
unfolding settle_refusal set_slot
settle_refusal-OnlyAt r actual none p k h = refl
settle_refusal-OnlyAt r actual (some e) p k h = ground (arith, nat_beq_iff k r)

reconcile-OnlyAt : (r actual : ℕ) (p : Pool) → OnlyAt r p (reconcile r actual p)
unfolding reconcile set_slot
reconcile-OnlyAt r actual p k h =
    let written = set_slot r (record (p.cells r) { in_flight = actual }) p in
    let over = ltb (p.cells r).in_flight actual in
    let counted = count_over over (notify_if_idle written) in
    settle_refusal-OnlyAt r actual _ counted k h
    ∙ ap (λ c. c k) (count_over-cells over (notify_if_idle written) ∙ notify_if_idle-cells written)
    ∙ write_ne p.cells r _ k h

on_message-OnlyAt : (r : ℕ) (m : Message) (p : Pool) → OnlyAt r p (on_message r m p)
unfolding on_message set_slot
on_message-OnlyAt r ready p k h = ground (arith, nat_beq_iff k r)
on_message-OnlyAt r draining p k h = ground (arith, nat_beq_iff k r)
on_message-OnlyAt r (stats m) p k h = ground (arith, nat_beq_iff k r)
on_message-OnlyAt r (load none) p k h = refl
on_message-OnlyAt r (load (some actual)) p k h = reconcile-OnlyAt r actual p k h

-- In a pool that its constructor made, a message of the worker at index `i` changes the slot of no other
-- index, and no entry of the array.
pub on_message_isolated :
    (p : Pool) (i j r q : ℕ) (m : Message)
    → IsWf p
    → slot_at p i ≡ some r
    → slot_at p j ≡ some q
    → i ≢ j
    → (slot_at (on_message r m p) j ≡ some q) × ((on_message r m p).cells q ≡ p.cells q)
on_message_isolated p i j r q m w at_i at_j ne = (
  subst (λ l. get_elem? l j ≡ some q) (sym (on_message-Moves r m p).slots) at_j,
  on_message-OnlyAt r m p q
      (λ e. ne (sym (w i r at_i).index ∙ ap (λ k. (p.cells k).id) (sym e) ∙ (w j q at_j).index)),
)
