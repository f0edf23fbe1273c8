-- ===== src/Supervisor/Pool/Run/Drain.antt =====
-- Shutdown: `drainAll` marks every slot, and after it nothing is forked and no worker becomes healthy
-- again.
use serverless_harness.Base.{
  ℕ, ◌≡◌, refl, sym, ◌∙◌, subst, true, inl, inr, List, [], ◌∷◌, arith, nat_beq_iff, In,
}
use serverless_harness.Supervisor.Pool.State.{Pool, set_slot}
use serverless_harness.Supervisor.Pool.Events.{drain_slot, drain_slots, drain_all}
use serverless_harness.Supervisor.Pool.Run.{Event, step, run}
use serverless_harness.Supervisor.Pool.Run.Shape.{Moves, forks, Moves-refl, Moves-trans}
use serverless_harness.Supervisor.Pool.Run.Moves.{step-Moves, drain_slots-Moves, drain_all-Moves}

-- Every slot of the array is drained, and the pool is shutting down.
pub record IsClosing (p : Pool) : Type 0 where
  pub closing : p.shutting_down ≡ true
  pub drained : (r : ℕ) → In r p.slots → (p.cells r).drained ≡ true

drain_slot-drained : (r : ℕ) (p : Pool) → ((drain_slot r p).cells r).drained ≡ true
unfolding drain_slot set_slot
drain_slot-drained r p = ground (arith, nat_beq_iff r r)

drain_slots-drained :
    (rs : List ℕ) (p : Pool) (r : ℕ) → In r rs → ((drain_slots rs p).cells r).drained ≡ true
unfolding drain_slots
drain_slots-drained [] p r m = absurd m
drain_slots-drained (q ∷ rs) p r (inl e) =
    ((drain_slots-Moves rs (drain_slot q p)).cell r).drained (rw e (drain_slot-drained q p))
drain_slots-drained (q ∷ rs) p r (inr m) = drain_slots-drained rs (drain_slot q p) r m

drain_slot-healthy :
    (q : ℕ) (p : Pool) (r : ℕ) → ((drain_slot q p).cells r).healthy ≡ (p.cells r).healthy
unfolding drain_slot set_slot
drain_slot-healthy q p r = ground (arith, nat_beq_iff r q)

drain_slots-healthy :
    (rs : List ℕ) (p : Pool) (r : ℕ) → ((drain_slots rs p).cells r).healthy ≡ (p.cells r).healthy
unfolding drain_slots
drain_slots-healthy [] p r = refl
drain_slots-healthy (q ∷ rs) p r =
    drain_slots-healthy rs (drain_slot q p) r ∙ drain_slot-healthy q p r

drain_all-IsClosing : (p : Pool) → IsClosing (drain_all p)
unfolding drain_all
drain_all-IsClosing p =
    let start = record p { shutting_down = true } in
    let m = drain_slots-Moves p.slots start in
    record {
      closing = m.closing refl;
      drained = λ r h. drain_slots-drained p.slots start r (subst (In r) m.slots h);
    }

run-Moves : (es : List Event) (p : Pool) → p.shutting_down ≡ true → Moves p (run es p)
unfolding run
run-Moves [] p h = Moves-refl p
run-Moves (e ∷ es) p h =
    let m = step-Moves e p (inl h) in Moves-trans m (run-Moves es (step e p) (m.closing h))

-- Once `drainAll` has run, whatever follows forks no worker and leaves the array as it is; every slot of
-- the array is and stays drained, and is healthy only if it was when `drainAll` ran.
pub run-drain_all :
    (es : List Event) (p : Pool)
    → let q = run es (drain_all p) in
      (q.slots ≡ p.slots)
      × (forks q.effects ≡ forks p.effects)
      × ((r : ℕ)
          → In r p.slots
          → ((q.cells r).drained ≡ true)
            × ((q.cells r).healthy ≡ true → (p.cells r).healthy ≡ true))
unfolding drain_all
run-drain_all es p =
    let first = drain_all-Moves p in
    let closing = drain_all-IsClosing p in
    let rest = run-Moves es (drain_all p) closing.closing in
    (
      rest.slots ∙ first.slots,
      rest.forked ∙ first.forked,
      λ r m.
          let before = closing.drained r (subst (In r) (sym first.slots) m) in
          (
            (rest.cell r).drained before,
            λ up.
                sym (drain_slots-healthy p.slots (record p { shutting_down = true }) r)
                ∙ (rest.cell r).healthy before up,
          ),
    )
