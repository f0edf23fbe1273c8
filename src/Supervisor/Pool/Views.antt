-- ===== src/Supervisor/Pool/Views.antt =====
-- The list of views and the array of slots, entry by entry.
use serverless_harness.Base.{
  ℕ, zero, suc, ◌+◌, ◌≡◌, refl, inl, inr, some, List, [], ◌∷◌, arith, In, get_elem?, length, ap,
  subst,
}
use serverless_harness.Supervisor.Routing.{WorkerView}
use serverless_harness.Supervisor.Pool.State.{Slot, Pool, views_from, views, slot_at}

-- The view shows the slot in the array at its id.
pub record Shows (cells : ℕ → Slot) (w : WorkerView) (r : ℕ) : Type 0 where
  pub healthy : w.healthy ≡ (cells r).healthy
  pub in_flight : w.in_flight ≡ (cells r).in_flight

views_from-of :
    (cells : ℕ → Slot) (base i r : ℕ) (rs : List ℕ)
    → get_elem? rs i ≡ some r
    → (w : WorkerView) × In w (views_from base cells rs) × (w.id ≡ base + i) × Shows cells w r
unfolding views_from
views_from-of cells base i r [] h = cc
views_from-of cells base zero r (q ∷ rs) h =
    let same : q ≡ r = cc in
    (
      record { id = base; in_flight = (cells q).in_flight; healthy = (cells q).healthy },
      inl refl,
      omega arith,
      record {
        healthy = ap (λ x. (cells x).healthy) same;
        in_flight = ap (λ x. (cells x).in_flight) same;
      },
    )
views_from-of cells base (suc i) r (q ∷ rs) h =
    let (w, m, e, s) = views_from-of cells (suc base) i r rs h in (w, inr m, omega arith, s)

views_from-slot :
    (cells : ℕ → Slot) (base : ℕ) (rs : List ℕ) (w : WorkerView)
    → In w (views_from base cells rs)
    → (i r : ℕ) × (w.id ≡ base + i) × (get_elem? rs i ≡ some r) × Shows cells w r
unfolding views_from
views_from-slot cells base [] w m = absurd m
views_from-slot cells base (q ∷ rs) w (inl e) = (
  0,
  q,
  omega (arith, ap (λ (v : WorkerView). v.id) e),
  refl,
  record {
    healthy = ap (λ (v : WorkerView). v.healthy) e;
    in_flight = ap (λ (v : WorkerView). v.in_flight) e;
  },
)
views_from-slot cells base (q ∷ rs) w (inr m) =
    let (i, r, e, h, s) = views_from-slot cells (suc base) rs w m in (suc i, r, omega arith, h, s)

-- Every slot of the array has a view.
pub views-of :
    (p : Pool) (id r : ℕ)
    → slot_at p id ≡ some r
    → (w : WorkerView) × In w (views p) × (w.id ≡ id) × Shows p.cells w r
unfolding views
views-of p id r h =
    let (w, m, e, s) = views_from-of p.cells 0 id r p.slots h in (w, m, omega arith, s)

-- Every view is of a slot of the array.
pub views-slot :
    (p : Pool) (w : WorkerView)
    → In w (views p)
    → (r : ℕ) × (slot_at p w.id ≡ some r) × Shows p.cells w r
unfolding views
views-slot p w m =
    let (i, r, e, h, s) = views_from-slot p.cells 0 p.slots w m in
    (r, subst (λ k. get_elem? p.slots k ≡ some r) (let q : i ≡ w.id = omega arith in q) h, s)

length-views_from :
    (base : ℕ) (cells : ℕ → Slot) (rs : List ℕ) → length (views_from base cells rs) ≡ length rs
unfolding views_from
length-views_from base cells [] = refl
length-views_from base cells (r ∷ rs) = ap suc (length-views_from (suc base) cells rs)

pub length-views : (p : Pool) → length (views p) ≡ length p.slots
unfolding views
length-views p = length-views_from 0 p.cells p.slots
