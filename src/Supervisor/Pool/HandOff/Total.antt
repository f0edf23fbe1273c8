-- ===== src/Supervisor/Pool/HandOff/Total.antt =====
-- The fuel of the hand-off loop is enough, and every round keeps the outcome.
use serverless_harness.Base.{
  ℕ, zero, suc, ◌<◌, ◌≡◌, refl, ◌⊎◌, inl, inr, true, Option, none, some, List, [], ◌∷◌, nat_beq_iff,
  keep_if, length, arith, In, length-keep_if-le, length-keep_if-lt, Bool-cases,
}
use serverless_harness.Supervisor.Routing.{WorkerView, pick_least_loaded}
use serverless_harness.Supervisor.Routing.LeastLoaded.{pick_least_loaded_cases, IsLeast-In}
use serverless_harness.Supervisor.Pool.State.{Slot, Pool, views, slot_at}
use serverless_harness.Supervisor.Pool.Views.{length-views}
use serverless_harness.Supervisor.Pool.HandOff.{
  takes, taker, deliver, fail_handoff, is_untried, count_retry, hand_off_loop, hand_off,
}
use serverless_harness.Supervisor.Pool.HandOff.Outcome.{
  Declines, AllDecline, Ends, HandedOff, untried, Declines-of-pick_none, fail_handoff-Refused,
  deliver-Delivered, HandedOff-count_retry,
}

taker_cases :
    (cells : ℕ → Slot) (o : Option ℕ)
    → (taker cells o ≡ none)
      ⊎ ((r : ℕ) × (taker cells o ≡ some r) × (o ≡ some r) × (takes (cells r) ≡ true))
unfolding taker
taker_cases cells none = inl refl
taker_cases cells (some r) = elim (Bool-cases (takes (cells r))) [
  | inl up ↦ inr (r, rw up, refl, up)
  | inr down ↦ inl (rw down)
]

untried-shrinks :
    (tried : List ℕ) (b : WorkerView) (ws : List WorkerView)
    → In b (keep_if (is_untried tried) ws)
    → length (keep_if (is_untried (b.id ∷ tried)) ws) < length (keep_if (is_untried tried) ws)
untried-shrinks tried b ws m =
    length-keep_if-lt (is_untried tried) (is_untried (b.id ∷ tried)) ws b (λ x h. ground arith) m
      (ground (arith, nat_beq_iff b.id b.id))

module _ (socket : ℕ) (head : Option (List ℕ)) where
  abbrev run_from : ℕ → List ℕ → Option ℕ → Pool → Option (Pool × Option ℕ)
  run_from fuel tried target p = hand_off_loop fuel tried target socket head p

  abbrev next_of : List ℕ → Pool → Option ℕ
  next_of tried p = pick_least_loaded (untried tried p)

  -- One round at a worker that declines leaves the outcome to the next.
  round_declined :
      (fuel : ℕ) (tried : List ℕ) (t : ℕ) (p : Pool)
      → Declines p t
      → Ends socket head
          (count_retry p)
          (run_from fuel (t ∷ tried) (next_of (t ∷ tried) p) (count_retry p))
      → Ends socket head p (run_from (suc fuel) tried (some t) p)
  unfolding hand_off_loop
  round_declined fuel tried t p declined (r, e, o) =
      (r, rw (declined, hand_off_loop) e, HandedOff-count_retry socket head p r o)

  round_taken :
      (fuel : ℕ) (tried : List ℕ) (t r : ℕ) (p : Pool)
      → taker p.cells (slot_at p t) ≡ some r
      → slot_at p t ≡ some r
      → takes (p.cells r) ≡ true
      → Ends socket head p (run_from (suc fuel) tried (some t) p)
  unfolding hand_off_loop
  round_taken fuel tried t r p taken at able = (
    (deliver r socket head p, some t),
    rw (taken, hand_off_loop),
    deliver-Delivered socket head p t r at able,
  )

  hand_off_loop-Ends :
      (fuel : ℕ) (tried : List ℕ) (p : Pool)
      → AllDecline tried p
      → length (untried tried p) < fuel
      → Ends socket head p (run_from fuel tried (next_of tried p) p)
  unfolding views hand_off_loop
  hand_off_loop-Ends zero tried p declined enough = absurd (omega arith)
  hand_off_loop-Ends (suc fuel) tried p declined enough =
      elim (pick_least_loaded_cases (untried tried p)) [
        | inl (e, _) ↦ (
          (fail_handoff socket p, none),
          rw (e, hand_off_loop),
          fail_handoff-Refused socket head p (Declines-of-pick_none p tried declined e),
        )
        | inr (b, e, l) ↦ elim (taker_cases p.cells (slot_at p b.id)) [
          | inl declines ↦
              let fewer = untried-shrinks tried b (views p) (IsLeast-In l) in
              let rest =
                hand_off_loop-Ends fuel (b.id ∷ tried) (count_retry p) (declines, declined)
                  (omega arith) in
              rw e (round_declined fuel tried b.id p declines rest)
          | inr (r, taken, at, able) ↦ rw e (round_taken fuel tried b.id r p taken at able)
        ]
      ]

  -- `handOff` ends, on every pool. Either one worker, which is healthy, connected and does not throw,
  -- has the socket, its estimate is one higher and nothing else is sent; or the socket is answered 429,
  -- one refusal is noted, no load estimate changes, and no worker of the pool would have taken it.
  pub hand_off-HandedOff :
      (preferred : ℕ) (p : Pool)
      → (r : Pool × Option ℕ) × (hand_off preferred socket head p ≡ some r)
        × HandedOff p socket head r
  unfolding hand_off views
  hand_off-HandedOff preferred p = elim (taker_cases p.cells (slot_at p preferred)) [
    | inl declines ↦
        let first =
          hand_off_loop-Ends (suc (length p.slots)) (preferred ∷ []) (count_retry p) (declines, tt)
            (omega
              (arith, length-views p, length-keep_if-le (is_untried (preferred ∷ [])) (views p))) in
        round_declined (suc (length p.slots)) [] preferred p declines first
    | inr (r, taken, at, able) ↦ round_taken (suc (length p.slots)) [] preferred r p taken at able
  ]

taken-slot_at :
    (cells : ℕ → Slot) (o : Option ℕ) (r : ℕ)
    → o ≡ some r
    → takes (cells r) ≡ true
    → taker cells o ≡ some r
unfolding taker
taken-slot_at cells o r at able = ground arith

-- The preferred worker has the socket if it takes it.
pub hand_off_taken :
    (t r socket : ℕ) (head : Option (List ℕ)) (p : Pool)
    → slot_at p t ≡ some r
    → takes (p.cells r) ≡ true
    → hand_off t socket head p ≡ some (deliver r socket head p, some t)
unfolding hand_off
hand_off_taken t r socket head p at able =
    let taken = taken-slot_at p.cells (slot_at p t) r at able in rw (taken, hand_off_loop)
