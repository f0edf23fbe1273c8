-- ===== src/Supervisor/Routing/LeastLoaded.antt =====
-- The default choice of a worker, and the admission test.
use serverless_harness.Base.{
  ℕ, ◌≡◌, refl, sym, subst, ltb→lt, ◌&&◌, ◌≤◌, ◌<◌, ◌↔◌, ◌⊎◌, inl, inr, true, false, none, some,
  List, [], ◌∷◌, ltb, arith, All, In, Bool-cases,
}
use serverless_harness.Supervisor.Routing.{
  WorkerView, consider, least_from, id_of, pick_least_loaded, is_saturated,
}

-- The healthy worker `b` has no more turns in flight than any healthy one of the list, and fewer than
-- each that stands before it.
pub data IsLeast (b : WorkerView) : List WorkerView → Type 0 where
  here :
      {ws : List WorkerView}
      → b.healthy ≡ true
      → All (λ w. w.healthy ≡ true → b.in_flight ≤ w.in_flight) ws
      → IsLeast b (b ∷ ws)
  there :
      {w : WorkerView} {ws : List WorkerView}
      → (w.healthy ≡ true → b.in_flight < w.in_flight)
      → IsLeast b ws
      → IsLeast b (w ∷ ws)

abbrev Keeps : WorkerView → List WorkerView → WorkerView → Type 0
Keeps best ws b =
    ((b ≡ best) × All (λ w. w.healthy ≡ true → best.in_flight ≤ w.in_flight) ws)
    ⊎ ((b.in_flight < best.in_flight) × IsLeast b ws)

Keeps-lighter :
    (best w b : WorkerView) (ws : List WorkerView)
    → w.healthy ≡ true
    → w.in_flight < best.in_flight
    → Keeps w ws b
    → Keeps best (w ∷ ws) b
Keeps-lighter best w b ws up less (inl (e, rest)) =
    inr (rw e less, subst (λ x. IsLeast x (w ∷ ws)) (sym e) (here up rest))
Keeps-lighter best w b ws up less (inr (lt, l)) = inr (omega arith, there (λ _. lt) l)

Keeps-skip :
    (best w b : WorkerView) (ws : List WorkerView)
    → (w.healthy ≡ true → best.in_flight ≤ w.in_flight)
    → Keeps best ws b
    → Keeps best (w ∷ ws) b
Keeps-skip best w b ws skip (inl (e, rest)) = inl (e, (skip, rest))
Keeps-skip best w b ws skip (inr (lt, l)) = inr (lt, there (λ up. let h = skip up in omega arith) l)

consider-lighter :
    (best w : WorkerView)
    → w.healthy ≡ true
    → ltb w.in_flight best.in_flight ≡ true
    → consider (some best) w ≡ some w
unfolding consider
consider-lighter best w up less = ground arith

consider-skip :
    (best w : WorkerView)
    → (w.healthy ≡ false) ⊎ (ltb w.in_flight best.in_flight ≡ false)
    → consider (some best) w ≡ some best
unfolding consider
consider-skip best w skip = ground arith

least_from-some :
    (best : WorkerView) (ws : List WorkerView)
    → (b : WorkerView) × (least_from (some best) ws ≡ some b) × Keeps best ws b
unfolding least_from
least_from-some best [] = (best, refl, inl (refl, tt))
least_from-some best (w ∷ ws) = elim (Bool-cases (w.healthy && ltb w.in_flight best.in_flight)) [
  | inl take ↦
      let (b, e, k) = least_from-some w ws in
      let up : w.healthy ≡ true = ground arith in
      let less : ltb w.in_flight best.in_flight ≡ true = ground arith in
      (b, rw (consider-lighter best w up less) e, Keeps-lighter best w b ws up (ltb→lt _ _ less) k)
  | inr skip ↦
      let (b, e, k) = least_from-some best ws in
      (b, rw (consider-skip best w (ground arith)) e, Keeps-skip best w b ws (ground arith) k)
]

consider-first : (w : WorkerView) → w.healthy ≡ true → consider none w ≡ some w
unfolding consider
consider-first w up = ground arith

consider-down : (w : WorkerView) → w.healthy ≡ false → consider none w ≡ none
unfolding consider
consider-down w down = ground arith

least_from-none :
    (ws : List WorkerView)
    → ((least_from none ws ≡ none) × All (λ w. w.healthy ≡ false) ws)
      ⊎ ((b : WorkerView) × (least_from none ws ≡ some b) × IsLeast b ws)
unfolding least_from
least_from-none [] = inl (refl, tt)
least_from-none (w ∷ ws) = elim (Bool-cases w.healthy) [
  | inl up ↦
      let (b, e, k) = least_from-some w ws in
      inr (b, rw (consider-first w up) e, started w b ws up k)
  | inr down ↦ elim (least_from-none ws) [
    | inl (e, rest) ↦ inl (rw (consider-down w down) e, (down, rest))
    | inr (b, e, l) ↦ inr (b, rw (consider-down w down) e, there (λ up. cc) l)
  ]
]
  where
    started :
        (w b : WorkerView) (ws : List WorkerView)
        → w.healthy ≡ true
        → Keeps w ws b
        → IsLeast b (w ∷ ws)
    started w b ws up (inl (e, rest)) = subst (λ x. IsLeast x (w ∷ ws)) (sym e) (here up rest)
    started w b ws up (inr (lt, l)) = there (λ _. lt) l

-- The choice is the first of the healthy workers with the fewest turns in flight; there is none
-- exactly when no worker is healthy.
pub pick_least_loaded_cases :
    (ws : List WorkerView)
    → ((pick_least_loaded ws ≡ none) × All (λ w. w.healthy ≡ false) ws)
      ⊎ ((b : WorkerView) × (pick_least_loaded ws ≡ some b.id) × IsLeast b ws)
unfolding pick_least_loaded
pick_least_loaded_cases ws = elim (least_from-none ws) [
  | inl (e, rest) ↦ inl (rw (e, id_of), rest)
  | inr (b, e, l) ↦ inr (b, rw (e, id_of), l)
]

pub IsLeast-healthy : {b : WorkerView} {ws : List WorkerView} → IsLeast b ws → b.healthy ≡ true
IsLeast-healthy (here up rest) = up
IsLeast-healthy (there skip l) = IsLeast-healthy l

pub IsLeast-In : {b : WorkerView} {ws : List WorkerView} → IsLeast b ws → In b ws
IsLeast-In (here up rest) = inl refl
IsLeast-In (there skip l) = inr (IsLeast-In l)

-- A pool is saturated exactly when each of its healthy workers is at the cap or above.
pub is_saturated_iff :
    (ws : List WorkerView) (turns_per_worker : ℕ)
    → (is_saturated ws turns_per_worker ≡ true)
      ↔ All (λ w. w.healthy ≡ true → turns_per_worker ≤ w.in_flight) ws
unfolding is_saturated
is_saturated_iff [] s = ground arith
is_saturated_iff (w ∷ ws) s =
    let (to, from) = is_saturated_iff ws s in
    (λ h. (λ up. ground arith, to (ground arith)), λ h. ground (arith, h.0, from h.1))
