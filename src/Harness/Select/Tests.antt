-- ===== src/Harness/Select/Tests.antt =====
-- Selections at a small store.
use Prim.Native.String.{String}
use text.Mathlib.Text.{◌==◌ as text_same}
use text.Mathlib.TextPositions.{eq_refl}
use serverless_harness.Base.{
  ℕ, ◌≡◌, refl, ◌↔◌, Bool, true, false, ◌&&◌, Option, none, some, List, [], ◌∷◌, map, In,
  if◌then◌else◌, arith,
}
use serverless_harness.Harness.Select.{
  Load, numbered, order_by_load, resolve_discovery_source, LeaseStore, SelectOptions, Selection,
  failed, no_transport, both, load_all, use_lease, acquire_first, select_among, select_from,
  select_pool_sandbox,
}
use serverless_harness.Harness.Select.Order.{Row, Ascending}
use serverless_harness.Harness.Select.First.{IsTried, select_among-IsTried}
use serverless_harness.Harness.Select.Leased.{IsLeased, select_pool_sandbox-IsLeased}

run_select : Unit {0}
unfolding order_by_load resolve_discovery_source load_all use_lease acquire_first select_among
    select_from select_pool_sandbox
run_select = tt

abbrev two : List Load
two =
    record { pod = "a"; active = 2 }
    ∷ record { pod = "b"; active = 1 }
    ∷ record { pod = "c"; active = 1 }
    ∷ []

order_tests : order_by_load two ≡ "b" ∷ "c" ∷ "a" ∷ []
unfolding run_select
order_tests = refl

-- Who has a lease of what; a pod has one.
abbrev Held : Type 0
Held = String → String → Bool

abbrev grant : String → String → Held → Held
grant pod holder w p h = if text_same p pod && text_same h holder then true else w p h

abbrev take_back : String → String → Held → Held
take_back pod holder w p h = if text_same p pod && text_same h holder then false else w p h

grant-here : (pod holder : String) (w : Held) → grant pod holder w pod holder ≡ true
grant-here pod holder w = let a = eq_refl pod in let b = eq_refl holder in ground (arith, a, b)

grant-others :
    (pod holder : String) (w : Held) (p h : String)
    → grant pod holder w p h ≡ true
    → (text_same p pod && text_same h holder) ≡ false
    → w p h ≡ true
grant-others pod holder w p h held other = ground (arith, held, other)

take_back-none :
    (pod holder : String) (w : Held) (p h : String)
    → take_back pod holder w p h ≡ true
    → w p h ≡ true
take_back-none pod holder w p h held = ground (arith, held)

take_back-here : (pod holder : String) (w : Held) → take_back pod holder w pod holder ≡ false
take_back-here pod holder w = let a = eq_refl pod in let b = eq_refl holder in ground (arith, a, b)

never_refused {ℓ} : {A : Type ℓ} → some true ≡ some false → A
never_refused h = absurd (cc h)

abbrev roomy : LeaseStore
roomy = record {
  World = Held;
  held = λ w. w;
  load = λ pod w. (w, some 0);
  acquire = λ pod pod_cap holder ttl w. (grant pod holder w, some true);
  release = λ pod holder w. (take_back pod holder w, true);
  load_makes_none = λ pod w p h held. held;
  refused_makes_none = λ pod pod_cap holder ttl w p h refused held. never_refused refused;
  granted_makes_one = λ pod pod_cap holder ttl w granted. grant-here pod holder w;
  acquire_makes_no_other = λ pod pod_cap holder ttl w p h. grant-others pod holder w p h;
  release_makes_none = take_back-none;
  release_frees = λ pod holder w freed. take_back-here pod holder w;
}

abbrev nobody : Held
nobody p h = false

abbrev opts : SelectOptions
opts = record { pod_cap = 1; ttl_ms = 1000; remote_sandbox = true; holder_id = none }

-- The relay has no transport for any sandbox.
abbrev no_relay : String → String → Option ℕ
no_relay id session = none

abbrev pod_config : String → String
pod_config pod = pod

-- One sandbox has attached to the relay, and no pod is listed.
abbrev attempt : Held × Selection String ℕ
attempt =
    select_pool_sandbox roomy pod_config none no_relay (some "app=sandbox") none opts "s1" []
      ("r" ∷ []) nobody

select_tests : (attempt.1 ≡ failed (no_transport "r")) × (attempt.0 "r" "s1" ≡ false)
unfolding run_select
select_tests = (refl, refl)

select_pool_sandbox-IsLeased_example : IsLeased roomy pod_config none no_relay "s1" nobody (
    select_pool_sandbox roomy pod_config none no_relay
      (some "app=sandbox")
      none
      opts
      "s1"
      ("p" ∷ [])
      ("r" ∷ [])
      nobody)
select_pool_sandbox-IsLeased_example =
    select_pool_sandbox-IsLeased roomy pod_config none no_relay (some "app=sandbox") none opts "s1"
      ("p" ∷ []) ("r" ∷ []) nobody

-- Two pods are free, and the first that was listed is asked first.
abbrev free : List Load
free = record { pod = "p"; active = 0 } ∷ record { pod = "r"; active = 0 } ∷ []

select_among-IsTried_example :
    (map (λ l. l.pod) free ≡ "p" ∷ "r" ∷ [])
    × (rows : List Row) × Ascending rows
    × ((x : Row) → In x rows ↔ In x (numbered 0 free))
    × IsTried roomy pod_config none no_relay opts "s1" rows nobody (
        select_among roomy pod_config none no_relay "app=sandbox" both opts "s1"
          ("p" ∷ [])
          ("r" ∷ [])
          nobody)
unfolding run_select
select_among-IsTried_example =
    select_among-IsTried roomy pod_config none no_relay "app=sandbox" both opts "s1" ("p" ∷ [])
      ("r" ∷ []) nobody nobody free (λ e. cc e) refl
