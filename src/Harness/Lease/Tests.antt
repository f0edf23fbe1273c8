-- ===== src/Harness/Lease/Tests.antt =====
-- Sorted sets as functions, and leases of one pod in them.
use Prim.Native.String.{String}
use text.Mathlib.Text.{◌==◌ as text_same}
use text.Mathlib.TextPositions.{eq_refl}
use serverless_harness.Base.{
  ℕ, suc, ◌≤◌, ◌≡◌, refl, true, false, not, none, some, List, [], ◌∷◌, leb, if◌then◌else◌, length,
  keep_if, text_beq, Text, text_key, get, set, delete, get-set, get-delete, length-delete-le, arith,
}
use serverless_harness.Harness.Lease.{SortedSets, acquire_script, load, acquire, heartbeat, release}
use serverless_harness.Harness.Lease.Cap.{same, acquires, releases, Reaches-below_cap}
use serverless_harness.Harness.Lease.Held.{Holds, nothing, loads, Meanwhile-Holds}

abbrev Sets : Type 0
Sets = String → List (Text × ℕ)

abbrev put : Sets → String → List (Text × ℕ) → Sets
put db key ms k = if text_same k key then ms else db k

put_same : (db : Sets) (key : String) (ms : List (Text × ℕ)) → put db key ms key ≡ ms
put_same db key ms = let e = eq_refl key in ground (arith, e)

length-set_new :
    (m : Text) (score : ℕ) (ms : List (Text × ℕ))
    → get m ms ≡ none
    → length (set m score ms) ≡ suc (length ms)
length-set_new m score [] h = refl
length-set_new m score ((j, s) ∷ ms) h = ground (arith, length-set_new m score ms)

length-set_old :
    (m : Text) (score old : ℕ) (ms : List (Text × ℕ))
    → get m ms ≡ some old
    → length (set m score ms) ≡ length ms
length-set_old m score old [] h = cc
length-set_old m score old ((j, s) ∷ ms) h = ground (arith, length-set_old m score old ms)

shorter : (m : Text) (ms : List (Text × ℕ)) → leb (length (delete m ms)) (length ms) ≡ true
shorter m ms = ground (arith, length-delete-le m ms)

abbrev in_memory : SortedSets
in_memory = record {
  Db = Sets;
  members = λ db key. db key;
  remove_up_to = λ db key max. put db key (keep_if (λ m. not (leb m.1 max)) (db key));
  card = λ db key. length (db key);
  add = λ db key score m. put db key (set m score (db key));
  remove = λ db key m. put db key (delete m (db key));
  members_remove_up_to = λ db key max. put_same db key _;
  card_members = λ db key. refl;
  get_add =
      λ db key score m j. rw (put_same db key (set m score (db key))) (get-set m j score (db key));
  length_add_new = λ db key score m h.
      rw (put_same db key (set m score (db key))) (length-set_new m score (db key) h);
  length_add_old = λ db key score old m h.
      rw (put_same db key (set m score (db key))) (length-set_old m score old (db key) h);
  get_remove = λ db key m j. rw (put_same db key (delete m (db key))) (get-delete m j (db key));
  length_remove = λ db key m. rw (put_same db key (delete m (db key))) (shorter m (db key));
}

run_leases : Unit {0}
unfolding load acquire acquire_script heartbeat release text_beq
run_leases = tt

abbrev leaf : Text
leaf = 97 ∷ []

abbrev crashed : Text
crashed = 98 ∷ []

-- One lease, which lapses at 100.
abbrev redis : Sets
redis key = (crashed, 100) ∷ []

lease_tests :
    ((acquire in_memory "pod" 1 leaf 50 99 redis).1 ≡ false)
    × ((acquire in_memory "pod" 1 leaf 50 100 redis).1 ≡ true)
    × ((load in_memory "pod" 150 (acquire in_memory "pod" 1 leaf 50 100 redis).0).1 ≡ 0)
unfolding run_leases
lease_tests = (refl, refl, refl)

abbrev granted : Sets
granted = (acquire in_memory "pod" 1 leaf 50 100 redis).0

Reaches-below_cap_example :
    length (release in_memory "pod" leaf granted "sh:sandbox:pod:leases") ≤ 1
Reaches-below_cap_example =
    Reaches-below_cap in_memory "pod" 1 redis (release in_memory "pod" leaf granted)
      (releases granted leaf (acquires redis leaf 50 100 same)) (omega arith)

Meanwhile-Holds_example : Holds in_memory "pod" leaf 150 (load in_memory "pod" 140 granted).0
unfolding run_leases
Meanwhile-Holds_example =
    Meanwhile-Holds in_memory "pod" leaf 150 granted (load in_memory "pod" 140 granted).0
      (loads granted 140 (omega arith) nothing) refl
