-- ===== src/Supervisor/Pool/Telemetry.antt =====
-- The readings of the workers: what is made of them for the metrics, and that no routing depends on them.
use serverless_harness.Base.{
  ℕ, suc, ◌≤◌, ◌≡◌, refl, subst, inl, inr, Option, none, some, List, [], ◌∷◌, nat_beq_iff, All, In,
  arith, Bool-cases, leb,
}
use serverless_harness.Supervisor.Pool.State.{
  Readings, Slot, Pool, write, set_slot, views_from, views, max_or, worst, file_op_of, aggregates,
  slot_at,
}
use serverless_harness.Supervisor.Pool.HandOff.{taker}
use serverless_harness.Supervisor.Pool.Events.{Stats, stats, record_stats, on_message}

-- The cell at `r` with other readings.
abbrev with_readings : ℕ → Readings → (ℕ → Slot) → ℕ → Slot
with_readings r v cells = write r (record (cells r) { readings = v }) cells

views_from-readings :
    (r : ℕ) (v : Readings) (cells : ℕ → Slot) (id : ℕ) (rs : List ℕ)
    → views_from id (with_readings r v cells) rs ≡ views_from id cells rs
unfolding views_from
views_from-readings r v cells id [] = refl
views_from-readings r v cells id (k ∷ rs) =
    ground (arith, views_from-readings r v cells (suc id) rs, nat_beq_iff k r)

taker-readings :
    (r : ℕ) (v : Readings) (cells : ℕ → Slot) (o : Option ℕ)
    → taker (with_readings r v cells) o ≡ taker cells o
unfolding taker
taker-readings r v cells none = refl
taker-readings r v cells (some k) = ground (arith, nat_beq_iff k r)

-- Telemetry is advisory: a `stats` message changes neither what a policy sees of the workers nor which
-- workers take a socket.
pub stats_advisory :
    (r : ℕ) (m : Stats) (p : Pool)
    → (views (on_message r (stats m) p) ≡ views p)
      × ((id : ℕ)
          → taker (on_message r (stats m) p).cells (slot_at (on_message r (stats m) p) id)
            ≡ taker p.cells (slot_at p id))
unfolding on_message set_slot views
stats_advisory r m p = (
  views_from-readings r (record_stats m (p.cells r).readings) p.cells 0 p.slots,
  λ id. taker-readings r (record_stats m (p.cells r).readings) p.cells (slot_at p id),
)

abbrev pub op_of : (ℕ → Slot) → ℕ → Option ℕ
op_of cells r = (cells r).readings.file_op_p95_ms

-- The reading of the slot at `r` is at most `n`, if it has one.
abbrev pub AtMost : ℕ → Option ℕ → Type 0
AtMost n none = Unit
AtMost n (some k) = k ≤ n

AtMost-worst : (n k : ℕ) (o : Option ℕ) → AtMost n o → n ≤ k → AtMost k o
AtMost-worst n k none a h = tt
AtMost-worst n k (some j) a h = omega arith

All-AtMost :
    (cells : ℕ → Slot) (n k : ℕ) (rs : List ℕ)
    → n ≤ k
    → All (λ r. AtMost n (op_of cells r)) rs
    → All (λ r. AtMost k (op_of cells r)) rs
All-AtMost cells n k [] h a = tt
All-AtMost cells n k (r ∷ rs) h a =
    (AtMost-worst n k (op_of cells r) a.0 h, All-AtMost cells n k rs h a.1)

-- `o` is the greatest reading of the slots, `none` where none has one.
pub IsWorst : (ℕ → Slot) → List ℕ → Option ℕ → Type 0
IsWorst cells rs none = All (λ r. op_of cells r ≡ none) rs
IsWorst cells rs (some n) =
    ((r : ℕ) × In r rs × (op_of cells r ≡ some n)) × All (λ r. AtMost n (op_of cells r)) rs

AtMost-none :
    (cells : ℕ → Slot) (n : ℕ) (rs : List ℕ)
    → All (λ r. op_of cells r ≡ none) rs
    → All (λ r. AtMost n (op_of cells r)) rs
AtMost-none cells n [] a = tt
AtMost-none cells n (r ∷ rs) a = (rw (a.0) tt, AtMost-none cells n rs a.1)

worst-IsWorst :
    (cells : ℕ → Slot) (r : ℕ) (rs : List ℕ) (o rest : Option ℕ)
    → op_of cells r ≡ o
    → IsWorst cells rs rest
    → IsWorst cells (r ∷ rs) (worst o rest)
unfolding IsWorst
worst-IsWorst cells r rs none none e a = (e, a)
worst-IsWorst cells r rs none (some m) e ((k, i, f), a) = ((k, inr i, f), (rw e tt, a))
worst-IsWorst cells r rs (some n) none e a =
    ((r, inl refl, e), (rw e (omega arith), AtMost-none cells n rs a))
worst-IsWorst cells r rs (some n) (some m) e ((k, i, f), a) = elim (Bool-cases (leb n m)) [
  | inl le ↦
      let greater : m ≡ max_or m (some n) = ground arith in
      subst (λ j. IsWorst cells (r ∷ rs) (some j)) greater ((k, inr i, f), (rw e (ground arith), a))
  | inr gt ↦
      let greater : n ≡ max_or m (some n) = ground arith in
      subst (λ j. IsWorst cells (r ∷ rs) (some j)) greater
        ((r, inl refl, e), (rw e (omega arith), All-AtMost cells m n rs (ground arith) a))
]

file_op_of-IsWorst : (cells : ℕ → Slot) (rs : List ℕ) → IsWorst cells rs (file_op_of cells rs)
unfolding file_op_of IsWorst
file_op_of-IsWorst cells [] = tt
file_op_of-IsWorst cells (r ∷ rs) =
    worst-IsWorst cells r rs (op_of cells r) (file_op_of cells rs) refl
      (file_op_of-IsWorst cells rs)

-- The file-op figure of the metrics is the worst of the workers' readings, and missing exactly where no
-- worker has made one.
pub aggregates-IsWorst : (p : Pool) → IsWorst p.cells p.slots (aggregates p).file_op_p95_ms
unfolding aggregates
aggregates-IsWorst p = file_op_of-IsWorst p.cells p.slots
