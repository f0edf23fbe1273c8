-- ===== src/Supervisor/Pool/HandOff.antt =====
-- `handOff` and `noteRefusal` of pool.ts. The loop takes fuel; `HandOff/Total` shows that
-- `hand_off_fuel` is enough.
pub mod Outcome
pub mod Total
use serverless_harness.Base.{
  ℕ, zero, suc, ◌+◌, Bool, true, false, not, ◌&&◌, Option, none, some, List, [], ◌∷◌, nat_beq,
  if◌then◌else◌, any, keep_if, length,
}
use serverless_harness.Supervisor.Routing.{WorkerView, pick_least_loaded}
use serverless_harness.Supervisor.Pool.State.{
  Slot, Pool, PoolCounters, Effect, write, set_slot, views, slot_at,
}

-- `for (const slot of this.slots) slot.refusalEstimate = slot.inFlight`
unfoldable pub stamp : (ℕ → Slot) → List ℕ → ℕ → Slot
stamp cells [] = cells
stamp cells (r ∷ rs) =
    stamp (write r (record (cells r) { refusal_estimate = some (cells r).in_flight }) cells) rs

unfoldable pub note_refusal : Pool → Pool
note_refusal p = record p {
  refusal_seq = p.refusal_seq + 1;
  refusal_counted = false;
  cells = stamp p.cells p.slots;
}

unfoldable pub note_head_truncated : Pool → Pool
note_head_truncated p = record p {
  tally = record (p.tally) { head_truncations = p.tally.head_truncations + 1 };
}

-- Whether the slot's worker takes a socket: the tests before the send, and that it does not throw.
abbrev pub takes : Slot → Bool
takes s = s.healthy && (s.handle.connected && not s.handle.send_throws)

unfoldable pub taker : (ℕ → Slot) → Option ℕ → Option ℕ
taker cells none = none
taker cells (some r) = if takes (cells r) then some r else none

abbrev pub head_field : Option (List ℕ) → Option (List ℕ)
head_field none = none
head_field (some []) = none
head_field (some (b ∷ bs)) = some (b ∷ bs)

unfoldable pub deliver : ℕ → ℕ → Option (List ℕ) → Pool → Pool
deliver r socket head p = record p {
  cells = write r (record (p.cells r) { in_flight = (p.cells r).in_flight + 1 }) p.cells;
  effects = Effect.conn r socket (head_field head) ∷ p.effects;
}

abbrev pub is_untried : List ℕ → WorkerView → Bool
is_untried tried v = not (any (λ t. nat_beq t v.id) tried)

abbrev pub count_retry : Pool → Pool
count_retry p = record p {
  tally = record (p.tally) { handoff_retries = p.tally.handoff_retries + 1 };
}

unfoldable pub fail_handoff : ℕ → Pool → Pool
unfolding note_refusal
fail_handoff socket p =
    let counted = record p {
      tally = record (p.tally) { handoff_failures = p.tally.handoff_failures + 1 };
    } in
    let noted = note_refusal counted in
    record noted { effects = Effect.refuse socket ∷ noted.effects }

unfoldable pub hand_off_loop :
    ℕ → List ℕ → Option ℕ → ℕ → Option (List ℕ) → Pool → Option (Pool × Option ℕ)
hand_off_loop zero tried target socket head p = none
hand_off_loop (suc fuel) tried none socket head p = some (fail_handoff socket p, none)
hand_off_loop (suc fuel) tried (some t) socket head p =
    let next = pick_least_loaded (keep_if (is_untried (t ∷ tried)) (views p)) in
    let retry = hand_off_loop fuel (t ∷ tried) next socket head (count_retry p) in
    elim (taker p.cells (slot_at p t)) [
      | some r ↦ some (deliver r socket head p, some t)
      | none ↦ retry
    ]

abbrev pub hand_off_fuel : Pool → ℕ
hand_off_fuel p = suc (suc (length p.slots))

unfoldable pub hand_off : ℕ → ℕ → Option (List ℕ) → Pool → Option (Pool × Option ℕ)
unfolding hand_off_loop
hand_off preferred socket head p = hand_off_loop (hand_off_fuel p) [] (some preferred) socket head p
