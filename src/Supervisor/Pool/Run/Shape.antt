-- ===== src/Supervisor/Pool/Run/Shape.antt =====
-- What every event but a restart leaves as it was: the array, the index of each slot, and that a
-- drained slot stays drained and is not made healthy again.
use serverless_harness.Base.{
  ℕ, suc, ◌≡◌, refl, sym, ◌∙◌, subst, true, inl, inr, List, [], ◌∷◌, nat_beq, nat_beq_iff,
  Bool-cases,
}
use serverless_harness.Supervisor.Pool.State.{Slot, Pool, Effect, write, set_slot}
use serverless_harness.Supervisor.Pool.HandOff.{stamp}

-- How one slot object may change.
pub record SlotMoves (s t : Slot) : Type 0 where
  pub id : t.id ≡ s.id
  pub drained : s.drained ≡ true → t.drained ≡ true
  pub healthy : s.drained ≡ true → t.healthy ≡ true → s.healthy ≡ true

pub SlotMoves-refl : (s : Slot) → SlotMoves s s
SlotMoves-refl s = record { id = refl; drained = λ h. h; healthy = λ h k. k }

pub SlotMoves-trans : {s t u : Slot} → SlotMoves s t → SlotMoves t u → SlotMoves s u
SlotMoves-trans a b = record {
  id = b.id ∙ a.id;
  drained = λ h. b.drained (a.drained h);
  healthy = λ h k. a.healthy h (b.healthy (a.drained h) k);
}

abbrev pub forks : List Effect → ℕ
forks [] = 0
forks (Effect.fork id ∷ es) = suc (forks es)
forks (e ∷ es) = forks es

pub record Moves (p q : Pool) : Type 0 where
  pub slots : q.slots ≡ p.slots
  pub next : q.next ≡ p.next
  pub closing : p.shutting_down ≡ true → q.shutting_down ≡ true
  pub forked : forks q.effects ≡ forks p.effects
  pub cell : (r : ℕ) → SlotMoves (p.cells r) (q.cells r)

pub Moves-refl : (p : Pool) → Moves p p
Moves-refl p = record {
  slots = refl;
  next = refl;
  closing = λ h. h;
  forked = refl;
  cell = λ r. SlotMoves-refl (p.cells r);
}

pub Moves-trans : {p q u : Pool} → Moves p q → Moves q u → Moves p u
Moves-trans a b = record {
  slots = b.slots ∙ a.slots;
  next = b.next ∙ a.next;
  closing = λ h. b.closing (a.closing h);
  forked = b.forked ∙ a.forked;
  cell = λ r. SlotMoves-trans (a.cell r) (b.cell r);
}

-- A change that leaves the slots alone.
pub Moves-outside :
    (p q : Pool)
    → q.cells ≡ p.cells
    → q.slots ≡ p.slots
    → q.next ≡ p.next
    → (p.shutting_down ≡ true → q.shutting_down ≡ true)
    → forks q.effects ≡ forks p.effects
    → Moves p q
Moves-outside p q cells slots next closing forked = record {
  slots = slots;
  next = next;
  closing = closing;
  forked = forked;
  cell = λ r. rw cells (SlotMoves-refl (p.cells r));
}

write-SlotMoves :
    (cells : ℕ → Slot) (r : ℕ) (s : Slot)
    → SlotMoves (cells r) s
    → (q : ℕ) → SlotMoves (cells q) (write r s cells q)
write-SlotMoves cells r s m q = elim (Bool-cases (nat_beq q r)) [
  | inl e ↦ rw e (subst (λ k. SlotMoves (cells k) s) (sym ((nat_beq_iff q r).0 e)) m)
  | inr e ↦ rw e (SlotMoves-refl (cells q))
]

-- A change of one slot, and of what stands beside the slots.
pub write-Moves :
    (p q : Pool) (r : ℕ) (s : Slot)
    → q.cells ≡ write r s p.cells
    → SlotMoves (p.cells r) s
    → q.slots ≡ p.slots
    → q.next ≡ p.next
    → (p.shutting_down ≡ true → q.shutting_down ≡ true)
    → forks q.effects ≡ forks p.effects
    → Moves p q
write-Moves p q r s cells m slots next closing forked = record {
  slots = slots;
  next = next;
  closing = closing;
  forked = forked;
  cell = λ k. rw cells (write-SlotMoves p.cells r s m k);
}

pub set_slot-Moves :
    (r : ℕ) (s : Slot) (p : Pool) → SlotMoves (p.cells r) s → Moves p (set_slot r s p)
unfolding set_slot
set_slot-Moves r s p m = write-Moves p _ r s refl m refl refl (λ h. h) refl

pub stamp-SlotMoves :
    (rs : List ℕ) (cells : ℕ → Slot) (q : ℕ) → SlotMoves (cells q) (stamp cells rs q)
unfolding stamp
stamp-SlotMoves [] cells q = SlotMoves-refl (cells q)
stamp-SlotMoves (r ∷ rs) cells q =
    SlotMoves-trans
      (write-SlotMoves cells r _ (record { id = refl; drained = λ h. h; healthy = λ h k. k }) q)
      (stamp-SlotMoves rs _ q)
