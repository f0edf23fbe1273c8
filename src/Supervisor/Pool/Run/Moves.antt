-- ===== src/Supervisor/Pool/Run/Moves.antt =====
-- Each call and event, but a timer that goes off before shutdown, moves the pool in the sense of
-- `Shape`.
use serverless_harness.Base.{
  ℕ, ◌≡◌, refl, sym, ◌∙◌, Bool, true, false, inl, inr, none, some, Option, List, [], ◌∷◌, arith,
  nat_beq, if◌then◌else◌, get_elem?, ltb, Bool-cases, ◌⊎◌, ◌&&◌, not, any,
}
use serverless_harness.Supervisor.Pool.State.{Handle, Slot, Pool, Effect, set_slot, all_idle}
use serverless_harness.Supervisor.Pool.HandOff.{note_refusal, note_head_truncated}
use serverless_harness.Supervisor.Pool.HandOff.Outcome.{HandedOff}
use serverless_harness.Supervisor.Pool.HandOff.Total.{hand_off-HandedOff}
use serverless_harness.Supervisor.Pool.Events.{
  Message, ready, draining, stats, load, notify_if_idle, settle_refusal, count_over, reconcile,
  on_message, on_exit, restart_later, remove_at, on_timer, await_idle, on_timeout, drain_effect,
  drain_slot, drain_slots, drain_all, restart,
}
use serverless_harness.Supervisor.Pool.Run.{
  Event, hands_off, refuses, truncates, message, exit, channel, timer, awaits, timeout, drains,
  step,
}
use serverless_harness.Supervisor.Pool.Run.Shape.{
  SlotMoves, Moves, forks, Moves-refl, Moves-trans, Moves-outside, write-Moves, set_slot-Moves,
  stamp-SlotMoves,
}

abbrev keeps :
    (s : Slot) (t : Slot)
    → t.id ≡ s.id
    → t.drained ≡ s.drained
    → t.healthy ≡ s.healthy
    → SlotMoves s t
keeps s t i d h = record { id = i; drained = λ e. d ∙ e; healthy = λ e k. sym h ∙ k }

pub Moves-if :
    (b : Bool) (p q u : Pool)
    → (b ≡ true → Moves p q)
    → (b ≡ false → Moves p u)
    → Moves p (if b then q else u)
Moves-if true p q u yes_case no_case = yes_case refl
Moves-if false p q u yes_case no_case = no_case refl

note_refusal-Moves : (p : Pool) → Moves p (note_refusal p)
unfolding note_refusal
note_refusal-Moves p = record {
  slots = refl;
  next = refl;
  closing = λ h. h;
  forked = refl;
  cell = stamp-SlotMoves p.slots p.cells;
}

notify_if_idle-Moves : (p : Pool) → Moves p (notify_if_idle p)
unfolding notify_if_idle
notify_if_idle-Moves p = elim (Bool-cases (all_idle p)) [
  | inl e ↦ rw e (Moves-outside p _ refl refl refl (λ h. h) refl)
  | inr e ↦ rw e (Moves-refl p)
]

count_over-Moves : (over : Bool) (p : Pool) → Moves p (count_over over p)
count_over-Moves true p = Moves-outside p _ refl refl refl (λ h. h) refl
count_over-Moves false p = Moves-refl p

settle_refusal-Moves :
    (r actual : ℕ) (o : Option ℕ) (p : Pool) → Moves p (settle_refusal r actual o p)
unfolding settle_refusal set_slot
settle_refusal-Moves r actual none p = Moves-refl p
settle_refusal-Moves r actual (some e) p =
    elim (Bool-cases (ltb actual e && not p.refusal_counted)) [
      | inl h ↦ rw h (write-Moves p _ r _ refl (keeps _ _ refl refl refl) refl refl (λ h. h) refl)
      | inr h ↦ rw h (write-Moves p _ r _ refl (keeps _ _ refl refl refl) refl refl (λ h. h) refl)
    ]

reconcile-Moves : (r actual : ℕ) (p : Pool) → Moves p (reconcile r actual p)
unfolding reconcile
reconcile-Moves r actual p =
    let a =
      set_slot-Moves r (record (p.cells r) { in_flight = actual }) p (keeps _ _ refl refl refl) in
    let told = notify_if_idle (set_slot r (record (p.cells r) { in_flight = actual }) p) in
    let b = notify_if_idle-Moves (set_slot r (record (p.cells r) { in_flight = actual }) p) in
    let over = ltb (p.cells r).in_flight actual in
    let c = count_over-Moves over told in
    Moves-trans a
      (Moves-trans b (Moves-trans c (settle_refusal-Moves r actual _ (count_over over told))))

pub on_message-Moves : (r : ℕ) (m : Message) (p : Pool) → Moves p (on_message r m p)
unfolding on_message
on_message-Moves r ready p =
    Moves-if (p.cells r).drained p _ _ (λ e. Moves-refl p)
      (λ e. set_slot-Moves r _ p (record { id = refl; drained = λ h. h; healthy = λ h k. cc }))
on_message-Moves r draining p =
    set_slot-Moves r _ p (record { id = refl; drained = λ h. h; healthy = λ h k. cc })
on_message-Moves r (stats m) p = set_slot-Moves r _ p (keeps _ _ refl refl refl)
on_message-Moves r (load none) p = Moves-refl p
on_message-Moves r (load (some actual)) p = reconcile-Moves r actual p

restart_later-Moves : (r now : ℕ) (p : Pool) → Moves p (restart_later r now p)
restart_later-Moves r now p =
    write-Moves p _ r _ refl (keeps _ _ refl refl refl) refl refl (λ h. h) refl

on_exit-Moves : (r now : ℕ) (p : Pool) → Moves p (on_exit r now p)
unfolding on_exit
on_exit-Moves r now p =
    let gone = record (p.cells r) { healthy = false; in_flight = 0 } in
    let a = set_slot-Moves r gone p (record { id = refl; drained = λ h. h; healthy = λ h k. cc }) in
    let b = notify_if_idle-Moves (set_slot r gone p) in
    let down = notify_if_idle (set_slot r gone p) in
    Moves-trans a (
      Moves-trans b (
        Moves-if down.shutting_down down _ _ (λ e. Moves-refl down)
          (λ e. restart_later-Moves r now down)))

forks-drain_effect : (s : Slot) (r : ℕ) (es : List Effect) → forks (drain_effect s r es) ≡ forks es
forks-drain_effect s r es = ground arith

pub drain_slot-Moves : (r : ℕ) (p : Pool) → Moves p (drain_slot r p)
unfolding drain_slot set_slot
drain_slot-Moves r p =
    Moves-if (p.cells r).drained p _ _ (λ e. Moves-refl p)
      (λ e.
        write-Moves p _ r _ refl (record { id = refl; drained = λ h. refl; healthy = λ h k. k })
          refl refl (λ h. h) (forks-drain_effect (p.cells r) r p.effects))

pub drain_slots-Moves : (rs : List ℕ) (p : Pool) → Moves p (drain_slots rs p)
unfolding drain_slots
drain_slots-Moves [] p = Moves-refl p
drain_slots-Moves (r ∷ rs) p =
    Moves-trans (drain_slot-Moves r p) (drain_slots-Moves rs (drain_slot r p))

HandedOff-Moves :
    (p : Pool) (socket : ℕ) (head : Option (List ℕ)) (r : Pool × Option ℕ)
    → HandedOff p socket head r
    → Moves p r.0
HandedOff-Moves p socket head (after, none) o = record {
  slots = o.rest.slots;
  next = o.rest.next;
  closing = λ h. o.rest.shutting_down ∙ h;
  forked = rw (o.effects);
  cell = λ k. rw (o.cells) (stamp-SlotMoves p.slots p.cells k);
}
HandedOff-Moves p socket head (after, some t) o =
    write-Moves p after o.slot _ o.cells (keeps _ _ refl refl refl) o.rest.slots o.rest.next
      (λ h. o.rest.shutting_down ∙ h) (rw (o.effects))

restart-Moves :
    (due : Option (ℕ × ℕ)) (now : ℕ) (handle : Handle) (p : Pool)
    → p.shutting_down ≡ true
    → Moves p (restart due now handle p)
unfolding restart
restart-Moves none now handle p h = Moves-refl p
restart-Moves (some (id, delay)) now handle p h =
    Moves-if p.shutting_down p p _ (λ e. Moves-refl p) (λ e. absurd (cc))

on_timer-Moves :
    (k now : ℕ) (handle : Handle) (p : Pool)
    → p.shutting_down ≡ true
    → Moves p (on_timer k now handle p)
unfolding on_timer
on_timer-Moves k now handle p h =
    let popped = record p { timers = remove_at k p.timers } in
    Moves-trans (Moves-outside p popped refl refl refl (λ e. e) refl)
      (restart-Moves (get_elem? p.timers k) now handle popped h)

await_idle-Moves : (w : ℕ) (p : Pool) → Moves p (await_idle w p)
unfolding await_idle
await_idle-Moves w p =
    Moves-if (all_idle p) p _ _ (λ e. Moves-outside p _ refl refl refl (λ h. h) refl)
      (λ e. Moves-outside p _ refl refl refl (λ h. h) refl)

on_timeout-Moves : (w : ℕ) (p : Pool) → Moves p (on_timeout w p)
unfolding on_timeout
on_timeout-Moves w p =
    Moves-if (any (nat_beq w) p.idle_waiters) p _ _
      (λ e. Moves-outside p _ refl refl refl (λ h. h) refl) (λ e. Moves-refl p)

pub drain_all-Moves : (p : Pool) → Moves p (drain_all p)
unfolding drain_all
drain_all-Moves p =
    Moves-trans
      (Moves-outside p (record p { shutting_down = true }) refl refl refl (λ h. refl) refl)
      (drain_slots-Moves p.slots _)

abbrev pub IsTimer : Event → Type 0
IsTimer (timer k now handle) = Unit
IsTimer e = ⊥

-- A restart is the only event that changes the array, and none happens once shutdown has begun.
pub step-Moves :
    (e : Event) (p : Pool) → (p.shutting_down ≡ true) ⊎ (¬ IsTimer e) → Moves p (step e p)
unfolding step note_head_truncated
step-Moves (hands_off preferred socket head) p h =
    let (r, e, o) = hand_off-HandedOff socket head preferred p in
    rw e (HandedOff-Moves p socket head r o)
step-Moves refuses p h = note_refusal-Moves p
step-Moves truncates p h = Moves-outside p _ refl refl refl (λ e. e) refl
step-Moves (message r m) p h = on_message-Moves r m p
step-Moves (exit r now) p h = on_exit-Moves r now p
step-Moves (channel r handle) p h = set_slot-Moves r _ p (keeps _ _ refl refl refl)
step-Moves (timer k now handle) p (inl h) = on_timer-Moves k now handle p h
step-Moves (timer k now handle) p (inr h) = absurd (h tt)
step-Moves (awaits waiter) p h = await_idle-Moves waiter p
step-Moves (timeout waiter) p h = on_timeout-Moves waiter p
step-Moves drains p h = drain_all-Moves p
