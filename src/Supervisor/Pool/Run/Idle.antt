-- ===== src/Supervisor/Pool/Run/Idle.antt =====
-- `awaitIdle`: what the promises that it returns are told, and that shutdown cannot miss the moment at
-- which the last turn ends.
use serverless_harness.Base.{
  ℕ, ◌≤◌, ◌≡◌, refl, sym, ap, ◌∙◌, subst, Bool, true, false, inl, inr, none, some, Option, List, [],
  ◌∷◌, ◌++◌, map, arith, nat_beq_iff, if◌then◌else◌, all, ltb, leb, Bool-cases, In, ◌⊎◌, ◌&&◌, not,
}
use serverless_harness.Supervisor.Pool.State.{Slot, Pool, set_slot, all_idle}
use serverless_harness.Supervisor.Pool.Events.{
  Message, ready, draining, stats, load, notify_if_idle, settle_refusal, count_over, reconcile,
  on_message, on_exit, restart_later,
}

abbrev pub in_flight_of : Pool → ℕ → ℕ
in_flight_of p r = (p.cells r).in_flight

-- The load estimates, the array and the promises are as they were.
pub record Quiet (p q : Pool) : Type 0 where
  pub slots : q.slots ≡ p.slots
  pub load : (r : ℕ) → in_flight_of q r ≡ in_flight_of p r
  pub waiters : q.idle_waiters ≡ p.idle_waiters
  pub resolved : q.resolved ≡ p.resolved

pub Quiet-refl : (p : Pool) → Quiet p p
Quiet-refl p = record { slots = refl; load = λ r. refl; waiters = refl; resolved = refl }

pub Quiet-trans : {p q u : Pool} → Quiet p q → Quiet q u → Quiet p u
Quiet-trans a b = record {
  slots = b.slots ∙ a.slots;
  load = λ r. b.load r ∙ a.load r;
  waiters = b.waiters ∙ a.waiters;
  resolved = b.resolved ∙ a.resolved;
}

pub Quiet-if : (b : Bool) (p q u : Pool) → Quiet p q → Quiet p u → Quiet p (if b then q else u)
Quiet-if true p q u h k = h
Quiet-if false p q u h k = k

abbrev idle_in : (ℕ → ℕ) → List ℕ → Bool
idle_in count rs = all (λ r. leb (count r) 0) rs

idle_in-same : (f g : ℕ → ℕ) (rs : List ℕ) → ((r : ℕ) → g r ≡ f r) → idle_in g rs ≡ idle_in f rs
idle_in-same f g [] h = refl
idle_in-same f g (r ∷ rs) h = ground (arith, h r, idle_in-same f g rs h)

pub idle_in_mono :
    (f g : ℕ → ℕ) (rs : List ℕ)
    → ((r : ℕ) → f r ≤ g r)
    → idle_in f rs ≡ false
    → idle_in g rs ≡ false
idle_in_mono f g [] h e = e
idle_in_mono f g (r ∷ rs) h e = ground (arith, h r, idle_in_mono f g rs h)

all_idle-Quiet : {p q : Pool} → Quiet p q → all_idle q ≡ all_idle p
unfolding all_idle
all_idle-Quiet {p} {q} h =
    rw (h.slots) (idle_in-same (in_flight_of p) (in_flight_of q) p.slots h.load)

-- No promise waits at an idle pool.
abbrev pub IsAwake : Pool → Type 0
IsAwake p = (p.idle_waiters ≡ []) ⊎ (all_idle p ≡ false)

-- A promise that is told `true` is told so at an idle pool.
abbrev pub IsTruthful : Pool → Pool → Type 0
IsTruthful p q = (w : ℕ) → In (w, true) q.resolved → In (w, true) p.resolved ⊎ (all_idle q ≡ true)

-- The promise waits, or it has been told something.
abbrev pub IsKnown : Pool → ℕ → Type 0
IsKnown p w = In w p.idle_waiters ⊎ ((told : Bool) × In (w, told) p.resolved)

-- `late` are the promises whose time may run out.
pub record Serves (late : ℕ → Type 0) (p q : Pool) : Type 0 where
  pub truthful : IsTruthful p q
  pub awake : IsAwake p → IsAwake q
  pub known : (w : ℕ) → IsKnown p w → IsKnown q w
  pub refused : (w : ℕ) → In (w, false) q.resolved → In (w, false) p.resolved ⊎ late w

pub same-IsKnown :
    (p q : Pool)
    → q.idle_waiters ≡ p.idle_waiters
    → q.resolved ≡ p.resolved
    → (w : ℕ) → IsKnown p w
    → IsKnown q w
same-IsKnown p q waiters resolved w (inl m) = inl (subst (In w) (sym waiters) m)
same-IsKnown p q waiters resolved w (inr (told, m)) =
    inr (told, subst (In (w, told)) (sym resolved) m)

pub Quiet-Serves : {late : ℕ → Type 0} {p q : Pool} → Quiet p q → Serves late p q
Quiet-Serves {late} {p} {q} h = record {
  truthful = λ w m. inl (subst (In (w, true)) h.resolved m);
  awake = λ a. elim a [ inl e ↦ inl (h.waiters ∙ e) | inr e ↦ inr (all_idle-Quiet h ∙ e) ];
  known = same-IsKnown p q h.waiters h.resolved;
  refused = λ w m. inl (subst (In (w, false)) h.resolved m);
}

all_idle-notify : (p : Pool) → all_idle (notify_if_idle p) ≡ all_idle p
unfolding notify_if_idle all_idle
all_idle-notify p = either (all_idle p)
  where
    told : Pool
    told = record p {
      resolved = map (λ w. (w, true)) p.idle_waiters ++ p.resolved;
      idle_waiters = [];
    }

    either : (b : Bool) → all_idle (if b then told else p) ≡ all_idle p
    either true = refl
    either false = refl

notify-busy : (p : Pool) → all_idle p ≡ false → (notify_if_idle p).resolved ≡ p.resolved
unfolding notify_if_idle
notify-busy p busy = rw busy

notify-idle : (p : Pool) → all_idle p ≡ true → (notify_if_idle p).idle_waiters ≡ []
unfolding notify_if_idle
notify-idle p idle = rw idle

pub In-append_left : {A : Type 0} (a : A) (xs ys : List A) → In a xs → In a (xs ++ ys)
In-append_left a [] ys m = absurd m
In-append_left a (x ∷ xs) ys (inl e) = inl e
In-append_left a (x ∷ xs) ys (inr m) = inr (In-append_left a xs ys m)

pub In-append_right : {A : Type 0} (a : A) (xs ys : List A) → In a ys → In a (xs ++ ys)
In-append_right a [] ys m = m
In-append_right a (x ∷ xs) ys m = inr (In-append_right a xs ys m)

told_true : (w : ℕ) (ws : List ℕ) → In w ws → In {A = ℕ × Bool} (w, true) (map (λ v. (v, true)) ws)
told_true w [] m = absurd m
told_true w (v ∷ ws) (inl e) = inl (ap (λ u. (u, true)) e)
told_true w (v ∷ ws) (inr m) = inr (told_true w ws m)

not_told_false :
    (w : ℕ) (ws : List ℕ) (told : List (ℕ × Bool))
    → In (w, false) (map (λ v. (v, true)) ws ++ told)
    → In (w, false) told
not_told_false w [] told m = m
not_told_false w (v ∷ ws) told (inl e) = cc (ap (λ (x : ℕ × Bool). x.1) e)
not_told_false w (v ∷ ws) told (inr m) = not_told_false w ws told m

notify-IsKnown : (p : Pool) (w : ℕ) → IsKnown p w → IsKnown (notify_if_idle p) w
unfolding notify_if_idle
notify-IsKnown p w k = elim (Bool-cases (all_idle p)) [
  | inr busy ↦ rw busy k
  | inl idle ↦ rw idle (elim k [
    | inl m ↦ inr (true, In-append_left (w, true) _ p.resolved (told_true w p.idle_waiters m))
    | inr (told, m) ↦
        inr (told, In-append_right (w, told) (map (λ v. (v, true)) p.idle_waiters) p.resolved m)
  ])
]

notify-refused :
    (p : Pool) (w : ℕ) → In (w, false) (notify_if_idle p).resolved → In (w, false) p.resolved
unfolding notify_if_idle
notify-refused p w = elim (Bool-cases (all_idle p)) [
  | inr busy ↦ rw busy (λ m. m)
  | inl idle ↦ rw idle (not_told_false w p.idle_waiters p.resolved)
]

-- A change that ends in `notifyIfIdle`, with quiet changes after it.
notify-Serves :
    {late : ℕ → Type 0} (p q u : Pool)
    → q.resolved ≡ p.resolved
    → q.idle_waiters ≡ p.idle_waiters
    → Quiet (notify_if_idle q) u
    → Serves late p u
notify-Serves {late} p q u same waiting h = elim (Bool-cases (all_idle q)) [
  | inl idle ↦
      let still : all_idle u ≡ true = all_idle-Quiet h ∙ all_idle-notify q ∙ idle in
      record {
        truthful = λ w m. inr still;
        awake = λ _. inl (h.waiters ∙ notify-idle q idle);
        known = keeps;
        refused = λ w m. inl (late_none w m);
      }
  | inr busy ↦ record {
    truthful = λ w m. inl (subst (In (w, true)) (h.resolved ∙ notify-busy q busy ∙ same) m);
    awake = λ _. inr (all_idle-Quiet h ∙ all_idle-notify q ∙ busy);
    known = keeps;
    refused = λ w m. inl (late_none w m);
  }
]
  where
    keeps : (w : ℕ) → IsKnown p w → IsKnown u w
    keeps w k =
        same-IsKnown (notify_if_idle q) u h.waiters h.resolved w
          (notify-IsKnown q w (same-IsKnown p q waiting same w k))

    late_none : (w : ℕ) → In (w, false) u.resolved → In (w, false) p.resolved
    late_none w m =
        subst (In (w, false)) same (notify-refused q w (subst (In (w, false)) h.resolved m))

pub set_slot-Quiet :
    (r : ℕ) (s : Slot) (p : Pool) → s.in_flight ≡ (p.cells r).in_flight → Quiet p (set_slot r s p)
unfolding set_slot
set_slot-Quiet r s p h = record {
  slots = refl;
  load = λ k. ground (arith, nat_beq_iff k r);
  waiters = refl;
  resolved = refl;
}

settle_refusal-Quiet :
    (r actual : ℕ) (o : Option ℕ) (p : Pool) → Quiet p (settle_refusal r actual o p)
unfolding settle_refusal
settle_refusal-Quiet r actual none p = Quiet-refl p
settle_refusal-Quiet r actual (some e) p =
    let seen = set_slot-Quiet r (record (p.cells r) { refusal_estimate = none }) p refl in
    Quiet-if (ltb actual e && not p.refusal_counted) p _ _
      (record {
        slots = seen.slots;
        load = seen.load;
        waiters = seen.waiters;
        resolved = seen.resolved;
      })
      seen

count_over-Quiet : (over : Bool) (p : Pool) → Quiet p (count_over over p)
count_over-Quiet over p =
    Quiet-if over p _ p (record { slots = refl; load = λ r. refl; waiters = refl; resolved = refl })
      (Quiet-refl p)

set_slot-resolved : (r : ℕ) (s : Slot) (p : Pool) → (set_slot r s p).resolved ≡ p.resolved
unfolding set_slot
set_slot-resolved r s p = refl

set_slot-waiters : (r : ℕ) (s : Slot) (p : Pool) → (set_slot r s p).idle_waiters ≡ p.idle_waiters
unfolding set_slot
set_slot-waiters r s p = refl

reconcile-Serves :
    {late : ℕ → Type 0} (r actual : ℕ) (p : Pool) → Serves late p (reconcile r actual p)
unfolding reconcile
reconcile-Serves r actual p =
    let s = record (p.cells r) { in_flight = actual } in
    let over = ltb (p.cells r).in_flight actual in
    let told = notify_if_idle (set_slot r s p) in
    notify-Serves p (set_slot r s p) _ (set_slot-resolved r s p) (set_slot-waiters r s p) (
      Quiet-trans (count_over-Quiet over told)
        (settle_refusal-Quiet r actual _ (count_over over told)))

pub on_message-Serves :
    {late : ℕ → Type 0} (r : ℕ) (m : Message) (p : Pool) → Serves late p (on_message r m p)
unfolding on_message
on_message-Serves r ready p =
    Quiet-Serves (Quiet-if (p.cells r).drained p p _ (Quiet-refl p) (set_slot-Quiet r _ p refl))
on_message-Serves r draining p = Quiet-Serves (set_slot-Quiet r _ p refl)
on_message-Serves r (stats m) p = Quiet-Serves (set_slot-Quiet r _ p refl)
on_message-Serves r (load none) p = Quiet-Serves (Quiet-refl p)
on_message-Serves r (load (some actual)) p = reconcile-Serves r actual p

restart_later-Quiet : (r now : ℕ) (p : Pool) → Quiet p (restart_later r now p)
restart_later-Quiet r now p = record {
  slots = refl;
  load = λ k. ground (arith, nat_beq_iff k r);
  waiters = refl;
  resolved = refl;
}

pub on_exit-Serves : {late : ℕ → Type 0} (r now : ℕ) (p : Pool) → Serves late p (on_exit r now p)
unfolding on_exit
on_exit-Serves r now p =
    let s = record (p.cells r) { healthy = false; in_flight = 0 } in
    let down = notify_if_idle (set_slot r s p) in
    notify-Serves p (set_slot r s p) _ (set_slot-resolved r s p) (set_slot-waiters r s p)
      (Quiet-if down.shutting_down down down _ (Quiet-refl down) (restart_later-Quiet r now down))
