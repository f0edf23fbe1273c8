-- ===== src/Supervisor/Pool/Run/Waiting.antt =====
-- `awaitIdle` over any run of a pool: what its promises are told, and that no promise is left waiting at
-- an idle pool that is shutting down.
use serverless_harness.Base.{
  ℕ, ◌≤◌, ◌≡◌, refl, ◌∙◌, ap, subst, Bool, true, false, inl, inr, none, some, Option, List, [], ◌∷◌,
  arith, nat_beq, nat_beq_iff, if◌then◌else◌, get_elem?, In, ◌⊎◌, any, sym, not, keep_if,
  Bool-cases,
}
use serverless_harness.Supervisor.Pool.State.{Handle, Slot, Pool, all_idle}
use serverless_harness.Supervisor.Pool.HandOff.{stamp, note_refusal, note_head_truncated}
use serverless_harness.Supervisor.Pool.HandOff.Outcome.{HandedOff}
use serverless_harness.Supervisor.Pool.HandOff.Total.{hand_off-HandedOff}
use serverless_harness.Supervisor.Pool.Events.{
  on_timer, await_idle, on_timeout, drain_slot, drain_slots, drain_all, restart, remove_at,
}
use serverless_harness.Supervisor.Pool.Run.{
  Event, hands_off, refuses, truncates, message, exit, channel, timer, awaits, timeout, drains,
  step, run,
}
use serverless_harness.Supervisor.Pool.Run.Moves.{IsTimer, step-Moves}
use serverless_harness.Supervisor.Pool.Run.Idle.{
  in_flight_of, Quiet, Quiet-refl, Quiet-trans, Quiet-if, IsAwake, IsKnown, same-IsKnown,
  In-append_left, In-append_right, Serves, Quiet-Serves, idle_in_mono, set_slot-Quiet,
  on_message-Serves, on_exit-Serves,
}

stamp-load :
    (rs : List ℕ) (cells : ℕ → Slot) (k : ℕ) → (stamp cells rs k).in_flight ≡ (cells k).in_flight
unfolding stamp
stamp-load [] cells k = refl
stamp-load (r ∷ rs) cells k = stamp-load rs _ k ∙ ground (arith, nat_beq_iff k r)

note_refusal-Quiet : (p : Pool) → Quiet p (note_refusal p)
unfolding note_refusal
note_refusal-Quiet p = record {
  slots = refl;
  load = stamp-load p.slots p.cells;
  waiters = refl;
  resolved = refl;
}

-- The estimates only grow.
grows-Serves :
    {late : ℕ → Type 0} (p q : Pool)
    → q.slots ≡ p.slots
    → ((r : ℕ) → in_flight_of p r ≤ in_flight_of q r)
    → q.idle_waiters ≡ p.idle_waiters
    → q.resolved ≡ p.resolved
    → Serves late p q
unfolding all_idle
grows-Serves {late} p q slots grow waiters resolved = record {
  truthful = λ w m. inl (subst (In (w, true)) resolved m);
  awake = λ a. elim a [
    | inl e ↦ inl (waiters ∙ e)
    | inr e ↦ inr (rw slots (idle_in_mono (in_flight_of p) (in_flight_of q) p.slots grow e))
  ];
  known = same-IsKnown p q waiters resolved;
  refused = λ w m. inl (subst (In (w, false)) resolved m);
}

HandedOff-Serves :
    {late : ℕ → Type 0} (p : Pool) (socket : ℕ) (head : Option (List ℕ)) (r : Pool × Option ℕ)
    → HandedOff p socket head r
    → Serves late p r.0
HandedOff-Serves {late} p socket head (after, none) o = Quiet-Serves (record {
  slots = o.rest.slots;
  load = λ k. rw (o.cells) (stamp-load p.slots p.cells k);
  waiters = o.rest.idle_waiters;
  resolved = o.rest.resolved;
})
HandedOff-Serves {late} p socket head (after, some t) o =
    grows-Serves p after o.rest.slots (λ k. rw (o.cells) (ground (arith, nat_beq_iff k o.slot)))
      o.rest.idle_waiters o.rest.resolved

drain_slot-Quiet : (r : ℕ) (p : Pool) → Quiet p (drain_slot r p)
unfolding drain_slot
drain_slot-Quiet r p =
    let marked = set_slot-Quiet r (record (p.cells r) { drained = true }) p refl in
    Quiet-if (p.cells r).drained p p _ (Quiet-refl p) (record {
      slots = marked.slots;
      load = marked.load;
      waiters = marked.waiters;
      resolved = marked.resolved;
    })

drain_slots-Quiet : (rs : List ℕ) (p : Pool) → Quiet p (drain_slots rs p)
unfolding drain_slots
drain_slots-Quiet [] p = Quiet-refl p
drain_slots-Quiet (r ∷ rs) p =
    Quiet-trans (drain_slot-Quiet r p) (drain_slots-Quiet rs (drain_slot r p))

Serves-if :
    {late : ℕ → Type 0} (b : Bool) (p q u : Pool)
    → (b ≡ true → Serves late p q)
    → (b ≡ false → Serves late p u)
    → Serves late p (if b then q else u)
Serves-if {late} true p q u yes_case no_case = yes_case refl
Serves-if {late} false p q u yes_case no_case = no_case refl

await_idle-Serves : {late : ℕ → Type 0} (w : ℕ) (p : Pool) → Serves late p (await_idle w p)
unfolding await_idle all_idle
await_idle-Serves {late} w p =
    Serves-if (all_idle p) p _ _
      (λ idle. record {
        truthful = λ v m. inr idle;
        awake = λ a. a;
        known = λ v k. elim k [ inl m ↦ inl m | inr (told, m) ↦ inr (told, inr m) ];
        refused = λ v m. elim m [ inl e ↦ cc (ap (λ (x : ℕ × Bool). x.1) e) | inr old ↦ inl old ];
      })
      (λ busy. record {
        truthful = λ v m. inl m;
        awake = λ _. inr busy;
        known = λ v k. elim k [
          | inl m ↦ inl (In-append_left v p.idle_waiters (w ∷ []) m)
          | inr (told, m) ↦ inr (told, m)
        ];
        refused = λ v m. inl m;
      })

-- The promise of a call waits, or it is told at once.
await_idle-IsKnown : (w : ℕ) (p : Pool) → IsKnown (await_idle w p) w
unfolding await_idle
await_idle-IsKnown w p = elim (Bool-cases (all_idle p)) [
  | inl idle ↦ rw idle (inr (true, inl refl))
  | inr busy ↦ rw busy (inl (In-append_right w p.idle_waiters (w ∷ []) (inl refl)))
]

In-keep_if : (f : ℕ → Bool) (v : ℕ) (ws : List ℕ) → f v ≡ true → In v ws → In v (keep_if f ws)
In-keep_if f v [] h m = absurd m
In-keep_if f v (w ∷ ws) h (inl e) = let k : f w ≡ true = ap f (sym e) ∙ h in rw k (inl e)
In-keep_if f v (w ∷ ws) h (inr m) = elim (Bool-cases (f w)) [
  | inl k ↦ rw k (inr (In-keep_if f v ws h m))
  | inr k ↦ rw k (In-keep_if f v ws h m)
]

on_timeout-Serves : (w : ℕ) (p : Pool) → Serves (λ v. v ≡ w) p (on_timeout w p)
unfolding on_timeout all_idle
on_timeout-Serves w p =
    Serves-if (any (nat_beq w) p.idle_waiters) p _ p
      (λ _. record {
        truthful = λ v m. elim m [ inl e ↦ cc (ap (λ (x : ℕ × Bool). x.1) e) | inr old ↦ inl old ];
        awake = λ a. elim a [ inl e ↦ inl (rw e) | inr e ↦ inr e ];
        known = λ v k. elim k [
          | inr (told, m) ↦ inr (told, inr m)
          | inl m ↦ elim (Bool-cases (nat_beq w v)) [
            | inl it ↦ inr (false, inl (ap (λ u. (u, false)) (sym ((nat_beq_iff w v).0 it))))
            | inr other ↦
                inl (In-keep_if (λ u. not (nat_beq w u)) v p.idle_waiters (rw other refl) m)
          ]
        ];
        refused = λ v m. elim m [ inl e ↦ inr (ap (λ (x : ℕ × Bool). x.0) e) | inr old ↦ inl old ];
      })
      (λ _. Quiet-Serves (Quiet-refl p))

restart-closing :
    (due : Option (ℕ × ℕ)) (now : ℕ) (handle : Handle) (p : Pool)
    → p.shutting_down ≡ true
    → restart due now handle p ≡ p
unfolding restart
restart-closing none now handle p h = refl
restart-closing (some (id, delay)) now handle p h = ground arith

-- Only its own timeout tells a promise `false`.
later_is : {v waiter : ℕ} → v ≡ waiter → timeout waiter ≡ timeout v
later_is e = ap timeout (sym e)

step-Serves :
    (e : Event) (p : Pool)
    → (p.shutting_down ≡ true) ⊎ (¬ IsTimer e)
    → Serves (λ w. e ≡ timeout w) p (step e p)
unfolding step note_head_truncated on_timer drain_all
step-Serves (hands_off preferred socket head) p h =
    let (r, e, o) = hand_off-HandedOff socket head preferred p in
    rw e (HandedOff-Serves p socket head r o)
step-Serves refuses p h = Quiet-Serves (note_refusal-Quiet p)
step-Serves truncates p h =
    Quiet-Serves (record { slots = refl; load = λ r. refl; waiters = refl; resolved = refl })
step-Serves (message r m) p h = on_message-Serves r m p
step-Serves (exit r now) p h = on_exit-Serves r now p
step-Serves (channel r handle) p h = Quiet-Serves (set_slot-Quiet r _ p refl)
step-Serves (timer k now handle) p (inl h) =
    rw
      (restart-closing (get_elem? p.timers k) now handle
        (record p { timers = remove_at k p.timers }) h)
      (Quiet-Serves (record { slots = refl; load = λ r. refl; waiters = refl; resolved = refl }))
step-Serves (timer k now handle) p (inr h) = absurd (h tt)
step-Serves (awaits waiter) p h = await_idle-Serves waiter p
step-Serves (timeout waiter) p h =
    let s = on_timeout-Serves waiter p in
    record {
      truthful = s.truthful;
      awake = s.awake;
      known = s.known;
      refused = λ w m. elim (s.refused w m) [ inl old ↦ inl old | inr e ↦ inr (later_is e) ];
    }
step-Serves drains p h =
    let d = drain_slots-Quiet p.slots (record p { shutting_down = true }) in
    Quiet-Serves
      (record { slots = d.slots; load = d.load; waiters = d.waiters; resolved = d.resolved })

-- The pool is idle after one of the events.
abbrev pub IdleDuring : List Event → Pool → Type 0
IdleDuring [] p = ⊥
IdleDuring (e ∷ es) p = (all_idle (step e p) ≡ true) ⊎ IdleDuring es (step e p)

step-awaits : (w : ℕ) (p : Pool) → IsKnown (step (awaits w) p) w
unfolding step
step-awaits w p = await_idle-IsKnown w p

-- Where shutdown has begun and no promise of `awaitIdle` waits at an idle pool, whatever follows: none is
-- left waiting at an idle pool, and one is told `true` only if the pool was idle at some point of the run, and
-- `false` only by its own timeout; and no promise is lost: one that waited or was told before, or that a call of
-- the run has made, is waiting or has been told.
pub run-IsAwake :
    (es : List Event) (p : Pool)
    → p.shutting_down ≡ true
    → IsAwake p
    → IsAwake (run es p)
      × ((w : ℕ) → In (w, true) (run es p).resolved → In (w, true) p.resolved ⊎ IdleDuring es p)
      × ((w : ℕ) → In (w, false) (run es p).resolved → In (w, false) p.resolved ⊎ In (timeout w) es)
      × ((w : ℕ) → IsKnown p w ⊎ In (awaits w) es → IsKnown (run es p) w)
unfolding run
run-IsAwake [] p h a =
    (a, λ w m. inl m, λ w m. inl m, λ w k. elim k [ inl old ↦ old | inr nothing ↦ absurd nothing ])
run-IsAwake (e ∷ es) p h a =
    let s = step-Serves e p (inl h) in
    let (awake, truthful, refused, known) =
      run-IsAwake es (step e p) ((step-Moves e p (inl h)).closing h) (s.awake a) in
    (
      awake,
      λ w m. elim (truthful w m) [
        | inl before ↦ elim (s.truthful w before) [ inl old ↦ inl old | inr idle ↦ inr (inl idle) ]
        | inr later ↦ inr (inr later)
      ],
      λ w m. elim (refused w m) [
        | inl before ↦ elim (s.refused w before) [ inl old ↦ inl old | inr it ↦ inr (inl (sym it)) ]
        | inr later ↦ inr (inr later)
      ],
      λ w k. known w (elim k [
        | inl old ↦ inl (s.known w old)
        | inr (inl it) ↦ inl (subst (λ f. IsKnown (step f p) w) it (step-awaits w p))
        | inr (inr later) ↦ inr later
      ]),
    )
