-- ===== src/Supervisor/Pool/Events/Restarts.antt =====
-- Restarts: the delay before one, and how it grows while a worker keeps crashing.
use native.Mathlib.Nat.{pow-suc}
use serverless_harness.Base.{
  ℕ, zero, suc, ◌+◌, ◌*◌, ◌^◌, min, ◌≤◌, ◌<◌, ◌≡◌, refl, sym, ◌∙◌, ap, subst, Bool, true, false,
  none, some, Option, List, [], ◌∷◌, ◌++◌, arith, nat_beq_iff, if◌then◌else◌, get_elem?, put_at,
  length,
}
use serverless_harness.Supervisor.Pool.State.{
  Handle, Slot, PoolOptions, Pool, write, set_slot, slot_at,
}
use serverless_harness.Supervisor.Pool.Events.Steady.{
  Told, notify_if_idle-Told, hears, hears-Steady,
}
use serverless_harness.Supervisor.Pool.Events.{
  Message, max_backoff_ms, crashes_of, settled_crashes, backoff, spawn, notify_if_idle,
  restart_later, on_exit, restart, on_timer,
}

-- A delay is the first one doubled for each crash so far, and never above the cap.
pub backoff_bounds :
    (opts : PoolOptions) (crashes : ℕ)
    → (backoff opts crashes ≤ max_backoff_ms) × (backoff opts crashes ≤ backoff opts (suc crashes))
unfolding backoff
backoff_bounds opts crashes =
    (omega arith, omega (arith, ap (λ (t : ℕ). opts.restart_backoff_ms * t) (pow-suc 2 crashes)))

-- The worker at index `i`, whose slot has crashed `crashes` times before and started at `started`; no
-- restart is due.
pub record IsUp (p : Pool) (i crashes started : ℕ) : Type 0 where
  pub slot : ℕ
  pub at : slot_at p i ≡ some slot
  pub id : (p.cells slot).id ≡ i
  pub allocated : slot < p.next
  pub crashed : (p.cells slot).crashes ≡ crashes
  pub since : (p.cells slot).started_at ≡ started
  pub quiet : p.timers ≡ []
  pub running : p.shutting_down ≡ false

-- The worker says something, exits at one time, and its restart forks the next at another.
pub record Crash : Type 0 where
  pub said : List Message
  pub exited_at : ℕ
  pub forked_at : ℕ
  pub handle : Handle

abbrev pub exits : Option ℕ → List Message → ℕ → Pool → Pool
exits none said now p = p
exits (some r) said now p = on_exit r now (hears r said p)

-- The worker at index `i` crashes, and then its timer goes off.
pub crash : ℕ → Crash → Pool → Pool
crash i c p = on_timer 0 c.forked_at c.handle (exits (slot_at p i) c.said c.exited_at p)

-- It had not run for `healthyRunMs`.
abbrev pub IsQuick : PoolOptions → ℕ → Crash → Type 0
IsQuick opts started c = c.exited_at < started + opts.healthy_run_ms

get_elem?-put_at_self :
    (xs : List ℕ) (i v r : ℕ) → get_elem? xs i ≡ some r → get_elem? (put_at xs i v) i ≡ some v
get_elem?-put_at_self [] i v r h = cc
get_elem?-put_at_self (x ∷ xs) zero v r h = refl
get_elem?-put_at_self (x ∷ xs) (suc i) v r h = get_elem?-put_at_self xs i v r h

-- What an exit does to a pool that is not shutting down, where the worker had not run for long.
record Exited (p : Pool) (r : ℕ) (q : Pool) : Type 0 where
  crashes : (q.cells r).crashes ≡ suc (p.cells r).crashes
  slots : q.slots ≡ p.slots
  next : q.next ≡ p.next
  opts : q.opts ≡ p.opts
  running : q.shutting_down ≡ false
  timers : q.timers ≡ p.timers ++ ((p.cells r).id, backoff p.opts (p.cells r).crashes) ∷ []

-- What a worker says leaves it up.
hears-IsUp :
    (i crashes started : ℕ) (said : List Message) (p : Pool) (u : IsUp p i crashes started)
    → IsUp (hears u.slot said p) i crashes started
hears-IsUp i crashes started said p u =
    let s = hears-Steady u.slot said p in
    record {
      slot = u.slot;
      at = ap (λ l. get_elem? l i) s.slots ∙ u.at;
      id = s.id ∙ u.id;
      allocated = subst (λ n. u.slot < n) (sym s.next) u.allocated;
      crashed = s.crashes ∙ u.crashed;
      since = s.since ∙ u.since;
      quiet = s.timers ∙ u.quiet;
      running = s.running ∙ u.running;
    }

settled_crashes-quick :
    (opts : PoolOptions) (now : ℕ) (s : Slot)
    → now < s.started_at + opts.healthy_run_ms
    → settled_crashes opts now s ≡ s.crashes
unfolding settled_crashes
settled_crashes-quick opts now s h = ground arith

write_eq : (cells : ℕ → Slot) (r : ℕ) (s : Slot) → write r s cells r ≡ s
write_eq cells r s = ground (arith, nat_beq_iff r r)

restart_later-Exited :
    (r now : ℕ) (p d : Pool) (s : Slot)
    → Told (set_slot r s p) d
    → s.crashes ≡ (p.cells r).crashes
    → s.started_at ≡ (p.cells r).started_at
    → s.id ≡ (p.cells r).id
    → p.shutting_down ≡ false
    → now < (p.cells r).started_at + p.opts.healthy_run_ms
    → Exited p r (restart_later r now d)
unfolding set_slot
restart_later-Exited r now p d s t crashes started id h quick =
    let here : d.cells r ≡ s = ap (λ c. c r) t.cells ∙ write_eq p.cells r s in
    let kept : settled_crashes d.opts now (d.cells r) ≡ (p.cells r).crashes =
      rw (t.opts, here) (settled_crashes-quick p.opts now s (rw started quick) ∙ crashes) in
    let same_id : (d.cells r).id ≡ (p.cells r).id = ap (λ (c : Slot). c.id) here ∙ id in
    record {
      crashes = ap (λ (c : Slot). c.crashes) (write_eq d.cells r _) ∙ ap suc kept;
      slots = t.slots;
      next = t.next;
      opts = t.opts;
      running = t.running ∙ h;
      timers = cc (t.timers, t.opts, same_id, kept);
    }

set_slot-running : (r : ℕ) (s : Slot) (p : Pool) → (set_slot r s p).shutting_down ≡ p.shutting_down
unfolding set_slot
set_slot-running r s p = refl

on_exit-Exited :
    (r now : ℕ) (p : Pool)
    → p.shutting_down ≡ false
    → now < (p.cells r).started_at + p.opts.healthy_run_ms
    → Exited p r (on_exit r now p)
unfolding on_exit
on_exit-Exited r now p h quick =
    let s = record (p.cells r) { healthy = false; in_flight = 0 } in
    let t = notify_if_idle-Told (set_slot r s p) in
    let up : (notify_if_idle (set_slot r s p)).shutting_down ≡ false =
      t.running ∙ set_slot-running r s p ∙ h in
    either-way _ _ _ up (restart_later-Exited r now p _ s t refl refl refl h quick)
  where
    either-way :
        (b : Bool) (d e : Pool) → b ≡ false → Exited p r e → Exited p r (if b then d else e)
    either-way true d e h x = absurd (cc)
    either-way false d e h x = x

abbrev emptied : Pool → Pool
emptied p = record p { timers = [] }

on_timer_due :
    (i delay now : ℕ) (handle : Handle) (p : Pool)
    → p.timers ≡ (i, delay) ∷ []
    → p.shutting_down ≡ false
    → on_timer 0 now handle p ≡ spawn i now handle (emptied p)
unfolding on_timer restart
on_timer_due i delay now handle p due up = ground arith

spawn-IsUp :
    (i r crashes now : ℕ) (handle : Handle) (p : Pool)
    → slot_at p i ≡ some r
    → (p.cells r).crashes ≡ crashes
    → p.shutting_down ≡ false
    → IsUp (spawn i now handle (emptied p)) i crashes now
unfolding spawn
spawn-IsUp i r crashes now handle p at c up =
    let new = write_eq p.cells p.next in
    record {
      slot = p.next;
      at = get_elem?-put_at_self p.slots i p.next r at;
      id = ap (λ (s : Slot). s.id) (new _);
      allocated = omega arith;
      crashed = ap (λ (s : Slot). s.crashes) (new _) ∙ ap (crashes_of p.cells) at ∙ c;
      since = ap (λ (s : Slot). s.started_at) (new _);
      quiet = refl;
      running = up;
    }

spawn-opts :
    (i now : ℕ) (handle : Handle) (p : Pool) → (spawn i now handle (emptied p)).opts ≡ p.opts
unfolding spawn
spawn-opts i now handle p = refl

-- The exit of a worker that had not run for long: the one restart that is due then, and its delay.
pub exit_delay :
    (i crashes started now : ℕ) (p : Pool) (u : IsUp p i crashes started)
    → now < started + p.opts.healthy_run_ms
    → (on_exit u.slot now p).timers ≡ (i, backoff p.opts crashes) ∷ []
exit_delay i crashes started now p u quick =
    let x = on_exit-Exited u.slot now p u.running (rw (u.since) quick) in
    cc (x.timers, u.quiet, u.id, u.crashed)

-- A quick crash and the restart after it: the worker at the index is new, and has crashed once more.
crash-IsUp :
    (i crashes started : ℕ) (c : Crash) (p : Pool)
    → IsUp p i crashes started
    → IsQuick p.opts started c
    → IsUp (crash i c p) i (suc crashes) c.forked_at × ((crash i c p).opts ≡ p.opts)
unfolding crash hears-IsUp
crash-IsUp i crashes started c p u quick =
    let heard = hears u.slot c.said p in
    let steady = hears-Steady u.slot c.said p in
    let v = hears-IsUp i crashes started c.said p u in
    let soon = subst (λ o. IsQuick o started c) (sym steady.opts) quick in
    let q = on_exit u.slot c.exited_at heard in
    let x = on_exit-Exited u.slot c.exited_at heard v.running (rw (v.since) soon) in
    let due = exit_delay i crashes started c.exited_at heard v soon in
    let at : slot_at q i ≡ some u.slot =
      subst (λ l. get_elem? l i ≡ some u.slot) (sym x.slots) v.at in
    rw (u.at, exits)
      (rw (on_timer_due i _ c.forked_at c.handle q due x.running) (
        spawn-IsUp i u.slot (suc crashes) c.forked_at c.handle q at (x.crashes ∙ ap suc v.crashed)
            x.running,
        spawn-opts i c.forked_at c.handle q ∙ x.opts ∙ steady.opts,
      ))

pub crash_run : ℕ → List Crash → Pool → Pool
crash_run i [] p = p
crash_run i (c ∷ cs) p = crash_run i cs (crash i c p)

-- Each crash of the run comes before the worker has run for `healthyRunMs`.
abbrev pub AllQuick : PoolOptions → ℕ → List Crash → Type 0
AllQuick opts started [] = Unit
AllQuick opts started (c ∷ cs) = IsQuick opts started c × AllQuick opts c.forked_at cs

abbrev pub last_fork : ℕ → List Crash → ℕ
last_fork started [] = started
last_fork started (c ∷ cs) = last_fork c.forked_at cs

crash_run-IsUp :
    (i crashes started : ℕ) (cs : List Crash) (p : Pool)
    → IsUp p i crashes started
    → AllQuick p.opts started cs
    → IsUp (crash_run i cs p) i (crashes + length cs) (last_fork started cs)
      × ((crash_run i cs p).opts ≡ p.opts)
unfolding crash_run
crash_run-IsUp i crashes started [] p u q =
    (subst (λ n. IsUp p i n started) (let e : crashes ≡ crashes + 0 = omega arith in e) u, refl)
crash_run-IsUp i crashes started (c ∷ cs) p u q =
    let (up, same) = crash-IsUp i crashes started c p u q.0 in
    let (rest, same') =
      crash_run-IsUp i (suc crashes) c.forked_at cs (crash i c p) up
        (subst (λ o. AllQuick o c.forked_at cs) (sym same) q.1) in
    (
      subst (λ n. IsUp (crash_run i cs (crash i c p)) i n (last_fork c.forked_at cs))
          (let e : suc crashes + length cs ≡ crashes + suc (length cs) = omega arith in e) rest,
      same' ∙ same,
    )

-- A worker that starts with a clean record and keeps crashing before it has run for `healthyRunMs`, whatever
-- messages it sends before each crash, and while nothing else happens to the pool and no other restart is due, is
-- restarted each time, and after `n` such crashes the next one makes exactly one restart due, at its own index and
-- after `restartBackoffMs * 2 ^ n` milliseconds or 30 s, whichever is less.
pub crash_run-delay :
    (i started now : ℕ) (cs : List Crash) (said : List Message) (p : Pool)
    → IsUp p i 0 started
    → AllQuick p.opts started cs
    → now < last_fork started cs + p.opts.healthy_run_ms
    → (u : IsUp (crash_run i cs p) i (length cs) (last_fork started cs)) × ((on_exit u.slot now
          (hears u.slot said (crash_run i cs p))).timers
        ≡ (i, min (p.opts.restart_backoff_ms * 2 ^ length cs) max_backoff_ms) ∷ [])
unfolding backoff hears-IsUp
crash_run-delay i started now cs said p u q quick =
    let (up, same) = crash_run-IsUp i 0 started cs p u q in
    let up' =
      subst (λ n. IsUp (crash_run i cs p) i n (last_fork started cs))
        (let e : 0 + length cs ≡ length cs = omega arith in e) up in
    let heard = hears up'.slot said (crash_run i cs p) in
    let same' : heard.opts ≡ p.opts = (hears-Steady up'.slot said (crash_run i cs p)).opts ∙ same in
    let d =
      exit_delay i (length cs) (last_fork started cs) now heard
        (hears-IsUp i (length cs) (last_fork started cs) said (crash_run i cs p) up')
        (rw same' quick) in
    (up', d ∙ ap (λ o. (i, backoff o (length cs)) ∷ []) same')
