-- ===== src/Supervisor/Pool/HandOff/Outcome.antt =====
-- What `handOff` does: it ends within its fuel, gives the socket to one worker that takes it, and
-- refuses it only where no worker would.
use serverless_harness.Base.{
  ℕ, ◌+◌, ◌≡◌, refl, sym, ◌∙◌, subst, inl, inr, true, false, Option, none, some, List, [], ◌∷◌,
  nat_beq, nat_beq_iff, any, keep_if, arith, All, All-in, In, In-keep_if, Bool-cases, Option-cases,
}
use serverless_harness.Supervisor.Routing.{WorkerView, pick_least_loaded}
use serverless_harness.Supervisor.Routing.LeastLoaded.{pick_least_loaded_cases}
use serverless_harness.Supervisor.Pool.State.{Slot, Pool, Effect, write, views, slot_at}
use serverless_harness.Supervisor.Pool.Views.{views-of}
use serverless_harness.Supervisor.Pool.HandOff.{
  stamp, takes, taker, head_field, deliver, is_untried, count_retry, fail_handoff,
}

-- The slot at `id`, if there is one, does not take the socket.
abbrev pub Declines : Pool → ℕ → Type 0
Declines p id = taker p.cells (slot_at p id) ≡ none

-- What no hand-off changes.
pub record Untouched (p after : Pool) : Type 0 where
  pub opts : after.opts ≡ p.opts
  pub next : after.next ≡ p.next
  pub slots : after.slots ≡ p.slots
  pub shutting_down : after.shutting_down ≡ p.shutting_down
  pub idle_waiters : after.idle_waiters ≡ p.idle_waiters
  pub resolved : after.resolved ≡ p.resolved
  pub timers : after.timers ≡ p.timers
  pub spurious : after.tally.spurious_refusals ≡ p.tally.spurious_refusals

-- The socket went to the worker at `t`: its estimate rose by one, and nothing else was sent.
pub record Delivered (p : Pool) (socket : ℕ) (head : Option (List ℕ)) (t : ℕ) (after : Pool)
    : Type 0 where
  pub slot : ℕ
  pub at : slot_at p t ≡ some slot
  pub able : takes (p.cells slot) ≡ true
  pub cells :
      after.cells
      ≡ write slot (record (p.cells slot) { in_flight = (p.cells slot).in_flight + 1 }) p.cells
  pub effects : after.effects ≡ Effect.conn slot socket (head_field head) ∷ p.effects
  pub rest : Untouched p after
  pub refusal_seq : after.refusal_seq ≡ p.refusal_seq
  pub refusal_counted : after.refusal_counted ≡ p.refusal_counted

-- The socket was refused: one refusal is noted, no estimate changed, and every worker declines.
pub record Refused (p : Pool) (socket : ℕ) (after : Pool) : Type 0 where
  pub declined : (id : ℕ) → Declines p id
  pub cells : after.cells ≡ stamp p.cells p.slots
  pub effects : after.effects ≡ Effect.refuse socket ∷ p.effects
  pub rest : Untouched p after
  pub refusal_seq : after.refusal_seq ≡ p.refusal_seq + 1
  pub refusal_counted : after.refusal_counted ≡ false

abbrev pub HandedOff : Pool → ℕ → Option (List ℕ) → Pool × Option ℕ → Type 0
HandedOff p socket head (after, none) = Refused p socket after
HandedOff p socket head (after, some t) = Delivered p socket head t after

-- How many workers the loop has not tried.
abbrev pub untried : List ℕ → Pool → List WorkerView
untried tried p = keep_if (is_untried tried) (views p)

-- Each worker tried has declined.
abbrev pub AllDecline : List ℕ → Pool → Type 0
AllDecline tried p = All (Declines p) tried

any-In : (id : ℕ) (tried : List ℕ) → any (λ t. nat_beq t id) tried ≡ true → In id tried
any-In id [] h = cc
any-In id (t ∷ tried) h = ground (
  arith,
  nat_beq_iff t id,
  λ (later : any (λ t. nat_beq t id) tried ≡ true). any-In id tried later,
)

unhealthy-of-pick_none :
    (ws : List WorkerView) (w : WorkerView)
    → pick_least_loaded ws ≡ none
    → In w ws
    → w.healthy ≡ false
unhealthy-of-pick_none ws w h m = elim (pick_least_loaded_cases ws) [
  | inl (_, down) ↦ All-in (λ v. v.healthy ≡ false) ws w down m
  | inr (b, e, _) ↦ cc
]

taker_down :
    (cells : ℕ → Slot) (o : Option ℕ) (r : ℕ)
    → o ≡ some r
    → (cells r).healthy ≡ false
    → taker cells o ≡ none
unfolding taker
taker_down cells o r e down = ground arith

pub Declines-of-pick_none :
    (p : Pool) (tried : List ℕ)
    → AllDecline tried p
    → pick_least_loaded (untried tried p) ≡ none
    → (id : ℕ) → Declines p id
unfolding taker
Declines-of-pick_none p tried declined h id = elim (Option-cases (slot_at p id)) [
  | inl e ↦ rw e
  | inr (r, e) ↦
      let (w, m, same, shows) = views-of p id r e in
      elim (Bool-cases (is_untried tried w)) [
        | inl fresh ↦
            let down =
              unhealthy-of-pick_none (untried tried p) w h
                (In-keep_if (is_untried tried) (views p) w m fresh) in
            taker_down p.cells (slot_at p id) r e (sym shows.healthy ∙ down)
        | inr old ↦
            All-in (Declines p) tried id declined
              (subst (λ i. In i tried) same (any-In w.id tried (ground arith)))
      ]
]

Untouched-count_retry : {p after : Pool} → Untouched (count_retry p) after → Untouched p after
Untouched-count_retry u = record {
  opts = u.opts;
  next = u.next;
  slots = u.slots;
  shutting_down = u.shutting_down;
  idle_waiters = u.idle_waiters;
  resolved = u.resolved;
  timers = u.timers;
  spurious = u.spurious;
}

-- The loop, from any round on: it ends if the fuel exceeds the number of workers left to try.
module _ (socket : ℕ) (head : Option (List ℕ)) where
  abbrev pub Ends : Pool → Option (Pool × Option ℕ) → Type 0
  Ends p result = (r : Pool × Option ℕ) × (result ≡ some r) × HandedOff p socket head r

  pub fail_handoff-Refused :
      (p : Pool) → ((id : ℕ) → Declines p id) → Refused p socket (fail_handoff socket p)
  unfolding fail_handoff
  fail_handoff-Refused p declined = record {
    declined = declined;
    cells = refl;
    effects = refl;
    rest = same;
    refusal_seq = refl;
    refusal_counted = refl;
  }
    where
      same : Untouched p (fail_handoff socket p)
      same = record {
        opts = refl;
        next = refl;
        slots = refl;
        shutting_down = refl;
        idle_waiters = refl;
        resolved = refl;
        timers = refl;
        spurious = refl;
      }

  pub deliver-Delivered :
      (p : Pool) (t r : ℕ)
      → slot_at p t ≡ some r
      → takes (p.cells r) ≡ true
      → Delivered p socket head t (deliver r socket head p)
  unfolding deliver
  deliver-Delivered p t r at able = record {
    slot = r;
    at = at;
    able = able;
    cells = refl;
    effects = refl;
    rest = same;
    refusal_seq = refl;
    refusal_counted = refl;
  }
    where
      same : Untouched p (deliver r socket head p)
      same = record {
        opts = refl;
        next = refl;
        slots = refl;
        shutting_down = refl;
        idle_waiters = refl;
        resolved = refl;
        timers = refl;
        spurious = refl;
      }

  -- A retry changes a counter only, so what follows is an outcome for the pool before it.
  pub HandedOff-count_retry :
      (p : Pool) (r : Pool × Option ℕ)
      → HandedOff (count_retry p) socket head r
      → HandedOff p socket head r
  HandedOff-count_retry p (after, none) o = record {
    declined = o.declined;
    cells = o.cells;
    effects = o.effects;
    rest = Untouched-count_retry o.rest;
    refusal_seq = o.refusal_seq;
    refusal_counted = o.refusal_counted;
  }
  HandedOff-count_retry p (after, some t) o = record {
    slot = o.slot;
    at = o.at;
    able = o.able;
    cells = o.cells;
    effects = o.effects;
    rest = Untouched-count_retry o.rest;
    refusal_seq = o.refusal_seq;
    refusal_counted = o.refusal_counted;
  }
