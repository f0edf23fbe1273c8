-- ===== src/Supervisor/Routing/Sticky.antt =====
-- What the sticky policy promises about one pick, and about a run of picks.
use mathlib.Core.Path.{subst₂}
use serverless_harness.Base.{
  ℕ, suc, ap, ◌+◌, ◌≡◌, ◌≢◌, refl, ◌≤◌, ◌<◌, ◌⊎◌, inl, inr, true, false, Option, none, some, List,
  [], ◌∷◌, Text, arith, ◌==◌, nat_key, ◌&&◌, length, get, In, All, any_sound, any_complete,
  Bool-cases, Option-cases, Distinct, text_key,
}
use serverless_harness.Supervisor.Routing.{
  WorkerView, Pins, pick_least_loaded, remember, serves, repin, pick_pinned, pick_sticky,
}
use serverless_harness.Supervisor.Routing.LeastLoaded.{
  pick_least_loaded_cases, IsLeast-healthy, IsLeast-In,
}
use serverless_harness.Supervisor.Routing.Pins.{
  IsPinned, length-remember-le, remember-Distinct, remember-IsPinned_self, remember-IsPinned_other,
}

-- A healthy worker with this id is listed.
abbrev pub Serves : ℕ → List WorkerView → Type 0
Serves id ws = (w : WorkerView) × In w ws × (w.id ≡ id) × (w.healthy ≡ true)

pub serves_sound : (id : ℕ) (ws : List WorkerView) → serves id ws ≡ true → Serves id ws
unfolding serves
serves_sound id ws h =
    let (w, m, q) = any_sound (λ wv. wv.id == id && wv.healthy) ws h in
    (w, m, ground arith, ground arith)

pub serves_complete : (id : ℕ) (ws : List WorkerView) → Serves id ws → serves id ws ≡ true
unfolding serves
serves_complete id ws (w, m, e, up) =
    any_complete (λ wv. wv.id == id && wv.healthy) ws w m (ground arith)

-- Everything that one pick can do to the table: leave it, or use the session's pin.
pub data Picked (max_pins : ℕ) (ws : List WorkerView) (pins : Pins)
    : Option Text → Option ℕ → Pins → Type 0 where
  unnamed :
      (chosen : Option ℕ) → pick_least_loaded ws ≡ chosen → Picked max_pins ws pins none chosen pins
  refused :
      (sid : Text) → pick_least_loaded ws ≡ none → Picked max_pins ws pins (some sid) none pins
  reused :
      (sid : Text) (id : ℕ)
      → get sid pins ≡ some id
      → Serves id ws
      → Picked max_pins ws pins (some sid) (some id) (remember max_pins sid id pins)
  pinned :
      (sid : Text) (id : ℕ)
      → ((old : ℕ) → get sid pins ≡ some old → serves old ws ≡ false)
      → pick_least_loaded ws ≡ some id
      → Picked max_pins ws pins (some sid) (some id) (remember max_pins sid id pins)

module _ (max_pins : ℕ) (ws : List WorkerView) where
  repin-Picked :
      (sid : Text) (pins : Pins)
      → ((old : ℕ) → get sid pins ≡ some old → serves old ws ≡ false)
      → let r = repin max_pins sid (pick_least_loaded ws) pins in
        Picked max_pins ws pins (some sid) r.0 r.1
  unfolding repin
  repin-Picked sid pins stale = elim (Option-cases (pick_least_loaded ws)) [
    | inl e ↦ rw (e, repin) (refused sid e)
    | inr (id, e) ↦ rw (e, repin) (pinned sid id stale e)
  ]

  pub pick_sticky-Picked :
      (pins : Pins) (session : Option Text)
      → let r = pick_sticky max_pins ws session pins in Picked max_pins ws pins session r.0 r.1
  unfolding pick_sticky
  pick_sticky-Picked pins none = unnamed _ refl
  pick_sticky-Picked pins (some sid) = elim (Option-cases (get sid pins)) [
    | inl e ↦ rw (e, pick_pinned) (repin-Picked sid pins (λ old h. cc))
    | inr (id, e) ↦ elim (Bool-cases (serves id ws)) [
      | inl up ↦ rw (e, pick_pinned) (rw up (reused sid id e (serves_sound id ws up)))
      | inr down ↦ rw (e, pick_pinned) (rw down (repin-Picked sid pins (λ old h. ground arith)))
    ]
  ]

-- What a choice of a worker may be.
abbrev pub IsChoice : List WorkerView → Option ℕ → Type 0
IsChoice ws chosen =
    ((chosen ≡ none) × All (λ w. w.healthy ≡ false) ws)
    ⊎ ((id : ℕ) × (chosen ≡ some id) × Serves id ws)

pub pick_least_loaded-IsChoice :
    (ws : List WorkerView) (chosen : Option ℕ) → pick_least_loaded ws ≡ chosen → IsChoice ws chosen
pick_least_loaded-IsChoice ws chosen h = elim (pick_least_loaded_cases ws) [
  | inl (e, down) ↦ inl (cc, down)
  | inr (b, e, l) ↦ inr (b.id, cc, (b, IsLeast-In l, refl, IsLeast-healthy l))
]

Picked-IsChoice :
    {max_pins : ℕ} {ws : List WorkerView} {pins after : Pins} {session : Option Text}
    {chosen : Option ℕ}
    → Picked max_pins ws pins session chosen after
    → IsChoice ws chosen
Picked-IsChoice {ws} (unnamed c e) = pick_least_loaded-IsChoice ws c e
Picked-IsChoice {ws} (refused sid e) = pick_least_loaded-IsChoice ws none e
Picked-IsChoice (reused sid id e s) = inr (id, refl, s)
Picked-IsChoice {ws} (pinned sid id stale e) = pick_least_loaded-IsChoice ws (some id) e

-- A pick names a healthy worker of the list, or none where no worker is healthy.
pub pick_sticky-IsChoice :
    (max_pins : ℕ) (ws : List WorkerView) (session : Option Text) (pins : Pins)
    → IsChoice ws (pick_sticky max_pins ws session pins).0
pick_sticky-IsChoice max_pins ws session pins =
    Picked-IsChoice (pick_sticky-Picked max_pins ws pins session)

abbrev pub IsTable : ℕ → Pins → Type 0
IsTable max_pins pins = (length pins ≤ max_pins) × Distinct pins

Picked-IsTable :
    {max_pins : ℕ} {ws : List WorkerView} {pins after : Pins} {session : Option Text}
    {chosen : Option ℕ}
    → Picked max_pins ws pins session chosen after
    → IsTable max_pins pins
    → IsTable max_pins after
Picked-IsTable (unnamed c e) h = h
Picked-IsTable (refused sid e) h = h
Picked-IsTable {max_pins} {pins} (reused sid id e s) h =
    (length-remember-le max_pins sid id pins, remember-Distinct max_pins sid id pins h.1)
Picked-IsTable {max_pins} {pins} (pinned sid id stale e) h =
    (length-remember-le max_pins sid id pins, remember-Distinct max_pins sid id pins h.1)

Picked-IsPinned_other :
    {max_pins : ℕ} {ws : List WorkerView} {pins after : Pins} {session : Option Text}
    {chosen : Option ℕ} (sid : Text) (id n : ℕ)
    → session ≢ some sid
    → n < max_pins
    → IsPinned sid id n pins
    → Picked max_pins ws pins session chosen after
    → IsPinned sid id (suc n) after
Picked-IsPinned_other sid id n other room p (unnamed c e) = record {
  found = p.found;
  recent = omega (arith, p.recent);
}
Picked-IsPinned_other sid id n other room p (refused k e) = record {
  found = p.found;
  recent = omega (arith, p.recent);
}
Picked-IsPinned_other {max_pins} {pins} sid id n other room p (reused k j e s) =
    remember-IsPinned_other max_pins sid k id j n pins (λ q. other (ap some q)) room p
Picked-IsPinned_other {max_pins} {pins} sid id n other room p (pinned k j stale e) =
    remember-IsPinned_other max_pins sid k id j n pins (λ q. other (ap some q)) room p

-- A run of picks, each on the views of its time.
abbrev pub Request : Type 0
Request = List WorkerView × Option Text

unfoldable pub pick_run : ℕ → List Request → Pins → Pins
pick_run max_pins [] pins = pins
pick_run max_pins ((ws, session) ∷ reqs) pins =
    pick_run max_pins reqs (pick_sticky max_pins ws session pins).1

pick_run-IsPinned :
    (max_pins : ℕ) (reqs : List Request) (pins : Pins) (sid : Text) (id n : ℕ)
    → All (λ r. r.1 ≢ some sid) reqs
    → n + length reqs ≤ max_pins
    → IsPinned sid id n pins
    → get sid (pick_run max_pins reqs pins) ≡ some id
unfolding pick_run
pick_run-IsPinned max_pins [] pins sid id n h room p = p.found
pick_run-IsPinned max_pins ((ws, session) ∷ reqs) pins sid id n h room p =
    pick_run-IsPinned max_pins reqs _ sid id (suc n) h.1 (omega arith) (
      Picked-IsPinned_other sid id n h.0 (omega arith) p
        (pick_sticky-Picked max_pins ws pins session))

pick_pinned-stays :
    (max_pins : ℕ) (ws : List WorkerView) (pins : Pins) (sid : Text) (id : ℕ)
    → get sid pins ≡ some id
    → Serves id ws
    → pick_sticky max_pins ws (some sid) pins ≡ (some id, remember max_pins sid id pins)
unfolding pick_sticky
pick_pinned-stays max_pins ws pins sid id h up = rw (h, pick_pinned) (rw (serves_complete id ws up))

Picked-self :
    {max_pins : ℕ} {ws : List WorkerView} {pins after : Pins} {session : Option Text}
    {chosen : Option ℕ} (sid : Text) (id : ℕ)
    → 0 < max_pins
    → session ≡ some sid
    → chosen ≡ some id
    → Picked max_pins ws pins session chosen after
    → IsPinned sid id 1 after
Picked-self sid id room es ec (unnamed c e) = cc
Picked-self sid id room es ec (refused k e) = cc
Picked-self {max_pins} {pins} sid id room es ec (reused k j e s) =
    subst₂ (λ a b. IsPinned a b 1 (remember max_pins k j pins)) (let q : k ≡ sid = cc in q)
      (let q : j ≡ id = cc in q) (remember-IsPinned_self max_pins k j pins room)
Picked-self {max_pins} {pins} sid id room es ec (pinned k j stale e) =
    subst₂ (λ a b. IsPinned a b 1 (remember max_pins k j pins)) (let q : k ≡ sid = cc in q)
      (let q : j ≡ id = cc in q) (remember-IsPinned_self max_pins k j pins room)

-- Where a session has been routed to a worker, and fewer than `maxPins` picks for other connections follow,
-- none of them of the session, its next connection goes to the same worker if that is still healthy.
pub pick_sticky_returns :
    (max_pins : ℕ) (ws ws' : List WorkerView) (reqs : List Request) (pins : Pins) (sid : Text)
    (id : ℕ)
    → (pick_sticky max_pins ws (some sid) pins).0 ≡ some id
    → All (λ r. r.1 ≢ some sid) reqs
    → length reqs < max_pins
    → Serves id ws'
    → (pick_sticky max_pins ws'
        (some sid)
        (pick_run max_pins reqs (pick_sticky max_pins ws (some sid) pins).1)).0
      ≡ some id
pick_sticky_returns max_pins ws ws' reqs pins sid id h others room up =
    let first =
      Picked-self sid id (omega arith) refl h (pick_sticky-Picked max_pins ws pins (some sid)) in
    let kept = pick_run-IsPinned max_pins reqs _ sid id 1 others (omega arith) first in
    ap (λ r. r.0) (pick_pinned-stays max_pins ws' _ sid id kept up)

-- From a table within its bound and with one pin for a session, an empty one included, no run of picks grows
-- the table past its bound or gives a session two pins.
pub pick_run-IsTable :
    (max_pins : ℕ) (reqs : List Request) (pins : Pins)
    → IsTable max_pins pins
    → IsTable max_pins (pick_run max_pins reqs pins)
unfolding pick_run
pick_run-IsTable max_pins [] pins h = h
pick_run-IsTable max_pins ((ws, session) ∷ reqs) pins h =
    pick_run-IsTable max_pins reqs _
      (Picked-IsTable (pick_sticky-Picked max_pins ws pins session) h)
