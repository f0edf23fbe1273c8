-- ===== src/Supervisor/Routing/Pins.antt =====
-- The affinity table of `stickyBySession`: its bound, and which pins an insertion evicts.
use serverless_harness.Base.{
  ℕ, suc, ◌≡◌, ◌≢◌, refl, ◌≤◌, ◌<◌, inl, inr, none, some, [], ◌∷◌, ◌++◌, Text, ltb, arith,
  if◌then◌else◌, ◌==◌, text_key, length, length-append, get, set, delete, set-delete, get-delete,
  get-set, Distinct, delete-Distinct, set-Distinct, length-delete-le, Bool-cases,
}
use serverless_harness.Supervisor.Routing.{Pins, evict, remember}

pub length-evict-le : (max_pins : ℕ) (pins : Pins) → length (evict max_pins pins) ≤ max_pins
unfolding evict
length-evict-le max_pins [] = omega arith
length-evict-le max_pins (p ∷ pins) = ground (arith, length-evict-le max_pins pins)

pub length-remember-le :
    (max_pins : ℕ) (sid : Text) (id : ℕ) (pins : Pins)
    → length (remember max_pins sid id pins) ≤ max_pins
unfolding remember
length-remember-le max_pins sid id pins = length-evict-le max_pins (set sid id (delete sid pins))

evict-absent :
    (max_pins : ℕ) (sid : Text) (pins : Pins)
    → get sid pins ≡ none
    → get sid (evict max_pins pins) ≡ none
unfolding evict
evict-absent max_pins sid [] h = refl
evict-absent max_pins sid ((k, v) ∷ pins) h = ground (arith, evict-absent max_pins sid pins)

evict-Distinct : (max_pins : ℕ) (pins : Pins) → Distinct pins → Distinct (evict max_pins pins)
unfolding evict
evict-Distinct max_pins [] h = tt
evict-Distinct max_pins ((k, v) ∷ pins) h = ground (arith, evict-Distinct max_pins pins h.1)

pub remember-Distinct :
    (max_pins : ℕ) (sid : Text) (id : ℕ) (pins : Pins)
    → Distinct pins
    → Distinct (remember max_pins sid id pins)
unfolding remember
remember-Distinct max_pins sid id pins h =
    evict-Distinct max_pins _ (set-Distinct sid id _ (delete-Distinct sid pins h))

-- How many entries stand from the one for `sid` to the newest, both counted.
abbrev pub age : Text → Pins → ℕ
age sid [] = 0
age sid ((k, v) ∷ pins) = if k == sid then suc (length pins) else age sid pins

-- The session is pinned to `id`, and at most `n - 1` sessions have been used since.
pub record IsPinned (sid : Text) (id n : ℕ) (pins : Pins) : Type 0 where
  pub found : get sid pins ≡ some id
  pub recent : age sid pins ≤ n

evict-IsPinned :
    (max_pins : ℕ) (sid : Text) (id n : ℕ) (pins : Pins)
    → n ≤ max_pins
    → IsPinned sid id n pins
    → IsPinned sid id n (evict max_pins pins)
unfolding evict
evict-IsPinned max_pins sid id n [] h p = p
evict-IsPinned max_pins sid id n ((k, v) ∷ pins) h p =
    elim (Bool-cases (ltb max_pins (suc (length pins)))) [
      | inl over ↦ rw over (
          evict-IsPinned max_pins sid id n pins h (record {
            found = ground (arith, p.found, p.recent);
            recent = ground (arith, p.found, p.recent);
          }))
      | inr fits ↦ rw fits p
    ]

age-delete : (sid k : Text) (pins : Pins) → k ≢ sid → age sid (delete k pins) ≤ age sid pins
age-delete sid k [] h = omega arith
age-delete sid k ((j, v) ∷ pins) h = ground (
  arith,
  age-delete sid k pins h,
  length-delete-le k pins,
  text_key.same_iff j k,
  text_key.same_iff j sid,
)

age-append :
    (sid k : Text) (id : ℕ) (pins : Pins)
    → k ≢ sid
    → age sid (pins ++ (k, id) ∷ []) ≤ suc (age sid pins)
age-append sid k id [] h = ground (arith, text_key.same_iff k sid)
age-append sid k id ((j, v) ∷ pins) h =
    ground (arith, age-append sid k id pins h, length-append pins ((k, id) ∷ []))

-- A session that has just been used is the newest.
age_newest :
    (sid : Text) (id : ℕ) (pins : Pins) → get sid pins ≡ none → age sid (pins ++ (sid, id) ∷ []) ≡ 1
age_newest sid id [] h = ground (arith, text_key.same_iff sid sid)
age_newest sid id ((j, v) ∷ pins) h = ground (arith, age_newest sid id pins)

pub remember-IsPinned_self :
    (max_pins : ℕ) (sid : Text) (id : ℕ) (pins : Pins)
    → 0 < max_pins
    → IsPinned sid id 1 (remember max_pins sid id pins)
unfolding remember
remember-IsPinned_self max_pins sid id pins h = evict-IsPinned max_pins sid id 1 _ h (record {
  found = ground (arith, get-set sid sid id (delete sid pins), text_key.same_iff sid sid);
  recent =
      let absent : get sid (delete sid pins) ≡ none =
        ground (arith, get-delete sid sid pins, text_key.same_iff sid sid) in
      rw (set-delete sid id pins) (omega (arith, age_newest sid id (delete sid pins) absent));
})

-- Another session's use makes a pin one step older, and evicts it only if it was the oldest of all.
pub remember-IsPinned_other :
    (max_pins : ℕ) (sid k : Text) (id j n : ℕ) (pins : Pins)
    → k ≢ sid
    → n < max_pins
    → IsPinned sid id n pins
    → IsPinned sid id (suc n) (remember max_pins k j pins)
unfolding remember
remember-IsPinned_other max_pins sid k id j n pins other room p =
    evict-IsPinned max_pins sid id (suc n) _ room (record {
      found = ground (
        arith,
        get-set k sid j (delete k pins),
        get-delete k sid pins,
        text_key.same_iff k sid,
        p.found,
      );
      recent = rw (set-delete k j pins) (
          omega (
            arith,
            age-append sid k j (delete k pins) other,
            age-delete sid k pins other,
            p.recent,
          ));
    })
