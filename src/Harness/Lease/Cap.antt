-- ===== src/Harness/Lease/Cap.antt =====
-- The cap of a pod, and what others may do to a lease that is held.
use Prim.Native.String.{String}
use serverless_harness.Base.{
  ℕ, suc, ◌+◌, ◌≤◌, ◌<◌, ◌≡◌, refl, ◌∙◌, ap, ◌↔◌, true, not, Option, some, List, [], ◌∷◌, ltb, leb,
  if◌then◌else◌, length, keep_if, length-keep_if-le, Text, ◌==◌, text_key, get, arith, Bool-cases,
  Option-cases, inl, inr,
}
use serverless_harness.Harness.Lease.{
  SortedSets, lease_key, active_count, acquire_script, load, acquire, heartbeat, release,
}

keep_if-later :
    (ms : List (Text × ℕ)) (now : ℕ)
    → keep_if (λ m. not (leb m.1 now)) ms ≡ keep_if (λ m. ltb now m.1) ms
keep_if-later [] now = refl
keep_if-later ((j, s) ∷ ms) now = ground (arith, keep_if-later ms now)

module _ (z : SortedSets) (pod : String) where
  abbrev leases : z.Db → List (Text × ℕ)
  leases db = z.members db (lease_key pod)

  swept_active :
      (db : z.Db) (now : ℕ)
      → z.card (z.remove_up_to db (lease_key pod) now) (lease_key pod)
        ≡ active_count (leases db) now
  swept_active db now =
      z.card_members (z.remove_up_to db (lease_key pod) now) (lease_key pod)
      ∙ ap length (z.members_remove_up_to db (lease_key pod) now ∙ keep_if-later (leases db) now)

  -- `load` answers with the number of leases that have not lapsed, and counts no other.
  pub load-active_count :
      (now : ℕ) (db : z.Db) → (load z pod now db).1 ≡ active_count (leases db) now
  unfolding load
  load-active_count now db = swept_active db now

  -- A lease is granted exactly when fewer than `cap` leases of the pod have not lapsed, so those of holders
  -- that are gone come free by themselves; and then the holder has it until `now + ttl`.
  pub acquire_iff :
      (pod_cap : ℕ) (holder : Text) (ttl now : ℕ) (db : z.Db)
      → let r = acquire z pod pod_cap holder ttl now db in
        ((r.1 ≡ true) ↔ (active_count (leases db) now < pod_cap))
        × (r.1 ≡ true → get holder (leases r.0) ≡ some (now + ttl))
  unfolding acquire acquire_script
  acquire_iff pod_cap holder ttl now db =
      let swept = z.remove_up_to db (lease_key pod) now in
      let count = swept_active db now in
      elim (Bool-cases (ltb (z.card swept (lease_key pod)) pod_cap)) [
        | inl room ↦ rw room (
          (λ _. ground (arith, count), λ _. refl),
          λ _. z.get_add swept (lease_key pod) (now + ttl) holder holder ∙ own holder _ _,
        )
        | inr full ↦ rw full ((λ h. cc, λ h. ground (arith, count)), λ h. cc)
      ]
    where
      own : (m : Text) (a b : Option ℕ) → (if m == m then a else b) ≡ a
      own m a b = ground (arith, text_key.same_iff m m)

  -- What the harnesses that share the pod do, in any order and at any times. A heartbeat is sent by a
  -- holder whose lease is still there.
  pub data Reaches (pod_cap : ℕ) (db : z.Db) : z.Db → Type 0 where
    same : Reaches pod_cap db db
    loads : (at : z.Db) (now : ℕ) → Reaches pod_cap db at → Reaches pod_cap db (load z pod now at).0
    acquires :
        (at : z.Db) (holder : Text) (ttl now : ℕ)
        → Reaches pod_cap db at
        → Reaches pod_cap db (acquire z pod pod_cap holder ttl now at).0
    beats :
        (at : z.Db) (holder : Text) (ttl now old : ℕ)
        → get holder (leases at) ≡ some old
        → Reaches pod_cap db at
        → Reaches pod_cap db (heartbeat z pod holder ttl now at)
    releases :
        (at : z.Db) (holder : Text)
        → Reaches pod_cap db at
        → Reaches pod_cap db (release z pod holder at)

  length-remove_up_to-le :
      (db : z.Db) (now : ℕ)
      → length (leases (z.remove_up_to db (lease_key pod) now)) ≤ length (leases db)
  length-remove_up_to-le db now =
      rw (z.members_remove_up_to db (lease_key pod) now)
        (length-keep_if-le (λ m. not (leb m.1 now)) (leases db))

  length-add-le :
      (db : z.Db) (score : ℕ) (m : Text)
      → length (leases (z.add db (lease_key pod) score m)) ≤ suc (length (leases db))
  length-add-le db score m = elim (Option-cases (get m (leases db))) [
    | inl e ↦ omega (arith, z.length_add_new db (lease_key pod) score m e)
    | inr (old, e) ↦ omega (arith, z.length_add_old db (lease_key pod) score old m e)
  ]

  acquire-below_cap :
      (pod_cap : ℕ) (holder : Text) (ttl now : ℕ) (db : z.Db)
      → length (leases db) ≤ pod_cap
      → length (leases (acquire z pod pod_cap holder ttl now db).0) ≤ pod_cap
  unfolding acquire acquire_script
  acquire-below_cap pod_cap holder ttl now db h =
      let swept = z.remove_up_to db (lease_key pod) now in
      elim (Bool-cases (ltb (z.card swept (lease_key pod)) pod_cap)) [
        | inl room ↦ rw room (below swept (now + ttl) holder room)
        | inr full ↦ rw full (omega (arith, length-remove_up_to-le db now))
      ]
    where
      below :
          (swept : z.Db) (expiry : ℕ) (m : Text)
          → ltb (z.card swept (lease_key pod)) pod_cap ≡ true
          → length (leases (z.add swept (lease_key pod) expiry m)) ≤ pod_cap
      below swept expiry m room =
          ground (arith, z.card_members swept (lease_key pod), length-add-le swept expiry m)

  -- The harnesses that share a pod, where a heartbeat is sent only by a holder whose lease is still there,
  -- never take it beyond its cap, if it was not beyond it before.
  pub Reaches-below_cap :
      (pod_cap : ℕ) (db after : z.Db)
      → Reaches pod_cap db after
      → length (leases db) ≤ pod_cap
      → length (leases after) ≤ pod_cap
  unfolding load heartbeat release
  Reaches-below_cap pod_cap db after same h = h
  Reaches-below_cap pod_cap db after (loads at now r) h =
      let before = Reaches-below_cap pod_cap db at r h in
      omega (arith, before, length-remove_up_to-le at now)
  Reaches-below_cap pod_cap db after (acquires at holder ttl now r) h =
      acquire-below_cap pod_cap holder ttl now at (Reaches-below_cap pod_cap db at r h)
  Reaches-below_cap pod_cap db after (beats at holder ttl now old held r) h =
      let before = Reaches-below_cap pod_cap db at r h in
      omega (arith, before, z.length_add_old at (lease_key pod) (now + ttl) old holder held)
  Reaches-below_cap pod_cap db after (releases at holder r) h =
      let before = Reaches-below_cap pod_cap db at r h in
      ground (arith, before, z.length_remove at (lease_key pod) holder)
