-- ===== src/Harness/Lease/Held.antt =====
-- Nobody else takes a lease from its holder before it lapses.
use Prim.Native.String.{String}
use serverless_harness.Base.{
  ℕ, ◌+◌, ◌<◌, ◌≡◌, ◌≢◌, not, some, List, [], ◌∷◌, ltb, leb, keep_if, Text, text_key, get, arith,
  Bool-cases, inl, inr,
}
use serverless_harness.Harness.Lease.{
  SortedSets, lease_key, acquire_script, load, acquire, heartbeat, release,
}

get-keep_if :
    (ms : List (Text × ℕ)) (max s : ℕ) (m : Text)
    → get m ms ≡ some s
    → max < s
    → get m (keep_if (λ m. not (leb m.1 max)) ms) ≡ some s
get-keep_if [] max s m h late = cc
get-keep_if ((j, r) ∷ ms) max s m h late = ground (arith, get-keep_if ms max s m)

module _ (z : SortedSets) (pod : String) where
  -- `holder` has a lease of the pod until `expiry`.
  abbrev pub Holds : Text → ℕ → z.Db → Type 0
  Holds holder expiry db = get holder (z.members db (lease_key pod)) ≡ some expiry

  -- What others do to the pod, in any order, at times before `expiry`.
  pub data Meanwhile (holder : Text) (expiry : ℕ) (db : z.Db) : z.Db → Type 0 where
    nothing : Meanwhile holder expiry db db
    loads :
        (at : z.Db) (now : ℕ)
        → now < expiry
        → Meanwhile holder expiry db at
        → Meanwhile holder expiry db (load z pod now at).0
    acquires :
        (at : z.Db) (pod_cap : ℕ) (other : Text) (ttl now : ℕ)
        → now < expiry
        → other ≢ holder
        → Meanwhile holder expiry db at
        → Meanwhile holder expiry db (acquire z pod pod_cap other ttl now at).0
    beats :
        (at : z.Db) (other : Text) (ttl now : ℕ)
        → other ≢ holder
        → Meanwhile holder expiry db at
        → Meanwhile holder expiry db (heartbeat z pod other ttl now at)
    releases :
        (at : z.Db) (other : Text)
        → other ≢ holder
        → Meanwhile holder expiry db at
        → Meanwhile holder expiry db (release z pod other at)

  Holds-remove_up_to :
      (holder : Text) (expiry now : ℕ) (db : z.Db)
      → now < expiry
      → Holds holder expiry db
      → Holds holder expiry (z.remove_up_to db (lease_key pod) now)
  Holds-remove_up_to holder expiry now db early h =
      rw (z.members_remove_up_to db (lease_key pod) now)
        (get-keep_if (z.members db (lease_key pod)) now expiry holder h early)

  Holds-add :
      (holder other : Text) (expiry score : ℕ) (db : z.Db)
      → other ≢ holder
      → Holds holder expiry db
      → Holds holder expiry (z.add db (lease_key pod) score other)
  Holds-add holder other expiry score db ne h =
      ground
        (arith, z.get_add db (lease_key pod) score other holder, text_key.same_iff other holder)

  Holds-remove :
      (holder other : Text) (expiry : ℕ) (db : z.Db)
      → other ≢ holder
      → Holds holder expiry db
      → Holds holder expiry (z.remove db (lease_key pod) other)
  Holds-remove holder other expiry db ne h =
      ground (arith, z.get_remove db (lease_key pod) other holder, text_key.same_iff other holder)

  Holds-acquire :
      (holder other : Text) (expiry pod_cap ttl now : ℕ) (db : z.Db)
      → now < expiry
      → other ≢ holder
      → Holds holder expiry db
      → Holds holder expiry (acquire z pod pod_cap other ttl now db).0
  unfolding acquire acquire_script
  Holds-acquire holder other expiry pod_cap ttl now db early ne h =
      let swept = z.remove_up_to db (lease_key pod) now in
      let kept = Holds-remove_up_to holder expiry now db early h in
      elim (Bool-cases (ltb (z.card swept (lease_key pod)) pod_cap)) [
        | inl room ↦ rw room (Holds-add holder other expiry (now + ttl) swept ne kept)
        | inr full ↦ rw full kept
      ]

  -- Whatever other harnesses do to the pod before a lease lapses, its holder has it still, with the same
  -- expiry.
  pub Meanwhile-Holds :
      (holder : Text) (expiry : ℕ) (db after : z.Db)
      → Meanwhile holder expiry db after
      → Holds holder expiry db
      → Holds holder expiry after
  unfolding load heartbeat release
  Meanwhile-Holds holder expiry db after nothing h = h
  Meanwhile-Holds holder expiry db after (loads at now early m) h =
      Holds-remove_up_to holder expiry now at early (Meanwhile-Holds holder expiry db at m h)
  Meanwhile-Holds holder expiry db after (acquires at pod_cap other ttl now early ne m) h =
      Holds-acquire holder other expiry pod_cap ttl now at early ne
        (Meanwhile-Holds holder expiry db at m h)
  Meanwhile-Holds holder expiry db after (beats at other ttl now ne m) h =
      Holds-add holder other expiry (now + ttl) at ne (Meanwhile-Holds holder expiry db at m h)
  Meanwhile-Holds holder expiry db after (releases at other ne m) h =
      Holds-remove holder other expiry at ne (Meanwhile-Holds holder expiry db at m h)
