-- ===== src/Harness/Lease.antt =====
-- harness/src/sandbox-lease.ts: the leases of a sandbox, one sorted set of Redis for each pod. Redis is
-- not of this repository: `SortedSets` has the commands that the store sends and what their
-- documentation says of them.
pub mod Cap
pub mod Held
mod Tests
use Prim.Native.String.{String, ◌++◌ as join}
use serverless_harness.Base.{
  ℕ, suc, ◌+◌, ◌≡◌, ◌≢◌, Bool, true, false, not, Option, none, some, List, [], ◌∷◌, ltb, leb,
  if◌then◌else◌, length, keep_if, nat_beq, Text, ◌==◌, text_key, get,
}

-- A member is a text, and its score a number. `remove_up_to` is ZREMRANGEBYSCORE from `-inf`.
pub record SortedSets : Type 1 where
  pub Db : Type 0
  pub members : Db → String → List (Text × ℕ)
  pub remove_up_to : Db → String → ℕ → Db
  pub card : Db → String → ℕ
  pub add : Db → String → ℕ → Text → Db
  pub remove : Db → String → Text → Db
  pub members_remove_up_to :
      (db : Db) (key : String) (max : ℕ)
      → members (remove_up_to db key max) key ≡ keep_if (λ m. not (leb m.1 max)) (members db key)
  pub card_members : (db : Db) (key : String) → card db key ≡ length (members db key)
  pub get_add :
      (db : Db) (key : String) (score : ℕ) (m j : Text)
      → get j (members (add db key score m) key)
        ≡ (if m == j then some score else get j (members db key))
  pub length_add_new :
      (db : Db) (key : String) (score : ℕ) (m : Text)
      → get m (members db key) ≡ none
      → length (members (add db key score m) key) ≡ suc (length (members db key))
  pub length_add_old :
      (db : Db) (key : String) (score old : ℕ) (m : Text)
      → get m (members db key) ≡ some old
      → length (members (add db key score m) key) ≡ length (members db key)
  pub get_remove :
      (db : Db) (key : String) (m j : Text)
      → get j (members (remove db key m) key) ≡ (if m == j then none else get j (members db key))
  pub length_remove :
      (db : Db) (key : String) (m : Text)
      → leb (length (members (remove db key m) key)) (length (members db key)) ≡ true

abbrev pub lease_key : String → String
lease_key pod = join "sh:sandbox:" (join pod ":leases")

abbrev pub active_count : List (Text × ℕ) → ℕ → ℕ
active_count ms now = length (keep_if (λ m. ltb now m.1) ms)

module _ (z : SortedSets) where
  -- The script ACQUIRE_LUA.
  unfoldable pub acquire_script : z.Db → String → ℕ → ℕ → Text → ℕ → z.Db × ℕ
  acquire_script db key now pod_cap holder expiry =
      let swept = z.remove_up_to db key now in
      if ltb (z.card swept key) pod_cap then (z.add swept key expiry holder, 1) else (swept, 0)

  -- The commands of the store, each with the time at which it runs.
  unfoldable pub load : String → ℕ → z.Db → z.Db × ℕ
  load pod now db =
      let swept = z.remove_up_to db (lease_key pod) now in (swept, z.card swept (lease_key pod))

  unfoldable pub acquire : String → ℕ → Text → ℕ → ℕ → z.Db → z.Db × Bool
  unfolding acquire_script
  acquire pod pod_cap holder ttl now db =
      let (after, res) = acquire_script db (lease_key pod) now pod_cap holder (now + ttl) in
      (after, nat_beq res 1)

  unfoldable pub heartbeat : String → Text → ℕ → ℕ → z.Db → z.Db
  heartbeat pod holder ttl now db = z.add db (lease_key pod) (now + ttl) holder

  unfoldable pub release : String → Text → z.Db → z.Db
  release pod holder db = z.remove db (lease_key pod) holder
