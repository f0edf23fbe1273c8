-- ===== src/ControlPlane/Ownership/Tests.antt =====
-- An index in a Redis of functions, which answers every command or none.
use Prim.Native.Nat.{◌<◌, ◌^◌}
use serverless_harness.Base.{
  ℕ, zero, suc, String, ◌≡◌, refl, sym, ap, Bool, true, false, Option, none, some, List, [], ◌∷◌,
  ◌++◌, ◌==◌, if◌then◌else◌, any, get, string_key, good, bad, inl, inr, arith, digits, Bool-cases,
  some_inj,
}
use serverless_harness.Base.Actions.{◌>>=◌}
use serverless_harness.Harness.Json.{Number, whole, other}
use serverless_harness.ControlPlane.Ownership.{
  Hash, Store, or_else, hash_set, delete_keys, set_score, CpRedis, active, SessionRecord, guard,
  create, get_session, get_all, list_by_owner, tombstone, put_runtime, get_runtime, audit,
  cascade_delete, unavailable, owner_key,
}
use serverless_harness.ControlPlane.Ownership.Records.{RedisLaws, Wrote, put_runtime-get_session}
use serverless_harness.ControlPlane.Ownership.Written.{IsStorable, create-get_session}
use serverless_harness.ControlPlane.Ownership.Cascade.{
  Progress, cascade_effects, cascade_delete-Progress,
}

run_index : Unit {0}
unfolding ◌>>=◌ guard create get_session get_all list_by_owner tombstone put_runtime get_runtime
    audit cascade_delete digits
run_index = tt

-- `up` says whether commands are answered.
pub record World : Type 0 where
  pub up : Bool
  pub hashes : String → Hash
  pub scores : String → String → Option Number

abbrev view : World → Store
view w = record { field = λ k f. get f (w.hashes k); score = w.scores }

abbrev reply : Bool → World → World → World × Option (Unit {0})
reply true old new = (new, some tt)
reply false old new = (old, none)

abbrev h_set : String → Hash → World → World
h_set key h w = record w { hashes = λ k. if k == key then h ++ w.hashes k else w.hashes k }

abbrev del : List String → World → World
del keys w = record w {
  hashes = λ k. if any (λ key. key == k) keys then [] else w.hashes k;
  scores = λ k m. if any (λ key. key == k) keys then none else w.scores k m;
}

abbrev score_to : String → String → Option Number → World → World
score_to key member score w = record w {
  scores = λ k m. if k == key then (if m == member then score else w.scores k m) else w.scores k m;
}

-- A natural number as so many strokes.
abbrev strokes : ℕ → String
strokes zero = ""
strokes (suc n) = String.◌∷◌ "I" (strokes n)

abbrev print : Number → String
print (whole n) = strokes n
print (other s) = s

abbrev count : String → ℕ
count String.[] = 0
count (String.◌∷◌ c s) = suc (count s)

count-strokes : (n : ℕ) → count (strokes n) ≡ n
count-strokes zero = refl
count-strokes (suc n) = ap suc (count-strokes n)

abbrev pub toy : CpRedis
toy = record {
  World = World;
  view = view;
  h_set = λ k h w. reply w.up w (h_set k h w);
  h_get_all = λ k w. (w, if w.up then some (w.hashes k) else none);
  z_add = λ k n m w. reply w.up w (score_to k m (some n) w);
  z_rem = λ k m w. reply w.up w (score_to k m none w);
  z_range = λ k max count w. (w, if w.up then some ("s1" ∷ []) else none);
  z_score = λ k m w. (w, if w.up then some none else none);
  del = λ ks w. reply w.up w (del ks w);
  x_add = λ k h w. reply w.up w w;
  print_number = print;
  read_number = λ s. whole (count s);
  clock = λ w. 7;
  subject_hash = λ s. s;
}

get-append : (f : String) (h old : Hash) → get f (h ++ old) ≡ or_else (get f h) (get f old)
get-append f [] old = refl
get-append f ((g, v) ∷ h) old = elim (Bool-cases (g == f)) [
  | inl hit ↦ rw hit refl
  | inr miss ↦ rw miss (get-append f h old)
]

field-h_set :
    (key : String) (h : Hash) (w : World) (k f : String)
    → get f ((h_set key h w).hashes k) ≡ (hash_set key h (view w)).field k f
field-h_set key h w k f = elim (Bool-cases (k == key)) [
  | inl hit ↦ rw hit (get-append f h (w.hashes k))
  | inr miss ↦ rw miss refl
]

field-del :
    (keys : List String) (w : World) (k f : String)
    → get f ((del keys w).hashes k) ≡ (delete_keys keys (view w)).field k f
field-del keys w k f = elim (Bool-cases (any (λ key. key == k) keys)) [
  | inl hit ↦ rw hit refl
  | inr miss ↦ rw miss refl
]

-- A command with the effect has it where it is answered.
reply-Wrote :
    (up : Bool) (w new : World) (after : Store)
    → view new ≡ after
    → Wrote (view w) after (view (reply up w new).0) (reply up w new).1
reply-Wrote true w new after h = h
reply-Wrote false w new after h = inl refl

score_to-view :
    (k m : String) (n : Option Number) (w : World)
    → view (score_to k m n w) ≡ set_score k m n (view w)
score_to-view k m n w = refl

h_set-view : (k : String) (h : Hash) (w : World) → view (h_set k h w) ≡ hash_set k h (view w)
h_set-view key h w = λ i. record { field = λ k f. field-h_set key h w k f i; score = w.scores }

del-view : (ks : List String) (w : World) → view (del ks w) ≡ delete_keys ks (view w)
del-view keys w =
    λ i. record { field = λ k f. field-del keys w k f i; score = (delete_keys keys (view w)).score }

read_hash :
    (up : Bool) (h hash : Hash)
    → (if up then some h else none) ≡ some hash
    → (f : String) → get f hash ≡ get f h
read_hash true h hash e f = ap (get f) (sym (some_inj h hash e))
read_hash false h hash e f = cc

pub laws : RedisLaws toy
laws = record {
  h_set_writes = λ k h w. reply-Wrote w.up w (h_set k h w) _ (h_set-view k h w);
  del_writes = λ ks w. reply-Wrote w.up w (del ks w) _ (del-view ks w);
  z_add_writes = λ k n m w. reply-Wrote w.up w (score_to k m (some n) w) _ refl;
  z_rem_writes = λ k m w. reply-Wrote w.up w (score_to k m none w) _ refl;
  h_get_all_reads = λ k w h e f. read_hash w.up (w.hashes k) h e f;
  h_get_all_keeps = λ k w. refl;
  print_read = λ n small. ap whole (count-strokes n);
}

abbrev pub session : SessionRecord
session = record {
  session_id = "s1";
  owner = "ada";
  tenant = "ada";
  created_at = whole 3;
  state = active;
  pool_selector = none;
  credential_name = "anthropic";
  tombstone = false;
}

abbrev fresh : World
fresh = record { up = true; hashes = λ k. []; scores = λ k m. none }

abbrev pub made : World
made = (create toy session fresh).0

abbrev storable : IsStorable toy laws session
storable = (refl, (3, three, refl), refl)
  where
    three : 3 < 2 ^ 53
    three = omega arith

index_tests :
    ((get_session toy "s1" made).1 ≡ good (some session))
    × ((get_session toy "s2" made).1 ≡ good none)
    × ((get_session toy "s1" (record made { up = false })).1 ≡ bad unavailable)
    × ((get_session toy "s1" (cascade_delete toy session made).0).1 ≡ good none)
    × ((get_runtime toy "s1"
          (put_runtime toy "s1" (("owner", "eve") ∷ ("turns", "2") ∷ []) made).0).1
        ≡ good (("turns", "2") ∷ []))
unfolding run_index
index_tests = (refl, refl, refl, refl, refl)

create-get_session_example :
    (some session ≡ some session) × ((view made).score (owner_key toy "ada") "s1" ≡ some (whole 3))
unfolding run_index
create-get_session_example =
    create-get_session toy laws session fresh made made tt (some session) storable refl refl

-- A session `s1:runtime` has its record where the harness of `s1` reports.
abbrev sneaky : World
sneaky = (create toy (record session { session_id = "s1:runtime" }) fresh).0

put_runtime-get_session_example :
    some (record session { session_id = "s1:runtime" })
    ≡ some (record session { session_id = "s1:runtime" })
unfolding run_index
put_runtime-get_session_example =
    put_runtime-get_session toy laws "s1" "s1:runtime" (("owner", "eve") ∷ ("turns", "2") ∷ [])
      sneaky sneaky (put_runtime toy "s1" (("owner", "eve") ∷ ("turns", "2") ∷ []) sneaky).0
      (some (record session { session_id = "s1:runtime" }))
      (some (record session { session_id = "s1:runtime" })) refl refl

cascade_delete-Progress_example :
    Progress toy laws (cascade_effects toy laws session) made (cascade_delete toy session made)
cascade_delete-Progress_example = cascade_delete-Progress toy laws session made
