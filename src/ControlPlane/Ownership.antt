-- ===== src/ControlPlane/Ownership.antt =====
-- packages/control-plane/src/ownership.ts: the index of the sessions that a user owns, in Redis. Redis is a parameter:
-- its commands, and what each does to the hashes and the sorted sets that can be read back.
pub mod Records
pub mod Written
pub mod Cascade
pub mod Tests
use Prim.Native.String.{◌++◌ as join}
use serverless_harness.Base.{
  ℕ, String, ◌≡◌, ◌⊎◌, ◌<◌, ◌^◌, Bool, true, false, ◌||◌, Option, none, some, List, [], ◌∷◌, ◌++◌,
  length, ◌==◌, if◌then◌else◌, any, get, keep_if, string_key, min, nat_beq, ltb, Outcome, good, bad,
  decimal,
}
use serverless_harness.Base.Actions.{Action, pure, throw, ◌>>=◌, ◌>>◌}
use serverless_harness.Harness.Json.{Number, whole, other}
use serverless_harness.ControlPlane.Errors.{redis_unavailable, Thrown, refusal}

abbrev pub Hash : Type 0
Hash = List (String × String)

-- What can be read back: a field of a hash, and the score of a member of a sorted set.
pub record Store : Type 0 where
  pub field : String → String → Option String
  pub score : String → String → Option Number

abbrev pub or_else {ℓ} : {A : Type ℓ} → Option A → Option A → Option A
or_else (some a) o = some a
or_else none o = o

-- HSET, DEL, ZADD and ZREM.
abbrev pub hash_set : String → Hash → Store → Store
hash_set key values s = record s {
  field = λ k f. if k == key then or_else (get f values) (s.field k f) else s.field k f;
}

abbrev pub delete_keys : List String → Store → Store
delete_keys keys s = record {
  field = λ k f. if any (λ key. key == k) keys then none else s.field k f;
  score = λ k m. if any (λ key. key == k) keys then none else s.score k m;
}

abbrev pub set_score : String → String → Option Number → Store → Store
set_score key member score s = record s {
  score = λ k m. if k == key then (if m == member then score else s.score k m) else s.score k m;
}

-- The clients of Redis. A command that is not answered may have taken effect or not.
pub record CpRedis : Type 1 where
  pub World : Type 0
  pub view : World → Store
  pub h_set : String → Hash → World → World × Option (Unit {0})
  pub h_get_all : String → World → World × Option Hash
  pub z_add : String → Number → String → World → World × Option (Unit {0})
  pub z_rem : String → String → World → World × Option (Unit {0})
  pub z_range : String → Option Number → ℕ → World → World × Option (List String)
  pub z_score : String → Option String → World → World × Option (Option Number)
  pub del : List String → World → World × Option (Unit {0})
  pub x_add : String → Hash → World → World × Option (Unit {0})
  -- `String(n)` and `Number(s)`, `Date.now()`.
  pub print_number : Number → String
  pub read_number : String → Number
  pub clock : World → ℕ
  pub subject_hash : String → String

abbrev pub session_key : String → String
session_key sid = join "sh:cp:session:" sid

abbrev pub runtime_key : String → String
runtime_key sid = join (join "sh:cp:session:" sid) ":runtime"

abbrev pub data_keys : String → List String
data_keys sid =
    join "session:" sid ∷ join (join "session:" sid) ":seq" ∷ join "leaf:result:" sid ∷ []

abbrev pub runtime_fields : List String
runtime_fields =
    "harnessPod" ∷ "revision" ∷ "sandboxPod" ∷ "sandboxSelector" ∷ "leaseKey" ∷ "lastTurnAt"
    ∷ "turns" ∷ "turnStartedAt" ∷ "turnEndedAt" ∷ []

pub data SessionState : Type 0 where
  active deleting : SessionState

pub record SessionRecord : Type 0 where
  pub session_id : String
  pub owner : String
  pub tenant : String
  pub created_at : Number
  pub state : SessionState
  pub pool_selector : Option String
  pub credential_name : String
  pub tombstone : Bool

abbrev pub audit_stream : String
audit_stream = "sh:cp:audit"

abbrev pub state_text : SessionState → String
state_text active = "active"
state_text deleting = "deleting"

abbrev pub session_state_of : Option String → SessionState
session_state_of none = active
session_state_of (some s) = if s == "deleting" then deleting else active

-- `value ?? fallback`, and `value ? value : null`.
abbrev pub or_text : Option String → String → String
or_text none fallback = fallback
or_text (some s) fallback = s

abbrev pub filled : Option String → Option String
filled none = none
filled (some s) = if s == "" then none else some s

abbrev pub flag_text : Bool → String
flag_text true = "1"
flag_text false = "0"

abbrev pub is_flag : Option String → Bool
is_flag none = false
is_flag (some s) = s == "1"

-- `if (value !== undefined) allowed[name] = value`
abbrev pub put_field : String → Option String → Hash → Hash
put_field name none rest = rest
put_field name (some value) rest = (name, value) ∷ rest

-- The fields of the allow-list that are given, in its order.
abbrev pub pick_fields : List String → Hash → Hash
pick_fields [] fields = []
pick_fields (f ∷ fs) fields = put_field f (get f fields) (pick_fields fs fields)

abbrev pub unavailable : Thrown
unavailable = refusal redis_unavailable "redis is not answering"

abbrev pub guarded : {W A : Type 0} → W × Option A → W × Outcome Thrown A
guarded (w, none) = (w, bad unavailable)
guarded (w, some a) = (w, good a)

-- `guard`: a command that is not answered throws.
unfoldable pub guard : {W A : Type 0} → (W → W × Option A) → Action Thrown W A
guard command w = guarded (command w)

abbrev pub record_fields : (Number → String) → SessionRecord → Hash
record_fields print rec =
    ("owner", rec.owner)
    ∷ ("tenant", rec.tenant)
    ∷ ("createdAt", print rec.created_at)
    ∷ ("state", state_text rec.state)
    ∷ ("poolSelector", or_text rec.pool_selector "")
    ∷ ("credentialName", rec.credential_name)
    ∷ ("tombstone", flag_text rec.tombstone)
    ∷ []

-- `Number(createdAt ?? 0)`
abbrev pub created_of : (String → Number) → Option String → Number
created_of read none = whole 0
created_of read (some s) = read s

-- The fields that a record is read from.
pub record Columns : Type 0 where
  pub owner_field : Option String
  pub tenant_field : Option String
  pub created_at_field : Option String
  pub state_field : Option String
  pub pool_selector_field : Option String
  pub credential_name_field : Option String
  pub tombstone_field : Option String

abbrev pub columns : (String → Option String) → Columns
columns field = record {
  owner_field = field "owner";
  tenant_field = field "tenant";
  created_at_field = field "createdAt";
  state_field = field "state";
  pool_selector_field = field "poolSelector";
  credential_name_field = field "credentialName";
  tombstone_field = field "tombstone";
}

-- The record that the fields of a hash give; `none` without an owner.
abbrev pub record_with : (String → Number) → String → Columns → Option String → Option SessionRecord
record_with read sid c none = none
record_with read sid c (some owner) = some (record {
  session_id = sid;
  owner = owner;
  tenant = or_text c.tenant_field owner;
  created_at = created_of read c.created_at_field;
  state = session_state_of c.state_field;
  pool_selector = filled c.pool_selector_field;
  credential_name = or_text c.credential_name_field "";
  tombstone = is_flag c.tombstone_field;
})

abbrev pub record_of : (String → Number) → String → Columns → Option SessionRecord
record_of read sid c = record_with read sid c (filled c.owner_field)

abbrev pub tombstone_fields : Hash
tombstone_fields = ("tombstone", "1") ∷ ("state", "deleting") ∷ []

-- `...(value ? { name: value } : {})`
abbrev pub field_when : String → Option String → Hash
field_when name none = []
field_when name (some value) = if value == "" then [] else (name, value) ∷ []

pub record AuditEntry : Type 0 where
  pub subject : String
  pub session_id : Option String
  pub credential : Option String
  pub decision : String

abbrev pub audit_fields : String → AuditEntry → Hash
audit_fields ts entry =
    ("ts", ts)
    ∷ ("subject", entry.subject)
    ∷ ("decision", entry.decision)
    ∷ (field_when "sessionId" entry.session_id ++ field_when "credential" entry.credential)

abbrev pub default_page_size : ℕ
default_page_size = 50

abbrev pub max_page_size : ℕ
max_page_size = 200

-- The limit of a page; `floor` is the integer part of a number that is finite and more than zero.
abbrev pub page_limit : (String → Option ℕ) → Option Number → ℕ
page_limit floor none = default_page_size
page_limit floor (some (whole n)) = if ltb 0 n then min n max_page_size else default_page_size
page_limit floor (some (other s)) = elim (floor s) [
  | none ↦ default_page_size
  | some n ↦ min n max_page_size
]

abbrev pub tail_of {ℓ} : {A : Type ℓ} → List A → Option A
tail_of [] = none
tail_of (x ∷ []) = some x
tail_of (x ∷ y ∷ xs) = tail_of (y ∷ xs)

pub record Page : Type 0 where
  pub sessions : List SessionRecord
  pub next_cursor : Option Number

abbrev pub created_at_of : Option SessionRecord → Option Number
created_at_of none = none
created_at_of (some rec) = some rec.created_at

abbrev pub push_record : Option SessionRecord → List SessionRecord → List SessionRecord
push_record none recs = recs
push_record (some rec) recs = rec ∷ recs

module _ (redis : CpRedis) where
  abbrev pub World : Type 0
  World = redis.World

  abbrev pub owner_key : String → String
  owner_key subject = join (join "sh:cp:owner:" (redis.subject_hash subject)) ":sessions"

  unfoldable pub create : SessionRecord → Action Thrown World (Unit {0})
  unfolding guard
  create rec = do
    guard (redis.h_set (session_key rec.session_id) (record_fields redis.print_number rec))
    guard (redis.z_add (owner_key rec.owner) rec.created_at rec.session_id)

  unfoldable pub get_session : String → Action Thrown World (Option SessionRecord)
  unfolding guard
  get_session sid = do
    h ← guard (redis.h_get_all (session_key sid))
    pure (record_of redis.read_number sid (columns (λ f. get f h)))

  -- The records of the ids, those that are gone left out.
  unfoldable pub get_all : List String → Action Thrown World (List SessionRecord)
  unfolding get_session
  get_all [] = pure []
  get_all (sid ∷ sids) = do rec ← get_session sid; recs ← get_all sids; pure (push_record rec recs)

  -- A page without ids has no tail, and `z_score` is then asked for `undefined`.
  abbrev pub cursor_after :
      String → List SessionRecord → Option String → Action Thrown World (Option Number)
  cursor_after subject sessions tail = do
    score ← guard (redis.z_score (owner_key subject) tail)
    pure (or_else score (created_at_of (tail_of sessions)))

  unfoldable pub list_by_owner :
      (String → Option ℕ) → String → Option Number → Option Number → Action Thrown World Page
  unfolding guard get_all
  list_by_owner floor subject limit cursor = do
    ids ← guard (redis.z_range (owner_key subject) cursor (page_limit floor limit))
    sessions ← get_all ids
    next ←
        if nat_beq (length ids) (page_limit floor limit)
        then cursor_after subject sessions (tail_of ids)
        else pure none
    pure (record { sessions = sessions; next_cursor = next })

  unfoldable pub tombstone : String → Action Thrown World (Unit {0})
  unfolding guard
  tombstone sid = guard (redis.h_set (session_key sid) tombstone_fields)

  abbrev pub put_allowed : String → Hash → Action Thrown World (Unit {0})
  put_allowed sid [] = pure tt
  put_allowed sid (field ∷ fields) = guard (redis.h_set (runtime_key sid) (field ∷ fields))

  unfoldable pub put_runtime : String → Hash → Action Thrown World (Unit {0})
  unfolding guard
  put_runtime sid fields = put_allowed sid (pick_fields runtime_fields fields)

  unfoldable pub get_runtime : String → Action Thrown World Hash
  unfolding guard
  get_runtime sid = do
    h ← guard (redis.h_get_all (runtime_key sid))
    pure (pick_fields runtime_fields h)

  unfoldable pub audit : AuditEntry → Action Thrown World (Unit {0})
  unfolding guard
  audit entry w = guard (redis.x_add audit_stream (audit_fields (decimal (redis.clock w)) entry)) w

  unfoldable pub cascade_delete : SessionRecord → Action Thrown World (Unit {0})
  unfolding tombstone guard
  cascade_delete rec = do
    tombstone rec.session_id
    guard (redis.del (data_keys rec.session_id ++ runtime_key rec.session_id ∷ []))
    guard (redis.z_rem (owner_key rec.owner) rec.session_id)
    guard (redis.del (session_key rec.session_id ∷ []))
