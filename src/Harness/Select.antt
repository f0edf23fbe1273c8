-- ===== src/Harness/Select.antt =====
-- harness/src/select-sandbox.ts: which sandbox of the pool a turn or a leaf runs in. The lease store is an
-- interface; what it does may depend on the clock and on other harnesses, which its state stands for.
-- Each of its commands may reject. The listing of pods and of records, and the making of a transport, are parameters;
-- a listing that fails, which ends the selection before the store is asked anything, is not modelled.
pub mod Order
pub mod Leased
pub mod First
mod Tests
use Prim.Native.String.{String}
use text.Mathlib.Text.{◌==◌ as text_same}
use serverless_harness.Base.{
  ℕ, suc, ◌≡◌, Bool, true, false, not, ◌&&◌, ◌||◌, Option, none, some, List, [], ◌∷◌, ◌++◌, map,
  ltb, nat_beq, if◌then◌else◌, any,
}

pub record Load : Type 0 where
  pub pod : String
  pub active : ℕ

-- `.map((l, i) => ({ ...l, i }))`
abbrev pub numbered : ℕ → List Load → List (Load × ℕ)
numbered i [] = []
numbered i (l ∷ ls) = (l, i) ∷ numbered (suc i) ls

-- `a.active - b.active || a.i - b.i` is negative.
abbrev pub comes_before : Load × ℕ → Load × ℕ → Bool
comes_before (a, i) (b, j) = ltb a.active b.active || (nat_beq a.active b.active && ltb i j)

abbrev pub insert_row : Load × ℕ → List (Load × ℕ) → List (Load × ℕ)
insert_row r [] = r ∷ []
insert_row r (s ∷ rows) =
    let later = insert_row r rows in if comes_before r s then r ∷ s ∷ rows else s ∷ later

abbrev pub sort_rows : List (Load × ℕ) → List (Load × ℕ)
sort_rows [] = []
sort_rows (r ∷ rows) = insert_row r (sort_rows rows)

unfoldable pub order_by_load : List Load → List String
order_by_load loads = map (λ r. r.0.pod) (sort_rows (numbered 0 loads))

pub data DiscoverySource : Type 0 where
  pods records both : DiscoverySource

pub data SelectError : Type 0 where
  unknown_source : String → SelectError
  records_need_flag : SelectError
  pool_empty : String → DiscoverySource → SelectError
  pool_saturated : String → SelectError
  no_transport : String → SelectError
  store_failed : SelectError

pub data Source : Type 0 where
  found : DiscoverySource → Source
  invalid : SelectError → Source

-- The value of SH_SANDBOX_DISCOVERY, trimmed.
unfoldable pub resolve_discovery_source : Option String → Bool → Source
resolve_discovery_source none remote = found both
resolve_discovery_source (some raw) remote =
    if text_same raw ""
    then found both
    else if text_same raw "pods"
    then found pods
    else if text_same raw "both"
    then found both
    else if text_same raw "records"
    then if remote then found records else invalid records_need_flag
    else invalid (unknown_source raw)

-- `held w pod holder`: the holder has a lease of the pod. Only an `acquire` makes one, of its own pod and holder: it does
-- where it answers `true`, does not where it answers `false`, and may have where it rejects. A `release` that is
-- answered frees the lease. A result that is `none`, or `false` for `release`, is a rejection.
pub record LeaseStore : Type 1 where
  pub World : Type 0
  pub held : World → String → String → Bool
  pub load : String → World → World × Option ℕ
  pub acquire : String → ℕ → String → ℕ → World → World × Option Bool
  pub release : String → String → World → World × Bool
  pub load_makes_none :
      (pod : String) (w : World) (p h : String) → held (load pod w).0 p h ≡ true → held w p h ≡ true
  pub refused_makes_none :
      (pod : String) (pod_cap : ℕ) (holder : String) (ttl : ℕ) (w : World) (p h : String)
      → (acquire pod pod_cap holder ttl w).1 ≡ some false
      → held (acquire pod pod_cap holder ttl w).0 p h ≡ true
      → held w p h ≡ true
  pub granted_makes_one :
      (pod : String) (pod_cap : ℕ) (holder : String) (ttl : ℕ) (w : World)
      → (acquire pod pod_cap holder ttl w).1 ≡ some true
      → held (acquire pod pod_cap holder ttl w).0 pod holder ≡ true
  pub acquire_makes_no_other :
      (pod : String) (pod_cap : ℕ) (holder : String) (ttl : ℕ) (w : World) (p h : String)
      → held (acquire pod pod_cap holder ttl w).0 p h ≡ true
      → (text_same p pod && text_same h holder) ≡ false
      → held w p h ≡ true
  pub release_makes_none :
      (pod holder : String) (w : World) (p h : String)
      → held (release pod holder w).0 p h ≡ true
      → held w p h ≡ true
  pub release_frees :
      (pod holder : String) (w : World)
      → (release pod holder w).1 ≡ true
      → held (release pod holder w).0 pod holder ≡ false

pub record SelectOptions : Type 0 where
  pub pod_cap : ℕ
  pub ttl_ms : ℕ
  pub remote_sandbox : Bool
  pub holder_id : Option String

-- `opts.holderId ?? sessionId`
abbrev pub holder_of : Option String → String → String
holder_of none session = session
holder_of (some id) session = id

-- `lease` is what `heartbeat` and `release` close over, `none` where no lease was taken.
pub record SelectedSandbox (Config Transport : Type 0) : Type 0 where
  pub config : Config
  pub transport : Option Transport
  pub lease : Option (String × String)

pub data Selection (Config Transport : Type 0) : Type 0 where
  no_sandbox : Selection Config Transport
  selected : SelectedSandbox Config Transport → Selection Config Transport
  failed : SelectError → Selection Config Transport

-- `config_of` is the configuration for a pod, `single_pod` what `resolveSandboxConfig` returns;
-- `make_transport id sessionId` is `none` where it throws.
module _ {Config Transport : Type 0} (store : LeaseStore) (config_of : String → Config)
    (single_pod : Option Config) (make_transport : String → String → Option Transport) where
  abbrev pub Outcome : Type 0
  Outcome = store.World × Selection Config Transport

  abbrev pub with_load : String → Option ℕ → Option (List Load) → Option (List Load)
  with_load name (some active) (some loads) = some (record { pod = name; active = active } ∷ loads)
  with_load name _ _ = none

  -- The loads of the candidates, which are all asked for; `none` where `Promise.all` rejects.
  unfoldable pub load_all : List String → store.World → store.World × Option (List Load)
  load_all [] w = (w, some [])
  load_all (name ∷ names) w =
      let (w, active) = store.load name w in
      let (w, loads) = load_all names w in (w, with_load name active loads)

  -- The lease is held, and is given back where the transport throws; whether the release rejects makes no
  -- difference. The sandbox is a pod, or a record, which has a transport.
  unfoldable pub use_lease : String → String → String → Bool → store.World → Outcome
  use_lease holder session name is_record w =
      if is_record
      then elim (make_transport name session) [
        | none ↦ ((store.release name holder w).0, failed (no_transport name))
        | some t ↦ (
          w,
          selected
              (record { config = config_of name; transport = some t; lease = some (name, holder) }),
        )
      ]
      else (
        w,
        selected
            (record { config = config_of name; transport = none; lease = some (name, holder) }),
      )

  -- What follows the answer to `acquire`: the lease is used, or the next candidate is tried.
  abbrev pub answered : Option Bool → store.World → Outcome → Outcome → Outcome
  answered none w used rest = (w, failed store_failed)
  answered (some true) w used rest = used
  answered (some false) w used rest = rest

  unfoldable pub acquire_first :
      String
      → SelectOptions
      → String
      → String
      → (String → Bool)
      → List String
      → store.World
      → Outcome
  acquire_first selector opts holder session is_record [] w = (w, failed (pool_saturated selector))
  acquire_first selector opts holder session is_record (name ∷ names) w =
      let (w, granted) = store.acquire name opts.pod_cap holder opts.ttl_ms w in
      let rest = acquire_first selector opts holder session is_record names w in
      answered granted w (use_lease holder session name (is_record name) w) rest

  unfoldable pub select_among :
      String
      → DiscoverySource
      → SelectOptions
      → String
      → List String
      → List String
      → store.World
      → Outcome
  select_among selector source opts session listed recs w =
      let (w, loads) = load_all (listed ++ recs) w in
      elim (listed ++ recs) [
        | [] ↦ (w, failed (pool_empty selector source))
        | _ ∷ _ ↦ elim loads [
          | none ↦ (w, failed store_failed)
          | some ls ↦
              acquire_first selector opts (holder_of opts.holder_id session) session
                (λ name. any (λ id. text_same id name) recs) (order_by_load ls) w
        ]
      ]

  -- `listing` is what `listPods` returns, `mirrored` the ids of the presence records.
  unfoldable pub select_from :
      String → Source → SelectOptions → String → List String → List String → store.World → Outcome
  select_from selector (invalid e) opts session listing mirrored w = (w, failed e)
  select_from selector (found pods) opts session listing mirrored w =
      select_among selector pods opts session listing [] w
  select_from selector (found records) opts session listing mirrored w =
      select_among selector records opts session [] (if opts.remote_sandbox then mirrored else []) w
  select_from selector (found both) opts session listing mirrored w =
      select_among selector both opts session listing (if opts.remote_sandbox then mirrored else [])
        w

  -- The selector is missing where the variable is unset or empty.
  unfoldable pub select_pool_sandbox :
      Option String
      → Option String
      → SelectOptions
      → String
      → List String
      → List String
      → store.World
      → Outcome
  select_pool_sandbox none discovery opts session listing mirrored w = elim single_pod [
    | none ↦ (w, no_sandbox)
    | some c ↦ (w, selected (record { config = c; transport = none; lease = none }))
  ]
  select_pool_sandbox (some selector) discovery opts session listing mirrored w =
      select_from selector (resolve_discovery_source discovery opts.remote_sandbox) opts session
        listing mirrored w
