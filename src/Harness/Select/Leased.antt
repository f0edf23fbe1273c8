-- ===== src/Harness/Select/Leased.antt =====
-- The lease that a selection leaves.
use Prim.Native.String.{String}
use text.Mathlib.Text.{◌==◌ as text_same}
use text.Mathlib.TextEquality.{eq_iff}
use serverless_harness.Base.{
  ◌≡◌, refl, sym, subst, Bool, true, false, ◌&&◌, Option, none, some, List, [], ◌∷◌, ◌++◌, any,
  arith, inl, inr, ◌⊎◌, ap, Bool-cases, Option-cases,
}
use serverless_harness.Harness.Select.{
  Load, order_by_load, DiscoverySource, pods, records, both, SelectError, no_transport,
  store_failed, Source, found, invalid, resolve_discovery_source, LeaseStore, SelectOptions,
  holder_of, Selection, no_sandbox, selected, failed, load_all, use_lease, answered, acquire_first,
  select_among, select_from, select_pool_sandbox,
}

module _ {Config Transport : Type 0} (store : LeaseStore) (config_of : String → Config)
    (single_pod : Option Config) (make_transport : String → String → Option Transport) where
  -- No lease is held afterwards that was not before.
  abbrev pub NoNew : store.World → store.World → Type 0
  NoNew before after = (p h : String) → store.held after p h ≡ true → store.held before p h ≡ true

  -- The lease of `pod` is held by `holder`, and no other was made.
  pub record OneNew (pod holder : String) (before after : store.World) : Type 0 where
    pub here : store.held after pod holder ≡ true
    pub others :
        (p h : String)
        → store.held after p h ≡ true
        → (text_same p pod && text_same h holder) ≡ false
        → store.held before p h ≡ true

  -- No lease but that of `pod` by `holder` was made.
  abbrev pub NoOther : String → String → store.World → store.World → Type 0
  NoOther pod holder before after =
      (p h : String)
      → store.held after p h ≡ true
      → (text_same p pod && text_same h holder) ≡ false
      → store.held before p h ≡ true

  abbrev pub LeasedAs : String → store.World → store.World → Option (String × String) → Type 0
  LeasedAs holder before after none = NoNew before after
  LeasedAs holder before after (some (pod, h)) = (h ≡ holder) × OneNew pod holder before after

  -- What a failure leaves: nothing; where a transport cannot be made, nothing, unless the release of its lease
  -- was itself rejected; where a command of the store is rejected, at most one lease, of its own holder.
  abbrev pub LeftBy : String → store.World → store.World → SelectError → Type 0
  LeftBy holder before after (no_transport name) =
      NoNew before after
      ⊎ (NoOther name holder before after
          × ((v : store.World) × (store.release name holder v ≡ (after, false))))
  LeftBy holder before after store_failed = (pod : String) × NoOther pod holder before after
  LeftBy holder before after _ = NoNew before after

  -- What a selection says of its lease: it holds the one that it names and has made no other; without
  -- one it has made none; and a failure leaves what `LeftBy` says.
  abbrev pub IsLeased : String → store.World → store.World × Selection Config Transport → Type 0
  IsLeased holder before (after, no_sandbox) = NoNew before after
  IsLeased holder before (after, failed e) = LeftBy holder before after e
  IsLeased holder before (after, selected s) = LeasedAs holder before after s.lease

  NoNew-trans : {a b c : store.World} → NoNew a b → NoNew b c → NoNew a c
  NoNew-trans f g p h held = f p h (g p h held)

  LeasedAs-trans :
      (holder : String) (a b c : store.World) (lease : Option (String × String))
      → NoNew a b
      → LeasedAs holder b c lease
      → LeasedAs holder a c lease
  LeasedAs-trans holder a b c none f l = NoNew-trans f l
  LeasedAs-trans holder a b c (some (pod, h)) f (e, one) =
      (e, record { here = one.here; others = λ p j held ne. f p j (one.others p j held ne) })

  NoNew-LeftBy :
      (holder : String) (a b : store.World) (e : SelectError) → NoNew a b → LeftBy holder a b e
  NoNew-LeftBy holder a b (SelectError.unknown_source s) f = f
  NoNew-LeftBy holder a b SelectError.records_need_flag f = f
  NoNew-LeftBy holder a b (SelectError.pool_empty s d) f = f
  NoNew-LeftBy holder a b (SelectError.pool_saturated s) f = f
  NoNew-LeftBy holder a b (no_transport name) f = inl f
  NoNew-LeftBy holder a b store_failed f = ("", λ p h held _. f p h held)

  LeftBy-trans :
      (holder : String) (a b c : store.World) (e : SelectError)
      → NoNew a b
      → LeftBy holder b c e
      → LeftBy holder a c e
  LeftBy-trans holder a b c (SelectError.unknown_source s) f l = NoNew-trans f l
  LeftBy-trans holder a b c SelectError.records_need_flag f l = NoNew-trans f l
  LeftBy-trans holder a b c (SelectError.pool_empty s d) f l = NoNew-trans f l
  LeftBy-trans holder a b c (SelectError.pool_saturated s) f l = NoNew-trans f l
  LeftBy-trans holder a b c (no_transport name) f (inl l) = inl (NoNew-trans f l)
  LeftBy-trans holder a b c (no_transport name) f (inr (others, rejected)) =
      inr (λ p h held ne. f p h (others p h held ne), rejected)
  LeftBy-trans holder a b c store_failed f (pod, others) =
      (pod, λ p h held ne. f p h (others p h held ne))

  IsLeased-trans :
      (holder : String) (a b : store.World) (r : store.World × Selection Config Transport)
      → NoNew a b
      → IsLeased holder b r
      → IsLeased holder a r
  IsLeased-trans holder a b (after, no_sandbox) f l = NoNew-trans f l
  IsLeased-trans holder a b (after, failed e) f l = LeftBy-trans holder a b after e f l
  IsLeased-trans holder a b (after, selected s) f l = LeasedAs-trans holder a b after s.lease f l

  load_all-NoNew :
      (names : List String) (w : store.World)
      → NoNew w (load_all store config_of single_pod make_transport names w).0
  unfolding load_all
  load_all-NoNew [] w p h held = held
  load_all-NoNew (name ∷ names) w p h held =
      store.load_makes_none name w p h (load_all-NoNew names (store.load name w).0 p h held)

  -- Where the transport cannot be made, the release takes back the one lease that was made.
  released :
      (pod holder : String) (before after : store.World)
      → OneNew pod holder before after
      → (store.release pod holder after).1 ≡ true
      → NoNew before (store.release pod holder after).0
  released pod holder before after one freed p h held =
      elim (Bool-cases (text_same p pod && text_same h holder)) [
        | inl it ↦
            let same_pod : p ≡ pod = (eq_iff p pod).0 (ground arith) in
            let same_holder : h ≡ holder = (eq_iff h holder).0 (ground arith) in
            absurd (cc (held, store.release_frees pod holder after freed, same_pod, same_holder))
        | inr another ↦ one.others p h (store.release_makes_none pod holder after p h held) another
      ]

  use_lease-IsLeased :
      (holder session name : String) (is_record : Bool) (before after : store.World)
      → OneNew name holder before after
      → IsLeased holder before
          (use_lease store config_of single_pod make_transport holder session name is_record after)
  unfolding use_lease
  use_lease-IsLeased holder session name false before after one = (refl, one)
  use_lease-IsLeased holder session name true before after one =
      elim (Option-cases (make_transport name session)) [
        | inl e ↦ elim (Bool-cases (store.release name holder after).1) [
          | inl freed ↦ rw e (inl (released name holder before after one freed))
          | inr rejected ↦ rw e (
              inr (
                λ p h held ne.
                    one.others p h (store.release_makes_none name holder after p h held) ne,
                (after, ap (λ b. ((store.release name holder after).0, b)) rejected),
              ))
        ]
        | inr (t, e) ↦ rw e (refl, one)
      ]

  acquire_first-IsLeased :
      (selector : String) (opts : SelectOptions) (holder session : String)
      (is_record : String → Bool) (names : List String) (w : store.World)
      → IsLeased holder w (
          acquire_first store config_of single_pod make_transport selector opts holder session
            is_record names w)
  unfolding acquire_first
  acquire_first-IsLeased selector opts holder session is_record [] w = λ p h held. held
  acquire_first-IsLeased selector opts holder session is_record (name ∷ names) w =
      let r = store.acquire name opts.pod_cap holder opts.ttl_ms w in
      let used =
        use_lease store config_of single_pod make_transport holder session name (is_record name)
          r.0 in
      let rest =
        acquire_first store config_of single_pod make_transport selector opts holder session
          is_record names r.0 in
      let by : Option Bool → Type 0 = λ o.
        IsLeased holder w (answered store config_of single_pod make_transport o r.0 used rest) in
      let others : NoOther name holder w r.0 =
        λ p h. store.acquire_makes_no_other name opts.pod_cap holder opts.ttl_ms w p h in
      elim (Option-cases r.1) [
        | inl lost ↦ subst by (sym lost) (name, others)
        | inr (true, granted) ↦ subst by (sym granted) (
            use_lease-IsLeased holder session name (is_record name) w r.0 (record {
              here = store.granted_makes_one name opts.pod_cap holder opts.ttl_ms w granted;
              others = others;
            }))
        | inr (false, refused) ↦ subst by (sym refused) (
            IsLeased-trans holder w r.0 rest
              (λ p h. store.refused_makes_none name opts.pod_cap holder opts.ttl_ms w p h refused)
              (acquire_first-IsLeased selector opts holder session is_record names r.0))
      ]

  select_among-IsLeased :
      (selector : String) (source : DiscoverySource) (opts : SelectOptions) (session : String)
      (listed recs : List String) (w : store.World)
      → IsLeased (holder_of opts.holder_id session) w (
          select_among store config_of single_pod make_transport selector source opts session listed
            recs w)
  unfolding select_among
  select_among-IsLeased selector source opts session listed recs w =
      go (listed ++ recs) (load_all store config_of single_pod make_transport (listed ++ recs) w)
        (load_all-NoNew (listed ++ recs) w)
    where
      go :
          (names : List String) (loaded : store.World × Option (List Load))
          → NoNew w loaded.0
          → IsLeased (holder_of opts.holder_id session) w (elim names [
            | [] ↦ (loaded.0, failed (SelectError.pool_empty selector source))
            | _ ∷ _ ↦ elim loaded.1 [
              | none ↦ (loaded.0, failed store_failed)
              | some ls ↦
                  acquire_first store config_of single_pod make_transport selector opts
                    (holder_of opts.holder_id session)
                    session
                    (λ name. any (λ id. text_same id name) recs)
                    (order_by_load ls)
                    loaded.0
            ]
          ])
      go [] loaded f = f
      go (n ∷ ns) (v, none) f = ("", λ p h held _. f p h held)
      go (n ∷ ns) (v, some ls) f = IsLeased-trans (holder_of opts.holder_id session) w v _ f (
          acquire_first-IsLeased selector opts (holder_of opts.holder_id session) session _
            (order_by_load ls) v)

  select_from-IsLeased :
      (selector : String) (source : Source) (opts : SelectOptions) (session : String)
      (listing mirrored : List String) (w : store.World)
      → IsLeased (holder_of opts.holder_id session) w (
          select_from store config_of single_pod make_transport selector source opts session listing
            mirrored w)
  unfolding select_from
  select_from-IsLeased selector (invalid e) opts session listing mirrored w =
      NoNew-LeftBy (holder_of opts.holder_id session) w w e (λ p h held. held)
  select_from-IsLeased selector (found pods) opts session listing mirrored w =
      select_among-IsLeased selector pods opts session listing [] w
  select_from-IsLeased selector (found records) opts session listing mirrored w =
      select_among-IsLeased selector records opts session [] _ w
  select_from-IsLeased selector (found both) opts session listing mirrored w =
      select_among-IsLeased selector both opts session listing _ w

  -- However a selection ends, it leaves the leases that it says: the lease of the sandbox it returns is
  -- held by its holder and is the only one that it made, and where it fails or returns a sandbox without a
  -- lease it has made none. A transport that cannot be made gives the lease back, unless that release is rejected,
  -- and then no other lease was made; where the store rejects the question for a load or a lease, at most one lease
  -- is new, and it is its own.
  pub select_pool_sandbox-IsLeased :
      (selector discovery : Option String) (opts : SelectOptions) (session : String)
      (listing mirrored : List String) (w : store.World)
      → IsLeased (holder_of opts.holder_id session) w (
          select_pool_sandbox store config_of single_pod make_transport selector discovery opts
            session listing mirrored w)
  unfolding select_pool_sandbox
  select_pool_sandbox-IsLeased none discovery opts session listing mirrored w =
      elim (Option-cases single_pod) [
        | inl e ↦ rw e (λ p h held. held)
        | inr (c, e) ↦ rw e (λ p h held. held)
      ]
  select_pool_sandbox-IsLeased (some selector) discovery opts session listing mirrored w =
      select_from-IsLeased selector (resolve_discovery_source discovery opts.remote_sandbox) opts
        session listing mirrored w
