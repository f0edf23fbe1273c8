-- ===== src/Harness/Select/First.antt =====
-- Which candidate gets the lease.
use Prim.Native.String.{String}
use text.Mathlib.Text.{◌==◌ as text_same}
use serverless_harness.Base.{
  ℕ, ◌≡◌, ◌≢◌, refl, sym, ◌∙◌, ap, subst, ◌↔◌, inl, inr, Bool, true, false, Option, none, some,
  List, [], ◌∷◌, ◌++◌, map, any, In, Option-cases, some_inj,
}
use serverless_harness.Harness.Select.{
  Load, numbered, order_by_load, DiscoverySource, SelectError, pool_saturated, no_transport,
  store_failed, LeaseStore, SelectOptions, holder_of, Selection, no_sandbox, selected, failed,
  with_load, load_all, use_lease, answered, acquire_first, select_among,
}
use serverless_harness.Harness.Select.Order.{Row, Ascending, order_by_load_sorts}

module _ {Config Transport : Type 0} (store : LeaseStore) (config_of : String → Config)
    (single_pod : Option Config) (make_transport : String → String → Option Transport)
    (opts : SelectOptions) (holder : String) where
  abbrev pub asked : Row → store.World → store.World × Option Bool
  asked r w = store.acquire r.0.pod opts.pod_cap holder opts.ttl_ms w

  -- Each of the rows was asked for a lease, in order, and gave none.
  abbrev pub Refused : List Row → store.World → store.World → Type 0
  Refused [] w v = w ≡ v
  Refused (r ∷ rows) w v = (u : store.World) × (asked r w ≡ (u, some false)) × Refused rows u v

  -- All before some row were refused, and then that row was asked.
  abbrev pub IsFirst : List Row → store.World → (Row → store.World × Option Bool → Type 0) → Type 0
  IsFirst rows w P =
      (before : List Row) × (row : Row) × (rest : List Row) × (v : store.World) × (rows
        ≡ before ++ row ∷ rest)
      × Refused before w v
      × P row (asked row v)

  -- The row gave the lease; it is of the sandbox that was selected, or of the one without a transport.
  abbrev pub Gave : Option (String × String) → Row → store.World × Option Bool → Type 0
  Gave lease row r = (r.1 ≡ some true) × (lease ≡ some (row.0.pod, holder))

  abbrev pub GaveName : String → Row → store.World × Option Bool → Type 0
  GaveName name row r = (r.1 ≡ some true) × (row.0.pod ≡ name)

  abbrev pub Failed : store.World → Row → store.World × Option Bool → Type 0
  Failed after row r = r ≡ (after, none)

  -- How a selection among the rows may end.
  abbrev pub IsTried : List Row → store.World → store.World × Selection Config Transport → Type 0
  IsTried rows w (after, selected s) = IsFirst rows w (Gave s.lease)
  IsTried rows w (after, failed (pool_saturated selector)) = Refused rows w after
  IsTried rows w (after, failed (no_transport name)) = IsFirst rows w (GaveName name)
  IsTried rows w (after, failed store_failed) = IsFirst rows w (Failed after)
  IsTried rows w _ = ⊥

  abbrev IsOutcome : Type 0
  IsOutcome = store.World × Selection Config Transport

  later-IsFirst :
      (P : Row → store.World × Option Bool → Type 0) (r : Row) (rows : List Row) (w u : store.World)
      → asked r w ≡ (u, some false)
      → IsFirst rows u P
      → IsFirst (r ∷ rows) w P
  later-IsFirst P r rows w u said (before, row, rest, v, split, refused, last) =
      (r ∷ before, row, rest, v, ap (λ l. r ∷ l) split, (u, said, refused), last)

  later-IsTried :
      (r : Row) (rows : List Row) (w u : store.World) (o : IsOutcome)
      → asked r w ≡ (u, some false)
      → IsTried rows u o
      → IsTried (r ∷ rows) w o
  later-IsTried r rows w u (after, no_sandbox) said t = t
  later-IsTried r rows w u (after, selected s) said t =
      later-IsFirst (Gave s.lease) r rows w u said t
  later-IsTried r rows w u (after, failed (SelectError.unknown_source s)) said t = t
  later-IsTried r rows w u (after, failed SelectError.records_need_flag) said t = t
  later-IsTried r rows w u (after, failed (SelectError.pool_empty s d)) said t = t
  later-IsTried r rows w u (after, failed (pool_saturated s)) said t = (u, said, t)
  later-IsTried r rows w u (after, failed (no_transport s)) said t =
      later-IsFirst (GaveName s) r rows w u said t
  later-IsTried r rows w u (after, failed store_failed) said t =
      later-IsFirst (Failed after) r rows w u said t

  use_lease-IsTried :
      (session : String) (is_record : Bool) (r : Row) (rows : List Row) (w : store.World)
      → (asked r w).1 ≡ some true
      → IsTried (r ∷ rows) w (
          use_lease store config_of single_pod make_transport holder session r.0.pod is_record
            (asked r w).0)
  unfolding use_lease
  use_lease-IsTried session false r rows w said = ([], r, rows, w, refl, refl, (said, refl))
  use_lease-IsTried session true r rows w said =
      elim (Option-cases (make_transport r.0.pod session)) [
        | inl e ↦ rw e ([], r, rows, w, refl, refl, (said, refl))
        | inr (t, e) ↦ rw e ([], r, rows, w, refl, refl, (said, refl))
      ]

  acquire_first-IsTried :
      (selector session : String) (is_record : String → Bool) (rows : List Row) (w : store.World)
      → IsTried rows w (
          acquire_first store config_of single_pod make_transport selector opts holder session
            is_record
            (map (λ r. r.0.pod) rows)
            w)
  unfolding acquire_first
  acquire_first-IsTried selector session is_record [] w = refl
  acquire_first-IsTried selector session is_record (r ∷ rows) w =
      let got = asked r w in
      let used =
        use_lease store config_of single_pod make_transport holder session r.0.pod
          (is_record r.0.pod) got.0 in
      let rest =
        acquire_first store config_of single_pod make_transport selector opts holder session
          is_record (map (λ q. q.0.pod) rows) got.0 in
      let by : Option Bool → Type 0 = λ o.
        IsTried (r ∷ rows) w
          (answered store config_of single_pod make_transport o got.0 used rest) in
      elim (Option-cases got.1) [
        | inl lost ↦ subst by (sym lost) ([], r, rows, w, refl, refl, ap (λ o. (got.0, o)) lost)
        | inr (true, said) ↦
            subst by (sym said) (use_lease-IsTried session (is_record r.0.pod) r rows w said)
        | inr (false, said) ↦ subst by (sym said) (
            later-IsTried r rows w got.0 rest (ap (λ o. (got.0, o)) said)
              (acquire_first-IsTried selector session is_record rows got.0))
      ]

module _ {Config Transport : Type 0} (store : LeaseStore) (config_of : String → Config)
    (single_pod : Option Config) (make_transport : String → String → Option Transport) where
  with_load-pods :
      (name : String) (active : Option ℕ) (loads : Option (List Load)) (ls : List Load)
      → with_load store config_of single_pod make_transport name active loads ≡ some ls
      → (l : Load) × (rest : List Load) × (loads ≡ some rest) × (ls ≡ l ∷ rest) × (l.pod ≡ name)
  with_load-pods name none none ls h = absurd (cc h)
  with_load-pods name none (some rest) ls h = absurd (cc h)
  with_load-pods name (some a) none ls h = absurd (cc h)
  with_load-pods name (some a) (some rest) ls h =
      (record { pod = name; active = a }, rest, refl, sym (some_inj _ ls h), refl)

  -- The loads are those of the candidates, in their order.
  load_all-pods :
      (names : List String) (w : store.World) (ls : List Load)
      → (load_all store config_of single_pod make_transport names w).1 ≡ some ls
      → map (λ l. l.pod) ls ≡ names
  unfolding load_all
  load_all-pods [] w ls h = ap (map (λ l. l.pod)) (sym (some_inj [] ls h))
  load_all-pods (name ∷ names) w ls h =
      let (l, rest, there, is, at) =
        with_load-pods name (store.load name w).1
          (load_all store config_of single_pod make_transport names (store.load name w).0).1 ls h in
      let more = load_all-pods names (store.load name w).0 rest there in
      ap (map (λ q. q.pod)) is ∙ ap (λ n. n ∷ map (λ q. q.pod) rest) at ∙ ap (λ n. name ∷ n) more

  -- Once the loads of the candidates are known, there is an order of them, by their loads and those with as many
  -- leases as they were listed, in which they are asked for a lease until one gives it: where a sandbox is
  -- selected, each before it was asked and refused, and it granted the lease; where the pool is saturated, each
  -- of them was asked and refused; where a transport cannot be made, it is that of the first to grant the lease;
  -- and where the store fails, it failed at the first that did not refuse. A selection ends in no other way.
  pub select_among-IsTried :
      (selector : String) (source : DiscoverySource) (opts : SelectOptions) (session : String)
      (listed recs : List String) (w u : store.World) (loads : List Load)
      → listed ++ recs ≢ []
      → load_all store config_of single_pod make_transport (listed ++ recs) w ≡ (u, some loads)
      → (map (λ l. l.pod) loads ≡ listed ++ recs)
        × (rows : List Row) × Ascending rows
        × ((x : Row) → In x rows ↔ In x (numbered 0 loads))
        × IsTried store config_of single_pod make_transport opts
            (holder_of opts.holder_id session)
            rows
            u
            (select_among store config_of single_pod make_transport selector source opts session
              listed recs w)
  unfolding select_among
  select_among-IsTried selector source opts session listed recs w u loads some_one loaded =
      let (rows, is, ascending, same) = order_by_load_sorts loads in
      (
        load_all-pods (listed ++ recs) w loads (ap (λ p. p.1) loaded),
        rows,
        ascending,
        same,
        go (listed ++ recs) some_one _ loaded rows is,
      )
    where
      go :
          (names : List String)
          → names ≢ []
          → (r : store.World × Option (List Load)) → r ≡ (u, some loads)
          → (rows : List Row) → order_by_load loads ≡ map (λ q. q.0.pod) rows
          → IsTried store config_of single_pod make_transport opts
              (holder_of opts.holder_id session)
              rows
              u
              (elim names [
                | [] ↦ (r.0, failed (SelectError.pool_empty selector source))
                | _ ∷ _ ↦ elim r.1 [
                  | none ↦ (r.0, failed store_failed)
                  | some ls ↦
                      acquire_first store config_of single_pod make_transport selector opts
                        (holder_of opts.holder_id session)
                        session
                        (λ name. any (λ id. text_same id name) recs)
                        (order_by_load ls)
                        r.0
                ]
              ])
      go [] ne r e rows is = absurd (ne refl)
      go (n ∷ ns) ne r e rows is =
          rw
            (
              ap (λ (p : store.World × Option (List Load)). p.1) e,
              ap (λ (p : store.World × Option (List Load)). p.0) e,
              is,
            )
            (acquire_first-IsTried store config_of single_pod make_transport opts
              (holder_of opts.holder_id session) selector session
              (λ name. any (λ id. text_same id name) recs) rows u)
