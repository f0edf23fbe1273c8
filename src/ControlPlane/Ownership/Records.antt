-- ===== src/ControlPlane/Ownership/Records.antt =====
-- What is read back from the index after each of its writes.
use Prim.Native.Nat.{◌<◌, ◌^◌}
use serverless_harness.Base.{
  ℕ, String, ◌≡◌, refl, sym, ap, ◌∙◌, ◌⊎◌, inl, inr, false, Option, none, some, List, [], ◌∷◌, ◌==◌,
  any, get, string_key, good, Bool-cases, if-true, if-false, arith, bad_is_not_good, good_inj,
}
use serverless_harness.Base.Actions.{>>=-good}
use serverless_harness.Harness.Json.{Number, whole}
use serverless_harness.ControlPlane.Errors.{Thrown}
use serverless_harness.ControlPlane.Ownership.{
  Hash, Store, or_else, hash_set, delete_keys, set_score, CpRedis, session_key, runtime_key,
  runtime_fields, SessionRecord, columns, record_of, put_field, pick_fields, guard, guarded,
  get_session, put_allowed, put_runtime, unavailable,
}

-- A write that was answered has its effect; one that was not has it or has none.
abbrev pub Wrote : Store → Store → Store → Option (Unit {0}) → Type 0
Wrote before after now none = (now ≡ before) ⊎ (now ≡ after)
Wrote before after now (some _) = now ≡ after

-- What the documentation of the commands says of what can be read back.
pub record RedisLaws (redis : CpRedis) : Type 0 where
  pub h_set_writes :
      (k : String) (h : Hash) (w : redis.World)
      → Wrote
          (redis.view w)
          (hash_set k h (redis.view w))
          (redis.view (redis.h_set k h w).0)
          (redis.h_set k h w).1
  pub del_writes :
      (ks : List String) (w : redis.World)
      → Wrote
          (redis.view w)
          (delete_keys ks (redis.view w))
          (redis.view (redis.del ks w).0)
          (redis.del ks w).1
  pub z_add_writes :
      (k : String) (n : Number) (m : String) (w : redis.World)
      → Wrote
          (redis.view w)
          (set_score k m (some n) (redis.view w))
          (redis.view (redis.z_add k n m w).0)
          (redis.z_add k n m w).1
  pub z_rem_writes :
      (k m : String) (w : redis.World)
      → Wrote
          (redis.view w)
          (set_score k m none (redis.view w))
          (redis.view (redis.z_rem k m w).0)
          (redis.z_rem k m w).1
  pub h_get_all_reads :
      (k : String) (w : redis.World) (h : Hash)
      → (redis.h_get_all k w).1 ≡ some h
      → (f : String) → get f h ≡ (redis.view w).field k f
  pub h_get_all_keeps :
      (k : String) (w : redis.World) → redis.view (redis.h_get_all k w).0 ≡ redis.view w
  -- `Number(String(n)) === n` up to 2^53.
  pub print_read : (n : ℕ) → n < 2 ^ 53 → redis.read_number (redis.print_number (whole n)) ≡ whole n

-- The record of a session, in what can be read back.
abbrev pub record_in : (String → Number) → Store → String → Option SessionRecord
record_in read s sid = record_of read sid (columns (s.field (session_key sid)))

pub columns_equal :
    (f g : String → Option String)
    → f "owner" ≡ g "owner"
    → f "tenant" ≡ g "tenant"
    → f "createdAt" ≡ g "createdAt"
    → f "state" ≡ g "state"
    → f "poolSelector" ≡ g "poolSelector"
    → f "credentialName" ≡ g "credentialName"
    → f "tombstone" ≡ g "tombstone"
    → columns f ≡ columns g
columns_equal f g o t c s p n m i = record {
  owner_field = o i;
  tenant_field = t i;
  created_at_field = c i;
  state_field = s i;
  pool_selector_field = p i;
  credential_name_field = n i;
  tombstone_field = m i;
}

-- A guarded write.
pub guarded-Wrote :
    {W : Type 0} (view : W → Store) (before after : Store) (r : W × Option (Unit {0}))
    → Wrote before after (view r.0) r.1
    → (view (guarded r).0 ≡ before) ⊎ (view (guarded r).0 ≡ after)
guarded-Wrote view before after (w, none) h = h
guarded-Wrote view before after (w, some u) h = inr h

pub guarded-good :
    {W : Type 0} (view : W → Store) (before after : Store) (r : W × Option (Unit {0})) (v : W)
    (u : Unit {0})
    → Wrote before after (view r.0) r.1
    → guarded r ≡ (v, good u)
    → view v ≡ after
guarded-good view before after (w, none) v u h e =
    absurd (bad_is_not_good unavailable u (ap (λ p. p.1) e))
guarded-good view before after (w, some u) v t h e = sym (ap (λ p. view p.0) e) ∙ h

-- A guarded read that returns.
pub guarded-read :
    {W A : Type 0} (r : W × Option A) (v : W) (a : A)
    → guarded r ≡ (v, good a)
    → (r.1 ≡ some a) × (r.0 ≡ v)
guarded-read (w, none) v a e = absurd (bad_is_not_good unavailable a (ap (λ p. p.1) e))
guarded-read (w, some b) v a e = (ap some (good_inj Thrown b a (ap (λ p. p.1) e)), ap (λ p. p.0) e)

get-put_field :
    (f g : String) (o : Option String) (rest : Hash)
    → (g == f) ≡ false
    → get f (put_field g o rest) ≡ get f rest
get-put_field f g none rest h = refl
get-put_field f g (some v) rest h = if-false (g == f) (some v) (get f rest) h

-- A field off the list is not picked.
get-pick_fields :
    (f : String) (fs : List String) (fields : Hash)
    → any (λ g. g == f) fs ≡ false
    → get f (pick_fields fs fields) ≡ none
get-pick_fields f [] fields h = refl
get-pick_fields f (g ∷ fs) fields h =
    get-put_field f g (get g fields) (pick_fields fs fields) (ground arith)
    ∙ get-pick_fields f fs fields (ground arith)

-- The allow-list has none of the fields of a record.
pick_fields-columns :
    (fields : Hash) → columns (λ f. get f (pick_fields runtime_fields fields)) ≡ columns (λ _. none)
pick_fields-columns fields =
    let off : (f : String)
        → any (λ g. g == f) runtime_fields ≡ false
        → get f (pick_fields runtime_fields fields) ≡ none =
      λ f h. get-pick_fields f runtime_fields fields h in
    columns_equal (λ f. get f (pick_fields runtime_fields fields)) (λ _. none) (off "owner" refl)
      (off "tenant" refl) (off "createdAt" refl) (off "state" refl) (off "poolSelector" refl)
      (off "credentialName" refl) (off "tombstone" refl)

module _ (redis : CpRedis) (laws : RedisLaws redis) where
  -- What `get` returns is the record that can be read back, and it changes nothing.
  pub get_session-record_in :
      (sid : String) (w v : redis.World) (r : Option SessionRecord)
      → get_session redis sid w ≡ (v, good r)
      → (r ≡ record_in redis.read_number (redis.view w) sid) × (redis.view v ≡ redis.view w)
  unfolding get_session
  get_session-record_in sid w v r h =
      let (w1, hash, command, rest) = >>=-good _ _ w v r h in
      let (answer, kept) = guarded-read (redis.h_get_all (session_key sid) w) w1 hash command in
      let read = laws.h_get_all_reads (session_key sid) w hash answer in
      let same =
        columns_equal (λ f. get f hash) ((redis.view w).field (session_key sid)) (read _) (read _)
          (read _) (read _) (read _) (read _) (read _) in
      (
        sym (good_inj Thrown _ r (ap (λ p. p.1) rest)) ∙ ap (record_of redis.read_number sid) same,
        ap redis.view (sym (ap (λ p. p.0) rest) ∙ sym kept)
            ∙ laws.h_get_all_keeps (session_key sid) w,
      )

  -- A write to one hash leaves a field of the others, and the fields that it does not name.
  field-hash_set :
      (key : String) (values : Hash) (s : Store) (k f : String)
      → get f values ≡ none
      → (hash_set key values s).field k f ≡ s.field k f
  field-hash_set key values s k f h = elim (Bool-cases (k == key)) [
    | inl here ↦ if-true (k == key) _ _ here ∙ ap (λ o. or_else o (s.field k f)) h
    | inr there ↦ if-false (k == key) _ _ there
  ]

  record_in-hash_set :
      (key : String) (values : Hash) (s : Store) (sid : String)
      → columns (λ f. get f values) ≡ columns (λ _. none)
      → record_in redis.read_number (hash_set key values s) sid ≡ record_in redis.read_number s sid
  record_in-hash_set key values s sid h =
      let at : (f : String)
          → get f values ≡ none
          → (hash_set key values s).field (session_key sid) f ≡ s.field (session_key sid) f =
        λ f e. field-hash_set key values s (session_key sid) f e in
      let same : columns ((hash_set key values s).field (session_key sid))
          ≡ columns (s.field (session_key sid)) =
        columns_equal ((hash_set key values s).field (session_key sid)) (s.field (session_key sid))
          (at "owner" (ap (λ c. c.owner_field) h)) (at "tenant" (ap (λ c. c.tenant_field) h))
          (at "createdAt" (ap (λ c. c.created_at_field) h)) (at "state" (ap (λ c. c.state_field) h))
          (at "poolSelector" (ap (λ c. c.pool_selector_field) h))
          (at "credentialName" (ap (λ c. c.credential_name_field) h))
          (at "tombstone" (ap (λ c. c.tombstone_field) h)) in
      ap (record_of redis.read_number sid) same

  put_allowed-view :
      (sid : String) (allowed : Hash) (w : redis.World)
      → (redis.view (put_allowed redis sid allowed w).0 ≡ redis.view w)
        ⊎ (redis.view (put_allowed redis sid allowed w).0
            ≡ hash_set (runtime_key sid) allowed (redis.view w))
  unfolding guard
  put_allowed-view sid [] w = inl refl
  put_allowed-view sid (field ∷ fields) w =
      guarded-Wrote redis.view _ _ (redis.h_set (runtime_key sid) (field ∷ fields) w)
        (laws.h_set_writes (runtime_key sid) (field ∷ fields) w)

  put_runtime-view :
      (sid : String) (fields : Hash) (w : redis.World)
      → (redis.view (put_runtime redis sid fields w).0 ≡ redis.view w)
        ⊎ (redis.view (put_runtime redis sid fields w).0
            ≡ hash_set (runtime_key sid) (pick_fields runtime_fields fields) (redis.view w))
  unfolding put_runtime guard
  put_runtime-view sid fields w = put_allowed-view sid (pick_fields runtime_fields fields) w

  -- What a harness reports of a turn never changes what `get` returns of any session, its owner above all:
  -- whatever fields are sent, and whether or not Redis answers.
  pub put_runtime-get_session :
      (sid peer : String) (fields : Hash) (w w1 w2 : redis.World)
      (before after : Option SessionRecord)
      → get_session redis peer w ≡ (w1, good before)
      → get_session redis peer (put_runtime redis sid fields w1).0 ≡ (w2, good after)
      → after ≡ before
  put_runtime-get_session sid peer fields w w1 w2 before after first second =
      let (was, kept) = get_session-record_in peer w w1 before first in
      let (now, _) =
        get_session-record_in peer (put_runtime redis sid fields w1).0 w2 after second in
      let before_view : before ≡ record_in redis.read_number (redis.view w1) peer =
        was ∙ ap (λ s. record_in redis.read_number s peer) (sym kept) in
      elim (put_runtime-view sid fields w1) [
        | inl same ↦ now ∙ ap (λ s. record_in redis.read_number s peer) same ∙ sym before_view
        | inr wrote ↦
            now
            ∙ ap (λ s. record_in redis.read_number s peer) wrote
            ∙ record_in-hash_set (runtime_key sid) (pick_fields runtime_fields fields)
                (redis.view w1) peer (pick_fields-columns fields)
            ∙ sym before_view
      ]
