-- ===== src/ControlPlane/Ownership/Written.antt =====
-- What `create` and `tombstone` write, as `get` reads it.
use Prim.Native.Nat.{◌<◌, ◌^◌}
use serverless_harness.Base.{
  ℕ, String, ◌≡◌, refl, sym, ap, ◌∙◌, Bool, true, false, Option, none, some, ◌==◌, get, string_key,
  good, if-true, if-false,
}
use serverless_harness.Base.Actions.{>>=-good}
use serverless_harness.Harness.Json.{Number, whole}
use serverless_harness.ControlPlane.Ownership.{
  Hash, Store, or_else, hash_set, set_score, CpRedis, session_key, SessionState, active, deleting,
  SessionRecord, record_fields, record_with, record_of, columns, filled, or_text, session_state_of,
  state_text, flag_text, is_flag, guard, owner_key, create, get_session,
}
use serverless_harness.ControlPlane.Ownership.Records.{
  RedisLaws, record_in, guarded-good, columns_equal, get_session-record_in,
}

session_state_of-state_text : (s : SessionState) → session_state_of (some (state_text s)) ≡ s
session_state_of-state_text active = refl
session_state_of-state_text deleting = refl

is_flag-flag_text : (b : Bool) → is_flag (some (flag_text b)) ≡ b
is_flag-flag_text true = refl
is_flag-flag_text false = refl

-- A selector that is there is not empty.
filled-or_text : (o : Option String) → filled o ≡ o → filled (some (or_text o "")) ≡ o
filled-or_text none h = refl
filled-or_text (some s) h = h

same : (s : String) → (s == s) ≡ true
same s = (string_key.same_iff s s).1 refl

score-own :
    (key member : String) (score : Option Number) (s : Store)
    → (set_score key member score s).score key member ≡ score
score-own key member score s = rw (same key, same member) refl

module _ (redis : CpRedis) (laws : RedisLaws redis) where
  -- A record that the hash of a session can hold: an owner, a time that a number holds exactly, and no empty selector.
  abbrev pub IsStorable : SessionRecord → Type 0
  IsStorable rec =
      ((rec.owner == "") ≡ false)
      × ((n : ℕ) × (n < 2 ^ 53) × (rec.created_at ≡ whole n))
      × (filled rec.pool_selector ≡ rec.pool_selector)

  field-own :
      (key : String) (values : Hash) (s : Store) (f v : String)
      → get f values ≡ some v
      → (hash_set key values s).field key f ≡ some v
  field-own key values s f v h =
      if-true (key == key) _ _ (same key) ∙ ap (λ o. or_else o (s.field key f)) h

  read_fields :
      (rec : SessionRecord)
      → IsStorable rec
      → record_of redis.read_number rec.session_id
          (columns (λ f. get f (record_fields redis.print_number rec)))
        ≡ some rec
  read_fields rec (owned, (n, small, at_n), selector) =
      let time : redis.read_number (redis.print_number rec.created_at) ≡ rec.created_at =
        ap (λ m. redis.read_number (redis.print_number m)) at_n
        ∙ laws.print_read n small
        ∙ sym at_n in
      let rest : record_with redis.read_number rec.session_id
            (columns (λ f. get f (record_fields redis.print_number rec))) (some rec.owner)
          ≡ some rec =
        λ i. some (record {
          session_id = rec.session_id;
          owner = rec.owner;
          tenant = rec.tenant;
          created_at = time i;
          state = session_state_of-state_text rec.state i;
          pool_selector = (filled-or_text rec.pool_selector selector) i;
          credential_name = rec.credential_name;
          tombstone = is_flag-flag_text rec.tombstone i;
        }) in
      ap
        (record_with redis.read_number rec.session_id
          (columns (λ f. get f (record_fields redis.print_number rec))))
        (if-false _ _ _ owned)
      ∙ rest

  written :
      (rec : SessionRecord) (s : Store)
      → columns (
          (hash_set (session_key rec.session_id) (record_fields redis.print_number rec) s).field
            (session_key rec.session_id))
        ≡ columns (λ f. get f (record_fields redis.print_number rec))
  written rec s =
      let key = session_key rec.session_id in
      let values = record_fields redis.print_number rec in
      let own : (f v : String)
          → get f values ≡ some v
          → (hash_set key values s).field key f ≡ some v =
        λ f v h. field-own key values s f v h in
      columns_equal ((hash_set key values s).field key) (λ f. get f values) (own "owner" _ refl)
        (own "tenant" _ refl) (own "createdAt" _ refl) (own "state" _ refl)
        (own "poolSelector" _ refl) (own "credentialName" _ refl) (own "tombstone" _ refl)

  -- A session that was created is read back as it was, and stands in the index of its owner at its time.
  pub create-get_session :
      (rec : SessionRecord) (w v x : redis.World) (u : Unit {0}) (r : Option SessionRecord)
      → IsStorable rec
      → create redis rec w ≡ (v, good u)
      → get_session redis rec.session_id v ≡ (x, good r)
      → (r ≡ some rec)
        × ((redis.view v).score (owner_key redis rec.owner) rec.session_id ≡ some rec.created_at)
  unfolding create guard
  create-get_session rec w v x u r storable made found =
      let (w1, _, first, second) = >>=-good _ _ w v u made in
      let hash =
        guarded-good redis.view _ _ _ w1 tt
          (laws.h_set_writes (session_key rec.session_id) (record_fields redis.print_number rec) w)
          first in
      let index =
        guarded-good redis.view _ _ _ v u
          (laws.z_add_writes (owner_key redis rec.owner) rec.created_at rec.session_id w1) second in
      let (is, _) = get_session-record_in redis laws rec.session_id v x r found in
      (
        is
            ∙ ap (λ s. record_in redis.read_number s rec.session_id)
                (index ∙ ap (set_score _ _ _) hash)
            ∙ ap (record_of redis.read_number rec.session_id) (written rec (redis.view w))
            ∙ read_fields rec storable,
        ap (λ s. s.score (owner_key redis rec.owner) rec.session_id) index
            ∙ score-own (owner_key redis rec.owner) rec.session_id (some rec.created_at)
                (redis.view w1),
      )
