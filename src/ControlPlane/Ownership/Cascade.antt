-- ===== src/ControlPlane/Ownership/Cascade.antt =====
-- How far `cascadeDelete` has come, wherever it stops.
use serverless_harness.Base.{
  ℕ, zero, suc, ◌≡◌, refl, sym, ap, ◌∙◌, inl, inr, Option, none, List, [], ◌∷◌, ◌++◌, Outcome, good,
  subst, bad_is_not_good,
}
use serverless_harness.Base.Actions.{Action, ◌>>◌, >>=-cases}
use serverless_harness.ControlPlane.Errors.{Thrown}
use serverless_harness.ControlPlane.Ownership.{
  Store, hash_set, delete_keys, set_score, CpRedis, session_key, runtime_key, data_keys,
  SessionRecord, guard, guarded, tombstone_fields, owner_key, tombstone, cascade_delete,
}
use serverless_harness.ControlPlane.Ownership.Records.{
  RedisLaws, Wrote, guarded-good, guarded-Wrote,
}

-- Effects on what can be read back, and the first `n` of them in order.
abbrev pub first_effects : ℕ → List (Store → Store) → Store → Store
first_effects zero es s = s
first_effects (suc n) [] s = s
first_effects (suc n) (e ∷ es) s = first_effects n es (e s)

one_effect : (es : List (Store → Store)) (s : Store) → s ≡ first_effects 0 es s
one_effect es s = refl

abbrev pub all_effects : List (Store → Store) → Store → Store
all_effects [] s = s
all_effects (e ∷ es) s = all_effects es (e s)

module _ (redis : CpRedis) (laws : RedisLaws redis) where
  -- The run did the first of the effects in order, and all of them if it returned.
  abbrev pub Progress :
      List (Store → Store) → redis.World → redis.World × Outcome Thrown (Unit {0}) → Type 0
  Progress es w r =
      ((n : ℕ) × (redis.view r.0 ≡ first_effects n es (redis.view w)))
      × ((u : Unit {0}) → r.1 ≡ good u → redis.view r.0 ≡ all_effects es (redis.view w))

  abbrev IsWrite : (redis.World → redis.World × Option (Unit {0})) → (Store → Store) → Type 0
  IsWrite command effect =
      (w : redis.World)
      → Wrote (redis.view w) (effect (redis.view w)) (redis.view (command w).0) (command w).1

  guard-Progress :
      (command : redis.World → redis.World × Option (Unit {0})) (effect : Store → Store)
      → IsWrite command effect
      → (w : redis.World) → Progress (effect ∷ []) w (guard command w)
  unfolding guard
  guard-Progress command effect writes w =
      let upto : (n : ℕ) × (redis.view (guarded (command w)).0
            ≡ first_effects n (effect ∷ []) (redis.view w)) =
        elim (guarded-Wrote redis.view _ _ (command w) (writes w)) [
          | inl nothing ↦ (0, nothing)
          | inr all ↦ (1, all)
        ] in
      (
        upto,
        λ u q.
            guarded-good redis.view _ _ (command w) (guarded (command w)).0 u (writes w)
              (λ i. ((guarded (command w)).0, q i)),
      )

  -- After a write that returns, the rest goes on from its effect.
  >>-Progress :
      (command : redis.World → redis.World × Option (Unit {0})) (effect : Store → Store)
      (es : List (Store → Store)) (rest : Action Thrown redis.World (Unit {0}))
      → IsWrite command effect
      → ((v : redis.World) → Progress es v (rest v))
      → (w : redis.World) → Progress (effect ∷ es) w ((guard command >> rest) w)
  unfolding guard
  >>-Progress command effect es rest writes more w =
      elim (>>=-cases (guard command) (λ _. rest) w) [
        | inl (v, u, first, run) ↦
            let wrote : redis.view v ≡ effect (redis.view w) =
              guarded-good redis.view (redis.view w) (effect (redis.view w)) (command w) v u
                (writes w) first in
            let ((n, upto), all) = more v in
            let on : Progress (effect ∷ es) w (rest v) = (
              (suc n, upto ∙ ap (first_effects n es) wrote),
              λ t q. all t q ∙ ap (all_effects es) wrote,
            ) in
            subst (Progress (effect ∷ es) w) (sym run) on
        | inr (v, e, first, run) ↦
            let here : redis.view (guarded (command w)).0 ≡ redis.view v =
              ap (λ p. redis.view p.0) first in
            let upto : (n : ℕ) × (redis.view v ≡ first_effects n (effect ∷ es) (redis.view w)) =
              elim (guarded-Wrote redis.view _ _ (command w) (writes w)) [
                | inl nothing ↦ (0, sym here ∙ nothing)
                | inr done ↦ (1, sym here ∙ done ∙ one_effect es (effect (redis.view w)))
              ] in
            subst (Progress (effect ∷ es) w) (sym run) (upto, λ t q. absurd (bad_is_not_good e t q))
      ]

  -- Tombstone, data, index, record.
  abbrev pub cascade_effects : SessionRecord → List (Store → Store)
  cascade_effects rec =
      hash_set (session_key rec.session_id) tombstone_fields
      ∷ delete_keys (data_keys rec.session_id ++ runtime_key rec.session_id ∷ [])
      ∷ set_score (owner_key redis rec.owner) rec.session_id none
      ∷ delete_keys (session_key rec.session_id ∷ [])
      ∷ []

  -- Wherever a cascade stops, and whatever Redis answers, what was done is a beginning of tombstone, data,
  -- index, record, in this order; and where it returns, all four were done.
  pub cascade_delete-Progress :
      (rec : SessionRecord) (w : redis.World)
      → Progress (cascade_effects rec) w (cascade_delete redis rec w)
  unfolding cascade_delete tombstone
  cascade_delete-Progress rec =
      >>-Progress _ _ _ _ (λ w. laws.h_set_writes (session_key rec.session_id) tombstone_fields w)
        (>>-Progress _ _ _ _
          (λ w. laws.del_writes (data_keys rec.session_id ++ runtime_key rec.session_id ∷ []) w)
          (>>-Progress _ _ _ _ (λ w. laws.z_rem_writes (owner_key redis rec.owner) rec.session_id w)
            (guard-Progress _ _ (λ w. laws.del_writes (session_key rec.session_id ∷ []) w))))
