-- ===== src/Relay/Failed.antt =====
-- What becomes of the execs of a worker that is gone.
use serverless_harness.Base.{
  ℕ, ◌≡◌, ◌≢◌, refl, subst, inl, inr, true, none, some, List, [], ◌∷◌, ◌++◌, nat_beq, nat_beq_iff,
  Text, text_key, nat_key, get, get-delete, In, arith, Bool-cases,
}
use serverless_harness.Relay.{ExecEvent, disconnected, Relay, push, sinks_of, fail_all, teardown}

-- The exec `x` has been told that the worker of its request is gone, and will not wait again.
pub record IsFailed (r : Relay) (q x : ℕ) : Type 0 where
  pub told : In (disconnected q) (r.execs x).queue
  pub done : (r.execs x).done ≡ true

In-append_left : (a : ExecEvent) (xs ys : List ExecEvent) → In a xs → In a (xs ++ ys)
In-append_left a [] ys m = absurd m
In-append_left a (x ∷ xs) ys (inl e) = inl e
In-append_left a (x ∷ xs) ys (inr m) = inr (In-append_left a xs ys m)

In-append_last : (a : ExecEvent) (xs : List ExecEvent) → In a (xs ++ a ∷ [])
In-append_last a [] = inl refl
In-append_last a (x ∷ xs) = inr (In-append_last a xs)

push-IsFailed :
    (q x k : ℕ) (ev : ExecEvent) (r : Relay) → IsFailed r q x → IsFailed (push k ev r) q x
unfolding push
push-IsFailed q x k ev r f = elim (Bool-cases (nat_beq x k)) [
  | inr other ↦ record { told = rw other (f.told); done = rw other (f.done) }
  | inl it ↦
      let e : x ≡ k = (nat_beq_iff x k).0 it in
      let told = subst (λ j. In (disconnected q) (r.execs j).queue) e f.told in
      let done = subst (λ j. (r.execs j).done ≡ true) e f.done in
      record {
        told = rw it (In-append_left (disconnected q) (r.execs k).queue (ev ∷ []) told);
        done = rw it (ground (arith, done));
      }
]

push-IsFailed_self : (q x : ℕ) (r : Relay) → IsFailed (push x (disconnected q) r) q x
unfolding push
push-IsFailed_self q x r =
    let it = (nat_beq_iff x x).1 refl in
    record {
      told = rw it (In-append_last (disconnected q) (r.execs x).queue);
      done = rw it (ground arith);
    }

fail_all-IsFailed_before :
    (q x : ℕ) (sinks : List (ℕ × ℕ)) (r : Relay) → IsFailed r q x → IsFailed (fail_all sinks r) q x
unfolding fail_all
fail_all-IsFailed_before q x [] r f = f
fail_all-IsFailed_before q x ((p, k) ∷ sinks) r f =
    fail_all-IsFailed_before q x sinks _ (push-IsFailed q x k (disconnected p) r f)

fail_all-IsFailed :
    (q x : ℕ) (sinks : List (ℕ × ℕ)) (r : Relay) → In (q, x) sinks → IsFailed (fail_all sinks r) q x
unfolding fail_all
fail_all-IsFailed q x [] r m = absurd m
fail_all-IsFailed q x ((p, k) ∷ sinks) r (inl e) =
    fail_all-IsFailed_before q x sinks _
      (subst (λ s. IsFailed (push s.1 (disconnected s.0) r) q x) e (push-IsFailed_self q x r))
fail_all-IsFailed q x ((p, k) ∷ sinks) r (inr m) =
    fail_all-IsFailed q x sinks (push k (disconnected p) r) m

-- When the stream of a worker ends, and its sandbox has an id that is not empty, each exec that is in
-- flight for the sandbox is told so and ends; the sandbox has no session afterwards.
pub teardown-IsFailed :
    (stream q x : ℕ) (id : Text) (r : Relay)
    → id ≢ []
    → r.bound stream ≡ some id
    → In (q, x) (sinks_of id r)
    → IsFailed (teardown stream r) q x × (get id (teardown stream r).sessions ≡ none)
unfolding teardown
teardown-IsFailed stream q x [] r named said m = absurd (named refl)
teardown-IsFailed stream q x (c ∷ cs) r named said m =
    let id = c ∷ cs in
    rw said (
      record {
        told = (fail_all-IsFailed q x (sinks_of id r) r m).told;
        done = (fail_all-IsFailed q x (sinks_of id r) r m).done;
      },
      ground
          (arith, get-delete id id (fail_all (sinks_of id r) r).sessions, text_key.same_iff id id),
    )
