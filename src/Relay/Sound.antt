-- ===== src/Relay/Sound.antt =====
-- Which streams are parked.
use mathlib.Core.Path.{subst₂}
use serverless_harness.Base.{
  ℕ, ◌<◌, ◌≡◌, ◌≢◌, refl, sym, ◌∙◌, ap, subst, inl, inr, Bool, true, false, Option, none, some,
  List, [], ◌∷◌, nat_beq, nat_beq_iff, Text, ◌==◌, text_key, nat_key, get, delete, get-set,
  get-delete, arith, Bool-cases, Option-cases,
}
use serverless_harness.Relay.{
  WorkerFrame, hello, chunk, end, error, blank, Effect, Relay, emit, bearer, sinks_of, drop_session,
  truthy_id, teardown, route_exec, take_event, route_abort, Event, frame, closed, routes, finishes,
  takes, aborts, park, on_hello, on_frame, on_data, step, run,
}
use serverless_harness.Relay.Sessions.{
  Kept, dispatch-Kept, fail_all-Kept, start_at-Kept, finish_exec-Kept, abort_at-Kept,
}

emit-Kept : (e : Effect) (r : Relay) → Kept r (emit e r)
emit-Kept e r = record { sessions = refl; streams = λ ref. refl; next = refl; bound = refl }

truthy_id-named : (id : Text) → id ≢ [] → (o : Option Text) → o ≡ some id → truthy_id o ≢ none
truthy_id-named [] named o h = absurd (named refl)
truthy_id-named (c ∷ cs) named o h = rw h (λ e. cc)

module _ (authorization : ℕ → Option Text) (validate_token : Option Text → Text → Bool) where
  -- The session at `ref` is of a stream with a token that is valid for `id`; and one that said it is `id`, where
  -- that is not empty.
  pub record IsLive (r : Relay) (id : Text) (ref : ℕ) : Type 0 where
    pub known : ref < r.next
    pub said : id ≢ [] → r.bound (r.cells ref).stream ≡ some id
    pub allowed : validate_token (bearer (authorization (r.cells ref).stream)) id ≡ true

  abbrev pub IsSound : Relay → Type 0
  IsSound r = (id : Text) (ref : ℕ) → get id r.sessions ≡ some ref → IsLive r id ref

  Kept-IsLive :
      {r after : Relay} {id : Text} {ref : ℕ} → Kept r after → IsLive r id ref → IsLive after id ref
  Kept-IsLive {r} {after} {id} {ref} k l = record {
    known = rw (k.next) (l.known);
    said = λ named.
        ap after.bound (k.streams ref) ∙ ap (λ f. f (r.cells ref).stream) k.bound ∙ l.said named;
    allowed = ap (λ s. validate_token (bearer (authorization s)) id) (k.streams ref) ∙ l.allowed;
  }

  Kept-IsSound : (r after : Relay) → Kept r after → IsSound r → IsSound after
  Kept-IsSound r after k sound id ref h =
      Kept-IsLive k (sound id ref (subst (λ m. get id m ≡ some ref) k.sessions h))

  park-IsLive_new :
      (stream : ℕ) (said : Text) (r : Relay)
      → validate_token (bearer (authorization stream)) said ≡ true
      → IsLive (park authorization validate_token stream said r) said r.next
  park-IsLive_new stream said r good =
      let cell = (nat_beq_iff r.next r.next).1 refl in
      let own = (nat_beq_iff stream stream).1 refl in
      record { known = omega arith; said = λ named. rw (cell, own) refl; allowed = rw cell good }

  park-IsLive_old :
      (stream : ℕ) (said id : Text) (ref : ℕ) (r : Relay)
      → truthy_id (r.bound stream) ≡ none
      → IsLive r id ref
      → IsLive (park authorization validate_token stream said r) id ref
  park-IsLive_old stream said id ref r unbound l =
      let cell : nat_beq ref r.next ≡ false = ground (arith, l.known) in
      let other : id ≢ [] → nat_beq (r.cells ref).stream stream ≡ false = λ named.
        let apart : (r.cells ref).stream ≢ stream = λ e.
          truthy_id-named id named (r.bound stream) (sym (ap r.bound e) ∙ l.said named) unbound in
        ground (arith, nat_beq_iff (r.cells ref).stream stream, apart) in
      record {
        known = omega (arith, l.known);
        said = λ named. rw (cell, other named) (l.said named);
        allowed = rw cell (l.allowed);
      }

  park-IsSound :
      (stream : ℕ) (said : Text) (r : Relay)
      → truthy_id (r.bound stream) ≡ none
      → validate_token (bearer (authorization stream)) said ≡ true
      → IsSound r
      → IsSound (park authorization validate_token stream said r)
  park-IsSound stream said r unbound good sound id ref h = elim (Bool-cases (said == id)) [
    | inl it ↦
        let e = (text_key.same_iff said id).0 it in
        let at_next : r.next ≡ ref = ground (arith, get-set said id r.next r.sessions) in
        subst₂ (λ i k. IsLive (park authorization validate_token stream said r) i k) e at_next
          (park-IsLive_new stream said r good)
    | inr another ↦
        park-IsLive_old stream said id ref r unbound
          (sound id ref (ground (arith, get-set said id r.next r.sessions)))
  ]

  on_hello-IsSound :
      (stream : ℕ) (said : Text) (r : Relay)
      → truthy_id (r.bound stream) ≡ none
      → IsSound r
      → IsSound (on_hello authorization validate_token stream said r)
  unfolding on_hello
  on_hello-IsSound stream said r unbound sound =
      elim (Bool-cases (validate_token (bearer (authorization stream)) said)) [
        | inr bad ↦ rw bad (Kept-IsSound r _ (emit-Kept (Effect.ends stream) r) sound)
        | inl good ↦ elim (Option-cases (get said r.sessions)) [
          | inr (other, e) ↦
              rw (good, e) (Kept-IsSound r _ (emit-Kept (Effect.ends stream) r) sound)
          | inl e ↦ rw (good, e) (park-IsSound stream said r unbound good sound)
        ]
      ]

  on_frame-IsSound :
      (o : Option Text) (stream : ℕ) (f : WorkerFrame) (r : Relay)
      → truthy_id (r.bound stream) ≡ o
      → IsSound r
      → IsSound (on_frame authorization validate_token o stream f r)
  on_frame-IsSound none stream (hello said) r e sound = on_hello-IsSound stream said r e sound
  on_frame-IsSound none stream (chunk q bytes) r e sound = sound
  on_frame-IsSound none stream (end q code) r e sound = sound
  on_frame-IsSound none stream (error q message) r e sound = sound
  on_frame-IsSound none stream blank r e sound = sound
  on_frame-IsSound (some id) stream f r e sound =
      Kept-IsSound r _ (dispatch-Kept (sinks_of id r) f r) sound

  delete-IsSound :
      (id : Text) (r : Relay)
      → IsSound r
      → IsSound (emit (Effect.removes_record id) (record r { sessions = delete id r.sessions }))
  delete-IsSound id r sound j ref h =
      let l = sound j ref (ground (arith, get-delete id j r.sessions)) in
      record { known = l.known; said = l.said; allowed = l.allowed }

  drop_session-IsSound : (o : Option Text) (r : Relay) → IsSound r → IsSound (drop_session o r)
  drop_session-IsSound none r sound = sound
  drop_session-IsSound (some id) r sound =
      delete-IsSound id _ (Kept-IsSound r _ (fail_all-Kept (sinks_of id r) r) sound)

  step-IsSound :
      (e : Event) (r : Relay) → IsSound r → IsSound (step authorization validate_token e r)
  unfolding step on_data teardown route_exec route_abort take_event
  step-IsSound (frame stream f) r sound =
      on_frame-IsSound (truthy_id (r.bound stream)) stream f r refl sound
  step-IsSound (closed stream) r sound = drop_session-IsSound (truthy_id (r.bound stream)) r sound
  step-IsSound (routes id q x) r sound =
      Kept-IsSound r _ (start_at-Kept (get id r.sessions) q x r) sound
  step-IsSound (finishes ref q) r sound = Kept-IsSound r _ (finish_exec-Kept ref q r) sound
  step-IsSound (takes x) r sound =
      Kept-IsSound r (take_event x r)
        (record { sessions = refl; streams = λ ref. refl; next = refl; bound = refl }) sound
  step-IsSound (aborts id q) r sound =
      Kept-IsSound r _ (abort_at-Kept (get id r.sessions) q r) sound

  -- Where each session of a relay is of a stream that brought a token that is valid for that sandbox, and that
  -- said it is that sandbox, if its id is not empty, as in a new relay, this is so whatever happens to it.
  pub run-IsSound :
      (es : List Event) (r : Relay) → IsSound r → IsSound (run authorization validate_token es r)
  unfolding run
  run-IsSound [] r sound = sound
  run-IsSound (e ∷ es) r sound =
      run-IsSound es (step authorization validate_token e r) (step-IsSound e r sound)
