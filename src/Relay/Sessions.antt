-- ===== src/Relay/Sessions.antt =====
-- Who may end a session.
use serverless_harness.Base.{
  ℕ, ◌≡◌, ◌≢◌, refl, sym, ◌∙◌, ap, subst, ◌⊎◌, inl, inr, Bool, Option, none, some, List, [], ◌∷◌,
  nat_beq_iff, Text, ◌==◌, text_key, nat_key, get, get-set, get-delete, arith, Bool-cases,
  Option-cases, some_inj,
}
use serverless_harness.Relay.{
  WorkerFrame, hello, chunk, end, error, blank, ExecEvent, output, finished, broken, disconnected,
  Relay, bearer, push, push_to, dispatch, sinks_of, fail_all, drop_session, truthy_id, teardown,
  start_at, route_exec, finish_exec, take_event, abort_at, route_abort, Event, frame, closed,
  routes, finishes, takes, aborts, on_hello, on_frame, on_data, step,
}

-- Sessions, their streams and what the streams said are as they were.
pub record Kept (r after : Relay) : Type 0 where
  pub sessions : after.sessions ≡ r.sessions
  pub streams : (ref : ℕ) → (after.cells ref).stream ≡ (r.cells ref).stream
  pub next : after.next ≡ r.next
  pub bound : after.bound ≡ r.bound

pub Kept-refl : (r : Relay) → Kept r r
Kept-refl r = record { sessions = refl; streams = λ ref. refl; next = refl; bound = refl }

Kept-trans : {a b c : Relay} → Kept a b → Kept b c → Kept a c
Kept-trans f g = record {
  sessions = g.sessions ∙ f.sessions;
  streams = λ ref. g.streams ref ∙ f.streams ref;
  next = g.next ∙ f.next;
  bound = g.bound ∙ f.bound;
}

push-Kept : (x : ℕ) (ev : ExecEvent) (r : Relay) → Kept r (push x ev r)
unfolding push
push-Kept x ev r = record { sessions = refl; streams = λ ref. refl; next = refl; bound = refl }

push_to-Kept : (o : Option ℕ) (ev : ExecEvent) (r : Relay) → Kept r (push_to o ev r)
push_to-Kept none ev r = Kept-refl r
push_to-Kept (some x) ev r = push-Kept x ev r

pub dispatch-Kept :
    (sinks : List (ℕ × ℕ)) (f : WorkerFrame) (r : Relay) → Kept r (dispatch sinks f r)
unfolding dispatch
dispatch-Kept sinks (hello id) r = Kept-refl r
dispatch-Kept sinks blank r = Kept-refl r
dispatch-Kept sinks (chunk q bytes) r = push_to-Kept (get q sinks) (output q bytes) r
dispatch-Kept sinks (end q code) r = push_to-Kept (get q sinks) (finished q code) r
dispatch-Kept sinks (error q message) r = push_to-Kept (get q sinks) (broken q message) r

pub fail_all-Kept : (sinks : List (ℕ × ℕ)) (r : Relay) → Kept r (fail_all sinks r)
unfolding fail_all
fail_all-Kept [] r = Kept-refl r
fail_all-Kept ((q, x) ∷ sinks) r =
    Kept-trans (push-Kept x (disconnected q) r) (fail_all-Kept sinks (push x (disconnected q) r))

pub start_at-Kept : (o : Option ℕ) (q x : ℕ) (r : Relay) → Kept r (start_at o q x r).0
start_at-Kept none q x r = Kept-refl r
start_at-Kept (some ref) q x r = elim (Option-cases (get q (r.cells ref).sinks)) [
  | inl e ↦
      rw (e, start_at)
        (record {
          sessions = refl;
          streams = λ k. ground (arith, nat_beq_iff k ref);
          next = refl;
          bound = refl;
        })
  | inr (other, e) ↦ rw (e, start_at) (Kept-refl r)
]

pub finish_exec-Kept : (ref q : ℕ) (r : Relay) → Kept r (finish_exec ref q r)
unfolding finish_exec
finish_exec-Kept ref q r = record {
  sessions = refl;
  streams = λ k. ground (arith, nat_beq_iff k ref);
  next = refl;
  bound = refl;
}

pub abort_at-Kept : (o : Option ℕ) (q : ℕ) (r : Relay) → Kept r (abort_at o q r)
abort_at-Kept none q r = Kept-refl r
abort_at-Kept (some ref) q r = record {
  sessions = refl;
  streams = λ k. refl;
  next = refl;
  bound = refl;
}

pub truthy_id-some : (o : Option Text) (id : Text) → truthy_id o ≡ some id → o ≡ some id
truthy_id-some none id h = cc
truthy_id-some (some []) id h = cc
truthy_id-some (some (c ∷ cs)) id h = h

truthy_id-not_empty : (o : Option Text) (id : Text) → truthy_id o ≡ some id → id ≢ []
truthy_id-not_empty none id h e = cc
truthy_id-not_empty (some []) id h e = cc
truthy_id-not_empty (some (c ∷ cs)) id h e = cc (some_inj (c ∷ cs) id h, e)

-- What an end of a stream does to the sessions.
drop_session-get :
    (o : Option Text) (r : Relay) (id : Text) (ref : ℕ)
    → o ≢ some id
    → get id r.sessions ≡ some ref
    → get id (drop_session o r).sessions ≡ some ref
drop_session-get none r id ref ne h = h
drop_session-get (some j) r id ref ne h =
    let kept = (fail_all-Kept (sinks_of j r) r).sessions in
    rw kept (
      ground (
        arith,
        get-delete j id r.sessions,
        text_key.same_iff j id,
        λ (e : j ≡ id). ne (ap (λ t. some t) e),
      ))

module _ (authorization : ℕ → Option Text) (validate_token : Option Text → Text → Bool) where
  on_hello-get :
      (stream : ℕ) (said id : Text) (r : Relay) (ref : ℕ)
      → get id r.sessions ≡ some ref
      → get id (on_hello authorization validate_token stream said r).sessions ≡ some ref
  unfolding on_hello
  on_hello-get stream said id r ref h =
      elim (Bool-cases (validate_token (bearer (authorization stream)) said)) [
        | inr bad ↦ rw bad h
        | inl good ↦ elim (Option-cases (get said r.sessions)) [
          | inr (other, e) ↦ rw (good, e) h
          | inl e ↦
              rw (good, e)
                (ground (
                  arith,
                  get-set said id r.next r.sessions,
                  text_key.same_iff said id,
                  ap (λ t. get t r.sessions),
                ))
        ]
      ]

  on_frame-get :
      (o : Option Text) (stream : ℕ) (f : WorkerFrame) (r : Relay) (id : Text) (ref : ℕ)
      → get id r.sessions ≡ some ref
      → get id (on_frame authorization validate_token o stream f r).sessions ≡ some ref
  on_frame-get none stream (hello said) r id ref h = on_hello-get stream said id r ref h
  on_frame-get none stream (chunk q bytes) r id ref h = h
  on_frame-get none stream (end q code) r id ref h = h
  on_frame-get none stream (error q message) r id ref h = h
  on_frame-get none stream blank r id ref h = h
  on_frame-get (some j) stream f r id ref h =
      subst (λ m. get id m ≡ some ref) (sym (dispatch-Kept (sinks_of j r) f r).sessions) h

  -- A live session stays at its worker whatever happens, another worker's `hello` for the same sandbox
  -- included, until a stream ends that said it is that sandbox; and a session of the empty id stays even then.
  pub step-sessions :
      (e : Event) (r : Relay) (id : Text) (ref : ℕ)
      → get id r.sessions ≡ some ref
      → (get id (step authorization validate_token e r).sessions ≡ some ref)
        ⊎ ((stream : ℕ) × (e ≡ closed stream) × (id ≢ []) × (r.bound stream ≡ some id))
  unfolding step on_data teardown route_exec route_abort take_event
  step-sessions (frame stream f) r id ref h =
      inl (on_frame-get (truthy_id (r.bound stream)) stream f r id ref h)
  step-sessions (closed stream) r id ref h = elim (Option-cases (truthy_id (r.bound stream))) [
    | inl e ↦ inl (drop_session-get (truthy_id (r.bound stream)) r id ref (λ q. cc (q, e)) h)
    | inr (j, e) ↦ elim (Bool-cases (j == id)) [
      | inl it ↦ inr (
        stream,
        refl,
        subst (λ t. t ≢ []) ((text_key.same_iff j id).0 it)
            (truthy_id-not_empty (r.bound stream) j e),
        truthy_id-some (r.bound stream) j e ∙ ap (λ t. some t) ((text_key.same_iff j id).0 it),
      )
      | inr another ↦ inl (
          drop_session-get (truthy_id (r.bound stream)) r id ref
            (λ q. cc ((text_key.same_iff j id).1 (first (sym e ∙ q)), another)) h)
    ]
  ]
    where
      first : {j k : Text} → some j ≡ some k → j ≡ k
      first q = cc
  step-sessions (routes j q x) r id ref h =
      inl
        (subst (λ m. get id m ≡ some ref) (sym (start_at-Kept (get j r.sessions) q x r).sessions) h)
  step-sessions (finishes k q) r id ref h =
      inl (subst (λ m. get id m ≡ some ref) (sym (finish_exec-Kept k q r).sessions) h)
  step-sessions (takes x) r id ref h = inl h
  step-sessions (aborts j q) r id ref h =
      inl (subst (λ m. get id m ≡ some ref) (sym (abort_at-Kept (get j r.sessions) q r).sessions) h)
