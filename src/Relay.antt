-- ===== src/Relay.antt =====
-- packages/sandbox-relay/src/relay.ts: `createRelay`. Workers attach by a stream each and say which sandbox
-- they are; an exec for a sandbox goes to its worker, and the worker's frames go back to the caller. A
-- stream is a number. A parked session is an object that a running exec keeps after the session is gone,
-- so these stand in a store, and the map of sessions holds references.
pub mod Sessions
pub mod Failed
pub mod Sound
mod Tests
use serverless_harness.Base.{
  ℕ, suc, ◌+◌, Bool, true, false, not, ◌||◌, Option, none, some, List, [], ◌∷◌, ◌++◌, if◌then◌else◌,
  nat_beq, Text, text_key, nat_key, get, set, delete, drop,
}

-- What a worker sends; a frame that has none of these fields is `blank`.
pub data WorkerFrame : Type 0 where
  hello : Text → WorkerFrame
  chunk : ℕ → Text → WorkerFrame
  end : ℕ → ℕ → WorkerFrame
  error : ℕ → Text → WorkerFrame
  blank : WorkerFrame

pub data ExecEvent : Type 0 where
  output : ℕ → Text → ExecEvent
  finished : ℕ → ℕ → ExecEvent
  broken : ℕ → Text → ExecEvent
  disconnected : ℕ → ExecEvent

-- `routeExec`'s queue and flag.
pub record Running : Type 0 where
  pub queue : List ExecEvent
  pub done : Bool

-- `sinks` gives the running exec of a request id.
pub record Parked : Type 0 where
  pub stream : ℕ
  pub sinks : List (ℕ × ℕ)

pub data Effect : Type 0 where
  ends : ℕ → Effect
  writes_exec : ℕ → ℕ → Effect
  writes_abort : ℕ → ℕ → Effect
  puts_record : Text → Effect
  removes_record : Text → Effect

-- `bound` is the `sandboxId` of each stream's listeners, and counts only where it is truthy.
pub record Relay : Type 0 where
  pub sessions : List (Text × ℕ)
  pub cells : ℕ → Parked
  pub next : ℕ
  pub bound : ℕ → Option Text
  pub execs : ℕ → Running
  pub effects : List Effect

abbrev pub update {ℓ} : {A : Type ℓ} → ℕ → A → (ℕ → A) → ℕ → A
update k a f j = if nat_beq j k then a else f j

abbrev pub emit : Effect → Relay → Relay
emit e r = record r { effects = e ∷ r.effects }

-- `'Bearer '`
abbrev pub bearer_prefix : Text
bearer_prefix = 66 ∷ 101 ∷ 97 ∷ 114 ∷ 101 ∷ 114 ∷ 32 ∷ []

abbrev pub starts_with : Text → Text → Bool
starts_with [] s = true
starts_with (c ∷ cs) [] = false
starts_with (c ∷ cs) (d ∷ s) = let rest = starts_with cs s in if nat_beq c d then rest else false

unfoldable pub bearer : Option Text → Option Text
bearer none = none
bearer (some v) = if starts_with bearer_prefix v then some (drop 7 v) else none

abbrev pub closes : ExecEvent → Bool
closes (output q b) = false
closes _ = true

unfoldable pub push : ℕ → ExecEvent → Relay → Relay
push x ev r = record r {
  execs =
      update x
        (record { queue = (r.execs x).queue ++ ev ∷ []; done = (r.execs x).done || closes ev })
        r.execs;
}

-- `sink?.(event)`
abbrev pub push_to : Option ℕ → ExecEvent → Relay → Relay
push_to none ev r = r
push_to (some x) ev r = push x ev r

-- The sinks of the session that the stream's frames go to.
abbrev pub sinks_at : Option ℕ → (ℕ → Parked) → List (ℕ × ℕ)
sinks_at none cells = []
sinks_at (some ref) cells = (cells ref).sinks

-- A frame of a stream whose `hello` was accepted.
unfoldable pub dispatch : List (ℕ × ℕ) → WorkerFrame → Relay → Relay
unfolding push
dispatch sinks (hello id) r = r
dispatch sinks blank r = r
dispatch sinks (chunk q bytes) r = push_to (get q sinks) (output q bytes) r
dispatch sinks (end q code) r = push_to (get q sinks) (finished q code) r
dispatch sinks (error q message) r = push_to (get q sinks) (broken q message) r

unfoldable pub fail_all : List (ℕ × ℕ) → Relay → Relay
unfolding push
fail_all [] r = r
fail_all ((q, x) ∷ sinks) r = fail_all sinks (push x (disconnected q) r)

abbrev pub sinks_of : Text → Relay → List (ℕ × ℕ)
sinks_of id r = sinks_at (get id r.sessions) r.cells

-- `sandboxId` where it is truthy: the empty id is not.
abbrev pub truthy_id : Option Text → Option Text
truthy_id (some (c ∷ id)) = some (c ∷ id)
truthy_id _ = none

abbrev pub drop_session : Option Text → Relay → Relay
drop_session none r = r
drop_session (some id) r =
    let failed = fail_all (sinks_of id r) r in
    emit (removes_record id) (record failed { sessions = delete id failed.sessions })

unfoldable pub teardown : ℕ → Relay → Relay
unfolding fail_all
teardown stream r = drop_session (truthy_id (r.bound stream)) r

pub data Started : Type 0 where
  started : ℕ → Started
  no_worker : Started
  in_flight : Started

abbrev pub start_at : Option ℕ → ℕ → ℕ → Relay → Relay × Started
start_at none q x r = (r, no_worker)
start_at (some ref) q x r =
    let p = r.cells ref in
    let started_relay : Relay = record r {
      cells = update ref (record p { sinks = set q x p.sinks }) r.cells;
      execs = update x (record { queue = []; done = false }) r.execs;
      effects = writes_exec p.stream q ∷ r.effects;
    } in
    elim (get q p.sinks) [ none ↦ (started_relay, started ref) | some other ↦ (r, in_flight) ]

-- The call of `routeExec` for request `q`, whose queue is that of the exec `x`.
unfoldable pub route_exec : Text → ℕ → ℕ → Relay → Relay × Started
route_exec id q x r = start_at (get id r.sessions) q x r

-- Its `finally`, with the session that it was started at.
unfoldable pub finish_exec : ℕ → ℕ → Relay → Relay
finish_exec ref q r =
    let p = r.cells ref in
    record r { cells = update ref (record p { sinks = delete q p.sinks }) r.cells }

-- The caller takes the next event.
unfoldable pub take_event : ℕ → Relay → Relay
take_event x r = record r {
  execs = update x (record (r.execs x) { queue = drop 1 (r.execs x).queue }) r.execs;
}

abbrev pub abort_at : Option ℕ → ℕ → Relay → Relay
abort_at none q r = r
abort_at (some ref) q r = emit (writes_abort (r.cells ref).stream q) r

unfoldable pub route_abort : Text → ℕ → Relay → Relay
route_abort id q r = abort_at (get id r.sessions) q r

pub data Event : Type 0 where
  frame : ℕ → WorkerFrame → Event
  closed : ℕ → Event
  routes : Text → ℕ → ℕ → Event
  finishes : ℕ → ℕ → Event
  takes : ℕ → Event
  aborts : Text → ℕ → Event

-- `authorization` is the header of a stream, and `validate_token` is of the deployment.
module _ (authorization : ℕ → Option Text) (validate_token : Option Text → Text → Bool) where
  abbrev pub park : ℕ → Text → Relay → Relay
  park stream id r = record r {
    sessions = set id r.next r.sessions;
    cells = update r.next (record { stream = stream; sinks = [] }) r.cells;
    next = suc r.next;
    bound = update stream (some id) r.bound;
    effects = puts_record id ∷ r.effects;
  }

  unfoldable pub on_hello : ℕ → Text → Relay → Relay
  on_hello stream id r =
      if not (validate_token (bearer (authorization stream)) id)
      then emit (ends stream) r
      else elim (get id r.sessions) [ some ref ↦ emit (ends stream) r | none ↦ park stream id r ]

  abbrev pub on_frame : Option Text → ℕ → WorkerFrame → Relay → Relay
  on_frame none stream (hello id) r = on_hello stream id r
  on_frame none stream f r = r
  on_frame (some id) stream f r = dispatch (sinks_of id r) f r

  unfoldable pub on_data : ℕ → WorkerFrame → Relay → Relay
  on_data stream f r = on_frame (truthy_id (r.bound stream)) stream f r

  unfoldable pub step : Event → Relay → Relay
  step (frame stream f) r = on_data stream f r
  step (closed stream) r = teardown stream r
  step (routes id q x) r = (route_exec id q x r).0
  step (finishes ref q) r = finish_exec ref q r
  step (takes x) r = take_event x r
  step (aborts id q) r = route_abort id q r

  unfoldable pub run : List Event → Relay → Relay
  run [] r = r
  run (e ∷ es) r = run es (step e r)
