-- ===== src/Relay/Tests.antt =====
-- A relay with one sandbox and two workers for it.
use serverless_harness.Base.{
  ℕ, ◌≡◌, ◌≢◌, refl, ◌⊎◌, inl, Bool, false, Option, none, some, List, [], ◌∷◌, Text, text_beq,
  text_key, get,
}
use serverless_harness.Relay.{
  hello, chunk, disconnected, output, Relay, bearer, push, dispatch, fail_all, teardown, route_exec,
  finish_exec, take_event, route_abort, Event, frame, closed, routes, on_hello, on_data, step, run,
  ends, puts_record, writes_exec,
}
use serverless_harness.Relay.Sessions.{step-sessions}
use serverless_harness.Relay.Failed.{IsFailed, teardown-IsFailed}
use serverless_harness.Relay.Sound.{IsSound, run-IsSound}

run_relay : Unit {0}
unfolding text_beq bearer push dispatch fail_all teardown route_exec finish_exec take_event
    route_abort on_hello on_data step run
run_relay = tt

abbrev sandbox : Text
sandbox = 115 ∷ []

abbrev empty : Relay
empty = record {
  sessions = [];
  cells = λ ref. record { stream = 0; sinks = [] };
  next = 0;
  bound = λ stream. none;
  execs = λ x. record { queue = []; done = false };
  effects = [];
}

-- Each stream brings the token `t`, which is valid for the sandbox.
abbrev header : ℕ → Option Text
header stream = some (66 ∷ 101 ∷ 97 ∷ 114 ∷ 101 ∷ 114 ∷ 32 ∷ 116 ∷ [])

abbrev validate : Option Text → Text → Bool
validate none id = false
validate (some token) id = text_beq token (116 ∷ [])

abbrev attached : List Event
attached = frame 1 (hello sandbox) ∷ routes sandbox 7 3 ∷ frame 1 (chunk 7 (9 ∷ [])) ∷ []

abbrev live : Relay
live = run header validate attached empty

relay_tests :
    (live.effects ≡ writes_exec 1 7 ∷ puts_record sandbox ∷ [])
    × ((live.execs 3).queue ≡ output 7 (9 ∷ []) ∷ [])
    × ((run header validate (frame 2 (hello sandbox) ∷ []) live).effects ≡ ends 2 ∷ live.effects)
    × (((run header validate (closed 1 ∷ []) live).execs 3).queue
        ≡ output 7 (9 ∷ []) ∷ disconnected 7 ∷ [])
unfolding run_relay
relay_tests = (refl, refl, refl, refl)

-- The first worker's stream ends, it attaches again by the stream 2, and then the stream 1 fails: the
-- session of the stream 2 is gone.
late_error :
    (get sandbox (run header validate (closed 1 ∷ frame 2 (hello sandbox) ∷ []) live).sessions
      ≡ some 1)
    × (get sandbox
          (run header validate (closed 1 ∷ frame 2 (hello sandbox) ∷ closed 1 ∷ []) live).sessions
        ≡ none)
unfolding run_relay
late_error = (refl, refl)

-- A worker that says it is the empty sandbox: its stream ends, and its session stays.
stays_after_end :
    (get [] (run header validate (frame 1 (hello []) ∷ closed 1 ∷ []) empty).sessions ≡ some 0)
    × ((run header validate (frame 1 (hello []) ∷ closed 1 ∷ frame 2 (hello []) ∷ []) empty).effects
        ≡ ends 2 ∷ puts_record [] ∷ [])
unfolding run_relay
stays_after_end = (refl, refl)

step-sessions_example :
    (get sandbox (step header validate (frame 2 (hello sandbox)) live).sessions ≡ some 0)
    ⊎ ((stream : ℕ) × (frame 2 (hello sandbox) ≡ closed stream)
        × (sandbox ≢ [])
        × (live.bound stream ≡ some sandbox))
unfolding run_relay
step-sessions_example = step-sessions header validate (frame 2 (hello sandbox)) live sandbox 0 refl

teardown-IsFailed_example :
    IsFailed (teardown 1 live) 7 3 × (get sandbox (teardown 1 live).sessions ≡ none)
unfolding run_relay
teardown-IsFailed_example = teardown-IsFailed 1 7 3 sandbox live (λ e. cc) refl (inl refl)

empty-IsSound : IsSound header validate empty
empty-IsSound id ref h = absurd (cc h)

run-IsSound_example : IsSound header validate (run header validate attached empty)
run-IsSound_example = run-IsSound header validate attached empty empty-IsSound
