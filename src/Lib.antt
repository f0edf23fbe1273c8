-- ===== src/Lib.antt =====
-- Verification library of the serverless harness: models of its TypeScript components and the theorems that
-- hold of them. Paths are from the root of the repository.
--
-- The supervisor (packages/supervisor) is the process that accepts connections on one port and hands each,
-- as a file descriptor, to one of several worker processes. A connection is refused at once where every
-- healthy worker is at its cap (admission.ts). Otherwise its header block may be read (head.ts), a policy
-- picks a worker (routing.ts), and the pool sends it there or, where that fails, to the next (pool.ts);
-- main.ts puts these together.
--
-- The harness (harness) runs one turn or one leaf of a session. A leaf may ask for approval and stop: its
-- gates are entries of the durable session, and a later run derives from them what it has to do (gate.ts).
-- A sandbox of a pool is shared by harnesses on many machines, which hold leases of it in Redis
-- (sandbox-lease.ts); a selection asks for the loads of all candidates and takes the first lease that it is
-- granted (select-sandbox.ts).
--
--   Base                 shared names, Boolean tests, lists over the native numbers, and JavaScript's Map
--                        as a list of entries in insertion order
--   Base.Results         code that throws, as a result; Base.Actions adds a state, which keeps what was written
--                        before a throw; Base.Texts has split, trim and decimal numbers on character codes
--   Supervisor.Routing   routing.ts and isSaturated of admission.ts: pickLeastLoaded, and the two policies;
--                        stickyBySession is its table, and a pick returns the table afterwards
--   Supervisor.Head      head.ts: readHead is a fold over the events of the socket, in any order and
--                        with any cut of the bytes into chunks
--   Supervisor.Pool      pool.ts: State is the state of WorkerPool, HandOff is handOff, Events has one
--                        function for each other method and listener, and Run has every order of them
--   Supervisor.Route     main.ts: the function route, which is two functions since it awaits the reader
--   Supervisor.Tests     concrete runs
--   Harness.Json         a JSON value as the code inspects it, field by field
--   Harness.Verdict      harness/src/verdict.ts, whole
--   Harness.Gate         harness/src/gate.ts, whole; Resume has its theorems
--   Harness.Budget       harness/src/budget-voter.ts, whole, and the lines of harness/src/run-turn.ts that set it
--                        up; Turn has what a turn may spend
--   Harness.Lease        harness/src/sandbox-lease.ts: the script and the commands of RedisLeaseStore
--   Harness.Select       harness/src/select-sandbox.ts: selectPoolSandbox over an interface of the lease store;
--                        Order has the sort of the candidates, First which of them gets the lease, and
--                        Leased what becomes of it
--   Harness.Tests, Harness.Budget.Tests, Harness.Lease.Tests, Harness.Select.Tests   concrete sessions, leases
--                        and selections
--
-- Redis is a parameter: SortedSets has the commands used and what their documentation says of them, and
-- Harness.Lease.Tests has one with functions in place of a server. A command reads the clock when it runs.
-- A selection asks for the loads of its candidates one after another, where the source sends them at once; every
-- command of the store may reject, and a release that does is ignored, as in the source.
--
-- State. A slot of the pool is an object that the listeners of a worker keep after its place in the array
-- was taken by another, so slots stand in a store and the array holds references. Effects (a socket sent to
-- a worker, a drain, a 429, a fork, a destroyed socket) are a list in the state, latest first. A promise of
-- awaitIdle is a number, and the promises that have a value are a list. Whether the channel of a worker is
-- connected and whether a send throws are part of the environment, and may change at any event.
--
-- The relay (packages/sandbox-relay) is where the workers of sandboxes outside the cluster attach, each by a
-- stream; an exec for a sandbox is written to the stream of its worker, whose frames go back to the caller.
--
--   Relay                relay.ts, createRelay; a step is one frame, one end of a stream, or one call
--   Relay.Sessions, Relay.Sound, Relay.Failed   its theorems; Relay.Tests has concrete runs
--
-- The control plane (packages/control-plane) says who may run what. It signs a token for a user or for a
-- session (token.ts), keeps in Redis an index of who owns which session (ownership.ts), and gives the turn
-- server, for the token of a turn, the credential to run it on (exchange.ts). The turn server
-- (packages/knative-server) verifies the token that comes with a turn, asks the control plane for that
-- credential, and runs the turn as the subject of the token (turn-auth.ts).
--
--   ControlPlane.Errors      errors.ts, whole
--   ControlPlane.Token       token.ts: verifyToken and parseKeyset; Verified has what is accepted, Refused
--                            what is thrown, Keys the keyset, Mint the signer and the round trip
--   ControlPlane.Ownership   ownership.ts, whole; Records and Written have what is read back after the
--                            writes, Cascade how far a deletion has come where it stops
--   ControlPlane.Exchange    exchange.ts, whole, and inferenceAuthHeader of credential-store.ts; Headers has
--                            what a secret is sent in, and Spends whose credential is given
--   ControlPlane.Sessions    handlers.ts: the handlers of the sessions, and resolveInferenceName of
--                            credential-store.ts; Owned has who is given a token
--   KnativeServer.TurnAuth   turn-auth.ts; Bound has what a turn is bound to, Blamed whom a refusal
--                            blames, Env what is read from the environment
--   KnativeServer.Tenancy    tenancy.ts; Edits and Core have the distance of two names and the loop of core
--   the modules Tests below these   a small signer, a Redis of functions, and concrete requests
--
-- The parameters of these: Jose is node:crypto, base64url and JSON; Documented says that a signature verifies
-- under its public key and that base64url has no dot. CpRedis has the commands of Redis that the index
-- uses; RedisLaws says what each does to what can be read back, and that a command that is not answered
-- had its effect or none. The credential store, fetch and the parser of URLs are functions. A JSON string is
-- a String; a header, a token and a key id are compared as the codes of their characters.
--
-- Numbers. Times are milliseconds and loads are counts, both natural numbers. A reading that is NaN is
-- `none`, and every other reading is a natural number. `now - startedAt >= healthyRunMs` is written as
-- `startedAt + healthyRunMs <= now`. A session id is the list of its characters' codes.
--
-- Fuel. The loop of handOff takes fuel, the number of slots and two more: each round tries another worker
-- of the array, but the first may try an index outside it, and the last finds none.
-- The loop of core takes one pass more than the text is long: every pass but the last shortens it.
-- The digits of a number take fuel, the number itself.
--
-- Not modelled: reading a private key; the text of errors that are not CpErrors; the memoised Redis client that
-- reports runtime fields; the HTTP servers; log lines, which change no state; the base64 of the head in a message; the linger timer of
-- a refused socket; the listening sockets and the admin server. Components that have no module here are in
-- the manifest with the reason.
pub mod Base
pub mod ControlPlane
pub mod Harness
pub mod KnativeServer
pub mod Relay
pub mod Supervisor
