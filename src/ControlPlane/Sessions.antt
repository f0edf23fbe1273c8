-- ===== src/ControlPlane/Sessions.antt =====
-- packages/control-plane/src/handlers.ts: the handlers of the sessions, with the choice of a session's credential of
-- credential-store.ts. The credential store, the random ids and the comparison of numbers are parameters.
pub mod Owned
mod Tests
use Prim.Native.Nat.{◌/◌}
use Prim.Native.String.{◌++◌ as join}
use serverless_harness.Base.{
  ℕ, ◌+◌, String, Bool, true, false, not, ◌&&◌, Option, none, some, List, [], ◌∷◌, ◌==◌,
  if◌then◌else◌, any, keep_if, get, string_key, Text, Outcome, good, bad, require, need,
}
use serverless_harness.Base.Actions.{Action, pure, lift, ◌>>=◌, ◌>>◌}
use serverless_harness.Harness.Json.{Json, string, Number, whole}
use serverless_harness.ControlPlane.Errors.{
  Thrown, cp_error, refusal, token_required, forbidden, session_not_found, invalid_request,
  credential_required, credential_ambiguous, credential_not_found,
}
use serverless_harness.ControlPlane.Token.{Jose}
use serverless_harness.ControlPlane.Token.Mint.{MintInput, Signer, mint}
use serverless_harness.ControlPlane.Ownership.{
  CpRedis, Hash, SessionRecord, active, filled, or_text, created_of, get_session, create, audit,
  get_runtime, list_by_owner, default_page_size, cascade_delete,
}
use serverless_harness.ControlPlane.Exchange.{owned_by, quoted, operator_fallback_name}

-- The claims of the caller's token that the handlers read.
pub record Principal : Type 0 where
  pub sub : String
  pub tenant : Option String
  pub roles : List String

pub data Consumer : Type 0 where
  inference sandbox_egress control_plane : Consumer

abbrev pub is_inference : Consumer → Bool
is_inference inference = true
is_inference _ = false

abbrev pub consumer_text : Consumer → String
consumer_text inference = "inference"
consumer_text sandbox_egress = "sandbox-egress"
consumer_text control_plane = "control-plane"

pub record CredentialDescriptor : Type 0 where
  pub name : String
  pub consumer : Consumer

abbrev pub find_named : String → List CredentialDescriptor → Option CredentialDescriptor
find_named name [] = none
find_named name (d ∷ ds) =
    let later = find_named name ds in if d.name == name then some d else later

-- `join(', ')`
abbrev pub names_of : List CredentialDescriptor → String
names_of [] = ""
names_of (d ∷ []) = d.name
names_of (d ∷ e ∷ ds) = join (join d.name ", ") (names_of (e ∷ ds))

abbrev pub the_only : List CredentialDescriptor → Outcome Thrown String
the_only [] = bad (refusal credential_required "no credential with consumer: inference")
the_only (d ∷ []) = good d.name
the_only (d ∷ e ∷ ds) = bad (
    refusal credential_ambiguous
      (quoted "several inference credentials (" (names_of (d ∷ e ∷ ds)) "); name one"))

abbrev pub named_inference : String → Option CredentialDescriptor → Outcome Thrown String
named_inference name none =
    bad (refusal credential_not_found (quoted "no credential named '" name "'"))
named_inference name (some d) =
    if is_inference d.consumer
    then good name
    else bad (
        refusal invalid_request (
          join (quoted "credential '" name "' has consumer '")
            (join (consumer_text d.consumer) "', not 'inference'")))

unfoldable pub resolve_inference_name :
    List CredentialDescriptor → Option String → Outcome Thrown String
resolve_inference_name ds (some name) = named_inference name (find_named name ds)
resolve_inference_name ds none = the_only (keep_if (λ d. is_inference d.consumer) ds)

-- `credentials.inference` of the body.
abbrev pub requested_name : Option Json → Outcome Thrown (Option String)
requested_name none = good none
requested_name (some (string name)) = good (some name)
requested_name (some value) = bad (refusal invalid_request "credentials.inference must be a string")

-- `exceeds` is `>` on numbers, and the ids are those of this request.
pub record SessionDeps (jose : Jose) (redis : CpRedis) : Type 0 where
  pub signer : Signer jose
  pub list_credentials : String → Action Thrown redis.World (List CredentialDescriptor)
  pub allow_operator_fallback : Bool
  pub operator_inference_token : Option String
  pub session_token_ttl_seconds : ℕ
  pub now_ms : ℕ
  pub new_id : String
  pub jti : String
  pub exceeds : Number → Number → Bool

pub record SessionToken : Type 0 where
  pub session_id : String
  pub token : Text
  pub expires_at : ℕ

abbrev pub is_some {ℓ} : {A : Type ℓ} → Option A → Bool
is_some none = false
is_some (some a) = true

module _ (jose : Jose) (redis : CpRedis) where
  abbrev pub requires_token : Thrown
  requires_token = refusal token_required "this route requires a token"

  unfoldable pub assert_owner : String → Option Principal → Action Thrown redis.World SessionRecord
  unfolding get_session
  assert_owner sid principal = do
    p ← lift (need principal requires_token)
    found ← get_session redis sid
    lift (need (owned_by (some p.sub) found) (cp_error session_not_found none (some sid)))

  abbrev pub turn_token : SessionDeps jose redis → SessionRecord → List String → MintInput
  turn_token deps rec roles = record {
    sub = rec.owner;
    tenant = rec.tenant;
    roles = roles;
    scope = "turn:write" ∷ [];
    ttl_seconds = deps.session_token_ttl_seconds;
    sid = some rec.session_id;
    iss = none;
  }

  abbrev pub seconds : SessionDeps jose redis → ℕ
  seconds deps = deps.now_ms / 1000

  abbrev pub session_token : SessionDeps jose redis → SessionRecord → List String → SessionToken
  session_token deps rec roles = record {
    session_id = rec.session_id;
    token = mint jose deps.signer (turn_token deps rec roles) (seconds deps) deps.jti;
    expires_at = seconds deps + deps.session_token_ttl_seconds;
  }

  abbrev pub roles_of : Option Principal → List String
  roles_of none = []
  roles_of (some p) = p.roles

  unfoldable pub mint_session_token :
      SessionDeps jose redis → String → Option Principal → Action Thrown redis.World SessionToken
  unfolding assert_owner mint
  mint_session_token deps sid principal = do
    rec ← assert_owner sid principal
    lift (require (not rec.tombstone) (cp_error session_not_found none (some rec.session_id)))
    pure (session_token deps rec (roles_of principal))

  -- Whether the session falls back on the operator's credential.
  abbrev pub falls_back : SessionDeps jose redis → Option String → List CredentialDescriptor → Bool
  falls_back deps requested ds =
      not (is_some requested)
      && deps.allow_operator_fallback
      && is_some (filled deps.operator_inference_token)
      && not (any (λ d. is_inference d.consumer) ds)

  abbrev pub credential_name_for :
      SessionDeps jose redis → Option String → List CredentialDescriptor → Outcome Thrown String
  credential_name_for deps requested ds =
      if falls_back deps requested ds then good "" else resolve_inference_name ds requested

  abbrev pub new_session : SessionDeps jose redis → Principal → String → SessionRecord
  new_session deps p name = record {
    session_id = deps.new_id;
    owner = p.sub;
    tenant = or_text p.tenant p.sub;
    created_at = whole deps.now_ms;
    state = active;
    pool_selector = none;
    credential_name = name;
    tombstone = false;
  }

  unfoldable pub create_session :
      SessionDeps jose redis
      → Option Principal
      → Option Json
      → Action Thrown redis.World SessionToken
  unfolding resolve_inference_name create audit mint
  create_session deps principal inference_name = do
    p ← lift (need principal requires_token)
    requested ← lift (requested_name inference_name)
    ds ← deps.list_credentials p.sub
    name ← lift (credential_name_for deps requested ds)
    create redis (new_session deps p name)
    audit redis (record {
      subject = p.sub;
      session_id = some deps.new_id;
      credential = some (if name == "" then operator_fallback_name else name);
      decision = "session_created";
    })
    pure (session_token deps (new_session deps p name) p.roles)

  -- Whose sessions are listed.
  abbrev pub other_owner : Principal → String → Outcome Thrown String
  other_owner p owner =
      if owner == p.sub
      then good p.sub
      else if any (λ role. role == "admin") p.roles
      then good owner
      else bad (refusal forbidden "?owner= requires the admin role")

  unfoldable pub listed_owner : Principal → Option String → Outcome Thrown String
  listed_owner p none = good p.sub
  listed_owner p (some owner) = other_owner p owner

  unfoldable pub turn_in_flight : SessionDeps jose redis → String → Action Thrown redis.World Bool
  unfolding get_runtime
  turn_in_flight deps sid = do
    runtime ← get_runtime redis sid
    pure (
        deps.exceeds (created_of redis.read_number (get "turnStartedAt" runtime)) (whole 0)
        && deps.exceeds (created_of redis.read_number (get "turnStartedAt" runtime))
            (created_of redis.read_number (get "turnEndedAt" runtime)))

  -- The status of the answer.
  unfoldable pub delete_session :
      SessionDeps jose redis → String → Option Principal → Action Thrown redis.World ℕ
  unfolding assert_owner turn_in_flight cascade_delete audit
  delete_session deps sid principal = do
    rec ← assert_owner sid principal
    in_flight ← turn_in_flight deps rec.session_id
    cascade_delete redis rec
    audit redis (record {
      subject = rec.owner;
      session_id = some rec.session_id;
      credential = none;
      decision = if in_flight then "session_deleted_in_flight" else "session_deleted";
    })
    pure (if in_flight then 202 else 204)

-- What is shown of a session; `turns` and `last_turn_at` are what the harness reported.
pub record SessionView : Type 0 where
  pub shown : SessionRecord
  pub last_turn_at : Option Number
  pub turns : Number

pub record SessionPage : Type 0 where
  pub sessions : List SessionView
  pub next_cursor : Option Number

-- `raw ? Number(raw) : fallback`
abbrev pub number_if : (String → Number) → Option String → Option Number
number_if read none = none
number_if read (some raw) = if raw == "" then none else some (read raw)

abbrev pub number_or : Option Number → Number → Number
number_or none fallback = fallback
number_or (some n) fallback = n

-- `intQuery`; `finite` is `Number(raw)` where that is finite.
abbrev pub int_query :
    (String → Option Number) → String → Option String → Outcome Thrown (Option Number)
int_query finite name none = good none
int_query finite name (some raw) = elim (finite raw) [
  | none ↦ bad (refusal invalid_request (join name " must be a number"))
  | some n ↦ good (some n)
]

module _ (redis : CpRedis) where
  unfoldable pub session_view : SessionRecord → Action Thrown redis.World SessionView
  unfolding get_runtime
  session_view rec = do
    runtime ← get_runtime redis rec.session_id
    pure (record {
      shown = rec;
      last_turn_at = number_if redis.read_number (get "lastTurnAt" runtime);
      turns = number_or (number_if redis.read_number (get "turns" runtime)) (whole 0);
    })

  unfoldable pub view_all : List SessionRecord → Action Thrown redis.World (List SessionView)
  unfolding session_view
  view_all [] = pure []
  view_all (rec ∷ recs) = do view ← session_view rec; views ← view_all recs; pure (view ∷ views)

  unfoldable pub show_session :
      (jose : Jose) → String → Option Principal → Action Thrown redis.World SessionView
  unfolding assert_owner session_view
  show_session jose sid principal = do rec ← assert_owner jose redis sid principal; session_view rec

  -- `owner`, `limit` and `cursor` are what the query has under these names.
  unfoldable pub list_sessions :
      Jose
      → (String → Option Number)
      → (String → Option ℕ)
      → Option Principal
      → Option String
      → Option String
      → Option String
      → Action Thrown redis.World SessionPage
  unfolding listed_owner list_by_owner view_all
  list_sessions jose finite floor principal owner limit cursor = do
    p ← lift (need principal (requires_token jose redis))
    whose ← lift (listed_owner jose redis p owner)
    asked ← lift (int_query finite "limit" limit)
    after ← lift (int_query finite "cursor" cursor)
    page ← list_by_owner redis floor whose (some (number_or asked (whole default_page_size))) after
    views ← view_all page.sessions
    pure (record { sessions = views; next_cursor = page.next_cursor })
