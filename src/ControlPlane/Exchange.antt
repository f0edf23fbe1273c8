-- ===== src/ControlPlane/Exchange.antt =====
-- packages/control-plane/src/exchange.ts: the credential that a turn runs on, given for the session token that the turn
-- was started with. The credential store is a parameter, and so is the host name of a URL.
pub mod Headers
pub mod Spends
mod Tests
use Prim.Native.Nat.{◌/◌}
use Prim.Native.String.{◌++◌ as join}
use serverless_harness.Base.{
  ℕ, String, Bool, true, false, not, ◌&&◌, Option, none, some, List, [], ◌∷◌, map, ◌==◌,
  if◌then◌else◌, nat_beq, Text, codes, begins, string_key, text_key, Outcome, good, bad, require,
  need,
}
use serverless_harness.Base.Actions.{Action, pure, lift, ◌>>=◌, ◌>>◌}
use serverless_harness.Supervisor.Head.{to_lower}
use serverless_harness.Harness.Json.{Json, string, prop, truthy, string_of}
use serverless_harness.ControlPlane.Errors.{
  Thrown, cp_error, refusal, unauthorized, session_not_found, credential_required,
  credential_unavailable, endpoint_unresolved, token_invalid,
}
use serverless_harness.ControlPlane.Token.{Jose, Keyset, verify_token}
use serverless_harness.ControlPlane.Ownership.{
  CpRedis, SessionRecord, filled, or_else, or_text, get_session, audit,
}

-- `checkExchangeAuth`, of the bytes of both; `timingSafeEqual` is equality.
abbrev pub check_exchange_auth : Option Text → Option Text → Outcome Thrown (Unit {0})
check_exchange_auth (some (a ∷ presented)) (some (b ∷ configured)) =
    require (a ∷ presented == b ∷ configured)
      (refusal unauthorized "exchange authentication failed")
check_exchange_auth presented configured =
    bad (refusal unauthorized "exchange authentication failed")

abbrev pub placeholder_for : String → String
placeholder_for subject = join "sh-placeholder-" subject

pub data InferenceAuthHeader : Type 0 where
  authorization x_api_key : InferenceAuthHeader

pub record CredentialBinding : Type 0 where
  pub header : String
  pub format : String

-- `toLowerCase`; of the characters past the first 256, only the Kelvin sign gives a letter of a header's name here.
abbrev pub lower_code : ℕ → ℕ
lower_code c = if nat_beq c 8490 then 107 else to_lower c

unfoldable pub inference_auth_header : CredentialBinding → String → Option InferenceAuthHeader
unfolding to_lower
inference_auth_header binding field =
    let header = map lower_code (codes binding.header) in
    if header == codes "authorization" && binding.format == join (join "Bearer {" field) "}"
    then some authorization
    else if header == codes "x-api-key" && binding.format == join (join "{" field) "}"
    then some x_api_key
    else none

-- `secret` in the order of its fields.
pub record StoredCredential : Type 0 where
  pub binding : CredentialBinding
  pub endpoint : Option String
  pub secret : List (String × String)

pub data DirectModeMismatch : Type 0 where
  bearer_to_anthropic raw_key_elsewhere : DirectModeMismatch

abbrev pub anthropic_host : String
anthropic_host = "api.anthropic.com"

abbrev pub is_host : String → Option String → Bool
is_host name none = false
is_host name (some host) = host == name

abbrev pub raw_key_mismatch : String → Option String → Option DirectModeMismatch
raw_key_mismatch secret host =
    if begins (codes "sk-ant-api") (codes secret) && not (is_host anthropic_host host)
    then some raw_key_elsewhere
    else none

-- `host` is the host name of the URL, if it parses.
unfoldable pub direct_mode_mismatch :
    InferenceAuthHeader → String → Option String → Option DirectModeMismatch
direct_mode_mismatch authorization secret host =
    if is_host anthropic_host host then some bearer_to_anthropic else raw_key_mismatch secret host
direct_mode_mismatch x_api_key secret host = raw_key_mismatch secret host

pub data CredentialMode : Type 0 where
  placeholder direct : CredentialMode

pub record Granted : Type 0 where
  pub mode : CredentialMode
  pub anthropic_auth_token : String
  pub anthropic_base_url : String
  pub session_id : String
  pub subject : String
  pub auth_header : Option InferenceAuthHeader

-- What was found to spend: the stored secret, the operator's, or nothing.
pub record Choice : Type 0 where
  pub secret : Option String
  pub credential_name : String
  pub endpoint : Option String
  pub header : InferenceAuthHeader
  pub used_operator_fallback : Bool

-- `template` is the text that a template literal makes of a value that is not a string.
pub record ExchangeDeps (jose : Jose) (redis : CpRedis) : Type 0 where
  pub verify_keys : Keyset jose
  pub now_ms : ℕ
  pub stored : String → String → Action Thrown redis.World (Option StoredCredential)
  pub allow_operator_fallback : Bool
  pub operator_inference_token : Option String
  pub operator_inference_header : Option InferenceAuthHeader
  pub default_inference_endpoint : Option String
  pub injector_configured : Bool
  pub hostname : String → Option String
  pub template : Json → String

abbrev pub operator_fallback_name : String
operator_fallback_name = "operator-fallback"

abbrev pub header_or_default : Option InferenceAuthHeader → InferenceAuthHeader
header_or_default none = authorization
header_or_default (some header) = header

-- The header in which the single field of the secret goes.
abbrev pub header_of : CredentialBinding → List (String × String) → Option InferenceAuthHeader
header_of binding [] = none
header_of binding ((field, value) ∷ fields) =
    if field == "" then none else inference_auth_header binding field

abbrev pub first_secret : List (String × String) → Option String
first_secret [] = none
first_secret ((field, value) ∷ fields) = some value

abbrev pub quoted : String → String → String → String
quoted before name after = join (join before name) after

abbrev pub not_sendable : SessionRecord → Thrown
not_sendable rec =
    cp_error credential_required
      (some (
        quoted "credential '" rec.credential_name
          "' has a binding the inference path cannot send; store it again as kind 'bearer' (gateway token) or 'api-key' (Anthropic API key)"))
      (some rec.session_id)

abbrev pub nothing_to_spend : SessionRecord → Thrown
nothing_to_spend rec =
    cp_error credential_required
      (some (
        if rec.credential_name == ""
        then "this session was started on the operator fallback, which is now off: store an inference credential and start a new session"
        else quoted "subject has no usable inference credential '" rec.credential_name
            "': store it again, or start a new session"))
      (some rec.session_id)

abbrev pub no_endpoint : SessionRecord → String → Thrown
no_endpoint rec name =
    cp_error endpoint_unresolved
      (some (quoted "credential '" name "' has no endpoint and no deployment default is set"))
      (some rec.session_id)

abbrev pub mismatch_error : DirectModeMismatch → Choice → Option String → SessionRecord → Thrown
mismatch_error bearer_to_anthropic choice host rec =
    if choice.used_operator_fallback
    then cp_error credential_unavailable
        (some
          "the operator fallback token (SH_OPERATOR_INFERENCE_TOKEN) is sent as Bearer, but SH_DEFAULT_INFERENCE_ENDPOINT is api.anthropic.com, which reads API keys from x-api-key; the deployment operator must set SH_OPERATOR_INFERENCE_HEADER=x-api-key or point SH_DEFAULT_INFERENCE_ENDPOINT at a gateway")
        (some rec.session_id)
    else cp_error credential_required
        (some (
          quoted "credential '" choice.credential_name
            "' is a Bearer token, but its endpoint resolves to api.anthropic.com, which reads API keys from x-api-key: store the key with kind 'api-key'"))
        (some rec.session_id)
mismatch_error raw_key_elsewhere choice host rec =
    if choice.used_operator_fallback
    then cp_error credential_unavailable
        (some (
          quoted
            "the operator fallback token (SH_OPERATOR_INFERENCE_TOKEN) is an Anthropic API key, but SH_DEFAULT_INFERENCE_ENDPOINT resolves to "
            (or_text host "an unparseable URL")
            "; the deployment operator must fix the pair, or you can store your own inference credential"))
        (some rec.session_id)
    else cp_error credential_required
        (some (
          join
            (quoted "credential '" choice.credential_name
              "' is an Anthropic API key, but its endpoint resolves to ")
            (join (or_text host "an unparseable URL")
              ": set its endpoint to https://api.anthropic.com")))
        (some rec.session_id)

-- Only in direct mode do the header and the endpoint have to agree.
abbrev pub agree_or_throw :
    Option DirectModeMismatch → Choice → Option String → SessionRecord → Outcome Thrown (Unit {0})
agree_or_throw none choice host rec = good tt
agree_or_throw (some mismatch) choice host rec = bad (mismatch_error mismatch choice host rec)

abbrev pub check_mode :
    CredentialMode → Choice → String → Option String → SessionRecord → Outcome Thrown (Unit {0})
check_mode placeholder choice secret host rec = good tt
check_mode direct choice secret host rec =
    agree_or_throw (direct_mode_mismatch choice.header secret host) choice host rec

abbrev pub sent_value : CredentialMode → String → String → String
sent_value placeholder owner secret = placeholder_for owner
sent_value direct owner secret = secret

abbrev pub sent_header : CredentialMode → InferenceAuthHeader → Option InferenceAuthHeader
sent_header direct x_api_key = some x_api_key
sent_header _ _ = none

-- `rec && rec.owner === claims.sub`
abbrev pub owned_by : Option String → Option SessionRecord → Option SessionRecord
owned_by (some sub) (some rec) = if rec.owner == sub then some rec else none
owned_by _ _ = none

abbrev pub mode_when : Bool → CredentialMode
mode_when true = placeholder
mode_when false = direct

module _ (jose : Jose) (redis : CpRedis) where
  abbrev pub sid_text : ExchangeDeps jose redis → Json → String
  sid_text deps (string sid) = sid
  sid_text deps value = deps.template value

  -- The operator's key is for a session that recorded no credential, and only where it is allowed.
  abbrev pub operator_token : ExchangeDeps jose redis → SessionRecord → Option String
  operator_token deps rec =
      if rec.credential_name == "" && deps.allow_operator_fallback
      then filled deps.operator_inference_token
      else none

  abbrev pub without_stored : ExchangeDeps jose redis → SessionRecord → Option String → Choice
  without_stored deps rec none = record {
    secret = none;
    credential_name = rec.credential_name;
    endpoint = none;
    header = authorization;
    used_operator_fallback = false;
  }
  without_stored deps rec (some token) = record {
    secret = some token;
    credential_name = operator_fallback_name;
    endpoint = none;
    header = header_or_default deps.operator_inference_header;
    used_operator_fallback = true;
  }

  abbrev pub with_stored :
      SessionRecord → StoredCredential → Option InferenceAuthHeader → Outcome Thrown Choice
  with_stored rec cred none = bad (not_sendable rec)
  with_stored rec cred (some header) = good (record {
    secret = first_secret cred.secret;
    credential_name = rec.credential_name;
    endpoint = cred.endpoint;
    header = header;
    used_operator_fallback = false;
  })

  unfoldable pub choose :
      ExchangeDeps jose redis → SessionRecord → Option StoredCredential → Outcome Thrown Choice
  unfolding inference_auth_header
  choose deps rec (some cred) = with_stored rec cred (header_of cred.binding cred.secret)
  choose deps rec none = good (without_stored deps rec (operator_token deps rec))

  abbrev pub stored_for :
      ExchangeDeps jose redis → SessionRecord → Action Thrown redis.World (Option StoredCredential)
  stored_for deps rec =
      if rec.credential_name == "" then pure none else deps.stored rec.owner rec.credential_name

  abbrev pub decision_of : Choice → String
  decision_of choice =
      if choice.used_operator_fallback then "operator_fallback_used" else "credential_issued"

  abbrev pub not_this_session : String → Thrown
  not_this_session sid = cp_error session_not_found none (some sid)

  abbrev pub granted_as :
      ExchangeDeps jose redis → SessionRecord → Choice → String → String → Granted
  granted_as deps rec choice secret url = record {
    mode = mode_when deps.injector_configured;
    anthropic_auth_token = sent_value (mode_when deps.injector_configured) rec.owner secret;
    anthropic_base_url = url;
    session_id = rec.session_id;
    subject = rec.owner;
    auth_header = sent_header (mode_when deps.injector_configured) choice.header;
  }

  -- After the session is known.
  unfoldable pub grant : ExchangeDeps jose redis → SessionRecord → Action Thrown redis.World Granted
  unfolding choose direct_mode_mismatch audit
  grant deps rec = do
    stored ← stored_for deps rec
    choice ← lift (choose deps rec stored)
    secret ← lift (need (filled choice.secret) (nothing_to_spend rec))
    url ← lift (
        need (filled (or_else choice.endpoint deps.default_inference_endpoint))
          (no_endpoint rec choice.credential_name))
    lift (check_mode (mode_when deps.injector_configured) choice secret (deps.hostname url) rec)
    audit redis (record {
      subject = rec.owner;
      session_id = some rec.session_id;
      credential = some choice.credential_name;
      decision = decision_of choice;
    })
    pure (granted_as deps rec choice secret url)

  unfoldable pub exchange_credential :
      ExchangeDeps jose redis → Text → Action Thrown redis.World Granted
  unfolding verify_token get_session grant
  exchange_credential deps token = do
    claims ←
        lift (verify_token jose token deps.verify_keys (deps.now_ms / 1000) (some "turn:write"))
    sid ← lift (need (truthy (prop claims "sid")) (refusal token_invalid "token names no session"))
    found ← get_session redis (sid_text deps sid)
    rec ← lift (
        need (owned_by (string_of (prop claims "sub")) found)
          (not_this_session (sid_text deps sid)))
    lift (require (not rec.tombstone) (not_this_session (sid_text deps sid)))
    grant deps rec
