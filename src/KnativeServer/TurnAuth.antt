-- ===== src/KnativeServer/TurnAuth.antt =====
-- packages/knative-server/src/turn-auth.ts: who the caller of a turn is, and with which credential it runs. The
-- control plane is asked by `fetch`, a parameter.
pub mod Bound
pub mod Blamed
pub mod Env
pub mod Tests
use Prim.Native.Nat.{◌/◌}
use Prim.Native.String.{◌++◌ as join}
use serverless_harness.Base.{
  ℕ, String, Bool, true, false, not, Option, none, some, List, [], ◌∷◌, ◌==◌, if◌then◌else◌, any,
  map, Text, get, codes, split_on, join_with, strip, Outcome, good, bad, ◌>>=◌, ◌>>◌, require, need,
  string_key, text_key, nat_beq, decimal,
}
use serverless_harness.Harness.Json.{
  truthy, Json, null, boolean, number, string, array, object, whole, other, prop, is_text,
  string_of,
}
use serverless_harness.Supervisor.Head.{to_lower}
use serverless_harness.ControlPlane.Errors.{
  CpErrorCode, credential_required, credential_ambiguous, credential_not_found,
  credential_unavailable, endpoint_unresolved, session_not_found, session_mismatch,
  subject_conflict, token_required, token_invalid, token_expired, code_text, Thrown, cp,
  unrecognised, cp_error, refusal,
}
use serverless_harness.ControlPlane.Token.{
  Jose, Keyset, verify_token, parse_keyset, non_empty_string,
}

-- A header that came once, or more than once.
pub data HeaderValue : Type 0 where
  one : String → HeaderValue
  many : List String → HeaderValue

abbrev pub Headers : Type 0
Headers = List (String × HeaderValue)

abbrev pub first_value : Option HeaderValue → Option String
first_value none = none
first_value (some (one v)) = some v
first_value (some (many [])) = none
first_value (some (many (v ∷ vs))) = some v

abbrev pub header : Headers → String → Option String
header headers name = first_value (get name headers)

abbrev pub present : Text → Option Text
present [] = none
present (c ∷ t) = some (c ∷ t)

-- `[scheme, ...rest]`
abbrev pub bearer_value : List Text → Option Text
bearer_value [] = none
bearer_value (scheme ∷ rest) =
    if map to_lower scheme == codes "bearer" then present (strip (join_with b' ' rest)) else none

unfoldable pub bearer : Headers → Option Text
unfolding split_on to_lower
bearer headers = elim (header headers "authorization") [
  | none ↦ none
  | some raw ↦ bearer_value (split_on b' ' (codes raw))
]

-- How `fetch` and `res.text()` end; the body is `none` where it does not parse.
pub data Reply : Type 0 where
  unreachable : Reply
  cut_off : Reply
  answered : ℕ → Option Json → Reply

-- `fetch` is given the url, the exchange token and the token.
pub record TurnAuthDeps (jose : Jose) : Type 0 where
  pub keys : Keyset jose
  pub require_auth : Bool
  pub control_plane_url : Option String
  pub exchange_token : Option String
  pub fetch : String → Option String → Text → Reply
  pub now_ms : ℕ

pub data Mode : Type 0 where
  direct placeholder : Mode

pub data AuthHeader : Type 0 where
  authorization x_api_key : AuthHeader

pub record ExchangeResponse : Type 0 where
  pub mode : Mode
  pub anthropic_auth_token : String
  pub anthropic_base_url : String
  pub auth_header : Option AuthHeader

abbrev pub passthrough : List CpErrorCode
passthrough =
    credential_required ∷ credential_ambiguous ∷ credential_not_found ∷ endpoint_unresolved
    ∷ session_not_found ∷ token_invalid ∷ token_expired ∷ []

-- `PASSTHROUGH.has(code)`, with the code.
abbrev pub code_in : List CpErrorCode → String → Option CpErrorCode
code_in [] text = none
code_in (code ∷ codes) text =
    let later = code_in codes text in if code_text code == text then some code else later

abbrev pub text_or_empty : Option Json → String
text_or_empty (some (string s)) = s
text_or_empty _ = ""

abbrev pub refused : ℕ → Option CpErrorCode → Option String → Thrown
refused status none message =
    refusal credential_unavailable (join "control plane returned " (decimal status))
refused status (some code) message = cp_error code message none

abbrev pub mode_of : Option Json → Option Mode
mode_of mode =
    if is_text "direct" mode
    then some direct
    else if is_text "placeholder" mode
    then some placeholder
    else none

-- `none` for a header that is not known.
abbrev pub auth_header_of : Option Json → Option (Option AuthHeader)
auth_header_of none = some none
auth_header_of (some value) =
    if is_text "authorization" (some value)
    then some (some authorization)
    else if is_text "x-api-key" (some value)
    then some (some x_api_key)
    else none

unfoldable pub exchange_body : Json → Outcome Thrown ExchangeResponse
exchange_body body = do
  mode ←
      need (mode_of (prop body "mode"))
        (refusal credential_unavailable "control plane returned an unknown credential mode")
  token ←
      need (non_empty_string (prop body "anthropicAuthToken"))
        (refusal credential_unavailable "control plane returned no credential")
  url ←
      need (non_empty_string (prop body "anthropicBaseUrl"))
        (refusal endpoint_unresolved "control plane returned no gateway endpoint")
  sent_in ←
      need (auth_header_of (prop body "authHeader"))
        (refusal credential_unavailable "control plane returned an unknown credential header")
  good (record {
    mode = mode;
    anthropic_auth_token = token;
    anthropic_base_url = url;
    auth_header = sent_in;
  })

unfoldable pub exchange_reply : Reply → Outcome Thrown ExchangeResponse
unfolding exchange_body code_text
exchange_reply unreachable = bad (refusal credential_unavailable "control plane unreachable")
exchange_reply cut_off = bad unrecognised
exchange_reply (answered status none) =
    bad (refusal credential_unavailable "control plane returned a non-JSON body")
exchange_reply (answered status (some body)) =
    if nat_beq status 200
    then exchange_body body
    else bad (
        refused status (code_in passthrough (text_or_empty (prop body "error")))
          (string_of (prop body "message")))

-- `!url`
abbrev pub truthy_text : Option String → Option String
truthy_text none = none
truthy_text (some s) = if s == "" then none else some s

pub record Credential : Type 0 where
  pub mode : Mode
  pub value : String
  pub header : Option AuthHeader

-- `session_id` is the claim as it was parsed.
pub record TurnAuth : Type 0 where
  pub subject : String
  pub session_id : Json
  pub credential : Credential
  pub anthropic_base_url : String

abbrev pub sent_header : Option AuthHeader → Option AuthHeader
sent_header (some x_api_key) = some x_api_key
sent_header _ = none

-- `given === undefined || given === value`
abbrev pub agrees : Option String → Option Json → Bool
agrees none value = true
agrees (some given) value = is_text given value

abbrev pub turn_of : Json → Json → ExchangeResponse → TurnAuth
turn_of claims sid resolved = record {
  subject = text_or_empty (prop claims "sub");
  session_id = sid;
  credential = record {
    mode = resolved.mode;
    value = resolved.anthropic_auth_token;
    header = sent_header resolved.auth_header;
  };
  anthropic_base_url = resolved.anthropic_base_url;
}

module _ (jose : Jose) where
  abbrev pub reply_at : TurnAuthDeps jose → String → Text → Reply
  reply_at deps url token =
      deps.fetch (join url "/internal/credentials") (truthy_text deps.exchange_token) token

  unfoldable pub exchange : Text → TurnAuthDeps jose → Outcome Thrown ExchangeResponse
  unfolding exchange_reply
  exchange token deps = do
    url ←
        need (truthy_text deps.control_plane_url)
          (refusal credential_unavailable "no control plane configured")
    exchange_reply (reply_at deps url token)

  -- The token is verified for a turn.
  abbrev pub claims_of : Text → TurnAuthDeps jose → Outcome Thrown Json
  claims_of token deps = verify_token jose token deps.keys (deps.now_ms / 1000) (some "turn:write")

  abbrev pub unauthenticated : {A : Type 0} → TurnAuthDeps jose → A → Outcome Thrown A
  unauthenticated deps a = do
    require (not deps.require_auth) (refusal token_required "this deployment requires a token")
    good a

  unfoldable pub resolve_token :
      Headers → Option String → TurnAuthDeps jose → Text → Outcome Thrown (Option TurnAuth)
  unfolding verify_token exchange
  resolve_token headers session deps token = do
    claims ← claims_of token deps
    sid ← need (truthy (prop claims "sid")) (refusal token_invalid "token names no session")
    require (agrees session (some sid))
        (cp_error session_mismatch (some "token does not name this session") session)
    require (agrees (header headers "x-sh-subject") (prop claims "sub"))
        (refusal subject_conflict "X-SH-Subject conflicts with the token subject")
    resolved ← exchange token deps
    good (some (turn_of claims sid resolved))

  unfoldable pub resolve_turn_auth :
      Headers → Option String → TurnAuthDeps jose → Outcome Thrown (Option TurnAuth)
  unfolding bearer resolve_token
  resolve_turn_auth headers session deps = elim (bearer headers) [
    | none ↦ unauthenticated deps none
    | some token ↦ resolve_token headers session deps token
  ]

  -- Reading a run of a session.
  abbrev pub authorize_token : String → TurnAuthDeps jose → Text → Outcome Thrown Bool
  authorize_token session deps token = do
    claims ← claims_of token deps
    require (is_text session (prop claims "sid"))
        (cp_error session_mismatch (some "token does not name this session") (some session))
    good true

  unfoldable pub authorize_run_read : Headers → String → TurnAuthDeps jose → Outcome Thrown Bool
  unfolding bearer verify_token
  authorize_run_read headers session deps = elim (bearer headers) [
    | none ↦ unauthenticated deps false
    | some token ↦ authorize_token session deps token
  ]

  abbrev pub subject_of_token : TurnAuthDeps jose → Text → Outcome Thrown (Option String)
  subject_of_token deps token = do
    claims ← claims_of token deps
    good (some (text_or_empty (prop claims "sub")))

  unfoldable pub authenticate_subject : Headers → TurnAuthDeps jose → Outcome Thrown (Option String)
  unfolding bearer verify_token
  authenticate_subject headers deps = elim (bearer headers) [
    | none ↦ unauthenticated deps none
    | some token ↦ subject_of_token deps token
  ]
