-- ===== src/KnativeServer/TurnAuth/Tests.antt =====
-- Turns with the token of the small signer, and a control plane that answers it.
use serverless_harness.Base.{
  String, ◌≡◌, refl, ◌⊎◌, true, false, none, some, [], ◌∷◌, if◌then◌else◌, Text, good, bad, ◌>>=◌,
  text_beq, split_on, digits,
}
use serverless_harness.Supervisor.Head.{to_lower}
use serverless_harness.Harness.Json.{Json, string, object, no_fields, with_field}
use serverless_harness.ControlPlane.Errors.{
  refusal, cp_error, credential_unavailable, session_mismatch, unauthorized, token_required,
  code_text,
}
use serverless_harness.ControlPlane.Token.{check_claims, check_signature, verify_token}
use serverless_harness.ControlPlane.Token.Tests.{toy, keys, token}
use serverless_harness.KnativeServer.TurnAuth.{
  Headers, one, many, bearer, Reply, answered, unreachable, cut_off, TurnAuthDeps, direct, TurnAuth,
  exchange_body, exchange_reply, exchange, resolve_token, resolve_turn_auth, authorize_run_read,
  authenticate_subject, reply_at,
}
use serverless_harness.KnativeServer.TurnAuth.Bound.{Presents, IsBound, resolve_turn_auth-IsBound}
use serverless_harness.KnativeServer.TurnAuth.Blamed.{IsCode, IsPassed, exchange-IsPassed}

run_auth : Unit {0}
unfolding split_on digits text_beq check_signature check_claims verify_token ◌>>=◌ code_text bearer
    to_lower exchange_body exchange_reply exchange resolve_token resolve_turn_auth
    authorize_run_read authenticate_subject
run_auth = tt

-- `bearer h.p.aaaa`
abbrev headers : Headers
headers = ("authorization", one "bearer  h.p.aaaa") ∷ ("x-sh-subject", many ("ada" ∷ [])) ∷ []

abbrev body : Json
body = object (
    with_field "mode" (string "direct") (
      with_field "anthropicAuthToken" (string "secret")
        (with_field "anthropicBaseUrl" (string "https://gateway") no_fields)))

abbrev deps_with : (Text → Reply) → TurnAuthDeps toy
deps_with fetch = record {
  keys = keys;
  require_auth = true;
  control_plane_url = some "http://cp";
  exchange_token = none;
  fetch = λ url exchange_token presented. fetch presented;
  now_ms = 1060999;
}

abbrev deps : TurnAuthDeps toy
deps =
    deps_with
      λ presented. if text_beq presented token then answered 200 (some body) else unreachable

abbrev turn : TurnAuth
turn = record {
  subject = "ada";
  session_id = string "s1";
  credential = record { mode = direct; value = "secret"; header = none };
  anthropic_base_url = "https://gateway";
}

auth_tests :
    (resolve_turn_auth toy headers (some "s1") deps ≡ good (some turn))
    × (resolve_turn_auth toy [] none deps
        ≡ bad (refusal token_required "this deployment requires a token"))
    × (resolve_turn_auth toy headers (some "s2") deps
        ≡ bad (cp_error session_mismatch (some "token does not name this session") (some "s2")))
    × (authorize_run_read toy headers "s1" deps ≡ good true)
    × (authenticate_subject toy headers deps ≡ good (some "ada"))
    × (exchange toy token (deps_with λ presented. answered 500 none)
        ≡ bad (refusal credential_unavailable "control plane returned a non-JSON body"))
unfolding run_auth
auth_tests = (refl, refl, refl, refl, refl, refl)

resolve_turn_auth-IsBound_example :
    ((bearer headers ≡ none) × (deps.require_auth ≡ false) × (some turn ≡ none))
    ⊎ ((presented : Text) × (payload : Json) × (auth : TurnAuth) × (some turn ≡ some auth)
        × Presents toy headers deps presented payload
        × IsBound toy headers deps (some "s1") auth presented payload)
unfolding run_auth
resolve_turn_auth-IsBound_example =
    resolve_turn_auth-IsBound toy headers deps (some "s1") (some turn) refl

abbrev down : TurnAuthDeps toy
down = deps_with λ presented. unreachable

exchange-IsPassed_example :
    let e = refusal credential_unavailable "control plane unreachable" in
    (IsPassed e × ¬ IsCode unauthorized e)
    ⊎ ((url : String) × (down.control_plane_url ≡ some url)
        × (reply_at toy down url token ≡ cut_off))
unfolding run_auth
exchange-IsPassed_example =
    exchange-IsPassed toy token down (refusal credential_unavailable "control plane unreachable")
      refl
