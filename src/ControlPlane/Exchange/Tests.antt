-- ===== src/ControlPlane/Exchange/Tests.antt =====
-- Exchanges of the token of the small signer, for the session in the Redis of functions.
use Prim.Native.Nat.{◌/◌}
use serverless_harness.Base.{
  ◌≡◌, refl, String, true, false, Option, none, some, [], ◌∷◌, ◌==◌, if◌then◌else◌, string_key,
  good, bad, ◌>>=◌, split_on, digits, text_beq,
}
use serverless_harness.Base.Actions.{◌>>=◌ as and_then}
use serverless_harness.Supervisor.Head.{to_lower}
use serverless_harness.Harness.Json.{Json, prop, truthy, string_of}
use serverless_harness.ControlPlane.Errors.{cp_error, session_not_found}
use serverless_harness.ControlPlane.Token.{check_signature, check_claims, verify_token}
use serverless_harness.ControlPlane.Token.Verified.{IsAccepted}
use serverless_harness.ControlPlane.Token.Tests.{toy as jose, keys, token}
use serverless_harness.ControlPlane.Ownership.{
  SessionRecord, guard, create, get_session, tombstone, audit,
}
use serverless_harness.ControlPlane.Ownership.Records.{record_in}
use serverless_harness.ControlPlane.Ownership.Tests.{toy as redis, World, laws, made}
use serverless_harness.ControlPlane.Exchange.{
  StoredCredential, inference_auth_header, direct_mode_mismatch, ExchangeDeps, direct, Granted,
  x_api_key, choose, grant, exchange_credential, bearer_to_anthropic, raw_key_elsewhere,
  authorization, sid_text,
}
use serverless_harness.ControlPlane.Exchange.Spends.{IsGranted, exchange_credential-IsGranted}

run_exchange : Unit {0}
unfolding split_on digits text_beq ◌>>=◌ and_then to_lower check_signature check_claims verify_token
    guard create get_session tombstone audit inference_auth_header direct_mode_mismatch choose grant
    exchange_credential
run_exchange = tt

abbrev api_key : StoredCredential
api_key = record {
  binding = record { header = "X-API-Key"; format = "{key}" };
  endpoint = some "https://api.anthropic.com";
  secret = ("key", "sk-ant-api-1") ∷ [];
}

abbrev hostname : String → Option String
hostname url = if url == "https://api.anthropic.com" then some "api.anthropic.com" else none

abbrev deps : ExchangeDeps jose redis
deps = record {
  verify_keys = keys;
  now_ms = 1060999;
  stored = λ owner name w. (
    w,
    good (if owner == "ada" then (if name == "anthropic" then some api_key else none) else none),
  );
  allow_operator_fallback = true;
  operator_inference_token = some "operator";
  operator_inference_header = none;
  default_inference_endpoint = none;
  injector_configured = false;
  hostname = hostname;
  template = λ j. "";
}

abbrev granted : Granted
granted = record {
  mode = direct;
  anthropic_auth_token = "sk-ant-api-1";
  anthropic_base_url = "https://api.anthropic.com";
  session_id = "s1";
  subject = "ada";
  auth_header = some x_api_key;
}

exchange_tests :
    ((exchange_credential jose redis deps token made).1 ≡ good granted)
    × ((exchange_credential jose redis deps token (tombstone redis "s1" made).0).1
        ≡ bad (cp_error session_not_found none (some "s1")))
    × (direct_mode_mismatch authorization "t" (some "api.anthropic.com") ≡ some bearer_to_anthropic)
    × (direct_mode_mismatch x_api_key "sk-ant-api-1" none ≡ some raw_key_elsewhere)
unfolding run_exchange
exchange_tests = (refl, refl, refl, refl)

exchange_credential-IsGranted_example :
    (payload : Json) × (sid : Json) × (rec : SessionRecord) × (v : World) × IsAccepted jose token
      keys
      (1060999 / 1000)
      (some "turn:write")
      payload
    × (truthy (prop payload "sid") ≡ some sid)
    × (record_in redis.read_number (redis.view made) (sid_text jose redis deps sid) ≡ some rec)
    × (string_of (prop payload "sub") ≡ some rec.owner)
    × (rec.tombstone ≡ false)
    × (redis.view v ≡ redis.view made)
    × IsGranted jose redis laws deps rec v granted
unfolding run_exchange
exchange_credential-IsGranted_example =
    exchange_credential-IsGranted jose redis laws deps token made made granted refl
