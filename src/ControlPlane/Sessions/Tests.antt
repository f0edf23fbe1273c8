-- ===== src/ControlPlane/Sessions/Tests.antt =====
-- Sessions of the small signer, in the Redis of functions.
use Prim.Native.Nat.{◌/◌}
use serverless_harness.Base.{
  ◌+◌, ◌≡◌, refl, String, Bool, true, false, none, some, [], ◌∷◌, ltb, string_key, good, bad, ◌>>=◌,
  digits,
}
use serverless_harness.Base.Actions.{◌>>=◌ as and_then}
use serverless_harness.Harness.Json.{Number, whole}
use serverless_harness.ControlPlane.Errors.{
  cp_error, refusal, session_not_found, credential_ambiguous, forbidden,
}
use serverless_harness.ControlPlane.Token.Mint.{mint}
use serverless_harness.ControlPlane.Token.Tests.{toy as jose, signer, token}
use serverless_harness.ControlPlane.Ownership.{
  guard, create, get_session, get_runtime, tombstone, audit, put_runtime, cascade_delete,
  SessionRecord,
}
use serverless_harness.ControlPlane.Ownership.Records.{record_in}
use serverless_harness.ControlPlane.Ownership.Tests.{toy as redis, laws, made, session}
use serverless_harness.ControlPlane.Sessions.{
  Principal, CredentialDescriptor, inference, sandbox_egress, resolve_inference_name, SessionDeps,
  SessionToken, assert_owner, mint_session_token, create_session, listed_owner, turn_in_flight,
  delete_session,
}
use serverless_harness.ControlPlane.Sessions.Owned.{mint_session_token-IsOwned}

run_sessions : Unit {0}
unfolding digits ◌>>=◌ and_then mint guard create get_session get_runtime tombstone audit
    put_runtime cascade_delete resolve_inference_name assert_owner mint_session_token create_session
    listed_owner turn_in_flight delete_session
run_sessions = tt

abbrev exceeds : Number → Number → Bool
exceeds (whole a) (whole b) = ltb b a
exceeds _ _ = false

abbrev key_of : String → CredentialDescriptor
key_of name = record { name = name; consumer = inference }

abbrev deps : SessionDeps jose redis
deps = record {
  signer = signer;
  list_credentials = λ owner w.
      (w, good (key_of "anthropic" ∷ record { name = "git"; consumer = sandbox_egress } ∷ []));
  allow_operator_fallback = true;
  operator_inference_token = some "operator";
  session_token_ttl_seconds = 60;
  now_ms = 1000;
  new_id = "s2";
  jti = "j";
  exceeds = exceeds;
}

abbrev ada : Principal
ada = record { sub = "ada"; tenant = none; roles = [] }

abbrev eve : Principal
eve = record { sub = "eve"; tenant = none; roles = [] }

abbrev minted : SessionToken
minted = record { session_id = "s1"; token = token; expires_at = 61 }

session_tests :
    ((mint_session_token jose redis deps "s1" (some ada) made).1 ≡ good minted)
    × ((mint_session_token jose redis deps "s1" (some eve) made).1
        ≡ bad (cp_error session_not_found none (some "s1")))
    × ((mint_session_token jose redis deps "s9" (some eve) made).1
        ≡ bad (cp_error session_not_found none (some "s9")))
    × ((mint_session_token jose redis deps "s1" (some ada) (tombstone redis "s1" made).0).1
        ≡ bad (cp_error session_not_found none (some "s1")))
    × ((delete_session jose redis deps "s1" (some eve) made).1
        ≡ bad (cp_error session_not_found none (some "s1")))
    × ((delete_session jose redis deps "s1" (some ada) made).1 ≡ good 204)
    × ((delete_session jose redis deps "s1"
          (some ada)
          (put_runtime redis "s1" (("turnStartedAt", "II") ∷ []) made).0).1
        ≡ good 202)
    × ((get_session redis "s2" (create_session jose redis deps (some ada) none made).0).1
        ≡ good (some (record session { session_id = "s2"; created_at = whole 1000 })))
unfolding run_sessions
session_tests = (refl, refl, refl, refl, refl, refl, refl, refl)

name_tests :
    (resolve_inference_name (key_of "a" ∷ key_of "b" ∷ []) none
      ≡ bad (refusal credential_ambiguous "several inference credentials (a, b); name one"))
    × (resolve_inference_name (key_of "a" ∷ key_of "b" ∷ []) (some "b") ≡ good "b")
    × (listed_owner jose redis eve (some "ada")
        ≡ bad (refusal forbidden "?owner= requires the admin role"))
unfolding run_sessions
name_tests = (refl, refl, refl)

mint_session_token-IsOwned_example :
    (p : Principal) × (rec : SessionRecord) × (some ada ≡ some p)
    × (record_in redis.read_number (redis.view made) "s1" ≡ some rec)
    × (p.sub ≡ rec.owner)
    × (rec.tombstone ≡ false)
    × (minted.session_id ≡ rec.session_id)
    × (minted.expires_at ≡ deps.now_ms / 1000 + deps.session_token_ttl_seconds)
    × (minted.token
        ≡ mint jose deps.signer
            (record {
              sub = rec.owner;
              tenant = rec.tenant;
              roles = p.roles;
              scope = "turn:write" ∷ [];
              ttl_seconds = deps.session_token_ttl_seconds;
              sid = some rec.session_id;
              iss = none;
            })
            (deps.now_ms / 1000)
            "j")
unfolding run_sessions
mint_session_token-IsOwned_example =
    mint_session_token-IsOwned jose redis laws deps "s1" (some ada) made made minted refl
