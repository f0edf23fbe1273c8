-- ===== src/KnativeServer/TurnAuth/Env.antt =====
-- turn-auth.ts: what a request reads from the environment of the process, and the fields that a turn reports.
use serverless_harness.Base.{
  ℕ, String, Bool, false, Option, none, some, List, [], ◌∷◌, ◌++◌, ◌==◌, Text, codes, Outcome, good,
  bad, ◌>>=◌, decimal, string_key, if◌then◌else◌,
}
use serverless_harness.ControlPlane.Errors.{Thrown, credential_unavailable, refusal}
use serverless_harness.ControlPlane.Token.{Jose, Keyset, parse_keyset}
use serverless_harness.KnativeServer.TurnAuth.{TurnAuthDeps, Reply, truthy_text}

-- `process.env`
abbrev pub Env : Type 0
Env = String → Option String

abbrev pub codes_of : Option String → Option Text
codes_of none = none
codes_of (some s) = some (codes s)

abbrev pub is_true : Option String → Bool
is_true (some s) = s == "true"
is_true none = false

module _ (jose : Jose) where
  abbrev pub usable : Outcome Thrown (Keyset jose) → Outcome Thrown (Keyset jose)
  usable (good keys) = good keys
  usable (bad e) = bad (refusal credential_unavailable "the token keyset is not usable")

  unfoldable pub keys_from_env : Option String → Outcome Thrown (Keyset jose)
  unfolding parse_keyset
  keys_from_env raw = usable (parse_keyset jose (codes_of raw))

  -- `exchange_token` is what `credentialValue` finds for `SH_EXCHANGE_TOKEN`.
  unfoldable pub turn_auth_deps_from_env :
      Env
      → Option String
      → (String → Option String → Text → Reply)
      → ℕ
      → Outcome Thrown (TurnAuthDeps jose)
  unfolding keys_from_env
  turn_auth_deps_from_env env exchange_token fetch now_ms = do
    keys ← keys_from_env (env "SH_SESSION_TOKEN_PUBLIC_KEYS")
    good (record {
      keys = keys;
      require_auth = is_true (env "SH_REQUIRE_AUTH");
      control_plane_url = truthy_text (env "SH_CONTROL_PLANE_URL");
      exchange_token = exchange_token;
      fetch = fetch;
      now_ms = now_ms;
    })

-- `if (value) fields.name = value`
abbrev pub field_if : String → Option String → List (String × String)
field_if name none = []
field_if name (some value) = if value == "" then [] else (name, value) ∷ []

abbrev pub sandbox_fields : Option String → Option String → List (String × String)
sandbox_fields none selector = field_if "sandboxSelector" selector
sandbox_fields (some pod) selector = ("sandboxPod", pod) ∷ []

pub data Phase : Type 0 where
  start end : Phase

abbrev pub phase_fields : Phase → String → List (String × String)
phase_fields start now = ("turnStartedAt", now) ∷ []
phase_fields end now = ("turnEndedAt", now) ∷ ("lastTurnAt", now) ∷ []

unfoldable pub runtime_fields_for_turn : Env → Phase → ℕ → List (String × String)
runtime_fields_for_turn env phase now =
    field_if "harnessPod" (env "HOSTNAME")
    ++ field_if "revision" (env "K_REVISION")
    ++ sandbox_fields (truthy_text (env "KAGENTI_SANDBOX_POD"))
        (env "KAGENTI_SANDBOX_POOL_SELECTOR")
    ++ phase_fields phase (decimal now)
