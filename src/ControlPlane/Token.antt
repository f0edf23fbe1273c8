-- ===== src/ControlPlane/Token.antt =====
-- packages/control-plane/src/token.ts: the session token, a compact JWS signed with Ed25519. Cryptography, base64,
-- JSON and the random id are the parameter `Jose`.
pub mod Verified
pub mod Refused
pub mod Mint
pub mod Keys
pub mod Tests
use Prim.Native.String.{◌++◌ as join}
use serverless_harness.Base.{
  ℕ, suc, ◌+◌, String, ◌≡◌, Bool, true, false, not, Option, none, some, List, [], ◌∷◌, ◌++◌, map,
  ◌==◌, if◌then◌else◌, ltb, Text, get, set, codes, split_on, strip, cut_at, includes, slice_to,
  Outcome, good, bad, ◌>>=◌, ◌>>◌, require, need, string_key, text_key,
}
use serverless_harness.Harness.Json.{
  Json, null, boolean, number, string, array, object, Items, no_items, with_item, Fields, no_fields,
  with_field, Number, whole, other, prop, is_text, string_of, number_of,
}
use serverless_harness.ControlPlane.Errors.{
  CpErrorCode, token_invalid, token_expired, Thrown, cp, unrecognised, refusal,
}

-- What the code uses of node:crypto, Buffer and JSON. `encode` is the base64url of the JSON text of a value,
-- and `decode` is `JSON.parse` of what a segment decodes to, `none` where it throws. `above now n` says
-- that `now` is more than a number that is not a natural one.
pub record Jose : Type 1 where
  pub Key : Type 0
  pub Private : Type 0
  pub create_public_key : Text → Option Key
  pub asymmetric_key_type : Key → Option Text
  pub spki_sha256_hex : Key → String
  pub public_of : Private → Key
  pub sign : Private → Text → Text
  pub verify : Key → Text → Text → Bool
  pub encode : Json → Text
  pub decode : Text → Option Json
  pub above : ℕ → String → Bool

abbrev pub token_audience : String
token_audience = "harness"

abbrev pub default_issuer : String
default_issuer = "sh-control-plane"

abbrev pub ed25519 : Text
ed25519 = codes "ed25519"

-- `bad(why)`
abbrev pub invalid : String → Thrown
invalid why = refusal token_invalid why

-- The two dots of a token.
abbrev pub signing_input : Text → Text → Text
signing_input header payload = header ++ b'.' ∷ payload

abbrev pub compact : Text → Text → Text → Text
compact header payload signature = signing_input header payload ++ b'.' ∷ signature

-- What stands between the dots.
pub record Parts : Type 0 where
  pub header : Text
  pub payload : Text
  pub signature : Text

-- Three parts, none of them empty.
abbrev pub three_parts : List Text → Option Parts
three_parts ((a ∷ h) ∷ (b ∷ p) ∷ (c ∷ s) ∷ []) =
    some (record { header = a ∷ h; payload = b ∷ p; signature = c ∷ s })
three_parts _ = none

-- `typeof value === 'object' && value !== null`, of a value that was parsed.
abbrev pub parsed_object : Option Json → Option Json
parsed_object (some (object fields)) = some (object fields)
parsed_object (some (array items)) = some (array items)
parsed_object _ = none

abbrev pub non_empty_string : Option Json → Option String
non_empty_string (some (string s)) = if s == "" then none else some s
non_empty_string _ = none

module _ (jose : Jose) where
  abbrev pub require_ed25519 : jose.Key → Option Text → Outcome Thrown jose.Key
  require_ed25519 key none = bad unrecognised
  require_ed25519 key (some kind) = if kind == ed25519 then good key else bad unrecognised

  abbrev pub public_key_from_base64 : Text → Outcome Thrown jose.Key
  public_key_from_base64 b64 = do
    key ← need (jose.create_public_key b64) unrecognised
    require_ed25519 key (jose.asymmetric_key_type key)

  abbrev pub key_id_for : jose.Key → String
  key_id_for key = slice_to 16 (jose.spki_sha256_hex key)

  abbrev pub Keyset : Type 0
  Keyset = List (Text × jose.Key)

  -- `<kid>:<base64 SPKI>`, the kid not empty before it is trimmed.
  abbrev pub entry_parts : Option (Text × Text) → Outcome Thrown (Text × Text)
  entry_parts (some ((a ∷ kid), b64)) = good (strip (a ∷ kid), strip b64)
  entry_parts _ = bad unrecognised

  unfoldable pub keyset_entry : Text → Keyset → Outcome Thrown Keyset
  keyset_entry entry keys = do
    parts ← entry_parts (cut_at b':' entry)
    key ← public_key_from_base64 parts.1
    require (codes (key_id_for key) == parts.0) unrecognised
    good (set parts.0 key keys)

  abbrev pub keyset_step : Text → Keyset → Outcome Thrown Keyset
  keyset_step [] keys = good keys
  keyset_step (c ∷ entry) keys = keyset_entry (c ∷ entry) keys

  unfoldable pub keyset_entries : List Text → Keyset → Outcome Thrown Keyset
  unfolding keyset_entry
  keyset_entries [] keys = good keys
  keyset_entries (entry ∷ entries) keys = do
    more ← keyset_step (strip entry) keys
    keyset_entries entries more

  unfoldable pub parse_keyset : Option Text → Outcome Thrown Keyset
  unfolding keyset_entries split_on
  parse_keyset none = keyset_entries (split_on b',' []) []
  parse_keyset (some raw) = keyset_entries (split_on b',' raw) []

  -- The header, and the signature over the first two parts.
  unfoldable pub check_signature : Keyset → Parts → Outcome Thrown (Unit {0})
  check_signature keys parts = do
    header ← need (parsed_object (jose.decode parts.header)) (invalid "unparseable token header")
    require (is_text "EdDSA" (prop header "alg")) (invalid "unsupported alg")
    kid ← need (string_of (prop header "kid")) (invalid "token header has no kid")
    key ← need (get (codes kid) keys) (invalid "unknown token key id")
    require (jose.verify key (signing_input parts.header parts.payload) parts.signature)
        (invalid "bad token signature")

  -- `now > exp`
  abbrev pub is_past : ℕ → Number → Bool
  is_past now (whole exp) = ltb exp now
  is_past now (other exp) = jose.above now exp

abbrev pub any_item : String → Items → Bool
any_item text no_items = false
any_item text (with_item item items) =
    if is_text text (some item) then true else any_item text items

-- `(scope ?? []).includes(wanted)`, which throws on a value that has no such method.
abbrev pub scope_includes : String → Option Json → Outcome Thrown Bool
scope_includes wanted none = good false
scope_includes wanted (some null) = good false
scope_includes wanted (some (array items)) = good (any_item wanted items)
scope_includes wanted (some (string scope)) = good (includes (codes wanted) (codes scope))
scope_includes wanted (some _) = bad unrecognised

-- An empty scope is as good as none.
abbrev pub check_wanted : Bool → String → Option Json → Outcome Thrown (Unit {0})
check_wanted true wanted scope = good tt
check_wanted false wanted scope = do
  included ← scope_includes wanted scope
  require included (invalid (join "token scope does not include " wanted))

abbrev pub check_scope : Option String → Option Json → Outcome Thrown (Unit {0})
check_scope none scope = good tt
check_scope (some wanted) scope = check_wanted (wanted == "") wanted scope

module _ (jose : Jose) where
  unfoldable pub check_claims : ℕ → Option String → Json → Outcome Thrown Json
  check_claims now required_scope claims = do
    require (is_text token_audience (prop claims "aud")) (invalid "wrong token audience")
    require (is_text default_issuer (prop claims "iss")) (invalid "wrong token issuer")
    need (non_empty_string (prop claims "sub")) (invalid "token has no subject")
    exp ← need (number_of (prop claims "exp")) (invalid "token has no expiry")
    require (not (is_past jose now exp)) (refusal token_expired "token expired")
    check_scope required_scope (prop claims "scope")
    good claims

  -- The claims of the token; they are the payload as it was parsed.
  unfoldable pub verify_token : Text → Keyset jose → ℕ → Option String → Outcome Thrown Json
  unfolding split_on check_signature check_claims
  verify_token token keys now required_scope = do
    parts ← need (three_parts (split_on b'.' token)) (invalid "malformed token")
    check_signature jose keys parts
    claims ← need (parsed_object (jose.decode parts.payload)) (invalid "unparseable token payload")
    check_claims now required_scope claims
