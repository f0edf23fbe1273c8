-- ===== src/ControlPlane/Token/Tests.antt =====
-- Tokens of a small signer: there are two keys, and a signature is as long as what it signs.
use Prim.Native.String.{String}
use serverless_harness.Base.{
  ◌≡◌, ◌≢◌, refl, ◌↔◌, Bool, true, false, Option, none, some, [], ◌∷◌, map, if◌then◌else◌, nat_beq,
  Text, text_beq, text_key, string_key, codes, Lacks, good, bad, ◌>>=◌, split_on, digits,
}
use serverless_harness.Harness.Json.{Json, prop}
use serverless_harness.ControlPlane.Errors.{
  Thrown, refusal, token_expired, token_invalid, write_error, status_for, error_body, code_text,
}
use serverless_harness.ControlPlane.Token.{
  Jose, Keyset, compact, keyset_entry, keyset_entries, parse_keyset, check_signature, check_claims,
  verify_token, invalid,
}
use serverless_harness.ControlPlane.Token.Verified.{IsAccepted, verify_token_iff}
use serverless_harness.ControlPlane.Token.Refused.{IsRefused, verify_token-IsRefused}
use serverless_harness.ControlPlane.Token.Mint.{
  MintInput, token_claims, token_header, Signer, make_signer, mint, Documented, minted_outcome,
  mint-verify_token,
}
use serverless_harness.ControlPlane.Token.Keys.{IsKeyset, parse_keyset-IsKeyset}

run_token : Unit {0}
unfolding split_on digits text_beq keyset_entry keyset_entries parse_keyset check_signature
    check_claims verify_token make_signer mint ◌>>=◌ write_error error_body status_for code_text
run_token = tt

abbrev pub input : MintInput
input = record {
  sub = "ada";
  tenant = "ada";
  roles = [];
  scope = "turn:write" ∷ [];
  ttl_seconds = 60;
  sid = some "s1";
  iss = none;
}

abbrev pub claims : Json
claims = token_claims input 1000 "j"

abbrev pub kid : String
kid = "0123456789abcdef"

abbrev sign : Bool → Text → Text
sign k m = (if k then 97 else 98) ∷ map (λ _. 97) m

-- A header is `h`, and any other value `p`.
abbrev segment : Option Json → Text
segment none = 112 ∷ []
segment (some alg) = 104 ∷ []

abbrev parse : Text → Option Json
parse (a ∷ []) =
    if nat_beq a 104 then some (token_header kid) else if nat_beq a 112 then some claims else none
parse _ = none

abbrev pub toy : Jose
toy = record {
  Key = Bool;
  Private = Bool;
  create_public_key = λ b64. if text_beq b64 (codes "AA") then some true else none;
  asymmetric_key_type = λ k. some (codes "ed25519");
  spki_sha256_hex = λ k. if k then "0123456789abcdef0" else "f";
  public_of = λ k. k;
  sign = sign;
  verify = λ k m s. text_beq s (sign k m);
  encode = λ j. segment (prop j "alg");
  decode = parse;
  above = λ now n. false;
}

abbrev pub keys : Keyset toy
keys = (codes kid, true) ∷ []

abbrev pub signer : Signer toy
signer = record { key = true; kid = kid }

abbrev pub token : Text
token = compact (104 ∷ []) (112 ∷ []) (97 ∷ 97 ∷ 97 ∷ 97 ∷ [])

token_tests :
    (mint toy signer input 1000 "j" ≡ token)
    × (verify_token toy token keys 1060 (some "turn:write") ≡ good claims)
    × (verify_token toy token keys 1061 none ≡ bad (refusal token_expired "token expired"))
    × (verify_token toy token keys 5 (some "api")
        ≡ bad (invalid "token scope does not include api"))
    × (verify_token toy token [] 5 none ≡ bad (invalid "unknown token key id"))
    × (parse_keyset toy (some (codes " 0123456789abcdef : AA ,")) ≡ good keys)
unfolding run_token
token_tests = (refl, refl, refl, refl, refl, refl)

error_tests :
    (write_error true (invalid "x") ≡ none)
    × (write_error false (invalid "x")
        ≡ some
            (401, error_body (record { code = token_invalid; message = "x"; session_id = none })))
unfolding run_token
error_tests = (refl, refl)

verify_token_iff_example :
    (verify_token toy token keys 1060 (some "turn:write") ≡ good claims)
    ↔ IsAccepted toy token keys 1060 (some "turn:write") claims
verify_token_iff_example = verify_token_iff toy token keys 1060 (some "turn:write") claims

abbrev expired : Thrown
expired = refusal token_expired "token expired"

verify_token-IsRefused_example : IsRefused toy token keys 1061 none expired
unfolding run_token
verify_token-IsRefused_example = verify_token-IsRefused toy token keys 1061 none expired refl

map-Lacks : (m : Text) → Lacks b'.' (map (λ _. 97) m)
map-Lacks [] = tt
map-Lacks (c ∷ m) = (refl, map-Lacks m)

sign-Lacks : (k : Bool) (m : Text) → Lacks b'.' (sign k m)
sign-Lacks true m = (refl, map-Lacks m)
sign-Lacks false m = (refl, map-Lacks m)

sign-nonempty : (k : Bool) (m : Text) → sign k m ≢ []
sign-nonempty k m = λ h. cc

segment-Lacks : (o : Option Json) → Lacks b'.' (segment o)
segment-Lacks none = (refl, tt)
segment-Lacks (some alg) = (refl, tt)

segment-nonempty : (o : Option Json) → segment o ≢ []
segment-nonempty none = λ h. cc
segment-nonempty (some alg) = λ h. cc

abbrev toy_documented : Documented toy
toy_documented = record {
  encode-Lacks = λ j. segment-Lacks (prop j "alg");
  encode-nonempty = λ j. segment-nonempty (prop j "alg");
  sign-Lacks = sign-Lacks;
  sign-nonempty = sign-nonempty;
  sign-verify = λ k m. (text_key.same_iff (sign k m) (sign k m)).1 refl;
}

mint-verify_token_example :
    verify_token toy (mint toy signer input 1000 "j") keys 1060 (some "turn:write")
    ≡ minted_outcome input 1000 "j" 1060 "turn:write"
unfolding text_beq
mint-verify_token_example =
    mint-verify_token toy toy_documented signer input 1000 "j" keys 1060 "turn:write" refl refl refl
      refl refl

abbrev entries : Text
entries = codes "0123456789abcdef:AA"

parse_keyset-IsKeyset_example : IsKeyset toy keys
unfolding run_token
parse_keyset-IsKeyset_example = parse_keyset-IsKeyset toy (some entries) keys refl
