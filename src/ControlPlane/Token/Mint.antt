-- ===== src/ControlPlane/Token/Mint.antt =====
-- `makeSigner` of token.ts, and what `verifyToken` makes of a token that it minted.
use Prim.Native.String.{◌++◌ as join}
use serverless_harness.Base.{
  ℕ, ◌+◌, String, ◌≡◌, ◌≢◌, refl, ap, Bool, true, false, Option, none, some, List, [], ◌∷◌, ◌==◌,
  if◌then◌else◌, ltb, Text, get, codes, any, split_on, Outcome, good, bad, ◌>>=◌, ◌>>◌, require,
  need, string_key, text_key, Lacks, Bool-cases, arith, inl, inr,
}
use serverless_harness.Harness.Json.{
  Json, number, string, array, object, Items, no_items, with_item, Fields, no_fields, with_field,
  whole,
}
use serverless_harness.ControlPlane.Errors.{Thrown, unrecognised, refusal, token_expired}
use serverless_harness.ControlPlane.Token.{
  Jose, Keyset, Parts, three_parts, parsed_object, token_audience, default_issuer, compact,
  signing_input, key_id_for, ed25519, check_claims, check_scope, any_item, verify_token, invalid,
}
use serverless_harness.ControlPlane.Token.Verified.{
  IsSigned, IsCompact-split_on, IsSigned-check_signature,
}

pub record MintInput : Type 0 where
  pub sub : String
  pub tenant : String
  pub roles : List String
  pub scope : List String
  pub ttl_seconds : ℕ
  pub sid : Option String
  pub iss : Option String

abbrev pub items_of : List String → Items
items_of [] = no_items
items_of (s ∷ ss) = with_item (string s) (items_of ss)

abbrev pub text_or : String → Option String → String
text_or default none = default
text_or default (some s) = s

-- `...(input.sid ? { sid: input.sid } : {})`
abbrev pub sid_field : Option String → Fields
sid_field none = no_fields
sid_field (some sid) = if sid == "" then no_fields else with_field "sid" (string sid) no_fields

-- The claims, minted at `iat` with the random id `jti`.
abbrev pub token_claims : MintInput → ℕ → String → Json
token_claims input iat jti = object (
    with_field "iss" (string (text_or default_issuer input.iss)) (
      with_field "aud" (string token_audience) (
        with_field "sub" (string input.sub) (
          with_field "tenant" (string input.tenant) (
            with_field "roles" (array (items_of input.roles)) (
              with_field "scope" (array (items_of input.scope)) (
                with_field "iat" (number (whole iat)) (
                  with_field "exp" (number (whole (iat + input.ttl_seconds)))
                    (with_field "jti" (string jti) (sid_field input.sid))))))))))

abbrev pub token_header : String → Json
token_header kid = object (
    with_field "alg" (string "EdDSA")
      (with_field "typ" (string "JWT") (with_field "kid" (string kid) no_fields)))

module _ (jose : Jose) where
  pub record Signer : Type 0 where
    pub key : jose.Private
    pub kid : String

  -- `makeSigner` of a key that was read.
  unfoldable pub make_signer : jose.Private → Option Text → Outcome Thrown Signer
  make_signer key kind = do
    kind ← need kind unrecognised
    require (kind == ed25519) unrecognised
    good (record { key = key; kid = key_id_for jose (jose.public_of key) })

  unfoldable pub mint : Signer → MintInput → ℕ → String → Text
  mint signer input iat jti =
      let header = jose.encode (token_header signer.kid) in
      let payload = jose.encode (token_claims input iat jti) in
      compact header payload (jose.sign signer.key (signing_input header payload))

  -- What RFC 4648 and RFC 8032 say: base64url has no dot and is not empty here, and a signature is one
  -- that its public key verifies.
  pub record Documented : Type 0 where
    pub encode-Lacks : (j : Json) → Lacks b'.' (jose.encode j)
    pub encode-nonempty : (j : Json) → jose.encode j ≢ []
    pub sign-Lacks : (k : jose.Private) (m : Text) → Lacks b'.' (jose.sign k m)
    pub sign-nonempty : (k : jose.Private) (m : Text) → jose.sign k m ≢ []
    pub sign-verify :
        (k : jose.Private) (m : Text) → jose.verify (jose.public_of k) m (jose.sign k m) ≡ true

  -- The JSON text of a value parses to it.
  abbrev pub IsFaithful : Json → Type 0
  IsFaithful j = jose.decode (jose.encode j) ≡ some j

-- The scope that is wanted is one of those granted, or empty.
abbrev pub grants : List String → String → Bool
grants scope wanted = if wanted == "" then true else any (λ s. s == wanted) scope

any_item-items_of :
    (w : String) (ss : List String) → any_item w (items_of ss) ≡ any (λ s. s == w) ss
any_item-items_of w [] = refl
any_item-items_of w (s ∷ ss) = ground (arith, any_item-items_of w ss)

check_scope-items_of :
    (w : String) (ss : List String)
    → check_scope (some w) (some (array (items_of ss)))
      ≡ require (grants ss w) (invalid (join "token scope does not include " w))
unfolding ◌>>=◌
check_scope-items_of w ss = elim (Bool-cases (w == "")) [
  | inl blank ↦ rw blank refl
  | inr asked ↦ rw (asked, any_item-items_of w ss) refl
]

-- What a token with these claims is good for, at `now`.
abbrev pub minted_outcome : MintInput → ℕ → String → ℕ → String → Outcome Thrown Json
minted_outcome input iat jti now wanted =
    if ltb (iat + input.ttl_seconds) now
    then bad (refusal token_expired "token expired")
    else if grants input.scope wanted
    then good (token_claims input iat jti)
    else bad (invalid (join "token scope does not include " wanted))

module _ (jose : Jose) (laws : Documented jose) (signer : Signer jose) (input : MintInput) (iat : ℕ)
    (jti : String) where
  abbrev parts : Parts
  parts = record {
    header = jose.encode (token_header signer.kid);
    payload = jose.encode (token_claims input iat jti);
    signature = jose.sign signer.key (
        signing_input (jose.encode (token_header signer.kid))
          (jose.encode (token_claims input iat jti)));
  }

  mint-three_parts : three_parts (split_on b'.' (mint jose signer input iat jti)) ≡ some parts
  unfolding mint
  mint-three_parts = IsCompact-split_on (mint jose signer input iat jti) parts (
    refl,
    laws.encode-nonempty _,
    laws.encode-nonempty _,
    laws.sign-nonempty _ _,
    laws.encode-Lacks _,
    laws.encode-Lacks _,
    laws.sign-Lacks _ _,
  )

  check_claims-token_claims :
      (now : ℕ) (wanted : String)
      → input.iss ≡ none
      → (input.sub == "") ≡ false
      → check_claims jose now (some wanted) (token_claims input iat jti)
        ≡ minted_outcome input iat jti now wanted
  unfolding check_claims ◌>>=◌
  check_claims-token_claims now wanted issuer subject =
      rw (issuer, subject, check_scope-items_of wanted input.scope)
        (ground (arith, Bool-cases (grants input.scope wanted)))

  -- A token that was minted by the owner of a key of the set verifies to the claims it was minted with,
  -- through its last second and within its scope; after that it is refused as expired, and for another
  -- scope as invalid. Its issuer is the default one, and its subject is not empty.
  pub mint-verify_token :
      (keys : Keyset jose) (now : ℕ) (wanted : String)
      → get (codes signer.kid) keys ≡ some (jose.public_of signer.key)
      → IsFaithful jose (token_header signer.kid)
      → IsFaithful jose (token_claims input iat jti)
      → input.iss ≡ none
      → (input.sub == "") ≡ false
      → verify_token jose (mint jose signer input iat jti) keys now (some wanted)
        ≡ minted_outcome input iat jti now wanted
  unfolding verify_token ◌>>=◌
  mint-verify_token keys now wanted known header payload issuer subject =
      let signed : IsSigned jose keys parts = (
        token_header signer.kid,
        signer.kid,
        jose.public_of signer.key,
        ap parsed_object header,
        refl,
        refl,
        known,
        laws.sign-verify signer.key _,
      ) in
      rw (mint-three_parts, IsSigned-check_signature jose keys parts signed, payload)
        (check_claims-token_claims now wanted issuer subject)
