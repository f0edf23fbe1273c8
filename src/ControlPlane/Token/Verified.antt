-- ===== src/ControlPlane/Token/Verified.antt =====
-- What `verifyToken` accepts, as a flat description of the token, and in which order it refuses.
use serverless_harness.Base.{
  ℕ, String, ◌≡◌, refl, sym, ap, ◌∙◌, ◌↔◌, ◌≢◌, Bool, true, false, not, Option, some, List, [], ◌∷◌,
  ◌++◌, Text, get, codes, split_on, Lacks, good, ◌>>=◌, string_key, text_key, >>=-good,
  require-good, need-good, subst, some_inj, split_on-append, split_on-Lacks, split_on-All-Lacks,
  join_with-split_on, join_with, All,
}
use mathlib.Core.List.{append_assoc}
use serverless_harness.Harness.Json.{Json, prop, is_text, string_of, number_of, Number}
use serverless_harness.ControlPlane.Token.{
  Jose, Keyset, Parts, three_parts, parsed_object, non_empty_string, signing_input, compact,
  check_signature, check_claims, check_scope, verify_token, is_past, token_audience, default_issuer,
}

module _ (jose : Jose) (keys : Keyset jose) where
  -- The header names EdDSA and a key of the set, and the signature over the first two parts is of
  -- that key.
  abbrev pub IsSigned : Parts → Type 0
  IsSigned parts =
      (header : Json) × (kid : String) × (key : jose.Key) × (parsed_object
          (jose.decode parts.header)
        ≡ some header)
      × (is_text "EdDSA" (prop header "alg") ≡ true)
      × (string_of (prop header "kid") ≡ some kid)
      × (get (codes kid) keys ≡ some key)
      × (jose.verify key (signing_input parts.header parts.payload) parts.signature ≡ true)

  pub check_signature-IsSigned :
      (parts : Parts) (u : Unit {0}) → check_signature jose keys parts ≡ good u → IsSigned parts
  unfolding check_signature
  check_signature-IsSigned parts u h =
      let (header, e, h1) = >>=-good _ _ u h in
      let (_, alg, h2) = >>=-good _ _ u h1 in
      let (kid, k, h3) = >>=-good _ _ u h2 in
      let (key, g, h4) = >>=-good _ _ u h3 in
      (
        header,
        kid,
        key,
        need-good _ _ header e,
        require-good _ _ _ alg,
        need-good _ _ kid k,
        need-good _ _ key g,
        require-good _ _ u h4,
      )

  pub IsSigned-check_signature :
      (parts : Parts) → IsSigned parts → check_signature jose keys parts ≡ good tt
  unfolding check_signature ◌>>=◌
  IsSigned-check_signature parts (header, kid, key, e, alg, k, g, v) = rw (e, alg, k, g, v) refl

-- Three parts between two dots, none of them empty.
abbrev pub IsCompact : Text → Parts → Type 0
IsCompact token parts =
    (token ≡ compact parts.header parts.payload parts.signature)
    × (parts.header ≢ [])
    × (parts.payload ≢ [])
    × (parts.signature ≢ [])
    × Lacks b'.' parts.header
    × Lacks b'.' parts.payload
    × Lacks b'.' parts.signature

append_tail :
    (parts : Parts)
    → parts.header ++ b'.' ∷ (parts.payload ++ b'.' ∷ parts.signature)
      ≡ compact parts.header parts.payload parts.signature
append_tail parts = sym (append_assoc parts.header (b'.' ∷ parts.payload) (b'.' ∷ parts.signature))

abbrev IsPieces : List Text → Parts → Type 0
IsPieces ts parts =
    (ts ≡ parts.header ∷ parts.payload ∷ parts.signature ∷ [])
    × (parts.header ≢ [])
    × (parts.payload ≢ [])
    × (parts.signature ≢ [])

three_parts_sound :
    (ts : List Text) (parts : Parts) → three_parts ts ≡ some parts → IsPieces ts parts
three_parts_sound ((a ∷ h) ∷ (b ∷ p) ∷ (c ∷ s) ∷ []) parts e =
    let got : Parts = record { header = a ∷ h; payload = b ∷ p; signature = c ∷ s } in
    subst (IsPieces ((a ∷ h) ∷ (b ∷ p) ∷ (c ∷ s) ∷ [])) (some_inj got parts e)
      (refl, λ q. cc, λ q. cc, λ q. cc)
three_parts_sound _ parts e = cc

three_parts_complete :
    (h p s : Text)
    → h ≢ []
    → p ≢ []
    → s ≢ []
    → three_parts (h ∷ p ∷ s ∷ []) ≡ some (record { header = h; payload = p; signature = s })
three_parts_complete [] p s nh np ns = absurd (nh refl)
three_parts_complete (a ∷ h) [] s nh np ns = absurd (np refl)
three_parts_complete (a ∷ h) (b ∷ p) [] nh np ns = absurd (ns refl)
three_parts_complete (a ∷ h) (b ∷ p) (c ∷ s) nh np ns = refl

pub split_on-IsCompact :
    (token : Text) (parts : Parts)
    → three_parts (split_on b'.' token) ≡ some parts
    → IsCompact token parts
split_on-IsCompact token parts e =
    let (pieces, h, p, s) = three_parts_sound (split_on b'.' token) parts e in
    let lacks = subst (All (Lacks b'.')) pieces (split_on-All-Lacks b'.' token) in
    let joined = sym (join_with-split_on b'.' token) ∙ ap (join_with b'.') pieces in
    (joined ∙ append_tail parts, h, p, s, lacks.0, lacks.1.0, lacks.1.1.0)

pub IsCompact-split_on :
    (token : Text) (parts : Parts)
    → IsCompact token parts
    → three_parts (split_on b'.' token) ≡ some parts
IsCompact-split_on token parts (e, h, p, s, no_h, no_p, no_s) =
    let two = split_on-append b'.' parts.payload parts.signature no_p in
    let one = split_on-append b'.' parts.header (parts.payload ++ b'.' ∷ parts.signature) no_h in
    let pieces =
      one
      ∙ ap (◌∷◌ parts.header)
          (two ∙ ap (◌∷◌ parts.payload) (split_on-Lacks b'.' parts.signature no_s)) in
    ap three_parts (ap (split_on b'.') (e ∙ sym (append_tail parts)) ∙ pieces)
    ∙ three_parts_complete parts.header parts.payload parts.signature h p s

pub not-true : (b : Bool) → not b ≡ true → b ≡ false
not-true true h = cc
not-true false h = refl

pub not-false : (b : Bool) → not b ≡ false → b ≡ true
not-false true h = refl
not-false false h = cc

check_scope_unit :
    (scope : Option String) (given : Option Json) (u : Unit {0})
    → check_scope scope given ≡ good u
    → check_scope scope given ≡ good tt
check_scope_unit scope given u h = h

module _ (jose : Jose) (now : ℕ) (scope : Option String) where
  -- For the harness, by the control plane, with a subject, not past its time, and in scope.
  abbrev pub IsClaimed : Json → Type 0
  IsClaimed claims =
      (sub : String) × (exp : Number) × (is_text token_audience (prop claims "aud") ≡ true)
      × (is_text default_issuer (prop claims "iss") ≡ true)
      × (non_empty_string (prop claims "sub") ≡ some sub)
      × (number_of (prop claims "exp") ≡ some exp)
      × (is_past jose now exp ≡ false)
      × (check_scope scope (prop claims "scope") ≡ good tt)

  pub check_claims-IsClaimed :
      (payload claims : Json)
      → check_claims jose now scope payload ≡ good claims
      → (payload ≡ claims) × IsClaimed payload
  unfolding check_claims
  check_claims-IsClaimed payload claims h =
      let (_, aud, h1) = >>=-good _ _ claims h in
      let (_, iss, h2) = >>=-good _ _ claims h1 in
      let (sub, s, h3) = >>=-good _ _ claims h2 in
      let (exp, e, h4) = >>=-good _ _ claims h3 in
      let (_, past, h5) = >>=-good _ _ claims h4 in
      let (_, scoped, h6) = >>=-good _ _ claims h5 in
      let holds : IsClaimed payload = (
        sub,
        exp,
        require-good _ _ _ aud,
        require-good _ _ _ iss,
        need-good _ _ sub s,
        need-good _ _ exp e,
        not-true _ (require-good _ _ _ past),
        check_scope_unit scope (prop payload "scope") _ scoped,
      ) in
      (cc, holds)

  pub IsClaimed-check_claims :
      (claims : Json) → IsClaimed claims → check_claims jose now scope claims ≡ good claims
  unfolding check_claims ◌>>=◌
  IsClaimed-check_claims claims (sub, exp, aud, iss, s, e, past, scoped) =
      rw (aud, iss, s, e, past, scoped) refl

module _ (jose : Jose) (token : Text) (keys : Keyset jose) (now : ℕ) (scope : Option String) where
  -- Three parts, signed under the key that the header names, with this payload, and the payload holds.
  abbrev pub IsAccepted : Json → Type 0
  IsAccepted claims =
      (parts : Parts) × IsCompact token parts
      × IsSigned jose keys parts
      × (parsed_object (jose.decode parts.payload) ≡ some claims)
      × IsClaimed jose now scope claims

  pub verify_token-IsAccepted :
      (claims : Json) → verify_token jose token keys now scope ≡ good claims → IsAccepted claims
  unfolding verify_token
  verify_token-IsAccepted claims h =
      let (parts, p, h1) = >>=-good _ _ claims h in
      let (u, signed, h2) = >>=-good _ _ claims h1 in
      let (payload, d, h3) = >>=-good _ _ claims h2 in
      let (same, holds) = check_claims-IsClaimed jose now scope payload claims h3 in
      (
        parts,
        split_on-IsCompact token parts (need-good _ _ parts p),
        check_signature-IsSigned jose keys parts u signed,
        need-good _ _ payload d ∙ ap some same,
        subst (IsClaimed jose now scope) same holds,
      )

  pub IsAccepted-verify_token :
      (claims : Json) → IsAccepted claims → verify_token jose token keys now scope ≡ good claims
  unfolding verify_token ◌>>=◌
  IsAccepted-verify_token claims (parts, shape, signed, d, holds) =
      rw
        (
          IsCompact-split_on token parts shape,
          IsSigned-check_signature jose keys parts signed,
          d,
          IsClaimed-check_claims jose now scope claims holds,
        )
        refl

  -- `verifyToken` returns claims exactly where the token is three parts between two dots, its header names
  -- EdDSA and a key of the set under which the first two parts are signed, its payload is those claims, and
  -- they name the audience and the issuer, a subject, a time not past, and the scope that is required.
  pub verify_token_iff :
      (claims : Json) → (verify_token jose token keys now scope ≡ good claims) ↔ IsAccepted claims
  verify_token_iff claims = (verify_token-IsAccepted claims, IsAccepted-verify_token claims)
