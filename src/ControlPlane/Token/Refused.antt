-- ===== src/ControlPlane/Token/Refused.antt =====
-- In which order `verifyToken` refuses.
use serverless_harness.Base.{
  ℕ, String, ◌≡◌, refl, ◌⊎◌, inl, inr, Bool, true, false, not, Option, none, some, ◌==◌, Text,
  Outcome, require, string_key, text_key, need-good, Throws, good-Throws, bad-Throws,
  require-if-Throws, >>=-Throws, need-Throws, require-Throws,
}
use serverless_harness.Harness.Json.{
  Json, null, boolean, number, string, array, object, prop, number_of, Number,
}
use serverless_harness.ControlPlane.Errors.{
  token_expired, token_invalid, Thrown, refusal, unrecognised,
}
use serverless_harness.ControlPlane.Token.{
  Jose, Keyset, Parts, parsed_object, check_signature, check_claims, check_scope, check_wanted,
  scope_includes, verify_token, is_past,
}
use serverless_harness.ControlPlane.Token.Verified.{
  IsCompact, IsSigned, check_signature-IsSigned, split_on-IsCompact, not-false,
}

abbrev pub IsInvalid : Thrown → Type 0
IsInvalid e = (why : String) × (e ≡ refusal token_invalid why)

-- Every error of `check_signature` is `token_invalid`.
check_signature-Throws :
    (jose : Jose) (keys : Keyset jose) (parts : Parts)
    → Throws IsInvalid (check_signature jose keys parts)
unfolding check_signature
check_signature-Throws jose keys parts e h =
    >>=-Throws IsInvalid _ _ e h (need-Throws IsInvalid _ _ (_, refl)) λ header _ h1.
      >>=-Throws IsInvalid _ _ e h1 (require-Throws IsInvalid _ _ (_, refl)) λ _ _ h2.
        >>=-Throws IsInvalid _ _ e h2 (need-Throws IsInvalid _ _ (_, refl)) λ kid _ h3.
          >>=-Throws IsInvalid _ _ e h3 (need-Throws IsInvalid _ _ (_, refl))
            λ key _ h4. require-Throws IsInvalid _ _ (_, refl) e h4

-- A value without a method `includes`.
abbrev pub IsMistyped : Json → Type 0
IsMistyped (boolean b) = Unit
IsMistyped (number n) = Unit
IsMistyped (object o) = Unit
IsMistyped _ = ⊥

module _ (jose : Jose) (now : ℕ) (scope : Option String) where
  -- The claims are past their time; or a scope was asked for, and they hold one that is neither a list nor a text.
  abbrev pub IsLate : Json → Thrown → Type 0
  IsLate claims e =
      ((exp : Number) × (number_of (prop claims "exp") ≡ some exp)
        × (is_past jose now exp ≡ true)
        × (e ≡ refusal token_expired "token expired"))
      ⊎ ((wanted : String) × (given : Json) × (scope ≡ some wanted)
          × (prop claims "scope" ≡ some given)
          × IsMistyped given
          × (e ≡ unrecognised))

  scope_includes-Throws :
      (claims : Json) (wanted : String) (given : Option Json)
      → scope ≡ some wanted
      → prop claims "scope" ≡ given
      → Throws (IsLate claims) (scope_includes wanted given)
  scope_includes-Throws claims wanted none asked held = good-Throws (IsLate claims) false
  scope_includes-Throws claims wanted (some null) asked held = good-Throws (IsLate claims) false
  scope_includes-Throws claims wanted (some (array items)) asked held =
      good-Throws (IsLate claims) _
  scope_includes-Throws claims wanted (some (string s)) asked held = good-Throws (IsLate claims) _
  scope_includes-Throws claims wanted (some (boolean b)) asked held =
      bad-Throws (IsLate claims) _ (inr (wanted, boolean b, asked, held, tt, refl))
  scope_includes-Throws claims wanted (some (number n)) asked held =
      bad-Throws (IsLate claims) _ (inr (wanted, number n, asked, held, tt, refl))
  scope_includes-Throws claims wanted (some (object o)) asked held =
      bad-Throws (IsLate claims) _ (inr (wanted, object o, asked, held, tt, refl))

  abbrev IsRefusal : Json → Thrown → Type 0
  IsRefusal claims e = IsInvalid e ⊎ IsLate claims e

  check_wanted-Throws :
      (claims : Json) (blank : Bool) (wanted : String) (given : Option Json)
      → scope ≡ some wanted
      → prop claims "scope" ≡ given
      → Throws (IsRefusal claims) (check_wanted blank wanted given)
  check_wanted-Throws claims true wanted given asked held e h =
      good-Throws (IsRefusal claims) tt e h
  check_wanted-Throws claims false wanted given asked held e h =
      let includes-Throws : Throws (IsRefusal claims) (scope_includes wanted given) =
        λ d same. inr (scope_includes-Throws claims wanted given asked held d same) in
      >>=-Throws (IsRefusal claims) _ _ e h includes-Throws
        λ included _ h1. require-Throws (IsRefusal claims) included _ (inl (_, refl)) e h1

  check_scope-Throws :
      (claims : Json) (required : Option String)
      → scope ≡ required
      → Throws (IsRefusal claims) (check_scope required (prop claims "scope"))
  check_scope-Throws claims none asked = good-Throws (IsRefusal claims) tt
  check_scope-Throws claims (some wanted) asked =
      check_wanted-Throws claims (wanted == "") wanted (prop claims "scope") asked refl

  check_claims-Throws :
      (claims : Json) → Throws (IsRefusal claims) (check_claims jose now scope claims)
  unfolding check_claims
  check_claims-Throws claims e h =
      let P = IsRefusal claims in
      >>=-Throws P _ _ e h (require-Throws P _ _ (inl (_, refl))) λ _ _ h1.
        >>=-Throws P _ _ e h1 (require-Throws P _ _ (inl (_, refl))) λ _ _ h2.
          >>=-Throws P _ _ e h2 (need-Throws P _ _ (inl (_, refl))) λ _ _ h3.
            >>=-Throws P _ _ e h3 (need-Throws P _ _ (inl (_, refl))) λ exp due h4.
              >>=-Throws P _ _ e h4 (past exp (need-good _ _ exp due))
                λ _ _ h5. >>=-Throws P _ _ e h5 (check_scope-Throws claims scope refl) λ _ _ h6. cc
    where
      past :
          (exp : Number)
          → number_of (prop claims "exp") ≡ some exp
          → Throws
              (IsRefusal claims)
              (require (not (is_past jose now exp)) (refusal token_expired "token expired"))
      past exp due =
          require-if-Throws (IsRefusal claims) _ _
            λ failed. inr (inl (exp, due, not-false _ failed, refl))

module _ (jose : Jose) (token : Text) (keys : Keyset jose) (now : ℕ) (scope : Option String) where
  -- `token_invalid`; or a token that is signed under a key of the set and whose payload is late.
  abbrev pub IsRefused : Thrown → Type 0
  IsRefused e =
      IsInvalid e
      ⊎ ((parts : Parts) × (claims : Json) × IsCompact token parts
          × IsSigned jose keys parts
          × (parsed_object (jose.decode parts.payload) ≡ some claims)
          × IsLate jose now scope claims e)

  early {ℓ} : {A : Type ℓ} (m : Outcome Thrown A) → Throws IsInvalid m → Throws IsRefused m
  early m f e same = inl (f e same)

  -- Where `verifyToken` throws, it throws `token_invalid`; or the token was three parts with a signature
  -- under a key of the set, and its payload was past its time (`token_expired`), or a scope was asked
  -- for and it had one that is a boolean, a number or an object (a `TypeError`).
  pub verify_token-IsRefused : Throws IsRefused (verify_token jose token keys now scope)
  unfolding verify_token
  verify_token-IsRefused e h =
      >>=-Throws IsRefused _ _ e h (early _ (need-Throws IsInvalid _ _ (_, refl))) λ parts p h1.
        >>=-Throws IsRefused _ _ e h1 (early _ (check_signature-Throws jose keys parts))
          λ u signed h2.
            >>=-Throws IsRefused _ _ e h2 (early _ (need-Throws IsInvalid _ _ (_, refl)))
              λ claims d h3. elim (check_claims-Throws jose now scope claims e h3) [
                | inl why ↦ inl why
                | inr late ↦ inr (
                  parts,
                  claims,
                  split_on-IsCompact token parts (need-good _ _ parts p),
                  check_signature-IsSigned jose keys parts u signed,
                  need-good _ _ claims d,
                  late,
                )
              ]
