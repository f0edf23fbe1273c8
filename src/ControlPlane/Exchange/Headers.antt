-- ===== src/ControlPlane/Exchange/Headers.antt =====
-- The header that a secret is sent in, and the host that it is sent to.
use Prim.Native.String.{◌++◌ as join}
use serverless_harness.Base.{
  ◌≢◌, ◌↔◌, Bool, true, not, ◌&&◌, codes, begins, String, ◌≡◌, refl, sym, ap, ◌∙◌, subst, inl, inr,
  false, Option, none, some, ◌==◌, string_key, text_key, map, List, [], ◌∷◌, good, bad_is_not_good,
  some_inj, Bool-cases, if-true, if-false,
}
use serverless_harness.ControlPlane.Ownership.{SessionRecord}
use serverless_harness.ControlPlane.Exchange.{
  authorization, x_api_key, direct, sent_header, DirectModeMismatch, bearer_to_anthropic,
  raw_key_elsewhere, is_host, raw_key_mismatch, direct_mode_mismatch, agree_or_throw,
  StoredCredential, Choice, CredentialBinding, lower_code, inference_auth_header,
  InferenceAuthHeader, header_of, first_secret,
}

-- The binding of a stored secret says that its field goes in this header.
abbrev pub Binds : CredentialBinding → String → InferenceAuthHeader → Type 0
Binds binding field authorization =
    (map lower_code (codes binding.header) ≡ codes "authorization")
    × (binding.format ≡ join (join "Bearer {" field) "}")
Binds binding field x_api_key =
    (map lower_code (codes binding.header) ≡ codes "x-api-key")
    × (binding.format ≡ join (join "{" field) "}")

both_true : (a b : Bool) → (a && b) ≡ true → (a ≡ true) × (b ≡ true)
both_true true b h = (refl, h)
both_true false b h = absurd (cc h)

inference_auth_header-Binds :
    (binding : CredentialBinding) (field : String) (header : InferenceAuthHeader)
    → inference_auth_header binding field ≡ some header
    → Binds binding field header
unfolding inference_auth_header
inference_auth_header-Binds binding field header h =
    let name = map lower_code (codes binding.header) in
    let bearer =
      name == codes "authorization" && binding.format == join (join "Bearer {" field) "}" in
    let key = name == codes "x-api-key" && binding.format == join (join "{" field) "}" in
    elim (Bool-cases bearer) [
      | inl it ↦
          let (a, b) = both_true _ _ it in
          subst (Binds binding field) (some_inj _ header (sym (if-true _ _ _ it) ∙ h)) (
            (text_key.same_iff name (codes "authorization")).0 a,
            (string_key.same_iff binding.format (join (join "Bearer {" field) "}")).0 b,
          )
      | inr other ↦ elim (Bool-cases key) [
        | inl it ↦
            let (a, b) = both_true _ _ it in
            subst (Binds binding field)
              (some_inj _ header (sym (if-true _ _ _ it) ∙ sym (if-false _ _ _ other) ∙ h))
              (
                (text_key.same_iff name (codes "x-api-key")).0 a,
                (string_key.same_iff binding.format (join (join "{" field) "}")).0 b,
              )
        | inr neither ↦
            absurd (nothing (sym (if-false _ _ _ neither) ∙ sym (if-false _ _ _ other) ∙ h))
      ]
    ]
  where
    nothing : none ≡ some header → ⊥
    nothing e = cc

-- The first field of a stored secret, and the header that it goes in.
abbrev pub IsField : StoredCredential → String → InferenceAuthHeader → Type 0
IsField cred secret header =
    (field : String) × (fields : List (String × String)) × (cred.secret ≡ (field, secret) ∷ fields)
    × (field ≢ "")
    × Binds cred.binding field header

pub fields-IsField :
    (cred : StoredCredential) (fields : List (String × String)) (secret : String)
    (header : InferenceAuthHeader)
    → cred.secret ≡ fields
    → first_secret fields ≡ some secret
    → header_of cred.binding fields ≡ some header
    → IsField cred secret header
fields-IsField cred [] secret header is h k = absurd (cc h)
fields-IsField cred ((field, value) ∷ fields) secret header is h k =
    elim (Bool-cases (field == "")) [
      | inl blank ↦ absurd (nothing (sym (if-true _ _ _ blank) ∙ k))
      | inr named ↦ (
        field,
        fields,
        is ∙ ap (λ v. (field, v) ∷ fields) (some_inj value secret h),
        λ e. not_both ((string_key.same_iff field "").1 e) named,
        inference_auth_header-Binds cred.binding field header (sym (if-false _ _ _ named) ∙ k),
      )
    ]
  where
    nothing : none ≡ some header → ⊥
    nothing e = cc

    not_both : {b : Bool} → b ≡ true → b ≡ false → ⊥
    not_both e f = cc

-- The header that is named in what is given.
abbrev pub IsNamed : InferenceAuthHeader → Option InferenceAuthHeader → Type 0
IsNamed x_api_key sent = sent ≡ some x_api_key
IsNamed authorization sent = sent ≡ none

-- Anthropic is not sent a Bearer token, and nobody else an Anthropic API key.
abbrev pub IsAgreed : InferenceAuthHeader → String → Option String → Type 0
IsAgreed header secret host =
    (header ≡ authorization → host ≢ some "api.anthropic.com")
    × (begins (codes "sk-ant-api") (codes secret) ≡ true → host ≡ some "api.anthropic.com")

pub sent_header-IsNamed :
    (header : InferenceAuthHeader) → IsNamed header (sent_header direct header)
sent_header-IsNamed authorization = refl
sent_header-IsNamed x_api_key = refl

pub agree_or_throw-good :
    (mismatch : Option DirectModeMismatch) (choice : Choice) (host : Option String)
    (rec : SessionRecord)
    → agree_or_throw mismatch choice host rec ≡ good tt
    → mismatch ≡ none
agree_or_throw-good none choice host rec h = refl
agree_or_throw-good (some m) choice host rec h = absurd (bad_is_not_good _ tt h)

is_host_iff :
    (name : String) (host : Option String) → (is_host name host ≡ true) ↔ (host ≡ some name)
is_host_iff name none = ((λ h. cc), λ h. cc)
is_host_iff name (some host) = (
  λ h. ap some ((string_key.same_iff host name).0 h),
  λ h. (string_key.same_iff host name).1 (some_inj host name h),
)

raw_key_mismatch-none :
    (secret : String) (host : Option String)
    → raw_key_mismatch secret host ≡ none
    → begins (codes "sk-ant-api") (codes secret) ≡ true
    → host ≡ some "api.anthropic.com"
raw_key_mismatch-none secret host h raw = elim (Bool-cases (is_host "api.anthropic.com" host)) [
  | inl at ↦ (is_host_iff "api.anthropic.com" host).0 at
  | inr elsewhere ↦
      let both : (begins (codes "sk-ant-api") (codes secret)
            && not (is_host "api.anthropic.com" host))
          ≡ true =
        rw (raw, elsewhere) refl in
      absurd (let e : some raw_key_elsewhere ≡ none = sym (if-true _ _ _ both) ∙ h in cc e)
]

pub direct_mode_mismatch-IsAgreed :
    (header : InferenceAuthHeader) (secret : String) (host : Option String)
    → direct_mode_mismatch header secret host ≡ none
    → IsAgreed header secret host
unfolding direct_mode_mismatch
direct_mode_mismatch-IsAgreed x_api_key secret host h =
    ((λ e. absurd (cc e)), raw_key_mismatch-none secret host h)
direct_mode_mismatch-IsAgreed authorization secret host h =
    elim (Bool-cases (is_host "api.anthropic.com" host)) [
      | inl at ↦
          absurd (let e : some bearer_to_anthropic ≡ none = sym (if-true _ _ _ at) ∙ h in cc e)
      | inr elsewhere ↦ (
        λ _ e. not_both ((is_host_iff "api.anthropic.com" host).1 e) elsewhere,
        raw_key_mismatch-none secret host (sym (if-false _ _ _ elsewhere) ∙ h),
      )
    ]
  where
    not_both : {b : Bool} → b ≡ true → b ≡ false → ⊥
    not_both e f = cc
