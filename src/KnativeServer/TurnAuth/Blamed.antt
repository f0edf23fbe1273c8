-- ===== src/KnativeServer/TurnAuth/Blamed.antt =====
-- Whom a refusal of `resolveTurnAuth` blames.
use serverless_harness.Base.{
  ℕ, String, ◌≡◌, refl, sym, ap, ◌∙◌, ◌⊎◌, inl, inr, Option, none, some, List, [], ◌∷◌, ◌==◌, Text,
  string_key, In, Throws, >>=-Throws, need-Throws, need-good, bad-Throws, some_inj, Option-cases,
  nat_beq, subst, if-true, if-false, Bool-cases,
}
use serverless_harness.Harness.Json.{Json, prop, string_of}
use serverless_harness.ControlPlane.Errors.{
  Thrown, CpError, CpErrorCode, cp, code_text, refusal, credential_unavailable, credential_required,
  credential_ambiguous, credential_not_found, endpoint_unresolved, session_not_found, token_invalid,
  token_expired, unauthorized,
}
use serverless_harness.ControlPlane.Token.{Jose}
use serverless_harness.KnativeServer.TurnAuth.{
  Reply, unreachable, cut_off, answered, TurnAuthDeps, exchange_body, exchange_reply, exchange,
  text_or_empty, truthy_text, reply_at, refused, code_in, passthrough,
}

-- The code of an error that is typed.
abbrev pub IsCode : CpErrorCode → Thrown → Type 0
IsCode code e = (err : CpError) × (e ≡ cp err) × (err.code ≡ code)

-- What the caller can act on: its credential, its session and its token.
abbrev pub for_the_caller : List CpErrorCode
for_the_caller =
    credential_required ∷ credential_ambiguous ∷ credential_not_found ∷ endpoint_unresolved
    ∷ session_not_found ∷ token_invalid ∷ token_expired ∷ []

-- `credential_unavailable`, or a code for the caller.
abbrev pub IsPassed : Thrown → Type 0
IsPassed e =
    IsCode credential_unavailable e
    ⊎ ((code : CpErrorCode) × In code for_the_caller × IsCode code e)

code_of : Thrown → Option CpErrorCode
code_of (cp err) = some err.code
code_of _ = none

IsCode-code_of : (code : CpErrorCode) (e : Thrown) → IsCode code e → code_of e ≡ some code
unfolding code_of
IsCode-code_of code e (err, same, is) = rw same (ap (λ c. some c) is)

one_code : (c d : CpErrorCode) (e : Thrown) → IsCode c e → IsCode d e → c ≡ d
one_code c d e f g = some_inj c d (sym (IsCode-code_of c e f) ∙ IsCode-code_of d e g)

for_the_caller-unauthorized : ¬ In unauthorized for_the_caller
for_the_caller-unauthorized m = elim m [
  | inl e ↦ cc e
  | inr (inl e) ↦ cc e
  | inr (inr (inl e)) ↦ cc e
  | inr (inr (inr (inl e))) ↦ cc e
  | inr (inr (inr (inr (inl e)))) ↦ cc e
  | inr (inr (inr (inr (inr (inl e))))) ↦ cc e
  | inr (inr (inr (inr (inr (inr (inl e)))))) ↦ cc e
  | inr (inr (inr (inr (inr (inr (inr none_left)))))) ↦ none_left
]

IsPassed-unauthorized : (e : Thrown) → IsPassed e → ¬ IsCode unauthorized e
IsPassed-unauthorized e (inl f) g =
    absurd (let h : credential_unavailable ≡ unauthorized = one_code _ _ e f g in cc h)
IsPassed-unauthorized e (inr (code, m, f)) g =
    for_the_caller-unauthorized
      (subst (λ c. In c for_the_caller) (one_code code unauthorized e f g) m)

truthy_text-some : (o : Option String) (s : String) → truthy_text o ≡ some s → o ≡ some s
truthy_text-some none s h = h
truthy_text-some (some t) s h = elim (Bool-cases (t == "")) [
  | inl blank ↦ absurd (let e : none ≡ some s = sym (if-true _ _ _ blank) ∙ h in cc e)
  | inr full ↦ sym (if-false _ _ _ full) ∙ h
]

code_in-In :
    (codes : List CpErrorCode) (text : String) (code : CpErrorCode)
    → code_in codes text ≡ some code
    → In code codes
code_in-In [] text code h = cc
code_in-In (c ∷ codes) text code h = elim (Bool-cases (code_text c == text)) [
  | inl same ↦ inl (sym (some_inj c code (sym (if-true _ _ _ same) ∙ h)))
  | inr differs ↦ inr (code_in-In codes text code (sym (if-false _ _ _ differs) ∙ h))
]

refused-IsPassed :
    (status : ℕ) (text : String) (message : Option String)
    → IsPassed (refused status (code_in passthrough text) message)
refused-IsPassed status text message = elim (Option-cases (code_in passthrough text)) [
  | inl unknown ↦
      subst (λ o. IsPassed (refused status o message)) (sym unknown) (inl (_, refl, refl))
  | inr (code, known) ↦
      subst (λ o. IsPassed (refused status o message)) (sym known)
        (inr (code, code_in-In passthrough text code known, (_, refl, refl)))
]

exchange_body-IsPassed : (body : Json) → Throws IsPassed (exchange_body body)
unfolding exchange_body
exchange_body-IsPassed body e h =
    let mine : IsPassed (refusal credential_unavailable "control plane returned no credential") =
      inl (_, refl, refl) in
    >>=-Throws IsPassed _ _ e h (need-Throws IsPassed _ _ (inl (_, refl, refl))) λ mode _ h1.
      >>=-Throws IsPassed _ _ e h1 (need-Throws IsPassed _ _ mine) λ token _ h2.
        >>=-Throws IsPassed _ _ e h2
          (need-Throws IsPassed _ _
            (inr (endpoint_unresolved, inr (inr (inr (inl refl))), (_, refl, refl))))
          λ url _ h3.
            >>=-Throws IsPassed _ _ e h3 (need-Throws IsPassed _ _ (inl (_, refl, refl)))
              λ sent_in _ h4. cc

abbrev IsReplied : Reply → Thrown → Type 0
IsReplied reply e = IsPassed e ⊎ (reply ≡ cut_off)

passed : {reply : Reply} {e : Thrown} → IsPassed e → IsReplied reply e
passed h = inl h

exchange_reply-IsReplied : (reply : Reply) → Throws (IsReplied reply) (exchange_reply reply)
unfolding exchange_reply
exchange_reply-IsReplied unreachable e h =
    bad-Throws (IsReplied unreachable) _ (inl (inl (_, refl, refl))) e h
exchange_reply-IsReplied cut_off e h = inr refl
exchange_reply-IsReplied (answered status none) e h =
    bad-Throws (IsReplied (answered status none)) _ (inl (inl (_, refl, refl))) e h
exchange_reply-IsReplied (answered status (some body)) e h =
    elim (Bool-cases (nat_beq status 200)) [
      | inl is_ok ↦ inl (exchange_body-IsPassed body e (sym (if-true _ _ _ is_ok) ∙ h))
      | inr refuses ↦ inl (
          bad-Throws IsPassed _
            (refused-IsPassed status (text_or_empty (prop body "error"))
              (string_of (prop body "message")))
            e (sym (if-false _ _ _ refuses) ∙ h))
    ]

module _ (jose : Jose) (token : Text) (deps : TurnAuthDeps jose) where
  -- Where the exchange of a token throws, and the reply of the configured control plane was not cut off, the error
  -- blames the credential service (`credential_unavailable`), or it is one of the seven codes that the caller can
  -- act on; `unauthorized`, by which the control plane refuses this server, is never passed on.
  pub exchange-IsPassed :
      Throws
        (λ e.
          (IsPassed e × ¬ IsCode unauthorized e)
          ⊎ ((url : String) × (deps.control_plane_url ≡ some url)
              × (reply_at jose deps url token ≡ cut_off)))
        (exchange jose token deps)
  unfolding exchange
  exchange-IsPassed e h =
      let P : Thrown → Type 0 = λ d.
        (IsPassed d × ¬ IsCode unauthorized d)
        ⊎ ((url : String) × (deps.control_plane_url ≡ some url)
            × (reply_at jose deps url token ≡ cut_off)) in
      let mine = inl (_, refl, refl) in
      >>=-Throws P _ _ e h (need-Throws P _ _ (inl (mine, IsPassed-unauthorized _ mine)))
        λ url is h1. elim (exchange_reply-IsReplied (reply_at jose deps url token) e h1) [
          | inl blamed ↦ inl (blamed, IsPassed-unauthorized e blamed)
          | inr cut ↦
              inr (url, truthy_text-some deps.control_plane_url url (need-good _ _ url is), cut)
        ]
