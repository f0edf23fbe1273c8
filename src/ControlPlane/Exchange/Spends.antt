-- ===== src/ControlPlane/Exchange/Spends.antt =====
-- Whose credential an exchange gives away, and for which session.
use Prim.Native.Nat.{◌/◌}
use Prim.Native.String.{◌++◌ as join}
use serverless_harness.Base.{
  ◌≢◌, Bool, true, ◌&&◌, String, ◌≡◌, refl, sym, ap, ◌∙◌, subst, ◌⊎◌, inl, inr, false, Option, none,
  some, ◌==◌, string_key, text_key, Text, good, need-good, require-good, good_inj, bad_is_not_good,
  some_inj, Bool-cases, if-true, if-false,
}
use serverless_harness.Base.Actions.{Action, pure, >>=-good}
use serverless_harness.Harness.Json.{Json, prop, truthy, string_of}
use serverless_harness.ControlPlane.Errors.{Thrown}
use serverless_harness.ControlPlane.Token.{Jose}
use serverless_harness.ControlPlane.Token.Verified.{IsAccepted, verify_token-IsAccepted, not-true}
use serverless_harness.ControlPlane.Ownership.{CpRedis, SessionRecord, filled, or_else}
use serverless_harness.ControlPlane.Ownership.Records.{RedisLaws, record_in, get_session-record_in}
use serverless_harness.ControlPlane.Exchange.Headers.{
  IsField, fields-IsField, IsNamed, sent_header-IsNamed, IsAgreed, agree_or_throw-good,
  direct_mode_mismatch-IsAgreed,
}
use serverless_harness.ControlPlane.Exchange.{
  placeholder, direct, header_or_default, StoredCredential, Granted, Choice, ExchangeDeps,
  InferenceAuthHeader, header_of, first_secret, check_mode, owned_by, mode_when, sid_text,
  granted_as, operator_token, without_stored, with_stored, choose, stored_for, grant,
  exchange_credential,
}

-- The record is there, and its owner is the subject.
pub owned_by-some :
    (sub : Option String) (found : Option SessionRecord) (rec : SessionRecord)
    → owned_by sub found ≡ some rec
    → (found ≡ some rec) × (sub ≡ some rec.owner)
owned_by-some none found rec h = cc
owned_by-some (some s) none rec h = cc
owned_by-some (some s) (some r) rec h = elim (Bool-cases (r.owner == s)) [
  | inl owns ↦
      let same : r ≡ rec = some_inj r rec (sym (if-true _ _ _ owns) ∙ h) in
      (
        ap some same,
        ap some (sym ((string_key.same_iff r.owner s).0 owns)) ∙ ap (λ q. some q.owner) same,
      )
  | inr differs ↦ absurd (none_some rec (sym (if-false _ _ _ differs) ∙ h))
]
  where
    none_some : (q : SessionRecord) → none ≡ some q → ⊥
    none_some q e = cc

filled-some : (o : Option String) (s : String) → filled o ≡ some s → o ≡ some s
filled-some none s h = h
filled-some (some t) s h = elim (Bool-cases (t == "")) [
  | inl blank ↦ absurd (nothing s (sym (if-true _ _ _ blank) ∙ h))
  | inr full ↦ sym (if-false _ _ _ full) ∙ h
]
  where
    nothing : (q : String) → none ≡ some q → ⊥
    nothing q e = cc

module _ (jose : Jose) (redis : CpRedis) (laws : RedisLaws redis)
    (deps : ExchangeDeps jose redis) where
  -- Where the secret comes from, with its endpoint and the header it is sent in: the owner's own credential, of the
  -- name that the session recorded; or, for a session that recorded none and where it is allowed, the operator's.
  abbrev pub IsSource :
      SessionRecord → redis.World → String → Option String → InferenceAuthHeader → Type 0
  IsSource rec w secret endpoint header =
      ((cred : StoredCredential) × (v : redis.World) × (rec.credential_name ≢ "")
        × (deps.stored rec.owner rec.credential_name w ≡ (v, good (some cred)))
        × (endpoint ≡ cred.endpoint)
        × IsField cred secret header)
      ⊎ ((rec.credential_name ≡ "")
          × (deps.allow_operator_fallback ≡ true)
          × (deps.operator_inference_token ≡ some secret)
          × (endpoint ≡ none)
          × (header ≡ header_or_default deps.operator_inference_header))

  -- A credential that is stored under no name is never asked for.
  stored_for-some :
      (rec : SessionRecord) (w v : redis.World) (cred : StoredCredential)
      → stored_for jose redis deps rec w ≡ (v, good (some cred))
      → (rec.credential_name ≢ "")
        × (deps.stored rec.owner rec.credential_name w ≡ (v, good (some cred)))
  stored_for-some rec w v cred h = elim (Bool-cases (rec.credential_name == "")) [
    | inl blank ↦
        let e : pure none w ≡ (v, good (some cred)) =
          sym (
            ap (λ (m : Action Thrown redis.World (Option StoredCredential)). m w)
              (if-true _ _ _ blank))
          ∙ h in
        absurd (none_some cred (good_inj Thrown _ _ (ap (λ p. p.1) e)))
    | inr named ↦ (
      λ e. not_both ((string_key.same_iff rec.credential_name "").1 e) named,
      sym (
            ap (λ (m : Action Thrown redis.World (Option StoredCredential)). m w)
              (if-false _ _ _ named))
          ∙ h,
    )
  ]
    where
      none_some : (c : StoredCredential) → none ≡ some c → ⊥
      none_some c e = cc

      not_both : {b : Bool} → b ≡ true → b ≡ false → ⊥
      not_both e f = cc

  operator_token-some :
      (rec : SessionRecord) (secret : String)
      → operator_token jose redis deps rec ≡ some secret
      → (rec.credential_name ≡ "")
        × (deps.allow_operator_fallback ≡ true)
        × (deps.operator_inference_token ≡ some secret)
  operator_token-some rec secret h = elim (Bool-cases (rec.credential_name == "")) [
    | inl blank ↦ elim (Bool-cases deps.allow_operator_fallback) [
      | inl allowed ↦
          let both : (rec.credential_name == "" && deps.allow_operator_fallback) ≡ true =
            rw (blank, allowed) refl in
          (
            (string_key.same_iff rec.credential_name "").0 blank,
            allowed,
            filled-some deps.operator_inference_token secret (sym (if-true _ _ _ both) ∙ h),
          )
      | inr off ↦
          let one : (rec.credential_name == "" && deps.allow_operator_fallback) ≡ false =
            rw (blank, off) refl in
          absurd (none_some (sym (if-false _ _ _ one) ∙ h))
    ]
    | inr named ↦
        let one : (rec.credential_name == "" && deps.allow_operator_fallback) ≡ false =
          rw named refl in
        absurd (none_some (sym (if-false _ _ _ one) ∙ h))
  ]
    where
      none_some : none ≡ some secret → ⊥
      none_some e = cc

  with_stored-good :
      (rec : SessionRecord) (cred : StoredCredential) (header : Option InferenceAuthHeader)
      (choice : Choice)
      → with_stored jose redis rec cred header ≡ good choice
      → (choice.secret ≡ first_secret cred.secret)
        × (choice.endpoint ≡ cred.endpoint)
        × (header ≡ some choice.header)
  with_stored-good rec cred none choice h = absurd (bad_is_not_good _ choice h)
  with_stored-good rec cred (some header) choice h =
      let is = good_inj Thrown _ choice h in
      (ap (λ c. c.secret) (sym is), ap (λ c. c.endpoint) (sym is), ap (λ c. some c.header) is)

  without_stored-IsSource :
      (rec : SessionRecord) (w : redis.World) (token : Option String) (secret : String)
      → operator_token jose redis deps rec ≡ token
      → (without_stored jose redis deps rec token).secret ≡ some secret
      → IsSource rec w secret
          (without_stored jose redis deps rec token).endpoint
          (without_stored jose redis deps rec token).header
  without_stored-IsSource rec w none secret h s = absurd (cc s)
  without_stored-IsSource rec w (some token) secret h s =
      let (blank, allowed, is) = operator_token-some rec secret (h ∙ s) in
      inr (blank, allowed, is, refl, refl)

  choose-IsSource :
      (rec : SessionRecord) (w v : redis.World) (stored : Option StoredCredential) (choice : Choice)
      (secret : String)
      → stored_for jose redis deps rec w ≡ (v, good stored)
      → choose jose redis deps rec stored ≡ good choice
      → filled choice.secret ≡ some secret
      → IsSource rec w secret choice.endpoint choice.header
  unfolding choose
  choose-IsSource rec w v (some cred) choice secret got h s =
      let (from, endpoint, header) =
        with_stored-good rec cred (header_of cred.binding cred.secret) choice h in
      let (named, there) = stored_for-some rec w v cred got in
      inl (
        cred,
        v,
        named,
        there,
        endpoint,
        fields-IsField cred cred.secret secret choice.header refl
            (sym from ∙ filled-some choice.secret secret s) header,
      )
  choose-IsSource rec w v none choice secret got h s =
      let is = good_inj Thrown _ choice h in
      subst (λ c. IsSource rec w secret c.endpoint c.header) is
        (without_stored-IsSource rec w (operator_token jose redis deps rec) secret refl
          (ap (λ c. c.secret) is ∙ filled-some choice.secret secret s))

  -- What is given: the placeholder and no header where there is an injector; and if not, the secret, in its header,
  -- which agrees with the host of the endpoint. Only `x-api-key` is named.
  abbrev pub IsSent : Bool → SessionRecord → String → InferenceAuthHeader → Granted → Type 0
  IsSent true rec secret header r =
      (r.mode ≡ placeholder)
      × (r.anthropic_auth_token ≡ join "sh-placeholder-" rec.owner)
      × (r.auth_header ≡ none)
  IsSent false rec secret header r =
      (r.mode ≡ direct)
      × (r.anthropic_auth_token ≡ secret)
      × IsNamed header r.auth_header
      × IsAgreed header secret (deps.hostname r.anthropic_base_url)

  -- What is given, in this world, for a record.
  abbrev pub IsGranted : SessionRecord → redis.World → Granted → Type 0
  IsGranted rec w r =
      (r.subject ≡ rec.owner)
      × (r.session_id ≡ rec.session_id)
      × (secret : String) × (endpoint : Option String) × (header : InferenceAuthHeader) × IsSource
          rec w secret endpoint header
      × (filled (or_else endpoint deps.default_inference_endpoint) ≡ some r.anthropic_base_url)
      × IsSent deps.injector_configured rec secret header r

  granted_as-IsSent :
      (injector : Bool) (rec : SessionRecord) (choice : Choice) (secret url : String)
      → deps.injector_configured ≡ injector
      → check_mode (mode_when injector) choice secret (deps.hostname url) rec ≡ good tt
      → IsSent injector rec secret choice.header (granted_as jose redis deps rec choice secret url)
  granted_as-IsSent true rec choice secret url h agreed = rw h (refl, refl, refl)
  granted_as-IsSent false rec choice secret url h agreed = rw h (
    refl,
    refl,
    sent_header-IsNamed choice.header,
    direct_mode_mismatch-IsAgreed choice.header secret (deps.hostname url)
        (agree_or_throw-good _ choice (deps.hostname url) rec agreed),
  )

  grant-IsGranted :
      (rec : SessionRecord) (w x : redis.World) (r : Granted)
      → grant jose redis deps rec w ≡ (x, good r)
      → IsGranted rec w r
  unfolding grant
  grant-IsGranted rec w x r h =
      let (w1, stored, stored_is, h1) = >>=-good _ _ w x r h in
      let (w2, choice, chosen, h2) = >>=-good _ _ w1 x r h1 in
      let (w3, secret, found, h3) = >>=-good _ _ w2 x r h2 in
      let (w4, url, resolved, h4) = >>=-good _ _ w3 x r h3 in
      let (w5, u, agreed, h5) = >>=-good _ _ w4 x r h4 in
      let (w6, _, audited, h6) = >>=-good _ _ w5 x r h5 in
      let secret_is = need-good _ _ secret (ap (λ p. p.1) found) in
      let url_is = need-good _ _ url (ap (λ p. p.1) resolved) in
      let source =
        choose-IsSource rec w w1 stored choice secret stored_is (ap (λ p. p.1) chosen) secret_is in
      let is : granted_as jose redis deps rec choice secret url ≡ r =
        good_inj Thrown _ r (ap (λ p. p.1) h6) in
      subst (IsGranted rec w) is (
        refl,
        refl,
        secret,
        choice.endpoint,
        choice.header,
        source,
        url_is,
        granted_as-IsSent deps.injector_configured rec choice secret url refl
            (ap (λ p. p.1) agreed),
      )

  -- Where an exchange gives a credential: the token verifies for a turn; the session that it names is in the index,
  -- is not deleted, and is owned by the subject of the token; what is given is for that owner and that session.
  -- It is the placeholder of the owner where the deployment has an injector; and if not, the secret that the owner
  -- stored under the name that the session recorded, or, where it recorded none and that is allowed, the operator's,
  -- to be sent in the header that its binding, or the operator, says. It goes to the endpoint stored beside the
  -- secret or to the default one, which is not empty. A secret that is sent directly is not a Bearer token for
  -- `api.anthropic.com`, nor an Anthropic API key for another host.
  pub exchange_credential-IsGranted :
      (token : Text) (w x : redis.World) (r : Granted)
      → exchange_credential jose redis deps token w ≡ (x, good r)
      → (claims : Json) × (sid : Json) × (rec : SessionRecord) × (v : redis.World) × IsAccepted jose
          token deps.verify_keys
          (deps.now_ms / 1000)
          (some "turn:write")
          claims
        × (truthy (prop claims "sid") ≡ some sid)
        × (record_in redis.read_number (redis.view w) (sid_text jose redis deps sid) ≡ some rec)
        × (string_of (prop claims "sub") ≡ some rec.owner)
        × (rec.tombstone ≡ false)
        × (redis.view v ≡ redis.view w)
        × IsGranted rec v r
  unfolding exchange_credential
  exchange_credential-IsGranted token w x r h =
      let (w1, claims, verified, h1) = >>=-good _ _ w x r h in
      let (w2, sid, s, h2) = >>=-good _ _ w1 x r h1 in
      let (w3, found, got, h3) = >>=-good _ _ w2 x r h2 in
      let (w4, rec, owned, h4) = >>=-good _ _ w3 x r h3 in
      let (w5, u, alive, h5) = >>=-good _ _ w4 x r h4 in
      let first : w ≡ w2 = ap (λ p. p.0) verified ∙ ap (λ p. p.0) s in
      let last : w3 ≡ w5 = ap (λ p. p.0) owned ∙ ap (λ p. p.0) alive in
      let (is, same) =
        get_session-record_in redis laws (sid_text jose redis deps sid) w2 w3 found got in
      let (there, owner) =
        owned_by-some (string_of (prop claims "sub")) found rec
          (need-good _ _ rec (ap (λ p. p.1) owned)) in
      (
        claims,
        sid,
        rec,
        w5,
        verify_token-IsAccepted jose token deps.verify_keys (deps.now_ms / 1000) (some "turn:write")
            claims (ap (λ p. p.1) verified),
        need-good _ _ sid (ap (λ p. p.1) s),
        ap (λ v. record_in redis.read_number (redis.view v) (sid_text jose redis deps sid)) first
            ∙ sym is
            ∙ there,
        owner,
        not-true _ (require-good _ _ _ (ap (λ p. p.1) alive)),
        ap redis.view (sym last) ∙ same ∙ ap redis.view (sym first),
        grant-IsGranted rec w5 x r h5,
      )
