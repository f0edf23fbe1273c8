-- ===== src/KnativeServer/TurnAuth/Bound.antt =====
-- What a turn that was authenticated is bound to.
use serverless_harness.Base.{
  String, ◌≡◌, refl, sym, ap, ◌∙◌, ◌⊎◌, inl, inr, Bool, true, false, Option, none, some, ◌==◌, Text,
  good, string_key, >>=-good, require-good, need-good, good_inj, Option-cases, arith, nat_beq,
  nat_beq_iff, subst, if-true, if-false, Bool-cases, bad_is_not_good,
}
use Prim.Native.Nat.{◌/◌}
use serverless_harness.Harness.Json.{truthy, Json, prop, is_text}
use serverless_harness.ControlPlane.Errors.{Thrown}
use serverless_harness.ControlPlane.Token.{Jose, non_empty_string}
use serverless_harness.ControlPlane.Token.Verified.{IsAccepted, verify_token-IsAccepted, not-true}
use serverless_harness.KnativeServer.TurnAuth.{
  Headers, header, bearer, Reply, unreachable, cut_off, answered, TurnAuthDeps, ExchangeResponse,
  mode_of, auth_header_of, exchange_body, exchange_reply, exchange, truthy_text, text_or_empty,
  TurnAuth, sent_header, agrees, turn_of, reply_at, unauthenticated, resolve_token,
  resolve_turn_auth, authorize_token, authorize_run_read,
}

-- The body says all four.
abbrev pub IsResponse : Json → ExchangeResponse → Type 0
IsResponse body r =
    (mode_of (prop body "mode") ≡ some r.mode)
    × (non_empty_string (prop body "anthropicAuthToken") ≡ some r.anthropic_auth_token)
    × (non_empty_string (prop body "anthropicBaseUrl") ≡ some r.anthropic_base_url)
    × (auth_header_of (prop body "authHeader") ≡ some r.auth_header)

pub exchange_body-IsResponse :
    (body : Json) (r : ExchangeResponse) → exchange_body body ≡ good r → IsResponse body r
unfolding exchange_body
exchange_body-IsResponse body r h =
    let (mode, m, h1) = >>=-good _ _ r h in
    let (token, t, h2) = >>=-good _ _ r h1 in
    let (url, u, h3) = >>=-good _ _ r h2 in
    let (sent_in, s, h4) = >>=-good _ _ r h3 in
    let got : ExchangeResponse = record {
      mode = mode;
      anthropic_auth_token = token;
      anthropic_base_url = url;
      auth_header = sent_in;
    } in
    subst (IsResponse body) (good_inj Thrown got r h4)
      (need-good _ _ mode m, need-good _ _ token t, need-good _ _ url u, need-good _ _ sent_in s)

abbrev pub IsAnswer : Reply → ExchangeResponse → Type 0
IsAnswer reply r = (body : Json) × (reply ≡ answered 200 (some body)) × IsResponse body r

pub exchange_reply-IsAnswer :
    (reply : Reply) (r : ExchangeResponse) → exchange_reply reply ≡ good r → IsAnswer reply r
unfolding exchange_reply
exchange_reply-IsAnswer unreachable r h = cc
exchange_reply-IsAnswer cut_off r h = cc
exchange_reply-IsAnswer (answered status none) r h = cc
exchange_reply-IsAnswer (answered status (some body)) r h = elim (Bool-cases (nat_beq status 200)) [
  | inl is_ok ↦ (
    body,
    ap (λ n. answered n (some body)) ((nat_beq_iff status 200).0 is_ok),
    exchange_body-IsResponse body r (sym (if-true _ _ _ is_ok) ∙ h),
  )
  | inr refuses ↦ absurd (bad_is_not_good _ r (sym (if-false _ _ _ refuses) ∙ h))
]

truthy_text-some :
    (o : Option String) (s : String) → truthy_text o ≡ some s → (o ≡ some s) × ((s == "") ≡ false)
truthy_text-some none s h = cc
truthy_text-some (some t) s h = elim (Bool-cases (t == "")) [
  | inl blank ↦ cc
  | inr filled ↦ ground (arith, if-false (t == "") none (some t) filled)
]

module _ (jose : Jose) (headers : Headers) (deps : TurnAuthDeps jose) where
  -- The caller presented a token that verifies for a turn to these claims.
  abbrev pub Presents : Text → Json → Type 0
  Presents token claims =
      (bearer headers ≡ some token)
      × IsAccepted jose token deps.keys (deps.now_ms / 1000) (some "turn:write") claims

  -- The turn runs as the subject of the token, in its session, with what the control plane answered for
  -- that token.
  abbrev pub IsBound : Option String → TurnAuth → Text → Json → Type 0
  IsBound session auth token claims =
      (auth.subject ≡ text_or_empty (prop claims "sub"))
      × (truthy (prop claims "sid") ≡ some auth.session_id)
      × (agrees session (some auth.session_id) ≡ true)
      × (agrees (header headers "x-sh-subject") (prop claims "sub") ≡ true)
      × (url : String) × (r : ExchangeResponse) × (truthy_text deps.control_plane_url ≡ some url)
      × IsAnswer (reply_at jose deps url token) r
      × (auth.credential ≡ record {
        mode = r.mode;
        value = r.anthropic_auth_token;
        header = sent_header r.auth_header;
      })
      × (auth.anthropic_base_url ≡ r.anthropic_base_url)

  unauthenticated-good :
      {A : Type 0} (a b : A)
      → unauthenticated jose deps a ≡ good b
      → (deps.require_auth ≡ false) × (a ≡ b)
  unauthenticated-good a b h =
      let (_, allowed, h1) = >>=-good _ _ b h in
      (not-true _ (require-good _ _ _ allowed), good_inj Thrown a b h1)

  resolve_token-IsBound :
      (session : Option String) (token : Text) (auth : Option TurnAuth)
      → resolve_token jose headers session deps token ≡ good auth
      → (claims : Json) × (turn : TurnAuth) × (auth ≡ some turn)
        × IsAccepted jose token deps.keys (deps.now_ms / 1000) (some "turn:write") claims
        × IsBound session turn token claims
  unfolding resolve_token exchange
  resolve_token-IsBound session token auth h =
      let (claims, verified, h1) = >>=-good _ _ auth h in
      let (sid, s, h2) = >>=-good _ _ auth h1 in
      let (_, same_session, h3) = >>=-good _ _ auth h2 in
      let (_, same_subject, h4) = >>=-good _ _ auth h3 in
      let (r, exchanged, h5) = >>=-good _ _ auth h4 in
      let (url, u, h6) = >>=-good _ _ r exchanged in
      (
        claims,
        turn_of claims sid r,
        sym (good_inj Thrown _ auth h5),
        verify_token-IsAccepted jose token deps.keys (deps.now_ms / 1000) (some "turn:write") claims
            verified,
        (
          refl,
          need-good _ _ sid s,
          require-good _ _ _ same_session,
          require-good _ _ _ same_subject,
          url,
          r,
          need-good _ _ url u,
          exchange_reply-IsAnswer (reply_at jose deps url token) r h6,
          refl,
          refl,
        ),
      )

  without_token :
      (session : Option String)
      → bearer headers ≡ none
      → resolve_turn_auth jose headers session deps ≡ unauthenticated jose deps none
  unfolding resolve_turn_auth
  without_token session absent = rw (absent, resolve_turn_auth) refl

  pub with_token :
      (session : Option String) (token : Text)
      → bearer headers ≡ some token
      → resolve_turn_auth jose headers session deps ≡ resolve_token jose headers session deps token
  unfolding resolve_turn_auth
  with_token session token presented = rw (presented, resolve_turn_auth) refl

  -- Where `resolveTurnAuth` returns, either no token was presented, none is required and the turn is not
  -- authenticated; or a token was presented that verifies for a turn, and the turn runs as its subject, in its
  -- session, which is the one of the body if that names one, with a header `x-sh-subject` that agrees if there is
  -- one, and with the credential and the endpoint that the control plane answered with status 200 for that token.
  pub resolve_turn_auth-IsBound :
      (session : Option String) (auth : Option TurnAuth)
      → resolve_turn_auth jose headers session deps ≡ good auth
      → ((bearer headers ≡ none) × (deps.require_auth ≡ false) × (auth ≡ none))
        ⊎ ((token : Text) × (claims : Json) × (turn : TurnAuth) × (auth ≡ some turn)
            × Presents token claims
            × IsBound session turn token claims)
  resolve_turn_auth-IsBound session auth h = elim (Option-cases (bearer headers)) [
    | inl absent ↦
        let (allowed, same) =
          unauthenticated-good none auth (sym (without_token session absent) ∙ h) in
        inl (absent, allowed, sym same)
    | inr (token, presented) ↦
        let (claims, turn, same, accepted, bound) =
          resolve_token-IsBound session token auth (sym (with_token session token presented) ∙ h) in
        inr (token, claims, turn, same, (presented, accepted), bound)
  ]

  -- Where `authorizeRunRead` says that the caller authenticated, a token was presented that verifies for a turn
  -- and names the session that is read; where it says not, none was presented and none is required.
  pub authorize_run_read_sound :
      (session : String) (authenticated : Bool)
      → authorize_run_read jose headers session deps ≡ good authenticated
      → ((bearer headers ≡ none) × (deps.require_auth ≡ false) × (authenticated ≡ false))
        ⊎ ((token : Text) × (claims : Json) × (authenticated ≡ true)
            × Presents token claims
            × (is_text session (prop claims "sid") ≡ true))
  unfolding authorize_run_read
  authorize_run_read_sound session authenticated h = elim (Option-cases (bearer headers)) [
    | inl absent ↦
        let quiet : authorize_run_read jose headers session deps ≡ unauthenticated jose deps false =
          rw (absent, authorize_run_read) refl in
        let (allowed, same) = unauthenticated-good false authenticated (sym quiet ∙ h) in
        inl (absent, allowed, sym same)
    | inr (token, presented) ↦
        let loud : authorize_run_read jose headers session deps
            ≡ authorize_token jose session deps token =
          rw (presented, authorize_run_read) refl in
        let (claims, verified, h1) = >>=-good _ _ authenticated (sym loud ∙ h) in
        let (_, same_session, h2) = >>=-good _ _ authenticated h1 in
        let accepted =
          verify_token-IsAccepted jose token deps.keys (deps.now_ms / 1000) (some "turn:write")
            claims verified in
        inr (
          token,
          claims,
          sym (good_inj Thrown true authenticated h2),
          (presented, accepted),
          require-good _ _ _ same_session,
        )
  ]
