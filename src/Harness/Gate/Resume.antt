-- ===== src/Harness/Gate/Resume.antt =====
-- What `decideSeed` makes of the gate state of a session, before and after its record is appended.
use mathlib.Core.List.{append-nil}
use text.Mathlib.TextEquality.{eq_iff}
use Prim.Native.String.{String}
use serverless_harness.Base.{
  ◌≡◌, refl, sym, ◌∙◌, ap, ◌↔◌, ◌⊎◌, inl, inr, true, false, Option, none, some, List, [], ◌∷◌, ◌++◌,
  nat_beq_iff, All, arith, Bool-cases, subst,
}
use serverless_harness.Harness.Json.{
  Number, whole, other, number_beq, Json, prop, is_text, null, boolean, number, string, array,
  object,
}
use serverless_harness.Harness.Gate.{
  GateRequest, Decision, is_gate_request_entry, is_gate_decision_entry, gate_request_from_entry,
  gate_decision_from_entry, GateState, collect, is_decided, latest_undecided, last_of, state_of,
  compute_gate_state, paused, prepend, continue_from, carry_out, answer, gate_decision_entry_type,
  seed_at, decide_seed, GateAction, approve, reject, abort, aborted, seed, SeedDecision,
  continuation_prompt,
}

pub number_beq_iff : (m n : Number) → (number_beq m n ≡ true) ↔ (m ≡ n)
number_beq_iff (whole m) (whole n) = ground (arith, nat_beq_iff m n)
number_beq_iff (other s) (other t) = ground (arith, eq_iff s t)
number_beq_iff (whole m) (other t) = (λ h. cc, λ h. cc)
number_beq_iff (other s) (whole n) = (λ h. cc, λ h. cc)

abbrev pub requests : List Json → List GateRequest
requests es = collect gate_request_from_entry es

abbrev pub decisions : List Json → List Decision
decisions es = collect gate_decision_from_entry es

-- `r` is the last request of the list that no decision answers.
pub data IsLatest (ds : List Decision) (r : GateRequest) : List GateRequest → Type 0 where
  last :
      (rs : List GateRequest)
      → is_decided ds r ≡ false
      → All (λ q. is_decided ds q ≡ true) rs
      → IsLatest ds r (r ∷ rs)
  before : (q : GateRequest) (rs : List GateRequest) → IsLatest ds r rs → IsLatest ds r (q ∷ rs)

latest_undecided_cases :
    (ds : List Decision) (pending : Option GateRequest) (rs : List GateRequest)
    → ((latest_undecided ds pending rs ≡ pending) × All (λ q. is_decided ds q ≡ true) rs)
      ⊎ ((r : GateRequest) × (latest_undecided ds pending rs ≡ some r) × IsLatest ds r rs)
latest_undecided_cases ds pending [] = inl (refl, tt)
latest_undecided_cases ds pending (q ∷ rs) = elim (Bool-cases (is_decided ds q)) [
  | inl old ↦ elim (latest_undecided_cases ds pending rs) [
    | inl (e, all) ↦ inl (rw old e, (old, all))
    | inr (r, e, l) ↦ inr (r, rw old e, before q rs l)
  ]
  | inr fresh ↦ elim (latest_undecided_cases ds (some q) rs) [
    | inl (e, all) ↦ inr (q, rw fresh e, last rs fresh all)
    | inr (r, e, l) ↦ inr (r, rw fresh e, before q rs l)
  ]
]

-- The pending gate is the last request that no decision of the session answers; there is none exactly
-- when each request is answered.
pub compute_gate_state_cases :
    (es : List Json)
    → (((compute_gate_state es).pending_gate ≡ none)
        × All (λ q. is_decided (decisions es) q ≡ true) (requests es))
      ⊎ ((r : GateRequest) × ((compute_gate_state es).pending_gate ≡ some r)
          × IsLatest (decisions es) r (requests es))
unfolding compute_gate_state
compute_gate_state_cases es = latest_undecided_cases (decisions es) none (requests es)

IsLatest-undecided :
    {ds : List Decision} {r : GateRequest} {rs : List GateRequest}
    → IsLatest ds r rs
    → is_decided ds r ≡ false
IsLatest-undecided (last rs fresh all) = fresh
IsLatest-undecided (before q rs l) = IsLatest-undecided l

pending_gate_undecided :
    (es : List Json) (r : GateRequest)
    → (compute_gate_state es).pending_gate ≡ some r
    → is_decided (decisions es) r ≡ false
pending_gate_undecided es r h = elim (compute_gate_state_cases es) [
  | inl (e, all) ↦ cc
  | inr (q, e, l) ↦
      let same : q ≡ r = cc in ap (is_decided (decisions es)) (sym same) ∙ IsLatest-undecided l
]

decide_seed-pending :
    (s : GateState) (r : GateRequest) (decision : Option Decision) (fresh_prompt : String)
    → s.pending_gate ≡ some r
    → decide_seed s decision fresh_prompt ≡ answer s r decision
unfolding decide_seed
decide_seed-pending s r decision fresh_prompt h = ap (λ g. seed_at s g decision fresh_prompt) h

answer-carry_out :
    (s : GateState) (r : GateRequest) (d : Decision)
    → is_decided s.gate_decisions r ≡ false
    → whole d.gate_id ≡ r.gate_id
    → answer s r (some d) ≡ carry_out d (some d)
answer-carry_out s r d fresh same =
    let matches = (number_beq_iff (whole d.gate_id) r.gate_id).1 same in rw (matches, fresh) refl

state_undecided :
    (es : List Json) (r : GateRequest)
    → (compute_gate_state es).pending_gate ≡ some r
    → is_decided (compute_gate_state es).gate_decisions r ≡ false
unfolding compute_gate_state
state_undecided es r h = pending_gate_undecided es r h

-- What an answer makes of a run, by its action: the decision is in the outcome each time.
abbrev pub Answers : GateAction → Decision → SeedDecision → Type 0
Answers abort d outcome = outcome ≡ aborted (some d)
Answers approve d outcome = outcome ≡ seed (continuation_prompt approve d.feedback) (some d)
Answers reject d outcome = outcome ≡ seed (continuation_prompt reject d.feedback) (some d)

carry_out-Answers :
    (action : GateAction) (d : Decision)
    → d.action ≡ action
    → Answers action d (carry_out d (some d))
carry_out-Answers abort d e = rw e refl
carry_out-Answers approve d e = rw e refl
carry_out-Answers reject d e = rw e refl

answer_cases :
    (s : GateState) (r : GateRequest) (decision : Option Decision)
    → is_decided s.gate_decisions r ≡ false
    → (answer s r decision ≡ paused r)
      ⊎ ((d : Decision) × (decision ≡ some d)
          × (whole d.gate_id ≡ r.gate_id)
          × Answers d.action d (answer s r decision))
answer_cases s r none fresh = inl refl
answer_cases s r (some d) fresh = elim (Bool-cases (number_beq (whole d.gate_id) r.gate_id)) [
  | inl e ↦
      let same = (number_beq_iff (whole d.gate_id) r.gate_id).0 e in
      inr (
        d,
        refl,
        same,
        subst (Answers d.action d) (sym (answer-carry_out s r d fresh same))
            (carry_out-Answers d.action d refl),
      )
  | inr e ↦ inl (rw e refl)
]

-- While a gate is pending a run stays paused at it, or it was handed the decision for that very gate: then
-- an `abort` aborts it, an `approve` and a `reject` go on with the prompt for that answer and its feedback,
-- and each time the decision is recorded.
pub decide_seed_cases :
    (es : List Json) (r : GateRequest) (decision : Option Decision) (fresh_prompt : String)
    → (compute_gate_state es).pending_gate ≡ some r
    → let outcome = decide_seed (compute_gate_state es) decision fresh_prompt in
      (outcome ≡ paused r)
      ⊎ ((d : Decision) × (decision ≡ some d)
          × (whole d.gate_id ≡ r.gate_id)
          × Answers d.action d outcome)
decide_seed_cases es r decision fresh_prompt h =
    let s = compute_gate_state es in
    let step = decide_seed-pending s r decision fresh_prompt h in
    elim (answer_cases s r decision (state_undecided es r h)) [
      | inl e ↦ inl (step ∙ e)
      | inr (d, given, same, e) ↦ inr (d, given, same, subst (Answers d.action d) (sym step) e)
    ]

prepend-append {ℓ} :
    {A : Type ℓ} (o : Option A) (xs ys : List A) → prepend o (xs ++ ys) ≡ prepend o xs ++ ys
prepend-append none xs ys = refl
prepend-append (some a) xs ys = refl

collect-append {ℓ κ} :
    {A : Type ℓ} {B : Type κ} (f : A → Option B) (xs ys : List A)
    → collect f (xs ++ ys) ≡ collect f xs ++ collect f ys
collect-append f [] ys = refl
collect-append f (x ∷ xs) ys =
    ap (prepend (f x)) (collect-append f xs ys) ∙ prepend-append (f x) (collect f xs) (collect f ys)

last_of-append : (ds : List Decision) (d : Decision) → last_of (ds ++ d ∷ []) ≡ some d
last_of-append [] d = refl
last_of-append (c ∷ []) d = refl
last_of-append (c ∷ e ∷ ds) d = last_of-append (e ∷ ds) d

is_text_sound : (t : String) (o : Option Json) → is_text t o ≡ true → o ≡ some (string t)
is_text_sound t none h = cc
is_text_sound t (some (string s)) h = ap (λ x. some (string x)) ((eq_iff s t).0 h)
is_text_sound t (some null) h = cc
is_text_sound t (some (boolean b)) h = cc
is_text_sound t (some (number n)) h = cc
is_text_sound t (some (array items)) h = cc
is_text_sound t (some (object members)) h = cc

-- An entry is not a request and a decision at once.
decision_entry_no_request :
    (e : Json) (d : Decision)
    → gate_decision_from_entry e ≡ some d
    → gate_request_from_entry e ≡ none
unfolding gate_decision_from_entry gate_request_from_entry is_gate_request_entry
    is_gate_decision_entry
decision_entry_no_request e d h =
    elim (Bool-cases (is_text gate_decision_entry_type (prop e "customType"))) [
      | inl decided ↦
          let kind = is_text_sound gate_decision_entry_type (prop e "customType") decided in
          rw kind (ground arith)
      | inr skipped ↦ ground arith
    ]

compute_gate_state-append :
    (es : List Json) (e : Json) (d : Decision)
    → gate_decision_from_entry e ≡ some d
    → compute_gate_state (es ++ e ∷ []) ≡ state_of (requests es) (decisions es ++ d ∷ [])
unfolding compute_gate_state
compute_gate_state-append es e d entry =
    let skipped = decision_entry_no_request e d entry in
    cc (
      collect-append gate_request_from_entry es (e ∷ []),
      collect-append gate_decision_from_entry es (e ∷ []),
      append-nil (requests es),
      skipped,
      entry,
    )

is_decided-append :
    (ds : List Decision) (d : Decision) (q : GateRequest)
    → (is_decided ds q ≡ true) ⊎ (whole d.gate_id ≡ q.gate_id)
    → is_decided (ds ++ d ∷ []) q ≡ true
is_decided-append [] d q (inl old) = cc
is_decided-append [] d q (inr e) = ground (arith, (number_beq_iff (whole d.gate_id) q.gate_id).1 e)
is_decided-append (c ∷ ds) d q (inl old) =
    ground (arith, λ (h : is_decided ds q ≡ true). is_decided-append ds d q (inl h))
is_decided-append (c ∷ ds) d q (inr e) = ground (arith, is_decided-append ds d q (inr e))

none_pending :
    (ds : List Decision) (pending : Option GateRequest) (rs : List GateRequest)
    → All (λ q. is_decided ds q ≡ true) rs
    → latest_undecided ds pending rs ≡ pending
none_pending ds pending [] all = refl
none_pending ds pending (q ∷ rs) all = rw (all.0) (none_pending ds pending rs all.1)

is_decided-All :
    (ds : List Decision) (d : Decision) (r : GateRequest) (rs : List GateRequest)
    → whole d.gate_id ≡ r.gate_id
    → All (λ q. (is_decided ds q ≡ true) ⊎ (q.gate_id ≡ r.gate_id)) rs
    → All (λ q. is_decided (ds ++ d ∷ []) q ≡ true) rs
is_decided-All ds d r [] same others = tt
is_decided-All ds d r (q ∷ rs) same others = (
  is_decided-append ds d q (elim (others.0) [ inl old ↦ inl old | inr e ↦ inr (same ∙ sym e) ]),
  is_decided-All ds d r rs same others.1,
)

decide_seed-settled :
    (s : GateState) (d : Decision) (later : Option Decision) (fresh_prompt : String)
    → s.pending_gate ≡ none
    → s.last_decision ≡ some d
    → decide_seed s later fresh_prompt ≡ carry_out d none
unfolding decide_seed
decide_seed-settled s d later fresh_prompt h last_one =
    ap (λ g. seed_at s g later fresh_prompt) h ∙ ap (λ o. continue_from o fresh_prompt) last_one

-- A run that carries out the decision for the one pending gate appends the entry of its record, and a
-- later run of the same session, whatever decision it is handed, carries out that decision again and
-- records nothing.
pub decide_seed_resumes :
    (es : List Json) (r : GateRequest) (d : Decision) (e : Json) (later : Option Decision)
    (fresh_prompt : String)
    → (compute_gate_state es).pending_gate ≡ some r
    → All (λ q. (is_decided (decisions es) q ≡ true) ⊎ (q.gate_id ≡ r.gate_id)) (requests es)
    → whole d.gate_id ≡ r.gate_id
    → gate_decision_from_entry e ≡ some d
    → (decide_seed (compute_gate_state es) (some d) fresh_prompt ≡ carry_out d (some d))
      × (decide_seed (compute_gate_state (es ++ e ∷ [])) later fresh_prompt ≡ carry_out d none)
decide_seed_resumes es r d e later fresh_prompt h others same entry = (
  decide_seed-pending (compute_gate_state es) r (some d) fresh_prompt h
      ∙ answer-carry_out (compute_gate_state es) r d (state_undecided es r h) same,
  ap (λ s. decide_seed s later fresh_prompt) (compute_gate_state-append es e d entry)
      ∙ decide_seed-settled (state_of (requests es) (decisions es ++ d ∷ [])) d later fresh_prompt
          (none_pending (decisions es ++ d ∷ []) none (requests es)
            (is_decided-All (decisions es) d r (requests es) same others))
          (last_of-append (decisions es) d),
)
