-- ===== src/Harness/Gate.antt =====
-- harness/src/gate.ts: the approval gates of a leaf. Its state is derived from the entries of the
-- durable session, and `decideSeed` says what a run of the leaf does.
pub mod Resume
use Prim.Native.String.{String, ◌++◌ as join}
use text.Mathlib.Text.{◌==◌ as text_same}
use serverless_harness.Base.{
  ℕ, Bool, true, false, not, ◌&&◌, Option, none, some, List, [], ◌∷◌, if◌then◌else◌, any, length,
}
use serverless_harness.Harness.Json.{
  Number, whole, other, number_beq, Json, null, boolean, number, string, array, object, prop,
  is_text, string_of, number_of,
}

pub data GateAction : Type 0 where
  approve reject abort : GateAction

pub record GateRequest : Type 0 where
  pub gate_id : Number
  pub summary : String
  pub proposed_action : String

pub record Decision : Type 0 where
  pub gate_id : ℕ
  pub action : GateAction
  pub feedback : Option String

pub data Validated : Type 0 where
  ok : Decision → Validated
  error : String → Validated

-- `typeof o.gateId === 'number' && Number.isInteger(o.gateId) && o.gateId >= 0`
abbrev pub gate_id_of : Option Json → Option ℕ
gate_id_of (some (number (whole n))) = some n
gate_id_of _ = none

abbrev pub action_named : String → Option GateAction
action_named s =
    if text_same s "approve"
    then some approve
    else if text_same s "reject"
    then some reject
    else if text_same s "abort"
    then some abort
    else none

abbrev pub action_of : Option Json → Option GateAction
action_of (some (string s)) = action_named s
action_of _ = none

-- `none` where `feedback` is there and not a string.
abbrev pub feedback_of : Option Json → Option (Option String)
feedback_of none = some none
feedback_of (some (string s)) = some (some s)
feedback_of _ = none

abbrev pub validate_parts : Option ℕ → Option GateAction → Option (Option String) → Validated
validate_parts none action feedback = error "gateId must be a non-negative integer"
validate_parts (some id) none feedback =
    error "action must be \"approve\", \"reject\", or \"abort\""
validate_parts (some id) (some action) none = error "feedback must be a string when present"
validate_parts (some id) (some action) (some feedback) =
    ok (record { gate_id = id; action = action; feedback = feedback })

abbrev pub validate_object : Json → Validated
validate_object o =
    validate_parts (gate_id_of (prop o "gateId")) (action_of (prop o "action"))
      (feedback_of (prop o "feedback"))

unfoldable pub validate_decision : Option Json → Validated
validate_decision (some (object members)) = validate_object (object members)
validate_decision (some (array items)) = validate_object (array items)
validate_decision _ = error "decision must be an object"

abbrev pub gate_request_entry_type : String
gate_request_entry_type = "gate-request"

abbrev pub gate_decision_entry_type : String
gate_decision_entry_type = "gate-decision"

unfoldable pub is_gate_request_entry : Json → Bool
is_gate_request_entry e =
    is_text "custom" (prop e "type") && is_text gate_request_entry_type (prop e "customType")

unfoldable pub is_gate_decision_entry : Json → Bool
is_gate_decision_entry e =
    is_text "custom" (prop e "type") && is_text gate_decision_entry_type (prop e "customType")

abbrev pub request_of : Option Number → Option String → Option String → Option GateRequest
request_of (some id) (some summary) (some proposed) =
    some (record { gate_id = id; summary = summary; proposed_action = proposed })
request_of _ _ _ = none

-- A `data` that is missing or falsy has no fields either.
abbrev pub request_in : Option Json → Option GateRequest
request_in none = none
request_in (some d) =
    request_of (number_of (prop d "gateId")) (string_of (prop d "summary"))
      (string_of (prop d "proposed_action"))

unfoldable pub gate_request_from_entry : Json → Option GateRequest
unfolding is_gate_request_entry
gate_request_from_entry e = if is_gate_request_entry e then request_in (prop e "data") else none

abbrev pub value_of : Validated → Option Decision
value_of (ok d) = some d
value_of (error message) = none

unfoldable pub gate_decision_from_entry : Json → Option Decision
unfolding is_gate_decision_entry validate_decision
gate_decision_from_entry e =
    if is_gate_decision_entry e then value_of (validate_decision (prop e "data")) else none

pub record GateState : Type 0 where
  pub gate_requests : List GateRequest
  pub gate_decisions : List Decision
  pub pending_gate : Option GateRequest
  pub last_decision : Option Decision
  pub next_gate_id : ℕ

abbrev pub prepend {ℓ} : {A : Type ℓ} → Option A → List A → List A
prepend none xs = xs
prepend (some a) xs = a ∷ xs

-- `.map(f).filter((x) => x !== null)`
abbrev pub collect {ℓ κ} : {A : Type ℓ} {B : Type κ} → (A → Option B) → List A → List B
collect f [] = []
collect f (x ∷ xs) = prepend (f x) (collect f xs)

-- `decidedIds.has(r.gateId)`
abbrev pub is_decided : List Decision → GateRequest → Bool
is_decided ds r = any (λ d. number_beq (whole d.gate_id) r.gate_id) ds

abbrev pub latest_undecided :
    List Decision → Option GateRequest → List GateRequest → Option GateRequest
latest_undecided ds pending [] = pending
latest_undecided ds pending (r ∷ rs) =
    latest_undecided ds (if not (is_decided ds r) then some r else pending) rs

abbrev pub last_of : List Decision → Option Decision
last_of [] = none
last_of (d ∷ []) = some d
last_of (d ∷ e ∷ ds) = last_of (e ∷ ds)

abbrev pub state_of : List GateRequest → List Decision → GateState
state_of rs ds = record {
  gate_requests = rs;
  gate_decisions = ds;
  pending_gate = latest_undecided ds none rs;
  last_decision = last_of ds;
  next_gate_id = length rs;
}

unfoldable pub compute_gate_state : List Json → GateState
unfolding gate_request_from_entry gate_decision_from_entry
compute_gate_state entries =
    state_of (collect gate_request_from_entry entries) (collect gate_decision_from_entry entries)

-- `feedback ? " " + feedback : ""`
abbrev pub spaced : Option String → String
spaced none = ""
spaced (some s) = if text_same s "" then "" else join " " s

abbrev pub or_none_given : Option String → String
or_none_given none = "No feedback provided."
or_none_given (some s) = s

-- `abort` never gets here.
unfoldable pub continuation_prompt : GateAction → Option String → String
continuation_prompt approve feedback = join "Human decision: APPROVED." (
    join (spaced feedback)
      "\nProceed with the proposed action. When finished, call submit_verdict exactly once, then stop.")
continuation_prompt _ feedback = join "Human decision: REJECTED. " (
    join (or_none_given feedback)
      "\nRevise accordingly. You may call request_approval again when ready, or call submit_verdict when done.")

pub data SeedDecision : Type 0 where
  paused : GateRequest → SeedDecision
  aborted : Option Decision → SeedDecision
  seed : String → Option Decision → SeedDecision

-- What a decision makes of a run, once it is accepted.
abbrev pub carry_out : Decision → Option Decision → SeedDecision
carry_out d recorded = elim d.action [
  | abort ↦ aborted recorded
  | approve ↦ seed (continuation_prompt approve d.feedback) recorded
  | reject ↦ seed (continuation_prompt reject d.feedback) recorded
]

abbrev pub answer : GateState → GateRequest → Option Decision → SeedDecision
answer s gate none = paused gate
answer s gate (some d) =
    if number_beq (whole d.gate_id) gate.gate_id
    then carry_out d (if is_decided s.gate_decisions gate then none else some d)
    else paused gate

abbrev pub continue_from : Option Decision → String → SeedDecision
continue_from none fresh_prompt = seed fresh_prompt none
continue_from (some d) fresh_prompt = carry_out d none

abbrev pub seed_at : GateState → Option GateRequest → Option Decision → String → SeedDecision
seed_at s none decision fresh_prompt = continue_from s.last_decision fresh_prompt
seed_at s (some gate) decision fresh_prompt = answer s gate decision

unfoldable pub decide_seed : GateState → Option Decision → String → SeedDecision
decide_seed s decision fresh_prompt = seed_at s s.pending_gate decision fresh_prompt
