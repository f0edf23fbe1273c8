-- ===== src/Harness/Tests.antt =====
-- A leaf's session with one gate, and what a run makes of it.
use Prim.Native.String.{String}
use serverless_harness.Base.{◌≡◌, refl, ◌⊎◌, inr, true, none, some, List, [], ◌∷◌, ◌++◌, All}
use serverless_harness.Harness.Json.{
  whole, Json, number, string, array, no_items, object, no_fields, with_field,
}
use serverless_harness.Harness.Gate.{
  approve, GateRequest, Decision, ok, error, validate_decision, gate_decision_from_entry,
  is_decided, compute_gate_state, continuation_prompt, paused, seed, carry_out, decide_seed,
}
use serverless_harness.Harness.Gate.Resume.{
  requests, decisions, IsLatest, Answers, compute_gate_state_cases, decide_seed_cases,
  decide_seed_resumes,
}
use serverless_harness.Harness.Verdict.{
  flagged, Verdict, valid, rejected, validate_verdict, Describes, validate_verdict_iff,
}
use serverless_harness.Base.{◌↔◌}

computes : Unit {0}
unfolding validate_verdict validate_decision gate_decision_from_entry compute_gate_state
    continuation_prompt decide_seed
computes = tt

abbrev custom : String → Json → Json
custom kind value = object (
    with_field "type" (string "custom")
      (with_field "customType" (string kind) (with_field "data" value no_fields)))

abbrev asked : Json
asked = custom "gate-request" (
    object (
      with_field "gateId" (number (whole 0)) (
        with_field "summary" (string "drop the table")
          (with_field "proposed_action" (string "drop") no_fields))))

abbrev approval : Json
approval =
    object
      (with_field "gateId" (number (whole 0)) (with_field "action" (string "approve") no_fields))

abbrev session : List Json
session = object no_fields ∷ asked ∷ []

abbrev gate : GateRequest
gate = record { gate_id = whole 0; summary = "drop the table"; proposed_action = "drop" }

abbrev decided : Decision
decided = record { gate_id = 0; action = approve; feedback = none }

validate_tests :
    (validate_decision (some approval) ≡ ok decided)
    × (validate_decision (some (array no_items)) ≡ error "gateId must be a non-negative integer")
    × (validate_decision none ≡ error "decision must be an object")
unfolding computes
validate_tests = (refl, refl, refl)

gate_tests :
    ((compute_gate_state session).pending_gate ≡ some gate)
    × (decide_seed (compute_gate_state session) none "go" ≡ paused gate)
    × (decide_seed (compute_gate_state (object no_fields ∷ [])) none "go" ≡ seed "go" none)
    × (decide_seed (compute_gate_state (session ++ custom "gate-decision" approval ∷ [])) none "go"
        ≡ seed
            "Human decision: APPROVED.\nProceed with the proposed action. When finished, call submit_verdict exactly once, then stop."
            none)
unfolding computes
gate_tests = (refl, refl, refl, refl)

compute_gate_state_cases_example :
    (((compute_gate_state session).pending_gate ≡ none)
      × All (λ q. is_decided (decisions session) q ≡ true) (requests session))
    ⊎ ((r : GateRequest) × ((compute_gate_state session).pending_gate ≡ some r)
        × IsLatest (decisions session) r (requests session))
compute_gate_state_cases_example = compute_gate_state_cases session

decide_seed_cases_example :
    let outcome = decide_seed (compute_gate_state session) (some decided) "go" in
    (outcome ≡ paused gate)
    ⊎ ((d : Decision) × (some decided ≡ some d)
        × (whole d.gate_id ≡ gate.gate_id)
        × Answers d.action d outcome)
unfolding computes
decide_seed_cases_example = decide_seed_cases session gate (some decided) "go" refl

decide_seed_resumes_example :
    (decide_seed (compute_gate_state session) (some decided) "go"
      ≡ carry_out decided (some decided))
    × (decide_seed (compute_gate_state (session ++ custom "gate-decision" approval ∷ [])) none "go"
        ≡ carry_out decided none)
unfolding computes
decide_seed_resumes_example =
    decide_seed_resumes session gate decided (custom "gate-decision" approval) none "go" refl
      (inr refl, tt) refl refl

abbrev submitted : Json
submitted = object (
    with_field "item_id" (string "42")
      (with_field "verdict" (string "FLAGGED") (with_field "reason" (string "") no_fields)))

abbrev verdict_42 : Verdict
verdict_42 = record { item_id = "42"; verdict = flagged; reason = "" }

verdict_tests :
    (validate_verdict (some submitted) ≡ valid verdict_42)
    × (validate_verdict (some approval) ≡ rejected "item_id must be a non-empty string")
unfolding computes
verdict_tests = (refl, refl)

validate_verdict_iff_example :
    (validate_verdict (some submitted) ≡ valid verdict_42) ↔ Describes submitted verdict_42
validate_verdict_iff_example = validate_verdict_iff submitted verdict_42
