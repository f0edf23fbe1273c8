-- ===== src/Harness/Verdict.antt =====
-- harness/src/verdict.ts: what a leaf may submit.
use Prim.Native.String.{String}
use text.Mathlib.Text.{◌==◌ as text_same}
use text.Mathlib.TextEquality.{eq_iff}
use serverless_harness.Base.{
  ◌≡◌, ◌≢◌, refl, ◌↔◌, true, false, Option, none, some, if◌then◌else◌, arith, Bool-cases, ◌⊎◌, inl,
  inr, ap, ◌∙◌,
}
use serverless_harness.Harness.Json.{
  Json, null, boolean, number, string, array, object, prop, string_of,
}

pub data VerdictLabel : Type 0 where
  flagged clear : VerdictLabel

pub record Verdict : Type 0 where
  pub item_id : String
  pub verdict : VerdictLabel
  pub reason : String

pub data Checked : Type 0 where
  valid : Verdict → Checked
  rejected : String → Checked

abbrev pub label_text : VerdictLabel → String
label_text flagged = "FLAGGED"
label_text clear = "CLEAR"

abbrev pub label_named : String → Option VerdictLabel
label_named s =
    if text_same s "FLAGGED" then some flagged else if text_same s "CLEAR" then some clear else none

abbrev pub label_of : Option String → Option VerdictLabel
label_of none = none
label_of (some s) = label_named s

abbrev pub non_empty_text : Option String → Option String
non_empty_text none = none
non_empty_text (some s) = if text_same s "" then none else some s

abbrev pub check_parts : Option String → Option VerdictLabel → Option String → Checked
check_parts none label reason = rejected "item_id must be a non-empty string"
check_parts (some id) none reason = rejected "verdict must be \"FLAGGED\" or \"CLEAR\""
check_parts (some id) (some label) none = rejected "reason must be a string"
check_parts (some id) (some label) (some reason) =
    valid (record { item_id = id; verdict = label; reason = reason })

abbrev pub check_object : Json → Checked
check_object o =
    check_parts (non_empty_text (string_of (prop o "item_id")))
      (label_of (string_of (prop o "verdict"))) (string_of (prop o "reason"))

unfoldable pub validate_verdict : Option Json → Checked
validate_verdict (some (object members)) = check_object (object members)
validate_verdict (some (array items)) = check_object (array items)
validate_verdict _ = rejected "verdict must be an object"

-- The object has the fields of the verdict, and its item has a name.
pub record Describes (o : Json) (v : Verdict) : Type 0 where
  pub item : string_of (prop o "item_id") ≡ some v.item_id
  pub named : v.item_id ≢ ""
  pub label : string_of (prop o "verdict") ≡ some (label_text v.verdict)
  pub reason : string_of (prop o "reason") ≡ some v.reason

label_of_sound :
    (o : Option String) (l : VerdictLabel) → label_of o ≡ some l → o ≡ some (label_text l)
label_of_sound none l h = cc
label_of_sound (some s) l h = elim (Bool-cases (text_same s "FLAGGED")) [
  | inl a ↦
      let e = (eq_iff s "FLAGGED").0 a in
      let k : some flagged ≡ some l = ground arith in cc (e, ap_label k)
  | inr a ↦ elim (Bool-cases (text_same s "CLEAR")) [
    | inl b ↦
        let e = (eq_iff s "CLEAR").0 b in
        let k : some clear ≡ some l = ground arith in cc (e, ap_label k)
    | inr b ↦ absurd (let k : none ≡ some l = ground arith in cc k)
  ]
]
  where
    ap_label : {j k : VerdictLabel} → some j ≡ some k → label_text j ≡ label_text k
    ap_label h = ap (λ o. elim o [ none ↦ "" | some l ↦ label_text l ]) h

label_of_complete : (l : VerdictLabel) → label_of (some (label_text l)) ≡ some l
label_of_complete flagged = refl
label_of_complete clear = refl

non_empty_text_sound :
    (o : Option String) (s : String) → non_empty_text o ≡ some s → (o ≡ some s) × (s ≢ "")
non_empty_text_sound none s h = cc
non_empty_text_sound (some t) s h = elim (Bool-cases (text_same t "")) [
  | inl a ↦ absurd (let k : none ≡ some s = ground arith in cc k)
  | inr a ↦ let k : some t ≡ some s = ground arith in (k, λ e. cc ((eq_iff t "").1 (same k ∙ e), a))
]
  where
    same : {a b : String} → some a ≡ some b → a ≡ b
    same h = cc

non_empty_text_complete :
    (o : Option String) (s : String) → o ≡ some s → s ≢ "" → non_empty_text o ≡ some s
non_empty_text_complete o s e ne = ap non_empty_text e ∙ kept (Bool-cases (text_same s ""))
  where
    kept : (text_same s "" ≡ true) ⊎ (text_same s "" ≡ false) → non_empty_text (some s) ≡ some s
    kept (inl a) = absurd (ne ((eq_iff s "").0 a))
    kept (inr a) = rw a refl

-- The parts of an accepted verdict.
record Parts (a : Option String) (b : Option VerdictLabel) (c : Option String) (v : Verdict)
    : Type 0 where
  item : a ≡ some v.item_id
  label : b ≡ some v.verdict
  reason : c ≡ some v.reason

check_parts-Parts :
    (id : Option String) (label : Option VerdictLabel) (reason : Option String) (v : Verdict)
    → check_parts id label reason ≡ valid v
    → Parts id label reason v
check_parts-Parts none label reason v h = cc
check_parts-Parts (some id) none reason v h = cc
check_parts-Parts (some id) (some label) none v h = cc
check_parts-Parts (some id) (some label) (some reason) v h =
    let e : (record { item_id = id; verdict = label; reason = reason }) ≡ v = cc in
    record {
      item = ap (λ w. some w.item_id) e;
      label = ap (λ w. some w.verdict) e;
      reason = ap (λ w. some w.reason) e;
    }

check_object-Describes : (o : Json) (v : Verdict) → check_object o ≡ valid v → Describes o v
check_object-Describes o v h =
    let p = check_parts-Parts _ _ _ v h in
    let (item, named) = non_empty_text_sound (string_of (prop o "item_id")) v.item_id p.item in
    record {
      item = item;
      named = named;
      label = label_of_sound (string_of (prop o "verdict")) v.verdict p.label;
      reason = p.reason;
    }

Describes-check_object : (o : Json) (v : Verdict) → Describes o v → check_object o ≡ valid v
Describes-check_object o v d =
    ap (λ a. check_parts a (label_of (string_of (prop o "verdict"))) (string_of (prop o "reason")))
      (non_empty_text_complete (string_of (prop o "item_id")) v.item_id d.item d.named)
    ∙ ap (λ l. check_parts (some v.item_id) l (string_of (prop o "reason")))
        (ap label_of d.label ∙ label_of_complete v.verdict)
    ∙ ap (check_parts (some v.item_id) (some v.verdict)) d.reason

no_item_id : (o : Json) (v : Verdict) → prop o "item_id" ≡ none → ¬ Describes o v
no_item_id o v e d = cc (e, d.item)

-- A submitted value is accepted as a verdict exactly when it is an object with the verdict's three fields,
-- whose item has a name.
pub validate_verdict_iff :
    (o : Json) (v : Verdict) → (validate_verdict (some o) ≡ valid v) ↔ Describes o v
unfolding validate_verdict
validate_verdict_iff (object members) v =
    (check_object-Describes (object members) v, Describes-check_object (object members) v)
validate_verdict_iff (array items) v =
    (check_object-Describes (array items) v, Describes-check_object (array items) v)
validate_verdict_iff null v = (λ h. cc, λ d. absurd (no_item_id null v refl d))
validate_verdict_iff (boolean b) v = (λ h. cc, λ d. absurd (no_item_id (boolean b) v refl d))
validate_verdict_iff (number n) v = (λ h. cc, λ d. absurd (no_item_id (number n) v refl d))
validate_verdict_iff (string s) v = (λ h. cc, λ d. absurd (no_item_id (string s) v refl d))
