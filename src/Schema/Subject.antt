-- ===== src/Schema/Subject.antt =====
-- packages/schema/aro_schema/review_debt.py: the canonical subject of a run in its versions, the
-- digest that binds an attestation to it, and the test that an attestation is still fresh.
pub mod Laws
pub mod Binding
use Prim.Native.String.{[] as nil_text, ◌∷◌ as cons_text}
use agent_runtime_observator.Prelude.{
  ℕ, zero, suc, ◌+◌, ◌*◌, Bool, true, false, code, String, Option, none, some, List, [], ◌∷◌, map,
  any, ◌==◌, str_eq, if◌then◌else◌,
}
use mathlib.Core.Option
use agent_runtime_observator.Text.{◌⁀◌}
use agent_runtime_observator.Text.Decimal.{show_nat}
use agent_runtime_observator.Platform.{Platform}
use agent_runtime_observator.Json.{
  ℤ, pos, Value, null, int, str, arr, obj, Items, nil, item, Fields, end, field, digest_obj,
}
use agent_runtime_observator.Schema.Models.{decision_value}
use agent_runtime_observator.Schema.Models.Run.{ReviewerSeat, PolicyDecision, StepRecord, AgentRun}

abbrev pub subject_schema_version : ℕ
subject_schema_version = 2

abbrev pub clearing_versions : List ℕ
clearing_versions = 2 ∷ []

abbrev items : List Value → Items
items [] = nil
items (v ∷ vs) = item v (items vs)

abbrev opt_str : Option String → Value
opt_str none = null
opt_str (some s) = str s

abbrev nat : ℕ → Value
nat n = int (pos n)

seat_row : ReviewerSeat → Value
seat_row s = arr (items (str s.id ∷ str s.name ∷ str s.role ∷ str s.scope ∷ []))

step_row : StepRecord → Value
step_row s =
    arr (items (nat s.index ∷ str s.input_digest ∷ opt_str s.output_digest ∷ opt_str s.error ∷ []))

decision_row : PolicyDecision → Value
unfolding decision_value
decision_row d = arr (
    items (
      str d.id
      ∷ nat d.step_index
      ∷ str d.policy_id
      ∷ str d.rule_id
      ∷ str (decision_value d.decision)
      ∷ str d.reason
      ∷ []))

decision_row_v1 : PolicyDecision → Value
unfolding decision_value
decision_row_v1 d =
    arr (items (nat d.step_index ∷ str d.rule_id ∷ str (decision_value d.decision) ∷ []))

pub subject_v2 : AgentRun → Value
unfolding seat_row step_row decision_row
subject_v2 run = obj (
    field "v" (nat 2) (
      field "run_id" (str run.id) (
        field "task_id" (str run.task_id) (
          field "agent" (str run.agent) (
            field "model" (opt_str run.model) (
              field "reviewer_seats" (arr (items (map seat_row run.reviewer_seats))) (
                field "steps" (arr (items (map step_row run.steps))) (
                  field "policy_decisions" (arr (items (map decision_row run.policy_decisions)))
                    end))))))))

subject_v1 : AgentRun → Value
unfolding step_row decision_row_v1
subject_v1 run = obj (
    field "v" (nat 1) (
      field "run_id" (str run.id) (
        field "steps" (arr (items (map step_row run.steps)))
          (field "policy_decisions" (arr (items (map decision_row_v1 run.policy_decisions))) end))))

-- `_canonical_subject`; `none` is the ValueError for an unknown version.
unfoldable pub canonical_subject : AgentRun → ℕ → Option Value
unfolding subject_v2 subject_v1
canonical_subject run version =
    if version == 2
    then some (subject_v2 run)
    else if version == 1
    then some (subject_v1 run)
    else none

module _ (platform : Platform) where
  -- The digits from here on to the colon, behind at least one digit.
  version_from : ℕ → String → Option ℕ
  version_from acc nil_text = none
  version_from acc (cons_text c s) = elim (platform.decimal_value c) [
    | some d ↦ version_from (acc * 10 + d) s
    | none ↦ if code c == 58 then some acc else none
  ]

  version_start : String → Option ℕ
  unfolding version_from
  version_start nil_text = none
  version_start (cons_text c s) = elim (platform.decimal_value c) [
    | some d ↦ version_from d s
    | none ↦ none
  ]

  -- `_VERSION_RE.match`, and `int` of its group
  unfoldable pub parse_version : String → Option ℕ
  unfolding version_start
  parse_version nil_text = none
  parse_version (cons_text c s) = if code c == 118 then version_start s else none

  unfoldable pub run_subject_digest : AgentRun → ℕ → Option String
  unfolding canonical_subject
  run_subject_digest run version =
      Option.map (λ subject. "v" ⁀ show_nat version ⁀ ":" ⁀ digest_obj platform subject)
        (canonical_subject run version)

  matches_version : AgentRun → String → ℕ → Bool
  unfolding run_subject_digest
  matches_version run digest version =
      if any (λ v. v == version) clearing_versions
      then elim (run_subject_digest run version) [ none ↦ false | some d ↦ str_eq d digest ]
      else false

  unfoldable pub subject_matches : AgentRun → String → Bool
  unfolding parse_version matches_version
  subject_matches run digest = elim (parse_version digest) [
    | none ↦ false
    | some version ↦ matches_version run digest version
  ]
