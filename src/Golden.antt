-- ===== src/Golden.antt =====
-- packages/evals/aro_evals/golden.py: a bundled example is run and compared with its expected
-- outcome and its golden trace.
pub mod Recorded
use agent_runtime_observator.Prelude.{
  ℕ, Bool, true, false, not, ◌&&◌, ◌||◌, String, Option, none, some, List, [], ◌∷◌, ◌++◌, map, keep,
  contains, ltb, ◌==◌, str_eq, if◌then◌else◌,
}
use agent_runtime_observator.Text.{◌⁀◌, text_le}
use agent_runtime_observator.Outcome.{Outcome, ok, tool_error, fault, ◌>>=◌}
use agent_runtime_observator.Platform.{Platform}
use agent_runtime_observator.Json.{show_int}
use agent_runtime_observator.Schema.Models.{status_value, decision_value, severity_value}
use agent_runtime_observator.Schema.Models.Run.{PolicyDecision, RiskSignal, Artifact, AgentRun}
use agent_runtime_observator.Schema.Models.Governance.{StepDivergence, ReplayReport}
use agent_runtime_observator.Runtime.Event.{Clock, Event}
use agent_runtime_observator.Runtime.Executor.{Executed, done, crashed}
use agent_runtime_observator.Runtime.Bundle.{Example, run_example}
use agent_runtime_observator.Runtime.Trace.{Codec}
use agent_runtime_observator.Runtime.Replay.{replay_trace}

-- The tuples that are compared: a step index and two texts.
pub record Finding : Type 0 where
  pub step_index : ℕ
  pub first : String
  pub second : String

pub record Expected : Type 0 where
  pub final_status : String
  pub policy_decisions : List Finding
  pub risk_signals : List Finding
  pub artifacts : List String

-- `<=` on tuples
finding_le : Finding → Finding → Bool
finding_le a b =
    if a.step_index == b.step_index
    then (if str_eq a.first b.first then text_le a.second b.second else text_le a.first b.first)
    else ltb a.step_index b.step_index

insert_finding : Finding → List Finding → List Finding
unfolding finding_le
insert_finding a [] = a ∷ []
insert_finding a (b ∷ bs) =
    let later = b ∷ insert_finding a bs in if finding_le a b then a ∷ b ∷ bs else later

-- `sorted(…)`
sorted : List Finding → List Finding
unfolding insert_finding
sorted [] = []
sorted (a ∷ rest) = insert_finding a (sorted rest)

same_finding : Finding → Finding → Bool
same_finding a b =
    (a.step_index == b.step_index) && (str_eq a.first b.first && str_eq a.second b.second)

same_findings : List Finding → List Finding → Bool
unfolding same_finding
same_findings [] [] = true
same_findings [] (b ∷ bs) = false
same_findings (a ∷ rest) [] = false
same_findings (a ∷ rest) (b ∷ bs) = same_finding a b && same_findings rest bs

-- The non-allow decisions of a run.
decision_findings : List PolicyDecision → List Finding
unfolding decision_value
decision_findings ds =
    map
      (λ (d : PolicyDecision). record {
        step_index = d.step_index;
        first = d.rule_id;
        second = decision_value d.decision;
      })
      (keep (λ (d : PolicyDecision). not (str_eq (decision_value d.decision) "allow")) ds)

signal_findings : List RiskSignal → List Finding
unfolding severity_value
signal_findings = map (λ (r : RiskSignal). record {
  step_index = r.step_index;
  first = severity_value r.severity;
  second = r.category;
})

-- How Python prints a list of tuples, and an optional text.
pub record Printing : Type 0 where
  pub show_findings : List Finding → String
  pub show_text : Option String → String

module _ (printing : Printing) where
  compare_findings : String → List Finding → List Finding → List String
  unfolding same_findings
  compare_findings what want got =
      if same_findings got want
      then []
      else (what
          ⁀ ": expected "
          ⁀ printing.show_findings want
          ⁀ ", got "
          ⁀ printing.show_findings got)
        ∷ []

  compare_status : String → String → List String
  compare_status want got =
      if str_eq got want then [] else ("final_status: expected " ⁀ want ⁀ ", got " ⁀ got) ∷ []

  missing_artifacts : List String → List String → List String
  missing_artifacts present [] = []
  missing_artifacts present (path ∷ expected) =
      let rest = missing_artifacts present expected in
      if contains present path then rest else ("missing artifact: " ⁀ path) ∷ rest

  divergence_text : StepDivergence → String
  unfolding show_int
  divergence_text d =
      "golden replay divergence at step "
      ⁀ show_int d.step_index
      ⁀ " ("
      ⁀ d.field
      ⁀ "): recorded="
      ⁀ printing.show_text d.recorded
      ⁀ " replayed="
      ⁀ printing.show_text d.replayed

  -- The comparisons of the run itself.
  unfoldable pub compare_run : Expected → AgentRun → List String
  unfolding sorted decision_findings signal_findings compare_findings compare_status
      missing_artifacts status_value
  compare_run expected run =
      compare_status expected.final_status (status_value run.status)
      ++ compare_findings "policy_decisions" (sorted expected.policy_decisions)
          (sorted (decision_findings run.policy_decisions))
      ++ compare_findings "risk_signals" (sorted expected.risk_signals)
          (sorted (signal_findings run.risk_signals))
      ++ missing_artifacts (map (λ (a : Artifact). a.path) run.artifacts) expected.artifacts

  module _ (platform : Platform) (codec : Codec) (clock replay_clock : Clock)
      (run_id path : String) where
    compare_golden : Example → Option String → Outcome (List String)
    unfolding divergence_text
    compare_golden example none =
        ok ("no golden trace recorded (run scripts/record_goldens.py)" ∷ [])
    compare_golden example (some trace) = do
      report ← replay_trace platform codec replay_clock path trace example.workspace
      ok (map divergence_text report.divergences)

    evaluate_run : Example → Expected → Option String → Executed → Outcome (List String)
    unfolding compare_run compare_golden
    evaluate_run example expected golden (crashed f s) = fault f
    evaluate_run example expected golden (done s) = do
      replayed ← compare_golden example golden
      ok (compare_run expected s.run ++ replayed)

    -- The failures of `evaluate_example`: the expected outcome and the golden trace are what the
    -- files beside the example hold, and `run_id` is the fresh id of the run.
    unfoldable pub evaluate_example :
        Example → Option Expected → Option String → Outcome (List String)
    unfolding evaluate_run
    evaluate_example example none golden = ok ("no expected.json" ∷ [])
    evaluate_example example (some expected) golden =
        evaluate_run example expected golden (run_example platform clock example run_id)

-- `EvalResult.passed`
unfoldable pub passed : List String → Bool
passed [] = true
passed (_ ∷ _) = false
