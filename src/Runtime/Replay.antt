-- ===== src/Runtime/Replay.antt =====
-- `replay_trace` of packages/runtime/aro_runtime/replay.py: run the script of a trace again on a
-- fresh workspace and compare it with what the trace recorded.
pub mod Clean
use agent_runtime_observator.Prelude.{
  ℕ, suc, Bool, true, false, ◌&&◌, not, String, Option, none, some, List, [], ◌∷◌, ◌++◌, ◌==◌, ltb,
  str_eq, if◌then◌else◌, length, or_else,
}
use agent_runtime_observator.Text.{◌⁀◌}
use agent_runtime_observator.Outcome.{Outcome, ok, tool_error, fault, ◌>>=◌}
use agent_runtime_observator.Platform.{Platform}
use agent_runtime_observator.Json.{ℤ, pos, negsuc}
use agent_runtime_observator.Schema.Models.{decision_value}
use agent_runtime_observator.Schema.Models.Run.{PolicyDecision, StepRecord, AgentRun}
use agent_runtime_observator.Schema.Models.Governance.{StepDivergence, ReplayReport}
use agent_runtime_observator.Runtime.Workspace.{Files, digest}
use agent_runtime_observator.Runtime.Event.{Clock, Header, Event}
use agent_runtime_observator.Runtime.Executor.{
  State, Executed, done, crashed, Config, execute_script,
}
use agent_runtime_observator.Runtime.Script.{validate_script}
use agent_runtime_observator.Runtime.Trace.{Codec, load_trace}

abbrev divergence : ℤ → String → Option String → Option String → StepDivergence
divergence i field recorded replayed = record {
  step_index = i;
  field = field;
  recorded = recorded;
  replayed = replayed;
}

abbrev pub same_text? : Option String → Option String → Bool
same_text? none none = true
same_text? none (some t) = false
same_text? (some s) none = false
same_text? (some s) (some t) = str_eq s t

-- `if getattr(rec, field) != getattr(new, field)`
unfoldable pub compare_field : ℕ → String → Option String → Option String → List StepDivergence
compare_field i field recorded replayed =
    if same_text? recorded replayed then [] else divergence (pos i) field recorded replayed ∷ []

-- `{d.step_index: d for d in decisions}.get(i)`: the last decision for a step stays.
unfoldable pub decision_at : ℕ → List PolicyDecision → Option PolicyDecision
decision_at i [] = none
decision_at i (d ∷ ds) = or_else (decision_at i ds) (if d.step_index == i then some d else none)

-- `f"{d.rule_id}:{d.decision.value}" if d else None`
unfoldable pub decision_text : Option PolicyDecision → Option String
unfolding decision_value
decision_text none = none
decision_text (some d) = some (d.rule_id ⁀ ":" ⁀ decision_value d.decision)

module _ (recorded_decisions fresh_decisions : List PolicyDecision) where
  -- The body of the loop for a step that both runs have.
  unfoldable pub compare_step : ℕ → StepRecord → StepRecord → List StepDivergence
  unfolding compare_field decision_at decision_text
  compare_step i rec new =
      compare_field i "input_digest" (some rec.input_digest) (some new.input_digest)
      ++ compare_field i "output_digest" rec.output_digest new.output_digest
      ++ compare_field i "error" rec.error new.error
      ++ compare_field i "policy_decision" (decision_text (decision_at i recorded_decisions))
          (decision_text (decision_at i fresh_decisions))

  -- The loop from step `i` on, over what is left of the two lists of steps.
  unfoldable pub compare_steps : ℕ → List StepRecord → List StepRecord → List StepDivergence
  unfolding compare_step
  compare_steps i [] [] = []
  compare_steps i [] (new ∷ news) =
      divergence (pos i) "extra_step" none (some new.name) ∷ compare_steps (suc i) [] news
  compare_steps i (rec ∷ recs) [] =
      divergence (pos i) "missing_step" (some rec.name) none ∷ compare_steps (suc i) recs []
  compare_steps i (rec ∷ recs) (new ∷ news) =
      compare_step i rec new ++ compare_steps (suc i) recs news

abbrev pub max : ℕ → ℕ → ℕ
max a b = if ltb a b then b else a

-- `if header.get("workspace_digest") and ws_digest != header["workspace_digest"]`, at step -1
unfoldable pub compare_workspace : String → String → List StepDivergence
compare_workspace recorded found =
    if not (str_eq recorded "") && not (str_eq found recorded)
    then divergence (negsuc 0) "workspace_digest" (some recorded) (some found) ∷ []
    else []

-- The report on a fresh run.
unfoldable pub report : Platform → Files → Header → AgentRun → Executed → Outcome ReplayReport
unfolding compare_workspace compare_steps
report platform files header recorded (crashed f s) = fault f
report platform files header recorded (done fresh) = ok (record {
  run_id = recorded.id;
  steps_compared = max (length recorded.steps) (length fresh.run.steps);
  divergences =
      compare_workspace header.workspace_digest (digest platform files)
      ++ compare_steps recorded.policy_decisions fresh.run.policy_decisions 0 recorded.steps
          fresh.run.steps;
})

-- The settings of the run that is compared with the trace: it writes no trace itself.
abbrev pub fresh_config : Clock → Header → AgentRun → Config
fresh_config clock header recorded = record {
  policy = header.policy;
  run_id = recorded.id;
  writing = false;
  clock = clock;
}

-- `replay_trace` on the text of the trace file.
unfoldable pub replay_trace :
    Platform → Codec → Clock → String → String → Files → Outcome ReplayReport
unfolding report validate_script
replay_trace platform codec clock path text files = do
  (header, recorded) ← load_trace codec path text
  script ← validate_script header.script
  report platform files header recorded
      (execute_script platform (fresh_config clock header recorded) script files)
