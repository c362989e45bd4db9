-- ===== src/Runtime/Executor/Effect.antt =====
-- One round of the loop as a function of the workspace and the outputs so far, followed by one
-- commit of all that the round records.
pub mod Round
pub mod Facts
pub mod Same
use agent_runtime_observator.Prelude.{
  ℕ, Bool, true, false, String, Option, none, some, List, [], ◌∷◌, ◌++◌, str_eq, if◌then◌else◌,
}
use agent_runtime_observator.Text.{◌⁀◌, take_text}
use agent_runtime_observator.Outcome.{Outcome, ok, tool_error, fault, attribute_error, uncaught}
use agent_runtime_observator.Platform.{Platform}
use agent_runtime_observator.Json.{Value, str, Fields, digest_text}
use agent_runtime_observator.Json.Lookup.{field_get?}
use agent_runtime_observator.Schema.Models.{artifact_write, Decision, allow, deny, needs_review}
use agent_runtime_observator.Schema.Models.Run.{
  PolicyDecision, RiskSignal, EvidenceItem, Artifact, StepRecord, AgentRun,
}
use agent_runtime_observator.Runtime.Workspace.{Files}
use agent_runtime_observator.Runtime.Policy.{PolicyRule, evaluate}
use agent_runtime_observator.Runtime.Script.{ScriptedStep}
use agent_runtime_observator.Runtime.Tools.{call_tool}
use agent_runtime_observator.Runtime.Resolve.{resolve_args}
use agent_runtime_observator.Runtime.Event.{
  Event, policy_decision, risk_signal, evidence, artifact, step, on_step_end,
}
use agent_runtime_observator.Runtime.Executor.{
  State, Config, log, preview_chars, begin_step, input_digest, decision_of, signal_of, evidence_of,
  artifact_of,
}

-- What a round adds to the run and the trace. The times of the step are left to the commit.
pub record Effect : Type 0 where
  pub step : StepRecord
  pub decision : Option PolicyDecision
  pub signal : Option RiskSignal
  pub evidence : Option EvidenceItem
  pub artifact : Option Artifact
  pub output : Option String
  pub failing : Bool
  pub files : Files

abbrev pub add? {ℓ} : {A : Type ℓ} → List A → Option A → List A
add? xs none = xs
add? xs (some x) = xs ++ x ∷ []

abbrev pub log? {ℓ} : {A : Type ℓ} → Bool → (A → Event) → List Event → Option A → List Event
log? w f events none = events
log? w f events (some a) = log w events (f a)

-- What is known when the tool is about to be called.
pub record Gate : Type 0 where
  pub step : StepRecord
  pub decision : Option PolicyDecision
  pub signal : Option RiskSignal

abbrev effect_of :
    Gate
    → StepRecord
    → Option EvidenceItem
    → Option Artifact
    → Option String
    → Bool
    → Files
    → Effect
effect_of g st e a output failing files = record {
  step = st;
  decision = g.decision;
  signal = g.signal;
  evidence = e;
  artifact = a;
  output = output;
  failing = failing;
  files = files;
}

module _ (platform : Platform) (config : Config) where
  abbrev pub timed : ℕ → StepRecord → StepRecord
  timed i st = record st {
    started_at = config.clock.step_started i;
    duration_ms = config.clock.step_took i;
  }

  abbrev pub commit_run : ℕ → Effect → AgentRun → AgentRun
  commit_run i e run = record run {
    steps = run.steps ++ timed i e.step ∷ [];
    policy_decisions = add? run.policy_decisions e.decision;
    risk_signals = add? run.risk_signals e.signal;
    evidence = add? run.evidence e.evidence;
    artifacts = add? run.artifacts e.artifact;
  }

  abbrev pub commit_events : ℕ → Effect → List Event → List Event
  commit_events i e events =
      let w = config.writing in
      log w
        (log? w artifact
          (log? w evidence (log? w risk_signal (log? w policy_decision events e.decision) e.signal)
            e.evidence)
          e.artifact)
        (step (timed i e.step))

  abbrev pub commit : ℕ → Effect → State → State
  commit i e s =
      let run = commit_run i e s.run in
      record {
        run = run;
        files = e.files;
        outputs = s.outputs ++ e.output ∷ [];
        failed_so_far = if e.failing then true else s.failed_so_far;
        events = commit_events i e s.events;
        calls = s.calls ++ on_step_end run (timed i e.step) e.decision ∷ [];
      }

  artifact_effect :
      ℕ
      → Gate
      → StepRecord
      → EvidenceItem
      → String
      → Files
      → Option Value
      → Option Value
      → Outcome Effect
  unfolding artifact_of
  artifact_effect i g seen e output files (some (str path)) (some (str content)) = ok (
      effect_of g (record seen { kind = artifact_write }) (some e)
        (some (artifact_of platform config i path content)) (some output) false files)
  artifact_effect i g seen e output files _ _ = fault attribute_error

  abbrev seen_step : StepRecord → String → StepRecord
  seen_step st output = record st {
    output_digest = some (digest_text platform output);
    output_preview = some (take_text preview_chars output);
  }

  tool_effect : ℕ → Gate → Files → Outcome (Files × String) → Outcome Effect
  unfolding artifact_effect evidence_of
  tool_effect i g files (ok (files', output)) =
      let st = g.step in
      let seen = seen_step st output in
      let e = evidence_of platform config i st.name (digest_text platform output) in
      if str_eq st.name "write_file"
      then artifact_effect i g seen e output files' (field_get? "path" st.args)
          (field_get? "content" st.args)
      else ok (effect_of g seen (some e) none (some output) false files')
  tool_effect i g files (tool_error message) =
      ok (effect_of g (record g.step { error = some message }) none none none true files)
  tool_effect i g files (fault f) = fault f

  decided_effect : ℕ → Gate → Files → Decision → Option PolicyRule → Outcome Effect
  unfolding tool_effect
  decided_effect i g files deny none = fault attribute_error
  decided_effect i g files deny (some rule) = ok (
      effect_of g (record g.step { error = some ("blocked by policy rule " ⁀ rule.id) }) none none
        none false files)
  decided_effect i g files allow rule =
      tool_effect i g files (call_tool platform g.step.name files g.step.args)
  decided_effect i g files needs_review rule =
      tool_effect i g files (call_tool platform g.step.name files g.step.args)

  abbrev signal_for : Decision → RiskSignal → Option RiskSignal
  signal_for allow signal = none
  signal_for deny signal = some signal
  signal_for needs_review signal = some signal

  abbrev gate_of : ℕ → StepRecord → Decision → PolicyRule → String → Gate
  gate_of i st decision rule reason =
      let pd = decision_of platform config i decision rule reason in
      record {
        step = record st { decision_id = some pd.id };
        decision = some pd;
        signal = signal_for decision (signal_of platform config i st.name rule reason);
      }

  gated_effect :
      ℕ → StepRecord → Files → Outcome (Decision × Option PolicyRule × String) → Outcome Effect
  unfolding decided_effect decision_of signal_of
  gated_effect i st files (ok (decision, none, reason)) =
      decided_effect i (record { step = st; decision = none; signal = none }) files decision none
  gated_effect i st files (ok (decision, some rule, reason)) =
      decided_effect i (gate_of i st decision rule reason) files decision (some rule)
  gated_effect i st files (tool_error message) = fault (uncaught message)
  gated_effect i st files (fault f) = fault f

  abbrev untimed : StepRecord → StepRecord
  untimed st = record st { started_at = 0 }

  abbrev resolved_step : ℕ → ScriptedStep → Fields → StepRecord
  resolved_step i scripted args = untimed (record (begin_step platform config i scripted) {
    args = args;
    input_digest = input_digest platform config scripted.tool args;
  })

  effect_resolved : ℕ → ScriptedStep → Files → Outcome Fields → Outcome Effect
  unfolding gated_effect begin_step input_digest
  effect_resolved i scripted files (ok args) =
      gated_effect i (resolved_step i scripted args) files
        (evaluate platform config.policy scripted.tool args)
  effect_resolved i scripted files (tool_error message) = ok (
      effect_of
        (record { step = begin_step platform config i scripted; decision = none; signal = none })
        (untimed (record (begin_step platform config i scripted) {
          args = scripted.args;
          input_digest = input_digest platform config scripted.tool scripted.args;
          error = some message;
        }))
        none none none true files)
  effect_resolved i scripted files (fault f) = fault f

  -- The effect of a round, from the workspace and the outputs alone.
  pub effect : ℕ → ScriptedStep → Files → List (Option String) → Outcome Effect
  unfolding effect_resolved
  effect i scripted files outputs =
      effect_resolved i scripted files (resolve_args platform scripted.args outputs)
