-- ===== src/Runtime/Executor.antt =====
-- `execute_script` of packages/runtime/aro_runtime/executor.py: resolve the arguments, gate the step
-- through the policy, execute it, record it. One function for each stretch of the loop's body; the
-- cases are the `except` and `else` branches.
pub mod Effect
pub mod Loop
pub mod Invariant
pub mod Determinism
pub mod Sound
use Prim.Native.String
use agent_runtime_observator.Prelude.{
  ℕ, suc, Bool, true, false, String, Option, none, some, List, [], ◌∷◌, ◌++◌, str_eq, if◌then◌else◌,
}
use agent_runtime_observator.Text.{◌⁀◌, take_text, ends_with}
use agent_runtime_observator.Text.Decimal.{show_nat}
use agent_runtime_observator.Outcome.{
  Outcome, ok, tool_error, fault, Fault, attribute_error, uncaught,
}
use agent_runtime_observator.Platform.{Platform}
use agent_runtime_observator.Json.{Value, str, obj, Fields, end, field, digest_obj, digest_text}
use agent_runtime_observator.Json.Lookup.{field_get?}
use agent_runtime_observator.Schema.Models.{
  running, completed, failed, tool_call, artifact_write, Decision, allow, deny, needs_review,
}
use agent_runtime_observator.Schema.Models.Run.{
  PolicyDecision, RiskSignal, EvidenceItem, Artifact, StepRecord, Coverage, AgentRun,
}
use agent_runtime_observator.Runtime.Workspace.{Files, digest}
use agent_runtime_observator.Runtime.Policy.{Policy, PolicyRule, evaluate}
use agent_runtime_observator.Runtime.Script.{Script, ScriptedStep}
use agent_runtime_observator.Runtime.Tools.{call_tool}
use agent_runtime_observator.Runtime.Resolve.{resolve_args}
use agent_runtime_observator.Runtime.Event.{
  Clock, Header, trace_version, Event, run_start, policy_decision, risk_signal, evidence, artifact,
  step, run_end, HookCall, on_run_start, on_step_end, on_run_end,
}

abbrev pub preview_chars : ℕ
preview_chars = 200

abbrev pub scripted_coverage : Coverage
scripted_coverage = record {
  captured =
      "step_inputs_and_outputs_by_digest" ∷ "policy_decisions" ∷ "risk_signals" ∷ "evidence_items"
      ∷ "artifacts" ∷ "jsonl_trace" ∷ [];
  blind_spots =
      "Tools are in-process simulations; no real shell, network, or filesystem is observed."
      ∷ "LLM/model internals are out of scope for the scripted runner." ∷ [];
  enforcement =
      "Policy is enforced before every tool step (deny blocks execution)."
      ∷ "needs_review executes but records review debt; nothing consumes it automatically." ∷ [];
}

-- The variables of the loop, the workspace, the trace file and the calls of the hooks so far.
pub record State : Type 0 where
  pub run : AgentRun
  pub files : Files
  pub outputs : List (Option String)
  pub failed_so_far : Bool
  pub events : List Event
  pub calls : List HookCall

-- An exception that is no `ToolError` leaves the function at once.
pub data Executed : Type 0 where
  done : State → Executed
  crashed : Fault → State → Executed

-- What a call of `execute_script` is given besides the script and the workspace.
pub record Config : Type 0 where
  pub policy : Policy
  pub run_id : String
  pub writing : Bool
  pub clock : Clock

-- `if writer: writer.event(…)`
abbrev pub log : Bool → List Event → Event → List Event
log true events e = events ++ e ∷ []
log false events e = events

module _ (platform : Platform) (config : Config) where
  write : Event → State → State
  write e s = record s { events = log config.writing s.events e }

  call : HookCall → State → State
  call c s = record s { calls = s.calls ++ c ∷ [] }

  -- The record at the head of the loop's body.
  begin_step : ℕ → ScriptedStep → StepRecord
  begin_step i scripted = record {
    index = i;
    kind = tool_call;
    name = scripted.tool;
    args = end;
    allocated_to = scripted.allocated_to;
    supports_goal = scripted.supports_goal;
    input_digest = "";
    output_digest = none;
    output_preview = none;
    decision_id = none;
    started_at = config.clock.step_started i;
    duration_ms = 0;
    error = none;
  }

  input_digest : String → Fields → String
  input_digest tool args =
      digest_obj platform (obj (field "tool" (str tool) (field "args" (obj args) end)))

  -- `outputs.append(…)`, and `failed = True` where the step failed
  push_output : Option String → Bool → State → State
  push_output o failing s = record s {
    outputs = s.outputs ++ o ∷ [];
    failed_so_far = if failing then true else s.failed_so_far;
  }

  -- The end of the loop's body.
  finish_step : ℕ → StepRecord → Option PolicyDecision → State → Executed
  unfolding write call
  finish_step i st pd s =
      let timed = record st { duration_ms = config.clock.step_took i } in
      let recorded = record s { run = record s.run { steps = s.run.steps ++ timed ∷ [] } } in
      let written = write (step timed) recorded in
      done (call (on_step_end written.run timed pd) written)

  pub decision_of : ℕ → Decision → PolicyRule → String → PolicyDecision
  decision_of i decision rule reason = record {
    id = config.run_id ⁀ "-pd-" ⁀ show_nat i;
    run_id = config.run_id;
    step_index = i;
    policy_id = config.policy.id;
    rule_id = rule.id;
    decision = decision;
    reason = reason;
  }

  pub signal_of : ℕ → String → PolicyRule → String → RiskSignal
  signal_of i tool rule reason = record {
    id = config.run_id ⁀ "-rs-" ⁀ show_nat i;
    run_id = config.run_id;
    step_index = i;
    severity = rule.severity;
    category = rule.category;
    message = "rule " ⁀ rule.id ⁀ " matched " ⁀ tool ⁀ ": " ⁀ reason;
  }

  add_decision : PolicyDecision → State → State
  unfolding write
  add_decision pd s =
      write (policy_decision pd)
        (record s { run = record s.run { policy_decisions = s.run.policy_decisions ++ pd ∷ [] } })

  add_signal : RiskSignal → State → State
  unfolding write
  add_signal signal s =
      write (risk_signal signal)
        (record s { run = record s.run { risk_signals = s.run.risk_signals ++ signal ∷ [] } })

  -- `if decision in (DENY, NEEDS_REVIEW)`
  add_signal_for : Decision → RiskSignal → State → State
  unfolding add_signal
  add_signal_for allow signal s = s
  add_signal_for deny signal s = add_signal signal s
  add_signal_for needs_review signal s = add_signal signal s

  pub evidence_of : ℕ → String → String → EvidenceItem
  evidence_of i tool digest = record {
    id = config.run_id ⁀ "-ev-" ⁀ show_nat i;
    run_id = config.run_id;
    step_index = i;
    kind = "tool_output";
    digest = digest;
    uri = none;
    description = "output of " ⁀ tool;
  }

  add_evidence : EvidenceItem → State → State
  unfolding write
  add_evidence e s =
      write (evidence e) (record s { run = record s.run { evidence = s.run.evidence ++ e ∷ [] } })

  pub artifact_of : ℕ → String → String → Artifact
  artifact_of i path content = record {
    id = config.run_id ⁀ "-art-" ⁀ show_nat i;
    run_id = config.run_id;
    path = path;
    digest = digest_text platform content;
    media_type = if ends_with path ".md" then "text/markdown" else "text/plain";
    size_bytes = String.len content;
  }

  add_artifact : Artifact → State → State
  unfolding write
  add_artifact a s =
      write (artifact a) (record s { run = record s.run { artifacts = s.run.artifacts ++ a ∷ [] } })

  -- The artifact of a `write_file`: its path and content must be texts, or `.encode` or `.endswith`
  -- is an AttributeError.
  keep_artifact :
      ℕ → StepRecord → Option PolicyDecision → Option Value → Option Value → State → Executed
  unfolding artifact_of add_artifact finish_step
  keep_artifact i st pd (some (str path)) (some (str content)) s =
      finish_step i (record st { kind = artifact_write }) pd
        (add_artifact (artifact_of i path content) s)
  keep_artifact i st pd _ _ s = crashed attribute_error s

  -- The `else` branch behind the call of the tool.
  keep_output : ℕ → StepRecord → Option PolicyDecision → Files → String → State → Executed
  unfolding evidence_of add_evidence push_output keep_artifact finish_step
  keep_output i st pd files output s =
      let digest = digest_text platform output in
      let seen = record st {
        output_digest = some digest;
        output_preview = some (take_text preview_chars output);
      } in
      let kept =
        add_evidence (evidence_of i st.name digest)
          (push_output (some output) false (record s { files = files })) in
      if str_eq st.name "write_file"
      then keep_artifact i seen pd (field_get? "path" st.args) (field_get? "content" st.args) kept
      else finish_step i seen pd kept

  -- The call of the tool, with its `except ToolError`.
  ran : ℕ → StepRecord → Option PolicyDecision → Outcome (Files × String) → State → Executed
  unfolding push_output finish_step keep_output
  ran i st pd (ok (files, output)) s = keep_output i st pd files output s
  ran i st pd (tool_error message) s =
      finish_step i (record st { error = some message }) pd (push_output none true s)
  ran i st pd (fault f) s = crashed f s

  run_tool : ℕ → StepRecord → Option PolicyDecision → State → Executed
  unfolding ran
  run_tool i st pd s = ran i st pd (call_tool platform st.name s.files st.args) s

  -- `if decision == DENY`: the message names the rule, so a denial without a rule is an
  -- AttributeError.
  decided : ℕ → StepRecord → Option PolicyDecision → Decision → Option PolicyRule → State → Executed
  unfolding push_output finish_step run_tool
  decided i st pd deny none s = crashed attribute_error s
  decided i st pd deny (some rule) s =
      finish_step i (record st { error = some ("blocked by policy rule " ⁀ rule.id) }) pd
        (push_output none false s)
  decided i st pd allow rule s = run_tool i st pd s
  decided i st pd needs_review rule s = run_tool i st pd s

  -- `if rule is not None`: the decision, and the risk signal, are recorded.
  gated : ℕ → StepRecord → Outcome (Decision × Option PolicyRule × String) → State → Executed
  unfolding decision_of signal_of add_decision add_signal_for decided
  gated i st (ok (decision, none, reason)) s = decided i st none decision none s
  gated i st (ok (decision, some rule, reason)) s =
      let pd = decision_of i decision rule reason in
      decided i (record st { decision_id = some pd.id }) (some pd) decision (some rule)
        (add_signal_for decision (signal_of i st.name rule reason) (add_decision pd s))
  gated i st (tool_error message) s = crashed (uncaught message) s
  gated i st (fault f) s = crashed f s

  -- The arguments with their references replaced, with the `except ToolError` of that.
  resolved : ℕ → ScriptedStep → Outcome Fields → State → Executed
  unfolding begin_step input_digest push_output finish_step gated
  resolved i scripted (ok args) s =
      let st = record (begin_step i scripted) {
        args = args;
        input_digest = input_digest scripted.tool args;
      } in
      gated i st (evaluate platform config.policy scripted.tool args) s
  resolved i scripted (tool_error message) s =
      finish_step i
        (record (begin_step i scripted) {
          args = scripted.args;
          input_digest = input_digest scripted.tool scripted.args;
          error = some message;
        })
        none (push_output none true s)
  resolved i scripted (fault f) s = crashed f s

  pub run_step : ℕ → ScriptedStep → State → Executed
  unfolding resolved
  run_step i scripted s = resolved i scripted (resolve_args platform scripted.args s.outputs) s

  -- The loop over the scripted steps.
  pub run_steps : ℕ → List ScriptedStep → State → Executed
  unfolding run_step
  run_steps i [] s = done s
  run_steps i (scripted ∷ rest) s = elim (run_step i scripted s) [
    | done s' ↦ run_steps (suc i) rest s'
    | crashed f s' ↦ crashed f s'
  ]

  unfoldable pub start_run : Script → AgentRun
  start_run script = record {
    id = config.run_id;
    task_id = script.task.id;
    agent = script.agent;
    model = script.model;
    status = running;
    started_at = some config.clock.run_started;
    finished_at = none;
    coverage = some scripted_coverage;
    reviewer_seats = script.reviewer_seats;
    steps = [];
    policy_decisions = [];
    risk_signals = [];
    evidence = [];
    artifacts = [];
  }

  unfoldable pub header_of : Script → Files → Header
  header_of script files = record {
    version = trace_version;
    run_id = config.run_id;
    script = script;
    policy = config.policy;
    workspace_digest = digest platform files;
    coverage = scripted_coverage;
  }

  -- Everything before the loop.
  unfoldable pub begin_run : Script → Files → State
  unfolding write call start_run header_of
  begin_run script files =
      let run = start_run script in
      write (run_start (header_of script files)) (
        call (on_run_start run) (record {
          run = run;
          files = files;
          outputs = [];
          failed_so_far = false;
          events = [];
          calls = [];
        }))

  -- Everything behind the loop.
  unfoldable pub end_run : State → State
  unfolding write call
  end_run s =
      let status = if s.failed_so_far then failed else completed in
      let run = record s.run { status = status; finished_at = some config.clock.run_finished } in
      call (on_run_end run) (
        write (run_end status config.clock.run_started config.clock.run_finished)
          (record s { run = run }))

  pub ended : Executed → Executed
  unfolding end_run
  ended (done s) = done (end_run s)
  ended (crashed f s) = crashed f s

  unfoldable pub execute_script : Script → Files → Executed
  unfolding run_steps begin_run ended
  execute_script script files = ended (run_steps 0 script.steps (begin_run script files))
