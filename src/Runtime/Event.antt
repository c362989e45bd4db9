-- ===== src/Runtime/Event.antt =====
-- The events of a trace (packages/runtime/aro_runtime/trace.py), the calls that a run makes of its
-- hooks (hooks.py), and the clock that a run reads.
use agent_runtime_observator.Prelude.{ℕ, String, Option}
use agent_runtime_observator.Schema.Models.{RunStatus}
use agent_runtime_observator.Schema.Models.Run.{
  PolicyDecision, RiskSignal, EvidenceItem, Artifact, StepRecord, Coverage, AgentRun,
}
use agent_runtime_observator.Runtime.Policy.{Policy}
use agent_runtime_observator.Runtime.Script.{Script}

abbrev pub trace_version : ℕ
trace_version = 1

pub record Header : Type 0 where
  pub version : ℕ
  pub run_id : String
  pub script : Script
  pub policy : Policy
  pub workspace_digest : String
  pub coverage : Coverage

pub data Event : Type 0 where
  run_start : Header → Event
  policy_decision : PolicyDecision → Event
  risk_signal : RiskSignal → Event
  evidence : EvidenceItem → Event
  artifact : Artifact → Event
  step : StepRecord → Event
  run_end : RunStatus → ℕ → ℕ → Event

pub data HookCall : Type 0 where
  on_run_start : AgentRun → HookCall
  on_step_end : AgentRun → StepRecord → Option PolicyDecision → HookCall
  on_run_end : AgentRun → HookCall

-- What `utcnow` and `perf_counter` give over one run.
pub record Clock : Type 0 where
  pub run_started : ℕ
  pub run_finished : ℕ
  pub step_started : ℕ → ℕ
  pub step_took : ℕ → ℕ
