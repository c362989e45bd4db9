-- ===== src/Runtime/Executor/Effect/Round.antt =====
-- A round of the loop is the commit of its effect, or the crash of its effect.
use agent_runtime_observator.Prelude.{
  ℕ, ◌≡◌, refl, String, Option, none, some, [], ◌∷◌, ◌++◌, str_eq, Bool-cases, inl, inr,
}
use agent_runtime_observator.Text.{take_text}
use agent_runtime_observator.Outcome.{Outcome, ok, tool_error, fault}
use agent_runtime_observator.Platform.{Platform}
use agent_runtime_observator.Json.{Value, str, Fields, digest_text}
use agent_runtime_observator.Json.Lookup.{field_get?}
use agent_runtime_observator.Schema.Models.{Decision, allow, deny, needs_review}
use agent_runtime_observator.Schema.Models.Run.{StepRecord, EvidenceItem}
use agent_runtime_observator.Runtime.Workspace.{Files}
use agent_runtime_observator.Runtime.Policy.{PolicyRule, evaluate}
use agent_runtime_observator.Runtime.Script.{ScriptedStep}
use agent_runtime_observator.Runtime.Tools.{call_tool}
use agent_runtime_observator.Runtime.Resolve.{resolve_args}
use agent_runtime_observator.Runtime.Event.{policy_decision, risk_signal, evidence}
use agent_runtime_observator.Runtime.Executor.{
  State, Executed, done, crashed, Config, log, preview_chars, evidence_of, keep_artifact, ran,
  run_tool, decided, gated, resolved, run_step,
}
use agent_runtime_observator.Runtime.Executor.Effect.{
  Effect, gate_of, resolved_step, add?, log?, commit, Gate, artifact_effect, tool_effect,
  decided_effect, gated_effect, effect_resolved, effect,
}

module _ (platform : Platform) (config : Config) (i : ℕ) (s : State) where
  abbrev pub Agrees : Outcome Effect → Executed → Type 0
  Agrees (ok e) x = x ≡ done (commit platform config i e s)
  Agrees (tool_error _) x = ⊥
  Agrees (fault f) x = (s' : State) × (x ≡ crashed f s')

  -- The record of a gate, with the time at which the step began.
  abbrev begun : StepRecord → StepRecord
  begun st = record st { started_at = config.clock.step_started i }

  -- The state once the decision and the signal of a gate are recorded.
  abbrev gate_state : Gate → State
  gate_state g = record s {
    run = record s.run {
      policy_decisions = add? s.run.policy_decisions g.decision;
      risk_signals = add? s.run.risk_signals g.signal;
    };
    events =
        log? config.writing risk_signal (log? config.writing policy_decision s.events g.decision)
          g.signal;
  }

  keep_artifact-Agrees :
      (g : Gate) (seen : StepRecord) (e : EvidenceItem) (output : String) (files : Files)
      (kept : State) (path content : Option Value)
      → kept ≡ record (gate_state g) {
        files = files;
        run = record (gate_state g).run { evidence = s.run.evidence ++ e ∷ [] };
        outputs = s.outputs ++ some output ∷ [];
        events = log config.writing (gate_state g).events (evidence e);
      }
      → Agrees
          (artifact_effect platform config i g seen e output files path content)
          (keep_artifact platform config i (begun seen) g.decision path content kept)
  unfolding artifact_effect keep_artifact
  keep_artifact-Agrees g seen e output files kept (some (str path)) (some (str content)) h =
      rw h refl
  keep_artifact-Agrees g seen e output files kept (some (str path)) _ h = (kept, refl)
  keep_artifact-Agrees g seen e output files kept _ _ h = (kept, refl)

  ran_ok-Agrees :
      (g : Gate) (files : Files) (output : String)
      → Agrees
          (tool_effect platform config i g s.files (ok (files, output)))
          (ran platform config i (begun g.step) g.decision (ok (files, output)) (gate_state g))
  unfolding tool_effect ran
  ran_ok-Agrees g files output =
      let digest = digest_text platform output in
      let seen : StepRecord = record g.step {
        output_digest = some digest;
        output_preview = some (take_text preview_chars output);
      } in
      let e : EvidenceItem = evidence_of platform config i g.step.name digest in
      let path = field_get? "path" g.step.args in
      let content = field_get? "content" g.step.args in
      let kept : State = record (gate_state g) {
        files = files;
        run = record (gate_state g).run { evidence = s.run.evidence ++ e ∷ [] };
        outputs = s.outputs ++ some output ∷ [];
        events = log config.writing (gate_state g).events (evidence e);
      } in
      elim (Bool-cases (str_eq g.step.name "write_file")) [
        | inl e₁ ↦ rw e₁ (keep_artifact-Agrees g seen e output files kept path content refl)
        | inr e₁ ↦ rw e₁ refl
      ]

  ran-Agrees :
      (g : Gate) (out : Outcome (Files × String))
      → Agrees
          (tool_effect platform config i g s.files out)
          (ran platform config i (begun g.step) g.decision out (gate_state g))
  unfolding tool_effect ran
  ran-Agrees g (fault f) = (gate_state g, refl)
  ran-Agrees g (tool_error m) = refl
  ran-Agrees g (ok (files, output)) = ran_ok-Agrees g files output

  decided-Agrees :
      (g : Gate) (decision : Decision) (rule : Option PolicyRule)
      → Agrees
          (decided_effect platform config i g s.files decision rule)
          (decided platform config i (begun g.step) g.decision decision rule (gate_state g))
  unfolding decided_effect decided run_tool
  decided-Agrees g deny none = (gate_state g, refl)
  decided-Agrees g deny (some rule) = refl
  decided-Agrees g allow rule = ran-Agrees g (call_tool platform g.step.name s.files g.step.args)
  decided-Agrees g needs_review rule =
      ran-Agrees g (call_tool platform g.step.name s.files g.step.args)

  gated-Agrees :
      (st : StepRecord) (out : Outcome (Decision × Option PolicyRule × String))
      → Agrees
          (gated_effect platform config i st s.files out)
          (gated platform config i (begun st) out s)
  unfolding gated_effect gated
  gated-Agrees st (fault f) = (s, refl)
  gated-Agrees st (tool_error m) = (s, refl)
  gated-Agrees st (ok (decision, none, reason)) =
      decided-Agrees (record { step = st; decision = none; signal = none }) decision none
  gated-Agrees st (ok (allow, some rule, reason)) =
      decided-Agrees (gate_of platform config i st allow rule reason) allow (some rule)
  gated-Agrees st (ok (deny, some rule, reason)) =
      decided-Agrees (gate_of platform config i st deny rule reason) deny (some rule)
  gated-Agrees st (ok (needs_review, some rule, reason)) =
      decided-Agrees (gate_of platform config i st needs_review rule reason) needs_review
        (some rule)

  resolved-Agrees :
      (scripted : ScriptedStep) (out : Outcome Fields)
      → Agrees
          (effect_resolved platform config i scripted s.files out)
          (resolved platform config i scripted out s)
  unfolding effect_resolved resolved
  resolved-Agrees scripted (fault f) = (s, refl)
  resolved-Agrees scripted (tool_error m) = refl
  resolved-Agrees scripted (ok args) =
      gated-Agrees (resolved_step platform config i scripted args)
        (evaluate platform config.policy scripted.tool args)

  -- A round of the loop is a function of the workspace and the outputs so far: it commits the
  -- effect that these determine, or it crashes where they say.
  pub run_step-Agrees :
      (scripted : ScriptedStep)
      → Agrees
          (effect platform config i scripted s.files s.outputs)
          (run_step platform config i scripted s)
  unfolding effect run_step
  run_step-Agrees scripted =
      resolved-Agrees scripted (resolve_args platform scripted.args s.outputs)
