-- ===== src/Runtime/Executor/Effect/Same.antt =====
-- The effect of a round does not depend on the clock, nor on whether a trace is written.
use agent_runtime_observator.Prelude.{
  ℕ, ◌≡◌, refl, Bool, String, Option, none, some, List, str_eq, inl, inr, Bool-cases,
}
use agent_runtime_observator.Outcome.{Outcome, ok, tool_error, fault}
use agent_runtime_observator.Platform.{Platform}
use agent_runtime_observator.Json.{Value, str, Fields}
use agent_runtime_observator.Json.Lookup.{field_get?}
use agent_runtime_observator.Schema.Models.{Decision, allow, deny, needs_review}
use agent_runtime_observator.Schema.Models.Run.{EvidenceItem, StepRecord}
use agent_runtime_observator.Runtime.Workspace.{Files}
use agent_runtime_observator.Runtime.Event.{Clock}
use agent_runtime_observator.Runtime.Policy.{Policy, PolicyRule, evaluate}
use agent_runtime_observator.Runtime.Script.{ScriptedStep}
use agent_runtime_observator.Runtime.Resolve.{resolve_args}
use agent_runtime_observator.Runtime.Executor.{Config}
use agent_runtime_observator.Runtime.Executor.Effect.{
  Gate, gate_of, resolved_step, seen_step, artifact_effect, tool_effect, decided_effect,
  gated_effect, effect_resolved, effect,
}

module _ (platform : Platform) (policy : Policy) (run_id : String) (w w' : Bool)
    (clock clock' : Clock) where
  abbrev one : Config
  one = record { policy = policy; run_id = run_id; writing = w; clock = clock }

  abbrev two : Config
  two = record { policy = policy; run_id = run_id; writing = w'; clock = clock' }

  artifact_effect-same :
      (i : ℕ) (g : Gate) (seen : StepRecord) (e : EvidenceItem) (output : String) (files : Files)
      (path content : Option Value)
      → artifact_effect platform one i g seen e output files path content
        ≡ artifact_effect platform two i g seen e output files path content
  unfolding artifact_effect
  artifact_effect-same i g seen e output files (some (str path)) (some (str content)) = refl
  artifact_effect-same i g seen e output files (some (str path)) _ = refl
  artifact_effect-same i g seen e output files _ _ = refl

  tool_effect-same :
      (i : ℕ) (g : Gate) (files : Files) (out : Outcome (Files × String))
      → tool_effect platform one i g files out ≡ tool_effect platform two i g files out
  unfolding tool_effect
  tool_effect-same i g files (fault f) = refl
  tool_effect-same i g files (tool_error m) = refl
  tool_effect-same i g files (ok (files', output)) =
      elim (Bool-cases (str_eq g.step.name "write_file")) [
        | inl e ↦ rw e (
            artifact_effect-same i g (seen_step platform one g.step output) _ output files'
              (field_get? "path" g.step.args) (field_get? "content" g.step.args))
        | inr e ↦ rw e refl
      ]

  decided_effect-same :
      (i : ℕ) (g : Gate) (files : Files) (decision : Decision) (rule : Option PolicyRule)
      → decided_effect platform one i g files decision rule
        ≡ decided_effect platform two i g files decision rule
  unfolding decided_effect
  decided_effect-same i g files deny none = refl
  decided_effect-same i g files deny (some rule) = refl
  decided_effect-same i g files allow rule = tool_effect-same i g files _
  decided_effect-same i g files needs_review rule = tool_effect-same i g files _

  gated_effect-same :
      (i : ℕ) (st : StepRecord) (files : Files)
      (out : Outcome (Decision × Option PolicyRule × String))
      → gated_effect platform one i st files out ≡ gated_effect platform two i st files out
  unfolding gated_effect
  gated_effect-same i st files (fault f) = refl
  gated_effect-same i st files (tool_error m) = refl
  gated_effect-same i st files (ok (decision, none, reason)) =
      decided_effect-same i (record { step = st; decision = none; signal = none }) files decision
        none
  gated_effect-same i st files (ok (decision, some rule, reason)) =
      decided_effect-same i (gate_of platform one i st decision rule reason) files decision
        (some rule)

  effect_resolved-same :
      (i : ℕ) (scripted : ScriptedStep) (files : Files) (out : Outcome Fields)
      → effect_resolved platform one i scripted files out
        ≡ effect_resolved platform two i scripted files out
  unfolding effect_resolved
  effect_resolved-same i scripted files (fault f) = refl
  effect_resolved-same i scripted files (tool_error m) = refl
  effect_resolved-same i scripted files (ok args) =
      gated_effect-same i (resolved_step platform one i scripted args) files
        (evaluate platform policy scripted.tool args)

  pub effect-same :
      (i : ℕ) (scripted : ScriptedStep) (files : Files) (outputs : List (Option String))
      → effect platform one i scripted files outputs ≡ effect platform two i scripted files outputs
  unfolding effect
  effect-same i scripted files outputs =
      effect_resolved-same i scripted files (resolve_args platform scripted.args outputs)
