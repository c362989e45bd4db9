-- ===== src/Runtime/Executor/Effect/Facts.antt =====
-- What the effect of a round records, on every branch.
use mathlib.Core.Option
use agent_runtime_observator.Prelude.{
  ℕ, ◌≡◌, refl, ap, Bool, true, false, not, ◌&&◌, String, Option, none, some, List, str_eq, OnSome,
  is_none, is_some, arith, Bool-cases, inl, inr,
}
use agent_runtime_observator.Text.{◌⁀◌}
use agent_runtime_observator.Text.Decimal.{show_nat}
use agent_runtime_observator.Outcome.{Outcome, ok, tool_error, fault}
use agent_runtime_observator.Platform.{Platform}
use agent_runtime_observator.Json.{Value, str, Fields, digest_text}
use agent_runtime_observator.Json.Lookup.{field_get?}
use agent_runtime_observator.Schema.Models.{Decision, allow, deny, needs_review}
use agent_runtime_observator.Schema.Models.Run.{
  PolicyDecision, RiskSignal, EvidenceItem, Artifact, StepRecord, is_deny,
}
use agent_runtime_observator.Runtime.Workspace.{Files}
use agent_runtime_observator.Runtime.Policy.{PolicyRule, evaluate}
use agent_runtime_observator.Runtime.Script.{ScriptedStep}
use agent_runtime_observator.Runtime.Resolve.{resolve_args}
use agent_runtime_observator.Runtime.Executor.{
  Config, begin_step, decision_of, signal_of, evidence_of,
}
use agent_runtime_observator.Runtime.Executor.Effect.{
  Effect, Gate, gate_of, resolved_step, seen_step, artifact_effect, tool_effect, decided_effect,
  gated_effect, effect_resolved, effect,
}

abbrev pub Ensures : (Effect → Type 0) → Outcome Effect → Type 0
Ensures P (ok e) = P e
Ensures P _ = Unit

-- `decision in (DENY, NEEDS_REVIEW)`
abbrev pub is_flagged : PolicyDecision → Bool
is_flagged d = elim d.decision [ allow ↦ false | deny ↦ true | needs_review ↦ true ]

abbrev pub holds : (PolicyDecision → Bool) → Option PolicyDecision → Bool
holds p none = false
holds p (some d) = p d

module _ (platform : Platform) (config : Config) where
  -- The identity of a policy decision of step i.
  pub record OwnDecision (i : ℕ) (d : PolicyDecision) : Type 0 where
    pub id : d.id ≡ config.run_id ⁀ "-pd-" ⁀ show_nat i
    pub run_id : d.run_id ≡ config.run_id
    pub step_index : d.step_index ≡ i

  pub record OwnSignal (i : ℕ) (r : RiskSignal) : Type 0 where
    pub run_id : r.run_id ≡ config.run_id
    pub step_index : r.step_index ≡ i

  -- What the gate has recorded.
  pub record GateFacts (i : ℕ) (g : Gate) : Type 0 where
    pub index : g.step.index ≡ i
    pub decision : OnSome (OwnDecision i) g.decision
    pub signal : OnSome (OwnSignal i) g.signal
    pub signalled : is_some g.signal ≡ holds is_flagged g.decision
    pub fresh_digest : g.step.output_digest ≡ none
    pub fresh_error : g.step.error ≡ none

  pub record Facts (i : ℕ) (files : Files) (e : Effect) : Type 0 where
    pub index : e.step.index ≡ i
    pub decision : OnSome (OwnDecision i) e.decision
    pub signal : OnSome (OwnSignal i) e.signal
    pub signalled : is_some e.signal ≡ holds is_flagged e.decision
    pub evidence : OnSome (λ (x : EvidenceItem). x.run_id ≡ config.run_id) e.evidence
    pub artifact : OnSome (λ (x : Artifact). x.run_id ≡ config.run_id) e.artifact
    pub digested : e.step.output_digest ≡ Option.map (digest_text platform) e.output
    pub observed : is_some e.evidence ≡ is_some e.output
    pub explained : is_some e.step.error ≡ is_none e.output
    pub quiet : is_none e.output ≡ true → e.files ≡ files
    pub denied : holds is_deny e.decision ≡ true → e.output ≡ none
    pub failing : e.failing ≡ (is_none e.output && not (holds is_deny e.decision))

  module _ (i : ℕ) (files : Files) where
    artifact_effect-Facts :
        (g : Gate) (seen : StepRecord) (e : EvidenceItem) (output : String) (files' : Files)
        (path content : Option Value)
        → GateFacts i g
        → holds is_deny g.decision ≡ false
        → seen.index ≡ i
        → seen.error ≡ none
        → seen.output_digest ≡ some (digest_text platform output)
        → e.run_id ≡ config.run_id
        → Ensures
            (Facts i files)
            (artifact_effect platform config i g seen e output files' path content)
    unfolding artifact_effect
    artifact_effect-Facts g seen e output files' (some (str path)) (some (str content)) h n a b c
          d =
        record {
          index = a;
          decision = h.decision;
          signal = h.signal;
          signalled = h.signalled;
          evidence = d;
          artifact = refl;
          digested = c;
          observed = refl;
          explained = ap is_some b;
          quiet = λ q. cc;
          denied = λ q. cc;
          failing = refl;
        }
    artifact_effect-Facts g seen e output files' (some (str path)) _ h n a b c d = tt
    artifact_effect-Facts g seen e output files' _ _ h n a b c d = tt

    tool_effect-Facts :
        (g : Gate) (out : Outcome (Files × String))
        → GateFacts i g
        → holds is_deny g.decision ≡ false
        → Ensures (Facts i files) (tool_effect platform config i g files out)
    unfolding tool_effect evidence_of
    tool_effect-Facts g (fault f) h n = tt
    tool_effect-Facts g (tool_error m) h n = record {
      index = h.index;
      decision = h.decision;
      signal = h.signal;
      signalled = h.signalled;
      evidence = tt;
      artifact = tt;
      digested = h.fresh_digest;
      observed = refl;
      explained = refl;
      quiet = λ q. refl;
      denied = λ q. refl;
      failing = rw n refl;
    }
    tool_effect-Facts g (ok (files', output)) h n =
        elim (Bool-cases (str_eq g.step.name "write_file")) [
          | inl e ↦ rw e (
              artifact_effect-Facts g (seen_step platform config g.step output) _ output files'
                (field_get? "path" g.step.args) (field_get? "content" g.step.args) h n h.index
                h.fresh_error refl refl)
          | inr e ↦ rw e (record {
            index = h.index;
            decision = h.decision;
            signal = h.signal;
            signalled = h.signalled;
            evidence = refl;
            artifact = tt;
            digested = refl;
            observed = refl;
            explained = ap is_some h.fresh_error;
            quiet = λ q. cc;
            denied = λ q. cc;
            failing = refl;
          })
        ]

    decided_effect-Facts :
        (g : Gate) (decision : Decision) (rule : Option PolicyRule)
        → GateFacts i g
        → holds is_deny g.decision ≡ (
            is_some g.decision
            && elim decision [ allow ↦ false | deny ↦ true | needs_review ↦ false ])
        → is_some rule ≡ is_some g.decision
        → Ensures (Facts i files) (decided_effect platform config i g files decision rule)
    unfolding decided_effect
    decided_effect-Facts g deny none h n r = tt
    decided_effect-Facts g deny (some rule) h n r = record {
      index = h.index;
      decision = h.decision;
      signal = h.signal;
      signalled = h.signalled;
      evidence = tt;
      artifact = tt;
      digested = h.fresh_digest;
      observed = refl;
      explained = refl;
      quiet = λ q. refl;
      denied = λ q. refl;
      failing = ground (arith, n, r);
    }
    decided_effect-Facts g allow rule h n r = tool_effect-Facts g _ h (ground (arith, n))
    decided_effect-Facts g needs_review rule h n r = tool_effect-Facts g _ h (ground (arith, n))

    gate_of-Facts :
        (st : StepRecord) (decision : Decision) (rule : PolicyRule) (reason : String)
        → st.index ≡ i
        → st.output_digest ≡ none
        → st.error ≡ none
        → GateFacts i (gate_of platform config i st decision rule reason)
    unfolding decision_of signal_of
    gate_of-Facts st allow rule reason a b c = record {
      index = a;
      decision = record { id = refl; run_id = refl; step_index = refl };
      signal = tt;
      signalled = refl;
      fresh_digest = b;
      fresh_error = c;
    }
    gate_of-Facts st deny rule reason a b c = record {
      index = a;
      decision = record { id = refl; run_id = refl; step_index = refl };
      signal = record { run_id = refl; step_index = refl };
      signalled = refl;
      fresh_digest = b;
      fresh_error = c;
    }
    gate_of-Facts st needs_review rule reason a b c = record {
      index = a;
      decision = record { id = refl; run_id = refl; step_index = refl };
      signal = record { run_id = refl; step_index = refl };
      signalled = refl;
      fresh_digest = b;
      fresh_error = c;
    }

    ungated :
        (st : StepRecord)
        → st.index ≡ i
        → st.output_digest ≡ none
        → st.error ≡ none
        → GateFacts i (record { step = st; decision = none; signal = none })
    ungated st a b c = record {
      index = a;
      decision = tt;
      signal = tt;
      signalled = refl;
      fresh_digest = b;
      fresh_error = c;
    }

    gated_effect-Facts :
        (st : StepRecord) (out : Outcome (Decision × Option PolicyRule × String))
        → st.index ≡ i
        → st.output_digest ≡ none
        → st.error ≡ none
        → Ensures (Facts i files) (gated_effect platform config i st files out)
    unfolding gated_effect decision_of
    gated_effect-Facts st (fault f) a b c = tt
    gated_effect-Facts st (tool_error m) a b c = tt
    gated_effect-Facts st (ok (decision, none, reason)) a b c =
        decided_effect-Facts (record { step = st; decision = none; signal = none }) decision none
          (ungated st a b c) refl refl
    gated_effect-Facts st (ok (decision, some rule, reason)) a b c =
        decided_effect-Facts (gate_of platform config i st decision rule reason) decision
          (some rule) (gate_of-Facts st decision rule reason a b c) refl refl

    effect_resolved-Facts :
        (scripted : ScriptedStep) (out : Outcome Fields)
        → Ensures (Facts i files) (effect_resolved platform config i scripted files out)
    unfolding effect_resolved begin_step
    effect_resolved-Facts scripted (fault f) = tt
    effect_resolved-Facts scripted (tool_error m) = record {
      index = refl;
      decision = tt;
      signal = tt;
      signalled = refl;
      evidence = tt;
      artifact = tt;
      digested = refl;
      observed = refl;
      explained = refl;
      quiet = λ q. refl;
      denied = λ q. refl;
      failing = refl;
    }
    effect_resolved-Facts scripted (ok args) =
        gated_effect-Facts (resolved_step platform config i scripted args)
          (evaluate platform config.policy scripted.tool args) refl refl refl

  pub effect-Facts :
      (i : ℕ) (scripted : ScriptedStep) (files : Files) (outputs : List (Option String))
      → Ensures (Facts i files) (effect platform config i scripted files outputs)
  unfolding effect
  effect-Facts i scripted files outputs =
      effect_resolved-Facts i files scripted (resolve_args platform scripted.args outputs)
