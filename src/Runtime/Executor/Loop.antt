-- ===== src/Runtime/Executor/Loop.antt =====
-- Induction over the loop of `execute_script`: what every commit keeps holds at the end.
use agent_runtime_observator.Prelude.{ℕ, suc, ◌+◌, ◌≡◌, refl, sym, ◌∙◌, List, [], ◌∷◌, length}
use mathlib.Core.Path.{subst}
use native.Mathlib.Nat.{add-zero, add-suc, suc-add, zero-add}
use agent_runtime_observator.Outcome.{Outcome, ok, tool_error, fault}
use agent_runtime_observator.Platform.{Platform}
use agent_runtime_observator.Runtime.Workspace.{Files}
use agent_runtime_observator.Runtime.Script.{Script, ScriptedStep}
use agent_runtime_observator.Runtime.Executor.{
  State, Executed, done, crashed, Config, run_step, run_steps, begin_run, end_run, ended,
  execute_script,
}
use agent_runtime_observator.Runtime.Executor.Effect.{Effect, commit, effect}
use agent_runtime_observator.Runtime.Executor.Effect.Round.{Agrees, run_step-Agrees}
use agent_runtime_observator.Runtime.Executor.Effect.Facts.{Ensures, Facts, effect-Facts}

done_inj : {s t : State} → done s ≡ done t → s ≡ t
done_inj h = cc

module _ (platform : Platform) (config : Config) where
  -- A round that does not crash commits an effect with its facts.
  pub committed :
      (i : ℕ) (scripted : ScriptedStep) (s : State) {s' : State}
      → run_step platform config i scripted s ≡ done s'
      → (e : Effect) × (effect platform config i scripted s.files s.outputs ≡ ok e)
        × Facts platform config i s.files e
        × (commit platform config i e s ≡ s')
  committed i scripted s {s'} h =
      go (effect platform config i scripted s.files s.outputs) refl
        (run_step-Agrees platform config i s scripted)
        (effect-Facts platform config i scripted s.files s.outputs)
    where
      go :
          (out : Outcome Effect)
          → effect platform config i scripted s.files s.outputs ≡ out
          → Agrees platform config i s out (run_step platform config i scripted s)
          → Ensures (Facts platform config i s.files) out
          → (e : Effect) × (effect platform config i scripted s.files s.outputs ≡ ok e)
            × Facts platform config i s.files e
            × (commit platform config i e s ≡ s')
      go (ok e) eq agrees facts = (e, eq, facts, done_inj (sym agrees ∙ h))
      go (tool_error m) eq agrees facts = absurd agrees
      go (fault f) eq agrees facts = cc (agrees.1, h)

  module _ (P : ℕ → State → Type 0)
      (keeps : (i : ℕ) (s : State) (e : Effect)
        → Facts platform config i s.files e
        → P i s
        → P (suc i) (commit platform config i e s)) where
    after_round :
        (i : ℕ) (scripted : ScriptedStep) (s : State) {s' : State}
        → P i s
        → run_step platform config i scripted s ≡ done s'
        → P (suc i) s'
    after_round i scripted s p h =
        let (e, _, facts, same) = committed i scripted s h in
        subst (P (suc i)) same (keeps i s e facts p)

    after_rounds :
        (i n : ℕ) (rest : List ScriptedStep) (s' : State) (x : Executed)
        → ((t : State) → x ≡ done t → P (suc i) t)
        → ((t : State)
            → P (suc i) t
            → run_steps platform config (suc i) rest t ≡ done s'
            → P (suc i + n) s')
        → (elim x [ done t ↦ run_steps platform config (suc i) rest t | crashed f t ↦ crashed f t ])
          ≡ done s'
        → P (i + suc n) s'
    after_rounds i n rest s' (done t) p go h =
        subst (λ k. P k s') (suc-add i n ∙ sym (add-suc i n)) (go t (p t refl) h)
    after_rounds i n rest s' (crashed f t) p go h = cc h

    pub loop_induction :
        (i : ℕ) (steps : List ScriptedStep) (s s' : State)
        → P i s
        → run_steps platform config i steps s ≡ done s'
        → P (i + length steps) s'
    unfolding run_steps
    loop_induction i [] s s' p h = subst (P (i + 0)) (done_inj h) (rw add-zero p)
    loop_induction i (scripted ∷ rest) s s' p h =
        after_rounds i (length rest) rest s' (run_step platform config i scripted s)
          (λ t e. after_round i scripted s p e) (λ t q k. loop_induction (suc i) rest t s' q k) h

  -- What holds before the loop and survives every round holds at the end of the loop.
  pub loop_invariant :
      (P : ℕ → State → Type 0)
      → ((i : ℕ) (s : State) (e : Effect)
          → Facts platform config i s.files e
          → P i s
          → P (suc i) (commit platform config i e s))
      → (script : Script) (files : Files) (s : State) → P 0 (begin_run platform config script files)
      → execute_script platform config script files ≡ done s
      → (t : State) × P (length script.steps) t × (s ≡ end_run platform config t)
  unfolding execute_script
  loop_invariant P keeps script files s p h =
      go (run_steps platform config 0 script.steps (begin_run platform config script files))
        (λ t e.
          subst (λ k. P k t) (zero-add (length script.steps))
            (loop_induction P keeps 0 script.steps _ t p e))
        h
    where
      go :
          (x : Executed)
          → ((t : State) → x ≡ done t → P (length script.steps) t)
          → ended platform config x ≡ done s
          → (t : State) × P (length script.steps) t × (s ≡ end_run platform config t)
      go (done t) p h = (t, p t refl, sym (done_inj h))
      go (crashed f t) p h = cc h
