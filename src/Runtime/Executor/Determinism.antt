-- ===== src/Runtime/Executor/Determinism.antt =====
-- Two runs of one script under one policy and one id, on the same files: the clock and the writing
-- of a trace change nothing but times.
use agent_runtime_observator.Prelude.{ℕ, suc, ◌≡◌, refl, sym, Bool, String, List, [], ◌∷◌, ◌++◌}
use mathlib.Core.Path.{subst}
use agent_runtime_observator.Outcome.{Outcome, ok, tool_error, fault}
use agent_runtime_observator.Platform.{Platform}
use agent_runtime_observator.Schema.Models.Run.{StepRecord}
use agent_runtime_observator.Runtime.Workspace.{Files}
use agent_runtime_observator.Runtime.Event.{Clock}
use agent_runtime_observator.Runtime.Policy.{Policy}
use agent_runtime_observator.Runtime.Script.{Script, ScriptedStep}
use agent_runtime_observator.Runtime.Executor.{
  State, Executed, done, crashed, Config, run_step, run_steps, begin_run, end_run, ended,
  execute_script,
}
use agent_runtime_observator.Runtime.Executor.Effect.{Effect, timed, commit, effect}
use agent_runtime_observator.Runtime.Executor.Effect.Round.{Agrees, run_step-Agrees}
use agent_runtime_observator.Runtime.Executor.Effect.Same.{effect-same}

-- A step without its times.
abbrev pub observed : StepRecord → StepRecord
observed st = record st { started_at = 0; duration_ms = 0 }

-- The steps of two runs, equal but for their times.
abbrev pub Twins : List StepRecord → List StepRecord → Type 0
Twins [] [] = Unit
Twins [] (y ∷ ys) = ⊥
Twins (x ∷ xs) [] = ⊥
Twins (x ∷ xs) (y ∷ ys) = (observed x ≡ observed y) × Twins xs ys

Twins-append :
    (xs ys : List StepRecord) (x y : StepRecord)
    → Twins xs ys
    → observed x ≡ observed y
    → Twins (xs ++ x ∷ []) (ys ++ y ∷ [])
Twins-append [] [] x y h e = (e, tt)
Twins-append [] (z ∷ ys) x y h e = absurd h
Twins-append (z ∷ xs) [] x y h e = absurd h
Twins-append (a ∷ xs) (b ∷ ys) x y (k, h) e = (k, Twins-append xs ys x y h e)

-- All that the two runs leave behind, but for the times, the traces and the calls of the hooks.
pub record Alike (s t : State) : Type 0 where
  pub files : s.files ≡ t.files
  pub outputs : s.outputs ≡ t.outputs
  pub failed : s.failed_so_far ≡ t.failed_so_far
  pub status : s.run.status ≡ t.run.status
  pub steps : Twins s.run.steps t.run.steps
  pub decisions : s.run.policy_decisions ≡ t.run.policy_decisions
  pub signals : s.run.risk_signals ≡ t.run.risk_signals
  pub evidence : s.run.evidence ≡ t.run.evidence
  pub artifacts : s.run.artifacts ≡ t.run.artifacts

-- Both return, with runs that are alike, or both crash for the same reason.
abbrev pub EndAlike : Executed → Executed → Type 0
EndAlike (done s) (done t) = Alike s t
EndAlike (done s) (crashed g t) = ⊥
EndAlike (crashed f s) (done t) = ⊥
EndAlike (crashed f s) (crashed g t) = f ≡ g

module _ (platform : Platform) (policy : Policy) (run_id : String) (w w' : Bool)
    (clock clock' : Clock) where
  abbrev pub one : Config
  one = record { policy = policy; run_id = run_id; writing = w; clock = clock }

  abbrev pub two : Config
  two = record { policy = policy; run_id = run_id; writing = w'; clock = clock' }

  commit-Alike :
      (i : ℕ) (e : Effect) (s t : State)
      → Alike s t
      → Alike (commit platform one i e s) (commit platform two i e t)
  commit-Alike i e s t h = record {
    files = refl;
    outputs = rw h.outputs refl;
    failed = rw h.failed refl;
    status = h.status;
    steps =
        Twins-append s.run.steps t.run.steps (timed platform one i e.step)
          (timed platform two i e.step) h.steps refl;
    decisions = rw h.decisions refl;
    signals = rw h.signals refl;
    evidence = rw h.evidence refl;
    artifacts = rw h.artifacts refl;
  }

  round-EndAlike :
      (i : ℕ) (scripted : ScriptedStep) (s t : State)
      → Alike s t
      → EndAlike (run_step platform one i scripted s) (run_step platform two i scripted t)
  round-EndAlike i scripted s t h =
      go (effect platform one i scripted s.files s.outputs) (run_step platform one i scripted s)
        (run_step platform two i scripted t) (run_step-Agrees platform one i s scripted)
        (subst (λ o. Agrees platform two i t o (run_step platform two i scripted t)) (sym same)
          (run_step-Agrees platform two i t scripted))
    where
      same :
          effect platform one i scripted s.files s.outputs
          ≡ effect platform two i scripted t.files t.outputs
      same =
          rw (h.files, h.outputs)
            (effect-same platform policy run_id w w' clock clock' i scripted t.files t.outputs)

      go :
          (out : Outcome Effect) (x y : Executed)
          → Agrees platform one i s out x
          → Agrees platform two i t out y
          → EndAlike x y
      go (ok e) x y a b = rw (a, b) (commit-Alike i e s t h)
      go (tool_error m) x y a b = absurd a
      go (fault f) x y a b = rw (a.1, b.1) refl

  after_round :
      (i : ℕ) (rest : List ScriptedStep) (x y : Executed)
      → EndAlike x y
      → ((s t : State)
          → Alike s t
          → EndAlike (run_steps platform one i rest s) (run_steps platform two i rest t))
      → EndAlike
          (elim x [ done s ↦ run_steps platform one i rest s | crashed f s ↦ crashed f s ])
          (elim y [ done t ↦ run_steps platform two i rest t | crashed f t ↦ crashed f t ])
  after_round i rest (done s) (done t) h go = go s t h
  after_round i rest (done s) (crashed g t) h go = absurd h
  after_round i rest (crashed f s) (done t) h go = absurd h
  after_round i rest (crashed f s) (crashed g t) h go = h

  rounds-EndAlike :
      (i : ℕ) (steps : List ScriptedStep) (s t : State)
      → Alike s t
      → EndAlike (run_steps platform one i steps s) (run_steps platform two i steps t)
  unfolding run_steps
  rounds-EndAlike i [] s t h = h
  rounds-EndAlike i (scripted ∷ rest) s t h =
      after_round (suc i) rest (run_step platform one i scripted s)
        (run_step platform two i scripted t) (round-EndAlike i scripted s t h)
        (λ s' t' k. rounds-EndAlike (suc i) rest s' t' k)

  begin-Alike :
      (script : Script) (files : Files)
      → Alike (begin_run platform one script files) (begin_run platform two script files)
  unfolding begin_run
  begin-Alike script files = record {
    files = refl;
    outputs = refl;
    failed = refl;
    status = refl;
    steps = tt;
    decisions = refl;
    signals = refl;
    evidence = refl;
    artifacts = refl;
  }

  end-Alike :
      (x y : Executed) → EndAlike x y → EndAlike (ended platform one x) (ended platform two y)
  unfolding ended end_run
  end-Alike (done s) (done t) h = record {
    files = h.files;
    outputs = h.outputs;
    failed = h.failed;
    status = rw h.failed refl;
    steps = h.steps;
    decisions = h.decisions;
    signals = h.signals;
    evidence = h.evidence;
    artifacts = h.artifacts;
  }
  end-Alike (done s) (crashed g t) h = absurd h
  end-Alike (crashed f s) (done t) h = absurd h
  end-Alike (crashed f s) (crashed g t) h = h

  -- Two runs of a script under one policy and one id, on the same files, end alike, whatever their
  -- clocks and whether or not they write a trace: both crash for the same reason, or both return
  -- with the same files, outputs, status, decisions, signals, evidence and artifacts, and with the
  -- same steps but for their times.
  pub execute_script-EndAlike :
      (script : Script) (files : Files)
      → EndAlike
          (execute_script platform one script files)
          (execute_script platform two script files)
  unfolding execute_script
  execute_script-EndAlike script files =
      end-Alike _ _ (rounds-EndAlike 0 script.steps _ _ (begin-Alike script files))
