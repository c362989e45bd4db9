-- ===== src/Golden/Recorded.antt =====
-- An example whose golden trace was recorded by the same code.
use agent_runtime_observator.Prelude.{◌≡◌, refl, ap, true, String, some, List, [], ◌∷◌, ◌++◌, All}
use agent_runtime_observator.Outcome.{ok}
use agent_runtime_observator.Platform.{Platform}
use agent_runtime_observator.Runtime.Event.{Clock}
use agent_runtime_observator.Runtime.Executor.{State, done}
use agent_runtime_observator.Runtime.Bundle.{Example, run_example}
use agent_runtime_observator.Runtime.Script.{validate_script}
use agent_runtime_observator.Runtime.Trace.{Codec, trace_text}
use agent_runtime_observator.Runtime.Trace.Lines.{ReadsBack}
use agent_runtime_observator.Runtime.Replay.Clean.{replay-execute_script}
use agent_runtime_observator.Golden.{
  Expected, Printing, compare_run, compare_golden, evaluate_run, evaluate_example,
}

append_nil {ℓ} : {A : Type ℓ} (xs : List A) → xs ++ [] ≡ xs
append_nil [] = refl
append_nil (x ∷ xs) = ap (λ rest. x ∷ rest) (append_nil xs)

module _ (printing : Printing) (platform : Platform) (codec : Codec)
    (clock replay_clock recorded_clock : Clock) (run_id recorded_id path : String)
    (example : Example) (golden fresh : State)
    (validated : validate_script example.script ≡ ok example.script)
    (reads : All (ReadsBack codec) golden.events) where
  golden_clean :
      run_example platform recorded_clock example recorded_id ≡ done golden
      → compare_golden printing platform codec clock replay_clock run_id path example
          (some (trace_text codec golden.events))
        ≡ ok []
  unfolding compare_golden run_example
  golden_clean recorded =
      rw
        (replay-execute_script platform
          (record {
            policy = example.policy;
            run_id = recorded_id;
            writing = true;
            clock = recorded_clock;
          })
          example.script example.workspace golden refl recorded codec path replay_clock validated
          reads)
        refl

  -- An example whose script passes its validators and whose golden trace was written by a run of it that
  -- returned, whatever the id and the clock of that run, with events whose JSON is one line for
  -- `str.splitlines` and is read back by `json` and pydantic, fails only by what its new run shows: the failures are those of the new run
  -- against the expected outcome, and the trace adds none.
  pub evaluate_example-recorded :
      (expected : Expected)
      → run_example platform recorded_clock example recorded_id ≡ done golden
      → run_example platform clock example run_id ≡ done fresh
      → evaluate_example printing platform codec clock replay_clock run_id path example
          (some expected)
          (some (trace_text codec golden.events))
        ≡ ok (compare_run printing expected fresh.run)
  unfolding evaluate_example evaluate_run
  evaluate_example-recorded expected recorded ran =
      rw (ran, golden_clean recorded) (ap ok (append_nil (compare_run printing expected fresh.run)))
