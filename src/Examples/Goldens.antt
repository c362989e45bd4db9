-- ===== src/Examples/Goldens.antt =====
-- The theorem on golden traces, at the example script.
use agent_runtime_observator.Prelude.{◌≡◌, refl, some, [], ◌∷◌, All}
use agent_runtime_observator.Outcome.{ok}
use agent_runtime_observator.Text.{is_line_end, contains_text}
use agent_runtime_observator.Json.{canonical_json}
use agent_runtime_observator.Json.Lookup.{field_get?}
use agent_runtime_observator.Runtime.Workspace.{lookup}
use agent_runtime_observator.Runtime.Policy.{rule_matches, evaluate}
use agent_runtime_observator.Runtime.Tools.{call_tool}
use agent_runtime_observator.Runtime.Resolve.{resolve_args}
use agent_runtime_observator.Runtime.Executor.{State, done, execute_script}
use agent_runtime_observator.Runtime.Script.{validate_script}
use agent_runtime_observator.Runtime.Trace.{Codec, kind, trace_text}
use agent_runtime_observator.Runtime.Trace.Lines.{ReadsBack}
use agent_runtime_observator.Runtime.Bundle.{Example, run_example}
use agent_runtime_observator.Golden.{Expected, Printing, compare_run, evaluate_example}
use agent_runtime_observator.Golden.Recorded.{evaluate_example-recorded}
use agent_runtime_observator.Examples.Codecs.{codec_of, back}
use agent_runtime_observator.Examples.{platform, policy, script, files, clock_at, state_of}

abbrev example : Example
example = record { name = "copy"; script = script; policy = policy; workspace = files }

abbrev golden : State
golden = state_of (run_example platform (clock_at 5) example "golden")

abbrev fresh : State
fresh = state_of (run_example platform (clock_at 9) example "new")

recorded : run_example platform (clock_at 5) example "golden" ≡ done golden
unfolding run_example execute_script resolve_args evaluate rule_matches call_tool field_get? lookup
    contains_text canonical_json
recorded = refl

ran : run_example platform (clock_at 9) example "new" ≡ done fresh
unfolding run_example execute_script resolve_args evaluate rule_matches call_tool field_get? lookup
    contains_text canonical_json
ran = refl

abbrev expected : Expected
expected = record {
  final_status = "completed";
  policy_decisions =
      record { step_index = 2; first = "no-shell"; second = "deny" }
      ∷ record { step_index = 1; first = "review-writes"; second = "needs_review" }
      ∷ [];
  risk_signals =
      record { step_index = 1; first = "medium"; second = "write" }
      ∷ record { step_index = 2; first = "high"; second = "destructive" }
      ∷ [];
  artifacts = "out" ∷ [];
}

abbrev printing : Printing
printing = record { show_findings = λ findings. "findings"; show_text = λ text. "text" }

abbrev codec : Codec
codec = codec_of golden.events

read_back : All (ReadsBack codec) golden.events
unfolding run_example execute_script resolve_args evaluate rule_matches call_tool field_get? lookup
    contains_text canonical_json is_line_end kind
read_back = (
  back golden.events _ refl refl refl,
  (
    back golden.events _ refl refl refl,
    (
      back golden.events _ refl refl refl,
      (
        back golden.events _ refl refl refl,
        (
          back golden.events _ refl refl refl,
          (
            back golden.events _ refl refl refl,
            (
              back golden.events _ refl refl refl,
              (
                back golden.events _ refl refl refl,
                (
                  back golden.events _ refl refl refl,
                  (
                    back golden.events _ refl refl refl,
                    (
                      back golden.events _ refl refl refl,
                      (back golden.events _ refl refl refl, tt),
                    ),
                  ),
                ),
              ),
            ),
          ),
        ),
      ),
    ),
  ),
)

validated : validate_script example.script ≡ ok example.script
unfolding validate_script
validated = refl

evaluate_example-recorded_example :
    evaluate_example printing platform codec
      (clock_at 9)
      (clock_at 7)
      "new"
      "golden/trace.jsonl"
      example
      (some expected)
      (some (trace_text codec golden.events))
    ≡ ok (compare_run printing expected fresh.run)
evaluate_example-recorded_example =
    evaluate_example-recorded printing platform codec (clock_at 9) (clock_at 7) (clock_at 5) "new"
      "golden" "golden/trace.jsonl" example golden fresh validated read_back expected recorded ran
