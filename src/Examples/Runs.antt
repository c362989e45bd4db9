-- ===== src/Examples/Runs.antt =====
-- The theorems on policies, tools, runs, traces and replays, at the example script.
use agent_runtime_observator.Prelude.{
  ◌≡◌, refl, ◌↔◌, ◌⊎◌, true, false, String, none, some, [], ◌∷◌, All, length, keep,
}
use agent_runtime_observator.Text.{◌⁀◌, is_line_end, contains_text, replace_first}
use agent_runtime_observator.Outcome.{ok, tool_error}
use agent_runtime_observator.Json.{Fields, str, end, field, canonical_json}
use agent_runtime_observator.Json.Lookup.{field_get?}
use agent_runtime_observator.Schema.Models.{completed, deny}
use agent_runtime_observator.Schema.Models.Run.{AgentRun, identity_invariants}
use agent_runtime_observator.Schema.Models.Governance.{ReplayReport, report_ok}
use agent_runtime_observator.Runtime.Workspace.{Files, lookup, insert, digest}
use agent_runtime_observator.Runtime.Policy.{rule_matches, evaluate}
use agent_runtime_observator.Runtime.Policy.FirstMatch.{
  Matches, rule_matches_iff, FirstMatch, decision_by, evaluate_first,
}
use agent_runtime_observator.Runtime.Tools.{apply_patch, call_tool}
use agent_runtime_observator.Runtime.Tools.Frame.{WritesOnly, call_tool_frame}
use agent_runtime_observator.Runtime.Tools.Patch.{Patched, Refused, apply_patch-Patches}
use agent_runtime_observator.Runtime.Resolve.{resolve_args}
use agent_runtime_observator.Runtime.Event.{Header}
use agent_runtime_observator.Runtime.Script.{owner_seat_is_declared, validate_script}
use agent_runtime_observator.Runtime.Executor.{
  State, done, header_of, begin_run, run_step, execute_script,
}
use agent_runtime_observator.Runtime.Executor.Effect.{effect}
use agent_runtime_observator.Runtime.Executor.Effect.Round.{Agrees, run_step-Agrees}
use agent_runtime_observator.Runtime.Executor.Invariant.{signal_steps, decision_steps}
use agent_runtime_observator.Runtime.Executor.Effect.Facts.{is_flagged}
use agent_runtime_observator.Runtime.Executor.Sound.{
  IsGated, IsBlocked, execute_script-gated, execute_script-completed, execute_script-signalled,
  execute_script-identities,
}
use agent_runtime_observator.Runtime.Executor.Determinism.{
  EndAlike, one, two, execute_script-EndAlike,
}
use agent_runtime_observator.Runtime.Trace.{Codec, kind, trace_text, load_trace}
use agent_runtime_observator.Runtime.Trace.Lines.{ReadsBack}
use agent_runtime_observator.Examples.Codecs.{codec_of, back}
use agent_runtime_observator.Runtime.Trace.RoundTrip.{load-execute_script}
use agent_runtime_observator.Runtime.Replay.{fresh_config, replay_trace}
use agent_runtime_observator.Runtime.Replay.Clean.{
  SameWorkspace, Reproduced, replay_trace-Reproduced, replay-execute_script,
}
use agent_runtime_observator.Examples.{
  platform, no_shell, policy, step_of, shell_args, read_args, script, files, clock_at, config,
  state_of, final, returned,
}

rule_matches_iff_example :
    (rule_matches platform no_shell "shell" shell_args ≡ ok true)
    ↔ Matches platform no_shell "shell" shell_args
rule_matches_iff_example = rule_matches_iff platform no_shell "shell" shell_args

denied :
    evaluate platform policy "shell" shell_args
    ≡ ok (deny, some no_shell, "rule no-shell matched tool shell")
unfolding evaluate rule_matches contains_text canonical_json
denied = refl

evaluate_first_example :
    FirstMatch platform "shell" shell_args policy.rules (some no_shell)
    × (deny ≡ decision_by platform "shell" shell_args policy.default (some no_shell))
evaluate_first_example = evaluate_first platform "shell" shell_args policy denied

abbrev patch : Fields
patch = field "path" (str "in") (field "find" (str "i") (field "replace" (str "o") end))

abbrev patched : Files
patched = ("in", "ho") ∷ []

apply_patch-Patches_example :
    ((lookup "in" files ≡ none)
      × (apply_patch files patch ≡ tool_error ("file not found: " ⁀ "in")))
    ⊎ ((text : String) × (lookup "in" files ≡ some text)
        × (Patched files "in" "i" "o" text (apply_patch files patch)
            ⊎ Refused "in" "i" text (apply_patch files patch)))
unfolding field_get?
apply_patch-Patches_example = apply_patch-Patches files patch "in" "i" "o" refl refl refl

abbrev patch_tool : String
patch_tool = "apply_patch"

call-ok :
    call_tool platform patch_tool files patch ≡ ok (patched, "patched in: 1 occurrence replaced")
unfolding call_tool field_get? lookup contains_text insert replace_first
call-ok = refl

call_tool_frame_example :
    (patched ≡ files)
    ⊎ (((patch_tool ≡ "write_file") ⊎ (patch_tool ≡ "apply_patch"))
        × WritesOnly files patched (field_get? "path" patch))
call_tool_frame_example = call_tool_frame platform patch_tool files patch call-ok

run_step-Agrees_example :
    Agrees platform config 0
      (begin_run platform config script files)
      (effect platform config 0
        (step_of "read_file" read_args)
        (begin_run platform config script files).files
        (begin_run platform config script files).outputs)
      (run_step platform config 0
        (step_of "read_file" read_args)
        (begin_run platform config script files))
run_step-Agrees_example =
    run_step-Agrees platform config 0 (begin_run platform config script files)
      (step_of "read_file" read_args)

execute_script-gated_example :
    (length final.run.steps ≡ length script.steps)
    × All (IsGated final.run.policy_decisions (length script.steps)) final.run.steps
execute_script-gated_example = execute_script-gated platform config script files final returned

final-completed : final.run.status ≡ completed
unfolding execute_script resolve_args evaluate rule_matches call_tool field_get? lookup
    contains_text canonical_json
final-completed = refl

execute_script-completed_example : All (IsBlocked final.run.policy_decisions) final.run.steps
execute_script-completed_example =
    execute_script-completed platform config script files final returned final-completed

execute_script-signalled_example :
    signal_steps final.run.risk_signals
    ≡ decision_steps (keep is_flagged final.run.policy_decisions)
execute_script-signalled_example =
    execute_script-signalled platform config script files final returned

declared : owner_seat_is_declared script ≡ none
unfolding owner_seat_is_declared
declared = refl

execute_script-identities_example : identity_invariants final.run ≡ none
execute_script-identities_example =
    execute_script-identities platform config script files final returned declared

execute_script-EndAlike_example :
    EndAlike
      (execute_script platform
        (one platform policy "r" true false (clock_at 5) (clock_at 9))
        script
        files)
      (execute_script platform
        (two platform policy "r" true false (clock_at 5) (clock_at 9))
        script
        files)
execute_script-EndAlike_example =
    execute_script-EndAlike platform policy "r" true false (clock_at 5) (clock_at 9) script files

abbrev codec : Codec
codec = codec_of final.events

final-read : All (ReadsBack codec) final.events
unfolding execute_script resolve_args evaluate rule_matches call_tool field_get? lookup
    contains_text canonical_json is_line_end kind
final-read = (
  back final.events _ refl refl refl,
  (
    back final.events _ refl refl refl,
    (
      back final.events _ refl refl refl,
      (
        back final.events _ refl refl refl,
        (
          back final.events _ refl refl refl,
          (
            back final.events _ refl refl refl,
            (
              back final.events _ refl refl refl,
              (
                back final.events _ refl refl refl,
                (
                  back final.events _ refl refl refl,
                  (
                    back final.events _ refl refl refl,
                    (back final.events _ refl refl refl, (back final.events _ refl refl refl, tt)),
                  ),
                ),
              ),
            ),
          ),
        ),
      ),
    ),
  ),
)

validated : validate_script script ≡ ok script
unfolding validate_script
validated = refl

load-execute_script_example :
    load_trace codec "t.jsonl" (trace_text codec final.events)
    ≡ ok (header_of platform config script files, record final.run { reviewer_seats = [] })
load-execute_script_example =
    load-execute_script platform config "t.jsonl" refl script files codec final returned final-read

replay-execute_script_example :
    replay_trace platform codec (clock_at 9) "t.jsonl" (trace_text codec final.events) files
    ≡ ok (record { run_id = "r"; steps_compared = 3; divergences = [] })
replay-execute_script_example =
    replay-execute_script platform config script files final refl returned codec "t.jsonl"
      (clock_at 9) validated final-read

abbrev header : Header
header = header_of platform config script files

abbrev recorded : AgentRun
recorded = record final.run { reviewer_seats = [] }

abbrev fresh : State
fresh =
    state_of
      (execute_script platform (fresh_config (clock_at 9) header recorded) header.script files)

fresh-returned :
    execute_script platform (fresh_config (clock_at 9) header recorded) header.script files
    ≡ done fresh
unfolding execute_script resolve_args evaluate rule_matches call_tool field_get? lookup
    contains_text canonical_json header_of
fresh-returned = refl

replay_trace-Reproduced_example :
    (r : ReplayReport) × (replay_trace platform codec
        (clock_at 9)
        "t.jsonl"
        (trace_text codec final.events)
        files
      ≡ ok r)
    × ((report_ok r ≡ true) ↔ (
        SameWorkspace header.workspace_digest (digest platform files)
        × Reproduced recorded.policy_decisions fresh.run.policy_decisions 0 recorded.steps
            fresh.run.steps))
unfolding header_of
replay_trace-Reproduced_example =
    replay_trace-Reproduced platform codec (clock_at 9) "t.jsonl" (trace_text codec final.events)
      files header recorded script fresh
      (load-execute_script platform config "t.jsonl" refl script files codec final returned
        final-read)
      validated fresh-returned
