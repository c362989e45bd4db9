-- ===== src/Runtime/Bundle.antt =====
-- packages/runtime/aro_runtime/examples.py: a bundled example and its run. The files of its
-- workspace directory are part of the record.
use agent_runtime_observator.Prelude.{
  true, String, Option, none, some, List, [], ◌∷◌, str_eq, if◌then◌else◌,
}
use agent_runtime_observator.Platform.{Platform}
use agent_runtime_observator.Runtime.Workspace.{Files}
use agent_runtime_observator.Runtime.Policy.{Policy}
use agent_runtime_observator.Runtime.Script.{Script}
use agent_runtime_observator.Runtime.Event.{Clock}
use agent_runtime_observator.Runtime.Executor.{Executed, execute_script}

pub record Example : Type 0 where
  pub name : String
  pub script : Script
  pub policy : Policy
  pub workspace : Files

-- `examples.get(name)`
unfoldable pub find_example : String → List Example → Option Example
find_example name [] = none
find_example name (example ∷ examples) =
    let rest = find_example name examples in if str_eq example.name name then some example else rest

-- With a trace path, as both callers give one.
unfoldable pub run_example : Platform → Clock → Example → String → Executed
run_example platform clock example run_id =
    execute_script platform
      (record { policy = example.policy; run_id = run_id; writing = true; clock = clock })
      example.script example.workspace
