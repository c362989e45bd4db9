-- ===== src/Examples/Tests.antt =====
-- The definitions, run on small inputs.
use agent_runtime_observator.Prelude.{◌≡◌, refl, true}
use agent_runtime_observator.Json.{
  str, arr, obj, nil, item, end, field, int, negsuc, bool, canonical_json,
}
use agent_runtime_observator.Outcome.{ok}
use agent_runtime_observator.Runtime.Resolve.{resolve_args}
use agent_runtime_observator.Runtime.Tools.{call_tool}
use agent_runtime_observator.Json.Lookup.{field_get?}
use agent_runtime_observator.Runtime.Workspace.{lookup}
use agent_runtime_observator.Text.{contains_text}
use agent_runtime_observator.Runtime.Policy.{rule_matches, evaluate}
use agent_runtime_observator.Schema.Models.Run.{verdict}
use agent_runtime_observator.Schema.Models.{blocked}
use agent_runtime_observator.Runtime.Executor.{execute_script}
use agent_runtime_observator.Examples.{platform, files, final, read_args}

-- Keys are sorted, and the separators have no spaces.
canonical :
    canonical_json (
      obj
        (field "b" (int (negsuc 0)) (field "a" (arr (item (bool true) (item (str "\"") nil))) end)))
    ≡ "{\"a\":[true,\"\\\"\"],\"b\":-1}"
unfolding canonical_json
canonical = refl

read : call_tool platform "read_file" files read_args ≡ ok (files, "hi")
unfolding call_tool field_get? lookup
read = refl

final-blocked : verdict final.run ≡ blocked
unfolding execute_script verdict resolve_args evaluate rule_matches call_tool field_get? lookup
    contains_text canonical_json
final-blocked = refl
