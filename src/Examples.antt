-- ===== src/Examples.antt =====
-- A concrete platform, script and policy, on which the definitions are run.
pub mod Tests
pub mod Debt
pub mod Runs
pub mod Services
pub mod Goldens
pub mod Chains
pub mod Limits
pub mod Gates
pub mod Pruned
pub mod Turns
pub mod Steps
pub mod Codecs
use agent_runtime_observator.Prelude.{
  ℕ, ◌≡◌, refl, ◌-◌, ◌&&◌, leb, code, Char, Bool, true, false, String, Option, none, some, List, [],
  ◌∷◌, if◌then◌else◌,
}
use agent_runtime_observator.Text.{contains_text}
use agent_runtime_observator.Outcome.{ok}
use agent_runtime_observator.Platform.{Platform}
use agent_runtime_observator.Json.{str, Fields, end, field, canonical_json}
use agent_runtime_observator.Json.Lookup.{field_get?}
use agent_runtime_observator.Schema.Models.{allow, deny, needs_review, medium, high}
use agent_runtime_observator.Schema.Models.Run.{ReviewerSeat}
use agent_runtime_observator.Schema.Models.Governance.{Goal, Task}
use agent_runtime_observator.Runtime.Policy.{PolicyRule, Policy, rule_matches, evaluate}
use agent_runtime_observator.Runtime.Workspace.{Files, lookup}
use agent_runtime_observator.Runtime.Tools.{call_tool}
use agent_runtime_observator.Runtime.Resolve.{resolve_args}
use agent_runtime_observator.Runtime.Script.{ScriptedStep, Script}
use agent_runtime_observator.Runtime.Event.{Clock}
use agent_runtime_observator.Runtime.Executor.{
  State, Executed, done, crashed, Config, execute_script,
}

abbrev pub digit : Char → Option ℕ
digit c = if leb 48 (code c) && leb (code c) 57 then some (code c - 48) else none

-- A digest that keeps the whole text, patterns without metacharacters, ASCII digits.
abbrev pub platform : Platform
platform = record {
  sha256_hex = λ text. text;
  re_search = λ pattern text. ok (contains_text pattern text);
  url_parts = λ url. ok ("evil.example", url);
  decimal_value = digit;
  fault_text = λ f. "fault";
}

abbrev pub no_shell : PolicyRule
no_shell = record {
  id = "no-shell";
  description = "";
  tool = some "shell";
  args_regex = some "rm";
  domain_not_in = none;
  action = deny;
  severity = high;
  category = "destructive";
}

abbrev pub review_writes : PolicyRule
review_writes = record {
  id = "review-writes";
  description = "writes are reviewed";
  tool = some "write_file";
  args_regex = none;
  domain_not_in = none;
  action = needs_review;
  severity = medium;
  category = "write";
}

abbrev pub policy : Policy
policy = record {
  id = "default";
  description = "";
  default = allow;
  rules = no_shell ∷ review_writes ∷ [];
}

abbrev pub owner : ReviewerSeat
owner = record { id = "seat-1"; name = "Ada"; role = "owner"; scope = "all" }

abbrev pub step_of : String → Fields → ScriptedStep
step_of tool args = record { tool = tool; args = args; allocated_to = []; supports_goal = "" }

abbrev pub write_args : Fields
write_args = field "path" (str "out") (field "content" (str "${step:0.output}") end)

abbrev pub shell_args : Fields
shell_args = field "cmd" (str "rm out") end

abbrev pub read_args : Fields
read_args = field "path" (str "in") end

abbrev pub script : Script
script = record {
  task = record { id = "t"; title = "copy"; goal_id = "g"; created_at = 0 };
  goal = record { id = "g"; statement = "copy"; constraints = []; owner_seat_id = "seat-1" };
  reviewer_seats = owner ∷ [];
  agent = "scripted";
  model = none;
  steps =
      step_of "read_file" read_args
      ∷ step_of "write_file" write_args
      ∷ step_of "shell" shell_args
      ∷ [];
}

abbrev pub files : Files
files = ("in", "hi") ∷ []

abbrev pub clock_at : ℕ → Clock
clock_at n = record { run_started = n; run_finished = n; step_started = λ i. n; step_took = λ i. 1 }

abbrev pub config : Config
config = record { policy = policy; run_id = "r"; writing = true; clock = clock_at 5 }

abbrev pub state_of : Executed → State
state_of (done s) = s
state_of (crashed f s) = s

abbrev pub final : State
final = state_of (execute_script platform config script files)

pub returned : execute_script platform config script files ≡ done final
unfolding execute_script resolve_args evaluate rule_matches call_tool field_get? lookup
    contains_text canonical_json
returned = refl
