-- ===== src/Clinic/Diagnoser.antt =====
-- packages/clinic/src/wutai_clinic/engine/diagnoser.py: the classes of a step, and the lengths that are
-- counted along the steps of a trajectory.
pub mod Gap
pub mod Streak
use agent_runtime_observator.Prelude.{
  ℕ, suc, ◌-◌, Bool, true, false, not, ◌&&◌, ◌||◌, ◌==◌, ltb, String, Option, none, some, List, [],
  ◌∷◌, map, contains, any, str_eq, if◌then◌else◌,
}
use agent_runtime_observator.Text.{strip, is_empty, contains_text}
use agent_runtime_observator.Json.{Value, str, obj, Fields, end}
use agent_runtime_observator.Json.Lookup.{field_get?}
use agent_runtime_observator.Clinic.Trajectory.{value_or, content_or}

abbrev pub error_markers : List String
error_markers =
    "error" ∷ "exception" ∷ "failed" ∷ "failure" ∷ "invalid" ∷ "not found" ∷ "timeout" ∷ "traceback"
    ∷ []

-- `any(token in lowered for token in tokens)`
unfoldable pub has_any : List String → String → Bool
has_any tokens lowered = any (λ token. contains_text token lowered) tokens

-- The family of the first row with a token of the text.
unfoldable pub first_family : List (String × List String) → String → String
unfolding has_any
first_family [] lowered = "other"
first_family ((family, tokens) ∷ rows) lowered =
    if has_any tokens lowered then family else first_family rows lowered

abbrev pub families : List (String × List String)
families =
    ("file_edit", "str_replace_editor" ∷ "replace_file_content" ∷ [])
    ∷ ("file_write", "write_to_file" ∷ "create_file" ∷ [])
    ∷ ("file_read", "view_file" ∷ " cat " ∷ " sed " ∷ "head " ∷ "tail " ∷ [])
    ∷ ("search", "grep" ∷ "rg " ∷ "find " ∷ "ls " ∷ [])
    ∷ ("test", "pytest" ∷ "tox" ∷ "npm test" ∷ "pnpm test" ∷ " test " ∷ [])
    ∷ ("git_inspect", "git diff" ∷ "git status" ∷ "git log" ∷ [])
    ∷ ("command", "python" ∷ "bash" ∷ "sh " ∷ "run_command" ∷ "execute" ∷ [])
    ∷ ("terminal", "submit" ∷ "exit" ∷ [])
    ∷ []

pub record CanonicalStep : Type 0 where
  pub action_family : String
  pub observation_class : String
  pub working_dir_class : String

module _ (lower : String → String) (python_str : Value → String) where
  unfoldable pub action_family : String → String
  unfolding first_family is_empty strip
  action_family action =
      let lowered = strip (lower action) in
      if is_empty lowered then "none" else first_family families lowered

  unfoldable pub observation_class : String → String
  unfolding has_any is_empty strip
  observation_class observation =
      let lowered = strip (lower observation) in
      if is_empty lowered
      then "empty"
      else if has_any error_markers lowered
      then "error"
      else if has_any ("success" ∷ "passed" ∷ "done" ∷ "completed" ∷ []) lowered
      then "success"
      else "neutral"

  -- `step.get("state") if isinstance(step.get("state"), dict) else {}`
  unfoldable pub state_of : Option Value → Fields
  state_of (some (obj state)) = state
  state_of _ = end

  unfoldable pub canonical_step : Fields → CanonicalStep
  unfolding action_family observation_class state_of value_or content_or
  canonical_step step =
      let working_dir =
        python_str (content_or (field_get? "working_dir" (state_of (field_get? "state" step)))) in
      record {
        action_family = action_family (python_str (value_or (str "") (field_get? "action" step)));
        observation_class =
            observation_class (python_str (value_or (str "") (field_get? "observation" step)));
        working_dir_class = if contains_text "/testbed" working_dir then "testbed" else "other";
      }

unfoldable pub is_edit : CanonicalStep → Bool
is_edit state = contains ("file_edit" ∷ "file_write" ∷ []) state.action_family

unfoldable pub is_validation : CanonicalStep → Bool
is_validation state = contains ("test" ∷ "git_inspect" ∷ []) state.action_family

-- The loop of `validation_gap_lengths` from an index on.
unfoldable pub gaps_from : ℕ → ℕ → ℕ → List CanonicalStep → List ℕ
unfolding is_edit is_validation
gaps_from index last_edit last_validation [] = []
gaps_from index last_edit last_validation (state ∷ states) =
    let edit = if is_edit state then index else last_edit in
    let validation = if is_validation state then index else last_validation in
    (if not (edit == 0) && ltb validation edit then index - edit else 0)
    ∷ gaps_from (suc index) edit validation states

unfoldable pub validation_gap_lengths : List CanonicalStep → List ℕ
unfolding gaps_from
validation_gap_lengths states = gaps_from 1 0 0 states

-- The loop of `recent_same_action_lengths` from a family and a streak on.
unfoldable pub streaks_from : Option String → ℕ → List CanonicalStep → List ℕ
streaks_from current streak [] = []
streaks_from none streak (state ∷ states) = 1 ∷ streaks_from (some state.action_family) 1 states
streaks_from (some current) streak (state ∷ states) =
    let longer = streaks_from (some current) (suc streak) states in
    let fresh = streaks_from (some state.action_family) 1 states in
    if str_eq state.action_family current then suc streak ∷ longer else 1 ∷ fresh

unfoldable pub recent_same_action_lengths : List CanonicalStep → List ℕ
unfolding streaks_from
recent_same_action_lengths states = streaks_from none 0 states
