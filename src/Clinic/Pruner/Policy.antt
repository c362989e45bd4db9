-- ===== src/Clinic/Pruner/Policy.antt =====
-- packages/clinic/src/wutai_clinic/engine/pruner.py: the policy of a source, the quality of a pruned
-- trajectory, and the best trajectory of each group.
use agent_runtime_observator.Prelude.{
  ℕ, ◌+◌, ◌*◌, Bool, false, ◌&&◌, ◌||◌, String, Option, none, some, List, [], ◌∷◌, map, count_if,
  leb, ltb, str_eq, length, dict_get?, dict_put, if◌then◌else◌,
}
use Prim.Native.String
use agent_runtime_observator.Text.{strip, contains_text}
use agent_runtime_observator.Json.{obj, Fields}
use agent_runtime_observator.Json.Lookup.{field_get?, truthy_option}
use agent_runtime_observator.Clinic.Pruner.{Python, content_at, value_at, stringify_content}
use agent_runtime_observator.Clinic.Pruner.Segments.{
  bootstrap_min_samples, is_text, prune_single_trajectory,
}

-- `sft_turns[:-1]`
unfoldable pub all_but_last : List Fields → List Fields
all_but_last [] = []
all_but_last (turn ∷ []) = []
all_but_last (turn ∷ next ∷ turns) = turn ∷ all_but_last (next ∷ turns)

unfoldable pub last_turn : List Fields → Option Fields
last_turn [] = none
last_turn (turn ∷ []) = some turn
last_turn (turn ∷ next ∷ turns) = last_turn (next ∷ turns)

unfoldable pub pruning_policy_for_source : String → String
pruning_policy_for_source source_kind =
    if str_eq source_kind "swe_long"
    then "long_aggressive"
    else if str_eq source_kind "gui_temporal" || str_eq source_kind "physical_temporal"
    then "temporal_moderate"
    else if str_eq source_kind "mbpp_base"
    then "schema_only"
    else "short_expert_validation"

-- `min(n, bound)`
unfoldable pub at_most : ℕ → ℕ → ℕ
at_most bound n = if ltb bound n then bound else n

module _ (py : Python) where
  unfoldable pub truncate_format_error_tail : List Fields → List Fields
  unfolding all_but_last last_turn
  truncate_format_error_tail sft_turns = elim (last_turn sft_turns) [
    | none ↦ sft_turns
    | some turn ↦
        let tail = py.lower (stringify_content py none (obj turn)) in
        if contains_text "format error" tail
          && (contains_text "exit" tail || contains_text "invalid format" tail)
        then all_but_last sft_turns
        else sft_turns
  ]

  unfoldable pub apply_source_policy : List Fields → String → List Fields × String
  unfolding truncate_format_error_tail pruning_policy_for_source
  apply_source_policy sft_turns source_kind =
      let policy = pruning_policy_for_source source_kind in
      let turns = truncate_format_error_tail sft_turns in
      let pruned = prune_single_trajectory py false turns in
      if str_eq policy "long_aggressive"
      then (pruned, policy)
      else if str_eq policy "temporal_moderate" && ltb (bootstrap_min_samples * 2) (length turns)
      then (pruned, policy)
      else (turns, policy)

  unfoldable pub role_counts : List (String × ℕ) → List Fields → List (String × ℕ)
  unfolding value_at
  role_counts counts [] = counts
  role_counts counts (turn ∷ turns) =
      let role = py.python_str (value_at "role" turn) in
      let count : ℕ = elim (dict_get? role counts) [ some n ↦ n | none ↦ 0 ] in
      role_counts (dict_put role (count + 1) counts) turns

  unfoldable pub count_of_role : String → List Fields → ℕ
  unfolding role_counts
  count_of_role role turns = elim (dict_get? role (role_counts [] turns)) [ some n ↦ n | none ↦ 0 ]

  -- The text of the last turn whose role is "assistant".
  unfoldable pub final_assistant : String → List Fields → String
  unfolding is_text value_at content_at
  final_assistant found [] = found
  final_assistant found (turn ∷ turns) =
      let text = content_at py "content" turn in
      let is_assistant : Bool = elim (field_get? "role" turn) [
        | some v ↦ is_text "assistant" v
        | none ↦ false
      ] in
      final_assistant (if is_assistant then text else found) turns

  unfoldable pub source_bonus : String → String
  source_bonus source_kind =
      if str_eq source_kind "swe_long"
      then "1.5"
      else if str_eq source_kind "gui_temporal" || str_eq source_kind "physical_temporal"
      then "1.0"
      else if str_eq source_kind "mbpp_base"
      then "0.6"
      else "0.8"

  -- `score += min(n, bound) * factor`
  unfoldable pub add_share : py.Float → ℕ → String → py.Float
  add_share score n factor = py.add score (py.times (py.float_of n) (py.literal factor))

  unfoldable pub compute_quality_score : String → List Fields → py.Float
  unfolding count_of_role final_assistant source_bonus add_share at_most strip truthy_option
  compute_quality_score source_kind sft_turns =
      let tool_count = count_if (λ t. truthy_option (field_get? "tool_call" t)) sft_turns in
      let aha_count = count_if (λ t. truthy_option (field_get? "aha_signal" t)) sft_turns in
      let start =
        py.add (py.literal "1.0")
          (py.times (py.log1p (py.float_of (length sft_turns))) (py.literal "0.5")) in
      let talk = add_share start (at_most 20 (count_of_role "assistant" sft_turns)) "0.08" in
      let heard = add_share talk (at_most 20 (count_of_role "user" sft_turns)) "0.04" in
      let tooled = add_share heard (at_most 40 tool_count) "0.06" in
      let noticed = add_share tooled aha_count "0.1" in
      let sourced = py.add noticed (py.literal (source_bonus source_kind)) in
      if leb 20 (String.count (strip (final_assistant "" sft_turns)))
      then py.add sourced (py.literal "0.4")
      else sourced

  module _ (T : Type 0) (key : T → String) (score : T → py.Float) where
    -- The loop of `deduplicate`: the best trajectory of each group so far.
    unfoldable pub best_of : List (String × T) → List T → List (String × T)
    best_of best [] = best
    best_of best (trajectory ∷ trajectories) =
        let better = dict_put (key trajectory) trajectory best in
        let next : List (String × T) = elim (dict_get? (key trajectory) best) [
          | none ↦ better
          | some existing ↦ if py.at_least (score trajectory) (score existing) then better else best
        ] in
        best_of next trajectories

    unfoldable pub deduplicate : List T → List T
    unfolding best_of
    deduplicate trajectories = map (λ p. p.1) (best_of [] trajectories)

    -- A trajectory goes in front of those that are worse.
    unfoldable pub insert_ranked : T → List T → List T
    insert_ranked x [] = x ∷ []
    insert_ranked x (y ∷ ys) =
        let rest = insert_ranked x ys in
        if py.above (score y) (score x) then y ∷ rest else x ∷ y ∷ ys

    -- `rank_by_health`: equals keep their order.
    unfoldable pub rank_by_health : List T → List T
    unfolding insert_ranked
    rank_by_health [] = []
    rank_by_health (x ∷ xs) = insert_ranked x (rank_by_health xs)
