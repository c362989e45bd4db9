-- ===== src/Clinic/Pruner/Segments.antt =====
-- `prune_single_trajectory` of packages/clinic/src/wutai_clinic/engine/pruner.py: the segments between
-- restarts, and the turns of a segment that its repetitive windows prune. A loop over an index is a
-- recursion over what is left of the segment behind that index.
use agent_runtime_observator.Prelude.{
  ℕ, zero, suc, ◌-◌, Bool, true, false, ◌&&◌, ◌||◌, String, none, some, List, [], ◌∷◌, ◌++◌, map,
  any, contains, leb, ◌==◌, str_eq, length, take, if◌then◌else◌,
}
use agent_runtime_observator.Text.{contains_text}
use agent_runtime_observator.Json.{Value, str, Fields}
use agent_runtime_observator.Json.Lookup.{put_field}
use agent_runtime_observator.Clinic.Pruner.{
  Python, content_at, value_at, tool_call_of, arguments_of, get_pruner_state_signature,
  turn_has_reasoning, get_semantic_similarity, calculate_window_str, calculate_window_str_semantic,
}

-- `BOOTSTRAP_MIN_SAMPLES`: the least integer that is not below the logarithm of 81
abbrev pub bootstrap_min_samples : ℕ
bootstrap_min_samples = 5

abbrev pub reset_commands : List String
reset_commands = "git stash" ∷ "git checkout" ∷ "git reset" ∷ []

abbrev pub reset_keywords : List String
reset_keywords =
    "start over" ∷ "let me restart" ∷ "try a completely different" ∷ "completely different approach"
    ∷ "revert back" ∷ "discard changes" ∷ []

unfoldable pub is_text : String → Value → Bool
is_text s (str t) = str_eq t s
is_text s _ = false

-- `current_segment[-1]["aha_signal"] = "pre_restart"`
unfoldable pub mark_last : List Fields → List Fields
unfolding put_field
mark_last [] = []
mark_last (turn ∷ []) = put_field "aha_signal" (str "pre_restart") turn ∷ []
mark_last (turn ∷ next ∷ turns) = turn ∷ mark_last (next ∷ turns)

-- The signatures of a window that were seen in it before.
unfoldable pub seen_hits : ℕ → List String → List String → List ℕ
seen_hits i seen [] = []
seen_hits i seen (signature ∷ window) =
    let again = i ∷ seen_hits (suc i) seen window in
    let new = seen_hits (suc i) (signature ∷ seen) window in
    if contains seen signature then again else new

unfoldable pub has_index : List ℕ → ℕ → Bool
has_index indices i = any (λ j. j == i) indices

-- `turn for index, turn in enumerate(segment) if index not in pruned_indices`
unfoldable pub keep_from : ℕ → List ℕ → List Fields → List Fields
unfolding has_index
keep_from i pruned [] = []
keep_from i pruned (turn ∷ turns) =
    let rest = keep_from (suc i) pruned turns in if has_index pruned i then rest else turn ∷ rest

module _ (X : Type 0) (dense : List X → Bool) (hits : ℕ → List X → List ℕ) where
  -- The `while` loop from an index on: it steps by one, or behind a dense window, whose length
  -- less one is the number of turns to skip.
  unfoldable pub scan : ℕ → ℕ → List X → List ℕ
  scan skip i [] = []
  scan (suc skip) i (x ∷ xs) = scan skip (suc i) xs
  scan zero i (x ∷ xs) =
      let window = take bootstrap_min_samples (x ∷ xs) in
      let behind = scan (bootstrap_min_samples - 1) (suc i) xs in
      let next = scan 0 (suc i) xs in
      if leb bootstrap_min_samples (length (x ∷ xs)) && dense window
      then hits i window ++ behind
      else next

module _ (py : Python) where
  -- The arguments of the tool call hold a command that resets the work.
  unfoldable pub resets_work : Fields → Bool
  unfolding tool_call_of arguments_of
  resets_work turn = elim (tool_call_of turn) [
    | none ↦ false
    | some tool ↦ any (λ c. contains_text c (py.dumps (arguments_of tool))) reset_commands
  ]

  unfoldable pub detect_cognitive_restart : Fields → Bool
  unfolding resets_work content_at value_at is_text
  detect_cognitive_restart turn =
      let content = py.lower (content_at py "content" turn) in
      let reasoning = py.lower (content_at py "reasoning" turn) in
      if resets_work turn
      then true
      else is_text "assistant" (value_at "role" turn)
        && (any (λ k. contains_text k content) reset_keywords
            || any (λ k. contains_text k reasoning) reset_keywords)

  -- The loop over the turns: the segments so far, and the current one.
  unfoldable pub segments_from : List (List Fields) → List Fields → List Fields → List (List Fields)
  unfolding detect_cognitive_restart mark_last put_field
  segments_from segments [] [] = segments
  segments_from segments (turn ∷ current) [] = segments ++ (turn ∷ current) ∷ []
  segments_from segments current (turn ∷ turns) =
      let restarted = put_field "aha_signal" (str "cognitive_restart") turn in
      if detect_cognitive_restart turn && leb bootstrap_min_samples (length current)
      then segments_from (segments ++ mark_last current ∷ []) (restarted ∷ []) turns
      else segments_from segments (current ++ turn ∷ []) turns

  -- The turns of a window, behind its first, that are like the turn before them.
  unfoldable pub semantic_hits : ℕ → Fields → List Fields → List ℕ
  unfolding get_semantic_similarity
  semantic_hits i previous [] = []
  semantic_hits i previous (turn ∷ window) =
      let rest = semantic_hits (suc i) turn window in
      if py.above (get_semantic_similarity py turn previous) py.semantic_threshold
      then i ∷ rest
      else rest

  unfoldable pub semantic_window : ℕ → List Fields → List ℕ
  unfolding semantic_hits
  semantic_window i [] = []
  semantic_window i (turn ∷ window) = semantic_hits (suc i) turn window

  unfoldable pub pruned_indices : Bool → List Fields → List ℕ
  unfolding scan semantic_window seen_hits calculate_window_str calculate_window_str_semantic
  pruned_indices use_semantic segment =
      if use_semantic
      then scan Fields (λ w. py.at_least (calculate_window_str_semantic py w) py.semantic_threshold)
          semantic_window 0 0 segment
      else scan String (λ w. py.at_least (calculate_window_str py w) py.max_confidence)
          (λ i w. seen_hits i [] w) 0 0 (map (get_pruner_state_signature py) segment)

  unfoldable pub prune_segment : Bool → List Fields → List Fields
  unfolding pruned_indices keep_from turn_has_reasoning
  prune_segment semantic_kernel segment =
      let use_semantic = semantic_kernel && any (turn_has_reasoning py) segment in
      if leb (length segment) bootstrap_min_samples
      then segment
      else keep_from 0 (pruned_indices use_semantic segment) segment

  unfoldable pub prune_segments : Bool → List (List Fields) → List Fields
  unfolding prune_segment
  prune_segments semantic_kernel [] = []
  prune_segments semantic_kernel (segment ∷ segments) =
      prune_segment semantic_kernel segment ++ prune_segments semantic_kernel segments

  unfoldable pub prune_single_trajectory : Bool → List Fields → List Fields
  unfolding segments_from prune_segments
  prune_single_trajectory semantic_kernel sft_turns =
      if leb (length sft_turns) bootstrap_min_samples
      then sft_turns
      else prune_segments semantic_kernel (segments_from [] [] sft_turns)
