-- ===== src/Examples/Steps.antt =====
-- The theorem on the lengths along a trajectory, at an edit, two commands, a test and an edit.
use agent_runtime_observator.Prelude.{◌≡◌, refl, String, List, [], ◌∷◌, map}
use agent_runtime_observator.Clinic.Diagnoser.{
  CanonicalStep, validation_gap_lengths, recent_same_action_lengths,
}
use agent_runtime_observator.Clinic.Diagnoser.Gap.{histories, gap}
use agent_runtime_observator.Clinic.Diagnoser.Streak.{streak, step_lengths-histories}

abbrev step_of : String → CanonicalStep
step_of family = record {
  action_family = family;
  observation_class = "neutral";
  working_dir_class = "testbed";
}

abbrev states : List CanonicalStep
states =
    step_of "file_edit"
    ∷ step_of "command"
    ∷ step_of "command"
    ∷ step_of "test"
    ∷ step_of "file_edit"
    ∷ []

gaps : validation_gap_lengths states ≡ 0 ∷ 1 ∷ 2 ∷ 0 ∷ 0 ∷ []
unfolding validation_gap_lengths
gaps = refl

streaks : recent_same_action_lengths states ≡ 1 ∷ 1 ∷ 2 ∷ 1 ∷ 1 ∷ []
unfolding recent_same_action_lengths
streaks = refl

step_lengths-histories_example :
    (validation_gap_lengths states ≡ map gap (histories [] states))
    × (recent_same_action_lengths states ≡ map streak (histories [] states))
step_lengths-histories_example = step_lengths-histories states
