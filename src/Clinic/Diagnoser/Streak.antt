-- ===== src/Clinic/Diagnoser/Streak.antt =====
-- What `recent_same_action_lengths` of packages/clinic/src/wutai_clinic/engine/diagnoser.py counts.
use agent_runtime_observator.Prelude.{
  ℕ, suc, ◌≡◌, refl, sym, ap, ◌∙◌, inl, inr, true, false, String, some, List, [], ◌∷◌, map, str_eq,
  str_eq_refl, eq_iff, Bool-cases, if◌then◌else◌,
}
use agent_runtime_observator.Clinic.Diagnoser.{
  CanonicalStep, streaks_from, validation_gap_lengths, recent_same_action_lengths,
}
use agent_runtime_observator.Clinic.Diagnoser.Gap.{histories, gap, validation_gap_lengths-gap}

-- How many of the latest steps are of a family, up to the first that is not.
unfoldable run : String → List CanonicalStep → ℕ
run family [] = 0
run family (state ∷ past) =
    let rest = run family past in if str_eq family state.action_family then suc rest else 0

unfoldable pub streak : List CanonicalStep → ℕ
unfolding run
streak [] = 0
streak (state ∷ past) = run state.action_family (state ∷ past)

run_self :
    (state : CanonicalStep) (past : List CanonicalStep)
    → run state.action_family (state ∷ past) ≡ suc (run state.action_family past)
unfolding run
run_self state past = rw (str_eq_refl state.action_family) refl

run_other :
    (state last : CanonicalStep) (past : List CanonicalStep)
    → str_eq state.action_family last.action_family ≡ false
    → run state.action_family (last ∷ past) ≡ 0
unfolding run
run_other state last past e = rw e refl

streaks_from-same :
    (current : String) (n : ℕ) (state : CanonicalStep) (states : List CanonicalStep)
    → str_eq state.action_family current ≡ true
    → streaks_from (some current) n (state ∷ states)
      ≡ suc n ∷ streaks_from (some current) (suc n) states
unfolding streaks_from
streaks_from-same current n state states e = rw e refl

streaks_from-other :
    (current : String) (n : ℕ) (state : CanonicalStep) (states : List CanonicalStep)
    → str_eq state.action_family current ≡ false
    → streaks_from (some current) n (state ∷ states)
      ≡ 1 ∷ streaks_from (some state.action_family) 1 states
unfolding streaks_from
streaks_from-other current n state states e = rw e refl

-- The streak after a step, and those of the steps that follow.
streaks_from-step :
    (state : CanonicalStep) (past states : List CanonicalStep)
    → streaks_from (some state.action_family) (run state.action_family (state ∷ past)) states
      ≡ map streak (histories (state ∷ past) states)
    → suc (run state.action_family past)
        ∷ streaks_from (some state.action_family) (suc (run state.action_family past)) states
      ≡ map streak (histories past (state ∷ states))
unfolding histories streak
streaks_from-step state past states rest =
    ap (λ n. n ∷ streaks_from (some state.action_family) n states) (sym (run_self state past))
    ∙ ap (λ ns. run state.action_family (state ∷ past) ∷ ns) rest

streaks_from-histories :
    (last : CanonicalStep) (past states : List CanonicalStep)
    → streaks_from (some last.action_family) (run last.action_family (last ∷ past)) states
      ≡ map streak (histories (last ∷ past) states)
unfolding streaks_from histories
streaks_from-histories last past [] = refl
streaks_from-histories last past (state ∷ states) =
    let family = state.action_family in
    let count = run last.action_family (last ∷ past) in
    let step =
      streaks_from-step state (last ∷ past) states
        (streaks_from-histories state (last ∷ past) states) in
    elim (Bool-cases (str_eq family last.action_family)) [
      | inl e ↦
          streaks_from-same last.action_family count state states e
          ∙ ap
              (λ f.
                suc (run f (last ∷ past))
                ∷ streaks_from (some f) (suc (run f (last ∷ past))) states)
              (sym ((eq_iff family last.action_family).0 e))
          ∙ step
      | inr e ↦
          streaks_from-other last.action_family count state states e
          ∙ ap (λ n. suc n ∷ streaks_from (some family) (suc n) states)
              (sym (run_other state last past e))
          ∙ step
    ]

-- The length at each step is the number of steps of its family that lead up to it without another
-- between.
pub recent_same_action_lengths-streak :
    (states : List CanonicalStep)
    → recent_same_action_lengths states ≡ map streak (histories [] states)
unfolding recent_same_action_lengths streaks_from histories run
recent_same_action_lengths-streak [] = refl
recent_same_action_lengths-streak (state ∷ states) =
    streaks_from-step state [] states (streaks_from-histories state [] states)

-- At each step, the gap is the number of steps since the latest edit that no validation came after, or 0
-- without one, and the streak is the number of steps of its family up to it without another between.
pub step_lengths-histories :
    (states : List CanonicalStep)
    → (validation_gap_lengths states ≡ map gap (histories [] states))
      × (recent_same_action_lengths states ≡ map streak (histories [] states))
step_lengths-histories states =
    (validation_gap_lengths-gap states, recent_same_action_lengths-streak states)
