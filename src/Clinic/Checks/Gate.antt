-- ===== src/Clinic/Checks/Gate.antt =====
-- When the gate on an experiment's analysis opens.
use agent_runtime_observator.Prelude.{
  ◌≡◌, ◌≢◌, refl, ◌↔◌, inl, inr, Bool, true, false, String, List, [], ◌∷◌, map, all, arith,
  count_if, length, ◌==◌, str_eq, All, Bool-cases,
}
use agent_runtime_observator.Json.{Fields}
use agent_runtime_observator.Clinic.Checks.{
  Floats, Rows, ManipulationCheck, CheckResult, rows_of, rate_of, passes, evaluate_check,
  some_results, evaluate_manipulation_checks,
}

count_if-zero :
    (p : Fields → Bool) (rows : Rows)
    → ((count_if p rows == 0) ≡ true) ↔ All (λ row. p row ≡ false) rows
count_if-zero p [] = (λ h. tt, λ h. refl)
count_if-zero p (row ∷ rows) = (
  λ h.
      let e : p row ≡ false = ground (arith, h) in
      (e, (count_if-zero p rows).0 (ground (arith, h, e))),
  λ (e, h). let k = (count_if-zero p rows).1 h in ground (arith, e, k),
)

module _ (floats : Floats) (arms : List (String × Rows)) where
  -- The meaning of a check: it has rows to judge, and its predicate holds nowhere, if it asks for
  -- absence, or else on a large enough part of them.
  abbrev pub Holds : ManipulationCheck floats → Type 0
  Holds check =
      let rows = rows_of floats check.arm arms in
      (rows ≢ [])
      × (str_eq check.kind "absent_in_arm" ≡ true → All (λ row. check.predicate row ≡ false) rows)
      × (str_eq check.kind "absent_in_arm" ≡ false
          → floats.at_least (floats.ratio (count_if check.predicate rows) (length rows))
              check.min_rate
            ≡ true)

  judged :
      (check : ManipulationCheck floats) (rows : Rows)
      → (passes floats check (count_if check.predicate rows) (length rows) ≡ true) ↔ (
          (rows ≢ [])
          × (str_eq check.kind "absent_in_arm" ≡ true
              → All (λ row. check.predicate row ≡ false) rows)
          × (str_eq check.kind "absent_in_arm" ≡ false
              → floats.at_least
                  (floats.ratio (count_if check.predicate rows) (length rows))
                  check.min_rate
                ≡ true))
  unfolding passes rate_of
  judged check [] = (λ h. ground (arith, h), λ h. absurd (h.0 refl))
  judged check (row ∷ rows) = elim (Bool-cases (str_eq check.kind "absent_in_arm")) [
    | inl e ↦ (
      λ h. (
        λ k. cc k,
        λ _. (count_if-zero check.predicate (row ∷ rows)).0 (ground (arith, h, e)),
        λ k. cc (e, k),
      ),
      λ h. let k = (count_if-zero check.predicate (row ∷ rows)).1 (h.1 e) in ground (arith, e, k),
    )
    | inr e ↦ (
      λ h. (λ k. cc k, λ k. cc (e, k), λ _. ground (arith, h, e)),
      λ h. let k = h.2 e in ground (arith, e, k),
    )
  ]

  all_hold :
      (checks : List (ManipulationCheck floats))
      → (all (λ (r : CheckResult floats). r.passed) (map (evaluate_check floats arms) checks)
          ≡ true)
        ↔ All Holds checks
  unfolding evaluate_check
  all_hold [] = (λ h. tt, λ h. refl)
  all_hold (check ∷ checks) =
      let one = judged check (rows_of floats check.arm arms) in
      let rest = all_hold checks in
      (
        λ h. (one.0 (ground (arith, h)), rest.0 (ground (arith, h))),
        λ (a, b). let p = one.1 a in let q = rest.1 b in ground (arith, p, q),
      )

  -- The gate opens exactly when there are checks and each of them holds: its arm has rows, and its
  -- predicate holds on none of them, for a check of absence, or for any other check on a part of
  -- them that reaches the check's rate.
  pub evaluate_manipulation_checks-Holds :
      (checks : List (ManipulationCheck floats))
      → ((evaluate_manipulation_checks floats checks arms).all_passed ≡ true)
        ↔ ((checks ≢ []) × All Holds checks)
  unfolding evaluate_manipulation_checks some_results
  evaluate_manipulation_checks-Holds [] = (λ h. cc h, λ h. absurd (h.0 refl))
  evaluate_manipulation_checks-Holds (check ∷ checks) =
      let same = all_hold (check ∷ checks) in
      (λ h. (λ k. cc k, same.0 (ground (arith, h))), λ h. let k = same.1 h.1 in ground (arith, k))
