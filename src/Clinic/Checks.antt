-- ===== src/Clinic/Checks.antt =====
-- packages/clinic/src/wutai_clinic/kernel/manipulation_checks.py. The floating-point rates are an
-- abstract type with its division, its zero and its order.
pub mod Gate
use agent_runtime_observator.Prelude.{
  ℕ, Bool, true, false, ◌&&◌, not, String, List, [], ◌∷◌, map, all, count_if, length, ltb, ◌==◌,
  str_eq, if◌then◌else◌,
}
use agent_runtime_observator.Json.{Fields}

pub record Floats : Type 1 where
  pub Rate : Type 0
  pub ratio : ℕ → ℕ → Rate
  pub zero_rate : Rate
  pub at_least : Rate → Rate → Bool

-- A telemetry row is a dict.
abbrev pub Rows : Type 0
Rows = List Fields

module _ (floats : Floats) where
  pub record ManipulationCheck : Type 0 where
    pub check_id : String
    pub description : String
    pub arm : String
    pub predicate : Fields → Bool
    pub kind : String
    pub min_rate : floats.Rate

  pub record CheckResult : Type 0 where
    pub check_id : String
    pub arm : String
    pub kind : String
    pub matched : ℕ
    pub total : ℕ
    pub rate : floats.Rate
    pub passed : Bool
    pub description : String

  pub record Evaluation : Type 0 where
    pub all_passed : Bool
    pub results : List CheckResult

  -- `arms.get(check.arm, [])`
  unfoldable pub rows_of : String → List (String × Rows) → Rows
  rows_of arm [] = []
  rows_of arm ((name, rows) ∷ arms) =
      let rest = rows_of arm arms in if str_eq name arm then rows else rest

  -- `(matched / total) if total else 0.0`
  unfoldable pub rate_of : ℕ → ℕ → floats.Rate
  rate_of matched total = if total == 0 then floats.zero_rate else floats.ratio matched total

  -- The branch on the kind of the check.
  unfoldable pub passes : ManipulationCheck → ℕ → ℕ → Bool
  unfolding rate_of
  passes check matched total =
      if str_eq check.kind "absent_in_arm"
      then ltb 0 total && (matched == 0)
      else ltb 0 total && floats.at_least (rate_of matched total) check.min_rate

  unfoldable pub evaluate_check : List (String × Rows) → ManipulationCheck → CheckResult
  unfolding rows_of passes rate_of
  evaluate_check arms check =
      let rows = rows_of check.arm arms in
      let matched = count_if check.predicate rows in
      let total = length rows in
      record {
        check_id = check.check_id;
        arm = check.arm;
        kind = check.kind;
        matched = matched;
        total = total;
        rate = rate_of matched total;
        passed = passes check matched total;
        description = check.description;
      }

  -- `bool(results)`
  some_results : List CheckResult → Bool
  some_results [] = false
  some_results (_ ∷ _) = true

  unfoldable pub evaluate_manipulation_checks :
      List ManipulationCheck → List (String × Rows) → Evaluation
  unfolding evaluate_check some_results
  evaluate_manipulation_checks checks arms =
      let results = map (evaluate_check arms) checks in
      record {
        all_passed = some_results results && all (λ (r : CheckResult). r.passed) results;
        results = results;
      }
