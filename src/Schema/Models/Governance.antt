-- ===== src/Schema/Models/Governance.antt =====
-- packages/schema/aro_schema/models.py: goals and tasks, attestations, review debt and the reports
-- of a replay.
use agent_runtime_observator.Prelude.{ℕ, Bool, not, ◌&&◌, String, Option, List, [], ◌∷◌}
use agent_runtime_observator.Text.{is_blank}
use agent_runtime_observator.Json.{ℤ}
use agent_runtime_observator.Schema.Models.{AttestationDecision, GoalEventKind}

pub record Goal : Type 0 where
  pub id : String
  pub statement : String
  pub constraints : List String
  pub owner_seat_id : String

pub record GoalEvent : Type 0 where
  pub id : String
  pub goal_id : String
  pub kind : GoalEventKind
  pub at : ℕ
  pub note : String
  pub replaced_by_goal_id : Option String

pub record Task : Type 0 where
  pub id : String
  pub title : String
  pub goal_id : String
  pub created_at : ℕ

pub record Attestation : Type 0 where
  pub id : String
  pub run_id : String
  pub seat_id : Option String
  pub decision : AttestationDecision
  pub declared_scope : String
  pub excluded_scope : String
  pub labels : List String
  pub proposed_by : Option String
  pub attested_by : String
  pub note : String
  pub subject_digest : String
  pub attested_at : ℕ
  pub clears_decisions : List String

-- The field validator `_not_blank` of `Attestation`.
unfoldable pub is_signed : Attestation → Bool
unfolding is_blank
is_signed a = not (is_blank a.attested_by) && not (is_blank a.declared_scope)

-- "open" or "cleared"
pub data DebtStatus : Type 0 where
  open_debt cleared : DebtStatus

pub record ReviewDebtItem : Type 0 where
  pub decision_id : String
  pub run_id : String
  pub step_index : ℕ
  pub rule_id : String
  pub reason : String
  pub status : DebtStatus
  pub cleared_by : Option String
  pub attested_by : Option String
  pub stale_attestation : Bool

pub record StepDivergence : Type 0 where
  pub step_index : ℤ
  pub field : String
  pub recorded : Option String
  pub replayed : Option String

pub record ReplayReport : Type 0 where
  pub run_id : String
  pub steps_compared : ℕ
  pub divergences : List StepDivergence

-- The property `ok` of a report.
unfoldable pub report_ok : ReplayReport → Bool
report_ok report = elim report.divergences [ [] ↦ Bool.true | _ ∷ _ ↦ Bool.false ]

unfoldable pub debt_status_value : DebtStatus → String
debt_status_value open_debt = "open"
debt_status_value cleared = "cleared"
