-- ===== src/Schema/Models/Run.antt =====
-- packages/schema/aro_schema/models.py: a run, what its steps record, its verdict, and the
-- validator of its identities.
use agent_runtime_observator.Prelude.{
  ℕ, Bool, true, false, not, ◌&&◌, String, Option, none, some, List, map, any, all, all_distinct,
  str_eq, if◌then◌else◌,
}
use agent_runtime_observator.Text.{is_blank}
use agent_runtime_observator.Json.{Fields}
use agent_runtime_observator.Schema.Models.{
  RunStatus, StepKind, Decision, allow, deny, needs_review, Severity, RunVerdict, trusted,
  review_required, blocked,
}

pub record ReviewerSeat : Type 0 where
  pub id : String
  pub name : String
  pub role : String
  pub scope : String

-- The field validator `_not_blank` of `ReviewerSeat`.
unfoldable pub is_named_seat : ReviewerSeat → Bool
unfolding is_blank
is_named_seat s =
    not (is_blank s.id) && not (is_blank s.name) && not (is_blank s.role) && not (is_blank s.scope)

pub record PolicyDecision : Type 0 where
  pub id : String
  pub run_id : String
  pub step_index : ℕ
  pub policy_id : String
  pub rule_id : String
  pub decision : Decision
  pub reason : String

pub record RiskSignal : Type 0 where
  pub id : String
  pub run_id : String
  pub step_index : ℕ
  pub severity : Severity
  pub category : String
  pub message : String

pub record EvidenceItem : Type 0 where
  pub id : String
  pub run_id : String
  pub step_index : ℕ
  pub kind : String
  pub digest : String
  pub uri : Option String
  pub description : String

pub record Artifact : Type 0 where
  pub id : String
  pub run_id : String
  pub path : String
  pub digest : String
  pub media_type : String
  pub size_bytes : ℕ

pub record StepRecord : Type 0 where
  pub index : ℕ
  pub kind : StepKind
  pub name : String
  pub args : Fields
  pub allocated_to : List String
  pub supports_goal : String
  pub input_digest : String
  pub output_digest : Option String
  pub output_preview : Option String
  pub decision_id : Option String
  pub started_at : ℕ
  pub duration_ms : ℕ
  pub error : Option String

pub record Coverage : Type 0 where
  pub captured : List String
  pub blind_spots : List String
  pub enforcement : List String

pub record AgentRun : Type 0 where
  pub id : String
  pub task_id : String
  pub agent : String
  pub model : Option String
  pub status : RunStatus
  pub started_at : Option ℕ
  pub finished_at : Option ℕ
  pub coverage : Option Coverage
  pub reviewer_seats : List ReviewerSeat
  pub steps : List StepRecord
  pub policy_decisions : List PolicyDecision
  pub risk_signals : List RiskSignal
  pub evidence : List EvidenceItem
  pub artifacts : List Artifact

abbrev pub is_deny : PolicyDecision → Bool
is_deny d = elim d.decision [ allow ↦ false | deny ↦ true | needs_review ↦ false ]

abbrev pub is_needs_review : PolicyDecision → Bool
is_needs_review d = elim d.decision [ allow ↦ false | deny ↦ false | needs_review ↦ true ]

-- The computed field `verdict`.
unfoldable pub verdict : AgentRun → RunVerdict
verdict run =
    if any is_deny run.policy_decisions
    then blocked
    else if any is_needs_review run.policy_decisions
    then review_required
    else trusted

-- What the validator `_identity_invariants` raises.
pub data IdentityError : Type 0 where
  duplicate_seats : IdentityError
  duplicate_decisions : IdentityError
  foreign_entry : String → IdentityError

unfoldable pub identity_invariants : AgentRun → Option IdentityError
identity_invariants run =
    if not (all_distinct (map (λ s. s.id) run.reviewer_seats))
    then some duplicate_seats
    else if not (all_distinct (map (λ d. d.id) run.policy_decisions))
    then some duplicate_decisions
    else if not (all (λ d. str_eq d.run_id run.id) run.policy_decisions)
    then some (foreign_entry "policy_decisions")
    else if not (all (λ s. str_eq s.run_id run.id) run.risk_signals)
    then some (foreign_entry "risk_signals")
    else if not (all (λ e. str_eq e.run_id run.id) run.evidence)
    then some (foreign_entry "evidence")
    else if not (all (λ a. str_eq a.run_id run.id) run.artifacts)
    then some (foreign_entry "artifacts")
    else none
