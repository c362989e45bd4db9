-- ===== src/Schema/Models.antt =====
-- packages/schema/aro_schema/models.py: the enumerations and the objects of a run. Instants are
-- numbers of microseconds; a duration is the number that the clock measured.
pub mod Run
pub mod Governance
use agent_runtime_observator.Prelude.{String}

pub data RunStatus : Type 0 where
  pending running completed failed : RunStatus

pub data StepKind : Type 0 where
  llm_call tool_call policy_check artifact_write : StepKind

pub data Decision : Type 0 where
  allow deny needs_review : Decision

pub data Severity : Type 0 where
  low medium high critical : Severity

pub data RunVerdict : Type 0 where
  trusted review_required blocked : RunVerdict

pub data AttestationDecision : Type 0 where
  accept amend reject : AttestationDecision

pub data GoalEventKind : Type 0 where
  introduced reinforced replaced retired : GoalEventKind

-- The `value` of each member of a `StrEnum`.
unfoldable pub status_value : RunStatus → String
status_value pending = "pending"
status_value running = "running"
status_value completed = "completed"
status_value failed = "failed"

unfoldable pub decision_value : Decision → String
decision_value allow = "allow"
decision_value deny = "deny"
decision_value needs_review = "needs_review"

unfoldable pub severity_value : Severity → String
severity_value low = "low"
severity_value medium = "medium"
severity_value high = "high"
severity_value critical = "critical"
