-- ===== src/Examples/Debt.antt =====
-- The theorems on review debt, at a run with one decision to review and three attestations.
use mathlib.Core.List.{Memᴰ}
use agent_runtime_observator.Prelude.{
  ℕ, count_if, ◌≡◌, refl, ◌↔◌, String, Option, none, some, List, [], ◌∷◌, ◌++◌, map, keep, true,
  false,
}
use agent_runtime_observator.Text.Decimal.{show_nat}
use agent_runtime_observator.Json.{pos, digest_obj, canonical_json}
use agent_runtime_observator.Schema.Models.{
  completed, failed, needs_review, AttestationDecision, accept, reject,
}
use agent_runtime_observator.Schema.Models.Run.{PolicyDecision, AgentRun, is_needs_review}
use agent_runtime_observator.Schema.Models.Governance.{
  Attestation, ReviewDebtItem, open_debt, cleared,
}
use agent_runtime_observator.Schema.Subject.{
  subject_schema_version, run_subject_digest, subject_matches,
}
use agent_runtime_observator.Schema.Subject.Laws.{ReadsVersion, subject_matches_iff}
use agent_runtime_observator.Schema.Subject.Binding.{SameContent}
use agent_runtime_observator.Schema.Subject.Binding.Content.{subject_matches-SameContent}
use agent_runtime_observator.Schema.ReviewDebt.{compute_review_debt}
use agent_runtime_observator.Schema.ReviewDebt.Join.{described_item, compute_review_debt-described}
use agent_runtime_observator.Schema.ReviewDebt.Clearing.{
  Clears, NamesStale, cleared_iff, cleared_stays, stale_iff,
}
use agent_runtime_observator.Metrics.{Gauges, count_of, refresh_review_debt_gauges}
use agent_runtime_observator.Metrics.Counts.{
  open_row, cleared_row, stale_row, refresh_review_debt_gauges-counts,
}
use agent_runtime_observator.Examples.{platform, owner}

abbrev decision : PolicyDecision
decision = record {
  id = "r-pd-0";
  run_id = "r";
  step_index = 0;
  policy_id = "p";
  rule_id = "rule";
  decision = needs_review;
  reason = "writes";
}

abbrev run : AgentRun
run = record {
  id = "r";
  task_id = "t";
  agent = "a";
  model = none;
  status = completed;
  started_at = none;
  finished_at = none;
  coverage = none;
  reviewer_seats = owner ∷ [];
  steps = [];
  policy_decisions = decision ∷ [];
  risk_signals = [];
  evidence = [];
  artifacts = [];
}

abbrev text_of : Option String → String
text_of none = ""
text_of (some t) = t

abbrev current : String
current = text_of (run_subject_digest platform run subject_schema_version)

abbrev signed : AttestationDecision → String → Attestation
signed verdict digest = record {
  id = "att";
  run_id = "r";
  seat_id = none;
  decision = verdict;
  declared_scope = "all";
  excluded_scope = "";
  labels = [];
  proposed_by = none;
  attested_by = "Ada";
  note = "";
  subject_digest = digest;
  attested_at = 0;
  clears_decisions = "r-pd-0" ∷ [];
}

abbrev fresh : List Attestation
fresh = signed accept current ∷ []

abbrev outdated : List Attestation
outdated = signed accept "v1:old" ∷ []

abbrev item : ReviewDebtItem
item = record {
  decision_id = "r-pd-0";
  run_id = "r";
  step_index = 0;
  rule_id = "rule";
  reason = "writes";
  status = cleared;
  cleared_by = some "att";
  attested_by = some "Ada";
  stale_attestation = false;
}

abbrev stale_item : ReviewDebtItem
stale_item = record item {
  status = open_debt;
  cleared_by = none;
  attested_by = none;
  stale_attestation = true;
}

abbrev rows : List (ReviewDebtItem × Option ℕ)
rows = (item, some 4) ∷ (stale_item, some 5) ∷ []

reads : ReadsVersion platform
reads = record { two = refl; colon = refl }

item-computed : compute_review_debt platform run fresh ≡ item ∷ []
unfolding compute_review_debt subject_matches show_nat digest_obj canonical_json
item-computed = refl

stale_item-computed : compute_review_debt platform run outdated ≡ stale_item ∷ []
unfolding compute_review_debt subject_matches
stale_item-computed = refl

item-Mem : Memᴰ item (compute_review_debt platform run fresh)
item-Mem = rw item-computed (Memᴰ.head refl)

stale_item-Mem : Memᴰ stale_item (compute_review_debt platform run outdated)
stale_item-Mem = rw stale_item-computed (Memᴰ.head refl)

subject_matches_iff_example :
    (subject_matches platform run current ≡ true)
    ↔ (run_subject_digest platform run subject_schema_version ≡ some current)
subject_matches_iff_example = subject_matches_iff platform reads run current

compute_review_debt-described_example :
    compute_review_debt platform run outdated
    ≡ map (described_item platform run outdated) (keep is_needs_review run.policy_decisions)
compute_review_debt-described_example = compute_review_debt-described platform run outdated

cleared_iff_example :
    (item.status ≡ cleared)
    ↔ ((a : Attestation) × Memᴰ a fresh × Clears platform reads run item.decision_id a)
cleared_iff_example = cleared_iff platform reads run fresh item-Mem

cleared_stays_example :
    Memᴰ item (compute_review_debt platform run (fresh ++ signed reject current ∷ []))
cleared_stays_example =
    cleared_stays platform reads run fresh (signed reject current ∷ []) item-Mem refl

stale_iff_example : (stale_item.stale_attestation ≡ true) ↔ (
    (stale_item.status ≡ open_debt)
    × ((a : Attestation) × Memᴰ a outdated
        × NamesStale platform reads run stale_item.decision_id a))
stale_iff_example = stale_iff platform reads run outdated stale_item-Mem

-- An earlier scrape, whose items are gone.
abbrev earlier : Gauges
earlier = record {
  open_by_rule = ("rule", 7) ∷ [];
  cleared_by_rule = ("other", 2) ∷ [];
  stale_by_rule = [];
  oldest_open_age = pos 4;
}

refresh_review_debt_gauges-counts_example :
    (count_of "rule" (refresh_review_debt_gauges rows 9 earlier).open_by_rule
      ≡ count_if (open_row "rule") rows)
    × (count_of "rule" (refresh_review_debt_gauges rows 9 earlier).cleared_by_rule
        ≡ count_if (cleared_row "rule") rows)
    × (count_of "rule" (refresh_review_debt_gauges rows 9 earlier).stale_by_rule
        ≡ count_if (stale_row "rule") rows)
refresh_review_debt_gauges-counts_example = refresh_review_debt_gauges-counts "rule" rows 9 earlier

abbrev later_run : AgentRun
later_run = record run { status = failed; finished_at = some 9 }

subject_matches-SameContent_example : SameContent run later_run
unfolding subject_matches digest_obj canonical_json show_nat
subject_matches-SameContent_example =
    subject_matches-SameContent platform run later_run current reads (λ e. e) refl refl
