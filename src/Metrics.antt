-- ===== src/Metrics.antt =====
-- packages/telemetry/aro_telemetry/metrics.py: the gauges on review debt, set at each scrape, and
-- the counters that a run's hooks increment. A metric with labels is the list of its children.
pub mod Counts
pub mod Keys
use agent_runtime_observator.Prelude.{
  ℕ, suc, ◌+◌, ◌-◌, Bool, true, false, String, Option, none, some, List, [], ◌∷◌, ltb, leb, str_eq,
  if◌then◌else◌,
}
use agent_runtime_observator.Json.{ℤ, pos, negsuc}
use agent_runtime_observator.Schema.Models.{
  Decision, allow, deny, needs_review, decision_value, status_value,
}
use agent_runtime_observator.Schema.Models.Run.{PolicyDecision, StepRecord, AgentRun}
use agent_runtime_observator.Schema.Models.Governance.{ReviewDebtItem, open_debt, cleared}

-- A `defaultdict(int)`.
abbrev pub Counts : Type 0
Counts = List (String × ℕ)

-- `d[k] += 1`
unfoldable pub add_one : String → Counts → Counts
add_one rule [] = (rule, 1) ∷ []
add_one rule ((k, n) ∷ counts) =
    let rest = (k, n) ∷ add_one rule counts in if str_eq k rule then (k, suc n) ∷ counts else rest

unfoldable pub count_of : String → Counts → ℕ
count_of rule [] = 0
count_of rule ((k, n) ∷ counts) =
    let rest = count_of rule counts in if str_eq k rule then n else rest

-- The four variables of the loop.
pub record Tally : Type 0 where
  pub open_c : Counts
  pub cleared_c : Counts
  pub stale_c : Counts
  pub oldest_open : Option ℕ

-- `finished_at is not None and (oldest_open is None or finished_at < oldest_open)`
unfoldable pub older : Option ℕ → Option ℕ → Option ℕ
older none oldest = oldest
older (some finished) none = some finished
older (some finished) (some oldest) = if ltb finished oldest then some finished else some oldest

-- The body of the loop behind `continue`.
tally_open : ReviewDebtItem → Option ℕ → Tally → Tally
unfolding add_one older
tally_open item finished t = record t {
  open_c = add_one item.rule_id t.open_c;
  stale_c = if item.stale_attestation then add_one item.rule_id t.stale_c else t.stale_c;
  oldest_open = older finished t.oldest_open;
}

unfoldable pub tally_item : ReviewDebtItem → Option ℕ → Tally → Tally
unfolding add_one tally_open
tally_item item finished t = elim item.status [
  | cleared ↦ record t { cleared_c = add_one item.rule_id t.cleared_c }
  | open_debt ↦ tally_open item finished t
]

unfoldable pub tally : List (ReviewDebtItem × Option ℕ) → Tally → Tally
unfolding tally_item
tally [] t = t
tally ((item, finished) ∷ items) t = tally items (tally_item item finished t)

-- `gauge.labels(rule_id=rule).set(n)`
unfoldable pub set_gauge : String → ℕ → Counts → Counts
set_gauge rule n [] = (rule, n) ∷ []
set_gauge rule n ((k, m) ∷ gauge) =
    let rest = (k, m) ∷ set_gauge rule n gauge in if str_eq k rule then (k, n) ∷ gauge else rest

-- `for rule_id, n in counts.items(): gauge.labels(rule_id=rule_id).set(n)`
unfoldable pub set_all : Counts → Counts → Counts
unfolding set_gauge
set_all [] gauge = gauge
set_all ((rule, n) ∷ counts) gauge = set_all counts (set_gauge rule n gauge)

-- What the gauges hold; the age is in microseconds.
pub record Gauges : Type 0 where
  pub open_by_rule : Counts
  pub cleared_by_rule : Counts
  pub stale_by_rule : Counts
  pub oldest_open_age : ℤ

age_at : ℕ → Option ℕ → ℤ
age_at now none = pos 0
age_at now (some oldest) = if leb oldest now then pos (now - oldest) else negsuc (oldest - now - 1)

-- `.clear()` of the three gauges with labels
unfoldable pub clear : Gauges → Gauges
clear gauges = record gauges { open_by_rule = []; cleared_by_rule = []; stale_by_rule = [] }

-- `refresh_review_debt_gauges` on what the gauges hold from earlier scrapes.
unfoldable pub refresh_review_debt_gauges : List (ReviewDebtItem × Option ℕ) → ℕ → Gauges → Gauges
unfolding tally age_at clear set_all
refresh_review_debt_gauges items now before =
    let gauges = clear before in
    let t =
      tally items (record { open_c = []; cleared_c = []; stale_c = []; oldest_open = none }) in
    record {
      open_by_rule = set_all t.open_c gauges.open_by_rule;
      cleared_by_rule = set_all t.cleared_c gauges.cleared_by_rule;
      stale_by_rule = set_all t.stale_c gauges.stale_by_rule;
      oldest_open_age = age_at now t.oldest_open;
    }

-- The counters of `MetricsHooks`, with the durations that the histogram has seen.
pub record Counters : Type 0 where
  pub steps_total : List ((String × String) × ℕ)
  pub denials_total : Counts
  pub review_debt_total : Counts
  pub runs_total : Counts
  pub run_durations : List ℤ

add_step : String → String → List ((String × String) × ℕ) → List ((String × String) × ℕ)
add_step tool label [] = ((tool, label), 1) ∷ []
add_step tool label (((t, l), n) ∷ counts) =
    let rest = ((t, l), n) ∷ add_step tool label counts in
    if str_eq t tool then (if str_eq l label then ((t, l), suc n) ∷ counts else rest) else rest

count_decision : Decision → String → Counters → Counters
unfolding add_one
count_decision allow rule c = c
count_decision deny rule c = record c { denials_total = add_one rule c.denials_total }
count_decision needs_review rule c = record c {
  review_debt_total = add_one rule c.review_debt_total;
}

unfoldable pub on_step_end : StepRecord → Option PolicyDecision → Counters → Counters
unfolding add_step count_decision decision_value
on_step_end step none c = record c {
  steps_total = add_step step.name (decision_value allow) c.steps_total;
}
on_step_end step (some d) c =
    count_decision d.decision d.rule_id
      (record c { steps_total = add_step step.name (decision_value d.decision) c.steps_total })

observe : Option ℕ → Option ℕ → List ℤ → List ℤ
unfolding age_at
observe (some started) (some finished) durations = age_at finished (some started) ∷ durations
observe _ _ durations = durations

unfoldable pub on_run_end : AgentRun → Counters → Counters
unfolding add_one observe status_value
on_run_end run c = record c {
  runs_total = add_one (status_value run.status) c.runs_total;
  run_durations = observe run.started_at run.finished_at c.run_durations;
}
