-- ===== src/Examples/Services.antt =====
-- The theorems on the queue, the worker and the attestation route, at small stores.
use mathlib.Core.List.{Memᴰ}
use agent_runtime_observator.Prelude.{
  ℕ, ◌<◌, ◌≡◌, ◌≢◌, refl, ◌⊎◌, ◌↔◌, ◌*◌, ◌/◌, true, false, String, Option, none, some, List, [],
  ◌∷◌, arith, is_none, leb, All,
}
use agent_runtime_observator.Text.Decimal.{show_nat}
use agent_runtime_observator.Json.{pos, end, digest_obj, canonical_json}
use agent_runtime_observator.Schema.Models.{completed, needs_review, accept}
use agent_runtime_observator.Schema.Models.Run.{PolicyDecision, AgentRun}
use agent_runtime_observator.Schema.Models.Governance.{
  Attestation, ReviewDebtItem, is_signed, cleared,
}
use agent_runtime_observator.Schema.Subject.{subject_matches}
use agent_runtime_observator.Schema.Subject.Laws.{ReadsVersion}
use agent_runtime_observator.Schema.ReviewDebt.{compute_review_debt}
use agent_runtime_observator.Runtime.Store.{
  Store, RunRow, new_store, save_run, get_run, enqueue, claim_next, list_attestations,
  save_attestation,
}
use agent_runtime_observator.Runtime.Store.Queue.{Selects, claim_next-Selects}
use agent_runtime_observator.Worker.{Settings, Times, chaos_injector, process_once}
use agent_runtime_observator.Worker.Attempts.{
  IsSound, work_left, Processes, enqueue-IsSound, process_once-Processes, process_once-IsSound,
  process_once-work_left,
}
use agent_runtime_observator.Api.{
  Reply, reply, CreateAttestationRequest, Wording, dedup, create_attestation,
}
use agent_runtime_observator.Api.Clearing.{
  Responds, create_attestation-Responds, create_attestation-cleared,
}
use agent_runtime_observator.Clinic.Checks.{
  Floats, Rows, ManipulationCheck, evaluate_manipulation_checks,
}
use agent_runtime_observator.Clinic.Checks.Gate.{Holds, evaluate_manipulation_checks-Holds}
use agent_runtime_observator.Examples.{platform, owner, policy, script, files, clock_at}

abbrev pub queued : Store
queued = (enqueue 7 "r" "copy" new_store).1

new-IsSound : IsSound 3 new_store
unfolding new_store
new-IsSound = record { ordered = record { ascending = tt; below = tt }; settled = tt }

pub queued-IsSound : IsSound 3 queued
queued-IsSound = enqueue-IsSound 3 7 "r" "copy" new_store (omega arith) new-IsSound

enqueue-IsSound_example : IsSound 3 (enqueue 7 "r" "copy" new_store).1
enqueue-IsSound_example = enqueue-IsSound 3 7 "r" "copy" new_store (omega arith) new-IsSound

claim_next-Selects_example : Selects 8 queued (claim_next 8 queued)
claim_next-Selects_example = claim_next-Selects 8 queued queued-IsSound.ordered

abbrev pub settings : Settings
settings = record {
  examples = record { name = "copy"; script = script; policy = policy; workspace = files } ∷ [];
  data_dir = "data";
  fail_injector = chaos_injector 1;
  max_attempts = 3;
  backoff_us = 2000000;
}

abbrev pub times : Times
times = record { claimed = 8; saved = 9; failed = 9; run = clock_at 8 }

process_once-Processes_example :
    Processes platform settings times queued (process_once platform settings times queued)
process_once-Processes_example =
    process_once-Processes platform settings times queued queued-IsSound.ordered

process_once-IsSound_example : IsSound 3 (process_once platform settings times queued).1
process_once-IsSound_example = process_once-IsSound platform settings times queued queued-IsSound

process_once-work_left_example :
    (is_none (process_once platform settings times queued).0 ≡ true)
    ⊎ (work_left 3 (process_once platform settings times queued).1.queue < work_left 3 queued.queue)
process_once-work_left_example =
    process_once-work_left platform settings times queued queued-IsSound

abbrev decision : PolicyDecision
decision = record {
  id = "r-pd-0";
  run_id = "r";
  step_index = 0;
  policy_id = "p";
  rule_id = "rule";
  decision = needs_review;
  reason = "writes";
}

abbrev run : AgentRun
run = record {
  id = "r";
  task_id = "t";
  agent = "a";
  model = none;
  status = completed;
  started_at = none;
  finished_at = none;
  coverage = none;
  reviewer_seats = owner ∷ [];
  steps = [];
  policy_decisions = decision ∷ [];
  risk_signals = [];
  evidence = [];
  artifacts = [];
}

abbrev stored : Store
stored = save_run 1 run script.task none none new_store

abbrev request : CreateAttestationRequest
request = record {
  decision = accept;
  declared_scope = "all";
  attested_by = "Ada";
  excluded_scope = "";
  labels = [];
  proposed_by = none;
  seat_id = some "seat-1";
  note = "";
  clears_decisions = "r-pd-0" ∷ "r-pd-0" ∷ [];
}

abbrev wording : Wording
wording = record { repr = λ text. text; invalid = λ a. "must not be blank" }

create_attestation-Responds_example :
    Responds platform wording "att" 2 "r" request stored
      (create_attestation platform wording "att" 2 "r" request stored)
create_attestation-Responds_example =
    create_attestation-Responds platform wording "att" 2 "r" request stored

abbrev attested : Store
attested = (create_attestation platform wording "att" 2 "r" request stored).1

abbrev row_of : Option RunRow → RunRow
row_of none = record {
  id = "";
  created_at = 0;
  status = "";
  example = none;
  steps = 0;
  denials = 0;
  duration_us = pos 0;
  task = script.task;
  run = run;
  trace_path = none;
}
row_of (some row) = row

abbrev row : RunRow
row = row_of (get_run "r" stored)

abbrev answer : Reply Attestation → Attestation
answer (reply a) = a
answer _ = record {
  id = "";
  run_id = "";
  seat_id = none;
  decision = accept;
  declared_scope = "";
  excluded_scope = "";
  labels = [];
  proposed_by = none;
  attested_by = "";
  note = "";
  subject_digest = "";
  attested_at = 0;
  clears_decisions = [];
}

abbrev attestation : Attestation
attestation = answer (create_attestation platform wording "att" 2 "r" request stored).0

abbrev item : ReviewDebtItem
item = record {
  decision_id = "r-pd-0";
  run_id = "r";
  step_index = 0;
  rule_id = "rule";
  reason = "writes";
  status = cleared;
  cleared_by = some "att";
  attested_by = some "Ada";
  stale_attestation = false;
}

row-there : get_run "r" stored ≡ some row
unfolding get_run save_run new_store
row-there = refl

answered :
    create_attestation platform wording "att" 2 "r" request stored ≡ (reply attestation, attested)
unfolding create_attestation get_run save_run new_store is_signed dedup
answered = refl

debt : compute_review_debt platform row.run (list_attestations "r" attested) ≡ item ∷ []
unfolding compute_review_debt create_attestation get_run save_run new_store is_signed
    list_attestations save_attestation subject_matches show_nat digest_obj canonical_json dedup
debt = refl

item-Mem : Memᴰ item (compute_review_debt platform row.run (list_attestations "r" attested))
item-Mem = rw debt (Memᴰ.head refl)

reads : ReadsVersion platform
reads = record { two = refl; colon = refl }

create_attestation-cleared_example : item.status ≡ cleared
create_attestation-cleared_example =
    create_attestation-cleared platform wording "att" 2 "r" request stored reads answered row-there
      (Memᴰ.head refl) item-Mem

-- Rates in percent.
abbrev percent : Floats
percent = record {
  Rate = ℕ;
  ratio = λ matched total. matched * 100 / total;
  zero_rate = 0;
  at_least = λ rate least. leb least rate;
}

abbrev checks : List (ManipulationCheck percent)
checks =
    record {
      check_id = "M4";
      description = "no violations";
      arm = "control";
      predicate = λ row. false;
      kind = "absent_in_arm";
      min_rate = 100;
    }
    ∷ []

abbrev arms : List (String × Rows)
arms = ("control", end ∷ []) ∷ []

evaluate_manipulation_checks-Holds_example :
    ((evaluate_manipulation_checks percent checks arms).all_passed ≡ true)
    ↔ ((checks ≢ []) × All (Holds percent arms) checks)
evaluate_manipulation_checks-Holds_example = evaluate_manipulation_checks-Holds percent arms checks
