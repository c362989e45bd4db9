-- ===== src/Runtime/Store.antt =====
-- The class `RunStore` of packages/runtime/aro_runtime/store.py: the tables `runs`, `queue` and
-- `attestations`, each as the list of its rows in the order of their row ids. A method is one
-- transaction under the lock, so it is one function from the store to the store; `utcnow()` is an
-- argument of those that read it.
pub mod Queue
use agent_runtime_observator.Prelude.{
  ℕ, suc, ◌+◌, ◌-◌, ◌&&◌, Bool, true, false, not, String, Option, none, some, List, [], ◌∷◌, ◌++◌,
  map, leb, ◌==◌, str_eq, keep, count_if, length, take, if◌then◌else◌,
}
use mathlib.Core.List.{reverse}
use agent_runtime_observator.Json.{ℤ, pos, negsuc}
use agent_runtime_observator.Schema.Models.{RunStatus, pending, status_value}
use agent_runtime_observator.Schema.Models.Run.{AgentRun, is_deny}
use agent_runtime_observator.Schema.Models.Governance.{Task, Attestation}

pub record RunRow : Type 0 where
  pub id : String
  pub created_at : ℕ
  pub status : String
  pub example : Option String
  pub steps : ℕ
  pub denials : ℕ
  pub duration_us : ℤ
  pub task : Task
  pub run : AgentRun
  pub trace_path : Option String

pub record QueueItem : Type 0 where
  pub id : ℕ
  pub run_id : String
  pub example : String
  pub status : String
  pub attempts : ℕ
  pub available_at : Option ℕ
  pub last_error : Option String
  pub enqueued_at : ℕ

pub record AttestationRow : Type 0 where
  pub id : String
  pub run_id : String
  pub created_at : ℕ
  pub payload : Attestation

-- `next_id` is the counter of AUTOINCREMENT.
pub record Store : Type 0 where
  pub runs : List RunRow
  pub queue : List QueueItem
  pub next_id : ℕ
  pub attestations : List AttestationRow

unfoldable pub new_store : Store
new_store = record { runs = []; queue = []; next_id = 1; attestations = [] }

-- `finished - started`, in microseconds
abbrev elapsed : ℕ → ℕ → ℤ
elapsed started finished =
    if leb started finished then pos (finished - started) else negsuc (started - finished - 1)

duration_of : Option ℕ → Option ℕ → ℤ
duration_of (some started) (some finished) = elapsed started finished
duration_of _ _ = pos 0

-- INSERT OR REPLACE: the old row goes, and the new one gets the next row id.
unfoldable pub save_run : ℕ → AgentRun → Task → Option String → Option String → Store → Store
unfolding duration_of status_value
save_run now run task example trace_path s =
    let row : RunRow = record {
      id = run.id;
      created_at = now;
      status = status_value run.status;
      example = example;
      steps = length run.steps;
      denials = count_if is_deny run.policy_decisions;
      duration_us = duration_of run.started_at run.finished_at;
      task = task;
      run = run;
      trace_path = trace_path;
    } in
    record s { runs = keep (λ (old : RunRow). not (str_eq old.id run.id)) s.runs ++ row ∷ [] }

unfoldable pub save_placeholder : ℕ → String → Task → String → Store → Store
unfolding save_run
save_placeholder now run_id task example s =
    save_run now
      (record {
        id = run_id;
        task_id = task.id;
        agent = "scripted@0.1";
        model = none;
        status = pending;
        started_at = none;
        finished_at = none;
        coverage = none;
        reviewer_seats = [];
        steps = [];
        policy_decisions = [];
        risk_signals = [];
        evidence = [];
        artifacts = [];
      })
      task (some example) none s

find_run : String → List RunRow → Option RunRow
find_run run_id [] = none
find_run run_id (row ∷ rows) =
    let rest = find_run run_id rows in if str_eq row.id run_id then some row else rest

-- The caller reads the run, the task, the example and the trace path of the row.
unfoldable pub get_run : String → Store → Option RunRow
unfolding find_run
get_run run_id s = find_run run_id s.runs

unfoldable pub all_runs : Store → List AgentRun
all_runs s = map (λ (row : RunRow). row.run) s.runs

-- The id of the new row is returned.
unfoldable pub enqueue : ℕ → String → String → Store → ℕ × Store
enqueue now run_id example s =
    let item : QueueItem = record {
      id = s.next_id;
      run_id = run_id;
      example = example;
      status = "pending";
      attempts = 0;
      available_at = none;
      last_error = none;
      enqueued_at = now;
    } in
    (s.next_id, record s { queue = s.queue ++ item ∷ []; next_id = suc s.next_id })

-- `available_at IS NULL OR available_at <= ?`
is_available : ℕ → Option ℕ → Bool
is_available now none = true
is_available now (some at) = leb at now

unfoldable pub is_claimable : ℕ → QueueItem → Bool
unfolding is_available
is_claimable now item = str_eq item.status "pending" && is_available now item.available_at

unfoldable pub first_claimable : ℕ → List QueueItem → Option QueueItem
unfolding is_claimable
first_claimable now [] = none
first_claimable now (item ∷ items) =
    let rest = first_claimable now items in if is_claimable now item then some item else rest

-- UPDATE queue SET … WHERE id = ?
unfoldable pub update_item : ℕ → (QueueItem → QueueItem) → List QueueItem → List QueueItem
update_item id change = map (λ (item : QueueItem). if item.id == id then change item else item)

unfoldable pub mark : ℕ → String → Store → Store
unfolding update_item
mark queue_id status s = record s {
  queue = update_item queue_id (λ item. record item { status = status }) s.queue;
}

-- The row is returned as it was selected.
unfoldable pub claim_next : ℕ → Store → Option QueueItem × Store
unfolding first_claimable mark
claim_next now s = elim (first_claimable now s.queue) [
  | none ↦ (none, s)
  | some item ↦ (some item, mark item.id "running" s)
]

unfoldable pub retry : ℕ → ℕ → ℕ → String → Store → Store
unfolding update_item
retry queue_id attempts available_at error s = record s {
  queue =
      update_item queue_id
        (λ item. record item {
          status = "pending";
          attempts = attempts;
          available_at = some available_at;
          last_error = some error;
        })
        s.queue;
}

unfoldable pub mark_dead : ℕ → ℕ → String → Store → Store
unfolding update_item
mark_dead queue_id attempts error s = record s {
  queue =
      update_item queue_id
        (λ item. record item { status = "dead"; attempts = attempts; last_error = some error })
        s.queue;
}

unfoldable pub save_attestation : ℕ → Attestation → Store → Store
save_attestation now attestation s =
    let row : AttestationRow = record {
      id = attestation.id;
      run_id = attestation.run_id;
      created_at = now;
      payload = attestation;
    } in
    record s {
      attestations =
          keep (λ (old : AttestationRow). not (str_eq old.id attestation.id)) s.attestations
          ++ row ∷ [];
    }

-- ORDER BY created_at; rows of one instant stay in the order of their row ids.
unfoldable pub insert_by_time : AttestationRow → List AttestationRow → List AttestationRow
insert_by_time row [] = row ∷ []
insert_by_time row (other ∷ rows) =
    let later = other ∷ insert_by_time row rows in
    if leb row.created_at other.created_at then row ∷ other ∷ rows else later

unfoldable pub by_time : List AttestationRow → List AttestationRow
unfolding insert_by_time
by_time [] = []
by_time (row ∷ rows) = insert_by_time row (by_time rows)

unfoldable pub list_attestations : String → Store → List Attestation
unfolding by_time
list_attestations run_id s =
    map (λ (row : AttestationRow). row.payload)
      (by_time (keep (λ (row : AttestationRow). str_eq row.run_id run_id) s.attestations))

-- `if status: … WHERE status = ?`
with_status : Option String → List QueueItem → List QueueItem
with_status none items = items
with_status (some status) items =
    if str_eq status "" then items else keep (λ (item : QueueItem). str_eq item.status status) items

-- ORDER BY id DESC LIMIT 100
unfoldable pub list_queue : Option String → Store → List QueueItem
unfolding with_status
list_queue status s = take 100 (reverse (with_status status s.queue))

insert_latest : RunRow → List RunRow → List RunRow
insert_latest row [] = row ∷ []
insert_latest row (other ∷ rows) =
    let later = other ∷ insert_latest row rows in
    if leb other.created_at row.created_at then row ∷ other ∷ rows else later

latest_first : List RunRow → List RunRow
unfolding insert_latest
latest_first [] = []
latest_first (row ∷ rows) = insert_latest row (latest_first rows)

-- ORDER BY created_at DESC LIMIT ?; the caller reads seven of the columns.
unfoldable pub list_runs : ℕ → Store → List RunRow
unfolding latest_first
list_runs limit s = take limit (latest_first s.runs)
