-- ===== src/Worker.antt =====
-- apps/worker/aro_worker/main.py: one unit of work of the queue worker (`process_once`), with its
-- retry and dead-letter paths. The instants read by `utcnow()` are arguments, and delays are in microseconds.
pub mod Attempts
pub mod Drain
use agent_runtime_observator.Prelude.{
  ℕ, suc, ◌+◌, ◌*◌, ◌-◌, ◌^◌, Bool, true, false, String, Option, none, some, List, [], ◌∷◌, leb,
  ltb, ◌==◌, str_eq, if◌then◌else◌,
}
use agent_runtime_observator.Text.{◌⁀◌}
use agent_runtime_observator.Outcome.{Fault, key_error}
use agent_runtime_observator.Platform.{Platform}
use agent_runtime_observator.Schema.Models.{failed}
use agent_runtime_observator.Schema.Models.Run.{AgentRun}
use agent_runtime_observator.Runtime.Workspace.{Files}
use agent_runtime_observator.Runtime.Policy.{Policy}
use agent_runtime_observator.Runtime.Script.{Script}
use agent_runtime_observator.Runtime.Event.{Clock}
use agent_runtime_observator.Runtime.Executor.{Executed, done, crashed, execute_script}
use agent_runtime_observator.Runtime.Bundle.{Example, find_example, run_example}
use agent_runtime_observator.Runtime.Store.{
  Store, RunRow, QueueItem, save_run, get_run, claim_next, mark, retry, mark_dead,
}

-- The injector returns (`none`) or raises with a message.
abbrev pub FailInjector : Type 0
FailInjector = QueueItem → Option String

-- The body of `inject` in `chaos_injector_from_env`, and the case without an injector.
unfoldable pub chaos_injector : ℕ → FailInjector
chaos_injector fail_attempts item =
    if ltb item.attempts fail_attempts
    then some "chaos: injected failure (ARO_CHAOS_FAIL_ATTEMPTS)"
    else none

pub record Settings : Type 0 where
  pub examples : List Example
  pub data_dir : String
  pub fail_injector : FailInjector
  pub max_attempts : ℕ
  pub backoff_us : ℕ

-- What the calls of `utcnow` give in one unit of work, and the clock of the run.
pub record Times : Type 0 where
  pub claimed : ℕ
  pub saved : ℕ
  pub failed : ℕ
  pub run : Clock

-- A run, or the text of the exception that ended the `try` block.
pub data Attempt : Type 0 where
  finished : Example → AgentRun → Attempt
  raised : String → Attempt

module _ (platform : Platform) (settings : Settings) (times : Times) where
  attempt_of : Example → Executed → Attempt
  attempt_of example (done s) = finished example s.run
  attempt_of example (crashed fault s) = raised (platform.fault_text fault)

  run_claimed : QueueItem → Option Example → Attempt
  unfolding attempt_of
  run_claimed claim none = raised ("unknown example: " ⁀ claim.example)
  run_claimed claim (some example) =
      attempt_of example (run_example platform times.run example claim.run_id)

  injected : QueueItem → Option String → Attempt
  unfolding run_claimed
  injected claim (some error) = raised error
  injected claim none = run_claimed claim (find_example claim.example settings.examples)

  -- The `try` block up to the run.
  pub attempt : QueueItem → Attempt
  unfolding injected
  attempt claim = injected claim (settings.fail_injector claim)

  -- `_fail_placeholder`
  fail_placeholder : Option RunRow → Store → Store
  fail_placeholder none s = s
  fail_placeholder (some row) s =
      save_run times.failed (record row.run { status = failed }) row.task row.example row.trace_path
        s

  trace_path_of : String → String
  trace_path_of run_id = settings.data_dir ⁀ "/traces/" ⁀ run_id ⁀ ".jsonl"

  -- The `except` block.
  settle_failure : QueueItem → String → Store → Store
  unfolding fail_placeholder
  settle_failure claim error s =
      let attempts = claim.attempts + 1 in
      let dead = mark_dead claim.id attempts error s in
      if leb settings.max_attempts attempts
      then fail_placeholder (get_run claim.run_id dead) dead
      else retry claim.id attempts (times.failed + settings.backoff_us * 2 ^ (attempts - 1)) error s

  settle : QueueItem → Attempt → Store → Store
  unfolding trace_path_of settle_failure
  settle claim (finished example run) s = mark claim.id "done" (
      save_run times.saved run example.script.task (some example.name)
        (some (trace_path_of claim.run_id)) s)
  settle claim (raised error) s = settle_failure claim error s

  after_claim : Option QueueItem → Store → Option String × Store
  unfolding attempt settle
  after_claim none s = (none, s)
  after_claim (some claim) s = (some claim.run_id, settle claim (attempt claim) s)

  unfoldable pub process_once : Store → Option String × Store
  unfolding after_claim
  process_once s = let (claim, claimed) = claim_next times.claimed s in after_claim claim claimed

-- The loop of `main`, as many units as there are instants: the ids of the runs, and the store.
unfoldable pub poll : Platform → Settings → List Times → Store → List (Option String) × Store
unfolding process_once
poll platform settings [] s = ([], s)
poll platform settings (times ∷ later) s =
    let (run_id, worked) = process_once platform settings times s in
    let (run_ids, last) = poll platform settings later worked in (run_id ∷ run_ids, last)
