-- ===== src/Api.antt =====
-- The routes of apps/api/aro_api/main.py that read or change the store, and the rate limiter. A
-- route is a function of the store; fresh ids and instants are arguments. Parsing requests and
-- printing responses is the web framework's.
pub mod Clearing
pub mod RateLimit
use agent_runtime_observator.Prelude.{
  ℕ, suc, ◌-◌, ◌&&◌, not, Bool, true, false, String, Option, none, some, List, [], ◌∷◌, ◌++◌, map,
  keep, contains, is_none, str_eq, leb, if◌then◌else◌, length,
}
use agent_runtime_observator.Text.{◌⁀◌, join}
use agent_runtime_observator.Outcome.{Fault}
use agent_runtime_observator.Platform.{Platform}
use agent_runtime_observator.Schema.Models.{AttestationDecision}
use agent_runtime_observator.Schema.Models.Run.{
  ReviewerSeat, PolicyDecision, AgentRun, is_needs_review,
}
use agent_runtime_observator.Schema.Models.Governance.{
  Attestation, ReviewDebtItem, is_signed, debt_status_value,
}
use agent_runtime_observator.Schema.Subject.{subject_schema_version, run_subject_digest}
use agent_runtime_observator.Schema.ReviewDebt.{is_reject, compute_review_debt}
use agent_runtime_observator.Runtime.Event.{Clock}
use agent_runtime_observator.Runtime.Executor.{Executed, done, crashed}
use agent_runtime_observator.Runtime.Bundle.{Example, find_example, run_example}
use agent_runtime_observator.Runtime.Store.{
  Store, RunRow, save_run, save_placeholder, get_run, all_runs, enqueue, save_attestation,
  list_attestations,
}

-- A response, an HTTPException with its status and detail, or an exception that the route lets
-- through.
pub data Reply (A : Type 0) : Type 0 where
  reply : A → Reply A
  http_error : ℕ → String → Reply A
  server_error : Fault → Reply A

pub record CreateAttestationRequest : Type 0 where
  pub decision : AttestationDecision
  pub declared_scope : String
  pub attested_by : String
  pub excluded_scope : String
  pub labels : List String
  pub proposed_by : Option String
  pub seat_id : Option String
  pub note : String
  pub clears_decisions : List String

-- What the routes take from Python and pydantic: `repr` of a text, and the message of a failed
-- validation.
pub record Wording : Type 0 where
  pub repr : String → String
  pub invalid : Attestation → String

-- `_RateLimiter`, with instants of the monotonic clock in nanoseconds; a limit of 0 or less stands as 0.
pub record RateLimiter : Type 0 where
  pub per_minute : ℕ
  pub window_start : ℕ
  pub count : ℕ

unfoldable pub count_call : RateLimiter → Bool × RateLimiter
count_call limiter =
    let counted = record limiter { count = suc limiter.count } in
    (leb counted.count limiter.per_minute, counted)

unfoldable pub allow : ℕ → RateLimiter → Bool × RateLimiter
unfolding count_call
allow now limiter =
    if leb limiter.per_minute 0
    then (true, limiter)
    else if leb 60000000000 (now - limiter.window_start)
    then count_call (record limiter { window_start = now; count = 0 })
    else count_call limiter

-- `list(dict.fromkeys(xs))`: the first of equal texts stays.
unfoldable pub dedup_from : List String → List String → List String
dedup_from seen [] = []
dedup_from seen (x ∷ xs) =
    let rest = dedup_from (x ∷ seen) xs in if contains seen x then rest else x ∷ rest

unfoldable pub dedup : List String → List String
unfolding dedup_from
dedup = dedup_from []

reviewable : AgentRun → List String
reviewable run = map (λ (d : PolicyDecision). d.id) (keep is_needs_review run.policy_decisions)

seat_known : AgentRun → Option String → Bool
seat_known run none = true
seat_known run (some seat_id) =
    contains (map (λ (seat : ReviewerSeat). seat.id) run.reviewer_seats) seat_id

text_of_seat : Option String → String
text_of_seat none = ""
text_of_seat (some seat_id) = seat_id

unknown_error : String → List String → Option (ℕ × String)
unknown_error run_id [] = none
unknown_error run_id (d ∷ unknown) =
    some (422, "not needs_review decisions of run " ⁀ run_id ⁀ ": " ⁀ join ", " (d ∷ unknown))

-- `unknown`: the named decisions that the run has not put up for review.
unknown_decisions : AgentRun → List String → List String
unfolding reviewable
unknown_decisions run = keep (λ d. not (contains (reviewable run) d))

-- The block under `if clears`.
unfoldable pub clears_error :
    String → AgentRun → CreateAttestationRequest → List String → Option (ℕ × String)
unfolding unknown_error unknown_decisions
clears_error run_id run request [] = none
clears_error run_id run request (d ∷ clears) =
    if is_none request.seat_id
    then some (422, "clearing a specific review-debt item requires an accountable seat_id")
    else if is_reject request.decision
    then some (422, "a reject attestation cannot clear review debt items")
    else unknown_error run_id (unknown_decisions run (d ∷ clears))

-- The checks before the attestation is built: the status and the detail of the first that fails.
unfoldable pub refused :
    Wording → String → AgentRun → CreateAttestationRequest → List String → Option (ℕ × String)
unfolding seat_known text_of_seat clears_error
refused wording run_id run request clears =
    if not (seat_known run request.seat_id)
    then some (
      422,
      "seat_id "
          ⁀ wording.repr (text_of_seat request.seat_id)
          ⁀ " is not a reviewer seat of run "
          ⁀ run_id,
    )
    else clears_error run_id run request clears

-- The digest of the current version, which always exists.
unfoldable pub digest_of : Option String → String
digest_of none = ""
digest_of (some digest) = digest

unfoldable pub attestation_of :
    Platform → String → ℕ → String → AgentRun → CreateAttestationRequest → List String → Attestation
unfolding digest_of
attestation_of platform id now run_id run request clears = record {
  id = id;
  run_id = run_id;
  seat_id = request.seat_id;
  decision = request.decision;
  declared_scope = request.declared_scope;
  excluded_scope = request.excluded_scope;
  labels = request.labels;
  proposed_by = request.proposed_by;
  attested_by = request.attested_by;
  note = request.note;
  subject_digest = digest_of (run_subject_digest platform run subject_schema_version);
  attested_at = now;
  clears_decisions = clears;
}

module _ (platform : Platform) (wording : Wording) where
  -- The end of the route: build, validate, save.
  attest : Attestation → ℕ → Store → Reply Attestation × Store
  attest attestation now s =
      if is_signed attestation
      then (reply attestation, save_attestation now attestation s)
      else (http_error 422 ("invalid attestation: " ⁀ wording.invalid attestation), s)

  attest_run :
      String
      → ℕ
      → String
      → CreateAttestationRequest
      → Option RunRow
      → Store
      → Reply Attestation × Store
  unfolding refused attestation_of attest
  attest_run id now run_id request none s = (http_error 404 ("unknown run: " ⁀ run_id), s)
  attest_run id now run_id request (some row) s =
      let clears = dedup request.clears_decisions in
      elim (refused wording run_id row.run request clears) [
        | some (status, detail) ↦ (http_error status detail, s)
        | none ↦ attest (attestation_of platform id now run_id row.run request clears) now s
      ]

  -- `POST /api/runs/{run_id}/attestations`; `id` is the fresh id of the attestation.
  unfoldable pub create_attestation :
      String → ℕ → String → CreateAttestationRequest → Store → Reply Attestation × Store
  unfolding attest_run
  create_attestation id now run_id request s = attest_run id now run_id request (get_run run_id s) s

-- `if status: items = [item for item in items if item.status == status]`
with_debt_status : Option String → List ReviewDebtItem → List ReviewDebtItem
with_debt_status none items = items
with_debt_status (some status) items =
    if str_eq status ""
    then items
    else keep (λ (item : ReviewDebtItem). str_eq (debt_status_value item.status) status) items

-- `GET /api/runs/{run_id}/review-debt`
unfoldable pub get_review_debt :
    Platform → String → Option String → Store → Reply (List ReviewDebtItem)
unfolding with_debt_status
get_review_debt platform run_id status s = elim (get_run run_id s) [
  | none ↦ http_error 404 ("unknown run: " ⁀ run_id)
  | some row ↦
      reply (
        with_debt_status status (compute_review_debt platform row.run (list_attestations run_id s)))
]

-- `GET /api/runs/{run_id}`
pub record RunView : Type 0 where
  pub row : RunRow
  pub attestations : List Attestation
  pub review_debt : List ReviewDebtItem

unfoldable pub view_run : Platform → String → Store → Reply RunView
view_run platform run_id s = elim (get_run run_id s) [
  | none ↦ http_error 404 ("unknown run: " ⁀ run_id)
  | some row ↦
      let attestations = list_attestations run_id s in
      reply (record {
        row = row;
        attestations = attestations;
        review_debt = compute_review_debt platform row.run attestations;
      })
]

-- The items that `GET /metrics` derives from the store, each with the end of its run.
items_of : Platform → Store → List AgentRun → List (ReviewDebtItem × Option ℕ)
items_of platform s [] = []
items_of platform s (run ∷ runs) =
    map (λ (item : ReviewDebtItem). (item, run.finished_at))
      (compute_review_debt platform run (list_attestations run.id s))
    ++ items_of platform s runs

unfoldable pub metrics_items : Platform → Store → List (ReviewDebtItem × Option ℕ)
unfolding items_of
metrics_items platform s = items_of platform s (all_runs s)

-- The answer of `POST /api/runs`: the id, and the run where it was made inline.
pub record CreatedRun : Type 0 where
  pub run_id : String
  pub queued : Bool
  pub run : Option AgentRun

module _ (platform : Platform) (examples : List Example) (data_dir : String) where
  finish_run : ℕ → Example → String → Executed → Store → Reply CreatedRun × Store
  finish_run now example run_id (done t) s = (
    reply (record { run_id = run_id; queued = false; run = some t.run }),
    save_run now t.run example.script.task (some example.name)
        (some (data_dir ⁀ "/traces/" ⁀ run_id ⁀ ".jsonl")) s,
  )
  finish_run now example run_id (crashed fault t) s = (server_error fault, s)

  start_example : Clock → ℕ → String → String → Example → Store → Reply CreatedRun × Store
  unfolding finish_run
  start_example clock now run_id mode example s =
      if str_eq mode "queued"
      then (
        reply (record { run_id = run_id; queued = true; run = none }),
        (enqueue now run_id example.name
            (save_placeholder now run_id example.script.task example.name s)).1,
      )
      else finish_run now example run_id (run_example platform clock example run_id) s

  -- `POST /api/runs`; `run_id` is the fresh id.
  unfoldable pub create_run :
      Clock → ℕ → String → String → String → Store → Reply CreatedRun × Store
  unfolding start_example
  create_run clock now run_id name mode s = elim (find_example name examples) [
    | none ↦ (http_error 404 ("unknown example: " ⁀ name), s)
    | some example ↦ start_example clock now run_id mode example s
  ]

-- `GET /api/examples`
pub record ExampleView : Type 0 where
  pub name : String
  pub title : String
  pub goal : String
  pub steps : ℕ
  pub policy_id : String

unfoldable pub list_examples : List Example → List ExampleView
list_examples = map (λ (example : Example). record {
  name = example.name;
  title = example.script.task.title;
  goal = example.script.goal.statement;
  steps = length example.script.steps;
  policy_id = example.policy.id;
})
