-- ===== src/Runtime/Script.antt =====
-- packages/runtime/aro_runtime/script.py: what a run will do, and its validators.
use agent_runtime_observator.Prelude.{
  Bool, ◌||◌, not, String, Option, none, some, List, map, any, all_distinct, contains,
  if◌then◌else◌,
}
use agent_runtime_observator.Text.{is_blank}
use agent_runtime_observator.Outcome.{Outcome, ok, fault, validation_error}
use agent_runtime_observator.Json.{Fields}
use agent_runtime_observator.Schema.Models.Run.{ReviewerSeat}
use agent_runtime_observator.Schema.Models.Governance.{Goal, Task}

pub record ScriptedStep : Type 0 where
  pub tool : String
  pub args : Fields
  pub allocated_to : List String
  pub supports_goal : String

pub record Script : Type 0 where
  pub task : Task
  pub goal : Goal
  pub reviewer_seats : List ReviewerSeat
  pub agent : String
  pub model : Option String
  pub steps : List ScriptedStep

pub data ScriptError : Type 0 where
  duplicate_seats undeclared_owner : ScriptError

-- The validator `_owner_seat_is_declared`.
unfoldable pub owner_seat_is_declared : Script → Option ScriptError
owner_seat_is_declared script =
    let ids = map (λ (s : ReviewerSeat). s.id) script.reviewer_seats in
    if not (all_distinct ids)
    then some duplicate_seats
    else if not (contains ids script.goal.owner_seat_id)
    then some undeclared_owner
    else none

-- `_not_blank` refuses a seat with a blank field.
unfoldable pub has_blank : ReviewerSeat → Bool
unfolding is_blank
has_blank seat = is_blank seat.id || is_blank seat.name || is_blank seat.role || is_blank seat.scope

-- `Script.model_validate` on a script whose fields have their types.
unfoldable pub validate_script : Script → Outcome Script
unfolding owner_seat_is_declared has_blank
validate_script script =
    let seats_declared : Outcome Script = elim (owner_seat_is_declared script) [
      | none ↦ ok script
      | some _ ↦ fault validation_error
    ] in
    if any has_blank script.reviewer_seats then fault validation_error else seats_declared
