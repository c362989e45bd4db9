-- ===== src/Schema/ReviewDebt.antt =====
-- packages/schema/aro_schema/review_debt.py: the review debt of a run, joined with its attestations.
pub mod Join
pub mod Clearing
use agent_runtime_observator.Prelude.{
  Bool, true, false, not, ◌&&◌, String, Option, none, some, List, [], ◌∷◌, ◌++◌, contains, str_eq,
  is_none, is_some, if◌then◌else◌,
}
use mathlib.Core.Option
use agent_runtime_observator.Platform.{Platform}
use agent_runtime_observator.Schema.Models.{AttestationDecision, accept, amend, reject}
use agent_runtime_observator.Schema.Models.Run.{PolicyDecision, AgentRun, is_needs_review}
use agent_runtime_observator.Schema.Models.Governance.{
  Attestation, ReviewDebtItem, open_debt, cleared,
}
use agent_runtime_observator.Schema.Subject.{subject_matches}

abbrev pub is_reject : AttestationDecision → Bool
is_reject accept = false
is_reject amend = false
is_reject reject = true

-- `d.get(k)` on the dict `cleared_by`
unfoldable pub lookup : String → List (String × Attestation) → Option Attestation
lookup k [] = none
lookup k ((j, a) ∷ d) = let rest = lookup k d in if str_eq j k then some a else rest

-- `d.setdefault(k, a)`
set_default : String → Attestation → List (String × Attestation) → List (String × Attestation)
unfolding lookup
set_default k a d = if is_some (lookup k d) then d else d ++ (k, a) ∷ []

-- The two collections that the first loop fills.
pub record Named : Type 0 where
  pub cleared_by : List (String × Attestation)
  pub stale_named : List String

name_one : Bool → Attestation → String → Named → Named
unfolding set_default
name_one fresh a k n =
    if fresh
    then record n { cleared_by = set_default k a n.cleared_by }
    else record n { stale_named = k ∷ n.stale_named }

-- The loop over `clears_decisions`.
name_all : Bool → Attestation → List String → Named → Named
unfolding name_one
name_all fresh a [] n = n
name_all fresh a (k ∷ ks) n = name_all fresh a ks (name_one fresh a k n)

abbrev debt_item : AgentRun → Named → PolicyDecision → ReviewDebtItem
debt_item run n d =
    let clearing = lookup d.id n.cleared_by in
    record {
      decision_id = d.id;
      run_id = run.id;
      step_index = d.step_index;
      rule_id = d.rule_id;
      reason = d.reason;
      status = if is_some clearing then cleared else open_debt;
      cleared_by = Option.map (λ (a : Attestation). a.id) clearing;
      attested_by = Option.map (λ (a : Attestation). a.attested_by) clearing;
      stale_attestation = is_none clearing && contains n.stale_named d.id;
    }

-- The loop over the policy decisions.
debt_items : AgentRun → Named → List PolicyDecision → List ReviewDebtItem
debt_items run n [] = []
debt_items run n (d ∷ ds) =
    let rest = debt_items run n ds in if is_needs_review d then debt_item run n d ∷ rest else rest

module _ (platform : Platform) where
  name_attestation : AgentRun → Attestation → Named → Named
  unfolding name_all
  name_attestation run a n =
      if is_reject a.decision
      then n
      else name_all (subject_matches platform run a.subject_digest) a a.clears_decisions n

  -- The loop over the attestations.
  collect : AgentRun → List Attestation → Named → Named
  unfolding name_attestation
  collect run [] n = n
  collect run (a ∷ rest) n = collect run rest (name_attestation run a n)

  unfoldable pub compute_review_debt : AgentRun → List Attestation → List ReviewDebtItem
  unfolding collect debt_items
  compute_review_debt run attestations =
      debt_items run (collect run attestations (record { cleared_by = []; stale_named = [] }))
        run.policy_decisions
