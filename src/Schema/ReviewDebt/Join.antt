-- ===== src/Schema/ReviewDebt/Join.antt =====
-- The join of debt and attestations against its description: a decision is cleared by the first
-- attestation that clears it, and its item is stale when only outdated ones name it.
use agent_runtime_observator.Prelude.{
  ◌≡◌, refl, Bool, not, ◌&&◌, ◌||◌, String, Option, none, some, List, [], ◌∷◌, ◌++◌, map, arith,
  eq_iff, any, keep, contains, str_eq, is_none, is_some, or_else, inl, inr, Bool-cases,
  if◌then◌else◌,
}
use mathlib.Core.Path.{ap₂}
use mathlib.Core.Option
use agent_runtime_observator.Platform.{Platform}
use agent_runtime_observator.Schema.Models.Run.{PolicyDecision, AgentRun, is_needs_review}
use agent_runtime_observator.Schema.Models.Governance.{
  Attestation, ReviewDebtItem, open_debt, cleared,
}
use agent_runtime_observator.Schema.Subject.{subject_matches}
use agent_runtime_observator.Schema.ReviewDebt.{
  is_reject, lookup, set_default, Named, name_one, name_all, debt_item, debt_items,
  name_attestation, collect, compute_review_debt,
}

lookup-concat :
    (j k : String) (a : Attestation) (d : List (String × Attestation))
    → lookup j (d ++ (k, a) ∷ []) ≡ or_else (lookup j d) (if str_eq k j then some a else none)
unfolding lookup
lookup-concat j k a [] = refl
lookup-concat j k a ((i, b) ∷ d) = ground (arith, lookup-concat j k a d)

lookup-set_default :
    (j k : String) (a : Attestation) (d : List (String × Attestation))
    → lookup j (set_default k a d) ≡ or_else (lookup j d) (if str_eq k j then some a else none)
unfolding set_default
lookup-set_default j k a d = ground (arith, lookup-concat j k a d, eq_iff k j)

lookup-name_all :
    (fresh : Bool) (a : Attestation) (ks : List String) (n : Named) (j : String)
    → lookup j (name_all fresh a ks n).cleared_by
      ≡ or_else (lookup j n.cleared_by) (if fresh && contains ks j then some a else none)
unfolding name_all
lookup-name_all fresh a [] n j = ground arith
lookup-name_all fresh a (k ∷ ks) n j = ground (
  arith,
  lookup-name_all fresh a ks (name_one fresh a k n) j,
  lookup-set_default j k a n.cleared_by,
)

stale-name_all :
    (fresh : Bool) (a : Attestation) (ks : List String) (n : Named) (j : String)
    → contains (name_all fresh a ks n).stale_named j
      ≡ (contains n.stale_named j || not fresh && contains ks j)
unfolding name_all
stale-name_all fresh a [] n j = ground arith
stale-name_all fresh a (k ∷ ks) n j =
    ground (arith, stale-name_all fresh a ks (name_one fresh a k n) j)

module _ (platform : Platform) (run : AgentRun) where
  -- The attestation is not a reject, is fresh, and names the decision.
  abbrev pub clears : String → Attestation → Bool
  clears k a =
      not (is_reject a.decision)
      && (subject_matches platform run a.subject_digest && contains a.clears_decisions k)

  -- It is not a reject and names the decision, but its digest is outdated.
  abbrev pub names_stale : String → Attestation → Bool
  names_stale k a =
      not (is_reject a.decision)
      && (not (subject_matches platform run a.subject_digest) && contains a.clears_decisions k)

  abbrev pub first_clearing : String → List Attestation → Option Attestation
  first_clearing k [] = none
  first_clearing k (a ∷ rest) = if clears k a then some a else first_clearing k rest

  lookup-collect :
      (attestations : List Attestation) (n : Named) (j : String)
      → lookup j (collect platform run attestations n).cleared_by
        ≡ or_else (lookup j n.cleared_by) (first_clearing j attestations)
  unfolding collect
  lookup-collect [] n j = ground arith
  lookup-collect (a ∷ rest) n j = ground (
    arith,
    lookup-collect rest (name_attestation platform run a n) j,
    lookup-name_all (subject_matches platform run a.subject_digest) a a.clears_decisions n j,
  )

  stale-collect :
      (attestations : List Attestation) (n : Named) (j : String)
      → contains (collect platform run attestations n).stale_named j
        ≡ (contains n.stale_named j || any (names_stale j) attestations)
  unfolding collect
  stale-collect [] n j = ground arith
  stale-collect (a ∷ rest) n j = ground (
    arith,
    stale-collect rest (name_attestation platform run a n) j,
    stale-name_all (subject_matches platform run a.subject_digest) a a.clears_decisions n j,
  )

  -- The item that the documentation describes for a decision.
  abbrev pub described_item : List Attestation → PolicyDecision → ReviewDebtItem
  described_item attestations d =
      let clearing = first_clearing d.id attestations in
      record {
        decision_id = d.id;
        run_id = run.id;
        step_index = d.step_index;
        rule_id = d.rule_id;
        reason = d.reason;
        status = if is_some clearing then cleared else open_debt;
        cleared_by = Option.map (λ (a : Attestation). a.id) clearing;
        attested_by = Option.map (λ (a : Attestation). a.attested_by) clearing;
        stale_attestation = is_none clearing && any (names_stale d.id) attestations;
      }

  abbrev nothing_named : Named
  nothing_named = record { cleared_by = []; stale_named = [] }

  debt_item-described :
      (attestations : List Attestation) (d : PolicyDecision)
      → debt_item run (collect platform run attestations nothing_named) d
        ≡ described_item attestations d
  unfolding lookup
  debt_item-described attestations d =
      rw
        (
          lookup-collect attestations nothing_named d.id,
          stale-collect attestations nothing_named d.id,
        )
        refl

  debt_items-described :
      (attestations : List Attestation) (ds : List PolicyDecision)
      → debt_items run (collect platform run attestations nothing_named) ds
        ≡ map (described_item attestations) (keep is_needs_review ds)
  unfolding debt_items
  debt_items-described attestations [] = refl
  debt_items-described attestations (d ∷ ds) = elim (Bool-cases (is_needs_review d)) [
    | inl debt ↦ rw debt (
        ap₂ (λ (x : ReviewDebtItem) (xs : List ReviewDebtItem). x ∷ xs)
          (debt_item-described attestations d) (debt_items-described attestations ds))
    | inr other ↦ rw other (debt_items-described attestations ds)
  ]

  -- The loops compute one item for each decision that needs review, in the order of the decisions:
  -- it names the first attestation that clears the decision, and it is stale exactly when no
  -- attestation clears the decision and an outdated one names it.
  pub compute_review_debt-described :
      (attestations : List Attestation)
      → compute_review_debt platform run attestations
        ≡ map (described_item attestations) (keep is_needs_review run.policy_decisions)
  unfolding compute_review_debt
  compute_review_debt-described attestations =
      debt_items-described attestations run.policy_decisions
