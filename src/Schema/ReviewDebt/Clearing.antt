-- ===== src/Schema/ReviewDebt/Clearing.antt =====
-- When a debt item is cleared, in terms of the attestations that stand in the store.
use mathlib.Core.Path.{subst}
use mathlib.Core.List.{Memᴰ}
use mathlib.Core.List.Memᴰ as Mem
use agent_runtime_observator.Prelude.{
  ◌≡◌, refl, sym, ap, ◌∙◌, ◌≢◌, ◌↔◌, inl, inr, Bool, true, not, ◌&&◌, String, some, List, [], ◌∷◌,
  ◌++◌, arith, any, keep, contains, contains_iff, any_sound, any_complete, Bool-cases, is_some,
  is_none,
}
use agent_runtime_observator.Platform.{Platform}
use agent_runtime_observator.Schema.Models.{AttestationDecision, accept, amend, reject}
use agent_runtime_observator.Schema.Models.Run.{PolicyDecision, AgentRun, is_needs_review}
use agent_runtime_observator.Schema.Models.Governance.{
  Attestation, ReviewDebtItem, open_debt, cleared,
}
use agent_runtime_observator.Schema.Subject.{
  subject_schema_version, run_subject_digest, subject_matches,
}
use agent_runtime_observator.Schema.Subject.Laws.{ReadsVersion, subject_matches_iff}
use agent_runtime_observator.Schema.ReviewDebt.{is_reject, compute_review_debt}
use agent_runtime_observator.Schema.ReviewDebt.Join.{
  clears, names_stale, first_clearing, described_item, compute_review_debt-described,
}

not_reject_iff : (d : AttestationDecision) → (not (is_reject d) ≡ true) ↔ (d ≢ reject)
not_reject_iff accept = (λ h e. cc, λ h. refl)
not_reject_iff amend = (λ h e. cc, λ h. refl)
not_reject_iff reject = (λ h. cc, λ h. absurd (h refl))

and-eq_true_iff : (a b : Bool) → ((a && b) ≡ true) ↔ ((a ≡ true) × (b ≡ true))
and-eq_true_iff a b = ground arith

negated : {b : Bool} → b ≢ true → not b ≡ true
negated {b} h = ground (arith, h)

false_of_not : (b : Bool) → not b ≡ true → b ≢ true
false_of_not b h e = ground (arith, h, e)

module _ (platform : Platform) (reads : ReadsVersion platform) (run : AgentRun) where
  -- The attestation accepts or amends, carries the digest of the run's current subject, and names
  -- the decision.
  abbrev pub Clears : String → Attestation → Type 0
  Clears k a =
      (a.decision ≢ reject)
      × (run_subject_digest platform run subject_schema_version ≡ some a.subject_digest)
      × Memᴰ k a.clears_decisions

  clears_iff : (k : String) (a : Attestation) → (clears platform run k a ≡ true) ↔ Clears k a
  clears_iff k a = (
    λ h.
        let (p, rest) = (and-eq_true_iff _ _).0 h in
        let (q, r) = (and-eq_true_iff _ _).0 rest in
        (
          (not_reject_iff a.decision).0 p,
          (subject_matches_iff platform reads run a.subject_digest).0 q,
          (contains_iff a.clears_decisions k).0 r,
        ),
    λ (p, q, r). (and-eq_true_iff _ _).1 (
      (not_reject_iff a.decision).1 p,
      (and-eq_true_iff _ _).1 (
        (subject_matches_iff platform reads run a.subject_digest).1 q,
        (contains_iff a.clears_decisions k).1 r,
      ),
    ),
  )

  is_some-first_clearing :
      (k : String) (attestations : List Attestation)
      → is_some (first_clearing platform run k attestations)
        ≡ any (clears platform run k) attestations
  is_some-first_clearing k [] = refl
  is_some-first_clearing k (a ∷ rest) = ground (arith, is_some-first_clearing k rest)

  first_clearing_iff :
      (k : String) (attestations : List Attestation)
      → (is_some (first_clearing platform run k attestations) ≡ true)
        ↔ ((a : Attestation) × Memᴰ a attestations × Clears k a)
  first_clearing_iff k attestations = (
    λ h.
        let (a, m, c) =
          any_sound (clears platform run k) attestations
            (sym (is_some-first_clearing k attestations) ∙ h) in
        (a, m, (clears_iff k a).0 c),
    λ (a, m, c).
        is_some-first_clearing k attestations
        ∙ any_complete (clears platform run k) a m ((clears_iff k a).1 c),
  )

  described_cleared_iff :
      (attestations : List Attestation) (d : PolicyDecision)
      → ((described_item platform run attestations d).status ≡ cleared)
        ↔ (is_some (first_clearing platform run d.id attestations) ≡ true)
  described_cleared_iff attestations d = ground arith

  mem-described :
      (attestations : List Attestation) {item : ReviewDebtItem}
      → Memᴰ item (compute_review_debt platform run attestations)
      → (d : PolicyDecision) × Memᴰ d (keep is_needs_review run.policy_decisions)
        × (described_item platform run attestations d ≡ item)
  mem-described attestations m =
      Mem.of_map (described_item platform run attestations)
        (keep is_needs_review run.policy_decisions) (rw compute_review_debt-described at m)

  -- An item of the computed debt is cleared exactly when some attestation in the list, not a reject,
  -- carries the digest of the run's current subject and names the item's decision.
  pub cleared_iff :
      (attestations : List Attestation) {item : ReviewDebtItem}
      → Memᴰ item (compute_review_debt platform run attestations)
      → (item.status ≡ cleared)
        ↔ ((a : Attestation) × Memᴰ a attestations × Clears item.decision_id a)
  cleared_iff attestations {item} m =
      let (d, _, e) = mem-described attestations m in
      subst
        (λ (i : ReviewDebtItem).
          (i.status ≡ cleared) ↔ ((a : Attestation) × Memᴰ a attestations × Clears i.decision_id a))
        e
        (
          λ h.
              (first_clearing_iff d.id attestations).0 ((described_cleared_iff attestations d).0 h),
          λ w.
              (described_cleared_iff attestations d).1 ((first_clearing_iff d.id attestations).1 w),
        )

  first_clearing-append :
      (k : String) (old new : List Attestation)
      → is_some (first_clearing platform run k old) ≡ true
      → first_clearing platform run k (old ++ new) ≡ first_clearing platform run k old
  first_clearing-append k [] new h = cc
  first_clearing-append k (a ∷ old) new h = elim (Bool-cases (clears platform run k a)) [
    | inl here ↦ rw here refl
    | inr later ↦ rw later (first_clearing-append k old new (rw later at h))
  ]

  described-append :
      (old new : List Attestation) (d : PolicyDecision)
      → is_some (first_clearing platform run d.id old) ≡ true
      → described_item platform run (old ++ new) d ≡ described_item platform run old d
  described-append old new d h = rw (first_clearing-append d.id old new h) (ground (arith, h))

  -- Clearing is permanent while the run stays as it is: whatever attestations follow, rejects
  -- included, a cleared item is still computed unchanged, with the same attestation and the same
  -- name on it.
  pub cleared_stays :
      (old new : List Attestation) {item : ReviewDebtItem}
      → Memᴰ item (compute_review_debt platform run old)
      → item.status ≡ cleared
      → Memᴰ item (compute_review_debt platform run (old ++ new))
  cleared_stays old new {item} m h =
      let (d, debt, e) = mem-described old m in
      let found : is_some (first_clearing platform run d.id old) ≡ true =
        (described_cleared_iff old d).0 (ap (λ (i : ReviewDebtItem). i.status) e ∙ h) in
      rw compute_review_debt-described (
        Mem.cast (sym (described-append old new d found ∙ e))
          (Mem.map (described_item platform run (old ++ new)) debt))

  -- The attestation accepts or amends and names the decision, under a digest that is not that of
  -- the run's current subject.
  abbrev pub NamesStale : String → Attestation → Type 0
  NamesStale k a =
      (a.decision ≢ reject)
      × (run_subject_digest platform run subject_schema_version ≢ some a.subject_digest)
      × Memᴰ k a.clears_decisions

  names_stale_iff :
      (k : String) (a : Attestation) → (names_stale platform run k a ≡ true) ↔ NamesStale k a
  names_stale_iff k a = (
    λ h.
        let fresh = subject_matches platform run a.subject_digest in
        let (p, rest) = (and-eq_true_iff (not (is_reject a.decision)) _).0 h in
        let (q, r) = (and-eq_true_iff (not fresh) (contains a.clears_decisions k)).0 rest in
        (
          (not_reject_iff a.decision).0 p,
          λ e.
              false_of_not (subject_matches platform run a.subject_digest) q
                ((subject_matches_iff platform reads run a.subject_digest).1 e),
          (contains_iff a.clears_decisions k).0 r,
        ),
    λ (p, q, r). (and-eq_true_iff _ _).1 (
      (not_reject_iff a.decision).1 p,
      (and-eq_true_iff _ _).1 (
        negated (λ e. q ((subject_matches_iff platform reads run a.subject_digest).0 e)),
        (contains_iff a.clears_decisions k).1 r,
      ),
    ),
  )

  -- An item is flagged stale exactly when it is open and some attestation, not a reject, names its
  -- decision under a digest that is not that of the run's current subject.
  pub stale_iff :
      (attestations : List Attestation) {item : ReviewDebtItem}
      → Memᴰ item (compute_review_debt platform run attestations)
      → (item.stale_attestation ≡ true) ↔ (
          (item.status ≡ open_debt)
          × ((a : Attestation) × Memᴰ a attestations × NamesStale item.decision_id a))
  stale_iff attestations {item} m =
      let (d, _, e) = mem-described attestations m in
      subst
        (λ (i : ReviewDebtItem). (i.stale_attestation ≡ true) ↔ (
          (i.status ≡ open_debt)
          × ((a : Attestation) × Memᴰ a attestations × NamesStale i.decision_id a)))
        e
        (
          λ h.
              let unclaimed = is_none (first_clearing platform run d.id attestations) in
              let (p, q) =
                (and-eq_true_iff unclaimed (any (names_stale platform run d.id) attestations)).0
                  h in
              let (a, mem, named) = any_sound (names_stale platform run d.id) attestations q in
              (ground (arith, p), (a, mem, (names_stale_iff d.id a).0 named)),
          λ (p, (a, mem, named)). (and-eq_true_iff _ _).1 (
            ground (arith, p),
            any_complete (names_stale platform run d.id) a mem ((names_stale_iff d.id a).1 named),
          ),
        )
