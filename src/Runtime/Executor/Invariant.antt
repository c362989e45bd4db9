-- ===== src/Runtime/Executor/Invariant.antt =====
-- What holds of the run after every round of the loop, and so of a run that `execute_script`
-- returns: its identities, one signal for each flagged decision, and the gate.
use mathlib.Core.List.{map-append}
use text.Mathlib.TextLemmas.{append_cancel_left}
use agent_runtime_observator.Prelude.{
  ℕ, suc, ◌<◌, ◌≡◌, refl, sym, ◌∙◌, inl, inr, Bool, true, false, ◌&&◌, Option, none, some, List, [],
  ◌∷◌, map, arith, eq_iff, ◌==◌, str_eq, OnSome, is_some, Bool-cases, keep, any, any-concat,
  keep-concat, contains, all_distinct, all_distinct-concat, All, All-append, All-map,
}
use agent_runtime_observator.Text.{◌⁀◌}
use agent_runtime_observator.Text.Decimal.{show_nat, show_nat_inj}
use agent_runtime_observator.Platform.{Platform}
use agent_runtime_observator.Schema.Models.Run.{PolicyDecision, RiskSignal, is_deny}
use agent_runtime_observator.Runtime.Executor.{Config}
use agent_runtime_observator.Runtime.Executor.Effect.{add?}
use agent_runtime_observator.Runtime.Executor.Effect.Facts.{
  OwnDecision, OwnSignal, is_flagged, holds,
}

module _ {ℓ} {A : Type ℓ} where
  pub All-add? {κ} :
      (P : A → Type κ) (xs : List A) (o : Option A) → All P xs → OnSome P o → All P (add? xs o)
  All-add? P xs none h p = h
  All-add? P xs (some x) h p = All-append P xs (x ∷ []) h (p, tt)

-- Some denial was recorded for step k.
abbrev pub denied_at : List PolicyDecision → ℕ → Bool
denied_at ds k = any (λ d. is_deny d && d.step_index == k) ds

-- The steps of a list of decisions or signals, in order.
abbrev pub decision_steps : List PolicyDecision → List ℕ
decision_steps = map (λ (d : PolicyDecision). d.step_index)

abbrev pub signal_steps : List RiskSignal → List ℕ
signal_steps = map (λ (r : RiskSignal). r.step_index)

module _ (platform : Platform) (config : Config) where
  abbrev pub DecisionBelow : ℕ → PolicyDecision → Type 0
  DecisionBelow i d =
      (d.step_index < i)
      × (d.id ≡ config.run_id ⁀ "-pd-" ⁀ show_nat d.step_index)
      × (d.run_id ≡ config.run_id)

  new_id :
      (i : ℕ) (ds : List PolicyDecision)
      → All (DecisionBelow i) ds
      → contains (map (λ (d : PolicyDecision). d.id) ds) (config.run_id ⁀ "-pd-" ⁀ show_nat i)
        ≡ false
  new_id i [] h = refl
  new_id i (d ∷ ds) (p, h) = elim (Bool-cases (str_eq d.id (config.run_id ⁀ "-pd-" ⁀ show_nat i))) [
    | inl same ↦ absurd (same_step same)
    | inr other ↦ ground (arith, other, new_id i ds h)
  ]
    where
      same_step : str_eq d.id (config.run_id ⁀ "-pd-" ⁀ show_nat i) ≡ true → ⊥
      same_step same =
          let texts = sym p.1 ∙ (eq_iff _ _).0 same in
          let e : d.step_index ≡ i =
            show_nat_inj d.step_index i
              (append_cancel_left "-pd-" _ _ (append_cancel_left config.run_id _ _ texts)) in
          omega (arith, p.0, e)

  not_denied :
      (i : ℕ) (ds : List PolicyDecision) → All (DecisionBelow i) ds → denied_at ds i ≡ false
  not_denied i [] h = refl
  not_denied i (d ∷ ds) (p, h) = ground (arith, not_denied i ds h)

  pub denied_at-old :
      (i k : ℕ) (ds : List PolicyDecision) (o : Option PolicyDecision)
      → k < i
      → OnSome (OwnDecision platform config i) o
      → denied_at (add? ds o) k ≡ denied_at ds k
  denied_at-old i k ds none h own = refl
  denied_at-old i k ds (some d) h own =
      any-concat (λ d. is_deny d && d.step_index == k) ds d ∙ ground (arith, own.step_index)

  pub denied_at-new :
      (i : ℕ) (ds : List PolicyDecision) (o : Option PolicyDecision)
      → All (DecisionBelow i) ds
      → OnSome (OwnDecision platform config i) o
      → denied_at (add? ds o) i ≡ holds is_deny o
  denied_at-new i ds none h own = not_denied i ds h
  denied_at-new i ds (some d) h own =
      any-concat (λ d. is_deny d && d.step_index == i) ds d
      ∙ ground (arith, own.step_index, not_denied i ds h)

  pub decisions-add? :
      (i : ℕ) (ds : List PolicyDecision) (o : Option PolicyDecision)
      → All (DecisionBelow i) ds
      → OnSome (OwnDecision platform config i) o
      → All (DecisionBelow (suc i)) (add? ds o)
  decisions-add? i ds o h own =
      All-add? (DecisionBelow (suc i)) ds o
        (All-map (DecisionBelow i) (DecisionBelow (suc i)) ds
          (λ d p. (omega (arith, p.0), p.1, p.2)) h)
        (below o own)
    where
      below :
          (o : Option PolicyDecision)
          → OnSome (OwnDecision platform config i) o
          → OnSome (DecisionBelow (suc i)) o
      below none own = tt
      below (some d) own = (omega (arith, own.step_index), rw own.step_index own.id, own.run_id)

  pub distinct-add? :
      (i : ℕ) (ds : List PolicyDecision) (o : Option PolicyDecision)
      → All (DecisionBelow i) ds
      → OnSome (OwnDecision platform config i) o
      → all_distinct (map (λ (d : PolicyDecision). d.id) ds) ≡ true
      → all_distinct (map (λ (d : PolicyDecision). d.id) (add? ds o)) ≡ true
  distinct-add? i ds none h own n = n
  distinct-add? i ds (some d) h own n = rw map-append (
      all_distinct-concat (map (λ (d : PolicyDecision). d.id) ds) d.id n
        (rw own.id (new_id i ds h)))

  pub signal_steps-add? :
      (i : ℕ) (rs : List RiskSignal) (ds : List PolicyDecision) (r : Option RiskSignal)
      (o : Option PolicyDecision)
      → OnSome (OwnSignal platform config i) r
      → OnSome (OwnDecision platform config i) o
      → is_some r ≡ holds is_flagged o
      → signal_steps rs ≡ decision_steps (keep is_flagged ds)
      → signal_steps (add? rs r) ≡ decision_steps (keep is_flagged (add? ds o))
  signal_steps-add? i rs ds none none a b e h = h
  signal_steps-add? i rs ds (some r) none a b e h = cc e
  signal_steps-add? i rs ds none (some d) a b e h = rw (keep-concat, ← e) h
  signal_steps-add? i rs ds (some r) (some d) a b e h =
      rw (keep-concat, ← e, map-append, map-append, h, a.step_index, b.step_index) refl
