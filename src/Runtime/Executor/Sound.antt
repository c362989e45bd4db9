-- ===== src/Runtime/Executor/Sound.antt =====
-- The invariant of the loop, and what it says of a run that `execute_script` returns.
use mathlib.Core.Option
use agent_runtime_observator.Prelude.{
  ℕ, suc, ◌<◌, ◌≡◌, refl, sym, ap, ◌∙◌, true, false, String, Option, none, some, List, [], ◌∷◌,
  ◌++◌, map, arith, eq_iff, str_eq, OnSome, is_none, is_some, length, length-append, keep, all-true,
  all_distinct, All, All-append, All-map,
}
use agent_runtime_observator.Platform.{Platform}
use agent_runtime_observator.Json.{digest_text}
use agent_runtime_observator.Schema.Models.{completed}
use agent_runtime_observator.Schema.Models.Run.{
  ReviewerSeat, PolicyDecision, RiskSignal, EvidenceItem, Artifact, StepRecord, is_deny,
  identity_invariants,
}
use agent_runtime_observator.Runtime.Workspace.{Files}
use agent_runtime_observator.Runtime.Script.{Script, owner_seat_is_declared}
use agent_runtime_observator.Runtime.Executor.{
  State, done, Config, begin_run, end_run, execute_script,
}
use agent_runtime_observator.Runtime.Executor.Effect.{Effect, add?, timed, commit}
use agent_runtime_observator.Runtime.Executor.Effect.Facts.{OwnSignal, Facts, is_flagged, holds}
use agent_runtime_observator.Runtime.Executor.Loop.{loop_invariant}
use agent_runtime_observator.Runtime.Executor.Invariant.{
  All-add?, denied_at, decision_steps, signal_steps, DecisionBelow, denied_at-old, denied_at-new,
  decisions-add?, distinct-add?, signal_steps-add?,
}

is_none-map {ℓ κ} :
    {A : Type ℓ} {B : Type κ} (f : A → B) (o : Option A) → is_none (Option.map f o) ≡ is_none o
is_none-map f none = refl
is_none-map f (some a) = refl

-- A step without an output says why, and a step with one was not denied.
pub record IsGated (ds : List PolicyDecision) (i : ℕ) (st : StepRecord) : Type 0 where
  pub below : st.index < i
  pub denied : denied_at ds st.index ≡ true → st.output_digest ≡ none
  pub explained : is_some st.error ≡ is_none st.output_digest

-- A step without an output was denied.
abbrev pub IsBlocked : List PolicyDecision → StepRecord → Type 0
IsBlocked ds st = is_none st.output_digest ≡ true → denied_at ds st.index ≡ true

module _ (platform : Platform) (config : Config) (script : Script) where
  pub record RunInv (i : ℕ) (s : State) : Type 0 where
    pub id : s.run.id ≡ config.run_id
    pub seats : s.run.reviewer_seats ≡ script.reviewer_seats
    pub steps_count : length s.run.steps ≡ i
    pub decisions : All (DecisionBelow platform config i) s.run.policy_decisions
    pub distinct : all_distinct (map (λ (d : PolicyDecision). d.id) s.run.policy_decisions) ≡ true
    pub signals : All (λ (r : RiskSignal). r.run_id ≡ config.run_id) s.run.risk_signals
    pub evidence : All (λ (e : EvidenceItem). e.run_id ≡ config.run_id) s.run.evidence
    pub artifacts : All (λ (a : Artifact). a.run_id ≡ config.run_id) s.run.artifacts
    pub signalled :
        signal_steps s.run.risk_signals ≡ decision_steps (keep is_flagged s.run.policy_decisions)
    pub gated : All (IsGated s.run.policy_decisions i) s.run.steps
    pub blocked : s.failed_so_far ≡ false → All (IsBlocked s.run.policy_decisions) s.run.steps

  module _ (i : ℕ) (s : State) (e : Effect) (facts : Facts platform config i s.files e)
      (inv : RunInv i s) where
    abbrev ds : List PolicyDecision
    ds = add? s.run.policy_decisions e.decision

    IsGated-old : All (IsGated ds (suc i)) s.run.steps
    IsGated-old =
        All-map (IsGated s.run.policy_decisions i) (IsGated ds (suc i)) s.run.steps
          (λ st g. record {
            below = omega (arith, g.below);
            denied = λ d. g.denied (
                sym (
                  denied_at-old platform config i st.index s.run.policy_decisions e.decision g.below
                    facts.decision)
                ∙ d);
            explained = g.explained;
          })
          inv.gated

    new_denial : denied_at ds e.step.index ≡ true → holds is_deny e.decision ≡ true
    new_denial d =
        sym (
          denied_at-new platform config i s.run.policy_decisions e.decision inv.decisions
            facts.decision)
        ∙ ap (denied_at ds) (sym facts.index)
        ∙ d

    IsBlocked-old :
        All (IsBlocked s.run.policy_decisions) s.run.steps → All (IsBlocked ds) s.run.steps
    IsBlocked-old h = both s.run.steps inv.gated h
      where
        both :
            (steps : List StepRecord)
            → All (IsGated s.run.policy_decisions i) steps
            → All (IsBlocked s.run.policy_decisions) steps
            → All (IsBlocked ds) steps
        both [] g b = tt
        both (st ∷ steps) (g, gs) (b, bs) = (
          λ o.
              denied_at-old platform config i st.index s.run.policy_decisions e.decision g.below
                facts.decision
              ∙ b o,
          both steps gs bs,
        )

    IsBlocked-new : e.failing ≡ false → IsBlocked ds (timed platform config i e.step)
    IsBlocked-new ran o =
        ap (denied_at ds) facts.index
        ∙ denied_at-new platform config i s.run.policy_decisions e.decision inv.decisions
            facts.decision
        ∙ denial (
            sym (is_none-map (digest_text platform) e.output) ∙ sym (ap is_none facts.digested) ∙ o)
      where
        denial : is_none e.output ≡ true → holds is_deny e.decision ≡ true
        denial n = ground (arith, n, facts.failing, ran)

    own_signal :
        (r : Option RiskSignal)
        → OnSome (OwnSignal platform config i) r
        → OnSome (λ (x : RiskSignal). x.run_id ≡ config.run_id) r
    own_signal none h = tt
    own_signal (some r) h = h.run_id

    IsGated-new : IsGated ds (suc i) (timed platform config i e.step)
    IsGated-new = record {
      below = omega (arith, facts.index);
      denied = λ d.
          facts.digested ∙ ap (Option.map (digest_text platform)) (facts.denied (new_denial d));
      explained =
          facts.explained
          ∙ sym (ap is_none facts.digested ∙ is_none-map (digest_text platform) e.output);
    }

    IsGated-after : All (IsGated ds (suc i)) (s.run.steps ++ timed platform config i e.step ∷ [])
    IsGated-after =
        All-append (IsGated ds (suc i)) s.run.steps (timed platform config i e.step ∷ [])
          IsGated-old (IsGated-new, tt)

    all_ran :
        (commit platform config i e s).failed_so_far ≡ false
        → (e.failing ≡ false) × (s.failed_so_far ≡ false)
    all_ran h = ground (arith, h)

    IsBlocked-after :
        (commit platform config i e s).failed_so_far ≡ false
        → All (IsBlocked ds) (s.run.steps ++ timed platform config i e.step ∷ [])
    IsBlocked-after h =
        let (ran, ran_before) = all_ran h in
        All-append (IsBlocked ds) s.run.steps (timed platform config i e.step ∷ [])
          (IsBlocked-old (inv.blocked ran_before)) (IsBlocked-new ran, tt)

    commit-RunInv : RunInv (suc i) (commit platform config i e s)
    commit-RunInv = record {
      id = inv.id;
      seats = inv.seats;
      steps_count = length-append s.run.steps _ ∙ omega (arith, inv.steps_count);
      decisions =
          decisions-add? platform config i s.run.policy_decisions e.decision inv.decisions
            facts.decision;
      distinct =
          distinct-add? platform config i s.run.policy_decisions e.decision inv.decisions
            facts.decision inv.distinct;
      signals =
          All-add? (λ (r : RiskSignal). r.run_id ≡ config.run_id) s.run.risk_signals e.signal
            inv.signals (own_signal e.signal facts.signal);
      evidence =
          All-add? (λ (x : EvidenceItem). x.run_id ≡ config.run_id) s.run.evidence e.evidence
            inv.evidence facts.evidence;
      artifacts =
          All-add? (λ (x : Artifact). x.run_id ≡ config.run_id) s.run.artifacts e.artifact
            inv.artifacts facts.artifact;
      signalled =
          signal_steps-add? platform config i s.run.risk_signals s.run.policy_decisions e.signal
            e.decision facts.signal facts.decision facts.signalled inv.signalled;
      gated = IsGated-after;
      blocked = IsBlocked-after;
    }

  RunInv-begin : (files : Files) → RunInv 0 (begin_run platform config script files)
  unfolding begin_run
  RunInv-begin files = record {
    id = refl;
    seats = refl;
    steps_count = refl;
    decisions = tt;
    distinct = refl;
    signals = tt;
    evidence = tt;
    artifacts = tt;
    signalled = refl;
    gated = tt;
    blocked = λ h. tt;
  }

  ran_clean :
      (t : State) → (end_run platform config t).run.status ≡ completed → t.failed_so_far ≡ false
  unfolding end_run
  ran_clean t h = ground (arith, h)

  distinct_seats :
      owner_seat_is_declared script ≡ none
      → all_distinct (map (λ (x : ReviewerSeat). x.id) script.reviewer_seats) ≡ true
  unfolding owner_seat_is_declared
  distinct_seats h = ground (arith, h)

  same_id : (own id : String) → id ≡ config.run_id → own ≡ config.run_id → str_eq own id ≡ true
  same_id own id h k = (eq_iff own id).1 (k ∙ sym h)

  identities :
      (t : State)
      → RunInv (length script.steps) t
      → owner_seat_is_declared script ≡ none
      → identity_invariants t.run ≡ none
  unfolding identity_invariants
  identities t inv valid =
      rw
        (
          inv.seats,
          distinct_seats valid,
          inv.distinct,
          all-true (λ (d : PolicyDecision). str_eq d.run_id t.run.id) t.run.policy_decisions
              (All-map (DecisionBelow platform config (length script.steps)) _
                t.run.policy_decisions (λ d h. same_id d.run_id t.run.id inv.id h.2) inv.decisions),
          all-true (λ (d : RiskSignal). str_eq d.run_id t.run.id) t.run.risk_signals
              (All-map _ _ t.run.risk_signals (λ d h. same_id d.run_id t.run.id inv.id h)
                inv.signals),
          all-true (λ (d : EvidenceItem). str_eq d.run_id t.run.id) t.run.evidence
              (All-map _ _ t.run.evidence (λ d h. same_id d.run_id t.run.id inv.id h) inv.evidence),
          all-true (λ (d : Artifact). str_eq d.run_id t.run.id) t.run.artifacts
              (All-map _ _ t.run.artifacts (λ d h. same_id d.run_id t.run.id inv.id h)
                inv.artifacts),
        )
        refl

  module _ (files : Files) (s : State)
      (returned : execute_script platform config script files ≡ done s) where
    ended_with : (t : State) × RunInv (length script.steps) t × (s ≡ end_run platform config t)
    ended_with =
        loop_invariant platform config RunInv (λ i t e facts inv. commit-RunInv i t e facts inv)
          script files s (RunInv-begin files) returned

    -- A returned run carries the id that it was given.
    pub own_id : s.run.id ≡ config.run_id
    unfolding end_run
    own_id = let (t, inv, e) = ended_with in rw e inv.id

    -- A run that is returned has one step for each step of the script. A step that some decision
    -- denies has no output, and the steps without an output are exactly those with an error.
    pub execute_script-gated :
        (length s.run.steps ≡ length script.steps)
        × All (IsGated s.run.policy_decisions (length script.steps)) s.run.steps
    unfolding end_run
    execute_script-gated =
        let (t, inv, e) = ended_with in
        (ap (λ (x : State). length x.run.steps) e ∙ inv.steps_count, rw e inv.gated)

    -- In a completed run every step without an output was denied by a recorded decision: nothing
    -- else keeps a step from its output without failing the run.
    pub execute_script-completed :
        s.run.status ≡ completed → All (IsBlocked s.run.policy_decisions) s.run.steps
    unfolding end_run
    execute_script-completed h =
        let (t, inv, e) = ended_with in
        rw e (inv.blocked (ran_clean t (sym (ap (λ (x : State). x.run.status) e) ∙ h)))

    -- A returned run has one risk signal for each decision that denies or asks for a review, in the
    -- same order and for the same step, and no other signal.
    pub execute_script-signalled :
        signal_steps s.run.risk_signals ≡ decision_steps (keep is_flagged s.run.policy_decisions)
    unfolding end_run
    execute_script-signalled = let (t, inv, e) = ended_with in rw e inv.signalled

    -- A script that passes its validator gives a run that passes the validator of runs: the ids of
    -- its seats and of its decisions are distinct, and all that it holds carries its own id.
    pub execute_script-identities :
        owner_seat_is_declared script ≡ none → identity_invariants s.run ≡ none
    unfolding end_run identity_invariants
    execute_script-identities valid = let (t, inv, e) = ended_with in rw e (identities t inv valid)
