-- ===== src/Runtime/Replay/Clean.antt =====
-- When a replay is clean: exactly when the fresh run behaves as the recorded one did, which it does
-- for a trace that the executor has just written.
use agent_runtime_observator.Prelude.{
  ℕ, suc, ◌≡◌, refl, sym, ap, ◌∙◌, ◌↔◌, ◌⊎◌, inl, inr, true, false, String, Option, none, some,
  List, [], ◌∷◌, ◌++◌, arith, str_eq, eq_iff, Bool-cases, length, All,
}
use mathlib.Core.Path.{subst}
use agent_runtime_observator.Outcome.{ok}
use agent_runtime_observator.Platform.{Platform}
use agent_runtime_observator.Schema.Models.Run.{PolicyDecision, StepRecord, AgentRun}
use agent_runtime_observator.Schema.Models.Governance.{StepDivergence, ReplayReport, report_ok}
use agent_runtime_observator.Runtime.Workspace.{Files, digest}
use agent_runtime_observator.Runtime.Event.{Clock, Header}
use agent_runtime_observator.Runtime.Script.{Script, validate_script}
use agent_runtime_observator.Runtime.Executor.{
  State, Executed, done, crashed, Config, header_of, execute_script,
}
use agent_runtime_observator.Runtime.Executor.Determinism.{Twins, EndAlike, execute_script-EndAlike}
use agent_runtime_observator.Runtime.Executor.Sound.{own_id, execute_script-gated}
use agent_runtime_observator.Runtime.Trace.{Codec, trace_text, load_trace}
use agent_runtime_observator.Runtime.Trace.Lines.{ReadsBack}
use agent_runtime_observator.Runtime.Trace.RoundTrip.{load-execute_script}
use agent_runtime_observator.Runtime.Replay.{
  same_text?, max, compare_field, decision_at, decision_text, compare_step, compare_steps,
  compare_workspace, report, fresh_config, replay_trace,
}

-- The two runs took the same steps, step `i` first: each read the same input, gave the same output
-- or the same error, and met the same decision.
abbrev pub Reproduced :
    List PolicyDecision → List PolicyDecision → ℕ → List StepRecord → List StepRecord → Type 0
Reproduced ds es i [] [] = Unit
Reproduced ds es i [] (new ∷ news) = ⊥
Reproduced ds es i (rec ∷ recs) [] = ⊥
Reproduced ds es i (rec ∷ recs) (new ∷ news) =
    (rec.input_digest ≡ new.input_digest)
    × (rec.output_digest ≡ new.output_digest)
    × (rec.error ≡ new.error)
    × (decision_text (decision_at i ds) ≡ decision_text (decision_at i es))
    × Reproduced ds es (suc i) recs news

-- The workspace is the recorded one, or the trace records none.
abbrev pub SameWorkspace : String → String → Type 0
SameWorkspace recorded found = (recorded ≡ "") ⊎ (found ≡ recorded)

same_text?_iff : (s t : Option String) → (same_text? s t ≡ true) ↔ (s ≡ t)
same_text?_iff none none = (λ h. refl, λ h. refl)
same_text?_iff none (some t) = (λ h. cc, λ h. cc)
same_text?_iff (some s) none = (λ h. cc, λ h. cc)
same_text?_iff (some s) (some t) =
    (λ h. ap (λ x. some x) ((eq_iff s t).0 h), λ h. (eq_iff s t).1 (cc h))

append_nil {ℓ} : {A : Type ℓ} (xs ys : List A) → ((xs ++ ys) ≡ []) ↔ ((xs ≡ []) × (ys ≡ []))
append_nil [] ys = (λ h. (refl, h), λ h. h.1)
append_nil (x ∷ xs) ys = (λ h. cc, λ h. cc (h.0))

compare_field_iff :
    (i : ℕ) (field : String) (s t : Option String) → (compare_field i field s t ≡ []) ↔ (s ≡ t)
unfolding compare_field
compare_field_iff i field s t = elim (Bool-cases (same_text? s t)) [
  | inl e ↦ (λ h. (same_text?_iff s t).0 e, λ h. rw e refl)
  | inr e ↦ (λ h. cc (rw e at h), λ h. cc (e, (same_text?_iff s t).1 h))
]

some_iff : (s t : String) → (some s ≡ some t) ↔ (s ≡ t)
some_iff s t = (λ h. cc, λ h. ap (λ x. some x) h)

four_nil {ℓ} :
    {A : Type ℓ} (ws xs ys zs : List A)
    → ((ws ++ xs ++ ys ++ zs) ≡ []) ↔ ((ws ≡ []) × (xs ≡ []) × (ys ≡ []) × (zs ≡ []))
four_nil ws xs ys zs = (
  λ h.
      let (h₁, d) = (append_nil (ws ++ xs ++ ys) zs).0 h in
      let (h₂, c) = (append_nil (ws ++ xs) ys).0 h₁ in
      let (a, b) = (append_nil ws xs).0 h₂ in (a, b, c, d),
  λ h.
      (append_nil (ws ++ xs ++ ys) zs).1
        ((append_nil (ws ++ xs) ys).1 ((append_nil ws xs).1 (h.0, h.1), h.2), h.3),
)

-- One step is reproduced.
abbrev SameStep : List PolicyDecision → List PolicyDecision → ℕ → StepRecord → StepRecord → Type 0
SameStep ds es i rec new =
    (rec.input_digest ≡ new.input_digest)
    × (rec.output_digest ≡ new.output_digest)
    × (rec.error ≡ new.error)
    × (decision_text (decision_at i ds) ≡ decision_text (decision_at i es))

module _ (ds es : List PolicyDecision) (i : ℕ) (rec new : StepRecord) where
  abbrev inputs : List StepDivergence
  inputs = compare_field i "input_digest" (some rec.input_digest) (some new.input_digest)

  abbrev outputs : List StepDivergence
  outputs = compare_field i "output_digest" rec.output_digest new.output_digest

  abbrev errors : List StepDivergence
  errors = compare_field i "error" rec.error new.error

  abbrev decisions : List StepDivergence
  decisions =
      compare_field i "policy_decision" (decision_text (decision_at i ds))
        (decision_text (decision_at i es))

  compare_step-eq : compare_step ds es i rec new ≡ inputs ++ outputs ++ errors ++ decisions
  unfolding compare_step
  compare_step-eq = refl

  compare_step_iff : (compare_step ds es i rec new ≡ []) ↔ SameStep ds es i rec new
  compare_step_iff = (
    λ h.
        let (a, b, c, d) = (four_nil inputs outputs errors decisions).0 (sym compare_step-eq ∙ h) in
        (
          (some_iff _ _).0 ((compare_field_iff _ _ _ _).0 a),
          (compare_field_iff _ _ _ _).0 b,
          (compare_field_iff _ _ _ _).0 c,
          (compare_field_iff _ _ _ _).0 d,
        ),
    λ h.
        compare_step-eq
        ∙ (four_nil inputs outputs errors decisions).1 (
          (compare_field_iff i _ _ _).1 (ap (λ x. some x) h.0),
          (compare_field_iff i _ _ _).1 h.1,
          (compare_field_iff i _ _ _).1 h.2,
          (compare_field_iff i _ _ _).1 h.3,
        ),
  )

compare_steps-cons :
    (ds es : List PolicyDecision) (i : ℕ) (rec new : StepRecord) (recs news : List StepRecord)
    → compare_steps ds es i (rec ∷ recs) (new ∷ news)
      ≡ compare_step ds es i rec new ++ compare_steps ds es (suc i) recs news
unfolding compare_steps
compare_steps-cons ds es i rec new recs news = refl

compare_steps_iff :
    (ds es : List PolicyDecision) (i : ℕ) (recs news : List StepRecord)
    → (compare_steps ds es i recs news ≡ []) ↔ Reproduced ds es i recs news
unfolding compare_steps
compare_steps_iff ds es i [] [] = (λ h. tt, λ h. refl)
compare_steps_iff ds es i [] (new ∷ news) = (λ h. cc, λ h. absurd h)
compare_steps_iff ds es i (rec ∷ recs) [] = (λ h. cc, λ h. absurd h)
compare_steps_iff ds es i (rec ∷ recs) (new ∷ news) =
    let step : List StepDivergence = compare_step ds es i rec new in
    let rest : List StepDivergence = compare_steps ds es (suc i) recs news in
    let later = compare_steps_iff ds es (suc i) recs news in
    let cons = compare_steps-cons ds es i rec new recs news in
    (
      λ h.
          let (a, b) = (append_nil step rest).0 (sym cons ∙ h) in
          let (p, q, r, t) = (compare_step_iff ds es i rec new).0 a in (p, q, r, t, later.0 b),
      λ h.
          cons
          ∙ (append_nil step rest).1
              ((compare_step_iff ds es i rec new).1 (h.0, h.1, h.2, h.3), later.1 h.4),
    )

compare_workspace_iff :
    (recorded found : String)
    → (compare_workspace recorded found ≡ []) ↔ SameWorkspace recorded found
unfolding compare_workspace
compare_workspace_iff recorded found = elim (Bool-cases (str_eq recorded "")) [
  | inl e ↦ (λ h. inl ((eq_iff recorded "").0 e), λ h. rw e refl)
  | inr e ↦ elim (Bool-cases (str_eq found recorded)) [
    | inl k ↦ (λ h. inr ((eq_iff found recorded).0 k), λ h. rw (e, k) refl)
    | inr k ↦ (
      λ h. cc (rw (e, k) at h),
      λ h. elim h [
        | inl same ↦ cc (e, (eq_iff recorded "").1 same)
        | inr same ↦ cc (k, (eq_iff found recorded).1 same)
      ],
    )
  ]
]

report_ok_iff : (r : ReplayReport) → (report_ok r ≡ true) ↔ (r.divergences ≡ [])
unfolding report_ok
report_ok_iff r = go r.divergences
  where
    go : (xs : List StepDivergence) → ((elim xs [ [] ↦ true | _ ∷ _ ↦ false ]) ≡ true) ↔ (xs ≡ [])
    go [] = (λ h. refl, λ h. refl)
    go (x ∷ xs) = (λ h. cc, λ h. cc)

-- A replay whose trace loads, whose script passes its validators and whose fresh run returns gives a
-- report, and the report is clean exactly when the workspace is the recorded one (or none is recorded) and the fresh run took the
-- recorded steps: as many of them, each with the same input, output, error and decision.
pub replay_trace-Reproduced :
    (platform : Platform) (codec : Codec) (clock : Clock) (path text : String) (files : Files)
    (header : Header) (recorded : AgentRun) (script : Script) (fresh : State)
    → load_trace codec path text ≡ ok (header, recorded)
    → validate_script header.script ≡ ok script
    → execute_script platform (fresh_config clock header recorded) script files ≡ done fresh
    → (r : ReplayReport) × (replay_trace platform codec clock path text files ≡ ok r)
      × ((report_ok r ≡ true) ↔ (
          SameWorkspace header.workspace_digest (digest platform files)
          × Reproduced recorded.policy_decisions fresh.run.policy_decisions 0 recorded.steps
              fresh.run.steps))
unfolding replay_trace report
replay_trace-Reproduced platform codec clock path text files header recorded script fresh loads
      validated returned =
    let ds = recorded.policy_decisions in
    let es = fresh.run.policy_decisions in
    let same = compare_steps_iff ds es 0 recorded.steps fresh.run.steps in
    let place = compare_workspace_iff header.workspace_digest (digest platform files) in
    let here = compare_workspace header.workspace_digest (digest platform files) in
    let there = compare_steps ds es 0 recorded.steps fresh.run.steps in
    let r : ReplayReport = record {
      run_id = recorded.id;
      steps_compared = max (length recorded.steps) (length fresh.run.steps);
      divergences =
          compare_workspace header.workspace_digest (digest platform files)
          ++ compare_steps recorded.policy_decisions fresh.run.policy_decisions 0 recorded.steps
              fresh.run.steps;
    } in
    (
      r,
      rw (loads, validated, returned) refl,
      (
        λ h.
            let (a, b) = (append_nil here there).0 ((report_ok_iff r).0 h) in (place.0 a, same.0 b),
        λ h. (report_ok_iff r).1 ((append_nil here there).1 (place.1 h.0, same.1 h.1)),
      ),
    )

-- Steps that are equal but for their times are reproduced.
Twins-Reproduced :
    (ds : List PolicyDecision) (i : ℕ) (recs news : List StepRecord)
    → Twins recs news
    → Reproduced ds ds i recs news
Twins-Reproduced ds i [] [] h = tt
Twins-Reproduced ds i [] (new ∷ news) h = absurd h
Twins-Reproduced ds i (rec ∷ recs) [] h = absurd h
Twins-Reproduced ds i (rec ∷ recs) (new ∷ news) (e, h) = (
  ap (λ (st : StepRecord). st.input_digest) e,
  ap (λ (st : StepRecord). st.output_digest) e,
  ap (λ (st : StepRecord). st.error) e,
  refl,
  Twins-Reproduced ds (suc i) recs news h,
)

Twins-length : (recs news : List StepRecord) → Twins recs news → length recs ≡ length news
Twins-length [] [] h = refl
Twins-length [] (new ∷ news) h = absurd h
Twins-length (rec ∷ recs) [] h = absurd h
Twins-length (rec ∷ recs) (new ∷ news) h = ap suc (Twins-length recs news h.1)

max_same : (n : ℕ) → max n n ≡ n
max_same n = ground arith

module _ (platform : Platform) (config : Config) (script : Script) (files : Files) (s : State)
    (writing : config.writing ≡ true)
    (returned : execute_script platform config script files ≡ done s) where
  -- The report on a fresh run that is like the recorded one.
  clean_report :
      (fresh : Executed)
      → EndAlike (done s) fresh
      → report platform files
          (header_of platform config script files)
          (record s.run { reviewer_seats = [] })
          fresh
        ≡ ok (record {
          run_id = config.run_id;
          steps_compared = length script.steps;
          divergences = [];
        })
  unfolding report header_of
  clean_report (crashed f t) h = absurd h
  clean_report (done t) h =
      rw
        (
          own_id platform config script files s returned,
          sym (Twins-length s.run.steps t.run.steps h.steps),
          (execute_script-gated platform config script files s returned).0,
          max_same (length script.steps),
          (compare_workspace_iff _ _).1 (inr refl),
          sym h.decisions,
          (compare_steps_iff _ _ _ _ _).1
              (Twins-Reproduced s.run.policy_decisions 0 s.run.steps t.run.steps h.steps),
        )
        refl

  fresh_alike :
      (clock : Clock)
      → EndAlike (done s) (
          execute_script platform
            (record config { run_id = s.run.id; writing = false; clock = clock })
            script
            files)
  fresh_alike clock =
      subst
        (λ id. EndAlike (done s) (
          execute_script platform (record config { run_id = id; writing = false; clock = clock })
            script files))
        (sym (own_id platform config script files s returned))
        (subst
          (λ x. EndAlike x (
            execute_script platform (record config { writing = false; clock = clock }) script
              files))
          returned
          (execute_script-EndAlike platform config.policy config.run_id config.writing false
            config.clock clock script files))

  -- A run of a script that passes its validators, which wrote its trace and returned, replays cleanly
  -- on the files it started from, whatever the clock then says, if the JSON of every event written is one
  -- line for `str.splitlines` and is read back by `json` and pydantic: the replay returns, every step of
  -- the script is compared, and there is no divergence.
  pub replay-execute_script :
      (codec : Codec) (path : String) (clock : Clock)
      → validate_script script ≡ ok script
      → All (ReadsBack codec) s.events
      → replay_trace platform codec clock path (trace_text codec s.events) files
        ≡ ok (record {
          run_id = config.run_id;
          steps_compared = length script.steps;
          divergences = [];
        })
  unfolding replay_trace header_of
  replay-execute_script codec path clock validated reads =
      rw
        (
          load-execute_script platform config path writing script files codec s returned reads,
          validated,
        )
        (clean_report _ (fresh_alike clock))
