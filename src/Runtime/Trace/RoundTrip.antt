-- ===== src/Runtime/Trace/RoundTrip.antt =====
-- The trace that a run writes reads back as the run.
use agent_runtime_observator.Prelude.{
  ℕ, suc, ◌≡◌, refl, ap, ◌∙◌, Bool, true, false, String, Option, none, some, List, [], ◌∷◌, ◌++◌,
  All,
}
use agent_runtime_observator.Outcome.{ok, ◌>>=◌, bind_ok, bind_assoc}
use agent_runtime_observator.Platform.{Platform}
use agent_runtime_observator.Schema.Models.Run.{
  PolicyDecision, RiskSignal, EvidenceItem, Artifact, AgentRun,
}
use agent_runtime_observator.Runtime.Workspace.{Files}
use agent_runtime_observator.Runtime.Script.{Script}
use agent_runtime_observator.Runtime.Event.{
  Header, Event, policy_decision, risk_signal, evidence, artifact, step, run_end,
}
use agent_runtime_observator.Runtime.Executor.{
  State, done, Config, log, begin_run, end_run, header_of, execute_script,
}
use agent_runtime_observator.Runtime.Executor.Effect.{Effect, add?, log?, timed, commit}
use agent_runtime_observator.Runtime.Executor.Loop.{loop_invariant}
use agent_runtime_observator.Runtime.Trace.{
  Codec, Reading, run_of_header, read_into, read_event, trace_text, load_trace,
}
use agent_runtime_observator.Runtime.Trace.Lines.{
  ReadsBack, read_events, read_values-written, parse_lines-trace_text,
}

module _ (path : String) where
  read_events-concat :
      (reading : Reading) (events : List Event) (e : Event)
      → read_events path reading (events ++ e ∷ [])
        ≡ (read_events path reading events >>= λ r. read_event path r e)
  unfolding read_events
  read_events-concat reading [] e = bind_ok (read_event path reading e)
  read_events-concat reading (x ∷ events) e =
      bind_assoc (read_event path reading x) (λ next. read_events path next events)
        (λ r. read_event path r e) (λ next. read_events path next (events ++ e ∷ []))
        (λ next. read_events-concat next events e)

  -- The events so far read as this header and this run.
  abbrev Reads : Header → List Event → AgentRun → Type 0
  Reads header events run = read_events path none events ≡ ok (some (header, run))

  Reads-log :
      (w : Bool) (header : Header) (events : List Event) (run : AgentRun) (e : Event)
      → w ≡ true
      → read_event path (some (header, run)) e ≡ ok (some (header, read_into run e))
      → Reads header events run
      → Reads header (log w events e) (read_into run e)
  Reads-log true header events run e w r h =
      read_events-concat none events e ∙ ap (λ x. x >>= λ y. read_event path y e) h ∙ r
  Reads-log false header events run e w r h = cc w

module _ (platform : Platform) (config : Config) (path : String) (header : Header)
    (writing : config.writing ≡ true) where
  -- What a reader of the trace so far knows of the run: all but its seats and its start.
  abbrev readable : AgentRun → AgentRun
  readable run = record run { reviewer_seats = []; started_at = none }

  abbrev Recorded : ℕ → State → Type 0
  Recorded i s =
      Reads path header s.events (readable s.run)
      × (s.run.started_at ≡ some config.clock.run_started)
      × (s.run.finished_at ≡ none)

  read_decision :
      (o : Option PolicyDecision) (events : List Event) (run : AgentRun)
      → Reads path header events run
      → Reads path header
          (log? config.writing policy_decision events o)
          (record run { policy_decisions = add? run.policy_decisions o })
  unfolding read_event
  read_decision none events run h = h
  read_decision (some d) events run h =
      Reads-log path config.writing header events run (policy_decision d) writing refl h

  read_signal :
      (o : Option RiskSignal) (events : List Event) (run : AgentRun)
      → Reads path header events run
      → Reads path header
          (log? config.writing risk_signal events o)
          (record run { risk_signals = add? run.risk_signals o })
  unfolding read_event
  read_signal none events run h = h
  read_signal (some d) events run h =
      Reads-log path config.writing header events run (risk_signal d) writing refl h

  read_evidence :
      (o : Option EvidenceItem) (events : List Event) (run : AgentRun)
      → Reads path header events run
      → Reads path header
          (log? config.writing evidence events o)
          (record run { evidence = add? run.evidence o })
  unfolding read_event
  read_evidence none events run h = h
  read_evidence (some d) events run h =
      Reads-log path config.writing header events run (evidence d) writing refl h

  read_artifact :
      (o : Option Artifact) (events : List Event) (run : AgentRun)
      → Reads path header events run
      → Reads path header
          (log? config.writing artifact events o)
          (record run { artifacts = add? run.artifacts o })
  unfolding read_event
  read_artifact none events run h = h
  read_artifact (some d) events run h =
      Reads-log path config.writing header events run (artifact d) writing refl h

  commit-Recorded :
      (i : ℕ) (s : State) (e : Effect)
      → Recorded i s
      → Recorded (suc i) (commit platform config i e s)
  unfolding read_event
  commit-Recorded i s e (h, started, finished) = (
    Reads-log path config.writing header _ _ (step (timed platform config i e.step)) writing refl (
        read_artifact e.artifact _ _ (
          read_evidence e.evidence _ _
            (read_signal e.signal _ _ (read_decision e.decision s.events (readable s.run) h)))),
    started,
    finished,
  )

module _ (platform : Platform) (config : Config) (path : String) (writing : config.writing ≡ true)
    (script : Script) (files : Files) where
  header : Header
  unfolding header_of
  header = header_of platform config script files

  begin-Recorded :
      Recorded platform config path header writing 0 (begin_run platform config script files)
  unfolding begin_run read_events run_of_header header
  begin-Recorded = (rw writing refl, refl, refl)

  end-Reads :
      (t : State)
      → Recorded platform config path header writing 0 t
      → Reads path header
          (end_run platform config t).events
          (record (end_run platform config t).run { reviewer_seats = [] })
  unfolding end_run read_event
  end-Reads t (h, started, finished) =
      rw
        (ap (λ o. record (end_run platform config t).run { started_at = o; reviewer_seats = [] })
          started)
        (Reads-log path config.writing header t.events
          (readable platform config path header writing t.run) (run_end _ _ _) writing refl h)

  -- The file of a returned run loads as the header of the run and the run itself, with its steps,
  -- decisions, signals, evidence, artifacts, status and times, but with no reviewer seats, if the JSON
  -- of every event written is one line for `str.splitlines` and is read back by `json` and pydantic.
  pub load-execute_script :
      (codec : Codec) (s : State)
      → execute_script platform config script files ≡ done s
      → All (ReadsBack codec) s.events
      → load_trace codec path (trace_text codec s.events)
        ≡ ok (header_of platform config script files, record s.run { reviewer_seats = [] })
  unfolding load_trace header
  load-execute_script codec s returned reads =
      let (t, recorded, e) =
        loop_invariant platform config (Recorded platform config path header writing)
          (λ i t e facts h. commit-Recorded platform config path header writing i t e h) script
          files s begin-Recorded returned in
      rw
        (
          parse_lines-trace_text codec s.events reads,
          read_values-written codec path none s.events reads,
        )
        (rw e (rw (end-Reads t recorded) refl))
