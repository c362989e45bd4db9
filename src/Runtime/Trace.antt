-- ===== src/Runtime/Trace.antt =====
-- packages/runtime/aro_runtime/trace.py: the text of a trace file, a line of JSON for each event, and
-- `load_trace`, which reads it. `json` and pydantic are an interface.
pub mod Lines
pub mod RoundTrip
use agent_runtime_observator.Prelude.{
  Bool, true, false, String, Option, none, some, List, [], ◌∷◌, ◌++◌, contains, if◌then◌else◌,
}
use agent_runtime_observator.Text.{◌⁀◌, is_empty, strip, split_lines}
use agent_runtime_observator.Json.{Value, str, obj, Fields, field}
use agent_runtime_observator.Json.Lookup.{field_get?}
use agent_runtime_observator.Outcome.{
  Outcome, ok, tool_error, fault, value_error, type_error, or_key_error, ◌>>=◌,
}
use agent_runtime_observator.Schema.Models.{running}
use agent_runtime_observator.Schema.Models.Run.{AgentRun}
use agent_runtime_observator.Runtime.Event.{
  Header, Event, run_start, policy_decision, risk_signal, evidence, artifact, step, run_end,
}

-- What `json` and pydantic do with the parts of an event.
pub record Codec : Type 0 where
  -- the keyword arguments of `event`, dumped by `model_dump(mode="json")`
  pub payload : Event → Fields
  -- `json.dumps(v, ensure_ascii=False)` and `json.loads(s)`
  pub dumps : Value → String
  pub loads : String → Outcome Value
  -- the parts of an event of a known kind, looked up and validated
  pub validate : Value → Outcome Event

-- The `type_` of a call of `event`.
unfoldable pub kind : Event → String
kind (run_start _) = "run_start"
kind (policy_decision _) = "policy_decision"
kind (risk_signal _) = "risk_signal"
kind (evidence _) = "evidence"
kind (artifact _) = "artifact"
kind (step _) = "step"
kind (run_end _ _ _) = "run_end"

abbrev pub known_kinds : List String
known_kinds = "step" ∷ "policy_decision" ∷ "risk_signal" ∷ "evidence" ∷ "artifact" ∷ "run_end" ∷ []

abbrev pub Reading : Type 0
Reading = Option (Header × AgentRun)

-- The run that a header starts; its `reviewer_seats` are left at their default.
unfoldable pub run_of_header : Header → AgentRun
run_of_header header = record {
  id = header.run_id;
  task_id = header.script.task.id;
  agent = header.script.agent;
  model = header.script.model;
  status = running;
  started_at = none;
  finished_at = none;
  coverage = some header.coverage;
  reviewer_seats = [];
  steps = [];
  policy_decisions = [];
  risk_signals = [];
  evidence = [];
  artifacts = [];
}

-- What an event does to the run that has been started.
unfoldable pub read_into : AgentRun → Event → AgentRun
unfolding run_of_header
read_into run (run_start header) = run_of_header header
read_into run (step st) = record run { steps = run.steps ++ st ∷ [] }
read_into run (policy_decision d) = record run { policy_decisions = run.policy_decisions ++ d ∷ [] }
read_into run (risk_signal r) = record run { risk_signals = run.risk_signals ++ r ∷ [] }
read_into run (evidence e) = record run { evidence = run.evidence ++ e ∷ [] }
read_into run (artifact a) = record run { artifacts = run.artifacts ++ a ∷ [] }
read_into run (run_end status started finished) = record run {
  status = status;
  started_at = some started;
  finished_at = some finished;
}

module _ (codec : Codec) where
  -- `{"type": type_, **payload}`
  unfoldable pub event_value : Event → Value
  unfolding kind
  event_value e = obj (field "type" (str (kind e)) (codec.payload e))

  -- What `TraceWriter.event` writes.
  unfoldable pub event_line : Event → String
  unfolding event_value
  event_line e = codec.dumps (event_value e) ⁀ "\n"

  -- The file after these events.
  unfoldable pub trace_text : List Event → String
  unfolding event_line
  trace_text [] = ""
  trace_text (e ∷ events) = event_line e ⁀ trace_text events

  -- `[json.loads(line) for line in lines if line.strip()]`
  unfoldable pub parse_lines : List String → Outcome (List Value)
  unfolding is_empty strip
  parse_lines [] = ok []
  parse_lines (line ∷ lines) =
      let rest = parse_lines lines in
      if is_empty (strip line)
      then rest
      else codec.loads line >>= λ value. rest >>= λ values. ok (value ∷ values)

-- `ev["type"]`, which names a kind only if it is a text.
unfoldable pub kind_of : Value → Outcome (Option String)
kind_of (obj row) = or_key_error "type" (field_get? "type" row) >>= λ kind. ok (text_of kind)
  where
    text_of : Value → Option String
    text_of (str s) = some s
    text_of _ = none
kind_of _ = fault type_error

unfoldable pub is_kind : List String → Option String → Bool
is_kind names none = false
is_kind names (some name) = contains names name

module _ (path : String) where
  -- One round of the loop over the events, on an event that is read.
  unfoldable pub read_event : Reading → Event → Outcome Reading
  unfolding read_into
  read_event reading (run_start header) = ok (some (header, run_of_header header))
  read_event none _ = fault (value_error ("trace " ⁀ path ⁀ " has events before run_start"))
  read_event (some (header, run)) event = ok (some (header, read_into run event))

module _ (codec : Codec) (path : String) where
  read_started : Reading → Bool → Value → Outcome Reading
  unfolding read_event
  read_started none known ev =
      fault (value_error ("trace " ⁀ path ⁀ " has events before run_start"))
  read_started (some started) false ev = ok (some started)
  read_started (some started) true ev = codec.validate ev >>= read_event path (some started)

  -- The round on a value of JSON: an unknown kind is passed over.
  unfoldable pub read_value : Reading → Value → Outcome Reading
  unfolding kind_of is_kind read_started read_event
  read_value reading ev = kind_of ev >>= λ kind.
      if is_kind ("run_start" ∷ []) kind
      then codec.validate ev >>= read_event path reading
      else read_started reading (is_kind known_kinds kind) ev

  unfoldable pub read_values : Reading → List Value → Outcome Reading
  unfolding read_value
  read_values reading [] = ok reading
  read_values reading (ev ∷ events) = do next ← read_value reading ev; read_values next events

  finished_reading : Reading → Outcome (Header × AgentRun)
  finished_reading none = fault (value_error ("trace " ⁀ path ⁀ " has no run_start event"))
  finished_reading (some result) = ok result

  -- `load_trace` on the text of the file.
  unfoldable pub load_trace : String → Outcome (Header × AgentRun)
  unfolding parse_lines read_values finished_reading
  load_trace text = do
    events ← parse_lines codec (split_lines text)
    reading ← read_values none events
    finished_reading reading
