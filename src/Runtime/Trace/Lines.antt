-- ===== src/Runtime/Trace/Lines.antt =====
-- The file of a trace, read back line by line.
use text.Mathlib.TextLemmas.{append_assoc}
use agent_runtime_observator.Prelude.{
  ◌≡◌, refl, ap, ◌∙◌, false, String, none, some, List, [], ◌∷◌, map, All,
}
use agent_runtime_observator.Text.{◌⁀◌, is_empty, strip, split_lines}
use agent_runtime_observator.Text.Lines.{IsOneLine, split_lines-nil, split_lines-line, strip-brace}
use agent_runtime_observator.Outcome.{Outcome, ok, ◌>>=◌}
use agent_runtime_observator.Json.{Value}
use agent_runtime_observator.Json.Lookup.{field_get?}
use agent_runtime_observator.Runtime.Event.{
  Event, run_start, policy_decision, risk_signal, evidence, artifact, step, run_end,
}
use agent_runtime_observator.Runtime.Trace.{
  Codec, Reading, kind_of, is_kind, kind, event_value, event_line, trace_text, parse_lines,
  read_event, read_started, read_value, read_values,
}

-- The JSON of the event is one line for `str.splitlines`, and `json` and pydantic read it back. A text
-- with one of the line ends U+0085, U+2028 and U+2029 is written as it is, and makes more lines.
pub record ReadsBack (codec : Codec) (e : Event) : Type 0 where
  pub one_line : IsOneLine (codec.dumps (event_value codec e))
  pub behind_brace : String
  pub is_object : codec.dumps (event_value codec e) ≡ "{" ⁀ behind_brace
  pub parsed : codec.loads (codec.dumps (event_value codec e)) ≡ ok (event_value codec e)
  pub validated : codec.validate (event_value codec e) ≡ ok e

-- The loop on the events themselves.
unfoldable pub read_events : String → Reading → List Event → Outcome Reading
unfolding read_event
read_events path reading [] = ok reading
read_events path reading (e ∷ events) =
    read_event path reading e >>= λ next. read_events path next events

module _ (codec : Codec) where
  split_lines-trace_text :
      (events : List Event)
      → All (ReadsBack codec) events
      → split_lines (trace_text codec events) ≡ map (λ e. codec.dumps (event_value codec e)) events
  unfolding trace_text event_line
  split_lines-trace_text [] h = split_lines-nil
  split_lines-trace_text (e ∷ events) (h, hs) =
      let line = codec.dumps (event_value codec e) in
      ap split_lines (append_assoc line "\n" (trace_text codec events))
      ∙ split_lines-line line (trace_text codec events) h.one_line
      ∙ ap (λ lines. line ∷ lines) (split_lines-trace_text events hs)

  parse_lines-line :
      (line : String) (lines : List String) (value : Value) (values : List Value)
      → is_empty (strip line) ≡ false
      → codec.loads line ≡ ok value
      → parse_lines codec lines ≡ ok values
      → parse_lines codec (line ∷ lines) ≡ ok (value ∷ values)
  unfolding parse_lines
  parse_lines-line line lines value values blank parsed rest = rw (blank, parsed, rest) refl

  parse_lines-written :
      (events : List Event)
      → All (ReadsBack codec) events
      → parse_lines codec (map (λ e. codec.dumps (event_value codec e)) events)
        ≡ ok (map (event_value codec) events)
  unfolding parse_lines
  parse_lines-written [] h = refl
  parse_lines-written (e ∷ events) (h, hs) =
      parse_lines-line (codec.dumps (event_value codec e))
        (map (λ e. codec.dumps (event_value codec e)) events) (event_value codec e)
        (map (event_value codec) events)
        (ap (λ t. is_empty (strip t)) h.is_object ∙ strip-brace h.behind_brace) h.parsed
        (parse_lines-written events hs)

  pub parse_lines-trace_text :
      (events : List Event)
      → All (ReadsBack codec) events
      → parse_lines codec (split_lines (trace_text codec events))
        ≡ ok (map (event_value codec) events)
  parse_lines-trace_text events h =
      ap (parse_lines codec) (split_lines-trace_text events h) ∙ parse_lines-written events h

  pub read_value-event_value :
      (path : String) (reading : Reading) (e : Event)
      → codec.validate (event_value codec e) ≡ ok e
      → read_value codec path reading (event_value codec e) ≡ read_event path reading e
  unfolding read_value kind_of is_kind read_started read_event event_value kind field_get?
  read_value-event_value path reading (run_start _) h = rw h refl
  read_value-event_value path none (policy_decision _) h = refl
  read_value-event_value path none (risk_signal _) h = refl
  read_value-event_value path none (evidence _) h = refl
  read_value-event_value path none (artifact _) h = refl
  read_value-event_value path none (step _) h = refl
  read_value-event_value path none (run_end _ _ _) h = refl
  read_value-event_value path (some _) (policy_decision _) h = rw h refl
  read_value-event_value path (some _) (risk_signal _) h = rw h refl
  read_value-event_value path (some _) (evidence _) h = rw h refl
  read_value-event_value path (some _) (artifact _) h = rw h refl
  read_value-event_value path (some _) (step _) h = rw h refl
  read_value-event_value path (some _) (run_end _ _ _) h = rw h refl

  pub read_values-written :
      (path : String) (reading : Reading) (events : List Event)
      → All (ReadsBack codec) events
      → read_values codec path reading (map (event_value codec) events)
        ≡ read_events path reading events
  unfolding read_values read_events
  read_values-written path reading [] h = refl
  read_values-written path reading (e ∷ events) (h, hs) =
      ap (λ o. o >>= λ next. read_values codec path next (map (event_value codec) events))
        (read_value-event_value path reading e h.validated)
      ∙ (λ i. read_event path reading e >>= λ next. read_values-written path next events hs i)
