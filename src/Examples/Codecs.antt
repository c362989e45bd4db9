-- ===== src/Examples/Codecs.antt =====
-- A codec of the events of one run, with the printer of Json. A payload is what tells an event of the run from the others of its kind.
use Prim.Native.String
use Prim.Native.String.{◌∷◌}
use agent_runtime_observator.Prelude.{
  ◌≡◌, refl, inl, inr, Bool-cases, Bool, true, not, ◌&&◌, String, Option, none, some, List, [],
  str_eq, if◌then◌else◌,
}
use agent_runtime_observator.Text.{◌⁀◌, is_line_end}
use agent_runtime_observator.Text.Lines.{IsOneLine}
use agent_runtime_observator.Outcome.{ok, fault, value_error, validation_error}
use agent_runtime_observator.Json.{Value, pos, int, str, obj, Fields, end, field, canonical_json}
use agent_runtime_observator.Runtime.Event.{
  Event, run_start, policy_decision, risk_signal, evidence, artifact, step, run_end,
}
use agent_runtime_observator.Runtime.Trace.{Codec, kind, event_value}
use agent_runtime_observator.Runtime.Trace.Lines.{ReadsBack}

abbrev mark : Event → Fields
mark (run_start h) = field "header" (str h.run_id) end
mark (policy_decision d) = field "decision" (str d.id) end
mark (risk_signal r) = field "signal" (int (pos r.step_index)) end
mark (evidence e) = field "item" (str e.id) end
mark (artifact a) = field "artifact" (str a.id) end
mark (step st) = field "step" (int (pos st.index)) end
mark (run_end status started finished) = field "finished_at" (int (pos finished)) end

abbrev value_of : Event → Value
value_of e = obj (field "type" (str (kind e)) (mark e))

abbrev find? : String → List Event → Option Event
find? s [] = none
find? s (List.◌∷◌ e events) =
    let rest = find? s events in if str_eq (canonical_json (value_of e)) s then some e else rest

abbrev pub codec_of : List Event → Codec
codec_of events = record {
  payload = mark;
  dumps = canonical_json;
  loads = λ s. elim (find? s events) [
    | none ↦ fault (value_error "no JSON")
    | some e ↦ ok (value_of e)
  ];
  validate =
      λ v. elim (find? (canonical_json v) events) [ none ↦ fault validation_error | some e ↦ ok e ];
}

abbrev is_line : String → Bool
is_line Prim.Native.String.[] = true
is_line (c ∷ s) = not (is_line_end c) && is_line s

is_line-IsOneLine : (s : String) → is_line s ≡ true → IsOneLine s
is_line-IsOneLine Prim.Native.String.[] h = tt
is_line-IsOneLine (c ∷ s) h = elim (Bool-cases (is_line_end c)) [
  | inl e ↦ cc (rw e at h)
  | inr e ↦ (e, is_line-IsOneLine s (rw e at h))
]

abbrev tail : String → String
tail Prim.Native.String.[] = ""
tail (c ∷ s) = s

-- An event that a codec reads back, from what the definitions compute.
pub back :
    (events : List Event) (e : Event)
    → is_line (canonical_json (value_of e)) ≡ true
    → canonical_json (value_of e) ≡ "{" ⁀ tail (canonical_json (value_of e))
    → find? (canonical_json (value_of e)) events ≡ some e
    → ReadsBack (codec_of events) e
unfolding event_value
back events e line brace found = record {
  one_line = is_line-IsOneLine (canonical_json (value_of e)) line;
  behind_brace = tail (canonical_json (value_of e));
  is_object = brace;
  parsed = rw (codec_of, found) refl;
  validated = rw (codec_of, found) refl;
}
