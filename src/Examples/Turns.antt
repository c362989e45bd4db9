-- ===== src/Examples/Turns.antt =====
-- The theorem on turns, at a turn with a tool call, a reasoning and metadata. Floats are natural
-- numbers.
use agent_runtime_observator.Prelude.{ℕ, ◌≡◌, refl, String, some}
use agent_runtime_observator.Outcome.{Outcome, ok, fault, type_error}
use agent_runtime_observator.Json.{pos, Value, int, str, obj, Fields, end, field}
use agent_runtime_observator.Clinic.Trajectory.{
  Conversions, public_dict, present, Turn, turn_to_dict, turn_from_dict,
}
use agent_runtime_observator.Clinic.Trajectory.RoundTrip.{
  ConvertsSame, CallHasNone, turn_from_dict-turn_to_dict,
}

abbrev text_of : Value → String
text_of (str s) = s
text_of _ = ""

abbrev dict_of : Value → Outcome Fields
dict_of (obj fields) = ok fields
dict_of _ = fault type_error

abbrev py : Conversions
py = record {
  Float = ℕ;
  zero = 0;
  python_str = text_of;
  python_dict = dict_of;
  python_float = λ v. ok 0;
  python_int = λ v. ok (pos 0);
  float_value = λ n. int (pos n);
}

same : ConvertsSame py
same = record { text = λ s. refl; dict = λ fields. refl }

abbrev turn : Turn
turn = record {
  role = "assistant";
  content = str "done";
  tool_call = some (record {
    name = "shell";
    arguments = field "command" (str "ls") end;
    metadata = field "id" (str "c1") end;
  });
  reasoning = some (str "the list is needed");
  metadata = field "step" (int (pos 2)) end;
}

turn_from_dict-turn_to_dict_example : turn_from_dict py (turn_to_dict turn) ≡ ok turn
unfolding public_dict CallHasNone present
turn_from_dict-turn_to_dict_example = turn_from_dict-turn_to_dict py same turn refl refl refl
