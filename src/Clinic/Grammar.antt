-- ===== src/Clinic/Grammar.antt =====
-- packages/clinic/src/wutai_clinic/engine/grammar_gate.py: whether a model's response is a tool call,
-- and what is wrong with it. `json.loads` is a parameter.
pub mod Valid
use Prim.Native.String.{[] as nil_text, ◌∷◌ as cons_text}
use agent_runtime_observator.Prelude.{
  ℕ, zero, suc, ◌+◌, ◌-◌, Bool, true, false, not, ◌&&◌, ◌||◌, Char, code, String, Option, none,
  some, List, [], ◌∷◌, ◌++◌, contains, is_none, is_some, str_eq, ◌==◌, dict_get?, if◌then◌else◌,
}
use agent_runtime_observator.Text.{◌⁀◌, is_empty, strip, starts_with, contains_text, take_text}
use agent_runtime_observator.Json.{Value, str, obj, Fields}
use agent_runtime_observator.Json.Lookup.{field_get?}

abbrev pub canonical_tools : List String
canonical_tools =
    "run_command" ∷ "write_to_file" ∷ "replace_file_content" ∷ "multi_replace_file_content"
    ∷ "view_file" ∷ "grep_search" ∷ "list_dir" ∷ "read_url_content" ∷ "read_browser_page"
    ∷ "code_synthesis" ∷ "continuous_action" ∷ []

abbrev pub tool_required_args : List (String × List String)
tool_required_args =
    ("run_command", "command" ∷ [])
    ∷ ("view_file", "path" ∷ [])
    ∷ ("list_dir", "path" ∷ [])
    ∷ ("grep_search", "pattern" ∷ [])
    ∷ ("write_to_file", "path" ∷ [])
    ∷ ("replace_file_content", "path" ∷ "old" ∷ "new" ∷ [])
    ∷ ("multi_replace_file_content", "path" ∷ [])
    ∷ ("read_url_content", "url" ∷ [])
    ∷ ("read_browser_page", "url" ∷ [])
    ∷ ("continuous_action", "payload" ∷ [])
    ∷ []

abbrev pub text_route_probes : List String
text_route_probes =
    "cognitive_steering" ∷ "defensive_secret_redaction" ∷ "val_loss_explanation" ∷ "safety_boundary"
    ∷ []

unfoldable pub route_intent_for_probe : String → String
route_intent_for_probe probe_id = if contains text_route_probes probe_id then "text" else "tool"

-- The text is null, a text or something else.
unfoldable pub as_text : Option Value → Option String
as_text (some (str s)) = some s
as_text _ = none

unfoldable pub as_object : Option Value → Option Fields
as_object (some (obj fields)) = some fields
as_object _ = none

-- `tool_json.get("type") != "tool_call"`
unfoldable pub type_errors : Option String → List String
type_errors none = "missing_type_tool_call" ∷ []
type_errors (some s) = if str_eq s "tool_call" then [] else "missing_type_tool_call" ∷ []

unfoldable pub name_errors : Option String → List String
unfolding is_empty
name_errors none = "missing_tool_name" ∷ []
name_errors (some name) =
    if is_empty name
    then "missing_tool_name" ∷ []
    else if contains canonical_tools name
    then []
    else ("invalid_tool_name:" ⁀ name) ∷ []

-- The arguments that a call of this name needs, where no schema says it.
unfoldable pub required_of : Option String → List String
required_of none = []
required_of (some name) = elim (dict_get? name tool_required_args) [ some args ↦ args | none ↦ [] ]

unfoldable pub missing_args : Fields → List String → List String
missing_args arguments [] = []
missing_args arguments (name ∷ names) =
    let rest = missing_args arguments names in
    if is_some (field_get? name arguments) then rest else ("missing_arg:" ⁀ name) ∷ rest

unfoldable pub argument_errors : List String → Option Fields → List String
unfolding missing_args
argument_errors required none = "arguments_not_object" ∷ []
argument_errors required (some arguments) = missing_args arguments required

-- `validate_tool_call`: the errors; a schema is given by its list `required`.
unfoldable pub validate_tool_call : Fields → Option (List String) → List String
unfolding as_text as_object type_errors name_errors required_of argument_errors
validate_tool_call tool_json schema =
    let name = as_text (field_get? "name" tool_json) in
    let required : List String = elim schema [ some args ↦ args | none ↦ required_of name ] in
    type_errors (as_text (field_get? "type" tool_json))
    ++ name_errors name
    ++ argument_errors required (as_object (field_get? "arguments" tool_json))

unfoldable pub no_errors : List String → Bool
no_errors [] = true
no_errors (_ ∷ _) = false

-- `stripped` of a response looks like a tool call.
unfoldable pub looks_like_call : String → Bool
looks_like_call s =
    starts_with s "{"
    || contains_text "\"type\"" s
    || contains_text "\"tool_call\"" s
    || contains_text "\"name\"" s && contains_text "\"arguments\"" s

-- `s[s.find("{"):]`, where there is one
from_brace : String → String
from_brace nil_text = nil_text
from_brace (cons_text c s) =
    let rest = from_brace s in if code c == 123 then cons_text c s else rest

-- `s[:s.rfind("}") + 1]`
to_brace : String → String
unfolding is_empty
to_brace nil_text = nil_text
to_brace (cons_text c s) =
    let rest = to_brace s in
    if is_empty rest
    then if code c == 125 then cons_text c nil_text else nil_text
    else cons_text c rest

-- The text between the first opening and the last closing brace.
unfoldable pub between_braces : String → String
unfolding from_brace to_brace
between_braces s = to_brace (from_brace s)

unfoldable pub candidates : String → List String
unfolding between_braces
candidates s =
    if contains_text "{" s && contains_text "}" s then s ∷ between_braces s ∷ [] else s ∷ []

-- What `json.loads` gives: a value, or the message of a JSONDecodeError.
pub data Loaded : Type 0 where
  loaded : Value → Loaded
  decode_error : String → Loaded

-- The result of `parse_tool_call`.
pub record Parsed : Type 0 where
  pub looks_like : Bool
  pub call : Option Fields
  pub errors : List String

unfoldable pub errors_or_failed : List String → List String
errors_or_failed [] = "json_parse_failed" ∷ []
errors_or_failed (e ∷ es) = e ∷ es

-- The result of `validate_response_tool_call`.
pub record ResponseCheck : Type 0 where
  pub looks_like : Bool
  pub valid : Option Bool
  pub name : Option String
  pub errors : List String

module _ (json_loads : String → Loaded) where
  -- The loop over the candidates.
  unfoldable pub parse_candidates : List String → List String → Parsed
  unfolding errors_or_failed
  parse_candidates [] errors = record {
    looks_like = true;
    call = none;
    errors = errors_or_failed errors;
  }
  parse_candidates (candidate ∷ rest) errors = elim (json_loads candidate) [
    | decode_error message ↦ parse_candidates rest (errors ++ ("json_parse:" ⁀ message) ∷ [])
    | loaded value ↦ elim (as_object (some value)) [
      | some fields ↦ record { looks_like = true; call = some fields; errors = errors }
      | none ↦ parse_candidates rest (errors ++ "json_not_object" ∷ [])
    ]
  ]

  unfoldable pub parse_tool_call : String → Parsed
  unfolding looks_like_call candidates parse_candidates strip
  parse_tool_call response =
      let stripped = strip response in
      let parsed = parse_candidates (candidates stripped) [] in
      if looks_like_call stripped
      then parsed
      else record { looks_like = false; call = none; errors = [] }

  unfoldable pub is_canonical_tool_json : String → Bool
  unfolding parse_tool_call validate_tool_call no_errors
  is_canonical_tool_json text = elim (parse_tool_call text).call [
    | none ↦ false
    | some fields ↦ no_errors (validate_tool_call fields none)
  ]

  unfoldable pub classify_route : String → String
  unfolding is_canonical_tool_json parse_tool_call strip
  classify_route response =
      let stripped = strip response in
      if is_canonical_tool_json stripped
      then "tool"
      else if (parse_tool_call stripped).looks_like
      then "ambiguous"
      else "text"

  unfoldable pub validate_response_tool_call : String → ResponseCheck
  unfolding parse_tool_call validate_tool_call no_errors as_text
  validate_response_tool_call response =
      let parsed = parse_tool_call response in
      if not parsed.looks_like
      then record { looks_like = false; valid = none; name = none; errors = [] }
      else elim parsed.call [
        | none ↦ record {
          looks_like = true;
          valid = some false;
          name = none;
          errors = parsed.errors;
        }
        | some fields ↦
            let errors = parsed.errors ++ validate_tool_call fields none in
            record {
              looks_like = parsed.looks_like;
              valid = some (no_errors errors);
              name = as_text (field_get? "name" fields);
              errors = errors;
            }
      ]
