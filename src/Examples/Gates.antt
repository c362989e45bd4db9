-- ===== src/Examples/Gates.antt =====
-- The theorems on tool calls and on the gates of evidence, at small objects.
use agent_runtime_observator.Prelude.{◌≡◌, ◌↔◌, refl, Bool, true, false, String, some}
use agent_runtime_observator.Text.{strip, starts_with, contains_text}
use agent_runtime_observator.Json.{str, arr, obj, nil, item, Fields, end, field}
use agent_runtime_observator.Json.Lookup.{field_get?}
use agent_runtime_observator.Clinic.Grammar.{Loaded, loaded, parse_tool_call, classify_route}
use agent_runtime_observator.Clinic.Grammar.Valid.{IsToolCall, classify_route_iff}
use agent_runtime_observator.Clinic.Registry.{no_raw_payload, no_secret_literal, has_raw_key}
use agent_runtime_observator.Clinic.Registry.Payload.{Within, is_secret, payload_gates_iff}

abbrev call : Fields
call =
    field "type" (str "tool_call")
      (field "name" (str "view_file") (field "arguments" (obj (field "path" (str "a.py") end)) end))

abbrev json_loads : String → Loaded
json_loads text = loaded (obj call)

abbrev response : String
response = " {\"type\": \"tool_call\"} "

response_route : classify_route json_loads response ≡ "tool"
unfolding classify_route starts_with contains_text field_get?
response_route = refl

classify_route_iff_example : (classify_route json_loads response ≡ "tool") ↔ (
    (fields : Fields) × ((parse_tool_call json_loads (strip response)).call ≡ some fields)
    × IsToolCall fields)
classify_route_iff_example = classify_route_iff json_loads response

abbrev searches : String → String → Bool
searches pattern text = contains_text "sk-" text

abbrev context : Fields
context =
    field "rows" (arr (item (obj (field "prompt" (str "p") end)) nil)) (field "note" (str "n") end)

context_raw : no_raw_payload context ≡ false
unfolding no_raw_payload
context_raw = refl

payload_gates_iff_example :
    ((no_raw_payload context ≡ true) × (no_secret_literal searches context ≡ true)) ↔ (
      ((d : Fields) → Within (obj d) (obj context) → has_raw_key d ≡ false)
      × ((s : String) → Within (str s) (obj context) → is_secret searches s ≡ false))
payload_gates_iff_example = payload_gates_iff searches context
