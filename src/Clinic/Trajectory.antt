-- ===== src/Clinic/Trajectory.antt =====
-- packages/clinic/src/wutai_clinic/schemas/trajectory.py: turns, tool calls and trajectories read from a
-- dict and written to one. The conversions `str`, `dict`, `float` and `int` are an interface.
pub mod RoundTrip
use agent_runtime_observator.Prelude.{
  Bool, true, false, not, String, Option, none, some, List, [], ◌∷◌, contains, is_some, str_eq,
  if◌then◌else◌,
}
use agent_runtime_observator.Text.{is_empty}
use agent_runtime_observator.Outcome.{Outcome, ok, fault, attribute_error, type_error, ◌>>=◌}
use agent_runtime_observator.Json.{
  ℤ, pos, Value, null, bool, int, float, str, arr, obj, Items, nil, item, Fields, end, field,
}
use agent_runtime_observator.Json.Lookup.{field_get?, put_field, truthy, truthy_option}

pub record Conversions : Type 1 where
  pub Float : Type 0
  pub zero : Float
  -- `str(v)`, `dict(v)`, `float(v)` and `int(v)`
  pub python_str : Value → String
  pub python_dict : Value → Outcome Fields
  pub python_float : Value → Outcome Float
  pub python_int : Value → Outcome ℤ
  -- a float as a value of JSON
  pub float_value : Float → Value

-- `_public_dict`
unfoldable pub public_dict : List String → Fields → Fields
public_dict known end = end
public_dict known (field k v fs) =
    let rest = public_dict known fs in if contains known k then rest else field k v rest

-- The value is there and is not None.
unfoldable pub present : Option Value → Option Value
present (some null) = none
present o = o

-- `data.get(k) or default`
unfoldable pub value_or : Value → Option Value → Value
unfolding truthy
value_or default none = default
value_or default (some v) = if truthy v then v else default

pub record ToolCall : Type 0 where
  pub name : String
  pub arguments : Fields
  pub metadata : Fields

pub record Turn : Type 0 where
  pub role : String
  pub content : Value
  pub tool_call : Option ToolCall
  pub reasoning : Option Value
  pub metadata : Fields

abbrev pub tool_call_keys : List String
tool_call_keys = "name" ∷ "arguments" ∷ []

abbrev pub turn_keys : List String
turn_keys = "role" ∷ "content" ∷ "tool_call" ∷ "reasoning" ∷ []

-- `ToolCall.to_dict`
unfoldable pub tool_call_to_dict : ToolCall → Fields
unfolding put_field
tool_call_to_dict call =
    put_field "arguments" (obj call.arguments) (put_field "name" (str call.name) call.metadata)

unfoldable pub put_option : String → Option Value → Fields → Fields
unfolding put_field
put_option k none fs = fs
put_option k (some v) fs = put_field k v fs

unfoldable pub tool_call_value : Option ToolCall → Option Value
unfolding tool_call_to_dict
tool_call_value none = none
tool_call_value (some call) = some (obj (tool_call_to_dict call))

-- `Turn.to_dict`
unfoldable pub turn_to_dict : Turn → Fields
unfolding put_field put_option tool_call_value
turn_to_dict turn = put_option "tool_call" (tool_call_value turn.tool_call) (
    put_option "reasoning" turn.reasoning
      (put_field "content" turn.content (put_field "role" (str turn.role) turn.metadata)))

-- `data.get("content", "")`
unfoldable pub content_or : Option Value → Value
content_or none = str ""
content_or (some v) = v

module _ (py : Conversions) where
  -- The body of `ToolCall.from_dict` on a dict that is not empty.
  unfoldable pub tool_call_of_dict : Fields → Outcome ToolCall
  unfolding public_dict value_or
  tool_call_of_dict row =
      py.python_dict (value_or (obj end) (field_get? "arguments" row)) >>= λ arguments. ok (record {
        name = py.python_str (value_or (str "") (field_get? "name" row));
        arguments = arguments;
        metadata = public_dict tool_call_keys row;
      })

  unfoldable pub tool_call_from_value : Value → Outcome (Option ToolCall)
  unfolding tool_call_of_dict
  tool_call_from_value (obj row) = tool_call_of_dict row >>= λ call. ok (some call)
  tool_call_from_value _ = fault attribute_error

  -- `ToolCall.from_dict`
  unfoldable pub tool_call_from_dict : Option Value → Outcome (Option ToolCall)
  unfolding tool_call_from_value truthy
  tool_call_from_dict none = ok none
  tool_call_from_dict (some v) = elim (truthy v) [ false ↦ ok none | true ↦ tool_call_from_value v ]

  -- `Turn.from_dict`
  unfoldable pub turn_from_dict : Fields → Outcome Turn
  unfolding tool_call_from_dict public_dict value_or present content_or
  turn_from_dict row = tool_call_from_dict (field_get? "tool_call" row) >>= λ call. ok (record {
    role = py.python_str (value_or (str "") (field_get? "role" row));
    content = content_or (field_get? "content" row);
    tool_call = call;
    reasoning = present (field_get? "reasoning" row);
    metadata = public_dict turn_keys row;
  })

  unfoldable pub turn_from_value : Value → Outcome Turn
  unfolding turn_from_dict
  turn_from_value (obj row) = turn_from_dict row
  turn_from_value _ = fault attribute_error

  unfoldable pub turns_from_items : Items → Outcome (List Turn)
  unfolding turn_from_value
  turns_from_items nil = ok []
  turns_from_items (item v xs) =
      turn_from_value v >>= λ turn. turns_from_items xs >>= λ turns. ok (turn ∷ turns)

  -- `[Turn.from_dict(item) for item in turns]`, where a text or a dict gives texts.
  unfoldable pub turns_from_value : Value → Outcome (List Turn)
  unfolding turns_from_items is_empty
  turns_from_value (arr xs) = turns_from_items xs
  turns_from_value (str s) = if is_empty s then ok [] else fault attribute_error
  turns_from_value (obj end) = ok []
  turns_from_value (obj (field _ _ _)) = fault attribute_error
  turns_from_value _ = fault type_error

  pub record StrHealth : Type 0 where
    pub online_str_v1 : py.Float
    pub recurrence_slope : py.Float
    pub recurrence_peak : py.Float
    pub recurrence_persistence : py.Float
    pub duplicate_ratio : py.Float
    pub action_entropy : py.Float
    pub error_streak : ℤ
    pub metadata : Fields

  pub record Trajectory : Type 0 where
    pub instance_id : String
    pub sft_turns : List Turn
    pub environment : String
    pub source : String
    pub task : String
    pub str_health_v1 : Option StrHealth
    pub metadata : Fields
    pub id_field : Option String
    pub turns_field : String
    pub has_source_field : Bool

  -- `float(data.get(k, 0.0) or 0.0)`
  unfoldable pub float_at : String → Fields → Outcome py.Float
  unfolding truthy
  float_at k row = elim (field_get? k row) [
    | none ↦ ok py.zero
    | some v ↦ elim (truthy v) [ true ↦ py.python_float v | false ↦ ok py.zero ]
  ]

  -- `int(data.get(k, 0) or 0)`
  unfoldable pub int_at : String → Fields → Outcome ℤ
  unfolding value_or
  int_at k row = py.python_int (value_or (int (pos 0)) (field_get? k row))

  unfoldable pub health_of_dict : Fields → Outcome StrHealth
  unfolding float_at int_at public_dict
  health_of_dict row = float_at "online_str_v1" row >>= λ online.
      float_at "recurrence_slope" row >>= λ slope. float_at "recurrence_peak" row >>= λ peak.
      float_at "recurrence_persistence" row >>= λ persistence.
      float_at "duplicate_ratio" row >>= λ duplicates. float_at "action_entropy" row >>= λ entropy.
      int_at "error_streak" row >>= λ streak. ok (record {
        online_str_v1 = online;
        recurrence_slope = slope;
        recurrence_peak = peak;
        recurrence_persistence = persistence;
        duplicate_ratio = duplicates;
        action_entropy = entropy;
        error_streak = streak;
        metadata =
            public_dict
              ("online_str_v1" ∷ "recurrence_slope" ∷ "recurrence_peak" ∷ "recurrence_persistence"
                ∷ "duplicate_ratio" ∷ "action_entropy" ∷ "error_streak" ∷ [])
              row;
      })

  -- `STRHealth.to_dict`
  unfoldable pub health_to_dict : StrHealth → Fields
  unfolding put_field
  health_to_dict h = put_field "error_streak" (int h.error_streak) (
      put_field "action_entropy" (py.float_value h.action_entropy) (
        put_field "duplicate_ratio" (py.float_value h.duplicate_ratio) (
          put_field "recurrence_persistence" (py.float_value h.recurrence_persistence) (
            put_field "recurrence_peak" (py.float_value h.recurrence_peak) (
              put_field "recurrence_slope" (py.float_value h.recurrence_slope)
                (put_field "online_str_v1" (py.float_value h.online_str_v1) h.metadata))))))

  -- `STRHealth.from_dict`
  unfoldable pub health_from_dict : Option Value → Outcome (Option StrHealth)
  unfolding health_of_dict truthy
  health_from_dict none = ok none
  health_from_dict (some v) = elim (truthy v) [
    | false ↦ ok none
    | true ↦ elim v [
      | obj row ↦ health_of_dict row >>= λ h. ok (some h)
      | _ ↦ fault attribute_error
    ]
  ]

  -- The turns and the field they stand in.
  unfoldable pub turns_of : Fields → Value × String
  unfolding present value_or
  turns_of row = elim (present (field_get? "sft_turns" row)) [
    | some turns ↦ (turns, "sft_turns")
    | none ↦ (value_or (arr nil) (field_get? "trajectory" row), "trajectory")
  ]

  -- `data.get(a) or data.get(b) or … or default`
  unfoldable pub first_of : Value → List String → Fields → Value
  unfolding value_or
  first_of default [] row = default
  first_of default (k ∷ ks) row = value_or (first_of default ks row) (field_get? k row)

  unfoldable pub id_field_of : Fields → Option String
  id_field_of row =
      if is_some (field_get? "instance_id" row)
      then some "instance_id"
      else if is_some (field_get? "trajectory_id" row)
      then some "trajectory_id"
      else none

  -- `Trajectory.from_dict`
  unfoldable pub trajectory_from_dict : Fields → Outcome Trajectory
  unfolding turns_of turns_from_value health_from_dict first_of id_field_of public_dict
  trajectory_from_dict row =
      let (turns_value, turns_field) = turns_of row in
      turns_from_value turns_value >>= λ turns.
      health_from_dict (field_get? "str_health_v1" row) >>= λ health. ok (record {
        instance_id = py.python_str (
            first_of (str "")
              ("instance_id" ∷ "trajectory_id" ∷ "environment" ∷ "_wutai_purified_index" ∷ []) row);
        sft_turns = turns;
        environment = py.python_str (first_of (str "unknown") ("environment" ∷ []) row);
        source =
            py.python_str (first_of (str "unknown") ("source" ∷ "_wutai_source_file" ∷ []) row);
        task = py.python_str (first_of (str "") ("task" ∷ []) row);
        str_health_v1 = health;
        metadata =
            public_dict
              ("instance_id" ∷ "trajectory_id" ∷ "environment" ∷ "source" ∷ "task" ∷ "sft_turns"
                ∷ "trajectory" ∷ "str_health_v1" ∷ [])
              row;
        id_field = id_field_of row;
        turns_field = turns_field;
        has_source_field = is_some (field_get? "source" row);
      })

  unfoldable pub turn_items : List Turn → Items
  unfolding turn_to_dict
  turn_items [] = nil
  turn_items (turn ∷ turns) = item (obj (turn_to_dict turn)) (turn_items turns)

  -- `if condition: data[k] = v`
  unfoldable pub put_if : Bool → String → Value → Fields → Fields
  unfolding put_field
  put_if condition k v fs = let put = put_field k v fs in if condition then put else fs

  unfoldable pub put_id : Trajectory → Fields → Fields
  unfolding put_if is_empty
  put_id t fs = elim t.id_field [
    | none ↦ fs
    | some k ↦ put_if (not (is_empty t.instance_id)) k (str t.instance_id) fs
  ]

  unfoldable pub put_health : Option StrHealth → Fields → Fields
  unfolding health_to_dict put_field
  put_health none fs = fs
  put_health (some h) fs = put_field "str_health_v1" (obj (health_to_dict h)) fs

  -- `Trajectory.to_dict`
  unfoldable pub trajectory_to_dict : Trajectory → Fields
  unfolding put_if put_id put_health put_field turn_items is_empty
  trajectory_to_dict t = put_health t.str_health_v1 (
      put_field t.turns_field (arr (turn_items t.sft_turns)) (
        put_id t (
          put_if t.has_source_field "source" (str t.source) (
            put_if (not (is_empty t.task)) "task" (str t.task) (
              put_if (not (str_eq t.environment "unknown")) "environment" (str t.environment)
                t.metadata)))))
