-- ===== src/Clinic/Trajectory/RoundTrip.antt =====
-- A turn of packages/clinic/src/wutai_clinic/schemas/trajectory.py that is written to a dict is read back.
use agent_runtime_observator.Prelude.{
  ◌≡◌, refl, sym, ap, ◌∙◌, inl, inr, true, false, String, Option, none, some, List, contains, arith,
  str_eq, eq_iff, Bool-cases, if◌then◌else◌,
}
use agent_runtime_observator.Text.{is_empty}
use agent_runtime_observator.Outcome.{ok, ◌>>=◌}
use agent_runtime_observator.Json.{Value, str, obj, Fields, end, field}
use agent_runtime_observator.Json.Lookup.{
  field_get?, put_field, truthy, field_get?-put, field_get?-put_same,
}
use agent_runtime_observator.Clinic.Trajectory.{
  Conversions, public_dict, present, value_or, ToolCall, Turn, tool_call_keys, turn_keys,
  tool_call_to_dict, put_option, tool_call_value, turn_to_dict, content_or, tool_call_of_dict,
  tool_call_from_value, tool_call_from_dict, turn_from_dict,
}

-- `str` of a text is the text, and `dict` of a dict is the dict.
pub record ConvertsSame (py : Conversions) : Type 1 where
  pub text : (s : String) → py.python_str (str s) ≡ s
  pub dict : (fields : Fields) → py.python_dict (obj fields) ≡ ok fields

-- The metadata holds none of the keys that the dict's owner writes.
abbrev pub HasNone : List String → Fields → Type 0
HasNone known fields = public_dict known fields ≡ fields

public_dict-put :
    (known : List String) (k : String) (v : Value) (fs : Fields)
    → contains known k ≡ true
    → public_dict known (put_field k v fs) ≡ public_dict known fs
unfolding public_dict put_field
public_dict-put known k v end h = rw h refl
public_dict-put known k v (field j w fs) h = elim (Bool-cases (str_eq j k)) [
  | inl e ↦
      let also : contains known j ≡ true = ap (contains known) ((eq_iff j k).0 e) ∙ h in
      rw (e, also) refl
  | inr e ↦
      rw e
        (ap (λ fs. if contains known j then fs else field j w fs) (public_dict-put known k v fs h))
]

-- A known key that the metadata lacks.
public_dict-none :
    (known : List String) (k : String) (fs : Fields)
    → contains known k ≡ true
    → field_get? k (public_dict known fs) ≡ none
unfolding public_dict field_get?
public_dict-none known k end h = refl
public_dict-none known k (field j w fs) h =
    ground (arith, h, eq_iff j k, public_dict-none known k fs h)

HasNone-none :
    (known : List String) (k : String) (fs : Fields)
    → contains known k ≡ true
    → HasNone known fs
    → field_get? k fs ≡ none
HasNone-none known k fs h clean = ap (field_get? k) (sym clean) ∙ public_dict-none known k fs h

truthy-put : (k : String) (v : Value) (fs : Fields) → truthy (obj (put_field k v fs)) ≡ true
unfolding truthy put_field
truthy-put k v end = refl
truthy-put k v (field j w fs) = ground (arith)

-- What a turn or a tool call writes is read back under its own key.
public_dict-put_option :
    (known : List String) (k : String) (v : Option Value) (fs : Fields)
    → contains known k ≡ true
    → public_dict known (put_option k v fs) ≡ public_dict known fs
unfolding put_option
public_dict-put_option known k none fs h = refl
public_dict-put_option known k (some v) fs h = public_dict-put known k v fs h

field_get?-put_option :
    (k j : String) (v : Option Value) (fs : Fields)
    → str_eq j k ≡ false
    → field_get? k (put_option j v fs) ≡ field_get? k fs
unfolding put_option
field_get?-put_option k j none fs h = refl
field_get?-put_option k j (some v) fs h = field_get?-put k j v fs h

field_get?-put_option_same :
    (k : String) (v : Option Value) (fs : Fields)
    → field_get? k fs ≡ none
    → field_get? k (put_option k v fs) ≡ v
unfolding put_option
field_get?-put_option_same k none fs h = h
field_get?-put_option_same k (some v) fs h = field_get?-put_same k v fs

-- The default of an empty value is the empty value of its kind.
value_or-text : (s : String) → value_or (str "") (some (str s)) ≡ str s
unfolding value_or truthy is_empty
value_or-text Prim.Native.String.[] = refl
value_or-text (Prim.Native.String.◌∷◌ _ _) = refl

value_or-dict : (fs : Fields) → value_or (obj end) (some (obj fs)) ≡ obj fs
unfolding value_or truthy
value_or-dict end = refl
value_or-dict (field k v fs) = refl

truthy-call : (call : ToolCall) → truthy (obj (tool_call_to_dict call)) ≡ true
unfolding tool_call_to_dict
truthy-call call =
    truthy-put "arguments" (obj call.arguments) (put_field "name" (str call.name) call.metadata)

-- The dict of a turn after its role, its content and its reasoning.
abbrev with_role : Turn → Fields
with_role turn = put_field "role" (str turn.role) turn.metadata

abbrev with_content : Turn → Fields
with_content turn = put_field "content" turn.content (with_role turn)

abbrev with_reasoning : Turn → Fields
with_reasoning turn = put_option "reasoning" turn.reasoning (with_content turn)

-- A key that is written after the role and the content, and is not in the metadata.
field_get?-with_content :
    (k : String) (turn : Turn)
    → contains turn_keys k ≡ true
    → str_eq "content" k ≡ false
    → str_eq "role" k ≡ false
    → HasNone turn_keys turn.metadata
    → field_get? k (with_content turn) ≡ none
field_get?-with_content k turn h content role clean =
    field_get?-put k "content" turn.content (with_role turn) content
    ∙ field_get?-put k "role" (str turn.role) turn.metadata role
    ∙ HasNone-none turn_keys k turn.metadata h clean

-- The other keys do not see the tool call and the reasoning.
field_get?-turn_to_dict :
    (k : String) (turn : Turn)
    → str_eq "tool_call" k ≡ false
    → str_eq "reasoning" k ≡ false
    → field_get? k (turn_to_dict turn) ≡ field_get? k (with_content turn)
unfolding turn_to_dict
field_get?-turn_to_dict k turn call reasoning =
    field_get?-put_option k "tool_call" (tool_call_value turn.tool_call) (with_reasoning turn) call
    ∙ field_get?-put_option k "reasoning" turn.reasoning (with_content turn) reasoning

turn_to_dict-role : (turn : Turn) → field_get? "role" (turn_to_dict turn) ≡ some (str turn.role)
turn_to_dict-role turn =
    field_get?-turn_to_dict "role" turn refl refl
    ∙ field_get?-put "role" "content" turn.content (with_role turn) refl
    ∙ field_get?-put_same "role" (str turn.role) turn.metadata

turn_to_dict-content : (turn : Turn) → field_get? "content" (turn_to_dict turn) ≡ some turn.content
turn_to_dict-content turn =
    field_get?-turn_to_dict "content" turn refl refl
    ∙ field_get?-put_same "content" turn.content (with_role turn)

turn_to_dict-reasoning :
    (turn : Turn)
    → HasNone turn_keys turn.metadata
    → field_get? "reasoning" (turn_to_dict turn) ≡ turn.reasoning
unfolding turn_to_dict
turn_to_dict-reasoning turn clean =
    field_get?-put_option "reasoning" "tool_call" (tool_call_value turn.tool_call)
      (with_reasoning turn) refl
    ∙ field_get?-put_option_same "reasoning" turn.reasoning (with_content turn)
        (field_get?-with_content "reasoning" turn refl refl refl clean)

turn_to_dict-tool_call :
    (turn : Turn)
    → HasNone turn_keys turn.metadata
    → field_get? "tool_call" (turn_to_dict turn) ≡ tool_call_value turn.tool_call
unfolding turn_to_dict
turn_to_dict-tool_call turn clean =
    field_get?-put_option_same "tool_call" (tool_call_value turn.tool_call) (with_reasoning turn) (
      field_get?-put_option "tool_call" "reasoning" turn.reasoning (with_content turn) refl
      ∙ field_get?-with_content "tool_call" turn refl refl refl clean)

turn_to_dict-metadata :
    (turn : Turn)
    → HasNone turn_keys turn.metadata
    → public_dict turn_keys (turn_to_dict turn) ≡ turn.metadata
unfolding turn_to_dict
turn_to_dict-metadata turn clean =
    public_dict-put_option turn_keys "tool_call" (tool_call_value turn.tool_call)
      (with_reasoning turn) refl
    ∙ public_dict-put_option turn_keys "reasoning" turn.reasoning (with_content turn) refl
    ∙ public_dict-put turn_keys "content" turn.content (with_role turn) refl
    ∙ public_dict-put turn_keys "role" (str turn.role) turn.metadata refl
    ∙ clean

-- The metadata of a tool call, if there is one, holds no key of it.
unfoldable pub CallHasNone : Option ToolCall → Type 0
CallHasNone none = Unit
CallHasNone (some call) = HasNone tool_call_keys call.metadata

module _ (py : Conversions) (same : ConvertsSame py) where
  tool_call_of_dict-to_dict :
      (call : ToolCall)
      → HasNone tool_call_keys call.metadata
      → tool_call_of_dict py (tool_call_to_dict call) ≡ ok call
  unfolding tool_call_of_dict tool_call_to_dict
  tool_call_of_dict-to_dict call clean =
      rw
        (
          field_get?-put_same "arguments" (obj call.arguments)
              (put_field "name" (str call.name) call.metadata),
          field_get?-put "name" "arguments" (obj call.arguments)
              (put_field "name" (str call.name) call.metadata) refl,
          field_get?-put_same "name" (str call.name) call.metadata,
          value_or-dict call.arguments,
          value_or-text call.name,
          same.dict call.arguments,
          same.text call.name,
          public_dict-put tool_call_keys "arguments" (obj call.arguments)
              (put_field "name" (str call.name) call.metadata) refl,
          public_dict-put tool_call_keys "name" (str call.name) call.metadata refl,
          clean,
        )
        refl

  tool_call_from_dict-dict :
      (row : Fields)
      → truthy (obj row) ≡ true
      → tool_call_from_dict py (some (obj row))
        ≡ (tool_call_of_dict py row >>= λ call. ok (some call))
  unfolding tool_call_from_dict tool_call_from_value
  tool_call_from_dict-dict row h = rw (tool_call_from_dict, h) refl

  tool_call_from_dict-value :
      (call : Option ToolCall)
      → CallHasNone call
      → tool_call_from_dict py (tool_call_value call) ≡ ok call
  unfolding tool_call_from_dict tool_call_value CallHasNone
  tool_call_from_dict-value none clean = refl
  tool_call_from_dict-value (some call) clean =
      tool_call_from_dict-dict (tool_call_to_dict call) (truthy-call call)
      ∙ ap (λ read. read >>= λ call. ok (some call)) (tool_call_of_dict-to_dict call clean)

  -- A turn that is written is read back, if its metadata and that of its tool call hold no key of their
  -- owner and its reasoning is not a null.
  pub turn_from_dict-turn_to_dict :
      (turn : Turn)
      → HasNone turn_keys turn.metadata
      → CallHasNone turn.tool_call
      → present turn.reasoning ≡ turn.reasoning
      → turn_from_dict py (turn_to_dict turn) ≡ ok turn
  unfolding turn_from_dict content_or
  turn_from_dict-turn_to_dict turn clean call_clean reason =
      rw
        (
          turn_to_dict-tool_call turn clean,
          tool_call_from_dict-value turn.tool_call call_clean,
          turn_to_dict-role turn,
          value_or-text turn.role,
          same.text turn.role,
          turn_to_dict-content turn,
          turn_to_dict-reasoning turn clean,
          reason,
          turn_to_dict-metadata turn clean,
        )
        refl
