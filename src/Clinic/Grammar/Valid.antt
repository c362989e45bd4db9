-- ===== src/Clinic/Grammar/Valid.antt =====
-- Proofs about packages/clinic/src/wutai_clinic/engine/grammar_gate.py: which responses take the tool
-- route.
use Prim.Native.String.{[] as nil_text, ◌∷◌ as cons_text}
use mathlib.Core.Path.{subst}
use mathlib.Core.Option.{some_inj}
use agent_runtime_observator.Prelude.{
  ◌≡◌, refl, sym, ap, ◌∙◌, ◌↔◌, inl, inr, true, String, Option, none, some, List, [], ◌∷◌, ◌++◌,
  All, contains, is_some, arith, str_eq, eq_iff, Bool-cases, Option-cases,
}
use agent_runtime_observator.Text.{strip, is_empty}
use agent_runtime_observator.Json.{Fields}
use agent_runtime_observator.Json.Lookup.{field_get?}
use agent_runtime_observator.Clinic.Grammar.{
  canonical_tools, as_text, as_object, type_errors, name_errors, required_of, missing_args,
  argument_errors, validate_tool_call, no_errors, Loaded, parse_tool_call, is_canonical_tool_json,
  classify_route,
}

-- A tool call: its type, a known name, and arguments that hold all that the name needs.
abbrev pub IsToolCall : Fields → Type 0
IsToolCall fields =
    (name : String) × (arguments : Fields) × (as_text (field_get? "type" fields) ≡ some "tool_call")
    × (as_text (field_get? "name" fields) ≡ some name)
    × (contains canonical_tools name ≡ true)
    × (as_object (field_get? "arguments" fields) ≡ some arguments)
    × All (λ k. is_some (field_get? k arguments) ≡ true) (required_of (some name))

abbrev IsClear : List String → Type 0
IsClear errors = no_errors errors ≡ true

IsClear-append : (xs ys : List String) → IsClear (xs ++ ys) ↔ (IsClear xs × IsClear ys)
unfolding no_errors
IsClear-append [] ys = (λ h. (refl, h), λ h. h.1)
IsClear-append (x ∷ xs) ys = (λ h. cc, λ h. cc)

type_errors-IsClear : (o : Option String) → IsClear (type_errors o) ↔ (o ≡ some "tool_call")
unfolding type_errors no_errors
type_errors-IsClear none = (λ h. cc, λ h. cc)
type_errors-IsClear (some s) = (
  λ h. ap some ((eq_iff s "tool_call").0 (ground (arith, h))),
  λ h. ground (arith, h, (eq_iff s "tool_call")),
)

name_errors-IsClear :
    (o : Option String)
    → IsClear (name_errors o)
      ↔ ((name : String) × (o ≡ some name) × (contains canonical_tools name ≡ true))
unfolding name_errors no_errors is_empty
name_errors-IsClear none = (λ h. cc, λ h. cc)
name_errors-IsClear (some nil_text) =
    (λ h. cc, λ (name, same, known). cc (ap (contains canonical_tools) (some_inj.0 same) ∙ known))
name_errors-IsClear (some (cons_text c s)) =
    let text = cons_text c s in
    elim (Bool-cases (contains canonical_tools text)) [
      | inl e ↦ (λ h. (text, refl, e), λ h. rw e refl)
      | inr e ↦ (
        λ h. cc (rw e at h),
        λ (name, same, known). cc (sym e ∙ ap (contains canonical_tools) (some_inj.0 same) ∙ known),
      )
    ]

missing_args-IsClear :
    (arguments : Fields) (names : List String)
    → IsClear (missing_args arguments names)
      ↔ All (λ k. is_some (field_get? k arguments) ≡ true) names
unfolding missing_args no_errors
missing_args-IsClear arguments [] = (λ h. tt, λ h. refl)
missing_args-IsClear arguments (k ∷ names) =
    let rest = missing_args-IsClear arguments names in
    (
      λ h. elim (Bool-cases (is_some (field_get? k arguments))) [
        | inl e ↦ (e, rest.0 (rw e at h))
        | inr e ↦ cc (rw e at h)
      ],
      λ (e, all). rw e (rest.1 all),
    )

argument_errors-IsClear :
    (required : List String) (o : Option Fields)
    → IsClear (argument_errors required o) ↔ (
        (arguments : Fields) × (o ≡ some arguments)
        × All (λ k. is_some (field_get? k arguments) ≡ true) required)
unfolding argument_errors no_errors
argument_errors-IsClear required none = (λ h. cc, λ h. cc)
argument_errors-IsClear required (some arguments) =
    let iff = missing_args-IsClear arguments required in
    (
      λ h. (arguments, refl, iff.0 h),
      λ (found, same, all). iff.1 (
          subst (λ a. All (λ k. is_some (field_get? k a) ≡ true) required) (sym (some_inj.0 same))
            all),
    )

validate_tool_call-IsToolCall :
    (fields : Fields) → IsClear (validate_tool_call fields none) ↔ IsToolCall fields
unfolding validate_tool_call
validate_tool_call-IsToolCall fields =
    let type = as_text (field_get? "type" fields) in
    let name = as_text (field_get? "name" fields) in
    let arguments = as_object (field_get? "arguments" fields) in
    let missing = argument_errors-IsClear (required_of name) arguments in
    let types =
      IsClear-append (type_errors type ++ name_errors name)
        (argument_errors (required_of name) arguments) in
    let names = IsClear-append (type_errors type) (name_errors name) in
    (
      λ h.
          let (front, args) = types.0 h in
          let (right_type, right_name) = names.0 front in
          let (n, is, known) = (name_errors-IsClear name).0 right_name in
          let (found, object, all) = missing.0 args in
          (
            n,
            found,
            (type_errors-IsClear type).0 right_type,
            is,
            known,
            object,
            subst (λ o. All (λ k. is_some (field_get? k found) ≡ true) (required_of o)) is all,
          ),
      λ (n, found, right_type, is, known, object, all). types.1 (
        names.1
            ((type_errors-IsClear type).1 right_type, (name_errors-IsClear name).1 (n, is, known)),
        missing.1 (
          found,
          object,
          subst (λ o. All (λ k. is_some (field_get? k found) ≡ true) (required_of o)) (sym is) all,
        ),
      ),
    )

module _ (json_loads : String → Loaded) (text : String) where
  abbrev IsCall : Type 0
  IsCall =
      (fields : Fields) × ((parse_tool_call json_loads text).call ≡ some fields) × IsToolCall fields

  is_canonical_iff : (is_canonical_tool_json json_loads text ≡ true) ↔ IsCall
  unfolding is_canonical_tool_json
  is_canonical_iff = elim (Option-cases (parse_tool_call json_loads text).call) [
    | inl e ↦
        (λ h. cc (rw (e, is_canonical_tool_json) at h), λ (fields, call, is). cc (sym e ∙ call))
    | inr (fields, e) ↦
        let iff = validate_tool_call-IsToolCall fields in
        (
          λ h. (fields, e, iff.0 (rw (e, is_canonical_tool_json) at h)),
          λ (found, call, is).
              rw (e, is_canonical_tool_json)
                (iff.1 (subst IsToolCall (some_inj.0 (sym call ∙ e)) is)),
        )
  ]

-- A response takes the tool route exactly if an object is parsed out of it that is a tool call: its
-- type, a known name, and an object of arguments with all that the name needs.
pub classify_route_iff :
    (json_loads : String → Loaded) (response : String)
    → (classify_route json_loads response ≡ "tool") ↔ (
        (fields : Fields) × ((parse_tool_call json_loads (strip response)).call ≡ some fields)
        × IsToolCall fields)
unfolding classify_route
classify_route_iff json_loads response =
    let iff = is_canonical_iff json_loads (strip response) in
    (
      λ h. elim (Bool-cases (is_canonical_tool_json json_loads (strip response))) [
        | inl e ↦ iff.0 e
        | inr e ↦ elim (Bool-cases (parse_tool_call json_loads (strip response)).looks_like) [
          | inl l ↦ cc (ap (λ t. str_eq t "tool") (rw (e, l, classify_route) at h))
          | inr l ↦ cc (ap (λ t. str_eq t "tool") (rw (e, l, classify_route) at h))
        ]
      ],
      λ h. rw (iff.1 h, classify_route) refl,
    )
