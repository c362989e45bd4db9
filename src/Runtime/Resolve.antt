-- ===== src/Runtime/Resolve.antt =====
-- `_resolve_args` of packages/runtime/aro_runtime/executor.py: references to the outputs of earlier
-- steps, `${step:N.output}`, are replaced in every text of the arguments.
use Prim.Native.String
use Prim.Native.String.{[] as nil_text, ◌∷◌ as cons_text}
use agent_runtime_observator.Prelude.{
  ℕ, zero, suc, ◌+◌, ◌*◌, ◌-◌, Char, String, Option, none, some, List, get_elem?,
}
use agent_runtime_observator.Text.{◌⁀◌, strip_prefix?}
use agent_runtime_observator.Text.Decimal.{show_nat}
use agent_runtime_observator.Outcome.{Outcome, ok, tool_error, ◌>>=◌}
use agent_runtime_observator.Platform.{Platform}
use agent_runtime_observator.Json.{
  Value, null, bool, int, float, str, arr, obj, Items, nil, item, Fields, end, field,
}

no_output : ℕ → Outcome String
no_output n = tool_error ("step " ⁀ show_nat n ⁀ " has no output to reference")

-- `outputs[idx]`, where the index must be in range and the output must be there
output_at : List (Option String) → ℕ → Outcome String
unfolding no_output
output_at outputs n = elim (get_elem? outputs n) [
  | none ↦ no_output n
  | some o ↦ elim o [ none ↦ no_output n | some text ↦ ok text ]
]

module _ (platform : Platform) where
  -- The rest of a reference, behind at least one digit.
  ref_from : ℕ → String → Option (ℕ × String)
  ref_from acc nil_text = none
  ref_from acc (cons_text c s) = elim (platform.decimal_value c) [
    | some d ↦ ref_from (acc * 10 + d) s
    | none ↦ elim (strip_prefix? ".output}" (cons_text c s)) [
      | none ↦ none
      | some rest ↦ some (acc, rest)
    ]
  ]

  ref_digits : String → Option (ℕ × String)
  unfolding ref_from
  ref_digits nil_text = none
  ref_digits (cons_text c s) = elim (platform.decimal_value c) [
    | some d ↦ ref_from d s
    | none ↦ none
  ]

  -- `_STEP_REF` at the start of a text: the index, and the text behind the reference.
  match_ref : String → Option (ℕ × String)
  unfolding ref_digits strip_prefix?
  match_ref s = elim (strip_prefix? "${step:" s) [ none ↦ none | some rest ↦ ref_digits rest ]

  -- What stands at a position in the result; `skip` characters still belong to a reference.
  piece : List (Option String) → ℕ → Option (ℕ × String) → Char → Outcome String
  unfolding output_at
  piece outputs (suc skip) found c = ok ""
  piece outputs zero none c = ok (cons_text c nil_text)
  piece outputs zero (some (n, rest)) c = output_at outputs n

  skip_next : ℕ → Option (ℕ × String) → String → ℕ
  skip_next (suc skip) found s = skip
  skip_next zero none s = 0
  skip_next zero (some (n, rest)) s = String.count s - String.count rest

  -- `_STEP_REF.sub`
  resolve_from : List (Option String) → ℕ → String → Outcome String
  unfolding match_ref piece skip_next
  resolve_from outputs skip nil_text = ok nil_text
  resolve_from outputs skip (cons_text c s) =
      let found = match_ref (cons_text c s) in
      let rest = resolve_from outputs (skip_next skip found s) s in
      do head ← piece outputs skip found c; tail ← rest; ok (head ⁀ tail)

  unfoldable pub resolve_text : List (Option String) → String → Outcome String
  unfolding resolve_from
  resolve_text outputs s = resolve_from outputs 0 s

  mutual
    unfolding resolve_text

    resolve : List (Option String) → Value → Outcome Value
    resolve outputs (str s) = do t ← resolve_text outputs s; ok (str t)
    resolve outputs (obj fs) = do gs ← resolve_fields outputs fs; ok (obj gs)
    resolve outputs (arr xs) = do ys ← resolve_items outputs xs; ok (arr ys)
    resolve outputs null = ok null
    resolve outputs (bool b) = ok (bool b)
    resolve outputs (int n) = ok (int n)
    resolve outputs (float t) = ok (float t)

    resolve_items : List (Option String) → Items → Outcome Items
    resolve_items outputs nil = ok nil
    resolve_items outputs (item v xs) = do
      w ← resolve outputs v
      ys ← resolve_items outputs xs
      ok (item w ys)

    resolve_fields : List (Option String) → Fields → Outcome Fields
    resolve_fields outputs end = ok end
    resolve_fields outputs (field k v fs) = do
      w ← resolve outputs v
      gs ← resolve_fields outputs fs
      ok (field k w gs)

  unfoldable pub resolve_args : Fields → List (Option String) → Outcome Fields
  unfolding resolve resolve_items resolve_fields
  resolve_args args outputs = resolve_fields outputs args
