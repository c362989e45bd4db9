-- ===== src/Clinic/Registry.antt =====
-- packages/clinic/src/wutai_clinic/evidence/registry.py: the standard gates over a context. The files,
-- `str` and `int` of a value, and the search of a compiled pattern are parameters.
pub mod Payload
use agent_runtime_observator.Prelude.{
  ℕ, Bool, true, false, not, ◌&&◌, ◌||◌, String, Option, none, some, List, [], ◌∷◌, any, contains,
  is_none, str_eq, ◌==◌, dict_get?, dict_put, if◌then◌else◌,
}
use agent_runtime_observator.Text.{is_empty}
use agent_runtime_observator.Outcome.{Outcome, ok, or_key_error, ◌>>=◌}
use agent_runtime_observator.Json.{
  ℤ, pos, negsuc, Value, null, bool, int, float, str, arr, obj, Items, nil, item, Fields, end,
  field,
}
use agent_runtime_observator.Json.Lookup.{field_get?, truthy_option}
use agent_runtime_observator.Clinic.Chain.{Disk}

abbrev pub raw_payload_keys : List String
raw_payload_keys =
    "action" ∷ "content" ∷ "gated_response" ∷ "history" ∷ "messages" ∷ "observation" ∷ "prompt"
    ∷ "query" ∷ "raw_response" ∷ "response" ∷ "system_prompt" ∷ "thought" ∷ "trajectory" ∷ []

abbrev pub secret_patterns : List String
secret_patterns =
    "(?<![A-Za-z0-9_])sk-[A-Za-z0-9_-]{16,}"
    ∷ "(?i)(api[_-]?key|token|secret)\\s*[:=]\\s*[A-Za-z0-9_.-]{8,}" ∷ []

-- `RAW_PAYLOAD_KEYS.intersection(value)` as a truth value
unfoldable pub has_raw_key : Fields → Bool
has_raw_key end = false
has_raw_key (field k v fs) = contains raw_payload_keys k || has_raw_key fs

unfoldable mutual
  unfolding has_raw_key

  pub contains_raw_payload : Value → Bool
  contains_raw_payload null = false
  contains_raw_payload (bool b) = false
  contains_raw_payload (int n) = false
  contains_raw_payload (float t) = false
  contains_raw_payload (str s) = false
  contains_raw_payload (arr xs) = raw_in_items xs
  contains_raw_payload (obj fs) = has_raw_key fs || raw_in_fields fs

  pub raw_in_items : Items → Bool
  raw_in_items nil = false
  raw_in_items (item v xs) = contains_raw_payload v || raw_in_items xs

  pub raw_in_fields : Fields → Bool
  raw_in_fields end = false
  raw_in_fields (field k v fs) = contains_raw_payload v || raw_in_fields fs

-- `pattern.search(value)` as a truth value, for a compiled pattern and a text.
module _ (searches : String → String → Bool) where
  unfoldable mutual
    pub contains_secret_literal : Value → Bool
    contains_secret_literal null = false
    contains_secret_literal (bool b) = false
    contains_secret_literal (int n) = false
    contains_secret_literal (float t) = false
    contains_secret_literal (str s) = any (λ pattern. searches pattern s) secret_patterns
    contains_secret_literal (arr xs) = secret_in_items xs
    contains_secret_literal (obj fs) = secret_in_fields fs

    pub secret_in_items : Items → Bool
    secret_in_items nil = false
    secret_in_items (item v xs) = contains_secret_literal v || secret_in_items xs

    pub secret_in_fields : Fields → Bool
    secret_in_fields end = false
    secret_in_fields (field k v fs) = contains_secret_literal v || secret_in_fields fs

  unfoldable pub no_secret_literal : Fields → Bool
  unfolding contains_secret_literal
  no_secret_literal context = not (contains_secret_literal (obj context))

unfoldable pub no_raw_payload : Fields → Bool
unfolding contains_raw_payload
no_raw_payload context = not (contains_raw_payload (obj context))

unfoldable pub decision_boundary : Fields → Bool
unfolding truthy_option
decision_boundary context =
    truthy_option (field_get? "claim_boundary" context)
    || truthy_option (field_get? "decision" context)

-- `str(context.get(k, ""))`
unfoldable pub text_at : (Value → String) → String → Fields → String
text_at python_str k context = elim (field_get? k context) [ none ↦ "" | some v ↦ python_str v ]

unfoldable pub sha256_match : (Value → String) → Disk → Fields → Outcome Bool
unfolding text_at is_empty
sha256_match python_str disk context =
    let path = text_at python_str "path" context in
    let expected = text_at python_str "sha256" context in
    elim (not (disk.exists path) || is_empty expected) [
      | true ↦ ok false
      | false ↦ disk.file_digest path >>= λ digest. ok (str_eq digest expected)
    ]

unfoldable pub same_int : ℤ → ℤ → Bool
same_int (pos m) (pos n) = m == n
same_int (negsuc m) (negsuc n) = m == n
same_int _ _ = false

-- The value is there and is not None.
unfoldable pub given : Option Value → Option Value
given (some null) = none
given o = o

unfoldable pub count_match : (Value → Outcome ℤ) → Fields → Outcome Bool
unfolding given same_int
count_match python_int context = elim (given (field_get? "expected_count" context)) [
  | none ↦ ok false
  | some expected ↦ elim (given (field_get? "actual_count" context)) [
    | none ↦ ok false
    | some actual ↦ python_int expected >>= λ e. python_int actual >>= λ a. ok (same_int e a)
  ]
]

abbrev pub GateFunction : Type 0
GateFunction = Fields → Outcome Bool

abbrev pub Registry : Type 0
Registry = List (String × GateFunction)

module _ (searches : String → String → Bool) (python_str : Value → String)
    (python_int : Value → Outcome ℤ) (disk : Disk) where
  unfoldable pub standard_gates : Registry
  unfolding no_raw_payload no_secret_literal sha256_match count_match decision_boundary
  standard_gates =
      ("no_raw_payload", λ context. ok (no_raw_payload context))
      ∷ ("no_secret_literal", λ context. ok (no_secret_literal searches context))
      ∷ ("sha256_match", sha256_match python_str disk)
      ∷ ("count_match", count_match python_int)
      ∷ ("decision_boundary", λ context. ok (decision_boundary context))
      ∷ []

unfoldable pub get_gate : String → Registry → Outcome GateFunction
get_gate name gates = or_key_error name (dict_get? name gates)

unfoldable pub register_gate : String → GateFunction → Registry → Registry
register_gate name gate gates = dict_put name gate gates
