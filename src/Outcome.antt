-- ===== src/Outcome.antt =====
-- Python's control flow as values: a call returns, raises `ToolError` (which the run loop
-- handles), or raises anything else (which it lets through).
use agent_runtime_observator.Prelude.{String, ◌≡◌, refl, Option, none, some}

-- The exceptions other than `ToolError` that the modelled code can raise.
pub data Fault : Type 0 where
  key_error : String → Fault
  value_error : String → Fault
  -- a `ToolError` where nothing catches it
  uncaught : String → Fault
  -- a pydantic ValidationError
  validation_error : Fault
  attribute_error type_error regex_error recursion_error : Fault

pub data Outcome {ℓ} (A : Type ℓ) : Type ℓ where
  ok : A → Outcome A
  tool_error : String → Outcome A
  fault : Fault → Outcome A

-- What raises an exception ends the sequence with it.
abbrev pub ◌>>=◌ {μ ν} : {X : Type μ} {Y : Type ν} → Outcome X → (X → Outcome Y) → Outcome Y
fault raised >>= _ = fault raised
tool_error message >>= _ = tool_error message
ok value >>= next = next value

infixl 5 ◌>>=◌
-- `d[k]`, where `k` names the key in the KeyError.
abbrev pub or_key_error {ℓ} : {A : Type ℓ} → String → Option A → Outcome A
or_key_error k none = fault (key_error k)
or_key_error k (some a) = ok a

-- A sequence returns only if its parts do.
pub >>=-eq-ok {μ ν} :
    {X : Type μ} {Y : Type ν} (first : Outcome X) (next : X → Outcome Y) {result : Y}
    → first >>= next ≡ ok result
    → (x : X) × (first ≡ ok x) × (next x ≡ ok result)
>>=-eq-ok (fault raised) next same = cc
>>=-eq-ok (tool_error message) next same = cc
>>=-eq-ok (ok x) next same = (x, refl, same)

pub ok_inj {ℓ} : {A : Type ℓ} {a b : A} → ok a ≡ ok b → a ≡ b
ok_inj h = cc

pub bind_ok {ℓ} : {A : Type ℓ} (m : Outcome A) → (m >>= λ a. ok a) ≡ m
bind_ok (ok a) = refl
bind_ok (tool_error m) = refl
bind_ok (fault e) = refl

-- A step that agrees behind every result agrees behind the sequence.
pub bind_assoc {ℓ κ μ} :
    {A : Type ℓ} {B : Type κ} {C : Type μ} (m : Outcome A) (f : A → Outcome B) (g : B → Outcome C)
    (h : A → Outcome C)
    → ((a : A) → h a ≡ (f a >>= g))
    → (m >>= h) ≡ (m >>= f >>= g)
bind_assoc (ok a) f g h e = e a
bind_assoc (tool_error m) f g h e = refl
bind_assoc (fault x) f g h e = refl
