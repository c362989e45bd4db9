-- ===== src/Prelude/Dict.antt =====
-- Python's dicts with text keys, as lists of entries in insertion order.
use Prim.Native.String.{String}
use mathlib.Core.Path.{◌≡◌}
use mathlib.Core.Bool.{false}
use mathlib.Core.Option.{Option, none, some}
use mathlib.Core.List.{List, [], ◌∷◌}
use native.Mathlib.Omega.{arith}
use text.Mathlib.TextEquality.{eq_iff}
use agent_runtime_observator.Prelude.Tests.{str_eq, str_eq_refl, if◌then◌else◌}

module _ {ℓ} {A : Type ℓ} where
  -- `d.get(k)`
  abbrev pub dict_get? : String → List (String × A) → Option A
  dict_get? k [] = none
  dict_get? k ((j, a) ∷ d) = let rest = dict_get? k d in if str_eq j k then some a else rest

  -- `d[k] = a`: a key that is there keeps its place.
  abbrev pub dict_put : String → A → List (String × A) → List (String × A)
  dict_put k a [] = (k, a) ∷ []
  dict_put k a ((j, b) ∷ d) =
      let rest = dict_put k a d in if str_eq j k then (j, a) ∷ d else (j, b) ∷ rest

  pub get-put_same :
      (k : String) (a : A) (d : List (String × A)) → dict_get? k (dict_put k a d) ≡ some a
  get-put_same k a [] = ground (arith, str_eq_refl k)
  get-put_same k a ((j, b) ∷ d) = ground (arith, get-put_same k a d)

  pub get-put_other :
      (k i : String) (a : A) (d : List (String × A))
      → str_eq k i ≡ false
      → dict_get? i (dict_put k a d) ≡ dict_get? i d
  get-put_other k i a [] h = ground (arith, h)
  get-put_other k i a ((j, b) ∷ d) h =
      ground (arith, h, eq_iff j k, eq_iff j i, eq_iff k i, get-put_other k i a d h)
