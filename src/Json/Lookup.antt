-- ===== src/Json/Lookup.antt =====
-- Reading a `dict[str, Any]`, and a value as a condition.
use agent_runtime_observator.Prelude.{
  ◌≡◌, arith, eq_iff, str_eq_refl, Bool, true, false, not, ◌||◌, ◌==◌, String, Option, none, some,
  str_eq, if◌then◌else◌,
}
use agent_runtime_observator.Text.{is_empty}
use agent_runtime_observator.Json.{
  pos, negsuc, Value, null, bool, int, float, str, arr, obj, nil, item, Fields, field, end,
}

-- `args.get(k)`
unfoldable pub field_get? : String → Fields → Option Value
field_get? k end = none
field_get? k (field j v fs) = let rest = field_get? k fs in if str_eq j k then some v else rest

-- `bool(value)`; a float of zero prints as one of two texts.
unfoldable pub truthy : Value → Bool
unfolding is_empty
truthy null = false
truthy (bool b) = b
truthy (int (pos n)) = not (n == 0)
truthy (int (negsuc n)) = true
truthy (float t) = not (str_eq t "0.0" || str_eq t "-0.0")
truthy (str s) = not (is_empty s)
truthy (arr nil) = false
truthy (arr (item _ _)) = true
truthy (obj end) = false
truthy (obj (field _ _ _)) = true

unfoldable pub truthy_option : Option Value → Bool
unfolding truthy
truthy_option none = false
truthy_option (some v) = truthy v

-- `d[k] = v`: a key that is there keeps its place.
unfoldable pub put_field : String → Value → Fields → Fields
put_field k v end = field k v end
put_field k v (field j w fs) =
    let rest = put_field k v fs in if str_eq j k then field j v fs else field j w rest

pub field_get?-put :
    (k j : String) (v : Value) (turn : Fields)
    → str_eq j k ≡ false
    → field_get? k (put_field j v turn) ≡ field_get? k turn
unfolding field_get? put_field
field_get?-put k j v end h = ground (arith, h)
field_get?-put k j v (field i w fs) h =
    ground (arith, h, eq_iff i j, eq_iff i k, eq_iff j k, field_get?-put k j v fs h)

pub field_get?-put_same :
    (k : String) (v : Value) (fs : Fields) → field_get? k (put_field k v fs) ≡ some v
unfolding field_get? put_field
field_get?-put_same k v end = ground (arith, str_eq_refl k)
field_get?-put_same k v (field i w fs) = ground (arith, field_get?-put_same k v fs)
