-- ===== src/Json.antt =====
-- JSON values, the canonical text and the digests of packages/schema/aro_schema/digests.py.
pub mod Lookup
pub mod Escape
pub mod Injective
pub mod Keyed
use Prim.Native.String.{[] as nil_text, ◌∷◌ as cons_text}
use agent_runtime_observator.Prelude.{
  ℕ, zero, suc, ◌+◌, ◌-◌, ◌%◌, Bool, true, false, code, Char, String, List, [], ◌∷◌, map, ltb, ◌==◌,
  if◌then◌else◌,
}
use agent_runtime_observator.Text.{◌⁀◌, join, text_le}
use agent_runtime_observator.Text.Decimal.{show_nat}
use agent_runtime_observator.Platform.{Platform}

-- `negsuc n` is -(n + 1).
pub data ℤ : Type 0 where
  pos : ℕ → ℤ
  negsuc : ℕ → ℤ

-- The values of `dict[str, Any]` that JSON can hold. A float is the text that Python prints for it.
mutual
  pub data Value : Type 0 where
    null : Value
    bool : Bool → Value
    int : ℤ → Value
    float : String → Value
    str : String → Value
    arr : Items → Value
    obj : Fields → Value

  pub data Items : Type 0 where
    nil : Items
    item : Value → Items → Items

  pub data Fields : Type 0 where
    end : Fields
    field : String → Value → Fields → Fields

unfoldable pub show_int : ℤ → String
show_int (pos n) = show_nat n
show_int (negsuc n) = "-" ⁀ show_nat (suc n)

hex_digit : ℕ → String
hex_digit n = if ltb n 10 then show_nat n else cons_text (hex_letter (n - 10)) nil_text
  where
    hex_letter : ℕ → Char
    hex_letter zero = "a"
    hex_letter (suc zero) = "b"
    hex_letter (suc (suc zero)) = "c"
    hex_letter (suc (suc (suc zero))) = "d"
    hex_letter (suc (suc (suc (suc zero)))) = "e"
    hex_letter _ = "f"

-- `json.dumps` with `ensure_ascii=False` escapes the quote, the backslash and control characters.
escape_char : Char → String
unfolding hex_digit show_nat
escape_char c =
    let n = code c in
    if n == 34
    then "\\\""
    else if n == 92
    then "\\\\"
    else if n == 10
    then "\\n"
    else if n == 13
    then "\\r"
    else if n == 9
    then "\\t"
    else if n == 8
    then "\\b"
    else if n == 12
    then "\\f"
    else if ltb n 16
    then "\\u000" ⁀ hex_digit n
    else if ltb n 32
    then "\\u001" ⁀ hex_digit (n - 16)
    else cons_text c nil_text

escape : String → String
unfolding escape_char
escape nil_text = nil_text
escape (cons_text c s) = escape_char c ⁀ escape s

pub quote : String → String
unfolding escape
quote s = "\"" ⁀ escape s ⁀ "\""

-- The pairs of an object in the order of their keys, which `sort_keys=True` asks for.
insert_pair : String × String → List (String × String) → List (String × String)
insert_pair p [] = p ∷ []
insert_pair p (q ∷ qs) = if text_le p.0 q.0 then p ∷ q ∷ qs else q ∷ insert_pair p qs

sort_pairs : List (String × String) → List (String × String)
unfolding insert_pair
sort_pairs [] = []
sort_pairs (p ∷ ps) = insert_pair p (sort_pairs ps)

pair_text : String × String → String
unfolding quote
pair_text (k, v) = quote k ⁀ ":" ⁀ v

truth : Bool → String
truth true = "true"
truth false = "false"

mutual
  unfolding quote sort_pairs pair_text truth show_int join

  render : Value → String
  render null = "null"
  render (bool b) = truth b
  render (int n) = show_int n
  render (float t) = t
  render (str s) = quote s
  render (arr xs) = "[" ⁀ join "," (render_items xs) ⁀ "]"
  render (obj fs) = "{" ⁀ join "," (map pair_text (sort_pairs (render_fields fs))) ⁀ "}"

  render_items : Items → List String
  render_items nil = []
  render_items (item v xs) = render v ∷ render_items xs

  render_fields : Fields → List (String × String)
  render_fields end = []
  render_fields (field k v fs) = (k, render v) ∷ render_fields fs

unfoldable pub canonical_json : Value → String
unfolding render render_items render_fields
canonical_json v = render v

module _ (platform : Platform) where
  unfoldable pub digest_text : String → String
  digest_text s = "sha256:" ⁀ platform.sha256_hex s

  unfoldable pub digest_obj : Value → String
  digest_obj v = "sha256:" ⁀ platform.sha256_hex (canonical_json v)
