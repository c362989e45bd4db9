-- ===== src/Clinic/Pruner.antt =====
-- packages/clinic/src/wutai_clinic/engine/pruner.py: what a turn shows, how alike two turns are, and
-- how repetitive a window of turns is. A turn is a dict whose `tool_call`, if any, is a dict, as
-- `Turn.to_dict` writes it. Floating-point numbers, `json.dumps`, `str`, `str.lower`, MD5, the track
-- pattern and `SequenceMatcher` are an interface.
pub mod Segments
pub mod Policy
pub mod Hits
pub mod Kept
pub mod Best
use Prim.Native.String
use agent_runtime_observator.Prelude.{
  ℕ, zero, suc, ◌+◌, ◌-◌, Bool, true, false, not, ◌&&◌, ◌||◌, String, Option, none, some, List, [],
  ◌∷◌, any, is_some, keep, leb, ltb, ◌==◌, str_eq, length, dict_get?, dict_put, if◌then◌else◌,
}
use agent_runtime_observator.Text.{◌⁀◌, is_empty, strip, contains_text, take_text, join}
use agent_runtime_observator.Json.{
  Value, null, bool, int, float, str, arr, obj, Items, nil, item, Fields, end, field,
}
use agent_runtime_observator.Json.Lookup.{field_get?, truthy_option}

pub record Python : Type 1 where
  pub Float : Type 0
  pub zero : Float
  pub one : Float
  pub add : Float → Float → Float
  pub times : Float → Float → Float
  pub over : Float → Float → Float
  pub is_positive : Float → Bool
  pub at_least : Float → Float → Bool
  pub above : Float → Float → Bool
  -- the float that a decimal literal stands for, and the float of an integer
  pub literal : String → Float
  pub float_of : ℕ → Float
  pub log1p : Float → Float
  -- `math.exp(-d / BFT_F)`
  pub weight : ℕ → Float
  -- `BFT_MAX_CONFIDENCE`, and the threshold of the semantic kernel
  pub max_confidence : Float
  pub semantic_threshold : Float
  -- `json.dumps` with `ensure_ascii=False, sort_keys=True`, with `sort_keys=True`, and alone
  pub dumps_text : Value → String
  pub dumps_sorted : Value → String
  pub dumps : Value → String
  pub python_str : Value → String
  pub lower : String → String
  pub md5 : String → String
  -- `TRACK_REGEX.findall(text)`
  pub find_tracks : String → List (String × String)
  -- `SequenceMatcher(None, a, b).ratio()`
  pub ratio : String → String → Float

-- `turn.get(k, "")`
unfoldable pub value_at : String → Fields → Value
value_at k turn = elim (field_get? k turn) [ some v ↦ v | none ↦ str "" ]

-- The tool call of a turn, if it is there and not empty.
unfoldable pub tool_call_of : Fields → Option Fields
tool_call_of turn = elim (field_get? "tool_call" turn) [
  | some (obj end) ↦ none
  | some (obj (field k v fs)) ↦ some (field k v fs)
  | _ ↦ none
]

-- `tool.get("arguments", {})`
unfoldable pub arguments_of : Fields → Value
arguments_of tool = elim (field_get? "arguments" tool) [ some v ↦ v | none ↦ obj end ]

unfoldable pub some_track : List (String × String) → Bool
some_track [] = false
some_track (_ ∷ _) = true

-- Both have the track, at different positions.
unfoldable pub track_differs : List (String × String) → List (String × String) → String → Bool
track_differs t_a t_b name = elim (dict_get? name t_a) [
  | none ↦ false
  | some a ↦ elim (dict_get? name t_b) [ none ↦ false | some b ↦ not (str_eq a b) ]
]

-- `abs(i - j)`
unfoldable pub distance : ℕ → ℕ → ℕ
distance i j = (i - j) + (j - i)

module _ (py : Python) where
  -- The text of a dict, or of a list's item that is no text.
  unfoldable pub object_content : Fields → String
  unfolding field_get?
  object_content fields = elim (field_get? "text" fields) [
    | some v ↦ py.python_str v
    | none ↦ py.dumps_text (obj fields)
  ]

  unfoldable pub item_content : Value → String
  unfolding object_content
  item_content (str s) = s
  item_content (obj fields) = object_content fields
  item_content v = py.dumps_text v

  unfoldable pub item_contents : Items → List String
  unfolding item_content
  item_contents nil = []
  item_contents (item v xs) = item_content v ∷ item_contents xs

  unfoldable pub whole_content : Value → String
  unfolding object_content item_contents join is_empty
  whole_content null = ""
  whole_content (str s) = s
  whole_content (arr xs) = join "\n" (keep (λ part. not (is_empty part)) (item_contents xs))
  whole_content (obj fields) = object_content fields
  whole_content v = py.python_str v

  -- `stringify_content`
  unfoldable pub stringify_content : Option ℕ → Value → String
  unfolding whole_content take_text
  stringify_content none value = whole_content value
  stringify_content (some max_chars) value =
      let text = whole_content value in
      if ltb max_chars (String.count text)
      then take_text max_chars text ⁀ "\n[...truncated...]"
      else text

  unfoldable pub content_at : String → Fields → String
  unfolding value_at stringify_content
  content_at k turn = stringify_content none (value_at k turn)

  unfoldable pub signature_of : Value → String → Option Fields → String
  unfolding arguments_of value_at take_text is_empty
  signature_of role content (some tool) =
      py.python_str role
      ⁀ ":"
      ⁀ py.python_str (value_at "name" tool)
      ⁀ ":"
      ⁀ py.dumps_sorted (arguments_of tool)
  signature_of role content none =
      py.python_str role ⁀ ":none:" ⁀ (if is_empty content then "" else ":" ⁀ take_text 100 content)

  -- `sig_str`
  unfoldable pub signature_text : Fields → String
  unfolding signature_of tool_call_of value_at content_at
  signature_text turn =
      signature_of (value_at "role" turn) (content_at "content" turn) (tool_call_of turn)

  unfoldable pub get_pruner_state_signature : Fields → String
  unfolding signature_text
  get_pruner_state_signature turn = py.md5 (signature_text turn)

  unfoldable pub turn_has_reasoning : Fields → Bool
  unfolding content_at strip is_empty
  turn_has_reasoning turn = not (is_empty (strip (content_at "reasoning" turn)))

  -- `extract_text_and_tracks`: the text.
  unfoldable pub similarity_text : Fields → String
  unfolding tool_call_of arguments_of value_at content_at take_text
  similarity_text turn =
      let tool : Fields = elim (tool_call_of turn) [ some t ↦ t | none ↦ end ] in
      py.python_str (value_at "name" tool)
      ⁀ ":"
      ⁀ py.dumps_sorted (arguments_of tool)
      ⁀ " "
      ⁀ take_text 200 (content_at "content" turn)
      ⁀ " "
      ⁀ take_text 300 (content_at "reasoning" turn)

  unfoldable pub tracks_of : Fields → List (String × String)
  unfolding content_at take_text
  tracks_of turn = py.find_tracks (take_text 200 (content_at "content" turn))

  -- `{track[0].lower(): track[1] for track in tracks if track[1]}`
  unfoldable pub track_dict :
      List (String × String) → List (String × String) → List (String × String)
  unfolding is_empty
  track_dict [] d = d
  track_dict ((name, at) ∷ tracks) d =
      track_dict tracks (if is_empty at then d else dict_put (py.lower name) at d)

  unfoldable pub get_semantic_similarity : Fields → Fields → py.Float
  unfolding similarity_text tracks_of track_dict some_track track_differs
  get_semantic_similarity left right =
      let tracks_a = tracks_of left in
      let tracks_b = tracks_of right in
      let differs =
        any (track_differs (track_dict tracks_a []) (track_dict tracks_b []))
          ("sem" ∷ "sens" ∷ "act" ∷ []) in
      if some_track tracks_a && some_track tracks_b && differs
      then py.zero
      else py.ratio (similarity_text left) (similarity_text right)

  module _ (X : Type 0) (kernel : X → X → py.Float) where
    -- The inner loop of a window's sum: the numerator and the denominator after it.
    unfoldable pub sum_row : ℕ → X → ℕ → List X → py.Float × py.Float → py.Float × py.Float
    unfolding distance
    sum_row i left j [] sums = sums
    sum_row i left j (right ∷ window) (numerator, denominator) =
        let w = py.weight (distance i j) in
        let added : py.Float × py.Float =
          (py.add numerator (py.times (kernel left right) w), py.add denominator w) in
        sum_row i left (suc j) window (if i == j then (numerator, denominator) else added)

    unfoldable pub sum_rows : List X → ℕ → List X → py.Float × py.Float → py.Float × py.Float
    unfolding sum_row
    sum_rows window i [] sums = sums
    sum_rows window i (left ∷ rest) sums =
        sum_rows window (suc i) rest (sum_row i left 0 window sums)

    -- `calculate_window_str` and `calculate_window_str_semantic`, by their kernel.
    unfoldable pub window_str : List X → py.Float
    unfolding sum_rows
    window_str window =
        let (numerator, denominator) = sum_rows window 0 window (py.zero, py.zero) in
        if ltb (length window) 2
        then py.zero
        else if py.is_positive denominator
        then py.over numerator denominator
        else py.zero

  unfoldable pub same_signature : String → String → py.Float
  same_signature left right = if str_eq left right then py.one else py.zero

  unfoldable pub calculate_window_str : List String → py.Float
  unfolding window_str same_signature
  calculate_window_str = window_str String same_signature

  unfoldable pub calculate_window_str_semantic : List Fields → py.Float
  unfolding window_str get_semantic_similarity
  calculate_window_str_semantic = window_str Fields get_semantic_similarity
