-- ===== src/Text.antt =====
-- The methods of Python's `str` that the sources call, over texts as lists of characters. The
-- sets of blanks and of line ends are those of `str.isspace` and `str.splitlines`.
pub mod Decimal
pub mod Lines
pub mod Replace
use Prim.Native.Nat.{compare, Ordering}
use Prim.Native.String
use Prim.Native.String.{[], ◌∷◌}
use mathlib.Core.List
use text.Mathlib.TextLemmas.{cons-append, nil-append}
use agent_runtime_observator.Prelude.{
  ℕ, zero, suc, ◌+◌, ◌-◌, ◌≡◌, ap, ◌∙◌, Bool, true, false, ◌&&◌, ◌||◌, not, Char, code, String,
  Option, none, some, List, leb, ◌==◌, str_eq, is_some, keep, length, if◌then◌else◌,
}

infixr 66 ◌⁀◌
-- The parts of an f-string.
abbrev pub ◌⁀◌ : String → String → String
s ⁀ t = String.◌++◌ s t

-- The rest of `s` behind `t`, if `s` begins with it.
unfoldable pub strip_prefix? : String → String → Option String
strip_prefix? [] s = some s
strip_prefix? (c ∷ t) [] = none
strip_prefix? (c ∷ t) (d ∷ s) =
    let rest = strip_prefix? t s in if code c == code d then rest else none

-- `s.startswith(t)`
unfoldable pub starts_with : String → String → Bool
unfolding strip_prefix?
starts_with s t = is_some (strip_prefix? t s)

-- `t in s`
unfoldable pub contains_text : String → String → Bool
unfolding strip_prefix?
contains_text t [] = is_some (strip_prefix? t [])
contains_text t (c ∷ s) = is_some (strip_prefix? t (c ∷ s)) || contains_text t s

-- `s.replace(t, r, 1)`
unfoldable pub replace_first : String → String → String → String
unfolding strip_prefix?
replace_first t r [] = elim (strip_prefix? t []) [ none ↦ [] | some rest ↦ r ⁀ rest ]
replace_first t r (c ∷ s) =
    let later = c ∷ replace_first t r s in
    elim (strip_prefix? t (c ∷ s)) [ none ↦ later | some rest ↦ r ⁀ rest ]

-- The characters to skip behind a character at which the scan stands: the rest of an occurrence.
abbrev skip_after : ℕ → Bool → ℕ → ℕ
skip_after (suc k) _ _ = k
skip_after zero true n = n - 1
skip_after zero false _ = 0

abbrev one_if_new : ℕ → Bool → ℕ
one_if_new zero true = 1
one_if_new _ _ = 0

count_from : String → ℕ → String → ℕ
unfolding starts_with
count_from t skip [] = 0
count_from t skip (c ∷ s) =
    let here = starts_with (c ∷ s) t in
    one_if_new skip here + count_from t (skip_after skip here (String.count t)) s

-- `s.count(t)` for a `t` that is not empty: occurrences that do not overlap.
unfoldable pub count_text : String → String → ℕ
unfolding count_from
count_text t s = count_from t 0 s

unfoldable pub is_space : Char → Bool
is_space c =
    let n = code c in
    leb 9 n && leb n 13
    || leb 28 n && leb n 32
    || n == 133
    || n == 160
    || n == 5760
    || leb 8192 n && leb n 8202
    || n == 8232
    || n == 8233
    || n == 8239
    || n == 8287
    || n == 12288

unfoldable pub is_empty : String → Bool
is_empty [] = true
is_empty (_ ∷ _) = false

lstrip_by : (Char → Bool) → String → String
lstrip_by p [] = []
lstrip_by p (c ∷ s) = let rest = lstrip_by p s in if p c then rest else c ∷ s

rstrip_by : (Char → Bool) → String → String
unfolding is_empty
rstrip_by p [] = []
rstrip_by p (c ∷ s) = let rest = rstrip_by p s in if p c && is_empty rest then [] else c ∷ rest

-- `s.strip()`
unfoldable pub strip : String → String
unfolding lstrip_by rstrip_by is_space
strip s = lstrip_by is_space (rstrip_by is_space s)

-- `s.rstrip("/")`
unfoldable pub rstrip_slash : String → String
unfolding rstrip_by
rstrip_slash = rstrip_by (λ c. code c == 47)

-- `not s or not s.strip()`
unfoldable pub is_blank : String → Bool
unfolding is_empty strip
is_blank s = is_empty s || is_empty (strip s)

unfoldable pub is_line_end : Char → Bool
is_line_end c =
    let n = code c in
    leb 10 n && leb n 13 || leb 28 n && leb n 30 || n == 133 || n == 8232 || n == 8233

-- The line so far, and whether the last character was a carriage return, which takes a line feed.
lines_from : String → Bool → String → List String
unfolding is_empty is_line_end
lines_from line cr [] = if is_empty line then List.[] else List.◌∷◌ line List.[]
lines_from line cr (c ∷ s) =
    let paired = lines_from line false s in
    let ended = List.◌∷◌ line (lines_from [] (code c == 13) s) in
    let more = lines_from (line ⁀ (c ∷ [])) false s in
    if cr && code c == 10 then paired else if is_line_end c then ended else more

-- `s.splitlines()`
unfoldable pub split_lines : String → List String
unfolding lines_from
split_lines = lines_from [] false

words_from : Bool → String → ℕ
unfolding is_space
words_from inside [] = 0
words_from inside (c ∷ s) =
    (if not (is_space c) && not inside then 1 else 0) + words_from (not (is_space c)) s

-- `len(s.split())`
unfoldable pub word_count : String → ℕ
unfolding words_from
word_count = words_from false

abbrev push : Char → List String → List String
push c List.[] = List.◌∷◌ (c ∷ []) List.[]
push c (List.◌∷◌ w ws) = List.◌∷◌ (c ∷ w) ws

-- `s.split("/")`
split_slash : String → List String
split_slash [] = List.◌∷◌ [] List.[]
split_slash (c ∷ s) =
    let rest = split_slash s in if code c == 47 then List.◌∷◌ [] rest else push c rest

last_or : String → List String → String
last_or d List.[] = d
last_or d (List.◌∷◌ x xs) = last_or x xs

-- `Path(s).name`
unfoldable pub path_name : String → String
unfolding split_slash last_or is_empty
path_name s =
    last_or [] (keep (λ part. not (is_empty part) && not (str_eq part ".")) (split_slash s))

-- `sep.join(parts)`
unfoldable pub join : String → List String → String
join sep List.[] = []
join sep (List.◌∷◌ x List.[]) = x
join sep (List.◌∷◌ x (List.◌∷◌ y ys)) = x ⁀ sep ⁀ join sep (List.◌∷◌ y ys)

-- `s[:n]`
unfoldable pub take_text : ℕ → String → String
take_text zero s = []
take_text (suc n) [] = []
take_text (suc n) (c ∷ s) = c ∷ take_text n s

abbrev pub text_le : String → String → Bool
text_le s t = elim (String.compare s t) [ Ordering.gt ↦ false | _ ↦ true ]

insert_sorted : String → List String → List String
insert_sorted x List.[] = List.◌∷◌ x List.[]
insert_sorted x (List.◌∷◌ y ys) =
    if text_le x y then List.◌∷◌ x (List.◌∷◌ y ys) else List.◌∷◌ y (insert_sorted x ys)

-- `sorted(texts)`, by code points
unfoldable pub sort_texts : List String → List String
unfolding insert_sorted
sort_texts List.[] = List.[]
sort_texts (List.◌∷◌ x xs) = insert_sorted x (sort_texts xs)

-- A character in front of a text, as the sum of two texts.
pub char-append : (c : Char) (s : String) → (c ∷ []) ⁀ s ≡ c ∷ s
char-append c s = cons-append c [] s ∙ ap (λ (t : String). c ∷ t) (nil-append s)

-- `s.endswith(t)`
unfoldable pub ends_with : String → String → Bool
ends_with [] t = str_eq [] t
ends_with (c ∷ s) t = str_eq (c ∷ s) t || ends_with s t
