-- ===== src/Runtime/Tools.antt =====
-- packages/runtime/aro_runtime/tools.py: the simulated tools. A tool returns the new files with its
-- output; no tool writes before it raises `ToolError`, so the files then stay as they were.
pub mod Frame
pub mod Patch
use Prim.Native.String
use agent_runtime_observator.Prelude.{
  ℕ, zero, suc, ◌+◌, Bool, true, false, not, ◌&&◌, ◌||◌, String, Option, none, some, List, [], ◌∷◌,
  map, keep, contains, length, str_eq, is_none, if◌then◌else◌,
}
use agent_runtime_observator.Text.{
  ◌⁀◌, starts_with, contains_text, replace_first, count_text, rstrip_slash, strip, split_lines,
  word_count, path_name, join, sort_texts,
}
use agent_runtime_observator.Text.Decimal.{show_nat}
use agent_runtime_observator.Outcome.{
  Outcome, ok, tool_error, fault, Fault, type_error, attribute_error, ◌>>=◌, key_error,
  or_key_error,
}
use agent_runtime_observator.Platform.{Platform}
use agent_runtime_observator.Json.{
  Value, null, bool, int, float, str, arr, obj, Items, nil, item, Fields, end, field, show_int,
}
use agent_runtime_observator.Json.Lookup.{field_get?, truthy}
use agent_runtime_observator.Runtime.Workspace.{Files, lookup, insert, paths}

-- `args[k]`
abbrev pub need : String → Fields → Outcome Value
need k args = or_key_error k (field_get? k args)

abbrev truth : Bool → String
truth true = "True"
truth false = "False"

-- `str(v)` of a value that can be the key of a dict
key_text : Value → String
unfolding show_int
key_text null = "None"
key_text (bool b) = truth b
key_text (int n) = show_int n
key_text (float t) = t
key_text (str s) = s
key_text _ = ""

abbrev items_len : Items → ℕ
items_len nil = 0
items_len (item _ xs) = suc (items_len xs)

abbrev fields_len : Fields → ℕ
fields_len end = 0
fields_len (field _ _ fs) = suc (fields_len fs)

-- `len(v)`
value_len : Value → Outcome ℕ
value_len (str s) = ok (String.count s)
value_len (arr xs) = ok (items_len xs)
value_len (obj fs) = ok (fields_len fs)
value_len _ = fault type_error

or_missing : String → Option String → Outcome String
or_missing path none = tool_error ("file not found: " ⁀ path)
or_missing path (some text) = ok text

-- The test `path not in ws.files`, and the text at the path. A list or a dict cannot be a key.
read_at : Files → Value → Outcome String
unfolding or_missing key_text
read_at files (arr _) = fault type_error
read_at files (obj _) = fault type_error
read_at files (str path) = or_missing path (lookup path files)
read_at files other = tool_error ("file not found: " ⁀ key_text other)

unfoldable pub read_file : Files → Fields → Outcome (Files × String)
unfolding read_at
read_file files args = do path ← need "path" args; text ← read_at files path; ok (files, text)

-- `ws.files[path] = content`; a pair that is not two texts is dropped: the run ends by an
-- AttributeError before anything reads it.
write_entry : Value → Value → Files → Files
write_entry (str path) (str content) files = insert path content files
write_entry _ _ files = files

write_at : Value → Value → Files → Outcome (Files × String)
unfolding value_len write_entry key_text
write_at (arr _) content files = fault type_error
write_at (obj _) content files = fault type_error
write_at path content files = do
  n ← value_len content
  ok (write_entry path content files, "wrote " ⁀ show_nat n ⁀ " chars to " ⁀ key_text path)

unfoldable pub write_file : Files → Fields → Outcome (Files × String)
unfolding write_at
write_file files args = do
  content ← need "content" args
  path ← need "path" args
  write_at path content files

-- `find` is there, and `replace` must be a text.
patch_with : String → String → String → Value → Files → Outcome (Files × String)
patch_with path text find (str replace) files = ok (
  insert path (replace_first find replace text) files,
  "patched " ⁀ path ⁀ ": 1 occurrence replaced",
)
patch_with path text find _ files = fault type_error

patch_text : Value → String → Value → Value → Files → Outcome (Files × String)
unfolding patch_with
patch_text (str path) text (str find) replace files =
    if contains_text find text
    then patch_with path text find replace files
    else tool_error ("pattern not found in " ⁀ path)
patch_text _ _ _ _ _ = fault type_error

unfoldable pub apply_patch : Files → Fields → Outcome (Files × String)
unfolding read_at patch_text
apply_patch files args = do
  path ← need "path" args
  find ← need "find" args
  replace ← need "replace" args
  text ← read_at files path
  patch_text path text find replace files

text_at : Files → String → String
text_at files path = elim (lookup path files) [ none ↦ "" | some text ↦ text ]

sum_counts : Files → List String → ℕ
unfolding text_at
sum_counts files [] = 0
sum_counts files (p ∷ ps) = count_text "def test_" (text_at files p) + sum_counts files ps

test_files : Files → List String
test_files files = keep (λ p. starts_with (path_name p) "test_") (sort_texts (paths files))

buggy_files : Files → List String
unfolding test_files text_at
buggy_files files =
    keep (λ p. contains_text "BUG" (text_at files p) && not (contains (test_files files) p))
      (sort_texts (paths files))

test_verdict : ℕ → List String → String
test_verdict n [] = show_nat n ⁀ " collected: all passed"
test_verdict n buggy =
    show_nat n ⁀ " collected: FAILED (unresolved BUG marker in " ⁀ join ", " buggy ⁀ ")"

test_report : Files → List String → String
unfolding sum_counts buggy_files test_verdict
test_report files [] = "no tests found"
test_report files tests = test_verdict (sum_counts files tests) (buggy_files files)

unfoldable pub run_tests : Files → Fields → Outcome (Files × String)
unfolding test_report test_files
run_tests files args = ok (files, test_report files (test_files files))

-- The loop over the candidates of `web_fetch`.
first_fixture : String → List String → Files → Outcome String
first_fixture url [] files = tool_error ("offline fixture missing for " ⁀ url)
first_fixture url (candidate ∷ rest) files =
    let later = first_fixture url rest files in
    elim (lookup candidate files) [ some text ↦ ok text | none ↦ later ]

-- The candidates of a key.
fixture_at : String → String → Files → Outcome String
unfolding first_fixture
fixture_at url key files =
    first_fixture url (key ∷ (key ⁀ ".md") ∷ (rstrip_slash key ⁀ "/index.md") ∷ []) files

-- `f"{url}"` of a value that is no text and is false
url_text : Value → String
unfolding key_text
url_text (arr _) = "[]"
url_text (obj _) = "{}"
url_text url = key_text url

module _ (platform : Platform) where
  -- `urlparse` of a value that is no text and is false gives the parts of an empty address as bytes.
  fetch : Value → Files → Outcome String
  unfolding fixture_at url_text truthy
  fetch (str url) files = do
    parts ← platform.url_parts url
    fixture_at url ("corpus/" ⁀ parts.0 ⁀ parts.1) files
  fetch url files =
      if truthy url then fault attribute_error else fixture_at (url_text url) "corpus/b''b''" files

  unfoldable pub web_fetch : Files → Fields → Outcome (Files × String)
  unfolding fetch
  web_fetch files args = do url ← need "url" args; text ← fetch url files; ok (files, text)

shell_text : Files → Value → Outcome String
shell_text files (str raw) =
    let cmd = strip raw in
    if str_eq cmd "ls" || starts_with cmd "ls "
    then ok (join "\n" (sort_texts (paths files)))
    else ok ("simulated shell (no-op sandbox): `" ⁀ cmd ⁀ "` -> exit 0")
shell_text files _ = fault attribute_error

unfoldable pub shell : Files → Fields → Outcome (Files × String)
unfolding shell_text
shell files args = do cmd ← need "cmd" args; text ← shell_text files cmd; ok (files, text)

-- `args["text"] if "text" in args else read_file(…)`
summary_source : Option Value → Files → Fields → Outcome Value
unfolding read_file
summary_source (some text) files args = ok text
summary_source none files args = do out ← read_file files args; ok (str out.1)

title_of : List String → String
title_of [] = "(empty)"
title_of (line ∷ _) = line

summary : Value → Outcome String
unfolding title_of
summary (str text) =
    let lines = keep (λ line. not (str_eq line "")) (map strip (split_lines text)) in
    ok (
      title_of lines
      ⁀ " — "
      ⁀ show_nat (word_count text)
      ⁀ " words, "
      ⁀ show_nat (length lines)
      ⁀ " non-empty lines")
summary _ = fault attribute_error

unfoldable pub summarize : Files → Fields → Outcome (Files × String)
unfolding summary_source summary
summarize files args = do
  text ← summary_source (field_get? "text" args) files args
  out ← summary text
  ok (files, out)

-- `TOOLS[name](workspace, args)`; an unknown name is a KeyError.
unfoldable pub call_tool : Platform → String → Files → Fields → Outcome (Files × String)
unfolding read_file write_file apply_patch run_tests web_fetch shell summarize
call_tool platform name files args =
    if str_eq name "read_file"
    then read_file files args
    else if str_eq name "write_file"
    then write_file files args
    else if str_eq name "apply_patch"
    then apply_patch files args
    else if str_eq name "run_tests"
    then run_tests files args
    else if str_eq name "web_fetch"
    then web_fetch platform files args
    else if str_eq name "shell"
    then shell files args
    else if str_eq name "summarize"
    then summarize files args
    else fault (key_error name)
