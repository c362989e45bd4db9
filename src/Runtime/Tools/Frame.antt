-- ===== src/Runtime/Tools/Frame.antt =====
-- What a tool may write: the writing tools, at the path of their arguments, and nothing else.
use agent_runtime_observator.Prelude.{
  ◌≡◌, refl, sym, ap, ◌∙◌, ◌⊎◌, inl, inr, true, String, Option, some, arith, eq_iff, str_eq,
  Bool-cases, if-eq, if◌then◌else◌,
}
use agent_runtime_observator.Outcome.{ok, fault, key_error, >>=-eq-ok}
use agent_runtime_observator.Platform.{Platform}
use agent_runtime_observator.Json.{Value, str, arr, obj, Fields}
use agent_runtime_observator.Json.Lookup.{field_get?}
use agent_runtime_observator.Text.{replace_first, contains_text}
use agent_runtime_observator.Runtime.Workspace.{Files, lookup, insert, lookup-insert}
use agent_runtime_observator.Runtime.Tools.{
  need, read_at, read_file, write_entry, write_at, write_file, patch_text, apply_patch, run_tests,
  web_fetch, shell, summarize, call_tool,
}

module _ (files files' : Files) (args : Fields) (out : String) where
  read_file-files : read_file files args ≡ ok (files', out) → files' ≡ files
  unfolding read_file
  read_file-files h = ground (arith, h)

  shell-files : shell files args ≡ ok (files', out) → files' ≡ files
  unfolding shell
  shell-files h = ground (arith, h)

  run_tests-files : run_tests files args ≡ ok (files', out) → files' ≡ files
  unfolding run_tests
  run_tests-files h = ground (arith, h)

  summarize-files : summarize files args ≡ ok (files', out) → files' ≡ files
  unfolding summarize
  summarize-files h = ground (arith, h)

  web_fetch-files :
      (platform : Platform) → web_fetch platform files args ≡ ok (files', out) → files' ≡ files
  unfolding web_fetch
  web_fetch-files platform h = ground (arith, h)

-- At a path, the files hold what they held, or the path is that of the arguments.
abbrev pub WritesOnly : Files → Files → Option Value → Type 0
WritesOnly files files' path =
    (j : String) → (lookup j files' ≡ lookup j files) ⊎ (path ≡ some (str j))

need-eq-ok :
    (k : String) (args : Fields) {v : Value} → need k args ≡ ok v → field_get? k args ≡ some v
need-eq-ok k args h = ground (arith, h)

module _ (files : Files) where
  insert-WritesOnly : (p text : String) → WritesOnly files (insert p text files) (some (str p))
  insert-WritesOnly p text j = elim (Bool-cases (str_eq p j)) [
    | inl same ↦ inr (ap (λ (t : String). some (str t)) ((eq_iff p j).0 same))
    | inr other ↦ inl (ground (arith, other, lookup-insert j p text files))
  ]

  write_entry-WritesOnly :
      (path content : Value) → WritesOnly files (write_entry path content files) (some path)
  unfolding write_entry
  write_entry-WritesOnly (str p) (str text) = insert-WritesOnly p text
  write_entry-WritesOnly _ _ = λ j. inl refl

  write_at-WritesOnly :
      (path content : Value) {files' : Files} {out : String}
      → write_at path content files ≡ ok (files', out)
      → files' ≡ write_entry path content files
  unfolding write_at
  write_at-WritesOnly (arr _) content h = cc
  write_at-WritesOnly (obj _) content h = cc
  write_at-WritesOnly path content h = ground (arith, h)

  write_file-WritesOnly :
      (args : Fields) {files' : Files} {out : String}
      → write_file files args ≡ ok (files', out)
      → WritesOnly files files' (field_get? "path" args)
  unfolding write_file
  write_file-WritesOnly args h =
      let (content, found_content, h₁) = >>=-eq-ok (need "content" args) _ h in
      let (path, found_path, h₂) = >>=-eq-ok (need "path" args) _ h₁ in
      rw (need-eq-ok "path" args found_path, write_at-WritesOnly path content h₂)
        (write_entry-WritesOnly path content)

  patch_text-eq-ok :
      (path : Value) (text : String) (find replace : Value) {files' : Files} {out : String}
      → patch_text path text find replace files ≡ ok (files', out)
      → (p f r : String) × (path ≡ str p)
        × (find ≡ str f)
        × (replace ≡ str r)
        × (contains_text f text ≡ true)
        × (files' ≡ insert p (replace_first f r text) files)
  unfolding patch_text
  patch_text-eq-ok (str p) text (str f) (str r) h =
      (p, f, r, refl, refl, refl, ground (arith, h), ground (arith, h))
  patch_text-eq-ok _ _ _ _ h = ground (arith, h)

  read_at-str :
      (p : String) {text : String} → read_at files (str p) ≡ ok text → lookup p files ≡ some text
  unfolding read_at
  read_at-str p h = ground (arith, h)

  -- A patch that succeeds found `find` in the text at `path`, and replaces its first occurrence there;
  -- nothing else in the files changes.
  apply_patch_lem :
      (args : Fields) {files' : Files} {out : String}
      → apply_patch files args ≡ ok (files', out)
      → (p find replace text : String) × (field_get? "path" args ≡ some (str p))
        × (field_get? "find" args ≡ some (str find))
        × (field_get? "replace" args ≡ some (str replace))
        × (lookup p files ≡ some text)
        × (contains_text find text ≡ true)
        × (files' ≡ insert p (replace_first find replace text) files)
  unfolding apply_patch
  apply_patch_lem args h =
      let (path, found_path, h₁) = >>=-eq-ok (need "path" args) _ h in
      let (find, found_find, h₂) = >>=-eq-ok (need "find" args) _ h₁ in
      let (replace, found_replace, h₃) = >>=-eq-ok (need "replace" args) _ h₂ in
      let (text, found_text, h₄) = >>=-eq-ok (read_at files path) _ h₃ in
      let (p, f, r, e₁, e₂, e₃, found, result) = patch_text-eq-ok path text find replace h₄ in
      (
        p,
        f,
        r,
        text,
        need-eq-ok "path" args found_path ∙ ap some e₁,
        need-eq-ok "find" args found_find ∙ ap some e₂,
        need-eq-ok "replace" args found_replace ∙ ap some e₃,
        read_at-str p (sym (ap (read_at files) e₁) ∙ found_text),
        found,
        result,
      )

  apply_patch-WritesOnly :
      (args : Fields) {files' : Files} {out : String}
      → apply_patch files args ≡ ok (files', out)
      → WritesOnly files files' (field_get? "path" args)
  apply_patch-WritesOnly args h =
      let (p, f, r, text, e, _, _, _, _, result) = apply_patch_lem args h in
      rw (e, result) (insert-WritesOnly p (replace_first f r text))

module _ (platform : Platform) (name : String) (files : Files) (args : Fields) where
  reading :
      {files' : Files} {out : String}
      → (if str_eq name "run_tests"
          then run_tests files args
          else if str_eq name "web_fetch"
          then web_fetch platform files args
          else if str_eq name "shell"
          then shell files args
          else if str_eq name "summarize"
          then summarize files args
          else fault (key_error name))
        ≡ ok (files', out)
      → files' ≡ files
  reading {files'} {out} h = elim (if-eq (str_eq name "run_tests") _ _ h) [
    | inl (_, r) ↦ run_tests-files files files' args out r
    | inr h₁ ↦ elim (if-eq (str_eq name "web_fetch") _ _ h₁) [
      | inl (_, r) ↦ web_fetch-files files files' args out platform r
      | inr h₂ ↦ elim (if-eq (str_eq name "shell") _ _ h₂) [
        | inl (_, r) ↦ shell-files files files' args out r
        | inr h₃ ↦ elim (if-eq (str_eq name "summarize") _ _ h₃) [
          | inl (_, r) ↦ summarize-files files files' args out r
          | inr h₄ ↦ cc
        ]
      ]
    ]
  ]

  -- A tool call that returns leaves the files as they were at every path but the one in its
  -- arguments, and everywhere unless it is `write_file` or `apply_patch`.
  pub call_tool_frame :
      {files' : Files} {out : String}
      → call_tool platform name files args ≡ ok (files', out)
      → (files' ≡ files)
        ⊎ (((name ≡ "write_file") ⊎ (name ≡ "apply_patch"))
            × WritesOnly files files' (field_get? "path" args))
  unfolding call_tool
  call_tool_frame {files'} {out} h = elim (if-eq (str_eq name "read_file") _ _ h) [
    | inl (_, r) ↦ inl (read_file-files files files' args out r)
    | inr h₁ ↦ elim (if-eq (str_eq name "write_file") _ _ h₁) [
      | inl (e, r) ↦ inr (inl ((eq_iff name "write_file").0 e), write_file-WritesOnly files args r)
      | inr h₂ ↦ elim (if-eq (str_eq name "apply_patch") _ _ h₂) [
        | inl (e, r) ↦
            inr (inr ((eq_iff name "apply_patch").0 e), apply_patch-WritesOnly files args r)
        | inr h₃ ↦ inl (reading h₃)
      ]
    ]
  ]
