-- ===== src/Runtime/Tools/Patch.antt =====
-- What `apply_patch` of packages/runtime/aro_runtime/tools.py does to the text of a file.
use Prim.Native.String
use agent_runtime_observator.Prelude.{
  ◌≤◌, ◌≡◌, ◌≢◌, ◌⊎◌, refl, inl, inr, String, none, some, Bool-cases, Option-cases,
}
use agent_runtime_observator.Text.{◌⁀◌, contains_text}
use agent_runtime_observator.Text.Replace.{replace_first-Replaces, contains_text-absent}
use agent_runtime_observator.Outcome.{Outcome, ok, tool_error}
use agent_runtime_observator.Json.{str, Fields}
use agent_runtime_observator.Json.Lookup.{field_get?}
use agent_runtime_observator.Runtime.Workspace.{Files, lookup, insert}
use agent_runtime_observator.Runtime.Tools.{
  or_missing, read_at, patch_with, patch_text, apply_patch,
}

-- The first place of `find` in the text is taken by `replace`, and the file has the new text.
abbrev pub Patched : Files → String → String → String → String → Outcome (Files × String) → Type 0
Patched files path find replace text outcome =
    (before after : String) × (text ≡ before ⁀ (find ⁀ after))
    × ((b a : String) → text ≡ b ⁀ (find ⁀ a) → String.count before ≤ String.count b)
    × (outcome
        ≡ ok (
          insert path (before ⁀ (replace ⁀ after)) files,
          "patched " ⁀ path ⁀ ": 1 occurrence replaced",
        ))

-- `find` has no place in the text, and the call says so.
abbrev pub Refused : String → String → String → Outcome (Files × String) → Type 0
Refused path find text outcome =
    ((b a : String) → text ≢ b ⁀ (find ⁀ a))
    × (outcome ≡ tool_error ("pattern not found in " ⁀ path))

-- A patch of a text that is there, given three texts, either takes the first place of its pattern in it
-- and replaces it, or there is no such place and the call is refused; a text that is not there is
-- refused as well.
pub apply_patch-Patches :
    (files : Files) (args : Fields) (path find replace : String)
    → field_get? "path" args ≡ some (str path)
    → field_get? "find" args ≡ some (str find)
    → field_get? "replace" args ≡ some (str replace)
    → ((lookup path files ≡ none)
        × (apply_patch files args ≡ tool_error ("file not found: " ⁀ path)))
      ⊎ ((text : String) × (lookup path files ≡ some text)
          × (Patched files path find replace text (apply_patch files args)
              ⊎ Refused path find text (apply_patch files args)))
unfolding apply_patch read_at or_missing patch_text patch_with
apply_patch-Patches files args path find replace hp hf hr =
    elim (Option-cases (lookup path files)) [
      | inl e ↦ inl (e, rw (apply_patch, hp, hf, hr, e) refl)
      | inr (text, e) ↦ inr (
        text,
        e,
        elim (Bool-cases (contains_text find text)) [
          | inl here ↦
              let place = replace_first-Replaces find replace text here in
              inl (
                place.before,
                place.after,
                place.found,
                place.first,
                rw (apply_patch, hp, hf, hr, e, here, place.result) refl,
              )
          | inr absent ↦ inr (
            λ b a. contains_text-absent find text b a absent,
            rw (apply_patch, hp, hf, hr, e, absent) refl,
          )
        ],
      )
    ]
