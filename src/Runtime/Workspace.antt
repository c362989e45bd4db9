-- ===== src/Runtime/Workspace.antt =====
-- The class `Workspace` of packages/runtime/aro_runtime/tools.py: a dict from paths to texts, in the
-- order of insertion.
use agent_runtime_observator.Prelude.{
  ◌≡◌, refl, String, Option, none, some, List, [], ◌∷◌, map, arith, eq_iff, str_eq, if◌then◌else◌,
}
use agent_runtime_observator.Platform.{Platform}
use agent_runtime_observator.Json.{str, obj, Fields, end, field, digest_obj}

abbrev pub Files : Type 0
Files = List (String × String)

-- `files.get(path)`
unfoldable pub lookup : String → Files → Option String
lookup path [] = none
lookup path ((p, text) ∷ files) =
    let rest = lookup path files in if str_eq p path then some text else rest

-- `files[path] = text`
unfoldable pub insert : String → String → Files → Files
insert path text [] = (path, text) ∷ []
insert path text ((p, old) ∷ files) =
    let rest = (p, old) ∷ insert path text files in
    if str_eq p path then (p, text) ∷ files else rest

unfoldable pub paths : Files → List String
paths = map (λ ((p, _) : String × String). p)

as_fields : Files → Fields
as_fields [] = end
as_fields ((p, text) ∷ files) = field p (str text) (as_fields files)

-- `Workspace.digest`
unfoldable pub digest : Platform → Files → String
unfolding as_fields
digest platform files = digest_obj platform (obj (as_fields files))

pub lookup-insert :
    (j path text : String) (files : Files)
    → lookup j (insert path text files) ≡ (if str_eq path j then some text else lookup j files)
unfolding lookup insert
lookup-insert j path text [] = refl
lookup-insert j path text ((p, old) ∷ files) =
    ground (arith, lookup-insert j path text files, eq_iff path j, eq_iff p path, eq_iff p j)
