-- ===== src/Clinic/Snapshot.antt =====
-- packages/clinic/src/wutai_clinic/kernel/state_snapshot.py over a file system that is a list of
-- paths and contents. The resolved path and the name of a source, the name of a stored copy, and
-- the path of a stored copy are given by an interface, as pathlib gives them.
use Prim.Native.String
use agent_runtime_observator.Prelude.{
  ℕ, suc, Bool, true, false, not, ◌&&◌, String, none, some, List, [], ◌∷◌, ◌++◌, length, str_eq,
  if◌then◌else◌,
}
use agent_runtime_observator.Platform.{Platform}
use agent_runtime_observator.Runtime.Workspace.{Files, lookup, insert}

pub record Paths : Type 0 where
  -- `src.resolve().as_posix()`
  pub resolved : String → String
  -- `f"{index:03d}__{src.name}"`
  pub stored_name : ℕ → String → String
  -- `(snapshot_dir / name).as_posix()`
  pub stored_path : String → String

pub record Entry : Type 0 where
  pub source_path : String
  pub stored_name : String
  pub sha256 : String
  pub size_bytes : ℕ

pub record Manifest : Type 0 where
  pub label : String
  pub taken_at : String
  pub entries : List Entry

pub record Verification : Type 0 where
  pub ok : Bool
  pub entry_count : ℕ
  pub mismatched : List String
  pub missing : List String
  pub label : String

-- The exceptions of the module, with their messages' variable part.
pub data SnapshotError : Type 0 where
  state_file_missing : String → SnapshotError
  corrupted : Verification → SnapshotError
  restore_failed : Verification → SnapshotError

pub data Result (A : Type 0) : Type 0 where
  value : A → Result A
  error : SnapshotError → Result A

module _ (platform : Platform) (paths : Paths) where
  entry_of : ℕ → String → String → Entry
  entry_of index src content = record {
    source_path = paths.resolved src;
    stored_name = paths.stored_name index src;
    sha256 = platform.sha256_hex content;
    size_bytes = String.len content;
  }

  -- The loop of `take_snapshot`: the copies made before a missing file stay.
  unfoldable pub take_entries : ℕ → List String → List Entry → Files → Result (List Entry) × Files
  unfolding entry_of
  take_entries index [] entries files = (value entries, files)
  take_entries index (src ∷ sources) entries files = elim (lookup src files) [
    | none ↦ (error (state_file_missing src), files)
    | some content ↦
        take_entries (suc index) sources (entries ++ entry_of index src content ∷ [])
          (insert (paths.stored_path (paths.stored_name index src)) content files)
  ]

  -- `take_snapshot`; the manifest is kept beside the files.
  unfoldable pub take_snapshot : String → String → List String → Files → Result Manifest × Files
  unfolding take_entries
  take_snapshot label taken_at sources files =
      let (taken, copied) = take_entries 0 sources [] files in
      (
        elim taken [
          | value entries ↦ value (record { label = label; taken_at = taken_at; entries = entries })
          | error e ↦ error e
        ],
        copied,
      )

  target_of : Bool → Entry → String
  target_of true entry = entry.source_path
  target_of false entry = paths.stored_path entry.stored_name

  -- The loop of `verify_snapshot`: what is mismatched, and what is missing.
  check_entries : Bool → List Entry → Files → List String × List String
  unfolding target_of
  check_entries against_live [] files = ([], [])
  check_entries against_live (entry ∷ entries) files =
      let (mismatched, missing) = check_entries against_live entries files in
      let target = target_of against_live entry in
      elim (lookup target files) [
        | none ↦ (mismatched, target ∷ missing)
        | some content ↦ (
          if str_eq (platform.sha256_hex content) entry.sha256
              then mismatched
              else target ∷ mismatched,
          missing,
        )
      ]

  is_empty_list : List String → Bool
  is_empty_list [] = true
  is_empty_list (_ ∷ _) = false

  -- `verify_snapshot`, where the manifest is there.
  unfoldable pub verify_snapshot : Bool → Manifest → Files → Verification
  unfolding check_entries is_empty_list
  verify_snapshot against_live manifest files =
      let (mismatched, missing) = check_entries against_live manifest.entries files in
      record {
        ok = is_empty_list mismatched && is_empty_list missing;
        entry_count = length manifest.entries;
        mismatched = mismatched;
        missing = missing;
        label = manifest.label;
      }

  -- The loop of `restore_snapshot`; the check before it has found every copy.
  copy_back : List Entry → Files → Files
  copy_back [] files = files
  copy_back (entry ∷ entries) files = elim (lookup (paths.stored_path entry.stored_name) files) [
    | none ↦ files
    | some content ↦ copy_back entries (insert entry.source_path content files)
  ]

  -- `restore_snapshot`: the number of entries restored, and the files.
  unfoldable pub restore_snapshot : Manifest → Files → Result ℕ × Files
  unfolding copy_back verify_snapshot
  restore_snapshot manifest files =
      let integrity = verify_snapshot false manifest files in
      let restored = copy_back manifest.entries files in
      let proof = verify_snapshot true manifest restored in
      if not integrity.ok
      then (error (corrupted integrity), files)
      else if not proof.ok
      then (error (restore_failed proof), restored)
      else (value (length manifest.entries), restored)
