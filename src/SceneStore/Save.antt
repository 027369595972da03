-- ===== src/SceneStore/Save.antt =====
-- `checkSource`, `prepareEdit`, `autosave` and `save` (src/scene_ros1_adapter/src/core/store.cpp).
-- What the file system answers is an argument.
use xgc2_ros1_adapter.Common.{
  Bool, ◌∷◌, Option, none, some, ◌&&◌, ◌||◌, not, if◌then◌else◌, Bytes, is_some,
}
use xgc2_ros1_adapter.SceneStore.State.{
  no_source, external_edit, no_save_directory, outside_root, not_yaml, no_directory, io_error,
  changed_while_saving, not_saved, Store, Outcome, returned, threw, M, ◌>>=◌, ◌>>◌, pure, throw,
  get, modify, require, find_digest, option_eq,
}

-- The answers of the file system during one save of the document to its target.
pub record Saving : Type 0 where
  pub inside_root : Bool  -- the target is below the save root
  pub yaml_extension : Bool
  pub created : Bool  -- of the target's directories
  pub directory : Bool  -- the target's directory exists
  pub digest_before : Option Bytes
  pub encoded : Bytes  -- the digest of the encoded document
  pub written : Bool  -- the temporary file is written, synced and closed
  pub digest_after : Option Bytes
  pub replaced : Bool
  pub synced : Bool  -- the directory is synced and closed

abbrev pub target : Store → Option Bytes
target s = elim s.working_file [ none ↦ s.source | some file ↦ some file ]

abbrev pub saved_to : Bytes → Bytes → Store → Store
saved_to path digest s = record s {
  source = some path;
  file_digests = (path, digest) ∷ s.file_digests;
  saved_document = s.document;
  saved_revision = s.revision;
}

unfoldable pub save_target : Saving → Bytes → M (Unit {0})
save_target f path = do
  s ← get
  require f.inside_root outside_root
  require f.yaml_extension not_yaml
  require (not (is_some s.working_file) || f.created) io_error
  require f.directory no_directory
  require (option_eq f.digest_before (find_digest path s.file_digests)) external_edit
  require f.written io_error
  require (option_eq f.digest_after (find_digest path s.file_digests)) changed_while_saving
  require f.replaced io_error
  require f.synced io_error
  modify (saved_to path f.encoded)

unfoldable pub save : Saving → M (Unit {0})
save f = do
  s ← get
  require (is_some s.save_root) no_save_directory
  elim (target s) [ none ↦ throw no_source | some path ↦ save_target f path ]

-- `checkSource`: `current` is the digest of the source file now.
unfoldable pub check_source : (current : Option Bytes) → M (Unit {0})
check_source current = do
  s ← get
  elim s.source [
    | none ↦ pure tt
    | some path ↦ require (option_eq current (find_digest path s.file_digests)) external_edit
  ]

unfoldable pub prepare_edit : (current : Option Bytes) → Saving → M (Unit {0})
prepare_edit current f = do
  check_source current
  s ← get
  if is_some s.working_file && not (option_eq s.source s.working_file) then save f else pure tt

-- The exception of a failed save is wrapped.
abbrev pub wrapped : Store × Outcome (Unit {0}) → Store × Outcome (Unit {0})
wrapped (s, returned u) = (s, returned u)
wrapped (s, threw e) = (s, threw (not_saved e))

unfoldable pub autosave : Saving → M (Unit {0})
autosave f s = if is_some s.source then wrapped (save f s) else (s, returned tt)
