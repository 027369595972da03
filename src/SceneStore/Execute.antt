-- ===== src/SceneStore/Execute.antt =====
-- `SceneStore::execute` and `apply` (src/scene_ros1_adapter/src/core/store.cpp). The validators of
-- obstacles, ids and documents, the hooks and the files answer by arguments.
use xgc2_ros1_adapter.Common.{
  ℕ, ◌+◌, Bool, true, false, List, [], ◌∷◌, ◌++◌, Option, none, some, ◌&&◌, ◌||◌, if◌then◌else◌,
  Bytes, bytes_eq, take,
}
use xgc2_ros1_adapter.SceneStore.State.{
  frozen_scene, unhashable, no_source, nothing_to_undo, obstacle_invalid, obstacle_exists,
  obstacle_missing, obstacle_set, document_invalid, unsupported, hook_failed, Obstacle, Document,
  document_eq, Store, Outcome, returned, threw, M, ◌>>=◌, ◌>>◌, pure, throw, get, modify, require,
  scene_time,
}
use xgc2_ros1_adapter.SceneStore.Save.{Saving, check_source, prepare_edit, save, autosave}

-- The `operation` field; `other` is any other scalar and `container` an array or an object.
pub data Operation : Type 0 where
  get_scene resync save_scene reload play pause reset undo redo : Operation
  add update delete clear replace other container : Operation

-- What the validators return for the request's `obstacle`, `id` and `document`; `none` throws.
pub record Payload : Type 0 where
  pub obstacle : Option Obstacle
  pub id : Option Bytes
  pub document : Option Document

-- What the environment answers during one command.
pub record World : Type 0 where
  pub now : ℕ
  pub apply_ok : Bool  -- the apply hook returns
  pub motion_ok : Bool  -- the motion hook returns
  pub set_ok : List Obstacle → Bool  -- `checkObstacleSet`
  pub source_digest : Option Bytes  -- of the source file, at `checkSource`
  pub loaded : Option (Document × Bytes)  -- `readDocument`
  pub first_save : Saving  -- of `prepareEdit`, or of a save command
  pub autosave : Saving

abbrev pub start_apply : Store → Store
start_apply s = record s { next_revision = s.next_revision + 1; application_known = false }

abbrev pub end_apply : ℕ → Store → Store
end_apply revision s = record s { applied_revision = revision; application_known = true }

-- `apply`: the next revision, after the hook took the candidate.
unfoldable pub apply : World → M ℕ
apply w = do
  s ← get
  modify start_apply
  require w.apply_ok hook_failed
  modify (end_apply s.next_revision)
  pure s.next_revision

abbrev pub set_digest : Bytes → Bytes → List (Bytes × Bytes) → List (Bytes × Bytes)
set_digest path d ds = (path, d) ∷ ds

abbrev pub reloaded : Bytes → Document × Bytes → ℕ → Store → Store
reloaded path (d, digest) revision s = record s {
  document = d;
  revision = revision;
  saved_document = d;
  saved_revision = revision;
  file_digests = set_digest path digest s.file_digests;
  undo_stack = [];
  redo_stack = [];
}

unfoldable pub run_reload : World → M (Unit {0})
run_reload w = do
  s ← get
  elim s.source [
    | none ↦ throw no_source
    | some path ↦ elim w.loaded [
      | none ↦ throw document_invalid
      | some loaded ↦ (do revision ← apply w; modify (reloaded path loaded revision))
    ]
  ]

-- `playing` and `keep` tell the three motions apart: `reset` starts the time anew.
unfoldable pub run_motion : World → (playing keep : Bool) → M (Unit {0})
unfolding scene_time
run_motion w playing keep = do
  require w.motion_ok hook_failed
  modify λ s. record s {
    playing = playing;
    elapsed = if keep then scene_time w.now s else 0;
    started_at = w.now;
  }

abbrev pub undone : Document → List Document → ℕ → Store → Store
undone d rest revision s = record s {
  redo_stack = s.document ∷ s.redo_stack;
  undo_stack = rest;
  document = d;
  revision = revision;
}

abbrev pub redone : Document → List Document → ℕ → Store → Store
redone d rest revision s = record s {
  undo_stack = s.document ∷ s.undo_stack;
  redo_stack = rest;
  document = d;
  revision = revision;
}

-- A step through the history: `move` puts the document on top of the other stack.
unfoldable pub run_history :
    World → List Document → (Document → List Document → ℕ → Store → Store) → M (Unit {0})
run_history w [] move = throw nothing_to_undo
run_history w (d ∷ rest) move = do
  prepare_edit w.source_digest w.first_save
  revision ← apply w
  modify (move d rest revision)
  autosave w.autosave

unfoldable pub has_obstacle : Bytes → List Obstacle → Bool
has_obstacle id [] = false
has_obstacle id (o ∷ os) = bytes_eq o.id id || has_obstacle id os

-- `*found = replacement` at the first obstacle of that id.
unfoldable pub replace_obstacle : Obstacle → List Obstacle → List Obstacle
replace_obstacle r [] = []
replace_obstacle r (o ∷ os) =
    let rest = replace_obstacle r os in if bytes_eq o.id r.id then r ∷ os else o ∷ rest

unfoldable pub remove_obstacle : Bytes → List Obstacle → List Obstacle
remove_obstacle id [] = []
remove_obstacle id (o ∷ os) =
    let rest = remove_obstacle id os in if bytes_eq o.id id then rest else o ∷ rest

abbrev pub with_obstacles : Document → List Obstacle → Document
with_obstacles d os = record d { obstacles = os }

-- `candidate` with a changed obstacle, if the set is still valid.
abbrev pub checked : World → Document → List Obstacle → Outcome Document
checked w d os = if w.set_ok os then returned (with_obstacles d os) else threw obstacle_set

-- The candidate document of an edit.
unfoldable pub candidate : World → Operation → Payload → Document → Outcome Document
unfolding has_obstacle replace_obstacle remove_obstacle
candidate w add p d = elim p.obstacle [
  | none ↦ threw obstacle_invalid
  | some o ↦
      if has_obstacle o.id d.obstacles
      then threw obstacle_exists
      else checked w d (d.obstacles ++ o ∷ [])
]
candidate w update p d = elim p.obstacle [
  | none ↦ threw obstacle_invalid
  | some o ↦
      if has_obstacle o.id d.obstacles
      then checked w d (replace_obstacle o d.obstacles)
      else threw obstacle_missing
]
candidate w delete p d = elim p.id [
  | none ↦ threw obstacle_invalid
  | some id ↦
      if has_obstacle id d.obstacles
      then returned (with_obstacles d (remove_obstacle id d.obstacles))
      else threw obstacle_missing
]
candidate w clear p d = returned (with_obstacles d [])
candidate w replace p d = elim p.document [
  | none ↦ threw document_invalid
  | some replacement ↦ returned replacement
]
candidate w _ p d = threw unsupported

abbrev pub edited : Document → ℕ → Store → Store
edited d revision s = record s {
  undo_stack = take 128 (s.document ∷ s.undo_stack);
  redo_stack = [];
  document = d;
  revision = revision;
}

-- An edit that changes the document; the oldest of more than 128 undo steps is dropped.
unfoldable pub commit_edit : World → Document → M (Unit {0})
commit_edit w d = do
  prepare_edit w.source_digest w.first_save
  revision ← apply w
  modify (edited d revision)
  autosave w.autosave

unfoldable pub run_edit : World → Operation → Payload → M (Unit {0})
run_edit w op p s = elim (candidate w op p s.document) [
  | threw e ↦ (s, threw e)
  | returned d ↦ if document_eq d s.document then (s, returned tt) else commit_edit w d s
]

-- The operations that a frozen scene refuses.
abbrev pub changes_geometry : Operation → Bool
changes_geometry add = true
changes_geometry update = true
changes_geometry delete = true
changes_geometry clear = true
changes_geometry replace = true
changes_geometry undo = true
changes_geometry redo = true
changes_geometry save_scene = true
changes_geometry reload = true
changes_geometry _ = false

abbrev pub is_container : Operation → Bool
is_container container = true
is_container _ = false

unfoldable pub perform : World → Operation → Payload → M (Unit {0})
perform w resync p = do revision ← apply w; modify λ s. record s { revision = revision }
perform w save_scene p = do check_source w.source_digest; save w.first_save
perform w reload p = run_reload w
perform w play p = run_motion w true true
perform w pause p = run_motion w false true
perform w reset p = run_motion w false false
perform w undo p = do s ← get; run_history w s.undo_stack undone
perform w redo p = do s ← get; run_history w s.redo_stack redone
perform w op p = run_edit w op p

unfoldable pub execute : World → Operation → Payload → M (Unit {0})
execute w op p s =
    if s.frozen && is_container op
    then (s, threw unhashable)
    else (if s.frozen && changes_geometry op then (s, threw frozen_scene) else perform w op p s)
