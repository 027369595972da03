-- ===== src/LidarScene/Tap.antt =====
-- `SceneTap` with its engine (src/scene_ros1_adapter/src/lidar_ros/scene_tap.cpp). The messages that
-- it passes on, the engine's tick while it has no scene, and the error texts are left out.
use xgc2_ros1_adapter.Common.{
  ℕ, zero, suc, ◌+◌, Bool, true, false, List, [], ◌∷◌, ◌++◌, Option, none, some, not, ◌&&◌, ◌||◌,
  leb, ◌==◌, if◌then◌else◌, Bytes, bytes_eq, length, is_empty, codes, update,
}
use xgc2_ros1_adapter.LidarScene.Cache.{Engine, new_engine, invalidate_scene, set_scene}
use xgc2_ros1_adapter.LidarScene.Messages.{
  Geometry, SceneSnapshot, SceneState, Description, Dynamic, Scene, ◌>>=◌, at, slot_of, no_scene,
  read_snapshot,
}

pub record SceneTap (P S : Type 0) : Type 0 where
  pub engine : Engine S
  pub epoch : Bytes
  pub application_epoch : Bytes
  pub revision : ℕ
  pub application_revision : ℕ
  pub installation : ℕ
  pub have_snapshot : Bool
  pub have_state : Bool
  pub applied : Bool
  pub scene : Scene P S

module _ {P G S : Type 0} (g : Geometry P G S) where
  -- The constructor, with an engine that has had no scene.
  abbrev pub new_tap : SceneTap P S
  new_tap = record {
    engine = new_engine;
    epoch = [];
    application_epoch = [];
    revision = 0;
    application_revision = 0;
    installation = 0;
    have_snapshot = false;
    have_state = false;
    applied = false;
    scene = no_scene g;
  }

  unfoldable pub part_shapes : (parent : P) → List (S × P) → List S
  part_shapes parent [] = []
  part_shapes parent ((shape, pose) ∷ ps) = g.placed parent pose shape ∷ part_shapes parent ps

  unfoldable pub description_shapes : List (Description P S) → Option (List S)
  unfolding part_shapes
  description_shapes [] = some []
  description_shapes (d ∷ ds) = do
    parent ← g.normalized d.pose
    shapes ← description_shapes ds
    some (part_shapes parent d.parts ++ shapes)

  -- The shapes of the ground and of the obstacles at their poses; `none` where a pose is refused.
  abbrev pub obstacles : Scene P S → Option (List S)
  obstacles s = do shapes ← description_shapes s.descriptions; some (s.ground_shapes ++ shapes)

  unfoldable pub invalidate_tap : SceneTap P S → SceneTap P S
  invalidate_tap t = record t {
    installation = t.installation + 1;
    engine = (invalidate_scene (t.installation + 1) t.engine).0;
  }

  abbrev pub synchronized : SceneTap P S → Bool
  synchronized t =
      t.applied && (bytes_eq t.application_epoch t.epoch && t.application_revision == t.revision)

  -- The engine after the scene is built, or refused.
  unfoldable pub install_shapes : List S → (installation : ℕ) → Engine S → Engine S
  unfolding set_scene
  install_shapes shapes installation e =
      let (f, threw) = set_scene g.builds shapes installation e in
      elim threw [ none ↦ (invalidate_scene installation f).0 | some b ↦ f ]

  -- No scene is installed before the snapshot, its application and its states are there.
  abbrev pub held_back : SceneTap P S → Bool
  held_back t =
      not t.have_snapshot
      || (not (synchronized t) || (not t.have_state && not (is_empty t.scene.dynamic)))

  unfoldable pub install : SceneTap P S → SceneTap P S
  unfolding description_shapes
  install t = if held_back t then t else record t {
    engine = elim (obstacles t.scene) [
      | none ↦ (invalidate_scene t.installation t.engine).0
      | some shapes ↦ install_shapes shapes t.installation t.engine
    ];
  }

  abbrev pub install_unready : SceneTap P S → SceneTap P S
  install_unready t = if t.engine.scenes.ready then t else install t

  abbrev bool_eq : Bool → Bool → Bool
  bool_eq true b = b
  bool_eq false b = not b

  abbrev pub changed_application :
      (epoch : Bytes) (revision : ℕ) (synchronized : Bool) → SceneTap P S → Bool
  changed_application epoch revision synchronized t = not (
      bytes_eq epoch t.application_epoch
      && (revision == t.application_revision && bool_eq t.applied synchronized))

  abbrev pub with_application :
      (epoch : Bytes) (revision : ℕ) (synchronized : Bool) → SceneTap P S → SceneTap P S
  with_application epoch revision synchronized t = record t {
    application_epoch = epoch;
    application_revision = revision;
    applied = synchronized;
  }

  -- The tap before the scene is installed.
  abbrev pub kept_application :
      (epoch : Bytes) (revision : ℕ) (synchronized : Bool) → SceneTap P S → SceneTap P S
  kept_application epoch revision synchronized t =
      let u = with_application epoch revision synchronized t in
      if changed_application epoch revision synchronized t || not synchronized
      then invalidate_tap u
      else u

  unfoldable pub application :
      (epoch : Bytes) (revision : ℕ) (synchronized : Bool) → SceneTap P S → SceneTap P S
  application epoch revision synchronized t =
      let u = kept_application epoch revision synchronized t in
      if synchronized then install_unready u else u

  abbrev pub stale : SceneSnapshot P G → SceneTap P S → Bool
  stale m t = t.have_snapshot && (bytes_eq m.epoch t.epoch && leb m.revision t.revision)

  -- What is left of the last snapshot when a new one comes.
  abbrev pub forget : SceneSnapshot P G → SceneTap P S → SceneTap P S
  forget m t = record (invalidate_tap t) {
    have_snapshot = false;
    have_state = false;
    scene = no_scene g;
    epoch = m.epoch;
    revision = m.revision;
  }

  unfoldable pub snapshot : SceneSnapshot P G → SceneTap P S → SceneTap P S
  unfolding invalidate_tap install read_snapshot
  snapshot m t =
      if stale m t
      then t
      else (if bytes_eq m.frame_id (codes "world")
          then elim (read_snapshot g m) [
            | none ↦ forget m t
            | some scene ↦ install (record (forget m t) { have_snapshot = true; scene = scene })
          ]
          else forget m t)

  -- Where each slot stands first in a state, from the index `i` on; `missing` is its length.
  unfoldable pub state_positions :
      (missing i : ℕ) → List (Bytes × P) → List (Bytes × ℕ) → (ℕ → ℕ) → ℕ → ℕ
  unfolding slot_of
  state_positions missing i [] slots positions = positions
  state_positions missing i ((id, pose) ∷ rest) slots positions =
      state_positions missing (i + 1) rest slots (elim (slot_of id slots) [
        | none ↦ positions
        | some slot ↦ if positions slot == missing then update positions slot i else positions
      ])

  unfoldable pub set_pose : ℕ → P → List (Description P S) → List (Description P S)
  set_pose i pose [] = []
  set_pose zero pose (d ∷ ds) = record d { pose = pose } ∷ ds
  set_pose (suc i) pose (d ∷ ds) = d ∷ set_pose i pose ds

  -- The descriptions, and whether a pose is another one.
  unfoldable pub move_to :
      P → (i : ℕ) → List (Description P S) × Bool → List (Description P S) × Bool
  unfolding at set_pose
  move_to pose i (ds, changed) = elim (at i ds) [
    | none ↦ (ds, changed)
    | some d ↦ if g.same_pose pose d.pose then (ds, changed) else (set_pose i pose ds, true)
  ]

  -- The dynamic obstacles in the order of their definition; the flag is whether each has a state.
  unfoldable pub move_all :
      (positions : ℕ → ℕ)
      → List (Bytes × P)
      → List Dynamic
      → List (Description P S) × Bool
      → (List (Description P S) × Bool) × Bool
  unfolding at move_to
  move_all positions states [] ds = (ds, true)
  move_all positions states (m ∷ ms) ds = elim (at (positions m.state) states) [
    | none ↦ (ds, false)
    | some s ↦ move_all positions states ms (move_to s.1 m.description ds)
  ]

  -- The whole of a state on the obstacles of the scene.
  abbrev pub moved : SceneState P → Scene P S → (List (Description P S) × Bool) × Bool
  moved m s =
      let missing = length m.obstacles in
      move_all (state_positions missing 0 m.obstacles s.dynamic_slots (λ i. missing)) m.obstacles
        s.dynamic (s.descriptions, false)

  abbrev pub moved_tap : SceneState P → (have_state : Bool) → SceneTap P S → SceneTap P S
  moved_tap m have_state t = record t {
    scene = record t.scene { descriptions = (moved m t.scene).0.0 };
    have_state = have_state;
  }

  abbrev pub move : SceneState P → SceneTap P S → SceneTap P S
  move m t =
      if (moved m t.scene).1
      then (if (moved m t.scene).0.1
          then install_unready (invalidate_tap (moved_tap m true t))
          else install_unready (moved_tap m true t))
      else invalidate_tap (moved_tap m false t)

  abbrev pub belongs : SceneState P → SceneTap P S → Bool
  belongs m t = t.have_snapshot && (bytes_eq m.epoch t.epoch && m.revision == t.revision)

  unfoldable pub state : SceneState P → SceneTap P S → SceneTap P S
  unfolding invalidate_tap install state_positions move_all
  state m t =
      if belongs m t
      then (if bytes_eq m.frame_id (codes "world")
          then (if is_empty t.scene.dynamic
              then install_unready (record t { have_state = true })
              else move m t)
          else invalidate_tap (record t { have_state = false }))
      else t

-- What the scene node calls.
pub data Call (P G : Type 0) : Type 0 where
  applies : (epoch : Bytes) (revision : ℕ) (synchronized : Bool) → Call P G
  snapshots : SceneSnapshot P G → Call P G
  states : SceneState P → Call P G

module _ {P G S : Type 0} (g : Geometry P G S) where
  unfoldable pub call : Call P G → SceneTap P S → SceneTap P S
  unfolding application snapshot state
  call (applies epoch revision synchronized) t = application g epoch revision synchronized t
  call (snapshots m) t = snapshot g m t
  call (states m) t = state g m t

  unfoldable pub run : List (Call P G) → SceneTap P S → SceneTap P S
  unfolding call
  run [] t = t
  run (c ∷ cs) t = run cs (call c t)
