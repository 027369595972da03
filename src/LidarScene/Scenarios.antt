-- ===== src/LidarScene/Scenarios.antt =====
-- Tests of src/scene_ros1_adapter/src/lidar_ros/scene_tap.cpp, and the theorems at concrete inputs.
-- Poses and shapes are numbers here: a shape is placed by adding the poses, and the pose 99 has no
-- direction.
use xgc2_ros1_adapter.Common.{
  ℕ, ◌+◌, ◌≡◌, refl, true, false, List, [], ◌∷◌, some, none, ◌==◌, if◌then◌else◌, codes, bytes_eq,
}
use xgc2_ros1_adapter.LidarScene.Cache.{
  invalidate, set_cached, set_scene, set_point_cloud, new_engine,
}
use xgc2_ros1_adapter.LidarScene.Messages.{
  Geometry, model, ObstacleMessage, SceneSnapshot, SceneState, at, slot_of, shapes_of, ground_parts,
  read_ground, read_parts, read_obstacles, read_snapshot,
}
use xgc2_ros1_adapter.LidarScene.Tap.{
  SceneTap, new_tap, part_shapes, description_shapes, invalidate_tap, install_shapes, install,
  application, snapshot, state_positions, set_pose, move_to, move_all, state, Call, applies,
  snapshots, states, call, run,
}
use xgc2_ros1_adapter.LidarScene.Recovery.{Installed, application-Installed}

tap_code : Unit {0}
unfolding bytes_eq invalidate set_cached set_scene at slot_of shapes_of ground_parts read_ground
    read_parts read_obstacles read_snapshot part_shapes description_shapes invalidate_tap
    install_shapes install application snapshot state_positions set_pose move_to move_all state call
    run
tap_code = tt

abbrev numbers : Geometry ℕ ℕ ℕ
numbers = record {
  normalized = λ p. if p == 99 then none else some p;
  placed = λ parent local shape. parent + local + shape;
  same_pose = λ a b. a == b;
  shape_of = λ s. if s == 0 then none else some s;
  builds = λ shapes. true;
}

abbrev tree : ObstacleMessage ℕ
tree = record {
  id = codes "tree";
  dynamic = false;
  pose = 10;
  parts = record { geometry_index = 0; pose = 1 } ∷ [];
}

abbrev gate : ObstacleMessage ℕ
gate = record {
  id = codes "gate";
  dynamic = true;
  pose = 20;
  parts = record { geometry_index = 1; pose = 2 } ∷ [];
}

abbrev yard : SceneSnapshot ℕ ℕ
yard = record {
  frame_id = codes "world";
  epoch = codes "e";
  revision = 7;
  geometries = 100 ∷ 200 ∷ [];
  ground = record {
    mode = model;
    finite_z = true;
    pose = 5;
    parts = record { geometry_index = 0; pose = 0 } ∷ [];
  };
  obstacles = tree ∷ gate ∷ [];
}

abbrev gate_at : ℕ → SceneState ℕ
gate_at pose = record {
  frame_id = codes "world";
  epoch = codes "e";
  revision = 7;
  obstacles = (codes "x", 1) ∷ (codes "gate", pose) ∷ (codes "gate", 90) ∷ [];
}

abbrev history : List (Call ℕ ℕ)
history =
    snapshots yard ∷ states (gate_at 30) ∷ applies (codes "e") 7 true ∷ states (gate_at 40) ∷ []

abbrev now : SceneTap ℕ ℕ
now = run numbers history (new_tap numbers)

moves_the_gate :
    (now.engine.scenes.ready ≡ true)
    × (now.engine.scenes.scenes ≡ 105 ∷ 111 ∷ 242 ∷ [])
    × ((run numbers (states (gate_at 99) ∷ []) now).engine.scenes.ready ≡ false)
    × ((run numbers (applies (codes "e") 8 true ∷ []) now).engine.scenes.ready ≡ false)
unfolding tap_code
moves_the_gate = (refl, refl, refl, refl)

saved_cloud : (set_point_cloud (λ (shapes : List ℕ). true) 0 new_engine).0.scenes.ready ≡ true
unfolding tap_code
saved_cloud = refl

abbrev unapplied : List (Call ℕ ℕ)
unapplied = snapshots yard ∷ states (gate_at 30) ∷ []

application-Installed_example :
    let t = run numbers unapplied (new_tap numbers) in
    Installed numbers (105 ∷ 111 ∷ 232 ∷ []) (application numbers t.epoch t.revision true t)
unfolding tap_code
application-Installed_example =
    application-Installed numbers (105 ∷ 111 ∷ 232 ∷ []) unapplied refl refl refl refl
