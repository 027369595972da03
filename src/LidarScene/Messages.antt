-- ===== src/LidarScene/Messages.antt =====
-- The scene messages that `SceneTap` reads (src/scene_ros1_adapter/src/lidar_ros/scene_tap.cpp), and
-- the reading of a snapshot. Poses `P`, geometries `G` and shapes `S` are of any types, with the
-- floating-point geometry of the libraries as arguments.
use xgc2_ros1_adapter.Common.{
  ℕ, zero, suc, Bool, List, [], ◌∷◌, ◌++◌, Option, none, some, if◌then◌else◌, Bytes, bytes_eq,
  length, is_empty,
}

-- `normalized` is none where a quaternion has no direction, `shape_of` where a geometry is refused;
-- `builds` is whether the lidar scenes of some shapes can be built.
pub record Geometry (P G S : Type 0) : Type 0 where
  pub normalized : P → Option P
  pub placed : (parent local : P) → S → S
  pub same_pose : P → P → Bool
  pub shape_of : G → Option S
  pub builds : List S → Bool

pub record PartMessage (P : Type 0) : Type 0 where
  pub geometry_index : ℕ
  pub pose : P

pub data GroundMode : Type 0 where
  no_ground default_plane model unsupported : GroundMode

pub record GroundMessage (P : Type 0) : Type 0 where
  pub mode : GroundMode
  pub finite_z : Bool
  pub pose : P
  pub parts : List (PartMessage P)

pub record ObstacleMessage (P : Type 0) : Type 0 where
  pub id : Bytes
  pub dynamic : Bool
  pub pose : P
  pub parts : List (PartMessage P)

pub record SceneSnapshot (P G : Type 0) : Type 0 where
  pub frame_id : Bytes
  pub epoch : Bytes
  pub revision : ℕ
  pub geometries : List G
  pub ground : GroundMessage P
  pub obstacles : List (ObstacleMessage P)

-- `obstacles` are ids with their poses.
pub record SceneState (P : Type 0) : Type 0 where
  pub frame_id : Bytes
  pub epoch : Bytes
  pub revision : ℕ
  pub obstacles : List (Bytes × P)

pub record Description (P S : Type 0) : Type 0 where
  pub id : Bytes
  pub pose : P
  pub parts : List (S × P)

pub record Dynamic : Type 0 where
  pub description : ℕ
  pub state : ℕ

-- What a snapshot defines.
pub record Scene (P S : Type 0) : Type 0 where
  pub descriptions : List (Description P S)
  pub ground_shapes : List S
  pub dynamic : List Dynamic
  pub dynamic_slots : List (Bytes × ℕ)

infixl 5 ◌>>=◌
abbrev pub ◌>>=◌ {ℓ κ} : {A : Type ℓ} {B : Type κ} → Option A → (A → Option B) → Option B
none >>= f = none
some a >>= f = f a

unfoldable pub at {ℓ} : {A : Type ℓ} → ℕ → List A → Option A
at i [] = none
at zero (a ∷ rest) = some a
at (suc i) (a ∷ rest) = at i rest

unfoldable pub slot_of : Bytes → List (Bytes × ℕ) → Option ℕ
slot_of id [] = none
slot_of id ((k, slot) ∷ rest) =
    let later = slot_of id rest in if bytes_eq k id then some slot else later

module _ {P G S : Type 0} (g : Geometry P G S) where
  unfoldable pub shapes_of : List G → Option (List S)
  shapes_of [] = some []
  shapes_of (x ∷ xs) = do shape ← g.shape_of x; shapes ← shapes_of xs; some (shape ∷ shapes)

  unfoldable pub ground_parts : List S → (parent : P) → List (PartMessage P) → Option (List S)
  unfolding at
  ground_parts geometries parent [] = some []
  ground_parts geometries parent (p ∷ ps) = do
    shape ← at p.geometry_index geometries
    shapes ← ground_parts geometries parent ps
    some (g.placed parent p.pose shape ∷ shapes)

  -- The shapes of the ground.
  unfoldable pub read_ground : List S → GroundMessage P → Option (List S)
  unfolding ground_parts
  read_ground geometries ground = elim ground.mode [
    | model ↦
        if is_empty ground.parts
        then none
        else (g.normalized ground.pose >>= λ parent. ground_parts geometries parent ground.parts)
    | default_plane ↦
        if is_empty ground.parts then (if ground.finite_z then some [] else none) else none
    | no_ground ↦ if is_empty ground.parts then some [] else none
    | unsupported ↦ none
  ]

  unfoldable pub read_parts : List S → List (PartMessage P) → Option (List (S × P))
  unfolding at
  read_parts geometries [] = some []
  read_parts geometries (p ∷ ps) = do
    shape ← at p.geometry_index geometries
    parts ← read_parts geometries ps
    some ((shape, p.pose) ∷ parts)

  -- A dynamic obstacle gets the slot of its id, a new one for a new id.
  abbrev add_slot : Bytes → Scene P S → Scene P S
  add_slot id s = elim (slot_of id s.dynamic_slots) [
    | some slot ↦ record s {
      dynamic = s.dynamic ++ record { description = length s.descriptions; state = slot } ∷ [];
    }
    | none ↦
        let slot = length s.dynamic_slots in
        record s {
          dynamic = s.dynamic ++ record { description = length s.descriptions; state = slot } ∷ [];
          dynamic_slots = s.dynamic_slots ++ (id, slot) ∷ [];
        }
  ]

  abbrev add_obstacle : ObstacleMessage P → List (S × P) → Scene P S → Scene P S
  add_obstacle o parts s =
      let t = if o.dynamic then add_slot o.id s else s in
      record t {
        descriptions = t.descriptions ++ record { id = o.id; pose = o.pose; parts = parts } ∷ [];
      }

  unfoldable pub read_obstacles : List S → List (ObstacleMessage P) → Scene P S → Option (Scene P S)
  unfolding read_parts slot_of
  read_obstacles geometries [] s = some s
  read_obstacles geometries (o ∷ os) s = do
    parts ← read_parts geometries o.parts
    read_obstacles geometries os (add_obstacle o parts s)

  abbrev pub no_scene : Scene P S
  no_scene = record { descriptions = []; ground_shapes = []; dynamic = []; dynamic_slots = [] }

  -- The reading of a snapshot; `none` where it throws.
  unfoldable pub read_snapshot : SceneSnapshot P G → Option (Scene P S)
  unfolding shapes_of read_ground read_obstacles
  read_snapshot m = do
    geometries ← shapes_of m.geometries
    ground ← read_ground geometries m.ground
    read_obstacles geometries m.obstacles (record no_scene { ground_shapes = ground })
