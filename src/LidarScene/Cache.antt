-- ===== src/LidarScene/Cache.antt =====
-- `SceneCache` (src/scene_ros1_adapter/src/lidar/scene.cpp) and what `Engine::setScene`,
-- `invalidateScene` and `setPointCloud` do to it (src/scene_ros1_adapter/src/lidar/engine.cpp). The
-- prepared scenes of all sampling policies are the shapes that they were built from; `builds` says
-- whether building them returns.
use xgc2_ros1_adapter.Common.{
  ℕ, Bool, true, false, List, [], Option, none, some, ◌&&◌, ◌||◌, ltb, ◌==◌, if◌then◌else◌,
}

pub record SceneCache (S : Type 0) : Type 0 where
  pub have_revision : Bool
  pub revision : ℕ
  pub ready : Bool
  pub scenes : List S

pub record Engine (S : Type 0) : Type 0 where
  pub scenes : SceneCache S
  pub point_map : Bool

module _ {S : Type 0} where
  abbrev pub new_engine : Engine S
  new_engine = record {
    scenes = record { have_revision = false; revision = 0; ready = false; scenes = [] };
    point_map = false;
  }

  -- The flag is whether the revision was taken.
  unfoldable pub invalidate : (revision : ℕ) → SceneCache S → SceneCache S × Bool
  invalidate revision c =
      if c.have_revision && ltb revision c.revision
      then (c, false)
      else (record c { have_revision = true; revision = revision; ready = false }, true)

  abbrev pub invalidate_scene : (revision : ℕ) → Engine S → Engine S × Bool
  invalidate_scene revision e =
      let (c, taken) = invalidate revision e.scenes in (record e { scenes = c }, taken)

module _ {S : Type 0} (builds : List S → Bool) where
  -- `none` where building a scene throws.
  unfoldable pub set_cached : List S → (revision : ℕ) → SceneCache S → SceneCache S × Option Bool
  set_cached obstacles revision c =
      let d = (invalidate revision c).0 in
      if c.have_revision && (ltb revision c.revision || (revision == c.revision && c.ready))
      then (c, some false)
      else (if builds obstacles
          then (record d { scenes = obstacles; ready = true }, some true)
          else (d, none))

  unfoldable pub set_scene : List S → (revision : ℕ) → Engine S → Engine S × Option Bool
  unfolding set_cached
  set_scene obstacles revision e =
      let (f, taken) = invalidate_scene revision e in
      let (c, threw) = set_cached (if e.point_map then [] else obstacles) revision f.scenes in
      if e.scenes.ready && revision == e.scenes.revision
      then (e, some false)
      else (if taken
          then (record f { scenes = c }, elim threw [ none ↦ none | some b ↦ some true ])
          else (f, some false))

  abbrev pub set_point_cloud : (revision : ℕ) → Engine S → Engine S × Option Bool
  set_point_cloud revision e = set_scene [] revision (record e { point_map = true })
