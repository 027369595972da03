-- ===== src/LidarScene/Recovery.antt =====
-- The lidars get their scene back (src/scene_ros1_adapter/src/lidar_ros/scene_tap.cpp).
use mathlib.Core.Option.{some-injective}
use xgc2_ros1_adapter.Common.{
  ℕ, ◌≡◌, ◌∙◌, sym, subst, true, List, none, some, not, ◌&&◌, ◌||◌, ◌==◌, bytes_eq, bytes_eq_refl,
  ==_refl, is_empty, arith, if_rule,
}
use xgc2_ros1_adapter.LidarScene.Cache.{Engine, invalidate, invalidate_scene, set_cached, set_scene}
use xgc2_ros1_adapter.LidarScene.Messages.{Geometry}
use xgc2_ros1_adapter.LidarScene.Tap.{
  SceneTap, new_tap, obstacles, invalidate_tap, synchronized, install_shapes, held_back, install,
  install_unready, application, changed_application, kept_application, Call, run,
}
use xgc2_ros1_adapter.LidarScene.Current.{
  Quiet, TapValid, kept_application-TapValid, run-TapValid, new_tap-TapValid,
}

module _ {P G S : Type 0} (g : Geometry P G S) (shapes : List S) where
  -- What an installation of a scene needs.
  abbrev Ripe : SceneTap P S → Type 0
  Ripe t =
      (t.have_snapshot ≡ true)
      × (synchronized g t ≡ true)
      × ((t.have_state || is_empty t.scene.dynamic) ≡ true)
      × (obstacles g t.scene ≡ some shapes)

  abbrev pub Installed : SceneTap P S → Type 0
  Installed t = (t.engine.scenes.ready ≡ true) × (t.engine.scenes.scenes ≡ shapes)

  install_shapes-installed :
      (n : ℕ) (e : Engine S)
      → Quiet e n
      → g.builds shapes ≡ true
      → ((install_shapes g shapes n e).scenes.ready ≡ true)
        × ((install_shapes g shapes n e).scenes.scenes ≡ shapes)
  unfolding install_shapes set_scene set_cached invalidate
  install_shapes-installed n e q b = (
    ground (arith, q.unready, q.bounded, q.free, b),
    ground (arith, q.unready, q.bounded, q.free, b),
  )

  install-Installed :
      (t : SceneTap P S)
      → Quiet t.engine t.installation
      → Ripe t
      → g.builds shapes ≡ true
      → Installed (install g t)
  unfolding install
  install-Installed t q r b =
      if_rule Installed (held_back g t) (λ h. absurd (ground (arith, h, r.0, r.1, r.2)))
        (λ h.
          let k = install_shapes-installed t.installation t.engine q b in
          subst
            (λ o. Installed (record t {
              engine = elim o [
                | none ↦ (invalidate_scene t.installation t.engine).0
                | some shapes ↦ install_shapes g shapes t.installation t.engine
              ];
            }))
            (sym r.3) k)

  install_unready-Installed :
      (t : SceneTap P S)
      → TapValid g t
      → Ripe t
      → g.builds shapes ≡ true
      → Installed (install_unready g t)
  install_unready-Installed t v r b =
      if_rule Installed t.engine.scenes.ready
        (λ h. (h, some-injective _ _ (sym (v.current h).3 ∙ r.3)))
        (λ h. install-Installed t (record { unready = h; bounded = v.bounded; free = v.free }) r b)

  -- Whatever a new tap was given before: when it has a snapshot whose dynamic obstacles have had a
  -- state, or that has none, and the scene of its shapes can be built, then the application of the
  -- snapshot's epoch and revision leaves the lidars with the scene of these shapes.
  pub application-Installed :
      (cs : List (Call P G))
      → let t = run g cs (new_tap g) in
        t.have_snapshot ≡ true
        → (t.have_state || is_empty t.scene.dynamic) ≡ true
        → obstacles g t.scene ≡ some shapes
        → g.builds shapes ≡ true
        → Installed (application g t.epoch t.revision true t)
  unfolding application invalidate_tap
  application-Installed cs s d o b =
      let t = run g cs (new_tap g) in
      let v = run-TapValid g cs (new_tap g) (new_tap-TapValid g) in
      let applied : (bytes_eq t.epoch t.epoch && t.revision == t.revision) ≡ true =
        ground (arith, bytes_eq_refl t.epoch, ==_refl t.revision) in
      install_unready-Installed (kept_application g t.epoch t.revision true t)
        (kept_application-TapValid g t.epoch t.revision true t v)
        (if_rule Ripe (changed_application g t.epoch t.revision true t || not true)
          (λ h. (s, applied, d, o)) (λ h. (s, applied, d, o)))
        b
