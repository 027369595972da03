-- ===== src/LidarScene/Current.antt =====
-- When the lidars have a scene, it is the current one
-- (src/scene_ros1_adapter/src/lidar_ros/scene_tap.cpp).
use xgc2_ros1_adapter.Common.{
  ℕ, ◌≤◌, ◌≡◌, refl, ◌∙◌, sym, ap, Bool, true, false, List, [], ◌∷◌, some, not, ◌&&◌, ◌||◌, Bytes,
  bytes_eq, eq_of_bytes_eq, is_empty, arith, if_rule, option_rule, codes,
}
use xgc2_ros1_adapter.LidarScene.Cache.{Engine, invalidate, invalidate_scene, set_cached, set_scene}
use xgc2_ros1_adapter.LidarScene.Messages.{
  Geometry, SceneSnapshot, SceneState, Description, Dynamic, at, read_snapshot,
}
use xgc2_ros1_adapter.LidarScene.Tap.{
  SceneTap, new_tap, obstacles, invalidate_tap, synchronized, install_shapes, install,
  install_unready, application, changed_application, with_application, kept_application, stale,
  belongs, forget, snapshot, move_to, move_all, moved, moved_tap, move, state, Call, applies,
  snapshots, states, call, run,
}

-- The engine has no scene, and its revision is one that the tap gave.
pub record Quiet {S : Type 0} (e : Engine S) (n : ℕ) : Type 0 where
  pub unready : e.scenes.ready ≡ false
  pub bounded : e.scenes.revision ≤ n
  pub free : e.point_map ≡ false

module _ {P G S : Type 0} (g : Geometry P G S) where
  -- The scene that the lidars have is of the last snapshot, which is applied and whose dynamic
  -- obstacles have states; its shapes are those of the ground and of the obstacles at the last poses.
  abbrev pub IsCurrent : SceneTap P S → Type 0
  IsCurrent t =
      (t.have_snapshot ≡ true)
      × (synchronized g t ≡ true)
      × ((t.have_state || is_empty t.scene.dynamic) ≡ true)
      × (obstacles g t.scene ≡ some t.engine.scenes.scenes)
      × (t.engine.scenes.revision ≡ t.installation)

  pub record TapValid (t : SceneTap P S) : Type 0 where
    pub bounded : t.engine.scenes.revision ≤ t.installation
    pub free : t.engine.point_map ≡ false
    pub current : t.engine.scenes.ready ≡ true → IsCurrent t

  Quiet-TapValid : (t : SceneTap P S) → Quiet t.engine t.installation → TapValid t
  Quiet-TapValid t q = record {
    bounded = q.bounded;
    free = q.free;
    current = λ h. cc (h, q.unready);
  }

  abbrev Bounded : SceneTap P S → Type 0
  Bounded t = (t.engine.scenes.revision ≤ t.installation) × (t.engine.point_map ≡ false)

  invalidate_tap-Quiet :
      (t : SceneTap P S)
      → Bounded t
      → Quiet (invalidate_tap g t).engine (invalidate_tap g t).installation
  unfolding invalidate_tap invalidate
  invalidate_tap-Quiet t b = record {
    unready = ground (arith, b.0);
    bounded = ground (arith, b.0);
    free = ground (arith, b.1);
  }

  refused-Quiet : (e : Engine S) (n : ℕ) → Quiet e n → Quiet (invalidate_scene n e).0 n
  unfolding invalidate
  refused-Quiet e n q = record {
    unready = ground (arith, q.unready, q.bounded);
    bounded = ground (arith, q.unready, q.bounded);
    free = q.free;
  }

  -- A scene that is built has the shapes and the revision that it was given.
  record Built (shapes : List S) (n : ℕ) (e : Engine S) : Type 0 where
    scenes : e.scenes.ready ≡ true → (e.scenes.scenes ≡ shapes) × (e.scenes.revision ≡ n)
    bounded : e.scenes.revision ≤ n
    free : e.point_map ≡ false

  install_shapes-Built :
      (shapes : List S) (n : ℕ) (e : Engine S)
      → Quiet e n
      → Built shapes n (install_shapes g shapes n e)
  unfolding install_shapes set_scene set_cached invalidate
  install_shapes-Built shapes n e q = record {
    scenes = ground (arith, q.unready, q.bounded, q.free);
    bounded = ground (arith, q.unready, q.bounded, q.free);
    free = ground (arith, q.unready, q.bounded, q.free);
  }

  -- A tap with what an installation of its scene did to its engine.
  abbrev installable : SceneTap P S → Bool
  installable t =
      t.have_snapshot && (synchronized g t && (t.have_state || is_empty t.scene.dynamic))

  Built-TapValid :
      (t : SceneTap P S) (e : Engine S) (shapes : List S)
      → installable t ≡ true
      → obstacles g t.scene ≡ some shapes
      → Built shapes t.installation e
      → TapValid (record t { engine = e })
  Built-TapValid t e shapes i o b = record {
    bounded = b.bounded;
    free = b.free;
    current = λ h. (
      ground (arith, i),
      ground (arith, i),
      ground (arith, i),
      o ∙ ap some (sym (b.scenes h).0),
      (b.scenes h).1,
    );
  }

  install-TapValid : (t : SceneTap P S) → Quiet t.engine t.installation → TapValid (install g t)
  unfolding install
  install-TapValid t q =
      if_rule TapValid _ (λ h. Quiet-TapValid t q)
        (λ h.
          option_rule (λ e. TapValid (record t { engine = e })) (obstacles g t.scene)
            (λ o. Quiet-TapValid _ (refused-Quiet t.engine t.installation q))
            (λ shapes o.
              Built-TapValid t _ shapes (ground (arith, h)) o
                (install_shapes-Built shapes t.installation t.engine q)))

  install_unready-TapValid : (t : SceneTap P S) → TapValid t → TapValid (install_unready g t)
  install_unready-TapValid t v =
      if_rule TapValid t.engine.scenes.ready (λ h. v)
        (λ h. install-TapValid t (record { unready = h; bounded = v.bounded; free = v.free }))

  invalidate_tap-TapValid : (t : SceneTap P S) → Bounded t → TapValid (invalidate_tap g t)
  invalidate_tap-TapValid t b = Quiet-TapValid _ (invalidate_tap-Quiet t b)

  -- The same application again changes nothing that the scene depends on.
  repeated-IsCurrent :
      (epoch : Bytes) (revision : ℕ) (synced : Bool) (t : SceneTap P S)
      → epoch ≡ t.application_epoch
      → revision ≡ t.application_revision
      → synced ≡ true
      → IsCurrent t
      → IsCurrent (with_application g epoch revision synced t)
  repeated-IsCurrent epoch revision synced t e r y c =
      (c.0, ground (arith, c.1, e, r, y), c.2, c.3, c.4)

  pub kept_application-TapValid :
      (epoch : Bytes) (revision : ℕ) (synced : Bool) (t : SceneTap P S)
      → TapValid t
      → TapValid (kept_application g epoch revision synced t)
  kept_application-TapValid epoch revision synced t v =
      if_rule TapValid (changed_application g epoch revision synced t || not synced)
        (λ h. invalidate_tap-TapValid _ (v.bounded, v.free))
        (λ h. record {
          bounded = v.bounded;
          free = v.free;
          current = λ r.
              repeated-IsCurrent epoch revision synced t
                (eq_of_bytes_eq epoch t.application_epoch (ground (arith, h))) (ground (arith, h))
                (ground (arith, h)) (v.current r);
        })

  application-TapValid :
      (epoch : Bytes) (revision : ℕ) (synced : Bool) (t : SceneTap P S)
      → TapValid t
      → TapValid (application g epoch revision synced t)
  unfolding application
  application-TapValid epoch revision synced t v =
      let k = kept_application-TapValid epoch revision synced t v in
      if_rule TapValid synced (λ h. install_unready-TapValid _ k) (λ h. k)

  snapshot-TapValid :
      (m : SceneSnapshot P G) (t : SceneTap P S) → TapValid t → TapValid (snapshot g m t)
  unfolding snapshot
  snapshot-TapValid m t v =
      let q = invalidate_tap-Quiet t (v.bounded, v.free) in
      if_rule TapValid (stale g m t) (λ h. v)
        (λ h.
          if_rule TapValid (bytes_eq m.frame_id (codes "world"))
            (λ w.
              option_rule TapValid (read_snapshot g m) (λ r. Quiet-TapValid _ q)
                (λ scene r.
                  install-TapValid (record (forget g m t) { have_snapshot = true; scene = scene })
                    q))
            (λ w. Quiet-TapValid _ q))

  -- Poses that do not change leave the descriptions as they are.
  abbrev Unmoved : List (Description P S) × Bool → List (Description P S) × Bool → Type 0
  Unmoved ds r = r.1 ≡ false → (r.0 ≡ ds.0) × (ds.1 ≡ false)

  move_to-Unmoved :
      (pose : P) (i : ℕ) (ds : List (Description P S) × Bool) → Unmoved ds (move_to g pose i ds)
  unfolding move_to
  move_to-Unmoved pose i ds =
      option_rule (Unmoved ds) (at i ds.0) (λ e h. (refl, h))
        (λ d e. if_rule (Unmoved ds) (g.same_pose pose d.pose) (λ w h. (refl, h)) (λ w h. cc h))

  move_all-Unmoved :
      (positions : ℕ → ℕ) (poses : List (Bytes × P)) (ms : List Dynamic)
      (ds : List (Description P S) × Bool)
      → Unmoved ds (move_all g positions poses ms ds).0
  unfolding move_all
  move_all-Unmoved positions poses [] ds = λ h. (refl, h)
  move_all-Unmoved positions poses (m ∷ ms) ds =
      option_rule (λ (r : (List (Description P S) × Bool) × Bool). Unmoved ds r.0)
        (at (positions m.state) poses) (λ e h. (refl, h))
        (λ s e h.
          let k = move_all-Unmoved positions poses ms (move_to g s.1 m.description ds) h in
          let l = move_to-Unmoved s.1 m.description ds k.1 in (k.0 ∙ l.0, l.1))

  with_states-TapValid : (t : SceneTap P S) → TapValid t → TapValid (record t { have_state = true })
  with_states-TapValid t v = record {
    bounded = v.bounded;
    free = v.free;
    current = λ h. let c = v.current h in (c.0, c.1, refl, c.3, c.4);
  }

  unmoved-TapValid :
      (m : SceneState P) (t : SceneTap P S)
      → TapValid t
      → (moved g m t.scene).0.1 ≡ false
      → TapValid (moved_tap g m true t)
  unmoved-TapValid m t v c = record {
    bounded = v.bounded;
    free = v.free;
    current = λ h.
        let k = v.current h in
        let e =
          (move_all-Unmoved _ m.obstacles t.scene.dynamic (t.scene.descriptions, false) c).0 in
        (
          k.0,
          k.1,
          refl,
          ap (λ ds. obstacles g (record t.scene { descriptions = ds })) e ∙ k.3,
          k.4,
        );
  }

  move-TapValid : (m : SceneState P) (t : SceneTap P S) → TapValid t → TapValid (move g m t)
  move-TapValid m t v =
      if_rule TapValid (moved g m t.scene).1
        (λ w.
          if_rule TapValid (moved g m t.scene).0.1
            (λ c.
              install_unready-TapValid _
                (invalidate_tap-TapValid (moved_tap g m true t) (v.bounded, v.free)))
            (λ c. install_unready-TapValid (moved_tap g m true t) (unmoved-TapValid m t v c)))
        (λ w. invalidate_tap-TapValid (moved_tap g m false t) (v.bounded, v.free))

  state-TapValid : (m : SceneState P) (t : SceneTap P S) → TapValid t → TapValid (state g m t)
  unfolding state
  state-TapValid m t v =
      if_rule TapValid (belongs g m t)
        (λ b.
          if_rule TapValid (bytes_eq m.frame_id (codes "world"))
            (λ w.
              if_rule TapValid (is_empty t.scene.dynamic)
                (λ e. install_unready-TapValid _ (with_states-TapValid t v))
                (λ e. move-TapValid m t v))
            (λ w. invalidate_tap-TapValid (record t { have_state = false }) (v.bounded, v.free)))
        (λ b. v)

  call-TapValid : (c : Call P G) (t : SceneTap P S) → TapValid t → TapValid (call g c t)
  unfolding call
  call-TapValid (applies epoch revision synced) t v = application-TapValid epoch revision synced t v
  call-TapValid (snapshots m) t v = snapshot-TapValid m t v
  call-TapValid (states m) t v = state-TapValid m t v

  pub run-TapValid : (cs : List (Call P G)) (t : SceneTap P S) → TapValid t → TapValid (run g cs t)
  unfolding run
  run-TapValid [] t v = v
  run-TapValid (c ∷ cs) t v = run-TapValid cs (call g c t) (call-TapValid c t v)

  pub new_tap-TapValid : TapValid (new_tap g)
  new_tap-TapValid = record { bounded = omega arith; free = refl; current = λ h. cc h }
