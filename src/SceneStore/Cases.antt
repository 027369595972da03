-- ===== src/SceneStore/Cases.antt =====
-- What each step of the store may change (src/scene_ros1_adapter/src/core/store.cpp): rules by
-- which a property of the store goes through it.
use xgc2_ros1_adapter.Common.{
  ◌≡◌, sym, subst, ◌⊎◌, inl, inr, Bytes, arith, Bool-cases, Option-cases, is_some,
}
use xgc2_ros1_adapter.SceneStore.State.{Store, require}
use xgc2_ros1_adapter.SceneStore.Save.{Saving, target, saved_to, save_target, save}

save_target_cases :
    (f : Saving) (path : Bytes) (s : Store)
    → ((save_target f path s).0 ≡ s) ⊎ ((save_target f path s).0 ≡ saved_to path f.encoded s)
unfolding save_target
save_target_cases f path s = ground arith

-- Saving changes at most what `saved_to` changes.
module _ {ℓ} (P : Store → Type ℓ) (s : Store) where
  abbrev pub Saves : Type ℓ
  Saves = (path digest : Bytes) → P (saved_to path digest s)

  save_target_elim : (f : Saving) (path : Bytes) → P s → Saves → P (save_target f path s).0
  save_target_elim f path h k = elim (save_target_cases f path s) [
    | inl e ↦ subst P (sym e) h
    | inr e ↦ subst P (sym e) (k path f.encoded)
  ]

  pub save_elim : (f : Saving) → P s → Saves → P (save f s).0
  unfolding save
  save_elim f h k = elim (Bool-cases (is_some s.save_root)) [
    | inr e ↦ rw (e, save, require) h
    | inl e ↦ elim (Option-cases (target s)) [
      | inl t ↦ rw (e, t, save, require) h
      | inr (path, t) ↦ rw (e, t, save, require) (save_target_elim f path h k)
    ]
  ]
