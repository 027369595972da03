-- ===== src/SceneStore/History.antt =====
-- What `SceneStore` promises of its document (src/scene_ros1_adapter/src/core/store.cpp): a present
-- document with a past and a future, of which every operation has one effect.
use xgc2_ros1_adapter.Common.{
  ℕ, ◌≡◌, refl, subst, ap, ◌∙◌, ◌&&◌, Bool, true, false, List, [], ◌∷◌, Option, none, some, not,
  if◌then◌else◌, Bytes, take, arith, is_some, Bool-cases, Option-cases, inl, inr,
}
use xgc2_ros1_adapter.SceneStore.State.{
  SceneError, not_saved, Document, document_eq, Store, Outcome, returned, threw, M, ◌>>=◌, ◌>>◌,
  modify, pure, option_eq, after, require,
}
use xgc2_ros1_adapter.SceneStore.Save.{
  Saving, save_target, save, check_source, prepare_edit, autosave, wrapped, target,
}
use xgc2_ros1_adapter.SceneStore.Execute.{
  Operation, get_scene, resync, save_scene, reload, play, pause, reset, undo, redo, Payload, World,
  apply, start_apply, end_apply, candidate,
}

pub record History : Type 0 where
  pub present : Document
  pub past : List Document
  pub future : List Document

abbrev pub view : Store → History
view s = record { present = s.document; past = s.undo_stack; future = s.redo_stack }

abbrev pub commit : Document → History → History
commit d h = record { present = d; past = take 128 (h.present ∷ h.past); future = [] }

abbrev pub back : History → History
back h = elim h.past [
  | [] ↦ h
  | d ∷ rest ↦ record { present = d; past = rest; future = h.present ∷ h.future }
]

abbrev pub forth : History → History
forth h = elim h.future [
  | [] ↦ h
  | d ∷ rest ↦ record { present = d; past = h.present ∷ h.past; future = rest }
]

-- The effect of an operation that is not refused.
unfoldable pub intended : World → Operation → Payload → History → History
intended w get_scene p h = h
intended w resync p h = h
intended w save_scene p h = h
intended w play p h = h
intended w pause p h = h
intended w reset p h = h
intended w undo p h = back h
intended w redo p h = forth h
intended w reload p h = elim w.loaded [
  | none ↦ h
  | some (d, _) ↦ record { present = d; past = []; future = [] }
]
intended w op p h = elim (candidate w op p h.present) [
  | threw e ↦ h
  | returned d ↦ if document_eq d h.present then h else commit d h
]

-- The failures that leave the effect in place: those of an autosave.
abbrev pub live_changed : SceneError → Bool
live_changed (not_saved e) = true
live_changed _ = false

abbrev pub expected : Outcome (Unit {0}) → (before after : History) → History
expected (returned _) h k = k
expected (threw e) h k = if live_changed e then k else h

abbrev pub plain : Outcome (Unit {0}) → Bool
plain (returned _) = true
plain (threw e) = not (live_changed e)

pub record Unseen (s : Store) (r : Store × Outcome (Unit {0})) : Type 0 where
  pub viewed : view r.0 ≡ view s
  pub plainly : plain r.1 ≡ true

save_target-Unseen : (f : Saving) (path : Bytes) (s : Store) → Unseen s (save_target f path s)
unfolding save_target
save_target-Unseen f path s = record { viewed = ground arith; plainly = ground arith }

pub save-Unseen : (f : Saving) (s : Store) → Unseen s (save f s)
unfolding save
save-Unseen f s = elim (Bool-cases (is_some s.save_root)) [
  | inr e ↦ rw (e, save, require) record { viewed = refl; plainly = refl }
  | inl e ↦ elim (Option-cases (target s)) [
    | inl t ↦ rw (e, t, save, require) record { viewed = refl; plainly = refl }
    | inr (path, t) ↦ rw (e, t, save, require) (save_target-Unseen f path s)
  ]
]

pub check_source-Unseen : (d : Option Bytes) (s : Store) → Unseen s (check_source d s)
unfolding check_source
check_source-Unseen d s = elim (Option-cases s.source) [
  | inl e ↦ rw (e, check_source) record { viewed = refl; plainly = refl }
  | inr (path, e) ↦ rw (e, check_source) record { viewed = ground arith; plainly = ground arith }
]

pub after-Unseen :
    {s : Store} (f : Unit {0} → Store → Store × Outcome (Unit {0})) (t : Store)
    (r : Outcome (Unit {0}))
    → Unseen s (t, r)
    → ((a : Unit {0}) (u : Store) → view u ≡ view s → Unseen s (f a u))
    → Unseen s (after f t r)
after-Unseen f t (returned a) h k = k a t h.viewed
after-Unseen f t (threw e) h k = h

-- The save before an edit into a working file.
first_save-Unseen :
    (f : Saving) (s u : Store) (b : Bool)
    → view u ≡ view s
    → Unseen s ((if b then save f else (λ t. (t, returned tt))) u)
first_save-Unseen f s u true e = record {
  viewed = (save-Unseen f u).viewed ∙ e;
  plainly = (save-Unseen f u).plainly;
}
first_save-Unseen f s u false e = record { viewed = e; plainly = refl }

abbrev first_save : Saving → Unit {0} → M (Unit {0})
first_save f a u =
    (if is_some u.working_file && not (option_eq u.source u.working_file) then save f else pure tt)
      u

pub prepare_edit-Unseen :
    (d : Option Bytes) (f : Saving) (s : Store) → Unseen s (prepare_edit d f s)
unfolding prepare_edit
prepare_edit-Unseen d f s =
    after-Unseen (first_save f) _ _ (check_source-Unseen d s) λ a u e. first_save-Unseen f s u _ e

wrapped-expected :
    (h k : History) (t : Store) (r : Outcome (Unit {0}))
    → view t ≡ k
    → view (wrapped (t, r)).0 ≡ expected (wrapped (t, r)).1 h k
wrapped-expected h k t (returned a) e = e
wrapped-expected h k t (threw x) e = e

pub plain-expected :
    (h k : History) (t : Store) (x : SceneError)
    → view t ≡ h
    → not (live_changed x) ≡ true
    → view t ≡ expected (threw x) h k
plain-expected h k t x e n = elim (Bool-cases (live_changed x)) [
  | inl l ↦ grind arith
  | inr l ↦ rw (l) e
]

-- Checks, the hook, the change of the document and the save, as edits, undo and redo do them.
module _ (w : World) (move : ℕ → Store → Store) (g : History → History)
    (moves : (r : ℕ) (s : Store) → view (move r s) ≡ g (view s)) where
  autosave-expected :
      (s : Store) (h : History)
      → view (autosave w.autosave s).0 ≡ expected (autosave w.autosave s).1 h (view s)
  unfolding autosave
  autosave-expected s h = elim (Bool-cases (is_some s.source)) [
    | inl e ↦ rw (e) (wrapped-expected h (view s) _ _ (save-Unseen w.autosave s).viewed)
    | inr e ↦ rw (e) refl
  ]

  abbrev applying : Unit {0} → M (Unit {0})
  applying a = do revision ← apply w; modify (move revision); autosave w.autosave

  applying-expected :
      (s : Store) (h : History)
      → view s ≡ h
      → view (applying tt s).0 ≡ expected (applying tt s).1 h (g h)
  unfolding apply
  applying-expected s h e =
      let t = move s.next_revision (end_apply s.next_revision (start_apply s)) in
      elim (Bool-cases w.apply_ok) [
        | inl ok ↦
            rw (ok, require)
              (subst (λ k. view (autosave w.autosave t).0 ≡ expected (autosave w.autosave t).1 h k)
                (moves _ _ ∙ ap g e) (autosave-expected t h))
        | inr n ↦ rw (n, require) e
      ]

  abbrev pub committed : M (Unit {0})
  committed = prepare_edit w.source_digest w.first_save >>= applying

  after-expected :
      (s t : Store) (r : Outcome (Unit {0}))
      → Unseen s (t, r)
      → view (after applying t r).0 ≡ expected (after applying t r).1 (view s) (g (view s))
  after-expected s t (returned a) h = applying-expected t (view s) h.viewed
  after-expected s t (threw x) h = plain-expected (view s) (g (view s)) t x h.viewed h.plainly

  pub committed-expected :
      (s : Store) → view (committed s).0 ≡ expected (committed s).1 (view s) (g (view s))
  committed-expected s = after-expected s _ _ (prepare_edit-Unseen w.source_digest w.first_save s)
