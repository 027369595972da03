-- ===== src/SceneStore/Refinement.antt =====
-- Every operation of `SceneStore::execute` has its intended effect on the document and its history,
-- or none (src/scene_ros1_adapter/src/core/store.cpp).
use xgc2_ros1_adapter.Common.{
  ◌≡◌, refl, sym, subst, ◌∙◌, ◌&&◌, Bool, true, false, List, [], ◌∷◌, not, if◌then◌else◌, arith,
  Bool-cases, Option-cases, inl, inr,
}
use xgc2_ros1_adapter.SceneStore.State.{
  Document, document_eq, Store, Outcome, returned, threw, M, ◌>>=◌, require,
}
use xgc2_ros1_adapter.SceneStore.Save.{save, check_source}
use xgc2_ros1_adapter.SceneStore.Execute.{
  Operation, get_scene, resync, save_scene, reload, play, pause, reset, undo, redo, add, update,
  delete, replace, Payload, World, apply, candidate, undone, redone, edited, run_history,
  commit_edit, run_edit, run_motion, run_reload, perform, execute, changes_geometry, is_container,
}
use xgc2_ros1_adapter.SceneStore.History.{
  History, view, commit, back, forth, intended, live_changed, expected, Unseen, save-Unseen,
  check_source-Unseen, after-Unseen, plain-expected, committed-expected,
}

-- What a run of an operation must amount to.
abbrev pub Implements : (g : History → History) → M (Unit {0}) → Type 0
Implements g m = (s : Store) → view (m s).0 ≡ expected (m s).1 (view s) (g (view s))

abbrev pub to_past : Document → List Document → History → History
to_past d rest h = record { present = d; past = rest; future = h.present ∷ h.future }

abbrev to_future : Document → List Document → History → History
to_future d rest h = record { present = d; past = h.present ∷ h.past; future = rest }

pub back_cons :
    (h : History) (d : Document) (rest : List Document)
    → h.past ≡ d ∷ rest
    → back h ≡ to_past d rest h
back_cons h d rest e = rw (e) refl

forth_cons :
    (h : History) (d : Document) (rest : List Document)
    → h.future ≡ d ∷ rest
    → forth h ≡ to_future d rest h
forth_cons h d rest e = rw (e) refl

undo-Implements :
    (w : World) (ds : List Document) (s : Store)
    → s.undo_stack ≡ ds
    → view (run_history w ds undone s).0
      ≡ expected (run_history w ds undone s).1 (view s) (back (view s))
unfolding run_history
undo-Implements w [] s e = refl
undo-Implements w (d ∷ rest) s e =
    subst
      (λ k.
        view (run_history w (d ∷ rest) undone s).0
        ≡ expected (run_history w (d ∷ rest) undone s).1 (view s) k)
      (sym (back_cons (view s) d rest e))
      (committed-expected w (undone d rest) (to_past d rest) (λ r t. refl) s)

redo-Implements :
    (w : World) (ds : List Document) (s : Store)
    → s.redo_stack ≡ ds
    → view (run_history w ds redone s).0
      ≡ expected (run_history w ds redone s).1 (view s) (forth (view s))
unfolding run_history
redo-Implements w [] s e = refl
redo-Implements w (d ∷ rest) s e =
    subst
      (λ k.
        view (run_history w (d ∷ rest) redone s).0
        ≡ expected (run_history w (d ∷ rest) redone s).1 (view s) k)
      (sym (forth_cons (view s) d rest e))
      (committed-expected w (redone d rest) (to_future d rest) (λ r t. refl) s)

commit_edit-Implements : (w : World) (d : Document) → Implements (commit d) (commit_edit w d)
unfolding commit_edit
commit_edit-Implements w d = committed-expected w (edited d) (commit d) (λ r t. refl)

abbrev edit_of : World → Operation → Payload → History → History
edit_of w op p h = elim (candidate w op p h.present) [
  | threw e ↦ h
  | returned d ↦ if document_eq d h.present then h else commit d h
]

-- The failure of a candidate, if any, is none of an autosave.
abbrev plain_document : Outcome Document → Bool
plain_document (returned d) = true
plain_document (threw e) = not (live_changed e)

candidate-plain_document :
    (w : World) (op : Operation) (p : Payload) (d : Document)
    → plain_document (candidate w op p d) ≡ true
unfolding candidate
candidate-plain_document w add p d = ground arith
candidate-plain_document w update p d = ground arith
candidate-plain_document w delete p d = ground arith
candidate-plain_document w replace p d = ground arith
candidate-plain_document w _ p d = refl

abbrev edit_by : World → Outcome Document → M (Unit {0})
edit_by w c s = elim c [
  | threw e ↦ (s, threw e)
  | returned d ↦ if document_eq d s.document then (s, returned tt) else commit_edit w d s
]

abbrev pub effect_by : Outcome Document → History → History
effect_by c h = elim c [
  | threw e ↦ h
  | returned d ↦ if document_eq d h.present then h else commit d h
]

edit-expected :
    (w : World) (s : Store) (c : Outcome Document)
    → plain_document c ≡ true
    → view (edit_by w c s).0 ≡ expected (edit_by w c s).1 (view s) (effect_by c (view s))
edit-expected w s (threw e) h = plain-expected (view s) (view s) s e refl h
edit-expected w s (returned d) h = elim (Bool-cases (document_eq d s.document)) [
  | inl e ↦ rw (e) refl
  | inr e ↦ rw (e) (commit_edit-Implements w d s)
]

run_edit-Implements :
    (w : World) (op : Operation) (p : Payload) → Implements (edit_of w op p) (run_edit w op p)
unfolding run_edit
run_edit-Implements w op p s =
    edit-expected w s (candidate w op p s.document) (candidate-plain_document w op p s.document)

Unseen-expected :
    (s : Store) (g : History → History) (r : Store × Outcome (Unit {0}))
    → (view s ≡ g (view s))
    → Unseen s r
    → view r.0 ≡ expected r.1 (view s) (g (view s))
Unseen-expected s g (t, returned a) e h = h.viewed ∙ e
Unseen-expected s g (t, threw x) e h = plain-expected (view s) (g (view s)) t x h.viewed h.plainly

save-Implements :
    (w : World)
    → Implements (λ h. h) (λ s. (check_source w.source_digest >>= λ _. save w.first_save) s)
save-Implements w s =
    Unseen-expected s (λ h. h) _ refl
      (after-Unseen (λ a. save w.first_save) _ _ (check_source-Unseen w.source_digest s)
        λ a u e. record {
          viewed = (save-Unseen w.first_save u).viewed ∙ e;
          plainly = (save-Unseen w.first_save u).plainly;
        })

run_motion-Implements :
    (w : World) (playing keep : Bool) → Implements (λ h. h) (run_motion w playing keep)
unfolding run_motion
run_motion-Implements w playing keep s = elim (Bool-cases w.motion_ok) [
  | inl e ↦ rw (e, require) refl
  | inr e ↦ rw (e, require) refl
]

run_reload-Implements : (w : World) (p : Payload) → Implements (intended w reload p) (run_reload w)
unfolding run_reload intended apply
run_reload-Implements w p s = elim (Option-cases s.source) [
  | inl e ↦ rw (e) refl
  | inr (path, e) ↦ elim (Option-cases w.loaded) [
    | inl l ↦ rw (e, l) refl
    | inr ((d, digest), l) ↦ elim (Bool-cases w.apply_ok) [
      | inl ok ↦ rw (e, l, ok, require) refl
      | inr n ↦ rw (e, l, n, require) refl
    ]
  ]
]

resync-Implements : (w : World) (p : Payload) → Implements (λ h. h) (perform w resync p)
unfolding perform apply
resync-Implements w p s = elim (Bool-cases w.apply_ok) [
  | inl e ↦ rw (e, require) refl
  | inr e ↦ rw (e, require) refl
]

unsupported_get : (w : World) (p : Payload) → Implements (λ h. h) (run_edit w get_scene p)
unfolding run_edit candidate
unsupported_get w p s = refl

perform-Implements :
    (w : World) (op : Operation) (p : Payload) → Implements (intended w op p) (perform w op p)
unfolding perform intended
perform-Implements w resync p s = resync-Implements w p s
perform-Implements w save_scene p s = save-Implements w s
perform-Implements w reload p s = run_reload-Implements w p s
perform-Implements w play p s = run_motion-Implements w true true s
perform-Implements w pause p s = run_motion-Implements w false true s
perform-Implements w reset p s = run_motion-Implements w false false s
perform-Implements w undo p s = undo-Implements w s.undo_stack s refl
perform-Implements w redo p s = redo-Implements w s.redo_stack s refl
perform-Implements w get_scene p s = unsupported_get w p s
perform-Implements w op p s = run_edit-Implements w op p s

-- Every operation, whatever the hooks and the files answer, either has its intended effect on the
-- document and its history, or throws and leaves them as they were; it throws with the effect in
-- place only where an autosave failed.
pub execute-Implements :
    (w : World) (op : Operation) (p : Payload) (s : Store)
    → view (execute w op p s).0 ≡ expected (execute w op p s).1 (view s) (intended w op p (view s))
unfolding execute
execute-Implements w op p s = elim (Bool-cases (s.frozen && is_container op)) [
  | inl e ↦ rw (e) refl
  | inr e ↦ elim (Bool-cases (s.frozen && changes_geometry op)) [
    | inl k ↦ rw (e, k) refl
    | inr k ↦ rw (e, k) (perform-Implements w op p s)
  ]
]
