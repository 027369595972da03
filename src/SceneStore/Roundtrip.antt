-- ===== src/SceneStore/Roundtrip.antt =====
-- Undo and redo, and the frozen scene (src/scene_ros1_adapter/src/core/store.cpp).
use xgc2_ros1_adapter.Common.{
  ◌≡◌, refl, sym, ◌∙◌, ap, ◌⊎◌, inl, inr, Bool, true, false, List, [], ◌∷◌, ◌≢◌, if◌then◌else◌,
  arith, Bool-cases,
}
use xgc2_ros1_adapter.SceneStore.State.{
  frozen_scene, Document, document_eq, Store, Outcome, returned, threw,
}
use xgc2_ros1_adapter.SceneStore.Execute.{
  Operation, get_scene, resync, play, pause, reset, undo, redo, add, update, delete, clear, replace,
  other, container, Payload, World, candidate, changes_geometry, is_container, run_history, undone,
  perform, execute,
}
use xgc2_ros1_adapter.SceneStore.History.{
  History, view, commit, back, forth, intended, expected, live_changed,
}
use xgc2_ros1_adapter.SceneStore.Refinement.{back_cons, effect_by, execute-Implements}

-- An operation that did not throw had its effect.
effect_done :
    (w : World) (op : Operation) (p : Payload) (s : Store)
    → (execute w op p s).1 ≡ returned tt
    → view (execute w op p s).0 ≡ intended w op p (view s)
effect_done w op p s e =
    execute-Implements w op p s ∙ ap (λ o. expected o (view s) (intended w op p (view s))) e

-- What a frozen scene still does has no effect on the document.
frozen_intended :
    (w : World) (op : Operation) (p : Payload) (h : History)
    → changes_geometry op ≡ false
    → intended w op p h ≡ h
unfolding intended candidate
frozen_intended w get_scene p h e = refl
frozen_intended w resync p h e = refl
frozen_intended w play p h e = refl
frozen_intended w pause p h e = refl
frozen_intended w reset p h e = refl
frozen_intended w other p h e = refl
frozen_intended w container p h e = refl
frozen_intended w _ p h e = cc

chosen_same : (b : Bool) (h : History) → (if b then h else h) ≡ h
chosen_same true h = refl
chosen_same false h = refl

expected_same : (o : Outcome (Unit {0})) (h : History) → expected o h h ≡ h
expected_same (returned a) h = refl
expected_same (threw e) h = chosen_same (live_changed e) h

geometry_not_container : (op : Operation) → changes_geometry op ≡ true → is_container op ≡ false
geometry_not_container container h = cc
geometry_not_container _ h = refl

refused :
    (w : World) (op : Operation) (p : Payload) (s : Store)
    → s.frozen ≡ true
    → changes_geometry op ≡ true
    → execute w op p s ≡ (s, threw frozen_scene)
unfolding execute
refused w op p s f g = simp (f, g, geometry_not_container op g) refl

-- Whatever operation is executed in a frozen scene, its document and its history stay the same.
pub execute_frozen :
    (w : World) (op : Operation) (p : Payload) (s : Store)
    → s.frozen ≡ true
    → view (execute w op p s).0 ≡ view s
unfolding execute
execute_frozen w op p s f = elim (Bool-cases (changes_geometry op)) [
  | inr g ↦
      execute-Implements w op p s
      ∙ (ap (λ k. expected (execute w op p s).1 (view s) k) (frozen_intended w op p (view s) g)
          ∙ expected_same _ (view s))
  | inl g ↦ ap (λ r. view r.0) (refused w op p s f g)
]

-- An undo or a redo that runs is not in a frozen scene.
undo_ran :
    (w : World) (p : Payload) (s : Store)
    → s.frozen ≡ false
    → execute w undo p s ≡ run_history w s.undo_stack undone s
unfolding execute perform
undo_ran w p s f = simp (f) refl

abbrev succeeded : Outcome (Unit {0}) → Bool
succeeded (returned a) = true
succeeded (threw e) = false

apart : true ≢ false
apart h = cc

undo_none :
    (w : World) (p : Payload) (s : Store)
    → s.undo_stack ≡ []
    → succeeded (execute w undo p s).1 ≡ false
unfolding run_history
undo_none w p s e = elim (Bool-cases s.frozen) [
  | inl f ↦ ap (λ c. succeeded c.1) (refused w undo p s f refl)
  | inr f ↦ ap (λ c. succeeded c.1) (undo_ran w p s f ∙ ap (λ l. run_history w l undone s) e)
]

undo_past :
    (w : World) (p : Payload) (s : Store) (ds : List Document)
    → s.undo_stack ≡ ds
    → (execute w undo p s).1 ≡ returned tt
    → (d : Document) × (rest : List Document) × (s.undo_stack ≡ d ∷ rest)
undo_past w p s [] e r = absurd (apart (sym (ap succeeded r) ∙ undo_none w p s e))
undo_past w p s (d ∷ rest) e r = (d, rest, e)

forth-back :
    (h : History) (d : Document) (rest : List Document) → h.past ≡ d ∷ rest → forth (back h) ≡ h
forth-back h d rest e = ap forth (back_cons h d rest e) ∙ ap (λ l. record h { past = l }) (sym e)

abbrev pub is_edit : Operation → Bool
is_edit add = true
is_edit update = true
is_edit delete = true
is_edit clear = true
is_edit replace = true
is_edit _ = false

effect_cases :
    (c : Outcome Document) (h : History)
    → (effect_by c h ≡ h) ⊎ ((d : Document) × (effect_by c h ≡ commit d h))
effect_cases (threw e) h = inl refl
effect_cases (returned d) h = elim (Bool-cases (document_eq d h.present)) [
  | inl e ↦ inl (simp (e) refl)
  | inr e ↦ inr (d, simp (e) refl)
]

edit_cases :
    (w : World) (op : Operation) (p : Payload) (h : History)
    → is_edit op ≡ true
    → (intended w op p h ≡ h) ⊎ ((d : Document) × (intended w op p h ≡ commit d h))
unfolding intended
edit_cases w add p h e = effect_cases (candidate w add p h.present) h
edit_cases w update p h e = effect_cases (candidate w update p h.present) h
edit_cases w delete p h e = effect_cases (candidate w delete p h.present) h
edit_cases w clear p h e = effect_cases (candidate w clear p h.present) h
edit_cases w replace p h e = effect_cases (candidate w replace p h.present) h
edit_cases w _ p h e = grind arith

back_present : (k h : History) (d : Document) → k ≡ commit d h → (back k).present ≡ h.present
back_present k h d e = ap (λ j. (back j).present) e

-- An edit that changed the scene, then an undo: if neither threw, the document from before the edit
-- is back.
pub undo-edit :
    (w v : World) (op : Operation) (p q : Payload) (s : Store)
    → is_edit op ≡ true
    → (execute w op p s).1 ≡ returned tt
    → view (execute w op p s).0 ≢ view s
    → (execute v undo q (execute w op p s).0).1 ≡ returned tt
    → (execute v undo q (execute w op p s).0).0.document ≡ s.document
unfolding intended
undo-edit w v op p q s i e n u =
    let k = effect_done w op p s e in
    elim (edit_cases w op p (view s) i) [
      | inl same ↦ elim (n (k ∙ same)) [ ]
      | inr (d, c) ↦
          ap (λ h. h.present) (effect_done v undo q (execute w op p s).0 u)
          ∙ back_present _ (view s) d (k ∙ c)
    ]

-- A redo after an undo, if neither threw, restores the document and the whole history.
pub redo-undo :
    (w v : World) (p q : Payload) (s : Store)
    → (execute w undo p s).1 ≡ returned tt
    → (execute v redo q (execute w undo p s).0).1 ≡ returned tt
    → view (execute v redo q (execute w undo p s).0).0 ≡ view s
unfolding intended
redo-undo w v p q s u r =
    let (d, rest, e) = undo_past w p s s.undo_stack refl u in
    effect_done v redo q (execute w undo p s).0 r
    ∙ (ap forth (effect_done w undo p s u) ∙ forth-back (view s) d rest e)
