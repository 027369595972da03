-- ===== src/SceneStore/Preservation.antt =====
-- Every operation of `SceneStore::execute` keeps the invariant of the store
-- (src/scene_ros1_adapter/src/core/store.cpp).
use xgc2_ros1_adapter.Common.{
  ◌+◌, ◌≤◌, ◌≡◌, refl, sym, ◌∙◌, ap, inl, inr, Bool, true, false, List, [], ◌∷◌, ◌&&◌,
  if◌then◌else◌, length, length-take, arith, Bool-cases, Option-cases,
}
use xgc2_ros1_adapter.SceneStore.State.{
  Document, document_eq, Receipt, Store, Outcome, returned, threw, M, require,
}
use xgc2_ros1_adapter.SceneStore.Save.{save}
use xgc2_ros1_adapter.SceneStore.Execute.{
  Operation, resync, save_scene, reload, play, pause, reset, undo, redo, Payload, World, apply,
  undone, redone, edited, run_history, candidate, changes_geometry, is_container, commit_edit,
  run_edit, run_motion, run_reload, perform, execute,
}
use xgc2_ros1_adapter.SceneStore.Invariant.{
  Executing, start_apply-Executing, after-Executing, check_source-Executing, save-Executing,
  committed-Executing,
}

-- A store whose document is the one just applied.
current-Executing :
    {rs : List Receipt}
    → (t u : Store) → Executing rs t
    → u.revision ≡ t.next_revision
    → u.next_revision ≡ t.next_revision + 1
    → u.applied_revision ≡ t.next_revision
    → u.saved_revision ≤ t.next_revision
    → length u.undo_stack + length u.redo_stack ≤ 128
    → u.requests ≡ t.requests
    → u.in_hook ≡ t.in_hook
    → Executing rs u
current-Executing t u v r n a s h q i = record {
  numbered = omega arith;
  applied = omega arith;
  saved = omega arith;
  known = inr (a ∙ sym r);
  history = h;
  requests = q ∙ v.requests;
  idle = i ∙ v.idle;
}

undo-Executing :
    {rs : List Receipt}
    → (w : World) (ds : List Document) (s : Store) → s.undo_stack ≡ ds
    → Executing rs s
    → Executing rs (run_history w ds undone s).0
unfolding run_history
undo-Executing w [] s e v = v
undo-Executing w (d ∷ rest) s e v =
    committed-Executing w (undone d rest) s
      (λ t f k.
        current-Executing t _ k refl refl refl (omega arith)
          (omega (arith, k.history, ap (λ h. length h.past) f, ap length e)) refl refl)
      v

redo-Executing :
    {rs : List Receipt}
    → (w : World) (ds : List Document) (s : Store) → s.redo_stack ≡ ds
    → Executing rs s
    → Executing rs (run_history w ds redone s).0
unfolding run_history
redo-Executing w [] s e v = v
redo-Executing w (d ∷ rest) s e v =
    committed-Executing w (redone d rest) s
      (λ t f k.
        current-Executing t _ k refl refl refl (omega arith)
          (omega (arith, k.history, ap (λ h. length h.future) f, ap length e)) refl refl)
      v

commit_edit-Executing :
    {rs : List Receipt}
    → (w : World) (d : Document) (s : Store) → Executing rs s
    → Executing rs (commit_edit w d s).0
unfolding commit_edit
commit_edit-Executing w d s v =
    committed-Executing w (edited d) s
      (λ t f k.
        current-Executing t _ k refl refl refl (omega arith)
          (omega (arith, length-take 127 t.undo_stack)) refl refl)
      v

abbrev edit_by : World → Outcome Document → M (Unit {0})
edit_by w c s = elim c [
  | threw e ↦ (s, threw e)
  | returned d ↦ if document_eq d s.document then (s, returned tt) else commit_edit w d s
]

edit_by-Executing :
    {rs : List Receipt}
    → (w : World) (c : Outcome Document) (s : Store) → Executing rs s
    → Executing rs (edit_by w c s).0
edit_by-Executing w (threw e) s v = v
edit_by-Executing w (returned d) s v = elim (Bool-cases (document_eq d s.document)) [
  | inl e ↦ simp (e) v
  | inr e ↦ simp (e) (commit_edit-Executing w d s v)
]

run_edit-Executing :
    {rs : List Receipt}
    → (w : World) (op : Operation) (p : Payload) (s : Store) → Executing rs s
    → Executing rs (run_edit w op p s).0
unfolding run_edit
run_edit-Executing w op p s v = edit_by-Executing w (candidate w op p s.document) s v

run_motion-Executing :
    {rs : List Receipt}
    → (w : World) (playing keep : Bool) (s : Store) → Executing rs s
    → Executing rs (run_motion w playing keep s).0
unfolding run_motion
run_motion-Executing w playing keep s v = elim (Bool-cases w.motion_ok) [
  | inl e ↦
      simp (e, require)
        record {
          numbered = v.numbered;
          applied = v.applied;
          saved = v.saved;
          known = v.known;
          history = v.history;
          requests = v.requests;
          idle = v.idle;
        }
  | inr e ↦ simp (e, require) v
]

run_reload-Executing :
    {rs : List Receipt} → (w : World) (s : Store) → Executing rs s → Executing rs (run_reload w s).0
unfolding run_reload apply
run_reload-Executing w s v = elim (Option-cases s.source) [
  | inl e ↦ simp (e) v
  | inr (path, e) ↦ elim (Option-cases w.loaded) [
    | inl l ↦ simp (e, l) v
    | inr ((d, digest), l) ↦ elim (Bool-cases w.apply_ok) [
      | inl ok ↦
          simp (e, l, ok, require)
            (current-Executing s _ v refl refl refl (omega arith) (omega arith) refl refl)
      | inr n ↦
          simp (e, l, n, require)
            record {
              numbered = omega arith;
              applied = omega arith;
              saved = v.saved;
              known = inl refl;
              history = v.history;
              requests = v.requests;
              idle = v.idle;
            }
    ]
  ]
]

resync-Executing :
    {rs : List Receipt}
    → (w : World) (p : Payload) (s : Store) → Executing rs s
    → Executing rs (perform w resync p s).0
unfolding perform apply
resync-Executing w p s v = elim (Bool-cases w.apply_ok) [
  | inl e ↦
      simp (e, require) (current-Executing s _ v refl refl refl (omega arith) v.history refl refl)
  | inr e ↦ simp (e, require) (start_apply-Executing s v)
]

perform-Executing :
    {rs : List Receipt}
    → (w : World) (op : Operation) (p : Payload) (s : Store) → Executing rs s
    → Executing rs (perform w op p s).0
unfolding perform
perform-Executing w resync p s v = resync-Executing w p s v
perform-Executing w save_scene p s v =
    after-Executing (λ a. save w.first_save) _ _ (check_source-Executing w.source_digest s v)
      λ a u k. save-Executing w.first_save u k
perform-Executing w reload p s v = run_reload-Executing w s v
perform-Executing w play p s v = run_motion-Executing w true true s v
perform-Executing w pause p s v = run_motion-Executing w false true s v
perform-Executing w reset p s v = run_motion-Executing w false false s v
perform-Executing w undo p s v = undo-Executing w s.undo_stack s refl v
perform-Executing w redo p s v = redo-Executing w s.redo_stack s refl v
perform-Executing w op p s v = run_edit-Executing w op p s v

pub execute-Executing :
    {rs : List Receipt}
    → (w : World) (op : Operation) (p : Payload) (s : Store) → Executing rs s
    → Executing rs (execute w op p s).0
unfolding execute
execute-Executing w op p s v = elim (Bool-cases (s.frozen && is_container op)) [
  | inl e ↦ simp (e) v
  | inr e ↦ elim (Bool-cases (s.frozen && changes_geometry op)) [
    | inl k ↦ simp (e, k) v
    | inr k ↦ simp (e, k) (perform-Executing w op p s v)
  ]
]
