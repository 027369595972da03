-- ===== src/SceneStore/Invariant.antt =====
-- What holds of the store between two commands, and that executing an operation keeps it
-- (src/scene_ros1_adapter/src/core/store.cpp).
use xgc2_ros1_adapter.Common.{
  ℕ, ◌+◌, ◌≤◌, ◌<◌, ◌≡◌, refl, ◌⊎◌, inl, inr, Bool, true, false, List, Option, ◌&&◌, not,
  if◌then◌else◌, Bytes, length, arith, Bool-cases, Option-cases, is_some,
}
use xgc2_ros1_adapter.SceneStore.State.{
  SceneError, Receipt, Store, Outcome, returned, threw, M, ◌>>=◌, ◌>>◌, require, modify, after,
  pure, option_eq,
}
use xgc2_ros1_adapter.SceneStore.Save.{Saving, save, check_source, prepare_edit, autosave, wrapped}
use xgc2_ros1_adapter.SceneStore.Execute.{World, start_apply, end_apply, apply}
use xgc2_ros1_adapter.SceneStore.Cases.{save_elim}
use xgc2_ros1_adapter.SceneStore.History.{view, prepare_edit-Unseen}

-- While an operation runs: revisions are numbered upwards; what is known to be applied is the
-- current revision; undo and redo together hold at most 128 documents; the receipts are untouched
-- and no hook is running.
pub record Executing (rs : List Receipt) (s : Store) : Type 0 where
  pub numbered : s.revision < s.next_revision
  pub applied : s.applied_revision < s.next_revision
  pub saved : s.saved_revision ≤ s.revision
  pub known : (s.application_known ≡ false) ⊎ (s.applied_revision ≡ s.revision)
  pub history : length s.undo_stack + length s.redo_stack ≤ 128
  pub requests : s.requests ≡ rs
  pub idle : s.in_hook ≡ false

-- Between two commands there are at most 256 receipts.
pub record StoreValid (s : Store) : Type 0 where
  pub executing : Executing s.requests s
  pub receipts : length s.requests ≤ 256

pub save-Executing :
    {rs : List Receipt} → (f : Saving) (s : Store) → Executing rs s → Executing rs (save f s).0
save-Executing f s v = save_elim (Executing _) s f v λ path digest. record {
  numbered = v.numbered;
  applied = v.applied;
  saved = omega arith;
  known = v.known;
  history = v.history;
  requests = v.requests;
  idle = v.idle;
}

pub after-Executing :
    {rs : List Receipt}
    → (f : Unit {0} → M (Unit {0})) (t : Store) (r : Outcome (Unit {0})) → Executing rs t
    → ((a : Unit {0}) (u : Store) → Executing rs u → Executing rs (f a u).0)
    → Executing rs (after f t r).0
after-Executing f t (returned a) v k = k a t v
after-Executing f t (threw e) v k = v

required :
    {rs : List Receipt}
    → (b : Bool) (e : SceneError) {s : Store} → Executing rs s
    → Executing rs (require b e s).0
required true e v = v
required false e v = v

unwrapped :
    {rs : List Receipt}
    → (r : Store × Outcome (Unit {0})) → Executing rs r.0
    → Executing rs (wrapped r).0
unwrapped (t, returned a) v = v
unwrapped (t, threw e) v = v

pub check_source-Executing :
    {rs : List Receipt}
    → (d : Option Bytes) (s : Store) → Executing rs s
    → Executing rs (check_source d s).0
unfolding check_source
check_source-Executing d s v = elim (Option-cases s.source) [
  | inl e ↦ simp (e) v
  | inr (path, e) ↦ simp (e) (required _ _ v)
]

first_save-Executing :
    {rs : List Receipt}
    → (f : Saving) (s : Store) (b : Bool) → Executing rs s
    → Executing rs ((if b then save f else pure tt) s).0
first_save-Executing f s true v = save-Executing f s v
first_save-Executing f s false v = v

prepare_edit-Executing :
    {rs : List Receipt}
    → (d : Option Bytes) (f : Saving) (s : Store) → Executing rs s
    → Executing rs (prepare_edit d f s).0
unfolding prepare_edit
prepare_edit-Executing d f s v =
    after-Executing
      (λ a u.
        (if is_some u.working_file && not (option_eq u.source u.working_file)
            then save f
            else pure tt)
          u)
      _ _ (check_source-Executing d s v) λ a u k. first_save-Executing f u _ k

pub start_apply-Executing :
    {rs : List Receipt} → (s : Store) → Executing rs s → Executing rs (start_apply s)
start_apply-Executing s v = record {
  numbered = omega arith;
  applied = omega arith;
  saved = v.saved;
  known = inl refl;
  history = v.history;
  requests = v.requests;
  idle = v.idle;
}

autosave-Executing :
    {rs : List Receipt} → (f : Saving) (s : Store) → Executing rs s → Executing rs (autosave f s).0
unfolding autosave
autosave-Executing f s v = elim (Bool-cases (is_some s.source)) [
  | inl e ↦ rw (e) (unwrapped (save f s) (save-Executing f s v))
  | inr e ↦ rw (e) v
]

-- The store when the hook has taken a candidate.
abbrev pub taken : Store → Store
taken s = end_apply s.next_revision (start_apply s)

module _ (w : World) (move : ℕ → Store → Store) (k : Store → M (Unit {0})) where
  -- The hook, a change of the document to the applied revision, and what follows.
  apply-Executing :
      {rs : List Receipt}
      → (s : Store) → Executing rs s
      → Executing rs (move s.next_revision (taken s))
      → ((t : Store) → Executing rs t → Executing rs (k t t).0)
      → Executing rs ((apply w >>= λ revision t. k (move revision t) (move revision t)) s).0
  unfolding apply
  apply-Executing s v m h = elim (Bool-cases w.apply_ok) [
    | inl e ↦ rw (e, require) (h _ m)
    | inr e ↦ rw (e, require) (start_apply-Executing s v)
  ]

module _ {rs : List Receipt} (w : World) (move : ℕ → Store → Store) (s : Store)
    (moves : (t : Store)
      → view t ≡ view s
      → Executing rs t
      → Executing rs (move t.next_revision (taken t))) where
  abbrev applying : Unit {0} → M (Unit {0})
  applying a = do revision ← apply w; modify (move revision); autosave w.autosave

  after-applying :
      (t : Store) (r : Outcome (Unit {0}))
      → view t ≡ view s
      → Executing rs t
      → Executing rs (after applying t r).0
  after-applying t (returned a) e v =
      apply-Executing w move (λ u. autosave w.autosave) t v (moves t e v)
        (autosave-Executing w.autosave)
  after-applying t (threw x) e v = v

  pub committed-Executing :
      Executing rs s → Executing rs ((prepare_edit w.source_digest w.first_save >>= applying) s).0
  committed-Executing v =
      after-applying _ _ (prepare_edit-Unseen w.source_digest w.first_save s).viewed
        (prepare_edit-Executing w.source_digest w.first_save s v)
