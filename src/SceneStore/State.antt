-- ===== src/SceneStore/State.antt =====
-- The state of `SceneStore` (src/scene_ros1_adapter/include/xgc_scene/store.hpp and
-- src/scene_ros1_adapter/src/core/store.cpp), and its exceptions. A document is its header and its
-- obstacles; JSON values that the store only compares are byte strings. Shared snapshots are
-- immutable, so they are the documents themselves.
use xgc2_ros1_adapter.Common.{
  ℕ, ◌+◌, ◌-◌, Bool, true, false, List, [], ◌∷◌, Option, none, some, ◌&&◌, not, if◌then◌else◌,
  Bytes, bytes_eq,
}

pub data SceneError : Type 0 where
  in_hook malformed bad_request_id request_id_reused scene_changed : SceneError
  frozen_scene unhashable no_source external_edit nothing_to_undo : SceneError
  obstacle_invalid obstacle_exists obstacle_missing obstacle_set document_invalid : SceneError
  unsupported hook_failed no_save_directory outside_root not_yaml no_directory : SceneError
  io_error changed_while_saving : SceneError
  -- an autosave that failed after the live scene changed
  not_saved : SceneError → SceneError

pub record Obstacle : Type 0 where
  pub id : Bytes
  pub body : Bytes

pub record Document : Type 0 where
  pub header : Bytes
  pub obstacles : List Obstacle

pub obstacles_eq : List Obstacle → List Obstacle → Bool
obstacles_eq [] [] = true
obstacles_eq [] (y ∷ ys) = false
obstacles_eq (x ∷ xs) [] = false
obstacles_eq (x ∷ xs) (y ∷ ys) =
    bytes_eq x.id y.id && (bytes_eq x.body y.body && obstacles_eq xs ys)

-- `==` on documents.
unfoldable pub document_eq : Document → Document → Bool
unfolding obstacles_eq
document_eq a b = bytes_eq a.header b.header && obstacles_eq a.obstacles b.obstacles

-- What a client sees of the store. Times are readings of the store's clock.
pub record Envelope : Type 0 where
  pub epoch : Bytes
  pub revision : ℕ
  pub saved_revision : ℕ
  pub dirty : Bool
  pub playing : Bool
  pub frozen : Bool
  pub applied_revision : ℕ
  pub application_known : Bool
  pub scene_time : ℕ
  pub document : Document

pub record Reply : Type 0 where
  pub envelope : Envelope
  pub success : Bool
  pub error : Option SceneError

pub record Receipt : Type 0 where
  pub id : Bytes
  pub fingerprint : Bytes
  pub reply : Reply

-- Each stack has its last element first; `requests` has the oldest receipt first.
pub record Store : Type 0 where
  pub in_hook : Bool
  pub frozen : Bool
  pub working_file : Option Bytes
  pub document : Document
  pub epoch : Bytes
  pub revision : ℕ
  pub applied_revision : ℕ
  pub application_known : Bool
  pub next_revision : ℕ
  pub saved_revision : ℕ
  pub saved_document : Document
  pub source : Option Bytes
  pub save_root : Option Bytes
  pub file_digests : List (Bytes × Bytes)
  pub playing : Bool
  pub elapsed : ℕ
  pub started_at : ℕ
  pub undo_stack : List Document
  pub redo_stack : List Document
  pub requests : List Receipt

-- A step that may throw: what it did to the store by then stays.
pub data Outcome {ℓ} (A : Type ℓ) : Type ℓ where
  returned : A → Outcome A
  threw : SceneError → Outcome A

abbrev pub M : Type 0 → Type 0
M A = Store → Store × Outcome A

abbrev pub after {ℓ κ} :
    {A : Type ℓ} {B : Type κ}
    → (A → Store → Store × Outcome B)
    → Store
    → Outcome A
    → Store × Outcome B
after f s (returned a) = f a s
after f s (threw e) = (s, threw e)

infixl 5 ◌>>=◌ ◌>>◌
abbrev pub ◌>>=◌ : {A B : Type 0} → M A → (A → M B) → M B
◌>>=◌ m f s = let (t, r) = m s in after f t r

abbrev pub ◌>>◌ : {B : Type 0} → M (Unit {0}) → M B → M B
◌>>◌ m k = m >>= λ _. k

abbrev pub pure : {A : Type 0} → A → M A
pure a s = (s, returned a)

abbrev pub throw : {A : Type 0} → SceneError → M A
throw e s = (s, threw e)

abbrev pub get : M Store
get s = (s, returned s)

abbrev pub modify : (Store → Store) → M (Unit {0})
modify f s = (f s, returned tt)

-- Throws unless the test holds.
abbrev pub require : Bool → SceneError → M (Unit {0})
require true e s = (s, returned tt)
require false e s = (s, threw e)

-- `file_digests_` by path.
unfoldable pub find_digest : Bytes → List (Bytes × Bytes) → Option Bytes
find_digest path [] = none
find_digest path ((p, d) ∷ rest) = if bytes_eq path p then some d else find_digest path rest

-- `!=` on optional byte strings, negated.
unfoldable pub option_eq : Option Bytes → Option Bytes → Bool
option_eq none none = true
option_eq none (some b) = false
option_eq (some a) none = false
option_eq (some a) (some b) = bytes_eq a b

unfoldable pub scene_time : (now : ℕ) → Store → ℕ
scene_time now s = s.elapsed + (if s.playing then now - s.started_at else 0)

unfoldable pub envelope : (now : ℕ) → Store → Envelope
unfolding scene_time document_eq
envelope now s = record {
  epoch = s.epoch;
  revision = s.revision;
  saved_revision = s.saved_revision;
  dirty = not (document_eq s.document s.saved_document);
  playing = s.playing;
  frozen = s.frozen;
  applied_revision = s.applied_revision;
  application_known = s.application_known;
  scene_time = scene_time now s;
  document = s.document;
}

-- `resultLocked`.
unfoldable pub result : (now : ℕ) → Outcome (Unit {0}) → Store → Reply
result now (returned _) s = record { envelope = envelope now s; success = true; error = none }
result now (threw e) s = record { envelope = envelope now s; success = false; error = some e }
