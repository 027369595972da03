-- ===== src/SceneStore/Open.antt =====
-- The constructor of `SceneStore` and a run of commands
-- (src/scene_ros1_adapter/src/core/store.cpp, include/xgc_scene/store.hpp).
use xgc2_ros1_adapter.Common.{
  ℕ, ◌≡◌, refl, inr, Bool, true, false, List, [], ◌∷◌, Option, none, some, if◌then◌else◌, Bytes,
  arith, subst,
}
use xgc2_ros1_adapter.SceneStore.State.{
  document_invalid, hook_failed, Document, Store, Outcome, returned, threw,
}
use xgc2_ros1_adapter.SceneStore.Execute.{World}
use xgc2_ros1_adapter.SceneStore.Command.{Request, command}
use xgc2_ros1_adapter.SceneStore.Invariant.{StoreValid}
use xgc2_ros1_adapter.SceneStore.Receipts.{command-StoreValid}

-- The constructor's arguments, and what the files and the hook answer it. `initial` is the given
-- document and `loaded` the working file's with its digest, each `none` if it is refused.
pub record Opening : Type 0 where
  pub frozen : Bool
  pub working_file : Option Bytes
  pub working_exists : Bool
  pub loaded : Option (Document × Bytes)
  pub source : Option Bytes
  pub initial : Option Document
  pub source_digest : Bytes  -- empty if none is given
  pub source_exists : Bool
  pub current_digest : Bytes  -- of the source file
  pub save_root : Option Bytes
  pub parent : Bytes → Bytes
  pub epoch : Bytes
  pub now : ℕ
  pub apply_ok : Bool

-- The source, its document and the digest that is known of it.
pub record Input : Type 0 where
  pub source : Option Bytes
  pub document : Document
  pub digest : Bytes

abbrev given_input : Opening → Option Input
given_input o = elim o.initial [
  | none ↦ none
  | some d ↦ some (record { source = o.source; document = d; digest = o.source_digest })
]

-- An existing working file takes the place of the initial document.
unfoldable pub opening_input : Opening → Option Input
opening_input o = elim o.working_file [
  | none ↦ given_input o
  | some file ↦
      if o.working_exists
      then elim o.loaded [
        | none ↦ none
        | some (d, digest) ↦ some (record { source = some file; document = d; digest = digest })
      ]
      else given_input o
]

abbrev is_empty : Bytes → Bool
is_empty [] = true
is_empty _ = false

unfoldable pub opening_root : Opening → Input → Option Bytes
opening_root o i = elim o.save_root [
  | some root ↦ some root
  | none ↦ elim o.working_file [
    | some file ↦ some (o.parent file)
    | none ↦ elim i.source [ none ↦ none | some file ↦ some (o.parent file) ]
  ]
]

unfoldable pub opening_digests : Opening → Input → List (Bytes × Bytes)
opening_digests o i = elim i.source [
  | none ↦ []
  | some file ↦
      if o.source_exists
      then (file, (if is_empty i.digest then o.current_digest else i.digest)) ∷ []
      else []
]

-- The store when the hook has taken the document.
unfoldable pub opened : Opening → Input → Store
unfolding opening_root opening_digests
opened o i = record {
  in_hook = false;
  frozen = o.frozen;
  working_file = o.working_file;
  document = i.document;
  epoch = o.epoch;
  revision = 1;
  applied_revision = 1;
  application_known = true;
  next_revision = 2;
  saved_revision = 1;
  saved_document = i.document;
  source = i.source;
  save_root = opening_root o i;
  file_digests = opening_digests o i;
  playing = false;
  elapsed = 0;
  started_at = o.now;
  undo_stack = [];
  redo_stack = [];
  requests = [];
}

unfoldable pub open_store : Opening → Outcome Store
open_store o = elim (opening_input o) [
  | none ↦ threw document_invalid
  | some i ↦ if o.apply_ok then returned (opened o i) else threw hook_failed
]

-- The commands one after the other, each with what the environment answers to it.
unfoldable pub run_commands : List (World × Request) → Store → Store
run_commands [] s = s
run_commands ((w, r) ∷ rest) s = run_commands rest (command w r s).0

opened-StoreValid : (o : Opening) (i : Input) → StoreValid (opened o i)
unfolding opened
opened-StoreValid o i = record {
  executing = record {
    numbered = omega arith;
    applied = omega arith;
    saved = omega arith;
    known = inr refl;
    history = omega arith;
    requests = refl;
    idle = refl;
  };
  receipts = omega arith;
}

run_commands_keep :
    (cs : List (World × Request)) (s : Store) → StoreValid s → StoreValid (run_commands cs s)
unfolding run_commands
run_commands_keep [] s v = v
run_commands_keep ((w, r) ∷ cs) s v = run_commands_keep cs _ (command-StoreValid w r s v)

-- Holds of a store if one was opened.
abbrev Opens : (Store → Type 0) → Outcome Store → Type 0
Opens P (returned s) = P s
Opens P (threw e) = Unit

hooked-StoreValid :
    (o : Opening) (i : Input) (b : Bool)
    → Opens StoreValid (if b then returned (opened o i) else threw hook_failed)
hooked-StoreValid o i true = opened-StoreValid o i
hooked-StoreValid o i false = tt

abbrev open_by : Opening → Option Input → Outcome Store
open_by o i = elim i [
  | none ↦ threw document_invalid
  | some i ↦ if o.apply_ok then returned (opened o i) else threw hook_failed
]

open_by-StoreValid : (o : Opening) (i : Option Input) → Opens StoreValid (open_by o i)
open_by-StoreValid o none = tt
open_by-StoreValid o (some i) = hooked-StoreValid o i o.apply_ok

open_store-StoreValid : (o : Opening) → Opens StoreValid (open_store o)
unfolding open_store
open_store-StoreValid o = open_by-StoreValid o (opening_input o)

-- A store that was opened stays valid through any commands, whatever the hooks and the files answer:
-- the revision is below the next one, a configuration that is known to be applied has the current
-- revision, the saved revision is at most the current one, undo and redo together hold at most 128
-- documents, there are at most 256 receipts and no hook is left running.
pub run_commands-StoreValid :
    (o : Opening) (s : Store) (cs : List (World × Request))
    → open_store o ≡ returned s
    → StoreValid (run_commands cs s)
run_commands-StoreValid o s cs e =
    run_commands_keep cs s (subst (Opens StoreValid) e (open_store-StoreValid o))
