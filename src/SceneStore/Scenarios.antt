-- ===== src/SceneStore/Scenarios.antt =====
-- Tests of the store of src/scene_ros1_adapter/src/core/store.cpp, and the theorems at concrete
-- inputs.
use xgc2_ros1_adapter.Common.{
  ℕ, ◌≡◌, refl, ◌≢◌, ◌⊎◌, true, false, [], ◌∷◌, none, some, ap, Bytes, bytes_eq, arith, length,
}
use xgc2_ros1_adapter.Identifiers.{valid_reference_id}
use xgc2_ros1_adapter.SceneStore.State.{
  Obstacle, Document, Store, document_eq, find_digest, option_eq, scene_time, envelope, result,
}
use xgc2_ros1_adapter.SceneStore.Save.{
  Saving, save_target, save, check_source, prepare_edit, autosave,
}
use xgc2_ros1_adapter.SceneStore.Execute.{
  add, undo, redo, Payload, World, apply, run_reload, run_motion, run_history, has_obstacle,
  replace_obstacle, remove_obstacle, candidate, commit_edit, run_edit, perform, execute,
}
use xgc2_ros1_adapter.SceneStore.Command.{
  Request, find_receipt, drop_receipt, renew_receipt, evicted, expects, execute_once, answer_again,
  command_new, command_id, command, request_result,
}
use xgc2_ros1_adapter.SceneStore.History.{view, intended, expected}
use xgc2_ros1_adapter.SceneStore.Refinement.{execute-Implements}
use xgc2_ros1_adapter.SceneStore.Invariant.{StoreValid}
use xgc2_ros1_adapter.SceneStore.Replay.{OnlyReceipts, Executed, command_repeated, command_executes}
use xgc2_ros1_adapter.SceneStore.Roundtrip.{execute_frozen, undo-edit, redo-undo}
use xgc2_ros1_adapter.SceneStore.Open.{
  Opening, opening_input, opening_root, opening_digests, opened, open_store, run_commands,
  run_commands-StoreValid,
}

store_code : Unit {0}
unfolding valid_reference_id document_eq find_digest option_eq scene_time envelope result
    save_target save check_source prepare_edit autosave apply run_reload run_motion run_history
    has_obstacle replace_obstacle remove_obstacle candidate commit_edit run_edit perform execute
    find_receipt drop_receipt renew_receipt evicted expects execute_once answer_again command_new
    command_id command request_result intended opening_input opening_root opening_digests opened
    open_store run_commands bytes_eq
store_code = tt

abbrev file : Bytes
file = 47 ∷ 115 ∷ []

abbrev yaml : Document
yaml = record { header = 104 ∷ []; obstacles = [] }

abbrev box : Obstacle
box = record { id = 98 ∷ []; body = 49 ∷ [] }

abbrev saving : Bytes → Bytes → Saving
saving before encoded = record {
  inside_root = true;
  yaml_extension = true;
  created = true;
  directory = true;
  digest_before = some before;
  encoded = encoded;
  written = true;
  digest_after = some before;
  replaced = true;
  synced = true;
}

-- The file has the digest `before`, and gets the digest `encoded` when it is saved.
abbrev world : Bytes → Bytes → World
world before encoded = record {
  now = 5;
  apply_ok = true;
  motion_ok = true;
  set_ok = λ os. true;
  source_digest = some before;
  loaded = none;
  first_save = saving before encoded;
  autosave = saving before encoded;
}

abbrev opening : Opening
opening = record {
  frozen = false;
  working_file = none;
  working_exists = false;
  loaded = none;
  source = some file;
  initial = some yaml;
  source_digest = [];
  source_exists = true;
  current_digest = 1 ∷ [];
  save_root = none;
  parent = λ p. 47 ∷ [];
  epoch = 101 ∷ [];
  now = 0;
  apply_ok = true;
}

abbrev start : Store
start = opened opening (record { source = some file; document = yaml; digest = [] })

abbrev adding : Payload
adding = record { obstacle = some box; id = none; document = none }

abbrev request : ℕ → Request
request revision = record {
  well_formed = true;
  operation = add;
  payload = adding;
  request_id = some (114 ∷ []);
  fingerprint = 102 ∷ [];
  expected_epoch = some (101 ∷ []);
  expected_revision = some revision;
}

abbrev first : World
first = world (1 ∷ []) (2 ∷ [])

abbrev second : World
second = world (2 ∷ []) (3 ∷ [])

abbrev third : World
third = world (3 ∷ []) (4 ∷ [])

abbrev added : Store
added = (execute first add adding start).0

start-StoreValid : StoreValid start
unfolding store_code
start-StoreValid = run_commands-StoreValid opening start [] refl

-- The obstacle is there and saved, and the revision is 2.
adds :
    ((command first (request 1) start).1.success ≡ true)
    × ((command first (request 1) start).0.document.obstacles ≡ box ∷ [])
unfolding store_code
adds = (refl, refl)

run_commands-StoreValid_example :
    StoreValid (run_commands ((first, request 1) ∷ (second, request 2) ∷ []) start)
unfolding store_code
run_commands-StoreValid_example =
    run_commands-StoreValid opening start ((first, request 1) ∷ (second, request 2) ∷ []) refl

execute-Implements_example :
    view (execute first add adding start).0
    ≡ expected
        (execute first add adding start).1
        (view start)
        (intended first add adding (view start))
execute-Implements_example = execute-Implements first add adding start

command_repeated_example :
    (command first (request 1) start ≡ execute_once first (request 1) (114 ∷ []) start)
    × (((command second (request 1) (command first (request 1) start).0).1
          ≡ (command first (request 1) start).1)
        × OnlyReceipts
            (command first (request 1) start).0
            (command second (request 1) (command first (request 1) start).0).0)
unfolding store_code
command_repeated_example =
    command_repeated first second (request 1) (114 ∷ []) start start-StoreValid
      (record { well_formed = refl; acts = refl; named = refl }) refl refl

command_executes_example :
    OnlyReceipts start (command first (request 7) start).0 ⊎ Executed first (request 7) start
command_executes_example = command_executes first (request 7) start

changed : view (execute first add adding start).0 ≢ view start
unfolding store_code
changed e = omega (arith, ap (λ h. length h.past) e)

undo-edit_example : (execute second undo adding added).0.document ≡ start.document
unfolding store_code
undo-edit_example = undo-edit first second add adding adding start refl refl changed refl

redo-undo_example :
    view (execute third redo adding (execute second undo adding added).0).0 ≡ view added
unfolding store_code
redo-undo_example = redo-undo second third adding adding added refl refl

abbrev frozen_start : Store
frozen_start = record start { frozen = true }

execute_frozen_example : view (execute first add adding frozen_start).0 ≡ view frozen_start
unfolding store_code
execute_frozen_example = execute_frozen first add adding frozen_start refl
