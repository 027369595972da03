-- ===== src/SceneStore/Command.antt =====
-- `SceneStore::command` and `requestResult` (src/scene_ros1_adapter/src/core/store.cpp): each
-- request is executed once, and its receipt answers every repetition.
use xgc2_ros1_adapter.Common.{
  ℕ, Bool, true, false, List, [], ◌∷◌, ◌++◌, Option, none, some, ◌&&◌, not, ltb, ◌==◌,
  if◌then◌else◌, Bytes, bytes_eq, length,
}
use xgc2_ros1_adapter.Identifiers.{valid_reference_id}
use xgc2_ros1_adapter.SceneStore.State.{
  in_hook, malformed, bad_request_id, request_id_reused, scene_changed, Reply, Receipt, Store,
  returned, threw, result,
}
use xgc2_ros1_adapter.SceneStore.Execute.{Operation, get_scene, Payload, World, execute}

-- A request: `well_formed` is whether `fields` accepts its keys, `fingerprint` the text of the
-- sorted request, `request_id` and `expected_epoch` are `none` where they are no strings, and
-- `expected_revision` where it is no integer that a revision can be.
pub record Request : Type 0 where
  pub well_formed : Bool
  pub operation : Operation
  pub payload : Payload
  pub request_id : Option Bytes
  pub fingerprint : Bytes
  pub expected_epoch : Option Bytes
  pub expected_revision : Option ℕ

abbrev pub maximum_receipts : ℕ
maximum_receipts = 256

-- `request_ids_.find`.
unfoldable pub find_receipt : Bytes → List Receipt → Option Receipt
find_receipt id [] = none
find_receipt id (r ∷ rs) = if bytes_eq id r.id then some r else find_receipt id rs

unfoldable pub drop_receipt : Bytes → List Receipt → List Receipt
drop_receipt id [] = []
drop_receipt id (r ∷ rs) =
    let rest = drop_receipt id rs in if bytes_eq id r.id then rest else r ∷ rest

-- `splice` to the end.
unfoldable pub renew_receipt : Receipt → List Receipt → List Receipt
unfolding drop_receipt
renew_receipt r rs = drop_receipt r.id rs ++ r ∷ []

-- While there are more than 256 receipts the oldest is dropped.
unfoldable pub evicted : List Receipt → List Receipt
evicted [] = []
evicted (r ∷ rs) =
    let rest = evicted rs in if ltb maximum_receipts (length (r ∷ rs)) then rest else r ∷ rs

-- The identity contract of XRPC, `[A-Za-z0-9._:-]{1,128}`.
abbrev pub valid_request_id : Bytes → Bool
valid_request_id = valid_reference_id

unfoldable pub expects : Request → Store → Bool
expects r s = elim r.expected_epoch [
  | none ↦ false
  | some epoch ↦ elim r.expected_revision [
    | none ↦ false
    | some revision ↦ bytes_eq epoch s.epoch && revision == s.revision
  ]
]

-- Executes the request and keeps its receipt.
unfoldable pub execute_once : World → Request → Bytes → Store → Store × Reply
execute_once w r id s =
    let (t, outcome) = execute w r.operation r.payload s in
    let reply = result w.now outcome t in
    let receipt : Receipt = record { id = id; fingerprint = r.fingerprint; reply = reply } in
    (record t { requests = evicted (t.requests ++ receipt ∷ []) }, reply)

-- A request with a receipt is answered from it, if it is the same request.
unfoldable pub answer_again : World → Request → Receipt → Store → Store × Reply
answer_again w r previous s =
    if bytes_eq previous.fingerprint r.fingerprint
    then (record s { requests = renew_receipt previous s.requests }, previous.reply)
    else (s, result w.now (threw request_id_reused) s)

unfoldable pub command_new : World → Request → Bytes → Store → Store × Reply
command_new w r id s =
    if expects r s then execute_once w r id s else (s, result w.now (threw scene_changed) s)

unfoldable pub command_id : World → Request → Bytes → Store → Store × Reply
command_id w r id s = elim (find_receipt id s.requests) [
  | some previous ↦ answer_again w r previous s
  | none ↦ command_new w r id s
]

abbrev pub is_get : Operation → Bool
is_get get_scene = true
is_get _ = false

-- The request id, if it follows the contract.
abbrev pub request_id_of : Request → Option Bytes
request_id_of r = elim r.request_id [
  | none ↦ none
  | some id ↦ if valid_request_id id then some id else none
]

unfoldable pub command : World → Request → Store → Store × Reply
command w r s =
    if s.in_hook
    then (s, result w.now (threw in_hook) s)
    else (if not r.well_formed
        then (s, result w.now (threw malformed) s)
        else (if is_get r.operation
            then (s, result w.now (returned tt) s)
            else elim (request_id_of r) [
              | none ↦ (s, result w.now (threw bad_request_id) s)
              | some id ↦ command_id w r id s
            ]))

unfoldable pub request_result : Bytes → Store → Option Reply
unfolding find_receipt
request_result id s = elim (find_receipt id s.requests) [ none ↦ none | some r ↦ some r.reply ]
