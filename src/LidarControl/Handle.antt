-- ===== src/LidarControl/Handle.antt =====
-- `Control::Impl::Handle` (src/scene_ros1_adapter/src/lidar/control.cpp), under its lock.
use Prim.Native.String.{String}
use xgc2_ros1_adapter.Common.{
  ℕ, zero, suc, ◌+◌, ◌-◌, ◌*◌, min, Bool, true, false, List, [], ◌∷◌, ◌++◌, Option, none, some, not,
  ◌&&◌, ◌||◌, ltb, leb, ◌==◌, if◌then◌else◌, Bytes, bytes_eq, length, is_empty, is_some, codes,
  after_prefix, update,
}
use xgc2_ros1_adapter.LidarControl.State.{
  OperationState, accepted, is_accepted, Operation, new_operation, receipt, refused, Control,
  complete, current_configuration, receipt_of, description,
}
use xgc2_ros1_adapter.LidarControl.Request.{
  get, post, Request, Configure, configure_of, parse_wait, path_of, cut_wait, maximum_revision,
}

-- The first of the `left` operations from `i` on that has an id.
unfoldable pub find_operation : (left i : ℕ) → Bytes → (ℕ → Operation) → Option ℕ
find_operation zero i id ops = none
find_operation (suc left) i id ops =
    let rest = find_operation left (i + 1) id ops in if bytes_eq (ops i).id id then some i else rest

abbrev pub earlier : ℕ → Option (ℕ × ℕ) → Bool
earlier completed none = true
earlier completed (some (i, oldest)) = ltb completed oldest

-- A finished operation that was completed before the best one so far is better.
abbrev pub better_slot : ℕ → Operation → Option (ℕ × ℕ) → Option (ℕ × ℕ)
better_slot i o best =
    if not (is_accepted o.state) && earlier o.completed best then some (i, o.completed) else best

-- The first unused operation, or else the one that was completed first. `best` is the index of such a
-- one so far, with its time.
unfoldable pub find_slot : (left i : ℕ) → (best : Option (ℕ × ℕ)) → (ℕ → Operation) → Option ℕ
find_slot zero i best ops = elim best [ none ↦ none | some b ↦ some b.0 ]
find_slot (suc left) i best ops =
    let rest = find_slot left (i + 1) (better_slot i (ops i) best) ops in
    if is_empty (ops i).id then some i else rest

abbrev pub status_of : OperationState → ℕ
status_of accepted = 202
status_of _ = 200

-- `cancelled` is what a reply answers of its client, `now` the clock.
pub record World : Type 0 where
  pub now : ℕ
  pub cancelled : ℕ → Bool

unfoldable pub still_there : (ℕ → Bool) → List ℕ → List ℕ
still_there cancelled [] = []
still_there cancelled (w ∷ ws) =
    let rest = still_there cancelled ws in if cancelled w then rest else w ∷ rest

module _ (x : World) (q : Request) (reply : ℕ) where
  unfoldable pub describe : Control → Control
  describe s = elim (parse_wait q.target) [
    | none ↦ complete reply (refused 400) s
    | some wait ↦ if s.ready || wait == 0 then complete reply (description s) s else record s {
      ready_waiters =
          s.ready_waiters
          ++ record { reply = reply; until = min (x.now + wait * 1000000) (q.deadline - 250000000) }
            ∷ [];
    }
  ]

  -- A wait for the operation at `i`, or a look at it.
  unfoldable pub observe : (wait : Bool) → (i : ℕ) → Control → Control
  unfolding still_there
  observe wait i s =
      let o = s.operations i in
      let present = still_there x.cancelled o.waiters in
      let t = record s { operations = update s.operations i (record o { waiters = present }) } in
      if wait && is_accepted o.state
      then (if length present == 4 then complete reply (refused 429) t else record s {
        operations = update s.operations i (record o { waiters = present ++ reply ∷ [] });
      })
      else complete reply (receipt (status_of o.state) (receipt_of o)) s

  -- The id of the route without the suffix of a wait, if it is one.
  unfoldable pub cut_id : (id : Bytes) → Option Bytes
  unfolding cut_wait
  cut_id id = elim q.method [ post ↦ cut_wait id | _ ↦ none ]

  abbrev pub gets : Bool
  gets = elim q.method [ get ↦ true | _ ↦ false ]

  abbrev pub name_of : (id : Bytes) → Bytes
  name_of id = elim (cut_id id) [ none ↦ id | some i ↦ i ]

  abbrev pub no_route : (id : Bytes) → Bool
  no_route id = (not (is_some (cut_id id)) && not gets) || is_empty (name_of id)

  unfoldable pub operation_route : (id : Bytes) → Control → Control
  operation_route id s =
      if no_route id
      then complete reply (refused 400) s
      else elim (find_operation 128 0 (name_of id) s.operations) [
        | none ↦ complete reply (refused 404) s
        | some i ↦ observe (is_some (cut_id id)) i s
      ]

  -- The operation that a configuration starts.
  abbrev pub admitted : Configure → (revision : ℕ) → Operation
  admitted c revision = record new_operation {
    id = q.request_id;
    fingerprint = q.body;
    state = accepted;
    enabled = c.enabled;
    revision = revision;
    deadline = x.now + c.operation_timeout_ms * 1000000;
    submit = some reply;
  }

  abbrev pub admit : Configure → (i : ℕ) → Control → Control
  admit c i s = record s {
    operations = update s.operations i (admitted c (s.desired_revision + 1));
    desired_revision = s.desired_revision + 1;
    desired = c.enabled;
    pending = s.pending ++ i ∷ [];
    scheduled = true;
  }

  -- The flag is whether the control thread's callback has to be posted.
  unfoldable pub start : Configure → Control → Control × Bool
  start c s =
      if not (c.expected_revision == s.desired_revision)
      then (complete reply (refused 409) s, false)
      else (if leb 16 (length s.pending) || s.desired_revision == maximum_revision
          then (complete reply (refused 429) s, false)
          else elim (find_slot 128 0 none s.operations) [
            | none ↦ (complete reply (refused 429) s, false)
            | some i ↦ (admit c i s, not s.scheduled)
          ])

  unfoldable pub repeated : (i : ℕ) → Control → Control
  repeated i s =
      let o = s.operations i in
      if bytes_eq o.fingerprint q.body
      then complete reply (receipt (status_of o.state) (receipt_of o)) s
      else complete reply (refused 409) s

  unfoldable pub configure : Control → Control × Bool
  configure s = elim (configure_of q.parsed) [
    | none ↦ (complete reply (refused 400) s, false)
    | some c ↦ elim (find_operation 128 0 q.request_id s.operations) [
      | some i ↦ (repeated i s, false)
      | none ↦ start c s
    ]
  ]

  abbrev pub gets_path : String → Bool
  gets_path path = elim q.method [ get ↦ bytes_eq (path_of q.target) (codes path) | _ ↦ false ]

  abbrev pub gets_target : String → Bool
  gets_target target = elim q.method [ get ↦ bytes_eq q.target (codes target) | _ ↦ false ]

  abbrev pub posts_target : String → Bool
  posts_target target = elim q.method [ post ↦ bytes_eq q.target (codes target) | _ ↦ false ]

  unfoldable pub handle : Control → Control × Bool
  handle s =
      let others : Control × Bool = elim (after_prefix (codes "/v1/operations/") q.target) [
        | some id ↦ (operation_route id s, false)
        | none ↦
            if posts_target "/v1/configure"
            then configure s
            else (complete reply (refused 404) s, false)
      ] in
      if s.stopping
      then (complete reply (refused 503) s, false)
      else (if gets_path "/v1/describe"
          then (describe s, false)
          else (if gets_target "/v1/status" || gets_target "/v1/health"
              then (complete reply (current_configuration s) s, false)
              else others))
