-- ===== src/LidarControl/State.antt =====
-- The state of `Control::Impl` (src/scene_ros1_adapter/src/lidar/control.cpp). A reply is a number, and
-- `replies` has what was completed, in order. The 128 operations are a function of their index.
-- Times are nanoseconds on the steady clock.
use xgc2_ros1_adapter.Common.{
  ℕ, Bool, true, false, List, [], ◌∷◌, ◌++◌, Option, none, some, not, ◌&&◌, if◌then◌else◌, Bytes,
  update, map,
}

pub data OperationState : Type 0 where
  unused accepted succeeded failed : OperationState

pub data Failure : Type 0 where
  deadline_exceeded internal unavailable : Failure

abbrev pub is_accepted : OperationState → Bool
is_accepted accepted = true
is_accepted _ = false

pub record Operation : Type 0 where
  pub id : Bytes
  pub fingerprint : Bytes
  pub state : OperationState
  pub error : Option Failure
  pub revision : ℕ
  pub enabled : Bool
  pub deadline : ℕ
  pub completed : ℕ
  pub submit : Option ℕ
  pub waiters : List ℕ

-- `Operation{}`.
abbrev pub new_operation : Operation
new_operation = record {
  id = [];
  fingerprint = [];
  state = unused;
  error = none;
  revision = 0;
  enabled = false;
  deadline = 0;
  completed = 0;
  submit = none;
  waiters = [];
}

pub record Receipt : Type 0 where
  pub id : Bytes
  pub state : OperationState
  pub result : Option (ℕ × Bool)
  pub error : Option Failure

-- What a client is answered; `refused` is an HTTP error.
pub data Response : Type 0 where
  described : (ready : Bool) → Response
  configuration :
      (desired_revision : ℕ) (desired : Bool) (applied_revision : ℕ) (applied : Bool) → Response
  receipt : (status : ℕ) → Receipt → Response
  refused : (status : ℕ) → Response

pub record ReadyWaiter : Type 0 where
  pub reply : ℕ
  pub until : ℕ

-- `taken` is the operation that the control thread took from `pending`, while it applies it; `callback` is
-- whether its executor has `ApplyPending`, waiting or running.
pub record Control : Type 0 where
  pub operations : ℕ → Operation
  pub pending : List ℕ
  pub desired : Bool
  pub applied : Bool
  pub stopping : Bool
  pub scheduled : Bool
  pub desired_revision : ℕ
  pub applied_revision : ℕ
  pub applying : Bool
  pub ready : Bool
  pub ready_waiters : List ReadyWaiter
  pub taken : Option ℕ
  pub callback : Bool
  pub replies : List (ℕ × Response)

abbrev pub initial_control : (enabled : Bool) → Control
initial_control enabled = record {
  operations = λ i. new_operation;
  pending = [];
  desired = enabled;
  applied = enabled;
  stopping = false;
  scheduled = false;
  desired_revision = 1;
  applied_revision = 1;
  applying = false;
  ready = true;
  ready_waiters = [];
  taken = none;
  callback = false;
  replies = [];
}

-- The constructor: `whole` is whether it was given an identity, a dispatcher and facts.
abbrev pub new_control : (whole enabled : Bool) → Option Control
new_control whole enabled = if whole then some (initial_control enabled) else none

abbrev pub complete : ℕ → Response → Control → Control
complete reply r s = record s { replies = s.replies ++ (reply, r) ∷ [] }

abbrev pub complete_all : List ℕ → Response → Control → Control
complete_all replies r s = record s { replies = s.replies ++ map (λ w. (w, r)) replies }

-- `Reply(Configuration())`, `Receipt` and `Reply(Describe())`.
abbrev pub current_configuration : Control → Response
current_configuration s = configuration s.desired_revision s.desired s.applied_revision s.applied

abbrev pub receipt_of : Operation → Receipt
receipt_of o = record {
  id = o.id;
  state = o.state;
  result = elim o.state [ succeeded ↦ some (o.revision, o.enabled) | _ ↦ none ];
  error = elim o.state [ failed ↦ o.error | _ ↦ none ];
}

abbrev pub description : Control → Response
description s = described (s.ready && not s.stopping)

abbrev pub finished : Option Failure → (now : ℕ) → Operation → Operation
finished failure now o = record o {
  state = elim failure [ none ↦ succeeded | some f ↦ failed ];
  error = failure;
  completed = now;
  submit = none;
  waiters = [];
}

-- The submitter first, then each waiter gets the receipt.
abbrev pub completed_replies : Operation → List ℕ
completed_replies o = elim o.submit [ none ↦ o.waiters | some reply ↦ reply ∷ o.waiters ]

abbrev pub finish : ℕ → Option Failure → (now : ℕ) → Control → Control
finish i failure now s =
    let o = s.operations i in
    let done = finished failure now o in
    record s {
      operations = update s.operations i done;
      replies = s.replies ++ map (λ w. (w, receipt 200 (receipt_of done))) (completed_replies o);
    }
