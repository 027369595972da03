-- ===== src/PublisherRegistry/Publish.antt =====
-- `PublisherRegistry::publish` and `declare` (src/ros1_tools_adapter/src/publisher_registry.cpp).
-- What roscpp, the clocks and the caller's cancellation answer is an argument.
use xgc2_ros1_adapter.Common.{
  ℕ, suc, zero, ◌+◌, Bool, true, false, List, [], ◌∷◌, Option, none, some, ◌==◌, if◌then◌else◌,
  Bytes,
}
use xgc2_ros1_adapter.Common.Int.{ℤ}
use xgc2_ros1_adapter.PublisherRegistry.State.{
  ToolsError, cancelled, deadline, transient, uncertain, Outcome, returned, threw,
  PublisherConfiguration, Registry, declare_section, lease_section, refresh_master_generation,
  release,
}

unfoldable pub declare :
    ℤ → Option ToolsError → PublisherConfiguration → Registry → Registry × Outcome ℕ
declare current advertised c s =
    let (t, o) = refresh_master_generation current s in
    elim o [ threw e ↦ (t, threw e) | returned u ↦ declare_section advertised c t ]

-- One reading of the caller's cancellation and deadline.
pub record Permission : Type 0 where
  pub cancellation_requested : Bool
  pub deadline_expired : Bool

unfoldable pub require_dispatch_allowed : Permission → Option ToolsError
require_dispatch_allowed p =
    if p.cancellation_requested
    then some cancelled
    else (if p.deadline_expired then some deadline else none)

unfoldable pub require_continuation_allowed : Permission → Option ToolsError
require_continuation_allowed p =
    if p.cancellation_requested
    then some uncertain
    else (if p.deadline_expired then some uncertain else none)

-- The answers while one message is sent: the readings of `waitUntil`, then in the order of the code.
pub record Sending : Type 0 where
  pub waiting : List Permission
  pub ros_ok : Bool
  pub before : Permission
  pub published : Bool  -- roscpp's publish returns
  pub after : Permission

-- How a publish ended, and how often roscpp's publish was called by then.
pub record Ending : Type 0 where
  pub attempts : ℕ
  pub published_count : ℕ
  pub error : Option ToolsError

-- The first refusal of a loop that asks before each wait.
unfoldable pub first_refusal :
    (Permission → Option ToolsError) → List Permission → Option ToolsError
first_refusal f [] = none
first_refusal f (p ∷ ps) =
    let rest = first_refusal f ps in elim (f p) [ some e ↦ some e | none ↦ rest ]

-- `waitUntil` before every message but the first.
abbrev waited : ℕ → Sending → Option ToolsError
waited index a = if index == 0 then none else first_refusal require_continuation_allowed a.waiting

-- Why the next message is not sent.
unfoldable pub held_back : ℕ → Sending → Option ToolsError
held_back index a = elim (waited index a) [
  | some e ↦ some e
  | none ↦ if a.ros_ok then require_continuation_allowed a.before else some uncertain
]

-- What ends the loop when the message was handed to roscpp.
unfoldable pub sent_refusal : Sending → Option ToolsError
sent_refusal a = if a.published then require_continuation_allowed a.after else some uncertain

-- `left` messages are to be sent, and `index` were.
unfoldable pub send_loop : (left : ℕ) → (ℕ → Sending) → (index : ℕ) → Ending
send_loop zero answer index = record { attempts = index; published_count = index; error = none }
send_loop (suc left) answer index =
    let rest = send_loop left answer (index + 1) in
    let a = answer index in
    elim (held_back index a) [
      | some e ↦ record { attempts = index; published_count = index; error = some e }
      | none ↦ elim (sent_refusal a) [
        | none ↦ rest
        | some e ↦ record {
          attempts = index + 1;
          published_count = if a.published then index + 1 else index;
          error = some e;
        }
      ]
    ]

-- The answers during one publish, in the order of the code.
pub record Publishing : Type 0 where
  pub first : Permission
  pub current : ℤ
  pub prepared : Option ToolsError  -- what creating, decoding or serializing the message throws
  pub advertised : Option ToolsError
  pub publisher_valid : Bool
  pub waits_for_subscribers : Bool
  pub waits : List Permission
  pub after_waits : Permission
  pub subscribed : Bool
  pub ros_ok : Bool
  pub last : Permission
  pub publish_count : ℕ
  pub answer : ℕ → Sending

abbrev or_else : Option ToolsError → Option ToolsError → Option ToolsError
or_else (some e) o = some e
or_else none o = o

abbrev unless : Bool → ToolsError → Option ToolsError
unless b e = if b then none else some e

-- The wait for a subscriber, if the request asks for one.
unfoldable pub subscriber_refusal : Publishing → Option ToolsError
subscriber_refusal x =
    if x.waits_for_subscribers
    then or_else (first_refusal require_dispatch_allowed x.waits)
        (or_else (require_dispatch_allowed x.after_waits) (unless x.subscribed transient))
    else none

-- What stops a publish between the selection of its entry and the first message.
unfoldable pub stopped : Publishing → Option ToolsError
stopped x = or_else (unless x.publisher_valid transient) (
    or_else (subscriber_refusal x)
      (or_else (unless x.ros_ok transient) (require_dispatch_allowed x.last)))

abbrev pub ended : ToolsError → Ending
ended e = record { attempts = 0; published_count = 0; error = some e }

-- From the selected entry on; the lease is released as committed before the first message.
unfoldable pub publish_leased : Publishing → Bytes → (p : ℕ) → Registry → Registry × Ending
publish_leased x topic p s = elim (stopped x) [
  | some e ↦ (release topic p false s, ended e)
  | none ↦ (release topic p true s, send_loop x.publish_count x.answer 0)
]

-- `meanwhile` and `later` are what other threads do before the entry is selected, and before it is
-- released.
unfoldable pub publish :
    (meanwhile later : Registry → Registry)
    → Publishing
    → PublisherConfiguration
    → Registry
    → Registry × Ending
publish meanwhile later x c s = elim (require_dispatch_allowed x.first) [
  | some e ↦ (s, ended e)
  | none ↦
      let (t, o) = refresh_master_generation x.current s in
      elim o [
        | threw e ↦ (t, ended e)
        | returned u ↦ elim x.prepared [
          | some e ↦ (t, ended e)
          | none ↦
              let (v, l) = lease_section x.advertised c (meanwhile t) in
              elim l [ threw e ↦ (v, ended e) | returned p ↦ publish_leased x c.topic p (later v) ]
        ]
      ]
]
