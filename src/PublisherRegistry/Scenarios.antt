-- ===== src/PublisherRegistry/Scenarios.antt =====
-- Tests of src/ros1_tools_adapter/src/publisher_registry.cpp, and the theorems at concrete inputs.
use xgc2_ros1_adapter.Common.{
  ℕ, ◌+◌, ◌≤◌, ◌≡◌, refl, ◌⊎◌, true, false, [], ◌∷◌, none, some, if◌then◌else◌, Bytes, bytes_eq,
  length, arith,
}
use xgc2_ros1_adapter.Common.Int.{pos}
use xgc2_ros1_adapter.PublisherRegistry.State.{
  ToolsError, uncertain, deadline, returned, PublisherConfiguration, Registry, find_entry,
  erase_entry, select, same_configuration, declare_section, lease_section,
  refresh_master_generation, release, clear,
}
use xgc2_ros1_adapter.PublisherRegistry.Publish.{
  declare, Permission, require_dispatch_allowed, require_continuation_allowed, Sending, Ending,
  first_refusal, held_back, sent_refusal, send_loop, Publishing, subscriber_refusal, stopped,
  publish_leased, publish,
}
use xgc2_ros1_adapter.PublisherRegistry.Boundary.{publish_boundary}
use xgc2_ros1_adapter.PublisherRegistry.Capacity.{
  declares, leases, start, then_step, count, cache_bounded, release-lease_section,
}

registry_code : Unit {0}
unfolding bytes_eq find_entry erase_entry select same_configuration declare_section lease_section
    refresh_master_generation release clear declare require_dispatch_allowed
    require_continuation_allowed first_refusal held_back sent_refusal send_loop subscriber_refusal
    stopped publish_leased publish
registry_code = tt

abbrev chatter : PublisherConfiguration
chatter = record { topic = 99 ∷ []; message_type = 115 ∷ []; latch = false; queue_size = 10 }

abbrev empty : Registry
empty = record {
  maximum_publishers = 1;
  master_generation = 42;
  entries = [];
  object = λ p. record {
    message_type = [];
    latch = false;
    queue_size = 0;
    active_calls = 0;
    native_dispatch_committed = false;
    declared = false;
  };
  next = 0;
}

abbrev allowed : Permission
allowed = record { cancellation_requested = false; deadline_expired = false }

abbrev expired : Permission
expired = record { cancellation_requested = false; deadline_expired = true }

-- The deadline passes after the first message.
abbrev sending : ℕ → Sending
sending index = record {
  waiting = expired ∷ [];
  ros_ok = true;
  before = allowed;
  published = true;
  after = allowed;
}

abbrev publishing : Permission → ℕ → Publishing
publishing last publish_count = record {
  first = allowed;
  current = pos 42;
  prepared = none;
  advertised = none;
  publisher_valid = true;
  waits_for_subscribers = false;
  waits = [];
  after_waits = allowed;
  subscribed = true;
  ros_ok = true;
  last = last;
  publish_count = publish_count;
  answer = sending;
}

abbrev run : Permission → ℕ → Registry × Ending
run last publish_count = publish (λ s. s) (λ s. s) (publishing last publish_count) chatter empty

-- One message is sent and the publisher stays.
sends_one :
    ((run allowed 1).1.error ≡ none)
    × ((run allowed 1).1.attempts ≡ 1)
    × ((run allowed 1).0.entries ≡ (99 ∷ [], 0) ∷ [])
unfolding registry_code
sends_one = (refl, refl, refl)

-- The second message is not sent, and the caller is told that the first may have been.
sends_some : ((run allowed 2).1.error ≡ some uncertain) × ((run allowed 2).1.attempts ≡ 1)
unfolding registry_code
sends_some = (refl, refl)

-- A deadline before the first message leaves neither a message nor a publisher.
sends_none :
    ((run expired 1).1.error ≡ some deadline)
    × ((run expired 1).1.attempts ≡ 0)
    × ((run expired 1).0.entries ≡ [])
unfolding registry_code
sends_none = (refl, refl, refl)

publish_boundary_example :
    let r = (run allowed 2).1 in
    ((r.error ≡ none) × (r.attempts ≡ 2) × (r.published_count ≡ 2))
    ⊎ (((r.error ≡ some uncertain)
          × (r.attempts ≤ 2)
          × (r.published_count ≤ r.attempts)
          × (r.attempts ≤ r.published_count + 1))
        ⊎ ((e : ToolsError) × (r.error ≡ some e) × (r.attempts ≡ 0)))
publish_boundary_example = publish_boundary (λ s. s) (λ s. s) (publishing allowed 2) chatter empty

abbrev other : PublisherConfiguration
other = record chatter { topic = 100 ∷ [] }

abbrev crowded : Registry
crowded = (lease_section none other (declare_section none chatter empty).0).0

cache_bounded_example :
    (length crowded.entries ≤ 1) × ((topic : Bytes) → count topic crowded.entries ≤ 1)
unfolding registry_code
cache_bounded_example = cache_bounded empty crowded refl (
    then_step (then_step start (declares none chatter empty))
      (leases none other (declare_section none chatter empty).0))

release-lease_section_example :
    let r = lease_section none chatter empty in
    (r.1 ≡ returned 0)
    × ((release chatter.topic 0 false r.0).entries
        ≡ (if false then (chatter.topic, 0) ∷ [] else []))
unfolding registry_code
release-lease_section_example = release-lease_section chatter false empty refl (omega arith)
