-- ===== src/PublisherRegistry/State.antt =====
-- The cache of `PublisherRegistry` and its sections under the lock: `select`, `declare`,
-- `refreshMasterGeneration`, `release` and `clear`
-- (src/ros1_tools_adapter/src/publisher_registry.cpp). Entries are shared, so they are objects in a
-- store by address, and a topic maps to an address. roscpp's publisher handles are not kept.
use xgc2_ros1_adapter.Common.{
  ℕ, ◌+◌, ◌-◌, Bool, true, false, List, [], ◌∷◌, Option, none, some, ◌&&◌, ◌||◌, not, leb, ltb,
  ◌==◌, if◌then◌else◌, Bytes, bytes_eq, length,
}
use xgc2_ros1_adapter.Common.Int.{ℤ, pos, negsuc}

-- The categories of `Ros1ToolsError`.
pub data ToolsError : Type 0 where
  cancelled deadline transient permanent rejected resource_exhausted uncertain : ToolsError

pub data Outcome {ℓ} (A : Type ℓ) : Type ℓ where
  returned : A → Outcome A
  threw : ToolsError → Outcome A

pub record PublisherConfiguration : Type 0 where
  pub topic : Bytes
  pub message_type : Bytes
  pub latch : Bool
  pub queue_size : ℕ

pub record Entry : Type 0 where
  pub message_type : Bytes
  pub latch : Bool
  pub queue_size : ℕ
  pub active_calls : ℕ
  pub native_dispatch_committed : Bool
  pub declared : Bool

-- `object` holds the entries by address, and `next` is an address that none of them has.
pub record Registry : Type 0 where
  pub maximum_publishers : ℕ
  pub master_generation : ℕ
  pub entries : List (Bytes × ℕ)
  pub object : ℕ → Entry
  pub next : ℕ

unfoldable pub find_entry : Bytes → List (Bytes × ℕ) → Option ℕ
find_entry topic [] = none
find_entry topic ((t, p) ∷ rest) = if bytes_eq topic t then some p else find_entry topic rest

unfoldable pub erase_entry : Bytes → List (Bytes × ℕ) → List (Bytes × ℕ)
erase_entry topic [] = []
erase_entry topic ((t, p) ∷ rest) =
    let others = erase_entry topic rest in if bytes_eq topic t then rest else (t, p) ∷ others

abbrev pub put_entry : ℕ → Entry → Registry → Registry
put_entry p e s = record s { object = λ q. if q == p then e else s.object q }

abbrev bool_eq : Bool → Bool → Bool
bool_eq true b = b
bool_eq false b = not b

unfoldable pub same_configuration : Entry → PublisherConfiguration → Bool
same_configuration e c =
    bytes_eq e.message_type c.message_type
    && (bool_eq e.latch c.latch && e.queue_size == c.queue_size)

abbrev new_entry : PublisherConfiguration → Entry
new_entry c = record {
  message_type = c.message_type;
  latch = c.latch;
  queue_size = c.queue_size;
  active_calls = 0;
  native_dispatch_committed = false;
  declared = false;
}

-- `entries_.emplace` of a new entry.
abbrev pub add_entry : PublisherConfiguration → Registry → Registry
add_entry c s = record s {
  entries = (c.topic, s.next) ∷ s.entries;
  object = λ q. if q == s.next then new_entry c else s.object q;
  next = s.next + 1;
}

-- `advertised` is none if roscpp advertises the topic, and what it throws otherwise.
unfoldable pub select :
    (advertised : Option ToolsError) → PublisherConfiguration → Registry → Registry × Outcome ℕ
select advertised c s = elim (find_entry c.topic s.entries) [
  | none ↦
      if leb s.maximum_publishers (length s.entries)
      then (s, threw resource_exhausted)
      else elim advertised [ some e ↦ (s, threw e) | none ↦ (add_entry c s, returned s.next) ]
  | some p ↦ if same_configuration (s.object p) c then (s, returned p) else (s, threw permanent)
]

-- A change of the selected entry in the same section.
abbrev pub on_entry : (Entry → Entry) → Registry × Outcome ℕ → Registry × Outcome ℕ
on_entry f (s, returned p) = (put_entry p (f (s.object p)) s, returned p)
on_entry f (s, threw e) = (s, threw e)

-- `select(configuration)->declared = true`.
unfoldable pub declare_section :
    Option ToolsError → PublisherConfiguration → Registry → Registry × Outcome ℕ
declare_section advertised c s =
    on_entry (λ e. record e { declared = true }) (select advertised c s)

-- The section of `publish` that selects the entry and counts the call.
unfoldable pub lease_section :
    Option ToolsError → PublisherConfiguration → Registry → Registry × Outcome ℕ
lease_section advertised c s =
    on_entry (λ e. record e { active_calls = e.active_calls + 1 }) (select advertised c s)

abbrev pub is_positive : ℤ → Bool
is_positive (pos n) = ltb 0 n
is_positive (negsuc n) = false

abbrev pub is_generation : ℤ → ℕ → Bool
is_generation (pos n) g = n == g
is_generation (negsuc n) g = false

-- `refreshMasterGeneration`, at the observed master process.
unfoldable pub refresh_master_generation : ℤ → Registry → Registry × Outcome (Unit {0})
refresh_master_generation current s =
    if not (is_positive current)
    then (s, threw transient)
    else (if is_generation current s.master_generation
        then (s, returned tt)
        else (record s { entries = [] }, threw transient))

abbrev pub left : Bool → Entry → Entry
left committed e = record e {
  active_calls = e.active_calls - 1;
  native_dispatch_committed = e.native_dispatch_committed || committed;
}

-- Nobody needs the entry any more.
abbrev pub idle : Entry → Bool
idle e = e.active_calls == 0 && (not e.native_dispatch_committed && not e.declared)

abbrev pub is_address : ℕ → Option ℕ → Bool
is_address p none = false
is_address p (some q) = p == q

unfoldable pub release : Bytes → (p : ℕ) → (committed : Bool) → Registry → Registry
release topic p committed s =
    let e = left committed (s.object p) in
    let t = put_entry p e s in
    if is_address p (find_entry topic s.entries) && idle e
    then record t { entries = erase_entry topic s.entries }
    else t

unfoldable pub clear : Registry → Registry
clear s = record s { entries = [] }
