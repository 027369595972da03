-- ===== src/PublisherRegistry/Capacity.antt =====
-- The cache of `PublisherRegistry` under any order of its sections
-- (src/ros1_tools_adapter/src/publisher_registry.cpp).
use xgc2_ros1_adapter.Common.{
  ℕ, ◌+◌, ◌≤◌, ◌<◌, ◌≡◌, refl, inl, inr, Bool, true, false, Option, none, some, if◌then◌else◌, not,
  leb, arith, Bool-cases, List, [], ◌∷◌, Bytes, bytes_eq, bytes_eq_refl, eq_of_bytes_eq, length,
  sym, subst,
}
use xgc2_ros1_adapter.Common.Int.{ℤ}
use xgc2_ros1_adapter.PublisherRegistry.State.{
  ToolsError, Outcome, returned, threw, resource_exhausted, transient, permanent,
  PublisherConfiguration, Entry, Registry, find_entry, erase_entry, add_entry, select, on_entry,
  declare_section, lease_section, refresh_master_generation, release, is_positive, is_generation,
  clear, same_configuration,
}

-- What a thread may do under the lock.
pub data Step : Registry → Registry → Type 0 where
  declares :
      (a : Option ToolsError) (c : PublisherConfiguration) (s : Registry)
      → Step s (declare_section a c s).0
  leases :
      (a : Option ToolsError) (c : PublisherConfiguration) (s : Registry)
      → Step s (lease_section a c s).0
  refreshes : (current : ℤ) (s : Registry) → Step s (refresh_master_generation current s).0
  releases :
      (topic : Bytes) (p : ℕ) (committed : Bool) (s : Registry)
      → Step s (release topic p committed s)
  clears : (s : Registry) → Step s (clear s)

pub data Reach (s : Registry) : Registry → Type 0 where
  start : Reach s s
  then_step : {t u : Registry} → Reach s t → Step t u → Reach s u

abbrev pub count : Bytes → List (Bytes × ℕ) → ℕ
count topic [] = 0
count topic ((t, p) ∷ rest) = (if bytes_eq topic t then 1 else 0) + count topic rest

pub record CacheValid (maximum : ℕ) (s : Registry) : Type 0 where
  pub kept : s.maximum_publishers ≡ maximum
  pub bounded : length s.entries ≤ maximum
  pub single : (topic : Bytes) → count topic s.entries ≤ 1

count_absent :
    (topic : Bytes) (es : List (Bytes × ℕ)) → find_entry topic es ≡ none → count topic es ≡ 0
unfolding find_entry
count_absent topic [] h = refl
count_absent topic ((t, p) ∷ es) h = ground (arith, count_absent topic es)

length-erase_entry :
    (topic : Bytes) (es : List (Bytes × ℕ)) → length (erase_entry topic es) ≤ length es
unfolding erase_entry
length-erase_entry topic [] = omega arith
length-erase_entry topic ((t, p) ∷ es) = ground (arith, length-erase_entry topic es)

count-erase_entry :
    (k topic : Bytes) (es : List (Bytes × ℕ)) → count k (erase_entry topic es) ≤ count k es
unfolding erase_entry
count-erase_entry k topic [] = omega arith
count-erase_entry k topic ((t, p) ∷ es) = ground (arith, count-erase_entry k topic es)

-- A new topic in a cache that is not full.
add_entry-CacheValid :
    (m : ℕ) (c : PublisherConfiguration) (s : Registry)
    → CacheValid m s
    → find_entry c.topic s.entries ≡ none
    → leb s.maximum_publishers (length s.entries) ≡ false
    → CacheValid m (add_entry c s)
add_entry-CacheValid m c s v f l = record {
  kept = v.kept;
  bounded = ground (arith, v.kept, l);
  single = λ topic. elim (Bool-cases (bytes_eq topic c.topic)) [
    | inl e ↦ rw (e) (
        omega (
          arith,
          count_absent topic s.entries
              (subst (λ k. find_entry k s.entries ≡ none) (sym (eq_of_bytes_eq topic c.topic e)) f),
        ))
    | inr e ↦ rw (e) (omega (arith, v.single topic))
  ];
}

either {ℓ κ} :
    {A : Type ℓ} (P : A → Type κ) (b : Bool) {x y : A} → P x → P y → P (if b then x else y)
either P true h k = h
either P false h k = k

-- The room that is left, and the answer of roscpp.
module _ (m : ℕ) (c : PublisherConfiguration) (s : Registry) (v : CacheValid m s) where
  abbrev Valid : Registry × Outcome ℕ → Type 0
  Valid r = CacheValid m r.0

  advertised-CacheValid :
      (a : Option ToolsError)
      → find_entry c.topic s.entries ≡ none
      → leb s.maximum_publishers (length s.entries) ≡ false
      → Valid (elim a [ some e ↦ (s, threw e) | none ↦ (add_entry c s, returned s.next) ])
  advertised-CacheValid (some e) f l = v
  advertised-CacheValid none f l = add_entry-CacheValid m c s v f l

  room-CacheValid :
      (a : Option ToolsError) (full : Bool)
      → find_entry c.topic s.entries ≡ none
      → leb s.maximum_publishers (length s.entries) ≡ full
      → Valid (
          if full
          then (s, threw resource_exhausted)
          else elim a [ some e ↦ (s, threw e) | none ↦ (add_entry c s, returned s.next) ])
  room-CacheValid a true f l = v
  room-CacheValid a false f l = advertised-CacheValid a f l

  select_by-CacheValid :
      (a : Option ToolsError) (o : Option ℕ)
      → find_entry c.topic s.entries ≡ o
      → Valid (elim o [
        | none ↦
            if leb s.maximum_publishers (length s.entries)
            then (s, threw resource_exhausted)
            else elim a [ some e ↦ (s, threw e) | none ↦ (add_entry c s, returned s.next) ]
        | some p ↦
            if same_configuration (s.object p) c then (s, returned p) else (s, threw permanent)
      ])
  select_by-CacheValid a none f = room-CacheValid a _ f refl
  select_by-CacheValid a (some p) f = either Valid (same_configuration (s.object p) c) v v

  select-CacheValid : (a : Option ToolsError) → CacheValid m (select a c s).0
  unfolding select
  select-CacheValid a = select_by-CacheValid a _ refl

on_entry-CacheValid :
    (m : ℕ) (f : Entry → Entry) (r : Registry × Outcome ℕ)
    → CacheValid m r.0
    → CacheValid m (on_entry f r).0
on_entry-CacheValid m f (s, returned p) v = record {
  kept = v.kept;
  bounded = v.bounded;
  single = v.single;
}
on_entry-CacheValid m f (s, threw e) v = v

emptied-CacheValid :
    (m : ℕ) (s : Registry) → CacheValid m s → CacheValid m (record s { entries = [] })
emptied-CacheValid m s v = record {
  kept = v.kept;
  bounded = omega arith;
  single = λ topic. omega arith;
}

abbrev refresh_by : (positive same : Bool) → Registry → Registry × Outcome (Unit {0})
refresh_by positive same s =
    if not positive
    then (s, threw transient)
    else (if same then (s, returned tt) else (record s { entries = [] }, threw transient))

refresh_by-CacheValid :
    (m : ℕ) (s : Registry) (positive same : Bool)
    → CacheValid m s
    → CacheValid m (refresh_by positive same s).0
refresh_by-CacheValid m s false same v = v
refresh_by-CacheValid m s true true v = v
refresh_by-CacheValid m s true false v = emptied-CacheValid m s v

refresh-CacheValid :
    (m : ℕ) (current : ℤ) (s : Registry)
    → CacheValid m s
    → CacheValid m (refresh_master_generation current s).0
unfolding refresh_master_generation
refresh-CacheValid m current s v =
    refresh_by-CacheValid m s (is_positive current) (is_generation current s.master_generation) v

release-CacheValid :
    (m : ℕ) (topic : Bytes) (p : ℕ) (b : Bool) (s : Registry)
    → CacheValid m s
    → CacheValid m (release topic p b s)
unfolding release
release-CacheValid m topic p b s v =
    either (CacheValid m) _
      (record {
        kept = v.kept;
        bounded = omega (arith, v.bounded, length-erase_entry topic s.entries);
        single = λ k. omega (arith, v.single k, count-erase_entry k topic s.entries);
      })
      (record { kept = v.kept; bounded = v.bounded; single = v.single })

Step-CacheValid : (m : ℕ) {s t : Registry} → Step s t → CacheValid m s → CacheValid m t
unfolding declare_section lease_section clear
Step-CacheValid m (declares a c s) v =
    on_entry-CacheValid m (λ e. record e { declared = true }) (select a c s)
      (select-CacheValid m c s v a)
Step-CacheValid m (leases a c s) v =
    on_entry-CacheValid m (λ e. record e { active_calls = e.active_calls + 1 }) (select a c s)
      (select-CacheValid m c s v a)
Step-CacheValid m (refreshes current s) v = refresh-CacheValid m current s v
Step-CacheValid m (releases topic p b s) v = release-CacheValid m topic p b s v
Step-CacheValid m (clears s) v = emptied-CacheValid m s v

Reach-CacheValid : (m : ℕ) {s t : Registry} → Reach s t → CacheValid m s → CacheValid m t
Reach-CacheValid m start v = v
Reach-CacheValid m (then_step r h) v = Step-CacheValid m h (Reach-CacheValid m r v)

-- From an empty cache, whatever sections of declare, publish, refresh and clear threads run in whatever
-- order, there are at most the maximum of publishers and no two of one topic.
pub cache_bounded :
    (s t : Registry)
    → s.entries ≡ []
    → Reach s t
    → (length t.entries ≤ s.maximum_publishers) × ((topic : Bytes) → count topic t.entries ≤ 1)
cache_bounded s t e r =
    let v = Reach-CacheValid s.maximum_publishers r (record {
      kept = refl;
      bounded = subst (λ l. length l ≤ s.maximum_publishers) (sym e) (omega arith);
      single = λ topic. subst (λ l. count topic l ≤ 1) (sym e) (omega arith);
    }) in
    (v.bounded, v.single)

-- A lease of a topic that was not cached, and its release with no other section between them: the
-- publisher is kept if the release committed to a dispatch, and else the cache is as it was.
pub release-lease_section :
    (c : PublisherConfiguration) (committed : Bool) (s : Registry)
    → find_entry c.topic s.entries ≡ none
    → length s.entries < s.maximum_publishers
    → let r = lease_section none c s in
      (r.1 ≡ returned s.next)
      × ((release c.topic s.next committed r.0).entries
          ≡ (if committed then (c.topic, s.next) ∷ s.entries else s.entries))
unfolding lease_section select release find_entry erase_entry
release-lease_section c true s f l =
    (ground (arith, bytes_eq_refl c.topic), ground (arith, bytes_eq_refl c.topic))
release-lease_section c false s f l =
    (ground (arith, bytes_eq_refl c.topic), ground (arith, bytes_eq_refl c.topic))
