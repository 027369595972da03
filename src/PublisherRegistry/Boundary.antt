-- ===== src/PublisherRegistry/Boundary.antt =====
-- The boundary of the side effect in `PublisherRegistry::publish`
-- (src/ros1_tools_adapter/src/publisher_registry.cpp).
use xgc2_ros1_adapter.Common.{
  ℕ, suc, zero, ◌+◌, ◌≤◌, ◌≡◌, refl, ◌⊎◌, inl, inr, Bool, true, false, Option, none, some,
  if◌then◌else◌, arith, List, [], ◌∷◌, Bytes,
}
use xgc2_ros1_adapter.PublisherRegistry.State.{
  ToolsError, uncertain, Outcome, returned, threw, PublisherConfiguration, Registry, lease_section,
  refresh_master_generation, release,
}
use xgc2_ros1_adapter.PublisherRegistry.Publish.{
  Permission, require_dispatch_allowed, require_continuation_allowed, Sending, Ending,
  first_refusal, held_back, sent_refusal, send_loop, Publishing, stopped, ended, publish_leased,
  publish,
}

-- All messages were sent.
abbrev Complete : ℕ → Ending → Type 0
Complete n r = (r.error ≡ none) × (r.attempts ≡ n) × (r.published_count ≡ n)

-- Some messages may have been sent, of which the error warns.
abbrev Partial : ℕ → Ending → Type 0
Partial n r =
    (r.error ≡ some uncertain)
    × (r.attempts ≤ n)
    × (r.published_count ≤ r.attempts)
    × (r.attempts ≤ r.published_count + 1)

-- No message was sent.
abbrev Untouched : Ending → Type 0
Untouched r = (e : ToolsError) × (r.error ≡ some e) × (r.attempts ≡ 0)

continuation_uncertain :
    (p : Permission)
    → (require_continuation_allowed p ≡ none) ⊎ (require_continuation_allowed p ≡ some uncertain)
unfolding require_continuation_allowed
continuation_uncertain p = ground arith

first_uncertain :
    (ps : List Permission)
    → (first_refusal require_continuation_allowed ps ≡ none)
      ⊎ (first_refusal require_continuation_allowed ps ≡ some uncertain)
unfolding first_refusal
first_uncertain [] = inl refl
first_uncertain (p ∷ ps) = ground (arith, continuation_uncertain p, first_uncertain ps)

held_back_uncertain :
    (i : ℕ) (a : Sending) → (held_back i a ≡ none) ⊎ (held_back i a ≡ some uncertain)
unfolding held_back
held_back_uncertain i a = ground (arith, continuation_uncertain a.before, first_uncertain a.waiting)

sent_refusal_uncertain : (a : Sending) → (sent_refusal a ≡ none) ⊎ (sent_refusal a ≡ some uncertain)
unfolding sent_refusal
sent_refusal_uncertain a = ground (arith, continuation_uncertain a.after)

abbrev Sent : ℕ → Ending → Type 0
Sent n r = Complete n r ⊎ Partial n r

-- One round of the loop.
abbrev round :
    (held sent : Option ToolsError) (published : Bool) (index : ℕ) (rest : Ending) → Ending
round held sent published index rest = elim held [
  | some e ↦ record { attempts = index; published_count = index; error = some e }
  | none ↦ elim sent [
    | none ↦ rest
    | some e ↦ record {
      attempts = index + 1;
      published_count = if published then index + 1 else index;
      error = some e;
    }
  ]
]

abbrev Warns : Option ToolsError → Type 0
Warns o = (o ≡ none) ⊎ (o ≡ some uncertain)

warns : (e : ToolsError) → Warns (some e) → some e ≡ some uncertain
warns e (inl p) = cc
warns e (inr p) = p

round-Sent :
    (held sent : Option ToolsError) (published : Bool) (n index : ℕ) (rest : Ending)
    → Warns held
    → Warns sent
    → index + 1 ≤ n
    → Sent n rest
    → Sent n (round held sent published index rest)
round-Sent (some e) q b n index rest h g l k =
    inr (warns e h, omega arith, omega arith, omega arith)
round-Sent none none b n index rest h g l k = k
round-Sent none (some e) true n index rest h g l k = inr (warns e g, l, omega arith, omega arith)
round-Sent none (some e) false n index rest h g l k = inr (warns e g, l, omega arith, omega arith)

send_loop-Sent :
    (left : ℕ) (answer : ℕ → Sending) (index n : ℕ)
    → index + left ≡ n
    → Sent n (send_loop left answer index)
unfolding send_loop
send_loop-Sent zero answer index n e = inl (refl, omega arith, omega arith)
send_loop-Sent (suc left) answer index n e =
    round-Sent (held_back index (answer index)) (sent_refusal (answer index))
      (answer index).published n index _ (held_back_uncertain index (answer index))
      (sent_refusal_uncertain (answer index)) (omega arith)
      (send_loop-Sent left answer (index + 1) n (omega arith))

abbrev Bounded : ℕ → Ending → Type 0
Bounded n r = Complete n r ⊎ (Partial n r ⊎ Untouched r)

ended-Bounded : (n : ℕ) (e : ToolsError) → Bounded n (ended e)
ended-Bounded n e = inr (inr (e, refl, refl))

sum_right : {A B C : Type 0} → A ⊎ B → A ⊎ (B ⊎ C)
sum_right (inl a) = inl a
sum_right (inr b) = inr (inl b)

abbrev leased_by : Option ToolsError → Publishing → Bytes → ℕ → Registry → Registry × Ending
leased_by o x topic p s = elim o [
  | some e ↦ (release topic p false s, ended e)
  | none ↦ (release topic p true s, send_loop x.publish_count x.answer 0)
]

leased_by-Bounded :
    (o : Option ToolsError) (x : Publishing) (topic : Bytes) (p : ℕ) (s : Registry)
    → Bounded x.publish_count (leased_by o x topic p s).1
leased_by-Bounded (some e) x topic p s = ended-Bounded x.publish_count e
leased_by-Bounded none x topic p s =
    sum_right (send_loop-Sent x.publish_count x.answer 0 x.publish_count (omega arith))

publish_leased-Bounded :
    (x : Publishing) (topic : Bytes) (p : ℕ) (s : Registry)
    → Bounded x.publish_count (publish_leased x topic p s).1
unfolding publish_leased
publish_leased-Bounded x topic p s = leased_by-Bounded (stopped x) x topic p s

abbrev selected_by :
    (later : Registry → Registry) → Publishing → Bytes → Registry → Outcome ℕ → Registry × Ending
selected_by later x topic v l = elim l [
  | threw e ↦ (v, ended e)
  | returned p ↦ publish_leased x topic p (later v)
]

selected_by-Bounded :
    (later : Registry → Registry) (x : Publishing) (topic : Bytes) (v : Registry) (l : Outcome ℕ)
    → Bounded x.publish_count (selected_by later x topic v l).1
selected_by-Bounded later x topic v (threw e) = ended-Bounded x.publish_count e
selected_by-Bounded later x topic v (returned p) = publish_leased-Bounded x topic p (later v)

abbrev prepared_by :
    (meanwhile later : Registry → Registry)
    → Publishing
    → PublisherConfiguration
    → Registry
    → Option ToolsError
    → Registry × Ending
prepared_by meanwhile later x c t o = elim o [
  | some e ↦ (t, ended e)
  | none ↦
      let (v, l) = lease_section x.advertised c (meanwhile t) in selected_by later x c.topic v l
]

prepared_by-Bounded :
    (meanwhile later : Registry → Registry) (x : Publishing) (c : PublisherConfiguration)
    (t : Registry) (o : Option ToolsError)
    → Bounded x.publish_count (prepared_by meanwhile later x c t o).1
prepared_by-Bounded meanwhile later x c t (some e) = ended-Bounded x.publish_count e
prepared_by-Bounded meanwhile later x c t none = selected_by-Bounded later x c.topic _ _

abbrev refreshed_by :
    (meanwhile later : Registry → Registry)
    → Publishing
    → PublisherConfiguration
    → Registry
    → Outcome (Unit {0})
    → Registry × Ending
refreshed_by meanwhile later x c t o = elim o [
  | threw e ↦ (t, ended e)
  | returned u ↦ prepared_by meanwhile later x c t x.prepared
]

refreshed_by-Bounded :
    (meanwhile later : Registry → Registry) (x : Publishing) (c : PublisherConfiguration)
    (t : Registry) (o : Outcome (Unit {0}))
    → Bounded x.publish_count (refreshed_by meanwhile later x c t o).1
refreshed_by-Bounded meanwhile later x c t (threw e) = ended-Bounded x.publish_count e
refreshed_by-Bounded meanwhile later x c t (returned u) =
    prepared_by-Bounded meanwhile later x c t x.prepared

abbrev first_by :
    (meanwhile later : Registry → Registry)
    → Publishing
    → PublisherConfiguration
    → Registry
    → Option ToolsError
    → Registry × Ending
first_by meanwhile later x c s o = elim o [
  | some e ↦ (s, ended e)
  | none ↦
      let (t, r) = refresh_master_generation x.current s in refreshed_by meanwhile later x c t r
]

first_by-Bounded :
    (meanwhile later : Registry → Registry) (x : Publishing) (c : PublisherConfiguration)
    (s : Registry) (o : Option ToolsError)
    → Bounded x.publish_count (first_by meanwhile later x c s o).1
first_by-Bounded meanwhile later x c s (some e) = ended-Bounded x.publish_count e
first_by-Bounded meanwhile later x c s none = refreshed_by-Bounded meanwhile later x c _ _

-- A publish ends in one of three ways: without an error, and roscpp's publish was called once for each
-- message and returned; with an uncertain error, after no more calls than messages, of which at most
-- the last one failed; or with an error and no call at all. So an error that is not uncertain means
-- that no message was handed to roscpp, whatever the environment answers and other threads do.
pub publish_boundary :
    (meanwhile later : Registry → Registry) (x : Publishing) (c : PublisherConfiguration)
    (s : Registry)
    → let r = (publish meanwhile later x c s).1 in
      ((r.error ≡ none) × (r.attempts ≡ x.publish_count) × (r.published_count ≡ x.publish_count))
      ⊎ (((r.error ≡ some uncertain)
            × (r.attempts ≤ x.publish_count)
            × (r.published_count ≤ r.attempts)
            × (r.attempts ≤ r.published_count + 1))
          ⊎ ((e : ToolsError) × (r.error ≡ some e) × (r.attempts ≡ 0)))
unfolding publish
publish_boundary meanwhile later x c s =
    first_by-Bounded meanwhile later x c s (require_dispatch_allowed x.first)
