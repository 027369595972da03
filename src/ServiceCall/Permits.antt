-- ===== src/ServiceCall/Permits.antt =====
-- The limit of concurrent service calls (src/ros1_tools_adapter/src/service_invoker.cpp).
use xgc2_ros1_adapter.Common.{ℕ, zero, suc, ◌+◌, ◌-◌, ◌≤◌, ◌≡◌, List, [], ◌∷◌, arith, if◌then◌else◌}
use xgc2_ros1_adapter.ServiceCall.Invoker.{
  Answers, Request, Invoker, call, call_permitted, acquire_in_flight, release_in_flight,
  next_request_id, new_invoker, done,
}

-- A call of another thread takes a permit, or the destructor of a held one runs.
pub data Section : Type 0 where
  acquires releases : Section

-- The invoker, with the number of permits that are held.
abbrev section : Section → Invoker × ℕ → Invoker × ℕ
section acquires (s, held) =
    let (t, permitted) = acquire_in_flight s in (t, if permitted then held + 1 else held)
section releases (s, zero) = (s, zero)
section releases (s, suc held) = (release_in_flight s, held)

unfoldable pub run_sections : List Section → Invoker × ℕ → Invoker × ℕ
unfolding acquire_in_flight
run_sections [] p = p
run_sections (c ∷ cs) p = run_sections cs (section c p)

record PermitsValid (maximum : ℕ) (s : Invoker) (held : ℕ) : Type 0 where
  counted : s.in_flight ≡ held
  within : held ≤ maximum
  limit : s.maximum_in_flight ≡ maximum

section-PermitsValid :
    (maximum : ℕ) (c : Section) (s : Invoker) (held : ℕ)
    → PermitsValid maximum s held
    → PermitsValid maximum (section c (s, held)).0 (section c (s, held)).1
unfolding acquire_in_flight
section-PermitsValid maximum acquires s held v = ground arith
section-PermitsValid maximum releases s zero v = v
section-PermitsValid maximum releases s (suc held) v = ground arith

run_sections-PermitsValid :
    (maximum : ℕ) (cs : List Section) (s : Invoker) (held : ℕ)
    → PermitsValid maximum s held
    → let (t, h) = run_sections cs (s, held) in PermitsValid maximum t h
unfolding run_sections
run_sections-PermitsValid maximum [] s held v = v
run_sections-PermitsValid maximum (c ∷ cs) s held v =
    run_sections-PermitsValid maximum cs _ _ (section-PermitsValid maximum c s held v)

new_invoker-PermitsValid :
    (maximum : ℕ) (s : Invoker) → new_invoker maximum ≡ done s → PermitsValid maximum s 0
unfolding new_invoker
new_invoker-PermitsValid maximum s h = record {
  counted = ground arith;
  within = ground arith;
  limit = ground arith;
}

module _ {R : Type 0} (q : Request) (x : Answers R) (meanwhile : Invoker → Invoker) where
  call_permitted-in_flight :
      (s : Invoker)
      → ((t : Invoker) → (meanwhile t).in_flight ≡ t.in_flight)
      → (call_permitted q x meanwhile s).0.in_flight ≡ s.in_flight - 1
  unfolding call_permitted
  call_permitted-in_flight s m = ground (arith, m s, m (next_request_id s).0)

  call-in_flight :
      (s : Invoker)
      → ((t : Invoker) → (meanwhile t).in_flight ≡ t.in_flight)
      → (call q x meanwhile s).0.in_flight ≡ s.in_flight
  unfolding call
  call-in_flight s m = ground (arith, call_permitted-in_flight (acquire_in_flight s).0 m)

-- The limit of concurrent calls holds: from a new invoker, after any order of permits taken and given
-- back, the counter is the number of permits that are held, at most the maximum; and a call, however
-- it ends, leaves the counter as it was, if the other calls that run meanwhile do.
pub permits_bounded :
    {R : Type 0} (maximum : ℕ) (s : Invoker) (cs : List Section) (q : Request) (x : Answers R)
    (meanwhile : Invoker → Invoker)
    → new_invoker maximum ≡ done s
    → ((t : Invoker) → (meanwhile t).in_flight ≡ t.in_flight)
    → let (t, held) = run_sections cs (s, 0) in
      (t.in_flight ≡ held) × (held ≤ maximum) × ((call q x meanwhile t).0.in_flight ≡ t.in_flight)
permits_bounded maximum s cs q x meanwhile h m =
    let v = run_sections-PermitsValid maximum cs s 0 (new_invoker-PermitsValid maximum s h) in
    (v.counted, v.within, call-in_flight q x meanwhile (run_sections cs (s, 0)).0 m)
