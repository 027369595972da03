-- ===== src/LidarControl/Apply.antt =====
-- The other sections of `Control` (src/scene_ros1_adapter/src/lidar/control.cpp): a failed post,
-- `ApplyPending` on the control thread, `ExpireReady`, `SetReady` and `Stop`.
use xgc2_ros1_adapter.Common.{
  ℕ, zero, suc, ◌+◌, Bool, true, false, List, [], ◌∷◌, Option, none, some, ◌||◌, leb, if◌then◌else◌,
  map,
}
use xgc2_ros1_adapter.LidarControl.State.{
  is_accepted, Operation, Failure, deadline_exceeded, internal, unavailable, ReadyWaiter, Control,
  complete_all, description, finish,
}
use xgc2_ros1_adapter.LidarControl.Request.{Request}
use xgc2_ros1_adapter.LidarControl.Handle.{World, handle}

unfoldable pub finish_all : List ℕ → Failure → (now : ℕ) → Control → Control
finish_all [] f now s = s
finish_all (i ∷ rest) f now s = finish_all rest f now (finish i (some f) now s)

-- The executor refused the callback, and does not have it.
unfoldable pub post_failed : (now : ℕ) → Control → Control
unfolding finish_all
post_failed now s = record (finish_all s.pending internal now s) {
  pending = [];
  scheduled = false;
  callback = false;
}

-- The callback returns.
abbrev pub apply_returns : Control → Control
apply_returns s = record s { scheduled = false; callback = false }

abbrev pub take_next : List ℕ → Control → Control
take_next [] s = apply_returns s
take_next (i ∷ rest) s = record s { pending = rest; applying = true; taken = some i }

-- The first section of a round of `ApplyPending`; the control thread is at no other round.
unfoldable pub apply_next : Control → Control
apply_next s = elim s.taken [
  | some i ↦ s
  | none ↦ if s.stopping then apply_returns s else take_next s.pending s
]

-- What applying the operation gives: nothing is called once its deadline is past.
abbrev pub apply_failure : (now deadline : ℕ) → (returns : Bool) → Option Failure
apply_failure now deadline returns =
    if leb deadline now then some deadline_exceeded else (if returns then none else some internal)

abbrev pub applied_with : Operation → Option Failure → Control → Control
applied_with o none s = record s { applied = o.enabled; applied_revision = o.revision }
applied_with o (some f) s = s

-- The second section; `now` is the time before the operation is applied, `later` after it.
unfoldable pub apply_done : (now later : ℕ) → (returns : Bool) → Control → Control
apply_done now later returns s = elim s.taken [
  | none ↦ s
  | some i ↦
      let o = s.operations i in
      let failure = apply_failure now o.deadline returns in
      let t = if s.stopping then s else finish i failure later (applied_with o failure s) in
      record t { applying = false; taken = none }
]

-- The waiters that stay, and those that are answered.
unfoldable pub split_ready : World → List ReadyWaiter → List ReadyWaiter × List ℕ
split_ready x [] = ([], [])
split_ready x (w ∷ ws) =
    let (stay, go) = split_ready x ws in
    if leb w.until x.now || x.cancelled w.reply then (stay, w.reply ∷ go) else (w ∷ stay, go)

unfoldable pub expire_ready : World → Control → Control
unfolding split_ready
expire_ready x s =
    let (stay, go) = split_ready x s.ready_waiters in
    if s.ready || s.stopping
    then complete_all (map (λ w. w.reply) s.ready_waiters) (description s)
        (record s { ready_waiters = [] })
    else complete_all go (description s) (record s { ready_waiters = stay })

abbrev pub set_ready : Bool → Control → Control
set_ready ready s = record s { ready = ready }

abbrev pub finish_accepted : ℕ → (now : ℕ) → Control → Control
finish_accepted i now s =
    if is_accepted (s.operations i).state then finish i (some unavailable) now s else s

-- The loop of `Stop` over the operations from `i` on.
unfoldable pub stop_operations : (left i now : ℕ) → Control → Control
stop_operations zero i now s = s
stop_operations (suc left) i now s = stop_operations left (i + 1) now (finish_accepted i now s)

-- The first section of `Stop`. A wait for the operation that is being applied follows it.
unfoldable pub stop : (now : ℕ) → Control → Control
stop now s =
    let t = stop_operations 128 0 now (record s { stopping = true }) in
    if s.stopping
    then s
    else complete_all (map (λ w. w.reply) t.ready_waiters) (description t)
        (record t { pending = []; ready_waiters = [] })

-- The critical sections of the HTTP thread, the control thread and the owner. The control thread takes
-- an operation only in the callback.
pub data Section : Type 0 where
  handles : World → Request → (reply : ℕ) → Section
  fails_post : (now : ℕ) → Section
  takes : Section
  applies : (now later : ℕ) → (returns : Bool) → Section
  expires : World → Section
  sets_ready : Bool → Section
  stops : (now : ℕ) → Section

-- `Handle` posts `ApplyPending` to the executor only where its flag says so.
abbrev pub posted : Control × Bool → Control
posted (s, true) = record s { callback = true }
posted (s, false) = s

unfoldable pub section : Section → Control → Control
unfolding handle post_failed apply_next apply_done expire_ready stop
section (handles x q reply) s = posted (handle x q reply s)
section (fails_post now) s = post_failed now s
section takes s = if s.callback then apply_next s else s
section (applies now later returns) s = apply_done now later returns s
section (expires x) s = expire_ready x s
section (sets_ready ready) s = set_ready ready s
section (stops now) s = stop now s

unfoldable pub run_sections : List Section → Control → Control
unfolding section
run_sections [] s = s
run_sections (c ∷ cs) s = run_sections cs (section c s)
