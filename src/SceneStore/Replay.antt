-- ===== src/SceneStore/Replay.antt =====
-- When `SceneStore::command` executes, and what a repeated request is answered
-- (src/scene_ros1_adapter/src/core/store.cpp).
use xgc2_ros1_adapter.Common.{
  ◌≡◌, refl, sym, subst, ◌∙◌, ap, ◌⊎◌, inl, inr, true, false, Option, none, some, Bytes, bytes_eq,
  bytes_eq_refl, eq_of_bytes_eq, arith, Bool-cases, Option-cases,
}
use xgc2_ros1_adapter.SceneStore.State.{
  in_hook, malformed, bad_request_id, Reply, Receipt, Store, returned, threw, result,
}
use xgc2_ros1_adapter.SceneStore.Execute.{World}
use xgc2_ros1_adapter.SceneStore.Command.{
  Request, find_receipt, renew_receipt, expects, execute_once, answer_again, command_new,
  command_id, is_get, request_id_of, command,
}
use xgc2_ros1_adapter.SceneStore.Invariant.{StoreValid}
use xgc2_ros1_adapter.SceneStore.Preservation.{execute-Executing}
use xgc2_ros1_adapter.SceneStore.Receipts.{find_evicted, by_receipt, command-StoreValid}

-- A request that `command` looks up: it is well formed, no `get`, and has the id.
pub record Asks (r : Request) (id : Bytes) : Type 0 where
  pub well_formed : r.well_formed ≡ true
  pub acts : is_get r.operation ≡ false
  pub named : request_id_of r ≡ some id

command_asked :
    (w : World) (r : Request) (id : Bytes) (s : Store)
    → Asks r id
    → s.in_hook ≡ false
    → command w r s ≡ command_id w r id s
unfolding command
command_asked w r id s a h = simp (h, a.well_formed, a.acts, a.named) refl

command_id_fresh :
    (w : World) (r : Request) (id : Bytes) (s : Store)
    → find_receipt id s.requests ≡ none
    → expects r s ≡ true
    → command_id w r id s ≡ execute_once w r id s
unfolding command_id command_new
command_id_fresh w r id s f e = ap (by_receipt w r id s) f ∙ simp (e) refl

command_id_found :
    (w : World) (r : Request) (id : Bytes) (q : Receipt) (s : Store)
    → find_receipt id s.requests ≡ some q
    → bytes_eq q.fingerprint r.fingerprint ≡ true
    → command_id w r id s ≡ (record s { requests = renew_receipt q s.requests }, q.reply)
unfolding command_id answer_again
command_id_found w r id q s f e = ap (by_receipt w r id s) f ∙ simp (e) refl

execute_once_found :
    (w : World) (r : Request) (id : Bytes) (s : Store)
    → StoreValid s
    → find_receipt id s.requests ≡ none
    → find_receipt id (execute_once w r id s).0.requests
      ≡ some (record { id = id; fingerprint = r.fingerprint; reply = (execute_once w r id s).1 })
unfolding execute_once
execute_once_found w r id s v f =
    find_evicted id _ _
      (ap (find_receipt id) (execute-Executing w r.operation r.payload s v.executing).requests ∙ f)
      refl

-- Nothing changed but the receipts.
abbrev pub OnlyReceipts : Store → Store → Type 0
OnlyReceipts s t = t ≡ record s { requests = t.requests }

-- A request whose receipt is there.
repeated_once :
    (v : World) (r : Request) (id : Bytes) (q : Receipt) (t : Store)
    → Asks r id
    → t.in_hook ≡ false
    → find_receipt id t.requests ≡ some q
    → bytes_eq q.fingerprint r.fingerprint ≡ true
    → ((command v r t).1 ≡ q.reply) × OnlyReceipts t (command v r t).0
repeated_once v r id q t a h f e =
    let p = command_asked v r id t a h ∙ command_id_found v r id q t f e in
    (ap (λ c. c.1) p, ap (λ c. c.0) p ∙ sym (ap (λ c. record t { requests = c.0.requests }) p))

-- A request that asks for an operation under a fresh id, with the epoch and the revision that the
-- store has, is executed; when it is sent again, it gets the same reply from its receipt, and
-- nothing but the receipts changes, whatever the environment would answer to a second execution.
pub command_repeated :
    (w v : World) (r : Request) (id : Bytes) (s : Store)
    → StoreValid s
    → Asks r id
    → find_receipt id s.requests ≡ none
    → expects r s ≡ true
    → (command w r s ≡ execute_once w r id s)
      × (((command v r (command w r s).0).1 ≡ (command w r s).1)
          × OnlyReceipts (command w r s).0 (command v r (command w r s).0).0)
command_repeated w v r id s valid a f e =
    let p = command_asked w r id s a valid.executing.idle ∙ command_id_fresh w r id s f e in
    let found =
      subst
        (λ c.
          find_receipt id c.0.requests
          ≡ some (record { id = id; fingerprint = r.fingerprint; reply = c.1 }))
        (sym p) (execute_once_found w r id s valid f) in
    (
      p,
      repeated_once v r id _ _ a (command-StoreValid w r s valid).executing.idle found
          (bytes_eq_refl r.fingerprint),
    )

-- The operation that `command` executed, once and under the request's own id: the request names the
-- epoch and the revision that the store has, and no receipt has its id.
pub record Executed (w : World) (r : Request) (s : Store) : Type 0 where
  pub id : Bytes
  pub named : r.request_id ≡ some id
  pub fresh : find_receipt id s.requests ≡ none
  pub epoch : r.expected_epoch ≡ some s.epoch
  pub revision : r.expected_revision ≡ some s.revision
  pub executed : command w r s ≡ execute_once w r id s

named_id : (r : Request) (id : Bytes) → request_id_of r ≡ some id → r.request_id ≡ some id
named_id r id h = elim (Option-cases r.request_id) [
  | inl e ↦ absurd (ground (arith, e, h))
  | inr (i, e) ↦ ground (arith, e, h)
]

expected :
    (r : Request) (s : Store)
    → expects r s ≡ true
    → (r.expected_epoch ≡ some s.epoch) × (r.expected_revision ≡ some s.revision)
unfolding expects
expected r s h = elim (Option-cases r.expected_epoch) [
  | inl e ↦ absurd (ground (arith, e, h))
  | inr (x, e) ↦ elim (Option-cases r.expected_revision) [
    | inl f ↦ absurd (ground (arith, e, f, h))
    | inr (y, f) ↦ (ground (arith, e, f, h, eq_of_bytes_eq x s.epoch), ground (arith, e, f, h))
  ]
]

again_only :
    (w : World) (r : Request) (q : Receipt) (s : Store) → OnlyReceipts s (answer_again w r q s).0
unfolding answer_again
again_only w r q s = elim (Bool-cases (bytes_eq q.fingerprint r.fingerprint)) [
  | inl e ↦ simp (e) refl
  | inr e ↦ simp (e) refl
]

by_receipt_cases :
    (w : World) (r : Request) (id : Bytes) (s : Store) (o : Option Receipt)
    → OnlyReceipts s (by_receipt w r id s o).0
      ⊎ ((o ≡ none) × (expects r s ≡ true) × (by_receipt w r id s o ≡ execute_once w r id s))
unfolding command_new
by_receipt_cases w r id s (some q) = inl (again_only w r q s)
by_receipt_cases w r id s none = elim (Bool-cases (expects r s)) [
  | inl e ↦ inr (refl, e, (simp (e) refl))
  | inr e ↦ inl (simp (e) refl)
]

unchanged : (s : Store) (x : Reply) (c : Store × Reply) → c ≡ (s, x) → OnlyReceipts s c.0
unchanged s x c p = subst (λ d. OnlyReceipts s d.0) (sym p) refl

-- A command that changes more than the receipts executes its operation, under the id that the request
-- names and that has no receipt, and the request names the epoch and the revision that the store has.
pub command_executes :
    (w : World) (r : Request) (s : Store) → OnlyReceipts s (command w r s).0 ⊎ Executed w r s
unfolding command command_id
command_executes w r s = elim (Bool-cases s.in_hook) [
  | inl h ↦ inl (unchanged s (result w.now (threw in_hook) s) (command w r s) (simp (h) refl))
  | inr h ↦ elim (Bool-cases r.well_formed) [
    | inr f ↦
        inl (unchanged s (result w.now (threw malformed) s) (command w r s) (simp (h, f) refl))
    | inl f ↦ elim (Bool-cases (is_get r.operation)) [
      | inl g ↦
          inl (unchanged s (result w.now (returned tt) s) (command w r s) (simp (h, f, g) refl))
      | inr g ↦ elim (Option-cases (request_id_of r)) [
        | inl i ↦ inl (
            unchanged s (result w.now (threw bad_request_id) s) (command w r s)
              (simp (h, f, g, i) refl))
        | inr (id, i) ↦
            let p = command_asked w r id s (record { well_formed = f; acts = g; named = i }) h in
            elim (by_receipt_cases w r id s (find_receipt id s.requests)) [
              | inl o ↦ inl (subst (λ c. OnlyReceipts s c.0) (sym p) o)
              | inr (n, e, c) ↦ inr (record {
                id = id;
                named = named_id r id i;
                fresh = n;
                epoch = (expected r s e).0;
                revision = (expected r s e).1;
                executed = p ∙ c;
              })
            ]
      ]
    ]
  ]
]
