-- ===== src/SceneStore/Receipts.antt =====
-- The receipts of `SceneStore::command` (src/scene_ros1_adapter/src/core/store.cpp): a request is
-- executed at most once, and a repetition is answered from its receipt.
use xgc2_ros1_adapter.Common.{
  ◌≤◌, ◌<◌, ◌≡◌, refl, subst, inl, inr, true, List, [], ◌∷◌, ◌++◌, Option, none, some, ltb, Bytes,
  bytes_eq, bytes_eq_refl, eq_of_bytes_eq, length, arith, Bool-cases, Option-cases, length-append,
}
use xgc2_ros1_adapter.SceneStore.State.{Reply, Receipt, Store}
use xgc2_ros1_adapter.SceneStore.Execute.{World}
use xgc2_ros1_adapter.SceneStore.Command.{
  Request, maximum_receipts, find_receipt, drop_receipt, renew_receipt, evicted, expects,
  execute_once, answer_again, command_new, command_id, is_get, request_id_of, command,
}
use xgc2_ros1_adapter.SceneStore.Invariant.{StoreValid}
use xgc2_ros1_adapter.SceneStore.Preservation.{execute-Executing}

abbrev fresh : Receipt → List Receipt
fresh r = r ∷ []

find_append :
    (id : Bytes) (rs : List Receipt) (r : Receipt)
    → find_receipt id rs ≡ none
    → r.id ≡ id
    → find_receipt id (rs ++ fresh r) ≡ some r
unfolding find_receipt
find_append id [] r h e = rw (e, bytes_eq_refl id) refl
find_append id (x ∷ rs) r h e = grind (arith, find_append id rs r, Bool-cases (bytes_eq id x.id))

find_tail :
    (id : Bytes) (x : Receipt) (rs : List Receipt)
    → find_receipt id (x ∷ rs) ≡ none
    → find_receipt id rs ≡ none
unfolding find_receipt
find_tail id x rs h = ground arith

pub find_evicted :
    (id : Bytes) (rs : List Receipt) (r : Receipt)
    → find_receipt id rs ≡ none
    → r.id ≡ id
    → find_receipt id (evicted (rs ++ fresh r)) ≡ some r
unfolding evicted
find_evicted id [] r h e = find_append id [] r h e
find_evicted id (x ∷ rs) r h e =
    elim (Bool-cases (ltb maximum_receipts (length (x ∷ (rs ++ fresh r))))) [
      | inl t ↦ rw (t) (find_evicted id rs r (find_tail id x rs h) e)
      | inr f ↦ rw (f) (find_append id (x ∷ rs) r h e)
    ]

length-evicted : (rs : List Receipt) → length (evicted rs) ≤ 256
unfolding evicted
length-evicted [] = omega arith
length-evicted (x ∷ rs) = ground (arith, length-evicted rs)

pub find_renewed :
    (id : Bytes) (rs : List Receipt) (r : Receipt)
    → find_receipt id rs ≡ some r
    → bytes_eq id r.id ≡ true
unfolding find_receipt
find_renewed id [] r h = grind arith
find_renewed id (x ∷ rs) r h = ground (arith, find_renewed id rs r)

length_drop : (id : Bytes) (rs : List Receipt) → length (drop_receipt id rs) ≤ length rs
unfolding drop_receipt
length_drop id [] = omega arith
length_drop id (x ∷ rs) = ground (arith, length_drop id rs)

length_drop_found :
    (id : Bytes) (rs : List Receipt) (r : Receipt)
    → find_receipt id rs ≡ some r
    → length (drop_receipt id rs) < length rs
unfolding find_receipt drop_receipt
length_drop_found id [] r h = grind arith
length_drop_found id (x ∷ rs) r h = ground (arith, length_drop_found id rs r, length_drop id rs)

find_dropped : (id : Bytes) (rs : List Receipt) → find_receipt id (drop_receipt id rs) ≡ none
unfolding find_receipt drop_receipt
find_dropped id [] = refl
find_dropped id (x ∷ rs) = ground (arith, find_dropped id rs)

drop_without :
    (id : Bytes) (rs : List Receipt) → find_receipt id rs ≡ none → drop_receipt id rs ≡ rs
unfolding find_receipt drop_receipt
drop_without id [] h = refl
drop_without id (x ∷ rs) h = ground (arith, drop_without id rs)

execute_once-StoreValid :
    (w : World) (r : Request) (id : Bytes) (s : Store)
    → StoreValid s
    → StoreValid (execute_once w r id s).0
unfolding execute_once
execute_once-StoreValid w r id s v =
    let e = execute-Executing w r.operation r.payload s v.executing in
    record {
      executing = record {
        numbered = e.numbered;
        applied = e.applied;
        saved = e.saved;
        known = e.known;
        history = e.history;
        requests = refl;
        idle = e.idle;
      };
      receipts = length-evicted _;
    }

answer_again-StoreValid :
    (w : World) (r : Request) (q : Receipt) (s : Store)
    → find_receipt q.id s.requests ≡ some q
    → StoreValid s
    → StoreValid (answer_again w r q s).0
unfolding answer_again renew_receipt
answer_again-StoreValid w r q s f v = elim (Bool-cases (bytes_eq q.fingerprint r.fingerprint)) [
  | inl e ↦ simp (e) (record {
    executing = record {
      numbered = v.executing.numbered;
      applied = v.executing.applied;
      saved = v.executing.saved;
      known = v.executing.known;
      history = v.executing.history;
      requests = refl;
      idle = v.executing.idle;
    };
    receipts = omega (
      arith,
      v.receipts,
      length-append (drop_receipt q.id s.requests) (q ∷ []),
      length_drop_found q.id s.requests q f,
    );
  })
  | inr e ↦ simp (e) v
]

command_new-StoreValid :
    (w : World) (r : Request) (id : Bytes) (s : Store)
    → StoreValid s
    → StoreValid (command_new w r id s).0
unfolding command_new
command_new-StoreValid w r id s v = elim (Bool-cases (expects r s)) [
  | inl e ↦ simp (e) (execute_once-StoreValid w r id s v)
  | inr e ↦ simp (e) v
]

abbrev pub by_receipt : World → Request → Bytes → Store → Option Receipt → Store × Reply
by_receipt w r id s o = elim o [ some q ↦ answer_again w r q s | none ↦ command_new w r id s ]

by_receipt-StoreValid :
    (w : World) (r : Request) (id : Bytes) (s : Store) (o : Option Receipt)
    → StoreValid s
    → ((q : Receipt) → o ≡ some q → find_receipt q.id s.requests ≡ some q)
    → StoreValid (by_receipt w r id s o).0
by_receipt-StoreValid w r id s none v h = command_new-StoreValid w r id s v
by_receipt-StoreValid w r id s (some q) v h = answer_again-StoreValid w r q s (h q refl) v

command_id-StoreValid :
    (w : World) (r : Request) (id : Bytes) (s : Store)
    → StoreValid s
    → StoreValid (command_id w r id s).0
unfolding command_id
command_id-StoreValid w r id s v =
    by_receipt-StoreValid w r id s (find_receipt id s.requests) v λ q e.
      subst (λ i. find_receipt i s.requests ≡ some q)
        (eq_of_bytes_eq id q.id (find_renewed id s.requests q e)) e

-- Every command, whatever the environment answers, leaves a valid store valid: the revision is below
-- the next one, a configuration that is known to be applied has the current revision, the saved
-- revision is none of the future, undo and redo together hold at most 128 documents, there are at
-- most 256 receipts and no hook is left running.
pub command-StoreValid :
    (w : World) (r : Request) (s : Store) → StoreValid s → StoreValid (command w r s).0
unfolding command
command-StoreValid w r s v = elim (Bool-cases s.in_hook) [
  | inl h ↦ simp (h) v
  | inr h ↦ elim (Bool-cases r.well_formed) [
    | inr f ↦ simp (h, f) v
    | inl f ↦ elim (Bool-cases (is_get r.operation)) [
      | inl g ↦ simp (h, f, g) v
      | inr g ↦ elim (Option-cases (request_id_of r)) [
        | inl i ↦ simp (h, f, g, i) v
        | inr (id, i) ↦ simp (h, f, g, i) (command_id-StoreValid w r id s v)
      ]
    ]
  ]
]
