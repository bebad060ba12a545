-- ===== src/Executor.antt =====
-- internal/executor/executor.go: the loop that dispatches the operations of a plan in the order of their
-- dependencies. The goroutines' answers arrive in any order: each arrival is one step of `Reachable`.
-- Metrics, spans and logs are not modelled.
pub mod Abort
pub mod Order
pub mod Tables
pub mod Progress
pub mod Stranded
pub mod Induction
pub mod Operations
use schedulator.Prelude.{
  ℕ, suc, ◌+◌, ℤ, pos, 0ℤ, 1ℤ, ◌+ℤ◌, ◌-ℤ◌, ltb_ℤ, eqb_ℤ, String, ◌==◌, Bool, true, false, ◌&&◌,
  List, [], ◌∷◌, ◌++◌, map, Option, none, some, or_else, Map, lookup, insert, listed, append_at,
  any, all, length, if◌then◌else◌, ◌≡◌,
}
use schedulator.Model.Plans.{OperationType, Operation, unsupported, FailedOp, ExecutionResult}

pub data OpStatus : Type 0 where
  op_pending op_in_flight op_completed op_failed op_aborted : OpStatus

abbrev pub is_pending : OpStatus → Bool
is_pending op_pending = true
is_pending op_in_flight = false
is_pending op_completed = false
is_pending op_failed = false
is_pending op_aborted = false

abbrev pub is_completed : OpStatus → Bool
is_completed op_pending = false
is_completed op_in_flight = false
is_completed op_completed = true
is_completed op_failed = false
is_completed op_aborted = false

-- A missing key of a Go map reads as the zero value, here `op_pending`.
abbrev pub status_of : String → Map OpStatus → OpStatus
status_of id m = or_else (lookup id m) op_pending

abbrev pub is_in : String → List String → Bool
is_in id ids = any (λ i. i == id) ids

abbrev pub deps_completed : Operation → Map OpStatus → Bool
deps_completed op status = all (λ dep. is_completed (status_of dep status)) op.depends_on

-- The zero Operation that a missing entry reads as.
abbrev pub no_operation : Operation
no_operation = record {
  id = "";
  type = OperationType.preempt;
  payload = unsupported;
  depends_on = [];
}

-- What the search of abortTransitive changes.
pub record Aborting : Type 0 where
  pub status : Map OpStatus
  pub aborted : List String

abbrev pub abort_one : String → Aborting → Aborting
abort_one id a =
    if is_pending (status_of id a.status)
    then record { status = insert id op_aborted a.status; aborted = a.aborted ++ id ∷ [] }
    else a

-- The search loop on fuel, over the queue and the visited identifiers.
unfoldable pub abort_loop :
    Map (List String) → ℕ → (queue visited : List String) → Aborting → Aborting
abort_loop dependents ℕ.zero queue visited a = a
abort_loop dependents (suc fuel) [] visited a = a
abort_loop dependents (suc fuel) (id ∷ queue) visited a =
    if is_in id visited
    then abort_loop dependents fuel queue visited a
    else abort_loop dependents fuel (queue ++ listed id dependents) (id ∷ visited) (abort_one id a)

-- The edges that leave identifiers not in a list: what the search may still put in its queue.
unfoldable pub edges_beyond : List String → Map (List String) → ℕ
edges_beyond visited [] = 0
edges_beyond visited ((id, ids) ∷ m) =
    let rest = edges_beyond visited m in if is_in id visited then rest else length ids + rest

unfoldable pub abort_transitive : String → Map (List String) → Map OpStatus → Aborting
unfolding abort_loop edges_beyond
abort_transitive failed_id dependents status =
    abort_loop dependents
      (length (listed failed_id dependents) + edges_beyond (failed_id ∷ []) dependents)
      (listed failed_id dependents) (failed_id ∷ []) (record { status = status; aborted = [] })

-- The variables of Execute, over the type of errors of a dispatched operation.
pub record Run (E : Type 0) : Type 0 where
  pub op_by_id : Map Operation
  pub dependents : Map (List String)
  pub status : Map OpStatus
  pub completed : List String
  pub failed : List (FailedOp E)
  pub aborted : List String
  pub pending : ℤ
  pub inflight : ℤ

unfoldable pub add_dependents : String → List String → Map (List String) → Map (List String)
add_dependents id [] m = m
add_dependents id (dep ∷ deps) m = add_dependents id deps (append_at dep id m)

module _ {E : Type 0} where
  unfoldable pub add_operation : Operation → Run E → Run E
  unfolding add_dependents
  add_operation op r = record r {
    op_by_id = insert op.id op r.op_by_id;
    status = insert op.id op_pending r.status;
    dependents = add_dependents op.id op.depends_on r.dependents;
  }

  unfoldable pub add_operations : List Operation → Run E → Run E
  unfolding add_operation
  add_operations [] r = r
  add_operations (op ∷ ops) r = add_operations ops (add_operation op r)

  -- The variables as they are declared, for a plan of a length.
  abbrev pub declared : ℕ → Run E
  declared n = record {
    op_by_id = [];
    dependents = [];
    status = [];
    completed = [];
    failed = [];
    aborted = [];
    pending = pos n;
    inflight = 0ℤ;
  }

  unfoldable pub start : List Operation → Run E
  unfolding add_operations
  start ops = add_operations ops (declared (length ops))

  abbrev pub ids_of : Run E → List String
  ids_of r = map (λ e. e.0) r.status

  abbrev pub operation_of : String → Run E → Operation
  operation_of id r = or_else (lookup id r.op_by_id) no_operation

  -- One turn of the dispatch loop.
  unfoldable pub dispatch_one : String → Run E → Run E
  dispatch_one id r =
      if is_pending (status_of id r.status) && deps_completed (operation_of id r) r.status
      then record r {
        status = insert id op_in_flight r.status;
        pending = r.pending -ℤ 1ℤ;
        inflight = r.inflight +ℤ 1ℤ;
      }
      else r

  unfoldable pub dispatch_each : List String → Run E → Run E
  unfolding dispatch_one
  dispatch_each [] r = r
  dispatch_each (id ∷ ids) r = dispatch_each ids (dispatch_one id r)

  unfoldable pub dispatch_ready : Run E → Run E
  unfolding dispatch_each
  dispatch_ready r = dispatch_each (ids_of r) r

  -- The end of an operation in the loop, and while it drains after a cancellation.
  unfoldable pub complete : String → Run E → Run E
  complete id r = record r {
    status = insert id op_completed r.status;
    completed = r.completed ++ id ∷ [];
    inflight = r.inflight -ℤ 1ℤ;
  }

  unfoldable pub fail : String → E → Run E → Run E
  fail id err r = record r {
    status = insert id op_failed r.status;
    failed =
        r.failed ++ record { operation_id = id; type = (operation_of id r).type; err = err } ∷ [];
    inflight = r.inflight -ℤ 1ℤ;
  }

  unfoldable pub abort_dependents : String → Run E → Run E
  unfolding abort_transitive
  abort_dependents id r =
      let a = abort_transitive id r.dependents r.status in
      record r {
        status = a.status;
        aborted = r.aborted ++ a.aborted;
        pending = r.pending -ℤ pos (length a.aborted);
      }

  unfoldable pub receive : String → Option E → Run E → Run E
  unfolding complete fail abort_dependents
  receive id none r = complete id r
  receive id (some err) r = abort_dependents id (fail id err r)

  unfoldable pub drain : String → Option E → Run E → Run E
  unfolding complete fail
  drain id none r = complete id r
  drain id (some err) r = fail id err r

  unfoldable pub cancel_one : String → Run E → Run E
  cancel_one id r =
      if is_pending (status_of id r.status)
      then record r {
        status = insert id op_aborted r.status;
        aborted = r.aborted ++ id ∷ [];
        pending = r.pending -ℤ 1ℤ;
      }
      else r

  unfoldable pub cancel_each : List String → Run E → Run E
  unfolding cancel_one
  cancel_each [] r = r
  cancel_each (id ∷ ids) r = cancel_each ids (cancel_one id r)

  unfoldable pub cancel : Run E → Run E
  unfolding cancel_each
  cancel r = cancel_each (ids_of r) r

  abbrev pub result_of : Run E → ExecutionResult E
  result_of r = record { completed = r.completed; failed = r.failed; aborted = r.aborted }

  -- The states of Execute at the head of its loop, and while it drains after the context is done.
  pub data Reachable (ops : List Operation) : Run E → Type 0 where
    started : Reachable ops (start ops)
    received :
        (r : Run E) (id : String) (answer : Option E)
        → Reachable ops r
        → status_of id (dispatch_ready r).status ≡ op_in_flight
        → Reachable ops (receive id answer (dispatch_ready r))

  pub data Draining (ops : List Operation) : Run E → Type 0 where
    cancelled :
        (r : Run E)
        → Reachable ops r
        → ltb_ℤ 0ℤ (dispatch_ready r).inflight ≡ true
        → Draining ops (cancel (dispatch_ready r))
    drained :
        (r : Run E) (id : String) (answer : Option E)
        → Draining ops r
        → status_of id r.status ≡ op_in_flight
        → Draining ops (drain id answer r)

  -- The states with operations in flight: after the dispatch, and while it drains.
  pub data Running (ops : List Operation) : Run E → Type 0 where
    dispatched : (r : Run E) → Reachable ops r → Running ops (dispatch_ready r)
    draining : (r : Run E) → Draining ops r → Running ops r

-- The identifiers of a plan are all different.
unfoldable pub AreDistinct : List Operation → Type 0
AreDistinct [] = Unit
AreDistinct (op ∷ ops) = (is_in op.id (map (λ o. o.id) ops) ≡ false) × AreDistinct ops

-- Each operation depends only on operations that stand before it.
unfoldable pub IsForward : List String → List Operation → Type 0
IsForward before [] = Unit
IsForward before (op ∷ ops) =
    (all (λ dep. is_in dep before) op.depends_on ≡ true) × IsForward (op.id ∷ before) ops
