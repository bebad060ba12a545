-- ===== src/Executor/Tables.antt =====
-- internal/executor/executor.go: the tables that Execute builds before its loop.
use schedulator.Prelude.{
  String, eq_iff, false, List, [], ◌∷◌, map, some, lookup, lookup-insert, All, ◌≡◌, refl, arith,
  length,
}
use schedulator.Model.Plans.{Operation}
use schedulator.Executor.{
  is_in, Run, add_operation, add_operations, declared, start, dispatch_one, complete, fail,
  abort_dependents, cancel_one, Running, AreDistinct,
}
use schedulator.Executor.Induction.{Running-kept}

-- The loop leaves the tables as they were built.
abbrev pub HasTables : {E : Type 0} → List Operation → Run E → Type 0
HasTables {E = E} ops r =
    (r.op_by_id ≡ (start {E = E} ops).op_by_id) × (r.dependents ≡ (start {E = E} ops).dependents)

module _ {E : Type 0} (ops : List Operation) where
  dispatch_one-tables :
      (id : String) (r : Run E) → HasTables ops r → HasTables ops (dispatch_one id r)
  unfolding dispatch_one
  dispatch_one-tables id r h = ground (arith, h)

  cancel_one-tables : (id : String) (r : Run E) → HasTables ops r → HasTables ops (cancel_one id r)
  unfolding cancel_one
  cancel_one-tables id r h = ground (arith, h)

  pub Running-tables : (r : Run E) → Running ops r → HasTables ops r
  unfolding complete fail abort_dependents
  Running-tables =
      Running-kept (HasTables ops) ops (refl, refl)
        record {
          on_dispatch = dispatch_one-tables;
          on_complete = λ id r f h. h;
          on_failure = λ id err r f h. h;
        }
        record { on_cancel = cancel_one-tables; on_fail = λ id err r f h. h }

module _ {E : Type 0} where
  add_operations-others :
      (ops : List Operation) (r : Run E) (id : String)
      → is_in id (map (λ o. o.id) ops) ≡ false
      → lookup id (add_operations ops r).op_by_id ≡ lookup id r.op_by_id
  unfolding add_operations add_operation
  add_operations-others [] r id h = refl
  add_operations-others (op ∷ ops) r id h = ground (
    arith,
    h,
    add_operations-others ops (add_operation op r) id,
    lookup-insert op.id id op r.op_by_id,
  )

  add_operations-lookup :
      (ops : List Operation) (r : Run E)
      → AreDistinct ops
      → All (λ op. lookup op.id (add_operations ops r).op_by_id ≡ some op) ops
  unfolding add_operations add_operation AreDistinct
  add_operations-lookup [] r d = tt
  add_operations-lookup (op ∷ ops) r d = (
    ground (
      arith,
      d.0,
      add_operations-others ops (add_operation op r) op.id,
      lookup-insert op.id op.id op r.op_by_id,
      eq_iff op.id op.id,
    ),
    add_operations-lookup ops (add_operation op r) d.1,
  )

-- Each operation of the plan is found under its identifier.
pub start-operations :
    (E : Type 0) (ops : List Operation)
    → AreDistinct ops
    → All (λ op. lookup op.id (start {E = E} ops).op_by_id ≡ some op) ops
unfolding start
start-operations E ops d = add_operations-lookup ops (declared {E = E} (length ops)) d
