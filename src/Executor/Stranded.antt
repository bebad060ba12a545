-- ===== src/Executor/Stranded.antt =====
-- internal/executor/executor.go: operations that are left pending, and the dispatch.
use schedulator.Prelude.{
  String, ◌==◌, eq_iff, Bool, true, false, ◌&&◌, ◌||◌, List, [], ◌∷◌, some, or_else, is_some, Map,
  lookup, lookup-insert, listed, append_at, listed-append_at, any-append, all, All, ◌≡◌, refl, sym,
  subst, ◌∙◌, ap, ◌⊎◌, inl, inr, arith, Bool-cases, length,
}
use schedulator.Model.Plans.{Operation}
use schedulator.Executor.{
  OpStatus, op_pending, op_in_flight, op_completed, op_failed, op_aborted, is_pending, is_completed,
  status_of, is_in, deps_completed, no_operation, Run, ids_of, operation_of, add_dependents,
  add_operation, add_operations, start, dispatch_ready, complete, fail, declared, AreDistinct,
  IsForward, Reachable, dispatched,
}
use schedulator.Executor.Induction.{Reachable-kept, dispatch_ready-kept, IsKept}
use schedulator.Executor.Tables.{Running-tables, start-operations}
use schedulator.Executor.Order.{add_operations-pending}
use schedulator.Executor.Progress.{
  is_lost, IsSettled, HasEntry, is_due, dispatch_one-IsSettled, complete-IsSettled,
  failure-IsSettled, dispatch_each-is_due, dispatch_one-HasEntry, abort_dependents-HasEntry,
  is_in-keys,
}

-- The table of dependents holds each edge of the plan.
listed-add_dependents :
    (id x dep : String) (deps : List String) (m : Map (List String))
    → is_in x (listed dep (add_dependents id deps m))
      ≡ (is_in x (listed dep m) || (is_in dep deps && id == x))
unfolding add_dependents
listed-add_dependents id x dep [] m = ground arith
listed-add_dependents id x dep (d ∷ deps) m = ground (
  arith,
  listed-add_dependents id x dep deps (append_at d id m),
  listed-append_at d dep id m,
  any-append (λ i. i == x) (listed dep m) (id ∷ []),
)

-- The operation stands in the lists of what it depends on.
abbrev IsListed : Map (List String) → Operation → Type 0
IsListed m op = (dep : String) → is_in dep op.depends_on ≡ true → is_in op.id (listed dep m) ≡ true

module _ {E : Type 0} where
  add_operations-listed :
      (ops : List Operation) (r : Run E) (x dep : String)
      → is_in x (listed dep r.dependents) ≡ true
      → is_in x (listed dep (add_operations ops r).dependents) ≡ true
  unfolding add_operations add_operation
  add_operations-listed [] r x dep h = h
  add_operations-listed (op ∷ ops) r x dep h =
      add_operations-listed ops (add_operation op r) x dep
        (ground (arith, h, listed-add_dependents op.id x dep op.depends_on r.dependents))

  add_operations-IsListed :
      (ops : List Operation) (r : Run E) → All (IsListed (add_operations ops r).dependents) ops
  unfolding add_operations add_operation
  add_operations-IsListed [] r = tt
  add_operations-IsListed (op ∷ ops) r = (
    (λ dep w. add_operations-listed ops (add_operation op r) op.id dep (
        ground (
          arith,
          w,
          listed-add_dependents op.id op.id dep op.depends_on r.dependents,
          eq_iff op.id op.id,
        ))),
    add_operations-IsListed ops (add_operation op r),
  )

  -- Statuses have an entry for each operation of the plan.
  add_operations-HasEntry :
      (k : String) (ops : List Operation) (r : Run E)
      → HasEntry k r
      → HasEntry k (add_operations ops r)
  unfolding add_operations add_operation HasEntry
  add_operations-HasEntry k [] r h = h
  add_operations-HasEntry k (op ∷ ops) r h =
      add_operations-HasEntry k ops (add_operation op r)
        (ground (arith, h, lookup-insert op.id k op_pending r.status))

  add_operations-entries :
      (ops : List Operation) (r : Run E) → All (λ op. HasEntry op.id (add_operations ops r)) ops
  unfolding add_operations add_operation HasEntry
  add_operations-entries [] r = tt
  add_operations-entries (op ∷ ops) r = (
    add_operations-HasEntry op.id ops (add_operation op r)
        (ground (arith, lookup-insert op.id op.id op_pending r.status, eq_iff op.id op.id)),
    add_operations-entries ops (add_operation op r),
  )

  HasEntry-kept : (k : String) → IsKept {E = E} (HasEntry k)
  unfolding HasEntry complete fail
  HasEntry-kept k = record {
    on_dispatch = dispatch_one-HasEntry k;
    on_complete = λ id r f h. ground (arith, h, lookup-insert id k op_completed r.status);
    on_failure = λ id err r f h.
        abort_dependents-HasEntry k id (fail id err r)
          (ground (arith, h, lookup-insert id k op_failed r.status));
  }

  IsSettled-kept : IsKept {E = E} IsSettled
  IsSettled-kept = record {
    on_dispatch = dispatch_one-IsSettled;
    on_complete = complete-IsSettled;
    on_failure = failure-IsSettled;
  }

-- The statuses of an operation that is done with.
abbrev pub is_over : OpStatus → Bool
is_over s = is_completed s || is_lost s

over_cases : (s : OpStatus) → is_over s ≡ false → (s ≡ op_in_flight) ⊎ (is_pending s ≡ true)
over_cases op_pending h = inr refl
over_cases op_in_flight h = inl refl
over_cases op_completed h = ground (arith, h)
over_cases op_failed h = ground (arith, h)
over_cases op_aborted h = ground (arith, h)

-- Something is in flight.
abbrev pub IsBusy : {E : Type 0} → Run E → Type 0
IsBusy s = (id : String) × (status_of id s.status ≡ op_in_flight)

-- What holds of an operation of the plan after a dispatch.
record IsDispatched {E : Type 0} (s : Run E) (op : Operation) : Type 0 where
  found : operation_of op.id s ≡ op
  linked : IsListed s.dependents op
  idle : is_due op.id s ≡ false

module _ {E : Type 0} (s : Run E) (settled : IsSettled s) where
  deps_over :
      (id : String) (before deps : List String)
      → is_pending (status_of id s.status) ≡ true
      → ((dep : String) → is_in dep before ≡ true → is_over (status_of dep s.status) ≡ true)
      → ((dep : String) → is_in dep deps ≡ true → is_in id (listed dep s.dependents) ≡ true)
      → all (λ dep. is_in dep before) deps ≡ true
      → all (λ dep. is_completed (status_of dep s.status)) deps ≡ true
  unfolding IsSettled
  deps_over id before [] p over links h = refl
  deps_over id before (dep ∷ deps) p over links h = ground (
    arith,
    p,
    h,
    over dep,
    links dep (ground (arith, eq_iff dep dep)),
    settled dep id,
    deps_over id before deps p over (λ d w. links d (ground (arith, w))),
  )

  scan :
      (before : List String) (ops : List Operation)
      → IsForward before ops
      → All (IsDispatched s) ops
      → ((dep : String) → is_in dep before ≡ true → is_over (status_of dep s.status) ≡ true)
      → IsBusy s ⊎ All (λ op. is_over (status_of op.id s.status) ≡ true) ops
  unfolding IsForward
  scan before [] f k over = inr tt
  scan before (op ∷ ops) f k over = elim (Bool-cases (is_over (status_of op.id s.status))) [
    | inl done ↦
        elim (scan (op.id ∷ before) ops f.1 k.1 (λ dep w. elim (Bool-cases (op.id == dep)) [
          | inl e ↦ subst (λ i. is_over (status_of i s.status) ≡ true) ((eq_iff op.id dep).0 e) done
          | inr e ↦ over dep (ground (arith, e, w))
        ])) [ inl busy ↦ inl busy | inr rest ↦ inr (done, rest) ]
    | inr open_status ↦ elim (over_cases (status_of op.id s.status) open_status) [
      | inl flying ↦ inl (op.id, flying)
      | inr waiting ↦
          let ready : deps_completed op s.status ≡ true =
            deps_over op.id before op.depends_on waiting over k.0.linked f.0 in
          let due : deps_completed (operation_of op.id s) s.status ≡ true =
            subst (λ o. deps_completed o s.status ≡ true) (sym k.0.found) ready in
          ground (arith, due, waiting, k.0.idle)
    ]
  ]

start-IsSettled : (E : Type 0) (ops : List Operation) → IsSettled {E = E} (start ops)
unfolding IsSettled start
start-IsSettled E ops a b l w =
    ground (arith, l, add_operations-pending ops (declared {E = E} (length ops)) (λ j. refl) a)

module _ {E : Type 0} (ops : List Operation) (r : Run E) (reach : Reachable ops r) where
  one-IsDispatched :
      (op : Operation)
      → lookup op.id (start {E = E} ops).op_by_id ≡ some op
      → IsListed (start {E = E} ops).dependents op
      → HasEntry op.id (start {E = E} ops)
      → IsDispatched (dispatch_ready r) op
  unfolding dispatch_ready HasEntry
  one-IsDispatched op e links entry =
      let tables = Running-tables ops (dispatch_ready r) (dispatched r reach) in
      let kept : is_some (lookup op.id r.status) ≡ true =
        Reachable-kept (HasEntry op.id) ops entry (HasEntry-kept op.id) r reach in
      record {
        found =
            ap (λ m. or_else (lookup op.id m) no_operation) tables.0
            ∙ ap (λ o. or_else o no_operation) e;
        linked = subst (λ m. IsListed m op) (sym tables.1) links;
        idle =
            ground
              (arith, kept, dispatch_each-is_due (ids_of r) op.id r, is_in-keys op.id r.status);
      }

  All-IsDispatched :
      (xs : List Operation)
      → All (λ op. lookup op.id (start {E = E} ops).op_by_id ≡ some op) xs
      → All (IsListed (start {E = E} ops).dependents) xs
      → All (λ op. HasEntry op.id (start {E = E} ops)) xs
      → All (IsDispatched (dispatch_ready r)) xs
  All-IsDispatched [] a b c = tt
  All-IsDispatched (op ∷ xs) a b c =
      (one-IsDispatched op a.0 b.0 c.0, All-IsDispatched xs a.1 b.1 c.1)

start-IsDispatched :
    {E : Type 0} (ops : List Operation) (r : Run E)
    → AreDistinct ops
    → Reachable ops r
    → All (IsDispatched (dispatch_ready r)) ops
unfolding start
start-IsDispatched {E = E} ops r d reach =
    All-IsDispatched ops r reach ops (start-operations E ops d)
      (add_operations-IsListed ops (declared {E = E} (length ops)))
      (add_operations-entries ops (declared {E = E} (length ops)))

-- In a plan with different identifiers whose operations depend only on earlier ones: after each
-- dispatch of the loop, whatever has been answered so far, an operation is in flight or every
-- operation of the plan has completed, failed or been aborted.
pub dispatch_ready-is_over :
    {E : Type 0} (ops : List Operation) (r : Run E)
    → AreDistinct ops
    → IsForward [] ops
    → Reachable ops r
    → IsBusy (dispatch_ready r)
      ⊎ All (λ op. is_over (status_of op.id (dispatch_ready r).status) ≡ true) ops
dispatch_ready-is_over {E = E} ops r d f reach =
    scan (dispatch_ready r)
      (dispatch_ready-kept IsSettled ops (start-IsSettled E ops) IsSettled-kept r reach) [] ops f
      (start-IsDispatched ops r d reach) (λ dep w. ground (arith, w))
