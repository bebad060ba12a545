-- ===== src/Executor/Order.antt =====
-- internal/executor/executor.go: the order in which operations start.
use schedulator.Prelude.{
  String, eq_iff, Bool, true, false, List, [], ◌∷◌, or_else, Map, lookup, all, All, ◌≡◌, refl, sym,
  subst, ◌∙◌, ap, ◌⊎◌, inl, inr, arith, ◌||◌, not, All-map, length,
}
use schedulator.Model.Plans.{Operation}
use schedulator.Executor.{
  OpStatus, op_pending, op_in_flight, op_completed, op_failed, op_aborted, is_completed, status_of,
  deps_completed, no_operation, Run, operation_of, add_operation, add_operations, start,
  dispatch_one, complete, fail, abort_dependents, cancel_one, declared, Running, AreDistinct,
}
use schedulator.Executor.Induction.{Running-kept}
use schedulator.Executor.Tables.{Running-tables, start-operations}
use schedulator.Executor.Abort.{status_of-insert, abort_transitive-changed}

-- The statuses of an operation that has been dispatched.
abbrev pub has_started : OpStatus → Bool
has_started op_pending = false
has_started op_in_flight = true
has_started op_completed = true
has_started op_failed = true
has_started op_aborted = false

deps_completed_mono :
    (op : Operation) (before after : Map OpStatus)
    → ((id : String)
        → is_completed (status_of id before) ≡ true
        → is_completed (status_of id after) ≡ true)
    → deps_completed op before ≡ true
    → deps_completed op after ≡ true
deps_completed_mono op before after keeps = go op.depends_on
  where
    go :
        (deps : List String)
        → all (λ dep. is_completed (status_of dep before)) deps ≡ true
        → all (λ dep. is_completed (status_of dep after)) deps ≡ true
    go [] h = refl
    go (dep ∷ deps) h = ground (arith, h, keeps dep, go deps)

module _ {E : Type 0} where
  IsOrderly : Run E → Type 0
  IsOrderly r =
      (id : String)
      → has_started (status_of id r.status) ≡ true
      → deps_completed (operation_of id r) r.status ≡ true

  -- One state leads to another: what has completed stays, and what starts may.
  record IsAdvance (r s : Run E) : Type 0 where
    same_operations : s.op_by_id ≡ r.op_by_id
    stays :
        (id : String)
        → is_completed (status_of id r.status) ≡ true
        → is_completed (status_of id s.status) ≡ true
    starts :
        (id : String)
        → has_started (status_of id s.status) ≡ true
        → (has_started (status_of id r.status) ≡ true)
          ⊎ (deps_completed (operation_of id r) r.status ≡ true)

  IsAdvance-IsOrderly : (r s : Run E) → IsAdvance r s → IsOrderly r → IsOrderly s
  unfolding IsOrderly
  IsAdvance-IsOrderly r s adv h id b =
      subst (λ m. deps_completed (or_else (lookup id m) no_operation) s.status ≡ true)
        (sym adv.same_operations)
        (deps_completed_mono (operation_of id r) r.status s.status adv.stays
          (elim (adv.starts id b) [ inl t ↦ h id t | inr d ↦ d ]))

  dispatch_one-IsAdvance : (id : String) (r : Run E) → IsAdvance r (dispatch_one id r)
  unfolding dispatch_one
  dispatch_one-IsAdvance id r = record {
    same_operations = ground arith;
    stays = λ j c. ground (arith, c, status_of-insert id j op_in_flight r.status, eq_iff id j);
    starts = λ j c.
        let moved : id ≡ j
            → deps_completed (operation_of id r) r.status ≡ true
            → deps_completed (operation_of j r) r.status ≡ true =
          λ e. subst (λ k. deps_completed (operation_of k r) r.status ≡ true) e in
        ground (arith, c, moved, status_of-insert id j op_in_flight r.status, eq_iff id j);
  }

  complete-IsAdvance :
      (id : String) (r : Run E) → status_of id r.status ≡ op_in_flight → IsAdvance r (complete id r)
  unfolding complete
  complete-IsAdvance id r f = record {
    same_operations = refl;
    stays = λ j c. ground (arith, c, status_of-insert id j op_completed r.status, eq_iff id j);
    starts = λ j c. ground (arith, c, f, status_of-insert id j op_completed r.status, eq_iff id j);
  }

  fail-IsAdvance :
      (id : String) (err : E) (r : Run E)
      → status_of id r.status ≡ op_in_flight
      → IsAdvance r (fail id err r)
  unfolding fail
  fail-IsAdvance id err r f = record {
    same_operations = refl;
    stays = λ j c. ground (arith, c, f, status_of-insert id j op_failed r.status, eq_iff id j);
    starts = λ j c. ground (arith, c, f, status_of-insert id j op_failed r.status, eq_iff id j);
  }

  cancel_one-IsAdvance : (id : String) (r : Run E) → IsAdvance r (cancel_one id r)
  unfolding cancel_one
  cancel_one-IsAdvance id r = record {
    same_operations = ground arith;
    stays = λ j c. ground (arith, c, status_of-insert id j op_aborted r.status, eq_iff id j);
    starts = λ j c. ground (arith, c, status_of-insert id j op_aborted r.status, eq_iff id j);
  }

  abort_dependents-IsAdvance : (id : String) (r : Run E) → IsAdvance r (abort_dependents id r)
  unfolding abort_dependents
  abort_dependents-IsAdvance id r = record {
    same_operations = refl;
    stays = λ j c. ground (arith, c, abort_transitive-changed r.dependents id r.status j);
    starts = λ j c. ground (arith, c, abort_transitive-changed r.dependents id r.status j);
  }

  failure-IsOrderly :
      (id : String) (err : E) (r : Run E)
      → status_of id r.status ≡ op_in_flight
      → IsOrderly r
      → IsOrderly (abort_dependents id (fail id err r))
  failure-IsOrderly id err r f h =
      IsAdvance-IsOrderly (fail id err r) (abort_dependents id (fail id err r))
        (abort_dependents-IsAdvance id (fail id err r))
        (IsAdvance-IsOrderly r (fail id err r) (fail-IsAdvance id err r f) h)

  -- Before the first dispatch nothing has started.
  pub add_operations-pending :
      (ops : List Operation) (r : Run E)
      → ((id : String) → status_of id r.status ≡ op_pending)
      → (id : String) → status_of id (add_operations ops r).status ≡ op_pending
  unfolding add_operations add_operation
  add_operations-pending [] r h = h
  add_operations-pending (op ∷ ops) r h =
      add_operations-pending ops (add_operation op r)
        (λ id. ground (arith, h id, status_of-insert op.id id op_pending r.status))

start-IsOrderly : (E : Type 0) (ops : List Operation) → IsOrderly {E = E} (start ops)
unfolding IsOrderly start
start-IsOrderly E ops id b =
    ground (arith, b, add_operations-pending ops (declared {E = E} (length ops)) (λ j. refl) id)

Running-IsOrderly : {E : Type 0} (ops : List Operation) (r : Run E) → Running ops r → IsOrderly r
Running-IsOrderly {E = E} ops r h =
    Running-kept IsOrderly ops (start-IsOrderly E ops)
      record {
        on_dispatch =
            λ id s. IsAdvance-IsOrderly s (dispatch_one id s) (dispatch_one-IsAdvance id s);
        on_complete = λ id s f. IsAdvance-IsOrderly s (complete id s) (complete-IsAdvance id s f);
        on_failure = failure-IsOrderly;
      }
      record {
        on_cancel = λ id s. IsAdvance-IsOrderly s (cancel_one id s) (cancel_one-IsAdvance id s);
        on_fail = λ id err s f. IsAdvance-IsOrderly s (fail id err s) (fail-IsAdvance id err s f);
      }
      r h

-- Each of an operation's dependencies has completed, if it has started.
abbrev pub respects : {E : Type 0} → Run E → Operation → Bool
respects r op =
    not (has_started (status_of op.id r.status))
    || all (λ dep. is_completed (status_of dep r.status)) op.depends_on

-- In every state of an execution of a plan with different identifiers, however the answers arrive and
-- whenever the context is done: an operation of the plan that is in flight, completed or failed has
-- only completed dependencies.
pub Running-respects :
    {E : Type 0} (ops : List Operation) (r : Run E)
    → AreDistinct ops
    → Running ops r
    → All (λ op. respects r op ≡ true) ops
unfolding IsOrderly
Running-respects {E = E} ops r d h =
    All-map
      (λ op e.
        let found : operation_of op.id r ≡ op =
          ap (λ m. or_else (lookup op.id m) no_operation) (Running-tables ops r h).0
          ∙ ap (λ o. or_else o no_operation) e in
        let ordered : has_started (status_of op.id r.status) ≡ true
            → deps_completed op r.status ≡ true =
          λ b.
            subst (λ o. deps_completed o r.status ≡ true) found
              (Running-IsOrderly ops r h op.id b) in
        ground (arith, ordered))
      ops (start-operations E ops d)
