-- ===== src/Executor/Progress.antt =====
-- internal/executor/executor.go: what each step of the loop does to failed, pending and due operations.
use schedulator.Prelude.{
  ℕ, suc, String, ◌==◌, eq_iff, Bool, true, false, ◌&&◌, not, List, [], ◌∷◌, ◌++◌, map, is_some,
  Map, lookup, insert, lookup-insert, listed, all, ◌≡◌, ◌≢◌, refl, sym, subst, inl, inr, arith,
  Bool-cases,
}
use schedulator.Model.Plans.{Operation}
use schedulator.Executor.{
  OpStatus, op_pending, op_in_flight, op_completed, op_failed, op_aborted, is_pending, is_completed,
  Aborting, abort_one, abort_loop, status_of, is_in, deps_completed, abort_transitive, Run,
  operation_of, dispatch_one, dispatch_each, complete, fail, abort_dependents,
}
use schedulator.Executor.Abort.{
  Awaits, direct, further, status_of-insert, abort_transitive-settled, abort_transitive-changed,
}

abbrev pub is_lost : OpStatus → Bool
is_lost op_pending = false
is_lost op_in_flight = false
is_lost op_completed = false
is_lost op_failed = true
is_lost op_aborted = true

deps_completed_same :
    (op : Operation) (before after : Map OpStatus)
    → ((id : String) → is_completed (status_of id after) ≡ is_completed (status_of id before))
    → deps_completed op after ≡ deps_completed op before
deps_completed_same op before after same = go op.depends_on
  where
    go :
        (deps : List String)
        → all (λ dep. is_completed (status_of dep after)) deps
          ≡ all (λ dep. is_completed (status_of dep before)) deps
    go [] = refl
    go (dep ∷ deps) = ground (arith, same dep, go deps)

abort_loop-entry :
    (k : String) (dependents : Map (List String)) (fuel : ℕ) (queue visited : List String)
    (a : Aborting)
    → is_some (lookup k a.status) ≡ true
    → is_some (lookup k (abort_loop dependents fuel queue visited a).status) ≡ true
unfolding abort_loop
abort_loop-entry k dependents ℕ.zero queue visited a h = h
abort_loop-entry k dependents (suc fuel) [] visited a h = h
abort_loop-entry k dependents (suc fuel) (id ∷ queue) visited a h =
    let kept : is_some (lookup k (abort_one id a).status) ≡ true =
      ground (arith, h, lookup-insert id k op_aborted a.status) in
    ground (
      arith,
      abort_loop-entry k dependents fuel queue visited a h,
      abort_loop-entry k dependents fuel (queue ++ listed id dependents) (id ∷ visited)
          (abort_one id a) kept,
    )

pub is_in-keys :
    {V : Type 0} (id : String) (m : Map V) → is_in id (map (λ e. e.0) m) ≡ is_some (lookup id m)
is_in-keys id [] = refl
is_in-keys id ((k, v) ∷ m) = ground (arith, is_in-keys id m)

module _ {E : Type 0} where
  -- What waits for a failed or aborted operation is not pending.
  unfoldable pub IsSettled : Run E → Type 0
  IsSettled r =
      (a b : String)
      → is_lost (status_of a r.status) ≡ true
      → is_in b (listed a r.dependents) ≡ true
      → is_pending (status_of b r.status) ≡ false

  pub dispatch_one-IsSettled :
      (id : String) (r : Run E) → IsSettled r → IsSettled (dispatch_one id r)
  unfolding dispatch_one IsSettled
  dispatch_one-IsSettled id r h a b l w = ground (
    arith,
    l,
    w,
    h a b,
    status_of-insert id a op_in_flight r.status,
    status_of-insert id b op_in_flight r.status,
  )

  pub complete-IsSettled :
      (id : String) (r : Run E)
      → status_of id r.status ≡ op_in_flight
      → IsSettled r
      → IsSettled (complete id r)
  unfolding complete IsSettled
  complete-IsSettled id r f h a b l w = ground (
    arith,
    l,
    w,
    h a b,
    status_of-insert id a op_completed r.status,
    status_of-insert id b op_completed r.status,
  )

  pub failure-IsSettled :
      (id : String) (err : E) (r : Run E)
      → status_of id r.status ≡ op_in_flight
      → IsSettled r
      → IsSettled (abort_dependents id (fail id err r))
  unfolding fail abort_dependents IsSettled
  failure-IsSettled id err r f h a b l w =
      let m = insert id op_failed r.status in
      let settles : Awaits r.dependents id b
          → id ≢ b
          → is_pending (status_of b (abort_transitive id r.dependents m).status) ≡ false =
        abort_transitive-settled r.dependents id m b in
      let onward : Awaits r.dependents id a → Awaits r.dependents id b = λ v. further a b v w in
      let first : id ≡ a → Awaits r.dependents id b =
        λ e. direct b (subst (λ k. is_in b (listed k r.dependents) ≡ true) (sym e) w) in
      ground (
        arith,
        l,
        w,
        h a b,
        settles,
        onward,
        first,
        eq_iff id a,
        eq_iff id b,
        status_of-insert id a op_failed r.status,
        status_of-insert id b op_failed r.status,
        abort_transitive-changed r.dependents id m a,
        abort_transitive-changed r.dependents id m b,
      )

  -- An operation that the next dispatch would start.
  abbrev pub is_due : String → Run E → Bool
  is_due id r = is_pending (status_of id r.status) && deps_completed (operation_of id r) r.status

  dispatch_one-is_due :
      (id j : String) (r : Run E) → is_due j (dispatch_one id r) ≡ (is_due j r && not (id == j))
  unfolding dispatch_one
  dispatch_one-is_due id j r = elim (Bool-cases (is_due id r)) [
    | inl due ↦
        rw (due, dispatch_one)
          (ground (
            arith,
            due,
            status_of-insert id j op_in_flight r.status,
            eq_iff id j,
            deps_completed_same (operation_of j r) r.status (insert id op_in_flight r.status) (λ k.
                ground (arith, due, status_of-insert id k op_in_flight r.status, eq_iff id k)),
          ))
    | inr idle ↦
        rw (idle, dispatch_one)
          (elim (Bool-cases (id == j)) [
            | inl e ↦
                let same : is_due j r ≡ false =
                  subst (λ k. is_due k r ≡ false) ((eq_iff id j).0 e) idle in
                ground (arith, e, same)
            | inr e ↦ ground (arith, e)
          ])
  ]

  pub dispatch_each-is_due :
      (ids : List String) (j : String) (r : Run E)
      → is_due j (dispatch_each ids r) ≡ (is_due j r && not (is_in j ids))
  unfolding dispatch_each
  dispatch_each-is_due [] j r = ground arith
  dispatch_each-is_due (id ∷ ids) j r =
      ground (arith, dispatch_each-is_due ids j (dispatch_one id r), dispatch_one-is_due id j r)

  -- Every operation of the plan keeps an entry among the statuses.
  unfoldable pub HasEntry : String → Run E → Type 0
  HasEntry id r = is_some (lookup id r.status) ≡ true

  pub dispatch_one-HasEntry :
      (k id : String) (r : Run E) → HasEntry k r → HasEntry k (dispatch_one id r)
  unfolding dispatch_one HasEntry
  dispatch_one-HasEntry k id r h = ground (arith, h, lookup-insert id k op_in_flight r.status)

  pub abort_dependents-HasEntry :
      (k id : String) (r : Run E) → HasEntry k r → HasEntry k (abort_dependents id r)
  unfolding abort_dependents abort_transitive HasEntry
  abort_dependents-HasEntry k id r h =
      abort_loop-entry k r.dependents _ (listed id r.dependents) (id ∷ [])
        (record { status = r.status; aborted = [] }) h
