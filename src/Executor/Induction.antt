-- ===== src/Executor/Induction.antt =====
-- internal/executor/executor.go: induction over the states of the loop.
use schedulator.Prelude.{String, List, [], ◌∷◌, none, some, ◌≡◌}
use schedulator.Model.Plans.{Operation}
use schedulator.Executor.{
  op_in_flight, status_of, Run, start, ids_of, dispatch_one, dispatch_each, dispatch_ready,
  complete, fail, abort_dependents, receive, drain, cancel_one, cancel_each, cancel, Reachable,
  started, received, Draining, cancelled, drained, Running, dispatched, draining,
}

-- What an invariant of the loop must be kept by, before the context is done and after.
pub record IsKept {E : Type 0} (P : Run E → Type 0) : Type 0 where
  pub on_dispatch : (id : String) (r : Run E) → P r → P (dispatch_one id r)
  pub on_complete :
      (id : String) (r : Run E) → status_of id r.status ≡ op_in_flight → P r → P (complete id r)
  pub on_failure :
      (id : String) (err : E) (r : Run E)
      → status_of id r.status ≡ op_in_flight
      → P r
      → P (abort_dependents id (fail id err r))

pub record IsKeptDraining {E : Type 0} (P : Run E → Type 0) : Type 0 where
  pub on_cancel : (id : String) (r : Run E) → P r → P (cancel_one id r)
  pub on_fail :
      (id : String) (err : E) (r : Run E)
      → status_of id r.status ≡ op_in_flight
      → P r
      → P (fail id err r)

module _ {E : Type 0} (P : Run E → Type 0) (ops : List Operation) (begin : P (start {E = E} ops))
    (k : IsKept P) where
  dispatch_each-kept : (ids : List String) (r : Run E) → P r → P (dispatch_each ids r)
  unfolding dispatch_each
  dispatch_each-kept [] r h = h
  dispatch_each-kept (id ∷ ids) r h =
      dispatch_each-kept ids (dispatch_one id r) (k.on_dispatch id r h)

  pub Reachable-kept : (r : Run E) → Reachable ops r → P r
  unfolding dispatch_ready receive
  Reachable-kept _ started = begin
  Reachable-kept _ (received r id none reach f) =
      k.on_complete id (dispatch_ready r) f
        (dispatch_each-kept (ids_of r) r (Reachable-kept r reach))
  Reachable-kept _ (received r id (some err) reach f) =
      k.on_failure id err (dispatch_ready r) f
        (dispatch_each-kept (ids_of r) r (Reachable-kept r reach))

  pub dispatch_ready-kept : (r : Run E) → Reachable ops r → P (dispatch_ready r)
  unfolding dispatch_ready
  dispatch_ready-kept r reach = dispatch_each-kept (ids_of r) r (Reachable-kept r reach)

  module _ (l : IsKeptDraining P) where
    cancel_each-kept : (ids : List String) (r : Run E) → P r → P (cancel_each ids r)
    unfolding cancel_each
    cancel_each-kept [] r h = h
    cancel_each-kept (id ∷ ids) r h = cancel_each-kept ids (cancel_one id r) (l.on_cancel id r h)

    Draining-kept : (r : Run E) → Draining ops r → P r
    unfolding cancel drain
    Draining-kept _ (cancelled r reach busy) =
        cancel_each-kept (ids_of (dispatch_ready r)) (dispatch_ready r)
          (dispatch_ready-kept r reach)
    Draining-kept _ (drained r id none reach f) = k.on_complete id r f (Draining-kept r reach)
    Draining-kept _ (drained r id (some err) reach f) = l.on_fail id err r f (Draining-kept r reach)

    pub Running-kept : (r : Run E) → Running ops r → P r
    Running-kept _ (dispatched r reach) = dispatch_ready-kept r reach
    Running-kept _ (draining r reach) = Draining-kept r reach
