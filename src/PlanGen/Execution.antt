-- ===== src/PlanGen/Execution.antt =====
-- internal/plangen and internal/executor together: generated plans in the executor's loop.
use schedulator.Prelude.{
  ℕ, suc, ◌<◌, String, ◌==◌, eq_iff, true, false, ◌&&◌, List, [], ◌∷◌, ◌++◌, map, any, any-append,
  all, All, ◌≡◌, refl, sym, subst, ◌∙◌, ◌⊎◌, inl, inr, arith, Bool-cases, listed,
}
use mathlib.Core.List.{append_assoc, map-append}
use schedulator.Model.Plans.{
  PlacementDecisions, MigrateDecision, OperationType, scaling_up, scaling_down, preempting,
  unsupported, Payload, Operation,
}
use schedulator.PlanGen.{
  Draft, add_preemption, add_scale_down, add_scale_up, add_migration, phase, generate_plan,
}
use schedulator.PlanGen.Links.{
  scales_up, preemption_ids, MayAwait, IsLinked, generate_plan-IsLinked,
}
use schedulator.Executor.{is_in, status_of, Run, dispatch_ready, AreDistinct, IsForward, Reachable}
use schedulator.Executor.Stranded.{is_over, IsBusy, dispatch_ready-is_over}

preemption_ids-is_in :
    (c : String) (names : List String) (before : List Operation)
    → ((id : String) → any (λ o. o.id == id) before ≡ true → is_in id names ≡ true)
    → all (λ dep. is_in dep names) (preemption_ids c before) ≡ true
unfolding preemption_ids
preemption_ids-is_in c names [] h = refl
preemption_ids-is_in c names (op ∷ before) h = ground (
  arith,
  h op.id (ground (arith, eq_iff op.id op.id)),
  preemption_ids-is_in c names before (λ id w. h id (ground (arith, w))),
)

any-weaken :
    (id app : String) (ops : List Operation)
    → any (λ o. (o.id == id) && scales_up app o.payload) ops ≡ true
    → any (λ o. o.id == id) ops ≡ true
any-weaken id app [] h = ground (arith, h)
any-weaken id app (op ∷ ops) h = ground (arith, h, any-weaken id app ops)

MayAwait-is_in :
    (before : List Operation) (names : List String) (payload : Payload) (deps : List String)
    → ((id : String) → any (λ o. o.id == id) before ≡ true → is_in id names ≡ true)
    → MayAwait before payload deps
    → all (λ dep. is_in dep names) deps ≡ true
MayAwait-is_in before names (preempting p) deps h k = rw k
MayAwait-is_in before names (scaling_up su) deps h k =
    rw k (preemption_ids-is_in su.cluster_id names before h)
MayAwait-is_in before names (scaling_down sd) deps h (inl e) = rw e
MayAwait-is_in before names (scaling_down sd) deps h (inr (id, e, w)) =
    rw e (ground (arith, h id (any-weaken id sd.app_id before w)))
MayAwait-is_in before names unsupported deps h k = elim k [ ]

IsLinked-IsForward :
    (before : List Operation) (names : List String) (ops : List Operation)
    → ((id : String) → any (λ o. o.id == id) before ≡ true → is_in id names ≡ true)
    → IsLinked before ops
    → IsForward names ops
unfolding IsLinked IsForward
IsLinked-IsForward before names [] h k = tt
IsLinked-IsForward before names (op ∷ ops) h k = (
  MayAwait-is_in before names op.payload op.depends_on h k.0,
  IsLinked-IsForward (before ++ op ∷ []) (op.id ∷ names) ops
      (λ id w. ground (arith, w, h id, any-append (λ o. o.id == id) before (op ∷ []))) k.1,
)

AreDistinct-append :
    (ops : List Operation) (op : Operation)
    → AreDistinct ops
    → is_in op.id (map (λ o. o.id) ops) ≡ false
    → AreDistinct (ops ++ op ∷ [])
unfolding AreDistinct
AreDistinct-append [] op d new = (refl, tt)
AreDistinct-append (x ∷ ops) op d new = (
  ground (
    arith,
    d.0,
    new,
    eq_iff x.id op.id,
    eq_iff op.id x.id,
    any-append (λ i. i == x.id) (map (λ o. o.id) ops) (op.id ∷ []),
    map-append (λ o. o.id) ops (op ∷ []),
  ),
  AreDistinct-append ops op d.1 (ground (arith, new)),
)

-- The operations of a draft carry different identifiers, all drawn already.
record IsFresh (uuid : ℕ → String) (ops : List Operation) (drawn : ℕ) : Type 0 where
  distinct : AreDistinct ops
  drawn_before :
      (id : String) → is_in id (map (λ o. o.id) ops) ≡ true → (k : ℕ) × (uuid k ≡ id) × (k < drawn)

module _ (uuid : ℕ → String) (injective : (m n : ℕ) → uuid m ≡ uuid n → m ≡ n) where
  extend-IsFresh :
      (ops : List Operation) (op : Operation) (drawn : ℕ)
      → op.id ≡ uuid drawn
      → IsFresh uuid ops drawn
      → IsFresh uuid (ops ++ op ∷ []) (suc drawn)
  extend-IsFresh ops op drawn e h = record {
    distinct =
        AreDistinct-append ops op h.distinct
          (elim (Bool-cases (is_in op.id (map (λ o. o.id) ops))) [
            | inl old ↦
                let (k, same, below) = h.drawn_before op.id old in
                let equal : k ≡ drawn = injective k drawn (same ∙ e) in
                absurd (omega (arith, below, equal))
            | inr new ↦ new
          ]);
    drawn_before = λ id w. elim (Bool-cases (is_in id (map (λ o. o.id) ops))) [
      | inl old ↦ let (k, same, below) = h.drawn_before id old in (k, same, omega (arith, below))
      | inr new ↦
          let equal : op.id ≡ id = ground (
            arith,
            w,
            new,
            eq_iff op.id id,
            any-append (λ i. i == id) (map (λ o. o.id) ops) (op.id ∷ []),
            map-append (λ o. o.id) ops (op ∷ []),
          ) in
          (drawn, sym e ∙ equal, omega arith)
    ];
  }

  IsDrawn : Draft → Type 0
  IsDrawn d = IsFresh uuid d.operations d.drawn

  add_migration-IsDrawn :
      (m : MigrateDecision) (d : Draft) → IsDrawn d → IsDrawn (add_migration uuid m d)
  unfolding add_migration IsDrawn
  add_migration-IsDrawn m d h =
      let up : Operation = record {
        id = uuid d.drawn;
        type = OperationType.scale_up;
        payload = scaling_up record {
          app_id = m.app_id;
          cluster_id = m.target_cluster_id;
          reservation_id = "";
          scheduling_constraints = m.scheduling_constraints;
        };
        depends_on = listed m.target_cluster_id d.cluster_preemption_ops;
      } in
      let down : Operation = record {
        id = uuid (suc d.drawn);
        type = OperationType.scale_down;
        payload = scaling_down record { app_id = m.app_id; replica_id = m.source_replica_id };
        depends_on = uuid d.drawn ∷ [];
      } in
      subst (λ l. IsFresh uuid l (suc (suc d.drawn)))
        (append_assoc d.operations (up ∷ []) (down ∷ []))
        (extend-IsFresh (d.operations ++ up ∷ []) down (suc d.drawn) refl
          (extend-IsFresh d.operations up d.drawn refl h))

  phase-IsDrawn :
      {A : Type 0} (step : A → Draft → Draft)
      → ((x : A) (d : Draft) → IsDrawn d → IsDrawn (step x d))
      → (xs : List A) (d : Draft) → IsDrawn d
      → IsDrawn (phase step xs d)
  unfolding phase
  phase-IsDrawn step keeps [] d h = h
  phase-IsDrawn step keeps (x ∷ xs) d h = phase-IsDrawn step keeps xs (step x d) (keeps x d h)

  generate_plan-AreDistinct :
      (drawn : ℕ) (decisions : PlacementDecisions) (migrations : List MigrateDecision)
      → AreDistinct (generate_plan uuid drawn decisions migrations).operations
  unfolding generate_plan add_preemption add_scale_down add_scale_up IsDrawn AreDistinct
  generate_plan-AreDistinct drawn decisions migrations =
      (phase-IsDrawn (add_migration uuid) add_migration-IsDrawn migrations _ (
        phase-IsDrawn (add_scale_up uuid) (λ x d. extend-IsFresh d.operations _ d.drawn refl)
          decisions.scale_ups _
          (phase-IsDrawn (add_scale_down uuid) (λ x d. extend-IsFresh d.operations _ d.drawn refl)
            decisions.scale_downs _
            (phase-IsDrawn (add_preemption uuid) (λ x d. extend-IsFresh d.operations _ d.drawn refl)
              decisions.preemptions _
              (record { distinct = tt; drawn_before = λ id w. ground (arith, w) }))))).distinct

-- With identifiers that never repeat: in an execution of a generated plan, after each dispatch,
-- whatever has been answered so far, an operation is in flight or every operation of the plan has
-- completed, failed or been aborted.
pub generate_plan-is_over :
    {E : Type 0} (uuid : ℕ → String) (drawn : ℕ) (decisions : PlacementDecisions)
    (migrations : List MigrateDecision) (r : Run E)
    → ((m n : ℕ) → uuid m ≡ uuid n → m ≡ n)
    → Reachable (generate_plan uuid drawn decisions migrations).operations r
    → IsBusy (dispatch_ready r)
      ⊎ All
          (λ op. is_over (status_of op.id (dispatch_ready r).status) ≡ true)
          (generate_plan uuid drawn decisions migrations).operations
generate_plan-is_over uuid drawn decisions migrations r injective reach =
    dispatch_ready-is_over (generate_plan uuid drawn decisions migrations).operations r
      (generate_plan-AreDistinct uuid injective drawn decisions migrations)
      (IsLinked-IsForward [] [] (generate_plan uuid drawn decisions migrations).operations
        (λ id w. ground (arith, w)) (generate_plan-IsLinked uuid drawn decisions migrations))
      reach
