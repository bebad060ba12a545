-- ===== src/PlanGen/Links.antt =====
-- internal/plangen/generator.go: what each operation of a generated plan waits for.
use schedulator.Prelude.{
  ℕ, suc, String, ◌==◌, Bool, true, false, ◌&&◌, List, [], ◌∷◌, ◌++◌, listed, any, ◌≡◌, refl, ◌⊎◌,
  inl, inr, arith, if◌then◌else◌, listed-append_at, eq_iff, any-append, subst, sym,
}
use mathlib.Core.List.{append-nil, append_assoc}
use schedulator.Model.Plans.{
  ScaleUpDecision, ScaleDownDecision, PreemptionDecision, PlacementDecisions, MigrateDecision,
  OperationType, scaling_up, scaling_down, preempting, unsupported, Payload, Operation,
}
use schedulator.PlanGen.{
  Draft, add_preemption, add_scale_down, add_scale_up, add_migration, phase, generate_plan,
}

-- The operations that preempt in a cluster.
abbrev pub preempts : String → Payload → Bool
preempts c (preempting p) = p.cluster_id == c
preempts c (scaling_up su) = false
preempts c (scaling_down sd) = false
preempts c unsupported = false

abbrev pub scales_up : String → Payload → Bool
scales_up app (scaling_up su) = su.app_id == app
scales_up app (preempting p) = false
scales_up app (scaling_down sd) = false
scales_up app unsupported = false

unfoldable pub preemption_ids : String → List Operation → List String
preemption_ids c [] = []
preemption_ids c (op ∷ ops) =
    let rest = preemption_ids c ops in if preempts c op.payload then op.id ∷ rest else rest

-- What an operation may wait for, given the operations before it: a preemption for nothing, a scale-up
-- for the preemptions in its cluster, a scale-down for nothing or for a scale-up of its application.
abbrev pub MayAwait : List Operation → Payload → List String → Type 0
MayAwait before (preempting p) deps = deps ≡ []
MayAwait before (scaling_up su) deps = deps ≡ preemption_ids su.cluster_id before
MayAwait before (scaling_down sd) deps =
    (deps ≡ [])
    ⊎ ((id : String) × (deps ≡ id ∷ [])
        × (any (λ o. (o.id == id) && scales_up sd.app_id o.payload) before ≡ true))
MayAwait before unsupported deps = ⊥

abbrev pub IsLinkedTo : List Operation → Operation → Type 0
IsLinkedTo before op = MayAwait before op.payload op.depends_on

unfoldable pub IsLinked : List Operation → List Operation → Type 0
IsLinked before [] = Unit
IsLinked before (op ∷ ops) = IsLinkedTo before op × IsLinked (before ++ op ∷ []) ops

IsLinked-append :
    (before xs : List Operation) (op : Operation)
    → IsLinked before xs
    → IsLinkedTo (before ++ xs) op
    → IsLinked before (xs ++ op ∷ [])
unfolding IsLinked
IsLinked-append before [] op h k = (subst (λ l. IsLinkedTo l op) (append-nil before) k, tt)
IsLinked-append before (x ∷ xs) op h k = (
  h.0,
  IsLinked-append (before ++ x ∷ []) xs op h.1
      (subst (λ l. IsLinkedTo l op) (sym (append_assoc before (x ∷ []) xs)) k),
)

preemption_ids-append :
    (c : String) (ops : List Operation) (op : Operation)
    → preemption_ids c (ops ++ op ∷ [])
      ≡ (if preempts c op.payload then preemption_ids c ops ++ op.id ∷ [] else preemption_ids c ops)
unfolding preemption_ids
preemption_ids-append c [] op = refl
preemption_ids-append c (x ∷ ops) op = ground (arith, preemption_ids-append c ops op)

-- The draft's map lists the preemptions of each cluster, and its operations are linked.
record IsDraft (d : Draft) : Type 0 where
  linked : IsLinked [] d.operations
  indexed : (c : String) → listed c d.cluster_preemption_ops ≡ preemption_ids c d.operations

-- An operation that preempts nowhere leaves the map as it is.
extend-IsDraft :
    (d : Draft) (op : Operation) (n : ℕ)
    → IsDraft d
    → ((c : String) → preempts c op.payload ≡ false)
    → IsLinkedTo d.operations op
    → IsDraft (record d { operations = d.operations ++ op ∷ []; drawn = n })
extend-IsDraft d op n h quiet k = record {
  linked = IsLinked-append [] d.operations op h.linked k;
  indexed = λ c. ground (arith, h.indexed c, preemption_ids-append c d.operations op, quiet c);
}

module _ (uuid : ℕ → String) where
  add_preemption-IsDraft :
      (p : PreemptionDecision) (d : Draft) → IsDraft d → IsDraft (add_preemption uuid p d)
  unfolding add_preemption
  add_preemption-IsDraft p d h = record {
    linked = IsLinked-append [] d.operations _ h.linked refl;
    indexed = λ c. ground (
      arith,
      h.indexed c,
      listed-append_at p.cluster_id c (uuid d.drawn) d.cluster_preemption_ops,
      preemption_ids-append c d.operations record {
        id = uuid d.drawn;
        type = OperationType.preempt;
        payload = preempting p;
        depends_on = [];
      },
    );
  }

  add_scale_down-IsDraft :
      (sd : ScaleDownDecision) (d : Draft) → IsDraft d → IsDraft (add_scale_down uuid sd d)
  unfolding add_scale_down
  add_scale_down-IsDraft sd d h = extend-IsDraft d _ _ h (λ c. refl) (inl refl)

  add_scale_up-IsDraft :
      (su : ScaleUpDecision) (d : Draft) → IsDraft d → IsDraft (add_scale_up uuid su d)
  unfolding add_scale_up
  add_scale_up-IsDraft su d h = extend-IsDraft d _ _ h (λ c. refl) (h.indexed su.cluster_id)

  add_migration-IsDraft :
      (m : MigrateDecision) (d : Draft) → IsDraft d → IsDraft (add_migration uuid m d)
  unfolding add_migration
  add_migration-IsDraft m d h =
      let up : Operation = record {
        id = uuid d.drawn;
        type = OperationType.scale_up;
        payload = scaling_up record {
          app_id = m.app_id;
          cluster_id = m.target_cluster_id;
          reservation_id = "";
          scheduling_constraints = m.scheduling_constraints;
        };
        depends_on = listed m.target_cluster_id d.cluster_preemption_ops;
      } in
      let down : Operation = record {
        id = uuid (suc d.drawn);
        type = OperationType.scale_down;
        payload = scaling_down record { app_id = m.app_id; replica_id = m.source_replica_id };
        depends_on = uuid d.drawn ∷ [];
      } in
      subst (λ l. IsDraft (record d { operations = l; drawn = suc (suc d.drawn) }))
        (append_assoc d.operations (up ∷ []) (down ∷ []))
        (extend-IsDraft (record d { operations = d.operations ++ up ∷ [] }) down _
          (extend-IsDraft d up d.drawn h (λ c. refl) (h.indexed m.target_cluster_id)) (λ c. refl)
          (inr (
            uuid d.drawn,
            refl,
            ground (
              arith,
              any-append (λ o. (o.id == uuid d.drawn) && scales_up m.app_id o.payload) d.operations
                  (up ∷ []),
              eq_iff (uuid d.drawn) (uuid d.drawn),
              eq_iff m.app_id m.app_id,
            ),
          )))

phase-IsDraft :
    {A : Type 0} (step : A → Draft → Draft)
    → ((x : A) (d : Draft) → IsDraft d → IsDraft (step x d))
    → (xs : List A) (d : Draft) → IsDraft d
    → IsDraft (phase step xs d)
unfolding phase
phase-IsDraft step keeps [] d h = h
phase-IsDraft step keeps (x ∷ xs) d h = phase-IsDraft step keeps xs (step x d) (keeps x d h)

-- Whatever is decided and whatever identifiers are drawn, each scale-up of the plan waits for exactly
-- the preemptions before it in its cluster, in their order; each scale-down waits for nothing, or for
-- one scale-up of its application that stands before it; and preemptions wait for nothing.
pub generate_plan-IsLinked :
    (uuid : ℕ → String) (drawn : ℕ) (decisions : PlacementDecisions)
    (migrations : List MigrateDecision)
    → IsLinked [] (generate_plan uuid drawn decisions migrations).operations
unfolding generate_plan preemption_ids IsLinked
generate_plan-IsLinked uuid drawn decisions migrations =
    let started : IsDraft (record { operations = []; cluster_preemption_ops = []; drawn = drawn }) =
      record { linked = tt; indexed = λ c. refl } in
    (phase-IsDraft (add_migration uuid) (add_migration-IsDraft uuid) migrations _ (
      phase-IsDraft (add_scale_up uuid) (add_scale_up-IsDraft uuid) decisions.scale_ups _ (
        phase-IsDraft (add_scale_down uuid) (add_scale_down-IsDraft uuid) decisions.scale_downs _ (
          phase-IsDraft (add_preemption uuid) (add_preemption-IsDraft uuid) decisions.preemptions _
            started)))).linked
