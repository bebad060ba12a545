-- ===== src/PlanGen.antt =====
-- internal/plangen/generator.go: from decisions to a plan of operations with dependencies. Metrics,
-- spans and logs are not modelled; `uuid` gives the n-th identifier that google/uuid draws.
pub mod Links
pub mod Contents
pub mod Execution
use schedulator.Prelude.{ℕ, suc, String, List, [], ◌∷◌, ◌++◌, Map, listed, append_at}
use schedulator.Model.Plans.{
  ScaleUpDecision, ScaleDownDecision, PreemptionDecision, PlacementDecisions, MigrateDecision,
  OperationType, scaling_up, scaling_down, preempting, Operation,
}

-- The variables of GeneratePlan: the operations so far, the identifiers of the preemptions by cluster,
-- and how many identifiers have been drawn.
pub record Draft : Type 0 where
  pub operations : List Operation
  pub cluster_preemption_ops : Map (List String)
  pub drawn : ℕ

module _ (uuid : ℕ → String) where
  unfoldable pub add_preemption : PreemptionDecision → Draft → Draft
  add_preemption p d = record {
    operations =
        d.operations
        ++ record {
          id = uuid d.drawn;
          type = OperationType.preempt;
          payload = preempting p;
          depends_on = [];
        }
          ∷ [];
    cluster_preemption_ops = append_at p.cluster_id (uuid d.drawn) d.cluster_preemption_ops;
    drawn = suc d.drawn;
  }

  unfoldable pub add_scale_down : ScaleDownDecision → Draft → Draft
  add_scale_down sd d = record d {
    operations =
        d.operations
        ++ record {
          id = uuid d.drawn;
          type = OperationType.scale_down;
          payload = scaling_down sd;
          depends_on = [];
        }
          ∷ [];
    drawn = suc d.drawn;
  }

  unfoldable pub add_scale_up : ScaleUpDecision → Draft → Draft
  add_scale_up su d = record d {
    operations =
        d.operations
        ++ record {
          id = uuid d.drawn;
          type = OperationType.scale_up;
          payload = scaling_up su;
          depends_on = listed su.cluster_id d.cluster_preemption_ops;
        }
          ∷ [];
    drawn = suc d.drawn;
  }

  -- The pair that a migration stands for; its scale-up has no reservation.
  unfoldable pub add_migration : MigrateDecision → Draft → Draft
  add_migration m d = record d {
    operations =
        d.operations
        ++ record {
          id = uuid d.drawn;
          type = OperationType.scale_up;
          payload = scaling_up record {
            app_id = m.app_id;
            cluster_id = m.target_cluster_id;
            reservation_id = "";
            scheduling_constraints = m.scheduling_constraints;
          };
          depends_on = listed m.target_cluster_id d.cluster_preemption_ops;
        }
          ∷ record {
            id = uuid (suc d.drawn);
            type = OperationType.scale_down;
            payload = scaling_down record { app_id = m.app_id; replica_id = m.source_replica_id };
            depends_on = uuid d.drawn ∷ [];
          }
          ∷ [];
    drawn = suc (suc d.drawn);
  }

-- One phase: a step for each decision, in order.
unfoldable pub phase : {A : Type 0} → (A → Draft → Draft) → List A → Draft → Draft
phase step [] d = d
phase step (x ∷ xs) d = phase step xs (step x d)

unfoldable pub generate_plan : (ℕ → String) → ℕ → PlacementDecisions → List MigrateDecision → Draft
unfolding phase add_preemption add_scale_down add_scale_up add_migration
generate_plan uuid drawn decisions migrations =
    let start : Draft = record { operations = []; cluster_preemption_ops = []; drawn = drawn } in
    let preempted = phase (add_preemption uuid) decisions.preemptions start in
    let scaled_down = phase (add_scale_down uuid) decisions.scale_downs preempted in
    let scaled_up = phase (add_scale_up uuid) decisions.scale_ups scaled_down in
    phase (add_migration uuid) migrations scaled_up
