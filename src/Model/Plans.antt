-- ===== src/Model/Plans.antt =====
-- pkg/model: events, decisions, plans and results.
use schedulator.Prelude.{ℤ, String, List, Map}
use schedulator.Model.{Time, GpuReservation}

-- pkg/model/events.go
pub data ClusterEventKind : Type 0 where
  node_down node_up pod_terminated pod_running : ClusterEventKind

pub record ClusterEvent : Type 0 where
  pub kind : ClusterEventKind
  pub cluster_id : String
  pub node_id : String
  pub replica_id : String
  pub app_id : String
  pub gpus : ℤ
  pub total_gpus : ℤ
  pub timestamp : Time

-- pkg/model/constraints.go
pub record SchedulingConstraints : Type 0 where
  pub required_gpus : ℤ
  pub preferred_nodes : List String
  pub required_node_labels : Map String
  pub preferred_node_labels : Map String
  pub cache_affinity_model : String

-- pkg/model/decisions.go
pub record ScaleUpDecision : Type 0 where
  pub app_id : String
  pub cluster_id : String
  pub reservation_id : String
  pub scheduling_constraints : SchedulingConstraints

pub record ScaleDownDecision : Type 0 where
  pub app_id : String
  pub replica_id : String

pub record PreemptionDecision : Type 0 where
  pub victim_replica_id : String
  pub victim_app_id : String
  pub node_id : String
  pub cluster_id : String
  pub grace_period_seconds : ℤ
  -- The application and the priority that the reason's text is formatted from.
  pub reason : String × ℤ

pub record PreemptionPlan : Type 0 where
  pub victims : List PreemptionDecision
  pub target_cluster : String
  pub constraints : SchedulingConstraints

pub record PlacementDecisions : Type 0 where
  pub scale_ups : List ScaleUpDecision
  pub scale_downs : List ScaleDownDecision
  pub preemptions : List PreemptionDecision
  pub reservations : List GpuReservation

-- pkg/model/plan.go
pub record MigrateDecision : Type 0 where
  pub app_id : String
  pub source_replica_id : String
  pub target_cluster_id : String
  pub scheduling_constraints : SchedulingConstraints

pub data OperationType : Type 0 where
  preempt scale_down scale_up migrate : OperationType

-- The payloads that the program stores in the field of type `any`.
pub data Payload : Type 0 where
  scaling_up : ScaleUpDecision → Payload
  scaling_down : ScaleDownDecision → Payload
  preempting : PreemptionDecision → Payload
  unsupported : Payload

pub record Operation : Type 0 where
  pub id : String
  pub type : OperationType
  pub payload : Payload
  pub depends_on : List String

-- pkg/model/result.go, over the type of errors of an executor.
pub record FailedOp (E : Type 0) : Type 0 where
  pub operation_id : String
  pub type : OperationType
  pub err : E

pub record ExecutionResult (E : Type 0) : Type 0 where
  pub completed : List String
  pub failed : List (FailedOp E)
  pub aborted : List String
