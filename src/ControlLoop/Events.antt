-- ===== src/ControlLoop/Events.antt =====
-- internal/controlloop/loop.go: how ingested events and scaling decisions change the world state.
use schedulator.Prelude.{String, ◌==◌, List, [], ◌∷◌, none, some, Map, if◌then◌else◌, 0ℤ}
use schedulator.Floats.{Float64}
use schedulator.Model.{NodeStatus, ReplicaStatus, Node, Replica}
use schedulator.Model.Plans.{ClusterEvent, ClusterEventKind}
use schedulator.WorldState.{
  WorldState, upsert_node, remove_node, upsert_replica, delete_replica, update_vllm_metrics,
  upsert_application, record_scale_event, increment_scale_down_signal,
}
use schedulator.Scaling.{ScalingDecision, direction_text}
use schedulator.Ingestion.{Event, EventKind}

abbrev pub node_of : ClusterEvent → Node
node_of ce = record {
  node_id = ce.node_id;
  cluster_id = ce.cluster_id;
  total_gpus = ce.total_gpus;
  allocated_gpus = 0ℤ;
  free_gpus = ce.total_gpus;
  pods = [];
  cached_models = [];
  status = NodeStatus.ready;
}

abbrev pub replica_of : ClusterEvent → Replica
replica_of ce = record {
  replica_id = ce.replica_id;
  app_id = ce.app_id;
  cluster_id = ce.cluster_id;
  node_id = ce.node_id;
  gpus = ce.gpus;
  status = ReplicaStatus.running;
  created_at = ce.timestamp;
}

module _ {F : Type 0} ⦃fl : Float64 F⦄ where
  unfoldable pub apply_cluster_event : ClusterEvent → WorldState F → WorldState F
  apply_cluster_event ce ws = elim ce.kind [
    | ClusterEventKind.node_up ↦ upsert_node (node_of ce) ws
    | ClusterEventKind.node_down ↦ remove_node ce.cluster_id ce.node_id ws
    | ClusterEventKind.pod_running ↦
        if ce.replica_id == "" then ws else upsert_replica (replica_of ce) ws
    | ClusterEventKind.pod_terminated ↦
        if ce.replica_id == "" then ws else delete_replica ce.replica_id ws
  ]

  -- One turn of the loop of applyEvents.
  unfoldable pub apply_event : Event F → WorldState F → WorldState F
  unfolding apply_cluster_event
  apply_event ev ws = elim ev.kind [
    | EventKind.metrics_update ↦ elim ev.vllm_metrics [
      | none ↦ ws
      | some m ↦ update_vllm_metrics m ws
    ]
    | EventKind.cluster_event ↦ elim ev.cluster_event [
      | none ↦ ws
      | some ce ↦ apply_cluster_event ce ws
    ]
    | EventKind.app_config_update ↦ elim ev.application [
      | none ↦ ws
      | some app ↦ upsert_application app ws
    ]
    | EventKind.periodic_eval ↦ ws
    | EventKind.sla_breach ↦ ws
  ]

  unfoldable pub apply_events : List (Event F) → WorldState F → WorldState F
  unfolding apply_event
  apply_events [] ws = ws
  apply_events (ev ∷ evs) ws = apply_events evs (apply_event ev ws)

module _ {F : Type 0} where
  -- One turn of the loop of applyScalingDecisions.
  unfoldable pub apply_scaling_decision : String → ScalingDecision → WorldState F → WorldState F
  apply_scaling_decision app_id d ws =
      if d.scale_action_approved
      then record_scale_event app_id (direction_text d.direction) d.action_at ws
      else if d.scale_down_signal_observed
      then increment_scale_down_signal app_id ws
      else ws

  unfoldable pub apply_scaling_decisions : Map ScalingDecision → WorldState F → WorldState F
  unfolding apply_scaling_decision
  apply_scaling_decisions [] ws = ws
  apply_scaling_decisions ((app_id, d) ∷ m) ws =
      apply_scaling_decisions m (apply_scaling_decision app_id d ws)
