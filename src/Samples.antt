-- ===== src/Samples.antt =====
-- Data of a small installation, for the runs in Witnesses.antt: one cluster with two nodes, an
-- application of priority 1 and one of priority 2, which has a replica.
use schedulator.Prelude.{
  ℕ, ◌*◌, ℤ, pos, negsuc, 0ℤ, 1ℤ, ◌+ℤ◌, ◌-ℤ◌, ◌*ℤ◌, ltb_ℤ, eqb_ℤ, List, [], ◌∷◌, some,
  if◌then◌else◌,
}
use Prim.Native.Nat.{◌/◌}
use schedulator.Floats.{Float64}
use schedulator.Model.{
  Cluster, NodeStatus, ReplicaStatus, ReservationStatus, FailureDomainRule, Node, Application,
  Replica, VllmMetrics, GpuReservation,
}
use schedulator.Model.Plans.{
  ScaleUpDecision, PlacementDecisions, SchedulingConstraints, PreemptionDecision, OperationType,
  scaling_up, preempting, Operation,
}
use schedulator.WorldState.Snapshot.{Snapshot}
use schedulator.WorldState.Calls.{
  Call, upserts_node, upserts_replica, creates_reservation, fulfills_reservation, deletes_replica,
}

-- Thousandths in place of floats: the division and the product round towards zero.
abbrev pub quotient : ℤ → ℤ → ℤ
quotient (pos a) (pos b) = pos (a / b)
quotient (pos a) (negsuc b) = 0ℤ -ℤ pos (a / ℕ.suc b)
quotient (negsuc a) (pos b) = 0ℤ -ℤ pos (ℕ.suc a / b)
quotient (negsuc a) (negsuc b) = pos (ℕ.suc a / ℕ.suc b)

instance abbrev pub thousandths : Float64 ℤ
thousandths = record {
  of_int = λ n. n *ℤ pos 1000;
  literal = λ n d. pos (n * 1000 / d);
  add = λ a b. a +ℤ b;
  sub = λ a b. a -ℤ b;
  mul = λ a b. quotient (a *ℤ b) (pos 1000);
  div = λ a b. quotient (a *ℤ pos 1000) b;
  lt = ltb_ℤ;
  eq = eqb_ℤ;
  max_f = λ a b. if ltb_ℤ a b then b else a;
  min_f = λ a b. if ltb_ℤ a b then a else b;
  abs_f = λ a. if ltb_ℤ a 0ℤ then 0ℤ -ℤ a else a;
  ceil_int = λ a. quotient (a +ℤ pos 999) (pos 1000);
  to_int = λ a. quotient a (pos 1000);
}

abbrev pub node_1 : Node
node_1 = record {
  node_id = "n1";
  cluster_id = "c1";
  total_gpus = pos 8;
  allocated_gpus = 0ℤ;
  free_gpus = pos 8;
  pods = [];
  cached_models = [];
  status = NodeStatus.ready;
}

abbrev pub app_high : Application
app_high = record {
  app_id = "high";
  model_id = "m";
  gpus_per_replica = pos 2;
  priority = 1ℤ;
  min_replicas = 1ℤ;
  failure_domain_rule = FailureDomainRule.spread_clusters;
  sla = record { app_id = "high"; max_p99_ttft_ms = 0ℤ; max_p99_tps = 0ℤ };
}

abbrev pub app_low : Application
app_low = record app_high { app_id = "low"; priority = pos 2; min_replicas = 0ℤ }

abbrev pub replica_low : Replica
replica_low = record {
  replica_id = "r1";
  app_id = "low";
  cluster_id = "c1";
  node_id = "n1";
  gpus = pos 2;
  status = ReplicaStatus.running;
  created_at = 5;
}

abbrev pub reservation_1 : GpuReservation
reservation_1 = record {
  reservation_id = "v1";
  cluster_id = "c1";
  node_id = "";
  gpus = pos 2;
  for_app_id = "high";
  created_at = 5;
  ttl_seconds = pos 60;
  status = ReservationStatus.active;
}

-- A replica comes and goes, and a reservation is kept.
abbrev pub calls : List (Call ℤ)
calls =
    upserts_node node_1
    ∷ upserts_replica replica_low
    ∷ creates_reservation reservation_1
    ∷ fulfills_reservation "v1"
    ∷ deletes_replica "r1"
    ∷ []

-- A queue that calls for more replicas.
abbrev pub metrics_high : VllmMetrics ℤ
metrics_high = record {
  app_id = "high";
  aggregated_from = 1ℤ;
  avg_waiting_queue_depth = pos 20_000;
  max_waiting_queue_depth = pos 20_000;
  avg_running_queue_depth = pos 1000;
  avg_batch_utilization = pos 500;
  avg_kv_cache_utilization = pos 500;
  max_kv_cache_utilization = pos 500;
  total_tokens_per_second = pos 1000;
  avg_time_to_first_token_ms = pos 1000;
  p99_time_to_first_token_ms = pos 1000;
  measured_at = 5;
}

-- The replica holds two of the GPUs of the cluster, and some are free.
abbrev pub cluster_with : ℕ → Cluster ℤ
cluster_with free = record {
  cluster_id = "c1";
  nodes = some (("n1", record node_1 { allocated_gpus = pos 2; free_gpus = pos free }) ∷ []);
  fragmentation_score = 0ℤ;
}

abbrev pub snap_with : ℕ → Snapshot ℤ
snap_with free = record {
  clusters = ("c1", cluster_with free) ∷ [];
  applications = ("high", app_high) ∷ ("low", app_low) ∷ [];
  replicas = ("r1", replica_low) ∷ [];
  replicas_by_app = some (("low", replica_low ∷ []) ∷ []);
  cache_locations = [];
  performance_profiles = [];
  vllm_metrics = ("high", metrics_high) ∷ [];
  reservations = [];
  scaling_history = [];
  taken_at = 100;
}

abbrev pub constraints_2 : SchedulingConstraints
constraints_2 = record {
  required_gpus = pos 2;
  preferred_nodes = [];
  required_node_labels = [];
  preferred_node_labels = [];
  cache_affinity_model = "m";
}

abbrev pub victim_low : PreemptionDecision
victim_low = record {
  victim_replica_id = "r1";
  victim_app_id = "low";
  node_id = "n1";
  cluster_id = "c1";
  grace_period_seconds = pos 30;
  reason = ("", pos 2);
}

abbrev pub up_high : ScaleUpDecision
up_high = record {
  app_id = "high";
  cluster_id = "c1";
  reservation_id = "v1";
  scheduling_constraints = constraints_2;
}

abbrev pub two_decisions : PlacementDecisions
two_decisions = record {
  scale_ups = up_high ∷ [];
  scale_downs = [];
  preemptions = victim_low ∷ [];
  reservations = reservation_1 ∷ [];
}

-- A preemption, and a scale-up that waits for it.
abbrev pub two_operations : List Operation
two_operations =
    record {
      id = "o1";
      type = OperationType.preempt;
      payload = preempting victim_low;
      depends_on = [];
    }
    ∷ record {
      id = "o2";
      type = OperationType.scale_up;
      payload = scaling_up record {
        app_id = "high";
        cluster_id = "c1";
        reservation_id = "v1";
        scheduling_constraints = constraints_2;
      };
      depends_on = "o1" ∷ [];
    }
    ∷ []
