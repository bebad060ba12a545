-- ===== src/Model.antt =====
-- pkg/model: the domain types. Identifiers are texts, as in the source; an `int` is an unbounded
-- integer; a time is the number of nanoseconds since Go's zero time; a map that may be nil is an
-- option. `F` is the type of floats.
pub mod Plans
use schedulator.Prelude.{
  ℕ, zero, suc, ℤ, pos, 0ℤ, sub_ℕ, ◌*ℤ◌, String, Bool, true, false, List, Option, Map,
}

abbrev pub Time : Type 0
Time = ℕ

abbrev pub Duration : Type 0
Duration = ℤ

-- time.Time.IsZero and time.Time.Sub.
abbrev pub is_zero_time : Time → Bool
is_zero_time t = elim t [ zero ↦ true | suc n ↦ false ]

abbrev pub time_sub : Time → Time → Duration
time_sub now t = sub_ℕ now t

-- time.Duration(n) * time.Second.
unfoldable pub seconds : ℤ → Duration
seconds n = n *ℤ pos 1_000_000_000

pub data NodeStatus : Type 0 where
  ready cordoned draining down : NodeStatus

pub data ReplicaStatus : Type 0 where
  pending running draining terminated : ReplicaStatus

pub data CacheTier : Type 0 where
  gpu_memory local_nvme cluster_storage : CacheTier

pub data FailureDomainRule : Type 0 where
  spread_clusters none_rule : FailureDomainRule

pub data ReservationStatus : Type 0 where
  active fulfilled expired : ReservationStatus

abbrev pub is_ready : NodeStatus → Bool
is_ready NodeStatus.ready = true
is_ready _ = false

abbrev pub is_active : ReservationStatus → Bool
is_active ReservationStatus.active = true
is_active _ = false

-- Equality of replica statuses.
abbrev pub status_eq : ReplicaStatus → ReplicaStatus → Bool
status_eq ReplicaStatus.pending ReplicaStatus.pending = true
status_eq ReplicaStatus.running ReplicaStatus.running = true
status_eq ReplicaStatus.draining ReplicaStatus.draining = true
status_eq ReplicaStatus.terminated ReplicaStatus.terminated = true
status_eq _ _ = false

-- `status == Running || status == Pending`.
abbrev pub is_live : ReplicaStatus → Bool
is_live ReplicaStatus.running = true
is_live ReplicaStatus.pending = true
is_live _ = false

pub record Node : Type 0 where
  pub node_id : String
  pub cluster_id : String
  pub total_gpus : ℤ
  pub allocated_gpus : ℤ
  pub free_gpus : ℤ
  pub pods : List String
  pub cached_models : List String
  pub status : NodeStatus

pub record Cluster (F : Type 0) : Type 0 where
  pub cluster_id : String
  pub nodes : Option (Map Node)
  pub fragmentation_score : F

pub record Sla : Type 0 where
  pub app_id : String
  pub max_p99_ttft_ms : ℤ
  pub max_p99_tps : ℤ

pub record Application : Type 0 where
  pub app_id : String
  pub model_id : String
  pub gpus_per_replica : ℤ
  pub priority : ℤ
  pub min_replicas : ℤ
  pub failure_domain_rule : FailureDomainRule
  pub sla : Sla

pub record Replica : Type 0 where
  pub replica_id : String
  pub app_id : String
  pub cluster_id : String
  pub node_id : String
  pub gpus : ℤ
  pub status : ReplicaStatus
  pub created_at : Time

pub record CacheLocation : Type 0 where
  pub model_id : String
  pub cluster_id : String
  pub node_id : String
  pub tier : CacheTier
  pub cached_at : Time

pub record PerformanceProfile (F : Type 0) : Type 0 where
  pub app_id : String
  pub tps_per_replica : F
  pub ttft_p99_ms : F
  pub cold_start_seconds : F
  pub warm_start_seconds : F

pub record VllmMetrics (F : Type 0) : Type 0 where
  pub app_id : String
  pub aggregated_from : ℤ
  pub avg_waiting_queue_depth : F
  pub max_waiting_queue_depth : F
  pub avg_running_queue_depth : F
  pub avg_batch_utilization : F
  pub avg_kv_cache_utilization : F
  pub max_kv_cache_utilization : F
  pub total_tokens_per_second : F
  pub avg_time_to_first_token_ms : F
  pub p99_time_to_first_token_ms : F
  pub measured_at : Time

pub record GpuReservation : Type 0 where
  pub reservation_id : String
  pub cluster_id : String
  pub node_id : String
  pub gpus : ℤ
  pub for_app_id : String
  pub created_at : Time
  pub ttl_seconds : ℤ
  pub status : ReservationStatus

pub record ScalingHistory : Type 0 where
  pub app_id : String
  pub last_scale_up_at : Time
  pub last_scale_down_at : Time
  pub consecutive_scale_down_signals : ℤ
