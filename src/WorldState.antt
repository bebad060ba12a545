-- ===== src/WorldState.antt =====
-- internal/worldstate/worldstate.go: the in-memory state and its operations. Each operation holds
-- the lock from its first to its last line, so it is a function from state to state. The gauges
-- that the operations keep are part of the state; log lines are not.

pub mod Calls
pub mod Snapshot
pub mod Reservations
pub mod Leaving
use schedulator.Prelude.{
  ℕ, ℤ, pos, 0ℤ, 1ℤ, ◌+ℤ◌, ◌-ℤ◌, ltb_ℤ, leb_ℤ, eqb_ℤ, String, ◌==◌, Bool, true, false, not, ◌&&◌,
  List, [], ◌∷◌, ◌++◌, Option, none, some, or_else, Map, lookup, insert, delete, values, counter,
  add_at, length, any, sum_by, if◌then◌else◌,
}
use schedulator.Floats.{Float64}
use schedulator.Model.{
  Time, Duration, time_sub, seconds, NodeStatus, ReplicaStatus, ReservationStatus, is_ready,
  is_active, status_eq, Node, Cluster, Application, Replica, CacheLocation, PerformanceProfile,
  VllmMetrics, GpuReservation, ScalingHistory,
}

pub record WorldState (F : Type 0) : Type 0 where
  pub clusters : Map (Cluster F)
  pub applications : Map Application
  pub replicas : Map Replica
  pub cache_locations : Map (List CacheLocation)
  pub performance_profiles : Map (PerformanceProfile F)
  pub vllm_metrics : Map (VllmMetrics F)
  pub reservations : Map GpuReservation
  pub scaling_history : Map ScalingHistory
  pub clusters_gauge : ℤ
  pub replicas_gauge : ReplicaStatus → ℤ
  pub reservations_gauge : ℤ

-- The errors of the reservation operations.
pub data Error : Type 0 where
  already_exists not_found : String → Error
  not_active : String → ReservationStatus → Error

-- A nil map of nodes reads as an empty one.
abbrev pub node_map : {F : Type 0} → Cluster F → Map Node
node_map c = or_else c.nodes []

abbrev pub bump : ReplicaStatus → ℤ → (ReplicaStatus → ℤ) → ReplicaStatus → ℤ
bump s n g t = if status_eq s t then g t +ℤ n else g t

abbrev pub forget : Option Replica → (ReplicaStatus → ℤ) → ReplicaStatus → ℤ
forget none g = g
forget (some old) g = bump old.status (0ℤ -ℤ 1ℤ) g

-- The first occurrence goes.
unfoldable pub remove_from_slice : List String → String → List String
remove_from_slice [] val = []
remove_from_slice (v ∷ s) val = if v == val then s else v ∷ remove_from_slice s val

-- 1.0 - free / capacity; `compute_fragmentation` of a nil map is that of an empty one.
module _ {F : Type 0} ⦃fl : Float64 F⦄ where
  unfoldable pub free_ratio : ℤ → ℤ → F
  free_ratio free capacity =
      if eqb_ℤ capacity 0ℤ
      then fl.of_int 0ℤ
      else fl.sub (fl.of_int 1ℤ) (fl.div (fl.of_int free) (fl.of_int capacity))

  unfoldable pub compute_fragmentation : Map Node → F
  unfolding free_ratio
  compute_fragmentation nodes =
      free_ratio (sum_by (λ n. n.free_gpus) (values nodes))
        (sum_by (λ n. n.total_gpus) (values nodes))

unfoldable pub empty : {F : Type 0} → WorldState F
empty = record {
  clusters = [];
  applications = [];
  replicas = [];
  cache_locations = [];
  performance_profiles = [];
  vllm_metrics = [];
  reservations = [];
  scaling_history = [];
  clusters_gauge = 0ℤ;
  replicas_gauge = λ s. 0ℤ;
  reservations_gauge = 0ℤ;
}

-- The node entry of a replica after it leaves and after it joins.
abbrev pub vacate : Replica → Node → Node
vacate r n = record n {
  allocated_gpus = n.allocated_gpus -ℤ r.gpus;
  free_gpus = n.free_gpus +ℤ r.gpus;
  pods = remove_from_slice n.pods r.replica_id;
}

abbrev pub occupy : Replica → Node → Node
occupy r n = record n {
  allocated_gpus = n.allocated_gpus +ℤ r.gpus;
  free_gpus = n.free_gpus -ℤ r.gpus;
  pods = n.pods ++ r.replica_id ∷ [];
}

module _ {F : Type 0} where
  -- What `restoreNodeGPUs` and `allocateNodeGPUs` share: nothing happens without cluster and node.
  unfoldable pub at_node : (Node → Node) → Replica → Map (Cluster F) → Map (Cluster F)
  at_node f r clusters = elim (lookup r.cluster_id clusters) [
    | none ↦ clusters
    | some c ↦ elim (lookup r.node_id (node_map c)) [
      | none ↦ clusters
      | some n ↦
          insert r.cluster_id (record c { nodes = some (insert r.node_id (f n) (node_map c)) })
            clusters
    ]
  ]

  unfoldable pub restore_node_gpus : Replica → Map (Cluster F) → Map (Cluster F)
  unfolding at_node
  restore_node_gpus r = at_node (vacate r) r

  unfoldable pub allocate_node_gpus : Replica → Map (Cluster F) → Map (Cluster F)
  unfolding at_node
  allocate_node_gpus r = at_node (occupy r) r

-- A replica that is new, or that moves to another node.
abbrev pub moves : Option Replica → Replica → Bool
moves none r = true
moves (some old) r = if old.node_id == r.node_id then not (old.cluster_id == r.cluster_id) else true

module _ {F : Type 0} ⦃fl : Float64 F⦄ where
  -- The score of one cluster, computed anew; a missing cluster stays missing.
  unfoldable pub rescore : String → Map (Cluster F) → Map (Cluster F)
  rescore id clusters = elim (lookup id clusters) [
    | none ↦ clusters
    | some c ↦
        insert id (record c { fragmentation_score = compute_fragmentation (node_map c) }) clusters
  ]

  unfoldable pub upsert_node : Node → WorldState F → WorldState F
  upsert_node n ws =
      let c =
        or_else (lookup n.cluster_id ws.clusters) (record {
          cluster_id = n.cluster_id;
          nodes = none;
          fragmentation_score = fl.of_int 0ℤ;
        }) in
      let nodes = insert n.node_id n (node_map c) in
      let clusters =
        insert n.cluster_id
          (record c { nodes = some nodes; fragmentation_score = compute_fragmentation nodes })
          ws.clusters in
      record ws { clusters = clusters; clusters_gauge = pos (length clusters) }

  unfoldable pub remove_node : String → String → WorldState F → WorldState F
  remove_node cluster_id node_id ws = elim (lookup cluster_id ws.clusters) [
    | none ↦ ws
    | some c ↦ elim c.nodes [
      | none ↦ ws
      | some m ↦
          let nodes = delete node_id m in
          record ws {
            clusters =
                insert cluster_id
                  (record c {
                    nodes = some nodes;
                    fragmentation_score = compute_fragmentation nodes;
                  })
                  ws.clusters;
          }
    ]
  ]

  -- What becomes of the node and the cluster that a replica was on before.
  abbrev pub leave : Option Replica → Replica → Map (Cluster F) → Map (Cluster F)
  leave none r clusters = clusters
  leave (some old) r clusters =
      if moves (some old) r then restore_node_gpus old clusters else clusters

  abbrev pub rescore_old : Option Replica → Replica → Map (Cluster F) → Map (Cluster F)
  rescore_old none r clusters = clusters
  rescore_old (some old) r clusters =
      if old.cluster_id == r.cluster_id then clusters else rescore old.cluster_id clusters

  abbrev pub place : Option Replica → Replica → Map (Cluster F) → Map (Cluster F)
  place old r clusters = if moves old r then allocate_node_gpus r clusters else clusters

  unfoldable pub upsert_replica : Replica → WorldState F → WorldState F
  upsert_replica r ws =
      let old = lookup r.replica_id ws.replicas in
      let allocated = place old r (leave old r ws.clusters) in
      record ws {
        clusters = rescore_old old r (rescore r.cluster_id allocated);
        replicas = insert r.replica_id r ws.replicas;
        replicas_gauge = bump r.status 1ℤ (forget old ws.replicas_gauge);
      }

  unfoldable pub delete_replica : String → WorldState F → WorldState F
  delete_replica id ws = elim (lookup id ws.replicas) [
    | none ↦ ws
    | some r ↦ record ws {
      clusters = rescore r.cluster_id (restore_node_gpus r ws.clusters);
      replicas = delete id ws.replicas;
      replicas_gauge = bump r.status (0ℤ -ℤ 1ℤ) ws.replicas_gauge;
    }
  ]

module _ {F : Type 0} where
  unfoldable pub upsert_cluster : Cluster F → WorldState F → WorldState F
  upsert_cluster c ws =
      let clusters = insert c.cluster_id c ws.clusters in
      record ws { clusters = clusters; clusters_gauge = pos (length clusters) }

  unfoldable pub upsert_application : Application → WorldState F → WorldState F
  upsert_application app ws = record ws { applications = insert app.app_id app ws.applications }

  unfoldable pub upsert_performance_profile : PerformanceProfile F → WorldState F → WorldState F
  upsert_performance_profile p ws = record ws {
    performance_profiles = insert p.app_id p ws.performance_profiles;
  }

  unfoldable pub update_vllm_metrics : VllmMetrics F → WorldState F → WorldState F
  update_vllm_metrics m ws = record ws { vllm_metrics = insert m.app_id m ws.vllm_metrics }

  unfoldable pub update_cache_locations : String → List CacheLocation → WorldState F → WorldState F
  update_cache_locations model_id locs ws = record ws {
    cache_locations = insert model_id locs ws.cache_locations;
  }

  -- The operations on reservations return the error that the source returns.
  unfoldable pub create_reservation : GpuReservation → WorldState F → WorldState F × Option Error
  create_reservation r ws = elim (lookup r.reservation_id ws.reservations) [
    | some old ↦ (ws, some (already_exists r.reservation_id))
    | none ↦ (
      record ws {
        reservations = insert r.reservation_id r ws.reservations;
        reservations_gauge =
            if is_active r.status then ws.reservations_gauge +ℤ 1ℤ else ws.reservations_gauge;
      },
      none,
    )
  ]

  -- The shared body of FulfillReservation and ExpireReservation.
  unfoldable pub close_reservation :
      ReservationStatus → String → WorldState F → WorldState F × Option Error
  close_reservation status id ws = elim (lookup id ws.reservations) [
    | none ↦ (ws, some (not_found id))
    | some r ↦
        if is_active r.status
        then (
          record ws {
            reservations = insert id (record r { status = status }) ws.reservations;
            reservations_gauge = ws.reservations_gauge -ℤ 1ℤ;
          },
          none,
        )
        else (ws, some (not_active id r.status))
  ]

  unfoldable pub fulfill_reservation : String → WorldState F → WorldState F × Option Error
  unfolding close_reservation
  fulfill_reservation = close_reservation ReservationStatus.fulfilled

  unfoldable pub expire_reservation : String → WorldState F → WorldState F × Option Error
  unfolding close_reservation
  expire_reservation = close_reservation ReservationStatus.expired

-- Sums that the readers and the placement engine share.
unfoldable pub free_gpus_of : Map Node → ℤ
free_gpus_of nodes = sum_by (λ n. if is_ready n.status then n.free_gpus else 0ℤ) (values nodes)

abbrev pub holds : String → GpuReservation → Bool
holds cluster_id r = r.cluster_id == cluster_id && is_active r.status

unfoldable pub reserved_gpus : String → Map GpuReservation → ℤ
reserved_gpus cluster_id m = sum_by (λ r. if holds cluster_id r then r.gpus else 0ℤ) (values m)

-- The GPUs that node-scoped reservations of a cluster hold, by node.
unfoldable pub node_reserved : String → Map GpuReservation → Map ℤ → Map ℤ
node_reserved cluster_id [] acc = acc
node_reserved cluster_id ((id, r) ∷ m) acc =
    node_reserved cluster_id m
      (if holds cluster_id r && not (r.node_id == "") then add_at r.node_id r.gpus acc else acc)

-- ExpireStaleReservations: the test of one entry, the sweep, and the number of entries swept.
unfoldable pub is_stale : Time → GpuReservation → Bool
is_stale now r =
    if is_active r.status then leb_ℤ (seconds r.ttl_seconds) (time_sub now r.created_at) else false

unfoldable pub sweep : Time → Map GpuReservation → Map GpuReservation
sweep now [] = []
sweep now ((id, r) ∷ m) =
    (id, if is_stale now r then record r { status = ReservationStatus.expired } else r)
    ∷ sweep now m

unfoldable pub stale_count : Time → Map GpuReservation → ℕ
stale_count now [] = 0
stale_count now ((id, r) ∷ m) =
    let rest = stale_count now m in if is_stale now r then ℕ.suc rest else rest

unfoldable pub expire_stale_reservations : {F : Type 0} → Time → WorldState F → WorldState F × ℕ
expire_stale_reservations now ws = (
  record ws {
    reservations = sweep now ws.reservations;
    reservations_gauge = ws.reservations_gauge -ℤ pos (stale_count now ws.reservations);
  },
  stale_count now ws.reservations,
)

-- The zero value that a missing entry of the history reads as.
abbrev pub no_history : ScalingHistory
no_history = record {
  app_id = "";
  last_scale_up_at = 0;
  last_scale_down_at = 0;
  consecutive_scale_down_signals = 0ℤ;
}

-- RecordScaleEvent takes its direction as a text.
unfoldable pub record_event : String → String → Time → ScalingHistory → ScalingHistory
record_event app_id direction at h =
    if direction == "up"
    then record h { app_id = app_id; last_scale_up_at = at; consecutive_scale_down_signals = 0ℤ }
    else if direction == "down"
    then record h {
      app_id = app_id;
      last_scale_down_at = at;
      consecutive_scale_down_signals = h.consecutive_scale_down_signals +ℤ 1ℤ;
    }
    else record h { app_id = app_id }

module _ {F : Type 0} where
  unfoldable pub record_scale_event : String → String → Time → WorldState F → WorldState F
  record_scale_event app_id direction at ws = record ws {
    scaling_history =
        insert app_id
          (record_event app_id direction at (or_else (lookup app_id ws.scaling_history) no_history))
          ws.scaling_history;
  }

  unfoldable pub increment_scale_down_signal : String → WorldState F → WorldState F
  increment_scale_down_signal app_id ws =
      let h = or_else (lookup app_id ws.scaling_history) no_history in
      record ws {
        scaling_history =
            insert app_id
              (record h {
                app_id = app_id;
                consecutive_scale_down_signals = h.consecutive_scale_down_signals +ℤ 1ℤ;
              })
              ws.scaling_history;
      }

  -- The readers. GPUs of the ready nodes, less those of the active reservations, at least 0.
  unfoldable pub available_gpus : String → WorldState F → ℤ
  available_gpus cluster_id ws = elim (lookup cluster_id ws.clusters) [
    | none ↦ 0ℤ
    | some c ↦
        let result = free_gpus_of (node_map c) -ℤ reserved_gpus cluster_id ws.reservations in
        if ltb_ℤ result 0ℤ then 0ℤ else result
  ]

  unfoldable pub has_contiguous_gpus : String → ℤ → WorldState F → Bool
  has_contiguous_gpus cluster_id needed ws = elim (lookup cluster_id ws.clusters) [
    | none ↦ false
    | some c ↦
        any
          (λ n.
            is_ready n.status
            && leb_ℤ needed
                (n.free_gpus -ℤ counter n.node_id (node_reserved cluster_id ws.reservations [])))
          (values (node_map c))
  ]
