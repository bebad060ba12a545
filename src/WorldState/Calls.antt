-- ===== src/WorldState/Calls.antt =====
-- The exported mutators of internal/worldstate/worldstate.go as one type of calls, and the bookkeeping
-- of the gauges and of the GPUs of nodes as a predicate on states.
pub mod Balance
pub mod Gauges
pub mod Clusters
pub mod Consistent
pub mod Closed
use schedulator.Prelude.{
  ℕ, ◌+◌, ℤ, pos, 0ℤ, 1ℤ, ◌+ℤ◌, ◌-ℤ◌, +ℤ_parts, -ℤ_parts, eq_of_parts, parts_of_eq, int_laws, ◌≡◌,
  refl, length, String, ◌==◌, Bool, true, false, List, [], ◌∷◌, Option, none, some, or_else, Map,
  lookup, insert, delete, IsMap, insert-IsMap, delete-IsMap, count_values, weight, count-insert,
  count-delete, AllValues, AllValues-insert, AllValues-delete, AllValues-lookup, if◌then◌else◌,
  arith, Option-cases, inl, inr, Bool-cases,
}
use schedulator.Floats.{Float64}
use schedulator.Model.{
  Time, ReplicaStatus, status_eq, ReservationStatus, is_active, Node, Cluster, Application, Replica,
  CacheLocation, PerformanceProfile, VllmMetrics, GpuReservation,
}
use schedulator.WorldState.{
  WorldState, node_map, empty, bump, forget, vacate, occupy, at_node, restore_node_gpus,
  allocate_node_gpus, rescore, rescore_old, leave, place, moves, upsert_cluster, upsert_node,
  remove_node, upsert_application, upsert_performance_profile, upsert_replica, delete_replica,
  update_vllm_metrics, update_cache_locations, create_reservation, close_reservation,
  fulfill_reservation, expire_reservation, record_scale_event, increment_scale_down_signal,
  is_stale, sweep, stale_count, expire_stale_reservations,
}

pub data Call (F : Type 0) : Type 0 where
  upserts_cluster : Cluster F → Call F
  upserts_node : Node → Call F
  removes_node : String → String → Call F
  upserts_application : Application → Call F
  upserts_profile : PerformanceProfile F → Call F
  upserts_replica : Replica → Call F
  deletes_replica : String → Call F
  updates_metrics : VllmMetrics F → Call F
  updates_cache : String → List CacheLocation → Call F
  creates_reservation : GpuReservation → Call F
  fulfills_reservation : String → Call F
  expires_reservation : String → Call F
  records_scale_event : String → String → Time → Call F
  increments_signal : String → Call F
  expires_stale : Time → Call F

module _ {F : Type 0} ⦃fl : Float64 F⦄ where
  unfoldable pub apply : Call F → WorldState F → WorldState F
  apply (upserts_cluster c) ws = upsert_cluster c ws
  apply (upserts_node n) ws = upsert_node n ws
  apply (removes_node c n) ws = remove_node c n ws
  apply (upserts_application app) ws = upsert_application app ws
  apply (upserts_profile p) ws = upsert_performance_profile p ws
  apply (upserts_replica r) ws = upsert_replica r ws
  apply (deletes_replica id) ws = delete_replica id ws
  apply (updates_metrics m) ws = update_vllm_metrics m ws
  apply (updates_cache model locs) ws = update_cache_locations model locs ws
  apply (creates_reservation r) ws = (create_reservation r ws).0
  apply (fulfills_reservation id) ws = (fulfill_reservation id ws).0
  apply (expires_reservation id) ws = (expire_reservation id ws).0
  apply (records_scale_event app dir at) ws = record_scale_event app dir at ws
  apply (increments_signal app) ws = increment_scale_down_signal app ws
  apply (expires_stale now) ws = (expire_stale_reservations now ws).0

  unfoldable pub run : List (Call F) → WorldState F → WorldState F
  unfolding apply
  run [] ws = ws
  run (c ∷ cs) ws = run cs (apply c ws)

-- Free and allocated GPUs make up the node.
abbrev pub IsBalanced : Node → Type 0
IsBalanced n = n.allocated_gpus +ℤ n.free_gpus ≡ n.total_gpus

abbrev pub AreBalanced : {F : Type 0} → Cluster F → Type 0
AreBalanced c = AllValues IsBalanced (node_map c)

-- Nodes come in balanced.
abbrev pub IsAdmissible : {F : Type 0} → Call F → Type 0
IsAdmissible (upserts_cluster c) = AreBalanced c
IsAdmissible (upserts_node n) = IsBalanced n
IsAdmissible _ = Unit

abbrev pub AreAdmissible : {F : Type 0} → List (Call F) → Type 0
AreAdmissible [] = Unit
AreAdmissible (c ∷ cs) = IsAdmissible c × AreAdmissible cs

pub record IsConsistent {F : Type 0} (ws : WorldState F) : Type 0 where
  pub replicas_map : IsMap ws.replicas
  pub reservations_map : IsMap ws.reservations
  pub clusters_counted : ws.clusters_gauge ≡ pos (length ws.clusters)
  pub reservations_counted :
      ws.reservations_gauge ≡ pos (count_values (λ r. is_active r.status) ws.reservations)
  pub replicas_counted :
      (s : ReplicaStatus)
      → ws.replicas_gauge s ≡ pos (count_values (λ r. status_eq r.status s) ws.replicas)
  pub balanced : AllValues AreBalanced ws.clusters
