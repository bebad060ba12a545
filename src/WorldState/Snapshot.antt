-- ===== src/WorldState/Snapshot.antt =====
-- internal/worldstate/snapshot.go and internal/engine/engineutil/replicas.go. Values are never
-- changed in place in the model, so a deep copy is the value itself.
use schedulator.Prelude.{
  ℤ, pos, ◌≡◌, refl, ap, ◌∙◌, String, ◌==◌, eq_iff, Bool, List, [], ◌∷◌, ◌++◌, Option, none, some,
  or_else, Map, lookup, insert, lookup-insert, values, select, count, if◌then◌else◌, arith,
  Bool-cases, inl, inr,
}
use mathlib.Core.List.{append_assoc, append-nil}
use schedulator.Model.{
  Time, is_live, status_eq, ReplicaStatus, Cluster, Application, Replica, CacheLocation,
  PerformanceProfile, VllmMetrics, GpuReservation, ScalingHistory,
}
use schedulator.WorldState.{WorldState}

pub record Snapshot (F : Type 0) : Type 0 where
  pub clusters : Map (Cluster F)
  pub applications : Map Application
  pub replicas : Map Replica
  pub replicas_by_app : Option (Map (List Replica))
  pub cache_locations : Map (List CacheLocation)
  pub performance_profiles : Map (PerformanceProfile F)
  pub vllm_metrics : Map (VllmMetrics F)
  pub reservations : Map GpuReservation
  pub scaling_history : Map ScalingHistory
  pub taken_at : Time

abbrev index_replica : Replica → Map (List Replica) → Map (List Replica)
index_replica r idx = insert r.app_id (or_else (lookup r.app_id idx) [] ++ r ∷ []) idx

index_from : Map (List Replica) → Map Replica → Map (List Replica)
index_from idx [] = idx
index_from idx ((id, r) ∷ m) = index_from (index_replica r idx) m

unfoldable pub build_replicas_by_app : Map Replica → Map (List Replica)
unfolding index_from
build_replicas_by_app = index_from []

unfoldable pub snapshot : {F : Type 0} → Time → WorldState F → Snapshot F
snapshot now ws = record {
  clusters = ws.clusters;
  applications = ws.applications;
  replicas = ws.replicas;
  replicas_by_app = some (build_replicas_by_app ws.replicas);
  cache_locations = ws.cache_locations;
  performance_profiles = ws.performance_profiles;
  vllm_metrics = ws.vllm_metrics;
  reservations = ws.reservations;
  scaling_history = ws.scaling_history;
  taken_at = now;
}

abbrev pub of_app : String → Replica → Bool
of_app app_id r = r.app_id == app_id

module _ {F : Type 0} where
  unfoldable pub replicas_for_app : Snapshot F → String → List Replica
  replicas_for_app snap app_id = elim snap.replicas_by_app [
    | some idx ↦ or_else (lookup app_id idx) []
    | none ↦ select (of_app app_id) (values snap.replicas)
  ]

  unfoldable pub count_active_replicas : Snapshot F → String → ℤ
  count_active_replicas snap app_id =
      pos (count (λ r. is_live r.status) (replicas_for_app snap app_id))

  -- countReplicasByStatus of the scaling engine and countRunningReplicas of the rebalancing engine.
  unfoldable pub count_by_status : Snapshot F → String → ReplicaStatus → ℤ
  count_by_status snap app_id status =
      pos (count (λ r. status_eq r.status status) (replicas_for_app snap app_id))

or_else-lookup-insert :
    (k j : String) (v : List Replica) (m : Map (List Replica))
    → or_else (lookup j (insert k v m)) [] ≡ (if k == j then v else or_else (lookup j m) [])
or_else-lookup-insert k j v m = ground (arith, lookup-insert k j v m)

abbrev entry : String → Replica → List Replica
entry app_id r = if of_app app_id r then r ∷ [] else []

lookup-index_replica :
    (app_id : String) (r : Replica) (idx : Map (List Replica))
    → or_else (lookup app_id (index_replica r idx)) []
      ≡ or_else (lookup app_id idx) [] ++ entry app_id r
lookup-index_replica app_id r idx = elim (Bool-cases (r.app_id == app_id)) [
  | inl hit ↦ ground (
    arith,
    eq_iff r.app_id app_id,
    or_else-lookup-insert r.app_id app_id (or_else (lookup r.app_id idx) [] ++ r ∷ []) idx,
  )
  | inr miss ↦ rw (or_else-lookup-insert r.app_id app_id _ idx) (rw (miss, append-nil) refl)
]

select-cons :
    (app_id : String) (r : Replica) (rs : List Replica)
    → entry app_id r ++ select (of_app app_id) rs ≡ select (of_app app_id) (r ∷ rs)
select-cons app_id r rs = ground arith

lookup-index_from :
    (app_id : String) (m : Map Replica) (idx : Map (List Replica))
    → or_else (lookup app_id (index_from idx m)) []
      ≡ or_else (lookup app_id idx) [] ++ select (of_app app_id) (values m)
unfolding index_from
lookup-index_from app_id [] idx = rw append-nil
lookup-index_from app_id ((id, r) ∷ m) idx =
    lookup-index_from app_id m (index_replica r idx)
    ∙ rw (lookup-index_replica app_id r idx) (
        append_assoc (or_else (lookup app_id idx) []) (entry app_id r) _
        ∙ ap (λ l. or_else (lookup app_id idx) [] ++ l) (select-cons app_id r (values m)))

-- A snapshot's index by application finds exactly the replicas of the state that belong to the
-- application, in the order of the map: what the search through all replicas finds when a snapshot
-- has no index.
pub replicas_for_app-snapshot :
    {F : Type 0} (now : Time) (ws : WorldState F) (app_id : String)
    → (replicas_for_app (snapshot now ws) app_id ≡ select (of_app app_id) (values ws.replicas))
      × (replicas_for_app (record (snapshot now ws) { replicas_by_app = none }) app_id
          ≡ select (of_app app_id) (values ws.replicas))
unfolding snapshot replicas_for_app build_replicas_by_app
replicas_for_app-snapshot now ws app_id = (lookup-index_from app_id ws.replicas [], refl)
