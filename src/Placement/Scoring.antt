-- ===== src/Placement/Scoring.antt =====
-- internal/engine/placement/scoring.go and config.go.
use schedulator.Prelude.{
  ℤ, pos, negsuc, pos_part, 0ℤ, 1ℤ, ◌-ℤ◌, ltb_ℤ, leb_ℤ, String, ◌==◌, Bool, true, false, not, ◌&&◌,
  List, [], ◌∷◌, ◌++◌, map, none, some, or_else, Map, lookup, values, counter, add_at, select, any,
  is_empty, take, sort_by, if◌then◌else◌,
}
use schedulator.Floats.{Float64}
use schedulator.Model.{CacheTier, is_ready, is_live, Replica, Node, Cluster, CacheLocation}
use schedulator.WorldState.{node_map}
use schedulator.WorldState.Snapshot.{Snapshot, replicas_for_app}

pub record PlacementConfig (F : Type 0) : Type 0 where
  pub weight_cache_gpu_memory : F
  pub weight_cache_local_nvme : F
  pub weight_cache_cluster_storage : F
  pub weight_fragmentation : F
  pub weight_balance : F
  pub max_gpus_per_node : ℤ
  pub reservation_ttl_multiplier : ℤ
  pub default_reservation_ttl_seconds : ℤ

unfoldable pub default_placement_config : {F : Type 0} ⦃fl : Float64 F⦄ → PlacementConfig F
default_placement_config ⦃fl⦄ = record {
  weight_cache_gpu_memory = fl.literal 1000 1;
  weight_cache_local_nvme = fl.literal 500 1;
  weight_cache_cluster_storage = fl.literal 100 1;
  weight_fragmentation = fl.literal 50 1;
  weight_balance = fl.literal 30 1;
  max_gpus_per_node = pos 8;
  reservation_ttl_multiplier = pos 2;
  default_reservation_ttl_seconds = pos 300;
}

abbrev tier_eq : CacheTier → CacheTier → Bool
tier_eq CacheTier.gpu_memory CacheTier.gpu_memory = true
tier_eq CacheTier.local_nvme CacheTier.local_nvme = true
tier_eq CacheTier.cluster_storage CacheTier.cluster_storage = true
tier_eq _ _ = false

-- The nodes of a cluster that cache a model in one tier.
unfoldable pub nodes_in_tier : CacheTier → String → List CacheLocation → List String
nodes_in_tier tier cluster_id locs =
    map (λ l. l.node_id) (select (λ l. l.cluster_id == cluster_id && tier_eq l.tier tier) locs)

-- The tightest fit so far: the least free count of a ready node that has room, or -1.
unfoldable pub tighter_fit : ℤ → Node → ℤ → ℤ
tighter_fit gpus_needed n best =
    if is_ready n.status
      && leb_ℤ gpus_needed n.free_gpus
      && (if ltb_ℤ best 0ℤ then true else ltb_ℤ n.free_gpus best)
    then n.free_gpus
    else best

unfoldable pub best_fit : ℤ → List Node → ℤ → ℤ
best_fit gpus_needed [] best = best
best_fit gpus_needed (n ∷ ns) best = best_fit gpus_needed ns (tighter_fit gpus_needed n best)

module _ {F : Type 0} ⦃fl : Float64 F⦄ where
  unfoldable pub compute_cache_score :
      PlacementConfig F → String → String → Snapshot F → F × List String × String
  unfolding nodes_in_tier
  compute_cache_score cfg model_id cluster_id snap =
      let locations = or_else (lookup model_id snap.cache_locations) [] in
      let gpu_memory_nodes = nodes_in_tier CacheTier.gpu_memory cluster_id locations in
      let local_nvme_nodes = nodes_in_tier CacheTier.local_nvme cluster_id locations in
      if not (is_empty gpu_memory_nodes)
      then (cfg.weight_cache_gpu_memory, gpu_memory_nodes ++ local_nvme_nodes, "GPU_MEMORY")
      else if not (is_empty local_nvme_nodes)
      then (cfg.weight_cache_local_nvme, local_nvme_nodes, "LOCAL_NVME")
      else if not (is_empty (nodes_in_tier CacheTier.cluster_storage cluster_id locations))
      then (cfg.weight_cache_cluster_storage, [], "CLUSTER_STORAGE")
      else (fl.of_int 0ℤ, [], "REMOTE")

  unfoldable pub compute_packing_score : PlacementConfig F → Cluster F → ℤ → F
  unfolding best_fit tighter_fit
  compute_packing_score cfg cluster gpus_needed =
      let fit = best_fit gpus_needed (values (node_map cluster)) (negsuc 0) in
      if ltb_ℤ fit 0ℤ
      then fl.of_int 0ℤ
      else fl.max_f (fl.of_int 0ℤ) (
          fl.min_f (fl.of_int 1ℤ) (
            fl.sub (fl.of_int 1ℤ)
              (fl.div (fl.of_int (fit -ℤ gpus_needed)) (fl.of_int cfg.max_gpus_per_node))))

pub record Removal (F : Type 0) : Type 0 where
  pub replica_id : String
  pub util_score : F
  pub cached : Bool
  pub cluster_count : ℤ

unfoldable pub cluster_counts : List Replica → Map ℤ
cluster_counts [] = []
cluster_counts (r ∷ rs) = add_at r.cluster_id 1ℤ (cluster_counts rs)

module _ {F : Type 0} ⦃fl : Float64 F⦄ where
  unfoldable pub node_utilization : Snapshot F → Replica → F
  node_utilization snap r = elim (lookup r.cluster_id snap.clusters) [
    | none ↦ fl.of_int 0ℤ
    | some c ↦ elim (lookup r.node_id (node_map c)) [
      | none ↦ fl.of_int 0ℤ
      | some n ↦
          if ltb_ℤ 0ℤ n.total_gpus
          then fl.sub (fl.of_int 1ℤ) (fl.div (fl.of_int n.free_gpus) (fl.of_int n.total_gpus))
          else fl.of_int 0ℤ
    ]
  ]

  unfoldable pub removal_of : Snapshot F → String → Map ℤ → Replica → Removal F
  removal_of snap model_id counts r = record {
    replica_id = r.replica_id;
    util_score = node_utilization snap r;
    cached =
        any (λ l. l.cluster_id == r.cluster_id && l.node_id == r.node_id)
          (or_else (lookup model_id snap.cache_locations) []);
    cluster_count = counter r.cluster_id counts;
  }

  -- Lower utilization first, then what is not cached, then crowded clusters.
  unfoldable pub goes_before : Removal F → Removal F → Bool
  goes_before a b =
      if not (fl.eq a.util_score b.util_score)
      then fl.lt a.util_score b.util_score
      else if (if a.cached then not b.cached else b.cached)
      then not a.cached
      else ltb_ℤ b.cluster_count a.cluster_count

  -- The zero Application has the model "".
  abbrev pub model_of : Snapshot F → String → String
  model_of snap app_id = elim (lookup app_id snap.applications) [
    | none ↦ ""
    | some app ↦ app.model_id
  ]

  unfoldable pub select_scale_down_victims : String → ℤ → Snapshot F → List String
  unfolding sort_by
  select_scale_down_victims app_id count snap =
      let live = select (λ r. is_live r.status) (replicas_for_app snap app_id) in
      take (pos_part count) (
        map (λ c. c.replica_id)
          (sort_by goes_before
            (map (removal_of snap (model_of snap app_id) (cluster_counts live)) live)))
