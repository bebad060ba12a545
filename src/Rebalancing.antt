-- ===== src/Rebalancing.antt =====
-- internal/engine/rebalancing: which replicas move to a cluster where they fit more tightly. The
-- engine keeps no state; its metrics, spans and logs are not modelled.
pub mod Nodes
pub mod Target
pub mod Migrations
use schedulator.Prelude.{
  ℤ, pos, negsuc, pos_part, 0ℤ, ◌+ℤ◌, ◌-ℤ◌, ltb_ℤ, leb_ℤ, eqb_ℤ, String, ◌==◌, text_lt, Bool, true,
  false, not, ◌&&◌, ◌||◌, List, [], ◌∷◌, ◌++◌, map, Option, none, some, or_else, Map, lookup,
  values, any, sum_by, length, take, sort_by, if◌then◌else◌,
}
use schedulator.Floats.{Float64}
use schedulator.Model.{ReplicaStatus, is_ready, Application, Replica, Node, Cluster, CacheLocation}
use schedulator.Model.Plans.{SchedulingConstraints, MigrateDecision}
use schedulator.WorldState.{node_map, free_ratio}
use schedulator.WorldState.Snapshot.{Snapshot, count_by_status}
use schedulator.Placement.{no_application}

-- internal/engine/rebalancing/config.go
pub record RebalancingConfig (F : Type 0) : Type 0 where
  pub max_migrations_per_cycle : ℤ
  pub min_fragmentation_delta : F

unfoldable pub default_rebalancing_config : {F : Type 0} ⦃fl : Float64 F⦄ → RebalancingConfig F
default_rebalancing_config ⦃fl⦄ = record {
  max_migrations_per_cycle = pos 2;
  min_fragmentation_delta = fl.literal 15 100;
}

-- The tightest fit among nodes so far: its identifier, empty if there is none, and what it wastes.
pub record Fit : Type 0 where
  pub node_id : String
  pub waste : ℤ

abbrev pub no_fit : Fit
no_fit = record { node_id = ""; waste = negsuc 0 }

abbrev pub fits : ℤ → Node → Bool
fits gpus n = is_ready n.status && leb_ℤ gpus n.free_gpus

unfoldable pub tighter : ℤ → Node → Fit → Fit
tighter gpus n f =
    if fits gpus n && (ltb_ℤ f.waste 0ℤ || ltb_ℤ (n.free_gpus -ℤ gpus) f.waste)
    then record { node_id = n.node_id; waste = n.free_gpus -ℤ gpus }
    else f

unfoldable pub tightest_fit : ℤ → List Node → Fit → Fit
tightest_fit gpus [] f = f
tightest_fit gpus (n ∷ ns) f = tightest_fit gpus ns (tighter gpus n f)

pub record ConsolidationTarget : Type 0 where
  pub cluster_id : String
  pub constraints : SchedulingConstraints

-- The variables of findConsolidationTarget.
pub record Consolidation : Type 0 where
  pub best_target : Option ConsolidationTarget
  pub best_waste : ℤ

module _ {F : Type 0} where
  abbrev pub fit_in : ℤ → Cluster F → Fit
  fit_in gpus c = tightest_fit gpus (values (node_map c)) no_fit

  -- The tightest node of a cluster as a target.
  abbrev pub target_of : Replica → Application → Cluster F → ConsolidationTarget
  target_of replica app c = record {
    cluster_id = c.cluster_id;
    constraints = record {
      required_gpus = replica.gpus;
      preferred_nodes = (fit_in replica.gpus c).node_id ∷ [];
      required_node_labels = [];
      preferred_node_labels = [];
      cache_affinity_model = app.model_id;
    };
  }

  unfoldable pub consider : Replica → Application → Cluster F → Consolidation → Consolidation
  unfolding tightest_fit
  consider replica app c s =
      if c.cluster_id == replica.cluster_id || (fit_in replica.gpus c).node_id == ""
      then s
      else if ltb_ℤ s.best_waste 0ℤ || ltb_ℤ (fit_in replica.gpus c).waste s.best_waste
      then record {
        best_target = some (target_of replica app c);
        best_waste = (fit_in replica.gpus c).waste;
      }
      else s

  unfoldable pub consider_all :
      Replica → Application → List (Cluster F) → Consolidation → Consolidation
  consider_all replica app [] s = s
  consider_all replica app (c ∷ cs) s = consider_all replica app cs (consider replica app c s)

  unfoldable pub find_consolidation_target :
      Replica → Application → Snapshot F → Option ConsolidationTarget
  find_consolidation_target replica app snap =
      (consider_all replica app (values snap.clusters)
        (record { best_target = none; best_waste = negsuc 0 })).best_target

  unfoldable pub has_cached_model : String → String → Snapshot F → Bool
  has_cached_model cluster_id model_id snap =
      any (λ loc. loc.cluster_id == cluster_id) (or_else (lookup model_id snap.cache_locations) [])

module _ {F : Type 0} ⦃fl : Float64 F⦄ where
  -- The score of nodes if one of them had more, or fewer, free GPUs.
  unfoldable pub fragmentation_with : Map Node → String → ℤ → F
  fragmentation_with nodes node_id more =
      free_ratio
        (sum_by (λ n. if n.node_id == node_id then n.free_gpus +ℤ more else n.free_gpus)
          (values nodes))
        (sum_by (λ n. n.total_gpus) (values nodes))

  unfoldable pub estimate_fragmentation_delta : Node → Cluster F → ℤ → Snapshot F → F
  unfolding fragmentation_with tightest_fit
  estimate_fragmentation_delta source_node dest gpus snap =
      elim (lookup source_node.cluster_id snap.clusters) [
        | none ↦ fl.of_int 0ℤ
        | some source ↦
            let new_dest =
              if (fit_in gpus dest).node_id == ""
              then dest.fragmentation_score
              else fragmentation_with (node_map dest) (fit_in gpus dest).node_id (0ℤ -ℤ gpus) in
            fl.sub (fl.add source.fragmentation_score dest.fragmentation_score)
              (fl.add (fragmentation_with (node_map source) source_node.node_id gpus) new_dest)
      ]

  -- The zero Cluster that a missing entry reads as.
  abbrev pub no_cluster : Cluster F
  no_cluster = record { cluster_id = ""; nodes = none; fragmentation_score = fl.of_int 0ℤ }

module _ {F : Type 0} ⦃fl : Float64 F⦄ (cfg : RebalancingConfig F) (snap : Snapshot F) where
  -- The last two checks, on a target that was found.
  unfoldable pub accept :
      Node → Replica → Application → ConsolidationTarget → Option MigrateDecision
  accept node replica app target =
      if has_cached_model target.cluster_id app.model_id snap
        && not (
            fl.lt
              (estimate_fragmentation_delta node
                (or_else (lookup target.cluster_id snap.clusters) no_cluster) replica.gpus snap)
              cfg.min_fragmentation_delta)
      then some record {
        app_id = replica.app_id;
        source_replica_id = replica.replica_id;
        target_cluster_id = target.cluster_id;
        scheduling_constraints = target.constraints;
      }
      else none

  -- The body of the loop over the pods of a node; `none` continues with the next pod.
  unfoldable pub propose : Node → String → Option MigrateDecision
  unfolding accept
  propose node replica_id = elim (lookup replica_id snap.replicas) [
    | none ↦ none
    | some replica ↦ elim (lookup replica.app_id snap.applications) [
      | none ↦ none
      | some app ↦
          if leb_ℤ (count_by_status snap replica.app_id ReplicaStatus.running) app.min_replicas
          then none
          else elim (find_consolidation_target replica app snap) [
            | none ↦ none
            | some target ↦ accept node replica app target
          ]
    ]
  ]

  -- What the loops collect, and whether they stopped at the bound.
  unfoldable pub collect_pods :
      Node → List String → List MigrateDecision → List MigrateDecision × Bool
  unfolding propose
  collect_pods node [] ms = (ms, false)
  collect_pods node (id ∷ ids) ms = elim (propose node id) [
    | none ↦ collect_pods node ids ms
    | some m ↦
        let more = ms ++ m ∷ [] in
        let rest = collect_pods node ids more in
        if leb_ℤ cfg.max_migrations_per_cycle (pos (length more)) then (more, true) else rest
  ]

  -- A ready node that is partly allocated.
  abbrev pub is_fragmented : Node → Bool
  is_fragmented n =
      is_ready n.status && ltb_ℤ 0ℤ n.allocated_gpus && ltb_ℤ n.allocated_gpus n.total_gpus

  unfoldable pub collect_nodes : List Node → List MigrateDecision → List MigrateDecision × Bool
  unfolding collect_pods
  collect_nodes [] ms = (ms, false)
  collect_nodes (n ∷ ns) ms =
      let (more, stopped) = if is_fragmented n then collect_pods n n.pods ms else (ms, false) in
      let rest = collect_nodes ns more in if stopped then (more, true) else rest

  unfoldable pub collect_clusters :
      List (Cluster F) → List MigrateDecision → List MigrateDecision × Bool
  unfolding collect_nodes
  collect_clusters [] ms = (ms, false)
  collect_clusters (c ∷ cs) ms =
      let (more, stopped) =
        if fl.lt c.fragmentation_score cfg.min_fragmentation_delta
        then (ms, false)
        else collect_nodes (values (node_map c)) ms in
      let rest = collect_clusters cs more in if stopped then (more, true) else rest

  abbrev pub priority_of : MigrateDecision → ℤ
  priority_of m = (or_else (lookup m.app_id snap.applications) no_application).priority

  unfoldable pub moves_first : MigrateDecision → MigrateDecision → Bool
  moves_first a b =
      if eqb_ℤ (priority_of a) (priority_of b)
      then text_lt a.source_replica_id b.source_replica_id
      else ltb_ℤ (priority_of b) (priority_of a)

  -- `migrations[:n]` of a list that is longer than n; `none` is the panic at a negative n.
  abbrev pub truncate : List MigrateDecision → Option (List MigrateDecision)
  truncate ms =
      if ltb_ℤ cfg.max_migrations_per_cycle (pos (length ms))
      then (if ltb_ℤ cfg.max_migrations_per_cycle 0ℤ
          then none
          else some (take (pos_part cfg.max_migrations_per_cycle) ms))
      else some ms

  unfoldable pub find_rebalancing_opportunities : Option (List MigrateDecision)
  unfolding collect_clusters moves_first sort_by
  find_rebalancing_opportunities =
      let (migrations, stopped) = collect_clusters (values snap.clusters) [] in
      if stopped then some migrations else truncate (sort_by moves_first migrations)
