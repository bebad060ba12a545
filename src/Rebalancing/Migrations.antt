-- ===== src/Rebalancing/Migrations.antt =====
-- internal/engine/rebalancing/engine.go: which migrations a cycle proposes.
use schedulator.Prelude.{
  Some, All-Some, All-map, pos, 0ℤ, 1ℤ, ◌≤ℤ◌, ◌<ℤ◌, leb_ℤ, max_int, max_int_bounds, String, Bool,
  true, false, List, [], ◌∷◌, ◌++◌, some, or_else, lookup, values, length, length-append, All,
  All-append, if◌then◌else◌, arith, ◌≡◌, refl, sym, ap, ◌⊎◌, inl, inr, Bool-cases, Option-cases,
  sort_by, sort_by-All, length-sort_by,
}
use schedulator.Floats.{Float64}
use schedulator.Model.{ReplicaStatus, Application, Replica, Node, Cluster}
use schedulator.Model.Plans.{MigrateDecision}
use schedulator.WorldState.{node_map}
use schedulator.WorldState.Snapshot.{Snapshot, count_by_status}
use schedulator.Rebalancing.{
  RebalancingConfig, ConsolidationTarget, find_consolidation_target, has_cached_model,
  estimate_fragmentation_delta, no_cluster, accept, propose, is_fragmented, collect_pods,
  collect_nodes, collect_clusters, moves_first, truncate, find_rebalancing_opportunities,
}

module _ {F : Type 0} ⦃fl : Float64 F⦄ (cfg : RebalancingConfig F) (snap : Snapshot F) where
  -- Why a replica of a node may migrate.
  pub record IsWorthwhile (node : Node) (id : String) (m : MigrateDecision) : Type 0 where
    pub replica : Replica
    pub app : Application
    pub target : ConsolidationTarget
    pub known : lookup id snap.replicas ≡ some replica
    pub app_known : lookup replica.app_id snap.applications ≡ some app
    pub above_minimum :
        app.min_replicas <ℤ count_by_status snap replica.app_id ReplicaStatus.running
    pub placed : find_consolidation_target replica app snap ≡ some target
    pub cached : has_cached_model target.cluster_id app.model_id snap ≡ true
    pub improves :
        fl.lt
          (estimate_fragmentation_delta node
            (or_else (lookup target.cluster_id snap.clusters) no_cluster)
            replica.gpus
            snap)
          cfg.min_fragmentation_delta
        ≡ false
    pub app_moved : m.app_id ≡ replica.app_id
    pub replica_moved : m.source_replica_id ≡ replica.replica_id
    pub moved_to : m.target_cluster_id ≡ target.cluster_id
    pub constrained : m.scheduling_constraints ≡ target.constraints

  abbrev migration_to : Replica → ConsolidationTarget → MigrateDecision
  migration_to replica target = record {
    app_id = replica.app_id;
    source_replica_id = replica.replica_id;
    target_cluster_id = target.cluster_id;
    scheduling_constraints = target.constraints;
  }

  accept_cases :
      (node : Node) (replica : Replica) (app : Application) (target : ConsolidationTarget)
      (m : MigrateDecision)
      → accept cfg snap node replica app target ≡ some m
      → (has_cached_model target.cluster_id app.model_id snap ≡ true)
        × (fl.lt
              (estimate_fragmentation_delta node
                (or_else (lookup target.cluster_id snap.clusters) no_cluster)
                replica.gpus
                snap)
              cfg.min_fragmentation_delta
            ≡ false)
        × (migration_to replica target ≡ m)
  unfolding accept
  accept_cases node replica app target m e = ground (arith, e)

  propose-IsWorthwhile :
      (node : Node) (id : String) (m : MigrateDecision)
      → propose cfg snap node id ≡ some m
      → IsWorthwhile node id m
  unfolding propose
  propose-IsWorthwhile node id m e = elim (Option-cases (lookup id snap.replicas)) [
    | inl gone ↦ absurd (ground (arith, e, gone))
    | inr (replica, known) ↦ elim (Option-cases (lookup replica.app_id snap.applications)) [
      | inl gone ↦ absurd (ground (arith, rw (known, propose) at e, gone))
      | inr (app, app_known) ↦ elim (Option-cases (find_consolidation_target replica app snap)) [
        | inl gone ↦
            absurd (ground (arith, rw (app_known, propose) at (rw (known, propose) at e), gone))
        | inr (target, placed) ↦
            let more =
              rw (placed, propose) at (rw (app_known, propose) at (rw (known, propose) at e)) in
            let above : app.min_replicas
                <ℤ count_by_status snap replica.app_id ReplicaStatus.running =
              ground (arith, more) in
            let accepted : accept cfg snap node replica app target ≡ some m =
              ground (arith, more) in
            let (cached, improves, same) = accept_cases node replica app target m accepted in
            record {
              replica = replica;
              app = app;
              target = target;
              known = known;
              app_known = app_known;
              above_minimum = above;
              placed = placed;
              cached = cached;
              improves = improves;
              app_moved = sym (ap (λ d. d.app_id) same);
              replica_moved = sym (ap (λ d. d.source_replica_id) same);
              moved_to = sym (ap (λ d. d.target_cluster_id) same);
              constrained = sym (ap (λ d. d.scheduling_constraints) same);
            }
      ]
    ]
  ]

  -- Some pod of some fragmented node of a cluster that is fragmented enough proposed the migration.
  abbrev FromPods : Node → MigrateDecision → Type 0
  FromPods node m = Some (λ id. IsWorthwhile node id m) node.pods

  abbrev FromNode : MigrateDecision → Node → Type 0
  FromNode m node = (is_fragmented cfg snap node ≡ true) × FromPods node m

  abbrev FromCluster : MigrateDecision → Cluster F → Type 0
  FromCluster m c =
      (fl.lt c.fragmentation_score cfg.min_fragmentation_delta ≡ false)
      × Some (FromNode m) (values (node_map c))

  abbrev pub IsProposed : MigrateDecision → Type 0
  IsProposed m = Some (FromCluster m) (values snap.clusters)

module _ {F : Type 0} ⦃fl : Float64 F⦄ (cfg : RebalancingConfig F) (snap : Snapshot F)
    (P : MigrateDecision → Type 0) where
  -- What a loop returns: migrations with a property, below the bound unless the loop stopped there.
  Ends : List MigrateDecision × Bool → Type 0
  Ends (ms, stopped) =
      All P ms
      × (if stopped
          then pos (length ms) ≤ℤ max_int 1ℤ cfg.max_migrations_per_cycle
          else (length ms ≡ 0)
          ⊎ (pos (length ms) <ℤ cfg.max_migrations_per_cycle))

  collect_pods-Ends :
      (node : Node) (ids : List String) (ms : List MigrateDecision)
      → All (λ id. (m : MigrateDecision) → IsWorthwhile cfg snap node id m → P m) ids
      → Ends (ms, false)
      → Ends (collect_pods cfg snap node ids ms)
  unfolding collect_pods Ends
  collect_pods-Ends node [] ms a h = h
  collect_pods-Ends node (id ∷ ids) ms a h = elim (Option-cases (propose cfg snap node id)) [
    | inl nothing ↦ rw (nothing, collect_pods) (collect_pods-Ends node ids ms a.1 h)
    | inr (m, found) ↦
        rw (found, collect_pods)
          (let good : All P (ms ++ m ∷ []) =
              All-append P ms (m ∷ []) h.0
                (a.0 m (propose-IsWorthwhile cfg snap node id m found), tt) in
            elim (Bool-cases (leb_ℤ cfg.max_migrations_per_cycle (pos (length (ms ++ m ∷ []))))) [
              | inl full ↦ rw full (
                good,
                ground (
                  arith,
                  length-append ms (m ∷ []),
                  max_int_bounds 1ℤ cfg.max_migrations_per_cycle,
                  h.1,
                ),
              )
              | inr room ↦
                  rw room (
                    collect_pods-Ends node ids (ms ++ m ∷ []) a.1
                      (good, inr (ground (arith, room))))
            ])
  ]

  collect_nodes-Ends :
      (ns : List Node) (ms : List MigrateDecision)
      → All (λ n. (m : MigrateDecision) → FromNode cfg snap m n → P m) ns
      → Ends (ms, false)
      → Ends (collect_nodes cfg snap ns ms)
  unfolding collect_nodes
  collect_nodes-Ends [] ms a h = h
  collect_nodes-Ends (n ∷ ns) ms a h =
      go (if is_fragmented cfg snap n then collect_pods cfg snap n n.pods ms else (ms, false))
        (elim (Bool-cases (is_fragmented cfg snap n)) [
          | inl split ↦ rw split (
              collect_pods-Ends n n.pods ms
                (All-map (λ id found m w. a.0 m (split, found m w)) n.pods
                  (All-Some (IsWorthwhile cfg snap n) n.pods))
                h)
          | inr whole ↦ rw whole h
        ])
        (λ more e. collect_nodes-Ends ns more a.1 e)
    where
      go :
          (r : List MigrateDecision × Bool)
          → Ends r
          → ((more : List MigrateDecision)
              → Ends (more, false)
              → Ends (collect_nodes cfg snap ns more))
          → Ends (if r.1 then (r.0, true) else collect_nodes cfg snap ns r.0)
      go (more, true) e rest = e
      go (more, false) e rest = rest more e

  collect_clusters-Ends :
      (cs : List (Cluster F)) (ms : List MigrateDecision)
      → All (λ c. (m : MigrateDecision) → FromCluster cfg snap m c → P m) cs
      → Ends (ms, false)
      → Ends (collect_clusters cfg snap cs ms)
  unfolding collect_clusters
  collect_clusters-Ends [] ms a h = h
  collect_clusters-Ends (c ∷ cs) ms a h =
      go
        (if fl.lt c.fragmentation_score cfg.min_fragmentation_delta
          then (ms, false)
          else collect_nodes cfg snap (values (node_map c)) ms)
        (elim (Bool-cases (fl.lt c.fragmentation_score cfg.min_fragmentation_delta)) [
          | inl low ↦ rw low h
          | inr high ↦ rw high (
              collect_nodes-Ends (values (node_map c)) ms
                (All-map (λ n found m w. a.0 m (high, found m w)) (values (node_map c))
                  (All-Some (λ n m. FromNode cfg snap m n) (values (node_map c))))
                h)
        ])
        (λ more e. collect_clusters-Ends cs more a.1 e)
    where
      go :
          (r : List MigrateDecision × Bool)
          → Ends r
          → ((more : List MigrateDecision)
              → Ends (more, false)
              → Ends (collect_clusters cfg snap cs more))
          → Ends (if r.1 then (r.0, true) else collect_clusters cfg snap cs r.0)
      go (more, true) e rest = e
      go (more, false) e rest = rest more e

module _ {F : Type 0} ⦃fl : Float64 F⦄ (cfg : RebalancingConfig F) (snap : Snapshot F) where
  abbrev Proposed : MigrateDecision → Type 0
  Proposed = IsProposed cfg snap

  -- With a bound of at least 0, a cycle proposes at most as many migrations as the bound, or one if
  -- the bound is 0. Each moves a replica of the snapshot that stands on a ready, partly allocated
  -- node of a cluster of the snapshot whose fragmentation is not below the least that counts: its
  -- application is known and has more running replicas than its minimum, the target is the one that
  -- the search finds, its cluster has the model in a cache, and the estimated gain of moving it off
  -- that node is not below the least that counts.
  pub find_rebalancing_opportunities_lem :
      0ℤ ≤ℤ cfg.max_migrations_per_cycle
      → (ms : List MigrateDecision) × (find_rebalancing_opportunities cfg snap ≡ some ms)
        × (pos (length ms) ≤ℤ max_int 1ℤ cfg.max_migrations_per_cycle)
        × All (IsProposed cfg snap) ms
  unfolding find_rebalancing_opportunities Ends
  find_rebalancing_opportunities_lem h = go (collect_clusters cfg snap (values snap.clusters) []) (
      collect_clusters-Ends cfg snap Proposed (values snap.clusters) []
        (All-Some (λ c m. FromCluster cfg snap m c) (values snap.clusters)) (tt, inl refl))
    where
      go :
          (r : List MigrateDecision × Bool)
          → Ends cfg snap Proposed r
          → (ms : List MigrateDecision) × ((if r.1
                then some r.0
                else truncate cfg snap (sort_by (moves_first cfg snap) r.0))
              ≡ some ms)
            × (pos (length ms) ≤ℤ max_int 1ℤ cfg.max_migrations_per_cycle)
            × All (IsProposed cfg snap) ms
      go (ms, true) e = (ms, refl, e.1, e.0)
      go (ms, false) e = (
        sort_by (moves_first cfg snap) ms,
        ground (arith, length-sort_by (moves_first cfg snap) ms, e.1),
        ground (
          arith,
          length-sort_by (moves_first cfg snap) ms,
          e.1,
          max_int_bounds 1ℤ cfg.max_migrations_per_cycle,
        ),
        sort_by-All (IsProposed cfg snap) (moves_first cfg snap) ms e.0,
      )
