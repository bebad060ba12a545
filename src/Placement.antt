-- ===== src/Placement.antt =====
-- internal/engine/placement: which clusters take new replicas, and which replicas go. The engine keeps
-- no state; its metrics, spans and logs are not modelled.
pub mod Scoring
pub mod Choice
pub mod Cycle
pub mod Downs
use schedulator.Prelude.{
  ℕ, zero, suc, ◌+◌, ℤ, pos, pos_part, 0ℤ, 1ℤ, ◌+ℤ◌, ◌-ℤ◌, ltb_ℤ, leb_ℤ, String, ◌==◌, Bool, true,
  false, not, ◌&&◌, List, [], ◌∷◌, ◌++◌, map, Option, none, some, or_else, Map, lookup, values,
  counter, add_at, any, count, length, sum_by, sort_by, ◌*ℤ◌, if◌then◌else◌,
}
use schedulator.Floats.{Float64}
use schedulator.Model.{
  Time, ReservationStatus, FailureDomainRule, is_ready, is_live, Application, Replica, Node,
  Cluster, GpuReservation,
}
use schedulator.Model.Plans.{
  SchedulingConstraints, ScaleUpDecision, ScaleDownDecision, PreemptionPlan, PlacementDecisions,
}
use schedulator.WorldState.{node_map, free_gpus_of, reserved_gpus}
use schedulator.WorldState.Snapshot.{Snapshot, replicas_for_app, count_active_replicas}
use schedulator.Scaling.{ScalingDecision}
use Scoring.{PlacementConfig, compute_cache_score, compute_packing_score, select_scale_down_victims}

unfoldable pub has_fitting_node : {F : Type 0} → Cluster F → ℤ → Bool
has_fitting_node cluster gpus_needed =
    any (λ n. is_ready n.status && leb_ℤ gpus_needed n.free_gpus) (values (node_map cluster))

module _ {F : Type 0} where
  unfoldable pub cluster_available_gpus : String → Snapshot F → Map ℤ → ℤ
  cluster_available_gpus cluster_id snap local_reservations =
      elim (lookup cluster_id snap.clusters) [
        | none ↦ 0ℤ
        | some c ↦
            let free =
              free_gpus_of (node_map c)
              -ℤ reserved_gpus cluster_id snap.reservations
              -ℤ counter cluster_id local_reservations in
            if ltb_ℤ free 0ℤ then 0ℤ else free
      ]

  unfoldable pub count_app_replicas_in_cluster : String → String → Snapshot F → ℤ
  count_app_replicas_in_cluster app_id cluster_id snap =
      pos
        (count (λ r. r.cluster_id == cluster_id && is_live r.status) (replicas_for_app snap app_id))

  -- The first pass of findBestCluster. An entry of the map is a cluster with its key.
  unfoldable pub is_eligible : Snapshot F → ℤ → Map ℤ → String × Cluster F → Bool
  is_eligible snap gpus_needed local_reservations (id, cluster) =
      has_fitting_node cluster gpus_needed
      && leb_ℤ gpus_needed (cluster_available_gpus id snap local_reservations)

unfoldable pub cluster_gpu_totals : {F : Type 0} → Cluster F → ℤ × ℤ
cluster_gpu_totals cluster = (
  sum_by (λ n. if is_ready n.status then n.total_gpus else 0ℤ) (values (node_map cluster)),
  sum_by (λ n. if is_ready n.status then n.allocated_gpus else 0ℤ) (values (node_map cluster)),
)

abbrev pub spreads : Application → Bool
spreads app = elim app.failure_domain_rule [
  | FailureDomainRule.spread_clusters ↦ true
  | FailureDomainRule.none_rule ↦ false
]

pub record Candidate (F : Type 0) : Type 0 where
  pub cluster_id : String
  pub score : F
  pub preferred_nodes : List String
  pub cache_tier : String

module _ {F : Type 0} where
  -- A cluster that already has its share of the application's replicas.
  unfoldable pub is_full : Application → Snapshot F → Map ℤ → ℤ → String → Bool
  is_full app snap local_app_placement limit id =
      spreads app
      && leb_ℤ limit
          (count_app_replicas_in_cluster app.app_id id snap +ℤ counter id local_app_placement)

  unfoldable pub eligible_clusters :
      Application → Snapshot F → Map ℤ → List (String × Cluster F) → List (String × Cluster F)
  eligible_clusters app snap local_reservations [] = []
  eligible_clusters app snap local_reservations (e ∷ es) =
      let rest = eligible_clusters app snap local_reservations es in
      if is_eligible snap app.gpus_per_replica local_reservations e then e ∷ rest else rest

module _ {F : Type 0} ⦃fl : Float64 F⦄ where
  abbrev pub better : Option (Candidate F) → Candidate F → Option (Candidate F)
  better none c = some c
  better (some best) c = if fl.lt best.score c.score then some c else some best

module _ {F : Type 0} ⦃fl : Float64 F⦄ (cfg : PlacementConfig F) where
  unfoldable pub spread_limit : Application → Snapshot F → Map ℤ → List (String × Cluster F) → ℤ
  spread_limit app snap local_app_placement eligible =
      if spreads app && not (leb_ℤ (pos (length eligible)) 0ℤ)
      then fl.ceil_int (
          fl.div
            (fl.of_int (
              count_active_replicas snap app.app_id
              +ℤ sum_by (λ n. n) (values local_app_placement)
              +ℤ 1ℤ))
            (fl.of_int (pos (length eligible))))
      else 0ℤ

  unfoldable pub balance_score : Cluster F → F
  balance_score cluster =
      let (total, allocated) = cluster_gpu_totals cluster in
      if ltb_ℤ 0ℤ total
      then fl.sub (fl.of_int 1ℤ) (fl.div (fl.of_int allocated) (fl.of_int total))
      else fl.of_int 0ℤ

  unfoldable pub score_cluster : Application → Snapshot F → String × Cluster F → Candidate F
  score_cluster app snap (id, cluster) =
      let (cache_score, nodes, tier) = compute_cache_score cfg app.model_id id snap in
      record {
        cluster_id = id;
        score =
            fl.add
              (fl.add cache_score (
                fl.mul cfg.weight_fragmentation
                  (compute_packing_score cfg cluster app.gpus_per_replica)))
              (fl.mul cfg.weight_balance (balance_score cluster));
        preferred_nodes = nodes;
        cache_tier = tier;
      }

  unfoldable pub best_of :
      Application
      → Snapshot F
      → Map ℤ
      → ℤ
      → List (String × Cluster F)
      → Option (Candidate F)
      → Option (Candidate F)
  best_of app snap placed limit [] best = best
  best_of app snap placed limit (e ∷ es) best =
      best_of app snap placed limit es
        (if is_full app snap placed limit e.0 then best else better best (score_cluster app snap e))

  unfoldable pub best_candidate :
      Application → Snapshot F → (reserved placed : Map ℤ) → Option (Candidate F)
  unfolding best_of eligible_clusters spread_limit
  best_candidate app snap reserved placed =
      let eligible = eligible_clusters app snap reserved snap.clusters in
      best_of app snap placed (spread_limit app snap placed eligible) eligible none

  unfoldable pub find_best_cluster :
      Application → Snapshot F → (reserved placed : Map ℤ) → Option (String × SchedulingConstraints)
  find_best_cluster app snap reserved placed = elim (best_candidate app snap reserved placed) [
    | none ↦ none
    | some best ↦ some (
      best.cluster_id,
      record {
        required_gpus = app.gpus_per_replica;
        preferred_nodes = best.preferred_nodes;
        required_node_labels = [];
        preferred_node_labels = [];
        cache_affinity_model = app.model_id;
      },
    )
  ]

  unfoldable pub compute_reservation_ttl : String → Snapshot F → ℤ
  compute_reservation_ttl app_id snap = elim (lookup app_id snap.performance_profiles) [
    | none ↦ cfg.default_reservation_ttl_seconds
    | some profile ↦
        if fl.lt (fl.of_int 0ℤ) profile.cold_start_seconds
        then cfg.reservation_ttl_multiplier *ℤ fl.to_int profile.cold_start_seconds
        else cfg.default_reservation_ttl_seconds
  ]

-- The variables of the scale-up loop: the decisions, the GPUs promised in this cycle by cluster, the
-- replicas of the current application placed in this cycle by cluster, and how many identifiers have
-- been drawn.
pub record Progress : Type 0 where
  pub decisions : PlacementDecisions
  pub local_reservations : Map ℤ
  pub local_app_placement : Map ℤ
  pub drawn : ℕ

-- The zero Application that a missing entry reads as.
abbrev pub no_application : Application
no_application = record {
  app_id = "";
  model_id = "";
  gpus_per_replica = 0ℤ;
  priority = 0ℤ;
  min_replicas = 0ℤ;
  failure_domain_rule = FailureDomainRule.none_rule;
  sla = record { app_id = ""; max_p99_ttft_ms = 0ℤ; max_p99_tps = 0ℤ };
}

-- Where the scale-up loop starts: the scale-downs are decided.
abbrev pub start_cycle : List ScaleDownDecision → ℕ → Progress
start_cycle scale_downs drawn = record {
  decisions = record {
    scale_ups = [];
    scale_downs = scale_downs;
    preemptions = [];
    reservations = [];
  };
  local_reservations = [];
  local_app_placement = [];
  drawn = drawn;
}

-- An approved decision as a change of the count of active replicas.
unfoldable pub delta_of : {F : Type 0} → Snapshot F → String → ScalingDecision → ℤ
delta_of snap app_id sd =
    if sd.scale_action_approved then sd.target_count -ℤ count_active_replicas snap app_id else 0ℤ

-- The changes upwards.
unfoldable pub scale_ups_of : {F : Type 0} → Snapshot F → Map ScalingDecision → List (String × ℤ)
scale_ups_of snap [] = []
scale_ups_of snap ((app_id, sd) ∷ m) =
    let rest = scale_ups_of snap m in
    if ltb_ℤ 0ℤ (delta_of snap app_id sd) then (app_id, delta_of snap app_id sd) ∷ rest else rest

abbrev pub application_of : {F : Type 0} → Snapshot F → String → Application
application_of snap app_id = or_else (lookup app_id snap.applications) no_application

-- `uuid` gives the n-th identifier that google/uuid draws. `finder` is the preemption engine, if there
-- is one; a plan that is nil or comes with an error is no plan.
module _ {F : Type 0} ⦃fl : Float64 F⦄ (cfg : PlacementConfig F) (uuid : ℕ → String)
    (finder : Application → Snapshot F → Option PreemptionPlan) where
  unfoldable pub reserve :
      String → Application → Snapshot F → String → SchedulingConstraints → Progress → Progress
  reserve app_id app snap cluster_id constraints p =
      let id = uuid p.drawn in
      let reservation : GpuReservation = record {
        reservation_id = id;
        cluster_id = cluster_id;
        node_id = "";
        gpus = app.gpus_per_replica;
        for_app_id = app_id;
        created_at = snap.taken_at;
        ttl_seconds = compute_reservation_ttl cfg app_id snap;
        status = ReservationStatus.active;
      } in
      let scale_up : ScaleUpDecision = record {
        app_id = app_id;
        cluster_id = cluster_id;
        reservation_id = id;
        scheduling_constraints = constraints;
      } in
      record {
        decisions = record (p.decisions) {
          reservations = p.decisions.reservations ++ reservation ∷ [];
          scale_ups = p.decisions.scale_ups ++ scale_up ∷ [];
        };
        local_reservations = add_at cluster_id app.gpus_per_replica p.local_reservations;
        local_app_placement = add_at cluster_id 1ℤ p.local_app_placement;
        drawn = suc p.drawn;
      }

  abbrev pub with_victims : PreemptionPlan → Progress → Progress
  with_victims plan p = record p {
    decisions = record (p.decisions) { preemptions = p.decisions.preemptions ++ plan.victims };
  }

  -- One replica: a cluster with room, else a preemption, else nothing.
  unfoldable pub place_replica : String → Application → Snapshot F → Progress → Progress
  place_replica app_id app snap p =
      elim (find_best_cluster cfg app snap p.local_reservations p.local_app_placement) [
        | some (cluster_id, constraints) ↦ reserve app_id app snap cluster_id constraints p
        | none ↦ elim (finder app snap) [
          | none ↦ p
          | some plan ↦
              reserve app_id app snap plan.target_cluster plan.constraints (with_victims plan p)
        ]
      ]

  unfoldable pub place_replicas : ℕ → String → Application → Snapshot F → Progress → Progress
  place_replicas zero app_id app snap p = p
  place_replicas (suc n) app_id app snap p =
      place_replicas n app_id app snap (place_replica app_id app snap p)

  -- Each application stands once among the scale-ups, so its placements start empty.
  unfoldable pub place_all : List (String × ℤ) → Snapshot F → Progress → Progress
  unfolding place_replicas
  place_all [] snap p = p
  place_all ((app_id, delta) ∷ ups) snap p = place_all ups snap (
      place_replicas (pos_part delta) app_id (application_of snap app_id) snap
        (record p { local_app_placement = [] }))

module _ {F : Type 0} ⦃fl : Float64 F⦄ where
  unfoldable pub scale_downs_of : Snapshot F → Map ScalingDecision → List ScaleDownDecision
  scale_downs_of snap [] = []
  scale_downs_of snap ((app_id, sd) ∷ m) =
      let rest = scale_downs_of snap m in
      let delta = delta_of snap app_id sd in
      if ltb_ℤ delta 0ℤ
      then map (λ id. record { app_id = app_id; replica_id = id })
          (select_scale_down_victims app_id (0ℤ -ℤ delta) snap)
        ++ rest
      else rest

  unfoldable pub by_priority : Snapshot F → String × ℤ → String × ℤ → Bool
  by_priority snap (i, m) (j, n) =
      ltb_ℤ (application_of snap i).priority (application_of snap j).priority

  unfoldable pub compute_placement :
      PlacementConfig F
      → (ℕ → String)
      → (Application → Snapshot F → Option PreemptionPlan)
      → ℕ
      → Snapshot F
      → Map ScalingDecision
      → Progress
  unfolding place_all scale_ups_of scale_downs_of sort_by
  compute_placement cfg uuid finder drawn snap scaling =
      place_all cfg uuid finder (sort_by (by_priority snap) (scale_ups_of snap scaling)) snap
        (start_cycle (scale_downs_of snap scaling) drawn)
