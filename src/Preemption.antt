-- ===== src/Preemption.antt =====
-- internal/engine/preemption: which replicas of lower priority give way. Logs, spans and metrics are
-- not modelled. Both results of the source are there: its error is always nil.
pub mod Selection
pub mod Cascade
pub mod Stakes
use schedulator.Prelude.{
  ℕ, ℤ, pos, negsuc, 0ℤ, 1ℤ, ◌+ℤ◌, ◌-ℤ◌, ltb_ℤ, leb_ℤ, eqb_ℤ, String, ◌==◌, text_lt, Bool, true,
  false, not, ◌&&◌, ◌||◌, List, [], ◌∷◌, ◌++◌, map, Option, none, some, Map, counter, add_at,
  select, sort_by, if◌then◌else◌,
}
use schedulator.Floats.{Float64}
use schedulator.Model.{Application, Replica, is_live}
use schedulator.Model.Plans.{SchedulingConstraints, PreemptionDecision, PreemptionPlan}
use schedulator.WorldState.Snapshot.{Snapshot, replicas_for_app, count_active_replicas}

-- internal/engine/preemption/config.go
pub record PreemptionConfig : Type 0 where
  pub default_grace_period_seconds : ℤ

pub record VictimCandidate : Type 0 where
  pub replica : Replica
  pub app : Application

-- The candidates of one application, and the pool of those whose application has a priority.
module _ {F : Type 0} where
  unfoldable pub candidates_of : Snapshot F → String → Application → List VictimCandidate
  candidates_of snap app_id victim =
      map (λ r. record { replica = r; app = victim })
        (select (λ r. is_live r.status) (replicas_for_app snap app_id))

  unfoldable pub pool_from : Application → ℤ → Snapshot F → Map Application → List VictimCandidate
  pool_from app priority snap [] = []
  pool_from app priority snap ((victim_id, victim) ∷ apps) =
      let rest = pool_from app priority snap apps in
      if victim_id == app.app_id || leb_ℤ victim.priority app.priority
      then rest
      else if eqb_ℤ victim.priority priority
      then candidates_of snap victim_id victim ++ rest
      else rest

  unfoldable pub pool : Application → ℤ → Snapshot F → List VictimCandidate
  unfolding pool_from
  pool app priority snap = pool_from app priority snap snap.applications

  unfoldable pub above_min_order : Snapshot F → VictimCandidate → ℤ
  above_min_order snap c =
      if ltb_ℤ c.app.min_replicas (count_active_replicas snap c.app.app_id) then 0ℤ else 1ℤ

unfoldable pub cluster_gpus : List VictimCandidate → Map ℤ
cluster_gpus [] = []
cluster_gpus (c ∷ cs) = add_at c.replica.cluster_id c.replica.gpus (cluster_gpus cs)

module _ {F : Type 0} ⦃fl : Float64 F⦄ where
  unfoldable pub packing_benefit : ℤ → ℤ → F
  packing_benefit replica_gpus gpus_needed =
      let one = fl.of_int 1ℤ in
      if eqb_ℤ replica_gpus gpus_needed
      then one
      else fl.div one (fl.add one (fl.abs_f (fl.of_int (replica_gpus -ℤ gpus_needed))))

  -- The order of sortCandidates.
  unfoldable pub goes_first : ℤ → Snapshot F → Map ℤ → VictimCandidate → VictimCandidate → Bool
  goes_first gpus_needed snap gpus ci cj =
      let above_i = above_min_order snap ci in
      let above_j = above_min_order snap cj in
      let cg_i = counter ci.replica.cluster_id gpus in
      let cg_j = counter cj.replica.cluster_id gpus in
      let pb_i = packing_benefit ci.replica.gpus gpus_needed in
      let pb_j = packing_benefit cj.replica.gpus gpus_needed in
      if not (eqb_ℤ above_i above_j)
      then ltb_ℤ above_i above_j
      else if not (eqb_ℤ cg_i cg_j)
      then ltb_ℤ cg_j cg_i
      else if not (ci.replica.cluster_id == cj.replica.cluster_id)
      then text_lt ci.replica.cluster_id cj.replica.cluster_id
      else if not (fl.eq pb_i pb_j)
      then fl.lt pb_j pb_i
      else text_lt ci.replica.replica_id cj.replica.replica_id

  unfoldable pub sort_candidates : List VictimCandidate → ℤ → Snapshot F → List VictimCandidate
  unfolding sort_by
  sort_candidates candidates gpus_needed snap =
      sort_by (goes_first gpus_needed snap (cluster_gpus candidates)) candidates

unfoldable pub victim_of : PreemptionConfig → VictimCandidate → PreemptionDecision
victim_of cfg c = record {
  victim_replica_id = c.replica.replica_id;
  victim_app_id = c.app.app_id;
  node_id = c.replica.node_id;
  cluster_id = c.replica.cluster_id;
  grace_period_seconds = cfg.default_grace_period_seconds;
  reason = ("", c.app.priority);
}

-- The variables of the loop of selectVictims.
pub record Selected : Type 0 where
  pub victims : List PreemptionDecision
  pub freed : ℤ
  pub target_cluster : String
  pub preempting_per_app : Map ℤ

module _ {F : Type 0} (cfg : PreemptionConfig) (snap : Snapshot F) where
  abbrev pub is_elsewhere : Selected → VictimCandidate → Bool
  is_elsewhere s c = not (s.target_cluster == "") && not (c.replica.cluster_id == s.target_cluster)

  abbrev pub is_protected : Selected → VictimCandidate → Bool
  is_protected s c =
      leb_ℤ (count_active_replicas snap c.app.app_id -ℤ counter c.app.app_id s.preempting_per_app)
        c.app.min_replicas

  unfoldable pub take_victim : VictimCandidate → Selected → Selected
  take_victim c s = record {
    victims = s.victims ++ victim_of cfg c ∷ [];
    freed = s.freed +ℤ c.replica.gpus;
    target_cluster = if s.target_cluster == "" then c.replica.cluster_id else s.target_cluster;
    preempting_per_app = add_at c.app.app_id 1ℤ s.preempting_per_app;
  }

  unfoldable pub visit : VictimCandidate → Selected → Selected
  visit c s = if is_elsewhere s c || is_protected s c then s else take_victim c s

  unfoldable pub select_loop : ℤ → List VictimCandidate → Selected → Selected
  select_loop required_gpus [] s = s
  select_loop required_gpus (c ∷ cs) s =
      if leb_ℤ required_gpus s.freed then s else select_loop required_gpus cs (visit c s)

  unfoldable pub select_victims : List VictimCandidate → ℤ → String → Selected
  unfolding select_loop
  select_victims candidates required_gpus prefer_cluster =
      select_loop required_gpus candidates (record {
        victims = [];
        freed = 0ℤ;
        target_cluster = prefer_cluster;
        preempting_per_app = [];
      })

module _ {F : Type 0} ⦃fl : Float64 F⦄ where
  -- The victims, the freed GPUs and the target cluster of both passes.
  unfoldable pub cascade :
      PreemptionConfig → Application → Snapshot F → List PreemptionDecision × ℤ × String
  cascade cfg app snap =
      let needed = app.gpus_per_replica in
      let p2 =
        select_victims cfg snap (sort_candidates (pool app (pos 2) snap) needed snap) needed "" in
      let p1 =
        select_victims cfg snap (sort_candidates (pool app 1ℤ snap) needed snap)
          (needed -ℤ p2.freed) p2.target_cluster in
      if ltb_ℤ p2.freed needed && eqb_ℤ app.priority 0ℤ
      then (
        p2.victims ++ p1.victims,
        p2.freed +ℤ p1.freed,
        if p2.target_cluster == "" then p1.target_cluster else p2.target_cluster,
      )
      else (p2.victims, p2.freed, p2.target_cluster)

  unfoldable pub find_preemption_opportunity :
      PreemptionConfig → Application → Snapshot F → Option PreemptionPlan
  find_preemption_opportunity cfg app snap =
      if eqb_ℤ app.priority (pos 2)
      then none
      else let (victims, freed, target_cluster) = cascade cfg app snap in
        if ltb_ℤ freed app.gpus_per_replica
        then none
        else some (record {
          victims = victims;
          target_cluster = target_cluster;
          constraints = record {
            required_gpus = app.gpus_per_replica;
            preferred_nodes = [];
            required_node_labels = [];
            preferred_node_labels = [];
            cache_affinity_model = app.model_id;
          };
        })
