-- ===== src/Witnesses/Cycles.antt =====
-- The theorems on rebalancing and on the cycles of the control loop.
use schedulator.Prelude.{
  none, ◌==◌, map, select, any, ◌≡◌, refl, 1ℤ, pos, ℤ, ◌+ℤ◌, ◌-ℤ◌, ◌*ℤ◌, min_int, max_int, ◌≤ℤ◌,
  String, eq_iff, true, List, [], ◌∷◌, some, lookup, length, All, arith,
}
use schedulator.Model.{CacheTier, Cluster}
use schedulator.Model.Plans.{MigrateDecision, Operation}
use schedulator.WorldState.{empty, free_ratio}
use schedulator.WorldState.Snapshot.{
  Snapshot, snapshot, count_by_status, replicas_for_app, build_replicas_by_app,
}
use schedulator.WorldState.Calls.{IsConsistent, run}
use schedulator.WorldState.Calls.Consistent.{run-IsConsistent}
use schedulator.Scaling.{
  default_scaling_config, ScalingDecision, compute_target, compute_targets,
  apply_stability_controls, compute_target_replicas, compute_effective_target, stale_pending,
  dampen, cap_up, cap_down, choose_target, required_for_sla, required_for_cache, required_for_queue,
  breaches, is_sla_breach, is_cooling,
}
use schedulator.Placement.Scoring.{default_placement_config}
use schedulator.Rebalancing.{
  consider_all, consider, tighter, has_cached_model, estimate_fragmentation_delta,
  default_rebalancing_config, find_consolidation_target, find_rebalancing_opportunities,
}
use schedulator.Rebalancing.Target
use schedulator.Rebalancing.Migrations
use schedulator.Executor.Operations.{fulfills}
use schedulator.ControlLoop.Cycle.{
  Engines, Execution, Loop, Planned, plan_cycle, place_cycle, run_cycle,
}
use schedulator.ControlLoop.Turns.{Ticks, no_ticks, batch, tick, take_turns}
use schedulator.ControlLoop.Consistent
use schedulator.ControlLoop.Plans
use schedulator.ControlLoop.Cooldown
use schedulator.ControlLoop.Summary.{records_of}
use schedulator.ControlLoop.Logged
use schedulator.PlanGen.{generate_plan}
use schedulator.Witnesses.Intake.{events}
use schedulator.Samples.{
  thousandths, app_high, app_low, replica_low, metrics_high, node_1, cluster_with, snap_with,
  two_decisions,
}

-- A second cluster in which the replica fits more tightly.
abbrev cluster_2 : Cluster ℤ
cluster_2 = record {
  cluster_id = "c2";
  nodes = some (
      (
        "n2",
        record node_1 {
          node_id = "n2";
          cluster_id = "c2";
          allocated_gpus = pos 5;
          free_gpus = pos 3;
        },
      )
      ∷ []);
  fragmentation_score = pos 375;
}

abbrev snap_two : Snapshot ℤ
snap_two = record (snap_with 6) { clusters = ("c1", cluster_with 6) ∷ ("c2", cluster_2) ∷ [] }

find_consolidation_target_lem_example :
    Target.Verdict replica_low app_low snap_two
      (find_consolidation_target replica_low app_low snap_two)
find_consolidation_target_lem_example =
    Target.find_consolidation_target_lem replica_low app_low snap_two (
      (((λ e. ground (arith, eq_iff "n1" "", e)), tt)),
      ((((λ e. ground (arith, eq_iff "n2" "", e)), tt)), tt),
    )

-- A small cluster that a replica leaves for the last gap of a large one.
abbrev cluster_small : Cluster ℤ
cluster_small = record {
  cluster_id = "c1";
  nodes =
      some (
        ("n1", record node_1 { allocated_gpus = pos 2; free_gpus = pos 6; pods = "r1" ∷ [] }) ∷ []);
  fragmentation_score = pos 250;
}

abbrev cluster_large : Cluster ℤ
cluster_large = record {
  cluster_id = "c2";
  nodes = some (
      (
        "n2",
        record node_1 {
          node_id = "n2";
          cluster_id = "c2";
          total_gpus = pos 32;
          allocated_gpus = pos 29;
          free_gpus = pos 3;
        },
      )
      ∷ []);
  fragmentation_score = pos 906;
}

abbrev snap_moving : Snapshot ℤ
snap_moving = record (snap_with 6) {
  clusters = ("c1", cluster_small) ∷ ("c2", cluster_large) ∷ [];
  cache_locations =
      (
        "m",
        record {
          model_id = "m";
          cluster_id = "c2";
          node_id = "n2";
          tier = CacheTier.local_nvme;
          cached_at = 0;
        }
            ∷ [],
      )
      ∷ [];
}

-- One migration is proposed.
find_rebalancing_opportunities-snap_moving :
    elim (find_rebalancing_opportunities default_rebalancing_config snap_moving) [
      | none ↦ []
      | some ms ↦ map (λ m. m.source_replica_id) ms
    ]
    ≡ "r1" ∷ []
unfolding find_rebalancing_opportunities default_rebalancing_config count_by_status replicas_for_app
    find_consolidation_target consider_all consider tighter has_cached_model
    estimate_fragmentation_delta ◌-ℤ◌ ◌+ℤ◌ free_ratio ◌*ℤ◌
find_rebalancing_opportunities-snap_moving = refl

find_rebalancing_opportunities_lem_example :
    (ms : List MigrateDecision) × (find_rebalancing_opportunities default_rebalancing_config
        snap_moving
      ≡ some ms)
    × (pos (length ms) ≤ℤ max_int 1ℤ (default_rebalancing_config {F = ℤ}).max_migrations_per_cycle)
    × All (Migrations.IsProposed default_rebalancing_config snap_moving) ms
unfolding default_rebalancing_config
find_rebalancing_opportunities_lem_example =
    Migrations.find_rebalancing_opportunities_lem default_rebalancing_config snap_moving
      (omega arith)

abbrev engines : Engines ℤ
engines = record {
  scaling = default_scaling_config;
  placement = default_placement_config;
  preemption = record { default_grace_period_seconds = pos 30 };
  rebalancing = default_rebalancing_config;
  uuid = λ n. "u";
}

-- An execution that fulfills a reservation.
abbrev execute : List Operation → Snapshot ℤ → Execution String
execute plan snap = record {
  closings = fulfills "v1" ∷ [];
  result = record { completed = []; failed = []; aborted = [] };
}

abbrev loop : Loop ℤ
loop = record { world = run [] empty; drawn = 0 }

-- A tick after the second event, and one before and after the closing.
abbrev ticks_100 : Ticks
ticks_100 = record no_ticks {
  among_events = [] ∷ [] ∷ (100 ∷ []) ∷ [];
  among_closings = (101 ∷ []) ∷ (102 ∷ []) ∷ [];
}

take_turns-IsConsistent_example :
    IsConsistent
      (take_turns engines (batch events true 100 execute ticks_100 ∷ tick 200 ∷ []) loop).world
take_turns-IsConsistent_example =
    Consistent.take_turns-IsConsistent engines
      (batch events true 100 execute ticks_100 ∷ tick 200 ∷ []) loop (run-IsConsistent [] tt)

-- An application whose queue calls for more replicas, without a cluster.
abbrev waiting_loop : Loop ℤ
waiting_loop = record {
  world = record empty {
    applications = ("high", app_high) ∷ [];
    vllm_metrics = ("high", metrics_high) ∷ [];
  };
  drawn = 0;
}

plan_cycle-IsPlanned_example :
    (p : Planned ℤ) × ((plan_cycle engines events 100 waiting_loop).1 ≡ some p)
    × Plans.IsPlanned engines p
unfolding default_rebalancing_config empty
plan_cycle-IsPlanned_example =
    Plans.plan_cycle-IsPlanned engines events 100 waiting_loop (omega arith)
      ((refl, tt), (refl, tt))

abbrev first_decision : ScalingDecision
first_decision =
    compute_target default_scaling_config (snapshot 100 waiting_loop.world) "high" app_high
      metrics_high

first_decision-approved : first_decision.scale_action_approved ≡ true
unfolding compute_target apply_stability_controls count_by_status compute_target_replicas ◌+ℤ◌
    replicas_for_app build_replicas_by_app empty compute_effective_target stale_pending max_int ◌-ℤ◌
    dampen cap_up cap_down choose_target snapshot required_for_sla required_for_cache
    default_scaling_config required_for_queue ◌*ℤ◌ min_int breaches is_sla_breach is_cooling
first_decision-approved = refl

run_cycle-IsCooled_example : Cooldown.IsCooled engines 100 200 (
    lookup "high"
      (place_cycle engines events 200
        (run_cycle execute engines [] 100 waiting_loop).0).scaling_decisions)
unfolding place_cycle compute_targets snapshot empty
run_cycle-IsCooled_example =
    Cooldown.run_cycle-IsCooled engines execute [] events 100 200 waiting_loop "high" first_decision
      ((refl, tt), (refl, tt)) refl first_decision-approved

records_of-generate_plan_example :
    map
      (λ r. r.type)
      (records_of 7 ("u" ∷ []) (generate_plan (λ n. "u") 0 two_decisions []).operations)
    ≡ map
        (λ op. Logged.type_text op.type)
        (select
          (λ op. any (λ id. id == op.id) ("u" ∷ []))
          (generate_plan (λ n. "u") 0 two_decisions []).operations)
records_of-generate_plan_example =
    Logged.records_of-generate_plan (λ n. "u") 0 two_decisions [] 7 ("u" ∷ [])
