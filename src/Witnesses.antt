-- ===== src/Witnesses.antt =====
-- Each theorem that has conditions, at data of Samples.antt that meet them.
pub mod Intake
pub mod Cycles
pub mod Clusters
pub mod Store
pub mod Stream
use schedulator.Prelude.{
  any, sum_by, 0ℤ, ℕ, ap, sym, ◌∙◌, ℤ, pos, 1ℤ, ◌+ℤ◌, ◌-ℤ◌, ◌≤ℤ◌, ◌≡◌, ◌≢◌, refl, ◌⊎◌, inl, inr,
  String, ◌==◌, eq_iff, true, false, List, [], ◌∷◌, Option, none, some, lookup, values, select, All,
  AllValues, arith, Map, ◌*ℤ◌, subst, Bool-cases, sort_by,
}
use schedulator.Floats.{IsOrdered}
use schedulator.Model.{is_active, GpuReservation, ReservationStatus, ReplicaStatus, Application}
use schedulator.Model.Plans.{preempting, scaling_up, PreemptionPlan}
use schedulator.WorldState.{
  free_gpus_of, reserved_gpus, delete_replica, upsert_replica, WorldState, empty, close_reservation,
  not_active, create_reservation,
}
use schedulator.WorldState.Calls.{IsConsistent, run}
use schedulator.WorldState.Calls.Consistent.{run-IsConsistent}
use schedulator.WorldState.Snapshot.{Snapshot, snapshot, replicas_for_app, count_active_replicas}
use schedulator.WorldState.Snapshot
use schedulator.WorldState.Calls.Closed
use schedulator.WorldState.Leaving
use schedulator.Scaling.{
  ScalingDecision, ScaleDirection, ScaleSignal, default_scaling_config, compute_targets,
  compute_target_replicas, required_for_queue, required_for_cache, required_for_sla,
}
use schedulator.Scaling.Targets
use schedulator.Scaling.Stability
use schedulator.Preemption.{
  PreemptionConfig, candidates_of, pool_from, pool, goes_first, sort_candidates, victim_of,
  take_victim, visit, select_loop, select_victims, cascade, find_preemption_opportunity,
}
use schedulator.Preemption.Cascade
use schedulator.Preemption.Stakes.{find_preemption_opportunity-target}
use schedulator.Placement.{
  delta_of, place_replica, best_candidate, is_eligible, has_fitting_node, is_full,
  count_app_replicas_in_cluster, reserve, best_of, by_priority, eligible_clusters, place_all,
  place_replicas, scale_ups_of, score_cluster, spread_limit, scale_downs_of, cluster_gpu_totals,
  balance_score, Progress, find_best_cluster, compute_placement, cluster_available_gpus,
}
use schedulator.Placement.Scoring.{default_placement_config}
use schedulator.Placement.Choice
use schedulator.Placement.Cycle
use schedulator.Placement.Downs
use schedulator.PlanGen.{
  generate_plan, phase, add_preemption, add_scale_up, add_scale_down, add_migration,
}
use schedulator.PlanGen.Execution
use schedulator.ControlLoop.Validation.{
  validate_plan, check_no_self_preemption, scale_up_apps, self_preemptions,
  check_reservation_capacity, gpus_per_cluster, over_capacities, check_no_terminated_scale_down,
  total_gpus_of,
}
use schedulator.ControlLoop.Validation.Verdict
use schedulator.Executor.Stranded
use schedulator.PlanGen.Links
use schedulator.PlanGen.Contents
use schedulator.Executor.{
  is_pending, status_of, abort_transitive, Run, start, dispatch_ready, add_dependents,
  add_operation, add_operations, dispatch_one, dispatch_each, receive, dispatched, started,
  received, AreDistinct, IsForward,
}
use schedulator.Executor.Abort.{direct, further}
use schedulator.Executor.Abort
use schedulator.Executor.Order.{respects}
use schedulator.Executor.Order
use schedulator.Samples.{
  thousandths, app_high, reservation_1, calls, metrics_high, snap_with, cluster_with, victim_low,
  replica_low, two_operations, constraints_2, two_decisions, up_high,
}

run-IsConsistent_example : IsConsistent (run calls empty)
unfolding ◌+ℤ◌
run-IsConsistent_example = run-IsConsistent calls (refl, (tt, (tt, (tt, (tt, tt)))))

thousandths-IsOrdered : IsOrdered thousandths
thousandths-IsOrdered = record {
  lt_irrefl = λ a. ground arith;
  lt_trans = λ a b c h k. ground (arith, h, k);
}

find_best_cluster_lem_example :
    Choice.Outcome default_placement_config app_high
      (snap_with 6)
      []
      []
      (find_best_cluster default_placement_config app_high (snap_with 6) [] [])
find_best_cluster_lem_example =
    Choice.find_best_cluster_lem default_placement_config app_high (snap_with 6)
      thousandths-IsOrdered [] []

abbrev no_finder : Application → Snapshot ℤ → Option PreemptionPlan
no_finder app snap = none

replicas_named :
    (free : ℕ) (id : String) → All (λ r. r.cluster_id ≢ "") (replicas_for_app (snap_with free) id)
unfolding replicas_for_app
replicas_named free id = elim (Bool-cases ("low" == id)) [
  | inl e ↦ rw (e, replicas_for_app) ((λ h. ground (arith, eq_iff "c1" "", h)), tt)
  | inr e ↦ rw (e, replicas_for_app) tt
]

abbrev grace_30 : PreemptionConfig
grace_30 = record { default_grace_period_seconds = pos 30 }

snap_with-IsRegular : (free : ℕ) → Cascade.IsRegular (snap_with free)
snap_with-IsRegular free = record {
  apps_map = (refl, (refl, tt));
  apps_keyed = (refl, (refl, tt));
  clusters_named = replicas_named free;
}

-- The preemption engine, in a cycle that has room without it.
abbrev real_finder : Application → Snapshot ℤ → Option PreemptionPlan
real_finder app snap = find_preemption_opportunity grace_30 app snap

abbrev one_more : Map ScalingDecision
one_more =
    (
      "high",
      record {
        app_id = "high";
        current_count = 0ℤ;
        running_count = 0ℤ;
        pending_count = 0ℤ;
        target_count = 1ℤ;
        direction = ScaleDirection.up;
        signal = ScaleSignal.queue;
        sla_breach = false;
        scale_action_approved = true;
        action_at = 100;
        scale_down_signal_observed = false;
      },
    )
    ∷ []

abbrev placed : Progress
placed = compute_placement default_placement_config (λ n. "v") real_finder 0 (snap_with 6) one_more

placed-untouched : placed.decisions.preemptions ≡ []
unfolding compute_placement delta_of ◌-ℤ◌ count_active_replicas replicas_for_app place_replica
    find_best_cluster best_candidate is_eligible has_fitting_node cluster_available_gpus
    free_gpus_of ◌+ℤ◌ reserved_gpus is_full ◌*ℤ◌ count_app_replicas_in_cluster reserve best_of
    by_priority eligible_clusters place_all place_replicas scale_ups_of score_cluster spread_limit
    sort_by scale_downs_of cluster_gpu_totals balance_score
placed-untouched = refl

compute_placement-le-available_example :
    Cycle.booked "c1" placed.decisions.reservations ≤ℤ cluster_available_gpus "c1" (snap_with 6) []
compute_placement-le-available_example =
    Cycle.compute_placement-le-available default_placement_config (λ n. "v") real_finder
      (snap_with 6) "c1"
      (find_preemption_opportunity-target grace_30 (snap_with 6) (snap_with-IsRegular 6)) 0 one_more
      (subst (All λ v. v.cluster_id ≢ "c1") (sym placed-untouched) tt)

compute_placement-compute_targets_example :
    (compute_placement default_placement_config
      (λ n. "v")
      no_finder
      0
      (snap_with 6)
      (compute_targets default_scaling_config (snap_with 6))).decisions.scale_downs
    ≡ []
compute_placement-compute_targets_example =
    Downs.compute_placement-compute_targets default_placement_config (λ n. "v") no_finder
      (snap_with 6) default_scaling_config 0 (refl, (refl, tt))

compute_targets-IsNotDown_example :
    AllValues Stability.IsNotDown (compute_targets default_scaling_config (snap_with 6))
compute_targets-IsNotDown_example =
    Stability.compute_targets-IsNotDown default_scaling_config (snap_with 6) (refl, (refl, tt))

abort_transitive-settled_example :
    is_pending (
      status_of "o3"
        (abort_transitive "o1" (("o1", "o2" ∷ []) ∷ ("o2", "o3" ∷ "o1" ∷ []) ∷ []) []).status)
    ≡ false
abort_transitive-settled_example =
    Abort.abort_transitive-settled (("o1", "o2" ∷ []) ∷ ("o2", "o3" ∷ "o1" ∷ []) ∷ []) "o1" [] "o3"
      (further "o2" "o3" (direct "o2" refl) refl) (λ e. ground (arith, eq_iff "o1" "o3", e))

-- The preemption of the plan has been answered, and the scale-up is in flight.
abbrev answered : Run String
answered = receive "o1" none (dispatch_ready (start two_operations))

Running-respects_example : All (λ op. respects (dispatch_ready answered) op ≡ true) two_operations
unfolding AreDistinct start add_operations add_operation add_dependents dispatch_ready dispatch_each
    dispatch_one
Running-respects_example =
    Order.Running-respects two_operations (dispatch_ready answered) (refl, (refl, tt))
      (dispatched answered (received (start two_operations) "o1" none started refl))

abbrev plan_low : PreemptionPlan
plan_low = record { victims = victim_low ∷ []; target_cluster = "c1"; constraints = constraints_2 }

find_preemption_opportunity-IsPlan_example :
    (app_high.priority ≢ pos 2)
    × ((chosen : List _) × Cascade.IsPlan grace_30 (snap_with 0) app_high plan_low chosen)
unfolding find_preemption_opportunity cascade select_victims select_loop visit take_victim victim_of
    sort_candidates goes_first pool pool_from candidates_of count_active_replicas replicas_for_app
    sort_by ◌+ℤ◌ ◌-ℤ◌
find_preemption_opportunity-IsPlan_example =
    Cascade.find_preemption_opportunity-IsPlan grace_30 (snap_with 0) app_high plan_low
      (snap_with-IsRegular 0) refl

abbrev two_uuids : ℕ → String
two_uuids ℕ.zero = "o1"
two_uuids (ℕ.suc n) = "o2"

generate_plan-IsLinked_example :
    Links.IsLinked [] (generate_plan two_uuids 0 two_decisions []).operations
generate_plan-IsLinked_example = Links.generate_plan-IsLinked two_uuids 0 two_decisions []

generate_plan-payloads_example :
    Contents.payloads_of (generate_plan two_uuids 0 two_decisions []).operations
    ≡ preempting victim_low ∷ scaling_up up_high ∷ []
generate_plan-payloads_example = Contents.generate_plan-payloads two_uuids 0 two_decisions []

abbrev after_calls : WorldState ℤ
after_calls = run calls empty

replicas_for_app-snapshot_example :
    (replicas_for_app (snapshot 9 after_calls) "low"
      ≡ select (Snapshot.of_app "low") (values after_calls.replicas))
    × (replicas_for_app (record (snapshot 9 after_calls) { replicas_by_app = none }) "low"
        ≡ select (Snapshot.of_app "low") (values after_calls.replicas))
replicas_for_app-snapshot_example = Snapshot.replicas_for_app-snapshot 9 after_calls "low"

abbrev reserved : WorldState ℤ
reserved = record empty { reservations = ("v1", reservation_1) ∷ [] }

-- It is fulfilled; then it is created again and fulfilled again, among other calls.
run-close_reservation_example :
    (r : GpuReservation) × (lookup "v1" reserved.reservations ≡ some r)
    × (is_active r.status ≡ true)
    × (lookup "v1"
          (run calls (close_reservation ReservationStatus.fulfilled "v1" reserved).0).reservations
        ≡ some (record r { status = ReservationStatus.fulfilled }))
    × ((again : ReservationStatus)
        → (close_reservation again "v1"
            (run calls (close_reservation ReservationStatus.fulfilled "v1" reserved).0)).1
          ≡ some (not_active "v1" ReservationStatus.fulfilled))
unfolding close_reservation
run-close_reservation_example =
    Closed.run-close_reservation ReservationStatus.fulfilled "v1" reserved calls refl refl

abort_transitive-changed_example :
    (status_of "o2" (abort_transitive "o1" (("o1", "o2" ∷ []) ∷ []) []).status ≡ status_of "o2" [])
    ⊎ Abort.IsAborted
        (("o1", "o2" ∷ []) ∷ [])
        "o1"
        []
        (abort_transitive "o1" (("o1", "o2" ∷ []) ∷ []) []).status
        "o2"
abort_transitive-changed_example =
    Abort.abort_transitive-changed (("o1", "o2" ∷ []) ∷ []) "o1" [] "o2"

compute_target_replicas_bounds_example :
    Targets.IsWithin
      (compute_target_replicas default_scaling_config app_high metrics_high 1ℤ).0
      1ℤ
      (1ℤ +ℤ pos 10)
      (1ℤ -ℤ pos 2)
      1ℤ
      (required_for_queue default_scaling_config metrics_high 1ℤ
        ∷ required_for_cache default_scaling_config metrics_high 1ℤ
        ∷ required_for_sla default_scaling_config app_high metrics_high 1ℤ
        ∷ [])
unfolding default_scaling_config
compute_target_replicas_bounds_example =
    Targets.compute_target_replicas_bounds default_scaling_config app_high metrics_high 1ℤ
      (ground arith) (ground arith)

-- The scale-up is in flight, and the preemption has completed.
dispatch_ready-is_over_example :
    Stranded.IsBusy (dispatch_ready answered)
    ⊎ All
        (λ op. Stranded.is_over (status_of op.id (dispatch_ready answered).status) ≡ true)
        two_operations
unfolding AreDistinct IsForward start add_operations add_operation add_dependents dispatch_ready
    dispatch_each dispatch_one
dispatch_ready-is_over_example =
    Stranded.dispatch_ready-is_over two_operations answered (refl, (refl, tt)) (refl, (refl, tt))
      (received (start two_operations) "o1" none started refl)

-- Identifiers that never repeat: a letter more for each.
abbrev letters : ℕ → String
letters ℕ.zero = "o"
letters (ℕ.suc n) = String.◌∷◌ "o" (letters n)

abbrev letters_beyond : String → ℕ
letters_beyond String.[] = 0
letters_beyond (String.◌∷◌ c s) = ℕ.suc (letters_beyond s)

letters_beyond-letters : (n : ℕ) → letters_beyond (letters n) ≡ ℕ.suc n
letters_beyond-letters ℕ.zero = refl
letters_beyond-letters (ℕ.suc n) = ap (λ k. ℕ.suc k) (letters_beyond-letters n)

letters_injective : (m n : ℕ) → letters m ≡ letters n → m ≡ n
letters_injective m n e =
    let equal : ℕ.suc m ≡ ℕ.suc n =
      sym (letters_beyond-letters m) ∙ ap letters_beyond e ∙ letters_beyond-letters n in
    omega (arith, equal)

abbrev planned : Run String
planned = start (generate_plan letters 0 two_decisions []).operations

generate_plan-is_over_example :
    Stranded.IsBusy (dispatch_ready (receive "o" none (dispatch_ready planned)))
    ⊎ All
        (λ op.
          Stranded.is_over
            (status_of op.id (dispatch_ready (receive "o" none (dispatch_ready planned))).status)
          ≡ true)
        (generate_plan letters 0 two_decisions []).operations
unfolding start add_operations add_operation add_dependents dispatch_ready dispatch_each
    dispatch_one generate_plan phase add_preemption add_scale_up add_scale_down add_migration
generate_plan-is_over_example =
    Execution.generate_plan-is_over letters 0 two_decisions []
      (receive "o" none (dispatch_ready planned)) letters_injective
      (received planned "o" none started refl)

-- The snapshot holds the reservation of the scale-up.
abbrev snap_reserved : Snapshot ℤ
snap_reserved = record (snap_with 6) { reservations = ("v1", reservation_1) ∷ [] }

validate_plan_lem_example :
    (any (Verdict.preempts_scaled two_operations) two_operations ≡ false)
    × (any (Verdict.removes_terminated snap_reserved) two_operations ≡ false)
    × ((sum_by (Verdict.reserved_by snap_reserved "c1") two_operations ≡ 0ℤ)
        ⊎ (sum_by (Verdict.reserved_by snap_reserved "c1") two_operations
            ≤ℤ total_gpus_of (cluster_with 6)))
unfolding validate_plan check_no_self_preemption scale_up_apps self_preemptions
    check_reservation_capacity gpus_per_cluster over_capacities check_no_terminated_scale_down ◌+ℤ◌
validate_plan_lem_example =
    Verdict.validate_plan_lem snap_reserved two_operations "c1" (cluster_with 6) refl refl

abbrev one_cluster : WorldState ℤ
one_cluster = record empty { clusters = ("c1", cluster_with 6) ∷ [] }

delete_replica-upsert_replica_example :
    Leaving.IsBack "r1" "c1" "n1" ReplicaStatus.running
      (delete_replica "r1" (upsert_replica replica_low one_cluster))
      one_cluster
unfolding empty
delete_replica-upsert_replica_example =
    Leaving.delete_replica-upsert_replica replica_low one_cluster "r1" "c1" "n1"
      ReplicaStatus.running refl refl
