-- ===== src/Placement/Downs.antt =====
-- internal/engine/scaling and internal/engine/placement together: the scale-downs of a cycle.
use schedulator.Prelude.{
  ℕ, pos_part, sort_by, ◌+◌, ℤ, ◌+ℤ◌, ◌≤ℤ◌, -ℤ_parts, String, ◌≡◌, refl, subst, ◌∙◌, List, [], ◌∷◌,
  Option, Map, lookup, AllEntries, count, arith, Option-cases, inl, inr,
}
use schedulator.Floats.{Float64}
use schedulator.Model.{ReplicaStatus, is_live, status_eq, Application, Replica, VllmMetrics}
use schedulator.Model.Plans.{PreemptionPlan}
use schedulator.WorldState.Snapshot.{
  Snapshot, replicas_for_app, count_active_replicas, count_by_status,
}
use schedulator.Scaling.{
  ScalingConfig, ScalingDecision, apply_stability_controls, compute_target, targets_of,
  compute_targets,
}
use schedulator.Scaling.Stability.{AreKeyed, compute_target-IsNotDown}
use schedulator.Placement.Scoring.{PlacementConfig}
use schedulator.Placement.{
  Progress, application_of, by_priority, scale_ups_of, delta_of, scale_downs_of, reserve,
  place_replica, place_replicas, place_all, start_cycle, compute_placement,
}

count-live :
    (rs : List Replica)
    → count (λ r. is_live r.status) rs
      ≡ count (λ r. status_eq r.status ReplicaStatus.running) rs
        + count (λ r. status_eq r.status ReplicaStatus.pending) rs
count-live [] = refl
count-live (r ∷ rs) = ground (arith, count-live rs)

active-eq-live :
    {F : Type 0} (snap : Snapshot F) (id : String)
    → count_active_replicas snap id
      ≡ count_by_status snap id ReplicaStatus.running
        +ℤ count_by_status snap id ReplicaStatus.pending
unfolding count_active_replicas count_by_status ◌+ℤ◌
active-eq-live snap id = ground (arith, count-live (replicas_for_app snap id))

-- No target lies below the count of active replicas.
abbrev Keeps : {F : Type 0} → Snapshot F → String → ScalingDecision → Type 0
Keeps snap id d = count_active_replicas snap id ≤ℤ d.target_count

module _ {F : Type 0} ⦃fl : Float64 F⦄ (cfg : ScalingConfig F) (snap : Snapshot F) where
  compute_target-current :
      (id : String) (app : Application) (metrics : VllmMetrics F)
      → (compute_target cfg snap id app metrics).current_count ≡ count_active_replicas snap id
  unfolding compute_target apply_stability_controls
  compute_target-current id app metrics = ground (arith, active-eq-live snap id)

  targets_of-Keeps :
      (apps : Map Application) → AreKeyed apps → AllEntries (Keeps snap) (targets_of cfg snap apps)
  unfolding targets_of
  targets_of-Keeps [] k = tt
  targets_of-Keeps ((id, app) ∷ apps) (e, k) = elim (Option-cases (lookup id snap.vllm_metrics)) [
    | inl m ↦ rw (m, targets_of) (targets_of-Keeps apps k)
    | inr (metrics, m) ↦
        rw (m, targets_of)
          (
            subst (λ n. n ≤ℤ (compute_target cfg snap id app metrics).target_count)
                (compute_target-current id app metrics)
                (compute_target-IsNotDown cfg snap id app metrics e).2,
            targets_of-Keeps apps k,
          )
  ]

module _ {F : Type 0} ⦃fl : Float64 F⦄ where
  scale_downs_of-nil :
      (snap : Snapshot F) (m : Map ScalingDecision)
      → AllEntries (Keeps snap) m
      → scale_downs_of snap m ≡ []
  unfolding scale_downs_of delta_of
  scale_downs_of-nil snap [] k = refl
  scale_downs_of-nil snap ((id, d) ∷ m) (above, k) =
      ground (
        arith,
        scale_downs_of-nil snap m k,
        -ℤ_parts d.target_count (count_active_replicas snap id),
      )

  module _ (cfg : PlacementConfig F) (uuid : ℕ → String)
      (finder : Application → Snapshot F → Option PreemptionPlan) (snap : Snapshot F) where
    place_replica-downs :
        (app_id : String) (app : Application) (p : Progress)
        → (place_replica cfg uuid finder app_id app snap p).decisions.scale_downs
          ≡ p.decisions.scale_downs
    unfolding place_replica reserve
    place_replica-downs app_id app p = ground arith

    place_replicas-downs :
        (n : ℕ) (app_id : String) (app : Application) (p : Progress)
        → (place_replicas cfg uuid finder n app_id app snap p).decisions.scale_downs
          ≡ p.decisions.scale_downs
    unfolding place_replicas
    place_replicas-downs ℕ.zero app_id app p = refl
    place_replicas-downs (ℕ.suc n) app_id app p =
        place_replicas-downs n app_id app _ ∙ place_replica-downs app_id app p

    place_all-downs :
        (ups : List (String × ℤ)) (p : Progress)
        → (place_all cfg uuid finder ups snap p).decisions.scale_downs ≡ p.decisions.scale_downs
    unfolding place_all
    place_all-downs [] p = refl
    place_all-downs ((app_id, delta) ∷ ups) p =
        let q = record p { local_app_placement = [] } in
        place_all-downs ups (
          place_replicas cfg uuid finder (pos_part delta) app_id (application_of snap app_id) snap
            q)
        ∙ place_replicas-downs (pos_part delta) app_id (application_of snap app_id) q

    -- Whatever the metrics, cooldowns, signals and caches: when the placement engine works on the
    -- decisions of the scaling engine for the same snapshot, whose applications stand under their own
    -- identifiers, it decides no scale-down.
    pub compute_placement-compute_targets :
        (scaling : ScalingConfig F) (drawn : ℕ)
        → AreKeyed snap.applications
        → (compute_placement cfg uuid finder drawn snap
            (compute_targets scaling snap)).decisions.scale_downs
          ≡ []
    unfolding compute_placement compute_targets
    compute_placement-compute_targets scaling drawn k =
        place_all-downs
          (sort_by (by_priority snap) (scale_ups_of snap (compute_targets scaling snap)))
          (start_cycle (scale_downs_of snap (compute_targets scaling snap)) drawn)
        ∙ scale_downs_of-nil snap (compute_targets scaling snap)
            (targets_of-Keeps scaling snap snap.applications k)
