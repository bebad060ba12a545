-- ===== src/Placement/Cycle.antt =====
-- internal/engine/placement/engine.go: the GPUs that a cycle books in a cluster.
use schedulator.Prelude.{
  Some, Some-left, Some-right, Some-none, All, ◌⊎◌, ℕ, zero, suc, ℤ, pos_part, 0ℤ, ◌+ℤ◌, ◌-ℤ◌, ◌≤ℤ◌,
  +ℤ_parts, -ℤ_parts, int_laws, String, ◌==◌, eq_iff, ◌≡◌, refl, sym, ◌∙◌, subst, ◌≢◌, inl, inr,
  List, [], ◌∷◌, Option, some, Map, lookup, counter, add_at, counter-add_at, sort_by, sum_by,
  sum_by-append, if◌then◌else◌, arith, Bool-cases, Option-cases,
}
use schedulator.Floats.{Float64}
use schedulator.Model.{Application, GpuReservation}
use schedulator.WorldState.{node_map, free_gpus_of, reserved_gpus}
use schedulator.Placement.Choice.{find_best_cluster-has_room}
use schedulator.Model.Plans.{SchedulingConstraints, PreemptionPlan}
use schedulator.WorldState.Snapshot.{Snapshot}
use schedulator.Scaling.{ScalingDecision}
use schedulator.Placement.Scoring.{PlacementConfig}
use schedulator.Placement.{
  cluster_available_gpus, find_best_cluster, Progress, reserve, place_replica, place_replicas,
  place_all, with_victims, compute_placement, by_priority, scale_ups_of, scale_downs_of,
  start_cycle,
}

-- The GPUs that a list of reservations promises in one cluster.
abbrev pub booked : String → List GpuReservation → ℤ
booked id = sum_by λ r. if r.cluster_id == id then r.gpus else 0ℤ

module _ {F : Type 0} (snap : Snapshot F) where
  available-take :
      (id : String) (gpus : ℤ) (reserved : Map ℤ)
      → gpus ≤ℤ cluster_available_gpus id snap reserved
      → counter id reserved ≤ℤ cluster_available_gpus id snap []
      → counter id reserved +ℤ gpus ≤ℤ cluster_available_gpus id snap []
  unfolding cluster_available_gpus
  available-take id gpus reserved room below = elim (Option-cases (lookup id snap.clusters)) [
    | inl e ↦ ground (arith, +ℤ_parts (counter id reserved) gpus)
    | inr (c, e) ↦
        let open_gpus = free_gpus_of (node_map c) -ℤ reserved_gpus id snap.reservations in
        ground (
          arith,
          +ℤ_parts (counter id reserved) gpus,
          -ℤ_parts open_gpus (counter id reserved),
          -ℤ_parts open_gpus 0ℤ,
        )
  ]

module _ {F : Type 0} ⦃fl : Float64 F⦄ (cfg : PlacementConfig F) (uuid : ℕ → String)
    (finder : Application → Snapshot F → Option PreemptionPlan) (snap : Snapshot F)
    (id : String) where
  -- The local counter of a cluster is what is booked there, and within what was available.
  record IsBooked (p : Progress) : Type 0 where
    tracked : counter id p.local_reservations ≡ booked id p.decisions.reservations
    within : counter id p.local_reservations ≤ℤ cluster_available_gpus id snap []

  reserve-IsBooked :
      (app_id : String) (app : Application) (k : String) (constraints : SchedulingConstraints)
      (p : Progress)
      → (k ≡ id
          → counter k p.local_reservations +ℤ app.gpus_per_replica
            ≤ℤ cluster_available_gpus id snap [])
      → IsBooked p
      → IsBooked (reserve cfg uuid finder app_id app snap k constraints p)
  unfolding reserve
  reserve-IsBooked app_id app k constraints p room v =
      let step = counter-add_at k id app.gpus_per_replica p.local_reservations in
      elim (Bool-cases (k == id)) [
        | inl here ↦
            let same = (eq_iff k id).0 here in
            let grown : counter id (add_at k app.gpus_per_replica p.local_reservations)
                ≡ counter id p.local_reservations +ℤ app.gpus_per_replica =
              ground (arith, step, same) in
            record {
              tracked =
                  rw
                    (sum_by-append (λ r. if r.cluster_id == id then r.gpus else 0ℤ)
                      p.decisions.reservations)
                    (rw here
                      (grown ∙ rw v.tracked (omega (int_laws, +ℤ_parts app.gpus_per_replica 0ℤ))));
              within =
                  subst (λ n. n ≤ℤ cluster_available_gpus id snap []) (sym grown)
                    (subst
                      (λ j.
                        counter j p.local_reservations +ℤ app.gpus_per_replica
                        ≤ℤ cluster_available_gpus id snap [])
                      same (room same));
            }
        | inr there ↦
            let kept : counter id (add_at k app.gpus_per_replica p.local_reservations)
                ≡ counter id p.local_reservations =
              ground (arith, step) in
            record {
              tracked =
                  rw
                    (sum_by-append (λ r. if r.cluster_id == id then r.gpus else 0ℤ)
                      p.decisions.reservations)
                    (rw there (kept ∙ v.tracked ∙ omega int_laws));
              within = subst (λ n. n ≤ℤ cluster_available_gpus id snap []) (sym kept) v.within;
            }
      ]

  -- A preemption of the cycle gives up a replica in the cluster.
  IsTouched : Progress → Type 0
  IsTouched p = Some (λ v. v.cluster_id ≡ id) p.decisions.preemptions

  IsKept : Progress → Type 0
  IsKept p = IsBooked p ⊎ IsTouched p

  reserve-IsTouched :
      (app_id : String) (app : Application) (k : String) (constraints : SchedulingConstraints)
      (p : Progress)
      → IsTouched p
      → IsTouched (reserve cfg uuid finder app_id app snap k constraints p)
  unfolding reserve IsTouched
  reserve-IsTouched app_id app k constraints p t = t

  reserve-IsKept :
      (app_id : String) (app : Application) (k : String) (constraints : SchedulingConstraints)
      (p : Progress)
      → (k ≡ id
          → counter k p.local_reservations ≤ℤ cluster_available_gpus k snap []
          → counter k p.local_reservations +ℤ app.gpus_per_replica
            ≤ℤ cluster_available_gpus k snap [])
      → IsKept p
      → IsKept (reserve cfg uuid finder app_id app snap k constraints p)
  unfolding IsKept
  reserve-IsKept app_id app k constraints p room (inl v) = inl (
      reserve-IsBooked app_id app k constraints p
        (λ same.
          subst
            (λ j.
              counter k p.local_reservations +ℤ app.gpus_per_replica
              ≤ℤ cluster_available_gpus j snap [])
            same
            (room same (
              subst (λ j. counter j p.local_reservations ≤ℤ cluster_available_gpus j snap [])
                (sym same) v.within)))
        v)
  reserve-IsKept app_id app k constraints p room (inr t) =
      inr (reserve-IsTouched app_id app k constraints p t)

  with_victims-IsKept :
      (plan : PreemptionPlan) (p : Progress)
      → IsKept p
      → IsKept (with_victims cfg uuid finder plan p)
  unfolding IsKept IsTouched
  with_victims-IsKept plan p (inl v) = inl (record { tracked = v.tracked; within = v.within })
  with_victims-IsKept plan p (inr t) = inr (Some-left _ p.decisions.preemptions plan.victims t)

  -- A plan gives up a replica in its target cluster, unless it books no GPUs.
  module _
      (stakes : (app : Application) (plan : PreemptionPlan)
        → finder app snap ≡ some plan
        → (app.gpus_per_replica ≤ℤ 0ℤ)
          ⊎ Some (λ v. v.cluster_id ≡ plan.target_cluster) plan.victims) where
    preempt-IsKept :
        (app_id : String) (app : Application) (plan : PreemptionPlan) (p : Progress)
        → finder app snap ≡ some plan
        → IsKept p
        → IsKept (
            reserve cfg uuid finder app_id app snap plan.target_cluster plan.constraints
              (with_victims cfg uuid finder plan p))
    preempt-IsKept app_id app plan p found v =
        let kept = with_victims-IsKept plan p v in
        let k = plan.target_cluster in
        elim (stakes app plan found) [
          | inl nothing ↦
              reserve-IsKept app_id app k plan.constraints _
                (λ same below.
                  ground (arith, +ℤ_parts (counter k p.local_reservations) app.gpus_per_replica))
                kept
          | inr victims ↦ elim (Bool-cases (k == id)) [
            | inr other ↦
                reserve-IsKept app_id app k plan.constraints _
                  (λ same below. absurd (ground (arith, eq_iff k id, other, same))) kept
            | inl here ↦
                unfold IsKept in
                inr (
                  reserve-IsTouched app_id app k plan.constraints
                    (with_victims cfg uuid finder plan p)
                    (unfold IsTouched in
                      Some-right _ p.decisions.preemptions plan.victims (
                        subst (λ c. Some (λ w. w.cluster_id ≡ c) plan.victims)
                          ((eq_iff k id).0 here) victims)))
          ]
        ]

    place_replica-IsKept :
        (app_id : String) (app : Application) (p : Progress)
        → IsKept p
        → IsKept (place_replica cfg uuid finder app_id app snap p)
    unfolding place_replica
    place_replica-IsKept app_id app p v =
        elim (Option-cases
          (find_best_cluster cfg app snap p.local_reservations p.local_app_placement)) [
            | inr ((k, constraints), e) ↦
                rw (e, place_replica)
                  (reserve-IsKept app_id app k constraints p
                    (λ same.
                      available-take snap k app.gpus_per_replica p.local_reservations
                        (find_best_cluster-has_room cfg app snap _ _ k constraints e))
                    v)
            | inl e ↦ elim (Option-cases (finder app snap)) [
              | inl missing ↦ rw (e, place_replica) (rw (missing, place_replica) v)
              | inr (plan, found) ↦
                  rw (e, place_replica)
                    (rw (found, place_replica) (preempt-IsKept app_id app plan p found v))
            ]
          ]

    place_replicas-IsKept :
        (n : ℕ) (app_id : String) (app : Application) (p : Progress)
        → IsKept p
        → IsKept (place_replicas cfg uuid finder n app_id app snap p)
    unfolding place_replicas
    place_replicas-IsKept zero app_id app p v = v
    place_replicas-IsKept (suc n) app_id app p v =
        place_replicas-IsKept n app_id app _ (place_replica-IsKept app_id app p v)

    fresh-IsKept : (p : Progress) → IsKept p → IsKept (record p { local_app_placement = [] })
    unfolding IsKept IsTouched
    fresh-IsKept p (inl v) = inl (record { tracked = v.tracked; within = v.within })
    fresh-IsKept p (inr t) = inr t

    place_all-IsKept :
        (ups : List (String × ℤ)) (p : Progress)
        → IsKept p
        → IsKept (place_all cfg uuid finder ups snap p)
    unfolding place_all
    place_all-IsKept [] p v = v
    place_all-IsKept ((app_id, delta) ∷ ups) p v =
        place_all-IsKept ups _
          (place_replicas-IsKept (pos_part delta) app_id _ _ (fresh-IsKept p v))

  available-nonneg : 0ℤ ≤ℤ cluster_available_gpus id snap []
  unfolding cluster_available_gpus
  available-nonneg = ground arith

  -- When each preemption plan that books GPUs gives up a replica in its target cluster: in a cycle of
  -- ComputePlacement in which no preemption is decided in a cluster, the GPUs of the new reservations
  -- there never exceed the GPUs that the cluster had available in the snapshot, whatever the scaling
  -- decisions, the scores and the order of the maps.
  pub compute_placement-le-available :
      ((app : Application) (plan : PreemptionPlan)
        → finder app snap ≡ some plan
        → (app.gpus_per_replica ≤ℤ 0ℤ)
          ⊎ Some (λ v. v.cluster_id ≡ plan.target_cluster) plan.victims)
      → (drawn : ℕ) (scaling : Map ScalingDecision)
      → All
          (λ v. v.cluster_id ≢ id)
          (compute_placement cfg uuid finder drawn snap scaling).decisions.preemptions
      → booked id (compute_placement cfg uuid finder drawn snap scaling).decisions.reservations
        ≤ℤ cluster_available_gpus id snap []
  unfolding compute_placement IsKept IsTouched
  compute_placement-le-available stakes drawn scaling untouched =
      let ups = sort_by (by_priority snap) (scale_ups_of snap scaling) in
      elim (place_all-IsKept stakes ups (start_cycle (scale_downs_of snap scaling) drawn)
        (inl (record { tracked = refl; within = available-nonneg }))) [
          | inl v ↦ subst (λ n. n ≤ℤ cluster_available_gpus id snap []) v.tracked v.within
          | inr t ↦ absurd (Some-none _ _ untouched t)
        ]
