-- ===== src/ControlLoop/Validation.antt =====
-- internal/controlloop/validation.go. A violation stands for the error text made from it; joined
-- errors are their list, and nil is the empty list.
pub mod Verdict
use schedulator.Prelude.{
  ℤ, 0ℤ, ltb_ℤ, String, ◌==◌, Bool, true, false, List, [], ◌∷◌, ◌++◌, map, Option, none, some, Map,
  lookup, values, counter, add_at, any, sum_by, if◌then◌else◌,
}
use schedulator.Model.{ReplicaStatus, status_eq, Node, Cluster, Replica, GpuReservation}
use schedulator.Model.Plans.{
  OperationType, Payload, scaling_up, scaling_down, preempting, unsupported, Operation,
  ScaleUpDecision, ScaleDownDecision, PreemptionDecision,
}
use schedulator.WorldState.{node_map}
use schedulator.WorldState.Snapshot.{Snapshot}

pub data Violation : Type 0 where
  self_preemption : String → Violation
  over_capacity : String → ℤ → ℤ → Violation
  scale_down_of_terminated : String → String → Violation

-- What an operation's type and payload make of it, as the type assertions of the source read them.
abbrev pub as_scale_up : Operation → Option ScaleUpDecision
as_scale_up op = elim op.type [
  | OperationType.scale_up ↦ elim op.payload [
    | scaling_up su ↦ some su
    | scaling_down sd ↦ none
    | preempting p ↦ none
    | unsupported ↦ none
  ]
  | OperationType.scale_down ↦ none
  | OperationType.preempt ↦ none
  | OperationType.migrate ↦ none
]

abbrev pub as_scale_down : Operation → Option ScaleDownDecision
as_scale_down op = elim op.type [
  | OperationType.scale_down ↦ elim op.payload [
    | scaling_down sd ↦ some sd
    | scaling_up su ↦ none
    | preempting p ↦ none
    | unsupported ↦ none
  ]
  | OperationType.scale_up ↦ none
  | OperationType.preempt ↦ none
  | OperationType.migrate ↦ none
]

abbrev pub as_preemption : Operation → Option PreemptionDecision
as_preemption op = elim op.type [
  | OperationType.preempt ↦ elim op.payload [
    | preempting p ↦ some p
    | scaling_up su ↦ none
    | scaling_down sd ↦ none
    | unsupported ↦ none
  ]
  | OperationType.scale_up ↦ none
  | OperationType.scale_down ↦ none
  | OperationType.migrate ↦ none
]

unfoldable pub scale_up_apps : List Operation → List String
scale_up_apps [] = []
scale_up_apps (op ∷ ops) =
    let rest = scale_up_apps ops in
    elim (as_scale_up op) [ some su ↦ su.app_id ∷ rest | none ↦ rest ]

unfoldable pub self_preemptions : List String → List Operation → List Violation
self_preemptions apps [] = []
self_preemptions apps (op ∷ ops) =
    let rest = self_preemptions apps ops in
    elim (as_preemption op) [
      | some p ↦
          if any (λ a. a == p.victim_app_id) apps
          then self_preemption p.victim_app_id ∷ rest
          else rest
      | none ↦ rest
    ]

unfoldable pub check_no_self_preemption : List Operation → List Violation
unfolding scale_up_apps self_preemptions
check_no_self_preemption plan = self_preemptions (scale_up_apps plan) plan

module _ {F : Type 0} where
  unfoldable pub gpus_per_cluster : Snapshot F → List Operation → Map ℤ → Map ℤ
  gpus_per_cluster snap [] m = m
  gpus_per_cluster snap (op ∷ ops) m = elim (as_scale_up op) [
    | none ↦ gpus_per_cluster snap ops m
    | some su ↦ elim (lookup su.reservation_id snap.reservations) [
      | none ↦ gpus_per_cluster snap ops m
      | some r ↦ gpus_per_cluster snap ops (add_at r.cluster_id r.gpus m)
    ]
  ]

  abbrev pub total_gpus_of : Cluster F → ℤ
  total_gpus_of c = sum_by (λ n. n.total_gpus) (values (node_map c))

  unfoldable pub over_capacities : Snapshot F → Map ℤ → List Violation
  over_capacities snap [] = []
  over_capacities snap ((id, reserved) ∷ m) =
      let rest = over_capacities snap m in
      elim (lookup id snap.clusters) [
        | none ↦ rest
        | some c ↦
            if ltb_ℤ (total_gpus_of c) reserved
            then over_capacity id reserved (total_gpus_of c) ∷ rest
            else rest
      ]

  unfoldable pub check_reservation_capacity : List Operation → Snapshot F → List Violation
  unfolding gpus_per_cluster over_capacities
  check_reservation_capacity plan snap = over_capacities snap (gpus_per_cluster snap plan [])

  unfoldable pub check_no_terminated_scale_down : List Operation → Snapshot F → List Violation
  check_no_terminated_scale_down [] snap = []
  check_no_terminated_scale_down (op ∷ ops) snap =
      let rest = check_no_terminated_scale_down ops snap in
      elim (as_scale_down op) [
        | none ↦ rest
        | some sd ↦ elim (lookup sd.replica_id snap.replicas) [
          | none ↦ rest
          | some r ↦
              if status_eq r.status ReplicaStatus.terminated
              then scale_down_of_terminated sd.replica_id sd.app_id ∷ rest
              else rest
        ]
      ]

  unfoldable pub validate_plan : List Operation → Snapshot F → List Violation
  unfolding check_no_self_preemption check_reservation_capacity check_no_terminated_scale_down
  validate_plan plan snap =
      check_no_self_preemption plan
      ++ check_reservation_capacity plan snap
      ++ check_no_terminated_scale_down plan snap
