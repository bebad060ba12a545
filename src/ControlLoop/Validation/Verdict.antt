-- ===== src/ControlLoop/Validation/Verdict.antt =====
-- internal/controlloop/validation.go: plans without violations.
use schedulator.Prelude.{
  ℤ, 0ℤ, ◌+ℤ◌, ◌≤ℤ◌, +ℤ_parts, eq_of_parts, String, ◌==◌, eq_iff, Bool, false, List, [], ◌∷◌, ◌++◌,
  none, some, Map, lookup, counter, add_at, counter-add_at, any, sum_by, subst, ap, int_laws,
  if◌then◌else◌, ◌≡◌, refl, sym, ◌∙◌, ◌⊎◌, inl, inr, arith, Bool-cases, Option-cases,
}
use schedulator.Model.{ReplicaStatus, status_eq, Cluster}
use schedulator.Model.Plans.{Operation}
use schedulator.WorldState.Snapshot.{Snapshot}
use schedulator.ControlLoop.Validation.{
  as_scale_up, as_scale_down, as_preemption, scale_up_apps, self_preemptions,
  check_no_self_preemption, gpus_per_cluster, total_gpus_of, over_capacities,
  check_reservation_capacity, check_no_terminated_scale_down, validate_plan,
}

-- The operation scales an application up; it preempts one that some operation scales up; it scales a
-- terminated replica down.
abbrev pub scales : String → Operation → Bool
scales app op = elim (as_scale_up op) [ some su ↦ su.app_id == app | none ↦ false ]

abbrev pub preempts_scaled : List Operation → Operation → Bool
preempts_scaled plan op = elim (as_preemption op) [
  | some p ↦ any (scales p.victim_app_id) plan
  | none ↦ false
]

abbrev pub removes_terminated : {F : Type 0} → Snapshot F → Operation → Bool
removes_terminated snap op = elim (as_scale_down op) [
  | none ↦ false
  | some sd ↦ elim (lookup sd.replica_id snap.replicas) [
    | none ↦ false
    | some r ↦ status_eq r.status ReplicaStatus.terminated
  ]
]

scale_up_apps-any :
    (app : String) (ops : List Operation)
    → any (λ a. a == app) (scale_up_apps ops) ≡ any (scales app) ops
unfolding scale_up_apps
scale_up_apps-any app [] = refl
scale_up_apps-any app (op ∷ ops) = ground (arith, scale_up_apps-any app ops)

self_preemptions-nil :
    (plan ops : List Operation)
    → self_preemptions (scale_up_apps plan) ops ≡ []
    → any (preempts_scaled plan) ops ≡ false
unfolding self_preemptions
self_preemptions-nil plan [] h = refl
self_preemptions-nil plan (op ∷ ops) h = elim (Option-cases (as_preemption op)) [
  | inl e ↦ rw (e, preempts_scaled) (self_preemptions-nil plan ops (rw (e, self_preemptions) at h))
  | inr (p, e) ↦ ground (
    arith,
    e,
    rw (e, self_preemptions) at h,
    self_preemptions-nil plan ops,
    scale_up_apps-any p.victim_app_id plan,
  )
]

append-nil_parts : {A : Type 0} (xs ys : List A) → xs ++ ys ≡ [] → (xs ≡ []) × (ys ≡ [])
append-nil_parts [] ys h = (refl, h)
append-nil_parts (x ∷ xs) ys h = ground (arith, h)

counter-add :
    (k j : String) (n : ℤ) (m : Map ℤ)
    → counter j (add_at k n m) ≡ counter j m +ℤ (if k == j then n else 0ℤ)
counter-add k j n m =
    counter-add_at k j n m
    ∙ ground (
      arith,
      eq_iff k j,
      eq_of_parts (counter j m) (counter j m +ℤ 0ℤ),
      +ℤ_parts (counter j m) 0ℤ,
    )

regroup : (a b c : ℤ) → (a +ℤ b) +ℤ c ≡ a +ℤ (b +ℤ c)
regroup a b c = omega int_laws

module _ {F : Type 0} (snap : Snapshot F) where
  check_no_terminated_scale_down-nil :
      (ops : List Operation)
      → check_no_terminated_scale_down ops snap ≡ []
      → any (removes_terminated snap) ops ≡ false
  unfolding check_no_terminated_scale_down
  check_no_terminated_scale_down-nil [] h = refl
  check_no_terminated_scale_down-nil (op ∷ ops) h =
      ground (arith, h, check_no_terminated_scale_down-nil ops)

  -- The GPUs that an operation's reservation takes in a cluster, where the snapshot knows it.
  abbrev pub reserved_by : String → Operation → ℤ
  reserved_by id op = elim (as_scale_up op) [
    | none ↦ 0ℤ
    | some su ↦ elim (lookup su.reservation_id snap.reservations) [
      | none ↦ 0ℤ
      | some r ↦ if r.cluster_id == id then r.gpus else 0ℤ
    ]
  ]

  counter-gpus_per_cluster :
      (id : String) (ops : List Operation) (m : Map ℤ)
      → counter id (gpus_per_cluster snap ops m) ≡ counter id m +ℤ sum_by (reserved_by id) ops
  unfolding gpus_per_cluster
  counter-gpus_per_cluster id [] m = omega int_laws
  counter-gpus_per_cluster id (op ∷ ops) m = elim (Option-cases (as_scale_up op)) [
    | inl e ↦
        rw (e, gpus_per_cluster, reserved_by) (counter-gpus_per_cluster id ops m ∙ omega int_laws)
    | inr (su, e) ↦ elim (Option-cases (lookup su.reservation_id snap.reservations)) [
      | inl missing ↦
          rw (e, gpus_per_cluster, reserved_by)
            (rw (missing, gpus_per_cluster, reserved_by)
              (counter-gpus_per_cluster id ops m ∙ omega int_laws))
      | inr (r, found) ↦
          rw (e, gpus_per_cluster, reserved_by)
            (rw (found, gpus_per_cluster, reserved_by)
              (counter-gpus_per_cluster id ops (add_at r.cluster_id r.gpus m)
                ∙ ap (λ n. n +ℤ sum_by (reserved_by id) ops) (counter-add r.cluster_id id r.gpus m)
                ∙ regroup (counter id m) (if r.cluster_id == id then r.gpus else 0ℤ)
                    (sum_by (reserved_by id) ops)))
    ]
  ]

  over_capacities-nil :
      (id : String) (c : Cluster F) (m : Map ℤ)
      → lookup id snap.clusters ≡ some c
      → over_capacities snap m ≡ []
      → (counter id m ≡ 0ℤ) ⊎ (counter id m ≤ℤ total_gpus_of c)
  unfolding over_capacities
  over_capacities-nil id c [] e h = inl refl
  over_capacities-nil id c ((k, n) ∷ m) e h = elim (Bool-cases (k == id)) [
    | inl same ↦
        let e' : lookup k snap.clusters ≡ some c =
          subst (λ j. lookup j snap.clusters ≡ some c) (sym ((eq_iff k id).0 same)) e in
        ground (arith, same, e', rw (e', over_capacities) at h)
    | inr other ↦ ground (arith, other, h, over_capacities-nil id c m e)
  ]

  -- A plan without violations: no operation preempts a replica of an application that some operation
  -- scales up, none scales a terminated replica down, and in each cluster of the snapshot the
  -- reservations that the snapshot holds for the plan's scale-ups take nothing, or no more GPUs than
  -- the nodes of the cluster have in total.
  pub validate_plan_lem :
      (plan : List Operation) (id : String) (c : Cluster F)
      → validate_plan plan snap ≡ []
      → lookup id snap.clusters ≡ some c
      → (any (preempts_scaled plan) plan ≡ false)
        × (any (removes_terminated snap) plan ≡ false)
        × ((sum_by (reserved_by id) plan ≡ 0ℤ) ⊎ (sum_by (reserved_by id) plan ≤ℤ total_gpus_of c))
  unfolding validate_plan check_no_self_preemption check_reservation_capacity
  validate_plan_lem plan id c h e =
      let (both, terminated) =
        append-nil_parts (check_no_self_preemption plan ++ check_reservation_capacity plan snap)
          (check_no_terminated_scale_down plan snap) h in
      let (own, capacity) =
        append-nil_parts (check_no_self_preemption plan) (check_reservation_capacity plan snap)
          both in
      let counted : counter id (gpus_per_cluster snap plan []) ≡ sum_by (reserved_by id) plan =
        counter-gpus_per_cluster id plan [] ∙ omega int_laws in
      (
        self_preemptions-nil plan plan own,
        check_no_terminated_scale_down-nil plan terminated,
        subst (λ n. (n ≡ 0ℤ) ⊎ (n ≤ℤ total_gpus_of c)) counted
            (over_capacities-nil id c (gpus_per_cluster snap plan []) e capacity),
      )
