-- ===== src/Scaling/Stability.antt =====
-- internal/engine/scaling/engine.go: cooldowns, the stabilization window, and what they let through.
use schedulator.Prelude.{
  ℤ, 0ℤ, 1ℤ, ◌+ℤ◌, ◌-ℤ◌, ◌≤ℤ◌, ◌<ℤ◌, max_int, max_int_bounds, +ℤ_parts, ◌≡◌, ◌↔◌, ◌⊎◌, inl, inr,
  String, Bool, true, false, [], ◌∷◌, subst, Map, lookup, AllValues, arith, ◌≢◌, Option-cases,
}
use schedulator.Floats.{Float64}
use schedulator.Model.{Time, ReplicaStatus, Application, VllmMetrics, ScalingHistory}
use schedulator.WorldState.Snapshot.{Snapshot, count_by_status}
use schedulator.Scaling.{
  ScalingConfig, ScalingDecision, up, down, unchanged, is_cooling, stale_pending,
  compute_target_replicas, compute_effective_target, apply_stability_controls, compute_target,
  targets_of, compute_targets,
}

module _ {F : Type 0} (cfg : ScalingConfig F) where
  -- When an action may go ahead.
  abbrev pub MayGoUp : Time → ScalingHistory → Bool → Type 0
  MayGoUp now history breach =
      (breach ≡ true) ⊎ (is_cooling now history.last_scale_up_at cfg.scale_up_cooldown ≡ false)

  abbrev pub MayGoDown : Time → ScalingHistory → Bool → Type 0
  MayGoDown now history breach =
      (is_cooling now history.last_scale_down_at cfg.scale_down_cooldown ≡ false)
      × ((breach ≡ true)
          ⊎ (cfg.stabilization_cycles ≤ℤ history.consecutive_scale_down_signals +ℤ 1ℤ))

  -- What the decision is: approved or not, and what it then asks for.
  abbrev pub IsControlled :
      ScalingDecision → (target current : ℤ) → Time → ScalingHistory → Bool → Type 0
  IsControlled d target current now history breach =
      (d.scale_action_approved ≡ true ↔ (
        (current <ℤ target) × MayGoUp now history breach
        ⊎ (target <ℤ current) × MayGoDown now history breach))
      × ((d.scale_action_approved ≡ true)
            × (d.target_count ≡ target)
            × ((d.direction ≡ up) × (current <ℤ target)
                ⊎ (d.direction ≡ down) × (target <ℤ current))
          ⊎ (d.scale_action_approved ≡ false)
            × (d.direction ≡ unchanged)
            × (d.target_count ≡ current))

module _ {F : Type 0} ⦃fl : Float64 F⦄ (cfg : ScalingConfig F) where
  -- With a target that is not below the current count nothing points down.
  controls_not_down :
      (app_id : String) (app : Application) (target current : ℤ) (snap : Snapshot F)
      → current ≤ℤ target
      → let d = apply_stability_controls cfg app_id app target current snap in
        (d.direction ≢ down)
        × (d.scale_down_signal_observed ≡ false)
        × (d.current_count ≤ℤ d.target_count)
  unfolding apply_stability_controls
  controls_not_down app_id app target current snap h =
      ((λ e. ground arith), ground arith, ground arith)

module _ {F : Type 0} ⦃fl : Float64 F⦄ where
  -- The effective target counts all running and pending replicas.
  live-le-effective :
      (app : Application) (raw : ℤ) (snap : Snapshot F)
      → count_by_status snap app.app_id ReplicaStatus.running
          +ℤ count_by_status snap app.app_id ReplicaStatus.pending
        ≤ℤ compute_effective_target app raw snap
  unfolding compute_effective_target
  live-le-effective app raw snap =
      let live =
        count_by_status snap app.app_id ReplicaStatus.running
        +ℤ count_by_status snap app.app_id ReplicaStatus.pending in
      let additional = max_int 0ℤ (raw -ℤ live) in
      ground (
        arith,
        max_int_bounds 0ℤ (raw -ℤ live),
        +ℤ_parts live additional,
        +ℤ_parts additional (stale_pending app snap),
        +ℤ_parts live (additional +ℤ stale_pending app snap),
      )

-- Applications stand under their own identifiers, as UpsertApplication stores them.
abbrev pub AreKeyed : Map Application → Type 0
AreKeyed [] = Unit
AreKeyed ((id, app) ∷ apps) = (app.app_id ≡ id) × AreKeyed apps

abbrev pub IsNotDown : ScalingDecision → Type 0
IsNotDown d =
    (d.direction ≢ down)
    × (d.scale_down_signal_observed ≡ false)
    × (d.current_count ≤ℤ d.target_count)

module _ {F : Type 0} ⦃fl : Float64 F⦄ (cfg : ScalingConfig F) where
  pub compute_target-IsNotDown :
      (snap : Snapshot F) (app_id : String) (app : Application) (metrics : VllmMetrics F)
      → app.app_id ≡ app_id
      → IsNotDown (compute_target cfg snap app_id app metrics)
  unfolding compute_target
  compute_target-IsNotDown snap app_id app metrics e =
      let live =
        count_by_status snap app_id ReplicaStatus.running
        +ℤ count_by_status snap app_id ReplicaStatus.pending in
      let raw = (compute_target_replicas cfg app metrics live).0 in
      controls_not_down cfg app_id app (compute_effective_target app raw snap) live snap (
        subst
          (λ k.
            count_by_status snap k ReplicaStatus.running
              +ℤ count_by_status snap k ReplicaStatus.pending
            ≤ℤ compute_effective_target app raw snap)
          e (live-le-effective app raw snap))

  targets_of-IsNotDown :
      (snap : Snapshot F) (apps : Map Application)
      → AreKeyed apps
      → AllValues IsNotDown (targets_of cfg snap apps)
  unfolding targets_of
  targets_of-IsNotDown snap [] k = tt
  targets_of-IsNotDown snap ((id, app) ∷ apps) (e, k) =
      elim (Option-cases (lookup id snap.vllm_metrics)) [
        | inl m ↦ rw (m, targets_of) (targets_of-IsNotDown snap apps k)
        | inr (metrics, m) ↦
            rw (m, targets_of)
              (compute_target-IsNotDown snap id app metrics e, targets_of-IsNotDown snap apps k)
      ]

  -- When each application stands under its own identifier, ComputeTargets never points down: no
  -- decision has the direction `down`, none observes a scale-down signal, and none has a target below
  -- its current count. The branch of the engine for scale-downs is never reached from there.
  pub compute_targets-IsNotDown :
      (snap : Snapshot F)
      → AreKeyed snap.applications
      → AllValues IsNotDown (compute_targets cfg snap)
  unfolding compute_targets
  compute_targets-IsNotDown snap k = targets_of-IsNotDown snap snap.applications k
