-- ===== src/Scaling/Targets.antt =====
-- internal/engine/scaling/engine.go: bounds of the computed targets.
use schedulator.Prelude.{
  ℤ, 0ℤ, ◌+ℤ◌, ◌-ℤ◌, ◌≤ℤ◌, ◌<ℤ◌, ltb_ℤ, max_int, min_int, max_int_bounds, min_int_bounds, +ℤ_parts,
  -ℤ_parts, arith, List, [], ◌∷◌, All, ◌⊎◌, inl, inr, Bool-cases,
}
use schedulator.Floats.{Float64}
use schedulator.Model.{Application, VllmMetrics}
use schedulator.Scaling.{
  ScalingConfig, cap_down, cap_up, dampen, choose_target, compute_target_replicas,
  required_for_queue, required_for_cache, required_for_sla, desired_for_efficiency,
}

-- The caps, the minimum, and the demands of the three pressures.
abbrev pub IsWithin : (target floor high low current : ℤ) → List ℤ → Type 0
IsWithin target floor high low current demands =
    (low ≤ℤ target)
    × (target ≤ℤ high)
    × (min_int floor high ≤ℤ target)
    × All (λ demand. (demand ≤ℤ current) ⊎ (min_int demand high ≤ℤ target)) demands

module _ {F : Type 0} ⦃fl : Float64 F⦄ (cfg : ScalingConfig F) where
  cap_down_bounds :
      (current target : ℤ)
      → 0ℤ ≤ℤ cfg.max_scale_down_per_cycle
      → (current -ℤ cfg.max_scale_down_per_cycle ≤ℤ cap_down cfg current target)
        × (target ≤ℤ cap_down cfg current target)
        × (cap_down cfg current target ≤ℤ max_int target current)
  unfolding cap_down
  cap_down_bounds current target h =
      let low = current -ℤ cfg.max_scale_down_per_cycle in
      ground (
        arith,
        max_int_bounds target low,
        max_int_bounds target current,
        -ℤ_parts current cfg.max_scale_down_per_cycle,
      )

  cap_up_bounds :
      (current target : ℤ)
      → 0ℤ ≤ℤ cfg.max_scale_up_per_cycle
      → (cap_up cfg current target ≤ℤ current +ℤ cfg.max_scale_up_per_cycle)
        × (min_int target (current +ℤ cfg.max_scale_up_per_cycle) ≤ℤ cap_up cfg current target)
        × (cap_up cfg current target ≤ℤ target)
  unfolding cap_up
  cap_up_bounds current target h =
      let high = current +ℤ cfg.max_scale_up_per_cycle in
      ground (arith, min_int_bounds target high, +ℤ_parts current cfg.max_scale_up_per_cycle)

  dampen_bounds :
      (least current target : ℤ)
      → 0ℤ ≤ℤ cfg.max_scale_down_per_cycle
      → 0ℤ ≤ℤ cfg.max_scale_up_per_cycle
      → (current -ℤ cfg.max_scale_down_per_cycle ≤ℤ dampen cfg least current target)
        × (dampen cfg least current target ≤ℤ current +ℤ cfg.max_scale_up_per_cycle)
        × (min_int least (current +ℤ cfg.max_scale_up_per_cycle) ≤ℤ dampen cfg least current target)
  unfolding dampen
  dampen_bounds least current target h k =
      let floored = max_int target least in
      let lowered = cap_down cfg current floored in
      let high = current +ℤ cfg.max_scale_up_per_cycle in
      let low = current -ℤ cfg.max_scale_down_per_cycle in
      omega (
        arith,
        cap_down_bounds current floored h,
        cap_up_bounds current lowered k,
        max_int_bounds target least,
        min_int_bounds lowered high,
        min_int_bounds least high,
        +ℤ_parts current cfg.max_scale_up_per_cycle,
        -ℤ_parts current cfg.max_scale_down_per_cycle,
      )

  -- A demand that the undampened target meets is met up to the cap on scale-ups.
  dampen_reaches :
      (least current target demand : ℤ)
      → 0ℤ ≤ℤ cfg.max_scale_down_per_cycle
      → 0ℤ ≤ℤ cfg.max_scale_up_per_cycle
      → demand ≤ℤ target
      → min_int demand (current +ℤ cfg.max_scale_up_per_cycle) ≤ℤ dampen cfg least current target
  unfolding dampen
  dampen_reaches least current target demand h k d =
      let floored = max_int target least in
      let lowered = cap_down cfg current floored in
      let high = current +ℤ cfg.max_scale_up_per_cycle in
      omega (
        arith,
        cap_down_bounds current floored h,
        cap_up_bounds current lowered k,
        max_int_bounds target least,
        min_int_bounds lowered high,
        min_int_bounds demand high,
      )

  choose_target_bounds :
      (q c s e current : ℤ)
      → (current <ℤ q → q ≤ℤ (choose_target q c s e current).0)
        × (current <ℤ c → c ≤ℤ (choose_target q c s e current).0)
        × (current <ℤ s → s ≤ℤ (choose_target q c s e current).0)
  unfolding choose_target
  choose_target_bounds q c s e current =
      let outer = max_int_bounds q (max_int c s) in
      let inner = max_int_bounds c s in
      (
        (λ h. ground (arith, outer, inner)),
        (λ h. ground (arith, outer, inner)),
        (λ h. ground (arith, outer, inner)),
      )

  exceeding_or :
      (demand current : ℤ) {P : Type 0} → (current <ℤ demand → P) → (demand ≤ℤ current) ⊎ P
  exceeding_or demand current h = elim (Bool-cases (ltb_ℤ current demand)) [
    | inl more ↦ inr (h (ground (arith, more)))
    | inr less ↦ inl (ground (arith, less))
  ]

  -- With caps that are not negative, the raw target of a cycle stays within the caps around the
  -- current count, reaches the minimum of the application unless the cap on scale-ups forbids it,
  -- and reaches each pressure demand that exceeds the current count, again up to that cap.
  pub compute_target_replicas_bounds :
      (app : Application) (metrics : VllmMetrics F) (current : ℤ)
      → 0ℤ ≤ℤ cfg.max_scale_down_per_cycle
      → 0ℤ ≤ℤ cfg.max_scale_up_per_cycle
      → IsWithin
          (compute_target_replicas cfg app metrics current).0
          app.min_replicas
          (current +ℤ cfg.max_scale_up_per_cycle)
          (current -ℤ cfg.max_scale_down_per_cycle)
          current
          (required_for_queue cfg metrics current
            ∷ required_for_cache cfg metrics current
            ∷ required_for_sla cfg app metrics current
            ∷ [])
  unfolding compute_target_replicas
  compute_target_replicas_bounds app metrics current h k =
      let q = required_for_queue cfg metrics current in
      let c = required_for_cache cfg metrics current in
      let s = required_for_sla cfg app metrics current in
      let e = desired_for_efficiency cfg app metrics current in
      let raw = (choose_target q c s e current).0 in
      let bounds = dampen_bounds app.min_replicas current raw h k in
      let chosen = choose_target_bounds q c s e current in
      (
        bounds.0,
        bounds.1,
        bounds.2,
        (
          exceeding_or q current
              (λ p. dampen_reaches app.min_replicas current raw q h k (chosen.0 p)),
          (
            exceeding_or c current
                (λ p. dampen_reaches app.min_replicas current raw c h k (chosen.1 p)),
            (
              exceeding_or s current
                  (λ p. dampen_reaches app.min_replicas current raw s h k (chosen.2 p)),
              tt,
            ),
          ),
        ),
      )
