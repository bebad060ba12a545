-- ===== src/ControlLoop/Cooldown.antt =====
-- internal/controlloop/loop.go with internal/engine/scaling: cooldowns from one cycle to the next.
use schedulator.Prelude.{
  1ℤ, ◌&&◌, ◌+ℤ◌, String, ◌==◌, eq_iff, true, false, List, [], ◌∷◌, none, Option, none, some,
  or_else, Map, lookup, lookup-insert, IsMap, ◌≡◌, ◌⊎◌, refl, sym, ap, ◌∙◌, subst, if◌then◌else◌,
  arith, Bool-cases, Option-cases, inl, inr,
}
use schedulator.Floats.{Float64}
use schedulator.Model.{Time, Application, VllmMetrics, ScalingHistory}
use schedulator.Model.Plans.{Operation}
use schedulator.WorldState.{
  WorldState, record_scale_event, record_event, increment_scale_down_signal, no_history,
}
use schedulator.WorldState.Snapshot.{Snapshot, snapshot}
use schedulator.Scaling.{
  ScalingConfig, ScalingDecision, up, is_cooling, direction_text, apply_stability_controls,
  compute_target, targets_of, compute_targets,
}
use schedulator.Scaling.Stability.{AreKeyed, compute_target-IsNotDown}
use schedulator.Rebalancing.{find_rebalancing_opportunities}
use schedulator.Ingestion.{Event}
use schedulator.ControlLoop.Events.{apply_events, apply_scaling_decision, apply_scaling_decisions}
use schedulator.ControlLoop.Kept.{
  AreListed, apply_events-kept, apply_scaling_decisions-applications, create_reservations-IsKept,
  conclude-IsKept,
}
use schedulator.ControlLoop.Cycle.{Engines, Execution, Loop, place_cycle, plan_cycle, run_cycle}

-- When an application was last scaled up.
abbrev last_up : {F : Type 0} → String → WorldState F → Time
last_up id ws = (or_else (lookup id ws.scaling_history) no_history).last_scale_up_at

module _ {F : Type 0} ⦃fl : Float64 F⦄ (cfg : ScalingConfig F) where
  -- A decision is not approved, or scales up now after the cooldown or on a breach.
  abbrev IsTimely : Time → Time → ScalingDecision → Type 0
  IsTimely now last d =
      (d.scale_action_approved ≡ false)
      ⊎ ((d.direction ≡ up)
          × (d.action_at ≡ now)
          × ((d.sla_breach ≡ true) ⊎ (is_cooling now last cfg.scale_up_cooldown ≡ false)))

  abbrev last_of_snap : Snapshot F → String → Time
  last_of_snap snap id = (or_else (lookup id snap.scaling_history) no_history).last_scale_up_at

  compute_target-IsTimely :
      (snap : Snapshot F) (id : String) (app : Application) (metrics : VllmMetrics F)
      → app.app_id ≡ id
      → IsTimely snap.taken_at (last_of_snap snap id) (compute_target cfg snap id app metrics)
  unfolding compute_target apply_stability_controls
  compute_target-IsTimely snap id app metrics e =
      let up_only = (compute_target-IsNotDown cfg snap id app metrics e).0 in
      ground (arith, up_only)

  targets_of-IsTimely :
      (snap : Snapshot F) (apps : Map Application) (id : String) (d : ScalingDecision)
      → AreKeyed apps
      → lookup id (targets_of cfg snap apps) ≡ some d
      → IsTimely snap.taken_at (last_of_snap snap id) d
  unfolding targets_of
  targets_of-IsTimely snap [] id d k e = absurd (ground (arith, e))
  targets_of-IsTimely snap ((j, app) ∷ apps) id d (same, k) e =
      elim (Option-cases (lookup j snap.vllm_metrics)) [
        | inl m ↦ targets_of-IsTimely snap apps id d k (rw (m, targets_of) at e)
        | inr (metrics, m) ↦
            let found = rw (m, targets_of) at e in
            elim (Bool-cases (j == id)) [
              | inr miss ↦ targets_of-IsTimely snap apps id d k (ground (arith, miss, found))
              | inl hit ↦
                  let made : compute_target cfg snap j app metrics ≡ d =
                    ground (arith, hit, found) in
                  subst (IsTimely snap.taken_at (last_of_snap snap id)) made (
                    subst
                      (λ i.
                        IsTimely snap.taken_at (last_of_snap snap i)
                          (compute_target cfg snap j app metrics))
                      ((eq_iff j id).0 hit) (compute_target-IsTimely snap j app metrics same))
            ]
      ]

  targets_of-missing :
      (snap : Snapshot F) (apps : Map Application) (id : String)
      → lookup id apps ≡ none
      → lookup id (targets_of cfg snap apps) ≡ none
  unfolding targets_of
  targets_of-missing snap [] id h = refl
  targets_of-missing snap ((j, app) ∷ apps) id h =
      ground (arith, h, targets_of-missing snap apps id)

-- Decisions that are approved scale up, and stand at most once for an application.
AreUps : Map ScalingDecision → Type 0
AreUps [] = Unit
AreUps ((j, d) ∷ m) =
    ((d.scale_action_approved ≡ false) ⊎ (d.direction ≡ up)) × (lookup j m ≡ none) × AreUps m

record_event-up :
    (id : String) (d : ScalingDecision) (h : ScalingHistory)
    → d.direction ≡ up
    → (record_event id (direction_text d.direction) d.action_at h).last_scale_up_at ≡ d.action_at
unfolding record_event direction_text
record_event-up id d h e =
    subst (λ k. (record_event id (direction_text k) d.action_at h).last_scale_up_at ≡ d.action_at)
      (sym e) refl

module _ {F : Type 0} ⦃fl : Float64 F⦄ (cfg : ScalingConfig F) where
  targets_of-AreUps :
      (snap : Snapshot F) (apps : Map Application)
      → IsMap apps
      → AreKeyed apps
      → AreUps (targets_of cfg snap apps)
  unfolding targets_of AreUps
  targets_of-AreUps snap [] m k = tt
  targets_of-AreUps snap ((j, app) ∷ apps) m k = elim (Option-cases (lookup j snap.vllm_metrics)) [
    | inl nothing ↦ rw (nothing, targets_of) (targets_of-AreUps snap apps m.1 k.1)
    | inr (metrics, given) ↦
        rw (given, targets_of)
          (
            ground (arith, compute_target-IsTimely cfg snap j app metrics k.0),
            targets_of-missing cfg snap apps j m.0,
            targets_of-AreUps snap apps m.1 k.1,
          )
  ]

module _ {F : Type 0} where
  last_up-decision :
      (j id : String) (d : ScalingDecision) (ws : WorldState F)
      → (d.scale_action_approved ≡ false) ⊎ (d.direction ≡ up)
      → last_up id (apply_scaling_decision j d ws)
        ≡ (if j == id && d.scale_action_approved then d.action_at else last_up id ws)
  unfolding apply_scaling_decision record_scale_event increment_scale_down_signal
  last_up-decision j id d ws h =
      let old = or_else (lookup j ws.scaling_history) no_history in
      ground (
        arith,
        eq_iff j id,
        h,
        record_event-up j d old,
        lookup-insert j id (record_event j (direction_text d.direction) d.action_at old)
            ws.scaling_history,
        lookup-insert j id
            (record old {
              app_id = j;
              consecutive_scale_down_signals = old.consecutive_scale_down_signals +ℤ 1ℤ;
            })
            ws.scaling_history,
      )

  last_up-missing :
      (id : String) (m : Map ScalingDecision) (ws : WorldState F)
      → AreUps m
      → lookup id m ≡ none
      → last_up id (apply_scaling_decisions m ws) ≡ last_up id ws
  unfolding apply_scaling_decisions AreUps
  last_up-missing id [] ws u h = refl
  last_up-missing id ((j, d) ∷ m) ws u h =
      last_up-missing id m (apply_scaling_decision j d ws) u.2 (ground (arith, h))
      ∙ ground (arith, last_up-decision j id d ws u.0, h)

  last_up-decisions :
      (id : String) (d : ScalingDecision) (m : Map ScalingDecision) (ws : WorldState F)
      → AreUps m
      → lookup id m ≡ some d
      → d.scale_action_approved ≡ true
      → last_up id (apply_scaling_decisions m ws) ≡ d.action_at
  unfolding apply_scaling_decisions AreUps
  last_up-decisions id d [] ws u h a = absurd (ground (arith, h))
  last_up-decisions id d ((j, c) ∷ m) ws u h a = elim (Bool-cases (j == id)) [
    | inr miss ↦
        last_up-decisions id d m (apply_scaling_decision j c ws) u.2 (ground (arith, miss, h)) a
    | inl hit ↦
        let same : c ≡ d = ground (arith, hit, h) in
        let gone = subst (λ i. lookup i m ≡ none) ((eq_iff j id).0 hit) u.1 in
        last_up-missing id m (apply_scaling_decision j c ws) u.2 gone
        ∙ last_up-decision j id c ws u.0
        ∙ ground (arith, hit, same, a)
  ]

module _ {F : Type 0} ⦃fl : Float64 F⦄ (engines : Engines F) where
  place_cycle-IsTimely :
      (events : List (Event F)) (now : Time) (l : Loop F) (id : String) (d : ScalingDecision)
      → AreListed l.world.applications
      → lookup id (place_cycle engines events now l).scaling_decisions ≡ some d
      → IsTimely engines.scaling now (last_up id l.world) d
  unfolding place_cycle compute_targets snapshot
  place_cycle-IsTimely events now l id d listed e =
      let (same, kept) = apply_events-kept events l.world listed in
      subst
        (λ h. IsTimely engines.scaling now (or_else (lookup id h) no_history).last_scale_up_at d)
        same
        (targets_of-IsTimely engines.scaling (snapshot now (apply_events events l.world)) _ id d
          kept.1 e)

  place_cycle-last_up :
      (events : List (Event F)) (now : Time) (l : Loop F) (id : String) (d : ScalingDecision)
      → AreListed l.world.applications
      → lookup id (place_cycle engines events now l).scaling_decisions ≡ some d
      → d.scale_action_approved ≡ true
      → last_up id (place_cycle engines events now l).world ≡ now
  unfolding place_cycle compute_targets snapshot
  place_cycle-last_up events now l id d listed e a =
      let b = place_cycle engines events now l in
      let applied = apply_events events l.world in
      let kept = (apply_events-kept events l.world listed).1 in
      let ups = targets_of-AreUps engines.scaling b.snap applied.applications kept.0 kept.1 in
      let reserved =
        create_reservations-IsKept b.placements.decisions.reservations
          (apply_scaling_decisions b.scaling_decisions applied) in
      ap (λ h. (or_else (lookup id h) no_history).last_scale_up_at) reserved.history
      ∙ last_up-decisions id d b.scaling_decisions applied ups e a
      ∙ ground (arith, a, place_cycle-IsTimely events now l id d listed e)

  place_cycle-AreListed :
      (events : List (Event F)) (now : Time) (l : Loop F)
      → AreListed l.world.applications
      → AreListed (place_cycle engines events now l).world.applications
  unfolding place_cycle
  place_cycle-AreListed events now l listed =
      let b = place_cycle engines events now l in
      let applied = apply_events events l.world in
      let reserved =
        create_reservations-IsKept b.placements.decisions.reservations
          (apply_scaling_decisions b.scaling_decisions applied) in
      subst AreListed
        (sym (
          reserved.applications ∙ apply_scaling_decisions-applications b.scaling_decisions applied))
        (apply_events-kept events l.world listed).1

  -- A decision, if there is one, is not approved, sees a breach, or comes after the cooldown.
  abbrev pub IsCooled : Time → Time → Option ScalingDecision → Type 0
  IsCooled now later none = Unit
  IsCooled now later (some e) =
      (e.scale_action_approved ≡ false)
      ⊎ (e.sla_breach ≡ true)
      ⊎ (is_cooling later now engines.scaling.scale_up_cooldown ≡ false)

  -- When a cycle approves an action of an application, whatever it executes, then in the next cycle a
  -- decision on that application is approved only if the cooldown of scale-ups since the first
  -- cycle's snapshot is over or the decision sees an SLA breach. In the state before, applications stand
  -- once and under their own identifiers.
  pub run_cycle-IsCooled :
      {E : Type 0} (execute : List Operation → Snapshot F → Execution E)
      (events later_events : List (Event F)) (now later : Time) (l : Loop F) (id : String)
      (d : ScalingDecision)
      → AreListed l.world.applications
      → lookup id (place_cycle engines events now l).scaling_decisions ≡ some d
      → d.scale_action_approved ≡ true
      → IsCooled now later (
          lookup id
            (place_cycle engines later_events later
              (run_cycle execute engines events now l).0).scaling_decisions)
  unfolding run_cycle plan_cycle
  run_cycle-IsCooled execute events later_events now later l id d listed first approved =
      let b = place_cycle engines events now l in
      let ms = find_rebalancing_opportunities engines.rebalancing b.snap in
      let rest = conclude-IsKept engines execute b ms in
      let after = (run_cycle execute engines events now l).0 in
      let apps =
        subst AreListed (sym rest.applications) (place_cycle-AreListed events now l listed) in
      let last =
        ap (λ h. (or_else (lookup id h) no_history).last_scale_up_at) rest.history
        ∙ place_cycle-last_up events now l id d listed first approved in
      let second = lookup id (place_cycle engines later_events later after).scaling_decisions in
      elim (Option-cases second) [
        | inl nothing ↦ subst (IsCooled now later) (sym nothing) tt
        | inr (e, found) ↦
            let timely = place_cycle-IsTimely later_events later after id e apps found in
            subst (IsCooled now later) (sym found)
              (ground (arith, subst (λ t. IsTimely engines.scaling later t e) last timely))
      ]
