-- ===== src/Scaling.antt =====
-- internal/engine/scaling: how many replicas each application should have. The engine keeps no state;
-- its metrics and spans are not modelled.
pub mod Targets
pub mod Stability
use schedulator.Prelude.{
  ℕ, ℤ, pos, 0ℤ, 1ℤ, ◌+ℤ◌, ◌-ℤ◌, ltb_ℤ, eqb_ℤ, max_int, min_int, String, Bool, true, false, not,
  ◌&&◌, ◌||◌, List, [], ◌∷◌, Option, none, some, or_else, is_some, Map, lookup, count,
  if◌then◌else◌,
}
use schedulator.Floats.{Float64}
use schedulator.Model.{
  Time, Duration, is_zero_time, time_sub, seconds, ReplicaStatus, status_eq, Application, Replica,
  PerformanceProfile, VllmMetrics, ScalingHistory,
}
use schedulator.WorldState.{no_history}
use schedulator.WorldState.Snapshot.{Snapshot, replicas_for_app, count_by_status}

-- internal/engine/scaling/config.go
pub record ScalingConfig (F : Type 0) : Type 0 where
  pub queue_high_watermark : F
  pub queue_target : F
  pub queue_low_watermark : F
  pub kv_cache_high_watermark : F
  pub kv_cache_target : F
  pub kv_cache_low_watermark : F
  pub batch_low_watermark : F
  pub max_scale_down_per_cycle : ℤ
  pub max_scale_up_per_cycle : ℤ
  pub scale_up_cooldown : Duration
  pub scale_down_cooldown : Duration
  pub stabilization_cycles : ℤ

unfoldable pub default_scaling_config : {F : Type 0} ⦃fl : Float64 F⦄ → ScalingConfig F
default_scaling_config ⦃fl⦄ = record {
  queue_high_watermark = fl.literal 10 1;
  queue_target = fl.literal 5 1;
  queue_low_watermark = fl.literal 1 1;
  kv_cache_high_watermark = fl.literal 85 100;
  kv_cache_target = fl.literal 70 100;
  kv_cache_low_watermark = fl.literal 40 100;
  batch_low_watermark = fl.literal 30 100;
  max_scale_down_per_cycle = pos 2;
  max_scale_up_per_cycle = pos 10;
  scale_up_cooldown = seconds (pos 1);
  scale_down_cooldown = seconds (pos 3);
  stabilization_cycles = pos 3;
}

pub data ScaleDirection : Type 0 where
  up down unchanged : ScaleDirection

pub data ScaleSignal : Type 0 where
  queue kv_cache sla efficiency no_signal : ScaleSignal

-- The text that `string(d.Direction)` gives.
unfoldable pub direction_text : ScaleDirection → String
direction_text up = "up"
direction_text down = "down"
direction_text unchanged = "unchanged"

pub record ScalingDecision : Type 0 where
  pub app_id : String
  pub current_count : ℤ
  pub running_count : ℤ
  pub pending_count : ℤ
  pub target_count : ℤ
  pub direction : ScaleDirection
  pub signal : ScaleSignal
  pub sla_breach : Bool
  pub scale_action_approved : Bool
  pub action_at : Time
  pub scale_down_signal_observed : Bool

-- Lines 209-233: the pressure with the highest demand wins, else efficiency.
unfoldable pub choose_target : (q c s e current : ℤ) → ℤ × ScaleSignal
choose_target q c s e current =
    let scale_up_target = max_int q (max_int c s) in
    if ltb_ℤ current scale_up_target
    then (
      scale_up_target,
      if eqb_ℤ scale_up_target q then queue else if eqb_ℤ scale_up_target c then kv_cache else sla,
    )
    else (e, if ltb_ℤ e current then efficiency else no_signal)

-- A pending replica that has waited longer than twice the cold start.
abbrev pub is_stale_pending : Time → Duration → Replica → Bool
is_stale_pending now startup r =
    status_eq r.status ReplicaStatus.pending
    && (not (is_zero_time r.created_at) && ltb_ℤ startup (time_sub now r.created_at))

-- The time since an event is known and shorter than a cooldown.
unfoldable pub is_cooling : Time → Time → Duration → Bool
is_cooling now last cooldown = not (is_zero_time last) && ltb_ℤ (time_sub now last) cooldown

abbrev pub undecided : String → ℤ → ℤ → Bool → ScalingDecision
undecided app_id target current breach = record {
  app_id = app_id;
  current_count = current;
  running_count = 0ℤ;
  pending_count = 0ℤ;
  target_count = target;
  direction = unchanged;
  signal = no_signal;
  sla_breach = breach;
  scale_action_approved = false;
  action_at = 0;
  scale_down_signal_observed = false;
}

module _ {F : Type 0} ⦃fl : Float64 F⦄ where
  unfoldable pub is_sla_breach : Application → VllmMetrics F → Bool
  is_sla_breach app metrics =
      if eqb_ℤ app.sla.max_p99_ttft_ms 0ℤ
      then false
      else fl.lt (fl.of_int app.sla.max_p99_ttft_ms) metrics.p99_time_to_first_token_ms

  -- The replicas that a pressure factor asks for: one when there is none yet.
  abbrev pub scaled : ℤ → F → ℤ
  scaled current factor =
      if eqb_ℤ current 0ℤ then 1ℤ else fl.ceil_int (fl.mul (fl.of_int current) factor)

  module _ (cfg : ScalingConfig F) where
    unfoldable pub required_for_queue : VllmMetrics F → ℤ → ℤ
    required_for_queue metrics current =
        if fl.lt cfg.queue_high_watermark metrics.avg_waiting_queue_depth
          && fl.lt (fl.of_int 0ℤ) cfg.queue_target
        then scaled current (fl.div metrics.avg_waiting_queue_depth cfg.queue_target)
        else current

    unfoldable pub required_for_cache : VllmMetrics F → ℤ → ℤ
    required_for_cache metrics current =
        if fl.lt cfg.kv_cache_high_watermark metrics.max_kv_cache_utilization
        then scaled current (fl.div metrics.max_kv_cache_utilization cfg.kv_cache_target)
        else current

    unfoldable pub required_for_sla : Application → VllmMetrics F → ℤ → ℤ
    required_for_sla app metrics current =
        let limit = fl.of_int app.sla.max_p99_ttft_ms in
        if ltb_ℤ 0ℤ app.sla.max_p99_ttft_ms && fl.lt limit metrics.p99_time_to_first_token_ms
        then scaled current (fl.div metrics.p99_time_to_first_token_ms limit)
        else current

    unfoldable pub desired_for_efficiency : Application → VllmMetrics F → ℤ → ℤ
    desired_for_efficiency app metrics current =
        if fl.lt metrics.avg_waiting_queue_depth cfg.queue_low_watermark
          && (fl.lt metrics.avg_batch_utilization cfg.batch_low_watermark
              && (fl.lt metrics.avg_kv_cache_utilization cfg.kv_cache_low_watermark
                  && ltb_ℤ app.min_replicas current))
        then max_int
            (fl.ceil_int (
              fl.mul (fl.of_int current) (
                fl.max_f metrics.avg_batch_utilization (
                  fl.max_f metrics.avg_kv_cache_utilization
                    (fl.div metrics.avg_waiting_queue_depth cfg.queue_target)))))
            app.min_replicas
        else current

    -- The caps for one cycle, and the floor before them.
    unfoldable pub cap_down : (current target : ℤ) → ℤ
    cap_down current target =
        if ltb_ℤ target current
        then max_int target (current -ℤ cfg.max_scale_down_per_cycle)
        else target

    unfoldable pub cap_up : (current target : ℤ) → ℤ
    cap_up current target =
        if ltb_ℤ current target
        then min_int target (current +ℤ cfg.max_scale_up_per_cycle)
        else target

    unfoldable pub dampen : (min_replicas current target : ℤ) → ℤ
    dampen min_replicas current target =
        cap_up current (cap_down current (max_int target min_replicas))

    unfoldable pub compute_target_replicas : Application → VllmMetrics F → ℤ → ℤ × ScaleSignal
    compute_target_replicas app metrics current =
        let (target, signal) =
          choose_target (required_for_queue metrics current) (required_for_cache metrics current)
            (required_for_sla app metrics current) (desired_for_efficiency app metrics current)
            current in
        (dampen app.min_replicas current target, signal)

  unfoldable pub stale_pending : Application → Snapshot F → ℤ
  stale_pending app snap = elim (lookup app.app_id snap.performance_profiles) [
    | none ↦ 0ℤ
    | some profile ↦
        if fl.lt (fl.of_int 0ℤ) profile.cold_start_seconds
        then pos (
            count
              (is_stale_pending snap.taken_at
                (seconds (fl.to_int (fl.mul profile.cold_start_seconds (fl.of_int (pos 2))))))
              (replicas_for_app snap app.app_id))
        else 0ℤ
  ]

  unfoldable pub breaches : Application → Option (VllmMetrics F) → Bool
  breaches app none = false
  breaches app (some metrics) = is_sla_breach app metrics

  unfoldable pub compute_effective_target : Application → ℤ → Snapshot F → ℤ
  compute_effective_target app raw_target snap =
      let live_count =
        count_by_status snap app.app_id ReplicaStatus.running
        +ℤ count_by_status snap app.app_id ReplicaStatus.pending in
      let additional = max_int 0ℤ (raw_target -ℤ live_count) in
      let stuck = stale_pending app snap in
      live_count
      +ℤ (if ltb_ℤ 0ℤ stuck && breaches app (lookup app.app_id snap.vllm_metrics)
          then additional +ℤ stuck
          else additional)

  module _ (cfg : ScalingConfig F) where
    unfoldable pub control_up : Time → ScalingHistory → ScalingDecision → ScalingDecision
    control_up now history d =
        if not d.sla_breach && is_cooling now history.last_scale_up_at cfg.scale_up_cooldown
        then record d { target_count = d.current_count; direction = unchanged }
        else record d { direction = up; scale_action_approved = true; action_at = now }

    unfoldable pub control_down : Time → ScalingHistory → ScalingDecision → ScalingDecision
    control_down now history d =
        if is_cooling now history.last_scale_down_at cfg.scale_down_cooldown
        then record d { target_count = d.current_count; direction = unchanged; signal = efficiency }
        else if not d.sla_breach
            && ltb_ℤ (history.consecutive_scale_down_signals +ℤ 1ℤ) cfg.stabilization_cycles
        then record d {
          target_count = d.current_count;
          direction = unchanged;
          signal = efficiency;
          scale_down_signal_observed = true;
        }
        else record d {
          direction = down;
          signal = efficiency;
          scale_action_approved = true;
          action_at = now;
          scale_down_signal_observed = true;
        }

    unfoldable pub apply_stability_controls :
        String → Application → (target current : ℤ) → Snapshot F → ScalingDecision
    unfolding control_up control_down
    apply_stability_controls app_id app target current snap =
        let history = or_else (lookup app_id snap.scaling_history) no_history in
        let d = undecided app_id target current (breaches app (lookup app_id snap.vllm_metrics)) in
        if ltb_ℤ current target
        then control_up snap.taken_at history d
        else if ltb_ℤ target current
        then control_down snap.taken_at history d
        else d

    -- The body of the loop of ComputeTargets for one application with metrics.
    unfoldable pub compute_target :
        Snapshot F → String → Application → VllmMetrics F → ScalingDecision
    compute_target snap app_id app metrics =
        let live = count_by_status snap app_id ReplicaStatus.running in
        let waiting = count_by_status snap app_id ReplicaStatus.pending in
        let current = live +ℤ waiting in
        let (raw_target, signal) = compute_target_replicas cfg app metrics current in
        let effective = compute_effective_target app raw_target snap in
        let d = apply_stability_controls app_id app effective current snap in
        record d { running_count = live; pending_count = waiting; signal = signal }

    unfoldable pub targets_of : Snapshot F → Map Application → Map ScalingDecision
    targets_of snap [] = []
    targets_of snap ((app_id, app) ∷ apps) =
        let rest = targets_of snap apps in
        elim (lookup app_id snap.vllm_metrics) [
          | none ↦ rest
          | some metrics ↦ (app_id, compute_target snap app_id app metrics) ∷ rest
        ]

    unfoldable pub compute_targets : Snapshot F → Map ScalingDecision
    unfolding targets_of
    compute_targets snap = targets_of snap snap.applications
