-- ===== src/ControlLoop/Cycle.antt =====
-- internal/controlloop/loop.go: one scheduling cycle, between two ticks of the sweep. The executor, an
-- interface there, comes in as a function; it changes the world state by closing reservations.
use schedulator.Prelude.{ℕ, String, List, [], ◌∷◌, Option, none, some, Map}
use schedulator.Floats.{Float64}
use schedulator.Model.{Time, Application, GpuReservation}
use schedulator.Model.Plans.{
  PreemptionPlan, PlacementDecisions, MigrateDecision, Operation, ExecutionResult,
}
use schedulator.WorldState.{WorldState, create_reservation}
use schedulator.WorldState.Snapshot.{Snapshot, snapshot}
use schedulator.Scaling.{ScalingConfig, ScalingDecision, compute_targets}
use schedulator.Placement.{Progress, compute_placement}
use schedulator.Placement.Scoring.{PlacementConfig}
use schedulator.Preemption.{PreemptionConfig, find_preemption_opportunity}
use schedulator.Rebalancing.{RebalancingConfig, find_rebalancing_opportunities}
use schedulator.PlanGen.{generate_plan}
use schedulator.Executor.Operations.{Closing, close_all}
use schedulator.Ingestion.{Event}
use schedulator.ControlLoop.Validation.{Violation, validate_plan}
use schedulator.ControlLoop.Events.{apply_events, apply_scaling_decisions}

-- The engines of a loop, with the identifiers that they draw.
pub record Engines (F : Type 0) : Type 0 where
  pub scaling : ScalingConfig F
  pub placement : PlacementConfig F
  pub preemption : PreemptionConfig
  pub rebalancing : RebalancingConfig F
  pub uuid : ℕ → String

-- What an execution does to reservations, and its result.
pub record Execution (E : Type 0) : Type 0 where
  pub closings : List Closing
  pub result : ExecutionResult E

module _ {F : Type 0} where
  -- An error is only logged.
  unfoldable pub create_reservations : List GpuReservation → WorldState F → WorldState F
  create_reservations [] ws = ws
  create_reservations (r ∷ rs) ws = create_reservations rs (create_reservation r ws).0

-- The variables of runCycle after the reservations, and before it validates.
pub record Placed (F : Type 0) : Type 0 where
  pub world : WorldState F
  pub snap : Snapshot F
  pub scaling_decisions : Map ScalingDecision
  pub placements : Progress

pub record Planned (F : Type 0) : Type 0 where
  pub snap : Snapshot F
  pub scaling_decisions : Map ScalingDecision
  pub placements : PlacementDecisions
  pub migrations : List MigrateDecision
  pub plan : List Operation

-- How a cycle ends. The panic is that of the rebalancing engine.
pub data CycleEnd (F : Type 0) (E : Type 0) : Type 0 where
  panicked : CycleEnd F E
  validation_failure : List Violation → CycleEnd F E
  executed : Planned F → ExecutionResult E → CycleEnd F E

-- The world state and the number of identifiers drawn.
pub record Loop (F : Type 0) : Type 0 where
  pub world : WorldState F
  pub drawn : ℕ

module _ {F : Type 0} ⦃fl : Float64 F⦄ (engines : Engines F) where
  abbrev pub finder : Application → Snapshot F → Option PreemptionPlan
  finder app snap = find_preemption_opportunity engines.preemption app snap

  -- Steps 0 to 5.
  unfoldable pub place_cycle : List (Event F) → Time → Loop F → Placed F
  unfolding apply_events apply_scaling_decisions create_reservations
  place_cycle events now l =
      let applied = apply_events events l.world in
      let snap = snapshot now applied in
      let decisions = compute_targets engines.scaling snap in
      let placed = compute_placement engines.placement engines.uuid finder l.drawn snap decisions in
      record {
        world =
            create_reservations placed.decisions.reservations
              (apply_scaling_decisions decisions applied);
        snap = snap;
        scaling_decisions = decisions;
        placements = placed;
      }

  -- Step 7, on the migrations of step 6; no plan after a panic.
  unfoldable pub conclude : Placed F → Option (List MigrateDecision) → Loop F × Option (Planned F)
  conclude b none = (record { world = b.world; drawn = b.placements.drawn }, none)
  conclude b (some migrations) =
      let draft = generate_plan engines.uuid b.placements.drawn b.placements.decisions migrations in
      (
        record { world = b.world; drawn = draft.drawn },
        some record {
          snap = b.snap;
          scaling_decisions = b.scaling_decisions;
          placements = b.placements.decisions;
          migrations = migrations;
          plan = draft.operations;
        },
      )

  unfoldable pub plan_cycle : List (Event F) → Time → Loop F → Loop F × Option (Planned F)
  unfolding place_cycle conclude
  plan_cycle events now l =
      let b = place_cycle events now l in
      conclude b (find_rebalancing_opportunities engines.rebalancing b.snap)

module _ {F E : Type 0} (execute : List Operation → Snapshot F → Execution E) where
  -- Steps 8 and 9, on the violations found.
  abbrev pub settle : Loop F → Planned F → List Violation → Loop F × CycleEnd F E
  settle l p (v ∷ vs) = (l, validation_failure (v ∷ vs))
  settle l p [] =
      let done = execute p.plan p.snap in
      (record l { world = close_all done.closings l.world }, executed p done.result)

  abbrev pub finish : Loop F × Option (Planned F) → Loop F × CycleEnd F E
  finish (l, none) = (l, panicked)
  finish (l, some p) = settle l p (validate_plan p.plan p.snap)

  unfoldable pub run_cycle :
      ⦃fl : Float64 F⦄ → Engines F → List (Event F) → Time → Loop F → Loop F × CycleEnd F E
  unfolding plan_cycle close_all
  run_cycle engines events now l = finish (plan_cycle engines events now l)
