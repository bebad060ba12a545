-- ===== src/ControlLoop/Turns.antt =====
-- internal/controlloop/loop.go: the turns of the loop among the ticks of the sweep, which runs in a
-- goroutine of its own. Each call of the world state holds its lock, so a tick comes before or after
-- a call, also in the middle of a cycle and of an execution.
use schedulator.Prelude.{
  ap, ◌∙◌, String, Bool, List, [], ◌∷◌, Option, none, some, Map, if◌then◌else◌, ◌≡◌, refl,
}
use schedulator.Floats.{Float64}
use schedulator.Model.{Time, GpuReservation}
use schedulator.Model.Plans.{Operation}
use schedulator.WorldState.{WorldState, create_reservation, expire_stale_reservations}
use schedulator.WorldState.Snapshot.{Snapshot, snapshot}
use schedulator.Scaling.{ScalingDecision, compute_targets}
use schedulator.Placement.{compute_placement}
use schedulator.Rebalancing.{find_rebalancing_opportunities}
use schedulator.Executor.Operations.{Closing, close, close_all}
use schedulator.Ingestion.{Event}
use schedulator.ControlLoop.Validation.{Violation, validate_plan}
use schedulator.ControlLoop.Events.{
  apply_event, apply_events, apply_scaling_decision, apply_scaling_decisions,
}
use schedulator.ControlLoop.Cycle.{
  Engines, Execution, Placed, Planned, CycleEnd, panicked, validation_failure, executed, Loop,
  finder, conclude, create_reservations, place_cycle, plan_cycle, settle, finish, run_cycle,
}

module _ {F : Type 0} where
  -- Ticks of runReservationExpiry, at their times.
  unfoldable pub expire_ticks : List Time → WorldState F → WorldState F
  expire_ticks [] ws = ws
  expire_ticks (now ∷ ticks) ws = expire_ticks ticks (expire_stale_reservations now ws).0

  -- Calls with the ticks that come before each of them, and those that come after the last.
  unfoldable pub among :
      {A : Type 0}
      → (A → WorldState F → WorldState F)
      → List (List Time)
      → List A
      → WorldState F
      → WorldState F
  unfolding expire_ticks
  among f [] [] ws = ws
  among f [] (x ∷ xs) ws = among f [] xs (f x ws)
  among f (ticks ∷ more) [] ws = among f more [] (expire_ticks ticks ws)
  among f (ticks ∷ more) (x ∷ xs) ws = among f more xs (f x (expire_ticks ticks ws))

  abbrev pub decide : String × ScalingDecision → WorldState F → WorldState F
  decide (app_id, d) ws = apply_scaling_decision app_id d ws

  abbrev pub book : GpuReservation → WorldState F → WorldState F
  book r ws = (create_reservation r ws).0

-- The ticks during a cycle, by the calls that they come among.
pub record Ticks : Type 0 where
  pub among_events : List (List Time)
  pub among_decisions : List (List Time)
  pub among_reservations : List (List Time)
  pub among_closings : List (List Time)

abbrev pub no_ticks : Ticks
no_ticks = record {
  among_events = [];
  among_decisions = [];
  among_reservations = [];
  among_closings = [];
}

module _ {F : Type 0} ⦃fl : Float64 F⦄ (engines : Engines F) (ticks : Ticks) where
  -- Steps 0 to 5 of runCycle.
  unfoldable pub place_among : List (Event F) → Time → Loop F → Placed F
  unfolding among
  place_among events now l =
      let applied = among apply_event ticks.among_events events l.world in
      let snap = snapshot now applied in
      let decisions = compute_targets engines.scaling snap in
      let placed =
        compute_placement engines.placement engines.uuid (finder engines) l.drawn snap decisions in
      record {
        world =
            among book ticks.among_reservations placed.decisions.reservations
              (among decide ticks.among_decisions decisions applied);
        snap = snap;
        scaling_decisions = decisions;
        placements = placed;
      }

module _ {F E : Type 0} (execute : List Operation → Snapshot F → Execution E) (ticks : Ticks) where
  -- Steps 8 and 9.
  abbrev pub settle_among : Loop F → Planned F → List Violation → Loop F × CycleEnd F E
  settle_among l p (v ∷ vs) = (l, validation_failure (v ∷ vs))
  settle_among l p [] =
      let done = execute p.plan p.snap in
      (
        record l { world = among close ticks.among_closings done.closings l.world },
        executed p done.result,
      )

  abbrev pub finish_among : Loop F × Option (Planned F) → Loop F × CycleEnd F E
  finish_among (l, none) = (l, panicked)
  finish_among (l, some p) = settle_among l p (validate_plan p.plan p.snap)

  unfoldable pub run_cycle_among :
      ⦃fl : Float64 F⦄ → Engines F → List (Event F) → Time → Loop F → Loop F × CycleEnd F E
  unfolding place_among conclude
  run_cycle_among engines events now l =
      let b = place_among engines ticks events now l in
      finish_among (conclude engines b (find_rebalancing_opportunities engines.rebalancing b.snap))

-- What Run and runReservationExpiry react to: a batch, with whether this instance is the leader and the
-- ticks during its cycle, and a tick between two batches.
pub data Turn (F : Type 0) (E : Type 0) : Type 0 where
  batch :
      List (Event F)
      → (is_leader : Bool) → (now : Time) → (List Operation → Snapshot F → Execution E)
      → Ticks
      → Turn F E
  tick : (now : Time) → Turn F E

module _ {F E : Type 0} ⦃fl : Float64 F⦄ (engines : Engines F) where
  unfoldable pub take_turn : Turn F E → Loop F → Loop F
  unfolding run_cycle_among expire_ticks
  take_turn (batch events is_leader now execute ticks) l =
      if is_leader then (run_cycle_among execute ticks engines events now l).0 else l
  take_turn (tick now) l = record l { world = expire_ticks (now ∷ []) l.world }

  unfoldable pub take_turns : List (Turn F E) → Loop F → Loop F
  unfolding take_turn
  take_turns [] l = l
  take_turns (t ∷ ts) l = take_turns ts (take_turn t l)

-- Calls without ticks among them.
module _ {F : Type 0} where
  among_events-none :
      ⦃fl : Float64 F⦄ (es : List (Event F)) (ws : WorldState F)
      → among apply_event [] es ws ≡ apply_events es ws
  unfolding among apply_events
  among_events-none [] ws = refl
  among_events-none (e ∷ es) ws = among_events-none es (apply_event e ws)

  among_decisions-none :
      (m : Map ScalingDecision) (ws : WorldState F)
      → among decide [] m ws ≡ apply_scaling_decisions m ws
  unfolding among apply_scaling_decisions
  among_decisions-none [] ws = refl
  among_decisions-none ((id, d) ∷ m) ws = among_decisions-none m (apply_scaling_decision id d ws)

  among_reservations-none :
      (rs : List GpuReservation) (ws : WorldState F)
      → among book [] rs ws ≡ create_reservations rs ws
  unfolding among create_reservations
  among_reservations-none [] ws = refl
  among_reservations-none (r ∷ rs) ws = among_reservations-none rs (create_reservation r ws).0

  among_closings-none :
      (cs : List Closing) (ws : WorldState F) → among close [] cs ws ≡ close_all cs ws
  unfolding among close_all
  among_closings-none [] ws = refl
  among_closings-none (c ∷ cs) ws = among_closings-none cs (close c ws)

module _ {F : Type 0} ⦃fl : Float64 F⦄ (engines : Engines F) where
  place_among-none :
      (events : List (Event F)) (now : Time) (l : Loop F)
      → place_among engines no_ticks events now l ≡ place_cycle engines events now l
  unfolding place_among place_cycle
  place_among-none events now l = rw (among_events-none events l.world) (
      rw (among_decisions-none _ (apply_events events l.world))
        (rw (among_reservations-none _ _) refl))

  settle_among-none :
      {E : Type 0} (execute : List Operation → Snapshot F → Execution E) (l : Loop F)
      (p : Planned F) (vs : List Violation)
      → settle_among execute no_ticks l p vs ≡ settle execute l p vs
  settle_among-none execute l p [] =
      ap (λ w. (record l { world = w }, executed p (execute p.plan p.snap).result))
        (among_closings-none (execute p.plan p.snap).closings l.world)
  settle_among-none execute l p (v ∷ vs) = refl

  finish_among-none :
      {E : Type 0} (execute : List Operation → Snapshot F → Execution E)
      (planned : Loop F × Option (Planned F))
      → finish_among execute no_ticks planned ≡ finish execute planned
  finish_among-none execute (l, none) = refl
  finish_among-none execute (l, some p) =
      settle_among-none execute l p (validate_plan p.plan p.snap)

  -- A cycle with no ticks is the cycle of ControlLoop/Cycle.
  run_cycle_among-none :
      {E : Type 0} (execute : List Operation → Snapshot F → Execution E) (events : List (Event F))
      (now : Time) (l : Loop F)
      → run_cycle_among execute no_ticks engines events now l
        ≡ run_cycle execute engines events now l
  unfolding run_cycle_among run_cycle plan_cycle
  run_cycle_among-none execute events now l =
      ap
        (λ b.
          finish_among execute no_ticks
            (conclude engines b (find_rebalancing_opportunities engines.rebalancing b.snap)))
        (place_among-none events now l)
      ∙ finish_among-none execute (
          let b = place_cycle engines events now l in
          conclude engines b (find_rebalancing_opportunities engines.rebalancing b.snap))
