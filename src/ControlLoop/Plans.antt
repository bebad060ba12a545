-- ===== src/ControlLoop/Plans.antt =====
-- internal/controlloop/loop.go: what the plan of a cycle asks for.
use mathlib.Core.List.{append-nil}
use schedulator.Prelude.{
  List, [], ◌∷◌, ◌++◌, some, ◌≡◌, ap, ◌∙◌, pos, 0ℤ, 1ℤ, ◌≤ℤ◌, max_int, length, All,
}
use schedulator.Floats.{Float64}
use schedulator.Model.{Time}
use schedulator.Model.Plans.{MigrateDecision, preempting, scaling_up, scaling_down}
use schedulator.WorldState.Snapshot.{snapshot}
use schedulator.Placement.Downs.{compute_placement-compute_targets}
use schedulator.PlanGen.{generate_plan}
use schedulator.PlanGen.Contents.{payloads_of, each, migrating, generate_plan-payloads}
use schedulator.Rebalancing.Migrations.{IsProposed, find_rebalancing_opportunities_lem}
use schedulator.Ingestion.{Event}
use schedulator.ControlLoop.Kept.{AreListed, apply_events-kept}
use schedulator.ControlLoop.Cycle.{
  Engines, Planned, Placed, Loop, finder, place_cycle, conclude, plan_cycle,
}

module _ {F : Type 0} ⦃fl : Float64 F⦄ (engines : Engines F) where
  -- A plan that asks for the preemptions and the scale-ups of the placement and, for each migration,
  -- which a pod of a fragmented node proposed, for a scale-up and a scale-down.
  pub record IsPlanned (p : Planned F) : Type 0 where
    pub payloads :
        payloads_of p.plan
        ≡ each (λ v. preempting v ∷ []) p.placements.preemptions
          ++ each (λ su. scaling_up su ∷ []) p.placements.scale_ups
          ++ each migrating p.migrations
    pub bounded :
        pos (length p.migrations) ≤ℤ max_int 1ℤ engines.rebalancing.max_migrations_per_cycle
    pub worthwhile : All (IsProposed engines.rebalancing p.snap) p.migrations

  conclude-IsPlanned :
      (b : Placed F) (ms : List MigrateDecision)
      → b.placements.decisions.scale_downs ≡ []
      → payloads_of
          (generate_plan engines.uuid b.placements.drawn b.placements.decisions ms).operations
        ≡ each (λ v. preempting v ∷ []) b.placements.decisions.preemptions
          ++ each (λ su. scaling_up su ∷ []) b.placements.decisions.scale_ups
          ++ each migrating ms
  conclude-IsPlanned b ms none_down =
      generate_plan-payloads engines.uuid b.placements.drawn b.placements.decisions ms
      ∙ ap
          (λ downs.
            each (λ v. preempting v ∷ []) b.placements.decisions.preemptions
            ++ each (λ sd. scaling_down sd ∷ []) downs
            ++ each (λ su. scaling_up su ∷ []) b.placements.decisions.scale_ups
            ++ each migrating ms)
          none_down
      ∙ ap
          (λ l.
            l
            ++ each (λ su. scaling_up su ∷ []) b.placements.decisions.scale_ups
            ++ each migrating ms)
          (append-nil (each (λ v. preempting v ∷ []) b.placements.decisions.preemptions))

  -- With a bound on migrations of at least 0 and applications that stand once and under their own
  -- identifiers, a cycle makes a plan. Its payloads are the preemptions, then the scale-ups of the
  -- placement, then for each migration a scale-up and a scale-down, so that nothing else is scaled
  -- down; and the migrations are at most as many as the bound, or one, and each moves a replica off a
  -- ready, partly allocated node of a cluster of the snapshot that is fragmented enough, for a gain
  -- that counts.
  pub plan_cycle-IsPlanned :
      (events : List (Event F)) (now : Time) (l : Loop F)
      → 0ℤ ≤ℤ engines.rebalancing.max_migrations_per_cycle
      → AreListed l.world.applications
      → (p : Planned F) × ((plan_cycle engines events now l).1 ≡ some p) × IsPlanned p
  unfolding plan_cycle conclude place_cycle snapshot
  plan_cycle-IsPlanned events now l bound listed =
      let b = place_cycle engines events now l in
      let (ms, found, few, good) =
        find_rebalancing_opportunities_lem engines.rebalancing b.snap bound in
      let keyed = (apply_events-kept events l.world listed).1.1 in
      let none_down =
        compute_placement-compute_targets engines.placement engines.uuid (finder engines) b.snap
          engines.scaling l.drawn keyed in
      (
        record {
          snap = b.snap;
          scaling_decisions = b.scaling_decisions;
          placements = b.placements.decisions;
          migrations = ms;
          plan =
              (generate_plan engines.uuid b.placements.drawn b.placements.decisions ms).operations;
        },
        ap (λ o. (conclude engines b o).1) found,
        record { payloads = conclude-IsPlanned b ms none_down; bounded = few; worthwhile = good },
      )
