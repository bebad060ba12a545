-- ===== src/PlanGen/Contents.antt =====
-- internal/plangen/generator.go: what a generated plan holds.
use schedulator.Prelude.{ℕ, List, [], ◌∷◌, ◌++◌, map, String, ◌≡◌, ap, ◌∙◌}
use mathlib.Core.List.{append_assoc, append-nil, map-append}
use schedulator.Model.Plans.{
  PlacementDecisions, MigrateDecision, Payload, scaling_up, scaling_down, preempting, Operation,
}
use schedulator.PlanGen.{
  Draft, add_preemption, add_scale_down, add_scale_up, add_migration, phase, generate_plan,
}

abbrev pub payloads_of : List Operation → List Payload
payloads_of ops = map (λ op. op.payload) ops

-- The payloads of some decisions, one after the other.
abbrev pub each : {A : Type 0} → (A → List Payload) → List A → List Payload
each f [] = []
each f (x ∷ xs) = f x ++ each f xs

-- A migration is a scale-up in the target cluster, without a reservation, and a scale-down.
abbrev pub migrating : MigrateDecision → List Payload
migrating m =
    scaling_up record {
      app_id = m.app_id;
      cluster_id = m.target_cluster_id;
      reservation_id = "";
      scheduling_constraints = m.scheduling_constraints;
    }
    ∷ scaling_down record { app_id = m.app_id; replica_id = m.source_replica_id }
    ∷ []

phase-payloads :
    {A : Type 0} (step : A → Draft → Draft) (f : A → List Payload)
    → ((x : A) (d : Draft) → payloads_of (step x d).operations ≡ payloads_of d.operations ++ f x)
    → (xs : List A) (d : Draft)
    → payloads_of (phase step xs d).operations ≡ payloads_of d.operations ++ each f xs
unfolding phase
phase-payloads step f adds [] d = rw append-nil
phase-payloads step f adds (x ∷ xs) d =
    phase-payloads step f adds xs (step x d)
    ∙ ap (λ l. l ++ each f xs) (adds x d)
    ∙ append_assoc (payloads_of d.operations) (f x) (each f xs)

-- The payloads of a plan are, in this order and each once: the preemptions, the scale-downs, the
-- scale-ups, and for each migration its scale-up followed by its scale-down.
pub generate_plan-payloads :
    (uuid : ℕ → String) (drawn : ℕ) (decisions : PlacementDecisions)
    (migrations : List MigrateDecision)
    → payloads_of (generate_plan uuid drawn decisions migrations).operations
      ≡ each (λ p. preempting p ∷ []) decisions.preemptions
        ++ each (λ sd. scaling_down sd ∷ []) decisions.scale_downs
        ++ each (λ su. scaling_up su ∷ []) decisions.scale_ups
        ++ each migrating migrations
unfolding generate_plan add_preemption add_scale_down add_scale_up add_migration
generate_plan-payloads uuid drawn decisions migrations =
    phase-payloads (add_migration uuid) migrating (λ x d. rw map-append) migrations _
    ∙ ap (λ l. l ++ each migrating migrations)
        (phase-payloads (add_scale_up uuid) (λ su. scaling_up su ∷ []) (λ x d. rw map-append)
          decisions.scale_ups _)
    ∙ ap
        (λ l. l ++ each (λ su. scaling_up su ∷ []) decisions.scale_ups ++ each migrating migrations)
        (phase-payloads (add_scale_down uuid) (λ sd. scaling_down sd ∷ []) (λ x d. rw map-append)
            decisions.scale_downs _
          ∙ ap (λ l. l ++ each (λ sd. scaling_down sd ∷ []) decisions.scale_downs)
              (phase-payloads (add_preemption uuid) (λ p. preempting p ∷ []) (λ x d. rw map-append)
                decisions.preemptions _))
