-- ===== src/Preemption/Stakes.antt =====
-- internal/engine/preemption/engine.go: what the placement engine relies on in a preemption plan.
use schedulator.Prelude.{Some, 0ℤ, ◌≤ℤ◌, List, [], ◌∷◌, some, ◌≡◌, sym, subst, ◌⊎◌, inl, inr}
use schedulator.Floats.{Float64}
use schedulator.Model.{Application}
use schedulator.Model.Plans.{PreemptionPlan}
use schedulator.WorldState.Snapshot.{Snapshot}
use schedulator.Preemption.{
  PreemptionConfig, VictimCandidate, victim_of, find_preemption_opportunity,
}
use schedulator.Preemption.Cascade.{IsRegular, IsPlan, find_preemption_opportunity-IsPlan}

module _ {F : Type 0} (cfg : PreemptionConfig) (snap : Snapshot F) (app : Application) where
  IsPlan-target :
      (plan : PreemptionPlan) (chosen : List VictimCandidate)
      → IsPlan cfg snap app plan chosen
      → (app.gpus_per_replica ≤ℤ 0ℤ) ⊎ Some (λ v. v.cluster_id ≡ plan.target_cluster) plan.victims
  unfolding victim_of
  IsPlan-target plan [] p = inl p.enough
  IsPlan-target plan (c ∷ cs) p = inr (
      subst (Some λ v. v.cluster_id ≡ plan.target_cluster) (sym p.victims_chosen)
        (inl p.same_cluster.0))

-- In a regular snapshot a plan that frees GPUs gives up a replica in its target cluster.
pub find_preemption_opportunity-target :
    {F : Type 0} ⦃fl : Float64 F⦄ (cfg : PreemptionConfig) (snap : Snapshot F)
    → IsRegular snap
    → (app : Application) (plan : PreemptionPlan)
    → find_preemption_opportunity cfg app snap ≡ some plan
    → (app.gpus_per_replica ≤ℤ 0ℤ) ⊎ Some (λ v. v.cluster_id ≡ plan.target_cluster) plan.victims
find_preemption_opportunity-target cfg snap regular app plan found =
    let (top, (chosen, p)) = find_preemption_opportunity-IsPlan cfg snap app plan regular found in
    IsPlan-target cfg snap app plan chosen p
