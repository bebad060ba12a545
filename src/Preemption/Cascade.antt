-- ===== src/Preemption/Cascade.antt =====
-- internal/engine/preemption/engine.go: what a preemption plan promises.
use schedulator.Prelude.{
  Some, All-Some, ℤ, pos, 0ℤ, 1ℤ, ◌+ℤ◌, ◌-ℤ◌, ◌≤ℤ◌, ◌<ℤ◌, ltb_ℤ, leb_ℤ, eqb_ℤ, sum_by-append, ◌≡◌,
  refl, sym, ap, ap₂, ◌∙◌, subst, ◌⊎◌, inl, inr, ◌≢◌, String, ◌==◌, eq_iff, true, List, [], ◌∷◌,
  ◌++◌, map, select, some, Map, lookup, IsMap, AllEntries, entries-lookup, count, count-append, All,
  All-append, All-map, sort_by-All, if◌then◌else◌, ◌||◌, ◌&&◌, arith, Bool-cases,
}
use mathlib.Core.List.{map-append}
use mathlib.Core.Option.{some-injective}
use schedulator.Floats.{Float64}
use schedulator.Model.{Application, Replica, is_live}
use schedulator.Model.Plans.{PreemptionPlan, PreemptionDecision}
use schedulator.WorldState.Snapshot.{Snapshot, replicas_for_app, count_active_replicas}
use schedulator.Scaling.Stability.{AreKeyed}
use schedulator.Preemption.{
  PreemptionConfig, VictimCandidate, victim_of, candidates_of, pool_from, pool, sort_candidates,
  Selected, select_victims, cascade, find_preemption_opportunity,
}
use schedulator.Preemption.Selection.{
  of_victim, gpus_of, IsKnown, KeepsMinimum, IsSelection, select_victims-IsSelection,
  select_victims-target,
}

-- What the preemption engine relies on in a snapshot: applications stand once and under their own
-- identifiers, and replicas name their clusters.
pub record IsRegular {F : Type 0} (snap : Snapshot F) : Type 0 where
  pub apps_map : IsMap snap.applications
  pub apps_keyed : AreKeyed snap.applications
  pub clusters_named : (id : String) → All (λ r. r.cluster_id ≢ "") (replicas_for_app snap id)

module _ {F : Type 0} (cfg : PreemptionConfig) (snap : Snapshot F) (app : Application) where
  -- The replica of a candidate is one that the snapshot has for the application.
  abbrev IsListed : String → Replica → Type 0
  IsListed id replica = Some (λ r. r ≡ replica) (replicas_for_app snap id)

  -- A live replica of an application with a given priority, below that of `app`.
  pub record IsVictim (priority : ℤ) (c : VictimCandidate) : Type 0 where
    pub known : IsKnown cfg snap c
    pub listed : IsListed c.app.app_id c.replica
    pub live : is_live c.replica.status ≡ true
    pub has_priority : c.app.priority ≡ priority
    pub lower : app.priority <ℤ c.app.priority

  candidates-IsVictim :
      (priority : ℤ) (victim : Application) (rs : List Replica)
      → lookup victim.app_id snap.applications ≡ some victim
      → victim.priority ≡ priority
      → app.priority <ℤ victim.priority
      → All (λ r. r.cluster_id ≢ "") rs
      → All (λ r. (b : Replica) → r ≡ b → IsListed victim.app_id b) rs
      → All
          (IsVictim priority)
          (map (λ r. record { replica = r; app = victim }) (select (λ r. is_live r.status) rs))
  candidates-IsVictim priority victim [] reg eq low named listed = tt
  candidates-IsVictim priority victim (r ∷ rs) reg eq low named listed =
      let rest = candidates-IsVictim priority victim rs reg eq low named.1 listed.1 in
      elim (Bool-cases (is_live r.status)) [
        | inl alive ↦ rw alive (
          record {
            known = record { registered = reg; named = named.0 };
            listed = listed.0 r refl;
            live = alive;
            has_priority = eq;
            lower = low;
          },
          rest,
        )
        | inr dead ↦ rw dead rest
      ]

  pool_from-IsVictim :
      (priority : ℤ) (apps : Map Application)
      → IsRegular snap
      → AreKeyed apps
      → AllEntries (λ k v. lookup k snap.applications ≡ some v) apps
      → All (IsVictim priority) (pool_from app priority snap apps)
  unfolding pool_from candidates_of
  pool_from-IsVictim priority [] reg keyed found = tt
  pool_from-IsVictim priority ((id, victim) ∷ apps) reg keyed found =
      let rest = pool_from-IsVictim priority apps reg keyed.1 found.1 in
      elim (Bool-cases (id == app.app_id || leb_ℤ victim.priority app.priority)) [
        | inl skip ↦ rw skip rest
        | inr lower ↦ elim (Bool-cases (eqb_ℤ victim.priority priority)) [
          | inl hit ↦
              rw (lower, hit)
                (All-append (IsVictim priority) _ (pool_from app priority snap apps)
                  (candidates-IsVictim priority victim (replicas_for_app snap id)
                    (sym_key keyed.0 found.0) (ground arith) (ground arith) (reg.clusters_named id)
                    (listed_for keyed.0))
                  rest)
          | inr miss ↦ rw (lower, miss) rest
        ]
      ]
    where
      listed_for :
          victim.app_id ≡ id
          → All (λ r. (b : Replica) → r ≡ b → IsListed victim.app_id b) (replicas_for_app snap id)
      listed_for e =
          subst (λ k. All (λ r. (b : Replica) → r ≡ b → IsListed k b) (replicas_for_app snap id))
            (sym e) (All-Some (λ r b. r ≡ b) (replicas_for_app snap id))

      sym_key :
          victim.app_id ≡ id
          → lookup id snap.applications ≡ some victim
          → lookup victim.app_id snap.applications ≡ some victim
      sym_key e f = subst (λ k. lookup k snap.applications ≡ some victim) (sym e) f

  count-absent :
      (priority : ℤ) (id : String) (a : Application) (cs : List VictimCandidate)
      → All (IsVictim priority) cs
      → lookup id snap.applications ≡ some a
      → a.priority ≢ priority
      → count (of_victim id) cs ≡ 0
  count-absent priority id a [] v e n = refl
  count-absent priority id a (c ∷ cs) v e n = elim (Bool-cases (c.app.app_id == id)) [
    | inl hit ↦ absurd (
        n (
          ap (λ x. x.priority)
            (some-injective a c.app (
              sym e
              ∙ subst (λ k. lookup k snap.applications ≡ some c.app)
                  ((eq_iff c.app.app_id id).0 hit) v.0.known.registered))
          ∙ v.0.has_priority))
    | inr miss ↦ ground (arith, count-absent priority id a cs v.1 e n)
  ]

  append-KeepsMinimum :
      (xs ys : List VictimCandidate)
      → All (IsVictim (pos 2)) xs
      → All (IsVictim 1ℤ) ys
      → KeepsMinimum cfg snap xs
      → KeepsMinimum cfg snap ys
      → KeepsMinimum cfg snap (xs ++ ys)
  append-KeepsMinimum xs ys vx vy kx ky id a e =
      let total = count-append (of_victim id) xs ys in
      elim (Bool-cases (eqb_ℤ a.priority 1ℤ)) [
        | inl one ↦
            let none_left = count-absent (pos 2) id a xs vx e (λ p. ground arith) in
            subst (λ n. (n ≡ 0) ⊎ (pos n +ℤ a.min_replicas ≤ℤ count_active_replicas snap id))
              (omega arith) (ky id a e)
        | inr other ↦
            let none_right = count-absent 1ℤ id a ys vy e (λ p. ground arith) in
            subst (λ n. (n ≡ 0) ⊎ (pos n +ℤ a.min_replicas ≤ℤ count_active_replicas snap id))
              (omega arith) (kx id a e)
      ]

  -- A live replica of the snapshot, of a known application of lower priority.
  pub record IsLowerReplica (c : VictimCandidate) : Type 0 where
    pub registered : lookup c.app.app_id snap.applications ≡ some c.app
    pub listed : IsListed c.app.app_id c.replica
    pub live : is_live c.replica.status ≡ true
    pub lower : app.priority <ℤ c.app.priority

  -- The replicas that a plan gives up, and what is true of them together.
  pub record IsPlan (plan : PreemptionPlan) (chosen : List VictimCandidate) : Type 0 where
    pub victims_chosen : plan.victims ≡ map (victim_of cfg) chosen
    pub enough : app.gpus_per_replica ≤ℤ gpus_of chosen
    pub same_cluster : All (λ c. c.replica.cluster_id ≡ plan.target_cluster) chosen
    pub all_lower : All IsLowerReplica chosen
    pub keeps_minimum : KeepsMinimum cfg snap chosen

  lower-All : (p : ℤ) (cs : List VictimCandidate) → All (IsVictim p) cs → All IsLowerReplica cs
  lower-All p cs =
      All-map
        (λ c v. record {
          registered = v.known.registered;
          listed = v.listed;
          live = v.live;
          lower = v.lower;
        })
        cs

module _ {F : Type 0} ⦃fl : Float64 F⦄ (cfg : PreemptionConfig) (snap : Snapshot F)
    (app : Application) where
  sorted_pool :
      (priority : ℤ)
      → IsRegular snap
      → All
          (λ c. IsKnown cfg snap c × IsVictim cfg snap app priority c)
          (sort_candidates (pool app priority snap) app.gpus_per_replica snap)
  unfolding sort_candidates pool
  sorted_pool priority reg = sort_by-All _ _ _ (
      All-map (λ c v. (v.known, v)) _
        (pool_from-IsVictim cfg snap app priority snap.applications reg reg.apps_keyed
          (entries-lookup snap.applications reg.apps_map)))

  -- Both passes together.
  pub record IsCascade (result : List PreemptionDecision × ℤ × String)
      (chosen : List VictimCandidate) : Type 0 where
    pub victims_chosen : result.0 ≡ map (victim_of cfg) chosen
    pub freed_gpus : result.1 ≡ gpus_of chosen
    pub same_cluster : All (λ c. c.replica.cluster_id ≡ result.2) chosen
    pub all_lower : All (IsLowerReplica cfg snap app) chosen
    pub keeps_minimum : KeepsMinimum cfg snap chosen

  join-IsCascade :
      (p2 p1 : Selected) (xs ys : List VictimCandidate)
      → IsSelection cfg snap p2 xs
      → IsSelection cfg snap p1 ys
      → All (IsVictim cfg snap app (pos 2)) xs
      → All (IsVictim cfg snap app 1ℤ) ys
      → (p2.target_cluster ≢ "" → p1.target_cluster ≡ p2.target_cluster)
      → IsCascade
          (
            p2.victims ++ p1.victims,
            p2.freed +ℤ p1.freed,
            if p2.target_cluster == "" then p1.target_cluster else p2.target_cluster,
          )
          (xs ++ ys)
  join-IsCascade p2 p1 xs ys sx sy vx vy same = record {
    victims_chosen =
        ap₂ (λ l r. l ++ r) sx.chosen_victims sy.chosen_victims
        ∙ sym (map-append (victim_of cfg) xs ys);
    freed_gpus =
        ap₂ (λ m n. m +ℤ n) sx.chosen_gpus sy.chosen_gpus
        ∙ sym (sum_by-append (λ c. c.replica.gpus) xs ys);
    same_cluster = elim (Bool-cases (p2.target_cluster == "")) [
      | inl empty ↦ rw (empty, sx.starts ((eq_iff p2.target_cluster "").0 empty)) sy.same_cluster
      | inr named ↦
          let target = same (λ e. ground (arith, eq_iff p2.target_cluster "")) in
          rw named
            (All-append _ xs ys sx.same_cluster (All-map (λ c e. e ∙ target) ys sy.same_cluster))
    ];
    all_lower =
        All-append _ xs ys (lower-All cfg snap app (pos 2) xs vx) (lower-All cfg snap app 1ℤ ys vy);
    keeps_minimum = append-KeepsMinimum cfg snap app xs ys vx vy sx.keeps_minimum sy.keeps_minimum;
  }

  cascade-IsCascade :
      IsRegular snap → (chosen : List VictimCandidate) × IsCascade (cascade cfg app snap) chosen
  unfolding cascade
  cascade-IsCascade reg =
      let needed = app.gpus_per_replica in
      let cs2 = sort_candidates (pool app (pos 2) snap) needed snap in
      let p2 = select_victims cfg snap cs2 needed "" in
      let cs1 = sort_candidates (pool app 1ℤ snap) needed snap in
      let (xs, sx, vx) =
        select_victims-IsSelection cfg snap (IsVictim cfg snap app (pos 2)) cs2 needed ""
          (sorted_pool (pos 2) reg) in
      let (ys, sy, vy) =
        select_victims-IsSelection cfg snap (IsVictim cfg snap app 1ℤ) cs1 (needed -ℤ p2.freed)
          p2.target_cluster (sorted_pool 1ℤ reg) in
      elim (Bool-cases (ltb_ℤ p2.freed needed && eqb_ℤ app.priority 0ℤ)) [
        | inl both ↦ rw both (
          xs ++ ys,
          join-IsCascade p2 _ xs ys sx sy vx vy
              (select_victims-target cfg snap cs1 (needed -ℤ p2.freed) p2.target_cluster),
        )
        | inr one ↦ rw one (
          xs,
          record {
            victims_chosen = sx.chosen_victims;
            freed_gpus = sx.chosen_gpus;
            same_cluster = sx.same_cluster;
            all_lower = lower-All cfg snap app (pos 2) xs vx;
            keeps_minimum = sx.keeps_minimum;
          },
        )
      ]

  -- A plan holds what the two passes found, and they freed enough.
  find_cases :
      (plan : PreemptionPlan)
      → find_preemption_opportunity cfg app snap ≡ some plan
      → let r = cascade cfg app snap in
        (plan.victims ≡ r.0) × (app.gpus_per_replica ≤ℤ r.1) × (plan.target_cluster ≡ r.2)
  unfolding find_preemption_opportunity
  find_cases plan e = (ground arith, ground arith, ground arith)

  -- In a snapshot in which applications stand once, under their own identifiers, and replicas name
  -- their clusters: who gets a plan is not of priority 2. The plan gives up replicas of the snapshot
  -- that are running or pending, that belong to applications of strictly lower priority and all stand
  -- in the target cluster; together they free the GPUs that a replica of the application needs; and each
  -- application that gives up some keeps its minimum of active replicas.
  pub find_preemption_opportunity-IsPlan :
      (plan : PreemptionPlan)
      → IsRegular snap
      → find_preemption_opportunity cfg app snap ≡ some plan
      → (app.priority ≢ pos 2) × ((chosen : List VictimCandidate) × IsPlan cfg snap app plan chosen)
  unfolding find_preemption_opportunity
  find_preemption_opportunity-IsPlan plan reg e = (
    (λ top. ground (arith, e, top)),
    let (chosen, c) = cascade-IsCascade reg in
        let (same_victims, freed, same_target) = find_cases plan e in
        (
          chosen,
          record {
            victims_chosen = same_victims ∙ c.victims_chosen;
            enough = rw c.freed_gpus at freed;
            same_cluster = All-map (λ d t. t ∙ sym same_target) chosen c.same_cluster;
            all_lower = c.all_lower;
            keeps_minimum = c.keeps_minimum;
          },
        ),
  )
