-- ===== src/Rebalancing/Target.antt =====
-- internal/engine/rebalancing/scoring.go: the target that findConsolidationTarget chooses.
use schedulator.Prelude.{
  Some, ℤ, negsuc, 0ℤ, ◌≤ℤ◌, eq_iff, false, List, [], ◌∷◌, Option, none, some, values, All, All-map,
  arith, ◌≡◌, ◌≢◌, refl, sym, ap, subst, ◌∙◌, ◌⊎◌, inl, inr,
}
use schedulator.Model.{Application, Replica, Cluster}
use schedulator.WorldState.{node_map}
use schedulator.WorldState.Snapshot.{Snapshot}
use schedulator.Rebalancing.{
  no_fit, fits, ConsolidationTarget, Consolidation, fit_in, consider, target_of, consider_all,
  find_consolidation_target,
}
use schedulator.Rebalancing.Nodes.{
  IsTight, IsOf, AreNamed, IsLower, IsTight-le, tightest_fit-IsTight, tightest_fit-IsOf, Some-named,
}

module _ {F : Type 0} (replica : Replica) (app : Application) where
  -- Nothing in another cluster undercuts the waste.
  abbrev pub IsTightIn : ℤ → Cluster F → Type 0
  IsTightIn w c =
      (c.cluster_id ≡ replica.cluster_id) ⊎ All (IsTight replica.gpus w) (values (node_map c))

  -- The state holds the target in a cluster.
  record IsFrom (s : Consolidation) (c : Cluster F) : Type 0 where
    elsewhere : c.cluster_id ≢ replica.cluster_id
    taken : s.best_target ≡ some (target_of replica app c)
    wasted : s.best_waste ≡ (fit_in replica.gpus c).waste
    named : (fit_in replica.gpus c).node_id ≢ ""

  consider-IsFrom :
      (c : Cluster F) (s : Consolidation)
      → (consider replica app c s ≡ s) ⊎ IsFrom (consider replica app c s) c
  unfolding consider
  consider-IsFrom c s =
      ground
        (arith, eq_iff c.cluster_id replica.cluster_id, eq_iff (fit_in replica.gpus c).node_id "")

  fit_in_cases :
      (c : Cluster F)
      → All (λ n. n.node_id ≢ "") (values (node_map c))
      → (fit_in replica.gpus c ≡ no_fit)
        ⊎ (((fit_in replica.gpus c).node_id ≢ "") × (0ℤ ≤ℤ (fit_in replica.gpus c).waste))
  fit_in_cases c named = elim (tightest_fit-IsOf replica.gpus (values (node_map c)) no_fit) [
    | inl empty ↦ inl empty
    | inr chosen ↦ inr (Some-named replica.gpus _ (values (node_map c)) named chosen)
  ]

  consider-IsLower :
      (c : Cluster F) (s : Consolidation)
      → All (λ n. n.node_id ≢ "") (values (node_map c))
      → IsLower s.best_waste (consider replica app c s).best_waste
        × ((c.cluster_id ≡ replica.cluster_id)
            ⊎ IsLower (fit_in replica.gpus c).waste (consider replica app c s).best_waste)
  unfolding consider
  consider-IsLower c s named =
      let e = eq_iff (fit_in replica.gpus c).node_id "" in
      let same = eq_iff c.cluster_id replica.cluster_id in
      elim (fit_in_cases c named) [
        | inl empty ↦
            let blank : (fit_in replica.gpus c).node_id ≡ "" = ap (λ f. f.node_id) empty in
            let low : (fit_in replica.gpus c).waste ≡ negsuc 0 = ap (λ f. f.waste) empty in
            ground (arith, e, same, blank, low)
        | inr chosen ↦ ground (arith, e, same, chosen)
      ]

  IsTightIn-le : (w w' : ℤ) (c : Cluster F) → IsLower w w' → IsTightIn w c → IsTightIn w' c
  IsTightIn-le w w' c le (inl same) = inl same
  IsTightIn-le w w' c le (inr tight) =
      inr (All-map (λ n t. IsTight-le replica.gpus w w' n le t) (values (node_map c)) tight)

  consider-IsTightIn :
      (c : Cluster F) (s : Consolidation)
      → All (λ n. n.node_id ≢ "") (values (node_map c))
      → IsTightIn (consider replica app c s).best_waste c
  consider-IsTightIn c s named = elim (consider-IsLower c s named).1 [
    | inl same ↦ inl same
    | inr le ↦
        IsTightIn-le (fit_in replica.gpus c).waste (consider replica app c s).best_waste c le
          (inr (tightest_fit-IsTight replica.gpus (values (node_map c)) no_fit))
  ]

  consider_all-keeps :
      (cs : List (Cluster F)) (d : Cluster F) (s : Consolidation)
      → AreNamed cs
      → IsTightIn s.best_waste d
      → IsTightIn (consider_all replica app cs s).best_waste d
  unfolding consider_all
  consider_all-keeps [] d s named t = t
  consider_all-keeps (c ∷ cs) d s named t =
      consider_all-keeps cs d (consider replica app c s) named.1 (
        IsTightIn-le s.best_waste (consider replica app c s).best_waste d
          (consider-IsLower c s named.0).0 t)

  consider_all-IsTightIn :
      (cs : List (Cluster F)) (s : Consolidation)
      → AreNamed cs
      → All (IsTightIn (consider_all replica app cs s).best_waste) cs
  unfolding consider_all
  consider_all-IsTightIn [] s named = tt
  consider_all-IsTightIn (c ∷ cs) s named = (
    consider_all-keeps cs c (consider replica app c s) named.1 (consider-IsTightIn c s named.0),
    consider_all-IsTightIn cs (consider replica app c s) named.1,
  )

  consider_all-IsFrom :
      (cs : List (Cluster F)) (s : Consolidation)
      → (consider_all replica app cs s ≡ s) ⊎ Some (IsFrom (consider_all replica app cs s)) cs
  unfolding consider_all
  consider_all-IsFrom [] s = inl refl
  consider_all-IsFrom (c ∷ cs) s = elim (consider_all-IsFrom cs (consider replica app c s)) [
    | inr later ↦ inr (inr later)
    | inl same ↦ elim (consider-IsFrom c s) [
      | inl kept ↦ inl (same ∙ kept)
      | inr from ↦ inr (inl (subst (λ r. IsFrom r c) (sym same) from))
    ]
  ]

  -- The target stands in a cluster other than the replica's, on one of its nodes that has room, and
  -- no node with room in any other cluster of the snapshot wastes less.
  abbrev pub IsTightest : Snapshot F → ConsolidationTarget → Cluster F → Type 0
  IsTightest snap t c =
      (c.cluster_id ≢ replica.cluster_id)
      × (t ≡ target_of replica app c)
      × Some (IsOf replica.gpus (fit_in replica.gpus c)) (values (node_map c))
      × All (IsTightIn (fit_in replica.gpus c).waste) (values snap.clusters)

  abbrev pub Verdict : Snapshot F → Option ConsolidationTarget → Type 0
  Verdict snap none =
      All
        (λ c.
          (c.cluster_id ≡ replica.cluster_id)
          ⊎ All (λ n. fits replica.gpus n ≡ false) (values (node_map c)))
        (values snap.clusters)
  Verdict snap (some t) = Some (IsTightest snap t) (values snap.clusters)

  Some-IsTightest :
      (snap : Snapshot F) (s : Consolidation) (cs : List (Cluster F))
      → AreNamed cs
      → All (IsTightIn s.best_waste) (values snap.clusters)
      → Some (IsFrom s) cs
      → (t : ConsolidationTarget) × (s.best_target ≡ some t) × Some (IsTightest snap t) cs
  Some-IsTightest snap s [] named tight none_of = elim none_of [ ]
  Some-IsTightest snap s (c ∷ cs) named tight (inl from) =
      elim (tightest_fit-IsOf replica.gpus (values (node_map c)) no_fit) [
        | inl empty ↦ absurd (from.named (ap (λ f. f.node_id) empty))
        | inr chosen ↦ (
          target_of replica app c,
          from.taken,
          inl (
            from.elsewhere,
            refl,
            chosen,
            subst (λ w. All (IsTightIn w) (values snap.clusters)) from.wasted tight,
          ),
        )
      ]
  Some-IsTightest snap s (c ∷ cs) named tight (inr later) =
      let (t, taken, rest) = Some-IsTightest snap s cs named.1 tight later in (t, taken, inr rest)

IsTightIn-unfit :
    {F : Type 0} (replica : Replica) (app : Application) (c : Cluster F)
    → IsTightIn replica app (negsuc 0) c
    → (c.cluster_id ≡ replica.cluster_id)
      ⊎ All (λ n. fits replica.gpus n ≡ false) (values (node_map c))
IsTightIn-unfit replica app c (inl same) = inl same
IsTightIn-unfit replica app c (inr tight) =
    inr (All-map (λ n t. ground (arith, t)) (values (node_map c)) tight)

-- With nodes that have names: a target that is found stands in a cluster other than the replica's, on
-- one of its nodes that is ready and has room, and no ready node with room in any other cluster wastes
-- less; the constraints ask for the replica's GPUs and that node. If none is found then no other
-- cluster has a ready node with room.
pub find_consolidation_target_lem :
    {F : Type 0} (replica : Replica) (app : Application) (snap : Snapshot F)
    → AreNamed (values snap.clusters)
    → Verdict replica app snap (find_consolidation_target replica app snap)
unfolding find_consolidation_target
find_consolidation_target_lem replica app snap named =
    let start : Consolidation = record { best_target = none; best_waste = negsuc 0 } in
    let s = consider_all replica app (values snap.clusters) start in
    let tight = consider_all-IsTightIn replica app (values snap.clusters) start named in
    elim (consider_all-IsFrom replica app (values snap.clusters) start) [
      | inl same ↦ subst (Verdict replica app snap) (sym (ap (λ r. r.best_target) same)) (
          All-map (λ c t. IsTightIn-unfit replica app c t) (values snap.clusters)
            (subst (λ r. All (IsTightIn replica app r.best_waste) (values snap.clusters)) same
              tight))
      | inr from ↦
          let (t, taken, found) =
            Some-IsTightest replica app snap s (values snap.clusters) named tight from in
          subst (Verdict replica app snap) (sym taken) found
    ]
