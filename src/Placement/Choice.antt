-- ===== src/Placement/Choice.antt =====
-- internal/engine/placement/engine.go: what findBestCluster chooses.
use schedulator.Prelude.{
  Some, Some-map, Some-one, All-Some, ℤ, ◌≤ℤ◌, String, Bool, true, false, not, ◌||◌, ◌≡◌, refl, sym,
  ap, ◌∙◌, subst, inl, inr, List, [], ◌∷◌, Option, none, some, Map, All, All-map, arith, Bool-cases,
  Option-cases,
}
use mathlib.Core.Bool.{false≢true}
use schedulator.Floats.{Float64, IsOrdered}
use schedulator.Model.{Application, Cluster}
use schedulator.Model.Plans.{SchedulingConstraints}
use schedulator.WorldState.Snapshot.{Snapshot}
use schedulator.Placement.Scoring.{PlacementConfig}
use schedulator.Placement.{
  cluster_available_gpus, spread_limit, is_eligible, is_full, Candidate, better, score_cluster,
  best_of, eligible_clusters, best_candidate, find_best_cluster,
}

abbrev OnSome : {A : Type 0} → (A → Type 0) → Option A → Type 0
OnSome P none = Unit
OnSome P (some a) = P a

module _ {F : Type 0} ⦃fl : Float64 F⦄ (cfg : PlacementConfig F) (app : Application)
    (snap : Snapshot F) where
  -- The clusters with room keep what all clusters have.
  eligible-All :
      (Q : String × Cluster F → Type 0) (reserved : Map ℤ) (es : List (String × Cluster F))
      → All Q es
      → All
          (λ e. (is_eligible snap app.gpus_per_replica reserved e ≡ true) × Q e)
          (eligible_clusters app snap reserved es)
  unfolding eligible_clusters
  eligible-All Q reserved [] a = tt
  eligible-All Q reserved (e ∷ es) a =
      elim (Bool-cases (is_eligible snap app.gpus_per_replica reserved e)) [
        | inl fits ↦ rw fits ((fits, a.0), eligible-All Q reserved es a.1)
        | inr tight ↦ rw tight (eligible-All Q reserved es a.1)
      ]

  better-OnSome :
      (P : Candidate F → Type 0) (best : Option (Candidate F)) (c : Candidate F)
      → OnSome P best
      → P c
      → OnSome P (better best c)
  better-OnSome P none c o p = p
  better-OnSome P (some b) c o p = elim (Bool-cases (fl.lt b.score c.score)) [
    | inl higher ↦ rw higher p
    | inr other ↦ rw other o
  ]

  -- The best candidate has what all candidates with room for another replica have.
  best_of-OnSome :
      (P : Candidate F → Type 0) (placed : Map ℤ) (limit : ℤ) (es : List (String × Cluster F))
      (best : Option (Candidate F))
      → All (λ e. is_full app snap placed limit e.0 ≡ false → P (score_cluster cfg app snap e)) es
      → OnSome P best
      → OnSome P (best_of cfg app snap placed limit es best)
  unfolding best_of
  best_of-OnSome P placed limit [] best a o = o
  best_of-OnSome P placed limit (e ∷ es) best a o =
      elim (Bool-cases (is_full app snap placed limit e.0)) [
        | inl full ↦ rw full (best_of-OnSome P placed limit es best a.1 o)
        | inr open_slot ↦ rw open_slot (
            best_of-OnSome P placed limit es (better best (score_cluster cfg app snap e)) a.1
              (better-OnSome P best (score_cluster cfg app snap e) o (a.0 open_slot)))
      ]

  -- No score of a candidate with room is higher than the best.
  abbrev IsTop : Option (Candidate F) → Candidate F → Type 0
  IsTop none c = ⊥
  IsTop (some b) c = fl.lt b.score c.score ≡ false

  better-IsTop :
      IsOrdered fl
      → (best : Option (Candidate F)) (c d : Candidate F) → IsTop best d
      → IsTop (better best c) d
  better-IsTop ord none c d top = absurd top
  better-IsTop ord (some b) c d top = elim (Bool-cases (fl.lt b.score c.score)) [
    | inl higher ↦ rw higher (elim (Bool-cases (fl.lt c.score d.score)) [
      | inl beats ↦
          absurd (false≢true (sym top ∙ ord.lt_trans b.score c.score d.score higher beats))
      | inr not_higher ↦ not_higher
    ])
    | inr other ↦ rw other top
  ]

  better-IsTop_self :
      IsOrdered fl → (best : Option (Candidate F)) (c : Candidate F) → IsTop (better best c) c
  better-IsTop_self ord none c = ord.lt_irrefl c.score
  better-IsTop_self ord (some b) c = elim (Bool-cases (fl.lt b.score c.score)) [
    | inl higher ↦ rw higher (ord.lt_irrefl c.score)
    | inr other ↦ rw other other
  ]

  module _ (ord : IsOrdered fl) (placed : Map ℤ) (limit : ℤ) where
    best_of-keeps_IsTop :
        (es : List (String × Cluster F)) (best : Option (Candidate F)) (d : Candidate F)
        → IsTop best d
        → IsTop (best_of cfg app snap placed limit es best) d
    unfolding best_of
    best_of-keeps_IsTop [] best d top = top
    best_of-keeps_IsTop (e ∷ es) best d top =
        elim (Bool-cases (is_full app snap placed limit e.0)) [
          | inl full ↦ rw full (best_of-keeps_IsTop es best d top)
          | inr open_slot ↦ rw open_slot (
              best_of-keeps_IsTop es _ d
                (better-IsTop ord best (score_cluster cfg app snap e) d top))
        ]

    best_of-IsTop :
        (es : List (String × Cluster F)) (best : Option (Candidate F))
        → All
            (λ e.
              is_full app snap placed limit e.0 ≡ false
              → IsTop (best_of cfg app snap placed limit es best) (score_cluster cfg app snap e))
            es
    unfolding best_of
    best_of-IsTop [] best = tt
    best_of-IsTop (e ∷ es) best = (
      (λ open_slot. rw open_slot (
          best_of-keeps_IsTop es _ (score_cluster cfg app snap e)
            (better-IsTop_self ord best (score_cluster cfg app snap e)))),
      best_of-IsTop es _,
    )

  -- A cluster that findBestCluster may choose.
  pub record IsChoice (reserved placed : Map ℤ) (e : String × Cluster F) : Type 0 where
    pub eligible : is_eligible snap app.gpus_per_replica reserved e ≡ true
    pub not_full :
        is_full app snap placed
          (spread_limit cfg app snap placed (eligible_clusters app snap reserved snap.clusters))
          e.0
        ≡ false

  -- A cluster of the snapshot that may be chosen has the score.
  abbrev ChosenAs : Map ℤ → Map ℤ → String × Cluster F → Candidate F → Type 0
  ChosenAs reserved placed e c = (score_cluster cfg app snap e ≡ c) × IsChoice reserved placed e

  abbrev Chosen : Map ℤ → Map ℤ → Candidate F → Type 0
  Chosen reserved placed c = Some (λ e. ChosenAs reserved placed e c) snap.clusters

  best_candidate-Chosen :
      (reserved placed : Map ℤ)
      → OnSome (Chosen reserved placed) (best_candidate cfg app snap reserved placed)
  unfolding best_candidate
  best_candidate-Chosen reserved placed =
      best_of-OnSome (Chosen reserved placed) placed _ _ none
        (All-map
          (λ e h open_slot.
            h.1 (score_cluster cfg app snap e)
              (refl, record { eligible = h.0; not_full = open_slot }))
          _
          (eligible-All _ reserved snap.clusters
            (All-Some (ChosenAs reserved placed) snap.clusters)))
        tt

  best_candidate-IsTop :
      IsOrdered fl
      → (reserved placed : Map ℤ)
      → let es = eligible_clusters app snap reserved snap.clusters in
        All
          (λ e.
            is_full app snap placed (spread_limit cfg app snap placed es) e.0 ≡ false
            → IsTop (best_candidate cfg app snap reserved placed) (score_cluster cfg app snap e))
          es
  unfolding best_candidate
  best_candidate-IsTop ord reserved placed = best_of-IsTop ord placed _ _ none

  abbrev limit_of : Map ℤ → Map ℤ → ℤ
  limit_of reserved placed =
      spread_limit cfg app snap placed (eligible_clusters app snap reserved snap.clusters)

  -- An entry whose score no cluster with room for another replica exceeds.
  abbrev IsBest : Map ℤ → Map ℤ → String × Cluster F → Type 0
  IsBest reserved placed e =
      All
        (λ d.
          (is_full app snap placed (limit_of reserved placed) d.0
            || not
                (fl.lt (score_cluster cfg app snap e).score (score_cluster cfg app snap d).score))
          ≡ true)
        (eligible_clusters app snap reserved snap.clusters)

  abbrev pub Outcome : Map ℤ → Map ℤ → Option (String × SchedulingConstraints) → Type 0
  Outcome reserved placed none =
      All (λ e. is_full app snap placed (limit_of reserved placed) e.0 ≡ true)
        (eligible_clusters app snap reserved snap.clusters)
  Outcome reserved placed (some (id, constraints)) =
      Some (λ e. (e.0 ≡ id) × IsChoice reserved placed e × IsBest reserved placed e) snap.clusters
      × (constraints.required_gpus ≡ app.gpus_per_replica)

  -- With floats ordered as IEEE 754 orders them: findBestCluster returns a cluster of the snapshot that has a ready
  -- node with room for a replica and enough available GPUs, it is below the spread limit, no other
  -- cluster of that kind has a higher score, and the constraints ask for the GPUs of one replica. If
  -- it returns none then every cluster with room is at its spread limit.
  pub find_best_cluster_lem :
      IsOrdered fl
      → (reserved placed : Map ℤ)
      → Outcome reserved placed (find_best_cluster cfg app snap reserved placed)
  unfolding find_best_cluster score_cluster
  find_best_cluster_lem ord reserved placed =
      let tops = best_candidate-IsTop ord reserved placed in
      let chosen = best_candidate-Chosen reserved placed in
      elim (Option-cases (best_candidate cfg app snap reserved placed)) [
        | inl e ↦
            rw (e, find_best_cluster)
              (All-map
                (λ d top.
                  full_of (is_full app snap placed (limit_of reserved placed) d.0) (λ open_slot.
                    subst (λ b. IsTop b (score_cluster cfg app snap d)) e (top open_slot)))
                _ tops)
        | inr (b, e) ↦
            rw (e, find_best_cluster)
              (
                Some-map
                    (λ entry h. (
                      ap (λ c. c.cluster_id) h.0,
                      h.1,
                      All-map
                          (λ d top.
                            full_or (is_full app snap placed (limit_of reserved placed) d.0) _
                              (λ open_slot.
                                subst
                                  (λ c. fl.lt c.score (score_cluster cfg app snap d).score ≡ false)
                                  (sym h.0)
                                  (subst (λ o. IsTop o (score_cluster cfg app snap d)) e
                                    (top open_slot))))
                          _ tops,
                    ))
                    snap.clusters (subst (OnSome (Chosen reserved placed)) e chosen),
                refl,
              )
      ]
    where
      full_or : (b c : Bool) → (b ≡ false → c ≡ false) → (b || not c) ≡ true
      full_or true c h = refl
      full_or false c h = rw (h refl) refl

      full_of : (b : Bool) → (b ≡ false → ⊥) → b ≡ true
      full_of true h = refl
      full_of false h = absurd (h refl)

  -- The cluster that is found has the GPUs of a replica available.
  pub find_best_cluster-has_room :
      (reserved placed : Map ℤ) (id : String) (constraints : SchedulingConstraints)
      → find_best_cluster cfg app snap reserved placed ≡ some (id, constraints)
      → app.gpus_per_replica ≤ℤ cluster_available_gpus id snap reserved
  unfolding find_best_cluster is_eligible score_cluster
  find_best_cluster-has_room reserved placed id constraints found =
      elim (Option-cases (best_candidate cfg app snap reserved placed)) [
        | inl e ↦ absurd (ground arith)
        | inr (b, e) ↦
            let (entry, (scored, choice)) =
              Some-one snap.clusters (
                subst (OnSome (Chosen reserved placed)) e
                  (best_candidate-Chosen reserved placed)) in
            let same : entry.0 ≡ id = ap (λ c. c.cluster_id) scored ∙ ground arith in
            subst (λ k. app.gpus_per_replica ≤ℤ cluster_available_gpus k snap reserved) same
              (ground (arith, choice.eligible))
      ]
