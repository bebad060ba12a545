-- ===== src/Preemption/Selection.antt =====
-- internal/engine/preemption/engine.go: what one pass of selectVictims chooses.
use schedulator.Prelude.{
  ◌+◌, ℤ, pos, 1ℤ, ◌+ℤ◌, ◌≤ℤ◌, leb_ℤ, +ℤ_parts, -ℤ_parts, int_laws, sum_by, sum_by-append, ◌≡◌,
  refl, sym, ap, ◌∙◌, subst, ◌⊎◌, inl, inr, ◌≢◌, String, ◌==◌, eq_iff, Bool, true, false, List, [],
  ◌∷◌, ◌++◌, map, some, lookup, counter, counter-add_at, count, count-append, All, All-append,
  All-map, if◌then◌else◌, arith, Bool-cases,
}
use mathlib.Core.List.{map-append}
use mathlib.Core.Option.{some-injective}
use schedulator.Model.{Application}
use schedulator.WorldState.Snapshot.{Snapshot, count_active_replicas}
use schedulator.Preemption.{
  PreemptionConfig, VictimCandidate, victim_of, Selected, is_elsewhere, is_protected, take_victim,
  visit, select_loop, select_victims,
}

abbrev pub of_victim : String → VictimCandidate → Bool
of_victim id c = c.app.app_id == id

abbrev pub gpus_of : List VictimCandidate → ℤ
gpus_of = sum_by λ c. c.replica.gpus

module _ {F : Type 0} (cfg : PreemptionConfig) (snap : Snapshot F) where
  -- The candidate's application is that of the snapshot, and its cluster has a name.
  pub record IsKnown (c : VictimCandidate) : Type 0 where
    pub registered : lookup c.app.app_id snap.applications ≡ some c.app
    pub named : c.replica.cluster_id ≢ ""

  -- No application is driven below its minimum by the chosen victims.
  abbrev pub KeepsMinimum : List VictimCandidate → Type 0
  KeepsMinimum chosen =
      (id : String) (app : Application)
      → lookup id snap.applications ≡ some app
      → (count (of_victim id) chosen ≡ 0)
        ⊎ (pos (count (of_victim id) chosen) +ℤ app.min_replicas ≤ℤ count_active_replicas snap id)

  pub record IsSelection (s : Selected) (chosen : List VictimCandidate) : Type 0 where
    pub chosen_victims : s.victims ≡ map (victim_of cfg) chosen
    pub chosen_gpus : s.freed ≡ gpus_of chosen
    pub starts : s.target_cluster ≡ "" → chosen ≡ []
    pub same_cluster : All (λ c. c.replica.cluster_id ≡ s.target_cluster) chosen
    pub counted :
        (id : String) → counter id s.preempting_per_app ≡ pos (count (of_victim id) chosen)
    pub keeps_minimum : KeepsMinimum chosen

  abbrev Outcome : (VictimCandidate → Type 0) → Selected → Type 0
  Outcome P s = (chosen : List VictimCandidate) × IsSelection s chosen × All P chosen

  count-snoc :
      (id : String) (chosen : List VictimCandidate) (c : VictimCandidate)
      → count (of_victim id) (chosen ++ c ∷ [])
        ≡ count (of_victim id) chosen + (if c.app.app_id == id then 1 else 0)
  count-snoc id chosen c = omega (arith, count-append (of_victim id) chosen (c ∷ []))

  take-counted :
      (s : Selected) (chosen : List VictimCandidate) (c : VictimCandidate) (id : String)
      → counter id s.preempting_per_app ≡ pos (count (of_victim id) chosen)
      → counter c.app.app_id s.preempting_per_app ≡ pos (count (of_victim c.app.app_id) chosen)
      → counter id (take_victim cfg snap c s).preempting_per_app
        ≡ pos (count (of_victim id) (chosen ++ c ∷ []))
  unfolding take_victim ◌+ℤ◌
  take-counted s chosen c id h k = ground (
    arith,
    counter-add_at c.app.app_id id 1ℤ s.preempting_per_app,
    count-snoc id chosen c,
    eq_iff c.app.app_id id,
  )

  -- The minimum of one application, as `KeepsMinimum` states it.
  abbrev Spares : List VictimCandidate → String → Application → Type 0
  Spares chosen id app =
      (count (of_victim id) chosen ≡ 0)
      ⊎ (pos (count (of_victim id) chosen) +ℤ app.min_replicas ≤ℤ count_active_replicas snap id)

  take-Spares_own :
      (s : Selected) (chosen : List VictimCandidate) (c : VictimCandidate)
      → counter c.app.app_id s.preempting_per_app ≡ pos (count (of_victim c.app.app_id) chosen)
      → is_protected cfg snap s c ≡ false
      → Spares (chosen ++ c ∷ []) c.app.app_id c.app
  take-Spares_own s chosen c h free =
      let id = c.app.app_id in
      let active = count_active_replicas snap id in
      inr (
        ground (
          arith,
          count-snoc id chosen c,
          (eq_iff id id).1 refl,
          -ℤ_parts active (counter id s.preempting_per_app),
          +ℤ_parts (pos (count (of_victim id) (chosen ++ c ∷ []))) c.app.min_replicas,
        ))

  take-KeepsMinimum :
      (s : Selected) (chosen : List VictimCandidate) (c : VictimCandidate)
      → IsKnown c
      → IsSelection s chosen
      → is_protected cfg snap s c ≡ false
      → KeepsMinimum (chosen ++ c ∷ [])
  take-KeepsMinimum s chosen c k v free id app e = elim (Bool-cases (c.app.app_id == id)) [
    | inl hit ↦
        subst
          (λ j.
            (a : Application) → lookup j snap.applications ≡ some a → Spares (chosen ++ c ∷ []) j a)
          ((eq_iff c.app.app_id id).0 hit)
          (λ a e'.
            subst (Spares (chosen ++ c ∷ []) c.app.app_id)
              (some-injective c.app a (sym k.registered ∙ e'))
              (take-Spares_own s chosen c (v.counted c.app.app_id) free))
          app e
    | inr miss ↦
        subst (λ n. (n ≡ 0) ⊎ (pos n +ℤ app.min_replicas ≤ℤ count_active_replicas snap id))
          (same miss) (v.keeps_minimum id app e)
  ]
    where
      same :
          (c.app.app_id == id) ≡ false
          → count (of_victim id) chosen ≡ count (of_victim id) (chosen ++ c ∷ [])
      same miss = ground (arith, count-snoc id chosen c)

  take-target :
      (s : Selected) (c : VictimCandidate)
      → is_elsewhere cfg snap s c ≡ false
      → (take_victim cfg snap c s).target_cluster ≡ c.replica.cluster_id
  unfolding take_victim
  take-target s c here =
      ground (arith, eq_iff s.target_cluster "", eq_iff c.replica.cluster_id s.target_cluster)

  take-same_cluster :
      (s : Selected) (chosen : List VictimCandidate) (c : VictimCandidate)
      → (s.target_cluster ≡ "" → chosen ≡ [])
      → All (λ d. d.replica.cluster_id ≡ s.target_cluster) chosen
      → is_elsewhere cfg snap s c ≡ false
      → All (λ d. d.replica.cluster_id ≡ c.replica.cluster_id) chosen
  take-same_cluster s chosen c start v here = elim (Bool-cases (s.target_cluster == "")) [
    | inl fresh ↦ rw (start ((eq_iff s.target_cluster "").0 fresh)) tt
    | inr set ↦
        All-map (λ d e. e ∙ sym (ground (arith, eq_iff c.replica.cluster_id s.target_cluster)))
          chosen v
  ]

  take-IsSelection :
      (s : Selected) (chosen : List VictimCandidate) (c : VictimCandidate)
      → IsKnown c
      → is_elsewhere cfg snap s c ≡ false
      → is_protected cfg snap s c ≡ false
      → IsSelection s chosen
      → IsSelection (take_victim cfg snap c s) (chosen ++ c ∷ [])
  unfolding take_victim
  take-IsSelection s chosen c k here free v =
      let target = take-target s c here in
      record {
        chosen_victims =
            ap (λ l. l ++ victim_of cfg c ∷ []) v.chosen_victims
            ∙ sym (map-append (victim_of cfg) chosen (c ∷ []));
        chosen_gpus =
            ap (λ n. n +ℤ c.replica.gpus) v.chosen_gpus
            ∙ rw (sum_by-append (λ d. d.replica.gpus) chosen (c ∷ [])) (omega int_laws);
        starts = λ e. absurd (k.named (sym target ∙ e));
        same_cluster =
            All-append _ chosen (c ∷ [])
              (All-map (λ d e. e ∙ sym target) chosen
                (take-same_cluster s chosen c v.starts v.same_cluster here))
              (sym target, tt);
        counted = λ id. take-counted s chosen c id (v.counted id) (v.counted c.app.app_id);
        keeps_minimum = take-KeepsMinimum s chosen c k v free;
      }

  visit-Outcome :
      (P : VictimCandidate → Type 0) (c : VictimCandidate) (s : Selected)
      → IsKnown c
      → P c
      → Outcome P s
      → Outcome P (visit cfg snap c s)
  unfolding visit
  visit-Outcome P c s k p (chosen, v, ps) = elim (Bool-cases (is_elsewhere cfg snap s c)) [
    | inl skip ↦ rw skip (chosen, v, ps)
    | inr here ↦ elim (Bool-cases (is_protected cfg snap s c)) [
      | inl skip ↦ rw (here, skip) (chosen, v, ps)
      | inr free ↦
          rw (here, free)
            (
              chosen ++ c ∷ [],
              take-IsSelection s chosen c k here free v,
              All-append P chosen (c ∷ []) ps (p, tt),
            )
    ]
  ]

  select_loop-Outcome :
      (P : VictimCandidate → Type 0) (required : ℤ) (cs : List VictimCandidate) (s : Selected)
      → All (λ c. IsKnown c × P c) cs
      → Outcome P s
      → Outcome P (select_loop cfg snap required cs s)
  unfolding select_loop
  select_loop-Outcome P required [] s ks o = o
  select_loop-Outcome P required (c ∷ cs) s ks o = pick (leb_ℤ required s.freed) (
      select_loop-Outcome P required cs (visit cfg snap c s) ks.1
        (visit-Outcome P c s ks.0.0 ks.0.1 o))
    where
      pick :
          (b : Bool)
          → Outcome P (select_loop cfg snap required cs (visit cfg snap c s))
          → Outcome P (if b then s else select_loop cfg snap required cs (visit cfg snap c s))
      pick true rest = o
      pick false rest = rest

  visit-target :
      (c : VictimCandidate) (s : Selected)
      → s.target_cluster ≢ ""
      → (visit cfg snap c s).target_cluster ≡ s.target_cluster
  unfolding visit take_victim
  visit-target c s n = ground (arith, eq_iff s.target_cluster "")

  select_loop-target :
      (required : ℤ) (cs : List VictimCandidate) (s : Selected)
      → s.target_cluster ≢ ""
      → (select_loop cfg snap required cs s).target_cluster ≡ s.target_cluster
  unfolding select_loop
  select_loop-target required [] s n = refl
  select_loop-target required (c ∷ cs) s n = elim (Bool-cases (leb_ℤ required s.freed)) [
    | inl done ↦ rw done
    | inr more ↦
        let same = visit-target c s n in
        rw more (select_loop-target required cs (visit cfg snap c s) (λ e. n (sym same ∙ e)) ∙ same)
  ]

  pub select_victims-target :
      (cs : List VictimCandidate) (required : ℤ) (prefer : String)
      → prefer ≢ ""
      → (select_victims cfg snap cs required prefer).target_cluster ≡ prefer
  unfolding select_victims
  select_victims-target cs required prefer n = select_loop-target required cs _ n

  -- One pass over known candidates that have a property chooses some of them: all in the
  -- target cluster, and with no application driven below its minimum.
  pub select_victims-IsSelection :
      (P : VictimCandidate → Type 0) (cs : List VictimCandidate) (required : ℤ) (prefer : String)
      → All (λ c. IsKnown c × P c) cs
      → (chosen : List VictimCandidate) × IsSelection
          (select_victims cfg snap cs required prefer)
          chosen
        × All P chosen
  unfolding select_victims
  select_victims-IsSelection P cs required prefer ks = select_loop-Outcome P required cs _ ks (
    [],
    record {
      chosen_victims = refl;
      chosen_gpus = refl;
      starts = λ e. refl;
      same_cluster = tt;
      counted = λ id. refl;
      keeps_minimum = λ id app e. inl refl;
    },
    tt,
  )
