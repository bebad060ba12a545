-- ===== src/ControlLoop/Batching.antt =====
-- internal/controlloop/loop.go with internal/ingestion/debounce.go: batches against single events.
use schedulator.Prelude.{
  String, ◌==◌, eq_iff, Bool, true, false, ◌&&◌, List, [], ◌∷◌, ◌++◌, Option, none, some, Map,
  lookup, insert, lookup-insert, values, select, all, concat, last_of, ◌≡◌, refl, sym, ap, ◌∙◌,
  if◌then◌else◌, arith, Bool-cases, Option-cases, inl, inr,
}
use schedulator.Floats.{Float64}
use schedulator.Model.{Application, VllmMetrics}
use schedulator.Model.Plans.{ClusterEvent}
use schedulator.WorldState.{
  WorldState, upsert_node, remove_node, upsert_replica, delete_replica, update_vllm_metrics,
  upsert_application,
}
use schedulator.Ingestion.{
  Event, EventKind, is_mergeable, key_of, Debouncer, waiting, collect, Debounced, begun, arrived,
  fired, cancelled, discarded, finished, fire, discard, final_flush,
}
use schedulator.Ingestion.Batches.{is_about}
use schedulator.Ingestion.Latest.{
  accepted, is_plain, flush-accepted, Debounced-select, Debounced-last_of,
}
use schedulator.ControlLoop.Events.{apply_cluster_event, apply_event, apply_events}

module _ {F : Type 0} where
  -- An event with the payload of its kind, under the application that it names.
  abbrev pub well_formed : Event F → Bool
  well_formed e = elim e.kind [
    | EventKind.metrics_update ↦ elim e.vllm_metrics [
      | none ↦ false
      | some m ↦ m.app_id == e.app_id
    ]
    | EventKind.app_config_update ↦ elim e.application [
      | none ↦ false
      | some app ↦ app.app_id == e.app_id
    ]
    | EventKind.cluster_event ↦ true
    | EventKind.periodic_eval ↦ true
    | EventKind.sla_breach ↦ true
  ]

  -- What one event does to the applications and to the metrics.
  abbrev pub to_applications : Event F → Map Application → Map Application
  to_applications e a = elim e.kind [
    | EventKind.app_config_update ↦ elim e.application [
      | none ↦ a
      | some app ↦ insert app.app_id app a
    ]
    | EventKind.metrics_update ↦ a
    | EventKind.cluster_event ↦ a
    | EventKind.periodic_eval ↦ a
    | EventKind.sla_breach ↦ a
  ]

  abbrev to_metrics : Event F → Map (VllmMetrics F) → Map (VllmMetrics F)
  to_metrics e v = elim e.kind [
    | EventKind.metrics_update ↦ elim e.vllm_metrics [ none ↦ v | some m ↦ insert m.app_id m v ]
    | EventKind.app_config_update ↦ v
    | EventKind.cluster_event ↦ v
    | EventKind.periodic_eval ↦ v
    | EventKind.sla_breach ↦ v
  ]

  abbrev pub all_to_applications : List (Event F) → Map Application → Map Application
  all_to_applications [] a = a
  all_to_applications (e ∷ es) a = all_to_applications es (to_applications e a)

  abbrev all_to_metrics : List (Event F) → Map (VllmMetrics F) → Map (VllmMetrics F)
  all_to_metrics [] v = v
  all_to_metrics (e ∷ es) v = all_to_metrics es (to_metrics e v)

  abbrev with : Map Application → Map (VllmMetrics F) → WorldState F → WorldState F
  with a v ws = record ws { applications = a; vllm_metrics = v }

  abbrev application_or : Option (Event F) → Option Application → Option Application
  application_or none o = o
  application_or (some e) o = e.application

  abbrev metrics_or : Option (Event F) → Option (VllmMetrics F) → Option (VllmMetrics F)
  metrics_or none o = o
  metrics_or (some e) o = e.vllm_metrics

  lookup-to_applications :
      (id : String) (e : Event F) (a : Map Application)
      → well_formed e ≡ true
      → lookup id (to_applications e a)
        ≡ application_or
            (if is_about EventKind.app_config_update id e then some e else none)
            (lookup id a)
  lookup-to_applications id e a h = elim (Option-cases e.application) [
    | inl nothing ↦ ground (arith, h, nothing)
    | inr (app, given) ↦ ground (
      arith,
      h,
      given,
      lookup-insert app.app_id id app a,
      eq_iff app.app_id e.app_id,
      eq_iff app.app_id id,
      eq_iff e.app_id id,
    )
  ]

  lookup-to_metrics :
      (id : String) (e : Event F) (v : Map (VllmMetrics F))
      → well_formed e ≡ true
      → lookup id (to_metrics e v)
        ≡ metrics_or (if is_about EventKind.metrics_update id e then some e else none) (lookup id v)
  lookup-to_metrics id e v h = elim (Option-cases e.vllm_metrics) [
    | inl nothing ↦ ground (arith, h, nothing)
    | inr (m, given) ↦ ground (
      arith,
      h,
      given,
      lookup-insert m.app_id id m v,
      eq_iff m.app_id e.app_id,
      eq_iff m.app_id id,
      eq_iff e.app_id id,
    )
  ]

  lookup-all_to_applications :
      (id : String) (es : List (Event F)) (a : Map Application)
      → all well_formed es ≡ true
      → lookup id (all_to_applications es a)
        ≡ application_or (last_of (is_about EventKind.app_config_update id) es) (lookup id a)
  lookup-all_to_applications id [] a h = refl
  lookup-all_to_applications id (e ∷ es) a h =
      lookup-all_to_applications id es (to_applications e a) (ground (arith, h))
      ∙ ground (arith, lookup-to_applications id e a, h)

  lookup-all_to_metrics :
      (id : String) (es : List (Event F)) (v : Map (VllmMetrics F))
      → all well_formed es ≡ true
      → lookup id (all_to_metrics es v)
        ≡ metrics_or (last_of (is_about EventKind.metrics_update id) es) (lookup id v)
  lookup-all_to_metrics id [] v h = refl
  lookup-all_to_metrics id (e ∷ es) v h =
      lookup-all_to_metrics id es (to_metrics e v) (ground (arith, h))
      ∙ ground (arith, lookup-to_metrics id e v, h)

module _ {F : Type 0} ⦃fl : Float64 F⦄ where
  apply_cluster_event-with :
      (ce : ClusterEvent) (a : Map Application) (v : Map (VllmMetrics F)) (ws : WorldState F)
      → apply_cluster_event ce (with a v ws) ≡ with a v (apply_cluster_event ce ws)
  unfolding apply_cluster_event upsert_node remove_node upsert_replica delete_replica
  apply_cluster_event-with ce a v ws = ground arith

  apply_event-with :
      (e : Event F) (a : Map Application) (v : Map (VllmMetrics F)) (ws : WorldState F)
      → apply_event e (with a v ws)
        ≡ with (to_applications e a) (to_metrics e v) (if is_plain e then apply_event e ws else ws)
  unfolding apply_event update_vllm_metrics upsert_application
  apply_event-with e a v ws = elim (Option-cases e.cluster_event) [
    | inl nothing ↦ ground (arith, nothing)
    | inr (ce, given) ↦ ground (arith, given, apply_cluster_event-with ce a v ws)
  ]

  apply_events-with :
      (es : List (Event F)) (a : Map Application) (v : Map (VllmMetrics F)) (ws : WorldState F)
      → apply_events es (with a v ws)
        ≡ with
            (all_to_applications es a)
            (all_to_metrics es v)
            (apply_events (select is_plain es) ws)
  unfolding apply_events
  apply_events-with [] a v ws = refl
  apply_events-with (e ∷ es) a v ws =
      let tail =
        apply_events-with es (to_applications e a) (to_metrics e v)
          (if is_plain e then apply_event e ws else ws) in
      ap (apply_events es) (apply_event-with e a v ws) ∙ tail ∙ ground arith

  pub apply_events-applications :
      (es : List (Event F)) (ws : WorldState F)
      → (apply_events es ws).applications ≡ all_to_applications es ws.applications
  apply_events-applications es ws =
      ap (λ s. s.applications) (apply_events-with es ws.applications ws.vllm_metrics ws)

module _ {F : Type 0} where
  all-append :
      (p : Event F → Bool) (xs ys : List (Event F)) → all p (xs ++ ys) ≡ (all p xs && all p ys)
  all-append p [] ys = refl
  all-append p (x ∷ xs) ys = ground (arith, all-append p xs ys)

  all-insert :
      (p : Event F → Bool) (k : String) (e : Event F) (m : Map (Event F))
      → p e ≡ true
      → all p (values m) ≡ true
      → all p (values (insert k e m)) ≡ true
  all-insert p k e [] h a = ground (arith, h)
  all-insert p k e ((i, f) ∷ m) h a = ground (arith, h, a, all-insert p k e m h)

  collect-all :
      (p : Event F → Bool) (e : Event F) (d : Debouncer F)
      → p e ≡ true
      → all p (accepted d) ≡ true
      → all p (accepted (collect e d)) ≡ true
  unfolding collect
  collect-all p e d h a =
      let outer = all-append p (concat d.sent) (waiting d) in
      let inner = all-append p (values d.merged) d.non_mergeable in
      elim (Bool-cases (is_mergeable e)) [
        | inl merges ↦
            rw (merges, collect)
              (ground (
                arith,
                h,
                a,
                outer,
                inner,
                all-insert p (key_of e.kind e.app_id) e d.merged,
                all-append p (concat d.sent)
                    (values (insert (key_of e.kind e.app_id) e d.merged) ++ d.non_mergeable),
                all-append p (values (insert (key_of e.kind e.app_id) e d.merged)) d.non_mergeable,
              ))
        | inr single ↦
            rw (single, collect)
              (ground (
                arith,
                h,
                a,
                outer,
                inner,
                all-append p (concat d.sent) (values d.merged ++ (d.non_mergeable ++ e ∷ [])),
                all-append p (values d.merged) (d.non_mergeable ++ e ∷ []),
                all-append p d.non_mergeable (e ∷ []),
              ))
      ]

  -- What holds of the events that arrive holds of those sent and waiting.
  Debounced-all :
      {es : List (Event F)} {done : Bool} {d : Debouncer F} (p : Event F → Bool)
      → Debounced es done d
      → all p es ≡ true
      → all p (accepted d) ≡ true
  unfolding fire discard final_flush collect
  Debounced-all p begun a = refl
  Debounced-all p (arrived {es = es} {d = d} r go e) a =
      let before = Debounced-all p r (ground (arith, all-append p es (e ∷ []), a)) in
      collect-all p e d (ground (arith, all-append p es (e ∷ []), a)) before
  Debounced-all p (fired {d = d} r go on) a = ap (all p) (flush-accepted d) ∙ Debounced-all p r a
  Debounced-all p (cancelled r) a = Debounced-all p r a
  Debounced-all p (discarded {d = d} r go on) a = ground (
    arith,
    all-append p (concat d.sent) (waiting d),
    all-append p (concat d.sent) [],
    Debounced-all p r a,
  )
  Debounced-all p (finished {d = d} r go) a = ap (all p) (flush-accepted d) ∙ Debounced-all p r a

module _ {F : Type 0} ⦃fl : Float64 F⦄ where
  -- The same state but for the order in which the maps of applications and of metrics list them.
  pub record IsSame (id : String) (x y : WorldState F) : Type 0 where
    pub same_clusters : x.clusters ≡ y.clusters
    pub same_replicas : x.replicas ≡ y.replicas
    pub same_application : lookup id x.applications ≡ lookup id y.applications
    pub same_metrics : lookup id x.vllm_metrics ≡ lookup id y.vllm_metrics
    pub same_reservations : x.reservations ≡ y.reservations
    pub same_history : x.scaling_history ≡ y.scaling_history
    pub same_gauges : x.replicas_gauge ≡ y.replicas_gauge

  apply_events-IsSame :
      (id : String) (xs ys : List (Event F)) (ws : WorldState F)
      → all well_formed xs ≡ true
      → all well_formed ys ≡ true
      → select is_plain xs ≡ select is_plain ys
      → last_of (is_about EventKind.app_config_update id) xs
        ≡ last_of (is_about EventKind.app_config_update id) ys
      → last_of (is_about EventKind.metrics_update id) xs
        ≡ last_of (is_about EventKind.metrics_update id) ys
      → IsSame id (apply_events xs ws) (apply_events ys ws)
  apply_events-IsSame id xs ys ws wx wy plain apps metrics =
      let a = ws.applications in
      let v = ws.vllm_metrics in
      let fx = apply_events-with xs a v ws in
      let fy = apply_events-with ys a v ws in
      let core = ap (λ l. apply_events l ws) plain in
      record {
        same_clusters =
            ap (λ s. s.clusters) fx ∙ ap (λ s. s.clusters) core ∙ sym (ap (λ s. s.clusters) fy);
        same_replicas =
            ap (λ s. s.replicas) fx ∙ ap (λ s. s.replicas) core ∙ sym (ap (λ s. s.replicas) fy);
        same_application =
            ap (λ s. lookup id s.applications) fx
            ∙ lookup-all_to_applications id xs a wx
            ∙ ap (λ o. application_or o (lookup id a)) apps
            ∙ sym (lookup-all_to_applications id ys a wy)
            ∙ sym (ap (λ s. lookup id s.applications) fy);
        same_metrics =
            ap (λ s. lookup id s.vllm_metrics) fx
            ∙ lookup-all_to_metrics id xs v wx
            ∙ ap (λ o. metrics_or o (lookup id v)) metrics
            ∙ sym (lookup-all_to_metrics id ys v wy)
            ∙ sym (ap (λ s. lookup id s.vllm_metrics) fy);
        same_reservations =
            ap (λ s. s.reservations) fx
            ∙ ap (λ s. s.reservations) core
            ∙ sym (ap (λ s. s.reservations) fy);
        same_history =
            ap (λ s. s.scaling_history) fx
            ∙ ap (λ s. s.scaling_history) core
            ∙ sym (ap (λ s. s.scaling_history) fy);
        same_gauges =
            ap (λ s. s.replicas_gauge) fx
            ∙ ap (λ s. s.replicas_gauge) core
            ∙ sym (ap (λ s. s.replicas_gauge) fy);
      }

  -- While the context is not done, and if each metrics or configuration event that arrives carries its
  -- payload under the application that it names: applying the batches sent and what waits to a state
  -- gives the clusters, replicas, reservations, history and gauges of replicas that applying the events
  -- one by one as they arrived gives, and the same application and metrics under each identifier.
  pub apply_events-Debounced :
      {es : List (Event F)} {d : Debouncer F} (id : String) (ws : WorldState F)
      → all well_formed es ≡ true
      → Debounced es false d
      → IsSame id (apply_events (accepted d) ws) (apply_events es ws)
  apply_events-Debounced {es = es} {d = d} id ws formed r =
      apply_events-IsSame id (accepted d) es ws (Debounced-all well_formed r formed) formed
        (Debounced-select r) (Debounced-last_of EventKind.app_config_update id refl r)
        (Debounced-last_of EventKind.metrics_update id refl r)
