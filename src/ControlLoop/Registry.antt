-- ===== src/ControlLoop/Registry.antt =====
-- internal/ingestion/ingester.go with internal/controlloop/loop.go: the applications that the ingester
-- and the world state know.
use schedulator.Prelude.{
  String, Bool, true, not, List, [], ◌∷◌, ◌++◌, Option, none, some, Map, lookup, lookup-insert,
  values, all, ◌≡◌, refl, sym, ap, ◌∙◌, arith, Option-cases, inl, inr,
}
use schedulator.Floats.{Float64}
use schedulator.Model.{Time, Application, VllmMetrics}
use schedulator.WorldState.{WorldState}
use schedulator.Ingestion.{EventKind, Event, same_kind}
use schedulator.Ingestion.Listeners.{
  Ingester, Input, injected, cluster, app_config, metrics, polled, ticked, check_sla_breach,
  registered_breach, hear, hear_all, hear_injected, hear_cluster_event, hear_app_config,
  hear_metrics, poll_metrics, poll_each, hear_tick,
}
use schedulator.ControlLoop.Events.{apply_events}
use schedulator.ControlLoop.Batching.{
  to_applications, all_to_applications, apply_events-applications,
}

-- An input other than an injected configuration event.
abbrev pub is_ordinary : {F : Type 0} → Input F → Bool
is_ordinary (injected at later e) = not (same_kind e.kind EventKind.app_config_update)
is_ordinary (cluster ce) = true
is_ordinary (app_config at app) = true
is_ordinary (metrics at later m) = true
is_ordinary (polled at later ask) = true
is_ordinary (ticked at) = true

module _ {F : Type 0} where
  all_to_applications-append :
      (xs ys : List (Event F)) (a : Map Application)
      → all_to_applications (xs ++ ys) a ≡ all_to_applications ys (all_to_applications xs a)
  all_to_applications-append [] ys a = refl
  all_to_applications-append (e ∷ xs) ys a = all_to_applications-append xs ys (to_applications e a)

module _ {F : Type 0} ⦃fl : Float64 F⦄ where
  breaches_config_nothing :
      (at later : Time) (app : Application) (m : VllmMetrics F) (a : Map Application)
      → all_to_applications (check_sla_breach at later app m) a ≡ a
  unfolding check_sla_breach
  breaches_config_nothing at later app m a = ground arith

  registered_config_nothing :
      (at later : Time) (m : VllmMetrics F) (ing : Ingester) (a : Map Application)
      → all_to_applications (registered_breach at later m ing) a ≡ a
  registered_config_nothing at later m ing a = go (lookup m.app_id ing.app_registry)
    where
      go :
          (o : Option Application)
          → all_to_applications
              (elim o [ none ↦ [] | some app ↦ check_sla_breach at later app m ])
              a
            ≡ a
      go none = refl
      go (some app) = breaches_config_nothing at later app m a

  polls_config_nothing :
      (at later : Time) (ask : String → Option (VllmMetrics F)) (apps : List Application)
      (a : Map Application)
      → all_to_applications (poll_each at later ask apps) a ≡ a
  unfolding poll_each
  polls_config_nothing at later ask [] a = refl
  polls_config_nothing at later ask (app ∷ apps) a = elim (Option-cases (ask app.app_id)) [
    | inl silent ↦ rw (silent, poll_each) (polls_config_nothing at later ask apps a)
    | inr (m, given) ↦
        rw (given, poll_each)
          (all_to_applications-append (check_sla_breach at later app m)
              (poll_each at later ask apps) a
            ∙ ap (all_to_applications (poll_each at later ask apps))
                (breaches_config_nothing at later app m a)
            ∙ polls_config_nothing at later ask apps a)
  ]

  hear-applications :
      (i : Input F) (ing : Ingester) (a : Map Application) (id : String)
      → is_ordinary i ≡ true
      → lookup id ing.app_registry ≡ lookup id a
      → lookup id (hear i ing).0.app_registry ≡ lookup id (all_to_applications (hear i ing).1 a)
  unfolding hear hear_injected hear_cluster_event hear_app_config hear_metrics poll_metrics
      hear_tick
  hear-applications (injected at later e) ing a id o h = elim (Option-cases e.vllm_metrics) [
    | inl nothing ↦ ground (arith, o, h, nothing)
    | inr (m, given) ↦ ground (arith, o, h, given, registered_config_nothing at later m ing a)
  ]
  hear-applications (cluster ce) ing a id o h = h
  hear-applications (app_config at app) ing a id o h = ground (
    arith,
    h,
    lookup-insert app.app_id id app ing.app_registry,
    lookup-insert app.app_id id app a,
  )
  hear-applications (metrics at later m) ing a id o h =
      h ∙ sym (ap (lookup id) (registered_config_nothing at later m ing a))
  hear-applications (polled at later ask) ing a id o h =
      h ∙ sym (ap (lookup id) (polls_config_nothing at later ask (values ing.app_registry) a))
  hear-applications (ticked at) ing a id o h = h

  hear_all-applications :
      (is : List (Input F)) (ing : Ingester) (a : Map Application) (id : String)
      → all is_ordinary is ≡ true
      → lookup id ing.app_registry ≡ lookup id a
      → lookup id (hear_all is ing).0.app_registry
        ≡ lookup id (all_to_applications (hear_all is ing).1 a)
  unfolding hear_all
  hear_all-applications [] ing a id o h = h
  hear_all-applications (i ∷ is) ing a id o h =
      let heard = hear i ing in
      let step = hear-applications i ing a id (ground (arith, o)) h in
      hear_all-applications is heard.0 (all_to_applications heard.1 a) id (ground (arith, o)) step
      ∙ sym (ap (lookup id) (all_to_applications-append heard.1 (hear_all is heard.0).1 a))

  -- As long as no configuration event is injected: whatever the listeners receive, applying the events
  -- that they send keeps the ingester's registry and the world state's applications in agreement.
  pub hear_all-apply_events :
      (is : List (Input F)) (ing : Ingester) (ws : WorldState F) (id : String)
      → all is_ordinary is ≡ true
      → lookup id ing.app_registry ≡ lookup id ws.applications
      → lookup id (hear_all is ing).0.app_registry
        ≡ lookup id (apply_events (hear_all is ing).1 ws).applications
  hear_all-apply_events is ing ws id o h =
      hear_all-applications is ing ws.applications id o h
      ∙ sym (ap (lookup id) (apply_events-applications (hear_all is ing).1 ws))
