-- ===== src/Ingestion/Listeners.antt =====
-- internal/ingestion/ingester.go: what the listeners send for each input, and the registry of
-- applications. The sources of inputs, interfaces of pkg/ports, come in as their answers; a time
-- that the code takes by time.Now is an argument.
use schedulator.Prelude.{
  0ℤ, ltb_ℤ, String, ◌&&◌, List, [], ◌∷◌, ◌++◌, Option, none, some, Map, lookup, insert, values,
  if◌then◌else◌,
}
use schedulator.Floats.{Float64}
use schedulator.Model.{Time, Application, VllmMetrics}
use schedulator.Model.Plans.{ClusterEvent}
use schedulator.Ingestion.{EventKind, Event}

-- The state of the ingester.
pub record Ingester : Type 0 where
  pub app_registry : Map Application

-- The errors of Start, by the call that fails.
pub data StartError (E : Type 0) : Type 0 where
  list_applications watch_events watch_applications watch_metrics : E → StartError E

pub data Started (E : Type 0) : Type 0 where
  refused : StartError E → Started E
  listening : Ingester → Started E

unfoldable pub seed : List Application → Map Application → Map Application
seed [] m = m
seed (app ∷ apps) m = seed apps (insert app.app_id app m)

-- Start up to the listeners, on the applications listed or the error, and the errors of the watches.
unfoldable pub start_listening :
    {E : Type 0}
    → Option E
    → List Application
    → (events applications metrics : Option E) → Started E
unfolding seed
start_listening (some e) apps events applications metrics = refused (list_applications e)
start_listening none apps (some e) applications metrics = refused (watch_events e)
start_listening none apps none (some e) metrics = refused (watch_applications e)
start_listening none apps none none (some e) = refused (watch_metrics e)
start_listening none apps none none none = listening record { app_registry = seed apps [] }

module _ {F : Type 0} ⦃fl : Float64 F⦄ where
  -- An event of a kind with its other fields at their zero values.
  abbrev pub bare : EventKind → Time → String → Event F
  bare kind at app_id = record {
    kind = kind;
    timestamp = at;
    app_id = app_id;
    vllm_metrics = none;
    cluster_event = none;
    application = none;
    sla_metric = "";
    sla_threshold = fl.of_int 0ℤ;
    sla_actual = fl.of_int 0ℤ;
  }

  abbrev pub metrics_event : String → VllmMetrics F → Event F
  metrics_event app_id m = record (bare EventKind.metrics_update m.measured_at app_id) {
    vllm_metrics = some m;
  }

  -- The two breaches, at the times of the two calls of time.Now.
  unfoldable pub check_sla_breach : (at later : Time) → Application → VllmMetrics F → List (Event F)
  check_sla_breach at later app m =
      (if ltb_ℤ 0ℤ app.sla.max_p99_ttft_ms
          && fl.lt (fl.of_int app.sla.max_p99_ttft_ms) m.p99_time_to_first_token_ms
        then record (bare EventKind.sla_breach at app.app_id) {
          sla_metric = "P99TTFT";
          sla_threshold = fl.of_int app.sla.max_p99_ttft_ms;
          sla_actual = m.p99_time_to_first_token_ms;
        }
          ∷ []
        else [])
      ++ (if ltb_ℤ 0ℤ app.sla.max_p99_tps
            && fl.lt m.total_tokens_per_second (fl.of_int app.sla.max_p99_tps)
          then record (bare EventKind.sla_breach later app.app_id) {
            sla_metric = "TPS";
            sla_threshold = fl.of_int app.sla.max_p99_tps;
            sla_actual = m.total_tokens_per_second;
          }
            ∷ []
          else [])

  -- The breaches of metrics whose application is registered.
  abbrev pub registered_breach : (at later : Time) → VllmMetrics F → Ingester → List (Event F)
  registered_breach at later m ing = elim (lookup m.app_id ing.app_registry) [
    | none ↦ []
    | some app ↦ check_sla_breach at later app m
  ]

  -- One turn of each listener: the events that it sends, in order.
  unfoldable pub hear_injected : (at later : Time) → Event F → Ingester → List (Event F)
  unfolding check_sla_breach
  hear_injected at later e ing = e ∷ elim e.kind [
    | EventKind.metrics_update ↦ elim e.vllm_metrics [
      | none ↦ []
      | some m ↦ registered_breach at later m ing
    ]
    | EventKind.cluster_event ↦ []
    | EventKind.sla_breach ↦ []
    | EventKind.periodic_eval ↦ []
    | EventKind.app_config_update ↦ []
  ]

  unfoldable pub hear_cluster_event : ClusterEvent → List (Event F)
  hear_cluster_event ce =
      record (bare EventKind.cluster_event ce.timestamp "") { cluster_event = some ce } ∷ []

  unfoldable pub hear_app_config : Time → Application → Ingester → Ingester × List (Event F)
  hear_app_config at app ing = (
    record { app_registry = insert app.app_id app ing.app_registry },
    record (bare EventKind.app_config_update at app.app_id) { application = some app } ∷ [],
  )

  unfoldable pub hear_metrics : (at later : Time) → VllmMetrics F → Ingester → List (Event F)
  unfolding check_sla_breach
  hear_metrics at later m ing = metrics_event m.app_id m ∷ registered_breach at later m ing

  -- doPollMetrics: `ask` is GetVLLMMetrics, without a value on an error.
  unfoldable pub poll_each :
      (at later : Time) → (String → Option (VllmMetrics F)) → List Application → List (Event F)
  unfolding check_sla_breach
  poll_each at later ask [] = []
  poll_each at later ask (app ∷ apps) =
      let rest = poll_each at later ask apps in
      elim (ask app.app_id) [
        | none ↦ rest
        | some m ↦ (metrics_event app.app_id m ∷ check_sla_breach at later app m) ++ rest
      ]

  unfoldable pub poll_metrics :
      (at later : Time) → (String → Option (VllmMetrics F)) → Ingester → List (Event F)
  unfolding poll_each
  poll_metrics at later ask ing = poll_each at later ask (values ing.app_registry)

  unfoldable pub hear_tick : Time → List (Event F)
  hear_tick at = bare EventKind.periodic_eval at "" ∷ []

-- What a listener receives.
pub data Input (F : Type 0) : Type 0 where
  injected : (at later : Time) → Event F → Input F
  cluster : ClusterEvent → Input F
  app_config : Time → Application → Input F
  metrics : (at later : Time) → VllmMetrics F → Input F
  polled : (at later : Time) → (String → Option (VllmMetrics F)) → Input F
  ticked : Time → Input F

module _ {F : Type 0} ⦃fl : Float64 F⦄ where
  -- One turn of the listener of an input.
  unfoldable pub hear : Input F → Ingester → Ingester × List (Event F)
  unfolding hear_injected hear_cluster_event hear_app_config hear_metrics poll_metrics hear_tick
  hear (injected at later e) ing = (ing, hear_injected at later e ing)
  hear (cluster ce) ing = (ing, hear_cluster_event ce)
  hear (app_config at app) ing = hear_app_config at app ing
  hear (metrics at later m) ing = (ing, hear_metrics at later m ing)
  hear (polled at later ask) ing = (ing, poll_metrics at later ask ing)
  hear (ticked at) ing = (ing, hear_tick at)

  unfoldable pub hear_all : List (Input F) → Ingester → Ingester × List (Event F)
  unfolding hear
  hear_all [] ing = (ing, [])
  hear_all (i ∷ is) ing =
      let (heard, events) = hear i ing in
      let (last, rest) = hear_all is heard in (last, events ++ rest)
