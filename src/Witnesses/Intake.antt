-- ===== src/Witnesses/Intake.antt =====
-- The theorems on the intake of events, at two updates of the metrics of an application, a node that
-- comes up between them, and a timer that fires before the second.
use schedulator.Prelude.{
  ◌≤◌, ◌≡◌, refl, ◌⊎◌, 0ℤ, pos, ℤ, ◌==◌, true, false, not, List, [], ◌∷◌, some, lookup, is_empty,
  select, count, last_of, any, All, arith,
}
use schedulator.Model.{Application}
use schedulator.Model.Plans.{ClusterEvent, ClusterEventKind}
use schedulator.WorldState.{empty}
use schedulator.Scaling.{is_sla_breach}
use schedulator.Ingestion.{
  EventKind, Event, Debouncer, idle, waiting, collect, flush, fire, Debounced, begun, arrived,
  fired,
}
use schedulator.Ingestion.Listeners.{
  Ingester, Input, app_config, metrics, cluster, metrics_event, bare, check_sla_breach, hear_all,
}
use schedulator.Ingestion.Batches.{is_about}
use schedulator.Ingestion.Batches
use schedulator.Ingestion.Latest.{accepted, is_plain}
use schedulator.Ingestion.Latest
use schedulator.Ingestion.Breaches
use schedulator.ControlLoop.Events.{apply_events}
use schedulator.ControlLoop.Batching.{IsSame}
use schedulator.ControlLoop.Batching
use schedulator.ControlLoop.Registry
use schedulator.Samples.{thousandths, app_high, metrics_high}

abbrev node_up : ClusterEvent
node_up = record {
  kind = ClusterEventKind.node_up;
  cluster_id = "c1";
  node_id = "n1";
  replica_id = "";
  app_id = "";
  gpus = 0ℤ;
  total_gpus = pos 8;
  timestamp = 6;
}

abbrev first_event : Event ℤ
first_event = metrics_event "high" metrics_high

abbrev node_event : Event ℤ
node_event = record (bare EventKind.cluster_event 6 "") { cluster_event = some node_up }

abbrev last_event : Event ℤ
last_event = metrics_event "high" (record metrics_high { measured_at = 9 })

abbrev gathered : Debouncer ℤ
gathered = collect last_event (fire (collect node_event (collect first_event idle)))

abbrev pub events : List (Event ℤ)
events = first_event ∷ node_event ∷ last_event ∷ []

gathered-Debounced : Debounced events false gathered
unfolding collect fire flush
gathered-Debounced =
    arrived (fired (arrived (arrived begun refl first_event) refl node_event) refl refl) refl
      last_event

Debounced-armed_example :
    ((gathered.armed ≡ not (is_empty (waiting gathered))) ⊎ (gathered.stopped ≡ true))
    × ((gathered.stopped ≡ false) ⊎ (is_empty (waiting gathered) ≡ true))
    × All (λ b. is_empty b ≡ false) gathered.sent
Debounced-armed_example = Batches.Debounced-armed gathered-Debounced

Debounced-select_example : select is_plain (accepted gathered) ≡ select is_plain events
Debounced-select_example = Latest.Debounced-select gathered-Debounced

Debounced-last_of_example :
    last_of (is_about EventKind.metrics_update "high") (accepted gathered)
    ≡ last_of (is_about EventKind.metrics_update "high") events
Debounced-last_of_example =
    Latest.Debounced-last_of EventKind.metrics_update "high" refl gathered-Debounced

Debounced-count_example :
    All (λ b. count (is_about EventKind.metrics_update "high") b ≤ 1) gathered.sent
Debounced-count_example =
    Latest.Debounced-count EventKind.metrics_update "high" refl gathered-Debounced

apply_events-Debounced_example :
    IsSame "high" (apply_events (accepted gathered) empty) (apply_events events empty)
apply_events-Debounced_example =
    Batching.apply_events-Debounced "high" empty refl gathered-Debounced

abbrev strict_app : Application
strict_app = record app_high {
  sla = record { app_id = "high"; max_p99_ttft_ms = pos 200; max_p99_tps = pos 50 };
}

check_sla_breach-is_sla_breach_example :
    any (λ e. e.sla_metric == "P99TTFT") (check_sla_breach 7 8 strict_app metrics_high)
    ≡ is_sla_breach strict_app metrics_high
check_sla_breach-is_sla_breach_example =
    Breaches.check_sla_breach-is_sla_breach 7 8 strict_app metrics_high (omega arith)

abbrev no_apps : Ingester
no_apps = record { app_registry = [] }

abbrev inputs : List (Input ℤ)
inputs = app_config 5 strict_app ∷ metrics 7 8 metrics_high ∷ cluster node_up ∷ []

hear_all-apply_events_example :
    lookup "high" (hear_all inputs no_apps).0.app_registry
    ≡ lookup "high" (apply_events (hear_all inputs no_apps).1 empty).applications
unfolding empty
hear_all-apply_events_example = Registry.hear_all-apply_events inputs no_apps empty "high" refl refl
